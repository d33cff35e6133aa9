-- ===== src/SqlIdent.antt =====
-- crates/core/src/sql_ident.rs: validation of path components and filename tokens, and bracket
-- quoting of T-SQL identifiers.
pub mod Lexer
pub mod Quoting
pub mod Accepts
use mssql_migrator.Prelude.{
  show, ℕ, zero, suc, ◌+◌, ◌-◌, ◌*◌, ◌≤◌, ◌<◌, ◌≡◌, refl, sym, ap, ◌∙◌, ◌≢◌, ◌↔◌, ◌⊎◌, inl, inr,
  Bool, true, false, not, ◌&&◌, ◌||◌, Option, none, some, List, [], ◌∷◌, ◌++◌, map, reverse, arith,
  String, ltb, leb, ◌==◌, if◌then◌else◌, ==_iff, ==_refl, Bool-cases, Option-cases, length,
  get_elem?, set, replicate, resize, is_empty, all, any, length-append, length-set, length-resize,
  get_elem?-set_self, get_elem?-some, All, length-map, lookup, without, insert, lookup-without,
  lookup-insert, Text, codes, eq_text, starts_with, strip_prefix, ends_with, contains, split,
  push_front, join, split_once, replace, lookup_text, mem_text, eq_text_iff, eq_text_refl,
  contains-append, contains-starts_with, join-split, starts_with-append, split-ne-nil,
}
use mssql_migrator.Error.{Error, invalid_input, Result, ok, err, ◌>>=◌, ◌>>◌}

-- One character under Rust's `{:?}`; escapes of unprintable characters are not rendered.
debug_char : ℕ → Text
debug_char c =
    if c == b'"'
    then codes "\\\""
    else if c == b'\\'
    then codes "\\\\"
    else if c == 0
    then codes "\\0"
    else if c == 10
    then codes "\\n"
    else if c == 13
    then codes "\\r"
    else if c == 9
    then codes "\\t"
    else c ∷ []

debug_body : Text → Text
unfolding debug_char
debug_body [] = []
debug_body (c ∷ s) = debug_char c ++ debug_body s

unfoldable pub debug : Text → Text
unfolding debug_body
debug s = b'"' ∷ (debug_body s ++ (b'"' ∷ []))

-- `'/' | '\\' | '\0'`
unfoldable pub is_separator : ℕ → Bool
is_separator c = c == b'/' || c == b'\\' || c == 0

-- The loop over the characters, which fails at the first separator.
unfoldable pub check_chars : Text → Text → Result (Unit {0})
unfolding is_separator debug_char
check_chars name [] = ok tt
check_chars name (c ∷ s) =
    if is_separator c
    then err (
        invalid_input (
          codes "invalid character '"
          ++ debug_char c
          ++ codes "' in path component: "
          ++ debug name))
    else check_chars name s

unfoldable pub validate_path_component : Text → Result (Unit {0})
unfolding check_chars debug
validate_path_component name =
    if is_empty name
    then err (invalid_input (codes "empty path component"))
    else if eq_text name (codes ".") || eq_text name (codes "..")
    then err (invalid_input (codes "invalid path component: " ++ debug name))
    else check_chars name name

unfoldable pub is_ascii_digit : ℕ → Bool
is_ascii_digit c = leb b'0' c && leb c b'9'

unfoldable pub is_ascii_alphanumeric : ℕ → Bool
unfolding is_ascii_digit
is_ascii_alphanumeric c =
    is_ascii_digit c || (leb b'a' c && leb c b'z') || (leb b'A' c && leb c b'Z')

unfoldable pub is_token_char : ℕ → Bool
unfolding is_ascii_alphanumeric
is_token_char c = is_ascii_alphanumeric c || c == b'_' || c == b'-'

unfoldable pub validate_filename_token : Text → Result (Unit {0})
unfolding is_token_char
validate_filename_token token =
    if is_empty token
    then err (invalid_input (codes "empty filename token"))
    else if not (all is_token_char token)
    then err (invalid_input (codes "invalid filename token: " ++ debug token))
    else ok tt

abbrev pub max_ident : ℕ
max_ident = 128

too_long : Text → Error
too_long name = invalid_input (
    codes "identifier too long (" ++ show (length name) ++ codes " chars, max 128): " ++ debug name)

-- `format!("[{}]", name.replace(']', "]]"))`
unfoldable pub bracketed : Text → Text
bracketed name = b'[' ∷ (replace b']' (codes "]]") name ++ codes "]")

unfoldable pub bracket_ident : Text → Result Text
unfolding bracketed too_long
bracket_ident name = do
  validate_path_component name
  if ltb max_ident (length name) then err (too_long name) else ok (bracketed name)
