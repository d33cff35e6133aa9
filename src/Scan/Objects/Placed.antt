-- ===== src/Scan/Objects/Placed.antt =====
-- Where the scanner admits an object script (crates/core/src/scan/parse_object.rs).
use mssql_migrator.Prelude.{
  ◌≡◌, refl, sym, ap, ◌∙◌, inl, inr, true, false, Option, none, some, List, [], ◌∷◌, ◌++◌, ◌⊎◌,
  arith, Bool-cases, Text, codes, eq_text, split, mem_text, eq_text_iff,
}
use mssql_migrator.Error.{Result, ok, err, is_ok, ◌>>=◌}
use mssql_migrator.SqlIdent.{validate_path_component}
use mssql_migrator.SqlIdent.Accepts.{IsComponent, validate_path_component_iff}
use mssql_migrator.Domain.Kind.{kinds}
use mssql_migrator.Domain.Workspace.{Digest}
use mssql_migrator.Domain.Paths.{slash, object_key}
use mssql_migrator.Scan.Checksum.{content_checksum}
use mssql_migrator.Scan.Names.{is_dot_sql, strip_sql_ext, is_checks, is_check_path}
use mssql_migrator.Scan.Objects.{
  ParsedObject, file_checksum, parsed, parse_four, parse_parts, parse_object,
}
use mssql_migrator.Apply.Conn.{FileRead, contents, read_failed}

-- The path has four segments with a known kind and admissible names, the name is the file's or the
-- file's without a `.sql` at its end, and the object has their key and the checksum of the file.
pub record PlacedAt (lower : Text → Text) (sha256 : Text → Digest) (read : FileRead)
    (parts : List Text) (p : ParsedObject) : Type 0 where
  pub database : Text
  pub schema : Text
  pub kind : Text
  pub file : Text
  pub bytes : Text
  pub four : parts ≡ database ∷ schema ∷ kind ∷ file ∷ []
  pub known : mem_text kind kinds ≡ true
  pub database_fine : IsComponent database
  pub schema_fine : IsComponent schema
  pub name_fine : IsComponent (strip_sql_ext file)
  pub stem :
      (file ≡ strip_sql_ext file)
      ⊎ ((ext : Text) × (file ≡ strip_sql_ext file ++ ext) × (is_dot_sql ext ≡ true))
  pub content : read ≡ contents bytes
  pub key : p.key ≡ object_key lower schema kind (strip_sql_ext file)
  pub checksum : p.entry.checksum ≡ content_checksum sha256 bytes

-- The name is the file's, or the file's without a `.sql` at its end.
strip_sql_ext-stem :
    (file : Text)
    → (file ≡ strip_sql_ext file)
      ⊎ ((ext : Text) × (file ≡ strip_sql_ext file ++ ext) × (is_dot_sql ext ≡ true))
unfolding strip_sql_ext
strip_sql_ext-stem [] = inl refl
strip_sql_ext-stem (c ∷ s) = elim (Bool-cases (is_dot_sql (c ∷ s))) [
  | inl e ↦ inr (c ∷ s, rw (e, strip_sql_ext) refl, e)
  | inr e ↦ elim (strip_sql_ext-stem s) [
    | inl same ↦ inl (rw (e, strip_sql_ext) (ap (λ (t : Text). c ∷ t) same))
    | inr (ext, split_at, dot) ↦
        inr (ext, rw (e, strip_sql_ext) (ap (λ (t : Text). c ∷ t) split_at), dot)
  ]
]

step {κ ℓ} :
    {T : Type κ} {U : Type ℓ} (r : Result T) (rest : T → Result U) {u : U}
    → (r >>= rest) ≡ ok u
    → (t : T) × (r ≡ ok t) × (rest t ≡ ok u)
step (ok t) rest h = (t, refl, h)
step (err e) rest h = absurd (ground arith)

some-same {ℓ} : {A : Type ℓ} {a b : A} → ok (some a) ≡ ok (some b) → a ≡ b
some-same h = ground arith

admitted : (name : Text) {u : Unit {0}} → validate_path_component name ≡ ok u → IsComponent name
admitted name h = (validate_path_component_iff name).0 (ap is_ok h)

module _ (lower : Text → Text) (sha256 : Text → Digest) (read : FileRead) (rel abs : Text) where
  checksum_of :
      (r : FileRead) {cs : Digest}
      → file_checksum lower sha256 read rel abs r ≡ ok cs
      → (bytes : Text) × (r ≡ contents bytes) × (content_checksum sha256 bytes ≡ cs)
  unfolding file_checksum
  checksum_of (read_failed e) h = absurd (ground arith)
  checksum_of (contents bytes) h = (bytes, refl, ground arith)

  parsed-key :
      (schema kind name : Text) (cs : Digest)
      → (parsed lower sha256 read rel abs schema kind name cs).key
        ≡ object_key lower schema kind name
  unfolding parsed
  parsed-key schema kind name cs = refl

  parsed-checksum :
      (schema kind name : Text) (cs : Digest)
      → (parsed lower sha256 read rel abs schema kind name cs).entry.checksum ≡ cs
  unfolding parsed
  parsed-checksum schema kind name cs = refl

  -- The body of the function behind its guard.
  abbrev checked : Text → Text → Text → Text → Result (Option ParsedObject)
  checked database schema kind file = validate_path_component database >>= λ u.
      validate_path_component schema >>= λ v. validate_path_component (strip_sql_ext file) >>= λ w.
      file_checksum lower sha256 read rel abs read >>= λ cs.
      ok (some (parsed lower sha256 read rel abs schema kind (strip_sql_ext file) cs))

  parse_four-checked :
      (database schema kind file : Text)
      → mem_text kind kinds ≡ true
      → parse_four lower sha256 read rel abs database schema kind file
        ≡ checked database schema kind file
  unfolding parse_four
  parse_four-checked database schema kind file m = rw m refl

  four-PlacedAt :
      (database schema kind file : Text) {p : ParsedObject}
      → parse_four lower sha256 read rel abs database schema kind file ≡ ok (some p)
      → PlacedAt lower sha256 read (database ∷ schema ∷ kind ∷ file ∷ []) p
  unfolding parse_four
  four-PlacedAt database schema kind file {p} h = elim (Bool-cases (mem_text kind kinds)) [
    | inr m ↦ absurd (ground (arith, m))
    | inl m ↦
        let name = strip_sql_ext file in
        let h0 = sym (parse_four-checked database schema kind file m) ∙ h in
        let (u1, d, h1) = step (validate_path_component database) _ h0 in
        let (u2, s, h2) = step (validate_path_component schema) _ h1 in
        let (u3, n, h3) = step (validate_path_component name) _ h2 in
        let (cs, c, h4) = step (file_checksum lower sha256 read rel abs read) _ h3 in
        let (bytes, r, e) = checksum_of read c in
        let same = some-same h4 in
        record {
          database = database;
          schema = schema;
          kind = kind;
          file = file;
          bytes = bytes;
          four = refl;
          known = m;
          database_fine = admitted database d;
          schema_fine = admitted schema s;
          name_fine = admitted name n;
          stem = strip_sql_ext-stem file;
          content = r;
          key = sym (ap ParsedObject.key same) ∙ parsed-key schema kind name cs;
          checksum =
              sym (ap (λ q. q.entry.checksum) same) ∙ parsed-checksum schema kind name cs ∙ sym e;
        }
  ]

  parts-PlacedAt :
      (parts : List Text) {p : ParsedObject}
      → parse_parts lower sha256 read rel abs parts ≡ ok (some p)
      → PlacedAt lower sha256 read parts p
  unfolding parse_parts
  parts-PlacedAt [] h = absurd (ground arith)
  parts-PlacedAt (a ∷ []) h = absurd (ground arith)
  parts-PlacedAt (a ∷ b ∷ []) h = absurd (ground arith)
  parts-PlacedAt (a ∷ b ∷ c ∷ []) h = absurd (ground arith)
  parts-PlacedAt (a ∷ b ∷ c ∷ d ∷ []) h = four-PlacedAt a b c d h
  parts-PlacedAt (a ∷ b ∷ c ∷ d ∷ e ∷ r) h = absurd (ground arith)

-- A path is admitted as an object only if it has four segments, `<database>/<schema>/<kind>/<file>`,
-- with a known kind, and an admissible database, schema and name; the name is the file's, less one
-- `.sql` in any case where the file ends in it; the key is made of schema, kind and name, and the
-- checksum is that of the file's bytes. The extension is not required.
pub parse_object_placed :
    (lower : Text → Text) (sha256 : Text → Digest) (read : FileRead) (rel abs : Text)
    {p : ParsedObject}
    → parse_object lower sha256 read rel abs ≡ ok (some p)
    → PlacedAt lower sha256 read (split slash rel) p
unfolding parse_object
parse_object_placed lower sha256 read rel abs h =
    parts-PlacedAt lower sha256 read rel abs (split slash rel) h

checks_unknown :
    (folder : Text) → eq_text folder (codes "checks") ≡ true → mem_text folder kinds ≡ false
unfolding mem_text eq_text
checks_unknown folder h = ap (λ f. mem_text f kinds) ((eq_text_iff folder (codes "checks")).0 h)

-- A check script is never an object, whatever its file holds: the scan of objects passes over it.
pub check_path_no_object :
    (lower : Text → Text) (sha256 : Text → Digest) (read : FileRead) (rel abs : Text)
    → is_check_path rel ≡ true
    → parse_object lower sha256 read rel abs ≡ ok none
unfolding parse_object is_check_path is_checks parse_parts parse_four
check_path_no_object lower sha256 read rel abs h = by-parts (split slash rel) h
  where
    by-parts :
        (parts : List Text)
        → is_checks parts ≡ true
        → parse_parts lower sha256 read rel abs parts ≡ ok none
    by-parts [] h = absurd (ground arith)
    by-parts (a ∷ []) h = absurd (ground arith)
    by-parts (a ∷ b ∷ []) h = absurd (ground arith)
    by-parts (a ∷ b ∷ c ∷ []) h = ground arith
    by-parts (a ∷ b ∷ c ∷ d ∷ []) h = ground (arith, checks_unknown c)
    by-parts (a ∷ b ∷ c ∷ d ∷ e ∷ r) h = absurd (ground arith)
