-- ===== src/Domain/Ingest.antt =====
-- What the scan stages: crates/core/src/domain/workspace/objects/ingest.rs (push_object) and
-- databases.rs (intern_database).
pub mod FiniteMap
use mssql_migrator.Prelude.{
  ℕ, zero, suc, ◌+◌, ◌-◌, ◌*◌, ◌%◌, Bool, true, false, ◌&&◌, Option, none, some, List, [], ◌∷◌,
  ◌++◌, leb, ◌==◌, if◌then◌else◌, length, is_empty, Text, codes, eq_text,
}
use mssql_migrator.Error.{Result, ok, err, invalid_input}
use mssql_migrator.Domain.Workspace.{Workspace, ObjectEntry, u32_mod, database_name}

-- A key of the staging index: the database and the object's normalized key.
abbrev pub IngestKey : Type 0
IngestKey = ℕ × Text

unfoldable pub eq_ingest_key : IngestKey → IngestKey → Bool
eq_ingest_key (d, s) (e, t) = d == e && eq_text s t

unfoldable pub lookup_ingest : IngestKey → List (IngestKey × ℕ) → Option ℕ
unfolding eq_ingest_key
lookup_ingest k [] = none
lookup_ingest k ((j, id) ∷ m) = if eq_ingest_key j k then some id else lookup_ingest k m

-- The message; the standard library's debug form of a text is an argument.
unfoldable pub duplicate_message : (Text → Text) → Text → Text → Text
duplicate_message debug key database =
    codes "duplicate object "
    ++ (debug key
        ++ (codes " in database "
            ++ (debug database
                ++ codes
                    ": two source files map to the same normalized <schema>/<kind>/<name> key (keys are case-insensitive); rename or remove one")))

-- The columns with one more object; the row id is one more than its index.
unfoldable pub staged : Text → ObjectEntry → Workspace → Workspace
staged key obj ws = record ws {
  object_entries = ws.object_entries ++ (obj ∷ []);
  ingest_keys = ws.ingest_keys ++ (key ∷ []);
  ingest_key_index =
      ((obj.db_id, key), (length ws.object_entries + 1) % u32_mod) ∷ ws.ingest_key_index;
}

-- Refuses a key that its database has already.
unfoldable pub push_object : (Text → Text) → Text → ObjectEntry → Workspace → Result Workspace
unfolding lookup_ingest duplicate_message staged
push_object debug key obj ws = elim (lookup_ingest (obj.db_id, key) ws.ingest_key_index) [
  | some id ↦ err (invalid_input (duplicate_message debug key (database_name ws obj.db_id)))
  | none ↦ ok (staged key obj ws)
]

unfoldable pub ascii_lower : ℕ → ℕ
ascii_lower c = if leb b'A' c && leb c b'Z' then c + 32 else c

-- `str::eq_ignore_ascii_case`
unfoldable pub eq_ignore_ascii_case : Text → Text → Bool
unfolding ascii_lower
eq_ignore_ascii_case [] [] = true
eq_ignore_ascii_case [] (d ∷ t) = false
eq_ignore_ascii_case (c ∷ s) [] = false
eq_ignore_ascii_case (c ∷ s) (d ∷ t) = ascii_lower c == ascii_lower d && eq_ignore_ascii_case s t

unfoldable pub position : Text → List Text → Option ℕ
unfolding eq_ignore_ascii_case
position name [] = none
position name (d ∷ r) =
    if eq_ignore_ascii_case d name
    then some 0
    else elim (position name r) [ none ↦ none | some i ↦ some (suc i) ]

-- The id of a database, and the names with it; `none` where too many databases panic.
unfoldable pub intern_database : Text → List Text → Option (ℕ × List Text)
unfolding position
intern_database name names = if is_empty name then some (0, names) else elim (position name names) [
  | some i ↦ some (i % 65536, names)
  | none ↦ if leb 65535 (length names) then none else some (length names, names ++ (name ∷ []))
]
