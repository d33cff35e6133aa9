-- ===== src/Apply/Schemas.antt =====
-- crates/core/src/apply/schemas.rs and sql/apply/create_schema.sql: creating the missing schemas.
pub mod Quoted
use mssql_migrator.Prelude.{
  ℕ, zero, suc, ◌+◌, ◌-◌, ◌*◌, ◌/◌, ◌%◌, ◌^◌, ◌≤◌, ◌<◌, ◌≡◌, refl, sym, ap, ◌∙◌, ◌≢◌, ◌↔◌, ◌⊎◌, inl,
  inr, Bool, true, false, not, ◌&&◌, ◌||◌, Option, none, some, List, [], ◌∷◌, ◌++◌, map, reverse,
  arith, String, ltb, leb, ◌==◌, if◌then◌else◌, ==_iff, ==_refl, Bool-cases, Option-cases, length,
  get_elem?, set, replicate, resize, is_empty, is_empty_iff, all, any, length-append, length-set,
  length-resize, get_elem?-set_self, get_elem?-some, get_elem?-set_ne, get_elem?-lt, All,
  length-map, lookup, without, insert, lookup-without, lookup-insert, Text, codes, eq_text,
  starts_with, strip_prefix, ends_with, contains, split, push_front, join, split_once, replace,
  lookup_text, mem_text, mem_text-all, show, eq_text_iff, eq_text_refl, contains-append,
  contains-starts_with, join-split, starts_with-append, split-ne-nil,
}
use mssql_migrator.Error.{Error, Result, ok, err, display, ◌>>=◌}
use mssql_migrator.SqlIdent.{bracket_ident}
use mssql_migrator.Domain.Action.{SchemaAction, create_schema, exists_schema}
use mssql_migrator.Export.PlanJson.{PlannedSchema}
use mssql_migrator.Apply.Conn.{
  Stmt, batch, World, Run, push_error, count_applied, count_skipped, sent,
}

-- `name.replace('\'', "''")`
unfoldable pub double_quotes : Text → Text
double_quotes = replace 39 (39 ∷ 39 ∷ [])

unfoldable pub create_schema_sql : Text → Text → Text
unfolding double_quotes
create_schema_sql name bracket =
    codes "IF SCHEMA_ID(N'"
    ++ (double_quotes name
        ++ (codes "') IS NULL EXEC('CREATE SCHEMA " ++ (double_quotes bracket ++ codes "')")))

unfoldable pub build_create_schema_sql : Text → Result Text
build_create_schema_sql name = do bracket ← bracket_ident name; ok (create_schema_sql name bracket)

module _ (world : World) where
  -- Sends the statement that a name gave, and tells whether to go on.
  unfoldable pub create_one : PlannedSchema → Run → Run × Bool
  create_one s st = elim (build_create_schema_sql s.schema_name) [
    | err e ↦ (
      push_error (codes "invalid schema name " ++ s.schema_name ++ codes ": " ++ display e) st,
      false,
    )
    | ok q ↦
        let answer = world.reply st.log (batch q) in
        let st' = sent (batch q) answer st in
        elim answer [
          | none ↦ (count_applied st', true)
          | some e ↦ (push_error (codes "schema " ++ s.schema_name ++ codes ": " ++ e) st', false)
        ]
  ]

  -- The loop, which returns at the first failure.
  unfoldable pub apply_schemas : List PlannedSchema → Run → Run
  apply_schemas [] st = st
  apply_schemas (s ∷ r) st = elim s.action [
    | exists_schema ↦ apply_schemas r (count_skipped st)
    | create_schema ↦
        let (st', go_on) = create_one s st in
        let rest = apply_schemas r st' in if go_on then rest else st'
  ]
