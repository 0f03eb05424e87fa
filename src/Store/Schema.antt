-- ===== src/Store/Schema.antt =====
-- server/store/sql_store.go: the migrations. The plugin API's KVGet and KVSet are the store of one
-- key, either of which may fail, and the text of a migration is known by its version.
pub mod History
pub mod Resume
use mattermost_plugin_org_di.Common.{
  ℕ, String, Bool, true, false, Option, none, some, List, [], ◌∷◌, ℤ, pos, ltb_ℤ, if◌then◌else◌,
}
use mattermost_plugin_org_di.Common.Sql.{append_row}
use mattermost_plugin_org_di.Common.Atoi.{atoi_value, itoa}

-- The value of schemaVersionKey, and the migrations that the database has executed, oldest first.
pub record Schema : Type 0 where
  pub stored : Option String
  pub executed : List ℕ

-- What works in a run: KVGet, the statements of a migration, and KVSet of its version.
pub record Run : Type 0 where
  pub reads : Bool
  pub accepts : ℕ → Bool
  pub writes : ℕ → Bool

-- getSchemaVersion, for what KVGet returned
abbrev pub version_of : Option String → ℤ
version_of none = pos 0
version_of (some text) = atoi_value text

unfoldable pub get_schema_version : Run → Schema → ℤ
get_schema_version run s = if run.reads then version_of s.stored else pos 0

-- setSchemaVersion, whose error is dropped
unfoldable pub set_schema_version : Run → ℕ → Schema → Schema
unfolding itoa
set_schema_version run version s =
    if run.writes version then record s { stored = some (itoa version) } else s

-- The loop of migrate. The answer is the version that failed.
unfoldable pub run_migrations : Run → ℤ → List ℕ → Schema → Option ℕ × Schema
unfolding set_schema_version
run_migrations run current [] s = (none, s)
run_migrations run current (v ∷ vs) s =
    let skipped = run_migrations run current vs s in
    let executed =
      run_migrations run current vs
        (set_schema_version run v (record s { executed = append_row s.executed v })) in
    if ltb_ℤ current (pos v) then (if run.accepts v then executed else (some v, s)) else skipped

-- migrate
unfoldable pub migrate : Run → Schema → Option ℕ × Schema
unfolding run_migrations get_schema_version
migrate run s = run_migrations run (get_schema_version run s) (1 ∷ 2 ∷ 3 ∷ []) s
