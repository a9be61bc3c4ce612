-- ===== src/Migrations.antt =====
-- persistence/migrations/migration-runner.ts and its adapters: the scripts that a start applies. What a script's SQL
-- does to a schema is a parameter; a transaction that fails leaves the database as it was.
pub mod History
pub mod Again
mod Tests
use messaging_gateway.Prelude.{
  ℕ, String, Option, none, some, Bool, not, List, [], ◌∷◌, ◌++◌, if◌then◌else◌, str_eq, any, filter,
  map, take,
}

pub record MigrationScript : Type 0 where
  pub name : String
  pub checksum : String
  pub sql : String

-- The schema, and the names in `_migrations` in the order of their insertion.
pub record Database (S : Type 0) : Type 0 where
  pub schema : S
  pub recorded : List String

pub data Result : Type 0 where
  finished : List String → List String → Result
  failed : String → Result

abbrev pub name_of : MigrationScript → String
name_of script = script.name

abbrev pub has_name : String → List String → Bool
has_name name names = any (str_eq name) names

abbrev pub pending_of : List MigrationScript → List String → List MigrationScript
pending_of available applied = filter (λ s. not (has_name s.name applied)) available

abbrev pub skipped_of : List MigrationScript → List String → List String
skipped_of available applied = map name_of (filter (λ s. has_name s.name applied) available)

module _ {S : Type 0} (exec : String → S → Option S) where
  -- The script and its record in one transaction; the record's primary key is the name.
  unfoldable pub apply_migration : MigrationScript → Database S → Option (Database S)
  apply_migration script db = elim (exec script.sql db.schema) [
    | none ↦ none
    | some schema ↦
        if has_name script.name db.recorded
        then none
        else some (record { schema = schema; recorded = db.recorded ++ (script.name ∷ []) })
  ]

  -- The loop: the database, and the script at which it stopped.
  unfoldable pub apply_all : List MigrationScript → Database S → Database S × Option String
  unfolding apply_migration
  apply_all [] db = (db, none)
  apply_all (script ∷ rest) db = elim (apply_migration script db) [
    | none ↦ (db, some script.name)
    | some next ↦ apply_all rest next
  ]

  abbrev pub result_of : List MigrationScript → List String → Option String → Result
  result_of pending skipped none = finished (map name_of pending) skipped
  result_of pending skipped (some name) = failed name

  unfoldable pub run : List MigrationScript → Database S → Database S × Result
  unfolding apply_all
  run available db =
      let pending = pending_of available db.recorded in
      let (after, stopped) = apply_all pending db in
      (after, result_of pending (skipped_of available db.recorded) stopped)

  -- A start that the process does not survive: only so many of its transactions are done.
  unfoldable pub interrupted : ℕ → List MigrationScript → Database S → Database S
  unfolding apply_all
  interrupted n available db = (apply_all (take n (pending_of available db.recorded)) db).0
