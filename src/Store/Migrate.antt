-- ===== src/Store/Migrate.antt =====
-- migrate and applyMigration of internal/store/store.go. What a migration's SQL does to the schema is
-- outside the program, and so are the embedded files: they are a list of names in the order of
-- sort.Strings, with the body of each. A migration runs in one transaction with the row that records it.
use Prim.Native.String.{String}
use text.Mathlib.Text.{◌==◌ as str_eq}
use drivechain_esplora.Base.{Bool, List, [], ◌∷◌, ◌++◌, any, if◌then◌else◌, Result, ok, err, ◌>>=◌}
pub mod Once

pub record Migrated (S : Type 0) : Type 0 where
  pub schema : S
  pub recorded : List String

module _ {S : Type 0} (run_sql : String → S → Result S) where
  -- migrationApplied
  unfoldable pub migration_applied : String → Migrated S → Bool
  migration_applied name d = any (str_eq name) d.recorded

  -- applyMigration
  unfoldable pub apply_migration : String → Migrated S → Result (Migrated S)
  apply_migration name d = do
    schema ← run_sql name d.schema
    ok (record { schema = schema; recorded = d.recorded ++ (name ∷ []) })

  -- migrate: the loop over the names.
  unfoldable pub migrate : List String → Migrated S → Result (Migrated S)
  unfolding migration_applied apply_migration
  migrate [] d = ok d
  migrate (name ∷ names) d = do
    e ← if migration_applied name d then ok d else apply_migration name d
    migrate names e
