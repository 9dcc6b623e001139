-- ===== src/Store/Migrate/Once.antt =====
-- The start of internal/store/store.go: every migration runs once.
use Prim.Native.String.{String}
use text.Mathlib.Text.{◌==◌ as str_eq}
use drivechain_esplora.Base.{◌≡◌, true, Result}
use drivechain_esplora.Store.Migrate.{Migrated, migration_applied}

module _ {S : Type 0} (run_sql : String → S → Result S) where
  abbrev Applied : Migrated S → String → Type 0
  Applied d name = migration_applied run_sql name d ≡ true
