-- ===== src/Store/Open.antt =====
-- Open and Close of internal/store/store.go, and the connector of the stores in cmd/drivechain-esplora/main.go. The
-- pool is pgx's: what it answers is handed in, and the state is the number of pools that are open.
use drivechain_esplora.Base.{ℕ, ◌+◌, ◌-◌, ◌≡◌, refl, Result, ok, err, arith}

abbrev Pools : Type 0 → Type 0
Pools A = ℕ → Result A × ℕ

infixl 5 ◌>>=◌
abbrev ◌>>=◌ : {A B : Type 0} → Pools A → (A → Pools B) → Pools B
◌>>=◌ m f n = let (r, k) = m n in elim r [ ok a ↦ f a k | err e ↦ (err e, k) ]

-- pgxpool.New
abbrev connect_pool : Result (Unit {0}) → Pools (Unit {0})
connect_pool (ok t) n = (ok tt, n + 1)
connect_pool (err e) n = (err e, n)

-- A step behind an open pool: where it fails, the pool is closed.
abbrev or_close : Result (Unit {0}) → Pools (Unit {0})
or_close (ok t) n = (ok tt, n)
or_close (err e) n = (err e, n - 1)

-- Open, where pgxpool.New, Ping and migrate answer these.
unfoldable pub open_store :
    Result (Unit {0}) → Result (Unit {0}) → Result (Unit {0}) → ℕ → Result (Unit {0}) × ℕ
open_store pool ping migrated = connect_pool pool >>= λ _. or_close ping >>= λ _. or_close migrated

-- The connector: Open, and then Init.
unfoldable pub connect_store :
    Result (Unit {0})
    → Result (Unit {0})
    → Result (Unit {0})
    → Result (Unit {0})
    → ℕ
    → Result (Unit {0}) × ℕ
unfolding open_store
connect_store pool ping migrated init = open_store pool ping migrated >>= λ _. or_close init

abbrev held_after : {A : Type 0} → Result A → ℕ → ℕ
held_after (ok a) n = n + 1
held_after (err e) n = n

-- A connector that fails, wherever it does, leaves no pool open; one that succeeds leaves one more.
pub connect_store-held :
    (pool ping migrated init : Result (Unit {0})) (n : ℕ)
    → (connect_store pool ping migrated init n).1
      ≡ held_after (connect_store pool ping migrated init n).0 n
unfolding connect_store
connect_store-held (err e) ping migrated init n = refl
connect_store-held (ok t) (err e) migrated init n = omega arith
connect_store-held (ok t) (ok t') (err e) init n = omega arith
connect_store-held (ok t) (ok t') (ok t'') (err e) n = omega arith
connect_store-held (ok t) (ok t') (ok t'') (ok t''') n = refl
