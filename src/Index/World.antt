-- ===== src/Index/World.antt =====
-- What a pass of internal/index runs in: the answers of the outside, call by call, the state that the
-- passes share, and the calls themselves. `env t` is what the node, the database, the enforcer, the
-- clock and the context answer at the t-th call, so the node may move and a dependency may fail
-- between any two calls. A database call that fails leaves the database as it was.
use drivechain_esplora.Base.{
  ℕ, ◌+◌, Bool, true, false, Option, List, Error, Result, ok, err, unavailable,
}
use drivechain_esplora.Chain.Hash.{Hash}
use drivechain_esplora.Chain.Block
use drivechain_esplora.Store.Tables.{Db}
use drivechain_esplora.Service
use drivechain_esplora.Service.{Service}

pub record Env : Type 0 where
  pub connect_node : Result (Unit {0})
  pub connect_store : Result (Unit {0})
  pub database : Bool
  pub stopped : Bool
  pub block_count : Result ℕ
  pub block_hash : ℕ → Result (Option Hash)
  pub get_block : Hash → Result (Option Block.Block)
  pub get_block_index : Hash → Result Block.BlockIndex
  pub block_time : Hash → Result ℕ
  pub main_height : Hash → Result (Option ℕ)
  pub list_mempool : Result (List Block.MempoolTx)
  pub now : ℕ

pub record World : Type 0 where
  pub clock : ℕ
  pub db : Db
  pub nodes : Service (Unit {0})
  pub stores : Service (Unit {0})

abbrev pub M : Type 0 → Type 0
M A = World → Result A × World

infixl 5 ◌>>=◌ ◌>>◌
abbrev pub ◌>>=◌ : {A B : Type 0} → M A → (A → M B) → M B
◌>>=◌ m f w = let (r, w') = m w in elim r [ ok a ↦ f a w' | err e ↦ (err e, w') ]

abbrev pub ◌>>◌ : {A B : Type 0} → M A → M B → M B
m >> k = m >>= λ _. k

abbrev pub pure : {A : Type 0} → A → M A
pure a w = (ok a, w)

abbrev pub fail : {A : Type 0} → Error → M A
fail e w = (err e, w)

abbrev pub lift : {A : Type 0} → Result A → M A
lift r w = (r, w)

abbrev pub ticked : World → World
ticked w = record w { clock = w.clock + 1 }

module _ (env : ℕ → Env) where
  -- A call of the node or of the enforcer.
  abbrev pub ask : {A : Type 0} → (Env → Result A) → M A
  ask f w = (f (env w.clock), ticked w)

  abbrev pub read_with : {A : Type 0} → Bool → (Db → A) → M A
  read_with true f w = (ok (f w.db), ticked w)
  read_with false f w = (err unavailable, ticked w)

  -- A query.
  abbrev pub read : {A : Type 0} → (Db → A) → M A
  read f w = read_with (env w.clock).database f w

  abbrev pub commit : Result Db → M (Unit {0})
  commit (ok d) w = (ok tt, record (ticked w) { db = d })
  commit (err e) w = (err e, ticked w)

  abbrev pub write_with : Bool → (Db → Result Db) → M (Unit {0})
  write_with true f w = commit (f w.db) w
  write_with false f w = (err unavailable, ticked w)

  -- A transaction: it changes the database if it succeeds.
  abbrev pub write : (Db → Result Db) → M (Unit {0})
  write f w = write_with (env w.clock).database f w

  -- nodes.Get and stores.Get
  abbrev pub get_node : M (Unit {0})
  get_node w =
      let (r, s) = Service.get (env w.clock).connect_node w.nodes in
      (r, record (ticked w) { nodes = s })

  abbrev pub get_store : M (Unit {0})
  get_store w =
      let (r, s) = Service.get (env w.clock).connect_store w.stores in
      (r, record (ticked w) { stores = s })

  -- nodes.Drop
  abbrev pub drop_node : World → World
  drop_node w = record w { nodes = Service.drop w.nodes }
