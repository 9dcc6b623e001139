-- ===== src/Api/Unavailable.antt =====
-- The routes of internal/api that read the index, while the database is not reachable.
use drivechain_esplora.Base.{ℕ, ◌≡◌, refl, Bool, false, Option, Bytes}
use drivechain_esplora.Store.Tables.{Db}
use drivechain_esplora.Api.Reply.{refuse, H, service_unavailable}
use drivechain_esplora.Api.Server.{Request}
use drivechain_esplora.Api.Server
use drivechain_esplora.Api.Blocks
use drivechain_esplora.Api.Transactions
use drivechain_esplora.Api.Mempool
use drivechain_esplora.Api.Address

-- A route that answers 503 and asks no query.
abbrev pub Refuses : {A : Type 0} → H A → Type 0
Refuses m = (n : ℕ) → m n ≡ (refuse service_unavailable, n)

abbrev pub down : (ℕ → Option Db) → Request
down views = record { connected = false; views = views }

module _ (encode58 : Bytes → Bytes) (decode58 : Bytes → Option Bytes) (script : Bool)
    (raw rest : Bytes) where
  -- Every route that reads the index.
  abbrev pub RoutesRefuse : Request → Type 0
  RoutesRefuse q =
      Refuses (Blocks.tip_height q)
      × Refuses (Blocks.tip_hash q)
      × Refuses (Blocks.blocks q raw)
      × Refuses (Blocks.block_height q raw)
      × Refuses (Blocks.block q raw)
      × Refuses (Blocks.block_status q raw)
      × Refuses (Blocks.block_txids q raw)
      × Refuses (Blocks.block_txid q raw rest)
      × Refuses (Blocks.block_txs q encode58 raw rest)
      × Refuses (Blocks.block_activity q raw)
      × Refuses (Transactions.tx q encode58 raw)
      × Refuses (Transactions.tx_status q raw)
      × Refuses (Transactions.tx_hex q raw)
      × Refuses (Transactions.outspends q raw)
      × Refuses (Transactions.outspend q raw rest)
      × Refuses (Mempool.mempool q)
      × Refuses (Mempool.mempool_txids q)
      × Refuses (Mempool.mempool_recent q)
      × Refuses (Mempool.recent_activity q)
      × Refuses (Address.address_info encode58 decode58 q script raw)
      × Refuses (Address.address_utxos encode58 decode58 q script raw)
      × Refuses (Address.address_mempool_txs encode58 decode58 q script raw)
      × Refuses (Address.address_txs encode58 decode58 q script raw rest)
      × Refuses (Address.address_deposits encode58 decode58 q raw)
      × Refuses (Address.deposit q raw)
      × Refuses (Address.deposits q raw)

  -- While stores.Get has no connection, every route that reads the index answers 503, whatever its
  -- path values are, and asks no query.
  pub routes_refuse : (views : ℕ → Option Db) → RoutesRefuse (down views)
  unfolding Server.get_store Server.find_block Server.find_txid Server.address_key Blocks.tip_height
      Blocks.tip_hash Blocks.blocks Blocks.block_height Blocks.block Blocks.block_status
      Blocks.block_txids Blocks.block_txid Blocks.block_txs Blocks.block_activity Transactions.tx
      Transactions.tx_status Transactions.tx_hex Transactions.outspends Transactions.outspend
      Mempool.mempool Mempool.mempool_txids Mempool.mempool_recent Mempool.recent_activity
      Address.address_info Address.address_utxos Address.address_mempool_txs Address.address_txs
      Address.address_deposits Address.deposit Address.deposits
  routes_refuse views = (
    λ n. refl,
    λ n. refl,
    λ n. refl,
    λ n. refl,
    λ n. refl,
    λ n. refl,
    λ n. refl,
    λ n. refl,
    λ n. refl,
    λ n. refl,
    λ n. refl,
    λ n. refl,
    λ n. refl,
    λ n. refl,
    λ n. refl,
    λ n. refl,
    λ n. refl,
    λ n. refl,
    λ n. refl,
    λ n. refl,
    λ n. refl,
    λ n. refl,
    λ n. refl,
    λ n. refl,
    λ n. refl,
    λ n. refl,
  )
