-- ===== src/Index/MempoolSync.antt =====
-- internal/index/mempool_sync.go: the pass that replaces the mempool snapshot, against the same
-- environment as the chain's pass.
use drivechain_esplora.Base.{ℕ, Bool, List, Bytes, Result, ok, err}
use drivechain_esplora.Chain.Block
use drivechain_esplora.Chain.Content.{Content}
use drivechain_esplora.Store.Tables
use drivechain_esplora.Store.Mempool
use drivechain_esplora.Index.Prepare.{prepare_mempool}
use drivechain_esplora.Index.World.{
  Env, World, M, ◌>>=◌, lift, ask, write, get_node, get_store, drop_node,
}
pub mod Snapshot

module _ (env : ℕ → Env) (has_times has_heights : Bool) (decode : Bytes → Result Content)
    (sha256 : Bytes → Bytes) where
  -- The transaction, at the time of the call.
  abbrev pub replace : Tables.Mempool → M (Unit {0})
  replace pool w = write env (Mempool.replace_mempool sha256 (env w.clock).now pool) w

  abbrev pub from_list : Result (List Block.MempoolTx) × World → Result (Unit {0}) × World
  from_list (ok txs, w) = (lift (prepare_mempool decode txs) >>= replace) w
  from_list (err e, w) = (err e, drop_node env w)

  abbrev pub list_and_replace : M (Unit {0})
  list_and_replace w = from_list (ask env (λ e. e.list_mempool) w)

  abbrev pub with_store : M (Unit {0})
  with_store = get_store env >>= λ _. list_and_replace

  -- MempoolSyncer.Once
  unfoldable pub once : M (Unit {0})
  once = get_node env >>= λ _. with_store
