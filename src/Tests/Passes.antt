-- ===== src/Tests/Passes.antt =====
-- Passes of the syncer over a node of two blocks.
use drivechain_esplora.Base.{
  ℕ, zero, suc, refl, true, false, Option, none, some, [], ◌∷◌, ok, arith, ok-injective,
}
use drivechain_esplora.Chain.Hash.{Hash}
use drivechain_esplora.Service
use drivechain_esplora.Service.{Service}
use drivechain_esplora.Base.{err, ◌+◌, ◌≡◌, bytes_dec, traverse_from, unique_violation}
use drivechain_esplora.Index.Prepare.{prepare_mempool, prepare_entries, prepare_tx, new_output}
use drivechain_esplora.Store.Mempool.{replace_mempool, insert_mempool_txs}
use drivechain_esplora.Store.Tables.{Db}
use drivechain_esplora.Index.World.{Env, World}
use drivechain_esplora.Index.Sync.{
  once, resolve_start, find_fork, walk, apply_height, apply_block, backfill_main_heights, backfill,
}
use drivechain_esplora.Index.Sync.Caught.{Shares, rooted, once_caught_up}
use drivechain_esplora.Index.Prepare.{prepare, prepare_txs}
use drivechain_esplora.Store.Write.{
  apply, rollback, insert_block, insert_txs, insert_outputs, apply_spends, set_fees, clear_mempool,
  set_tip,
}
use drivechain_esplora.Store.State.{tip, hash_at, set_main_height}
use drivechain_esplora.Store.Tx.{blocks_missing_main_height, scan_block}
use drivechain_esplora.Chain.Block
use drivechain_esplora.Chain.Text.{put_u32}
use drivechain_esplora.Chain.OutPoint.{key}
use drivechain_esplora.Base.{◌-◌, ◌<◌, ◌≤◌, insert_by, sort_by}
use drivechain_esplora.Index.Sync.Fork.{IsSteady}
use drivechain_esplora.Index.Sync.Resolve.{Resolved, resolve_start_lem}
use drivechain_esplora.Index.Sync.Invariant.{IsIndexed, fresh}
use drivechain_esplora.Index.Sync.Once.{once-IsIndexed}
use drivechain_esplora.Index.MempoolSync
use drivechain_esplora.Index.MempoolSync.Snapshot.{once_failed}
use drivechain_esplora.Tests.Rows.{opened, opened-IsFresh, two_blocks, two_blocks-IsGapless}
use drivechain_esplora.Tests.Blocks.{content, digest, block, index, unconfirmed}

abbrev pub node_chain : ℕ → Option Hash
node_chain zero = some (100 ∷ [])
node_chain (suc zero) = some (200 ∷ [])
node_chain (suc (suc n)) = none

abbrev pub node : ℕ → Env
node t = record {
  connect_node = ok tt;
  connect_store = ok tt;
  database = true;
  stopped = false;
  block_count = ok 2;
  block_hash = λ h. ok (node_chain h);
  get_block = λ h. ok (some block);
  get_block_index = λ h. ok index;
  block_time = λ h. ok 1700000000;
  main_height = λ h. ok (some 900000);
  list_mempool = ok unconfirmed;
  now = 1700000000 + t;
}

abbrev node-IsSteady : IsSteady node node_chain
node-IsSteady = record { database = λ t. refl; block_hash = λ t k. refl }

abbrev pub wrapper : Service (Unit {0})
wrapper = record {
  has_connector = true;
  has_closer = true;
  client = tt;
  have = false;
  connected = false;
  closed = [];
  subs = [];
}

abbrev pub world : Db → World
world d = record { clock = 0; db = d; nodes = wrapper; stores = wrapper }

once-IsIndexed_example : IsIndexed (once node true true content digest digest (world opened)).1.db
once-IsIndexed_example =
    once-IsIndexed node true true content digest digest (λ t c e. ground (arith, ok-injective e))
      (world opened) (0, fresh opened-IsFresh)

-- The node has another block at height 1 than the index.
resolve_start_lem_example :
    Resolved node_chain 1 two_blocks (resolve_start node true true (world two_blocks))
resolve_start_lem_example =
    resolve_start_lem node true true node_chain node-IsSteady 1 (world two_blocks)
      two_blocks-IsGapless

-- The node lists one transaction twice, which the key of the table refuses.
twice : (MempoolSync.once node true true content digest (world opened)).0 ≡ err unique_violation
unfolding MempoolSync.once Service.get Service.connect Service.set_connected prepare_mempool
    prepare_entries prepare_tx new_output traverse_from replace_mempool insert_mempool_txs bytes_dec
twice = refl

once_failed_example : (MempoolSync.once node true true content digest (world opened)).1.db ≡ opened
once_failed_example =
    once_failed node true true content digest (world opened) unique_violation twice

-- The index leaves its block 1 for the node's.
abbrev behind : World
behind = (once node true true content digest digest (world two_blocks)).1

once-two : once node true true content digest digest (world two_blocks) ≡ (ok tt, behind)
unfolding once Service.get Service.connect Service.set_connected resolve_start find_fork hash_at tip
    rollback walk apply_height apply_block prepare prepare_txs prepare_tx new_output traverse_from
    apply insert_block insert_txs insert_outputs apply_spends set_fees clear_mempool set_tip key
    put_u32 bytes_dec backfill_main_heights backfill blocks_missing_main_height scan_block insert_by
    sort_by set_main_height Block.coinbase_source Block.coinbase_txid
once-two = refl

shared : Shares node_chain two_blocks
unfolding hash_at apply insert_block insert_txs insert_outputs apply_spends set_fees clear_mempool
    set_tip key put_u32 bytes_dec
shared = rooted two_blocks-IsGapless refl

chain-held : (k : ℕ) → k < 2 → (x : Hash) × (node_chain k ≡ some x)
chain-held zero lt = (100 ∷ [], refl)
chain-held (suc zero) lt = (200 ∷ [], refl)
chain-held (suc (suc k)) lt = absurd (omega arith)

chain-ends : (k : ℕ) → 2 ≤ k → node_chain k ≡ none
chain-ends zero le = absurd (omega arith)
chain-ends (suc zero) le = absurd (omega arith)
chain-ends (suc (suc k)) le = refl

once_caught_up_example :
    (x : Hash) × (node_chain (2 - 1) ≡ some x) × (tip behind.db ≡ some (2 - 1, x))
once_caught_up_example =
    once_caught_up node true true node_chain node-IsSteady content digest digest 2 (λ t. refl)
      (omega arith) chain-held chain-ends (world two_blocks) behind shared once-two
