-- ===== src/Tests/Fakes.antt =====
-- The fake node of internal/e2e with two blocks, and the loops of internal/index.
use drivechain_esplora.Base.{
  ℕ, ◌-◌, ◌==◌, ◌≡◌, refl, true, Option, none, some, [], ◌∷◌, Bytes, length, get_elem?,
  if◌then◌else◌, leb, ok, cancelled, arith, ok-injective, traverse_from, bytes_dec, insert_by,
  sort_by,
}
use drivechain_esplora.Chain.Hash.{Hash}
use drivechain_esplora.Chain.Block
use drivechain_esplora.Chain.Text.{put_u32}
use drivechain_esplora.Chain.OutPoint.{key}
use drivechain_esplora.Chain.Node
use drivechain_esplora.Chain.Node.{Params, NodeJson, asked, tip_of_count}
use drivechain_esplora.Command.{connect_node}
use drivechain_esplora.Rpc.{Response, NodeError, call}
use drivechain_esplora.Service
use drivechain_esplora.Store.Write.{
  apply, rollback, insert_block, insert_txs, insert_outputs, apply_spends, set_fees, clear_mempool,
  set_tip,
}
use drivechain_esplora.Store.State.{tip, hash_at, set_main_height}
use drivechain_esplora.Store.Tx.{blocks_missing_main_height, scan_block}
use drivechain_esplora.Index.World.{Env, World}
use drivechain_esplora.Index.Prepare.{prepare, prepare_txs, prepare_tx, new_output}
use drivechain_esplora.Index.Sync.{
  once, resolve_start, find_fork, walk, apply_height, apply_block, backfill_main_heights, backfill,
}
use drivechain_esplora.Index.Sync.Caught.{Shares, rooted}
use drivechain_esplora.E2e.FakeNode.{
  FakeNode, Value, Refusal, answers, new, add_block, at_hash, dispatch, response, serve,
}
use drivechain_esplora.E2e.FakeNode.Laws.{IsJson, Held, IsTip, post, tip_height-IsTip}
use drivechain_esplora.E2e.FakeNode.Caught.{against, fake_node_caught_up}
use drivechain_esplora.Index.Sync.Invariant.{IsIndexed, fresh}
use drivechain_esplora.Index.Run.{run_syncer, run_mempool_syncer}
use drivechain_esplora.Index.Run.Laws.{StaysDone, Ended, run_syncer-IsIndexed, runs_end, runs-Ended}
use drivechain_esplora.Tests.Rows.{opened, opened-IsFresh, two_blocks, two_blocks-IsGapless}
use drivechain_esplora.Tests.Blocks.{content, digest, block, index}
use drivechain_esplora.Tests.Passes.{node, world}

-- A tag in front of each value stands for its JSON.
abbrev marshal : Value → Bytes
marshal Value.nil = []
marshal (Value.number k) = 0 ∷ k ∷ []
marshal (Value.hash h) = 1 ∷ h
marshal (Value.block b) = 2 ∷ []
marshal (Value.index i) = 3 ∷ []
marshal (Value.mempool_txs txs) = 4 ∷ []
marshal (Value.raw bytes) = 5 ∷ bytes
marshal (Value.string s) = 1 ∷ s

abbrev read_number : Bytes → Option ℕ
read_number [] = none
read_number (t ∷ []) = none
read_number (t ∷ k ∷ rest) = if t == 0 then some k else none

abbrev read_pointer : Bytes → Option (Option Hash)
read_pointer [] = some none
read_pointer (t ∷ h) = if t == 1 then some (some h) else none

abbrev read_block : Bytes → Option (Option Block.Block)
read_block [] = some none
read_block (t ∷ rest) = if t == 2 then some (some block) else none

abbrev json : NodeJson
json = record {
  hash_pointer = read_pointer;
  number = read_number;
  number_pointer = λ b. none;
  block_pointer = read_block;
  block_index = λ b. some index;
  hash = λ b. none;
  mempool_txs = λ b. none;
  raw = λ b. some b;
}

abbrev encode_error : Bytes → Option NodeError → Bytes
encode_error result none = 0 ∷ result
encode_error result (some e) = 1 ∷ (if e.code.negative then 1 else 0) ∷ e.code.size ∷ e.message

abbrev encode : Response → Bytes
encode r = encode_error r.result r.error

abbrev decode : Bytes → Option Response
decode [] = none
decode (t ∷ []) = if t == 0 then some (record { result = []; error = none }) else none
decode (t ∷ a ∷ []) = if t == 0 then some (record { result = a ∷ []; error = none }) else none
decode (t ∷ a ∷ b ∷ rest) =
    if t == 0
    then some (record { result = a ∷ b ∷ rest; error = none })
    else some (record {
      result = [];
      error = some (record { code = record { negative = a == 1; size = b }; message = rest });
    })

abbrev written : Params → Bytes
written p = []

abbrev refusal : Refusal → Bytes
refusal r = b'!' ∷ []

abbrev fake : FakeNode
unfolding add_block
fake = add_block (200 ∷ []) block index (add_block (100 ∷ []) block index new)

fake-IsJson : IsJson json written marshal refusal encode decode fake
fake-IsJson = record {
  envelope = λ held. enveloped held;
  number = refl;
  hash = λ k h e. refl;
  no_hash = refl;
}
  where
    carried : (b : Bytes) → decode (0 ∷ b) ≡ some (record { result = b; error = none })
    carried [] = refl
    carried (x ∷ []) = refl
    carried (x ∷ y ∷ b) = refl

    enveloped :
        {v : Value}
        → Held json written marshal refusal encode decode fake v
        → decode (encode (response written marshal refusal encode (answers v)))
          ≡ some (response written marshal refusal encode (answers v))
    enveloped {v} held = carried (marshal v)

abbrev node_of_fake : ℕ → Env
node_of_fake = against json written marshal refusal encode decode fake node

abbrev followed : World
followed = (once node_of_fake true true content digest digest (world two_blocks)).1

caught_up_now :
    once node_of_fake true true content digest digest (world two_blocks) ≡ (ok tt, followed)
unfolding once Service.get Service.connect Service.set_connected resolve_start find_fork hash_at tip
    rollback walk apply_height apply_block prepare prepare_txs prepare_tx new_output traverse_from
    apply insert_block insert_txs insert_outputs apply_spends set_fees clear_mempool set_tip key
    put_u32 bytes_dec backfill_main_heights backfill blocks_missing_main_height scan_block insert_by
    sort_by set_main_height Block.coinbase_source Block.coinbase_txid connect_node asked call serve
    dispatch Node.tip_height Node.block_count Node.block_hash_at Node.get_block Node.get_block_index
    at_hash add_block
caught_up_now = refl

shared : Shares (get_elem? fake.chain) two_blocks
unfolding hash_at apply insert_block insert_txs insert_outputs apply_spends set_fees clear_mempool
    set_tip key put_u32 bytes_dec add_block
shared = rooted two_blocks-IsGapless refl

fake_node_caught_up_example :
    (x : Hash) × (Node.best_block_hash json decode
        (post json written marshal refusal encode decode fake)
      ≡ ok (some x))
    × (tip followed.db ≡ some (length fake.chain - 1, x))
unfolding fake
fake_node_caught_up_example =
    fake_node_caught_up json written marshal refusal encode decode fake node true true content
      digest digest (world two_blocks) followed fake-IsJson (λ t. refl) (omega arith) shared
      caught_up_now

tip_height-IsTip_example :
    IsTip json written marshal refusal encode decode fake
      (Node.tip_height json decode (post json written marshal refusal encode decode fake))
tip_height-IsTip_example =
    tip_height-IsTip json written marshal refusal encode decode fake fake-IsJson

-- The context ends at the call 3, in the first pass.
abbrev stopping : ℕ → Env
stopping t = record (node t) { stopped = leb 3 t }

stopping-StaysDone : StaysDone stopping 3
stopping-StaysDone k le = ground arith

run_syncer-IsIndexed_example :
    IsIndexed (run_syncer node true true content digest digest 4 (world opened)).1.db
run_syncer-IsIndexed_example =
    run_syncer-IsIndexed node true true content digest digest 4 (world opened)
      (λ t c e. ground (arith, ok-injective e)) (0, fresh opened-IsFresh)

runs_end_example :
    ((run_syncer stopping true true content digest digest 4 (world opened)).0 ≡ some cancelled)
    × ((run_mempool_syncer stopping true true content digest 4 (world opened)).0 ≡ some cancelled)
runs_end_example =
    runs_end stopping true true content digest digest 3 3 (world opened) stopping-StaysDone
      (omega arith)

runs-Ended_example :
    Ended stopping (run_syncer stopping true true content digest digest 4 (world opened))
    × Ended stopping (run_mempool_syncer stopping true true content digest 4 (world opened))
runs-Ended_example = runs-Ended stopping true true content digest digest 4 (world opened)
