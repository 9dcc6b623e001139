-- ===== src/Index/Sync.antt =====
-- internal/index/sync.go: the pass that brings the index level with the node. Its calls, their answers
-- and the state that it runs on are those of Index.World.
use drivechain_esplora.Base.{
  ℕ, zero, suc, ◌+◌, ◌-◌, ◌%◌, ◌^◌, ◌≡◌, Bool, true, false, not, Option, none, some, List, [], ◌∷◌,
  Bytes, ◌==◌, same, if◌then◌else◌, Error, Result, ok, err, unavailable, cancelled, no_header,
}
use drivechain_esplora.Chain.Hash.{Hash}
use drivechain_esplora.Chain.Block
use drivechain_esplora.Chain.Node.{tip_of_count}
use drivechain_esplora.Store.Tx
use drivechain_esplora.Chain.Content.{Content}
use drivechain_esplora.Store.Tables
use drivechain_esplora.Store.Tables.{Db}
use drivechain_esplora.Store.Write
use drivechain_esplora.Store.State
use drivechain_esplora.Service
use drivechain_esplora.Service.{Service}
use drivechain_esplora.Index.Prepare.{prepare, to_u32}
use drivechain_esplora.Index.World.{
  Env, World, M, ◌>>=◌, ◌>>◌, pure, fail, lift, ticked, ask, read_with, read, commit, write_with,
  write, get_node, get_store, drop_node,
}
pub mod Steps
pub mod Fork
pub mod Invariant
pub mod Pass
pub mod Apply
pub mod Once
pub mod Resolve
pub mod Partial
pub mod Reach
pub mod Caught

-- backfillHeightsPerPass: the most blocks that one pass asks the enforcer about.
abbrev pub backfill_heights_per_pass : ℕ
backfill_heights_per_pass = 20

abbrev pub matches : Option Hash → Hash → Bool
matches none ours = false
matches (some theirs) ours = same theirs ours

abbrev pub first : {A B : Type 0} → Result (A × B) → Result A
first (ok p) = ok p.0
first (err e) = err e

abbrev pub or_none : Result (Option ℕ) → Option ℕ
or_none (ok found) = found
or_none (err e) = none

abbrev pub some_time : Result ℕ → Result (Option ℕ)
some_time (ok t) = ok (some t)
some_time (err e) = err e

-- Which optional sources the syncer has: a TimeSource and a HeightSource, either of which may be nil.
module _ (env : ℕ → Env) (has_times has_heights : Bool) where
  abbrev pub compare_fork : ℕ → M ℕ → Hash → Option Hash → M ℕ
  compare_fork below rest own theirs = if matches theirs own then pure below else rest

  abbrev pub fork_or : ℕ → M ℕ → Option Hash → M ℕ
  fork_or below rest none = rest
  fork_or below rest (some own) = ask env (λ e. e.block_hash below) >>= compare_fork below rest own

  -- findFork: the loop counts down to the height below it.
  unfoldable pub find_fork : ℕ → M ℕ
  find_fork zero = write env (λ d. ok (Write.rollback 0 d)) >>= λ _. pure 0
  find_fork (suc below) = read env (State.hash_at below) >>= fork_or below (find_fork below)

  abbrev pub roll_back_to : ℕ → M ℕ
  roll_back_to fork = write env (λ d. ok (Write.rollback fork d)) >>= λ _. pure (to_u32 (fork + 1))

  abbrev pub resolve_at : ℕ → Hash → Option Hash → M ℕ
  resolve_at height hash theirs =
      if matches theirs hash
      then pure (to_u32 (height + 1))
      else (find_fork height >>= roll_back_to)

  abbrev pub resolve_from : Option (ℕ × Hash) → M ℕ
  resolve_from none = pure 0
  resolve_from (some (height, hash)) = ask env (λ e. e.block_hash height) >>= resolve_at height hash

  -- resolveStart
  unfoldable pub resolve_start : M ℕ
  unfolding find_fork
  resolve_start = read env State.tip >>= resolve_from

  -- mainHeight: a failed read leaves the height empty.
  abbrev pub main_height_with : Bool → Hash → M (Option ℕ)
  main_height_with true hash = ask env (λ e. ok (or_none (e.main_height hash)))
  main_height_with false hash = pure none

  abbrev pub main_height : Hash → M (Option ℕ)
  main_height = main_height_with has_heights

  -- blockTime
  abbrev pub block_time_with : Bool → Hash → M (Option ℕ)
  block_time_with true hash = ask env (λ e. some_time (e.block_time hash))
  block_time_with false hash = pure none

  abbrev pub block_time : Hash → M (Option ℕ)
  block_time = block_time_with has_times

  abbrev pub check_context : M (Unit {0})
  check_context = ask env (λ e. if e.stopped then err cancelled else ok tt)

  module _ (decode : Bytes → Result Content) (blake3 sha256 : Bytes → Bytes) where
    -- applyHeight behind the block, in four parts: the block index, the mainchain time, the rows, and
    -- the mainchain height with the transaction.
    abbrev pub write_block : Tables.Block → Option ℕ → M Bool
    write_block rows main =
        write env (λ d. first (Write.apply sha256 (record rows { main_height = main }) d)) >>= λ _.
        pure true

    abbrev pub with_rows : Block.Block → Tables.Block → M Bool
    with_rows block rows = main_height block.header.prev_main_hash >>= write_block rows

    abbrev pub with_time : ℕ → Hash → Block.Block → Block.BlockIndex → Option ℕ → M Bool
    with_time height hash block index time =
        lift (prepare decode blake3 height hash block index time) >>= with_rows block

    abbrev pub with_index : ℕ → Hash → Block.Block → Block.BlockIndex → M Bool
    with_index height hash block index =
        block_time block.header.prev_main_hash >>= with_time height hash block index

    unfoldable pub apply_block : ℕ → Hash → Block.Block → M Bool
    apply_block height hash block =
        ask env (λ e. e.get_block_index hash) >>= with_index height hash block

    abbrev pub apply_found : ℕ → Hash → Option Block.Block → M Bool
    apply_found height hash none = fail no_header
    apply_found height hash (some block) = apply_block height hash block

    abbrev pub apply_at : ℕ → Option Hash → M Bool
    apply_at height none = pure false
    apply_at height (some hash) = ask env (λ e. e.get_block hash) >>= apply_found height hash

    -- applyHeight: false when the node holds no block at that height any more.
    unfoldable pub apply_height : ℕ → M Bool
    unfolding apply_block
    apply_height height = ask env (λ e. e.block_hash height) >>= apply_at height

    abbrev pub walk_on : M Bool → Bool → M Bool
    walk_on rest false = pure false
    walk_on rest true = check_context >>= λ _. rest

    -- The loop of Once over `rounds` heights; false when the node moved under it.
    unfoldable pub walk : ℕ → ℕ → M Bool
    walk zero height = pure true
    walk (suc rounds) height = apply_height height >>= walk_on (walk rounds (height + 1))

    abbrev pub set_found : ℕ → Option ℕ → M (Unit {0})
    set_found height none = pure tt
    set_found height (some main) =
        write env (λ d. ok (State.set_main_height height main d)) >>= λ _. check_context

    abbrev pub backfill_row : Tx.BlockRow → M (Unit {0})
    backfill_row r = main_height r.main_hash >>= set_found r.height

    -- The loop of backfillMainHeights.
    unfoldable pub backfill : List Tx.BlockRow → M (Unit {0})
    backfill [] = pure tt
    backfill (r ∷ rows) = let rest = backfill rows in backfill_row r >>= λ _. rest

    -- A row that does not scan ends the pass.
    abbrev pub backfill_found : Result (List Tx.BlockRow) → M (Unit {0})
    backfill_found (ok rows) = backfill rows
    backfill_found (err e) = lift (err e)

    -- backfillMainHeights
    abbrev pub backfill_with : Bool → M (Unit {0})
    backfill_with true =
        read env (Tx.blocks_missing_main_height backfill_heights_per_pass) >>= backfill_found
    backfill_with false = pure tt

    unfoldable pub backfill_main_heights : M (Unit {0})
    unfolding backfill
    backfill_main_heights = backfill_with has_heights

    abbrev pub go_on : Bool → M (Unit {0})
    go_on true = backfill_main_heights
    go_on false = pure tt

    -- `height <= nodeTip`
    abbrev pub walk_from : ℕ → ℕ → M (Unit {0})
    walk_from tip next = walk (tip + 1 - next) next >>= go_on

    -- What the count makes of TipHeight: a tip, or ErrEmptyChain.
    abbrev pub catch_up : Result ℕ → M (Unit {0})
    catch_up (ok tip) = resolve_start >>= walk_from tip
    catch_up (err empty) = pure tt

    abbrev pub from_count : Result ℕ × World → Result (Unit {0}) × World
    from_count (ok count, w) = catch_up (tip_of_count count) w
    from_count (err e, w) = (err e, drop_node env w)

    abbrev pub count_blocks : M (Unit {0})
    count_blocks w = from_count (ask env (λ e. e.block_count) w)

    abbrev pub then_store : M (Unit {0})
    then_store = get_store env >>= λ _. count_blocks

    -- Once. The answer to the call of TipHeight is the outside's, and the tip is made of it here.
    unfoldable pub once : M (Unit {0})
    unfolding resolve_start walk backfill_main_heights
    once = get_node env >>= λ _. then_store
