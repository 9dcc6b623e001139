-- ===== src/Index/Run/Passes.antt =====
-- No pass of internal/index turns the clock of its calls back.
use drivechain_esplora.Base.{
  ℕ, zero, suc, ◌-◌, ◌+◌, ◌≤◌, Bool, true, false, Option, none, some, List, [], ◌∷◌, Bytes,
  no_header, Result, ok, err, arith,
}
use drivechain_esplora.Store.Tables
use drivechain_esplora.Store.Tables.{Db}
use drivechain_esplora.Chain.Hash.{Hash}
use drivechain_esplora.Chain.Block
use drivechain_esplora.Chain.Node.{tip_of_count}
use drivechain_esplora.Store.Tx
use drivechain_esplora.Chain.Content.{Content}
use drivechain_esplora.Store.Write
use drivechain_esplora.Store.State
use drivechain_esplora.Store.Mempool.{replace_mempool}
use drivechain_esplora.Index.Prepare.{prepare, prepare_mempool}
use drivechain_esplora.Index.World.{
  Env, M, pure, lift, ask, read, write, ticked, get_node, get_store,
}
use drivechain_esplora.Index.Sync
use drivechain_esplora.Index.MempoolSync
use drivechain_esplora.Index.Run.Clock.{
  Forward, Forward->>=, Forward-pure, Forward-fail, Forward-lift, Forward-ask, Forward-read,
  Forward-write, Forward-get_node, Forward-get_store, resolve_start-Forward, main_height-Forward,
  block_time-Forward, check_context-Forward,
}

module _ (env : ℕ → Env) (has_times has_heights : Bool) (decode : Bytes → Result Content) where
  module _ (blake3 sha256 : Bytes → Bytes) where
    write_block-Forward :
        (rows : Tables.Block) (main : Option ℕ)
        → Forward (Sync.write_block env has_times has_heights decode blake3 sha256 rows main)
    write_block-Forward rows main =
        Forward->>=
          (write env (λ d. Sync.first (Write.apply sha256 (record rows { main_height = main }) d)))
          (λ _. pure true)
          (Forward-write env
            (λ d. Sync.first (Write.apply sha256 (record rows { main_height = main }) d)))
          (λ _. Forward-pure true)

    apply_block-Forward :
        (height : ℕ) (hash : Hash) (block : Block.Block)
        → Forward
            (Sync.apply_block env has_times has_heights decode blake3 sha256 height hash block)
    unfolding Sync.apply_block
    apply_block-Forward height hash block =
        Forward->>= (ask env (λ e. e.get_block_index hash))
          (Sync.with_index env has_times has_heights decode blake3 sha256 height hash block)
          (Forward-ask env (λ e. e.get_block_index hash))
          (λ index.
            Forward->>= (Sync.block_time env has_times has_heights block.header.prev_main_hash)
              (Sync.with_time env has_times has_heights decode blake3 sha256 height hash block
                index)
              (block_time-Forward env has_times has_heights has_times block.header.prev_main_hash)
              (λ time.
                Forward->>= (lift (prepare decode blake3 height hash block index time))
                  (Sync.with_rows env has_times has_heights decode blake3 sha256 block)
                  (Forward-lift (prepare decode blake3 height hash block index time))
                  (λ rows.
                    Forward->>=
                      (Sync.main_height env has_times has_heights block.header.prev_main_hash)
                      (Sync.write_block env has_times has_heights decode blake3 sha256 rows)
                      (main_height-Forward env has_times has_heights has_heights
                        block.header.prev_main_hash)
                      (write_block-Forward rows))))

    apply_found-Forward :
        (height : ℕ) (hash : Hash) (found : Option Block.Block)
        → Forward
            (Sync.apply_found env has_times has_heights decode blake3 sha256 height hash found)
    apply_found-Forward height hash none = Forward-fail Bool no_header
    apply_found-Forward height hash (some block) = apply_block-Forward height hash block

    apply_at-Forward :
        (height : ℕ) (found : Option Hash)
        → Forward (Sync.apply_at env has_times has_heights decode blake3 sha256 height found)
    apply_at-Forward height none = Forward-pure false
    apply_at-Forward height (some hash) =
        Forward->>= (ask env (λ e. e.get_block hash))
          (Sync.apply_found env has_times has_heights decode blake3 sha256 height hash)
          (Forward-ask env (λ e. e.get_block hash)) (apply_found-Forward height hash)

    apply_height-Forward :
        (height : ℕ)
        → Forward (Sync.apply_height env has_times has_heights decode blake3 sha256 height)
    unfolding Sync.apply_height
    apply_height-Forward height =
        Forward->>= (ask env (λ e. e.block_hash height))
          (Sync.apply_at env has_times has_heights decode blake3 sha256 height)
          (Forward-ask env (λ e. e.block_hash height)) (apply_at-Forward height)

    walk_on-Forward :
        (rest : M Bool) (applied : Bool)
        → Forward rest
        → Forward (Sync.walk_on env has_times has_heights decode blake3 sha256 rest applied)
    walk_on-Forward rest false h = Forward-pure false
    walk_on-Forward rest true h =
        Forward->>= (Sync.check_context env has_times has_heights) (λ _. rest)
          (check_context-Forward env has_times has_heights) (λ _. h)

    walk-Forward :
        (rounds height : ℕ)
        → Forward (Sync.walk env has_times has_heights decode blake3 sha256 rounds height)
    unfolding Sync.walk
    walk-Forward zero height = Forward-pure true
    walk-Forward (suc rounds) height =
        Forward->>= (Sync.apply_height env has_times has_heights decode blake3 sha256 height)
          (Sync.walk_on env has_times has_heights decode blake3 sha256
            (Sync.walk env has_times has_heights decode blake3 sha256 rounds (height + 1)))
          (apply_height-Forward height)
          (λ applied.
            walk_on-Forward
              (Sync.walk env has_times has_heights decode blake3 sha256 rounds (height + 1)) applied
              (walk-Forward rounds (height + 1)))

    set_found-Forward :
        (height : ℕ) (found : Option ℕ)
        → Forward (Sync.set_found env has_times has_heights decode blake3 sha256 height found)
    set_found-Forward height none = Forward-pure tt
    set_found-Forward height (some main) =
        Forward->>= (write env (λ d. ok (State.set_main_height height main d)))
          (λ _. Sync.check_context env has_times has_heights)
          (Forward-write env (λ d. ok (State.set_main_height height main d)))
          (λ _. check_context-Forward env has_times has_heights)

    backfill-Forward :
        (rows : List Tx.BlockRow)
        → Forward (Sync.backfill env has_times has_heights decode blake3 sha256 rows)
    unfolding Sync.backfill
    backfill-Forward [] = Forward-pure tt
    backfill-Forward (r ∷ rows) =
        Forward->>= (Sync.backfill_row env has_times has_heights decode blake3 sha256 r)
          (λ _. Sync.backfill env has_times has_heights decode blake3 sha256 rows)
          (Forward->>= (Sync.main_height env has_times has_heights r.main_hash)
            (Sync.set_found env has_times has_heights decode blake3 sha256 r.height)
            (main_height-Forward env has_times has_heights has_heights r.main_hash)
            (set_found-Forward r.height))
          (λ _. backfill-Forward rows)

    backfill_found-Forward :
        (found : Result (List Tx.BlockRow))
        → Forward (Sync.backfill_found env has_times has_heights decode blake3 sha256 found)
    backfill_found-Forward (ok rows) = backfill-Forward rows
    backfill_found-Forward (err e) = Forward-lift {A = Unit {0}} (err e)

    backfill_with-Forward :
        (on : Bool) → Forward (Sync.backfill_with env has_times has_heights decode blake3 sha256 on)
    backfill_with-Forward false = Forward-pure tt
    backfill_with-Forward true =
        Forward->>= (read env (Tx.blocks_missing_main_height Sync.backfill_heights_per_pass))
          (Sync.backfill_found env has_times has_heights decode blake3 sha256)
          (Forward-read env (Tx.blocks_missing_main_height Sync.backfill_heights_per_pass))
          backfill_found-Forward

    go_on-Forward :
        (more : Bool) → Forward (Sync.go_on env has_times has_heights decode blake3 sha256 more)
    unfolding Sync.backfill_main_heights
    go_on-Forward false = Forward-pure tt
    go_on-Forward true = backfill_with-Forward has_heights

    catch_up-Forward :
        (tip : Result ℕ)
        → Forward (Sync.catch_up env has_times has_heights decode blake3 sha256 tip)
    catch_up-Forward (err empty) = Forward-pure tt
    catch_up-Forward (ok tip) =
        Forward->>= (Sync.resolve_start env has_times has_heights)
          (Sync.walk_from env has_times has_heights decode blake3 sha256 tip)
          (resolve_start-Forward env has_times has_heights)
          (λ next.
            Forward->>=
              (Sync.walk env has_times has_heights decode blake3 sha256 (tip + 1 - next) next)
              (Sync.go_on env has_times has_heights decode blake3 sha256)
              (walk-Forward (tip + 1 - next) next) go_on-Forward)

    count_blocks-Forward :
        Forward (Sync.count_blocks env has_times has_heights decode blake3 sha256)
    count_blocks-Forward w = counted (env w.clock).block_count
      where
        counted :
            (r : Result ℕ)
            → w.clock
              ≤ (Sync.from_count env has_times has_heights decode blake3 sha256
                  (r, ticked w)).1.clock
        counted (ok count) = omega (arith, catch_up-Forward (tip_of_count count) (ticked w))
        counted (err e) = omega arith

    pub once-Forward : Forward (Sync.once env has_times has_heights decode blake3 sha256)
    unfolding Sync.once
    once-Forward =
        Forward->>= (get_node env)
          (λ _. Sync.then_store env has_times has_heights decode blake3 sha256)
          (Forward-get_node env)
          (λ _.
            Forward->>= (get_store env)
              (λ _. Sync.count_blocks env has_times has_heights decode blake3 sha256)
              (Forward-get_store env) (λ _. count_blocks-Forward))

  module _ (sha256 : Bytes → Bytes) where
    list_and_replace-Forward :
        Forward (MempoolSync.list_and_replace env has_times has_heights decode sha256)
    list_and_replace-Forward w = listed (env w.clock).list_mempool
      where
        listed :
            (r : Result (List Block.MempoolTx))
            → w.clock
              ≤ (MempoolSync.from_list env has_times has_heights decode sha256
                  (r, ticked w)).1.clock
        listed (ok txs) =
            let on =
              Forward->>= (lift (prepare_mempool decode txs))
                (MempoolSync.replace env has_times has_heights decode sha256)
                (Forward-lift (prepare_mempool decode txs))
                (λ pool w. Forward-write env (replace_mempool sha256 (env w.clock).now pool) w) in
            omega (arith, on (ticked w))
        listed (err e) = omega arith

    pub once_mempool-Forward : Forward (MempoolSync.once env has_times has_heights decode sha256)
    unfolding MempoolSync.once
    once_mempool-Forward =
        Forward->>= (get_node env)
          (λ _. MempoolSync.with_store env has_times has_heights decode sha256)
          (Forward-get_node env)
          (λ _.
            Forward->>= (get_store env)
              (λ _. MempoolSync.list_and_replace env has_times has_heights decode sha256)
              (Forward-get_store env) (λ _. list_and_replace-Forward))
