-- ===== src/Api/Blocks.antt =====
-- The block routes of internal/api/handlers.go, and blockActivity of activity.go.
use drivechain_esplora.Base.{
  ℕ, ◌+◌, ◌%◌, ◌^◌, true, Option, none, some, List, [], ◌∷◌, map, Bytes, take, drop, get_elem?,
  Result, ok, err, not_found,
}
use drivechain_esplora.Chain.Text.{decimal, parse_uint32}
use drivechain_esplora.Chain.Hash.{hash_string}
use drivechain_esplora.Store.State.{tip}
use drivechain_esplora.Store.Tx as StoreTx
use drivechain_esplora.Store.Tx.Lookup
use drivechain_esplora.Store.Activity as StoreActivity
use drivechain_esplora.Store.Query.{query}
use drivechain_esplora.Api.Reply.{
  H, ◌>>=◌, ◌>>◌, answer, deny, run, attempt, parsed, require, failed, not_found_status, missing,
}
use drivechain_esplora.Api.Esplora.{
  Block, BlockStatus, Tx, Activity, new_block, new_tx, new_activity,
}
use drivechain_esplora.Api.Server.{
  Request, page_size, block_list_size, get_store, start_height, find_block, parse_index,
}

-- A loop of a handler: the first refusal is the answer.
abbrev pub for_each : {A B : Type 0} → (A → H B) → List A → H (List B)
for_each f [] = answer []
for_each f (x ∷ xs) = do y ← f x; ys ← for_each f xs; answer (y ∷ ys)

abbrev next_hash : Result StoreTx.BlockRow → H (Option Bytes)
next_hash (ok next) = answer (some (hash_string next.hash))
next_hash (err not_found) = answer none
next_hash (err e) = deny (failed e)

module _ (q : Request) where
  -- tipHeight
  unfoldable pub tip_height : H Bytes
  unfolding get_store failed
  tip_height = do
    get_store q
    t ← run failed (query q.views (λ d. ok (tip d)))
    (height, hash) ← require missing t
    answer (decimal height)

  -- tipHash
  unfoldable pub tip_hash : H Bytes
  unfolding get_store failed
  tip_hash = do
    get_store q
    t ← run failed (query q.views (λ d. ok (tip d)))
    (height, hash) ← require missing t
    answer (hash_string hash)

  -- blocks
  unfoldable pub blocks : Bytes → H (List Block)
  unfolding get_store start_height failed new_block
  blocks raw = do
    get_store q
    start ← start_height q raw
    rows ← run failed (query q.views (StoreTx.blocks start block_list_size))
    answer (map new_block rows)

  -- blockHeight
  unfoldable pub block_height : Bytes → H Bytes
  unfolding get_store not_found_status
  block_height raw = do
    get_store q
    height ← parsed (parse_uint32 raw)
    row ← run not_found_status (query q.views (StoreTx.block_at_height height))
    answer (hash_string row.hash)

  -- block, and blockHeader
  unfoldable pub block : Bytes → H Block
  unfolding find_block new_block
  block raw = do row ← find_block q raw; answer (new_block row)

  -- blockStatus; the height is a u32.
  unfoldable pub block_status : Bytes → H BlockStatus
  unfolding find_block failed
  block_status raw = do
    row ← find_block q raw
    next ← attempt (query q.views (StoreTx.block_at_height ((row.height + 1) % 2 ^ 32)))
    next_best ← next_hash next
    answer (record { in_best_chain = true; height = some row.height; next_best = next_best })

  -- blockTxids
  unfoldable pub block_txids : Bytes → H (List Bytes)
  unfolding find_block failed
  block_txids raw = do
    row ← find_block q raw
    txids ← run failed (query q.views (λ d. ok (StoreTx.block_txids row.hash d)))
    answer (map hash_string txids)

  -- blockTxid
  unfoldable pub block_txid : Bytes → Bytes → H Bytes
  unfolding find_block failed
  block_txid raw raw_index = do
    row ← find_block q raw
    index ← parsed (parse_index raw_index)
    txids ← run failed (query q.views (λ d. ok (StoreTx.block_txids row.hash d)))
    txid ← require missing (get_elem? txids index)
    answer (hash_string txid)

  abbrev pub start_index : Bytes → H ℕ
  start_index [] = answer 0
  start_index (c ∷ cs) = parsed (parse_index (c ∷ cs))

  -- blockTxs; a start behind the end is the end.
  unfoldable pub block_txs : (Bytes → Bytes) → Bytes → Bytes → H (List Tx)
  unfolding find_block failed Lookup.tx
  block_txs encode58 raw raw_start = do
    row ← find_block q raw
    start ← start_index raw_start
    txids ← run failed (query q.views (λ d. ok (StoreTx.block_txids row.hash d)))
    rows ←
        for_each (λ txid. run failed (Lookup.tx q.views txid)) (take page_size (drop start txids))
    answer (map (new_tx encode58) rows)

  -- blockActivity
  unfoldable pub block_activity : Bytes → H (List Activity)
  unfolding find_block failed
  block_activity raw = do
    row ← find_block q raw
    rows ← run failed (query q.views (StoreActivity.activity_in_block row.hash))
    answer (map new_activity rows)
