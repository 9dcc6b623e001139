-- ===== src/Store/Write.antt =====
-- internal/store/write.go: Apply and Rollback, statement by statement. A statement that breaks a
-- constraint of the schema returns an error, and the transaction around it then changes nothing.
-- The sha256 of the standard library is a parameter. Of an UPDATE that joins one row with two
-- spends Postgres takes either; the model takes the first.
use drivechain_esplora.Base.{
  ℕ, zero, suc, ◌+◌, ◌-◌, ◌≤◌, ◌≡◌, Bool, true, false, ◌&&◌, ◌||◌, not, Option, none, some, List,
  [], ◌∷◌, ◌++◌, map, Bytes, ltb, ◌==◌, same, if◌then◌else◌, length, keep, discard, any, find?,
  count_if, sum_by, All, Result, ok, err, ◌>>=◌, ◌>>◌, fail_if, unique_violation, out_of_range,
}
use drivechain_esplora.Chain.Hash.{Hash}
use drivechain_esplora.Chain.OutPoint.{OutPoint, coinbase, regular, key}
use drivechain_esplora.Store.Tables.{
  to_int32, after, max_int64, BlockRow, TxRow, Spent, OutputRow, SyncState, MempoolTxRow,
  MempoolOutputRow, MempoolSpendRow, Db, Output, Spend, Tx, Block,
}
pub mod Rows
pub mod Restore
pub mod Reorg
pub mod Level
pub mod Gapless
pub mod Keyed
pub mod Refine
pub mod Runs

-- insertBlock: the height is the primary key, and the hash is unique.
unfoldable pub insert_block : Block → Db → Result Db
insert_block b d = do
  fail_if (any (λ r. r.height == b.height || same r.hash b.hash) d.blocks) unique_violation
  ok (record d {
    blocks =
        d.blocks
        ++ (record {
          height = b.height;
          hash = b.hash;
          prev_hash = b.prev_hash;
          merkle_root = b.merkle_root;
          main_hash = b.main_hash;
          main_height = b.main_height;
          block_time = b.block_time;
          tx_count = to_int32 (length b.txs);
        }
            ∷ []);
  })

abbrev pub tx_row : ℕ → Tx → TxRow
tx_row height t = record {
  txid = t.txid;
  height = height;
  tx_index = to_int32 t.index;
  size_bytes = to_int32 t.size_bytes;
  fee_sats = t.fee_sats;
  raw = t.raw;
}

-- insertTxs, ON CONFLICT (txid) DO NOTHING.
unfoldable pub insert_txs : ℕ → List Tx → List TxRow → List TxRow
insert_txs height [] rows = rows
insert_txs height (t ∷ ts) rows =
    insert_txs height ts
      (if any (λ r. same r.txid t.txid) rows then rows else rows ++ (tx_row height t ∷ []))

module _ (sha256 : Bytes → Bytes) where
  abbrev pub output_row : Block → Output → OutputRow
  output_row b o = record {
    outpoint = key o.out_point;
    kind = o.out_point.kind;
    source_id = o.out_point.source;
    vout = o.out_point.vout;
    block_hash = b.hash;
    address = o.address;
    scripthash = sha256 o.address;
    value_sats = o.value_sats;
    content = o.content;
    content_type = o.content_type;
    height = b.height;
    height_exact = o.height_exact;
    spent = none;
  }

  -- insertOutputs, ON CONFLICT (outpoint) DO NOTHING. A row that breaks the unique index
  -- `outputs_coinbase_block_idx` alone is an error.
  unfoldable pub insert_outputs : Block → List Output → List OutputRow → Result (List OutputRow)
  insert_outputs b [] rows = ok rows
  insert_outputs b (o ∷ os) rows =
      let row = output_row b o in
      let skip = insert_outputs b os rows in
      let push = insert_outputs b os (rows ++ (row ∷ [])) in
      if any (λ r. same r.outpoint row.outpoint) rows
      then skip
      else if row.kind == coinbase
          && any (λ r. r.kind == coinbase && same r.block_hash row.block_hash && r.vout == row.vout)
              rows
      then err unique_violation
      else push

-- The spend that an UPDATE joins with a row.
abbrev pub spend_of : List Spend → OutputRow → Option Spend
spend_of spends row = find? (λ s. same row.outpoint (key s.out_point)) spends

abbrev pub mark_by : ℕ → Option Spend → OutputRow → OutputRow
mark_by height none row = row
mark_by height (some s) row = record row {
  spent = some (record { source = s.source; kind = s.kind; vin = s.vin; height = height });
}

abbrev pub mark : ℕ → List Spend → OutputRow → OutputRow
mark height spends row = mark_by height (spend_of spends row) row

abbrev pub is_hit : List Spend → OutputRow → Bool
is_hit spends row = any (λ s. same row.outpoint (key s.out_point)) spends

-- applySpends: the new rows, and how many rows it matched.
unfoldable pub apply_spends : ℕ → List Spend → List OutputRow → List OutputRow × ℕ
apply_spends height spends rows = (map (mark height spends) rows, count_if (is_hit spends) rows)

abbrev pub is_spent_by : Hash → ℕ → Option Spent → Bool
is_spent_by txid height none = false
is_spent_by txid height (some s) = same s.source txid && s.kind == 0 && s.height == height

abbrev pub paid_in : List OutputRow → ℕ → Hash → ℕ
paid_in rows height txid =
    sum_by (λ r. r.value_sats) (keep (λ r. is_spent_by txid height r.spent) rows)

abbrev pub paid_out : List OutputRow → ℕ → Hash → ℕ
paid_out rows height txid =
    sum_by (λ r. r.value_sats)
      (keep (λ r. same r.source_id txid && r.kind == regular && r.height == height) rows)

-- `GREATEST(a - b, 0)` is the truncated difference.
abbrev pub fee : List OutputRow → ℕ → Hash → ℕ
fee rows height txid = paid_in rows height txid - paid_out rows height txid

abbrev pub with_fee : List OutputRow → ℕ → TxRow → TxRow
with_fee rows height t =
    if t.height == height then record t { fee_sats = fee rows height t.txid } else t

-- setFees: a sum that the BIGINT column cannot hold is an error.
unfoldable pub set_fees : ℕ → List OutputRow → List TxRow → Result (List TxRow)
set_fees height rows txs = do
  fail_if (any (λ t. t.height == height && ltb max_int64 (fee rows height t.txid)) txs) out_of_range
  ok (map (with_fee rows height) txs)

-- clearMempool
unfoldable pub clear_mempool : Block → Db → Db
clear_mempool b d = record d {
  mempool_txs = discard (λ r. any (λ t. same r.txid t.txid) b.txs) d.mempool_txs;
  mempool_outputs =
      discard (λ r. any (λ o. same r.outpoint (key o.out_point)) b.creates) d.mempool_outputs;
  mempool_spends =
      discard (λ r. any (λ s. same r.outpoint (key s.out_point)) b.spends) d.mempool_spends;
}

abbrev pub with_tip : Option (ℕ × Hash) → Option SyncState → Option SyncState
with_tip tip none = none
with_tip tip (some s) = some (record s { tip = tip })

-- setTip
unfoldable pub set_tip : ℕ → Hash → Db → Db
set_tip height hash d = record d { sync_state = with_tip (some (height, hash)) d.sync_state }

-- Apply: the database behind the block, and ApplyResult.UnknownSpends.
module _ (sha256 : Bytes → Bytes) where
  unfoldable pub apply : Block → Db → Result (Db × ℕ)
  apply b d = do
    d₁ ← insert_block b d
    outputs ← insert_outputs sha256 b b.creates d₁.outputs
    let marked = apply_spends b.height b.spends outputs
    txs ← set_fees b.height marked.0 (insert_txs b.height b.txs d₁.txs)
    ok (
      set_tip b.height b.hash (clear_mempool b (record d₁ { txs = txs; outputs = marked.0 })),
      length b.spends - marked.1,
    )

abbrev pub unspend_above : ℕ → Option Spent → Option Spent
unspend_above height none = none
unspend_above height (some s) = if after s.height height then none else some s

abbrev pub unspend : ℕ → OutputRow → OutputRow
unspend height row = record row { spent = unspend_above height row.spent }

abbrev pub tip_at : ℕ → Option BlockRow → Option (ℕ × Hash)
tip_at height none = none
tip_at height (some r) = some (height, r.hash)

-- Rollback. The transactions of a deleted block go with it, ON DELETE CASCADE.
unfoldable pub rollback : ℕ → Db → Db
rollback height d =
    let blocks = discard (λ r. after r.height height) d.blocks in
    let gone = keep (λ r. after r.height height) d.blocks in
    record d {
      blocks = blocks;
      txs = discard (λ t. any (λ r. r.height == t.height) gone) d.txs;
      outputs = discard (λ r. after r.height height) (map (unspend height) d.outputs);
      sync_state = with_tip (tip_at height (find? (λ r. r.height == height) blocks)) d.sync_state;
    }
