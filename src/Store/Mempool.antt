-- ===== src/Store/Mempool.antt =====
-- internal/store/mempool.go: ReplaceMempool, statement by statement. The clock and sha256 are outside
-- the program; a statement that breaks a constraint fails the whole transaction.
use drivechain_esplora.Base.{
  ℕ, ◌+◌, ◌-◌, Bool, ◌&&◌, Option, none, some, List, [], ◌∷◌, ◌++◌, map, Bytes, ltb, ◌==◌, same,
  if◌then◌else◌, keep, any, find?, sum_by, Result, ok, err, ◌>>=◌, ◌>>◌, fail_if, unique_violation,
  out_of_range,
}
use drivechain_esplora.Chain.Hash.{Hash}
use drivechain_esplora.Chain.OutPoint.{regular, key}
use drivechain_esplora.Store.Tables.{
  to_int32, max_int64, OutputRow, MempoolTxRow, MempoolOutputRow, MempoolSpendRow, Db, Output,
  Spend, MempoolTx, Mempool,
}
pub mod Stable
pub mod Query
pub mod Found

abbrev pub seen_at : ℕ → Option MempoolTxRow → ℕ
seen_at now none = now
seen_at now (some r) = r.first_seen

-- The map `seen`: when the last snapshot first held a transaction, or now.
abbrev pub first_seen : ℕ → List MempoolTxRow → Hash → ℕ
first_seen now old txid = seen_at now (find? (λ r. same r.txid txid) old)

abbrev pub mempool_tx_row : (Hash → ℕ) → MempoolTx → MempoolTxRow
mempool_tx_row seen t = record {
  txid = t.txid;
  tx_index = to_int32 t.index;
  size_bytes = to_int32 t.size_bytes;
  fee_sats = 0;
  raw = t.raw;
  first_seen = seen t.txid;
}

-- The txid is the primary key.
unfoldable pub insert_mempool_txs :
    (Hash → ℕ) → List MempoolTx → List MempoolTxRow → Result (List MempoolTxRow)
insert_mempool_txs seen [] rows = ok rows
insert_mempool_txs seen (t ∷ ts) rows = do
  fail_if (any (λ r. same r.txid t.txid) rows) unique_violation
  insert_mempool_txs seen ts (rows ++ (mempool_tx_row seen t ∷ []))

abbrev pub mempool_output_row : (Bytes → Bytes) → Output → MempoolOutputRow
mempool_output_row sha256 o = record {
  outpoint = key o.out_point;
  kind = o.out_point.kind;
  source_id = o.out_point.source;
  vout = o.out_point.vout;
  address = o.address;
  scripthash = sha256 o.address;
  value_sats = o.value_sats;
  content = o.content;
  content_type = o.content_type;
}

-- ON CONFLICT (outpoint) DO NOTHING
unfoldable pub insert_mempool_outputs :
    (Bytes → Bytes) → List Output → List MempoolOutputRow → List MempoolOutputRow
insert_mempool_outputs sha256 [] rows = rows
insert_mempool_outputs sha256 (o ∷ os) rows = insert_mempool_outputs sha256 os (
    if any (λ r. same r.outpoint (key o.out_point)) rows
    then rows
    else rows ++ (mempool_output_row sha256 o ∷ []))

abbrev pub mempool_spend_row : Spend → MempoolSpendRow
mempool_spend_row s = record {
  outpoint = key s.out_point;
  source = s.source;
  kind = s.kind;
  vin = s.vin;
}

-- ON CONFLICT (outpoint) DO NOTHING
unfoldable pub insert_mempool_spends : List Spend → List MempoolSpendRow → List MempoolSpendRow
insert_mempool_spends [] rows = rows
insert_mempool_spends (s ∷ ss) rows = insert_mempool_spends ss (
    if any (λ r. same r.outpoint (key s.out_point)) rows
    then rows
    else rows ++ (mempool_spend_row s ∷ []))

-- The spends that setMempoolFees joins for one transaction.
abbrev pub spends_of : List MempoolSpendRow → Hash → List MempoolSpendRow
spends_of spends txid = keep (λ s. same s.source txid && s.kind == 0) spends

abbrev pub confirmed_in : List OutputRow → List MempoolSpendRow → Hash → ℕ
confirmed_in outputs spends txid =
    sum_by (λ s. sum_by (λ o. o.value_sats) (keep (λ o. same o.outpoint s.outpoint) outputs))
      (spends_of spends txid)

abbrev pub unconfirmed_in : List MempoolOutputRow → List MempoolSpendRow → Hash → ℕ
unconfirmed_in outputs spends txid =
    sum_by (λ s. sum_by (λ o. o.value_sats) (keep (λ o. same o.outpoint s.outpoint) outputs))
      (spends_of spends txid)

abbrev pub unconfirmed_out : List MempoolOutputRow → Hash → ℕ
unconfirmed_out outputs txid =
    sum_by (λ o. o.value_sats) (keep (λ o. same o.source_id txid && o.kind == regular) outputs)

-- `GREATEST(a + b - c, 0)` is the truncated difference.
abbrev pub mempool_fee : List OutputRow → List MempoolOutputRow → List MempoolSpendRow → Hash → ℕ
mempool_fee mined outputs spends txid =
    (confirmed_in mined spends txid + unconfirmed_in outputs spends txid)
    - unconfirmed_out outputs txid

abbrev pub with_mempool_fee : (Hash → ℕ) → MempoolTxRow → MempoolTxRow
with_mempool_fee fee r = record r { fee_sats = fee r.txid }

-- setMempoolFees: a sum that the BIGINT column cannot hold is an error.
unfoldable pub set_mempool_fees : (Hash → ℕ) → List MempoolTxRow → Result (List MempoolTxRow)
set_mempool_fees fee rows = do
  fail_if (any (λ r. ltb max_int64 (fee r.txid)) rows) out_of_range
  ok (map (with_mempool_fee fee) rows)

-- ReplaceMempool, at the time `now`. The three tables are empty when the inserts start.
unfoldable pub replace_mempool : (Bytes → Bytes) → ℕ → Mempool → Db → Result Db
replace_mempool sha256 now pool d =
    let outputs = insert_mempool_outputs sha256 pool.creates [] in
    let spends = insert_mempool_spends pool.spends [] in
    do
      rows ← insert_mempool_txs (first_seen now d.mempool_txs) pool.txs []
      txs ← set_mempool_fees (mempool_fee d.outputs outputs spends) rows
      ok (record d { mempool_txs = txs; mempool_outputs = outputs; mempool_spends = spends })
