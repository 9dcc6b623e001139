-- ===== src/Store/Mempool/Query.antt =====
-- The reads of internal/store/mempool.go. Rows that ORDER BY leaves equal keep the table's order.
use Prim.Native.String.{String}
use drivechain_esplora.Base.{
  ℕ, ◌+◌, ◌^◌, Bool, true, false, ◌&&◌, ◌||◌, not, Option, none, some, List, [], ◌∷◌, ◌++◌, map,
  Bytes, leb, ◌==◌, same, if◌then◌else◌, length, keep, any, take, find?, sum_by, distinct,
  filter_map, sort_by, traverse_from, Result, ok, err, ◌>>=◌, ◌>>◌, fail_if, or_fail, not_found,
  out_of_range,
}
use drivechain_esplora.Chain.Hash.{Hash}
use drivechain_esplora.Chain.OutPoint.{OutPoint, regular}
use drivechain_esplora.Store.Tables.{
  after, OutputRow, MempoolTxRow, MempoolOutputRow, MempoolSpendRow, Db,
}
use drivechain_esplora.Store.Read.{TxoStats, Utxo, check_key_column, column_of, fits}
use drivechain_esplora.Store.Tx.{Coin, zero_hash}
pub mod Lookup

-- A row of `mempool_spends JOIN outputs UNION ALL mempool_spends JOIN mempool_outputs`.
pub record Taken : Type 0 where
  pub spend : MempoolSpendRow
  pub out_point : OutPoint
  pub address : Bytes
  pub scripthash : Bytes
  pub value_sats : ℕ
  pub content : Bytes
  pub content_type : String

abbrev pub taken_mined : MempoolSpendRow → OutputRow → Taken
taken_mined s o = record {
  spend = s;
  out_point = record { kind = o.kind; source = o.source_id; vout = o.vout };
  address = o.address;
  scripthash = o.scripthash;
  value_sats = o.value_sats;
  content = o.content;
  content_type = o.content_type;
}

abbrev pub taken_pending : MempoolSpendRow → MempoolOutputRow → Taken
taken_pending s o = record {
  spend = s;
  out_point = record { kind = o.kind; source = o.source_id; vout = o.vout };
  address = o.address;
  scripthash = o.scripthash;
  value_sats = o.value_sats;
  content = o.content;
  content_type = o.content_type;
}

abbrev taken_of : {A : Type 0} → Option A → (A → Taken) → Option Taken
taken_of none f = none
taken_of (some o) f = some (f o)

-- The outpoint is the key of both tables of outputs.
abbrev pub taken : Db → List Taken
taken d =
    filter_map
      (λ (s : MempoolSpendRow).
        taken_of (find? (λ (o : OutputRow). same o.outpoint s.outpoint) d.outputs) (taken_mined s))
      d.mempool_spends
    ++ filter_map
        (λ (s : MempoolSpendRow).
          taken_of (find? (λ (o : MempoolOutputRow). same o.outpoint s.outpoint) d.mempool_outputs)
            (taken_pending s))
        d.mempool_spends

abbrev pub funded_by : String → Bytes → Db → List MempoolOutputRow
funded_by column key d =
    keep (λ (m : MempoolOutputRow). same (column_of column m.address m.scripthash) key)
      d.mempool_outputs

abbrev pub taken_from : String → Bytes → Db → List Taken
taken_from column key d =
    keep (λ (t : Taken). same (column_of column t.address t.scripthash) key) (taken d)

-- The transactions that touch one key: the union in MempoolStats and in MempoolTxidsFor.
abbrev pub touching : String → Bytes → Db → List Hash
touching column key d = distinct same (
    map (λ (m : MempoolOutputRow). m.source_id) (funded_by column key d)
    ++ map (λ (t : Taken). t.spend.source) (taken_from column key d))

-- MempoolStats
unfoldable pub mempool_stats : String → Bytes → Db → Result TxoStats
unfolding check_key_column
mempool_stats column key d =
    let funded = funded_by column key d in
    let spent = taken_from column key d in
    do
      check_key_column column
      funded_sum ← fits (sum_by (λ (m : MempoolOutputRow). m.value_sats) funded)
      spent_sum ← fits (sum_by (λ (t : Taken). t.value_sats) spent)
      ok (record {
        funded_count = length funded;
        funded_sum = funded_sum;
        spent_count = length spent;
        spent_sum = spent_sum;
        tx_count = length (touching column key d);
      })

-- MempoolSpentOutpoints: the keys of the map.
unfoldable pub mempool_spent_outpoints : Db → List Bytes
mempool_spent_outpoints d = map (λ (s : MempoolSpendRow). s.outpoint) d.mempool_spends

abbrev pub is_pending_unspent : String → Bytes → Db → MempoolOutputRow → Bool
is_pending_unspent column key d m =
    same (column_of column m.address m.scripthash) key
    && not (any (λ (s : MempoolSpendRow). same s.outpoint m.outpoint) d.mempool_spends)

-- ORDER BY vout
abbrev pub lower_vout : MempoolOutputRow → MempoolOutputRow → Bool
lower_vout a b = after b.vout a.vout

-- The scan of an INTEGER into a uint32 refuses a negative one.
abbrev pub scan_pending : ℕ → MempoolOutputRow → Result Utxo
scan_pending _ m = do
  fail_if (leb (2 ^ 31) m.vout) out_of_range
  ok (record {
    out_point = record { kind = m.kind; source = m.source_id; vout = m.vout };
    value_sats = m.value_sats;
    height = 0;
    block_hash = zero_hash;
    block_time = none;
    content_type = m.content_type;
    content = m.content;
    height_exact = false;
    unconfirmed = true;
  })

-- MempoolUTXOs
unfoldable pub mempool_utxos : String → Bytes → Db → Result (List Utxo)
unfolding check_key_column
mempool_utxos column key d = do
  check_key_column column
  traverse_from scan_pending 0
      (sort_by lower_vout (keep (is_pending_unspent column key d) d.mempool_outputs))

-- ORDER BY first_seen DESC; a BIGINT.
abbrev pub seen_later : MempoolTxRow → MempoolTxRow → Bool
seen_later a b = not (leb a.first_seen b.first_seen)

-- MempoolTxids
unfoldable pub mempool_txids : Db → List Hash
mempool_txids d = map (λ (t : MempoolTxRow). t.txid) (sort_by seen_later d.mempool_txs)

pub record Summary : Type 0 where
  pub count : ℕ
  pub vsize : ℕ
  pub fees : ℕ

-- MempoolSummary
unfoldable pub mempool_summary : Db → Result Summary
mempool_summary d = do
  vsize ← fits (sum_by (λ (t : MempoolTxRow). t.size_bytes) d.mempool_txs)
  fees ← fits (sum_by (λ (t : MempoolTxRow). t.fee_sats) d.mempool_txs)
  ok (record { count = length d.mempool_txs; vsize = vsize; fees = fees })

-- MempoolTxidsFor
unfoldable pub mempool_txids_for : String → Bytes → Db → Result (List Hash)
unfolding check_key_column
mempool_txids_for column key d = do
  check_key_column column
  ok (
      map (λ (t : MempoolTxRow). t.txid)
        (sort_by seen_later
          (keep (λ (t : MempoolTxRow). any (same t.txid) (touching column key d)) d.mempool_txs)))

abbrev pub pending_value : Db → Hash → ℕ
pending_value d txid =
    sum_by (λ (m : MempoolOutputRow). m.value_sats)
      (keep (λ (m : MempoolOutputRow). same m.source_id txid && m.kind == regular)
        d.mempool_outputs)

pub record MempoolEntry : Type 0 where
  pub txid : Hash
  pub fee_sats : ℕ
  pub size_bytes : ℕ
  pub value_sats : ℕ

-- MempoolRecent
unfoldable pub mempool_recent : ℕ → Db → Result (List MempoolEntry)
mempool_recent limit d = traverse_from scan 0 (take limit (sort_by seen_later d.mempool_txs))
  where
    scan : ℕ → MempoolTxRow → Result MempoolEntry
    scan _ t = do
      value_sats ← fits (pending_value d t.txid)
      ok (record {
        txid = t.txid;
        fee_sats = t.fee_sats;
        size_bytes = t.size_bytes;
        value_sats = value_sats;
      })

-- mempoolCoins: no block and no spend.
abbrev pub pending_coin : OutPoint → Bytes → ℕ → Bytes → String → Coin
pending_coin out_point address value_sats content content_type = record {
  out_point = out_point;
  address = address;
  value_sats = value_sats;
  content = content;
  content_type = content_type;
  height = 0;
  spent_source = none;
  spent_kind = none;
  spent_height = none;
}

abbrev taken_coin : Taken → Coin
taken_coin t = pending_coin t.out_point t.address t.value_sats t.content t.content_type

abbrev output_coin : MempoolOutputRow → Coin
output_coin m =
    pending_coin (record { kind = m.kind; source = m.source_id; vout = m.vout }) m.address
      m.value_sats m.content m.content_type

unfoldable pub pending_inputs : Hash → Db → List Coin
pending_inputs txid d = map taken_coin (
    sort_by (λ (a : Taken) (b : Taken). after b.spend.vin a.spend.vin)
      (keep (λ (t : Taken). same t.spend.source txid && t.spend.kind == 0) (taken d)))

unfoldable pub pending_outputs : Hash → Db → List Coin
pending_outputs txid d = map output_coin (
    sort_by lower_vout (
      keep (λ (m : MempoolOutputRow). same m.source_id txid && m.kind == regular)
        d.mempool_outputs))

abbrev pub find_pending : Hash → Db → Result MempoolTxRow
find_pending txid d =
    or_fail (find? (λ (t : MempoolTxRow). same t.txid txid) d.mempool_txs) not_found
