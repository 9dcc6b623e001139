-- ===== src/Api/Transactions.antt =====
-- The transaction routes of internal/api/handlers.go and readTransactionBody of write.go.
use drivechain_esplora.Base.{
  ℕ, ◌^◌, Bool, true, false, ◌||◌, not, Option, none, some, List, [], ◌∷◌, Bytes, ◌==◌,
  if◌then◌else◌, length, take, find?, any, Error, Result, ok, err, not_found, ◌&&◌,
}
use drivechain_esplora.Chain.Text.{encode_hex, parse_uint32}
use drivechain_esplora.Chain.Hash.{Hash, hash_string, bitcoin_string}
use drivechain_esplora.Store.Tables.{Db}
use drivechain_esplora.Store.Tx as StoreTx
use drivechain_esplora.Store.Tx.Lookup
use drivechain_esplora.Store.Mempool.Query.Lookup as Pending
use drivechain_esplora.Store.Query
use drivechain_esplora.Store.Query.{Q, query}
use drivechain_esplora.Api.Reply.{
  H, ◌>>=◌, ◌>>◌, answer, deny, run, attempt, parsed, require, checked, failed, not_found_status,
  missing, bad_request, service_unavailable,
}
use drivechain_esplora.Api.Esplora.{
  Tx, Outspend, Status, new_tx, new_status, tx_status as new_tx_status,
}
use drivechain_esplora.Api.Server.{Request, find_txid}
use drivechain_esplora.Api.Blocks.{for_each}
pub mod Place

-- SpendWithdrawal and SpendMarket
abbrev pub spend_withdrawal : ℕ
spend_withdrawal = 1

abbrev pub spend_market : ℕ
spend_market = 2

abbrev pub or_pending : (ℕ → Option Db) → Hash → Result StoreTx.TxRow → Q StoreTx.TxRow
or_pending views txid (ok row) = Query.pure row
or_pending views txid (err not_found) = Pending.mempool_tx_row views txid
or_pending views txid (err e) = Query.lift (err e)

-- txRow
unfoldable pub find_row : (ℕ → Option Db) → Hash → Q StoreTx.TxRow
unfolding Lookup.tx Pending.mempool_tx_row
find_row views txid n = let (r, k) = Lookup.tx views txid n in or_pending views txid r k

abbrev is_kind : ℕ → Option ℕ → Bool
is_kind k none = false
is_kind k (some j) = j == k

-- What took a coin, without the block of the spend.
abbrev pub spent_outspend : Hash → Option ℕ → Outspend
spent_outspend source kind =
    if is_kind spend_withdrawal kind
    then record {
      spent = true;
      txid = some (bitcoin_string source);
      status = none;
      spent_by = "withdrawal_bundle";
    }
    else if is_kind spend_market kind
    then record { spent = true; txid = none; status = none; spent_by = "market" }
    else record {
      spent = true;
      txid = some (hash_string source);
      status = none;
      spent_by = "transaction";
    }

abbrev spend_status : Outspend → Result StoreTx.BlockRow → H Outspend
spend_status out (ok block) =
    answer (record out { status = some (new_status block.height block.hash block.block_time) })
spend_status out (err not_found) = answer out
spend_status out (err e) = deny (failed e)

abbrev unspent : Outspend
unspent = record { spent = false; txid = none; status = none; spent_by = "" }

module _ (q : Request) where
  abbrev status_at : Outspend → Option ℕ → H Outspend
  status_at out none = answer out
  status_at out (some height) =
      attempt (query q.views (StoreTx.block_at_height height)) >>= spend_status out

  -- newOutspend
  unfoldable pub new_outspend : StoreTx.Coin → H Outspend
  unfolding failed new_status
  new_outspend coin = elim coin.spent_source [
    | none ↦ answer unspent
    | some source ↦ status_at (spent_outspend source coin.spent_kind) coin.spent_height
  ]

  -- tx
  unfoldable pub tx : (Bytes → Bytes) → Bytes → H Tx
  unfolding find_txid find_row not_found_status
  tx encode58 raw = do
    txid ← find_txid q raw
    row ← run not_found_status (find_row q.views txid)
    answer (new_tx encode58 row)

  -- txStatus
  unfoldable pub tx_status : Bytes → H Status
  unfolding find_txid find_row not_found_status
  tx_status raw = do
    txid ← find_txid q raw
    row ← run not_found_status (find_row q.views txid)
    answer (new_tx_status row)

  -- txHex
  unfoldable pub tx_hex : Bytes → H Bytes
  unfolding find_txid find_row not_found_status
  tx_hex raw = do
    txid ← find_txid q raw
    row ← run not_found_status (find_row q.views txid)
    answer (encode_hex row.raw)

  -- outspends
  unfoldable pub outspends : Bytes → H (List Outspend)
  unfolding find_txid new_outspend failed
  outspends raw = do
    txid ← find_txid q raw
    coins ← run failed (query q.views (λ d. ok (StoreTx.outspends txid d)))
    for_each new_outspend coins

  -- outspend
  unfoldable pub outspend : Bytes → Bytes → H Outspend
  unfolding find_txid new_outspend failed
  outspend raw raw_vout = do
    txid ← find_txid q raw
    vout ← parsed (parse_uint32 raw_vout)
    coins ← run failed (query q.views (λ d. ok (StoreTx.outspends txid d)))
    coin ← require missing (find? (λ (c : StoreTx.Coin). c.out_point.vout == vout) coins)
    new_outspend coin

-- bytes.TrimSpace and json.Valid are outside the program; `none` is a body that cannot be read.
module _ (trim_space : Bytes → Bytes) (valid : Bytes → Bool) where
  -- maxBroadcastBytes
  abbrev pub max_broadcast_bytes : ℕ
  max_broadcast_bytes = 2 ^ 20

  abbrev usable : Bytes → Option Bytes
  usable trimmed = if length trimmed == 0 || not (valid trimmed) then none else some trimmed

  -- readTransactionBody
  unfoldable pub read_transaction_body : Option Bytes → Option Bytes
  read_transaction_body none = none
  read_transaction_body (some body) = usable (trim_space (take max_broadcast_bytes body))

  abbrev send : Option (Bytes → Result Hash) → Option Bytes → H Bytes
  send none body = deny service_unavailable
  send (some submit) body = do
    raw ← parsed (read_transaction_body body)
    txid ← checked (submit raw)
    answer (hash_string txid)

  -- broadcast; `none` is a server without a broadcaster.
  unfoldable pub broadcast : Option (Bytes → Result Hash) → Option Bytes → H Bytes
  unfolding read_transaction_body
  broadcast broadcaster body = send broadcaster body
