-- ===== src/Api/Address.antt =====
-- internal/api/address.go: the routes of an address or a scripthash, and of deposits.
use Prim.Native.String.{String}
use text.Mathlib.Text.{◌==◌ as str_eq}
use drivechain_esplora.Base.{
  ℕ, ◌-◌, ◌^◌, Bool, true, false, Option, none, some, List, [], ◌∷◌, ◌++◌, map, Bytes, ◌==◌, same,
  if◌then◌else◌, discard, any, Error, Result, ok, err, not_found,
}
use drivechain_esplora.Chain.Hash.{Hash, parse_hash, parse_address, parse_bitcoin_hash}
use drivechain_esplora.Chain.OutPoint.{key}
use drivechain_esplora.Store.Tables.{Db}
use drivechain_esplora.Store.Read
use drivechain_esplora.Store.Tx as StoreTx
use drivechain_esplora.Store.Tx.Lookup
use drivechain_esplora.Store.Mempool.Query as Pending
use drivechain_esplora.Store.Mempool.Query.Lookup as PendingLookup
use drivechain_esplora.Store.Query.{Q, query}
use drivechain_esplora.Api.Reply.{
  H, ◌>>=◌, ◌>>◌, answer, deny, run, attempt, checked, failed, not_found_status, missing,
}
use drivechain_esplora.Api.Esplora.{AddressInfo, Tx, Utxo, new_tx, new_utxo, new_txo_stats}
use drivechain_esplora.Api.Server.{
  Request, Key, page_size, deposit_list_size, get_store, start_height, address_key,
}
pub mod Unspent
pub mod Paging

-- The rows that the mempool does not spend.
abbrev pub unspent_rows : List Bytes → List Read.Utxo → List Read.Utxo
unspent_rows spent rows = discard (λ (u : Read.Utxo). any (same (key u.out_point)) spent) rows

abbrev pub address_info_of : Key → Bytes → Read.TxoStats → Read.TxoStats → AddressInfo
address_info_of k raw chain pending = record {
  address = if str_eq k.column Read.column_script_hash then [] else raw;
  scripthash = if str_eq k.column Read.column_script_hash then raw else [];
  chain_stats = new_txo_stats chain;
  mempool_stats = new_txo_stats pending;
}

abbrev keep_row : Result StoreTx.TxRow → H (List StoreTx.TxRow) → H (List StoreTx.TxRow)
keep_row (ok row) rest = rest >>= λ rows. answer (row ∷ rows)
keep_row (err not_found) rest = rest
keep_row (err e) rest = deny (failed e)

-- A loop that reads a row for each txid and skips a row that is not found.
abbrev pub found_rows : (Hash → Q StoreTx.TxRow) → List Hash → H (List StoreTx.TxRow)
found_rows f [] = answer []
found_rows f (txid ∷ txids) = attempt (f txid) >>= λ r. keep_row r (found_rows f txids)

-- toUTXOs
unfoldable pub to_utxos : List Read.Utxo → List Utxo
unfolding new_utxo
to_utxos rows = map new_utxo rows

-- The page of a history: the height to start from, or the empty page.
abbrev pub before_row : ℕ → Option ℕ
before_row height = if height == 0 then none else some (height - 1)

module _ (encode58 : Bytes → Bytes) (decode58 : Bytes → Option Bytes) (q : Request) where
  -- addressInfo
  unfoldable pub address_info : Bool → Bytes → H AddressInfo
  unfolding address_key failed
  address_info script raw = do
    k ← address_key q decode58 script raw
    stats ← run failed (query q.views (Read.stats k.column k.key))
    pending ← run failed (query q.views (Pending.mempool_stats k.column k.key))
    answer (address_info_of k raw stats pending)

  -- addressUTXOs
  unfoldable pub address_utxos : Bool → Bytes → H (List Utxo)
  unfolding address_key failed new_utxo
  address_utxos script raw = do
    k ← address_key q decode58 script raw
    rows ← run failed (query q.views (Read.utxos k.column k.key))
    spent ← run failed (query q.views (λ d. ok (Pending.mempool_spent_outpoints d)))
    pending ← run failed (query q.views (Pending.mempool_utxos k.column k.key))
    answer (map new_utxo (unspent_rows spent rows) ++ map new_utxo pending)

  -- mempoolTxs
  unfoldable pub mempool_txs : List Hash → H (List Tx)
  unfolding PendingLookup.mempool_tx_row
  mempool_txs txids = do
    rows ← found_rows (PendingLookup.mempool_tx_row q.views) txids
    answer (map (new_tx encode58) rows)

  -- addressMempoolTxs
  unfoldable pub address_mempool_txs : Bool → Bytes → H (List Tx)
  unfolding address_key failed mempool_txs
  address_mempool_txs script raw = do
    k ← address_key q decode58 script raw
    txids ← run failed (query q.views (Pending.mempool_txids_for k.column k.key))
    mempool_txs txids

  abbrev pending_page : Key → Bytes → H (List Tx)
  pending_page k (c ∷ cs) = answer []
  pending_page k [] = do
    txids ← run failed (query q.views (Pending.mempool_txids_for k.column k.key))
    mempool_txs txids

  abbrev pub history_page : Key → Bytes → Option ℕ → H (List Tx)
  history_page k last_seen none = answer []
  history_page k last_seen (some before) = do
    refs ← run failed (query q.views (Read.history k.column k.key before page_size))
    pending ← pending_page k last_seen
    rows ← found_rows (Lookup.tx q.views) (map (λ (t : Read.TxRef). t.txid) refs)
    answer (pending ++ map (new_tx encode58) rows)

  -- The cursor; the empty one is the first page.
  abbrev cursor : ℕ → Bytes → H (Option ℕ)
  cursor start [] = answer (some start)
  cursor start (c ∷ cs) = do
    txid ← checked (parse_hash (c ∷ cs))
    row ← run not_found_status (Lookup.tx q.views txid)
    answer (before_row row.height)

  -- addressTxs; its routes have no start_height.
  unfoldable pub address_txs : Bool → Bytes → Bytes → H (List Tx)
  unfolding address_key start_height
  address_txs script raw last_seen = do
    k ← address_key q decode58 script raw
    start ← start_height q []
    before ← cursor start last_seen
    history_page k last_seen before

  -- addressDeposits
  unfoldable pub address_deposits : Bytes → H (List Utxo)
  unfolding get_store failed to_utxos
  address_deposits raw = do
    get_store q
    address ← checked (parse_address decode58 raw)
    rows ← run failed (query q.views (λ d. ok (Read.address_deposits address deposit_list_size d)))
    answer (to_utxos rows)

module _ (q : Request) where
  abbrev pub some_rows : List Read.Utxo → H (List Utxo)
  some_rows [] = deny missing
  some_rows (u ∷ us) = answer (to_utxos (u ∷ us))

  -- deposit
  unfoldable pub deposit : Bytes → H (List Utxo)
  unfolding get_store failed
  deposit raw = do
    get_store q
    main_txid ← checked (parse_bitcoin_hash raw)
    rows ←
        run failed (
          query q.views (λ d. ok (Read.deposits (some main_txid) (2 ^ 32 - 1) deposit_list_size d)))
    some_rows rows

  -- deposits
  unfoldable pub deposits : Bytes → H (List Utxo)
  unfolding get_store start_height failed to_utxos
  deposits raw = do
    get_store q
    start ← start_height q raw
    rows ← run failed (query q.views (λ d. ok (Read.deposits none start deposit_list_size d)))
    answer (to_utxos rows)
