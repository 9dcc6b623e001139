-- ===== src/Store/Mempool/Query/Lookup.antt =====
-- MempoolTxRow of internal/store/mempool.go: three queries, each on the tables of its moment.
use drivechain_esplora.Base.{ℕ, true, Option, List, ok}
use drivechain_esplora.Chain.Hash.{Hash}
use drivechain_esplora.Store.Tables.{MempoolTxRow, Db}
use drivechain_esplora.Store.Tx.{TxRow, Coin, zero_block}
use drivechain_esplora.Store.Query.{Q, query, pure, ◌>>=◌}
use drivechain_esplora.Store.Mempool.Query.{find_pending, pending_inputs, pending_outputs}

abbrev pub pending_row : MempoolTxRow → List Coin → List Coin → TxRow
pending_row t vin vout = record {
  txid = t.txid;
  height = 0;
  index = t.tx_index;
  size_bytes = t.size_bytes;
  fee_sats = t.fee_sats;
  raw = t.raw;
  block = zero_block;
  vin = vin;
  vout = vout;
  unconfirmed = true;
}

module _ (views : ℕ → Option Db) (txid : Hash) where
  abbrev pub with_pending_coins : MempoolTxRow → Q TxRow
  with_pending_coins t = do
    vin ← query views (λ d. ok (pending_inputs txid d))
    vout ← query views (λ d. ok (pending_outputs txid d))
    pure (pending_row t vin vout)

  -- MempoolTxRow
  unfoldable pub mempool_tx_row : Q TxRow
  mempool_tx_row = query views (find_pending txid) >>= with_pending_coins
