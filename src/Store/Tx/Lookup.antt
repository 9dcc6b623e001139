-- ===== src/Store/Tx/Lookup.antt =====
-- Tx of internal/store/tx.go: four queries, each on the tables of its moment.
use drivechain_esplora.Base.{ℕ, Option, ok}
use drivechain_esplora.Chain.Hash.{Hash}
use drivechain_esplora.Store.Tables.{TxRow as StoredTx, Db}
use drivechain_esplora.Store.Query.{Q, query, pure, ◌>>=◌}
use drivechain_esplora.Store.Tx.{
  TxRow, BlockRow, block_at_height, inputs_of, outspends, find_tx, tx_row,
}

module _ (views : ℕ → Option Db) (txid : Hash) where
  -- The three queries behind the row of the transaction.
  abbrev pub with_coins : StoredTx → BlockRow → Q TxRow
  with_coins t block = do
    vin ← query views (λ d. ok (inputs_of txid d))
    vout ← query views (λ d. ok (outspends txid d))
    pure (tx_row t block vin vout)

  abbrev pub with_block : StoredTx → Q TxRow
  with_block t = query views (block_at_height t.height) >>= with_coins t

  -- Tx
  unfoldable pub tx : Q TxRow
  tx = query views (find_tx txid) >>= with_block
