-- ===== src/Api/Transactions/Place.antt =====
-- txStatus of internal/api/handlers.go on tables that do not change under the request.
use drivechain_esplora.Base.{ℕ, ◌≡◌, true, some, ok, err, not_found}
use drivechain_esplora.Chain.Hash.{Hash}
use drivechain_esplora.Store.Tables.{TxRow as StoredTx, MempoolTxRow, Db}
use drivechain_esplora.Store.Tx.{
  BlockRow, TxRow, tx_row, inputs_of, outspends, find_tx, block_at_height,
}
use drivechain_esplora.Store.Mempool.Query.{find_pending, pending_inputs, pending_outputs}
use drivechain_esplora.Store.Mempool.Query.Lookup.{pending_row}
use drivechain_esplora.Api.Reply.{Reply, refuse, reply, missing}
use drivechain_esplora.Api.Esplora.{Status, new_status, pending_status, tx_status as new_tx_status}
use drivechain_esplora.Api.Server.{Request}
use drivechain_esplora.Api.Transactions.{tx_status}

abbrev pub still : Db → Request
still d = record { connected = true; views = λ _. some d }

module _ (d : Db) (txid : Hash) (n : ℕ) where
  found_tx : StoredTx → BlockRow → TxRow
  found_tx t b = tx_row t b (inputs_of txid d) (outspends txid d)

  found_pending : MempoolTxRow → TxRow
  found_pending t = pending_row t (pending_inputs txid d) (pending_outputs txid d)

-- Where the index holds a transaction, and what a client should read of it.
pub data Place (d : Db) (txid : Hash) : Reply Status → Type 0 where
  mined :
      (t : StoredTx) (b : BlockRow)
      → find_tx txid d ≡ ok t
      → block_at_height t.height d ≡ ok b
      → Place d txid (reply (new_status t.height b.hash b.block_time))
  unmined :
      (t : MempoolTxRow)
      → find_tx txid d ≡ err not_found
      → find_pending txid d ≡ ok t
      → Place d txid (reply pending_status)
  nowhere :
      find_tx txid d ≡ err not_found
      → find_pending txid d ≡ err not_found
      → Place d txid (refuse missing)
