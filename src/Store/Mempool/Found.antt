-- ===== src/Store/Mempool/Found.antt =====
-- ReplaceMempool of internal/store/mempool.go and the read of one of its transactions.
use drivechain_esplora.Base.{Bool, same}
use drivechain_esplora.Chain.Hash.{Hash}
use drivechain_esplora.Store.Tables.{MempoolTxRow, Mempool}

abbrev named : Hash → MempoolTxRow → Bool
named txid r = same r.txid txid
