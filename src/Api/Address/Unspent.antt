-- ===== src/Api/Address/Unspent.antt =====
-- addressUTXOs of internal/api/address.go on tables that do not change under the request.
use drivechain_esplora.Base.{◌≡◌, false, List, same, any}
use drivechain_esplora.Chain.OutPoint.{key}
use drivechain_esplora.Store.Tables.{MempoolOutputRow, Db}
use drivechain_esplora.Store.Read
use drivechain_esplora.Store.Mempool.Query as Pending
use drivechain_esplora.Api.Esplora.{Utxo}

-- The mempool spends no coin at this outpoint.
abbrev pub Free : Db → Read.Utxo → Type 0
Free d u = any (same (key u.out_point)) (Pending.mempool_spent_outpoints d) ≡ false

-- The column `outpoint` is the key of the row's fields.
abbrev pub IsKeyed : MempoolOutputRow → Type 0
IsKeyed m = key (record { kind = m.kind; source = m.source_id; vout = m.vout }) ≡ m.outpoint
