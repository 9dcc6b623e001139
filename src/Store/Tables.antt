-- ===== src/Store/Tables.antt =====
-- The tables of internal/store/migrations, one record for a row and a list for a table, and the
-- values that the store package is handed (write.go, mempool.go).
-- An INTEGER column holds a u32 by its bit pattern, so `int32(x)` and `uint32(x)` between u32 and
-- INTEGER keep the number, and the columns are compared by `after` and `up_to`, as signed numbers.
-- The four `spent_` columns are written together and cleared together: one nullable `Spent`.
use Prim.Native.String.{String}
use drivechain_esplora.Base.{ℕ, ◌+◌, ◌-◌, ◌%◌, ◌^◌, Bool, Option, List, Bytes, ltb, leb}
use drivechain_esplora.Chain.Hash.{Hash}
use drivechain_esplora.Chain.OutPoint.{OutPoint}

-- A conversion of a Go int to int32.
abbrev pub to_int32 : ℕ → ℕ
to_int32 n = n % 2 ^ 32

-- The place of a bit pattern in the order of signed 32-bit numbers.
abbrev pub signed : ℕ → ℕ
signed n = (n + 2 ^ 31) % 2 ^ 32

-- `a > b` and `a <= b` on INTEGER columns.
abbrev pub after : ℕ → ℕ → Bool
after a b = ltb (signed b) (signed a)

abbrev pub up_to : ℕ → ℕ → Bool
up_to a b = leb (signed a) (signed b)

abbrev pub max_int64 : ℕ
max_int64 = 2 ^ 63 - 1

pub record BlockRow : Type 0 where
  pub height : ℕ
  pub hash : Hash
  pub prev_hash : Option Hash
  pub merkle_root : Hash
  pub main_hash : Hash
  pub main_height : Option ℕ
  pub block_time : Option ℕ
  pub tx_count : ℕ

pub record TxRow : Type 0 where
  pub txid : Hash
  pub height : ℕ
  pub tx_index : ℕ
  pub size_bytes : ℕ
  pub fee_sats : ℕ
  pub raw : Bytes

pub record Spent : Type 0 where
  pub source : Hash
  pub kind : ℕ
  pub vin : ℕ
  pub height : ℕ

pub record OutputRow : Type 0 where
  pub outpoint : Bytes
  pub kind : ℕ
  pub source_id : Hash
  pub vout : ℕ
  pub block_hash : Hash
  pub address : Bytes
  pub scripthash : Bytes
  pub value_sats : ℕ
  pub content : Bytes
  pub content_type : String
  pub height : ℕ
  pub height_exact : Bool
  pub spent : Option Spent

pub record SyncState : Type 0 where
  pub chain : String
  pub network : String
  pub tip : Option (ℕ × Hash)

pub record MempoolTxRow : Type 0 where
  pub txid : Hash
  pub tx_index : ℕ
  pub size_bytes : ℕ
  pub fee_sats : ℕ
  pub raw : Bytes
  pub first_seen : ℕ

pub record MempoolOutputRow : Type 0 where
  pub outpoint : Bytes
  pub kind : ℕ
  pub source_id : Hash
  pub vout : ℕ
  pub address : Bytes
  pub scripthash : Bytes
  pub value_sats : ℕ
  pub content : Bytes
  pub content_type : String

pub record MempoolSpendRow : Type 0 where
  pub outpoint : Bytes
  pub source : Hash
  pub kind : ℕ
  pub vin : ℕ

-- The database. `sync_state` holds one row once Init has run.
pub record Db : Type 0 where
  pub blocks : List BlockRow
  pub txs : List TxRow
  pub outputs : List OutputRow
  pub sync_state : Option SyncState
  pub mempool_txs : List MempoolTxRow
  pub mempool_outputs : List MempoolOutputRow
  pub mempool_spends : List MempoolSpendRow

-- store.Output. A value is never negative: the decoders make it from a u64 below 2 ^ 63.
pub record Output : Type 0 where
  pub out_point : OutPoint
  pub address : Bytes
  pub value_sats : ℕ
  pub content : Bytes
  pub content_type : String
  pub height_exact : Bool

-- store.Spend
pub record Spend : Type 0 where
  pub out_point : OutPoint
  pub source : Hash
  pub kind : ℕ
  pub vin : ℕ

-- store.Tx
pub record Tx : Type 0 where
  pub txid : Hash
  pub index : ℕ
  pub size_bytes : ℕ
  pub fee_sats : ℕ
  pub raw : Bytes

-- store.Block
pub record Block : Type 0 where
  pub height : ℕ
  pub hash : Hash
  pub prev_hash : Option Hash
  pub merkle_root : Hash
  pub main_hash : Hash
  pub main_height : Option ℕ
  pub block_time : Option ℕ
  pub txs : List Tx
  pub creates : List Output
  pub spends : List Spend

-- store.MempoolTx and store.Mempool
pub record MempoolTx : Type 0 where
  pub txid : Hash
  pub index : ℕ
  pub size_bytes : ℕ
  pub raw : Bytes

pub record Mempool : Type 0 where
  pub txs : List MempoolTx
  pub creates : List Output
  pub spends : List Spend
