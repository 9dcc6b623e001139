-- ===== src/Api/Esplora.antt =====
-- internal/api/esplora.go, and the types and builders of activity.go: the bodies of the answers. A field
-- that is the same on every row (version, locktime, sequence, an empty script) is left out.
use Prim.Native.String.{String}
use drivechain_esplora.Base.{
  ℕ, ◌*◌, Bool, true, false, Option, none, some, List, map, Bytes, ◌==◌, if◌then◌else◌,
}
use drivechain_esplora.Chain.Text.{encode_hex}
use drivechain_esplora.Chain.Hash.{Hash, hash_string, bitcoin_string}
use drivechain_esplora.Chain.OutPoint.{OutPoint, coinbase, deposit}
use drivechain_esplora.Store.Read
use drivechain_esplora.Store.Tx as StoreTx
use drivechain_esplora.Store.Activity as StoreActivity
use drivechain_esplora.Store.Mempool.Query

pub record Status : Type 0 where
  pub confirmed : Bool
  pub block_height : Option ℕ
  pub block_hash : Option Bytes
  pub block_time : Option ℕ

pub record TxoStats : Type 0 where
  pub funded_txo_count : ℕ
  pub funded_txo_sum : ℕ
  pub spent_txo_count : ℕ
  pub spent_txo_sum : ℕ
  pub tx_count : ℕ

pub record AddressInfo : Type 0 where
  pub address : Bytes
  pub scripthash : Bytes
  pub chain_stats : TxoStats
  pub mempool_stats : TxoStats

-- OutPointKind.String; `unknown k` prints as unknown(k).
pub data KindName : Type 0 where
  named : String → KindName
  unknown : ℕ → KindName

unfoldable pub kind_string : ℕ → KindName
kind_string k =
    if k == 0
    then named "regular"
    else if k == 1
    then named "coinbase"
    else if k == 2
    then named "deposit"
    else if k == 3
    then named "market_funds"
    else if k == 4
    then named "payout"
    else unknown k

pub record Vout : Type 0 where
  pub script_pub_key : Bytes
  pub script_pub_key_type : String
  pub script_pub_key_address : Bytes
  pub value : ℕ
  pub outpoint_kind : KindName
  pub content_type : String
  pub content : Bytes

pub record Vin : Type 0 where
  pub txid : Bytes
  pub vout : ℕ
  pub prevout : Vout
  pub is_coinbase : Bool

pub record Tx : Type 0 where
  pub txid : Bytes
  pub size : ℕ
  pub weight : ℕ
  pub fee : ℕ
  pub vin : List Vin
  pub vout : List Vout
  pub status : Status

pub record Utxo : Type 0 where
  pub txid : Bytes
  pub vout : ℕ
  pub value : ℕ
  pub status : Status
  pub outpoint_kind : KindName
  pub height_exact : Bool
  pub content_type : String
  pub content : Bytes

pub record Outspend : Type 0 where
  pub spent : Bool
  pub txid : Option Bytes
  pub status : Option Status
  pub spent_by : String

pub record Block : Type 0 where
  pub id : Bytes
  pub height : ℕ
  pub timestamp : Option ℕ
  pub tx_count : ℕ
  pub merkle_root : Bytes
  pub previous_hash : Option Bytes
  pub mainchain_hash : Bytes
  pub mainchain_height : Option ℕ
  pub fees : ℕ
  pub value : ℕ

pub record BlockStatus : Type 0 where
  pub in_best_chain : Bool
  pub height : Option ℕ
  pub next_best : Option Bytes

pub record Activity : Type 0 where
  pub kind : String
  pub id : Bytes
  pub value : ℕ
  pub fee : ℕ
  pub size : ℕ
  pub status : Status

-- RecentTx of handlers.go
pub record RecentTx : Type 0 where
  pub txid : Bytes
  pub fee : ℕ
  pub vsize : ℕ
  pub value : ℕ

-- ScriptPubKeyType
abbrev pub script_pub_key_type : String
script_pub_key_type = "sidechain_address"

-- newStatus
unfoldable pub new_status : ℕ → Hash → Option ℕ → Status
unfolding hash_string
new_status height hash block_time = record {
  confirmed = true;
  block_height = some height;
  block_hash = some (hash_string hash);
  block_time = block_time;
}

-- pendingStatus
abbrev pub pending_status : Status
pending_status = record {
  confirmed = false;
  block_height = none;
  block_hash = none;
  block_time = none;
}

-- sourceString
unfoldable pub source_string : OutPoint → Bytes
unfolding hash_string bitcoin_string
source_string o = if o.kind == deposit then bitcoin_string o.source else hash_string o.source

-- txStatus
unfoldable pub tx_status : StoreTx.TxRow → Status
unfolding new_status
tx_status row =
    if row.unconfirmed
    then pending_status
    else new_status row.height row.block.hash row.block.block_time

-- base58.Encode is outside the program.
module _ (encode58 : Bytes → Bytes) where
  -- newVout
  unfoldable pub new_vout : StoreTx.Coin → Vout
  unfolding kind_string
  new_vout c = record {
    script_pub_key = encode_hex c.address;
    script_pub_key_type = script_pub_key_type;
    script_pub_key_address = encode58 c.address;
    value = c.value_sats;
    outpoint_kind = kind_string c.out_point.kind;
    content_type = c.content_type;
    content = c.content;
  }

  abbrev pub new_vin : StoreTx.Coin → Vin
  new_vin c = record {
    txid = source_string c.out_point;
    vout = c.out_point.vout;
    prevout = new_vout c;
    is_coinbase = c.out_point.kind == coinbase;
  }

  -- newTx
  unfoldable pub new_tx : StoreTx.TxRow → Tx
  unfolding hash_string source_string new_vout tx_status
  new_tx row = record {
    txid = hash_string row.txid;
    size = row.size_bytes;
    weight = row.size_bytes * 4;
    fee = row.fee_sats;
    vin = map new_vin row.vin;
    vout = map new_vout row.vout;
    status = tx_status row;
  }

-- newUTXO
unfoldable pub new_utxo : Read.Utxo → Utxo
unfolding source_string kind_string new_status
new_utxo u = record {
  txid = source_string u.out_point;
  vout = u.out_point.vout;
  value = u.value_sats;
  status = if u.unconfirmed then pending_status else new_status u.height u.block_hash u.block_time;
  outpoint_kind = kind_string u.out_point.kind;
  height_exact = u.height_exact;
  content_type = u.content_type;
  content = u.content;
}

abbrev optional_string : Option Hash → Option Bytes
optional_string none = none
optional_string (some h) = some (hash_string h)

-- newBlock
unfoldable pub new_block : StoreTx.BlockRow → Block
unfolding hash_string bitcoin_string
new_block b = record {
  id = hash_string b.hash;
  height = b.height;
  timestamp = b.block_time;
  tx_count = b.tx_count;
  merkle_root = hash_string b.merkle_root;
  previous_hash = optional_string b.prev_hash;
  mainchain_hash = bitcoin_string b.main_hash;
  mainchain_height = b.main_height;
  fees = b.fee_sats;
  value = b.value_sats;
}

-- newTxoStats of address.go
unfoldable pub new_txo_stats : Read.TxoStats → TxoStats
new_txo_stats s = record {
  funded_txo_count = s.funded_count;
  funded_txo_sum = s.funded_sum;
  spent_txo_count = s.spent_count;
  spent_txo_sum = s.spent_sum;
  tx_count = s.tx_count;
}

-- newActivity of activity.go
unfoldable pub new_activity : StoreActivity.ActivityRow → Activity
unfolding hash_string new_status
new_activity row = record {
  kind = row.kind;
  id = hash_string row.id;
  value = row.value_sats;
  fee = row.fee_sats;
  size = row.size_bytes;
  status = new_status row.height row.block_hash row.block_time;
}

-- The pending rows of recentActivity.
abbrev pub pending_activity : Query.MempoolEntry → Activity
pending_activity row = record {
  kind = StoreActivity.kind_transfer;
  id = hash_string row.txid;
  value = row.value_sats;
  fee = row.fee_sats;
  size = row.size_bytes;
  status = pending_status;
}

-- The rows of mempoolRecent.
abbrev pub recent_tx : Query.MempoolEntry → RecentTx
recent_tx row = record {
  txid = hash_string row.txid;
  fee = row.fee_sats;
  vsize = row.size_bytes;
  value = row.value_sats;
}
