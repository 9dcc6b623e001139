-- ===== src/Store/Tx.antt =====
-- internal/store/tx.go: one block, a page of blocks, one transaction with the coins on both sides.
use Prim.Native.String.{String}
use drivechain_esplora.Base.{
  ℕ, ◌+◌, Bool, true, false, ◌&&◌, Option, none, some, List, [], ◌∷◌, map, Bytes, ◌==◌, same,
  if◌then◌else◌, length, keep, take, find?, sum_by, any, replicate, sort_by, traverse_from, Error,
  Result, ok, err, ◌>>=◌, ◌>>◌, fail_if, or_fail, not_found,
}
use drivechain_esplora.Chain.Hash.{Hash}
use drivechain_esplora.Chain.OutPoint.{OutPoint, regular}
use drivechain_esplora.Store.Tables.{
  after, up_to, to_int32, BlockRow as StoredBlock, TxRow as StoredTx, Spent, OutputRow, Db,
}
use drivechain_esplora.Store.Read.{fits, value_of}
pub mod Lookup
pub mod Pages

-- store.BlockRow
pub record BlockRow : Type 0 where
  pub height : ℕ
  pub hash : Hash
  pub prev_hash : Option Hash
  pub merkle_root : Hash
  pub main_hash : Hash
  pub main_height : Option ℕ
  pub block_time : Option ℕ
  pub tx_count : ℕ
  pub fee_sats : ℕ
  pub value_sats : ℕ

-- store.Coin
pub record Coin : Type 0 where
  pub out_point : OutPoint
  pub address : Bytes
  pub value_sats : ℕ
  pub content : Bytes
  pub content_type : String
  pub height : ℕ
  pub spent_source : Option Hash
  pub spent_kind : Option ℕ
  pub spent_height : Option ℕ

-- The zero values of Go.
abbrev pub zero_hash : Hash
zero_hash = replicate 32 0

abbrev pub zero_block : BlockRow
zero_block = record {
  height = 0;
  hash = zero_hash;
  prev_hash = none;
  merkle_root = zero_hash;
  main_hash = zero_hash;
  main_height = none;
  block_time = none;
  tx_count = 0;
  fee_sats = 0;
  value_sats = 0;
}

-- store.TxRow
pub record TxRow : Type 0 where
  pub txid : Hash
  pub height : ℕ
  pub index : ℕ
  pub size_bytes : ℕ
  pub fee_sats : ℕ
  pub raw : Bytes
  pub block : BlockRow
  pub vin : List Coin
  pub vout : List Coin
  pub unconfirmed : Bool

-- The two sums of blockColumns.
abbrev pub txs_at : ℕ → Db → List StoredTx
txs_at height d = keep (λ (t : StoredTx). t.height == height) d.txs

abbrev pub paid_by : Db → Hash → ℕ
paid_by d txid =
    value_of (keep (λ (o : OutputRow). same o.source_id txid && o.kind == regular) d.outputs)

abbrev pub block_fees : ℕ → Db → ℕ
block_fees height d = sum_by (λ (t : StoredTx). t.fee_sats) (txs_at height d)

abbrev pub block_value : ℕ → Db → ℕ
block_value height d = sum_by (λ (t : StoredTx). paid_by d t.txid) (txs_at height d)

abbrev whole_hash : Option Hash → Option Hash
whole_hash none = none
whole_hash (some h) = if length h == 32 then some h else none

-- blockColumns and scanBlock
unfoldable pub scan_block : Db → StoredBlock → Result BlockRow
scan_block d b = do
  fee_sats ← fits (block_fees b.height d)
  value_sats ← fits (block_value b.height d)
  ok (record {
    height = b.height;
    hash = b.hash;
    prev_hash = whole_hash b.prev_hash;
    merkle_root = b.merkle_root;
    main_hash = b.main_hash;
    main_height = b.main_height;
    block_time = b.block_time;
    tx_count = b.tx_count;
    fee_sats = fee_sats;
    value_sats = value_sats;
  })

abbrev first_block : (StoredBlock → Bool) → Db → Result BlockRow
first_block p d = do b ← or_fail (find? p d.blocks) not_found; scan_block d b

-- BlockByHash
unfoldable pub block_by_hash : Hash → Db → Result BlockRow
block_by_hash hash d = first_block (λ b. same b.hash hash) d

-- BlockAtHeight
unfoldable pub block_at_height : ℕ → Db → Result BlockRow
block_at_height height d = first_block (λ b. b.height == to_int32 height) d

-- The rows that Blocks selects.
abbrev pub page_of : ℕ → ℕ → Db → List StoredBlock
page_of start_height limit d = take limit (
    sort_by (λ (a : StoredBlock) (b : StoredBlock). after a.height b.height)
      (keep (λ (b : StoredBlock). up_to b.height (to_int32 start_height)) d.blocks))

-- Blocks
unfoldable pub blocks : ℕ → ℕ → Db → Result (List BlockRow)
blocks start_height limit d = traverse_from (λ _ b. scan_block d b) 0 (page_of start_height limit d)

abbrev is_missing : StoredBlock → Bool
is_missing b = elim b.main_height [ none ↦ true | some _ ↦ false ]

-- BlocksMissingMainHeight
unfoldable pub blocks_missing_main_height : ℕ → Db → Result (List BlockRow)
blocks_missing_main_height limit d =
    traverse_from (λ _ b. scan_block d b) 0
      (take limit (
        sort_by (λ (a : StoredBlock) (b : StoredBlock). after a.height b.height)
          (keep is_missing d.blocks)))

-- BlockTxids; the hash is unique in blocks.
unfoldable pub block_txids : Hash → Db → List Hash
block_txids hash d =
    map (λ (t : StoredTx). t.txid)
      (sort_by (λ (a : StoredTx) (b : StoredTx). after b.tx_index a.tx_index)
        (keep
          (λ (t : StoredTx).
            any (λ (b : StoredBlock). b.height == t.height && same b.hash hash) d.blocks)
          d.txs))

abbrev source_of : Option Spent → Option Hash
source_of none = none
source_of (some s) = if length s.source == 32 then some s.source else none

abbrev kind_of : Option Spent → Option ℕ
kind_of none = none
kind_of (some s) = some s.kind

abbrev height_of : Option Spent → Option ℕ
height_of none = none
height_of (some s) = some s.height

-- coinColumns and the loop of coins.
abbrev pub coin : OutputRow → Coin
coin r = record {
  out_point = record { kind = r.kind; source = r.source_id; vout = r.vout };
  address = r.address;
  value_sats = r.value_sats;
  content = r.content;
  content_type = r.content_type;
  height = r.height;
  spent_source = source_of r.spent;
  spent_kind = kind_of r.spent;
  spent_height = height_of r.spent;
}

abbrev pub coins : (OutputRow → Bool) → (OutputRow → OutputRow → Bool) → Db → List Coin
coins p before d = map coin (sort_by before (keep p d.outputs))

abbrev spends_here : Hash → Option Spent → Bool
spends_here txid none = false
spends_here txid (some s) = same s.source txid && s.kind == 0

abbrev vin_of : Option Spent → ℕ
vin_of none = 0
vin_of (some s) = s.vin

-- `WHERE spent_source = $1 AND spent_kind = 0 ORDER BY spent_vin`
unfoldable pub inputs_of : Hash → Db → List Coin
inputs_of txid d =
    coins (λ r. spends_here txid r.spent) (λ a b. after (vin_of b.spent) (vin_of a.spent)) d

-- Outspends, and `WHERE source_id = $1 AND kind = 0 ORDER BY vout` of Tx.
unfoldable pub outspends : Hash → Db → List Coin
outspends txid d =
    coins (λ r. same r.source_id txid && r.kind == regular) (λ a b. after b.vout a.vout) d

abbrev pub find_tx : Hash → Db → Result StoredTx
find_tx txid d = or_fail (find? (λ (t : StoredTx). same t.txid txid) d.txs) not_found

abbrev pub tx_row : StoredTx → BlockRow → List Coin → List Coin → TxRow
tx_row t block vin vout = record {
  txid = t.txid;
  height = t.height;
  index = t.tx_index;
  size_bytes = t.size_bytes;
  fee_sats = t.fee_sats;
  raw = t.raw;
  block = block;
  vin = vin;
  vout = vout;
  unconfirmed = false;
}
