-- ===== src/Store/Read.antt =====
-- internal/store/read.go: what an address funded and spent, its unspent outputs, its history, and the
-- deposits. Rows that ORDER BY leaves equal keep the table's order, where Postgres may take any.
use Prim.Native.String.{String}
use text.Mathlib.Text.{◌==◌ as str_eq}
use drivechain_esplora.Base.{
  ℕ, ◌+◌, ◌-◌, ◌^◌, Bool, true, false, ◌&&◌, ◌||◌, not, Option, none, some, List, [], ◌∷◌, ◌++◌,
  map, Bytes, ltb, ◌==◌, same, if◌then◌else◌, length, keep, take, find?, sum_by, distinct,
  filter_map, sort_by, Result, ok, err, ◌>>=◌, ◌>>◌, fail_if, bad_column, out_of_range,
}
use drivechain_esplora.Chain.Hash.{Hash}
use drivechain_esplora.Chain.OutPoint.{OutPoint, regular, deposit}
use drivechain_esplora.Store.Tables.{after, up_to, max_int64, BlockRow, Spent, OutputRow, Db}
pub mod Balance

pub record TxoStats : Type 0 where
  pub funded_count : ℕ
  pub funded_sum : ℕ
  pub spent_count : ℕ
  pub spent_sum : ℕ
  pub tx_count : ℕ

pub record Utxo : Type 0 where
  pub out_point : OutPoint
  pub value_sats : ℕ
  pub height : ℕ
  pub block_hash : Hash
  pub block_time : Option ℕ
  pub content_type : String
  pub content : Bytes
  pub height_exact : Bool
  pub unconfirmed : Bool

pub record TxRef : Type 0 where
  pub txid : Hash
  pub height : ℕ

abbrev pub column_address : String
column_address = "address"

abbrev pub column_script_hash : String
column_script_hash = "scripthash"

-- checkKeyColumn
unfoldable pub check_key_column : String → Result (Unit {0})
check_key_column column =
    fail_if (not (str_eq column column_address || str_eq column column_script_hash)) bad_column

-- The column that a query string names, behind checkKeyColumn.
abbrev pub column_of : String → Bytes → Bytes → Bytes
column_of column address scripthash = if str_eq column column_address then address else scripthash

abbrev pub is_mine : String → Bytes → OutputRow → Bool
is_mine column key r = same (column_of column r.address r.scripthash) key

abbrev pub mine : String → Bytes → Db → List OutputRow
mine column key d = keep (is_mine column key) d.outputs

-- clampHeight
unfoldable pub clamp_height : ℕ → ℕ
clamp_height height = if ltb (2 ^ 31 - 1) height then 2 ^ 31 - 1 else height

abbrev pub is_spent : OutputRow → Bool
is_spent r = elim r.spent [ none ↦ false | some _ ↦ true ]

abbrev pub spent_source : OutputRow → Option Hash
spent_source r = elim r.spent [ none ↦ none | some s ↦ some s.source ]

-- A sum that an int64 cannot hold does not scan.
abbrev pub fits : ℕ → Result ℕ
fits n = fail_if (ltb max_int64 n) out_of_range >> ok n

abbrev pub value_of : List OutputRow → ℕ
value_of rows = sum_by (λ (r : OutputRow). r.value_sats) rows

-- Stats
unfoldable pub stats : String → Bytes → Db → Result TxoStats
unfolding check_key_column
stats column key d =
    let rows = mine column key d in
    let spends = keep is_spent rows in
    do
      check_key_column column
      funded_sum ← fits (value_of rows)
      spent_sum ← fits (value_of spends)
      ok (record {
        funded_count = length rows;
        funded_sum = funded_sum;
        spent_count = length spends;
        spent_sum = spent_sum;
        tx_count = length (
            distinct same
              (map (λ (r : OutputRow). r.source_id) rows ++ filter_map spent_source rows));
      })

-- scanUTXOs: one row of the join of outputs and blocks.
abbrev pub scan_utxo : OutputRow → BlockRow → Utxo
scan_utxo r b = record {
  out_point = record { kind = r.kind; source = r.source_id; vout = r.vout };
  value_sats = r.value_sats;
  height = r.height;
  block_hash = r.block_hash;
  block_time = b.block_time;
  content_type = r.content_type;
  content = r.content;
  height_exact = r.height_exact;
  unconfirmed = false;
}

-- JOIN blocks b ON b.height = o.height; the height is the key of blocks.
abbrev pub join_with : OutputRow → Option BlockRow → Option Utxo
join_with r none = none
join_with r (some b) = some (scan_utxo r b)

abbrev pub join_block : List BlockRow → OutputRow → Option Utxo
join_block blocks r = join_with r (find? (λ (b : BlockRow). b.height == r.height) blocks)

-- ORDER BY height DESC, vout
abbrev pub newer : Utxo → Utxo → Bool
newer a b =
    after a.height b.height || (a.height == b.height && after b.out_point.vout a.out_point.vout)

abbrev pub select_utxos : (OutputRow → Bool) → Db → List Utxo
select_utxos p d = sort_by newer (filter_map (join_block d.blocks) (keep p d.outputs))

abbrev pub is_unspent_mine : String → Bytes → OutputRow → Bool
is_unspent_mine column key r = is_mine column key r && not (is_spent r)

-- UTXOs
unfoldable pub utxos : String → Bytes → Db → Result (List Utxo)
unfolding check_key_column
utxos column key d = do check_key_column column; ok (select_utxos (is_unspent_mine column key) d)

abbrev pub from_source : Option Hash → OutputRow → Bool
from_source none r = true
from_source (some txid) r = same r.source_id txid

-- Deposits; no mainchain txid lists them all.
unfoldable pub deposits : Option Hash → ℕ → ℕ → Db → List Utxo
unfolding clamp_height
deposits txid start_height limit d = take limit (
    select_utxos
      (λ r. r.kind == deposit && from_source txid r && up_to r.height (clamp_height start_height))
      d)

-- AddressDeposits
unfoldable pub address_deposits : Bytes → ℕ → Db → List Utxo
address_deposits address limit d =
    take limit (select_utxos (λ r. same r.address address && r.kind == deposit) d)

-- The order of BYTEA.
abbrev pub bytes_before : Bytes → Bytes → Bool
bytes_before [] [] = false
bytes_before [] (y ∷ ys) = true
bytes_before (x ∷ xs) [] = false
bytes_before (x ∷ xs) (y ∷ ys) = ltb x y || (x == y && bytes_before xs ys)

abbrev pub same_ref : TxRef → TxRef → Bool
same_ref a b = same a.txid b.txid && a.height == b.height

-- ORDER BY height DESC, id
abbrev pub ref_before : TxRef → TxRef → Bool
ref_before a b = after a.height b.height || (a.height == b.height && bytes_before a.txid b.txid)

abbrev pub creation : OutputRow → TxRef
creation r = record { txid = r.source_id; height = r.height }

abbrev pub spend_ref : Option Spent → Option TxRef
spend_ref none = none
spend_ref (some s) = some (record { txid = s.source; height = s.height })

-- The transactions that touched the rows: the union in History.
abbrev pub touched : List OutputRow → List TxRef
touched rows = distinct same_ref (
    map creation (keep (λ (r : OutputRow). r.kind == regular) rows)
    ++ filter_map (λ (r : OutputRow). spend_ref r.spent) rows)

-- History
unfoldable pub history : String → Bytes → ℕ → ℕ → Db → Result (List TxRef)
unfolding check_key_column clamp_height
history column key before_height limit d = do
  check_key_column column
  ok (
      take limit (
        sort_by ref_before (
          keep (λ (r : TxRef). up_to r.height (clamp_height before_height))
            (touched (mine column key d)))))
