-- ===== src/Chain/Block.antt =====
-- internal/chain/block.go: what the node answers, behind encoding/json, the coinbase source, and the
-- signatures of one transaction. blake3 is the package lukechampine.com/blake3: a parameter.
use Prim.Native.String.{String}
use drivechain_esplora.Base.{
  ℕ, ◌+◌, ◌<◌, ◌≡◌, Bool, true, false, Option, none, some, List, [], ◌∷◌, ◌++◌, Bytes, ltb, leb,
  if◌then◌else◌, length, take, drop, sum_by, get_elem?, Result, ok, err, ◌>>=◌, ◌>>◌, fail_if,
  or_fail, bad_index, short_authorizations,
}
use drivechain_esplora.Chain.Hash.{Hash}
use drivechain_esplora.Chain.OutPoint.{OutPoint}
use drivechain_esplora.Chain.ByteText.{ByteString}
pub mod Encoding
pub mod Signatures
pub mod Json

pub record Header : Type 0 where
  pub merkle_root : Hash
  pub prev_side_hash : Option Hash
  pub prev_main_hash : Hash

-- Output: the content is the raw JSON of the chain's own payload.
pub record Output : Type 0 where
  pub address : Bytes
  pub content : Bytes

pub record Input : Type 0 where
  pub out_point : OutPoint
  pub leaf_hash : Bytes

pub record Authorization : Type 0 where
  pub verifying_key : ByteString
  pub signature : ByteString

pub record Transaction : Type 0 where
  pub inputs : List Input
  pub outputs : List Output

pub record Coinbase : Type 0 where
  pub memo : Bytes
  pub outputs : List Output
  pub keyed_by_txid : Bool

pub record Body : Type 0 where
  pub coinbase : Coinbase
  pub transactions : List Transaction
  pub authorizations : List Authorization

pub record Block : Type 0 where
  pub header : Header
  pub body : Body

pub record TxInfo : Type 0 where
  pub txid : Hash
  pub size : ℕ
  pub raw : Bytes
  pub skipped : Bool

pub record MempoolTx : Type 0 where
  pub info : TxInfo
  pub tx : Transaction

pub record Deposit : Type 0 where
  pub out_point : OutPoint
  pub output : Output

pub record BundleSpend : Type 0 where
  pub out_point : OutPoint
  pub m6id : Hash

pub record MarketUtxo : Type 0 where
  pub out_point : OutPoint
  pub output : Output
  pub reason : String

pub record BlockIndex : Type 0 where
  pub txs : List TxInfo
  pub deposits : List Deposit
  pub bundle_spends : List BundleSpend
  pub market_creates : List MarketUtxo
  pub market_deletes : List MarketUtxo

abbrev option_bytes : Option Hash → Bytes
option_bytes none = 0 ∷ []
option_bytes (some h) = 1 ∷ h

-- The bytes that CoinbaseTxid hashes.
unfoldable pub coinbase_encoding : Header → Bytes
coinbase_encoding h = h.merkle_root ++ (h.prev_main_hash ++ option_bytes h.prev_side_hash)

module _ (blake3 : Bytes → Hash) where
  -- CoinbaseTxid
  unfoldable pub coinbase_txid : Header → Hash
  coinbase_txid h = blake3 (coinbase_encoding h)

  -- Block.CoinbaseSource
  unfoldable pub coinbase_source : Block → Hash
  coinbase_source b =
      if b.body.coinbase.keyed_by_txid then coinbase_txid b.header else b.header.merkle_root

abbrev pub input_count : Transaction → ℕ
input_count tx = length tx.inputs

-- Body.AuthorizationsFor; a negative index, which Go also refuses, is no number here.
unfoldable pub authorizations_for : Body → ℕ → Result (List Authorization)
authorizations_for b i = do
  tx ← or_fail (get_elem? b.transactions i) bad_index
  let start = sum_by input_count (take i b.transactions)
  let end = start + input_count tx
  fail_if (ltb (length b.authorizations) end) short_authorizations
  ok (take (input_count tx) (drop start b.authorizations))
