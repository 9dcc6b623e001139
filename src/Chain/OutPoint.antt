-- ===== src/Chain/OutPoint.antt =====
-- internal/chain/outpoint.go: outpoints, the 37-byte key that the index stores them under, the market
-- funds packing, and the JSON object an outpoint is read from and written to. The object is the
-- struct `outPointWire`, what encoding/json makes of the text.
use drivechain_esplora.Base.{
  ℕ, zero, suc, ◌+◌, ◌≤◌, ◌≡◌, Bool, true, false, Option, none, some, List, [], ◌∷◌, ◌++◌, Bytes,
  ltb, ◌==◌, if◌then◌else◌, length, take, drop, replicate, get_elem?, All, Result, ok, err, ◌>>=◌,
  ◌>>◌, fail_if, or_fail, unknown_kind, unknown_variant, no_coinbase_source, no_vout, bad_vout,
  bad_json,
}
use drivechain_esplora.Chain.Text.{
  IsByte, IsU32, put_u32, get_u32, decimal, parse_uint32, cut_colon,
}
use drivechain_esplora.Chain.Hash.{Hash, IsHash, bitcoin_string, parse_bitcoin_hash}
pub mod Key
pub mod Market
pub mod Wire

-- OutPointKind: the borsh discriminants.
abbrev pub regular : ℕ
regular = 0

abbrev pub coinbase : ℕ
coinbase = 1

abbrev pub deposit : ℕ
deposit = 2

abbrev pub market_funds : ℕ
market_funds = 3

abbrev pub payout : ℕ
payout = 4

pub record OutPoint : Type 0 where
  pub kind : ℕ
  pub source : Hash
  pub vout : ℕ

-- What every outpoint that the decoders return satisfies.
pub record IsOutPoint (o : OutPoint) : Type 0 where
  pub known : o.kind ≤ payout
  pub hashed : IsHash o.source
  pub bounded : IsU32 o.vout

-- OutPoint.Key
unfoldable pub key : OutPoint → Bytes
key o = o.kind ∷ (o.source ++ put_u32 o.vout)

-- OutPointFromKey. A key is a `[37]byte`, so it is never empty.
unfoldable pub out_point_from_key : Bytes → Result OutPoint
out_point_from_key [] = err unknown_kind
out_point_from_key (kind ∷ rest) = do
  fail_if (ltb payout kind) unknown_kind
  ok (record { kind = kind; source = take 32 rest; vout = get_u32 (drop 32 rest) })

-- MarketFundsOutPoint: the bytes of `Source` behind the fee flag stay zero, and so does `Vout`.
unfoldable pub market_funds_out_point : Bytes → ℕ → Bool → OutPoint
market_funds_out_point market_id height is_fee = record {
  kind = market_funds;
  source = market_id ++ (put_u32 height ++ ((if is_fee then 1 else 0) ∷ replicate 21 0));
  vout = 0;
}

abbrev is_one : Option ℕ → Bool
is_one none = false
is_one (some b) = b == 1

-- OutPoint.MarketFunds
unfoldable pub market_fields : OutPoint → Bytes × ℕ × Bool
market_fields o = (take 6 o.source, get_u32 (drop 6 o.source), is_one (get_elem? o.source 10))

pub record CoinbaseWire : Type 0 where
  pub txid : Option Hash
  pub merkle_root : Option Hash
  pub vout : ℕ

pub record MarketWire : Type 0 where
  pub market_id : Bytes
  pub block_height : ℕ
  pub is_fee : Bool

-- outPointWire: the pair is (txid, vout), and for a payout (hash, vout).
pub record OutPointWire : Type 0 where
  pub regular : Option (Hash × ℕ)
  pub coinbase : Option CoinbaseWire
  pub deposit : Option Bytes
  pub market_funds : Option MarketWire
  pub payout : Option (Hash × ℕ)

abbrev pub empty_wire : OutPointWire
empty_wire = record {
  regular = none;
  coinbase = none;
  deposit = none;
  market_funds = none;
  payout = none;
}

-- coinbaseOutPointWire.source
unfoldable pub coinbase_source : Option Hash → Option Hash → Result Hash
coinbase_source (some txid) root = ok txid
coinbase_source none (some root) = ok root
coinbase_source none none = err no_coinbase_source

-- `unquote` is json.Unmarshal on the text between two quotes.
module _ (unquote : Bytes → Option Bytes) where
  -- parseBitcoinOutPoint
  unfoldable pub parse_bitcoin_out_point : Bytes → Result OutPoint
  parse_bitcoin_out_point text = do
    (txid_hex, vout_text) ← or_fail (cut_colon text) no_vout
    vout ← or_fail (parse_uint32 vout_text) bad_vout
    s ← or_fail (unquote txid_hex) bad_json
    txid ← parse_bitcoin_hash s
    ok (record { kind = deposit; source = txid; vout = vout })

  abbrev from_coinbase : CoinbaseWire → Result OutPoint
  from_coinbase w = do
    source ← coinbase_source w.txid w.merkle_root
    ok (record { kind = coinbase; source = source; vout = w.vout })

  -- The cases of OutPoint.UnmarshalJSON, in the order of its switch.
  from_variants :
      Option (Hash × ℕ)
      → Option CoinbaseWire
      → Option Bytes
      → Option MarketWire
      → Option (Hash × ℕ)
      → Result OutPoint
  unfolding coinbase_source
  from_variants (some (txid, vout)) c d m p =
      ok (record { kind = regular; source = txid; vout = vout })
  from_variants none (some w) d m p = from_coinbase w
  from_variants none none (some text) m p = parse_bitcoin_out_point text
  from_variants none none none (some w) p =
      ok (market_funds_out_point w.market_id w.block_height w.is_fee)
  from_variants none none none none (some (hash, vout)) =
      ok (record { kind = payout; source = hash; vout = vout })
  from_variants none none none none none = err unknown_variant

  -- OutPoint.UnmarshalJSON behind encoding/json.
  unfoldable pub from_wire : OutPointWire → Result OutPoint
  unfolding from_variants
  from_wire w = from_variants w.regular w.coinbase w.deposit w.market_funds w.payout

abbrev market_wire : Bytes × ℕ × Bool → MarketWire
market_wire (market_id, height, is_fee) = record {
  market_id = market_id;
  block_height = height;
  is_fee = is_fee;
}

-- OutPoint.MarshalJSON in front of encoding/json.
unfoldable pub to_wire : OutPoint → Result OutPointWire
to_wire o =
    if o.kind == regular
    then ok (record empty_wire { regular = some (o.source, o.vout) })
    else if o.kind == coinbase
    then ok (record empty_wire {
      coinbase = some (record { txid = some o.source; merkle_root = none; vout = o.vout });
    })
    else if o.kind == deposit
    then ok
        (record empty_wire { deposit = some (bitcoin_string o.source ++ (b':' ∷ decimal o.vout)) })
    else if o.kind == market_funds
    then ok (record empty_wire { market_funds = some (market_wire (market_fields o)) })
    else if o.kind == payout
    then ok (record empty_wire { payout = some (o.source, o.vout) })
    else err unknown_kind
