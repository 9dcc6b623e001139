-- ===== src/Chain/OutPoint/Wire.antt =====
-- MarshalJSON and UnmarshalJSON of internal/chain/outpoint.go.
use drivechain_esplora.Base.{
  ℕ, ◌≡◌, ◌≢◌, Bool, Option, some, ◌∷◌, ◌++◌, Bytes, length, All, ok, err, ◌>>=◌, arith, no_vout,
  ℕ_discrete,
}
use mathlib.Core.List.{reverse}
use drivechain_esplora.Chain.Text.{IsU32, decimal}
use drivechain_esplora.Chain.Text.Laws.{
  IsHexChar, encode_hex-chars, cut_colon-hex, cut_colon-none, parse_uint32-decimal,
}
use drivechain_esplora.Chain.Hash.{IsHash, bitcoin_string}
use drivechain_esplora.Chain.Hash.Laws.{reverse-bytes, parse_bitcoin_hash-bitcoin_string}
use drivechain_esplora.Chain.OutPoint.{
  OutPoint, IsOutPoint, deposit, market_funds, market_funds_out_point, parse_bitcoin_out_point,
  from_wire, to_wire,
}
use drivechain_esplora.Chain.OutPoint.Market.{market_fields-market_funds_out_point}

bitcoin_string-chars : (h : Bytes) → IsHash h → All IsHexChar (bitcoin_string h)
unfolding bitcoin_string
bitcoin_string-chars h v = encode_hex-chars (reverse h) (reverse-bytes h v.1)

-- What the index relies on of json.Unmarshal: a quoted text of hex digits is that text.
abbrev pub ReadsHex : (Bytes → Option Bytes) → Type 0
ReadsHex unquote = (s : Bytes) → All IsHexChar s → unquote s ≡ some s

-- A market funds outpoint carries its fields alone, so it reads back if it was packed from them.
abbrev pub IsPacked : OutPoint → Type 0
IsPacked o =
    (m : Bytes) × (height : ℕ) × (is_fee : Bool) × (length m ≡ 6)
    × IsU32 height
    × (o ≡ market_funds_out_point m height is_fee)

module _ (unquote : Bytes → Option Bytes) (reads : ReadsHex unquote) where
  -- A deposit's "txid:vout" text, of a txid of 32 bytes and a u32, reads back as the deposit, if
  -- encoding/json reads a quoted text of hex digits as that text.
  pub parse_bitcoin_out_point-text :
      (h : Bytes) (vout : ℕ)
      → IsHash h
      → IsU32 vout
      → parse_bitcoin_out_point unquote (bitcoin_string h ++ (b':' ∷ decimal vout))
        ≡ ok (record { kind = deposit; source = h; vout = vout })
  unfolding parse_bitcoin_out_point
  parse_bitcoin_out_point-text h vout vh vv =
      let chars = bitcoin_string-chars h vh in
      rw (
        cut_colon-hex (bitcoin_string h) (decimal vout) chars,
        parse_uint32-decimal vout vv,
        reads (bitcoin_string h) chars,
        parse_bitcoin_hash-bitcoin_string h vh,
      )

  from_wire-to_wire_market :
      (m : Bytes) (height : ℕ) (is_fee : Bool)
      → length m ≡ 6
      → IsU32 height
      → (to_wire (market_funds_out_point m height is_fee) >>= from_wire unquote)
        ≡ ok (market_funds_out_point m height is_fee)
  unfolding to_wire from_wire
  from_wire-to_wire_market m height is_fee em eh =
      let fields = market_fields-market_funds_out_point m height is_fee em eh in
      unfold market_funds_out_point in ground (arith, fields)

  from_wire-to_wire_plain :
      (o : OutPoint)
      → IsOutPoint o
      → o.kind ≢ market_funds
      → (to_wire o >>= from_wire unquote) ≡ ok o
  unfolding to_wire from_wire
  from_wire-to_wire_plain o v ne =
      ground (arith, v.known, parse_bitcoin_out_point-text o.source o.vout v.hashed v.bounded)

  -- Every outpoint of a known kind, with a source of 32 bytes and a u32, reads back from the object
  -- that it is written to, if a market funds outpoint is one that was packed from its fields, and
  -- if encoding/json reads a quoted text of hex digits as that text.
  pub from_wire-to_wire :
      (o : OutPoint)
      → IsOutPoint o
      → (o.kind ≡ market_funds → IsPacked o)
      → (to_wire o >>= from_wire unquote) ≡ ok o
  from_wire-to_wire o v packed = elim (ℕ_discrete o.kind market_funds) [
    | yes e ↦
        let (m, height, is_fee, em, eh, eo) = packed e in
        rw eo (from_wire-to_wire_market m height is_fee em eh)
    | no ne ↦ from_wire-to_wire_plain o v ne
  ]

-- parseBitcoinOutPoint refuses a text with no colon.
pub parse_bitcoin_out_point_no_colon :
    (unquote : Bytes → Option Bytes) (s : Bytes)
    → All (λ c. c ≢ b':') s
    → parse_bitcoin_out_point unquote s ≡ err no_vout
unfolding parse_bitcoin_out_point
parse_bitcoin_out_point_no_colon unquote s h = rw (cut_colon-none s h)
