-- ===== src/Chain/Block/Json/Laws.antt =====
-- The two JSON forms of an input and of a coinbase of internal/chain/block.go, written and read back.
use drivechain_esplora.Base.{
  ◌≡◌, refl, false, Option, [], ◌∷◌, Bytes, All, ok, ◌>>=◌, >>=-eq-ok, Bool-cases, inl, inr,
}
use drivechain_esplora.Chain.Text.{IsByte, encode_hex}
use drivechain_esplora.Chain.OutPoint.{
  OutPoint, OutPointWire, IsOutPoint, market_funds, from_wire, to_wire,
}
use drivechain_esplora.Chain.OutPoint.Wire.{ReadsHex, IsPacked, from_wire-to_wire}
use drivechain_esplora.Chain.ByteText.{marshal_bytes, unmarshal_bytes, bytes_string}
use drivechain_esplora.Chain.ByteText.Laws.{Quotes, decode_prefixed-encode_hex}
use drivechain_esplora.Chain.Block.{Input, Coinbase}
use drivechain_esplora.Chain.Block.Json.{read_input, write_input, read_coinbase, write_coinbase}

module _ (unquote unmarshal_text unmarshal_numbers : Bytes → Option Bytes)
    (marshal_text : Bytes → Bytes) (reads : ReadsHex unquote)
    (hexes : (bs : Bytes)
      → All IsByte bs
      → Quotes unmarshal_text unmarshal_numbers marshal_text (encode_hex bs)) where
  unmarshal_bytes-marshal_bytes :
      (bs : Bytes)
      → All IsByte bs
      → unmarshal_bytes unmarshal_text unmarshal_numbers (marshal_bytes marshal_text bs) ≡ ok bs
  unfolding unmarshal_bytes marshal_bytes bytes_string
  unmarshal_bytes-marshal_bytes bs bytes =
      let (cs, e, r) = hexes bs bytes in rw (e, r, decode_prefixed-encode_hex bs bytes) refl

  write_read :
      (o : OutPoint) (leaf : Bytes) (wire : OutPointWire)
      → to_wire o ≡ ok wire
      → from_wire unquote wire ≡ ok o
      → All IsByte leaf
      → (write_input marshal_text (record { out_point = o; leaf_hash = leaf })
          >>= read_input unquote unmarshal_text unmarshal_numbers)
        ≡ ok (record { out_point = o; leaf_hash = leaf })
  unfolding write_input read_input
  write_read o [] wire ew er bytes = rw (ew, er) refl
  write_read o (b ∷ bs) wire ew er bytes =
      rw (ew, er, unmarshal_bytes-marshal_bytes (b ∷ bs) bytes) refl

  input_lem :
      (i : Input)
      → IsOutPoint i.out_point
      → (i.out_point.kind ≡ market_funds → IsPacked i.out_point)
      → All IsByte i.leaf_hash
      → (write_input marshal_text i >>= read_input unquote unmarshal_text unmarshal_numbers) ≡ ok i
  input_lem i valid packed bytes =
      let back = from_wire-to_wire unquote reads i.out_point valid packed in
      let (wire, ew, er) = >>=-eq-ok (to_wire i.out_point) (from_wire unquote) back in
      write_read i.out_point i.leaf_hash wire ew er bytes

  coinbase_lem :
      (c : Coinbase)
      → All IsByte c.memo
      → (c.keyed_by_txid ≡ false → c.memo ≡ [])
      → read_coinbase unquote unmarshal_text unmarshal_numbers (write_coinbase marshal_text c)
        ≡ ok c
  unfolding read_coinbase write_coinbase
  coinbase_lem c bytes bare = elim (Bool-cases c.keyed_by_txid) [
    | inl keyed ↦ rw (keyed, unmarshal_bytes-marshal_bytes c.memo bytes) refl
    | inr old ↦ rw (old, bare old) refl
  ]

  -- Every input whose outpoint reads back reads back itself from the form that is written of it, a
  -- pair for one with a leaf hash and an outpoint for one without; and so does every coinbase, as
  -- an object with its memo if it is keyed by txid, and as a list of outputs if it is not and has
  -- no memo; if encoding/json reads a quoted text of hex digits as that text, and writes such a
  -- text between quotes. An outpoint reads back if its kind is known, its source has 32 bytes, its
  -- vout is a u32 and, for market funds, it is packed from its fields.
  pub forms_read_back :
      (i : Input) (c : Coinbase)
      → IsOutPoint i.out_point
      → (i.out_point.kind ≡ market_funds → IsPacked i.out_point)
      → All IsByte i.leaf_hash
      → All IsByte c.memo
      → (c.keyed_by_txid ≡ false → c.memo ≡ [])
      → ((write_input marshal_text i >>= read_input unquote unmarshal_text unmarshal_numbers)
          ≡ ok i)
        × (read_coinbase unquote unmarshal_text unmarshal_numbers (write_coinbase marshal_text c)
            ≡ ok c)
  forms_read_back i c valid packed leaf memo bare =
      (input_lem i valid packed leaf, coinbase_lem c memo bare)
