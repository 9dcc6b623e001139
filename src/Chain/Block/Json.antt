-- ===== src/Chain/Block/Json.antt =====
-- internal/chain/block.go: the two JSON forms of an input and of a coinbase. encoding/json has taken a
-- value apart: an outpoint is the wire of internal/chain/outpoint.go, a byte string is its JSON text, and
-- the outputs are read.
use drivechain_esplora.Base.{
  true, false, Option, List, [], ◌∷◌, Bytes, if◌then◌else◌, Result, ok, err, ◌>>=◌, bad_json,
}
use drivechain_esplora.Chain.OutPoint.{OutPoint, OutPointWire, from_wire, to_wire}
use drivechain_esplora.Chain.ByteText.{marshal_bytes, unmarshal_bytes}
use drivechain_esplora.Chain.Block.{Input, Output, Coinbase}
pub mod Laws

-- The JSON of an input: an outpoint, a list of two values, or a list of another length.
pub data InputJson : Type 0 where
  bare : OutPointWire → InputJson
  pair : OutPointWire → Bytes → InputJson
  no_pair : InputJson

-- The JSON of a coinbase: a list of outputs, or an object of a memo and outputs.
pub data CoinbaseJson : Type 0 where
  list : List Output → CoinbaseJson
  object : Bytes → List Output → CoinbaseJson

module _ (unquote unmarshal_text unmarshal_numbers : Bytes → Option Bytes) where
  -- decodePair, of a list of two values, into an outpoint and a byte string.
  abbrev decode_pair : OutPointWire → Bytes → Result (OutPoint × Bytes)
  decode_pair wire leaf = do
    o ← from_wire unquote wire
    hash ← unmarshal_bytes unmarshal_text unmarshal_numbers leaf
    ok (o, hash)

  -- Input.UnmarshalJSON
  unfoldable pub read_input : InputJson → Result Input
  read_input (bare wire) = do
    o ← from_wire unquote wire
    ok (record { out_point = o; leaf_hash = [] })
  read_input (pair wire leaf) = do
    p ← decode_pair wire leaf
    ok (record { out_point = p.0; leaf_hash = p.1 })
  read_input no_pair = err bad_json

  -- Coinbase.UnmarshalJSON
  unfoldable pub read_coinbase : CoinbaseJson → Result Coinbase
  read_coinbase (list outputs) = ok (record { memo = []; outputs = outputs; keyed_by_txid = false })
  read_coinbase (object memo outputs) = do
    m ← unmarshal_bytes unmarshal_text unmarshal_numbers memo
    ok (record { memo = m; outputs = outputs; keyed_by_txid = true })

module _ (marshal_text : Bytes → Bytes) where
  -- An empty leaf hash leaves the outpoint alone.
  abbrev with_leaf : OutPointWire → Bytes → InputJson
  with_leaf wire [] = bare wire
  with_leaf wire (b ∷ bs) = pair wire (marshal_bytes marshal_text (b ∷ bs))

  -- Input.MarshalJSON
  unfoldable pub write_input : Input → Result InputJson
  write_input i = do wire ← to_wire i.out_point; ok (with_leaf wire i.leaf_hash)

  -- Coinbase.MarshalJSON
  unfoldable pub write_coinbase : Coinbase → CoinbaseJson
  write_coinbase c =
      if c.keyed_by_txid
      then object (marshal_bytes marshal_text c.memo) c.outputs
      else list c.outputs
