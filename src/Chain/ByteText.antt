-- ===== src/Chain/ByteText.antt =====
-- internal/chain/bytes.go: the byte strings of a node, hex or a text of their own. What encoding/json
-- makes of a JSON text is a parameter.
use drivechain_esplora.Base.{
  ℕ, Bool, Option, none, some, [], ◌∷◌, Bytes, ltb, ◌==◌, if◌then◌else◌, Result, ok, err, ◌>>=◌,
  or_fail, bad_hex, bad_json,
}
use drivechain_esplora.Chain.Text.{encode_hex, decode_hex}
pub mod Laws

-- Bytes.String
unfoldable pub bytes_string : Bytes → Bytes
bytes_string b = encode_hex b

-- strings.TrimPrefix(s, "0x")
unfoldable pub trim_prefix : Bytes → Bytes
trim_prefix [] = []
trim_prefix (c ∷ []) = c ∷ []
trim_prefix (c ∷ d ∷ cs) = if c == b'0' then (if d == b'x' then cs else c ∷ d ∷ cs) else c ∷ d ∷ cs

-- decodeHex
unfoldable pub decode_prefixed : Bytes → Option Bytes
decode_prefixed s = decode_hex (trim_prefix s)

-- ByteString: a nil slice and an empty one are one here, as no method tells them apart.
pub record ByteString : Type 0 where
  pub bytes : Bytes
  pub text : Bytes

abbrev string_or : Bytes → Bytes → Bytes
string_or bytes [] = bytes_string bytes
string_or bytes (c ∷ cs) = c ∷ cs

-- ByteString.String
unfoldable pub byte_string : ByteString → Bytes
byte_string b = string_or b.bytes b.text

abbrev bytes_or_none : Option Bytes → Bytes
bytes_or_none none = []
bytes_or_none (some raw) = raw

-- Text that no hex decoder reads is the whole value.
abbrev pub of_text : Bytes → ByteString
of_text s = record { bytes = bytes_or_none (decode_prefixed s); text = s }

abbrev pub of_numbers : Bytes → ByteString
of_numbers raw = record { bytes = raw; text = [] }

module _ (marshal_text : Bytes → Bytes) where
  -- Bytes.MarshalJSON
  unfoldable pub marshal_bytes : Bytes → Bytes
  marshal_bytes b = marshal_text (bytes_string b)

  abbrev marshal_or : Bytes → Bytes → Bytes
  marshal_or bytes [] = marshal_bytes bytes
  marshal_or bytes (c ∷ cs) = marshal_text (c ∷ cs)

  -- ByteString.MarshalJSON
  unfoldable pub marshal_byte_string : ByteString → Bytes
  marshal_byte_string b = marshal_or b.bytes b.text

module _ (unmarshal_text : Bytes → Option Bytes) (unmarshal_numbers : Bytes → Option Bytes) where
  abbrev from_text : Bytes → Result Bytes
  from_text json = do
    s ← or_fail (unmarshal_text json) bad_json
    or_fail (decode_prefixed s) bad_hex

  -- Bytes.UnmarshalJSON
  unfoldable pub unmarshal_bytes : Bytes → Result Bytes
  unmarshal_bytes [] = err bad_json
  unmarshal_bytes (c ∷ cs) =
      if c == b'"' then from_text (c ∷ cs) else or_fail (unmarshal_numbers (c ∷ cs)) bad_json

  abbrev pub read_text : Bytes → Result ByteString
  read_text json = do s ← or_fail (unmarshal_text json) bad_json; ok (of_text s)

  abbrev pub read_numbers : Bytes → Result ByteString
  read_numbers json = do raw ← unmarshal_bytes json; ok (of_numbers raw)

  -- ByteString.UnmarshalJSON
  unfoldable pub unmarshal_byte_string : Bytes → Result ByteString
  unmarshal_byte_string [] = read_text []
  unmarshal_byte_string (c ∷ cs) = if c == b'"' then read_text (c ∷ cs) else read_numbers (c ∷ cs)
