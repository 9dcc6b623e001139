-- ===== src/Chain/ByteText/Laws.antt =====
-- Byte strings, written and read back. The section's parameters are encoding/json: reading a text,
-- reading an array of numbers, and writing a text.
use drivechain_esplora.Base.{
  ℕ, ◌<◌, ◌%◌, ◌∙◌, ◌==◌, ◌≡◌, ◌≢◌, refl, sym, ap, false, Bool-cases, Option, some, [], ◌∷◌, Bytes,
  All, Result, ok, arith, Option-cases, inl, inr,
}
use drivechain_esplora.Chain.Text.{IsByte, encode_hex, decode_hex, hex_digit}
use drivechain_esplora.Chain.Text.Laws.{decode_hex-encode_hex}
use drivechain_esplora.Chain.ByteText.{
  ByteString, trim_prefix, decode_prefixed, bytes_string, byte_string, marshal_bytes,
  marshal_byte_string, unmarshal_bytes, unmarshal_byte_string, of_text, of_numbers, read_text,
  read_numbers,
}

-- A digit is no `x`, so hex never starts with the prefix.
hex_digit-ne-x : (n : ℕ) → n < 16 → hex_digit n ≢ b'x'
unfolding hex_digit
hex_digit-ne-x n h e = ground arith

trim_prefix-encode_hex : (bs : Bytes) → All IsByte bs → trim_prefix (encode_hex bs) ≡ encode_hex bs
unfolding trim_prefix encode_hex
trim_prefix-encode_hex [] h = refl
trim_prefix-encode_hex (b ∷ bs) (hb, hbs) = ground (arith, hex_digit-ne-x (b % 16))

pub decode_prefixed-encode_hex :
    (bs : Bytes) → All IsByte bs → decode_prefixed (encode_hex bs) ≡ some bs
unfolding decode_prefixed
decode_prefixed-encode_hex bs h = rw (trim_prefix-encode_hex bs h) (decode_hex-encode_hex bs h)

module _ (unmarshal_text : Bytes → Option Bytes) (unmarshal_numbers : Bytes → Option Bytes)
    (marshal_text : Bytes → Bytes) where
  -- A text that encoding/json writes between quotes and reads back.
  abbrev pub Quotes : Bytes → Type 0
  Quotes s = (cs : Bytes) × (marshal_text s ≡ b'"' ∷ cs) × (unmarshal_text (b'"' ∷ cs) ≡ some s)

  abbrev written : ByteString → Bytes
  written b = marshal_byte_string marshal_text b

  abbrev reads : Bytes → Result ByteString
  reads json = unmarshal_byte_string unmarshal_text unmarshal_numbers json

  read_back : (s : Bytes) → Quotes s → reads (marshal_text s) ≡ ok (of_text s)
  unfolding unmarshal_byte_string
  read_back s (cs, e, r) = rw (e, r) refl

  -- `b`, written, is read as a value with its bytes and its String.
  abbrev pub ReadsBack : ByteString → Type 0
  ReadsBack b =
      (c : ByteString) × (reads (written b) ≡ ok c)
      × (c.bytes ≡ b.bytes)
      × (byte_string c ≡ byte_string b)

  of_text-ReadsBack : (s : Bytes) → Quotes s → ReadsBack (of_text s)
  unfolding marshal_byte_string marshal_bytes bytes_string byte_string encode_hex decode_prefixed
      decode_hex trim_prefix
  of_text-ReadsBack [] q = (of_text [], read_back [] q, refl, refl)
  of_text-ReadsBack (c ∷ cs) q = (of_text (c ∷ cs), read_back (c ∷ cs) q, refl, refl)

  hex_string :
      (bs : Bytes) → byte_string (record { bytes = bs; text = encode_hex bs }) ≡ encode_hex bs
  unfolding byte_string bytes_string encode_hex
  hex_string [] = refl
  hex_string (b ∷ bs) = refl

  of_hex :
      (bs : Bytes)
      → All IsByte bs
      → of_text (encode_hex bs) ≡ record { bytes = bs; text = encode_hex bs }
  of_hex bs h = rw (decode_prefixed-encode_hex bs h) refl

  of_numbers-ReadsBack :
      (raw : Bytes) → All IsByte raw → Quotes (encode_hex raw) → ReadsBack (of_numbers raw)
  unfolding marshal_byte_string marshal_bytes bytes_string byte_string
  of_numbers-ReadsBack raw h q = (
    of_text (encode_hex raw),
    read_back (encode_hex raw) q,
    ap (λ b. b.bytes) (of_hex raw h),
    ap byte_string (of_hex raw h) ∙ hex_string raw,
  )

  module _ (texts : (json s : Bytes) → unmarshal_text json ≡ some s → Quotes s)
      (numbers : (json raw : Bytes) → unmarshal_numbers json ≡ some raw → All IsByte raw)
      (hexes : (bs : Bytes) → All IsByte bs → Quotes (encode_hex bs)) where
    read_text-eq :
        (json s : Bytes) (b : ByteString)
        → unmarshal_text json ≡ some s
        → read_text unmarshal_text unmarshal_numbers json ≡ ok b
        → b ≡ of_text s
    read_text-eq json s b es e = ground arith

    read_text-ReadsBack :
        (json : Bytes) (b : ByteString)
        → read_text unmarshal_text unmarshal_numbers json ≡ ok b
        → ReadsBack b
    read_text-ReadsBack json b e = elim (Option-cases (unmarshal_text json)) [
      | inl bad ↦ ground arith
      | inr (s, es) ↦ rw (read_text-eq json s b es e) (of_text-ReadsBack s (texts json s es))
    ]

    read_numbers-eq :
        (c : ℕ) (cs raw : Bytes) (b : ByteString)
        → ((c == b'"') ≡ false)
        → unmarshal_numbers (c ∷ cs) ≡ some raw
        → read_numbers unmarshal_text unmarshal_numbers (c ∷ cs) ≡ ok b
        → b ≡ of_numbers raw
    unfolding unmarshal_bytes
    read_numbers-eq c cs raw b q er e = ground arith

    read_numbers-ReadsBack :
        (c : ℕ) (cs : Bytes) (b : ByteString)
        → ((c == b'"') ≡ false)
        → read_numbers unmarshal_text unmarshal_numbers (c ∷ cs) ≡ ok b
        → ReadsBack b
    unfolding unmarshal_bytes
    read_numbers-ReadsBack c cs b q e = elim (Option-cases (unmarshal_numbers (c ∷ cs))) [
      | inl bad ↦ ground arith
      | inr (raw, er) ↦
          rw (read_numbers-eq c cs raw b q er e) (
            of_numbers-ReadsBack raw (numbers (c ∷ cs) raw er)
              (hexes raw (numbers (c ∷ cs) raw er)))
    ]

    -- A ByteString that was read from a JSON text reads back from what MarshalJSON writes, with the
    -- same bytes and the same String, if encoding/json reads an array as bytes, and reads back each
    -- text that it has read, and each text of hex digits, from a quoted form.
    pub unmarshal_byte_string-marshal :
        (json : Bytes) (b : ByteString) → reads json ≡ ok b → ReadsBack b
    unfolding unmarshal_byte_string
    unmarshal_byte_string-marshal [] b e = read_text-ReadsBack [] b e
    unmarshal_byte_string-marshal (c ∷ cs) b e = elim (Bool-cases (c == b'"')) [
      | inl q ↦ read_text-ReadsBack (c ∷ cs) b (sym (rw q refl) ∙ e)
      | inr q ↦ read_numbers-ReadsBack c cs b q (sym (rw q refl) ∙ e)
    ]
