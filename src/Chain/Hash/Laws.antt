-- ===== src/Chain/Hash/Laws.antt =====
-- Hashes and their two texts: the sidechain's byte order, and the mainchain's, which is reversed.
use mathlib.Core.List.{reverse, reverse-cons, reverse-reverse}
use drivechain_esplora.Base.{
  ℕ, ◌*◌, ◌<◌, ◌≡◌, refl, ap, some, [], ◌∷◌, Bytes, length, length-append, All, All-append, ok,
  arith, Option-cases, inl, inr,
}
use drivechain_esplora.Chain.Text.{IsByte, encode_hex, decode_hex, from_hex_digit}
use drivechain_esplora.Chain.Text.Laws.{decode_hex-encode_hex}
use drivechain_esplora.Chain.Hash.{
  Hash, IsHash, hash_string, parse_hash, bitcoin_string, parse_bitcoin_hash,
}

pub length-reverse : (bs : Bytes) → length (reverse bs) ≡ length bs
length-reverse [] = refl
length-reverse (b ∷ bs) =
    rw (reverse-cons b bs) (omega (arith, length-append (reverse bs) (b ∷ []), length-reverse bs))

pub reverse-bytes : (bs : Bytes) → All IsByte bs → All IsByte (reverse bs)
reverse-bytes [] h = tt
reverse-bytes (b ∷ bs) (hb, hbs) =
    rw (reverse-cons b bs) (All-append IsByte (reverse bs) (b ∷ []) (reverse-bytes bs hbs) (hb, tt))

-- A hash of 32 bytes reads back from its text.
pub parse_hash-hash_string : (h : Hash) → IsHash h → parse_hash (hash_string h) ≡ ok h
unfolding parse_hash hash_string
parse_hash-hash_string h (len, bytes) = rw (decode_hex-encode_hex h bytes) (ground arith)

-- A mainchain hash of 32 bytes reads back from its reversed text.
pub parse_bitcoin_hash-bitcoin_string :
    (h : Hash) → IsHash h → parse_bitcoin_hash (bitcoin_string h) ≡ ok h
unfolding parse_bitcoin_hash bitcoin_string
parse_bitcoin_hash-bitcoin_string h (len, bytes) =
    rw (decode_hex-encode_hex (reverse h) (reverse-bytes h bytes))
      (ground (arith, length-reverse h, reverse-reverse h))

from_hex_digit-lt : (c n : ℕ) → from_hex_digit c ≡ some n → n < 16
unfolding from_hex_digit
from_hex_digit-lt c n e = ground arith

-- What decodes is bytes, half as many as there were characters.
decode_hex-shape :
    (s bs : Bytes) → decode_hex s ≡ some bs → All IsByte bs × (length s ≡ 2 * length bs)
unfolding decode_hex
decode_hex-shape [] bs e = ground arith
decode_hex-shape (c ∷ []) bs e = cc
decode_hex-shape (c ∷ d ∷ cs) bs e = elim (Option-cases (from_hex_digit c)) [
  | inl h ↦ ground arith
  | inr (hi, eh) ↦ elim (Option-cases (from_hex_digit d)) [
    | inl h ↦ ground arith
    | inr (lo, el) ↦ elim (Option-cases (decode_hex cs)) [
      | inl h ↦ ground arith
      | inr (rest, er) ↦
          ground (
            arith,
            from_hex_digit-lt c hi eh,
            from_hex_digit-lt d lo el,
            decode_hex-shape cs rest er,
          )
    ]
  ]
]

-- ParseHash accepts 64 characters alone, and what it returns is 32 bytes.
pub parse_hash-IsHash : (s : Bytes) (h : Hash) → parse_hash s ≡ ok h → IsHash h × (length s ≡ 64)
unfolding parse_hash
parse_hash-IsHash s h e = elim (Option-cases (decode_hex s)) [
  | inl bad ↦ ground arith
  | inr (raw, er) ↦ ground (arith, decode_hex-shape s raw er)
]

-- The two texts of one hash name each other's reversal.
pub bitcoin_string-reverse : (h : Hash) → bitcoin_string (reverse h) ≡ hash_string h
unfolding bitcoin_string hash_string
bitcoin_string-reverse h = ap encode_hex (reverse-reverse h)

-- A mainchain hash parses to 32 bytes.
pub parse_bitcoin_hash-IsHash : (s : Bytes) (h : Hash) → parse_bitcoin_hash s ≡ ok h → IsHash h
unfolding parse_bitcoin_hash
parse_bitcoin_hash-IsHash s h e = elim (Option-cases (decode_hex s)) [
  | inl bad ↦ ground arith
  | inr (raw, er) ↦ ground (
    arith,
    decode_hex-shape s raw er,
    length-reverse raw,
    reverse-bytes raw (decode_hex-shape s raw er).0,
  )
]
