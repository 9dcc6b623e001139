-- ===== src/Chain/Text/Laws.antt =====
-- The text helpers of internal/chain, there and back: hex, decimal and u32.
use drivechain_esplora.Base.{
  ℕ, zero, suc, ◌+◌, ◌-◌, ◌*◌, ◌/◌, ◌%◌, ◌^◌, ◌<◌, ◌≡◌, refl, ◌∙◌, none, some, [], ◌∷◌, ◌++◌, Bytes,
  ◌==◌, length, All, arith, ◌≢◌, Bool-cases, inl, inr,
}
use native.Mathlib.Nat.{pow-suc}
use drivechain_esplora.Chain.Text.{
  IsByte, IsU32, put_u32, get_u32, hex_digit, from_hex_digit, encode_hex, decode_hex, digits,
  decimal, scan_uint, parse_uint32, cut_colon,
}

pub get_u32-put_u32 : (v : ℕ) (rest : Bytes) → IsU32 v → get_u32 (put_u32 v ++ rest) ≡ v
unfolding get_u32 put_u32
get_u32-put_u32 v rest h = omega arith

pub length-put_u32 : (v : ℕ) → length (put_u32 v) ≡ 4
unfolding put_u32
length-put_u32 v = refl

pub put_u32-bytes : (v : ℕ) → All IsByte (put_u32 v)
unfolding put_u32
put_u32-bytes v = omega arith

pub put_u32-get_u32 :
    (a b c d : ℕ) (rest : Bytes)
    → a < 256
    → b < 256
    → c < 256
    → d < 256
    → put_u32 (get_u32 (a ∷ b ∷ c ∷ d ∷ rest)) ≡ a ∷ b ∷ c ∷ d ∷ []
unfolding get_u32 put_u32
put_u32-get_u32 a b c d rest ha hb hc hd = ground arith

from_hex_digit-hex_digit : (n : ℕ) → n < 16 → from_hex_digit (hex_digit n) ≡ some n
unfolding from_hex_digit hex_digit
from_hex_digit-hex_digit n h = ground arith

pub decode_hex-encode_hex : (bs : Bytes) → All IsByte bs → decode_hex (encode_hex bs) ≡ some bs
unfolding decode_hex encode_hex
decode_hex-encode_hex [] h = refl
decode_hex-encode_hex (b ∷ bs) h = ground (
  arith,
  from_hex_digit-hex_digit (b / 16),
  from_hex_digit-hex_digit (b % 16),
  decode_hex-encode_hex bs h.1,
)

pub length-encode_hex : (bs : Bytes) → length (encode_hex bs) ≡ 2 * length bs
unfolding encode_hex
length-encode_hex [] = refl
length-encode_hex (b ∷ bs) = omega (arith, length-encode_hex bs)

append_ne_nil : (xs : Bytes) (x : ℕ) → xs ++ (x ∷ []) ≢ []
append_ne_nil [] x e = cc
append_ne_nil (y ∷ xs) x e = cc

pow_div : (f n : ℕ) → n < 10 ^ suc (suc f) → n / 10 < 10 ^ suc f
pow_div f n h = omega (arith, pow-suc 10 (suc f))

-- The characters that lowercase hex consists of.
abbrev pub IsHexChar : ℕ → Type 0
IsHexChar c = (n : ℕ) × (n < 16) × (c ≡ hex_digit n)

pub encode_hex-chars : (bs : Bytes) → All IsByte bs → All IsHexChar (encode_hex bs)
unfolding encode_hex
encode_hex-chars [] h = tt
encode_hex-chars (b ∷ bs) (hb, hbs) =
    ((b / 16, omega arith, refl), ((b % 16, omega arith, refl), encode_hex-chars bs hbs))

-- Hex holds no colon, so the cut falls behind it.
pub cut_colon-hex :
    (s rest : Bytes) → All IsHexChar s → cut_colon (s ++ (b':' ∷ rest)) ≡ some (s, rest)
unfolding cut_colon hex_digit
cut_colon-hex [] rest h = refl
cut_colon-hex (c ∷ s) rest ((n, lt, e), hs) = ground (arith, cut_colon-hex s rest hs)

-- A text that holds no colon is not cut.
pub cut_colon-none : (s : Bytes) → All (λ c. c ≢ b':') s → cut_colon s ≡ none
unfolding cut_colon
cut_colon-none [] h = refl
cut_colon-none (c ∷ s) (ne, hs) = ground (arith, cut_colon-none s hs)

scan_uint-append :
    (xs ys : Bytes) (acc n : ℕ)
    → scan_uint xs acc ≡ some n
    → scan_uint (xs ++ ys) acc ≡ scan_uint ys n
unfolding scan_uint
scan_uint-append [] ys acc n e = ground arith
scan_uint-append (c ∷ xs) ys acc n e =
    ground (arith, scan_uint-append xs ys (acc * 10 + (c - b'0')) n)

scan_uint-last :
    (q r : ℕ) → r < 10 → q * 10 + r < 2 ^ 32 → scan_uint ((b'0' + r) ∷ []) q ≡ some (q * 10 + r)
unfolding scan_uint
scan_uint-last q r hr h = ground arith

scan_uint-digits : (f n : ℕ) → n < 10 ^ f → IsU32 n → 0 < f → scan_uint (digits f n) 0 ≡ some n
unfolding digits
scan_uint-digits zero n h u p = absurd (omega arith)
scan_uint-digits (suc zero) n h u p = ground (arith, scan_uint-last 0 (n % 10))
scan_uint-digits (suc (suc f)) n h u p = elim (Bool-cases (n / 10 == 0)) [
  | inl small ↦ rw small (ground (arith, scan_uint-last 0 (n % 10)))
  | inr big ↦ rw big (
      scan_uint-append (digits (suc f) (n / 10)) ((b'0' + n % 10) ∷ []) 0 (n / 10)
        (scan_uint-digits (suc f) (n / 10) (pow_div f n h) (omega arith) (omega arith))
      ∙ ground (arith, scan_uint-last (n / 10) (n % 10)))
]

digits-ne-nil : (f n : ℕ) → 0 < f → digits f n ≢ []
unfolding digits
digits-ne-nil zero n p = absurd (omega arith)
digits-ne-nil (suc f) n p = ground (arith, append_ne_nil (digits f (n / 10)) (b'0' + n % 10))

parse_uint32-scan : (s : Bytes) → s ≢ [] → parse_uint32 s ≡ scan_uint s 0
unfolding parse_uint32
parse_uint32-scan [] h = absurd (h refl)
parse_uint32-scan (c ∷ s) h = refl

-- ParseUint reads back what `%d` wrote of a u32.
pub parse_uint32-decimal : (n : ℕ) → IsU32 n → parse_uint32 (decimal n) ≡ some n
unfolding decimal
parse_uint32-decimal n h =
    parse_uint32-scan (digits 10 n) (digits-ne-nil 10 n (omega arith))
    ∙ scan_uint-digits 10 n (omega arith) h (omega arith)

-- A parsed number is a u32.
scan_uint-lt : (s : Bytes) (acc n : ℕ) → IsU32 acc → scan_uint s acc ≡ some n → IsU32 n
unfolding scan_uint
scan_uint-lt [] acc n h e = ground arith
scan_uint-lt (c ∷ s) acc n h e = ground (arith, scan_uint-lt s (acc * 10 + (c - b'0')) n)

pub parse_uint32-lt : (s : Bytes) (n : ℕ) → parse_uint32 s ≡ some n → IsU32 n
unfolding parse_uint32
parse_uint32-lt [] n e = cc
parse_uint32-lt (c ∷ s) n e = scan_uint-lt (c ∷ s) 0 n (omega arith) e
