-- ===== src/Chain/Text.antt =====
-- The texts of internal/chain: lowercase hex (encoding/hex), decimal (`%d`, strconv.ParseUint with
-- 32 bits), strings.Cut at a colon, and the little-endian u32 of encoding/binary.
pub mod Laws
use drivechain_esplora.Base.{
  ℕ, zero, suc, ◌+◌, ◌-◌, ◌*◌, ◌/◌, ◌%◌, ◌^◌, ◌<◌, Bool, true, false, ◌&&◌, ◌||◌, Option, none,
  some, List, [], ◌∷◌, ◌++◌, Bytes, ltb, leb, ◌==◌, if◌then◌else◌, length, All,
}

abbrev pub IsByte : ℕ → Type 0
IsByte b = b < 256

abbrev pub IsU32 : ℕ → Type 0
IsU32 v = v < 2 ^ 32

-- binary.LittleEndian.PutUint32
unfoldable pub put_u32 : ℕ → Bytes
put_u32 v = v % 256 ∷ (v / 2 ^ 8 % 256 ∷ (v / 2 ^ 16 % 256 ∷ (v / 2 ^ 24 % 256 ∷ [])))

-- binary.LittleEndian.Uint32, which reads the first four bytes. Go panics on a shorter slice; the
-- callers read fixed arrays, so that case never arises.
unfoldable pub get_u32 : Bytes → ℕ
get_u32 (a ∷ b ∷ c ∷ d ∷ _) = a + b * 2 ^ 8 + c * 2 ^ 16 + d * 2 ^ 24
get_u32 _ = 0

-- One digit of hex.EncodeToString.
unfoldable pub hex_digit : ℕ → ℕ
hex_digit n = if ltb n 10 then b'0' + n else b'a' + (n - 10)

-- hex.DecodeString takes both cases.
unfoldable pub from_hex_digit : ℕ → Option ℕ
from_hex_digit c =
    if leb b'0' c && leb c b'9'
    then some (c - b'0')
    else if leb b'a' c && leb c b'f'
    then some (c - b'a' + 10)
    else if leb b'A' c && leb c b'F'
    then some (c - b'A' + 10)
    else none

unfoldable pub encode_hex : Bytes → Bytes
unfolding hex_digit
encode_hex [] = []
encode_hex (b ∷ bs) = hex_digit (b / 16) ∷ (hex_digit (b % 16) ∷ encode_hex bs)

abbrev pair_hex : Option ℕ → Option ℕ → Option Bytes → Option Bytes
pair_hex (some hi) (some lo) (some bs) = some ((hi * 16 + lo) ∷ bs)
pair_hex (some hi) (some lo) none = none
pair_hex (some hi) none rest = none
pair_hex none lo rest = none

-- A bad digit and an odd length are errors.
unfoldable pub decode_hex : Bytes → Option Bytes
unfolding from_hex_digit
decode_hex [] = some []
decode_hex (c ∷ []) = none
decode_hex (c ∷ d ∷ cs) = pair_hex (from_hex_digit c) (from_hex_digit d) (decode_hex cs)

-- `%d` of a number below 10 ^ fuel, highest digit first.
unfoldable pub digits : ℕ → ℕ → Bytes
digits zero n = []
digits (suc fuel) n =
    let more = digits fuel (n / 10) in
    let last : Bytes = (b'0' + n % 10) ∷ [] in if n / 10 == 0 then last else more ++ last

-- A u32 has at most ten digits.
unfoldable pub decimal : ℕ → Bytes
unfolding digits
decimal n = digits 10 n

-- The loop of strconv.ParseUint(s, 10, 32): a letter is a syntax error, and a value over the
-- largest u32 is a range error.
unfoldable pub scan_uint : Bytes → ℕ → Option ℕ
scan_uint [] acc = some acc
scan_uint (c ∷ cs) acc =
    let next = acc * 10 + (c - b'0') in
    let rest = scan_uint cs next in
    if ltb c b'0' || ltb b'9' c then none else if leb (2 ^ 32) next then none else rest

-- The empty text is a syntax error.
unfoldable pub parse_uint32 : Bytes → Option ℕ
unfolding scan_uint
parse_uint32 [] = none
parse_uint32 (c ∷ cs) = scan_uint (c ∷ cs) 0

abbrev push_front : ℕ → Option (Bytes × Bytes) → Option (Bytes × Bytes)
push_front c none = none
push_front c (some (front, back)) = some (c ∷ front, back)

-- strings.Cut(text, ":"), with none for "not found".
unfoldable pub cut_colon : Bytes → Option (Bytes × Bytes)
cut_colon [] = none
cut_colon (c ∷ cs) = if c == b':' then some ([], cs) else push_front c (cut_colon cs)
