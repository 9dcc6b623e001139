-- ===== src/Chain/Hash.antt =====
-- internal/chain/hash.go: hashes, mainchain hashes and addresses. A Go `[32]byte` is a byte string of
-- length 32. base58 is the package github.com/mr-tron/base58, so its two functions are parameters.
use mathlib.Core.List.{reverse}
use drivechain_esplora.Base.{
  ℕ, ◌≡◌, Bool, not, Option, none, some, Bytes, ◌==◌, length, All, Result, ok, err, ◌>>=◌, ◌>>◌,
  fail_if, or_fail, bad_hex, bad_length, bad_address,
}
use drivechain_esplora.Chain.Text.{IsByte, encode_hex, decode_hex}
pub mod Laws

abbrev pub Hash : Type 0
Hash = Bytes

abbrev pub IsHash : Hash → Type 0
IsHash h = (length h ≡ 32) × All IsByte h

-- Hash.String
unfoldable pub hash_string : Hash → Bytes
hash_string h = encode_hex h

-- Hash.parse and ParseHash
unfoldable pub parse_hash : Bytes → Result Hash
parse_hash s = do
  raw ← or_fail (decode_hex s) bad_hex
  fail_if (not (length raw == 32)) bad_length
  ok raw

-- BitcoinHash.String: `flipped[31-i] = b` over the 32 bytes.
unfoldable pub bitcoin_string : Hash → Bytes
bitcoin_string h = encode_hex (reverse h)

-- BitcoinHash.UnmarshalJSON behind its string.
unfoldable pub parse_bitcoin_hash : Bytes → Result Hash
parse_bitcoin_hash s = do
  raw ← or_fail (decode_hex s) bad_hex
  fail_if (not (length raw == 32)) bad_length
  ok (reverse raw)

module _ (decode58 : Bytes → Option Bytes) where
  -- ParseAddress
  unfoldable pub parse_address : Bytes → Result Bytes
  parse_address s = do
    raw ← or_fail (decode58 s) bad_address
    fail_if (not (length raw == 20)) bad_length
    ok raw
