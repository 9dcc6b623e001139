-- ===== src/Tests/Chain.antt =====
-- Hashes, outpoints, headers, signatures and values at concrete data.
use drivechain_esplora.Base.{
  ℕ, zero, suc, ◌+◌, ◌-◌, ◌<◌, ◌^◌, ◌≡◌, ◌⊎◌, refl, true, Option, none, some, [], ◌∷◌, ◌++◌, Bytes,
  replicate, length, All, ok, err, ◌>>=◌, arith, overflow, out_of_range,
}
use drivechain_esplora.Chain.Text.{IsByte, decimal, encode_hex}
use drivechain_esplora.Chain.Hash.{
  Hash, IsHash, hash_string, bitcoin_string, parse_hash, parse_bitcoin_hash,
}
use drivechain_esplora.Chain.Hash.Laws.{
  parse_hash-hash_string, parse_bitcoin_hash-bitcoin_string, parse_hash-IsHash,
}
use drivechain_esplora.Chain.OutPoint.{
  OutPoint, IsOutPoint, deposit, key, out_point_from_key, market_funds_out_point, market_fields,
  parse_bitcoin_out_point, to_wire, from_wire,
}
use drivechain_esplora.Chain.OutPoint.Key.{key-injective, out_point_from_key-key}
use drivechain_esplora.Chain.OutPoint.Market.{market_fields-market_funds_out_point}
use drivechain_esplora.Chain.OutPoint.Wire.{parse_bitcoin_out_point-text, from_wire-to_wire}
use drivechain_esplora.Chain.ByteText.{unmarshal_byte_string, unmarshal_bytes, of_numbers}
use drivechain_esplora.Chain.ByteText.Laws.{Quotes, ReadsBack, unmarshal_byte_string-marshal}
use drivechain_esplora.Chain.Block.{Header, Body, Transaction, Input, Authorization}
use drivechain_esplora.Chain.Block.Encoding.{IsHeader, coinbase_encoding-injective}
use drivechain_esplora.Chain.Block.Signatures.{dealt, dealt_all}
use drivechain_esplora.Chain.Content.{
  Withdrawal, Json, withdrawal_value, decode_plain, decode_coinshift, decode_bitassets,
  decode_bitnames, decode_truthcoin,
}
use drivechain_esplora.Chain.Content.Values.{
  Fits, withdrawal_value_exact, withdrawal_value_refused, decoders-Fits,
}

replicate-IsByte : (n b : ℕ) → b < 256 → All IsByte (replicate n b)
replicate-IsByte zero b h = tt
replicate-IsByte (suc n) b h = (h, replicate-IsByte n b h)

abbrev hash_of : ℕ → Hash
hash_of b = replicate 32 b

hash_of-IsHash : (b : ℕ) → b < 256 → IsHash (hash_of b)
hash_of-IsHash b h = (refl, replicate-IsByte 32 b h)

abbrev pub coin : OutPoint
coin = record { kind = deposit; source = hash_of 171; vout = 70000 }

pub coin-IsOutPoint : IsOutPoint coin
coin-IsOutPoint = record {
  known = omega arith;
  hashed = hash_of-IsHash 171 (omega arith);
  bounded = omega arith;
}

-- encoding/json, asked for a hex string: the text between the quotes is the text.
abbrev pub plain_text : Bytes → Option Bytes
plain_text s = some s

key-injective_example : coin ≡ coin
key-injective_example = key-injective coin coin coin-IsOutPoint coin-IsOutPoint refl

key_reads : out_point_from_key (key coin) ≡ ok coin
key_reads = out_point_from_key-key coin coin-IsOutPoint

deposit_text_reads :
    parse_bitcoin_out_point plain_text (bitcoin_string (hash_of 171) ++ (b':' ∷ decimal 70000))
    ≡ ok coin
deposit_text_reads =
    parse_bitcoin_out_point-text plain_text (λ s h. refl) (hash_of 171) 70000
      (hash_of-IsHash 171 (omega arith)) (omega arith)

from_wire-to_wire_example : (to_wire coin >>= from_wire plain_text) ≡ ok coin
from_wire-to_wire_example =
    from_wire-to_wire plain_text (λ s h. refl) coin coin-IsOutPoint (λ e. absurd (omega (arith, e)))

market_unpacks :
    market_fields (market_funds_out_point (replicate 6 9) 800000 true)
    ≡ (replicate 6 9, 800000, true)
market_unpacks = market_fields-market_funds_out_point (replicate 6 9) 800000 true refl (omega arith)

hash_reads : parse_hash (hash_string (hash_of 200)) ≡ ok (hash_of 200)
hash_reads = parse_hash-hash_string (hash_of 200) (hash_of-IsHash 200 (omega arith))

main_hash_reads : parse_bitcoin_hash (bitcoin_string (hash_of 200)) ≡ ok (hash_of 200)
main_hash_reads = parse_bitcoin_hash-bitcoin_string (hash_of 200) (hash_of-IsHash 200 (omega arith))

parse_hash-IsHash_example : IsHash (hash_of 200) × (length (hash_string (hash_of 200)) ≡ 64)
parse_hash-IsHash_example =
    parse_hash-IsHash (hash_string (hash_of 200)) (hash_of 200)
      (parse_hash-hash_string (hash_of 200) (hash_of-IsHash 200 (omega arith)))

abbrev head : Header
head = record {
  merkle_root = hash_of 1;
  prev_side_hash = some (hash_of 2);
  prev_main_hash = hash_of 3;
}

head-IsHeader : IsHeader head
head-IsHeader = record {
  root = hash_of-IsHash 1 (omega arith);
  main = hash_of-IsHash 3 (omega arith);
  side = hash_of-IsHash 2 (omega arith);
}

coinbase_encoding-injective_example : head ≡ head
coinbase_encoding-injective_example =
    coinbase_encoding-injective head head head-IsHeader head-IsHeader refl

abbrev signature : ℕ → Authorization
signature n = record {
  verifying_key = record { bytes = n ∷ []; text = [] };
  signature = record { bytes = (n + 1) ∷ []; text = [] };
}

abbrev spend_two : Transaction
spend_two =
    let input : Input = record { out_point = coin; leaf_hash = [] } in
    record { inputs = input ∷ input ∷ []; outputs = [] }

abbrev signed_body : Body
signed_body = record {
  coinbase = record { memo = []; outputs = []; keyed_by_txid = true };
  transactions = spend_two ∷ spend_two ∷ [];
  authorizations = signature 1 ∷ signature 2 ∷ signature 3 ∷ signature 4 ∷ signature 5 ∷ [];
}

dealt_all_example :
    dealt signed_body 2 ≡ ok (signature 1 ∷ signature 2 ∷ signature 3 ∷ signature 4 ∷ [])
dealt_all_example = dealt_all signed_body (omega arith)

abbrev small_withdrawal : Withdrawal
small_withdrawal = record { value = 900; main_fee = 100; value_sats = 0; main_fee_sats = 0 }

withdrawal_value_exact_example :
    withdrawal_value small_withdrawal ≡ ok (record { value_sats = 1000; kind = "withdrawal" })
withdrawal_value_exact_example =
    withdrawal_value_exact small_withdrawal
      (record {
        value = omega arith;
        main_fee = omega arith;
        value_sats = omega arith;
        main_fee_sats = omega arith;
      })
      (omega arith)

abbrev large_withdrawal : Withdrawal
large_withdrawal = record { value = 2 ^ 64 - 1; main_fee = 100; value_sats = 0; main_fee_sats = 0 }

withdrawal_value_refused_example :
    (withdrawal_value large_withdrawal ≡ err overflow)
    ⊎ (withdrawal_value large_withdrawal ≡ err out_of_range)
withdrawal_value_refused_example =
    withdrawal_value_refused large_withdrawal
      (record {
        value = omega arith;
        main_fee = omega arith;
        value_sats = omega arith;
        main_fee_sats = omega arith;
      })
      (omega arith)

-- Payloads that are bare numbers of satoshis.
abbrev numbers : Json
numbers = record {
  Raw = ℕ;
  as_text = λ n. none;
  as_object = λ n. some (("Bitcoin", n) ∷ []);
  as_u64 = λ n. some n;
  as_withdrawal = λ n. none;
  as_market_funds = λ n. none;
  as_plain = λ n. some (record { value = some n; withdrawal = none });
  as_swap = λ n. some (record { value = some n; withdrawal = none; swap = none });
}

decoders-Fits_example :
    Fits (decode_plain numbers 5000)
    × Fits (decode_coinshift numbers 5000)
    × Fits (decode_bitassets numbers 5000)
    × Fits (decode_bitnames numbers 5000)
    × Fits (decode_truthcoin numbers 5000)
decoders-Fits_example = decoders-Fits numbers 5000

-- A JSON of plain texts, and of one array.
abbrev pub write_text : Bytes → Bytes
write_text s = b'"' ∷ s

abbrev pub read_quoted : Bytes → Option Bytes
read_quoted [] = none
read_quoted (c ∷ s) = some s

abbrev pub read_array : Bytes → Option Bytes
read_array json = some (171 ∷ 205 ∷ [])

pub quotes : (s : Bytes) → Quotes read_quoted read_array write_text s
quotes s = (s, refl, refl)

array_read :
    unmarshal_byte_string read_quoted read_array (b'[' ∷ []) ≡ ok (of_numbers (171 ∷ 205 ∷ []))
unfolding unmarshal_byte_string unmarshal_bytes
array_read = refl

array-bytes : (json raw : Bytes) → read_array json ≡ some raw → All IsByte raw
array-bytes json raw e = ground arith

unmarshal_byte_string-marshal_example :
    ReadsBack read_quoted read_array write_text (of_numbers (171 ∷ 205 ∷ []))
unmarshal_byte_string-marshal_example =
    unmarshal_byte_string-marshal read_quoted read_array write_text (λ json s e. quotes s)
      array-bytes (λ bs h. quotes (encode_hex bs)) (b'[' ∷ []) (of_numbers (171 ∷ 205 ∷ []))
      array_read
