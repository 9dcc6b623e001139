-- ===== src/Api/Server.antt =====
-- What the routes of internal/api share: the constants of server.go, and store, startHeight, blockByHash,
-- txid and addressKey. A request sees whether stores.Get has a connection, and what each of its queries
-- finds.
use Prim.Native.String.{String}
use drivechain_esplora.Base.{
  ℕ, ◌+◌, ◌*◌, ◌-◌, ◌^◌, Bool, ◌||◌, Option, none, some, [], ◌∷◌, Bytes, ltb, leb, ◌==◌,
  if◌then◌else◌, length, ok,
}
use drivechain_esplora.Chain.Text.{decode_hex, parse_uint32}
use drivechain_esplora.Chain.Hash.{Hash, parse_hash, parse_address}
use drivechain_esplora.Store.Tables.{Db}
use drivechain_esplora.Store.State.{tip}
use drivechain_esplora.Store.Read.{column_address, column_script_hash}
use drivechain_esplora.Store.Tx.{BlockRow, block_by_hash}
use drivechain_esplora.Store.Query.{query}
use drivechain_esplora.Api.Reply.{
  H, ◌>>=◌, ◌>>◌, answer, deny, run, checked, failed, not_found_status, bad_request, internal_error,
  service_unavailable,
}

-- PageSize
abbrev pub page_size : ℕ
page_size = 25

abbrev pub block_list_size : ℕ
block_list_size = 10

abbrev pub recent_list_size : ℕ
recent_list_size = 10

abbrev pub activity_list_size : ℕ
activity_list_size = 25

-- depositListSize of address.go
abbrev pub deposit_list_size : ℕ
deposit_list_size = 50

abbrev pub height_of_tip : Option (ℕ × Hash) → ℕ
height_of_tip none = 0
height_of_tip (some (height, _)) = height

-- strconv.Atoi on a 64-bit int, and the test for a negative number: the digits, in order.
unfoldable pub scan_digits : Bytes → ℕ → Option ℕ
scan_digits [] acc = some acc
scan_digits (c ∷ cs) acc =
    let rest = scan_digits cs (acc * 10 + (c - b'0')) in
    if ltb c b'0' || ltb b'9' c then none else rest

abbrev all_digits : Bytes → Option ℕ
all_digits [] = none
all_digits (c ∷ cs) = scan_digits (c ∷ cs) 0

abbrev at_most : ℕ → Option ℕ → Option ℕ
at_most bound none = none
at_most bound (some n) = if leb n bound then some n else none

unfoldable pub parse_index : Bytes → Option ℕ
unfolding scan_digits
parse_index [] = none
parse_index (c ∷ cs) =
    if c == b'+'
    then at_most (2 ^ 63 - 1) (all_digits cs)
    else if c == b'-'
    then at_most 0 (all_digits cs)
    else at_most (2 ^ 63 - 1) (all_digits (c ∷ cs))

-- What one request finds: whether stores.Get answers a connection, and the tables query by query.
pub record Request : Type 0 where
  pub connected : Bool
  pub views : ℕ → Option Db

-- The column and the key that addressKey reads.
pub record Key : Type 0 where
  pub column : String
  pub key : Bytes

module _ (q : Request) where
  -- store
  unfoldable pub get_store : H (Unit {0})
  get_store = if q.connected then answer tt else deny service_unavailable

  -- startHeight; an empty path value falls back to the tip. The error of a height that does not parse
  -- reaches failed like any other.
  unfoldable pub start_height : Bytes → H ℕ
  unfolding failed
  start_height [] = do t ← run failed (query q.views (λ d. ok (tip d))); answer (height_of_tip t)
  start_height (c ∷ cs) = elim (parse_uint32 (c ∷ cs)) [
    | none ↦ deny internal_error
    | some h ↦ answer h
  ]

  -- blockByHash
  unfoldable pub find_block : Bytes → H BlockRow
  unfolding get_store not_found_status
  find_block raw = do
    get_store
    hash ← checked (parse_hash raw)
    run not_found_status (query q.views (block_by_hash hash))

  -- txid
  unfoldable pub find_txid : Bytes → H Hash
  unfolding get_store
  find_txid raw = do get_store; checked (parse_hash raw)

  abbrev script_hash_key : Option Bytes → H Key
  script_hash_key none = deny bad_request
  script_hash_key (some key) =
      if length key == 32
      then answer (record { column = column_script_hash; key = key })
      else deny bad_request

  abbrev address_only : Bytes → H Key
  address_only address = answer (record { column = column_address; key = address })

  -- addressKey; `script` says that the path starts with /scripthash/, and base58 is outside the program.
  unfoldable pub address_key : (Bytes → Option Bytes) → Bool → Bytes → H Key
  unfolding get_store
  address_key decode58 script raw =
      get_store
      >> (if script
          then script_hash_key (decode_hex raw)
          else checked (parse_address decode58 raw) >>= address_only)
