-- ===== src/Chain/Content.antt =====
-- The output payload decoders: internal/chain/{thunder,photon,zside,coinshift,bitassets,bitnames,
-- truthcoin}, and chain.Variant. encoding/json is an interface: what it makes of a payload at each
-- Go type that the decoders name. A u64 is a number below 2 ^ 64.
use Prim.Native.String.{String}
use text.Mathlib.Text.{◌==◌ as str_eq}
use drivechain_esplora.Base.{
  ℕ, ◌+◌, ◌-◌, ◌%◌, ◌^◌, ◌<◌, ◌≡◌, Bool, true, false, ◌||◌, Option, none, some, List, [], ◌∷◌, max,
  ltb, if◌then◌else◌, Result, ok, err, ◌>>=◌, ◌>>◌, fail_if, or_fail, bad_json, unknown_variant,
  overflow, out_of_range, no_amount,
}
use drivechain_esplora.Store.Tables.{max_int64}
pub mod Values

-- chain.Content
pub record Content : Type 0 where
  pub value_sats : ℕ
  pub kind : String

-- The amounts of a withdrawal, in both spellings. An absent field reads as zero.
pub record Withdrawal : Type 0 where
  pub value : ℕ
  pub main_fee : ℕ
  pub value_sats : ℕ
  pub main_fee_sats : ℕ

-- coinshift's SwapPending
pub record Swap : Type 0 where
  pub value : ℕ
  pub value_sats : ℕ

-- truthcoin's marketFunds
pub record MarketFunds : Type 0 where
  pub amount : Option ℕ
  pub is_fee : Bool

-- The `content` struct of thunder, photon and zside, and with a swap that of coinshift.
pub record PlainContent : Type 0 where
  pub value : Option ℕ
  pub withdrawal : Option Withdrawal

pub record SwapContent : Type 0 where
  pub value : Option ℕ
  pub withdrawal : Option Withdrawal
  pub swap : Option Swap

-- toSats
unfoldable pub to_sats : ℕ → Result ℕ
to_sats v = do fail_if (ltb max_int64 v) out_of_range; ok v

-- withdrawalValue: the sum is taken in uint64, and a sum below its first part has wrapped.
unfoldable pub withdrawal_value : Withdrawal → Result Content
unfolding to_sats
withdrawal_value w =
    let value = max w.value w.value_sats in
    let main_fee = max w.main_fee w.main_fee_sats in
    let total = (value + main_fee) % 2 ^ 64 in
    do
      fail_if (ltb total value) overflow
      sats ← to_sats total
      ok (record { value_sats = sats; kind = "withdrawal" })

unfoldable pub plain_value : ℕ → String → Result Content
unfolding to_sats
plain_value v kind = do sats ← to_sats v; ok (record { value_sats = sats; kind = kind })

abbrev pub plain_cases : Option ℕ → Option Withdrawal → Result Content
plain_cases (some v) w = plain_value v "value"
plain_cases none (some w) = withdrawal_value w
plain_cases none none = err unknown_variant

abbrev pub swap_cases : Option ℕ → Option Swap → Option Withdrawal → Result Content
swap_cases (some v) s w = plain_value v "value"
swap_cases none (some s) w = plain_value (max s.value s.value_sats) "swap_pending"
swap_cases none none (some w) = withdrawal_value w
swap_cases none none none = err unknown_variant

unfoldable pub market_funds_value : MarketFunds → Result Content
unfolding plain_value
market_funds_value m = do
  amount ← or_fail m.amount no_amount
  plain_value amount (if m.is_fee then "market_author_fee" else "market_treasury")

-- What json.Unmarshal makes of a text at each type; `none` is its error.
pub record Json : Type 1 where
  pub Raw : Type 0
  pub as_text : Raw → Option String
  pub as_object : Raw → Option (List (String × Raw))
  pub as_u64 : Raw → Option ℕ
  pub as_withdrawal : Raw → Option Withdrawal
  pub as_market_funds : Raw → Option MarketFunds
  pub as_plain : Raw → Option PlainContent
  pub as_swap : Raw → Option SwapContent

module _ (J : Json) where
  open J use {Raw, as_text, as_object, as_u64, as_withdrawal, as_market_funds, as_plain, as_swap}

  abbrev one_variant : Option (List (String × Raw)) → Result (String × Option Raw)
  one_variant none = err bad_json
  one_variant (some []) = err unknown_variant
  one_variant (some ((tag, payload) ∷ [])) = ok (tag, some payload)
  one_variant (some (a ∷ b ∷ r)) = err unknown_variant

  abbrev variant_of : Option String → Option (List (String × Raw)) → Result (String × Option Raw)
  variant_of (some tag) o = ok (tag, none)
  variant_of none o = one_variant o

  -- Variant: the tag, and no payload for a bare string.
  unfoldable pub variant : Raw → Result (String × Option Raw)
  variant raw = variant_of (as_text raw) (as_object raw)

  -- json.Unmarshal of a payload that may be absent: no text is an error.
  abbrev pub payload_as : {A : Type 0} → (Raw → Option A) → Option Raw → Result A
  payload_as read none = err bad_json
  payload_as read (some raw) = or_fail (read raw) bad_json

  abbrev pub empty_value : String → Result Content
  empty_value kind = ok (record { value_sats = 0; kind = kind })

  -- DecodeContent of thunder, photon and zside.
  unfoldable pub decode_plain : Raw → Result Content
  unfolding plain_value withdrawal_value
  decode_plain raw = do c ← or_fail (as_plain raw) bad_json; plain_cases c.value c.withdrawal

  -- Three packages carry this decoder, each in a copy of its own.
  abbrev pub decode_thunder : Raw → Result Content
  decode_thunder = decode_plain

  abbrev pub decode_photon : Raw → Result Content
  decode_photon = decode_plain

  abbrev pub decode_zside : Raw → Result Content
  decode_zside = decode_plain

  -- DecodeContent of coinshift.
  unfoldable pub decode_coinshift : Raw → Result Content
  unfolding plain_value withdrawal_value
  decode_coinshift raw = do
    c ← or_fail (as_swap raw) bad_json
    swap_cases c.value c.swap c.withdrawal

  abbrev pub sats_of : Option Raw → Result Content
  sats_of payload = do v ← payload_as as_u64 payload; plain_value v "value"

  abbrev pub withdrawn : Option Raw → Result Content
  withdrawn payload = do w ← payload_as as_withdrawal payload; withdrawal_value w

  abbrev pub bitassets_cases : String → Option Raw → Result Content
  bitassets_cases tag payload =
      if str_eq tag "BitcoinSats"
      then sats_of payload
      else if str_eq tag "Withdrawal" || str_eq tag "BitcoinWithdrawal"
      then withdrawn payload
      else if str_eq tag "BitAsset"
      then empty_value "bitasset"
      else if str_eq tag "BitAssetControl"
      then empty_value "bitasset_control"
      else if str_eq tag "BitAssetReservation"
      then empty_value "bitasset_reservation"
      else if str_eq tag "DutchAuctionReceipt"
      then empty_value "dutch_auction_receipt"
      else err unknown_variant

  -- DecodeContent of bitassets.
  unfoldable pub decode_bitassets : Raw → Result Content
  unfolding variant plain_value withdrawal_value
  decode_bitassets raw = do (tag, payload) ← variant raw; bitassets_cases tag payload

  abbrev pub bitnames_cases : String → Option Raw → Result Content
  bitnames_cases tag payload =
      if str_eq tag "BitcoinSats"
      then sats_of payload
      else if str_eq tag "Withdrawal" || str_eq tag "BitcoinWithdrawal"
      then withdrawn payload
      else if str_eq tag "BitName"
      then empty_value "bitname"
      else if str_eq tag "BitNameReservation"
      then empty_value "bitname_reservation"
      else err unknown_variant

  -- DecodeContent of bitnames.
  unfoldable pub decode_bitnames : Raw → Result Content
  unfolding variant plain_value withdrawal_value
  decode_bitnames raw = do (tag, payload) ← variant raw; bitnames_cases tag payload

  abbrev pub market_of : Option Raw → Result Content
  market_of payload = do m ← payload_as as_market_funds payload; market_funds_value m

  abbrev pub truthcoin_cases : String → Option Raw → Result Content
  truthcoin_cases tag payload =
      if str_eq tag "Value"
      then sats_of payload
      else if str_eq tag "Withdrawal"
      then withdrawn payload
      else if str_eq tag "MarketFunds"
      then market_of payload
      else err unknown_variant

  -- DecodeContent of truthcoin.
  unfoldable pub decode_truthcoin : Raw → Result Content
  unfolding variant plain_value withdrawal_value market_funds_value
  decode_truthcoin raw = do (tag, payload) ← variant raw; truthcoin_cases tag payload
