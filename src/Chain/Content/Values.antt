-- ===== src/Chain/Content/Values.antt =====
-- The amounts that the decoders of internal/chain return.
use Prim.Native.String.{String}
use drivechain_esplora.Base.{
  ℕ, ◌+◌, Bool, true, false, if◌then◌else◌, or_fail, bad_json, no_amount, Error, ◌≤◌, ◌<◌, ◌^◌, ◌≡◌,
  refl, ◌⊎◌, Bool-cases, inl, inr, Option, none, some, max, ltb, Result, ok, err, ◌>>=◌, overflow,
  out_of_range, arith,
}
use drivechain_esplora.Store.Tables.{max_int64}
use drivechain_esplora.Chain.Content.{
  Content, Withdrawal, Swap, MarketFunds, Json, to_sats, withdrawal_value, plain_value,
  market_funds_value, variant, plain_cases, swap_cases, sats_of, withdrawn, market_of,
  bitassets_cases, bitnames_cases, truthcoin_cases, payload_as, decode_plain, decode_coinshift,
  decode_bitassets, decode_bitnames, decode_truthcoin,
}

pub record IsWithdrawal (w : Withdrawal) : Type 0 where
  pub value : w.value < 2 ^ 64
  pub main_fee : w.main_fee < 2 ^ 64
  pub value_sats : w.value_sats < 2 ^ 64
  pub main_fee_sats : w.main_fee_sats < 2 ^ 64

-- What leaves the sidechain: the payout and the mainchain fee, each in the spelling that is set.
abbrev pub removed : Withdrawal → ℕ
removed w = max w.value w.value_sats + max w.main_fee w.main_fee_sats

-- A withdrawal of u64 amounts is worth its payout plus its fee, with no wrap, if that fits an
-- int64.
pub withdrawal_value_exact :
    (w : Withdrawal)
    → IsWithdrawal w
    → removed w ≤ max_int64
    → withdrawal_value w ≡ ok (record { value_sats = removed w; kind = "withdrawal" })
unfolding withdrawal_value to_sats
withdrawal_value_exact w v h = ground arith

-- A withdrawal of u64 amounts whose payout and fee together are over the largest int64 is refused.
pub withdrawal_value_refused :
    (w : Withdrawal)
    → IsWithdrawal w
    → max_int64 < removed w
    → (withdrawal_value w ≡ err overflow) ⊎ (withdrawal_value w ≡ err out_of_range)
unfolding withdrawal_value to_sats
withdrawal_value_refused w v h = ground arith

abbrev Bound : Result Content → Type 0
Bound (ok c) = c.value_sats ≤ max_int64
Bound (err e) = Unit

-- A decoded value fits the int64 it is stored as.
pub record Fits (r : Result Content) : Type 0 where
  pub bound : Bound r

Fits-err : (e : Error) → Fits (err e)
Fits-err e = record { bound = tt }

Fits-ok : (c : Content) → c.value_sats ≤ max_int64 → Fits (ok c)
Fits-ok c h = record { bound = h }

Fits->>= :
    {A : Type 0} (m : Result A) (f : A → Result Content) → ((a : A) → Fits (f a)) → Fits (m >>= f)
Fits->>= (ok a) f h = h a
Fits->>= (err e) f h = Fits-err e

Fits-if : (b : Bool) (x y : Result Content) → Fits x → Fits y → Fits (if b then x else y)
Fits-if true x y hx hy = hx
Fits-if false x y hx hy = hy

plain_value-Fits : (v : ℕ) (kind : String) → Fits (plain_value v kind)
unfolding plain_value to_sats
plain_value-Fits v kind = elim (Bool-cases (ltb max_int64 v)) [
  | inl over ↦ rw over (Fits-err out_of_range)
  | inr fits ↦ rw fits (Fits-ok _ (ground arith))
]

withdrawal_value-Fits : (w : Withdrawal) → Fits (withdrawal_value w)
unfolding withdrawal_value to_sats
withdrawal_value-Fits w = record { bound = bounded _ (λ c e. ground arith) }
  where
    bounded : (r : Result Content) → ((c : Content) → r ≡ ok c → c.value_sats ≤ max_int64) → Bound r
    bounded (ok c) f = f c refl
    bounded (err e) f = tt

market_funds_value-Fits : (m : MarketFunds) → Fits (market_funds_value m)
unfolding market_funds_value
market_funds_value-Fits m = Fits->>= (or_fail m.amount no_amount) _ (λ a. plain_value-Fits a _)

plain_cases-Fits : (v : Option ℕ) (w : Option Withdrawal) → Fits (plain_cases v w)
plain_cases-Fits (some v) w = plain_value-Fits v _
plain_cases-Fits none (some w) = withdrawal_value-Fits w
plain_cases-Fits none none = Fits-err _

swap_cases-Fits : (v : Option ℕ) (s : Option Swap) (w : Option Withdrawal) → Fits (swap_cases v s w)
swap_cases-Fits (some v) s w = plain_value-Fits v _
swap_cases-Fits none (some s) w = plain_value-Fits (max s.value s.value_sats) _
swap_cases-Fits none none (some w) = withdrawal_value-Fits w
swap_cases-Fits none none none = Fits-err _

Fits-zero : (kind : String) → Fits (ok (record { value_sats = 0; kind = kind }))
Fits-zero kind = Fits-ok _ (omega arith)

module _ (J : Json) where
  open J use {Raw, as_u64, as_withdrawal, as_market_funds, as_plain, as_swap}

  sats_of-Fits : (p : Option Raw) → Fits (sats_of J p)
  sats_of-Fits p = Fits->>= (payload_as J as_u64 p) _ (λ v. plain_value-Fits v _)

  withdrawn-Fits : (p : Option Raw) → Fits (withdrawn J p)
  withdrawn-Fits p = Fits->>= (payload_as J as_withdrawal p) _ withdrawal_value-Fits

  market_of-Fits : (p : Option Raw) → Fits (market_of J p)
  market_of-Fits p = Fits->>= (payload_as J as_market_funds p) _ market_funds_value-Fits

  bitassets_cases-Fits : (tag : String) (p : Option Raw) → Fits (bitassets_cases J tag p)
  bitassets_cases-Fits tag p =
      search (Fits-if, Fits-zero, Fits-err, sats_of-Fits, withdrawn-Fits) depth 9

  bitnames_cases-Fits : (tag : String) (p : Option Raw) → Fits (bitnames_cases J tag p)
  bitnames_cases-Fits tag p =
      search (Fits-if, Fits-zero, Fits-err, sats_of-Fits, withdrawn-Fits) depth 9

  truthcoin_cases-Fits : (tag : String) (p : Option Raw) → Fits (truthcoin_cases J tag p)
  truthcoin_cases-Fits tag p =
      search (Fits-if, Fits-err, sats_of-Fits, withdrawn-Fits, market_of-Fits) depth 9

  -- Whatever the node sends, no decoder of the seven chains returns a value over the largest int64.
  pub decoders-Fits :
      (raw : Raw)
      → Fits (decode_plain J raw)
        × Fits (decode_coinshift J raw)
        × Fits (decode_bitassets J raw)
        × Fits (decode_bitnames J raw)
        × Fits (decode_truthcoin J raw)
  unfolding decode_plain decode_coinshift decode_bitassets decode_bitnames decode_truthcoin
  decoders-Fits raw = (
    Fits->>= (or_fail (as_plain raw) bad_json) _ (λ c. plain_cases-Fits c.value c.withdrawal),
    Fits->>= (or_fail (as_swap raw) bad_json) _ (λ c. swap_cases-Fits c.value c.swap c.withdrawal),
    Fits->>= (variant J raw) _ (λ v. bitassets_cases-Fits v.0 v.1),
    Fits->>= (variant J raw) _ (λ v. bitnames_cases-Fits v.0 v.1),
    Fits->>= (variant J raw) _ (λ v. truthcoin_cases-Fits v.0 v.1),
  )
