-- ===== src/Base/Outcome.antt =====
-- Go's `(value, error)` results, with one constructor for each error the modelled code can return.
use mathlib.Core.Path.{◌≡◌, refl}
use mathlib.Core.Logic.{◌⊎◌, inl, inr}
use mathlib.Core.Bool.{Bool, true, false}
use mathlib.Core.Option.{Option, none, some}
use native.Mathlib.Omega.{arith}

pub data Error : Type 0 where
  -- what the node, the database or the enforcer answers
  empty_chain node_failed unavailable cancelled query_failed unique_violation out_of_range
        not_found :
      Error
  -- what the chain package refuses
  bad_hex bad_length bad_json no_vout bad_vout unknown_kind unknown_variant : Error
  no_coinbase_source bad_index short_authorizations overflow no_amount bad_address : Error
  unknown_network unknown_chain no_decoder duplicate_decoder : Error
  -- what the store and the index refuse
  bad_column no_database bad_log_level other_chain count_mismatch not_a_deposit no_header : Error

pub data Result {ℓ} (A : Type ℓ) : Type ℓ where
  err : Error → Result A
  ok : A → Result A

-- An early `return err` when the test passes.
abbrev pub fail_if : Bool → Error → Result (Unit {0})
fail_if true e = err e
fail_if false e = ok tt

abbrev pub or_fail {ℓ} : {A : Type ℓ} → Option A → Error → Result A
or_fail none e = err e
or_fail (some a) e = ok a

-- `if err != nil { return err }` between a call and what follows it.
infixl 5 ◌>>=◌
abbrev pub ◌>>=◌ {ℓ μ} : {X : Type ℓ} {Y : Type μ} → Result X → (X → Result Y) → Result Y
err e >>= next = err e
ok x >>= next = next x

infixl 5 ◌>>◌
abbrev pub ◌>>◌ {ℓ} : {Y : Type ℓ} → Result (Unit {0}) → Result Y → Result Y
first >> rest = first >>= λ _. rest

pub Result-cases {ℓ} :
    {A : Type ℓ} (r : Result A) → ((a : A) × (r ≡ ok a)) ⊎ ((e : Error) × (r ≡ err e))
Result-cases (ok a) = inl (a, refl)
Result-cases (err e) = inr (e, refl)

-- A chain of calls that succeeds has a first call that succeeded.
pub >>=-eq-ok {ℓ μ} :
    {X : Type ℓ} {Y : Type μ} (m : Result X) (next : X → Result Y) {y : Y}
    → (m >>= next) ≡ ok y
    → (x : X) × (m ≡ ok x) × (next x ≡ ok y)
>>=-eq-ok (err e) next h = cc
>>=-eq-ok (ok x) next h = (x, refl, h)

pub ok-injective {ℓ} : {A : Type ℓ} {a b : A} → ok a ≡ ok b → a ≡ b
ok-injective e = cc

pub fail_if-eq-ok {ℓ} :
    {A : Type ℓ} (b : Bool) (e : Error) (k : Result A) {a : A}
    → (fail_if b e >> k) ≡ ok a
    → (b ≡ false) × (k ≡ ok a)
fail_if-eq-ok true e k h = absurd (ground arith)
fail_if-eq-ok false e k h = (refl, h)
