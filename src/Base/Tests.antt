-- ===== src/Base/Tests.antt =====
-- Boolean tests on the native numbers and on byte strings, and the conditional.
use Prim.Native.Nat.{ℕ, ◌<◌, compare, Ordering}
use mathlib.Core.Path.{◌≡◌, refl}
use mathlib.Core.Logic.{◌⊎◌, inl, inr, ◌↔◌, ite, dite}
use mathlib.Core.Bool.{Bool, true, false}
use mathlib.Core.Option.{Option, none, some}
use mathlib.Core.List.{List, [], ◌∷◌}
use native.Mathlib.Decide.{ℕ_discrete}
use native.Mathlib.Omega.{arith}

abbrev pub ltb : ℕ → ℕ → Bool
ltb a b = elim (compare a b) [ Ordering.lt ↦ true | _ ↦ false ]

abbrev pub leb : ℕ → ℕ → Bool
leb a b = elim (compare a b) [ Ordering.gt ↦ false | _ ↦ true ]

infix 50 ◌==◌
abbrev pub ◌==◌ : ℕ → ℕ → Bool
a == b = elim (compare a b) [ Ordering.eq ↦ true | _ ↦ false ]

infix 1 if◌then◌else◌
abbrev pub if◌then◌else◌ {ℓ} : {A : Type ℓ} → Bool → A → A → A
if true then x else y = x
if false then x else y = y

-- A Go byte slice or byte array: every element is meant to be below 256.
abbrev pub Bytes : Type 0
Bytes = List ℕ

cons_ne_nil : (x : ℕ) (xs : Bytes) → ¬ ((x ∷ xs) ≡ [])
cons_ne_nil x xs e = cc

nil_ne_cons : (x : ℕ) (xs : Bytes) → ¬ ([] ≡ (x ∷ xs))
nil_ne_cons x xs e = cc

cons_eq : (x y : ℕ) (xs ys : Bytes) → x ≡ y → xs ≡ ys → (x ∷ xs) ≡ (y ∷ ys)
cons_eq x y xs ys p q = cc

cons_ne_head : (x y : ℕ) (xs ys : Bytes) → ¬ (x ≡ y) → ¬ ((x ∷ xs) ≡ (y ∷ ys))
cons_ne_head x y xs ys n e = ground arith

cons_ne_tail : (x y : ℕ) (xs ys : Bytes) → ¬ (xs ≡ ys) → ¬ ((x ∷ xs) ≡ (y ∷ ys))
cons_ne_tail x y xs ys n e = ground arith

-- Byte strings are equal or not, as Go's `==` on arrays and Postgres' `=` on BYTEA decide.
unfoldable pub bytes_dec : Discrete Bytes
unfolding ℕ_discrete nil_ne_cons cons_ne_nil cons_eq cons_ne_tail cons_ne_head
bytes_dec [] [] = yes refl
bytes_dec [] (y ∷ ys) = no (nil_ne_cons y ys)
bytes_dec (x ∷ xs) [] = no (cons_ne_nil x xs)
bytes_dec (x ∷ xs) (y ∷ ys) =
    dite (ℕ_discrete x y)
      (λ p.
        dite (bytes_dec xs ys) (λ q. yes (cons_eq x y xs ys p q))
          (λ n. no (cons_ne_tail x y xs ys n)))
      (λ n. no (cons_ne_head x y xs ys n))

abbrev pub same : Bytes → Bytes → Bool
same a b = ite (bytes_dec a b) true false

pub same_self : (a : Bytes) → same a a ≡ true
same_self a = ground arith

pub same→eq : (a b : Bytes) → same a b ≡ true → a ≡ b
same→eq a b h = ground arith

pub ne→same : (a b : Bytes) → ¬ (a ≡ b) → same a b ≡ false
ne→same a b h = ground arith

pub ltb→lt : (a b : ℕ) → ltb a b ≡ true → a < b
ltb→lt a b h = ground arith

pub lt→ltb : (a b : ℕ) → a < b → ltb a b ≡ true
lt→ltb a b h = ground arith

pub ==_iff : (a b : ℕ) → ((a == b) ≡ true) ↔ (a ≡ b)
==_iff a b = ground arith

-- To split on a computed value and keep the equation.
pub Bool-cases : (b : Bool) → (b ≡ true) ⊎ (b ≡ false)
Bool-cases true = inl refl
Bool-cases false = inr refl

pub Option-cases {ℓ} : {A : Type ℓ} (o : Option A) → (o ≡ none) ⊎ ((a : A) × (o ≡ some a))
Option-cases none = inl refl
Option-cases (some a) = inr (a, refl)
