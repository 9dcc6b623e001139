-- ===== src/Base/Sort.antt =====
-- ORDER BY as a stable insertion sort.
use Prim.Native.Nat.{ℕ, ◌+◌}
use mathlib.Core.Path.{◌≡◌, refl}
use mathlib.Core.Logic.{inl, inr}
use native.Mathlib.Omega.{arith}
use mathlib.Core.Bool.{Bool, ◌||◌}
use mathlib.Core.List.{List, [], ◌∷◌}
use drivechain_esplora.Base.Tests.{if◌then◌else◌, Bool-cases}
use drivechain_esplora.Base.Lists.{All, any, sum_by}

module _ {A : Type 0} (before : A → A → Bool) where
  unfoldable pub insert_by : A → List A → List A
  insert_by x [] = x ∷ []
  insert_by x (y ∷ ys) = if before y x then y ∷ insert_by x ys else x ∷ (y ∷ ys)

  unfoldable pub sort_by : List A → List A
  unfolding insert_by
  sort_by [] = []
  sort_by (x ∷ xs) = insert_by x (sort_by xs)

-- A sort keeps what stands in the list.
module _ {A : Type 0} (before : A → A → Bool) where
  pub All-insert_by :
      (P : A → Type 0) (x : A) (ys : List A) → P x → All P ys → All P (insert_by before x ys)
  unfolding insert_by
  All-insert_by P x [] px ps = (px, tt)
  All-insert_by P x (y ∷ ys) px (py, ps) = elim (Bool-cases (before y x)) [
    | inl e ↦ rw e (py, All-insert_by P x ys px ps)
    | inr e ↦ rw e (px, (py, ps))
  ]

  pub All-sort_by : (P : A → Type 0) (xs : List A) → All P xs → All P (sort_by before xs)
  unfolding sort_by
  All-sort_by P [] ps = tt
  All-sort_by P (x ∷ xs) (px, ps) = All-insert_by P x (sort_by before xs) px (All-sort_by P xs ps)

  pub any-insert_by :
      (p : A → Bool) (x : A) (ys : List A) → any p (insert_by before x ys) ≡ (p x || any p ys)
  unfolding insert_by
  any-insert_by p x [] = refl
  any-insert_by p x (y ∷ ys) = elim (Bool-cases (before y x)) [
    | inl e ↦ rw (e, any-insert_by p x ys) (ground arith)
    | inr e ↦ rw e refl
  ]

  pub any-sort_by : (p : A → Bool) (xs : List A) → any p (sort_by before xs) ≡ any p xs
  unfolding sort_by
  any-sort_by p [] = refl
  any-sort_by p (x ∷ xs) = rw (any-insert_by p x (sort_by before xs), any-sort_by p xs) refl

  pub sum_by-insert_by :
      (f : A → ℕ) (x : A) (ys : List A) → sum_by f (insert_by before x ys) ≡ f x + sum_by f ys
  unfolding insert_by
  sum_by-insert_by f x [] = refl
  sum_by-insert_by f x (y ∷ ys) = elim (Bool-cases (before y x)) [
    | inl e ↦ rw (e, sum_by-insert_by f x ys) (omega arith)
    | inr e ↦ rw e refl
  ]

  pub sum_by-sort_by : (f : A → ℕ) (xs : List A) → sum_by f (sort_by before xs) ≡ sum_by f xs
  unfolding sort_by
  sum_by-sort_by f [] = refl
  sum_by-sort_by f (x ∷ xs) =
      rw (sum_by-insert_by f x (sort_by before xs), sum_by-sort_by f xs) refl
