-- ===== src/Base/Elements.antt =====
-- Lemmas on the element at an index, that the modules of the whole library share.
use Prim.Native.Nat.{ℕ, zero, suc, ◌≤◌, ◌<◌}
use mathlib.Core.Path.{◌≡◌, refl}
use mathlib.Core.List.{List, [], ◌∷◌}
use mathlib.Core.Option.{none, some}
use native.Mathlib.Omega.{arith}
use drivechain_esplora.Base.Lists.{length, get_elem?}

module _ {ℓ} {A : Type ℓ} where
  pub get_elem?-lt : (xs : List A) (k : ℕ) → k < length xs → (x : A) × (get_elem? xs k ≡ some x)
  get_elem?-lt [] k lt = absurd (omega (arith, lt))
  get_elem?-lt (x ∷ xs) zero lt = (x, refl)
  get_elem?-lt (x ∷ xs) (suc k) lt = get_elem?-lt xs k (omega (arith, lt))

  pub get_elem?-le : (xs : List A) (k : ℕ) → length xs ≤ k → get_elem? xs k ≡ none
  get_elem?-le [] k le = refl
  get_elem?-le (x ∷ xs) zero le = absurd (omega (arith, le))
  get_elem?-le (x ∷ xs) (suc k) le = get_elem?-le xs k (omega (arith, le))
