-- ===== src/Base/Loops.antt =====
-- A Go loop that appends one row for each element and returns at the first error.
use Prim.Native.Nat.{ℕ, ◌+◌}
use mathlib.Core.Path.{◌≡◌, refl, ap₂, subst}
use mathlib.Core.List.{List, [], ◌∷◌, map}
use native.Mathlib.Omega.{arith}
use drivechain_esplora.Base.Lists.{map_from, All}
use drivechain_esplora.Base.Outcome.{Result, ok, ◌>>=◌, >>=-eq-ok, ok-injective}

module _ {A B : Type 0} where
  -- `for i, x := range xs`, from index `i` on.
  unfoldable pub traverse_from : (ℕ → A → Result B) → ℕ → List A → Result (List B)
  traverse_from f i [] = ok []
  traverse_from f i (x ∷ xs) = do y ← f i x; ys ← traverse_from f (i + 1) xs; ok (y ∷ ys)

  -- Each element of the result came from its place in the input.
  abbrev pub Rows : (ℕ → A → Result B) → ℕ → List A → List B → Type 0
  Rows f i [] [] = Unit
  Rows f i [] (y ∷ ys) = ⊥
  Rows f i (x ∷ xs) [] = ⊥
  Rows f i (x ∷ xs) (y ∷ ys) = (f i x ≡ ok y) × Rows f (i + 1) xs ys

  pub traverse_from-Rows :
      (f : ℕ → A → Result B) (i : ℕ) (xs : List A) (ys : List B)
      → traverse_from f i xs ≡ ok ys
      → Rows f i xs ys
  unfolding traverse_from
  traverse_from-Rows f i [] [] e = tt
  traverse_from-Rows f i [] (y ∷ ys) e = ground arith
  traverse_from-Rows f i (x ∷ xs) ys e =
      let (y, ey, e₁) = >>=-eq-ok (f i x) _ e in
      let (zs, ez, e₂) = >>=-eq-ok (traverse_from f (i + 1) xs) _ e₁ in
      rows ys (ok-injective e₂) ey (traverse_from-Rows f (i + 1) xs zs ez)
    where
      rows :
          {y : B} {zs : List B} (ys : List B)
          → y ∷ zs ≡ ys
          → f i x ≡ ok y
          → Rows f (i + 1) xs zs
          → Rows f i (x ∷ xs) ys
      rows ys e ey r = subst (Rows f i (x ∷ xs)) e (ey, r)

  -- A field that `f` sets from the index and the element is set so in every row.
  pub map-Rows {ℓ} :
      {C : Type ℓ} (field : B → C) (f : ℕ → A → Result B) (g : ℕ → A → C)
      → ((i : ℕ) (x : A) (y : B) → f i x ≡ ok y → field y ≡ g i x)
      → (i : ℕ) (xs : List A) (ys : List B) → Rows f i xs ys
      → map field ys ≡ map_from g i xs
  map-Rows field f g h i [] [] r = refl
  map-Rows field f g h i [] (y ∷ ys) r = absurd r
  map-Rows field f g h i (x ∷ xs) [] r = absurd r
  map-Rows field f g h i (x ∷ xs) (y ∷ ys) (e, r) =
      ap₂ (λ a l. a ∷ l) (h i x y e) (map-Rows field f g h (i + 1) xs ys r)

  -- A property of the elements passes to the rows that they made.
  pub All-Rows :
      (P : A → Type 0) (Q : B → Type 0) (f : ℕ → A → Result B)
      → ((i : ℕ) (x : A) (y : B) → f i x ≡ ok y → P x → Q y)
      → (i : ℕ) (xs : List A) (ys : List B) → Rows f i xs ys
      → All P xs
      → All Q ys
  All-Rows P Q f h i [] [] r ps = tt
  All-Rows P Q f h i [] (y ∷ ys) r ps = absurd r
  All-Rows P Q f h i (x ∷ xs) [] r ps = absurd r
  All-Rows P Q f h i (x ∷ xs) (y ∷ ys) (e, r) (p, ps) =
      (h i x y e p, All-Rows P Q f h (i + 1) xs ys r ps)
