-- ===== src/Base/Lists.antt =====
-- Lists measured and cut by native numbers, under the library's names, and the list forms of the
-- SQL clauses: a filter, a test over all rows, a sum.
use Prim.Native.Nat.{ℕ, zero, suc, ◌+◌, ◌≤◌, min}
use mathlib.Core.Path.{◌≡◌, refl, ap}
use mathlib.Core.Bool.{Bool, true, false, ◌||◌, not}
use mathlib.Core.List.{List, [], ◌∷◌, ◌++◌, map}
use mathlib.Core.Option.{Option, none, some}
use native.Mathlib.Omega.{arith}
use drivechain_esplora.Base.Tests.{if◌then◌else◌, Bool-cases}
use mathlib.Core.Logic.{inl, inr}

module _ {ℓ} {A : Type ℓ} where
  abbrev pub length : List A → ℕ
  length [] = 0
  length (x ∷ xs) = suc (length xs)

  abbrev pub get_elem? : List A → ℕ → Option A
  get_elem? [] i = none
  get_elem? (x ∷ xs) zero = some x
  get_elem? (x ∷ xs) (suc i) = get_elem? xs i

  abbrev pub take : ℕ → List A → List A
  take zero xs = []
  take (suc n) [] = []
  take (suc n) (x ∷ xs) = x ∷ take n xs

  abbrev pub drop : ℕ → List A → List A
  drop zero xs = xs
  drop (suc n) [] = []
  drop (suc n) (x ∷ xs) = drop n xs

  abbrev pub replicate : ℕ → A → List A
  replicate zero a = []
  replicate (suc n) a = a ∷ replicate n a

  -- The rows that a WHERE clause keeps.
  abbrev pub keep : (A → Bool) → List A → List A
  keep p [] = []
  keep p (x ∷ xs) = if p x then x ∷ keep p xs else keep p xs

  -- DELETE … WHERE p.
  abbrev pub discard : (A → Bool) → List A → List A
  discard p = keep (λ x. not (p x))

  abbrev pub any : (A → Bool) → List A → Bool
  any p [] = false
  any p (x ∷ xs) = p x || any p xs

  abbrev pub find? : (A → Bool) → List A → Option A
  find? p [] = none
  find? p (x ∷ xs) = if p x then some x else find? p xs

  abbrev pub count_if : (A → Bool) → List A → ℕ
  count_if p xs = length (keep p xs)

  abbrev pub sum_by : (A → ℕ) → List A → ℕ
  sum_by f [] = 0
  sum_by f (x ∷ xs) = f x + sum_by f xs

  abbrev pub All {κ} : (A → Type κ) → List A → Type κ
  All P [] = Unit {κ}
  All P (x ∷ xs) = P x × All P xs

module _ {ℓ} {A : Type ℓ} where
  pub length-append : (xs ys : List A) → length (xs ++ ys) ≡ length xs + length ys
  length-append [] ys = omega arith
  length-append (x ∷ xs) ys = omega (arith, length-append xs ys)

  pub keep-append : (p : A → Bool) (xs ys : List A) → keep p (xs ++ ys) ≡ keep p xs ++ keep p ys
  keep-append p [] ys = refl
  keep-append p (x ∷ xs) ys = ground (arith, keep-append p xs ys)

  pub any-append : (p : A → Bool) (xs ys : List A) → any p (xs ++ ys) ≡ (any p xs || any p ys)
  any-append p [] ys = refl
  any-append p (x ∷ xs) ys = ground (arith, any-append p xs ys)

  -- A filter that every row passes, and one that no row passes.
  pub keep_every : (p : A → Bool) (xs : List A) → All (λ x. p x ≡ true) xs → keep p xs ≡ xs
  keep_every p [] h = refl
  keep_every p (x ∷ xs) h = ground (arith, keep_every p xs h.1)

  pub keep_none : (p : A → Bool) (xs : List A) → All (λ x. p x ≡ false) xs → keep p xs ≡ []
  keep_none p [] h = refl
  keep_none p (x ∷ xs) h = ground (arith, keep_none p xs h.1)

  pub length-keep : (p : A → Bool) (xs : List A) → length (keep p xs) ≤ length xs
  length-keep p [] = omega arith
  length-keep p (x ∷ xs) = ground (arith, length-keep p xs)

  pub length-take : (n : ℕ) (xs : List A) → length (take n xs) ≡ min n (length xs)
  length-take zero xs = omega arith
  length-take (suc n) [] = omega arith
  length-take (suc n) (x ∷ xs) = omega (arith, length-take n xs)

  pub take-append : (xs ys : List A) → take (length xs) (xs ++ ys) ≡ xs
  take-append [] ys = refl
  take-append (x ∷ xs) ys = ap (λ t. x ∷ t) (take-append xs ys)

  pub drop-append : (xs ys : List A) → drop (length xs) (xs ++ ys) ≡ ys
  drop-append [] ys = refl
  drop-append (x ∷ xs) ys = drop-append xs ys

  pub All-append {κ} : (P : A → Type κ) (xs ys : List A) → All P xs → All P ys → All P (xs ++ ys)
  All-append P [] ys hx hy = hy
  All-append P (x ∷ xs) ys hx hy = (hx.0, All-append P xs ys hx.1 hy)

  pub All-keep {κ} : (P : A → Type κ) (p : A → Bool) (xs : List A) → All P xs → All P (keep p xs)
  All-keep P p [] h = tt
  All-keep P p (x ∷ xs) h = ground (arith, All-keep P p xs h.1)

  pub All-mono {κ μ} :
      (P : A → Type κ) (Q : A → Type μ)
      → ((x : A) → P x → Q x)
      → (xs : List A) → All P xs
      → All Q xs
  All-mono P Q f [] h = tt
  All-mono P Q f (x ∷ xs) h = (f x h.0, All-mono P Q f xs h.1)

  pub sum_by-append : (f : A → ℕ) (xs ys : List A) → sum_by f (xs ++ ys) ≡ sum_by f xs + sum_by f ys
  sum_by-append f [] ys = omega arith
  sum_by-append f (x ∷ xs) ys = omega (arith, sum_by-append f xs ys)

module _ {ℓ κ} {A : Type ℓ} {B : Type κ} where
  pub length-map : (xs : List A) (f : A → B) → length (map f xs) ≡ length xs
  length-map [] f = refl
  length-map (x ∷ xs) f = ap suc (length-map xs f)

  -- A loop `for i, x := range xs` that appends `f i x`, from index `i` on.
  abbrev pub map_from : (ℕ → A → B) → ℕ → List A → List B
  map_from f i [] = []
  map_from f i (x ∷ xs) = f i x ∷ map_from f (i + 1) xs

  pub length-map_from : (f : ℕ → A → B) (i : ℕ) (xs : List A) → length (map_from f i xs) ≡ length xs
  length-map_from f i [] = refl
  length-map_from f i (x ∷ xs) = ap suc (length-map_from f (i + 1) xs)

-- A row that a filter keeps is found behind the filter, and a row behind it was there before.
module _ {ℓ} {A : Type ℓ} (p q : A → Bool) (apart : (x : A) → p x ≡ true → q x ≡ false) where
  pub find?-discard : (xs : List A) → find? p (discard q xs) ≡ find? p xs
  find?-discard [] = refl
  find?-discard (x ∷ xs) = ground (arith, find?-discard xs, apart x)

  pub any-discard : (xs : List A) → any p (discard q xs) ≡ any p xs
  any-discard [] = refl
  any-discard (x ∷ xs) = ground (arith, any-discard xs, apart x)

module _ {ℓ} {A : Type ℓ} (p q : A → Bool) where
  -- A row of a list is kept or discarded.
  pub any-keep :
      (xs : List A) → any p xs ≡ true → any p (keep q xs) ≡ false → any p (discard q xs) ≡ true
  any-keep [] e f = e
  any-keep (x ∷ xs) e f = ground (arith, any-keep xs)

module _ {ℓ} {A : Type ℓ} (q : A → Bool) where
  pub All-discard : (xs : List A) → All (λ x. q x ≡ false) (discard q xs)
  All-discard [] = tt
  All-discard (x ∷ xs) = ground (arith, All-discard xs)

module _ {ℓ} {A : Type ℓ} (p : A → Bool) where
  pub any-find? : (xs : List A) → any p xs ≡ true → (x : A) × (find? p xs ≡ some x)
  any-find? [] e = absurd (ground arith)
  any-find? (x ∷ xs) e = elim (Bool-cases (p x)) [
    | inl hit ↦ (x, ground arith)
    | inr miss ↦ let (y, f) = any-find? xs (ground arith) in (y, ground (arith, f))
  ]

  pub find?-any : (xs : List A) (x : A) → find? p xs ≡ some x → any p xs ≡ true
  find?-any [] x e = absurd (ground arith)
  find?-any (y ∷ xs) x e = ground (arith, find?-any xs x)

  pub find?-holds : (xs : List A) (x : A) → find? p xs ≡ some x → p x ≡ true
  find?-holds [] x e = absurd (ground arith)
  find?-holds (y ∷ xs) x e = ground (arith, find?-holds xs x)

module _ {ℓ} {A : Type ℓ} where
  pub All-zip {κ μ} :
      (P : A → Type κ) (Q : A → Type μ) (xs : List A)
      → All P xs
      → All Q xs
      → All (λ x. P x × Q x) xs
  All-zip P Q [] ps qs = tt
  All-zip P Q (x ∷ xs) (p, ps) (q, qs) = ((p, q), All-zip P Q xs ps qs)

  pub All-take {κ} : (P : A → Type κ) (n : ℕ) (xs : List A) → All P xs → All P (take n xs)
  All-take P zero xs ps = tt
  All-take P (suc n) [] ps = tt
  All-take P (suc n) (x ∷ xs) (p, ps) = (p, All-take P n xs ps)

  -- The rows that a filter keeps pass it, and it keeps what a sharper test finds.
  pub All-kept : (q : A → Bool) (xs : List A) → All (λ x. q x ≡ true) (keep q xs)
  All-kept q [] = tt
  All-kept q (x ∷ xs) = ground (arith, All-kept q xs)

  pub any-kept :
      (p q : A → Bool) (xs : List A)
      → ((x : A) → p x ≡ true → q x ≡ true)
      → any p xs ≡ true
      → any p (keep q xs) ≡ true
  any-kept p q [] h e = e
  any-kept p q (x ∷ xs) h e = ground (arith, h x, any-kept p q xs h)

  pub any-keep-false : (p q : A → Bool) (xs : List A) → any p xs ≡ false → any p (keep q xs) ≡ false
  any-keep-false p q [] e = e
  any-keep-false p q (x ∷ xs) e = ground (arith, any-keep-false p q xs)

module _ {ℓ κ} {A : Type ℓ} {B : Type κ} where
  pub map-take : (f : A → B) (n : ℕ) (xs : List A) → map f (take n xs) ≡ take n (map f xs)
  map-take f zero xs = refl
  map-take f (suc n) [] = refl
  map-take f (suc n) (x ∷ xs) = ap (λ l. f x ∷ l) (map-take f n xs)

  pub map_from-map : (f : A → B) (i : ℕ) (xs : List A) → map_from (λ _ x. f x) i xs ≡ map f xs
  map_from-map f i [] = refl
  map_from-map f i (x ∷ xs) = ap (λ l. f x ∷ l) (map_from-map f (i + 1) xs)

-- UNION, and COUNT of distinct values: each value once, where it first stands.
module _ {ℓ} {A : Type ℓ} where
  abbrev pub distinct : (A → A → Bool) → List A → List A
  distinct eq [] = []
  distinct eq (x ∷ xs) = x ∷ discard (eq x) (distinct eq xs)

module _ {κ} {B : Type κ} where
  abbrev pub cons_some : Option B → List B → List B
  cons_some none ys = ys
  cons_some (some y) ys = y ∷ ys

module _ {ℓ κ} {A : Type ℓ} {B : Type κ} where
  -- A loop that appends what `f` finds, and skips an element without.
  abbrev pub filter_map : (A → Option B) → List A → List B
  filter_map f [] = []
  filter_map f (x ∷ xs) = cons_some (f x) (filter_map f xs)

  pub filter_map-some :
      (f : A → Option B) (x : A) (y : B) (xs : List A)
      → f x ≡ some y
      → filter_map f (x ∷ xs) ≡ y ∷ filter_map f xs
  filter_map-some f x y xs e = ap (λ o. cons_some o (filter_map f xs)) e
