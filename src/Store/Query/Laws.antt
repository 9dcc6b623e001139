-- ===== src/Store/Query/Laws.antt =====
-- A chain of queries, call by call.
use drivechain_esplora.Base.{ℕ, ◌+◌, ◌≡◌, refl, ap, ◌∙◌, some, Error, Result, ok, err}
use drivechain_esplora.Store.Tables.{Db}
use drivechain_esplora.Store.Query.{Q, ◌>>=◌, query}

module _ {A B : Type 0} (m : Q A) (f : A → Q B) where
  abbrev rest_of : Result A × ℕ → Result B × ℕ
  rest_of (ok a, k) = f a k
  rest_of (err e, k) = (err e, k)

  bind-rest_of : (n : ℕ) → (m >>= f) n ≡ rest_of (m n)
  bind-rest_of n = go (m n)
    where
      go :
          (x : Result A × ℕ)
          → (let (r, k) = x in elim r [ ok a ↦ f a k | err e ↦ (err e, k) ]) ≡ rest_of x
      go (ok a, k) = refl
      go (err e, k) = refl

  pub >>=-ok : (n k : ℕ) (a : A) → m n ≡ (ok a, k) → (m >>= f) n ≡ f a k
  >>=-ok n k a e = bind-rest_of n ∙ ap rest_of e

  pub >>=-err : (n k : ℕ) (x : Error) → m n ≡ (err x, k) → (m >>= f) n ≡ (err x, k)
  >>=-err n k x e = bind-rest_of n ∙ ap rest_of e

-- A query of tables that do not change.
pub query-still :
    {A : Type 0} (d : Db) (f : Db → Result A) (r : Result A) (n : ℕ)
    → f d ≡ r
    → query (λ _. some d) f n ≡ (r, n + 1)
query-still d f r n e = ap (λ r. (r, n + 1)) e
