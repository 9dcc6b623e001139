-- ===== src/Api/Reply/Laws.antt =====
-- Handlers of internal/api that have answered: what each of their calls answered.
use drivechain_esplora.Base.{
  ℕ, ◌+◌, ◌≡◌, refl, sym, ap, ◌∙◌, Option, none, some, Error, Result, ok, err, arith,
}
use drivechain_esplora.Store.Tables.{Db}
use drivechain_esplora.Store.Query.{on_view, query}
use drivechain_esplora.Api.Reply.{Reply, refuse, reply, H, ◌>>=◌, on_error, run}

module _ {A : Type 0} where
  pub reply-injective :
      {a b : A} {j k : ℕ} → ◌≡◌ {A = Reply A × ℕ} (reply a, j) (reply b, k) → (a ≡ b) × (j ≡ k)
  reply-injective e = (value-eq (ap (λ x. x.0) e), ap (λ x. x.1) e)
    where
      value-eq : {a b : A} → reply a ≡ reply b → a ≡ b
      value-eq e = cc

  refuse-ne-reply : {s j k : ℕ} {b : A} → ◌≡◌ {A = Reply A × ℕ} (refuse s, j) (reply b, k) → ⊥
  refuse-ne-reply e = apart (ap (λ x. x.0) e)
    where
      apart : {s : ℕ} {b : A} → refuse s ≡ reply b → ⊥
      apart e = ground arith

module _ {A B : Type 0} (f : A → H B) where
  answered : Reply A × ℕ → Reply B × ℕ
  answered (refuse s, j) = (refuse s, j)
  answered (reply a, j) = f a j

  answered-eq-reply :
      (x : Reply A × ℕ) (b : B) (k : ℕ)
      → answered x ≡ (reply b, k)
      → (a : A) × (j : ℕ) × (x ≡ (reply a, j)) × (f a j ≡ (reply b, k))
  unfolding answered
  answered-eq-reply (refuse s, j) b k e = absurd (refuse-ne-reply e)
  answered-eq-reply (reply a, j) b k e = (a, j, refl, e)

  bind-answered : (m : H A) (n : ℕ) → (m >>= f) n ≡ answered (m n)
  unfolding answered
  bind-answered m n = go (m n)
    where
      go :
          (x : Reply A × ℕ)
          → (let (r, j) = x in elim r [ reply a ↦ f a j | refuse s ↦ (refuse s, j) ]) ≡ answered x
      go (refuse s, j) = refl
      go (reply a, j) = refl

  pub >>=-eq-reply :
      (m : H A) (n k : ℕ) (b : B)
      → (m >>= f) n ≡ (reply b, k)
      → (a : A) × (j : ℕ) × (m n ≡ (reply a, j)) × (f a j ≡ (reply b, k))
  >>=-eq-reply m n k b e = answered-eq-reply (m n) b k (sym (bind-answered m n) ∙ e)

  pub >>=-reply : (m : H A) (n k : ℕ) (a : A) → m n ≡ (reply a, k) → (m >>= f) n ≡ f a k
  unfolding answered
  >>=-reply m n k a e = bind-answered m n ∙ ap answered e

  pub >>=-refuse : (m : H A) (n k s : ℕ) → m n ≡ (refuse s, k) → (m >>= f) n ≡ (refuse s, k)
  unfolding answered
  >>=-refuse m n k s e = bind-answered m n ∙ ap answered e

module _ {A : Type 0} (views : ℕ → Option Db) (status : Error → ℕ) (f : Db → Result A) where
  on_error-eq-reply : (r : Result A) (a : A) → on_error status r ≡ reply a → r ≡ ok a
  on_error-eq-reply (ok b) a e = go e
    where
      go : reply b ≡ reply a → ok b ≡ ok a
      go e = cc
  on_error-eq-reply (err x) a e = absurd (ground arith)

  on_view-eq-ok :
      (v : Option Db) (a : A) → on_view v f ≡ ok a → (d : Db) × (v ≡ some d) × (f d ≡ ok a)
  on_view-eq-ok none a e = absurd (ground arith)
  on_view-eq-ok (some d) a e = (d, refl, e)

  -- A query that has answered found the tables, and was the only one of its call.
  pub run-query-eq-reply :
      (n k : ℕ) (a : A)
      → run status (query views f) n ≡ (reply a, k)
      → (d : Db) × (views n ≡ some d) × (f d ≡ ok a) × (k ≡ n + 1)
  run-query-eq-reply n k a e =
      let (d, ev, ef) =
        on_view-eq-ok (views n) a (on_error-eq-reply (on_view (views n) f) a (ap (λ x. x.0) e)) in
      (d, ev, ef, sym (ap (λ x. x.1) e))
