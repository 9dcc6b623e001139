-- ===== src/Index/Sync/Partial.antt =====
-- The steps of a pass of internal/index/sync.go as triples of partial correctness: what holds of the database
-- behind a step that succeeds.
use drivechain_esplora.Base.{ℕ, ◌+◌, ◌≡◌, refl, Bool, true, false, Result, ok, err}
use drivechain_esplora.Store.Tables.{Db}
use drivechain_esplora.Index.World.{
  Env, World, M, ◌>>=◌, lift, read, read_with, ask, write, write_with, commit,
}

abbrev pub Ends : {A : Type 0} → (A → Db → Type 0) → Result A × World → Type 0
Ends Q (ok a, w) = Q a w.db
Ends Q (err e, w) = Unit

abbrev pub Gives : {A : Type 0} → (Db → Type 0) → M A → (A → Db → Type 0) → Type 0
Gives P m Q = (w : World) → P w.db → Ends Q (m w)

bind_ends :
    {A B : Type 0} (Q : A → Db → Type 0) (R : B → Db → Type 0) (f : A → M B) (p : Result A × World)
    → ((a : A) → Gives (Q a) (f a) R)
    → Ends Q p
    → Ends R (elim p.0 [ ok a ↦ f a p.1 | err e ↦ (err e, p.1) ])
bind_ends Q R f (ok a, w) k q = k a w q
bind_ends Q R f (err e, w) k q = tt

pub Gives->>= :
    {A B : Type 0} (P : Db → Type 0) (Q : A → Db → Type 0) (R : B → Db → Type 0) (m : M A)
    (f : A → M B)
    → Gives P m Q
    → ((a : A) → Gives (Q a) (f a) R)
    → Gives P (m >>= f) R
Gives->>= P Q R m f hm hf w p = bind_ends Q R f (m w) hf (hm w p)

pub Gives-lift :
    {A : Type 0} (P : Db → Type 0) (r : Result A) → Gives P (lift r) (λ a d. P d × (r ≡ ok a))
Gives-lift P (ok a) w p = (p, refl)
Gives-lift P (err e) w p = tt

module _ (env : ℕ → Env) where
  -- What the outside answers at some call.
  pub Gives-ask :
      {A : Type 0} (P : Db → Type 0) (f : Env → Result A)
      → Gives P (ask env f) (λ a d. P d × ((t : ℕ) × (f (env t) ≡ ok a)))
  Gives-ask {A = A} P f w p = answered (f (env w.clock)) refl
    where
      answered :
          (r : Result A)
          → f (env w.clock) ≡ r
          → Ends (λ a d. P d × ((t : ℕ) × (f (env t) ≡ ok a))) (r, record w { clock = w.clock + 1 })
      answered (ok a) e = (p, (w.clock, e))
      answered (err x) e = tt

  pub Gives-read :
      {A : Type 0} (P : Db → Type 0) (f : Db → A) → Gives P (read env f) (λ a d. P d × (a ≡ f d))
  Gives-read P f w p = answered (env w.clock).database
    where
      answered : (b : Bool) → Ends (λ a d. P d × (a ≡ f d)) (read_with env b f w)
      answered true = (p, refl)
      answered false = tt

  pub Gives-write :
      (P Q : Db → Type 0) (f : Db → Result Db)
      → ((d d' : Db) → P d → f d ≡ ok d' → Q d')
      → Gives P (write env f) (λ _ d. Q d)
  Gives-write P Q f step w p = answered (env w.clock).database
    where
      committed : (r : Result Db) → f w.db ≡ r → Ends (λ _ d. Q d) (commit env r w)
      committed (ok d) e = step w.db d p e
      committed (err x) e = tt

      answered : (b : Bool) → Ends (λ _ d. Q d) (write_with env b f w)
      answered true = committed (f w.db) refl
      answered false = tt
