-- ===== src/Index/Sync/Invariant.antt =====
-- The state of the database that a pass of internal/index/sync.go starts from, and the steps of a
-- pass as triples: what holds in front, and what holds behind a success or a failure.
use drivechain_esplora.Base.{ℕ, ◌+◌, ◌≡◌, refl, Bool, true, false, Result, ok, err}
use drivechain_esplora.Store.Tables.{Db}
use drivechain_esplora.Store.Write.Gapless.{IsGapless, IsFresh}
use drivechain_esplora.Index.World.{
  Env, World, M, ◌>>=◌, lift, read, read_with, ask, write, write_with, commit,
}

-- The database is as Init leaves it, or it is an index without gaps; `n` is the next height to read.
pub data IsNext : ℕ → Db → Type 0 where
  fresh : {d : Db} → IsFresh d → IsNext 0 d
  above : {h : ℕ} {d : Db} → IsGapless h d → IsNext (h + 1) d

abbrev pub IsIndexed : Db → Type 0
IsIndexed d = (n : ℕ) × IsNext n d

-- Where a step ends: in `Q` if it succeeds, and in an indexed database if it fails.
abbrev pub Outcome : {A : Type 0} → (A → Db → Type 0) → Result A × World → Type 0
Outcome Q (ok a, w) = Q a w.db
Outcome Q (err e, w) = IsIndexed w.db

abbrev pub Hoare : {A : Type 0} → (Db → Type 0) → M A → (A → Db → Type 0) → Type 0
Hoare P m Q = (w : World) → P w.db → Outcome Q (m w)

bind_outcome :
    {A B : Type 0} (Q : A → Db → Type 0) (R : B → Db → Type 0) (f : A → M B) (p : Result A × World)
    → ((a : A) → Hoare (Q a) (f a) R)
    → Outcome Q p
    → Outcome R (elim p.0 [ ok a ↦ f a p.1 | err e ↦ (err e, p.1) ])
bind_outcome Q R f (ok a, w) k q = k a w q
bind_outcome Q R f (err e, w) k q = q

pub Hoare->>= :
    {A B : Type 0} (P : Db → Type 0) (Q : A → Db → Type 0) (R : B → Db → Type 0) (m : M A)
    (f : A → M B)
    → Hoare P m Q
    → ((a : A) → Hoare (Q a) (f a) R)
    → Hoare P (m >>= f) R
Hoare->>= P Q R m f hm hf w p = bind_outcome Q R f (m w) hf (hm w p)

abbrev pub Keeps : (Db → Type 0) → Type 0
Keeps P = (d : Db) → P d → IsIndexed d

pub Hoare-lift :
    {A : Type 0} (P : Db → Type 0) (r : Result A)
    → Keeps P
    → Hoare P (lift r) (λ a d. P d × (r ≡ ok a))
Hoare-lift P (ok a) keeps w p = (p, refl)
Hoare-lift P (err e) keeps w p = keeps w.db p

module _ (env : ℕ → Env) where
  pub Hoare-ask :
      {A : Type 0} (P : Db → Type 0) (f : Env → Result A)
      → Keeps P
      → Hoare P (ask env f) (λ _ d. P d)
  Hoare-ask {A = A} P f keeps w p = answered (f (env w.clock))
    where
      answered : (r : Result A) → Outcome (λ _ d. P d) (r, record w { clock = w.clock + 1 })
      answered (ok a) = p
      answered (err e) = keeps w.db p

  pub Hoare-read :
      {A : Type 0} (P : Db → Type 0) (f : Db → A)
      → Keeps P
      → Hoare P (read env f) (λ a d. P d × (a ≡ f d))
  Hoare-read P f keeps w p = answered (env w.clock).database
    where
      answered : (b : Bool) → Outcome (λ a d. P d × (a ≡ f d)) (read_with env b f w)
      answered true = (p, refl)
      answered false = keeps w.db p

  -- A query whose answer does not matter.
  pub Hoare-query :
      {A : Type 0} (P : Db → Type 0) (f : Db → A) → Keeps P → Hoare P (read env f) (λ _ d. P d)
  Hoare-query P f keeps w p = answered (env w.clock).database
    where
      answered : (b : Bool) → Outcome (λ _ d. P d) (read_with env b f w)
      answered true = p
      answered false = keeps w.db p

  pub Hoare-write :
      (P Q : Db → Type 0) (f : Db → Result Db)
      → Keeps P
      → ((d d' : Db) → P d → f d ≡ ok d' → Q d')
      → Hoare P (write env f) (λ _ d. Q d)
  Hoare-write P Q f keeps step w p = answered (env w.clock).database
    where
      committed : (r : Result Db) → f w.db ≡ r → Outcome (λ _ d. Q d) (commit env r w)
      committed (ok d) e = step w.db d p e
      committed (err x) e = keeps w.db p

      answered : (b : Bool) → Outcome (λ _ d. Q d) (write_with env b f w)
      answered true = committed (f w.db) refl
      answered false = keeps w.db p
