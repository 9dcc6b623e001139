-- ===== src/Index/Sync/Steps.antt =====
-- How the parts of a pass compute: a bind behind an answer, a query, a transaction and a call.
use drivechain_esplora.Base.{ℕ, ◌≡◌, ap, true, Result, ok, err}
use drivechain_esplora.Store.Tables.{Db}
use drivechain_esplora.Index.World.{
  Env, World, M, ◌>>=◌, ticked, read, read_with, ask, write, write_with,
}

abbrev bind_pair : {A B : Type 0} → (A → M B) → Result A × World → Result B × World
bind_pair f p = elim p.0 [ ok a ↦ f a p.1 | err e ↦ (err e, p.1) ]

pub >>=-ok :
    {A B : Type 0} (m : M A) (f : A → M B) (w w' : World) (a : A)
    → m w ≡ (ok a, w')
    → (m >>= f) w ≡ f a w'
>>=-ok m f w w' a e = ap (bind_pair f) e

module _ (env : ℕ → Env) where
  pub read-ok :
      {A : Type 0} (f : Db → A) (w : World)
      → (env w.clock).database ≡ true
      → read env f w ≡ (ok (f w.db), ticked w)
  read-ok f w e = ap (λ b. read_with env b f w) e

  pub ask-ok :
      {A : Type 0} (f : Env → Result A) (w : World) (r : Result A)
      → f (env w.clock) ≡ r
      → ask env f w ≡ (r, ticked w)
  ask-ok f w r e = ap (λ x. (x, ticked w)) e

  pub write-ok :
      (f : Db → Db) (w : World)
      → (env w.clock).database ≡ true
      → write env (λ d. ok (f d)) w ≡ (ok tt, record (ticked w) { db = f w.db })
  write-ok f w e = ap (λ b. write_with env b (λ d. ok (f d)) w) e
