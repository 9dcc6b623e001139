-- ===== src/Index/MempoolSync/Snapshot.antt =====
-- The branches of MempoolSyncer.Once of internal/index/mempool_sync.go.
use drivechain_esplora.Base.{
  ℕ, ◌≡◌, refl, Bool, true, false, List, Bytes, Error, Result, ok, err, arith,
}
use drivechain_esplora.Chain.Block
use drivechain_esplora.Chain.Content.{Content}
use drivechain_esplora.Store.Tables
use drivechain_esplora.Store.Tables.{Db}
use drivechain_esplora.Store.Mempool.{replace_mempool}
use drivechain_esplora.Index.Prepare.{prepare_mempool}
use drivechain_esplora.Index.World.{Env, World, M, write_with, commit, ticked, get_node, get_store}
use drivechain_esplora.Index.MempoolSync.{replace, from_list, list_and_replace, with_store, once}

-- The database is `d` if the step failed.
abbrev Untouched : (A : Type 0) → Db → Result A × World → Type 0
Untouched A d (ok a, w) = Unit
Untouched A d (err e, w) = w.db ≡ d

bind-Untouched :
    {A B : Type 0} (f : A → M B) (r : Result A) (w w' : World)
    → w'.db ≡ w.db
    → ((a : A) → Untouched B w.db (f a w'))
    → Untouched B w.db (elim r [ ok a ↦ f a w' | err e ↦ (err e, w') ])
bind-Untouched f (ok a) w w' e k = k a
bind-Untouched f (err x) w w' e k = e

failed :
    {A : Type 0} (d : Db) (p : Result A × World) (e : Error)
    → Untouched A d p
    → p.0 ≡ err e
    → p.1.db ≡ d
failed d (ok a, w) e u h = absurd (ground arith)
failed d (err x, w) e u h = u

module _ (env : ℕ → Env) (has_times has_heights : Bool) (decode : Bytes → Result Content)
    (sha256 : Bytes → Bytes) where
  replace-Untouched :
      (pool : Tables.Mempool) (w : World)
      → Untouched (Unit {0}) w.db (replace env has_times has_heights decode sha256 pool w)
  replace-Untouched pool w = answered (env w.clock).database
    where
      f : Db → Result Db
      f = replace_mempool sha256 (env w.clock).now pool

      committed : (r : Result Db) → Untouched (Unit {0}) w.db (commit env r w)
      committed (ok d) = tt
      committed (err e) = refl

      answered : (b : Bool) → Untouched (Unit {0}) w.db (write_with env b f w)
      answered true = committed (f w.db)
      answered false = refl

  list-Untouched :
      (r : Result (List Block.MempoolTx)) (w : World)
      → Untouched (Unit {0}) w.db (from_list env has_times has_heights decode sha256 (r, w))
  list-Untouched (ok txs) w =
      bind-Untouched (replace env has_times has_heights decode sha256) (prepare_mempool decode txs)
        w w refl (λ pool. replace-Untouched pool w)
  list-Untouched (err e) w = refl

  -- Whatever the node and the database answer: a mempool pass that fails, at any call, leaves the
  -- database as it was.
  pub once_failed :
      (w : World) (e : Error)
      → (once env has_times has_heights decode sha256 w).0 ≡ err e
      → (once env has_times has_heights decode sha256 w).1.db ≡ w.db
  unfolding once
  once_failed w e =
      let w₁ = (get_node env w).1 in
      let w₂ = (get_store env w₁).1 in
      failed w.db (once env has_times has_heights decode sha256 w) e (
        bind-Untouched (λ _. with_store env has_times has_heights decode sha256) (get_node env w).0
          w w₁ refl
          (λ _.
            bind-Untouched (λ _. list_and_replace env has_times has_heights decode sha256)
              (get_store env w₁).0 w₁ w₂ refl
              (λ _. list-Untouched (env w₂.clock).list_mempool (ticked w₂))))
