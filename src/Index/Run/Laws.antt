-- ===== src/Index/Run/Laws.antt =====
-- Run of internal/index/sync.go and internal/index/mempool_sync.go: what every pass keeps, and when it returns.
use drivechain_esplora.Base.{
  ℕ, zero, suc, ◌+◌, ◌≤◌, ◌<◌, ◌^◌, ◌≡◌, ◌⊎◌, inl, inr, refl, ap, Bool, true, false, Option, none,
  some, Bytes, Error, Result, ok, cancelled, arith,
}
use drivechain_esplora.Chain.Content.{Content}
use drivechain_esplora.Store.Tables.{Db}
use drivechain_esplora.Index.World.{Env, World, M, ticked}
use drivechain_esplora.Index.Sync
use drivechain_esplora.Index.MempoolSync
use drivechain_esplora.Index.Sync.Invariant.{IsIndexed}
use drivechain_esplora.Index.Sync.Once.{once-IsIndexed}
use drivechain_esplora.Index.Run.{leave_or, unless_done, follow, run_syncer, run_mempool_syncer}
use drivechain_esplora.Index.Run.Clock.{Forward}
use drivechain_esplora.Index.Run.Passes.{once-Forward, once_mempool-Forward}

module _ (env : ℕ → Env) where
  -- A pass, the context and the wait keep what the pass keeps.
  module _ (pass : M (Unit {0})) (P : Db → Type 0)
      (kept : (w : World) → P w.db → P (pass w).1.db) where
    done-keeps :
        (rest : World → Option Error × World)
        → ((w : World) → P w.db → P (rest w).1.db)
        → (w : World) → P w.db
        → P (unless_done env rest w).1.db
    done-keeps rest h w p = left (env w.clock).stopped
      where
        left : (b : Bool) → P (leave_or env b rest (ticked w)).1.db
        left true = p
        left false = h (ticked w) p

    pub follow-keeps : (passes : ℕ) (w : World) → P w.db → P (follow env pass passes w).1.db
    unfolding follow
    follow-keeps zero w p = p
    follow-keeps (suc passes) w p =
        done-keeps (unless_done env (follow env pass passes))
          (done-keeps (follow env pass passes) (follow-keeps passes)) (pass w).1 (kept w p)

  -- Why a loop returned: the context had ended at a call.
  abbrev pub Ended : Option Error × World → Type 0
  Ended p = (p.0 ≡ none) ⊎ ((p.0 ≡ some cancelled) × ((t : ℕ) × ((env t).stopped ≡ true)))

  -- The context ends at the call `t` and stays ended.
  abbrev pub StaysDone : ℕ → Type 0
  StaysDone t = (k : ℕ) → t ≤ k → (env k).stopped ≡ true

  done-Ended :
      (rest : World → Option Error × World)
      → ((w : World) → Ended (rest w))
      → (w : World) → Ended (unless_done env rest w)
  done-Ended rest h w = left (env w.clock).stopped refl
    where
      left : (b : Bool) → (env w.clock).stopped ≡ b → Ended (leave_or env b rest (ticked w))
      left true e = inr (refl, (w.clock, e))
      left false e = h (ticked w)

  module _ (pass : M (Unit {0})) where
    pub follow-Ended : (passes : ℕ) (w : World) → Ended (follow env pass passes w)
    unfolding follow
    follow-Ended zero w = inl refl
    follow-Ended (suc passes) w =
        done-Ended (unless_done env (follow env pass passes))
          (done-Ended (follow env pass passes) (follow-Ended passes)) (pass w).1

    module _ (forward : Forward pass) (t : ℕ) (done : StaysDone t) where
      done_now :
          (rest : World → Option Error × World) (w : World)
          → t ≤ w.clock
          → (unless_done env rest w).0 ≡ some cancelled
      done_now rest w le = ap (λ b. (leave_or env b rest (ticked w)).0) (done w.clock le)

      done_later :
          (rest : World → Option Error × World) (n : ℕ)
          → ((w : World) → n < w.clock → (rest w).0 ≡ some cancelled)
          → (w : World) → n ≤ w.clock
          → (unless_done env rest w).0 ≡ some cancelled
      done_later rest n h w le = left (env w.clock).stopped
        where
          left : (b : Bool) → (leave_or env b rest (ticked w)).0 ≡ some cancelled
          left true = refl
          left false = h (ticked w) (omega (arith, le))

      pub follow_ends :
          (passes : ℕ) (w : World)
          → t ≤ w.clock + passes
          → (follow env pass (suc passes) w).0 ≡ some cancelled
      unfolding follow
      follow_ends zero w le =
          done_now (unless_done env (follow env pass 0)) (pass w).1 (omega (arith, forward w))
      follow_ends (suc n) w le =
          let on = follow env pass (suc n) in
          done_later (unless_done env on) w.clock
            (λ w' lt.
              done_later on w'.clock (λ w'' lt'. follow_ends n w'' (omega (arith, lt, lt', le))) w'
                (omega arith))
            (pass w).1 (forward w)

module _ (env : ℕ → Env) (has_times has_heights : Bool) (decode : Bytes → Result Content)
    (blake3 sha256 : Bytes → Bytes) where
  -- However many passes Run of the block syncer makes, and whatever they fail with, a database that
  -- was fresh or an index without gaps stays one, as long as the node counts at most 2 ^ 31 blocks.
  pub run_syncer-IsIndexed :
      (passes : ℕ) (w : World)
      → ((t c : ℕ) → (env t).block_count ≡ ok c → c ≤ 2 ^ 31)
      → IsIndexed w.db
      → IsIndexed (run_syncer env has_times has_heights decode blake3 sha256 passes w).1.db
  unfolding run_syncer
  run_syncer-IsIndexed passes w small i =
      follow-keeps env (Sync.once env has_times has_heights decode blake3 sha256) IsIndexed
        (once-IsIndexed env has_times has_heights decode blake3 sha256 small) passes w i

  -- Where the context ends at some call and stays ended, Run of the block syncer and Run of the
  -- mempool syncer return its error, after at most one pass more than that call is ahead.
  pub runs_end :
      (t passes : ℕ) (w : World)
      → StaysDone env t
      → t ≤ w.clock + passes
      → ((run_syncer env has_times has_heights decode blake3 sha256 (suc passes) w).0
          ≡ some cancelled)
        × ((run_mempool_syncer env has_times has_heights decode sha256 (suc passes) w).0
            ≡ some cancelled)
  unfolding run_syncer run_mempool_syncer
  runs_end t passes w done le = (
    follow_ends env (Sync.once env has_times has_heights decode blake3 sha256)
        (once-Forward env has_times has_heights decode blake3 sha256) t done passes w le,
    follow_ends env (MempoolSync.once env has_times has_heights decode sha256)
        (once_mempool-Forward env has_times has_heights decode sha256) t done passes w le,
  )

  -- Whatever the passes fail with, Run of either syncer goes on, or has returned the error of the
  -- context at a call at which the context had ended.
  pub runs-Ended :
      (passes : ℕ) (w : World)
      → Ended env (run_syncer env has_times has_heights decode blake3 sha256 passes w)
        × Ended env (run_mempool_syncer env has_times has_heights decode sha256 passes w)
  unfolding run_syncer run_mempool_syncer
  runs-Ended passes w = (
    follow-Ended env (Sync.once env has_times has_heights decode blake3 sha256) passes w,
    follow-Ended env (MempoolSync.once env has_times has_heights decode sha256) passes w,
  )
