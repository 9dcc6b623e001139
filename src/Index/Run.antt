-- ===== src/Index/Run.antt =====
-- The Run loops of internal/index/sync.go and internal/index/mempool_sync.go: a pass, the context, the wait,
-- and again. What a pass failed with is only logged. In the wait the context may end or the timer
-- fire: `stopped` at that call is the case that the select takes.
use drivechain_esplora.Base.{ℕ, zero, suc, Bool, true, false, Option, none, some, Error, cancelled}
use drivechain_esplora.Base.{Bytes, Result}
use drivechain_esplora.Chain.Content.{Content}
use drivechain_esplora.Index.World.{Env, World, M, ticked}
use drivechain_esplora.Index.Sync
use drivechain_esplora.Index.MempoolSync
pub mod Clock
pub mod Passes
pub mod Laws

module _ (env : ℕ → Env) where
  abbrev pub leave_or : Bool → (World → Option Error × World) → World → Option Error × World
  leave_or true rest w = (some cancelled, w)
  leave_or false rest w = rest w

  -- The error of the context, or on.
  abbrev pub unless_done : (World → Option Error × World) → World → Option Error × World
  unless_done rest w = leave_or (env w.clock).stopped rest (ticked w)

  module _ (pass : M (Unit {0})) where
    -- What Run returns within `passes` passes, or none while it still goes on.
    unfoldable pub follow : ℕ → World → Option Error × World
    follow zero w = (none, w)
    follow (suc passes) w = unless_done (unless_done (follow passes)) (pass w).1

  module _ (has_times has_heights : Bool) (decode : Bytes → Result Content) where
    -- Syncer.Run
    unfoldable pub run_syncer : (blake3 sha256 : Bytes → Bytes) → ℕ → World → Option Error × World
    run_syncer blake3 sha256 = follow (Sync.once env has_times has_heights decode blake3 sha256)

    -- MempoolSyncer.Run
    unfoldable pub run_mempool_syncer : (sha256 : Bytes → Bytes) → ℕ → World → Option Error × World
    run_mempool_syncer sha256 = follow (MempoolSync.once env has_times has_heights decode sha256)
