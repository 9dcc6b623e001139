-- ===== src/Index/Sync/Pass.antt =====
-- findFork and resolveStart of internal/index/sync.go, against any answers of the outside.
use drivechain_esplora.Base.{
  ℕ, zero, suc, ◌+◌, ◌≤◌, ◌≡◌, sym, ◌∙◌, Bool, Option, none, some, ok, arith, Bool-cases, inl, inr,
  subst, ok-injective,
}
use drivechain_esplora.Chain.Hash.{Hash}
use drivechain_esplora.Store.Tables.{Db}
use drivechain_esplora.Store.State.{tip, hash_at}
use drivechain_esplora.Store.Write.{rollback}
use drivechain_esplora.Store.Write.Gapless.{IsGapless, rollback-IsGapless}
use drivechain_esplora.Index.Prepare.{to_u32}
use drivechain_esplora.Index.World.{Env, M, pure, read, ask, write}
use drivechain_esplora.Index.Sync.{
  matches, find_fork, fork_or, compare_fork, roll_back_to, resolve_at, resolve_from, resolve_start,
}
use drivechain_esplora.Index.Sync.Resolve.{IsGapless-tip}
use drivechain_esplora.Index.Sync.Invariant.{
  IsNext, fresh, above, IsIndexed, Hoare, Hoare->>=, Hoare-ask, Hoare-read, Hoare-query,
  Hoare-write, Keeps,
}

IsGapless-Keeps : (h : ℕ) → Keeps (IsGapless h)
IsGapless-Keeps h d g = (h + 1, above g)

-- A height that the index holds.
abbrev CanFork : ℕ → Db → Type 0
CanFork f d = (k : ℕ) × (f ≤ k) × IsGapless k d

module _ (env : ℕ → Env) (has_times has_heights : Bool) where
  module _ (h below : ℕ) (le : below ≤ h) (rest : M ℕ)
      (kept : Hoare (IsGapless h) rest CanFork) where
    compare_fork-Hoare :
        (own : Hash) (theirs : Option Hash)
        → Hoare (IsGapless h) (compare_fork env has_times has_heights below rest own theirs) CanFork
    compare_fork-Hoare own theirs = elim (Bool-cases (matches theirs own)) [
      | inl hit ↦ rw hit (λ w g. (h, le, g))
      | inr miss ↦ rw miss kept
    ]

    fork_or-Hoare :
        (ours : Option Hash)
        → Hoare (IsGapless h) (fork_or env has_times has_heights below rest ours) CanFork
    fork_or-Hoare none = kept
    fork_or-Hoare (some own) =
        Hoare->>= (IsGapless h) (λ _. IsGapless h) CanFork (ask env (λ e. e.block_hash below))
          (compare_fork env has_times has_heights below rest own)
          (Hoare-ask env (IsGapless h) (λ e. e.block_hash below) (IsGapless-Keeps h))
          (compare_fork-Hoare own)

  find_fork-Hoare :
      (h from : ℕ)
      → from ≤ h
      → Hoare (IsGapless h) (find_fork env has_times has_heights from) CanFork
  unfolding find_fork
  find_fork-Hoare h zero le =
      Hoare->>= (IsGapless h) (λ _. IsGapless 0) CanFork (write env (λ d. ok (rollback 0 d)))
        (λ _. pure 0)
        (Hoare-write env (IsGapless h) (IsGapless 0) (λ d. ok (rollback 0 d)) (IsGapless-Keeps h)
          (λ d d' g e.
            subst (IsGapless 0) (ok-injective e) (rollback-IsGapless h 0 d (omega arith) g)))
        (λ _ w g. (0, omega arith, g))
  find_fork-Hoare h (suc below) le =
      Hoare->>= (IsGapless h) (λ _. IsGapless h) CanFork (read env (hash_at below))
        (fork_or env has_times has_heights below (find_fork env has_times has_heights below))
        (Hoare-query env (IsGapless h) (hash_at below) (IsGapless-Keeps h))
        (fork_or-Hoare h below (omega (arith, le)) (find_fork env has_times has_heights below)
          (find_fork-Hoare h below (omega (arith, le))))

  roll_back_to-Hoare : (f : ℕ) → Hoare (CanFork f) (roll_back_to env has_times has_heights f) IsNext
  roll_back_to-Hoare f =
      Hoare->>= (CanFork f) (λ _. IsGapless f) IsNext (write env (λ d. ok (rollback f d)))
        (λ _. pure (to_u32 (f + 1)))
        (Hoare-write env (CanFork f) (IsGapless f) (λ d. ok (rollback f d))
          (λ d c. (c.0 + 1, above c.2))
          (λ d d' c e. subst (IsGapless f) (ok-injective e) (rollback-IsGapless c.0 f d c.1 c.2)))
        (λ _ w g. subst (λ n. IsNext n w.db) (omega (arith, g.small)) (above g))

  resolve_at-Hoare :
      (h : ℕ) (hash : Hash) (theirs : Option Hash)
      → Hoare (IsGapless h) (resolve_at env has_times has_heights h hash theirs) IsNext
  resolve_at-Hoare h hash theirs = elim (Bool-cases (matches theirs hash)) [
    | inl hit ↦ rw hit (λ w g. subst (λ n. IsNext n w.db) (omega (arith, g.small)) (above g))
    | inr miss ↦ rw miss (
        Hoare->>= (IsGapless h) CanFork IsNext (find_fork env has_times has_heights h)
          (roll_back_to env has_times has_heights) (find_fork-Hoare h h (omega arith))
          roll_back_to-Hoare)
  ]

  -- A tip of an index is the height up to which it has no gaps.
  IsNext-tip :
      (n height : ℕ) (hash : Hash) (d : Db)
      → IsNext n d
      → tip d ≡ some (height, hash)
      → IsGapless height d
  unfolding tip
  IsNext-tip n height hash d (fresh f) e =
      absurd (ground (arith, rw (f.initialised, f.no_tip) at e))
  IsNext-tip n height hash d (above {h = h} g) e =
      let (x, et, ex) = IsGapless-tip h d g in subst (λ k. IsGapless k d) (same_pair e et) g
    where
      same_pair :
          {a b : ℕ} {p q : Hash} {t : Option (ℕ × Hash)} → t ≡ some (a, p) → t ≡ some (b, q) → b ≡ a
      same_pair e f = cc

  IsNext-no_tip : (n : ℕ) (d : Db) → IsNext n d → none ≡ tip d → IsNext 0 d
  IsNext-no_tip n d (fresh f) e = fresh f
  IsNext-no_tip n d (above {h = h} g) e =
      let (x, et, ex) = IsGapless-tip h d g in absurd (ground (arith, e ∙ et))

  resolve_from-Hoare :
      (t : Option (ℕ × Hash))
      → Hoare (λ d. IsIndexed d × (t ≡ tip d)) (resolve_from env has_times has_heights t) IsNext
  resolve_from-Hoare none w ((n, i), e) = IsNext-no_tip n w.db i e
  resolve_from-Hoare (some (height, hash)) w ((n, i), e) =
      Hoare->>= (IsGapless height) (λ _. IsGapless height) IsNext
        (ask env (λ e. e.block_hash height)) (resolve_at env has_times has_heights height hash)
        (Hoare-ask env (IsGapless height) (λ e. e.block_hash height) (IsGapless-Keeps height))
        (resolve_at-Hoare height hash) w (IsNext-tip n height hash w.db i (sym e))

  -- Whatever the node and the database answer, resolveStart names the height behind the tip of an
  -- index without gaps, or 0 of an empty one; and if it fails, the index still has no gaps.
  pub resolve_start-IsNext : Hoare IsIndexed (resolve_start env has_times has_heights) IsNext
  unfolding resolve_start
  resolve_start-IsNext =
      Hoare->>= IsIndexed (λ t d. IsIndexed d × (t ≡ tip d)) IsNext (read env tip)
        (resolve_from env has_times has_heights) (Hoare-read env IsIndexed tip (λ d i. i))
        resolve_from-Hoare
