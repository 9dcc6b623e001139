-- ===== src/Index/Sync/Fork.antt =====
-- findFork and resolveStart against a node and a database that answer every call in the same way.
use drivechain_esplora.Base.{
  ℕ, zero, suc, ◌+◌, ◌<◌, ◌≡◌, ◌⊎◌, refl, sym, ap, ◌∙◌, Bool, true, false, Option, none, some, ◌==◌,
  Result, ok, arith, Bool-cases, Option-cases, inl, inr, subst,
}
use drivechain_esplora.Chain.Hash.{Hash}
use drivechain_esplora.Store.Tables.{Db}
use drivechain_esplora.Store.Write.{rollback}
use drivechain_esplora.Store.State.{hash_at}
use drivechain_esplora.Index.World.{Env, World, pure, read, ask, write, ticked}
use drivechain_esplora.Index.Sync.{matches, find_fork, compare_fork, fork_or}
use drivechain_esplora.Index.Sync.Steps.{>>=-ok, read-ok, ask-ok, write-ok}

-- Whether a hash of the index and one of the node are there and are the same.
abbrev pub agree : Option Hash → Option Hash → Bool
agree theirs none = false
agree theirs (some own) = matches theirs own

-- The database answers every call, and the node's chain stands still.
pub record IsSteady (env : ℕ → Env) (chain : ℕ → Option Hash) : Type 0 where
  pub database : (t : ℕ) → (env t).database ≡ true
  pub block_hash : (t k : ℕ) → (env t).block_hash k ≡ ok (chain k)

module _ (chain : ℕ → Option Hash) (d : Db) where
  abbrev pub agree_at : ℕ → Bool
  agree_at k = agree (chain k) (hash_at k d)

  -- `f` is the highest height below `from` at which index and node agree.
  pub record IsFork (from f : ℕ) : Type 0 where
    pub below : f < from
    pub agreed : agree_at f ≡ true
    pub highest : (k : ℕ) → f < k → k < from → agree_at k ≡ false

  abbrev pub NoneAgrees : ℕ → Type 0
  NoneAgrees from = (k : ℕ) → k < from → agree_at k ≡ false

  IsFork-suc : (below f : ℕ) → agree_at below ≡ false → IsFork below f → IsFork (suc below) f
  IsFork-suc below f e i = record {
    below = omega (arith, i.below);
    agreed = i.agreed;
    highest = λ k lo hi. elim (Bool-cases (k == below)) [
      | inl at ↦ ground (arith, e)
      | inr off ↦ i.highest k lo (ground (arith, off))
    ];
  }

  NoneAgrees-suc : (below : ℕ) → agree_at below ≡ false → NoneAgrees below → NoneAgrees (suc below)
  NoneAgrees-suc below e i k hi = elim (Bool-cases (k == below)) [
    | inl at ↦ ground (arith, e)
    | inr off ↦ i k (ground (arith, off))
  ]

-- What findFork answers of a database, and the database behind it: the highest height that the index
-- and the node share, or 0 once a rollback to 0 has been done.
abbrev pub ForkOutcome : (ℕ → Option Hash) → Db → ℕ → Result ℕ × World → Type 0
ForkOutcome chain d from p =
    ((f : ℕ) × IsFork chain d from f × (p.0 ≡ ok f) × (p.1.db ≡ d))
    ⊎ (NoneAgrees chain d from × (p.0 ≡ ok 0) × (p.1.db ≡ rollback 0 d))

ForkOutcome-suc :
    (chain : ℕ → Option Hash) (d : Db) (below : ℕ) (p : Result ℕ × World)
    → agree_at chain d below ≡ false
    → ForkOutcome chain d below p
    → ForkOutcome chain d (suc below) p
ForkOutcome-suc chain d below p e (inl (f, i, r, u)) = inl (f, IsFork-suc chain d below f e i, r, u)
ForkOutcome-suc chain d below p e (inr (i, r, u)) = inr (NoneAgrees-suc chain d below e i, r, u)

module _ (env : ℕ → Env) (has_times has_heights : Bool) (chain : ℕ → Option Hash) where
  -- The next step of the loop, with its database calls and node calls answered.
  module _ (steady : IsSteady env chain) (below : ℕ) (w : World) where
    find_fork_missing :
        hash_at below w.db ≡ none
        → find_fork env has_times has_heights (suc below) w
          ≡ find_fork env has_times has_heights below (ticked w)
    unfolding find_fork
    find_fork_missing e =
        >>=-ok (read env (hash_at below))
          (fork_or env has_times has_heights below (find_fork env has_times has_heights below)) w
          (ticked w) none
          (read-ok env (hash_at below) w (steady.database w.clock) ∙ ap (λ x. (ok x, ticked w)) e)

    find_fork_held :
        (own : Hash)
        → hash_at below w.db ≡ some own
        → find_fork env has_times has_heights (suc below) w
          ≡ compare_fork env has_times has_heights below
              (find_fork env has_times has_heights below)
              own
              (chain below)
              (ticked (ticked w))
    unfolding find_fork
    find_fork_held own e =
        >>=-ok (read env (hash_at below))
          (fork_or env has_times has_heights below (find_fork env has_times has_heights below)) w
          (ticked w) (some own)
          (read-ok env (hash_at below) w (steady.database w.clock) ∙ ap (λ x. (ok x, ticked w)) e)
        ∙ >>=-ok (ask env (λ x. x.block_hash below))
            (compare_fork env has_times has_heights below
              (find_fork env has_times has_heights below) own)
            (ticked w) (ticked (ticked w)) (chain below)
            (ask-ok env (λ x. x.block_hash below) (ticked w) _
              (steady.block_hash (w.clock + 1) below))

  pub find_fork_lem :
      IsSteady env chain
      → (from : ℕ) (w : World)
      → ForkOutcome chain w.db from (find_fork env has_times has_heights from w)
  unfolding find_fork
  find_fork_lem steady zero w =
      let e : find_fork env has_times has_heights zero w
          ≡ (ok 0, record (ticked w) { db = rollback 0 w.db }) =
        >>=-ok (write env (λ d. ok (rollback 0 d))) (λ _. pure 0) w _ tt
          (write-ok env (rollback 0) w (steady.database w.clock)) in
      inr (
        (λ k lt. absurd (omega (arith, lt))),
        ap (λ (p : Result ℕ × World). p.0) e,
        ap (λ (p : Result ℕ × World). p.1.db) e,
      )
  find_fork_lem steady (suc below) w = elim (Option-cases (hash_at below w.db)) [
    | inl missing ↦
        subst (ForkOutcome chain w.db (suc below)) (sym (find_fork_missing steady below w missing))
          (ForkOutcome-suc chain w.db below (find_fork env has_times has_heights below (ticked w))
            (rw missing refl) (find_fork_lem steady below (ticked w)))
    | inr (own, held) ↦
        subst (ForkOutcome chain w.db (suc below)) (sym (find_fork_held steady below w own held))
          (elim (Bool-cases (matches (chain below) own)) [
            | inl hit ↦ rw hit (
                inl (
                  below,
                  record {
                    below = omega arith;
                    agreed = rw (held, hit) refl;
                    highest = λ k lo hi. absurd (omega (arith, lo, hi));
                  },
                  refl,
                  refl,
                ))
            | inr miss ↦ rw miss (
                ForkOutcome-suc chain w.db below
                  (find_fork env has_times has_heights below (ticked (ticked w)))
                  (rw (held, miss) refl) (find_fork_lem steady below (ticked (ticked w))))
          ])
  ]
