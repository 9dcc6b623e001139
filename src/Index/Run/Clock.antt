-- ===== src/Index/Run/Clock.antt =====
-- No step of a pass of internal/index turns the clock of its calls back.
use drivechain_esplora.Base.{
  ℕ, zero, suc, ◌+◌, ◌≤◌, Bool, true, false, Option, none, some, Error, Result, ok, err, arith,
  Bool-cases, inl, inr,
}
use drivechain_esplora.Store.Tables.{Db}
use drivechain_esplora.Chain.Hash.{Hash}
use drivechain_esplora.Store.Write
use drivechain_esplora.Store.State
use drivechain_esplora.Index.Prepare.{to_u32}
use drivechain_esplora.Index.World.{
  Env, World, M, ◌>>=◌, pure, fail, lift, ask, read, read_with, write, write_with, commit, get_node,
  get_store,
}
use drivechain_esplora.Index.Sync

abbrev pub Forward : {A : Type 0} → M A → Type 0
Forward m = (w : World) → w.clock ≤ (m w).1.clock

abbrev bound : {A B : Type 0} → (A → M B) → Result A × World → Result B × World
bound f p = elim p.0 [ ok a ↦ f a p.1 | err e ↦ (err e, p.1) ]

bind_clock :
    {A B : Type 0} (f : A → M B) (p : Result A × World) (t : ℕ)
    → ((a : A) → Forward (f a))
    → t ≤ p.1.clock
    → t ≤ (bound f p).1.clock
bind_clock f (ok a, w) t k le = omega (arith, k a w)
bind_clock f (err e, w) t k le = le

pub Forward->>= :
    {A B : Type 0} (m : M A) (f : A → M B)
    → Forward m
    → ((a : A) → Forward (f a))
    → Forward (m >>= f)
Forward->>= m f hm hf w = bind_clock f (m w) w.clock hf (hm w)

pub Forward-pure : {A : Type 0} (a : A) → Forward (pure a)
Forward-pure a w = omega arith

pub Forward-fail : (A : Type 0) (e : Error) → Forward (fail {A = A} e)
Forward-fail A e w = omega arith

pub Forward-lift : {A : Type 0} (r : Result A) → Forward (lift r)
Forward-lift r w = omega arith

module _ (env : ℕ → Env) where
  pub Forward-ask : {A : Type 0} (f : Env → Result A) → Forward (ask env f)
  Forward-ask f w = omega arith

  pub Forward-read : {A : Type 0} (f : Db → A) → Forward (read env f)
  Forward-read f w = answered (env w.clock).database
    where
      answered : (b : Bool) → w.clock ≤ (read_with env b f w).1.clock
      answered true = omega arith
      answered false = omega arith

  pub Forward-write : (f : Db → Result Db) → Forward (write env f)
  Forward-write f w = answered (env w.clock).database
    where
      committed : (r : Result Db) → w.clock ≤ (commit env r w).1.clock
      committed (ok d) = omega arith
      committed (err e) = omega arith

      answered : (b : Bool) → w.clock ≤ (write_with env b f w).1.clock
      answered true = committed (f w.db)
      answered false = omega arith

  pub Forward-get_node : Forward (get_node env)
  Forward-get_node w = omega arith

  pub Forward-get_store : Forward (get_store env)
  Forward-get_store w = omega arith

  module _ (has_times has_heights : Bool) where
    compare_fork-Forward :
        (below : ℕ) (rest : M ℕ) (own : Hash) (theirs : Option Hash)
        → Forward rest
        → Forward (Sync.compare_fork env has_times has_heights below rest own theirs)
    compare_fork-Forward below rest own theirs h = elim (Bool-cases (Sync.matches theirs own)) [
      | inl e ↦ rw e (Forward-pure below)
      | inr e ↦ rw e h
    ]

    fork_or-Forward :
        (below : ℕ) (rest : M ℕ) (own : Option Hash)
        → Forward rest
        → Forward (Sync.fork_or env has_times has_heights below rest own)
    fork_or-Forward below rest none h = h
    fork_or-Forward below rest (some own) h =
        Forward->>= (ask env (λ e. e.block_hash below))
          (Sync.compare_fork env has_times has_heights below rest own)
          (Forward-ask (λ e. e.block_hash below))
          (λ theirs. compare_fork-Forward below rest own theirs h)

    find_fork-Forward : (n : ℕ) → Forward (Sync.find_fork env has_times has_heights n)
    unfolding Sync.find_fork
    find_fork-Forward zero =
        Forward->>= (write env (λ d. ok (Write.rollback 0 d))) (λ _. pure 0)
          (Forward-write (λ d. ok (Write.rollback 0 d))) (λ _. Forward-pure {A = ℕ} 0)
    find_fork-Forward (suc below) =
        Forward->>= (read env (State.hash_at below))
          (Sync.fork_or env has_times has_heights below
            (Sync.find_fork env has_times has_heights below))
          (Forward-read (State.hash_at below))
          (λ own. fork_or-Forward below _ own (find_fork-Forward below))

    resolve_at-Forward :
        (height : ℕ) (hash : Hash) (theirs : Option Hash)
        → Forward (Sync.resolve_at env has_times has_heights height hash theirs)
    resolve_at-Forward height hash theirs = elim (Bool-cases (Sync.matches theirs hash)) [
      | inl e ↦ rw e (Forward-pure (to_u32 (height + 1)))
      | inr e ↦ rw e (
          Forward->>= (Sync.find_fork env has_times has_heights height)
            (Sync.roll_back_to env has_times has_heights) (find_fork-Forward height)
            (λ fork.
              Forward->>= (write env (λ d. ok (Write.rollback fork d)))
                (λ _. pure (to_u32 (fork + 1))) (Forward-write (λ d. ok (Write.rollback fork d)))
                (λ _. Forward-pure (to_u32 (fork + 1)))))
    ]

    resolve_from-Forward :
        (t : Option (ℕ × Hash)) → Forward (Sync.resolve_from env has_times has_heights t)
    resolve_from-Forward none = Forward-pure {A = ℕ} 0
    resolve_from-Forward (some (height, hash)) =
        Forward->>= (ask env (λ e. e.block_hash height))
          (Sync.resolve_at env has_times has_heights height hash)
          (Forward-ask (λ e. e.block_hash height)) (resolve_at-Forward height hash)

    pub resolve_start-Forward : Forward (Sync.resolve_start env has_times has_heights)
    unfolding Sync.resolve_start
    resolve_start-Forward =
        Forward->>= (read env State.tip) (Sync.resolve_from env has_times has_heights)
          (Forward-read State.tip) resolve_from-Forward

    pub main_height-Forward :
        (on : Bool) (hash : Hash)
        → Forward (Sync.main_height_with env has_times has_heights on hash)
    main_height-Forward true hash w = omega arith
    main_height-Forward false hash w = omega arith

    pub block_time-Forward :
        (on : Bool) (hash : Hash) → Forward (Sync.block_time_with env has_times has_heights on hash)
    block_time-Forward true hash w = omega arith
    block_time-Forward false hash w = omega arith

    pub check_context-Forward : Forward (Sync.check_context env has_times has_heights)
    check_context-Forward w = omega arith
