-- ===== src/Index/Sync/Resolve.antt =====
-- resolveStart of internal/index/sync.go, against a node and a database that answer every call in the
-- same way: what it returns and what it leaves in the database.
use drivechain_esplora.Base.{
  ℕ, zero, suc, ◌+◌, ◌≤◌, ◌<◌, ◌%◌, ◌^◌, ◌≡◌, refl, sym, ap, ◌∙◌, Bool, true, false, Option, some,
  ◌==◌, Result, ok, err, arith, Bool-cases, inl, inr, subst, find?-discard,
}
use drivechain_esplora.Chain.Hash.{Hash}
use drivechain_esplora.Store.Tables.{Db, after}
use drivechain_esplora.Store.Write.{rollback}
use drivechain_esplora.Store.Write.Gapless.{IsGapless, rollback-IsGapless, height-apart}
use drivechain_esplora.Store.State.{hash_at, hash_of, tip}
use drivechain_esplora.Index.World.{Env, World, pure, read, ask, write, ticked}
use drivechain_esplora.Index.Sync.{
  matches, find_fork, roll_back_to, resolve_at, resolve_from, resolve_start,
}
use drivechain_esplora.Index.Sync.Steps.{>>=-ok, read-ok, ask-ok, write-ok}
use drivechain_esplora.Index.Sync.Fork.{
  IsSteady, agree, agree_at, IsFork, NoneAgrees, ForkOutcome, find_fork_lem,
}

-- The tip of an index without gaps is the hash that it holds at its height.
pub IsGapless-tip :
    (h : ℕ) (d : Db) → IsGapless h d → (x : Hash) × (tip d ≡ some (h, x)) × (hash_at h d ≡ some x)
unfolding tip hash_at
IsGapless-tip h d g =
    let l = g.level in (l.row.hash, rw (l.initialised, l.tip) refl, rw l.found refl)

-- A rollback keeps the hashes at the heights that it leaves.
pub hash_at-rollback :
    (f k : ℕ) (d : Db) → k ≤ f → f < 2 ^ 31 → hash_at k (rollback f d) ≡ hash_at k d
unfolding hash_at rollback
hash_at-rollback f k d le small = ap hash_of (
    find?-discard (λ r. r.height == k) (λ r. after r.height f) (height-apart f k le small) d.blocks)

-- What resolveStart answers of an index without gaps up to `h`.
pub data Resolved (chain : ℕ → Option Hash) (h : ℕ) (d : Db) : Result ℕ × World → Type 0 where
  -- The tips agree: the next height, and nothing has changed.
  level : {w : World} → agree_at chain d h ≡ true → w.db ≡ d → Resolved chain h d (ok (h + 1), w)
  -- The node has another tip: the height behind the highest shared block, to which the index is
  -- rolled back. It has no gaps, and its tip is the node's block.
  forked :
      {w : World} (f : ℕ)
      → agree_at chain d h ≡ false
      → IsFork chain d h f
      → w.db ≡ rollback f d
      → IsGapless f w.db
      → agree_at chain w.db f ≡ true
      → Resolved chain h d (ok (f + 1), w)
  -- Nothing is shared: height 1, on top of the block 0 of the index, which the node does not have.
  stale :
      {w : World}
      → agree_at chain d h ≡ false
      → NoneAgrees chain d h
      → w.db ≡ rollback 0 (rollback 0 d)
      → IsGapless 0 w.db
      → agree_at chain w.db 0 ≡ false
      → Resolved chain h d (ok 1, w)

module _ (env : ℕ → Env) (has_times has_heights : Bool) (chain : ℕ → Option Hash)
    (steady : IsSteady env chain) where
  roll_back_to-eq :
      (f : ℕ) (w : World)
      → f + 1 < 2 ^ 32
      → roll_back_to env has_times has_heights f w
        ≡ (ok (f + 1), record (ticked w) { db = rollback f w.db })
  roll_back_to-eq f w small =
      >>=-ok (write env (λ d. ok (rollback f d))) (λ _. pure ((f + 1) % 2 ^ 32)) w _ tt
        (write-ok env (rollback f) w (steady.database w.clock))
      ∙ ap (λ n. (ok n, record (ticked w) { db = rollback f w.db })) (omega (arith, small))

  behind_fork :
      (h : ℕ) (d : Db) (w : World)
      → IsGapless h d
      → w.db ≡ d
      → agree_at chain d h ≡ false
      → (p : Result ℕ × World) → ForkOutcome chain d h p
      → Resolved chain h d
          (elim p.0 [ ok a ↦ roll_back_to env has_times has_heights a p.1 | err e ↦ (err e, p.1) ])
  behind_fork h d w g ed bad (r, w') (inl (f, i, er, ew)) =
      let small : f < 2 ^ 31 = omega (arith, i.below, g.small) in
      let after_rollback : Db = rollback f w'.db in
      let same_db : after_rollback ≡ rollback f d = ap (rollback f) ew in
      rw er (
        subst (Resolved chain h d) (sym (roll_back_to-eq f w' (omega (arith, small)))) (
          forked f bad i same_db
            (subst (IsGapless f) (sym same_db)
              (rollback-IsGapless h f d (omega (arith, i.below)) g))
            (ap (λ x. agree (chain f) (hash_at f x)) same_db
              ∙ ap (agree (chain f)) (hash_at-rollback f f d (omega arith) small)
              ∙ i.agreed)))
  behind_fork h d w g ed bad (r, w') (inr (i, er, ew)) =
      let g0 = rollback-IsGapless h 0 d (omega arith) g in
      let same_db : rollback 0 w'.db ≡ rollback 0 (rollback 0 d) = ap (rollback 0) ew in
      rw er (
        subst (Resolved chain h d) (sym (roll_back_to-eq 0 w' (omega arith))) (
          stale bad i same_db
            (subst (IsGapless 0) (sym same_db)
              (rollback-IsGapless 0 0 (rollback 0 d) (omega arith) g0))
            (ap (λ x. agree (chain 0) (hash_at 0 x)) same_db
              ∙ ap (agree (chain 0)) (
                  hash_at-rollback 0 0 (rollback 0 d) (omega arith) (omega arith)
                  ∙ hash_at-rollback 0 0 d (omega arith) (omega arith))
              ∙ at_genesis h bad i)))
    where
      at_genesis :
          (h : ℕ) → agree_at chain d h ≡ false → NoneAgrees chain d h → agree_at chain d 0 ≡ false
      at_genesis zero bad i = bad
      at_genesis (suc h) bad i = i 0 (omega arith)

  -- Against a node and a database that answer every call in the same way, resolveStart of an index
  -- without gaps answers the height behind the tip if the tips agree, and otherwise rolls back to
  -- the highest height at which the hashes agree and answers the height behind it; if they agree
  -- nowhere, it answers 1 and leaves the block 0 of the index, which is not the node's.
  pub resolve_start_lem :
      (h : ℕ) (w : World)
      → IsGapless h w.db
      → Resolved chain h w.db (resolve_start env has_times has_heights w)
  unfolding resolve_start
  resolve_start_lem h w g =
      let (x, et, ex) = IsGapless-tip h w.db g in
      let w₂ = ticked (ticked w) in
      let e : resolve_start env has_times has_heights w
          ≡ resolve_at env has_times has_heights h x (chain h) w₂ =
        >>=-ok (read env tip) (resolve_from env has_times has_heights) w (ticked w) (some (h, x))
          (read-ok env tip w (steady.database w.clock) ∙ ap (λ t. (ok t, ticked w)) et)
        ∙ >>=-ok (ask env (λ y. y.block_hash h)) (resolve_at env has_times has_heights h x)
            (ticked w) w₂ (chain h)
            (ask-ok env (λ y. y.block_hash h) (ticked w) _ (steady.block_hash (w.clock + 1) h)) in
      subst (Resolved chain h w.db) (sym e) (elim (Bool-cases (matches (chain h) x)) [
        | inl hit ↦ rw hit (
            subst (λ n. Resolved chain h w.db (ok n, w₂)) (omega (arith, g.small))
              (level (rw (ex, hit) refl) refl))
        | inr miss ↦ rw miss (
            behind_fork h w.db w₂ g refl (rw (ex, miss) refl)
              (find_fork env has_times has_heights h w₂)
              (find_fork_lem env has_times has_heights chain steady h w₂))
      ])
