-- ===== src/Index/Sync/Reach.antt =====
-- The walk of internal/index/sync.go to the tip of a chain that stands still.
use drivechain_esplora.Base.{
  ℕ, zero, suc, ◌+◌, ◌<◌, ◌≡◌, refl, sym, ap, ap₂, ◌∙◌, subst, Bool, true, false, Option, none,
  some, Bytes, if◌then◌else◌, Result, ok, err, ok-injective, arith, cancelled,
}
use drivechain_esplora.Chain.Hash.{Hash}
use drivechain_esplora.Chain.Block
use drivechain_esplora.Chain.Content.{Content}
use drivechain_esplora.Store.Tables
use drivechain_esplora.Store.Tables.{SyncState, Db}
use drivechain_esplora.Store.State.{tip, tip_of}
use drivechain_esplora.Store.Write.{apply, with_tip}
use drivechain_esplora.Store.Write.Rows.{apply-Wrote}
use drivechain_esplora.Index.Prepare.{prepare}
use drivechain_esplora.Index.Prepare.Points.{prepare_points}
use drivechain_esplora.Index.World.{Env, M, pure, lift, ask, write}
use drivechain_esplora.Index.Sync.{
  first, main_height, main_height_with, block_time, block_time_with, some_time, check_context,
  write_block, with_rows, with_time, with_index, apply_block, apply_found, apply_at, apply_height,
  walk, walk_on,
}
use drivechain_esplora.Index.Sync.Fork.{IsSteady}
use drivechain_esplora.Index.Sync.Partial.{
  Gives, Gives->>=, Gives-ask, Gives-write, Gives-lift, Ends,
}

-- The tip is the block of the chain below the height `n`.
abbrev pub AtTip : (ℕ → Option Hash) → ℕ → Db → Type 0
AtTip chain zero d = (s : SyncState) × (d.sync_state ≡ some s)
AtTip chain (suc k) d = (x : Hash) × (chain k ≡ some x) × (tip d ≡ some (k, x))

with_tip-known :
    (o : Option SyncState) (t p : ℕ × Hash)
    → tip_of o ≡ some p
    → tip_of (with_tip (some t) o) ≡ some t
with_tip-known none t p e = absurd (ground arith)
with_tip-known (some s) t p e = refl

module _ (chain : ℕ → Option Hash) where
  moved_tip :
      (n : ℕ) (d : Db) (t : ℕ × Hash)
      → AtTip chain n d
      → tip_of (with_tip (some t) d.sync_state) ≡ some t
  unfolding tip
  moved_tip zero d t (s, e) = rw e refl
  moved_tip (suc k) d t (x, _, e) = with_tip-known d.sync_state t (k, x) e

  apply-AtTip :
      (sha256 : Bytes → Bytes) (b : Tables.Block) (n : ℕ) (hash : Hash) (d d' : Db)
      → b.height ≡ n
      → b.hash ≡ hash
      → chain n ≡ some hash
      → AtTip chain n d
      → first (apply sha256 b d) ≡ ok d'
      → AtTip chain (n + 1) d'
  unfolding tip
  apply-AtTip sha256 b n hash d d' eh ex ec i e = applied (apply sha256 b d) refl e
    where
      applied :
          (r : Result (Db × ℕ)) → apply sha256 b d ≡ r → first r ≡ ok d' → AtTip chain (n + 1) d'
      applied (err x) er e = absurd (ground arith)
      applied (ok (d₁, k)) er e =
          let w = apply-Wrote sha256 b d d' k (er ∙ ap (λ (x : Db). ok (x, k)) (ok-injective e)) in
          let up : suc n ≡ n + 1 = omega arith in
          subst (λ m. AtTip chain m d') up
            (
              hash,
              ec,
              ap tip_of w.sync_state
                  ∙ moved_tip n d (b.height, b.hash) i
                  ∙ ap (λ (p : ℕ × Hash). some p) (ap₂ (λ (a : ℕ) (c : Hash). (a, c)) eh ex),
            )

module _ (env : ℕ → Env) (has_times has_heights : Bool) (chain : ℕ → Option Hash)
    (steady : IsSteady env chain) where
  module _ (P : Db → Type 0) (hash : Hash) where
    pub main_height-Gives :
        (on : Bool) → Gives P (main_height_with env has_times has_heights on hash) (λ _. P)
    main_height-Gives true w p = p
    main_height-Gives false w p = p

    block_time-Gives :
        (on : Bool) → Gives P (block_time_with env has_times has_heights on hash) (λ _. P)
    block_time-Gives true w p = timed ((env w.clock).block_time hash)
      where
        timed :
            (r : Result ℕ)
            → Ends (λ (_ : Option ℕ). P) (some_time r, record w { clock = w.clock + 1 })
        timed (ok t) = p
        timed (err e) = tt
    block_time-Gives false w p = p

  pub check_context-Gives :
      (P : Db → Type 0) → Gives P (check_context env has_times has_heights) (λ _. P)
  check_context-Gives P w p = checked (env w.clock).stopped
    where
      checked :
          (b : Bool)
          → Ends
              (λ (_ : Unit {0}). P)
              ((if b then err cancelled else ok tt), record w { clock = w.clock + 1 })
      checked true = tt
      checked false = p

  module _ (decode : Bytes → Result Content) (blake3 sha256 : Bytes → Bytes) where
    abbrev Next : ℕ → Bool → Db → Type 0
    Next n b d = (b ≡ true) × AtTip chain (n + 1) d

    write_block-Gives :
        (n : ℕ) (hash : Hash) (rows : Tables.Block) (main : Option ℕ)
        → rows.height ≡ n
        → rows.hash ≡ hash
        → chain n ≡ some hash
        → Gives
            (AtTip chain n)
            (write_block env has_times has_heights decode blake3 sha256 rows main)
            (Next n)
    write_block-Gives n hash rows main eh ex ec =
        Gives->>= (AtTip chain n) (λ _. AtTip chain (n + 1)) (Next n)
          (write env (λ d. first (apply sha256 (record rows { main_height = main }) d)))
          (λ _. pure true)
          (Gives-write env (AtTip chain n) (AtTip chain (n + 1))
            (λ d. first (apply sha256 (record rows { main_height = main }) d))
            (λ d d' i e.
              apply-AtTip chain sha256 (record rows { main_height = main }) n hash d d' eh ex ec i
                e))
          (λ _ w i. (refl, i))

    with_index-Gives :
        (n : ℕ) (hash : Hash) (block : Block.Block) (index : Block.BlockIndex)
        → chain n ≡ some hash
        → Gives
            (AtTip chain n)
            (with_index env has_times has_heights decode blake3 sha256 n hash block index)
            (Next n)
    with_index-Gives n hash block index ec =
        let P = AtTip chain n in
        Gives->>= P (λ _. P) (Next n)
          (block_time env has_times has_heights block.header.prev_main_hash)
          (with_time env has_times has_heights decode blake3 sha256 n hash block index)
          (block_time-Gives P block.header.prev_main_hash has_times)
          (λ time.
            Gives->>= P (λ rows d. P d × (prepare decode blake3 n hash block index time ≡ ok rows))
              (Next n) (lift (prepare decode blake3 n hash block index time))
              (with_rows env has_times has_heights decode blake3 sha256 block)
              (Gives-lift P (prepare decode blake3 n hash block index time))
              (λ rows w p.
                let made = prepare_points decode blake3 n hash block index time rows p.1 in
                Gives->>= P (λ _. P) (Next n)
                  (main_height env has_times has_heights block.header.prev_main_hash)
                  (write_block env has_times has_heights decode blake3 sha256 rows)
                  (main_height-Gives P block.header.prev_main_hash has_heights)
                  (λ main. write_block-Gives n hash rows main made.height_eq made.hash_eq ec) w
                  p.0))

    apply_found-Gives :
        (n : ℕ) (hash : Hash) (block : Option Block.Block)
        → chain n ≡ some hash
        → Gives
            (AtTip chain n)
            (apply_found env has_times has_heights decode blake3 sha256 n hash block)
            (Next n)
    unfolding apply_block
    apply_found-Gives n hash none ec = λ w i. tt
    apply_found-Gives n hash (some block) ec =
        Gives->>= (AtTip chain n) (λ _ d. AtTip chain n d × _) (Next n)
          (ask env (λ e. e.get_block_index hash))
          (with_index env has_times has_heights decode blake3 sha256 n hash block)
          (Gives-ask env (AtTip chain n) (λ e. e.get_block_index hash))
          (λ index w p. with_index-Gives n hash block index ec w p.0)

    apply_at-Gives :
        (n : ℕ) (x : Hash) (hash : Option Hash)
        → chain n ≡ some x
        → hash ≡ chain n
        → Gives
            (AtTip chain n)
            (apply_at env has_times has_heights decode blake3 sha256 n hash)
            (Next n)
    apply_at-Gives n x none ec eh = λ w i. absurd (ground arith)
    apply_at-Gives n x (some hash) ec eh =
        Gives->>= (AtTip chain n) (λ _ d. AtTip chain n d × _) (Next n)
          (ask env (λ e. e.get_block hash))
          (apply_found env has_times has_heights decode blake3 sha256 n hash)
          (Gives-ask env (AtTip chain n) (λ e. e.get_block hash))
          (λ block w p. apply_found-Gives n hash block (sym eh) w p.0)

    apply_height-Gives :
        (n : ℕ) (x : Hash)
        → chain n ≡ some x
        → Gives
            (AtTip chain n)
            (apply_height env has_times has_heights decode blake3 sha256 n)
            (Next n)
    unfolding apply_height
    apply_height-Gives n x ec =
        Gives->>= (AtTip chain n)
          (λ hash d. AtTip chain n d × ((t : ℕ) × ((env t).block_hash n ≡ ok hash))) (Next n)
          (ask env (λ e. e.block_hash n))
          (apply_at env has_times has_heights decode blake3 sha256 n)
          (Gives-ask env (AtTip chain n) (λ e. e.block_hash n))
          (λ hash w (p, (t, e)).
            apply_at-Gives n x hash ec (ok-injective (sym e ∙ steady.block_hash t n)) w p)

    walk_on-Gives :
        (n m : ℕ) (rest : M Bool)
        → Gives (AtTip chain (n + 1)) rest (λ b d. (b ≡ true) × AtTip chain m d)
        → (b : Bool)
        → Gives
            (Next n b)
            (walk_on env has_times has_heights decode blake3 sha256 rest b)
            (λ b d. (b ≡ true) × AtTip chain m d)
    walk_on-Gives n m rest h false = λ w p. absurd (ground arith)
    walk_on-Gives n m rest h true = λ w p.
        Gives->>= (AtTip chain (n + 1)) (λ _. AtTip chain (n + 1))
          (λ b d. (b ≡ true) × AtTip chain m d) (check_context env has_times has_heights)
          (λ _. rest) (check_context-Gives (AtTip chain (n + 1))) (λ _. h) w p.1

    pub walk-Gives :
        (rounds n : ℕ)
        → ((k : ℕ) → k < n + rounds → (x : Hash) × (chain k ≡ some x))
        → Gives
            (AtTip chain n)
            (walk env has_times has_heights decode blake3 sha256 rounds n)
            (λ b d. (b ≡ true) × AtTip chain (n + rounds) d)
    unfolding walk
    walk-Gives zero n held = λ w i. (refl, subst (λ m. AtTip chain m w.db) (omega arith) i)
    walk-Gives (suc rounds) n held =
        let (x, ec) = held n (omega arith) in
        Gives->>= (AtTip chain n) (Next n) (λ b d. (b ≡ true) × AtTip chain (n + suc rounds) d)
          (apply_height env has_times has_heights decode blake3 sha256 n)
          (walk_on env has_times has_heights decode blake3 sha256
            (walk env has_times has_heights decode blake3 sha256 rounds (n + 1)))
          (apply_height-Gives n x ec)
          (walk_on-Gives n (n + suc rounds)
            (walk env has_times has_heights decode blake3 sha256 rounds (n + 1))
            (subst
              (λ m.
                Gives (AtTip chain (n + 1))
                  (walk env has_times has_heights decode blake3 sha256 rounds (n + 1))
                  (λ b d. (b ≡ true) × AtTip chain m d))
              (omega arith) (walk-Gives rounds (n + 1) (λ k lt. held k (omega (arith, lt))))))
