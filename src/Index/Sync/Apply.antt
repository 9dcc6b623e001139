-- ===== src/Index/Sync/Apply.antt =====
-- applyHeight of internal/index/sync.go and its parts, against any answers of the outside.
use drivechain_esplora.Base.{
  ℕ, ◌+◌, ◌<◌, ◌^◌, ◌≡◌, refl, ap, ◌∙◌, Bool, true, false, Option, none, some, Bytes, if◌then◌else◌,
  Result, ok, err, arith, ok-injective, cancelled,
}
use drivechain_esplora.Chain.Hash.{Hash}
use drivechain_esplora.Chain.Block
use drivechain_esplora.Chain.Content.{Content}
use drivechain_esplora.Store.Tables
use drivechain_esplora.Store.Tables.{Db}
use drivechain_esplora.Store.State.{set_main_height}
use drivechain_esplora.Store.State.Heights.{set_main_height-IsGapless, set_main_height-IsFresh}
use drivechain_esplora.Store.Write.{apply}
use drivechain_esplora.Store.Write.Gapless.{apply-IsGapless, apply-IsFresh}
use drivechain_esplora.Index.Prepare.{prepare}
use drivechain_esplora.Index.Prepare.Points.{prepare_points}
use drivechain_esplora.Index.World.{Env, World, pure, lift, ask, write}
use drivechain_esplora.Index.Sync.{
  first, main_height, block_time, main_height_with, block_time_with, or_none, some_time,
  check_context, write_block, with_rows, with_time, with_index, apply_block, apply_found, apply_at,
  apply_height,
}
use drivechain_esplora.Index.Sync.Invariant.{
  IsNext, fresh, above, IsIndexed, Outcome, Hoare, Hoare->>=, Hoare-lift, Hoare-ask, Hoare-write,
  Keeps,
}

pub IsNext-Keeps : (n : ℕ) → Keeps (IsNext n)
IsNext-Keeps n d i = (n, i)

-- Behind applyHeight of the height `n`.
abbrev pub Applied : ℕ → Bool → Db → Type 0
Applied n true = IsNext (n + 1)
Applied n false = IsIndexed

module _ (sha256 : Bytes → Bytes) (b : Tables.Block) where
  applied-IsNext :
      (n k : ℕ) (d d' : Db)
      → b.height ≡ n
      → n < 2 ^ 31
      → IsNext n d
      → apply sha256 b d ≡ ok (d', k)
      → IsNext (n + 1) d'
  applied-IsNext n k d d' eh small (fresh f) e = above (apply-IsFresh sha256 b d d' k eh f e)
  applied-IsNext n k d d' eh small (above {h = h} g) e =
      above (apply-IsGapless sha256 h b d d' k eh small g e)

  apply-IsNext :
      (n : ℕ) (d d' : Db)
      → b.height ≡ n
      → n < 2 ^ 31
      → IsNext n d
      → first (apply sha256 b d) ≡ ok d'
      → IsNext (n + 1) d'
  apply-IsNext n d d' eh small i e = applied (apply sha256 b d) refl e
    where
      applied : (r : Result (Db × ℕ)) → apply sha256 b d ≡ r → first r ≡ ok d' → IsNext (n + 1) d'
      applied (err x) er e = absurd (ground arith)
      applied (ok (d₁, k)) er e =
          applied-IsNext n k d d' eh small i (er ∙ ap (λ (x : Db). ok (x, k)) (ok-injective e))

pub set_main_height-IsNext :
    (height main n : ℕ) (d : Db) → IsNext n d → IsNext n (set_main_height height main d)
set_main_height-IsNext height main n d (fresh f) = fresh (set_main_height-IsFresh height main d f)
set_main_height-IsNext height main n d (above {h = h} g) =
    above (set_main_height-IsGapless height main h d g)

module _ (env : ℕ → Env) (has_times has_heights : Bool) where
  module _ (P : Db → Type 0) (hash : Hash) (keeps : Keeps P) where
    pub main_height-Hoare :
        (on : Bool) → Hoare P (main_height_with env has_times has_heights on hash) (λ _. P)
    main_height-Hoare true = Hoare-ask env P (λ e. ok (or_none (e.main_height hash))) keeps
    main_height-Hoare false = λ w p. p

    block_time-Hoare :
        (on : Bool) → Hoare P (block_time_with env has_times has_heights on hash) (λ _. P)
    block_time-Hoare true = Hoare-ask env P (λ e. some_time (e.block_time hash)) keeps
    block_time-Hoare false = λ w p. p

  pub check_context-Hoare :
      (P : Db → Type 0) → Keeps P → Hoare P (check_context env has_times has_heights) (λ _. P)
  check_context-Hoare P keeps =
      Hoare-ask env P (λ e. if e.stopped then err cancelled else ok tt) keeps

  module _ (decode : Bytes → Result Content) (blake3 sha256 : Bytes → Bytes) where
    write_block-Hoare :
        (n : ℕ) (rows : Tables.Block) (main : Option ℕ)
        → rows.height ≡ n
        → n < 2 ^ 31
        → Hoare
            (IsNext n)
            (write_block env has_times has_heights decode blake3 sha256 rows main)
            (λ b d. (b ≡ true) × IsNext (n + 1) d)
    write_block-Hoare n rows main eh small =
        Hoare->>= (IsNext n) (λ _. IsNext (n + 1)) (λ b d. (b ≡ true) × IsNext (n + 1) d)
          (write env (λ d. first (apply sha256 (record rows { main_height = main }) d)))
          (λ _. pure true)
          (Hoare-write env (IsNext n) (IsNext (n + 1))
            (λ d. first (apply sha256 (record rows { main_height = main }) d)) (IsNext-Keeps n)
            (λ d d' i e.
              apply-IsNext sha256 (record rows { main_height = main }) n d d' eh small i e))
          (λ _ w i. (refl, i))

    with_index-Hoare :
        (n : ℕ) (hash : Hash) (block : Block.Block) (index : Block.BlockIndex)
        → n < 2 ^ 31
        → Hoare
            (IsNext n)
            (with_index env has_times has_heights decode blake3 sha256 n hash block index)
            (λ b d. (b ≡ true) × IsNext (n + 1) d)
    with_index-Hoare n hash block index small =
        Hoare->>= (IsNext n) (λ _. IsNext n) (λ b d. (b ≡ true) × IsNext (n + 1) d)
          (block_time env has_times has_heights block.header.prev_main_hash)
          (with_time env has_times has_heights decode blake3 sha256 n hash block index)
          (block_time-Hoare (IsNext n) block.header.prev_main_hash (IsNext-Keeps n) has_times)
          (λ time.
            Hoare->>= (IsNext n)
              (λ rows d. IsNext n d × (prepare decode blake3 n hash block index time ≡ ok rows))
              (λ b d. (b ≡ true) × IsNext (n + 1) d)
              (lift (prepare decode blake3 n hash block index time))
              (with_rows env has_times has_heights decode blake3 sha256 block)
              (Hoare-lift (IsNext n) (prepare decode blake3 n hash block index time)
                (IsNext-Keeps n))
              (λ rows w p.
                Hoare->>= (IsNext n) (λ _. IsNext n) (λ b d. (b ≡ true) × IsNext (n + 1) d)
                  (main_height env has_times has_heights block.header.prev_main_hash)
                  (write_block env has_times has_heights decode blake3 sha256 rows)
                  (main_height-Hoare (IsNext n) block.header.prev_main_hash (IsNext-Keeps n)
                    has_heights)
                  (λ main.
                    write_block-Hoare n rows main
                      (prepare_points decode blake3 n hash block index time rows p.1).height_eq
                      small)
                  w p.0))

    apply_found-Hoare :
        (n : ℕ) (hash : Hash) (block : Option Block.Block)
        → n < 2 ^ 31
        → Hoare
            (IsNext n)
            (apply_found env has_times has_heights decode blake3 sha256 n hash block)
            (λ b d. (b ≡ true) × IsNext (n + 1) d)
    unfolding apply_block
    apply_found-Hoare n hash none small = λ w i. (n, i)
    apply_found-Hoare n hash (some block) small =
        Hoare->>= (IsNext n) (λ _. IsNext n) (λ b d. (b ≡ true) × IsNext (n + 1) d)
          (ask env (λ e. e.get_block_index hash))
          (with_index env has_times has_heights decode blake3 sha256 n hash block)
          (Hoare-ask env (IsNext n) (λ e. e.get_block_index hash) (IsNext-Keeps n))
          (λ index. with_index-Hoare n hash block index small)

    apply_at-Hoare :
        (n : ℕ) (hash : Option Hash)
        → n < 2 ^ 31
        → Hoare
            (IsNext n)
            (apply_at env has_times has_heights decode blake3 sha256 n hash)
            (Applied n)
    apply_at-Hoare n none small = λ w i. (n, i)
    apply_at-Hoare n (some hash) small =
        Hoare->>= (IsNext n) (λ _. IsNext n) (Applied n) (ask env (λ e. e.get_block hash))
          (apply_found env has_times has_heights decode blake3 sha256 n hash)
          (Hoare-ask env (IsNext n) (λ e. e.get_block hash) (IsNext-Keeps n))
          (λ block w i.
            weaken (apply_found env has_times has_heights decode blake3 sha256 n hash block w)
              (apply_found-Hoare n hash block small w i))
      where
        weaken :
            (p : Result Bool × World)
            → Outcome (λ b d. (b ≡ true) × IsNext (n + 1) d) p
            → Outcome (Applied n) p
        weaken (ok true, w) q = q.1
        weaken (ok false, w) q = absurd (ground arith)
        weaken (err e, w) q = q

    -- applyHeight of the next height: it adds the block, or finds none and changes nothing; if it
    -- fails, the index still has no gaps.
    pub apply_height-Hoare :
        (n : ℕ)
        → n < 2 ^ 31
        → Hoare
            (IsNext n)
            (apply_height env has_times has_heights decode blake3 sha256 n)
            (Applied n)
    unfolding apply_height
    apply_height-Hoare n small =
        Hoare->>= (IsNext n) (λ _. IsNext n) (Applied n) (ask env (λ e. e.block_hash n))
          (apply_at env has_times has_heights decode blake3 sha256 n)
          (Hoare-ask env (IsNext n) (λ e. e.block_hash n) (IsNext-Keeps n))
          (λ hash. apply_at-Hoare n hash small)
