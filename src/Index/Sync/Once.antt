-- ===== src/Index/Sync/Once.antt =====
-- The walk, the backfill and Syncer.Once of internal/index/sync.go, against any answers of the outside.
use drivechain_esplora.Base.{
  ℕ, zero, suc, ◌+◌, ◌-◌, ◌≤◌, ◌<◌, ◌^◌, ◌≡◌, refl, Bool, true, false, Option, none, some, List, [],
  ◌∷◌, Bytes, Result, ok, err, arith, subst, ok-injective,
}
use drivechain_esplora.Chain.Node.{tip_of_count}
use drivechain_esplora.Store.Tx
use drivechain_esplora.Chain.Content.{Content}
use drivechain_esplora.Service
use drivechain_esplora.Service.{Service}
use drivechain_esplora.Store.State.{set_main_height}
use drivechain_esplora.Index.World.{Env, World, M, read, write, ticked, get_node, get_store}
use drivechain_esplora.Index.Sync.{
  resolve_start, main_height, backfill_with, backfill_found, check_context, apply_height, walk,
  walk_on, set_found, backfill, backfill_row, backfill_main_heights, backfill_heights_per_pass,
  go_on, walk_from, catch_up, from_count, count_blocks, then_store, once,
}
use drivechain_esplora.Index.Sync.Pass.{resolve_start-IsNext}
use drivechain_esplora.Index.Sync.Invariant.{
  IsNext, IsIndexed, Outcome, Hoare, Hoare->>=, Hoare-query, Hoare-write, Keeps,
}
use drivechain_esplora.Index.Sync.Apply.{
  IsNext-Keeps, Applied, apply_height-Hoare, main_height-Hoare, check_context-Hoare,
  set_main_height-IsNext,
}

indexed-Keeps : Keeps IsIndexed
indexed-Keeps d i = i

module _ (env : ℕ → Env) (has_times has_heights : Bool) (decode : Bytes → Result Content)
    (blake3 sha256 : Bytes → Bytes) where
  walk_on-Hoare :
      (n : ℕ) (rest : M Bool)
      → Hoare (IsNext (n + 1)) rest (λ _. IsIndexed)
      → (applied : Bool)
      → Hoare
          (Applied n applied)
          (walk_on env has_times has_heights decode blake3 sha256 rest applied)
          (λ _. IsIndexed)
  walk_on-Hoare n rest kept false = λ w i. i
  walk_on-Hoare n rest kept true =
      Hoare->>= (IsNext (n + 1)) (λ _. IsNext (n + 1)) (λ _. IsIndexed)
        (check_context env has_times has_heights) (λ _. rest)
        (check_context-Hoare env has_times has_heights (IsNext (n + 1)) (IsNext-Keeps (n + 1)))
        (λ _. kept)

  walk-Hoare :
      (rounds n : ℕ)
      → ((k : ℕ) → k < rounds → n + k < 2 ^ 31)
      → Hoare
          (IsNext n)
          (walk env has_times has_heights decode blake3 sha256 rounds n)
          (λ _. IsIndexed)
  unfolding walk
  walk-Hoare zero n small = λ w i. (n, i)
  walk-Hoare (suc rounds) n small =
      Hoare->>= (IsNext n) (Applied n) (λ _. IsIndexed)
        (apply_height env has_times has_heights decode blake3 sha256 n)
        (walk_on env has_times has_heights decode blake3 sha256
          (walk env has_times has_heights decode blake3 sha256 rounds (n + 1)))
        (apply_height-Hoare env has_times has_heights decode blake3 sha256 n
          (omega (arith, small 0 (omega arith))))
        (walk_on-Hoare n (walk env has_times has_heights decode blake3 sha256 rounds (n + 1))
          (walk-Hoare rounds (n + 1) (λ k lt. omega (arith, small (k + 1) (omega (arith, lt))))))

  set_found-Hoare :
      (height : ℕ) (found : Option ℕ)
      → Hoare IsIndexed
          (set_found env has_times has_heights decode blake3 sha256 height found)
          (λ _. IsIndexed)
  set_found-Hoare height none = λ w i. i
  set_found-Hoare height (some main) =
      Hoare->>= IsIndexed (λ _. IsIndexed) (λ _. IsIndexed)
        (write env (λ d. ok (set_main_height height main d)))
        (λ _. check_context env has_times has_heights)
        (Hoare-write env IsIndexed IsIndexed (λ d. ok (set_main_height height main d)) indexed-Keeps
          (λ d d' i e.
            subst IsIndexed (ok-injective e) (i.0, set_main_height-IsNext height main i.0 d i.1)))
        (λ _. check_context-Hoare env has_times has_heights IsIndexed indexed-Keeps)

  backfill-Hoare :
      (rows : List Tx.BlockRow)
      → Hoare IsIndexed
          (backfill env has_times has_heights decode blake3 sha256 rows)
          (λ _. IsIndexed)
  unfolding backfill
  backfill-Hoare [] = λ w i. i
  backfill-Hoare (r ∷ rows) =
      Hoare->>= IsIndexed (λ _. IsIndexed) (λ _. IsIndexed)
        (backfill_row env has_times has_heights decode blake3 sha256 r)
        (λ _. backfill env has_times has_heights decode blake3 sha256 rows)
        (Hoare->>= IsIndexed (λ _. IsIndexed) (λ _. IsIndexed)
          (main_height env has_times has_heights r.main_hash)
          (set_found env has_times has_heights decode blake3 sha256 r.height)
          (main_height-Hoare env has_times has_heights IsIndexed r.main_hash indexed-Keeps
            has_heights)
          (set_found-Hoare r.height))
        (λ _. backfill-Hoare rows)

  backfill_found-Hoare :
      (found : Result (List Tx.BlockRow))
      → Hoare IsIndexed
          (backfill_found env has_times has_heights decode blake3 sha256 found)
          (λ _. IsIndexed)
  backfill_found-Hoare (ok rows) = backfill-Hoare rows
  backfill_found-Hoare (err e) = λ w i. i

  backfill_with-Hoare :
      (on : Bool)
      → Hoare IsIndexed
          (backfill_with env has_times has_heights decode blake3 sha256 on)
          (λ _. IsIndexed)
  backfill_with-Hoare false = λ w i. i
  backfill_with-Hoare true =
      Hoare->>= IsIndexed (λ _. IsIndexed) (λ _. IsIndexed)
        (read env (Tx.blocks_missing_main_height backfill_heights_per_pass))
        (backfill_found env has_times has_heights decode blake3 sha256)
        (Hoare-query env IsIndexed (Tx.blocks_missing_main_height backfill_heights_per_pass)
          indexed-Keeps)
        backfill_found-Hoare

  go_on-Hoare :
      (more : Bool)
      → Hoare IsIndexed (go_on env has_times has_heights decode blake3 sha256 more) (λ _. IsIndexed)
  unfolding backfill_main_heights
  go_on-Hoare false = λ w i. i
  go_on-Hoare true = backfill_with-Hoare has_heights

  catch_up-Hoare :
      (count : ℕ)
      → count ≤ 2 ^ 31
      → Hoare IsIndexed
          (catch_up env has_times has_heights decode blake3 sha256 (tip_of_count count))
          (λ _. IsIndexed)
  catch_up-Hoare zero small = λ w i. i
  catch_up-Hoare (suc tip) small =
      Hoare->>= IsIndexed IsNext (λ _. IsIndexed) (resolve_start env has_times has_heights)
        (walk_from env has_times has_heights decode blake3 sha256 tip)
        (resolve_start-IsNext env has_times has_heights)
        (λ next.
          Hoare->>= (IsNext next) (λ _. IsIndexed) (λ _. IsIndexed)
            (walk env has_times has_heights decode blake3 sha256 (tip + 1 - next) next)
            (go_on env has_times has_heights decode blake3 sha256)
            (walk-Hoare (tip + 1 - next) next (λ k lt. omega (arith, lt, small))) go_on-Hoare)

  module _ (small : (t c : ℕ) → (env t).block_count ≡ ok c → c ≤ 2 ^ 31) where
    count_blocks-Hoare :
        Hoare IsIndexed
          (count_blocks env has_times has_heights decode blake3 sha256)
          (λ _. IsIndexed)
    count_blocks-Hoare w i = counted (env w.clock).block_count refl
      where
        counted :
            (r : Result ℕ)
            → (env w.clock).block_count ≡ r
            → Outcome
                (λ _. IsIndexed)
                (from_count env has_times has_heights decode blake3 sha256 (r, ticked w))
        counted (ok c) e = catch_up-Hoare c (small w.clock c e) (ticked w) i
        counted (err x) e = i

    connected :
        {A : Type 0} (r : Result A) (w : World)
        → IsIndexed w.db
        → Outcome (λ (_ : A). IsIndexed) (r, w)
    connected (ok a) w i = i
    connected (err e) w i = i

    then_store-Hoare :
        Hoare IsIndexed (then_store env has_times has_heights decode blake3 sha256) (λ _. IsIndexed)
    then_store-Hoare =
        Hoare->>= IsIndexed (λ _. IsIndexed) (λ _. IsIndexed) (get_store env)
          (λ _. count_blocks env has_times has_heights decode blake3 sha256)
          (λ w i.
            connected (Service.get (env w.clock).connect_store w.stores).0
              (record (ticked w) { stores = (Service.get (env w.clock).connect_store w.stores).1 })
              i)
          (λ _. count_blocks-Hoare)

    -- A pass keeps the index without gaps: whatever the node, the database, the enforcer and the
    -- context answer at each call, as long as the node counts at most 2 ^ 31 blocks, a database
    -- that was fresh or an index without gaps in front of Once is one behind it, whether Once
    -- succeeded or failed on the way.
    pub once-IsIndexed :
        (w : World)
        → IsIndexed w.db
        → IsIndexed (once env has_times has_heights decode blake3 sha256 w).1.db
    unfolding once
    once-IsIndexed w i = finished (once env has_times has_heights decode blake3 sha256 w) (
        Hoare->>= IsIndexed (λ _. IsIndexed) (λ _. IsIndexed) (get_node env)
          (λ _. then_store env has_times has_heights decode blake3 sha256)
          (λ w i.
            connected (Service.get (env w.clock).connect_node w.nodes).0
              (record (ticked w) { nodes = (Service.get (env w.clock).connect_node w.nodes).1 }) i)
          (λ _. then_store-Hoare) w i)
      where
        finished : (p : Result (Unit {0}) × World) → Outcome (λ _. IsIndexed) p → IsIndexed p.1.db
        finished (ok a, w) q = q
        finished (err e, w) q = q
