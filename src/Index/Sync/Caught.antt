-- ===== src/Index/Sync/Caught.antt =====
-- Once of internal/index/sync.go against a node and a database that answer every call in the same way.
use drivechain_esplora.Base.{
  ℕ, zero, suc, ◌+◌, ◌-◌, ◌≤◌, ◌<◌, ◌≡◌, refl, sym, ap, ◌∙◌, subst, Bool, true, false, Option, none,
  some, List, [], ◌∷◌, Bytes, ltb, same→eq, Result, ok, err, ok-injective, arith, Bool-cases, inl,
  inr,
}
use drivechain_esplora.Chain.Hash.{Hash}
use drivechain_esplora.Chain.Node.{tip_of_count}
use drivechain_esplora.Store.Tx
use drivechain_esplora.Chain.Content.{Content}
use drivechain_esplora.Service
use drivechain_esplora.Store.Tables.{Db}
use drivechain_esplora.Store.State.{tip, tip_of, set_main_height}
use drivechain_esplora.Store.Write.Gapless.{IsGapless, IsFresh}
use drivechain_esplora.Index.World.{Env, World, read, write, ticked, get_node, get_store}
use drivechain_esplora.Index.Sync.{
  resolve_start, resolve_from, walk, go_on, walk_from, catch_up, from_count, count_blocks,
  then_store, once, main_height, set_found, backfill, backfill_row, backfill_main_heights,
  backfill_with, backfill_found, backfill_heights_per_pass, check_context,
}
use drivechain_esplora.Index.Sync.Steps.{>>=-ok, read-ok}
use drivechain_esplora.Index.Sync.Fork.{IsSteady, agree, agree_at, NoneAgrees}
use drivechain_esplora.Index.Sync.Resolve.{
  Resolved, level, forked, stale, IsGapless-tip, resolve_start_lem,
}
use drivechain_esplora.Index.Sync.Partial.{Gives, Gives->>=, Gives-read, Gives-write, Ends}
use drivechain_esplora.Index.Sync.Reach.{AtTip, walk-Gives, main_height-Gives, check_context-Gives}

-- A database as Init leaves it, or an index without gaps that shares its block 0 with the chain.
pub data Shares (chain : ℕ → Option Hash) : Db → Type 0 where
  empty : {d : Db} → IsFresh d → Shares chain d
  rooted : {h : ℕ} {d : Db} → IsGapless h d → agree_at chain d 0 ≡ true → Shares chain d

agree-some : (theirs : Option Hash) (x : Hash) → agree theirs (some x) ≡ true → theirs ≡ some x
agree-some none x e = absurd (ground arith)
agree-some (some y) x e = ap (λ (z : Hash). some z) (same→eq y x e)

module _ (chain : ℕ → Option Hash) where
  agreed-AtTip :
      (h : ℕ) (d : Db) → IsGapless h d → agree_at chain d h ≡ true → AtTip chain (h + 1) d
  agreed-AtTip h d g e =
      let (x, et, ex) = IsGapless-tip h d g in
      let up : suc h ≡ h + 1 = omega arith in
      subst (λ m. AtTip chain m d) up
        (x, agree-some (chain h) x (ap (agree (chain h)) (sym ex) ∙ e), et)

  not_stale :
      (h : ℕ) (d : Db)
      → agree_at chain d 0 ≡ true
      → agree_at chain d h ≡ false
      → NoneAgrees chain d h
      → ⊥
  not_stale zero d root bad i = ground arith
  not_stale (suc h) d root bad i = ground (arith, i 0 (omega arith))

  Resolved-AtTip :
      (h : ℕ) (d : Db) (p : Result ℕ × World)
      → IsGapless h d
      → agree_at chain d 0 ≡ true
      → Resolved chain h d p
      → Ends (AtTip chain) p
  Resolved-AtTip h d _ g root (level e ed) =
      subst (AtTip chain (h + 1)) (sym ed) (agreed-AtTip h d g e)
  Resolved-AtTip h d _ g root (forked {w = w} f bad i ed gf e) = agreed-AtTip f w.db gf e
  Resolved-AtTip h d _ g root (stale bad i ed g0 e) = absurd (not_stale h d root bad i)

  kept-AtTip :
      (n height main : ℕ) (d : Db) → AtTip chain n d → AtTip chain n (set_main_height height main d)
  unfolding set_main_height tip
  kept-AtTip zero height main d i = i
  kept-AtTip (suc n) height main d i = i

module _ (env : ℕ → Env) (has_times has_heights : Bool) (chain : ℕ → Option Hash)
    (steady : IsSteady env chain) where
  resolve_start-Gives : Gives (Shares chain) (resolve_start env has_times has_heights) (AtTip chain)
  unfolding resolve_start tip
  resolve_start-Gives w (rooted {h = h} g root) =
      Resolved-AtTip chain h w.db (resolve_start env has_times has_heights w) g root
        (resolve_start_lem env has_times has_heights chain steady h w g)
  resolve_start-Gives w (empty f) =
      let none_yet : tip w.db ≡ none = ap tip_of f.initialised ∙ f.no_tip in
      let e : resolve_start env has_times has_heights w ≡ (ok 0, ticked w) =
        >>=-ok (read env tip) (resolve_from env has_times has_heights) w (ticked w) none
          (read-ok env tip w (steady.database w.clock) ∙ ap (λ t. (ok t, ticked w)) none_yet) in
      subst (Ends (AtTip chain)) (sym e) (f.state, f.initialised)

  module _ (decode : Bytes → Result Content) (blake3 sha256 : Bytes → Bytes) where
    set_found-Gives :
        (n height : ℕ) (found : Option ℕ)
        → Gives
            (AtTip chain n)
            (set_found env has_times has_heights decode blake3 sha256 height found)
            (λ _. AtTip chain n)
    set_found-Gives n height none = λ w i. i
    set_found-Gives n height (some main) =
        Gives->>= (AtTip chain n) (λ _. AtTip chain n) (λ _. AtTip chain n)
          (write env (λ d. ok (set_main_height height main d)))
          (λ _. check_context env has_times has_heights)
          (Gives-write env (AtTip chain n) (AtTip chain n) (λ d. ok (set_main_height height main d))
            (λ d d' i e.
              subst (AtTip chain n) (ok-injective e) (kept-AtTip chain n height main d i)))
          (λ _. check_context-Gives env has_times has_heights chain steady (AtTip chain n))

    backfill-Gives :
        (n : ℕ) (rows : List Tx.BlockRow)
        → Gives
            (AtTip chain n)
            (backfill env has_times has_heights decode blake3 sha256 rows)
            (λ _. AtTip chain n)
    unfolding backfill
    backfill-Gives n [] = λ w i. i
    backfill-Gives n (r ∷ rows) =
        let P = AtTip chain n in
        Gives->>= P (λ _. P) (λ _. P)
          (backfill_row env has_times has_heights decode blake3 sha256 r)
          (λ _. backfill env has_times has_heights decode blake3 sha256 rows)
          (Gives->>= P (λ _. P) (λ _. P) (main_height env has_times has_heights r.main_hash)
            (set_found env has_times has_heights decode blake3 sha256 r.height)
            (main_height-Gives env has_times has_heights chain steady P r.main_hash has_heights)
            (set_found-Gives n r.height))
          (λ _. backfill-Gives n rows)

    backfill_found-Gives :
        (n : ℕ) (found : Result (List Tx.BlockRow))
        → Gives
            (AtTip chain n)
            (backfill_found env has_times has_heights decode blake3 sha256 found)
            (λ _. AtTip chain n)
    backfill_found-Gives n (ok rows) = backfill-Gives n rows
    backfill_found-Gives n (err e) = λ w i. tt

    backfill_with-Gives :
        (n : ℕ) (on : Bool)
        → Gives
            (AtTip chain n)
            (backfill_with env has_times has_heights decode blake3 sha256 on)
            (λ _. AtTip chain n)
    backfill_with-Gives n false = λ w i. i
    backfill_with-Gives n true =
        Gives->>= (AtTip chain n) (λ _ d. AtTip chain n d × _) (λ _. AtTip chain n)
          (read env (Tx.blocks_missing_main_height backfill_heights_per_pass))
          (backfill_found env has_times has_heights decode blake3 sha256)
          (Gives-read env (AtTip chain n) (Tx.blocks_missing_main_height backfill_heights_per_pass))
          (λ found w p. backfill_found-Gives n found w p.0)

    go_on-Gives :
        (n : ℕ) (more : Bool)
        → Gives
            (λ d. (more ≡ true) × AtTip chain n d)
            (go_on env has_times has_heights decode blake3 sha256 more)
            (λ _. AtTip chain n)
    unfolding backfill_main_heights
    go_on-Gives n false = λ w p. p.1
    go_on-Gives n true = λ w p. backfill_with-Gives n has_heights w p.1

    module _ (count : ℕ) (counted : (t : ℕ) → (env t).block_count ≡ ok count)
        (some_block : 0 < count) (held : (k : ℕ) → k < count → (x : Hash) × (chain k ≡ some x))
        (ends : (k : ℕ) → count ≤ k → chain k ≡ none) where
      within : (n : ℕ) (d : Db) → AtTip chain n d → n ≤ count
      within zero d i = omega arith
      within (suc k) d (x, e, _) = elim (Bool-cases (ltb k count)) [
        | inl lt ↦ ground arith
        | inr ge ↦ absurd (ground (arith, ends k (ground arith)))
      ]

      walk_from-Gives :
          (tip : ℕ)
          → count ≡ suc tip
          → (next : ℕ)
          → Gives
              (AtTip chain next)
              (walk_from env has_times has_heights decode blake3 sha256 tip next)
              (λ _. AtTip chain count)
      walk_from-Gives tip top next w i =
          let le = within next w.db i in
          let whole : next + (tip + 1 - next) ≡ count = omega (arith, le, top) in
          Gives->>= (AtTip chain next) (λ b d. (b ≡ true) × AtTip chain count d)
            (λ _. AtTip chain count)
            (walk env has_times has_heights decode blake3 sha256 (tip + 1 - next) next)
            (go_on env has_times has_heights decode blake3 sha256)
            (subst
              (λ m.
                Gives (AtTip chain next)
                  (walk env has_times has_heights decode blake3 sha256 (tip + 1 - next) next)
                  (λ b d. (b ≡ true) × AtTip chain m d))
              whole
              (walk-Gives env has_times has_heights chain steady decode blake3 sha256
                (tip + 1 - next) next (λ k lt. held k (omega (arith, lt, whole)))))
            (go_on-Gives count) w i

      catch_up-Gives :
          Gives
            (Shares chain)
            (catch_up env has_times has_heights decode blake3 sha256 (tip_of_count count))
            (λ _. AtTip chain count)
      catch_up-Gives = counts count refl
        where
          counts :
              (c : ℕ)
              → count ≡ c
              → Gives
                  (Shares chain)
                  (catch_up env has_times has_heights decode blake3 sha256 (tip_of_count c))
                  (λ _. AtTip chain count)
          counts zero none_counted = absurd (omega (arith, none_counted, some_block))
          counts (suc tip) top =
              Gives->>= (Shares chain) (AtTip chain) (λ _. AtTip chain count)
                (resolve_start env has_times has_heights)
                (walk_from env has_times has_heights decode blake3 sha256 tip) resolve_start-Gives
                (walk_from-Gives tip top)

      count_blocks-Gives :
          Gives
            (Shares chain)
            (count_blocks env has_times has_heights decode blake3 sha256)
            (λ _. AtTip chain count)
      count_blocks-Gives w i =
          subst (Ends (λ _. AtTip chain count))
            (ap
              (λ (r : Result ℕ).
                from_count env has_times has_heights decode blake3 sha256 (r, ticked w))
              (sym (counted w.clock)))
            (catch_up-Gives (ticked w) i)

      connected :
          {A : Type 0} (r : Result A) (w : World)
          → Shares chain w.db
          → Ends (λ (_ : A). Shares chain) (r, w)
      connected (ok a) w i = i
      connected (err e) w i = tt

      once-Gives :
          Gives
            (Shares chain)
            (once env has_times has_heights decode blake3 sha256)
            (λ _. AtTip chain count)
      unfolding once
      once-Gives =
          Gives->>= (Shares chain) (λ _. Shares chain) (λ _. AtTip chain count) (get_node env)
            (λ _. then_store env has_times has_heights decode blake3 sha256)
            (λ w i.
              connected (Service.get (env w.clock).connect_node w.nodes).0
                (record (ticked w) { nodes = (Service.get (env w.clock).connect_node w.nodes).1 })
                i)
            (λ _.
              Gives->>= (Shares chain) (λ _. Shares chain) (λ _. AtTip chain count) (get_store env)
                (λ _. count_blocks env has_times has_heights decode blake3 sha256)
                (λ w i.
                  connected (Service.get (env w.clock).connect_store w.stores).0
                    (record (ticked w) {
                      stores = (Service.get (env w.clock).connect_store w.stores).1;
                    })
                    i)
                (λ _. count_blocks-Gives))

      reached :
          (n : ℕ) (d : Db)
          → 0 < n
          → AtTip chain n d
          → (x : Hash) × (chain (n - 1) ≡ some x) × (tip d ≡ some (n - 1, x))
      reached zero d lt i = absurd (omega (arith, lt))
      reached (suc k) d lt i =
          let down : k ≡ suc k - 1 = omega arith in
          subst (λ m. (x : Hash) × (chain m ≡ some x) × (tip d ≡ some (m, x))) down i

      -- Against a node and a database that answer every call in the same way, where the node counts
      -- its blocks, at least one, and holds one at every height below the count and none from there
      -- on, a pass that succeeds leaves the tip of the index at the node's tip, with its hash,
      -- whatever the index held before, if it was fresh or an index without gaps with the node's
      -- block 0.
      pub once_caught_up :
          (w w' : World)
          → Shares chain w.db
          → once env has_times has_heights decode blake3 sha256 w ≡ (ok tt, w')
          → (x : Hash) × (chain (count - 1) ≡ some x) × (tip w'.db ≡ some (count - 1, x))
      once_caught_up w w' i e =
          reached count w'.db some_block (subst (Ends (λ _. AtTip chain count)) e (once-Gives w i))
