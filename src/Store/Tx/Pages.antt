-- ===== src/Store/Tx/Pages.antt =====
-- Blocks of internal/store/tx.go on a database that holds a chain.
use drivechain_esplora.Base.{
  ℕ, zero, suc, ◌+◌, ◌≤◌, ◌<◌, ◌^◌, ◌≡◌, refl, sym, ap, ◌∙◌, subst, Bool, true, false, some, List,
  [], ◌∷◌, map, ◌==◌, ltb, any, find?, keep, take, length, get_elem?, min, All, All-mono, sort_by,
  insert_by, All-insert_by, All-sort_by, any-sort_by, Result, ok, >>=-eq-ok, ok-injective,
  traverse_from-Rows, map-Rows, All-Rows, All-zip, All-take, All-keep, All-kept, any-kept,
  find?-any, map-take, map_from-map, Bool-cases, inl, inr, arith,
}
use drivechain_esplora.Chain.Hash.{Hash}
use drivechain_esplora.Store.Tables.{after, up_to, to_int32, BlockRow as StoredBlock, Db}
use drivechain_esplora.Store.State.{hash_at, hash_of}
use drivechain_esplora.Store.Write.Keyed.{Keyed, Keyed-keep}
use drivechain_esplora.Store.Write.Refine.{Holds, hash_of-some, get_elem?-some, get_elem?-end}
use drivechain_esplora.Store.Read.{fits}
use drivechain_esplora.Store.Tx.{BlockRow, block_fees, block_value, scan_block, page_of, blocks}

-- Each row is above the rows behind it.
abbrev pub Descends : List StoredBlock → Type 0
Descends [] = Unit
Descends (r ∷ rs) = All (λ (x : StoredBlock). x.height < r.height) rs × Descends rs

-- The numbers below `n`, downwards.
abbrev pub down_from : ℕ → List ℕ
down_from zero = []
down_from (suc n) = n ∷ down_from n

abbrev higher : StoredBlock → StoredBlock → Bool
higher a b = after a.height b.height

Small : StoredBlock → Type 0
Small r = r.height < 2 ^ 31

insert_by-Descends :
    (x : StoredBlock) (ys : List StoredBlock)
    → Small x
    → All Small ys
    → any (λ (y : StoredBlock). y.height == x.height) ys ≡ false
    → Descends ys
    → Descends (insert_by higher x ys)
unfolding insert_by Small
insert_by-Descends x [] sx ss new ds = (tt, tt)
insert_by-Descends x (y ∷ ys) sx (sy, ss) new (d, ds) = elim (Bool-cases (higher y x)) [
  | inl above ↦ rw above (
    All-insert_by higher (λ z. z.height < y.height) x ys (ground arith) d,
    insert_by-Descends x ys sx ss (ground arith) ds,
  )
  | inr below ↦
      let lt : y.height < x.height = ground arith in
      rw below (
        (
          lt,
          All-mono (λ z. z.height < y.height) (λ z. z.height < x.height)
              (λ z e. omega (arith, e, lt)) ys d,
        ),
        (d, ds),
      )
]

sort_by-Descends :
    (rows : List StoredBlock) → All Small rows → Keyed rows → Descends (sort_by higher rows)
unfolding sort_by
sort_by-Descends [] ss ks = tt
sort_by-Descends (r ∷ rows) (s, ss) (k, ks) =
    insert_by-Descends r (sort_by higher rows) s (All-sort_by higher Small rows ss)
      (any-sort_by higher (λ (y : StoredBlock). y.height == r.height) rows ∙ k)
      (sort_by-Descends rows ss ks)

below_all :
    (b k : ℕ) (rows : List StoredBlock)
    → All (λ (x : StoredBlock). x.height < b) rows
    → any (λ (x : StoredBlock). x.height == k) rows ≡ true
    → k < b
below_all b k [] a e = absurd (ground arith)
below_all b k (r ∷ rows) (p, a) e = elim (Bool-cases (r.height == k)) [
  | inl hit ↦ ground arith
  | inr miss ↦ below_all b k rows a (rw miss at e)
]

-- Rows in a falling order that cover the numbers below `n` are at these heights.
Descends-down_from :
    (n : ℕ) (rows : List StoredBlock)
    → Descends rows
    → All (λ (x : StoredBlock). x.height < n) rows
    → ((k : ℕ) → k < n → any (λ (x : StoredBlock). x.height == k) rows ≡ true)
    → map (λ (x : StoredBlock). x.height) rows ≡ down_from n
Descends-down_from zero [] d a full = refl
Descends-down_from zero (r ∷ rows) d (p, a) full = absurd (omega (arith, p))
Descends-down_from (suc n) [] d a full = absurd (ground (arith, full n (omega arith)))
Descends-down_from (suc n) (r ∷ rows) (lower, d) (p, a) full =
    let top : r.height ≡ n = elim (Bool-cases (r.height == n)) [
      | inl hit ↦ ground arith
      | inr miss ↦
          absurd (
            omega
              (arith, p, below_all r.height n rows lower (ground (arith, full n (omega arith)))))
    ] in
    rw top (
      ap (λ l. n ∷ l)
        (Descends-down_from n rows d
          (subst (λ b. All (λ (x : StoredBlock). x.height < b) rows) top lower)
          (λ k lt. ground (arith, full k (omega (arith, lt)), top))))

-- Each row of a keyed table is the one that its height finds.
Keyed-find? :
    (rows : List StoredBlock)
    → Keyed rows
    → All
        (λ (r : StoredBlock). find? (λ (x : StoredBlock). x.height == r.height) rows ≡ some r)
        rows
Keyed-find? [] k = tt
Keyed-find? (y ∷ rows) (k, ks) = (
  ground arith,
  All-mono _ _ (λ r (apart, e). rw apart e) rows
      (All-zip (λ (r : StoredBlock). (y.height == r.height) ≡ false) _ rows (apart y rows k)
        (Keyed-find? rows ks)),
)
  where
    apart :
        (y : StoredBlock) (rows : List StoredBlock)
        → any (λ (x : StoredBlock). x.height == y.height) rows ≡ false
        → All (λ (r : StoredBlock). (y.height == r.height) ≡ false) rows
    apart y [] e = tt
    apart y (r ∷ rows) e = (ground arith, apart y rows (ground arith))

scan_block-eq-ok :
    (d : Db) (b : StoredBlock) (r : BlockRow)
    → scan_block d b ≡ ok r
    → (r.height ≡ b.height) × (r.hash ≡ b.hash)
unfolding scan_block
scan_block-eq-ok d b r e =
    let (fees, _, e₁) = >>=-eq-ok (fits (block_fees b.height d)) _ e in
    let (value, _, e₂) = >>=-eq-ok (fits (block_value b.height d)) _ e₁ in
    let same = sym (ok-injective e₂) in
    (ap (λ (x : BlockRow). x.height) same, ap (λ (x : BlockRow). x.hash) same)

module _ (chain : List Hash) (d : Db) (i : Holds chain d) (short : length chain ≤ 2 ^ 31) where
  placed : All (λ (r : StoredBlock). get_elem? chain r.height ≡ some r.hash) d.blocks
  unfolding hash_at
  placed =
      All-mono _ _ (λ r e. sym (i.hashes r.height) ∙ ap hash_of e) d.blocks
        (Keyed-find? d.blocks i.keyed)

  bounded : All (λ (r : StoredBlock). r.height < length chain) d.blocks
  bounded = All-mono _ _ (λ r e. below r.height r.hash e) d.blocks placed
    where
      below : (k : ℕ) (h : Hash) → get_elem? chain k ≡ some h → k < length chain
      below k h e = elim (Bool-cases (ltb k (length chain))) [
        | inl lt ↦ ground arith
        | inr ge ↦ absurd (ground (arith, get_elem?-end chain k (ground arith)))
      ]

  full : (k : ℕ) → k < length chain → any (λ (r : StoredBlock). r.height == k) d.blocks ≡ true
  unfolding hash_at
  full k lt =
      let (h, at) = get_elem?-some chain k lt in
      let (r, found, _) =
        hash_of-some (find? (λ (r : StoredBlock). r.height == k) d.blocks) h (i.hashes k ∙ at) in
      find?-any (λ (r : StoredBlock). r.height == k) d.blocks r found

  page_of-heights :
      (start limit : ℕ)
      → start < 2 ^ 31
      → map (λ (r : StoredBlock). r.height) (page_of start limit d)
        ≡ take limit (down_from (min (start + 1) (length chain)))
  unfolding Small
  page_of-heights start limit small =
      let chosen = λ (r : StoredBlock). up_to r.height (to_int32 start) in
      let rows = keep chosen d.blocks in
      let low = All-keep (λ (r : StoredBlock). r.height < length chain) chosen d.blocks bounded in
      let below =
        All-mono _ (λ (r : StoredBlock). r.height < min (start + 1) (length chain))
          (λ r (e, lt). ground arith) rows
          (All-zip (λ (r : StoredBlock). chosen r ≡ true) _ rows (All-kept chosen d.blocks) low) in
      map-take (λ (r : StoredBlock). r.height) limit (sort_by higher rows)
      ∙ ap (take limit) (
          Descends-down_from (min (start + 1) (length chain)) (sort_by higher rows)
            (sort_by-Descends rows (All-mono _ Small (λ r lt. omega (arith, lt, short)) rows low)
              (Keyed-keep chosen d.blocks i.keyed))
            (All-sort_by higher _ rows below)
            (λ k lt.
              any-sort_by higher (λ (x : StoredBlock). x.height == k) rows
              ∙ any-kept (λ (x : StoredBlock). x.height == k) chosen d.blocks (λ r e. ground arith)
                  (full k (omega (arith, lt)))))

  -- On tables that hold a chain of at most 2 ^ 31 blocks, a page of Blocks from a start below 2 ^
  -- 31 is the heights from the start, or from the tip if that is lower, downwards without a gap, as
  -- many as the limit allows, each with the hash that the chain has there.
  pub blocks-page :
      (start limit : ℕ) (rows : List BlockRow)
      → start < 2 ^ 31
      → blocks start limit d ≡ ok rows
      → (map (λ (r : BlockRow). r.height) rows
          ≡ take limit (down_from (min (start + 1) (length chain))))
        × All (λ (r : BlockRow). get_elem? chain r.height ≡ some r.hash) rows
  unfolding blocks
  blocks-page start limit rows small e =
      let scan : ℕ → StoredBlock → Result BlockRow = λ _ b. scan_block d b in
      let page = page_of start limit d in
      let made = traverse_from-Rows scan 0 page rows e in
      (
        map-Rows (λ (r : BlockRow). r.height) scan (λ _ b. b.height)
              (λ _ b r h. (scan_block-eq-ok d b r h).0) 0 page rows made
            ∙ map_from-map (λ (b : StoredBlock). b.height) 0 page
            ∙ page_of-heights start limit small,
        All-Rows (λ (b : StoredBlock). get_elem? chain b.height ≡ some b.hash) _ scan
            (λ _ b r h p.
              let (eh, ex) = scan_block-eq-ok d b r h in
              ap (get_elem? chain) eh ∙ p ∙ ap some (sym ex))
            0 page rows made
            (All-take _ limit _ (All-sort_by higher _ _ (All-keep _ _ d.blocks placed))),
      )
