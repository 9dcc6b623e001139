-- ===== src/Store/Write/Runs.antt =====
-- Sequences of Apply and Rollback of internal/store/write.go, and the chain that they describe.
use drivechain_esplora.Base.{
  ℕ, ◌+◌, ◌-◌, ◌≤◌, ◌<◌, ◌^◌, ◌≡◌, refl, sym, ap, ◌∙◌, Option, none, some, List, [], ◌∷◌, ◌++◌,
  Bytes, take, length, ok, arith,
}
use drivechain_esplora.Chain.Hash.{Hash}
use drivechain_esplora.Store.Tables.{Db, Block}
use drivechain_esplora.Store.State.{tip}
use drivechain_esplora.Store.Write.{apply, rollback}
use drivechain_esplora.Store.Write.Refine.{
  Holds, newest, get_elem?-some, apply-Holds, rollback-Holds,
}

-- What a caller does to the chain: the next block, or back to a height.
pub data Change : Type 0 where
  push : Hash → Change
  cut : ℕ → Change

abbrev pub changed : Change → List Hash → List Hash
changed (push h) chain = chain ++ (h ∷ [])
changed (cut f) chain = take (f + 1) chain

abbrev pub replay : List Change → List Hash → List Hash
replay [] chain = chain
replay (c ∷ cs) chain = replay cs (changed c chain)

abbrev pub next_height : Option (ℕ × Hash) → ℕ
next_height none = 0
next_height (some (h, _)) = h + 1

module _ (sha256 : Bytes → Bytes) where
  -- One call that changes the database: Apply of a block behind the tip, or Rollback to a height up to it.
  pub data Step : Change → Db → Db → Type 0 where
    applied :
        (b : Block) (d d' : Db) (n : ℕ)
        → b.height ≡ next_height (tip d)
        → apply sha256 b d ≡ ok (d', n)
        → Step (push b.hash) d d'
    rolled :
        (f h : ℕ) (x : Hash) (d : Db)
        → tip d ≡ some (h, x)
        → f ≤ h
        → h < 2 ^ 31
        → Step (cut f) d (rollback f d)

  pub data Steps : List Change → Db → Db → Type 0 where
    done : (d : Db) → Steps [] d d
    step :
        (c : Change) (cs : List Change) (d d₁ d₂ : Db)
        → Step c d d₁
        → Steps cs d₁ d₂
        → Steps (c ∷ cs) d d₂

  next_height-newest : (chain : List Hash) → next_height (newest chain) ≡ length chain
  next_height-newest [] = refl
  next_height-newest (x ∷ xs) =
      let (h, at) = get_elem?-some (x ∷ xs) (length xs) (omega arith) in
      let e : length (x ∷ xs) - 1 ≡ length xs = omega arith in rw (e, at) (omega arith)

  Step-Holds :
      (c : Change) (chain : List Hash) (d d' : Db)
      → Step c d d'
      → Holds chain d
      → Holds (changed c chain) d'
  Step-Holds _ chain d d' (applied b _ _ n eh e) i =
      apply-Holds sha256 chain b d d' n i
        (eh ∙ ap next_height i.tip_newest ∙ next_height-newest chain) e
  Step-Holds _ chain d d' (rolled f h x _ et le small) i =
      let e : h + 1 ≡ length chain =
        ap next_height (sym et ∙ i.tip_newest) ∙ next_height-newest chain in
      rollback-Holds f chain d i (omega (arith, e, le)) (omega (arith, e, small))

  -- However often Apply writes the block behind the tip and Rollback goes back to a height up to
  -- the tip, below 2 ^ 31, the tables hold the chain that the calls describe: Apply appends the
  -- hash of its block, Rollback keeps the first blocks, the hash at each height is the one in the
  -- chain, no other height has one, no height has two rows, and the tip is its last block.
  pub Steps-Holds :
      (cs : List Change) (chain : List Hash) (d d' : Db)
      → Steps cs d d'
      → Holds chain d
      → Holds (replay cs chain) d'
  Steps-Holds _ chain d d' (done _) i = i
  Steps-Holds _ chain d d' (step c cs _ d₁ _ s ss) i =
      Steps-Holds cs (changed c chain) d₁ d' ss (Step-Holds c chain d d₁ s i)
