-- ===== src/Store/State/Heights.antt =====
-- SetMainHeight of internal/store/tx.go against the chain in the database.
use drivechain_esplora.Base.{
  ℕ, ◌≡◌, refl, sym, ap, ◌∙◌, false, some, List, [], ◌∷◌, map, ◌==◌, any, find?, All, arith,
  Bool-cases, inl, inr,
}
use drivechain_esplora.Store.Tables.{after, BlockRow, TxRow, Db}
use drivechain_esplora.Store.State.{set_main_height, with_main_height}
use drivechain_esplora.Store.Write.Restore.{HasBlock}
use drivechain_esplora.Store.Write.Gapless.{IsGapless, IsFresh}

some_eq : {r row : BlockRow} → some r ≡ some row → r ≡ row
some_eq e = cc

module _ (height main : ℕ) where
  same_height : (r : BlockRow) → (with_main_height height main r).height ≡ r.height
  same_height r = elim (Bool-cases (r.height == height)) [ inl e ↦ rw e | inr e ↦ rw e ]

  same_hash : (r : BlockRow) → (with_main_height height main r).hash ≡ r.hash
  same_hash r = elim (Bool-cases (r.height == height)) [ inl e ↦ rw e | inr e ↦ rw e ]

  any_same :
      (k : ℕ) (rows : List BlockRow)
      → any (λ r. r.height == k) (map (with_main_height height main) rows)
        ≡ any (λ r. r.height == k) rows
  any_same k [] = refl
  any_same k (r ∷ rows) = rw (same_height r, any_same k rows) refl

  find?_same :
      (k : ℕ) (rows : List BlockRow) (row : BlockRow)
      → find? (λ r. r.height == k) rows ≡ some row
      → find? (λ r. r.height == k) (map (with_main_height height main) rows)
        ≡ some (with_main_height height main row)
  find?_same k [] row e = absurd (ground arith)
  find?_same k (r ∷ rows) row e = elim (Bool-cases (r.height == k)) [
    | inl hit ↦
        rw (same_height r, hit)
          (ap some (ap (with_main_height height main) (some_eq (rw hit at e))))
    | inr miss ↦ rw (same_height r, miss) (find?_same k rows row (rw miss at e))
  ]

  blocks_same :
      (h : ℕ) (rows : List BlockRow)
      → All (λ (r : BlockRow). after r.height h ≡ false) rows
      → All (λ (r : BlockRow). after r.height h ≡ false) (map (with_main_height height main) rows)
  blocks_same h [] p = tt
  blocks_same h (r ∷ rows) (e, p) = (rw (same_height r, e), blocks_same h rows p)

  txs_same :
      (blocks : List BlockRow) (txs : List TxRow)
      → All (HasBlock blocks) txs
      → All (HasBlock (map (with_main_height height main) blocks)) txs
  txs_same blocks [] p = tt
  txs_same blocks (t ∷ txs) (e, p) = (any_same t.height blocks ∙ e, txs_same blocks txs p)

  pub set_main_height-IsGapless :
      (h : ℕ) (d : Db) → IsGapless h d → IsGapless h (set_main_height height main d)
  unfolding set_main_height
  set_main_height-IsGapless h d g =
      let l = g.level in
      record {
        small = g.small;
        full = λ k le. any_same k d.blocks ∙ g.full k le;
        level = record {
          blocks = blocks_same h d.blocks l.blocks;
          txs = txs_same d.blocks d.txs l.txs;
          outputs = l.outputs;
          state = l.state;
          row = with_main_height height main l.row;
          found = find?_same h d.blocks l.row l.found;
          initialised = l.initialised;
          tip = l.tip ∙ ap (λ (x : List ℕ). some (h, x)) (sym (same_hash l.row));
        };
      }

  pub set_main_height-IsFresh : (d : Db) → IsFresh d → IsFresh (set_main_height height main d)
  unfolding set_main_height
  set_main_height-IsFresh d f = record {
    state = f.state;
    initialised = f.initialised;
    no_tip = f.no_tip;
    blocks = ap (map (with_main_height height main)) f.blocks;
    txs = f.txs;
    outputs = f.outputs;
  }
