-- ===== src/Store/Write/Restore.antt =====
-- Rollback of internal/store/write.go against one Apply.
use mathlib.Core.List.{map-append}
use drivechain_esplora.Base.{
  ℕ, ◌≡◌, ◌≢◌, refl, sym, ap, ap₂, ◌∙◌, Bool, true, false, not, Option, none, some, List, [], ◌∷◌,
  ◌++◌, map, ◌==◌, if◌then◌else◌, keep, discard, any, All, any-append, keep-append, arith,
  append-nil, Bool-cases, Option-cases, inl, inr,
}
use drivechain_esplora.Chain.Hash.{Hash}
use drivechain_esplora.Store.Tables.{after, BlockRow, TxRow, OutputRow, SyncState, Db, Spend, Block}
use drivechain_esplora.Store.Write.Rows.{IsNew, Wrote}
use drivechain_esplora.Store.Write.{spend_of, mark, is_hit, with_fee, with_tip, unspend, rollback}

-- The outputs that a rollback to `h` leaves.
abbrev pub restrict : ℕ → List OutputRow → List OutputRow
restrict h rows = discard (λ r. after r.height h) (map (unspend h) rows)

abbrev restrict_step : ℕ → OutputRow → List OutputRow → List OutputRow
restrict_step h r rest = if not (after r.height h) then r ∷ rest else rest

-- The spends of a block at `height` hit only rows that nothing has spent.
abbrev pub SpendsUnspent : List Spend → List OutputRow → Type 0
SpendsUnspent spends rows = All (λ r. is_hit spends r ≡ true → r.spent ≡ none) rows

spend_of-is_hit :
    (spends : List Spend) (r : OutputRow) (s : Spend)
    → spend_of spends r ≡ some s
    → is_hit spends r ≡ true
spend_of-is_hit [] r s e = cc
spend_of-is_hit (x ∷ spends) r s e = ground (arith, spend_of-is_hit spends r s)

module _ (h height : ℕ) (above : after height h ≡ true) (spends : List Spend) where
  unspend-mark :
      (r : OutputRow)
      → (is_hit spends r ≡ true → r.spent ≡ none)
      → unspend h (mark height spends r) ≡ unspend h r
  unspend-mark r free = elim (Option-cases (spend_of spends r)) [
    | inl miss ↦ rw miss
    | inr (s, e) ↦ rw (e, above, free (spend_of-is_hit spends r s e)) refl
  ]

  restrict-mark_new :
      (new : List OutputRow)
      → All (IsNew height) new
      → restrict h (map (mark height spends) new) ≡ []
  restrict-mark_new [] hn = refl
  restrict-mark_new (r ∷ new) ((eh, es), hn) = elim (Option-cases (spend_of spends r)) [
    | inl miss ↦ rw (miss, eh, above) (restrict-mark_new new hn)
    | inr (s, e) ↦ rw (e, eh, above) (restrict-mark_new new hn)
  ]

  restrict-mark :
      (rows new : List OutputRow)
      → SpendsUnspent spends rows
      → All (IsNew height) new
      → restrict h (map (mark height spends) (rows ++ new)) ≡ restrict h rows
  restrict-mark [] new free hn = restrict-mark_new new hn
  restrict-mark (r ∷ rows) new (f, free) hn =
      ap₂ (restrict_step h) (unspend-mark r f) (restrict-mark rows new free hn)

abbrev pub cascade : List BlockRow → List TxRow → List TxRow
cascade gone txs = discard (λ t. any (λ r. r.height == t.height) gone) txs

-- Every transaction stands in a block: the foreign key of `txs`.
abbrev pub HasBlock : List BlockRow → TxRow → Type 0
HasBlock blocks t = any (λ r. r.height == t.height) blocks ≡ true

abbrev pub gone_above : ℕ → List BlockRow → List BlockRow
gone_above h blocks = keep (λ r. after r.height h) blocks

false_ne_true : {b : Bool} → b ≡ true → b ≡ false → ⊥
false_ne_true p q = cc

module _ (b : BlockRow) where
  -- A block of a new height takes no old transaction with it.
  cascade_old :
      (gone blocks : List BlockRow) (txs : List TxRow)
      → any (λ r. r.height == b.height) blocks ≡ false
      → All (HasBlock blocks) txs
      → (fees : TxRow → TxRow) → ((t : TxRow) → t.height ≢ b.height → fees t ≡ t)
      → cascade (gone ++ (b ∷ [])) (map fees txs) ≡ cascade gone txs
  cascade_old gone blocks [] fresh hb fees hf = refl
  cascade_old gone blocks (t ∷ txs) fresh (ht, hb) fees hf =
      let ne : t.height ≢ b.height = λ e. (false_ne_true (rw e at ht) fresh) in
      rw (hf t ne, any-append (λ r. r.height == t.height) gone (b ∷ []))
        (ground (arith, cascade_old gone blocks txs fresh hb fees hf))

  cascade_new :
      (gone : List BlockRow) (new : List TxRow) (fees : TxRow → TxRow)
      → ((t : TxRow) → (fees t).height ≡ t.height)
      → All (λ t. t.height ≡ b.height) new
      → cascade (gone ++ (b ∷ [])) (map fees new) ≡ []
  cascade_new gone [] fees hf hn = refl
  cascade_new gone (t ∷ new) fees hf (ht, hn) =
      rw (hf t, any-append (λ r. r.height == t.height) gone (b ∷ []))
        (ground (arith, cascade_new gone new fees hf hn))

with_fee_other :
    (rows : List OutputRow) (height : ℕ) (t : TxRow)
    → t.height ≢ height
    → with_fee rows height t ≡ t
with_fee_other rows height t ne = ground arith

with_fee_height :
    (rows : List OutputRow) (height : ℕ) (t : TxRow) → (with_fee rows height t).height ≡ t.height
with_fee_height rows height t = elim (Bool-cases (t.height == height)) [
  | inl e ↦ rw e
  | inr e ↦ rw e
]

with_tip-with_tip :
    (p q : Option (ℕ × Hash)) (s : Option SyncState) → with_tip p (with_tip q s) ≡ with_tip p s
with_tip-with_tip p q none = refl
with_tip-with_tip p q (some s) = refl

-- Two databases hold the same chain: all but the mempool snapshot.
pub record SameChain (d e : Db) : Type 0 where
  pub blocks : d.blocks ≡ e.blocks
  pub txs : d.txs ≡ e.txs
  pub outputs : d.outputs ≡ e.outputs
  pub sync_state : d.sync_state ≡ e.sync_state

module _ (h : ℕ) (b : Block) (d d' : Db) (w : Wrote b d d') (above : after b.height h ≡ true) where
  row_above : after w.row.height h ≡ true
  row_above = rw w.row_height above

  gone_lem : gone_above h d'.blocks ≡ gone_above h d.blocks ++ (w.row ∷ [])
  gone_lem =
      rw (w.blocks, keep-append (λ r. after r.height h) d.blocks (w.row ∷ []), row_above) refl

  kept_lem : discard (λ r. after r.height h) d'.blocks ≡ discard (λ r. after r.height h) d.blocks
  kept_lem =
      rw (w.blocks, keep-append (λ r. not (after r.height h)) d.blocks (w.row ∷ []), row_above)
        (append-nil _)

  txs_lem :
      All (HasBlock d.blocks) d.txs
      → cascade (gone_above h d'.blocks) d'.txs ≡ cascade (gone_above h d.blocks) d.txs
  txs_lem placed =
      let fees = with_fee d'.outputs b.height in
      let gone = gone_above h d.blocks in
      let other : (t : TxRow) → t.height ≢ w.row.height → fees t ≡ t =
        λ t ne. with_fee_other d'.outputs b.height t (λ e. ne (e ∙ sym w.row_height)) in
      let fresh : any (λ r. r.height == w.row.height) d.blocks ≡ false =
        rw w.row_height w.new_height in
      let recent : All (λ (t : TxRow). t.height ≡ w.row.height) w.new_txs =
        rw w.row_height w.txs_new in
      rw (gone_lem, w.txs, map-append fees d.txs w.new_txs)
        (keep-append _ (map fees d.txs) (map fees w.new_txs)
          ∙ ap₂ (λ (x y : List TxRow). x ++ y)
              (cascade_old w.row gone d.blocks d.txs fresh placed fees other)
              (cascade_new w.row gone w.new_txs fees (with_fee_height d'.outputs b.height) recent)
          ∙ append-nil _)

  -- A rollback below a block leaves what it leaves of the database in front of the block.
  pub rollback-Wrote :
      All (HasBlock d.blocks) d.txs
      → SpendsUnspent b.spends d.outputs
      → SameChain (rollback h d') (rollback h d)
  unfolding rollback
  rollback-Wrote placed unspent = record {
    blocks = kept_lem;
    txs = txs_lem placed;
    outputs =
        ap (restrict h) w.outputs
        ∙ restrict-mark h b.height above b.spends d.outputs w.new_outputs unspent w.outputs_new;
    sync_state = rw (kept_lem, w.sync_state) (with_tip-with_tip _ _ d.sync_state);
  }
