-- ===== src/Store/Write/Level.antt =====
-- Apply of internal/store/write.go on a level index.
use mathlib.Core.List.{map-append}
use drivechain_esplora.Base.{
  ℕ, ◌≡◌, refl, sym, ◌∙◌, true, false, Option, none, some, List, [], ◌∷◌, ◌++◌, map, Bytes, ◌==◌,
  any, find?, All, All-append, ok, arith, Option-cases, inl, inr, subst,
}
use drivechain_esplora.Store.Tables.{after, BlockRow, Spent, OutputRow, Db, Spend, Block}
use drivechain_esplora.Store.Write.{spend_of, mark, apply}
use drivechain_esplora.Store.Write.Rows.{IsNew, apply-Wrote}
use drivechain_esplora.Store.Write.Reorg.{IsLevel, SpentUpTo, OutputUpTo, Wrote-HasBlock}

not_after_trans : (r h k : ℕ) → after r h ≡ false → after k h ≡ true → after r k ≡ false
not_after_trans r h k e f = ground arith

pub not_after_self : (h : ℕ) → after h h ≡ false
not_after_self h = ground arith

pub find?-append_new :
    (h : ℕ) (rows : List BlockRow) (row : BlockRow)
    → any (λ r. r.height == h) rows ≡ false
    → row.height ≡ h
    → find? (λ r. r.height == h) (rows ++ (row ∷ [])) ≡ some row
find?-append_new h [] row fresh e = ground arith
find?-append_new h (r ∷ rows) row fresh e = ground (arith, find?-append_new h rows row)

SpentUpTo-trans : (h k : ℕ) → after k h ≡ true → (x : Option Spent) → SpentUpTo h x → SpentUpTo k x
SpentUpTo-trans h k up none s = tt
SpentUpTo-trans h k up (some x) s = not_after_trans x.height h k s up

pub mark-OutputUpTo :
    (k : ℕ) (spends : List Spend) (r : OutputRow) → OutputUpTo k r → OutputUpTo k (mark k spends r)
mark-OutputUpTo k spends r (e, s) = elim (Option-cases (spend_of spends r)) [
  | inl miss ↦ rw miss (e, s)
  | inr (x, hit) ↦ rw hit (e, not_after_self k)
]

module _ (h : ℕ) (b : Block) (up : after b.height h ≡ true) where
  marked_old :
      (rows : List OutputRow)
      → All (OutputUpTo h) rows
      → All (OutputUpTo b.height) (map (mark b.height b.spends) rows)
  marked_old [] p = tt
  marked_old (r ∷ rows) ((e, s), p) = (
    mark-OutputUpTo b.height b.spends r
        (not_after_trans r.height h b.height e up, SpentUpTo-trans h b.height up r.spent s),
    marked_old rows p,
  )

  marked_new :
      (rows : List OutputRow)
      → All (IsNew b.height) rows
      → All (OutputUpTo b.height) (map (mark b.height b.spends) rows)
  marked_new [] p = tt
  marked_new (r ∷ rows) ((e, s), p) = (
    mark-OutputUpTo b.height b.spends r (rw e (not_after_self b.height), rw s tt),
    marked_new rows p,
  )

  blocks_old :
      (rows : List BlockRow)
      → All (λ (r : BlockRow). after r.height h ≡ false) rows
      → All (λ (r : BlockRow). after r.height b.height ≡ false) rows
  blocks_old [] p = tt
  blocks_old (r ∷ rows) (e, p) = (not_after_trans r.height h b.height e up, blocks_old rows p)

  -- The index stays level: a block above its tip becomes the tip, and nothing lies above it.
  pub apply-IsLevel :
      (sha256 : Bytes → Bytes) (d d' : Db) (n : ℕ)
      → IsLevel h d
      → apply sha256 b d ≡ ok (d', n)
      → IsLevel b.height d'
  apply-IsLevel sha256 d d' n l e =
      let w = apply-Wrote sha256 b d d' n e in
      record {
        blocks = subst (All (λ (r : BlockRow). after r.height b.height ≡ false)) (sym w.blocks) (
            All-append _ d.blocks (w.row ∷ []) (blocks_old d.blocks l.blocks)
              (rw w.row_height (not_after_self b.height), tt));
        txs = Wrote-HasBlock b d d' w l.txs;
        outputs =
            subst (All (OutputUpTo b.height))
              (sym (w.outputs ∙ map-append (mark b.height b.spends) d.outputs w.new_outputs))
              (All-append _ _ _ (marked_old d.outputs l.outputs)
                (marked_new w.new_outputs w.outputs_new));
        state = record l.state { tip = some (b.height, b.hash) };
        row = w.row;
        found = rw w.blocks (find?-append_new b.height d.blocks w.row w.new_height w.row_height);
        initialised = rw (w.sync_state, l.initialised) refl;
        tip = rw w.row_hash refl;
      }
