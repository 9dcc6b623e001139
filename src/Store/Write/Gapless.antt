-- ===== src/Store/Write/Gapless.antt =====
-- Apply and Rollback of internal/store/write.go on an index that holds a block at every height.
use drivechain_esplora.Base.{
  ℕ, ◌+◌, ◌≤◌, ◌<◌, ◌^◌, ◌≡◌, refl, sym, ap, ◌∙◌, true, false, Option, none, some, List, [], ◌∷◌,
  ◌++◌, map, Bytes, ◌==◌, discard, any, ==_iff, All, any-append, ok, arith, Bool-cases, inl, inr,
  subst, find?-discard, any-discard, any-keep, All-discard, any-find?,
}
use drivechain_esplora.Store.Tables.{after, BlockRow, TxRow, Spent, OutputRow, SyncState, Db, Block}
use drivechain_esplora.Store.Write.{mark, apply, unspend_above, unspend, rollback}
use drivechain_esplora.Store.Write.Rows.{IsNew, apply-Wrote}
use drivechain_esplora.Store.Write.Restore.{HasBlock, cascade, gone_above}
use drivechain_esplora.Store.Write.Reorg.{IsLevel, SpentUpTo, OutputUpTo, Wrote-HasBlock}
use drivechain_esplora.Store.Write.Level.{apply-IsLevel, mark-OutputUpTo, not_after_self}

abbrev pub HasHeight : ℕ → Db → Type 0
HasHeight k d = any (λ r. r.height == k) d.blocks ≡ true

pub record IsGapless (h : ℕ) (d : Db) : Type 0 where
  pub small : h < 2 ^ 31
  pub level : IsLevel h d
  pub full : (k : ℕ) → k ≤ h → HasHeight k d

pub height-apart :
    (h k : ℕ)
    → k ≤ h
    → h < 2 ^ 31
    → (r : BlockRow) → (r.height == k) ≡ true
    → after r.height h ≡ false
height-apart h k le small r e = ground (arith, ==_iff r.height k)

kept_placed :
    (h : ℕ) (blocks : List BlockRow) (txs : List TxRow)
    → All (HasBlock blocks) txs
    → All (HasBlock (discard (λ r. after r.height h) blocks)) (cascade (gone_above h blocks) txs)
kept_placed h blocks [] p = tt
kept_placed h blocks (t ∷ txs) (p, ps) =
    elim (Bool-cases (any (λ r. r.height == t.height) (gone_above h blocks))) [
      | inl gone ↦ rw gone (kept_placed h blocks txs ps)
      | inr kept ↦ rw kept (
        any-keep (λ r. r.height == t.height) (λ r. after r.height h) blocks p kept,
        kept_placed h blocks txs ps,
      )
    ]

unspend-SpentUpTo : (h : ℕ) (s : Option Spent) → SpentUpTo h (unspend_above h s)
unspend-SpentUpTo h none = tt
unspend-SpentUpTo h (some s) = elim (Bool-cases (after s.height h)) [
  | inl e ↦ rw e tt
  | inr e ↦ rw e e
]

restricted :
    (h : ℕ) (rows : List OutputRow)
    → All (OutputUpTo h) (discard (λ r. after r.height h) (map (unspend h) rows))
restricted h [] = tt
restricted h (r ∷ rows) = elim (Bool-cases (after r.height h)) [
  | inl e ↦ rw e (restricted h rows)
  | inr e ↦ rw e ((e, unspend-SpentUpTo h r.spent), restricted h rows)
]

-- A rollback of an index without gaps to a height that it holds leaves an index without gaps whose
-- tip is the block that stood at this height.
pub rollback-IsGapless : (h f : ℕ) (d : Db) → f ≤ h → IsGapless h d → IsGapless f (rollback f d)
unfolding rollback
rollback-IsGapless h f d le g =
    let l = g.level in
    let apart = height-apart f f (omega arith) (omega (arith, g.small, le)) in
    let (row, found) = any-find? (λ r. r.height == f) d.blocks (g.full f le) in
    let found' =
      find?-discard (λ r. r.height == f) (λ r. after r.height f) apart d.blocks ∙ found in
    record {
      small = omega (arith, g.small, le);
      full = λ k below.
          any-discard (λ r. r.height == k) (λ r. after r.height f)
            (height-apart f k below (omega (arith, g.small, le))) d.blocks
          ∙ g.full k (omega (arith, below, le));
      level = record {
        blocks = All-discard (λ r. after r.height f) d.blocks;
        txs = kept_placed f d.blocks d.txs l.txs;
        outputs = restricted f d.outputs;
        state = record l.state { tip = some (f, row.hash) };
        row = row;
        found = found';
        initialised = rw (found', l.initialised) refl;
        tip = refl;
      };
    }

-- A block at the next height, applied to an index without gaps, leaves one whose tip is the block,
-- as long as the height is below 2 ^ 31.
pub apply-IsGapless :
    (sha256 : Bytes → Bytes) (h : ℕ) (b : Block) (d d' : Db) (n : ℕ)
    → b.height ≡ h + 1
    → h + 1 < 2 ^ 31
    → IsGapless h d
    → apply sha256 b d ≡ ok (d', n)
    → IsGapless (h + 1) d'
apply-IsGapless sha256 h b d d' n eh small g e =
    let w = apply-Wrote sha256 b d d' n e in
    record {
      small = small;
      level =
          subst (λ k. IsLevel k d') eh
            (apply-IsLevel h b (ground (arith, g.small)) sha256 d d' n g.level e);
      full = λ k below.
          rw (w.blocks, any-append (λ r. r.height == k) d.blocks (w.row ∷ []))
            (ground (arith, g.full k, ==_iff w.row.height k, w.row_height));
    }

-- The database that Init of an empty schema leaves.
pub record IsFresh (d : Db) : Type 0 where
  pub state : SyncState
  pub initialised : d.sync_state ≡ some state
  pub no_tip : state.tip ≡ none
  pub blocks : d.blocks ≡ []
  pub txs : d.txs ≡ []
  pub outputs : d.outputs ≡ []

marked_fresh :
    (b : Block) (rows : List OutputRow)
    → All (IsNew b.height) rows
    → All (OutputUpTo b.height) (map (mark b.height b.spends) rows)
marked_fresh b [] p = tt
marked_fresh b (r ∷ rows) ((e, s), p) = (
  mark-OutputUpTo b.height b.spends r (rw e (not_after_self b.height), rw s tt),
  marked_fresh b rows p,
)

-- The first block of an index, at height 0, makes it an index without gaps.
pub apply-IsFresh :
    (sha256 : Bytes → Bytes) (b : Block) (d d' : Db) (n : ℕ)
    → b.height ≡ 0
    → IsFresh d
    → apply sha256 b d ≡ ok (d', n)
    → IsGapless 0 d'
apply-IsFresh sha256 b d d' n eh f e =
    let w = apply-Wrote sha256 b d d' n e in
    let blocks : d'.blocks ≡ w.row ∷ [] = w.blocks ∙ ap (λ l. l ++ (w.row ∷ [])) f.blocks in
    let row0 : w.row.height ≡ 0 = w.row_height ∙ eh in
    record {
      small = omega arith;
      level = record {
        blocks = rw (blocks, row0) (refl, tt);
        txs = Wrote-HasBlock b d d' w (rw f.txs tt);
        outputs =
            subst (λ k. All (OutputUpTo k) d'.outputs) eh
              (subst (All (OutputUpTo b.height))
                (sym (
                  w.outputs
                  ∙ ap (λ (l : List OutputRow). map (mark b.height b.spends) (l ++ w.new_outputs))
                      f.outputs))
                (marked_fresh b w.new_outputs w.outputs_new));
        state = record f.state { tip = some (b.height, b.hash) };
        row = w.row;
        found = rw (blocks, row0) refl;
        initialised = rw (w.sync_state, f.initialised) refl;
        tip = rw (w.row_hash, eh) refl;
      };
      full = λ k below. rw (blocks, row0) (ground (arith, ==_iff 0 k));
    }
