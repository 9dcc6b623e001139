-- ===== src/Store/Write/Reorg.antt =====
-- A rollback of internal/store/write.go behind any number of blocks: a reorganisation.
use drivechain_esplora.Base.{
  ℕ, ◌≡◌, refl, sym, ap, ◌∙◌, true, false, Option, none, some, List, [], ◌∷◌, ◌++◌, map, Bytes,
  ◌==◌, discard, find?, keep_none, All, All-append, any-append, ok, arith, Bool-cases, inl, inr,
  subst,
}
use drivechain_esplora.Chain.Hash.{Hash}
use drivechain_esplora.Store.Tables.{after, BlockRow, TxRow, Spent, OutputRow, SyncState, Db, Block}
use drivechain_esplora.Store.Write.{with_fee, apply, unspend_above, unspend, rollback}
use drivechain_esplora.Store.Write.Rows.{Wrote, apply-Wrote}
use drivechain_esplora.Store.Write.Restore.{
  restrict, SpendsUnspent, HasBlock, cascade, gone_above, SameChain, rollback-Wrote,
}

abbrev pub SpentUpTo : ℕ → Option Spent → Type 0
SpentUpTo h none = Unit
SpentUpTo h (some s) = after s.height h ≡ false

abbrev pub OutputUpTo : ℕ → OutputRow → Type 0
OutputUpTo h r = (after r.height h ≡ false) × SpentUpTo h r.spent

-- The index has read exactly the blocks up to `h`, and its tip names the one at `h`.
pub record IsLevel (h : ℕ) (d : Db) : Type 0 where
  pub blocks : All (λ (r : BlockRow). after r.height h ≡ false) d.blocks
  pub txs : All (HasBlock d.blocks) d.txs
  pub outputs : All (OutputUpTo h) d.outputs
  pub state : SyncState
  pub row : BlockRow
  pub found : find? (λ r. r.height == h) d.blocks ≡ some row
  pub initialised : d.sync_state ≡ some state
  pub tip : state.tip ≡ some (h, row.hash)

keep_below :
    (h : ℕ) (rows : List BlockRow)
    → All (λ (r : BlockRow). after r.height h ≡ false) rows
    → discard (λ r. after r.height h) rows ≡ rows
keep_below h [] b = refl
keep_below h (r ∷ rows) (e, b) = rw (e, keep_below h rows b)

none_above :
    (h : ℕ) (rows : List BlockRow)
    → All (λ (r : BlockRow). after r.height h ≡ false) rows
    → gone_above h rows ≡ []
none_above h rows b = keep_none (λ r. after r.height h) rows b

cascade_none : (txs : List TxRow) → cascade [] txs ≡ txs
cascade_none [] = refl
cascade_none (t ∷ txs) = ap (λ l. t ∷ l) (cascade_none txs)

unspend_self : (h : ℕ) (r : OutputRow) → SpentUpTo h r.spent → unspend h r ≡ r
unspend_self h r s = ap (λ x. record r { spent = x }) (kept r.spent s)
  where
    kept : (x : Option Spent) → SpentUpTo h x → unspend_above h x ≡ x
    kept none s = refl
    kept (some x) s = rw s

restrict_self : (h : ℕ) (rows : List OutputRow) → All (OutputUpTo h) rows → restrict h rows ≡ rows
restrict_self h [] b = refl
restrict_self h (r ∷ rows) ((e, s), b) =
    rw (unspend_self h r s, e) (ap (λ l. r ∷ l) (restrict_self h rows b))

-- A rollback of a level index to its own tip changes nothing.
pub rollback_level : (h : ℕ) (d : Db) → IsLevel h d → SameChain (rollback h d) d
unfolding rollback
rollback_level h d l =
    let kept = keep_below h d.blocks l.blocks in
    record {
      blocks = kept;
      txs =
          ap (λ (gone : List BlockRow). cascade gone d.txs) (none_above h d.blocks l.blocks)
          ∙ cascade_none d.txs;
      outputs = restrict_self h d.outputs l.outputs;
      sync_state =
          rw (kept, l.found, l.initialised)
            (ap (λ (t : Option (ℕ × Hash)). some (record l.state { tip = t })) (sym l.tip));
    }

SameChain-trans : {c d e : Db} → SameChain c d → SameChain d e → SameChain c e
SameChain-trans p q = record {
  blocks = p.blocks ∙ q.blocks;
  txs = p.txs ∙ q.txs;
  outputs = p.outputs ∙ q.outputs;
  sync_state = p.sync_state ∙ q.sync_state;
}

HasBlock-append :
    (blocks : List BlockRow) (row : BlockRow) (t : TxRow)
    → HasBlock blocks t
    → HasBlock (blocks ++ (row ∷ [])) t
HasBlock-append blocks row t h = rw (any-append (λ r. r.height == t.height) blocks (row ∷ []), h)

module _ (b : Block) (d d' : Db) (w : Wrote b d d') where
  txs_placed :
      (rows : List OutputRow) (txs : List TxRow)
      → All (HasBlock d'.blocks) txs
      → All (HasBlock d'.blocks) (map (with_fee rows b.height) txs)
  txs_placed rows [] p = tt
  txs_placed rows (t ∷ txs) (p, ps) = elim (Bool-cases (t.height == b.height)) [
    | inl e ↦ rw e (p, txs_placed rows txs ps)
    | inr e ↦ rw e (p, txs_placed rows txs ps)
  ]

  old_placed : (txs : List TxRow) → All (HasBlock d.blocks) txs → All (HasBlock d'.blocks) txs
  old_placed [] p = tt
  old_placed (t ∷ txs) (p, ps) =
      (rw w.blocks (HasBlock-append d.blocks w.row t p), old_placed txs ps)

  new_placed :
      (txs : List TxRow)
      → All (λ (t : TxRow). t.height ≡ b.height) txs
      → All (HasBlock d'.blocks) txs
  new_placed [] p = tt
  new_placed (t ∷ txs) (e, ps) = (
    rw (w.blocks, any-append (λ r. r.height == t.height) d.blocks (w.row ∷ []))
        (ground (arith, w.row_height)),
    new_placed txs ps,
  )

  pub Wrote-HasBlock : All (HasBlock d.blocks) d.txs → All (HasBlock d'.blocks) d'.txs
  Wrote-HasBlock p = subst (All (HasBlock d'.blocks)) (sym w.txs) (
      txs_placed d'.outputs (d.txs ++ w.new_txs) (
        All-append (HasBlock d'.blocks) d.txs w.new_txs (old_placed d.txs p)
          (new_placed w.new_txs w.txs_new)))

module _ (sha256 : Bytes → Bytes) (h : ℕ) (d : Db) where
  -- Databases that the index reaches from `d` by applying blocks above `h`, each of which spends
  -- only outputs that nothing has spent yet.
  pub data Extends : Db → Type 0 where
    here : Extends d
    next :
        {e e' : Db} {n : ℕ}
        → Extends e
        → (b : Block) → after b.height h ≡ true
        → SpendsUnspent b.spends e.outputs
        → apply sha256 b e ≡ ok (e', n)
        → Extends e'

  Extends-HasBlock :
      {e : Db} → All (HasBlock d.blocks) d.txs → Extends e → All (HasBlock e.blocks) e.txs
  Extends-HasBlock p here = p
  Extends-HasBlock p (next {e = e} {e' = e'} x b above unspent ok') =
      Wrote-HasBlock b e e' (apply-Wrote sha256 b e e' _ ok') (Extends-HasBlock p x)

  rollback-Extends_lem :
      {e : Db} → All (HasBlock d.blocks) d.txs → Extends e → SameChain (rollback h e) (rollback h d)
  rollback-Extends_lem p here = record {
    blocks = refl;
    txs = refl;
    outputs = refl;
    sync_state = refl;
  }
  rollback-Extends_lem p (next {e = e} {e' = e'} x b above unspent ok') =
      SameChain-trans
        (rollback-Wrote h b e e' (apply-Wrote sha256 b e e' _ ok') above (Extends-HasBlock p x)
          unspent)
        (rollback-Extends_lem p x)

  -- However many blocks were applied on top of an index that was level at a height, each above it
  -- and each spending only outputs that nothing had spent, one rollback to the height brings back
  -- its blocks, transactions, outputs with their spend marks, and sync state.
  pub rollback-Extends : {e : Db} → IsLevel h d → Extends e → SameChain (rollback h e) d
  rollback-Extends l x = SameChain-trans (rollback-Extends_lem l.txs x) (rollback_level h d l)
