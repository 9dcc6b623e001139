-- ===== src/Store/Concurrent.antt =====
-- The transactions of internal/store that the block syncer and the mempool syncer run beside each other on one
-- database, in any order: inTx of internal/store/store.go commits each whole, or not at all.
use drivechain_esplora.Base.{
  ℕ, ◌≡◌, refl, sym, ap, ◌∙◌, Bool, true, false, List, [], ◌∷◌, Bytes, keep, Result, ok, err,
  Bool-cases, inl, inr, arith,
}
use drivechain_esplora.Store.Tables.{Db, Block, Mempool}
use drivechain_esplora.Store.Write
use drivechain_esplora.Store.State
use drivechain_esplora.Store.Mempool

-- inTx
unfoldable pub in_tx : (Db → Result Db) → Db → Db
in_tx f d = elim (f d) [ ok d' ↦ d' | err e ↦ d ]

-- A transaction of one of the two syncers.
pub data Transaction : Type 0 where
  apply : Block → Transaction
  rollback : ℕ → Transaction
  set_main_height : ℕ → ℕ → Transaction
  replace_mempool : ℕ → Mempool → Transaction

abbrev pub of_block_syncer : Transaction → Bool
of_block_syncer (apply b) = true
of_block_syncer (rollback height) = true
of_block_syncer (set_main_height height main) = true
of_block_syncer (replace_mempool now pool) = false

abbrev without_count : Result (Db × ℕ) → Result Db
without_count (ok p) = ok p.0
without_count (err e) = err e

module _ (sha256 : Bytes → Bytes) where
  unfoldable pub statements : Transaction → Db → Result Db
  statements (apply b) d = without_count (Write.apply sha256 b d)
  statements (rollback height) d = ok (Write.rollback height d)
  statements (set_main_height height main) d = ok (State.set_main_height height main d)
  statements (replace_mempool now pool) d = Mempool.replace_mempool sha256 now pool d

  -- One transaction behind the other.
  unfoldable pub run : List Transaction → Db → Db
  unfolding statements in_tx
  run [] d = d
  run (t ∷ ts) d = run ts (in_tx (statements t) d)

  -- The tables of the index, with the mempool's left empty.
  abbrev pub index_tables : Db → Db
  index_tables d = record d { mempool_txs = []; mempool_outputs = []; mempool_spends = [] }

  after : Transaction → Db → Db
  after t d = index_tables (in_tx (statements t) d)

  apply-after : (b : Block) (d : Db) → after (apply b) d ≡ after (apply b) (index_tables d)
  unfolding after in_tx statements Write.apply Write.insert_block Write.clear_mempool Write.set_tip
  apply-after b d = ground arith

  replace-after :
      (now : ℕ) (pool : Mempool) (d : Db) → after (replace_mempool now pool) d ≡ index_tables d
  unfolding after in_tx statements Mempool.replace_mempool
  replace-after now pool d = ground arith

  index-after :
      (t : Transaction) (d : Db) → of_block_syncer t ≡ true → after t d ≡ after t (index_tables d)
  unfolding after in_tx statements Write.rollback State.set_main_height
  index-after (apply b) d e = apply-after b d
  index-after (rollback height) d e = refl
  index-after (set_main_height height main) d e = refl
  index-after (replace_mempool now pool) d e = absurd (ground arith)

  mempool-after :
      (t : Transaction) (d : Db) → of_block_syncer t ≡ false → after t d ≡ index_tables d
  mempool-after (apply b) d e = absurd (ground arith)
  mempool-after (rollback height) d e = absurd (ground arith)
  mempool-after (set_main_height height main) d e = absurd (ground arith)
  mempool-after (replace_mempool now pool) d e = replace-after now pool d

  run-alike :
      (ts : List Transaction) (d e : Db)
      → index_tables d ≡ index_tables e
      → index_tables (run ts d) ≡ index_tables (run (keep of_block_syncer ts) e)
  unfolding run after
  run-alike [] d e h = h
  run-alike (t ∷ ts) d e h = elim (Bool-cases (of_block_syncer t)) [
    | inl own ↦ rw own (
        run-alike ts (in_tx (statements t) d) (in_tx (statements t) e)
          (index-after t d own ∙ ap (after t) h ∙ sym (index-after t e own)))
    | inr other ↦ rw other (run-alike ts (in_tx (statements t) d) e (mempool-after t d other ∙ h))
  ]

  -- In whatever order the transactions of the block syncer and of the mempool syncer commit or
  -- fail, the blocks, transactions, outputs and sync state are those that the block syncer's
  -- transactions alone leave.
  pub run-index_tables :
      (ts : List Transaction) (d : Db)
      → index_tables (run ts d) ≡ index_tables (run (keep of_block_syncer ts) d)
  run-index_tables ts d = run-alike ts d d refl
