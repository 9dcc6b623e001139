-- ===== src/Index/Prepare/Agree.antt =====
-- Prepare and PrepareMempool of internal/index/prepare.go on the same transactions.
use drivechain_esplora.Base.{
  ℕ, ◌+◌, ◌≡◌, refl, sym, ap, ◌∙◌, false, List, [], ◌∷◌, map, Bytes, All, Result, ok, err, ◌>>=◌,
  Result-cases, inl, inr,
}
use drivechain_esplora.Chain.Block.{MempoolTx, Transaction, TxInfo}
use drivechain_esplora.Chain.Content.{Content}
use drivechain_esplora.Store.Tables
use drivechain_esplora.Index.Prepare.{
  TxRows, join, tx_entry, mempool_entry, prepare_tx, prepare_txs, prepare_entries, prepare_mempool,
}

abbrev pub rows_of : {A : Type 0} → Result (A × TxRows) → Result TxRows
rows_of (ok (a, rows)) = ok rows
rows_of (err e) = err e

abbrev pub mempool_rows : Result Tables.Mempool → Result TxRows
mempool_rows (ok m) = ok (record { spends = m.spends; creates = m.creates })
mempool_rows (err e) = err e

abbrev pub tx_of : MempoolTx → Transaction
tx_of e = e.tx

abbrev pub info_of : MempoolTx → TxInfo
info_of e = e.info

prepend : TxRows → Result TxRows → Result TxRows
prepend own (ok rows) = ok (join own rows)
prepend own (err e) = err e

rows_of-join :
    {A B : Type 0} (g : A → B) (own : TxRows) (r : Result (A × TxRows))
    → rows_of (r >>= λ x. ok (g x.0, join own x.1)) ≡ prepend own (rows_of r)
unfolding prepend
rows_of-join g own (ok (a, rows)) = refl
rows_of-join g own (err e) = refl

last :
    (r : Result (List Tables.MempoolTx × TxRows))
    → rows_of r
      ≡ mempool_rows
          (r >>= λ x. ok (record { txs = x.0; creates = x.1.creates; spends = x.1.spends }))
last (ok (txs, rows)) = refl
last (err e) = refl

module _ (decode : Bytes → Result Content) where
  entries_lem :
      (i : ℕ) (es : List MempoolTx)
      → All (λ (e : MempoolTx). e.info.skipped ≡ false) es
      → rows_of (prepare_txs decode i (map tx_of es) (map info_of es))
        ≡ rows_of (prepare_entries decode i es)
  unfolding prepare_txs prepare_entries
  entries_lem i [] h = refl
  entries_lem i (e ∷ es) (run, h) =
      rw run (elim (Result-cases (prepare_tx decode e.info.txid e.tx)) [
        | inl (own, eo) ↦ rw eo (
            rows_of-join (λ (ts : List Tables.Tx). tx_entry i e.info ∷ ts) own
              (prepare_txs decode (i + 1) (map tx_of es) (map info_of es))
            ∙ ap (prepend own) (entries_lem (i + 1) es h)
            ∙ sym (
                rows_of-join (λ (ts : List Tables.MempoolTx). mempool_entry i e ∷ ts) own
                  (prepare_entries decode (i + 1) es)))
        | inr (x, eo) ↦ rw eo refl
      ])

  -- The transactions of a block, none skipped, write the very rows that they wrote unconfirmed, or
  -- fail with the same error.
  pub prepare_txs-prepare_mempool :
      (es : List MempoolTx)
      → All (λ (e : MempoolTx). e.info.skipped ≡ false) es
      → rows_of (prepare_txs decode 0 (map tx_of es) (map info_of es))
        ≡ mempool_rows (prepare_mempool decode es)
  unfolding prepare_mempool
  prepare_txs-prepare_mempool es h = entries_lem 0 es h ∙ last (prepare_entries decode 0 es)
