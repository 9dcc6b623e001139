-- ===== src/Store/Mempool/Stable.antt =====
-- ReplaceMempool of internal/store/mempool.go, run again on its own result.
use drivechain_esplora.Base.{
  ℕ, ◌≡◌, refl, sym, ap, ◌∙◌, Bool, false, List, [], ◌∷◌, ◌++◌, map, Bytes, same, same_self, subst,
  any, All, any-append, append_assoc, append-nil, ok, >>=-eq-ok, fail_if-eq-ok, ok-injective,
  unique_violation, out_of_range, arith, ltb,
}
use drivechain_esplora.Chain.Hash.{Hash}
use drivechain_esplora.Store.Tables.{max_int64, MempoolTxRow, Db, MempoolTx, Mempool}
use drivechain_esplora.Store.Mempool.{
  first_seen, mempool_tx_row, insert_mempool_txs, insert_mempool_outputs, insert_mempool_spends,
  mempool_fee, with_mempool_fee, set_mempool_fees, replace_mempool,
}

-- Whether a transaction of the list carries this txid.
abbrev names : Hash → List MempoolTx → Bool
names txid = any (λ t. same t.txid txid)

-- No txid twice.
abbrev Distinct : List MempoolTx → Type 0
Distinct [] = Unit
Distinct (t ∷ ts) = All (λ (u : MempoolTx). same t.txid u.txid ≡ false) ts × Distinct ts

-- The inserts succeed on distinct transactions that are not there yet, and add a row for each.
module _ (seen : Hash → ℕ) where
  insert_mempool_txs_lem :
      (ts : List MempoolTx) (rows rows' : List MempoolTxRow)
      → insert_mempool_txs seen ts rows ≡ ok rows'
      → (rows' ≡ rows ++ map (mempool_tx_row seen) ts)
        × All (λ (t : MempoolTx). any (λ r. same r.txid t.txid) rows ≡ false) ts
        × Distinct ts
  unfolding insert_mempool_txs
  insert_mempool_txs_lem [] rows rows' e = (sym (ok-injective e) ∙ sym (append-nil rows), tt, tt)
  insert_mempool_txs_lem (t ∷ ts) rows rows' e =
      let (new, e₁) = fail_if-eq-ok (any (λ r. same r.txid t.txid) rows) unique_violation _ e in
      let (er, fresh, distinct) =
        insert_mempool_txs_lem ts (rows ++ (mempool_tx_row seen t ∷ [])) rows' e₁ in
      (
        er ∙ append_assoc rows (mempool_tx_row seen t ∷ []) _,
        (new, (parts ts fresh).0),
        ((parts ts fresh).1, distinct),
      )
    where
      parts :
          (us : List MempoolTx)
          → All
              (λ (u : MempoolTx).
                any (λ r. same r.txid u.txid) (rows ++ (mempool_tx_row seen t ∷ [])) ≡ false)
              us
          → All (λ (u : MempoolTx). any (λ r. same r.txid u.txid) rows ≡ false) us
            × All (λ (u : MempoolTx). same t.txid u.txid ≡ false) us
      parts [] f = (tt, tt)
      parts (u ∷ us) (f, fs) =
          let (a, b) = parts us fs in
          let both = any-append (λ r. same r.txid u.txid) rows (mempool_tx_row seen t ∷ []) in
          ((ground (arith, f, both), a), (ground (arith, f, both), b))

module _ (seen : Hash → ℕ) (fee : Hash → ℕ) where
  abbrev stored : List MempoolTx → List MempoolTxRow
  stored ts = map (with_mempool_fee fee) (map (mempool_tx_row seen) ts)

  -- A stored snapshot remembers when each of its transactions was first seen.
  abbrev Remembers : ℕ → List MempoolTxRow → MempoolTx → Type 0
  Remembers now rows t = first_seen now rows t.txid ≡ seen t.txid

  cons-Remembers :
      (now : ℕ) (t : MempoolTx) (rows : List MempoolTxRow) (us : List MempoolTx)
      → All (λ (u : MempoolTx). same t.txid u.txid ≡ false) us
      → All (Remembers now rows) us
      → All (Remembers now (with_mempool_fee fee (mempool_tx_row seen t) ∷ rows)) us
  cons-Remembers now t rows [] p q = tt
  cons-Remembers now t rows (u ∷ us) (p, ps) (q, qs) = (rw p q, cons-Remembers now t rows us ps qs)

  stored-Remembers :
      (now : ℕ) (ts : List MempoolTx) → Distinct ts → All (Remembers now (stored ts)) ts
  stored-Remembers now [] p = tt
  stored-Remembers now (t ∷ ts) (p, ps) = (
    rw (same_self t.txid) refl,
    cons-Remembers now t (stored ts) ts p (stored-Remembers now ts ps),
  )

insert_mempool_txs_same :
    (seen other : Hash → ℕ) (ts : List MempoolTx) (rows : List MempoolTxRow)
    → All (λ (t : MempoolTx). other t.txid ≡ seen t.txid) ts
    → insert_mempool_txs other ts rows ≡ insert_mempool_txs seen ts rows
unfolding insert_mempool_txs
insert_mempool_txs_same seen other [] rows p = refl
insert_mempool_txs_same seen other (t ∷ ts) rows (p, ps) =
    rw (p, insert_mempool_txs_same seen other ts (rows ++ (mempool_tx_row seen t ∷ [])) ps) refl

set_mempool_fees_lem :
    (fee : Hash → ℕ) (rows txs : List MempoolTxRow)
    → set_mempool_fees fee rows ≡ ok txs
    → map (with_mempool_fee fee) rows ≡ txs
unfolding set_mempool_fees
set_mempool_fees_lem fee rows txs e =
    ok-injective (fail_if-eq-ok (any (λ r. ltb max_int64 (fee r.txid)) rows) out_of_range _ e).1

-- A mempool snapshot that is written again, whenever that is, changes nothing: each transaction
-- keeps the time it was first seen at, and its fee.
pub replace_mempool_stable :
    (sha256 : Bytes → Bytes) (now later : ℕ) (pool : Mempool) (d d' : Db)
    → replace_mempool sha256 now pool d ≡ ok d'
    → replace_mempool sha256 later pool d' ≡ ok d'
unfolding replace_mempool
replace_mempool_stable sha256 now later pool d d' e =
    let outputs = insert_mempool_outputs sha256 pool.creates [] in
    let spends = insert_mempool_spends pool.spends [] in
    let fee = mempool_fee d.outputs outputs spends in
    let seen = first_seen now d.mempool_txs in
    let (rows, er, e₁) = >>=-eq-ok (insert_mempool_txs seen pool.txs []) _ e in
    let (txs, ef, e₂) = >>=-eq-ok (set_mempool_fees fee rows) _ e₁ in
    let (whole, fresh, distinct) = insert_mempool_txs_lem seen pool.txs [] rows er in
    let eq = ok-injective e₂ in
    let kept : txs ≡ stored seen fee pool.txs =
      sym (set_mempool_fees_lem fee rows txs ef) ∙ ap (map (with_mempool_fee fee)) whole in
    let again : insert_mempool_txs (first_seen later txs) pool.txs [] ≡ ok rows =
      insert_mempool_txs_same seen (first_seen later txs) pool.txs [] (
        subst (λ l. All (Remembers seen fee later l) pool.txs) (sym kept)
          (stored-Remembers seen fee later pool.txs distinct))
      ∙ er in
    subst (λ (x : Db). replace_mempool sha256 later pool x ≡ ok x) eq (rw (again, ef) refl)
