-- ===== src/Store/Write/Rows.antt =====
-- The rows that Apply of internal/store/write.go writes into each table.
use drivechain_esplora.Base.{
  ℕ, ◌≡◌, refl, sym, ap, ◌∙◌, Bool, false, ◌&&◌, ◌||◌, none, some, List, [], ◌∷◌, ◌++◌, map, Bytes,
  ltb, ◌==◌, same, any, All, ok, >>=-eq-ok, arith, append_assoc, append-nil, Bool-cases, inl, inr,
  ok-injective,
}
use drivechain_esplora.Chain.OutPoint.{coinbase}
use drivechain_esplora.Store.Tables.{max_int64, BlockRow, TxRow, OutputRow, Db, Output, Tx, Block}
use drivechain_esplora.Store.Write.{
  insert_block, tx_row, insert_txs, output_row, insert_outputs, mark, apply_spends, fee, with_fee,
  set_fees, clear_mempool, with_tip, set_tip, apply,
}

-- The rows that INSERT … ON CONFLICT DO NOTHING adds stand behind the old ones.
pub insert_txs_lem :
    (height : ℕ) (ts : List Tx) (rows : List TxRow)
    → (new : List TxRow) × (insert_txs height ts rows ≡ rows ++ new)
      × All (λ r. r.height ≡ height) new
unfolding insert_txs
insert_txs_lem height [] rows = ([], sym (append-nil rows), tt)
insert_txs_lem height (t ∷ ts) rows = elim (Bool-cases (any (λ r. same r.txid t.txid) rows)) [
  | inl old ↦ rw old (insert_txs_lem height ts rows)
  | inr fresh ↦
      let (new, e, h) = insert_txs_lem height ts (rows ++ (tx_row height t ∷ [])) in
      rw fresh (tx_row height t ∷ new, e ∙ append_assoc rows (tx_row height t ∷ []) new, (refl, h))
]

abbrev pub IsNew : ℕ → OutputRow → Type 0
IsNew height r = (r.height ≡ height) × (r.spent ≡ none)

module _ (sha256 : Bytes → Bytes) (b : Block) where
  pub insert_outputs_lem :
      (os : List Output) (rows rows' : List OutputRow)
      → insert_outputs sha256 b os rows ≡ ok rows'
      → (new : List OutputRow) × (rows' ≡ rows ++ new) × All (IsNew b.height) new
  unfolding insert_outputs
  insert_outputs_lem [] rows rows' e = ([], ground (arith, append-nil rows), tt)
  insert_outputs_lem (o ∷ os) rows rows' e =
      let row : OutputRow = output_row sha256 b o in
      let clash : Bool =
        row.kind == coinbase
        && any (λ r. r.kind == coinbase && same r.block_hash row.block_hash && r.vout == row.vout)
            rows in
      elim (Bool-cases (any (λ r. same r.outpoint row.outpoint) rows)) [
        | inl old ↦ insert_outputs_lem os rows rows' (rw old at e)
        | inr fresh ↦ elim (Bool-cases clash) [
          | inl bad ↦ absurd (ground (arith, rw (fresh, bad) at e))
          | inr fits ↦
              let (new, en, h) =
                insert_outputs_lem os (rows ++ (row ∷ [])) rows' (rw (fresh, fits) at e) in
              (row ∷ new, en ∙ append_assoc rows (row ∷ []) new, ((refl, refl), h))
        ]
      ]

-- What a successful Apply has written: rows behind the old ones, then the marks, fees and tip.
pub record Wrote (b : Block) (d d' : Db) : Type 0 where
  pub row : BlockRow
  pub row_height : row.height ≡ b.height
  pub row_hash : row.hash ≡ b.hash
  pub new_height : any (λ r. r.height == b.height) d.blocks ≡ false
  pub blocks : d'.blocks ≡ d.blocks ++ (row ∷ [])
  pub new_outputs : List OutputRow
  pub outputs_new : All (IsNew b.height) new_outputs
  pub outputs : d'.outputs ≡ map (mark b.height b.spends) (d.outputs ++ new_outputs)
  pub new_txs : List TxRow
  pub txs_new : All (λ r. r.height ≡ b.height) new_txs
  pub txs : d'.txs ≡ map (with_fee d'.outputs b.height) (d.txs ++ new_txs)
  pub sync_state : d'.sync_state ≡ with_tip (some (b.height, b.hash)) d.sync_state

any_or :
    {A : Type 0} (p q : A → Bool) (xs : List A)
    → any (λ x. p x || q x) xs ≡ false
    → any p xs ≡ false
any_or p q [] e = refl
any_or p q (x ∷ xs) e = ground (arith, any_or p q xs)

insert_block_lem :
    (b : Block) (d d₁ : Db)
    → insert_block b d ≡ ok d₁
    → (row : BlockRow) × (row.height ≡ b.height)
      × (row.hash ≡ b.hash)
      × (any (λ r. r.height == b.height) d.blocks ≡ false)
      × (d₁ ≡ record d { blocks = d.blocks ++ (row ∷ []) })
unfolding insert_block
insert_block_lem b d d₁ e =
    elim (Bool-cases (any (λ r. r.height == b.height || same r.hash b.hash) d.blocks)) [
      | inl clash ↦ absurd (ground (arith, rw clash at e))
      | inr fresh ↦ (
        _,
        refl,
        refl,
        any_or (λ r. r.height == b.height) (λ r. same r.hash b.hash) d.blocks fresh,
        sym (ok-injective (rw fresh at e)),
      )
    ]

set_fees_lem :
    (height : ℕ) (rows : List OutputRow) (txs txs' : List TxRow)
    → set_fees height rows txs ≡ ok txs'
    → txs' ≡ map (with_fee rows height) txs
unfolding set_fees
set_fees_lem height rows txs txs' e =
    elim (Bool-cases
      (any (λ t. t.height == height && ltb max_int64 (fee rows height t.txid)) txs)) [
        | inl over ↦ absurd (ground (arith, rw over at e))
        | inr fits ↦ sym (ok-injective (rw fits at e))
      ]

-- The parts of Apply put together; the intermediate values are variables here.
wrote :
    (b : Block) (d d₁ d' : Db) (row : BlockRow) (outs new_outs : List OutputRow)
    (txs new_txs : List TxRow)
    → row.height ≡ b.height
    → row.hash ≡ b.hash
    → any (λ r. r.height == b.height) d.blocks ≡ false
    → d₁ ≡ record d { blocks = d.blocks ++ (row ∷ []) }
    → outs ≡ d₁.outputs ++ new_outs
    → All (IsNew b.height) new_outs
    → insert_txs b.height b.txs d₁.txs ≡ d₁.txs ++ new_txs
    → All (λ r. r.height ≡ b.height) new_txs
    → txs
      ≡ map
          (with_fee (map (mark b.height b.spends) outs) b.height)
          (insert_txs b.height b.txs d₁.txs)
    → set_tip b.height b.hash
        (clear_mempool b (record d₁ { txs = txs; outputs = map (mark b.height b.spends) outs }))
      ≡ d'
    → Wrote b d d'
unfolding set_tip clear_mempool
wrote b d d₁ d' row outs new_outs txs new_txs eh ehash fresh ed eo ho et ht ef done =
    let outputs : d'.outputs ≡ map (mark b.height b.spends) (d.outputs ++ new_outs) =
      sym (ap (λ (e : Db). e.outputs) done)
      ∙ ap (map (mark b.height b.spends)) (eo ∙ ap (λ (e : Db). e.outputs ++ new_outs) ed) in
    let old : d₁.txs ≡ d.txs = ap (λ (e : Db). e.txs) ed in
    record {
      row = row;
      row_height = eh;
      row_hash = ehash;
      new_height = fresh;
      blocks = sym (ap (λ (e : Db). e.blocks) done) ∙ ap (λ (e : Db). e.blocks) ed;
      new_outputs = new_outs;
      outputs_new = ho;
      outputs = outputs;
      new_txs = new_txs;
      txs_new = ht;
      txs =
          sym (ap (λ (e : Db). e.txs) done)
          ∙ ef
          ∙ ap (map (with_fee (map (mark b.height b.spends) outs) b.height))
              (et ∙ ap (λ (t : List TxRow). t ++ new_txs) old)
          ∙ ap (λ (rows : List OutputRow). map (with_fee rows b.height) (d.txs ++ new_txs))
              (ap (λ (e : Db). e.outputs) done);
      sync_state =
          sym (ap (λ (e : Db). e.sync_state) done)
          ∙ ap (λ (e : Db). with_tip (some (b.height, b.hash)) e.sync_state) ed;
    }

module _ (sha256 : Bytes → Bytes) where
  pub apply-Wrote : (b : Block) (d d' : Db) (n : ℕ) → apply sha256 b d ≡ ok (d', n) → Wrote b d d'
  unfolding apply apply_spends
  apply-Wrote b d d' n e =
      let (d₁, e₁, f₁) = >>=-eq-ok (insert_block b d) _ e in
      let (outs, e₂, f₂) = >>=-eq-ok (insert_outputs sha256 b b.creates d₁.outputs) _ f₁ in
      let rows = insert_txs b.height b.txs d₁.txs in
      let marked = map (mark b.height b.spends) outs in
      let (txs, e₃, f₃) = >>=-eq-ok (set_fees b.height marked rows) _ f₂ in
      let (row, eh, ehash, fresh, ed) = insert_block_lem b d d₁ e₁ in
      let (new_outs, eo, ho) = insert_outputs_lem sha256 b b.creates d₁.outputs outs e₂ in
      let (new_txs, et, ht) = insert_txs_lem b.height b.txs d₁.txs in
      wrote b d d₁ d' row outs new_outs txs new_txs eh ehash fresh ed eo ho et ht
        (set_fees_lem b.height marked rows txs e₃) (ap (λ (p : Db × ℕ). p.0) (ok-injective f₃))
