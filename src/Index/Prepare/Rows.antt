-- ===== src/Index/Prepare/Rows.antt =====
-- internal/index/prepare.go: what a block creates and spends, as plain lists that do not go through the
-- code's helpers, and the rows that the helpers write. The kinds and the kinds of a spend are spelled
-- out as the numbers of internal/chain/outpoint.go.
use drivechain_esplora.Base.{
  ℕ, ◌+◌, ◌%◌, ◌^◌, ◌≡◌, refl, ap, ap₂, subst, true, List, [], ◌∷◌, ◌++◌, Bytes, if◌then◌else◌,
  length, map_from, Result, ok, >>=-eq-ok, ok-injective, Bool-cases, inl, inr, traverse_from, Rows,
  traverse_from-Rows, arith,
}
use drivechain_esplora.Chain.Hash.{Hash}
use drivechain_esplora.Chain.OutPoint.{OutPoint, regular}
use drivechain_esplora.Chain.Block.{
  Block, BlockIndex, BundleSpend, Deposit, Input, MarketUtxo, Output, Transaction, TxInfo,
}
use drivechain_esplora.Chain.Content.{Content}
use drivechain_esplora.Store.Tables
use drivechain_esplora.Index.Prepare.{
  TxRows, no_rows, tx_entry, new_output, output_at, prepare_tx, prepare_txs,
}

-- An outpoint and the output behind it.
abbrev pub Coin : Type 0
Coin = OutPoint × Output

-- Outputs under the outpoints 0, 1, … of a source; the index is a uint32.
abbrev pub coins_of : ℕ → Hash → List Output → List Coin
coins_of kind source =
    map_from (λ i o. (record { kind = kind; source = source; vout = i % 2 ^ 32 }, o)) 0

abbrev pub input_spends : Hash → List Input → List Tables.Spend
input_spends txid =
    map_from
      (λ i (x : Input). record {
        out_point = x.out_point;
        source = txid;
        kind = 0;
        vin = i % 2 ^ 32;
      })
      0

-- What the transactions create and spend; a skipped one does neither.
abbrev pub tx_coins : List Transaction → List TxInfo → List Coin
tx_coins [] infos = []
tx_coins (tx ∷ txs) [] = []
tx_coins (tx ∷ txs) (info ∷ infos) =
    (if info.skipped then [] else coins_of 0 info.txid tx.outputs) ++ tx_coins txs infos

abbrev pub tx_spends : List Transaction → List TxInfo → List Tables.Spend
tx_spends [] infos = []
tx_spends (tx ∷ txs) [] = []
tx_spends (tx ∷ txs) (info ∷ infos) =
    (if info.skipped then [] else input_spends info.txid tx.inputs) ++ tx_spends txs infos

-- The transactions from the place `i` on, skipped ones too.
abbrev pub listed : ℕ → List TxInfo → List Tables.Tx
listed i [] = []
listed i (info ∷ infos) =
    record { txid = info.txid; index = i; size_bytes = info.size; fee_sats = 0; raw = info.raw }
    ∷ listed (i + 1) infos

-- The four ways a block creates coins, in the order of the comment at Prepare.
abbrev pub block_coins : Hash → Block → BlockIndex → List Coin
block_coins source b index =
    coins_of 1 source b.body.coinbase.outputs
    ++ (tx_coins b.body.transactions index.txs
        ++ (map_from (λ i (d : Deposit). (d.out_point, d.output)) 0 index.deposits
            ++ map_from (λ i (m : MarketUtxo). (m.out_point, m.output)) 0 index.market_creates))

-- The three ways it spends them.
abbrev pub block_spends : Hash → Block → BlockIndex → List Tables.Spend
block_spends hash b index =
    tx_spends b.body.transactions index.txs
    ++ (map_from
          (λ i (s : BundleSpend). record {
            out_point = s.out_point;
            source = s.m6id;
            kind = 1;
            vin = i % 2 ^ 32;
          })
          0 index.bundle_spends
        ++ map_from
            (λ i (m : MarketUtxo). record {
              out_point = m.out_point;
              source = hash;
              kind = 2;
              vin = i % 2 ^ 32;
            })
            0 index.market_deletes)

module _ (decode : Bytes → Result Content) where
  -- The row of a coin: the output itself, and what the decoder reads in its content.
  abbrev pub IsRow : Coin → Tables.Output → Type 0
  IsRow (o, output) row =
      (row.out_point ≡ o)
      × (row.address ≡ output.address)
      × (row.content ≡ output.content)
      × (row.height_exact ≡ true)
      × (decode output.content
          ≡ ok (record { value_sats = row.value_sats; kind = row.content_type }))

  -- One row for each coin, in order.
  abbrev pub AreRows : List Coin → List Tables.Output → Type 0
  AreRows [] [] = Unit
  AreRows [] (row ∷ rows) = ⊥
  AreRows (c ∷ cs) [] = ⊥
  AreRows (c ∷ cs) (row ∷ rows) = IsRow c row × AreRows cs rows

  pub AreRows-append :
      (cs ds : List Coin) (rows more : List Tables.Output)
      → AreRows cs rows
      → AreRows ds more
      → AreRows (cs ++ ds) (rows ++ more)
  AreRows-append [] ds [] more r s = s
  AreRows-append [] ds (row ∷ rows) more r s = absurd r
  AreRows-append (c ∷ cs) ds [] more r s = absurd r
  AreRows-append (c ∷ cs) ds (row ∷ rows) more (e, r) s = (e, AreRows-append cs ds rows more r s)

  pub new_output-IsRow :
      (o : OutPoint) (output : Output) (row : Tables.Output)
      → new_output decode o output true ≡ ok row
      → IsRow (o, output) row
  unfolding new_output
  new_output-IsRow o output row e =
      let (c, ec, er) = >>=-eq-ok (decode output.content) _ e in
      subst (IsRow (o, output)) (ok-injective er) (refl, refl, refl, refl, ec)

  -- A loop whose step writes the row of the coin `coin`.
  pub loop-AreRows :
      {A : Type 0} (step : ℕ → A → Result Tables.Output) (coin : ℕ → A → Coin)
      → ((i : ℕ) (x : A) (row : Tables.Output) → step i x ≡ ok row → IsRow (coin i x) row)
      → (i : ℕ) (xs : List A) (rows : List Tables.Output) → traverse_from step i xs ≡ ok rows
      → AreRows (map_from coin i xs) rows
  loop-AreRows {A} step coin each i xs rows e = go i xs rows (traverse_from-Rows step i xs rows e)
    where
      go :
          (i : ℕ) (xs : List A) (rows : List Tables.Output)
          → Rows step i xs rows
          → AreRows (map_from coin i xs) rows
      go i [] [] r = tt
      go i [] (row ∷ rows) r = absurd r
      go i (x ∷ xs) [] r = absurd r
      go i (x ∷ xs) (row ∷ rows) (e, r) = (each i x row e, go (i + 1) xs rows r)

  pub outputs-AreRows :
      (kind : ℕ) (source : Hash) (outputs : List Output) (rows : List Tables.Output)
      → traverse_from (output_at decode kind source) 0 outputs ≡ ok rows
      → AreRows (coins_of kind source outputs) rows
  outputs-AreRows kind source =
      loop-AreRows (output_at decode kind source) _ (λ i o row. new_output-IsRow _ o row) 0

  -- What the rows of the transactions are.
  abbrev TxsRows : List Coin → List Tables.Spend → TxRows → Type 0
  TxsRows cs spends rows = AreRows cs rows.creates × (rows.spends ≡ spends)

  prepare_tx_lem :
      (txid : Hash) (tx : Transaction) (rows : TxRows)
      → prepare_tx decode txid tx ≡ ok rows
      → TxsRows (coins_of 0 txid tx.outputs) (input_spends txid tx.inputs) rows
  unfolding prepare_tx
  prepare_tx_lem txid tx rows e =
      let (outs, eo, er) =
        >>=-eq-ok (traverse_from (output_at decode regular txid) 0 tx.outputs) _ e in
      subst (TxsRows (coins_of 0 txid tx.outputs) (input_spends txid tx.inputs)) (ok-injective er)
        (outputs-AreRows regular txid tx.outputs outs eo, refl)

  -- The rows of one transaction of the body.
  own_lem :
      (tx : Transaction) (info : TxInfo) (rows : TxRows)
      → (if info.skipped then ok no_rows else prepare_tx decode info.txid tx) ≡ ok rows
      → TxsRows
          (if info.skipped then [] else coins_of 0 info.txid tx.outputs)
          (if info.skipped then [] else input_spends info.txid tx.inputs)
          rows
  own_lem tx info rows e = elim (Bool-cases info.skipped) [
    | inl skip ↦ rw skip (subst (TxsRows [] []) (ok-injective (rw skip at e)) (tt, refl))
    | inr run ↦ rw run (prepare_tx_lem info.txid tx rows (rw run at e))
  ]

  pub prepare_txs_lem :
      (i : ℕ) (txs : List Transaction) (infos : List TxInfo) (rows : List Tables.Tx × TxRows)
      → prepare_txs decode i txs infos ≡ ok rows
      → length infos ≡ length txs
      → (rows.0 ≡ listed i infos) × TxsRows (tx_coins txs infos) (tx_spends txs infos) rows.1
  unfolding prepare_txs
  prepare_txs_lem i [] [] rows e el =
      subst (λ (r : List Tables.Tx × TxRows). (r.0 ≡ []) × TxsRows [] [] r.1) (ok-injective e)
        (refl, (tt, refl))
  prepare_txs_lem i [] (info ∷ infos) rows e el = absurd (omega arith)
  prepare_txs_lem i (tx ∷ txs) [] rows e el = absurd (omega arith)
  prepare_txs_lem i (tx ∷ txs) (info ∷ infos) rows e el =
      let (own, eo, e₁) =
        >>=-eq-ok (if info.skipped then ok no_rows else prepare_tx decode info.txid tx) _ e in
      let (rest, er, e₂) = >>=-eq-ok (prepare_txs decode (i + 1) txs infos) _ e₁ in
      let (oc, os) = own_lem tx info own eo in
      let (rt, (rc, rs)) = prepare_txs_lem (i + 1) txs infos rest er (omega arith) in
      subst
        (λ (r : List Tables.Tx × TxRows).
          (r.0 ≡ listed i (info ∷ infos))
          × TxsRows (tx_coins (tx ∷ txs) (info ∷ infos)) (tx_spends (tx ∷ txs) (info ∷ infos)) r.1)
        (ok-injective e₂)
        (
          ap (λ l. tx_entry i info ∷ l) rt,
          (
            AreRows-append _ (tx_coins txs infos) own.creates rest.1.creates oc rc,
            ap₂ (λ a b. a ++ b) os rs,
          ),
        )
