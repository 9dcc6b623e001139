-- ===== src/Index/Prepare/Points.antt =====
-- Prepare as a whole: which rows a block writes, and which blocks it refuses.
use drivechain_esplora.Base.{
  ℕ, ◌+◌, ◌≡◌, ◌≢◌, refl, ap, subst, not, Option, none, List, [], ◌∷◌, ◌++◌, Bytes, ◌==◌, length,
  map_from, All, Result, ok, err, >>=-eq-ok, ok-injective, count_mismatch, not_a_deposit,
  fail_if-eq-ok, traverse_from, Rows, traverse_from-Rows, arith,
}
use drivechain_esplora.Chain.Hash.{Hash}
use drivechain_esplora.Chain.OutPoint.{coinbase}
use drivechain_esplora.Chain.Block.{Block, BlockIndex, Deposit, coinbase_source}
use drivechain_esplora.Chain.Content.{Content}
use drivechain_esplora.Store.Tables
use drivechain_esplora.Index.Prepare.{
  bundle_spend, market_spend, output_at, prepare_txs, deposit_output, market_output, prepare,
}
use drivechain_esplora.Index.Prepare.Rows.{
  block_coins, block_spends, tx_coins, listed, IsRow, AreRows, AreRows-append, new_output-IsRow,
  loop-AreRows, outputs-AreRows, prepare_txs_lem,
}

module _ (decode : Bytes → Result Content) where
  deposit_output_lem :
      (i : ℕ) (d : Deposit) (row : Tables.Output)
      → deposit_output decode i d ≡ ok row
      → (d.out_point.kind ≡ 2) × IsRow decode (d.out_point, d.output) row
  deposit_output_lem i d row e =
      let (kind, e') = fail_if-eq-ok (not (d.out_point.kind == 2)) not_a_deposit _ e in
      (ground arith, new_output-IsRow decode d.out_point d.output row e')

  deposits_kind :
      (i : ℕ) (ds : List Deposit) (rows : List Tables.Output)
      → Rows (deposit_output decode) i ds rows
      → All (λ (d : Deposit). d.out_point.kind ≡ 2) ds
  deposits_kind i [] [] r = tt
  deposits_kind i [] (row ∷ rows) r = absurd r
  deposits_kind i (d ∷ ds) [] r = absurd r
  deposits_kind i (d ∷ ds) (row ∷ rows) (e, r) =
      ((deposit_output_lem i d row e).0, deposits_kind (i + 1) ds rows r)

  module _ (blake3 : Bytes → Hash) (height : ℕ) (hash : Hash) (b : Block) (index : BlockIndex)
      (time : Option ℕ) where
    -- What the rows of a block are, field by field.
    pub record IsPrepared (out : Tables.Block) : Type 0 where
      pub height_eq : out.height ≡ height
      pub hash_eq : out.hash ≡ hash
      pub prev_hash : out.prev_hash ≡ b.header.prev_side_hash
      pub merkle_root : out.merkle_root ≡ b.header.merkle_root
      pub main_hash : out.main_hash ≡ b.header.prev_main_hash
      pub main_height : out.main_height ≡ none
      pub block_time : out.block_time ≡ time
      pub txs : out.txs ≡ listed 0 index.txs
      pub creates : AreRows decode (block_coins (coinbase_source blake3 b) b index) out.creates
      pub spends : out.spends ≡ block_spends hash b index
      pub deposits : All (λ (d : Deposit). d.out_point.kind ≡ 2) index.deposits

    -- A block that Prepare accepts has one row for each output of its coinbase, of its transactions
    -- that were not skipped, of its deposits and of its market creates, in this order, each with
    -- the outpoint of its source and place, the address, the content, an exact height, and the
    -- value and type that the decoder answers for the content; one spend for each input of those
    -- transactions, for each bundle spend and for each market delete, each with its outpoint, its
    -- source, its kind and its place; and one transaction for each that the index names, skipped
    -- ones too, with its txid, place, size and bytes and no fee. It carries the height, the hash
    -- and the block time that Prepare was given, the header's three hashes, and no mainchain
    -- height; and every deposit is of the deposit kind.
    pub prepare_points :
        (out : Tables.Block)
        → prepare decode blake3 height hash b index time ≡ ok out
        → IsPrepared out
    unfolding prepare
    prepare_points out e =
        let (counts, e₀) =
          fail_if-eq-ok (not (length index.txs == length b.body.transactions)) count_mismatch _ e in
        let (coins, ec, e₁) =
          >>=-eq-ok
            (traverse_from (output_at decode coinbase (coinbase_source blake3 b)) 0
              b.body.coinbase.outputs)
            _ e₀ in
        let (rows, er, e₂) = >>=-eq-ok (prepare_txs decode 0 b.body.transactions index.txs) _ e₁ in
        let (deposits, ed, e₃) =
          >>=-eq-ok (traverse_from (deposit_output decode) 0 index.deposits) _ e₂ in
        let (markets, em, e₄) =
          >>=-eq-ok (traverse_from (market_output decode) 0 index.market_creates) _ e₃ in
        let (rt, (rc, rs)) =
          prepare_txs_lem decode 0 b.body.transactions index.txs rows er (ground arith) in
        let dr =
          loop-AreRows decode (deposit_output decode) (λ i d. (d.out_point, d.output))
            (λ i d row r. (deposit_output_lem i d row r).1) 0 index.deposits deposits ed in
        let mr =
          loop-AreRows decode (market_output decode) (λ i m. (m.out_point, m.output))
            (λ i m row r. new_output-IsRow decode m.out_point m.output row r) 0 index.market_creates
            markets em in
        subst IsPrepared (ok-injective e₄) (record {
          height_eq = refl;
          hash_eq = refl;
          prev_hash = refl;
          merkle_root = refl;
          main_hash = refl;
          main_height = refl;
          block_time = refl;
          txs = rt;
          creates =
              AreRows-append decode _ _ coins _
                (outputs-AreRows decode coinbase (coinbase_source blake3 b) b.body.coinbase.outputs
                  coins ec)
                (AreRows-append decode (tx_coins b.body.transactions index.txs) _ rows.1.creates _
                  rc (AreRows-append decode _ _ deposits markets dr mr));
          spends =
              ap
                (λ l.
                  l
                  ++ (map_from bundle_spend 0 index.bundle_spends
                      ++ map_from (market_spend hash) 0 index.market_deletes))
                rs;
          deposits =
              deposits_kind 0 index.deposits deposits
                (traverse_from-Rows (deposit_output decode) 0 index.deposits deposits ed);
        })

    -- A block whose index names another number of transactions than its body is refused.
    pub prepare_mismatch :
        length index.txs ≢ length b.body.transactions
        → prepare decode blake3 height hash b index time ≡ err count_mismatch
    unfolding prepare
    prepare_mismatch ne = ground arith
