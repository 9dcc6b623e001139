-- ===== src/Index/Prepare.antt =====
-- internal/index/prepare.go: one block, and the mempool, turned into the rows they write. A decoder
-- of internal/chain and blake3 are parameters. A Go `int` loop index becomes a u32 by wrapping.
use drivechain_esplora.Base.{
  ℕ, ◌+◌, ◌%◌, ◌^◌, ◌≡◌, Bool, true, false, not, Option, none, some, List, [], ◌∷◌, ◌++◌, map,
  Bytes, ◌==◌, if◌then◌else◌, length, map_from, Result, ok, err, ◌>>=◌, ◌>>◌, fail_if,
  count_mismatch, not_a_deposit, traverse_from,
}
use drivechain_esplora.Chain.Hash.{Hash}
use drivechain_esplora.Chain.OutPoint.{OutPoint, regular, coinbase, deposit}
use drivechain_esplora.Chain.Block.{
  Block, BlockIndex, BundleSpend, Deposit, Input, MarketUtxo, MempoolTx, Output, Transaction,
  TxInfo, coinbase_source,
}
use drivechain_esplora.Chain.Content.{Content}
use drivechain_esplora.Store.Tables
pub mod Rows
pub mod Points
pub mod Agree

-- A conversion to uint32.
abbrev pub to_u32 : ℕ → ℕ
to_u32 n = n % 2 ^ 32

-- InPointKind
abbrev pub spend_regular : ℕ
spend_regular = 0

abbrev pub spend_withdrawal : ℕ
spend_withdrawal = 1

abbrev pub spend_market : ℕ
spend_market = 2

-- txRows
pub record TxRows : Type 0 where
  pub spends : List Tables.Spend
  pub creates : List Tables.Output

abbrev pub join : TxRows → TxRows → TxRows
join a b = record { spends = a.spends ++ b.spends; creates = a.creates ++ b.creates }

abbrev pub no_rows : TxRows
no_rows = record { spends = []; creates = [] }

abbrev pub input_spend : Hash → ℕ → Input → Tables.Spend
input_spend txid vin input = record {
  out_point = input.out_point;
  source = txid;
  kind = spend_regular;
  vin = to_u32 vin;
}

abbrev pub bundle_spend : ℕ → BundleSpend → Tables.Spend
bundle_spend vin s = record {
  out_point = s.out_point;
  source = s.m6id;
  kind = spend_withdrawal;
  vin = to_u32 vin;
}

abbrev pub market_spend : Hash → ℕ → MarketUtxo → Tables.Spend
market_spend hash vin m = record {
  out_point = m.out_point;
  source = hash;
  kind = spend_market;
  vin = to_u32 vin;
}

abbrev pub tx_entry : ℕ → TxInfo → Tables.Tx
tx_entry i info = record {
  txid = info.txid;
  index = i;
  size_bytes = info.size;
  fee_sats = 0;
  raw = info.raw;
}

abbrev pub mempool_entry : ℕ → MempoolTx → Tables.MempoolTx
mempool_entry i e = record {
  txid = e.info.txid;
  index = i;
  size_bytes = e.info.size;
  raw = e.info.raw;
}

abbrev pub point : ℕ → Hash → ℕ → OutPoint
point kind source i = record { kind = kind; source = source; vout = to_u32 i }

module _ (decode : Bytes → Result Content) where
  -- newOutput
  unfoldable pub new_output : OutPoint → Output → Bool → Result Tables.Output
  new_output o output height_exact = do
    content ← decode output.content
    ok (record {
      out_point = o;
      address = output.address;
      value_sats = content.value_sats;
      content = output.content;
      content_type = content.kind;
      height_exact = height_exact;
    })

  abbrev pub output_at : ℕ → Hash → ℕ → Output → Result Tables.Output
  output_at kind source i output = new_output (point kind source i) output true

  -- prepareTx
  unfoldable pub prepare_tx : Hash → Transaction → Result TxRows
  prepare_tx txid tx = do
    creates ← traverse_from (output_at regular txid) 0 tx.outputs
    ok (record { spends = map_from (input_spend txid) 0 tx.inputs; creates = creates })

  -- The loop of Prepare over the transactions of the body. The lists have one length, so the two
  -- clauses on unequal lists stand for no run.
  unfoldable pub prepare_txs : ℕ → List Transaction → List TxInfo → Result (List Tables.Tx × TxRows)
  unfolding prepare_tx
  prepare_txs i [] infos = ok ([], no_rows)
  prepare_txs i (tx ∷ txs) [] = err count_mismatch
  prepare_txs i (tx ∷ txs) (info ∷ infos) = do
    own ← if info.skipped then ok no_rows else prepare_tx info.txid tx
    rest ← prepare_txs (i + 1) txs infos
    ok (tx_entry i info ∷ rest.0, join own rest.1)

  abbrev pub deposit_output : ℕ → Deposit → Result Tables.Output
  deposit_output i d = do
    fail_if (not (d.out_point.kind == deposit)) not_a_deposit
    new_output d.out_point d.output true

  abbrev pub market_output : ℕ → MarketUtxo → Result Tables.Output
  market_output i m = new_output m.out_point m.output true

  module _ (blake3 : Bytes → Hash) where
    -- Prepare
    unfoldable pub prepare : ℕ → Hash → Block → BlockIndex → Option ℕ → Result Tables.Block
    unfolding prepare_txs
    prepare height hash b index block_time = do
      fail_if (not (length index.txs == length b.body.transactions)) count_mismatch
      coins ←
          traverse_from (output_at coinbase (coinbase_source blake3 b)) 0 b.body.coinbase.outputs
      (txs, rows) ← prepare_txs 0 b.body.transactions index.txs
      deposits ← traverse_from deposit_output 0 index.deposits
      markets ← traverse_from market_output 0 index.market_creates
      ok (record {
        height = height;
        hash = hash;
        prev_hash = b.header.prev_side_hash;
        merkle_root = b.header.merkle_root;
        main_hash = b.header.prev_main_hash;
        main_height = none;
        block_time = block_time;
        txs = txs;
        creates = coins ++ (rows.creates ++ (deposits ++ markets));
        spends =
            rows.spends
            ++ (map_from bundle_spend 0 index.bundle_spends
                ++ map_from (market_spend hash) 0 index.market_deletes);
      })

  -- The loop of PrepareMempool.
  unfoldable pub prepare_entries : ℕ → List MempoolTx → Result (List Tables.MempoolTx × TxRows)
  unfolding prepare_tx
  prepare_entries i [] = ok ([], no_rows)
  prepare_entries i (e ∷ es) = do
    own ← prepare_tx e.info.txid e.tx
    rest ← prepare_entries (i + 1) es
    ok (mempool_entry i e ∷ rest.0, join own rest.1)

  -- PrepareMempool
  unfoldable pub prepare_mempool : List MempoolTx → Result Tables.Mempool
  unfolding prepare_entries
  prepare_mempool es = do
    (txs, rows) ← prepare_entries 0 es
    ok (record { txs = txs; creates = rows.creates; spends = rows.spends })
