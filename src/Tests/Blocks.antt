-- ===== src/Tests/Blocks.antt =====
-- Prepare and PrepareMempool at a block of one transaction.
use drivechain_esplora.Base.{
  ◌≡◌, refl, true, false, none, List, [], ◌∷◌, map, Bytes, Result, ok, err, count_mismatch, arith,
  traverse_from,
}
use drivechain_esplora.Chain.OutPoint.{OutPoint, regular, deposit}
use drivechain_esplora.Chain.Block
use drivechain_esplora.Chain.Block.{
  Transaction, Input, Output, TxInfo, MempoolTx, Deposit, BlockIndex, Header, coinbase_txid,
  coinbase_encoding, coinbase_source,
}
use drivechain_esplora.Chain.Content.{Content}
use drivechain_esplora.Store.Tables
use drivechain_esplora.Index.Prepare.{prepare, new_output, prepare_txs, prepare_tx, prepare_mempool}
use drivechain_esplora.Index.Prepare.Points.{IsPrepared, prepare_points, prepare_mismatch}
use drivechain_esplora.Index.Prepare.Agree.{
  rows_of, tx_of, info_of, mempool_rows, prepare_txs-prepare_mempool,
}

abbrev pub content : Bytes → Result Content
content bytes = ok (record { value_sats = 500; kind = "value" })

abbrev pub digest : Bytes → Bytes
digest bytes = 77 ∷ []

abbrev old_coin : OutPoint
old_coin = record { kind = regular; source = 3 ∷ []; vout = 1 }

abbrev pay : Transaction
pay = record {
  inputs = record { out_point = old_coin; leaf_hash = [] } ∷ [];
  outputs =
      record { address = 1 ∷ []; content = [] } ∷ record { address = 2 ∷ []; content = [] } ∷ [];
}

abbrev pay_info : TxInfo
pay_info = record { txid = 4 ∷ []; size = 250; raw = []; skipped = false }

abbrev pub block : Block.Block
block = record {
  header = record { merkle_root = 6 ∷ []; prev_side_hash = none; prev_main_hash = 50 ∷ [] };
  body = record {
    coinbase = record {
      memo = [];
      outputs = record { address = 9 ∷ []; content = [] } ∷ [];
      keyed_by_txid = true;
    };
    transactions = pay ∷ [];
    authorizations = [];
  };
}

abbrev paid_in : Deposit
paid_in = record {
  out_point = record { kind = deposit; source = 5 ∷ []; vout = 0 };
  output = record { address = 1 ∷ []; content = [] };
}

abbrev pub index : BlockIndex
index = record {
  txs = pay_info ∷ [];
  deposits = paid_in ∷ [];
  bundle_spends = [];
  market_creates = [];
  market_deletes = [];
}

abbrev index_rows : Result Tables.Block → Tables.Block
index_rows (ok b) = b
index_rows (err e) = record {
  height = 0;
  hash = [];
  prev_hash = none;
  merkle_root = [];
  main_hash = [];
  main_height = none;
  block_time = none;
  txs = [];
  creates = [];
  spends = [];
}

abbrev rows : Tables.Block
rows = index_rows (prepare content digest 8 (80 ∷ []) block index none)

prepare-rows : prepare content digest 8 (80 ∷ []) block index none ≡ ok rows
unfolding prepare prepare_txs prepare_tx new_output traverse_from coinbase_source coinbase_txid
    coinbase_encoding
prepare-rows = refl

prepare_points_example : IsPrepared content digest 8 (80 ∷ []) block index none rows
prepare_points_example =
    prepare_points content digest 8 (80 ∷ []) block index none rows prepare-rows

abbrev short_index : BlockIndex
short_index = record index { txs = [] }

two_named_one_held : prepare content digest 8 (80 ∷ []) block short_index none ≡ err count_mismatch
two_named_one_held =
    prepare_mismatch content digest 8 (80 ∷ []) block short_index none
      (λ e. absurd (omega (arith, e)))

abbrev pub unconfirmed : List MempoolTx
unconfirmed = record { info = pay_info; tx = pay } ∷ record { info = pay_info; tx = pay } ∷ []

prepare_txs-prepare_mempool_example :
    rows_of (prepare_txs content 0 (map tx_of unconfirmed) (map info_of unconfirmed))
    ≡ mempool_rows (prepare_mempool content unconfirmed)
prepare_txs-prepare_mempool_example =
    prepare_txs-prepare_mempool content unconfirmed (refl, (refl, tt))
