-- ===== src/Tests/Rows.antt =====
-- The store at a small database: a block at height 0, and one on top of it that spends its coin.
use Prim.Native.String.{String}
use drivechain_esplora.Base.{
  ℕ, ◌≡◌, ◌≢◌, refl, true, none, some, [], ◌∷◌, Bytes, Result, ok, err, arith, other_chain, inl,
  bytes_dec,
}
use drivechain_esplora.Chain.Text.{put_u32}
use drivechain_esplora.Chain.OutPoint.{OutPoint, coinbase, regular, key}
use drivechain_esplora.Store.Tables
use drivechain_esplora.Store.Tables.{Db, Output, Spend, Tx}
use drivechain_esplora.Store.Write.{
  insert_block, insert_txs, insert_outputs, apply_spends, set_fees, clear_mempool, set_tip, apply,
  rollback,
}
use drivechain_esplora.Store.Write.Restore.{SameChain}
use drivechain_esplora.Store.Write.Reorg.{Extends, here, next, rollback-Extends}
use drivechain_esplora.Store.Write.Gapless.{
  IsGapless, IsFresh, rollback-IsGapless, apply-IsGapless, apply-IsFresh,
}
use drivechain_esplora.Store.State.{init}
use drivechain_esplora.Store.Mempool.{
  replace_mempool, insert_mempool_txs, insert_mempool_outputs, insert_mempool_spends,
  set_mempool_fees,
}
use drivechain_esplora.Store.Concurrent.{
  Transaction, of_block_syncer, run, index_tables, run-index_tables,
}
use drivechain_esplora.Base.{keep, List}
use drivechain_esplora.Store.Mempool.Stable.{replace_mempool_stable}
use drivechain_esplora.Store.State.Identity.{init_identity, init_other}

abbrev pub no_rows : Db
no_rows = record {
  blocks = [];
  txs = [];
  outputs = [];
  sync_state = none;
  mempool_txs = [];
  mempool_outputs = [];
  mempool_spends = [];
}

abbrev pub opened : Db
opened = record no_rows {
  sync_state = some (record { chain = "thunder"; network = "signet"; tip = none });
}

pub opened-IsFresh : IsFresh opened
opened-IsFresh = record {
  state = record { chain = "thunder"; network = "signet"; tip = none };
  initialised = refl;
  no_tip = refl;
  blocks = refl;
  txs = refl;
  outputs = refl;
}

init_twice :
    (d' : Db) × (init "thunder" "signet" no_rows ≡ ok d') × (init "thunder" "signet" d' ≡ ok d')
init_twice = init_identity "thunder" "signet" no_rows refl

init-opened : init "thunder" "signet" no_rows ≡ ok opened
unfolding init
init-opened = refl

abbrev zside : String
zside = "zside"

zside_ne_thunder : zside ≢ "thunder"
zside_ne_thunder e = cc

other_chain_refused : init "zside" "signet" opened ≡ err other_chain
other_chain_refused =
    init_other "thunder" "signet" "zside" "signet" no_rows opened init-opened (inl zside_ne_thunder)

abbrev pub sha : Bytes → Bytes
sha s = s

abbrev minted : OutPoint
minted = record { kind = coinbase; source = 7 ∷ []; vout = 0 }

abbrev paid : OutPoint
paid = record { kind = regular; source = 9 ∷ []; vout = 0 }

abbrev output : OutPoint → ℕ → Output
output o value = record {
  out_point = o;
  address = 1 ∷ [];
  value_sats = value;
  content = [];
  content_type = "value";
  height_exact = true;
}

abbrev pub first_block : Tables.Block
first_block = record {
  height = 0;
  hash = 100 ∷ [];
  prev_hash = none;
  merkle_root = 7 ∷ [];
  main_hash = 50 ∷ [];
  main_height = none;
  block_time = none;
  txs = [];
  creates = output minted 1000 ∷ [];
  spends = [];
}

abbrev pub second_block : Tables.Block
second_block = record {
  height = 1;
  hash = 101 ∷ [];
  prev_hash = some (100 ∷ []);
  merkle_root = 8 ∷ [];
  main_hash = 51 ∷ [];
  main_height = none;
  block_time = none;
  txs = record { txid = 9 ∷ []; index = 0; size_bytes = 200; fee_sats = 0; raw = [] } ∷ [];
  creates = output paid 900 ∷ [];
  spends = record { out_point = minted; source = 9 ∷ []; kind = 0; vin = 0 } ∷ [];
}

abbrev rows_of : Result (Db × ℕ) → Db
rows_of (ok p) = p.0
rows_of (err e) = no_rows

abbrev pub one_block : Db
one_block = rows_of (apply sha first_block opened)

abbrev pub two_blocks : Db
two_blocks = rows_of (apply sha second_block one_block)

pub apply-first : apply sha first_block opened ≡ ok (one_block, 0)
unfolding apply insert_block insert_outputs insert_txs apply_spends set_fees clear_mempool set_tip
    key bytes_dec put_u32
apply-first = refl

pub apply-second : apply sha second_block one_block ≡ ok (two_blocks, 0)
unfolding apply insert_block insert_outputs insert_txs apply_spends set_fees clear_mempool set_tip
    key bytes_dec put_u32
apply-second = refl

-- The second block takes a fee of 100.
second_fee :
    two_blocks.txs
    ≡ record { txid = 9 ∷ []; height = 1; tx_index = 0; size_bytes = 200; fee_sats = 100; raw = [] }
      ∷ []
unfolding apply insert_block insert_outputs insert_txs apply_spends set_fees clear_mempool set_tip
    key bytes_dec put_u32
second_fee = refl

pub one_block-IsGapless : IsGapless 0 one_block
one_block-IsGapless =
    apply-IsFresh sha first_block opened one_block 0 refl opened-IsFresh apply-first

pub two_blocks-IsGapless : IsGapless 1 two_blocks
two_blocks-IsGapless =
    apply-IsGapless sha 0 second_block one_block two_blocks 0 refl (omega arith) one_block-IsGapless
      apply-second

apply-IsGapless_example : IsGapless 1 two_blocks
apply-IsGapless_example =
    apply-IsGapless sha 0 second_block one_block two_blocks 0 refl (omega arith) one_block-IsGapless
      apply-second

rolled_back_first : IsGapless 0 (rollback 0 two_blocks)
rolled_back_first = rollback-IsGapless 1 0 two_blocks (omega arith) two_blocks-IsGapless

stacked : Extends sha 0 one_block two_blocks
unfolding apply insert_block insert_outputs insert_txs apply_spends set_fees clear_mempool set_tip
    key bytes_dec put_u32
stacked = next here second_block refl ((λ e. refl), tt) apply-second

rollback-Extends_example : SameChain (rollback 0 two_blocks) one_block
rollback-Extends_example = rollback-Extends sha 0 one_block one_block-IsGapless.level stacked

abbrev pool : Tables.Mempool
pool = record {
  txs = record { txid = 30 ∷ []; index = 0; size_bytes = 150; raw = [] } ∷ [];
  creates = output (record { kind = regular; source = 30 ∷ []; vout = 0 }) 850 ∷ [];
  spends = record { out_point = paid; source = 30 ∷ []; kind = 0; vin = 0 } ∷ [];
}

abbrev database_of : Result Db → Db
database_of (ok d) = d
database_of (err e) = no_rows

abbrev pooled : Db
pooled = database_of (replace_mempool sha 1700000000 pool two_blocks)

replace-pooled : replace_mempool sha 1700000000 pool two_blocks ≡ ok pooled
unfolding replace_mempool insert_mempool_txs insert_mempool_outputs insert_mempool_spends
    set_mempool_fees apply insert_block insert_outputs insert_txs apply_spends set_fees
    clear_mempool set_tip key bytes_dec put_u32
replace-pooled = refl

replace_mempool_stable_example : replace_mempool sha 1700009999 pool pooled ≡ ok pooled
replace_mempool_stable_example =
    replace_mempool_stable sha 1700000000 1700009999 pool two_blocks pooled replace-pooled

-- Between the two blocks the mempool syncer writes its snapshot twice.
abbrev interleaved : List Transaction
interleaved =
    Transaction.apply first_block
    ∷ Transaction.replace_mempool 1700000000 pool
    ∷ Transaction.apply second_block
    ∷ Transaction.replace_mempool 1700000003 pool
    ∷ Transaction.rollback 0
    ∷ []

run-index_tables_example :
    index_tables sha (run sha interleaved opened)
    ≡ index_tables sha (run sha (keep of_block_syncer interleaved) opened)
run-index_tables_example = run-index_tables sha interleaved opened
