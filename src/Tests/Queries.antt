-- ===== src/Tests/Queries.antt =====
-- The reads of the store and the start of the schema at the small database of Tests.Rows.
use Prim.Native.String.{String}
use drivechain_esplora.Base.{
  ℕ, ◌+◌, ◌≡◌, refl, true, none, some, List, [], ◌∷◌, map, length, min, take, get_elem?, any, ◌==◌,
  sum_by, All, Result, ok, err, arith, bytes_dec, traverse_from, insert_by, sort_by,
}
use drivechain_esplora.Chain.Text.{put_u32}
use drivechain_esplora.Chain.OutPoint.{key}
use drivechain_esplora.Store.Tables
use drivechain_esplora.Store.Tables.{OutputRow, Db}
use drivechain_esplora.Store.Write.{
  insert_block, insert_txs, insert_outputs, apply_spends, set_fees, clear_mempool, set_tip, apply,
  rollback,
}
use drivechain_esplora.Store.Write.Refine.{Holds}
use drivechain_esplora.Store.Write.Runs.{
  push, cut, Step, applied, rolled, Steps, done, step, Steps-Holds,
}
use drivechain_esplora.Store.State.{tip, hash_at}
use drivechain_esplora.Base.{any, true}
use drivechain_esplora.Store.Read.{TxoStats, Utxo, column_address, check_key_column, stats, utxos}
use drivechain_esplora.Store.Read.Balance.{stats-utxos}
use drivechain_esplora.Store.Tx.{BlockRow, scan_block, blocks}
use drivechain_esplora.Store.Tx.Pages.{down_from, blocks-page}
use drivechain_esplora.Store.Migrate.{Migrated}
use drivechain_esplora.Api.Address.Paging.{Small, crawl, crawl_enough}
use drivechain_esplora.Tests.Rows.{
  opened, sha, first_block, second_block, one_block, two_blocks, apply-first, apply-second,
}

opened-Holds : Holds [] opened
unfolding hash_at tip
opened-Holds = record {
  hashes = λ k. refl;
  state = record { chain = "thunder"; network = "signet"; tip = none };
  initialised = refl;
  tip_newest = refl;
  keyed = tt;
}

first_step : Step sha (push (100 ∷ [])) opened one_block
unfolding tip
first_step = applied first_block opened one_block 0 refl apply-first

second_step : Step sha (push (101 ∷ [])) one_block two_blocks
unfolding tip apply insert_block insert_outputs insert_txs apply_spends set_fees clear_mempool
    set_tip key bytes_dec put_u32
second_step = applied second_block one_block two_blocks 0 refl apply-second

back_step : Step sha (cut 0) two_blocks (rollback 0 two_blocks)
unfolding tip apply insert_block insert_outputs insert_txs apply_spends set_fees clear_mempool
    set_tip key bytes_dec put_u32
back_step = rolled 0 1 (101 ∷ []) two_blocks refl (omega arith) (omega arith)

extended : Steps sha (push (100 ∷ []) ∷ push (101 ∷ []) ∷ []) opened two_blocks
extended =
    step (push (100 ∷ [])) (push (101 ∷ []) ∷ []) opened one_block two_blocks first_step
      (step (push (101 ∷ [])) [] one_block two_blocks two_blocks second_step (done two_blocks))

two_blocks-Holds : Holds ((100 ∷ []) ∷ (101 ∷ []) ∷ []) two_blocks
two_blocks-Holds =
    Steps-Holds sha (push (100 ∷ []) ∷ push (101 ∷ []) ∷ []) [] opened two_blocks extended
      opened-Holds

rolled_back : Steps sha (cut 0 ∷ []) two_blocks (rollback 0 two_blocks)
rolled_back =
    step (cut 0) [] two_blocks (rollback 0 two_blocks) (rollback 0 two_blocks) back_step
      (done (rollback 0 two_blocks))

Steps-Holds_example : Holds ((100 ∷ []) ∷ []) (rollback 0 two_blocks)
Steps-Holds_example =
    Steps-Holds sha (cut 0 ∷ []) ((100 ∷ []) ∷ (101 ∷ []) ∷ []) two_blocks (rollback 0 two_blocks)
      rolled_back two_blocks-Holds

abbrev page_rows : Result (List BlockRow) → List BlockRow
page_rows (ok rows) = rows
page_rows (err e) = []

abbrev page : List BlockRow
page = page_rows (blocks 5 10 two_blocks)

blocks-two : blocks 5 10 two_blocks ≡ ok page
unfolding blocks scan_block traverse_from insert_by sort_by apply insert_block insert_outputs
    insert_txs apply_spends set_fees clear_mempool set_tip key bytes_dec put_u32
blocks-two = refl

blocks-page_example :
    (map (λ (r : BlockRow). r.height) page ≡ take 10 (down_from (min (5 + 1) 2)))
    × All (λ (r : BlockRow). get_elem? ((100 ∷ []) ∷ (101 ∷ []) ∷ []) r.height ≡ some r.hash) page
blocks-page_example =
    blocks-page ((100 ∷ []) ∷ (101 ∷ []) ∷ []) two_blocks two_blocks-Holds (omega arith) 5 10 page
      (omega arith) blocks-two

abbrev stats_of : Result TxoStats → TxoStats
stats_of (ok s) = s
stats_of (err e) = record {
  funded_count = 0;
  funded_sum = 0;
  spent_count = 0;
  spent_sum = 0;
  tx_count = 0;
}

abbrev rows_of : Result (List Utxo) → List Utxo
rows_of (ok rows) = rows
rows_of (err e) = []

abbrev totals : TxoStats
totals = stats_of (stats column_address (1 ∷ []) two_blocks)

abbrev unspent : List Utxo
unspent = rows_of (utxos column_address (1 ∷ []) two_blocks)

stats-two : stats column_address (1 ∷ []) two_blocks ≡ ok totals
unfolding stats check_key_column apply insert_block insert_outputs insert_txs apply_spends set_fees
    clear_mempool set_tip key bytes_dec put_u32
stats-two = refl

utxos-two : utxos column_address (1 ∷ []) two_blocks ≡ ok unspent
unfolding utxos check_key_column insert_by sort_by apply insert_block insert_outputs insert_txs
    apply_spends set_fees clear_mempool set_tip key bytes_dec put_u32
utxos-two = refl

-- 1000 and 900 funded, and 1000 spent.
totals_two : (totals.funded_sum ≡ 1900) × (totals.spent_sum ≡ 1000)
unfolding stats check_key_column apply insert_block insert_outputs insert_txs apply_spends set_fees
    clear_mempool set_tip key bytes_dec put_u32
totals_two = (refl, refl)

outputs_placed :
    All
      (λ (r : OutputRow).
        any (λ (b : Tables.BlockRow). b.height == r.height) two_blocks.blocks ≡ true)
      two_blocks.outputs
unfolding apply insert_block insert_outputs insert_txs apply_spends set_fees clear_mempool set_tip
    key bytes_dec put_u32
outputs_placed = (refl, (refl, tt))

stats-utxos_example :
    (totals.funded_sum ≡ totals.spent_sum + sum_by (λ (u : Utxo). u.value_sats) unspent)
    × (totals.funded_count ≡ totals.spent_count + length unspent)
stats-utxos_example =
    stats-utxos column_address (1 ∷ []) two_blocks totals unspent outputs_placed stats-two utxos-two

outputs-Small : All Small two_blocks.outputs
unfolding apply insert_block insert_outputs insert_txs apply_spends set_fees clear_mempool set_tip
    key bytes_dec put_u32
outputs-Small = ((omega arith, omega arith), ((omega arith, tt), tt))

crawl_enough_example : (pages : ℕ) × (crawl column_address (1 ∷ []) two_blocks 2 1 ≡ some pages)
crawl_enough_example =
    crawl_enough column_address (1 ∷ []) two_blocks 2 1 outputs-Small (omega arith)

abbrev run_sql : String → List String → Result (List String)
run_sql name schema = ok (name ∷ schema)

abbrev names : List String
names = "0001_initial.sql" ∷ "0002_mempool.sql" ∷ []

abbrev schema : Migrated (List String)
schema = record { schema = []; recorded = [] }

abbrev migrated : Migrated (List String)
migrated = record { schema = "0002_mempool.sql" ∷ "0001_initial.sql" ∷ []; recorded = names }
