-- ===== src/Tests/Routes.antt =====
-- The routes, the relays and the enforcer at concrete requests.
use drivechain_esplora.Base.{
  ℕ, ◌+◌, ◌≡◌, refl, true, false, Option, none, some, List, [], ◌∷◌, map, replicate, Bytes, Result,
  ok, err, node_failed, bytes_dec, traverse_from, insert_by, sort_by,
}
use drivechain_esplora.Chain.Text.{put_u32}
use drivechain_esplora.Chain.Hash.{Hash, parse_address}
use drivechain_esplora.Chain.OutPoint.{key}
use drivechain_esplora.Store.Tables.{OutputRow, MempoolOutputRow, MempoolSpendRow, Db}
use drivechain_esplora.Store.Tables
use drivechain_esplora.Store.Read
use drivechain_esplora.Store.Tx
use drivechain_esplora.Store.Tx.{BlockRow, block_at_height}
use drivechain_esplora.Store.Mempool.Query as Pending
use drivechain_esplora.Service
use drivechain_esplora.Service.{Service}
use drivechain_esplora.Index.Relay.{broadcast, pending, last_failed_height}
use drivechain_esplora.Index.Relay.Recover.{Recovers, relays_recover}
use drivechain_esplora.Api.Reply.{Reply, refuse, reply}
use drivechain_esplora.Api.Esplora.{Utxo, new_utxo}
use drivechain_esplora.Api.Server.{
  get_store, address_key, block_list_size, page_size, recent_list_size, activity_list_size,
  deposit_list_size,
}
use drivechain_esplora.Api.Blocks
use drivechain_esplora.Api.Mempool
use drivechain_esplora.Api.Address
use drivechain_esplora.Api.Limits.{AtMost, routes-AtMost}
use drivechain_esplora.Api.Address.{address_utxos}
use drivechain_esplora.Api.Transactions.Place.{still}
use drivechain_esplora.Api.Unavailable.{RoutesRefuse, down, routes_refuse}
use drivechain_esplora.Tests.Rows.{no_rows}

abbrev address : Bytes
address = replicate 20 1

abbrev id : Hash
id = replicate 32 0

abbrev decode58 : Bytes → Option Bytes
decode58 text = some address

abbrev coin : ℕ → OutputRow
coin vout = record {
  outpoint = key (record { kind = 0; source = id; vout = vout });
  kind = 0;
  source_id = id;
  vout = vout;
  block_hash = id;
  address = address;
  scripthash = [];
  value_sats = 500;
  content = [];
  content_type = "value";
  height = 0;
  height_exact = true;
  spent = none;
}

-- Two coins of one address in a block; the mempool spends the first and makes a third.
abbrev wallet : Db
wallet = record no_rows {
  blocks =
      record {
        height = 0;
        hash = id;
        prev_hash = none;
        merkle_root = id;
        main_hash = id;
        main_height = none;
        block_time = some 1700000000;
        tx_count = 1;
      }
      ∷ [];
  txs =
      record { txid = id; height = 0; tx_index = 0; size_bytes = 100; fee_sats = 0; raw = [] } ∷ [];
  outputs = coin 0 ∷ coin 1 ∷ [];
  mempool_outputs =
      record {
        outpoint = key (record { kind = 0; source = replicate 32 9; vout = 0 });
        kind = 0;
        source_id = replicate 32 9;
        vout = 0;
        address = address;
        scripthash = [];
        value_sats = 400;
        content = [];
        content_type = "value";
      }
      ∷ [];
  mempool_spends =
      record {
        outpoint = key (record { kind = 0; source = id; vout = 0 });
        source = replicate 32 9;
        kind = 0;
        vin = 0;
      }
      ∷ [];
}

abbrev body_of : Reply (List Utxo) × ℕ → List Utxo
body_of (reply out, k) = out
body_of (refuse s, k) = []

abbrev plain : Bytes → Bytes
plain b = b

abbrev listed : List Utxo
listed = body_of (
    address_utxos plain decode58 (record { connected = true; views = λ _. some wallet }) false [] 0)

listed_values : map (λ (u : Utxo). u.value) listed ≡ 500 ∷ 400 ∷ []
unfolding address_utxos address_key get_store parse_address Read.utxos Read.check_key_column
    new_utxo Pending.mempool_spent_outpoints Pending.mempool_utxos traverse_from insert_by sort_by
    key bytes_dec put_u32
listed_values = refl

abbrev text : Bytes
text = replicate 64 b'0'

abbrev row_of : Result BlockRow → BlockRow
row_of (ok b) = b
row_of (err e) = Tx.zero_block

abbrev block_row : BlockRow
block_row = row_of (block_at_height 0 wallet)

abbrev first_tx : Tables.TxRow
first_tx = record { txid = id; height = 0; tx_index = 0; size_bytes = 100; fee_sats = 0; raw = [] }

routes_refuse_example : RoutesRefuse plain decode58 false text text (down (λ _. none))
routes_refuse_example = routes_refuse plain decode58 false text text (λ _. none)

abbrev off : Service ℕ
off = Service.new true true 0

abbrev refused : {A : Type 0} → ℕ → Result A
refused node = err node_failed

abbrev not_taken : ℕ → Bytes → Result Hash
not_taken node tx = err node_failed

abbrev taken : ℕ → Bytes → Result Hash
taken node tx = ok (node ∷ tx)

abbrev bundle_of : ℕ → Result (Option Bytes)
bundle_of node = ok none

abbrev height_of : ℕ → Result (Option ℕ)
height_of node = ok (some (node + 1))

relays_recover_example :
    Recovers
      (broadcast (ok 6) taken (9 ∷ []))
      (6 ∷ 9 ∷ [])
      (broadcast (ok 5) not_taken (8 ∷ []) off)
    × Recovers (pending (ok 6) bundle_of) none (pending (ok 5) refused off)
    × Recovers
        (last_failed_height (ok 6) height_of)
        (some 7)
        (last_failed_height (ok 5) refused off)
unfolding Service.new
relays_recover_example =
    relays_recover (ok 5) off 6 not_taken taken (8 ∷ []) (9 ∷ []) (6 ∷ 9 ∷ []) refused bundle_of
      none refused height_of (some 7) refl refl refl refl

routes-AtMost_example :
    AtMost block_list_size (Blocks.blocks (still wallet) [])
    × AtMost page_size (Blocks.block_txs (still wallet) plain [] [])
    × AtMost recent_list_size (Mempool.mempool_recent (still wallet))
    × AtMost activity_list_size (Mempool.recent_activity (still wallet))
    × AtMost deposit_list_size (Address.deposits (still wallet) [])
routes-AtMost_example = routes-AtMost (still wallet) plain [] []
