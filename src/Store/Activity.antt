-- ===== src/Store/Activity.antt =====
-- internal/store/activity.go: transactions and deposits as one feed.
use Prim.Native.String.{String}
use text.Mathlib.Text.{◌==◌ as str_eq}
use drivechain_esplora.Base.{
  ℕ, ◌-◌, ◌^◌, Bool, ◌&&◌, ◌||◌, Option, none, some, List, ◌++◌, map, ◌==◌, same, if◌then◌else◌,
  keep, take, find?, any, distinct, filter_map, sort_by, traverse_from, Result, ok, ◌>>=◌,
}
use drivechain_esplora.Chain.Hash.{Hash}
use drivechain_esplora.Chain.OutPoint.{regular, deposit}
use drivechain_esplora.Store.Tables.{after, BlockRow, TxRow, OutputRow, Db}
use drivechain_esplora.Store.Read.{TxRef, fits, value_of, same_ref, creation}
use drivechain_esplora.Store.Tx.{paid_by}

abbrev pub kind_transfer : String
kind_transfer = "transfer"

abbrev pub kind_withdrawal : String
kind_withdrawal = "withdrawal"

abbrev pub kind_deposit : String
kind_deposit = "deposit"

pub record ActivityRow : Type 0 where
  pub kind : String
  pub id : Hash
  pub height : ℕ
  pub block_hash : Hash
  pub block_time : Option ℕ
  pub fee_sats : ℕ
  pub size_bytes : ℕ
  pub value_sats : ℕ

-- A row of the feed, before its block joins it.
pub record Entry : Type 0 where
  pub kind : String
  pub id : Hash
  pub height : ℕ
  pub ordinal : ℕ
  pub fee_sats : ℕ
  pub size_bytes : ℕ
  pub value_sats : ℕ

abbrev pub is_withdrawal : Hash → OutputRow → Bool
is_withdrawal txid o =
    same o.source_id txid && o.kind == regular && str_eq o.content_type "withdrawal"

abbrev pub tx_entry : Db → TxRow → Entry
tx_entry d t = record {
  kind = if any (is_withdrawal t.txid) d.outputs then kind_withdrawal else kind_transfer;
  id = t.txid;
  height = t.height;
  ordinal = t.tx_index;
  fee_sats = t.fee_sats;
  size_bytes = t.size_bytes;
  value_sats = paid_by d t.txid;
}

abbrev pub deposits_of : Db → List OutputRow
deposits_of d = keep (λ (o : OutputRow). o.kind == deposit) d.outputs

-- A group of deposits; the ordinal is the INTEGER -1.
abbrev pub deposit_entry : Db → TxRef → Entry
deposit_entry d g = record {
  kind = kind_deposit;
  id = g.txid;
  height = g.height;
  ordinal = 2 ^ 32 - 1;
  fee_sats = 0;
  size_bytes = 0;
  value_sats = value_of (keep (λ o. same_ref g (creation o)) (deposits_of d));
}

-- UNION ALL of the transactions and the groups of deposits by (source_id, height).
abbrev pub feed : Db → List Entry
feed d =
    map (tx_entry d) d.txs
    ++ map (deposit_entry d) (distinct same_ref (map creation (deposits_of d)))

pub record Joined : Type 0 where
  pub entry : Entry
  pub block : BlockRow

abbrev joined : Entry → Option BlockRow → Option Joined
joined f none = none
joined f (some b) = some (record { entry = f; block = b })

-- activityQuery; the height is the key of blocks.
unfoldable pub activity_query : Db → List Joined
activity_query d =
    filter_map (λ (f : Entry). joined f (find? (λ (b : BlockRow). b.height == f.height) d.blocks))
      (feed d)

abbrev later : Joined → Joined → Bool
later a b = after a.entry.ordinal b.entry.ordinal

abbrev newer : Joined → Joined → Bool
newer a b = after a.entry.height b.entry.height || (a.entry.height == b.entry.height && later a b)

-- scanActivity
unfoldable pub scan_activity : List Joined → Result (List ActivityRow)
scan_activity rows = traverse_from scan 0 rows
  where
    scan : ℕ → Joined → Result ActivityRow
    scan _ j = do
      value_sats ← fits j.entry.value_sats
      ok (record {
        kind = j.entry.kind;
        id = j.entry.id;
        height = j.entry.height;
        block_hash = j.block.hash;
        block_time = j.block.block_time;
        fee_sats = j.entry.fee_sats;
        size_bytes = j.entry.size_bytes;
        value_sats = value_sats;
      })

-- Activity
unfoldable pub activity : ℕ → Db → Result (List ActivityRow)
unfolding activity_query scan_activity
activity limit d = scan_activity (take limit (sort_by newer (activity_query d)))

-- ActivityInBlock
unfoldable pub activity_in_block : Hash → Db → Result (List ActivityRow)
unfolding activity_query scan_activity
activity_in_block hash d =
    scan_activity (sort_by later (keep (λ (j : Joined). same j.block.hash hash) (activity_query d)))
