-- ===== src/Store/State.antt =====
-- The rest of internal/store/write.go and what the syncer writes beside it: Tip, HashAt, Init and
-- SetMainHeight.
use Prim.Native.String.{String}
use text.Mathlib.Text.{◌==◌ as str_eq}
use drivechain_esplora.Base.{
  ℕ, ◌≡◌, Bool, true, false, ◌&&◌, not, Option, none, some, List, [], ◌∷◌, map, ◌==◌, if◌then◌else◌,
  take, keep, find?, sort_by, Result, ok, err, ◌>>=◌, ◌>>◌, fail_if, other_chain,
}
use drivechain_esplora.Chain.Hash.{Hash}
use drivechain_esplora.Store.Tables.{after, BlockRow, SyncState, Db}
pub mod Identity
pub mod Heights

abbrev pub tip_of : Option SyncState → Option (ℕ × Hash)
tip_of none = none
tip_of (some s) = s.tip

-- Tip
unfoldable pub tip : Db → Option (ℕ × Hash)
tip d = tip_of d.sync_state

abbrev pub hash_of : Option BlockRow → Option Hash
hash_of none = none
hash_of (some r) = some r.hash

-- HashAt
unfoldable pub hash_at : ℕ → Db → Option Hash
hash_at height d = hash_of (find? (λ r. r.height == height) d.blocks)

abbrev init_state : String → String → Option SyncState → Result SyncState
init_state chain network none = ok (record { chain = chain; network = network; tip = none })
init_state chain network (some s) = do
  fail_if (not (str_eq s.chain chain && str_eq s.network network)) other_chain
  ok s

-- Init
unfoldable pub init : String → String → Db → Result Db
init chain network d = do
  s ← init_state chain network d.sync_state
  ok (record d { sync_state = some s })

abbrev pub with_main_height : ℕ → ℕ → BlockRow → BlockRow
with_main_height height main_height r =
    if r.height == height then record r { main_height = some main_height } else r

-- SetMainHeight
unfoldable pub set_main_height : ℕ → ℕ → Db → Db
set_main_height height main_height d = record d {
  blocks = map (with_main_height height main_height) d.blocks;
}
