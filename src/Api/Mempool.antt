-- ===== src/Api/Mempool.antt =====
-- The mempool routes of internal/api/handlers.go, health and feeEstimates, and recentActivity of activity.go.
use drivechain_esplora.Base.{
  ℕ, ◌-◌, Bool, List, ◌++◌, map, map_from, Bytes, length, replicate, ok, if◌then◌else◌,
}
use drivechain_esplora.Chain.Hash.{hash_string}
use drivechain_esplora.Store.Mempool.Query as Pending
use drivechain_esplora.Store.Activity as StoreActivity
use drivechain_esplora.Store.Query.{query}
use drivechain_esplora.Api.Reply.{H, ◌>>=◌, ◌>>◌, answer, run, failed, service_unavailable}
use drivechain_esplora.Api.Esplora.{RecentTx, Activity, new_activity, pending_activity, recent_tx}
use drivechain_esplora.Api.Server.{Request, get_store, recent_list_size, activity_list_size}

-- FeeRateSatPerVByte, which is 1.0.
abbrev pub fee_rate_sat_per_vbyte : ℕ
fee_rate_sat_per_vbyte = 1

-- feeEstimates: the entries of the map, by target.
unfoldable pub fee_estimates : List (ℕ × ℕ)
fee_estimates = map_from (λ i rate. (i, rate)) 1 (replicate 25 fee_rate_sat_per_vbyte)

module _ (q : Request) where
  -- mempool
  unfoldable pub mempool : H Pending.Summary
  unfolding get_store failed
  mempool = do get_store q; run failed (query q.views Pending.mempool_summary)

  -- mempoolTxids
  unfoldable pub mempool_txids : H (List Bytes)
  unfolding get_store failed
  mempool_txids = do
    get_store q
    txids ← run failed (query q.views (λ d. ok (Pending.mempool_txids d)))
    answer (map hash_string txids)

  -- mempoolRecent
  unfoldable pub mempool_recent : H (List RecentTx)
  unfolding get_store failed
  mempool_recent = do
    get_store q
    rows ← run failed (query q.views (Pending.mempool_recent recent_list_size))
    answer (map recent_tx rows)

  -- recentActivity
  unfoldable pub recent_activity : H (List Activity)
  unfolding get_store failed new_activity
  recent_activity = do
    get_store q
    pending ← run failed (query q.views (Pending.mempool_recent activity_list_size))
    confirmed ←
        run failed (query q.views (StoreActivity.activity (activity_list_size - length pending)))
    answer (map pending_activity pending ++ map new_activity confirmed)

-- health: what stores.IsConnected answers, and the status with it.
unfoldable pub health : Bool → ℕ × Bool
health connected = (if connected then 200 else service_unavailable, connected)
