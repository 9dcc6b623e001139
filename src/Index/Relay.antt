-- ===== src/Index/Relay.antt =====
-- internal/index/broadcast.go and withdrawals.go: a call that is handed on to the node. The node is outside
-- the program: `connect` is what the connector answers, and `submit`, `bundle` and `height` what the node
-- of a connection answers to the call.
use drivechain_esplora.Base.{ℕ, Option, Bytes, Result, ok, err}
use drivechain_esplora.Chain.Hash.{Hash}
use drivechain_esplora.Service
use drivechain_esplora.Service.{Service}
pub mod Get
pub mod Recover

module _ {T : Type 0} where
  abbrev pub submitted : Result Hash → Service T → Result Hash × Service T
  submitted (ok txid) s = (ok txid, s)
  submitted (err e) s = (err e, Service.drop s)

  abbrev pub broadcast_on :
      (T → Bytes → Result Hash) → Bytes → Result T × Service T → Result Hash × Service T
  broadcast_on submit tx (ok node, s) = submitted (submit node tx) s
  broadcast_on submit tx (err e, s) = (err e, s)

  -- Broadcast
  unfoldable pub broadcast :
      Result T → (T → Bytes → Result Hash) → Bytes → Service T → Result Hash × Service T
  unfolding Service.get
  broadcast connect submit tx s = broadcast_on submit tx (Service.get connect s)

  abbrev pub bundle_read : Result (Option Bytes) → Service T → Result (Option Bytes) × Service T
  bundle_read (ok bundle) s = (ok bundle, s)
  bundle_read (err e) s = (err e, Service.drop s)

  abbrev pub pending_on :
      (T → Result (Option Bytes)) → Result T × Service T → Result (Option Bytes) × Service T
  pending_on bundle (ok node, s) = bundle_read (bundle node) s
  pending_on bundle (err e, s) = (err e, s)

  -- Pending
  unfoldable pub pending :
      Result T → (T → Result (Option Bytes)) → Service T → Result (Option Bytes) × Service T
  unfolding Service.get
  pending connect bundle s = pending_on bundle (Service.get connect s)

  abbrev pub height_read : Result (Option ℕ) → Service T → Result (Option ℕ) × Service T
  height_read (ok height) s = (ok height, s)
  height_read (err e) s = (err e, Service.drop s)

  abbrev pub last_failed_on :
      (T → Result (Option ℕ)) → Result T × Service T → Result (Option ℕ) × Service T
  last_failed_on height (ok node, s) = height_read (height node) s
  last_failed_on height (err e, s) = (err e, s)

  -- LastFailedHeight
  unfoldable pub last_failed_height :
      Result T → (T → Result (Option ℕ)) → Service T → Result (Option ℕ) × Service T
  unfolding Service.get
  last_failed_height connect height s = last_failed_on height (Service.get connect s)
