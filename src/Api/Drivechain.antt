-- ===== src/Api/Drivechain.antt =====
-- The routes of internal/api that read the enforcer (handlers.go) and the node's withdrawal bundles
-- (activity.go).
use drivechain_esplora.Base.{
  ℕ, Option, none, some, List, map, Bytes, leb, ◌==◌, find?, if◌then◌else◌, Result, ok, err,
}
use drivechain_esplora.Chain.Text.{parse_uint32}
use drivechain_esplora.Mainchain.{Sidechain, Ctip}
use drivechain_esplora.Api.Reply.{
  Reply, refuse, reply, missing, bad_request, bad_gateway, service_unavailable,
}

-- The Mainchain interface of server.go, at the moment of one request.
pub record Mainchain : Type 0 where
  pub sidechains : Result (List Sidechain)
  pub ctip : ℕ → Result (Option Ctip)

-- The Withdrawals interface of server.go, at the moment of one request; a bundle is the node's JSON.
pub record Withdrawals : Type 0 where
  pub pending : Result (Option Bytes)
  pub last_failed_height : Result (Option ℕ)

-- SidechainInfo, with the treasury as Ctip.
pub record SidechainInfo : Type 0 where
  pub sidechain : Sidechain
  pub treasury : Option Ctip

pub record WithdrawalState : Type 0 where
  pub bundle : Option Bytes
  pub last_failed_height : Option ℕ

abbrev treasury_of : Result (Option Ctip) → Option Ctip
treasury_of (ok t) = t
treasury_of (err _) = none

-- sidechainInfo: an error leaves the treasury out.
unfoldable pub sidechain_info : (ℕ → Result (Option Ctip)) → Sidechain → SidechainInfo
sidechain_info ctip c = record { sidechain = c; treasury = treasury_of (ctip c.slot) }

abbrev gateway : {A B : Type 0} → Result A → (A → Reply B) → Reply B
gateway (ok a) f = f a
gateway (err _) f = refuse bad_gateway

abbrev found : {A : Type 0} → Option A → Reply A
found none = refuse missing
found (some a) = reply a

-- drivechainSidechains; `none` is a server that reads no mainchain.
unfoldable pub drivechain_sidechains : Option Mainchain → Reply (List SidechainInfo)
unfolding sidechain_info
drivechain_sidechains none = refuse service_unavailable
drivechain_sidechains (some m) =
    gateway m.sidechains λ chains. reply (map (sidechain_info m.ctip) chains)

-- strconv.ParseUint(s, 10, 8)
abbrev byte_of : Option ℕ → Option ℕ
byte_of none = none
byte_of (some n) = if leb n 255 then some n else none

abbrev info_of : Mainchain → Option Sidechain → Option SidechainInfo
info_of m none = none
info_of m (some c) = some (sidechain_info m.ctip c)

abbrev info_at : Mainchain → Option ℕ → Reply SidechainInfo
info_at m none = refuse bad_request
info_at m (some slot) =
    gateway m.sidechains
      λ chains. found (info_of m (find? (λ (c : Sidechain). c.slot == slot) chains))

-- drivechainSidechain
unfoldable pub drivechain_sidechain : Option Mainchain → Bytes → Reply SidechainInfo
unfolding sidechain_info
drivechain_sidechain none raw = refuse service_unavailable
drivechain_sidechain (some m) raw = info_at m (byte_of (parse_uint32 raw))

-- drivechainWithdrawals
unfoldable pub drivechain_withdrawals : Option Withdrawals → Reply WithdrawalState
drivechain_withdrawals none = refuse service_unavailable
drivechain_withdrawals (some w) = gateway w.pending λ bundle.
    gateway w.last_failed_height
      λ height. reply (record { bundle = bundle; last_failed_height = height })
