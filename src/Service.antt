-- ===== src/Service.antt =====
-- internal/service/service.go: the wrapper around one connection. The connector is outside this
-- program, so each call is handed what it answers; a nil connector and a nil closer are flags.
-- `closed` records the connections handed to the closer, and a subscriber is its channel's buffer.
use drivechain_esplora.Base.{
  ℕ, Bool, true, false, ◌&&◌, not, Option, none, some, List, [], ◌∷◌, ◌++◌, map, if◌then◌else◌,
  Result, ok, err, unavailable,
}
pub mod Laws
pub mod Shutdown

pub record Service (T : Type 0) : Type 0 where
  pub has_connector : Bool
  pub has_closer : Bool
  pub client : T
  pub have : Bool
  pub connected : Bool
  pub closed : List T
  pub subs : List (Option Bool)

-- A send that never blocks: a channel holds one value, and a full one misses the new value.
abbrev pub send : Bool → Option Bool → Option Bool
send v none = some v
send v (some w) = some w

abbrev pub beq : Bool → Bool → Bool
beq true b = b
beq false b = not b

module _ {T : Type 0} where
  -- New: `zero` is the zero value of the connection type.
  unfoldable pub new : Bool → Bool → T → Service T
  new has_connector has_closer zero = record {
    has_connector = has_connector;
    has_closer = has_closer;
    client = zero;
    have = false;
    connected = false;
    closed = [];
    subs = [];
  }

  -- setConnected
  unfoldable pub set_connected : Bool → Service T → Service T
  set_connected v s =
      if beq s.connected v then s else record s { connected = v; subs = map (send v) s.subs }

  -- The swap under the lock, and the closer on the old connection.
  abbrev pub replace : T → Service T → Service T
  replace client s = record s {
    client = client;
    have = true;
    closed = if s.have && s.has_closer then s.closed ++ (s.client ∷ []) else s.closed;
  }

  abbrev pub connect_with : Result T → Service T → Result T × Service T
  connect_with (err e) s = (err unavailable, set_connected false s)
  connect_with (ok client) s = (ok client, set_connected true (replace client s))

  -- Connect, where the connector answers `answer`.
  unfoldable pub connect : Result T → Service T → Result T × Service T
  connect answer s =
      if s.has_connector then connect_with answer s else (err unavailable, set_connected false s)

  -- Get
  unfoldable pub get : Result T → Service T → Result T × Service T
  unfolding connect
  get answer s = if s.connected then (ok s.client, s) else connect answer s

  -- Drop
  unfoldable pub drop : Service T → Service T
  unfolding set_connected
  drop s = set_connected false s

  -- One tick of the reconnect loop of Run.
  unfoldable pub tick : Result T → Service T → Service T
  unfolding connect
  tick answer s = if s.connected then s else (connect answer s).1

  -- close, which Run calls when its context ends.
  unfoldable pub close : Service T → Service T
  close s = record s {
    have = false;
    closed = if s.have && s.has_closer then s.closed ++ (s.client ∷ []) else s.closed;
  }

  -- ConnectedChan: the new channel holds the current state.
  unfoldable pub subscribe : Service T → Service T
  subscribe s = record s { subs = s.subs ++ (some s.connected ∷ []) }
