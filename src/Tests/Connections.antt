-- ===== src/Tests/Connections.antt =====
-- The connection wrapper at concrete calls.
use drivechain_esplora.Base.{ℕ, ◌≡◌, refl, true, false, List, [], ◌∷◌, ◌++◌, ok, err, unavailable}
use drivechain_esplora.Service
use drivechain_esplora.Service.{Service, new, connect, get, set_connected, close, drop}
use drivechain_esplora.Service.Laws.{
  Call, get_call, connect_call, tick_call, drop_call, calls, all_opened, held, calls_account,
}
use drivechain_esplora.Service.Shutdown.{get-close}

abbrev unopened : Service ℕ
unopened = record {
  has_connector = true;
  has_closer = true;
  client = 0;
  have = false;
  connected = false;
  closed = [];
  subs = [];
}

-- A connection that is opened, dropped, not reopened at once, and then replaced by the next tick.
abbrev session : List (Call ℕ)
session =
    get_call (ok 1)
    ∷ drop_call
    ∷ get_call (err unavailable)
    ∷ tick_call (ok 2)
    ∷ connect_call (ok 3)
    ∷ []

calls_account_example :
    (calls session unopened).closed ++ held (calls session unopened)
    ≡ [] ++ all_opened session unopened
calls_account_example = calls_account session unopened (refl, refl)

-- The session opens 1, 2 and 3; the wrapper has released 1 and 2 and holds 3.
session_closed : (calls session unopened).closed ≡ 1 ∷ 2 ∷ []
unfolding calls connect get set_connected drop Service.tick
session_closed = refl

abbrev standing : Service ℕ
standing = record unopened { client = 5; have = true; connected = true }

get-close_example :
    ((get (ok 6) (close standing)).0 ≡ ok 5) × ((close standing).closed ≡ [] ++ (5 ∷ []))
get-close_example = get-close standing (ok 6) refl refl refl
