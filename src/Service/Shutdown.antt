-- ===== src/Service/Shutdown.antt =====
-- Get behind close, of internal/service/service.go.
use drivechain_esplora.Base.{◌≡◌, true, [], ◌∷◌, ◌++◌, Result, ok, arith}
use drivechain_esplora.Service.{Service, get, close}

-- After Run has ended on a standing connection, on a wrapper with a closer, Get answers the
-- connection that Run released.
pub get-close :
    {T : Type 0} (s : Service T) (answer : Result T)
    → s.connected ≡ true
    → s.have ≡ true
    → s.has_closer ≡ true
    → ((get answer (close s)).0 ≡ ok s.client) × ((close s).closed ≡ s.closed ++ (s.client ∷ []))
unfolding get close
get-close s answer hc hh hr = ground arith
