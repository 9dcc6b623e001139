-- ===== src/Service/Laws.antt =====
-- Sequences of calls on the wrapper of internal/service/service.go, and its connections.
use drivechain_esplora.Base.{
  ◌≡◌, sym, ap, ◌∙◌, true, false, List, [], ◌∷◌, ◌++◌, if◌then◌else◌, Result, ok, err, arith,
  append_assoc, append-nil,
}
use drivechain_esplora.Service.{Service, set_connected, connect, get, drop, tick, subscribe}

-- One call on the wrapper, with what the connector answers if the call asks it.
pub data Call (T : Type 0) : Type 0 where
  get_call connect_call tick_call : Result T → Call T
  drop_call subscribe_call : Call T

module _ {T : Type 0} where
  -- The calls that the syncers, the handlers and the reconnect loop make.
  pub data Step : Service T → Service T → Type 0 where
    got : (s : Service T) (answer : Result T) → Step s (get answer s).1
    connected : (s : Service T) (answer : Result T) → Step s (connect answer s).1
    dropped : (s : Service T) → Step s (drop s)
    ticked : (s : Service T) (answer : Result T) → Step s (tick answer s)
    subscribed : (s : Service T) → Step s (subscribe s)

  pub data Reach (s : Service T) : Service T → Type 0 where
    here : Reach s s
    next : {t u : Service T} → Reach s t → Step t u → Reach s u

  -- A connection that stands is held.
  abbrev pub IsHeld : Service T → Type 0
  IsHeld s = s.connected ≡ true → s.have ≡ true

  connect-IsHeld : (s : Service T) (answer : Result T) → IsHeld s → IsHeld (connect answer s).1
  unfolding connect set_connected
  connect-IsHeld s (err e) h = ground arith
  connect-IsHeld s (ok c) h = ground arith

  set_connected-IsHeld : (s : Service T) → IsHeld s → IsHeld (set_connected false s)
  unfolding set_connected
  set_connected-IsHeld s h = ground arith

  Step-IsHeld : {s t : Service T} → Step s t → IsHeld s → IsHeld t
  Step-IsHeld (got s answer) h = unfold get in ground (arith, connect-IsHeld s answer h)
  Step-IsHeld (connected s answer) h = connect-IsHeld s answer h
  Step-IsHeld (dropped s) h = unfold drop in set_connected-IsHeld s h
  Step-IsHeld (ticked s answer) h = unfold tick in ground (arith, connect-IsHeld s answer h)
  Step-IsHeld (subscribed s) h = unfold subscribe in h

  pub Reach-IsHeld : {s t : Service T} → IsHeld s → Reach s t → IsHeld t
  Reach-IsHeld h here = h
  Reach-IsHeld h (next r st) = Step-IsHeld st (Reach-IsHeld h r)

  abbrev pub call : Call T → Service T → Service T
  call (get_call answer) s = (get answer s).1
  call (connect_call answer) s = (connect answer s).1
  call (tick_call answer) s = tick answer s
  call drop_call s = drop s
  call subscribe_call s = subscribe s

  unfoldable pub calls : List (Call T) → Service T → Service T
  calls [] s = s
  calls (c ∷ cs) s = calls cs (call c s)

  abbrev answered : Result T → List T
  answered (ok client) = client ∷ []
  answered (err e) = []

  -- The connections that a call opens: `connect` asks the connector always, the others only while
  -- no connection stands.
  abbrev pub opened : Call T → Service T → List T
  opened (connect_call answer) s = answered answer
  opened (get_call answer) s = if s.connected then [] else answered answer
  opened (tick_call answer) s = if s.connected then [] else answered answer
  opened drop_call s = []
  opened subscribe_call s = []

  unfoldable pub all_opened : List (Call T) → Service T → List T
  all_opened [] s = []
  all_opened (c ∷ cs) s = opened c s ++ all_opened cs (call c s)

  abbrev pub held : Service T → List T
  held s = if s.have then s.client ∷ [] else []

  -- A wrapper with a connector and a closer.
  abbrev pub Managed : Service T → Type 0
  Managed s = (s.has_connector ≡ true) × (s.has_closer ≡ true)

  connect_accounts :
      (answer : Result T) (s : Service T)
      → Managed s
      → Managed (connect answer s).1
        × ((connect answer s).1.closed ++ held (connect answer s).1
            ≡ (s.closed ++ held s) ++ answered answer)
  unfolding connect set_connected
  connect_accounts (err e) s m = ground (arith, append-nil (s.closed ++ held s))
  connect_accounts (ok c) s m = ground (arith, append-nil s.closed)

  call_accounts :
      (c : Call T) (s : Service T)
      → Managed s
      → Managed (call c s)
        × ((call c s).closed ++ held (call c s) ≡ (s.closed ++ held s) ++ opened c s)
  call_accounts (get_call answer) s m =
      unfold get in ground (arith, connect_accounts answer s m, append-nil (s.closed ++ held s))
  call_accounts (connect_call answer) s m = connect_accounts answer s m
  call_accounts (tick_call answer) s m =
      unfold tick in ground (arith, connect_accounts answer s m, append-nil (s.closed ++ held s))
  call_accounts drop_call s m =
      unfold drop set_connected in ground (arith, append-nil (s.closed ++ held s))
  call_accounts subscribe_call s m =
      unfold subscribe in ground (arith, append-nil (s.closed ++ held s))

  -- No connection leaks: through any calls on a wrapper with a connector and a closer, what was
  -- released, in order, and the one connection still held are what was released or held at the
  -- start and then all that the connector opened.
  pub calls_account :
      (cs : List (Call T)) (s : Service T)
      → Managed s
      → (calls cs s).closed ++ held (calls cs s) ≡ (s.closed ++ held s) ++ all_opened cs s
  unfolding calls all_opened
  calls_account [] s m = sym (append-nil _)
  calls_account (c ∷ cs) s m =
      let (m', e) = call_accounts c s m in
      calls_account cs (call c s) m'
      ∙ ap (λ (l : List T). l ++ all_opened cs (call c s)) e
      ∙ append_assoc (s.closed ++ held s) (opened c s) (all_opened cs (call c s))
