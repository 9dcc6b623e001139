-- ===== src/Index/Relay/Recover.antt =====
-- The relays of internal/index/broadcast.go and withdrawals.go behind a failed call.
use drivechain_esplora.Base.{
  ◌≡◌, refl, sym, ap, ◌∙◌, subst, true, false, Result, ok, err, ℕ, Option, Bytes,
}
use drivechain_esplora.Service
use drivechain_esplora.Service.{Service}
use drivechain_esplora.Chain.Hash.{Hash}
use drivechain_esplora.Index.Relay.{
  submitted, broadcast_on, broadcast, bundle_read, pending_on, pending, height_read, last_failed_on,
  last_failed_height,
}
use drivechain_esplora.Index.Relay.Get.{
  set_connected-connected, set_connected-Off, get-off, Off, Got, get-Got,
}

module _ {T A : Type 0} where
  -- A relay that answers leaves the wrapper connected; one that fails leaves it not connected, and
  -- `again` then answers `a` and leaves it connected.
  abbrev pub Recovers : (Service T → Result A × Service T) → A → Result A × Service T → Type 0
  Recovers again a (ok b, s) = s.connected ≡ true
  Recovers again a (err e, s) =
      (s.connected ≡ false) × ((again s).0 ≡ ok a) × ((again s).1.connected ≡ true)

  Recovers-same :
      (again again' : Service T → Result A × Service T) (a : A) (x : Result A × Service T)
      → ((s : Service T) → again' s ≡ again s)
      → Recovers again a x
      → Recovers again' a x
  Recovers-same again again' a (ok b, s) same on = on
  Recovers-same again again' a (err e, s) same (off, answer, on) =
      (off, ap (λ x. x.0) (same s) ∙ answer, ap (λ x. x.1.connected) (same s) ∙ on)

  -- What the three relays are meant to be: a call behind Get whose failure drops the connection.
  abbrev answered : Result A → Service T → Result A × Service T
  answered (ok a) s = (ok a, s)
  answered (err e) s = (err e, Service.drop s)

  abbrev on_node : (T → Result A) → Result T × Service T → Result A × Service T
  on_node call (ok node, s) = answered (call node) s
  on_node call (err e, s) = (err e, s)

  abbrev relay : Result T → (T → Result A) → Service T → Result A × Service T
  relay connect call s = on_node call (Service.get connect s)

  module _ (again : T → Result A) (node : T) (a : A) (answer : again node ≡ ok a) where
    next-Recovers :
        (s : Service T)
        → Off s
        → (s.connected ≡ false)
          × ((relay (ok node) again s).0 ≡ ok a)
          × ((relay (ok node) again s).1.connected ≡ true)
    next-Recovers s (off, may) =
        let next : relay (ok node) again s
            ≡ (ok a, Service.set_connected true (Service.replace node s)) =
          ap (on_node again) (get-off (ok node) s off may)
          ∙ ap (λ r. answered r (Service.set_connected true (Service.replace node s))) answer in
        (
          off,
          ap (λ x. x.0) next,
          ap (λ x. x.1.connected) next ∙ set_connected-connected true (Service.replace node s),
        )

    answered-Recovers :
        (r : Result A) (s : Service T)
        → s.connected ≡ true
        → s.has_connector ≡ true
        → Recovers (relay (ok node) again) a (answered r s)
    unfolding Service.drop
    answered-Recovers (ok b) s on has = on
    answered-Recovers (err e) s on has =
        next-Recovers (Service.set_connected false s) (set_connected-Off s has)

    on_node-Recovers :
        (call : T → Result A) (x : Result T × Service T)
        → Got x
        → Recovers (relay (ok node) again) a (on_node call x)
    on_node-Recovers call (ok c, s) (on, has) = answered-Recovers (call c) s on has
    on_node-Recovers call (err e, s) off = next-Recovers s off

    -- What is a relay recovers as a relay does.
    relay-Recovers :
        (run again_run : Service T → Result A × Service T) (connect : Result T)
        (call : T → Result A) (s : Service T)
        → s.has_connector ≡ true
        → run s ≡ relay connect call s
        → ((t : Service T) → again_run t ≡ relay (ok node) again t)
        → Recovers again_run a (run s)
    relay-Recovers run again_run connect call s has first same =
        Recovers-same (relay (ok node) again) again_run a (run s) same (
          subst (Recovers (relay (ok node) again) a) (sym first)
            (on_node-Recovers call (Service.get connect s) (get-Got connect s has)))

module _ {T : Type 0} where
  broadcast-relay :
      (connect : Result T) (submit : T → Bytes → Result Hash) (tx : Bytes) (s : Service T)
      → broadcast connect submit tx s ≡ relay connect (λ node. submit node tx) s
  unfolding broadcast
  broadcast-relay connect submit tx s = got (Service.get connect s)
    where
      told : (r : Result Hash) (s : Service T) → submitted r s ≡ answered r s
      told (ok txid) s = refl
      told (err e) s = refl

      got :
          (x : Result T × Service T) → broadcast_on submit tx x ≡ on_node (λ node. submit node tx) x
      got (ok node, s) = told (submit node tx) s
      got (err e, s) = refl

  pending-relay :
      (connect : Result T) (bundle : T → Result (Option Bytes)) (s : Service T)
      → pending connect bundle s ≡ relay connect bundle s
  unfolding pending
  pending-relay connect bundle s = got (Service.get connect s)
    where
      told : (r : Result (Option Bytes)) (s : Service T) → bundle_read r s ≡ answered r s
      told (ok b) s = refl
      told (err e) s = refl

      got : (x : Result T × Service T) → pending_on bundle x ≡ on_node bundle x
      got (ok node, s) = told (bundle node) s
      got (err e, s) = refl

  last_failed_height-relay :
      (connect : Result T) (height : T → Result (Option ℕ)) (s : Service T)
      → last_failed_height connect height s ≡ relay connect height s
  unfolding last_failed_height
  last_failed_height-relay connect height s = got (Service.get connect s)
    where
      told : (r : Result (Option ℕ)) (s : Service T) → height_read r s ≡ answered r s
      told (ok h) s = refl
      told (err e) s = refl

      got : (x : Result T × Service T) → last_failed_on height x ≡ on_node height x
      got (ok node, s) = told (height node) s
      got (err e, s) = refl

  -- On a wrapper that has a connector, each of Broadcast, Pending and LastFailedHeight leaves the
  -- wrapper connected if it answers; if it fails, for want of a connection or in the node, it
  -- leaves the wrapper not connected, so the next such call connects again, and where the connector
  -- and the node answer that call, it answers what the node does and leaves the wrapper connected.
  pub relays_recover :
      (connect : Result T) (s : Service T) (node : T) (submit submit' : T → Bytes → Result Hash)
      (tx tx' : Bytes) (txid : Hash) (bundle bundle' : T → Result (Option Bytes)) (b : Option Bytes)
      (height height' : T → Result (Option ℕ)) (h : Option ℕ)
      → s.has_connector ≡ true
      → submit' node tx' ≡ ok txid
      → bundle' node ≡ ok b
      → height' node ≡ ok h
      → Recovers (broadcast (ok node) submit' tx') txid (broadcast connect submit tx s)
        × Recovers (pending (ok node) bundle') b (pending connect bundle s)
        × Recovers (last_failed_height (ok node) height') h (last_failed_height connect height s)
  relays_recover connect s node submit submit' tx tx' txid bundle bundle' b height height' h has es
        eb eh =
      (
        relay-Recovers (λ node. submit' node tx') node txid es (broadcast connect submit tx)
            (broadcast (ok node) submit' tx') connect (λ node. submit node tx) s has
            (broadcast-relay connect submit tx s) (broadcast-relay (ok node) submit' tx'),
        relay-Recovers bundle' node b eb (pending connect bundle) (pending (ok node) bundle')
            connect bundle s has (pending-relay connect bundle s) (pending-relay (ok node) bundle'),
        relay-Recovers height' node h eh (last_failed_height connect height)
            (last_failed_height (ok node) height') connect height s has
            (last_failed_height-relay connect height s)
            (last_failed_height-relay (ok node) height'),
      )
