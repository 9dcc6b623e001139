-- ===== src/Index/Relay/Get.antt =====
-- Get of internal/service/service.go, before a call of internal/index/broadcast.go and withdrawals.go.
use drivechain_esplora.Base.{
  ◌≡◌, refl, sym, ◌∙◌, subst, Bool, true, false, Bool-cases, inl, inr, Result, ok, err,
}
use drivechain_esplora.Service
use drivechain_esplora.Service.{Service}

module _ {T : Type 0} where
  pub set_connected-connected :
      (v : Bool) (s : Service T) → (Service.set_connected v s).connected ≡ v
  unfolding Service.set_connected
  set_connected-connected true s = elim (Bool-cases s.connected) [
    | inl e ↦ rw e refl
    | inr e ↦ rw e refl
  ]
  set_connected-connected false s = elim (Bool-cases s.connected) [
    | inl e ↦ rw e refl
    | inr e ↦ rw e refl
  ]

  set_connected-has_connector :
      (v : Bool) (s : Service T) → (Service.set_connected v s).has_connector ≡ s.has_connector
  unfolding Service.set_connected
  set_connected-has_connector true s = elim (Bool-cases s.connected) [
    | inl e ↦ rw e refl
    | inr e ↦ rw e refl
  ]
  set_connected-has_connector false s = elim (Bool-cases s.connected) [
    | inl e ↦ rw e refl
    | inr e ↦ rw e refl
  ]

  get-on :
      (answer : Result T) (s : Service T)
      → s.connected ≡ true
      → Service.get answer s ≡ (ok s.client, s)
  unfolding Service.get
  get-on answer s on = rw on refl

  -- Get on a wrapper that is not connected asks the connector.
  pub get-off :
      (answer : Result T) (s : Service T)
      → s.connected ≡ false
      → s.has_connector ≡ true
      → Service.get answer s ≡ Service.connect_with answer s
  unfolding Service.get Service.connect
  get-off answer s off has = rw (off, has) refl

  -- A wrapper that may connect again and is not connected.
  abbrev pub Off : Service T → Type 0
  Off s = (s.connected ≡ false) × (s.has_connector ≡ true)

  pub set_connected-Off :
      (s : Service T) → s.has_connector ≡ true → Off (Service.set_connected false s)
  set_connected-Off s has =
      (set_connected-connected false s, set_connected-has_connector false s ∙ has)

  -- What Get leaves: connected with a client, or ready to connect again without one.
  abbrev pub Got : Result T × Service T → Type 0
  Got (ok c, s) = (s.connected ≡ true) × (s.has_connector ≡ true)
  Got (err e, s) = Off s

  connect_with-Got :
      (answer : Result T) (s : Service T)
      → s.has_connector ≡ true
      → Got (Service.connect_with answer s)
  connect_with-Got (ok c) s has = (
    set_connected-connected true (Service.replace c s),
    set_connected-has_connector true (Service.replace c s) ∙ has,
  )
  connect_with-Got (err e) s has = set_connected-Off s has

  pub get-Got :
      (answer : Result T) (s : Service T) → s.has_connector ≡ true → Got (Service.get answer s)
  get-Got answer s has = elim (Bool-cases s.connected) [
    | inl on ↦ subst Got (sym (get-on answer s on)) (on, has)
    | inr off ↦ subst Got (sym (get-off answer s off has)) (connect_with-Got answer s has)
  ]
