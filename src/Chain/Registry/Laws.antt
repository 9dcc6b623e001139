-- ===== src/Chain/Registry/Laws.antt =====
-- Register, Lookup and the ports of internal/chain/registry.go.
use Prim.Native.String.{String}
use text.Mathlib.Text.{◌==◌ as str_eq}
use text.Mathlib.TextEquality.{eq_iff}
use drivechain_esplora.Base.{
  ℕ, ◌+◌, ◌<◌, ◌^◌, ◌≡◌, refl, ap, sym, false, Option, none, some, List, [], ◌∷◌, ◌++◌, any, All,
  ok, >>=-eq-ok, fail_if-eq-ok, ok-injective, or_fail, Error, no_decoder, ◌≤◌, unknown_chain,
  duplicate_decoder, arith, Option-cases, inl, inr,
}
use drivechain_esplora.Chain.Registry.{
  Spec, specs, spec_of, Decoder, decoder_of, port_offset, register, lookup,
}

or_fail-eq-ok : {A : Type 0} (o : Option A) (e : Error) (a : A) → or_fail o e ≡ ok a → o ≡ some a
or_fail-eq-ok none e a h = absurd (ground arith)
or_fail-eq-ok (some x) e a h = ap some (ok-injective h)

find_last :
    (name : String) (ds : List Decoder) (d : Decoder)
    → any (λ (e : Decoder). str_eq e.name name) ds ≡ false
    → d.name ≡ name
    → decoder_of name (ds ++ (d ∷ [])) ≡ some d
find_last name [] d fresh e = ground (arith, e, eq_iff d.name name)
find_last name (x ∷ ds) d fresh e = ground (arith, find_last name ds d)

find_before :
    (name : String) (ds : List Decoder) (d x : Decoder)
    → decoder_of name ds ≡ some x
    → decoder_of name (ds ++ (d ∷ [])) ≡ some x
find_before name [] d x e = absurd (ground arith)
find_before name (y ∷ ds) d x e = ground (arith, find_before name ds d x)

-- A decoder that Register takes is the one that Lookup answers for its name, with the chain's spec.
pub register-lookup :
    (d : Decoder) (ds ds' : List Decoder)
    → register d ds ≡ ok ds'
    → (s : Spec) × (spec_of d.name ≡ some s) × (lookup d.name ds' ≡ ok (s, d))
unfolding register lookup
register-lookup d ds ds' e = elim (Option-cases (spec_of d.name)) [
  | inl missing ↦ absurd (ground (arith, rw missing at e))
  | inr (s, found) ↦
      let (fresh, e₁) =
        fail_if-eq-ok (any (λ (x : Decoder). str_eq x.name d.name) ds) duplicate_decoder _
          (rw found at e) in
      (s, found, rw (found, sym (ok-injective e₁), find_last d.name ds d fresh refl) refl)
]

-- A registration changes no lookup that has succeeded.
pub register_keeps :
    (d : Decoder) (ds ds' : List Decoder) (name : String) (p : Spec × Decoder)
    → register d ds ≡ ok ds'
    → lookup name ds ≡ ok p
    → lookup name ds' ≡ ok p
unfolding register lookup
register_keeps d ds ds' name p e h =
    let (s, found, _) = register-lookup d ds ds' e in
    let (fresh, e₁) =
      fail_if-eq-ok (any (λ (x : Decoder). str_eq x.name d.name) ds) duplicate_decoder _
        (rw found at e) in
    let (t, named, h₁) = >>=-eq-ok (or_fail (spec_of name) unknown_chain) _ h in
    let (x, held, h₂) = >>=-eq-ok (or_fail (decoder_of name ds) no_decoder) _ h₁ in
    rw
      (
        named,
        sym (ok-injective e₁),
        find_before name ds d x (or_fail-eq-ok (decoder_of name ds) no_decoder x held),
      )
      h₂

offset_le : (network : String) (k : ℕ) → port_offset network ≡ ok k → k ≤ 20000
unfolding port_offset
offset_le network k e = ground arith

-- On every network that portOffset knows, the ports of all chains fit 16 bits.
pub ports_fit :
    (network : String) (k : ℕ)
    → port_offset network ≡ ok k
    → All (λ (s : Spec). (s.node_base_port + k < 2 ^ 16) × (s.api_base_port + k < 2 ^ 16)) specs
unfolding port_offset
ports_fit network k e = ground (arith, offset_le network k e)
