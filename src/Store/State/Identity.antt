-- ===== src/Store/State/Identity.antt =====
-- Init of internal/store/write.go on a database that is new, and on one that holds a chain.
use Prim.Native.String.{String}
use text.Mathlib.TextEquality.{eq_iff}
use drivechain_esplora.Base.{
  ◌≡◌, ◌≢◌, ◌⊎◌, refl, none, some, ok, err, other_chain, arith, sym, ap, ok-injective, Bool-cases,
  ◌&&◌, inl, inr, Option,
}
use text.Mathlib.Text.{◌==◌ as str_eq}
use drivechain_esplora.Store.Tables.{SyncState, Db}
use drivechain_esplora.Store.State.{init}

-- Init of a database that names no chain yet succeeds, and a second Init with the same names
-- changes nothing.
pub init_identity :
    (chain network : String) (d : Db)
    → d.sync_state ≡ none
    → (d' : Db) × (init chain network d ≡ ok d') × (init chain network d' ≡ ok d')
unfolding init
init_identity chain network d e = (
  record d { sync_state = some (record { chain = chain; network = network; tip = none }) },
  rw e refl,
  ground (arith, eq_iff chain chain, eq_iff network network),
)

-- A database that Init has opened for one chain and network is refused to every other pair of
-- names.
pub init_other :
    (chain network other_name other_net : String) (d d' : Db)
    → init chain network d ≡ ok d'
    → (other_name ≢ chain) ⊎ (other_net ≢ network)
    → init other_name other_net d' ≡ err other_chain
unfolding init
init_other chain network other_name other_net d d' e h = opened d.sync_state refl
  where
    named :
        (s : SyncState)
        → d'.sync_state ≡ some s
        → s.chain ≡ chain
        → s.network ≡ network
        → init other_name other_net d' ≡ err other_chain
    named s es ec en =
        rw es (ground (arith, ec, en, h, eq_iff s.chain other_name, eq_iff s.network other_net))

    opened :
        (o : Option SyncState) → d.sync_state ≡ o → init other_name other_net d' ≡ err other_chain
    opened none eo =
        let eq = ok-injective (rw eo at e) in
        named (record { chain = chain; network = network; tip = none })
          (sym (ap (λ (x : Db). x.sync_state) eq)) refl refl
    opened (some s) eo = elim (Bool-cases (str_eq s.chain chain && str_eq s.network network)) [
      | inl same ↦
          named s (sym (ap (λ (x : Db). x.sync_state) (ok-injective (rw (eo, same) at e))))
            (ground (arith, same, eq_iff s.chain chain))
            (ground (arith, same, eq_iff s.network network))
      | inr other ↦ absurd (ground (arith, rw (eo, other) at e))
    ]
