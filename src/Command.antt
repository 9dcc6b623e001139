-- ===== src/Command.antt =====
-- cmd/drivechain-esplora/main.go: how run turns the configuration into the addresses it dials and serves, and
-- how it answers a connector of the node. Flags, logging, signals and the goroutines are not modelled; slog says which log levels it knows.
use Prim.Native.String.{String}
use text.Mathlib.Text.{◌==◌ as str_eq}
use drivechain_esplora.Base.{
  ℕ, Bool, List, if◌then◌else◌, Result, ok, err, ◌>>=◌, ◌>>◌, fail_if, empty_chain, no_database,
  bad_log_level, not,
}
use drivechain_esplora.Chain.Registry.{
  Spec, parse_network, Decoder, parse_network, lookup, node_rpc_port, api_port,
}

-- The configuration, as the flags give it.
pub record Config : Type 0 where
  pub chain_name : String
  pub network : String
  pub node_url : String
  pub enforcer_url : String
  pub database_url : String
  pub listen : String
  pub log_level : String

-- An address that a flag gives, or a port of 127.0.0.1.
pub data Address : Type 0 where
  given : String → Address
  local : ℕ → Address

pub record Setup : Type 0 where
  pub spec : Spec
  pub decoder : Decoder
  pub node : Address
  pub serve : Address
  pub reads_enforcer : Bool

abbrev or_local : String → Result ℕ → Result Address
or_local text port = if str_eq text "" then (port >>= λ p. ok (local p)) else ok (given text)

module _ (known_level : String → Bool) (decoders : List Decoder) where
  -- readConfig behind the flags, and run up to the first connection.
  unfoldable pub setup : Config → Result Setup
  unfolding parse_network lookup node_rpc_port api_port
  setup cfg = do
    fail_if (str_eq cfg.database_url "") no_database
    fail_if (not (known_level cfg.log_level)) bad_log_level
    network ← parse_network cfg.network
    (spec, decoder) ← lookup cfg.chain_name decoders
    node ← or_local cfg.node_url (node_rpc_port spec network)
    serve ← or_local cfg.listen (api_port spec network)
    ok (record {
      spec = spec;
      decoder = decoder;
      node = node;
      serve = serve;
      reads_enforcer = not (str_eq cfg.enforcer_url "");
    })

-- The connector of the node services: an empty chain is a connection too.
unfoldable pub connect_node : Result ℕ → Result (Unit {0})
connect_node (ok height) = ok tt
connect_node (err empty_chain) = ok tt
connect_node (err e) = err e
