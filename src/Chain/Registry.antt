-- ===== src/Chain/Registry.antt =====
-- internal/chain/registry.go and internal/chain/register: the chains, their ports on each network, and
-- the decoders that the program has registered. A panic of Register is an error.
use Prim.Native.String.{String}
use text.Mathlib.Text.{◌==◌ as str_eq}
use drivechain_esplora.Base.{
  ℕ, ◌+◌, Bool, Option, none, some, List, [], ◌∷◌, ◌++◌, Bytes, if◌then◌else◌, find?, any, not,
  Result, ok, err, ◌>>=◌, ◌>>◌, fail_if, or_fail, unknown_network, unknown_chain, no_decoder,
  duplicate_decoder,
}
use drivechain_esplora.Chain.Content.{Content}
pub mod Laws

-- Network.portOffset
unfoldable pub port_offset : String → Result ℕ
port_offset network =
    if str_eq network "signet"
    then ok 0
    else if str_eq network "regtest"
    then ok 10000
    else if str_eq network "mainnet"
    then ok 20000
    else err unknown_network

-- ParseNetwork
unfoldable pub parse_network : String → Result String
unfolding port_offset
parse_network s = do offset ← port_offset s; ok s

pub record Spec : Type 0 where
  pub name : String
  pub slot : ℕ
  pub node_base_port : ℕ
  pub api_base_port : ℕ

-- Spec.NodeRPCPort
unfoldable pub node_rpc_port : Spec → String → Result ℕ
unfolding port_offset
node_rpc_port s network = do offset ← port_offset network; ok (s.node_base_port + offset)

-- Spec.APIPort
unfoldable pub api_port : Spec → String → Result ℕ
unfolding port_offset
api_port s network = do offset ← port_offset network; ok (s.api_base_port + offset)

abbrev spec : String → ℕ → ℕ → ℕ → Spec
spec name slot node_base_port api_base_port = record {
  name = name;
  slot = slot;
  node_base_port = node_base_port;
  api_base_port = api_base_port;
}

abbrev pub specs : List Spec
specs =
    spec "bitnames" 2 6002 3002
    ∷ spec "bitassets" 4 6004 3004
    ∷ spec "thunder" 9 6009 3009
    ∷ spec "truthcoin" 13 6013 3013
    ∷ spec "zside" 98 6098 3098
    ∷ spec "photon" 99 6099 3099
    ∷ spec "coinshift" 255 6255 3255
    ∷ []

abbrev pub spec_of : String → Option Spec
spec_of name = find? (λ (s : Spec). str_eq s.name name) specs

-- chain.Decoder
pub record Decoder : Type 0 where
  pub name : String
  pub decode_content : Bytes → Result Content

abbrev pub decoder_of : String → List Decoder → Option Decoder
decoder_of name decoders = find? (λ (d : Decoder). str_eq d.name name) decoders

-- Register: `decoders` is the map, newest last.
unfoldable pub register : Decoder → List Decoder → Result (List Decoder)
register d decoders = do
  s ← or_fail (spec_of d.name) unknown_chain
  fail_if (any (λ (e : Decoder). str_eq e.name d.name) decoders) duplicate_decoder
  ok (decoders ++ (d ∷ []))

-- The init of package register, or any other sequence of registrations.
unfoldable pub register_all : List Decoder → List Decoder → Result (List Decoder)
unfolding register
register_all [] decoders = ok decoders
register_all (d ∷ ds) decoders = register d decoders >>= register_all ds

-- Lookup
unfoldable pub lookup : String → List Decoder → Result (Spec × Decoder)
lookup name decoders = do
  s ← or_fail (spec_of name) unknown_chain
  d ← or_fail (decoder_of name decoders) no_decoder
  ok (s, d)
