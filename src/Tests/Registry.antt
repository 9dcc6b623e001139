-- ===== src/Tests/Registry.antt =====
-- The registry at the chains that package register adds.
use Prim.Native.String.{String}
use drivechain_esplora.Base.{◌+◌, ◌<◌, ◌^◌, ◌≡◌, refl, some, List, [], ◌∷◌, All, ok}
use drivechain_esplora.Chain.Registry.{
  Spec, specs, spec_of, Decoder, port_offset, register, register_all, lookup,
}
use drivechain_esplora.Chain.Registry.Laws.{register-lookup, register_keeps, ports_fit}

abbrev decoder : String → Decoder
decoder name = record {
  name = name;
  decode_content = λ bytes. ok (record { value_sats = 0; kind = name });
}

-- The order of the init function of package register.
abbrev all_decoders : List Decoder
all_decoders =
    decoder "thunder"
    ∷ decoder "bitassets"
    ∷ decoder "bitnames"
    ∷ decoder "coinshift"
    ∷ decoder "photon"
    ∷ decoder "truthcoin"
    ∷ decoder "zside"
    ∷ []

registers_all : register_all all_decoders [] ≡ ok all_decoders
unfolding register_all register
registers_all = refl

register-thunder : register (decoder "thunder") [] ≡ ok (decoder "thunder" ∷ [])
unfolding register
register-thunder = refl

register-zside :
    register (decoder "zside") (decoder "thunder" ∷ [])
    ≡ ok (decoder "thunder" ∷ decoder "zside" ∷ [])
unfolding register
register-zside = refl

register-lookup_example :
    (s : Spec) × (spec_of "thunder" ≡ some s)
    × (lookup "thunder" (decoder "thunder" ∷ []) ≡ ok (s, decoder "thunder"))
register-lookup_example =
    register-lookup (decoder "thunder") [] (decoder "thunder" ∷ []) register-thunder

abbrev thunder_spec : Spec
thunder_spec = record { name = "thunder"; slot = 9; node_base_port = 6009; api_base_port = 3009 }

lookup-thunder : lookup "thunder" (decoder "thunder" ∷ []) ≡ ok (thunder_spec, decoder "thunder")
unfolding lookup
lookup-thunder = refl

lookup_kept :
    lookup "thunder" (decoder "thunder" ∷ decoder "zside" ∷ [])
    ≡ ok (thunder_spec, decoder "thunder")
lookup_kept =
    register_keeps (decoder "zside") (decoder "thunder" ∷ [])
      (decoder "thunder" ∷ decoder "zside" ∷ []) "thunder" (thunder_spec, decoder "thunder")
      register-zside lookup-thunder

offset-mainnet : port_offset "mainnet" ≡ ok 20000
unfolding port_offset
offset-mainnet = refl

mainnet_ports :
    All
      (λ (s : Spec). (s.node_base_port + 20000 < 2 ^ 16) × (s.api_base_port + 20000 < 2 ^ 16))
      specs
mainnet_ports = ports_fit "mainnet" 20000 offset-mainnet
