-- ===== src/Router/Spec.antt =====
-- src/router.rs: a route as it is configured, and what is asked of it before it is built. What an
-- address or a network in text stands for is a parameter.
use symphony.Prelude.{
  Bytes, Result, ok, err, ltb, leb, if◌then◌else◌, ℕ, ◌-◌, Bool, true, false, not, ◌&&◌, Option,
  none, some, List, [], ◌∷◌,
}
use symphony.Net.{to_ipv4_mapped}
use symphony.Errors.{
  ConfigError, SymphonyError, no_carrier, undeclared_protocol, bad_source_network,
}
use symphony.Tls.{MtlsSpec}
use symphony.Failover.Policy.{FailoverSpec}
use symphony.Router.{
  SourceAddressMode, ForwardFingerprint, RouteProtocol, opaque, http, requires_http_protocol,
  ClientAuth, passthrough, no_client_cert, client_cert,
}

pub data UpstreamSpec : Type 0 where
  tcp : Bytes → ℕ → UpstreamSpec
  -- paths, pids, tids, ip_affinity, affinity_ttl_ms, protocol
  uds : List Bytes → List (Option ℕ) → List (Option ℕ) → Bool → ℕ → Option Bytes → UpstreamSpec

pub record RouteSpec (F : Type 0) : Type 0 where
  pub sni : Bytes
  pub metrics_group : Bytes
  pub upstreams : List UpstreamSpec
  pub terminate_tls : Bool
  pub cert_pem : Option Bytes
  pub key_pem : Option Bytes
  pub mtls_ca_pem : Option Bytes
  pub require_client_cert : Bool
  pub suspended : Bool
  pub suspend_timeout_ms : ℕ
  pub max_cps : Option F
  pub burst : Option F
  pub source_address_mode : SourceAddressMode
  pub forward_fingerprint : ForwardFingerprint
  pub http2 : Bool
  pub protocol : RouteProtocol
  pub allowed_sources : List Bytes
  pub failover : Option (FailoverSpec F)

pub record ListenerTlsSpec : Type 0 where
  pub cert_pem : Option Bytes
  pub key_pem : Option Bytes
  pub mtls_ca_pem : Option Bytes
  pub require_client_cert : Bool

abbrev pub is_http : RouteProtocol → Bool
is_http opaque = false
is_http http = true

module _ {F : Type 0} where
  unfoldable pub effective_mtls : RouteSpec F → ListenerTlsSpec → Option MtlsSpec
  effective_mtls spec listener = elim spec.mtls_ca_pem [
    | some ca ↦ some (record { client_ca_pem = ca; require_client_cert = spec.require_client_cert })
    | none ↦ elim listener.mtls_ca_pem [
      | some ca ↦
          some (record { client_ca_pem = ca; require_client_cert = listener.require_client_cert })
      | none ↦ none
    ]
  ]

  -- `ClientAuth::of`
  unfoldable pub client_auth_of : (Bytes → Bytes) → RouteSpec F → ListenerTlsSpec → ClientAuth
  client_auth_of sha256 spec listener =
      if spec.terminate_tls
      then elim (effective_mtls spec listener) [
        | none ↦ no_client_cert
        | some m ↦ client_cert (sha256 m.client_ca_pem) m.require_client_cert
      ]
      else passthrough

  unfoldable pub validate_route_protocol_declaration : RouteSpec F → Option SymphonyError
  validate_route_protocol_declaration spec =
      let requires_http =
        requires_http_protocol spec.source_address_mode spec.forward_fingerprint in
      if requires_http && not spec.terminate_tls
      then some (SymphonyError.config no_carrier)
      else if requires_http && not (is_http spec.protocol)
      then some (SymphonyError.config undeclared_protocol)
      else none

-- An `IpNetwork`: octets and the length of the prefix.
pub data IpNetwork : Type 0 where
  network_v4 network_v6 : Bytes → ℕ → IpNetwork

-- An IPv4-mapped network in its IPv4 form, whose prefix is at least 96 long and so at most 32 then.
unfoldable pub canonical_network : IpNetwork → Option IpNetwork
canonical_network (network_v4 octets prefix) = some (network_v4 octets prefix)
canonical_network (network_v6 octets prefix) = elim (to_ipv4_mapped octets) [
  | none ↦ some (network_v6 octets prefix)
  | some four ↦
      if ltb prefix 96
      then none
      else if leb (prefix - 96) 32
      then some (network_v4 four (prefix - 96))
      else none
]

module _ (parse_network : Bytes → Option IpNetwork) where
  unfoldable pub parse_source_network : Bytes → Option IpNetwork
  parse_source_network entry = elim (parse_network entry) [
    | none ↦ none
    | some network ↦ canonical_network network
  ]

  -- `collect` into a result
  unfoldable pub parse_all : List Bytes → Option (List IpNetwork)
  parse_all [] = some []
  parse_all (entry ∷ entries) = elim (parse_source_network entry) [
    | none ↦ none
    | some network ↦ elim (parse_all entries) [
      | none ↦ none
      | some networks ↦ some (network ∷ networks)
    ]
  ]

  -- `SourceAllowlist::parse`
  unfoldable pub parse_allowlist : List Bytes → Result ConfigError (Option (List IpNetwork))
  parse_allowlist [] = ok none
  parse_allowlist (entry ∷ entries) = elim (parse_all (entry ∷ entries)) [
    | none ↦ err bad_source_network
    | some networks ↦ ok (some networks)
  ]
