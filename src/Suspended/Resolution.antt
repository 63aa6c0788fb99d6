-- ===== src/Suspended/Resolution.antt =====
-- src/suspended.rs: the route that the answer for a suspended connection is made into.
use symphony.Prelude.{
  Bytes, Result, ok, err, if◌then◌else◌, ℕ, Bool, Option, none, some, List, [], ◌∷◌,
}
use symphony.Net.{SocketAddr}
use symphony.Balancer.Rebuild.{UdsSlotSpec, new_balancer}
use symphony.Destination.{Destination}
use symphony.Errors.{SymphonyError, no_cert, no_key}
use symphony.Tls.{CacheKey, TlsConfigCache, TlsLibrary, MtlsSpec, get_or_build_unmarked}
use symphony.Router.{SourceAddressMode, ForwardFingerprint, RouteProtocol}
use symphony.Router.Spec.{IpNetwork}
use symphony.Router.Build.{optional, or_listener}

pub data ResolveUpstream : Type 0 where
  tcp : SocketAddr → ResolveUpstream
  -- paths, ip_affinity and affinity_ttl_ms
  uds : List Bytes → Bool → ℕ → ResolveUpstream

pub record ResolveSpec : Type 0 where
  pub upstream : ResolveUpstream
  pub terminate_tls : Bool
  pub cert_pem : Option Bytes
  pub key_pem : Option Bytes
  pub mtls_ca_pem : Option Bytes
  pub require_client_cert : Bool
  pub source_address_mode : SourceAddressMode
  pub forward_fingerprint : ForwardFingerprint
  pub http2 : Bool
  pub protocol : RouteProtocol
  pub allowed_sources : Option (List IpNetwork)

pub record ResolvedRoute (Config : Type 0) : Type 0 where
  pub destination : Destination
  pub tls_config : Option Config
  pub terminate_tls : Bool
  pub source_address_mode : SourceAddressMode
  pub forward_fingerprint : ForwardFingerprint
  pub protocol : RouteProtocol
  pub allowed_sources : Option (List IpNetwork)

abbrev pub unmonitored : List Bytes → List UdsSlotSpec
unmonitored [] = []
unmonitored (path ∷ paths) = record { path = path; pid = none; tid = none } ∷ unmonitored paths

-- The load of the balancer has a place of its own.
unfoldable pub resolved_destination : ResolveUpstream → ℕ → Destination
resolved_destination (ResolveUpstream.tcp addr) load = Destination.tcp addr
resolved_destination (ResolveUpstream.uds paths ip_affinity affinity_ttl_ms) load =
    Destination.uds_set (new_balancer (unmonitored paths) ip_affinity affinity_ttl_ms load)

abbrev pub own_mtls : ResolveSpec → Option MtlsSpec
own_mtls spec = elim spec.mtls_ca_pem [
  | none ↦ none
  | some ca ↦ some (record { client_ca_pem = ca; require_client_cert = spec.require_client_cert })
]

module _ {Config : Type 0} (lib : TlsLibrary Config) (is_held : CacheKey → Bool) where
  unfoldable pub resolved_tls :
      ResolveSpec
      → TlsConfigCache Config
      → Result SymphonyError (Option Config) × TlsConfigCache Config
  resolved_tls spec c =
      if spec.terminate_tls
      then elim (or_listener spec.cert_pem none (SymphonyError.config no_cert)) [
        | err e ↦ (err e, c)
        | ok cert ↦ elim (or_listener spec.key_pem none (SymphonyError.config no_key)) [
          | err e ↦ (err e, c)
          | ok key ↦ optional (
              get_or_build_unmarked lib is_held
                (record { cert_chain_pem = cert; private_key_pem = key }) (own_mtls spec) spec.http2
                c)
        ]
      ]
      else (ok none, c)

  unfoldable pub build_resolved_route :
      ResolveSpec
      → ℕ
      → TlsConfigCache Config
      → Result SymphonyError (ResolvedRoute Config) × TlsConfigCache Config
  build_resolved_route spec load c =
      let (tls, c') = resolved_tls spec c in
      elim tls [
        | err e ↦ (err e, c')
        | ok tls_config ↦ (
          ok (record {
            destination = resolved_destination spec.upstream load;
            tls_config = tls_config;
            terminate_tls = spec.terminate_tls;
            source_address_mode = spec.source_address_mode;
            forward_fingerprint = spec.forward_fingerprint;
            protocol = spec.protocol;
            allowed_sources = spec.allowed_sources;
          }),
          c',
        )
      ]
