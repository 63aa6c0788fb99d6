-- ===== src/Router/Build.antt =====
-- src/router.rs: one route, built from its spec and from what the route that it replaces has. The
-- places of what a route shares are counted from a base of its own.
use symphony.Prelude.{
  length, Bytes, Result, ◌>>=◌, ok, err, ◌==◌, if◌then◌else◌, ℕ, ◌+◌, max, Bool, true, false, not,
  ◌&&◌, ◌||◌, Option, none, some, List, [], ◌∷◌,
}
use symphony.Float.{Float64}
use symphony.Net.{SocketAddr, v4}
use symphony.Balancer.{UdsBalancer}
use symphony.Balancer.Rebuild.{new_balancer, with_cpu_from, with_health, retracked}
use symphony.Destination.{Destination, tcp, uds_set}
use symphony.Errors.{
  SymphonyError, no_cert, no_key, x_forwarded_for_with_h2, h2_passthrough, all_h2, no_upstreams,
}
use symphony.Tls.{CacheKey, TlsConfigCache, TlsLibrary, get_or_build}
use symphony.Router.{
  SourceAddressMode, x_forwarded_for, not_forwarded, proxy_protocol, proxy_protocol_v2,
  RouteTokenBucket, Route,
}
use symphony.Router.Spec.{UpstreamSpec, RouteSpec, ListenerTlsSpec, IpNetwork, effective_mtls}
use symphony.Router.Slots.{only, gather, nothing_gathered}

-- What the balancers of a route carry over from the route that it replaces.
pub record Inherit : Type 0 where
  pub previous : Option Destination
  pub previous_h2 : Option Destination
  pub track_health : Bool
  pub refuse_new : Bool

abbrev pub balancer_of : Option Destination → Option UdsBalancer
balancer_of none = none
balancer_of (some (tcp addr)) = none
balancer_of (some (uds_set b)) = some b

-- What the model takes from outside: the reading of addresses and networks, and TLS.
pub record Outside (F Config : Type 0) : Type 0 where
  pub floats : Float64 F
  pub parse_addr : Bytes → ℕ → Option SocketAddr
  pub parse_network : Bytes → Option IpNetwork
  pub tls : TlsLibrary Config
  pub is_held : CacheKey → Bool
  pub now_ns : ℕ

-- 127.0.0.1:1
abbrev pub placeholder : Destination
placeholder = tcp (record { ip = v4 (127 ∷ 0 ∷ 0 ∷ 1 ∷ []); port = 1 })

unfoldable pub or_listener :
    Option Bytes → Option Bytes → SymphonyError → Result SymphonyError Bytes
or_listener (some own) listener e = ok own
or_listener none (some shared) e = ok shared
or_listener none none e = err e

abbrev pub is_x_forwarded_for : SourceAddressMode → Bool
is_x_forwarded_for x_forwarded_for = true
is_x_forwarded_for not_forwarded = false
is_x_forwarded_for proxy_protocol = false
is_x_forwarded_for proxy_protocol_v2 = false

abbrev pub is_present : Option Destination → Bool
is_present none = false
is_present (some d) = true

module _ {Config : Type 0} where
  abbrev pub optional :
      Result SymphonyError Config × TlsConfigCache Config
      → Result SymphonyError (Option Config) × TlsConfigCache Config
  optional (ok config, c) = (ok (some config), c)
  optional (err e, c) = (err e, c)

module _ {F : Type 0} where
  -- What cannot be combined with HTTP/2.
  unfoldable pub check_h2 : RouteSpec F → Option Destination → Option SymphonyError
  check_h2 spec destination_h2 =
      if (is_present destination_h2 || (spec.http2 && spec.terminate_tls))
        && is_x_forwarded_for spec.source_address_mode
      then some (SymphonyError.config x_forwarded_for_with_h2)
      else if is_present destination_h2 && not spec.terminate_tls
      then some (SymphonyError.config h2_passthrough)
      else none

  unfoldable pub requires_cert : RouteSpec F → ListenerTlsSpec → Bool
  requires_cert spec listener =
      spec.terminate_tls
      && elim (effective_mtls spec listener) [ none ↦ false | some m ↦ m.require_client_cert ]

module _ {F Config : Type 0} (out : Outside F Config) where
  unfoldable pub build_balancer :
      List UpstreamSpec → Option UdsBalancer → Bool → Bool → ℕ → UdsBalancer
  build_balancer upstreams previous track_health refuse_new load =
      let g = gather upstreams nothing_gathered in
      let balancer =
        with_cpu_from (new_balancer g.slots g.ip_affinity g.affinity_ttl_ms load) previous in
      if track_health then with_health balancer previous refuse_new out.now_ns else balancer

  -- The first upstream decides the kind.
  unfoldable pub build_destination_for :
      List UpstreamSpec → Option UdsBalancer → Bool → Bool → ℕ → Result SymphonyError Destination
  build_destination_for [] previous track_health refuse_new load =
      err (SymphonyError.config no_upstreams)
  build_destination_for (UpstreamSpec.tcp host port ∷ us) previous track_health refuse_new load =
      elim (out.parse_addr host port) [
        | none ↦ err SymphonyError.addr_parse
        | some addr ↦ ok (tcp addr)
      ]
  build_destination_for (UpstreamSpec.uds paths pids tids aff ttl p ∷ us) previous track_health
        refuse_new load =
      ok (
        uds_set (
          build_balancer (UpstreamSpec.uds paths pids tids aff ttl p ∷ us) previous track_health
            refuse_new load))

  unfoldable pub build_h2 :
      List UpstreamSpec → Inherit → ℕ → Result SymphonyError (Option Destination)
  build_h2 [] inherit load = ok none
  build_h2 (u ∷ us) inherit load = do
    destination ←
        build_destination_for (u ∷ us) (balancer_of inherit.previous_h2) inherit.track_health
          inherit.refuse_new load
    ok (some destination)

  unfoldable pub build_destinations :
      RouteSpec F → Inherit → ℕ → Result SymphonyError (Destination × Option Destination)
  build_destinations spec inherit base =
      if spec.suspended || length spec.upstreams == 0
      then ok (placeholder, none)
      else if length (only false spec.upstreams) == 0
      then err (SymphonyError.config all_h2)
      else do
        destination ←
            build_destination_for (only false spec.upstreams) (balancer_of inherit.previous)
              inherit.track_health inherit.refuse_new base
        destination_h2 ← build_h2 (only true spec.upstreams) inherit (base + 1)
        ok (destination, destination_h2)

  unfoldable pub build_tls :
      RouteSpec F
      → ListenerTlsSpec
      → TlsConfigCache Config
      → Result SymphonyError (Option Config) × TlsConfigCache Config
  build_tls spec listener c =
      if spec.terminate_tls
      then elim (or_listener spec.cert_pem listener.cert_pem (SymphonyError.config no_cert)) [
        | err e ↦ (err e, c)
        | ok cert ↦ elim (or_listener spec.key_pem listener.key_pem (SymphonyError.config no_key)) [
          | err e ↦ (err e, c)
          | ok key ↦ optional (
              get_or_build out.tls out.is_held
                (record { cert_chain_pem = cert; private_key_pem = key })
                (effective_mtls spec listener) spec.http2 c)
        ]
      ]
      else (ok none, c)

  -- `RouteTokenBucket::new`
  unfoldable pub new_rate_limiter : F → Option F → RouteTokenBucket F
  new_rate_limiter cps burst =
      let fl = out.floats in
      let ceiling = elim burst as (λ _. F) [ none ↦ cps | some b ↦ b ] in
      let burst_fp = fl.to_u32 (fl.mul (fl.max_of ceiling (fl.of_nat 1)) (fl.of_nat 1000)) in
      record {
        bucket = record { tokens = burst_fp; last_refill_ns = out.now_ns };
        rate_per_ns = fl.div cps (fl.of_nat 1000000000);
        burst_fp = burst_fp;
      }

  unfoldable pub assemble :
      RouteSpec F
      → ListenerTlsSpec
      → Option Config
      → Destination
      → Option Destination
      → ℕ
      → Route F Config IpNetwork
  assemble spec listener tls_config destination destination_h2 base = record {
    metric_identity = record { route = spec.sni; group = spec.metrics_group; counters = base };
    destination = destination;
    destination_h2 = destination_h2;
    tls_config = tls_config;
    terminate_tls = spec.terminate_tls;
    suspended = spec.suspended;
    suspend_timeout_ms = max spec.suspend_timeout_ms 1;
    rate_limiter = elim spec.max_cps [
      | none ↦ none
      | some cps ↦ some (new_rate_limiter cps spec.burst)
    ];
    source_address_mode = spec.source_address_mode;
    forward_fingerprint = spec.forward_fingerprint;
    protocol = spec.protocol;
    allowed_sources = none;
    failover = none;
    requires_client_cert = requires_cert spec listener;
  }

  unfoldable pub build_from :
      RouteSpec F
      → ListenerTlsSpec
      → Inherit
      → ℕ
      → Option Config
      → Result SymphonyError (Route F Config IpNetwork)
  build_from spec listener inherit base tls_config = elim (build_destinations spec inherit base) [
    | err e ↦ err e
    | ok (destination, destination_h2) ↦ elim (check_h2 spec destination_h2) [
      | some e ↦ err e
      | none ↦ ok (assemble spec listener tls_config destination destination_h2 base)
    ]
  ]

  unfoldable pub build_route :
      RouteSpec F
      → ListenerTlsSpec
      → TlsConfigCache Config
      → Inherit
      → ℕ
      → Result SymphonyError (Route F Config IpNetwork) × TlsConfigCache Config
  build_route spec listener c inherit base =
      let (tls, c') = build_tls spec listener c in
      elim tls [
        | err e ↦ (err e, c')
        | ok tls_config ↦ (build_from spec listener inherit base tls_config, c')
      ]

  unfoldable pub retrack : Bool → ℕ → Destination → Destination
  retrack track load (tcp addr) = tcp addr
  retrack track load (uds_set b) = uds_set (retracked b track load out.now_ns)
