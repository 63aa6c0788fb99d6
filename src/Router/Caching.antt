-- ===== src/Router/Caching.antt =====
-- src/router.rs: the cache of TLS configurations while a table is built.
use symphony.Prelude.{
  Bytes, Result, Result-cases, ok, err, Bool-cases, Option-cases, ℕ, ◌+◌, ◌≡◌, inl, inr, Option,
  List, [], ◌∷◌,
}
use symphony.Net.{IpAddr}
use symphony.Failover.Policy.{FailoverPolicy}
use symphony.Errors.{SymphonyError, no_cert, no_key}
use symphony.Tls.{CertSpec, get_or_build, TlsConfigCache}
use symphony.Tls.Cached.{AllBuilt, get_or_build-IsAnswered}
use symphony.Router.{RouteTable, has, strip_wildcard}
use symphony.Router.Spec.{
  RouteSpec, ListenerTlsSpec, IpNetwork, validate_route_protocol_declaration, parse_allowlist,
  effective_mtls,
}
use symphony.Router.Build.{Inherit, Outside, or_listener, build_tls, build_route, optional}
use symphony.Router.Install.{inherit_from}
use symphony.Router.Table.{
  Building, is_overridden, previous_route, is_present, failover_policy, settle, admit, step,
  build_all,
}

module _ {F Config : Type 0} (out : Outside F Config) where
  optional-AllBuilt :
      (r : Result SymphonyError Config × TlsConfigCache Config)
      → AllBuilt out.tls r.1.cache
      → AllBuilt out.tls (optional r).1.cache
  optional-AllBuilt (ok config, c) a = a
  optional-AllBuilt (err e, c) a = a

  build_tls-AllBuilt :
      (spec : RouteSpec F) (listener : ListenerTlsSpec) (c : TlsConfigCache Config)
      → AllBuilt out.tls c.cache
      → AllBuilt out.tls (build_tls out spec listener c).1.cache
  unfolding build_tls
  build_tls-AllBuilt spec listener c a = elim (Bool-cases spec.terminate_tls) [
    | inr p ↦ rw (p, build_tls) a
    | inl p ↦
        elim (Result-cases
          (or_listener spec.cert_pem listener.cert_pem (SymphonyError.config no_cert))) [
            | inr (x, e) ↦ rw (p, e, build_tls) a
            | inl (cert, e) ↦
                elim (Result-cases
                  (or_listener spec.key_pem listener.key_pem (SymphonyError.config no_key))) [
                    | inr (x, k) ↦ rw (p, e, k, build_tls) a
                    | inl (key, k) ↦
                        let asked : CertSpec = record {
                          cert_chain_pem = cert;
                          private_key_pem = key;
                        } in
                        let mtls = effective_mtls spec listener in
                        rw (p, e, k, build_tls)
                          (optional-AllBuilt
                            (get_or_build out.tls out.is_held asked mtls spec.http2 c)
                            (get_or_build-IsAnswered out.tls out.is_held asked mtls spec.http2 c
                              a).all_built)
                  ]
          ]
  ]

  build_route-cache :
      (spec : RouteSpec F) (listener : ListenerTlsSpec) (c : TlsConfigCache Config)
      (inherit : Inherit) (base : ℕ)
      → (build_route out spec listener c inherit base).1 ≡ (build_tls out spec listener c).1
  unfolding build_route
  build_route-cache spec listener c inherit base =
      elim (Result-cases (build_tls out spec listener c).0) [
        | inl (t, e) ↦ rw (e, build_route)
        | inr (x, e) ↦ rw (e, build_route)
      ]

module _ {F Config : Type 0} (out : Outside F Config) (parse_ip : Bytes → Option IpAddr)
    (listener : ListenerTlsSpec) (previous : Option (RouteTable F Config IpNetwork)) where
  pub settle-cache :
      (spec : RouteSpec F) (allowed : Option (List IpNetwork)) (policy : Option (FailoverPolicy F))
      (base : ℕ) (t : RouteTable F Config IpNetwork) (c : TlsConfigCache Config)
      → (settle out listener previous spec allowed policy base t c).1
        ≡ (build_tls out spec listener c).1
  unfolding settle
  settle-cache spec allowed policy base t c =
      let inherit = inherit_from (previous_route previous spec.sni) (is_present policy) in
      elim (Result-cases (build_route out spec listener c inherit base).0) [
        | inl (r, e) ↦ rw (e, settle) (build_route-cache out spec listener c inherit base)
        | inr (x, e) ↦ rw (e, settle) (build_route-cache out spec listener c inherit base)
      ]

  admit-AllBuilt :
      (spec : RouteSpec F) (base : ℕ) (t : RouteTable F Config IpNetwork)
      (c : TlsConfigCache Config)
      → AllBuilt out.tls c.cache
      → AllBuilt out.tls (admit out parse_ip listener previous spec base t c).1.cache
  unfolding admit
  admit-AllBuilt spec base t c a = elim (Option-cases (validate_route_protocol_declaration spec)) [
    | inr (x, e) ↦ rw (e, admit) a
    | inl d ↦ elim (Result-cases (parse_allowlist out.parse_network spec.allowed_sources)) [
      | inr (x, e) ↦ rw (d, e, admit) a
      | inl (allowed, e) ↦
          rw
            (
              d,
              e,
              admit,
              settle-cache spec allowed (failover_policy out parse_ip spec t).0 base
                  (failover_policy out parse_ip spec t).1 c,
            )
            (build_tls-AllBuilt out spec listener c a)
    ]
  ]

  pub step-AllBuilt :
      (spec : RouteSpec F) (later : List (RouteSpec F)) (base : ℕ) (b : Building F Config)
      → AllBuilt out.tls b.cache.cache
      → AllBuilt out.tls (step out parse_ip listener previous spec later base b).cache.cache
  unfolding step
  step-AllBuilt spec later base b a = elim (Bool-cases (is_overridden spec later)) [
    | inl o ↦ rw (o, step) a
    | inr o ↦ elim (Option-cases (strip_wildcard spec.sni)) [
      | inl e ↦ rw (o, e, step) (admit-AllBuilt spec base b.table b.cache a)
      | inr (suffix, e) ↦ elim (Bool-cases (has suffix b.configured_wildcards)) [
        | inl k ↦ rw (o, e, k, step) a
        | inr k ↦ rw (o, e, k, step) (admit-AllBuilt spec base b.table b.cache a)
      ]
    ]
  ]

  pub build_all-AllBuilt :
      (specs : List (RouteSpec F)) (base : ℕ) (b : Building F Config)
      → AllBuilt out.tls b.cache.cache
      → AllBuilt out.tls (build_all out parse_ip listener previous specs base b).cache.cache
  unfolding build_all
  build_all-AllBuilt [] base b a = a
  build_all-AllBuilt (spec ∷ specs) base b a =
      build_all-AllBuilt specs (base + 4) (step out parse_ip listener previous spec specs base b)
        (step-AllBuilt spec specs base b a)
  -- The route does what its spec asks for.
