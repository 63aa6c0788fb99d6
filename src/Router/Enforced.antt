-- ===== src/Router/Enforced.antt =====
-- src/router.rs: the client-certificate policy that a route enforces is the one that its spec asks
-- for, whether the route is built, with a configuration from the cache, or carried forward.
use symphony.Prelude.{
  Bytes, eq_bytes_iff, Result, Result-cases, ok, err, Bool-cases, Option-cases, ℕ, ◌≡◌, refl, sym,
  ap, ◌∙◌, subst, inl, inr, Bool, true, false, Option, none, some, arith,
}
use symphony.Net.{IpAddr}
use symphony.Failover.Policy.{FailoverPolicy}
use symphony.Errors.{SymphonyError, no_cert, no_key}
use symphony.Tls.{CertSpec, MtlsSpec, cache_key, mtls_key, TlsConfigCache, TlsLibrary, get_or_build}
use symphony.Tls.Cached.{
  IsCollisionFree, AllBuilt, get_or_build-IsAnswered, mtls_key-inj, eq_bool_iff,
}
use symphony.Router.{Route, RouteTable, ClientAuth, passthrough, no_client_cert, client_cert}
use symphony.Router.Spec.{RouteSpec, ListenerTlsSpec, IpNetwork, effective_mtls, client_auth_of}
use symphony.Router.Build.{
  Inherit, Outside, or_listener, optional, build_tls, build_from, build_route, assemble,
}
use symphony.Router.Install.{eq_auth, retracked_route, complete}
use symphony.Router.Table.{previous_route, previous_auth, is_auth}
use symphony.Router.Admitted.{Origin, built, carried, requested_auth}
use symphony.Router.Deciding.{Follows}

module _ {F Config Network : Type 0} (lib : TlsLibrary Config) where
  -- The route's TLS configuration is one that was built for these client certificates.
  pub record BuiltWith (mtls : Option MtlsSpec) (r : Route F Config Network) : Type 0 where
    pub config : Config
    pub cert : CertSpec
    pub http2 : Bool
    pub held : r.tls_config ≡ some config
    pub made : lib.build_server_config cert mtls http2 ≡ some config

  pub record BuiltWithCa (digest : Bytes) (required : Bool) (r : Route F Config Network)
      : Type 0 where
    pub mtls : MtlsSpec
    pub with_ca : BuiltWith (some mtls) r
    pub digested : lib.sha256 mtls.client_ca_pem ≡ digest
    pub requires : mtls.require_client_cert ≡ required

  abbrev pub Enforces : ClientAuth → Route F Config Network → Type 0
  Enforces passthrough r = r.tls_config ≡ none
  Enforces no_client_cert r = BuiltWith none r
  Enforces (client_cert digest required) r = BuiltWithCa digest required r

  Enforces-tls :
      (auth : ClientAuth) (r s : Route F Config Network)
      → s.tls_config ≡ r.tls_config
      → Enforces auth r
      → Enforces auth s
  Enforces-tls passthrough r s h e = h ∙ e
  Enforces-tls no_client_cert r s h e = record {
    config = e.config;
    cert = e.cert;
    http2 = e.http2;
    held = h ∙ e.held;
    made = e.made;
  }
  Enforces-tls (client_cert d q) r s h e = record {
    mtls = e.mtls;
    with_ca = record {
      config = e.with_ca.config;
      cert = e.with_ca.cert;
      http2 = e.with_ca.http2;
      held = h ∙ e.with_ca.held;
      made = e.with_ca.made;
    };
    digested = e.digested;
    requires = e.requires;
  }

eq_auth_eq : (a b : ClientAuth) → eq_auth a b ≡ true → a ≡ b
unfolding eq_auth
eq_auth_eq passthrough passthrough h = refl
eq_auth_eq passthrough no_client_cert h = cc
eq_auth_eq passthrough (client_cert d q) h = cc
eq_auth_eq no_client_cert passthrough h = cc
eq_auth_eq no_client_cert no_client_cert h = refl
eq_auth_eq no_client_cert (client_cert d q) h = cc
eq_auth_eq (client_cert d q) passthrough h = cc
eq_auth_eq (client_cert d q) no_client_cert h = cc
eq_auth_eq (client_cert d q) (client_cert d' q') h =
    ground (arith, eq_bytes_iff d d', eq_bool_iff q q')

module _ {F Config : Type 0} (out : Outside F Config) where
  build_route-tls :
      (spec : RouteSpec F) (listener : ListenerTlsSpec) (c : TlsConfigCache Config)
      (inherit : Inherit) (base : ℕ) (r : Route F Config IpNetwork)
      → (build_route out spec listener c inherit base).0 ≡ ok r
      → (build_tls out spec listener c).0 ≡ ok r.tls_config
  unfolding build_route build_from assemble
  build_route-tls spec listener c inherit base r h = ground arith

  optional-eq-ok :
      (r : Result SymphonyError Config × TlsConfigCache Config) (tls : Option Config)
      → (optional r).0 ≡ ok tls
      → (config : Config) × (r.0 ≡ ok config) × (tls ≡ some config)
  optional-eq-ok (ok config, c) tls h = (config, refl, ground arith)
  optional-eq-ok (err e, c) tls h = absurd (ground arith)

  -- The configuration that a route is given: none without termination, and else one that was built
  -- for the client certificates of the spec.
  abbrev GivenTls : RouteSpec F → ListenerTlsSpec → Option Config → Type 0
  GivenTls spec listener none = spec.terminate_tls ≡ false
  GivenTls spec listener (some config) =
      (spec.terminate_tls ≡ true)
      × (cert : CertSpec) × (http2 : Bool) × (out.tls.build_server_config cert
            (effective_mtls spec listener) http2
          ≡ some config)

  build_tls-GivenTls :
      (spec : RouteSpec F) (listener : ListenerTlsSpec) (c : TlsConfigCache Config)
      (tls : Option Config)
      → IsCollisionFree out.tls
      → AllBuilt out.tls c.cache
      → (build_tls out spec listener c).0 ≡ ok tls
      → GivenTls spec listener tls
  unfolding build_tls mtls_key cache_key
  build_tls-GivenTls spec listener c tls free a h = elim (Bool-cases spec.terminate_tls) [
    | inr p ↦ let same : none ≡ tls = ground arith in subst (GivenTls spec listener) same p
    | inl p ↦
        elim (Result-cases
          (or_listener spec.cert_pem listener.cert_pem (SymphonyError.config no_cert))) [
            | inr (x, e) ↦ absurd (ground arith)
            | inl (cert, e) ↦
                elim (Result-cases
                  (or_listener spec.key_pem listener.key_pem (SymphonyError.config no_key))) [
                    | inr (x, k) ↦ absurd (ground arith)
                    | inl (key, k) ↦
                        let asked : CertSpec = record {
                          cert_chain_pem = cert;
                          private_key_pem = key;
                        } in
                        let mtls = effective_mtls spec listener in
                        let result = get_or_build out.tls out.is_held asked mtls spec.http2 c in
                        let now : (optional result).0 ≡ ok tls = rw (p, e, k, build_tls) at h in
                        let (config, got, same) = optional-eq-ok result tls now in
                        let b =
                          (get_or_build-IsAnswered out.tls out.is_held asked mtls spec.http2 c
                              a).is_built
                            config got in
                        let eq = mtls_key-inj out.tls mtls b.mtls free (ap (λ x. x.1) b.keyed) in
                        subst (GivenTls spec listener) (sym same) (
                          p,
                          b.cert,
                          b.http2,
                          subst (λ m. out.tls.build_server_config b.cert m b.http2 ≡ some config)
                              (sym eq) b.built,
                        )
                  ]
          ]
  ]

  GivenTls-Enforces :
      (spec : RouteSpec F) (listener : ListenerTlsSpec) (r : Route F Config IpNetwork)
      (tls : Option Config)
      → r.tls_config ≡ tls
      → GivenTls spec listener tls
      → Enforces out.tls (client_auth_of out.tls.sha256 spec listener) r
  unfolding client_auth_of
  GivenTls-Enforces spec listener r none held p =
      let same : passthrough ≡ client_auth_of out.tls.sha256 spec listener = ground arith in
      subst (λ a. Enforces out.tls a r) same held
  GivenTls-Enforces spec listener r (some config) held (p, cert, http2, made) =
      elim (Option-cases (effective_mtls spec listener)) [
        | inl e ↦
            let same : no_client_cert ≡ client_auth_of out.tls.sha256 spec listener =
              ground arith in
            subst (λ a. Enforces out.tls a r) same
              (record {
                config = config;
                cert = cert;
                http2 = http2;
                held = held;
                made = rw e at made;
              })
        | inr (m, e) ↦
            let same : client_cert (out.tls.sha256 m.client_ca_pem) m.require_client_cert
                ≡ client_auth_of out.tls.sha256 spec listener =
              ground arith in
            subst (λ a. Enforces out.tls a r) same
              (record {
                mtls = m;
                with_ca = record {
                  config = config;
                  cert = cert;
                  http2 = http2;
                  held = held;
                  made = rw e at made;
                };
                digested = refl;
                requires = refl;
              })
      ]

  retracked_route-tls :
      (track : Bool) (base : ℕ) (r : Route F Config IpNetwork)
      → (retracked_route out track base r).tls_config ≡ r.tls_config
  unfolding retracked_route
  retracked_route-tls track base r = ground arith

module _ {F Config : Type 0} (out : Outside F Config) (parse_ip : Bytes → Option IpAddr)
    (listener : ListenerTlsSpec) (previous : Option (RouteTable F Config IpNetwork)) where
  -- What the previous table holds for a name enforces the policy that it gives for it.
  abbrev pub EnforcedBefore : Bytes → Type 0
  EnforcedBefore sni =
      (auth : ClientAuth) (p : Route F Config IpNetwork)
      → previous_auth previous sni ≡ some auth
      → previous_route previous sni ≡ some p
      → Enforces out.tls auth p

  Origin-Enforces :
      (spec : RouteSpec F) (policy : Option (FailoverPolicy F)) (c : TlsConfigCache Config)
      (r : Route F Config IpNetwork)
      → IsCollisionFree out.tls
      → AllBuilt out.tls c.cache
      → EnforcedBefore spec.sni
      → Origin out parse_ip listener previous spec policy c r
      → Enforces out.tls (requested_auth out parse_ip listener previous spec) r
  unfolding is_auth
  Origin-Enforces spec policy c r free a before (built base h) =
      GivenTls-Enforces out spec listener r r.tls_config refl (
        build_tls-GivenTls out spec listener c r.tls_config free a
          (build_route-tls out spec listener c _ base r h))
  Origin-Enforces spec policy c r free a before (carried base p found same e) =
      elim (Option-cases (previous_auth previous spec.sni)) [
        | inl k ↦ absurd (ground arith)
        | inr (auth, k) ↦
            let eq =
              eq_auth_eq auth (requested_auth out parse_ip listener previous spec) (ground arith) in
            Enforces-tls out.tls _ p r (ap (λ x. x.tls_config) e ∙ retracked_route-tls out _ base p)
              (subst (λ x. Enforces out.tls x p) eq (before auth p k found))
      ]

  pub Follows-Enforces :
      (spec : RouteSpec F) (r : Route F Config IpNetwork)
      → IsCollisionFree out.tls
      → EnforcedBefore spec.sni
      → Follows out parse_ip listener previous spec r
      → Enforces out.tls (requested_auth out parse_ip listener previous spec) r
  unfolding complete
  Follows-Enforces spec r free before f =
      Enforces-tls out.tls _ f.base_route r (ap (λ x. x.tls_config) f.made)
        (Origin-Enforces spec f.policy f.cache f.base_route free f.all_built before f.origin)
