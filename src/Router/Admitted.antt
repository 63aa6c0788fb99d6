-- ===== src/Router/Admitted.antt =====
-- src/router.rs: what becomes of one spec: its name is refused, or a route is installed for it that
-- was built or carried forward, and takes the rest from the spec.
use symphony.Prelude.{
  Bytes, Result-cases, ok, err, Bool-cases, Option-cases, ℕ, ◌≡◌, refl, inl, inr, true, Option,
  none, some, List, arith,
}
use symphony.Net.{IpAddr}
use symphony.Failover.Policy.{FailoverPolicy}
use symphony.Errors.{ConfigError, SymphonyError}
use symphony.Tls.{TlsConfigCache}
use symphony.Router.{Route, RouteTable, ClientAuth}
use symphony.Router.Spec.{
  RouteSpec, ListenerTlsSpec, IpNetwork, client_auth_of, validate_route_protocol_declaration,
  parse_allowlist,
}
use symphony.Router.Build.{Inherit, Outside, build_route}
use symphony.Router.Install.{inherit_from, retracked_route, complete, install, reject}
use symphony.Router.Asked.{IsAsked, failover_policy-IsAsked}
use symphony.Router.Planned.{policy_plan}
use symphony.Router.Table.{
  with_spill, failover_policy, previous_route, previous_auth, is_auth, is_present, fail, carry,
  settle, admit,
}

module _ {F Config : Type 0} where
  -- The tables differ in what is said of failures alone.
  pub record Untouched (t u : RouteTable F Config IpNetwork) : Type 0 where
    pub exact : u.exact ≡ t.exact
    pub wildcard : u.wildcard ≡ t.wildcard
    pub default : u.default ≡ t.default
    pub dropped_exact : u.dropped_exact ≡ t.dropped_exact
    pub dropped_wildcard : u.dropped_wildcard ≡ t.dropped_wildcard
    pub client_auth : u.client_auth ≡ t.client_auth

  pub Untouched-self : (t : RouteTable F Config IpNetwork) → Untouched t t
  Untouched-self t = record {
    exact = refl;
    wildcard = refl;
    default = refl;
    dropped_exact = refl;
    dropped_wildcard = refl;
    client_auth = refl;
  }

module _ {F Config : Type 0} (out : Outside F Config) (parse_ip : Bytes → Option IpAddr) where
  failover_policy-Untouched :
      (spec : RouteSpec F) (t : RouteTable F Config IpNetwork)
      → Untouched t (failover_policy out parse_ip spec t).1
  unfolding failover_policy with_spill
  failover_policy-Untouched spec t = record {
    exact = ground arith;
    wildcard = ground arith;
    default = ground arith;
    dropped_exact = ground arith;
    dropped_wildcard = ground arith;
    client_auth = ground arith;
  }

module _ {F Config : Type 0} (out : Outside F Config) (parse_ip : Bytes → Option IpAddr)
    (listener : ListenerTlsSpec) (previous : Option (RouteTable F Config IpNetwork)) where
  abbrev pub requested_auth : RouteSpec F → ClientAuth
  requested_auth spec = client_auth_of out.tls.sha256 spec listener

  -- Why a spec may be refused.
  pub data IsFaulty (spec : RouteSpec F) : Type 0 where
    undeclared :
        (e : SymphonyError) → validate_route_protocol_declaration spec ≡ some e → IsFaulty spec
    bad_sources :
        (e : ConfigError)
        → parse_allowlist out.parse_network spec.allowed_sources ≡ err e
        → IsFaulty spec
    not_built :
        (c : TlsConfigCache Config) (inherit : Inherit) (base : ℕ) (e : SymphonyError)
        → (build_route out spec listener c inherit base).0 ≡ err e
        → IsFaulty spec

  -- The route is built, or the previous one of the name is carried forward under the policy asked for.
  pub data Origin (spec : RouteSpec F) (policy : Option (FailoverPolicy F))
      (c : TlsConfigCache Config) (r : Route F Config IpNetwork) : Type 0 where
    built :
        (base : ℕ)
        → (build_route out spec listener c
            (inherit_from (previous_route previous spec.sni) (is_present policy))
            base).0
          ≡ ok r
        → Origin spec policy c r
    carried :
        (base : ℕ) (p : Route F Config IpNetwork)
        → previous_route previous spec.sni ≡ some p
        → is_auth (requested_auth spec) (previous_auth previous spec.sni) ≡ true
        → r ≡ retracked_route out (is_present policy) base p
        → Origin spec policy c r

  pub data Settled (spec : RouteSpec F) (t : RouteTable F Config IpNetwork)
      (c : TlsConfigCache Config) (v : RouteTable F Config IpNetwork) : Type 0 where
    rejected :
        (u : RouteTable F Config IpNetwork)
        → Untouched t u
        → IsFaulty spec
        → v ≡ reject spec.sni u
        → Settled spec t c v
    installed :
        (u : RouteTable F Config IpNetwork) (r : Route F Config IpNetwork)
        (allowed : Option (List IpNetwork)) (policy : Option (FailoverPolicy F))
        → Untouched t u
        → validate_route_protocol_declaration spec ≡ none
        → parse_allowlist out.parse_network spec.allowed_sources ≡ ok allowed
        → IsAsked out.floats parse_ip spec (policy_plan policy)
        → Origin spec policy c r
        → v
          ≡ install spec.sni
              (requested_auth spec)
              (complete out spec allowed policy (previous_route previous spec.sni) r)
              u
        → Settled spec t c v

  fail-Untouched :
      (sni : Bytes) (t u : RouteTable F Config IpNetwork) → Untouched t u → Untouched t (fail sni u)
  fail-Untouched sni t u h = record {
    exact = h.exact;
    wildcard = h.wildcard;
    default = h.default;
    dropped_exact = h.dropped_exact;
    dropped_wildcard = h.dropped_wildcard;
    client_auth = h.client_auth;
  }

  module _ (spec : RouteSpec F) (allowed : Option (List IpNetwork))
      (policy : Option (FailoverPolicy F)) (base : ℕ) (t u : RouteTable F Config IpNetwork)
      (c : TlsConfigCache Config) (untouched : Untouched t u)
      (declared : validate_route_protocol_declaration spec ≡ none)
      (parsed : parse_allowlist out.parse_network spec.allowed_sources ≡ ok allowed)
      (from : IsAsked out.floats parse_ip spec (policy_plan policy)) where
    carry-Settled :
        IsFaulty spec
        → Settled spec t c
            (carry out listener previous spec (requested_auth spec) allowed policy base u)
    unfolding carry
    carry-Settled why = elim (Option-cases (previous_route previous spec.sni)) [
      | inl e ↦ rejected u untouched why (rw (e, carry))
      | inr (p, e) ↦
          elim (Bool-cases (is_auth (requested_auth spec) (previous_auth previous spec.sni))) [
            | inr k ↦ rejected u untouched why (rw (e, k, carry))
            | inl k ↦
                installed (fail spec.sni u) (retracked_route out (is_present policy) base p) allowed
                  policy (fail-Untouched spec.sni t u untouched) declared parsed from
                  (carried base p e k refl) (rw (e, k, carry))
          ]
    ]

    settle-Settled : Settled spec t c (settle out listener previous spec allowed policy base u c).0
    unfolding settle
    settle-Settled =
        let inherit = inherit_from (previous_route previous spec.sni) (is_present policy) in
        elim (Result-cases (build_route out spec listener c inherit base).0) [
          | inl (r, e) ↦
              installed u r allowed policy untouched declared parsed from (built base e)
                (rw (e, settle))
          | inr (x, e) ↦ rw (e, settle) (carry-Settled (not_built c inherit base x e))
        ]

  -- The spec is refused, or a route is installed for it.
  pub admit-Settled :
      (spec : RouteSpec F) (base : ℕ) (t : RouteTable F Config IpNetwork)
      (c : TlsConfigCache Config)
      → Settled spec t c (admit out parse_ip listener previous spec base t c).0
  unfolding admit
  admit-Settled spec base t c = elim (Option-cases (validate_route_protocol_declaration spec)) [
    | inr (x, e) ↦ rejected t (Untouched-self t) (undeclared x e) (rw (e, admit))
    | inl d ↦ elim (Result-cases (parse_allowlist out.parse_network spec.allowed_sources)) [
      | inr (x, e) ↦ rejected t (Untouched-self t) (bad_sources x e) (rw (d, e, admit))
      | inl (allowed, e) ↦
          rw (d, e, admit)
            (settle-Settled spec allowed (failover_policy out parse_ip spec t).0 base t
              (failover_policy out parse_ip spec t).1 c
              (failover_policy-Untouched out parse_ip spec t) d e
              (failover_policy-IsAsked out parse_ip spec t))
    ]
  ]
