-- ===== src/Router/Resolved.antt =====
-- src/router.rs: a name that is configured is answered by its own route, or by none.
use symphony.Prelude.{
  length, Bytes, eq_bytes_iff, ok, ◌==◌, ℕ, ◌≡◌, refl, sym, ap, ◌∙◌, subst, ◌⊎◌, inl, inr, Bool,
  true, false, Option, none, some, List, [], ◌∷◌, arith,
}
use symphony.Net.{IpAddr}
use symphony.Failover.Policy.{FailoverPolicy}
use symphony.Tls.{TlsConfigCache, clear_used}
use symphony.Tls.Cached.{IsCollisionFree, AllBuilt, clear_used-AllBuilt}
use symphony.Router.{Route, RouteTable, has, lookup, strip_wildcard, resolve_name, resolve_with}
use symphony.Router.Spec.{
  RouteSpec, ListenerTlsSpec, IpNetwork, validate_route_protocol_declaration, parse_allowlist,
}
use symphony.Router.Build.{Outside}
use symphony.Router.Install.{
  failover_of, complete, previous_failover, tcp_health_of, load_continues,
}
use symphony.Router.Table.{Building, empty_table, build_route_table}
use symphony.Router.Asked.{IsAsked}
use symphony.Router.Planned.{policy_plan, failover_plan, new_failover-plan}
use symphony.Router.Admitted.{IsFaulty, requested_auth}
use symphony.Router.Names.{entry}
use symphony.Router.Deciding.{deciding, Follows, Decided, refused, served, build_all-Decided}
use symphony.Router.Enforced.{Enforces, EnforcedBefore, Follows-Enforces}

module _ {F Config : Type 0} (out : Outside F Config) (parse_ip : Bytes → Option IpAddr)
    (listener : ListenerTlsSpec) (previous : Option (RouteTable F Config IpNetwork)) where
  -- The route admits the sources of its spec, and runs under the policies that the spec asks for.
  pub record IsServedBy (spec : RouteSpec F) (r : Route F Config IpNetwork) : Type 0 where
    pub declared : validate_route_protocol_declaration spec ≡ none
    pub admits : parse_allowlist out.parse_network spec.allowed_sources ≡ ok r.allowed_sources
    pub fails_over : IsAsked out.floats parse_ip spec (failover_plan r.failover)
    pub enforces : Enforces out.tls (requested_auth out parse_ip listener previous spec) r

  failover_of-plan :
      (policy : Option (FailoverPolicy F)) (before : Option (Route F Config IpNetwork))
      (r : Route F Config IpNetwork)
      → failover_plan (failover_of out policy before r) ≡ policy_plan policy
  unfolding failover_of
  failover_of-plan none before r = refl
  failover_of-plan (some policy) before r =
      new_failover-plan out.floats policy (previous_failover before r.metric_identity)
        (tcp_health_of out r.destination before)
        (load_continues before r.destination r.destination_h2)

  Follows-IsAsked :
      (spec : RouteSpec F) (r : Route F Config IpNetwork)
      → Follows out parse_ip listener previous spec r
      → IsAsked out.floats parse_ip spec (failover_plan r.failover)
  unfolding complete
  Follows-IsAsked spec r follows =
      subst (IsAsked out.floats parse_ip spec)
        (sym (failover_of-plan follows.policy _ _)
          ∙ ap (λ x. failover_plan x.failover) (sym follows.made))
        follows.from

  Follows-IsServedBy :
      (spec : RouteSpec F) (r : Route F Config IpNetwork)
      → IsCollisionFree out.tls
      → EnforcedBefore out parse_ip listener previous spec.sni
      → Follows out parse_ip listener previous spec r
      → IsServedBy spec r
  unfolding complete
  Follows-IsServedBy spec r free before f = record {
    declared = f.declared;
    admits = f.parsed ∙ ap ok (sym (ap (λ x. x.allowed_sources) f.made));
    fails_over = Follows-IsAsked spec r f;
    enforces = Follows-Enforces out parse_ip listener previous spec r free before f;
  }

  pub deciding-sni :
      (n : Bytes) (specs : List (RouteSpec F)) (spec : RouteSpec F)
      → deciding n specs ≡ some spec
      → spec.sni ≡ n
  deciding-sni n [] spec h = absurd (ground arith)
  deciding-sni n (one ∷ specs) spec h =
      ground (arith, deciding-sni n specs spec, eq_bytes_iff one.sni n)

  -- A name with a route in the table is answered by it, a name that is refused by nothing.
  resolve_with-refused :
      (t : RouteTable F Config IpNetwork) (n : Bytes) (allow_default : Bool)
      → lookup n t.exact ≡ none
      → has n t.dropped_exact ≡ true
      → resolve_with t (some n) allow_default ≡ none
  unfolding resolve_with resolve_name
  resolve_with-refused t n allow_default h k = ground arith

  pub resolve_with-exact :
      (t : RouteTable F Config IpNetwork) (n : Bytes) (allow_default : Bool)
      (r : Route F Config IpNetwork)
      → lookup n t.exact ≡ some r
      → resolve_with t (some n) allow_default ≡ some r
  unfolding resolve_with resolve_name
  resolve_with-exact t n allow_default r h = ground arith

  abbrev pub built_table :
      List (RouteSpec F) → ℕ → TlsConfigCache Config → RouteTable F Config IpNetwork
  built_table specs base c = (build_route_table out parse_ip listener previous specs base c).0

  pub build_route_table-Decided :
      (n : Bytes) (specs : List (RouteSpec F)) (base : ℕ) (c : TlsConfigCache Config)
      (spec : RouteSpec F)
      → strip_wildcard n ≡ none
      → (length n == 0) ≡ false
      → AllBuilt out.tls c.cache
      → deciding n specs ≡ some spec
      → Decided out parse_ip listener previous spec (entry n (built_table specs base c))
  unfolding build_route_table lookup
  build_route_table-Decided n specs base c spec exact named a h =
      let start : Building F Config = record {
        table = empty_table out parse_ip listener previous;
        configured_wildcards = [];
        cache = clear_used out.is_held c;
      } in
      build_all-Decided out parse_ip listener previous n exact named specs base start spec refl
        (clear_used-AllBuilt out.tls out.is_held c a) h

  -- A host name that is configured is answered by the route of the last spec for it, which admits the
  -- sources that the spec names, has the failover that it asks for and enforces the client
  -- certificates it asks for, also when the route of the table before had to be kept; or else by no
  -- route at all, never by a wildcard or the default, and only because the spec is faulty.
  pub resolve_with-configured :
      (n : Bytes) (specs : List (RouteSpec F)) (base : ℕ) (c : TlsConfigCache Config)
      (spec : RouteSpec F) (allow_default : Bool)
      → strip_wildcard n ≡ none
      → (length n == 0) ≡ false
      → deciding n specs ≡ some spec
      → IsCollisionFree out.tls
      → AllBuilt out.tls c.cache
      → EnforcedBefore out parse_ip listener previous n
      → ((resolve_with (built_table specs base c) (some n) allow_default ≡ none)
          × IsFaulty out parse_ip listener previous spec)
        ⊎ ((r : Route F Config IpNetwork) × (resolve_with
                (built_table specs base c)
                (some n)
                allow_default
              ≡ some r)
            × IsServedBy spec r)
  resolve_with-configured n specs base c spec allow_default exact named h free a before =
      let t = built_table specs base c in
      elim (build_route_table-Decided n specs base c spec exact named a h) [
        | refused absent dropped why ↦
            inl (resolve_with-refused t n allow_default absent dropped, why)
        | served r found auth f ↦
            let at_name =
              subst (EnforcedBefore out parse_ip listener previous)
                (sym (deciding-sni n specs spec h)) before in
            inr (
              r,
              resolve_with-exact t n allow_default r found,
              Follows-IsServedBy spec r free at_name f,
            )
      ]
