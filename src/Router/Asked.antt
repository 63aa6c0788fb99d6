-- ===== src/Router/Asked.antt =====
-- src/router.rs, src/failover.rs: the failover that a spec asks for.
use symphony.Prelude.{
  length, Bytes, Result-cases, ok, err, ◌==◌, Bool-cases, Option-cases, ℕ, ◌*◌, ◌≡◌, refl, sym, ap,
  ◌∙◌, subst, ◌⊎◌, inl, inr, Option, none, some, List, [], ◌∷◌, ◌++◌, append-nil, append_assoc,
  arith,
}
use symphony.Float.{Float64}
use symphony.Net.{IpAddr, SocketAddr}
use symphony.Failover.Policy.{
  PolicyError, spill_on_wildcard, FailoverSpec, SpillSpec, SpillPolicy, FailoverPolicy, unwrap_or,
  parse_peers, bounded_ms, parse_policy, parse_spill,
}
use symphony.Failover.Accepted.{parse_policy-IsAccepted}
use symphony.Router.{RouteTable, strip_wildcard}
use symphony.Router.Spec.{RouteSpec, IpNetwork}
use symphony.Router.Build.{Outside}
use symphony.Router.Table.{checked_policy, checked_spill, with_spill, failover_policy}
use symphony.Router.Planned.{Plan, plan, policy_plan}

module _ {F : Type 0} (fl : Float64 F) (parse_ip : Bytes → Option IpAddr) where
  -- The peers that are listed, in their order.
  abbrev pub AreRead : List (Bytes × ℕ) → List SocketAddr → Type 0
  AreRead [] [] = Unit {0}
  AreRead [] (addr ∷ addrs) = ⊥
  AreRead ((host, port) ∷ specs) [] = ⊥
  AreRead ((host, port) ∷ specs) (addr ∷ addrs) =
      (parse_ip host ≡ some addr.ip) × (addr.port ≡ port) × AreRead specs addrs

  -- A time that is configured in milliseconds, or else its default, in nanoseconds.
  abbrev pub configured_ns : Option F → F → ℕ
  configured_ns value default = fl.to_u64 (unwrap_or value default) * 1000000

  pub data SpillsAsAsked (spec : RouteSpec F) (asked : Option (SpillSpec F))
      (spill : Option (SpillPolicy F)) : Type 0 where
    no_spill : asked ≡ none → spill ≡ none → SpillsAsAsked spec asked spill
    on_wildcard :
        (suffix : Bytes)
        → strip_wildcard spec.sni ≡ some suffix
        → spill ≡ none
        → SpillsAsAsked spec asked spill
    bad_spill :
        (s : SpillSpec F) (e : PolicyError)
        → asked ≡ some s
        → parse_spill fl s ≡ err e
        → spill ≡ none
        → SpillsAsAsked spec asked spill
    spills :
        (s : SpillSpec F) (policy : SpillPolicy F)
        → asked ≡ some s
        → parse_spill fl s ≡ ok policy
        → spill ≡ some policy
        → SpillsAsAsked spec asked spill

  pub record FollowsSpec (spec : RouteSpec F) (asked : FailoverSpec F) (p : Plan F) : Type 0 where
    pub listed : AreRead asked.peers p.peers
    pub drains : p.drain ≡ asked.drain
    pub probed : p.probe_interval_ns ≡ configured_ns asked.probe_interval_ms (fl.of_nat 1000)
    pub cooled : p.cooldown_min_ns ≡ configured_ns asked.cooldown_min_ms (fl.of_nat 5000)
    pub capped :
        p.cooldown_max_ns
        ≡ configured_ns asked.cooldown_max_ms (
            fl.max_of
              (fl.of_nat 60000)
              (fl.of_nat (fl.to_u64 (unwrap_or asked.cooldown_min_ms (fl.of_nat 5000)))))
    pub spilled : SpillsAsAsked spec asked.spill p.spill

  -- A plan is the one that the spec asks for; there is none where it asks for none or for a faulty one.
  pub data IsAsked (spec : RouteSpec F) (plan : Option (Plan F)) : Type 0 where
    unasked : spec.failover ≡ none → plan ≡ none → IsAsked spec plan
    on_default : length spec.sni ≡ 0 → plan ≡ none → IsAsked spec plan
    bad_policy :
        (f : FailoverSpec F) (e : PolicyError)
        → spec.failover ≡ some f
        → parse_policy fl parse_ip f ≡ err e
        → plan ≡ none
        → IsAsked spec plan
    asked :
        (f : FailoverSpec F) (p : Plan F)
        → spec.failover ≡ some f
        → plan ≡ some p
        → FollowsSpec spec f p
        → IsAsked spec plan

  parse_peers-AreRead :
      (specs : List (Bytes × ℕ)) (seen peers : List SocketAddr)
      → parse_peers parse_ip specs seen ≡ ok peers
      → (read : List SocketAddr) × (peers ≡ seen ++ read) × AreRead specs read
  unfolding parse_peers
  parse_peers-AreRead [] seen peers h = ([], ground (arith, append-nil seen), tt)
  parse_peers-AreRead ((host, port) ∷ specs) seen peers h = elim (Option-cases (parse_ip host)) [
    | inl no_ip ↦ absurd (ground arith)
    | inr (ip, is_ip) ↦
        let addr : SocketAddr = record { ip = ip; port = port } in
        let (read, whole, listed) =
          parse_peers-AreRead specs (seen ++ addr ∷ []) peers (ground arith) in
        (addr ∷ read, whole ∙ append_assoc seen (addr ∷ []) read, (is_ip, refl, listed))
  ]

  bounded_ms-configured_ns :
      (value : Option F) (default : F) (min_ms ms : ℕ)
      → bounded_ms fl value default min_ms ≡ ok ms
      → ms ≡ fl.to_u64 (unwrap_or value default)
  unfolding bounded_ms
  bounded_ms-configured_ns value default min_ms ms h = ground arith

  parse_policy-FollowsSpec :
      (spec : RouteSpec F) (f : FailoverSpec F) (policy : FailoverPolicy F)
      (spill : Option (SpillPolicy F))
      → parse_policy fl parse_ip f ≡ ok policy
      → SpillsAsAsked spec f.spill spill
      → FollowsSpec spec f (plan (record policy { spill = spill }))
  parse_policy-FollowsSpec spec f policy spill h spilled =
      let a = parse_policy-IsAccepted fl parse_ip f policy h in
      let (read, whole, listed) = parse_peers-AreRead f.peers [] policy.peers a.parsed in
      let probed = bounded_ms-configured_ns _ _ _ _ a.probed in
      let cooled = bounded_ms-configured_ns _ _ _ _ a.cooled in
      let capped = bounded_ms-configured_ns _ _ _ _ a.capped in
      record {
        listed = subst (AreRead f.peers) (sym whole) listed;
        drains = a.drains;
        probed = ap (λ n. n * 1000000) probed;
        cooled = ap (λ n. n * 1000000) cooled;
        capped =
            ap (λ n. n * 1000000) capped
            ∙ ap (λ n. configured_ns f.cooldown_max_ms (fl.max_of (fl.of_nat 60000) (fl.of_nat n)))
                cooled;
        spilled = spilled;
      }

module _ {F Config : Type 0} (out : Outside F Config) (parse_ip : Bytes → Option IpAddr) where
  checked_spill-cases :
      (spec : RouteSpec F) (s : SpillSpec F)
      → ((q : SpillPolicy F) × (checked_spill out parse_ip spec s ≡ ok q)
          × (parse_spill out.floats s ≡ ok q))
        ⊎ ((e : PolicyError) × (checked_spill out parse_ip spec s ≡ err e)
            × SpillsAsAsked out.floats parse_ip spec (some s) none)
  unfolding checked_spill
  checked_spill-cases spec s = elim (Option-cases (strip_wildcard spec.sni)) [
    | inr (suffix, e) ↦ inr (spill_on_wildcard, ground arith, on_wildcard suffix e refl)
    | inl e ↦ elim (Result-cases (parse_spill out.floats s)) [
      | inl (q, k) ↦ inl (q, ground arith, k)
      | inr (x, k) ↦ inr (x, ground arith, bad_spill s x refl k refl)
    ]
  ]

  with_spill-SpillsAsAsked :
      (spec : RouteSpec F) (asked : Option (SpillSpec F)) (policy : FailoverPolicy F)
      (t : RouteTable F Config IpNetwork)
      → policy.spill ≡ none
      → (spill : Option (SpillPolicy F)) × ((with_spill out parse_ip spec asked policy t).0
          ≡ record policy { spill = spill })
        × SpillsAsAsked out.floats parse_ip spec asked spill
  unfolding with_spill
  with_spill-SpillsAsAsked spec none policy t h =
      (none, ap (λ x. record policy { spill = x }) h, no_spill refl refl)
  with_spill-SpillsAsAsked spec (some s) policy t h = elim (checked_spill-cases spec s) [
    | inl (q, e, k) ↦ (some q, rw (e, with_spill) refl, spills s q refl k refl)
    | inr (x, e, k) ↦ (none, rw (e, with_spill) (ap (λ x. record policy { spill = x }) h), k)
  ]

  parse_policy-spill :
      (f : FailoverSpec F) (policy : FailoverPolicy F)
      → parse_policy out.floats parse_ip f ≡ ok policy
      → policy.spill ≡ none
  unfolding parse_policy
  parse_policy-spill f policy h = ground arith

  -- The policy of a spec is the one that it asks for.
  pub failover_policy-IsAsked :
      (spec : RouteSpec F) (t : RouteTable F Config IpNetwork)
      → IsAsked out.floats parse_ip spec (policy_plan (failover_policy out parse_ip spec t).0)
  unfolding failover_policy checked_policy
  failover_policy-IsAsked spec t =
      let Policy =
        λ (x : Option (FailoverPolicy F)). IsAsked out.floats parse_ip spec (policy_plan x) in
      let got = (failover_policy out parse_ip spec t).0 in
      elim (Option-cases spec.failover) [
        | inl e ↦ let absent : none ≡ got = ground arith in subst Policy absent (unasked e refl)
        | inr (f, e) ↦ elim (Bool-cases (length spec.sni == 0)) [
          | inl k ↦
              let absent : none ≡ got = ground arith in
              subst Policy absent (on_default (ground arith) refl)
          | inr k ↦ elim (Result-cases (parse_policy out.floats parse_ip f)) [
            | inr (x, h) ↦
                let absent : none ≡ got = ground arith in
                subst Policy absent (bad_policy f x e h refl)
            | inl (policy, h) ↦
                let (spill, same, spilled) =
                  with_spill-SpillsAsAsked spec f.spill policy t (parse_policy-spill f policy h) in
                let found : some (record policy { spill = spill }) ≡ got = ground arith in
                subst Policy found (
                  asked f (plan (record policy { spill = spill })) e refl
                    (parse_policy-FollowsSpec out.floats parse_ip spec f policy spill h spilled))
          ]
        ]
      ]
