-- ===== src/Router/Table.antt =====
-- src/router.rs: `build_route_table`. What is logged is left out, and with it whether a failure is
-- new. The values that a route shares have places of their own, from a base for each spec.
use symphony.Prelude.{
  length, Bytes, eq_bytes, Result, ok, err, ◌==◌, if◌then◌else◌, ℕ, ◌+◌, Bool, true, false, ◌||◌,
  Option, none, some, List, [], ◌∷◌,
}
use symphony.Net.{IpAddr}
use symphony.Failover.Policy.{
  PolicyError, on_default_route, spill_on_wildcard, FailoverSpec, SpillSpec, SpillPolicy,
  FailoverPolicy, parse_policy, parse_spill,
}
use symphony.Tls.{TlsConfigCache, clear_used}
use symphony.Router.{
  Route, ClientAuth, RouteTable, has, insert, lookup, strip_wildcard, get_for_spec_sni,
}
use symphony.Router.Spec.{
  RouteSpec, ListenerTlsSpec, IpNetwork, client_auth_of, validate_route_protocol_declaration,
  parse_allowlist,
}
use symphony.Router.Install.{eq_auth, inherit_from, retracked_route, complete, install, reject}
use symphony.Router.Build.{Outside, build_route}

module _ {F Config : Type 0} (out : Outside F Config) (parse_ip : Bytes → Option IpAddr) where
  unfoldable pub checked_policy :
      RouteSpec F → FailoverSpec F → Result PolicyError (FailoverPolicy F)
  checked_policy spec f =
      if length spec.sni == 0 then err on_default_route else parse_policy out.floats parse_ip f

  unfoldable pub checked_spill : RouteSpec F → SpillSpec F → Result PolicyError (SpillPolicy F)
  checked_spill spec s = elim (strip_wildcard spec.sni) [
    | some suffix ↦ err spill_on_wildcard
    | none ↦ parse_spill out.floats s
  ]

  unfoldable pub with_spill :
      RouteSpec F
      → Option (SpillSpec F)
      → FailoverPolicy F
      → RouteTable F Config IpNetwork
      → FailoverPolicy F × RouteTable F Config IpNetwork
  with_spill spec none policy t = (policy, t)
  with_spill spec (some s) policy t = elim (checked_spill spec s) [
    | ok spill ↦ (record policy { spill = some spill }, t)
    | err e ↦ (policy, record t { invalid_spill = insert spec.sni t.invalid_spill })
  ]

  abbrev pub some_policy :
      FailoverPolicy F × RouteTable F Config IpNetwork
      → Option (FailoverPolicy F) × RouteTable F Config IpNetwork
  some_policy (policy, t) = (some policy, t)

  -- A broken policy leaves the route without failover, a broken spill without spill-over.
  unfoldable pub failover_policy :
      RouteSpec F
      → RouteTable F Config IpNetwork
      → Option (FailoverPolicy F) × RouteTable F Config IpNetwork
  failover_policy spec t = elim spec.failover [
    | none ↦ (none, t)
    | some f ↦ elim (checked_policy spec f) [
      | err e ↦ (none, record t { invalid_failover = insert spec.sni t.invalid_failover })
      | ok policy ↦ some_policy (with_spill spec f.spill policy t)
    ]
  ]

-- What the specs before have made: the table, the wildcards that are decided, and the cache.
pub record Building (F Config : Type 0) : Type 0 where
  pub table : RouteTable F Config IpNetwork
  pub configured_wildcards : List Bytes
  pub cache : TlsConfigCache Config

module _ {F : Type 0} where
  -- Whether a later spec has the same name: the last one decides an exact name.
  unfoldable pub is_listed : Bytes → List (RouteSpec F) → Bool
  is_listed sni [] = false
  is_listed sni (spec ∷ specs) = eq_bytes spec.sni sni || is_listed sni specs

  unfoldable pub is_overridden : RouteSpec F → List (RouteSpec F) → Bool
  is_overridden spec later = elim (strip_wildcard spec.sni) [
    | some suffix ↦ false
    | none ↦ is_listed spec.sni later
  ]

  abbrev pub is_present : Option (FailoverPolicy F) → Bool
  is_present none = false
  is_present (some policy) = true

unfoldable pub is_auth : ClientAuth → Option ClientAuth → Bool
is_auth requested none = false
is_auth requested (some auth) = eq_auth auth requested

module _ {F Config : Type 0} where
  abbrev pub previous_route :
      Option (RouteTable F Config IpNetwork) → Bytes → Option (Route F Config IpNetwork)
  previous_route none sni = none
  previous_route (some p) sni = get_for_spec_sni p sni

  -- The client-certificate policy that the previous table enforces for a name.
  abbrev pub previous_auth : Option (RouteTable F Config IpNetwork) → Bytes → Option ClientAuth
  previous_auth none sni = none
  previous_auth (some p) sni = lookup sni p.client_auth

  abbrev pub fail : Bytes → RouteTable F Config IpNetwork → RouteTable F Config IpNetwork
  fail sni t = record t { failing_snis = insert sni t.failing_snis }

module _ {F Config : Type 0} (out : Outside F Config) (listener : ListenerTlsSpec)
    (previous : Option (RouteTable F Config IpNetwork)) where
  -- A route that cannot be built is carried forward whole, if its policy is the one asked for.
  unfoldable pub carry :
      RouteSpec F
      → ClientAuth
      → Option (List IpNetwork)
      → Option (FailoverPolicy F)
      → ℕ
      → RouteTable F Config IpNetwork
      → RouteTable F Config IpNetwork
  carry spec auth allowed policy base t = elim (previous_route previous spec.sni) [
    | none ↦ reject spec.sni t
    | some prev ↦
        if is_auth auth (previous_auth previous spec.sni)
        then install spec.sni auth
            (complete out spec allowed policy (some prev)
              (retracked_route out (is_present policy) base prev))
            (fail spec.sni t)
        else reject spec.sni t
  ]

  unfoldable pub settle :
      RouteSpec F
      → Option (List IpNetwork)
      → Option (FailoverPolicy F)
      → ℕ
      → RouteTable F Config IpNetwork
      → TlsConfigCache Config
      → RouteTable F Config IpNetwork × TlsConfigCache Config
  settle spec allowed policy base t c =
      let prev = previous_route previous spec.sni in
      let auth = client_auth_of out.tls.sha256 spec listener in
      let (built, c') =
        build_route out spec listener c (inherit_from prev (is_present policy)) base in
      elim built [
        | ok r ↦ (install spec.sni auth (complete out spec allowed policy prev r) t, c')
        | err e ↦ (carry spec auth allowed policy base t, c')
      ]

module _ {F Config : Type 0} (out : Outside F Config) (parse_ip : Bytes → Option IpAddr)
    (listener : ListenerTlsSpec) (previous : Option (RouteTable F Config IpNetwork)) where
  -- A spec that decides its name. What is wrong with it for good rejects it.
  unfoldable pub admit :
      RouteSpec F
      → ℕ
      → RouteTable F Config IpNetwork
      → TlsConfigCache Config
      → RouteTable F Config IpNetwork × TlsConfigCache Config
  admit spec base t c = elim (validate_route_protocol_declaration spec) [
    | some e ↦ (reject spec.sni t, c)
    | none ↦ elim (parse_allowlist out.parse_network spec.allowed_sources) [
      | err e ↦ (reject spec.sni t, c)
      | ok allowed ↦
          let policed = failover_policy out parse_ip spec t in
          settle out listener previous spec allowed policed.0 base policed.1 c
    ]
  ]

  abbrev pub admitted : RouteSpec F → ℕ → Building F Config → Building F Config
  admitted spec base b =
      let r = admit spec base b.table b.cache in record b { table = r.0; cache = r.1 }

  -- The first spec of a wildcard decides it.
  unfoldable pub step : RouteSpec F → List (RouteSpec F) → ℕ → Building F Config → Building F Config
  step spec later base b = if is_overridden spec later then b else elim (strip_wildcard spec.sni) [
    | none ↦ admitted spec base b
    | some suffix ↦
        if has suffix b.configured_wildcards
        then record b { table = fail spec.sni b.table }
        else admitted spec base
            (record b { configured_wildcards = insert suffix b.configured_wildcards })
  ]

  -- Four places for each spec.
  unfoldable pub build_all : List (RouteSpec F) → ℕ → Building F Config → Building F Config
  build_all [] base b = b
  build_all (spec ∷ specs) base b = build_all specs (base + 4) (step spec specs base b)

  abbrev pub empty_table : RouteTable F Config IpNetwork
  empty_table = record {
    exact = [];
    wildcard = [];
    default = none;
    monitored_balancers = [];
    affinity_balancers = [];
    failing_snis = [];
    invalid_failover = [];
    invalid_spill = [];
    dropped_exact = [];
    dropped_wildcard = [];
    client_auth = [];
    failover_routes = [];
  }

  unfoldable pub build_route_table :
      List (RouteSpec F)
      → ℕ
      → TlsConfigCache Config
      → RouteTable F Config IpNetwork × TlsConfigCache Config
  build_route_table specs base c =
      let start : Building F Config = record {
        table = empty_table;
        configured_wildcards = [];
        cache = clear_used out.is_held c;
      } in
      let b = build_all specs base start in (b.table, b.cache)
