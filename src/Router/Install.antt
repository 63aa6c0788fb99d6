-- ===== src/Router/Install.antt =====
-- src/router.rs: what a route takes over from the one that it replaces, and how it comes into the
-- table, or a name into the names that are refused.
use symphony.Prelude.{
  length, Bytes, eq_bytes, ◌==◌, if◌then◌else◌, ℕ, ◌+◌, Bool, true, false, ◌&&◌, Option, none, some,
  List, [], ◌∷◌, ◌++◌,
}
use symphony.Net.{SocketAddr}
use symphony.Balancer.{SlotHealth, UdsBalancer, new_health}
use symphony.Balancer.Rebuild.{tracks_health, has_monitored_slots}
use symphony.Destination.{Destination, tcp, uds_set, all_of}
use symphony.Failover.{eq_addr}
use symphony.Failover.Policy.{FailoverPolicy}
use symphony.Failover.Spill.{Failover, locally_down}
use symphony.Failover.Rebuild.{new_failover}
use symphony.Tls.{eq_bool}
use symphony.Router.{
  RouteMetricIdentity, Route, ClientAuth, passthrough, no_client_cert, client_cert, FailoverRoute,
  RouteTable, insert, put, strip_wildcard,
}
use symphony.Router.Spec.{RouteSpec, IpNetwork}
use symphony.Router.Build.{Inherit, Outside, retrack}

unfoldable pub eq_auth : ClientAuth → ClientAuth → Bool
eq_auth passthrough passthrough = true
eq_auth no_client_cert no_client_cert = true
eq_auth (client_cert ca required) (client_cert ca' required') =
    eq_bytes ca ca' && eq_bool required required'
eq_auth a b = false

-- A set of names with those that are rejected with nothing in their place.
unfoldable pub tombstone :
    {F Config Network : Type 0} → Bytes → RouteTable F Config Network → RouteTable F Config Network
tombstone sni t = elim (strip_wildcard sni) [
  | some suffix ↦ record t { dropped_wildcard = t.dropped_wildcard ++ suffix ∷ [] }
  | none ↦ record t { dropped_exact = insert sni t.dropped_exact }
]

abbrev pub balancers_of : List Destination → List UdsBalancer
balancers_of [] = []
balancers_of (tcp addr ∷ ds) = balancers_of ds
balancers_of (uds_set b ∷ ds) = b ∷ balancers_of ds

unfoldable pub monitored : List UdsBalancer → List UdsBalancer
monitored [] = []
monitored (b ∷ bs) =
    let rest = monitored bs in if has_monitored_slots b.sockets then b ∷ rest else rest

unfoldable pub with_affinity : List UdsBalancer → List UdsBalancer
with_affinity [] = []
with_affinity (b ∷ bs) =
    let rest = with_affinity bs in elim b.affinity [ none ↦ rest | some a ↦ b ∷ rest ]

unfoldable pub all_track : Bool → List UdsBalancer → Bool
all_track tracked [] = true
all_track tracked (b ∷ bs) = eq_bool (tracks_health b.sockets) tracked && all_track tracked bs

-- `shares_load_with` compares places.
unfoldable pub same_load_source : Destination → Destination → Bool
same_load_source (tcp a) (tcp b) = eq_addr a b
same_load_source (uds_set a) (uds_set b) = a.load == b.load
same_load_source a b = false

unfoldable pub same_h2_source : Option Destination → Option Destination → Bool
same_h2_source none none = true
same_h2_source (some a) (some b) = same_load_source a b
same_h2_source a b = false

module _ {F Config : Type 0} where
  unfoldable pub down_before : Option (Route F Config IpNetwork) → Bool
  down_before none = false
  down_before (some p) = elim p.failover [
    | none ↦ false
    | some f ↦ locally_down f p.destination p.destination_h2
  ]

  unfoldable pub inherit_from : Option (Route F Config IpNetwork) → Bool → Inherit
  inherit_from previous tracks = record {
    previous = elim previous [ none ↦ none | some p ↦ some p.destination ];
    previous_h2 = elim previous [ none ↦ none | some p ↦ p.destination_h2 ];
    track_health = tracks;
    refuse_new = down_before previous;
  }

  unfoldable pub continued_identity :
      Bytes → Option (Route F Config IpNetwork) → RouteMetricIdentity → RouteMetricIdentity
  continued_identity group none identity = identity
  continued_identity group (some p) identity =
      if eq_bytes p.metric_identity.group group then p.metric_identity else identity

  -- The failover of the previous route, where both have the same identity.
  unfoldable pub previous_failover :
      Option (Route F Config IpNetwork) → RouteMetricIdentity → Option (Failover F)
  previous_failover none identity = none
  previous_failover (some p) identity =
      if p.metric_identity.counters == identity.counters then p.failover else none

  -- The health of the same TCP address in the previous route.
  unfoldable pub inherited_tcp_health :
      SocketAddr → Option (Route F Config IpNetwork) → Option SlotHealth
  inherited_tcp_health addr none = none
  inherited_tcp_health addr (some p) = elim p.destination [
    | uds_set b ↦ none
    | tcp prev ↦ elim p.failover [
      | none ↦ none
      | some f ↦ if eq_addr prev addr then f.tcp_health else none
    ]
  ]

  unfoldable pub load_continues :
      Option (Route F Config IpNetwork) → Destination → Option Destination → Bool
  load_continues none destination destination_h2 = false
  load_continues (some p) destination destination_h2 =
      same_load_source p.destination destination && same_h2_source p.destination_h2 destination_h2

  unfoldable pub push_failover :
      Route F Config IpNetwork → List (FailoverRoute F) → List (FailoverRoute F)
  push_failover r routes = elim r.failover [
    | none ↦ routes
    | some f ↦
        routes
        ++ record {
          identity = r.metric_identity;
          failover = f;
          destination = r.destination;
          destination_h2 = r.destination_h2;
        }
          ∷ []
  ]

  unfoldable pub put_route :
      Bytes
      → Route F Config IpNetwork
      → RouteTable F Config IpNetwork
      → RouteTable F Config IpNetwork
  put_route sni r t = elim (strip_wildcard sni) [
    | some suffix ↦ record t { wildcard = t.wildcard ++ (suffix, r) ∷ [] }
    | none ↦
        if length sni == 0
        then record t { default = some r }
        else record t { exact = put sni r t.exact }
  ]

  unfoldable pub install :
      Bytes
      → ClientAuth
      → Route F Config IpNetwork
      → RouteTable F Config IpNetwork
      → RouteTable F Config IpNetwork
  install sni auth r t =
      let balancers = balancers_of (all_of r.destination r.destination_h2) in
      put_route sni r (record t {
        failover_routes = push_failover r t.failover_routes;
        monitored_balancers = t.monitored_balancers ++ monitored balancers;
        affinity_balancers = t.affinity_balancers ++ with_affinity balancers;
        client_auth = put sni auth t.client_auth;
      })

  abbrev pub reject : Bytes → RouteTable F Config IpNetwork → RouteTable F Config IpNetwork
  reject sni t = tombstone sni (record t { failing_snis = insert sni t.failing_snis })

module _ {F Config : Type 0} (out : Outside F Config) where
  -- A route that is carried forward tracks the health of its slots just when it has failover.
  unfoldable pub retracked_route : Bool → ℕ → Route F Config IpNetwork → Route F Config IpNetwork
  retracked_route track base r =
      if all_track track (balancers_of (all_of r.destination r.destination_h2))
      then r
      else record r {
        destination = retrack out track (base + 2) r.destination;
        destination_h2 = elim r.destination_h2 [
          | none ↦ none
          | some h2 ↦ some (retrack out track (base + 3) h2)
        ];
      }

  unfoldable pub tcp_health_of : Destination → Option (Route F Config IpNetwork) → Option SlotHealth
  tcp_health_of (uds_set b) previous = none
  tcp_health_of (tcp addr) previous = elim (inherited_tcp_health addr previous) [
    | some health ↦ some health
    | none ↦ some (new_health out.now_ns (down_before previous))
  ]

  unfoldable pub failover_of :
      Option (FailoverPolicy F)
      → Option (Route F Config IpNetwork)
      → Route F Config IpNetwork
      → Option (Failover F)
  failover_of none previous r = none
  failover_of (some policy) previous r = some (
      new_failover out.floats policy (previous_failover previous r.metric_identity)
        (tcp_health_of r.destination previous)
        (load_continues previous r.destination r.destination_h2))

  -- What a route takes on after it is built or carried forward.
  unfoldable pub complete :
      RouteSpec F
      → Option (List IpNetwork)
      → Option (FailoverPolicy F)
      → Option (Route F Config IpNetwork)
      → Route F Config IpNetwork
      → Route F Config IpNetwork
  complete spec allowed policy previous r =
      let identity = continued_identity spec.metrics_group previous r.metric_identity in
      let r' = record r { allowed_sources = allowed; metric_identity = identity } in
      record r' { failover = failover_of policy previous r' }
