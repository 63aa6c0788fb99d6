-- ===== src/Pipeline/Verdicts.antt =====
-- src/proxy_conn.rs, src/failover.rs: when a connection may be served, suspended or given to a peer.
use symphony.Prelude.{
  ℕ, ◌-◌, ◌≡◌, refl, ◌≢◌, ◌⊎◌, inl, inr, Bool, true, false, not, ◌||◌, Option, none, some, List,
  arith,
}
use symphony.Float.{Float64}
use symphony.Net.{IpAddr, SocketAddr}
use symphony.Protection
use symphony.Failover.{Decision, ForwardMode, decide}
use symphony.Failover.Forward.{Forwarded, Passage, done}
use symphony.Failover.Attempts.{IsOutcome}
use symphony.Failover.Spill.{Failover, locally_down}
use symphony.Router.{out_of_service, Route, RouteTable, resolve_with}
use symphony.Router.Spec.{IpNetwork}
use symphony.Pipeline.{
  Verdict, untrusted_source, no_route, source_not_allowed, route_rate_limited, locally_refused,
  rejected, answers, blocked, handed, suspends, serves, Arrival, is_some, spill_peer,
}
use symphony.Pipeline.Passed.{HasPassed}

pub Decision-cases :
    (d : Decision)
    → (d ≡ Decision.refuse)
      ⊎ ((d ≡ Decision.local) ⊎ ((mode : ForwardMode) × (d ≡ Decision.forward mode)))
Decision-cases Decision.refuse = inl refl
Decision-cases Decision.local = inr (inl refl)
Decision-cases (Decision.forward mode) = inr (inr (mode, refl))

-- When a connection is due for the peers: the upstream is down, or else the route drains, or else there
-- is a peer to spill over to.
abbrev pub IsDueTo : ForwardMode → Bool → Bool → Option ℕ → Type 0
IsDueTo ForwardMode.down down draining spill = down ≡ true
IsDueTo ForwardMode.drain down draining spill = (down ≡ false) × (draining ≡ true)
IsDueTo (ForwardMode.spill i) down draining spill =
    (down ≡ false) × (draining ≡ false) × (spill ≡ some i)

pub IsDueTo-up :
    (mode : ForwardMode) (down draining : Bool) (spill : Option ℕ)
    → mode ≢ ForwardMode.down
    → IsDueTo mode down draining spill
    → down ≡ false
IsDueTo-up ForwardMode.down down draining spill other due = absurd (other refl)
IsDueTo-up ForwardMode.drain down draining spill other due = due.0
IsDueTo-up (ForwardMode.spill i) down draining spill other due = due.0

pub decide-refuse :
    (ingress suspended down draining : Bool) (spill : Option ℕ)
    → decide ingress suspended down draining spill ≡ Decision.refuse
    → (ingress ≡ true) × ((draining || down) ≡ true)
unfolding decide
decide-refuse ingress suspended down draining spill h = (ground arith, ground arith)

pub decide-local :
    (ingress suspended down draining : Bool) (spill : Option ℕ)
    → decide ingress suspended down draining spill ≡ Decision.local
    → suspended ≡ false
    → (draining || down) ≡ false
unfolding decide
decide-local ingress suspended down draining spill h awake = ground arith

pub decide-forward :
    (ingress suspended down draining : Bool) (spill : Option ℕ) (mode : ForwardMode)
    → decide ingress suspended down draining spill ≡ Decision.forward mode
    → (ingress ≡ false) × (suspended ≡ false) × IsDueTo mode down draining spill
unfolding decide
decide-forward ingress suspended down draining spill ForwardMode.down h =
    (ground arith, ground arith, ground arith)
decide-forward ingress suspended down draining spill ForwardMode.drain h =
    (ground arith, ground arith, (ground arith, ground arith))
decide-forward ingress suspended down draining spill (ForwardMode.spill i) h =
    (ground arith, ground arith, (ground arith, ground arith, ground arith))

module _ {F Config : Type 0} where
  abbrev pub IsDue :
      ForwardMode → Failover F → Route F Config IpNetwork → SocketAddr → Arrival → Type 0
  IsDue mode f route client a =
      IsDueTo mode (locally_down f route.destination route.destination_h2) f.drain
        (spill_peer f (a.hash client) a.later)

  -- A connection that is given to the peers of its route, and how its attempts end.
  pub record IsForwarded (a : Arrival) (route : Route F Config IpNetwork) (client : SocketAddr)
      (mode : ForwardMode) (end : Forwarded) (forwarding : Option (Passage × ℕ)) : Type 0 where
    pub failover : Failover F
    pub configured : route.failover ≡ some failover
    pub due : IsDue mode failover route client a
    pub passage : Passage
    pub cursor : ℕ
    pub passed : forwarding ≡ some (passage, cursor)
    pub ended : IsOutcome mode a.handshake a.surroundings (end, passage)

  -- The route is in service and the connection has all of the handshake's time; or the upstream is up,
  -- the route drains or spills, no peer took the connection, no byte of it was read, and it has the
  -- time that the attempts left.
  pub data IsServed (ingress : Bool) (a : Arrival) (route : Route F Config IpNetwork)
      (client : SocketAddr) (left : ℕ) (forwarding : Option (Passage × ℕ)) : Type 0 where
    in_service :
        out_of_service route ≡ false
        → left ≡ a.handshake
        → forwarding ≡ none
        → IsServed ingress a route client left forwarding
    not_taken :
        (f : Failover F) (mode : ForwardMode) (p : Passage) (cursor : ℕ)
        → ingress ≡ false
        → route.failover ≡ some f
        → locally_down f route.destination route.destination_h2 ≡ false
        → IsDue mode f route client a
        → forwarding ≡ some (p, cursor)
        → p.is_consumed ≡ false
        → left ≡ a.handshake - (a.surroundings.finished - a.surroundings.started)
        → IsServed ingress a route client left forwarding

module _ {F Config : Type 0} (fl : Float64 F) (contains : IpNetwork → IpAddr → Bool) where
  abbrev pub IsSound :
      Option (List IpNetwork)
      → (IpAddr → Option Protection.Decision)
      → RouteTable F Config IpNetwork
      → Arrival
      → Verdict F Config
      → Option (Passage × ℕ)
      → Type 0
  IsSound ingress check table a (serves route client left) forwarding =
      HasPassed fl contains ingress check table a route client
      × (route.suspended ≡ false)
      × IsServed (is_some ingress) a route client left forwarding
  IsSound ingress check table a (handed route client mode end) forwarding =
      HasPassed fl contains ingress check table a route client
      × (route.suspended ≡ false)
      × (is_some ingress ≡ false)
      × IsForwarded a route client mode (done end) forwarding
  IsSound ingress check table a (suspends route client left) forwarding =
      HasPassed fl contains ingress check table a route client × (route.suspended ≡ true)
  IsSound ingress check table a locally_refused forwarding =
      (route : Route F Config IpNetwork) × (resolve_with table a.sni (not (is_some ingress))
        ≡ some route)
      × (is_some ingress ≡ true)
      × (out_of_service route ≡ true)
  IsSound ingress check table a untrusted_source forwarding = is_some ingress ≡ true
  IsSound ingress check table a (rejected reject) forwarding = is_some ingress ≡ true
  IsSound ingress check table a (answers names) forwarding = is_some ingress ≡ true
  IsSound ingress check table a no_route forwarding =
      resolve_with table a.sni (not (is_some ingress)) ≡ none
  IsSound ingress check table a source_not_allowed forwarding = Unit {0}
  IsSound ingress check table a route_rate_limited forwarding = Unit {0}
  IsSound ingress check table a (blocked reason) forwarding = Unit {0}
