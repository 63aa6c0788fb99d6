-- ===== src/Failover/Poll.antt =====
-- src/failover.rs: what an answer to a load query stores at the peers, and the pass of the spill-over
-- controllers. The failover routes of a table are the store, each with a state of its own.
use symphony.Prelude.{
  get_elem?, Bytes, eq_bytes, if◌then◌else◌, ℕ, suc, Option, none, some, List, [], ◌∷◌,
}
use symphony.Float.{Float64}
use symphony.Net.{SocketAddr}
use symphony.Destination.{route_load}
use symphony.Router.{FailoverRoute}
use symphony.Failover.{FailoverPeer, eq_addr, set_report, record_rtt}
use symphony.Failover.Spill.{PeerView, report_ttl_ms, control, view}

-- A load query's outcome: the time to connect in microseconds, and for each name the answer with the
-- milliseconds at which it came, if its chunk was answered.
pub record LoadAnswer : Type 0 where
  pub rtt_us : ℕ
  pub loads : List (Option (Option ℕ × ℕ))

unfoldable pub position : Bytes → List Bytes → Option ℕ
position name [] = none
position name (n ∷ names) =
    let rest = position name names in
    if eq_bytes n name then some 0 else elim rest [ none ↦ none | some i ↦ some (suc i) ]

abbrev pub store_report : Option (Option (Option ℕ × ℕ)) → FailoverPeer → FailoverPeer
store_report none peer = peer
store_report (some none) peer = peer
store_report (some (some (load, at_ms))) peer = set_report load at_ms peer

-- The first peer with this address is changed.
unfoldable pub at_addr :
    (FailoverPeer → FailoverPeer) → SocketAddr → List FailoverPeer → List FailoverPeer
at_addr change addr [] = []
at_addr change addr (peer ∷ peers) =
    let rest = at_addr change addr peers in
    if eq_addr peer.addr addr then change peer ∷ peers else peer ∷ rest

module _ {F : Type 0} (fl : Float64 F) where
  unfoldable pub answered : LoadAnswer → ℕ → FailoverPeer → FailoverPeer
  answered answer i peer =
      store_report (get_elem? answer.loads i) (record_rtt fl answer.rtt_us peer)

  -- A route takes what is said of its name, if it has a spill-over policy.
  unfoldable pub answer_route :
      SocketAddr → List Bytes → LoadAnswer → FailoverRoute F → FailoverRoute F
  answer_route addr names answer route = elim route.failover.spill [
    | none ↦ route
    | some spill ↦ elim (position route.identity.route names) [
      | none ↦ route
      | some i ↦ record route {
        failover = record route.failover {
          peers = at_addr (answered answer i) addr route.failover.peers;
        };
      }
    ]
  ]

  unfoldable pub answer_routes :
      SocketAddr → List Bytes → LoadAnswer → List (FailoverRoute F) → List (FailoverRoute F)
  answer_routes addr names answer [] = []
  answer_routes addr names answer (route ∷ routes) =
      answer_route addr names answer route ∷ answer_routes addr names answer routes

  -- A query that fails leaves the reports as they are.
  unfoldable pub apply_answer :
      SocketAddr → List Bytes → Option LoadAnswer → List (FailoverRoute F) → List (FailoverRoute F)
  apply_answer addr names none routes = routes
  apply_answer addr names (some answer) routes = answer_routes addr names answer routes

unfoldable pub views : ℕ → ℕ → List FailoverPeer → List PeerView
views ttl_ms now [] = []
views ttl_ms now (peer ∷ peers) = view ttl_ms now peer ∷ views ttl_ms now peers

module _ {F : Type 0} (fl : Float64 F) (published : ℕ → ℕ) where
  unfoldable pub control_route : ℕ → FailoverRoute F → FailoverRoute F
  control_route now route = elim route.failover.spill [
    | none ↦ route
    | some spill ↦
        let local = route_load published route.destination route.destination_h2 now in
        let peers = views (report_ttl_ms route.failover) now route.failover.peers in
        record route {
          failover = record route.failover { spill = some (control fl spill local peers now).1 };
        }
  ]

  unfoldable pub control_all : ℕ → List (FailoverRoute F) → List (FailoverRoute F)
  control_all now [] = []
  control_all now (route ∷ routes) = control_route now route ∷ control_all now routes
