-- ===== src/Pipeline/Tests.antt =====
-- src/proxy_conn.rs: a connection that a peer has given over to this node.
use symphony.Prelude.{
  eq_bytes, ok, ℕ, ◌+◌, ◌*◌, ◌≡◌, refl, Bool, true, false, Option, none, some, List, [], ◌∷◌,
}
use symphony.Net.{IpAddr, SocketAddr, v4, to_canonical}
use symphony.Ingress.{Header}
use symphony.Protection
use symphony.Destination.{tcp}
use symphony.Router.Samples.{whole, name}
use symphony.Router.{
  Route, RouteTable, resolve_with, resolve_name, lookup, permits, try_acquire, out_of_service,
  opaque, not_forwarded,
}
use symphony.Router.Spec.{IpNetwork, network_v4}
use symphony.TokenBucket.{refill_and_consume, refilled, refill_of, projected, consume}
use symphony.Failover.Forward.{share, Surroundings, forward_to_peers, attempt_all, give_up, budget}
use symphony.Failover.{
  decide, record_failure, cooling_down, ready, candidates, candidates_for, PeerFailureKind,
  new_peer, fallback, rotation, advance,
}
use symphony.Failover.Policy.{FailoverPolicy}
use symphony.Failover.Rebuild.{new_failover, continue_peer, find_peer}
use symphony.Failover.Spill.{locally_down, tcp_refusing, destination_down}
use symphony.Pipeline.{
  ends_with, serves, source_not_allowed, Arrival, handle, client_of, on_route, is_permitted,
  acquire, steer,
}

-- A network is its one address.
abbrev holds : IpNetwork → IpAddr → Bool
holds (network_v4 octets prefix) (v4 ip) = eq_bytes octets ip
holds network ip = false

abbrev route : Route ℕ ℕ IpNetwork
route = record {
  metric_identity = record { route = name; group = []; counters = 1 };
  destination = tcp (record { ip = v4 (127 ∷ []); port = 80 });
  destination_h2 = none;
  tls_config = none;
  terminate_tls = false;
  suspended = false;
  suspend_timeout_ms = 1;
  rate_limiter = some (record {
    bucket = record { tokens = 2500; last_refill_ns = 5 };
    rate_per_ns = 0;
    burst_fp = 5000;
  });
  source_address_mode = not_forwarded;
  forward_fingerprint = record { ja3 = false; ja4 = false };
  protocol = opaque;
  allowed_sources = some (network_v4 (9 ∷ []) 32 ∷ []);
  failover = none;
  requires_client_cert = false;
}

abbrev table : RouteTable ℕ ℕ IpNetwork
table = record {
  exact = (name, route) ∷ [];
  wildcard = [];
  default = none;
  monitored_balancers = [];
  affinity_balancers = [];
  failing_snis = [];
  invalid_failover = [];
  invalid_spill = [];
  dropped_exact = [];
  dropped_wildcard = [];
  client_auth = [];
  failover_routes = [];
}

abbrev client : ℕ → SocketAddr
client ip = record { ip = v4 (ip ∷ []); port = 50000 }

-- Each attempt fails after a second.
abbrev no_peer_answers : Surroundings
no_peer_answers = record {
  started = 0;
  now = 0;
  is_prefixed = true;
  rounds = λ n. record {
    started = n * 1000000000;
    failure = some PeerFailureKind.refused;
    failed_ns = (n + 1) * 1000000000;
  };
  finished = 1000000000;
  is_read = true;
  copied = none;
}

-- From the peer 3, which asserts the client.
abbrev given_over : ℕ → Arrival
given_over ip = record {
  peer_addr = record { ip = v4 (3 ∷ []); port = 443 };
  header = ok (Header.proxy (client ip));
  sni = some name;
  hash = λ c. 0;
  now = 5;
  later = 5;
  complete = true;
  hello_len = 200;
  handshake = 10000000000;
  surroundings = no_peer_answers;
}

abbrev trusted : Option (List IpNetwork)
trusted = some (network_v4 (3 ∷ []) 32 ∷ [])

abbrev unprotected : IpAddr → Option Protection.Decision
unprotected ip = none

program : Unit {0}
unfolding handle client_of on_route is_permitted acquire steer resolve_with resolve_name lookup
    permits try_acquire refill_and_consume refilled refill_of projected consume to_canonical
    out_of_service forward_to_peers attempt_all give_up budget share candidates_for candidates ready
    cooling_down record_failure decide locally_down destination_down tcp_refusing new_failover
    continue_peer find_peer new_peer fallback rotation advance
program = tt

is_served :
    (handle whole holds trusted unprotected table (given_over 9)).verdict
    ≡ serves route (client 9) 10000000000
unfolding program
is_served = refl

it_spends_a_token :
    (handle whole holds trusted unprotected table (given_over 9)).rate_limiter
    ≡ some (record {
      bucket = record { tokens = 1500; last_refill_ns = 5 };
      rate_per_ns = 0;
      burst_fp = 5000;
    })
unfolding program
it_spends_a_token = refl

-- A source that the route does not admit spends no token.
is_not_allowed :
    handle whole holds trusted unprotected table (given_over 8)
    ≡ ends_with source_not_allowed route.rate_limiter
unfolding program
is_not_allowed = refl

-- The route drains, and its one peer does not answer: the connection is served with the time left.
abbrev policy : FailoverPolicy ℕ
policy = record {
  peers = record { ip = v4 (3 ∷ []); port = 443 } ∷ [];
  drain = true;
  probe_interval = 1000;
  cooldown_min = 5000;
  cooldown_max = 60000;
  spill = none;
}

abbrev draining : Route ℕ ℕ IpNetwork
draining = record route { failover = some (new_failover whole policy none none false) }

it_falls_through :
    (handle {F = ℕ} {Config = ℕ} whole holds none unprotected
      (record table { exact = (name, draining) ∷ [] })
      (record (given_over 9) { peer_addr = client 9 })).verdict
    ≡ serves draining (client 9) 9000000000
unfolding program
it_falls_through = refl
