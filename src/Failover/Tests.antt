-- ===== src/Failover/Tests.antt =====
-- src/failover.rs: the theorems at two nodes and at two peers.
use symphony.Prelude.{
  length, get_elem?, ok, ltb, ℕ, zero, suc, ◌+◌, ◌*◌, ◌≤◌, max, ◌≡◌, refl, ◌≢◌, true, false, none,
  some, List, [], ◌∷◌, arith,
}
use symphony.Net.{v4}
use symphony.Router.Samples.{name, whole-IsBounding, whole, parse_ip}
use symphony.Failover.{
  rtt, report, rotation, ready, fallback, advance, PeerFailureKind, FailoverPeer, cooldown_until,
  cooling_down, record_failure, down, candidates, candidates_for,
}
use symphony.Failover.Policy.{
  bounded_ms, has_addr, parse_peers, SpillPolicy, FailoverSpec, FailoverPolicy, parse_policy,
}
use symphony.Failover.Spill.{
  view, report_ttl_ms, elapsed_since, moved, next_fraction, admit, compared, least, within,
  eligible, unpack, targets, new_status, Admission, pack, spill_target, PeerView, assess, Spill,
  Failover, control,
}
use symphony.Failover.Forward.{share, budget, attempt_all, Surroundings, forward_to_peers}
use symphony.Failover.Accepted.{IsPolicy, parse_policy-IsPolicy}
use symphony.Failover.Cooldown.{record_failure-cooling_down}
use symphony.Failover.Justified.{assess-not_mutual}
use symphony.Failover.Current.{IsCurrent, word_at, control_route-IsCurrent}
use symphony.Destination.{uds_set, route_load, destination_load, get}
use symphony.Failover.Poll.{control_route, views}
use symphony.Router.{FailoverRoute}
use symphony.Failover.Candidates.{occurs, candidates-occurs}
use symphony.Failover.Earliest.{candidates-earliest}
use symphony.Failover.Attempts.{
  places, IsOutcome, forward_to_peers-IsOutcome, forward_to_peers-tried,
}

abbrev no_spill : FailoverSpec ℕ
no_spill = record {
  peers = (1 ∷ [], 443) ∷ (2 ∷ [], 443) ∷ [];
  drain = true;
  probe_interval_ms = some 20;
  cooldown_min_ms = none;
  cooldown_max_ms = none;
  spill = none;
}

abbrev taken : FailoverPolicy ℕ
taken = record {
  peers = record { ip = v4 (1 ∷ []); port = 443 } ∷ record { ip = v4 (2 ∷ []); port = 443 } ∷ [];
  drain = true;
  probe_interval = 20;
  cooldown_min = 5000;
  cooldown_max = 60000;
  spill = none;
}

is_taken : parse_policy whole parse_ip no_spill ≡ ok taken
unfolding parse_policy parse_peers has_addr bounded_ms
is_taken = refl

parse_policy-IsPolicy_example : IsPolicy whole taken × (length taken.peers ≡ 2)
parse_policy-IsPolicy_example =
    parse_policy-IsPolicy whole parse_ip no_spill taken whole-IsBounding is_taken

abbrev peer_at : ℕ → ℕ → FailoverPeer
peer_at port until = record {
  addr = record { ip = v4 (1 ∷ []); port = port };
  cooldown = until;
  forwarded = 0;
  spilled = 0;
  failures = record { refused = 0; timeout = 0; zero_byte_close = 0; error = 0 };
  report_word = 0;
  rtt_us = 0;
}

record_failure-cooling_down_example :
    let failed = record_failure PeerFailureKind.timeout 1000 60000 500 (peer_at 443 0) in
    (cooling_down 700 failed ≡ ltb 700 (cooldown_until failed))
    × (1500 ≤ cooldown_until failed)
    × (cooldown_until (peer_at 443 0) ≤ cooldown_until failed)
    × (cooldown_until failed ≤ max (cooldown_until (peer_at 443 0)) 60500)
record_failure-cooling_down_example =
    record_failure-cooling_down PeerFailureKind.timeout 1000 60000 500 700 (peer_at 443 0)
      (omega arith) (omega arith)

abbrev half : Admission
half = record { fraction = 500; target = 1; until_ms = 2000 }

abbrev policy : SpillPolicy ℕ
policy = record {
  high_water = 750;
  margin = 200;
  step = 1000;
  max_fraction = 500;
  max_peer_rtt = none;
}

-- A peer that reports this load.
abbrev reports : ℕ → PeerView
reports load = record { load = some load; report_until_ms = 5000; cooling = false; rtt_ns = none }

spills_to_the_idle : (assess policy (some (900, 4000)) (reports 100 ∷ []) 7).1 ≡ some (0, 4000)
unfolding assess targets eligible within least compared
spills_to_the_idle = refl

assess-not_mutual_example :
    (assess policy (some (100, 4000)) (reports 900 ∷ []) 7).1 ≢ some (0, 4000)
assess-not_mutual_example =
    assess-not_mutual policy policy 900 4000 100 4000 0 4000 0 4000 7 7 (reports 100 ∷ [])
      (reports 900 ∷ []) (reports 100) (reports 900) (omega arith) refl refl refl refl
      spills_to_the_idle

abbrev running : Spill ℕ
running = record {
  policy = policy;
  state = record { admission_word = 0; controller = record { fraction = 300; last_ns = 6000000 } };
}

abbrev peers : List FailoverPeer
peers = peer_at 443 0 ∷ peer_at 444 9000000000 ∷ []

abbrev failover : Failover ℕ
failover = record {
  drain = true;
  probe_interval_ns = 20000000;
  cooldown_min_ns = 1000;
  cooldown_max_ns = 60000;
  peers = peer_at 443 0 ∷ peer_at 444 0 ∷ [];
  cursor = 3;
  tcp_health = none;
  status = new_status;
  spill = none;
}

abbrev reporting : List FailoverPeer
reporting = record (peer_at 443 0) { report_word = 5 * 1024 + 100 } ∷ peer_at 444 0 ∷ []

abbrev route : FailoverRoute ℕ
route = record {
  identity = record { route = name; group = []; counters = 1 };
  failover = record failover { peers = reporting; spill = some running };
  destination = uds_set (record { sockets = []; affinity = none; load = 1 });
  destination_h2 = none;
}

-- 900 permille, up to the millisecond 4000.
abbrev published : ℕ → ℕ
published place = 4000 * 1024 + 900

abbrev word : ℕ
word = word_at (control_route whole published 7000000 route)

is_measured : route_load published route.destination none 7000000 ≡ some (900, 4000)
unfolding route_load destination_load get
is_measured = refl

is_spilled : spill_target reporting 30 8000000 word ≡ (some 0, word)
unfolding spill_target unpack pack cooling_down cooldown_until control assess targets eligible
    within least compared admit next_fraction moved elapsed_since control_route route_load
    destination_load get views view report rtt report_ttl_ms
is_spilled = refl

control_route-IsCurrent_example :
    IsCurrent policy reporting 900 4000 (report_ttl_ms route.failover) 8000000 30 0
control_route-IsCurrent_example =
    control_route-IsCurrent whole published route running 30 7000000 8000000 0 word 900 4000
      whole-IsBounding refl (omega arith) (omega arith) is_measured (omega arith) is_spilled

first_is_ready : cooling_down 1000 (peer_at 443 0) ≡ false
unfolding cooling_down cooldown_until
first_is_ready = refl

candidates-occurs_example :
    let c = candidates 1000 true 1 peers in (occurs 0 c.1 ≡ 1) × (c.0 ≡ length c.1)
unfolding cooling_down cooldown_until
candidates-occurs_example =
    candidates-occurs 1000 true 1 0 0 peers (peer_at 443 0) refl first_is_ready

both_cool :
    (j : ℕ) (q : FailoverPeer)
    → get_elem? (peer_at 443 5000 ∷ peer_at 444 3000 ∷ []) j ≡ some q
    → cooling_down 1000 q ≡ true
unfolding cooling_down cooldown_until
both_cool zero q h = ground arith
both_cool (suc zero) q h = ground arith
both_cool (suc (suc j)) q h = absurd (ground arith)

candidates-earliest_example :
    (i : ℕ) × (p : FailoverPeer) × (candidates 1000 true 1
        (peer_at 443 5000 ∷ peer_at 444 3000 ∷ [])
      ≡ (1, (i, p) ∷ []))
    × (get_elem? (peer_at 443 5000 ∷ peer_at 444 3000 ∷ []) i ≡ some p)
    × (cooldown_until p ≤ cooldown_until (peer_at 443 5000))
candidates-earliest_example =
    candidates-earliest 1000 1 0 (peer_at 443 5000 ∷ peer_at 444 3000 ∷ []) (peer_at 443 5000)
      both_cool refl

-- No peer answers, each of them at once.
abbrev silent : Surroundings
silent = record {
  started = 100;
  now = 100;
  is_prefixed = true;
  rounds = λ k. record { started = 100; failure = some PeerFailureKind.refused; failed_ns = 100 };
  finished = 120;
  is_read = false;
  copied = none;
}

forward_to_peers-IsOutcome_example :
    IsOutcome down 5000 silent (forward_to_peers true 200 failover down 5000 silent).0
forward_to_peers-IsOutcome_example = forward_to_peers-IsOutcome true 200 failover down 5000 silent

forward_to_peers-tried_example :
    places (forward_to_peers true 200 failover down 5000 silent).0.1.tried
    ≡ places (candidates_for down 100 3 failover.peers).0.1
unfolding candidates_for candidates advance fallback ready rotation cooling_down cooldown_until
    attempt_all budget share
forward_to_peers-tried_example =
    forward_to_peers-tried true 200 failover down 5000 silent refl refl refl refl (λ k. omega arith)
      (omega arith) refl
