-- ===== src/Failover/Rebuild.antt =====
-- src/failover.rs: `Failover::new`, which continues what the route's failover in the previous table
-- knows of its peers.
use symphony.Prelude.{
  ◌==◌, if◌then◌else◌, ℕ, ◌*◌, Bool, true, false, ◌&&◌, Option, none, some, List, [], ◌∷◌, map,
}
use symphony.Float.{Float64}
use symphony.Net.{SocketAddr}
use symphony.Balancer.{SlotHealth}
use symphony.Failover.{FailoverPeer, new_peer, eq_addr}
use symphony.Failover.Policy.{SpillPolicy, FailoverPolicy}
use symphony.Failover.Spill.{new_status, SpillState, Spill, Failover}

unfoldable pub find_peer : SocketAddr → List FailoverPeer → Option FailoverPeer
find_peer addr [] = none
find_peer addr (peer ∷ peers) = if eq_addr peer.addr addr then some peer else find_peer addr peers

unfoldable pub continue_peer : List FailoverPeer → SocketAddr → FailoverPeer
continue_peer previous addr = elim (find_peer addr previous) [
  | none ↦ new_peer addr
  | some peer ↦ peer
]

unfoldable pub same_addrs : List FailoverPeer → List SocketAddr → Bool
same_addrs [] [] = true
same_addrs [] (addr ∷ addrs) = false
same_addrs (peer ∷ peers) [] = false
same_addrs (peer ∷ peers) (addr ∷ addrs) = eq_addr peer.addr addr && same_addrs peers addrs

abbrev pub eq_limit : Option ℕ → Option ℕ → Bool
eq_limit none none = true
eq_limit none (some b) = false
eq_limit (some a) none = false
eq_limit (some a) (some b) = a == b

module _ {F : Type 0} (fl : Float64 F) where
  unfoldable pub eq_spill_policy : SpillPolicy F → SpillPolicy F → Bool
  eq_spill_policy a b =
      a.high_water == b.high_water
      && a.margin == b.margin
      && fl.is_eq a.step b.step
      && a.max_fraction == b.max_fraction
      && eq_limit a.max_peer_rtt b.max_peer_rtt

  abbrev pub new_spill_state : SpillState F
  new_spill_state = record {
    admission_word = 0;
    controller = record { fraction = fl.of_nat 0; last_ns = 0 };
  }

  -- Continued only under the same policy, peers and source of the load.
  unfoldable pub continue_spill :
      List FailoverPeer → Option (Spill F) → List SocketAddr → Bool → SpillPolicy F → Spill F
  continue_spill previous_peers none addrs same_load_source policy = record {
    policy = policy;
    state = new_spill_state;
  }
  continue_spill previous_peers (some spill) addrs same_load_source policy =
      if same_load_source && eq_spill_policy spill.policy policy && same_addrs previous_peers addrs
      then record { policy = policy; state = spill.state }
      else record { policy = policy; state = new_spill_state }

  abbrev pub peers_of : Option (Failover F) → List FailoverPeer
  peers_of none = []
  peers_of (some f) = f.peers

  abbrev pub spill_of : Option (Failover F) → Option (Spill F)
  spill_of none = none
  spill_of (some f) = f.spill

  -- `Failover::new`
  unfoldable pub new_failover :
      FailoverPolicy F → Option (Failover F) → Option SlotHealth → Bool → Failover F
  new_failover policy previous tcp_health same_load_source = record {
    drain = policy.drain;
    probe_interval_ns = policy.probe_interval * 1000000;
    cooldown_min_ns = policy.cooldown_min * 1000000;
    cooldown_max_ns = policy.cooldown_max * 1000000;
    peers = map (continue_peer (peers_of previous)) policy.peers;
    cursor = 0;
    tcp_health = tcp_health;
    status = elim previous [ none ↦ new_status | some f ↦ f.status ];
    spill = elim policy.spill [
      | none ↦ none
      | some spill_policy ↦ some (
          continue_spill (peers_of previous) (spill_of previous) policy.peers same_load_source
            spill_policy)
    ];
  }
