-- ===== src/Router/Planned.antt =====
-- src/router.rs, src/failover.rs: the failover of a route beside the one that its spec asks for.
use symphony.Prelude.{
  some-inj, Bool-cases, Option-cases, ℕ, ◌*◌, ◌≡◌, refl, sym, ap, ◌∙◌, inl, inr, Bool, Option, none,
  some, List, [], ◌∷◌, map, arith,
}
use symphony.Float.{Float64}
use symphony.Net.{SocketAddr}
use symphony.Balancer.{SlotHealth}
use symphony.Failover.{FailoverPeer, eq_addr, new_peer}
use symphony.Failover.Policy.{SpillPolicy, FailoverPolicy}
use symphony.Failover.Accepted.{eq_addr_iff}
use symphony.Failover.Spill.{Spill, Failover}
use symphony.Failover.Rebuild.{
  find_peer, continue_peer, continue_spill, peers_of, spill_of, new_failover,
}

-- What is asked of a failover: its peers in their order, its times in nanoseconds, and its spill-over.
pub record Plan (F : Type 0) : Type 0 where
  pub peers : List SocketAddr
  pub drain : Bool
  pub probe_interval_ns : ℕ
  pub cooldown_min_ns : ℕ
  pub cooldown_max_ns : ℕ
  pub spill : Option (SpillPolicy F)

abbrev pub addrs_of : List FailoverPeer → List SocketAddr
addrs_of [] = []
addrs_of (peer ∷ peers) = peer.addr ∷ addrs_of peers

module _ {F : Type 0} where
  abbrev pub policy_of : Option (Spill F) → Option (SpillPolicy F)
  policy_of none = none
  policy_of (some spill) = some spill.policy

  abbrev pub failover_plan : Option (Failover F) → Option (Plan F)
  failover_plan none = none
  failover_plan (some f) = some (record {
    peers = addrs_of f.peers;
    drain = f.drain;
    probe_interval_ns = f.probe_interval_ns;
    cooldown_min_ns = f.cooldown_min_ns;
    cooldown_max_ns = f.cooldown_max_ns;
    spill = policy_of f.spill;
  })

  abbrev pub plan : FailoverPolicy F → Plan F
  plan policy = record {
    peers = policy.peers;
    drain = policy.drain;
    probe_interval_ns = policy.probe_interval * 1000000;
    cooldown_min_ns = policy.cooldown_min * 1000000;
    cooldown_max_ns = policy.cooldown_max * 1000000;
    spill = policy.spill;
  }

  abbrev pub policy_plan : Option (FailoverPolicy F) → Option (Plan F)
  policy_plan none = none
  policy_plan (some policy) = some (plan policy)

find_peer-addr :
    (addr : SocketAddr) (peers : List FailoverPeer) (peer : FailoverPeer)
    → find_peer addr peers ≡ some peer
    → peer.addr ≡ addr
unfolding find_peer
find_peer-addr addr [] peer h = absurd (ground arith)
find_peer-addr addr (one ∷ peers) peer h = elim (Bool-cases (eq_addr one.addr addr)) [
  | inl e ↦
      let same : one ≡ peer = some-inj (rw e at h) in
      ap (λ x. x.addr) (sym same) ∙ (eq_addr_iff one.addr addr).0 e
  | inr e ↦ find_peer-addr addr peers peer (rw e at h)
]

continue_peer-addr :
    (previous : List FailoverPeer) (addr : SocketAddr) → (continue_peer previous addr).addr ≡ addr
unfolding continue_peer new_peer
continue_peer-addr previous addr = elim (Option-cases (find_peer addr previous)) [
  | inl e ↦ rw (e, continue_peer) refl
  | inr (peer, e) ↦ rw (e, continue_peer) (find_peer-addr addr previous peer e)
]

addrs_of-map :
    (previous : List FailoverPeer) (addrs : List SocketAddr)
    → addrs_of (map (continue_peer previous) addrs) ≡ addrs
addrs_of-map previous [] = refl
addrs_of-map previous (addr ∷ addrs) =
    rw (continue_peer-addr previous addr, addrs_of-map previous addrs) refl

module _ {F : Type 0} (fl : Float64 F) where
  continue_spill-policy :
      (previous : List FailoverPeer) (spill : Option (Spill F)) (addrs : List SocketAddr)
      (same_load_source : Bool) (policy : SpillPolicy F)
      → (continue_spill fl previous spill addrs same_load_source policy).policy ≡ policy
  unfolding continue_spill
  continue_spill-policy previous none addrs same_load_source policy = refl
  continue_spill-policy previous (some spill) addrs same_load_source policy = ground arith

  -- A failover that is built anew does what its policy asks for, whatever it continues.
  pub new_failover-plan :
      (policy : FailoverPolicy F) (previous : Option (Failover F)) (health : Option SlotHealth)
      (same_load_source : Bool)
      → failover_plan (some (new_failover fl policy previous health same_load_source))
        ≡ some (plan policy)
  unfolding new_failover
  new_failover-plan policy previous health same_load_source = elim (Option-cases policy.spill) [
    | inl e ↦ rw (addrs_of-map (peers_of fl previous) policy.peers, e) refl
    | inr (q, e) ↦
        rw
          (
            addrs_of-map (peers_of fl previous) policy.peers,
            e,
            continue_spill-policy (peers_of fl previous) (spill_of fl previous) policy.peers
                same_load_source q,
          )
          refl
  ]
