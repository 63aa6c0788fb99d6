-- ===== src/Failover/Accepted.antt =====
-- src/failover.rs: what holds of a policy that is accepted.
use symphony.Prelude.{
  length, length-append, Bytes, ok, Option-cases, ℕ, ◌+◌, ◌≤◌, ◌<◌, ◌≡◌, refl, subst, ◌↔◌, inl, inr,
  true, false, Option, List, [], ◌∷◌, ◌++◌, arith,
}
use symphony.Float.{Float64, IsBounding}
use symphony.Net.{IpAddr, SocketAddr}
use symphony.Protection.{eq_ip_iff}
use symphony.Failover.{eq_addr}
use symphony.Failover.Policy.{
  FailoverSpec, FailoverPolicy, unwrap_or, has_addr, parse_peers, bounded_ms, parse_policy,
}

pub eq_addr_iff : (a b : SocketAddr) → (eq_addr a b ≡ true) ↔ (a ≡ b)
eq_addr_iff a b = ground (arith, eq_ip_iff a.ip b.ip)

eq_addr_comm : (a b : SocketAddr) → eq_addr a b ≡ eq_addr b a
eq_addr_comm a b = ground (arith, eq_addr_iff a b, eq_addr_iff b a)

has_addr-concat :
    (x : SocketAddr) (peers : List SocketAddr) (a : SocketAddr)
    → has_addr x peers ≡ false
    → eq_addr x a ≡ false
    → has_addr x (peers ++ a ∷ []) ≡ false
unfolding has_addr
has_addr-concat x [] a h k = ground (arith, eq_addr_comm x a)
has_addr-concat x (p ∷ peers) a h k = ground (arith, has_addr-concat x peers a)

-- No peer is listed twice, and each has a port.
abbrev pub ArePeers : List SocketAddr → Type 0
ArePeers [] = Unit {0}
ArePeers (p ∷ peers) = (has_addr p peers ≡ false) × (0 < p.port) × ArePeers peers

ArePeers-concat :
    (peers : List SocketAddr) (a : SocketAddr)
    → ArePeers peers
    → has_addr a peers ≡ false
    → 0 < a.port
    → ArePeers (peers ++ a ∷ [])
unfolding has_addr
ArePeers-concat [] a h k l = (refl, l, tt)
ArePeers-concat (p ∷ peers) a h k l = (
  has_addr-concat p peers a h.0 (ground arith),
  h.1,
  ArePeers-concat peers a h.2 (ground arith) l,
)

module _ (parse_ip : Bytes → Option IpAddr) where
  parse_peers-ArePeers :
      (specs : List (Bytes × ℕ)) (seen peers : List SocketAddr)
      → ArePeers seen
      → parse_peers parse_ip specs seen ≡ ok peers
      → ArePeers peers × (length peers ≡ length seen + length specs)
  unfolding parse_peers
  parse_peers-ArePeers [] seen peers h e = (subst ArePeers (ground arith) h, ground arith)
  parse_peers-ArePeers ((host, port) ∷ specs) seen peers h e = elim (Option-cases (parse_ip host)) [
    | inl no_ip ↦ absurd (ground arith)
    | inr (ip, is_ip) ↦
        let addr : SocketAddr = record { ip = ip; port = port } in
        let rest =
          parse_peers-ArePeers specs (seen ++ addr ∷ []) peers
            (ArePeers-concat seen addr h (ground arith) (ground arith)) (ground arith) in
        (rest.0, omega (arith, rest.1, length-append {0} seen (addr ∷ [])))
  ]

module _ {F : Type 0} (fl : Float64 F) where
  bounded_ms-eq-ok :
      (value : Option F) (default : F) (min_ms ms : ℕ)
      → IsBounding fl
      → min_ms < 4294967296
      → bounded_ms fl value default min_ms ≡ ok ms
      → (min_ms ≤ ms) × (ms ≤ 86400000)
  unfolding bounded_ms
  bounded_ms-eq-ok value default min_ms ms b l h =
      let v = unwrap_or value default in
      ground (arith, b.of_nat-le-to_u64 v min_ms, b.to_u64-le-of_nat v 86400000)

  pub record IsAccepted (parse_ip : Bytes → Option IpAddr) (spec : FailoverSpec F)
      (policy : FailoverPolicy F) : Type 0 where
    pub parsed : parse_peers parse_ip spec.peers [] ≡ ok policy.peers
    pub some_peer : 0 < length spec.peers
    pub drains : policy.drain ≡ spec.drain
    pub probed : bounded_ms fl spec.probe_interval_ms (fl.of_nat 1000) 10 ≡ ok policy.probe_interval
    pub cooled : bounded_ms fl spec.cooldown_min_ms (fl.of_nat 5000) 1 ≡ ok policy.cooldown_min
    pub capped :
        bounded_ms fl spec.cooldown_max_ms
          (fl.max_of (fl.of_nat 60000) (fl.of_nat policy.cooldown_min))
          1
        ≡ ok policy.cooldown_max
    pub ordered : policy.cooldown_min ≤ policy.cooldown_max

  pub parse_policy-IsAccepted :
      (parse_ip : Bytes → Option IpAddr) (spec : FailoverSpec F) (policy : FailoverPolicy F)
      → parse_policy fl parse_ip spec ≡ ok policy
      → IsAccepted parse_ip spec policy
  unfolding parse_policy
  parse_policy-IsAccepted parse_ip spec policy h = record {
    parsed = ground arith;
    some_peer = ground arith;
    drains = ground arith;
    probed = ground arith;
    cooled = ground arith;
    capped = ground arith;
    ordered = ground arith;
  }

  -- A policy that the probes and the cooldowns can run by.
  pub record IsPolicy (policy : FailoverPolicy F) : Type 0 where
    pub are_peers : ArePeers policy.peers
    pub some_peer : 0 < length policy.peers
    pub probed : (10 ≤ policy.probe_interval) × (policy.probe_interval ≤ 86400000)
    pub cooled : (1 ≤ policy.cooldown_min) × (policy.cooldown_min ≤ policy.cooldown_max)
    pub capped : policy.cooldown_max ≤ 86400000

  -- A policy that is accepted has one peer or more, none of them twice and each with a port, as many
  -- as are configured; its probe interval is from 10 ms to a day, and its cooldowns are from 1 ms to
  -- a day, the least no longer than the longest.
  pub parse_policy-IsPolicy :
      (parse_ip : Bytes → Option IpAddr) (spec : FailoverSpec F) (policy : FailoverPolicy F)
      → IsBounding fl
      → parse_policy fl parse_ip spec ≡ ok policy
      → IsPolicy policy × (length policy.peers ≡ length spec.peers)
  parse_policy-IsPolicy parse_ip spec policy b h =
      let a = parse_policy-IsAccepted parse_ip spec policy h in
      let peers = parse_peers-ArePeers parse_ip spec.peers [] policy.peers tt a.parsed in
      let probed = bounded_ms-eq-ok _ _ _ _ b (omega arith) a.probed in
      let cooled = bounded_ms-eq-ok _ _ _ _ b (omega arith) a.cooled in
      let capped = bounded_ms-eq-ok _ _ _ _ b (omega arith) a.capped in
      (
        record {
          are_peers = peers.0;
          some_peer = omega (arith, peers.1, a.some_peer);
          probed = probed;
          cooled = (cooled.0, a.ordered);
          capped = capped.1;
        },
        omega (arith, peers.1),
      )
