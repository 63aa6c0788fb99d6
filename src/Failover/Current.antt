-- ===== src/Failover/Current.antt =====
-- src/failover.rs: a connection is spilled by what is current of its route and of its peer.
use symphony.Prelude.{
  length, get_elem?, some-inj, Option-cases, ℕ, zero, suc, ◌+◌, ◌*◌, ◌/◌, ◌%◌, ◌≤◌, ◌<◌, ◌≡◌, refl,
  sym, ap, ◌∙◌, inl, inr, false, none, some, List, [], ◌∷◌, arith,
}
use symphony.Float.{Float64, IsBounding}
use symphony.Destination.{route_load}
use symphony.Router.{FailoverRoute}
use symphony.Failover.{FailoverPeer, report, cooling_down}
use symphony.Failover.Policy.{SpillPolicy}
use symphony.Failover.Spill.{Spill, report_ttl_ms, spill_target, control, view}
use symphony.Failover.Spilling.{spill_target-control}
use symphony.Failover.Poll.{views, control_route}

length-views :
    (ttl_ms now : ℕ) (peers : List FailoverPeer) → length (views ttl_ms now peers) ≡ length peers
unfolding views
length-views ttl_ms now [] = refl
length-views ttl_ms now (p ∷ peers) = omega (arith, length-views ttl_ms now peers)

get_elem?-views :
    (ttl_ms now i : ℕ) (peers : List FailoverPeer) (p : FailoverPeer)
    → get_elem? peers i ≡ some p
    → get_elem? (views ttl_ms now peers) i ≡ some (view ttl_ms now p)
unfolding views
get_elem?-views ttl_ms now i [] p h = absurd (ground arith)
get_elem?-views ttl_ms now zero (q ∷ peers) p h = ap (λ x. some (view ttl_ms now x)) (some-inj h)
get_elem?-views ttl_ms now (suc i) (q ∷ peers) p h = get_elem?-views ttl_ms now i peers p h

-- What stands behind a peer's load.
view-report :
    (ttl_ms now load : ℕ) (p : FailoverPeer)
    → (view ttl_ms now p).load ≡ some load
    → (at_ms : ℕ) × (report p ≡ some (load, at_ms))
      × ((view ttl_ms now p).report_until_ms ≡ at_ms + ttl_ms)
unfolding view
view-report ttl_ms now load p h = elim (Option-cases (report p)) [
  | inl e ↦ absurd (ground arith)
  | inr ((l, at_ms), e) ↦ (at_ms, ground arith, rw (e, view) refl)
]

-- The word that a connection reads of a route.
abbrev pub word_at : {F : Type 0} → FailoverRoute F → ℕ
word_at route = elim route.failover.spill [ none ↦ 0 | some spill ↦ spill.state.admission_word ]

-- What a connection that is spilled to the peer at a place can count on at that time.
pub record IsCurrent {F : Type 0} (policy : SpillPolicy F) (peers : List FailoverPeer)
    (load load_until ttl_ms later client_hash place : ℕ) : Type 0 where
  pub peer : FailoverPeer
  pub at_place : get_elem? peers place ≡ some peer
  pub ready : cooling_down later peer ≡ false
  pub hashed : client_hash % 1000 < policy.max_fraction
  pub peer_load : ℕ
  pub at_ms : ℕ
  pub reported : report peer ≡ some (peer_load, at_ms)
  pub fresh : later / 1000000 < at_ms + ttl_ms
  pub current : later / 1000000 < load_until
  pub less_busy : 2 * peer_load + policy.margin ≤ 2 * load

module _ {F : Type 0} (fl : Float64 F) (published : ℕ → ℕ) where
  -- After the pass of the controllers, a connection is spilled only to a peer that is not cooling down
  -- then, whose last report is not out of date then, nor is the load of the route itself, and the load
  -- reported is below it by half the margin or more. At most the configured fraction of the hashes is
  -- spilled. There are 65536 peers at most, and the route's load is current up to a time below 2 ^ 38
  -- milliseconds.
  pub control_route-IsCurrent :
      (route : FailoverRoute F) (spill : Spill F)
      (client_hash now later place word load load_until : ℕ)
      → IsBounding fl
      → route.failover.spill ≡ some spill
      → spill.policy.max_fraction ≤ 1000
      → length route.failover.peers ≤ 65536
      → route_load published route.destination route.destination_h2 now ≡ some (load, load_until)
      → load_until < 274877906944
      → spill_target route.failover.peers client_hash later
          (word_at (control_route fl published now route))
        ≡ (some place, word)
      → IsCurrent spill.policy route.failover.peers load load_until
          (report_ttl_ms route.failover)
          later
          client_hash
          place
  unfolding control_route
  control_route-IsCurrent route spill client_hash now later place word load load_until b e small few
        measured fits h =
      let ttl_ms = report_ttl_ms route.failover in
      let peers = route.failover.peers in
      let passed : spill_target peers client_hash later
            (control fl spill (some (load, load_until)) (views ttl_ms now peers)
              now).1.state.admission_word
          ≡ (some place, word) =
        rw (e, measured, control_route) at h in
      let (until_ms, j, before, hashed, peer, here, ready) =
        spill_target-control fl spill load load_until (views ttl_ms now peers) peers client_hash now
          later place word b small (omega (arith, length-views ttl_ms now peers)) fits passed in
      let same : j.target.view ≡ view ttl_ms now peer =
        some-inj (sym j.target.at_place ∙ get_elem?-views ttl_ms now place peers peer here) in
      let (at_ms, reported, until) =
        view-report ttl_ms now j.peer_load peer (ap (λ x. x.load) (sym same) ∙ j.target.reported) in
      let end = ap (λ x. x.report_until_ms) same in
      let own : j.load ≡ load = ground (arith, j.measured) in
      let own_until : j.load_until ≡ load_until = ground (arith, j.measured) in
      record {
        peer = peer;
        at_place = here;
        ready = ready;
        hashed = hashed;
        peer_load = j.peer_load;
        at_ms = at_ms;
        reported = reported;
        fresh = omega (arith, before, j.until, j.target.until, end, until);
        current = omega (arith, before, j.until, own_until);
        less_busy = omega (arith, j.less_busy, own);
      }
