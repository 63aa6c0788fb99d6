-- ===== src/Balancer/Tests.antt =====
-- src/balancer.rs: a balancer with two slots, one of them refusing, and the theorems applied to it.
use symphony.Prelude.{
  get_elem?, get_or, ℕ, ◌≡◌, refl, ◌⊎◌, Bool, true, false, none, some, [], ◌∷◌, arith,
}
use symphony.Net.{IpAddr, v4}
use symphony.ThreadCpu.{new_thread_cpu}
use symphony.Balancer.{
  UdsSlot, UdsBalancer, AffinityMap, mark_refused, new_health, refusing, score, precedes, min_slot,
  untried, next_untried, best_score_idx, find, put, bind_affinity, honoured, sticky, pick,
  fresh_entries, evict_affinity, at_path, increment, decrement,
}
use symphony.Balancer.Choice.{IsAhead, next_untried-IsAhead}
use symphony.Balancer.Sticky.{pick-refusing}
use symphony.Balancer.Counts.{
  World, opens, drops, after, Reach, start, next, count_path, Reach-active_of,
}

program : Unit {0}
unfolding mark_refused new_health refusing score precedes min_slot untried next_untried
    best_score_idx find put bind_affinity honoured sticky pick fresh_entries evict_affinity at_path
    increment decrement after
program = tt

-- It is idle, but it refused at nanosecond 7.
abbrev first : UdsSlot
first = record {
  path = b'a' ∷ [];
  active = 0;
  health = some (record { refused_at_ns = 7 });
  cpu = none;
}

abbrev second : UdsSlot
second = record {
  path = b'b' ∷ [];
  active = 0;
  health = some (record { refused_at_ns = 0 });
  cpu = some (new_thread_cpu (b'b' ∷ []) 7 9);
}

abbrev host : IpAddr
host = v4 (10 ∷ 0 ∷ 0 ∷ 7 ∷ [])

abbrev sticky_map : AffinityMap
sticky_map = record {
  entries = (host, record { socket_idx = 0; last_seen_ns = 90 }) ∷ [];
  ttl_ns = 100;
}

abbrev balancer : UdsBalancer
balancer = record { sockets = first ∷ second ∷ []; affinity = some sticky_map; load = 0 }

-- The client is bound to the slot that refuses, and so the other is picked.
second_is_picked : (pick balancer (some host) 100).0 ≡ some 1
unfolding program
second_is_picked = refl

first_is_tried_last : next_untried balancer (false ∷ true ∷ []) ≡ some 0
unfolding program
first_is_tried_last = refl

next_untried-IsAhead_example :
    (s : UdsSlot) × (get_elem? balancer.sockets 1 ≡ some s)
    × (get_or {A = Bool} [] 1 false ≡ false)
    × IsAhead s first
unfolding program
next_untried-IsAhead_example = next_untried-IsAhead balancer [] 1 0 first refl refl refl

pick-refusing_example :
    (i : ℕ) × (s : UdsSlot) × ((pick balancer (some host) 100).0 ≡ some i)
    × (get_elem? balancer.sockets i ≡ some s)
    × ((refusing s ≡ false) ⊎ (refusing second ≡ true))
pick-refusing_example = pick-refusing balancer (some host) 100 1 second refl

-- Two guards of one slot are made, and the first of them is dropped.
abbrev opened : World
opened =
    after
      (after (after (record { balancer = balancer; guards = [] }) (opens (b'b' ∷ [])))
        (opens (b'b' ∷ [])))
      (drops 1)

opened-Reach : Reach opened
unfolding program
opened-Reach =
    next (drops 1)
      (next (opens (b'b' ∷ []))
        (next (opens (b'b' ∷ [])) (start balancer (refl, (refl, tt))) (omega arith)) (omega arith))
      (omega arith)

Reach-active_of_example : 1 ≡ count_path (b'b' ∷ []) opened.guards
unfolding program
Reach-active_of_example = Reach-active_of (b'b' ∷ []) 1 opened-Reach refl
