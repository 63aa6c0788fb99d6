-- ===== src/Balancer/Rebuild.antt =====
-- src/balancer.rs: a balancer made anew, and what it takes over from the one that it replaces. An
-- `Arc` that both hold is the same value in both at that moment; a new load has a new place.
use symphony.Prelude.{
  Bytes, eq_bytes, ◌==◌, if◌then◌else◌, ℕ, ◌*◌, ◌/◌, ◌%◌, Bool, true, false, ◌&&◌, ◌||◌, Option,
  none, some, List, [], ◌∷◌, map,
}
use symphony.ThreadCpu.{ThreadCpu, new_thread_cpu, same_configured}
use symphony.Balancer.{SlotHealth, new_health, UdsSlot, UdsBalancer}

pub record UdsSlotSpec : Type 0 where
  pub path : Bytes
  pub pid : Option ℕ
  pub tid : Option ℕ

unfoldable pub spec_cpu : Bytes → Option ℕ → Option ℕ → Option ThreadCpu
spec_cpu path none tid = none
spec_cpu path (some pid) none = none
spec_cpu path (some pid) (some tid) = some (new_thread_cpu path pid tid)

unfoldable pub new_slot : UdsSlotSpec → UdsSlot
unfolding spec_cpu
new_slot spec = record {
  path = spec.path;
  active = 0;
  health = none;
  cpu = spec_cpu spec.path spec.pid spec.tid;
}

-- `UdsBalancer::new`
unfoldable pub new_balancer : List UdsSlotSpec → Bool → ℕ → ℕ → UdsBalancer
new_balancer slots ip_affinity affinity_ttl_ms load = record {
  sockets = map new_slot slots;
  affinity =
      if ip_affinity
      then some (record { entries = []; ttl_ns = affinity_ttl_ms * 1000000 % 18446744073709551616 })
      else none;
  load = load;
}

-- The first slot of the balancer that samples the same thread.
unfoldable pub same_thread : ThreadCpu → List UdsSlot → Option ThreadCpu
same_thread cpu [] = none
same_thread cpu (slot ∷ slots) =
    let rest = same_thread cpu slots in
    elim slot.cpu [ none ↦ rest | some p ↦ if same_configured p cpu then some p else rest ]

unfoldable pub inherit_cpu : List UdsSlot → Option ThreadCpu → Option ThreadCpu
inherit_cpu previous none = none
inherit_cpu previous (some cpu) = elim (same_thread cpu previous) [
  | none ↦ some cpu
  | some inherited ↦ some inherited
]

abbrev pub SlotId : Type 0
SlotId = Bytes × ℕ × ℕ

unfoldable pub slot_id : UdsSlot → SlotId
slot_id slot = elim slot.cpu [ none ↦ (slot.path, 0, 0) | some c ↦ (c.path, c.pid, c.tid) ]

abbrev pub eq_id : SlotId → SlotId → Bool
eq_id a b = eq_bytes a.0 b.0 && a.1 == b.1 && a.2 == b.2

-- Without the first that equals `id`; `none` if there is no such.
unfoldable pub take_out : SlotId → List SlotId → Option (List SlotId)
take_out id [] = none
take_out id (other ∷ ids) =
    let rest = take_out id ids in
    if eq_id other id then some ids else elim rest [ none ↦ none | some left ↦ some (other ∷ left) ]

-- The sorted ids of both are equal: the same ids, each as often.
unfoldable pub same_ids : List SlotId → List SlotId → Bool
unfolding take_out
same_ids [] [] = true
same_ids [] (b ∷ bs) = false
same_ids (a ∷ as_) bs = elim (take_out a bs) [ none ↦ false | some left ↦ same_ids as_ left ]

unfoldable pub with_cpu_from : UdsBalancer → Option UdsBalancer → UdsBalancer
with_cpu_from b none = b
with_cpu_from b (some previous) =
    let sockets =
      map (λ (s : UdsSlot). record s { cpu = inherit_cpu previous.sockets s.cpu }) b.sockets in
    record b {
      sockets = sockets;
      load =
          if same_ids (map slot_id sockets) (map slot_id previous.sockets)
          then previous.load
          else b.load;
    }

-- The first slot with the path, if it tracks its health.
unfoldable pub health_at : Bytes → List UdsSlot → Option SlotHealth
health_at path [] = none
health_at path (slot ∷ slots) =
    let rest = health_at path slots in if eq_bytes slot.path path then slot.health else rest

unfoldable pub inherited_health : List UdsSlot → Bool → ℕ → Bytes → SlotHealth
inherited_health previous refuse_new now path = elim (health_at path previous) [
  | none ↦ new_health now refuse_new
  | some health ↦ health
]

abbrev pub sockets_of : Option UdsBalancer → List UdsSlot
sockets_of none = []
sockets_of (some b) = b.sockets

unfoldable pub with_health : UdsBalancer → Option UdsBalancer → Bool → ℕ → UdsBalancer
with_health b previous refuse_new now = record b {
  sockets =
      map
        (λ (s : UdsSlot). record s {
          health = some (inherited_health (sockets_of previous) refuse_new now s.path);
        })
        b.sockets;
}

unfoldable pub slot_spec : UdsSlot → UdsSlotSpec
slot_spec s = record {
  path = s.path;
  pid = elim s.cpu [ none ↦ none | some c ↦ some c.pid ];
  tid = elim s.cpu [ none ↦ none | some c ↦ some c.tid ];
}

unfoldable pub retracked : UdsBalancer → Bool → ℕ → ℕ → UdsBalancer
retracked b track load now =
    let ttl_ms : ℕ = elim b.affinity [ none ↦ 0 | some a ↦ a.ttl_ns / 1000000 ] in
    let ip_affinity : Bool = elim b.affinity [ none ↦ false | some a ↦ true ] in
    let fresh =
      with_cpu_from (new_balancer (map slot_spec b.sockets) ip_affinity ttl_ms load) (some b) in
    if track then with_health fresh (some b) false now else fresh

-- Whether `tracked_slots` gives any.
unfoldable pub tracks_health : List UdsSlot → Bool
tracks_health [] = false
tracks_health (slot ∷ slots) =
    elim slot.health [ none ↦ false | some h ↦ true ] || tracks_health slots

unfoldable pub has_monitored_slots : List UdsSlot → Bool
has_monitored_slots [] = false
has_monitored_slots (slot ∷ slots) =
    elim slot.cpu [ none ↦ false | some c ↦ true ] || has_monitored_slots slots
