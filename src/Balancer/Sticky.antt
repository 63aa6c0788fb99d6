-- ===== src/Balancer/Sticky.antt =====
-- src/balancer.rs: the choice for a client, with affinity.
use symphony.Prelude.{
  get_elem?, ltb, if◌then◌else◌, Bool-cases, Option-cases, ℕ, ◌-◌, ◌≡◌, refl, sym, ap, ◌∙◌, subst,
  ◌⊎◌, inl, inr, true, false, Option, none, some, List, [], ◌∷◌, arith,
}
use symphony.Net.{IpAddr}
use symphony.Protection.{eq_ip, eq_ip_iff}
use symphony.Balancer.{
  UdsSlot, UdsBalancer, AffinityMap, AffinityEntry, refusing, precedes, best_score_idx, find,
  honoured, sticky, pick, fresh_entries, evict_affinity,
}
use symphony.Balancer.Choice.{best_score_idx-least}

-- What the affinity of a client says: the slot of an entry that is honoured, if there is one.
abbrev pub bound : UdsBalancer → Option IpAddr → ℕ → Option ℕ
bound b none now = none
bound b (some ip) now = elim b.affinity [ none ↦ none | some aff ↦ sticky b aff ip now ]

List-cases :
    (l : List UdsSlot) → (l ≡ []) ⊎ ((slot : UdsSlot) × (slots : List UdsSlot) × (l ≡ slot ∷ slots))
List-cases [] = inl refl
List-cases (slot ∷ slots) = inr (slot, slots, refl)

abbrev pub chosen : Option ℕ → ℕ → ℕ
chosen (some idx) best = idx
chosen none best = best

-- The slot that is picked is the bound one, or the one of the best score.
pick-bound :
    (b : UdsBalancer) (ip : Option IpAddr) (now : ℕ) (slot : UdsSlot) (slots : List UdsSlot)
    → b.sockets ≡ slot ∷ slots
    → (pick b ip now).0 ≡ some (chosen (bound b ip now) (best_score_idx b))
unfolding pick
pick-bound b none now slot slots h = ground arith
pick-bound b (some ip) now slot slots h = ground arith

honoured-slot :
    (b : UdsBalancer) (ttl_ns now : ℕ) (entry : AffinityEntry)
    → honoured b ttl_ns now entry ≡ true
    → (s : UdsSlot) × (get_elem? b.sockets entry.socket_idx ≡ some s) × (refusing s ≡ false)
unfolding honoured
honoured-slot b ttl_ns now entry h = elim (Option-cases (get_elem? b.sockets entry.socket_idx)) [
  | inl e ↦ absurd (ground arith)
  | inr (s, e) ↦ (s, e, ground arith)
]

sticky-slot :
    (b : UdsBalancer) (aff : AffinityMap) (ip : IpAddr) (now i : ℕ)
    → sticky b aff ip now ≡ some i
    → (s : UdsSlot) × (get_elem? b.sockets i ≡ some s) × (refusing s ≡ false)
unfolding sticky
sticky-slot b aff ip now i h = elim (Option-cases (find ip aff.entries)) [
  | inl e ↦ absurd (ground arith)
  | inr (entry, e) ↦ elim (Bool-cases (honoured b aff.ttl_ns now entry)) [
    | inl k ↦
        let same : entry.socket_idx ≡ i = ground arith in
        rw (← same) (honoured-slot b aff.ttl_ns now entry k)
    | inr k ↦ absurd (ground arith)
  ]
]

bound-slot :
    (b : UdsBalancer) (ip : Option IpAddr) (now i : ℕ)
    → bound b ip now ≡ some i
    → (s : UdsSlot) × (get_elem? b.sockets i ≡ some s) × (refusing s ≡ false)
bound-slot b none now i h = absurd (ground arith)
bound-slot b (some ip) now i h = elim (Option-cases b.affinity) [
  | inl e ↦ absurd (ground arith)
  | inr (aff, e) ↦ sticky-slot b aff ip now i (ground arith)
]

precedes-refusing :
    (s t : UdsSlot) → precedes s t ≡ true → (refusing s ≡ false) ⊎ (refusing t ≡ true)
unfolding precedes
precedes-refusing s t h = elim (Bool-cases (refusing s)) [
  | inl e ↦ inr (ground arith)
  | inr e ↦ inl e
]

-- For any client, at any time: as long as there is a slot, one is picked, and it is refusing only
-- if every slot is.
pub pick-refusing :
    (b : UdsBalancer) (ip : Option IpAddr) (now j : ℕ) (t : UdsSlot)
    → get_elem? b.sockets j ≡ some t
    → (i : ℕ) × (s : UdsSlot) × ((pick b ip now).0 ≡ some i)
      × (get_elem? b.sockets i ≡ some s)
      × ((refusing s ≡ false) ⊎ (refusing t ≡ true))
pick-refusing b ip now j t found =
    let (slot, slots, h) = some_slots b.sockets found in
    let picked = pick-bound b ip now slot slots h in
    elim (Option-cases (bound b ip now)) [
      | inl e ↦
          let (s, at, first) = best_score_idx-least b j t found in
          (best_score_idx b, s, (rw e at picked), at, precedes-refusing s t first)
      | inr (i, e) ↦
          let (s, at, accepts) = bound-slot b ip now i e in
          (i, s, (rw e at picked), at, inl accepts)
    ]
  where
    some_slots :
        (l : List UdsSlot)
        → get_elem? l j ≡ some t
        → (slot : UdsSlot) × (slots : List UdsSlot) × (l ≡ slot ∷ slots)
    some_slots [] k = absurd (ground arith)
    some_slots (slot ∷ slots) k = (slot, slots, refl)

-- A map has one entry for each address.
abbrev pub IsMap : List (IpAddr × AffinityEntry) → Type 0
IsMap [] = Unit {0}
IsMap ((ip, entry) ∷ entries) = (find ip entries ≡ none) × IsMap entries

find-fresh_none :
    (ip : IpAddr) (ttl_ns now : ℕ) (entries : List (IpAddr × AffinityEntry))
    → find ip entries ≡ none
    → find ip (fresh_entries ttl_ns now entries) ≡ none
unfolding find fresh_entries
find-fresh_none ip ttl_ns now [] h = refl
find-fresh_none ip ttl_ns now ((k, entry) ∷ entries) h =
    ground (arith, find-fresh_none ip ttl_ns now entries)

-- Eviction keeps the entry of an address just when it is within its time.
find-fresh_entries :
    (ip : IpAddr) (ttl_ns now : ℕ) (entries : List (IpAddr × AffinityEntry))
    → IsMap entries
    → find ip (fresh_entries ttl_ns now entries) ≡ elim (find ip entries) [
      | none ↦ none
      | some entry ↦ if ltb (now - entry.last_seen_ns) ttl_ns then some entry else none
    ]
unfolding find fresh_entries
find-fresh_entries ip ttl_ns now [] u = refl
find-fresh_entries ip ttl_ns now ((k, entry) ∷ entries) u = elim (Bool-cases (eq_ip k ip)) [
  | inl e ↦
      let same : k ≡ ip = (eq_ip_iff k ip).0 e in
      let gone =
        find-fresh_none ip ttl_ns now entries (subst (λ a. find a entries ≡ none) same u.0) in
      ground arith
  | inr e ↦ ground (arith, find-fresh_entries ip ttl_ns now entries)
]

sticky-evict :
    (b : UdsBalancer) (aff : AffinityMap) (ip : IpAddr) (now : ℕ)
    → IsMap aff.entries
    → sticky b (record aff { entries = fresh_entries aff.ttl_ns now aff.entries }) ip now
      ≡ sticky b aff ip now
unfolding sticky honoured
sticky-evict b aff ip now u = ground (arith, find-fresh_entries ip aff.ttl_ns now aff.entries u)

pick-empty :
    (b : UdsBalancer) (ip : Option IpAddr) (now : ℕ) → b.sockets ≡ [] → (pick b ip now).0 ≡ none
unfolding pick
pick-empty b ip now h = ground arith

bound-evict :
    (b : UdsBalancer) (aff : AffinityMap) (ip : Option IpAddr) (now : ℕ)
    → b.affinity ≡ some aff
    → IsMap aff.entries
    → bound (evict_affinity b now) ip now ≡ bound b ip now
unfolding evict_affinity
bound-evict b aff none now h u = refl
bound-evict b aff (some ip) now h u = rw h (unfold sticky honoured in sticky-evict b aff ip now u)

evict_affinity-sockets : (b : UdsBalancer) (now : ℕ) → (evict_affinity b now).sockets ≡ b.sockets
unfolding evict_affinity
evict_affinity-sockets b now = ground arith

best_score_idx-sockets :
    (b c : UdsBalancer) → b.sockets ≡ c.sockets → best_score_idx b ≡ best_score_idx c
unfolding best_score_idx
best_score_idx-sockets b c h = rw (h, best_score_idx) refl

-- Evicting the affinity entries that are out of date changes no pick at that time, where the map has
-- one entry for each address.
pub pick-evict_affinity :
    (b : UdsBalancer) (aff : AffinityMap) (ip : Option IpAddr) (now : ℕ)
    → b.affinity ≡ some aff
    → IsMap aff.entries
    → (pick (evict_affinity b now) ip now).0 ≡ (pick b ip now).0
pick-evict_affinity b aff ip now h u =
    let b' = evict_affinity b now in
    let kept = evict_affinity-sockets b now in
    elim (List-cases b.sockets) [
      | inl e ↦ pick-empty b' ip now (kept ∙ e) ∙ sym (pick-empty b ip now e)
      | inr (slot, slots, e) ↦
          pick-bound b' ip now slot slots (kept ∙ e)
          ∙ ap (λ o. some (chosen o (best_score_idx b'))) (bound-evict b aff ip now h u)
          ∙ ap (λ n. some (chosen (bound b ip now) n)) (best_score_idx-sockets b' b kept)
          ∙ sym (pick-bound b ip now slot slots e)
    ]
