-- ===== src/Balancer.antt =====
-- src/balancer.rs: the choice among the sockets of an upstream. Each operation runs alone, and
-- paths are their bytes.
use symphony.Prelude.{
  get_elem?, get_or, Bytes, eq_bytes, ltb, leb, ◌==◌, if◌then◌else◌, ℕ, suc, ◌+◌, ◌-◌, ◌*◌, ◌%◌,
  max, Bool, true, false, not, ◌&&◌, ◌||◌, Option, none, some, List, [], ◌∷◌,
}
pub mod Choice
pub mod Sticky
pub mod Counts
pub mod Rebuild
mod Tests
use symphony.Net.{IpAddr}
use symphony.Protection.{eq_ip}
use symphony.ThreadCpu.{ThreadCpu}

-- Monotonic ns of the latest refusal; 0 = accepting.
pub record SlotHealth : Type 0 where
  pub refused_at_ns : ℕ

unfoldable pub mark_refused : ℕ → SlotHealth → SlotHealth
mark_refused now health = record { refused_at_ns = max now 1 }

-- `SlotHealth::new`
unfoldable pub new_health : ℕ → Bool → SlotHealth
unfolding mark_refused
new_health now refusing =
    let health : SlotHealth = record { refused_at_ns = 0 } in
    if refusing then mark_refused now health else health

-- `compare_exchange`
unfoldable pub clear_if_unchanged : ℕ → SlotHealth → Bool × SlotHealth
clear_if_unchanged observed health =
    if health.refused_at_ns == observed
    then (true, record { refused_at_ns = 0 })
    else (false, health)

pub record UdsSlot : Type 0 where
  pub path : Bytes
  pub active : ℕ
  pub health : Option SlotHealth
  pub cpu : Option ThreadCpu

pub record AffinityEntry : Type 0 where
  pub socket_idx : ℕ
  pub last_seen_ns : ℕ

pub record AffinityMap : Type 0 where
  pub entries : List (IpAddr × AffinityEntry)
  pub ttl_ns : ℕ

-- `load` is the place of the `LoadEwma` that balancers share.
pub record UdsBalancer : Type 0 where
  pub sockets : List UdsSlot
  pub affinity : Option AffinityMap
  pub load : ℕ

unfoldable pub refusing : UdsSlot → Bool
refusing slot = elim slot.health [ none ↦ false | some h ↦ not (h.refused_at_ns == 0) ]

-- The factors are `u32`, so that the sum fits a `u64`.
unfoldable pub score : UdsSlot → ℕ
score slot = slot.active * 1000 + elim slot.cpu [ none ↦ 0 | some cpu ↦ cpu.util_permille ]

-- The order of the keys `(refusing, score)`: whether `s` comes no later than `t`.
unfoldable pub precedes : UdsSlot → UdsSlot → Bool
precedes s t =
    if refusing s
    then refusing t && leb (score s) (score t)
    else refusing t || leb (score s) (score t)

abbrev pub enumerate : ℕ → List UdsSlot → List (ℕ × UdsSlot)
enumerate i [] = []
enumerate i (slot ∷ slots) = (i, slot) ∷ enumerate (suc i) slots

-- `min_by_key`: the first of the least.
unfoldable pub min_slot : List (ℕ × UdsSlot) → Option (ℕ × UdsSlot)
min_slot [] = none
min_slot (one ∷ others) = elim (min_slot others) [
  | none ↦ some one
  | some best ↦ if precedes one.1 best.1 then some one else some best
]

-- The filter of `next_untried`.
unfoldable pub untried : List Bool → List (ℕ × UdsSlot) → List (ℕ × UdsSlot)
untried tried [] = []
untried tried ((i, slot) ∷ slots) =
    let rest = untried tried slots in if get_or tried i false then rest else (i, slot) ∷ rest

unfoldable pub next_untried : UdsBalancer → List Bool → Option ℕ
next_untried b tried = elim (min_slot (untried tried (enumerate 0 b.sockets))) [
  | none ↦ none
  | some (i, slot) ↦ some i
]

unfoldable pub best_score_idx : UdsBalancer → ℕ
best_score_idx b = elim (min_slot (enumerate 0 b.sockets)) [ none ↦ 0 | some (i, slot) ↦ i ]

unfoldable pub find : IpAddr → List (IpAddr × AffinityEntry) → Option AffinityEntry
find ip [] = none
find ip ((k, entry) ∷ entries) = if eq_ip k ip then some entry else find ip entries

-- `DashMap::insert`
unfoldable pub put :
    IpAddr → AffinityEntry → List (IpAddr × AffinityEntry) → List (IpAddr × AffinityEntry)
put ip new [] = (ip, new) ∷ []
put ip new ((k, entry) ∷ entries) =
    let rest = put ip new entries in if eq_ip k ip then (k, new) ∷ entries else (k, entry) ∷ rest

unfoldable pub bind_affinity : UdsBalancer → IpAddr → ℕ → ℕ → UdsBalancer
bind_affinity b ip idx now = elim b.affinity [
  | none ↦ b
  | some aff ↦ record b {
    affinity = some (record aff {
      entries = put ip (record { socket_idx = idx; last_seen_ns = now }) aff.entries;
    });
  }
]

-- Whether `pick` takes the slot of an entry.
unfoldable pub honoured : UdsBalancer → ℕ → ℕ → AffinityEntry → Bool
honoured b ttl_ns now entry = elim (get_elem? b.sockets entry.socket_idx) [
  | none ↦ false
  | some slot ↦ ltb (now - entry.last_seen_ns) ttl_ns && not (refusing slot)
]

-- The entry of a sticky client that is honoured.
unfoldable pub sticky : UdsBalancer → AffinityMap → IpAddr → ℕ → Option ℕ
sticky b aff ip now = elim (find ip aff.entries) [
  | none ↦ none
  | some entry ↦ if honoured b aff.ttl_ns now entry then some entry.socket_idx else none
]

-- The time is stored over an entry that is honoured, and with a new one.
unfoldable pub pick : UdsBalancer → Option IpAddr → ℕ → Option ℕ × UdsBalancer
pick b peer_ip now = elim b.sockets [
  | [] ↦ (none, b)
  | slot ∷ slots ↦ elim b.affinity [
    | none ↦ (some (best_score_idx b), b)
    | some aff ↦ elim peer_ip [
      | none ↦ (some (best_score_idx b), b)
      | some ip ↦ elim (sticky b aff ip now) [
        | some idx ↦ (some idx, bind_affinity b ip idx now)
        | none ↦ (some (best_score_idx b), bind_affinity b ip (best_score_idx b) now)
      ]
    ]
  ]
]

unfoldable pub rebind_affinity : UdsBalancer → Option IpAddr → ℕ → ℕ → UdsBalancer
unfolding bind_affinity
rebind_affinity b none idx now = b
rebind_affinity b (some ip) idx now = bind_affinity b ip idx now

-- `DashMap::retain` in `evict_affinity`
unfoldable pub fresh_entries : ℕ → ℕ → List (IpAddr × AffinityEntry) → List (IpAddr × AffinityEntry)
fresh_entries ttl_ns now [] = []
fresh_entries ttl_ns now ((ip, entry) ∷ entries) =
    let rest = fresh_entries ttl_ns now entries in
    if ltb (now - entry.last_seen_ns) ttl_ns then (ip, entry) ∷ rest else rest

unfoldable pub evict_affinity : UdsBalancer → ℕ → UdsBalancer
evict_affinity b now = elim b.affinity [
  | none ↦ b
  | some aff ↦ record b {
    affinity = some (record aff { entries = fresh_entries aff.ttl_ns now aff.entries });
  }
]

unfoldable pub all_refuse : List UdsSlot → Bool
all_refuse [] = true
all_refuse (slot ∷ slots) = refusing slot && all_refuse slots

unfoldable pub all_refusing : UdsBalancer → Bool
all_refusing b = elim b.sockets [ [] ↦ false | slot ∷ slots ↦ all_refuse (slot ∷ slots) ]

-- The loop of `increment` and `decrement`: the first slot with the path is changed.
unfoldable pub at_path : (ℕ → ℕ) → Bytes → List UdsSlot → List UdsSlot
at_path change path [] = []
at_path change path (slot ∷ slots) =
    let rest = at_path change path slots in
    if eq_bytes slot.path path
    then record slot { active = change slot.active } ∷ slots
    else slot ∷ rest

unfoldable pub increment : UdsBalancer → Bytes → UdsBalancer
increment b path = record b { sockets = at_path (λ n. (n + 1) % 4294967296) path b.sockets }

unfoldable pub decrement : UdsBalancer → Bytes → UdsBalancer
decrement b path = record b { sockets = at_path (λ n. n - 1) path b.sockets }
