-- ===== src/Balancer/Counts.antt =====
-- src/balancer.rs: the active counters are those of the guards. `BalancerGuard` increments when it
-- is made and decrements when it is dropped; guards come and go in any order.
use symphony.Prelude.{
  length, get_elem?, Bytes, eq_bytes, eq_bytes_iff, if◌then◌else◌, Bool-cases, Option-cases, ℕ,
  zero, suc, ◌+◌, ◌-◌, ◌%◌, ◌≤◌, ◌<◌, ◌≡◌, refl, sym, ap, ◌∙◌, subst, inl, inr, true, false, Option,
  none, some, List, [], ◌∷◌, arith,
}
use symphony.TokenBucket.{u32_max}
use symphony.Protection.Connections.{remove_at}
use symphony.Balancer.{UdsSlot, UdsBalancer, at_path, increment, decrement}

-- The counter that a path's guards count in: that of the first slot with the path.
abbrev pub active_of : Bytes → List UdsSlot → Option ℕ
active_of path [] = none
active_of path (slot ∷ slots) =
    if eq_bytes slot.path path then some slot.active else active_of path slots

-- The guards with a path.
abbrev pub count_path : Bytes → List Bytes → ℕ
count_path path [] = 0
count_path path (p ∷ guards) = (if eq_bytes p path then 1 else 0) + count_path path guards

pub data Event : Type 0 where
  opens : Bytes → Event
  drops : ℕ → Event

pub record World : Type 0 where
  pub balancer : UdsBalancer
  pub guards : List Bytes

unfoldable pub after : World → Event → World
after w (opens path) = record { balancer = increment w.balancer path; guards = path ∷ w.guards }
after w (drops i) = elim (get_elem? w.guards i) [
  | none ↦ w
  | some path ↦ record { balancer = decrement w.balancer path; guards = remove_at i w.guards }
]

abbrev pub AllIdle : List UdsSlot → Type 0
AllIdle [] = Unit {0}
AllIdle (slot ∷ slots) = (slot.active ≡ 0) × AllIdle slots

-- The worlds that a new balancer comes to, with fewer guards at a time than a `u32` counts.
pub data Reach : World → Type 0 where
  start : (b : UdsBalancer) → AllIdle b.sockets → Reach (record { balancer = b; guards = [] })
  next : {w : World} (e : Event) → Reach w → length w.guards < u32_max → Reach (after w e)

-- A change at a path changes that path's counter and no other.
at_path-same :
    (change : ℕ → ℕ) (path : Bytes) (slots : List UdsSlot) (m : ℕ)
    → active_of path (at_path change path slots) ≡ some m
    → (n : ℕ) × (active_of path slots ≡ some n) × (m ≡ change n)
unfolding at_path
at_path-same change path [] m h = absurd (ground arith)
at_path-same change path (slot ∷ slots) m h = elim (Bool-cases (eq_bytes slot.path path)) [
  | inl e ↦ (slot.active, ground arith, ground arith)
  | inr e ↦
      let (n, found, same) = at_path-same change path slots m (ground arith) in
      (n, ground arith, same)
]

eq_bytes_trans : (a b c : Bytes) → eq_bytes a b ≡ true → eq_bytes a c ≡ eq_bytes b c
eq_bytes_trans a b c h = ap (λ (x : Bytes). eq_bytes x c) ((eq_bytes_iff a b).0 h)

at_path-other :
    (change : ℕ → ℕ) (path other : Bytes) (slots : List UdsSlot)
    → eq_bytes path other ≡ false
    → active_of other (at_path change path slots) ≡ active_of other slots
unfolding at_path
at_path-other change path other [] h = refl
at_path-other change path other (slot ∷ slots) h = elim (Bool-cases (eq_bytes slot.path path)) [
  | inl e ↦ let away = eq_bytes_trans slot.path path other e ∙ h in ground arith
  | inr e ↦ let rest = at_path-other change path other slots h in ground arith
]

count_path-le-length : (path : Bytes) (guards : List Bytes) → count_path path guards ≤ length guards
count_path-le-length path [] = omega arith
count_path-le-length path (p ∷ guards) = ground (arith, count_path-le-length path guards)

count_path-remove_at :
    (guards : List Bytes) (i : ℕ) (p path : Bytes)
    → get_elem? guards i ≡ some p
    → (if eq_bytes p path then 1 else 0) + count_path path (remove_at i guards)
      ≡ count_path path guards
count_path-remove_at [] i p path h = absurd (ground arith)
count_path-remove_at (q ∷ guards) zero p path h = ground arith
count_path-remove_at (q ∷ guards) (suc i) p path h =
    ground (arith, count_path-remove_at guards i p path h)

-- Every counter is the number of open guards with its path.
abbrev pub IsCounted : World → Type 0
IsCounted w =
    (path : Bytes) (n : ℕ)
    → active_of path w.balancer.sockets ≡ some n
    → n ≡ count_path path w.guards

AllIdle-active_of :
    (slots : List UdsSlot) (path : Bytes) (n : ℕ)
    → AllIdle slots
    → active_of path slots ≡ some n
    → n ≡ 0
AllIdle-active_of [] path n idle h = absurd (ground arith)
AllIdle-active_of (slot ∷ slots) path n idle h =
    ground (arith, AllIdle-active_of slots path n idle.1)

opens-IsCounted :
    (w : World) (p : Bytes)
    → IsCounted w
    → length w.guards < u32_max
    → IsCounted (record { balancer = increment w.balancer p; guards = p ∷ w.guards })
unfolding increment
opens-IsCounted w p counted room path m h =
    let up = λ (n : ℕ). (n + 1) % 4294967296 in
    elim (Bool-cases (eq_bytes p path)) [
      | inl e ↦
          let same : p ≡ path = (eq_bytes_iff p path).0 e in
          let (n, found, changed) =
            at_path-same up path w.balancer.sockets m
              (subst (λ q. active_of path (at_path up q w.balancer.sockets) ≡ some m) same h) in
          ground (arith, counted path n found, count_path-le-length path w.guards)
      | inr e ↦
          let kept = sym (at_path-other up p path w.balancer.sockets e) ∙ h in
          ground (arith, counted path m kept)
    ]

drops-IsCounted :
    (w : World) (i : ℕ) (p : Bytes)
    → IsCounted w
    → get_elem? w.guards i ≡ some p
    → IsCounted (record { balancer = decrement w.balancer p; guards = remove_at i w.guards })
unfolding decrement
drops-IsCounted w i p counted held path m h =
    let down = λ (n : ℕ). n - 1 in
    let left = count_path-remove_at w.guards i p path held in
    elim (Bool-cases (eq_bytes p path)) [
      | inl e ↦
          let same : p ≡ path = (eq_bytes_iff p path).0 e in
          let (n, found, changed) =
            at_path-same down path w.balancer.sockets m
              (subst (λ q. active_of path (at_path down q w.balancer.sockets) ≡ some m) same h) in
          ground (arith, counted path n found)
      | inr e ↦
          let kept = sym (at_path-other down p path w.balancer.sockets e) ∙ h in
          ground (arith, counted path m kept)
    ]

after-IsCounted :
    (w : World) (e : Event) → IsCounted w → length w.guards < u32_max → IsCounted (after w e)
unfolding after
after-IsCounted w (opens p) counted room = opens-IsCounted w p counted room
after-IsCounted w (drops i) counted room = elim (Option-cases (get_elem? w.guards i)) [
  | inl e ↦ rw (e, after) counted
  | inr (p, e) ↦ rw (e, after) (drops-IsCounted w i p counted e)
]

Reach-IsCounted : {w : World} → Reach w → IsCounted w
Reach-IsCounted (start b idle) = λ path n h. AllIdle-active_of b.sockets path n idle h
Reach-IsCounted (next {w} e r room) = after-IsCounted w e (Reach-IsCounted r) room

-- Whatever guards are made and dropped, in any order, with fewer open at a time than a `u32`
-- counts, the counter of a path is the number of those that are open.
pub Reach-active_of :
    {w : World} (path : Bytes) (n : ℕ)
    → Reach w
    → active_of path w.balancer.sockets ≡ some n
    → n ≡ count_path path w.guards
Reach-active_of path n r h = Reach-IsCounted r path n h
