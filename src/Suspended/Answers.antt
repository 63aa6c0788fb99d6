-- ===== src/Suspended/Answers.antt =====
-- src/suspended.rs: the histories of the registry, and what its connections are sent.
use symphony.Prelude.{
  ◌==◌, if◌then◌else◌, Bool-cases, ℕ, ◌+◌, ◌≤◌, ◌<◌, ◌≡◌, subst, inl, inr, true, false, Option,
  List, [], ◌∷◌, arith,
}
use symphony.Suspended.{
  SuspendedRegistry, new_registry, contains, without, register, remove, resolve,
}

-- `waiting` are the connections that wait, by their ids, the last first. `sent` has what went to the
-- receivers: the id of the connection and the route.
pub record World (R : Type 0) : Type 0 where
  pub registry : SuspendedRegistry
  pub registered : ℕ
  pub sent : List (ℕ × Option R)

pub data Event (R : Type 0) : Type 0 where
  suspends : Event R
  times_out : ℕ → Event R
  resolves : ℕ → Option R → Event R

module _ {R : Type 0} where
  unfoldable pub after : World R → Event R → World R
  after w suspends = record w { registry = (register w.registry).1; registered = w.registered + 1 }
  after w (times_out id) = record w { registry = remove id w.registry }
  after w (resolves id route) =
      let r = resolve id w.registry in
      if r.0
      then record w { registry = r.1; sent = (id, route) ∷ w.sent }
      else record w { registry = r.1 }

  abbrev pub fresh : World R
  fresh = record { registry = new_registry; registered = 0; sent = [] }

  -- The worlds that fewer than 2 ^ 64 - 1 suspensions lead to.
  pub data Reach : World R → Type 0 where
    start : Reach fresh
    next :
        {w : World R} (e : Event R)
        → Reach w
        → w.registered < 18446744073709551614
        → Reach (after w e)

  abbrev pub times_sent : ℕ → List (ℕ × Option R) → ℕ
  times_sent id [] = 0
  times_sent id ((k, route) ∷ sent) = (if k == id then 1 else 0) + times_sent id sent

  abbrev pub is_pending : ℕ → World R → ℕ
  is_pending id w = if contains w.registry.pending id then 1 else 0

  -- Ids are drawn in order, and each has had an answer, waits for one, or has given up.
  pub record IsOnce (w : World R) : Type 0 where
    pub counted : w.registry.counter ≡ w.registered + 1
    pub once : (id : ℕ) → is_pending id w + times_sent id w.sent ≤ 1
    pub new : (id : ℕ) → w.registered < id → is_pending id w + times_sent id w.sent ≡ 0

contains-without :
    (id k : ℕ) (ids : List ℕ)
    → contains (without k ids) id ≡ (if k == id then false else contains ids id)
unfolding contains without
contains-without id k [] = ground arith
contains-without id k (j ∷ ids) = ground (arith, contains-without id k ids)

module _ {R : Type 0} where
  resolves-once :
      (w : World R) (k id : ℕ) (route : Option R)
      → IsOnce w
      → contains w.registry.pending k ≡ true
      → (if contains (without k w.registry.pending) id then 1 else 0)
          + ((if k == id then 1 else 0) + times_sent id w.sent)
        ≤ 1
  resolves-once w k id route i e = elim (Bool-cases (k == id)) [
    | inr n ↦ ground (arith, i.once id, contains-without id k w.registry.pending)
    | inl s ↦
        let same : k ≡ id = ground arith in
        let here = subst (λ x. contains w.registry.pending x ≡ true) same e in
        ground (arith, i.once id, contains-without id k w.registry.pending)
  ]

  resolves-new :
      (w : World R) (k id : ℕ) (route : Option R)
      → IsOnce w
      → contains w.registry.pending k ≡ true
      → w.registered < id
      → (if contains (without k w.registry.pending) id then 1 else 0)
          + ((if k == id then 1 else 0) + times_sent id w.sent)
        ≡ 0
  resolves-new w k id route i e later = elim (Bool-cases (k == id)) [
    | inr n ↦ ground (arith, i.new id, contains-without id k w.registry.pending)
    | inl s ↦
        let same : k ≡ id = ground arith in
        let here = subst (λ x. contains w.registry.pending x ≡ true) same e in
        absurd (ground (arith, i.new id))
  ]

  after-IsOnce :
      (w : World R) (e : Event R)
      → w.registered < 18446744073709551614
      → IsOnce w
      → IsOnce (after w e)
  unfolding after register remove resolve contains
  after-IsOnce w suspends h i = record {
    counted = omega (arith, i.counted);
    once = λ id. ground (
      arith,
      i.counted,
      i.once id,
      i.new id,
      contains-without id w.registry.counter w.registry.pending,
    );
    new = λ id later.
        ground
          (arith, i.counted, i.new id, contains-without id w.registry.counter w.registry.pending);
  }
  after-IsOnce w (times_out k) h i = record {
    counted = i.counted;
    once = λ id. ground (arith, i.once id, contains-without id k w.registry.pending);
    new = λ id later. ground (arith, i.new id, contains-without id k w.registry.pending);
  }
  after-IsOnce w (resolves k route) h i = elim (Bool-cases (contains w.registry.pending k)) [
    | inr e ↦ rw (e, after) i
    | inl e ↦
        rw (e, after, resolve)
          (record {
            counted = i.counted;
            once = λ id. resolves-once w k id route i e;
            new = λ id later. resolves-new w k id route i e later;
          })
  ]

  -- Whatever connections are suspended, time out and are resolved, in any order and any number of times:
  -- the ids are drawn in order, and each connection has one answer at most, none as long as its sender
  -- is pending, and never one before it is suspended.
  pub Reach-IsOnce : {w : World R} → Reach w → IsOnce w
  unfolding contains
  Reach-IsOnce start = record {
    counted = omega arith;
    once = λ id. omega arith;
    new = λ id later. omega arith;
  }
  Reach-IsOnce (next {w} e r h) = after-IsOnce w e h (Reach-IsOnce r)
