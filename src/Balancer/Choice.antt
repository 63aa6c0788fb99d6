-- ===== src/Balancer/Choice.antt =====
-- src/balancer.rs: which slot is chosen by score.
use symphony.Prelude.{
  get_elem?, get_or, some-inj, leb, Bool-cases, Option-cases, ℕ, zero, suc, ◌+◌, ◌-◌, ◌*◌, ◌≤◌, ◌≡◌,
  refl, sym, ap, ◌∙◌, subst, ◌⊎◌, inl, inr, Bool, true, false, Option, none, some, List, [], ◌∷◌,
  arith,
}
use symphony.Balancer.{
  UdsSlot, UdsBalancer, precedes, enumerate, min_slot, untried, next_untried, best_score_idx,
  ThreadCpu, refusing, score,
}

precedes_self : (s : UdsSlot) → precedes s s ≡ true
unfolding precedes
precedes_self s = ground arith

precedes_trans : (r s t : UdsSlot) → precedes r s ≡ true → precedes s t ≡ true → precedes r t ≡ true
unfolding precedes
precedes_trans r s t h k = ground arith

precedes-total : (s t : UdsSlot) → precedes s t ≡ false → precedes t s ≡ true
unfolding precedes
precedes-total s t h = ground arith

-- Every slot of the list comes no earlier than `s`.
abbrev pub AllAfter : UdsSlot → List (ℕ × UdsSlot) → Type 0
AllAfter s [] = Unit {0}
AllAfter s ((i, t) ∷ slots) = (precedes s t ≡ true) × AllAfter s slots

AllAfter-trans :
    (r s : UdsSlot) (slots : List (ℕ × UdsSlot))
    → precedes r s ≡ true
    → AllAfter s slots
    → AllAfter r slots
AllAfter-trans r s [] h a = tt
AllAfter-trans r s ((i, t) ∷ slots) h a =
    (precedes_trans r s t h a.0, AllAfter-trans r s slots h a.1)

-- The least slot is one of the list, and none comes before it.
abbrev pub IsIn : ℕ × UdsSlot → List (ℕ × UdsSlot) → Type 0
IsIn one [] = ⊥
IsIn one (other ∷ slots) = (one ≡ other) ⊎ IsIn one slots

min_slot-nil : (slots : List (ℕ × UdsSlot)) → min_slot slots ≡ none → slots ≡ []
unfolding min_slot
min_slot-nil [] h = refl
min_slot-nil (one ∷ slots) h = absurd (ground (arith, Option-cases (min_slot slots)))

-- A slot of the list that no other comes before.
abbrev pub IsLeast : ℕ × UdsSlot → List (ℕ × UdsSlot) → Type 0
IsLeast one slots = IsIn one slots × AllAfter one.1 slots

min_slot-IsLeast :
    (slots : List (ℕ × UdsSlot)) (one : ℕ × UdsSlot) → min_slot slots ≡ some one → IsLeast one slots
unfolding min_slot
min_slot-IsLeast [] one h = absurd (ground arith)
min_slot-IsLeast ((j, t) ∷ slots) one h = elim (Option-cases (min_slot slots)) [
  | inl e ↦
      let same : (j, t) ≡ one = some-inj (ground arith) in
      subst (λ x. IsLeast x ((j, t) ∷ slots)) same
        (inl refl, (precedes_self t, rw (min_slot-nil slots e) tt))
  | inr (best, e) ↦
      let least = min_slot-IsLeast slots best e in
      elim (Bool-cases (precedes t best.1)) [
        | inl p ↦
            let same : (j, t) ≡ one = some-inj (ground arith) in
            subst (λ x. IsLeast x ((j, t) ∷ slots)) same
              (inl refl, (precedes_self t, AllAfter-trans t best.1 slots p least.1))
        | inr p ↦
            let same : best ≡ one = some-inj (ground arith) in
            subst (λ x. IsLeast x ((j, t) ∷ slots)) same
              (inr least.0, (precedes-total t best.1 p, least.1))
      ]
]

IsIn-untried :
    (tried : List Bool) (slots : List (ℕ × UdsSlot)) (one : ℕ × UdsSlot)
    → IsIn one (untried tried slots)
    → IsIn one slots × (get_or tried one.0 false ≡ false)
unfolding untried
IsIn-untried tried [] one h = absurd h
IsIn-untried tried ((i, slot) ∷ slots) one h = elim (Bool-cases (get_or tried i false)) [
  | inl e ↦ let k = IsIn-untried tried slots one (rw e at h) in (inr k.0, k.1)
  | inr e ↦ elim (rw e at h) [
    | inl q ↦ (inl q, rw (ap (λ (x : ℕ × UdsSlot). x.0) q) e)
    | inr q ↦ let k = IsIn-untried tried slots one q in (inr k.0, k.1)
  ]
]

AllAfter-IsIn :
    (s : UdsSlot) (slots : List (ℕ × UdsSlot)) (one : ℕ × UdsSlot)
    → AllAfter s slots
    → IsIn one slots
    → precedes s one.1 ≡ true
AllAfter-IsIn s [] one a h = absurd h
AllAfter-IsIn s ((i, t) ∷ slots) one a (inl e) = rw (ap (λ (x : ℕ × UdsSlot). x.1) e) a.0
AllAfter-IsIn s ((i, t) ∷ slots) one a (inr h) = AllAfter-IsIn s slots one a.1 h

untried-IsIn :
    (tried : List Bool) (slots : List (ℕ × UdsSlot)) (one : ℕ × UdsSlot)
    → IsIn one slots
    → get_or tried one.0 false ≡ false
    → IsIn one (untried tried slots)
unfolding untried
untried-IsIn tried [] one h k = absurd h
untried-IsIn tried ((i, slot) ∷ slots) one h k = elim (Bool-cases (get_or tried i false)) [
  | inl e ↦ elim h [
    | inl q ↦ absurd (ground (arith, ap (λ (x : ℕ × UdsSlot). get_or tried x.0 false) q))
    | inr q ↦ rw e (untried-IsIn tried slots one q k)
  ]
  | inr e ↦ rw e (elim h [ inl q ↦ inl q | inr q ↦ inr (untried-IsIn tried slots one q k) ])
]

enumerate-get_elem? :
    (from : ℕ) (slots : List UdsSlot) (one : ℕ × UdsSlot)
    → IsIn one (enumerate from slots)
    → (from ≤ one.0) × (get_elem? slots (one.0 - from) ≡ some one.1)
enumerate-get_elem? from [] one h = absurd h
enumerate-get_elem? from (slot ∷ slots) one (inl e) =
    subst (λ x. (from ≤ x.0) × (get_elem? (slot ∷ slots) (x.0 - from) ≡ some x.1)) (sym e)
      (omega arith, rw (self from) refl)
  where
    self : (n : ℕ) → n - n ≡ 0
    self n = omega arith
enumerate-get_elem? from (slot ∷ slots) one (inr h) =
    let (later, found) = enumerate-get_elem? (suc from) slots one h in
    let past : one.0 - from ≡ suc (one.0 - suc from) = omega arith in (omega arith, rw past found)

get_elem?-enumerate :
    (from : ℕ) (slots : List UdsSlot) (j : ℕ) (t : UdsSlot)
    → get_elem? slots j ≡ some t
    → IsIn (from + j, t) (enumerate from slots)
get_elem?-enumerate from [] j t h = absurd (ground arith)
get_elem?-enumerate from (slot ∷ slots) zero t h = inl (
    ap (λ (x : UdsSlot). (from + 0, x)) (some-inj (sym h))
    ∙ ap (λ (n : ℕ). (n, slot)) (omega arith))
get_elem?-enumerate from (slot ∷ slots) (suc j) t h = inr (
    subst (λ (n : ℕ). IsIn (n, t) (enumerate (suc from) slots)) (omega arith)
      (get_elem?-enumerate (suc from) slots j t h))

next_untried-IsLeast :
    (b : UdsBalancer) (tried : List Bool) (i : ℕ)
    → next_untried b tried ≡ some i
    → (s : UdsSlot) × IsLeast (i, s) (untried tried (enumerate 0 b.sockets))
unfolding next_untried
next_untried-IsLeast b tried i h =
    let slots = untried tried (enumerate 0 b.sockets) in
    elim (Option-cases (min_slot slots)) [
      | inl e ↦ absurd (ground arith)
      | inr ((j, s), e) ↦
          let same : j ≡ i = ground arith in
          (s, subst (λ (n : ℕ). IsLeast (n, s) slots) same (min_slot-IsLeast slots (j, s) e))
    ]

-- The CPU load of a slot, none where no thread is known.
abbrev pub load_of : Option ThreadCpu → ℕ
load_of none = 0
load_of (some cpu) = cpu.util_permille

abbrev pub IsAhead : UdsSlot → UdsSlot → Type 0
IsAhead s t =
    ((refusing s ≡ false) × (refusing t ≡ true))
    ⊎ ((refusing s ≡ refusing t)
        × (s.active * 1000 + load_of s.cpu ≤ t.active * 1000 + load_of t.cpu))

score-load_of : (s : UdsSlot) → score s ≡ s.active * 1000 + load_of s.cpu
unfolding score
score-load_of s = elim (Option-cases s.cpu) [ inl e ↦ rw e refl | inr (cpu, e) ↦ rw e refl ]

precedes-IsAhead : (s t : UdsSlot) → precedes s t ≡ true → IsAhead s t
unfolding precedes
precedes-IsAhead s t h = elim (Bool-cases (refusing s)) [
  | inl e ↦ elim (Bool-cases (refusing t)) [
    | inl k ↦
        inr
          (e ∙ sym k, omega (arith, score-load_of s, score-load_of t, in_order s t (ground arith)))
    | inr k ↦ absurd (ground arith)
  ]
  | inr e ↦ elim (Bool-cases (refusing t)) [
    | inl k ↦ inl (e, k)
    | inr k ↦
        inr
          (e ∙ sym k, omega (arith, score-load_of s, score-load_of t, in_order s t (ground arith)))
  ]
]
  where
    in_order : (s t : UdsSlot) → leb (score s) (score t) ≡ true → score s ≤ score t
    in_order s t h = ground arith

-- The slot that is tried next is one that has not been tried, and for every other of those
-- either it does not refuse and the other does, or both refuse or neither does and its score, 1000
-- for each open connection and the CPU load of its thread in thousandths, is no higher.
pub next_untried-IsAhead :
    (b : UdsBalancer) (tried : List Bool) (i j : ℕ) (t : UdsSlot)
    → next_untried b tried ≡ some i
    → get_elem? b.sockets j ≡ some t
    → get_or tried j false ≡ false
    → (s : UdsSlot) × (get_elem? b.sockets i ≡ some s)
      × (get_or tried i false ≡ false)
      × IsAhead s t
next_untried-IsAhead b tried i j t h found left =
    let slots = enumerate 0 b.sockets in
    let (s, least) = next_untried-IsLeast b tried i h in
    let (inside, new) = IsIn-untried tried slots (i, s) least.0 in
    let (from, at) = enumerate-get_elem? 0 b.sockets (i, s) inside in
    let same : i - 0 ≡ i = omega arith in
    let other : IsIn (j, t) slots =
      subst (λ (n : ℕ). IsIn (n, t) slots) (omega arith)
        (get_elem?-enumerate 0 b.sockets j t found) in
    (
      s,
      ap (get_elem? b.sockets) (sym same) ∙ at,
      new,
      precedes-IsAhead s t (
          AllAfter-IsIn s (untried tried slots) (j, t) least.1
            (untried-IsIn tried slots (j, t) other left)),
    )

-- When no slot is left to try, every slot has been tried.
pub next_untried-none :
    (b : UdsBalancer) (tried : List Bool) (j : ℕ) (t : UdsSlot)
    → next_untried b tried ≡ none
    → get_elem? b.sockets j ≡ some t
    → get_or tried j false ≡ true
unfolding next_untried
next_untried-none b tried j t h found =
    let slots = enumerate 0 b.sockets in
    let other : IsIn (j, t) slots =
      subst (λ (n : ℕ). IsIn (n, t) slots) (omega arith)
        (get_elem?-enumerate 0 b.sockets j t found) in
    elim (Bool-cases (get_or tried j false)) [
      | inl e ↦ e
      | inr e ↦ absurd (
          subst (IsIn (j, t))
            (min_slot-nil (untried tried slots)
              (ground (arith, Option-cases (min_slot (untried tried slots)))))
            (untried-IsIn tried slots (j, t) other e))
    ]

-- The slot of the best score, and that it is one of the slots.
pub best_score_idx-least :
    (b : UdsBalancer) (j : ℕ) (t : UdsSlot)
    → get_elem? b.sockets j ≡ some t
    → (s : UdsSlot) × (get_elem? b.sockets (best_score_idx b) ≡ some s) × (precedes s t ≡ true)
unfolding best_score_idx
best_score_idx-least b j t found =
    let slots = enumerate 0 b.sockets in
    let other : IsIn (j, t) slots =
      subst (λ (n : ℕ). IsIn (n, t) slots) (omega arith)
        (get_elem?-enumerate 0 b.sockets j t found) in
    elim (Option-cases (min_slot slots)) [
      | inl e ↦ absurd (subst (IsIn (j, t)) (min_slot-nil slots e) other)
      | inr ((i, s), e) ↦
          let least = min_slot-IsLeast slots (i, s) e in
          let (from, at) = enumerate-get_elem? 0 b.sockets (i, s) least.0 in
          let same : i - 0 ≡ i = omega arith in
          rw (e, best_score_idx)
            (
              s,
              ap (get_elem? b.sockets) (sym same) ∙ at,
              AllAfter-IsIn s slots (j, t) least.1 other,
            )
    ]
