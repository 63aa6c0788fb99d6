-- ===== src/Failover/Justified.antt =====
-- src/failover.rs: the controller's case for a peer that it spills to.
use symphony.Prelude.{
  get_elem?, some-inj, ltb, leb, ltb→lt, Bool-cases, Option-cases, ℕ, zero, suc, ◌+◌, ◌*◌, ◌≤◌, ◌<◌,
  min, ◌≡◌, refl, sym, subst, ◌≢◌, ◌⊎◌, inl, inr, true, Option, none, some, List, [], ◌∷◌, arith,
}
use symphony.Failover.Policy.{SpillPolicy}
use symphony.Failover.Spill.{PeerView, Target, eligible, targets, least, compared, assess}

-- The load of the target, if `t` is one.
pub record IsTarget (max_peer_rtt : Option ℕ) (now_ms : ℕ) (peers : List PeerView) (place : ℕ)
    (load until_ms : ℕ) : Type 0 where
  pub view : PeerView
  pub at_place : get_elem? peers place ≡ some view
  pub reported : view.load ≡ some load
  pub is_eligible : eligible max_peer_rtt now_ms view ≡ true
  pub until : until_ms ≡ view.report_until_ms

abbrev IsIn : Target → List Target → Type 0
IsIn one [] = ⊥
IsIn one (other ∷ others) = (one ≡ other) ⊎ IsIn one others

least-IsIn : (ts : List Target) (one : Target) → least ts ≡ some one → IsIn one ts
unfolding least
least-IsIn [] one h = absurd (ground arith)
least-IsIn (t ∷ ts) one h = elim (Option-cases (least ts)) [
  | inl e ↦ inl (sym (some-inj (ground arith)))
  | inr (best, e) ↦ elim (Bool-cases (leb t.1 best.1)) [
    | inl k ↦ inl (sym (some-inj (ground arith)))
    | inr k ↦ inr (subst (λ x. IsIn x ts) (some-inj (ground arith)) (least-IsIn ts best e))
  ]
]

least-none : (ts : List Target) (other : Target) → least ts ≡ none → IsIn other ts → ⊥
unfolding least
least-none [] other h k = k
least-none (t ∷ ts) other h k = ground (arith, Option-cases (least ts))

least-le :
    (ts : List Target) (one other : Target) → least ts ≡ some one → IsIn other ts → one.1 ≤ other.1
unfolding least
least-le [] one other h k = absurd k
least-le (t ∷ ts) one other h (inl q) = elim (Option-cases (least ts)) [
  | inl e ↦ ground arith
  | inr (best, e) ↦ ground arith
]
least-le (t ∷ ts) one other h (inr q) = elim (Option-cases (least ts)) [
  | inl e ↦ absurd (least-none ts other e q)
  | inr (best, e) ↦ let below = least-le ts best other e q in ground arith
]

targets-IsTarget :
    (max_peer_rtt : Option ℕ) (now_ms i : ℕ) (peers : List PeerView) (t : Target)
    → IsIn t (targets max_peer_rtt now_ms i peers)
    → (k : ℕ) × (t.0 ≡ i + k) × IsTarget max_peer_rtt now_ms peers k t.1 t.2
unfolding targets
targets-IsTarget rtt now_ms i [] t h = absurd h
targets-IsTarget rtt now_ms i (p ∷ peers) t h =
    let deeper = λ (q : IsIn t (targets rtt now_ms (suc i) peers)).
      let (k, e, target) = targets-IsTarget rtt now_ms (suc i) peers t q in
      let found : (x : ℕ) × (t.0 ≡ i + x) × IsTarget rtt now_ms (p ∷ peers) x t.1 t.2 = (
        suc k,
        omega arith,
        record {
          view = target.view;
          at_place = target.at_place;
          reported = target.reported;
          is_eligible = target.is_eligible;
          until = target.until;
        },
      ) in
      found in
    elim (Bool-cases (eligible rtt now_ms p)) [
      | inr e ↦ deeper (rw (e, targets) at h)
      | inl e ↦ elim (Option-cases p.load) [
        | inl none_yet ↦ deeper (rw (e, none_yet, targets) at h)
        | inr (load, l) ↦ elim (rw (e, l, targets) at h) [
          | inr q ↦ deeper q
          | inl q ↦ (
            zero,
            ground arith,
            record {
              view = p;
              at_place = refl;
              reported = ground arith;
              is_eligible = e;
              until = ground arith;
            },
          )
        ]
      ]
    ]

module _ {F : Type 0} where
  -- The controller's case for a target: it is fresh, near and not cooling down, and so much less busy
  -- than this node that the fraction may rise, or stay.
  pub record IsJustified (policy : SpillPolicy F) (local : Option (ℕ × ℕ)) (peers : List PeerView)
      (now_ms place until_ms : ℕ) : Type 0 where
    pub load : ℕ
    pub load_until : ℕ
    pub measured : local ≡ some (load, load_until)
    pub current : now_ms < load_until
    pub peer_load : ℕ
    pub report_until : ℕ
    pub target : IsTarget policy.max_peer_rtt now_ms peers place peer_load report_until
    pub until : until_ms ≡ min load_until report_until
    pub less_busy : 2 * peer_load + policy.margin ≤ 2 * load
    pub busy : 2 * policy.high_water ≤ 2 * load + policy.margin

  -- A target is given only where that is justified.
  pub assess-IsJustified :
      (policy : SpillPolicy F) (local : Option (ℕ × ℕ)) (peers : List PeerView)
      (now_ms place until_ms : ℕ)
      → (assess policy local peers now_ms).1 ≡ some (place, until_ms)
      → IsJustified policy local peers now_ms place until_ms
  unfolding assess compared
  assess-IsJustified policy none peers now_ms place until_ms h = absurd (ground arith)
  assess-IsJustified policy (some (load, load_until)) peers now_ms place until_ms h =
      let ts = targets policy.max_peer_rtt now_ms 0 peers in
      elim (Bool-cases (ltb now_ms load_until)) [
        | inr e ↦ absurd (ground arith)
        | inl e ↦ elim (Option-cases (least ts)) [
          | inl k ↦ absurd (ground arith)
          | inr (best, k) ↦
              let (at, same, target) =
                targets-IsTarget policy.max_peer_rtt now_ms 0 peers best (least-IsIn ts best k) in
              let here : at ≡ place = ground arith in
              record {
                load = load;
                load_until = load_until;
                measured = refl;
                current = ltb→lt _ _ e;
                peer_load = best.1;
                report_until = best.2;
                target =
                    subst (λ x. IsTarget policy.max_peer_rtt now_ms peers x best.1 best.2) here
                      target;
                until = ground arith;
                less_busy = ground arith;
                busy = ground arith;
              }
        ]
      ]

  -- Two nodes that know each other's load never both spill to the other: each would have to be the
  -- busier one by its margin. The margin of one is not 0.
  pub assess-not_mutual :
      (p q : SpillPolicy F) (a a_until b b_until i i_until j j_until now now' : ℕ)
      (views views' : List PeerView) (of_b of_a : PeerView)
      → 0 < p.margin
      → get_elem? views i ≡ some of_b
      → of_b.load ≡ some b
      → get_elem? views' j ≡ some of_a
      → of_a.load ≡ some a
      → (assess p (some (a, a_until)) views now).1 ≡ some (i, i_until)
      → (assess q (some (b, b_until)) views' now').1 ≢ some (j, j_until)
  assess-not_mutual p q a a_until b b_until i i_until j j_until now now' views views' of_b of_a pos
        at_i b_load at_j a_load spills back =
      let x = assess-IsJustified p (some (a, a_until)) views now i i_until spills in
      let y = assess-IsJustified q (some (b, b_until)) views' now' j j_until back in
      let bx : x.peer_load ≡ b = ground (arith, x.target.at_place, x.target.reported) in
      let ay : y.peer_load ≡ a = ground (arith, y.target.at_place, y.target.reported) in
      let ax : x.load ≡ a = ground (arith, x.measured) in
      let by : y.load ≡ b = ground (arith, y.measured) in omega (arith, x.less_busy, y.less_busy)
