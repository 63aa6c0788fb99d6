-- ===== src/Failover/Earliest.antt =====
-- src/failover.rs: which peer is tried when all of them are cooling down.
use symphony.Prelude.{
  length, get_elem?, leb, leb→le, Bool-cases, ℕ, zero, suc, ◌+◌, ◌≤◌, ◌≡◌, refl, ap, ◌∙◌, subst,
  inl, inr, true, some, List, [], ◌∷◌, arith,
}
use symphony.Failover.{
  FailoverPeer, cooldown_until, cooling_down, enumerate, ready, earliest, rotation, fallback,
  candidates,
}
use symphony.Failover.Candidates.{Peers, length-rotation}

-- A peer with the earliest end of its cooldown.
record IsEarliest (k : ℕ) (peers : List FailoverPeer) (one : ℕ × FailoverPeer) : Type 0 where
  pub index : ℕ
  pub place : one.0 ≡ k + index
  pub at_index : get_elem? peers index ≡ some one.1
  pub least :
      (j : ℕ) (q : FailoverPeer)
      → get_elem? peers j ≡ some q
      → cooldown_until one.1 ≤ cooldown_until q

extend :
    (b : ℕ) (p : FailoverPeer) (peers : List FailoverPeer)
    → b ≤ cooldown_until p
    → ((j : ℕ) (q : FailoverPeer) → get_elem? peers j ≡ some q → b ≤ cooldown_until q)
    → (j : ℕ) (q : FailoverPeer) → get_elem? (p ∷ peers) j ≡ some q
    → b ≤ cooldown_until q
extend b p peers h all zero q e = ground arith
extend b p peers h all (suc j) q e = all j q e

earliest-IsEarliest :
    (k : ℕ) (p : FailoverPeer) (peers : List FailoverPeer)
    → (one : ℕ × FailoverPeer) × (earliest (enumerate k (p ∷ peers)) ≡ some one)
      × IsEarliest k (p ∷ peers) one
unfolding earliest
earliest-IsEarliest k p [] = (
  (k, p),
  refl,
  record {
    index = 0;
    place = omega arith;
    at_index = refl;
    least = extend (cooldown_until p) p [] (omega arith) (λ j q h. absurd (ground arith));
  },
)
earliest-IsEarliest k p (q ∷ peers) =
    let (best, e, ih) = earliest-IsEarliest (suc k) q peers in
    elim (Bool-cases (leb (cooldown_until p) (cooldown_until best.1))) [
      | inl c ↦ (
        (k, p),
        rw (e, c, earliest),
        record {
          index = 0;
          place = omega arith;
          at_index = refl;
          least =
              extend (cooldown_until p) p (q ∷ peers) (omega arith)
                (λ j r h. omega (arith, ih.least j r h, leb→le _ _ c));
        },
      )
      | inr c ↦ (
        best,
        rw (e, c, earliest),
        record {
          index = suc ih.index;
          place = omega (arith, ih.place);
          at_index = ih.at_index;
          least = extend (cooldown_until best.1) p (q ∷ peers) (ground arith) ih.least;
        },
      )
    ]

ready-none :
    (now k : ℕ) (peers : List FailoverPeer)
    → ((j : ℕ) (q : FailoverPeer) → get_elem? peers j ≡ some q → cooling_down now q ≡ true)
    → ready now (enumerate k peers) ≡ []
unfolding ready
ready-none now k [] h = refl
ready-none now k (p ∷ peers) h =
    rw (h 0 p refl) (ready-none now (suc k) peers (λ j q e. h (suc j) q e))

no-ready-rotation :
    (now start : ℕ) (xs : Peers) → ready now xs ≡ [] → ready now (rotation start xs) ≡ []
no-ready-rotation now start xs h =
    let none_left = length-rotation now start xs ∙ ap (λ (z : Peers). length z) h in
    nil-of-length _ none_left
  where
    nil-of-length : (ys : Peers) → length ys ≡ 0 → ys ≡ []
    nil-of-length [] e = refl
    nil-of-length (y ∷ ys) e = absurd (omega arith)

-- When every peer is cooling down and there is nothing to fall back to, the one peer that is tried is
-- one whose cooldown ends no later than any other's.
pub candidates-earliest :
    (now start j : ℕ) (peers : List FailoverPeer) (q : FailoverPeer)
    → ((j : ℕ) (q : FailoverPeer) → get_elem? peers j ≡ some q → cooling_down now q ≡ true)
    → get_elem? peers j ≡ some q
    → (i : ℕ) × (p : FailoverPeer) × (candidates now true start peers ≡ (1, (i, p) ∷ []))
      × (get_elem? peers i ≡ some p)
      × (cooldown_until p ≤ cooldown_until q)
unfolding candidates fallback
candidates-earliest now start j [] q all h = absurd (ground arith)
candidates-earliest now start j (p ∷ peers) q all h =
    let (one, e, is) = earliest-IsEarliest 0 p peers in
    let none_ready = ready-none now 0 (p ∷ peers) all in
    (
      one.0,
      one.1,
      rw (no-ready-rotation now start (enumerate 0 (p ∷ peers)) none_ready, none_ready) (rw e),
      subst (λ x. get_elem? (p ∷ peers) x ≡ some one.1) (omega (arith, is.place)) is.at_index,
      is.least j q h,
    )
