-- ===== src/Failover/Candidates.antt =====
-- src/failover.rs: which peers are candidates, and in what order.
use symphony.Prelude.{
  length, get_elem?, take, drop, length-append, take-append-drop, ◌==◌, if◌then◌else◌, Bool-cases,
  ℕ, zero, suc, ◌+◌, ◌<◌, ◌≡◌, refl, ap, ◌∙◌, subst, inl, inr, Bool, false, Option, none, some,
  List, [], ◌∷◌, ◌++◌, append-nil, arith,
}
use symphony.Failover.{FailoverPeer, cooling_down, enumerate, ready, rotation, fallback, candidates}

abbrev pub Peers : Type 0
Peers = List (ℕ × FailoverPeer)

ready-append : (now : ℕ) (xs ys : Peers) → ready now (xs ++ ys) ≡ ready now xs ++ ready now ys
unfolding ready
ready-append now [] ys = refl
ready-append now (x ∷ xs) ys = elim (Bool-cases (cooling_down now x.1)) [
  | inl e ↦ rw e (ready-append now xs ys)
  | inr e ↦ rw e (ap (◌∷◌ x) (ready-append now xs ys))
]

-- How often a place is among the peers.
abbrev pub occurs : ℕ → Peers → ℕ
occurs i [] = 0
occurs i ((j, p) ∷ peers) = let rest = occurs i peers in if j == i then suc rest else rest

occurs-append : (i : ℕ) (xs ys : Peers) → occurs i (xs ++ ys) ≡ occurs i xs + occurs i ys
occurs-append i [] ys = omega arith
occurs-append i ((j, p) ∷ xs) ys = ground (arith, occurs-append i xs ys)

-- A rotation neither drops a peer nor doubles one.
occurs-rotation :
    (now start i : ℕ) (xs : Peers)
    → occurs i (ready now (rotation start xs)) ≡ occurs i (ready now xs)
unfolding rotation
occurs-rotation now start i xs =
    let whole = take-append-drop start xs in
    let split = ap (λ z. occurs i (ready now z)) whole in
    rw (ready-append now (drop start xs) (take start xs)) (
      omega (
        arith,
        occurs-append i (ready now (drop start xs)) (ready now (take start xs)),
        occurs-append i (ready now (take start xs)) (ready now (drop start xs)),
        ap (occurs i) (ready-append now (take start xs) (drop start xs)),
        split,
      ))

pub length-rotation :
    (now start : ℕ) (xs : Peers) → length (ready now (rotation start xs)) ≡ length (ready now xs)
unfolding rotation
length-rotation now start xs =
    let split = ap (λ z. length (ready now z)) (take-append-drop start xs) in
    rw (ready-append now (drop start xs) (take start xs)) (
      omega (
        arith,
        length-append {0} (ready now (drop start xs)) (ready now (take start xs)),
        length-append {0} (ready now (take start xs)) (ready now (drop start xs)),
        ap (λ (z : Peers). length z) (ready-append now (take start xs) (drop start xs)),
        split,
      ))

-- The count that goes with the candidates is how many there are.
pub candidates-count :
    (now : ℕ) (wait_for_cooldown : Bool) (start : ℕ) (peers : List FailoverPeer)
    → let c = candidates now wait_for_cooldown start peers in c.0 ≡ length c.1
unfolding candidates fallback
candidates-count now wait start peers =
    let all = enumerate 0 peers in
    let rest = ready now (rotation start all) in
    let last = fallback now wait all in
    ground (arith, length-rotation now start all, length-append {0} rest last)

ready-nil-occurs :
    (now i k : ℕ) (peers : List FailoverPeer) → i < k → occurs i (ready now (enumerate k peers)) ≡ 0
unfolding ready
ready-nil-occurs now i k [] h = refl
ready-nil-occurs now i k (p ∷ peers) h = ground (arith, ready-nil-occurs now i (suc k) peers)

abbrev pub times : ℕ → Option FailoverPeer → ℕ
times now none = 0
times now (some p) = if cooling_down now p then 0 else 1

occurs-enumerate :
    (now i k : ℕ) (peers : List FailoverPeer)
    → occurs (k + i) (ready now (enumerate k peers)) ≡ times now (get_elem? peers i)
unfolding ready
occurs-enumerate now i k [] = refl
occurs-enumerate now zero k (p ∷ peers) = ground (arith, ready-nil-occurs now k (suc k) peers)
occurs-enumerate now (suc i) k (p ∷ peers) =
    let ih = occurs-enumerate now i (suc k) peers in
    let same : suc k + i ≡ k + suc i = omega arith in
    subst (λ x. occurs x (ready now (enumerate k (p ∷ peers))) ≡ times now (get_elem? peers i)) same
      (ground (arith, ih))

ready-some :
    (now j k : ℕ) (peers : List FailoverPeer) (q : FailoverPeer)
    → get_elem? peers j ≡ some q
    → cooling_down now q ≡ false
    → (length (ready now (enumerate k peers)) == 0) ≡ false
unfolding ready
ready-some now j k [] q h c = absurd (ground arith)
ready-some now zero k (p ∷ peers) q h c = ground arith
ready-some now (suc j) k (p ∷ peers) q h c = ground (arith, ready-some now j (suc k) peers q h c)

-- While some peer is not cooling down, each peer that is not is tried exactly once, wherever the
-- rotation starts, and no other peer is; the count that goes with them is how many there are.
pub candidates-occurs :
    (now : ℕ) (wait_for_cooldown : Bool) (start i j : ℕ) (peers : List FailoverPeer)
    (q : FailoverPeer)
    → get_elem? peers j ≡ some q
    → cooling_down now q ≡ false
    → let c = candidates now wait_for_cooldown start peers in
      (occurs i c.1 ≡ times now (get_elem? peers i)) × (c.0 ≡ length c.1)
unfolding candidates fallback
candidates-occurs now wait start i j peers q h c =
    let all = enumerate 0 peers in
    let rest = ready now (rotation start all) in
    let counted = candidates-count now wait start peers in
    let from : occurs i rest ≡ times now (get_elem? peers i) =
      occurs-rotation now start i all
      ∙ subst (λ x. occurs x (ready now all) ≡ times now (get_elem? peers i))
          (let e : 0 + i ≡ i = omega arith in e) (occurs-enumerate now i 0 peers) in
    (rw (ready-some now j 0 peers q h c) (rw append-nil from), counted)
