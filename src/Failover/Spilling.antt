-- ===== src/Failover/Spilling.antt =====
-- src/failover.rs: whom a connection is spilled to, and when.
use symphony.Prelude.{
  length, get_elem?, some-inj, leb, Bool-cases, Option-cases, ℕ, zero, suc, ◌/◌, ◌%◌, ◌≤◌, ◌<◌, ◌≡◌,
  sym, ap, ◌∙◌, subst, ◌≢◌, inl, inr, false, Option, some, List, [], ◌∷◌, arith,
}
use symphony.Float.{Float64, IsBounding}
use symphony.Failover.{FailoverPeer, cooling_down}
use symphony.Failover.Policy.{SpillPolicy}
use symphony.Failover.Spill.{
  Admission, pack, unpack, spill_target, Trend, PeerView, assess, Controller, Spill, next_fraction,
  admit, control,
}
use symphony.Failover.Justified.{IsJustified, assess-IsJustified}

get_elem?-lt : {A : Type 0} (xs : List A) (i : ℕ) (a : A) → get_elem? xs i ≡ some a → i < length xs
get_elem?-lt [] i a h = absurd (ground arith)
get_elem?-lt (x ∷ xs) zero a h = omega arith
get_elem?-lt (x ∷ xs) (suc i) a h = omega (arith, get_elem?-lt xs i a h)

-- What is unpacked is what was packed, where it fits.
unpack-pack :
    (a : Admission)
    → 0 < a.fraction
    → a.fraction ≤ 1000
    → a.target < 65536
    → a.until_ms < 274877906944
    → unpack (pack a) ≡ some a
unfolding unpack pack
unpack-pack a h k l m = ground arith

unpack-zero : (a : Admission) → unpack 0 ≢ some a
unfolding unpack
unpack-zero a h = ground arith

-- What a connection that is spilled has found.
record IsSpilled (peers : List FailoverPeer) (client_hash later place word : ℕ) : Type 0 where
  pub admitted : Admission
  pub unpacked : unpack word ≡ some admitted
  pub target : admitted.target ≡ place
  pub current : later / 1000000 < admitted.until_ms
  pub hashed : client_hash % 1000 < admitted.fraction
  pub peer : FailoverPeer
  pub at_place : get_elem? peers place ≡ some peer
  pub ready : cooling_down later peer ≡ false

spill_target-IsSpilled :
    (peers : List FailoverPeer) (client_hash later place word word' : ℕ)
    → spill_target peers client_hash later word ≡ (some place, word')
    → IsSpilled peers client_hash later place word
unfolding spill_target
spill_target-IsSpilled peers client_hash later place word word' h =
    elim (Option-cases (unpack word)) [
      | inl e ↦ absurd (ground arith)
      | inr (a, e) ↦ elim (Bool-cases (leb a.until_ms (later / 1000000))) [
        | inl k ↦ absurd (ground arith)
        | inr k ↦ elim (Option-cases (get_elem? peers a.target)) [
          | inl l ↦ absurd (ground arith)
          | inr (peer, l) ↦
              let same : a.target ≡ place = ground arith in
              record {
                admitted = a;
                unpacked = e;
                target = same;
                current = ground arith;
                hashed = ground arith;
                peer = peer;
                at_place = subst (λ x. get_elem? peers x ≡ some peer) same l;
                ready = ground arith;
              }
        ]
      ]
    ]

module _ {F : Type 0} (fl : Float64 F) where
  record IsAdmitted (policy : SpillPolicy F) (local : Option (ℕ × ℕ)) (views : List PeerView)
      (now_ms : ℕ) (a : Admission) : Type 0 where
    pub some_fraction : 0 < a.fraction
    pub bounded : a.fraction ≤ policy.max_fraction
    pub justified : IsJustified policy local views now_ms a.target a.until_ms

  next_fraction-le :
      (policy : SpillPolicy F) (trend : Trend) (controller : Controller F) (now : ℕ)
      → IsBounding fl
      → policy.max_fraction ≤ 1000
      → fl.to_u32 (fl.round (next_fraction fl policy trend controller now)) ≤ policy.max_fraction
  unfolding next_fraction
  next_fraction-le policy trend controller now b small =
      b.to_u32-clamp-le _ policy.max_fraction (omega arith)

  control-IsAdmitted :
      (spill : Spill F) (local : Option (ℕ × ℕ)) (views : List PeerView) (now : ℕ) (a : Admission)
      → IsBounding fl
      → spill.policy.max_fraction ≤ 1000
      → (control fl spill local views now).0 ≡ some a
      → IsAdmitted spill.policy local views (now / 1000000) a
  unfolding control admit
  control-IsAdmitted spill local views now a b small h =
      let assessed = assess spill.policy local views (now / 1000000) in
      elim (Option-cases assessed.1) [
        | inl e ↦ absurd (ground arith)
        | inr ((target, until_ms), e) ↦
            let justified =
              assess-IsJustified spill.policy local views (now / 1000000) target until_ms e in
            let same_target : target ≡ a.target = ground arith in
            let same_until : until_ms ≡ a.until_ms = ground arith in
            record {
              some_fraction = ground arith;
              bounded = ground (
                arith,
                next_fraction-le spill.policy assessed.0 spill.state.controller now b small,
              );
              justified =
                  subst (λ x. IsJustified spill.policy local views (now / 1000000) a.target x)
                    same_until
                    (subst (λ x. IsJustified spill.policy local views (now / 1000000) x until_ms)
                      same_target justified);
            }
      ]

  -- A connection is spilled to a peer only while the admission holds: that peer is not cooling down
  -- then, it was a justified target when the controller ran last, and both the load of this node and
  -- the report of the peer are still current. At most the configured fraction of the hashes is spilled.
  pub spill_target-control :
      (spill : Spill F) (load load_until : ℕ) (views : List PeerView) (peers : List FailoverPeer)
      (client_hash now later place word : ℕ)
      → IsBounding fl
      → spill.policy.max_fraction ≤ 1000
      → length views ≤ 65536
      → load_until < 274877906944
      → spill_target peers client_hash later
          (control fl spill (some (load, load_until)) views now).1.state.admission_word
        ≡ (some place, word)
      → (until_ms : ℕ) × IsJustified spill.policy
          (some (load, load_until))
          views
          (now / 1000000)
          place
          until_ms
        × (later / 1000000 < until_ms)
        × (client_hash % 1000 < spill.policy.max_fraction)
        × (peer : FailoverPeer) × (get_elem? peers place ≡ some peer)
        × (cooling_down later peer ≡ false)
  unfolding control
  spill_target-control spill load load_until views peers client_hash now later place word b small
        few fits h =
      let local : Option (ℕ × ℕ) = some (load, load_until) in
      let spilled = spill_target-IsSpilled peers client_hash later place _ word h in
      elim (Option-cases (control fl spill local views now).0) [
        | inl e ↦
            let nothing : unpack 0 ≡ some spilled.admitted = ground (arith, spilled.unpacked) in
            absurd (unpack-zero spilled.admitted nothing)
        | inr (a, e) ↦
            let admitted = control-IsAdmitted spill local views now a b small e in
            let j = admitted.justified in
            let packed : unpack (pack a) ≡ some spilled.admitted =
              ground (arith, spilled.unpacked) in
            let read =
              unpack-pack a admitted.some_fraction (omega (arith, admitted.bounded))
                (omega (arith, get_elem?-lt views a.target j.target.view j.target.at_place))
                (ground (arith, j.until, j.measured)) in
            let same : a ≡ spilled.admitted = some-inj (sym read ∙ packed) in
            let here : a.target ≡ place = ap (λ x. x.target) same ∙ spilled.target in
            (
              a.until_ms,
              subst (λ x. IsJustified spill.policy local views (now / 1000000) x a.until_ms) here j,
              omega (arith, spilled.current, ap (λ x. x.until_ms) same),
              omega (arith, spilled.hashed, ap (λ x. x.fraction) same, admitted.bounded),
              spilled.peer,
              spilled.at_place,
              spilled.ready,
            )
      ]
