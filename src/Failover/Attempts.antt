-- ===== src/Failover/Attempts.antt =====
-- src/failover.rs: which peers a connection is tried at, and what becomes of its bytes.
use symphony.Prelude.{
  length, ◌==◌, if◌then◌else◌, Bool-cases, Option-cases, ℕ, suc, ◌+◌, ◌-◌, ◌≤◌, ◌<◌, ◌≡◌, refl, sym,
  ap, ◌∙◌, ◌≢◌, inl, inr, Bool, true, false, not, ◌||◌, Option, none, some, List, [], ◌∷◌, ◌++◌,
  append-nil, append_assoc, arith,
}
use symphony.Failover.{
  FailoverPeer, record_failure, ForwardMode, down, drain, spill, candidates_for,
}
use symphony.Failover.Spill.{Failover}
use symphony.Failover.Forward.{
  upstream_connect, stream, Forwarded, done, serve_locally, Round, Surroundings, Passage,
  begin_attempt, modify, share, attempt_all, give_up, budget, not_replayable, tunnel, arrived,
  forward_to_peers,
}
use symphony.Failover.Candidates.{candidates-count}
use native.Mathlib.Nat.{div-lt_self}

abbrev pub places : {A : Type 0} → List (ℕ × A) → List ℕ
places [] = []
places ((i, a) ∷ xs) = i ∷ places xs

places-append : {A : Type 0} (xs ys : List (ℕ × A)) → places (xs ++ ys) ≡ places xs ++ places ys
places-append [] ys = refl
places-append ((i, a) ∷ xs) ys = ap (◌∷◌ i) (places-append xs ys)

share-lt :
    (remaining candidate_count attempt : ℕ)
    → 0 < remaining
    → attempt + 1 < candidate_count
    → share remaining candidate_count attempt < remaining
unfolding share
share-lt remaining candidate_count attempt h k = div-lt_self h (omega arith)

module _ (mode : ForwardMode) (min_ns max_ns deadline candidate_count : ℕ)
    (rounds : ℕ → Round) where
  still-left : (started : ℕ) → started < deadline → ((deadline - started) == 0) ≡ false
  still-left started h = ground arith

  -- An attempt takes no longer than its share: the next one begins by then.
  abbrev pub IsPaced : Type 0
  IsPaced =
      (k : ℕ)
      → (rounds (suc k)).started
        ≤ (rounds k).started + share (deadline - (rounds k).started) candidate_count k

  -- No peer spends the turn of another: where none answers, each of them has been tried.
  attempt_all-tried :
      (attempt : ℕ) (candidates : List (ℕ × FailoverPeer)) (p : Passage)
      → IsPaced
      → candidate_count ≡ attempt + length candidates
      → (rounds attempt).started < deadline
      → (attempt_all mode min_ns max_ns deadline candidate_count rounds attempt candidates p).0
        ≡ none
      → places
          (attempt_all mode min_ns max_ns deadline candidate_count rounds attempt candidates
            p).1.tried
        ≡ places p.tried ++ places candidates
  unfolding attempt_all
  attempt_all-tried attempt [] p paced n before h = sym (append-nil (places p.tried))
  attempt_all-tried attempt ((i, q) ∷ []) p paced n before h =
      elim (Option-cases (rounds attempt).failure) [
        | inl e ↦ absurd (ground arith)
        | inr (kind, e) ↦
            rw (still-left (rounds attempt).started before, e, attempt_all)
              (places-append p.tried _)
      ]
  attempt_all-tried attempt ((i, q) ∷ c ∷ candidates) p paced n before h =
      let time = share (deadline - (rounds attempt).started) candidate_count attempt in
      elim (Option-cases (rounds attempt).failure) [
        | inl e ↦ absurd (ground arith)
        | inr (kind, e) ↦
            let begun = begin_attempt attempt i time p in
            let failed : Passage = record begun {
              peers =
                  modify (record_failure kind min_ns max_ns (rounds attempt).failed_ns) i
                    begun.peers;
            } in
            let next : (rounds (suc attempt)).started < deadline = omega (
              arith,
              paced attempt,
              share-lt (deadline - (rounds attempt).started) candidate_count attempt (omega arith)
                  (omega arith),
            ) in
            rw (still-left (rounds attempt).started before, e, attempt_all)
              (attempt_all-tried (suc attempt) (c ∷ candidates) failed paced (omega arith) next
                  (rw (still-left (rounds attempt).started before, e, attempt_all) at h)
                ∙ ap (λ x. x ++ places (c ∷ candidates)) (places-append p.tried ((i, time) ∷ []))
                ∙ append_assoc (places p.tried) (i ∷ []) (places (c ∷ candidates)))
      ]

  -- Until a peer answers, nothing is read off the client's connection.
  attempt_all-unread :
      (attempt : ℕ) (candidates : List (ℕ × FailoverPeer)) (p : Passage)
      → (attempt_all mode min_ns max_ns deadline candidate_count rounds attempt candidates
          p).1.is_consumed
        ≡ p.is_consumed
  unfolding attempt_all
  attempt_all-unread attempt [] p = refl
  attempt_all-unread attempt ((i, q) ∷ candidates) p =
      elim (Bool-cases ((deadline - (rounds attempt).started) == 0)) [
        | inl z ↦ rw (z, attempt_all)
        | inr z ↦ elim (Option-cases (rounds attempt).failure) [
          | inl e ↦ rw (z, e, attempt_all)
          | inr (kind, e) ↦ rw (z, e, attempt_all) (attempt_all-unread (suc attempt) candidates _)
        ]
      ]

  -- The peer that takes the connection has answered.
  attempt_all-answered :
      (attempt : ℕ) (candidates : List (ℕ × FailoverPeer)) (p : Passage) (place : ℕ)
      → (attempt_all mode min_ns max_ns deadline candidate_count rounds attempt candidates p).0
        ≡ some place
      → (k : ℕ) × ((rounds k).failure ≡ none)
  unfolding attempt_all
  attempt_all-answered attempt [] p place h = absurd (ground arith)
  attempt_all-answered attempt ((i, q) ∷ candidates) p place h =
      elim (Bool-cases ((deadline - (rounds attempt).started) == 0)) [
        | inl z ↦ absurd (ground arith)
        | inr z ↦ elim (Option-cases (rounds attempt).failure) [
          | inl e ↦ (attempt, e)
          | inr (kind, e) ↦
              attempt_all-answered (suc attempt) candidates _ place (rw (z, e, attempt_all) at h)
        ]
      ]

candidates_for-count :
    (mode : ForwardMode) (now cursor : ℕ) (peers : List FailoverPeer)
    → let c = candidates_for mode now cursor peers in c.0.0 ≡ length c.0.1
unfolding candidates_for
candidates_for-count down now cursor peers = candidates-count now true _ peers
candidates_for-count drain now cursor peers = candidates-count now false _ peers
candidates_for-count (spill i) now cursor peers = refl

-- How a connection ends that was to be forwarded.
pub data IsOutcome (mode : ForwardMode) (handshake : ℕ) (e : Surroundings)
    (result : Forwarded × Passage) : Type 0 where
  local :
      mode ≢ down
      → result.0 ≡ serve_locally (handshake - (e.finished - e.started))
      → result.1.is_consumed ≡ false
      → IsOutcome mode handshake e result
  closed :
      mode ≡ down
      → result.0 ≡ done (some upstream_connect)
      → result.1.is_consumed ≡ false
      → IsOutcome mode handshake e result
  tunnelled :
      (k : ℕ)
      → (e.rounds k).failure ≡ none
      → result.0 ≡ done (if e.is_read then e.copied else some stream)
      → IsOutcome mode handshake e result

give_up-IsOutcome :
    (mode : ForwardMode) (handshake : ℕ) (e : Surroundings) (p : Passage)
    → p.is_consumed ≡ false
    → IsOutcome mode handshake e (give_up mode handshake (e.finished - e.started) p)
unfolding give_up
give_up-IsOutcome down handshake e p h = closed refl refl h
give_up-IsOutcome drain handshake e p h = local (λ x. ground arith) refl h
give_up-IsOutcome (spill i) handshake e p h = local (λ x. ground arith) refl h

give_up-tried :
    (mode : ForwardMode) (handshake elapsed : ℕ) (p : Passage)
    → (give_up mode handshake elapsed p).1.tried ≡ p.tried
unfolding give_up
give_up-tried down handshake elapsed p = refl
give_up-tried drain handshake elapsed p = refl
give_up-tried (spill i) handshake elapsed p = refl

not_replayable-IsOutcome :
    (mode : ForwardMode) (handshake : ℕ) (e : Surroundings) (p : Passage)
    → p.is_consumed ≡ false
    → IsOutcome mode handshake e (not_replayable mode handshake (e.finished - e.started) p)
unfolding not_replayable
not_replayable-IsOutcome down handshake e p h = closed refl refl h
not_replayable-IsOutcome drain handshake e p h = give_up-IsOutcome drain handshake e p h
not_replayable-IsOutcome (spill i) handshake e p h = give_up-IsOutcome (spill i) handshake e p h

module _ {F : Type 0} (complete : Bool) (hello_len : ℕ) (failover : Failover F) (mode : ForwardMode)
    (handshake : ℕ) (e : Surroundings) where
  abbrev tries : (ℕ × List (ℕ × FailoverPeer)) × ℕ
  tries = candidates_for mode e.now failover.cursor failover.peers

  abbrev attempted : Option ℕ × Passage
  attempted =
      attempt_all mode failover.cooldown_min_ns failover.cooldown_max_ns
        (e.started + budget mode handshake) tries.0.0 e.rounds 0 tries.0.1 (arrived failover)

  -- A connection is served locally, with what is left of the handshake's time, only if no byte was read
  -- off it, and never while the upstream is down; it is closed with no byte read only while the
  -- upstream is down; and else a peer had answered, and its end is that of the copying, or an error of
  -- the stream where the ClientHello cannot be read off.
  pub forward_to_peers-IsOutcome :
      IsOutcome mode handshake e (forward_to_peers complete hello_len failover mode handshake e).0
  unfolding forward_to_peers tunnel
  forward_to_peers-IsOutcome = elim (Bool-cases (not complete || hello_len == 0)) [
    | inl c ↦ rw (c, forward_to_peers) (not_replayable-IsOutcome mode handshake e _ refl)
    | inr c ↦ elim (Bool-cases (tries.0.0 == 0 || not e.is_prefixed)) [
      | inl d ↦ rw (c, d, forward_to_peers) (give_up-IsOutcome mode handshake e _ refl)
      | inr d ↦ elim (Option-cases attempted.0) [
        | inl a ↦
            rw (c, d, a, forward_to_peers)
              (give_up-IsOutcome mode handshake e attempted.1
                (attempt_all-unread mode _ _ _ _ e.rounds 0 tries.0.1 (arrived failover)))
        | inr (place, a) ↦
            let (k, answered) =
              attempt_all-answered mode _ _ _ _ e.rounds 0 tries.0.1 (arrived failover) place a in
            rw (c, d, a, forward_to_peers) (tunnelled k answered refl)
      ]
    ]
  ]

  attempted-tried :
      IsPaced mode failover.cooldown_min_ns failover.cooldown_max_ns
        (e.started + budget mode handshake)
        tries.0.0
        e.rounds
      → (e.rounds 0).started < e.started + budget mode handshake
      → attempted.0 ≡ none
      → places attempted.1.tried ≡ places tries.0.1
  attempted-tried paced before h =
      attempt_all-tried mode _ _ (e.started + budget mode handshake) tries.0.0 e.rounds 0 tries.0.1
        (arrived failover) paced
        (candidates_for-count mode e.now failover.cursor failover.peers ∙ omega arith) before h

  -- Where a whole ClientHello is at hand, and each attempt takes no longer than the share of the
  -- remaining time that it is given: if no peer answers, every candidate has been tried, in order.
  -- No silent peer spends the turn of another.
  pub forward_to_peers-tried :
      complete ≡ true
      → (hello_len == 0) ≡ false
      → e.is_prefixed ≡ true
      → (tries.0.0 == 0) ≡ false
      → IsPaced mode failover.cooldown_min_ns failover.cooldown_max_ns
          (e.started + budget mode handshake)
          tries.0.0
          e.rounds
      → (e.rounds 0).started < e.started + budget mode handshake
      → attempted.0 ≡ none
      → places (forward_to_peers complete hello_len failover mode handshake e).0.1.tried
        ≡ places tries.0.1
  unfolding forward_to_peers
  forward_to_peers-tried c l p some_tries paced before h =
      let tried = attempted-tried paced before h in
      rw (c, l, p, some_tries, h, forward_to_peers)
        (ap (λ (x : List (ℕ × ℕ)). places x)
            (give_up-tried mode handshake (e.finished - e.started) attempted.1)
          ∙ tried)
