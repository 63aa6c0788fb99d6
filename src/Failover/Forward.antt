-- ===== src/Failover/Forward.antt =====
-- src/failover.rs: a connection is forwarded to the peers of its route. What an attempt at a peer
-- comes to and the clock are given round by round; fewer than 2 ^ 32 peers are tried.
use symphony.Prelude.{
  ltb, ◌==◌, if◌then◌else◌, ℕ, zero, suc, ◌+◌, ◌-◌, ◌/◌, min, max, Bool, true, false, not, ◌||◌,
  Option, none, some, List, [], ◌∷◌, ◌++◌,
}
use symphony.Failover.{
  inc, PeerFailureKind, FailoverPeer, record_failure, clear_cooldown, ForwardMode, down, drain,
  spill, candidates_for,
}
use symphony.Failover.Spill.{FailoverStatus, Failover}

-- The kinds of a connection's error that arise here.
pub data ErrorKind : Type 0 where
  upstream_connect stream : ErrorKind

-- Times are nanoseconds. `serve_locally` has what is left of the handshake's time.
pub data Forwarded : Type 0 where
  done : Option ErrorKind → Forwarded
  serve_locally : ℕ → Forwarded

-- A round of the loop: the clock at its start, how the attempt fails, and the clock then.
pub record Round : Type 0 where
  pub started : ℕ
  pub failure : Option PeerFailureKind
  pub failed_ns : ℕ

-- What the program finds: the clock at the start and at the end, whether the header is written and
-- the whole ClientHello peeked at in time, the rounds, and what comes of the connection behind the
-- answer of a peer: whether the ClientHello is read off it, and how the copying ends.
pub record Surroundings : Type 0 where
  pub started : ℕ
  pub now : ℕ
  pub is_prefixed : Bool
  pub rounds : ℕ → Round
  pub finished : ℕ
  pub is_read : Bool
  pub copied : Option ErrorKind

-- `tried` has the peers that the ClientHello went to, with the time that each had; `is_consumed` tells
-- whether bytes were read off the client's connection.
pub record Passage : Type 0 where
  pub peers : List FailoverPeer
  pub status : FailoverStatus
  pub tried : List (ℕ × ℕ)
  pub is_consumed : Bool

abbrev pub modify : (FailoverPeer → FailoverPeer) → ℕ → List FailoverPeer → List FailoverPeer
modify change i [] = []
modify change zero (peer ∷ peers) = change peer ∷ peers
modify change (suc i) (peer ∷ peers) = peer ∷ modify change i peers

abbrev pub count_handed : ForwardMode → FailoverPeer → FailoverPeer
count_handed (spill i) peer = record peer { spilled = inc peer.spilled }
count_handed down peer = record peer { forwarded = inc peer.forwarded }
count_handed drain peer = record peer { forwarded = inc peer.forwarded }

-- The share of an attempt in the time that remains.
unfoldable pub share : ℕ → ℕ → ℕ → ℕ
share remaining candidate_count attempt = remaining / max (candidate_count - attempt) 1

abbrev pub begin_attempt : ℕ → ℕ → ℕ → Passage → Passage
begin_attempt attempt place time p = record p {
  status = if ltb 0 attempt then record p.status { replays = inc p.status.replays } else p.status;
  tried = p.tried ++ (place, time) ∷ [];
}

module _ (mode : ForwardMode) (min_ns max_ns deadline candidate_count : ℕ)
    (rounds : ℕ → Round) where
  -- The place of the peer that answered, or `none`.
  unfoldable pub attempt_all : ℕ → List (ℕ × FailoverPeer) → Passage → Option ℕ × Passage
  attempt_all attempt [] p = (none, p)
  attempt_all attempt ((place, peer) ∷ candidates) p =
      let r = rounds attempt in
      let remaining = deadline - r.started in
      let begun = begin_attempt attempt place (share remaining candidate_count attempt) p in
      if remaining == 0 then (none, p) else elim r.failure [
        | none ↦ (
          some place,
          record begun {
            peers = modify (λ q. count_handed mode (clear_cooldown q)) place begun.peers;
          },
        )
        | some kind ↦ attempt_all (suc attempt) candidates (record begun {
          peers = modify (record_failure kind min_ns max_ns r.failed_ns) place begun.peers;
        })
      ]

unfoldable pub give_up : ForwardMode → ℕ → ℕ → Passage → Forwarded × Passage
give_up down handshake elapsed p = (
  done (some upstream_connect),
  record p { status = record p.status { exhausted = inc p.status.exhausted } },
)
give_up drain handshake elapsed p = (
  serve_locally (handshake - elapsed),
  record p { status = record p.status { local_fallbacks = inc p.status.local_fallbacks } },
)
give_up (spill i) handshake elapsed p = (
  serve_locally (handshake - elapsed),
  record p { status = record p.status { local_fallbacks = inc p.status.local_fallbacks } },
)

-- DRAIN_BUDGET and SPILL_BUDGET
unfoldable pub budget : ForwardMode → ℕ → ℕ
budget down handshake = handshake
budget drain handshake = min (handshake / 2) 2000000000
budget (spill i) handshake = min (handshake / 2) 1000000000

-- A ClientHello that was not peeked at whole cannot be replayed.
unfoldable pub not_replayable : ForwardMode → ℕ → ℕ → Passage → Forwarded × Passage
unfolding give_up
not_replayable down handshake elapsed p = (done (some upstream_connect), p)
not_replayable drain handshake elapsed p = give_up drain handshake elapsed p
not_replayable (spill i) handshake elapsed p = give_up (spill i) handshake elapsed p

unfoldable pub tunnel : Surroundings → Passage → Forwarded × Passage
tunnel e p = (done (if e.is_read then e.copied else some stream), record p { is_consumed = true })

module _ {F : Type 0} where
  abbrev pub arrived : Failover F → Passage
  arrived failover = record {
    peers = failover.peers;
    status = failover.status;
    tried = [];
    is_consumed = false;
  }

  -- `forward_to_peers`, and the next value of the cursor.
  unfoldable pub forward_to_peers :
      Bool → ℕ → Failover F → ForwardMode → ℕ → Surroundings → (Forwarded × Passage) × ℕ
  forward_to_peers complete hello_len failover mode handshake e =
      let p = arrived failover in
      let elapsed = e.finished - e.started in
      let (tries, cursor) = candidates_for mode e.now failover.cursor failover.peers in
      let result =
        attempt_all mode failover.cooldown_min_ns failover.cooldown_max_ns
          (e.started + budget mode handshake) tries.0 e.rounds 0 tries.1 p in
      if not complete || hello_len == 0
      then (not_replayable mode handshake elapsed p, failover.cursor)
      else if tries.0 == 0 || not e.is_prefixed
      then (give_up mode handshake elapsed p, cursor)
      else elim result.0 [
        | none ↦ (give_up mode handshake elapsed result.1, cursor)
        | some place ↦ (tunnel e result.1, cursor)
      ]
