-- ===== src/Failover/Spill.antt =====
-- src/failover.rs: the failover state of a route, and its spill-over controller. What the poll of
-- a peer's load found last stands in the peer.
use symphony.Prelude.{
  get_elem?, ltb, leb, ◌==◌, if◌then◌else◌, ℕ, suc, ◌+◌, ◌-◌, ◌*◌, ◌/◌, ◌%◌, min, max, Bool, true,
  false, not, ◌&&◌, ◌||◌, Option, none, some, List, [], ◌∷◌,
}
use symphony.Float.{Float64}
use symphony.Balancer.{SlotHealth, all_refusing}
use symphony.Destination.{Destination, tcp, uds_set}
use symphony.Failover.{u64_size, FailoverPeer, cooling_down, report, rtt}
use symphony.Failover.Policy.{SpillPolicy}

pub record FailoverStatus : Type 0 where
  pub reported_down : Bool
  pub last_probe_ns : ℕ
  pub replays : ℕ
  pub exhausted : ℕ
  pub local_fallbacks : ℕ

abbrev pub new_status : FailoverStatus
new_status = record {
  reported_down = false;
  last_probe_ns = 0;
  replays = 0;
  exhausted = 0;
  local_fallbacks = 0;
}

pub record Controller (F : Type 0) : Type 0 where
  pub fraction : F
  pub last_ns : ℕ

pub record SpillState (F : Type 0) : Type 0 where
  pub admission_word : ℕ
  pub controller : Controller F

pub record Spill (F : Type 0) : Type 0 where
  pub policy : SpillPolicy F
  pub state : SpillState F

pub record Failover (F : Type 0) : Type 0 where
  pub drain : Bool
  pub probe_interval_ns : ℕ
  pub cooldown_min_ns : ℕ
  pub cooldown_max_ns : ℕ
  pub peers : List FailoverPeer
  pub cursor : ℕ
  pub tcp_health : Option SlotHealth
  pub status : FailoverStatus
  pub spill : Option (Spill F)

pub record Admission : Type 0 where
  pub fraction : ℕ
  pub target : ℕ
  pub until_ms : ℕ

unfoldable pub pack : Admission → ℕ
pack a = a.until_ms * 67108864 % u64_size + a.target % 65536 * 1024 + min a.fraction 1000

unfoldable pub unpack : ℕ → Option Admission
unpack packed =
    if packed % 1024 == 0
    then none
    else some (record {
      fraction = packed % 1024;
      target = packed / 1024 % 65536;
      until_ms = packed / 67108864;
    })

-- `SpillState::admission`
unfoldable pub admission : ℕ → ℕ → Option Admission
admission now_ms packed = elim (unpack packed) [
  | none ↦ none
  | some a ↦ if ltb now_ms a.until_ms then some a else none
]

-- The place of the peer to spill to; the word is cleared when it is out of date. `client_hash` is the
-- salted hash of the client's address and port.
unfoldable pub spill_target : List FailoverPeer → ℕ → ℕ → ℕ → Option ℕ × ℕ
spill_target peers client_hash now packed = elim (unpack packed) [
  | none ↦ (none, packed)
  | some a ↦ if leb a.until_ms (now / 1000000) then (none, 0) else elim (get_elem? peers a.target) [
    | none ↦ (none, packed)
    | some peer ↦
        if ltb (client_hash % 1000) a.fraction && not (cooling_down now peer)
        then (some a.target, packed)
        else (none, packed)
  ]
]

module _ {F : Type 0} where
  unfoldable pub tcp_refusing : Failover F → Bool
  tcp_refusing f = elim f.tcp_health [ none ↦ false | some h ↦ not (h.refused_at_ns == 0) ]

  unfoldable pub destination_down : Failover F → Destination → Bool
  destination_down f (tcp addr) = tcp_refusing f
  destination_down f (uds_set balancer) = all_refusing balancer

  unfoldable pub locally_down : Failover F → Destination → Option Destination → Bool
  locally_down f destination destination_h2 =
      destination_down f destination
      || elim destination_h2 [ none ↦ false | some h2 ↦ destination_down f h2 ]

  unfoldable pub report_ttl_ms : Failover F → ℕ
  report_ttl_ms f = max (3 * f.probe_interval_ns) 3000000000 / 1000000

pub data Trend : Type 0 where
  rise hold decay : Trend

pub record PeerView : Type 0 where
  pub load : Option ℕ
  pub report_until_ms : ℕ
  pub cooling : Bool
  pub rtt_ns : Option ℕ

abbrev pub Target : Type 0
Target = ℕ × ℕ × ℕ

-- Whether a peer that takes `rtt` to reach is near enough.
unfoldable pub within : Option ℕ → Option ℕ → Bool
within none rtt = true
within (some limit) none = false
within (some limit) (some rtt) = leb rtt limit

unfoldable pub eligible : Option ℕ → ℕ → PeerView → Bool
eligible max_peer_rtt now_ms p =
    ltb now_ms p.report_until_ms && not p.cooling && within max_peer_rtt p.rtt_ns

-- The peers that may be spilled to: place, load and the end of the report.
unfoldable pub targets : Option ℕ → ℕ → ℕ → List PeerView → List Target
targets max_peer_rtt now_ms i [] = []
targets max_peer_rtt now_ms i (p ∷ peers) =
    let rest = targets max_peer_rtt now_ms (suc i) peers in
    if eligible max_peer_rtt now_ms p
    then elim p.load [ none ↦ rest | some load ↦ (i, load, p.report_until_ms) ∷ rest ]
    else rest

-- `min_by_key` by the load: the first of the least.
unfoldable pub least : List Target → Option Target
least [] = none
least (one ∷ others) = elim (least others) [
  | none ↦ some one
  | some best ↦ if leb one.1 best.1 then some one else some best
]

-- The trend for a local load and the best target.
unfoldable pub compared : ℕ → ℕ → ℕ → ℕ → Target → Trend × Option (ℕ × ℕ)
compared high_water margin load local_until_ms best =
    let target : Option (ℕ × ℕ) = some (best.0, min local_until_ms best.2) in
    if leb high_water load && leb (best.1 + margin) load
    then (rise, target)
    else if leb (2 * high_water) (2 * load + margin) && leb (2 * best.1 + margin) (2 * load)
    then (hold, target)
    else (decay, none)

module _ {F : Type 0} where
  unfoldable pub assess :
      SpillPolicy F → Option (ℕ × ℕ) → List PeerView → ℕ → Trend × Option (ℕ × ℕ)
  assess policy none peers now_ms = (decay, none)
  assess policy (some (load, until)) peers now_ms =
      if ltb now_ms until
      then elim (least (targets policy.max_peer_rtt now_ms 0 peers)) [
        | none ↦ (decay, none)
        | some best ↦ compared policy.high_water policy.margin load until best
      ]
      else (decay, none)

module _ {F : Type 0} (fl : Float64 F) where
  unfoldable pub moved : Trend → F → F → F
  moved rise fraction delta = fl.add fraction delta
  moved hold fraction delta = fraction
  moved decay fraction delta = fl.sub fraction delta

  unfoldable pub elapsed_since : ℕ → ℕ → ℕ
  elapsed_since last_ns now = if last_ns == 0 then 0 else min (now - last_ns) 1000000000

  unfoldable pub next_fraction : SpillPolicy F → Trend → Controller F → ℕ → F
  next_fraction policy trend controller now =
      let elapsed = elapsed_since controller.last_ns now in
      let delta = fl.div (fl.mul policy.step (fl.of_nat elapsed)) (fl.of_nat 1000000000) in
      fl.clamp (moved trend controller.fraction delta) (fl.of_nat 0) (fl.of_nat policy.max_fraction)

  unfoldable pub admit : F → Option (ℕ × ℕ) → Option Admission
  admit fraction none = none
  admit fraction (some (target, until_ms)) =
      let permille = fl.to_u32 (fl.round fraction) in
      if ltb 0 permille
      then some (record { fraction = permille; target = target; until_ms = until_ms })
      else none

  abbrev pub word_of : Option Admission → ℕ
  word_of none = 0
  word_of (some a) = pack a

  unfoldable pub control : Spill F → Option (ℕ × ℕ) → List PeerView → ℕ → Option Admission × Spill F
  control spill load peers now =
      let assessed = assess spill.policy load peers (now / 1000000) in
      let fraction = next_fraction spill.policy assessed.0 spill.state.controller now in
      let admitted = admit fraction assessed.1 in
      (
        admitted,
        record spill {
          state = record {
            admission_word = word_of admitted;
            controller = record { fraction = fraction; last_ns = now };
          };
        },
      )

-- What the controller sees of a peer.
unfoldable pub view : ℕ → ℕ → FailoverPeer → PeerView
view ttl_ms now peer = record {
  load = elim (report peer) [ none ↦ none | some (load, at_ms) ↦ some load ];
  report_until_ms = elim (report peer) [ none ↦ 0 | some (load, at_ms) ↦ at_ms + ttl_ms ];
  cooling = cooling_down now peer;
  rtt_ns = elim (rtt peer) [ none ↦ none | some micros ↦ some (micros * 1000) ];
}
