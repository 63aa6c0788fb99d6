-- ===== src/Pipeline.antt =====
-- src/proxy_conn.rs: `handle`, from the address of a connection to the decision who serves it, with the
-- forwarding to peers. What the header reader, the peek, the protection and the attempts at peers come
-- to are given; the closing of a connection, its counters and its events are left out.
use symphony.Prelude.{
  Bytes, Result, ok, err, if◌then◌else◌, ℕ, Bool, true, false, not, Option, none, some, List,
}
pub mod Passed
pub mod Verdicts
pub mod Served
mod Tests
use symphony.Float.{Float64}
use symphony.Net.{IpAddr, SocketAddr}
use symphony.Ingress.{Header, HeaderReject}
use symphony.Protection
use symphony.Protection.{BlockReason}
use symphony.Failover.{Decision, ForwardMode, decide}
use symphony.Failover.Forward.{
  ErrorKind, Forwarded, done, serve_locally, Surroundings, Passage, forward_to_peers,
}
use symphony.Failover.Spill.{Failover, locally_down, spill_target}
use symphony.Router.{RouteTokenBucket, Route, RouteTable, permits, try_acquire, resolve_with}
use symphony.Router.Spec.{IpNetwork}

-- How a connection goes on, or ends.
pub data Verdict (F Config : Type 0) : Type 0 where
  untrusted_source no_route source_not_allowed route_rate_limited locally_refused : Verdict F Config
  rejected : HeaderReject → Verdict F Config
  answers : List (Option Bytes) → Verdict F Config
  blocked : BlockReason → Verdict F Config
  -- How the forwarding ended, and what was left of the handshake's time.
  handed : Route F Config IpNetwork → SocketAddr → ForwardMode → Option ErrorKind → Verdict F Config
  suspends : Route F Config IpNetwork → SocketAddr → ℕ → Verdict F Config
  serves : Route F Config IpNetwork → SocketAddr → ℕ → Verdict F Config

-- `header` is what the header reader makes of the stream, `hash` the salted hash of the client, `now`
-- and `later` the clock at the rate limit and at the spill-over. `complete` and `hello_len` are of the
-- ClientHello that was peeked at, `handshake` is the handshake's time, and `surroundings` is what a
-- forwarding finds.
pub record Arrival : Type 0 where
  pub peer_addr : SocketAddr
  pub header : Result HeaderReject Header
  pub sni : Option Bytes
  pub hash : SocketAddr → ℕ
  pub now : ℕ
  pub later : ℕ
  pub complete : Bool
  pub hello_len : ℕ
  pub handshake : ℕ
  pub surroundings : Surroundings

abbrev pub is_some : Option (List IpNetwork) → Bool
is_some none = false
is_some (some networks) = true

module _ {F Config : Type 0} (contains : IpNetwork → IpAddr → Bool) where
  -- The client's address, which a trusted peer asserts on a failover ingress.
  unfoldable pub client_of :
      Option (List IpNetwork) → Arrival → Result (Verdict F Config) SocketAddr
  client_of none a = ok a.peer_addr
  client_of (some trusted) a =
      if permits contains trusted a.peer_addr.ip
      then elim a.header [
        | err reject ↦ err (rejected reject)
        | ok header ↦ elim header [
          | Header.proxy source ↦ ok source
          | Header.load_query names ↦ err (answers names)
        ]
      ]
      else err untrusted_source

  unfoldable pub is_permitted : Route F Config IpNetwork → IpAddr → Bool
  is_permitted route ip = elim route.allowed_sources [
    | none ↦ true
    | some networks ↦ permits contains networks ip
  ]

module _ {F : Type 0} (fl : Float64 F) where
  -- One token of the route, and the bucket that is left.
  unfoldable pub acquire : ℕ → Option (RouteTokenBucket F) → Bool × Option (RouteTokenBucket F)
  acquire now none = (true, none)
  acquire now (some bucket) = let r = try_acquire fl now bucket in (r.0, some r.1)

module _ {F : Type 0} where
  abbrev pub spill_peer : Failover F → ℕ → ℕ → Option ℕ
  spill_peer f hash later = elim f.spill [
    | none ↦ none
    | some spill ↦ (spill_target f.peers hash later spill.state.admission_word).0
  ]

module _ {F Config : Type 0} where
  abbrev pub here : Route F Config IpNetwork → SocketAddr → ℕ → Verdict F Config
  here route client left =
      if route.suspended then suspends route client left else serves route client left

  -- What becomes of a connection that was to be forwarded: one that no peer has taken may fall through.
  abbrev pub fallen_through :
      Route F Config IpNetwork
      → SocketAddr
      → ForwardMode
      → (Forwarded × Passage) × ℕ
      → Verdict F Config × Option (Passage × ℕ)
  fallen_through route client mode ((done end, p), cursor) =
      (handed route client mode end, some (p, cursor))
  fallen_through route client mode ((serve_locally left, p), cursor) =
      (here route client left, some (p, cursor))

  -- Also the passage of a forwarding, with the next cursor.
  unfoldable pub steer :
      Bool
      → Route F Config IpNetwork
      → SocketAddr
      → Arrival
      → Verdict F Config × Option (Passage × ℕ)
  steer ingress route client a = elim route.failover [
    | none ↦ (here route client a.handshake, none)
    | some f ↦
        elim (decide ingress route.suspended (locally_down f route.destination route.destination_h2)
          f.drain (spill_peer f (a.hash client) a.later)) [
            | Decision.refuse ↦ (locally_refused, none)
            | Decision.local ↦ (here route client a.handshake, none)
            | Decision.forward mode ↦
                fallen_through route client mode
                  (forward_to_peers a.complete a.hello_len f mode a.handshake a.surroundings)
          ]
  ]

-- The verdict, what is left of the route's tokens, and the passage of a forwarding.
pub record Handled (F Config : Type 0) : Type 0 where
  pub verdict : Verdict F Config
  pub rate_limiter : Option (RouteTokenBucket F)
  pub forwarding : Option (Passage × ℕ)

module _ {F Config : Type 0} where
  abbrev pub ends_with : Verdict F Config → Option (RouteTokenBucket F) → Handled F Config
  ends_with verdict bucket = record { verdict = verdict; rate_limiter = bucket; forwarding = none }

module _ {F Config : Type 0} (fl : Float64 F) (contains : IpNetwork → IpAddr → Bool) where
  unfoldable pub on_route :
      Bool → Arrival → SocketAddr → Route F Config IpNetwork → Handled F Config
  on_route ingress a client route =
      let acquired = acquire fl a.now route.rate_limiter in
      let steered = steer ingress route client a in
      if is_permitted contains route client.ip
      then if acquired.0
        then record { verdict = steered.0; rate_limiter = acquired.1; forwarding = steered.1 }
        else ends_with route_rate_limited acquired.1
      else ends_with source_not_allowed route.rate_limiter

  -- `check` is what the protection of the listener says, if it has one. A name that has no route
  -- spends no token.
  unfoldable pub handle :
      Option (List IpNetwork)
      → (IpAddr → Option Protection.Decision)
      → RouteTable F Config IpNetwork
      → Arrival
      → Handled F Config
  handle ingress check table a = elim (client_of contains ingress a) [
    | err verdict ↦ ends_with verdict none
    | ok client ↦
        let found =
          elim (resolve_with table a.sni (not (is_some ingress))) as (λ _. Handled F Config) [
            | none ↦ ends_with no_route none
            | some route ↦ on_route (is_some ingress) a client route
          ] in
        elim (check client.ip) [
          | none ↦ found
          | some decision ↦ elim decision [
            | Protection.Decision.block reason ↦ ends_with (blocked reason) none
            | Protection.Decision.allow_bypassed ↦ found
            | Protection.Decision.allow place ↦ found
          ]
        ]
  ]
