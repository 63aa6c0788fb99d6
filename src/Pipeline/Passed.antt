-- ===== src/Pipeline/Passed.antt =====
-- src/proxy_conn.rs: what a connection has passed that goes on, said of the configuration and of what
-- arrives alone.
use symphony.Prelude.{
  Bytes, Result-cases, ok, err, Bool-cases, Option-cases, ℕ, ◌≤◌, ◌≡◌, refl, ap, ◌∙◌, ◌⊎◌, inl, inr,
  Bool, true, false, not, Option, none, some, List, [], ◌∷◌, arith,
}
use symphony.Float.{Float64}
use symphony.Net.{IpAddr, SocketAddr, to_canonical}
use symphony.Ingress.{Header, HeaderReject}
use symphony.Protection
use symphony.TokenBucket.{refilled, consume, refill_and_consume}
use symphony.Router.{
  bucket_floats, try_acquire, RouteTokenBucket, Route, RouteTable, permits, resolve_with,
}
use symphony.Router.Spec.{IpNetwork}
use symphony.Pipeline.{
  Verdict, untrusted_source, rejected, answers, Arrival, client_of, is_some, is_permitted, acquire,
}

abbrev pub is_block : Option Protection.Decision → Bool
is_block none = false
is_block (some (Protection.Decision.block reason)) = true
is_block (some (Protection.Decision.allow place)) = false
is_block (some Protection.Decision.allow_bypassed) = false

module _ (contains : IpNetwork → IpAddr → Bool) where
  -- Some network of the list has the address, in its canonical form.
  abbrev pub LetsIn : List IpNetwork → IpAddr → Type 0
  LetsIn [] ip = ⊥
  LetsIn (network ∷ networks) ip = (contains network (to_canonical ip) ≡ true) ⊎ LetsIn networks ip

  permits-LetsIn :
      (networks : List IpNetwork) (ip : IpAddr)
      → permits contains networks ip ≡ true
      → LetsIn networks ip
  unfolding permits
  permits-LetsIn [] ip h = absurd (ground arith)
  permits-LetsIn (network ∷ networks) ip h =
      elim (Bool-cases (contains network (to_canonical ip))) [
        | inl y ↦ inl y
        | inr n ↦ inr (permits-LetsIn networks ip (rw n at h))
      ]

  -- The client is who connected, or on a failover ingress whom the header of a trusted peer names.
  pub data IsClient (ingress : Option (List IpNetwork)) (a : Arrival) (client : SocketAddr)
      : Type 0 where
    direct : ingress ≡ none → client ≡ a.peer_addr → IsClient ingress a client
    asserted :
        (trusted : List IpNetwork)
        → ingress ≡ some trusted
        → LetsIn trusted a.peer_addr.ip
        → a.header ≡ ok (Header.proxy client)
        → IsClient ingress a client

  client_of-IsClient :
      {F Config : Type 0} (ingress : Option (List IpNetwork)) (a : Arrival) (client : SocketAddr)
      → client_of {F = F} {Config = Config} contains ingress a ≡ ok client
      → IsClient ingress a client
  unfolding client_of
  client_of-IsClient none a client h = direct refl (ground arith)
  client_of-IsClient (some trusted) a client h =
      elim (Bool-cases (permits contains trusted a.peer_addr.ip)) [
        | inr n ↦ absurd (ground arith)
        | inl y ↦ elim (Result-cases a.header) [
          | inr (reject, e) ↦ absurd (ground arith)
          | inl (Header.load_query names, e) ↦ absurd (ground arith)
          | inl (Header.proxy source, e) ↦
              let same : source ≡ client = ground arith in
              asserted trusted refl (permits-LetsIn trusted a.peer_addr.ip y)
                (e ∙ ap (λ x. ok (Header.proxy x)) same)
        ]
      ]

  pub client_of-err :
      {F Config : Type 0} (ingress : Option (List IpNetwork)) (a : Arrival)
      (verdict : Verdict F Config)
      → client_of contains ingress a ≡ err verdict
      → (is_some ingress ≡ true)
        × ((verdict ≡ untrusted_source)
            ⊎ (((reject : HeaderReject) × (verdict ≡ rejected reject))
                ⊎ ((names : List (Option Bytes)) × (verdict ≡ answers names))))
  unfolding client_of
  client_of-err none a verdict h = absurd (ground arith)
  client_of-err (some trusted) a verdict h =
      elim (Bool-cases (permits contains trusted a.peer_addr.ip)) [
        | inr n ↦ (refl, inl (ground arith))
        | inl y ↦ elim (Result-cases a.header) [
          | inr (reject, e) ↦ (refl, inr (inl (reject, ground arith)))
          | inl (Header.proxy source, e) ↦ absurd (ground arith)
          | inl (Header.load_query names, e) ↦ (refl, inr (inr (names, ground arith)))
        ]
      ]

module _ {F Config : Type 0} (fl : Float64 F) (contains : IpNetwork → IpAddr → Bool) where
  -- The route lists no sources, or the address is one of those.
  pub data Admits (route : Route F Config IpNetwork) (ip : IpAddr) : Type 0 where
    any_source : route.allowed_sources ≡ none → Admits route ip
    listed :
        (networks : List IpNetwork)
        → route.allowed_sources ≡ some networks
        → LetsIn contains networks ip
        → Admits route ip

  -- The route has no limit, or a whole token, of 1000 parts, in its bucket as it is refilled by then.
  pub data HasToken (now : ℕ) (route : Route F Config IpNetwork) : Type 0 where
    unlimited : route.rate_limiter ≡ none → HasToken now route
    limited :
        (b : RouteTokenBucket F)
        → route.rate_limiter ≡ some b
        → 1000 ≤ (refilled (bucket_floats fl) b.rate_per_ns b.burst_fp now b.bucket).tokens
        → HasToken now route

  is_permitted-Admits :
      (route : Route F Config IpNetwork) (ip : IpAddr)
      → is_permitted contains route ip ≡ true
      → Admits route ip
  unfolding is_permitted
  is_permitted-Admits route ip h = elim (Option-cases route.allowed_sources) [
    | inl e ↦ any_source e
    | inr (networks, e) ↦ listed networks e (permits-LetsIn contains networks ip (ground arith))
  ]

  acquire-HasToken :
      (now : ℕ) (route : Route F Config IpNetwork)
      → (acquire fl now route.rate_limiter).0 ≡ true
      → HasToken now route
  unfolding acquire try_acquire refill_and_consume consume
  acquire-HasToken now route h = elim (Option-cases route.rate_limiter) [
    | inl e ↦ unlimited e
    | inr (b, e) ↦ limited b e (ground arith)
  ]

  pub record HasPassed (ingress : Option (List IpNetwork))
      (check : IpAddr → Option Protection.Decision) (table : RouteTable F Config IpNetwork)
      (a : Arrival) (route : Route F Config IpNetwork) (client : SocketAddr) : Type 0 where
    pub known : IsClient contains ingress a client
    pub unblocked : is_block (check client.ip) ≡ false
    pub routed : resolve_with table a.sni (not (is_some ingress)) ≡ some route
    pub permitted : Admits route client.ip
    pub acquired : HasToken a.now route

  pub checked-HasPassed :
      (ingress : Option (List IpNetwork)) (check : IpAddr → Option Protection.Decision)
      (table : RouteTable F Config IpNetwork) (a : Arrival) (route : Route F Config IpNetwork)
      (client : SocketAddr)
      → client_of {F = F} {Config = Config} contains ingress a ≡ ok client
      → is_block (check client.ip) ≡ false
      → resolve_with table a.sni (not (is_some ingress)) ≡ some route
      → is_permitted contains route client.ip ≡ true
      → (acquire fl a.now route.rate_limiter).0 ≡ true
      → HasPassed ingress check table a route client
  checked-HasPassed ingress check table a route client known unblocked routed permitted acquired =
      record {
        known = client_of-IsClient contains ingress a client known;
        unblocked = unblocked;
        routed = routed;
        permitted = is_permitted-Admits route client.ip permitted;
        acquired = acquire-HasToken a.now route acquired;
      }
