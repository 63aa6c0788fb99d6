-- ===== src/Router.antt =====
-- src/router.rs: the routes of a listener, and which one answers for a name. Names are their bytes,
-- maps are lists. `f64`, a TLS configuration and the CIDR networks of a crate are parameters.
use symphony.Prelude.{
  length, get_or, take, drop, Bytes, eq_bytes, starts_with, leb, ◌==◌, if◌then◌else◌, ℕ, ◌+◌, ◌-◌,
  Bool, true, false, not, ◌&&◌, ◌||◌, Option, none, some, List, [], ◌∷◌,
}
pub mod Spec
pub mod Slots
pub mod Build
pub mod Install
pub mod Table
pub mod Planned
pub mod Asked
pub mod Admitted
pub mod Names
pub mod Caching
pub mod Deciding
pub mod Enforced
pub mod Resolved
pub mod Reloads
pub mod Samples
mod Tests
use symphony.Net.{IpAddr, to_canonical}
use symphony.Float.{Float64}
use symphony.TokenBucket.{Floats, refill_and_consume, Bucket}
use symphony.Balancer.{UdsBalancer}
use symphony.Destination.{Destination, route_load}
use symphony.Failover.Spill.{Failover, locally_down}

pub data SourceAddressMode : Type 0 where
  not_forwarded proxy_protocol proxy_protocol_v2 x_forwarded_for : SourceAddressMode

pub record ForwardFingerprint : Type 0 where
  pub ja3 : Bool
  pub ja4 : Bool

abbrev pub is_empty : ForwardFingerprint → Bool
is_empty f = not f.ja3 && not f.ja4

pub data RouteProtocol : Type 0 where
  opaque http : RouteProtocol

unfoldable pub requires_http_protocol : SourceAddressMode → ForwardFingerprint → Bool
requires_http_protocol x_forwarded_for fingerprint = true
requires_http_protocol proxy_protocol_v2 fingerprint = false
requires_http_protocol proxy_protocol fingerprint = not (is_empty fingerprint)
requires_http_protocol not_forwarded fingerprint = not (is_empty fingerprint)

pub record RouteTokenBucket (F : Type 0) : Type 0 where
  pub bucket : Bucket
  pub rate_per_ns : F
  pub burst_fp : ℕ

-- `counters` is the place of the counters, which tells identities apart.
module _ {F : Type 0} (fl : Float64 F) where
  -- What the buckets of src/protection.rs use of `f64`.
  abbrev pub bucket_floats : Floats F
  bucket_floats = record {
    of_nat = fl.of_nat;
    mul = fl.mul;
    div = fl.div;
    positive = λ x. not (fl.is_le x (fl.of_nat 0));
    to_u32 = fl.to_u32;
  }

  unfoldable pub try_acquire : ℕ → RouteTokenBucket F → Bool × RouteTokenBucket F
  try_acquire now b =
      let r = refill_and_consume bucket_floats b.rate_per_ns b.burst_fp now b.bucket in
      (r.0, record b { bucket = r.1 })

pub record RouteMetricIdentity : Type 0 where
  pub route : Bytes
  pub group : Bytes
  pub counters : ℕ

abbrev pub any {ℓ} : {A : Type ℓ} → (A → Bool) → List A → Bool
any p [] = false
any p (x ∷ xs) = p x || any p xs

-- An allowlist is the list of its networks.
unfoldable pub permits {ℓ} : {N : Type ℓ} → (N → IpAddr → Bool) → List N → IpAddr → Bool
permits contains networks peer = any (λ n. contains n (to_canonical peer)) networks

pub record Route (F Config Network : Type 0) : Type 0 where
  pub metric_identity : RouteMetricIdentity
  pub destination : Destination
  pub destination_h2 : Option Destination
  pub tls_config : Option Config
  pub terminate_tls : Bool
  pub suspended : Bool
  pub suspend_timeout_ms : ℕ
  pub rate_limiter : Option (RouteTokenBucket F)
  pub source_address_mode : SourceAddressMode
  pub forward_fingerprint : ForwardFingerprint
  pub protocol : RouteProtocol
  pub allowed_sources : Option (List Network)
  pub failover : Option (Failover F)
  pub requires_client_cert : Bool

-- The digest of the client CA, and whether a certificate is required.
pub data ClientAuth : Type 0 where
  passthrough no_client_cert : ClientAuth
  client_cert : Bytes → Bool → ClientAuth

pub record FailoverRoute (F : Type 0) : Type 0 where
  pub identity : RouteMetricIdentity
  pub failover : Failover F
  pub destination : Destination
  pub destination_h2 : Option Destination

-- What is derived from the routes for the metrics is left out.
pub record RouteTable (F Config Network : Type 0) : Type 0 where
  pub exact : List (Bytes × Route F Config Network)
  pub wildcard : List (Bytes × Route F Config Network)
  pub default : Option (Route F Config Network)
  pub monitored_balancers : List UdsBalancer
  pub affinity_balancers : List UdsBalancer
  pub failing_snis : List Bytes
  pub invalid_failover : List Bytes
  pub invalid_spill : List Bytes
  pub dropped_exact : List Bytes
  pub dropped_wildcard : List Bytes
  pub client_auth : List (Bytes × ClientAuth)
  pub failover_routes : List (FailoverRoute F)

-- Whether a name is one of a set.
unfoldable pub has : Bytes → List Bytes → Bool
has name [] = false
has name (n ∷ names) = eq_bytes n name || has name names

-- `HashSet::insert`
unfoldable pub insert : Bytes → List Bytes → List Bytes
unfolding has
insert name names = if has name names then names else name ∷ names

-- `HashSet::extend`
unfoldable pub insert_all : List Bytes → List Bytes → List Bytes
insert_all [] names = names
insert_all (n ∷ more) names = insert_all more (insert n names)

unfoldable pub lookup {ℓ} : {A : Type ℓ} → Bytes → List (Bytes × A) → Option A
lookup name [] = none
lookup name ((n, a) ∷ pairs) = if eq_bytes n name then some a else lookup name pairs

-- `HashMap::insert`
unfoldable pub put {ℓ} : {A : Type ℓ} → Bytes → A → List (Bytes × A) → List (Bytes × A)
put name a [] = (name, a) ∷ []
put name a ((n, b) ∷ pairs) =
    let rest = put name a pairs in if eq_bytes n name then (n, a) ∷ pairs else (n, b) ∷ rest

-- "*."
abbrev pub wildcard_prefix : Bytes
wildcard_prefix = b'*' ∷ b'.' ∷ []

-- `strip_prefix("*.")`
unfoldable pub strip_wildcard : Bytes → Option Bytes
strip_wildcard sni = if starts_with wildcard_prefix sni then some (drop 2 sni) else none

unfoldable pub has_dot : Bytes → Bool
has_dot [] = false
has_dot (c ∷ name) = c == b'.' || has_dot name

unfoldable pub wildcard_suffix_matches : Bytes → Bytes → Bool
wildcard_suffix_matches sni suffix =
    let dot_pos = length sni - length suffix - 1 in
    if leb (length sni) (length suffix + 1)
    then false
    else get_or sni dot_pos 0 == b'.'
      && eq_bytes (drop (dot_pos + 1) sni) suffix
      && not (has_dot (take dot_pos sni))

-- The first suffix that the name matches.
unfoldable pub first_match {ℓ} : {A : Type ℓ} → Bytes → List (Bytes × A) → Option A
first_match sni [] = none
first_match sni ((suffix, a) ∷ pairs) =
    let rest = first_match sni pairs in if wildcard_suffix_matches sni suffix then some a else rest

unfoldable pub matches_any : Bytes → List Bytes → Bool
matches_any sni [] = false
matches_any sni (suffix ∷ suffixes) = wildcard_suffix_matches sni suffix || matches_any sni suffixes

abbrev pub count_some {ℓ} : {A : Type ℓ} → Option A → ℕ
count_some none = 0
count_some (some a) = 1

module _ {F Config Network : Type 0} where
  unfoldable pub route_count : RouteTable F Config Network → ℕ
  route_count t = length t.exact + length t.wildcard + count_some t.default

  -- The names of the three sets, each once.
  unfoldable pub failing_route_count : RouteTable F Config Network → ℕ
  failing_route_count t =
      length (insert_all t.invalid_spill (insert_all t.invalid_failover t.failing_snis))

  unfoldable pub or_default : RouteTable F Config Network → Bool → Option (Route F Config Network)
  or_default t allow_default = if allow_default then t.default else none

  unfoldable pub resolve_name :
      RouteTable F Config Network → Bytes → Bool → Option (Route F Config Network)
  resolve_name t sni allow_default = elim (lookup sni t.exact) [
    | some route ↦ some route
    | none ↦ if has sni t.dropped_exact then none else elim (first_match sni t.wildcard) [
      | some route ↦ some route
      | none ↦ if matches_any sni t.dropped_wildcard then none else or_default t allow_default
    ]
  ]

  unfoldable pub resolve_with :
      RouteTable F Config Network → Option Bytes → Bool → Option (Route F Config Network)
  resolve_with t none allow_default = or_default t allow_default
  resolve_with t (some sni) allow_default = resolve_name t sni allow_default

  unfoldable pub get_for_spec_sni :
      RouteTable F Config Network → Bytes → Option (Route F Config Network)
  get_for_spec_sni t sni = elim (strip_wildcard sni) [
    | some suffix ↦ lookup suffix t.wildcard
    | none ↦ if length sni == 0 then t.default else lookup sni t.exact
  ]

  unfoldable pub out_of_service : Route F Config Network → Bool
  out_of_service r = elim r.failover [
    | none ↦ false
    | some f ↦ f.drain || locally_down f r.destination r.destination_h2
  ]

  -- What a peer is told of the route for a name.
  unfoldable pub load_answer : (ℕ → ℕ) → RouteTable F Config Network → Bytes → ℕ → Option ℕ
  load_answer published t name now = elim (lookup name t.exact) [
    | none ↦ none
    | some r ↦
        if r.suspended || out_of_service r
        then none
        else elim (route_load published r.destination r.destination_h2 now) [
          | none ↦ none
          | some (load, until_ms) ↦ some load
        ]
  ]
