-- ===== src/Router/Samples.antt =====
-- src/router.rs: a listener's configuration at two reloads, and surroundings for it.
use symphony.Prelude.{
  length, Bytes, leb, ◌==◌, if◌then◌else◌, ℕ, zero, suc, ◌+◌, ◌-◌, ◌*◌, ◌/◌, min, max, Bool, true,
  false, Option, none, some, List, [], ◌∷◌, arith,
}
use symphony.Float.{Float64, IsBounding}
use symphony.Net.{IpAddr, v4}
use symphony.Tls.{CacheKey, TlsLibrary}
use symphony.Router.{not_forwarded, opaque}
use symphony.Router.Spec.{UpstreamSpec, RouteSpec, ListenerTlsSpec, network_v4}
use symphony.Router.Build.{Outside}

-- Whole numbers, rounded down.
abbrev pub whole : Float64 ℕ
whole = record {
  of_nat = λ n. n;
  add = λ x y. x + y;
  sub = λ x y. x - y;
  mul = λ x y. x * y;
  div = λ x y. x / y;
  neg = λ x. 0 - x;
  exp = λ x. 1;
  min_of = λ x y. min x y;
  max_of = λ x y. max x y;
  clamp = λ x low high. min (max x low) high;
  round = λ x. x;
  is_finite = λ x. true;
  is_le = λ x y. leb x y;
  is_eq = λ x y. x == y;
  secs_to_ns = λ x. x * 1000000000;
  to_u32 = λ x. min x 4294967295;
  to_u64 = λ x. min x 18446744073709551615;
}

pub whole-IsBounding : IsBounding whole
whole-IsBounding = record {
  to_u32-min_of-le = λ x n h. omega arith;
  to_u32-clamp-le = λ x n h. omega arith;
  of_nat-le-to_u64 = λ x n h k. ground arith;
  to_u64-le-of_nat = λ x n h k. ground arith;
}

-- A key that begins with 0 does not fit its certificate.
abbrev pub fits : Bytes → Bool
fits [] = false
fits (zero ∷ key) = false
fits (suc b ∷ key) = true

-- A digest that tells all texts apart.
abbrev pub tls : TlsLibrary ℕ
tls = record {
  sha256 = λ b. 1 ∷ b;
  build_server_config = λ cert mtls http2.
      if fits cert.private_key_pem then some (length cert.cert_chain_pem) else none;
}

abbrev pub nothing_held : CacheKey → Bool
nothing_held key = false

abbrev pub around : Outside ℕ ℕ
around = record {
  floats = whole;
  parse_addr = λ host port. some (record { ip = v4 host; port = port });
  parse_network = λ entry. some (network_v4 entry 8);
  tls = tls;
  is_held = nothing_held;
  now_ns = 1;
}

abbrev pub parse_ip : Bytes → Option IpAddr
parse_ip host = some (v4 host)

abbrev pub listener : ListenerTlsSpec
listener = record {
  cert_pem = some (7 ∷ 7 ∷ []);
  key_pem = none;
  mtls_ca_pem = none;
  require_client_cert = true;
}

-- "a.b"
abbrev pub name : Bytes
name = b'a' ∷ b'.' ∷ b'b' ∷ []

-- With a client CA, and a key that is given.
abbrev pub spec_with : Bytes → Bytes → RouteSpec ℕ
spec_with sni key = record {
  sni = sni;
  metrics_group = [];
  upstreams = UpstreamSpec.tcp (10 ∷ 0 ∷ 0 ∷ 1 ∷ []) 80 ∷ [];
  terminate_tls = true;
  cert_pem = none;
  key_pem = some key;
  mtls_ca_pem = some (5 ∷ []);
  require_client_cert = true;
  suspended = false;
  suspend_timeout_ms = 1000;
  max_cps = none;
  burst = none;
  source_address_mode = not_forwarded;
  forward_fingerprint = record { ja3 = false; ja4 = false };
  http2 = false;
  protocol = opaque;
  allowed_sources = (10 ∷ []) ∷ [];
  failover = none;
}

-- The default route, and the name.
abbrev pub specs : List (RouteSpec ℕ)
specs = spec_with [] (1 ∷ []) ∷ spec_with name (1 ∷ []) ∷ []

-- In the middle of a rotation, the key of the name does not fit.
abbrev pub rotating : List (RouteSpec ℕ)
rotating = spec_with [] (1 ∷ []) ∷ spec_with name (0 ∷ []) ∷ []
