-- ===== src/Failover/Policy.antt =====
-- src/failover.rs: a failover policy as it is configured and as it is taken. Times of a policy are
-- milliseconds; the reading of an IP literal is a parameter.
use symphony.Prelude.{
  length, Bytes, Result, ◌>>=◌, ok, err, ltb, leb, ◌==◌, if◌then◌else◌, ℕ, Bool, true, false, not,
  ◌&&◌, ◌||◌, Option, none, some, List, [], ◌∷◌, ◌++◌,
}
use symphony.Float.{Float64}
use symphony.Net.{IpAddr, SocketAddr}
use symphony.Failover.{eq_addr}

pub data PolicyError : Type 0 where
  no_peers not_an_ip zero_port listed_twice interval_out_of_range max_below_min : PolicyError
  fraction_out_of_range rtt_out_of_range : PolicyError
  -- src/router.rs
  on_default_route spill_on_wildcard : PolicyError

pub record SpillSpec (F : Type 0) : Type 0 where
  pub high_water : Option F
  pub margin : Option F
  pub step : Option F
  pub max_fraction : Option F
  pub max_peer_rtt_ms : Option F

pub record FailoverSpec (F : Type 0) : Type 0 where
  pub peers : List (Bytes × ℕ)
  pub drain : Bool
  pub probe_interval_ms : Option F
  pub cooldown_min_ms : Option F
  pub cooldown_max_ms : Option F
  pub spill : Option (SpillSpec F)

-- The round-trip limit is in nanoseconds.
pub record SpillPolicy (F : Type 0) : Type 0 where
  pub high_water : ℕ
  pub margin : ℕ
  pub step : F
  pub max_fraction : ℕ
  pub max_peer_rtt : Option ℕ

pub record FailoverPolicy (F : Type 0) : Type 0 where
  pub peers : List SocketAddr
  pub drain : Bool
  pub probe_interval : ℕ
  pub cooldown_min : ℕ
  pub cooldown_max : ℕ
  pub spill : Option (SpillPolicy F)

unfoldable pub has_addr : SocketAddr → List SocketAddr → Bool
has_addr addr [] = false
has_addr addr (peer ∷ peers) = eq_addr peer addr || has_addr addr peers

abbrev pub unwrap_or {ℓ} : {A : Type ℓ} → Option A → A → A
unwrap_or none a = a
unwrap_or (some b) a = b

-- The loop over the configured peers, with those that came before.
unfoldable pub parse_peers :
    (Bytes → Option IpAddr)
    → List (Bytes × ℕ)
    → List SocketAddr
    → Result PolicyError (List SocketAddr)
parse_peers parse_ip [] seen = ok seen
parse_peers parse_ip ((host, port) ∷ peers) seen = elim (parse_ip host) [
  | none ↦ err not_an_ip
  | some ip ↦
      let addr : SocketAddr = record { ip = ip; port = port } in
      let rest = parse_peers parse_ip peers (seen ++ addr ∷ []) in
      if port == 0 then err zero_port else if has_addr addr seen then err listed_twice else rest
]

module _ {F : Type 0} (fl : Float64 F) where
  -- The literal `n / 1000`.
  abbrev pub milli : ℕ → F
  milli n = fl.div (fl.of_nat n) (fl.of_nat 1000)

  -- In permille.
  unfoldable pub fraction : Option F → F → F → Result PolicyError F
  fraction value default min_value =
      let v = unwrap_or value default in
      if fl.is_finite v && fl.is_le min_value v && fl.is_le v (fl.of_nat 1)
      then ok (fl.mul v (fl.of_nat 1000))
      else err fraction_out_of_range

  unfoldable pub parse_max_peer_rtt : Option F → Result PolicyError (Option ℕ)
  parse_max_peer_rtt none = ok none
  parse_max_peer_rtt (some ms) =
      if fl.is_finite ms && not (fl.is_le ms (fl.of_nat 0)) && fl.is_le ms (fl.of_nat 60000)
      then ok (some (fl.secs_to_ns (fl.div ms (fl.of_nat 1000))))
      else err rtt_out_of_range

  -- `SpillSpec::parse`
  unfoldable pub parse_spill : SpillSpec F → Result PolicyError (SpillPolicy F)
  parse_spill spec = do
    max_peer_rtt ← parse_max_peer_rtt spec.max_peer_rtt_ms
    high_water ← fraction spec.high_water (milli 750) (milli 1)
    margin ← fraction spec.margin (milli 200) (milli 2)
    step ← fraction spec.step (milli 50) (milli 1)
    max_fraction ← fraction spec.max_fraction (milli 500) (milli 1)
    ok (record {
      high_water = fl.to_u32 (fl.round high_water);
      margin = fl.to_u32 (fl.round margin);
      step = step;
      max_fraction = fl.to_u32 (fl.round max_fraction);
      max_peer_rtt = max_peer_rtt;
    })

  unfoldable pub bounded_ms : Option F → F → ℕ → Result PolicyError ℕ
  bounded_ms value default min_ms =
      let ms = unwrap_or value default in
      if fl.is_finite ms && fl.is_le (fl.of_nat min_ms) ms && fl.is_le ms (fl.of_nat 86400000)
      then ok (fl.to_u64 ms)
      else err interval_out_of_range

  abbrev pub checked : Bool → PolicyError → Result PolicyError (Unit {0})
  checked true e = ok tt
  checked false e = err e

  -- `FailoverSpec::parse`
  unfoldable pub parse_policy :
      (Bytes → Option IpAddr) → FailoverSpec F → Result PolicyError (FailoverPolicy F)
  parse_policy parse_ip spec = do
    none_missing ← checked (ltb 0 (length spec.peers)) no_peers
    peers ← parse_peers parse_ip spec.peers []
    probe_interval ← bounded_ms spec.probe_interval_ms (fl.of_nat 1000) 10
    cooldown_min ← bounded_ms spec.cooldown_min_ms (fl.of_nat 5000) 1
    cooldown_max ←
        bounded_ms spec.cooldown_max_ms (fl.max_of (fl.of_nat 60000) (fl.of_nat cooldown_min)) 1
    in_order ← checked (leb cooldown_min cooldown_max) max_below_min
    ok (record {
      peers = peers;
      drain = spec.drain;
      probe_interval = probe_interval;
      cooldown_min = cooldown_min;
      cooldown_max = cooldown_max;
      spill = none;
    })
