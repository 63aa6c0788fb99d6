-- ===== src/Protection/Table.antt =====
-- src/protection.rs: `check_at`, `evict_at` and `blocked_ips`, on the table of addresses.
use symphony.Prelude.{
  length, get_or, set, ◌==◌, if◌then◌else◌, ℕ, Bool, true, false, not, ◌&&◌, ◌||◌, Option, none,
  some, List, [], ◌∷◌, ◌++◌,
}
use symphony.Sni.{PeekInfo}
use symphony.Net.{IpAddr, to_canonical}
use symphony.Hex.{hex_to_bytes16}
use symphony.TokenBucket.{Floats}
use symphony.Protection.{
  reported, ProtectionConfig, ProtectionState, IpState, BlockReason, Decision, allow,
  allow_bypassed, block, cidr_blocked, ja3_blocked, ja4_blocked, incomplete_handshake, no_sni, has,
  lookup, new_state, release, is_nil, is_none, admit, retained,
}

-- The state at a place; the table names no place beyond the end.
unfoldable pub cell_at : List IpState → ℕ → IpState
cell_at cells at = get_or cells at (new_state 0 0 0)

unfoldable pub decided : ℕ → Option BlockReason → Decision
decided at none = allow at
decided at (some reason) = block reason

-- `DashMap::retain`
unfoldable pub retain : (ℕ → Bool) → List (IpAddr × ℕ) → List (IpAddr × ℕ)
retain keep [] = []
retain keep ((ip, at) ∷ table) =
    let rest = retain keep table in if keep at then (ip, at) ∷ rest else rest

module _ {Network : Type 0} (contains : Network → IpAddr → Bool) where
  unfoldable pub in_networks : List Network → IpAddr → Bool
  in_networks [] ip = false
  in_networks (n ∷ networks) ip = contains n ip || in_networks networks ip

module _ {F Network : Type 0} where
  unfoldable pub ja3_hit : ProtectionConfig F Network → PeekInfo → Bool
  ja3_hit cfg peek =
      not (is_nil cfg.ja3_blocklist) && length peek.ja3 == 32 && elim (hex_to_bytes16 peek.ja3) [
        | none ↦ false
        | some digest ↦ has cfg.ja3_blocklist digest
      ]

  unfoldable pub ja4_hit : ProtectionConfig F Network → PeekInfo → Bool
  ja4_hit cfg peek =
      not (is_nil cfg.ja4_blocklist) && not (is_nil peek.ja4) && has cfg.ja4_blocklist peek.ja4

  abbrev pub fingerprint_enforced : ProtectionConfig F Network → Bool
  fingerprint_enforced cfg = not (is_nil cfg.ja3_blocklist) || not (is_nil cfg.ja4_blocklist)

  -- `get_or_create_state`; `clock` is what `IpState::new` reads.
  unfoldable pub get_or_create_state :
      ProtectionState F Network → IpAddr → ℕ → ℕ × ProtectionState F Network
  get_or_create_state s ip clock = elim (lookup ip s.ip_table) [
    | some at ↦ (at, s)
    | none ↦ (
      length s.cells,
      record s {
        cells = s.cells ++ new_state s.config.burst_fp s.config.sustained_burst_fp clock ∷ [];
        ip_table = (ip, length s.cells) ∷ s.ip_table;
      },
    )
  ]

  -- The guard of a connection, at the place that `allow` gave, is dropped.
  unfoldable pub release_at : ProtectionState F Network → ℕ → ProtectionState F Network
  release_at s at = record s { cells = set s.cells at (release (cell_at s.cells at)) }

  -- `config.store`
  unfoldable pub configure :
      ProtectionState F Network → ProtectionConfig F Network → ProtectionState F Network
  configure s cfg = record s { config = cfg }

module _ {F Network : Type 0} (fl : Floats F) where
  -- Steps 5 to 8, on the address's state in the table.
  unfoldable pub check_state :
      ProtectionState F Network → IpAddr → ℕ → ℕ → Decision × ProtectionState F Network
  unfolding decided
  check_state s ip now clock =
      let (at, s') = get_or_create_state s ip clock in
      let (blocked, state) = admit fl s.config now (cell_at s'.cells at) in
      (decided at blocked, record s' { cells = set s'.cells at state })

  unfoldable pub evict_at : ProtectionState F Network → ℕ → ProtectionState F Network
  evict_at s now = record s {
    ip_table = retain (λ at. retained fl s.config now (cell_at s.cells at)) s.ip_table;
  }

-- The three lists of `blocked_ips`.
pub record BlockedIps : Type 0 where
  pub rate_limited_ips : List IpAddr
  pub concurrency_limited_ips : List IpAddr
  pub penalty_boxed_ips : List IpAddr

push_if : Bool → IpAddr → List IpAddr → List IpAddr
push_if true ip ips = ip ∷ ips
push_if false ip ips = ips

module _ {F Network : Type 0} (fl : Floats F) where
  -- The loop over the table.
  unfoldable pub report : ProtectionState F Network → ℕ → List (IpAddr × ℕ) → BlockedIps
  unfolding push_if
  report s now [] = record {
    rate_limited_ips = [];
    concurrency_limited_ips = [];
    penalty_boxed_ips = [];
  }
  report s now ((ip, at) ∷ table) =
      let (boxed, dry, full) = reported fl s.config now (cell_at s.cells at) in
      let rest = report s now table in
      record {
        rate_limited_ips = push_if dry ip rest.rate_limited_ips;
        concurrency_limited_ips = push_if full ip rest.concurrency_limited_ips;
        penalty_boxed_ips = push_if boxed ip rest.penalty_boxed_ips;
      }

  unfoldable pub blocked_ips : ProtectionState F Network → ℕ → BlockedIps
  unfolding report
  blocked_ips s now = report s now s.ip_table

module _ {F Network : Type 0} (contains : Network → IpAddr → Bool) where
  -- Steps 2 to 4.
  unfoldable pub static_block : ProtectionConfig F Network → IpAddr → PeekInfo → Option BlockReason
  static_block cfg ip peek =
      if in_networks contains cfg.blocklist ip
      then some cidr_blocked
      else if fingerprint_enforced cfg && not peek.complete
      then some incomplete_handshake
      else if ja3_hit cfg peek
      then some ja3_blocked
      else if ja4_hit cfg peek
      then some ja4_blocked
      else if cfg.require_sni && is_none peek.sni
      then some no_sni
      else none

module _ {F Network : Type 0} (fl : Floats F) (contains : Network → IpAddr → Bool) where
  unfoldable pub check_at :
      ProtectionState F Network → IpAddr → PeekInfo → ℕ → ℕ → Decision × ProtectionState F Network
  check_at s peer_ip peek now clock =
      let ip = to_canonical peer_ip in
      if in_networks contains s.config.allowlist ip
      then (allow_bypassed, s)
      else elim (static_block contains s.config ip peek) [
        | some reason ↦ (block reason, s)
        | none ↦ check_state fl s ip now clock
      ]
