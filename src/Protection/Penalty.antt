-- ===== src/Protection/Penalty.antt =====
-- src/protection.rs: the penalty box.
use symphony.Prelude.{ℕ, ◌≤◌, ◌<◌, ◌≡◌, ◌≢◌, Bool, Option, none, some, arith}
use symphony.Sni.{PeekInfo}
use symphony.Net.{IpAddr, to_canonical}
use symphony.TokenBucket.{Floats}
use symphony.Protection.{
  ProtectionConfig, ProtectionState, IpState, BlockReason, allow, block, rate_limited,
  penalty_boxed, lookup, enter, punish, extend_penalty, punish_boxed, admit_unboxed, admit,
  penalty_end,
}
use symphony.Protection.Table.{
  cell_at, get_or_create_state, check_state, check_at, static_block, decided,
}

module _ {F Network : Type 0} (fl : Floats F) where
  -- Exhausting a bucket sets the deadline, and no check moves it back.
  pub admit-deadline :
      (cfg : ProtectionConfig F Network) (now : ℕ) (state : IpState)
      → let (blocked, state') = admit fl cfg now state in
        (state.penalty_deadline_ns ≤ state'.penalty_deadline_ns)
        × (blocked ≡ some rate_limited
            → 0 < cfg.penalty_box_duration_ms
            → penalty_end now cfg.penalty_box_duration_ms ≤ state'.penalty_deadline_ns)
  unfolding admit admit_unboxed enter punish punish_boxed extend_penalty
  admit-deadline cfg now state = ground arith

  pub admit-boxed :
      (cfg : ProtectionConfig F Network) (now : ℕ) (state : IpState)
      → 0 < cfg.penalty_box_duration_ms
      → now < state.penalty_deadline_ns
      → (admit fl cfg now state).0 ≡ some penalty_boxed
  unfolding admit
  admit-boxed cfg now state on h = ground arith

  pub get_or_create_state-config :
      (s : ProtectionState F Network) (ip : IpAddr) (clock : ℕ)
      → (get_or_create_state s ip clock).1.config ≡ s.config
  unfolding get_or_create_state
  get_or_create_state-config s ip clock = ground arith

  -- A check of an address that is in the table is the check of its state there.
  check_state-found :
      (s : ProtectionState F Network) (ip : IpAddr) (now clock at : ℕ) (reason : BlockReason)
      → lookup ip s.ip_table ≡ some at
      → (admit fl s.config now (cell_at s.cells at)).0 ≡ some reason
      → (check_state fl s ip now clock).0 ≡ block reason
  unfolding check_state get_or_create_state decided
  check_state-found s ip now clock at reason found blocked =
      rw (found, get_or_create_state, blocked)

  pub boxed_again :
      (s : ProtectionState F Network) (ip : IpAddr) (later clock at : ℕ) (state : IpState)
      → lookup ip s.ip_table ≡ some at
      → cell_at s.cells at ≡ state
      → 0 < s.config.penalty_box_duration_ms
      → later < state.penalty_deadline_ns
      → (check_state fl s ip later clock).0 ≡ block penalty_boxed
  boxed_again s ip later clock at state found kept on h =
      check_state-found s ip later clock at penalty_boxed found
        (rw kept (admit-boxed s.config later state on h))

pub block-ne-allow : {reason : BlockReason} {at : ℕ} → block reason ≡ allow at → ⊥
block-ne-allow h = cc

pub decided-eq-block :
    (at : ℕ) (blocked : Option BlockReason) (reason : BlockReason)
    → decided at blocked ≡ block reason
    → blocked ≡ some reason
unfolding decided
decided-eq-block at none reason h = cc
decided-eq-block at (some r) reason h = ground arith

module _ {F Network : Type 0} (fl : Floats F) (contains : Network → IpAddr → Bool) where
  static_block-ne-rate_limited :
      (cfg : ProtectionConfig F Network) (ip : IpAddr) (peek : PeekInfo)
      → static_block contains cfg ip peek ≢ some rate_limited
  unfolding static_block
  static_block-ne-rate_limited cfg ip peek h = ground arith

  pub check_at-rate_limited :
      (s s' : ProtectionState F Network) (ip : IpAddr) (peek : PeekInfo) (now clock : ℕ)
      → check_at fl contains s ip peek now clock ≡ (block rate_limited, s')
      → check_state fl s (to_canonical ip) now clock ≡ (block rate_limited, s')
  unfolding check_at
  check_at-rate_limited s s' ip peek now clock h =
      ground (arith, static_block-ne-rate_limited s.config (to_canonical ip) peek)
