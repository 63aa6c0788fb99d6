-- ===== src/Protection/Boxed.antt =====
-- src/protection.rs: what each operation does to an address in the penalty box.
use symphony.Prelude.{
  length, set, Bool-cases, Option-cases, ℕ, zero, suc, ◌≤◌, ◌<◌, ◌≡◌, ap, subst, inl, inr, Bool,
  true, none, some, List, [], ◌∷◌, ◌++◌, arith,
}
use symphony.Net.{IpAddr, to_canonical}
use symphony.TokenBucket.{Floats}
use symphony.Protection.{
  ProtectionConfig, ProtectionState, IpState, eq_ip, eq_ip_iff, lookup, new_state, release, admit,
  retained,
}
use symphony.Protection.Table.{
  cell_at, get_or_create_state, check_state, check_at, static_block, in_networks, release_at,
  evict_at,
}
use symphony.Protection.Counting.{lookup-retain}
use symphony.Protection.Penalty.{admit-deadline}
use symphony.Sni.{PeekInfo}

-- A deadline that is written no earlier makes none earlier.
set-deadline :
    (cells : List IpState) (i k : ℕ) (state : IpState)
    → (cell_at cells i).penalty_deadline_ns ≤ state.penalty_deadline_ns
    → (cell_at cells k).penalty_deadline_ns ≤ (cell_at (set cells i state) k).penalty_deadline_ns
unfolding cell_at
set-deadline [] i k state h = omega arith
set-deadline (c ∷ cells) zero zero state h = h
set-deadline (c ∷ cells) zero (suc k) state h = omega arith
set-deadline (c ∷ cells) (suc i) zero state h = omega arith
set-deadline (c ∷ cells) (suc i) (suc k) state h = set-deadline cells i k state h

append-deadline :
    (cells : List IpState) (k : ℕ) (state : IpState)
    → (cell_at cells k).penalty_deadline_ns ≤ (cell_at (cells ++ state ∷ []) k).penalty_deadline_ns
unfolding cell_at new_state
append-deadline [] zero state = omega arith
append-deadline [] (suc k) state = omega arith
append-deadline (c ∷ cells) zero state = omega arith
append-deadline (c ∷ cells) (suc k) state = append-deadline cells k state

lookup-new :
    (ip who : IpAddr) (at place : ℕ) (table : List (IpAddr × ℕ))
    → lookup ip table ≡ none
    → lookup who table ≡ some place
    → lookup who ((ip, at) ∷ table) ≡ some place
unfolding lookup
lookup-new ip who at place table new found = elim (Bool-cases (eq_ip ip who)) [
  | inl k ↦
      let gone = subst (λ a. lookup a table ≡ none) ((eq_ip_iff ip who).0 k) new in
      absurd (ground arith)
  | inr k ↦ rw k found
]

module _ {F Network : Type 0} where
  -- The address is in the table, and its state's deadline is no earlier than `deadline`.
  pub record IsBoxed (cfg : ProtectionConfig F Network) (who : IpAddr) (deadline : ℕ)
      (s : ProtectionState F Network) : Type 0 where
    pub configured : s.config ≡ cfg
    pub place : ℕ
    pub found : lookup who s.ip_table ≡ some place
    pub until : deadline ≤ (cell_at s.cells place).penalty_deadline_ns

  get_or_create_state-IsBoxed :
      (cfg : ProtectionConfig F Network) (who ip : IpAddr) (deadline clock : ℕ)
      (s : ProtectionState F Network)
      → IsBoxed cfg who deadline s
      → IsBoxed cfg who deadline (get_or_create_state s ip clock).1
  unfolding get_or_create_state
  get_or_create_state-IsBoxed cfg who ip deadline clock s b =
      elim (Option-cases (lookup ip s.ip_table)) [
        | inr (at, e) ↦ rw (e, get_or_create_state) b
        | inl e ↦
            let fresh = new_state s.config.burst_fp s.config.sustained_burst_fp clock in
            rw (e, get_or_create_state)
              (record {
                configured = b.configured;
                place = b.place;
                found = lookup-new ip who (length s.cells) b.place s.ip_table e b.found;
                until = omega (arith, b.until, append-deadline s.cells b.place fresh);
              })
      ]

  pub release_at-IsBoxed :
      (cfg : ProtectionConfig F Network) (who : IpAddr) (deadline at : ℕ)
      (s : ProtectionState F Network)
      → IsBoxed cfg who deadline s
      → IsBoxed cfg who deadline (release_at s at)
  unfolding release_at release
  release_at-IsBoxed cfg who deadline at s b = record {
    configured = b.configured;
    place = b.place;
    found = b.found;
    until = omega (
      arith,
      b.until,
      set-deadline s.cells at b.place (release (cell_at s.cells at)) (omega arith),
    );
  }

module _ {F Network : Type 0} (fl : Floats F) where
  retained-boxed :
      (cfg : ProtectionConfig F Network) (now deadline : ℕ) (state : IpState)
      → 0 < cfg.penalty_box_duration_ms
      → now < deadline
      → deadline ≤ state.penalty_deadline_ns
      → retained fl cfg now state ≡ true
  unfolding retained
  retained-boxed cfg now deadline state on h k = ground arith

  pub evict_at-IsBoxed :
      (cfg : ProtectionConfig F Network) (who : IpAddr) (deadline now : ℕ)
      (s : ProtectionState F Network)
      → 0 < cfg.penalty_box_duration_ms
      → now < deadline
      → IsBoxed cfg who deadline s
      → IsBoxed cfg who deadline (evict_at fl s now)
  unfolding evict_at
  evict_at-IsBoxed cfg who deadline now s on h b = record {
    configured = b.configured;
    place = b.place;
    found =
        lookup-retain (λ at. retained fl s.config now (cell_at s.cells at)) who b.place s.ip_table
          b.found
          (retained-boxed s.config now deadline (cell_at s.cells b.place)
            (omega (
              arith,
              on,
              ap (λ (c : ProtectionConfig F Network). c.penalty_box_duration_ms) b.configured,
            ))
            h b.until);
    until = b.until;
  }

  check_state-IsBoxed :
      (cfg : ProtectionConfig F Network) (who ip : IpAddr) (deadline now clock : ℕ)
      (s : ProtectionState F Network)
      → IsBoxed cfg who deadline s
      → IsBoxed cfg who deadline (check_state fl s ip now clock).1
  unfolding check_state
  check_state-IsBoxed cfg who ip deadline now clock s b =
      let r = get_or_create_state s ip clock in
      let b' = get_or_create_state-IsBoxed cfg who ip deadline clock s b in
      let state = cell_at r.1.cells r.0 in
      record {
        configured = b'.configured;
        place = b'.place;
        found = b'.found;
        until = omega (
          arith,
          b'.until,
          set-deadline r.1.cells r.0 b'.place (admit fl s.config now state).1
              (admit-deadline fl s.config now state).0,
        );
      }

module _ {F Network : Type 0} (fl : Floats F) (contains : Network → IpAddr → Bool) where
  pub check_at-IsBoxed :
      (cfg : ProtectionConfig F Network) (who ip : IpAddr) (peek : PeekInfo)
      (deadline now clock : ℕ) (s : ProtectionState F Network)
      → IsBoxed cfg who deadline s
      → IsBoxed cfg who deadline (check_at fl contains s ip peek now clock).1
  unfolding check_at
  check_at-IsBoxed cfg who ip peek deadline now clock s b =
      let at_ip = to_canonical ip in
      elim (Bool-cases (in_networks contains s.config.allowlist at_ip)) [
        | inl e ↦ rw e b
        | inr e ↦ elim (Option-cases (static_block contains s.config at_ip peek)) [
          | inl n ↦ rw (e, n) (check_state-IsBoxed fl cfg who at_ip deadline now clock s b)
          | inr (reason, n) ↦ rw (e, n) b
        ]
      ]
