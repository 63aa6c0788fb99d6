-- ===== src/Protection/Limit.antt =====
-- src/protection.rs: the counts are right in every world that a listener comes to, and so the limit
-- on the connections of one address holds.
use symphony.Prelude.{
  length, get_elem?, length-set, Bool-cases, Option-cases, ℕ, zero, suc, ◌≤◌, ◌<◌, ◌≡◌, refl, ap,
  inl, inr, Bool, true, Option, none, some, List, [], ◌∷◌, arith,
}
use symphony.Sni.{PeekInfo}
use symphony.Net.{IpAddr, to_canonical}
use symphony.TokenBucket.{Floats, u32_max}
use symphony.Protection.{
  ProtectionConfig, ProtectionState, IpState, BlockReason, allow, eq_ip_iff, lookup, new_state,
  release, admit, retained, enter, admit_unboxed,
}
use symphony.Protection.Table.{
  cell_at, get_or_create_state, check_state, check_at, evict_at, release_at, configure,
  static_block, decided, in_networks,
}
use symphony.Protection.Connections.{
  Guard, World, Event, arrives, closes, evicts, configures, remove_at, count_ip, note, after, Reach,
  start, next,
}
use symphony.Protection.Counting.{admit-active, cell_at-set, count_at-remove_at, count_at-le-length}
use symphony.Protection.Concurrency.{
  AllHeld, Tracks, world, lookup-AllBelow, AllBelow-retain, AllHeld-remove_at, AllHeld-retain,
  count_ip-le-count_at, get_or_create_state-Placed, settle-Tracks,
}

module _ {F Network : Type 0} (fl : Floats F) where
  check_state-Tracks :
      (s : ProtectionState F Network) (guards : List Guard) (ip : IpAddr) (now clock : ℕ)
      → Tracks (world s guards)
      → length guards < u32_max
      → Tracks (note ip guards (check_state fl s ip now clock))
  unfolding check_state
  check_state-Tracks s guards ip now clock t room =
      let r = get_or_create_state s ip clock in
      let p = get_or_create_state-Placed s guards ip clock t in
      let state = cell_at r.1.cells r.0 in
      let few : state.active < u32_max =
        omega (arith, p.tracks.counted r.0, count_at-le-length r.0 guards) in
      settle-Tracks r.1 guards ip r.0 (admit fl s.config now state).0
        (admit fl s.config now state).1 p (admit-active fl s.config now state few)

  retained-active :
      (cfg : ProtectionConfig F Network) (now : ℕ) (state : IpState)
      → 0 < state.active
      → retained fl cfg now state ≡ true
  unfolding retained
  retained-active cfg now state h = ground arith

  evict_at-Tracks :
      (w : World F Network) (now : ℕ)
      → Tracks w
      → Tracks (record w { state = evict_at fl w.state now })
  unfolding evict_at
  evict_at-Tracks w now t =
      let keep = λ (at : ℕ). retained fl w.state.config now (cell_at w.state.cells at) in
      record {
        counted = t.counted;
        held =
            AllHeld-retain keep w.state.ip_table w.guards
              (λ at h.
                retained-active w.state.config now (cell_at w.state.cells at)
                  (omega (arith, t.counted at)))
              t.held;
        in_range = AllBelow-retain (length w.state.cells) keep w.state.ip_table t.in_range;
      }

AllHeld-get_elem? :
    (table : List (IpAddr × ℕ)) (guards : List Guard) (i at : ℕ) (ip : IpAddr)
    → AllHeld table guards
    → get_elem? guards i ≡ some (ip, at)
    → lookup ip table ≡ some at
AllHeld-get_elem? table [] i at ip a h = ground arith
AllHeld-get_elem? table ((j, k) ∷ guards) zero at ip a h = ground arith
AllHeld-get_elem? table ((j, k) ∷ guards) (suc i) at ip a h =
    AllHeld-get_elem? table guards i at ip a.1 h

module _ {F Network : Type 0} where
  release_at-Tracks :
      (w : World F Network) (i at : ℕ) (ip : IpAddr)
      → Tracks w
      → get_elem? w.guards i ≡ some (ip, at)
      → Tracks (world (release_at w.state at) (remove_at i w.guards))
  unfolding release_at release
  release_at-Tracks w i at ip t h =
      let cells = w.state.cells in
      let below : at < length cells =
        lookup-AllBelow (length cells) ip at w.state.ip_table t.in_range
          (AllHeld-get_elem? w.state.ip_table w.guards i at ip t.held h) in
      let closed = release (cell_at cells at) in
      record {
        counted = λ k. ground (
          arith,
          cell_at-set cells at k closed below,
          t.counted k,
          count_at-remove_at w.guards i at k ip h,
        );
        held = AllHeld-remove_at i w.state.ip_table w.guards t.held;
        in_range = rw (length-set cells at closed) t.in_range;
      }

module _ {F Network : Type 0} (fl : Floats F) (contains : Network → IpAddr → Bool) where
  check_at-Tracks :
      (w : World F Network) (ip : IpAddr) (peek : PeekInfo) (now clock : ℕ)
      → Tracks w
      → length w.guards < u32_max
      → Tracks (note (to_canonical ip) w.guards (check_at fl contains w.state ip peek now clock))
  unfolding check_at note
  check_at-Tracks w ip peek now clock t room =
      let at_ip = to_canonical ip in
      elim (Bool-cases (in_networks contains w.state.config.allowlist at_ip)) [
        | inl e ↦ rw e t
        | inr e ↦ elim (Option-cases (static_block contains w.state.config at_ip peek)) [
          | inl n ↦ rw (e, n) (check_state-Tracks fl w.state w.guards at_ip now clock t room)
          | inr (reason, n) ↦ rw (e, n) t
        ]
      ]

  after-Tracks :
      (w : World F Network) (e : Event F Network)
      → Tracks w
      → length w.guards < u32_max
      → Tracks (after fl contains w e)
  unfolding after configure
  after-Tracks w (arrives ip peek now clock) t room = check_at-Tracks w ip peek now clock t room
  after-Tracks w (closes i) t room = elim (Option-cases (get_elem? w.guards i)) [
    | inl e ↦ rw (e, after) t
    | inr (g, e) ↦ rw (e, after) (release_at-Tracks w i g.1 g.0 t e)
  ]
  after-Tracks w (evicts now) t room = evict_at-Tracks fl w now t
  after-Tracks w (configures cfg) t room = record {
    counted = t.counted;
    held = t.held;
    in_range = t.in_range;
  }

  -- In every world that a listener comes to, each state counts the open connections that hold it,
  -- and the table leads from the address of an open connection to the state that counts it: no
  -- eviction separates the two.
  pub Reach-Tracks : {w : World F Network} → Reach fl contains w → Tracks w
  unfolding cell_at new_state
  Reach-Tracks (start cfg) = record { counted = λ at. refl; held = tt; in_range = tt }
  Reach-Tracks (next {w} e r room) = after-Tracks w e (Reach-Tracks r) room

  pub check_at-allow :
      (s s' : ProtectionState F Network) (ip : IpAddr) (peek : PeekInfo) (now clock at : ℕ)
      → check_at fl contains s ip peek now clock ≡ (allow at, s')
      → check_state fl s (to_canonical ip) now clock ≡ (allow at, s')
  unfolding check_at
  check_at-allow s s' ip peek now clock at h = ground arith

  pub admit-room :
      (cfg : ProtectionConfig F Network) (now : ℕ) (state : IpState)
      → (admit fl cfg now state).0 ≡ none
      → 0 < cfg.max_concurrent_per_ip
      → state.active < cfg.max_concurrent_per_ip
  unfolding admit admit_unboxed enter
  admit-room cfg now state h on = ground arith

  decided-allow :
      (i at : ℕ) (blocked : Option BlockReason)
      → decided i blocked ≡ allow at
      → (i ≡ at) × (blocked ≡ none)
  unfolding decided
  decided-allow i at none h = ground arith
  decided-allow i at (some reason) h = ground arith

  -- A connection that is allowed against the limits, itself counted, leaves no more counted connections
  -- of its address open than the limit in force, whatever checks, closes, evictions and changes of
  -- configuration came before. Those are counted that a check has allowed against the limits, and not
  -- those that an allowlist has let past them.
  pub check_at-limit :
      {w : World F Network} (ip : IpAddr) (peek : PeekInfo) (now clock at : ℕ)
      (s' : ProtectionState F Network)
      → Reach fl contains w
      → 0 < w.state.config.max_concurrent_per_ip
      → check_at fl contains w.state ip peek now clock ≡ (allow at, s')
      → count_ip (to_canonical ip) ((to_canonical ip, at) ∷ w.guards)
        ≤ w.state.config.max_concurrent_per_ip
  unfolding check_state
  check_at-limit {w} ip peek now clock at s' reach on h =
      let who = to_canonical ip in
      let r = get_or_create_state w.state who clock in
      let p = get_or_create_state-Placed w.state w.guards who clock (Reach-Tracks reach) in
      let state = cell_at r.1.cells r.0 in
      let e = check_at-allow w.state s' ip peek now clock at h in
      let d = decided-allow r.0 at (admit fl w.state.config now state).0 (ap (λ x. x.0) e) in
      let room = admit-room w.state.config now state d.1 on in
      let few = count_ip-le-count_at who r.0 r.1.ip_table w.guards p.found p.tracks.held in
      rw ((eq_ip_iff who who).1 refl) (omega (arith, p.tracks.counted r.0, few, room))
