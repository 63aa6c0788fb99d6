-- ===== src/Protection/Penalized.antt =====
-- src/protection.rs: a penalty holds through whatever happens on the listener.
use symphony.Prelude.{
  get_elem?, Option-cases, ℕ, ◌<◌, ◌≡◌, refl, sym, ap, ◌∙◌, subst, ◌≢◌, inl, inr, Bool, List, [],
  ◌∷◌, arith,
}
use symphony.Net.{IpAddr, to_canonical}
use symphony.TokenBucket.{Floats}
use symphony.Protection.{
  ProtectionConfig, ProtectionState, Decision, allow, allow_bypassed, block, rate_limited, admit,
  penalty_end,
}
use symphony.Protection.Table.{cell_at, get_or_create_state, check_state, check_at}
use symphony.Protection.Connections.{
  Guard, World, Event, arrives, closes, evicts, configures, note, after, Reach,
}
use symphony.Protection.Counting.{cell_at-set_self}
use symphony.Protection.Concurrency.{get_or_create_state-Placed}
use symphony.Protection.Limit.{Reach-Tracks, check_at-allow}
use symphony.Protection.Penalty.{
  admit-deadline, get_or_create_state-config, boxed_again, block-ne-allow, decided-eq-block,
  check_at-rate_limited,
}
use symphony.Sni.{PeekInfo}
use symphony.Protection.Boxed.{release_at-IsBoxed, evict_at-IsBoxed, check_at-IsBoxed, IsBoxed}

module _ {F Network : Type 0} (fl : Floats F) (contains : Network → IpAddr → Bool) where
  -- Anything but a new configuration, and no eviction from `deadline` on.
  abbrev pub AllBefore : ℕ → List (Event F Network) → Type 0
  AllBefore deadline [] = Unit {0}
  AllBefore deadline (arrives ip peek now clock ∷ events) = AllBefore deadline events
  AllBefore deadline (closes i ∷ events) = AllBefore deadline events
  AllBefore deadline (evicts now ∷ events) = (now < deadline) × AllBefore deadline events
  AllBefore deadline (configures cfg ∷ events) = ⊥

  abbrev pub run : World F Network → List (Event F Network) → World F Network
  run w [] = w
  run w (e ∷ events) = run (after fl contains w e) events

  note-state :
      (ip : IpAddr) (guards : List Guard) (r : Decision × ProtectionState F Network)
      → (note ip guards r).state ≡ r.1
  unfolding note
  note-state ip guards (allow at, s) = refl
  note-state ip guards (allow_bypassed, s) = refl
  note-state ip guards (block reason, s) = refl

  run-IsBoxed :
      (cfg : ProtectionConfig F Network) (who : IpAddr) (deadline : ℕ) (w : World F Network)
      (events : List (Event F Network))
      → 0 < cfg.penalty_box_duration_ms
      → AllBefore deadline events
      → IsBoxed cfg who deadline w.state
      → IsBoxed cfg who deadline (run w events).state
  unfolding after
  run-IsBoxed cfg who deadline w [] on h b = b
  run-IsBoxed cfg who deadline w (arrives ip peek now clock ∷ events) on h b =
      run-IsBoxed cfg who deadline (after fl contains w (arrives ip peek now clock)) events on h (
        rw (note-state (to_canonical ip) w.guards (check_at fl contains w.state ip peek now clock))
          (check_at-IsBoxed fl contains cfg who ip peek deadline now clock w.state b))
  run-IsBoxed cfg who deadline w (closes i ∷ events) on h b =
      run-IsBoxed cfg who deadline (after fl contains w (closes i)) events on h
        (elim (Option-cases (get_elem? w.guards i)) [
          | inl e ↦ rw (e, after) b
          | inr (g, e) ↦ rw (e, after) (release_at-IsBoxed cfg who deadline g.1 w.state b)
        ])
  run-IsBoxed cfg who deadline w (evicts now ∷ events) on h b =
      run-IsBoxed cfg who deadline (after fl contains w (evicts now)) events on h.1
        (evict_at-IsBoxed fl cfg who deadline now w.state on h.0 b)
  run-IsBoxed cfg who deadline w (configures c ∷ events) on h b = absurd h

  check_state-limited :
      {w : World F Network} (who : IpAddr) (now clock : ℕ) (s' : ProtectionState F Network)
      → Reach fl contains w
      → 0 < w.state.config.penalty_box_duration_ms
      → check_state fl w.state who now clock ≡ (block rate_limited, s')
      → IsBoxed w.state.config who (penalty_end now w.state.config.penalty_box_duration_ms) s'
  unfolding check_state
  check_state-limited {w} who now clock s' reach on e =
      let cfg = w.state.config in
      let r = get_or_create_state w.state who clock in
      let p =
        get_or_create_state-Placed w.state w.guards who clock (Reach-Tracks fl contains reach) in
      let (blocked, state') = admit fl cfg now (cell_at r.1.cells r.0) in
      let limited = decided-eq-block r.0 blocked rate_limited (ap (λ x. x.0) e) in
      let deadline = (admit-deadline fl cfg now (cell_at r.1.cells r.0)).1 limited on in
      let kept = cell_at-set_self r.1.cells r.0 state' p.below in
      subst (IsBoxed cfg who (penalty_end now cfg.penalty_box_duration_ms)) (ap (λ x. x.1) e)
        (record {
          configured = get_or_create_state-config fl w.state who clock;
          place = r.0;
          found = p.found;
          until = rw kept deadline;
        })

  IsBoxed-refused :
      (cfg : ProtectionConfig F Network) (ip : IpAddr) (peek : PeekInfo)
      (deadline later clock at : ℕ) (s s' : ProtectionState F Network)
      → 0 < cfg.penalty_box_duration_ms
      → IsBoxed cfg (to_canonical ip) deadline s
      → later < deadline
      → check_at fl contains s ip peek later clock ≢ (allow at, s')
  IsBoxed-refused cfg ip peek deadline later clock at s s' on b before h =
      let allowed = check_at-allow fl contains s s' ip peek later clock at h in
      let again =
        boxed_again fl s (to_canonical ip) later clock b.place (cell_at s.cells b.place) b.found
          refl
          (omega (
            arith,
            on,
            ap (λ (c : ProtectionConfig F Network). c.penalty_box_duration_ms) b.configured,
          ))
          (omega (arith, before, b.until)) in
      block-ne-allow (sym again ∙ ap (λ x. x.0) allowed)

  -- An address that exhausts a bucket, with the penalty box on, is shut out until the penalty has run
  -- out: whatever connections come and close and whatever is evicted meanwhile, under the same
  -- configuration, a check of it before that, whatever its ClientHello, allows no connection that
  -- counts against the limits.
  pub check_at-penalized :
      {w : World F Network} (ip : IpAddr) (peek peek' : PeekInfo) (now clock later clock' at : ℕ)
      (s' s'' : ProtectionState F Network) (events : List (Event F Network))
      → Reach fl contains w
      → 0 < w.state.config.penalty_box_duration_ms
      → check_at fl contains w.state ip peek now clock ≡ (block rate_limited, s')
      → AllBefore (penalty_end now w.state.config.penalty_box_duration_ms) events
      → later < penalty_end now w.state.config.penalty_box_duration_ms
      → check_at fl contains (run (record w { state = s' }) events).state ip peek' later clock'
        ≢ (allow at, s'')
  check_at-penalized {w} ip peek peek' now clock later clock' at s' s'' events reach on h meanwhile
        before =
      let cfg = w.state.config in
      let end = penalty_end now cfg.penalty_box_duration_ms in
      let limited =
        check_state-limited (to_canonical ip) now clock s' reach on
          (check_at-rate_limited fl contains w.state s' ip peek now clock h) in
      let boxed =
        run-IsBoxed cfg (to_canonical ip) end (record w { state = s' }) events on meanwhile
          limited in
      IsBoxed-refused cfg ip peek' end later clock' at (run (record w { state = s' }) events).state
        s'' on boxed before
