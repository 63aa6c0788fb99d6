-- ===== src/Protection/Eviction.antt =====
-- src/protection.rs: an address that `evict_at` forgets loses nothing by it and gains nothing.
use symphony.Prelude.{ℕ, ◌-◌, ◌≤◌, ◌≡◌, sym, true, false, arith}
use symphony.TokenBucket.{
  Floats, IsRounding, Bucket, u32_max, refill_of, projected, refilled, consume, refill_and_consume,
}
use symphony.Protection.{
  ProtectionConfig, IpState, new_state, charge, is_full, enter, admit_unboxed, admit, retained,
  in_penalty_box,
}

module _ {F : Type 0} (fl : Floats F) (round : IsRounding fl) where
  -- A bucket that is full by `now` answers any later charge like a new one.
  charge_full :
      (rate : F) (burst_fp now later clock : ℕ) (b : Bucket)
      → is_full fl rate burst_fp now b ≡ true
      → b.tokens ≤ burst_fp
      → burst_fp ≤ u32_max
      → now ≤ later
      → (charge fl rate burst_fp later (record { tokens = burst_fp; last_refill_ns = clock })).0
        ≡ (charge fl rate burst_fp later b).0
  unfolding charge is_full refill_and_consume refilled consume projected
  charge_full rate burst_fp now later clock b full h k order =
      let grows : refill_of fl rate (now - b.last_refill_ns)
          ≤ refill_of fl rate (later - b.last_refill_ns) =
        unfold refill_of in
        round.refill-mono rate (now - b.last_refill_ns) (later - b.last_refill_ns) (omega arith) in
      ground (arith, grows)

module _ {F Network : Type 0} (fl : Floats F) (round : IsRounding fl) where
  admit_unboxed-verdict :
      (cfg : ProtectionConfig F Network) (now : ℕ) (a b : IpState)
      → a.active ≡ b.active
      → (charge fl cfg.tokens_per_ns cfg.burst_fp now a.bucket).0
        ≡ (charge fl cfg.tokens_per_ns cfg.burst_fp now b.bucket).0
      → (charge fl cfg.sustained_tokens_per_ns cfg.sustained_burst_fp now a.sustained).0
        ≡ (charge fl cfg.sustained_tokens_per_ns cfg.sustained_burst_fp now b.sustained).0
      → (admit_unboxed fl cfg now a).0 ≡ (admit_unboxed fl cfg now b).0
  unfolding admit_unboxed enter
  admit_unboxed-verdict cfg now a b e f g = ground arith

  retained-eq-false :
      (cfg : ProtectionConfig F Network) (now : ℕ) (state : IpState)
      → retained fl cfg now state ≡ false
      → (in_penalty_box now cfg.penalty_box_duration_ms state ≡ false)
        × (state.active ≡ 0)
        × (is_full fl cfg.tokens_per_ns cfg.burst_fp now state.bucket ≡ true)
        × (is_full fl cfg.sustained_tokens_per_ns cfg.sustained_burst_fp now state.sustained ≡ true)
  unfolding retained
  retained-eq-false cfg now state h = ground arith

  admit-unboxed :
      (cfg : ProtectionConfig F Network) (now : ℕ) (state : IpState)
      → in_penalty_box now cfg.penalty_box_duration_ms state ≡ false
      → admit fl cfg now state ≡ admit_unboxed fl cfg now state
  unfolding admit
  admit-unboxed cfg now state h = rw h

  -- An entry that is evicted and made anew answers the next check, at any later time, as the old one
  -- would have: waiting for the eviction resets no window. The buckets are within their ceilings,
  -- and the configuration is the same at both times.
  pub admit-evicted :
      (cfg : ProtectionConfig F Network) (now later clock : ℕ) (state : IpState)
      → retained fl cfg now state ≡ false
      → state.bucket.tokens ≤ cfg.burst_fp
      → state.sustained.tokens ≤ cfg.sustained_burst_fp
      → cfg.burst_fp ≤ u32_max
      → cfg.sustained_burst_fp ≤ u32_max
      → now ≤ later
      → (admit fl cfg later (new_state cfg.burst_fp cfg.sustained_burst_fp clock)).0
        ≡ (admit fl cfg later state).0
  unfolding new_state
  admit-evicted cfg now later clock state gone h h' k k' order =
      let (unboxed, idle, full, full') = retained-eq-false cfg now state gone in
      let made = new_state cfg.burst_fp cfg.sustained_burst_fp clock in
      let fast =
        charge_full fl round cfg.tokens_per_ns cfg.burst_fp now later clock state.bucket full h k
          order in
      let slow =
        charge_full fl round cfg.sustained_tokens_per_ns cfg.sustained_burst_fp now later clock
          state.sustained full' h' k' order in
      rw (admit-unboxed cfg later made (ground arith), admit-unboxed cfg later state (ground arith))
        (admit_unboxed-verdict cfg later made state (sym idle) fast slow)
