-- ===== src/ThreadCpu/Vouched.antt =====
-- src/thread_cpu.rs: what is known of the latest sample of a thread.
use symphony.Prelude.{
  ltb, Bool-cases, Option-cases, ℕ, ◌+◌, ◌%◌, ◌≤◌, ◌≡◌, refl, sym, ◌∙◌, ◌⊎◌, inl, inr, Bool, true,
  false, not, ◌&&◌, Option, none, some, arith,
}
use symphony.Float.{Float64, IsBounding}
use symphony.ThreadCpu.{
  sample_valid_ns, TaskStat, ProcFs, Identity, unresolved, literal, discovered, Discovery,
  SampleState, ThreadCpu, resolve, eq_identity, adopt, reschedule, apply_discovery,
}
use symphony.ThreadCpu.Sampling.{
  u64_size, eq_inode, take_discovery, recheck, read_stat, lost, is_some, util_of, measure,
  read_thread, read_identity,
}

abbrev pub is_discovered : Identity → Bool
is_discovered unresolved = false
is_discovered literal = false
is_discovered (discovered pid tid start) = true

-- The latest sample counts for nothing, or it is of a thread that was discovered behind the socket, whose
-- file has not changed since, and no older than a second.
pub record IsVouched (s : SampleState) : Type 0 where
  pub vouched :
      (s.valid_until_ns ≡ 0)
      ⊎ ((is_discovered s.identity ≡ true)
          × (s.owner_changed ≡ false)
          × (s.valid_until_ns ≤ s.last_pass_ns + sample_valid_ns))
  pub bounded : s.util_permille ≤ 1000

eq_identity-discovered :
    (i j : Identity) → eq_identity i j ≡ true → is_discovered i ≡ is_discovered j
unfolding eq_identity
eq_identity-discovered unresolved unresolved h = refl
eq_identity-discovered unresolved literal h = cc
eq_identity-discovered unresolved (discovered p t s) h = cc
eq_identity-discovered literal unresolved h = cc
eq_identity-discovered literal literal h = refl
eq_identity-discovered literal (discovered p t s) h = cc
eq_identity-discovered (discovered p t s) unresolved h = cc
eq_identity-discovered (discovered p t s) literal h = cc
eq_identity-discovered (discovered p t s) (discovered q u r) h = refl

module _ (proc : ProcFs) (cpu : ThreadCpu) (now : ℕ) where
  reschedule-fields :
      (inode : Option ℕ) (identity : Identity) (s : SampleState)
      → let r = reschedule now inode identity s in
        (r.identity ≡ s.identity)
        × (r.owner_changed ≡ false)
        × (r.valid_until_ns ≡ s.valid_until_ns)
        × (r.last_pass_ns ≡ s.last_pass_ns)
        × (r.util_permille ≡ s.util_permille)
  unfolding reschedule
  reschedule-fields inode unresolved s = (refl, refl, refl, refl, refl)
  reschedule-fields inode literal s = (refl, refl, refl, refl, refl)
  reschedule-fields inode (discovered p t q) s = (refl, refl, refl, refl, refl)

  reschedule-vouched :
      (inode : Option ℕ) (identity : Identity) (s : SampleState)
      → IsVouched s
      → let r = reschedule now inode identity s in
        (r.valid_until_ns ≡ 0)
        ⊎ ((is_discovered r.identity ≡ true)
            × (r.owner_changed ≡ false)
            × (r.valid_until_ns ≤ r.last_pass_ns + sample_valid_ns))
  unfolding reschedule
  reschedule-vouched inode identity s v =
      let f = reschedule-fields inode identity s in
      elim v.vouched [
        | inl z ↦ inl (f.2 ∙ z)
        | inr (d, _, l) ↦ inr ((λ i. is_discovered (f.0 i)) ∙ d, f.1, omega (arith, l, f.2, f.3))
      ]

  apply_discovery-IsVouched :
      (discovery : Discovery) (s : SampleState)
      → IsVouched s
      → IsVouched (apply_discovery proc cpu discovery now s)
  unfolding apply_discovery adopt
  apply_discovery-IsVouched discovery s v = elim (Option-cases discovery.owner) [
    | inl e ↦ rw (e, apply_discovery) (record { vouched = v.vouched; bounded = v.bounded })
    | inr (owner, e) ↦
        let identity = resolve proc cpu.pid cpu.tid owner in
        let r = reschedule now discovery.inode identity s in
        let f = reschedule-fields discovery.inode identity s in
        elim (Bool-cases (eq_identity identity r.identity)) [
          | inr n ↦
              rw (e, n, apply_discovery, adopt)
                (record { vouched = inl refl; bounded = omega (arith, v.bounded, f.4) })
          | inl y ↦
              rw (e, y, apply_discovery, adopt)
                (record {
                  vouched = reschedule-vouched discovery.inode identity s v;
                  bounded = omega (arith, v.bounded, f.4);
                })
        ]
  ]

  pub take_discovery-IsVouched :
      (s : SampleState) → IsVouched s → IsVouched (take_discovery proc cpu now s)
  unfolding take_discovery
  take_discovery-IsVouched s v = elim (Option-cases s.finished) [
    | inl e ↦ rw (e, take_discovery) v
    | inr (discovery, e) ↦
        rw (e, take_discovery)
          (apply_discovery-IsVouched discovery (record s { finished = none })
            (record { vouched = v.vouched; bounded = v.bounded }))
  ]

  pub recheck-IsVouched : (s : SampleState) → IsVouched s → IsVouched (recheck proc cpu now s)
  unfolding recheck
  recheck-IsVouched s v = elim (Bool-cases (ltb now s.next_recheck_ns)) [
    | inl y ↦ rw (y, recheck) v
    | inr n ↦ elim (Bool-cases (eq_inode (proc.socket_inode cpu.path) s.inode)) [
      | inl e ↦ rw (n, e, recheck) (record { vouched = v.vouched; bounded = v.bounded })
      | inr e ↦ rw (n, e, recheck) (record { vouched = inl refl; bounded = v.bounded })
    ]
  ]

both_true : (a b : Bool) → a && not b ≡ true → (a ≡ true) × (b ≡ false)
both_true true false h = (refl, refl)
both_true true true h = cc
both_true false b h = cc

mod-le : (n : ℕ) → n % u64_size ≤ n
mod-le n = omega arith

lost-IsVouched : (now : ℕ) (start : Option ℕ) (s : SampleState) → IsVouched (lost now start s)
unfolding lost
lost-IsVouched now none s = record { vouched = inl refl; bounded = omega arith }
lost-IsVouched now (some start) s = record { vouched = inl refl; bounded = omega arith }

module _ {F : Type 0} (fl : Float64 F) (bounding : IsBounding fl) (clk_tck_hz : ℕ) where
  util_of-le : (ticks ns : ℕ) → util_of fl clk_tck_hz ticks ns ≤ 1000
  unfolding util_of
  util_of-le ticks ns = bounding.to_u32-min_of-le _ 1000 (omega arith)

  measure-IsVouched :
      (now : ℕ) (start : Option ℕ) (stat : TaskStat) (s : SampleState)
      → s.last_pass_ns ≡ now
      → (is_some start ≡ true → is_discovered s.identity ≡ true)
      → IsVouched s
      → IsVouched (measure fl clk_tck_hz now start stat s)
  unfolding measure
  measure-IsVouched now start stat s p d v = elim (Bool-cases (ltb 0 s.last_ns)) [
    | inr n ↦ rw (n, measure) (record { vouched = v.vouched; bounded = v.bounded })
    | inl y ↦ elim (Bool-cases (is_some start && not s.owner_changed)) [
      | inr k ↦ rw (y, k, measure) (record { vouched = v.vouched; bounded = util_of-le _ _ })
      | inl k ↦
          rw (y, k, measure)
            (record {
              vouched = inr (
                d (both_true _ _ k).0,
                (both_true _ _ k).1,
                omega (arith, p, mod-le (now + sample_valid_ns)),
              );
              bounded = util_of-le _ _;
            })
    ]
  ]

  read_thread-IsVouched :
      (proc : ProcFs) (now pid tid : ℕ) (start : Option ℕ) (s : SampleState)
      → s.last_pass_ns ≡ now
      → (is_some start ≡ true → is_discovered s.identity ≡ true)
      → IsVouched s
      → IsVouched (read_thread fl clk_tck_hz proc now pid tid start s)
  unfolding read_thread
  read_thread-IsVouched proc now pid tid start s p d v =
      elim (Option-cases (read_stat proc pid tid start)) [
        | inl e ↦ rw (e, read_thread) (lost-IsVouched now start s)
        | inr (stat, e) ↦ rw (e, read_thread) (measure-IsVouched now start stat s p d v)
      ]

  pub read_identity-IsVouched :
      (proc : ProcFs) (cpu : ThreadCpu) (now : ℕ) (i : Identity) (s : SampleState)
      → i ≡ s.identity
      → s.last_pass_ns ≡ now
      → IsVouched s
      → IsVouched (read_identity fl clk_tck_hz proc cpu now i s)
  unfolding read_identity
  read_identity-IsVouched proc cpu now unresolved s e p v = record {
    vouched = v.vouched;
    bounded = omega arith;
  }
  read_identity-IsVouched proc cpu now literal s e p v =
      read_thread-IsVouched proc now cpu.pid cpu.tid none s p (λ h. cc) v
  read_identity-IsVouched proc cpu now (discovered pid tid start) s e p v =
      read_thread-IsVouched proc now pid tid (some start) s p (λ _. (λ i. is_discovered (sym e i)))
        v
