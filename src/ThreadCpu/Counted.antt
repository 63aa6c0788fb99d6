-- ===== src/ThreadCpu/Counted.antt =====
-- src/thread_cpu.rs: what is known of a thread whose sample counts as load.
use symphony.Prelude.{
  some-inj, ltb, leb, ltb→lt, Bool-cases, ℕ, ◌+◌, ◌≤◌, ◌<◌, ◌≡◌, refl, sym, ap, ◌∙◌, subst, inl,
  inr, true, false, Option, none, some, arith,
}
use symphony.Float.{Float64, IsBounding}
use symphony.ThreadCpu.{
  discovered, ProcFs, ThreadCpu, new_thread_cpu, begin_discovery, finish_discovery,
}
use symphony.ThreadCpu.Sampling.{take_discovery, recheck, sample, load_sample}
use symphony.ThreadCpu.History.{
  begins, Seen, World, takes, looks_at, passes, Reach, boot, pass, begin, finish,
}
use symphony.ThreadCpu.Owner.{IsThread}
use symphony.ThreadCpu.Reading.{read_identity-IsTracked}
use symphony.ThreadCpu.Tied.{
  AreAll, by_name, by_owner, IsTracked, IsTracked-same, take_discovery-IsTracked, recheck-IsTracked,
}
use symphony.ThreadCpu.Passes.{take_discovery-taken, recheck-IsSamePass, read_identity-IsSamePass}
use symphony.ThreadCpu.Vouched.{
  is_discovered, IsVouched, take_discovery-IsVouched, recheck-IsVouched, read_identity-IsVouched,
}

counted :
    (cpu : ThreadCpu) (now util : ℕ)
    → load_sample now cpu ≡ some util
    → (ltb now cpu.state.valid_until_ns ≡ true) × (cpu.state.util_permille ≡ util)
unfolding load_sample
counted cpu now util h = elim (Bool-cases (ltb now cpu.state.valid_until_ns)) [
  | inr n ↦ absurd (ground arith)
  | inl y ↦ (y, some-inj (ground arith))
]

module _ {F : Type 0} (fl : Float64 F) (bounding : IsBounding fl) (clk_tck_hz : ℕ) where
  leb-false : (a b : ℕ) → leb a b ≡ false → b < a
  leb-false a b h = ground arith

  started :
      (proc : ProcFs) (now : ℕ) (cpu : ThreadCpu)
      → leb now cpu.state.last_pass_ns ≡ false
      → IsVouched cpu.state
      → IsVouched (record cpu.state { last_pass_ns = now })
  started proc now cpu n v = record {
    vouched = elim v.vouched [
      | inl z ↦ inl z
      | inr (d, o, l) ↦ inr (d, o, omega (arith, l, leb-false _ _ n))
    ];
    bounded = v.bounded;
  }

  sample-IsVouched :
      (proc : ProcFs) (now : ℕ) (cpu : ThreadCpu)
      → IsVouched cpu.state
      → IsVouched (sample fl clk_tck_hz proc now cpu).state
  unfolding sample
  sample-IsVouched proc now cpu v = elim (Bool-cases (leb now cpu.state.last_pass_ns)) [
    | inl y ↦ rw (y, sample) v
    | inr n ↦
        let s0 = record cpu.state { last_pass_ns = now } in
        let s1 = take_discovery proc cpu now s0 in
        let s2 = recheck proc cpu now s1 in
        rw (n, sample)
          (read_identity-IsVouched fl bounding clk_tck_hz proc cpu now s2.identity s2 refl
            ((recheck-IsSamePass proc cpu now s1).0 ∙ (take_discovery-taken proc cpu now s0).0)
            (recheck-IsVouched proc cpu now s1
              (take_discovery-IsVouched proc cpu now s0 (started proc now cpu n v))))
  ]

  -- What the program knows of a thread beside what has been seen.
  pub record IsCurrent (w : World) : Type 0 where
    pub last : w.last ≡ w.cpu.state.last_pass_ns
    pub waiting : w.cpu.state.finished ≡ w.waiting
    pub vouched : IsVouched w.cpu.state
    pub tracked : IsTracked w.cpu.pid w.cpu.tid w.sighting w.cpu.state

  sample-early :
      (proc : ProcFs) (now : ℕ) (cpu : ThreadCpu)
      → leb now cpu.state.last_pass_ns ≡ true
      → sample fl clk_tck_hz proc now cpu ≡ cpu
  unfolding sample
  sample-early proc now cpu y = rw (y, sample) refl

  passed-IsTracked :
      (proc : ProcFs) (now : ℕ) (cpu : ThreadCpu) (seen : Option Seen)
      → leb now cpu.state.last_pass_ns ≡ false
      → IsTracked cpu.pid cpu.tid seen cpu.state
      → let next = sample fl clk_tck_hz proc now cpu in
        (next.state.last_pass_ns ≡ now)
        × (next.state.finished ≡ none)
        × IsTracked next.pid next.tid
            (looks_at (proc.socket_inode cpu.path) now (takes proc now cpu.state.finished seen))
            next.state
  unfolding sample
  passed-IsTracked proc now cpu seen n k =
      let s0 = record cpu.state { last_pass_ns = now } in
      let s1 = take_discovery proc cpu now s0 in
      let s2 = recheck proc cpu now s1 in
      let read = read_identity-IsSamePass fl clk_tck_hz proc cpu now s2.identity s2 in
      let looked = recheck-IsSamePass proc cpu now s1 in
      let taken = take_discovery-taken proc cpu now s0 in
      rw (n, sample)
        (
          read.0 ∙ looked.0 ∙ taken.0,
          read.1 ∙ looked.1 ∙ taken.1,
          read_identity-IsTracked fl clk_tck_hz proc cpu now cpu.pid cpu.tid s2.identity _ s2 (
              recheck-IsTracked proc cpu now (takes proc now cpu.state.finished seen) s1 (
                take_discovery-IsTracked proc cpu now seen s0
                  (IsTracked-same cpu.pid cpu.tid seen s0 cpu.state (refl, refl, refl, refl) k))),
        )

  passes-IsCurrent :
      (proc : ProcFs) (now : ℕ) (w : World)
      → IsCurrent w
      → IsCurrent (passes fl clk_tck_hz proc now w)
  passes-IsCurrent proc now w c = elim (Bool-cases (leb now w.last)) [
    | inl y ↦
        let kept = sample-early proc now w.cpu (subst (λ n. leb now n ≡ true) c.last y) in
        rw y (record {
          last = c.last ∙ ap (λ x. x.state.last_pass_ns) (sym kept);
          waiting = ap (λ x. x.state.finished) kept ∙ c.waiting;
          vouched = subst (λ x. IsVouched x.state) (sym kept) c.vouched;
          tracked = subst (λ x. IsTracked x.pid x.tid w.sighting x.state) (sym kept) c.tracked;
        })
    | inr n ↦
        let passed =
          passed-IsTracked proc now w.cpu w.sighting (subst (λ n. leb now n ≡ false) c.last n)
            c.tracked in
        rw n (record {
          last = sym passed.0;
          waiting = passed.1;
          vouched = sample-IsVouched proc now w.cpu c.vouched;
          tracked =
              subst
                (λ d.
                  IsTracked (sample fl clk_tck_hz proc now w.cpu).pid
                    (sample fl clk_tck_hz proc now w.cpu).tid
                    (looks_at (proc.socket_inode w.cpu.path) now (takes proc now d w.sighting))
                    (sample fl clk_tck_hz proc now w.cpu).state)
                c.waiting passed.2;
        })
  ]

  begins-IsCurrent : (now : ℕ) (w : World) → IsCurrent w → IsCurrent (begins fl clk_tck_hz now w)
  unfolding begin_discovery
  begins-IsCurrent now w c = elim (Bool-cases (ltb now w.cpu.state.next_discovery_ns)) [
    | inl y ↦ rw (y, begin_discovery) c
    | inr n ↦
        rw (n, begin_discovery)
          (record {
            last = c.last;
            waiting = c.waiting;
            vouched = record { vouched = c.vouched.vouched; bounded = c.vouched.bounded };
            tracked =
                IsTracked-same w.cpu.pid w.cpu.tid w.sighting _ w.cpu.state (refl, refl, refl, refl)
                  c.tracked;
          })
  ]

  Reach-IsCurrent : (w : World) → Reach fl clk_tck_hz w → IsCurrent w
  unfolding new_thread_cpu finish_discovery
  Reach-IsCurrent _ (boot path pid tid) = record {
    last = refl;
    waiting = refl;
    vouched = record { vouched = inl refl; bounded = omega arith };
    tracked = inl refl;
  }
  Reach-IsCurrent _ (pass w proc now r) = passes-IsCurrent proc now w (Reach-IsCurrent w r)
  Reach-IsCurrent _ (begin w now r) = begins-IsCurrent now w (Reach-IsCurrent w r)
  Reach-IsCurrent _ (finish w discovery r) =
      let c = Reach-IsCurrent w r in
      record {
        last = c.last;
        waiting = refl;
        vouched = record { vouched = c.vouched.vouched; bounded = c.vouched.bounded };
        tracked =
            IsTracked-same w.cpu.pid w.cpu.tid w.sighting _ w.cpu.state (refl, refl, refl, refl)
              c.tracked;
      }

  -- The thread that is sampled is the one that is configured, in the owner that the latest discovery
  -- found, and each look at the socket file since has read the inode of that discovery.
  pub record IsCounted (w : World) : Type 0 where
    pub sighting : Seen
    pub is_latest : w.sighting ≡ some sighting
    pub unchanged : AreAll sighting.inode sighting.looks
    pub host : ℕ
    pub start : ℕ
    pub sampled : w.cpu.state.identity ≡ discovered sighting.owner host start
    pub configured : IsThread sighting.proc w.cpu.pid w.cpu.tid sighting.owner host start

  true≢false : true ≡ false → ⊥
  true≢false h = cc

  IsKnown-IsCounted :
      (w : World)
      → IsTracked w.cpu.pid w.cpu.tid w.sighting w.cpu.state
      → is_discovered w.cpu.state.identity ≡ true
      → w.cpu.state.owner_changed ≡ false
      → IsCounted w
  IsKnown-IsCounted w (inl e) d o = absurd (true≢false (sym d ∙ ap is_discovered e))
  IsKnown-IsCounted w (inr k) d o = elim k.tied [
    | by_name e ↦ absurd (true≢false (sym d ∙ ap is_discovered e))
    | by_owner host start e thread ↦ record {
      sighting = k.latest;
      is_latest = k.is_latest;
      unchanged = k.looked o;
      host = host;
      start = start;
      sampled = e;
      configured = thread;
    }
  ]

  -- However passes and discoveries interleave, a thread counts as load only while the last pass is less
  -- than a second back, and then for at most 1000 permille. It is then the thread that is configured, as
  -- the procfs names it, in the process that owned the socket by the latest discovery that found an owner
  -- and was taken by a pass; and no look at the socket file since has read an inode other than that
  -- discovery, where a pass looks when the discovery or the look before was taken 30 seconds before or more.
  pub load_sample-IsCounted :
      (w : World) (now util : ℕ)
      → Reach fl clk_tck_hz w
      → load_sample now w.cpu ≡ some util
      → IsCounted w × (now < w.last + 1000000000) × (util ≤ 1000)
  unfolding load_sample
  load_sample-IsCounted w now util r h =
      let c = Reach-IsCurrent w r in
      let (y, e) = counted w.cpu now util h in
      elim c.vouched.vouched [
        | inl z ↦ absurd (omega (arith, ltb→lt _ _ y, z))
        | inr (d, o, l) ↦ (
          IsKnown-IsCounted w c.tracked d o,
          omega (arith, l, ltb→lt _ _ y, c.last),
          subst (λ x. x ≤ 1000) e c.vouched.bounded,
        )
      ]
