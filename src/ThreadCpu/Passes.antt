-- ===== src/ThreadCpu/Passes.antt =====
-- src/thread_cpu.rs: the time of a pass, and the discovery that it takes.
use symphony.Prelude.{ltb, Bool-cases, Option-cases, ℕ, ◌≡◌, refl, inl, inr, Option, none, some}
use symphony.Float.{Float64}
use symphony.ThreadCpu.{
  TaskStat, ProcFs, Identity, unresolved, literal, discovered, Discovery, SampleState, ThreadCpu,
  resolve, eq_identity, adopt, reschedule, apply_discovery,
}
use symphony.ThreadCpu.Sampling.{
  eq_inode, take_discovery, recheck, read_stat, lost, measure, read_thread, read_identity,
}

-- The states are of one pass.
abbrev pub IsSamePass : SampleState → SampleState → Type 0
IsSamePass r s = (r.last_pass_ns ≡ s.last_pass_ns) × (r.finished ≡ s.finished)

module _ (proc : ProcFs) (cpu : ThreadCpu) (now : ℕ) where
  reschedule-IsSamePass :
      (inode : Option ℕ) (i : Identity) (s : SampleState) → IsSamePass (reschedule now inode i s) s
  unfolding reschedule
  reschedule-IsSamePass inode unresolved s = (refl, refl)
  reschedule-IsSamePass inode literal s = (refl, refl)
  reschedule-IsSamePass inode (discovered p t q) s = (refl, refl)

  apply_discovery-IsSamePass :
      (discovery : Discovery) (s : SampleState)
      → IsSamePass (apply_discovery proc cpu discovery now s) s
  unfolding apply_discovery adopt
  apply_discovery-IsSamePass discovery s = elim (Option-cases discovery.owner) [
    | inl e ↦ rw (e, apply_discovery) (refl, refl)
    | inr (owner, e) ↦
        let identity = resolve proc cpu.pid cpu.tid owner in
        let r = reschedule now discovery.inode identity s in
        let f = reschedule-IsSamePass discovery.inode identity s in
        elim (Bool-cases (eq_identity identity r.identity)) [
          | inr n ↦ rw (e, n, apply_discovery, adopt) f
          | inl y ↦ rw (e, y, apply_discovery, adopt) f
        ]
  ]

  pub take_discovery-taken :
      (s : SampleState)
      → ((take_discovery proc cpu now s).last_pass_ns ≡ s.last_pass_ns)
        × ((take_discovery proc cpu now s).finished ≡ none)
  unfolding take_discovery
  take_discovery-taken s = elim (Option-cases s.finished) [
    | inl e ↦ rw (e, take_discovery) (refl, e)
    | inr (discovery, e) ↦
        rw (e, take_discovery) (apply_discovery-IsSamePass discovery (record s { finished = none }))
  ]

  pub recheck-IsSamePass : (s : SampleState) → IsSamePass (recheck proc cpu now s) s
  unfolding recheck
  recheck-IsSamePass s = elim (Bool-cases (ltb now s.next_recheck_ns)) [
    | inl y ↦ rw (y, recheck) (refl, refl)
    | inr n ↦ elim (Bool-cases (eq_inode (proc.socket_inode cpu.path) s.inode)) [
      | inl e ↦ rw (n, e, recheck) (refl, refl)
      | inr e ↦ rw (n, e, recheck) (refl, refl)
    ]
  ]

module _ {F : Type 0} (fl : Float64 F) (clk_tck_hz : ℕ) where
  measure-IsSamePass :
      (now : ℕ) (start : Option ℕ) (stat : TaskStat) (s : SampleState)
      → IsSamePass (measure fl clk_tck_hz now start stat s) s
  unfolding measure
  measure-IsSamePass now start stat s = elim (Bool-cases (ltb 0 s.last_ns)) [
    | inl y ↦ rw (y, measure) (refl, refl)
    | inr n ↦ rw (n, measure) (refl, refl)
  ]

  lost-IsSamePass : (now : ℕ) (start : Option ℕ) (s : SampleState) → IsSamePass (lost now start s) s
  unfolding lost
  lost-IsSamePass now none s = (refl, refl)
  lost-IsSamePass now (some start) s = (refl, refl)

  read_thread-IsSamePass :
      (proc : ProcFs) (now p t : ℕ) (start : Option ℕ) (s : SampleState)
      → IsSamePass (read_thread fl clk_tck_hz proc now p t start s) s
  unfolding read_thread
  read_thread-IsSamePass proc now p t start s = elim (Option-cases (read_stat proc p t start)) [
    | inr (stat, e) ↦ rw (e, read_thread) (measure-IsSamePass now start stat s)
    | inl e ↦ rw (e, read_thread) (lost-IsSamePass now start s)
  ]

  pub read_identity-IsSamePass :
      (proc : ProcFs) (cpu : ThreadCpu) (now : ℕ) (i : Identity) (s : SampleState)
      → IsSamePass (read_identity fl clk_tck_hz proc cpu now i s) s
  unfolding read_identity
  read_identity-IsSamePass proc cpu now unresolved s = (refl, refl)
  read_identity-IsSamePass proc cpu now literal s =
      read_thread-IsSamePass proc now cpu.pid cpu.tid none s
  read_identity-IsSamePass proc cpu now (discovered p t start) s =
      read_thread-IsSamePass proc now p t (some start) s
