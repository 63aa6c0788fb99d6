-- ===== src/ThreadCpu/Reading.antt =====
-- src/thread_cpu.rs: the reading of a thread beside what is known of its owner.
use symphony.Prelude.{ltb, Bool-cases, Option-cases, ℕ, refl, inl, inr, Option, none, some}
use symphony.Float.{Float64}
use symphony.ThreadCpu.{
  ProcFs, Identity, unresolved, literal, discovered, SampleState, ThreadCpu, TaskStat,
}
use symphony.ThreadCpu.Sampling.{read_stat, lost, measure, read_thread, read_identity}
use symphony.ThreadCpu.History.{Seen}
use symphony.ThreadCpu.Tied.{IsTracked, IsSameOwner, IsTracked-same}

module _ {F : Type 0} (fl : Float64 F) (clk_tck_hz : ℕ) where
  measure-same :
      (now : ℕ) (start : Option ℕ) (stat : TaskStat) (s : SampleState)
      → IsSameOwner (measure fl clk_tck_hz now start stat s) s
  unfolding measure
  measure-same now start stat s = elim (Bool-cases (ltb 0 s.last_ns)) [
    | inl y ↦ rw (y, measure) (refl, refl, refl, refl)
    | inr n ↦ rw (n, measure) (refl, refl, refl, refl)
  ]

  -- A thread that cannot be read any more stays as it was, or is not resolved.
  read_thread-IsTracked :
      (proc : ProcFs) (now p t pid tid : ℕ) (start : Option ℕ) (seen : Option Seen)
      (s : SampleState)
      → IsTracked pid tid seen s
      → IsTracked pid tid seen (read_thread fl clk_tck_hz proc now p t start s)
  unfolding read_thread lost
  read_thread-IsTracked proc now p t pid tid start seen s k =
      elim (Option-cases (read_stat proc p t start)) [
        | inr (stat, e) ↦
            rw (e, read_thread) (IsTracked-same pid tid seen _ s (measure-same now start stat s) k)
        | inl e ↦ rw (e, read_thread) (lost-IsTracked start)
      ]
    where
      lost-IsTracked : (start : Option ℕ) → IsTracked pid tid seen (lost now start s)
      lost-IsTracked none = IsTracked-same pid tid seen _ s (refl, refl, refl, refl) k
      lost-IsTracked (some begun) = inl refl

  pub read_identity-IsTracked :
      (proc : ProcFs) (cpu : ThreadCpu) (now pid tid : ℕ) (i : Identity) (seen : Option Seen)
      (s : SampleState)
      → IsTracked pid tid seen s
      → IsTracked pid tid seen (read_identity fl clk_tck_hz proc cpu now i s)
  unfolding read_identity
  read_identity-IsTracked proc cpu now pid tid unresolved seen s k =
      IsTracked-same pid tid seen _ s (refl, refl, refl, refl) k
  read_identity-IsTracked proc cpu now pid tid literal seen s k =
      read_thread-IsTracked proc now cpu.pid cpu.tid pid tid none seen s k
  read_identity-IsTracked proc cpu now pid tid (discovered p t start) seen s k =
      read_thread-IsTracked proc now p t pid tid (some start) seen s k
