-- ===== src/ThreadCpu/Sampling.antt =====
-- src/thread_cpu.rs: one sampling pass over a thread, and the smoothed load of a balancer.
use symphony.Prelude.{
  ltb, leb, ◌==◌, if◌then◌else◌, ℕ, ◌+◌, ◌-◌, ◌%◌, Bool, true, false, not, ◌&&◌, Option, none, some,
}
use symphony.Float.{Float64}
use symphony.TokenBucket.{u64_max}
use symphony.ThreadCpu.{
  sample_valid_ns, owner_recheck_ns, later, TaskStat, ProcFs, Identity, unresolved, literal,
  discovered, SampleState, ThreadCpu, apply_discovery,
}

abbrev pub u64_size : ℕ
u64_size = 18446744073709551616

-- The result of a discovery that has finished is taken in.
unfoldable pub take_discovery : ProcFs → ThreadCpu → ℕ → SampleState → SampleState
take_discovery proc cpu now state = elim state.finished [
  | none ↦ state
  | some discovery ↦ apply_discovery proc cpu discovery now (record state { finished = none })
]

abbrev pub eq_inode : Option ℕ → Option ℕ → Bool
eq_inode none none = true
eq_inode none (some b) = false
eq_inode (some a) none = false
eq_inode (some a) (some b) = a == b

unfoldable pub recheck : ProcFs → ThreadCpu → ℕ → SampleState → SampleState
recheck proc cpu now state =
    if ltb now state.next_recheck_ns
    then state
    else let next = record state { next_recheck_ns = later now owner_recheck_ns } in
      if eq_inode (proc.socket_inode cpu.path) state.inode
      then next
      else record next { next_discovery_ns = now; owner_changed = true; valid_until_ns = 0 }

-- The stat of a thread, if it is the one that was discovered.
unfoldable pub read_stat : ProcFs → ℕ → ℕ → Option ℕ → Option TaskStat
read_stat proc pid tid start = elim (proc.task_stat pid tid) [
  | none ↦ none
  | some stat ↦ elim start [
    | none ↦ some stat
    | some s ↦ if s == stat.start then some stat else none
  ]
]

-- What is left of the state of a thread that cannot be read.
unfoldable pub lost : ℕ → Option ℕ → SampleState → SampleState
lost now none state = record state { last_ns = 0; valid_until_ns = 0; util_permille = 0 }
lost now (some start) state = record state {
  last_ns = 0;
  valid_until_ns = 0;
  util_permille = 0;
  identity = unresolved;
  next_discovery_ns = now;
  next_recheck_ns = u64_max;
}

abbrev pub is_some : Option ℕ → Bool
is_some none = false
is_some (some a) = true

module _ {F : Type 0} (fl : Float64 F) (clk_tck_hz : ℕ) where
  -- The permille of a core that `ticks` in `ns` are, at most 1000.
  unfoldable pub util_of : ℕ → ℕ → ℕ
  util_of ticks ns = fl.to_u32 (
      fl.min_of
        (fl.mul
          (fl.div (fl.of_nat ticks)
            (fl.mul (fl.div (fl.of_nat ns) (fl.of_nat 1000000000)) (fl.of_nat clk_tck_hz)))
          (fl.of_nat 1000))
        (fl.of_nat 1000))

  unfoldable pub measure : ℕ → Option ℕ → TaskStat → SampleState → SampleState
  measure now start stat state =
      if ltb 0 state.last_ns
      then record state {
        util_permille = util_of (stat.ticks - state.last_ticks) (now - state.last_ns);
        valid_until_ns =
            if is_some start && not state.owner_changed
            then (now + sample_valid_ns) % u64_size
            else state.valid_until_ns;
        last_ticks = stat.ticks;
        last_ns = now;
      }
      else record state { last_ticks = stat.ticks; last_ns = now }

  unfoldable pub read_thread : ProcFs → ℕ → ℕ → ℕ → Option ℕ → SampleState → SampleState
  read_thread proc now pid tid start state = elim (read_stat proc pid tid start) [
    | none ↦ lost now start state
    | some stat ↦ measure now start stat state
  ]

  unfoldable pub read_identity : ProcFs → ThreadCpu → ℕ → Identity → SampleState → SampleState
  read_identity proc cpu now unresolved state = record state { util_permille = 0 }
  read_identity proc cpu now literal state = read_thread proc now cpu.pid cpu.tid none state
  read_identity proc cpu now (discovered pid tid start) state =
      read_thread proc now pid tid (some start) state

  -- The utilisation of the state and the one that the balancer reads are stored together.
  unfoldable pub sample : ProcFs → ℕ → ThreadCpu → ThreadCpu
  sample proc now cpu =
      if leb now cpu.state.last_pass_ns
      then cpu
      else let state = record cpu.state { last_pass_ns = now } in
        let state = recheck proc cpu now (take_discovery proc cpu now state) in
        let state = read_identity proc cpu now state.identity state in
        record cpu { util_permille = state.util_permille; state = state }

unfoldable pub load_sample : ℕ → ThreadCpu → Option ℕ
load_sample now cpu =
    if ltb now cpu.state.valid_until_ns then some cpu.state.util_permille else none
