-- ===== src/ThreadCpu/Tests.antt =====
-- src/thread_cpu.rs: a thread is discovered, measured twice, and counts as load.
use symphony.Prelude.{ℕ, ◌+◌, ◌≤◌, ◌<◌, ◌≡◌, refl, false, none, some, [], ◌∷◌}
use symphony.Router.Samples.{whole-IsBounding, whole}
use symphony.ThreadCpu.{
  eq_identity, find_thread, host_tid, resolve, reschedule, adopt, apply_discovery, ProcFs,
  Discovery, new_thread_cpu, begin_discovery, finish_discovery,
}
use symphony.ThreadCpu.Sampling.{
  lost, util_of, measure, read_stat, read_thread, read_identity, recheck, take_discovery, sample,
  load_sample,
}
use symphony.ThreadCpu.History.{
  World, booted, begins, finishes, passes, Reach, boot, pass, begin, finish,
}
use symphony.ThreadCpu.Counted.{IsCounted, load_sample-IsCounted}

-- The process 7 has one thread, and the file of the socket never changes.
abbrev proc_at : ℕ → ProcFs
proc_at ticks = record {
  task_stat = λ pid tid. some (record { ticks = ticks; start = 11 });
  process_view = λ pid. some (record { innermost_pid = 7; nested = false; threads = [] });
  socket_inode = λ path. some 4;
}

abbrev found : Discovery
found = record { owner = some 7; inode = some 4 }

abbrev searched : World
searched = begins whole 100 1000000000 (booted whole 100 (1 ∷ []) 7 8)

abbrev found_owner : World
found_owner = finishes whole 100 found searched

abbrev once : World
once = passes whole 100 (proc_at 50) 2000000000 found_owner

abbrev twice : World
twice = passes whole 100 (proc_at 150) 3000000000 once

twice-Reach : Reach whole 100 twice
twice-Reach = pass once (proc_at 150) 3000000000 (
    pass found_owner (proc_at 50) 2000000000 (
      finish searched found (begin (booted whole 100 (1 ∷ []) 7 8) 1000000000 (boot (1 ∷ []) 7 8))))

program : Unit {0}
unfolding load_sample sample take_discovery recheck read_identity read_thread read_stat measure
    util_of lost apply_discovery adopt reschedule resolve host_tid find_thread eq_identity
    begin_discovery finish_discovery new_thread_cpu
program = tt

counts : load_sample 3500000000 twice.cpu ≡ some 1000
unfolding program
counts = refl

-- Another file stands at the path at a look 30 seconds on, and the thread is no longer load.
abbrev replaced : World
replaced =
    passes whole 100 (record (proc_at 250) { socket_inode = λ path. some 5 }) 40000000000 twice

replaced_is_not_load : load_sample 40500000000 replaced.cpu ≡ none
unfolding program
replaced_is_not_load = refl

load_sample-IsCounted_example :
    IsCounted whole whole-IsBounding 100 twice
    × (3500000000 < twice.last + 1000000000)
    × (1000 ≤ 1000)
load_sample-IsCounted_example =
    load_sample-IsCounted whole whole-IsBounding 100 twice 3500000000 1000 twice-Reach counts
