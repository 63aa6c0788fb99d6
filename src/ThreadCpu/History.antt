-- ===== src/ThreadCpu/History.antt =====
-- src/thread_cpu.rs: what passes over one thread have seen of the owner of its socket, whatever the
-- program makes of it.
use symphony.Prelude.{Bytes, ltb, leb, if◌then◌else◌, ℕ, Option, none, some, List, [], ◌∷◌}
use symphony.Float.{Float64}
use symphony.ThreadCpu.{
  owner_recheck_ns, later, ProcFs, Discovery, ThreadCpu, new_thread_cpu, begin_discovery,
  finish_discovery,
}
use symphony.ThreadCpu.Sampling.{sample}

-- The owner that the latest discovery found and the inode that it read, the procfs of the pass that
-- took it, when the next look at the socket file is due, and what the looks since have read.
pub record Seen : Type 0 where
  pub owner : ℕ
  pub inode : Option ℕ
  pub proc : ProcFs
  pub due : ℕ
  pub looks : List (Option ℕ)

-- The thread, the time of the last pass, the discovery that no pass has taken yet, and what is seen.
pub record World : Type 0 where
  pub cpu : ThreadCpu
  pub last : ℕ
  pub waiting : Option Discovery
  pub sighting : Option Seen

-- A discovery that found no owner changes nothing.
abbrev pub takes : ProcFs → ℕ → Option Discovery → Option Seen → Option Seen
takes proc now none seen = seen
takes proc now (some discovery) seen = elim discovery.owner [
  | none ↦ seen
  | some owner ↦ some (record {
    owner = owner;
    inode = discovery.inode;
    proc = proc;
    due = later now owner_recheck_ns;
    looks = [];
  })
]

abbrev pub looks_at : Option ℕ → ℕ → Option Seen → Option Seen
looks_at inode now none = none
looks_at inode now (some seen) =
    if ltb now seen.due
    then some seen
    else some (record seen { due = later now owner_recheck_ns; looks = inode ∷ seen.looks })

module _ {F : Type 0} (fl : Float64 F) (clk_tck_hz : ℕ) where
  -- A pass at a time that is not ahead of the last pass does nothing.
  abbrev pub passes : ProcFs → ℕ → World → World
  passes proc now w =
      let done = record w { cpu = sample fl clk_tck_hz proc now w.cpu } in
      if leb now w.last then done else record done {
        last = now;
        waiting = none;
        sighting =
            looks_at (proc.socket_inode w.cpu.path) now (takes proc now w.waiting w.sighting);
      }

  abbrev pub begins : ℕ → World → World
  begins now w = record w { cpu = record w.cpu { state = (begin_discovery now w.cpu.state).1 } }

  abbrev pub finishes : Discovery → World → World
  finishes discovery w = record w {
    cpu = record w.cpu { state = finish_discovery discovery w.cpu.state };
    waiting = some discovery;
  }

  abbrev pub booted : Bytes → ℕ → ℕ → World
  booted path pid tid = record {
    cpu = new_thread_cpu path pid tid;
    last = 0;
    waiting = none;
    sighting = none;
  }

  -- What a sampler does to one thread: passes at any times, and discoveries that run beside them.
  pub data Reach : World → Type 0 where
    boot : (path : Bytes) (pid tid : ℕ) → Reach (booted path pid tid)
    pass : (w : World) (proc : ProcFs) (now : ℕ) → Reach w → Reach (passes proc now w)
    begin : (w : World) (now : ℕ) → Reach w → Reach (begins now w)
    finish : (w : World) (discovery : Discovery) → Reach w → Reach (finishes discovery w)
