-- ===== src/ThreadCpu.antt =====
-- src/thread_cpu.rs: the worker thread behind a slot. The procfs is a parameter that answers for the
-- state of one pass, `clk_tck` and the arithmetic of `f64` are too. A build for Linux.
use symphony.Prelude.{
  Bytes, eq_bytes, Result, ok_or, ok, err, ltb, ◌==◌, if◌then◌else◌, ℕ, ◌+◌, min, Bool, true, false,
  not, ◌&&◌, Option, none, some, List, [], ◌∷◌,
}
use symphony.TokenBucket.{u64_max}
pub mod Sampling
pub mod Smoothing
mod Tests
pub mod Vouched
pub mod History
pub mod Passes
pub mod Owner
pub mod Tied
pub mod Reading
pub mod Counted

abbrev pub sample_valid_ns : ℕ
sample_valid_ns = 1000000000

abbrev pub discovery_retry_ns : ℕ
discovery_retry_ns = 5000000000

abbrev pub owner_recheck_ns : ℕ
owner_recheck_ns = 30000000000

-- `saturating_add` of a `u64`
abbrev pub later : ℕ → ℕ → ℕ
later now ns = min (now + ns) u64_max

pub record TaskStat : Type 0 where
  pub ticks : ℕ
  pub start : ℕ

pub record ProcessView : Type 0 where
  pub innermost_pid : ℕ
  pub nested : Bool
  pub threads : List (ℕ × ℕ)

pub record ProcFs : Type 0 where
  pub task_stat : ℕ → ℕ → Option TaskStat
  pub process_view : ℕ → Option ProcessView
  -- `socket_inode`
  pub socket_inode : Bytes → Option ℕ

pub data Identity : Type 0 where
  unresolved literal : Identity
  -- pid, tid and start
  discovered : ℕ → ℕ → ℕ → Identity

pub record Discovery : Type 0 where
  pub owner : Option ℕ
  pub inode : Option ℕ

pub record SampleState : Type 0 where
  pub identity : Identity
  pub next_discovery_ns : ℕ
  pub finished : Option Discovery
  pub inode : Option ℕ
  pub next_recheck_ns : ℕ
  pub owner_changed : Bool
  pub last_pass_ns : ℕ
  pub last_ticks : ℕ
  pub last_ns : ℕ
  pub valid_until_ns : ℕ
  pub util_permille : ℕ

-- `util_permille` is what the balancer reads, that of the state what counts as load.
pub record ThreadCpu : Type 0 where
  pub path : Bytes
  pub pid : ℕ
  pub tid : ℕ
  pub util_permille : ℕ
  pub state : SampleState

unfoldable pub new_thread_cpu : Bytes → ℕ → ℕ → ThreadCpu
new_thread_cpu path pid tid = record {
  path = path;
  pid = pid;
  tid = tid;
  util_permille = 0;
  state = record {
    identity = unresolved;
    next_discovery_ns = 0;
    finished = none;
    inode = none;
    next_recheck_ns = u64_max;
    owner_changed = false;
    last_pass_ns = 0;
    last_ticks = 0;
    last_ns = 0;
    valid_until_ns = 0;
    util_permille = 0;
  };
}

-- The ids that `configured` compares.
unfoldable pub same_configured : ThreadCpu → ThreadCpu → Bool
same_configured a b = eq_bytes a.path b.path && a.pid == b.pid && a.tid == b.tid

unfoldable pub find_thread : ℕ → List (ℕ × ℕ) → Option ℕ
find_thread inner [] = none
find_thread inner ((k, host) ∷ threads) =
    if k == inner then some host else find_thread inner threads

-- `none` where the owner's namespace does not name the configured thread yet.
unfoldable pub host_tid : ℕ → ℕ → ℕ → ProcessView → Result Identity ℕ
unfolding find_thread
host_tid configured_pid configured_tid owner view =
    if view.innermost_pid == configured_pid && not view.nested
    then ok configured_tid
    else if view.innermost_pid == configured_pid
    then ok_or (find_thread configured_tid view.threads) unresolved
    else if owner == configured_pid
    then ok configured_tid
    else err literal

unfoldable pub resolve : ProcFs → ℕ → ℕ → ℕ → Identity
resolve proc configured_pid configured_tid owner = elim (proc.process_view owner) [
  | none ↦ unresolved
  | some view ↦ elim (host_tid configured_pid configured_tid owner view) [
    | err identity ↦ identity
    | ok tid ↦ elim (proc.task_stat owner tid) [
      | none ↦ unresolved
      | some stat ↦ discovered owner tid stat.start
    ]
  ]
]

unfoldable pub begin_discovery : ℕ → SampleState → Bool × SampleState
begin_discovery now state =
    if ltb now state.next_discovery_ns
    then (false, state)
    else (true, record state { next_discovery_ns = later now discovery_retry_ns })

unfoldable pub finish_discovery : Discovery → SampleState → SampleState
finish_discovery discovery state = record state { finished = some discovery }

unfoldable pub eq_identity : Identity → Identity → Bool
eq_identity unresolved unresolved = true
eq_identity literal literal = true
eq_identity (discovered p t s) (discovered q u r) = p == q && t == u && s == r
eq_identity i j = false

-- A changed identity starts from no baseline.
unfoldable pub adopt : Identity → SampleState → SampleState
adopt identity state =
    if eq_identity identity state.identity
    then state
    else record state { identity = identity; last_ns = 0; valid_until_ns = 0 }

-- When the next discovery and the next look at the socket file are due.
unfoldable pub reschedule : ℕ → Option ℕ → Identity → SampleState → SampleState
reschedule now inode unresolved state = record state {
  owner_changed = false;
  next_discovery_ns = later now discovery_retry_ns;
  next_recheck_ns = u64_max;
}
reschedule now inode identity state = record state {
  owner_changed = false;
  next_discovery_ns = u64_max;
  next_recheck_ns = later now owner_recheck_ns;
  inode = inode;
}

unfoldable pub apply_discovery : ProcFs → ThreadCpu → Discovery → ℕ → SampleState → SampleState
apply_discovery proc cpu discovery now state = elim discovery.owner [
  | none ↦ record state { next_discovery_ns = later now discovery_retry_ns }
  | some owner ↦
      let identity = resolve proc cpu.pid cpu.tid owner in
      adopt identity (reschedule now discovery.inode identity state)
]
