-- ===== src/ThreadCpu/Smoothing.antt =====
-- src/thread_cpu.rs: a pass over the threads of all balancers, and the load that it publishes. Each
-- balancer has threads and a load of its own.
use symphony.Prelude.{
  ltb, leb, ◌==◌, if◌then◌else◌, ℕ, suc, ◌+◌, ◌-◌, ◌*◌, ◌/◌, ◌%◌, min, Option, none, some, List, [],
  ◌∷◌,
}
use symphony.Float.{Float64}
use symphony.ThreadCpu.{sample_valid_ns, ProcFs}
use symphony.ThreadCpu.Sampling.{u64_size, sample, load_sample}
use symphony.Balancer.{UdsSlot, UdsBalancer}

abbrev pub load_time_constant_ns : ℕ
load_time_constant_ns = 3000000000

-- `value` is the smoothed permille and the time of the sample it took in last.
pub record LoadEwma (F : Type 0) : Type 0 where
  pub value : Option (F × ℕ)
  pub last_pass_ns : ℕ
  pub published : ℕ

-- `LoadEwma::default`
abbrev pub new_load : {F : Type 0} → LoadEwma F
new_load = record { value = none; last_pass_ns = 0; published = 0 }

-- The sum of the loads that are known at `now`, and how many they are.
unfoldable pub known_loads : ℕ → List UdsSlot → ℕ × ℕ
known_loads now [] = (0, 0)
known_loads now (slot ∷ slots) =
    let rest = known_loads now slots in
    elim slot.cpu [
      | none ↦ rest
      | some cpu ↦ elim (load_sample now cpu) [
        | none ↦ rest
        | some util ↦ (util + rest.0, suc rest.1)
      ]
    ]

unfoldable pub mean_load : ℕ → List UdsSlot → Option ℕ
mean_load now slots =
    let loads = known_loads now slots in if loads.1 == 0 then none else some (loads.0 / loads.1)

module _ {F : Type 0} (fl : Float64 F) where
  -- The old value counts for less the longer it is out of sight.
  unfoldable pub smoothed : Option (F × ℕ) → ℕ → ℕ → F
  smoothed none mean now = fl.of_nat mean
  smoothed (some (value, at)) mean now =
      let alpha =
        fl.sub (fl.of_nat 1)
          (fl.exp (fl.div (fl.neg (fl.of_nat (now - at))) (fl.of_nat load_time_constant_ns))) in
      if ltb (now - at) (3 * load_time_constant_ns)
      then fl.add value (fl.mul alpha (fl.sub (fl.of_nat mean) value))
      else fl.of_nat mean

  unfoldable pub publish : F → ℕ → ℕ
  publish value now =
      (now + sample_valid_ns) % u64_size / 1000000 * 1024 % u64_size
      + min (fl.to_u64 (fl.round value)) 1000

  unfoldable pub update : Option ℕ → ℕ → LoadEwma F → LoadEwma F
  update mean now e = if leb now e.last_pass_ns then e else elim mean [
    | none ↦ record e { last_pass_ns = now; published = 0 }
    | some m ↦
        let value = smoothed e.value m now in
        record { value = some (value, now); last_pass_ns = now; published = publish value now }
  ]

  unfoldable pub sample_slots : ℕ → ProcFs → ℕ → List UdsSlot → List UdsSlot
  sample_slots clk_tck_hz proc now [] = []
  sample_slots clk_tck_hz proc now (slot ∷ slots) =
      record slot {
        cpu = elim slot.cpu [ none ↦ none | some cpu ↦ some (sample fl clk_tck_hz proc now cpu) ];
      }
      ∷ sample_slots clk_tck_hz proc now slots

  unfoldable pub sample_balancer :
      ℕ → ProcFs → ℕ → UdsBalancer × LoadEwma F → UdsBalancer × LoadEwma F
  sample_balancer clk_tck_hz proc now (b, e) =
      let slots = sample_slots clk_tck_hz proc now b.sockets in
      (record b { sockets = slots }, update (mean_load now slots) now e)

  unfoldable pub sample_table :
      ℕ → ProcFs → ℕ → List (UdsBalancer × LoadEwma F) → List (UdsBalancer × LoadEwma F)
  sample_table clk_tck_hz proc now [] = []
  sample_table clk_tck_hz proc now (one ∷ balancers) =
      sample_balancer clk_tck_hz proc now one ∷ sample_table clk_tck_hz proc now balancers
