-- ===== src/Scaling/Tests.antt =====
-- Runs of the scaling parts.
use cluster_power_manager.Base.{
  ◌≡◌, refl, ◌==◌, arith, false, [], ◌∷◌, Option, none, some, pos, if◌then◌else◌, contains,
}
use cluster_power_manager.Power.Sysfs.{Sysfs}
use cluster_power_manager.Scaling.Updater.{CpuScalingOpts, Readings, frequency_not_yet_set}
use cluster_power_manager.Scaling.Manager.{
  Manager, IsTracked, last_opts, add_cpu_scaling, remove_cpu_scaling, add_cpu_scaling-IsTracked,
  remove_cpu_scaling-IsTracked,
}
use cluster_power_manager.Scaling.Telemetry.{
  Metrics, UsageData, handle_usage, get_usage_percent, IsBounded, handle_usage-IsBounded,
  handle_usage-total,
}

abbrev opts : CpuScalingOpts
opts = record {
  cpu = 3;
  sample_period = pos 10;
  cooldown_period = pos 30;
  target_usage = pos 80;
  allowed_usage_difference = pos 5;
  allowed_frequency_difference = pos 25000;
  hw_max_frequency = pos 3700000;
  hw_min_frequency = pos 800000;
  current_target_frequency = frequency_not_yet_set;
  fallback_freq = pos 2500000;
}

-- A busy CPU at 3.5 GHz, which the formula would take beyond its maximum.
abbrev busy : Readings
busy = record {
  usage = λ c. some (pos 99);
  current_frequency = λ c. some 3500000;
  next = λ o f usage. pos 4300000;
}

abbrev sysfs : Sysfs
sysfs = record { log = []; tick = 0; fails = λ n. false }

abbrev idle : Manager
idle = record { workers = λ c. none; events = [] }

idle-IsTracked : IsTracked idle
idle-IsTracked c = refl

add_cpu_scaling-IsTracked_example :
    ((add_cpu_scaling (opts ∷ opts ∷ []) idle).workers 3 ≡ last_opts 3 (opts ∷ opts ∷ []) none)
    × IsTracked (add_cpu_scaling (opts ∷ opts ∷ []) idle)
add_cpu_scaling-IsTracked_example =
    add_cpu_scaling-IsTracked (opts ∷ opts ∷ []) idle 3 idle-IsTracked

abbrev tracked : Manager
tracked = add_cpu_scaling (opts ∷ []) idle

remove_cpu_scaling-IsTracked_example :
    ((remove_cpu_scaling (3 ∷ []) tracked).workers 3
      ≡ (if contains 3 (3 ∷ []) then none else tracked.workers 3))
    × IsTracked (remove_cpu_scaling (3 ∷ []) tracked)
remove_cpu_scaling-IsTracked_example =
    remove_cpu_scaling-IsTracked (3 ∷ []) tracked 3
      (add_cpu_scaling-IsTracked (opts ∷ []) idle 3 idle-IsTracked).1

abbrev answer : UsageData
answer = record {
  lcore_ids = 3 ∷ 5 ∷ [];
  total_cycles = 1000 ∷ 2000 ∷ [];
  busy_cycles = 900 ∷ 500 ∷ [];
}

-- CPU 3 was seen before.
abbrev metrics : Metrics
metrics = record {
  prev_usage_cycles = λ c. if c == 3 then some (record { total = 500; busy = 600 }) else none;
  delta_usage = λ c. none;
}

metrics-IsBounded : IsBounded metrics
unfolding get_usage_percent
metrics-IsBounded c p h = absurd (cc)

abbrev read_once : Option Metrics
read_once = handle_usage answer (3 ∷ 5 ∷ 8 ∷ []) metrics

handle_usage-total_example : (k : Metrics) × (read_once ≡ some k)
handle_usage-total_example =
    handle_usage-total answer (omega arith) (omega arith) (3 ∷ 5 ∷ 8 ∷ []) metrics

handle_usage-IsBounded_example : IsBounded handle_usage-total_example.0
handle_usage-IsBounded_example =
    handle_usage-IsBounded answer (3 ∷ 5 ∷ 8 ∷ []) metrics _ metrics-IsBounded
      handle_usage-total_example.1
