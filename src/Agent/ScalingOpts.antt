-- ===== src/Agent/ScalingOpts.antt =====
-- The options of DPDK scaling for a container's CPUs (generateCPUScalingOpts of
-- controllers/powerpod_controller.go), and the connections of the telemetry client
-- (EnsureConnection and CloseConnection of internal/scaling/dpdk_client.go).
pub mod Ranges
use cluster_power_manager.Base.{
  ℕ, ◌/◌, List, [], ◌∷◌, Option, none, some, String, str_eq, if◌then◌else◌, pos, ◌*ℤ◌, add64, sub64,
  mul64, to_uint, to_int, lookup,
}
use cluster_power_manager.Power.PStates.{FreqPlatform, get_abs_min_max}
use cluster_power_manager.Power.Cpu.{by_id}
use cluster_power_manager.Scaling.Updater.{CpuScalingOpts, frequency_not_yet_set}
use cluster_power_manager.Agent.Cluster.{CpuScalingPolicy}

-- The fallback frequency in kHz.
unfoldable pub fallback_frequency : CpuScalingPolicy → ℕ → ℕ → ℕ
fallback_frequency policy mn mx =
    add64 mn (mul64 (sub64 mx mn) (to_uint policy.fallback_freq_percent) / 100)

-- `ScaleFactor`, a floating-point number, is part of the formula that the updater takes as a parameter.
unfoldable pub scaling_opts : CpuScalingPolicy → ℕ → ℕ × ℕ → CpuScalingOpts
scaling_opts policy cpu (mn, mx) = record {
  cpu = cpu;
  sample_period = policy.sample_period;
  cooldown_period = policy.cooldown_period;
  target_usage = policy.target_usage;
  allowed_usage_difference = policy.allowed_usage_difference;
  allowed_frequency_difference = to_int (to_uint (policy.allowed_frequency_difference *ℤ pos 1000));
  hw_max_frequency = to_int mx;
  hw_min_frequency = to_int mn;
  current_target_frequency = frequency_not_yet_set;
  fallback_freq = to_int (fallback_frequency policy mn mx);
}

-- The options, and the ids that no CPU has.
abbrev pub add_opts :
    FreqPlatform
    → CpuScalingPolicy
    → ℕ
    → Option ℕ
    → List CpuScalingOpts × List ℕ
    → List CpuScalingOpts × List ℕ
add_opts p policy id none (opts, missing) = (opts, id ∷ missing)
add_opts p policy id (some cpu) (opts, missing) =
    (scaling_opts policy cpu (get_abs_min_max p cpu) ∷ opts, missing)

unfoldable pub generate_cpu_scaling_opts :
    FreqPlatform → List ℕ → CpuScalingPolicy → List ℕ → List CpuScalingOpts × List ℕ
generate_cpu_scaling_opts p all_cpus policy [] = ([], [])
generate_cpu_scaling_opts p all_cpus policy (id ∷ ids) =
    add_opts p policy id (by_id id all_cpus) (generate_cpu_scaling_opts p all_cpus policy ids)

-- `LoadOrStore`: a connection that is there keeps the CPUs that it watches.
abbrev pub store_new :
    String → List ℕ → Option (List ℕ) → List (String × List ℕ) → List (String × List ℕ)
store_new uid watched none m = (uid, watched) ∷ m
store_new uid watched (some old) m = m

unfoldable pub ensure_connection : String → List ℕ → List (String × List ℕ) → List (String × List ℕ)
ensure_connection uid watched m = store_new uid watched (lookup uid m) m

unfoldable pub close_connection : String → List (String × List ℕ) → List (String × List ℕ)
close_connection uid [] = []
close_connection uid ((k, v) ∷ m) =
    let rest = close_connection uid m in if str_eq k uid then rest else (k, v) ∷ rest
