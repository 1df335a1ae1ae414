-- ===== src/Agent/ScalingOpts/Ranges.antt =====
-- The frequencies in the options of DPDK scaling (generateCPUScalingOpts of
-- controllers/powerpod_controller.go).
use cluster_power_manager.Base.{
  ℕ, ◌-◌, ◌*◌, ◌/◌, ◌≡◌, ◌≤◌, List, [], ◌∷◌, if◌then◌else◌, pos, contains, ◌+◌, to_int, to_uint,
  ◌*ℤ◌, negsuc,
}
use cluster_power_manager.Power.PStates.{FreqPlatform, get_abs_min_max}
use cluster_power_manager.Scaling.Updater.{CpuScalingOpts}
use cluster_power_manager.Agent.Cluster.{CpuScalingPolicy}

-- The limits are those of the option's CPU, and the fallback is the policy's share of the way from the
-- lower to the upper one, so it is between them.
abbrev pub IsInRange : FreqPlatform → ℕ → CpuScalingOpts → Type 0
IsInRange p pct o =
    let r = get_abs_min_max p o.cpu in
    (o.hw_min_frequency ≡ pos r.0)
    × (o.hw_max_frequency ≡ pos r.1)
    × (o.fallback_freq ≡ pos (r.0 + (r.1 - r.0) * pct / 100))
    × (r.0 + (r.1 - r.0) * pct / 100 ≤ r.1)

-- The periods, the target and the allowed differences are the policy's, the one of frequencies in kHz as
-- Go's `int`, and no frequency has been set.
abbrev pub IsFromPolicy : CpuScalingPolicy → CpuScalingOpts → Type 0
IsFromPolicy policy o =
    (o.sample_period ≡ policy.sample_period)
    × (o.cooldown_period ≡ policy.cooldown_period)
    × (o.target_usage ≡ policy.target_usage)
    × (o.allowed_usage_difference ≡ policy.allowed_usage_difference)
    × (o.allowed_frequency_difference
        ≡ to_int (to_uint (policy.allowed_frequency_difference *ℤ pos 1000)))
    × (o.current_target_frequency ≡ negsuc 0)

abbrev pub known_ids : List ℕ → List ℕ → List ℕ
known_ids all [] = []
known_ids all (id ∷ ids) = if contains id all then id ∷ known_ids all ids else known_ids all ids

abbrev pub unknown_ids : List ℕ → List ℕ → List ℕ
unknown_ids all [] = []
unknown_ids all (id ∷ ids) =
    if contains id all then unknown_ids all ids else id ∷ unknown_ids all ids
