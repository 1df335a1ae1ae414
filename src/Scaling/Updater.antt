-- ===== src/Scaling/Updater.antt =====
-- One step of a CPU's scaling (internal/scaling/updater.go, common.go).
use cluster_power_manager.Base.{
  ℕ, ◌≡◌, ◌⊎◌, not, Bool, false, ◌&&◌, ◌∷◌, Option, none, some, arith, if◌then◌else◌, ℤ, negsuc,
  ◌+ℤ◌, ◌-ℤ◌, ◌≤ℤ◌, ◌<ℤ◌, ◌≢◌, true, ltb_ℤ, leb_ℤ, to_uint, to_int,
}
use cluster_power_manager.Power.Sysfs.{Sysfs, scaling_setspeed, number, Result, ok}
use cluster_power_manager.Power.PStates.{set_cpu_frequency}

-- `CPUScalingOpts`; the scale factor stands in `next` below.
pub record CpuScalingOpts : Type 0 where
  pub cpu : ℕ
  pub sample_period : ℤ
  pub cooldown_period : ℤ
  pub target_usage : ℤ
  pub allowed_usage_difference : ℤ
  pub allowed_frequency_difference : ℤ
  pub hw_max_frequency : ℤ
  pub hw_min_frequency : ℤ
  pub current_target_frequency : ℤ
  pub fallback_freq : ℤ

-- What a step reads: the client's usage of a CPU, the CPU's frequency file, and the floating-point
-- formula for the next frequency, truncated. (`none` is an error.)
pub record Readings : Type 0 where
  pub usage : ℕ → Option ℤ
  pub current_frequency : ℕ → Option ℕ
  pub next : CpuScalingOpts → ℤ → ℤ → ℤ

abbrev pub frequency_not_yet_set : ℤ
frequency_not_yet_set = negsuc 0

-- Go's `int` arithmetic, which wraps.
abbrev add_int : ℤ → ℤ → ℤ
add_int a b = to_int (to_uint (a +ℤ b))

abbrev sub_int : ℤ → ℤ → ℤ
sub_int a b = to_int (to_uint (a -ℤ b))

abbrev eq_ℤ : ℤ → ℤ → Bool
eq_ℤ a b = leb_ℤ a b && leb_ℤ b a

unfoldable pub frequency_in_allowed_difference : ℤ → CpuScalingOpts → Bool
frequency_in_allowed_difference f o =
    not (eq_ℤ o.current_target_frequency frequency_not_yet_set)
    && leb_ℤ (sub_int o.current_target_frequency o.allowed_frequency_difference) f
    && leb_ℤ f (add_int o.current_target_frequency o.allowed_frequency_difference)

pub record Step : Type 0 where
  pub period : ℤ
  pub opts : CpuScalingOpts
  pub sysfs : Sysfs

-- The target is stored once the write has succeeded; a failure waits for the next sample.
abbrev settle_frequency : CpuScalingOpts → ℤ → ℤ → Result (Unit {0}) → Sysfs → Step
settle_frequency o f period (ok u) s = record {
  period = period;
  opts = record o { current_target_frequency = f };
  sysfs = s;
}
settle_frequency o f period _ s = record { period = o.sample_period; opts = o; sysfs = s }

unfoldable pub set_frequency : CpuScalingOpts → ℤ → ℤ → Sysfs → Step
set_frequency o f period s =
    let r = set_cpu_frequency o.cpu (to_uint f) s in settle_frequency o f period r.0 r.1

abbrev stay : CpuScalingOpts → Sysfs → Step
stay o s = record { period = o.sample_period; opts = o; sysfs = s }

unfoldable pub fall_back : CpuScalingOpts → Sysfs → Step
fall_back o s =
    if frequency_in_allowed_difference o.fallback_freq o
    then stay o s
    else set_frequency o o.fallback_freq o.sample_period s

abbrev clamp_low : CpuScalingOpts → ℤ → ℤ
clamp_low o f = if ltb_ℤ f o.hw_min_frequency then o.hw_min_frequency else f

abbrev clamp_high : CpuScalingOpts → ℤ → ℤ
clamp_high o f = if ltb_ℤ o.hw_max_frequency f then o.hw_max_frequency else f

-- The part after both readings.
unfoldable pub scale : CpuScalingOpts → ℤ → Sysfs → Step
scale o f s =
    if frequency_in_allowed_difference f o then stay o s else set_frequency o f o.cooldown_period s

abbrev usage_in_band : CpuScalingOpts → ℤ → Bool
usage_in_band o usage =
    leb_ℤ (sub_int o.target_usage o.allowed_usage_difference) usage
    && leb_ℤ usage (add_int o.target_usage o.allowed_usage_difference)

unfoldable pub on_frequency : Readings → CpuScalingOpts → ℤ → Option ℕ → Sysfs → Step
on_frequency r o usage none s = fall_back o s
on_frequency r o usage (some f) s =
    scale o (clamp_high o (clamp_low o (r.next o (to_int f) usage))) s

unfoldable pub on_usage : Readings → CpuScalingOpts → Option ℤ → Sysfs → Step
on_usage r o none s = fall_back o s
on_usage r o (some usage) s =
    if usage_in_band o usage then stay o s else on_frequency r o usage (r.current_frequency o.cpu) s

unfoldable pub update : Readings → CpuScalingOpts → Sysfs → Step
update r o s = on_usage r o (r.usage o.cpu) s

-- Within the difference of a value and beyond it, in Go's `int` arithmetic.
abbrev pub IsNear : ℤ → ℤ → ℤ → Type 0
IsNear x value difference =
    (to_int (to_uint (value -ℤ difference)) ≤ℤ x) × (x ≤ℤ to_int (to_uint (value +ℤ difference)))

abbrev pub IsFar : ℤ → ℤ → ℤ → Type 0
IsFar x value difference =
    (x <ℤ to_int (to_uint (value -ℤ difference))) ⊎ (to_int (to_uint (value +ℤ difference)) <ℤ x)

-- The frequency that a step aims at, from the usage and the CPU's frequency: the fallback where one of
-- them is not there, and else the formula's, brought within the hardware's range.
abbrev pub aim : Readings → CpuScalingOpts → Option ℤ → Option ℕ → ℤ
aim r o none f = o.fallback_freq
aim r o (some usage) none = o.fallback_freq
aim r o (some usage) (some f) =
    let g = r.next o (to_int f) usage in
    let low = if leb_ℤ o.hw_min_frequency g then g else o.hw_min_frequency in
    if leb_ℤ low o.hw_max_frequency then low else o.hw_max_frequency

-- How long a step waits that has written.
abbrev pub pause : CpuScalingOpts → Option ℤ → Option ℕ → ℤ
pause o none f = o.sample_period
pause o (some usage) none = o.sample_period
pause o (some usage) (some f) = o.cooldown_period

abbrev pub IsOnTarget : CpuScalingOpts → Option ℤ → Type 0
IsOnTarget o none = true ≡ false
IsOnTarget o (some usage) = IsNear usage o.target_usage o.allowed_usage_difference

-- A step to the frequency `f`, after which it waits for `wait`. It leaves the options and the writes as
-- they were and waits for the next sample, because the write failed, the usage was on target, or the
-- stored target is set and near; or it writes the frequency, where no target is set or it is far from
-- the target, and stores it.
pub data Effect (on_target : Type 0) (f wait : ℤ) (o : CpuScalingOpts) (s : Sysfs) (t : Step)
    : Type 0 where
  kept :
      (s.fails s.tick ≡ true)
        ⊎ on_target
        ⊎ (o.current_target_frequency ≢ negsuc 0)
          × IsNear f o.current_target_frequency o.allowed_frequency_difference
      → t.opts ≡ o
      → t.sysfs.log ≡ s.log
      → t.period ≡ o.sample_period
      → Effect on_target f wait o s t
  wrote :
      (o.current_target_frequency ≡ negsuc 0)
        ⊎ IsFar f o.current_target_frequency o.allowed_frequency_difference
      → t.opts ≡ record o { current_target_frequency = f }
      → t.sysfs.log ≡ (scaling_setspeed o.cpu, number (to_uint f)) ∷ s.log
      → t.period ≡ wait
      → Effect on_target f wait o s t

eq_ℤ-refl : (a : ℤ) → eq_ℤ a a ≡ true
eq_ℤ-refl a = ground arith
