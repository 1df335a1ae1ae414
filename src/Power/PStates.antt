-- ===== src/Power/PStates.antt =====
-- P-states (internal/power/p_states.go): from a profile's frequencies to a CPU's cpufreq files.
-- The proofs stand in the child module.
pub mod Bounds
use cluster_power_manager.Base.{
  ℕ, ◌&&◌, ◌||◌, Bool, List, [], ◌∷◌, Option, none, some, String, str_eq, if◌then◌else◌, ltb, leb,
  ℤ, pos, to_uint, to_int, add64, sub64,
}
use cluster_power_manager.Power.Sysfs.{
  governor, epp, scaling_max, scaling_min, scaling_setspeed, text, number, Error, set_governor,
  set_epp, set_max, set_min, set_speed, freq_types, freq_percent, freq_range, Result, ok, err,
  panic, M, pure, lift, ◌>>=◌, ◌>>◌, write,
}

-- `intstr.IntOrString`, of Kubernetes.
pub data IntOrString : Type 0 where
  int : ℤ → IntOrString
  string : String → IntOrString

abbrev pub int_val : IntOrString → ℤ
int_val (int i) = i
int_val (string s) = pos 0

abbrev pub same_type : IntOrString → IntOrString → Bool
same_type (int a) (int b) = Bool.true
same_type (string a) (string b) = Bool.true
same_type _ _ = Bool.false

pub record PStates : Type 0 where
  pub min_freq : IntOrString
  pub max_freq : IntOrString
  pub epp_value : String
  pub governor_value : String

pub record FreqSet : Type 0 where
  pub min : ℕ
  pub max : ℕ

-- What the library reads at start-up and only reads afterwards. `scaled` is
-- `intstr.GetScaledValueFromIntOrPercent` on a text, rounding up.
pub record FreqPlatform : Type 0 where
  pub freq_scaling : Bool
  pub default_pstates : ℕ → PStates
  pub core_types : List FreqSet
  pub scaled : String → ℤ → Option ℤ

-- `getAbsMinMaxFreq` reads the first entry before its loop, so it panics on an empty list.
unfoldable pub abs_min_max_loop : ℕ → ℕ → List FreqSet → ℕ × ℕ
abs_min_max_loop mn mx [] = (mn, mx)
abs_min_max_loop mn mx (t ∷ ts) =
    abs_min_max_loop (if ltb t.min mn then t.min else mn) (if ltb mx t.max then t.max else mx) ts

unfoldable pub get_abs_min_max_freq : List FreqSet → Result (ℕ × ℕ)
get_abs_min_max_freq [] = panic
get_abs_min_max_freq (t ∷ ts) = ok (abs_min_max_loop t.min t.max ts)

-- `GetAbsMinMax` of a CPU.
unfoldable pub get_abs_min_max : FreqPlatform → ℕ → ℕ × ℕ
get_abs_min_max p c =
    if p.freq_scaling
    then (
      to_uint (int_val (p.default_pstates c).min_freq),
      to_uint (int_val (p.default_pstates c).max_freq),
    )
    else (0, 0)

unfoldable pub get_freq_from_int_or_string : FreqPlatform → IntOrString → ℕ → ℕ → Result ℕ
get_freq_from_int_or_string p (int i) mn mx = ok (to_uint i)
get_freq_from_int_or_string p (string s) mn mx = elim (p.scaled s (to_int (sub64 mx mn))) [
  | none ↦ err freq_percent
  | some d ↦ ok (add64 mn (to_uint d))
]

unfoldable pub get_freqs_to_scale : FreqPlatform → ℕ → PStates → M (ℕ × ℕ)
get_freqs_to_scale p c ps =
    if same_type ps.min_freq ps.max_freq
    then (do
      let mn = to_uint (int_val (p.default_pstates c).min_freq)
      let mx = to_uint (int_val (p.default_pstates c).max_freq)
      lo ← lift (get_freq_from_int_or_string p ps.min_freq mn mx)
      hi ← lift (get_freq_from_int_or_string p ps.max_freq mn mx)
      pure (lo, hi))
    else lift (err freq_types)

-- The two clamps of `setDriverValues`: a request beyond this CPU and within the system's range.
unfoldable pub clamp_max : ℕ → ℕ → ℕ → ℕ
clamp_max hi cpu_max system_max = if ltb cpu_max hi && leb hi system_max then cpu_max else hi

unfoldable pub clamp_min : ℕ → ℕ → ℕ → ℕ
clamp_min lo cpu_min system_min = if ltb lo cpu_min && leb system_min lo then cpu_min else lo

unfoldable pub write_freqs : ℕ → ℕ → ℕ → ℕ × ℕ → M (Unit {0})
write_freqs c lo hi (cpu_min, cpu_max) =
    if ltb cpu_max hi || ltb lo cpu_min
    then lift (err freq_range)
    else (do write (scaling_max c) (number hi) set_max; write (scaling_min c) (number lo) set_min)

unfoldable pub write_epp : ℕ → String → M (Unit {0})
write_epp c e = if str_eq e "" then pure tt else write (epp c) (text e) set_epp

unfoldable pub set_driver_values : FreqPlatform → ℕ → PStates → M (Unit {0})
set_driver_values p c ps = do
  write (governor c) (text ps.governor_value) set_governor
  write_epp c ps.epp_value
  system ← lift (get_abs_min_max_freq p.core_types)
  requested ← get_freqs_to_scale p c ps
  write_freqs c (clamp_min requested.0 (get_abs_min_max p c).0 system.0)
      (clamp_max requested.1 (get_abs_min_max p c).1 system.1) (get_abs_min_max p c)

-- `profile` is what `cpu.pool.GetPowerProfile()` returned.
unfoldable pub update_frequencies : FreqPlatform → ℕ → Option PStates → M (Unit {0})
update_frequencies p c profile =
    if p.freq_scaling
    then set_driver_values p c (elim profile [ none ↦ p.default_pstates c | some ps ↦ ps ])
    else pure tt

-- `SetCPUFrequency`, for the userspace governor.
unfoldable pub set_cpu_frequency : ℕ → ℕ → M (Unit {0})
set_cpu_frequency c freq = write (scaling_setspeed c) (number freq) set_speed
