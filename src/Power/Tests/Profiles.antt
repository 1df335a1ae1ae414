-- ===== src/Power/Tests/Profiles.antt =====
-- Runs of the making of profiles and of the uncore frequency.
use cluster_power_manager.Base.{
  ◌≡◌, refl, ◌+◌, ◌%◌, ◌≤◌, ◌<◌, arith, true, false, [], ◌∷◌, none, some, pos, All,
}
use cluster_power_manager.Power.Sysfs.{Sysfs, ok, err, freq_range, write}
use cluster_power_manager.Power.PStates.{
  int, FreqPlatform, get_abs_min_max_freq, abs_min_max_loop, get_abs_min_max, set_driver_values,
}
use cluster_power_manager.Power.Host.{Profile}
use cluster_power_manager.Power.NewProfile.{
  System, made, new_power_profile, adjust_min_max_freq, fill_min_max, with_range, validate_pstates,
  validate_freqs, validate_ints, validate_governor, validate_cstates,
}
use cluster_power_manager.Power.NewProfile.Accepted.{filled_min_refused}
use cluster_power_manager.Power.Uncore.{
  Uncore, Machine, new_uncore, normalize_uncore_freq, write_uncore, apply_dies, apply_packages,
  apply_uncore, set_topology_uncore,
}
use cluster_power_manager.Power.Uncore.Applied.{
  new_uncore_bounds, first_of, Holds, set_topology_uncore-Holds,
}

abbrev sysfs : Sysfs
sysfs = record { log = []; tick = 0; fails = λ n. false }

-- A minimum that is not a whole number of MHz.
abbrev system : System
system = record {
  scaling_supported = true;
  cstates_supported = true;
  core_types = (record { min = 800500; max = 3600000 }) ∷ [];
  available_govs = "powersave" ∷ "performance" ∷ [];
  available_cstates = "C1" ∷ "C6" ∷ [];
  atoi = λ s. none;
  default_governor = "powersave";
}

abbrev filled : Profile
filled = record {
  name = "shared";
  pstates = record {
    min_freq = int (pos 800000);
    max_freq = int (pos 3000000);
    epp_value = "power";
    governor_value = "powersave";
  };
  cstates = record { states = ("C6", false) ∷ []; max_latency_us = none };
}

filled_made :
    new_power_profile system "shared" none
      (some (int (pos 3000)))
      "powersave"
      "power"
      (("C6", false) ∷ [])
      none
    ≡ made filled
unfolding new_power_profile adjust_min_max_freq fill_min_max with_range validate_pstates
    validate_freqs validate_ints validate_governor validate_cstates get_abs_min_max_freq
    abs_min_max_loop
filled_made = refl

system_range : get_abs_min_max_freq system.core_types ≡ ok (800500, 3600000)
unfolding get_abs_min_max_freq abs_min_max_loop
system_range = refl

abbrev cpu_freqs : FreqPlatform
cpu_freqs = record {
  freq_scaling = true;
  default_pstates = λ c. record {
    min_freq = int (pos 800500);
    max_freq = int (pos 3600000);
    epp_value = "";
    governor_value = "powersave";
  };
  core_types = system.core_types;
  scaled = λ s i. none;
}

filled_min_refused_example : (set_driver_values cpu_freqs 0 filled.pstates sysfs).0 ≡ err freq_range
unfolding get_abs_min_max
filled_min_refused_example =
    filled_min_refused system "shared" (pos 3000) "powersave" "power" (("C6", false) ∷ []) none
      filled cpu_freqs 0 sysfs 800500 3600000 system_range refl (omega arith) (omega arith)
      (omega arith) filled_made (λ n. refl) (omega arith) (omega arith)

abbrev hardware : Uncore
hardware = record { min = 850000; max = 2400000 }

abbrev slow : Uncore
slow = record { min = 800000; max = 2100000 }

-- The minimum is below the hardware's.
new_uncore_bounds_example :
    (true ≡ true)
    × (850000 ≤ 860000)
    × (2150000 ≤ 2400000)
    × (800000 ≤ 2100000)
    × (2100000 ≤ 2400000)
    × (800000 ≤ 860000)
    × (2100000 ≤ 2150000)
    × (800000 % 100000 ≡ 0)
    × (2100000 % 100000 ≡ 0)
    × (860000 < 800000 + 100000)
    × (2150000 < 2100000 + 100000)
unfolding new_uncore normalize_uncore_freq
new_uncore_bounds_example = new_uncore_bounds true hardware 860000 2150000 slow refl

-- Two packages; a die of the second has a frequency of its own.
abbrev machine : Machine
machine = record {
  topology = record {
    uncore = none;
    packages =
        (record { id = 0; uncore = none; dies = (record { id = 0; uncore = none }) ∷ [] })
        ∷ (record {
          id = 1;
          uncore = none;
          dies =
              (record { id = 0; uncore = some hardware }) ∷ (record { id = 1; uncore = none }) ∷ [];
        })
        ∷ [];
  };
  sysfs = sysfs;
}

abbrev after : Machine
after = (set_topology_uncore hardware (some slow) machine).1

set_topology_uncore-Holds_example :
    All
      (λ pkg.
        All
          (λ die.
            Holds pkg.id die.id
              (first_of (die.uncore ∷ pkg.uncore ∷ some slow ∷ []) hardware)
              after.sysfs)
          pkg.dies)
      machine.topology.packages
unfolding set_topology_uncore apply_uncore apply_packages apply_dies write_uncore write
set_topology_uncore-Holds_example =
    set_topology_uncore-Holds hardware (some slow) machine after
      (((tt, tt)), ((refl, tt)), (((refl, tt), (tt, tt)), tt, tt)) refl
