-- ===== src/Power/Tests.antt =====
-- Runs of the power library on a small host: three CPUs, two core types.
mod Profiles
mod Discovery
use cluster_power_manager.Base.{
  ℕ, ◌+◌, ◌==◌, ◌≤◌, ◌≡◌, ◌≢◌, refl, arith, true, false, List, [], ◌∷◌, none, some, String, pos,
  count, if◌then◌else◌, contains, leb, ◌&&◌, ◌<◌, All,
}
use cluster_power_manager.Power.Sysfs.{
  Sysfs, scaling_min, scaling_max, governor, cstate_disable, content, text, number, cpu_not_in_list,
  out_of_range, freq_range, reserved_to_exclusive, ok, err, write,
}
use cluster_power_manager.Power.PStates.{
  PStates, FreqPlatform, int, abs_min_max_loop, get_abs_min_max_freq, get_abs_min_max,
  get_freq_from_int_or_string, get_freqs_to_scale, clamp_min, clamp_max, write_freqs, write_epp,
  set_driver_values, update_frequencies,
}
use cluster_power_manager.Power.PStates.Bounds.{
  set_driver_values_in_range, set_driver_values_verdict, set_driver_values_inverted,
}
use cluster_power_manager.Power.CStates.{
  CStates, CStatesPlatform, update_cstates, desired_cstates, apply_cstates, apply_cstate,
  get_default_cstates_status, config_cstates_by_names, disable_byte,
}
use cluster_power_manager.Power.CStates.Applied.{Distinct, wanted, update_cstates_applied}
use cluster_power_manager.Power.Host.{
  Pool, reserved, shared, exclusive, same_pool, Platform, Host, with_host_mutex,
}
use cluster_power_manager.Power.Cpu.{
  index_of, contains_cpu, add, remove, scan_by_id, by_id, many_by_ids, consolidate, settle,
  do_set_pool, set_pool_from, set_pool,
}
use cluster_power_manager.Power.Cpu.Moves.{
  IsConsistent, returns, set_pool_refused, set_pool-Moved, Moved,
}
use cluster_power_manager.Power.Pool.{
  for_each, shared_set_cpu, reserved_set_cpu, exclusive_set_cpu, set_cpu, set_cpus, move_cpu_ids,
  set_cpu_ids_locked, set_cpu_ids, remove_pool, unlist_pool, remove_locked, remove_call,
  index_of_name, by_name, get_exclusive_pool, add_locked, add_exclusive_pool, init_host,
}
use cluster_power_manager.Power.Cpu.Lists.{all_contained, by_id_lem, many_by_ids_lem}
use cluster_power_manager.Power.Pool.Members.{
  set_dest, set_may, set_cpu_ids_members, unknown_id_unchanged,
}
use cluster_power_manager.Power.Pool.Invariant.{listings, IsWellFormed}
use cluster_power_manager.Power.Pool.Calls.{set_ids, adds, removes, run_call, run_call_releases}
use cluster_power_manager.Power.Pool.Reach.{
  Reach, here, next, init_host-IsWellFormed, Reach-IsWellFormed,
}
use cluster_power_manager.Power.Pool.Removal.{remove_call_moves_out}

abbrev range : ℕ → ℕ → PStates
range lo hi = record {
  min_freq = int (pos lo);
  max_freq = int (pos hi);
  epp_value = "power";
  governor_value = "powersave";
}

-- CPU 2 is of a slower type.
abbrev freq : FreqPlatform
freq = record {
  freq_scaling = true;
  default_pstates = λ c. if c == 2 then range 800000 2400000 else range 1000000 3600000;
  core_types =
      (record { min = 1000000; max = 3600000 }) ∷ (record { min = 800000; max = 2400000 }) ∷ [];
  scaled = λ s i. none;
}

abbrev idle : CStatesPlatform
idle = record {
  cstates_supported = true;
  cstates_info = λ c.
      ("C1", record { state_number = 1; latency = pos 1; default_status = true })
      ∷ ("C6", record { state_number = 3; latency = pos 130; default_status = true })
      ∷ [];
}

abbrev platform : Platform
platform = record { freq = freq; idle = idle }

abbrev sysfs : Sysfs
sysfs = record { log = []; tick = 0; fails = λ n. false }

abbrev names : Pool → String
names reserved = "reserved"
names shared = "shared"
names (exclusive n) = ""

abbrev cpus : List ℕ
cpus = 0 ∷ 1 ∷ 2 ∷ []

abbrev start : Host
start = init_host cpus names sysfs

types_known : platform.freq.core_types ≢ []
types_known h = absurd (cc)

distinct : (x : ℕ) → count x cpus ≤ 1
distinct x = ground arith

start-IsWellFormed : IsWellFormed start
start-IsWellFormed = init_host-IsWellFormed cpus names sysfs distinct

-- All CPUs shared, an exclusive pool, CPUs 0 and 1 in it.
abbrev all_shared : Host
all_shared = (run_call platform (set_ids shared cpus) start).1

abbrev filled : Host
filled =
    (run_call platform (set_ids (exclusive 0) (0 ∷ 1 ∷ []))
      (run_call platform (adds "performance") all_shared).1).1

filled_by_calls : Reach platform start filled
unfolding contains_cpu same_pool many_by_ids by_id scan_by_id for_each shared_set_cpu
    reserved_set_cpu exclusive_set_cpu set_cpu set_cpus set_cpu_ids_locked set_cpu_ids
    with_host_mutex init_host run_call add_exclusive_pool add_locked get_exclusive_pool by_name
    index_of_name remove_call remove_locked unlist_pool remove_pool set_pool set_pool_from
    do_set_pool settle remove index_of add consolidate update_frequencies set_driver_values write
    write_epp get_abs_min_max_freq abs_min_max_loop get_abs_min_max get_freqs_to_scale
    get_freq_from_int_or_string clamp_min clamp_max write_freqs update_cstates desired_cstates
    get_default_cstates_status apply_cstates apply_cstate
filled_by_calls =
    next (next (next here (set_ids shared cpus) tt) (adds "performance") tt)
      (set_ids (exclusive 0) (0 ∷ 1 ∷ [])) (omega arith)

filled_placed : filled.cpus (exclusive 0) ≡ 0 ∷ 1 ∷ []
unfolding contains_cpu same_pool many_by_ids by_id scan_by_id for_each shared_set_cpu
    reserved_set_cpu exclusive_set_cpu set_cpu set_cpus set_cpu_ids_locked set_cpu_ids
    with_host_mutex init_host run_call add_exclusive_pool add_locked get_exclusive_pool by_name
    index_of_name remove_call remove_locked unlist_pool remove_pool set_pool set_pool_from
    do_set_pool settle remove index_of add consolidate update_frequencies set_driver_values write
    write_epp get_abs_min_max_freq abs_min_max_loop get_abs_min_max get_freqs_to_scale
    get_freq_from_int_or_string clamp_min clamp_max write_freqs update_cstates desired_cstates
    get_default_cstates_status apply_cstates apply_cstate
filled_placed = refl

set_cpu_ids_members_example :
    let h = start in
    let r = set_cpu_ids platform shared (2 ∷ []) h in
    (all_contained (2 ∷ []) h.all_cpus ≡ true)
    × (r.1.pool_of 2 ≡ set_dest shared (2 ∷ []) 2 (h.pool_of 2))
    × (set_may shared (2 ∷ []) 2 (h.pool_of 2) ≡ true)
    × IsConsistent r.1
unfolding contains_cpu same_pool many_by_ids by_id scan_by_id for_each shared_set_cpu
    reserved_set_cpu exclusive_set_cpu set_cpu set_cpus set_cpu_ids_locked set_cpu_ids
    with_host_mutex init_host set_pool set_pool_from do_set_pool settle remove index_of add
    consolidate update_frequencies set_driver_values write write_epp get_abs_min_max_freq
    abs_min_max_loop get_abs_min_max get_freqs_to_scale get_freq_from_int_or_string clamp_min
    clamp_max write_freqs update_cstates desired_cstates get_default_cstates_status apply_cstates
    apply_cstate
set_cpu_ids_members_example =
    set_cpu_ids_members platform shared (2 ∷ []) start 2 types_known start-IsWellFormed.consistent
      refl refl refl

Reach-IsWellFormed_example : IsWellFormed filled × (filled.locked ≡ false)
Reach-IsWellFormed_example =
    Reach-IsWellFormed platform cpus names sysfs types_known distinct filled_by_calls

set_pool-Moved_example : Moved start 2 shared (set_pool platform 2 (some shared) start)
unfolding contains_cpu same_pool many_by_ids by_id scan_by_id for_each shared_set_cpu
    reserved_set_cpu exclusive_set_cpu set_cpu set_cpus set_cpu_ids_locked set_cpu_ids
    with_host_mutex init_host run_call add_exclusive_pool add_locked get_exclusive_pool by_name
    index_of_name remove_call remove_locked unlist_pool remove_pool set_pool set_pool_from
    do_set_pool settle remove index_of add consolidate update_frequencies set_driver_values write
    write_epp get_abs_min_max_freq abs_min_max_loop get_abs_min_max get_freqs_to_scale
    get_freq_from_int_or_string clamp_min clamp_max write_freqs update_cstates desired_cstates
    get_default_cstates_status apply_cstates apply_cstate
set_pool-Moved_example =
    set_pool-Moved platform 2 shared start start-IsWellFormed.consistent refl refl

set_pool_refused_example :
    set_pool platform 2 (some (exclusive 0)) start ≡ (err reserved_to_exclusive, start)
unfolding init_host same_pool
set_pool_refused_example = set_pool_refused platform 2 (exclusive 0) start refl

run_call_releases_example :
    (returns (run_call platform (removes (exclusive 0)) filled).0 ≡ true)
    × ((run_call platform (removes (exclusive 0)) filled).1.locked ≡ false)
run_call_releases_example =
    run_call_releases platform (removes (exclusive 0)) filled types_known
      (Reach-IsWellFormed platform cpus names sysfs types_known distinct filled_by_calls).1

abbrev emptied : Host
emptied = (remove_call platform (exclusive 0) filled).1

remove_call_moves_out_example :
    (emptied.pool_of 1
      ≡ (if same_pool (filled.pool_of 1) (exclusive 0) then shared else filled.pool_of 1))
    × (count 1 (emptied.cpus (exclusive 0)) ≡ 0)
    × (listings (exclusive 0) emptied.exclusive_pools + 1
        ≡ listings (exclusive 0) filled.exclusive_pools)
    × IsConsistent emptied
unfolding contains_cpu same_pool many_by_ids by_id scan_by_id for_each shared_set_cpu
    reserved_set_cpu exclusive_set_cpu set_cpu set_cpus set_cpu_ids_locked set_cpu_ids
    with_host_mutex init_host run_call add_exclusive_pool add_locked get_exclusive_pool by_name
    index_of_name remove_call remove_locked unlist_pool remove_pool set_pool set_pool_from
    do_set_pool settle remove index_of add consolidate update_frequencies set_driver_values write
    write_epp get_abs_min_max_freq abs_min_max_loop get_abs_min_max get_freqs_to_scale
    get_freq_from_int_or_string clamp_min clamp_max write_freqs update_cstates desired_cstates
    get_default_cstates_status apply_cstates apply_cstate
remove_call_moves_out_example =
    remove_call_moves_out platform 0 filled emptied 1 types_known
      (Reach-IsWellFormed platform cpus names sysfs types_known distinct
        filled_by_calls).0.consistent
      refl refl refl

unknown_id_unchanged_example :
    (move_cpu_ids platform shared (1 ∷ 7 ∷ []) start ≡ (err cpu_not_in_list, start))
    × (set_cpu_ids platform shared (1 ∷ 7 ∷ []) start ≡ (err out_of_range, start))
unfolding init_host
unknown_id_unchanged_example = unknown_id_unchanged platform shared (1 ∷ 7 ∷ []) start refl refl

abbrev wide : PStates
wide = range 900000 3000000

-- CPU 2 cannot reach the maximum: it gets its own.
set_driver_values_in_range_example :
    let r = set_driver_values freq 2 wide sysfs in
    (lo hi : ℕ) × (content (scaling_min 2) r.1.log ≡ some (number lo))
    × (content (scaling_max 2) r.1.log ≡ some (number hi))
    × (content (governor 2) r.1.log ≡ some (text "powersave"))
    × (800000 ≤ lo)
    × (hi ≤ 2400000)
unfolding contains_cpu same_pool many_by_ids by_id scan_by_id for_each shared_set_cpu
    reserved_set_cpu exclusive_set_cpu set_cpu set_cpus set_cpu_ids_locked set_cpu_ids
    with_host_mutex init_host run_call add_exclusive_pool add_locked get_exclusive_pool by_name
    index_of_name remove_call remove_locked unlist_pool remove_pool set_pool set_pool_from
    do_set_pool settle remove index_of add consolidate update_frequencies set_driver_values write
    write_epp get_abs_min_max_freq abs_min_max_loop get_abs_min_max get_freqs_to_scale
    get_freq_from_int_or_string clamp_min clamp_max write_freqs update_cstates desired_cstates
    get_default_cstates_status apply_cstates apply_cstate
set_driver_values_in_range_example =
    set_driver_values_in_range freq 2 wide sysfs (set_driver_values freq 2 wide sysfs).1 refl

set_driver_values_verdict_example :
    (set_driver_values freq 2 (range 700000 3000000) sysfs).0
    ≡ (if leb 800000 700000 && leb 3000000 3600000 then ok tt else err freq_range)
unfolding contains_cpu same_pool many_by_ids by_id scan_by_id for_each shared_set_cpu
    reserved_set_cpu exclusive_set_cpu set_cpu set_cpus set_cpu_ids_locked set_cpu_ids
    with_host_mutex init_host run_call add_exclusive_pool add_locked get_exclusive_pool by_name
    index_of_name remove_call remove_locked unlist_pool remove_pool set_pool set_pool_from
    do_set_pool settle remove index_of add consolidate update_frequencies set_driver_values write
    write_epp get_abs_min_max_freq abs_min_max_loop get_abs_min_max get_freqs_to_scale
    get_freq_from_int_or_string clamp_min clamp_max write_freqs update_cstates desired_cstates
    get_default_cstates_status apply_cstates apply_cstate
set_driver_values_verdict_example =
    set_driver_values_verdict freq 2 (range 700000 3000000) sysfs (pos 700000) (pos 3000000)
      (800000, 3600000) (λ n. refl) refl refl refl (omega arith) (omega arith)

set_driver_values_inverted_example :
    let r = set_driver_values freq 2 (range 2600000 3000000) sysfs in
    (r.0 ≡ ok tt)
    × (content (scaling_min 2) r.1.log ≡ some (number 2600000))
    × (content (scaling_max 2) r.1.log ≡ some (number 2400000))
    × (2400000 < 2600000)
unfolding contains_cpu same_pool many_by_ids by_id scan_by_id for_each shared_set_cpu
    reserved_set_cpu exclusive_set_cpu set_cpu set_cpus set_cpu_ids_locked set_cpu_ids
    with_host_mutex init_host run_call add_exclusive_pool add_locked get_exclusive_pool by_name
    index_of_name remove_call remove_locked unlist_pool remove_pool set_pool set_pool_from
    do_set_pool settle remove index_of add consolidate update_frequencies set_driver_values write
    write_epp get_abs_min_max_freq abs_min_max_loop get_abs_min_max get_freqs_to_scale
    get_freq_from_int_or_string clamp_min clamp_max write_freqs update_cstates desired_cstates
    get_default_cstates_status apply_cstates apply_cstate
set_driver_values_inverted_example =
    set_driver_values_inverted freq 2 (range 2600000 3000000) sysfs 2600000 3000000
      (800000, 3600000) (λ n. refl) refl refl refl (omega arith) (omega arith) (omega arith)
      (omega arith) (omega arith) (omega arith)

abbrev no_c6 : CStates
no_c6 = record { states = ("C6", false) ∷ []; max_latency_us = none }

idle_Distinct : Distinct (idle.cstates_info 0)
idle_Distinct = (((λ h. absurd (cc)), tt), ((λ h. absurd (cc)), tt), (tt, tt, tt))

update_cstates_applied_example :
    All
      (λ t.
        content (cstate_disable 0 t.1.state_number) (update_cstates idle 0 (some no_c6) sysfs).1.log
        ≡ some (text (if wanted (some no_c6) t.0 t.1 then "0" else "1")))
      (idle.cstates_info 0)
unfolding update_cstates desired_cstates config_cstates_by_names apply_cstates apply_cstate write
update_cstates_applied_example =
    update_cstates_applied idle 0 (some no_c6) sysfs (update_cstates idle 0 (some no_c6) sysfs).1
      refl idle_Distinct refl

by_id_lem_example : by_id 2 (2 ∷ 1 ∷ []) ≡ (if contains 2 (2 ∷ 1 ∷ []) then some 2 else none)
by_id_lem_example = by_id_lem 2 (2 ∷ 1 ∷ [])

many_by_ids_lem_example :
    many_by_ids (2 ∷ 0 ∷ []) cpus
    ≡ (if all_contained (2 ∷ 0 ∷ []) cpus then some (2 ∷ 0 ∷ []) else none)
many_by_ids_lem_example = many_by_ids_lem (2 ∷ 0 ∷ []) cpus
