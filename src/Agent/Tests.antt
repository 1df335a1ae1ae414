-- ===== src/Agent/Tests.antt =====
-- Runs of the pods' reconciler on a node with four CPUs, a profile and a pod with two CPUs.
use cluster_power_manager.Base.{
  inl, ℕ, ◌≡◌, ◌≢◌, refl, true, false, List, [], ◌∷◌, none, some, String, arith, ◌⊎◌, pos,
}
use cluster_power_manager.Power.Sysfs.{Sysfs}
use cluster_power_manager.Power.PStates.{FreqPlatform, int, get_abs_min_max}
use cluster_power_manager.Power.CStates.{CStatesPlatform}
use cluster_power_manager.Power.Host.{Pool, reserved, shared, exclusive, Platform, Host, Profile}
use cluster_power_manager.Power.Cpu.Moves.{returns}
use cluster_power_manager.Power.Pool.Calls.{adds, set_ids, set_profile, run_call}
use cluster_power_manager.Power.Pool.Invariant.{IsOnHost, IsWellFormed}
use cluster_power_manager.Power.Pool.Reach.{here, next, Reach-IsWellFormed}
use cluster_power_manager.State.Deletion.{HasUniquePods}
use cluster_power_manager.Agent.Cluster.{
  found, not_found, CpuScalingPolicy, PowerProfile, PowerContainer, Pod, Server, running,
  CpuPoolsStatus, NodeConfig, Quantity,
}
use cluster_power_manager.Agent.Machine.{Setup, Agent}
use cluster_power_manager.Agent.Selection.{
  select_active_or_oldest, find_active, sort_configs, insert_config,
}
use cluster_power_manager.Agent.Selection.Chosen.{IsSelection, select_active_or_oldest_lem}
use cluster_power_manager.Agent.CoreList.{sort, prettify_core_list, get_clean_core_list}
use cluster_power_manager.Agent.CoreList.RoundTrip.{prettify_core_list-read}
use cluster_power_manager.Agent.Placement.{place_containers}
use cluster_power_manager.Agent.Placement.Running.{enters}
use cluster_power_manager.Agent.Placement.Destinations.{AllPlaced, place_containers_lem}
use cluster_power_manager.Agent.NodeConfigs.{reconcile_node_config}
use cluster_power_manager.Agent.NodeConfigs.Applied.{reconcile_node_config-IsSound}
use cluster_power_manager.Agent.PowerPod.{reconcile_pod, handle_pod_deletion}
use cluster_power_manager.Agent.PowerPod.Reconciled.{reconcile_pod-IsGood, reconcile_pod-returns}
use cluster_power_manager.Agent.PowerPod.Deleted.{
  IsDeleted, container_cpus, handle_pod_deletion-IsDeleted,
}
use cluster_power_manager.Power.Cpu.{
  contains_cpu, many_by_ids, by_id, scan_by_id, set_pool, set_pool_from, do_set_pool, settle,
  remove, index_of, add, consolidate,
}
use cluster_power_manager.Power.Host.{same_pool, with_host_mutex}
use cluster_power_manager.Power.Pool.{
  for_each, shared_set_cpu, reserved_set_cpu, exclusive_set_cpu, set_cpu, set_cpus,
  set_cpu_ids_locked, set_cpu_ids, init_host, add_exclusive_pool, add_locked, get_exclusive_pool,
  by_name, index_of_name,
}
use cluster_power_manager.Power.PStates.{
  FreqPlatform, int, update_frequencies, set_driver_values, write_epp, get_abs_min_max_freq,
  abs_min_max_loop, get_abs_min_max, get_freqs_to_scale, get_freq_from_int_or_string, clamp_min,
  clamp_max, write_freqs,
}
use cluster_power_manager.Power.Sysfs.{write}
use cluster_power_manager.Power.CStates.{
  update_cstates, desired_cstates, get_default_cstates_status, apply_cstates, apply_cstate,
}

abbrev config : String → ℕ → NodeConfig
config name created = record {
  name = name;
  created = created;
  node_selector = record { match_labels = []; match_expressions = [] };
  shared_power_profile = "shared";
  reserved_cpus = [];
}

select_active_or_oldest_lem_example :
    IsSelection
      (config "b" 7 ∷ config "a" 7 ∷ config "c" 9 ∷ [])
      "d"
      (select_active_or_oldest (config "b" 7 ∷ config "a" 7 ∷ config "c" 9 ∷ []) "d").0
select_active_or_oldest_lem_example =
    select_active_or_oldest_lem (config "b" 7 ∷ config "a" 7 ∷ config "c" 9 ∷ []) "d"

-- Of two of one age, the first by name.
tie :
    (select_active_or_oldest (config "b" 7 ∷ config "a" 7 ∷ config "c" 9 ∷ []) "d").0
    ≡ some (config "a" 7)
unfolding select_active_or_oldest find_active sort_configs insert_config
tie = refl

prettify_core_list-read_example :
    get_clean_core_list (prettify_core_list (7 ∷ 2 ∷ 0 ∷ 1 ∷ 12 ∷ []))
    ≡ sort (7 ∷ 2 ∷ 0 ∷ 1 ∷ 12 ∷ [])
prettify_core_list-read_example =
    prettify_core_list-read (7 ∷ 2 ∷ 0 ∷ 1 ∷ 12 ∷ [])
      (omega arith, (omega arith, (omega arith, (omega arith, (omega arith, tt)))))

-- "0-2,7,12".
printed :
    prettify_core_list (7 ∷ 2 ∷ 0 ∷ 1 ∷ 12 ∷ [])
    ≡ b'0' ∷ b'-' ∷ b'2' ∷ b',' ∷ b'7' ∷ b',' ∷ b'1' ∷ b'2' ∷ []
unfolding prettify_core_list sort cluster_power_manager.Agent.CoreList.insert
    cluster_power_manager.Agent.CoreList.pretty_runs cluster_power_manager.Agent.CoreList.show
    cluster_power_manager.Agent.CoreList.show_digits
printed = refl

abbrev freq : FreqPlatform
freq = record {
  freq_scaling = true;
  default_pstates = λ c. record {
    min_freq = int (pos 1000000);
    max_freq = int (pos 3600000);
    epp_value = "power";
    governor_value = "userspace";
  };
  core_types = (record { min = 1000000; max = 3600000 }) ∷ [];
  scaled = λ s i. none;
}

abbrev idle : CStatesPlatform
idle = record { cstates_supported = false; cstates_info = λ c. [] }

abbrev platform : Platform
platform = record { freq = freq; idle = idle }

abbrev policy : CpuScalingPolicy
policy = record {
  workload_type = "polling-dpdk";
  sample_period = pos 10;
  cooldown_period = pos 30;
  target_usage = pos 80;
  allowed_usage_difference = pos 5;
  allowed_frequency_difference = pos 25;
  scale_percentage = pos 50;
  fallback_freq_percent = pos 40;
}

abbrev performance : PowerProfile
performance = record {
  shared = false;
  node_selector = record { match_labels = []; match_expressions = [] };
  cpu_scaling_policy = some policy;
}

abbrev two : Quantity
two = record { value = pos 2; milli_value = pos 2000 }

abbrev pod : Pod
pod = record {
  name = "dpdk";
  namespace = "apps";
  uid = "u1";
  node_name = "worker";
  deleting = false;
  phase = running;
  guaranteed = true;
  init_containers = [];
  containers =
      (record {
        name = "main";
        requests = ("cpu", two) ∷ ("power.cluster-power-manager.github.io/performance", two) ∷ [];
        limits = ("cpu", two) ∷ ("power.cluster-power-manager.github.io/performance", two) ∷ [];
        claims = 0;
      })
      ∷ [];
  init_container_ids = [];
  container_ids = ("main", "docker://c1") ∷ [];
}

abbrev main : PowerContainer
main = record {
  name = "main";
  id = "c1";
  power_profile = "performance";
  cpu_ids = 1 ∷ 2 ∷ [];
  errors = [];
}

abbrev status : CpuPoolsStatus
status = record {
  active_config = none;
  exclusive = (record { pod_uid = "u1"; pod = "dpdk"; power_containers = main ∷ [] }) ∷ [];
}

abbrev server : Server
server = record {
  get_pod = λ n name namespace. found pod;
  get_profile = λ n name. found performance;
  get_node_labels = λ n name. not_found;
  get_node_state = λ n name. found (some status);
  list_node_configs = λ n. none;
  patch_status = λ n. found tt;
  list_resources =
      λ n. some ((record { pod = "dpdk"; containers = ("main", 1 ∷ 2 ∷ []) ∷ [] }) ∷ []);
  list_control_plane = λ n. some [];
  selects = λ ls. none;
}

abbrev setup : Setup
setup = record {
  platform = platform;
  server = server;
  node_name = "worker";
  scaling_enabled = true;
  cpuset_string = prettify_core_list;
  show_cores = λ l. "";
}

abbrev names : Pool → String
names reserved = "reserved"
names shared = "shared"
names (exclusive n) = ""

abbrev sysfs : Sysfs
sysfs = record { log = []; tick = 0; fails = λ n. false }

abbrev cpus : List ℕ
cpus = 0 ∷ 1 ∷ 2 ∷ 3 ∷ []

abbrev start : Host
start = init_host cpus names sysfs

-- The profile's pool is there, and all CPUs are shared.
abbrev host : Host
host = (run_call platform (set_ids reserved []) (run_call platform (adds "performance") start).1).1

types_known : platform.freq.core_types ≢ []
types_known e = absurd (cc)

host_lem : IsWellFormed host × (host.locked ≡ false)
host_lem =
    Reach-IsWellFormed platform cpus names sysfs types_known (λ x. ground arith)
      (next (next here (adds "performance") tt) (set_ids reserved []) tt)

abbrev agent : Agent
agent = record {
  host = host;
  pods = [];
  connections = [];
  scaling = record { workers = λ c. none; events = [] };
  patches = [];
  calls = 0;
}

no_pods : HasUniquePods []
no_pods n s = omega arith

reconcile_pod-IsGood_example :
    let t = (reconcile_pod setup "dpdk" "apps" agent).1 in
    IsWellFormed t.host
    × (t.host.locked ≡ false)
    × HasUniquePods t.pods
    × (t.host.all_cpus ≡ host.all_cpus)
    × (t.host.exclusive_pools ≡ host.exclusive_pools)
reconcile_pod-IsGood_example =
    reconcile_pod-IsGood setup "dpdk" "apps" agent types_known host_lem.0 host_lem.1 no_pods

reconcile_pod-returns_example : returns (reconcile_pod setup "dpdk" "apps" agent).0 ≡ true
reconcile_pod-returns_example =
    reconcile_pod-returns setup "dpdk" "apps" agent types_known host_lem.0 host_lem.1 no_pods
      (λ n. refl)

place_containers_lem_example :
    let r = place_containers setup "u1" false (main ∷ []) agent in
    AllPlaced (main ∷ []) r.0 r.1.host
    × ((x : ℕ)
        → (r.1.host.pool_of x ≡ host.pool_of x)
          ⊎ (enters (host.pool_of x) (r.1.host.pool_of x) ≡ true))
place_containers_lem_example =
    place_containers_lem setup "u1" false (main ∷ []) agent types_known host_lem.0 host_lem.1
      no_pods

handle_pod_deletion-IsDeleted_example :
    let r = handle_pod_deletion setup pod agent in
    IsDeleted true pod (container_cpus (main ∷ [])) agent r.0 r.1
handle_pod_deletion-IsDeleted_example =
    handle_pod_deletion-IsDeleted setup pod agent status (main ∷ []) types_known host_lem.0
      host_lem.1 no_pods refl (inl ([], [], _, refl, tt, refl, refl))

-- The pool of the profile has its profile, and the profile is a shared one.
abbrev slow : Profile
slow = record {
  name = "performance";
  pstates = record {
    min_freq = int (pos 1000000);
    max_freq = int (pos 2000000);
    epp_value = "power";
    governor_value = "powersave";
  };
  cstates = record { states = []; max_latency_us = none };
}

abbrev profiled : Host
profiled = (run_call platform (set_profile (exclusive 0) (some slow)) host).1

abbrev shared_setup : Setup
shared_setup = record setup {
  server = record server {
    get_profile = λ n name. found (record performance { shared = true });
    get_node_labels = λ n name. found [];
    list_node_configs = λ n. some (
        (record (config "a" 7) {
          shared_power_profile = "performance";
          reserved_cpus = (record { cores = 3 ∷ []; power_profile = "performance" }) ∷ [];
        })
        ∷ []);
  };
}

one_pool : IsOnHost host (exclusive 0)
unfolding contains_cpu many_by_ids by_id scan_by_id set_pool set_pool_from do_set_pool settle remove
    index_of add consolidate same_pool with_host_mutex for_each shared_set_cpu reserved_set_cpu
    exclusive_set_cpu set_cpu set_cpus set_cpu_ids_locked set_cpu_ids init_host add_exclusive_pool
    add_locked get_exclusive_pool by_name index_of_name run_call update_frequencies
    set_driver_values write_epp get_abs_min_max_freq abs_min_max_loop get_abs_min_max
    get_freqs_to_scale get_freq_from_int_or_string clamp_min clamp_max write_freqs write
    update_cstates desired_cstates get_default_cstates_status apply_cstates apply_cstate
one_pool = omega arith

profiled_lem : IsWellFormed profiled × (profiled.locked ≡ false)
profiled_lem =
    Reach-IsWellFormed platform cpus names sysfs types_known (λ x. ground arith)
      (next (next (next here (adds "performance") tt) (set_ids reserved []) tt)
        (set_profile (exclusive 0) (some slow)) one_pool)

reconcile_node_config-IsSound_example :
    let r = reconcile_node_config shared_setup (record agent { host = profiled }) in
    (IsWellFormed r.1.host × (r.1.host.locked ≡ false) × HasUniquePods r.1.pods)
    × (returns r.0 ≡ true)
reconcile_node_config-IsSound_example =
    reconcile_node_config-IsSound shared_setup (record agent { host = profiled }) types_known
      profiled_lem.0 profiled_lem.1 no_pods
