-- ===== src/Agent/Placement.antt =====
-- The loop of the pods' reconciler over the power containers (controllers/powerpod_controller.go).
pub mod Running
pub mod Steps
pub mod Destinations
use cluster_power_manager.Base.{
  ℕ, Bool, true, false, ◌&&◌, List, [], ◌∷◌, ◌++◌, Option, none, some, String, str_eq,
  if◌then◌else◌, inl, inr, ◌⊎◌, contains,
}
use cluster_power_manager.Power.Sysfs.{
  Error, api_failed, pool_missing, profile_missing, single_dpdk, missing_cpus, err, Action, pure,
  lift, ◌>>=◌, ◌>>◌,
}
use cluster_power_manager.Power.Host.{Pool, shared, Host}
use cluster_power_manager.Power.Pool.{get_exclusive_pool, move_cpu_ids}
use cluster_power_manager.Scaling.Updater.{CpuScalingOpts}
use cluster_power_manager.Scaling.Manager.{add_cpu_scaling}
use cluster_power_manager.Agent.Cluster.{
  Answer, found, not_found, failed, CpuScalingPolicy, PowerProfile, PowerContainer,
}
use cluster_power_manager.Agent.Machine.{Setup, Agent, on_host, attempt, ask, get, modify}
use cluster_power_manager.Agent.Profiles.{is_empty}
use cluster_power_manager.Agent.ScalingOpts.{generate_cpu_scaling_opts, ensure_connection}

unfoldable pub detect_cores_added : List ℕ → List ℕ → List ℕ
detect_cores_added actual [] = []
detect_cores_added actual (c ∷ cs) =
    let rest = detect_cores_added actual cs in if contains c actual then rest else c ∷ rest

unfoldable pub are_cpus_in_shared_pool : Host → List ℕ → Bool
are_cpus_in_shared_pool h [] = true
are_cpus_in_shared_pool h (c ∷ cs) = contains c (h.cpus shared) && are_cpus_in_shared_pool h cs

-- What an iteration of the loop over the containers does: return from the function to wait for the
-- shared pool, or go on with the container as it is now, the errors to retry for, and whether a DPDK
-- container has been assigned.
pub data Step : Type 0 where
  waits : Step
  goes_on : PowerContainer → List Error → Bool → Step

abbrev pub with_error : Error → PowerContainer → PowerContainer
with_error e c = record c { errors = c.errors ++ e ∷ [] }

abbrev pub with_errors : List ℕ → PowerContainer → PowerContainer
with_errors [] c = c
with_errors (id ∷ ids) c = with_error missing_cpus c

abbrev pub manage : List CpuScalingOpts → Agent → Agent
manage [] s = s
manage (o ∷ os) s = record s { scaling = add_cpu_scaling (o ∷ os) s.scaling }

abbrev pub scale_container : PowerContainer → List CpuScalingOpts × List ℕ → Action Agent Step
scale_container c (opts, missing) =
    modify (manage opts) >> pure (goes_on (with_errors missing c) [] true)

abbrev pub assign_dpdk : Setup → String → CpuScalingPolicy → PowerContainer → Action Agent Step
assign_dpdk e uid policy c = do
  modify λ s. record s { connections = ensure_connection uid c.cpu_ids s.connections }
  opts ← get λ s. generate_cpu_scaling_opts e.platform.freq s.host.all_cpus policy c.cpu_ids
  scale_container c opts

abbrev pub on_policy :
    Setup → String → Bool → PowerContainer → Option CpuScalingPolicy → Action Agent Step
on_policy e uid assigned c none = pure (goes_on c [] assigned)
on_policy e uid assigned c (some policy) =
    let first = assign_dpdk e uid policy c in
    if str_eq policy.workload_type "polling-dpdk"
    then (if assigned then pure (goes_on (with_error single_dpdk c) [] assigned) else first)
    else pure (goes_on c [] assigned)

abbrev pub on_profile :
    Setup → String → Bool → PowerContainer → Answer PowerProfile → Action Agent Step
on_profile e uid assigned c not_found =
    pure (goes_on (with_error profile_missing c) (profile_missing ∷ []) assigned)
on_profile e uid assigned c failed = lift (err api_failed)
on_profile e uid assigned c (found profile) = on_policy e uid assigned c profile.cpu_scaling_policy

unfoldable pub set_up_scaling : Setup → String → Bool → PowerContainer → Action Agent Step
set_up_scaling e uid assigned c =
    let read = ask (λ n. e.server.get_profile n c.power_profile) >>= on_profile e uid assigned c in
    if e.scaling_enabled then read else pure (goes_on c [] assigned)

abbrev pub after_move :
    Setup → String → Bool → PowerContainer → (Unit {0}) ⊎ Error → Action Agent Step
after_move e uid assigned c (inl u) = set_up_scaling e uid assigned c
after_move e uid assigned c (inr x) = pure (goes_on (with_error x c) (x ∷ []) assigned)

abbrev pub move_to :
    Setup → String → Bool → PowerContainer → Pool → List ℕ → Bool → Action Agent Step
move_to e uid assigned c pool cores false = pure waits
move_to e uid assigned c pool cores true =
    attempt (on_host (move_cpu_ids e.platform pool cores)) >>= after_move e uid assigned c

abbrev pub add_cores : Setup → String → Bool → PowerContainer → Pool → List ℕ → Action Agent Step
add_cores e uid assigned c pool [] = set_up_scaling e uid assigned c
add_cores e uid assigned c pool (x ∷ xs) =
    get (λ s. are_cpus_in_shared_pool s.host (x ∷ xs)) >>= move_to e uid assigned c pool (x ∷ xs)

abbrev pub on_pool : Setup → String → Bool → PowerContainer → Option Pool → Action Agent Step
on_pool e uid assigned c none =
    pure (goes_on (with_error pool_missing c) (pool_missing ∷ []) assigned)
on_pool e uid assigned c (some pool) =
    get (λ s. detect_cores_added (s.host.cpus pool) c.cpu_ids) >>= add_cores e uid assigned c pool

unfoldable pub place_container : Setup → String → Bool → PowerContainer → Action Agent Step
place_container e uid assigned c =
    let place = get (λ s. get_exclusive_pool s.host c.power_profile) >>= on_pool e uid assigned c in
    if is_empty c.errors then place else pure (goes_on c [] assigned)

-- The whole loop: it waits, or ends with the containers and the errors to retry for.
pub data Placed : Type 0 where
  waiting : Placed
  placed_all : List PowerContainer → List Error → Placed

abbrev pub append_placed : PowerContainer → List Error → Placed → Placed
append_placed c es waiting = waiting
append_placed c es (placed_all cs more) = placed_all (c ∷ cs) (es ++ more)

abbrev pub on_step : (Bool → Action Agent Placed) → Step → Action Agent Placed
on_step rest waits = pure waiting
on_step rest (goes_on done errors now) =
    rest now >>= λ placed. pure (append_placed done errors placed)

unfoldable pub place_containers : Setup → String → Bool → List PowerContainer → Action Agent Placed
place_containers e uid assigned [] = pure (placed_all [] [])
place_containers e uid assigned (c ∷ cs) =
    place_container e uid assigned c >>= on_step λ now. place_containers e uid now cs
