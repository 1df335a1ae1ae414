-- ===== src/Agent/PowerPod.antt =====
-- The reconciler of pods (controllers/powerpod_controller.go).
pub mod Reconciled
pub mod Deleted
use cluster_power_manager.Base.{
  ℕ, Bool, true, false, ◌||◌, List, [], ◌∷◌, ◌++◌, Option, none, some, String, str_eq,
  if◌then◌else◌,
}
use cluster_power_manager.Power.Sysfs.{
  Error, api_failed, object_missing, not_running, no_uid, recoverable, Result, ok, err, panic,
  deadlock, Action, pure, lift, ◌>>=◌, ◌>>◌,
}
use cluster_power_manager.Power.Host.{shared}
use cluster_power_manager.Power.Pool.{move_cpu_ids}
use cluster_power_manager.Scaling.Manager.{remove_cpu_scaling}
use cluster_power_manager.State.Pods.{GuaranteedPod, Container, update_state_guaranteed_pods}
use cluster_power_manager.State.Deletion.{delete_pod_from_state}
use cluster_power_manager.Agent.Cluster.{
  Answer, found, not_found, failed, PowerContainer, ExclusiveCpuPoolStatus, CpuPoolsStatus,
  ContainerSpec, Pod, Phase, running, succeeded,
}
use cluster_power_manager.Agent.Machine.{
  Setup, Agent, StatusPatch, exclusive_entry, on_host, ask, modify,
}
use cluster_power_manager.Agent.Requests.{get_admissible_containers}
use cluster_power_manager.Agent.PowerContainers.{get_power_profile_requests_from_containers}
use cluster_power_manager.Agent.Placement.{Placed, waiting, placed_all, place_containers}
use cluster_power_manager.Agent.ScalingOpts.{close_connection}

-- How a reconciliation ends without an error: for good, or to be called again after a while.
pub data Outcome : Type 0 where
  finished requeued : Outcome

abbrev pub patched : Answer (Unit {0}) → StatusPatch → Action Agent (Unit {0})
patched (found u) patch s = (ok tt, record s { patches = patch ∷ s.patches })
patched not_found patch s = (err object_missing, s)
patched failed patch s = (err api_failed, s)

abbrev pub apply_exclusive_status :
    Setup → String → List ExclusiveCpuPoolStatus → Action Agent (Unit {0})
apply_exclusive_status e uid entries =
    ask e.server.patch_status >>= λ a. patched a (exclusive_entry uid entries)

unfoldable pub add_power_node_status_exclusive_entry :
    Setup → String → String → List PowerContainer → Action Agent (Unit {0})
add_power_node_status_exclusive_entry e uid name cs =
    apply_exclusive_status e uid
      ((record { pod_uid = uid; pod = name; power_containers = cs }) ∷ [])

-- `NotFound` is no error here.
abbrev pub removed : Answer (Unit {0}) → String → Action Agent (Unit {0})
removed not_found uid s = (ok tt, s)
removed (found u) uid s = patched (found u) (exclusive_entry uid []) s
removed failed uid s = patched failed (exclusive_entry uid []) s

unfoldable pub remove_power_node_status_exclusive_entry : Setup → String → Action Agent (Unit {0})
remove_power_node_status_exclusive_entry e uid = ask e.server.patch_status >>= λ a. removed a uid

abbrev pub state_containers : List PowerContainer → List Container
state_containers [] = []
state_containers (c ∷ cs) =
    (record {
      name = c.name;
      id = c.id;
      pod = "";
      pod_uid = "";
      exclusive_cpus = c.cpu_ids;
      power_profile = c.power_profile;
    })
    ∷ state_containers cs

abbrev pub guaranteed_pod : Pod → List PowerContainer → GuaranteedPod
guaranteed_pod pod cs = record {
  node = pod.node_name;
  name = pod.name;
  namespace = pod.namespace;
  uid = pod.uid;
  containers = state_containers cs;
}

abbrev pub outcome_of : List Error → Result Outcome
outcome_of [] = ok finished
outcome_of (e ∷ es) = err recoverable

abbrev pub record_pod : Setup → Pod → List PowerContainer → List Error → Action Agent Outcome
record_pod e pod cs errors =
    add_power_node_status_exclusive_entry e pod.uid pod.name cs
    >> modify (λ s. record s { pods = update_state_guaranteed_pods (guaranteed_pod pod cs) s.pods })
    >> lift (outcome_of errors)

abbrev pub on_placed : Setup → Pod → List Error → Placed → Action Agent Outcome
on_placed e pod errors waiting = pure requeued
on_placed e pod errors (placed_all cs more) = record_pod e pod cs (errors ++ more)

abbrev pub on_containers : Setup → Pod → List PowerContainer × List Error → Action Agent Outcome
on_containers e pod (cs, errors) = place_containers e pod.uid false cs >>= on_placed e pod errors

abbrev pub on_admissible : Setup → Pod → List ContainerSpec → Action Agent Outcome
on_admissible e pod [] = pure finished
on_admissible e pod (c ∷ cs) =
    let place = get_power_profile_requests_from_containers e pod (c ∷ cs) >>= on_containers e pod in
    if str_eq pod.uid "" then lift (err no_uid) else place

abbrev pub handle_running : Setup → Pod → Action Agent Outcome
handle_running e pod = get_admissible_containers e pod >>= on_admissible e pod

-- The deletion from the remembered pods, its error dropped.
unfoldable pub forget_pod : String → String → Action Agent (Unit {0})
forget_pod name namespace s = elim (delete_pod_from_state name namespace s.pods) [
  | ok pods ↦ (ok tt, record s { pods = pods })
  | err e ↦ (ok tt, s)
  | panic ↦ (panic, s)
  | deadlock ↦ (deadlock, s)
]

-- The CPUs of the pod's containers go to the shared pool, container by container.
unfoldable pub release_containers : Setup → List PowerContainer → Action Agent (List ℕ)
release_containers e [] = pure []
release_containers e (c ∷ cs) = do
  on_host (move_cpu_ids e.platform shared c.cpu_ids)
  rest ← release_containers e cs
  pure (c.cpu_ids ++ rest)

-- The entry of the pod: the first one with its UID.
unfoldable pub entry_containers : String → List ExclusiveCpuPoolStatus → List PowerContainer
entry_containers uid [] = []
entry_containers uid (x ∷ xs) =
    if str_eq x.pod_uid uid then x.power_containers else entry_containers uid xs

abbrev pub tear_down : Setup → String → List ℕ → Action Agent (Unit {0})
tear_down e uid cpus =
    let stop = modify λ s. record s {
      connections = close_connection uid s.connections;
      scaling = remove_cpu_scaling cpus s.scaling;
    } in
    if e.scaling_enabled then stop else pure tt

abbrev pub on_node_state : Setup → Pod → Answer (Option CpuPoolsStatus) → Action Agent (Unit {0})
on_node_state e pod not_found = pure tt
on_node_state e pod failed = lift (err api_failed)
on_node_state e pod (found none) = pure tt
on_node_state e pod (found (some status)) =
    release_containers e (entry_containers pod.uid status.exclusive) >>= tear_down e pod.uid

unfoldable pub handle_pod_deletion : Setup → Pod → Action Agent Outcome
handle_pod_deletion e pod = do
  forget_pod pod.name pod.namespace
  status ← ask λ n. e.server.get_node_state n e.node_name
  on_node_state e pod status
  remove_power_node_status_exclusive_entry e pod.uid
  pure finished

abbrev pub is_succeeded : Phase → Bool
is_succeeded succeeded = true
is_succeeded _ = false

abbrev pub is_running : Phase → Bool
is_running running = true
is_running _ = false

abbrev pub on_pod : Setup → String → String → Answer Pod → Action Agent Outcome
on_pod e name namespace not_found = forget_pod name namespace >> pure finished
on_pod e name namespace failed = lift (err api_failed)
on_pod e name namespace (found pod) =
    let delete = handle_pod_deletion e pod in
    let place = handle_running e pod in
    if pod.deleting || is_succeeded pod.phase
    then delete
    else (if is_running pod.phase then place else lift (err not_running))

-- `Reconcile`.
unfoldable pub reconcile_pod : Setup → String → String → Action Agent Outcome
reconcile_pod e name namespace =
    ask (λ n. e.server.get_pod n name namespace) >>= on_pod e name namespace
