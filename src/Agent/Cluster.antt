-- ===== src/Agent/Cluster.antt =====
-- What the node agent reads from the API server and the pod resources sockets. Both are outside the
-- repository: an answer is a function of the number of the call, so that two calls for one object may
-- be answered differently.
use cluster_power_manager.Base.{ℕ, Bool, List, Option, String, ℤ}
use cluster_power_manager.Power.Sysfs.{Error}
use cluster_power_manager.Api.Reserved.{ReservedSpec}

-- `r.Get`: the object, a not-found error, or any other error.
pub data Answer {ℓ} (A : Type ℓ) : Type ℓ where
  found : A → Answer A
  not_found failed : Answer A

-- `metav1.LabelSelector`, its expressions as they are written.
pub record LabelSelector : Type 0 where
  pub match_labels : List (String × String)
  pub match_expressions : List String

pub record CpuScalingPolicy : Type 0 where
  pub workload_type : String
  pub sample_period : ℤ
  pub cooldown_period : ℤ
  pub target_usage : ℤ
  pub allowed_usage_difference : ℤ
  pub allowed_frequency_difference : ℤ
  pub scale_percentage : ℤ
  pub fallback_freq_percent : ℤ

-- The fields of `PowerProfile` that the reconcilers of pods and of nodes read. The fields of a policy
-- are never nil: the schema of the resource sets each to its default.
pub record PowerProfile : Type 0 where
  pub shared : Bool
  pub node_selector : LabelSelector
  pub cpu_scaling_policy : Option CpuScalingPolicy

-- `PowerContainer` and `ExclusiveCPUPoolStatus`; an error text is the error that it describes.
pub record PowerContainer : Type 0 where
  pub name : String
  pub id : String
  pub power_profile : String
  pub cpu_ids : List ℕ
  pub errors : List Error

pub record ExclusiveCpuPoolStatus : Type 0 where
  pub pod_uid : String
  pub pod : String
  pub power_containers : List PowerContainer

-- The fields of `PowerNodeConfig`; `created` is its creation timestamp, in seconds.
pub record NodeConfig : Type 0 where
  pub name : String
  pub created : ℕ
  pub node_selector : LabelSelector
  pub shared_power_profile : String
  pub reserved_cpus : List ReservedSpec

-- `PowerProfileCPUs`.
pub record PowerProfileCpus : Type 0 where
  pub power_profile : String
  pub cpu_ids : List ℕ
  pub errors : List Error

-- The part of a PowerNodeState's status that the agent reads: `none` is `CPUPools == nil`.
pub record CpuPoolsStatus : Type 0 where
  pub active_config : Option String
  pub exclusive : List ExclusiveCpuPoolStatus

-- `resource.Quantity`: `Value()`, rounded up, and `MilliValue()`.
pub record Quantity : Type 0 where
  pub value : ℤ
  pub milli_value : ℤ

-- The fields of a container and of a pod that the reconciler reads. `resources.Claims` is counted.
pub record ContainerSpec : Type 0 where
  pub name : String
  pub requests : List (String × Quantity)
  pub limits : List (String × Quantity)
  pub claims : ℕ

pub data Phase : Type 0 where
  pending running succeeded ended : Phase

pub record Pod : Type 0 where
  pub name : String
  pub namespace : String
  pub uid : String
  pub node_name : String
  pub deleting : Bool
  pub phase : Phase
  pub guaranteed : Bool
  pub init_containers : List ContainerSpec
  pub containers : List ContainerSpec
  pub init_container_ids : List (String × String)
  pub container_ids : List (String × String)

-- The answer of a pod resources socket: pods with their containers' CPUs.
pub record PodResources : Type 0 where
  pub pod : String
  pub containers : List (String × List ℕ)

-- The answers. `selects` is `metav1.LabelSelectorAsSelector` with the match of its selector on labels.
pub record Server : Type 0 where
  pub get_pod : ℕ → String → String → Answer Pod
  pub get_profile : ℕ → String → Answer PowerProfile
  pub get_node_labels : ℕ → String → Answer (List (String × String))
  pub get_node_state : ℕ → String → Answer (Option CpuPoolsStatus)
  pub list_node_configs : ℕ → Option (List NodeConfig)
  pub patch_status : ℕ → Answer (Unit {0})
  pub list_resources : ℕ → Option (List PodResources)
  pub list_control_plane : ℕ → Option (List PodResources)
  pub selects : LabelSelector → Option (List (String × String) → Bool)
