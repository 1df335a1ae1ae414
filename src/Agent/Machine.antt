-- ===== src/Agent/Machine.antt =====
-- The node agent's state, and steps on it: calls of the power library, of the scaling manager, and of
-- the API server.
use cluster_power_manager.Base.{ℕ, ◌+◌, Bool, List, String, inl, inr, ◌⊎◌}
use cluster_power_manager.Power.Sysfs.{Error, Result, ok, err, panic, deadlock, Action}
use cluster_power_manager.Power.Host.{Platform, Host}
use cluster_power_manager.Scaling.Manager.{Manager}
use cluster_power_manager.State.Pods.{GuaranteedPod}
use cluster_power_manager.Agent.Cluster.{Server, ExclusiveCpuPoolStatus, PowerProfileCpus}

-- What the agent was started with. `scaling_enabled` says that neither client of DPDK scaling is nil;
-- `show_cores` is `fmt.Sprintf("%v", …)` of a list of cores, `cpuset_string` is `CPUSet.String` of pkg/cpuset, a copy of another project's library.
pub record Setup : Type 0 where
  pub platform : Platform
  pub server : Server
  pub node_name : String
  pub scaling_enabled : Bool
  pub cpuset_string : List ℕ → List ℕ
  pub show_cores : List ℕ → String

-- A status patch that the server took, by its field manager.
pub data StatusPatch : Type 0 where
  exclusive_entry : String → List ExclusiveCpuPoolStatus → StatusPatch
  pools_entry : String → String → List ℕ → List PowerProfileCpus → List Error → StatusPatch
  no_pools_entry : StatusPatch

-- `connections` are those of the telemetry client, by pod, with the CPUs that each watches.
pub record Agent : Type 0 where
  pub host : Host
  pub pods : List GuaranteedPod
  pub connections : List (String × List ℕ)
  pub scaling : Manager
  pub patches : List StatusPatch
  pub calls : ℕ

-- A call of the power library.
abbrev pub on_host : {A : Type 0} → Action Host A → Action Agent A
on_host m s = let r = m s.host in (r.0, record s { host = r.1 })

-- `if err := f(); err != nil`: the error becomes a value.
abbrev pub caught : {A : Type 0} → Result A → Result (A ⊎ Error)
caught (ok a) = ok (inl a)
caught (err e) = ok (inr e)
caught panic = panic
caught deadlock = deadlock

abbrev pub attempt : {S A : Type 0} → Action S A → Action S (A ⊎ Error)
attempt m s = let r = m s in (caught r.0, r.1)

-- A read, numbered.
abbrev pub ask : {A : Type 0} → (ℕ → A) → Action Agent A
ask f s = (ok (f s.calls), record s { calls = s.calls + 1 })

abbrev pub get : {A : Type 0} → (Agent → A) → Action Agent A
get f s = (ok (f s), s)

abbrev pub modify : (Agent → Agent) → Action Agent (Unit {0})
modify f s = (ok tt, f s)
