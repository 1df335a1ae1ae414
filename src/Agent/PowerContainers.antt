-- ===== src/Agent/PowerContainers.antt =====
-- The power containers of a pod (getPowerProfileRequestsFromContainers of
-- controllers/powerpod_controller.go).
pub mod Reading
use cluster_power_manager.Base.{
  ℕ, Bool, true, false, List, [], ◌∷◌, ◌++◌, Option, none, some, String, str_eq, if◌then◌else◌, inl,
  inr, ◌⊎◌, ℤ, pos, length,
}
use cluster_power_manager.Power.Sysfs.{Error, not_available, cores_mismatch, Action, pure, ◌>>=◌}
use cluster_power_manager.Agent.CoreList.{get_clean_core_list}
use cluster_power_manager.Agent.Cluster.{ContainerSpec, Pod, PowerContainer}
use cluster_power_manager.Agent.Machine.{Setup, Agent, attempt}
use cluster_power_manager.Agent.Profiles.{validate_profile_availability_on_node}
use cluster_power_manager.Agent.Requests.{
  eq_int, trim_prefix, get_container_profile_from_requests, get_container_id, get_container_cpus,
}

-- What the loop appends for a container: a power container or none, and a recoverable error or none.
abbrev pub Found : Type 0
Found = Option PowerContainer × List Error

abbrev pub power_container : Pod → ContainerSpec → String → List ℕ → List Error → PowerContainer
power_container pod c profile cpus errors = record {
  name = c.name;
  id = trim_prefix "docker://" (get_container_id pod c.name);
  power_profile = profile;
  cpu_ids = cpus;
  errors = errors;
}

abbrev pub on_cores : Pod → ContainerSpec → String → ℤ → (List ℕ) ⊎ Error → Found
on_cores pod c profile requested (inr e) = (none, e ∷ [])
on_cores pod c profile requested (inl text) =
    let cores = get_clean_core_list text in
    if eq_int (pos (length cores)) requested
    then (some (power_container pod c profile cores []), [])
    else (none, cores_mismatch ∷ [])

-- An error of the check is logged only.
abbrev pub on_availability :
    Setup → Pod → ContainerSpec → String → ℤ → Bool ⊎ Error → Action Agent Found
on_availability e pod c profile requested (inr x) = pure (none, [])
on_availability e pod c profile requested (inl false) =
    pure (some (power_container pod c profile [] (not_available ∷ [])), not_available ∷ [])
on_availability e pod c profile requested (inl true) =
    attempt (get_container_cpus e pod.name c.name) >>= λ text.
    pure (on_cores pod c profile requested text)

abbrev pub on_request : Setup → Pod → ContainerSpec → (String × ℤ) ⊎ Error → Action Agent Found
on_request e pod c (inr x) = pure (some (power_container pod c "" [] (x ∷ [])), [])
on_request e pod c (inl (profile, requested)) =
    let check =
      attempt (validate_profile_availability_on_node e profile pod.node_name)
      >>= on_availability e pod c profile requested in
    if str_eq profile "" then pure (none, []) else check

abbrev pub append_found :
    Found → List PowerContainer × List Error → List PowerContainer × List Error
append_found (none, errors) (cs, es) = (cs, errors ++ es)
append_found (some c, errors) (cs, es) = (c ∷ cs, errors ++ es)

unfoldable pub get_power_profile_requests_from_containers :
    Setup → Pod → List ContainerSpec → Action Agent (List PowerContainer × List Error)
get_power_profile_requests_from_containers e pod [] = pure ([], [])
get_power_profile_requests_from_containers e pod (c ∷ cs) =
    on_request e pod c (get_container_profile_from_requests c) >>= λ found.
    get_power_profile_requests_from_containers e pod cs >>= λ rest. pure (append_found found rest)
