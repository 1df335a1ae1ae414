-- ===== src/Agent/Requests.antt =====
-- What the containers of a pod request (controllers/powerpod_controller.go), and the CPUs that the
-- kubelet gave them (pkg/podresourcesclient).
use cluster_power_manager.Base.{
  ℕ, zero, suc, Bool, true, false, not, ◌&&◌, ◌||◌, ◌==◌, List, [], ◌∷◌, ◌++◌, Option, none, some,
  String, str_eq, str_append, starts_with, slice, len, if◌then◌else◌, inl, inr, ◌⊎◌, ℤ, pos, leb_ℤ,
  ◌*ℤ◌, lookup, to_int, to_uint,
}
use cluster_power_manager.Power.Sysfs.{
  Error, api_failed, many_profiles, requests_mismatch, resources_missing, Result, ok, err, panic,
  Action, pure, lift, ◌>>=◌,
}
use cluster_power_manager.Agent.Cluster.{Quantity, ContainerSpec, Pod, PodResources}
use cluster_power_manager.Agent.Machine.{Setup, Agent, ask}
use cluster_power_manager.Agent.Profiles.{is_empty}

abbrev pub resource_prefix : String
resource_prefix = "power.cluster-power-manager.github.io/"

abbrev pub eq_int : ℤ → ℤ → Bool
eq_int a b = leb_ℤ a b && leb_ℤ b a

-- `strings.TrimPrefix`, where the text has the prefix.
abbrev pub after_prefix : String → String → String
after_prefix prefix s = slice s (len prefix) (len s)

abbrev pub trim_prefix : String → String → String
trim_prefix prefix s = if starts_with s prefix then after_prefix prefix s else s

-- The value under a key that is not in the map is zero.
abbrev pub no_quantity : Quantity
no_quantity = record { value = pos 0; milli_value = pos 0 }

abbrev pub or_zero : Option Quantity → Quantity
or_zero none = no_quantity
or_zero (some q) = q

abbrev pub quantity : String → List (String × Quantity) → Quantity
quantity resource m = or_zero (lookup resource m)

-- The loop over the requests, in the order in which the map is walked. (`inr` is the error.)
unfoldable pub requested_profile : List (String × Quantity) → String → String ⊎ Error
requested_profile [] profile = inl profile
requested_profile ((r, q) ∷ rs) profile =
    let none_yet = requested_profile rs (after_prefix resource_prefix r) in
    let other = requested_profile rs profile in
    if starts_with r resource_prefix
    then (if str_eq profile "" then none_yet else inr many_profiles)
    else other

unfoldable pub check_resource : ContainerSpec → String → ℤ × ℤ
check_resource c resource =
    ((quantity resource c.requests).value, (quantity resource c.limits).value)

abbrev pub checked_request : ContainerSpec → String → ℤ → ℤ → ℤ × ℤ → (String × ℤ) ⊎ Error
checked_request c profile requested limit (cpu_requests, cpu_limits) =
    if eq_int cpu_requests (pos 0) && not (c.claims == 0)
    then inl (profile, requested)
    else (if eq_int cpu_requests requested && eq_int cpu_limits limit
        then inl (profile, requested)
        else inr requests_mismatch)

abbrev pub on_requested : ContainerSpec → String ⊎ Error → (String × ℤ) ⊎ Error
on_requested c (inr e) = inr e
on_requested c (inl profile) =
    if str_eq profile ""
    then inl (profile, pos 0)
    else checked_request c profile (quantity (str_append resource_prefix profile) c.requests).value
        (quantity (str_append resource_prefix profile) c.limits).value (check_resource c "cpu")

unfoldable pub get_container_profile_from_requests : ContainerSpec → (String × ℤ) ⊎ Error
get_container_profile_from_requests c = on_requested c (requested_profile c.requests "")

unfoldable pub all_pod_containers : Pod → List ContainerSpec
all_pod_containers pod = pod.init_containers ++ pod.containers

-- `cpuQuantity.Value()*1000 == cpuQuantity.MilliValue()`, in `int64`.
unfoldable pub does_container_require_exclusive_cpus : Pod → ContainerSpec → Bool
does_container_require_exclusive_cpus pod c =
    let q = quantity "cpu" c.requests in
    pod.guaranteed && eq_int (to_int (to_uint (q.value *ℤ pos 1000))) q.milli_value

abbrev pub admissible : Pod → Bool → List ContainerSpec → List ContainerSpec
admissible pod available [] = []
admissible pod available (c ∷ cs) =
    if does_container_require_exclusive_cpus pod c || available
    then c ∷ admissible pod available cs
    else admissible pod available cs

abbrev pub is_some {ℓ} : {A : Type ℓ} → Option A → Bool
is_some none = false
is_some (some a) = true

-- `pingControlPlane` is whether the socket answers.
unfoldable pub get_admissible_containers : Setup → Pod → Action Agent (List ContainerSpec)
get_admissible_containers e pod =
    ask (λ n. is_some (e.server.list_control_plane n)) >>= λ available.
    pure (admissible pod available (all_pod_containers pod))

abbrev pub or_no_id : Option String → String
or_no_id none = ""
or_no_id (some id) = id

unfoldable pub get_container_id : Pod → String → String
get_container_id pod name = or_no_id (lookup name (pod.init_container_ids ++ pod.container_ids))

-- `parseContainers`: the search goes on in the next entry of the pod when one has no such container.
abbrev pub cpus_of : Setup → Option (List ℕ) → (List ℕ) ⊎ Error → (List ℕ) ⊎ Error
cpus_of e none rest = rest
cpus_of e (some ids) rest = inl (e.cpuset_string ids)

unfoldable pub parse_containers : Setup → List PodResources → String → String → (List ℕ) ⊎ Error
parse_containers e [] pod container = inr resources_missing
parse_containers e (r ∷ rs) pod container =
    let rest = parse_containers e rs pod container in
    if str_eq r.pod pod then cpus_of e (lookup container r.containers) rest else rest

-- `listResources` of the kubelet's socket, and of the control plane's: an error of the latter is
-- dropped, and the response is nil, which the caller dereferences.
abbrev pub kubelet_answer : Option (List PodResources) → Result (List PodResources)
kubelet_answer none = err api_failed
kubelet_answer (some r) = ok r

abbrev pub control_plane_answer : Option (List PodResources) → Result (List PodResources)
control_plane_answer none = panic
control_plane_answer (some r) = ok r

unfoldable pub list_resources : Setup → Action Agent (List PodResources)
list_resources e = ask e.server.list_resources >>= λ a. lift (kubelet_answer a)

unfoldable pub list_control_plane : Setup → Action Agent (List PodResources)
list_control_plane e = ask e.server.list_control_plane >>= λ a. lift (control_plane_answer a)

abbrev pub has_cpus : (List ℕ) ⊎ Error → Bool
has_cpus (inl cpus) = not (is_empty cpus)
has_cpus (inr error) = false

abbrev pub settle_answer : (List ℕ) ⊎ Error → Action Agent (List ℕ)
settle_answer (inl cpus) = pure cpus
settle_answer (inr error) = lift (err error)

-- `retries` more tries, after one whose outcome was `last`.
unfoldable pub retry_control_plane :
    Setup → String → String → ℕ → (List ℕ) ⊎ Error → Action Agent (List ℕ)
retry_control_plane e pod container zero last = settle_answer last
retry_control_plane e pod container (suc retries) last = list_control_plane e >>= λ resources.
    let answer = parse_containers e resources pod container in
    let again = retry_control_plane e pod container retries answer in
    if has_cpus answer then settle_answer answer else again

-- `GetContainerCPUs`.
abbrev pub on_kubelet : Setup → String → String → (List ℕ) ⊎ Error → Action Agent (List ℕ)
on_kubelet e pod container (inr error) = lift (err error)
on_kubelet e pod container (inl cpus) =
    if is_empty cpus then retry_control_plane e pod container 3 (inl cpus) else pure cpus

unfoldable pub get_container_cpus : Setup → String → String → Action Agent (List ℕ)
get_container_cpus e pod container = list_resources e >>= λ resources.
    on_kubelet e pod container (parse_containers e resources pod container)
