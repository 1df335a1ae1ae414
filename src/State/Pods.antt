-- ===== src/State/Pods.antt =====
-- The guaranteed pods of the node (pkg/podstate/podstate.go).
use cluster_power_manager.Base.{
  ℕ, ◌+◌, ◌≡◌, ◌==◌, ◌&&◌, Bool, true, false, List, [], ◌∷◌, ◌++◌, String, str_eq, eq_iff, arith,
  if◌then◌else◌, Bool-cases, inl, inr, count_if,
}

pub record Container : Type 0 where
  pub name : String
  pub id : String
  pub pod : String
  pub pod_uid : String
  pub exclusive_cpus : List ℕ
  pub power_profile : String

pub record GuaranteedPod : Type 0 where
  pub node : String
  pub name : String
  pub namespace : String
  pub uid : String
  pub containers : List Container

abbrev pub no_pod : GuaranteedPod
no_pod = record { node = ""; name = ""; namespace = ""; uid = ""; containers = [] }

abbrev pub is_pod : String → String → GuaranteedPod → Bool
is_pod name namespace p = str_eq p.name name && str_eq p.namespace namespace

unfoldable pub update_state_guaranteed_pods :
    GuaranteedPod → List GuaranteedPod → List GuaranteedPod
update_state_guaranteed_pods pod [] = pod ∷ []
update_state_guaranteed_pods pod (p ∷ ps) =
    let rest = update_state_guaranteed_pods pod ps in
    if is_pod pod.name pod.namespace p then pod ∷ ps else p ∷ rest

unfoldable pub get_pod_from_state : String → String → List GuaranteedPod → GuaranteedPod
get_pod_from_state name namespace [] = no_pod
get_pod_from_state name namespace (p ∷ ps) =
    if is_pod name namespace p then p else get_pod_from_state name namespace ps

unfoldable pub get_cpus_from_pod_state : List Container → List ℕ
get_cpus_from_pod_state [] = []
get_cpus_from_pod_state (c ∷ cs) = c.exclusive_cpus ++ get_cpus_from_pod_state cs

-- The pods with that name and namespace.
abbrev pub entries : String → String → List GuaranteedPod → ℕ
entries name namespace = count_if (is_pod name namespace)

same_key :
    (p pod : GuaranteedPod) (n s : String)
    → is_pod pod.name pod.namespace p ≡ true
    → is_pod n s p ≡ is_pod n s pod
same_key p pod n s h = ground (arith, eq_iff p.name pod.name, eq_iff p.namespace pod.namespace)

other_key :
    (p pod : GuaranteedPod) (n s : String)
    → is_pod pod.name pod.namespace p ≡ false
    → (is_pod n s p && is_pod n s pod) ≡ false
other_key p pod n s h = ground (
  arith,
  eq_iff p.name pod.name,
  eq_iff p.namespace pod.namespace,
  eq_iff p.name n,
  eq_iff pod.name n,
  eq_iff p.namespace s,
  eq_iff pod.namespace s,
)

-- After an update the state has the new pod under its name and namespace, and every other pod as it
-- was; there is one entry more just if the name and namespace had none.
pub update_state_guaranteed_pods_lem :
    (pod : GuaranteedPod) (ps : List GuaranteedPod) (n s : String)
    → (get_pod_from_state n s (update_state_guaranteed_pods pod ps)
        ≡ (if is_pod n s pod then pod else get_pod_from_state n s ps))
      × (entries n s (update_state_guaranteed_pods pod ps)
          ≡ entries n s ps
            + (if is_pod n s pod && entries pod.name pod.namespace ps == 0 then 1 else 0))
unfolding update_state_guaranteed_pods get_pod_from_state
update_state_guaranteed_pods_lem pod [] n s = (ground arith, ground arith)
update_state_guaranteed_pods_lem pod (p ∷ ps) n s =
    let ih = update_state_guaranteed_pods_lem pod ps n s in
    elim (Bool-cases (is_pod pod.name pod.namespace p)) [
      | inl h ↦ (ground (arith, h, same_key p pod n s h), ground (arith, h, same_key p pod n s h))
      | inr h ↦ (
        ground (arith, h, ih.0, other_key p pod n s h),
        ground (arith, h, ih.1, other_key p pod n s h),
      )
    ]
