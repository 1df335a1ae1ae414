-- ===== src/Api/Profiles.antt =====
-- The admission of changes and deletions of PowerProfiles (api/v1alpha1/powerprofile_webhook.go).
-- `none` for a list is an error of the API server. An error text is the references that it names.
use cluster_power_manager.Base.{
  ℕ, ◌+◌, ◌≡◌, refl, Bool, true, false, not, ◌&&◌, ◌||◌, ap, ◌∙◌, List, [], ◌∷◌, Option, none, some,
  String, str_eq, arith, if◌then◌else◌,
}
use cluster_power_manager.Api.Reserved.{ReservedSpec}
use cluster_power_manager.Agent.Cluster.{NodeConfig, Pod}

-- The shared profile of a config, or the first of its reserved entries with the profile.
pub data Reference : Type 0 where
  shared : String → Reference
  reserved : String → ℕ → Reference

pub data Reason : Type 0 where
  configs_unlisted pods_unlisted : Reason
  by_configs : List Reference → Reason
  by_pods : List (String × String) → Reason

unfoldable pub reserved_reference :
    String → String → ℕ → List ReservedSpec → List Reference → List Reference
reserved_reference profile name i [] refs = refs
reserved_reference profile name i (rc ∷ rcs) refs =
    let rest = reserved_reference profile name (i + 1) rcs refs in
    if str_eq rc.power_profile profile then reserved name i ∷ refs else rest

unfoldable pub config_references : String → Bool → List NodeConfig → List Reference
config_references profile shared_only [] = []
config_references profile shared_only (c ∷ cs) =
    let refs = config_references profile shared_only cs in
    if str_eq c.shared_power_profile profile
    then shared c.name ∷ refs
    else if shared_only
    then refs
    else reserved_reference profile c.name 0 c.reserved_cpus refs

abbrev pub named_by : List Reference → Option Reason
named_by [] = none
named_by (r ∷ refs) = some (by_configs (r ∷ refs))

unfoldable pub validate_power_node_config_references :
    Option (List NodeConfig) → String → Bool → Option Reason
validate_power_node_config_references none profile shared_only = some configs_unlisted
validate_power_node_config_references (some cs) profile shared_only =
    named_by (config_references profile shared_only cs)

unfoldable pub pod_references : List Pod → List (String × String)
pod_references [] = []
pod_references (p ∷ ps) = (p.namespace, p.name) ∷ pod_references ps

abbrev pub requested_by : List (String × String) → Option Reason
requested_by [] = none
requested_by (r ∷ refs) = some (by_pods (r ∷ refs))

-- The argument is the answer for the pods that the index holds under the profile.
unfoldable pub validate_pod_references : Option (List Pod) → Option Reason
validate_pod_references none = some pods_unlisted
validate_pod_references (some ps) = requested_by (pod_references ps)

abbrev pub add_reason : Option Reason → List Reason → List Reason
add_reason none reasons = reasons
add_reason (some r) reasons = r ∷ reasons

-- The reasons for a refusal: none of them admits the change.
unfoldable pub validate_delete : Option (List NodeConfig) → Option (List Pod) → String → List Reason
validate_delete configs pods profile =
    add_reason (validate_power_node_config_references configs profile false)
      (add_reason (validate_pod_references pods) [])

-- From the old `spec.shared` to the new one.
unfoldable pub validate_update : Option (List NodeConfig) → Bool → Bool → String → List Reason
validate_update configs old_shared new_shared profile =
    if old_shared && not new_shared
    then add_reason (validate_power_node_config_references configs profile true) []
    else []

abbrev pub all {ℓ} : {A : Type ℓ} → (A → Bool) → List A → Bool
all p [] = true
all p (x ∷ l) = p x && all p l

abbrev pub is_empty {ℓ} : {A : Type ℓ} → List A → Bool
is_empty [] = true
is_empty (x ∷ l) = false

abbrev pub is_unshared : String → NodeConfig → Bool
is_unshared profile c = not (str_eq c.shared_power_profile profile)

-- Neither the shared profile nor that of a reserved entry.
abbrev pub is_unrelated : String → NodeConfig → Bool
is_unrelated profile c =
    is_unshared profile c && all (λ rc. not (str_eq rc.power_profile profile)) c.reserved_cpus

reserved_reference-all :
    (profile name : String) (i : ℕ) (rcs : List ReservedSpec) (refs : List Reference)
    → is_empty (reserved_reference profile name i rcs refs)
      ≡ (all (λ rc. not (str_eq rc.power_profile profile)) rcs && is_empty refs)
unfolding reserved_reference
reserved_reference-all profile name i [] refs = refl
reserved_reference-all profile name i (rc ∷ rcs) refs =
    ground (arith, reserved_reference-all profile name (i + 1) rcs refs)

config_references-all :
    (profile : String) (cs : List NodeConfig)
    → is_empty (config_references profile false cs) ≡ all (is_unrelated profile) cs
unfolding config_references
config_references-all profile [] = refl
config_references-all profile (c ∷ cs) = ground (
  arith,
  config_references-all profile cs,
  reserved_reference-all profile c.name 0 c.reserved_cpus (config_references profile false cs),
)

config_references-shared :
    (profile : String) (cs : List NodeConfig)
    → is_empty (config_references profile true cs) ≡ all (is_unshared profile) cs
unfolding config_references
config_references-shared profile [] = refl
config_references-shared profile (c ∷ cs) = ground (arith, config_references-shared profile cs)

abbrev pub listed {ℓ} : {A : Type ℓ} → (List A → Bool) → Option (List A) → Bool
listed p none = false
listed p (some l) = p l

named_by-is_empty :
    (refs : List Reference) (reasons : List Reason)
    → is_empty (add_reason (named_by refs) reasons) ≡ (is_empty refs && is_empty reasons)
named_by-is_empty [] reasons = refl
named_by-is_empty (r ∷ refs) reasons = refl

references-listed :
    (profile : String) (configs : Option (List NodeConfig)) (reasons : List Reason)
    → is_empty (add_reason (validate_power_node_config_references configs profile false) reasons)
      ≡ (listed (all (is_unrelated profile)) configs && is_empty reasons)
unfolding validate_power_node_config_references
references-listed profile none reasons = refl
references-listed profile (some cs) reasons =
    named_by-is_empty (config_references profile false cs) reasons
    ∙ ap (λ b. b && is_empty reasons) (config_references-all profile cs)

pods-listed :
    (pods : Option (List Pod))
    → is_empty (add_reason (validate_pod_references pods) []) ≡ listed is_empty pods
unfolding validate_pod_references pod_references
pods-listed none = refl
pods-listed (some []) = refl
pods-listed (some (p ∷ ps)) = refl

-- A deletion of a PowerProfile is admitted where, and only where, both lists are answered, no listed
-- config names the profile as its shared one or in a reserved entry, and no pod is indexed under it.
pub validate_delete_lem :
    (configs : Option (List NodeConfig)) (pods : Option (List Pod)) (profile : String)
    → is_empty (validate_delete configs pods profile)
      ≡ (listed (all (is_unrelated profile)) configs && listed is_empty pods)
unfolding validate_delete
validate_delete_lem configs pods profile =
    references-listed profile configs (add_reason (validate_pod_references pods) [])
    ∙ ap (λ b. listed (all (is_unrelated profile)) configs && b) (pods-listed pods)

-- A change of a PowerProfile is admitted where, and only where, it does not take `spec.shared` from
-- true to false, or the configs are answered and none of them has the profile as its shared one.
pub validate_update_lem :
    (configs : Option (List NodeConfig)) (old_shared new_shared : Bool) (profile : String)
    → is_empty (validate_update configs old_shared new_shared profile)
      ≡ (not (old_shared && not new_shared) || listed (all (is_unshared profile)) configs)
unfolding validate_update validate_power_node_config_references
validate_update_lem configs false new_shared profile = refl
validate_update_lem configs true true profile = refl
validate_update_lem none true false profile = refl
validate_update_lem (some cs) true false profile =
    named_by-is_empty (config_references profile true cs) []
    ∙ ap (λ b. b && true) (config_references-shared profile cs)
    ∙ ground arith
