-- ===== src/Api/Tests.antt =====
-- Runs of the check of reserved CPUs and of the admission of PowerProfiles.
use cluster_power_manager.Base.{
  ◌-◌, ◌≡◌, refl, ◌==◌, ◌&&◌, ◌||◌, not, true, false, Bool, Option, List, [], ◌∷◌, some, count,
  count_if,
}
use cluster_power_manager.Api.Reserved.{
  ReservedSpec, check_cores, check_specs, validate_reserved_cpu_disjoint, all_cores,
  validate_reserved_cpu_disjoint_lem,
}
use cluster_power_manager.Api.Profiles.{
  by_configs, reserved as in_reserved, reserved_reference, config_references,
  validate_power_node_config_references, validate_pod_references, pod_references, validate_delete,
  validate_update, all, is_empty, is_unrelated, is_unshared, listed, validate_delete_lem,
  validate_update_lem,
}
use cluster_power_manager.Api.Conflicts.{
  same_nodes, conflicting, Labels, identical_peers, other_peers, matching_nodes, check_peers,
  check_nodes, find_node_selector_conflicts, is_separate, find_node_selector_conflicts_lem,
}
use cluster_power_manager.Agent.Cluster.{LabelSelector, NodeConfig, Pod}

-- Core 2 stands in both entries.
abbrev reserved : List ReservedSpec
reserved =
    (record { cores = 0 ∷ 2 ∷ []; power_profile = "balanced" })
    ∷ (record { cores = 2 ∷ 3 ∷ []; power_profile = "performance" })
    ∷ []

reported :
    validate_reserved_cpu_disjoint reserved ≡ record { index = 1; core = 2; earlier = 0 } ∷ []
unfolding validate_reserved_cpu_disjoint check_specs check_cores
reported = refl

validate_reserved_cpu_disjoint_lem_example :
    count_if (λ e. e.core == 2) (validate_reserved_cpu_disjoint reserved)
    ≡ count 2 (all_cores reserved) - 1
validate_reserved_cpu_disjoint_lem_example = validate_reserved_cpu_disjoint_lem reserved 2

abbrev configs : List NodeConfig
configs =
    (record {
      name = "a";
      created = 1;
      node_selector = record { match_labels = []; match_expressions = [] };
      shared_power_profile = "shared";
      reserved_cpus = reserved;
    })
    ∷ []

abbrev no_pods : List Pod
no_pods = []

-- The second entry has the profile.
referenced :
    validate_delete (some configs) (some no_pods) "performance"
    ≡ by_configs (in_reserved "a" 1 ∷ []) ∷ []
unfolding validate_delete validate_power_node_config_references validate_pod_references
    pod_references config_references reserved_reference
referenced = refl

validate_delete_lem_example :
    is_empty (validate_delete (some configs) (some no_pods) "performance")
    ≡ (listed (all (is_unrelated "performance")) (some configs) && listed is_empty (some no_pods))
validate_delete_lem_example = validate_delete_lem (some configs) (some no_pods) "performance"

validate_update_lem_example :
    is_empty (validate_update (some configs) true false "performance")
    ≡ (not (true && not false) || listed (all (is_unshared "performance")) (some configs))
validate_update_lem_example = validate_update_lem (some configs) true false "performance"

abbrev anything : LabelSelector
anything = record { match_labels = []; match_expressions = [] }

abbrev labelled : LabelSelector
labelled = record { match_labels = ("role", "worker") ∷ []; match_expressions = [] }

-- A selector that is valid and matches every node.
abbrev selects_all : LabelSelector → Option (Labels → Bool)
selects_all s = some λ labels. true

abbrev same_labels : LabelSelector → LabelSelector → Bool
same_labels a b = is_empty a.match_labels && is_empty b.match_labels

-- Both match the node.
overlapping :
    find_node_selector_conflicts selects_all same_labels
      (λ m. some (("n", []) ∷ []))
      anything
      (("b", labelled) ∷ [])
    ≡ conflicting (same_nodes "b" ("n" ∷ []) ∷ []) ∷ []
unfolding find_node_selector_conflicts identical_peers other_peers check_nodes check_peers
    matching_nodes
overlapping = refl

find_node_selector_conflicts_lem_example :
    is_empty (
      find_node_selector_conflicts selects_all same_labels
        (λ m. some (("n", []) ∷ []))
        anything
        (("b", labelled) ∷ []))
    ≡ is_separate selects_all same_labels
        (λ m. some (("n", []) ∷ []))
        anything
        (("b", labelled) ∷ [])
find_node_selector_conflicts_lem_example =
    find_node_selector_conflicts_lem selects_all same_labels (λ m. some (("n", []) ∷ [])) anything
      (("b", labelled) ∷ [])
