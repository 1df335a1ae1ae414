-- ===== src/Agent/Selection.antt =====
-- Which of the resources for a node is applied (filterByNodeSelector and selectActiveOrOldest of
-- controllers/common.go), for PowerNodeConfigs.
pub mod Chosen
use cluster_power_manager.Base.{
  ℕ, ◌≡◌, ◌≤◌, refl, Bool, true, false, not, ◌==◌, ltb, List, [], ◌∷◌, Option, none, some, String,
  str_eq, arith, if◌then◌else◌, All, Bool-cases, inl, inr, ◌⊎◌,
}
use Prim.Native.String.{compare}
use Prim.Native.Nat.{Ordering}
use cluster_power_manager.Power.Sysfs.{Error, Result, ok, err, panic, deadlock}
use cluster_power_manager.Agent.Cluster.{NodeConfig, Server}
use cluster_power_manager.Agent.Profiles.{node_matches_selector}

abbrev pub keep_match : NodeConfig → Result Bool → List NodeConfig → List NodeConfig
keep_match c (ok true) cs = c ∷ cs
keep_match c _ cs = cs

unfoldable pub filter_by_node_selector :
    Server → List (String × String) → List NodeConfig → List NodeConfig
filter_by_node_selector server labels [] = []
filter_by_node_selector server labels (c ∷ cs) =
    keep_match c (node_matches_selector server labels c.node_selector)
      (filter_by_node_selector server labels cs)

abbrev pub before_name : String → String → Bool
before_name a b = elim (compare a b) [ Ordering.lt ↦ true | _ ↦ false ]

-- The order of `sort.Slice`.
abbrev pub is_older : NodeConfig → NodeConfig → Bool
is_older a b = if a.created == b.created then before_name a.name b.name else ltb a.created b.created

unfoldable pub insert_config : NodeConfig → List NodeConfig → List NodeConfig
insert_config c [] = c ∷ []
insert_config c (d ∷ ds) = if is_older d c then d ∷ insert_config c ds else c ∷ d ∷ ds

-- No two configs of a namespace have one name, so the sorted list does not depend on the algorithm.
unfoldable pub sort_configs : List NodeConfig → List NodeConfig
sort_configs [] = []
sort_configs (c ∷ cs) = insert_config c (sort_configs cs)

unfoldable pub find_active : String → List NodeConfig → Option NodeConfig
find_active name [] = none
find_active name (c ∷ cs) = if str_eq c.name name then some c else find_active name cs

abbrev pub first : List NodeConfig → Option NodeConfig
first [] = none
first (c ∷ cs) = some c

-- The selected config, and the matches as the caller finds them afterwards.
abbrev pub or_oldest : Option NodeConfig → List NodeConfig → Option NodeConfig × List NodeConfig
or_oldest (some c) matches = (some c, matches)
or_oldest none matches = (first (sort_configs matches), sort_configs matches)

unfoldable pub select_active_or_oldest :
    List NodeConfig → String → Option NodeConfig × List NodeConfig
select_active_or_oldest matches active =
    or_oldest (if str_eq active "" then none else find_active active matches) matches
