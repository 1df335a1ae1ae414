-- ===== src/Agent/Profiles.antt =====
-- Profiles and nodes (controllers/common.go): whether a node is selected, and whether a profile is there
-- for its pods.
use cluster_power_manager.Base.{
  Bool, true, false, ◌&&◌, List, [], ◌∷◌, Option, none, some, String, str_eq, if◌then◌else◌,
}
use cluster_power_manager.Power.Sysfs.{
  api_failed, bad_selector, Result, ok, err, Action, pure, lift, ◌>>=◌,
}
use cluster_power_manager.Power.Host.{Pool}
use cluster_power_manager.Power.Pool.{get_exclusive_pool}
use cluster_power_manager.Agent.Cluster.{
  Answer, found, not_found, failed, LabelSelector, PowerProfile, Server,
}
use cluster_power_manager.Agent.Machine.{Setup, Agent, ask, get}

abbrev pub is_empty {ℓ} : {A : Type ℓ} → List A → Bool
is_empty [] = true
is_empty (x ∷ xs) = false

abbrev pub selects_all : LabelSelector → Bool
selects_all ls = is_empty ls.match_labels && is_empty ls.match_expressions

abbrev pub matched : List (String × String) → Option (List (String × String) → Bool) → Result Bool
matched labels none = err bad_selector
matched labels (some selector) = ok (selector labels)

unfoldable pub node_matches_selector : Server → List (String × String) → LabelSelector → Result Bool
node_matches_selector server labels ls =
    if selects_all ls then ok true else matched labels (server.selects ls)

abbrev pub with_labels : Server → LabelSelector → Answer (List (String × String)) → Result Bool
with_labels server ls (found labels) = node_matches_selector server labels ls
with_labels server ls not_found = err api_failed
with_labels server ls failed = err api_failed

unfoldable pub node_matches_power_profile : Setup → PowerProfile → String → Action Agent Bool
node_matches_power_profile e profile node_name =
    let read = ask (λ n. e.server.get_node_labels n node_name) >>= λ labels.
    lift (with_labels e.server profile.node_selector labels) in
    if selects_all profile.node_selector then pure true else read

abbrev pub on_pool : Setup → PowerProfile → String → Option Pool → Action Agent Bool
on_pool e profile node_name none = pure false
on_pool e profile node_name (some pool) = node_matches_power_profile e profile node_name

abbrev pub on_profile : Setup → String → String → Answer PowerProfile → Action Agent Bool
on_profile e name node_name not_found = pure false
on_profile e name node_name failed = lift (err api_failed)
on_profile e name node_name (found profile) =
    get (λ s. get_exclusive_pool s.host name) >>= on_pool e profile node_name

-- The agent's power library is never nil.
unfoldable pub validate_profile_availability_on_node : Setup → String → String → Action Agent Bool
validate_profile_availability_on_node e name node_name =
    let read = ask (λ n. e.server.get_profile n name) >>= on_profile e name node_name in
    if str_eq name "" then pure true else read
