-- ===== src/Agent/NodeConfigs.antt =====
-- The reconciler of PowerNodeConfigs (controllers/powernodeconfig_controller.go).
pub mod Reconciled
pub mod Cleaned
pub mod Applied
use cluster_power_manager.Base.{
  ℕ, ◌+◌, Bool, true, false, not, ◌&&◌, ◌||◌, List, [], ◌∷◌, ◌++◌, Option, none, some, String,
  str_eq, str_append, starts_with, if◌then◌else◌, inl, inr, ◌⊎◌, contains,
}
use cluster_power_manager.Power.Sysfs.{
  Error, api_failed, object_missing, not_available, pool_missing, profile_missing,
  not_shared_profile, repeated_core, no_node_name, conflicting, recoverable, Result, ok, err, panic,
  deadlock, Action, pure, lift, ◌>>=◌, ◌>>◌,
}
use cluster_power_manager.Power.Host.{Pool, reserved, shared, exclusive, Profile, Host}
use cluster_power_manager.Power.Pool.{
  get_exclusive_pool, move_cpu_ids, move_cpus_call, set_cpu_ids, set_power_profile, remove_call,
  add_exclusive_pool,
}
use cluster_power_manager.Api.Reserved.{ReservedSpec}
use cluster_power_manager.Agent.Cluster.{
  Answer, found, not_found, failed, PowerProfile, PowerProfileCpus, NodeConfig, CpuPoolsStatus,
}
use cluster_power_manager.Agent.Machine.{
  Setup, Agent, StatusPatch, pools_entry, no_pools_entry, on_host, attempt, ask, get, modify,
}
use cluster_power_manager.Agent.Profiles.{is_empty, validate_profile_availability_on_node}
use cluster_power_manager.Agent.Selection.{filter_by_node_selector, select_active_or_oldest}
use cluster_power_manager.Agent.PowerPod.{Outcome, finished, requeued, patched, removed}

-- `seenCores` over all the entries: `none` where a core appears for the second time.
abbrev pub see_cores : List ℕ → List ℕ → Option (List ℕ)
see_cores seen [] = some seen
see_cores seen (c ∷ cs) =
    let rest = see_cores (c ∷ seen) cs in if contains c seen then none else rest

abbrev pub see_specs : Option (List ℕ) → List ReservedSpec → Bool
see_specs none specs = false
see_specs (some seen) [] = true
see_specs (some seen) (s ∷ ss) = see_specs (see_cores seen s.cores) ss

unfoldable pub reserved_disjoint : List ReservedSpec → Bool
reserved_disjoint specs = see_specs (some []) specs

abbrev pub reserved_profiles : List ReservedSpec → List String
reserved_profiles [] = []
reserved_profiles (s ∷ ss) =
    if str_eq s.power_profile ""
    then reserved_profiles ss
    else s.power_profile ∷ reserved_profiles ss

abbrev pub must_be_available : Bool → Action Agent (Unit {0})
must_be_available true = pure tt
must_be_available false = lift (err not_available)

unfoldable pub check_available : Setup → List String → Action Agent (Unit {0})
check_available e [] = pure tt
check_available e (name ∷ names) = do
  available ← validate_profile_availability_on_node e name e.node_name
  must_be_available available
  check_available e names

abbrev pub on_shared_profile : Setup → NodeConfig → Answer PowerProfile → Action Agent (Unit {0})
on_shared_profile e config not_found = lift (err profile_missing)
on_shared_profile e config failed = lift (err api_failed)
on_shared_profile e config (found profile) =
    let check =
      check_available e (config.shared_power_profile ∷ reserved_profiles config.reserved_cpus) in
    if profile.shared
    then (if reserved_disjoint config.reserved_cpus then check else lift (err repeated_core))
    else lift (err not_shared_profile)

unfoldable pub validate_power_node_config_profiles : Setup → NodeConfig → Action Agent (Unit {0})
validate_power_node_config_profiles e config =
    ask (λ n. e.server.get_profile n config.shared_power_profile) >>= on_shared_profile e config

-- `SetPowerProfile` of the shared pool, and then the reserved CPUs go to the shared pool.
abbrev pub share_all : Setup → Option Profile → Action Agent (Unit {0})
share_all e none = lift (err profile_missing)
share_all e (some profile) =
    on_host (set_power_profile e.platform shared (some profile))
    >> on_host (set_cpu_ids e.platform reserved [])

abbrev pub on_shared_pool : Setup → Option Pool → Action Agent (Unit {0})
on_shared_pool e none = lift (err pool_missing)
on_shared_pool e (some pool) = get (λ s. s.host.power_profile pool) >>= share_all e

unfoldable pub configure_shared_pool : Setup → NodeConfig → Action Agent (Unit {0})
configure_shared_pool e config =
    get (λ s. get_exclusive_pool s.host config.shared_power_profile) >>= on_shared_pool e

abbrev pub reserved_prefix : String → String
reserved_prefix node = str_append node "-reserved-"

-- The loop over the exclusive pools that were there before it. (A removal writes the last pool of the
-- host's list over the removed one, at or before the position that the loop has come to.)
abbrev pub remove_if : Setup → Pool → Bool → Action Agent (Unit {0})
remove_if e p true = on_host (remove_call e.platform p)
remove_if e p false = pure tt

abbrev pub is_reserved_name : Setup → Host → Pool → Bool
is_reserved_name e h p = starts_with (h.pool_name p) (reserved_prefix e.node_name)

unfoldable pub remove_reserved_pools : Setup → List Pool → Action Agent (Unit {0})
remove_reserved_pools e [] = pure tt
remove_reserved_pools e (p ∷ ps) = get (λ s. is_reserved_name e s.host p) >>= λ named.
    remove_if e p named >>= λ u. remove_reserved_pools e ps

-- After the pool was made. (Its removal after a failure drops the removal's error.)
abbrev pub undo : Setup → Pool → Error → Action Agent (Unit {0})
undo e pool x = attempt (on_host (remove_call e.platform pool)) >> lift (err x)

abbrev pub after_cores : Setup → Pool → (Unit {0}) ⊎ Error → Action Agent (Unit {0})
after_cores e pool (inl u) = pure tt
after_cores e pool (inr x) = undo e pool x

abbrev pub after_profile :
    Setup → ReservedSpec → Pool → (Unit {0}) ⊎ Error → Action Agent (Unit {0})
after_profile e rc pool (inr x) = undo e pool x
after_profile e rc pool (inl u) =
    attempt (on_host (set_cpu_ids e.platform pool rc.cores)) >>= after_cores e pool

abbrev pub on_core_pool : Setup → ReservedSpec → Pool → Option Pool → Action Agent (Unit {0})
on_core_pool e rc pool none = undo e pool pool_missing
on_core_pool e rc pool (some core_pool) = get (λ s. s.host.power_profile core_pool) >>= λ profile.
    attempt (on_host (set_power_profile e.platform pool profile)) >>= after_profile e rc pool

abbrev pub on_new_pool : Setup → ReservedSpec → Pool × Option Error → Action Agent (Unit {0})
on_new_pool e rc (pool, some x) = lift (err x)
on_new_pool e rc (pool, none) =
    get (λ s. get_exclusive_pool s.host rc.power_profile) >>= on_core_pool e rc pool

-- The pool's name is the prefix and the cores, printed by `fmt`.
unfoldable pub create_reserved_pool : Setup → ReservedSpec → Action Agent (Unit {0})
create_reserved_pool e rc =
    on_host (add_exclusive_pool (str_append (reserved_prefix e.node_name) (e.show_cores rc.cores)))
    >>= on_new_pool e rc

abbrev pub status_of : ReservedSpec → List Error → PowerProfileCpus
status_of rc errors = record {
  power_profile = rc.power_profile;
  cpu_ids = rc.cores;
  errors = errors;
}

-- One group: what it adds to the status and to the errors; `inr` ends the loop with this one error.
abbrev pub to_reserved :
    Setup → ReservedSpec → List Error → Action Agent ((PowerProfileCpus × List Error) ⊎ Error)
to_reserved e rc errors = attempt (on_host (move_cpu_ids e.platform reserved rc.cores)) >>= λ moved.
    pure (elim moved [ inl u ↦ inl (status_of rc errors, errors) | inr x ↦ inr x ])

abbrev pub on_created :
    Setup
    → ReservedSpec
    → (Unit {0}) ⊎ Error
    → Action Agent ((PowerProfileCpus × List Error) ⊎ Error)
on_created e rc (inl u) = pure (inl (status_of rc [], []))
on_created e rc (inr x) = to_reserved e rc (x ∷ [])

abbrev pub on_moved :
    Setup
    → ReservedSpec
    → (Unit {0}) ⊎ Error
    → Action Agent ((PowerProfileCpus × List Error) ⊎ Error)
on_moved e rc (inr x) = pure (inr x)
on_moved e rc (inl u) =
    let create = attempt (create_reserved_pool e rc) >>= on_created e rc in
    if str_eq rc.power_profile "" then to_reserved e rc [] else create

unfoldable pub configure_group :
    Setup → ReservedSpec → Action Agent ((PowerProfileCpus × List Error) ⊎ Error)
configure_group e rc = attempt (on_host (move_cpu_ids e.platform shared rc.cores)) >>= on_moved e rc

-- The statuses and errors so far are kept, except that an error that ends the loop replaces the errors.
abbrev pub on_group :
    (List PowerProfileCpus × List Error → Action Agent (List PowerProfileCpus × List Error))
    → List PowerProfileCpus × List Error
    → (PowerProfileCpus × List Error) ⊎ Error
    → Action Agent (List PowerProfileCpus × List Error)
on_group rest (statuses, errors) (inr x) = pure (statuses, x ∷ [])
on_group rest (statuses, errors) (inl (status, more)) =
    rest (statuses ++ status ∷ [], errors ++ more)

unfoldable pub configure_groups :
    Setup
    → List ReservedSpec
    → List PowerProfileCpus × List Error
    → Action Agent (List PowerProfileCpus × List Error)
configure_groups e [] done = pure done
configure_groups e (rc ∷ rcs) done = configure_group e rc >>= on_group (configure_groups e rcs) done

abbrev pub after_removal :
    Setup → NodeConfig → (Unit {0}) ⊎ Error → Action Agent (List PowerProfileCpus × List Error)
after_removal e config (inr x) = pure ([], x ∷ [])
after_removal e config (inl u) = configure_groups e config.reserved_cpus ([], [])

unfoldable pub configure_reserved_pools :
    Setup → NodeConfig → Action Agent (List PowerProfileCpus × List Error)
configure_reserved_pools e config = get (λ s. s.host.exclusive_pools) >>= λ pools.
    attempt (remove_reserved_pools e pools) >>= after_removal e config

unfoldable pub update_power_node_status_pools :
    Setup → NodeConfig → List ℕ → List PowerProfileCpus → List Error → Action Agent (Unit {0})
update_power_node_status_pools e config cores statuses errors = ask e.server.patch_status >>= λ a.
    patched a (pools_entry config.name config.shared_power_profile cores statuses errors)

abbrev pub on_configured :
    Setup → NodeConfig → List Error → List PowerProfileCpus × List Error → Action Agent Outcome
on_configured e config conflicts (statuses, errors) = do
  cores ← get λ s. s.host.cpus shared
  update_power_node_status_pools e config cores statuses (conflicts ++ errors)
  (if is_empty errors then pure finished else lift (err recoverable))

-- A validation error is written to the status, whatever comes of that, and tried again later.
abbrev pub on_valid : Setup → NodeConfig → List Error → (Unit {0}) ⊎ Error → Action Agent Outcome
on_valid e config conflicts (inr x) =
    attempt (update_power_node_status_pools e config [] [] (x ∷ [])) >> pure requeued
on_valid e config conflicts (inl u) = configure_shared_pool e config >>= λ v.
    configure_reserved_pools e config >>= on_configured e config conflicts

unfoldable pub apply_power_node_config : Setup → NodeConfig → List Error → Action Agent Outcome
apply_power_node_config e config conflicts =
    attempt (validate_power_node_config_profiles e config) >>= on_valid e config conflicts

abbrev pub no_longer : Answer (Unit {0}) → Action Agent (Unit {0})
no_longer not_found = pure tt
no_longer (found u) = patched (found u) no_pools_entry
no_longer failed = patched failed no_pools_entry

unfoldable pub remove_power_node_status_pools : Setup → Action Agent (Unit {0})
remove_power_node_status_pools e = ask e.server.patch_status >>= no_longer

-- The CPUs of the pools with the prefix, in the order in which the loop reads them.
abbrev pub collect_if : Setup → Pool → Bool → Action Agent (List ℕ)
collect_if e p false = pure []
collect_if e p true =
    get (λ s. s.host.cpus p) >>= λ cores. on_host (remove_call e.platform p) >> pure cores

unfoldable pub collect_reserved_pools : Setup → List Pool → Action Agent (List ℕ)
collect_reserved_pools e [] = pure []
collect_reserved_pools e (p ∷ ps) =
    get (λ s. is_reserved_name e s.host p) >>= collect_if e p >>= λ cores.
    collect_reserved_pools e ps >>= λ rest. pure (cores ++ rest)

-- `movedCores` may share the shared pool's array, in which later moves exchange CPUs; a removal from the
-- list writes only at positions that the loop over it has passed, or the same CPUs.
unfoldable pub cleanup_power_node_config_pools : Setup → Action Agent (Unit {0})
cleanup_power_node_config_pools e = do
  cores ← get λ s. s.host.cpus shared
  pools ← get λ s. s.host.exclusive_pools
  more ← collect_reserved_pools e pools
  on_host (move_cpus_call e.platform reserved (cores ++ more))
  remove_power_node_status_pools e

-- Each match that was not selected gives one error to the status.
abbrev pub conflict_of : Answer PowerProfile → Error
conflict_of not_found = profile_missing
conflict_of failed = api_failed
conflict_of (found profile) = if profile.shared then conflicting else not_shared_profile

unfoldable pub describe_conflicts : Setup → NodeConfig → List NodeConfig → Action Agent (List Error)
describe_conflicts e selected [] = pure []
describe_conflicts e selected (c ∷ cs) =
    let others = describe_conflicts e selected cs in
    let describe = ask (λ n. e.server.get_profile n c.shared_power_profile) >>= λ profile.
    others >>= λ rest. pure (conflict_of profile ∷ rest) in
    if str_eq c.name selected.name then others else describe

abbrev pub on_selected : Setup → String → Option NodeConfig × List NodeConfig → Action Agent Outcome
on_selected e active (none, matches) =
    if str_eq active "" then pure finished else (cleanup_power_node_config_pools e >> pure finished)
on_selected e active (some c, matches) =
    describe_conflicts e c matches >>= apply_power_node_config e c

-- `powerNodeConfigActiveName`.
abbrev pub active_name : Option CpuPoolsStatus → String
active_name none = ""
active_name (some status) = elim status.active_config [ none ↦ "" | some name ↦ name ]

abbrev pub on_state :
    Setup → List NodeConfig → Answer (Option CpuPoolsStatus) → Action Agent Outcome
on_state e matches not_found = pure requeued
on_state e matches failed = lift (err api_failed)
on_state e matches (found status) =
    on_selected e (active_name status) (select_active_or_oldest matches (active_name status))

abbrev pub on_labels :
    Setup → Answer (List (String × String)) → Action Agent (List (String × String))
on_labels e (found labels) = pure labels
on_labels e not_found = lift (err api_failed)
on_labels e failed = lift (err api_failed)

abbrev pub on_configs : Option (List NodeConfig) → Action Agent (List NodeConfig)
on_configs none = lift (err api_failed)
on_configs (some configs) = pure configs

unfoldable pub get_matching_power_node_configs : Setup → Action Agent (List NodeConfig)
get_matching_power_node_configs e =
    ask (λ n. e.server.get_node_labels n e.node_name) >>= on_labels e >>= λ labels.
    ask e.server.list_node_configs >>= on_configs >>= λ configs.
    pure (filter_by_node_selector e.server labels configs)

-- `Reconcile`, for a request in the namespace of the program.
unfoldable pub reconcile_node_config : Setup → Action Agent Outcome
reconcile_node_config e =
    let run = get_matching_power_node_configs e >>= λ matches.
    ask (λ n. e.server.get_node_state n e.node_name) >>= on_state e matches in
    if str_eq e.node_name "" then lift (err no_node_name) else run
