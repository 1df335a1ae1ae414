-- ===== src/Agent/NodeConfigs/Applied.antt =====
-- The whole reconciliation of the PowerNodeConfigs (controllers/powernodeconfig_controller.go).
use cluster_power_manager.Base.{
  ℕ, ◌≡◌, ◌≢◌, refl, Bool, true, false, List, [], ◌∷◌, ◌++◌, Option, none, some, String, str_eq,
  if◌then◌else◌, inl, inr, ◌⊎◌,
}
use cluster_power_manager.Power.Sysfs.{
  Error, not_shared_profile, repeated_core, no_node_name, recoverable, err, Action, pure, lift,
  ◌>>=◌, ◌>>◌,
}
use cluster_power_manager.Power.Host.{Pool, shared}
use cluster_power_manager.Power.Cpu.Moves.{returns}
use cluster_power_manager.Power.Pool.{get_exclusive_pool}
use cluster_power_manager.Power.Pool.Invariant.{IsWellFormed}
use cluster_power_manager.State.Deletion.{HasUniquePods}
use cluster_power_manager.Agent.Cluster.{
  Answer, found, not_found, failed, PowerProfile, PowerProfileCpus, NodeConfig, CpuPoolsStatus,
}
use cluster_power_manager.Agent.Machine.{Setup, Agent, pools_entry, attempt, ask}
use cluster_power_manager.Agent.Profiles.{
  is_empty, selects_all, with_labels, node_matches_power_profile, on_pool, on_profile,
  validate_profile_availability_on_node,
}
use cluster_power_manager.Agent.Selection.{select_active_or_oldest, filter_by_node_selector}
use cluster_power_manager.Agent.PowerPod.{Outcome, finished, requeued, patched}
use cluster_power_manager.Agent.PowerContainers.Reading.{with_labels-returns}
use cluster_power_manager.Agent.After.{IsGood}
use cluster_power_manager.Agent.Sound.{
  IsSound, then-IsSound, attempt-IsSound, ask-IsSound, if-IsSound,
}
use cluster_power_manager.Agent.NodeConfigs.{
  reserved_disjoint, reserved_profiles, must_be_available, check_available, on_shared_profile,
  validate_power_node_config_profiles, configure_shared_pool, configure_reserved_pools,
  update_power_node_status_pools, on_configured, on_valid, apply_power_node_config,
  cleanup_power_node_config_pools, conflict_of, describe_conflicts, on_selected, active_name,
  on_state, on_labels, on_configs, get_matching_power_node_configs, reconcile_node_config,
}
use cluster_power_manager.Agent.NodeConfigs.Reconciled.{
  configure_shared_pool-IsSound, configure_reserved_pools-IsSound,
}
use cluster_power_manager.Agent.NodeConfigs.Cleaned.{cleanup-IsSound}

module _ (e : Setup) where
  node_matches-IsSound :
      (profile : PowerProfile) (node : String) (s : Agent)
      → IsGood s
      → IsSound (node_matches_power_profile e profile node s)
  unfolding node_matches_power_profile
  node_matches-IsSound profile node s g =
      let ls = profile.node_selector in
      let k : Answer (List (String × String)) → Action Agent Bool =
        λ labels. lift (with_labels e.server ls labels) in
      if-IsSound (selects_all ls) (pure true) (ask (λ n. e.server.get_node_labels n node) >>= k) s
        (g, refl)
        (ask-IsSound (λ n. e.server.get_node_labels n node) k s g
          (λ labels t h. (h, with_labels-returns e.server ls labels)))

  available-IsSound :
      (name : String) (s : Agent)
      → IsGood s
      → IsSound (validate_profile_availability_on_node e name e.node_name s)
  unfolding validate_profile_availability_on_node
  available-IsSound name s g =
      if-IsSound (str_eq name "") (pure true)
        (ask (λ n. e.server.get_profile n name) >>= on_profile e name e.node_name) s (g, refl)
        (ask-IsSound (λ n. e.server.get_profile n name) (on_profile e name e.node_name) s g
          answered)
    where
      pooled :
          (p : PowerProfile) (q : Option Pool) (t : Agent)
          → IsGood t
          → IsSound (on_pool e p e.node_name q t)
      pooled p none t h = (h, refl)
      pooled p (some q) t h = node_matches-IsSound p e.node_name t h

      answered :
          (a : Answer PowerProfile) (t : Agent)
          → IsGood t
          → IsSound (on_profile e name e.node_name a t)
      answered not_found t h = (h, refl)
      answered failed t h = (h, refl)
      answered (found p) t h = pooled p (get_exclusive_pool t.host name) t h

  check_available-IsSound :
      (names : List String) (s : Agent) → IsGood s → IsSound (check_available e names s)
  unfolding check_available
  check_available-IsSound [] s g = (g, refl)
  check_available-IsSound (name ∷ names) s g =
      then-IsSound (validate_profile_availability_on_node e name e.node_name)
        (λ b. must_be_available b >> check_available e names) s (available-IsSound name s g)
        (λ b t h.
          then-IsSound (must_be_available b) (λ u. check_available e names) t (must b t h)
            (λ u v k. check_available-IsSound names v k))
    where
      must : (b : Bool) (t : Agent) → IsGood t → IsSound (must_be_available b t)
      must true t h = (h, refl)
      must false t h = (h, refl)

  validate-IsSound :
      (config : NodeConfig) (s : Agent)
      → IsGood s
      → IsSound (validate_power_node_config_profiles e config s)
  unfolding validate_power_node_config_profiles
  validate-IsSound config s g =
      ask-IsSound (λ n. e.server.get_profile n config.shared_power_profile)
        (on_shared_profile e config) s g go
    where
      names : List String
      names = config.shared_power_profile ∷ reserved_profiles config.reserved_cpus

      go :
          (a : Answer PowerProfile) (t : Agent)
          → IsGood t
          → IsSound (on_shared_profile e config a t)
      go not_found t h = (h, refl)
      go failed t h = (h, refl)
      go (found p) t h =
          if-IsSound p.shared
            (if reserved_disjoint config.reserved_cpus
              then check_available e names
              else lift (err repeated_core))
            (lift (err not_shared_profile)) t
            (if-IsSound (reserved_disjoint config.reserved_cpus) (check_available e names)
              (lift (err repeated_core)) t (check_available-IsSound names t h) (h, refl))
            (h, refl)

  update-IsSound :
      (config : NodeConfig) (cores : List ℕ) (statuses : List PowerProfileCpus)
      (errors : List Error) (s : Agent)
      → IsGood s
      → IsSound (update_power_node_status_pools e config cores statuses errors s)
  unfolding update_power_node_status_pools
  update-IsSound config cores statuses errors s g =
      ask-IsSound e.server.patch_status
        (λ a. patched a (pools_entry config.name config.shared_power_profile cores statuses errors))
        s g go
    where
      go :
          (a : Answer (Unit {0})) (t : Agent)
          → IsGood t
          → IsSound (
              patched a
                (pools_entry config.name config.shared_power_profile cores statuses errors)
                t)
      go (found u) t h = (h, refl)
      go not_found t h = (h, refl)
      go failed t h = (h, refl)

  conflicts-IsSound :
      (selected : NodeConfig) (cs : List NodeConfig) (s : Agent)
      → IsGood s
      → IsSound (describe_conflicts e selected cs s)
  unfolding describe_conflicts
  conflicts-IsSound selected [] s g = (g, refl)
  conflicts-IsSound selected (c ∷ cs) s g =
      let others = describe_conflicts e selected cs in
      let k : Answer PowerProfile → Action Agent (List Error) =
        λ profile. others >>= λ rest. pure (conflict_of profile ∷ rest) in
      if-IsSound (str_eq c.name selected.name) others
        (ask (λ n. e.server.get_profile n c.shared_power_profile) >>= k) s
        (conflicts-IsSound selected cs s g)
        (ask-IsSound (λ n. e.server.get_profile n c.shared_power_profile) k s g
          (λ profile t h.
            then-IsSound others (λ rest. pure (conflict_of profile ∷ rest)) t
              (conflicts-IsSound selected cs t h) (λ rest u i. (i, refl))))

  matching-IsSound : (s : Agent) → IsGood s → IsSound (get_matching_power_node_configs e s)
  unfolding get_matching_power_node_configs
  matching-IsSound s g =
      let keep : List (String × String) → List NodeConfig → Action Agent (List NodeConfig) =
        λ labels configs. pure (filter_by_node_selector e.server labels configs) in
      let list : List (String × String) → Action Agent (List NodeConfig) =
        λ labels. ask e.server.list_node_configs >>= on_configs >>= keep labels in
      then-IsSound (ask (λ n. e.server.get_node_labels n e.node_name) >>= on_labels e) list s
        (ask-IsSound (λ n. e.server.get_node_labels n e.node_name) (on_labels e) s g labelled)
        (λ labels t h.
          then-IsSound (ask e.server.list_node_configs >>= on_configs) (keep labels) t
            (ask-IsSound e.server.list_node_configs on_configs t h listed)
            (λ configs u k. (k, refl)))
    where
      labelled :
          (a : Answer (List (String × String))) (t : Agent) → IsGood t → IsSound (on_labels e a t)
      labelled (found labels) t h = (h, refl)
      labelled not_found t h = (h, refl)
      labelled failed t h = (h, refl)

      listed : (o : Option (List NodeConfig)) (t : Agent) → IsGood t → IsSound (on_configs o t)
      listed none t h = (h, refl)
      listed (some configs) t h = (h, refl)

module _ (e : Setup) (known : e.platform.freq.core_types ≢ []) where
  on_configured-IsSound :
      (config : NodeConfig) (conflicts : List Error) (x : List PowerProfileCpus × List Error)
      (s : Agent)
      → IsGood s
      → IsSound (on_configured e config conflicts x s)
  on_configured-IsSound config conflicts (statuses, errors) s g =
      then-IsSound
        (update_power_node_status_pools e config (s.host.cpus shared) statuses
          (conflicts ++ errors))
        (λ u. if is_empty errors then pure finished else lift (err recoverable)) s
        (update-IsSound e config (s.host.cpus shared) statuses (conflicts ++ errors) s g)
        (λ u t h.
          if-IsSound (is_empty errors) (pure finished) (lift (err recoverable)) t (h, refl)
            (h, refl))

  apply-IsSound :
      (config : NodeConfig) (conflicts : List Error) (s : Agent)
      → IsGood s
      → IsSound (apply_power_node_config e config conflicts s)
  unfolding apply_power_node_config
  apply-IsSound config conflicts s g =
      then-IsSound (attempt (validate_power_node_config_profiles e config))
        (on_valid e config conflicts) s
        (attempt-IsSound (validate_power_node_config_profiles e config) s
          (validate-IsSound e config s g))
        go
    where
      go :
          (v : (Unit {0}) ⊎ Error) (t : Agent)
          → IsGood t
          → IsSound (on_valid e config conflicts v t)
      go (inr x) t h =
          let update = update_power_node_status_pools e config [] [] (x ∷ []) in
          then-IsSound (attempt update) (λ u. pure requeued) t
            (attempt-IsSound update t (update-IsSound e config [] [] (x ∷ []) t h))
            (λ u v k. (k, refl))
      go (inl u) t h =
          then-IsSound (configure_shared_pool e config)
            (λ v. configure_reserved_pools e config >>= on_configured e config conflicts) t
            (configure_shared_pool-IsSound e known config t h)
            (λ v u k.
              then-IsSound (configure_reserved_pools e config) (on_configured e config conflicts) u
                (configure_reserved_pools-IsSound e known config u k)
                (on_configured-IsSound config conflicts))

  on_selected-IsSound :
      (active : String) (x : Option NodeConfig × List NodeConfig) (s : Agent)
      → IsGood s
      → IsSound (on_selected e active x s)
  on_selected-IsSound active (none, matches) s g =
      if-IsSound (str_eq active "") (pure finished)
        (cleanup_power_node_config_pools e >> pure finished) s (g, refl)
        (then-IsSound (cleanup_power_node_config_pools e) (λ u. pure finished) s
          (cleanup-IsSound e known s g) (λ u t h. (h, refl)))
  on_selected-IsSound active (some c, matches) s g =
      then-IsSound (describe_conflicts e c matches) (apply_power_node_config e c) s
        (conflicts-IsSound e c matches s g) (λ errors t h. apply-IsSound c errors t h)

  on_state-IsSound :
      (matches : List NodeConfig) (a : Answer (Option CpuPoolsStatus)) (s : Agent)
      → IsGood s
      → IsSound (on_state e matches a s)
  on_state-IsSound matches not_found s g = (g, refl)
  on_state-IsSound matches failed s g = (g, refl)
  on_state-IsSound matches (found status) s g =
      on_selected-IsSound (active_name status)
        (select_active_or_oldest matches (active_name status)) s g

  reconcile-IsSound : (s : Agent) → IsGood s → IsSound (reconcile_node_config e s)
  unfolding reconcile_node_config
  reconcile-IsSound s g =
      let go_on : List NodeConfig → Action Agent Outcome =
        λ matches. ask (λ n. e.server.get_node_state n e.node_name) >>= on_state e matches in
      if-IsSound (str_eq e.node_name "") (lift (err no_node_name))
        (get_matching_power_node_configs e >>= go_on) s (g, refl)
        (then-IsSound (get_matching_power_node_configs e) go_on s (matching-IsSound e s g)
          (λ matches t h.
            ask-IsSound (λ n. e.server.get_node_state n e.node_name) (on_state e matches) t h
              (on_state-IsSound matches)))

-- With the core types known, whatever the server answers and whichever writes fail: a reconciliation
-- of the PowerNodeConfigs that starts with well-formed pools, a free mutex and remembered pods under
-- names of their own comes back, with an outcome or an error, and leaves the pools well formed, the
-- mutex free and the remembered pods so, whatever pools it has made and removed.
pub reconcile_node_config-IsSound :
    (e : Setup) (s : Agent)
    → e.platform.freq.core_types ≢ []
    → IsWellFormed s.host
    → s.host.locked ≡ false
    → HasUniquePods s.pods
    → let r = reconcile_node_config e s in
      (IsWellFormed r.1.host × (r.1.host.locked ≡ false) × HasUniquePods r.1.pods)
      × (returns r.0 ≡ true)
reconcile_node_config-IsSound e s known w free u = reconcile-IsSound e known s (w, free, u)
