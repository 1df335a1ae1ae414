-- ===== src/Agent/NodeConfigs/Reconciled.antt =====
-- A reconciliation of the PowerNodeConfigs leaves the pools well formed and comes back
-- (controllers/powernodeconfig_controller.go).
use cluster_power_manager.Base.{
  ℕ, ◌≡◌, ◌≢◌, refl, Bool, true, false, List, [], ◌∷◌, ◌++◌, Option, none, some, String, str_eq,
  str_append, inl, inr, ◌⊎◌,
}
use cluster_power_manager.Power.Sysfs.{
  Error, pool_missing, Result, ok, err, panic, deadlock, Action, pure, lift, bind_result, ◌>>=◌,
}
use cluster_power_manager.Power.Host.{Pool, reserved, shared, Profile}
use cluster_power_manager.Power.Pool.{
  get_exclusive_pool, move_cpu_ids, set_cpu_ids, set_power_profile, remove_call, add_exclusive_pool,
}
use cluster_power_manager.Power.Pool.Invariant.{IsOnHost, IsOnHost-kept}
use cluster_power_manager.Power.Pool.Calls.{move_ids_to, set_ids, run_call}
use cluster_power_manager.Api.Reserved.{ReservedSpec}
use cluster_power_manager.Agent.Cluster.{PowerProfileCpus, NodeConfig}
use cluster_power_manager.Agent.Machine.{Setup, Agent, on_host, attempt}
use cluster_power_manager.Agent.After.{IsGood}
use cluster_power_manager.Agent.Sound.{
  IsSound, bind-IsSound, then-IsSound, attempt-IsSound, if-IsSound, call-IsSound,
  remove_call-IsSound, set_power_profile-IsSound, set_power_profile-IsWellFormed, added-IsOnHost,
  add-IsSound,
}
use cluster_power_manager.Agent.NodeConfigs.{
  remove_if, is_reserved_name, remove_reserved_pools, undo, after_cores, after_profile,
  on_core_pool, on_new_pool, create_reserved_pool, reserved_prefix, to_reserved, on_created,
  on_moved, configure_group, on_group, configure_groups, after_removal, configure_reserved_pools,
  share_all, on_shared_pool, configure_shared_pool, status_of,
}

module _ (e : Setup) (known : e.platform.freq.core_types ≢ []) where
  move_ids-IsSound :
      (pool : Pool) (ids : List ℕ) (s : Agent)
      → IsGood s
      → IsOnHost s.host pool
      → IsSound (on_host (move_cpu_ids e.platform pool ids) s)
  unfolding run_call
  move_ids-IsSound pool ids s g o = call-IsSound e known (move_ids_to pool ids) s g o

  set_ids-IsSound :
      (pool : Pool) (ids : List ℕ) (s : Agent)
      → IsGood s
      → IsOnHost s.host pool
      → IsSound (on_host (set_cpu_ids e.platform pool ids) s)
  unfolding run_call
  set_ids-IsSound pool ids s g o = call-IsSound e known (set_ids pool ids) s g o

  share_all-IsSound : (p : Option Profile) (s : Agent) → IsGood s → IsSound (share_all e p s)
  share_all-IsSound none s g = (g, refl)
  share_all-IsSound (some profile) s g =
      then-IsSound (on_host (set_power_profile e.platform shared (some profile)))
        (λ u. on_host (set_cpu_ids e.platform reserved [])) s
        (set_power_profile-IsSound e known shared (some profile) s g)
        (λ u t h. set_ids-IsSound reserved [] t h tt)

  pub configure_shared_pool-IsSound :
      (config : NodeConfig) (s : Agent) → IsGood s → IsSound (configure_shared_pool e config s)
  unfolding configure_shared_pool
  configure_shared_pool-IsSound config s g =
      go (get_exclusive_pool s.host config.shared_power_profile)
    where
      go : (o : Option Pool) → IsSound (on_shared_pool e o s)
      go none = (g, refl)
      go (some pool) = share_all-IsSound (s.host.power_profile pool) s g

  remove_if-IsSound :
      (pool : Pool) (named : Bool) (s : Agent) → IsGood s → IsSound (remove_if e pool named s)
  remove_if-IsSound pool true s g = remove_call-IsSound e known pool s g
  remove_if-IsSound pool false s g = (g, refl)

  remove_reserved-IsSound :
      (pools : List Pool) (s : Agent) → IsGood s → IsSound (remove_reserved_pools e pools s)
  unfolding remove_reserved_pools
  remove_reserved-IsSound [] s g = (g, refl)
  remove_reserved-IsSound (p ∷ ps) s g =
      then-IsSound (remove_if e p (is_reserved_name e s.host p)) (λ u. remove_reserved_pools e ps) s
        (remove_if-IsSound p (is_reserved_name e s.host p) s g)
        (λ u t h. remove_reserved-IsSound ps t h)

  undo-IsSound : (pool : Pool) (x : Error) (s : Agent) → IsGood s → IsSound (undo e pool x s)
  undo-IsSound pool x s g =
      then-IsSound (attempt (on_host (remove_call e.platform pool))) (λ u. lift (err x)) s
        (attempt-IsSound (on_host (remove_call e.platform pool)) s
          (remove_call-IsSound e known pool s g))
        (λ u t h. (h, refl))

  after_cores-IsSound :
      (pool : Pool) (r : (Unit {0}) ⊎ Error) (s : Agent)
      → IsGood s
      → IsSound (after_cores e pool r s)
  after_cores-IsSound pool (inl u) s g = (g, refl)
  after_cores-IsSound pool (inr x) s g = undo-IsSound pool x s g

  after_profile-IsSound :
      (rc : ReservedSpec) (pool : Pool) (r : (Unit {0}) ⊎ Error) (s : Agent)
      → IsOnHost s.host pool
      → IsGood s
      → IsSound (after_profile e rc pool r s)
  after_profile-IsSound rc pool (inr x) s o g = undo-IsSound pool x s g
  after_profile-IsSound rc pool (inl u) s o g =
      then-IsSound (attempt (on_host (set_cpu_ids e.platform pool rc.cores))) (after_cores e pool) s
        (attempt-IsSound (on_host (set_cpu_ids e.platform pool rc.cores)) s
          (set_ids-IsSound pool rc.cores s g o))
        (after_cores-IsSound pool)

  on_core_pool-IsSound :
      (rc : ReservedSpec) (pool : Pool) (o : Option Pool) (s : Agent)
      → IsOnHost s.host pool
      → IsGood s
      → IsSound (on_core_pool e rc pool o s)
  on_core_pool-IsSound rc pool none s o g = undo-IsSound pool pool_missing s g
  on_core_pool-IsSound rc pool (some core) s o g =
      let m = on_host (set_power_profile e.platform pool (s.host.power_profile core)) in
      let r = attempt m s in
      bind-IsSound r.0 r.1 (after_profile e rc pool)
        (attempt-IsSound m s
          (set_power_profile-IsSound e known pool (s.host.power_profile core) s g))
        (λ v h.
          after_profile-IsSound rc pool v r.1
            (IsOnHost-kept s.host r.1.host pool
              (set_power_profile-IsWellFormed e known pool (s.host.power_profile core) s.host g.1
                g.0).1
              o)
            h)

  create-IsSound :
      (rc : ReservedSpec) (s : Agent) → IsGood s → IsSound (create_reserved_pool e rc s)
  unfolding create_reserved_pool
  create-IsSound rc s g = go (add_exclusive_pool name s.host).0 refl (add-IsSound e known name s g)
    where
      name : String
      name = str_append (reserved_prefix e.node_name) (e.show_cores rc.cores)

      t : Agent
      t = record s { host = (add_exclusive_pool name s.host).1 }

      go :
          (a : Result (Pool × Option Error))
          → (add_exclusive_pool name s.host).0 ≡ a
          → IsSound (a, t)
          → IsSound (bind_result a t (on_new_pool e rc))
      go (ok (pool, some x)) f h = (h.0, refl)
      go (ok (pool, none)) f h =
          on_core_pool-IsSound rc pool (get_exclusive_pool t.host rc.power_profile) t
            (added-IsOnHost e known name s.host g.1 f) h.0
      go (err x) f h = (h.0, refl)
      go panic f h = absurd (let k = h.1 in cc)
      go deadlock f h = absurd (let k = h.1 in cc)

  to_reserved-IsSound :
      (rc : ReservedSpec) (errors : List Error) (s : Agent)
      → IsGood s
      → IsSound (to_reserved e rc errors s)
  to_reserved-IsSound rc errors s g =
      then-IsSound (attempt (on_host (move_cpu_ids e.platform reserved rc.cores)))
        (λ moved. pure (elim moved [ inl u ↦ inl (status_of rc errors, errors) | inr x ↦ inr x ])) s
        (attempt-IsSound (on_host (move_cpu_ids e.platform reserved rc.cores)) s
          (move_ids-IsSound reserved rc.cores s g tt))
        (λ v t h. (h, refl))

  on_created-IsSound :
      (rc : ReservedSpec) (r : (Unit {0}) ⊎ Error) (s : Agent)
      → IsGood s
      → IsSound (on_created e rc r s)
  on_created-IsSound rc (inl u) s g = (g, refl)
  on_created-IsSound rc (inr x) s g = to_reserved-IsSound rc (x ∷ []) s g

  on_moved-IsSound :
      (rc : ReservedSpec) (r : (Unit {0}) ⊎ Error) (s : Agent)
      → IsGood s
      → IsSound (on_moved e rc r s)
  on_moved-IsSound rc (inr x) s g = (g, refl)
  on_moved-IsSound rc (inl u) s g =
      if-IsSound (str_eq rc.power_profile "") (to_reserved e rc [])
        (attempt (create_reserved_pool e rc) >>= on_created e rc) s (to_reserved-IsSound rc [] s g)
        (then-IsSound (attempt (create_reserved_pool e rc)) (on_created e rc) s
          (attempt-IsSound (create_reserved_pool e rc) s (create-IsSound rc s g))
          (on_created-IsSound rc))

  configure_group-IsSound :
      (rc : ReservedSpec) (s : Agent) → IsGood s → IsSound (configure_group e rc s)
  unfolding configure_group
  configure_group-IsSound rc s g =
      then-IsSound (attempt (on_host (move_cpu_ids e.platform shared rc.cores))) (on_moved e rc) s
        (attempt-IsSound (on_host (move_cpu_ids e.platform shared rc.cores)) s
          (move_ids-IsSound shared rc.cores s g tt))
        (on_moved-IsSound rc)

  on_group-IsSound :
      (rest : List PowerProfileCpus × List Error
        → Action Agent (List PowerProfileCpus × List Error))
      → ((done : List PowerProfileCpus × List Error) (t : Agent) → IsGood t → IsSound (rest done t))
      → (done : List PowerProfileCpus × List Error) (v : (PowerProfileCpus × List Error) ⊎ Error)
        (t : Agent)
      → IsGood t
      → IsSound (on_group rest done v t)
  on_group-IsSound rest h (statuses, errors) (inr x) t g = (g, refl)
  on_group-IsSound rest h (statuses, errors) (inl (status, more)) t g =
      h (statuses ++ status ∷ [], errors ++ more) t g

  configure_groups-IsSound :
      (rcs : List ReservedSpec) (done : List PowerProfileCpus × List Error) (s : Agent)
      → IsGood s
      → IsSound (configure_groups e rcs done s)
  unfolding configure_groups
  configure_groups-IsSound [] done s g = (g, refl)
  configure_groups-IsSound (rc ∷ rcs) done s g =
      then-IsSound (configure_group e rc) (on_group (configure_groups e rcs) done) s
        (configure_group-IsSound rc s g)
        (λ v t h.
          on_group-IsSound (configure_groups e rcs) (λ d u k. configure_groups-IsSound rcs d u k)
            done v t h)

  pub configure_reserved_pools-IsSound :
      (config : NodeConfig) (s : Agent) → IsGood s → IsSound (configure_reserved_pools e config s)
  unfolding configure_reserved_pools
  configure_reserved_pools-IsSound config s g =
      let m = remove_reserved_pools e s.host.exclusive_pools in
      then-IsSound (attempt m) (after_removal e config) s
        (attempt-IsSound m s (remove_reserved-IsSound s.host.exclusive_pools s g))
        (λ v t h. go v t h)
    where
      go : (v : (Unit {0}) ⊎ Error) (t : Agent) → IsGood t → IsSound (after_removal e config v t)
      go (inr x) t h = (h, refl)
      go (inl u) t h = configure_groups-IsSound config.reserved_cpus ([], []) t h
