-- ===== src/Agent/NodeConfigs/Cleaned.antt =====
-- The clean-up after the last PowerNodeConfig of a node (cleanupPowerNodeConfigPools of
-- controllers/powernodeconfig_controller.go).
use cluster_power_manager.Base.{
  ℕ, ◌≡◌, ◌≢◌, refl, sym, ap, subst, ◌∙◌, Bool, true, false, ◌||◌, List, [], ◌∷◌, ◌++◌, arith, inl,
  inr, contains, count, Option-cases,
}
use cluster_power_manager.Power.Sysfs.{
  Result, ok, err, panic, deadlock, pure, bind_result, ◌>>=◌, ◌>>◌,
}
use cluster_power_manager.Power.Host.{Pool, reserved, shared, exclusive, Host}
use cluster_power_manager.Power.Cpu.Moves.{IsConsistent}
use cluster_power_manager.Power.Pool.{
  set_cpus, remove_call, remove_locked, remove_pool, unlist_pool, move_cpus_call,
}
use cluster_power_manager.Power.Pool.Loops.{Managed}
use cluster_power_manager.Power.Pool.Members.{set_cpus-Looped, with_host_mutex_run}
use cluster_power_manager.Power.Pool.Calls.{move_to, run_call}
use cluster_power_manager.Agent.Cluster.{Answer, found, not_found, failed}
use cluster_power_manager.Agent.Machine.{Setup, Agent, on_host}
use cluster_power_manager.Agent.PowerPod.Deleted.{contains-append}
use cluster_power_manager.Agent.After.{IsGood}
use cluster_power_manager.Agent.Sound.{
  IsSound, then-IsSound, ask-IsSound, call-IsSound, remove_call-IsSound,
}
use cluster_power_manager.Agent.NodeConfigs.{
  is_reserved_name, collect_if, collect_reserved_pools, no_longer, remove_power_node_status_pools,
  cleanup_power_node_config_pools,
}

members-Managed : (h : Host) (q : Pool) → IsConsistent h → Managed h (h.cpus q)
members-Managed h q i x m = ground (arith, i x q, listed x (h.cpus q))
  where
    listed : (x : ℕ) (l : List ℕ) → count x l ≡ 0 → contains x l ≡ false
    listed x [] e = refl
    listed x (y ∷ l) e = ground (arith, listed x l)

unlist_keeps : (pool : Pool) (h : Host) → (unlist_pool pool h).1.all_cpus ≡ h.all_cpus
unfolding unlist_pool
unlist_keeps pool h = elim (Option-cases (remove_pool pool h.exclusive_pools)) [
  | inl e ↦ rw (e, unlist_pool) refl
  | inr (l, e) ↦ rw (e, unlist_pool) refl
]

module _ (e : Setup) (known : e.platform.freq.core_types ≢ []) where
  remove_locked_keeps :
      (n : ℕ) (h : Host) → IsConsistent h → (remove_locked e.platform n h).1.all_cpus ≡ h.all_cpus
  unfolding remove_locked
  remove_locked_keeps n h i = go (set_cpus e.platform (exclusive n) [] h).0
    where
      k : Host
      k = (set_cpus e.platform (exclusive n) [] h).1

      same : k.all_cpus ≡ h.all_cpus
      same = (set_cpus-Looped e.platform known (exclusive n) [] h i).keeps.all_cpus_kept

      go :
          (a : Result (Unit {0}))
          → (bind_result a k (λ u. unlist_pool (exclusive n))).1.all_cpus ≡ h.all_cpus
      go (ok u) = unlist_keeps (exclusive n) k ∙ same
      go (err x) = same
      go panic = same
      go deadlock = same

  remove_call_keeps :
      (pool : Pool) (h : Host)
      → IsConsistent h
      → h.locked ≡ false
      → (remove_call e.platform pool h).1.all_cpus ≡ h.all_cpus
  unfolding remove_call
  remove_call_keeps reserved h i f = refl
  remove_call_keeps shared h i f = refl
  remove_call_keeps (exclusive n) h i f =
      ap (λ r. r.1.all_cpus) (with_host_mutex_run (remove_locked e.platform n) h f)
      ∙ remove_locked_keeps n (record h { locked = true }) i

  -- The CPUs that were read are the host's.
  abbrev IsCollected : Agent → Result (List ℕ) → Agent → Type 0
  IsCollected s (ok ids) t = IsGood t × (t.host.all_cpus ≡ s.host.all_cpus) × Managed s.host ids
  IsCollected s (err x) t = IsGood t
  IsCollected s _ t = true ≡ false

  collect_if-IsCollected :
      (p : Pool) (named : Bool) (s : Agent)
      → IsGood s
      → let r = collect_if e p named s in IsCollected s r.0 r.1
  collect_if-IsCollected p false s g = (g, refl, λ x m. absurd (cc))
  collect_if-IsCollected p true s g =
      go (remove_call e.platform p s.host).0 (remove_call-IsSound e known p s g)
    where
      t : Agent
      t = record s { host = (remove_call e.platform p s.host).1 }

      go :
          (a : Result (Unit {0}))
          → IsSound (a, t)
          → let r = bind_result a t (λ u. pure (s.host.cpus p)) in IsCollected s r.0 r.1
      go (ok u) h = (
        h.0,
        remove_call_keeps p s.host g.0.consistent g.1,
        members-Managed s.host p g.0.consistent,
      )
      go (err x) h = h.0
      go panic h = absurd (let k = h.1 in cc)
      go deadlock h = absurd (let k = h.1 in cc)

  collect-IsCollected :
      (ps : List Pool) (s : Agent)
      → IsGood s
      → let r = collect_reserved_pools e ps s in IsCollected s r.0 r.1
  unfolding collect_reserved_pools
  collect-IsCollected [] s g = (g, refl, λ x m. absurd (cc))
  collect-IsCollected (p ∷ ps) s g =
      first (collect_if e p (is_reserved_name e s.host p) s).0
        (collect_if-IsCollected p (is_reserved_name e s.host p) s g)
        (λ h. collect-IsCollected ps t h)
    where
      t : Agent
      t = (collect_if e p (is_reserved_name e s.host p) s).1

      second :
          (cores : List ℕ) (b : Result (List ℕ)) (u : Agent)
          → t.host.all_cpus ≡ s.host.all_cpus
          → Managed s.host cores
          → IsCollected t b u
          → let r = bind_result b u (λ rest. pure (cores ++ rest)) in IsCollected s r.0 r.1
      second cores (ok rest) u k m h =
          (h.0, h.1 ∙ k, λ x n. either x (sym (contains-append x cores rest) ∙ n) k (m x) (h.2 x))
        where
          either :
              (x : ℕ)
              → (contains x cores || contains x rest) ≡ true
              → t.host.all_cpus ≡ s.host.all_cpus
              → (contains x cores ≡ true → contains x s.host.all_cpus ≡ true)
              → (contains x rest ≡ true → contains x t.host.all_cpus ≡ true)
              → contains x s.host.all_cpus ≡ true
          either x o k a b = ground (arith, a, b, ap (contains x) k)
      second cores (err x) u k m h = h
      second cores panic u k m h = h
      second cores deadlock u k m h = h

      first :
          (a : Result (List ℕ))
          → IsCollected s a t
          → (IsGood t → let r = collect_reserved_pools e ps t in IsCollected t r.0 r.1)
          → let r =
              bind_result a t
                (λ cores. collect_reserved_pools e ps >>= λ rest. pure (cores ++ rest)) in
            IsCollected s r.0 r.1
      first (ok cores) h ih =
          let r = collect_reserved_pools e ps t in second cores r.0 r.1 h.1 h.2 (ih h.0)
      first (err x) h ih = h
      first panic h ih = h
      first deadlock h ih = h

  pub remove_status-IsSound : (s : Agent) → IsGood s → IsSound (remove_power_node_status_pools e s)
  unfolding remove_power_node_status_pools
  remove_status-IsSound s g = ask-IsSound e.server.patch_status no_longer s g go
    where
      go : (a : Answer (Unit {0})) (t : Agent) → IsGood t → IsSound (no_longer a t)
      go not_found t h = (h, refl)
      go (found u) t h = (h, refl)
      go failed t h = (h, refl)

  pub cleanup-IsSound : (s : Agent) → IsGood s → IsSound (cleanup_power_node_config_pools e s)
  unfolding cleanup_power_node_config_pools
  cleanup-IsSound s g =
      go (collect_reserved_pools e s.host.exclusive_pools s).0
        (collect-IsCollected s.host.exclusive_pools s g)
    where
      t : Agent
      t = (collect_reserved_pools e s.host.exclusive_pools s).1

      managed :
          (more : List ℕ)
          → t.host.all_cpus ≡ s.host.all_cpus
          → Managed s.host more
          → Managed t.host (s.host.cpus shared ++ more)
      managed more k m x n =
          subst (λ l. contains x l ≡ true) (sym k)
            (ground (
              arith,
              sym (contains-append x (s.host.cpus shared) more) ∙ n,
              members-Managed s.host shared g.0.consistent x,
              m x,
            ))

      moved :
          (cores : List ℕ)
          → IsGood t
          → Managed t.host cores
          → IsSound (on_host (move_cpus_call e.platform reserved cores) t)
      moved cores h m =
          unfold run_call in (call-IsSound e known (move_to reserved cores) t h (tt, m))

      go :
          (a : Result (List ℕ))
          → IsCollected s a t
          → IsSound (
              bind_result a t (λ more.
                on_host (move_cpus_call e.platform reserved (s.host.cpus shared ++ more))
                >> remove_power_node_status_pools e))
      go (ok more) h =
          then-IsSound (on_host (move_cpus_call e.platform reserved (s.host.cpus shared ++ more)))
            (λ u. remove_power_node_status_pools e) t
            (moved (s.host.cpus shared ++ more) h.0 (managed more h.1 h.2))
            (λ u v k. remove_status-IsSound v k)
      go (err x) h = (h, refl)
      go panic h = absurd (cc)
      go deadlock h = absurd (cc)
