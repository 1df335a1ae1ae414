-- ===== src/Agent/Placement/Steps.antt =====
-- Where one round of the loop over the containers leaves a container's CPUs
-- (controllers/powerpod_controller.go).
use cluster_power_manager.Base.{
  ℕ, ◌+◌, ◌≡◌, ◌≢◌, refl, sym, ap, subst, ◌∙◌, Bool, true, false, ◌==◌, List, [], ◌∷◌, ◌++◌, Option,
  none, some, String, arith, if◌then◌else◌, str_eq, inl, inr, ◌⊎◌, contains, ==_refl, Bool-cases,
}
use cluster_power_manager.Power.Sysfs.{
  Error, api_failed, pool_missing, profile_missing, single_dpdk, missing_cpus, Result, ok, err,
  panic, deadlock, Action, pure, bind_result, ◌>>=◌,
}
use cluster_power_manager.Power.Host.{Pool, shared, Host}
use cluster_power_manager.Power.Cpu.Moves.{IsConsistent, Keeps, Keeps-refl, succeeds, admits}
use cluster_power_manager.Power.Pool.{get_exclusive_pool, by_name, move_cpu_ids}
use cluster_power_manager.Power.Pool.Loops.{Looped}
use cluster_power_manager.Power.Pool.Outside.{move_cpu_ids-Looped}
use cluster_power_manager.Scaling.Updater.{CpuScalingOpts}
use cluster_power_manager.Agent.Cluster.{
  Answer, found, not_found, failed, CpuScalingPolicy, PowerProfile, PowerContainer,
}
use cluster_power_manager.Agent.Machine.{Setup, Agent, ask, get, caught}
use cluster_power_manager.Agent.Profiles.{is_empty}
use cluster_power_manager.Agent.ScalingOpts.{generate_cpu_scaling_opts, ensure_connection}
use cluster_power_manager.Agent.After.{IsGood}
use cluster_power_manager.Agent.Placement.{
  detect_cores_added, are_cpus_in_shared_pool, Step, waits, goes_on, with_error, with_errors,
  manage, assign_dpdk, on_policy, on_profile, set_up_scaling, after_move, move_to, add_cores,
  on_pool, place_container,
}
use cluster_power_manager.Agent.Placement.Running.{listed_in}

-- Every CPU of the container is in the exclusive pool of its profile.
abbrev pub IsPlaced : Host → PowerContainer → Type 0
IsPlaced h c =
    (x : ℕ)
    → contains x c.cpu_ids ≡ true
    → get_exclusive_pool h c.power_profile ≡ some (h.pool_of x)

-- A container that was there, as it was or with one more error at the end.
abbrev pub IsSame : PowerContainer → PowerContainer → Type 0
IsSame d c = (d ≡ c) ⊎ ((x : Error) × (d ≡ record c { errors = c.errors ++ x ∷ [] }))

-- A container without errors, one of whose CPUs is listed neither in the exclusive pool of its profile
-- nor in the shared pool.
abbrev pub IsBlocked : Host → PowerContainer → Type 0
IsBlocked h c =
    (is_empty c.errors ≡ true)
    × (q : Pool) × (x : ℕ) × (get_exclusive_pool h c.power_profile ≡ some q)
    × (contains x c.cpu_ids ≡ true)
    × (contains x (h.cpus q) ≡ false)
    × (contains x (h.cpus shared) ≡ false)

abbrev pub IsStepPlaced : PowerContainer → Result Step → Host → Type 0
IsStepPlaced c (ok waits) h = IsBlocked h c
IsStepPlaced c (ok (goes_on d es now)) h = IsSame d c × (is_empty d.errors ≡ true → IsPlaced h d)
IsStepPlaced c (err x) h = x ≡ api_failed
IsStepPlaced c _ h = Unit {0}

added_error : (x : Error) (c : PowerContainer) → is_empty (with_error x c).errors ≡ false
added_error x c = go c.errors
  where
    go : (l : List Error) → is_empty (l ++ x ∷ []) ≡ false
    go [] = refl
    go (y ∷ l) = refl

-- A step that stops with an error is not placed.
stopped :
    (x : Error) (c : PowerContainer) (es : List Error) (now : Bool) (h : Host)
    → IsStepPlaced c (ok (goes_on (with_error x c) es now)) h
stopped x c es now h = (inr (x, refl), λ n. absurd (let f = added_error x c in cc))

module _ (e : Setup) (known : e.platform.freq.core_types ≢ []) where
  unaltered :
      (c : PowerContainer) (now : Bool) (h : Host)
      → IsPlaced h c
      → IsStepPlaced c (ok (goes_on c [] now)) h
  unaltered c now h p = (inl refl, λ n. p)

  assign_dpdk-Placed :
      (uid : String) (policy : CpuScalingPolicy) (c : PowerContainer) (s : Agent)
      → IsPlaced s.host c
      → let r = assign_dpdk e uid policy c s in IsStepPlaced c r.0 r.1.host
  assign_dpdk-Placed uid policy c s p =
      let t = record s { connections = ensure_connection uid c.cpu_ids s.connections } in
      let made = generate_cpu_scaling_opts e.platform.freq s.host.all_cpus policy c.cpu_ids in
      go made.0 made.1 t p
    where
      go :
          (opts : List CpuScalingOpts) (missing : List ℕ) (t : Agent)
          → IsPlaced t.host c
          → IsStepPlaced c (ok (goes_on (with_errors missing c) [] true)) (manage opts t).host
      go [] [] t p = unaltered c true t.host p
      go [] (m ∷ ms) t p = stopped missing_cpus c [] true t.host
      go (o ∷ os) [] t p = unaltered c true t.host p
      go (o ∷ os) (m ∷ ms) t p = stopped missing_cpus c [] true t.host

  if-Placed :
      (b : Bool) (m n : Action Agent Step) (c : PowerContainer) (s : Agent)
      → IsStepPlaced c (m s).0 (m s).1.host
      → IsStepPlaced c (n s).0 (n s).1.host
      → let r = (if b then m else n) s in IsStepPlaced c r.0 r.1.host
  if-Placed true m n c s f g = f
  if-Placed false m n c s f g = g

  on_profile-Placed :
      (uid : String) (assigned : Bool) (c : PowerContainer) (a : Answer PowerProfile) (s : Agent)
      → IsPlaced s.host c
      → let r = on_profile e uid assigned c a s in IsStepPlaced c r.0 r.1.host
  on_profile-Placed uid assigned c not_found s p =
      stopped profile_missing c (profile_missing ∷ []) assigned s.host
  on_profile-Placed uid assigned c failed s p = refl
  on_profile-Placed uid assigned c (found profile) s p = on_policy-Placed profile.cpu_scaling_policy
    where
      on_policy-Placed :
          (o : Option CpuScalingPolicy)
          → let r = on_policy e uid assigned c o s in IsStepPlaced c r.0 r.1.host
      on_policy-Placed none = unaltered c assigned s.host p
      on_policy-Placed (some policy) =
          let refuse : Action Agent Step = pure (goes_on (with_error single_dpdk c) [] assigned) in
          if-Placed (str_eq policy.workload_type "polling-dpdk")
            (if assigned then refuse else assign_dpdk e uid policy c) (pure (goes_on c [] assigned))
            c s
            (if-Placed assigned refuse (assign_dpdk e uid policy c) c s
              (stopped single_dpdk c [] assigned s.host) (assign_dpdk-Placed uid policy c s p))
            (unaltered c assigned s.host p)

  set_up_scaling-Placed :
      (uid : String) (assigned : Bool) (c : PowerContainer) (s : Agent)
      → IsPlaced s.host c
      → let r = set_up_scaling e uid assigned c s in IsStepPlaced c r.0 r.1.host
  unfolding set_up_scaling
  set_up_scaling-Placed uid assigned c s p =
      if-Placed e.scaling_enabled
        (ask (λ n. e.server.get_profile n c.power_profile) >>= on_profile e uid assigned c)
        (pure (goes_on c [] assigned)) c s
        (on_profile-Placed uid assigned c (e.server.get_profile s.calls c.power_profile)
          (record s { calls = s.calls + 1 }) p)
        (unaltered c assigned s.host p)

  pub same_pools :
      (h k : Host) (name : String)
      → Keeps h k
      → get_exclusive_pool k name ≡ get_exclusive_pool h name
  unfolding get_exclusive_pool
  same_pools h k name kept =
      ap (λ names. by_name names k.exclusive_pools name) kept.pool_name_kept
      ∙ ap (λ pools. by_name h.pool_name pools name) kept.exclusive_pools_kept

  not_added :
      (x : ℕ) (actual ids : List ℕ)
      → contains x ids ≡ true
      → contains x (detect_cores_added actual ids) ≡ false
      → contains x actual ≡ true
  unfolding detect_cores_added
  not_added x actual [] m n = absurd (cc)
  not_added x actual (c ∷ cs) m n = elim (Bool-cases (c == x)) [
    | inl a ↦
        (let same : c ≡ x = ground arith in
          subst (λ y. contains y actual ≡ true) same (ground arith))
    | inr a ↦ not_added x actual cs (ground arith) (ground arith)
  ]

  -- One of the missing cores is not in the shared pool.
  one_missing :
      (h : Host) (actual ids : List ℕ)
      → are_cpus_in_shared_pool h (detect_cores_added actual ids) ≡ false
      → (x : ℕ) × (contains x ids ≡ true)
        × (contains x actual ≡ false)
        × (contains x (h.cpus shared) ≡ false)
  unfolding are_cpus_in_shared_pool detect_cores_added
  one_missing h actual [] a = absurd (cc)
  one_missing h actual (c ∷ cs) a = elim (Bool-cases (contains c actual)) [
    | inl there ↦ later (one_missing h actual cs (ground (arith, there)))
    | inr gone ↦ elim (Bool-cases (contains c (h.cpus shared))) [
      | inl kept ↦ later (one_missing h actual cs (ground (arith, gone, kept)))
      | inr lost ↦ (c, ground (arith, ==_refl c), gone, lost)
    ]
  ]
    where
      later :
          ((x : ℕ) × (contains x cs ≡ true)
            × (contains x actual ≡ false)
            × (contains x (h.cpus shared) ≡ false))
          → (x : ℕ) × (contains x (c ∷ cs) ≡ true)
            × (contains x actual ≡ false)
            × (contains x (h.cpus shared) ≡ false)
      later (x, m, n, o) = (x, ground (arith, m), n, o)

  -- After a move of the cores that were missing, all of the container's are in the pool.
  moved_there :
      (c : PowerContainer) (q : Pool) (h k : Host)
      → get_exclusive_pool h c.power_profile ≡ some q
      → IsConsistent h
      → Keeps h k
      → ((x : ℕ)
          → k.pool_of x
            ≡ (if contains x (detect_cores_added (h.cpus q) c.cpu_ids) then q else h.pool_of x))
      → IsPlaced k c
  moved_there c q h k f i kept moved x m =
      same_pools h k c.power_profile kept
      ∙ f
      ∙ ap some (sym (arrived (Bool-cases (contains x added))))
    where
      added : List ℕ
      added = detect_cores_added (h.cpus q) c.cpu_ids

      arrived : (contains x added ≡ true) ⊎ (contains x added ≡ false) → k.pool_of x ≡ q
      arrived (inl a) = moved x ∙ ap (λ b. if b then q else h.pool_of x) a
      arrived (inr a) =
          moved x
          ∙ ap (λ b. if b then q else h.pool_of x) a
          ∙ listed_in h q x i (not_added x (h.cpus q) c.cpu_ids m a)

  after_move-Placed :
      (uid : String) (assigned : Bool) (c : PowerContainer) (a : Result (Unit {0})) (t : Agent)
      → (succeeds a ≡ true → IsPlaced t.host c)
      → let r = bind_result (caught a) t (after_move e uid assigned c) in
        IsStepPlaced c r.0 r.1.host
  after_move-Placed uid assigned c (ok u) t p = set_up_scaling-Placed uid assigned c t (p refl)
  after_move-Placed uid assigned c (err x) t p = stopped x c (x ∷ []) assigned t.host
  after_move-Placed uid assigned c panic t p = tt
  after_move-Placed uid assigned c deadlock t p = tt

  add_cores-Placed :
      (uid : String) (assigned : Bool) (c : PowerContainer) (q : Pool) (cores : List ℕ) (s : Agent)
      → is_empty c.errors ≡ true
      → get_exclusive_pool s.host c.power_profile ≡ some q
      → detect_cores_added (s.host.cpus q) c.cpu_ids ≡ cores
      → IsGood s
      → let r = add_cores e uid assigned c q cores s in IsStepPlaced c r.0 r.1.host
  add_cores-Placed uid assigned c q [] s n f d g =
      set_up_scaling-Placed uid assigned c s
        (moved_there c q s.host s.host f g.0.consistent (Keeps-refl s.host) (λ x. rw d refl))
  add_cores-Placed uid assigned c q (y ∷ ys) s n f d g =
      go (are_cpus_in_shared_pool s.host (y ∷ ys)) refl
    where
      moving :
          Looped s.host
            (y ∷ ys)
            (λ x r. q)
            (λ x r. admits r q)
            (move_cpu_ids e.platform q (y ∷ ys) s.host)
      moving = move_cpu_ids-Looped e.platform q (y ∷ ys) s.host known g.0.consistent g.1

      moved : Agent
      moved = record s { host = (move_cpu_ids e.platform q (y ∷ ys) s.host).1 }

      go :
          (b : Bool)
          → are_cpus_in_shared_pool s.host (y ∷ ys) ≡ b
          → let r = move_to e uid assigned c q (y ∷ ys) b s in IsStepPlaced c r.0 r.1.host
      go false a =
          let (x, m, absent, lost) =
            one_missing s.host (s.host.cpus q) c.cpu_ids
              (ap (are_cpus_in_shared_pool s.host) d ∙ a) in
          (n, q, x, f, m, absent, lost)
      go true a =
          after_move-Placed uid assigned c (move_cpu_ids e.platform q (y ∷ ys) s.host).0 moved
            (λ done. moved_there c q s.host moved.host f g.0.consistent moving.keeps (λ x.
              moving.placed done x
              ∙ ap (λ l. if contains x l then q else s.host.pool_of x) (sym d)))

  on_pool-Placed :
      (uid : String) (assigned : Bool) (c : PowerContainer) (o : Option Pool) (s : Agent)
      → is_empty c.errors ≡ true
      → get_exclusive_pool s.host c.power_profile ≡ o
      → IsGood s
      → let r = on_pool e uid assigned c o s in IsStepPlaced c r.0 r.1.host
  on_pool-Placed uid assigned c none s n f g =
      stopped pool_missing c (pool_missing ∷ []) assigned s.host
  on_pool-Placed uid assigned c (some q) s n f g =
      add_cores-Placed uid assigned c q (detect_cores_added (s.host.cpus q) c.cpu_ids) s n f refl g

  pub place_container-Placed :
      (uid : String) (assigned : Bool) (c : PowerContainer) (s : Agent)
      → IsGood s
      → let r = place_container e uid assigned c s in IsStepPlaced c r.0 r.1.host
  unfolding place_container
  place_container-Placed uid assigned c s g = go (is_empty c.errors) refl
    where
      place : Action Agent Step
      place = get (λ t. get_exclusive_pool t.host c.power_profile) >>= on_pool e uid assigned c

      go :
          (b : Bool)
          → is_empty c.errors ≡ b
          → let r = (if b then place else pure (goes_on c [] assigned)) s in
            IsStepPlaced c r.0 r.1.host
      go true h =
          on_pool-Placed uid assigned c (get_exclusive_pool s.host c.power_profile) s h refl g
      go false h = (inl refl, λ n. absurd (cc))
