-- ===== src/Agent/Placement/Running.antt =====
-- The loop over the containers moves CPUs from the shared pool to exclusive pools only, and comes back
-- (controllers/powerpod_controller.go).
use cluster_power_manager.Base.{
  ℕ, ◌≡◌, ◌≢◌, refl, sym, subst, Bool, true, false, ◌&&◌, List, [], ◌∷◌, Option, none, some, String,
  arith, if◌then◌else◌, str_eq, inl, ◌==◌, inr, ◌⊎◌, contains, count, Bool-cases,
}
use cluster_power_manager.Power.Sysfs.{
  Error, api_failed, pool_missing, profile_missing, single_dpdk, Result, ok, err, Action, pure,
  lift, ◌>>=◌,
}
use cluster_power_manager.Power.Host.{
  Pool, reserved, shared, exclusive, is_exclusive, same_pool, same_pool_iff, Host,
}
use cluster_power_manager.Power.Cpu.Moves.{IsConsistent}
use cluster_power_manager.Power.Pool.{get_exclusive_pool, move_cpu_ids}
use cluster_power_manager.Power.Pool.Outside.{get_exclusive_pool_lem}
use cluster_power_manager.Power.Pool.Invariant.{IsOnHost}
use cluster_power_manager.Scaling.Updater.{CpuScalingOpts}
use cluster_power_manager.State.Deletion.{HasUniquePods}
use cluster_power_manager.Agent.Cluster.{
  Answer, found, not_found, failed, CpuScalingPolicy, PowerProfile, PowerContainer,
}
use cluster_power_manager.Agent.Machine.{Setup, Agent, on_host, attempt, ask, get}
use cluster_power_manager.Agent.Profiles.{is_empty}
use cluster_power_manager.Agent.ScalingOpts.{generate_cpu_scaling_opts, ensure_connection}
use cluster_power_manager.Agent.After.{
  IsGood, After, After-quiet, bind-After, attempt-After, move-After, pure-After, err-After,
  ask-After, if-After,
}
use cluster_power_manager.Agent.Placement.{
  detect_cores_added, are_cpus_in_shared_pool, Step, waits, goes_on, with_error, with_errors,
  manage, assign_dpdk, on_policy, on_profile, set_up_scaling, after_move, move_to, add_cores,
  on_pool, place_container, Placed, waiting, placed_all, append_placed, on_step, place_containers,
}

-- From the shared pool to an exclusive one.
abbrev pub enters : Pool → Pool → Bool
enters from to = same_pool from shared && is_exclusive to

pub enters_chain : (p q r : Pool) → enters p q ≡ true → enters q r ≡ true → enters p r ≡ true
unfolding same_pool
enters_chain p reserved r a b = absurd (cc)
enters_chain p shared r a b = absurd (ground arith)
enters_chain p (exclusive n) r a b = absurd (cc)

-- A CPU in the list of the shared pool is in the shared pool.
pub listed_in :
    (h : Host) (q : Pool) (x : ℕ) → IsConsistent h → contains x (h.cpus q) ≡ true → h.pool_of x ≡ q
listed_in h q x i m =
    (same_pool_iff (h.pool_of x) q).0 (ground (arith, i x q, counted x (h.cpus q)))
  where
    counted : (x : ℕ) (l : List ℕ) → count x l ≡ 0 → contains x l ≡ false
    counted x [] e = refl
    counted x (y ∷ l) e = ground (arith, counted x l)

in_shared :
    (h : Host) (cores : List ℕ) (x : ℕ)
    → are_cpus_in_shared_pool h cores ≡ true
    → contains x cores ≡ true
    → contains x (h.cpus shared) ≡ true
unfolding are_cpus_in_shared_pool
in_shared h [] x a m = absurd (cc)
in_shared h (c ∷ cs) x a m = elim (Bool-cases (c == x)) [
  | inl e ↦
      (let same : c ≡ x = ground arith in
        subst (λ y. contains y (h.cpus shared) ≡ true) same (ground arith))
  | inr e ↦ in_shared h cs x (ground arith) (ground arith)
]

module _ (e : Setup) (known : e.platform.freq.core_types ≢ []) where
  abbrev pub Runs : {A : Type 0} → Agent → Result A × Agent → Type 0
  Runs s r = After enters enters_chain e s r

  pub pure-Runs : {A : Type 0} (a : A) (s : Agent) → IsGood s → Runs s (pure a s)
  pure-Runs = pure-After enters enters_chain e

  pub err-Runs : {A : Type 0} (x : Error) (s : Agent) → IsGood s → Runs {A = A} s (lift (err x) s)
  err-Runs = err-After enters enters_chain e

  manage_host : (opts : List CpuScalingOpts) (s : Agent) → (manage opts s).host ≡ s.host
  manage_host [] s = refl
  manage_host (o ∷ os) s = refl

  manage_pods : (opts : List CpuScalingOpts) (s : Agent) → (manage opts s).pods ≡ s.pods
  manage_pods [] s = refl
  manage_pods (o ∷ os) s = refl

  assign_dpdk-Runs :
      (uid : String) (policy : CpuScalingPolicy) (c : PowerContainer) (s : Agent)
      → IsGood s
      → Runs s (assign_dpdk e uid policy c s)
  assign_dpdk-Runs uid policy c s g =
      let t = record s { connections = ensure_connection uid c.cpu_ids s.connections } in
      let made = generate_cpu_scaling_opts e.platform.freq s.host.all_cpus policy c.cpu_ids in
      After-quiet enters enters_chain e (ok (goes_on (with_errors made.1 c) [] true)) s
        (manage made.0 t) (manage_host made.0 t)
        (subst HasUniquePods (sym (manage_pods made.0 t)) g.2) g (λ w. refl)

  on_policy-Runs :
      (uid : String) (assigned : Bool) (c : PowerContainer) (p : Option CpuScalingPolicy)
      (s : Agent)
      → IsGood s
      → Runs s (on_policy e uid assigned c p s)
  on_policy-Runs uid assigned c none s g = pure-Runs (goes_on c [] assigned) s g
  on_policy-Runs uid assigned c (some policy) s g =
      if-After enters enters_chain e (str_eq policy.workload_type "polling-dpdk")
        (if assigned
          then pure (goes_on (with_error single_dpdk c) [] assigned)
          else assign_dpdk e uid policy c)
        (pure (goes_on c [] assigned)) s
        (if-After enters enters_chain e assigned
          (pure (goes_on (with_error single_dpdk c) [] assigned)) (assign_dpdk e uid policy c) s
          (pure-Runs (goes_on (with_error single_dpdk c) [] assigned) s g)
          (assign_dpdk-Runs uid policy c s g))
        (pure-Runs (goes_on c [] assigned) s g)

  on_profile-Runs :
      (uid : String) (assigned : Bool) (c : PowerContainer) (a : Answer PowerProfile) (s : Agent)
      → IsGood s
      → Runs s (on_profile e uid assigned c a s)
  on_profile-Runs uid assigned c not_found s g =
      pure-Runs (goes_on (with_error profile_missing c) (profile_missing ∷ []) assigned) s g
  on_profile-Runs uid assigned c failed s g = err-Runs api_failed s g
  on_profile-Runs uid assigned c (found p) s g =
      on_policy-Runs uid assigned c p.cpu_scaling_policy s g

  set_up_scaling-Runs :
      (uid : String) (assigned : Bool) (c : PowerContainer) (s : Agent)
      → IsGood s
      → Runs s (set_up_scaling e uid assigned c s)
  unfolding set_up_scaling
  set_up_scaling-Runs uid assigned c s g =
      let read =
        ask (λ n. e.server.get_profile n c.power_profile) >>= on_profile e uid assigned c in
      if-After enters enters_chain e e.scaling_enabled read (pure (goes_on c [] assigned)) s
        (ask-After enters enters_chain e (λ n. e.server.get_profile n c.power_profile)
          (on_profile e uid assigned c) s g (on_profile-Runs uid assigned c))
        (pure-Runs (goes_on c [] assigned) s g)

  after_move-Runs :
      (uid : String) (assigned : Bool) (c : PowerContainer) (r : (Unit {0}) ⊎ Error) (s : Agent)
      → IsGood s
      → Runs s (after_move e uid assigned c r s)
  after_move-Runs uid assigned c (inl u) s g = set_up_scaling-Runs uid assigned c s g
  after_move-Runs uid assigned c (inr x) s g =
      pure-Runs (goes_on (with_error x c) (x ∷ []) assigned) s g

  move_to-Runs :
      (uid : String) (assigned : Bool) (c : PowerContainer) (pool : Pool) (cores : List ℕ)
      (b : Bool) (s : Agent)
      → are_cpus_in_shared_pool s.host cores ≡ b
      → IsOnHost s.host pool
      → is_exclusive pool ≡ true
      → IsGood s
      → Runs s (move_to e uid assigned c pool cores b s)
  move_to-Runs uid assigned c pool cores false s f o x g = pure-Runs waits s g
  move_to-Runs uid assigned c pool cores true s f o x g =
      let r = attempt (on_host (move_cpu_ids e.platform pool cores)) s in
      bind-After enters enters_chain e s r.1 r.0 (after_move e uid assigned c)
        (attempt-After enters enters_chain e s (on_host (move_cpu_ids e.platform pool cores) s)
          (move-After enters enters_chain e s pool cores known g o entering))
        (λ a. after_move-Runs uid assigned c a r.1)
    where
      entering : (y : ℕ) → contains y cores ≡ true → enters (s.host.pool_of y) pool ≡ true
      entering y m =
          let from : s.host.pool_of y ≡ shared =
            listed_in s.host shared y g.0.consistent (in_shared s.host cores y f m) in
          subst (λ q. enters q pool ≡ true) (sym from) (unfold same_pool in x)

  add_cores-Runs :
      (uid : String) (assigned : Bool) (c : PowerContainer) (pool : Pool) (cores : List ℕ)
      (s : Agent)
      → IsOnHost s.host pool
      → is_exclusive pool ≡ true
      → IsGood s
      → Runs s (add_cores e uid assigned c pool cores s)
  add_cores-Runs uid assigned c pool [] s o x g = set_up_scaling-Runs uid assigned c s g
  add_cores-Runs uid assigned c pool (y ∷ ys) s o x g =
      move_to-Runs uid assigned c pool (y ∷ ys) (are_cpus_in_shared_pool s.host (y ∷ ys)) s refl o x
        g

  on_pool-Runs :
      (uid : String) (assigned : Bool) (c : PowerContainer) (q : Option Pool) (s : Agent)
      → get_exclusive_pool s.host c.power_profile ≡ q
      → IsGood s
      → Runs s (on_pool e uid assigned c q s)
  on_pool-Runs uid assigned c none s f g =
      pure-Runs (goes_on (with_error pool_missing c) (pool_missing ∷ []) assigned) s g
  on_pool-Runs uid assigned c (some q) s f g =
      let (o, x) = get_exclusive_pool_lem s.host c.power_profile q g.0 f in
      add_cores-Runs uid assigned c q (detect_cores_added (s.host.cpus q) c.cpu_ids) s o x g

  pub place_container-Runs :
      (uid : String) (assigned : Bool) (c : PowerContainer) (s : Agent)
      → IsGood s
      → Runs s (place_container e uid assigned c s)
  unfolding place_container
  place_container-Runs uid assigned c s g =
      let place =
        get (λ t. get_exclusive_pool t.host c.power_profile) >>= on_pool e uid assigned c in
      if-After enters enters_chain e (is_empty c.errors) place (pure (goes_on c [] assigned)) s
        (on_pool-Runs uid assigned c (get_exclusive_pool s.host c.power_profile) s refl g)
        (pure-Runs (goes_on c [] assigned) s g)

  on_step-Runs :
      (rest : Bool → Action Agent Placed)
      → ((now : Bool) (t : Agent) → IsGood t → Runs t (rest now t))
      → (step : Step) (t : Agent) → IsGood t
      → Runs t (on_step rest step t)
  on_step-Runs rest h waits t g = pure-Runs waiting t g
  on_step-Runs rest h (goes_on done errors now) t g =
      let r = rest now t in
      bind-After enters enters_chain e t r.1 r.0 (λ placed. pure (append_placed done errors placed))
        (h now t g) (λ placed. pure-Runs (append_placed done errors placed) r.1)

  pub place_containers-Runs :
      (uid : String) (assigned : Bool) (cs : List PowerContainer) (s : Agent)
      → IsGood s
      → Runs s (place_containers e uid assigned cs s)
  unfolding place_containers
  place_containers-Runs uid assigned [] s g = pure-Runs (placed_all [] []) s g
  place_containers-Runs uid assigned (c ∷ cs) s g =
      let r = place_container e uid assigned c s in
      bind-After enters enters_chain e s r.1 r.0 (on_step λ now. place_containers e uid now cs)
        (place_container-Runs uid assigned c s g)
        (λ step.
          on_step-Runs (λ now. place_containers e uid now cs)
            (λ now t. place_containers-Runs uid now cs t) step r.1)
