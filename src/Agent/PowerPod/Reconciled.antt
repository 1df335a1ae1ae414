-- ===== src/Agent/PowerPod/Reconciled.antt =====
-- A reconciliation of a pod leaves the pools well formed, the mutex free and the remembered pods under
-- names of their own, and comes back (controllers/powerpod_controller.go).
use cluster_power_manager.Base.{
  ℕ, ◌≡◌, ◌≢◌, refl, Bool, true, false, ◌||◌, List, [], ◌∷◌, ◌++◌, Option, none, some, String,
  str_eq, if◌then◌else◌,
}
use cluster_power_manager.Power.Sysfs.{
  Error, api_failed, object_missing, not_running, no_uid, recoverable, ok, err, Action, pure, lift,
  ◌>>=◌, ◌>>◌,
}
use cluster_power_manager.Power.Host.{Pool, shared, same_pool}
use cluster_power_manager.Power.Cpu.Moves.{returns}
use cluster_power_manager.Power.Pool.{move_cpu_ids}
use cluster_power_manager.Power.Pool.Invariant.{IsWellFormed}
use cluster_power_manager.Scaling.Manager.{remove_cpu_scaling}
use cluster_power_manager.State.Pods.{is_pod, update_state_guaranteed_pods}
use cluster_power_manager.State.Deletion.{
  delete_pod_from_state_lem, without, HasUniquePods, update_pod-HasUniquePods,
  without-HasUniquePods,
}
use cluster_power_manager.Agent.Cluster.{
  Answer, found, not_found, failed, PowerContainer, ExclusiveCpuPoolStatus, CpuPoolsStatus,
  ContainerSpec, Pod,
}
use cluster_power_manager.Agent.Machine.{
  Setup, Agent, StatusPatch, exclusive_entry, on_host, ask, modify,
}
use cluster_power_manager.Agent.PowerContainers.{get_power_profile_requests_from_containers}
use cluster_power_manager.Agent.PowerContainers.Reading.{requests-After, admissible-After}
use cluster_power_manager.Agent.Requests.{get_admissible_containers}
use cluster_power_manager.Agent.ScalingOpts.{close_connection}
use cluster_power_manager.Agent.After.{
  IsGood, Answers, After, After-quiet, bind-After, move-After, pure-After, err-After, ask-After,
  if-After, After-weaken, then-After,
}
use cluster_power_manager.Agent.Placement.{Placed, waiting, placed_all, place_containers}
use cluster_power_manager.Agent.Placement.Running.{enters, enters_chain, place_containers-Runs}
use cluster_power_manager.Agent.PowerPod.{
  finished, requeued, patched, add_power_node_status_exclusive_entry, removed,
  remove_power_node_status_exclusive_entry, guaranteed_pod, outcome_of, record_pod, on_placed,
  on_containers, on_admissible, handle_running, forget_pod, release_containers, entry_containers,
  tear_down, on_node_state, handle_pod_deletion, is_succeeded, is_running, on_pod, reconcile_pod,
}

-- A move to the shared pool, and any move.
abbrev pub leaves : Pool → Pool → Bool
leaves from to = same_pool to shared

pub leaves_chain : (p q r : Pool) → leaves p q ≡ true → leaves q r ≡ true → leaves p r ≡ true
leaves_chain p q r a b = b

abbrev any_move : Pool → Pool → Bool
any_move p q = true

any_chain : (p q r : Pool) → any_move p q ≡ true → any_move q r ≡ true → any_move p r ≡ true
any_chain p q r a b = refl

-- What both paths do with the server's status and the remembered pods.
module _ (may : Pool → Pool → Bool)
    (chain : (p q r : Pool) → may p q ≡ true → may q r ≡ true → may p r ≡ true) (e : Setup) where
  patched-After :
      (a : Answer (Unit {0})) (patch : StatusPatch) (s : Agent)
      → IsGood s
      → After may chain e s (patched a patch s)
  patched-After (found u) patch s g =
      After-quiet may chain e (ok tt) s (record s { patches = patch ∷ s.patches }) refl g.2 g
        (λ w. refl)
  patched-After not_found patch s g = err-After may chain e object_missing s g
  patched-After failed patch s g = err-After may chain e api_failed s g

  removed-After :
      (a : Answer (Unit {0})) (uid : String) (s : Agent)
      → IsGood s
      → After may chain e s (removed a uid s)
  removed-After not_found uid s g = pure-After may chain e tt s g
  removed-After (found u) uid s g = patched-After (found u) (exclusive_entry uid []) s g
  removed-After failed uid s g = patched-After failed (exclusive_entry uid []) s g

  forget_pod-After :
      (name namespace : String) (s : Agent)
      → IsGood s
      → After may chain e s (forget_pod name namespace s)
  unfolding forget_pod
  forget_pod-After name namespace s g =
      rw (forget_pod, (delete_pod_from_state_lem name namespace s.pods (g.2 name namespace)).0)
        (After-quiet may chain e (ok tt) s
          (record s { pods = without (is_pod name namespace) s.pods }) refl
          (without-HasUniquePods name namespace s.pods g.2) g (λ w. refl))

module _ (e : Setup) (known : e.platform.freq.core_types ≢ []) where
  record_update-After :
      (pod : Pod) (cs : List PowerContainer) (s : Agent)
      → IsGood s
      → After enters enters_chain e s (
          modify
            (λ t. record t { pods = update_state_guaranteed_pods (guaranteed_pod pod cs) t.pods })
            s)
  record_update-After pod cs s g =
      After-quiet enters enters_chain e (ok tt) s
        (record s { pods = update_state_guaranteed_pods (guaranteed_pod pod cs) s.pods }) refl
        (update_pod-HasUniquePods (guaranteed_pod pod cs) s.pods g.2) g (λ w. refl)

  outcome-After :
      (errors : List Error) (s : Agent)
      → IsGood s
      → After enters enters_chain e s (lift (outcome_of errors) s)
  outcome-After [] s g = pure-After enters enters_chain e finished s g
  outcome-After (x ∷ xs) s g = err-After enters enters_chain e recoverable s g

  record_pod-After :
      (pod : Pod) (cs : List PowerContainer) (errors : List Error) (s : Agent)
      → IsGood s
      → After enters enters_chain e s (record_pod e pod cs errors s)
  unfolding add_power_node_status_exclusive_entry
  record_pod-After pod cs errors s g =
      let entry : List ExclusiveCpuPoolStatus =
        (record { pod_uid = pod.uid; pod = pod.name; power_containers = cs }) ∷ [] in
      let patch = add_power_node_status_exclusive_entry e pod.uid pod.name cs in
      let update : Action Agent (Unit {0}) =
        modify
          λ t. record t { pods = update_state_guaranteed_pods (guaranteed_pod pod cs) t.pods } in
      then-After enters enters_chain e (patch >> update) (λ u. lift (outcome_of errors)) s
        (then-After enters enters_chain e patch (λ u. update) s
          (ask-After enters enters_chain e e.server.patch_status
            (λ a. patched a (exclusive_entry pod.uid entry)) s g
            (λ a. patched-After enters enters_chain e a (exclusive_entry pod.uid entry)))
          (λ u. record_update-After pod cs))
        (λ u. outcome-After errors)

  on_placed-After :
      (pod : Pod) (errors : List Error) (p : Placed) (s : Agent)
      → IsGood s
      → After enters enters_chain e s (on_placed e pod errors p s)
  on_placed-After pod errors waiting s g = pure-After enters enters_chain e requeued s g
  on_placed-After pod errors (placed_all cs more) s g = record_pod-After pod cs (errors ++ more) s g

  on_containers-After :
      (pod : Pod) (x : List PowerContainer × List Error) (s : Agent)
      → IsGood s
      → After enters enters_chain e s (on_containers e pod x s)
  on_containers-After pod (cs, errors) s g =
      let r = place_containers e pod.uid false cs s in
      bind-After enters enters_chain e s r.1 r.0 (on_placed e pod errors)
        (place_containers-Runs e known pod.uid false cs s g) (λ p. on_placed-After pod errors p r.1)

  on_admissible-After :
      (pod : Pod) (cs : List ContainerSpec) (s : Agent)
      → IsGood s
      → After enters enters_chain e s (on_admissible e pod cs s)
  on_admissible-After pod [] s g = pure-After enters enters_chain e finished s g
  on_admissible-After pod (c ∷ cs) s g =
      let read = get_power_profile_requests_from_containers e pod (c ∷ cs) in
      if-After enters enters_chain e (str_eq pod.uid "") (lift (err no_uid))
        (read >>= on_containers e pod) s (err-After enters enters_chain e no_uid s g)
        (bind-After enters enters_chain e s (read s).1 (read s).0 (on_containers e pod)
          (requests-After enters enters_chain e pod (c ∷ cs) s g)
          (λ x. on_containers-After pod x (read s).1))

  pub handle_running-After :
      (pod : Pod) (s : Agent) → IsGood s → After enters enters_chain e s (handle_running e pod s)
  handle_running-After pod s g =
      let r = get_admissible_containers e pod s in
      bind-After enters enters_chain e s r.1 r.0 (on_admissible e pod)
        (admissible-After enters enters_chain e pod s g) (λ cs. on_admissible-After pod cs r.1)

  release-After :
      (cs : List PowerContainer) (s : Agent)
      → IsGood s
      → After leaves leaves_chain e s (release_containers e cs s)
  unfolding release_containers
  release-After [] s g = pure-After leaves leaves_chain e [] s g
  release-After (c ∷ cs) s g =
      then-After leaves leaves_chain e (on_host (move_cpu_ids e.platform shared c.cpu_ids))
        (λ u. release_containers e cs >>= λ rest. pure (c.cpu_ids ++ rest)) s
        (move-After leaves leaves_chain e s shared c.cpu_ids known g tt
          (λ x m. unfold same_pool in refl))
        (λ u t h.
          then-After leaves leaves_chain e (release_containers e cs)
            (λ rest. pure (c.cpu_ids ++ rest)) t (release-After cs t h)
            (λ rest. pure-After leaves leaves_chain e (c.cpu_ids ++ rest)))

  tear_down-After :
      (uid : String) (cpus : List ℕ) (s : Agent)
      → IsGood s
      → After leaves leaves_chain e s (tear_down e uid cpus s)
  tear_down-After uid cpus s g =
      let t = record s {
        connections = close_connection uid s.connections;
        scaling = remove_cpu_scaling cpus s.scaling;
      } in
      if-After leaves leaves_chain e e.scaling_enabled
        (modify λ t. record t {
          connections = close_connection uid t.connections;
          scaling = remove_cpu_scaling cpus t.scaling;
        })
        (pure tt) s (After-quiet leaves leaves_chain e (ok tt) s t refl g.2 g (λ w. refl))
        (pure-After leaves leaves_chain e tt s g)

  on_node_state-After :
      (pod : Pod) (a : Answer (Option CpuPoolsStatus)) (s : Agent)
      → IsGood s
      → After leaves leaves_chain e s (on_node_state e pod a s)
  on_node_state-After pod not_found s g = pure-After leaves leaves_chain e tt s g
  on_node_state-After pod failed s g = err-After leaves leaves_chain e api_failed s g
  on_node_state-After pod (found none) s g = pure-After leaves leaves_chain e tt s g
  on_node_state-After pod (found (some status)) s g =
      let m = release_containers e (entry_containers pod.uid status.exclusive) in
      bind-After leaves leaves_chain e s (m s).1 (m s).0 (tear_down e pod.uid)
        (release-After (entry_containers pod.uid status.exclusive) s g)
        (λ cpus. tear_down-After pod.uid cpus (m s).1)

  pub handle_pod_deletion-After :
      (pod : Pod) (s : Agent)
      → IsGood s
      → After leaves leaves_chain e s (handle_pod_deletion e pod s)
  unfolding handle_pod_deletion remove_power_node_status_exclusive_entry
  handle_pod_deletion-After pod s g =
      let remove = remove_power_node_status_exclusive_entry e pod.uid in
      then-After leaves leaves_chain e (forget_pod pod.name pod.namespace)
        (λ u. ask (λ n. e.server.get_node_state n e.node_name) >>= λ status.
          on_node_state e pod status >> (remove >> pure finished))
        s (forget_pod-After leaves leaves_chain e pod.name pod.namespace s g)
        (λ u t h.
          ask-After leaves leaves_chain e (λ n. e.server.get_node_state n e.node_name)
            (λ status. on_node_state e pod status >> (remove >> pure finished)) t h
            (λ status v i.
              then-After leaves leaves_chain e (on_node_state e pod status)
                (λ u. remove >> pure finished) v (on_node_state-After pod status v i)
                (λ u w j.
                  then-After leaves leaves_chain e remove (λ u. pure finished) w
                    (ask-After leaves leaves_chain e e.server.patch_status (λ a. removed a pod.uid)
                      w j (λ a. removed-After leaves leaves_chain e a pod.uid))
                    (λ u. pure-After leaves leaves_chain e finished))))

  on_pod-After :
      (name namespace : String) (a : Answer Pod) (s : Agent)
      → IsGood s
      → After any_move any_chain e s (on_pod e name namespace a s)
  on_pod-After name namespace not_found s g =
      then-After any_move any_chain e (forget_pod name namespace) (λ u. pure finished) s
        (forget_pod-After any_move any_chain e name namespace s g)
        (λ u. pure-After any_move any_chain e finished)
  on_pod-After name namespace failed s g = err-After any_move any_chain e api_failed s g
  on_pod-After name namespace (found pod) s g =
      if-After any_move any_chain e (pod.deleting || is_succeeded pod.phase)
        (handle_pod_deletion e pod)
        (if is_running pod.phase then handle_running e pod else lift (err not_running)) s
        (After-weaken leaves any_move leaves_chain any_chain e s (handle_pod_deletion e pod s)
          (λ p q h. refl) (handle_pod_deletion-After pod s g))
        (if-After any_move any_chain e (is_running pod.phase) (handle_running e pod)
          (lift (err not_running)) s
          (After-weaken enters any_move enters_chain any_chain e s (handle_running e pod s)
            (λ p q h. refl) (handle_running-After pod s g))
          (err-After any_move any_chain e not_running s g))

  reconcile_pod-After :
      (name namespace : String) (s : Agent)
      → IsGood s
      → After any_move any_chain e s (reconcile_pod e name namespace s)
  unfolding reconcile_pod
  reconcile_pod-After name namespace s g =
      ask-After any_move any_chain e (λ n. e.server.get_pod n name namespace)
        (on_pod e name namespace) s g (on_pod-After name namespace)

-- With the core types known, whatever the server and the sockets answer and whichever writes fail, and
-- also where the code panics or waits: a reconciliation of a pod that starts with well-formed pools, a
-- free mutex, and remembered pods of which no two have one name and namespace, leaves them so, and the
-- host has the CPUs and the exclusive pools that it had.
pub reconcile_pod-IsGood :
    (e : Setup) (name namespace : String) (s : Agent)
    → e.platform.freq.core_types ≢ []
    → IsWellFormed s.host
    → s.host.locked ≡ false
    → HasUniquePods s.pods
    → let t = (reconcile_pod e name namespace s).1 in
      IsWellFormed t.host
      × (t.host.locked ≡ false)
      × HasUniquePods t.pods
      × (t.host.all_cpus ≡ s.host.all_cpus)
      × (t.host.exclusive_pools ≡ s.host.exclusive_pools)
reconcile_pod-IsGood e name namespace s known w free u =
    let a = reconcile_pod-After e known name namespace s (w, free, u) in
    (a.good.0, a.good.1, a.good.2, a.keeps.all_cpus_kept, a.keeps.exclusive_pools_kept)

-- If, moreover, the control plane's socket answers whenever it is asked, the reconciliation comes back,
-- with an outcome or an error: it neither panics nor waits for the mutex.
pub reconcile_pod-returns :
    (e : Setup) (name namespace : String) (s : Agent)
    → e.platform.freq.core_types ≢ []
    → IsWellFormed s.host
    → s.host.locked ≡ false
    → HasUniquePods s.pods
    → Answers e
    → returns (reconcile_pod e name namespace s).0 ≡ true
reconcile_pod-returns e name namespace s known w free u answers =
    (reconcile_pod-After e known name namespace s (w, free, u)).comes_back answers
