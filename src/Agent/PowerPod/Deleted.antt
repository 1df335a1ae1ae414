-- ===== src/Agent/PowerPod/Deleted.antt =====
-- What is left of a pod after its deletion was handled (handlePodDeletion of
-- controllers/powerpod_controller.go).
use cluster_power_manager.Base.{
  ℕ, ◌+◌, ◌≡◌, ◌≢◌, refl, sym, ap, subst, ◌∙◌, Bool, true, false, ◌||◌, ◌&&◌, List, [], ◌∷◌, ◌++◌,
  none, some, String, ◌⊎◌, All, eq_iff, eq_refl, str_eq, arith, if◌then◌else◌, inl, inr, contains,
  lookup, Bool-cases,
}
use cluster_power_manager.Power.Sysfs.{
  Result, ok, err, panic, deadlock, Action, pure, bind_result, ◌>>=◌, ◌>>◌,
}
use cluster_power_manager.Power.Host.{shared, Host}
use cluster_power_manager.Power.Cpu.Moves.{IsConsistent, succeeds, admits}
use cluster_power_manager.Power.Pool.{move_cpu_ids}
use cluster_power_manager.Power.Pool.Loops.{Looped}
use cluster_power_manager.Power.Pool.Invariant.{IsWellFormed}
use cluster_power_manager.Power.Pool.Outside.{move_cpu_ids-Looped}
use cluster_power_manager.Scaling.Manager.{remove_cpu_scaling, remove-workers}
use cluster_power_manager.State.Pods.{GuaranteedPod, is_pod, entries}
use cluster_power_manager.State.Deletion.{
  delete_pod_from_state, delete_pod_from_state_lem, without, HasUniquePods,
}
use cluster_power_manager.Agent.Cluster.{
  Answer, found, not_found, failed, PowerContainer, ExclusiveCpuPoolStatus, CpuPoolsStatus, Pod,
}
use cluster_power_manager.Agent.Machine.{Setup, Agent, ask, modify}
use cluster_power_manager.Agent.ScalingOpts.{close_connection}
use cluster_power_manager.Agent.PowerPod.{
  Outcome, finished, removed, remove_power_node_status_exclusive_entry, forget_pod,
  release_containers, entry_containers, tear_down, on_node_state, handle_pod_deletion,
}

-- The CPUs of the containers.
abbrev pub container_cpus : List PowerContainer → List ℕ
container_cpus [] = []
container_cpus (c ∷ cs) = c.cpu_ids ++ container_cpus cs

-- The containers of the first entry with the UID, or none where no entry has it.
abbrev pub IsHeld : String → List ExclusiveCpuPoolStatus → List PowerContainer → Type 0
IsHeld uid entries cs =
    ((before : List ExclusiveCpuPoolStatus) × (after : List ExclusiveCpuPoolStatus)
      × (x : ExclusiveCpuPoolStatus) × (entries ≡ before ++ x ∷ after)
      × All (λ y. y.pod_uid ≢ uid) before
      × (x.pod_uid ≡ uid)
      × (cs ≡ x.power_containers))
    ⊎ (All (λ y. y.pod_uid ≢ uid) entries × (cs ≡ []))

not_there :
    (uid : String) (entries : List ExclusiveCpuPoolStatus)
    → All (λ y. y.pod_uid ≢ uid) entries
    → entry_containers uid entries ≡ []
unfolding entry_containers
not_there uid [] a = refl
not_there uid (y ∷ entries) a = ground (arith, eq_iff y.pod_uid uid, a.0, not_there uid entries a.1)

first_there :
    (uid : String) (before after : List ExclusiveCpuPoolStatus) (x : ExclusiveCpuPoolStatus)
    → All (λ y. y.pod_uid ≢ uid) before
    → x.pod_uid ≡ uid
    → entry_containers uid (before ++ x ∷ after) ≡ x.power_containers
unfolding entry_containers
first_there uid [] after x a e = rw e (rw (eq_refl uid) refl)
first_there uid (y ∷ before) after x a e =
    ground (arith, eq_iff y.pod_uid uid, a.0, first_there uid before after x a.1 e)

entry_containers-IsHeld :
    (uid : String) (entries : List ExclusiveCpuPoolStatus) (cs : List PowerContainer)
    → IsHeld uid entries cs
    → entry_containers uid entries ≡ cs
entry_containers-IsHeld uid entries cs (inl (before, after, x, e, a, own, same)) =
    ap (entry_containers uid) e ∙ first_there uid before after x a own ∙ sym same
entry_containers-IsHeld uid entries cs (inr (a, same)) = not_there uid entries a ∙ sym same

-- The CPUs that the status has for the pod, as the code finds them.
abbrev status_cpus : String → CpuPoolsStatus → List ℕ
status_cpus uid status = container_cpus (entry_containers uid status.exclusive)

-- The connections and workers of the pod are gone, and the pod is forgotten, which it is after an error
-- too.
abbrev pub IsDeleted : Bool → Pod → List ℕ → Agent → Result Outcome → Agent → Type 0
IsDeleted enabled pod cpus s (ok o) t =
    ((x : ℕ) → t.host.pool_of x ≡ (if contains x cpus then shared else s.host.pool_of x))
    × ((x : ℕ)
        → t.scaling.workers x ≡ (if enabled && contains x cpus then none else s.scaling.workers x))
    × ((if enabled then lookup pod.uid t.connections else none) ≡ none)
    × (entries pod.name pod.namespace t.pods ≡ 0)
IsDeleted enabled pod cpus s (err x) t = entries pod.name pod.namespace t.pods ≡ 0
IsDeleted enabled pod cpus s _ t = Unit {0}

-- The containers' release moves just their CPUs.
abbrev IsReleased : List PowerContainer → Agent → Result (List ℕ) → Agent → Type 0
IsReleased cs s (ok ids) t =
    (ids ≡ container_cpus cs)
    × ((x : ℕ)
        → t.host.pool_of x ≡ (if contains x (container_cpus cs) then shared else s.host.pool_of x))
    × (t.scaling ≡ s.scaling)
    × (t.connections ≡ s.connections)
    × (t.pods ≡ s.pods)
IsReleased cs s (err x) t = t.pods ≡ s.pods
IsReleased cs s _ t = Unit {0}

closed : (uid : String) (m : List (String × List ℕ)) → lookup uid (close_connection uid m) ≡ none
unfolding close_connection
closed uid [] = refl
closed uid ((k, v) ∷ m) = elim (Bool-cases (str_eq k uid)) [
  | inl a ↦ rw a (closed uid m)
  | inr a ↦ rw a (rw a (closed uid m))
]

pub contains-append : (x : ℕ) (l m : List ℕ) → contains x (l ++ m) ≡ (contains x l || contains x m)
contains-append x [] m = refl
contains-append x (y ∷ l) m = ground (arith, contains-append x l m)

forget_pod_run :
    (name namespace : String) (s : Agent) {pods : List GuaranteedPod}
    → delete_pod_from_state name namespace s.pods ≡ ok pods
    → forget_pod name namespace s ≡ (ok tt, record s { pods = pods })
unfolding forget_pod
forget_pod_run name namespace s gone = rw (forget_pod, gone) refl

module _ (e : Setup) (known : e.platform.freq.core_types ≢ []) where
  moved_by :
      (ids : List ℕ) (h : Host)
      → IsConsistent h
      → h.locked ≡ false
      → Looped h ids (λ c q. shared) (λ c q. admits q shared) (move_cpu_ids e.platform shared ids h)
  moved_by ids h i free = move_cpu_ids-Looped e.platform shared ids h known i free

  release-IsReleased :
      (cs : List PowerContainer) (s : Agent)
      → IsConsistent s.host
      → s.host.locked ≡ false
      → let r = release_containers e cs s in IsReleased cs s r.0 r.1
  unfolding release_containers
  release-IsReleased [] s i free = (refl, λ x. refl, refl, refl, refl)
  release-IsReleased (c ∷ cs) s i free =
      go (move_cpu_ids e.platform shared c.cpu_ids s.host).0 (λ d. l.placed d)
        (release-IsReleased cs t l.consistent (l.keeps.locked_kept ∙ free))
    where
      l :
          Looped s.host c.cpu_ids
            (λ x q. shared)
            (λ x q. admits q shared)
            (move_cpu_ids e.platform shared c.cpu_ids s.host)
      l = moved_by c.cpu_ids s.host i free

      t : Agent
      t = record s { host = (move_cpu_ids e.platform shared c.cpu_ids s.host).1 }

      joined :
          (a : Result (List ℕ)) (u : Agent)
          → ((x : ℕ)
              → t.host.pool_of x ≡ (if contains x c.cpu_ids then shared else s.host.pool_of x))
          → IsReleased cs t a u
          → let r = bind_result a u (λ rest. pure (c.cpu_ids ++ rest)) in
            IsReleased (c ∷ cs) s r.0 r.1
      joined (ok ids) u p q = (
        ap (λ l. c.cpu_ids ++ l) q.0,
        (λ x. ground (arith, p x, q.1 x, contains-append x c.cpu_ids (container_cpus cs))),
        q.2,
        q.3,
        q.4,
      )
      joined (err x) u p q = q
      joined panic u p q = tt
      joined deadlock u p q = tt

      go :
          (a : Result (Unit {0}))
          → (succeeds a ≡ true
              → (x : ℕ)
              → t.host.pool_of x ≡ (if contains x c.cpu_ids then shared else s.host.pool_of x))
          → (let r = release_containers e cs t in IsReleased cs t r.0 r.1)
          → let r =
              bind_result a t (λ u. release_containers e cs >>= λ rest. pure (c.cpu_ids ++ rest)) in
            IsReleased (c ∷ cs) s r.0 r.1
      go (ok u) p q = joined (release_containers e cs t).0 (release_containers e cs t).1 (p refl) q
      go (err x) p q = refl
      go panic p q = tt
      go deadlock p q = tt

  -- The status is patched last.
  patched_last :
      (enabled : Bool) (pod : Pod) (cpus : List ℕ) (s : Agent) (a : Answer (Unit {0})) (t : Agent)
      → IsDeleted enabled pod cpus s (ok finished) t
      → let r = bind_result (removed a pod.uid t).0 (removed a pod.uid t).1 (λ u. pure finished) in
        IsDeleted enabled pod cpus s r.0 r.1
  patched_last enabled pod cpus s (found u) t d = d
  patched_last enabled pod cpus s not_found t d = d
  patched_last enabled pod cpus s failed t d = d.3

  torn_down :
      (enabled : Bool) (pod : Pod) (cpus : List ℕ) (s t : Agent)
      → ((x : ℕ) → t.host.pool_of x ≡ (if contains x cpus then shared else s.host.pool_of x))
      → t.scaling ≡ s.scaling
      → entries pod.name pod.namespace t.pods ≡ 0
      → let stop : Action Agent (Unit {0}) = modify λ t. record t {
        connections = close_connection pod.uid t.connections;
        scaling = remove_cpu_scaling cpus t.scaling;
      } in
        let r : Result (Unit {0}) × Agent = (if enabled then stop else pure tt) t in
        (succeeds r.0 ≡ true) × IsDeleted enabled pod cpus s (ok finished) r.1
  torn_down true pod cpus s t p w n = (
    refl,
    (
      p,
      (λ x.
          remove-workers cpus t.scaling x
          ∙ ap (λ m. if contains x cpus then none else m.workers x) w),
      closed pod.uid t.connections,
      n,
    ),
  )
  torn_down false pod cpus s t p w n = (refl, (p, (λ x. ap (λ m. m.workers x) w), refl, n))

  then_patched :
      (enabled : Bool) (pod : Pod) (cpus : List ℕ) (s : Agent) (a : Result (Unit {0})) (t : Agent)
      → IsDeleted enabled pod cpus s (ok finished) t
      → let f =
          bind_result a t
            (λ x. remove_power_node_status_exclusive_entry e pod.uid >> pure finished) in
        IsDeleted enabled pod cpus s f.0 f.1
  unfolding remove_power_node_status_exclusive_entry
  then_patched enabled pod cpus s (ok x) t d =
      patched_last enabled pod cpus s (e.server.patch_status t.calls)
        (record t { calls = t.calls + 1 }) d
  then_patched enabled pod cpus s (err x) t d = d.3
  then_patched enabled pod cpus s panic t d = tt
  then_patched enabled pod cpus s deadlock t d = tt

  after_release :
      (pod : Pod) (cs : List PowerContainer) (s u : Agent) (a : Result (List ℕ)) (t : Agent)
      → u.host ≡ s.host
      → u.scaling ≡ s.scaling
      → entries pod.name pod.namespace u.pods ≡ 0
      → IsReleased cs u a t
      → let r = bind_result a t (tear_down e pod.uid) in
        let f =
          bind_result r.0 r.1
            (λ x. remove_power_node_status_exclusive_entry e pod.uid >> pure finished) in
        IsDeleted e.scaling_enabled pod (container_cpus cs) s f.0 f.1
  after_release pod cs s u (ok ids) t h w n q =
      let r = tear_down e pod.uid ids t in
      let d =
        torn_down e.scaling_enabled pod ids s t
          (λ x.
            q.1 x
            ∙ ap (λ k. if contains x (container_cpus cs) then shared else k.pool_of x) h
            ∙ ap (λ l. if contains x l then shared else s.host.pool_of x) (sym q.0))
          (q.2 ∙ w) (ap (entries pod.name pod.namespace) q.4 ∙ n) in
      subst
        (λ l.
          let f =
            bind_result r.0 r.1
              (λ x. remove_power_node_status_exclusive_entry e pod.uid >> pure finished) in
          IsDeleted e.scaling_enabled pod l s f.0 f.1)
        q.0 (then_patched e.scaling_enabled pod ids s r.0 r.1 d.1)
  after_release pod cs s u (err x) t h w n q = ap (entries pod.name pod.namespace) q ∙ n
  after_release pod cs s u panic t h w n q = tt
  after_release pod cs s u deadlock t h w n q = tt

  deletion-IsDeleted :
      (pod : Pod) (s : Agent) (status : CpuPoolsStatus)
      → IsConsistent s.host
      → s.host.locked ≡ false
      → HasUniquePods s.pods
      → e.server.get_node_state s.calls e.node_name ≡ found (some status)
      → let r = handle_pod_deletion e pod s in
        IsDeleted e.scaling_enabled pod (status_cpus pod.uid status) s r.0 r.1
  unfolding handle_pod_deletion forget_pod
  deletion-IsDeleted pod s status i free u answer =
      let (gone, none_left) =
        delete_pod_from_state_lem pod.name pod.namespace s.pods (u pod.name pod.namespace) in
      let t = record s {
        pods = without (is_pod pod.name pod.namespace) s.pods;
        calls = s.calls + 1;
      } in
      let cs = entry_containers pod.uid status.exclusive in
      let r = release_containers e cs t in
      let finish : Unit {0} → Action Agent Outcome =
        λ x. remove_power_node_status_exclusive_entry e pod.uid >> pure finished in
      let go_on : Unit {0} → Action Agent Outcome = λ x.
        ask (λ n. e.server.get_node_state n e.node_name) >>= λ status.
        on_node_state e pod status >>= finish in
      subst
        (λ r.
          let f = bind_result r.0 r.1 go_on in
          IsDeleted e.scaling_enabled pod (status_cpus pod.uid status) s f.0 f.1)
        (sym (forget_pod_run pod.name pod.namespace s gone))
        (subst
          (λ a.
            let f = (on_node_state e pod a >>= finish) t in
            IsDeleted e.scaling_enabled pod (status_cpus pod.uid status) s f.0 f.1)
          (sym answer)
          (after_release pod cs s t r.0 r.1 refl refl none_left (release-IsReleased cs t i free)))

-- With the core types known, well-formed pools, a free mutex, remembered pods under names of their own
-- and a status that the server has, whose first entry with the pod's UID has the given containers (or
-- which has no such entry, and there are none): when the deletion of a pod ends without an error, the
-- CPUs of those containers are in the shared pool and every other CPU is where it was; with DPDK
-- scaling enabled those CPUs have no worker and the pod has no telemetry connection; and every other
-- worker is as it was. When it ends with or without an error, the pod is not remembered.
pub handle_pod_deletion-IsDeleted :
    (e : Setup) (pod : Pod) (s : Agent) (status : CpuPoolsStatus) (cs : List PowerContainer)
    → e.platform.freq.core_types ≢ []
    → IsWellFormed s.host
    → s.host.locked ≡ false
    → HasUniquePods s.pods
    → e.server.get_node_state s.calls e.node_name ≡ found (some status)
    → IsHeld pod.uid status.exclusive cs
    → let r = handle_pod_deletion e pod s in
      IsDeleted e.scaling_enabled pod (container_cpus cs) s r.0 r.1
handle_pod_deletion-IsDeleted e pod s status cs known w free u answer held =
    subst
      (λ l.
        let r = handle_pod_deletion e pod s in
        IsDeleted e.scaling_enabled pod (container_cpus l) s r.0 r.1)
      (entry_containers-IsHeld pod.uid status.exclusive cs held)
      (deletion-IsDeleted e known pod s status w.consistent free u answer)
