-- ===== src/Agent/PowerContainers/Reading.antt =====
-- Reading what a pod requests leaves the pools alone, and comes back unless the control plane's socket
-- fails (controllers/powerpod_controller.go, pkg/podresourcesclient).
use cluster_power_manager.Base.{
  ℕ, zero, suc, ◌+◌, ◌≡◌, refl, Bool, true, false, List, [], ◌∷◌, Option, none, some, String,
  str_eq, if◌then◌else◌, inl, inr, ◌⊎◌, ℤ,
}
use cluster_power_manager.Power.Sysfs.{
  Error, api_failed, not_available, Result, ok, Action, pure, lift, ◌>>=◌,
}
use cluster_power_manager.Power.Host.{Pool}
use cluster_power_manager.Power.Cpu.Moves.{returns}
use cluster_power_manager.Power.Pool.{get_exclusive_pool}
use cluster_power_manager.Agent.Cluster.{
  Server, Answer, found, not_found, failed, LabelSelector, PowerProfile, ContainerSpec, Pod,
  PodResources,
}
use cluster_power_manager.Agent.Machine.{Setup, Agent, attempt, ask, caught}
use cluster_power_manager.Agent.Profiles.{
  is_empty, selects_all, matched, node_matches_selector, with_labels, node_matches_power_profile,
  on_pool, on_profile, validate_profile_availability_on_node,
}
use cluster_power_manager.Agent.Requests.{
  is_some, parse_containers, kubelet_answer, control_plane_answer, list_resources,
  list_control_plane, has_cpus, settle_answer, retry_control_plane, on_kubelet, get_container_cpus,
  get_container_profile_from_requests, admissible, all_pod_containers, get_admissible_containers,
}
use cluster_power_manager.Agent.PowerContainers.{
  power_container, on_cores, on_availability, on_request, append_found,
  get_power_profile_requests_from_containers,
}
use cluster_power_manager.Agent.After.{
  IsGood, Answers, After, After-quiet, bind-After, attempt-After, pure-After, err-After, ask-After,
  if-After,
}

pub with_labels-returns :
    (server : Server) (ls : LabelSelector) (a : Answer (List (String × String)))
    → returns (with_labels server ls a) ≡ true
unfolding node_matches_selector
with_labels-returns server ls not_found = refl
with_labels-returns server ls failed = refl
with_labels-returns server ls (found labels) = either (selects_all ls) (server.selects ls)
  where
    either :
        (b : Bool) (o : Option (List (String × String) → Bool))
        → returns (if b then ok true else matched labels o) ≡ true
    either true o = refl
    either false none = refl
    either false (some f) = refl

module _ (may : Pool → Pool → Bool)
    (chain : (p q r : Pool) → may p q ≡ true → may q r ≡ true → may p r ≡ true) (e : Setup) where
  -- A result that is a value or an error.
  lift-After :
      {A : Type 0} (r : Result A) (s : Agent)
      → IsGood s
      → (Answers e → returns r ≡ true)
      → After may chain e s (lift r s)
  lift-After r s g b = After-quiet may chain e r s s refl g.2 g b

  node_matches-After :
      (profile : PowerProfile) (node : String) (s : Agent)
      → IsGood s
      → After may chain e s (node_matches_power_profile e profile node s)
  unfolding node_matches_power_profile
  node_matches-After profile node s g =
      let ls = profile.node_selector in
      let k : Answer (List (String × String)) → Action Agent Bool =
        λ labels. lift (with_labels e.server ls labels) in
      if-After may chain e (selects_all ls) (pure true)
        (ask (λ n. e.server.get_node_labels n node) >>= k) s (pure-After may chain e true s g)
        (ask-After may chain e (λ n. e.server.get_node_labels n node) k s g
          (λ labels t h.
            lift-After (with_labels e.server ls labels) t h
              (λ w. with_labels-returns e.server ls labels)))

  on_pool-After :
      (profile : PowerProfile) (node : String) (q : Option Pool) (s : Agent)
      → IsGood s
      → After may chain e s (on_pool e profile node q s)
  on_pool-After profile node none s g = pure-After may chain e false s g
  on_pool-After profile node (some q) s g = node_matches-After profile node s g

  on_profile-After :
      (name node : String) (a : Answer PowerProfile) (s : Agent)
      → IsGood s
      → After may chain e s (on_profile e name node a s)
  on_profile-After name node not_found s g = pure-After may chain e false s g
  on_profile-After name node failed s g = err-After may chain e api_failed s g
  on_profile-After name node (found p) s g =
      on_pool-After p node (get_exclusive_pool s.host name) s g

  validate-After :
      (name node : String) (s : Agent)
      → IsGood s
      → After may chain e s (validate_profile_availability_on_node e name node s)
  unfolding validate_profile_availability_on_node
  validate-After name node s g =
      if-After may chain e (str_eq name "") (pure true)
        (ask (λ n. e.server.get_profile n name) >>= on_profile e name node) s
        (pure-After may chain e true s g)
        (ask-After may chain e (λ n. e.server.get_profile n name) (on_profile e name node) s g
          (on_profile-After name node))

  settle-After :
      (x : (List ℕ) ⊎ Error) (s : Agent) → IsGood s → After may chain e s (settle_answer x s)
  settle-After (inl cpus) s g = pure-After may chain e cpus s g
  settle-After (inr d) s g = err-After may chain e d s g

  kubelet_answer-returns : (a : Option (List PodResources)) → returns (kubelet_answer a) ≡ true
  kubelet_answer-returns none = refl
  kubelet_answer-returns (some r) = refl

  control_plane_answer-returns :
      (a : Option (List PodResources)) → is_some a ≡ true → returns (control_plane_answer a) ≡ true
  control_plane_answer-returns none h = absurd (cc)
  control_plane_answer-returns (some r) h = refl

  list_resources-After :
      {A : Type 0} (k : List PodResources → Action Agent A) (s : Agent)
      → IsGood s
      → ((r : List PodResources) (t : Agent) → IsGood t → After may chain e t (k r t))
      → After may chain e s ((list_resources e >>= k) s)
  unfolding list_resources
  list_resources-After k s g h =
      let t = record s { calls = s.calls + 1 } in
      let r = kubelet_answer (e.server.list_resources s.calls) in
      bind-After may chain e s t r k
        (After-quiet may chain e r s t refl g.2 g
          (λ w. kubelet_answer-returns (e.server.list_resources s.calls)))
        (λ a. h a t)

  list_control_plane-After :
      {A : Type 0} (k : List PodResources → Action Agent A) (s : Agent)
      → IsGood s
      → ((r : List PodResources) (t : Agent) → IsGood t → After may chain e t (k r t))
      → After may chain e s ((list_control_plane e >>= k) s)
  unfolding list_control_plane
  list_control_plane-After k s g h =
      let t = record s { calls = s.calls + 1 } in
      let r = control_plane_answer (e.server.list_control_plane s.calls) in
      bind-After may chain e s t r k
        (After-quiet may chain e r s t refl g.2 g
          (λ w. control_plane_answer-returns (e.server.list_control_plane s.calls) (w s.calls)))
        (λ a. h a t)

  retry-After :
      (pod container : String) (retries : ℕ) (last : (List ℕ) ⊎ Error) (s : Agent)
      → IsGood s
      → After may chain e s (retry_control_plane e pod container retries last s)
  unfolding retry_control_plane
  retry-After pod container zero last s g = settle-After last s g
  retry-After pod container (suc k) last s g =
      list_control_plane-After
        (λ resources.
          let answer = parse_containers e resources pod container in
          let again = retry_control_plane e pod container k answer in
          if has_cpus answer then settle_answer answer else again)
        s g
        (λ r t j.
          let answer = parse_containers e r pod container in
          if-After may chain e (has_cpus answer) (settle_answer answer)
            (retry_control_plane e pod container k answer) t (settle-After answer t j)
            (retry-After pod container k answer t j))

  on_kubelet-After :
      (pod container : String) (x : (List ℕ) ⊎ Error) (s : Agent)
      → IsGood s
      → After may chain e s (on_kubelet e pod container x s)
  on_kubelet-After pod container (inr d) s g = err-After may chain e d s g
  on_kubelet-After pod container (inl cpus) s g =
      if-After may chain e (is_empty cpus) (retry_control_plane e pod container 3 (inl cpus))
        (pure cpus) s (retry-After pod container 3 (inl cpus) s g) (pure-After may chain e cpus s g)

  get_container_cpus-After :
      (pod container : String) (s : Agent)
      → IsGood s
      → After may chain e s (get_container_cpus e pod container s)
  unfolding get_container_cpus
  get_container_cpus-After pod container s g =
      list_resources-After (λ r. on_kubelet e pod container (parse_containers e r pod container)) s
        g (λ r. on_kubelet-After pod container (parse_containers e r pod container))

  -- An error that is caught, and what follows.
  caught-After :
      {A B : Type 0} (m : Action Agent A) (k : A ⊎ Error → Action Agent B) (s : Agent)
      → After may chain e s (m s)
      → ((a : A ⊎ Error) (t : Agent) → IsGood t → After may chain e t (k a t))
      → After may chain e s ((attempt m >>= k) s)
  caught-After m k s f h =
      bind-After may chain e s (m s).1 (caught (m s).0) k (attempt-After may chain e s (m s) f)
        (λ a. h a (m s).1)

  on_availability-After :
      (pod : Pod) (c : ContainerSpec) (profile : String) (n : ℤ) (x : Bool ⊎ Error) (s : Agent)
      → IsGood s
      → After may chain e s (on_availability e pod c profile n x s)
  on_availability-After pod c profile n (inr d) s g = pure-After may chain e (none, []) s g
  on_availability-After pod c profile n (inl false) s g =
      pure-After may chain e
        (some (power_container pod c profile [] (not_available ∷ [])), not_available ∷ []) s g
  on_availability-After pod c profile n (inl true) s g =
      caught-After (get_container_cpus e pod.name c.name)
        (λ text. pure (on_cores pod c profile n text)) s
        (get_container_cpus-After pod.name c.name s g)
        (λ text. pure-After may chain e (on_cores pod c profile n text))

  on_request-After :
      (pod : Pod) (c : ContainerSpec) (x : (String × ℤ) ⊎ Error) (s : Agent)
      → IsGood s
      → After may chain e s (on_request e pod c x s)
  on_request-After pod c (inr d) s g =
      pure-After may chain e (some (power_container pod c "" [] (d ∷ [])), []) s g
  on_request-After pod c (inl (profile, n)) s g =
      if-After may chain e (str_eq profile "") (pure (none, []))
        (attempt (validate_profile_availability_on_node e profile pod.node_name)
          >>= on_availability e pod c profile n)
        s (pure-After may chain e (none, []) s g)
        (caught-After (validate_profile_availability_on_node e profile pod.node_name)
          (on_availability e pod c profile n) s (validate-After profile pod.node_name s g)
          (on_availability-After pod c profile n))

  pub requests-After :
      (pod : Pod) (cs : List ContainerSpec) (s : Agent)
      → IsGood s
      → After may chain e s (get_power_profile_requests_from_containers e pod cs s)
  unfolding get_power_profile_requests_from_containers
  requests-After pod [] s g = pure-After may chain e ([], []) s g
  requests-After pod (c ∷ cs) s g =
      let first = on_request e pod c (get_container_profile_from_requests c) in
      let others = get_power_profile_requests_from_containers e pod cs in
      bind-After may chain e s (first s).1 (first s).0
        (λ found. others >>= λ rest. pure (append_found found rest))
        (on_request-After pod c (get_container_profile_from_requests c) s g)
        (λ found k.
          bind-After may chain e (first s).1 (others (first s).1).1 (others (first s).1).0
            (λ rest. pure (append_found found rest)) (requests-After pod cs (first s).1 k)
            (λ rest. pure-After may chain e (append_found found rest) (others (first s).1).1))

  pub admissible-After :
      (pod : Pod) (s : Agent) → IsGood s → After may chain e s (get_admissible_containers e pod s)
  unfolding get_admissible_containers
  admissible-After pod s g =
      ask-After may chain e (λ n. is_some (e.server.list_control_plane n))
        (λ available. pure (admissible pod available (all_pod_containers pod))) s g
        (λ available. pure-After may chain e (admissible pod available (all_pod_containers pod)))
