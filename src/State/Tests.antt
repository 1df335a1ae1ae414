-- ===== src/State/Tests.antt =====
-- A run of the update of a pod.
use cluster_power_manager.Base.{ℕ, arith, ◌+◌, ◌≡◌, refl, ◌==◌, ◌&&◌, List, [], ◌∷◌, if◌then◌else◌}
use cluster_power_manager.State.Pods.{
  GuaranteedPod, is_pod, entries, update_state_guaranteed_pods, get_pod_from_state,
  get_cpus_from_pod_state, update_state_guaranteed_pods_lem,
}
use cluster_power_manager.Power.Sysfs.{ok, panic}
use cluster_power_manager.State.Deletion.{
  delete_while_ranging, without, delete_pod_from_state, delete_pod_from_state_lem, update_pod,
  delete_pod, pod_state_steps, HasUniquePods, pod_state_steps-HasUniquePods,
}

abbrev pod : List ℕ → GuaranteedPod
pod cpus = record {
  node = "worker";
  name = "dpdk";
  namespace = "apps";
  uid = "1";
  containers =
      (record {
        name = "main";
        id = "c1";
        pod = "dpdk";
        pod_uid = "1";
        exclusive_cpus = cpus;
        power_profile = "performance";
      })
      ∷ [];
}

pod_cpus : get_cpus_from_pod_state (pod (4 ∷ 5 ∷ [])).containers ≡ 4 ∷ 5 ∷ []
unfolding get_cpus_from_pod_state
pod_cpus = refl

update_state_guaranteed_pods_lem_example :
    (get_pod_from_state "dpdk" "apps"
        (update_state_guaranteed_pods (pod (4 ∷ [])) (pod (2 ∷ 3 ∷ []) ∷ []))
      ≡ (if is_pod "dpdk" "apps" (pod (4 ∷ []))
          then pod (4 ∷ [])
          else get_pod_from_state "dpdk" "apps" (pod (2 ∷ 3 ∷ []) ∷ [])))
    × (entries "dpdk" "apps" (update_state_guaranteed_pods (pod (4 ∷ [])) (pod (2 ∷ 3 ∷ []) ∷ []))
        ≡ entries "dpdk" "apps" (pod (2 ∷ 3 ∷ []) ∷ [])
          + (if is_pod "dpdk" "apps" (pod (4 ∷ []))
                && entries "dpdk" "apps" (pod (2 ∷ 3 ∷ []) ∷ []) == 0
              then 1
              else 0))
update_state_guaranteed_pods_lem_example =
    update_state_guaranteed_pods_lem (pod (4 ∷ [])) (pod (2 ∷ 3 ∷ []) ∷ []) "dpdk" "apps"

abbrev other : GuaranteedPod
other = record { node = "worker"; name = "web"; namespace = "apps"; uid = "2"; containers = [] }

delete_pod_from_state_lem_example :
    (delete_pod_from_state "dpdk" "apps" (pod (4 ∷ []) ∷ other ∷ [])
      ≡ ok (without (is_pod "dpdk" "apps") (pod (4 ∷ []) ∷ other ∷ [])))
    × (entries "dpdk" "apps" (without (is_pod "dpdk" "apps") (pod (4 ∷ []) ∷ other ∷ [])) ≡ 0)
delete_pod_from_state_lem_example =
    delete_pod_from_state_lem "dpdk" "apps" (pod (4 ∷ []) ∷ other ∷ []) (omega arith)

-- Two entries of one pod make the loop slice past the end.
deletion_of_two : delete_pod_from_state "dpdk" "apps" (pod [] ∷ pod (4 ∷ []) ∷ []) ≡ panic
unfolding delete_pod_from_state delete_while_ranging
deletion_of_two = refl

pod_state_steps-HasUniquePods_example :
    (qs : List GuaranteedPod) × (pod_state_steps
        (update_pod (pod (4 ∷ [])) ∷ update_pod other ∷ delete_pod "dpdk" "apps" ∷ [])
        []
      ≡ ok qs)
    × HasUniquePods qs
pod_state_steps-HasUniquePods_example =
    pod_state_steps-HasUniquePods
      (update_pod (pod (4 ∷ [])) ∷ update_pod other ∷ delete_pod "dpdk" "apps" ∷ []) []
      (λ n s. omega arith)
