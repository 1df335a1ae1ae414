-- ===== src/State/Deletion.antt =====
-- Deletion from a slice inside a loop that ranges over it (`DeletePodFromState` of
-- pkg/podstate/podstate.go, `DeletePowerNodeData` of pkg/state/state.go). The loop's bounds are those of
-- the slice before the first deletion, the elements that it reads those of the array behind the slice
-- now, and a deletion moves the elements of the slice that follow one place forward in that array.
use cluster_power_manager.Base.{
  ℕ, zero, suc, ◌-◌, ◌==◌, ◌≡◌, ◌≤◌, refl, ap, ◌∙◌, Bool, true, false, Bool-cases, eq_iff, sym,
  length-append, count_if-append, inl, inr, List, [], ◌∷◌, ◌++◌, String, str_eq, arith,
  if◌then◌else◌, length, take, drop, count_if,
}
use cluster_power_manager.Power.Sysfs.{Result, ok, err, panic, deadlock}
use cluster_power_manager.State.Pods.{
  GuaranteedPod, is_pod, entries, update_state_guaranteed_pods, update_state_guaranteed_pods_lem,
}

module _ {ℓ} {A : Type ℓ} where
  -- `append(s[:i], s[i+1:]...)` in the array from `i` on, `live` of whose elements are in the slice.
  abbrev pub shifted : ℕ → A → List A → List A
  shifted live x xs = take (live - 1) xs ++ drop (live - 1) (x ∷ xs)

  abbrev pub tail : List A → List A
  tail [] = []
  tail (x ∷ xs) = xs

  -- The element at `i` is in the slice when any from there on is.
  abbrev pub keep : ℕ → A → Result (List A) → Result (List A)
  keep zero x r = r
  keep (suc live) x (ok xs) = ok (x ∷ xs)
  keep (suc live) x (err e) = err e
  keep (suc live) x panic = panic
  keep (suc live) x deadlock = deadlock

  abbrev pub keep_head : ℕ → List A → Result (List A) → Result (List A)
  keep_head live [] r = r
  keep_head live (x ∷ xs) r = keep live x r

  -- The iterations from an index on: `steps` of them, the array from that index, and how many of its
  -- elements are in the slice. The result is the slice from there; slicing past its end panics.
  unfoldable pub delete_while_ranging : (A → Bool) → ℕ → ℕ → List A → Result (List A)
  delete_while_ranging p zero live xs = ok []
  delete_while_ranging p (suc steps) live [] = ok []
  delete_while_ranging p (suc steps) live (x ∷ xs) =
      let next = delete_while_ranging p steps (live - 1) xs in
      let after = delete_while_ranging p steps (live - 2) (tail (shifted live x xs)) in
      if p x
      then if live == 0 then panic else keep_head (live - 1) (shifted live x xs) after
      else keep live x next

  -- What should be left.
  abbrev pub without : (A → Bool) → List A → List A
  without p [] = []
  without p (x ∷ xs) = if p x then without p xs else x ∷ without p xs

  without-none : (p : A → Bool) (xs : List A) → count_if p xs ≡ 0 → without p xs ≡ xs
  without-none p [] h = refl
  without-none p (x ∷ xs) h = ground (arith, without-none p xs)

  delete-none :
      (p : A → Bool) (live : ℕ) (xs : List A)
      → count_if p xs ≡ 0
      → delete_while_ranging p (length xs) live xs ≡ ok (take live xs)
  unfolding delete_while_ranging
  delete-none p zero [] h = refl
  delete-none p (suc l) [] h = refl
  delete-none p zero (x ∷ xs) h = ground (arith, delete-none p zero xs)
  delete-none p (suc l) (x ∷ xs) h =
      let e : suc l - 1 ≡ l = omega arith in rw e (ground (arith, delete-none p l xs))

  take_all : (xs ys : List A) → take (length xs) (xs ++ ys) ≡ xs
  take_all [] ys = refl
  take_all (x ∷ xs) ys = ap (λ l. x ∷ l) (take_all xs ys)

  take-length : (xs : List A) → take (length xs) xs ≡ xs
  take-length [] = refl
  take-length (x ∷ xs) = ap (λ l. x ∷ l) (take-length xs)

  abbrev last : A → List A → A
  last x [] = x
  last x (y ∷ ys) = last y ys

  drop-last : (x : A) (xs : List A) → drop (length xs) (x ∷ xs) ≡ last x xs ∷ []
  drop-last x [] = refl
  drop-last x (y ∷ ys) = drop-last y ys

  count_if-last :
      (p : A → Bool) (x : A) (xs : List A)
      → count_if p (x ∷ xs) ≡ 0
      → count_if p (last x xs ∷ []) ≡ 0
  count_if-last p x [] h = h
  count_if-last p x (y ∷ ys) h = count_if-last p y ys (ground arith)

  -- After the deletion at the head the loop reads the elements that follow, the last of them twice.
  delete-shifted :
      (p : A → Bool) (y : A) (ys : List A)
      → count_if p (y ∷ ys) ≡ 0
      → delete_while_ranging p (suc (length ys)) (length ys) (ys ++ (last y ys ∷ [])) ≡ ok ys
  delete-shifted p y ys h =
      ap (λ k. delete_while_ranging p k (length ys) (ys ++ (last y ys ∷ []))) (sym size)
      ∙ delete-none p (length ys) (ys ++ (last y ys ∷ [])) none_left
      ∙ ap ok (take_all ys (last y ys ∷ []))
    where
      size : length (ys ++ (last y ys ∷ [])) ≡ suc (length ys)
      size = omega (arith, length-append ys (last y ys ∷ []))

      none_left : count_if p (ys ++ (last y ys ∷ [])) ≡ 0
      none_left = ground (arith, count_if-append p ys (last y ys ∷ []), count_if-last p y ys h)

  delete_match :
      (p : A → Bool) (k n : ℕ) (x : A) (xs arr : List A)
      → p x ≡ true
      → take n xs ++ drop n (x ∷ xs) ≡ arr
      → delete_while_ranging p (suc k) (suc n) (x ∷ xs)
        ≡ keep_head n arr (delete_while_ranging p k (n - 1) (tail arr))
  unfolding delete_while_ranging
  delete_match p k n x xs arr e a =
      let one : suc n - 1 ≡ n = omega arith in
      let two : suc n - 2 ≡ n - 1 = omega arith in
      let some_left : suc n == 0 ≡ false = ground arith in
      rw e (
        rw some_left
          (rw one (rw two (ap (λ l. keep_head n l (delete_while_ranging p k (n - 1) (tail l))) a))))

  delete_head :
      (p : A → Bool) (x : A) (xs : List A)
      → p x ≡ true
      → count_if p xs ≡ 0
      → delete_while_ranging p (length (x ∷ xs)) (length (x ∷ xs)) (x ∷ xs) ≡ ok xs
  unfolding delete_while_ranging
  delete_head p x [] e h = rw e refl
  delete_head p x (y ∷ ys) e h =
      let m = length ys in
      let arr : take (suc m) (y ∷ ys) ++ drop (suc m) (x ∷ y ∷ ys) ≡ y ∷ (ys ++ (last y ys ∷ [])) =
        ap (λ l. (y ∷ l) ++ drop m (y ∷ ys)) (take-length ys)
        ∙ ap (λ l. y ∷ (ys ++ l)) (drop-last y ys) in
      let less : suc m - 1 ≡ m = omega arith in
      delete_match p (suc m) (suc m) x (y ∷ ys) (y ∷ (ys ++ (last y ys ∷ []))) e arr
      ∙ ap (λ k. keep (suc m) y (delete_while_ranging p (suc m) k (ys ++ (last y ys ∷ [])))) less
      ∙ ap (keep (suc m) y) (delete-shifted p y ys h)

  -- Where at most one element passes the test, the loop ends with all the others, in their order.
  delete-one :
      (p : A → Bool) (xs : List A)
      → count_if p xs ≤ 1
      → delete_while_ranging p (length xs) (length xs) xs ≡ ok (without p xs)
  unfolding delete_while_ranging
  delete-one p [] h = refl
  delete-one p (x ∷ xs) h = elim (Bool-cases (p x)) [
    | inl e ↦
        delete_head p x xs e (ground (arith, e))
        ∙ ap ok (sym (rw e (without-none p xs (ground (arith, e)))))
    | inr e ↦
        (let one : suc (length xs) - 1 ≡ length xs = omega arith in
          rw e (rw one (ap (keep (suc (length xs)) x) (delete-one p xs (ground (arith, e))))))
  ]

unfoldable pub delete_pod_from_state :
    String → String → List GuaranteedPod → Result (List GuaranteedPod)
delete_pod_from_state name namespace pods =
    delete_while_ranging (is_pod name namespace) (length pods) (length pods) pods

unfoldable pub delete_power_node_data : String → List String → Result (List String)
delete_power_node_data name nodes =
    delete_while_ranging (λ n. str_eq n name) (length nodes) (length nodes) nodes

unfoldable pub update_power_node_data : String → List String → List String
update_power_node_data name [] = name ∷ []
update_power_node_data name (n ∷ ns) =
    let rest = update_power_node_data name ns in if str_eq name n then n ∷ ns else n ∷ rest

count_if-without :
    {A : Type 0} (p q : A → Bool) (xs : List A) → count_if q (without p xs) ≤ count_if q xs
count_if-without p q [] = omega arith
count_if-without p q (x ∷ xs) = ground (arith, count_if-without p q xs)

count_if-without_self : {A : Type 0} (p : A → Bool) (xs : List A) → count_if p (without p xs) ≡ 0
count_if-without_self p [] = refl
count_if-without_self p (x ∷ xs) = ground (arith, count_if-without_self p xs)

-- What the reconciler does with the pods that it remembers.
pub data PodStateStep : Type 0 where
  update_pod : GuaranteedPod → PodStateStep
  delete_pod : String → String → PodStateStep

abbrev pub pod_state_step : PodStateStep → List GuaranteedPod → Result (List GuaranteedPod)
pod_state_step (update_pod pod) pods = ok (update_state_guaranteed_pods pod pods)
pod_state_step (delete_pod name namespace) pods = delete_pod_from_state name namespace pods

abbrev pub then_steps :
    (List GuaranteedPod → Result (List GuaranteedPod))
    → Result (List GuaranteedPod)
    → Result (List GuaranteedPod)
then_steps f (ok pods) = f pods
then_steps f (err e) = err e
then_steps f panic = panic
then_steps f deadlock = deadlock

abbrev pub pod_state_steps : List PodStateStep → List GuaranteedPod → Result (List GuaranteedPod)
pod_state_steps [] pods = ok pods
pod_state_steps (s ∷ ss) pods = then_steps (pod_state_steps ss) (pod_state_step s pods)

-- At most one pod has any one name and namespace.
abbrev pub HasUniquePods : List GuaranteedPod → Type 0
HasUniquePods pods = (n s : String) → entries n s pods ≤ 1

pub update_pod-HasUniquePods :
    (pod : GuaranteedPod) (pods : List GuaranteedPod)
    → HasUniquePods pods
    → HasUniquePods (update_state_guaranteed_pods pod pods)
update_pod-HasUniquePods pod pods u n s = elim (Bool-cases (is_pod n s pod)) [
  | inl e ↦
      ground (arith, (update_state_guaranteed_pods_lem pod pods n s).1, u n s, e, same_entries e)
  | inr e ↦ ground (arith, (update_state_guaranteed_pods_lem pod pods n s).1, u n s, e)
]
  where
    same_entries : is_pod n s pod ≡ true → entries pod.name pod.namespace pods ≡ entries n s pods
    same_entries e =
        let a : pod.name ≡ n = ground (arith, eq_iff pod.name n) in
        let b : pod.namespace ≡ s = ground (arith, eq_iff pod.namespace s) in
        ap (λ x. entries x pod.namespace pods) a ∙ ap (λ y. entries n y pods) b

-- Deleting a pod under a name and namespace that at most one remembered pod has removes just that pod,
-- keeps the others in their order, and never slices past the end.
pub delete_pod_from_state_lem :
    (name namespace : String) (pods : List GuaranteedPod)
    → entries name namespace pods ≤ 1
    → (delete_pod_from_state name namespace pods ≡ ok (without (is_pod name namespace) pods))
      × (entries name namespace (without (is_pod name namespace) pods) ≡ 0)
unfolding delete_pod_from_state
delete_pod_from_state_lem name namespace pods h =
    (delete-one (is_pod name namespace) pods h, count_if-without_self (is_pod name namespace) pods)

pub without-HasUniquePods :
    (name namespace : String) (pods : List GuaranteedPod)
    → HasUniquePods pods
    → HasUniquePods (without (is_pod name namespace) pods)
without-HasUniquePods name namespace pods u n s =
    ground (arith, count_if-without (is_pod name namespace) (is_pod n s) pods, u n s)

-- From a state with at most one pod under any name and namespace, any sequence of updates and deletions
-- ends without a panic and with at most one pod under any name and namespace.
pub pod_state_steps-HasUniquePods :
    (ss : List PodStateStep) (pods : List GuaranteedPod)
    → HasUniquePods pods
    → (qs : List GuaranteedPod) × (pod_state_steps ss pods ≡ ok qs) × HasUniquePods qs
pod_state_steps-HasUniquePods [] pods u = (pods, refl, u)
pod_state_steps-HasUniquePods (update_pod pod ∷ ss) pods u =
    pod_state_steps-HasUniquePods ss (update_state_guaranteed_pods pod pods)
      (update_pod-HasUniquePods pod pods u)
pod_state_steps-HasUniquePods (delete_pod name namespace ∷ ss) pods u =
    rw (delete_pod_from_state_lem name namespace pods (u name namespace)).0 (
      pod_state_steps-HasUniquePods ss (without (is_pod name namespace) pods)
        (without-HasUniquePods name namespace pods u))
