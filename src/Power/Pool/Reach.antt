-- ===== src/Power/Pool/Reach.antt =====
-- Histories of calls on a host, from the host that `initHost` makes (internal/power/host.go, pool.go).
use cluster_power_manager.Base.{
  ℕ, ◌≤◌, ◌≡◌, ◌≢◌, refl, sym, Bool, true, false, List, [], ◌∷◌, String, arith, if◌then◌else◌,
  contains, count, Bool-cases, inl, inr, subst,
}
use cluster_power_manager.Power.Sysfs.{
  Sysfs, Result, ok, err, panic, deadlock, Action, pure, bind_result, ◌>>=◌,
}
use cluster_power_manager.Power.Host.{
  Pool, reserved, shared, exclusive, Platform, Host, with_host_mutex,
}
use cluster_power_manager.Power.Cpu.Lists.{all_contained}
use cluster_power_manager.Power.Pool.{
  move_cpus, move_cpus_call, move_cpu_ids_locked, move_cpu_ids, set_cpu_ids_locked, set_cpu_ids,
  apply_power_profile, set_power_profile, remove_locked, remove_call, add_locked,
  add_exclusive_pool, init_host,
}
use cluster_power_manager.Power.Pool.Loops.{Managed}
use cluster_power_manager.Power.Pool.Members.{
  with_host_mutex_run, set_cpu_ids_locked_lem, move_cpu_ids_locked_lem,
}
use cluster_power_manager.Power.Pool.Calls.{
  Call, move_to, move_ids_to, set_ids, set_profile, removes, adds, run_call, run_call_releases,
}
use cluster_power_manager.Power.Pool.Invariant.{
  IsOnHost, IsWellFormed, set_cpus-IsWellFormed, move_cpus-IsWellFormed,
  apply_power_profile-IsWellFormed,
}
use cluster_power_manager.Power.Pool.Registry.{remove_locked-IsWellFormed, add_locked-IsWellFormed}

-- A caller holds pools of the host and CPUs of the host. (Ids may be any numbers.)
abbrev pub IsValidCall : Host → Call → Type 0
IsValidCall h (move_to pool cpus) = IsOnHost h pool × Managed h cpus
IsValidCall h (move_ids_to pool ids) = IsOnHost h pool
IsValidCall h (set_ids pool ids) = IsOnHost h pool
IsValidCall h (set_profile pool profile) = IsOnHost h pool
IsValidCall h (removes pool) = IsOnHost h pool
IsValidCall h (adds name) = Unit {0}

-- The hosts that calls lead to, each made when the one before has come back.
pub data Reach (p : Platform) (start : Host) : Host → Type 0 where
  here : Reach p start start
  next :
      {h : Host} → Reach p start h → (c : Call) → IsValidCall h c → Reach p start (run_call p c h).1

pub relocked : (h : Host) (b : Bool) → IsWellFormed h → IsWellFormed (record h { locked = b })
relocked h b w = record {
  consistent = w.consistent;
  homed = λ x m. on_host (h.pool_of x) (w.homed x m);
  once = w.once;
  fresh = w.fresh;
  own_kind = w.own_kind;
  own_name = w.own_name;
}
  where
    on_host : (q : Pool) → IsOnHost h q → IsOnHost (record h { locked = b }) q
    on_host reserved o = tt
    on_host shared o = tt
    on_host (exclusive n) o = o

-- An action keeps the host well formed under the mutex if its body does.
pub under_mutex :
    {A : Type 0} (m : Action Host A) (h : Host)
    → h.locked ≡ false
    → IsWellFormed (m (record h { locked = true })).1
    → IsWellFormed (with_host_mutex m h).1
under_mutex m h e w =
    rw (with_host_mutex_run m h e) (relocked (m (record h { locked = true })).1 false w)

dropped_value : {A : Type 0} (m : Action Host A) (h : Host) → ((m >>= λ r. pure tt) h).1 ≡ (m h).1
dropped_value {A} m h = go (m h).0
  where
    go : (r : Result A) → (bind_result r (m h).1 (λ x. pure tt)).1 ≡ (m h).1
    go (ok a) = refl
    go (err d) = refl
    go panic = refl
    go deadlock = refl

pub members_known :
    (ids l : List ℕ)
    → all_contained ids l ≡ true
    → (x : ℕ) → contains x ids ≡ true
    → contains x l ≡ true
members_known [] l e x m = absurd (cc)
members_known (id ∷ ids) l e x m = ground (arith, members_known ids l (ground arith) x)

on_locked : (h : Host) (q : Pool) → IsOnHost h q → IsOnHost (record h { locked = true }) q
on_locked h reserved o = tt
on_locked h shared o = tt
on_locked h (exclusive n) o = o

module _ (p : Platform) (known : p.freq.core_types ≢ []) where
  move_cpu_ids_locked-IsWellFormed :
      (pool : Pool) (ids : List ℕ) (h : Host)
      → IsOnHost h pool
      → IsWellFormed h
      → IsWellFormed (move_cpu_ids_locked p pool ids h).1
  move_cpu_ids_locked-IsWellFormed pool ids h o w =
      rw (move_cpu_ids_locked_lem p pool ids h) (elim (Bool-cases (all_contained ids h.all_cpus)) [
        | inl a ↦
            rw a (move_cpus-IsWellFormed p known pool ids h o (members_known ids h.all_cpus a) w)
        | inr a ↦ rw a w
      ])

  set_cpu_ids_locked-IsWellFormed :
      (pool : Pool) (ids : List ℕ) (h : Host)
      → IsOnHost h pool
      → IsWellFormed h
      → IsWellFormed (set_cpu_ids_locked p pool ids h).1
  set_cpu_ids_locked-IsWellFormed pool ids h o w =
      rw (set_cpu_ids_locked_lem p pool ids h) (elim (Bool-cases (all_contained ids h.all_cpus)) [
        | inl a ↦ rw a (set_cpus-IsWellFormed p known pool ids h o w)
        | inr a ↦ rw a w
      ])

  -- One valid call, whatever its outcome, keeps an unlocked host well formed.
  pub run_call-IsWellFormed :
      (c : Call) (h : Host)
      → IsValidCall h c
      → h.locked ≡ false
      → IsWellFormed h
      → IsWellFormed (run_call p c h).1
  unfolding run_call move_cpus_call move_cpu_ids set_cpu_ids set_power_profile remove_call
      add_exclusive_pool
  run_call-IsWellFormed (move_to pool cpus) h v e w = under_mutex (move_cpus p pool cpus) h e (
      move_cpus-IsWellFormed p known pool cpus (record h { locked = true }) (on_locked h pool v.0)
        v.1 (relocked h true w))
  run_call-IsWellFormed (move_ids_to pool ids) h v e w =
      under_mutex (move_cpu_ids_locked p pool ids) h e (
        move_cpu_ids_locked-IsWellFormed pool ids (record h { locked = true }) (on_locked h pool v)
          (relocked h true w))
  run_call-IsWellFormed (set_ids pool ids) h v e w =
      under_mutex (set_cpu_ids_locked p pool ids) h e (
        set_cpu_ids_locked-IsWellFormed pool ids (record h { locked = true }) (on_locked h pool v)
          (relocked h true w))
  run_call-IsWellFormed (set_profile reserved profile) h v e w = w
  run_call-IsWellFormed (set_profile shared profile) h v e w =
      under_mutex (apply_power_profile p shared profile) h e (
        apply_power_profile-IsWellFormed p shared profile (record h { locked = true })
          (relocked h true w))
  run_call-IsWellFormed (set_profile (exclusive n) profile) h v e w =
      under_mutex (apply_power_profile p (exclusive n) profile) h e (
        apply_power_profile-IsWellFormed p (exclusive n) profile (record h { locked = true })
          (relocked h true w))
  run_call-IsWellFormed (removes reserved) h v e w = w
  run_call-IsWellFormed (removes shared) h v e w = w
  run_call-IsWellFormed (removes (exclusive n)) h v e w =
      under_mutex (remove_locked p n) h e
        (remove_locked-IsWellFormed p known n (record h { locked = true }) (relocked h true w))
  run_call-IsWellFormed (adds name) h v e w =
      subst IsWellFormed (sym (dropped_value (add_exclusive_pool name) h)) (
        under_mutex (add_locked name) h e
          (add_locked-IsWellFormed name (record h { locked = true }) (relocked h true w)))

count_of_contains :
    (x : ℕ) (cpus : List ℕ) → count x cpus ≤ 1 → count x cpus ≡ (if contains x cpus then 1 else 0)
count_of_contains x [] h = refl
count_of_contains x (c ∷ cpus) h = ground (arith, count_of_contains x cpus, none_left x cpus)
  where
    none_left : (x : ℕ) (l : List ℕ) → count x l ≡ 0 → contains x l ≡ false
    none_left x [] e = refl
    none_left x (c ∷ l) e = ground (arith, none_left x l)

pub init_host-IsWellFormed :
    (cpus : List ℕ) (names : Pool → String) (s : Sysfs)
    → ((x : ℕ) → count x cpus ≤ 1)
    → IsWellFormed (init_host cpus names s)
unfolding init_host
init_host-IsWellFormed cpus names s one = record {
  consistent = λ x q. ground (arith, count_of_contains x cpus (one x));
  homed = λ x m. tt;
  once = λ q. omega arith;
  fresh = λ n b. refl;
  own_kind = (refl, refl);
  own_name = λ name. omega arith;
}

-- With at least one core type known, a host that starts with distinct CPUs, all reserved, is well
-- formed and unlocked after any history of valid calls, the calls that failed included: no CPU is
-- lost, in two pools, or in a pool that is not on the host, and no two exclusive pools share a name.
pub Reach-IsWellFormed :
    (p : Platform) (cpus : List ℕ) (names : Pool → String) (s : Sysfs)
    → p.freq.core_types ≢ []
    → ((x : ℕ) → count x cpus ≤ 1)
    → {h : Host} → Reach p (init_host cpus names s) h
    → IsWellFormed h × (h.locked ≡ false)
Reach-IsWellFormed p cpus names s known one here =
    (init_host-IsWellFormed cpus names s one, unfold init_host in refl)
Reach-IsWellFormed p cpus names s known one (next {h = h} r c v) =
    let ih = Reach-IsWellFormed p cpus names s known one r in
    (run_call-IsWellFormed p known c h v ih.1 ih.0, (run_call_releases p c h known ih.1).1)
