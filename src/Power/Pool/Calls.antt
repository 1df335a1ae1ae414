-- ===== src/Power/Pool/Calls.antt =====
-- The calls that a controller makes on the power library's pools (the exported methods of
-- internal/power/pool.go and host.go that change the host): each comes back.
use cluster_power_manager.Base.{
  ℕ, ◌≡◌, ◌≢◌, refl, true, false, List, [], Option, some, String, arith,
}
use cluster_power_manager.Power.Sysfs.{
  Result, ok, err, panic, deadlock, Action, pure, bind_result, ◌>>=◌,
}
use cluster_power_manager.Power.Host.{
  Pool, reserved, shared, exclusive, Profile, Platform, Host, at_pool, with_host_mutex,
}
use cluster_power_manager.Power.Cpu.{consolidate, set_pool}
use cluster_power_manager.Power.Cpu.Moves.{returns}
use cluster_power_manager.Power.Cpu.Returns.{
  Returns, bind-Returns, consolidate-Returns, set_pool-Returns,
}
use cluster_power_manager.Power.Pool.{
  move_cpus, shared_set_cpu, reserved_set_cpu, exclusive_set_cpu, set_cpu, set_cpus, move_cpus_call,
  move_cpu_ids_locked, move_cpu_ids, set_cpu_ids_locked, set_cpu_ids, apply_power_profile,
  set_power_profile, unlist_pool, remove_locked, remove_call, add_locked, add_exclusive_pool,
}
use cluster_power_manager.Power.Pool.Loops.{for_each-Returns}
use cluster_power_manager.Power.Pool.Members.{set_cpu_ids_locked_lem, move_cpu_ids_locked_lem}

pub data Call : Type 0 where
  move_to move_ids_to set_ids : Pool → List ℕ → Call
  set_profile : Pool → Option Profile → Call
  removes : Pool → Call
  adds : String → Call

-- A call, its value dropped.
unfoldable pub run_call : Platform → Call → Action Host (Unit {0})
run_call p (move_to pool cpus) = move_cpus_call p pool cpus
run_call p (move_ids_to pool ids) = move_cpu_ids p pool ids
run_call p (set_ids pool ids) = set_cpu_ids p pool ids
run_call p (set_profile pool profile) = set_power_profile p pool profile
run_call p (removes pool) = remove_call p pool
run_call p (adds name) = add_exclusive_pool name >>= λ r. pure tt

-- An action under a free mutex comes back if its body does, and the mutex is free again.
abbrev pub Releases : {A : Type 0} → Action Host A → Type 0
Releases m = (h : Host) → h.locked ≡ false → (returns (m h).0 ≡ true) × ((m h).1.locked ≡ false)

with_host_mutex-Releases :
    {A : Type 0} (m : Action Host A) → Returns m → Releases (with_host_mutex m)
unfolding with_host_mutex
with_host_mutex-Releases m b h e = (rw e (b (record h { locked = true })), rw e)

drop_value-Releases : {A : Type 0} (m : Action Host A) → Releases m → Releases (m >>= λ r. pure tt)
drop_value-Releases {A} m w h e = go (m h).0 (w h e).0
  where
    go :
        (r : Result A)
        → returns r ≡ true
        → let s = bind_result r (m h).1 (λ x. pure tt) in
          (returns s.0 ≡ true) × (s.1.locked ≡ false)
    go (ok a) b = (refl, (w h e).1)
    go (err d) b = (refl, (w h e).1)
    go panic b = absurd (cc)
    go deadlock b = absurd (cc)

module _ (p : Platform) (known : p.freq.core_types ≢ []) where
  move_cpus-Returns : (pool : Pool) (cpus : List ℕ) → Returns (move_cpus p pool cpus)
  unfolding move_cpus
  move_cpus-Returns pool cpus =
      for_each-Returns (λ c. set_pool p c (some pool)) cpus λ c. set_pool-Returns p c pool known

  set_cpu-Returns : (pool : Pool) (cores : List ℕ) (c : ℕ) → Returns (set_cpu p pool cores c)
  unfolding set_cpu shared_set_cpu reserved_set_cpu exclusive_set_cpu
  set_cpu-Returns reserved cores c h =
      ground (arith, set_pool-Returns p c reserved known h, set_pool-Returns p c shared known h)
  set_cpu-Returns shared cores c h =
      ground (arith, set_pool-Returns p c reserved known h, set_pool-Returns p c shared known h)
  set_cpu-Returns (exclusive n) cores c h =
      ground
        (arith, set_pool-Returns p c (exclusive n) known h, set_pool-Returns p c shared known h)

  set_cpus-Returns : (pool : Pool) (cores : List ℕ) → Returns (set_cpus p pool cores)
  unfolding set_cpus
  set_cpus-Returns pool cores h =
      for_each-Returns (set_cpu p pool cores) h.all_cpus (set_cpu-Returns pool cores) h

  move_cpu_ids_locked-Returns :
      (pool : Pool) (ids : List ℕ) → Returns (move_cpu_ids_locked p pool ids)
  move_cpu_ids_locked-Returns pool ids h =
      rw (move_cpu_ids_locked_lem p pool ids h) (ground (arith, move_cpus-Returns pool ids h))

  set_cpu_ids_locked-Returns :
      (pool : Pool) (ids : List ℕ) → Returns (set_cpu_ids_locked p pool ids)
  set_cpu_ids_locked-Returns pool ids h =
      rw (set_cpu_ids_locked_lem p pool ids h) (ground (arith, set_cpus-Returns pool ids h))

  apply_power_profile-Returns :
      (pool : Pool) (profile : Option Profile) → Returns (apply_power_profile p pool profile)
  unfolding apply_power_profile
  apply_power_profile-Returns pool profile h =
      for_each-Returns (consolidate p) (h.cpus pool) (λ c. consolidate-Returns p c known)
        (record h { power_profile = at_pool h.power_profile pool profile })

  unlist_pool-Returns : (pool : Pool) → Returns (unlist_pool pool)
  unfolding unlist_pool
  unlist_pool-Returns pool h = ground arith

  remove_locked-Returns : (n : ℕ) → Returns (remove_locked p n)
  unfolding remove_locked
  remove_locked-Returns n =
      bind-Returns (set_cpus p (exclusive n) []) (λ _. unlist_pool (exclusive n))
        (set_cpus-Returns (exclusive n) []) λ _. unlist_pool-Returns (exclusive n)

  add_locked-Returns : (name : String) → Returns (add_locked name)
  unfolding add_locked
  add_locked-Returns name h = ground arith

  call-Releases : (c : Call) → Releases (run_call p c)
  unfolding run_call move_cpus_call move_cpu_ids set_cpu_ids set_power_profile remove_call
      add_exclusive_pool
  call-Releases (move_to pool cpus) = with_host_mutex-Releases _ (move_cpus-Returns pool cpus)
  call-Releases (move_ids_to pool ids) =
      with_host_mutex-Releases _ (move_cpu_ids_locked-Returns pool ids)
  call-Releases (set_ids pool ids) =
      with_host_mutex-Releases _ (set_cpu_ids_locked-Returns pool ids)
  call-Releases (set_profile reserved profile) = λ h e. (refl, e)
  call-Releases (set_profile shared profile) =
      with_host_mutex-Releases _ (apply_power_profile-Returns shared profile)
  call-Releases (set_profile (exclusive n) profile) =
      with_host_mutex-Releases _ (apply_power_profile-Returns (exclusive n) profile)
  call-Releases (removes reserved) = λ h e. (refl, e)
  call-Releases (removes shared) = λ h e. (refl, e)
  call-Releases (removes (exclusive n)) = with_host_mutex-Releases _ (remove_locked-Returns n)
  call-Releases (adds name) =
      drop_value-Releases (add_exclusive_pool name)
        (with_host_mutex-Releases (add_locked name) (add_locked-Returns name))

-- With the core types known and the mutex free, every call on every pool comes back, with a value or
-- an error: it neither panics nor waits for the mutex that it holds itself, and the mutex is free
-- afterwards.
pub run_call_releases :
    (p : Platform) (c : Call) (h : Host)
    → p.freq.core_types ≢ []
    → h.locked ≡ false
    → (returns (run_call p c h).0 ≡ true) × ((run_call p c h).1.locked ≡ false)
run_call_releases p c h known e = call-Releases p known c h e
