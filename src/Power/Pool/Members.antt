-- ===== src/Power/Pool/Members.antt =====
-- Which CPUs a pool holds after `MoveCpus`, `MoveCPUIDs` and `SetCPUIDs` (internal/power/pool.go).
use cluster_power_manager.Base.{
  ℕ, ◌≡◌, ◌≢◌, refl, inl, inr, Bool, true, false, List, [], some, arith, if◌then◌else◌, contains,
  Bool-cases,
}
use cluster_power_manager.Power.Sysfs.{
  Error, exclusive_to_reserved, cpu_not_in_list, out_of_range, Result, ok, err, Action,
}
use cluster_power_manager.Power.Host.{
  Pool, reserved, shared, exclusive, same_pool, is_exclusive, Platform, Host, with_host_mutex,
}
use cluster_power_manager.Power.Cpu.{set_pool}
use cluster_power_manager.Power.Cpu.Lists.{contains_cpu-contains, many_by_ids_lem, all_contained}
use cluster_power_manager.Power.Cpu.Moves.{
  IsConsistent, succeeds, Keeps-refl, Moved, admits, set_pool-Moved, set_pool_refused,
}
use cluster_power_manager.Power.Cpu.Returns.{set_pool-Returns}
use cluster_power_manager.Power.Pool.{
  move_cpus, shared_set_cpu, reserved_set_cpu, exclusive_set_cpu, set_cpu, set_cpus,
  move_cpu_ids_locked, move_cpu_ids, set_cpu_ids_locked, set_cpu_ids,
}
use cluster_power_manager.Power.Pool.Loops.{Managed, IsRound, Looped, for_each-Looped}

-- Where a CPU goes that a pool gives up.
abbrev pub home : Pool → Pool
home shared = reserved
home _ = shared

-- Where `SetCPUIDs` on a pool puts a CPU that is in the pool `q`.
abbrev pub set_dest : Pool → List ℕ → ℕ → Pool → Pool
set_dest pool requested c q =
    if contains c requested then pool else if same_pool q pool then home pool else q

-- When it can: a requested CPU's pool must admit the move.
abbrev pub set_may : Pool → List ℕ → ℕ → Pool → Bool
set_may pool requested c q = if contains c requested then admits q pool else true

pub home_ne : (pool : Pool) → same_pool (home pool) pool ≡ false
unfolding same_pool
home_ne reserved = refl
home_ne shared = refl
home_ne (exclusive n) = refl

set_dest_settled :
    (pool : Pool) (requested : List ℕ) (c : ℕ) (q : Pool)
    → set_dest pool requested c (set_dest pool requested c q) ≡ set_dest pool requested c q
set_dest_settled pool requested c q = ground (arith, home_ne pool)

-- A round that moves its CPU by `setPool`, or refuses or skips it.
module _ (p : Platform) (known : p.freq.core_types ≢ []) where
  moves :
      (c : ℕ) (target : Pool) (h : Host)
      → IsConsistent h
      → contains c h.all_cpus ≡ true
      → Moved h c target (set_pool p c (some target) h)
        × (succeeds (set_pool p c (some target) h).0 ≡ true → admits (h.pool_of c) target ≡ true)
  moves c target h i m = (
    set_pool-Moved p c target h i m (set_pool-Returns p c target known h),
    λ e. elim (Bool-cases (admits (h.pool_of c) target)) [
      | inl a ↦ a
      | inr n ↦ absurd (ground (arith, set_pool_refused p c target h n))
    ],
  )

  stays :
      (c : ℕ) (target : Pool) (h : Host)
      → IsConsistent h
      → h.pool_of c ≡ target
      → Moved h c target (ok tt, h)
  stays c target h i e = record { keeps = Keeps-refl h; consistent = i; placed = λ x. ground arith }

  refuses :
      (c : ℕ) (target : Pool) (e : Error) (h : Host) → IsConsistent h → Moved h c target (err e, h)
  refuses c target e h i = record { keeps = Keeps-refl h; consistent = i; placed = λ x. refl }

  -- A CPU that is not requested leaves the pool if it is in it.
  dropped :
      (pool target : Pool) (c : ℕ) (h : Host)
      → IsConsistent h
      → contains c h.all_cpus ≡ true
      → Moved h c
          (if same_pool (h.pool_of c) pool then target else h.pool_of c)
          (if same_pool (h.pool_of c) pool then set_pool p c (some target) h else (ok tt, h))
  dropped pool target c h i m = elim (Bool-cases (same_pool (h.pool_of c) pool)) [
    | inl s ↦ rw s (moves c target h i m).0
    | inr s ↦ rw s (stays c (h.pool_of c) h i refl)
  ]

  shared-IsRound :
      (requested : List ℕ)
      → IsRound (shared_set_cpu p requested) (set_dest shared requested) (set_may shared requested)
  unfolding shared_set_cpu
  shared-IsRound requested c h i m = elim (Bool-cases (contains c requested)) [
    | inl a ↦ rw (contains_cpu-contains c requested, a) (moves c shared h i m)
    | inr a ↦ rw (contains_cpu-contains c requested, a) (dropped shared reserved c h i m, λ e. refl)
  ]

  reserved_request :
      (c : ℕ) (h : Host)
      → IsConsistent h
      → contains c h.all_cpus ≡ true
      → let r =
          if is_exclusive (h.pool_of c)
          then (err exclusive_to_reserved, h)
          else set_pool p c (some reserved) h in
        Moved h c reserved r × (succeeds r.0 ≡ true → admits (h.pool_of c) reserved ≡ true)
  reserved_request c h i m = elim (Bool-cases (is_exclusive (h.pool_of c))) [
    | inl x ↦ rw x (refuses c reserved exclusive_to_reserved h i, λ e. absurd (cc))
    | inr x ↦ rw x (moves c reserved h i m)
  ]

  reserved-IsRound :
      (cores : List ℕ)
      → IsRound (reserved_set_cpu p cores) (set_dest reserved cores) (set_may reserved cores)
  unfolding reserved_set_cpu
  reserved-IsRound cores c h i m = elim (Bool-cases (contains c cores)) [
    | inl a ↦ rw (contains_cpu-contains c cores, a) (reserved_request c h i m)
    | inr a ↦ rw (contains_cpu-contains c cores, a) (dropped reserved shared c h i m, λ e. refl)
  ]

  exclusive-IsRound :
      (n : ℕ) (requested : List ℕ)
      → IsRound
          (exclusive_set_cpu p (exclusive n) requested)
          (set_dest (exclusive n) requested)
          (set_may (exclusive n) requested)
  unfolding exclusive_set_cpu
  exclusive-IsRound n requested c h i m = elim (Bool-cases (contains c requested)) [
    | inl a ↦ rw (contains_cpu-contains c requested, a) (moves c (exclusive n) h i m)
    | inr a ↦
        rw (contains_cpu-contains c requested, a) (dropped (exclusive n) shared c h i m, λ e. refl)
  ]

  set-IsRound :
      (pool : Pool) (cores : List ℕ)
      → IsRound (set_cpu p pool cores) (set_dest pool cores) (set_may pool cores)
  unfolding set_cpu
  set-IsRound reserved cores = reserved-IsRound cores
  set-IsRound shared cores = shared-IsRound cores
  set-IsRound (exclusive n) cores = exclusive-IsRound n cores

  -- `setCpus` of every kind of pool, whatever its outcome.
  pub set_cpus-Looped :
      (pool : Pool) (cores : List ℕ) (h : Host)
      → IsConsistent h
      → Looped h h.all_cpus (set_dest pool cores) (set_may pool cores) (set_cpus p pool cores h)
  unfolding set_cpus
  set_cpus-Looped pool cores h i =
      for_each-Looped (set_cpu p pool cores) (set_dest pool cores) (set_dest_settled pool cores)
        (set_may pool cores) (set-IsRound pool cores) h.all_cpus h i (λ x e. e)

  -- `moveCpus` to any pool, whatever its outcome.
  pub move_cpus-Looped :
      (pool : Pool) (cpus : List ℕ) (h : Host)
      → IsConsistent h
      → Managed h cpus
      → Looped h cpus (λ c q. pool) (λ c q. admits q pool) (move_cpus p pool cpus h)
  unfolding move_cpus
  move_cpus-Looped pool cpus h i m =
      for_each-Looped (λ c. set_pool p c (some pool)) (λ c q. pool) (λ c q. refl)
        (λ c q. admits q pool) (λ c k j n. moves c pool k j n) cpus h i m

-- Under a free mutex a call runs with the mutex held, and leaves it free.
pub with_host_mutex_run :
    {A : Type 0} (m : Action Host A) (h : Host)
    → h.locked ≡ false
    → let r = m (record h { locked = true }) in
      with_host_mutex m h ≡ (r.0, record (r.1) { locked = false })
unfolding with_host_mutex
with_host_mutex_run m h e = rw e

-- The ids are resolved first.
pub set_cpu_ids_locked_lem :
    (p : Platform) (pool : Pool) (ids : List ℕ) (h : Host)
    → set_cpu_ids_locked p pool ids h
      ≡ (if all_contained ids h.all_cpus then set_cpus p pool ids h else (err out_of_range, h))
unfolding set_cpu_ids_locked
set_cpu_ids_locked_lem p pool ids h = ground (arith, many_by_ids_lem ids h.all_cpus)

pub move_cpu_ids_locked_lem :
    (p : Platform) (pool : Pool) (ids : List ℕ) (h : Host)
    → move_cpu_ids_locked p pool ids h
      ≡ (if all_contained ids h.all_cpus then move_cpus p pool ids h else (err cpu_not_in_list, h))
unfolding move_cpu_ids_locked
move_cpu_ids_locked_lem p pool ids h = ground (arith, many_by_ids_lem ids h.all_cpus)

-- With the mutex free and an id among those given that no CPU of the host has, `MoveCPUIDs` and
-- `SetCPUIDs` on any pool come back with an error and leave the host as it was.
pub unknown_id_unchanged :
    (p : Platform) (pool : Pool) (ids : List ℕ) (h : Host)
    → h.locked ≡ false
    → all_contained ids h.all_cpus ≡ false
    → (move_cpu_ids p pool ids h ≡ (err cpu_not_in_list, h))
      × (set_cpu_ids p pool ids h ≡ (err out_of_range, h))
unfolding set_cpu_ids move_cpu_ids with_host_mutex
unknown_id_unchanged p pool ids h unlocked a = (
  rw (move_cpu_ids_locked_lem p pool ids (record h { locked = true }), a) (ground arith),
  rw (set_cpu_ids_locked_lem p pool ids (record h { locked = true }), a) (ground arith),
)

members_of_run :
    (pool : Pool) (ids : List ℕ) (h : Host) {s : Result (Unit {0}) × Host}
    → Looped (record h { locked = true }) h.all_cpus (set_dest pool ids) (set_may pool ids) s
    → succeeds s.0 ≡ true
    → (x : ℕ) → contains x h.all_cpus ≡ true
    → (s.1.pool_of x ≡ set_dest pool ids x (h.pool_of x))
      × (set_may pool ids x (h.pool_of x) ≡ true)
      × IsConsistent s.1
members_of_run pool ids h {s} l e x m =
    (ground (arith, l.placed e x), ground (arith, l.allowed e x m), l.consistent)

-- With the core types known, the lists consistent and the mutex free: `SetCPUIDs` on any pool that
-- succeeds was given only ids of the host's CPUs. A CPU of the host that was requested came from a
-- pool that admits the move and is in the pool now; one that was not requested and was in the pool is
-- in the shared pool (in the reserved pool, if the pool is the shared one); any other is where it was;
-- and every CPU is in exactly the list of its pool.
pub set_cpu_ids_members :
    (p : Platform) (pool : Pool) (ids : List ℕ) (h : Host) (x : ℕ)
    → p.freq.core_types ≢ []
    → IsConsistent h
    → h.locked ≡ false
    → succeeds (set_cpu_ids p pool ids h).0 ≡ true
    → contains x h.all_cpus ≡ true
    → (all_contained ids h.all_cpus ≡ true)
      × ((set_cpu_ids p pool ids h).1.pool_of x ≡ set_dest pool ids x (h.pool_of x))
      × (set_may pool ids x (h.pool_of x) ≡ true)
      × IsConsistent (set_cpu_ids p pool ids h).1
unfolding set_cpu_ids
set_cpu_ids_members p pool ids h x known i unlocked =
    elim (Bool-cases (all_contained ids h.all_cpus)) [
      | inl a ↦ rw (with_host_mutex_run (set_cpu_ids_locked p pool ids) h unlocked) (
          rw (set_cpu_ids_locked_lem p pool ids (record h { locked = true }), a)
            λ e m.
              let w =
                members_of_run pool ids h
                  (set_cpus-Looped p known pool ids (record h { locked = true }) i) e x m in
              (refl, w.0, w.1, w.2))
      | inr a ↦ λ e m. absurd (ground (arith, (unknown_id_unchanged p pool ids h unlocked a).1))
    ]
