-- ===== src/Power/Pool.antt =====
-- Pools (internal/power/pool.go) and the host's calls on them (internal/power/host.go). Each exported
-- call that takes the host mutex is a `with_host_mutex`. The kinds of pool override one another's
-- methods, so each method splits on the kind.
pub mod Loops
pub mod Members
pub mod Calls
pub mod Invariant
pub mod Registry
pub mod Reach
pub mod Outside
pub mod Removal
use cluster_power_manager.Base.{
  ℕ, suc, ◌+◌, ◌==◌, ◌&&◌, Bool, true, false, List, [], ◌∷◌, ◌++◌, map, Option, none, some, String,
  str_eq, if◌then◌else◌, get_elem?, length, index_where, swap_remove,
}
use cluster_power_manager.Power.Sysfs.{
  Sysfs, Error, exclusive_to_reserved, cpu_not_in_list, pool_not_on_host, pool_exists,
  pool_not_removable, reserved_profile, out_of_range, Result, ok, err, panic, Action, pure, lift,
  ◌>>=◌, ◌>>◌,
}
use cluster_power_manager.Power.Host.{
  Pool, reserved, shared, exclusive, same_pool, is_exclusive, Profile, Platform, Host, at_pool,
  with_host_mutex,
}
use cluster_power_manager.Power.Cpu.{contains_cpu, many_by_ids, consolidate, set_pool}

-- `for _, cpu := range cpus { if err := f(cpu); err != nil { return err } }`.
unfoldable pub for_each : (ℕ → Action Host (Unit {0})) → List ℕ → Action Host (Unit {0})
for_each f [] = pure tt
for_each f (c ∷ cpus) = f c >> for_each f cpus

unfoldable pub move_cpus : Platform → Pool → List ℕ → Action Host (Unit {0})
move_cpus p target cpus = for_each (λ c. set_pool p c (some target)) cpus

-- One round of the loop of each `setCpus`.
unfoldable pub shared_set_cpu : Platform → List ℕ → ℕ → Action Host (Unit {0})
shared_set_cpu p requested c h =
    if contains_cpu c requested
    then set_pool p c (some shared) h
    else if same_pool (h.pool_of c) shared
    then set_pool p c (some reserved) h
    else (ok tt, h)

unfoldable pub reserved_set_cpu : Platform → List ℕ → ℕ → Action Host (Unit {0})
reserved_set_cpu p cores c h =
    if contains_cpu c cores
    then (if is_exclusive (h.pool_of c)
        then (err exclusive_to_reserved, h)
        else set_pool p c (some reserved) h)
    else if same_pool (h.pool_of c) reserved
    then set_pool p c (some shared) h
    else (ok tt, h)

unfoldable pub exclusive_set_cpu : Platform → Pool → List ℕ → ℕ → Action Host (Unit {0})
exclusive_set_cpu p pool requested c h =
    if contains_cpu c requested
    then set_pool p c (some pool) h
    else if same_pool (h.pool_of c) pool
    then set_pool p c (some shared) h
    else (ok tt, h)

unfoldable pub set_cpu : Platform → Pool → List ℕ → ℕ → Action Host (Unit {0})
set_cpu p reserved cores = reserved_set_cpu p cores
set_cpu p shared cores = shared_set_cpu p cores
set_cpu p (exclusive n) cores = exclusive_set_cpu p (exclusive n) cores

unfoldable pub set_cpus : Platform → Pool → List ℕ → Action Host (Unit {0})
set_cpus p pool cores h = for_each (set_cpu p pool cores) h.all_cpus h

-- `MoveCpus`, `MoveCPUIDs` and `SetCPUIDs`; `…_locked` is what runs under the mutex.
unfoldable pub move_cpus_call : Platform → Pool → List ℕ → Action Host (Unit {0})
move_cpus_call p pool cpus = with_host_mutex (move_cpus p pool cpus)

unfoldable pub move_cpu_ids_locked : Platform → Pool → List ℕ → Action Host (Unit {0})
move_cpu_ids_locked p pool ids h = elim (many_by_ids ids h.all_cpus) [
  | none ↦ (err cpu_not_in_list, h)
  | some cpus ↦ move_cpus p pool cpus h
]

unfoldable pub move_cpu_ids : Platform → Pool → List ℕ → Action Host (Unit {0})
move_cpu_ids p pool ids = with_host_mutex (move_cpu_ids_locked p pool ids)

unfoldable pub set_cpu_ids_locked : Platform → Pool → List ℕ → Action Host (Unit {0})
set_cpu_ids_locked p pool ids h = elim (many_by_ids ids h.all_cpus) [
  | none ↦ (err out_of_range, h)
  | some cpus ↦ set_cpus p pool cpus h
]

unfoldable pub set_cpu_ids : Platform → Pool → List ℕ → Action Host (Unit {0})
set_cpu_ids p pool ids = with_host_mutex (set_cpu_ids_locked p pool ids)

-- `SetPowerProfile`: the profile is stored, then applied to each CPU of the pool.
unfoldable pub apply_power_profile : Platform → Pool → Option Profile → Action Host (Unit {0})
apply_power_profile p pool profile h =
    for_each (consolidate p) (h.cpus pool)
      (record h { power_profile = at_pool h.power_profile pool profile })

unfoldable pub set_power_profile : Platform → Pool → Option Profile → Action Host (Unit {0})
set_power_profile p reserved profile = lift (err reserved_profile)
set_power_profile p shared profile = with_host_mutex (apply_power_profile p shared profile)
set_power_profile p (exclusive n) profile =
    with_host_mutex (apply_power_profile p (exclusive n) profile)

-- `PoolList.remove`, `none` where the pool is not on the list.
unfoldable pub remove_pool : Pool → List Pool → Option (List Pool)
remove_pool pool pools = elim (index_where (λ q. same_pool q pool) pools) [
  | none ↦ none
  | some i ↦ swap_remove i pools
]

unfoldable pub unlist_pool : Pool → Action Host (Unit {0})
unlist_pool pool h = elim (remove_pool pool h.exclusive_pools) [
  | none ↦ (err pool_not_on_host, h)
  | some pools ↦ (ok tt, record h { exclusive_pools = pools })
]

-- `Remove`.
unfoldable pub remove_locked : Platform → ℕ → Action Host (Unit {0})
remove_locked p n = set_cpus p (exclusive n) [] >> unlist_pool (exclusive n)

unfoldable pub remove_call : Platform → Pool → Action Host (Unit {0})
remove_call p reserved = lift (err pool_not_removable)
remove_call p shared = lift (err pool_not_removable)
remove_call p (exclusive n) = with_host_mutex (remove_locked p n)

-- `PoolList.IndexOfName` and `PoolList.ByName`; `GetExclusivePool` is the latter on the host's list.
unfoldable pub index_of_name : (Pool → String) → List Pool → String → Option ℕ
index_of_name names pools name = index_where (λ q. str_eq (names q) name) pools

unfoldable pub by_name : (Pool → String) → List Pool → String → Option Pool
unfolding index_of_name
by_name names pools name = elim (index_of_name names pools name) [
  | none ↦ none
  | some i ↦ get_elem? pools i
]

unfoldable pub get_exclusive_pool : Host → String → Option Pool
unfolding by_name
get_exclusive_pool h name = by_name h.pool_name h.exclusive_pools name

-- The new pool: the next number, no CPUs, no profile.
abbrev pub with_new_pool : Host → String → Host
with_new_pool h name =
    let pool = exclusive h.created in
    record h {
      cpus = at_pool h.cpus pool [];
      power_profile = at_pool h.power_profile pool none;
      pool_name = at_pool h.pool_name pool name;
      exclusive_pools = h.exclusive_pools ++ pool ∷ [];
      created = h.created + 1;
    }

-- `AddExclusivePool` comes back with a pool in either case, and with an error if it was there before.
-- (An index that was found is in range.)
unfoldable pub add_locked : String → Action Host (Pool × Option Error)
add_locked name h = elim (get_exclusive_pool h name) [
  | some pool ↦ (ok (pool, some pool_exists), h)
  | none ↦ (ok (exclusive h.created, none), with_new_pool h name)
]

unfoldable pub add_exclusive_pool : String → Action Host (Pool × Option Error)
add_exclusive_pool name = with_host_mutex (add_locked name)

-- The host as `initHost` leaves it: all CPUs reserved.
unfoldable pub init_host : List ℕ → (Pool → String) → Sysfs → Host
init_host cpus names sysfs = record {
  all_cpus = cpus;
  pool_of = λ c. reserved;
  cpus = at_pool (λ q. []) reserved cpus;
  power_profile = λ q. none;
  pool_name = names;
  exclusive_pools = [];
  created = 0;
  locked = false;
  sysfs = sysfs;
}
