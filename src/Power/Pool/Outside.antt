-- ===== src/Power/Pool/Outside.antt =====
-- `MoveCPUIDs` and `GetExclusivePool` as the controllers call them (internal/power/pool.go, host.go).
use cluster_power_manager.Base.{
  ℕ, zero, suc, ◌≡◌, ◌≢◌, ◌<◌, refl, sym, ap, Bool, true, false, List, [], ◌∷◌, none, some, String,
  str_eq, arith, get_elem?, index_where, Bool-cases, Option-cases, inl, inr,
}
use cluster_power_manager.Power.Sysfs.{Result, err, cpu_not_in_list}
use cluster_power_manager.Power.Host.{
  Pool, reserved, shared, exclusive, is_exclusive, same_pool, same_pool_iff, Platform, Host,
}
use cluster_power_manager.Power.Cpu.Lists.{all_contained}
use cluster_power_manager.Power.Cpu.Moves.{IsConsistent, Keeps-refl, admits}
use cluster_power_manager.Power.Pool.{
  move_cpu_ids_locked, move_cpu_ids, index_of_name, by_name, get_exclusive_pool,
}
use cluster_power_manager.Power.Pool.Loops.{Looped}
use cluster_power_manager.Power.Pool.Members.{
  move_cpus-Looped, with_host_mutex_run, move_cpu_ids_locked_lem,
}
use cluster_power_manager.Power.Pool.Reach.{members_known}
use cluster_power_manager.Power.Pool.Invariant.{IsOnHost, IsWellFormed, listings}

-- A loop under the mutex, seen from outside.
unlocked-Looped :
    (h : Host) (cpus : List ℕ) (dest : ℕ → Pool → Pool) (may : ℕ → Pool → Bool)
    (r : Result (Unit {0}) × Host)
    → h.locked ≡ false
    → Looped (record h { locked = true }) cpus dest may r
    → Looped h cpus dest may (r.0, record (r.1) { locked = false })
unlocked-Looped h cpus dest may r e l = record {
  keeps = record {
    all_cpus_kept = l.keeps.all_cpus_kept;
    power_profile_kept = l.keeps.power_profile_kept;
    pool_name_kept = l.keeps.pool_name_kept;
    exclusive_pools_kept = l.keeps.exclusive_pools_kept;
    created_kept = l.keeps.created_kept;
    locked_kept = sym e;
  };
  consistent = l.consistent;
  placed = l.placed;
  allowed = l.allowed;
  partly = l.partly;
}

refused-Looped :
    (h : Host) (cpus : List ℕ) (dest : ℕ → Pool → Pool) (may : ℕ → Pool → Bool)
    → IsConsistent h
    → Looped h cpus dest may (err cpu_not_in_list, h)
refused-Looped h cpus dest may i = record {
  keeps = Keeps-refl h;
  consistent = i;
  placed = λ e. absurd (cc);
  allowed = λ e. absurd (cc);
  partly = λ x. inl refl;
}

pub move_cpu_ids-Looped :
    (p : Platform) (pool : Pool) (ids : List ℕ) (h : Host)
    → p.freq.core_types ≢ []
    → IsConsistent h
    → h.locked ≡ false
    → Looped h ids (λ c q. pool) (λ c q. admits q pool) (move_cpu_ids p pool ids h)
unfolding move_cpu_ids
move_cpu_ids-Looped p pool ids h known i unlocked =
    rw (with_host_mutex_run (move_cpu_ids_locked p pool ids) h unlocked) (
      unlocked-Looped h ids (λ c q. pool) (λ c q. admits q pool)
        (move_cpu_ids_locked p pool ids (record h { locked = true })) unlocked
        (rw (move_cpu_ids_locked_lem p pool ids (record h { locked = true }))
          (elim (Bool-cases (all_contained ids h.all_cpus)) [
            | inl a ↦ rw a (
                move_cpus-Looped p known pool ids (record h { locked = true }) i
                  (members_known ids h.all_cpus a))
            | inr a ↦ rw a (
                refused-Looped (record h { locked = true }) ids (λ c q. pool) (λ c q. admits q pool)
                  i)
          ])))

listed : (l : List Pool) (i : ℕ) (q : Pool) → get_elem? l i ≡ some q → 0 < listings q l
listed [] i q e = absurd (cc)
listed (x ∷ xs) zero q e =
    let same : same_pool x q ≡ true =
      (same_pool_iff x q).1 (ap (λ o. elim o [ none ↦ x | some y ↦ y ]) e) in
    ground arith
listed (x ∷ xs) (suc i) q e = ground (arith, listed xs i q e)

-- The pool under a name is an exclusive one of the host.
pub get_exclusive_pool_lem :
    (h : Host) (name : String) (q : Pool)
    → IsWellFormed h
    → get_exclusive_pool h name ≡ some q
    → IsOnHost h q × (is_exclusive q ≡ true)
unfolding get_exclusive_pool by_name index_of_name
get_exclusive_pool_lem h name q w e =
    elim (Option-cases (index_where (λ r. str_eq (h.pool_name r) name) h.exclusive_pools)) [
      | inl n ↦
          absurd
            (let f : none ≡ some q = rw (n, get_exclusive_pool, by_name, index_of_name) at e in cc)
      | inr (i, n) ↦
          kind q
            (listed h.exclusive_pools i q (rw (n, get_exclusive_pool, by_name, index_of_name) at e))
    ]
  where
    kind : (r : Pool) → 0 < listings r h.exclusive_pools → IsOnHost h r × (is_exclusive r ≡ true)
    kind reserved l = absurd (omega (arith, w.own_kind.0))
    kind shared l = absurd (omega (arith, w.own_kind.1))
    kind (exclusive n) l = (l, refl)
