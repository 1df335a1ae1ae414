-- ===== src/Power/Pool/Removal.antt =====
-- What `Remove` of an exclusive pool and `AddExclusivePool` leave (internal/power/pool.go, host.go).
use cluster_power_manager.Base.{
  ℕ, ◌+◌, ◌≡◌, ◌≢◌, refl, ap, sym, subst, ◌∙◌, true, false, List, [], some, arith, if◌then◌else◌,
  contains, count, Option-cases, inl, inr,
}
use cluster_power_manager.Power.Sysfs.{ok, bind_ok}
use cluster_power_manager.Power.Host.{
  Pool, shared, exclusive, same_pool, same_pool_iff, Platform, Host,
}
use cluster_power_manager.Power.Cpu.Moves.{IsConsistent}
use cluster_power_manager.Power.Pool.{
  set_cpus, remove_pool, unlist_pool, remove_locked, remove_call,
}
use cluster_power_manager.Power.Pool.Loops.{Looped}
use cluster_power_manager.Power.Pool.Members.{
  set_cpus-Looped, set_dest, set_may, home_ne, with_host_mutex_run,
}
use cluster_power_manager.Power.Pool.Invariant.{listings}
use cluster_power_manager.Power.Pool.Registry.{listings-remove}

unlist_pool_ok :
    (n : ℕ) (h : Host) {u : Unit {0}} {h' : Host}
    → unlist_pool (exclusive n) h ≡ (ok u, h')
    → (rest : List Pool) × (remove_pool (exclusive n) h.exclusive_pools ≡ some rest)
      × (h' ≡ record h { exclusive_pools = rest })
unfolding unlist_pool
unlist_pool_ok n h {h'} e = elim (Option-cases (remove_pool (exclusive n) h.exclusive_pools)) [
  | inl m ↦ absurd (ground arith)
  | inr (rest, m) ↦ (rest, m, ground arith)
]

-- What a removal that succeeded leaves.
pub record Removed (n : ℕ) (h h' : Host) : Type 0 where
  pub consistent : IsConsistent h'
  pub placed :
      (x : ℕ)
      → contains x h.all_cpus ≡ true
      → h'.pool_of x ≡ (if same_pool (h.pool_of x) (exclusive n) then shared else h.pool_of x)
  pub empty : (x : ℕ) → count x (h'.cpus (exclusive n)) ≡ 0
  pub unlisted :
      listings (exclusive n) h'.exclusive_pools + 1 ≡ listings (exclusive n) h.exclusive_pools

remove_locked-Removed :
    (p : Platform) (known : p.freq.core_types ≢ []) (n : ℕ) (h h' : Host)
    → IsConsistent h
    → remove_locked p n h ≡ (ok tt, h')
    → Removed n h h'
unfolding remove_locked
remove_locked-Removed p known n h h' i e =
    bind_ok (set_cpus p (exclusive n) []) (λ _. unlist_pool (exclusive n)) h e
      λ u k f g.
        emptied k
          (subst (Looped h h.all_cpus (set_dest (exclusive n) []) (set_may (exclusive n) [])) f
            (set_cpus-Looped p known (exclusive n) [] h i))
          (unlist_pool_ok n k g)
  where
    emptied :
        {u : Unit {0}} (k : Host)
        → Looped h h.all_cpus (set_dest (exclusive n) []) (set_may (exclusive n) []) (ok u, k)
        → (rest : List Pool) × (remove_pool (exclusive n) k.exclusive_pools ≡ some rest)
          × (h' ≡ record k { exclusive_pools = rest })
        → Removed n h h'
    emptied k l (rest, m, q) = subst (Removed n h) (sym q) (record {
      consistent = l.consistent;
      placed = λ x y. ground (arith, l.placed refl x);
      empty = λ x. ground (
        arith,
        l.consistent x (exclusive n),
        l.placed refl x,
        l.keeps.all_cpus_kept,
        home_ne (exclusive n),
      );
      unlisted = ground (
        arith,
        listings-remove (exclusive n) (exclusive n) k.exclusive_pools m,
        same_pool_iff (exclusive n) (exclusive n),
        ap (listings (exclusive n)) l.keeps.exclusive_pools_kept,
      );
    })

under_mutex :
    (p : Platform) (known : p.freq.core_types ≢ []) (n : ℕ) (h : Host) {k : Host}
    → IsConsistent h
    → h.locked ≡ false
    → remove_call p (exclusive n) h ≡ (ok tt, k)
    → Removed n h k
unfolding remove_call
under_mutex p known n h i e r =
    let t = (remove_locked p n (record h { locked = true })).1 in
    let run = sym (with_host_mutex_run (remove_locked p n) h e) ∙ r in
    let w =
      remove_locked-Removed p known n (record h { locked = true }) t i
        (ap (λ o. (o, t)) (ap (λ s. s.0) run)) in
    subst (Removed n h) (ap (λ s. s.1) run) (record {
      consistent = w.consistent;
      placed = w.placed;
      empty = w.empty;
      unlisted = w.unlisted;
    })

-- With the core types known, the lists consistent and the mutex free: `Remove` of an exclusive pool
-- that succeeds has moved the host's CPUs that were in the pool to the shared pool and no others, left
-- no CPU in the pool's list, taken the pool off the host's list once, and kept every CPU in exactly
-- the list of its pool.
pub remove_call_moves_out :
    (p : Platform) (n : ℕ) (h k : Host) (x : ℕ)
    → p.freq.core_types ≢ []
    → IsConsistent h
    → h.locked ≡ false
    → remove_call p (exclusive n) h ≡ (ok tt, k)
    → contains x h.all_cpus ≡ true
    → (k.pool_of x ≡ (if same_pool (h.pool_of x) (exclusive n) then shared else h.pool_of x))
      × (count x (k.cpus (exclusive n)) ≡ 0)
      × (listings (exclusive n) k.exclusive_pools + 1 ≡ listings (exclusive n) h.exclusive_pools)
      × IsConsistent k
remove_call_moves_out p n h k x known i e r m =
    let w = under_mutex p known n h i e r in (w.placed x m, w.empty x, w.unlisted, w.consistent)
