-- ===== src/Power/Pool/Registry.antt =====
-- The host's list of exclusive pools (`PoolList` of internal/power/pool.go, `AddExclusivePool` of
-- internal/power/host.go): removal and addition keep the host well formed.
use cluster_power_manager.Base.{
  Bool, ℕ, ◌+◌, ◌≤◌, ◌≡◌, ◌≢◌, refl, ap, subst, inl, inr, true, false, List, [], ◌∷◌, none, some,
  String, str_eq, arith, if◌then◌else◌, Bool-cases, Option-cases, contains, count_if-append,
  count_if-agree, eq_iff, count_if-swap_remove, swap_remove, index_where, index_where_sound,
  index_where-none,
}
use cluster_power_manager.Power.Sysfs.{Result, ok, err, panic, deadlock, bind_result}
use cluster_power_manager.Power.Host.{
  Pool, reserved, shared, exclusive, same_pool, same_pool_iff, same_pool_comm, Platform, Host,
  at_pool,
}
use cluster_power_manager.Power.Cpu.Moves.{IsConsistent, succeeds}
use cluster_power_manager.Power.Pool.{
  set_cpus, remove_pool, unlist_pool, remove_locked, index_of_name, by_name, get_exclusive_pool,
  with_new_pool, add_locked,
}
use cluster_power_manager.Power.Pool.Loops.{Looped}
use cluster_power_manager.Power.Pool.Members.{set_cpus-Looped, set_dest, set_may, home, home_ne}
use cluster_power_manager.Power.Pool.Invariant.{
  listings, named, IsOnHost, IsWellFormed, Looped-IsWellFormed,
}

-- A list from which a pool was removed.
pub listings-remove :
    (q pool : Pool) (pools : List Pool) {rest : List Pool}
    → remove_pool pool pools ≡ some rest
    → listings q rest + (if same_pool pool q then 1 else 0) ≡ listings q pools
unfolding remove_pool
listings-remove q pool pools {rest} h =
    elim (Option-cases (index_where (λ r. same_pool r pool) pools)) [
      | inl e ↦ absurd (ground arith)
      | inr (i, e) ↦
          let (y, g, hit) = index_where_sound (λ r. same_pool r pool) pools e in
          let taken : swap_remove i pools ≡ some rest = rw (e, remove_pool) at h in
          subst (λ z. listings q rest + (if same_pool z q then 1 else 0) ≡ listings q pools)
            ((same_pool_iff y pool).0 hit)
            (count_if-swap_remove (λ r. same_pool r q) i pools y g taken)
    ]

named-remove :
    (names : Pool → String) (name : String) (pool : Pool) (pools : List Pool) {rest : List Pool}
    → remove_pool pool pools ≡ some rest
    → named names name rest ≤ named names name pools
unfolding remove_pool
named-remove names name pool pools {rest} h =
    elim (Option-cases (index_where (λ r. same_pool r pool) pools)) [
      | inl e ↦ absurd (ground arith)
      | inr (i, e) ↦
          let (y, g, hit) = index_where_sound (λ r. same_pool r pool) pools e in
          let taken : swap_remove i pools ≡ some rest = rw (e, remove_pool) at h in
          omega (arith, count_if-swap_remove (λ r. str_eq (names r) name) i pools y g taken)
    ]

unlist_pool-IsWellFormed :
    (n : ℕ) (h : Host)
    → IsWellFormed h
    → ((x : ℕ) → contains x h.all_cpus ≡ true → same_pool (h.pool_of x) (exclusive n) ≡ false)
    → IsWellFormed (unlist_pool (exclusive n) h).1
unfolding unlist_pool
unlist_pool-IsWellFormed n h w empty =
    elim (Option-cases (remove_pool (exclusive n) h.exclusive_pools)) [
      | inl e ↦ rw (e, unlist_pool) w
      | inr (rest, e) ↦ rw (e, unlist_pool) (unlisted rest e)
    ]
  where
    homed :
        (rest : List Pool)
        → remove_pool (exclusive n) h.exclusive_pools ≡ some rest
        → (q : Pool) → same_pool q (exclusive n) ≡ false
        → IsOnHost h q
        → IsOnHost (record h { exclusive_pools = rest }) q
    homed rest e reserved s o = tt
    homed rest e shared s o = tt
    homed rest e (exclusive m) s o = ground (
      arith,
      listings-remove (exclusive m) (exclusive n) h.exclusive_pools e,
      same_pool_iff (exclusive n) (exclusive m),
      same_pool_iff (exclusive m) (exclusive n),
    )

    unlisted :
        (rest : List Pool)
        → remove_pool (exclusive n) h.exclusive_pools ≡ some rest
        → IsWellFormed (record h { exclusive_pools = rest })
    unlisted rest e = record {
      consistent = w.consistent;
      homed = λ x m. homed rest e (h.pool_of x) (empty x m) (w.homed x m);
      once = λ q. omega (arith, listings-remove q (exclusive n) h.exclusive_pools e, w.once q);
      fresh = λ k b.
          omega
            (arith, listings-remove (exclusive k) (exclusive n) h.exclusive_pools e, w.fresh k b);
      own_kind = (
        omega (arith, listings-remove reserved (exclusive n) h.exclusive_pools e, w.own_kind),
        omega (arith, listings-remove shared (exclusive n) h.exclusive_pools e, w.own_kind),
      );
      own_name = λ name.
          omega (
            arith,
            named-remove h.pool_name name (exclusive n) h.exclusive_pools e,
            w.own_name name,
          );
    }

-- `Remove`: if the pool is unlisted, it was emptied first.
emptied :
    (n : ℕ) (h k : Host) (x : ℕ)
    → k.pool_of x
      ≡ (if contains x h.all_cpus then set_dest (exclusive n) [] x (h.pool_of x) else h.pool_of x)
    → contains x h.all_cpus ≡ true
    → same_pool (k.pool_of x) (exclusive n) ≡ false
emptied n h k x e m = rw (e, m) (ground (arith, home_ne (exclusive n)))

pub remove_locked-IsWellFormed :
    (p : Platform) (known : p.freq.core_types ≢ []) (n : ℕ) (h : Host)
    → IsWellFormed h
    → IsWellFormed (remove_locked p n h).1
unfolding remove_locked
remove_locked-IsWellFormed p known n h w = go (set_cpus p (exclusive n) [] h).0 refl
  where
    k : Host
    k = (set_cpus p (exclusive n) [] h).1

    l :
        Looped h h.all_cpus
          (set_dest (exclusive n) [])
          (set_may (exclusive n) [])
          (set_cpus p (exclusive n) [] h)
    l = set_cpus-Looped p known (exclusive n) [] h w.consistent

    -- A CPU of the pool goes home, any other stays.
    left : (x : ℕ) (q : Pool) → IsOnHost h q → IsOnHost h (set_dest (exclusive n) [] x q)
    left x q o = either (same_pool q (exclusive n))
      where
        either : (b : Bool) → IsOnHost h (if b then home (exclusive n) else q)
        either true = tt
        either false = o

    kept : IsWellFormed k
    kept =
        Looped-IsWellFormed h h.all_cpus (set_dest (exclusive n) []) (set_may (exclusive n) [])
          (set_cpus p (exclusive n) [] h) left w l

    go :
        (r : Result (Unit {0}))
        → (set_cpus p (exclusive n) [] h).0 ≡ r
        → IsWellFormed (bind_result r k (λ _. unlist_pool (exclusive n))).1
    go (ok u) e =
        unlist_pool-IsWellFormed n k kept
          λ x m. emptied n h k x (l.placed (ap succeeds e) x) (rw l.keeps.all_cpus_kept at m)
    go (err d) e = kept
    go panic e = kept
    go deadlock e = kept

-- A name that is not found has no pool.
pub named-none :
    (names : Pool → String) (pools : List Pool) (name : String)
    → by_name names pools name ≡ none
    → named names name pools ≡ 0
unfolding by_name index_of_name
named-none names pools name e =
    elim (Option-cases (index_where (λ q. str_eq (names q) name) pools)) [
      | inl n ↦ index_where-none (λ q. str_eq (names q) name) pools n
      | inr (i, n) ↦
          let (y, g, hit) = index_where_sound (λ q. str_eq (names q) name) pools n in
          absurd (ground arith)
    ]

module _ (name : String) (h : Host) (w : IsWellFormed h)
    (unnamed : named h.pool_name name h.exclusive_pools ≡ 0) where
  new : Pool
  new = exclusive h.created

  nobody_there : (x : ℕ) → contains x h.all_cpus ≡ true → same_pool (h.pool_of x) new ≡ false
  unfolding new
  nobody_there x m = elim (Bool-cases (same_pool (h.pool_of x) (exclusive h.created))) [
    | inl s ↦
        let here =
          subst (IsOnHost h) ((same_pool_iff (h.pool_of x) (exclusive h.created)).0 s)
            (w.homed x m) in
        absurd (omega (arith, w.fresh h.created (omega arith)))
    | inr s ↦ s
  ]

  listings-new :
      (q : Pool)
      → listings q (with_new_pool h name).exclusive_pools
        ≡ listings q h.exclusive_pools + (if same_pool new q then 1 else 0)
  unfolding new
  listings-new q =
      ground
        (arith, count_if-append (λ r. same_pool r q) h.exclusive_pools (exclusive h.created ∷ []))

  IsOnHost-new : (q : Pool) → IsOnHost h q → IsOnHost (with_new_pool h name) q
  IsOnHost-new reserved o = tt
  IsOnHost-new shared o = tt
  IsOnHost-new (exclusive n) o = omega (arith, listings-new (exclusive n))

  IsConsistent-new : IsConsistent (with_new_pool h name)
  unfolding new
  IsConsistent-new x q =
      ground (arith, nobody_there x, w.consistent x q, same_pool_iff (exclusive h.created) q)

  once_new : (q : Pool) → listings q (with_new_pool h name).exclusive_pools ≤ 1
  unfolding new
  once_new q = ground (
    arith,
    listings-new q,
    w.once q,
    w.fresh h.created (omega arith),
    same_pool_iff (exclusive h.created) q,
  )

  fresh_new :
      (n : ℕ)
      → h.created + 1 ≤ n
      → listings (exclusive n) (with_new_pool h name).exclusive_pools ≡ 0
  unfolding new same_pool
  fresh_new n b = ground (arith, listings-new (exclusive n), w.fresh n (omega arith))

  own_name_new :
      (other : String)
      → named (with_new_pool h name).pool_name other (with_new_pool h name).exclusive_pools ≤ 1
  unfolding new
  own_name_new other = ground (
    arith,
    count_if-append (λ r. str_eq (at_pool h.pool_name (exclusive h.created) name r) other)
        h.exclusive_pools (exclusive h.created ∷ []),
    count_if-agree (λ r. same_pool r (exclusive h.created))
        (λ r. str_eq (at_pool h.pool_name (exclusive h.created) name r) other)
        (λ r. str_eq (h.pool_name r) other) h.exclusive_pools (w.fresh h.created (omega arith))
        (λ r e. rw (same_pool_comm (exclusive h.created) r, e)),
    w.own_name other,
    unnamed,
    eq_iff name other,
    same_pool_iff (exclusive h.created) (exclusive h.created),
  )

  with_new_pool-IsWellFormed : IsWellFormed (with_new_pool h name)
  unfolding new same_pool
  with_new_pool-IsWellFormed = record {
    consistent = IsConsistent-new;
    homed = λ x m. IsOnHost-new (h.pool_of x) (w.homed x m);
    once = once_new;
    fresh = fresh_new;
    own_kind = (
      ground (arith, listings-new reserved, w.own_kind.0),
      ground (arith, listings-new shared, w.own_kind.1),
    );
    own_name = own_name_new;
  }

-- `AddExclusivePool` makes a pool only under a new name.
pub add_locked-IsWellFormed :
    (name : String) (h : Host) → IsWellFormed h → IsWellFormed (add_locked name h).1
unfolding add_locked
add_locked-IsWellFormed name h w = elim (Option-cases (get_exclusive_pool h name)) [
  | inl e ↦
      rw (e, add_locked)
        (with_new_pool-IsWellFormed name h w
          (named-none h.pool_name h.exclusive_pools name (unfold get_exclusive_pool in e)))
  | inr (q, e) ↦ rw (e, add_locked) w
]
