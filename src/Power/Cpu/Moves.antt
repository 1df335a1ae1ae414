-- ===== src/Power/Cpu/Moves.antt =====
-- The move of one CPU between pools (`setPool`, `doSetPool` of internal/power/cpu.go): which moves are
-- made, and what every outcome leaves behind.
use cluster_power_manager.Base.{
  ℕ, ◌≡◌, refl, ap, subst, sym, ◌∙◌, ◌<◌, ◌==◌, ◌&&◌, ◌||◌, inl, inr, Bool, true, false, List, [],
  ◌∷◌, some, arith, if◌then◌else◌, count, contains, count-append, ==_refl, Bool-cases,
}
use cluster_power_manager.Power.Sysfs.{
  Sysfs, Error, reserved_to_exclusive, exclusive_to_exclusive, exclusive_to_reserved, Result, ok,
  err, panic, deadlock, bind_result, ◌>>◌, M,
}
use cluster_power_manager.Power.PStates.{update_frequencies}
use cluster_power_manager.Power.CStates.{update_cstates}
use cluster_power_manager.Power.Host.{
  Pool, reserved, shared, same_pool, same_pool_iff, is_exclusive, Platform, Host, at_cpu, at_pool,
  on_sysfs,
}
use cluster_power_manager.Power.Cpu.{
  add, remove, pstates_of, cstates_of, consolidate, settle, do_set_pool, set_pool_from, set_pool,
}
use cluster_power_manager.Power.Cpu.Lists.{count-remove, remove-total}

-- Every CPU of the host is in exactly one pool's list, once, and that pool is the one it names; no
-- other CPU is in any list.
abbrev pub IsConsistent : Host → Type 0
IsConsistent h =
    (x : ℕ) (q : Pool)
    → count x (h.cpus q) ≡ (if contains x h.all_cpus && same_pool (h.pool_of x) q then 1 else 0)

-- The call came back, with or without an error.
abbrev pub returns {ℓ} : {A : Type ℓ} → Result A → Bool
returns (ok a) = true
returns (err e) = true
returns panic = false
returns deadlock = false

abbrev pub succeeds {ℓ} : {A : Type ℓ} → Result A → Bool
succeeds (ok a) = true
succeeds _ = false

-- The states agree on all but the files and the CPUs' pools.
pub record Keeps (h h' : Host) : Type 0 where
  pub all_cpus_kept : h'.all_cpus ≡ h.all_cpus
  pub power_profile_kept : h'.power_profile ≡ h.power_profile
  pub pool_name_kept : h'.pool_name ≡ h.pool_name
  pub exclusive_pools_kept : h'.exclusive_pools ≡ h.exclusive_pools
  pub created_kept : h'.created ≡ h.created
  pub locked_kept : h'.locked ≡ h.locked

on_sysfs_twice :
    (m k : M (Unit {0})) (h : Host)
    → let r = (on_sysfs m >> on_sysfs k) h in r.1 ≡ record h { sysfs = r.1.sysfs }
on_sysfs_twice m k h = go (m h.sysfs).0
  where
    go :
        (r : Result (Unit {0}))
        → let s = bind_result r (record h { sysfs = (m h.sysfs).1 }) (λ _. on_sysfs k) in
          s.1 ≡ record h { sysfs = s.1.sysfs }
    go (ok a) = refl
    go (err e) = refl
    go panic = refl
    go deadlock = refl

-- Consolidation writes files and changes nothing else.
pub consolidate_frame :
    (p : Platform) (c : ℕ) (h : Host)
    → (consolidate p c h).1 ≡ record h { sysfs = (consolidate p c h).1.sysfs }
unfolding consolidate
consolidate_frame p c h =
    on_sysfs_twice (update_frequencies p.freq c (pstates_of (h.power_profile (h.pool_of c))))
      (update_cstates p.idle c (cstates_of (h.power_profile (h.pool_of c)))) h

-- The host while the CPU is between two lists.
abbrev between : Host → ℕ → Pool → List ℕ → Sysfs → Host
between h c pool l s = record h {
  pool_of = at_cpu h.pool_of c pool;
  cpus = at_pool h.cpus (h.pool_of c) l;
  sysfs = s;
}

module _ (h : Host) (c : ℕ) (pool : Pool) (l : List ℕ) (s : Sysfs) (consistent : IsConsistent h)
    (managed : contains c h.all_cpus ≡ true) (taken : remove c (h.cpus (h.pool_of c)) ≡ some l)
    (away : same_pool (h.pool_of c) pool ≡ false) where
  settle-IsConsistent :
      (r : Result (Unit {0}))
      → returns r ≡ true
      → IsConsistent (settle c (h.pool_of c) (r, between h c pool l s)).1
  unfolding settle add
  settle-IsConsistent (ok u) e x q = rw (==_refl c) (
      ground (
        arith,
        consistent x q,
        consistent x pool,
        consistent x (h.pool_of c),
        count-remove x c (h.cpus (h.pool_of c)) taken,
        count-append x l (c ∷ []),
        count-append x (h.cpus pool) (c ∷ []),
        same_pool_iff q pool,
        same_pool_iff pool q,
        same_pool_iff (h.pool_of c) q,
        same_pool_iff pool (h.pool_of c),
        same_pool_iff (h.pool_of c) pool,
      ))
  settle-IsConsistent (err d) e x q = ground (
    arith,
    consistent x q,
    consistent x (h.pool_of c),
    count-remove x c (h.cpus (h.pool_of c)) taken,
    count-append x l (c ∷ []),
    same_pool_iff (h.pool_of c) q,
    same_pool_iff (h.pool_of c) (h.pool_of c),
  )
  settle-IsConsistent panic e x q = absurd (cc)
  settle-IsConsistent deadlock e x q = absurd (cc)

  settle-pool_of :
      (r : Result (Unit {0}))
      → returns r ≡ true
      → (x : ℕ)
      → (settle c (h.pool_of c) (r, between h c pool l s)).1.pool_of x
        ≡ (if succeeds r && c == x then pool else h.pool_of x)
  unfolding settle
  settle-pool_of (ok u) e x = ground arith
  settle-pool_of (err d) e x = ground arith
  settle-pool_of panic e x = absurd (cc)
  settle-pool_of deadlock e x = absurd (cc)

settle-result : (c : ℕ) (orig : Pool) (r : Result (Unit {0}) × Host) → (settle c orig r).0 ≡ r.0
unfolding settle
settle-result c orig (ok u, h) = refl
settle-result c orig (err d, h) = refl
settle-result c orig (panic, h) = refl
settle-result c orig (deadlock, h) = refl

settle-Keeps :
    (h k : Host) (c : ℕ) (orig : Pool) (r : Result (Unit {0}))
    → Keeps h k
    → Keeps h (settle c orig (r, k)).1
unfolding settle
settle-Keeps h k c orig (ok u) e = ground arith
settle-Keeps h k c orig (err d) e = ground arith
settle-Keeps h k c orig panic e = e
settle-Keeps h k c orig deadlock e = e

pub Keeps-refl : (h : Host) → Keeps h h
Keeps-refl h = ground arith

-- What a move of the CPU to the pool leaves, whatever its outcome.
pub record Moved (h : Host) (c : ℕ) (pool : Pool) (r : Result (Unit {0}) × Host) : Type 0 where
  pub keeps : Keeps h r.1
  pub consistent : IsConsistent r.1
  pub placed : (x : ℕ) → r.1.pool_of x ≡ (if succeeds r.0 && c == x then pool else h.pool_of x)

-- The host as the CPU has left its list, before the profile of its new pool is applied.
abbrev pub unlisted : Host → ℕ → Pool → List ℕ → Host
unlisted h c pool l = record h {
  pool_of = at_cpu h.pool_of c pool;
  cpus = at_pool h.cpus (h.pool_of c) l;
}

do_set_pool_run :
    (p : Platform) (c : ℕ) (pool : Pool) (h : Host) (l : List ℕ)
    → remove c (h.cpus (h.pool_of c)) ≡ some l
    → let r = consolidate p c (unlisted h c pool l) in
      do_set_pool p c pool h ≡ settle c (h.pool_of c) (r.0, between h c pool l r.1.sysfs)
unfolding do_set_pool
do_set_pool_run p c pool h l t =
    let r = consolidate p c (unlisted h c pool l) in
    rw (t, do_set_pool)
      (ap (λ k. settle c (h.pool_of c) (r.0, k)) (consolidate_frame p c (unlisted h c pool l)))

settle-Moved :
    (h : Host) (c : ℕ) (pool : Pool) (l : List ℕ) (s : Sysfs) (r : Result (Unit {0}))
    → IsConsistent h
    → contains c h.all_cpus ≡ true
    → remove c (h.cpus (h.pool_of c)) ≡ some l
    → same_pool (h.pool_of c) pool ≡ false
    → returns r ≡ true
    → Moved h c pool (settle c (h.pool_of c) (r, between h c pool l s))
settle-Moved h c pool l s r i m t a e = record {
  keeps = settle-Keeps h (between h c pool l s) c (h.pool_of c) r (ground arith);
  consistent = settle-IsConsistent h c pool l s i m t a r e;
  placed = λ x.
      rw (settle-result c (h.pool_of c) (r, between h c pool l s))
        (settle-pool_of h c pool l s i m t a r e x);
}

-- A managed CPU is in its pool's list.
listed :
    (c : ℕ) (h : Host)
    → IsConsistent h
    → contains c h.all_cpus ≡ true
    → 0 < count c (h.cpus (h.pool_of c))
listed c h i m = ground (arith, i c (h.pool_of c), same_pool_iff (h.pool_of c) (h.pool_of c))

do_set_pool-Moved :
    (p : Platform) (c : ℕ) (pool : Pool) (h : Host)
    → IsConsistent h
    → contains c h.all_cpus ≡ true
    → same_pool (h.pool_of c) pool ≡ false
    → returns (do_set_pool p c pool h).0 ≡ true
    → Moved h c pool (do_set_pool p c pool h)
do_set_pool-Moved p c pool h i m a e = go (remove-total c (h.cpus (h.pool_of c)) (listed c h i m))
  where
    go :
        (l : List ℕ) × (remove c (h.cpus (h.pool_of c)) ≡ some l)
        → Moved h c pool (do_set_pool p c pool h)
    go (l, t) =
        let run = do_set_pool_run p c pool h l t in
        let k = consolidate p c (unlisted h c pool l) in
        subst (Moved h c pool) (sym run) (
          settle-Moved h c pool l k.1.sysfs k.0 i m t a (
            ap returns (
              sym (
                ap (λ r. r.0) run
                ∙ settle-result c (h.pool_of c) (k.0, between h c pool l k.1.sysfs)))
            ∙ e))

-- A move that changes nothing, refused or not needed.
unmoved :
    (h : Host) (c : ℕ) (pool : Pool) (r : Result (Unit {0}))
    → IsConsistent h
    → (succeeds r ≡ true → h.pool_of c ≡ pool)
    → Moved h c pool (r, h)
unmoved h c pool r i e = record { keeps = Keeps-refl h; consistent = i; placed = λ x. ground arith }

-- The moves that the pools admit: none at all, or one between the shared pool and another.
abbrev pub admits : Pool → Pool → Bool
admits current target =
    same_pool current target || same_pool current shared || same_pool target shared

-- Why a move that the pools do not admit is refused.
abbrev pub refusal : Pool → Pool → Error
refusal current target =
    if is_exclusive current
    then (if is_exclusive target then exclusive_to_exclusive else exclusive_to_reserved)
    else reserved_to_exclusive

refused_from :
    (p : Platform) (c : ℕ) (a b : Pool) (h : Host)
    → admits a b ≡ false
    → set_pool_from p c a b h ≡ (err (refusal a b), h)
unfolding set_pool_from same_pool
refused_from p c reserved reserved h n = absurd (cc)
refused_from p c a b h n = ground arith

admitted_from :
    (p : Platform) (c : ℕ) (a b : Pool) (h : Host)
    → admits a b ≡ true
    → set_pool_from p c a b h ≡ (if same_pool a b then (ok tt, h) else do_set_pool p c b h)
unfolding set_pool_from same_pool
admitted_from p c reserved reserved h n = refl
admitted_from p c a b h n = ground arith

-- A move that the pools do not admit is refused with the error of its kind, and changes nothing.
pub set_pool_refused :
    (p : Platform) (c : ℕ) (target : Pool) (h : Host)
    → admits (h.pool_of c) target ≡ false
    → set_pool p c (some target) h ≡ (err (refusal (h.pool_of c) target), h)
unfolding set_pool
set_pool_refused p c target h n = refused_from p c (h.pool_of c) target h n

-- A move that the pools admit is made, unless the CPU is there already: it never meets the panic at
-- the end of `setPool`.
pub set_pool_admitted :
    (p : Platform) (c : ℕ) (target : Pool) (h : Host)
    → admits (h.pool_of c) target ≡ true
    → set_pool p c (some target) h
      ≡ (if same_pool (h.pool_of c) target then (ok tt, h) else do_set_pool p c target h)
unfolding set_pool
set_pool_admitted p c target h n = admitted_from p c (h.pool_of c) target h n

-- From consistent lists, for a CPU of the host, a `setPool` that comes back, with an error or none:
-- every CPU is in exactly its pool's list, the CPU is in the target pool after a success and in its
-- old pool after an error, no other CPU has moved, and nothing else of the host but files has
-- changed.
pub set_pool-Moved :
    (p : Platform) (c : ℕ) (target : Pool) (h : Host)
    → IsConsistent h
    → contains c h.all_cpus ≡ true
    → returns (set_pool p c (some target) h).0 ≡ true
    → Moved h c target (set_pool p c (some target) h)
set_pool-Moved p c target h i m e = elim (Bool-cases (admits (h.pool_of c) target)) [
  | inl n ↦ elim (Bool-cases (same_pool (h.pool_of c) target)) [
    | inl s ↦
        subst (Moved h c target) (sym (stays n s))
          (unmoved h c target (ok tt) i λ x. (same_pool_iff (h.pool_of c) target).0 s)
    | inr a ↦
        subst (Moved h c target) (sym (goes n a))
          (do_set_pool-Moved p c target h i m a (ap (λ r. returns r.0) (sym (goes n a)) ∙ e))
  ]
  | inr n ↦
      subst (Moved h c target) (sym (set_pool_refused p c target h n))
        (unmoved h c target (err (refusal (h.pool_of c) target)) i λ x. absurd (cc))
]
  where
    stays :
        admits (h.pool_of c) target ≡ true
        → same_pool (h.pool_of c) target ≡ true
        → set_pool p c (some target) h ≡ (ok tt, h)
    stays n s = set_pool_admitted p c target h n ∙ rw s

    goes :
        admits (h.pool_of c) target ≡ true
        → same_pool (h.pool_of c) target ≡ false
        → set_pool p c (some target) h ≡ do_set_pool p c target h
    goes n a = set_pool_admitted p c target h n ∙ rw a
