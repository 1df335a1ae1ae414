-- ===== src/Power/Pool/Invariant.antt =====
-- What holds of the host after any calls on its pools (internal/power/pool.go, host.go).
use cluster_power_manager.Base.{
  ℕ, ◌≤◌, ◌<◌, ◌≡◌, ◌≢◌, refl, ap, sym, subst, ◌∙◌, ◌⊎◌, inl, inr, Bool, true, List, [], ◌∷◌,
  Option, String, str_eq, arith, Bool-cases, contains, count_if,
}
use cluster_power_manager.Power.Sysfs.{Result, ok, err, panic, deadlock, Action, bind_result, ◌>>◌}
use cluster_power_manager.Power.Host.{
  Pool, reserved, shared, exclusive, same_pool, Profile, Platform, Host, at_pool,
}
use cluster_power_manager.Power.Cpu.{consolidate}
use cluster_power_manager.Power.Cpu.Moves.{IsConsistent, consolidate_frame}
use cluster_power_manager.Power.Pool.{for_each, move_cpus, set_cpus, apply_power_profile}
use cluster_power_manager.Power.Pool.Loops.{Managed, Looped}
use cluster_power_manager.Power.Pool.Members.{
  set_cpus-Looped, move_cpus-Looped, set_dest, set_may, home,
}

-- How often the pool is on the list, and how many pools on it have the name.
abbrev pub listings : Pool → List Pool → ℕ
listings pool = count_if λ q. same_pool q pool

abbrev pub named : (Pool → String) → String → List Pool → ℕ
named names name = count_if λ q. str_eq (names q) name

-- The pools that a caller can hold: the reserved one, the shared one, and those on the host's list.
abbrev pub IsOnHost : Host → Pool → Type 0
IsOnHost h reserved = Unit {0}
IsOnHost h shared = Unit {0}
IsOnHost h (exclusive n) = 0 < listings (exclusive n) h.exclusive_pools

-- Every CPU is in exactly one list, that of a pool on the host; the list of exclusive pools holds
-- exclusive pools that were created, each once and under a name of its own.
pub record IsWellFormed (h : Host) : Type 0 where
  pub consistent : IsConsistent h
  pub homed : (x : ℕ) → contains x h.all_cpus ≡ true → IsOnHost h (h.pool_of x)
  pub once : (q : Pool) → listings q h.exclusive_pools ≤ 1
  pub fresh : (n : ℕ) → h.created ≤ n → listings (exclusive n) h.exclusive_pools ≡ 0
  pub own_kind : (listings reserved h.exclusive_pools ≡ 0) × (listings shared h.exclusive_pools ≡ 0)
  pub own_name : (name : String) → named h.pool_name name h.exclusive_pools ≤ 1

pub IsOnHost-kept :
    (h k : Host) (q : Pool) → k.exclusive_pools ≡ h.exclusive_pools → IsOnHost h q → IsOnHost k q
IsOnHost-kept h k reserved e o = tt
IsOnHost-kept h k shared e o = tt
IsOnHost-kept h k (exclusive n) e o = rw e o

-- A loop whose destinations are on the host keeps the host well formed.
pub Looped-IsWellFormed :
    (h : Host) (cpus : List ℕ) (dest : ℕ → Pool → Pool) (may : ℕ → Pool → Bool)
    (r : Result (Unit {0}) × Host)
    → ((x : ℕ) (q : Pool) → IsOnHost h q → IsOnHost h (dest x q))
    → IsWellFormed h
    → Looped h cpus dest may r
    → IsWellFormed r.1
Looped-IsWellFormed h cpus dest may r d w l = record {
  consistent = l.consistent;
  homed = λ x m. home_of x (rw l.keeps.all_cpus_kept at m) (l.partly x);
  once = λ q. rw l.keeps.exclusive_pools_kept (w.once q);
  fresh = λ n b. rw l.keeps.exclusive_pools_kept (w.fresh n (ground (arith, l.keeps.created_kept)));
  own_kind = rw l.keeps.exclusive_pools_kept w.own_kind;
  own_name = λ name. rw (l.keeps.exclusive_pools_kept, l.keeps.pool_name_kept) (w.own_name name);
}
  where
    home_of :
        (x : ℕ)
        → contains x h.all_cpus ≡ true
        → (r.1.pool_of x ≡ h.pool_of x)
          ⊎ ((contains x cpus ≡ true) × (r.1.pool_of x ≡ dest x (h.pool_of x)))
        → IsOnHost r.1 (r.1.pool_of x)
    home_of x m (inl e) =
        subst (IsOnHost r.1) (sym e)
          (IsOnHost-kept h r.1 (h.pool_of x) l.keeps.exclusive_pools_kept (w.homed x m))
    home_of x m (inr (y, e)) = subst (IsOnHost r.1) (sym e) (
        IsOnHost-kept h r.1 (dest x (h.pool_of x)) l.keeps.exclusive_pools_kept
          (d x (h.pool_of x) (w.homed x m)))

pub IsOnHost-home : (h : Host) (pool : Pool) → IsOnHost h (home pool)
IsOnHost-home h reserved = tt
IsOnHost-home h shared = tt
IsOnHost-home h (exclusive n) = tt

set_dest-IsOnHost :
    (h : Host) (pool : Pool) (cores : List ℕ) (x : ℕ) (q : Pool)
    → IsOnHost h pool
    → IsOnHost h q
    → IsOnHost h (set_dest pool cores x q)
set_dest-IsOnHost h pool cores x q o here = elim (Bool-cases (contains x cores)) [
  | inl a ↦ rw a o
  | inr a ↦ elim (Bool-cases (same_pool q pool)) [
    | inl b ↦ rw (a, b) (IsOnHost-home h pool)
    | inr b ↦ rw (a, b) here
  ]
]

pub set_cpus-IsWellFormed :
    (p : Platform) (known : p.freq.core_types ≢ []) (pool : Pool) (cores : List ℕ) (h : Host)
    → IsOnHost h pool
    → IsWellFormed h
    → IsWellFormed (set_cpus p pool cores h).1
set_cpus-IsWellFormed p known pool cores h o w =
    Looped-IsWellFormed h h.all_cpus (set_dest pool cores) (set_may pool cores) _
      (λ x q here. set_dest-IsOnHost h pool cores x q o here) w
      (set_cpus-Looped p known pool cores h w.consistent)

pub move_cpus-IsWellFormed :
    (p : Platform) (known : p.freq.core_types ≢ []) (pool : Pool) (cpus : List ℕ) (h : Host)
    → IsOnHost h pool
    → Managed h cpus
    → IsWellFormed h
    → IsWellFormed (move_cpus p pool cpus h).1
move_cpus-IsWellFormed p known pool cpus h o m w =
    Looped-IsWellFormed h cpus _ _ _ (λ x q here. o) w
      (move_cpus-Looped p known pool cpus h w.consistent m)

abbrev FilesOnly : Host → Host → Type 0
FilesOnly h k = k ≡ record h { sysfs = k.sysfs }

FilesOnly-trans : (h k l : Host) → FilesOnly h k → FilesOnly k l → FilesOnly h l
FilesOnly-trans h k l a b = b ∙ ap {A = Host} {B = Host} (λ z. record z { sysfs = l.sysfs }) a

FilesOnly-bind :
    (m rest : Action Host (Unit {0})) (h : Host)
    → FilesOnly h (m h).1
    → ((k : Host) → FilesOnly k (rest k).1)
    → FilesOnly h ((m >> rest) h).1
FilesOnly-bind m rest h a b = go (m h).0
  where
    go : (r : Result (Unit {0})) → FilesOnly h (bind_result r (m h).1 (λ _. rest)).1
    go (ok u) = FilesOnly-trans h (m h).1 (rest (m h).1).1 a (b (m h).1)
    go (err d) = a
    go panic = a
    go deadlock = a

-- Applying a profile changes profiles and files only.
pub for_each-consolidate :
    (p : Platform) (cpus : List ℕ) (h : Host) → FilesOnly h (for_each (consolidate p) cpus h).1
unfolding for_each
for_each-consolidate p [] h = refl
for_each-consolidate p (c ∷ cpus) h =
    FilesOnly-bind (consolidate p c) (for_each (consolidate p) cpus) h (consolidate_frame p c h)
      (for_each-consolidate p cpus)

pub apply_power_profile-IsWellFormed :
    (p : Platform) (pool : Pool) (profile : Option Profile) (h : Host)
    → IsWellFormed h
    → IsWellFormed (apply_power_profile p pool profile h).1
unfolding apply_power_profile
apply_power_profile-IsWellFormed p pool profile h w =
    subst IsWellFormed
      (sym (
        for_each-consolidate p (h.cpus pool)
          (record h { power_profile = at_pool h.power_profile pool profile })))
      (record {
        consistent = w.consistent;
        homed = λ x m.
            IsOnHost-kept h (record h { power_profile = at_pool h.power_profile pool profile })
              (h.pool_of x) refl (w.homed x m);
        once = w.once;
        fresh = w.fresh;
        own_kind = w.own_kind;
        own_name = w.own_name;
      })
