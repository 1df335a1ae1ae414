-- ===== src/Power/Host.antt =====
-- The host's state (internal/power/host.go, pool.go, cpu.go). A CPU object is made once for each id, so
-- its id stands for it; a pool is named by its kind, an exclusive one also by the number of its
-- creation, and `==` on pools compares these. The fields that CPUs and pools share by pointer are
-- functions of the CPU or pool, so that every holder of the pointer sees a change.
use cluster_power_manager.Base.{
  ℕ, ◌==◌, ◌≡◌, refl, subst, ◌↔◌, arith, Bool, true, false, List, Option, String, if◌then◌else◌,
}
use cluster_power_manager.Power.Sysfs.{Sysfs, M, Action, deadlock}
use cluster_power_manager.Power.PStates.{PStates, FreqPlatform}
use cluster_power_manager.Power.CStates.{CStates, CStatesPlatform}

pub data Pool : Type 0 where
  reserved shared : Pool
  exclusive : ℕ → Pool

unfoldable pub same_pool : Pool → Pool → Bool
same_pool reserved reserved = true
same_pool shared shared = true
same_pool (exclusive a) (exclusive b) = a == b
same_pool _ _ = false

pub same_pool_iff : (a b : Pool) → (same_pool a b ≡ true) ↔ (a ≡ b)
unfolding same_pool
same_pool_iff a b =
    (same_pool_sound a b, λ e. subst (λ q. same_pool a q ≡ true) e (same_pool_refl a))
  where
    same_pool_sound : (a b : Pool) → same_pool a b ≡ true → a ≡ b
    same_pool_sound reserved reserved h = refl
    same_pool_sound shared shared h = refl
    same_pool_sound (exclusive a) (exclusive b) h = ground arith
    same_pool_sound _ _ h = absurd (cc)

    same_pool_refl : (a : Pool) → same_pool a a ≡ true
    same_pool_refl reserved = refl
    same_pool_refl shared = refl
    same_pool_refl (exclusive a) = ground arith

pub same_pool_comm : (a b : Pool) → same_pool a b ≡ same_pool b a
unfolding same_pool
same_pool_comm reserved reserved = refl
same_pool_comm a b = ground arith

abbrev pub is_exclusive : Pool → Bool
is_exclusive (exclusive n) = true
is_exclusive _ = false

pub record Profile : Type 0 where
  pub name : String
  pub pstates : PStates
  pub cstates : CStates

-- What the library reads at start-up and only reads afterwards.
pub record Platform : Type 0 where
  pub freq : FreqPlatform
  pub idle : CStatesPlatform

pub record Host : Type 0 where
  pub all_cpus : List ℕ
  pub pool_of : ℕ → Pool
  pub cpus : Pool → List ℕ
  pub power_profile : Pool → Option Profile
  pub pool_name : Pool → String
  pub exclusive_pools : List Pool
  pub created : ℕ
  pub locked : Bool
  pub sysfs : Sysfs

abbrev pub at_cpu {ℓ} : {A : Type ℓ} → (ℕ → A) → ℕ → A → ℕ → A
at_cpu f c v x = if c == x then v else f x

abbrev pub at_pool {ℓ} : {A : Type ℓ} → (Pool → A) → Pool → A → Pool → A
at_pool f p v q = if same_pool p q then v else f q

-- A step on the files, as a step on the host.
abbrev pub on_sysfs : {A : Type 0} → M A → Action Host A
on_sysfs m h = let r = m h.sysfs in (r.0, record h { sysfs = r.1 })

-- `lockHostMutex` and the deferred unlock around an entry point. The mutex is not reentrant.
unfoldable pub with_host_mutex : {A : Type 0} → Action Host A → Action Host A
with_host_mutex m h =
    let r = m (record h { locked = true }) in
    if h.locked then (deadlock, h) else (r.0, record (r.1) { locked = false })
