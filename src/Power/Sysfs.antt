-- ===== src/Power/Sysfs.antt =====
-- The sysfs files that the power library writes (`os.WriteFile` and `os.OpenFile` under `basePath`),
-- its errors, and functions that write files and may fail. Which writes fail is the kernel's choice,
-- and `fails` gives it for each write in turn; a write that fails leaves the file as it was.
use cluster_power_manager.Base.{
  ℕ, ◌+◌, ◌&&◌, ◌==◌, Bool, true, false, List, [], ◌∷◌, Option, none, some, String, if◌then◌else◌,
  ◌≡◌, refl, arith,
}

pub data File : Type 0 where
  governor epp scaling_max scaling_min scaling_setspeed : ℕ → File
  cstate_disable : ℕ → ℕ → File
  uncore_max uncore_min : ℕ → ℕ → File

abbrev pub file_eq : File → File → Bool
file_eq (governor a) (governor b) = a == b
file_eq (epp a) (epp b) = a == b
file_eq (scaling_max a) (scaling_max b) = a == b
file_eq (scaling_min a) (scaling_min b) = a == b
file_eq (scaling_setspeed a) (scaling_setspeed b) = a == b
file_eq (cstate_disable a i) (cstate_disable b j) = a == b && i == j
file_eq (uncore_max a i) (uncore_max b j) = a == b && i == j
file_eq (uncore_min a i) (uncore_min b j) = a == b && i == j
file_eq _ _ = false

pub data Content : Type 0 where
  text : String → Content
  number : ℕ → Content

pub record Sysfs : Type 0 where
  pub log : List (File × Content)  -- successful writes, newest first
  pub tick : ℕ
  pub fails : ℕ → Bool

pub data Error : Type 0 where
  target_nil reserved_to_exclusive exclusive_to_exclusive exclusive_to_reserved : Error
  cpu_not_in_pool cpu_not_in_list pool_not_on_host pool_exists : Error
  pool_not_removable reserved_profile out_of_range : Error
  set_governor set_epp set_max set_min set_cstate set_speed set_uncore : Error
  freq_types freq_percent freq_range : Error
  unreadable bad_architecture : Error
  api_failed object_missing not_available pool_missing profile_missing cores_mismatch : Error
  many_profiles requests_mismatch not_running no_uid single_dpdk missing_cpus recoverable : Error
  resources_missing bad_selector library_missing not_shared_profile repeated_core no_node_name
        conflicting :
      Error
  uncore_unsupported uncore_min_low uncore_max_high uncore_order : Error

-- How a Go call ends: with a value, an error or a panic, or never, waiting for a lock that is held.
pub data Result {ℓ} (A : Type ℓ) : Type ℓ where
  ok : A → Result A
  err : Error → Result A
  panic deadlock : Result A

-- A call that changes a state and may fail.
abbrev pub Action : Type 0 → Type 0 → Type 0
Action S A = S → Result A × S

abbrev pub pure : {S A : Type 0} → A → Action S A
pure a s = (ok a, s)

abbrev pub lift : {S A : Type 0} → Result A → Action S A
lift r s = (r, s)

abbrev pub bind_result : {S A B : Type 0} → Result A → S → (A → Action S B) → Result B × S
bind_result (ok a) s f = f a s
bind_result (err e) s f = (err e, s)
bind_result panic s f = (panic, s)
bind_result deadlock s f = (deadlock, s)

infixl 5 ◌>>=◌ ◌>>◌
abbrev pub ◌>>=◌ : {S A B : Type 0} → Action S A → (A → Action S B) → Action S B
◌>>=◌ m f s = let r = m s in bind_result r.0 r.1 f

abbrev pub ◌>>◌ : {S A B : Type 0} → Action S A → Action S B → Action S B
m >> k = m >>= λ _. k

abbrev pub M : Type 0 → Type 0
M A = Action Sysfs A

-- A write; the caller wraps the failure in its own error.
unfoldable pub write : File → Content → Error → M (Unit {0})
write f v e s =
    if s.fails s.tick
    then (err e, record s { tick = s.tick + 1 })
    else (ok tt, record s { log = (f, v) ∷ s.log; tick = s.tick + 1 })

-- What a file holds after the writes: the newest one, or nothing where none was made.
abbrev pub content : File → List (File × Content) → Option Content
content f [] = none
content f ((g, v) ∷ log) = if file_eq g f then some v else content f log

pub file_eq_refl : (f : File) → file_eq f f ≡ true
file_eq_refl (governor a) = ground arith
file_eq_refl (epp a) = ground arith
file_eq_refl (scaling_max a) = ground arith
file_eq_refl (scaling_min a) = ground arith
file_eq_refl (scaling_setspeed a) = ground arith
file_eq_refl (cstate_disable a i) = ground arith
file_eq_refl (uncore_max a i) = ground arith
file_eq_refl (uncore_min a i) = ground arith

-- Inversion of a chain that came back with a value: so did its first step.
pub bind_ok :
    {S A B P : Type 0} (m : Action S A) (f : A → Action S B) (s : S) {b : B} {s' : S}
    → (m >>= f) s ≡ (ok b, s')
    → ((a : A) (t : S) → m s ≡ (ok a, t) → f a t ≡ (ok b, s') → P)
    → P
bind_ok {S} {A} {B} {P} m f s {b} {s'} h k = go (m s).0 refl h
  where
    go : (r : Result A) → (m s).0 ≡ r → bind_result r (m s).1 f ≡ (ok b, s') → P
    go (ok a) e h = k a (m s).1 (cc) h
    go (err x) e h = absurd (cc)
    go panic e h = absurd (cc)
    go deadlock e h = absurd (cc)

-- A step that comes back with a value, and then the rest.
pub bind_value :
    {S A B : Type 0} (m : Action S A) (f : A → Action S B) (s : S) {a : A} {t : S}
    → m s ≡ (ok a, t)
    → (m >>= f) s ≡ f a t
bind_value m f s h = rw h

abbrev pub written : File → Content → Sysfs → Sysfs
written f v s = record s { log = (f, v) ∷ s.log; tick = s.tick + 1 }

pub write_ok :
    (f : File) (v : Content) (e : Error) (s : Sysfs) {u : Unit {0}} {s' : Sysfs}
    → write f v e s ≡ (ok u, s')
    → s' ≡ written f v s
unfolding write
write_ok f v e s h = ground arith

pub write_no_fault :
    (f : File) (v : Content) (e : Error) (s : Sysfs)
    → s.fails s.tick ≡ false
    → write f v e s ≡ (ok tt, written f v s)
unfolding write
write_no_fault f v e s h = rw h
