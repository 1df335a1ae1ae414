-- ===== src/Power/Cpu/Returns.antt =====
-- Consolidation comes back (internal/power: `consolidate` and what it calls): no panic on a host whose
-- core types are known.
use cluster_power_manager.Base.{
  ℕ, ◌≡◌, ◌≢◌, refl, Bool, true, List, [], ◌∷◌, Option, none, some, arith, String, Bool-cases,
  Option-cases, inl, inr,
}
use cluster_power_manager.Power.Sysfs.{
  Sysfs, File, Content, Error, Result, ok, err, panic, deadlock, Action, lift, bind_result, ◌>>=◌,
  write, governor, text, set_governor,
}
use cluster_power_manager.Power.PStates.{
  PStates, FreqSet, FreqPlatform, get_abs_min_max_freq, get_abs_min_max, get_freqs_to_scale,
  get_freq_from_int_or_string, write_freqs, write_epp, set_driver_values, update_frequencies,
}
use cluster_power_manager.Power.CStates.{
  CStateInfo, CStates, CStatesPlatform, apply_cstate, apply_cstates, desired_cstates,
  update_cstates,
}
use cluster_power_manager.Power.Host.{Pool, Platform, Host, on_sysfs}
use cluster_power_manager.Power.Cpu.{
  consolidate, pstates_of, cstates_of, remove, settle, do_set_pool, set_pool,
}
use cluster_power_manager.Power.Cpu.Moves.{
  returns, unlisted, admits, set_pool_admitted, set_pool_refused,
}

-- A step that always comes back.
abbrev pub Returns : {S A : Type 0} → Action S A → Type 0
Returns {S} m = (s : S) → returns (m s).0 ≡ true

pub bind-Returns :
    {S A B : Type 0} (m : Action S A) (f : A → Action S B)
    → Returns m
    → ((a : A) → Returns (f a))
    → Returns (m >>= f)
bind-Returns {S} {A} {B} m f hm hf s = go (m s).0 (hm s)
  where
    go : (r : Result A) → returns r ≡ true → returns (bind_result r (m s).1 f).0 ≡ true
    go (ok a) e = hf a (m s).1
    go (err d) e = refl
    go panic e = absurd (cc)
    go deadlock e = absurd (cc)

write-Returns : (f : File) (v : Content) (e : Error) → Returns (write f v e)
unfolding write
write-Returns f v e s = ground arith

limits-Returns :
    (ts : List FreqSet) → ts ≢ [] → Returns {S = Sysfs} (lift (get_abs_min_max_freq ts))
unfolding get_abs_min_max_freq
limits-Returns [] n s = absurd (n refl)
limits-Returns (t ∷ ts) n s = refl

get_freqs_to_scale-Returns :
    (p : FreqPlatform) (c : ℕ) (ps : PStates) → Returns (get_freqs_to_scale p c ps)
unfolding get_freqs_to_scale get_freq_from_int_or_string
get_freqs_to_scale-Returns p c ps s = ground arith

write_epp-Returns : (c : ℕ) (e : String) → Returns (write_epp c e)
unfolding write_epp write
write_epp-Returns c e s = ground arith

write_freqs-Returns : (c lo hi : ℕ) (limits : ℕ × ℕ) → Returns (write_freqs c lo hi limits)
unfolding write_freqs write
write_freqs-Returns c lo hi limits s = ground arith

set_driver_values-Returns :
    (p : FreqPlatform) (c : ℕ) (ps : PStates)
    → p.core_types ≢ []
    → Returns (set_driver_values p c ps)
unfolding set_driver_values
set_driver_values-Returns p c ps n =
    bind-Returns _ _ (write-Returns (governor c) (text ps.governor_value) set_governor) λ _.
      bind-Returns _ _ (write_epp-Returns c ps.epp_value) λ _.
        bind-Returns _ _ (limits-Returns p.core_types n) λ system.
          bind-Returns _ _ (get_freqs_to_scale-Returns p c ps)
            λ requested. write_freqs-Returns c _ _ (get_abs_min_max p c)

update_frequencies-Returns :
    (p : FreqPlatform) (c : ℕ) (profile : Option PStates)
    → p.core_types ≢ []
    → Returns (update_frequencies p c profile)
unfolding update_frequencies
update_frequencies-Returns p c none n s =
    ground (arith, set_driver_values-Returns p c (p.default_pstates c) n s)
update_frequencies-Returns p c (some ps) n s = ground (arith, set_driver_values-Returns p c ps n s)

apply_cstate-Returns :
    (info : List (String × CStateInfo)) (c : ℕ) (t : String × Bool)
    → Returns (apply_cstate info c t)
unfolding apply_cstate write
apply_cstate-Returns info c t s = ground arith

apply_cstates-Returns :
    (info : List (String × CStateInfo)) (c : ℕ) (l : List (String × Bool))
    → Returns (apply_cstates info c l)
unfolding apply_cstates
apply_cstates-Returns info c [] s = refl
apply_cstates-Returns info c (t ∷ l) s =
    bind-Returns (apply_cstate info c t) (λ _. apply_cstates info c l)
      (apply_cstate-Returns info c t) (λ _. apply_cstates-Returns info c l) s

update_cstates-Returns :
    (p : CStatesPlatform) (c : ℕ) (profile : Option CStates) → Returns (update_cstates p c profile)
unfolding update_cstates
update_cstates-Returns p c profile s = ground (
  arith,
  apply_cstates-Returns (p.cstates_info c) c (desired_cstates (p.cstates_info c) profile) s,
)

pub consolidate-Returns :
    (p : Platform) (c : ℕ) → p.freq.core_types ≢ [] → Returns (consolidate p c)
unfolding consolidate
consolidate-Returns p c n h =
    let freqs = pstates_of (h.power_profile (h.pool_of c)) in
    let idles = cstates_of (h.power_profile (h.pool_of c)) in
    bind-Returns (on_sysfs (update_frequencies p.freq c freqs))
      (λ _. on_sysfs (update_cstates p.idle c idles))
      (λ k. update_frequencies-Returns p.freq c freqs n k.sysfs)
      (λ _ k. update_cstates-Returns p.idle c idles k.sysfs) h

settle-returns :
    (c : ℕ) (orig : Pool) (r : Result (Unit {0}) × Host)
    → returns r.0 ≡ true
    → returns (settle c orig r).0 ≡ true
unfolding settle
settle-returns c orig (ok u, h) e = e
settle-returns c orig (err d, h) e = e
settle-returns c orig (panic, h) e = e
settle-returns c orig (deadlock, h) e = e

do_set_pool-Returns :
    (p : Platform) (c : ℕ) (pool : Pool) → p.freq.core_types ≢ [] → Returns (do_set_pool p c pool)
unfolding do_set_pool
do_set_pool-Returns p c pool n h = elim (Option-cases (remove c (h.cpus (h.pool_of c)))) [
  | inl e ↦ rw (e, do_set_pool) refl
  | inr (l, e) ↦
      rw (e, do_set_pool)
        (settle-returns c (h.pool_of c) (consolidate p c (unlisted h c pool l))
          (consolidate-Returns p c n (unlisted h c pool l)))
]

-- `setPool` comes back for every CPU, target and state: it does not reach its panic.
pub set_pool-Returns :
    (p : Platform) (c : ℕ) (target : Pool)
    → p.freq.core_types ≢ []
    → Returns (set_pool p c (some target))
set_pool-Returns p c target n h = elim (Bool-cases (admits (h.pool_of c) target)) [
  | inl a ↦
      rw (set_pool_admitted p c target h a) (ground (arith, do_set_pool-Returns p c target n h))
  | inr a ↦ rw (set_pool_refused p c target h a)
]
