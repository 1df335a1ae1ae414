-- ===== src/Power/PStates/Bounds.antt =====
-- What `setDriverValues` of internal/power/p_states.go leaves in a CPU's cpufreq files.
use cluster_power_manager.Base.{
  ℕ, ◌+◌, ◌≤◌, ◌<◌, ◌≡◌, refl, ap, sym, ◌∙◌, ◌&&◌, false, List, [], ◌∷◌, some, subst, String, u64,
  arith, ℤ, to_uint, pos, All, ltb, leb, if◌then◌else◌, str_eq,
}
use cluster_power_manager.Power.Sysfs.{
  governor, epp, scaling_max, scaling_min, text, number, set_governor, ok, err, freq_range, Sysfs,
  content, bind_ok, write_ok, write, lift, written, write_no_fault, bind_value,
}
use cluster_power_manager.Power.PStates.{
  PStates, FreqSet, FreqPlatform, int, abs_min_max_loop, get_abs_min_max_freq, get_abs_min_max,
  get_freqs_to_scale, get_freq_from_int_or_string, clamp_min, clamp_max, write_freqs, write_epp,
  set_driver_values,
}

-- Every core type lies in the range.
abbrev pub Covers : ℕ → ℕ → List FreqSet → Type 0
Covers mn mx = All λ t. (mn ≤ t.min) × (t.max ≤ mx)

abs_min_max_loop_bounds :
    (mn mx : ℕ) (ts : List FreqSet)
    → let r = abs_min_max_loop mn mx ts in (r.0 ≤ mn) × (mx ≤ r.1) × Covers r.0 r.1 ts
unfolding abs_min_max_loop
abs_min_max_loop_bounds mn mx [] = (omega arith, omega arith, tt)
abs_min_max_loop_bounds mn mx (t ∷ ts) =
    let ih =
      abs_min_max_loop_bounds (if ltb t.min mn then t.min else mn)
        (if ltb mx t.max then t.max else mx) ts in
    (
      ground (arith, ih.0),
      ground (arith, ih.1),
      ((ground (arith, ih.0), ground (arith, ih.1)), ih.2),
    )

ok-injective : {a b : ℕ × ℕ} → ok a ≡ ok b → a ≡ b
ok-injective h = cc

-- The system's range covers every core type.
pub get_abs_min_max_freq-Covers :
    (ts : List FreqSet) {mn mx : ℕ} → get_abs_min_max_freq ts ≡ ok (mn, mx) → Covers mn mx ts
unfolding get_abs_min_max_freq
get_abs_min_max_freq-Covers [] h = absurd (cc)
get_abs_min_max_freq-Covers (t ∷ ts) h =
    let b = abs_min_max_loop_bounds t.min t.max ts in
    subst (λ r. Covers r.0 r.1 (t ∷ ts)) (ok-injective h) ((b.0, b.1), b.2)

after_epp : ℕ → String → Sysfs → Sysfs
after_epp c e s = if str_eq e "" then s else written (epp c) (text e) s

write_epp_ok :
    (c : ℕ) (e : String) (s : Sysfs) {u : Unit {0}} {s' : Sysfs}
    → write_epp c e s ≡ (ok u, s')
    → s' ≡ (after_epp c e s)
unfolding write_epp write after_epp
write_epp_ok c e s h = ground arith

write_freqs_ok :
    (c lo hi : ℕ) (limits : ℕ × ℕ) (s : Sysfs) {u : Unit {0}} {s' : Sysfs}
    → write_freqs c lo hi limits s ≡ (ok u, s')
    → (limits.0 ≤ lo)
      × (hi ≤ limits.1)
      × (s' ≡ written (scaling_min c) (number lo) (written (scaling_max c) (number hi) s))
unfolding write_freqs write
write_freqs_ok c lo hi limits s h = ground arith

limits_ok :
    (ts : List FreqSet) (s : Sysfs) {a : ℕ × ℕ} {s' : Sysfs}
    → lift (get_abs_min_max_freq ts) s ≡ (ok a, s')
    → (get_abs_min_max_freq ts ≡ ok a) × (s' ≡ s)
limits_ok ts s h = (ap (λ r. r.0) h, sym (ap (λ r. r.1) h))

-- Reading the request writes nothing.
get_freqs_to_scale_state :
    (p : FreqPlatform) (c : ℕ) (ps : PStates) (s : Sysfs) → (get_freqs_to_scale p c ps s).1 ≡ s
unfolding get_freqs_to_scale
get_freqs_to_scale_state p c ps s = ground arith

files_in_range :
    (c : ℕ) (ps : PStates) (s s1 s2 s4 s' : Sysfs) (lo hi : ℕ) (limits : ℕ × ℕ)
    → s1 ≡ written (governor c) (text ps.governor_value) s
    → s2 ≡ after_epp c ps.epp_value s1
    → s4 ≡ s2
    → (limits.0 ≤ lo)
      × (hi ≤ limits.1)
      × (s' ≡ written (scaling_min c) (number lo) (written (scaling_max c) (number hi) s4))
    → (lo hi : ℕ) × (content (scaling_min c) s'.log ≡ some (number lo))
      × (content (scaling_max c) s'.log ≡ some (number hi))
      × (content (governor c) s'.log ≡ some (text ps.governor_value))
      × (limits.0 ≤ lo)
      × (hi ≤ limits.1)
unfolding after_epp
files_in_range c ps s s1 s2 s4 s' lo hi limits e1 e2 e4 w =
    (lo, hi, ground arith, ground arith, ground arith, w.0, w.1)

-- After a success the CPU's minimum file holds a value that is not below the CPU's hardware minimum,
-- its maximum file one that is not above its hardware maximum, and the governor file holds the
-- profile's governor.
pub set_driver_values_in_range :
    (p : FreqPlatform) (c : ℕ) (ps : PStates) (s s' : Sysfs)
    → set_driver_values p c ps s ≡ (ok tt, s')
    → (lo hi : ℕ) × (content (scaling_min c) s'.log ≡ some (number lo))
      × (content (scaling_max c) s'.log ≡ some (number hi))
      × (content (governor c) s'.log ≡ some (text ps.governor_value))
      × ((get_abs_min_max p c).0 ≤ lo)
      × (hi ≤ (get_abs_min_max p c).1)
unfolding set_driver_values
set_driver_values_in_range p c ps s s' h =
    bind_ok (write (governor c) (text ps.governor_value) set_governor) _ s h λ u1 s1 e1 h1.
      bind_ok (write_epp c ps.epp_value) _ s1 h1 λ u2 s2 e2 h2.
        bind_ok (lift (get_abs_min_max_freq p.core_types)) _ s2 h2 λ sys s3 e3 h3.
          bind_ok (get_freqs_to_scale p c ps) _ s3 h3 λ req s4 e4 h4.
            files_in_range c ps s s1 s2 s4 s' _ _ (get_abs_min_max p c) (write_ok _ _ _ s e1)
              (write_epp_ok c ps.epp_value s1 e2)
              (sym (ap (λ r. r.1) e4) ∙ get_freqs_to_scale_state p c ps s3 ∙ sym (ap (λ r. r.1) e3))
              (write_freqs_ok c _ _ (get_abs_min_max p c) s4 h4)

-- No write fails.
abbrev pub IsHealthy : Sysfs → Type 0
IsHealthy s = (n : ℕ) → s.fails n ≡ false

after_epp-IsHealthy : (c : ℕ) (e : String) (s : Sysfs) → IsHealthy s → IsHealthy (after_epp c e s)
unfolding after_epp
after_epp-IsHealthy c e s h n = ground (arith, h n)

write_epp_no_fault :
    (c : ℕ) (e : String) (s : Sysfs) → IsHealthy s → write_epp c e s ≡ (ok tt, after_epp c e s)
unfolding write_epp after_epp write
write_epp_no_fault c e s h = ground (arith, h s.tick)

-- The integers of a profile are read as unsigned 64-bit numbers.
get_freqs_to_scale_int :
    (p : FreqPlatform) (c : ℕ) (ps : PStates) (s : Sysfs) (i j : ℤ)
    → ps.min_freq ≡ int i
    → ps.max_freq ≡ int j
    → get_freqs_to_scale p c ps s ≡ (ok (to_uint i, to_uint j), s)
unfolding get_freqs_to_scale get_freq_from_int_or_string
get_freqs_to_scale_int p c ps s i j e f = rw (e, f) refl

set_driver_values_run :
    (p : FreqPlatform) (c : ℕ) (ps : PStates) (s : Sysfs) (lo hi : ℕ) (system : ℕ × ℕ)
    → IsHealthy s
    → get_abs_min_max_freq p.core_types ≡ ok system
    → ((t : Sysfs) → get_freqs_to_scale p c ps t ≡ (ok (lo, hi), t))
    → set_driver_values p c ps s
      ≡ write_freqs c
          (clamp_min lo (get_abs_min_max p c).0 system.0)
          (clamp_max hi (get_abs_min_max p c).1 system.1)
          (get_abs_min_max p c)
          (after_epp c ps.epp_value (written (governor c) (text ps.governor_value) s))
unfolding set_driver_values
set_driver_values_run p c ps s lo hi system h e f =
    let s1 = written (governor c) (text ps.governor_value) s in
    let s2 = after_epp c ps.epp_value s1 in
    bind_value (write (governor c) (text ps.governor_value) set_governor) _ s
      (write_no_fault _ _ _ s (h s.tick))
    ∙ bind_value (write_epp c ps.epp_value) _ s1 (write_epp_no_fault c ps.epp_value s1 h)
    ∙ bind_value (lift (get_abs_min_max_freq p.core_types)) _ s2 (ap (λ r. (r, s2)) e)
    ∙ bind_value (get_freqs_to_scale p c ps) _ s2 (f s2)

write_freqs_run :
    (c lo hi : ℕ) (limits : ℕ × ℕ) (s : Sysfs)
    → IsHealthy s
    → limits.0 ≤ lo
    → hi ≤ limits.1
    → write_freqs c lo hi limits s
      ≡ (ok tt, written (scaling_min c) (number lo) (written (scaling_max c) (number hi) s))
unfolding write_freqs write
write_freqs_run c lo hi limits s h a b = ground (arith, h s.tick, h (s.tick + 1))

write_freqs_verdict :
    (c lo hi : ℕ) (limits system : ℕ × ℕ) (s : Sysfs)
    → IsHealthy s
    → system.0 ≤ limits.0
    → limits.1 ≤ system.1
    → (write_freqs c (clamp_min lo limits.0 system.0) (clamp_max hi limits.1 system.1) limits s).0
      ≡ (if leb system.0 lo && leb hi system.1 then ok tt else err freq_range)
unfolding write_freqs write clamp_min clamp_max
write_freqs_verdict c lo hi limits system s h a b = ground (arith, h s.tick, h (s.tick + 1))

inverted_run :
    (c lo hi : ℕ) (limits system : ℕ × ℕ) (s : Sysfs)
    → IsHealthy s
    → limits.1 < lo
    → limits.0 ≤ limits.1
    → lo ≤ hi
    → hi ≤ system.1
    → write_freqs c (clamp_min lo limits.0 system.0) (clamp_max hi limits.1 system.1) limits s
      ≡ (ok tt, written (scaling_min c) (number lo) (written (scaling_max c) (number limits.1) s))
unfolding write_freqs write clamp_min clamp_max
inverted_run c lo hi limits system s h a b d e = ground (arith, h s.tick, h (s.tick + 1))

-- With no failing write, and for a CPU whose limits lie within the system's range, a profile of two
-- integers, read as unsigned 64-bit numbers (a negative one is 2^64 more), is accepted exactly when
-- its minimum is not below the system's minimum and its maximum not above the system's maximum;
-- otherwise the call comes back with the range error.
pub set_driver_values_verdict :
    (p : FreqPlatform) (c : ℕ) (ps : PStates) (s : Sysfs) (i j : ℤ) (system : ℕ × ℕ)
    → IsHealthy s
    → get_abs_min_max_freq p.core_types ≡ ok system
    → ps.min_freq ≡ int i
    → ps.max_freq ≡ int j
    → system.0 ≤ (get_abs_min_max p c).0
    → (get_abs_min_max p c).1 ≤ system.1
    → (set_driver_values p c ps s).0
      ≡ (if leb system.0 (to_uint i) && leb (to_uint j) system.1 then ok tt else err freq_range)
set_driver_values_verdict p c ps s i j system healthy known e f a b =
    ap (λ r. r.0)
      (set_driver_values_run p c ps s (to_uint i) (to_uint j) system healthy known
        λ t. get_freqs_to_scale_int p c ps t i j e f)
    ∙ write_freqs_verdict c (to_uint i) (to_uint j) (get_abs_min_max p c) system _
        (after_epp-IsHealthy c ps.epp_value _ healthy) a b

small : (lo hi : ℕ) → lo < u64 → hi < u64 → (to_uint (pos lo) ≡ lo) × (to_uint (pos hi) ≡ hi)
small lo hi h k = (ground arith, ground arith)

module _ (p : FreqPlatform) (c : ℕ) (ps : PStates) (s : Sysfs) (lo hi : ℕ) (system : ℕ × ℕ)
    (healthy : IsHealthy s) (known : get_abs_min_max_freq p.core_types ≡ ok system)
    (min_is : ps.min_freq ≡ int (pos lo)) (max_is : ps.max_freq ≡ int (pos hi)) (lo_word : lo < u64)
    (hi_word : hi < u64) where
  int_run :
      set_driver_values p c ps s
      ≡ write_freqs c
          (clamp_min lo (get_abs_min_max p c).0 system.0)
          (clamp_max hi (get_abs_min_max p c).1 system.1)
          (get_abs_min_max p c)
          (after_epp c ps.epp_value (written (governor c) (text ps.governor_value) s))
  int_run = set_driver_values_run p c ps s lo hi system healthy known λ t.
      get_freqs_to_scale_int p c ps t (pos lo) (pos hi) min_is max_is
      ∙ (let w = small lo hi lo_word hi_word in rw (w.0, w.1) refl)

  -- With no failing write, a profile of two integers in order, its minimum above this CPU's hardware
  -- maximum and its maximum within the system's range, is accepted: the call succeeds and leaves the
  -- CPU's minimum file above its maximum file.
  pub set_driver_values_inverted :
      (get_abs_min_max p c).1 < lo
      → (get_abs_min_max p c).0 ≤ (get_abs_min_max p c).1
      → lo ≤ hi
      → hi ≤ system.1
      → let r = set_driver_values p c ps s in
        (r.0 ≡ ok tt)
        × (content (scaling_min c) r.1.log ≡ some (number lo))
        × (content (scaling_max c) r.1.log ≡ some (number (get_abs_min_max p c).1))
        × ((get_abs_min_max p c).1 < lo)
  set_driver_values_inverted above sane ordered inside =
      let run =
        int_run
        ∙ inverted_run c lo hi (get_abs_min_max p c) system _
            (after_epp-IsHealthy c ps.epp_value _ healthy) above sane ordered inside in
      (ground arith, ground arith, ground arith, above)
