-- ===== src/Power/NewProfile/Accepted.antt =====
-- What an accepted profile guarantees (internal/power/power_profile.go), and what `setDriverValues`
-- makes of it (internal/power/p_states.go).
use cluster_power_manager.Base.{
  true, leb, ◌&&◌, to_uint, Bool-cases, inl, inr, ℕ, ◌*◌, ◌/◌, ◌%◌, ◌^◌, ◌≤◌, ◌<◌, ◌≡◌, refl, ap,
  sym, ◌∙◌, subst, Bool, false, ◌||◌, List, Option, none, some, String, arith, if◌then◌else◌, ℤ,
  pos, negsuc, ltb_ℤ,
}
use cluster_power_manager.Power.Sysfs.{Sysfs, Result, ok, err, freq_range}
use cluster_power_manager.Power.PStates.{
  IntOrString, int, string, same_type, FreqPlatform, get_abs_min_max_freq, get_abs_min_max,
  set_driver_values,
}
use cluster_power_manager.Power.PStates.Bounds.{IsHealthy, set_driver_values_verdict}
use cluster_power_manager.Power.Host.{Profile}
use cluster_power_manager.Power.NewProfile.{
  Refusal, mixed_types, Outcome, made, refused, crashed, and_then, demand, no_scaling, no_cstates,
  System, to_int32, to_khz, on_range, with_range, fill_min_max, adjust_min_max_freq, validate_ints,
  validate_freqs, validate_pstates, new_power_profile, validate_governor, validate_cstates,
}

and_then_made :
    {A B P : Type 0} (o : Outcome A) (f : A → Outcome B) {b : B}
    → and_then o f ≡ made b
    → ((a : A) → o ≡ made a → f a ≡ made b → P)
    → P
and_then_made {A} {B} {P} (made a) f h k = k a refl h
and_then_made (refused r) f h k = absurd (cc)
and_then_made crashed f h k = absurd (cc)

with_range_run :
    {A : Type 0} (sys : System) (f : ℕ → ℕ → Outcome A) {a b : ℕ}
    → get_abs_min_max_freq sys.core_types ≡ Result.ok (a, b)
    → with_range sys f ≡ f a b
unfolding with_range
with_range_run sys f e = ap (λ r. on_range r f) e

-- The range of an accepted pair, in MHz.
InRange : ℕ → ℕ → ℤ → ℤ → Type 0
InRange a b mn mx =
    (lo hi : ℕ) × (mn ≡ pos lo) × (mx ≡ pos hi) × (lo ≤ hi) × (a / 1000 ≤ lo) × (hi ≤ b / 1000)

ints-InRange :
    (a b : ℕ) (mn mx : ℤ)
    → a < 2 ^ 31
    → b < 2 ^ 31
    → ltb_ℤ mn (pos 0) ≡ false
    → ltb_ℤ mx mn ≡ false
    → ltb_ℤ mn (to_int32 (a / 1000)) ≡ false
    → ltb_ℤ (to_int32 (b / 1000)) mx ≡ false
    → InRange a b mn mx
unfolding InRange
ints-InRange a b (pos lo) (pos hi) ha hb h1 h2 h3 h4 =
    (lo, hi, refl, refl, ground arith, ground arith, ground arith)
ints-InRange a b (pos lo) (negsuc hi) ha hb h1 h2 h3 h4 = absurd (ground arith)
ints-InRange a b (negsuc lo) mx ha hb h1 h2 h3 h4 = absurd (ground arith)

-- Past four guards.
guards :
    (r q t : Refusal) (c d e f : Bool) {u : Unit {0}}
    → (if c then refused r else if d then refused q else if e || f then refused t else made tt)
      ≡ made u
    → (c ≡ false) × (d ≡ false) × (e ≡ false) × (f ≡ false)
guards r q t c d e f h = ground arith

validate_ints_made :
    (sys : System) (mn mx : ℤ) {a b : ℕ} {u : Unit {0}}
    → get_abs_min_max_freq sys.core_types ≡ Result.ok (a, b)
    → a < 2 ^ 31
    → b < 2 ^ 31
    → validate_ints sys mn mx ≡ made u
    → InRange a b mn mx
unfolding validate_ints
validate_ints_made sys mn mx {a} {b} e ha hb h =
    let g = guards _ _ _ _ _ _ _ (sym (with_range_run sys _ e) ∙ h) in
    ints-InRange a b mn mx ha hb g.0 g.1 g.2 g.3

-- The numbers that were validated.
freqs_made :
    (sys : System) (x y : IntOrString) {a b : ℕ} {u : Unit {0}}
    → get_abs_min_max_freq sys.core_types ≡ Result.ok (a, b)
    → a < 2 ^ 31
    → b < 2 ^ 31
    → validate_freqs sys x y ≡ made u
    → (i : ℤ) → to_khz x ≡ int i
    → (m n : ℕ) × (x ≡ int (pos m)) × (y ≡ int (pos n)) × (m ≤ n) × (a / 1000 ≤ m) × (n ≤ b / 1000)
unfolding validate_freqs InRange
freqs_made sys (int mn) (int mx) {a} {b} e ha hb h i k =
    let (m, n, p, q, w1, w2, w3) = validate_ints_made sys mn mx e ha hb h in
    (m, n, ap (λ z. int z) p, ap (λ z. int z) q, w1, w2, w3)
freqs_made sys (string x) y e ha hb h i k = absurd (cc)
freqs_made sys (int mn) (string y) e ha hb h i k = absurd (cc)

exact_khz : (n : ℕ) → n ≤ 2 ^ 31 / 1000 → to_khz (int (pos n)) ≡ int (pos (n * 1000))
exact_khz n h = ap (λ i. int i) (ground arith)

-- The number of MHz that a request stands for: its own, or else the system's limit, rounded down.
abbrev pub IsRequested : Option IntOrString → ℕ → ℕ → Type 0
IsRequested none limit n = n ≡ limit / 1000
IsRequested (some (int i)) limit n = i ≡ pos n
IsRequested (some (string s)) limit n = true ≡ false

int-injective : {i j : ℤ} → int i ≡ int j → i ≡ j
int-injective h = cc

pos-injective : {i j : ℕ} → pos i ≡ pos j → i ≡ j
pos-injective h = cc

limit_is :
    (limit n : ℕ) → limit < 2 ^ 31 → int (to_int32 (limit / 1000)) ≡ int (pos n) → n ≡ limit / 1000
limit_is limit n h e =
    let small : to_int32 (limit / 1000) ≡ pos (limit / 1000) = ground arith in
    pos-injective (sym (int-injective e) ∙ small)

filled-IsRequested :
    (a b m n : ℕ) (mn mx : Option IntOrString)
    → a < 2 ^ 31
    → b < 2 ^ 31
    → (fill_min_max a b mn mx).0 ≡ int (pos m)
    → (fill_min_max a b mn mx).1 ≡ int (pos n)
    → IsRequested mn a m × IsRequested mx b n
unfolding fill_min_max
filled-IsRequested a b m n none none ha hb h k = absurd (cc)
filled-IsRequested a b m n none (some (string y)) ha hb h k = absurd (cc)
filled-IsRequested a b m n (some (string x)) none ha hb h k = absurd (cc)
filled-IsRequested a b m n none (some (int j)) ha hb h k = (limit_is a m ha h, int-injective k)
filled-IsRequested a b m n (some (int i)) none ha hb h k = (int-injective h, limit_is b n hb k)
filled-IsRequested a b m n (some (int i)) (some (int j)) ha hb h k =
    (int-injective h, int-injective k)
filled-IsRequested a b m n (some (string x)) (some (int j)) ha hb h k = absurd (cc)
filled-IsRequested a b m n (some (int i)) (some (string y)) ha hb h k = absurd (cc)
filled-IsRequested a b m n (some (string x)) (some (string y)) ha hb h k = absurd (cc)

made-injective : {A : Type 0} {p q : A} → made p ≡ made q → p ≡ q
made-injective h = cc

-- What a made profile was made from.
new_power_profile_inv :
    {P : Type 0} (sys : System) (name : String) (mn mx : Option IntOrString) (governor epp : String)
    (states : List (String × Bool)) (latency : Option ℤ) {pr : Profile}
    → new_power_profile sys name mn mx governor epp states latency ≡ made pr
    → ((x y : IntOrString)
        → adjust_min_max_freq sys mn mx ≡ made (x, y)
        → validate_freqs sys x y ≡ made tt
        → validate_governor sys governor epp ≡ made tt
        → pr.pstates.min_freq ≡ to_khz x
        → pr.pstates.max_freq ≡ to_khz y
        → P)
    → P
unfolding new_power_profile validate_pstates
new_power_profile_inv sys name mn mx governor epp states latency h k =
    and_then_made (demand sys.scaling_supported no_scaling) _ h λ c e0 h0.
      and_then_made (adjust_min_max_freq sys mn mx) _ h0 λ r e1 h1.
        and_then_made (validate_pstates sys r.0 r.1 governor epp) _ h1 λ u e2 h2.
          and_then_made (demand sys.cstates_supported no_cstates) _ h2 λ c2 e3 h3.
            and_then_made (validate_cstates sys states latency) _ h3 λ v e4 h4.
              and_then_made (validate_freqs sys r.0 r.1) _ e2 λ w e5 h5.
                k r.0 r.1 e1 e5 h5 (ap (λ z. z.pstates.min_freq) (sym (made-injective h4)))
                  (ap (λ z. z.pstates.max_freq) (sym (made-injective h4)))

same_made :
    (r : IntOrString × IntOrString) (x y : IntOrString)
    → (if same_type r.0 r.1 then made r else refused mixed_types) ≡ made (x, y)
    → r ≡ (x, y)
same_made r x y h = elim (Bool-cases (same_type r.0 r.1)) [
  | inl e ↦ made-injective (sym (rw e refl) ∙ h)
  | inr e ↦ absurd (ground (arith, e))
]

adjusted-IsRequested :
    (sys : System) (mn mx : Option IntOrString) (m n : ℕ) {a b : ℕ}
    → get_abs_min_max_freq sys.core_types ≡ Result.ok (a, b)
    → a < 2 ^ 31
    → b < 2 ^ 31
    → adjust_min_max_freq sys mn mx ≡ made (int (pos m), int (pos n))
    → IsRequested mn a m × IsRequested mx b n
unfolding adjust_min_max_freq
adjusted-IsRequested sys mn mx m n {a} {b} e ha hb h =
    let g =
      same_made (fill_min_max a b mn mx) (int (pos m)) (int (pos n))
        (sym (with_range_run sys _ e) ∙ h) in
    filled-IsRequested a b m n mn mx ha hb (ap (λ r. r.0) g) (ap (λ r. r.1) g)

pub new_power_profile_in_range :
    (sys : System) (name : String) (mn mx : Option IntOrString) (governor epp : String)
    (states : List (String × Bool)) (latency : Option ℤ) (pr : Profile) (a b : ℕ) (i : ℤ)
    → get_abs_min_max_freq sys.core_types ≡ Result.ok (a, b)
    → a < 2 ^ 31
    → b < 2 ^ 31
    → new_power_profile sys name mn mx governor epp states latency ≡ made pr
    → pr.pstates.min_freq ≡ int i
    → (m n : ℕ) × IsRequested mn a m
      × IsRequested mx b n
      × (pr.pstates.min_freq ≡ int (pos (m * 1000)))
      × (pr.pstates.max_freq ≡ int (pos (n * 1000)))
      × (m ≤ n)
      × (a / 1000 ≤ m)
      × (n ≤ b / 1000)
new_power_profile_in_range sys name mn mx governor epp states latency pr a b i e ha hb h k =
    new_power_profile_inv sys name mn mx governor epp states latency h λ x y e1 e2 e3 p q.
      let (m, n, f, g, h1, h2, h3) = freqs_made sys x y e ha hb e2 i (sym p ∙ k) in
      let w =
        adjusted-IsRequested sys mn mx m n e ha hb
          (e1 ∙ ap (λ z. made (z, y)) f ∙ ap (λ z. made (int (pos m), z)) g) in
      (
        m,
        n,
        w.0,
        w.1,
        p ∙ ap (λ z. to_khz z) f ∙ exact_khz m (omega arith),
        q ∙ ap (λ z. to_khz z) g ∙ exact_khz n (omega arith),
        h1,
        h2,
        h3,
      )

filled_min :
    (sys : System) (m : ℤ) (x y : IntOrString) {a b : ℕ}
    → get_abs_min_max_freq sys.core_types ≡ Result.ok (a, b)
    → a < 2 ^ 31
    → adjust_min_max_freq sys none (some (int m)) ≡ made (x, y)
    → to_khz x ≡ int (pos (a / 1000 * 1000))
unfolding adjust_min_max_freq fill_min_max
filled_min sys m x y {a} e ha h =
    let g = sym (with_range_run sys _ e) ∙ h in
    subst (λ z. to_khz z ≡ int (pos (a / 1000 * 1000))) (ap (λ r. r.0) (made-injective g))
      (ap (λ i. int i) (ground arith))

-- A minimum that was rounded down is below the system's.
below :
    (lo hi a b : ℕ)
    → lo ≡ a / 1000
    → a < 2 ^ 31
    → 0 < a % 1000
    → (leb a (to_uint (pos (lo * 1000))) && leb (to_uint (pos hi)) b) ≡ false
below lo hi a b f ha odd = ground arith

-- With a system minimum that is not a multiple of 1000 kHz and a system range below 2^31 kHz: a profile
-- that was made with a numeric maximum and no minimum, so that the minimum was filled in from the
-- system's, is refused with the range error by every CPU whose limits lie within the system's range,
-- no write failing.
pub filled_min_refused :
    (sys : System) (name : String) (m : ℤ) (governor epp : String) (states : List (String × Bool))
    (latency : Option ℤ) (pr : Profile) (p : FreqPlatform) (c : ℕ) (s : Sysfs) (a b : ℕ)
    → get_abs_min_max_freq sys.core_types ≡ Result.ok (a, b)
    → p.core_types ≡ sys.core_types
    → a < 2 ^ 31
    → b < 2 ^ 31
    → 0 < a % 1000
    → new_power_profile sys name none (some (int m)) governor epp states latency ≡ made pr
    → IsHealthy s
    → a ≤ (get_abs_min_max p c).0
    → (get_abs_min_max p c).1 ≤ b
    → (set_driver_values p c pr.pstates s).0 ≡ err freq_range
filled_min_refused sys name m governor epp states latency pr p c s a b e same ha hb odd h healthy l1
      l2 =
    new_power_profile_inv sys name none (some (int m)) governor epp states latency h
      λ x y e1 e2 e3 q r.
        let z = q ∙ filled_min sys m x y e ha e1 in
        let (lo, hi, f, t, p_min, p_max, h1, h2, h3) =
          new_power_profile_in_range sys name none (some (int m)) governor epp states latency pr a b
            (pos (a / 1000 * 1000)) e ha hb h z in
        set_driver_values_verdict p c pr.pstates s (pos (lo * 1000)) (pos (hi * 1000)) (a, b)
          healthy (ap get_abs_min_max_freq same ∙ e) p_min p_max l1 l2
        ∙ ap (λ v. if v then ok tt else err freq_range) (below lo (hi * 1000) a b f ha odd)
