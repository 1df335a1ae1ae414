-- ===== src/Power/NewProfile.antt =====
-- The making of a power profile (internal/power/power_profile.go).
-- The proofs stand in the child module.
pub mod Accepted
use cluster_power_manager.Base.{
  ℕ, ◌+◌, ◌-◌, ◌*◌, ◌/◌, ◌%◌, ◌^◌, Bool, true, false, not, ◌&&◌, ◌||◌, List, [], ◌∷◌, Option, none,
  some, String, str_eq, if◌then◌else◌, ltb, ℤ, pos, negsuc, ltb_ℤ,
}
use cluster_power_manager.Power.PStates.{
  IntOrString, int, string, same_type, PStates, FreqSet, get_abs_min_max_freq,
}
use cluster_power_manager.Power.CStates.{CStates}
use cluster_power_manager.Power.Host.{Profile}
use cluster_power_manager.Power.Sysfs.{Result}

-- Why a profile is refused.
pub data Refusal : Type 0 where
  no_scaling no_cstates mixed_types : Refusal
  negative_min max_below_min outside_range : Refusal
  min_not_number max_not_number : Refusal
  unknown_governor epp_needs_performance : Refusal
  names_and_latency negative_latency unknown_cstate : Refusal

pub data Outcome (A : Type 0) : Type 0 where
  made : A → Outcome A
  refused : Refusal → Outcome A
  crashed : Outcome A

abbrev pub and_then : {A B : Type 0} → Outcome A → (A → Outcome B) → Outcome B
and_then (made a) f = f a
and_then (refused r) f = refused r
and_then crashed f = crashed

abbrev pub demand : Bool → Refusal → Outcome (Unit {0})
demand supported r = if supported then made tt else refused r

-- What the library found on this system. `atoi` is `strconv.Atoi` after `strings.TrimSuffix(s, "%")`,
-- and `available_cstates` is `GetAvailableCStates()`.
pub record System : Type 0 where
  pub scaling_supported : Bool
  pub cstates_supported : Bool
  pub core_types : List FreqSet
  pub available_govs : List String
  pub available_cstates : List String
  pub atoi : String → Option ℤ
  pub default_governor : String

-- `int32(u)` and an `int32` that wraps.
abbrev pub to_int32 : ℕ → ℤ
to_int32 n = let m = n % 2 ^ 32 in if ltb m (2 ^ 31) then pos m else negsuc (2 ^ 32 - 1 - m)

abbrev pub wrap32 : ℤ → ℤ
wrap32 (pos n) = to_int32 n
wrap32 (negsuc n) = to_int32 (2 ^ 32 - 1 - n % 2 ^ 32)

abbrev pub times1000 : ℤ → ℤ
times1000 (pos n) = pos (n * 1000)
times1000 (negsuc n) = negsuc (n * 1000 + 999)

-- The system's range, which panics where no core type is known.
abbrev pub on_range : {A : Type 0} → Result (ℕ × ℕ) → (ℕ → ℕ → Outcome A) → Outcome A
on_range (Result.ok r) f = f r.0 r.1
on_range _ f = crashed

unfoldable pub with_range : {A : Type 0} → System → (ℕ → ℕ → Outcome A) → Outcome A
with_range sys f = on_range (get_abs_min_max_freq sys.core_types) f

-- `intstr.FromInt(int(u))` stores an `int32`.
unfoldable pub fill_min_max :
    ℕ → ℕ → Option IntOrString → Option IntOrString → IntOrString × IntOrString
fill_min_max abs_min abs_max none (some (int mx)) = (int (to_int32 (abs_min / 1000)), int mx)
fill_min_max abs_min abs_max none (some (string mx)) = (string "0%", string mx)
fill_min_max abs_min abs_max (some (int mn)) none = (int mn, int (to_int32 (abs_max / 1000)))
fill_min_max abs_min abs_max (some (string mn)) none = (string mn, string "100%")
fill_min_max abs_min abs_max none none = (string "0%", string "100%")
fill_min_max abs_min abs_max (some mn) (some mx) = (mn, mx)

unfoldable pub adjust_min_max_freq :
    System → Option IntOrString → Option IntOrString → Outcome (IntOrString × IntOrString)
adjust_min_max_freq sys mn mx = with_range sys λ abs_min abs_max.
    let r = fill_min_max abs_min abs_max mn mx in
    if same_type r.0 r.1 then made r else refused mixed_types

abbrev pub check_gov : List String → String → Bool
check_gov [] governor = false
check_gov (g ∷ gs) governor = if str_eq g governor then true else check_gov gs governor

-- The two kinds of bounds in `ValidatePStates`.
unfoldable pub validate_ints : System → ℤ → ℤ → Outcome (Unit {0})
validate_ints sys mn mx = with_range sys λ abs_min abs_max.
    if ltb_ℤ mn (pos 0)
    then refused negative_min
    else if ltb_ℤ mx mn
    then refused max_below_min
    else if ltb_ℤ mn (to_int32 (abs_min / 1000)) || ltb_ℤ (to_int32 (abs_max / 1000)) mx
    then refused outside_range
    else made tt

unfoldable pub validate_strings : System → String → String → Outcome (Unit {0})
validate_strings sys mn mx = with_range sys λ abs_min abs_max. elim (sys.atoi mn) [
  | none ↦ refused min_not_number
  | some lo ↦ elim (sys.atoi mx) [
    | none ↦ refused max_not_number
    | some hi ↦ if ltb_ℤ hi lo then refused max_below_min else made tt
  ]
]

unfoldable pub validate_freqs : System → IntOrString → IntOrString → Outcome (Unit {0})
validate_freqs sys (int mn) (int mx) = validate_ints sys mn mx
validate_freqs sys (string mn) (string mx) = validate_strings sys mn mx
validate_freqs sys _ _ = refused mixed_types

unfoldable pub validate_governor : System → String → String → Outcome (Unit {0})
validate_governor sys governor epp =
    let g = if str_eq governor "" then sys.default_governor else governor in
    if not (check_gov sys.available_govs g)
    then refused unknown_governor
    else if not (str_eq epp "") && str_eq g "performance" && not (str_eq epp "performance")
    then refused epp_needs_performance
    else made tt

unfoldable pub validate_pstates :
    System → IntOrString → IntOrString → String → String → Outcome (Unit {0})
validate_pstates sys mn mx governor epp =
    and_then (validate_freqs sys mn mx) λ _. validate_governor sys governor epp

abbrev pub names_known : List String → List (String × Bool) → Bool
names_known available [] = true
names_known available (s ∷ ss) = if check_gov available s.0 then names_known available ss else false

-- `len(states) > 0`.
abbrev pub some_names : List (String × Bool) → Bool
some_names [] = false
some_names (s ∷ ss) = true

unfoldable pub validate_cstates : System → List (String × Bool) → Option ℤ → Outcome (Unit {0})
validate_cstates sys states (some latency) =
    if some_names states
    then refused names_and_latency
    else if ltb_ℤ latency (pos 0)
    then refused negative_latency
    else made tt
validate_cstates sys states none =
    if some_names states
    then (if names_known sys.available_cstates states then made tt else refused unknown_cstate)
    else made tt

-- MHz to kHz, in 32 bits.
abbrev pub to_khz : IntOrString → IntOrString
to_khz (int i) = int (wrap32 (times1000 i))
to_khz (string s) = string s

unfoldable pub new_power_profile :
    System
    → String
    → Option IntOrString
    → Option IntOrString
    → String
    → String
    → List (String × Bool)
    → Option ℤ
    → Outcome Profile
new_power_profile sys name mn mx governor epp states latency =
    and_then (demand sys.scaling_supported no_scaling) λ _.
      and_then (adjust_min_max_freq sys mn mx) λ r.
        and_then (validate_pstates sys r.0 r.1 governor epp) λ _.
          and_then (demand sys.cstates_supported no_cstates) λ _.
            and_then (validate_cstates sys states latency) λ _. made (record {
              name = name;
              pstates = record {
                min_freq = to_khz r.0;
                max_freq = to_khz r.1;
                epp_value = epp;
                governor_value = governor;
              };
              cstates = record { states = states; max_latency_us = latency };
            })
