-- ===== src/Power/CStates.antt =====
-- C-states (internal/power/c_states.go). A Go map is an association list; the order in which Go walks
-- a map is the order of the list, which the theorems leave open.
-- The proofs stand in the child module.
pub mod Applied
use cluster_power_manager.Base.{
  ℕ, Bool, true, List, [], ◌∷◌, map, Option, none, some, String, if◌then◌else◌, ℤ, leb_ℤ, lookup,
}
use cluster_power_manager.Power.Sysfs.{
  cstate_disable, text, set_cstate, M, pure, ◌>>=◌, ◌>>◌, write,
}

pub record CStateInfo : Type 0 where
  pub state_number : ℕ
  pub latency : ℤ
  pub default_status : Bool

pub record CStates : Type 0 where
  pub states : List (String × Bool)
  pub max_latency_us : Option ℤ

pub record CStatesPlatform : Type 0 where
  pub cstates_supported : Bool
  pub cstates_info : ℕ → List (String × CStateInfo)

unfoldable pub get_default_cstates_status : List (String × CStateInfo) → List (String × Bool)
get_default_cstates_status = map λ s. (s.0, s.1.default_status)

unfoldable pub config_cstates_by_latency : List (String × CStateInfo) → ℤ → List (String × Bool)
config_cstates_by_latency info max_latency =
    map (λ s. (s.0, if leb_ℤ s.1.latency max_latency then true else Bool.false)) info

abbrev pub provided_or_default : Option Bool → Bool → Bool
provided_or_default none default = default
provided_or_default (some provided) default = provided

unfoldable pub config_cstates_by_names :
    List (String × CStateInfo) → List (String × Bool) → List (String × Bool)
config_cstates_by_names info names =
    map (λ s. (s.0, provided_or_default (lookup s.0 names) s.1.default_status)) info

abbrev pub disable_byte : Bool → String
disable_byte enabled = if enabled then "0" else "1"

-- A state that the CPU lacks is logged and skipped.
unfoldable pub apply_cstate : List (String × CStateInfo) → ℕ → String × Bool → M (Unit {0})
apply_cstate info c (name, enabled) = elim (lookup name info) [
  | none ↦ pure tt
  | some i ↦ write (cstate_disable c i.state_number) (text (disable_byte enabled)) set_cstate
]

-- A failed write ends the loop.
unfoldable pub apply_cstates : List (String × CStateInfo) → ℕ → List (String × Bool) → M (Unit {0})
apply_cstates info c [] = pure tt
apply_cstates info c (s ∷ rest) = apply_cstate info c s >> apply_cstates info c rest

-- The states that `updateCStates` asks for, by the profile of the CPU's pool.
unfoldable pub desired_cstates : List (String × CStateInfo) → Option CStates → List (String × Bool)
desired_cstates info none = get_default_cstates_status info
desired_cstates info (some cs) = elim cs.max_latency_us [
  | some latency ↦ config_cstates_by_latency info latency
  | none ↦ elim cs.states [
    | [] ↦ get_default_cstates_status info
    | s ∷ ss ↦ config_cstates_by_names info (s ∷ ss)
  ]
]

unfoldable pub update_cstates : CStatesPlatform → ℕ → Option CStates → M (Unit {0})
update_cstates p c profile =
    if p.cstates_supported
    then apply_cstates (p.cstates_info c) c (desired_cstates (p.cstates_info c) profile)
    else pure tt
