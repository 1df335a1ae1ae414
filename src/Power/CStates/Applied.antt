-- ===== src/Power/CStates/Applied.antt =====
-- What `updateCStates` of internal/power/c_states.go leaves in a CPU's cpuidle files.
use cluster_power_manager.Base.{
  ℕ, ◌≡◌, ◌≢◌, refl, ap, sym, subst, ◌∙◌, Bool, true, false, List, [], ◌∷◌, map, Option, none, some,
  String, arith, ℤ, leb_ℤ, lookup, All, eq_iff, eq_refl, ==_refl, if◌then◌else◌,
}
use cluster_power_manager.Power.Sysfs.{
  cstate_disable, text, ok, Sysfs, content, written, write, bind_ok, pure,
}
use cluster_power_manager.Power.CStates.{
  CStateInfo, CStates, CStatesPlatform, get_default_cstates_status, config_cstates_by_latency,
  config_cstates_by_names, disable_byte, apply_cstate, apply_cstates, desired_cstates,
  update_cstates,
}

-- The map of a CPU's states: no name and no state number occurs twice.
abbrev pub Distinct : List (String × CStateInfo) → Type 0
Distinct [] = Unit
Distinct (s ∷ rest) =
    All (λ t. t.0 ≢ s.0) rest × All (λ t. t.1.state_number ≢ s.1.state_number) rest × Distinct rest

-- What the profile says of a state, and else the state's default.
abbrev pub named_or : Option Bool → Bool → Bool
named_or (some said) default = said
named_or none default = default

-- Whether a state is to be enabled: by its latency if the profile has a maximum, else as the profile
-- names it, else by its default.
abbrev pub wanted : Option CStates → String → CStateInfo → Bool
wanted none name i = i.default_status
wanted (some cs) name i = elim cs.max_latency_us [
  | some latency ↦ leb_ℤ i.latency latency
  | none ↦ named_or (lookup name cs.states) i.default_status
]

by_latency_wanted :
    (info : List (String × CStateInfo)) (latency : ℤ)
    → config_cstates_by_latency info latency ≡ map (λ s. (s.0, leb_ℤ s.1.latency latency)) info
unfolding config_cstates_by_latency
by_latency_wanted [] latency = refl
by_latency_wanted ((name, i) ∷ rest) latency = ground (arith, by_latency_wanted rest latency)

by_names_none :
    (info : List (String × CStateInfo))
    → get_default_cstates_status info ≡ config_cstates_by_names info []
unfolding get_default_cstates_status config_cstates_by_names
by_names_none [] = refl
by_names_none ((name, i) ∷ rest) = ap (◌∷◌ (name, i.default_status)) (by_names_none rest)

desired_wanted :
    (info : List (String × CStateInfo)) (profile : Option CStates)
    → desired_cstates info profile ≡ map (λ s. (s.0, wanted profile s.0 s.1)) info
unfolding desired_cstates
desired_wanted info none = unfold get_default_cstates_status in refl
desired_wanted info (some cs) = by_profile cs.max_latency_us cs.states
  where
    by_profile :
        (m : Option ℤ) (st : List (String × Bool))
        → let cs : CStates = record { states = st; max_latency_us = m } in
          desired_cstates info (some cs) ≡ map (λ s. (s.0, wanted (some cs) s.0 s.1)) info
    by_profile (some latency) st = by_latency_wanted info latency
    by_profile none [] = by_names_none info ∙ unfold config_cstates_by_names in refl
    by_profile none (x ∷ xs) = unfold config_cstates_by_names in refl

lookup-Distinct :
    (info : List (String × CStateInfo)) → Distinct info → All (λ s. lookup s.0 info ≡ some s.1) info
lookup-Distinct [] d = tt
lookup-Distinct ((name, i) ∷ rest) d =
    (ground (arith, eq_refl name), weaken rest d.0 (lookup-Distinct rest d.2))
  where
    weaken :
        (l : List (String × CStateInfo))
        → All (λ t. t.0 ≢ name) l
        → All (λ t. lookup t.0 rest ≡ some t.1) l
        → All (λ t. lookup t.0 ((name, i) ∷ rest) ≡ some t.1) l
    weaken [] a b = tt
    weaken (t ∷ l) a b = (ground (arith, eq_iff name t.0, a.0, b.0), weaken l a.1 b.1)

apply_cstate_ok :
    (info : List (String × CStateInfo)) (c : ℕ) (name : String) (enabled : Bool) (s : Sysfs)
    {i : CStateInfo} {u : Unit {0}} {s' : Sysfs}
    → lookup name info ≡ some i
    → apply_cstate info c (name, enabled) s ≡ (ok u, s')
    → s' ≡ written (cstate_disable c i.state_number) (text (disable_byte enabled)) s
unfolding apply_cstate write
apply_cstate_ok info c name enabled s e h = ground arith

module _ (info : List (String × CStateInfo)) (c : ℕ) (w : String × CStateInfo → Bool) where
  apply_step :
      (t : String × CStateInfo) (l : List (String × CStateInfo)) (s : Sysfs) {s' : Sysfs}
      → lookup t.0 info ≡ some t.1
      → apply_cstates info c (map (λ x. (x.0, w x)) (t ∷ l)) s ≡ (ok tt, s')
      → apply_cstates info c
          (map (λ x. (x.0, w x)) l)
          (written (cstate_disable c t.1.state_number) (text (disable_byte (w t))) s)
        ≡ (ok tt, s')
  unfolding apply_cstates
  apply_step t l s {s'} e h = bind_ok (apply_cstate info c (t.0, w t)) _ s h λ u s1 e1 h1.
      subst (λ r. apply_cstates info c (map (λ x. (x.0, w x)) l) r ≡ (ok tt, s'))
        (apply_cstate_ok info c t.0 (w t) s e e1) h1

  apply_frame :
      (n : ℕ) (l : List (String × CStateInfo)) (s : Sysfs) {s' : Sysfs}
      → All (λ t. lookup t.0 info ≡ some t.1) l
      → All (λ t. t.1.state_number ≢ n) l
      → apply_cstates info c (map (λ x. (x.0, w x)) l) s ≡ (ok tt, s')
      → content (cstate_disable c n) s'.log ≡ content (cstate_disable c n) s.log
  apply_frame n [] s e d h =
      unfold apply_cstates in ap (λ r. content (cstate_disable c n) r.1.log) (sym h)
  apply_frame n (t ∷ l) s e d h =
      apply_frame n l _ e.1 d.1 (apply_step t l s e.0 h) ∙ ground (arith, d.0)

  apply-All :
      (l : List (String × CStateInfo)) (s : Sysfs) {s' : Sysfs}
      → Distinct l
      → All (λ t. lookup t.0 info ≡ some t.1) l
      → apply_cstates info c (map (λ x. (x.0, w x)) l) s ≡ (ok tt, s')
      → All
          (λ t.
            content (cstate_disable c t.1.state_number) s'.log ≡ some (text (disable_byte (w t))))
          l
  apply-All [] s d e h = tt
  apply-All (t ∷ l) s d e h =
      let rest = apply_step t l s e.0 h in
      (
        apply_frame t.1.state_number l _ e.1 d.1 rest ∙ ground (arith, ==_refl c),
        apply-All l _ d.2 e.1 rest,
      )

-- After a success on a CPU whose states are distinct, where C-states are supported, every state's
-- `disable` file holds "0" if the profile of the CPU's pool wants the state enabled, and "1" if not.
pub update_cstates_applied :
    (p : CStatesPlatform) (c : ℕ) (profile : Option CStates) (s s' : Sysfs)
    → p.cstates_supported ≡ true
    → Distinct (p.cstates_info c)
    → update_cstates p c profile s ≡ (ok tt, s')
    → All
        (λ t.
          content (cstate_disable c t.1.state_number) s'.log
          ≡ some (text (if wanted profile t.0 t.1 then "0" else "1")))
        (p.cstates_info c)
unfolding update_cstates
update_cstates_applied p c profile s s' on d h =
    let info = p.cstates_info c in
    apply-All info c (λ t. wanted profile t.0 t.1) info s d (lookup-Distinct info d)
      (subst (λ l. apply_cstates info c l s ≡ (ok tt, s')) (desired_wanted info profile)
        (supported p.cstates_supported on h))
  where
    supported :
        (b : Bool)
        → b ≡ true
        → (if b
              then apply_cstates (p.cstates_info c) c (desired_cstates (p.cstates_info c) profile)
              else pure tt)
            s
          ≡ (ok tt, s')
        → apply_cstates (p.cstates_info c) c (desired_cstates (p.cstates_info c) profile) s
          ≡ (ok tt, s')
    supported true e h = h
    supported false e h = absurd (cc)
