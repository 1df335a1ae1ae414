-- ===== src/Agent/Selection/Chosen.antt =====
-- What is selected (controllers/common.go).
use cluster_power_manager.Base.{
  ◌≡◌, ◌≤◌, refl, sym, ap, subst, true, false, List, [], ◌∷◌, Option, none, some, String, str_eq,
  arith, All, Bool-cases, inl, inr, ◌⊎◌,
}
use cluster_power_manager.Agent.Cluster.{NodeConfig}
use cluster_power_manager.Agent.Selection.{
  is_older, insert_config, sort_configs, find_active, first, or_oldest, select_active_or_oldest,
}

-- A match under the active name, or else the first in the order, which no match is older than.
abbrev pub IsListed : NodeConfig → List NodeConfig → Type 0
IsListed c [] = true ≡ false
IsListed c (d ∷ ds) = (c ≡ d) ⊎ IsListed c ds

abbrev pub IsChosen : List NodeConfig → String → NodeConfig → Type 0
IsChosen matches active c =
    ((str_eq c.name active ≡ true) × (str_eq active "" ≡ false))
    ⊎ ((str_eq active "" ≡ true ⊎ All (λ d. str_eq d.name active ≡ false) matches)
        × All (λ d. c.created ≤ d.created) matches)

abbrev pub IsSelection : List NodeConfig → String → Option NodeConfig → Type 0
IsSelection matches active none = matches ≡ []
IsSelection matches active (some c) = IsListed c matches × IsChosen matches active c

-- The first of a sorted list.
abbrev IsFirst : List NodeConfig → Option NodeConfig → Type 0
IsFirst matches none = matches ≡ []
IsFirst matches (some c) = IsListed c matches × All (λ d. c.created ≤ d.created) matches

inserted :
    (c : NodeConfig) (cs sorted : List NodeConfig)
    → IsFirst cs (first sorted)
    → IsFirst (c ∷ cs) (first (insert_config c sorted))
unfolding insert_config
inserted c cs [] f = (inl refl, (omega arith, subst (All λ d. c.created ≤ d.created) (sym f) tt))
inserted c cs (d ∷ ds) f = elim (Bool-cases (is_older d c)) [
  | inl o ↦ rw o (inr f.0, (older o, f.1))
  | inr o ↦ rw o (inl refl, (omega arith, widen (younger o) cs f.1))
]
  where
    older : is_older d c ≡ true → d.created ≤ c.created
    older o = ground arith

    younger : is_older d c ≡ false → c.created ≤ d.created
    younger o = ground arith

    widen :
        c.created ≤ d.created
        → (l : List NodeConfig) → All (λ x. d.created ≤ x.created) l
        → All (λ x. c.created ≤ x.created) l
    widen k [] h = tt
    widen k (x ∷ l) h = (omega (arith, k, h.0), widen k l h.1)

first-IsFirst : (cs : List NodeConfig) → IsFirst cs (first (sort_configs cs))
unfolding sort_configs
first-IsFirst [] = refl
first-IsFirst (c ∷ cs) = inserted c cs (sort_configs cs) (first-IsFirst cs)

found_none :
    (active : String) (cs : List NodeConfig)
    → find_active active cs ≡ none
    → All (λ d. str_eq d.name active ≡ false) cs
unfolding find_active
found_none active [] f = tt
found_none active (c ∷ cs) f = elim (Bool-cases (str_eq c.name active)) [
  | inl e ↦ absurd (let g : some c ≡ none = rw e at f in cc)
  | inr e ↦ (e, found_none active cs (rw e at f))
]

found_some :
    (active : String) (cs : List NodeConfig) (d : NodeConfig)
    → find_active active cs ≡ some d
    → IsListed d cs × (str_eq d.name active ≡ true)
unfolding find_active
found_some active [] d f = absurd (cc)
found_some active (c ∷ cs) d f = elim (Bool-cases (str_eq c.name active)) [
  | inl e ↦
      (let same : d ≡ c = sym (ap (λ o. elim o [ none ↦ c | some x ↦ x ]) (rw e at f)) in
        (inl same, subst (λ x. str_eq x.name active ≡ true) (sym same) e))
  | inr e ↦ (let w = found_some active cs d (rw e at f) in (inr w.0, w.1))
]

-- Where there are matches, one of them is selected, else none. It is a match under the active name; or
-- there is no active name or no match under it, and no match was created before it.
pub select_active_or_oldest_lem :
    (matches : List NodeConfig) (active : String)
    → IsSelection matches active (select_active_or_oldest matches active).0
unfolding select_active_or_oldest
select_active_or_oldest_lem matches active = elim (Bool-cases (str_eq active "")) [
  | inl e ↦ rw e (oldest (inl e) (first (sort_configs matches)) (first-IsFirst matches))
  | inr e ↦ rw e (go e (find_active active matches) refl)
]
  where
    oldest :
        ((str_eq active "" ≡ true) ⊎ All (λ d. str_eq d.name active ≡ false) matches)
        → (o : Option NodeConfig) → IsFirst matches o
        → IsSelection matches active o
    oldest why none f = f
    oldest why (some c) f = (f.0, inr (why, f.1))

    go :
        str_eq active "" ≡ false
        → (o : Option NodeConfig) → find_active active matches ≡ o
        → IsSelection matches active (or_oldest o matches).0
    go e none f =
        oldest (inr (found_none active matches f)) (first (sort_configs matches))
          (first-IsFirst matches)
    go e (some c) f = let w = found_some active matches c f in (w.0, inl (w.1, e))
