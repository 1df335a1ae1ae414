-- ===== src/Api/Reserved.antt =====
-- The check that the reserved CPUs of a PowerNodeConfig are disjoint
-- (api/v1alpha1/powernodeconfig_webhook.go). The Go map of the cores that were seen is a list.
use cluster_power_manager.Base.{
  ℕ, ◌+◌, ◌-◌, ◌≡◌, refl, ◌∙◌, ◌==◌, ◌||◌, Bool, true, false, List, [], ◌∷◌, ◌++◌, Option, none,
  some, String, arith, if◌then◌else◌, count, count_if, count_if-append, count-append, contains, ap,
}

pub record ReservedSpec : Type 0 where
  pub cores : List ℕ
  pub power_profile : String

-- `field.Invalid` on the core of the entry `index`, which the entry `earlier` has.
pub record Repeated : Type 0 where
  pub index : ℕ
  pub core : ℕ
  pub earlier : ℕ

abbrev pub seen_at : ℕ → List (ℕ × ℕ) → Option ℕ
seen_at c [] = none
seen_at c ((x, i) ∷ seen) = if x == c then some i else seen_at c seen

abbrev pub on_core : ℕ → ℕ → Option ℕ → List Repeated → List Repeated
on_core i c none errs = errs
on_core i c (some earlier) errs = record { index = i; core = c; earlier = earlier } ∷ errs

abbrev pub remember : ℕ → ℕ → Option ℕ → List (ℕ × ℕ) → List (ℕ × ℕ)
remember i c none seen = (c, i) ∷ seen
remember i c (some earlier) seen = seen

-- The cores of one entry: the errors, and what has been seen after it.
unfoldable pub check_cores : ℕ → List ℕ → List (ℕ × ℕ) → List Repeated × List (ℕ × ℕ)
check_cores i [] seen = ([], seen)
check_cores i (c ∷ cs) seen =
    let rest = check_cores i cs (remember i c (seen_at c seen) seen) in
    (on_core i c (seen_at c seen) rest.0, rest.1)

unfoldable pub check_specs : ℕ → List ReservedSpec → List (ℕ × ℕ) → List Repeated
check_specs i [] seen = []
check_specs i (rc ∷ rcs) seen =
    let r = check_cores i rc.cores seen in r.0 ++ check_specs (i + 1) rcs r.1

unfoldable pub validate_reserved_cpu_disjoint : List ReservedSpec → List Repeated
validate_reserved_cpu_disjoint reserved = check_specs 0 reserved []

-- All cores of all entries.
abbrev pub all_cores : List ReservedSpec → List ℕ
all_cores [] = []
all_cores (rc ∷ rcs) = rc.cores ++ all_cores rcs

abbrev pub is_seen : ℕ → List (ℕ × ℕ) → Bool
is_seen c seen = elim (seen_at c seen) [ none ↦ false | some i ↦ true ]

abbrev errors_of : ℕ → List Repeated → ℕ
errors_of c = count_if λ e. e.core == c

-- How many of `n` listings of a core are repetitions.
abbrev repetitions : Bool → ℕ → ℕ
repetitions seen n = if seen then n else n - 1

on_core-errors :
    (c i x : ℕ) (o : Option ℕ) (errs : List Repeated)
    → errors_of c (on_core i x o errs)
      ≡ errors_of c errs + (elim o [ none ↦ 0 | some j ↦ if x == c then 1 else 0 ])
on_core-errors c i x none errs = omega arith
on_core-errors c i x (some j) errs = omega arith

remember-is_seen :
    (c i x : ℕ) (o : Option ℕ) (seen : List (ℕ × ℕ))
    → seen_at x seen ≡ o
    → is_seen c (remember i x o seen) ≡ (x == c || is_seen c seen)
remember-is_seen c i x none seen e = ground arith
remember-is_seen c i x (some j) seen e = ground (arith, e)

is_seen-same : (c x : ℕ) (seen : List (ℕ × ℕ)) → (x == c) ≡ true → is_seen c seen ≡ is_seen x seen
is_seen-same c x seen h = let same : c ≡ x = ground arith in ap (λ z. is_seen z seen) same

contains-count : (c : ℕ) (l : List ℕ) → contains c l ≡ (if count c l == 0 then false else true)
contains-count c [] = refl
contains-count c (x ∷ l) = ground (arith, contains-count c l)

check_cores-errors :
    (c i : ℕ) (cs : List ℕ) (seen : List (ℕ × ℕ))
    → (errors_of c (check_cores i cs seen).0 ≡ repetitions (is_seen c seen) (count c cs))
      × (is_seen c (check_cores i cs seen).1 ≡ (is_seen c seen || contains c cs))
unfolding check_cores
check_cores-errors c i [] seen = (ground arith, ground arith)
check_cores-errors c i (x ∷ cs) seen =
    let ih = check_cores-errors c i cs (remember i x (seen_at x seen) seen) in
    let r = remember-is_seen c i x (seen_at x seen) seen refl in
    let o =
      on_core-errors c i x (seen_at x seen)
        (check_cores i cs (remember i x (seen_at x seen) seen)).0 in
    let q = is_seen-same c x seen in
    (ground (arith, ih.0, ih.1, r, o, q), ground (arith, ih.1, r, q))

check_specs-errors :
    (c i : ℕ) (rcs : List ReservedSpec) (seen : List (ℕ × ℕ))
    → errors_of c (check_specs i rcs seen) ≡ repetitions (is_seen c seen) (count c (all_cores rcs))
unfolding check_specs
check_specs-errors c i [] seen = ground arith
check_specs-errors c i (rc ∷ rcs) seen =
    let w = check_cores-errors c i rc.cores seen in
    let ih = check_specs-errors c (i + 1) rcs (check_cores i rc.cores seen).1 in
    count_if-append _ (check_cores i rc.cores seen).0 _
    ∙ ground
        (arith, w.0, w.1, ih, count-append c rc.cores (all_cores rcs), contains-count c rc.cores)

-- `validateReservedCPUDisjoint` reports each core once for each listing after its first, over all
-- entries; so it reports nothing for a core just if that is listed at most once.
pub validate_reserved_cpu_disjoint_lem :
    (reserved : List ReservedSpec) (c : ℕ)
    → count_if (λ e. e.core == c) (validate_reserved_cpu_disjoint reserved)
      ≡ count c (all_cores reserved) - 1
unfolding validate_reserved_cpu_disjoint
validate_reserved_cpu_disjoint_lem reserved c = check_specs-errors c 0 reserved []
