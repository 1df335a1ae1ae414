-- ===== src/Power/Cpu/Lists.antt =====
-- CPU lists (internal/power/cpu.go): what removal keeps, and what lookup by id finds.
use cluster_power_manager.Base.{
  ℕ, zero, suc, ◌+◌, ◌≡◌, refl, ◌<◌, ◌≤◌, subst, swap_remove, ◌==◌, inl, inr, Bool, true, false,
  List, [], ◌∷◌, none, some, arith, if◌then◌else◌, get_elem?, length, count, contains, index_where,
  index_where_sound, index_where-total, swap_remove-total, count_if-swap_remove, Option-cases,
}
use cluster_power_manager.Power.Cpu.{contains_cpu, remove, scan_by_id, by_id, many_by_ids}

pub contains_cpu-contains : (c : ℕ) (l : List ℕ) → contains_cpu c l ≡ contains c l
unfolding contains_cpu
contains_cpu-contains c [] = refl
contains_cpu-contains c (x ∷ xs) = ground (arith, contains_cpu-contains c xs)

-- Removing a CPU takes one occurrence of it, and none of any other.
pub count-remove :
    (x c : ℕ) (l : List ℕ) {l' : List ℕ}
    → remove c l ≡ some l'
    → count x l' + (if c == x then 1 else 0) ≡ count x l
unfolding remove
count-remove x c l {l'} h = elim (Option-cases (index_where (λ y. y == c) l)) [
  | inl e ↦ absurd (ground arith)
  | inr (i, e) ↦
      let (y, g, hit) = index_where_sound (λ y. y == c) l e in
      let same : y ≡ c = ground arith in
      let taken : swap_remove i l ≡ some l' = rw (e, remove) at h in
      subst (λ z. count x l' + (if z == x then 1 else 0) ≡ count x l) same
        (count_if-swap_remove (λ z. z == x) i l y g taken)
]

pub remove-total : (c : ℕ) (l : List ℕ) → 0 < count c l → (l' : List ℕ) × (remove c l ≡ some l')
unfolding remove
remove-total c l h =
    let (i, e) = index_where-total (λ y. y == c) l h in
    let (y, g, hit) = index_where_sound (λ y. y == c) l e in
    let (l', r) = swap_remove-total i l y g in (l', rw (e, remove) r)

-- `IndexOf` finds what it looks for, at its first occurrence.
pub scan_by_id_lem :
    (id : ℕ) (l : List ℕ) → scan_by_id id l ≡ (if contains id l then some id else none)
unfolding scan_by_id
scan_by_id_lem id [] = refl
scan_by_id_lem id (x ∷ xs) = ground (arith, scan_by_id_lem id xs)

contains_of_get_elem? : (id i : ℕ) (l : List ℕ) → get_elem? l i ≡ some id → contains id l ≡ true
contains_of_get_elem? id i [] h = absurd (cc)
contains_of_get_elem? id zero (x ∷ xs) h = ground arith
contains_of_get_elem? id (suc i) (x ∷ xs) h = ground (arith, contains_of_get_elem? id i xs h)

get_elem?-none : (i : ℕ) (l : List ℕ) → get_elem? l i ≡ none → length l ≤ i
get_elem?-none i [] h = omega arith
get_elem?-none zero (x ∷ xs) h = absurd (cc)
get_elem?-none (suc i) (x ∷ xs) h = omega (arith, get_elem?-none i xs h)

-- The lookup by index first finds what the plain scan finds: the CPU of that id, if the list has one.
pub by_id_lem : (id : ℕ) (l : List ℕ) → by_id id l ≡ (if contains id l then some id else none)
unfolding by_id
by_id_lem id l =
    ground (arith, scan_by_id_lem id l, contains_of_get_elem? id id l, get_elem?-none id l)

abbrev pub all_contained : List ℕ → List ℕ → Bool
all_contained [] l = true
all_contained (id ∷ ids) l = if contains id l then all_contained ids l else false

-- A list of ids is resolved to the CPUs of these ids, in order, if the list knows all of them, and
-- is refused otherwise.
pub many_by_ids_lem :
    (ids l : List ℕ) → many_by_ids ids l ≡ (if all_contained ids l then some ids else none)
unfolding many_by_ids
many_by_ids_lem [] l = refl
many_by_ids_lem (id ∷ ids) l = ground (arith, by_id_lem id l, many_by_ids_lem ids l)
