-- ===== src/Power/Cpu.antt =====
-- CPUs and lists of CPUs (internal/power/cpu.go): lookup by id, and the move of one CPU from its pool
-- to another.
pub mod Lists
pub mod Moves
pub mod Returns
use cluster_power_manager.Base.{
  ℕ, ◌-◌, ◌^◌, ◌==◌, ◌&&◌, ◌||◌, Bool, true, false, List, [], ◌∷◌, ◌++◌, Option, none, some, ltb,
  leb, if◌then◌else◌, get_elem?, length, index_where, swap_remove,
}
use cluster_power_manager.Power.Sysfs.{
  Error, target_nil, reserved_to_exclusive, exclusive_to_exclusive, exclusive_to_reserved,
  cpu_not_in_pool, cpu_not_in_list, Result, ok, err, panic, deadlock, Action, ◌>>=◌, ◌>>◌,
}
use cluster_power_manager.Power.PStates.{PStates, update_frequencies}
use cluster_power_manager.Power.CStates.{CStates, update_cstates}
use cluster_power_manager.Power.Host.{
  Pool, reserved, shared, same_pool, is_exclusive, Profile, Platform, Host, at_cpu, at_pool,
  on_sysfs,
}

-- `CPUList.IndexOf`, `none` for -1.
unfoldable pub index_of : ℕ → List ℕ → Option ℕ
index_of c cpus = index_where (λ x. x == c) cpus

-- `CPUList.Contains`.
unfoldable pub contains_cpu : ℕ → List ℕ → Bool
unfolding index_of
contains_cpu c cpus = elim (index_of c cpus) [ none ↦ false | some i ↦ true ]

-- `CPUList.add`.
unfoldable pub add : ℕ → List ℕ → List ℕ
add c cpus = cpus ++ c ∷ []

-- `CPUList.remove`, `none` where the CPU is not in the list.
unfoldable pub remove : ℕ → List ℕ → Option (List ℕ)
unfolding index_of
remove c cpus = elim (index_of c cpus) [ none ↦ none | some i ↦ swap_remove i cpus ]

unfoldable pub scan_by_id : ℕ → List ℕ → Option ℕ
scan_by_id id [] = none
scan_by_id id (c ∷ cpus) = if c == id then some c else scan_by_id id cpus

-- `CPUList.ByID` tries the id as an index before it scans.
unfoldable pub by_id : ℕ → List ℕ → Option ℕ
unfolding scan_by_id
by_id id cpus =
    if leb id (2 ^ 63 - 1) && ltb id (length cpus)
    then (elim (get_elem? cpus id) [
      | none ↦ none
      | some c ↦ if c == id then some c else scan_by_id id cpus
    ])
    else scan_by_id id cpus

abbrev pub cons_found : ℕ → Option (List ℕ) → Option (List ℕ)
cons_found c none = none
cons_found c (some cs) = some (c ∷ cs)

-- `CPUList.ManyByIDs`, `none` where an id is unknown.
unfoldable pub many_by_ids : List ℕ → List ℕ → Option (List ℕ)
unfolding by_id
many_by_ids [] cpus = some []
many_by_ids (id ∷ ids) cpus =
    let rest = many_by_ids ids cpus in
    elim (by_id id cpus) [ none ↦ none | some c ↦ cons_found c rest ]

abbrev pub pstates_of : Option Profile → Option PStates
pstates_of none = none
pstates_of (some p) = some p.pstates

abbrev pub cstates_of : Option Profile → Option CStates
cstates_of none = none
cstates_of (some p) = some p.cstates

-- `consolidate` applies the profile of the CPU's pool.
unfoldable pub consolidate : Platform → ℕ → Action Host (Unit {0})
consolidate p c h =
    (on_sysfs (update_frequencies p.freq c (pstates_of (h.power_profile (h.pool_of c))))
        >> on_sysfs (update_cstates p.idle c (cstates_of (h.power_profile (h.pool_of c)))))
      h

-- The end of `doSetPool`: keep the move, or undo it.
unfoldable pub settle : ℕ → Pool → Result (Unit {0}) × Host → Result (Unit {0}) × Host
settle c orig (ok u, h) =
    (ok tt, record h { cpus = at_pool h.cpus (h.pool_of c) (add c (h.cpus (h.pool_of c))) })
settle c orig (err e, h) = (
  err e,
  record h { pool_of = at_cpu h.pool_of c orig; cpus = at_pool h.cpus orig (add c (h.cpus orig)) },
)
settle c orig (panic, h) = (panic, h)
settle c orig (deadlock, h) = (deadlock, h)

unfoldable pub do_set_pool : Platform → ℕ → Pool → Action Host (Unit {0})
do_set_pool p c pool h = elim (remove c (h.cpus (h.pool_of c))) [
  | none ↦ (err cpu_not_in_pool, h)
  | some l ↦ settle c (h.pool_of c) (
      consolidate p c
        (record h { pool_of = at_cpu h.pool_of c pool; cpus = at_pool h.cpus (h.pool_of c) l }))
]

-- The guards of `setPool` on the CPU's pool and its target.
unfoldable pub set_pool_from : Platform → ℕ → Pool → Pool → Action Host (Unit {0})
set_pool_from p c current target h =
    if same_pool current target
    then (ok tt, h)
    else if same_pool current reserved && is_exclusive target
    then (err reserved_to_exclusive, h)
    else if is_exclusive current && is_exclusive target
    then (err exclusive_to_exclusive, h)
    else if is_exclusive current && same_pool target reserved
    then (err exclusive_to_reserved, h)
    else if same_pool target shared || same_pool current shared
    then do_set_pool p c target h
    else (panic, h)

unfoldable pub set_pool : Platform → ℕ → Option Pool → Action Host (Unit {0})
set_pool p c none h = (err target_nil, h)
set_pool p c (some target) h = set_pool_from p c (h.pool_of c) target h
