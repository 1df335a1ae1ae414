-- ===== src/Power/Uncore.antt =====
-- The uncore frequency (internal/power/uncore.go): a package of dies, each level with a frequency of its
-- own or its parent's. A Go map of packages or dies is a list of its entries, in the order of the walk.
-- The proofs stand in the child module.
pub mod Applied
use cluster_power_manager.Base.{
  ℕ, ◌-◌, ◌%◌, ◌==◌, Bool, not, List, [], ◌∷◌, map, Option, none, some, if◌then◌else◌, ltb,
}
use cluster_power_manager.Power.Sysfs.{
  uncore_max, uncore_min, number, set_uncore, uncore_unsupported, uncore_min_low, uncore_max_high,
  uncore_order, Sysfs, Result, ok, err, panic, M, Action, pure, ◌>>=◌, ◌>>◌, write,
}

pub record Uncore : Type 0 where
  pub min : ℕ
  pub max : ℕ

-- `normalizeUncoreFreq`: down to a multiple of 100 MHz.
unfoldable pub normalize_uncore_freq : ℕ → ℕ
normalize_uncore_freq freq = freq - freq % 100000

-- `supported` is the feature's state, and `default_uncore` what the hardware started with.
unfoldable pub new_uncore : Bool → Uncore → ℕ → ℕ → Result Uncore
new_uncore supported default_uncore min_freq max_freq =
    if not supported
    then err uncore_unsupported
    else if ltb min_freq default_uncore.min
    then err uncore_min_low
    else if ltb default_uncore.max max_freq
    then err uncore_max_high
    else if ltb max_freq min_freq
    then err uncore_order
    else ok (record { min = normalize_uncore_freq min_freq; max = normalize_uncore_freq max_freq })

-- `Uncore.write`: the maximum first.
unfoldable pub write_uncore : ℕ → ℕ → Uncore → M (Unit {0})
write_uncore pkg die u = do
  write (uncore_max pkg die) (number u.max) set_uncore
  write (uncore_min pkg die) (number u.min) set_uncore

pub record Die : Type 0 where
  pub id : ℕ
  pub uncore : Option Uncore

pub record Package : Type 0 where
  pub id : ℕ
  pub uncore : Option Uncore
  pub dies : List Die

pub record Topology : Type 0 where
  pub uncore : Option Uncore
  pub packages : List Package

-- `getEffectiveUncore` of each level.
unfoldable pub topology_effective : Uncore → Option Uncore → Uncore
topology_effective default_uncore none = default_uncore
topology_effective default_uncore (some u) = u

unfoldable pub package_effective : Uncore → Option Uncore → Option Uncore → Uncore
package_effective default_uncore top none = topology_effective default_uncore top
package_effective default_uncore top (some u) = u

unfoldable pub die_effective : Uncore → Option Uncore → Option Uncore → Option Uncore → Uncore
die_effective default_uncore top pkg none = package_effective default_uncore top pkg
die_effective default_uncore top pkg (some u) = u

-- `applyUncore` of each level: a failed write ends it.
unfoldable pub apply_dies : Uncore → Option Uncore → ℕ → Option Uncore → List Die → M (Unit {0})
apply_dies d top pkg own [] = pure tt
apply_dies d top pkg own (die ∷ dies) =
    write_uncore pkg die.id (die_effective d top own die.uncore) >> apply_dies d top pkg own dies

unfoldable pub apply_packages : Uncore → Option Uncore → List Package → M (Unit {0})
apply_packages d top [] = pure tt
apply_packages d top (pkg ∷ pkgs) =
    apply_dies d top pkg.id pkg.uncore pkg.dies >> apply_packages d top pkgs

unfoldable pub apply_uncore : Uncore → Topology → M (Unit {0})
apply_uncore d t = apply_packages d t.uncore t.packages

-- The topology and the files.
pub record Machine : Type 0 where
  pub topology : Topology
  pub sysfs : Sysfs

abbrev pub on_files : M (Unit {0}) → Action Machine (Unit {0})
on_files m s = let r = m s.sysfs in (r.0, record s { sysfs = r.1 })

abbrev pub put_die : ℕ → Option Uncore → List Die → List Die
put_die i u [] = []
put_die i u (die ∷ dies) =
    (if die.id == i then record die { uncore = u } else die) ∷ put_die i u dies

abbrev pub put_package : ℕ → (Package → Package) → List Package → List Package
put_package p f [] = []
put_package p f (pkg ∷ pkgs) = (if pkg.id == p then f pkg else pkg) ∷ put_package p f pkgs

abbrev pub find_package : ℕ → List Package → Option Package
find_package p [] = none
find_package p (pkg ∷ pkgs) = if pkg.id == p then some pkg else find_package p pkgs

abbrev pub find_die : ℕ → List Die → Option Die
find_die i [] = none
find_die i (die ∷ dies) = if die.id == i then some die else find_die i dies

-- `SetUncore` of the topology, of its package `p` and of the die `i` of that package: the field is
-- stored before the writes, whose failure leaves it stored. A method of a package or a die that is not
-- there panics.
unfoldable pub set_topology_uncore : Uncore → Option Uncore → Action Machine (Unit {0})
set_topology_uncore d u s =
    let t = record (s.topology) { uncore = u } in
    on_files (apply_uncore d t) (record s { topology = t })

unfoldable pub set_package_uncore : Uncore → ℕ → Option Uncore → Action Machine (Unit {0})
set_package_uncore d p u s = elim (find_package p s.topology.packages) [
  | none ↦ (panic, s)
  | some pkg ↦ on_files (apply_dies d s.topology.uncore p u pkg.dies) (record s {
    topology = record (s.topology) {
      packages = put_package p (λ k. record k { uncore = u }) s.topology.packages;
    };
  })
]

unfoldable pub set_die_uncore : Uncore → ℕ → ℕ → Option Uncore → Action Machine (Unit {0})
set_die_uncore d p i u s = elim (find_package p s.topology.packages) [
  | none ↦ (panic, s)
  | some pkg ↦ elim (find_die i pkg.dies) [
    | none ↦ (panic, s)
    | some die ↦
        on_files (write_uncore p i (die_effective d s.topology.uncore pkg.uncore u)) (record s {
          topology = record (s.topology) {
            packages =
                put_package p (λ k. record k { dies = put_die i u k.dies }) s.topology.packages;
          };
        })
  ]
]
