-- ===== src/Power/Uncore/Applied.antt =====
-- Which frequencies `NewUncore` makes, and which files hold them after `applyUncore`
-- (internal/power/uncore.go).
use cluster_power_manager.Base.{
  ℕ, ◌+◌, ◌%◌, ◌≤◌, ◌<◌, ◌≡◌, refl, ap, subst, ◌∙◌, ◌==◌, ◌&&◌, Bool, true, false, List, [], ◌∷◌,
  Option, none, some, arith, All, ==_refl,
}
use cluster_power_manager.Power.Sysfs.{
  Sysfs, uncore_max, uncore_min, number, content, ok, written, write, bind_ok,
}
use cluster_power_manager.Power.Uncore.{
  Uncore, Die, Package, Machine, normalize_uncore_freq, new_uncore, write_uncore, die_effective,
  apply_dies, apply_packages, apply_uncore, set_topology_uncore, package_effective,
  topology_effective,
}
use mathlib.Core.Path.{fun_ext}

-- A frequency pair that `NewUncore` makes is ordered, does not exceed the hardware's maximum, and is
-- the request rounded down to multiples of 100 MHz, each half from its own request: a multiple, not
-- above the request and less than 100 MHz below it. The request was within the hardware's range, on a
-- system with the feature.
pub new_uncore_bounds :
    (supported : Bool) (d : Uncore) (lo hi : ℕ) (u : Uncore)
    → new_uncore supported d lo hi ≡ ok u
    → (supported ≡ true)
      × (d.min ≤ lo)
      × (hi ≤ d.max)
      × (u.min ≤ u.max)
      × (u.max ≤ d.max)
      × (u.min ≤ lo)
      × (u.max ≤ hi)
      × (u.min % 100000 ≡ 0)
      × (u.max % 100000 ≡ 0)
      × (lo < u.min + 100000)
      × (hi < u.max + 100000)
unfolding new_uncore normalize_uncore_freq
new_uncore_bounds supported d lo hi u h = ground arith

-- The two files of a die hold the pair.
abbrev pub Holds : ℕ → ℕ → Uncore → Sysfs → Type 0
Holds p i u s =
    (content (uncore_max p i) s.log ≡ some (number u.max))
    × (content (uncore_min p i) s.log ≡ some (number u.min))

abbrev SameAt : ℕ → ℕ → Sysfs → Sysfs → Type 0
SameAt p i s t =
    (content (uncore_max p i) s.log ≡ content (uncore_max p i) t.log)
    × (content (uncore_min p i) s.log ≡ content (uncore_min p i) t.log)

SameAt-trans : (p i : ℕ) (a b c : Sysfs) → SameAt p i a b → SameAt p i b c → SameAt p i a c
SameAt-trans p i a b c x y = (x.0 ∙ y.0, x.1 ∙ y.1)

write_uncore_ok :
    (p i : ℕ) (u : Uncore) (s : Sysfs) {x : Unit {0}} {t : Sysfs}
    → write_uncore p i u s ≡ (ok x, t)
    → t ≡ written (uncore_min p i) (number u.min) (written (uncore_max p i) (number u.max) s)
unfolding write_uncore write
write_uncore_ok p i u s h = ground arith

write_uncore-Holds :
    (p i : ℕ) (u : Uncore) (s : Sysfs) {x : Unit {0}} {t : Sysfs}
    → write_uncore p i u s ≡ (ok x, t)
    → Holds p i u t
write_uncore-Holds p i u s h =
    let e = write_uncore_ok p i u s h in
    (rw e (ground (arith, ==_refl p, ==_refl i)), rw e (ground (arith, ==_refl p, ==_refl i)))

write_uncore-SameAt :
    (p i q j : ℕ) (u : Uncore) (s : Sysfs) {x : Unit {0}} {t : Sysfs}
    → write_uncore p i u s ≡ (ok x, t)
    → (p == q && i == j) ≡ false
    → SameAt q j t s
write_uncore-SameAt p i q j u s h a =
    let e = write_uncore_ok p i u s h in (rw e (ground (arith, a)), rw e (ground (arith, a)))

-- The first pair that is there, or else the given one.
abbrev pub first_of : List (Option Uncore) → Uncore → Uncore
first_of [] u = u
first_of (none ∷ l) u = first_of l u
first_of (some own ∷ l) u = own

effective_first :
    (d : Uncore) (top : Option Uncore)
    → die_effective d top ≡ (λ pkg die. first_of (die ∷ pkg ∷ top ∷ []) d)
unfolding die_effective package_effective topology_effective
effective_first d top = fun_ext λ pkg. fun_ext λ die. go pkg die top
  where
    go :
        (pkg die top : Option Uncore)
        → die_effective d top pkg die ≡ first_of (die ∷ pkg ∷ top ∷ []) d
    go pkg (some u) top = refl
    go (some u) none top = refl
    go none none (some u) = refl
    go none none none = refl

-- The dies of a package, and the packages, have ids of their own.
abbrev pub DistinctDies : List Die → Type 0
DistinctDies [] = Unit
DistinctDies (die ∷ dies) = All (λ t. (t.id == die.id) ≡ false) dies × DistinctDies dies

abbrev pub DistinctPackages : List Package → Type 0
DistinctPackages [] = Unit
DistinctPackages (pkg ∷ pkgs) =
    DistinctDies pkg.dies × All (λ t. (t.id == pkg.id) ≡ false) pkgs × DistinctPackages pkgs

module _ (d : Uncore) (top : Option Uncore) where
  apply_dies_step :
      {P : Type 0} (p : ℕ) (own : Option Uncore) (die : Die) (dies : List Die) (s : Sysfs)
      {t : Sysfs}
      → apply_dies d top p own (die ∷ dies) s ≡ (ok tt, t)
      → ((k : Sysfs)
          → write_uncore p die.id (die_effective d top own die.uncore) s ≡ (ok tt, k)
          → apply_dies d top p own dies k ≡ (ok tt, t)
          → P)
      → P
  unfolding apply_dies
  apply_dies_step p own die dies s h c =
      bind_ok (write_uncore p die.id (die_effective d top own die.uncore))
        (λ _. apply_dies d top p own dies) s h λ u k e g. c k e g

  apply_dies-SameAt :
      (q j p : ℕ) (own : Option Uncore) (dies : List Die) (s : Sysfs) {t : Sysfs}
      → All (λ die. (p == q && die.id == j) ≡ false) dies
      → apply_dies d top p own dies s ≡ (ok tt, t)
      → SameAt q j t s
  apply_dies-SameAt q j p own [] s a h =
      unfold apply_dies in subst (λ r. SameAt q j r s) (ap (λ r. r.1) h) (refl, refl)
  apply_dies-SameAt q j p own (die ∷ dies) s {t} a h = apply_dies_step p own die dies s h λ k e g.
      SameAt-trans q j t k s (apply_dies-SameAt q j p own dies k a.1 g)
        (write_uncore-SameAt p die.id q j (die_effective d top own die.uncore) s e a.0)

  Holds-kept : (q j : ℕ) (u : Uncore) (s t : Sysfs) → SameAt q j t s → Holds q j u s → Holds q j u t
  Holds-kept q j u s t e h = (e.0 ∙ h.0, e.1 ∙ h.1)

  apply_dies-Holds :
      (p : ℕ) (own : Option Uncore) (dies : List Die) (s : Sysfs) {t : Sysfs}
      → DistinctDies dies
      → apply_dies d top p own dies s ≡ (ok tt, t)
      → All (λ die. Holds p die.id (die_effective d top own die.uncore) t) dies
  apply_dies-Holds p own [] s n h = tt
  apply_dies-Holds p own (die ∷ dies) s {t} n h = apply_dies_step p own die dies s h λ k e g. (
    Holds-kept p die.id (die_effective d top own die.uncore) k t
        (apply_dies-SameAt p die.id p own dies k (other dies n.0) g)
        (write_uncore-Holds p die.id (die_effective d top own die.uncore) s e),
    apply_dies-Holds p own dies k n.1 g,
  )
    where
      other :
          (l : List Die)
          → All (λ x. (x.id == die.id) ≡ false) l
          → All (λ x. (p == p && x.id == die.id) ≡ false) l
      other [] a = tt
      other (x ∷ l) a = (ground (arith, a.0), other l a.1)

  apply_packages_step :
      {P : Type 0} (pkg : Package) (pkgs : List Package) (s : Sysfs) {t : Sysfs}
      → apply_packages d top (pkg ∷ pkgs) s ≡ (ok tt, t)
      → ((k : Sysfs)
          → apply_dies d top pkg.id pkg.uncore pkg.dies s ≡ (ok tt, k)
          → apply_packages d top pkgs k ≡ (ok tt, t)
          → P)
      → P
  unfolding apply_packages
  apply_packages_step pkg pkgs s h c =
      bind_ok (apply_dies d top pkg.id pkg.uncore pkg.dies) (λ _. apply_packages d top pkgs) s h
        λ u k e g. c k e g

  away :
      (q j p : ℕ) (dies : List Die)
      → (p == q) ≡ false
      → All (λ die. (p == q && die.id == j) ≡ false) dies
  away q j p [] h = tt
  away q j p (x ∷ l) h = (ground (arith, h), away q j p l h)

  apply_packages-SameAt :
      (q j : ℕ) (pkgs : List Package) (s : Sysfs) {t : Sysfs}
      → All (λ pkg. (pkg.id == q) ≡ false) pkgs
      → apply_packages d top pkgs s ≡ (ok tt, t)
      → SameAt q j t s
  apply_packages-SameAt q j [] s a h =
      unfold apply_packages in subst (λ r. SameAt q j r s) (ap (λ r. r.1) h) (refl, refl)
  apply_packages-SameAt q j (pkg ∷ pkgs) s {t} a h = apply_packages_step pkg pkgs s h λ k e g.
      SameAt-trans q j t k s (apply_packages-SameAt q j pkgs k a.1 g)
        (apply_dies-SameAt q j pkg.id pkg.uncore pkg.dies s (away q j pkg.id pkg.dies a.0) e)

  apply_packages-Holds :
      (pkgs : List Package) (s : Sysfs) {t : Sysfs}
      → DistinctPackages pkgs
      → apply_packages d top pkgs s ≡ (ok tt, t)
      → All
          (λ pkg.
            All (λ die. Holds pkg.id die.id (die_effective d top pkg.uncore die.uncore) t) pkg.dies)
          pkgs
  apply_packages-Holds [] s n h = tt
  apply_packages-Holds (pkg ∷ pkgs) s {t} n h = apply_packages_step pkg pkgs s h λ k e g. (
    kept k g pkg.dies (apply_dies-Holds pkg.id pkg.uncore pkg.dies s n.0 e),
    apply_packages-Holds pkgs k n.2 g,
  )
    where
      kept :
          (k : Sysfs)
          → apply_packages d top pkgs k ≡ (ok tt, t)
          → (l : List Die)
          → All (λ die. Holds pkg.id die.id (die_effective d top pkg.uncore die.uncore) k) l
          → All (λ die. Holds pkg.id die.id (die_effective d top pkg.uncore die.uncore) t) l
      kept k g [] a = tt
      kept k g (die ∷ l) a = (
        Holds-kept pkg.id die.id (die_effective d top pkg.uncore die.uncore) k t
            (apply_packages-SameAt pkg.id die.id pkgs k n.1 g) a.0,
        kept k g l a.1,
      )

-- After `SetUncore` of the topology succeeded, on packages and dies with ids of their own: the two files
-- of every die hold the die's own pair, or its package's if it has none, or the new one of the topology
-- if that has none either, or the hardware's if the new one is none.
pub set_topology_uncore-Holds :
    (d : Uncore) (u : Option Uncore) (s t : Machine)
    → DistinctPackages s.topology.packages
    → set_topology_uncore d u s ≡ (ok tt, t)
    → All
        (λ pkg.
          All
            (λ die. Holds pkg.id die.id (first_of (die.uncore ∷ pkg.uncore ∷ u ∷ []) d) t.sysfs)
            pkg.dies)
        s.topology.packages
unfolding set_topology_uncore apply_uncore
set_topology_uncore-Holds d u s t n h =
    subst
      (λ pair.
        All (λ pkg. All (λ die. Holds pkg.id die.id (pair pkg.uncore die.uncore) t.sysfs) pkg.dies)
          s.topology.packages)
      (effective_first d u)
      (apply_packages-Holds d u s.topology.packages s.sysfs {t = t.sysfs} n (ground (arith, h)))
