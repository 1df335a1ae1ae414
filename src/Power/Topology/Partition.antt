-- ===== src/Power/Topology/Partition.antt =====
-- Where the discovery puts each CPU (internal/power/topology.go).
use cluster_power_manager.Base.{
  ℕ, ◌+◌, ◌≡◌, refl, ap, sym, subst, ◌∙◌, ◌==◌, ◌&&◌, Bool, true, false, List, [], ◌∷◌, ◌++◌,
  Option, none, some, arith, if◌then◌else◌, count, count-append, set, Bool-cases, inl, inr,
}
use cluster_power_manager.Power.Sysfs.{Result, ok, lift, bind_ok}
use cluster_power_manager.Power.Topology.{
  Property, package_id, core_id, Files, CpuTopology, or_unreadable, read, new_cpu, core_add_cpu,
  group_add_cpu, group_property, package_add_cpu, add_cpu, add_cpus, discover_topology, at1, at2,
  at3,
}

read_ok :
    {P : Type 0} (files : Files) (c : ℕ) (p : Property) (t k : CpuTopology) (n : ℕ)
    → read files c p t ≡ (ok n, k)
    → (files.uint_file c p ≡ some n → k ≡ t → P)
    → P
read_ok files c p t k n e h =
    h (from (files.uint_file c p) (ap (λ r. r.0) e)) (sym (ap (λ r. r.1) e))
  where
    from : (o : Option ℕ) → or_unreadable o ≡ ok n → o ≡ some n
    from none f = absurd (cc)
    from (some m) f = cc

-- New CPU objects change the types only.
new_cpu-frame :
    (files : Files) (s d co c : ℕ) (t : CpuTopology)
    → let k = (new_cpu files s d co c t).1 in
      k ≡ record t { core_type = k.core_type; core_types = k.core_types }
unfolding new_cpu
new_cpu-frame files s d co c t = ground arith

-- Where the files of a CPU place it.
pub record Place (files : Files) (c s d co : ℕ) : Type 0 where
  pub property : Property
  pub in_package : files.uint_file c package_id ≡ some s
  pub grouping : group_property files.architecture ≡ ok property
  pub in_group : files.uint_file c property ≡ some d
  pub in_core : files.uint_file c core_id ≡ some co

-- The lists after one CPU was put at a place.
pub record Added (c s d co : ℕ) (t k : CpuTopology) : Type 0 where
  pub core_cpus_put : k.core_cpus ≡ at3 t.core_cpus s d co (t.core_cpus s d co ++ c ∷ [])
  pub group_cpus_put : k.group_cpus ≡ at2 t.group_cpus s d (t.group_cpus s d ++ c ∷ [])
  pub package_cpus_put : k.package_cpus ≡ at1 t.package_cpus s (t.package_cpus s ++ c ∷ [])
  pub all_cpus_put : k.all_cpus ≡ set t.all_cpus c (some c)

core_add_cpu_ok :
    (files : Files) (s d co c : ℕ) (t k : CpuTopology)
    → core_add_cpu files s d co c t ≡ (ok tt, k)
    → (k.core_cpus ≡ at3 t.core_cpus s d co (t.core_cpus s d co ++ c ∷ []))
      × (k.group_cpus ≡ t.group_cpus)
      × (k.package_cpus ≡ t.package_cpus)
      × (k.all_cpus ≡ t.all_cpus)
unfolding core_add_cpu
core_add_cpu_ok files s d co c t k e =
    bind_ok (new_cpu files s d co c) _ t e λ u m f g. ground (arith, new_cpu-frame files s d co c t)

group_add_cpu_ok :
    (files : Files) (s d c : ℕ) (t k : CpuTopology)
    → group_add_cpu files s d c t ≡ (ok tt, k)
    → (co : ℕ) × (files.uint_file c core_id ≡ some co)
      × (k.core_cpus ≡ at3 t.core_cpus s d co (t.core_cpus s d co ++ c ∷ []))
      × (k.group_cpus ≡ at2 t.group_cpus s d (t.group_cpus s d ++ c ∷ []))
      × (k.package_cpus ≡ t.package_cpus)
      × (k.all_cpus ≡ t.all_cpus)
unfolding group_add_cpu
group_add_cpu_ok files s d c t k e = bind_ok (read files c core_id) _ t e λ co t5 e5 h5.
    read_ok files c core_id t t5 co e5 λ r q.
      bind_ok (core_add_cpu files s d co c) _ _ h5 λ u t6 e6 h6.
        let w = core_add_cpu_ok files s d co c _ t6 e6 in
        (
          co,
          r,
          ground (arith, w, q, h6),
          ground (arith, w, q, h6),
          ground (arith, w, q, h6),
          ground (arith, w, q, h6),
        )

package_add_cpu_ok :
    (files : Files) (s c : ℕ) (t k : CpuTopology)
    → package_add_cpu files s c t ≡ (ok tt, k)
    → (d co : ℕ) × (p : Property) × (group_property files.architecture ≡ ok p)
      × (files.uint_file c p ≡ some d)
      × (files.uint_file c core_id ≡ some co)
      × (k.core_cpus ≡ at3 t.core_cpus s d co (t.core_cpus s d co ++ c ∷ []))
      × (k.group_cpus ≡ at2 t.group_cpus s d (t.group_cpus s d ++ c ∷ []))
      × (k.package_cpus ≡ at1 t.package_cpus s (t.package_cpus s ++ c ∷ []))
      × (k.all_cpus ≡ t.all_cpus)
unfolding package_add_cpu
package_add_cpu_ok files s c t k e =
    bind_ok (lift (group_property files.architecture)) _ t e λ p t2 e2 h2.
      bind_ok (read files c p) _ t2 h2 λ d t3 e3 h3. read_ok files c p t2 t3 d e3 λ r q.
        bind_ok (group_add_cpu files s d c) _ _ h3 λ u t4 e4 h4.
          let w = group_add_cpu_ok files s d c _ t4 e4 in
          let z = q ∙ sym (ap (λ x. x.1) e2) in
          (
            d,
            w.0,
            p,
            ap (λ x. x.0) e2,
            r,
            w.1,
            ground (arith, w.2, z, h4),
            ground (arith, w.3, z, h4),
            ground (arith, w.4, z, h4),
            ground (arith, w.5, z, h4),
          )

add_cpu_ok :
    (files : Files) (c : ℕ) (t k : CpuTopology)
    → add_cpu files c t ≡ (ok tt, k)
    → (s d co : ℕ) × Place files c s d co × Added c s d co t k
unfolding add_cpu
add_cpu_ok files c t k e = bind_ok (read files c package_id) _ t e λ s t0 e0 h0.
    read_ok files c package_id t t0 s e0 λ r q.
      bind_ok (package_add_cpu files s c) _ _ h0 λ u t1 e1 h1.
        let w = package_add_cpu_ok files s c _ t1 e1 in
        (
          s,
          w.0,
          w.1,
          record { property = w.2; in_package = r; grouping = w.3; in_group = w.4; in_core = w.5 },
          record {
            core_cpus_put = ground (arith, w.6, q, h1);
            group_cpus_put = ground (arith, w.7, q, h1);
            package_cpus_put = ground (arith, w.8, q, h1);
            all_cpus_put = ground (arith, w.9, q, h1);
          },
        )

abbrev pub is_id : ℕ → Option ℕ → Bool
is_id n none = false
is_id n (some m) = m == n

abbrev pub group_file : Files → Result Property → ℕ → Option ℕ
group_file files (ok p) x = files.uint_file x p
group_file files _ x = none

-- Whether a CPU's files name the package, the group in it and the core in that.
abbrev pub in_package : Files → ℕ → ℕ → Bool
in_package files s x = is_id s (files.uint_file x package_id)

abbrev pub in_group : Files → ℕ → ℕ → ℕ → Bool
in_group files s d x =
    in_package files s x && is_id d (group_file files (group_property files.architecture) x)

abbrev pub in_core : Files → ℕ → ℕ → ℕ → ℕ → Bool
in_core files s d co x = in_group files s d x && is_id co (files.uint_file x core_id)

-- How often a CPU is listed at each level, against how often it was.
pub record Grown (files : Files) (x n s d co : ℕ) (t k : CpuTopology) : Type 0 where
  pub packaged :
      count x (k.package_cpus s)
      ≡ count x (t.package_cpus s) + (if in_package files s x then n else 0)
  pub grouped :
      count x (k.group_cpus s d)
      ≡ count x (t.group_cpus s d) + (if in_group files s d x then n else 0)
  pub cored :
      count x (k.core_cpus s d co)
      ≡ count x (t.core_cpus s d co) + (if in_core files s d co x then n else 0)

Grown-trans :
    (files : Files) (x m n s d co : ℕ) (t k l : CpuTopology)
    → Grown files x m s d co t k
    → Grown files x n s d co k l
    → Grown files x (m + n) s d co t l
Grown-trans files x m n s d co t k l a b = record {
  packaged = ground (arith, a.packaged, b.packaged);
  grouped = ground (arith, a.grouped, b.grouped);
  cored = ground (arith, a.cored, b.cored);
}

Place-tests :
    (files : Files) (c s d co q e l : ℕ)
    → Place files c s d co
    → (in_package files q c ≡ (s == q))
      × (in_group files q e c ≡ (s == q && d == e))
      × (in_core files q e l c ≡ (s == q && d == e && co == l))
Place-tests files c s d co q e l p = (
  rw p.in_package refl,
  rw (p.in_package, p.grouping, p.in_group) refl,
  rw (p.in_package, p.grouping, p.in_group, p.in_core) refl,
)

abbrev one_if : Bool → ℕ → ℕ → ℕ
one_if b c x = if b then (if c == x then 1 else 0) else 0

-- A list of CPUs with one more CPU in it, if a test passes.
count-put :
    (x c : ℕ) (b : Bool) (l m : List ℕ)
    → m ≡ (if b then l ++ c ∷ [] else l)
    → count x m ≡ count x l + one_if b c x
count-put x c true l m e = ap (count x) e ∙ ground (arith, count-append x l (c ∷ []))
count-put x c false l m e = ground (arith, ap (count x) e)

put1 :
    (t k : ℕ → List ℕ) (s q c : ℕ)
    → k ≡ at1 t s (t s ++ c ∷ [])
    → k q ≡ (if s == q then t q ++ c ∷ [] else t q)
put1 t k s q c h = ap (λ f. f q) h ∙ ground arith

put2 :
    (t k : ℕ → ℕ → List ℕ) (s d q e c : ℕ)
    → k ≡ at2 t s d (t s d ++ c ∷ [])
    → k q e ≡ (if s == q && d == e then t q e ++ c ∷ [] else t q e)
put2 t k s d q e c h = ap (λ f. f q e) h ∙ ground arith

put3 :
    (t k : ℕ → ℕ → ℕ → List ℕ) (s d co q e l c : ℕ)
    → k ≡ at3 t s d co (t s d co ++ c ∷ [])
    → k q e l ≡ (if s == q && d == e && co == l then t q e l ++ c ∷ [] else t q e l)
put3 t k s d co q e l c h = ap (λ f. f q e l) h ∙ ground arith

-- The tests that decide are the CPU's own.
own_test : (f : ℕ → Bool) (c x : ℕ) (b : Bool) → f c ≡ b → one_if b c x ≡ one_if (f x) c x
own_test f c x b e = elim (Bool-cases (c == x)) [
  | inl h ↦ let same : c ≡ x = ground arith in ground (arith, ap f same, e)
  | inr h ↦ ground arith
]

-- One more listing of the CPU that was added, at its place.
Added-Grown :
    (files : Files) (c x s d co q e l : ℕ) (t k : CpuTopology)
    → Place files c s d co
    → Added c s d co t k
    → Grown files x (if c == x then 1 else 0) q e l t k
Added-Grown files c x s d co q e l t k p a =
    let tests = Place-tests files c s d co q e l p in
    record {
      packaged =
          count-put x c _ _ _ (put1 t.package_cpus k.package_cpus s q c a.package_cpus_put)
          ∙ ap (λ n. count x (t.package_cpus q) + n) (own_test (in_package files q) c x _ tests.0);
      grouped =
          count-put x c _ _ _ (put2 t.group_cpus k.group_cpus s d q e c a.group_cpus_put)
          ∙ ap (λ n. count x (t.group_cpus q e) + n) (own_test (in_group files q e) c x _ tests.1);
      cored =
          count-put x c _ _ _ (put3 t.core_cpus k.core_cpus s d co q e l c a.core_cpus_put)
          ∙ ap (λ n. count x (t.core_cpus q e l) + n)
              (own_test (in_core files q e l) c x _ tests.2);
    }

Grown-refl : (files : Files) (x s d co : ℕ) (t : CpuTopology) → Grown files x 0 s d co t t
Grown-refl files x s d co t = record {
  packaged = ground arith;
  grouped = ground arith;
  cored = ground arith;
}

add_cpus-Grown :
    (files : Files) (cs : List ℕ) (x s d co : ℕ) (t k : CpuTopology)
    → add_cpus files cs t ≡ (ok tt, k)
    → Grown files x (count x cs) s d co t k
unfolding add_cpus
add_cpus-Grown files [] x s d co t k h =
    subst (Grown files x 0 s d co t) (ap (λ r. r.1) h) (Grown-refl files x s d co t)
add_cpus-Grown files (c ∷ cs) x s d co t k h = bind_ok (add_cpu files c) _ t h λ u m e g.
    let (q, a, b, p, w) = add_cpu_ok files c t m e in
    Grown-trans files x (if c == x then 1 else 0) (count x cs) s d co t m k
      (Added-Grown files c x q a b s d co t m p w) (add_cpus-Grown files cs x s d co m k g)

-- A discovery that succeeds lists each CPU in the package that its files name, in the die or cluster of
-- that package that they name, and in the core of that, as often as it was discovered, and nowhere
-- else.
pub discover_topology_partition :
    (files : Files) (cpus : List ℕ) (x s d co : ℕ) (t k : CpuTopology)
    → discover_topology files cpus t ≡ (ok tt, k)
    → (count x (k.package_cpus s) ≡ (if in_package files s x then count x cpus else 0))
      × (count x (k.group_cpus s d) ≡ (if in_group files s d x then count x cpus else 0))
      × (count x (k.core_cpus s d co) ≡ (if in_core files s d co x then count x cpus else 0))
unfolding discover_topology
discover_topology_partition files cpus x s d co t k h =
    let g = add_cpus-Grown files cpus x s d co _ k h in
    (g.packaged ∙ omega arith, g.grouped ∙ omega arith, g.cored ∙ omega arith)
