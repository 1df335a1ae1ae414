-- ===== src/Power/Topology.antt =====
-- The discovery of packages, dies or clusters, cores and CPUs (internal/power/topology.go, and newCPU and
-- appendIfUnique of cpu.go and p_states.go). An object of the tree is named by the ids on the way to it,
-- and its fields are functions of these. An architecture uses dies or clusters, never both, so one
-- family of groups stands for both.
-- The proofs stand in the child module.
pub mod Partition
use cluster_power_manager.Base.{
  ℕ, ◌+◌, ◌==◌, ◌&&◌, Bool, List, [], ◌∷◌, ◌++◌, map, Option, none, some, String, str_eq,
  if◌then◌else◌, contains, length, set, index_where,
}
use cluster_power_manager.Power.Sysfs.{
  unreadable, bad_architecture, Result, ok, err, Action, pure, lift, ◌>>=◌, ◌>>◌,
}
use cluster_power_manager.Power.PStates.{FreqSet}

-- The numeric files of a CPU that the discovery reads.
pub data Property : Type 0 where
  package_id die_id cluster_id core_id max_freq min_freq : Property

-- `uint_file` is `readCPUUintProperty`: a number, or an error.
pub record Files : Type 0 where
  pub freq_scaling : Bool
  pub architecture : String
  pub uint_file : ℕ → Property → Option ℕ

pub record CpuTopology : Type 0 where
  pub packages : List ℕ
  pub groups : ℕ → List ℕ
  pub cores : ℕ → ℕ → List ℕ
  pub package_cpus : ℕ → List ℕ
  pub group_cpus : ℕ → ℕ → List ℕ
  pub core_cpus : ℕ → ℕ → ℕ → List ℕ
  pub core_type : ℕ → ℕ → ℕ → ℕ
  pub all_cpus : List (Option ℕ)
  pub core_types : List FreqSet

abbrev pub at1 {ℓ} : {A : Type ℓ} → (ℕ → A) → ℕ → A → ℕ → A
at1 f a v x = if a == x then v else f x

abbrev pub at2 {ℓ} : {A : Type ℓ} → (ℕ → ℕ → A) → ℕ → ℕ → A → ℕ → ℕ → A
at2 f a b v x y = if a == x && b == y then v else f x y

abbrev pub at3 {ℓ} : {A : Type ℓ} → (ℕ → ℕ → ℕ → A) → ℕ → ℕ → ℕ → A → ℕ → ℕ → ℕ → A
at3 f a b c v x y z = if a == x && b == y && c == z then v else f x y z

abbrev pub or_unreadable : Option ℕ → Result ℕ
or_unreadable none = err unreadable
or_unreadable (some n) = ok n

abbrev pub read : Files → ℕ → Property → Action CpuTopology ℕ
read files cpu p = lift (or_unreadable (files.uint_file cpu p))

abbrev pub type_index : FreqSet → List FreqSet → Option ℕ
type_index f = index_where λ t. t.min == f.min && t.max == f.max

-- `appendIfUnique`: the index of the type, and the list that has it.
abbrev pub or_appended : FreqSet → List FreqSet → Option ℕ → ℕ × List FreqSet
or_appended f types none = (length types, types ++ f ∷ [])
or_appended f types (some i) = (i, types)

unfoldable pub append_if_unique : FreqSet → List FreqSet → ℕ × List FreqSet
append_if_unique f types = or_appended f types (type_index f types)

abbrev pub set_type : ℕ → ℕ → ℕ → FreqSet → Action CpuTopology (Unit {0})
set_type s d co f t =
    let r = append_if_unique f t.core_types in
    (ok tt, record t { core_type = at3 t.core_type s d co r.0; core_types = r.1 })

unfoldable pub new_cpu : Files → ℕ → ℕ → ℕ → ℕ → Action CpuTopology (Unit {0})
new_cpu files s d co cpu =
    if files.freq_scaling
    then (read files cpu max_freq >>= λ mx.
        read files cpu min_freq >>= λ mn. set_type s d co (record { min = mn; max = mx }))
    else pure tt

abbrev pub push_core : ℕ → ℕ → ℕ → ℕ → Action CpuTopology (Unit {0})
push_core s d co cpu t =
    (ok tt, record t { core_cpus = at3 t.core_cpus s d co (t.core_cpus s d co ++ cpu ∷ []) })

abbrev pub push_group : ℕ → ℕ → ℕ → Action CpuTopology (Unit {0})
push_group s d cpu t =
    (ok tt, record t { group_cpus = at2 t.group_cpus s d (t.group_cpus s d ++ cpu ∷ []) })

abbrev pub push_package : ℕ → ℕ → Action CpuTopology (Unit {0})
push_package s cpu t =
    (ok tt, record t { package_cpus = at1 t.package_cpus s (t.package_cpus s ++ cpu ∷ []) })

-- An entry of a map that is missing is made. An object has no CPUs and no entries before it is made.
abbrev pub ensure : ℕ → List ℕ → List ℕ
ensure k keys = if contains k keys then keys else keys ++ k ∷ []

abbrev pub ensure_package : ℕ → Action CpuTopology (Unit {0})
ensure_package s t = (ok tt, record t { packages = ensure s t.packages })

abbrev pub ensure_group : ℕ → ℕ → Action CpuTopology (Unit {0})
ensure_group s d t = (ok tt, record t { groups = at1 t.groups s (ensure d (t.groups s)) })

abbrev pub ensure_core : ℕ → ℕ → ℕ → Action CpuTopology (Unit {0})
ensure_core s d co t = (ok tt, record t { cores = at2 t.cores s d (ensure co (t.cores s d)) })

-- `addCPU` of a core, of a die or cluster, of a package and of the topology.
unfoldable pub core_add_cpu : Files → ℕ → ℕ → ℕ → ℕ → Action CpuTopology (Unit {0})
core_add_cpu files s d co cpu = new_cpu files s d co cpu >> push_core s d co cpu

unfoldable pub group_add_cpu : Files → ℕ → ℕ → ℕ → Action CpuTopology (Unit {0})
group_add_cpu files s d cpu = read files cpu core_id >>= λ co.
    ensure_core s d co >> core_add_cpu files s d co cpu >> push_group s d cpu

abbrev pub group_property : String → Result Property
group_property architecture =
    if str_eq architecture "x86_64"
    then ok die_id
    else if str_eq architecture "aarch64"
    then ok cluster_id
    else err bad_architecture

unfoldable pub package_add_cpu : Files → ℕ → ℕ → Action CpuTopology (Unit {0})
package_add_cpu files s cpu = lift (group_property files.architecture) >>= λ p.
    read files cpu p >>= λ d. ensure_group s d >> group_add_cpu files s d cpu >> push_package s cpu

abbrev pub store_cpu : ℕ → Action CpuTopology (Unit {0})
store_cpu cpu t = (ok tt, record t { all_cpus = set t.all_cpus cpu (some cpu) })

unfoldable pub add_cpu : Files → ℕ → Action CpuTopology (Unit {0})
add_cpu files cpu = read files cpu package_id >>= λ s.
    ensure_package s >> package_add_cpu files s cpu >> store_cpu cpu

-- `discoverTopology`'s loop, over the CPUs below the number of CPUs.
unfoldable pub add_cpus : Files → List ℕ → Action CpuTopology (Unit {0})
add_cpus files [] = pure tt
add_cpus files (c ∷ cs) = add_cpu files c >> add_cpus files cs

-- The topology before any CPU: no package, and a slot for each CPU.
abbrev pub slots : List ℕ → List (Option ℕ)
slots [] = []
slots (c ∷ cs) = none ∷ slots cs

unfoldable pub discover_topology : Files → List ℕ → Action CpuTopology (Unit {0})
discover_topology files cpus t = add_cpus files cpus (record {
  packages = [];
  groups = λ s. [];
  cores = λ s d. [];
  package_cpus = λ s. [];
  group_cpus = λ s d. [];
  core_cpus = λ s d co. [];
  core_type = λ s d co. 0;
  all_cpus = slots cpus;
  core_types = t.core_types;
})
