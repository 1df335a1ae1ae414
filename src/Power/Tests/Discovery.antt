-- ===== src/Power/Tests/Discovery.antt =====
-- A run of the discovery on two packages of two CPUs.
use cluster_power_manager.Base.{
  ℕ, ◌≡◌, refl, ◌%◌, ◌/◌, true, List, [], ◌∷◌, Option, some, count, if◌then◌else◌,
}
use cluster_power_manager.Power.Topology.{
  Property, package_id, Files, CpuTopology, new_cpu, append_if_unique, core_add_cpu, group_add_cpu,
  package_add_cpu, add_cpu, add_cpus, discover_topology,
}
use cluster_power_manager.Power.Topology.Partition.{
  in_package, in_group, in_core, discover_topology_partition,
}

abbrev number_file : ℕ → Property → Option ℕ
number_file c package_id = some (c / 2)
number_file c _ = some (c % 2)

abbrev files : Files
files = record { freq_scaling = true; architecture = "x86_64"; uint_file = number_file }

abbrev cpus : List ℕ
cpus = 0 ∷ 1 ∷ 2 ∷ 3 ∷ []

abbrev before : CpuTopology
before = record {
  packages = [];
  groups = λ s. [];
  cores = λ s d. [];
  package_cpus = λ s. [];
  group_cpus = λ s d. [];
  core_cpus = λ s d co. [];
  core_type = λ s d co. 0;
  all_cpus = [];
  core_types = [];
}

abbrev found : CpuTopology
found = (discover_topology files cpus before).1

discover_topology_partition_example :
    (count 3 (found.package_cpus 1) ≡ (if in_package files 1 3 then count 3 cpus else 0))
    × (count 3 (found.group_cpus 1 1) ≡ (if in_group files 1 1 3 then count 3 cpus else 0))
    × (count 3 (found.core_cpus 1 1 1) ≡ (if in_core files 1 1 1 3 then count 3 cpus else 0))
unfolding discover_topology add_cpus add_cpu package_add_cpu group_add_cpu core_add_cpu new_cpu
    append_if_unique
discover_topology_partition_example =
    discover_topology_partition files cpus 3 1 1 1 before found refl
