-- ===== src/Topology/Hints/Tests.antt =====
-- A machine of two sockets, and a name with a quote in it.
use cluster_performance_engi.Topology.Hints.Cores.{IsCores}
use cluster_performance_engi.Base.{ℕ, ◌≡◌, refl, [], ◌∷◌, length, some, map, arith, All, List}
use cluster_performance_engi.Base.Int.{pos}
use cluster_performance_engi.Base.Text.{Bytes, codes}
use cluster_performance_engi.Topology.Snapshot.{Cpu, Topology}
use cluster_performance_engi.Topology.Hints.{ClusterHints, build_cluster_hints, core_keys, CoreKey}
use cluster_performance_engi.Topology.Hints.Sums.{sum, build_cluster_hints-sockets, occurs}
use cluster_performance_engi.Topology.Hints.Shell.{write_hints_shell, hints_exports}
use cluster_performance_engi.Topology.Hints.Reader.{
  read_script, variable, read_script-write_hints_shell,
}

abbrev cpu : ℕ → ℕ → ℕ → Cpu
cpu i pkg core = record {
  id = pos i;
  package_id = pos pkg;
  core_id = pos core;
  numa_node = pos 0;
  siblings = [];
}

abbrev machine : Topology
machine = record { cpus = cpu 0 0 0 ∷ cpu 1 0 0 ∷ cpu 2 1 0 ∷ []; numa_nodes = [] }

abbrev source : Bytes
source = codes "bob's"

abbrev hints : ClusterHints
hints = build_cluster_hints (some machine) source

build_cluster_hints-sockets_example :
    All
      (λ p. occurs p (map (λ s. s.package_id) hints.sockets) ≡ 1)
      (map (λ c. c.package_id) machine.cpus)
    × (sum (map (λ s. s.logical_cpus) hints.sockets) ≡ length machine.cpus)
    × ((keys : List CoreKey) × IsCores machine.cpus keys
        × (hints.physical_cores_total ≡ length keys)
        × (sum (map (λ s. s.physical_cores) hints.sockets) ≡ length keys))
build_cluster_hints-sockets_example = build_cluster_hints-sockets machine source

read_script-write_hints_shell_example :
    read_script 14 (write_hints_shell (some hints)) ≡ some (map variable (hints_exports hints))
read_script-write_hints_shell_example = read_script-write_hints_shell (some hints) 14 (omega arith)

cores : hints.physical_cores_total ≡ 2
unfolding build_cluster_hints core_keys
cores = refl
