-- ===== src/Topology/Discover/Tests.antt =====
-- A machine of one memory node with two CPUs.
use cluster_performance_engi.Base.Files.{Entry}
use cluster_performance_engi.Base.Sort.{sort, insert}
use cluster_performance_engi.Base.Decimal.{atoi}
use cluster_performance_engi.Base.Parts.{split, cut}
use cluster_performance_engi.Topology.CpuList.{parse_cpu_list, count_up}
use cluster_performance_engi.Base.{
  ℕ, ◌≡◌, refl, List, [], ◌∷◌, Result, ok, err, if◌then◌else◌, true, false,
}
use cluster_performance_engi.Base.Int.{pos, inc}
use cluster_performance_engi.Base.Text.{Bytes, codes, eqb, trim_space, fields_from}
use cluster_performance_engi.Topology.Snapshot.{Topology}
use cluster_performance_engi.Topology.Discover.{
  present_path, sysfs_node, join_path, discover, node_entry, set_node,
}

abbrev node0 : Bytes
node0 = join_path sysfs_node (codes "node0")

abbrev files : Bytes → Result ℕ Bytes
files path =
    if eqb path present_path
    then ok (codes "0-1\n")
    else if eqb path (join_path node0 (codes "cpulist"))
    then ok (codes "0-1\n")
    else if eqb path (join_path node0 (codes "distance"))
    then ok (codes "10 21\n")
    else err 2

abbrev dirs : List Entry
dirs =
    record { name = codes "node0"; is_dir = true }
    ∷ record { name = codes "possible"; is_dir = false }
    ∷ []

abbrev machine : Topology
machine = record {
  cpus =
      record {
        id = pos 0;
        package_id = pos 0;
        core_id = pos 0;
        numa_node = pos 0;
        siblings = pos 0 ∷ [];
      }
      ∷ record {
        id = pos 1;
        package_id = pos 0;
        core_id = pos 1;
        numa_node = pos 0;
        siblings = pos 1 ∷ [];
      }
      ∷ [];
  numa_nodes =
      record { id = pos 0; cpus = pos 0 ∷ pos 1 ∷ []; distance = pos 10 ∷ pos 21 ∷ [] } ∷ [];
}

machine_found : discover 4 files (λ m. m) (ok dirs) ≡ ok machine
unfolding discover parse_cpu_list trim_space split cut atoi count_up inc node_entry sort set_node
    insert fields_from
machine_found = refl
