-- ===== src/Topology/Report/Tests.antt =====
-- The report of a machine with one CPU.
use cluster_performance_engi.Base.Parts.{join}
use cluster_performance_engi.Topology.CpuList.{uniq}
use cluster_performance_engi.Base.Sort.{sort, insert}
use cluster_performance_engi.Base.Decimal.{itoa}
use cluster_performance_engi.Base.{◌≡◌, refl, [], ◌∷◌, ◌++◌}
use cluster_performance_engi.Base.Int.{pos, negsuc}
use cluster_performance_engi.Base.Text.{codes}
use cluster_performance_engi.Topology.Snapshot.{Topology, package_ids}
use cluster_performance_engi.Topology.Report.{
  em_dash, branch, bar, arrow, format_ascii, spaces, cores_on_core,
}

abbrev machine : Topology
machine = record {
  cpus =
      record {
        id = pos 3;
        package_id = pos 0;
        core_id = pos 12;
        numa_node = negsuc 4;
        siblings = [];
      }
      ∷ [];
  numa_nodes = [];
}

report :
    format_ascii machine
    ≡ codes "NexusFlow "
      ++ em_dash
      ++ codes " NUMA-aware topology\nLogical CPUs: 1\n\nSocket / package 0\n  "
      ++ branch
      ++ codes " unknown NUMA\n  "
      ++ bar
      ++ codes "     Core 12   "
      ++ arrow
      ++ codes " CPUs [3]\n\n"
unfolding format_ascii itoa package_ids sort uniq insert spaces join cores_on_core
report = refl
