-- ===== src/Topology/Hwloc/Tests.antt =====
-- A package of two CPUs with one memory node, from the second exporter.
use cluster_performance_engi.Base.{
  ℕ, ◌≡◌, refl, List, [], ◌∷◌, some, none, Result, ok, err, if◌then◌else◌,
}
use cluster_performance_engi.Base.Int.{pos}
use cluster_performance_engi.Base.Text.{Bytes, codes, eqb}
use cluster_performance_engi.Base.Sort.{sort, insert}
use cluster_performance_engi.Topology.Snapshot.{Topology}
use cluster_performance_engi.Topology.Located.{IsLocated}
use cluster_performance_engi.Topology.Placement.Members.{IsConsistent}
use cluster_performance_engi.Topology.Hwloc.{
  XmlObj, xml_obj, XmlObjs, no_objs, obj_and, discover_cli, enter, append_pu,
}
use cluster_performance_engi.Topology.Hwloc.Members.{discover_cli-IsConsistent}

abbrev pu : ℕ → XmlObj
pu n = xml_obj (codes "PU") (some (pos n)) no_objs

abbrev tree : XmlObjs
tree =
    obj_and
      (xml_obj (codes "Package") (some (pos 0)) (
        obj_and
          (xml_obj (codes "NUMANode") (some (pos 0)) (
            obj_and (xml_obj (codes "Core") none (obj_and (pu 1) (obj_and (pu 0) no_objs)))
              no_objs))
          no_objs))
      no_objs

abbrev output : List Bytes → Result ℕ Bytes
output [] = err 1
output (name ∷ argv) = if eqb name (codes "lstopo-no-graphics") then ok [] else err 2

abbrev machine : Topology
machine = record {
  cpus =
      record {
        id = pos 0;
        package_id = pos 0;
        core_id = pos 0;
        numa_node = pos 0;
        siblings = pos 0 ∷ [];
      }
      ∷ record {
        id = pos 1;
        package_id = pos 0;
        core_id = pos 0;
        numa_node = pos 0;
        siblings = pos 1 ∷ [];
      }
      ∷ [];
  numa_nodes = record { id = pos 0; cpus = pos 0 ∷ pos 1 ∷ []; distance = [] } ∷ [];
}

machine_found : discover_cli (λ s. s) (λ s. ok tree) (λ m. m) output ≡ ok machine
unfolding discover_cli enter sort insert append_pu
machine_found = refl

discover_cli-IsConsistent_example : IsConsistent machine × IsLocated machine
discover_cli-IsConsistent_example =
    discover_cli-IsConsistent (λ m. m) (λ m e. (λ h. h, λ h. h)) (λ s. s) (λ s. ok tree) output
      machine machine_found
