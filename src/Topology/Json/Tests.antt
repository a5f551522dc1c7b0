-- ===== src/Topology/Json/Tests.antt =====
-- Runs of the import of a snapshot.
use cluster_performance_engi.Base.{◌≡◌, refl, [], ◌∷◌, some, Result, ok, err}
use cluster_performance_engi.Base.Int.{pos}
use cluster_performance_engi.Base.Text.{Bytes, codes}
use cluster_performance_engi.Topology.Snapshot.{Topology}
use cluster_performance_engi.Topology.Json.{
  Snapshot, JsonError, invalid_json, empty_snapshot, to_snapshot, unmarshal_topology_json,
}

abbrev machine : Topology
machine = record {
  cpus =
      record {
        id = pos 0;
        package_id = pos 1;
        core_id = pos 2;
        numa_node = pos 3;
        siblings = pos 0 ∷ [];
      }
      ∷ [];
  numa_nodes = record { id = pos 3; cpus = pos 0 ∷ []; distance = pos 10 ∷ [] } ∷ [];
}

abbrev exported : Snapshot
exported = record {
  cpus =
      record {
        id = pos 0;
        package_id = pos 1;
        core = pos 2;
        numa_node = pos 3;
        thread_siblings = pos 0 ∷ [];
      }
      ∷ [];
  numa_nodes = record { id = pos 3; cpus = pos 0 ∷ []; distance = pos 10 ∷ [] } ∷ [];
  source = codes "sysfs";
}

to_snapshot-machine : to_snapshot (some machine) (codes "sysfs") ≡ some exported
unfolding to_snapshot
to_snapshot-machine = refl

-- A decoder that knows two texts.
abbrev decode : Bytes → Result Bytes Snapshot
decode [] = err (codes "unexpected end of JSON input")
decode (c ∷ []) = ok (record { cpus = []; numa_nodes = []; source = [] })
decode (c ∷ d ∷ b) = ok exported

abbrev import_topology : Bytes → Result (JsonError Bytes) Topology
import_topology = unmarshal_topology_json (λ s. err []) decode

import_runs :
    (import_topology [] ≡ err (invalid_json (codes "unexpected end of JSON input")))
    × (import_topology (codes "0") ≡ err empty_snapshot)
    × (import_topology (codes "{}") ≡ ok machine)
unfolding unmarshal_topology_json
import_runs = (refl, refl, refl)
