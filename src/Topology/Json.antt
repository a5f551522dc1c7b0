-- ===== src/Topology/Json.antt =====
-- nexusflow/pkg/topology/json.go: the shape of a snapshot that is exported as JSON. `encoding/json`
-- is a parameter.
mod Tests
use cluster_performance_engi.Base.{
  ◌≡◌, refl, ◌∙◌, ap, Bool, true, false, ◌&&◌, List, [], ◌∷◌, map, Option, none, some, Result, ok,
  err, is_nil, arith, if◌then◌else◌,
}
use cluster_performance_engi.Base.Int.{ℤ}
use cluster_performance_engi.Base.Text.{Bytes}
use cluster_performance_engi.Topology.Snapshot.{Cpu, NumaNode, Topology}

pub record SnapshotCpu : Type 0 where
  pub id : ℤ
  pub package_id : ℤ
  pub core : ℤ
  pub numa_node : ℤ
  pub thread_siblings : List ℤ

pub record SnapshotNuma : Type 0 where
  pub id : ℤ
  pub cpus : List ℤ
  pub distance : List ℤ

pub record Snapshot : Type 0 where
  pub cpus : List SnapshotCpu
  pub numa_nodes : List SnapshotNuma
  pub source : Bytes

abbrev pub to_snapshot_cpu : Cpu → SnapshotCpu
to_snapshot_cpu c = record {
  id = c.id;
  package_id = c.package_id;
  core = c.core_id;
  numa_node = c.numa_node;
  thread_siblings = c.siblings;
}

abbrev pub to_snapshot_numa : NumaNode → SnapshotNuma
to_snapshot_numa n = record { id = n.id; cpus = n.cpus; distance = n.distance }

unfoldable pub to_snapshot : Option Topology → Bytes → Option Snapshot
to_snapshot none source = none
to_snapshot (some t) source = some (record {
  cpus = map to_snapshot_cpu t.cpus;
  numa_nodes = map to_snapshot_numa t.numa_nodes;
  source = source;
})

pub data JsonError (E : Type 0) : Type 0 where
  invalid_json : E → JsonError E
  empty_snapshot : JsonError E

abbrev pub of_snapshot_cpu : SnapshotCpu → Cpu
of_snapshot_cpu c = record {
  id = c.id;
  package_id = c.package_id;
  core_id = c.core;
  numa_node = c.numa_node;
  siblings = c.thread_siblings;
}

abbrev pub of_snapshot_numa : SnapshotNuma → NumaNode
of_snapshot_numa n = record { id = n.id; cpus = n.cpus; distance = n.distance }

-- `UnmarshalTopologyJSON` behind the call of `json.Unmarshal`.
unfoldable pub of_snapshot : {E : Type 0} → Snapshot → Result (JsonError E) Topology
of_snapshot snap =
    if is_nil snap.cpus && is_nil snap.numa_nodes
    then err empty_snapshot
    else ok (record {
      cpus = map of_snapshot_cpu snap.cpus;
      numa_nodes = map of_snapshot_numa snap.numa_nodes;
    })

module _ {E : Type 0} (marshal : Option Snapshot → Result E Bytes)
    (unmarshal : Bytes → Result E Snapshot) where
  abbrev pub marshal_topology_json : Option Topology → Bytes → Result E Bytes
  marshal_topology_json t source = marshal (to_snapshot t source)

  abbrev pub decoded : Result E Snapshot → Result (JsonError E) Topology
  decoded (err e) = err (invalid_json e)
  decoded (ok snap) = of_snapshot snap

  unfoldable pub unmarshal_topology_json : Bytes → Result (JsonError E) Topology
  unfolding of_snapshot
  unmarshal_topology_json data_bytes = decoded (unmarshal data_bytes)
