-- ===== src/Topology.antt =====
-- nexusflow/pkg/topology: the snapshot of the machine (types.go), the text of CPU lists
-- (cpulist.go), the choice of CPUs (placement.go) and the JSON shape (json.go); and nexusflow/pkg/affinity/cpuset.go, which
-- writes the same text a second way.
pub mod CpuList
pub mod Snapshot
pub mod Placement
pub mod Json
pub mod Hints
pub mod Report
pub mod Hwloc
pub mod Discover
pub mod Located
