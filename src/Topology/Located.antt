-- ===== src/Topology/Located.antt =====
-- The link between the CPUs and the memory nodes of a snapshot, however it was found.
use cluster_performance_engi.Base.{◌≡◌, false, ◌⊎◌, All, In, List}
use cluster_performance_engi.Base.Int.{ℤ, pos, leb_ℤ}
use cluster_performance_engi.Topology.Snapshot.{NumaNode, Topology}

-- A node with the id lists the CPU.
abbrev pub Lists : List NumaNode → ℤ → ℤ → Type 0
Lists nodes node_id cpu_id = (n : NumaNode) × In n nodes × (n.id ≡ node_id) × In cpu_id n.cpus

-- A CPU's node is unknown, that is negative, or a node of the snapshot that lists the CPU.
abbrev pub IsLocated : Topology → Type 0
IsLocated t =
    All (λ c. (leb_ℤ (pos 0) c.numa_node ≡ false) ⊎ Lists t.numa_nodes c.numa_node c.id) t.cpus
