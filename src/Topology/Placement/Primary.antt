-- ===== src/Topology/Placement/Primary.antt =====
-- What `PrimaryNUMANodeForCPUs` promises.
use cluster_performance_engi.Base.{
  ℕ, suc, ◌≡◌, true, List, [], ◌∷◌, Option, none, some, length, arith, All,
}
use cluster_performance_engi.Base.Int.{ℤ, pos, ◌≤ℤ◌, eqb_ℤ_iff}
use cluster_performance_engi.Topology.CpuList.{seen, uniq}
use cluster_performance_engi.Topology.Snapshot.{Cpu, Topology}
use cluster_performance_engi.Topology.Placement.{node_loop, agreed, primary_numa_node}

-- The CPUs that the caller lists are on this node.
abbrev pub OnNode : List ℤ → ℤ → Cpu → Type 0
OnNode want node c = seen c.id want ≡ true → c.numa_node ≡ node

node_loop-some :
    (want : List ℤ) (node : ℤ) (n : ℕ) (cpus : List Cpu) (found : Option ℤ) (count : ℕ)
    → node_loop want (some node) n cpus ≡ some (found, count)
    → (found ≡ some node) × All (OnNode want node) cpus
unfolding node_loop
node_loop-some want node n [] found count h = (ground (arith, h), tt)
node_loop-some want node n (c ∷ cpus) found count h = ground (
  arith,
  h,
  node_loop-some want node n cpus found count,
  node_loop-some want node (suc n) cpus found count,
  eqb_ℤ_iff node c.numa_node,
)

node_loop-none :
    (want : List ℤ) (cpus : List Cpu) (node : ℤ) (count : ℕ)
    → node_loop want none 0 cpus ≡ some (some node, count)
    → (pos 0 ≤ℤ node) × All (OnNode want node) cpus
unfolding node_loop
node_loop-none want [] node count h = ground (arith, h)
node_loop-none want (c ∷ cpus) node count h = ground (
  arith,
  h,
  node_loop-none want cpus node count,
  node_loop-some want c.numa_node 1 cpus (some node) count,
)

agreed-some :
    (want : List ℤ) (r : Option (Option ℤ × ℕ)) (node : ℤ)
    → agreed want r ≡ some node
    → r ≡ some (some node, length want)
agreed-some want none node h = ground (arith, h)
agreed-some want (some (none, count)) node h = ground (arith, h)
agreed-some want (some (some m, count)) node h = ground (arith, h)

-- If `PrimaryNUMANodeForCPUs` returns a node, the node is not negative and every CPU of the
-- snapshot that the caller lists is on it.
pub primary_numa_node-OnNode :
    (t : Topology) (cpus : List ℤ) (node : ℤ)
    → primary_numa_node (some t) cpus ≡ some node
    → (pos 0 ≤ℤ node) × All (OnNode (uniq [] cpus) node) t.cpus
unfolding primary_numa_node
primary_numa_node-OnNode t [] node h = ground (arith, h)
primary_numa_node-OnNode t (x ∷ l) node h =
    node_loop-none (uniq [] (x ∷ l)) t.cpus node _
      (agreed-some (uniq [] (x ∷ l)) (node_loop (uniq [] (x ∷ l)) none 0 t.cpus) node h)
