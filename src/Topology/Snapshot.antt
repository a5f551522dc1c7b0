-- ===== src/Topology/Snapshot.antt =====
-- nexusflow/pkg/topology/types.go: a snapshot of the machine's CPUs and memory nodes.
use cluster_performance_engi.Base.{List, [], ◌∷◌, map, if◌then◌else◌}
use cluster_performance_engi.Base.Int.{ℤ, eqb_ℤ, leb_ℤ, leb_ℤ_total, leb_ℤ_trans}
use cluster_performance_engi.Base.Sort.{sort, Order}
use cluster_performance_engi.Topology.CpuList.{ints, uniq}

-- `numa_node` is -1 if it is unknown.
pub record Cpu : Type 0 where
  pub id : ℤ
  pub package_id : ℤ
  pub core_id : ℤ
  pub numa_node : ℤ
  pub siblings : List ℤ

pub record NumaNode : Type 0 where
  pub id : ℤ
  pub cpus : List ℤ
  pub distance : List ℤ

pub record Topology : Type 0 where
  pub cpus : List Cpu
  pub numa_nodes : List NumaNode

-- The order in which both ways to find a snapshot leave its nodes.
abbrev pub by_id : Order NumaNode
by_id = record {
  lessb = λ a b. leb_ℤ a.id b.id;
  total = λ a b. leb_ℤ_total a.id b.id;
  trans = λ a b c. leb_ℤ_trans a.id b.id c.id;
}

-- The first node with the id.
unfoldable pub cpus_on_node : ℤ → List NumaNode → List ℤ
cpus_on_node node_id [] = []
cpus_on_node node_id (n ∷ nodes) = if eqb_ℤ n.id node_id then n.cpus else cpus_on_node node_id nodes

unfoldable pub package_ids : List Cpu → List ℤ
package_ids cpus = sort ints (uniq [] (map (λ c. c.package_id) cpus))
