-- ===== src/Topology/Placement/Tests.antt =====
-- Runs of the placement functions: those of placement_test.go, and others.
use cluster_performance_engi.Base.{◌≡◌, refl, List, [], ◌∷◌, none, some, ok, All, In, length, arith}
use cluster_performance_engi.Base.Int.{ℤ, pos}
use cluster_performance_engi.Base.Sort.{sort, insert}
use cluster_performance_engi.Topology.CpuList.{uniq}
use cluster_performance_engi.Topology.Snapshot.{Cpu, NumaNode, Topology}
use cluster_performance_engi.Topology.Placement.{select_cpus, all_cpu_ids, primary_numa_node}
use cluster_performance_engi.Topology.Placement.Laws.{select_cpus-length, granted}
use cluster_performance_engi.Topology.Placement.Members.{select_cpus-In, IsConsistent}

abbrev on : ℤ → ℤ → Cpu
on i node = record { id = i; package_id = pos 0; core_id = i; numa_node = node; siblings = [] }

abbrev domain : ℤ → List ℤ → NumaNode
domain i cpus = record { id = i; cpus = cpus; distance = [] }

abbrev two_nodes : Topology
two_nodes = record {
  cpus =
      on (pos 0) (pos 0)
      ∷ on (pos 1) (pos 0)
      ∷ on (pos 2) (pos 1)
      ∷ on (pos 3) (pos 1)
      ∷ on (pos 4) (pos 1)
      ∷ [];
  numa_nodes =
      domain (pos 0) (pos 0 ∷ pos 1 ∷ []) ∷ domain (pos 1) (pos 4 ∷ pos 2 ∷ pos 3 ∷ []) ∷ [];
}

select_two : select_cpus two_nodes (pos 2) none [] ≡ ok (pos 2 ∷ pos 3 ∷ [])
unfolding select_cpus sort insert
select_two = refl

select_four : select_cpus two_nodes (pos 4) none [] ≡ ok (pos 0 ∷ pos 1 ∷ pos 2 ∷ pos 3 ∷ [])
unfolding select_cpus sort insert
select_four = refl

primary_one : primary_numa_node (some two_nodes) (pos 3 ∷ pos 2 ∷ pos 3 ∷ []) ≡ some (pos 1)
unfolding primary_numa_node uniq
primary_one = refl

primary_two : primary_numa_node (some two_nodes) (pos 1 ∷ pos 2 ∷ []) ≡ none
unfolding primary_numa_node uniq
primary_two = refl

two_nodes-IsConsistent : IsConsistent two_nodes
unfolding all_cpu_ids sort insert
two_nodes-IsConsistent = ground arith

select_cpus-length_example : length (pos 0 ∷ pos 1 ∷ pos 2 ∷ pos 3 ∷ []) ≡ granted (pos 4) 5
select_cpus-length_example = select_cpus-length two_nodes (pos 4) none [] _ select_four

select_cpus-In_example : All (λ i. In i (all_cpu_ids two_nodes)) (pos 2 ∷ pos 3 ∷ [])
select_cpus-In_example =
    select_cpus-In two_nodes (pos 2) none [] (pos 2 ∷ pos 3 ∷ []) two_nodes-IsConsistent select_two
