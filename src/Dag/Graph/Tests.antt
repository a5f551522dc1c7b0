-- ===== src/Dag/Graph/Tests.antt =====
-- Runs of `TopoOrder`, and the theorems about it at those inputs.
use cluster_performance_engi.Base.{◌≡◌, ◌≢◌, refl, List, [], ◌∷◌, none, ok, err, arith}
use cluster_performance_engi.Base.Int.{pos}
use cluster_performance_engi.Base.Text.{Bytes, codes}
use cluster_performance_engi.Dag.Spec.{Node, ids}
use cluster_performance_engi.Dag.Graph.{topo_order, cycle_or_unresolved, out_of_fuel}
use cluster_performance_engi.Dag.Graph.Start.{IsIteration}
use cluster_performance_engi.Dag.Graph.Order.{
  IsTopological, IsAcyclic, position, topo_order-IsTopological, topo_order_complete,
  topo_order-has_fuel, IsTopological-IsAcyclic,
}

abbrev task : Bytes → List Bytes → Node
task id deps = record {
  id = id;
  cmd = codes "echo" ∷ [];
  cpus = pos 0;
  numa_node = none;
  depends_on = deps;
}

abbrev a : Bytes
a = codes "a"

abbrev b : Bytes
b = codes "b"

abbrev c : Bytes
c = codes "c"

abbrev chain : List Node
chain = task c (a ∷ b ∷ []) ∷ task b (a ∷ []) ∷ task a [] ∷ []

abbrev ordered : List Node
ordered = task a [] ∷ task b (a ∷ []) ∷ task c (a ∷ b ∷ []) ∷ []

topo_order-chain : topo_order (b ∷ c ∷ a ∷ []) chain ≡ ok ordered
unfolding topo_order
topo_order-chain = refl

topo_order_cycle :
    topo_order (a ∷ b ∷ []) (task a (b ∷ []) ∷ task b (a ∷ []) ∷ []) ≡ err cycle_or_unresolved
unfolding topo_order
topo_order_cycle = refl

-- Two nodes of one id: the second loop visits it once, and the count does not fit.
topo_order_twice : topo_order (a ∷ []) (task a [] ∷ task a [] ∷ []) ≡ err cycle_or_unresolved
unfolding topo_order
topo_order_twice = refl

chain-IsIteration : IsIteration (b ∷ c ∷ a ∷ []) chain
chain-IsIteration = record {
  distinct = (refl, (refl, (refl, tt)));
  keys_known = λ x h. ground arith;
  all_keys = λ x h. ground arith;
  countable = omega arith;
}

backward-IsIteration : IsIteration (a ∷ c ∷ b ∷ []) chain
backward-IsIteration = record {
  distinct = (refl, (refl, (refl, tt)));
  keys_known = λ x h. ground arith;
  all_keys = λ x h. ground arith;
  countable = omega arith;
}

topo_order-IsTopological_example : IsTopological chain ordered
topo_order-IsTopological_example =
    topo_order-IsTopological (b ∷ c ∷ a ∷ []) chain chain-IsIteration ordered topo_order-chain

chain-IsAcyclic : IsAcyclic (λ x. position x (ids ordered)) chain
chain-IsAcyclic =
    IsTopological-IsAcyclic chain ordered
      (topo_order-IsTopological (b ∷ c ∷ a ∷ []) chain chain-IsIteration ordered topo_order-chain)

topo_order_complete_example : (out : List Node) × (topo_order (a ∷ c ∷ b ∷ []) chain ≡ ok out)
topo_order_complete_example =
    topo_order_complete (a ∷ c ∷ b ∷ []) chain backward-IsIteration (λ x. position x (ids ordered))
      chain-IsAcyclic

topo_order-has_fuel_example : topo_order (b ∷ c ∷ a ∷ []) chain ≢ err out_of_fuel
topo_order-has_fuel_example = topo_order-has_fuel (b ∷ c ∷ a ∷ []) chain chain-IsIteration
