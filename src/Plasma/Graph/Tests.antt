-- ===== src/Plasma/Graph/Tests.antt =====
-- Runs of `AppendDAG` and `PickRunnable`, and the theorems about them at those inputs.
use cluster_performance_engi.Base.{
  ◌≡◌, ◌↔◌, ◌⊎◌, refl, List, [], ◌∷◌, ◌++◌, none, some, ok, err, arith,
}
use cluster_performance_engi.Base.Int.{pos}
use cluster_performance_engi.Base.Text.{Bytes, codes, leb_text}
use cluster_performance_engi.Base.Sort.{sort, insert}
use cluster_performance_engi.Dag.Spec.{Node}
use cluster_performance_engi.Dag.Graph.{topo_order}
use cluster_performance_engi.Dag.Graph.Start.{IsIteration}
use cluster_performance_engi.Plasma.Graph.{
  append_dag, pick_runnable, duplicate_node_id, unknown_dependency,
}
use cluster_performance_engi.Plasma.Graph.Append.{append_dag_iff, IsMergeable}
use cluster_performance_engi.Plasma.Graph.Pick.{Chooses, pick_runnable-Chooses}

abbrev task : Bytes → List Bytes → Node
task id deps = record {
  id = id;
  cmd = codes "true" ∷ [];
  cpus = pos 0;
  numa_node = none;
  depends_on = deps;
}

abbrev a : Bytes
a = codes "a"

abbrev b : Bytes
b = codes "b"

abbrev base : List Node
base = task a [] ∷ []

abbrev branch : List Node
branch = task b (a ∷ []) ∷ []

abbrev both : List Node
both = task a [] ∷ task b (a ∷ []) ∷ []

append_dag_runs :
    (append_dag [] base [] ≡ ok base)
    × (append_dag [] base base ≡ err (duplicate_node_id a))
    × (append_dag [] base (task b (codes "z" ∷ []) ∷ []) ≡ err (unknown_dependency b (codes "z")))
unfolding append_dag
append_dag_runs = (refl, refl, refl)

both-IsIteration : IsIteration (b ∷ a ∷ []) both
both-IsIteration = record {
  distinct = (refl, (refl, tt));
  keys_known = λ x h. ground arith;
  all_keys = λ x h. ground arith;
  countable = omega arith;
}

append_dag_iff_example :
    (append_dag (b ∷ a ∷ []) base branch ≡ ok both)
    ↔ ((both ≡ base ++ branch) × ((branch ≡ []) ⊎ IsMergeable base branch))
append_dag_iff_example = append_dag_iff (b ∷ a ∷ []) base branch both both-IsIteration

pick_first : pick_runnable (task b [] ∷ task a [] ∷ []) [] [] ≡ some (task a [])
unfolding pick_runnable sort insert leb_text
pick_first = refl

pick_done : pick_runnable both (b ∷ a ∷ []) [] ≡ none
unfolding pick_runnable sort
pick_done = refl

topo_order-both : topo_order (b ∷ a ∷ []) both ≡ ok both
unfolding topo_order
topo_order-both = refl

pick_runnable-Chooses_example : Chooses both (a ∷ []) [] (pick_runnable both (a ∷ []) [])
pick_runnable-Chooses_example = pick_runnable-Chooses both (a ∷ []) []
