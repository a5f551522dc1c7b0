-- ===== src/Dag/Run/Tests.antt =====
-- Runs of the runner, and the theorem about it there.
use cluster_performance_engi.Base.{
  ◌≡◌, refl, List, [], ◌∷◌, none, some, ok, true, false, Option, Bool, ℕ,
}
use cluster_performance_engi.Base.Int.{pos}
use cluster_performance_engi.Base.Text.{Bytes, codes}
use cluster_performance_engi.Base.Sort.{sort}
use cluster_performance_engi.Dag.Spec.{Node}
use cluster_performance_engi.Dag.Graph.{topo_order}
use cluster_performance_engi.Dag.Run.{
  StepTiming, Exit, succeeded, exited, run, IsPrefix, run-IsPrefix, started_ids, node_failed,
}
use cluster_performance_engi.Topology.Snapshot.{Topology}
use cluster_performance_engi.Topology.Placement.{select_cpus}
use cluster_performance_engi.Affinity.{command}

abbrev step : Bytes → Bytes → List Bytes → Node
step id cmd deps = record {
  id = id;
  cmd = cmd ∷ [];
  cpus = pos 0;
  numa_node = none;
  depends_on = deps;
}

abbrev steps : List Node
steps = step (codes "b") (codes "true") (codes "a" ∷ []) ∷ step (codes "a") (codes "true") [] ∷ []

abbrev in_order : List Node
in_order =
    step (codes "a") (codes "true") [] ∷ step (codes "b") (codes "true") (codes "a" ∷ []) ∷ []

abbrev no_cpus : Topology
no_cpus = record { cpus = []; numa_nodes = [] }

-- Once a step is recorded, every command fails.
abbrev toy_exec : List StepTiming → List Bytes → Exit × ℕ
toy_exec [] argv = (succeeded, 5)
toy_exec (step ∷ timings) argv = (exited (pos 1), 5)

abbrev never_done : List StepTiming → Bool
never_done l = false

abbrev toy_write : List StepTiming → Option Bytes
toy_write l = none

abbrev keys : List Bytes
keys = codes "b" ∷ codes "a" ∷ []

topo_order-steps : topo_order keys steps ≡ ok in_order
unfolding topo_order
topo_order-steps = refl

second_fails :
    let r = run true never_done toy_exec toy_write (some no_cpus) keys steps in
    (started_ids r.0 ≡ codes "a" ∷ codes "b" ∷ [])
    × (r.1 ≡ some (node_failed (codes "b") (exited (pos 1))))
unfolding run topo_order select_cpus command sort
second_fails = (refl, refl)

run-IsPrefix_example :
    IsPrefix [] in_order (run true never_done toy_exec toy_write (some no_cpus) keys steps)
run-IsPrefix_example =
    run-IsPrefix true never_done toy_exec toy_write no_cpus keys steps in_order topo_order-steps
