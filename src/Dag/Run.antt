-- ===== src/Dag/Run.antt =====
-- nexusflow/pkg/dag/run.go: the runner, which executes the nodes one after another. Starting a
-- process, the clock, the context and writing the metrics file are arguments. What a command does
-- and whether the context is done may depend on the steps that were recorded before, so that a
-- command line may end otherwise when it is run again.
mod Tests
use cluster_performance_engi.Base.{
  ℕ, suc, ◌+◌, ◌≡◌, refl, ap, Bool, true, false, List, [], ◌∷◌, ◌++◌, map, Option, none, some,
  Result, ok, err, if◌then◌else◌, arith, Bool-cases, inl, inr, Result-cases, append_assoc,
  append-nil, All, sym, ◌∙◌, ◌⊎◌, Option-cases,
}
use cluster_performance_engi.Base.Int.{ℤ, pos, negsuc}
use cluster_performance_engi.Base.Text.{Bytes, codes}
use cluster_performance_engi.Dag.Spec.{Node, Pipeline, ids}
use cluster_performance_engi.Dag.Graph.{GraphError, topo_order}
use cluster_performance_engi.Topology.Snapshot.{Topology}
use cluster_performance_engi.Topology.Placement.{PlacementError, select_cpus}
use cluster_performance_engi.Affinity.{CommandError, command}

pub record StepTiming : Type 0 where
  pub id : Bytes
  pub duration : ℕ
  pub exit_code : ℤ

-- What `cmd.Run` returned: the exit code of an `ExitError`, or another error.
pub data Exit : Type 0 where
  succeeded launch_failed : Exit
  exited : ℤ → Exit

pub data RunError (E : Type 0) : Type 0 where
  topology_required cancelled : RunError E
  no_order : GraphError → RunError E
  select_failed : Bytes → PlacementError → RunError E
  command_failed : Bytes → CommandError → RunError E
  node_failed : Bytes → Exit → RunError E
  metrics_failed : E → RunError E

-- The timings that are recorded, and the command lines that were started.
pub record Trace : Type 0 where
  pub timings : List StepTiming
  pub started : List (Bytes × List Bytes)

abbrev pub exit_of : Exit → ℤ
exit_of succeeded = pos 0
exit_of launch_failed = negsuc 0
exit_of (exited code) = code

abbrev pub record_step : Trace → Node → List Bytes → Exit × ℕ → Trace
record_step t n argv (exit, dur) = record {
  timings = t.timings ++ record { id = n.id; duration = dur; exit_code = exit_of exit } ∷ [];
  started = t.started ++ (n.id, argv) ∷ [];
}

module _ {E : Type 0} (has_taskset : Bool) (topo : Topology) (is_done : List StepTiming → Bool)
    (exec : List StepTiming → List Bytes → Exit × ℕ) where
  -- The command line of one node.
  unfoldable pub node_argv : Node → Result (RunError E) (List Bytes)
  node_argv n = elim (select_cpus topo n.cpus n.numa_node (codes "same-numa")) [
    | err e ↦ err (select_failed n.id e)
    | ok cpus ↦ elim (command has_taskset cpus n.cmd) [
      | err e ↦ err (command_failed n.id e)
      | ok argv ↦ ok argv
    ]
  ]

  -- The loop, with what is left of the order. Each failure ends it.
  unfoldable pub run_nodes : Trace → List Node → Trace × Option (RunError E)
  unfolding node_argv
  run_nodes t [] = (t, none)
  run_nodes t (n ∷ order) = elim (is_done t.timings) [
    | true ↦ (t, some cancelled)
    | false ↦ elim (node_argv n) [
      | err e ↦ (t, some e)
      | ok argv ↦ elim ((exec t.timings argv).0) [
        | succeeded ↦ run_nodes (record_step t n argv (succeeded, (exec t.timings argv).1)) order
        | launch_failed ↦ (
          record_step t n argv (launch_failed, (exec t.timings argv).1),
          some (node_failed n.id launch_failed),
        )
        | exited code ↦ (
          record_step t n argv (exited code, (exec t.timings argv).1),
          some (node_failed n.id (exited code)),
        )
      ]
    ]
  ]

abbrev pub empty_trace : Trace
empty_trace = record { timings = []; started = [] }

-- `write` is the writer of the metrics file. A node that fails has its error reported, whatever
-- becomes of the file; the other early returns write none.
abbrev pub reported :
    {E : Type 0}
    → (List StepTiming → Option E)
    → Trace × Option (RunError E)
    → Trace × Option (RunError E)
reported write (t, some e) = (t, some e)
reported write (t, none) = elim (write t.timings) [
  | none ↦ (t, none)
  | some e ↦ (t, some (metrics_failed e))
]

module _ {E : Type 0} (has_taskset : Bool) (is_done : List StepTiming → Bool)
    (exec : List StepTiming → List Bytes → Exit × ℕ) (write : List StepTiming → Option E) where
  abbrev pub run_order : Topology → Result GraphError (List Node) → Trace × Option (RunError E)
  run_order topo (err e) = (empty_trace, some (no_order e))
  run_order topo (ok order) =
      reported write (run_nodes has_taskset topo is_done exec empty_trace order)

  -- `Runner.Run`; `keys` is the order in which `TopoOrder` visits its map.
  unfoldable pub run : Option Topology → List Bytes → List Node → Trace × Option (RunError E)
  unfolding run_nodes
  run none keys nodes = (empty_trace, some topology_required)
  run (some topo) keys nodes = run_order topo (topo_order keys nodes)

abbrev pub started_ids : Trace → List Bytes
started_ids t = map (λ s. s.0) t.started

-- What is started, and what is left, is the order; nothing is left without an error.
pub record IsPrefix {ℓ} {E : Type ℓ} (before : List Bytes) (order : List Node)
    (r : Trace × Option E) : Type ℓ where
  pub left : List Bytes
  pub split : before ++ ids order ≡ started_ids r.0 ++ left
  pub complete : r.1 ≡ none → left ≡ []

map-append :
    (l m : List (Bytes × List Bytes))
    → map (λ s. s.0) (l ++ m) ≡ map (λ s. s.0) l ++ map (λ s. s.0) m
map-append [] m = refl
map-append (x ∷ l) m = ap (λ r. x.0 ∷ r) (map-append l m)

started-record_step :
    (t : Trace) (n : Node) (argv : List Bytes) (r : Exit × ℕ)
    → started_ids (record_step t n argv r) ≡ started_ids t ++ n.id ∷ []
started-record_step t n argv (exit, dur) = map-append t.started ((n.id, argv) ∷ [])

stopped :
    {E : Type 0} (t : Trace) (order : List Node) (e : E)
    → IsPrefix (started_ids t) order (let r : Trace × Option E = (t, some e) in r)
stopped t order e = record { left = ids order; split = refl; complete = λ h. ground (arith, h) }

one_more :
    {E : Type 0} (t : Trace) (n : Node) (argv : List Bytes) (x : Exit × ℕ) (order : List Node)
    (r : Trace × Option E)
    → IsPrefix (started_ids (record_step t n argv x)) order r
    → IsPrefix (started_ids t) (n ∷ order) r
one_more t n argv x order r h = record {
  left = h.left;
  split =
      sym (append_assoc (started_ids t) (n.id ∷ []) (ids order))
      ∙ ap (λ l. l ++ ids order) (sym (started-record_step t n argv x))
      ∙ h.split;
  complete = h.complete;
}

Exit-cases : (x : Exit) → (x ≡ succeeded) ⊎ ((x ≡ launch_failed) ⊎ ((code : ℤ) × (x ≡ exited code)))
Exit-cases succeeded = inl refl
Exit-cases launch_failed = inr (inl refl)
Exit-cases (exited code) = inr (inr (code, refl))

module _ {E : Type 0} (has_taskset : Bool) (topo : Topology) (is_done : List StepTiming → Bool)
    (exec : List StepTiming → List Bytes → Exit × ℕ) where
  run_nodes-IsPrefix :
      (t : Trace) (order : List Node)
      → IsPrefix (started_ids t) order (run_nodes {E = E} has_taskset topo is_done exec t order)
  unfolding run_nodes
  run_nodes-IsPrefix t [] = record { left = []; split = refl; complete = λ h. refl }
  run_nodes-IsPrefix t (n ∷ order) = elim (Bool-cases (is_done t.timings)) [
    | inl d ↦ rw (d, run_nodes) (stopped t (n ∷ order) cancelled)
    | inr d ↦ elim (Result-cases (node_argv {E = E} has_taskset topo is_done exec n)) [
      | inr (e, bad) ↦ rw (d, bad, run_nodes) (stopped t (n ∷ order) e)
      | inl (argv, good) ↦ elim (Exit-cases ((exec t.timings argv).0)) [
        | inl s ↦
            rw (d, good, s, run_nodes)
              (one_more t n argv (succeeded, (exec t.timings argv).1) order _
                (run_nodes-IsPrefix (record_step t n argv (succeeded, (exec t.timings argv).1))
                  order))
        | inr (inl s) ↦
            rw (d, good, s, run_nodes)
              (one_more t n argv (launch_failed, (exec t.timings argv).1) order _
                (stopped _ order _))
        | inr (inr (code, s)) ↦
            rw (d, good, s, run_nodes)
              (one_more t n argv (exited code, (exec t.timings argv).1) order _ (stopped _ order _))
      ]
    ]
  ]

reported-IsPrefix :
    {E : Type 0} (write : List StepTiming → Option E) (order : List Node)
    (r : Trace × Option (RunError E))
    → IsPrefix [] order r
    → IsPrefix [] order (reported write r)
reported-IsPrefix write order (t, some e) h = h
reported-IsPrefix write order (t, none) h = elim (Option-cases (write t.timings)) [
  | inl e ↦ rw (e, reported) h
  | inr (e, bad) ↦
      rw (bad, reported)
        (record { left = h.left; split = h.split; complete = λ k. ground (arith, k) })
]

-- If the nodes have an order by `TopoOrder`: the nodes that `Runner.Run` starts are a beginning of
-- that order, and the whole of it if it returns no error, whatever the commands, the context and
-- the metrics file do, where each command may end as it likes.
pub run-IsPrefix :
    {E : Type 0} (has_taskset : Bool) (is_done : List StepTiming → Bool)
    (exec : List StepTiming → List Bytes → Exit × ℕ) (write : List StepTiming → Option E)
    (topo : Topology) (keys : List Bytes) (nodes order : List Node)
    → topo_order keys nodes ≡ ok order
    → IsPrefix [] order (run has_taskset is_done exec write (some topo) keys nodes)
unfolding run
run-IsPrefix has_taskset is_done exec write topo keys nodes order e = rw e (
    reported-IsPrefix write order (run_nodes has_taskset topo is_done exec empty_trace order)
      (run_nodes-IsPrefix has_taskset topo is_done exec empty_trace order))
