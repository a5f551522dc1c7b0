-- ===== src/Plasma/Coordinator/Tests.antt =====
-- A run of the coordinator with a branch, and the theorems about the coordinator at its states.
use cluster_performance_engi.Plasma.Frame.{FrameError}
use cluster_performance_engi.Plasma.Frame.Stream.{frames}
use cluster_performance_engi.Plasma.Coordinator.Session.{handle_conn, handle_conn-has_fuel}
use cluster_performance_engi.Plasma.Coordinator.Refinement.{Move, view, Reach-Move}
use cluster_performance_engi.Base.{
  ℕ, ◌≡◌, ◌≢◌, ◌≤◌, refl, true, false, List, [], ◌∷◌, ◌++◌, Option, none, some, Result, ok, err,
  arith, In, All, inl, length, subst,
}
use cluster_performance_engi.Base.Int.{pos}
use cluster_performance_engi.Base.Text.{Bytes, codes}
use cluster_performance_engi.Base.Sort.{sort, insert}
use cluster_performance_engi.Base.Member.{has}
use cluster_performance_engi.Dag.Spec.{Node}
use cluster_performance_engi.Dag.Graph.{topo_order}
use cluster_performance_engi.Dag.Graph.Start.{IsIteration}
use cluster_performance_engi.Dag.Graph.Order.{
  IsTopological, IsAcyclic, topo_order-IsTopological, IsTopological-IsAcyclic, position,
}
use cluster_performance_engi.Plasma.Graph.{append_dag, pick_runnable}
use cluster_performance_engi.Plasma.Coordinator.{
  checked_config, SampleRecord, Coordinator, Kind, handle_frame, ack, Reply, socket_path_required,
}
use cluster_performance_engi.Plasma.Coordinator.Handler.{handle_frame-IsAcyclic}
use cluster_performance_engi.Plasma.Coordinator.Loop.{
  top, idle, waiting, executing, System, at, pick, start, succeed, connection, Reach, here, next,
  initial, select_next, mark_running, complete,
}
use cluster_performance_engi.Plasma.Coordinator.Safety.{
  Frame, handled, RunOrder, Reach-RunOrder, Reach-serial, Reach-quiescent,
}

abbrev task : Bytes → List Bytes → Node
task id deps = record {
  id = id;
  cmd = codes "true" ∷ [];
  cpus = pos 0;
  numa_node = none;
  depends_on = deps;
}

abbrev a : Bytes
a = codes "a"

abbrev b : Bytes
b = codes "b"

abbrev base : List Node
base = task a [] ∷ []

abbrev both : List Node
both = task a [] ∷ task b (a ∷ []) ∷ []

-- Every frame is a branch with the node `b`.
abbrev probe : Bytes → Option Bytes
probe body = some (codes "branch")

abbrev decode_sample : Bytes → Result Bytes SampleRecord
decode_sample body = err []

abbrev decode_branch : Bytes → Result Bytes (List Node)
decode_branch body = ok (task b (a ∷ []) ∷ [])

abbrev decode_request_fd : Bytes → Result Bytes Bytes
decode_request_fd body = err []

abbrev open_fd : Kind → Result Bytes (Option Bytes)
open_fd kind = ok none

abbrev handle : Coordinator → Coordinator × Reply
handle c =
    handle_frame probe decode_sample decode_branch decode_request_fd open_fd 3 (b ∷ a ∷ []) c
      (codes "{}")

abbrev fresh : List Node → List Bytes → Coordinator
fresh nodes done = record {
  nodes = nodes;
  completed = done;
  running = [];
  samples = [];
  last_bump = 0;
  wake = false;
  idle_announced = false;
}

abbrev merged : Coordinator
merged = record {
  nodes = both;
  completed = [];
  running = [];
  samples = [];
  last_bump = 3;
  wake = true;
  idle_announced = false;
}

handle-branch : handle (fresh base []) ≡ (merged, ack)
unfolding handle_frame append_dag topo_order
handle-branch = refl

checked_config_refused :
    checked_config
      (record {
        socket_path = [];
        pipeline_path = [];
        shm_name = [];
        shm_size = pos 0;
        idle_exit = pos 0;
      })
      true
    ≡ err socket_path_required
unfolding checked_config
checked_config_refused = refl

abbrev Run : List Node → System → Type 0
Run nodes s =
    Reach (Frame probe decode_sample decode_branch decode_request_fd open_fd) 10 (initial 0 nodes) s

-- `a` is started, a branch comes in, and `a` is finished.
abbrev running_a : System
running_a = at (executing (task a [])) (mark_running (task a []) (fresh base [])) (task a [] ∷ [])

abbrev branched : System
branched =
    at (executing (task a [])) (handle (mark_running (task a []) (fresh base []))).0
      (task a [] ∷ [])

abbrev after_a : System
after_a =
    at top (complete 5 (task a []) (mark_running (task a []) (fresh base []))) (task a [] ∷ [])

trace_a : Run base running_a
unfolding initial select_next pick_runnable sort insert mark_running
trace_a = next (next here (pick (fresh base []) [])) (start (task a []) (fresh base []) [])

trace_branched : Run base branched
trace_branched = next trace_a (
    connection (executing (task a [])) _ _ (task a [] ∷ [])
      (handled 3 (b ∷ a ∷ []) (mark_running (task a []) (fresh base [])) (codes "{}")))

trace_after : Run base after_a
trace_after =
    next trace_a (succeed 5 (task a []) (mark_running (task a []) (fresh base [])) (task a [] ∷ []))

Reach-RunOrder_example :
    RunOrder branched.started × All (λ n. In n branched.coord.nodes) branched.started
Reach-RunOrder_example =
    Reach-RunOrder probe decode_sample decode_branch decode_request_fd open_fd 10 0 base branched
      trace_branched

Reach-serial_example : (length branched.coord.running ≤ 1) × (branched.phase ≢ waiting)
Reach-serial_example =
    Reach-serial probe decode_sample decode_branch decode_request_fd open_fd 10 0 base branched
      trace_branched

base-IsIteration : IsIteration (a ∷ []) base
base-IsIteration = record {
  distinct = (refl, tt);
  keys_known = λ x h. ground arith;
  all_keys = λ x h. ground arith;
  countable = omega arith;
}

both-IsIteration : IsIteration (b ∷ a ∷ []) both
both-IsIteration = record {
  distinct = (refl, (refl, tt));
  keys_known = λ x h. ground arith;
  all_keys = λ x h. ground arith;
  countable = omega arith;
}

topo_order-base : topo_order (a ∷ []) base ≡ ok base
unfolding topo_order
topo_order-base = refl

base-IsTopological : IsTopological base base
base-IsTopological = topo_order-IsTopological (a ∷ []) base base-IsIteration base topo_order-base

after_a-nodes : IsTopological after_a.coord.nodes base
unfolding complete mark_running
after_a-nodes = base-IsTopological

after_a-idle : select_next after_a.coord ≡ idle
unfolding complete mark_running select_next pick_runnable sort
after_a-idle = refl

In-nodes : In (task a []) after_a.coord.nodes
unfolding complete mark_running
In-nodes = inl refl

Reach-quiescent_example : has a after_a.coord.completed ≡ true
Reach-quiescent_example =
    Reach-quiescent probe decode_sample decode_branch decode_request_fd open_fd 10 0 base after_a
      trace_after base refl after_a-nodes after_a-idle (task a []) In-nodes

decoded : (add : List Node) → decode_branch (codes "{}") ≡ ok add → task b (a ∷ []) ∷ [] ≡ add
decoded add e = ground arith

branch_keys :
    (add : List Node)
    → decode_branch (codes "{}") ≡ ok add
    → IsIteration (b ∷ a ∷ []) ((fresh base []).nodes ++ add)
branch_keys add e =
    subst (λ l. IsIteration (b ∷ a ∷ []) (base ++ l)) (decoded add e) both-IsIteration

handle_frame-IsAcyclic_example :
    (rank : Bytes → ℕ) × IsAcyclic rank (handle (fresh base [])).0.nodes
handle_frame-IsAcyclic_example =
    handle_frame-IsAcyclic probe decode_sample decode_branch decode_request_fd open_fd 3
      (b ∷ a ∷ []) (fresh base []) (codes "{}") (λ x. position x (a ∷ [])) branch_keys
      (IsTopological-IsAcyclic base base base-IsTopological)

Reach-Move_example : Move (view running_a) (view after_a)
Reach-Move_example =
    Reach-Move probe decode_sample decode_branch decode_request_fd open_fd 10 0 base running_a
      after_a trace_a
      (succeed 5 (task a []) (mark_running (task a []) (fresh base [])) (task a [] ∷ []))

abbrev bodies : List Bytes
bodies = codes "{}" ∷ [] ∷ []

-- A frame that is cut off in its header.
abbrev torn : Bytes
torn = 0 ∷ 0 ∷ []

abbrev session : Coordinator × List Reply × Option FrameError
session =
    handle_conn probe decode_sample decode_branch decode_request_fd (λ k. open_fd) (λ k. k)
      (λ k. b ∷ a ∷ []) 3 0 (fresh base []) [] (frames bodies ++ torn)

handle_conn-has_fuel_example :
    (handle_conn probe decode_sample decode_branch decode_request_fd
      (λ k. open_fd)
      (λ k. k)
      (λ k. b ∷ a ∷ [])
      4
      0
      (fresh base [])
      []
      (codes "abc")).2
    ≢ none
handle_conn-has_fuel_example =
    handle_conn-has_fuel probe decode_sample decode_branch decode_request_fd (λ k. open_fd) (λ k. k)
      (λ k. b ∷ a ∷ []) 4 0 (fresh base []) [] (codes "abc") (omega arith)
