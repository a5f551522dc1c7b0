-- ===== src/Plasma/Graph.antt =====
-- nexusflow/pkg/plasma/graph.go: `AppendDAG` and `PickRunnable`.
pub mod Append
pub mod Pick
mod Tests
use cluster_performance_engi.Base.{
  ℕ, Bool, true, false, not, ◌&&◌, ◌||◌, List, [], ◌∷◌, ◌++◌, map, Option, none, some, Result, ok,
  err, ◌>>=◌, ◌>>◌, fail_if, is_nil, if◌then◌else◌,
}
use cluster_performance_engi.Base.Text.{Bytes, leb_text, leb_text_total, leb_text_trans}
use cluster_performance_engi.Base.Sort.{Order, sort}
use cluster_performance_engi.Base.Member.{has}
use cluster_performance_engi.Dag.Spec.{Node, ids}
use cluster_performance_engi.Dag.Graph.{GraphError, topo_order}

pub data AppendError : Type 0 where
  duplicate_node_id empty_cmd : Bytes → AppendError
  unknown_dependency : Bytes → Bytes → AppendError
  unordered : GraphError → AppendError

-- The first loop over `add`: `pending` gets the new ids.
pub fresh_ids : List Bytes → List Bytes → List Node → Result AppendError (List Bytes)
fresh_ids existing pending [] = ok pending
fresh_ids existing pending (n ∷ add) = do
  fail_if (has n.id existing) (duplicate_node_id n.id)
  fresh_ids existing (n.id ∷ pending) add

pub known_deps : List Bytes → List Bytes → Bytes → List Bytes → Result AppendError (Unit {0})
known_deps existing pending id [] = ok tt
known_deps existing pending id (d ∷ deps) = do
  fail_if (not (has d existing) && not (has d pending)) (unknown_dependency id d)
  known_deps existing pending id deps

-- The second loop.
pub check_added : List Bytes → List Bytes → List Node → Result AppendError (Unit {0})
unfolding known_deps
check_added existing pending [] = ok tt
check_added existing pending (n ∷ add) = do
  fail_if (is_nil n.cmd) (empty_cmd n.id)
  known_deps existing pending n.id n.depends_on
  check_added existing pending add

abbrev pub orderable : {A : Type 0} → A → Result GraphError A → Result AppendError A
orderable merged (ok order) = ok merged
orderable merged (err e) = err (unordered e)

-- `keys` is the order in which `TopoOrder` visits its map.
unfoldable pub append_dag : List Bytes → List Node → List Node → Result AppendError (List Node)
unfolding fresh_ids check_added
append_dag keys existing [] = ok existing
append_dag keys existing (n ∷ add) = do
  let seen = ids existing
  pending ← fresh_ids seen [] (n ∷ add)
  check_added seen pending (n ∷ add)
  let merged = existing ++ n ∷ add
  orderable merged (topo_order keys merged)

-- Nodes in the order of their ids, as strings.
abbrev pub by_name : Order Node
by_name = record {
  lessb = λ m n. leb_text m.id n.id;
  total = λ m n. leb_text_total m.id n.id;
  trans = λ m n k. leb_text_trans m.id n.id k.id;
}

abbrev pub all_in : List Bytes → List Bytes → Bool
all_in [] done = true
all_in (d ∷ deps) done = has d done && all_in deps done

-- Not finished, not running, and all dependencies finished.
abbrev pub is_ready : List Bytes → List Bytes → Node → Bool
is_ready completed running n =
    not (has n.id completed) && (not (has n.id running) && all_in n.depends_on completed)

-- The candidates `c`.
pub ready_nodes : List Node → List Bytes → List Bytes → List Node
ready_nodes [] completed running = []
ready_nodes (n ∷ nodes) completed running =
    let rest = ready_nodes nodes completed running in
    if is_ready completed running n then n ∷ rest else rest

abbrev pub first : List Node → Option Node
first [] = none
first (n ∷ nodes) = some n

unfoldable pub pick_runnable : List Node → List Bytes → List Bytes → Option Node
unfolding ready_nodes
pick_runnable nodes completed running = first (sort by_name (ready_nodes nodes completed running))
