-- ===== src/Dag/Graph.antt =====
-- nexusflow/pkg/dag/graph.go: `TopoOrder`, Kahn's algorithm.
mod Counts
mod Relax
mod Trail
pub mod Start
pub mod Nodes
pub mod Order
mod Tests
use cluster_performance_engi.Base.{
  ℕ, zero, suc, Bool, true, false, List, [], ◌∷◌, ◌++◌, map, Option, none, some, Result, ok, err,
  length, ◌==◌, if◌then◌else◌,
}
use cluster_performance_engi.Base.Int.{ℤ, pos, negsuc, inc, dec, eqb_ℤ}
use cluster_performance_engi.Base.Text.{Bytes, eqb}
use cluster_performance_engi.Base.Member.{has}
use cluster_performance_engi.Dag.Spec.{Node, ids}

-- `map[string]int`: the value of a key that was never written is 0.
abbrev pub Degrees : Type 0
Degrees = Bytes → ℤ

abbrev pub update : Degrees → Bytes → ℤ → Degrees
update f k v = λ x. if eqb x k then v else f x

-- `byID`: the last node with the id, and the zero `Node` for a key that is not there.
abbrev zero_node : Node
zero_node = record { id = []; cmd = []; cpus = pos 0; numa_node = none; depends_on = [] }

by_id_from : Node → List Node → Bytes → Node
by_id_from found [] id = found
by_id_from found (n ∷ nodes) id = by_id_from (if eqb id n.id then n else found) nodes id

pub by_id : List Node → Bytes → Node
by_id = by_id_from zero_node

-- `inDeg[n.ID]++` for each dependency of each node.
pub count_deps : Bytes → List Bytes → Degrees → Degrees
count_deps id [] deg = deg
count_deps id (d ∷ deps) deg = count_deps id deps (update deg id (inc (deg id)))

pub in_degrees : List Node → Degrees → Degrees
in_degrees [] deg = deg
in_degrees (n ∷ nodes) deg = in_degrees nodes (count_deps n.id n.depends_on deg)

-- `edges[id]`: the nodes that depend on `id`, once for each time that they name it.
pub uses_of : Bytes → Bytes → List Bytes → List Bytes
uses_of id user [] = []
uses_of id user (d ∷ deps) = if eqb id d then user ∷ uses_of id user deps else uses_of id user deps

pub edges : List Node → Bytes → List Bytes
edges [] id = []
edges (n ∷ nodes) id = uses_of id n.id n.depends_on ++ edges nodes id

-- `for id, deg := range inDeg`: `keys` is the order in which Go happens to visit the map.
pub sources : List Bytes → Degrees → List Bytes
sources [] deg = []
sources (k ∷ keys) deg = if eqb_ℤ (deg k) (pos 0) then k ∷ sources keys deg else sources keys deg

-- `for _, succ := range edges[id]`: the degrees, and the queue.
pub relax : List Bytes → Degrees → List Bytes → Degrees × List Bytes
relax [] deg q = (deg, q)
relax (s ∷ succs) deg q =
    let d = dec (deg s) in relax succs (update deg s d) (if eqb_ℤ d (pos 0) then q ++ s ∷ [] else q)

-- `for len(q) > 0`. `none` means that the fuel ran out.
pub drain : ℕ → List Node → Degrees → List Bytes → List Node → Option (List Node)
drain zero nodes deg q ordered = none
drain (suc fuel) nodes deg [] ordered = some ordered
drain (suc fuel) nodes deg (id ∷ q) ordered =
    let (deg', q') = relax (edges nodes id) deg q in
    drain fuel nodes deg' q' (ordered ++ by_id nodes id ∷ [])

pub data GraphError : Type 0 where
  cycle_or_unresolved out_of_fuel : GraphError

pub check_length : List Node → Option (List Node) → Result GraphError (List Node)
check_length nodes none = err out_of_fuel
check_length nodes (some ordered) =
    if length ordered == length nodes then ok ordered else err cycle_or_unresolved

-- A vertex enters the queue at most once, so one round for each node and one to stop suffice.
unfoldable pub topo_order : List Bytes → List Node → Result GraphError (List Node)
unfolding in_degrees count_deps inc dec sources drain relax edges uses_of by_id by_id_from
    check_length
topo_order keys nodes =
    let deg = in_degrees nodes (λ _. pos 0) in
    check_length nodes (drain (suc (length nodes)) nodes deg (sources keys deg) [])
