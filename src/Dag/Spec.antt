-- ===== src/Dag/Spec.antt =====
-- nexusflow/pkg/dag/spec.go: the pipeline's data and `Validate`.
pub mod Valid
mod Tests
use cluster_performance_engi.Base.{
  ℕ, Bool, true, false, not, ◌&&◌, List, [], ◌∷◌, map, Option, none, some, Result, ok, err, ◌>>=◌,
  ◌>>◌, fail_if, is_nil, ◌≡◌, refl, arith, if◌then◌else◌,
}
use cluster_performance_engi.Base.Int.{ℤ, pos}
use cluster_performance_engi.Base.Text.{Bytes, trim_space}
use cluster_performance_engi.Base.Member.{has}

-- A vertex of the graph. `numa_node` is a pointer in the source: it may be nil.
pub record Node : Type 0 where
  pub id : Bytes
  pub cmd : List Bytes
  pub cpus : ℤ
  pub numa_node : Option ℤ
  pub depends_on : List Bytes

pub record Pipeline : Type 0 where
  pub name : Bytes
  pub nodes : List Node

-- What `Validate` can report, with the strings that its message quotes.
pub data SpecError : Type 0 where
  nil_pipeline name_required node_without_id : SpecError
  duplicate_node_id empty_cmd : Bytes → SpecError
  unknown_dependency : Bytes → Bytes → SpecError

abbrev pub ids : List Node → List Bytes
ids nodes = map (λ n. n.id) nodes

abbrev pub is_blank : Bytes → Bool
is_blank s = is_nil (trim_space s)

-- The first loop: `seen` is the map `ids`, which the second loop reads.
pub check_nodes : List Bytes → List Node → Result SpecError (List Bytes)
check_nodes seen [] = ok seen
check_nodes seen (n ∷ nodes) = do
  fail_if (is_blank n.id) node_without_id
  fail_if (has n.id seen) (duplicate_node_id n.id)
  fail_if (is_nil n.cmd) (empty_cmd n.id)
  check_nodes (n.id ∷ seen) nodes

pub check_deps : List Bytes → Bytes → List Bytes → Result SpecError (Unit {0})
check_deps seen id [] = ok tt
check_deps seen id (d ∷ deps) = do
  fail_if (not (has d seen)) (unknown_dependency id d)
  check_deps seen id deps

-- The second loop.
pub check_edges : List Bytes → List Node → Result SpecError (Unit {0})
unfolding check_deps
check_edges seen [] = ok tt
check_edges seen (n ∷ nodes) = do check_deps seen n.id n.depends_on; check_edges seen nodes

unfoldable pub validate : Option Pipeline → Result SpecError (Unit {0})
unfolding check_nodes check_edges
validate none = err nil_pipeline
validate (some p) = do
  fail_if (is_blank p.name) name_required
  seen ← check_nodes [] p.nodes
  check_edges seen p.nodes
