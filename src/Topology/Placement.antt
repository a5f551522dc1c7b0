-- ===== src/Topology/Placement.antt =====
-- nexusflow/pkg/topology/placement.go: which CPUs a command is pinned to.
pub mod Laws
pub mod Members
pub mod Primary
mod Tests
use cluster_performance_engi.Base.{
  ℕ, suc, zero, ◌+◌, ◌<◌, ◌≤◌, ◌≡◌, Bool, true, false, not, ◌&&◌, ◌||◌, List, [], ◌∷◌, ◌++◌, map,
  Option, none, some, Result, ok, err, length, take, is_nil, leb, ltb, ◌==◌, if◌then◌else◌, arith,
}
use cluster_performance_engi.Base.Int.{ℤ, pos, pos_part, leb_ℤ, ltb_ℤ, eqb_ℤ}
use cluster_performance_engi.Base.Text.{Bytes, codes, eqb}
use cluster_performance_engi.Base.Sort.{Order, sort}
use cluster_performance_engi.Topology.CpuList.{ints, seen, uniq}
use cluster_performance_engi.Topology.Snapshot.{Cpu, NumaNode, Topology, cpus_on_node}

pub data PlacementError : Type 0 where
  unknown_strategy : Bytes → PlacementError
  node_too_small : ℤ → ℕ → PlacementError
  too_few_cpus : ℕ → PlacementError

unfoldable pub all_cpu_ids : Topology → List ℤ
all_cpu_ids t = sort ints (map (λ c. c.id) t.cpus)

-- A node with enough CPUs, which are in ascending order. Its size is the length of `cpus`.
pub record Cand : Type 0 where
  pub id : ℤ
  pub cpus : List ℤ

-- Large nodes first, and the smaller id first among nodes of one size.
abbrev pub cand_leb : Cand → Cand → Bool
cand_leb a b =
    ltb (length b.cpus) (length a.cpus) || (length a.cpus == length b.cpus && leb_ℤ a.id b.id)

pub cand_leb_total : (a b : Cand) → cand_leb a b ≡ false → cand_leb b a ≡ true
cand_leb_total a b h = ground arith

pub cand_leb_trans :
    (a b c : Cand) → cand_leb a b ≡ true → cand_leb b c ≡ true → cand_leb a c ≡ true
cand_leb_trans a b c h k = ground arith

abbrev pub by_size : Order Cand
by_size = record { lessb = cand_leb; total = cand_leb_total; trans = cand_leb_trans }

unfoldable pub candidates : ℕ → List NumaNode → List Cand
candidates want [] = []
candidates want (n ∷ nodes) =
    let cp = sort ints n.cpus in
    let rest = candidates want nodes in
    if leb want (length cp) then record { id = n.id; cpus = cp } ∷ rest else rest

-- The loop over one node's CPUs, which stops once there are enough.
unfoldable pub fill : ℕ → List ℤ → List ℤ → List ℤ
fill want acc [] = acc
fill want acc (id ∷ cp) =
    let more = fill want (acc ++ id ∷ []) cp in if leb want (length acc) then acc else more

unfoldable pub gather : ℕ → List ℤ → List NumaNode → List ℤ
gather want acc [] = acc
gather want acc (n ∷ nodes) =
    let acc' = fill want acc (sort ints n.cpus) in
    let more = gather want acc' nodes in if leb want (length acc') then acc' else more

-- No single node has enough CPUs.
unfoldable pub spread : ℕ → List NumaNode → Result PlacementError (List ℤ)
unfolding gather fill
spread want nodes =
    let acc = sort ints (gather want [] nodes) in
    if ltb (length acc) want then err (too_few_cpus (length acc)) else ok (take want acc)

abbrev pub best : ℕ → List NumaNode → List Cand → Result PlacementError (List ℤ)
best want nodes [] = spread want nodes
best want nodes (c ∷ cands) = ok (take want c.cpus)

unfoldable pub on_node : ℕ → ℤ → List NumaNode → Result PlacementError (List ℤ)
unfolding cpus_on_node
on_node want node nodes =
    let cpus = sort ints (cpus_on_node node nodes) in
    if ltb (length cpus) want then err (node_too_small node (length cpus)) else ok (take want cpus)

abbrev pub on_nodes : ℕ → Option ℤ → List NumaNode → Result PlacementError (List ℤ)
on_nodes want (some node) nodes = on_node want node nodes
on_nodes want none nodes = best want nodes (sort by_size (candidates want nodes))

abbrev pub is_known : Bytes → Bool
is_known strategy = is_nil strategy || eqb strategy (codes "same-numa")

unfoldable pub select_cpus : Topology → ℤ → Option ℤ → Bytes → Result PlacementError (List ℤ)
unfolding all_cpu_ids spread on_node candidates
select_cpus t want prefer strategy =
    let ids = all_cpu_ids t in
    if leb_ℤ want (pos 0) || leb_ℤ (pos (length ids)) want
    then ok ids
    else if not (is_known strategy)
    then err (unknown_strategy strategy)
    else if is_nil t.numa_nodes
    then ok (take (pos_part want) ids)
    else on_nodes (pos_part want) prefer t.numa_nodes

-- `first` and `seen` after the loop: `none` stands for the early returns.
unfoldable pub node_loop : List ℤ → Option ℤ → ℕ → List Cpu → Option (Option ℤ × ℕ)
node_loop want first count [] = some (first, count)
node_loop want first count (c ∷ cpus) = elim (seen c.id want) [
  | false ↦ node_loop want first count cpus
  | true ↦ elim (ltb_ℤ c.numa_node (pos 0)) [
    | true ↦ none
    | false ↦ elim first [
      | none ↦ node_loop want (some c.numa_node) (suc count) cpus
      | some node ↦ elim (eqb_ℤ node c.numa_node) [
        | true ↦ node_loop want (some node) (suc count) cpus
        | false ↦ none
      ]
    ]
  ]
]

abbrev pub agreed : List ℤ → Option (Option ℤ × ℕ) → Option ℤ
agreed want none = none
agreed want (some (none, count)) = none
agreed want (some (some node, count)) = if count == length want then some node else none

-- `none` for the results with `ok` false; a topology that is nil gives the same.
unfoldable pub primary_numa_node : Option Topology → List ℤ → Option ℤ
unfolding node_loop
primary_numa_node none cpus = none
primary_numa_node (some t) cpus =
    let want = uniq [] cpus in
    if is_nil cpus then none else agreed want (node_loop want none 0 t.cpus)
