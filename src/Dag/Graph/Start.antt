-- ===== src/Dag/Graph/Start.antt =====
-- `TopoOrder` as a whole: the loop starts in its invariant, whatever order Go visits the map in.
use cluster_performance_engi.Base.{
  ℕ, suc, ◌+◌, ◌≤◌, ◌<◌, ◌≡◌, refl, ap, true, false, List, [], ◌∷◌, map, some, length, arith,
  if◌then◌else◌, ◌==◌,
}
use cluster_performance_engi.Base.Int.{pos, max_int}
use cluster_performance_engi.Base.Text.{Bytes, eqb_iff}
use cluster_performance_engi.Base.Member.{has, IsDistinct, Subset, length-le-of_Subset}
use cluster_performance_engi.Dag.Spec.{Node, ids}
use cluster_performance_engi.Dag.Graph.{
  Degrees, by_id, in_degrees, sources, check_length, topo_order,
}
use cluster_performance_engi.Dag.Graph.Counts.{waits, edge_count, in_degrees-waits}
use cluster_performance_engi.Dag.Graph.Trail.{trail, Inv, Outcome, drain-trail, trail-Outcome}

-- `keys` lists the keys of the map `inDeg`, each once: an order in which Go may visit it. The edges
-- can be counted in an `int`.
pub record IsIteration (keys : List Bytes) (nodes : List Node) : Type 0 where
  pub distinct : IsDistinct keys
  pub keys_known : Subset keys (ids nodes)
  pub all_keys : Subset (ids nodes) keys
  pub countable : edge_count nodes ≤ max_int

pub waits-known : (nodes : List Node) (x : Bytes) → 0 < waits [] nodes x → has x (ids nodes) ≡ true
waits-known [] x h = absurd (omega arith)
waits-known (n ∷ nodes) x h = ground (arith, waits-known nodes x)

module _ (deg : Degrees) (c : Bytes → ℕ) (degs : (x : Bytes) → deg x ≡ pos (c x)) where
  sources-mem :
      (keys : List Bytes) (x : Bytes)
      → has x (sources keys deg) ≡ (if c x == 0 then has x keys else false)
  unfolding sources
  sources-mem [] x = ground arith
  sources-mem (k ∷ keys) x = ground (arith, sources-mem keys x, degs k, degs x, eqb_iff x k)

  sources-IsDistinct : (keys : List Bytes) → IsDistinct keys → IsDistinct (sources keys deg)
  unfolding sources
  sources-IsDistinct [] h = tt
  sources-IsDistinct (k ∷ keys) h =
      ground (arith, sources-IsDistinct keys h.1, sources-mem keys k, h.0)

pub start_Inv :
    (keys : List Bytes) (nodes : List Node)
    → IsIteration keys nodes
    → let deg = in_degrees nodes (λ _. pos 0) in Inv nodes keys [] deg (sources keys deg)
start_Inv keys nodes it =
    let deg = in_degrees nodes (λ _. pos 0) in
    let degs = λ (x : Bytes). in_degrees-waits nodes x it.countable in
    let mem = sources-mem deg (waits [] nodes) degs keys in
    record {
      degs = degs;
      distinct = sources-IsDistinct deg (waits [] nodes) degs keys it.distinct;
      done_distinct = tt;
      apart = λ x h. refl;
      done_free = λ x h. cc;
      free = λ x h. ground (arith, mem x);
      complete = λ x k w. ground (arith, mem x);
      within = λ x h. ground (arith, mem x);
      done_within = λ x h. cc;
    }

-- What the loop finds, started by `topo_order`.
pub found : List Bytes → List Node → List Bytes
found keys nodes =
    let deg = in_degrees nodes (λ _. pos 0) in
    trail (suc (length nodes)) nodes deg (sources keys deg)

pub length-ids : (nodes : List Node) → length (ids nodes) ≡ length nodes
length-ids [] = refl
length-ids (n ∷ nodes) = ap suc (length-ids nodes)

module _ (keys : List Bytes) (nodes : List Node) (it : IsIteration keys nodes) where
  known : (x : Bytes) → 0 < waits [] nodes x → has x keys ≡ true
  known x h = it.all_keys x (waits-known nodes x h)

  enough : length keys < suc (length nodes) + length {A = Bytes} []
  enough =
      omega
        (arith, length-le-of_Subset keys (ids nodes) it.distinct it.keys_known, length-ids nodes)

  pub found-Outcome : Outcome nodes keys [] (found keys nodes)
  unfolding found
  found-Outcome = trail-Outcome nodes keys known _ [] _ _ (start_Inv keys nodes it) enough

  pub topo_order-found :
      topo_order keys nodes ≡ check_length nodes (some (map (by_id nodes) (found keys nodes)))
  unfolding topo_order found
  topo_order-found =
      ap (check_length nodes)
        (drain-trail nodes keys known _ [] _ _ [] (start_Inv keys nodes it) enough)
