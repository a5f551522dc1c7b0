-- ===== src/Dag/Graph/Order.antt =====
-- What `TopoOrder` promises: which graphs it accepts, and what order it returns.
use cluster_performance_engi.Base.{
  ℕ, zero, suc, ◌+◌, ◌≤◌, ◌<◌, ◌≡◌, ◌≢◌, refl, sym, ◌∙◌, ap, true, ◌||◌, List, [], ◌∷◌, map, some,
  length, arith, if◌then◌else◌, Bool-cases, ◌⊎◌, inl, inr, In, ok, err, ==_iff,
}
use cluster_performance_engi.Base.Text.{Bytes, eqb, eqb_iff, eqb_refl}
use cluster_performance_engi.Base.Member.{
  has, IsDistinct, Subset, length-le-of_Subset, Subset-of_full, IsDistinct-of_full,
}
use mathlib.Core.Path.{ap₂}
use cluster_performance_engi.Dag.Spec.{Node, ids}
use cluster_performance_engi.Dag.Graph.{by_id, topo_order, check_length, out_of_fuel}
use cluster_performance_engi.Dag.Graph.Trail.{visited, InOrder, Outcome}
use cluster_performance_engi.Dag.Graph.Start.{
  IsIteration, length-ids, found, found-Outcome, topo_order-found,
}
use cluster_performance_engi.Dag.Graph.Nodes.{
  has-ids, by_id-id, by_id_self, by_id-In, Subset-of_free, free-of_Subset,
}

-- The dependencies of each node are in `seen` or stand before it.
abbrev pub DepsFirst : List Bytes → List Node → Type 0
DepsFirst seen [] = Unit
DepsFirst seen (n ∷ nodes) = Subset n.depends_on seen × DepsFirst (n.id ∷ seen) nodes

-- `out` is an order of execution of the graph `nodes`, which has distinct ids.
pub record IsTopological (nodes out : List Node) : Type 0 where
  pub distinct : IsDistinct (ids nodes)
  pub out_distinct : IsDistinct (ids out)
  pub same_length : length out ≡ length nodes
  pub only : (n : Node) → In n out → In n nodes
  pub every : (n : Node) → In n nodes → In n out
  pub deps_first : DepsFirst [] out

has-visited : (x : Bytes) (done l : List Bytes) → has x (visited done l) ≡ (has x l || has x done)
has-visited x done [] = refl
has-visited x done (y ∷ l) = has-visited x (y ∷ done) l ∙ ground arith

length-visited : (done l : List Bytes) → length (visited done l) ≡ length l + length done
length-visited done [] = omega arith
length-visited done (y ∷ l) = omega (arith, length-visited (y ∷ done) l)

length-map-by_id : (nodes : List Node) (l : List Bytes) → length (map (by_id nodes) l) ≡ length l
length-map-by_id nodes [] = refl
length-map-by_id nodes (x ∷ l) = ap suc (length-map-by_id nodes l)

In-map :
    (nodes : List Node) (l : List Bytes) (x : Bytes)
    → has x l ≡ true
    → In (by_id nodes x) (map (by_id nodes) l)
In-map nodes [] x h = cc
In-map nodes (y ∷ l) x h = elim (Bool-cases (eqb x y)) [
  | inl e ↦ inl (ap (by_id nodes) ((eqb_iff x y).0 e))
  | inr e ↦ inr (In-map nodes l x (ground arith))
]

In-of_map :
    (nodes : List Node) (l : List Bytes) (n : Node)
    → Subset l (ids nodes)
    → In n (map (by_id nodes) l)
    → In n nodes
In-of_map nodes [] n sub h = elim h [ ]
In-of_map nodes (y ∷ l) n sub (inl e) = rw e (by_id-In nodes y (sub y (ground (arith, eqb_refl y))))
In-of_map nodes (y ∷ l) n sub (inr h) = In-of_map nodes l n (λ x k. sub x (ground arith)) h

InOrder-DepsFirst :
    (nodes : List Node) (done l : List Bytes)
    → Subset l (ids nodes)
    → InOrder nodes done l
    → DepsFirst done (map (by_id nodes) l)
InOrder-DepsFirst nodes done [] sub h = tt
InOrder-DepsFirst nodes done (x ∷ l) sub h =
    let known = sub x (ground (arith, eqb_refl x)) in
    let same = by_id-id nodes x known in
    (
      Subset-of_free done nodes (by_id nodes x) (by_id-In nodes x known) (rw same h.0),
      rw same (InOrder-DepsFirst nodes (x ∷ done) l (λ y k. sub y (ground arith)) h.1),
    )

ids-map :
    (nodes : List Node) (l : List Bytes) → Subset l (ids nodes) → ids (map (by_id nodes) l) ≡ l
ids-map nodes [] sub = refl
ids-map nodes (x ∷ l) sub =
    ap₂ (λ y m. y ∷ m) (by_id-id nodes x (sub x (ground (arith, eqb_refl x))))
      (ids-map nodes l (λ z h. sub z (ground arith)))

check_length-ok :
    (nodes ordered : List Node) {out : List Node}
    → check_length nodes (some ordered) ≡ ok out
    → (length ordered ≡ length nodes) × (ordered ≡ out)
unfolding check_length
check_length-ok nodes ordered h = ground arith

module _ (keys : List Bytes) (nodes : List Node) (it : IsIteration keys nodes) where
  outcome : Outcome nodes keys [] (found keys nodes)
  outcome = found-Outcome keys nodes it

  found_known : Subset (found keys nodes) (ids nodes)
  found_known x h =
      it.keys_known x (outcome.within x (has-visited x [] (found keys nodes) ∙ ground arith))

  met_found :
      (x : Bytes) → has x (visited [] (found keys nodes)) ≡ true → has x (found keys nodes) ≡ true
  met_found x h = ground (arith, has-visited x [] (found keys nodes))

  IsDistinct-found : IsDistinct (found keys nodes)
  IsDistinct-found =
      IsDistinct-of_full (visited [] (found keys nodes)) (found keys nodes) outcome.distinct
        met_found (omega (arith, length-visited [] (found keys nodes)))

  length-found : length (visited [] (found keys nodes)) ≡ length (found keys nodes)
  length-found = omega (arith, length-visited [] (found keys nodes))

  -- For keys that visit the ids of the graph, each once: what `TopoOrder` returns is an order of
  -- execution. It has the nodes of the graph, each after all that it depends on, and the ids of
  -- the graph are distinct.
  pub topo_order-IsTopological :
      (out : List Node) → topo_order keys nodes ≡ ok out → IsTopological nodes out
  topo_order-IsTopological out e =
      let t = found keys nodes in
      let (len, same) =
        check_length-ok nodes (map (by_id nodes) t) (sym (topo_order-found keys nodes it) ∙ e) in
      let full : length (ids nodes) ≤ length (visited [] t) =
        omega (arith, length-ids nodes, length-map-by_id nodes t, length-found) in
      let sub : Subset (visited [] t) (ids nodes) = λ x h. it.keys_known x (outcome.within x h) in
      let distinct = IsDistinct-of_full (visited [] t) (ids nodes) outcome.distinct sub full in
      rw (← same) (record {
        distinct = distinct;
        out_distinct = rw (ids-map nodes t found_known) (IsDistinct-found);
        same_length = len;
        only = λ n. In-of_map nodes t n found_known;
        every = λ n h.
            let met =
              Subset-of_full (visited [] t) (ids nodes) outcome.distinct sub full n.id
                (has-ids nodes n h) in
            rw (by_id_self nodes n distinct h) at (In-map nodes t n.id (met_found n.id met));
        deps_first = InOrder-DepsFirst nodes [] t found_known outcome.in_order;
      })

-- A graph that can be ordered: the ids are distinct, the dependencies are ids, and a rank falls
-- along them, so that no dependency leads back.
pub record IsAcyclic (rank : Bytes → ℕ) (nodes : List Node) : Type 0 where
  pub distinct : IsDistinct (ids nodes)
  pub known : (n : Node) → In n nodes → Subset n.depends_on (ids nodes)
  pub falls : (n : Node) → In n nodes → (d : Bytes) → has d n.depends_on ≡ true → rank d < rank n.id

module _ (keys : List Bytes) (nodes : List Node) (it : IsIteration keys nodes) (rank : Bytes → ℕ)
    (graph : IsAcyclic rank nodes) where
  placed : List Bytes
  placed = visited [] (found keys nodes)

  all_placed : (k : ℕ) (x : Bytes) → rank x < k → has x (ids nodes) ≡ true → has x placed ≡ true
  unfolding placed
  all_placed zero x h m = absurd (omega arith)
  all_placed (suc k) x h m = (outcome keys nodes it).closed x (it.all_keys x m) (
      free-of_Subset placed nodes x λ n k_in e d dep.
        let lower = graph.falls n k_in d dep in
        let lower' = rw e at lower in
        all_placed k d (omega (arith, lower')) (graph.known n k_in d dep))

  -- For keys that visit the ids of the graph, each once: `TopoOrder` returns an order for every
  -- graph with distinct ids and known dependencies on which some rank falls along each dependency.
  pub topo_order_complete : (out : List Node) × (topo_order keys nodes ≡ ok out)
  unfolding placed check_length
  topo_order_complete =
      let t = found keys nodes in
      let long =
        length-le-of_Subset (ids nodes) placed graph.distinct
          (λ x. all_placed (suc (rank x)) x (omega arith)) in
      let short =
        length-le-of_Subset placed (ids nodes) (outcome keys nodes it).distinct
          (λ x h. it.keys_known x ((outcome keys nodes it).within x h)) in
      let same : length (map (by_id nodes) t) ≡ length nodes = omega (
        arith,
        long,
        short,
        length-ids nodes,
        length-map-by_id nodes t,
        length-found keys nodes it,
      ) in
      (map (by_id nodes) t, topo_order-found keys nodes it ∙ (rw ((==_iff _ _).1 same)))

-- The position of an id in a list.
pub position : Bytes → List Bytes → ℕ
position x [] = 0
position x (y ∷ l) = if eqb x y then 0 else suc (position x l)

position-falls :
    (seen : List Bytes) (l : List Node) (n : Node) (d : Bytes)
    → IsDistinct (ids l)
    → DepsFirst seen l
    → In n l
    → has d n.depends_on ≡ true
    → (has d seen ≡ true) ⊎ (position d (ids l) < position n.id (ids l))
unfolding position
position-falls seen [] n d dis ord m h = elim m [ ]
position-falls seen (k ∷ l) n d dis ord (inl e) h = inl (ord.0 d (rw e at h))
position-falls seen (k ∷ l) n d dis ord (inr m) h = ground (
  arith,
  position-falls (k.id ∷ seen) l n d dis.1 ord.1 m h,
  has-ids l n m,
  dis.0,
  eqb_iff n.id k.id,
  eqb_iff d k.id,
)

node_of_id : (l : List Node) (x : Bytes) → has x (ids l) ≡ true → (n : Node) × In n l × (n.id ≡ x)
node_of_id [] x h = cc
node_of_id (k ∷ l) x h = elim (Bool-cases (eqb x k.id)) [
  | inl e ↦ (k, inl refl, sym ((eqb_iff x k.id).0 e))
  | inr e ↦ let (n, m, same) = node_of_id l x (ground arith) in (n, inr m, same)
]

DepsFirst-known :
    (seen : List Bytes) (l : List Node) (n : Node) (d : Bytes)
    → DepsFirst seen l
    → In n l
    → has d n.depends_on ≡ true
    → (has d seen || has d (ids l)) ≡ true
DepsFirst-known seen [] n d ord m h = elim m [ ]
DepsFirst-known seen (k ∷ l) n d ord (inl e) h = ground (arith, ord.0 d (rw e at h))
DepsFirst-known seen (k ∷ l) n d ord (inr m) h =
    ground (arith, DepsFirst-known (k.id ∷ seen) l n d ord.1 m h)

-- An order of execution ranks its graph.
pub IsTopological-IsAcyclic :
    (nodes out : List Node) → IsTopological nodes out → IsAcyclic (λ x. position x (ids out)) nodes
IsTopological-IsAcyclic nodes out t = record {
  distinct = t.distinct;
  known = λ n m d h.
      let (k, k_in, same) =
        node_of_id out d (DepsFirst-known [] out n d t.deps_first (t.every n m) h) in
      rw (← same) (has-ids nodes k (t.only k k_in));
  falls = λ n m d h. elim (position-falls [] out n d t.out_distinct t.deps_first (t.every n m) h) [
    | inl e ↦ cc
    | inr lt ↦ lt
  ];
}

-- Whether `TopoOrder` accepts a graph does not depend on the order in which Go visits the map of
-- degrees: if it succeeds for one order of the ids, each once, it succeeds for any other.
pub topo_order-any_iteration :
    (keys keys' : List Bytes) (nodes out : List Node)
    → IsIteration keys nodes
    → IsIteration keys' nodes
    → topo_order keys nodes ≡ ok out
    → (out' : List Node) × (topo_order keys' nodes ≡ ok out')
topo_order-any_iteration keys keys' nodes out it it' e =
    topo_order_complete keys' nodes it' (λ x. position x (ids out))
      (IsTopological-IsAcyclic nodes out (topo_order-IsTopological keys nodes it out e))

-- For keys that visit the ids of the graph, each once: the loop of `TopoOrder` ends within one
-- round for each node and one more, also on a graph with cycles.
pub topo_order-has_fuel :
    (keys : List Bytes) (nodes : List Node)
    → IsIteration keys nodes
    → topo_order keys nodes ≢ err out_of_fuel
unfolding check_length
topo_order-has_fuel keys nodes it e = ground (arith, topo_order-found keys nodes it)
