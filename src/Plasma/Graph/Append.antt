-- ===== src/Plasma/Graph/Append.antt =====
-- Which branches `AppendDAG` merges into the running graph.
use cluster_performance_engi.Dag.Graph.Nodes.{has-ids}
use cluster_performance_engi.Base.{
  ℕ, ◌≡◌, ◌↔◌, refl, sym, ◌∙◌, ap, true, false, ◌||◌, List, [], ◌∷◌, ◌++◌, ok, err, arith, All, In,
  inl, inr, is_nil, >>=-eq-ok, Result, ◌⊎◌, append-nil,
}
use cluster_performance_engi.Base.Text.{Bytes, eqb_iff, eqb_refl}
use cluster_performance_engi.Base.Member.{has, IsDistinct}
use cluster_performance_engi.Dag.Spec.{Node, ids}
use cluster_performance_engi.Dag.Graph.{GraphError, topo_order}
use cluster_performance_engi.Dag.Graph.Start.{IsIteration}
use cluster_performance_engi.Dag.Graph.Order.{
  IsAcyclic, position, topo_order-IsTopological, topo_order_complete, IsTopological-IsAcyclic,
}
use cluster_performance_engi.Plasma.Graph.{
  fresh_ids, known_deps, check_added, orderable, append_dag,
}

abbrev pub HasCommand : Node → Type 0
HasCommand n = is_nil n.cmd ≡ false

has-ids_append :
    (x : Bytes) (l m : List Node) → has x (ids (l ++ m)) ≡ (has x (ids l) || has x (ids m))
has-ids_append x [] m = refl
has-ids_append x (n ∷ l) m = ground (arith, has-ids_append x l m)

fresh_ids_lem :
    (existing pending : List Bytes) (add : List Node)
    → ((n : Node) → In n add → has n.id existing ≡ false)
    → (found : List Bytes) × (fresh_ids existing pending add ≡ ok found)
      × ((x : Bytes) → has x found ≡ (has x (ids add) || has x pending))
unfolding fresh_ids
fresh_ids_lem existing pending [] fresh = (pending, refl, λ x. refl)
fresh_ids_lem existing pending (n ∷ add) fresh =
    let (found, e, same) = fresh_ids_lem existing (n.id ∷ pending) add (λ m h. fresh m (inr h)) in
    (found, rw (fresh n (inl refl)) e, λ x. same x ∙ ground arith)

known_deps_lem :
    (existing pending : List Bytes) (id : Bytes) (deps : List Bytes)
    → ((d : Bytes) → has d deps ≡ true → (has d existing || has d pending) ≡ true)
    → known_deps existing pending id deps ≡ ok tt
unfolding known_deps
known_deps_lem existing pending id [] h = refl
known_deps_lem existing pending id (d ∷ deps) h =
    ground
      (arith, h d, eqb_refl d, known_deps_lem existing pending id deps (λ x k. h x (ground arith)))

check_added_lem :
    (existing pending : List Bytes) (add : List Node)
    → All HasCommand add
    → ((n : Node)
        → In n add
        → (d : Bytes) → has d n.depends_on ≡ true
        → (has d existing || has d pending) ≡ true)
    → check_added existing pending add ≡ ok tt
unfolding check_added
check_added_lem existing pending [] c h = refl
check_added_lem existing pending (n ∷ add) c h =
    rw (c.0, known_deps_lem existing pending n.id n.depends_on (h n (inl refl)))
      (check_added_lem existing pending add c.1 (λ m k. h m (inr k)))

check_added-commands :
    (existing pending : List Bytes) (add : List Node)
    → check_added existing pending add ≡ ok tt
    → All HasCommand add
unfolding check_added
check_added-commands existing pending [] h = tt
check_added-commands existing pending (n ∷ add) h =
    let (u, e, e') =
      >>=-eq-ok (known_deps existing pending n.id n.depends_on)
        (λ _. check_added existing pending add) (ground arith) in
    (ground arith, check_added-commands existing pending add e')

In-append_right : (n : Node) (l m : List Node) → In n m → In n (l ++ m)
In-append_right n [] m h = h
In-append_right n (k ∷ l) m h = inr (In-append_right n l m h)

apart_of_distinct :
    (l m : List Node) → IsDistinct (ids (l ++ m)) → (n : Node) → In n m → has n.id (ids l) ≡ false
apart_of_distinct [] m h n n_in = refl
apart_of_distinct (k ∷ l) m h n n_in = ground (
  arith,
  apart_of_distinct l m h.1 n n_in,
  h.0,
  eqb_iff n.id k.id,
  has-ids_append k.id l m,
  has-ids m n n_in,
)

orderable-ok :
    (merged out : List Node) (r : Result GraphError (List Node))
    → orderable merged r ≡ ok out
    → (merged ≡ out) × ((order : List Node) × (r ≡ ok order))
orderable-ok merged out (ok order) h = (ground arith, (order, refl))
orderable-ok merged out (err e) h = cc

-- An empty branch changes nothing. Any other is accepted exactly if the graph with the new nodes
-- has distinct ids, knows all its dependencies and has no cycle, and each new node has a command.
pub record IsMergeable (existing add : List Node) : Type 0 where
  pub rank : Bytes → ℕ
  pub acyclic : IsAcyclic rank (existing ++ add)
  pub commands : All HasCommand add

module _ (keys : List Bytes) (existing : List Node) where
  mergeable :
      (n : Node) (add : List Node) (out : List Node)
      → IsIteration keys (existing ++ n ∷ add)
      → append_dag keys existing (n ∷ add) ≡ ok out
      → (existing ++ n ∷ add ≡ out) × IsMergeable existing (n ∷ add)
  unfolding append_dag
  mergeable n add out it h =
      let (pending, e, h') = >>=-eq-ok (fresh_ids (ids existing) [] (n ∷ add)) _ h in
      let (u, e', h'') = >>=-eq-ok (check_added (ids existing) pending (n ∷ add)) _ h' in
      let (same, (order, ordered)) =
        orderable-ok (existing ++ n ∷ add) out (topo_order keys (existing ++ n ∷ add)) h'' in
      (
        same,
        record {
          rank = λ x. position x (ids order);
          acyclic =
              IsTopological-IsAcyclic _ order (topo_order-IsTopological keys _ it order ordered);
          commands = check_added-commands (ids existing) pending (n ∷ add) e';
        },
      )

  merges :
      (n : Node) (add : List Node)
      → IsIteration keys (existing ++ n ∷ add)
      → IsMergeable existing (n ∷ add)
      → append_dag keys existing (n ∷ add) ≡ ok (existing ++ n ∷ add)
  unfolding append_dag
  merges n add it g =
      let (pending, e, same) =
        fresh_ids_lem (ids existing) [] (n ∷ add)
          (apart_of_distinct existing (n ∷ add) g.acyclic.distinct) in
      let checked = check_added_lem (ids existing) pending (n ∷ add) g.commands (λ m k d dep.
        ground (
          arith,
          same d,
          has-ids_append d existing (n ∷ add),
          g.acyclic.known m (In-append_right m existing (n ∷ add) k) d dep,
        )) in
      let (order, ordered) = topo_order_complete keys (existing ++ n ∷ add) it g.rank g.acyclic in
      rw (e, checked, ordered)

-- For keys that visit the ids of the old and the new nodes, each once: `AppendDAG` succeeds
-- exactly if nothing is added, or the graph with the new nodes has distinct ids, knows every
-- dependency and has no cycle, and each new node has a command. Its result is the old nodes
-- followed by the new ones.
pub append_dag_iff :
    (keys : List Bytes) (existing add out : List Node)
    → IsIteration keys (existing ++ add)
    → (append_dag keys existing add ≡ ok out)
      ↔ ((out ≡ existing ++ add) × ((add ≡ []) ⊎ IsMergeable existing add))
append_dag_iff keys existing [] out it = (
  λ h. (unfold append_dag in (ground (arith, append-nil existing)), inl refl),
  λ h. unfold append_dag in (ground (arith, append-nil existing, h.0)),
)
append_dag_iff keys existing (n ∷ add) out it = (
  λ h. let (same, g) = mergeable keys existing n add out it h in (sym same, inr g),
  λ (same, h). elim h [ inl e ↦ cc | inr g ↦ merges keys existing n add it g ∙ ap ok (sym same) ],
)

-- Whatever `AppendDAG` accepts, it only appends.
pub append_dag-nodes :
    (keys : List Bytes) (existing add out : List Node)
    → append_dag keys existing add ≡ ok out
    → out ≡ existing ++ add
unfolding append_dag
append_dag-nodes keys existing [] out h = ground (arith, append-nil existing)
append_dag-nodes keys existing (n ∷ add) out h =
    let (pending, e, h') = >>=-eq-ok (fresh_ids (ids existing) [] (n ∷ add)) _ h in
    let (u, e', h'') = >>=-eq-ok (check_added (ids existing) pending (n ∷ add)) _ h' in
    sym (orderable-ok (existing ++ n ∷ add) out (topo_order keys (existing ++ n ∷ add)) h'').0
