-- ===== src/Dag/Graph/Nodes.antt =====
-- The map `byID` of `TopoOrder`, and what a vertex that waits for nothing has behind it.
use cluster_performance_engi.Base.{
  ◌≤◌, ◌≡◌, refl, true, false, List, [], ◌∷◌, arith, if◌then◌else◌, Bool-cases, ◌⊎◌, inl, inr, In,
}
use cluster_performance_engi.Base.Text.{Bytes, eqb, eqb_iff, eqb_refl}
use cluster_performance_engi.Base.Member.{has, IsDistinct, Subset}
use cluster_performance_engi.Dag.Spec.{Node, ids}
use cluster_performance_engi.Dag.Graph.{by_id_from, by_id}
use cluster_performance_engi.Dag.Graph.Counts.{missing, waits}

pub has-ids : (nodes : List Node) (n : Node) → In n nodes → has n.id (ids nodes) ≡ true
has-ids [] n h = elim h [ ]
has-ids (m ∷ nodes) n (inl e) = rw e (ground (arith, eqb_refl m.id))
has-ids (m ∷ nodes) n (inr h) = ground (arith, has-ids nodes n h)

by_id_from-id :
    (found : Node) (nodes : List Node) (x : Bytes)
    → (found.id ≡ x) ⊎ (has x (ids nodes) ≡ true)
    → (by_id_from found nodes x).id ≡ x
unfolding by_id_from
by_id_from-id found [] x (inl e) = e
by_id_from-id found [] x (inr h) = cc
by_id_from-id found (m ∷ nodes) x h =
    by_id_from-id (if eqb x m.id then m else found) nodes x (ground (arith, eqb_iff x m.id))

by_id_from-absent :
    (found : Node) (nodes : List Node) (x : Bytes)
    → has x (ids nodes) ≡ false
    → by_id_from found nodes x ≡ found
unfolding by_id_from
by_id_from-absent found [] x h = refl
by_id_from-absent found (m ∷ nodes) x h = ground (arith, by_id_from-absent found nodes x)

by_id_from_self :
    (found : Node) (nodes : List Node) (n : Node)
    → IsDistinct (ids nodes)
    → In n nodes
    → by_id_from found nodes n.id ≡ n
unfolding by_id_from
by_id_from_self found [] n h m = elim m [ ]
by_id_from_self found (m ∷ nodes) n h (inl e) =
    rw e (rw (eqb_refl m.id) (by_id_from-absent m nodes m.id h.0))
by_id_from_self found (m ∷ nodes) n h (inr later) =
    by_id_from_self (if eqb n.id m.id then m else found) nodes n h.1 later

by_id_from-In :
    (found : Node) (nodes : List Node) (x : Bytes)
    → In (by_id_from found nodes x) nodes
      ⊎ (by_id_from found nodes x ≡ found) × (has x (ids nodes) ≡ false)
unfolding by_id_from
by_id_from-In found [] x = inr (refl, refl)
by_id_from-In found (m ∷ nodes) x = elim (by_id_from-In (if eqb x m.id then m else found) nodes x) [
  | inl h ↦ inl (inr h)
  | inr (e, absent) ↦ elim (Bool-cases (eqb x m.id)) [
    | inl same ↦ inl (inl (ground arith))
    | inr other ↦ inr (ground arith, ground arith)
  ]
]

pub by_id-id : (nodes : List Node) (x : Bytes) → has x (ids nodes) ≡ true → (by_id nodes x).id ≡ x
unfolding by_id
by_id-id nodes x h = by_id_from-id _ nodes x (inr h)

pub by_id_self :
    (nodes : List Node) (n : Node) → IsDistinct (ids nodes) → In n nodes → by_id nodes n.id ≡ n
unfolding by_id
by_id_self nodes n = by_id_from_self _ nodes n

pub by_id-In : (nodes : List Node) (x : Bytes) → has x (ids nodes) ≡ true → In (by_id nodes x) nodes
unfolding by_id
by_id-In nodes x h = elim (by_id_from-In _ nodes x) [ inl m ↦ m | inr e ↦ cc (e.1) ]

missing-zero : (done deps : List Bytes) → missing done deps ≡ 0 → Subset deps done
missing-zero done [] h d m = cc
missing-zero done (e ∷ deps) h d m =
    let rest : missing done deps ≡ 0 = omega arith in
    ground (arith, missing-zero done deps rest d, eqb_iff d e)

missing-of_Subset : (done deps : List Bytes) → Subset deps done → missing done deps ≡ 0
missing-of_Subset done [] h = refl
missing-of_Subset done (e ∷ deps) h =
    ground (arith, h e, eqb_refl e, missing-of_Subset done deps (λ d m. h d (ground arith)))

missing-le-waits :
    (done : List Bytes) (nodes : List Node) (n : Node)
    → In n nodes
    → missing done n.depends_on ≤ waits done nodes n.id
missing-le-waits done [] n m = elim m [ ]
missing-le-waits done (m ∷ nodes) n (inl e) = rw e (ground (arith, eqb_refl m.id))
missing-le-waits done (m ∷ nodes) n (inr h) = omega (arith, missing-le-waits done nodes n h)

-- A node of a vertex that waits for nothing has its dependencies in `done`.
pub Subset-of_free :
    (done : List Bytes) (nodes : List Node) (n : Node)
    → In n nodes
    → waits done nodes n.id ≡ 0
    → Subset n.depends_on done
Subset-of_free done nodes n m w =
    missing-zero done n.depends_on (omega (arith, missing-le-waits done nodes n m))

pub free-of_Subset :
    (done : List Bytes) (nodes : List Node) (x : Bytes)
    → ((n : Node) → In n nodes → n.id ≡ x → Subset n.depends_on done)
    → waits done nodes x ≡ 0
free-of_Subset done [] x h = refl
free-of_Subset done (n ∷ nodes) x h = ground (
  arith,
  free-of_Subset done nodes x (λ m k. h m (inr k)),
  eqb_iff x n.id,
  λ (e : n.id ≡ x). missing-of_Subset done n.depends_on (h n (inl refl) e),
)
