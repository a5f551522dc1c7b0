-- ===== src/Dag/Spec/Valid.antt =====
-- Which pipelines `Validate` accepts.
use cluster_performance_engi.Base.{
  ◌≡◌, ◌↔◌, refl, false, ◌||◌, List, [], ◌∷◌, some, ok, is_nil, arith, All, ◌∙◌, >>=-eq-ok,
  Bool-cases, inl, inr,
}
use cluster_performance_engi.Base.Text.{Bytes, eqb, eqb_iff, eqb_refl}
use cluster_performance_engi.Base.Member.{has, IsDistinct, Subset}
use cluster_performance_engi.Dag.Spec.{
  Node, Pipeline, ids, is_blank, check_nodes, check_deps, check_edges, validate,
}

-- A node by itself: its id is not blank, and it has a command.
pub record IsNode (n : Node) : Type 0 where
  pub named : is_blank n.id ≡ false
  pub runs : is_nil n.cmd ≡ false

pub record IsPipeline (p : Pipeline) : Type 0 where
  pub named : is_blank p.name ≡ false
  pub distinct : IsDistinct (ids p.nodes)
  pub each : All IsNode p.nodes
  pub known : All (λ n. Subset n.depends_on (ids p.nodes)) p.nodes

-- No id of the nodes is in `seen`.
abbrev Apart : List Bytes → List Node → Type 0
Apart seen [] = Unit
Apart seen (n ∷ nodes) = (has n.id seen ≡ false) × Apart seen nodes

Apart-cons :
    (seen : List Bytes) (x : Bytes) (nodes : List Node)
    → Apart (x ∷ seen) nodes ↔ (Apart seen nodes × (has x (ids nodes) ≡ false))
Apart-cons seen x [] = ((λ _. (tt, refl)), (λ _. tt))
Apart-cons seen x (n ∷ nodes) =
    let (there, back) = Apart-cons seen x nodes in
    (
      λ (e, h). ground (arith, there h, eqb_iff x n.id, eqb_iff n.id x),
      λ h. ground (arith, eqb_iff x n.id, eqb_iff n.id x, back),
    )

check_nodes_sound :
    (seen : List Bytes) (nodes : List Node) (found : List Bytes)
    → check_nodes seen nodes ≡ ok found
    → Apart seen nodes
      × IsDistinct (ids nodes)
      × All IsNode nodes
      × ((x : Bytes) → has x found ≡ (has x (ids nodes) || has x seen))
unfolding check_nodes
check_nodes_sound seen [] found h = (tt, tt, tt, λ x. ground arith)
check_nodes_sound seen (n ∷ nodes) found h =
    let rest = check_nodes_sound (n.id ∷ seen) nodes found (ground arith) in
    let (apart, fresh) = (Apart-cons seen n.id nodes).0 rest.0 in
    (
      (ground arith, apart),
      (fresh, rest.1),
      (record { named = ground arith; runs = ground arith }, rest.2),
      λ x. rest.3 x ∙ ground arith,
    )

check_nodes_complete :
    (seen : List Bytes) (nodes : List Node)
    → Apart seen nodes
    → IsDistinct (ids nodes)
    → All IsNode nodes
    → (found : List Bytes) × (check_nodes seen nodes ≡ ok found)
unfolding check_nodes
check_nodes_complete seen [] apart distinct each = (seen, refl)
check_nodes_complete seen (n ∷ nodes) apart distinct each =
    let (found, e) =
      check_nodes_complete (n.id ∷ seen) nodes
        ((Apart-cons seen n.id nodes).1 (apart.1, distinct.0)) distinct.1 each.1 in
    (found, rw (each.0.named, apart.0, each.0.runs) e)

check_deps_iff :
    (seen : List Bytes) (id : Bytes) (deps : List Bytes)
    → (check_deps seen id deps ≡ ok tt) ↔ Subset deps seen
unfolding check_deps
check_deps_iff seen id [] = ((λ h x m. cc), (λ h. refl))
check_deps_iff seen id (d ∷ deps) =
    let (there, back) = check_deps_iff seen id deps in
    (
      λ h x m. elim (Bool-cases (eqb x d)) [
        | inl e ↦ ground (arith, eqb_iff x d)
        | inr e ↦ there (ground arith) x (ground arith)
      ],
      λ sub. ground (arith, sub d, eqb_refl d, back (λ x m. sub x (ground arith))),
    )

check_edges_iff :
    (seen : List Bytes) (nodes : List Node)
    → (check_edges seen nodes ≡ ok tt) ↔ All (λ n. Subset n.depends_on seen) nodes
unfolding check_edges
check_edges_iff seen [] = ((λ h. tt), (λ h. refl))
check_edges_iff seen (n ∷ nodes) =
    let (there, back) = check_edges_iff seen nodes in
    let deps = check_deps_iff seen n.id n.depends_on in
    (
      λ h.
          let (u, e, e') =
            >>=-eq-ok (check_deps seen n.id n.depends_on) (λ _. check_edges seen nodes) h in
          (deps.0 e, there e'),
      λ all. rw (deps.1 all.0) (back all.1),
    )

All-map_Subset :
    (l m : List Bytes) (nodes : List Node)
    → Subset l m
    → All (λ n. Subset n.depends_on l) nodes
    → All (λ n. Subset n.depends_on m) nodes
All-map_Subset l m [] sub h = tt
All-map_Subset l m (n ∷ nodes) sub h = ((λ x k. sub x (h.0 x k)), All-map_Subset l m nodes sub h.1)

Apart-nil : (nodes : List Node) → Apart [] nodes
Apart-nil [] = tt
Apart-nil (n ∷ nodes) = (refl, Apart-nil nodes)

-- `Validate` accepts exactly the pipelines with a name that is not blank, distinct ids that are
-- not blank, a command in each node, and no dependency on an id that no node has. A text is blank
-- if `strings.TrimSpace`, which removes Unicode's white space, leaves nothing of it.
pub validate_iff : (p : Pipeline) → (validate (some p) ≡ ok tt) ↔ IsPipeline p
unfolding validate
validate_iff p = (there, back)
  where
    there : validate (some p) ≡ ok tt → IsPipeline p
    there h =
        let (found, e, e') =
          >>=-eq-ok (check_nodes [] p.nodes) (λ s. check_edges s p.nodes) (ground arith) in
        let (apart, distinct, each, same) = check_nodes_sound [] p.nodes found e in
        record {
          named = ground arith;
          distinct = distinct;
          each = each;
          known =
              All-map_Subset found (ids p.nodes) p.nodes (λ x m. ground (arith, same x))
                ((check_edges_iff found p.nodes).0 e');
        }

    back : IsPipeline p → validate (some p) ≡ ok tt
    back v =
        let (found, e) = check_nodes_complete [] p.nodes (Apart-nil p.nodes) v.distinct v.each in
        let same = (check_nodes_sound [] p.nodes found e).3 in
        rw (v.named, e)
          ((check_edges_iff found p.nodes).1
            (All-map_Subset (ids p.nodes) found p.nodes (λ x m. ground (arith, same x)) v.known))
