-- ===== src/Plasma/Graph/Pick.antt =====
-- Which node `PickRunnable` chooses, and that it finds one as long as there is work.
use cluster_performance_engi.Base.{
  ◌≡◌, ◌↔◌, refl, true, false, List, [], ◌∷◌, some, Option, none, arith, In, Bool-cases, inl, inr,
  All-In,
}
use cluster_performance_engi.Base.Text.{Bytes, eqb_iff, eqb_refl, leb_text, leb_text_total}
use cluster_performance_engi.Base.Member.{has, Subset}
use cluster_performance_engi.Base.Sort.{sort, IsSorted, sort-IsSorted, sort-In}
use cluster_performance_engi.Dag.Spec.{Node}
use cluster_performance_engi.Dag.Graph.Order.{IsTopological, DepsFirst}
use cluster_performance_engi.Plasma.Graph.{
  by_name, all_in, is_ready, ready_nodes, first, pick_runnable,
}

-- `n` may run: it has not run and does not run, and all that it depends on is finished.
pub record IsReady (completed running : List Bytes) (n : Node) : Type 0 where
  pub not_completed : has n.id completed ≡ false
  pub not_running : has n.id running ≡ false
  pub deps_done : Subset n.depends_on completed

all_in_iff : (deps done : List Bytes) → (all_in deps done ≡ true) ↔ Subset deps done
all_in_iff [] done = ((λ h x m. cc), (λ h. refl))
all_in_iff (d ∷ deps) done =
    let (there, back) = all_in_iff deps done in
    (
      λ h x m. ground (arith, there (ground arith) x, eqb_iff x d),
      λ sub. ground (arith, sub d, eqb_refl d, back (λ x m. sub x (ground arith))),
    )

is_ready_iff :
    (completed running : List Bytes) (n : Node)
    → (is_ready completed running n ≡ true) ↔ IsReady completed running n
is_ready_iff completed running n =
    let (there, back) = all_in_iff n.depends_on completed in
    (
      λ h. record {
        not_completed = ground arith;
        not_running = ground arith;
        deps_done = there (ground arith);
      },
      λ r. let deps = back r.deps_done in ground (arith, r.not_completed, r.not_running),
    )

ready_nodes_iff :
    (nodes : List Node) (completed running : List Bytes) (n : Node)
    → In n (ready_nodes nodes completed running)
      ↔ (In n nodes × (is_ready completed running n ≡ true))
unfolding ready_nodes
ready_nodes_iff [] completed running n = ((λ h. elim h [ ]), (λ h. elim (h.0) [ ]))
ready_nodes_iff (m ∷ nodes) completed running n =
    let (there, back) = ready_nodes_iff nodes completed running n in
    elim (Bool-cases (is_ready completed running m)) [
      | inl e ↦ rw e (
        λ h. elim h [ inl p ↦ (inl p, rw p e) | inr q ↦ (inr (there q).0, (there q).1) ],
        λ h. elim (h.0) [ inl p ↦ inl p | inr q ↦ inr (back (q, h.1)) ],
      )
      | inr e ↦ rw e (
        λ h. (inr (there h).0, (there h).1),
        λ h. elim (h.0) [ inl p ↦ cc (rw p at h.1) | inr q ↦ back (q, h.1) ],
      )
    ]

-- What may be returned: a node that is ready, with the least id of those, or none if none is ready.
pub record IsChosen (nodes : List Node) (completed running : List Bytes) (n : Node) : Type 0 where
  pub is_node : In n nodes
  pub ready : IsReady completed running n
  pub least : (m : Node) → In m nodes → IsReady completed running m → leb_text n.id m.id ≡ true

abbrev pub Chooses : List Node → List Bytes → List Bytes → Option Node → Type 0
Chooses nodes completed running none = (m : Node) → In m nodes → ¬ IsReady completed running m
Chooses nodes completed running (some n) = IsChosen nodes completed running n

leb_text_refl : (s : Bytes) → leb_text s s ≡ true
leb_text_refl s = elim (Bool-cases (leb_text s s)) [ inl e ↦ e | inr e ↦ leb_text_total s s e ]

module _ (nodes : List Node) (completed running : List Bytes) where
  candidate_iff :
      (m : Node)
      → In m (sort by_name (ready_nodes nodes completed running))
        ↔ (In m nodes × IsReady completed running m)
  candidate_iff m =
      let (unsort, resort) = sort-In by_name (ready_nodes nodes completed running) m in
      let (there, back) = ready_nodes_iff nodes completed running m in
      let (ready, test) = is_ready_iff completed running m in
      (λ h. ((there (unsort h)).0, ready (there (unsort h)).1), λ h. resort (back (h.0, test h.1)))

  choose :
      (l : List Node)
      → IsSorted by_name l
      → ((m : Node) → In m l ↔ (In m nodes × IsReady completed running m))
      → Chooses nodes completed running (first l)
  choose [] sorted same = λ m m_in ready. elim ((same m).1 (m_in, ready)) [ ]
  choose (n ∷ l) sorted same = record {
    is_node = ((same n).0 (inl refl)).0;
    ready = ((same n).0 (inl refl)).1;
    least = λ m m_in ready. elim ((same m).1 (m_in, ready)) [
      | inl e ↦ rw e (leb_text_refl n.id)
      | inr k ↦ All-In (λ b. leb_text n.id b.id ≡ true) l m sorted.0 k
    ];
  }

  -- `PickRunnable` returns a node that is not finished, does not run and has all its dependencies
  -- finished, and no such node has a smaller id; it returns none only if there is no such node.
  pub pick_runnable-Chooses :
      Chooses nodes completed running (pick_runnable nodes completed running)
  unfolding pick_runnable
  pick_runnable-Chooses = choose _ (sort-IsSorted by_name _) candidate_iff

-- The nodes of an order of execution whose dependencies are finished.
all_completed :
    (completed seen : List Bytes) (nodes l : List Node)
    → ((m : Node) → In m nodes → ¬ IsReady completed [] m)
    → Subset seen completed
    → DepsFirst seen l
    → ((m : Node) → In m l → In m nodes)
    → (m : Node) → In m l
    → has m.id completed ≡ true
all_completed completed seen nodes [] idle sub ord part m h = elim h [ ]
all_completed completed seen nodes (n ∷ l) idle sub ord part m h =
    let n_done : has n.id completed ≡ true = elim (Bool-cases (has n.id completed)) [
      | inl e ↦ e
      | inr e ↦ absurd (
          idle n (part n (inl refl)) (record {
            not_completed = e;
            not_running = refl;
            deps_done = λ x k. sub x (ord.0 x k);
          }))
    ] in
    elim h [
      | inl e ↦ rw e n_done
      | inr k ↦
          all_completed completed (n.id ∷ seen) nodes l idle
            (λ x q. ground (arith, sub x, eqb_iff x n.id)) ord.1 (λ o o_in. part o (inr o_in)) m k
    ]

-- A graph that has an order of execution never gets stuck: if nothing runs and `PickRunnable`
-- returns none, every node is finished.
pub pick_runnable-progress :
    (nodes out : List Node) (completed : List Bytes)
    → IsTopological nodes out
    → pick_runnable nodes completed [] ≡ none
    → (n : Node) → In n nodes
    → has n.id completed ≡ true
pick_runnable-progress nodes out completed t e n h =
    all_completed completed [] nodes out (rw e at (pick_runnable-Chooses nodes completed []))
      (λ x k. cc) t.deps_first t.only n (t.every n h)
