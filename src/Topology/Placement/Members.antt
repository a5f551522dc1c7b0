-- ===== src/Topology/Placement/Members.antt =====
-- `SelectCPUs` returns CPUs of the snapshot.
use cluster_performance_engi.Base.{
  ℕ, suc, zero, ◌≡◌, refl, ◌||◌, List, [], ◌∷◌, ◌++◌, Option, none, some, ok, length, take, leb,
  ltb, arith, All, In, Bool-cases, inl, inr, All-append,
}
use cluster_performance_engi.Base.Int.{ℤ, pos, pos_part, leb_ℤ, eqb_ℤ}
use cluster_performance_engi.Base.Text.{Bytes}
use cluster_performance_engi.Base.Sort.{sort, All-sort}
use cluster_performance_engi.Topology.CpuList.{ints}
use cluster_performance_engi.Topology.Snapshot.{NumaNode, Topology, cpus_on_node}
use cluster_performance_engi.Topology.Placement.{
  Cand, by_size, all_cpu_ids, candidates, fill, gather, spread, best, on_node, on_nodes,
  select_cpus,
}

-- Every CPU of a node is in the snapshot.
abbrev pub IsConsistent : Topology → Type 0
IsConsistent t = All (λ n. All (λ i. In i (all_cpu_ids t)) n.cpus) t.numa_nodes

All-take : (P : ℤ → Type 0) (n : ℕ) (l : List ℤ) → All P l → All P (take n l)
All-take P zero l h = tt
All-take P (suc n) [] h = tt
All-take P (suc n) (x ∷ l) h = (h.0, All-take P n l h.1)

module _ (P : ℤ → Type 0) where
  abbrev NodesHave : List NumaNode → Type 0
  NodesHave nodes = All (λ n. All P n.cpus) nodes

  All-fill : (want : ℕ) (acc cp : List ℤ) → All P acc → All P cp → All P (fill want acc cp)
  unfolding fill
  All-fill want acc [] h k = h
  All-fill want acc (id ∷ cp) h k = elim (Bool-cases (leb want (length acc))) [
    | inl e ↦ rw e h
    | inr e ↦ rw e (All-fill want (acc ++ id ∷ []) cp (All-append P acc (id ∷ []) h (k.0, tt)) k.1)
  ]

  All-gather :
      (want : ℕ) (acc : List ℤ) (nodes : List NumaNode)
      → All P acc
      → NodesHave nodes
      → All P (gather want acc nodes)
  unfolding gather
  All-gather want acc [] h k = h
  All-gather want acc (n ∷ nodes) h k =
      let acc' = fill want acc (sort ints n.cpus) in
      let h' = All-fill want acc (sort ints n.cpus) h (All-sort ints P n.cpus k.0) in
      elim (Bool-cases (leb want (length acc'))) [
        | inl e ↦ rw e h'
        | inr e ↦ rw e (All-gather want acc' nodes h' k.1)
      ]

  All-candidates :
      (want : ℕ) (nodes : List NumaNode)
      → NodesHave nodes
      → All (λ c. All P c.cpus) (candidates want nodes)
  unfolding candidates
  All-candidates want [] k = tt
  All-candidates want (n ∷ nodes) k = elim (Bool-cases (leb want (length (sort ints n.cpus)))) [
    | inl e ↦ rw e (All-sort ints P n.cpus k.0, All-candidates want nodes k.1)
    | inr e ↦ rw e (All-candidates want nodes k.1)
  ]

  All-cpus_on_node :
      (node : ℤ) (nodes : List NumaNode) → NodesHave nodes → All P (cpus_on_node node nodes)
  unfolding cpus_on_node
  All-cpus_on_node node [] k = tt
  All-cpus_on_node node (n ∷ nodes) k = elim (Bool-cases (eqb_ℤ n.id node)) [
    | inl e ↦ rw e (k.0)
    | inr e ↦ rw e (All-cpus_on_node node nodes k.1)
  ]

  All-spread :
      (want : ℕ) (nodes : List NumaNode) (out : List ℤ)
      → NodesHave nodes
      → spread want nodes ≡ ok out
      → All P out
  unfolding spread
  All-spread want nodes out k e =
      let acc = sort ints (gather want [] nodes) in
      let h = All-take P want acc (All-sort ints P _ (All-gather want [] nodes tt k)) in
      elim (Bool-cases (ltb (length acc) want)) [
        | inl s ↦ ground (arith, e)
        | inr s ↦ ground (arith, e, h)
      ]

  All-best :
      (want : ℕ) (nodes : List NumaNode) (cands : List Cand) (out : List ℤ)
      → NodesHave nodes
      → All (λ c. All P c.cpus) cands
      → best want nodes cands ≡ ok out
      → All P out
  All-best want nodes [] out k h e = All-spread want nodes out k e
  All-best want nodes (c ∷ cands) out k h e = ground (arith, e, All-take P want c.cpus h.0)

  All-on_nodes :
      (want : ℕ) (prefer : Option ℤ) (nodes : List NumaNode) (out : List ℤ)
      → NodesHave nodes
      → on_nodes want prefer nodes ≡ ok out
      → All P out
  unfolding on_node
  All-on_nodes want (some node) nodes out k e =
      let cpus = sort ints (cpus_on_node node nodes) in
      let h = All-take P want cpus (All-sort ints P _ (All-cpus_on_node node nodes k)) in
      elim (Bool-cases (ltb (length cpus) want)) [
        | inl s ↦ ground (arith, e)
        | inr s ↦ ground (arith, e, h)
      ]
  All-on_nodes want none nodes out k e =
      All-best want nodes _ out k (All-sort by_size _ _ (All-candidates want nodes k)) e

All-self : (l m : List ℤ) → ((i : ℤ) → In i l → In i m) → All (λ i. In i m) l
All-self [] m h = tt
All-self (x ∷ l) m h = (h x (inl refl), All-self l m (λ i k. h i (inr k)))

-- For a snapshot whose nodes hold CPUs of the snapshot: if `SelectCPUs` succeeds, every id that it
-- returns is a CPU of the snapshot, on every path through the function.
pub select_cpus-In :
    (t : Topology) (want : ℤ) (prefer : Option ℤ) (strategy : Bytes) (out : List ℤ)
    → IsConsistent t
    → select_cpus t want prefer strategy ≡ ok out
    → All (λ i. In i (all_cpu_ids t)) out
unfolding select_cpus
select_cpus-In t want prefer strategy out k h =
    let ids = all_cpu_ids t in
    let own = All-self ids ids (λ i m. m) in
    let cut = All-take (λ i. In i ids) (pos_part want) ids own in
    let nodes = All-on_nodes (λ i. In i ids) (pos_part want) prefer t.numa_nodes out k in
    elim (Bool-cases (leb_ℤ want (pos 0) || leb_ℤ (pos (length ids)) want)) [
      | inl e ↦ ground (arith, h, own)
      | inr e ↦ ground (arith, h, cut, nodes)
    ]
