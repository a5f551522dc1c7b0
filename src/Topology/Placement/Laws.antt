-- ===== src/Topology/Placement/Laws.antt =====
-- What `SelectCPUs` and `PrimaryNUMANodeForCPUs` return.
use cluster_performance_engi.Base.{
  ℕ, suc, ◌≤◌, ◌≡◌, refl, ◌∙◌, false, not, ◌||◌, List, [], ◌∷◌, map, Option, none, some, ok, err,
  length, take, is_nil, leb, ltb, if◌then◌else◌, arith, All, length-take, Bool-cases, inl, inr, ap,
}
use cluster_performance_engi.Base.Int.{ℤ, pos, pos_part, leb_ℤ}
use cluster_performance_engi.Base.Text.{Bytes}
use cluster_performance_engi.Base.Sort.{sort, All-sort, length-sort}
use cluster_performance_engi.Topology.CpuList.{ints}
use cluster_performance_engi.Topology.Snapshot.{Cpu, NumaNode, Topology, cpus_on_node}
use cluster_performance_engi.Topology.Placement.{
  Cand, by_size, all_cpu_ids, candidates, gather, spread, best, on_node, on_nodes, is_known,
  select_cpus, unknown_strategy,
}

-- How many ids the caller gets: all of them unless it asks for fewer.
abbrev pub granted : ℤ → ℕ → ℕ
granted want total = if leb_ℤ want (pos 0) || leb_ℤ (pos total) want then total else pos_part want

take_enough :
    (want : ℕ) (l out : List ℤ)
    → ltb (length l) want ≡ false
    → out ≡ take want l
    → length out ≡ want
take_enough want l out h e = rw e (ground (arith, length-take want l))

spread-length :
    (want : ℕ) (nodes : List NumaNode) (out : List ℤ)
    → spread want nodes ≡ ok out
    → length out ≡ want
unfolding spread
spread-length want nodes out h = ground (arith, length-take want (sort ints (gather want [] nodes)))

abbrev HasSize : ℕ → Cand → Type 0
HasSize want c = want ≤ length c.cpus

candidates-HasSize : (want : ℕ) (nodes : List NumaNode) → All (HasSize want) (candidates want nodes)
unfolding candidates
candidates-HasSize want [] = tt
candidates-HasSize want (n ∷ nodes) = elim (Bool-cases (leb want (length (sort ints n.cpus)))) [
  | inl e ↦ rw e (ground (arith, e), candidates-HasSize want nodes)
  | inr e ↦ rw e (candidates-HasSize want nodes)
]

best-length :
    (want : ℕ) (nodes : List NumaNode) (cands : List Cand) (out : List ℤ)
    → All (HasSize want) cands
    → best want nodes cands ≡ ok out
    → length out ≡ want
best-length want nodes [] out h e = spread-length want nodes out e
best-length want nodes (c ∷ cands) out h e = ground (arith, length-take want c.cpus)

on_nodes-length :
    (want : ℕ) (prefer : Option ℤ) (nodes : List NumaNode) (out : List ℤ)
    → on_nodes want prefer nodes ≡ ok out
    → length out ≡ want
unfolding on_node
on_nodes-length want (some node) nodes out e =
    ground (arith, length-take want (sort ints (cpus_on_node node nodes)))
on_nodes-length want none nodes out e =
    best-length want nodes _ out
      (All-sort by_size (HasSize want) (candidates want nodes) (candidates-HasSize want nodes)) e

length-all_cpu_ids : (t : Topology) → length (all_cpu_ids t) ≡ length t.cpus
unfolding all_cpu_ids
length-all_cpu_ids t = length-sort ints (map (λ c. c.id) t.cpus) ∙ same t.cpus
  where
    same : (l : List Cpu) → length (map (λ c. c.id) l) ≡ length l
    same [] = refl
    same (c ∷ l) = ap suc (same l)

narrowed :
    (t : Topology) (want : ℕ) (prefer : Option ℤ) (strategy : Bytes) (out : List ℤ)
    → want ≤ length t.cpus
    → (if not (is_known strategy)
        then err (unknown_strategy strategy)
        else if is_nil t.numa_nodes
        then ok (take want (all_cpu_ids t))
        else on_nodes want prefer t.numa_nodes)
      ≡ ok out
    → length out ≡ want
narrowed t want prefer strategy out small h = elim (Bool-cases (is_known strategy)) [
  | inr e ↦ ground (arith, h)
  | inl e ↦ elim (Bool-cases (is_nil t.numa_nodes)) [
    | inl n ↦ ground (arith, h, length-take want (all_cpu_ids t), length-all_cpu_ids t)
    | inr n ↦ on_nodes-length want prefer t.numa_nodes out (rw (e, n) at h)
  ]
]

-- If `SelectCPUs` succeeds, it returns as many ids as were asked for, or as there are CPUs if none
-- or that many were asked for, on every path through the function.
pub select_cpus-length :
    (t : Topology) (want : ℤ) (prefer : Option ℤ) (strategy : Bytes) (out : List ℤ)
    → select_cpus t want prefer strategy ≡ ok out
    → length out ≡ granted want (length t.cpus)
unfolding select_cpus
select_cpus-length t want prefer strategy out h =
    elim (Bool-cases (leb_ℤ want (pos 0) || leb_ℤ (pos (length t.cpus)) want)) [
      | inl e ↦ ground (arith, h, length-all_cpu_ids t)
      | inr e ↦ ground (arith, length-all_cpu_ids t, narrowed t (pos_part want) prefer strategy out)
    ]
