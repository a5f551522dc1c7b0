-- ===== src/Topology/Discover/Located.antt =====
-- The node that `Discover` gives a CPU lists that CPU.
use cluster_performance_engi.Base.{
  ℕ, ◌≡◌, refl, sym, ◌∙◌, subst, Bool, true, false, ◌⊎◌, inl, inr, List, [], ◌∷◌, map, Option, none,
  some, Result, ok, err, if◌then◌else◌, arith, All, In, Bool-cases, All-In,
}
use cluster_performance_engi.Base.Int.{ℤ, pos, negsuc, eqb_ℤ, eqb_ℤ_iff, leb_ℤ}
use cluster_performance_engi.Base.Text.{Bytes}
use cluster_performance_engi.Base.Files.{Entry}
use cluster_performance_engi.Base.Sort.{sort, sort-In}
use cluster_performance_engi.Topology.CpuList.{seen}
use cluster_performance_engi.Topology.Snapshot.{NumaNode, Topology, by_id}
use cluster_performance_engi.Topology.Located.{Lists, IsLocated}
use cluster_performance_engi.Topology.Discover.{
  by_id, value_or, NumaCpus, set_node, cpu_numa, or_else, node_entry, numa_cpus, numa_node,
  numa_nodes, cpu_of, topology_of, node_dirs, discovered, present_read, parsed_list, discover,
  present_path, add_node, set_entry,
}

pub seen-In : (id : ℤ) (l : List ℤ) → seen id l ≡ true → In id l
seen-In id [] h = cc
seen-In id (x ∷ l) h = elim (Bool-cases (eqb_ℤ id x)) [
  | inl e ↦ inl ((eqb_ℤ_iff id x).0 e)
  | inr e ↦ inr (seen-In id l (ground arith))
]

-- A node that the map holds is one of `nodes`.
abbrev IsOf : List NumaNode → ℤ × List ℤ → Type 0
IsOf nodes e = (n : NumaNode) × In n nodes × (n.id ≡ e.0) × (n.cpus ≡ e.1)

All-set_node :
    (P : ℤ × List ℤ → Type 0) (e : ℤ × List ℤ) (m : NumaCpus) → P e → All P m → All P (set_node e m)
unfolding set_node
All-set_node P e [] p h = (p, tt)
All-set_node P e (d ∷ m) p h = elim (Bool-cases (eqb_ℤ d.0 e.0)) [
  | inl same ↦ rw same (p, h.1)
  | inr other ↦ rw other (h.0, All-set_node P e m p h.1)
]

-- An id that the map gives a CPU is the id of a node that lists it.
abbrev IsFrom : NumaCpus → ℤ → ℤ → Type 0
IsFrom m id nid = (e : ℤ × List ℤ) × In e m × (e.0 ≡ nid) × (seen id e.1 ≡ true)

or_else-eq :
    (o : Option ℤ) (b : Bool) (k n : ℤ)
    → or_else o (if b then some k else none) ≡ some n
    → (o ≡ some n) ⊎ ((k ≡ n) × (b ≡ true))
or_else-eq (some m) b k n h = inl h
or_else-eq none true k n h = inr (cc, refl)
or_else-eq none false k n h = cc

cpu_numa-IsFrom : (m : NumaCpus) (id n : ℤ) → cpu_numa m id ≡ some n → IsFrom m id n
unfolding cpu_numa
cpu_numa-IsFrom [] id n h = cc
cpu_numa-IsFrom (e ∷ m) id n h = elim (or_else-eq (cpu_numa m id) (seen id e.1) e.0 n h) [
  | inl later ↦
      let (d, there, same, lists) = cpu_numa-IsFrom m id n later in (d, inr there, same, lists)
  | inr (same, here) ↦ (e, inl refl, same, here)
]

module _ {E : Type 0} (fuel : ℕ) (read_file : Bytes → Result E Bytes) where
  set_entry-IsOf :
      (nodes : List NumaNode) (ent : Entry) (o : Option (ℤ × List ℤ)) (found : List NumaNode)
      (m : NumaCpus)
      → ((n : NumaNode) → In n (add_node fuel read_file ent o found) → In n nodes)
      → All (IsOf nodes) m
      → All (IsOf nodes) (set_entry o m)
  set_entry-IsOf nodes ent none found m k h = h
  set_entry-IsOf nodes ent (some e) found m k h =
      let n = numa_node fuel read_file ent e in
      All-set_node (IsOf nodes) e m (n, k n (inl refl), refl, refl) h

  add_node-In :
      (ent : Entry) (o : Option (ℤ × List ℤ)) (found : List NumaNode) (n : NumaNode)
      → In n found
      → In n (add_node fuel read_file ent o found)
  add_node-In ent none found n h = h
  add_node-In ent (some e) found n h = inr h

  numa_cpus-IsOf :
      (nodes : List NumaNode) (m : NumaCpus) (dirs : List Entry)
      → ((n : NumaNode) → In n (numa_nodes fuel read_file dirs) → In n nodes)
      → All (IsOf nodes) m
      → All (IsOf nodes) (numa_cpus fuel read_file m dirs)
  unfolding numa_cpus numa_nodes
  numa_cpus-IsOf nodes m [] k h = h
  numa_cpus-IsOf nodes m (ent ∷ dirs) k h =
      let o = node_entry fuel read_file ent in
      let found = numa_nodes fuel read_file dirs in
      numa_cpus-IsOf nodes (set_entry o m) dirs (λ n i. k n (add_node-In ent o found n i))
        (set_entry-IsOf nodes ent o found m k h)

  module _ (order : NumaCpus → NumaCpus)
      (kept : (m : NumaCpus) (e : ℤ × List ℤ) → In e (order m) → In e m) where
    located :
        (nodes : List NumaNode) (m : NumaCpus) (id : ℤ) (o : Option ℤ)
        → All (IsOf nodes) m
        → o ≡ cpu_numa (order m) id
        → (leb_ℤ (pos 0) (value_or (negsuc 0) o) ≡ false) ⊎ Lists nodes (value_or (negsuc 0) o) id
    located nodes m id none h e = inl refl
    located nodes m id (some n) h e =
        let (d, there, same, lists) = cpu_numa-IsFrom (order m) id n (sym e) in
        let (node, stands, named, holds) = All-In (IsOf nodes) m d h (kept m d there) in
        inr (node, stands, named ∙ same, subst (λ l. In id l) (sym holds) (seen-In id d.1 lists))

    cpus-IsLocated :
        (nodes : List NumaNode) (m : NumaCpus) (ids : List ℤ)
        → All (IsOf nodes) m
        → All
            (λ c. (leb_ℤ (pos 0) c.numa_node ≡ false) ⊎ Lists nodes c.numa_node c.id)
            (map (cpu_of fuel read_file order m) ids)
    unfolding cpu_of
    cpus-IsLocated nodes m [] h = tt
    cpus-IsLocated nodes m (id ∷ ids) h =
        (located nodes m id (cpu_numa (order m) id) h refl, cpus-IsLocated nodes m ids h)

    topology_of-IsLocated :
        (dirs : List Entry) (ids : List ℤ) → IsLocated (topology_of fuel read_file order dirs ids)
    topology_of-IsLocated dirs ids =
        let found = numa_nodes fuel read_file dirs in
        cpus-IsLocated (sort by_id found) (numa_cpus fuel read_file [] dirs) ids
          (numa_cpus-IsOf (sort by_id found) [] dirs (λ n i. (sort-In by_id found n).1 i) tt)

    discovered-IsLocated :
        (dirs : List Entry) (o : Option (List ℤ)) (t : Topology)
        → discovered fuel read_file order dirs o ≡ ok t
        → IsLocated t
    discovered-IsLocated dirs none t h = cc
    discovered-IsLocated dirs (some []) t h = cc
    discovered-IsLocated dirs (some (id ∷ ids)) t h =
        let e : topology_of fuel read_file order dirs (id ∷ ids) ≡ t = cc in
        subst IsLocated e (topology_of-IsLocated dirs (id ∷ ids))

    present_read-IsLocated :
        (dirs : List Entry) (r : Result E Bytes) (t : Topology)
        → present_read fuel read_file order dirs r ≡ ok t
        → IsLocated t
    present_read-IsLocated dirs (err e) t h = cc
    present_read-IsLocated dirs (ok text) t h =
        discovered-IsLocated dirs (parsed_list fuel read_file (ok text)) t h

    -- If `Discover` succeeds, its snapshot links each CPU to a node that lists it.
    pub discover-IsLocated :
        (entries : Result E (List Entry)) (t : Topology)
        → discover fuel read_file order entries ≡ ok t
        → IsLocated t
    unfolding discover
    discover-IsLocated entries t h =
        present_read-IsLocated (node_dirs fuel read_file entries) (read_file present_path) t h
