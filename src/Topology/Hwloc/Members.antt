-- ===== src/Topology/Hwloc/Members.antt =====
-- The CPUs and the memory nodes of a snapshot from hwloc belong together.
use cluster_performance_engi.Base.{
  ◌≡◌, refl, sym, ◌∙◌, ap, subst, false, ◌⊎◌, inl, inr, List, [], ◌∷◌, ◌++◌, map, Option, none,
  some, Result, ok, err, if◌then◌else◌, All, In, Bool-cases, All-In, All-of_In, All-append, map-In,
  ◌↔◌,
}
use cluster_performance_engi.Base.Int.{ℤ, pos, eqb_ℤ, eqb_ℤ_iff, leb_ℤ}
use cluster_performance_engi.Base.Text.{Bytes}
use cluster_performance_engi.Base.Sort.{sort, sort-In, All-sort}
use cluster_performance_engi.Topology.CpuList.{ints}
use cluster_performance_engi.Topology.Snapshot.{NumaNode, Topology, by_id}
use cluster_performance_engi.Topology.Placement.{all_cpu_ids}
use cluster_performance_engi.Topology.Placement.Members.{IsConsistent}
use cluster_performance_engi.Topology.Located.{Lists, IsLocated}
use cluster_performance_engi.Topology.Hwloc.{
  PuRec, XmlObjs, NumaMap, append_pu, numa_map, cpu_of, node_of, topology_of, HwlocError, walk_all,
  outside, of_recs, of_root, topology_from_xml, try_all, exporters, discover_cli, by_pu, tried,
}

module _ (P : ℤ → Type 0) where
  abbrev MapHas : NumaMap → Type 0
  MapHas m = All (λ e. All P e.1) m

  append_pu-MapHas : (nid pu : ℤ) (m : NumaMap) → P pu → MapHas m → MapHas (append_pu nid pu m)
  unfolding append_pu
  append_pu-MapHas nid pu [] p h = ((p, tt), tt)
  append_pu-MapHas nid pu (e ∷ m) p h = elim (Bool-cases (eqb_ℤ e.0 nid)) [
    | inl same ↦ rw same (All-append P e.1 (pu ∷ []) h.0 (p, tt), h.1)
    | inr other ↦ rw other (h.0, append_pu-MapHas nid pu m p h.1)
  ]

  numa_map-MapHas :
      (m : NumaMap) (recs : List PuRec)
      → All (λ r. P r.pu) recs
      → MapHas m
      → MapHas (numa_map m recs)
  unfolding numa_map
  numa_map-MapHas m [] hr h = h
  numa_map-MapHas m (r ∷ recs) hr h = elim (Bool-cases (leb_ℤ (pos 0) r.numa)) [
    | inl known ↦ rw known (
        numa_map-MapHas (append_pu r.numa r.pu m) recs hr.1 (append_pu-MapHas r.numa r.pu m hr.0 h))
    | inr unknown ↦ rw unknown (numa_map-MapHas m recs hr.1 h)
  ]

  nodes-Have : (m : NumaMap) → MapHas m → All (λ n. All P n.cpus) (map node_of m)
  nodes-Have [] h = tt
  nodes-Have (e ∷ m) h = (All-sort ints P e.1 h.0, nodes-Have m h.1)

-- The map holds the CPU under the node.
abbrev Holds : NumaMap → ℤ → ℤ → Type 0
Holds m nid id = (e : ℤ × List ℤ) × In e m × (e.0 ≡ nid) × In id e.1

In-snoc : (l : List ℤ) (x : ℤ) → In x (l ++ x ∷ [])
In-snoc [] x = inl refl
In-snoc (y ∷ l) x = inr (In-snoc l x)

In-left : (l m : List ℤ) (x : ℤ) → In x l → In x (l ++ m)
In-left [] m x h = elim h [ ]
In-left (y ∷ l) m x (inl e) = inl e
In-left (y ∷ l) m x (inr h) = inr (In-left l m x h)

Holds-cons : (d : ℤ × List ℤ) (m : NumaMap) (nid id : ℤ) → Holds m nid id → Holds (d ∷ m) nid id
Holds-cons d m nid id (e, there, same, lists) = (e, inr there, same, lists)

append_pu-Holds : (nid pu : ℤ) (m : NumaMap) → Holds (append_pu nid pu m) nid pu
unfolding append_pu
append_pu-Holds nid pu [] = ((nid, pu ∷ []), inl refl, refl, inl refl)
append_pu-Holds nid pu (e ∷ m) = elim (Bool-cases (eqb_ℤ e.0 nid)) [
  | inl same ↦ rw same ((e.0, e.1 ++ pu ∷ []), inl refl, (eqb_ℤ_iff e.0 nid).0 same, In-snoc e.1 pu)
  | inr other ↦ rw other (Holds-cons e (append_pu nid pu m) nid pu (append_pu-Holds nid pu m))
]

append_pu-keeps :
    (nid pu : ℤ) (m : NumaMap) (n id : ℤ) → Holds m n id → Holds (append_pu nid pu m) n id
unfolding append_pu
append_pu-keeps nid pu [] n id (e, there, same, lists) = elim there [ ]
append_pu-keeps nid pu (d ∷ m) n id (e, there, same, lists) = elim (Bool-cases (eqb_ℤ d.0 nid)) [
  | inl b ↦ rw b (elim there [
    | inl here ↦ (
      (d.0, d.1 ++ pu ∷ []),
      inl refl,
      ap (λ x. x.0) (sym here) ∙ same,
      In-left d.1 (pu ∷ []) id (subst (λ x. In id x.1) here lists),
    )
    | inr later ↦ (e, inr later, same, lists)
  ])
  | inr b ↦ rw b (elim there [
    | inl here ↦ (e, inl here, same, lists)
    | inr later ↦
        Holds-cons d (append_pu nid pu m) n id
          (append_pu-keeps nid pu m n id (e, later, same, lists))
  ])
]

numa_map-keeps :
    (m : NumaMap) (recs : List PuRec) (n id : ℤ) → Holds m n id → Holds (numa_map m recs) n id
unfolding numa_map
numa_map-keeps m [] n id h = h
numa_map-keeps m (r ∷ recs) n id h = elim (Bool-cases (leb_ℤ (pos 0) r.numa)) [
  | inl known ↦
      rw known
        (numa_map-keeps (append_pu r.numa r.pu m) recs n id (append_pu-keeps r.numa r.pu m n id h))
  | inr unknown ↦ rw unknown (numa_map-keeps m recs n id h)
]

numa_map-Holds_head :
    (m : NumaMap) (r : PuRec) (recs : List PuRec)
    → (leb_ℤ (pos 0) r.numa ≡ false) ⊎ Holds (numa_map m (r ∷ recs)) r.numa r.pu
unfolding numa_map
numa_map-Holds_head m r recs = elim (Bool-cases (leb_ℤ (pos 0) r.numa)) [
  | inl known ↦ rw known (
      inr
        (numa_map-keeps (append_pu r.numa r.pu m) recs r.numa r.pu (append_pu-Holds r.numa r.pu m)))
  | inr unknown ↦ inl unknown
]

numa_map-Holds :
    (m : NumaMap) (recs : List PuRec)
    → All (λ r. (leb_ℤ (pos 0) r.numa ≡ false) ⊎ Holds (numa_map m recs) r.numa r.pu) recs
unfolding numa_map
numa_map-Holds m [] = tt
numa_map-Holds m (r ∷ recs) = (
  numa_map-Holds_head m r recs,
  numa_map-Holds (if leb_ℤ (pos 0) r.numa then append_pu r.numa r.pu m else m) recs,
)

module _ (order : NumaMap → NumaMap)
    (same : (m : NumaMap) (e : ℤ × List ℤ) → In e (order m) ↔ In e m) where
  topology_of-IsConsistent : (recs : List PuRec) → IsConsistent (topology_of order recs)
  unfolding topology_of all_cpu_ids
  topology_of-IsConsistent recs =
      let t = topology_of order recs in
      let P : ℤ → Type 0 = λ i. In i (all_cpu_ids t) in
      let own : All (λ r. P r.pu) recs =
        All-of_In (λ r. P r.pu) recs
          (λ r k.
            (sort-In ints (map (λ c. c.id) t.cpus) r.pu).1
              (map-In (λ c. c.id) t.cpus (cpu_of r) (map-In cpu_of recs r k))) in
      let m = numa_map [] recs in
      let has = numa_map-MapHas P [] recs own tt in
      All-sort by_id (λ n. All P n.cpus) (map node_of (order m))
        (nodes-Have P (order m) (
          All-of_In (λ e. All P e.1) (order m)
            (λ e k. All-In (λ d. All P d.1) m e has ((same m e).0 k))))

  cpus-IsLocated :
      (recs : List PuRec) (nodes : List NumaNode)
      → All (λ r. (leb_ℤ (pos 0) r.numa ≡ false) ⊎ Lists nodes r.numa r.pu) recs
      → All
          (λ c. (leb_ℤ (pos 0) c.numa_node ≡ false) ⊎ Lists nodes c.numa_node c.id)
          (map cpu_of recs)
  cpus-IsLocated [] nodes h = tt
  cpus-IsLocated (r ∷ recs) nodes h = (h.0, cpus-IsLocated recs nodes h.1)

  Holds-Lists :
      (m : NumaMap) (nid id : ℤ)
      → Holds m nid id
      → Lists (sort by_id (map node_of (order m))) nid id
  Holds-Lists m nid id (e, there, same_id, lists) = (
    node_of e,
    (sort-In by_id (map node_of (order m)) (node_of e)).1
        (map-In node_of (order m) e ((same m e).1 there)),
    same_id,
    (sort-In ints e.1 id).1 lists,
  )

  topology_of-IsLocated : (recs : List PuRec) → IsLocated (topology_of order recs)
  unfolding topology_of
  topology_of-IsLocated recs =
      let m = numa_map [] recs in
      let nodes = sort by_id (map node_of (order m)) in
      let held = numa_map-Holds [] recs in
      cpus-IsLocated recs nodes (
        All-of_In (λ r. (leb_ℤ (pos 0) r.numa ≡ false) ⊎ Lists nodes r.numa r.pu) recs
          (λ r k.
            elim (All-In (λ r. (leb_ℤ (pos 0) r.numa ≡ false) ⊎ Holds m r.numa r.pu) recs r held
              k) [ inl unknown ↦ inl unknown | inr h ↦ inr (Holds-Lists m r.numa r.pu h) ]))

  abbrev Belongs : Topology → Type 0
  Belongs t = IsConsistent t × IsLocated t

  module _ {E : Type 0} (strip_xmlns : Bytes → Bytes) (unmarshal : Bytes → Result E XmlObjs) where
    of_recs-Belongs :
        (recs : List PuRec) (t : Topology)
        → of_recs strip_xmlns unmarshal order recs ≡ ok t
        → Belongs t
    of_recs-Belongs [] t h = cc
    of_recs-Belongs (r ∷ recs) t h =
        let sorted = sort by_pu (r ∷ recs) in
        let e : topology_of order sorted ≡ t = cc in
        subst Belongs e (topology_of-IsConsistent sorted, topology_of-IsLocated sorted)

    of_root-Belongs :
        (root : Result E XmlObjs) (t : Topology)
        → of_root strip_xmlns unmarshal order root ≡ ok t
        → Belongs t
    of_root-Belongs (err e) t h = cc
    of_root-Belongs (ok objs) t h =
        of_recs-Belongs (walk_all objs outside (record { next_core = pos 0; recs = [] })).recs t h

    tried-Belongs :
        (r : Result E Bytes) (rest : Option E → Result (HwlocError E) Topology) (t : Topology)
        → ((last : Option E) → rest last ≡ ok t → Belongs t)
        → tried strip_xmlns unmarshal order r rest ≡ ok t
        → Belongs t
    unfolding topology_from_xml
    tried-Belongs (err e) rest t k h = k (some e) h
    tried-Belongs (ok out) rest t k h = of_root-Belongs (unmarshal (strip_xmlns out)) t h

    try_all-Belongs :
        (output : List Bytes → Result E Bytes) (try : List (List Bytes)) (last : Option E)
        (t : Topology)
        → try_all strip_xmlns unmarshal order output try last ≡ ok t
        → Belongs t
    unfolding try_all
    try_all-Belongs output [] last t h = cc
    try_all-Belongs output (argv ∷ try) last t h =
        tried-Belongs (output argv) (try_all strip_xmlns unmarshal order output try) t
          (λ l k. try_all-Belongs output try l t k) h

    -- Whatever tree of objects the XML of an exporter decodes to, and in whatever order the map of
    -- nodes is gone through, each entry once: if `DiscoverCLI` succeeds, every CPU of a memory
    -- node is a CPU of the snapshot, and the node of each CPU is negative or a node of the
    -- snapshot that lists the CPU.
    pub discover_cli-IsConsistent :
        (output : List Bytes → Result E Bytes) (t : Topology)
        → discover_cli strip_xmlns unmarshal order output ≡ ok t
        → IsConsistent t × IsLocated t
    unfolding discover_cli
    discover_cli-IsConsistent output t h =
        try_all-Belongs output (exporters strip_xmlns unmarshal order) none t h
