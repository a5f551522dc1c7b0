-- ===== src/Topology/Hwloc.antt =====
-- nexusflow/pkg/hwloc/parse.go: a snapshot from the XML that hwloc exports. `xml.Unmarshal`, the
-- regular expression and the commands are parameters. `sort.Slice` sorts by one number.
pub mod Members
mod Tests
use cluster_performance_engi.Base.{
  ℕ, Bool, true, false, List, [], ◌∷◌, ◌++◌, map, Option, none, some, Result, ok, err,
  if◌then◌else◌,
}
use cluster_performance_engi.Base.Int.{
  ℤ, pos, negsuc, eqb_ℤ, leb_ℤ, ltb_ℤ, leb_ℤ_total, leb_ℤ_trans, inc,
}
use cluster_performance_engi.Base.Text.{Bytes, codes, eqb}
use cluster_performance_engi.Base.Sort.{Order, sort}
use cluster_performance_engi.Topology.CpuList.{ints}
use cluster_performance_engi.Topology.Snapshot.{Cpu, NumaNode, Topology, by_id}

-- `xmlObj`: the type, the index, if there is one, and the objects inside.
mutual
  pub data XmlObj : Type 0 where
    xml_obj : Bytes → Option ℤ → XmlObjs → XmlObj

  pub data XmlObjs : Type 0 where
    no_objs : XmlObjs
    obj_and : XmlObj → XmlObjs → XmlObjs

abbrev pub deref : Option ℤ → ℤ → ℤ
deref none default = default
deref (some n) default = n

pub record PuRec : Type 0 where
  pub pu : ℤ
  pub pkg : ℤ
  pub numa : ℤ
  pub core : ℤ

-- The package, the node and the core that an object is inside of.
pub record Place : Type 0 where
  pub pkg : ℤ
  pub numa : ℤ
  pub core : ℤ

-- `*nextCore` and `*out`
pub record Walk : Type 0 where
  pub next_core : ℤ
  pub recs : List PuRec

abbrev pub add_pu : Place → ℤ → Walk → Walk
add_pu p pu w =
    if leb_ℤ (pos 0) pu
    then record {
      next_core = w.next_core;
      recs = w.recs ++ record { pu = pu; pkg = p.pkg; numa = p.numa; core = p.core } ∷ [];
    }
    else w

-- The `switch`.
unfoldable pub enter : Bytes → Option ℤ → Place → Walk → Place × Walk
enter kind os_index p w =
    if eqb kind (codes "Package")
    then (record { pkg = deref os_index p.pkg; numa = p.numa; core = p.core }, w)
    else if eqb kind (codes "NUMANode")
    then (record { pkg = p.pkg; numa = deref os_index p.numa; core = p.core }, w)
    else if eqb kind (codes "Core")
    then (
      record { pkg = p.pkg; numa = p.numa; core = deref os_index w.next_core },
      record { next_core = inc (deref os_index w.next_core); recs = w.recs },
    )
    else if eqb kind (codes "PU")
    then (p, add_pu p (deref os_index (negsuc 0)) w)
    else (p, w)

unfoldable mutual
  pub walk : XmlObj → Place → Walk → Walk
  walk (xml_obj kind os_index objs) p w =
      let (inside, entered) = enter kind os_index p w in walk_all objs inside entered

  pub walk_all : XmlObjs → Place → Walk → Walk
  walk_all no_objs p w = w
  walk_all (obj_and o objs) p w = walk_all objs p (walk o p w)

abbrev pub by_pu : Order PuRec
by_pu = record {
  lessb = λ a b. leb_ℤ a.pu b.pu;
  total = λ a b. leb_ℤ_total a.pu b.pu;
  trans = λ a b c. leb_ℤ_trans a.pu b.pu c.pu;
}

abbrev pub max0 : ℤ → ℤ
max0 v = if ltb_ℤ v (pos 0) then pos 0 else v

abbrev pub cpu_of : PuRec → Cpu
cpu_of r = record {
  id = r.pu;
  package_id = max0 r.pkg;
  core_id = if ltb_ℤ r.core (pos 0) then r.pu else r.core;
  numa_node = r.numa;
  siblings = r.pu ∷ [];
}

-- `numaMap`, and `numaMap[nid] = append(numaMap[nid], pu)`.
abbrev pub NumaMap : Type 0
NumaMap = List (ℤ × List ℤ)

unfoldable pub append_pu : ℤ → ℤ → NumaMap → NumaMap
append_pu nid pu [] = (nid, pu ∷ []) ∷ []
append_pu nid pu (e ∷ m) =
    let rest = append_pu nid pu m in if eqb_ℤ e.0 nid then (e.0, e.1 ++ pu ∷ []) ∷ m else e ∷ rest

unfoldable pub numa_map : NumaMap → List PuRec → NumaMap
numa_map m [] = m
numa_map m (r ∷ recs) = numa_map (if leb_ℤ (pos 0) r.numa then append_pu r.numa r.pu m else m) recs

abbrev pub node_of : ℤ × List ℤ → NumaNode
node_of e = record { id = e.0; cpus = sort ints e.1; distance = [] }

-- `order` is the order in which the map is gone through.
unfoldable pub topology_of : (NumaMap → NumaMap) → List PuRec → Topology
unfolding numa_map
topology_of order recs = record {
  cpus = map cpu_of recs;
  numa_nodes = sort by_id (map node_of (order (numa_map [] recs)));
}

pub data HwlocError (E : Type 0) : Type 0 where
  bad_xml : E → HwlocError E
  no_pu : HwlocError E
  all_failed : E → HwlocError E
  no_exporter : HwlocError E

abbrev pub outside : Place
outside = record { pkg = negsuc 0; numa = negsuc 0; core = negsuc 0 }

module _ {E : Type 0} (strip_xmlns : Bytes → Bytes) (unmarshal : Bytes → Result E XmlObjs)
    (order : NumaMap → NumaMap) where
  abbrev pub of_recs : List PuRec → Result (HwlocError E) Topology
  of_recs [] = err no_pu
  of_recs (r ∷ recs) = ok (topology_of order (sort by_pu (r ∷ recs)))

  abbrev pub of_root : Result E XmlObjs → Result (HwlocError E) Topology
  of_root (err e) = err (bad_xml e)
  of_root (ok objs) = of_recs (walk_all objs outside (record { next_core = pos 0; recs = [] })).recs

  unfoldable pub topology_from_xml : Bytes → Result (HwlocError E) Topology
  unfolding walk topology_of
  topology_from_xml xml_data = of_root (unmarshal (strip_xmlns xml_data))

  -- The loop over the commands. `exec.Command` gives the output.
  abbrev pub last_error : Option E → HwlocError E
  last_error none = no_exporter
  last_error (some e) = all_failed e

  abbrev pub tried :
      Result E Bytes → (Option E → Result (HwlocError E) Topology) → Result (HwlocError E) Topology
  tried (err e) rest = rest (some e)
  tried (ok out) rest = topology_from_xml out

  unfoldable pub try_all :
      (List Bytes → Result E Bytes) → List (List Bytes) → Option E → Result (HwlocError E) Topology
  unfolding topology_from_xml
  try_all output [] last = err (last_error last)
  try_all output (argv ∷ try) last = tried (output argv) (try_all output try)

  abbrev pub exporters : List (List Bytes)
  exporters =
      (codes "hwloc-ls" ∷ codes "--no-io" ∷ codes "--of" ∷ codes "xml" ∷ [])
      ∷ (codes "lstopo-no-graphics" ∷ codes "--no-io" ∷ codes "--of" ∷ codes "xml" ∷ [])
      ∷ (codes "lstopo" ∷ codes "--no-io" ∷ codes "--of" ∷ codes "xml" ∷ [])
      ∷ []

  unfoldable pub discover_cli : (List Bytes → Result E Bytes) → Result (HwlocError E) Topology
  unfolding try_all
  discover_cli output = try_all output exporters none
