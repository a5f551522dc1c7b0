-- ===== src/Topology/Report.antt =====
-- nexusflow/pkg/topology/format.go: the report for people. `sort.Slice` sorts by core and CPU.
mod Tests
use cluster_performance_engi.Base.{
  ℕ, ◌≡◌, ◌-◌, Bool, true, false, ◌&&◌, ◌||◌, not, List, [], ◌∷◌, ◌++◌, map, is_nil, length,
  if◌then◌else◌, ltb, leb, arith, zero, suc,
}
use cluster_performance_engi.Base.Int.{ℤ, pos, negsuc, eqb_ℤ, leb_ℤ, ltb_ℤ}
use cluster_performance_engi.Base.Text.{Bytes, codes}
use cluster_performance_engi.Base.Sort.{Order, sort}
use cluster_performance_engi.Base.Decimal.{itoa}
use cluster_performance_engi.Base.Parts.{join}
use cluster_performance_engi.Topology.CpuList.{ints, seen, uniq}
use cluster_performance_engi.Topology.Snapshot.{Cpu, NumaNode, Topology, package_ids}

-- The UTF-8 bytes of the signs in the text.
abbrev pub em_dash : Bytes
em_dash = 226 ∷ 128 ∷ 148 ∷ []

abbrev pub branch : Bytes
branch = 226 ∷ 148 ∷ 156 ∷ 226 ∷ 148 ∷ 128 ∷ 226 ∷ 148 ∷ 128 ∷ []

abbrev pub bar : Bytes
bar = 226 ∷ 148 ∷ 130 ∷ []

abbrev pub arrow : Bytes
arrow = 226 ∷ 134 ∷ 146 ∷ []

abbrev pub line_end : Bytes
line_end = b'\n' ∷ []

-- `%v` of a list of numbers.
abbrev pub list_text : List ℤ → Bytes
list_text ids = b'[' ∷ (join b' ' (map itoa ids) ++ b']' ∷ [])

unfoldable pub spaces : ℕ → Bytes
spaces zero = []
spaces (suc n) = b' ' ∷ spaces n

-- `%-4d`
abbrev pub padded : ℤ → Bytes
padded n = itoa n ++ spaces (4 - length (itoa n))

unfoldable pub filter_package : ℤ → List Cpu → List Cpu
filter_package pkg [] = []
filter_package pkg (c ∷ cpus) =
    let rest = filter_package pkg cpus in if eqb_ℤ c.package_id pkg then c ∷ rest else rest

unfoldable pub cores_on_core : ℤ → List Cpu → List ℤ
cores_on_core core [] = []
cores_on_core core (c ∷ cpus) =
    let rest = cores_on_core core cpus in if eqb_ℤ c.core_id core then c.id ∷ rest else rest

-- Every unknown node is -1.
abbrev pub shown_node : Cpu → ℤ
shown_node c = if ltb_ℤ c.numa_node (pos 0) then negsuc 0 else c.numa_node

-- `byNode[nid]`
unfoldable pub on_shown_node : ℤ → List Cpu → List Cpu
on_shown_node nid [] = []
on_shown_node nid (c ∷ cpus) =
    let rest = on_shown_node nid cpus in if eqb_ℤ (shown_node c) nid then c ∷ rest else rest

-- The core first, then the CPU.
abbrev pub core_leb : Cpu → Cpu → Bool
core_leb a b = ltb_ℤ a.core_id b.core_id || (leb_ℤ a.core_id b.core_id && leb_ℤ a.id b.id)

pub core_leb_total : (a b : Cpu) → core_leb a b ≡ false → core_leb b a ≡ true
core_leb_total a b h = ground arith

pub core_leb_trans : (a b c : Cpu) → core_leb a b ≡ true → core_leb b c ≡ true → core_leb a c ≡ true
core_leb_trans a b c h k = ground arith

abbrev pub by_core : Order Cpu
by_core = record { lessb = core_leb; total = core_leb_total; trans = core_leb_trans }

-- `distHint`
unfoldable pub dist_hint : ℤ → List NumaNode → Bytes
dist_hint nid [] = []
dist_hint nid (n ∷ nodes) =
    let rest = dist_hint nid nodes in
    if eqb_ℤ n.id nid && not (is_nil n.distance)
    then codes "  distance sysfs: " ++ list_text n.distance
    else rest

abbrev pub node_label : ℤ → Bytes
node_label nid = if leb_ℤ (pos 0) nid then codes "NUMA node " ++ itoa nid else codes "unknown NUMA"

abbrev pub node_hint : ℤ → List NumaNode → Bytes
node_hint nid nodes = if leb_ℤ (pos 0) nid then dist_hint nid nodes else []

abbrev pub node_line : ℤ → Bytes → Bytes
node_line nid hint =
    codes "  "
    ++ branch
    ++ codes " "
    ++ node_label nid
    ++ (if is_nil hint then [] else codes "  (" ++ hint ++ codes ")")
    ++ line_end

-- The loop over the cores: `done` is `coreSeen`, and `cores` are all CPUs of the node.
unfoldable pub core_lines : List Cpu → List ℤ → List Cpu → Bytes
core_lines cores done [] = []
core_lines cores done (c ∷ rest) =
    let skip = core_lines cores done rest in
    let next = core_lines cores (c.core_id ∷ done) rest in
    if seen c.core_id done
    then skip
    else codes "  "
      ++ bar
      ++ codes "     Core "
      ++ padded c.core_id
      ++ codes " "
      ++ arrow
      ++ codes " CPUs "
      ++ list_text (sort ints (cores_on_core c.core_id cores))
      ++ line_end
      ++ next

unfoldable pub node_lines : List NumaNode → List Cpu → List ℤ → Bytes
unfolding on_shown_node core_lines
node_lines nodes sub [] = []
node_lines nodes sub (nid ∷ ids) =
    let cores = sort by_core (on_shown_node nid sub) in
    node_line nid (node_hint nid nodes) ++ core_lines cores [] cores ++ node_lines nodes sub ids

unfoldable pub package_lines : Topology → List ℤ → Bytes
unfolding filter_package node_lines
package_lines t [] = []
package_lines t (pkg ∷ pkgs) =
    let sub = filter_package pkg t.cpus in
    codes "Socket / package "
    ++ itoa pkg
    ++ line_end
    ++ node_lines t.numa_nodes sub (sort ints (uniq [] (map shown_node sub)))
    ++ line_end
    ++ package_lines t pkgs

unfoldable pub cpu_list_lines : List NumaNode → Bytes
cpu_list_lines [] = []
cpu_list_lines (n ∷ nodes) =
    codes "  node"
    ++ itoa n.id
    ++ codes " "
    ++ arrow
    ++ codes " "
    ++ list_text n.cpus
    ++ line_end
    ++ cpu_list_lines nodes

abbrev pub count_text : ℕ → Bytes
count_text n = itoa (pos n)

unfoldable pub format_ascii : Topology → Bytes
unfolding package_lines cpu_list_lines
format_ascii t =
    codes "NexusFlow "
    ++ em_dash
    ++ codes " NUMA-aware topology\nLogical CPUs: "
    ++ count_text (length t.cpus)
    ++ (if is_nil t.numa_nodes
        then []
        else codes "  NUMA nodes: " ++ count_text (length t.numa_nodes))
    ++ codes "\n\n"
    ++ package_lines t (package_ids t.cpus)
    ++ (if is_nil t.numa_nodes
        then []
        else codes "NUMA CPU lists (sysfs cpulist):\n" ++ cpu_list_lines t.numa_nodes)
