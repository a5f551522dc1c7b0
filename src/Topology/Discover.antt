-- ===== src/Topology/Discover.antt =====
-- nexusflow/pkg/topology/discover_linux.go: `Discover`, over the files of sysfs, which do not change
-- while it reads them. `sort.Slice` sorts by the id of a node.
pub mod Located
mod Tests
use cluster_performance_engi.Base.{
  ℕ, Bool, true, false, List, [], ◌∷◌, ◌++◌, map, Option, none, some, Result, ok, err, is_nil,
  if◌then◌else◌, ◌==◌,
}
use cluster_performance_engi.Base.Int.{
  ℤ, pos, negsuc, eqb_ℤ, leb_ℤ, leb_ℤ_total, leb_ℤ_trans, max_int,
}
use cluster_performance_engi.Base.Text.{Bytes, codes, trim_space, cut_prefix, fields}
use cluster_performance_engi.Base.Files.{Entry}
use cluster_performance_engi.Base.Sort.{Order, sort}
use cluster_performance_engi.Base.Decimal.{itoa, atoi, parse_nat}
use cluster_performance_engi.Topology.CpuList.{parse_cpu_list, seen}
use cluster_performance_engi.Topology.Snapshot.{Cpu, NumaNode, Topology, by_id}

pub data DiscoverError (E : Type 0) : Type 0 where
  unreadable_present : E → DiscoverError E
  no_cpus : DiscoverError E

abbrev pub sysfs_cpu : Bytes
sysfs_cpu = codes "/sys/devices/system/cpu"

abbrev pub sysfs_node : Bytes
sysfs_node = codes "/sys/devices/system/node"

-- `filepath.Join` of names without a slash.
abbrev pub join_path : Bytes → Bytes → Bytes
join_path dir name = dir ++ (b'/' ∷ name)

abbrev pub present_path : Bytes
present_path = join_path sysfs_cpu (codes "present")

-- The value that `strconv.Atoi` returns beside its error: a number out of range is cut off.
abbrev pub cut_off : ℤ → Option ℕ → ℤ
cut_off limit none = pos 0
cut_off limit (some n) = limit

abbrev pub out_of_range : Bytes → ℤ
out_of_range [] = pos 0
out_of_range (c ∷ s) =
    if c == b'-'
    then cut_off (negsuc max_int) (parse_nat s)
    else if c == b'+'
    then cut_off (pos max_int) (parse_nat s)
    else cut_off (pos max_int) (parse_nat (c ∷ s))

abbrev pub value_or : ℤ → Option ℤ → ℤ
value_or default none = default
value_or default (some n) = n

abbrev pub atoi_value : Bytes → ℤ
atoi_value s = value_or (out_of_range s) (atoi s)

-- `numaCPUs`, and an assignment to it.
abbrev pub NumaCpus : Type 0
NumaCpus = List (ℤ × List ℤ)

unfoldable pub set_node : ℤ × List ℤ → NumaCpus → NumaCpus
set_node e [] = e ∷ []
set_node e (d ∷ m) = let rest = set_node e m in if eqb_ℤ d.0 e.0 then e ∷ m else d ∷ rest

abbrev pub set_entry : Option (ℤ × List ℤ) → NumaCpus → NumaCpus
set_entry none m = m
set_entry (some e) m = set_node e m

-- `cpuNUMAMap[id]` behind the loops over the nodes in the order of `m`: the last node that lists
-- the CPU.
abbrev pub or_else : Option ℤ → Option ℤ → Option ℤ
or_else (some n) default = some n
or_else none default = default

unfoldable pub cpu_numa : NumaCpus → ℤ → Option ℤ
cpu_numa [] id = none
cpu_numa (e ∷ m) id = or_else (cpu_numa m id) (if seen id e.1 then some e.0 else none)

-- `fuel` bounds the ids in a list of CPUs.
module _ {E : Type 0} (fuel : ℕ) (read_file : Bytes → Result E Bytes) where
  abbrev pub int_or : ℤ → Result E Bytes → ℤ
  int_or default (err e) = default
  int_or default (ok text) = value_or default (atoi (trim_space text))

  abbrev pub read_int_file : Bytes → ℤ → ℤ
  read_int_file path default = int_or default (read_file path)

  abbrev pub dir_id : Bool → Option Bytes → Option ℤ
  dir_id false s = none
  dir_id true none = none
  dir_id true (some s) = atoi s

  -- A list of CPUs, if the file can be read and parsed.
  abbrev pub parsed_list : Result E Bytes → Option (List ℤ)
  parsed_list (err e) = none
  parsed_list (ok text) = elim (parse_cpu_list fuel (trim_space text)) [
    | err e ↦ none
    | ok l ↦ some l
  ]

  abbrev pub listed : Option ℤ → Option (List ℤ) → Option (ℤ × List ℤ)
  listed none l = none
  listed (some nid) none = none
  listed (some nid) (some l) = some (nid, l)

  -- What both loops over the directories take from an entry; without it they go on.
  unfoldable pub node_entry : Entry → Option (ℤ × List ℤ)
  node_entry ent =
      listed (dir_id ent.is_dir (cut_prefix (codes "node") ent.name))
        (parsed_list (read_file (join_path (join_path sysfs_node ent.name) (codes "cpulist"))))

  unfoldable pub numa_cpus : NumaCpus → List Entry → NumaCpus
  numa_cpus m [] = m
  numa_cpus m (ent ∷ dirs) = numa_cpus (set_entry (node_entry ent) m) dirs

  abbrev pub distances : Result E Bytes → List ℤ
  distances (err e) = []
  distances (ok text) = map atoi_value (fields (trim_space text))

  abbrev pub numa_node : Entry → ℤ × List ℤ → NumaNode
  numa_node ent e = record {
    id = e.0;
    cpus = e.1;
    distance = distances (read_file (join_path (join_path sysfs_node ent.name) (codes "distance")));
  }

  abbrev pub add_node : Entry → Option (ℤ × List ℤ) → List NumaNode → List NumaNode
  add_node ent none nodes = nodes
  add_node ent (some e) nodes = numa_node ent e ∷ nodes

  unfoldable pub numa_nodes : List Entry → List NumaNode
  numa_nodes [] = []
  numa_nodes (ent ∷ dirs) = add_node ent (node_entry ent) (numa_nodes dirs)

  abbrev pub cpu_file : ℤ → Bytes → Bytes
  cpu_file id name =
      join_path (join_path (join_path sysfs_cpu (codes "cpu" ++ itoa id)) (codes "topology")) name

  abbrev pub siblings_or : ℤ → Option (List ℤ) → List ℤ
  siblings_or id none = id ∷ []
  siblings_or id (some []) = id ∷ []
  siblings_or id (some (s ∷ l)) = s ∷ l

  -- `order` is the order in which the map is gone through.
  unfoldable pub cpu_of : (NumaCpus → NumaCpus) → NumaCpus → ℤ → Cpu
  unfolding cpu_numa
  cpu_of order m id = record {
    id = id;
    package_id = read_int_file (cpu_file id (codes "physical_package_id")) (pos 0);
    core_id = read_int_file (cpu_file id (codes "core_id")) id;
    numa_node = value_or (negsuc 0) (cpu_numa (order m) id);
    siblings =
        siblings_or id (parsed_list (read_file (cpu_file id (codes "thread_siblings_list"))));
  }

  abbrev pub topology_of : (NumaCpus → NumaCpus) → List Entry → List ℤ → Topology
  topology_of order dirs ids = record {
    cpus = map (cpu_of order (numa_cpus [] dirs)) ids;
    numa_nodes = sort by_id (numa_nodes dirs);
  }

  abbrev pub node_dirs : Result E (List Entry) → List Entry
  node_dirs (err e) = []
  node_dirs (ok dirs) = dirs

  abbrev pub discovered :
      (NumaCpus → NumaCpus) → List Entry → Option (List ℤ) → Result (DiscoverError E) Topology
  discovered order dirs none = err no_cpus
  discovered order dirs (some []) = err no_cpus
  discovered order dirs (some (id ∷ ids)) = ok (topology_of order dirs (id ∷ ids))

  abbrev pub present_read :
      (NumaCpus → NumaCpus) → List Entry → Result E Bytes → Result (DiscoverError E) Topology
  present_read order dirs (err e) = err (unreadable_present e)
  present_read order dirs (ok text) = discovered order dirs (parsed_list (ok text))

  -- `entries`: the result of reading the directory of the nodes.
  unfoldable pub discover :
      (NumaCpus → NumaCpus) → Result E (List Entry) → Result (DiscoverError E) Topology
  unfolding cpu_of numa_cpus numa_nodes
  discover order entries = present_read order (node_dirs entries) (read_file present_path)
