-- ===== src/Topology/Hints.antt =====
-- nexusflow/pkg/topology/hints.go: `BuildClusterHints`. A count is a length, so it is a natural
-- number; a map from package ids is looked up by going through its list.
pub mod Cores
pub mod Sums
pub mod Shell
pub mod Reader
mod Tests
use cluster_performance_engi.Base.{
  ℕ, zero, suc, ◌≡◌, Bool, true, false, ◌&&◌, ◌||◌, List, [], ◌∷◌, ◌++◌, map, Option, none, some,
  length, is_nil, ltb, ◌==◌, if◌then◌else◌,
}
use cluster_performance_engi.Base.Int.{ℤ, eqb_ℤ}
use cluster_performance_engi.Base.Text.{Bytes}
use cluster_performance_engi.Base.Sort.{sort}
use cluster_performance_engi.Topology.CpuList.{ints, format_cpu_list}
use cluster_performance_engi.Topology.Snapshot.{Cpu, NumaNode, Topology, package_ids}

pub record SocketSummary : Type 0 where
  pub package_id : ℤ
  pub logical_cpus : ℕ
  pub physical_cores : ℕ
  pub cpu_list : Bytes

pub record NumaSummary : Type 0 where
  pub node_id : ℤ
  pub logical_cpus : ℕ
  pub cpu_list : Bytes

pub record ClusterHints : Type 0 where
  pub source_used : Bytes
  pub logical_cpus : ℕ
  pub physical_cores_total : ℕ
  pub socket_count : ℕ
  pub numa_node_count : ℕ
  pub sockets : List SocketSummary
  pub numa_nodes : List NumaSummary
  pub max_logical_per_socket : ℕ
  pub max_logical_per_numa_node : ℕ
  pub min_logical_per_numa_node : ℕ
  pub suggested_cpus_per_task : ℕ
  pub first_socket_cpu_list : Bytes
  pub make_j_whole_node : ℕ
  pub make_j_per_socket_core : List ℕ

-- `ClusterHints{SourceUsed: source}`
abbrev pub empty_hints : Bytes → ClusterHints
empty_hints source = record {
  source_used = source;
  logical_cpus = 0;
  physical_cores_total = 0;
  socket_count = 0;
  numa_node_count = 0;
  sockets = [];
  numa_nodes = [];
  max_logical_per_socket = 0;
  max_logical_per_numa_node = 0;
  min_logical_per_numa_node = 0;
  suggested_cpus_per_task = 0;
  first_socket_cpu_list = [];
  make_j_whole_node = 0;
  make_j_per_socket_core = [];
}

-- `coreKey`: the package and the core.
abbrev pub CoreKey : Type 0
CoreKey = ℤ × ℤ

abbrev pub key_of : Cpu → CoreKey
key_of c = (c.package_id, c.core_id)

abbrev pub seen_key : CoreKey → List CoreKey → Bool
seen_key k [] = false
seen_key k (j ∷ keys) = eqb_ℤ k.0 j.0 && eqb_ℤ k.1 j.1 || seen_key k keys

-- `coreSeen`
unfoldable pub core_keys : List CoreKey → List Cpu → List CoreKey
core_keys keys [] = keys
core_keys keys (c ∷ cpus) =
    core_keys (if seen_key (key_of c) keys then keys else keys ++ key_of c ∷ []) cpus

-- `pkgCPUs[pkg]`
unfoldable pub package_cpus : ℤ → List Cpu → List ℤ
package_cpus pkg [] = []
package_cpus pkg (c ∷ cpus) =
    let rest = package_cpus pkg cpus in if eqb_ℤ c.package_id pkg then c.id ∷ rest else rest

-- `pkgPhy[pkg]`
unfoldable pub package_cores : ℤ → List CoreKey → ℕ
package_cores pkg [] = 0
package_cores pkg (k ∷ keys) =
    let rest = package_cores pkg keys in if eqb_ℤ k.0 pkg then suc rest else rest

abbrev pub socket_summary : List Cpu → ℤ → SocketSummary
socket_summary cpus pkg =
    let ids = sort ints (package_cpus pkg cpus) in
    record {
      package_id = pkg;
      logical_cpus = length ids;
      physical_cores = package_cores pkg (core_keys [] cpus);
      cpu_list = format_cpu_list ids;
    }

unfoldable pub socket_summaries : Topology → List SocketSummary
unfolding package_ids
socket_summaries t = map (socket_summary t.cpus) (package_ids t.cpus)

-- `h.MaxLogicalPerSocket`
unfoldable pub max_logical : ℕ → List SocketSummary → ℕ
max_logical m [] = m
max_logical m (s ∷ sockets) =
    max_logical (if ltb m s.logical_cpus then s.logical_cpus else m) sockets

abbrev pub numa_summary : NumaNode → NumaSummary
numa_summary n =
    let cp = sort ints n.cpus in
    record { node_id = n.id; logical_cpus = length cp; cpu_list = format_cpu_list cp }

-- `minNuma` and `maxNuma` after the loop; the flag is `firstNuma`.
unfoldable pub numa_range : Bool → ℕ → ℕ → List NumaNode → ℕ × ℕ
numa_range first lo hi [] = (lo, hi)
numa_range first lo hi (n ∷ nodes) =
    let k = length (sort ints n.cpus) in
    numa_range false (if first || ltb k lo then k else lo) (if first || ltb hi k then k else hi)
      nodes

abbrev pub first_cpu_list : List SocketSummary → Bytes
first_cpu_list [] = []
first_cpu_list (s ∷ sockets) = s.cpu_list

unfoldable pub build_cluster_hints : Option Topology → Bytes → ClusterHints
unfolding socket_summaries max_logical numa_range
build_cluster_hints none source = empty_hints source
build_cluster_hints (some t) source =
    let logical = length t.cpus in
    let sockets = socket_summaries t in
    let (lo, hi) = numa_range true 0 0 t.numa_nodes in
    let most = max_logical 0 sockets in
    record {
      source_used = source;
      logical_cpus = logical;
      physical_cores_total = length (core_keys [] t.cpus);
      socket_count = length (package_ids t.cpus);
      numa_node_count = length t.numa_nodes;
      sockets = sockets;
      numa_nodes = map numa_summary t.numa_nodes;
      max_logical_per_socket = most;
      max_logical_per_numa_node = if is_nil t.numa_nodes then logical else hi;
      min_logical_per_numa_node = if is_nil t.numa_nodes then logical else lo;
      suggested_cpus_per_task = if most == 0 then logical else most;
      first_socket_cpu_list = first_cpu_list sockets;
      make_j_whole_node = logical;
      make_j_per_socket_core = map (λ s. s.physical_cores) sockets;
    }
