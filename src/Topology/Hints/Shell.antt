-- ===== src/Topology/Hints/Shell.antt =====
-- nexusflow/pkg/topology/hints.go: the texts that scripts read. `%d` of a count is its decimal text.
use cluster_performance_engi.Base.{
  ℕ, List, [], ◌∷◌, ◌++◌, Option, none, some, if◌then◌else◌, is_nil, suc,
}
use cluster_performance_engi.Base.Int.{pos}
use cluster_performance_engi.Base.Text.{Bytes, codes, replace_all}
use cluster_performance_engi.Base.Parts.{contains}
use cluster_performance_engi.Base.Decimal.{itoa}
use cluster_performance_engi.Topology.Hints.{SocketSummary, NumaSummary, ClusterHints, empty_hints}

abbrev pub apostrophe : ℕ
apostrophe = b'\''

-- A quote closed, quoted in double quotes, and opened again.
abbrev pub quoted_apostrophe : Bytes
quoted_apostrophe = apostrophe ∷ b'"' ∷ apostrophe ∷ b'"' ∷ apostrophe ∷ []

unfoldable pub shell_quote : Bytes → Bytes
shell_quote s =
    if is_nil s
    then apostrophe ∷ apostrophe ∷ []
    else if contains apostrophe s
    then apostrophe ∷ (replace_all apostrophe quoted_apostrophe s ++ apostrophe ∷ [])
    else apostrophe ∷ (s ++ apostrophe ∷ [])

-- The UTF-8 bytes of the dash in the comments.
abbrev em_dash : Bytes
em_dash = 226 ∷ 128 ∷ 148 ∷ []

abbrev pub number : ℕ → Bytes
number n = itoa (pos n)

-- One line of a script: `%s` with `shellQuote` of a text, or `%d` of a count.
pub data Value : Type 0 where
  quoted : Bytes → Value
  count : ℕ → Value

abbrev pub Export : Type 0
Export = Bytes × Value

unfoldable pub word : Value → Bytes
unfolding shell_quote
word (quoted s) = shell_quote s
word (count n) = number n

abbrev pub newline : ℕ
newline = b'\n'

unfoldable pub export_line : Export → Bytes → Bytes
unfolding word
export_line e rest = codes "export " ++ (e.0 ++ (b'=' ∷ (word e.1 ++ (newline ∷ rest))))

unfoldable pub export_lines : List Export → Bytes
unfolding export_line
export_lines [] = []
export_lines (e ∷ l) = export_line e (export_lines l)

-- `h == nil` stands for the empty hints.
abbrev pub or_empty : Option ClusterHints → ClusterHints
or_empty none = empty_hints []
or_empty (some h) = h

abbrev pub mpirun_args : Bytes
mpirun_args = codes "--bind-to socket --map-by socket"

abbrev pub srun_extra : ClusterHints → Bytes
srun_extra h = codes "--cpu-bind=sockets --cpus-per-task=" ++ number h.suggested_cpus_per_task

abbrev pub hints_exports : ClusterHints → List Export
hints_exports h =
    (codes "NEXUSFLOW_TOPOLOGY_SOURCE", quoted h.source_used)
    ∷ (codes "NEXUSFLOW_LOGICAL_CPUS", count h.logical_cpus)
    ∷ (codes "NEXUSFLOW_PHYSICAL_CORES", count h.physical_cores_total)
    ∷ (codes "NEXUSFLOW_SOCKET_COUNT", count h.socket_count)
    ∷ (codes "NEXUSFLOW_NUMA_NODE_COUNT", count h.numa_node_count)
    ∷ (codes "NEXUSFLOW_MAX_LOGICAL_PER_SOCKET", count h.max_logical_per_socket)
    ∷ (codes "NEXUSFLOW_MAX_LOGICAL_PER_NUMA", count h.max_logical_per_numa_node)
    ∷ (codes "NEXUSFLOW_MIN_LOGICAL_PER_NUMA", count h.min_logical_per_numa_node)
    ∷ (codes "NEXUSFLOW_SUGGEST_CPUS_PER_TASK", count h.suggested_cpus_per_task)
    ∷ (codes "NEXUSFLOW_MAKE_J_LOGICAL", count h.make_j_whole_node)
    ∷ (codes "NEXUSFLOW_FIRST_SOCKET_CPUS", quoted h.first_socket_cpu_list)
    ∷ (codes "NEXUSFLOW_SRUN_EXTRA", quoted (srun_extra h))
    ∷ (codes "NEXUSFLOW_MPIRUN_HINT", quoted mpirun_args)
    ∷ []

abbrev pub shell_comment : Bytes
shell_comment =
    codes "# NexusFlow topology hints "
    ++ em_dash
    ++ codes " eval: eval \"$(nexusflow topology hints --format shell)\""

-- The text that reaches the writer.
unfoldable pub write_hints_shell : Option ClusterHints → Bytes
unfolding export_lines
write_hints_shell h = shell_comment ++ (newline ∷ export_lines (hints_exports (or_empty h)))

abbrev pub openmpi_comment : Bytes
openmpi_comment =
    codes "# Open MPI "
    ++ em_dash
    ++ codes " verify with `ompi_info`; mpirun flags are often more portable."

abbrev pub openmpi_exports : ClusterHints → List Export
openmpi_exports h =
    (codes "NEXUSFLOW_MPIRUN_HINT", quoted mpirun_args)
    ∷ (codes "OMPI_MCA_hwloc_base_binding_policy", quoted (codes "socket"))
    ∷ (codes "OMPI_MCA_rmaps_base_mapping_policy", quoted (codes "socket"))
    ∷ (codes "NEXUSFLOW_SUGGEST_CPUS_PER_TASK", count h.suggested_cpus_per_task)
    ∷ []

unfoldable pub write_hints_openmpi : Option ClusterHints → Bytes
unfolding export_lines
write_hints_openmpi h = openmpi_comment ++ (newline ∷ export_lines (openmpi_exports (or_empty h)))

abbrev pub slurm_comment : Bytes
slurm_comment =
    codes "# Slurm "
    ++ em_dash
    ++ codes " combine exports with SLURM_* set by sbatch/srun on the compute node."

unfoldable pub write_hints_slurm : Option ClusterHints → Bytes
unfolding write_hints_shell
write_hints_slurm h = slurm_comment ++ (newline ∷ write_hints_shell h)

abbrev tab : ℕ
tab = b'\t'

unfoldable socket_lines : ℕ → List SocketSummary → Bytes
socket_lines i [] = []
socket_lines i (s ∷ sockets) =
    codes "socket-"
    ++ number i
    ++ (tab ∷ codes "-j")
    ++ number s.physical_cores
    ++ (tab ∷ codes "package=")
    ++ itoa s.package_id
    ++ codes " logical="
    ++ number s.logical_cpus
    ++ codes " physical_cores="
    ++ number s.physical_cores
    ++ codes " cpulist="
    ++ s.cpu_list
    ++ (newline ∷ socket_lines (suc i) sockets)

unfoldable numa_lines : List NumaSummary → Bytes
numa_lines [] = []
numa_lines (n ∷ nodes) =
    codes "numa-"
    ++ itoa n.node_id
    ++ (tab ∷ codes "cpus=")
    ++ number n.logical_cpus
    ++ (tab ∷ codes "CPU_LIST=")
    ++ n.cpu_list
    ++ (newline ∷ numa_lines nodes)

unfoldable pub format_hints_matrix : Option ClusterHints → Bytes
unfolding socket_lines numa_lines
format_hints_matrix none = []
format_hints_matrix (some h) =
    codes "# NexusFlow node matrix "
    ++ em_dash
    ++ codes " paste into CI logs / runner docs\nscope\tparallelism\tnote\nwhole-node\t-j"
    ++ number h.make_j_whole_node
    ++ codes "\tlogical CPUs (hyperthreads included)\n"
    ++ socket_lines 0 h.sockets
    ++ numa_lines h.numa_nodes
