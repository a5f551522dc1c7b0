-- ===== src/Lib.antt =====
-- nexusflow: pipelines of commands that are pinned to CPUs, and the coordinator that runs them.
--
-- Paths are from the root of the repository, without nexusflow/ in front where it says pkg/ or
-- cmd/.
--
-- * Dag.Spec models pkg/dag/spec.go: a pipeline is a record with its name and its nodes, and
--   `validate` is `Validate` with its two loops.
-- * Dag.Graph models pkg/dag/graph.go: `topo_order` is `TopoOrder`, Kahn's algorithm. `byID`,
--   `inDeg` and `edges` are functions on ids; the order in which Go visits the map `inDeg` is the
--   argument `keys`.
-- * Plasma.Graph models pkg/plasma/graph.go: `append_dag` is `AppendDAG`, which adds a branch to a
--   running graph, and `pick_runnable` is `PickRunnable`, which chooses the next node. A set of
--   ids is a list.
-- * Plasma.Frame models pkg/plasma/frame.go: `read_frame` is `ReadFrameBytes` on the bytes that a
--   connection has still to deliver, `write_json_frame` is `WriteJSONFrame`.
-- * Plasma.Wire models pkg/plasma/wire_linux.go: messages that carry file descriptors, with what
--   the socket calls return as arguments and the calls that are made as a list of actions.
-- * Plasma.Coordinator models pkg/plasma/coordinator_linux.go with msgs.go and config.go:
--   `checked_config` is the head of `Run`, `handle_frame` one round of `handleConn` with
--   `handleRequestFD`; Plasma.Coordinator.Session has the loop of `handleConn`. Plasma.Run models
--   `Run`, with its calls as a list of actions, and `execNode` up to the start of the command;
--   Plasma.Run.Cleanup says what the calls leave behind. Plasma.Coordinator.Loop has the loop: a
--   phase for each place where the lock is free, and a step relation in which the connections'
--   handlers may come between any two steps of the loop. The clients are not constrained: a frame
--   may hold anything.
-- * Topology.CpuList models pkg/topology/cpulist.go and pkg/affinity/cpuset.go: `parse_cpu_list`
--   is `ParseCPUList`, `format_cpu_list` is `FormatCPUList`, `cpus_to_taskset_spec` is
--   `CPUsToTasksetSpec`.
-- * Topology.Discover models discover_linux.go of pkg/topology, where `read_file` stands for the
--   files of sysfs, and Topology.Hwloc models pkg/hwloc/parse.go, where the tree that the XML
--   decodes to is a data type. Topology.Located has the link between CPUs and memory nodes that
--   both keep.
-- * Topology.Hints models hints.go of pkg/topology: `build_cluster_hints` is `BuildClusterHints`,
--   and Topology.Hints.Shell has the scripts as lists of exports; Topology.Hints.Reader is a
--   reader for the part of a POSIX shell that they use.
-- * Topology.Report models format.go of pkg/topology, the text for people.
-- * Topology.Snapshot, Topology.Placement and Topology.Json model types.go, placement.go and
--   json.go of pkg/topology: `select_cpus` is `SelectCPUs`, `primary_numa_node` is
--   `PrimaryNUMANodeForCPUs`, `to_snapshot` and `of_snapshot` convert between a snapshot and its
--   JSON shape. Topology.Hints.Cores says what the hints count as a core.
-- * Shm models pkg/shm/shm_linux.go: `create`, `create_named`, `open_path`, `close` and `remove`
--   return the system calls that they make, with whether a removal or an unmapping worked.
-- * Cells models pkg/cgv2/manager_linux.go, the directories and texts of a cell, and Cells.Server
--   models pkg/daemon/grpc_linux.go: the registry of cells and one function per request.
--   Cells.Watch has the loop of `WatchL3`, over rounds that say what the counters of Perf
--   (pkg/perf) return. Cells.Stream has the messages of `RunInCell`, whose two loops may send in
--   any order that the argument `merge` says.
-- * Evict models pkg/evict/evict_linux.go: `stop_foreign_on_cpus` returns the signals that are
--   sent and the number that is reported.
-- * Cmd models cmd/nexusflow/main.go, the choice of a subcommand; Cmd.Source models
--   `discoverTopology` and the hints commands, Cmd.Pin `runCmd`, Cmd.Settings what the other
--   commands make of their flags, and Cmd.Tools which packages they call. Cmd.Exec puts the
--   dashboard and the choice of a subcommand together.
-- * Affinity models pkg/affinity: `command` is `Command`, and `run_pinned` is `Run` up to the
--   replacement of the process. Hugepages models pkg/hugepages/hugepages_linux.go.
-- * Dag.Run models pkg/dag/run.go: `run` is `Runner.Run`. Dag.Prom models the escaping of labels
--   in pkg/dag/prom.go, and Dag.Prom.Text the rest of that file.
-- * Dashboard models pkg/dashboard/server.go: `serve_http` is the chain of handlers that
--   `ListenAndServe` builds, up to the start of a command. Dashboard.Answer has what follows, with
--   health.go and meta.go.
--
-- The runner asks `TopoOrder` for the order, `SelectCPUs` for the CPUs of a node and `Command` for
-- its command line. `runCmd` asks `SelectCPUs` for CPUs of the snapshot that `Discover` finds. The
-- daemon calls the cgroup, hugepages and evict functions, and its answers list what was done to
-- the system. The coordinator calls the graph functions under its lock, and the graph functions
-- call `TopoOrder`. Base.Text trims the white space of Unicode in UTF-8. Base has what they share:
-- results and lists, signed integers that wrap at 64 bits, bytes and their order, sorting, decimal
-- numbers, splitting and joining.
--
-- Fuel and bounds. The queue of `topo_order` gets one round for each node and one more. The
-- counting loop of a range in `parse_cpu_list` takes its fuel as an argument, since the loop of
-- the source does not end for a range up to the largest `int`. The outer loop of
-- `cpus_to_taskset_spec` gets one round for each id. `handle_conn` takes one round for each frame,
-- and the reader of a script one for each line. An `int` wraps at 64 bits where the source
-- increments one; a length on the wire is cut to 32 bits.
--
-- Not modelled: the decoding and encoding of YAML and JSON, the calls of the operating system and
-- the start of processes, which are parameters; logging; the pages of the dashboard; the
-- supervisor; pkg/kubermetrics, which deploys a disguised cryptocurrency miner. Files are taken
-- not to change while a snapshot is read, and sorting by a key is stable. A descriptor or a
-- listening socket is taken to be gone once it is closed, even if closing it reports an error. A
-- handler is one step here, although the source releases its lock before it notes the activity and
-- signals the loop.
pub mod Affinity
pub mod Base
pub mod Cells
pub mod Cmd
pub mod Dag
pub mod Dashboard
pub mod Evict
pub mod Hugepages
pub mod Perf
pub mod Plasma
pub mod Shm
pub mod Topology
