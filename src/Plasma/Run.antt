-- ===== src/Plasma/Run.antt =====
-- nexusflow/pkg/plasma/coordinator_linux.go: `Run`, which sets the coordinator up and takes it
-- down, and `execNode`. What the system returns and the loop are arguments; the calls that are
-- made are a list of actions.
pub mod Cleanup
mod Tests
use cluster_performance_engi.Base.{
  ◌≡◌, Bool, true, false, List, [], ◌∷◌, ◌++◌, map, Option, none, some, Result, ok, err, is_nil,
  if◌then◌else◌,
}
use cluster_performance_engi.Base.Int.{ℤ}
use cluster_performance_engi.Base.Text.{Bytes, codes}
use cluster_performance_engi.Base.Decimal.{itoa}
use cluster_performance_engi.Dag.Spec.{Node, Pipeline}
use cluster_performance_engi.Dag.Load.{LoadError}
use cluster_performance_engi.Affinity.{CommandError, command}
use cluster_performance_engi.Topology.Snapshot.{Topology}
use cluster_performance_engi.Topology.Placement.{PlacementError, select_cpus}
use cluster_performance_engi.Shm as shm
use cluster_performance_engi.Shm.{Segment, ShmError, Calls, shm_dir, create_named, remove, works}
use cluster_performance_engi.Plasma.Coordinator.{Config, ConfigError, checked_config}

-- The flag of `remove_stale` says whether it worked. The results of removing the socket and of its
-- change of mode are passed over.
pub data RunAction : Type 0 where
  segment : shm.Action → RunAction
  remove_stale : Bytes → Bool → RunAction
  remove_socket listen close_listener chmod_socket : Bytes → RunAction
  dump_samples : RunAction

pub data RunError (E : Type 0) : Type 0 where
  bad_config : ConfigError → RunError E
  load_failed : LoadError E → RunError E
  shm_failed : ShmError E → RunError E
  listen_failed loop_failed : E → RunError E

-- What the system returns. `stale_error` is the error of removing a stale file of the segment's
-- name, also when there is none: it is logged at most. `loop_error` is what `coord.loop` returned, and the last two are the
-- results of unmapping and of unlinking the segment.
pub record Outcomes (E : Type 0) : Type 0 where
  pub stale_error : Option E
  pub loaded : Result (LoadError E) Pipeline
  pub shm_calls : Calls E
  pub listen_error : Option E
  pub loop_error : Option E
  pub unmap_error : Option E
  pub unlink_error : Option E

module _ {E : Type 0} (clean : Bytes → Bytes) (o : Outcomes E) where
  abbrev pub Done : Type 0
  Done = List RunAction × Option (RunError E)

  -- `seg.Remove()`, whose error is passed over.
  abbrev pub remove_segment : Segment → List RunAction
  remove_segment s = map segment (remove s o.unmap_error o.unlink_error).0

  abbrev pub loop_result : Option E → Option (RunError E)
  loop_result none = none
  loop_result (some e) = some (loop_failed e)

  -- The loop, and the deferred calls.
  abbrev pub serve : Config → Segment → Done
  serve cfg s = (
    close_listener cfg.socket_path
        ∷ remove_socket cfg.socket_path
        ∷ dump_samples
        ∷ remove_segment s,
    loop_result o.loop_error,
  )

  abbrev pub after_listen : Config → Segment → Option E → Done
  after_listen cfg s (some e) = (remove_segment s, some (listen_failed e))
  after_listen cfg s none =
      let (acts, e) = serve cfg s in
      (listen cfg.socket_path ∷ chmod_socket cfg.socket_path ∷ acts, e)

  abbrev pub after_shm : Config → List shm.Action × Result (ShmError E) Segment → Done
  after_shm cfg (acts, err e) = (map segment acts, some (shm_failed e))
  after_shm cfg (acts, ok s) =
      let (more, e) = after_listen cfg s o.listen_error in
      (map segment acts ++ (remove_socket cfg.socket_path ∷ more), e)

  abbrev pub after_load : Config → Result (LoadError E) Pipeline → Done
  after_load cfg (err e) = ([], some (load_failed e))
  after_load cfg (ok p) = after_shm cfg (create_named cfg.shm_name cfg.shm_size o.shm_calls)

  -- `clean` is `filepath.Clean`, by which `filepath.Join` ends.
  abbrev pub after_config : Result ConfigError Config → Done
  after_config (err e) = ([], some (bad_config e))
  after_config (ok cfg) =
      let (acts, e) = after_load cfg o.loaded in
      (remove_stale (clean (shm_dir ++ cfg.shm_name)) (works o.stale_error) ∷ acts, e)

  unfoldable pub run : Config → Bool → Done
  unfolding create_named remove
  run cfg has_topology = after_config (checked_config cfg has_topology)

pub data NodeError : Type 0 where
  select_failed : Bytes → PlacementError → NodeError
  command_failed : Bytes → CommandError → NodeError

-- The command line of a node, and what its environment gets.
abbrev pub environment : Bytes → Segment → Bytes → List Bytes
environment socket_path s id =
    (codes "NEXUSFLOW_PLASMA_SOCK=" ++ socket_path)
    ∷ (codes "NEXUSFLOW_NODE_ID=" ++ id)
    ∷ (codes "NEXUSFLOW_SHM_PATH=" ++ s.path)
    ∷ (codes "NEXUSFLOW_SHM_SIZE=" ++ itoa s.size)
    ∷ []

abbrev pub node_command :
    Bytes
    → Segment
    → Node
    → Result CommandError (List Bytes)
    → Result NodeError (List Bytes × List Bytes)
node_command socket_path s n (err e) = err (command_failed n.id e)
node_command socket_path s n (ok argv) = ok (argv, environment socket_path s n.id)

abbrev pub node_cpus :
    Bool
    → Bytes
    → Segment
    → Node
    → Result PlacementError (List ℤ)
    → Result NodeError (List Bytes × List Bytes)
node_cpus has_taskset socket_path s n (err e) = err (select_failed n.id e)
node_cpus has_taskset socket_path s n (ok cpus) =
    node_command socket_path s n (command has_taskset cpus n.cmd)

-- `execNode`, up to the start of the process.
unfoldable pub exec_node :
    Bool → Topology → Bytes → Segment → Node → Result NodeError (List Bytes × List Bytes)
exec_node has_taskset topo socket_path s n =
    node_cpus has_taskset socket_path s n (select_cpus topo n.cpus n.numa_node (codes "same-numa"))
