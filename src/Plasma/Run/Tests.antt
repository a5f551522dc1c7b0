-- ===== src/Plasma/Run/Tests.antt =====
-- Runs of the set-up and tear-down, and the theorem about them there.
use cluster_performance_engi.Base.{◌≡◌, refl, [], ◌∷◌, ◌++◌, none, some, ok, true}
use cluster_performance_engi.Base.Int.{pos}
use cluster_performance_engi.Base.Text.{Bytes, codes}
use cluster_performance_engi.Dag.Spec.{Pipeline}
use cluster_performance_engi.Shm as shm
use cluster_performance_engi.Shm.{shm_dir, create_named}
use cluster_performance_engi.Plasma.Coordinator.{Config, checked_config}
use cluster_performance_engi.Plasma.Run.{
  Outcomes, run, segment, remove_stale, remove_socket, listen_failed,
}
use cluster_performance_engi.Plasma.Run.Cleanup.{World, steps, left, run-left}

abbrev config : Config
config = record {
  socket_path = codes "/tmp/s";
  pipeline_path = codes "p.yaml";
  shm_name = codes "plasma";
  shm_size = pos 0;
  idle_exit = pos 0;
}

abbrev no_pipeline : Pipeline
no_pipeline = record { name = codes "p"; nodes = [] }

abbrev busy_socket : Outcomes Bytes
busy_socket = record {
  stale_error = none;
  loaded = ok no_pipeline;
  shm_calls = record {
    open_error = none;
    truncate_error = none;
    map_error = none;
    close_error = none;
    unmap_error = none;
    remove_error = none;
  };
  listen_error = some (codes "EADDRINUSE");
  loop_error = none;
  unmap_error = none;
  unlink_error = none;
}

abbrev same_path : Bytes → Bytes
same_path p = p

abbrev path : Bytes
path = shm_dir ++ codes "plasma"

a_busy_socket : run same_path busy_socket config true ≡ (
  remove_stale path true
      ∷ segment (shm.open_file path)
      ∷ segment shm.truncate
      ∷ segment shm.map_file
      ∷ segment shm.close_file
      ∷ remove_socket (codes "/tmp/s")
      ∷ segment (shm.unmap true)
      ∷ segment (shm.remove_file path true)
      ∷ [],
  some (listen_failed (codes "EADDRINUSE")),
)
unfolding run create_named checked_config
a_busy_socket = refl

abbrev crashed : World
crashed = record {
  held = record { files = path ∷ codes "/dev/shm/other" ∷ []; handles = 3; mappings = 0 };
  listeners = 0;
}

run-left_example :
    steps crashed (run same_path busy_socket config true).0
    ≡ left same_path busy_socket refl refl refl refl crashed (checked_config config true)
run-left_example = run-left same_path busy_socket refl refl refl refl config true crashed
