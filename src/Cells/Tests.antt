-- ===== src/Cells/Tests.antt =====
-- Runs of the daemon's requests, and the theorems about them there.
use cluster_performance_engi.Perf.{open_failed}
use cluster_performance_engi.Cells.Watch.Closed.{open_after, watch_loop-open_after}
use cluster_performance_engi.Cells.Watch.{Round, watch_loop}
use cluster_performance_engi.Cells.Output.{
  IsFair, from_left, from_right, both_done, IsOutput, run_in_cell-IsOutput,
}
use cluster_performance_engi.Cells.Stream.{
  RunCalls, Chunk, chunk_of, last_chunk, exited, pipe_to_stream,
}
use cluster_performance_engi.Cells.Evicting.{evict_foreign-IsForeign}
use cluster_performance_engi.Evict.Foreign.{IsForeign}
use cluster_performance_engi.Evict.{Processes}
use cluster_performance_engi.Base.{
  ◌≡◌, refl, List, [], ◌∷◌, ◌++◌, none, ok, err, All, true, false, is_nil,
}
use cluster_performance_engi.Base.Int.{pos, ℤ}
use cluster_performance_engi.Base.Text.{Bytes, codes}
use cluster_performance_engi.Cells.{CellCalls, cell_path, sanitize_id, attach, is_cell_char, signal}
use cluster_performance_engi.Cells.Paths.{IsCellChar, sanitize_id-IsCellChar}
use cluster_performance_engi.Cells.Server.{
  Request, create, attach_to, serve_all, attach_pid, create_cell, created, evict_foreign, Cells,
  streamed, run_in_cell,
}
use cluster_performance_engi.Cells.Registry.{IsRegistry, serve_all-IsRegistry, attach_pid-serve_all}

abbrev root : Bytes
root = codes "/sys/fs/cgroup/nexusflow-daemon"

abbrev well : CellCalls Bytes
well = record { make_error = none; cpus_error = none; parent_mems = []; mems_error = none }

abbrev requests : List (Request Bytes)
requests =
    create (codes "ml") (pos 2 ∷ pos 3 ∷ []) [] true well
    ∷ attach_to (codes "ml") (pos 41) none
    ∷ []

same_group : cell_path root (codes "a/b") ≡ cell_path root (codes "a.b")
unfolding cell_path is_cell_char
same_group = refl

create_run :
    (create_cell Bytes root [] (codes "ml") (pos 2 ∷ []) [] false well).2
    ≡ ok (created (root ++ codes "/cell-ml"))
unfolding create_cell is_cell_char
create_run = refl

serve_all-IsRegistry_example : IsRegistry root (serve_all Bytes root [] requests)
serve_all-IsRegistry_example = serve_all-IsRegistry root [] requests tt

attach_pid-serve_all_example :
    All
      (λ a. a ≡ attach (cell_path root (codes "ml")) (pos 5))
      (attach_pid Bytes root (serve_all Bytes root [] requests) (codes "ml") (pos 5) none).1
attach_pid-serve_all_example = attach_pid-serve_all root requests (codes "ml") (pos 5) none

sanitize_id-IsCellChar_example :
    All IsCellChar (sanitize_id (codes "../x"))
    × (is_nil (sanitize_id (codes "../x")) ≡ false)
    × (All IsCellChar (codes "../x")
        → is_nil (codes "../x") ≡ false
        → sanitize_id (codes "../x") ≡ codes "../x")
sanitize_id-IsCellChar_example = sanitize_id-IsCellChar (codes "../x")

abbrev procs : Processes Bytes
procs = record {
  self = pos 9;
  entries = ok (record { name = codes "20"; is_dir = true } ∷ []);
  affinity = λ pid. ok (λ cpu. true);
  kill = λ pid sig. none;
}

evict_foreign-IsForeign_example :
    All
      (λ a. (pid : ℤ) × (a ≡ signal pid (pos 19)) × IsForeign procs (pos 2 ∷ []) (pos 9 ∷ []) pid)
      (evict_foreign Bytes root [] (pos 2 ∷ []) (pos 0) false procs).1
evict_foreign-IsForeign_example = evict_foreign-IsForeign root [] (pos 2 ∷ []) (pos 0) false procs

abbrev ml_cells : Cells
ml_cells = (codes "ml", record { path = codes "/cg/cell-ml"; cpus = pos 2 ∷ [] }) ∷ []

-- The error text comes first.
abbrev calls : RunCalls Bytes
calls = record {
  out_pipe = none;
  err_pipe = none;
  start_error = none;
  pid = pos 77;
  out_reads = (codes "a", false) ∷ (codes "b", true) ∷ [];
  err_reads = (codes "e", false) ∷ ([], true) ∷ [];
  merge = λ outs errs. errs ++ outs;
  waited = exited (pos 3);
}

abbrev chunks : List Chunk
chunks =
    chunk_of false (codes "e")
    ∷ chunk_of true (codes "a")
    ∷ chunk_of true (codes "b")
    ∷ last_chunk (exited (pos 3))
    ∷ []

calls-IsFair : IsFair calls
unfolding pipe_to_stream
calls-IsFair =
    let a = chunk_of true (codes "a") in
    let b = chunk_of true (codes "b") in
    from_right (chunk_of false (codes "e")) (a ∷ b ∷ []) [] (a ∷ b ∷ [])
      (from_left a (b ∷ []) [] (b ∷ []) (from_left b [] [] [] both_done))

calls_run :
    (run_in_cell Bytes root ml_cells (codes "ml") (codes "train" ∷ []) calls).2
    ≡ ok (streamed chunks)
unfolding run_in_cell
calls_run = refl

run_in_cell-IsOutput_example : IsOutput calls chunks
run_in_cell-IsOutput_example =
    run_in_cell-IsOutput root ml_cells calls calls-IsFair (codes "ml") (codes "train" ∷ []) chunks
      calls_run

-- The second counter cannot be opened in the second round.
abbrev rounds : List (Round Bytes)
rounds =
    record {
      cancelled = none;
      access = ok (pos 5);
      miss = ok (pos 6);
      access_read = ok (8, 40);
      miss_read = ok (8, 2);
      now = pos 100;
      send_error = none;
    }
    ∷ record {
      cancelled = none;
      access = ok (pos 5);
      miss = err (open_failed (codes "EMFILE"));
      access_read = ok (8, 40);
      miss_read = ok (8, 2);
      now = pos 101;
      send_error = none;
    }
    ∷ []

watch_loop-open_after_example : open_after [] (watch_loop (pos 100_000_000) rounds).0 ≡ []
watch_loop-open_after_example = watch_loop-open_after (pos 100_000_000) rounds
