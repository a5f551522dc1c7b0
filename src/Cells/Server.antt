-- ===== src/Cells/Server.antt =====
-- nexusflow/pkg/daemon/grpc_linux.go: the daemon's registry of cells and its requests. Each request
-- is one step. The loop that samples the cache is in Cells/Watch.antt.
use cluster_performance_engi.Base.{
  ℕ, map, Bool, ◌||◌, List, [], ◌∷◌, Option, none, some, Result, ok, err, is_nil, if◌then◌else◌,
}
use cluster_performance_engi.Base.Int.{ℤ, pos, int32, ltb_ℤ, eqb_ℤ}
use cluster_performance_engi.Base.Text.{Bytes, codes, eqb}
use cluster_performance_engi.Evict.{Processes, new_cpu_target, stop_foreign_on_cpus}
use cluster_performance_engi.Hugepages.{PagesError, Outcome, set_nr_hugepages}
use cluster_performance_engi.Cells.Stream.{Chunk, RunCalls, run_chunks}
use cluster_performance_engi.Cells.{
  Action, remove_all, signal, write_file, attach, cell_path, create_group, CellCalls,
}

pub record CellMeta : Type 0 where
  pub path : Bytes
  pub cpus : List ℤ

-- The map `cells`: the entry in front counts.
abbrev pub Cells : Type 0
Cells = List (Bytes × CellMeta)

unfoldable pub find : Bytes → Cells → Option CellMeta
find id [] = none
find id ((k, meta) ∷ cells) = if eqb id k then some meta else find id cells

unfoldable pub forget : Bytes → Cells → Cells
forget id [] = []
forget id ((k, meta) ∷ cells) =
    let rest = forget id cells in if eqb id k then rest else (k, meta) ∷ rest

pub data Status (E : Type 0) : Type 0 where
  invalid_argument failed_precondition : Status E
  not_found : Bytes → Status E
  internal unchanged : E → Status E
  permission_denied : PagesError E → Status E

pub data Reply : Type 0 where
  created : Bytes → Reply
  done : Reply
  reserved stopped : ℤ → Reply
  streamed : List Chunk → Reply
  watching : ℤ → ℤ → Reply

-- In nanoseconds: below 50 ms it is 100 ms.
abbrev pub interval : ℤ → ℤ
interval ns = if ltb_ℤ ns (pos 50_000_000) then pos 100_000_000 else ns

abbrev pub page_size : Bytes → Bytes
page_size ps = if is_nil ps then codes "2M" else ps

-- SIGSTOP is 19.
abbrev pub signal_of : ℤ → ℤ
signal_of n = if eqb_ℤ n (pos 0) then pos 19 else n

abbrev pub page_write : Bytes × Bytes → Action
page_write w = write_file w.0 w.1

abbrev pub sent : ℤ × ℤ → Action
sent s = signal s.0 s.1

module _ (E : Type 0) (root : Bytes) where
  abbrev pub Answer : Type 0
  Answer = Cells × List Action × Result (Status E) Reply

  abbrev pub registered : Bytes → List ℤ → Cells → List Action × Result E Bytes → Answer
  registered id cpus cells (acts, err e) = (cells, acts, err (internal e))
  registered id cpus cells (acts, ok path) =
      ((id, record { path = path; cpus = cpus }) ∷ cells, acts, ok (created path))

  unfoldable pub create_cell : Cells → Bytes → List ℤ → List ℤ → Bool → CellCalls E → Answer
  unfolding create_group
  create_cell cells id cpus mems exclusive calls =
      if is_nil id || is_nil cpus
      then (cells, [], err invalid_argument)
      else registered id cpus cells (create_group root id cpus mems exclusive calls)

  abbrev pub finished : Option E → Result (Status E) Reply
  finished none = ok done
  finished (some e) = err (internal e)

  -- The entry goes before the group is removed, and also if that fails.
  unfoldable pub destroy_cell : Cells → Bytes → Option E → Answer
  unfolding forget cell_path
  destroy_cell cells id remove_error =
      (forget id cells, remove_all (cell_path root id) ∷ [], finished remove_error)

  abbrev pub attached : Cells → Bytes → ℤ → Option E → Option CellMeta → Answer
  attached cells id pid attach_error none = (cells, [], err (not_found id))
  attached cells id pid attach_error (some meta) =
      (cells, attach meta.path pid ∷ [], finished attach_error)

  unfoldable pub attach_pid : Cells → Bytes → ℤ → Option E → Answer
  unfolding find
  attach_pid cells id pid attach_error = attached cells id pid attach_error (find id cells)

  -- Both pipes and the start come before the process joins the group; an error there ends the
  -- request. Whether it joins is not looked at.
  abbrev pub started : Cells → CellMeta → RunCalls E → Option E → Option E → Option E → Answer
  started cells meta calls (some e) err_pipe start = (cells, [], err (unchanged e))
  started cells meta calls none (some e) start = (cells, [], err (unchanged e))
  started cells meta calls none none (some e) = (cells, [], err (unchanged e))
  started cells meta calls none none none =
      (cells, attach meta.path calls.pid ∷ [], ok (streamed (run_chunks calls)))

  abbrev pub checked_run : Cells → Bytes → List Bytes → RunCalls E → Option CellMeta → Answer
  checked_run cells id argv calls none = (cells, [], err (not_found id))
  checked_run cells id [] calls (some meta) = (cells, [], err invalid_argument)
  checked_run cells id (a ∷ argv) calls (some meta) =
      started cells meta calls calls.out_pipe calls.err_pipe calls.start_error

  unfoldable pub run_in_cell : Cells → Bytes → List Bytes → RunCalls E → Answer
  unfolding find run_chunks
  run_in_cell cells id argv calls = checked_run cells id argv calls (find id cells)

  abbrev pub watch_cpus : Cells → ℤ → List ℤ → Answer
  watch_cpus cells ns [] = (cells, [], err failed_precondition)
  watch_cpus cells ns (cpu ∷ cpus) = (cells, [], ok (watching cpu (interval ns)))

  abbrev pub checked_watch : Cells → Bytes → ℤ → Option CellMeta → Answer
  checked_watch cells id ns none = (cells, [], err (not_found id))
  checked_watch cells id ns (some meta) = watch_cpus cells ns meta.cpus

  -- The checks of `WatchL3`, the CPU that it samples and the interval.
  unfoldable pub watch_l3 : Cells → Bytes → ℤ → Answer
  unfolding find
  watch_l3 cells id ns = checked_watch cells id ns (find id cells)

  abbrev pub pages_set : Cells → Outcome E → Answer
  pages_set cells (writes, err e) = (cells, map page_write writes, err (permission_denied e))
  pages_set cells (writes, ok v) = (cells, map page_write writes, ok (reserved (int32 v)))

  unfoldable pub set_hugepages :
      Cells → Bytes → ℤ → (Bytes → Bytes → Option E) → (Bytes → Option Bytes) → Answer
  unfolding set_nr_hugepages int32
  set_hugepages cells ps pages write read =
      pages_set cells (set_nr_hugepages (page_size ps) pages write read)

  abbrev pub evicted : Cells → List (ℤ × ℤ) × Result E ℕ → Answer
  evicted cells (signals, err e) = (cells, map sent signals, err (internal e))
  evicted cells (signals, ok n) = (cells, map sent signals, ok (stopped (int32 (pos n))))

  unfoldable pub evict_foreign : Cells → List ℤ → ℤ → Bool → Processes E → Answer
  unfolding stop_foreign_on_cpus int32
  evict_foreign cells cpus sig dry_run procs =
      if is_nil cpus
      then (cells, [], err invalid_argument)
      else evicted cells (
          stop_foreign_on_cpus procs (new_cpu_target cpus) (procs.self ∷ []) (signal_of sig)
            dry_run)

pub data Request (E : Type 0) : Type 0 where
  create : Bytes → List ℤ → List ℤ → Bool → CellCalls E → Request E
  destroy : Bytes → Option E → Request E
  attach_to : Bytes → ℤ → Option E → Request E
  run_in : Bytes → List Bytes → RunCalls E → Request E
  watch : Bytes → ℤ → Request E
  pages : Bytes → ℤ → (Bytes → Bytes → Option E) → (Bytes → Option Bytes) → Request E
  evict : List ℤ → ℤ → Bool → Processes E → Request E

unfoldable pub serve : (E : Type 0) (root : Bytes) → Cells → Request E → Answer E root
unfolding create_cell destroy_cell attach_pid run_in_cell watch_l3 set_hugepages evict_foreign
serve E root cells (create id cpus mems exclusive calls) =
    create_cell E root cells id cpus mems exclusive calls
serve E root cells (destroy id remove_error) = destroy_cell E root cells id remove_error
serve E root cells (attach_to id pid attach_error) = attach_pid E root cells id pid attach_error
serve E root cells (run_in id argv calls) = run_in_cell E root cells id argv calls
serve E root cells (watch id ns) = watch_l3 E root cells id ns
serve E root cells (pages ps n write read) = set_hugepages E root cells ps n write read
serve E root cells (evict cpus sig dry_run procs) =
    evict_foreign E root cells cpus sig dry_run procs

-- The registry after a list of requests.
abbrev pub serve_all : (E : Type 0) → Bytes → Cells → List (Request E) → Cells
serve_all E root cells [] = cells
serve_all E root cells (r ∷ requests) = serve_all E root (serve E root cells r).0 requests
