-- ===== src/Cells/Registry.antt =====
-- What the daemon's registry of cells holds.
use cluster_performance_engi.Cells.Stream.{RunCalls}
use cluster_performance_engi.Base.{
  ℕ, ◌≡◌, ◌≢◌, refl, sym, ◌∙◌, Bool, false, ◌||◌, List, [], ◌∷◌, Option, none, some, Result, ok,
  err, All, is_nil, arith, Bool-cases, inl, inr, ap, subst,
}
use cluster_performance_engi.Base.Int.{ℤ}
use cluster_performance_engi.Base.Text.{Bytes, eqb, eqb_iff}
use cluster_performance_engi.Evict.{Processes, stop_foreign_on_cpus}
use cluster_performance_engi.Hugepages.{Outcome, set_nr_hugepages}
use cluster_performance_engi.Cells.{CellCalls, create_group, cell_path, Action, when_done, attach}
use cluster_performance_engi.Cells.Server.{
  CellMeta, Cells, find, forget, failed_precondition, create_cell, destroy_cell, attach_pid,
  watch_l3, run_in_cell, set_hugepages, evict_foreign, Request, create, destroy, attach_to, run_in,
  watch, pages, evict, serve, serve_all, registered, attached, not_found, checked_watch, pages_set,
  evicted, checked_run, watch_cpus, signal_of, page_size, started,
}

-- Each cell has the path of its id below the root, and at least one CPU.
abbrev IsCell : Bytes → Bytes × CellMeta → Type 0
IsCell root (id, meta) = (meta.path ≡ cell_path root id) × (is_nil meta.cpus ≡ false)

abbrev pub IsRegistry : Bytes → Cells → Type 0
IsRegistry root cells = All (IsCell root) cells

when_done-ok :
    {E : Type 0} (a : Action) (e : Option E) (rest : List Action × Result E Bytes) (path : Bytes)
    → (when_done a e rest).1 ≡ ok path
    → rest.1 ≡ ok path
when_done-ok a (some e) rest path h = ground (arith, h)
when_done-ok a none rest path h = h

create_group-ok :
    {E : Type 0} (root id : Bytes) (cpus mems : List ℤ) (exclusive : Bool) (calls : CellCalls E)
    (path : Bytes)
    → (create_group root id cpus mems exclusive calls).1 ≡ ok path
    → path ≡ cell_path root id
unfolding create_group
create_group-ok root id cpus mems exclusive calls path h = ground (
  arith,
  when_done-ok _ calls.mems_error _ path
      (when_done-ok _ calls.cpus_error _ path (when_done-ok _ calls.make_error _ path h)),
)

forget-IsRegistry :
    (root id : Bytes) (cells : Cells) → IsRegistry root cells → IsRegistry root (forget id cells)
unfolding forget
forget-IsRegistry root id [] h = tt
forget-IsRegistry root id ((k, meta) ∷ cells) h = elim (Bool-cases (eqb id k)) [
  | inl e ↦ rw e (forget-IsRegistry root id cells h.1)
  | inr e ↦ rw e (h.0, forget-IsRegistry root id cells h.1)
]

find-IsCell :
    (root id : Bytes) (cells : Cells) (meta : CellMeta)
    → IsRegistry root cells
    → find id cells ≡ some meta
    → IsCell root (id, meta)
unfolding find
find-IsCell root id [] meta h e = ground (arith, e)
find-IsCell root id ((k, m) ∷ cells) meta h e = elim (Bool-cases (eqb id k)) [
  | inl s ↦
      let same : m ≡ meta = ground (arith, e) in
      let key = (eqb_iff id k).0 s in
      (
        ap (λ x. x.path) (sym same) ∙ h.0.0 ∙ ap (cell_path root) (sym key),
        ap (λ x. is_nil x.cpus) (sym same) ∙ h.0.1,
      )
  | inr s ↦ find-IsCell root id cells meta h.1 (rw s at e)
]

find-forget : (id : Bytes) (cells : Cells) → find id (forget id cells) ≡ none
unfolding find forget
find-forget id [] = refl
find-forget id ((k, m) ∷ cells) = elim (Bool-cases (eqb id k)) [
  | inl e ↦ rw e (find-forget id cells)
  | inr e ↦ rw (e, forget) (rw (e, find) (find-forget id cells))
]

registered-IsRegistry :
    {E : Type 0} (root id : Bytes) (cpus : List ℤ) (cells : Cells)
    (r : List Action × Result E Bytes)
    → is_nil cpus ≡ false
    → ((path : Bytes) → r.1 ≡ ok path → path ≡ cell_path root id)
    → IsRegistry root cells
    → IsRegistry root (registered E root id cpus cells r).0
registered-IsRegistry root id cpus cells (acts, err e) full path_of h = h
registered-IsRegistry root id cpus cells (acts, ok path) full path_of h =
    ((path_of path refl, full), h)

create_cell-IsRegistry :
    {E : Type 0} (root : Bytes) (cells : Cells) (id : Bytes) (cpus mems : List ℤ) (exclusive : Bool)
    (calls : CellCalls E)
    → IsRegistry root cells
    → IsRegistry root (create_cell E root cells id cpus mems exclusive calls).0
unfolding create_cell
create_cell-IsRegistry root cells id cpus mems exclusive calls h =
    let r = create_group root id cpus mems exclusive calls in
    elim (Bool-cases (is_nil id || is_nil cpus)) [
      | inl e ↦ rw e h
      | inr e ↦ rw e (
          registered-IsRegistry root id cpus cells r (ground (arith, e))
            (λ path made. create_group-ok root id cpus mems exclusive calls path made) h)
    ]

module _ (E : Type 0) (root : Bytes) (cells : Cells) where
  attached-same :
      (id : Bytes) (pid : ℤ) (e : Option E) (o : Option CellMeta)
      → (attached E root cells id pid e o).0 ≡ cells
  attached-same id pid e none = refl
  attached-same id pid e (some meta) = refl

  started-same :
      (meta : CellMeta) (calls : RunCalls E) (o e s : Option E)
      → (started E root cells meta calls o e s).0 ≡ cells
  started-same meta calls (some x) e s = refl
  started-same meta calls none (some x) s = refl
  started-same meta calls none none (some x) = refl
  started-same meta calls none none none = refl

  checked_run-same :
      (id : Bytes) (argv : List Bytes) (calls : RunCalls E) (o : Option CellMeta)
      → (checked_run E root cells id argv calls o).0 ≡ cells
  checked_run-same id argv calls none = refl
  checked_run-same id [] calls (some meta) = refl
  checked_run-same id (a ∷ argv) calls (some meta) =
      started-same meta calls calls.out_pipe calls.err_pipe calls.start_error

  watch_cpus-same : (ns : ℤ) (cpus : List ℤ) → (watch_cpus E root cells ns cpus).0 ≡ cells
  watch_cpus-same ns [] = refl
  watch_cpus-same ns (c ∷ cpus) = refl

  checked_watch-same :
      (id : Bytes) (ns : ℤ) (o : Option CellMeta) → (checked_watch E root cells id ns o).0 ≡ cells
  checked_watch-same id ns none = refl
  checked_watch-same id ns (some meta) = watch_cpus-same ns meta.cpus

  pages_set-same : (r : Outcome E) → (pages_set E root cells r).0 ≡ cells
  pages_set-same (writes, err e) = refl
  pages_set-same (writes, ok v) = refl

  evicted-same : (r : List (ℤ × ℤ) × Result E ℕ) → (evicted E root cells r).0 ≡ cells
  evicted-same (signals, err e) = refl
  evicted-same (signals, ok n) = refl

  evict_foreign-same :
      (cpus : List ℤ) (sig : ℤ) (dry_run : Bool) (procs : Processes E)
      → (evict_foreign E root cells cpus sig dry_run procs).0 ≡ cells
  unfolding evict_foreign
  evict_foreign-same [] sig dry_run procs = refl
  evict_foreign-same (c ∷ cpus) sig dry_run procs =
      evicted-same (stop_foreign_on_cpus procs (c ∷ cpus) (procs.self ∷ []) (signal_of sig) dry_run)

serve-IsRegistry :
    {E : Type 0} (root : Bytes) (cells : Cells) (r : Request E)
    → IsRegistry root cells
    → IsRegistry root (serve E root cells r).0
unfolding serve destroy_cell attach_pid run_in_cell watch_l3 set_hugepages
serve-IsRegistry root cells (create id cpus mems exclusive calls) h =
    create_cell-IsRegistry root cells id cpus mems exclusive calls h
serve-IsRegistry root cells (destroy id remove_error) h = forget-IsRegistry root id cells h
serve-IsRegistry {E = E} root cells (attach_to id pid e) h =
    subst (IsRegistry root) (sym (attached-same E root cells id pid e (find id cells))) h
serve-IsRegistry {E = E} root cells (run_in id argv calls) h =
    subst (IsRegistry root) (sym (checked_run-same E root cells id argv calls (find id cells))) h
serve-IsRegistry {E = E} root cells (watch id ns) h =
    subst (IsRegistry root) (sym (checked_watch-same E root cells id ns (find id cells))) h
serve-IsRegistry {E = E} root cells (pages ps n write read) h =
    subst (IsRegistry root)
      (sym (pages_set-same E root cells (set_nr_hugepages (page_size ps) n write read))) h
serve-IsRegistry {E = E} root cells (evict cpus sig dry_run procs) h =
    subst (IsRegistry root) (sym (evict_foreign-same E root cells cpus sig dry_run procs)) h

-- Every list of requests keeps the registry well formed: each cell has the path that belongs to
-- its id below the root, and at least one CPU.
pub serve_all-IsRegistry :
    {E : Type 0} (root : Bytes) (cells : Cells) (requests : List (Request E))
    → IsRegistry root cells
    → IsRegistry root (serve_all E root cells requests)
serve_all-IsRegistry root cells [] h = h
serve_all-IsRegistry {E = E} root cells (r ∷ requests) h =
    serve_all-IsRegistry root (serve E root cells r).0 requests (serve-IsRegistry root cells r h)

watched :
    {E : Type 0} (root : Bytes) (cells : Cells) (id : Bytes) (ns : ℤ) (o : Option CellMeta)
    → ((meta : CellMeta) → o ≡ some meta → is_nil meta.cpus ≡ false)
    → (checked_watch E root cells id ns o).2 ≢ err failed_precondition
watched root cells id ns none full e = ground (arith, e)
watched {E = E} root cells id ns (some meta) full e = has_cpu meta.cpus (full meta refl) e
  where
    has_cpu :
        (cpus : List ℤ)
        → is_nil cpus ≡ false
        → (watch_cpus E root cells ns cpus).2 ≢ err failed_precondition
    has_cpu [] h e = ground (arith, h)
    has_cpu (c ∷ cpus) h e = ground (arith, e)

-- After any list of requests to a new daemon, `WatchL3` never reports a cell without CPUs.
pub watch_l3-serve_all :
    {E : Type 0} (root : Bytes) (requests : List (Request E)) (id : Bytes) (ns : ℤ)
    → (watch_l3 E root (serve_all E root [] requests) id ns).2 ≢ err failed_precondition
unfolding watch_l3
watch_l3-serve_all {E = E} root requests id ns =
    let cells = serve_all E root [] requests in
    watched root cells id ns (find id cells)
      (λ meta e. (find-IsCell root id cells meta (serve_all-IsRegistry root [] requests tt) e).1)

-- After `DestroyCell`, whether or not the group could be removed, attaching a process to the cell
-- reports that it is not there.
pub destroy_cell-forgets :
    {E : Type 0} (root : Bytes) (cells : Cells) (id : Bytes) (pid : ℤ)
    (remove_error attach_error : Option E)
    → (attach_pid E root (destroy_cell E root cells id remove_error).0 id pid attach_error).2
      ≡ err (not_found id)
unfolding destroy_cell attach_pid
destroy_cell-forgets root cells id pid remove_error attach_error = rw (find-forget id cells) refl

-- After any list of requests to a new daemon, attaching a process to a cell writes at most one
-- file, the process list in the group of that cell's id.
pub attach_pid-serve_all :
    {E : Type 0} (root : Bytes) (requests : List (Request E)) (id : Bytes) (pid : ℤ)
    (attach_error : Option E)
    → All
        (λ a. a ≡ attach (cell_path root id) pid)
        (attach_pid E root (serve_all E root [] requests) id pid attach_error).1
unfolding attach_pid
attach_pid-serve_all {E = E} root requests id pid attach_error =
    let cells = serve_all E root [] requests in
    placed cells (find id cells)
      (λ meta e. (find-IsCell root id cells meta (serve_all-IsRegistry root [] requests tt) e).0)
  where
    placed :
        (cells : Cells) (o : Option CellMeta)
        → ((meta : CellMeta) → o ≡ some meta → meta.path ≡ cell_path root id)
        → All
            (λ a. a ≡ attach (cell_path root id) pid)
            (attached E root cells id pid attach_error o).1
    placed cells none h = tt
    placed cells (some meta) h = (ap (λ p. attach p pid) (h meta refl), tt)
