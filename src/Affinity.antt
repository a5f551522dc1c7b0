-- ===== src/Affinity.antt =====
-- nexusflow/pkg/affinity: the command line that pins a command to CPUs (command_linux.go), and the
-- calls of `Run` before it replaces the process (run_linux.go).
use cluster_performance_engi.Base.{
  Bool, not, List, [], ◌∷◌, ◌++◌, Option, none, some, Result, ok, err, ◌>>=◌, ◌>>◌, fail_if, is_nil,
  if◌then◌else◌,
}
use cluster_performance_engi.Base.Int.{ℤ, pos, ltb_ℤ}
use cluster_performance_engi.Base.Text.{Bytes, codes}
use cluster_performance_engi.Topology.CpuList.{cpus_to_taskset_spec}

pub data CommandError : Type 0 where
  empty_argv taskset_required : CommandError

-- `has_taskset`: `exec.LookPath` finds the program.
unfoldable pub command : Bool → List ℤ → List Bytes → Result CommandError (List Bytes)
command has_taskset cpus [] = err empty_argv
command has_taskset cpus (a ∷ argv) =
    if is_nil cpus
    then ok (a ∷ argv)
    else if not has_taskset
    then err taskset_required
    else if is_nil (cpus_to_taskset_spec cpus)
    then ok (a ∷ argv)
    else ok (codes "taskset" ∷ codes "-c" ∷ cpus_to_taskset_spec cpus ∷ a ∷ argv)

pub data RunError (E : Type 0) : Type 0 where
  empty_command empty_cpu_list : RunError E
  lookpath_failed setpriority_failed sched_setaffinity_failed exec_failed : E → RunError E
  invalid_cpu_id : ℤ → RunError E

-- `CPUSet.Set` of each id.
pub cpu_set : {E : Type 0} → List ℤ → List ℤ → Result (RunError E) (List ℤ)
cpu_set set [] = ok set
cpu_set set (id ∷ cpus) =
    let rest = cpu_set (set ++ id ∷ []) cpus in
    if ltb_ℤ id (pos 0) then err (invalid_cpu_id id) else rest

abbrev pub checked : {E : Type 0} → (E → RunError E) → Option E → Result (RunError E) (Unit {0})
checked failure none = ok tt
checked failure (some e) = err (failure e)

abbrev pub priority : {E : Type 0} → Option ℤ → (ℤ → Option E) → Result (RunError E) (Unit {0})
priority none setpriority = ok tt
priority (some nice) setpriority = checked setpriority_failed (setpriority nice)

-- `Run`: it returns only if something fails. `replace` is `syscall.Exec` with the path.
module _ {E : Type 0} (look_path : Bytes → Result E Bytes) (setpriority : ℤ → Option E)
    (setaffinity : List ℤ → Option E) (replace : Bytes → List Bytes → E) where
  abbrev pub found : Result E Bytes → Result (RunError E) Bytes
  found (err e) = err (lookpath_failed e)
  found (ok path) = ok path

  unfoldable pub run_pinned : List ℤ → List Bytes → Option ℤ → Result (RunError E) (Unit {0})
  unfolding cpu_set
  run_pinned cpus [] nice = err empty_command
  run_pinned cpus (a ∷ argv) nice = do
    fail_if (is_nil cpus) empty_cpu_list
    path ← found (look_path a)
    set ← cpu_set [] cpus
    priority nice setpriority
    checked sched_setaffinity_failed (setaffinity set)
    err (exec_failed (replace path (a ∷ argv)))
