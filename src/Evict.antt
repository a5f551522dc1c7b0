-- ===== src/Evict.antt =====
-- nexusflow/pkg/evict/evict_linux.go: signals to the processes that may run on given CPUs. What the
-- system calls return is given by `Processes`.
pub mod Foreign
mod Tests
use cluster_performance_engi.Base.{
  ℕ, suc, Bool, true, false, ◌&&◌, ◌||◌, List, [], ◌∷◌, ◌++◌, Option, none, some, Result, ok, err,
  any, if◌then◌else◌,
}
use cluster_performance_engi.Base.Int.{ℤ, pos, eqb_ℤ, leb_ℤ}
use cluster_performance_engi.Base.Files.{Entry}
use cluster_performance_engi.Base.Decimal.{atoi}
use cluster_performance_engi.Topology.CpuList.{seen}

-- `Mask`: the ids of the set.
abbrev pub CpuTarget : Type 0
CpuTarget = List ℤ

abbrev pub new_cpu_target : List ℤ → CpuTarget
new_cpu_target cpus = cpus

-- The process itself, the entries of /proc, `SchedGetaffinity` with `IsSet` of its set, and `Kill`.
pub record Processes (E : Type 0) : Type 0 where
  pub self : ℤ
  pub entries : Result E (List Entry)
  pub affinity : ℤ → Result E (ℤ → Bool)
  pub kill : ℤ → ℤ → Option E

abbrev pub cpu_set_intersects : (ℤ → Bool) → CpuTarget → Bool
cpu_set_intersects is_set target = any is_set target

abbrev pub some_if : Bool → ℤ → Option ℤ
some_if b pid = if b then some pid else none

abbrev pub add_pid : Option ℤ → List ℤ → List ℤ
add_pid none out = out
add_pid (some pid) out = out ++ pid ∷ []

unfoldable pub threads : List Entry → List ℤ → List ℤ
threads [] out = out
threads (ent ∷ entries) out = threads entries (add_pid (atoi ent.name) out)

module _ {E : Type 0} (procs : Processes E) (target : CpuTarget) (skip : List ℤ) where
  abbrev pub on_target : ℤ → Result E (ℤ → Bool) → Option ℤ
  on_target pid (err e) = none
  on_target pid (ok is_set) = some_if (cpu_set_intersects is_set target) pid

  abbrev pub candidate : Option ℤ → Option ℤ
  candidate none = none
  candidate (some pid) =
      if leb_ℤ pid (pos 1) || eqb_ℤ pid procs.self || seen pid skip
      then none
      else on_target pid (procs.affinity pid)

  -- The body of the loop over /proc.
  unfoldable pub foreign_pid : Entry → Option ℤ
  foreign_pid ent = if ent.is_dir then candidate (atoi ent.name) else none

  unfoldable pub foreign_pids : List Entry → List ℤ → List ℤ
  foreign_pids [] out = out
  foreign_pids (ent ∷ entries) out = foreign_pids entries (add_pid (foreign_pid ent) out)

  abbrev pub listed : Result E (List Entry) → Result E (List ℤ)
  listed (err e) = err e
  listed (ok entries) = ok (foreign_pids entries [])

  unfoldable pub foreign_pids_on_cpus : Result E (List ℤ)
  unfolding foreign_pids
  foreign_pids_on_cpus = listed procs.entries

  -- The signals that are sent, and the number that is returned.
  abbrev pub Sent : Type 0
  Sent = List (ℤ × ℤ) × ℕ

  abbrev pub counted : Option E → ℕ → ℕ
  counted none n = suc n
  counted (some e) n = n

  unfoldable pub stop_all : List ℤ → ℤ → Bool → Sent → Sent
  stop_all [] sig dry_run sent = sent
  stop_all (pid ∷ pids) sig dry_run (signals, n) = stop_all pids sig dry_run (
      if dry_run
      then (signals, suc n)
      else (signals ++ (pid, sig) ∷ [], counted (procs.kill pid sig) n))

  abbrev pub stop_listed : Result E (List ℤ) → ℤ → Bool → List (ℤ × ℤ) × Result E ℕ
  stop_listed (err e) sig dry_run = ([], err e)
  stop_listed (ok pids) sig dry_run =
      let (signals, n) = stop_all pids sig dry_run ([], 0) in (signals, ok n)

  unfoldable pub stop_foreign_on_cpus : ℤ → Bool → List (ℤ × ℤ) × Result E ℕ
  unfolding foreign_pids_on_cpus stop_all
  stop_foreign_on_cpus sig dry_run = stop_listed foreign_pids_on_cpus sig dry_run

-- `ThreadPath`, from the entries of the directory of tasks.
abbrev pub thread_path : {E : Type 0} → Result E (List Entry) → Result E (List ℤ)
thread_path (err e) = err e
thread_path (ok entries) = ok (threads entries [])
