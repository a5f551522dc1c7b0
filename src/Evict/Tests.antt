-- ===== src/Evict/Tests.antt =====
-- Four processes: the first one, the caller, one on the target and one beside it.
use cluster_performance_engi.Evict.Foreign.{stop_foreign_on_cpus-dry_run}
use cluster_performance_engi.Base.{
  ℕ, ◌≡◌, refl, List, [], ◌∷◌, none, ok, if◌then◌else◌, true, false, length,
}
use cluster_performance_engi.Base.Int.{ℤ, pos, eqb_ℤ}
use cluster_performance_engi.Base.Text.{Bytes, codes}
use cluster_performance_engi.Base.Decimal.{atoi}
use cluster_performance_engi.Base.Files.{Entry}
use cluster_performance_engi.Evict.{Processes, stop_foreign_on_cpus, foreign_pid}

abbrev dir : Bytes → Entry
dir name = record { name = name; is_dir = true }

abbrev procs : Processes ℕ
procs = record {
  self = pos 9;
  entries = ok (
      dir (codes "1")
      ∷ dir (codes "9")
      ∷ dir (codes "20")
      ∷ dir (codes "31")
      ∷ dir (codes "bus")
      ∷ []);
  affinity = λ pid. ok (λ cpu. if eqb_ℤ pid (pos 31) then eqb_ℤ cpu (pos 7) else eqb_ℤ cpu (pos 2));
  kill = λ pid sig. none;
}

abbrev target : List ℤ
target = pos 2 ∷ pos 3 ∷ []

one_stopped : stop_foreign_on_cpus procs target [] (pos 19) false ≡ ((pos 20, pos 19) ∷ [], ok 1)
unfolding stop_foreign_on_cpus foreign_pid atoi
one_stopped = refl

one_counted : (stop_foreign_on_cpus procs target [] (pos 19) true).1 ≡ ok 1
unfolding stop_foreign_on_cpus foreign_pid atoi
one_counted = refl

stop_foreign_on_cpus-dry_run_example :
    ((stop_foreign_on_cpus procs target [] (pos 19) true).0 ≡ [])
    × (length (stop_foreign_on_cpus procs target [] (pos 19) false).0 ≡ 1)
stop_foreign_on_cpus-dry_run_example =
    stop_foreign_on_cpus-dry_run procs target [] (pos 19) 1 one_counted
