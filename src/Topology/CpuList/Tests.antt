-- ===== src/Topology/CpuList/Tests.antt =====
-- Runs of the CPU list functions: those of cpulist_test.go and cpuset_test.go, and others.
use cluster_performance_engi.Topology.CpuList.Taskset.{cpus_to_taskset_spec-format}
use cluster_performance_engi.Topology.CpuList.RoundTrip.{parse_cpu_list-format}
use cluster_performance_engi.Topology.CpuList.Piece.{IsCpu}
use cluster_performance_engi.Base.{ℕ, ◌≡◌, refl, List, [], ◌∷◌, ok, err, suc, ◌<◌, arith}
use cluster_performance_engi.Base.Int.{ℤ, pos, inc}
use cluster_performance_engi.Base.Text.{codes, trim_space}
use cluster_performance_engi.Base.Decimal.{atoi, itoa}
use cluster_performance_engi.Base.Parts.{split, join, cut}
use cluster_performance_engi.Base.Sort.{sort, insert}
use cluster_performance_engi.Topology.CpuList.{
  parse_cpu_list, format_cpu_list, cpus_to_taskset_spec, count_up, invalid_range, endless,
  sorted_ids, format_ids, format_loop, emit, spec_parts, run,
}

parse_runs :
    (parse_cpu_list 9 (codes "0-1,8, 10-11") ≡ ok (pos 0 ∷ pos 1 ∷ pos 8 ∷ pos 10 ∷ pos 11 ∷ []))
    × (parse_cpu_list 9 (codes "3-1") ≡ err (invalid_range (codes "3-1")))
    × (parse_cpu_list 9 (codes "-1") ≡ err (invalid_range (codes "-1")))
    × (parse_cpu_list 9 (codes "9223372036854775807-9223372036854775807") ≡ err endless)
unfolding parse_cpu_list atoi split cut trim_space count_up inc
parse_runs = (refl, refl, refl, refl)

format_runs :
    (format_cpu_list (pos 8 ∷ pos 8 ∷ pos 9 ∷ []) ≡ codes "8-9")
    × (format_cpu_list (pos 0 ∷ pos 1 ∷ pos 2 ∷ pos 4 ∷ []) ≡ codes "0-2,4")
    × (cpus_to_taskset_spec (pos 8 ∷ pos 0 ∷ pos 2 ∷ pos 1 ∷ []) ≡ codes "0-2,8")
unfolding format_cpu_list cpus_to_taskset_spec sorted_ids format_ids format_loop emit spec_parts run
    sort insert itoa inc join
format_runs = (refl, refl, refl)

abbrev some_ids : List ℤ
some_ids = pos 5 ∷ pos 2 ∷ pos 3 ∷ pos 2 ∷ []

cpu : (n : ℕ) → suc n < 9 → IsCpu 9 (pos n)
cpu n h = record { number = n; same = refl; counted = h; below_max = omega (arith, h) }

parse_cpu_list-format_example :
    parse_cpu_list 9 (format_cpu_list some_ids) ≡ ok (sorted_ids some_ids)
parse_cpu_list-format_example =
    parse_cpu_list-format 9 some_ids
      (cpu 5 (omega arith), (cpu 2 (omega arith), (cpu 3 (omega arith), (cpu 2 (omega arith), tt))))

cpus_to_taskset_spec-format_example : cpus_to_taskset_spec some_ids ≡ format_cpu_list some_ids
cpus_to_taskset_spec-format_example = cpus_to_taskset_spec-format some_ids
