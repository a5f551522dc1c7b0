-- ===== src/Topology/CpuList/Taskset.antt =====
-- `CPUsToTasksetSpec` and `FormatCPUList` write the same text.
use cluster_performance_engi.Base.{
  ℕ, zero, suc, ◌≤◌, ◌≡◌, refl, sym, ◌∙◌, ap, true, List, [], ◌∷◌, ◌++◌, map, arith, length, ◌==◌,
  Bool-cases, inl, inr, append_assoc, append-nil,
}
use cluster_performance_engi.Base.Int.{ℤ, inc, leb_ℤ, eqb_ℤ, eqb_ℤ_iff, ◌<ℤ◌}
use cluster_performance_engi.Base.Text.{Bytes}
use cluster_performance_engi.Base.Sort.{IsSorted, sort-IsSorted}
use cluster_performance_engi.Base.Parts.{join}
use cluster_performance_engi.Topology.CpuList.{
  comma, run, spec_parts, ints, sorted_ids, format_cpu_list, cpus_to_taskset_spec, uniq,
}
use cluster_performance_engi.Topology.CpuList.Runs.{
  ranges, ranges_of, ranges_break, piece, format_ids-pieces,
}

-- What a run leaves.
record IsRun (steps : ℕ) (last : ℤ) (l : List ℤ) (steps' : ℕ) (last' : ℤ) (rest : List ℤ)
    : Type 0 where
  split : (start : ℤ) → ranges start last l ≡ (start, last') ∷ ranges_of rest
  shorter : length rest ≤ length l
  rest_sorted : IsSorted ints rest
  forward : leb_ℤ last last' ≡ true
  still : (steps' == steps) ≡ eqb_ℤ last last'
  grown : steps ≤ steps'

run_step : (last x : ℤ) → leb_ℤ last x ≡ true → eqb_ℤ x (inc last) ≡ true → last <ℤ x
unfolding inc
run_step last x h e = ground arith

run-IsRun :
    (steps : ℕ) (last : ℤ) (l : List ℤ)
    → IsSorted ints (last ∷ l)
    → let r = run steps last l in IsRun steps last l r.0 r.1 r.2
unfolding run ranges ranges_of
run-IsRun steps last [] h = record {
  split = λ start. unfold ranges ranges_of in refl;
  shorter = omega arith;
  rest_sorted = tt;
  forward = ground arith;
  still = ground (arith, (eqb_ℤ_iff last last).1 refl);
  grown = omega arith;
}
run-IsRun steps last (x ∷ l) h = elim (Bool-cases (eqb_ℤ x (inc last))) [
  | inl e ↦
      let ih = run-IsRun (suc steps) x l h.1 in
      let up = run_step last x h.0.0 e in
      rw (e, run)
        (record {
          split = λ start. (rw (e, ranges) (ih.split start));
          shorter = omega (arith, ih.shorter);
          rest_sorted = ih.rest_sorted;
          forward = ground (arith, ih.forward);
          still = ground (arith, ih.forward, ih.grown, eqb_ℤ_iff last (run (suc steps) x l).1);
          grown = omega (arith, ih.grown);
        })
  | inr e ↦
      rw (e, run)
        (record {
          split = λ start. ranges_break start last x l e;
          shorter = omega arith;
          rest_sorted = h.1;
          forward = ground arith;
          still = ground (arith, (eqb_ℤ_iff last last).1 refl);
          grown = omega arith;
        })
]

spec_parts-pieces :
    (fuel : ℕ) (xs : List ℤ) (parts : List Bytes)
    → length xs ≤ fuel
    → IsSorted ints xs
    → spec_parts fuel xs parts ≡ parts ++ map piece (ranges_of xs)
unfolding spec_parts ranges_of
spec_parts-pieces zero [] parts h s = sym (append-nil parts)
spec_parts-pieces zero (x ∷ l) parts h s = absurd (omega arith)
spec_parts-pieces (suc fuel) [] parts h s = sym (append-nil parts)
spec_parts-pieces (suc fuel) (x ∷ l) parts h s =
    let (steps, last, rest) = run 0 x l in
    let r = run-IsRun 0 x l s in
    rw (r.split x, r.still)
      (spec_parts-pieces fuel rest _ (omega (arith, r.shorter)) r.rest_sorted
        ∙ append_assoc parts (piece (x, last) ∷ []) (map piece (ranges_of rest)))

-- `CPUsToTasksetSpec` and `FormatCPUList` write the same text for every list of ids, in any order
-- and with repetitions.
pub cpus_to_taskset_spec-format : (ids : List ℤ) → cpus_to_taskset_spec ids ≡ format_cpu_list ids
unfolding cpus_to_taskset_spec format_cpu_list
cpus_to_taskset_spec-format ids =
    ap (join comma) (
      spec_parts-pieces (length (sorted_ids ids)) (sorted_ids ids) [] (omega arith)
        (unfold sorted_ids in (sort-IsSorted ints (uniq [] ids))))
    ∙ sym (format_ids-pieces (sorted_ids ids))
