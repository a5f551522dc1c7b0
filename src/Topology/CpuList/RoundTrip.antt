-- ===== src/Topology/CpuList/RoundTrip.antt =====
-- Parsing the text of a CPU list gives the ids back.
use cluster_performance_engi.Base.{
  ℕ, suc, ◌+◌, ◌<◌, ◌≡◌, refl, sym, ◌∙◌, ap, false, List, [], ◌∷◌, ◌++◌, map, arith, ok, is_nil,
  Bool-cases, inl, inr, append_assoc, append-nil, All, subst, All-append, Result,
}
use cluster_performance_engi.Base.Int.{ℤ, pos, inc, eqb_ℤ, eqb_ℤ_iff, max_int, pos_part}
use cluster_performance_engi.Base.Text.{Bytes, may_trim, trim_space}
use cluster_performance_engi.Base.Sort.{All-sort}
use cluster_performance_engi.Base.Parts.{join, split-join, Lacks}
use cluster_performance_engi.Topology.CpuList.{
  ListError, comma, parse_parts, parse_cpu_list, format_cpu_list, sorted_ids, ints, uniq, seen,
}
use cluster_performance_engi.Topology.CpuList.Runs.{
  ranges, ranges_of, piece, pieces, format_ids-pieces, ranges_break, ranges-shape, piece-nonempty,
}
use cluster_performance_engi.Topology.CpuList.Piece.{
  interval, IsPlain, interval-snoc, nonempty-append, IsCpu, NoSpace, trim-NoSpace,
  parse_parts-piece, plain-Lacks, piece-IsPlain, plain-NoSpace,
}

ranges_join :
    (start prev next : ℤ) (l : List ℤ)
    → next ≡ inc prev
    → ranges start prev (next ∷ l) ≡ ranges start next l
unfolding ranges
ranges_join start prev next l e = rw ((eqb_ℤ_iff next (inc prev)).1 e, ranges) refl

inc-pos : (n : ℕ) → n < max_int → inc (pos n) ≡ pos (suc n)
unfolding inc
inc-pos n h = ground (arith, h)

inc-interval : (a k : ℕ) → a + k < max_int → inc (pos (a + k)) ≡ pos (a + suc k)
inc-interval a k h = inc-pos (a + k) h ∙ ap pos (omega arith)

interval-grow :
    (a k : ℕ) (l : List ℤ)
    → interval a (suc (suc k)) ++ l ≡ interval a (suc k) ++ (pos (a + suc k) ∷ l)
interval-grow a k l =
    ap (λ t. t ++ l) (sym (interval-snoc a (suc k)))
    ∙ append_assoc (interval a (suc k)) (pos (a + suc k) ∷ []) l

abbrev parse_ranges : ℕ → ℤ → ℤ → List ℤ → List ℤ → Result ListError (List ℤ)
parse_ranges fuel start prev l out = parse_parts fuel (map piece (ranges start prev l)) out

parse_ranges-eq :
    (fuel a k : ℕ) (l out : List ℤ)
    → a + k < max_int
    → suc (a + k) < fuel
    → All (IsCpu fuel) l
    → parse_ranges fuel (pos a) (pos (a + k)) l out ≡ ok (out ++ (interval a (suc k) ++ l))
parse_ranges-eq fuel a k [] out h enough cpus =
    unfold ranges in
    (parse_parts-piece fuel a k [] out h (omega (arith, enough)))
    ∙ unfold parse_parts in (ap (λ t. ok (out ++ t)) (sym (append-nil (interval a (suc k)))))
parse_ranges-eq fuel a k (x ∷ l) out h enough cpus =
    elim (Bool-cases (eqb_ℤ x (inc (pos (a + k))))) [
      | inl e ↦
          let cpu = cpus.0 in
          let next = (eqb_ℤ_iff x (inc (pos (a + k)))).0 e ∙ inc-interval a k h in
          let same = ap pos_part (sym next ∙ cpu.same) in
          ap (λ r. parse_parts fuel (map piece r) out)
            (ranges_join (pos a) (pos (a + k)) x l (next ∙ sym (inc-interval a k h)))
          ∙ ap (λ y. parse_ranges fuel (pos a) y l out) next
          ∙ parse_ranges-eq fuel a (suc k) l out (omega (arith, cpu.below_max, same))
              (omega (arith, cpu.counted, same)) cpus.1
          ∙ ap (λ t. ok (out ++ t))
              (interval-grow a k l ∙ ap (λ y. interval a (suc k) ++ (y ∷ l)) (sym next))
      | inr e ↦
          let cpu = cpus.0 in
          let n = cpu.number in
          let same : x ≡ pos (n + 0) = cpu.same ∙ ap pos (omega arith) in
          ap (λ r. parse_parts fuel (map piece r) out) (ranges_break (pos a) (pos (a + k)) x l e)
          ∙ parse_parts-piece fuel a k _ out h (omega (arith, enough))
          ∙ ap (λ y. parse_ranges fuel y x l (out ++ interval a (suc k))) cpu.same
          ∙ ap (λ y. parse_ranges fuel (pos n) y l (out ++ interval a (suc k))) same
          ∙ parse_ranges-eq fuel n 0 l (out ++ interval a (suc k)) (omega (arith, cpu.below_max))
              (omega (arith, cpu.counted)) cpus.1
          ∙ unfold interval in
            (ap ok (append_assoc out (interval a (suc k)) (pos n ∷ l)))
            ∙ ap (λ y. ok (out ++ (interval a (suc k) ++ (y ∷ l)))) (sym cpu.same)
    ]

pieces-IsPlain :
    (fuel a b : ℕ) (l : List ℤ)
    → All (IsCpu fuel) l
    → All (All IsPlain) (map piece (ranges (pos a) (pos b) l))
unfolding ranges
pieces-IsPlain fuel a b [] h = (piece-IsPlain a b, tt)
pieces-IsPlain fuel a b (x ∷ l) h =
    subst (λ y. All (All IsPlain) (map piece (ranges (pos a) (pos b) (y ∷ l)))) (sym h.0.same)
      (elim (Bool-cases (eqb_ℤ (pos h.0.number) (inc (pos b)))) [
        | inl e ↦ rw (e, ranges) (pieces-IsPlain fuel a h.0.number l h.1)
        | inr e ↦
            rw (e, ranges) (piece-IsPlain a b, pieces-IsPlain fuel h.0.number h.0.number l h.1)
      ])

join-NoSpace :
    (p : Bytes) (ps : List Bytes) → All (All IsPlain) (p ∷ ps) → NoSpace (join comma (p ∷ ps))
unfolding join
join-NoSpace p [] h = plain-NoSpace p h.0
join-NoSpace p (q ∷ ps) h =
    All-append (λ c. may_trim c ≡ false) p (comma ∷ join comma (q ∷ ps)) (plain-NoSpace p h.0)
      (refl, join-NoSpace q ps h.1)

parts-Lacks : (ps : List Bytes) → All (All IsPlain) ps → All (Lacks comma) ps
parts-Lacks [] h = tt
parts-Lacks (p ∷ ps) h = (plain-Lacks p h.0, parts-Lacks ps h.1)

join-nonempty :
    (p : Bytes) (ps : List Bytes) → is_nil p ≡ false → is_nil (join comma (p ∷ ps)) ≡ false
unfolding join
join-nonempty p [] h = h
join-nonempty p (q ∷ ps) h = nonempty-append p (comma ∷ join comma (q ∷ ps)) h

parse-join :
    (fuel : ℕ) (p : Bytes) (ps : List Bytes)
    → is_nil p ≡ false
    → All (All IsPlain) (p ∷ ps)
    → parse_cpu_list fuel (join comma (p ∷ ps)) ≡ parse_parts fuel (p ∷ ps) []
unfolding parse_cpu_list
parse-join fuel p ps full plain =
    rw
      (
        trim-NoSpace _ (join-NoSpace p ps plain),
        join-nonempty p ps full,
        split-join comma p ps (parts-Lacks (p ∷ ps) plain),
      )
      refl

uniq-All : (P : ℤ → Type 0) (out ids : List ℤ) → All P out → All P ids → All P (uniq out ids)
unfolding uniq
uniq-All P out [] h k = h
uniq-All P out (x ∷ ids) h k = elim (Bool-cases (seen x out)) [
  | inl e ↦ rw e (uniq-All P out ids h k.1)
  | inr e ↦ rw e (uniq-All P (out ++ x ∷ []) ids (All-append P out (x ∷ []) h (k.0, tt)) k.1)
]

parse_some :
    (fuel n : ℕ) (l : List ℤ)
    → n < max_int
    → suc n < fuel
    → All (IsCpu fuel) l
    → parse_cpu_list fuel (join comma (pieces (pos n ∷ l))) ≡ ok (pos n ∷ l)
unfolding ranges_of interval
parse_some fuel n l below enough cpus =
    let (last, rest, shape) = ranges-shape (pos n) (pos n) l in
    let plain =
      subst (λ r. All (All IsPlain) (map piece r)) shape (pieces-IsPlain fuel n n l cpus) in
    ap (λ r. parse_cpu_list fuel (join comma (map piece r))) shape
    ∙ parse-join fuel (piece (pos n, last)) (map piece rest) (piece-nonempty (pos n) last) plain
    ∙ ap (λ r. parse_parts fuel (map piece r) []) (sym shape)
    ∙ ap (λ m. parse_parts fuel (map piece (ranges (pos n) m l)) []) (ap pos (omega arith))
    ∙ parse_ranges-eq fuel n 0 l [] (omega (arith, below)) (omega (arith, enough)) cpus

parse-pieces :
    (fuel : ℕ) (ids : List ℤ)
    → All (IsCpu fuel) ids
    → parse_cpu_list fuel (join comma (pieces ids)) ≡ ok ids
unfolding parse_cpu_list ranges_of join trim_space
parse-pieces fuel [] h = refl
parse-pieces fuel (x ∷ l) h =
    subst (λ y. parse_cpu_list fuel (join comma (pieces (y ∷ l))) ≡ ok (y ∷ l)) (sym h.0.same)
      (parse_some fuel h.0.number l h.0.below_max h.0.counted h.1)

-- For ids that are not negative and below the largest `int`, with fuel above each of them by two:
-- parsing the text that `FormatCPUList` writes gives the ids in ascending order, each once.
pub parse_cpu_list-format :
    (fuel : ℕ) (ids : List ℤ)
    → All (IsCpu fuel) ids
    → parse_cpu_list fuel (format_cpu_list ids) ≡ ok (sorted_ids ids)
unfolding format_cpu_list sorted_ids
parse_cpu_list-format fuel ids h =
    ap (parse_cpu_list fuel) (format_ids-pieces (sorted_ids ids))
    ∙ parse-pieces fuel (sorted_ids ids)
        (All-sort ints (IsCpu fuel) (uniq [] ids) (uniq-All (IsCpu fuel) [] ids tt h))
