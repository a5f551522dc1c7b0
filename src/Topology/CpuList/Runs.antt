-- ===== src/Topology/CpuList/Runs.antt =====
-- The runs of consecutive ids that the text of a CPU list stands for.
use cluster_performance_engi.Base.{
  ◌≡◌, refl, sym, ◌∙◌, ap, true, false, List, [], ◌∷◌, ◌++◌, map, is_nil, if◌then◌else◌, Bool-cases,
  inl, inr, append_assoc, append-nil,
}
use cluster_performance_engi.Base.Int.{ℤ, pos, negsuc, inc, eqb_ℤ}
use cluster_performance_engi.Base.Text.{Bytes}
use cluster_performance_engi.Base.Decimal.{itoa, format_nat, format_nat-nonempty}
use cluster_performance_engi.Base.Parts.{join}
use cluster_performance_engi.Topology.CpuList.{comma, span_text, emit, format_loop, format_ids}

unfoldable pub ranges : ℤ → ℤ → List ℤ → List (ℤ × ℤ)
ranges start prev [] = (start, prev) ∷ []
ranges start prev (next ∷ l) = elim (eqb_ℤ next (inc prev)) [
  | true ↦ ranges start next l
  | false ↦ (start, prev) ∷ ranges next next l
]

unfoldable pub ranges_of : List ℤ → List (ℤ × ℤ)
ranges_of [] = []
ranges_of (x ∷ l) = ranges x x l

-- The text of one run.
abbrev pub piece : ℤ × ℤ → Bytes
piece (a, b) = if eqb_ℤ a b then itoa a else span_text a b

abbrev pub pieces : List ℤ → List Bytes
pieces ids = map piece (ranges_of ids)

itoa-nonempty : (a : ℤ) (s : Bytes) → is_nil (itoa a ++ s) ≡ false
unfolding itoa
itoa-nonempty (pos n) s = nonempty (format_nat n) s (format_nat-nonempty n)
  where
    nonempty : (t s : Bytes) → is_nil t ≡ false → is_nil (t ++ s) ≡ false
    nonempty [] s h = cc
    nonempty (c ∷ t) s h = refl
itoa-nonempty (negsuc n) s = refl

pub piece-nonempty : (a b : ℤ) → is_nil (piece (a, b)) ≡ false
piece-nonempty a b = elim (Bool-cases (eqb_ℤ a b)) [
  | inl e ↦ rw e (rw append-nil at (itoa-nonempty a []))
  | inr e ↦ rw e (itoa-nonempty a _)
]

-- The text in the builder, and a separator behind it unless it is empty.
abbrev led : Bytes → Bytes
led b = if is_nil b then b else b ++ comma ∷ []

is_nil-append_right : (s t : Bytes) → is_nil t ≡ false → is_nil (s ++ t) ≡ false
is_nil-append_right [] t h = h
is_nil-append_right (c ∷ s) t h = refl

led-full : (b : Bytes) → is_nil b ≡ false → led b ≡ b ++ comma ∷ []
led-full b h = rw h

pub ranges-shape :
    (start prev : ℤ) (l : List ℤ)
    → (last : ℤ) × (rest : List (ℤ × ℤ)) × (ranges start prev l ≡ (start, last) ∷ rest)
unfolding ranges
ranges-shape start prev [] = (prev, [], refl)
ranges-shape start prev (next ∷ l) = elim (Bool-cases (eqb_ℤ next (inc prev))) [
  | inl e ↦ rw (e, ranges) (ranges-shape start next l)
  | inr e ↦ (prev, ranges next next l, rw (e, ranges))
]

join-more :
    (p : Bytes) (r : ℤ × ℤ) (rs : List (ℤ × ℤ))
    → join comma (p ∷ map piece (r ∷ rs)) ≡ p ++ (comma ∷ join comma (map piece (r ∷ rs)))
unfolding join
join-more p r rs = refl

emit-led : (start prev : ℤ) (b : Bytes) → emit start prev b ≡ led b ++ piece (start, prev)
unfolding emit
emit-led start prev b = refl

led-emit : (start prev : ℤ) (b : Bytes) → led (emit start prev b) ≡ emit start prev b ++ comma ∷ []
unfolding emit
led-emit start prev b =
    led-full _ (is_nil-append_right (led b) (piece (start, prev)) (piece-nonempty start prev))

format_loop_break :
    (start prev next : ℤ) (l : List ℤ) (b : Bytes)
    → eqb_ℤ next (inc prev) ≡ false
    → format_loop start prev (next ∷ l) b ≡ format_loop next next l (emit start prev b)
unfolding format_loop
format_loop_break start prev next l b e = rw (e, format_loop)

pub ranges_break :
    (start prev next : ℤ) (l : List ℤ)
    → eqb_ℤ next (inc prev) ≡ false
    → ranges start prev (next ∷ l) ≡ (start, prev) ∷ ranges next next l
unfolding ranges
ranges_break start prev next l e = rw (e, ranges)

join_break :
    (p : Bytes) (start prev : ℤ) (l : List ℤ)
    → join comma (p ∷ map piece (ranges start prev l))
      ≡ p ++ (comma ∷ join comma (map piece (ranges start prev l)))
join_break p start prev l =
    let (last, rest, shape) = ranges-shape start prev l in rw shape (join-more p (start, last) rest)

break_text :
    (start prev next : ℤ) (l : List ℤ) (b : Bytes)
    → led (emit start prev b) ++ join comma (map piece (ranges next next l))
      ≡ led b ++ join comma (piece (start, prev) ∷ map piece (ranges next next l))
break_text start prev next l b =
    rw (led-emit start prev b, emit-led start prev b, join_break (piece (start, prev)) next next l)
      (simp append_assoc)

format_loop-pieces :
    (start prev : ℤ) (l : List ℤ) (b : Bytes)
    → format_loop start prev l b ≡ led b ++ join comma (map piece (ranges start prev l))
unfolding format_loop ranges emit
format_loop-pieces start prev [] b = unfold join in refl
format_loop-pieces start prev (next ∷ l) b = elim (Bool-cases (eqb_ℤ next (inc prev))) [
  | inl e ↦ rw (e, format_loop, ranges) (format_loop-pieces start next l b)
  | inr e ↦
      format_loop_break start prev next l b e
      ∙ format_loop-pieces next next l (emit start prev b)
      ∙ break_text start prev next l b
      ∙ ap (λ r. led b ++ join comma (map piece r)) (sym (ranges_break start prev next l e))
]

-- `FormatCPUList` writes the runs with commas between them.
pub format_ids-pieces : (ids : List ℤ) → format_ids ids ≡ join comma (pieces ids)
unfolding format_ids ranges_of join
format_ids-pieces [] = refl
format_ids-pieces (x ∷ l) = format_loop-pieces x x l []
