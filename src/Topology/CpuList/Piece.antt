-- ===== src/Topology/CpuList/Piece.antt =====
-- Parsing one part of the text of a CPU list: a single id, or a range.
use cluster_performance_engi.Base.{
  ℕ, zero, suc, ◌+◌, ◌<◌, ◌≡◌, ◌≢◌, refl, ◌∙◌, ap, true, false, List, [], ◌∷◌, ◌++◌, arith, some,
  ok, is_nil, if◌then◌else◌, Bool-cases, inl, inr, append_assoc, append-nil, All, all, All-append,
}
use cluster_performance_engi.Base.Int.{ℤ, pos, inc, eqb_ℤ, max_int}
use cluster_performance_engi.Base.Text.{Bytes, may_trim, trim_space, trim_space-ok}
use cluster_performance_engi.Base.Decimal.{
  itoa, format_nat, Digits, format_nat-Digits, format_nat-nonempty, atoi-format_nat,
}
use cluster_performance_engi.Base.Parts.{cut-part, contains-part, contains-Lacks, Lacks}
use cluster_performance_engi.Topology.CpuList.{
  comma, dash, span_text, count_up, parse_part, parse_parts,
}
use cluster_performance_engi.Topology.CpuList.Runs.{piece}

-- The `k` ids from `a` on.
unfoldable pub interval : ℕ → ℕ → List ℤ
interval a zero = []
interval a (suc k) = pos a ∷ interval (suc a) k

-- The counting loop, while `hi` is below the largest `int`.
pub count_up-interval :
    (k fuel a hi : ℕ) (out : List ℤ)
    → a + k ≡ suc hi
    → hi < max_int
    → k < fuel
    → count_up fuel (pos a) (pos hi) out ≡ some (out ++ interval a k)
unfolding count_up interval inc
count_up-interval k zero a hi out e small h = absurd (omega arith)
count_up-interval zero (suc fuel) a hi out e small h = ground (arith, append-nil out)
count_up-interval (suc k) (suc fuel) a hi out e small h = ground (
  arith,
  count_up-interval k fuel (suc a) hi (out ++ pos a ∷ []) (omega arith) small (omega arith),
  append_assoc out (pos a ∷ []) (interval (suc a) k),
)

-- A byte that the text of a list of ids may hold inside a part.
abbrev pub IsPlain : ℕ → Type 0
IsPlain c = (c ≢ comma) × (may_trim c ≡ false)

Digits-Lacks : (s : Bytes) → Digits s → Lacks dash s
Digits-Lacks [] h = tt
Digits-Lacks (c ∷ s) h = (omega (arith, h.0), Digits-Lacks s h.1)

Digits-IsPlain : (s : Bytes) → Digits s → All IsPlain s
Digits-IsPlain [] h = tt
Digits-IsPlain (c ∷ s) h = ((omega (arith, h.0), ground (arith, h.0)), Digits-IsPlain s h.1)

abbrev pub NoSpace : Bytes → Type 0
NoSpace = All (λ c. may_trim c ≡ false)

pub trim-NoSpace : (s : Bytes) → NoSpace s → trim_space s ≡ s
trim-NoSpace s h = trim_space-ok s (none_in s h)
  where
    none_in : (t : Bytes) → NoSpace t → all (λ c. if may_trim c then false else true) t ≡ true
    none_in [] k = refl
    none_in (c ∷ t) k = rw (k.0) (none_in t k.1)

pub plain-NoSpace : (s : Bytes) → All IsPlain s → NoSpace s
plain-NoSpace [] h = tt
plain-NoSpace (c ∷ s) h = (h.0.1, plain-NoSpace s h.1)

pub plain-Lacks : (s : Bytes) → All IsPlain s → Lacks comma s
plain-Lacks [] h = tt
plain-Lacks (c ∷ s) h = (h.0.0, plain-Lacks s h.1)

-- An id that is not negative, and small enough for the counting loop.
pub record IsCpu (fuel : ℕ) (i : ℤ) : Type 0 where
  pub number : ℕ
  pub same : i ≡ pos number
  pub counted : suc number < fuel
  pub below_max : number < max_int

span-IsPlain : (a b : ℕ) → All IsPlain (span_text (pos a) (pos b))
unfolding itoa
span-IsPlain a b =
    All-append IsPlain (format_nat a) (dash ∷ format_nat b) (Digits-IsPlain _ (format_nat-Digits a))
      ((omega arith, refl), Digits-IsPlain _ (format_nat-Digits b))

pub piece-IsPlain : (a b : ℕ) → All IsPlain (piece (pos a, pos b))
unfolding itoa
piece-IsPlain a b = elim (Bool-cases (eqb_ℤ (pos a) (pos b))) [
  | inl e ↦ rw e (Digits-IsPlain _ (format_nat-Digits a))
  | inr e ↦ rw e (span-IsPlain a b)
]

parse_single :
    (fuel a : ℕ) (out : List ℤ)
    → a < max_int
    → parse_part fuel (format_nat a) out ≡ ok (out ++ pos a ∷ [])
unfolding parse_part
parse_single fuel a out h =
    rw
      (
        format_nat-nonempty a,
        contains-Lacks dash _ (Digits-Lacks _ (format_nat-Digits a)),
        atoi-format_nat a (omega (arith, h)),
      )
      refl

pub nonempty-append : (s t : Bytes) → is_nil s ≡ false → is_nil (s ++ t) ≡ false
nonempty-append [] t h = cc
nonempty-append (c ∷ s) t h = refl

trim-format_nat : (n : ℕ) → trim_space (format_nat n) ≡ format_nat n
trim-format_nat n = trim-NoSpace _ (plain-NoSpace _ (Digits-IsPlain _ (format_nat-Digits n)))

parse_span :
    (fuel a k : ℕ) (out : List ℤ)
    → a + k < max_int
    → suc k < fuel
    → parse_part fuel (format_nat a ++ (dash ∷ format_nat (a + k))) out
      ≡ ok (out ++ interval a (suc k))
unfolding parse_part
parse_span fuel a k out h enough =
    let b = a + k in
    rw
      (
        nonempty-append (format_nat a) (dash ∷ format_nat b) (format_nat-nonempty a),
        contains-part dash (format_nat a) (format_nat b),
        cut-part dash (format_nat a) (format_nat b) (Digits-Lacks _ (format_nat-Digits a)),
        trim-format_nat a,
        trim-format_nat b,
        atoi-format_nat a (omega (arith, h)),
        atoi-format_nat b (omega (arith, h)),
      )
      (ground (arith, count_up-interval (suc k) fuel a b out (omega arith) h enough))

piece-single : (a b : ℕ) → b ≡ a → piece (pos a, pos b) ≡ format_nat a
unfolding itoa
piece-single a b e = ground arith

piece-span : (a b : ℕ) → a < b → piece (pos a, pos b) ≡ format_nat a ++ (dash ∷ format_nat b)
unfolding itoa
piece-span a b h = ground arith

parse_plain_piece :
    (fuel a k : ℕ) (out : List ℤ)
    → a + k < max_int
    → suc k < fuel
    → parse_part fuel (piece (pos a, pos (a + k))) out ≡ ok (out ++ interval a (suc k))
unfolding interval
parse_plain_piece fuel a zero out h enough =
    ap (λ t. parse_part fuel t out) (piece-single a (a + 0) (omega arith))
    ∙ parse_single fuel a out (omega (arith, h))
parse_plain_piece fuel a (suc k) out h enough =
    ap (λ t. parse_part fuel t out) (piece-span a (a + suc k) (omega arith))
    ∙ parse_span fuel a (suc k) out h enough

parse_piece :
    (fuel a k : ℕ) (out : List ℤ)
    → a + k < max_int
    → suc k < fuel
    → parse_part fuel (trim_space (piece (pos a, pos (a + k)))) out ≡ ok (out ++ interval a (suc k))
parse_piece fuel a k out h enough =
    rw (trim-NoSpace _ (plain-NoSpace _ (piece-IsPlain a (a + k))))
      (parse_plain_piece fuel a k out h enough)

pub interval-snoc : (a k : ℕ) → interval a k ++ pos (a + k) ∷ [] ≡ interval a (suc k)
unfolding interval
interval-snoc a zero = ground arith
interval-snoc a (suc k) = ground (arith, interval-snoc (suc a) k)

pub parse_parts-piece :
    (fuel a k : ℕ) (ps : List Bytes) (out : List ℤ)
    → a + k < max_int
    → suc k < fuel
    → parse_parts fuel (piece (pos a, pos (a + k)) ∷ ps) out
      ≡ parse_parts fuel ps (out ++ interval a (suc k))
unfolding parse_parts
parse_parts-piece fuel a k ps out h enough = rw (parse_piece fuel a k out h enough) refl
