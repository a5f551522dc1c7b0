-- ===== src/Topology/CpuList.antt =====
-- nexusflow/pkg/topology/cpulist.go, and nexusflow/pkg/affinity/cpuset.go.
pub mod Runs
pub mod Piece
pub mod RoundTrip
pub mod Taskset
mod Tests
use cluster_performance_engi.Base.{
  ℕ, zero, suc, ◌+◌, Bool, true, false, not, ◌&&◌, ◌||◌, List, [], ◌∷◌, ◌++◌, Option, none, some,
  Result, ok, err, ◌>>=◌, ◌>>◌, length, is_nil, ◌==◌, if◌then◌else◌,
}
use cluster_performance_engi.Base.Int.{ℤ, pos, inc, leb_ℤ, ltb_ℤ, eqb_ℤ, leb_ℤ_total, leb_ℤ_trans}
use cluster_performance_engi.Base.Text.{Bytes, trim_space}
use cluster_performance_engi.Base.Sort.{Order, sort}
use cluster_performance_engi.Base.Decimal.{itoa, atoi}
use cluster_performance_engi.Base.Parts.{split, join, contains, cut}

abbrev pub comma : ℕ
comma = b','

abbrev pub dash : ℕ
dash = b'-'

pub data ListError : Type 0 where
  invalid_range invalid_cpu : Bytes → ListError
  endless : ListError

-- `for i := lo; i <= hi; i++`, which appends each `i`. `none` means that the fuel ran out: on an
-- `int`, `i++` wraps around.
unfoldable pub count_up : ℕ → ℤ → ℤ → List ℤ → Option (List ℤ)
count_up zero i hi out = none
count_up (suc fuel) i hi out =
    let more = count_up fuel (inc i) hi (out ++ i ∷ []) in if leb_ℤ i hi then more else some out

abbrev pub counted : Option (List ℤ) → Result ListError (List ℤ)
counted none = err endless
counted (some out) = ok out

abbrev pub bounds : ℕ → Bytes → Option ℤ → Option ℤ → List ℤ → Result ListError (List ℤ)
bounds fuel part (some lo) (some hi) out =
    if ltb_ℤ hi lo then err (invalid_range part) else counted (count_up fuel lo hi out)
bounds fuel part none hi out = err (invalid_range part)
bounds fuel part (some lo) none out = err (invalid_range part)

abbrev pub range_part : ℕ → Bytes → Option (Bytes × Bytes) → List ℤ → Result ListError (List ℤ)
range_part fuel part none out = err (invalid_range part)
range_part fuel part (some (a, b)) out =
    bounds fuel part (atoi (trim_space a)) (atoi (trim_space b)) out

abbrev pub single_part : Bytes → Option ℤ → List ℤ → Result ListError (List ℤ)
single_part part none out = err (invalid_cpu part)
single_part part (some n) out = ok (out ++ n ∷ [])

-- The body of the loop, with the part already trimmed.
unfoldable pub parse_part : ℕ → Bytes → List ℤ → Result ListError (List ℤ)
parse_part fuel part out =
    if is_nil part
    then ok out
    else if contains dash part
    then range_part fuel part (cut dash part) out
    else single_part part (atoi part) out

unfoldable pub parse_parts : ℕ → List Bytes → List ℤ → Result ListError (List ℤ)
parse_parts fuel [] out = ok out
parse_parts fuel (part ∷ parts) out = do
  out' ← parse_part fuel (trim_space part) out
  parse_parts fuel parts out'

unfoldable pub parse_cpu_list : ℕ → Bytes → Result ListError (List ℤ)
unfolding parse_parts parse_part
parse_cpu_list fuel s =
    if is_nil (trim_space s) then ok [] else parse_parts fuel (split comma (trim_space s)) []

-- `sort.Ints`
abbrev pub ints : Order ℤ
ints = record { lessb = leb_ℤ; total = leb_ℤ_total; trans = leb_ℤ_trans }

abbrev pub seen : ℤ → List ℤ → Bool
seen x [] = false
seen x (y ∷ l) = eqb_ℤ x y || seen x l

-- The first loop of both functions: each id once, in the order of its first mention.
unfoldable pub uniq : List ℤ → List ℤ → List ℤ
uniq out [] = out
uniq out (x ∷ l) = uniq (if seen x out then out else out ++ x ∷ []) l

unfoldable pub sorted_ids : List ℤ → List ℤ
unfolding uniq
sorted_ids ids = sort ints (uniq [] ids)

abbrev pub span_text : ℤ → ℤ → Bytes
span_text start prev = itoa start ++ (dash ∷ itoa prev)

-- What the builder holds after one more range.
unfoldable pub emit : ℤ → ℤ → Bytes → Bytes
emit start prev b =
    (if is_nil b then b else b ++ comma ∷ [])
    ++ (if eqb_ℤ start prev then itoa start else span_text start prev)

-- The loop of `FormatCPUList`, with the ids that are left. At the end the last range is written.
unfoldable pub format_loop : ℤ → ℤ → List ℤ → Bytes → Bytes
format_loop start prev [] b = emit start prev b
format_loop start prev (next ∷ l) b = elim (eqb_ℤ next (inc prev)) [
  | true ↦ format_loop start next l b
  | false ↦ format_loop next next l (emit start prev b)
]

unfoldable pub format_ids : List ℤ → Bytes
format_ids [] = []
format_ids (x ∷ l) = format_loop x x l []

unfoldable pub format_cpu_list : List ℤ → Bytes
format_cpu_list ids = format_ids (sorted_ids ids)

-- The inner loop of `CPUsToTasksetSpec`: how far `j` gets past `i + 1`, the last id of the run, and
-- what is left.
unfoldable pub run : ℕ → ℤ → List ℤ → ℕ × ℤ × List ℤ
run steps last [] = (steps, last, [])
run steps last (x ∷ l) = elim (eqb_ℤ x (inc last)) [
  | true ↦ run (suc steps) x l
  | false ↦ (steps, last, x ∷ l)
]

-- The outer loop. A round uses up at least one id.
unfoldable pub spec_parts : ℕ → List ℤ → List Bytes → List Bytes
spec_parts zero xs parts = parts
spec_parts (suc fuel) [] parts = parts
spec_parts (suc fuel) (x ∷ l) parts =
    let (steps, last, rest) = run 0 x l in
    spec_parts fuel rest (parts ++ (if steps == 0 then itoa x else span_text x last) ∷ [])

unfoldable pub cpus_to_taskset_spec : List ℤ → Bytes
cpus_to_taskset_spec ids = join comma (spec_parts (length (sorted_ids ids)) (sorted_ids ids) [])
