-- ===== src/Topology/Hints/Reader.antt =====
-- A POSIX shell reads the scripts of the hints: comments, and `export` of one word each. Text that
-- the shell would expand is refused, so what is read does not depend on the environment.
use cluster_performance_engi.Base.{
  ℕ, zero, suc, ◌≡◌, ◌≤◌, refl, ◌∙◌, ap, Bool, true, false, ◌&&◌, ◌||◌, List, [], ◌∷◌, ◌++◌, map,
  Option, none, some, if◌then◌else◌, leb, ◌==◌, arith, append_assoc, length, all, is_nil, sym,
  Bool-cases, inl, inr, not,
}
use cluster_performance_engi.Base.Text.{Bytes, codes, replace_all, cut_prefix}
use cluster_performance_engi.Base.Parts.{contains, cut, cut-part, Lacks}
use cluster_performance_engi.Base.Decimal.{itoa, format_nat, Digits, format_nat-Digits}
use cluster_performance_engi.Topology.Hints.{ClusterHints}
use cluster_performance_engi.Topology.Hints.Shell.{
  apostrophe, quoted_apostrophe, shell_quote, Value, quoted, count, Export, word, newline,
  export_line, export_lines, or_empty, hints_exports, shell_comment, write_hints_shell, number,
}

-- The quoting that a word is in.
pub data Mode : Type 0 where
  bare : Mode
  single : Mode
  double : Mode

pub data Action : Type 0 where
  finish : Action
  become : Mode → Action
  keep : Action
  refuse : Action

abbrev pub is_plain : ℕ → Bool
is_plain c =
    leb b'0' c && leb c b'9'
    || leb b'a' c && leb c b'z'
    || leb b'A' c && leb c b'Z'
    || c == b'_'
    || c == b'-'
    || c == b','
    || c == b'.'
    || c == b'/'

abbrev pub action : Mode → ℕ → Action
action bare c =
    if c == newline
    then finish
    else if c == apostrophe
    then become single
    else if c == b'"'
    then become double
    else if is_plain c
    then keep
    else refuse
action single c = if c == apostrophe then become bare else keep
action double c =
    if c == b'"' then become bare else if c == b'$' || c == b'`' || c == b'\\' then refuse else keep

abbrev pub put : ℕ → Option (Bytes × Bytes) → Option (Bytes × Bytes)
put c none = none
put c (some (w, rest)) = some (c ∷ w, rest)

-- The word, and the text behind the newline that ends it.
unfoldable pub read_word : Mode → Bytes → Option (Bytes × Bytes)
read_word m [] = none
read_word m (c ∷ s) = elim (action m c) [
  | finish ↦ some ([], s)
  | become n ↦ read_word n s
  | keep ↦ put c (read_word m s)
  | refuse ↦ none
]

read_word-replace_all :
    (s rest : Bytes)
    → read_word single (replace_all apostrophe quoted_apostrophe s ++ (apostrophe ∷ newline ∷ rest))
      ≡ some (s, rest)
unfolding read_word replace_all
read_word-replace_all [] rest = refl
read_word-replace_all (c ∷ s) rest = ground (arith, read_word-replace_all s rest)

replace_all-absent : (c : ℕ) (new s : Bytes) → contains c s ≡ false → replace_all c new s ≡ s
unfolding replace_all
replace_all-absent c new [] h = refl
replace_all-absent c new (d ∷ s) h = ground (arith, replace_all-absent c new s)

shell_quote-cons :
    (c : ℕ) (s : Bytes)
    → shell_quote (c ∷ s)
      ≡ apostrophe ∷ (replace_all apostrophe quoted_apostrophe (c ∷ s) ++ apostrophe ∷ [])
unfolding shell_quote
shell_quote-cons c s = elim (Bool-cases (contains apostrophe (c ∷ s))) [
  | inl has ↦ rw has refl
  | inr lacks ↦ rw lacks (
      ap (λ t. apostrophe ∷ (t ++ apostrophe ∷ []))
        (sym (replace_all-absent apostrophe quoted_apostrophe (c ∷ s) lacks)))
]

-- A shell that reads a quoted text, to the end of the line, gets the text back.
read_word-shell_quote :
    (s rest : Bytes) → read_word bare (shell_quote s ++ (newline ∷ rest)) ≡ some (s, rest)
unfolding read_word
read_word-shell_quote [] rest = unfold shell_quote in refl
read_word-shell_quote (c ∷ s) rest =
    ap (λ t. read_word bare (t ++ (newline ∷ rest))) (shell_quote-cons c s)
    ∙ ap (read_word single) (
        append_assoc (replace_all apostrophe quoted_apostrophe (c ∷ s)) (apostrophe ∷ [])
          (newline ∷ rest))
    ∙ read_word-replace_all (c ∷ s) rest

-- What a line sets, and the text behind it.
abbrev pub name_char : ℕ → Bool
name_char c = leb b'a' c && leb c b'z' || leb b'A' c && leb c b'Z' || c == b'_'

pub record Variable : Type 0 where
  pub name : Bytes
  pub value : Bytes

abbrev pub assigned : Bytes → Option (Bytes × Bytes) → Option (Variable × Bytes)
assigned name none = none
assigned name (some (value, rest)) = some (record { name = name; value = value }, rest)

abbrev pub assignment : Option (Bytes × Bytes) → Option (Variable × Bytes)
assignment none = none
assignment (some (name, s)) =
    if all name_char name && not (is_nil name) then assigned name (read_word bare s) else none

abbrev pub after_export : Option Bytes → Option (Variable × Bytes)
after_export none = none
after_export (some s) = assignment (cut b'=' s)

unfoldable pub read_export : Bytes → Option (Variable × Bytes)
unfolding read_word cut
read_export s = after_export (cut_prefix (codes "export ") s)

unfoldable pub skip_line : Bytes → Bytes
skip_line [] = []
skip_line (c ∷ s) = let rest = skip_line s in if c == newline then s else rest

abbrev pub also : Variable → Option (List Variable) → Option (List Variable)
also v none = none
also v (some l) = some (v ∷ l)

-- The variables that a script sets, in order. A line takes one round.
unfoldable pub read_script : ℕ → Bytes → Option (List Variable)
unfolding read_export skip_line
read_script fuel [] = some []
read_script zero (c ∷ s) = none
read_script (suc fuel) (c ∷ s) = elim (c == b'#') [
  | true ↦ read_script fuel (skip_line (c ∷ s))
  | false ↦ elim (read_export (c ∷ s)) [
    | none ↦ none
    | some (v, rest) ↦ also v (read_script fuel rest)
  ]
]

read_word-Digits :
    (s rest : Bytes) → Digits s → read_word bare (s ++ (newline ∷ rest)) ≡ some (s, rest)
unfolding read_word
read_word-Digits [] rest h = refl
read_word-Digits (c ∷ s) rest h = ground (arith, read_word-Digits s rest h.1)

abbrev pub value_of : Value → Bytes
value_of (quoted s) = s
value_of (count n) = number n

read_word-word :
    (v : Value) (rest : Bytes)
    → read_word bare (word v ++ (newline ∷ rest)) ≡ some (value_of v, rest)
unfolding word itoa
read_word-word (quoted s) rest = read_word-shell_quote s rest
read_word-word (count n) rest = read_word-Digits (format_nat n) rest (format_nat-Digits n)

name-Lacks : (s : Bytes) → all name_char s ≡ true → Lacks b'=' s
name-Lacks [] h = tt
name-Lacks (c ∷ s) h = (ground arith, name-Lacks s (ground arith))

abbrev pub variable : Export → Variable
variable e = record { name = e.0; value = value_of e.1 }

abbrev pub is_named : Export → Bool
is_named e = all name_char e.0 && not (is_nil e.0)

read_export-export_line :
    (e : Export) (rest : Bytes)
    → is_named e ≡ true
    → read_export (export_line e rest) ≡ some (variable e, rest)
unfolding read_export export_line
read_export-export_line e rest h =
    ap assignment (cut-part b'=' e.0 (word e.1 ++ (newline ∷ rest)) (name-Lacks e.0 (ground arith)))
    ∙ rw h (ap (assigned e.0) (read_word-word e.1 rest))

abbrev go_on : ℕ → Option (Variable × Bytes) → Option (List Variable)
go_on fuel none = none
go_on fuel (some (v, rest)) = also v (read_script fuel rest)

read_script-export_lines :
    (fuel : ℕ) (l : List Export)
    → all is_named l ≡ true
    → length l ≤ fuel
    → read_script fuel (export_lines l) ≡ some (map variable l)
unfolding read_script export_lines
read_script-export_lines fuel [] h k = refl
read_script-export_lines zero (e ∷ l) h k = absurd (omega arith)
read_script-export_lines (suc fuel) (e ∷ l) h k =
    ap (go_on fuel) (read_export-export_line e (export_lines l) (ground arith))
    ∙ ap (also (variable e)) (read_script-export_lines fuel l (ground arith) (omega arith))

read_script-comment :
    (fuel : ℕ) (s : Bytes)
    → read_script (suc fuel) (shell_comment ++ (newline ∷ s)) ≡ read_script fuel s
unfolding read_script skip_line
read_script-comment fuel s = refl

-- A POSIX shell that reads what `WriteHintsShell` writes, with at least 14 rounds, one for each
-- line, sets exactly the exported variables to their values, whatever bytes the source of the
-- snapshot and the CPU list hold.
pub read_script-write_hints_shell :
    (h : Option ClusterHints) (fuel : ℕ)
    → 14 ≤ fuel
    → read_script fuel (write_hints_shell h) ≡ some (map variable (hints_exports (or_empty h)))
unfolding write_hints_shell
read_script-write_hints_shell h zero k = absurd (omega arith)
read_script-write_hints_shell h (suc fuel) k =
    read_script-comment fuel (export_lines (hints_exports (or_empty h)))
    ∙ read_script-export_lines fuel (hints_exports (or_empty h)) refl (omega arith)
