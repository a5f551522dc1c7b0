-- ===== src/Dag/Prom.antt =====
-- nexusflow/pkg/dag/prom.go: the escaping of label values in the metrics.
mod Text
mod Tests
use cluster_performance_engi.Base.{
  ℕ, ◌≡◌, refl, sym, ◌∙◌, ap, Bool, true, false, List, [], ◌∷◌, ◌++◌, map, Option, none, some, ◌==◌,
  if◌then◌else◌, arith, append_assoc, Bool-cases, inl, inr,
}
use cluster_performance_engi.Base.Text.{Bytes, replace_all}

abbrev pub backslash : ℕ
backslash = b'\\'

abbrev pub quote : ℕ
quote = b'"'

abbrev pub newline : ℕ
newline = b'\n'

unfoldable pub prom_esc_label : Bytes → Bytes
prom_esc_label s = replace_all newline (b' ' ∷ []) (
    replace_all quote (backslash ∷ quote ∷ [])
      (replace_all backslash (backslash ∷ backslash ∷ []) s))

-- How a reader of the exposition format takes a label value: up to the first quote that no
-- backslash escapes. A newline in a label is an error.
abbrev pub and_then : ℕ → Option (Bytes × Bytes) → Option (Bytes × Bytes)
and_then c none = none
and_then c (some (label, rest)) = some (c ∷ label, rest)

pub read_label : Bytes → Option (Bytes × Bytes)
read_label [] = none
read_label (c ∷ []) = if c == quote then some ([], []) else none
read_label (c ∷ d ∷ s) =
    let skip = and_then d (read_label s) in
    let next = and_then c (read_label (d ∷ s)) in
    if c == quote
    then some ([], d ∷ s)
    else if c == backslash
    then skip
    else if c == newline
    then none
    else next

abbrev pub flat_char : ℕ → ℕ
flat_char c = if c == newline then b' ' else c

abbrev esc_char : ℕ → Bytes
esc_char c =
    if c == backslash
    then backslash ∷ backslash ∷ []
    else if c == quote
    then backslash ∷ quote ∷ []
    else flat_char c ∷ []

esc_cons : (c : ℕ) (s : Bytes) → prom_esc_label (c ∷ s) ≡ esc_char c ++ prom_esc_label s
unfolding prom_esc_label replace_all
esc_cons c s = ground arith

read_esc :
    (c d : ℕ) (s : Bytes)
    → read_label (esc_char c ++ (d ∷ s)) ≡ and_then (flat_char c) (read_label (d ∷ s))
unfolding read_label
read_esc c d s = ground arith

read_esc_part :
    (c : ℕ) (p rest : Bytes)
    → read_label (esc_char c ++ (p ++ (quote ∷ rest)))
      ≡ and_then (flat_char c) (read_label (p ++ (quote ∷ rest)))
read_esc_part c [] rest = read_esc c quote rest
read_esc_part c (d ∷ p) rest = read_esc c d (p ++ (quote ∷ rest))

read_end : (rest : Bytes) → read_label (quote ∷ rest) ≡ some ([], rest)
unfolding read_label
read_end [] = refl
read_end (d ∷ rest) = refl

-- A reader of the exposition format that meets an escaped label value and a quote gets the value
-- back, with newlines as spaces, and stops at that quote, whatever the value holds.
pub read_label-prom_esc_label :
    (s rest : Bytes)
    → read_label (prom_esc_label s ++ (quote ∷ rest)) ≡ some (map flat_char s, rest)
read_label-prom_esc_label [] rest = unfold prom_esc_label replace_all in (read_end rest)
read_label-prom_esc_label (c ∷ s) rest =
    ap (λ t. read_label (t ++ (quote ∷ rest))) (esc_cons c s)
    ∙ ap read_label (append_assoc (esc_char c) (prom_esc_label s) (quote ∷ rest))
    ∙ read_esc_part c (prom_esc_label s) rest
    ∙ ap (and_then (flat_char c)) (read_label-prom_esc_label s rest)
