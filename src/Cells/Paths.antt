-- ===== src/Cells/Paths.antt =====
-- Where the files of a cell are.
use cluster_performance_engi.Base.{
  ℕ, ◌≤◌, ◌≡◌, ◌⊎◌, ◌↔◌, refl, true, false, [], ◌∷◌, map, All, is_nil, arith, Bool-cases, inl, inr,
}
use cluster_performance_engi.Base.Text.{Bytes}
use cluster_performance_engi.Cells.{is_cell_char, cell_char, sanitize_id}

abbrev pub slash : ℕ
slash = b'/'

abbrev pub dot : ℕ
dot = b'.'

abbrev pub IsBetween : ℕ → ℕ → ℕ → Type 0
IsBetween lo hi c = (lo ≤ c) × (c ≤ hi)

-- A small or a capital letter of ASCII, a digit, a dash or an underscore.
abbrev pub IsCellChar : ℕ → Type 0
IsCellChar c =
    IsBetween b'a' b'z' c
    ⊎ (IsBetween b'A' b'Z' c ⊎ (IsBetween b'0' b'9' c ⊎ ((c ≡ b'-') ⊎ (c ≡ b'_'))))

is_cell_char_iff : (c : ℕ) → (is_cell_char c ≡ true) ↔ IsCellChar c
unfolding is_cell_char
is_cell_char_iff c = ground arith

cell_char-IsCellChar : (r : ℕ) → IsCellChar (cell_char r)
cell_char-IsCellChar r = elim (Bool-cases (is_cell_char r)) [
  | inl e ↦ rw e ((is_cell_char_iff r).0 e)
  | inr e ↦ rw e (ground arith)
]

map-IsCellChar : (s : Bytes) → All IsCellChar (map cell_char s)
map-IsCellChar [] = tt
map-IsCellChar (r ∷ s) = (cell_char-IsCellChar r, map-IsCellChar s)

map-same : (s : Bytes) → All IsCellChar s → map cell_char s ≡ s
map-same [] h = refl
map-same (r ∷ s) h = rw ((is_cell_char_iff r).1 h.0, map-same s h.1) refl

-- `sanitizeID` returns ASCII letters, digits, dashes and underscores only, and never the empty
-- string, whatever the id holds; an id that is not empty and holds only such characters is
-- returned as it is.
pub sanitize_id-IsCellChar :
    (s : Bytes)
    → All IsCellChar (sanitize_id s)
      × (is_nil (sanitize_id s) ≡ false)
      × (All IsCellChar s → is_nil s ≡ false → sanitize_id s ≡ s)
unfolding sanitize_id
sanitize_id-IsCellChar [] = (ground arith, refl, λ h full. ground (arith, full))
sanitize_id-IsCellChar (r ∷ s) = (map-IsCellChar (r ∷ s), refl, λ h full. map-same (r ∷ s) h)

-- `sanitizeID` leaves alone what it has returned.
pub sanitize_id_idem : (s : Bytes) → sanitize_id (sanitize_id s) ≡ sanitize_id s
sanitize_id_idem s =
    let (plain, full, _) = sanitize_id-IsCellChar s in
    (sanitize_id-IsCellChar (sanitize_id s)).2 plain full
