-- ===== src/Base/Text.antt =====
-- Strings as lists of bytes: equality, the order of Go's `<`, and white space.
use Prim.Native.Char.{code}
use Prim.Native.String.{String}
use cluster_performance_engi.Base.{
  ℕ, ◌≡◌, refl, ◌↔◌, Bool, true, false, ◌&&◌, ◌||◌, List, [], ◌∷◌, ◌++◌, is_nil, Option, none, some,
  arith, ltb, leb, ◌==◌, if◌then◌else◌, all, zero, suc, ◌-◌,
}

abbrev pub Bytes : Type 0
Bytes = List ℕ

-- The bytes of an ASCII literal.
abbrev pub codes : String → Bytes
codes String.[] = []
codes (String.◌∷◌ c s) = code c ∷ codes s

abbrev pub eqb : Bytes → Bytes → Bool
eqb [] [] = true
eqb (a ∷ s) (b ∷ t) = a == b && eqb s t
eqb [] (b ∷ t) = false
eqb (a ∷ s) [] = false

pub eqb_iff : (s t : Bytes) → (eqb s t ≡ true) ↔ (s ≡ t)
eqb_iff [] [] = ground arith
eqb_iff (a ∷ s) (b ∷ t) = ground (arith, eqb_iff s t)
eqb_iff [] (b ∷ t) = ground arith
eqb_iff (a ∷ s) [] = ground arith

pub eqb_refl : (s : Bytes) → eqb s s ≡ true
eqb_refl s = (eqb_iff s s).1 refl

-- `s <= t` on strings: byte by byte.
unfoldable pub leb_text : Bytes → Bytes → Bool
leb_text [] t = true
leb_text (a ∷ s) [] = false
leb_text (a ∷ s) (b ∷ t) = ltb a b || (a == b && leb_text s t)

pub leb_text_total : (s t : Bytes) → leb_text s t ≡ false → leb_text t s ≡ true
unfolding leb_text
leb_text_total [] t h = ground arith
leb_text_total (a ∷ s) [] h = refl
leb_text_total (a ∷ s) (b ∷ t) h = ground (arith, leb_text_total s t)

pub leb_text_trans :
    (s t u : Bytes) → leb_text s t ≡ true → leb_text t u ≡ true → leb_text s u ≡ true
unfolding leb_text
leb_text_trans [] t u h k = refl
leb_text_trans (a ∷ s) [] u h k = ground arith
leb_text_trans (a ∷ s) (b ∷ t) [] h k = ground arith
leb_text_trans (a ∷ s) (b ∷ t) (c ∷ u) h k = ground (arith, leb_text_trans s t u)

pub leb_text_antisymm : (s t : Bytes) → leb_text s t ≡ true → leb_text t s ≡ true → s ≡ t
unfolding leb_text
leb_text_antisymm [] [] h k = refl
leb_text_antisymm [] (b ∷ t) h k = ground arith
leb_text_antisymm (a ∷ s) [] h k = ground arith
leb_text_antisymm (a ∷ s) (b ∷ t) h k = ground (arith, leb_text_antisymm s t)

abbrev pub is_space : ℕ → Bool
is_space c = c == 32 || (leb 9 c && leb c 13)

-- The UTF-8 of U+0085 and of U+00A0.
abbrev is_space2 : ℕ → ℕ → Bool
is_space2 a b = a == 194 && (b == 133 || b == 160)

-- The UTF-8 of U+1680, U+2000 to U+200A, U+2028, U+2029, U+202F, U+205F and U+3000.
abbrev is_space3 : ℕ → ℕ → ℕ → Bool
is_space3 a b c =
    a == 225 && (b == 154 && c == 128)
    || (a == 226
          && (b == 128 && (leb 128 c && leb c 138 || (c == 168 || (c == 169 || c == 175)))
              || b == 129 && c == 159)
        || a == 227 && (b == 128 && c == 128))

-- How many bytes the first rune takes if `unicode.IsSpace` holds of it, 0 if it does not.
unfoldable pub space_width : Bytes → ℕ
space_width [] = 0
space_width (a ∷ []) = if is_space a then 1 else 0
space_width (a ∷ b ∷ []) = if is_space a then 1 else if is_space2 a b then 2 else 0
space_width (a ∷ b ∷ c ∷ s) =
    if is_space a then 1 else if is_space2 a b then 2 else if is_space3 a b c then 3 else 0

-- The text without the white space in front; so many bytes of the rune in front are still to go.
unfoldable pub drop_spaces : ℕ → Bytes → Bytes
unfolding space_width
drop_spaces n [] = []
drop_spaces (suc n) (c ∷ s) = drop_spaces n s
drop_spaces zero (c ∷ s) =
    let width = space_width (c ∷ s) in
    let rest = drop_spaces (width - 1) s in if width == 0 then c ∷ s else rest

-- What is behind the last rune that is not white space goes.
unfoldable pub trim_right : Bytes → Bytes
unfolding drop_spaces
trim_right [] = []
trim_right (c ∷ s) =
    let rest = trim_right s in if is_nil (drop_spaces 0 (c ∷ s)) then [] else c ∷ rest

-- `strings.TrimSpace`
unfoldable pub trim_space : Bytes → Bytes
unfolding drop_spaces trim_right
trim_space s = trim_right (drop_spaces 0 s)

-- White space, or a byte of a rune that is not ASCII.
abbrev pub may_trim : ℕ → Bool
may_trim c = is_space c || leb 128 c

space_width-ok : (c : ℕ) (s : Bytes) → may_trim c ≡ false → space_width (c ∷ s) ≡ 0
unfolding space_width
space_width-ok c [] h = ground arith
space_width-ok c (a ∷ []) h = ground arith
space_width-ok c (a ∷ b ∷ s) h = ground arith

drop_spaces-ok : (c : ℕ) (s : Bytes) → may_trim c ≡ false → drop_spaces 0 (c ∷ s) ≡ c ∷ s
unfolding drop_spaces
drop_spaces-ok c s h = rw (space_width-ok c s h) refl

trim_right-ok :
    (s : Bytes) → all (λ c. if may_trim c then false else true) s ≡ true → trim_right s ≡ s
unfolding trim_right
trim_right-ok [] h = refl
trim_right-ok (c ∷ s) h =
    rw (drop_spaces-ok c s (ground arith), trim_right-ok s (ground arith)) refl

-- ASCII text without white space is left alone.
pub trim_space-ok :
    (s : Bytes) → all (λ c. if may_trim c then false else true) s ≡ true → trim_space s ≡ s
unfolding trim_space
trim_space-ok [] h = refl
trim_space-ok (c ∷ s) h = rw (drop_spaces-ok c s (ground arith)) (trim_right-ok (c ∷ s) h)

-- `strings.ReplaceAll` of one byte.
unfoldable pub replace_all : ℕ → Bytes → Bytes → Bytes
replace_all old new [] = []
replace_all old new (c ∷ s) = (if c == old then new else c ∷ []) ++ replace_all old new s

-- `strings.CutPrefix`
abbrev pub cut_prefix : Bytes → Bytes → Option Bytes
cut_prefix [] s = some s
cut_prefix (c ∷ part) [] = none
cut_prefix (c ∷ part) (d ∷ s) = if c == d then cut_prefix part s else none

-- `strings.Fields`, with the bytes of white space that are still to go and the field that is being
-- read.
unfoldable pub fields_from : ℕ → Bytes → Bytes → List Bytes
unfolding space_width
fields_from n field [] = if is_nil field then [] else field ∷ []
fields_from (suc n) field (c ∷ s) = fields_from n field s
fields_from zero field (c ∷ s) =
    let width = space_width (c ∷ s) in
    let rest = fields_from (width - 1) (if width == 0 then field ++ c ∷ [] else []) s in
    if width == 0 || is_nil field then rest else field ∷ rest

abbrev pub fields : Bytes → List Bytes
fields s = fields_from 0 [] s
