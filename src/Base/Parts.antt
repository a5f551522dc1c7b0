-- ===== src/Base/Parts.antt =====
-- `strings.Split`, `strings.Join`, `strings.Contains` and `strings.Cut` for a one-byte separator.
use cluster_performance_engi.Base.{
  ℕ, ◌≡◌, ◌≢◌, refl, ◌∙◌, ap, Bool, true, false, ◌||◌, List, [], ◌∷◌, ◌++◌, Option, none, some,
  arith, ◌==◌, if◌then◌else◌, All,
}
use cluster_performance_engi.Base.Text.{Bytes}

-- `c` before the first part.
abbrev pub extend : ℕ → List Bytes → List Bytes
extend c [] = (c ∷ []) ∷ []
extend c (p ∷ ps) = (c ∷ p) ∷ ps

module _ (sep : ℕ) where
  unfoldable pub split : Bytes → List Bytes
  split [] = [] ∷ []
  split (c ∷ s) = let rest = split s in if c == sep then [] ∷ rest else extend c rest

  unfoldable pub join : List Bytes → Bytes
  join [] = []
  join (p ∷ []) = p
  join (p ∷ q ∷ ps) = p ++ (sep ∷ join (q ∷ ps))

  abbrev pub contains : Bytes → Bool
  contains [] = false
  contains (c ∷ s) = c == sep || contains s

  -- The parts before and behind the first separator.
  unfoldable pub cut : Bytes → Option (Bytes × Bytes)
  cut [] = none
  cut (c ∷ s) = elim (c == sep) [
    | true ↦ some ([], s)
    | false ↦ elim (cut s) [ none ↦ none | some (a, b) ↦ some (c ∷ a, b) ]
  ]

  abbrev pub Lacks : Bytes → Type 0
  Lacks = All (λ c. c ≢ sep)

  split-part : (p s : Bytes) → Lacks p → split (p ++ (sep ∷ s)) ≡ p ∷ split s
  unfolding split
  split-part [] s h = ground arith
  split-part (c ∷ p) s h = ground (arith, split-part p s h.1)

  split-last : (p : Bytes) → Lacks p → split p ≡ p ∷ []
  unfolding split
  split-last [] h = refl
  split-last (c ∷ p) h = ground (arith, split-last p h.1)

  -- Parts without the separator are found again.
  pub split-join :
      (p : Bytes) (ps : List Bytes) → All Lacks (p ∷ ps) → split (join (p ∷ ps)) ≡ p ∷ ps
  unfolding join
  split-join p [] h = split-last p h.0
  split-join p (q ∷ ps) h = split-part p (join (q ∷ ps)) h.0 ∙ ap (λ t. p ∷ t) (split-join q ps h.1)

  pub cut-part : (a b : Bytes) → Lacks a → cut (a ++ (sep ∷ b)) ≡ some (a, b)
  unfolding cut
  cut-part [] b h = ground arith
  cut-part (c ∷ a) b h = ground (arith, cut-part a b h.1)

  pub contains-part : (a b : Bytes) → contains (a ++ (sep ∷ b)) ≡ true
  contains-part [] b = ground arith
  contains-part (c ∷ a) b = ground (arith, contains-part a b)

  pub contains-Lacks : (a : Bytes) → Lacks a → contains a ≡ false
  contains-Lacks [] h = refl
  contains-Lacks (c ∷ a) h = ground (arith, contains-Lacks a h.1)
