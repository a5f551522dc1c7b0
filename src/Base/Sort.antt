-- ===== src/Base/Sort.antt =====
-- `sort.Ints` and `sort.Slice` over an order whose result does not depend on the method: an
-- insertion sort. The result of sorting by a total, transitive and antisymmetric order is unique.
use cluster_performance_engi.Base.{
  suc, ◌≡◌, refl, ◌∙◌, ap, Bool, true, false, List, [], ◌∷◌, arith, length, All, if◌then◌else◌,
  Bool-cases, inl, inr, In, ◌↔◌, ◌⊎◌,
}

-- `lessb a b` is Go's `!less(b, a)`: `a` may stand before `b`.
pub record Order {ℓ} (A : Type ℓ) : Type ℓ where
  pub lessb : A → A → Bool
  pub total : (a b : A) → lessb a b ≡ false → lessb b a ≡ true
  pub trans : (a b c : A) → lessb a b ≡ true → lessb b c ≡ true → lessb a c ≡ true

module _ {ℓ} {A : Type ℓ} (o : Order A) where
  open o use {lessb, total, trans}

  unfoldable pub insert : A → List A → List A
  insert a [] = a ∷ []
  insert a (b ∷ l) = if lessb a b then a ∷ b ∷ l else b ∷ insert a l

  unfoldable pub sort : List A → List A
  sort [] = []
  sort (a ∷ l) = insert a (sort l)

  -- Each element may stand before all that follow it.
  abbrev pub IsSorted : List A → Type 0
  IsSorted [] = Unit
  IsSorted (a ∷ l) = All (λ b. lessb a b ≡ true) l × IsSorted l

  pub All-insert {κ} : (P : A → Type κ) (a : A) (l : List A) → P a → All P l → All P (insert a l)
  unfolding insert
  All-insert P a [] h k = (h, tt)
  All-insert P a (b ∷ l) h k = elim (Bool-cases (lessb a b)) [
    | inl e ↦ rw e (h, k)
    | inr e ↦ rw e (k.0, All-insert P a l h k.1)
  ]

  pub All-sort {κ} : (P : A → Type κ) (l : List A) → All P l → All P (sort l)
  unfolding sort
  All-sort P [] h = tt
  All-sort P (a ∷ l) h = All-insert P a (sort l) h.0 (All-sort P l h.1)

  All-below :
      (a b : A) (l : List A)
      → lessb a b ≡ true
      → All (λ c. lessb b c ≡ true) l
      → All (λ c. lessb a c ≡ true) l
  All-below a b [] h k = tt
  All-below a b (c ∷ l) h k = (trans a b c h k.0, All-below a b l h k.1)

  insert-IsSorted : (a : A) (l : List A) → IsSorted l → IsSorted (insert a l)
  unfolding insert
  insert-IsSorted a [] h = (tt, tt)
  insert-IsSorted a (b ∷ l) h = elim (Bool-cases (lessb a b)) [
    | inl e ↦ rw e ((e, All-below a b l e h.0), h)
    | inr e ↦
        rw e (All-insert (λ c. lessb b c ≡ true) a l (total a b e) h.0, insert-IsSorted a l h.1)
  ]

  pub sort-IsSorted : (l : List A) → IsSorted (sort l)
  unfolding sort
  sort-IsSorted [] = tt
  sort-IsSorted (a ∷ l) = insert-IsSorted a (sort l) (sort-IsSorted l)

  pub length-insert : (a : A) (l : List A) → length (insert a l) ≡ suc (length l)
  unfolding insert
  length-insert a [] = refl
  length-insert a (b ∷ l) = ground (arith, length-insert a l)

  pub length-sort : (l : List A) → length (sort l) ≡ length l
  unfolding sort
  length-sort [] = refl
  length-sort (a ∷ l) = length-insert a (sort l) ∙ ap suc (length-sort l)

  -- A sorted list is left as it is.
  insert-below : (a : A) (l : List A) → All (λ b. lessb a b ≡ true) l → insert a l ≡ a ∷ l
  unfolding insert
  insert-below a [] h = refl
  insert-below a (b ∷ l) h = rw h.0

  pub sort-of_IsSorted : (l : List A) → IsSorted l → sort l ≡ l
  unfolding sort
  sort-of_IsSorted [] h = refl
  sort-of_IsSorted (a ∷ l) h = rw (sort-of_IsSorted l h.1) (insert-below a l h.0)

module _ {A : Type 0} (o : Order A) where
  In-insert : (a : A) (l : List A) (b : A) → In b (insert o a l) ↔ ((b ≡ a) ⊎ In b l)
  unfolding insert
  In-insert a [] b = ((λ h. h), (λ h. h))
  In-insert a (c ∷ l) b =
      let (there, back) = In-insert a l b in
      elim (Bool-cases (o.lessb a c)) [
        | inl e ↦ rw e ((λ h. h), (λ h. h))
        | inr e ↦ rw e (
          λ h. elim h [
            | inl p ↦ inr (inl p)
            | inr q ↦ elim (there q) [ inl p ↦ inl p | inr r ↦ inr (inr r) ]
          ],
          λ h. elim h [
            | inl p ↦ inr (back (inl p))
            | inr q ↦ elim q [ inl p ↦ inl p | inr r ↦ inr (back (inr r)) ]
          ],
        )
      ]

  -- Sorting keeps the elements.
  pub sort-In : (l : List A) (b : A) → In b (sort o l) ↔ In b l
  unfolding sort
  sort-In [] b = ((λ h. h), (λ h. h))
  sort-In (a ∷ l) b =
      let (there, back) = sort-In l b in
      let (into, out) = In-insert a (sort o l) b in
      (
        λ h. elim (into h) [ inl p ↦ inl p | inr q ↦ inr (there q) ],
        λ h. out (elim h [ inl p ↦ inl p | inr q ↦ inr (back q) ]),
      )
