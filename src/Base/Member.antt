-- ===== src/Base/Member.antt =====
-- Go's `map[string]struct{}` as a list of keys, with the tests and the counting that go with it.
use cluster_performance_engi.Base.{
  suc, ◌≤◌, ◌≡◌, refl, inl, inr, Bool, true, false, ◌||◌, List, [], ◌∷◌, ◌++◌, arith, length,
  Bool-cases, if◌then◌else◌,
}
use cluster_performance_engi.Base.Text.{Bytes, eqb, eqb_iff, eqb_refl}

abbrev pub has : Bytes → List Bytes → Bool
has x [] = false
has x (y ∷ l) = eqb x y || has x l

-- No key stands twice.
abbrev pub IsDistinct : List Bytes → Type 0
IsDistinct [] = Unit
IsDistinct (x ∷ l) = (has x l ≡ false) × IsDistinct l

abbrev pub Subset : List Bytes → List Bytes → Type 0
Subset l m = (x : Bytes) → has x l ≡ true → has x m ≡ true

pub has-append : (x : Bytes) (l m : List Bytes) → has x (l ++ m) ≡ (has x l || has x m)
has-append x [] m = refl
has-append x (y ∷ l) m = ground (arith, has-append x l m)

pub IsDistinct-append :
    (l m : List Bytes)
    → IsDistinct l
    → IsDistinct m
    → ((x : Bytes) → has x l ≡ true → has x m ≡ false)
    → IsDistinct (l ++ m)
IsDistinct-append [] m _ hm _ = hm
IsDistinct-append (x ∷ l) m (fresh, hl) hm apart = (
  ground (arith, has-append x l m, apart x, eqb_refl x),
  IsDistinct-append l m hl hm (λ z h. ground (arith, apart z)),
)

-- `l` without its first `x`.
remove : Bytes → List Bytes → List Bytes
remove x [] = []
remove x (y ∷ l) = if eqb x y then l else y ∷ remove x l

length-remove : (x : Bytes) (l : List Bytes) → has x l ≡ true → length l ≡ suc (length (remove x l))
unfolding remove
length-remove x [] h = ground arith
length-remove x (y ∷ l) h = ground (arith, length-remove x l)

has-remove : (x z : Bytes) (l : List Bytes) → eqb z x ≡ false → has z (remove x l) ≡ has z l
unfolding remove
has-remove x z [] h = refl
has-remove x z (y ∷ l) h = ground (arith, has-remove x z l, eqb_iff x y, eqb_iff z y, eqb_iff z x)

-- The pigeonhole principle.
pub length-le-of_Subset : (l m : List Bytes) → IsDistinct l → Subset l m → length l ≤ length m
length-le-of_Subset [] m _ _ = omega arith
length-le-of_Subset (x ∷ l) m (fresh, hl) sub =
    let x_in = sub x (ground (arith, eqb_refl x)) in
    omega (
      arith,
      length-remove x m x_in,
      length-le-of_Subset l (remove x m) hl (λ z h. elim (Bool-cases (eqb z x)) [
        | inl same ↦ cc (rw ((eqb_iff z x).0 same) at h)
        | inr other ↦ rw (has-remove x z m other) (sub z (ground arith))
      ]),
    )

remove-IsDistinct : (x : Bytes) (l : List Bytes) → IsDistinct l → IsDistinct (remove x l)
unfolding remove
remove-IsDistinct x [] h = tt
remove-IsDistinct x (y ∷ l) h =
    ground (arith, remove-IsDistinct x l h.1, has-remove x y l, eqb_iff x y, eqb_iff y x, h.0)

has-remove_distinct : (x : Bytes) (l : List Bytes) → IsDistinct l → has x (remove x l) ≡ false
unfolding remove
has-remove_distinct x [] h = refl
has-remove_distinct x (y ∷ l) h = ground (arith, has-remove_distinct x l h.1, eqb_iff x y, h.0)

has-of_remove : (x z : Bytes) (l : List Bytes) → has z (remove x l) ≡ true → has z l ≡ true
unfolding remove
has-of_remove x z [] h = h
has-of_remove x z (y ∷ l) h = ground (arith, has-of_remove x z l)

-- As many distinct keys as `m` is long, all of `m`, are all the keys of `m`.
pub Subset-of_full :
    (l m : List Bytes) → IsDistinct l → Subset l m → length m ≤ length l → Subset m l
Subset-of_full l m hl sub le x mx = elim (Bool-cases (has x l)) [
  | inl e ↦ e
  | inr e ↦ absurd (
      omega (
        arith,
        length-remove x m mx,
        length-le-of_Subset l (remove x m) hl (λ z h. elim (Bool-cases (eqb z x)) [
          | inl same ↦ cc (rw ((eqb_iff z x).0 same) at h)
          | inr other ↦ rw (has-remove x z m other) (sub z h)
        ]),
      ))
]

-- And then `m` repeats no key.
pub IsDistinct-of_full :
    (l m : List Bytes) → IsDistinct l → Subset l m → length m ≤ length l → IsDistinct m
IsDistinct-of_full l [] hl sub le = tt
IsDistinct-of_full l (y ∷ m) hl sub le =
    let y_in = Subset-of_full l (y ∷ m) hl sub le y (ground (arith, eqb_refl y)) in
    let distinct = remove-IsDistinct y l hl in
    let small : Subset (remove y l) m = λ z h.
      ground (arith, sub z (has-of_remove y z l h), has-remove_distinct y l hl, eqb_iff z y, h) in
    let rest =
      IsDistinct-of_full (remove y l) m distinct small (omega (arith, length-remove y l y_in)) in
    (
      elim (Bool-cases (has y m)) [
        | inl again ↦ absurd (
            omega (
              arith,
              le,
              length-le-of_Subset l m hl (λ z h. ground (arith, sub z h, eqb_iff z y, again)),
            ))
        | inr e ↦ e
      ],
      rest,
    )
