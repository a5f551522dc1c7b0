-- ===== src/Dag/Graph/Relax.antt =====
-- The inner loop of `TopoOrder`: what `relax` does to the degrees and to the queue.
use cluster_performance_engi.Base.{
  ℕ, zero, suc, ◌-◌, ◌≤◌, ◌<◌, ◌≡◌, sym, ◌∙◌, ap, true, List, [], ◌∷◌, ◌++◌, arith, if◌then◌else◌,
  Bool-cases, inl, inr, ◌==◌, append_assoc, append-nil,
}
use cluster_performance_engi.Base.Int.{pos, dec, eqb_ℤ}
use cluster_performance_engi.Base.Text.{Bytes, eqb, eqb_iff, eqb_refl}
use cluster_performance_engi.Base.Member.{has, IsDistinct}
use cluster_performance_engi.Dag.Graph.{Degrees, update, relax}
use cluster_performance_engi.Dag.Graph.Counts.{occ}

abbrev cut : (Bytes → ℕ) → Bytes → Bytes → ℕ
cut c s = λ x. if eqb x s then c x - 1 else c x

-- The vertices whose count `c` falls to zero.
pub pushed : List Bytes → (Bytes → ℕ) → List Bytes
pushed [] c = []
pushed (s ∷ succs) c = let rest = pushed succs (cut c s) in if c s == 1 then s ∷ rest else rest

-- The degrees are the counts `c`, and the counts cover the edges to relax.
pub record Covers (succs : List Bytes) (deg : Degrees) (c : Bytes → ℕ) : Type 0 where
  pub degs : (x : Bytes) → deg x ≡ pos (c x)
  pub enough : (x : Bytes) → occ x succs ≤ c x

dec-pos : (m : ℕ) → 1 ≤ m → dec (pos m) ≡ pos (m - 1)
unfolding dec
dec-pos zero h = absurd (omega arith)
dec-pos (suc m) h = ap pos (omega arith)

module _ (s : Bytes) (succs : List Bytes) (deg : Degrees) (c : Bytes → ℕ)
    (h : Covers (s ∷ succs) deg c) where
  count-pos : 1 ≤ c s
  count-pos = ground (arith, h.enough s, eqb_refl s)

  dec-degree : dec (deg s) ≡ pos (c s - 1)
  dec-degree = rw (h.degs s) (dec-pos (c s) count-pos)

  Covers-tail : Covers succs (update deg s (dec (deg s))) (cut c s)
  Covers-tail = record {
    degs = λ x. elim (Bool-cases (eqb x s)) [
      | inl e ↦ rw e (dec-degree ∙ ap (λ y. pos (c y - 1)) (sym ((eqb_iff x s).0 e)))
      | inr e ↦ rw e (h.degs x)
    ];
    enough = λ x. ground (arith, h.enough x);
  }

  zero_iff : eqb_ℤ (dec (deg s)) (pos 0) ≡ (c s == 1)
  zero_iff = rw dec-degree (ground (arith, count-pos))

pub relax-degrees :
    (succs : List Bytes) (deg : Degrees) (c : Bytes → ℕ) (q : List Bytes)
    → Covers succs deg c
    → (x : Bytes) → (relax succs deg q).0 x ≡ pos (c x - occ x succs)
unfolding relax
relax-degrees [] deg c q h x = h.degs x ∙ ap pos (omega arith)
relax-degrees (s ∷ succs) deg c q h x =
    relax-degrees succs _ _ _ (Covers-tail s succs deg c h) x ∙ ap pos (ground arith)

pub relax-queue :
    (succs : List Bytes) (deg : Degrees) (c : Bytes → ℕ) (q : List Bytes)
    → Covers succs deg c
    → (relax succs deg q).1 ≡ q ++ pushed succs c
unfolding relax pushed
relax-queue [] deg c q h = sym (append-nil q)
relax-queue (s ∷ succs) deg c q h =
    let later = Covers-tail s succs deg c h in
    ground (
      arith,
      zero_iff s succs deg c h,
      relax-queue succs _ (cut c s) (q ++ s ∷ []) later,
      relax-queue succs _ (cut c s) q later,
      append_assoc q (s ∷ []) (pushed succs (cut c s)),
    )

occ-tail :
    (s : Bytes) (succs : List Bytes) (c : Bytes → ℕ)
    → ((y : Bytes) → occ y (s ∷ succs) ≤ c y)
    → (y : Bytes) → occ y succs ≤ cut c s y
occ-tail s succs c h y = ground (arith, h y)

-- A vertex is pushed when the last of its edges is relaxed, and not otherwise.
pub pushed-full :
    (succs : List Bytes) (c : Bytes → ℕ) (x : Bytes)
    → ((y : Bytes) → occ y succs ≤ c y)
    → has x (pushed succs c) ≡ true
    → (c x ≡ occ x succs) × (0 < occ x succs)
unfolding pushed
pushed-full [] c x h m = cc
pushed-full (s ∷ succs) c x h m =
    ground (
      arith,
      pushed-full succs (cut c s) x (occ-tail s succs c h),
      h x,
      h s,
      eqb_iff x s,
      eqb_refl s,
    )

pub full-pushed :
    (succs : List Bytes) (c : Bytes → ℕ) (x : Bytes)
    → ((y : Bytes) → occ y succs ≤ c y)
    → c x ≡ occ x succs
    → 0 < occ x succs
    → has x (pushed succs c) ≡ true
unfolding pushed
full-pushed [] c x h e p = absurd (omega arith)
full-pushed (s ∷ succs) c x h e p =
    ground (
      arith,
      full-pushed succs (cut c s) x (occ-tail s succs c h),
      h x,
      h s,
      eqb_iff x s,
      eqb_refl s,
    )

pub pushed-IsDistinct :
    (succs : List Bytes) (c : Bytes → ℕ)
    → ((y : Bytes) → occ y succs ≤ c y)
    → IsDistinct (pushed succs c)
unfolding pushed
pushed-IsDistinct [] c h = tt
pushed-IsDistinct (s ∷ succs) c h = ground (
  arith,
  pushed-IsDistinct succs (cut c s) (occ-tail s succs c h),
  h s,
  eqb_refl s,
  pushed-full succs (cut c s) s (occ-tail s succs c h),
)
