-- ===== src/Dag/Graph/Counts.antt =====
-- What the in-degrees of `TopoOrder` count: the dependencies of a vertex that are not placed yet.
use cluster_performance_engi.Base.{
  ℕ, suc, ◌+◌, ◌≤◌, ◌<◌, ◌≡◌, refl, ◌∙◌, ap, true, false, List, [], ◌∷◌, ◌++◌, length, arith,
  if◌then◌else◌, Bool-cases, inl, inr,
}
use cluster_performance_engi.Base.Int.{pos, max_int, inc}
use cluster_performance_engi.Base.Text.{Bytes, eqb, eqb_iff, eqb_refl}
use cluster_performance_engi.Base.Member.{has}
use cluster_performance_engi.Dag.Spec.{Node}
use cluster_performance_engi.Dag.Graph.{Degrees, count_deps, in_degrees, uses_of, edges}

-- The dependencies that are not in `done`.
abbrev pub missing : List Bytes → List Bytes → ℕ
missing done [] = 0
missing done (d ∷ deps) = (if has d done then 0 else 1) + missing done deps

-- What the nodes with the id `x` still wait for.
abbrev pub waits : List Bytes → List Node → Bytes → ℕ
waits done [] x = 0
waits done (n ∷ nodes) x =
    (if eqb x n.id then missing done n.depends_on else 0) + waits done nodes x

-- How often `x` stands in a list.
abbrev pub occ : Bytes → List Bytes → ℕ
occ x [] = 0
occ x (y ∷ l) = (if eqb x y then 1 else 0) + occ x l

-- The number of edges of the graph.
abbrev pub edge_count : List Node → ℕ
edge_count [] = 0
edge_count (n ∷ nodes) = length n.depends_on + edge_count nodes

pub missing-le : (done deps : List Bytes) → missing done deps ≤ length deps
missing-le done [] = omega arith
missing-le done (d ∷ deps) = ground (arith, missing-le done deps)

inc-pos : (m : ℕ) → m < max_int → inc (pos m) ≡ pos (suc m)
unfolding inc
inc-pos m h = ground arith

count_deps_lem :
    (id x : Bytes) (deps : List Bytes) (deg : Degrees) (m : ℕ)
    → deg x ≡ pos m
    → m + length deps ≤ max_int
    → count_deps id deps deg x ≡ pos (m + (if eqb x id then missing [] deps else 0))
unfolding count_deps
count_deps_lem id x [] deg m e h = e ∙ ap pos (ground arith)
count_deps_lem id x (d ∷ deps) deg m e h = elim (Bool-cases (eqb x id)) [
  | inl same ↦
      count_deps_lem id x deps _ (suc m) (ground (arith, (eqb_iff x id).0 same, inc-pos m))
        (omega arith)
      ∙ ap pos (ground arith)
  | inr other ↦ count_deps_lem id x deps _ m (rw other e) (omega arith) ∙ ap pos (ground arith)
]

in_degrees_lem :
    (nodes : List Node) (x : Bytes) (deg : Degrees) (m : ℕ)
    → deg x ≡ pos m
    → m + edge_count nodes ≤ max_int
    → in_degrees nodes deg x ≡ pos (m + waits [] nodes x)
unfolding in_degrees
in_degrees_lem [] x deg m e h = e ∙ ap pos (omega arith)
in_degrees_lem (n ∷ nodes) x deg m e h =
    in_degrees_lem nodes x _ _ (count_deps_lem n.id x n.depends_on deg m e (omega arith))
      (ground (arith, missing-le [] n.depends_on))
    ∙ ap pos (omega arith)

-- After the first two loops the in-degree of a vertex is the number of its dependencies.
pub in_degrees-waits :
    (nodes : List Node) (x : Bytes)
    → edge_count nodes ≤ max_int
    → in_degrees nodes (λ _. pos 0) x ≡ pos (waits [] nodes x)
in_degrees-waits nodes x h =
    in_degrees_lem nodes x (λ _. pos 0) 0 refl (omega arith) ∙ ap pos (omega arith)

occ-append : (x : Bytes) (l m : List Bytes) → occ x (l ++ m) ≡ occ x l + occ x m
occ-append x [] m = omega arith
occ-append x (y ∷ l) m = omega (arith, occ-append x l m)

missing-place :
    (done deps : List Bytes) (x id user : Bytes)
    → has id done ≡ false
    → eqb x user ≡ true
    → missing done deps ≡ missing (id ∷ done) deps + occ x (uses_of id user deps)
unfolding uses_of
missing-place done [] x id user h e = omega arith
missing-place done (d ∷ deps) x id user h e =
    ground
      (arith, missing-place done deps x id user h e, eqb_iff id d, eqb_iff d id, eqb_refl id, h, e)

occ-uses_of_other :
    (deps : List Bytes) (x id user : Bytes) → eqb x user ≡ false → occ x (uses_of id user deps) ≡ 0
unfolding uses_of
occ-uses_of_other [] x id user e = refl
occ-uses_of_other (d ∷ deps) x id user e = ground (arith, occ-uses_of_other deps x id user e)

-- Placing `id` satisfies the dependencies on it, and those alone.
pub waits-place :
    (nodes : List Node) (done : List Bytes) (id x : Bytes)
    → has id done ≡ false
    → waits done nodes x ≡ waits (id ∷ done) nodes x + occ x (edges nodes id)
unfolding edges
waits-place [] done id x h = omega arith
waits-place (n ∷ nodes) done id x h = elim (Bool-cases (eqb x n.id)) [
  | inl e ↦ rw e (
      omega (
        arith,
        waits-place nodes done id x h,
        missing-place done n.depends_on x id n.id h e,
        occ-append x (uses_of id n.id n.depends_on) (edges nodes id),
      ))
  | inr e ↦ rw e (
      omega (
        arith,
        waits-place nodes done id x h,
        occ-uses_of_other n.depends_on x id n.id e,
        occ-append x (uses_of id n.id n.depends_on) (edges nodes id),
      ))
]

missing-le_nil : (done deps : List Bytes) → missing done deps ≤ missing [] deps
missing-le_nil done [] = omega arith
missing-le_nil done (d ∷ deps) = ground (arith, missing-le_nil done deps)

pub waits-le_nil :
    (done : List Bytes) (nodes : List Node) (x : Bytes) → waits done nodes x ≤ waits [] nodes x
waits-le_nil done [] x = omega arith
waits-le_nil done (n ∷ nodes) x =
    ground (arith, waits-le_nil done nodes x, missing-le_nil done n.depends_on)
