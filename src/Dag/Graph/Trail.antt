-- ===== src/Dag/Graph/Trail.antt =====
-- The main loop of `TopoOrder`: the ids that it takes from the queue, in order.
use cluster_performance_engi.Base.{
  ℕ, zero, suc, ◌+◌, ◌<◌, ◌≡◌, sym, ◌∙◌, ap, true, false, ◌||◌, List, [], ◌∷◌, ◌++◌, map, some,
  length, arith, Bool-cases, inl, inr, append_assoc, append-nil,
}
use cluster_performance_engi.Base.Int.{pos}
use cluster_performance_engi.Base.Text.{Bytes, eqb_iff, eqb_refl}
use cluster_performance_engi.Base.Member.{
  has, IsDistinct, Subset, has-append, IsDistinct-append, length-le-of_Subset,
}
use cluster_performance_engi.Dag.Spec.{Node}
use cluster_performance_engi.Dag.Graph.{Degrees, by_id, edges, relax, drain}
use cluster_performance_engi.Dag.Graph.Counts.{waits, waits-place, waits-le_nil}
use cluster_performance_engi.Dag.Graph.Relax.{
  Covers, pushed, relax-degrees, relax-queue, pushed-full, full-pushed, pushed-IsDistinct,
}

pub trail : ℕ → List Node → Degrees → List Bytes → List Bytes
trail zero nodes deg q = []
trail (suc fuel) nodes deg [] = []
trail (suc fuel) nodes deg (id ∷ q) =
    let r = relax (edges nodes id) deg q in id ∷ trail fuel nodes r.0 r.1

-- `done`, and then the ids of a list.
abbrev pub visited : List Bytes → List Bytes → List Bytes
visited done [] = done
visited done (x ∷ l) = visited (x ∷ done) l

-- Each id waits for nothing when its turn comes.
abbrev pub InOrder : List Node → List Bytes → List Bytes → Type 0
InOrder nodes done [] = Unit
InOrder nodes done (x ∷ l) = (waits done nodes x ≡ 0) × InOrder nodes (x ∷ done) l

-- The state of the loop, with the ids that left the queue in `done`.
pub record Inv (nodes : List Node) (keys done : List Bytes) (deg : Degrees) (q : List Bytes)
    : Type 0 where
  pub degs : (x : Bytes) → deg x ≡ pos (waits done nodes x)
  pub distinct : IsDistinct q
  pub done_distinct : IsDistinct done
  pub apart : (x : Bytes) → has x q ≡ true → has x done ≡ false
  pub done_free : (x : Bytes) → has x done ≡ true → waits done nodes x ≡ 0
  pub free : (x : Bytes) → has x q ≡ true → waits done nodes x ≡ 0
  pub complete :
      (x : Bytes) → has x keys ≡ true → waits done nodes x ≡ 0 → (has x q || has x done) ≡ true
  pub within : Subset q keys
  pub done_within : Subset done keys

-- Where the loop ends, the queue has been emptied and no key that is free was left out.
pub record Outcome (nodes : List Node) (keys done found : List Bytes) : Type 0 where
  pub distinct : IsDistinct (visited done found)
  pub within : Subset (visited done found) keys
  pub in_order : InOrder nodes done found
  pub closed :
      (x : Bytes)
      → has x keys ≡ true
      → waits (visited done found) nodes x ≡ 0
      → has x (visited done found) ≡ true

module _ (nodes : List Node) (keys done : List Bytes) (deg : Degrees) (id : Bytes) (q : List Bytes)
    (known : (x : Bytes) → 0 < waits [] nodes x → has x keys ≡ true)
    (inv : Inv nodes keys done deg (id ∷ q)) where
  succs : List Bytes
  succs = edges nodes id

  counts : Bytes → ℕ
  counts = waits done nodes

  fresh : has id done ≡ false
  fresh = inv.apart id (ground (arith, eqb_refl id))

  covered : Covers succs deg counts
  unfolding succs counts
  covered = record {
    degs = inv.degs;
    enough = λ x. omega (arith, waits-place nodes done id x fresh);
  }

  next_degs : (x : Bytes) → (relax succs deg q).0 x ≡ pos (waits (id ∷ done) nodes x)
  unfolding succs counts
  next_degs x =
      relax-degrees succs deg counts q covered x
      ∙ ap pos (omega (arith, waits-place nodes done id x fresh))

  next_queue : (relax succs deg q).1 ≡ q ++ pushed succs counts
  next_queue = relax-queue succs deg counts q covered

  -- A vertex that is pushed was waiting, and waits no more.
  pushed_facts :
      (x : Bytes)
      → has x (pushed succs counts) ≡ true
      → (0 < waits done nodes x) × (waits (id ∷ done) nodes x ≡ 0)
  unfolding succs counts
  pushed_facts x m =
      let (full, some_edge) = pushed-full succs counts x covered.enough m in
      omega (arith, waits-place nodes done id x fresh, full, some_edge)

  new : List Bytes
  new = pushed succs counts

  apart_new : (x : Bytes) → has x q ≡ true → has x new ≡ false
  unfolding new
  apart_new x h = elim (Bool-cases (has x (pushed succs counts))) [
    | inl m ↦ absurd (omega (arith, inv.free x (ground arith), (pushed_facts x m).0))
    | inr e ↦ e
  ]

  next_apart : (x : Bytes) → has x (q ++ new) ≡ true → has x (id ∷ done) ≡ false
  unfolding new
  next_apart x h = ground (
    arith,
    has-append x q new,
    inv.apart x,
    inv.distinct,
    pushed_facts x,
    inv.done_free x,
    inv.free x,
    eqb_iff x id,
    eqb_refl id,
    inv.free id,
  )

  next_free : (x : Bytes) → has x (q ++ new) ≡ true → waits (id ∷ done) nodes x ≡ 0
  unfolding new
  next_free x h =
      ground
        (arith, has-append x q new, inv.free x, pushed_facts x, waits-place nodes done id x fresh)

  next_complete :
      (x : Bytes)
      → has x keys ≡ true
      → waits (id ∷ done) nodes x ≡ 0
      → (has x (q ++ new) || has x (id ∷ done)) ≡ true
  unfolding new succs counts
  next_complete x k w = ground (
    arith,
    has-append x q new,
    inv.complete x k,
    waits-place nodes done id x fresh,
    full-pushed succs counts x covered.enough,
  )

  next_within : Subset (q ++ new) keys
  unfolding new
  next_within x h =
      ground (
        arith,
        has-append x q new,
        inv.within x,
        pushed_facts x,
        known x,
        waits-le_nil done nodes x,
      )

  pub next_Inv :
      Inv nodes keys (id ∷ done) (relax (edges nodes id) deg q).0 (relax (edges nodes id) deg q).1
  unfolding succs new
  next_Inv = record {
    degs = next_degs;
    distinct = rw next_queue (
        IsDistinct-append q new inv.distinct.1 (pushed-IsDistinct succs counts covered.enough)
          apart_new);
    done_distinct = (fresh, inv.done_distinct);
    apart = rw next_queue next_apart;
    done_free = λ x h. ground (
      arith,
      inv.done_free x,
      inv.free x,
      eqb_refl id,
      eqb_iff x id,
      waits-place nodes done id x fresh,
    );
    free = rw next_queue next_free;
    complete = rw next_queue next_complete;
    within = rw next_queue next_within;
    done_within = λ x h.
        ground (arith, inv.within x, inv.within id, inv.done_within x, eqb_iff x id, eqb_refl id);
  }

module _ (nodes : List Node) (keys : List Bytes)
    (known : (x : Bytes) → 0 < waits [] nodes x → has x keys ≡ true) where
  abbrev HasFuel : ℕ → List Bytes → Type 0
  HasFuel fuel done = length keys < fuel + length done

  spent :
      (done : List Bytes) (deg : Degrees) (q : List Bytes)
      → Inv nodes keys done deg q
      → ¬ HasFuel 0 done
  spent done deg q inv h =
      absurd (omega (arith, length-le-of_Subset done keys inv.done_distinct inv.done_within, h))

  -- With fuel for the keys that are left, the loop ends, and returns the nodes of the trail.
  pub drain-trail :
      (fuel : ℕ) (done : List Bytes) (deg : Degrees) (q : List Bytes) (ordered : List Node)
      → Inv nodes keys done deg q
      → HasFuel fuel done
      → drain fuel nodes deg q ordered
        ≡ some (ordered ++ map (by_id nodes) (trail fuel nodes deg q))
  unfolding drain trail
  drain-trail zero done deg q ordered inv h = absurd (spent done deg q inv h)
  drain-trail (suc fuel) done deg [] ordered inv h = ap some (sym (append-nil ordered))
  drain-trail (suc fuel) done deg (id ∷ q) ordered inv h =
      drain-trail fuel (id ∷ done) _ _ _ (next_Inv nodes keys done deg id q known inv) (omega arith)
      ∙ ap some (append_assoc ordered (by_id nodes id ∷ []) _)

  pub trail-Outcome :
      (fuel : ℕ) (done : List Bytes) (deg : Degrees) (q : List Bytes)
      → Inv nodes keys done deg q
      → HasFuel fuel done
      → Outcome nodes keys done (trail fuel nodes deg q)
  unfolding trail
  trail-Outcome zero done deg q inv h = absurd (spent done deg q inv h)
  trail-Outcome (suc fuel) done deg [] inv h = record {
    distinct = inv.done_distinct;
    within = inv.done_within;
    in_order = tt;
    closed = inv.complete;
  }
  trail-Outcome (suc fuel) done deg (id ∷ q) inv h =
      let rest =
        trail-Outcome fuel (id ∷ done) _ _ (next_Inv nodes keys done deg id q known inv)
          (omega arith) in
      record {
        distinct = rest.distinct;
        within = rest.within;
        in_order = (inv.free id (ground (arith, eqb_refl id)), rest.in_order);
        closed = rest.closed;
      }
