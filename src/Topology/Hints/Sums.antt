-- ===== src/Topology/Hints/Sums.antt =====
-- The sockets of the hints share out the CPUs and the cores.
use cluster_performance_engi.Topology.Hints.Cores.{IsCores, core_keys-IsCores}
use cluster_performance_engi.Base.{
  ℕ, suc, ◌+◌, ◌≡◌, refl, ◌∙◌, ap, Bool, true, false, ◌||◌, List, [], ◌∷◌, ◌++◌, map, length,
  if◌then◌else◌, arith, Bool-cases, inl, inr, All, some, length-map,
}
use cluster_performance_engi.Base.Int.{ℤ, eqb_ℤ, eqb_ℤ_iff}
use cluster_performance_engi.Base.Text.{Bytes}
use cluster_performance_engi.Base.Sort.{sort, insert, length-sort}
use cluster_performance_engi.Topology.CpuList.{ints, seen, uniq}
use cluster_performance_engi.Topology.Snapshot.{Cpu, Topology, package_ids}
use cluster_performance_engi.Topology.Hints.{
  CoreKey, key_of, seen_key, core_keys, package_cpus, package_cores, socket_summary,
  socket_summaries, build_cluster_hints,
}

-- How often `x` stands in a list.
unfoldable pub occurs : ℤ → List ℤ → ℕ
occurs x [] = 0
occurs x (y ∷ l) = let rest = occurs x l in if eqb_ℤ y x then suc rest else rest

abbrev pub sum : List ℕ → ℕ
sum [] = 0
sum (n ∷ l) = n + sum l

-- Packages among which each of `l` stands once share `l` out.
abbrev Shares : List ℤ → List ℤ → Type 0
Shares ps l = All (λ x. occurs x ps ≡ 1) l

sum-occurs_cons :
    (x : ℤ) (l ps : List ℤ)
    → sum (map (λ p. occurs p (x ∷ l)) ps) ≡ occurs x ps + sum (map (λ p. occurs p l) ps)
unfolding occurs
sum-occurs_cons x l [] = refl
sum-occurs_cons x l (p ∷ ps) = ground (arith, sum-occurs_cons x l ps, eqb_ℤ_iff x p, eqb_ℤ_iff p x)

sum-occurs_nil : (ps : List ℤ) → sum (map (λ p. occurs p []) ps) ≡ 0
unfolding occurs
sum-occurs_nil [] = refl
sum-occurs_nil (p ∷ ps) = ground (arith, sum-occurs_nil ps)

sum-occurs : (l ps : List ℤ) → Shares ps l → sum (map (λ p. occurs p l) ps) ≡ length l
sum-occurs [] ps h = sum-occurs_nil ps
sum-occurs (x ∷ l) ps h = omega (arith, sum-occurs_cons x l ps, sum-occurs l ps h.1, h.0)

occurs-insert : (x y : ℤ) (l : List ℤ) → occurs x (insert ints y l) ≡ occurs x (y ∷ l)
unfolding insert occurs
occurs-insert x y [] = refl
occurs-insert x y (z ∷ l) = ground (arith, occurs-insert x y l)

occurs-sort : (x : ℤ) (l : List ℤ) → occurs x (sort ints l) ≡ occurs x l
unfolding sort occurs
occurs-sort x [] = refl
occurs-sort x (y ∷ l) = occurs-insert x y (sort ints l) ∙ ground (arith, occurs-sort x l)

abbrev bit : Bool → ℕ
bit b = if b then 1 else 0

-- Each member of a list of distinct ids stands in it once.
occurs-snoc : (x y : ℤ) (l : List ℤ) → occurs x (l ++ y ∷ []) ≡ occurs x l + occurs x (y ∷ [])
unfolding occurs
occurs-snoc x y [] = ground arith
occurs-snoc x y (z ∷ l) = ground (arith, occurs-snoc x y l)

seen-snoc : (x y : ℤ) (l : List ℤ) → seen x (l ++ y ∷ []) ≡ (seen x l || eqb_ℤ x y)
seen-snoc x y [] = ground arith
seen-snoc x y (z ∷ l) = ground (arith, seen-snoc x y l)

abbrev Once : List ℤ → Type 0
Once l = (x : ℤ) → occurs x l ≡ bit (seen x l)

Once-snoc : (y : ℤ) (l : List ℤ) → seen y l ≡ false → Once l → Once (l ++ y ∷ [])
unfolding occurs
Once-snoc y l new h x =
    ground (arith, occurs-snoc x y l, seen-snoc x y l, h x, eqb_ℤ_iff x y, eqb_ℤ_iff y x, new)

Once-uniq : (out l : List ℤ) → Once out → Once (uniq out l)
unfolding uniq
Once-uniq out [] h = h
Once-uniq out (y ∷ l) h = elim (Bool-cases (seen y out)) [
  | inl old ↦ rw (old) (Once-uniq out l h)
  | inr new ↦ rw (new) (Once-uniq (out ++ y ∷ []) l (Once-snoc y out new h))
]

seen-uniq : (x : ℤ) (out l : List ℤ) → seen x out ≡ true → seen x (uniq out l) ≡ true
unfolding uniq
seen-uniq x out [] h = h
seen-uniq x out (y ∷ l) h =
    seen-uniq x (if seen y out then out else out ++ y ∷ []) l (ground (arith, seen-snoc x y out, h))

uniq-All : (out l : List ℤ) → All (λ x. seen x (uniq out l) ≡ true) l
unfolding uniq
uniq-All out [] = tt
uniq-All out (y ∷ l) = (
  seen-uniq y (if seen y out then out else out ++ y ∷ []) l
      (ground (arith, seen-snoc y y out, eqb_ℤ_iff y y)),
  uniq-All (if seen y out then out else out ++ y ∷ []) l,
)

All-mono : {P Q : ℤ → Type 0} → ((x : ℤ) → P x → Q x) → (l : List ℤ) → All P l → All Q l
All-mono f [] h = tt
All-mono f (x ∷ l) h = (f x h.0, All-mono f l h.1)

package_ids-Shares : (cpus : List Cpu) → Shares (package_ids cpus) (map (λ c. c.package_id) cpus)
unfolding package_ids occurs
package_ids-Shares cpus =
    let ids : List ℤ = map (λ c. c.package_id) cpus in
    All-mono (λ x h. occurs-sort x (uniq [] ids) ∙ Once-uniq [] ids (λ y. refl) x ∙ ap bit h) ids
      (uniq-All [] ids)

length-package_cpus :
    (p : ℤ) (cpus : List Cpu)
    → length (package_cpus p cpus) ≡ occurs p (map (λ c. c.package_id) cpus)
unfolding package_cpus occurs
length-package_cpus p [] = refl
length-package_cpus p (c ∷ cpus) = ground (arith, length-package_cpus p cpus)

package_cores-occurs :
    (p : ℤ) (keys : List CoreKey) → package_cores p keys ≡ occurs p (map (λ k. k.0) keys)
unfolding package_cores occurs
package_cores-occurs p [] = refl
package_cores-occurs p (k ∷ keys) = ground (arith, package_cores-occurs p keys)

add_key-Shares :
    (ps : List ℤ) (k : CoreKey) (keys : List CoreKey) (old : Bool)
    → Shares ps (map (λ j. j.0) keys)
    → occurs k.0 ps ≡ 1
    → Shares ps (map (λ j. j.0) (if old then keys else keys ++ k ∷ []))
add_key-Shares ps k keys true hk h = hk
add_key-Shares ps k [] false hk h = (h, tt)
add_key-Shares ps k (j ∷ keys) false hk h = (hk.0, add_key-Shares ps k keys false hk.1 h)

-- The packages of the cores are packages of CPUs.
core_keys-Shares :
    (ps : List ℤ) (keys : List CoreKey) (cpus : List Cpu)
    → Shares ps (map (λ k. k.0) keys)
    → Shares ps (map (λ c. c.package_id) cpus)
    → Shares ps (map (λ k. k.0) (core_keys keys cpus))
unfolding core_keys
core_keys-Shares ps keys [] hk hc = hk
core_keys-Shares ps keys (c ∷ cpus) hk hc =
    core_keys-Shares ps (if seen_key (key_of c) keys then keys else keys ++ key_of c ∷ []) cpus
      (add_key-Shares ps (key_of c) keys (seen_key (key_of c) keys) hk hc.0) hc.1

sum-logical_cpus :
    (cpus : List Cpu) (ps : List ℤ)
    → sum (map (λ s. s.logical_cpus) (map (socket_summary cpus) ps))
      ≡ sum (map (λ p. occurs p (map (λ c. c.package_id) cpus)) ps)
sum-logical_cpus cpus [] = refl
sum-logical_cpus cpus (p ∷ ps) = omega (
  arith,
  length-sort ints (package_cpus p cpus),
  length-package_cpus p cpus,
  sum-logical_cpus cpus ps,
)

sum-physical_cores :
    (cpus : List Cpu) (ps : List ℤ)
    → sum (map (λ s. s.physical_cores) (map (socket_summary cpus) ps))
      ≡ sum (map (λ p. occurs p (map (λ k. k.0) (core_keys [] cpus))) ps)
sum-physical_cores cpus [] = refl
sum-physical_cores cpus (p ∷ ps) =
    omega (arith, package_cores-occurs p (core_keys [] cpus), sum-physical_cores cpus ps)

sockets-packages :
    (cpus : List Cpu) (ps : List ℤ) → map (λ s. s.package_id) (map (socket_summary cpus) ps) ≡ ps
sockets-packages cpus [] = refl
sockets-packages cpus (p ∷ ps) = ap (λ l. p ∷ l) (sockets-packages cpus ps)

-- In the hints for a snapshot, the sockets share out all its CPUs and all its cores: the package
-- of each CPU has exactly one socket, the CPUs of the sockets add up to the CPUs of the snapshot,
-- and there is a list that holds the package and core of each CPU once and nothing else, whose
-- length is both `PhysicalCoresTotal` and what the cores of the sockets add up to.
pub build_cluster_hints-sockets :
    (t : Topology) (source : Bytes)
    → let h = build_cluster_hints (some t) source in
      All (λ p. occurs p (map (λ s. s.package_id) h.sockets) ≡ 1) (map (λ c. c.package_id) t.cpus)
      × (sum (map (λ s. s.logical_cpus) h.sockets) ≡ length t.cpus)
      × ((keys : List CoreKey) × IsCores t.cpus keys
          × (h.physical_cores_total ≡ length keys)
          × (sum (map (λ s. s.physical_cores) h.sockets) ≡ length keys))
unfolding build_cluster_hints socket_summaries
build_cluster_hints-sockets t source =
    let ps = package_ids t.cpus in
    let shares = package_ids-Shares t.cpus in
    (
      rw (sockets-packages t.cpus ps) shares,
      sum-logical_cpus t.cpus ps
          ∙ sum-occurs (map (λ c. c.package_id) t.cpus) ps shares
          ∙ length-map (λ c. c.package_id) t.cpus,
      (
        core_keys [] t.cpus,
        core_keys-IsCores t.cpus,
        refl,
        sum-physical_cores t.cpus ps
            ∙ sum-occurs (map (λ k. k.0) (core_keys [] t.cpus)) ps
                (core_keys-Shares ps [] t.cpus tt shares)
            ∙ length-map (λ k. k.0) (core_keys [] t.cpus),
      ),
    )
