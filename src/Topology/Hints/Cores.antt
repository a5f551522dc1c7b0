-- ===== src/Topology/Hints/Cores.antt =====
-- The keys of the cores that the hints count: each core of a CPU once, and no others.
use cluster_performance_engi.Base.{
  ℕ, suc, ◌+◌, ◌<◌, ◌≡◌, refl, ◌↔◌, Bool, true, false, ◌&&◌, ◌||◌, List, [], ◌∷◌, ◌++◌, map,
  if◌then◌else◌, arith, Bool-cases, inl, inr, All, All-append, sym,
}
use cluster_performance_engi.Base.Int.{eqb_ℤ, eqb_ℤ_iff}
use cluster_performance_engi.Topology.Snapshot.{Cpu}
use cluster_performance_engi.Topology.Hints.{CoreKey, key_of, seen_key, core_keys}

abbrev pub same_key : CoreKey → CoreKey → Bool
same_key k j = eqb_ℤ k.0 j.0 && eqb_ℤ k.1 j.1

same_key_iff : (k j : CoreKey) → (same_key k j ≡ true) ↔ (k ≡ j)
same_key_iff (a, b) (c, d) = ground (arith, eqb_ℤ_iff a c, eqb_ℤ_iff b d)

-- How often a key stands in a list.
unfoldable pub copies : CoreKey → List CoreKey → ℕ
copies k [] = 0
copies k (j ∷ keys) = let rest = copies k keys in if same_key j k then suc rest else rest

-- The cores of the CPUs, each once.
pub record IsCores (cpus : List Cpu) (keys : List CoreKey) : Type 0 where
  pub each_once : All (λ c. copies (key_of c) keys ≡ 1) cpus
  pub no_other : All (λ k. 0 < copies k (map key_of cpus)) keys

abbrev Once : List CoreKey → Type 0
Once keys = (k : CoreKey) → copies k keys ≡ (if seen_key k keys then 1 else 0)

copies-snoc :
    (k j : CoreKey) (keys : List CoreKey)
    → copies k (keys ++ j ∷ []) ≡ copies k keys + copies k (j ∷ [])
unfolding copies
copies-snoc k j [] = ground arith
copies-snoc k j (i ∷ keys) = ground (arith, copies-snoc k j keys)

seen_key-snoc :
    (k j : CoreKey) (keys : List CoreKey)
    → seen_key k (keys ++ j ∷ []) ≡ (seen_key k keys || same_key k j)
seen_key-snoc k j [] = ground arith
seen_key-snoc k j (i ∷ keys) = ground (arith, seen_key-snoc k j keys)

Once-snoc :
    (j : CoreKey) (keys : List CoreKey)
    → seen_key j keys ≡ false
    → Once keys
    → Once (keys ++ j ∷ [])
unfolding copies
Once-snoc j keys new h k = ground (
  arith,
  copies-snoc k j keys,
  seen_key-snoc k j keys,
  h k,
  same_key_iff k j,
  same_key_iff j k,
  new,
)

Once-core_keys : (keys : List CoreKey) (cpus : List Cpu) → Once keys → Once (core_keys keys cpus)
unfolding core_keys
Once-core_keys keys [] h = h
Once-core_keys keys (c ∷ cpus) h = elim (Bool-cases (seen_key (key_of c) keys)) [
  | inl old ↦ rw old (Once-core_keys keys cpus h)
  | inr new ↦ rw new (Once-core_keys (keys ++ key_of c ∷ []) cpus (Once-snoc (key_of c) keys new h))
]

seen_key-core_keys :
    (k : CoreKey) (keys : List CoreKey) (cpus : List Cpu)
    → seen_key k keys ≡ true
    → seen_key k (core_keys keys cpus) ≡ true
unfolding core_keys
seen_key-core_keys k keys [] h = h
seen_key-core_keys k keys (c ∷ cpus) h =
    seen_key-core_keys k (if seen_key (key_of c) keys then keys else keys ++ key_of c ∷ []) cpus
      (ground (arith, seen_key-snoc k (key_of c) keys, h))

core_keys-copies :
    (all keys : List CoreKey) (cpus : List Cpu)
    → Once all
    → core_keys keys cpus ≡ all
    → All (λ c. copies (key_of c) all ≡ 1) cpus
unfolding core_keys
core_keys-copies all keys [] once e = tt
core_keys-copies all keys (c ∷ cpus) once e =
    let more = if seen_key (key_of c) keys then keys else keys ++ key_of c ∷ [] in
    let first : seen_key (key_of c) more ≡ true =
      ground
        (arith, seen_key-snoc (key_of c) (key_of c) keys, same_key_iff (key_of c) (key_of c)) in
    let seen_all : seen_key (key_of c) all ≡ true =
      rw (sym e) (seen_key-core_keys (key_of c) more cpus first) in
    (ground (arith, once (key_of c), seen_all), core_keys-copies all more cpus once e)

abbrev Among : List CoreKey → List CoreKey → Type 0
Among all keys = All (λ k. 0 < copies k all) keys

Among-snoc :
    (all keys : List CoreKey) (k : CoreKey) (old : Bool)
    → Among all keys
    → 0 < copies k all
    → Among all (if old then keys else keys ++ k ∷ [])
Among-snoc all keys k true h new = h
Among-snoc all keys k false h new = All-append (λ j. 0 < copies j all) keys (k ∷ []) h (new, tt)

core_keys-Among :
    (all keys : List CoreKey) (cpus : List Cpu)
    → Among all keys
    → Among all (map key_of cpus)
    → Among all (core_keys keys cpus)
unfolding core_keys
core_keys-Among all keys [] h hc = h
core_keys-Among all keys (c ∷ cpus) h hc =
    core_keys-Among all (if seen_key (key_of c) keys then keys else keys ++ key_of c ∷ []) cpus
      (Among-snoc all keys (key_of c) (seen_key (key_of c) keys) h hc.0) hc.1

Among-cons : (j : CoreKey) (all keys : List CoreKey) → Among all keys → Among (j ∷ all) keys
unfolding copies
Among-cons j all [] h = tt
Among-cons j all (k ∷ keys) h = (ground (arith, h.0), Among-cons j all keys h.1)

Among-refl : (keys : List CoreKey) → Among keys keys
unfolding copies
Among-refl [] = tt
Among-refl (k ∷ keys) = (ground (arith, same_key_iff k k), Among-cons k keys keys (Among-refl keys))

pub core_keys-IsCores : (cpus : List Cpu) → IsCores cpus (core_keys [] cpus)
core_keys-IsCores cpus = record {
  each_once =
      core_keys-copies (core_keys [] cpus) [] cpus
        (Once-core_keys [] cpus (λ k. unfold copies in refl)) refl;
  no_other = core_keys-Among (map key_of cpus) [] cpus tt (Among-refl (map key_of cpus));
}
