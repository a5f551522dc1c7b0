-- ===== src/Cmd/Source/Found.antt =====
-- Every source of a snapshot links its CPUs and its memory nodes.
use cluster_performance_engi.Base.{
  ℕ, ◌≡◌, refl, subst, List, In, ◌↔◌, Result, ok, err, Bool-cases, inl, inr,
}
use cluster_performance_engi.Base.Int.{ℤ}
use cluster_performance_engi.Base.Files.{Entry}
use cluster_performance_engi.Base.Text.{Bytes, codes, eqb}
use cluster_performance_engi.Topology.Snapshot.{Topology}
use cluster_performance_engi.Topology.Located.{IsLocated}
use cluster_performance_engi.Topology.Discover.{discover}
use cluster_performance_engi.Topology.Discover.Located.{discover-IsLocated}
use cluster_performance_engi.Topology.Hwloc.{XmlObjs, discover_cli}
use cluster_performance_engi.Topology.Hwloc.Members.{discover_cli-IsConsistent}
use cluster_performance_engi.Cmd.Source.{from_hwloc, from_sysfs, from_either, discover_topology}

abbrev Good : {E : Type 0} → Result E Topology → Type 0
Good r = (u : Topology) → r ≡ ok u → IsLocated u

module _ {S H : Type 0} (t : Topology) (tag : Bytes) where
  from_hwloc-IsLocated :
      (used : Bytes) (r : Result H Topology)
      → Good r
      → from_hwloc {S = S} used r ≡ ok (t, tag)
      → IsLocated t
  from_hwloc-IsLocated used (err e) good h = cc
  from_hwloc-IsLocated used (ok u) good h =
      let same : u ≡ t = cc in subst IsLocated same (good u refl)

  from_sysfs-IsLocated :
      (r : Result S Topology) → Good r → from_sysfs {H = H} r ≡ ok (t, tag) → IsLocated t
  from_sysfs-IsLocated (err e) good h = cc
  from_sysfs-IsLocated (ok u) good h = let same : u ≡ t = cc in subst IsLocated same (good u refl)

  from_either-IsLocated :
      (r : Result S Topology) (q : Result H Topology)
      → Good r
      → Good q
      → from_either r q ≡ ok (t, tag)
      → IsLocated t
  from_either-IsLocated (ok u) q good_r good_q h =
      let same : u ≡ t = cc in subst IsLocated same (good_r u refl)
  from_either-IsLocated (err e) (ok u) good_r good_q h =
      let same : u ≡ t = cc in subst IsLocated same (good_q u refl)
  from_either-IsLocated (err e) (err f) good_r good_q h = cc

  found :
      (mode : Bytes) (r : Result S Topology) (q : Result H Topology)
      → Good r
      → Good q
      → discover_topology mode r q ≡ ok (t, tag)
      → IsLocated t
  unfolding discover_topology
  found mode r q good_r good_q h = elim (Bool-cases (eqb mode (codes "hwloc"))) [
    | inl a ↦ from_hwloc-IsLocated (codes "hwloc-xml") q good_q (rw a at h)
    | inr a ↦ elim (Bool-cases (eqb mode (codes "sysfs"))) [
      | inl b ↦ from_sysfs-IsLocated r good_r (rw b at (rw a at h))
      | inr b ↦ from_either-IsLocated r q good_r good_q (rw b at (rw a at h))
    ]
  ]

module _ {D X : Type 0} (fuel : ℕ) (read_file : Bytes → Result D Bytes)
    (strip_xmlns : Bytes → Bytes) (unmarshal : Bytes → Result X XmlObjs)
    (order : List (ℤ × List ℤ) → List (ℤ × List ℤ))
    (same : (m : List (ℤ × List ℤ)) (e : ℤ × List ℤ) → In e (order m) ↔ In e m) where
  -- For each mode of `discoverTopology`, whatever sysfs and the exporters of hwloc return, and in
  -- whatever order the maps are gone through, each entry once: if there is a snapshot, the node of
  -- each CPU is negative or a node of the snapshot that lists the CPU.
  pub discover_topology-IsLocated :
      (mode : Bytes) (entries : Result D (List Entry)) (output : List Bytes → Result X Bytes)
      (t : Topology) (tag : Bytes)
      → discover_topology mode
          (discover fuel read_file order entries)
          (discover_cli strip_xmlns unmarshal order output)
        ≡ ok (t, tag)
      → IsLocated t
  discover_topology-IsLocated mode entries output t tag h =
      found t tag mode (discover fuel read_file order entries)
        (discover_cli strip_xmlns unmarshal order output)
        (λ u e. discover-IsLocated fuel read_file order (λ m d k. (same m d).0 k) entries u e)
        (λ u e. (discover_cli-IsConsistent order same strip_xmlns unmarshal output u e).1) h
