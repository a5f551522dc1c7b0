-- ===== src/Cmd/Source.antt =====
-- nexusflow/cmd/nexusflow/subcommands.go and topology_hints.go: where a snapshot comes from, and the
-- hints that are printed.
pub mod Found
use cluster_performance_engi.Base.{
  ℕ, List, Option, some, Result, ok, err, if◌then◌else◌, ◌++◌, ◌∷◌, [],
}
use cluster_performance_engi.Base.Text.{Bytes, codes, eqb}
use cluster_performance_engi.Topology.Snapshot.{Topology}
use cluster_performance_engi.Topology.Hints.{ClusterHints, build_cluster_hints}
use cluster_performance_engi.Topology.Hints.Shell.{
  write_hints_shell, write_hints_openmpi, write_hints_slurm, format_hints_matrix,
}

pub data SourceError (S H : Type 0) : Type 0 where
  sysfs_failed : S → SourceError S H
  hwloc_failed : H → SourceError S H
  both_failed : S → H → SourceError S H

abbrev pub printed_json : {J : Type 0} → Result J Bytes → Result ℕ Bytes
printed_json (err e) = err 1
printed_json (ok text) = ok (text ++ b'\n' ∷ [])

abbrev pub printed :
    {J : Type 0} → (ClusterHints → Result J Bytes) → Bytes → ClusterHints → Result ℕ Bytes
printed format_json format h =
    if eqb format (codes "shell")
    then ok (write_hints_shell (some h))
    else if eqb format (codes "json")
    then printed_json (format_json h)
    else if eqb format (codes "openmpi")
    then ok (write_hints_openmpi (some h))
    else if eqb format (codes "slurm")
    then ok (write_hints_slurm (some h))
    else err 2

module _ {S H : Type 0} where
  abbrev pub from_hwloc : Bytes → Result H Topology → Result (SourceError S H) (Topology × Bytes)
  from_hwloc tag (err e) = err (hwloc_failed e)
  from_hwloc tag (ok t) = ok (t, tag)

  abbrev pub from_sysfs : Result S Topology → Result (SourceError S H) (Topology × Bytes)
  from_sysfs (err e) = err (sysfs_failed e)
  from_sysfs (ok t) = ok (t, codes "sysfs")

  abbrev pub from_either :
      Result S Topology → Result H Topology → Result (SourceError S H) (Topology × Bytes)
  from_either (ok t) hwloc = ok (t, codes "sysfs")
  from_either (err e) (ok t) = ok (t, codes "hwloc-xml(fallback)")
  from_either (err e) (err f) = err (both_failed e f)

  -- `sysfs` and `hwloc` are what `Discover` and `DiscoverCLI` return.
  unfoldable pub discover_topology :
      Bytes → Result S Topology → Result H Topology → Result (SourceError S H) (Topology × Bytes)
  discover_topology mode sysfs hwloc =
      if eqb mode (codes "hwloc")
      then from_hwloc (codes "hwloc-xml") hwloc
      else if eqb mode (codes "sysfs")
      then from_sysfs sysfs
      else from_either sysfs hwloc

  -- The text on the standard output, or the exit status. A write to it is taken to succeed.
  unfoldable pub topology_hints_cmd :
      {J : Type 0}
      → (ClusterHints → Result J Bytes)
      → Bytes
      → Result (SourceError S H) (Topology × Bytes)
      → Result ℕ Bytes
  unfolding build_cluster_hints write_hints_shell write_hints_openmpi write_hints_slurm
  topology_hints_cmd format_json format (err e) = err 1
  topology_hints_cmd format_json format (ok (t, source)) =
      printed format_json format (build_cluster_hints (some t) source)

  unfoldable pub topology_matrix_cmd : Result (SourceError S H) (Topology × Bytes) → Result ℕ Bytes
  unfolding build_cluster_hints format_hints_matrix
  topology_matrix_cmd (err e) = err 1
  topology_matrix_cmd (ok (t, source)) =
      ok (format_hints_matrix (some (build_cluster_hints (some t) source)))
