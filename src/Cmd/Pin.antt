-- ===== src/Cmd/Pin.antt =====
-- nexusflow/cmd/nexusflow/main.go: `runCmd`, up to its call of `affinity.Run`. The `flag` package and
-- `exec.LookPath` are parameters, and a failure is the exit status.
pub mod Launch
use cluster_performance_engi.Base.{
  ℕ, Bool, true, false, ◌||◌, List, [], ◌∷◌, ◌++◌, Option, none, some, Result, ok, err, ◌>>=◌,
  is_nil, if◌then◌else◌,
}
use cluster_performance_engi.Base.Int.{ℤ, pos, negsuc, leb_ℤ}
use cluster_performance_engi.Base.Text.{Bytes, codes, eqb, trim_space}
use cluster_performance_engi.Base.Decimal.{itoa}
use cluster_performance_engi.Hugepages.{to_lower}
use cluster_performance_engi.Topology.Snapshot.{Topology}
use cluster_performance_engi.Topology.Placement.{select_cpus, PlacementError, primary_numa_node}

pub record RunFlags : Type 0 where
  pub cpus : ℤ
  pub numa : ℤ
  pub strategy : Bytes
  pub priority : Bytes
  pub membind : Bool

-- The arguments of `affinity.Run`.
pub record Pin : Type 0 where
  pub cpus : List ℤ
  pub argv : List Bytes
  pub nice : Option ℤ

abbrev pub separator : Bytes
separator = codes "--"

abbrev pub flag_before : Bytes → Option (List Bytes × List Bytes) → Option (List Bytes × List Bytes)
flag_before a none = none
flag_before a (some (flags, cmd)) = some (a ∷ flags, cmd)

-- The arguments before and behind the first separator.
unfoldable pub split_args : List Bytes → Option (List Bytes × List Bytes)
split_args [] = none
split_args (a ∷ args) =
    let rest = split_args args in if eqb a separator then some ([], args) else flag_before a rest

abbrev pub parts_of : Option (List Bytes × List Bytes) → Result ℕ (List Bytes × List Bytes)
parts_of none = err 2
parts_of (some (flags, cmd)) = if is_nil cmd then err 2 else ok (flags, cmd)

abbrev pub exit_with {ℓ} : {E : Type 0} {A : Type ℓ} → ℕ → Result E A → Result ℕ A
exit_with code (err e) = err code
exit_with code (ok a) = ok a

abbrev pub prefer : ℤ → Option ℤ
prefer numa = if leb_ℤ (pos 0) numa then some numa else none

unfoldable pub nice_of : Bytes → Result ℕ (Option ℤ)
nice_of priority =
    let label = to_lower (trim_space priority) in
    if eqb label (codes "normal") || eqb label []
    then ok none
    else if eqb label (codes "high")
    then ok (some (negsuc 9))
    else if eqb label (codes "low")
    then ok (some (pos 10))
    else err 2

abbrev pub bound_to : Bytes → ℤ → List Bytes → List Bytes
bound_to numactl node cmd =
    numactl
    ∷ (codes "--cpunodebind=" ++ itoa node)
    ∷ (codes "--membind=" ++ itoa node)
    ∷ separator
    ∷ cmd

abbrev pub bind : Option ℤ → Option Bytes → List Bytes → List Bytes
bind none numactl cmd = cmd
bind (some node) none cmd = cmd
bind (some node) (some numactl) cmd = bound_to numactl node cmd

abbrev pub argv_of : Bool → Option ℤ → Option Bytes → List Bytes → List Bytes
argv_of membind node numactl cmd = if membind then bind node numactl cmd else cmd

module _ {E F : Type 0} (parse : List Bytes → Result F RunFlags) (discovered : Result E Topology)
    (numactl : Option Bytes) where
  unfoldable pub run_cmd : List Bytes → Result ℕ Pin
  unfolding split_args nice_of
  run_cmd args = do
    parts ← parts_of (split_args args)
    flags ← exit_with 2 (parse parts.0)
    t ← exit_with 1 discovered
    cpus ← exit_with 1 (select_cpus t flags.cpus (prefer flags.numa) flags.strategy)
    nice ← nice_of flags.priority
    ok (record {
      cpus = cpus;
      argv = argv_of flags.membind (primary_numa_node (some t) cpus) numactl parts.1;
      nice = nice;
    })
