-- ===== src/Cmd.antt =====
-- nexusflow/cmd/nexusflow/main.go: which part of the program a command line starts. Whether the
-- program's own name is kubermetrics is an argument.
pub mod Source
pub mod Pin
pub mod Settings
pub mod Tools
pub mod Exec
mod Tests
use cluster_performance_engi.Base.{
  ℕ, Bool, true, false, ◌||◌, List, [], ◌∷◌, if◌then◌else◌, any, length, leb,
}
use cluster_performance_engi.Base.Text.{Bytes, codes, eqb}
use cluster_performance_engi.Cells.{has_prefix}

pub data Started : Type 0 where
  kubermetrics topology topology_hints topology_matrix run dag_run shm_create : List Bytes → Started
  perf_sample dashboard daemon hugepages_set : List Bytes → Started
  supervisor usage version : Started
  exit : ℕ → Started

abbrev pub is_flag : Bytes → Bool
is_flag a = any (eqb a) (
    codes "-dry-run"
    ∷ codes "--dry-run"
    ∷ codes "-print-id"
    ∷ codes "--print-id"
    ∷ codes "-cpu-id"
    ∷ codes "--cpu-id"
    ∷ [])

unfoldable pub looks_like_kubermetrics_argv : List Bytes → Bool
looks_like_kubermetrics_argv [] = false
looks_like_kubermetrics_argv (a ∷ args) =
    if eqb a (codes "-h") || eqb a (codes "--help")
    then false
    else if has_prefix (codes "-") a
    then has_prefix (codes "-cpu-id") a || has_prefix (codes "-kubeconfig") a || is_flag a
    else false

unfoldable pub topology_cmd : List Bytes → Started
topology_cmd [] = topology []
topology_cmd (a ∷ args) =
    if eqb a (codes "hints")
    then topology_hints args
    else if eqb a (codes "matrix")
    then topology_matrix args
    else topology (a ∷ args)

-- A command whose second word is fixed, with at least one word behind it.
abbrev pub with_word : Bytes → (List Bytes → Started) → List Bytes → Started
with_word word start [] = exit 2
with_word word start (a ∷ []) = exit 2
with_word word start (a ∷ b ∷ args) = if eqb a word then start (b ∷ args) else exit 2

-- The `switch` on the first argument.
unfoldable pub subcommand : Bytes → List Bytes → Started
unfolding topology_cmd
subcommand name args =
    if eqb name (codes "topology") || eqb name (codes "topo")
    then topology_cmd args
    else if eqb name (codes "run")
    then run args
    else if eqb name (codes "dag")
    then with_word (codes "run") dag_run args
    else if eqb name (codes "shm")
    then with_word (codes "create") shm_create args
    else if eqb name (codes "perf")
    then with_word (codes "sample") perf_sample args
    else if eqb name (codes "dashboard")
    then dashboard args
    else if eqb name (codes "daemon")
    then daemon args
    else if eqb name (codes "hugepages")
    then with_word (codes "set") hugepages_set args
    else if eqb name (codes "-h") || eqb name (codes "--help") || eqb name (codes "help")
    then usage
    else if eqb name (codes "version")
    then version
    else exit 2

unfoldable pub main : Bool → List Bytes → Started
unfolding looks_like_kubermetrics_argv subcommand
main named_kubermetrics [] = if named_kubermetrics then kubermetrics [] else supervisor
main named_kubermetrics (a ∷ args) =
    if named_kubermetrics || looks_like_kubermetrics_argv (a ∷ args)
    then kubermetrics (a ∷ args)
    else subcommand a args
