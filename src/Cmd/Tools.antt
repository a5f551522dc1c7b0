-- ===== src/Cmd/Tools.antt =====
-- nexusflow/cmd/nexusflow: the commands that call one package each, behind their flags. The result is
-- the standard output or the exit status, without what was printed before a failure; what the
-- packages return are arguments.
use cluster_performance_engi.Base.{
  ℕ, Bool, true, false, [], ◌∷◌, ◌++◌, Option, none, some, Result, ok, err, ◌>>=◌, ◌>>◌, fail_if,
  is_nil, if◌then◌else◌,
}
use cluster_performance_engi.Base.Int.{ℤ, pos}
use cluster_performance_engi.Base.Text.{Bytes, codes, eqb}
use cluster_performance_engi.Base.Decimal.{itoa}
use cluster_performance_engi.Topology.Snapshot.{Topology}
use cluster_performance_engi.Topology.Report.{format_ascii}
use cluster_performance_engi.Dag.Spec.{Pipeline}
use cluster_performance_engi.Perf.{Kind, cycles, instructions}
use cluster_performance_engi.Cmd.Pin.{exit_with}

abbrev pub failed {ℓ} : {E : Type ℓ} → ℕ → Option E → Result ℕ (Unit {0})
failed code none = ok tt
failed code (some e) = err code

abbrev pub output_line : Bytes → Bytes → Bytes
output_line name value = name ++ (b'=' ∷ (value ++ b'\n' ∷ []))

-- `topology`, with or without `--json`.
abbrev pub topology_text :
    {J : Type 0} → Bool → (Topology → Bytes → Result J Bytes) → Topology × Bytes → Result ℕ Bytes
topology_text true marshal (t, source) = do
  text ← exit_with 1 (marshal t source)
  ok (text ++ b'\n' ∷ [])
topology_text false marshal (t, source) = ok (format_ascii t)

unfoldable topology_report :
    {E J : Type 0}
    → Bool
    → (Topology → Bytes → Result J Bytes)
    → Result E (Topology × Bytes)
    → Result ℕ Bytes
unfolding format_ascii
topology_report json marshal found = do t ← exit_with 1 found; topology_text json marshal t

-- `dag run`
unfoldable dag_run_cmd :
    {E F G : Type 0}
    → Bytes
    → (Bytes → Result E Pipeline)
    → Result F Topology
    → (Topology → Pipeline → Option G)
    → Result ℕ (Unit {0})
dag_run_cmd file load_file discovered run = do
  fail_if (is_nil file) 2
  p ← exit_with 1 (load_file file)
  topo ← exit_with 1 discovered
  failed 1 (run topo p)

-- `plasma run`
unfoldable plasma_run_cmd :
    {E F : Type 0} → Bytes → Result E Topology → (Topology → Option F) → Result ℕ (Unit {0})
plasma_run_cmd file discovered run = do
  fail_if (is_nil file) 2
  topo ← exit_with 1 discovered
  failed 1 (run topo)

-- `shm create`, with the path and the size of the segment, and the error of closing it.
unfoldable shm_create_cmd : {E F : Type 0} → Result E (Bytes × ℤ) → Option F → Result ℕ Bytes
shm_create_cmd segment close_error = do
  s ← exit_with 1 segment
  failed 1 close_error
  ok (
      output_line (codes "NEXUSFLOW_SHM_PATH") s.0
      ++ output_line (codes "NEXUSFLOW_SHM_SIZE") (itoa s.1))

abbrev pub kind_of : Bytes → Result ℕ Kind
kind_of name =
    if eqb name (codes "cycles")
    then ok cycles
    else if eqb name (codes "instructions")
    then ok instructions
    else err 2

-- `perf sample`
unfoldable perf_sample_cmd :
    {E : Type 0}
    → Bytes
    → (Kind → Result E ℤ)
    → (reset enable disable : ℤ → Option E) → (ℤ → Result E ℕ)
    → Result ℕ Bytes
perf_sample_cmd name open_counter reset enable disable read = do
  kind ← kind_of name
  fd ← exit_with 1 (open_counter kind)
  failed 1 (reset fd)
  failed 1 (enable fd)
  failed 1 (disable fd)
  v ← exit_with 1 (read fd)
  ok (output_line name (itoa (pos v)))

-- `hugepages set`
unfoldable hugepages_set_cmd : {E : Type 0} → Result E ℤ → Result ℕ Bytes
hugepages_set_cmd set = do v ← exit_with 1 set; ok (output_line (codes "nr_hugepages") (itoa v))
