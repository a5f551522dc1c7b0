-- ===== src/Dag/Prom/Text.antt =====
-- nexusflow/pkg/dag/prom.go: the metrics of a run as text. `seconds` is the duration in seconds,
-- printed with `%g`.
use cluster_performance_engi.Base.{
  List, [], ◌∷◌, ◌++◌, ℕ, Option, none, some, is_nil, if◌then◌else◌,
}
use cluster_performance_engi.Base.Text.{Bytes, codes}
use cluster_performance_engi.Base.Decimal.{itoa}
use cluster_performance_engi.Dag.Prom.{prom_esc_label, newline}
use cluster_performance_engi.Dag.Run.{StepTiming}

abbrev prom_head : Bytes
prom_head =
    codes "# HELP nexusflow_dag_step_duration_seconds Wall-clock duration of one DAG node.\n"
    ++ codes "# TYPE nexusflow_dag_step_duration_seconds gauge\n"
    ++ codes
        "# HELP nexusflow_dag_step_exit_code Exit code of DAG node subprocess (-1 if launch failed).\n"
    ++ codes "# TYPE nexusflow_dag_step_exit_code gauge\n"

-- One gauge: its labels are escaped.
abbrev gauge : Bytes → Bytes → Bytes → Bytes → Bytes → Bytes
gauge name pl id value rest =
    name
    ++ codes "{pipeline=\""
    ++ pl
    ++ codes "\",step=\""
    ++ id
    ++ codes "\"} "
    ++ value
    ++ (newline ∷ rest)

module _ (seconds : ℕ → Bytes) where
  unfoldable prom_steps : Bytes → List StepTiming → Bytes
  unfolding prom_esc_label
  prom_steps pl [] = []
  prom_steps pl (st ∷ steps) =
      let id = prom_esc_label st.id in
      gauge (codes "nexusflow_dag_step_duration_seconds") pl id (seconds st.duration) (
        gauge (codes "nexusflow_dag_step_exit_code") pl id (itoa st.exit_code)
          (prom_steps pl steps))

  unfoldable write_prometheus_text : Bytes → List StepTiming → Bytes
  unfolding prom_steps
  write_prometheus_text pipeline steps = prom_head ++ prom_steps (prom_esc_label pipeline) steps

  -- The file that is written, if there is one.
  unfoldable write_prometheus_text_file : Bytes → Bytes → List StepTiming → Option (Bytes × Bytes)
  unfolding write_prometheus_text
  write_prometheus_text_file path pipeline steps =
      if is_nil path then none else some (path, write_prometheus_text pipeline steps)
