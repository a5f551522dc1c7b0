-- ===== src/Dag.antt =====
-- nexusflow/pkg/dag: the pipeline's data and its checks (spec.go), the order of execution
-- (graph.go), the runner (run.go) and the metrics text (prom.go).
pub mod Spec
pub mod Graph
pub mod Prom
pub mod Run
pub mod Load
