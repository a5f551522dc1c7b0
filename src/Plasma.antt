-- ===== src/Plasma.antt =====
-- nexusflow/pkg/plasma: the graph that grows while it runs (graph.go), the frames on the socket
-- (frame.go, wire_linux.go) and the coordinator (coordinator_linux.go, msgs.go).
pub mod Graph
pub mod Frame
pub mod Wire
pub mod Coordinator
pub mod Run
