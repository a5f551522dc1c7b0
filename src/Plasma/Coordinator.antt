-- ===== src/Plasma/Coordinator.antt =====
-- nexusflow/pkg/plasma/coordinator_linux.go and msgs.go: the coordinator's state, its configuration
-- and the handler of one frame. A handler runs here as one step: what it does under the lock and
-- the two signals that follow. Decoding JSON and opening descriptors are parameters.
pub mod Loop
pub mod Safety
pub mod Refinement
pub mod Session
pub mod Handler
mod Tests
use cluster_performance_engi.Base.{
  ℕ, ◌+◌, Bool, true, false, List, [], ◌∷◌, ◌++◌, Option, none, some, Result, ok, err, ◌>>=◌, ◌>>◌,
  fail_if, is_nil, if◌then◌else◌,
}
use cluster_performance_engi.Base.Int.{ℤ, pos, leb_ℤ}
use cluster_performance_engi.Base.Text.{Bytes, codes, eqb}
use cluster_performance_engi.Base.Member.{has}
use cluster_performance_engi.Dag.Spec.{Node}
use cluster_performance_engi.Plasma.Graph.{AppendError, append_dag}

pub record Config : Type 0 where
  pub socket_path : Bytes
  pub pipeline_path : Bytes
  pub shm_name : Bytes
  pub shm_size : ℤ
  pub idle_exit : ℤ

pub data ConfigError : Type 0 where
  socket_path_required pipeline_file_required topology_required : ConfigError

-- 15 seconds, in nanoseconds.
abbrev pub default_idle_exit : ℤ
default_idle_exit = pos 15_000_000_000

-- The head of `Run`: what it refuses, and the defaults that it fills in.
unfoldable pub checked_config : Config → Bool → Result ConfigError Config
checked_config cfg has_topology = do
  fail_if (is_nil cfg.socket_path) socket_path_required
  fail_if (is_nil cfg.pipeline_path) pipeline_file_required
  fail_if (if has_topology then false else true) topology_required
  ok (record cfg {
    idle_exit = if leb_ℤ cfg.idle_exit (pos 0) then default_idle_exit else cfg.idle_exit;
    shm_size = if leb_ℤ cfg.shm_size (pos 0) then pos 65536 else cfg.shm_size;
    shm_name = if is_nil cfg.shm_name then codes "plasma" else cfg.shm_name;
  })

pub record SampleRecord : Type 0 where
  pub node_id : Bytes
  pub cycles : Option ℕ
  pub instructions : Option ℕ
  pub ts_ns : ℤ

-- `completed` and `running` are sets of ids; `wake` is the channel of capacity 1.
pub record Coordinator : Type 0 where
  pub nodes : List Node
  pub completed : List Bytes
  pub running : List Bytes
  pub samples : List SampleRecord
  pub last_bump : ℕ
  pub wake : Bool
  pub idle_announced : Bool

unfoldable pub bump_activity : ℕ → Coordinator → Coordinator
bump_activity now c = record c { last_bump = now }

-- A send on the channel, dropped if it is full.
unfoldable pub signal_wake : Coordinator → Coordinator
signal_wake c = record c { wake = true }

pub data Kind : Type 0 where
  shm perf_cycles perf_instructions : Kind

-- What is written to the connection at the end of a round; the error of this write is passed over.
pub data Reply : Type 0 where
  silent ack invalid_json unknown_op unknown_kind : Reply
  failed : Bytes → Reply
  refused : AppendError → Reply
  fd_reply : Kind → Reply

pub kind_of : Bytes → Option Kind
kind_of s =
    if eqb s (codes "shm")
    then some shm
    else if eqb s (codes "perf_cycles")
    then some perf_cycles
    else if eqb s (codes "perf_instructions")
    then some perf_instructions
    else none

module _ (probe : Bytes → Option Bytes) (decode_sample : Bytes → Result Bytes SampleRecord)
    (decode_branch : Bytes → Result Bytes (List Node))
    (decode_request_fd : Bytes → Result Bytes Bytes) (open_fd : Kind → Result Bytes (Option Bytes))
    (now : ℕ) (keys : List Bytes) where
  pub add_sample : Coordinator → Result Bytes SampleRecord → Coordinator × Reply
  add_sample c (err e) = (c, failed e)
  add_sample c (ok m) =
      (signal_wake (bump_activity now (record c { samples = c.samples ++ m ∷ [] })), ack)

  pub merged_branch : Coordinator → Result AppendError (List Node) → Coordinator × Reply
  merged_branch c (err e) = (c, refused e)
  merged_branch c (ok merged) =
      (signal_wake (bump_activity now (record c { nodes = merged; idle_announced = false })), ack)

  pub add_branch : Coordinator → Result Bytes (List Node) → Coordinator × Reply
  add_branch c (err e) = (c, failed e)
  add_branch c (ok add) = merged_branch c (append_dag keys c.nodes add)

  -- `handleRequestFD`: the activity is noted once the descriptor is there. The result has the
  -- error of opening it, or that of sending it with its reply, after which the error is sent too.
  pub send_fd : Coordinator → Kind → Result Bytes (Option Bytes) → Coordinator × Reply
  send_fd c kind (err e) = (c, failed e)
  send_fd c kind (ok none) = (bump_activity now c, fd_reply kind)
  send_fd c kind (ok (some e)) = (bump_activity now c, failed e)

  pub request_kind : Coordinator → Option Kind → Coordinator × Reply
  request_kind c none = (c, unknown_kind)
  request_kind c (some kind) = send_fd c kind (open_fd kind)

  pub request_fd : Coordinator → Result Bytes Bytes → Coordinator × Reply
  request_fd c (err e) = (c, failed e)
  request_fd c (ok kind) = request_kind c (kind_of kind)

  pub handle_op : Coordinator → Bytes → Bytes → Coordinator × Reply
  handle_op c body op =
      if eqb op (codes "hello")
      then (c, ack)
      else if eqb op (codes "sample")
      then add_sample c (decode_sample body)
      else if eqb op (codes "branch")
      then add_branch c (decode_branch body)
      else if eqb op (codes "request_fd")
      then request_fd c (decode_request_fd body)
      else (c, unknown_op)

  pub handle_probe : Coordinator → Bytes → Option Bytes → Coordinator × Reply
  handle_probe c body none = (c, invalid_json)
  handle_probe c body (some op) = handle_op c body op

  -- One round of `handleConn`, with the frame that was read.
  unfoldable pub handle_frame : Coordinator → Bytes → Coordinator × Reply
  unfolding handle_probe handle_op add_sample add_branch merged_branch request_fd request_kind
      send_fd kind_of bump_activity signal_wake
  handle_frame c [] = (c, silent)
  handle_frame c (b ∷ body) = handle_probe c (b ∷ body) (probe (b ∷ body))
