-- ===== src/Plasma/Coordinator/Loop.antt =====
-- The loop of the coordinator, and its interleavings with the connections.
use cluster_performance_engi.Base.{
  ℕ, ◌+◌, ◌≡◌, true, false, not, ◌&&◌, List, [], ◌∷◌, Option, none, some, length, leb, ◌==◌, is_nil,
  if◌then◌else◌,
}
use cluster_performance_engi.Base.Text.{Bytes, eqb}
use cluster_performance_engi.Base.Member.{has}
use cluster_performance_engi.Dag.Spec.{Node}
use cluster_performance_engi.Plasma.Graph.{pick_runnable}
use cluster_performance_engi.Plasma.Coordinator.{Coordinator, bump_activity, signal_wake}

-- Where the loop stands. `chosen` is between the pick and the entry in `running`, for which the
-- lock is taken anew.
pub data Phase : Type 0 where
  top waiting idle : Phase
  chosen executing : Node → Phase
  stopped failed cancelled : Phase

-- `set[id] = struct{}{}` and `delete(set, id)`.
unfoldable pub add : Bytes → List Bytes → List Bytes
add x l = if has x l then l else x ∷ l

unfoldable pub delete : Bytes → List Bytes → List Bytes
delete x [] = []
delete x (y ∷ l) = let rest = delete x l in if eqb x y then rest else y ∷ rest

-- The pick and the count of running nodes, under one lock.
abbrev pub next_phase : List Bytes → Option Node → Phase
next_phase running (some n) = chosen n
next_phase running none = if is_nil running then idle else waiting

unfoldable pub select_next : Coordinator → Phase
select_next c = next_phase c.running (pick_runnable c.nodes c.completed c.running)

unfoldable pub mark_running : Node → Coordinator → Coordinator
unfolding add
mark_running n c = record c { running = add n.id c.running }

-- `execNode` returned an error: the node is only taken out of `running`.
unfoldable pub drop_running : Node → Coordinator → Coordinator
unfolding delete
drop_running n c = record c { running = delete n.id c.running }

-- `execNode` succeeded, and noted the activity.
unfoldable pub complete : ℕ → Node → Coordinator → Coordinator
unfolding add drop_running bump_activity signal_wake
complete now n c = signal_wake (record (bump_activity now (drop_running n c)) {
  completed = add n.id c.completed;
  idle_announced = false;
})

-- "graph quiescent" is logged once.
unfoldable pub announce : Coordinator → Coordinator
announce c =
    if is_nil c.running
      && (not (is_nil c.nodes) && (length c.completed == length c.nodes && not c.idle_announced))
    then record c { idle_announced = true }
    else c

-- The timer of the idle select fired: `shutdown` after `idle_exit` without activity.
unfoldable pub idle_timeout : ℕ → ℕ → Coordinator → Phase
idle_timeout idle_exit now c =
    if leb (c.last_bump + idle_exit) now && is_nil c.running then stopped else top

-- The coordinator, with the nodes that were started, the latest first.
pub record System : Type 0 where
  pub phase : Phase
  pub coord : Coordinator
  pub started : List Node

abbrev pub at : Phase → Coordinator → List Node → System
at p c l = record { phase = p; coord = c; started = l }

-- `Handled c c'`: a connection handled a frame, whatever the frame was.
module _ (Handled : Coordinator → Coordinator → Type 0) (idle_exit : ℕ) where
  pub data Step : System → System → Type 0 where
    pick : (c : Coordinator) (l : List Node) → Step (at top c l) (at (select_next c) c l)
    start :
        (n : Node) (c : Coordinator) (l : List Node)
        → Step (at (chosen n) c l) (at (executing n) (mark_running n c) (n ∷ l))
    succeed :
        (now : ℕ) (n : Node) (c : Coordinator) (l : List Node)
        → Step (at (executing n) c l) (at top (complete now n c) l)
    fail :
        (n : Node) (c : Coordinator) (l : List Node)
        → Step (at (executing n) c l) (at failed (drop_running n c) l)
    retry : (c : Coordinator) (l : List Node) → Step (at waiting c l) (at top c l)
    quiet : (c : Coordinator) (l : List Node) → Step (at idle c l) (at idle (announce c) l)
    woken :
        (c : Coordinator) (l : List Node)
        → c.wake ≡ true
        → Step (at idle c l) (at top (record c { wake = false }) l)
    timeout :
        (now : ℕ) (c : Coordinator) (l : List Node)
        → Step (at idle c l) (at (idle_timeout idle_exit now c) c l)
    cancel_top : (c : Coordinator) (l : List Node) → Step (at top c l) (at cancelled c l)
    cancel_wait : (c : Coordinator) (l : List Node) → Step (at waiting c l) (at cancelled c l)
    cancel_idle : (c : Coordinator) (l : List Node) → Step (at idle c l) (at cancelled c l)
    connection :
        (p : Phase) (c c' : Coordinator) (l : List Node)
        → Handled c c'
        → Step (at p c l) (at p c' l)

  pub data Reach (s : System) : System → Type 0 where
    here : Reach s s
    next : {t u : System} → Reach s t → Step t u → Reach s u

-- `Run` starts the loop on the pipeline's nodes.
unfoldable pub initial : ℕ → List Node → System
initial now nodes =
    at top
      (record {
        nodes = nodes;
        completed = [];
        running = [];
        samples = [];
        last_bump = now;
        wake = false;
        idle_announced = false;
      })
      []
