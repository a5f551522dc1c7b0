-- ===== src/Plasma/Coordinator/Refinement.antt =====
-- The coordinator as an abstract scheduler: a graph, the set of finished ids, and the node that
-- runs. The view forgets the order in which nodes were finished, the phases of the loop and the
-- bookkeeping of the connections.
use cluster_performance_engi.Base.{
  ℕ, ◌≡◌, refl, ap, Bool, true, false, ◌||◌, List, ◌∷◌, ◌++◌, Option, none, some, Result, arith,
  Bool-cases, inl, inr, Option-cases, In, is_nil,
}
use cluster_performance_engi.Base.Text.{Bytes, eqb}
use cluster_performance_engi.Base.Member.{has}
use cluster_performance_engi.Dag.Spec.{Node}
use cluster_performance_engi.Plasma.Graph.{pick_runnable}
use cluster_performance_engi.Plasma.Coordinator.{Coordinator, SampleRecord, Kind}
use cluster_performance_engi.Plasma.Coordinator.Handler.{Grows}
use cluster_performance_engi.Plasma.Coordinator.Loop.{
  Phase, top, waiting, idle, chosen, executing, stopped, failed, cancelled, select_next,
  mark_running, drop_running, complete, announce, idle_timeout, System, Step, pick, start, succeed,
  fail, retry, quiet, woken, timeout, cancel_top, cancel_wait, cancel_idle, connection, Reach,
  initial, at,
}
use cluster_performance_engi.Plasma.Coordinator.Safety.{
  Inv, IsNext, Frame, Frame-Grows, announce-Grows, reached,
}

pub record Scheduler : Type 0 where
  pub graph : List Node
  pub is_done : Bytes → Bool
  pub active : Option Node

-- What a scheduler may do in one step.
pub data Move (a b : Scheduler) : Type 0 where
  rest : b ≡ a → Move a b
  extend : (add : List Node) → b ≡ record a { graph = a.graph ++ add } → Move a b
  begin :
      (n : Node)
      → In n a.graph
      → a.is_done n.id ≡ false
      → ((d : Bytes) → has d n.depends_on ≡ true → a.is_done d ≡ true)
      → a.active ≡ none
      → b ≡ record a { active = some n }
      → Move a b
  finish :
      (n : Node)
      → a.active ≡ some n
      → b ≡ record a { is_done = λ x. eqb x n.id || a.is_done x; active = none }
      → Move a b
  give_up : (n : Node) → a.active ≡ some n → b ≡ record a { active = none } → Move a b

abbrev pub active_in : Phase → Option Node
active_in (executing n) = some n
active_in (chosen n) = none
active_in top = none
active_in waiting = none
active_in idle = none
active_in stopped = none
active_in failed = none
active_in cancelled = none

abbrev pub view : System → Scheduler
view s = record {
  graph = s.coord.nodes;
  is_done = λ x. has x s.coord.completed;
  active = active_in s.phase;
}

active_in-select_next : (c : Coordinator) → active_in (select_next c) ≡ none
unfolding select_next
active_in-select_next c = elim (Option-cases (pick_runnable c.nodes c.completed c.running)) [
  | inl e ↦ elim (Bool-cases (is_nil c.running)) [ inl r ↦ rw (e, r) refl | inr r ↦ rw (e, r) refl ]
  | inr (n, e) ↦ rw e refl
]

active_in-idle_timeout :
    (idle_exit now : ℕ) (c : Coordinator) → active_in (idle_timeout idle_exit now c) ≡ none
unfolding idle_timeout
active_in-idle_timeout idle_exit now c = ground arith

-- The view with another node in it.
abbrev running : Scheduler → Option Node → Scheduler
running a n = record a { active = n }

view-Grows :
    (p : Phase) (c c' : Coordinator) (l : List Node) (g : Grows c c')
    → view (at p c' l) ≡ record (view (at p c l)) { graph = c.nodes ++ g.extra }
view-Grows p c c' l g = rw (g.appended, g.completed) refl

begin_next :
    (n : Node) (c : Coordinator) (l : List Node)
    → IsNext n c l
    → Move (view (at (chosen n) c l)) (view (at (executing n) (mark_running n c) (n ∷ l)))
unfolding mark_running
begin_next n c l h =
    begin n h.is_node (rw (h.settled.all_done) (h.new))
      (λ d k. rw (h.settled.all_done) (h.deps_done d k)) refl refl

finish_last :
    (now : ℕ) (n : Node) (c : Coordinator) (l : List Node)
    → has n.id c.completed ≡ false
    → Move (view (at (executing n) c l)) (view (at top (complete now n c) l))
unfolding complete
finish_last now n c l fresh = finish n refl (rw fresh refl)

module _ (Handled : Coordinator → Coordinator → Type 0)
    (grows : (c c' : Coordinator) → Handled c c' → Grows c c') (idle_exit : ℕ) where
  Step-Move : {s t : System} → Step Handled idle_exit s t → Inv s → Move (view s) (view t)
  Step-Move (pick c l) v = rest (ap (running (view (at top c l))) (active_in-select_next c))
  Step-Move (start n c l) v = begin_next n c l v.phase_ok
  Step-Move (succeed now n c l) v =
      finish_last now n c l (rw (v.phase_ok.0.done_before) ((rw (v.phase_ok.0.last) at v.order).1))
  Step-Move (fail n c l) v = give_up n refl (unfold drop_running in refl)
  Step-Move (retry c l) v = rest refl
  Step-Move (quiet c l) v =
      extend ((announce-Grows c).extra) (view-Grows idle c (announce c) l (announce-Grows c))
  Step-Move (woken c l w) v = rest refl
  Step-Move (timeout now c l) v =
      rest (ap (running (view (at idle c l))) (active_in-idle_timeout idle_exit now c))
  Step-Move (cancel_top c l) v = rest refl
  Step-Move (cancel_wait c l) v = rest refl
  Step-Move (cancel_idle c l) v = rest refl
  Step-Move (connection p c c' l h) v =
      extend ((grows c c' h).extra) (view-Grows p c c' l (grows c c' h))

module _ (probe : Bytes → Option Bytes) (decode_sample : Bytes → Result Bytes SampleRecord)
    (decode_branch : Bytes → Result Bytes (List Node))
    (decode_request_fd : Bytes → Result Bytes Bytes)
    (open_fd : Kind → Result Bytes (Option Bytes)) where
  abbrev Handled : Coordinator → Coordinator → Type 0
  Handled = Frame probe decode_sample decode_branch decode_request_fd open_fd

  -- The coordinator refines an abstract scheduler of a graph, the finished nodes and at most one
  -- active node: in every state that it can reach from its start, each step of its loop or of a
  -- connection is a move of the scheduler or changes nothing that the scheduler sees. A move only
  -- starts an idle scheduler on a node whose dependencies are finished, finishes or drops the
  -- active node, or adds nodes at the end of the graph.
  pub Reach-Move :
      (idle_exit now : ℕ) (nodes : List Node) (s t : System)
      → Reach Handled idle_exit (initial now nodes) s
      → Step Handled idle_exit s t
      → Move (view s) (view t)
  Reach-Move idle_exit now nodes s t run st =
      Step-Move Handled (Frame-Grows probe decode_sample decode_branch decode_request_fd open_fd)
        idle_exit st
        (reached probe decode_sample decode_branch decode_request_fd open_fd idle_exit now nodes s
          run)
