-- ===== src/Plasma/Coordinator/Safety.antt =====
-- What holds in every state that the coordinator can reach.
use cluster_performance_engi.Dag.Graph.Order.{IsTopological}
use cluster_performance_engi.Base.{
  ℕ, ◌≡◌, ◌≢◌, refl, sym, ap, ◌∙◌, true, false, List, [], ◌∷◌, ◌++◌, Option, none, Result, arith,
  Bool-cases, inl, inr, Option-cases, append-nil, subst, In, All, is_nil, leb, ◌+◌, length, ◌≤◌,
  ◌&&◌,
}
use cluster_performance_engi.Base.Text.{Bytes, eqb_refl}
use cluster_performance_engi.Base.Member.{has, Subset}
use cluster_performance_engi.Dag.Spec.{Node, ids}
use cluster_performance_engi.Plasma.Graph.{pick_runnable}
use cluster_performance_engi.Plasma.Graph.Pick.{pick_runnable-Chooses, pick_runnable-progress}
use cluster_performance_engi.Plasma.Coordinator.{Coordinator, SampleRecord, Kind, handle_frame}
use cluster_performance_engi.Plasma.Coordinator.Handler.{Grows, handle_frame-Grows}
use cluster_performance_engi.Plasma.Coordinator.Loop.{
  Phase, top, waiting, idle, chosen, executing, stopped, failed, cancelled, delete, next_phase,
  select_next, mark_running, drop_running, complete, announce, idle_timeout, System, Step, pick,
  start, succeed, fail, retry, quiet, woken, timeout, cancel_top, cancel_wait, cancel_idle,
  connection, Reach, here, next, initial,
}

-- The started nodes, the latest first: none twice, and each after all its dependencies.
abbrev pub RunOrder : List Node → Type 0
RunOrder [] = Unit
RunOrder (n ∷ l) = Subset n.depends_on (ids l) × (has n.id (ids l) ≡ false) × RunOrder l

-- Nothing runs, and what was started is finished.
pub record IsSettled (c : Coordinator) (l : List Node) : Type 0 where
  pub all_done : c.completed ≡ ids l
  pub idle_cpu : c.running ≡ []

-- `n` was started last, and is not finished; all before it are.
pub record IsLast (n : Node) (c : Coordinator) (l : List Node) : Type 0 where
  pub earlier : List Node
  pub last : l ≡ n ∷ earlier
  pub done_before : c.completed ≡ ids earlier

-- `n` may be started.
pub record IsNext (n : Node) (c : Coordinator) (l : List Node) : Type 0 where
  pub settled : IsSettled c l
  pub is_node : In n c.nodes
  pub new : has n.id (ids l) ≡ false
  pub deps_done : Subset n.depends_on (ids l)

abbrev pub PhaseInv : Phase → Coordinator → List Node → Type 0
PhaseInv (chosen n) c l = IsNext n c l
PhaseInv (executing n) c l = IsLast n c l × (c.running ≡ n.id ∷ [])
PhaseInv failed c l = (n : Node) × IsLast n c l × (c.running ≡ [])
PhaseInv waiting c l = ⊥
PhaseInv p c l = IsSettled c l

pub record Inv (s : System) : Type 0 where
  pub phase_ok : PhaseInv s.phase s.coord s.started
  pub order : RunOrder s.started
  pub from_graph : All (λ n. In n s.coord.nodes) s.started

In-append_left : (n : Node) (l m : List Node) → In n l → In n (l ++ m)
In-append_left n [] m h = elim h [ ]
In-append_left n (k ∷ l) m (inl e) = inl e
In-append_left n (k ∷ l) m (inr h) = inr (In-append_left n l m h)

All-In_append : (l nodes m : List Node) → All (λ n. In n nodes) l → All (λ n. In n (nodes ++ m)) l
All-In_append [] nodes m h = tt
All-In_append (n ∷ l) nodes m h = (In-append_left n nodes m h.0, All-In_append l nodes m h.1)

-- A frame keeps what the phase needs.
IsSettled-Grows : (c c' : Coordinator) (l : List Node) → Grows c c' → IsSettled c l → IsSettled c' l
IsSettled-Grows c c' l g h = record {
  all_done = g.completed ∙ h.all_done;
  idle_cpu = g.running ∙ h.idle_cpu;
}

IsLast-Grows :
    (n : Node) (c c' : Coordinator) (l : List Node) → Grows c c' → IsLast n c l → IsLast n c' l
IsLast-Grows n c c' l g h = record {
  earlier = h.earlier;
  last = h.last;
  done_before = g.completed ∙ h.done_before;
}

PhaseInv-Grows :
    (p : Phase) (c c' : Coordinator) (l : List Node) → Grows c c' → PhaseInv p c l → PhaseInv p c' l
PhaseInv-Grows top c c' l g h = IsSettled-Grows c c' l g h
PhaseInv-Grows waiting c c' l g h = h
PhaseInv-Grows idle c c' l g h = IsSettled-Grows c c' l g h
PhaseInv-Grows (chosen n) c c' l g h = record {
  settled = IsSettled-Grows c c' l g h.settled;
  is_node = rw g.appended (In-append_left n c.nodes g.extra h.is_node);
  new = h.new;
  deps_done = h.deps_done;
}
PhaseInv-Grows (executing n) c c' l g h = (IsLast-Grows n c c' l g h.0, g.running ∙ h.1)
PhaseInv-Grows stopped c c' l g h = IsSettled-Grows c c' l g h
PhaseInv-Grows failed c c' l g (n, h, r) = (n, IsLast-Grows n c c' l g h, g.running ∙ r)
PhaseInv-Grows cancelled c c' l g h = IsSettled-Grows c c' l g h

next_phase-idle : (running : List Bytes) → running ≡ [] → next_phase running none ≡ idle
next_phase-idle running e = rw e

pub announce-Grows : (c : Coordinator) → Grows c (announce c)
unfolding announce
announce-Grows c = record {
  extra = [];
  appended = ground (arith, append-nil c.nodes);
  completed = ground arith;
  running = ground arith;
}

idle_timeout-PhaseInv :
    (idle_exit now : ℕ) (c : Coordinator) (l : List Node)
    → IsSettled c l
    → PhaseInv (idle_timeout idle_exit now c) c l
unfolding idle_timeout
idle_timeout-PhaseInv idle_exit now c l h =
    elim (Bool-cases (leb (c.last_bump + idle_exit) now && is_nil c.running)) [
      | inl e ↦ rw e h
      | inr e ↦ rw e h
    ]

-- The pick: nothing runs, so the loop never waits for a running node.
select_next-PhaseInv :
    (c : Coordinator) (l : List Node) → IsSettled c l → PhaseInv (select_next c) c l
unfolding select_next
select_next-PhaseInv c l h = elim (Option-cases (pick_runnable c.nodes c.completed c.running)) [
  | inl e ↦ rw (e, next_phase-idle c.running h.idle_cpu) h
  | inr (n, e) ↦ rw e (
      let ch = rw e at (pick_runnable-Chooses c.nodes c.completed c.running) in
      record {
        settled = h;
        is_node = ch.is_node;
        new = rw (← h.all_done) ch.ready.not_completed;
        deps_done = rw (← h.all_done) ch.ready.deps_done;
      })
]

mark_running-PhaseInv :
    (n : Node) (c : Coordinator) (l : List Node)
    → IsNext n c l
    → PhaseInv (executing n) (mark_running n c) (n ∷ l)
unfolding mark_running
mark_running-PhaseInv n c l h = (
  record { earlier = l; last = refl; done_before = h.settled.all_done },
  rw h.settled.idle_cpu refl,
)

delete_self : (x : Bytes) → delete x (x ∷ []) ≡ []
unfolding delete
delete_self x = rw (eqb_refl x)

complete-PhaseInv :
    (now : ℕ) (n : Node) (c : Coordinator) (l : List Node)
    → IsLast n c l
    → c.running ≡ n.id ∷ []
    → RunOrder l
    → IsSettled (complete now n c) l
unfolding complete
complete-PhaseInv now n c l h r order =
    let fresh : has n.id c.completed ≡ false = rw h.done_before ((rw h.last at order).1) in
    record {
      all_done = rw fresh (ap (λ t. n.id ∷ t) h.done_before ∙ sym (ap ids h.last));
      idle_cpu = rw r (delete_self n.id);
    }

module _ (Handled : Coordinator → Coordinator → Type 0)
    (grows : (c c' : Coordinator) → Handled c c' → Grows c c') (idle_exit : ℕ) where
  Step-Inv : {s t : System} → Step Handled idle_exit s t → Inv s → Inv t
  Step-Inv (pick c l) v = record {
    phase_ok = select_next-PhaseInv c l v.phase_ok;
    order = v.order;
    from_graph = v.from_graph;
  }
  Step-Inv (start n c l) v = record {
    phase_ok = mark_running-PhaseInv n c l v.phase_ok;
    order = (v.phase_ok.deps_done, v.phase_ok.new, v.order);
    from_graph = unfold mark_running in (v.phase_ok.is_node, v.from_graph);
  }
  Step-Inv (succeed now n c l) v = record {
    phase_ok = complete-PhaseInv now n c l v.phase_ok.0 v.phase_ok.1 v.order;
    order = v.order;
    from_graph = unfold complete in v.from_graph;
  }
  Step-Inv (fail n c l) v = record {
    phase_ok =
        unfold drop_running in
        (
          n,
          record {
            earlier = v.phase_ok.0.earlier;
            last = v.phase_ok.0.last;
            done_before = v.phase_ok.0.done_before;
          },
          rw (v.phase_ok.1) (delete_self n.id),
        );
    order = v.order;
    from_graph = unfold drop_running in v.from_graph;
  }
  Step-Inv (retry c l) v = absurd (v.phase_ok)
  Step-Inv (quiet c l) v = record {
    phase_ok = PhaseInv-Grows idle c (announce c) l (announce-Grows c) v.phase_ok;
    order = v.order;
    from_graph =
        rw ((announce-Grows c).appended)
          (All-In_append l c.nodes ((announce-Grows c).extra) v.from_graph);
  }
  Step-Inv (woken c l w) v = record {
    phase_ok = record { all_done = v.phase_ok.all_done; idle_cpu = v.phase_ok.idle_cpu };
    order = v.order;
    from_graph = v.from_graph;
  }
  Step-Inv (timeout now c l) v = record {
    phase_ok = idle_timeout-PhaseInv idle_exit now c l v.phase_ok;
    order = v.order;
    from_graph = v.from_graph;
  }
  Step-Inv (cancel_top c l) v = record {
    phase_ok = v.phase_ok;
    order = v.order;
    from_graph = v.from_graph;
  }
  Step-Inv (cancel_wait c l) v = absurd (v.phase_ok)
  Step-Inv (cancel_idle c l) v = record {
    phase_ok = v.phase_ok;
    order = v.order;
    from_graph = v.from_graph;
  }
  Step-Inv (connection p c c' l h) v = record {
    phase_ok = PhaseInv-Grows p c c' l (grows c c' h) v.phase_ok;
    order = v.order;
    from_graph =
        rw ((grows c c' h).appended) (All-In_append l c.nodes ((grows c c' h).extra) v.from_graph);
  }

  Reach-Inv : {s t : System} → Inv s → Reach Handled idle_exit s t → Inv t
  Reach-Inv v here = v
  Reach-Inv v (next r st) = Step-Inv st (Reach-Inv v r)

initial-Inv : (now : ℕ) (nodes : List Node) → Inv (initial now nodes)
unfolding initial
initial-Inv now nodes = record {
  phase_ok = record { all_done = refl; idle_cpu = refl };
  order = tt;
  from_graph = tt;
}

serial_of :
    (p : Phase) (c : Coordinator) (l : List Node)
    → PhaseInv p c l
    → (length c.running ≤ 1) × (p ≢ waiting)
serial_of top c l h = (rw h.idle_cpu (omega arith), λ e. cc)
serial_of waiting c l h = absurd h
serial_of idle c l h = (rw h.idle_cpu (omega arith), λ e. cc)
serial_of (chosen n) c l h = (rw h.settled.idle_cpu (omega arith), λ e. cc)
serial_of (executing n) c l h = (rw (h.1) (omega arith), λ e. cc)
serial_of stopped c l h = (rw h.idle_cpu (omega arith), λ e. cc)
serial_of failed c l h = (rw (h.2) (omega arith), λ e. cc)
serial_of cancelled c l h = (rw h.idle_cpu (omega arith), λ e. cc)

idle-pick :
    (c : Coordinator) → select_next c ≡ idle → pick_runnable c.nodes c.completed c.running ≡ none
unfolding select_next
idle-pick c e = ground arith

module _ (probe : Bytes → Option Bytes) (decode_sample : Bytes → Result Bytes SampleRecord)
    (decode_branch : Bytes → Result Bytes (List Node))
    (decode_request_fd : Bytes → Result Bytes Bytes)
    (open_fd : Kind → Result Bytes (Option Bytes)) where
  -- A connection handles any frame at any time, with the map of `TopoOrder` visited in any order.
  pub data Frame : Coordinator → Coordinator → Type 0 where
    handled :
        (now : ℕ) (keys : List Bytes) (c : Coordinator) (body : Bytes)
        → Frame c
            (handle_frame probe decode_sample decode_branch decode_request_fd open_fd now keys c
              body).0

  pub Frame-Grows : (c c' : Coordinator) → Frame c c' → Grows c c'
  Frame-Grows c c' (handled now keys d body) =
      handle_frame-Grows probe decode_sample decode_branch decode_request_fd open_fd now keys d body

  module _ (idle_exit now : ℕ) (nodes : List Node) (s : System)
      (run : Reach Frame idle_exit (initial now nodes) s) where
    pub reached : Inv s
    reached = Reach-Inv Frame Frame-Grows idle_exit (initial-Inv now nodes) run

    -- In every state that the coordinator can reach from its start, however its loop and the
    -- frames of its connections interleave and whatever the frames hold, the nodes that were
    -- started are distinct, each was started after every node that it depends on, and all are
    -- nodes of the graph.
    pub Reach-RunOrder : RunOrder s.started × All (λ n. In n s.coord.nodes) s.started
    Reach-RunOrder = (reached.order, reached.from_graph)

    -- In every state that the coordinator can reach from its start, at most one node runs, and the
    -- loop is never in the phase that waits for a running node.
    pub Reach-serial : (length s.coord.running ≤ 1) × (s.phase ≢ waiting)
    Reach-serial = serial_of s.phase s.coord s.started reached.phase_ok

    -- In every state that the coordinator can reach from its start with the loop at its top: if
    -- the graph has an order of execution and the loop finds nothing to start, every node of the
    -- graph is finished.
    pub Reach-quiescent :
        (out : List Node)
        → s.phase ≡ top
        → IsTopological s.coord.nodes out
        → select_next s.coord ≡ idle
        → (n : Node) → In n s.coord.nodes
        → has n.id s.coord.completed ≡ true
    Reach-quiescent out at_top t e =
        let settled : IsSettled s.coord s.started = rw at_top at reached.phase_ok in
        let idle_pick = idle-pick s.coord e in
        pick_runnable-progress s.coord.nodes out s.coord.completed t (
          subst (λ r. pick_runnable s.coord.nodes s.coord.completed r ≡ none) settled.idle_cpu
            idle_pick)
