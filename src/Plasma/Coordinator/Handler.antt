-- ===== src/Plasma/Coordinator/Handler.antt =====
-- What a frame can do to the coordinator.
use cluster_performance_engi.Base.{
  ℕ, ◌≡◌, refl, sym, ◌∙◌, List, [], ◌∷◌, ◌++◌, Option, none, some, Result, ok, err, arith,
  Bool-cases, inl, inr, Result-cases, append-nil, ◌⊎◌, ap, append_assoc,
}
use cluster_performance_engi.Base.Text.{Bytes, codes, eqb}
use cluster_performance_engi.Dag.Spec.{Node}
use cluster_performance_engi.Dag.Graph.Start.{IsIteration}
use cluster_performance_engi.Dag.Graph.Order.{IsAcyclic}
use cluster_performance_engi.Plasma.Graph.{append_dag}
use cluster_performance_engi.Plasma.Graph.Append.{append_dag-nodes, append_dag_iff}
use cluster_performance_engi.Plasma.Coordinator.{
  SampleRecord, Coordinator, Kind, Reply, bump_activity, signal_wake, add_sample, merged_branch,
  add_branch, send_fd, request_kind, request_fd, handle_op, handle_probe, handle_frame,
}

-- `c'` comes from `c` by appending nodes; what ran and what runs is as it was.
pub record Grows (c c' : Coordinator) : Type 0 where
  pub extra : List Node
  pub appended : c'.nodes ≡ c.nodes ++ extra
  pub completed : c'.completed ≡ c.completed
  pub running : c'.running ≡ c.running

pub Grows-refl : (c : Coordinator) → Grows c c
Grows-refl c = record {
  extra = [];
  appended = sym (append-nil c.nodes);
  completed = refl;
  running = refl;
}

pub Grows-trans : {a b c : Coordinator} → Grows a b → Grows b c → Grows a c
Grows-trans {a} {b} {c} h k = record {
  extra = h.extra ++ k.extra;
  appended = k.appended ∙ ap (λ l. l ++ k.extra) h.appended ∙ append_assoc a.nodes h.extra k.extra;
  completed = k.completed ∙ h.completed;
  running = k.running ∙ h.running;
}

module _ (probe : Bytes → Option Bytes) (decode_sample : Bytes → Result Bytes SampleRecord)
    (decode_branch : Bytes → Result Bytes (List Node))
    (decode_request_fd : Bytes → Result Bytes Bytes) (open_fd : Kind → Result Bytes (Option Bytes))
    (now : ℕ) (keys : List Bytes) where
  abbrev handle : Coordinator → Bytes → Coordinator × Reply
  handle = handle_frame probe decode_sample decode_branch decode_request_fd open_fd now keys

  -- The ways in which a frame changes the state: a branch is merged, or the nodes stay.
  Effect : Coordinator → Bytes → Coordinator → Type 0
  Effect c body c' =
      ((add : List Node) × (decode_branch body ≡ ok add)
        × (append_dag keys c.nodes add ≡ ok c'.nodes)
        × (c'.completed ≡ c.completed)
        × (c'.running ≡ c.running))
      ⊎ ((c'.nodes ≡ c.nodes) × (c'.completed ≡ c.completed) × (c'.running ≡ c.running))

  sample-Effect :
      (c : Coordinator) (body : Bytes) (r : Result Bytes SampleRecord)
      → Effect c body
          (add_sample probe decode_sample decode_branch decode_request_fd open_fd now keys c r).0
  unfolding Effect add_sample bump_activity signal_wake
  sample-Effect c body (err e) = inr (refl, refl, refl)
  sample-Effect c body (ok m) = inr (refl, refl, refl)

  branch-Effect :
      (c : Coordinator) (body : Bytes) (r : Result Bytes (List Node))
      → decode_branch body ≡ r
      → Effect c body
          (add_branch probe decode_sample decode_branch decode_request_fd open_fd now keys c r).0
  unfolding Effect add_branch merged_branch bump_activity signal_wake
  branch-Effect c body (err e) d = inr (refl, refl, refl)
  branch-Effect c body (ok add) d = elim (Result-cases (append_dag keys c.nodes add)) [
    | inl (merged, e) ↦ rw e (inl (add, d, e, refl, refl))
    | inr (f, e) ↦ rw e (inr (refl, refl, refl))
  ]

  fd-Effect :
      (c : Coordinator) (body : Bytes) (r : Result Bytes Bytes)
      → Effect c body
          (request_fd probe decode_sample decode_branch decode_request_fd open_fd now keys c r).0
  unfolding Effect request_fd request_kind send_fd bump_activity
  fd-Effect c body (err e) = inr (refl, refl, refl)
  fd-Effect c body (ok s) = inr (ground arith)

  op-Effect :
      (c : Coordinator) (body op : Bytes)
      → Effect c body
          (handle_op probe decode_sample decode_branch decode_request_fd open_fd now keys c body
            op).0
  unfolding handle_op Effect
  op-Effect c body op = elim (Bool-cases (eqb op (codes "hello"))) [
    | inl e ↦ rw e (inr (refl, refl, refl))
    | inr e ↦ rw e (elim (Bool-cases (eqb op (codes "sample"))) [
      | inl e' ↦ rw e' (sample-Effect c body (decode_sample body))
      | inr e' ↦ rw e' (elim (Bool-cases (eqb op (codes "branch"))) [
        | inl e'' ↦ rw e'' (branch-Effect c body (decode_branch body) refl)
        | inr e'' ↦ rw e'' (elim (Bool-cases (eqb op (codes "request_fd"))) [
          | inl e3 ↦ rw e3 (fd-Effect c body (decode_request_fd body))
          | inr e3 ↦ rw e3 (inr (refl, refl, refl))
        ])
      ])
    ])
  ]

  probe-Effect :
      (c : Coordinator) (body : Bytes) (r : Option Bytes)
      → Effect c body
          (handle_probe probe decode_sample decode_branch decode_request_fd open_fd now keys c body
            r).0
  unfolding handle_probe Effect
  probe-Effect c body none = inr (refl, refl, refl)
  probe-Effect c body (some op) = op-Effect c body op

  frame-Effect : (c : Coordinator) (body : Bytes) → Effect c body (handle c body).0
  unfolding handle_frame Effect
  frame-Effect c [] = inr (refl, refl, refl)
  frame-Effect c (b ∷ body) = probe-Effect c (b ∷ body) (probe (b ∷ body))

  -- Handling one frame appends nodes to the graph at most: it keeps the nodes that are there, and
  -- the sets of finished and of running nodes.
  pub handle_frame-Grows : (c : Coordinator) (body : Bytes) → Grows c (handle c body).0
  unfolding Effect
  handle_frame-Grows c body = elim (frame-Effect c body) [
    | inl (add, d, e, done, run) ↦ record {
      extra = add;
      appended = append_dag-nodes keys c.nodes add _ e;
      completed = done;
      running = run;
    }
    | inr (n, done, run) ↦ record {
      extra = [];
      appended = n ∙ sym (append-nil c.nodes);
      completed = done;
      running = run;
    }
  ]

  -- Handling one frame keeps the graph acyclic, with distinct ids and no dangling dependency,
  -- whatever the frame holds, for keys that visit the ids of the graph with the branch that the
  -- frame decodes to, each once.
  pub handle_frame-IsAcyclic :
      (c : Coordinator) (body : Bytes) (rank : Bytes → ℕ)
      → ((add : List Node) → decode_branch body ≡ ok add → IsIteration keys (c.nodes ++ add))
      → IsAcyclic rank c.nodes
      → (rank' : Bytes → ℕ) × IsAcyclic rank' (handle c body).0.nodes
  unfolding Effect
  handle_frame-IsAcyclic c body rank it h = elim (frame-Effect c body) [
    | inl (add, d, e, done, run) ↦
        let (joined, why) = (append_dag_iff keys c.nodes add _ (it add d)).0 e in
        rw joined (elim why [
          | inl nothing ↦ (rank, rw (nothing, append-nil) h)
          | inr g ↦ (g.rank, g.acyclic)
        ])
    | inr (n, done, run) ↦ (rank, rw n h)
  ]
