-- ===== src/Plasma/Coordinator/Session.antt =====
-- nexusflow/pkg/plasma/coordinator_linux.go: `handleConn`, the rounds of one connection until its
-- stream ends. The clock, the map orders of `TopoOrder` and what opening and sending a descriptor
-- gives depend on the number of the round.
use cluster_performance_engi.Base.{
  ℕ, zero, suc, ◌<◌, ◌≡◌, ◌≢◌, ap, List, [], ◌∷◌, ◌++◌, Option, none, some, Result, ok, err, length,
  arith, inl, inr, Result-cases, length-append,
}
use cluster_performance_engi.Base.Text.{Bytes}
use cluster_performance_engi.Dag.Spec.{Node}
use cluster_performance_engi.Plasma.Frame.{FrameError, read_frame}
use cluster_performance_engi.Plasma.Frame.Stream.{read_frame_sound}
use cluster_performance_engi.Plasma.Coordinator.{
  Coordinator, SampleRecord, Kind, Reply, handle_frame,
}

module _ (probe : Bytes → Option Bytes) (decode_sample : Bytes → Result Bytes SampleRecord)
    (decode_branch : Bytes → Result Bytes (List Node))
    (decode_request_fd : Bytes → Result Bytes Bytes)
    (open_fd : ℕ → Kind → Result Bytes (Option Bytes)) (now : ℕ → ℕ) (keys : ℕ → List Bytes) where
  abbrev pub round : ℕ → Coordinator → Bytes → Coordinator × Reply
  round k =
      handle_frame probe decode_sample decode_branch decode_request_fd (open_fd k) (now k) (keys k)

  -- What ended the connection is the error of the read, `none` if the fuel ran out.
  unfoldable pub handle_conn :
      ℕ → ℕ → Coordinator → List Reply → Bytes → Coordinator × List Reply × Option FrameError
  handle_conn zero k c replies stream = (c, replies, none)
  handle_conn (suc fuel) k c replies stream = elim (read_frame stream) [
    | err e ↦ (c, replies, some e)
    | ok (body, rest) ↦
        let (c', reply) = round k c body in handle_conn fuel (suc k) c' (replies ++ reply ∷ []) rest
  ]

  -- The frames handled one after another.
  abbrev pub handle_all : ℕ → Coordinator → List Reply → List Bytes → Coordinator × List Reply
  handle_all k c replies [] = (c, replies)
  handle_all k c replies (body ∷ bodies) =
      let (c', reply) = round k c body in handle_all (suc k) c' (replies ++ reply ∷ []) bodies

  -- On any bytes that a connection delivers, given more rounds than bytes, `handleConn` comes to
  -- an end.
  pub handle_conn-has_fuel :
      (fuel k : ℕ) (c : Coordinator) (replies : List Reply) (stream : Bytes)
      → length stream < fuel
      → (handle_conn fuel k c replies stream).2 ≢ none
  unfolding handle_conn
  handle_conn-has_fuel zero k c replies stream enough = absurd (omega (arith, enough))
  handle_conn-has_fuel (suc fuel) k c replies stream enough =
      elim (Result-cases (read_frame stream)) [
        | inr (e, bad) ↦ rw (bad, handle_conn) (λ h. ground (arith, h))
        | inl ((body, rest), good) ↦
            rw (good, handle_conn)
              (handle_conn-has_fuel fuel (suc k) (round k c body).0 _ rest (shorter body rest good))
      ]
    where
      shorter : (body rest : Bytes) → read_frame stream ≡ ok (body, rest) → length rest < fuel
      shorter body rest good =
          let (hdr, split, len, named, small) = read_frame_sound stream body rest good in
          omega (
            arith,
            enough,
            ap length split,
            length-append hdr (body ++ rest),
            length-append body rest,
            len,
          )
