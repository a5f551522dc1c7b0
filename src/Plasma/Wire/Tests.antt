-- ===== src/Plasma/Wire/Tests.antt =====
-- The theorems about descriptors at one message.
use cluster_performance_engi.Base.{ℕ, ◌≡◌, refl, [], ◌∷◌, Option, none, ok, Result, arith, In, inl}
use cluster_performance_engi.Base.Int.{pos}
use cluster_performance_engi.Base.Text.{Bytes, codes}
use cluster_performance_engi.Plasma.Frame.{put_u32}
use cluster_performance_engi.Plasma.Wire.{send, close, write_frame_with_fd, read_frame_with_fds}
use cluster_performance_engi.Plasma.Wire.Laws.{
  write_frame_with_fd-closes, read_frame_with_fds-write,
}

abbrev no_error : Option (Unit {0})
no_error = none

write_frame_with_fd-closes_example :
    In (close (pos 7)) (write_frame_with_fd (ok (codes "{}")) no_error (pos 7)).0
write_frame_with_fd-closes_example =
    write_frame_with_fd-closes (ok (codes "{}")) no_error (pos 7) (omega arith)

abbrev packet : Bytes
packet = 0 ∷ 0 ∷ 0 ∷ 2 ∷ codes "{}"

sent_packet :
    In (send packet (pos 7 ∷ [])) (write_frame_with_fd (ok (codes "{}")) no_error (pos 7)).0
unfolding write_frame_with_fd put_u32
sent_packet = inl refl

read_frame_with_fds-write_example :
    read_frame_with_fds
      (let got : Result (Unit {0}) (Bytes × ℕ) = ok (packet, 24) in got)
      (ok (ok (pos 7 ∷ []) ∷ []))
    ≡ (codes "{}", pos 7 ∷ [], none)
read_frame_with_fds-write_example =
    read_frame_with_fds-write (codes "{}") no_error (pos 7) packet (pos 7 ∷ []) 23 (omega arith)
      sent_packet
