-- ===== src/Plasma/Wire/Laws.antt =====
-- A message with descriptors arrives whole, and a sent descriptor is always closed here.
use cluster_performance_engi.Base.{
  ℕ, suc, ◌+◌, ◌≤◌, ◌≡◌, refl, ap, List, [], ◌∷◌, ◌++◌, Option, none, Result, ok, err, length, take,
  drop, arith, In,
}
use cluster_performance_engi.Base.Int.{ℤ, pos, ◌≤ℤ◌}
use cluster_performance_engi.Base.Text.{Bytes}
use cluster_performance_engi.Plasma.Frame.{max_frame_bytes, put_u32}
use cluster_performance_engi.Plasma.Frame.Stream.{get_u32-put_u32}
use cluster_performance_engi.Plasma.Wire.{
  send, close, write_frame_with_fd, collect_fds, with_control, read_frame_with_fds,
}

-- `WriteJSONFrameWithFD` closes a descriptor that is not negative on every path, also when the
-- value could not be encoded or the message not sent.
pub write_frame_with_fd-closes :
    {E : Type 0} (marshalled : Result E Bytes) (sent : Option E) (fd : ℤ)
    → pos 0 ≤ℤ fd
    → In (close fd) (write_frame_with_fd marshalled sent fd).0
unfolding write_frame_with_fd
write_frame_with_fd-closes (err e) sent fd h = ground arith
write_frame_with_fd-closes (ok b) sent fd h = ground arith

take_header : (n : ℕ) (body : Bytes) → take 4 (put_u32 n ++ body) ≡ put_u32 n
unfolding put_u32
take_header n body = refl

drop_header : (n : ℕ) (body : Bytes) → drop 4 (put_u32 n ++ body) ≡ body
unfolding put_u32
drop_header n body = refl

length_header : (n : ℕ) (body : Bytes) → length (put_u32 n ++ body) ≡ 4 + length body
unfolding put_u32
length_header n body = omega arith

take_all : (s : Bytes) → take (length s) s ≡ s
take_all [] = refl
take_all (c ∷ s) = ap (λ t. c ∷ t) (take_all s)

sent_message :
    {E : Type 0} (body : Bytes) (sent : Option E) (fd : ℤ) (pkt : Bytes) (fds : List ℤ)
    → In (send pkt fds) (write_frame_with_fd (ok body) sent fd).0
    → pkt ≡ put_u32 (length body) ++ body
unfolding write_frame_with_fd
sent_message body sent fd pkt fds h = ground arith

read_packet :
    {E : Type 0} (body : Bytes) (oobn : ℕ) (control : Result E (List (Result E (List ℤ))))
    → length body ≤ max_frame_bytes
    → read_frame_with_fds (ok (put_u32 (length body) ++ body, oobn)) control
      ≡ with_control body oobn control
unfolding read_frame_with_fds
read_packet body oobn control h =
    rw
      (
        take_header (length body) body,
        drop_header (length body) body,
        length_header (length body) body,
        get_u32-put_u32 (length body) (omega (arith, h)),
        take_all body,
      )
      (ground (arith, h))

-- The message that `WriteJSONFrameWithFD` sends for a body within the limit, received whole with a
-- control message that holds the descriptors, is read back as that body with those descriptors and
-- no error.
pub read_frame_with_fds-write :
    {E : Type 0} (body : Bytes) (sent : Option E) (fd : ℤ) (pkt : Bytes) (fds : List ℤ) (oobn : ℕ)
    → length body ≤ max_frame_bytes
    → In (send pkt fds) (write_frame_with_fd (ok body) sent fd).0
    → read_frame_with_fds
        (let got : Result E (Bytes × ℕ) = ok (pkt, suc oobn) in got)
        (ok (ok fds ∷ []))
      ≡ (body, fds, none)
unfolding with_control collect_fds
read_frame_with_fds-write body sent fd pkt fds oobn h m =
    rw (sent_message body sent fd pkt fds m) (read_packet body (suc oobn) (ok (ok fds ∷ [])) h)
