-- ===== src/Plasma/Wire.antt =====
-- nexusflow/pkg/plasma/wire_linux.go: frames that carry file descriptors in one Unix message.
pub mod Laws
mod Tests
use cluster_performance_engi.Base.{
  ℕ, ◌+◌, ◌<◌, Bool, true, false, List, [], ◌∷◌, ◌++◌, Option, none, some, Result, ok, err, length,
  take, drop, ltb, ◌==◌, if◌then◌else◌, suc, zero,
}
use cluster_performance_engi.Base.Int.{ℤ, pos, leb_ℤ}
use cluster_performance_engi.Base.Text.{Bytes}
use cluster_performance_engi.Plasma.Frame.{max_frame_bytes, get_u32, put_u32, frame}

-- What the process does with the socket and the descriptor, in order.
pub data Action : Type 0 where
  send : Bytes → List ℤ → Action
  close : ℤ → Action

abbrev deferred_close : ℤ → List Action
deferred_close fd = if leb_ℤ (pos 0) fd then close fd ∷ [] else []

abbrev rights : ℤ → List ℤ
rights fd = if leb_ℤ (pos 0) fd then fd ∷ [] else []

-- `marshalled` is what `json.Marshal` returned, `sent` what `WriteMsgUnix` returned.
pub write_frame_with_fd {κ} : {E : Type κ} → Result E Bytes → Option E → ℤ → List Action × Option E
write_frame_with_fd (err e) sent fd = (deferred_close fd, some e)
write_frame_with_fd (ok b) sent fd =
    (send (put_u32 (length b) ++ b) (rights fd) ∷ deferred_close fd, sent)

pub data WireError (E : Type 0) : Type 0 where
  read_failed control_failed : E → WireError E
  short_unix_read frame_too_large truncated_frame : WireError E

-- `msgs`: what `ParseUnixRights` makes of each control message; a failure is passed over.
pub collect_fds : {E : Type 0} → List ℤ → List (Result E (List ℤ)) → List ℤ
collect_fds fds [] = fds
collect_fds fds (ok got ∷ msgs) = collect_fds (fds ++ got) msgs
collect_fds fds (err e ∷ msgs) = collect_fds fds msgs

-- The control messages behind the body: `oobn` bytes of them, parsed by
-- `ParseSocketControlMessage`.
pub with_control :
    {E : Type 0}
    → Bytes
    → ℕ
    → Result E (List (Result E (List ℤ)))
    → Bytes × List ℤ × Option (WireError E)
unfolding collect_fds
with_control body zero control = (body, [], none)
with_control body (suc oobn) (err e) = (body, [], some (control_failed e))
with_control body (suc oobn) (ok msgs) = (body, collect_fds [] msgs, none)

-- `received` is what `ReadMsgUnix` returned: the bytes of the message, at most 4 and the limit, and
-- the number of control bytes.
pub read_frame_with_fds :
    {E : Type 0}
    → Result E (Bytes × ℕ)
    → Result E (List (Result E (List ℤ)))
    → Bytes × List ℤ × Option (WireError E)
unfolding with_control
read_frame_with_fds (err e) control = ([], [], some (read_failed e))
read_frame_with_fds (ok (buf, oobn)) control =
    if ltb (length buf) 4
    then ([], [], some short_unix_read)
    else if ltb max_frame_bytes (get_u32 (take 4 buf))
    then ([], [], some frame_too_large)
    else if ltb (length buf) (4 + get_u32 (take 4 buf))
    then ([], [], some truncated_frame)
    else with_control (take (get_u32 (take 4 buf)) (drop 4 buf)) oobn control
