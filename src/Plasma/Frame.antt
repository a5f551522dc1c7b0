-- ===== src/Plasma/Frame.antt =====
-- nexusflow/pkg/plasma/frame.go: `ReadFrameBytes` and `WriteJSONFrame`. A reader is the bytes that
-- it still has to deliver; `json.Marshal` and the writer are parameters.
pub mod Stream
mod Tests
use cluster_performance_engi.Base.{
  ℕ, ◌+◌, ◌*◌, ◌/◌, ◌%◌, ◌^◌, Bool, true, false, List, [], ◌∷◌, ◌++◌, Option, none, some, Result,
  ok, err, ◌>>=◌, ◌>>◌, fail_if, length, take, drop, ltb, ◌==◌, if◌then◌else◌, is_nil,
}
use cluster_performance_engi.Base.Text.{Bytes}

-- 4 MiB
abbrev pub max_frame_bytes : ℕ
max_frame_bytes = 4 * 2 ^ 20

pub data FrameError : Type 0 where
  eof unexpected_eof : FrameError
  frame_too_large : ℕ → FrameError

-- `io.ReadFull` of `n` bytes: what was read, and the rest.
unfoldable pub read_full : ℕ → Bytes → Result FrameError (Bytes × Bytes)
read_full n s =
    if ltb (length s) n
    then err (if is_nil s then eof else unexpected_eof)
    else ok (take n s, drop n s)

-- `binary.BigEndian.Uint32`
unfoldable pub get_u32 : Bytes → ℕ
get_u32 (a ∷ b ∷ c ∷ d ∷ s) = a * 2 ^ 24 + b * 2 ^ 16 + c * 2 ^ 8 + d
get_u32 s = 0

-- `binary.BigEndian.PutUint32` of a value that is cut to 32 bits.
unfoldable pub put_u32 : ℕ → Bytes
put_u32 n =
    let v = n % 2 ^ 32 in v / 2 ^ 24 ∷ v / 2 ^ 16 % 2 ^ 8 ∷ v / 2 ^ 8 % 2 ^ 8 ∷ v % 2 ^ 8 ∷ []

-- A frame of length 0 gives a nil body, which is read as the empty one.
unfoldable pub read_frame : Bytes → Result FrameError (Bytes × Bytes)
read_frame r = do
  (hdr, r') ← read_full 4 r
  let ln = get_u32 hdr
  fail_if (ltb max_frame_bytes ln) (frame_too_large ln)
  if ln == 0 then ok ([], r') else read_full ln r'

-- What a frame looks like on the socket.
unfoldable pub frame : Bytes → Bytes
frame body = put_u32 (length body) ++ body

module _ {V W E : Type 0} (marshal : V → Result E Bytes) (write : Bytes → W → Result E W) where
  -- Two writes: the header, and the body.
  pub write_json_frame : V → W → Result E W
  write_json_frame v w = do b ← marshal v; w' ← write (put_u32 (length b)) w; write b w'
