-- ===== src/Plasma/Frame/Tests.antt =====
-- Runs of the framing, and the theorems about it at small inputs.
use cluster_performance_engi.Base.{
  ◌^◌, ◌≤◌, ◌≡◌, refl, [], ◌∷◌, ◌++◌, ok, err, Result, arith, length,
}
use cluster_performance_engi.Base.Text.{Bytes, codes}
use cluster_performance_engi.Plasma.Frame.{
  max_frame_bytes, eof, unexpected_eof, frame_too_large, read_full, get_u32, put_u32, read_frame,
  frame, write_json_frame,
}
use cluster_performance_engi.Plasma.Frame.Stream.{
  read_frame_sound, read_all, frames, read_all-frames,
}

hello : read_frame (frame (codes "hi") ++ codes "rest") ≡ ok (codes "hi", codes "rest")
unfolding read_frame frame read_full get_u32 put_u32
hello = refl

cut_off : (read_frame [] ≡ err eof) × (read_frame (0 ∷ 0 ∷ []) ≡ err unexpected_eof)
unfolding read_frame read_full
cut_off = (refl, refl)

refused : read_frame (1 ∷ 0 ∷ 0 ∷ 0 ∷ []) ≡ err (frame_too_large (2 ^ 24))
unfolding read_frame read_full get_u32
refused = refl

read_frame_sound_example :
    (hdr : Bytes) × (frame (codes "hi") ++ codes "rest" ≡ hdr ++ (codes "hi" ++ codes "rest"))
    × (length hdr ≡ 4)
    × (get_u32 hdr ≡ length (codes "hi"))
    × (length (codes "hi") ≤ max_frame_bytes)
read_frame_sound_example =
    read_frame_sound (frame (codes "hi") ++ codes "rest") (codes "hi") (codes "rest") hello

read_all-frames_example :
    read_all 2 (frames (codes "a" ∷ codes "bc" ∷ [])) [] ≡ ok (codes "a" ∷ codes "bc" ∷ [])
read_all-frames_example = read_all-frames (codes "a" ∷ codes "bc" ∷ []) (omega arith)

-- A writer that keeps what it is given.
abbrev keep : Bytes → Bytes → Result (Unit {0}) Bytes
keep b w = ok (w ++ b)

abbrev as_json : Bytes → Result (Unit {0}) Bytes
as_json v = ok v

written : write_json_frame as_json keep (codes "{}") [] ≡ ok (frame (codes "{}"))
unfolding write_json_frame frame put_u32
written = refl
