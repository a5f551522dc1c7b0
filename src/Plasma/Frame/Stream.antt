-- ===== src/Plasma/Frame/Stream.antt =====
-- Reading back what was written.
use cluster_performance_engi.Base.{
  ℕ, ◌^◌, ◌≤◌, ◌<◌, ◌≡◌, refl, sym, ap, ◌∙◌, false, List, [], ◌∷◌, ◌++◌, Result, ok, err, ◌>>=◌,
  length, ltb, ◌==◌, if◌then◌else◌, arith, length-append, take-append, drop-append, >>=-eq-ok,
  append_assoc, All, take-append-drop, fail_if, suc, length-take, append-nil, ◌>>◌, zero,
}
use cluster_performance_engi.Base.Text.{Bytes}
use cluster_performance_engi.Plasma.Frame.{
  FrameError, frame_too_large, max_frame_bytes, read_full, get_u32, put_u32, read_frame, frame,
  write_json_frame,
}

pub get_u32-put_u32 : (n : ℕ) → n < 2 ^ 32 → get_u32 (put_u32 n) ≡ n
unfolding get_u32 put_u32
get_u32-put_u32 n h = omega arith

read_full-append : (s rest : Bytes) → read_full (length s) (s ++ rest) ≡ ok (s, rest)
unfolding read_full
read_full-append s rest =
    ground (arith, length-append s rest, take-append s rest, drop-append s rest)

read_header : (n : ℕ) (rest : Bytes) → read_full 4 (put_u32 n ++ rest) ≡ ok (put_u32 n, rest)
unfolding put_u32
read_header n rest = read_full-append (put_u32 n) rest

-- What `read_frame` does behind the header.
read_body :
    (body rest : Bytes)
    → (if length body == 0 then ok ([], body ++ rest) else read_full (length body) (body ++ rest))
      ≡ ok (body, rest)
read_body [] rest = refl
read_body (b ∷ body) rest = ground (arith, read_full-append (b ∷ body) rest)

-- For a body below 4 GiB: reading a frame from a stream that begins with it gives its body and
-- leaves what follows, unless the body passes the limit; then the reader refuses it and names its
-- length.
pub read_frame-frame :
    (body rest : Bytes)
    → length body < 2 ^ 32
    → read_frame (frame body ++ rest) ≡ (
        if ltb max_frame_bytes (length body)
        then err (frame_too_large (length body))
        else ok (body, rest))
unfolding read_frame frame
read_frame-frame body rest h =
    rw
      (
        append_assoc (put_u32 (length body)) body rest,
        read_header (length body) (body ++ rest),
        get_u32-put_u32 (length body) h,
      )
      (ground (arith, read_body body rest))

read_full-ok : (n : ℕ) (s t u : Bytes) → read_full n s ≡ ok (t, u) → (s ≡ t ++ u) × (length t ≡ n)
unfolding read_full
read_full-ok n s t u h = ground (arith, take-append-drop n s, length-take n s)

after_header :
    (ln : ℕ) (r body rest : Bytes)
    → (fail_if (ltb max_frame_bytes ln) (frame_too_large ln)
        >> (if ln == 0 then ok ([], r) else read_full ln r))
      ≡ ok (body, rest)
    → (r ≡ body ++ rest) × (ln ≡ length body) × (length body ≤ max_frame_bytes)
after_header ln r body rest h = ground (arith, read_full-ok ln r body rest)

-- Whatever `ReadFrameBytes` returns stands in the stream behind a header of 4 bytes that gives its
-- length, is within the limit, and is followed by what is left in the stream.
pub read_frame_sound :
    (s body rest : Bytes)
    → read_frame s ≡ ok (body, rest)
    → (hdr : Bytes) × (s ≡ hdr ++ (body ++ rest))
      × (length hdr ≡ 4)
      × (get_u32 hdr ≡ length body)
      × (length body ≤ max_frame_bytes)
unfolding read_frame
read_frame_sound s body rest h =
    let ((hdr, r), e, h') = >>=-eq-ok (read_full 4 s) _ h in
    let (split, four) = read_full-ok 4 s hdr r e in
    let (rest_split, exact, fits) = after_header (get_u32 hdr) r body rest h' in
    (hdr, split ∙ ap (λ t. hdr ++ t) rest_split, four, exact, fits)

-- A stream of frames: the bodies are read back in order.
pub read_all : ℕ → Bytes → List Bytes → Result FrameError (List Bytes)
read_all zero r out = ok out
read_all (suc n) r out = do (body, r') ← read_frame r; read_all n r' (out ++ body ∷ [])

abbrev pub frames : List Bytes → Bytes
frames [] = []
frames (b ∷ bodies) = frame b ++ frames bodies

abbrev pub Fits : Bytes → Type 0
Fits body = length body ≤ max_frame_bytes

read_all-frames_lem :
    (bodies out : List Bytes)
    → All Fits bodies
    → read_all (length bodies) (frames bodies) out ≡ ok (out ++ bodies)
unfolding read_all
read_all-frames_lem [] out h = ap ok (sym (append-nil out))
read_all-frames_lem (b ∷ bodies) out h =
    let first = read_frame-frame b (frames bodies) (omega (arith, h.0)) in
    let small : ltb max_frame_bytes (length b) ≡ false = ground (arith, h.0) in
    rw (first, small)
      (read_all-frames_lem bodies (out ++ b ∷ []) h.1 ∙ ap ok (append_assoc out (b ∷ []) bodies))

-- Frames written one behind another, each within the limit, are read back one by one: none is
-- lost, merged or torn.
pub read_all-frames :
    (bodies : List Bytes)
    → All Fits bodies
    → read_all (length bodies) (frames bodies) [] ≡ ok bodies
read_all-frames bodies h = read_all-frames_lem bodies [] h

-- With a writer whose successful write appends its bytes to what was sent: if `WriteJSONFrame`
-- succeeds, the value was encoded and exactly one frame with its encoding was sent.
pub write_json_frame-frame :
    {V W E : Type 0} (marshal : V → Result E Bytes) (write : Bytes → W → Result E W)
    (sent : W → Bytes)
    (appends : (b : Bytes) (w w' : W) → write b w ≡ ok w' → sent w' ≡ sent w ++ b) (v : V)
    (w w' : W)
    → write_json_frame marshal write v w ≡ ok w'
    → (body : Bytes) × (marshal v ≡ ok body) × (sent w' ≡ sent w ++ frame body)
unfolding write_json_frame frame
write_json_frame-frame marshal write sent appends v w w' h =
    let (body, made, h') = >>=-eq-ok (marshal v) _ h in
    let (w1, first, second) = >>=-eq-ok (write (put_u32 (length body)) w) _ h' in
    (
      body,
      made,
      appends body w1 w' second
          ∙ ap (λ t. t ++ body) (appends (put_u32 (length body)) w w1 first)
          ∙ append_assoc (sent w) (put_u32 (length body)) body,
    )
