-- ===== src/Cells/Output.antt =====
-- What a client of `RunInCell` puts together from the messages.
use cluster_performance_engi.Base.{
  ◌≡◌, refl, sym, ◌∙◌, ap, Bool, true, false, List, [], ◌∷◌, ◌++◌, append_assoc, append-nil, Option,
  none, some, ok, All, if◌then◌else◌, subst,
}
use cluster_performance_engi.Base.Text.{Bytes}
use cluster_performance_engi.Cells.Stream.{
  Chunk, Read, pipe_to_stream, Waited, well, exited, wait_failed, last_chunk, RunCalls, run_chunks,
}
use cluster_performance_engi.Cells.Server.{
  Cells, CellMeta, find, started, checked_run, run_in_cell, streamed,
}

-- `Merges a b c`: `c` has the messages of `a` and those of `b`, each in their order.
pub data Merges : List Chunk → List Chunk → List Chunk → Type 0 where
  both_done : Merges [] [] []
  from_left : (x : Chunk) (a b c : List Chunk) → Merges a b c → Merges (x ∷ a) b (x ∷ c)
  from_right : (x : Chunk) (a b c : List Chunk) → Merges a b c → Merges a (x ∷ b) (x ∷ c)

abbrev pub stdout_text : List Chunk → Bytes
stdout_text [] = []
stdout_text (x ∷ l) = x.stdout ++ stdout_text l

abbrev pub stderr_text : List Chunk → Bytes
stderr_text [] = []
stderr_text (x ∷ l) = x.stderr ++ stderr_text l

-- The bytes up to the first error.
abbrev pub received : List Read → Bytes
received [] = []
received ((b, failed) ∷ reads) = b ++ (if failed then [] else received reads)

-- The message that ends the stream comes last, and only there.
abbrev pub IsEnded : List Chunk → Type 0
IsEnded [] = ⊥
IsEnded (x ∷ []) = x.finished ≡ true
IsEnded (x ∷ y ∷ l) = (x.finished ≡ false) × IsEnded (y ∷ l)

abbrev IsPart : Bool → Chunk → Type 0
IsPart true x = (x.finished ≡ false) × (x.stderr ≡ [])
IsPart false x = (x.finished ≡ false) × (x.stdout ≡ [])

pipe-IsPart : (out : Bool) (reads : List Read) → All (IsPart out) (pipe_to_stream out reads)
unfolding pipe_to_stream
pipe-IsPart out [] = tt
pipe-IsPart out (([], true) ∷ reads) = tt
pipe-IsPart out (([], false) ∷ reads) = pipe-IsPart out reads
pipe-IsPart true ((c ∷ b, true) ∷ reads) = ((refl, refl), tt)
pipe-IsPart false ((c ∷ b, true) ∷ reads) = ((refl, refl), tt)
pipe-IsPart true ((c ∷ b, false) ∷ reads) = ((refl, refl), pipe-IsPart true reads)
pipe-IsPart false ((c ∷ b, false) ∷ reads) = ((refl, refl), pipe-IsPart false reads)

pipe-stdout : (reads : List Read) → stdout_text (pipe_to_stream true reads) ≡ received reads
unfolding pipe_to_stream
pipe-stdout [] = refl
pipe-stdout (([], true) ∷ reads) = refl
pipe-stdout (([], false) ∷ reads) = pipe-stdout reads
pipe-stdout ((c ∷ b, true) ∷ reads) = refl
pipe-stdout ((c ∷ b, false) ∷ reads) = ap (λ t. (c ∷ b) ++ t) (pipe-stdout reads)

pipe-stderr : (reads : List Read) → stderr_text (pipe_to_stream false reads) ≡ received reads
unfolding pipe_to_stream
pipe-stderr [] = refl
pipe-stderr (([], true) ∷ reads) = refl
pipe-stderr (([], false) ∷ reads) = pipe-stderr reads
pipe-stderr ((c ∷ b, true) ∷ reads) = refl
pipe-stderr ((c ∷ b, false) ∷ reads) = ap (λ t. (c ∷ b) ++ t) (pipe-stderr reads)

merged-stdout :
    (a b c : List Chunk) → Merges a b c → All (IsPart false) b → stdout_text c ≡ stdout_text a
merged-stdout _ _ _ both_done h = refl
merged-stdout _ _ _ (from_left x a b c m) h = ap (λ t. x.stdout ++ t) (merged-stdout a b c m h)
merged-stdout _ _ _ (from_right x a b c m) h =
    ap (λ t. t ++ stdout_text c) h.0.1 ∙ merged-stdout a b c m h.1

merged-stderr :
    (a b c : List Chunk) → Merges a b c → All (IsPart true) a → stderr_text c ≡ stderr_text b
merged-stderr _ _ _ both_done h = refl
merged-stderr _ _ _ (from_left x a b c m) h =
    ap (λ t. t ++ stderr_text c) h.0.1 ∙ merged-stderr a b c m h.1
merged-stderr _ _ _ (from_right x a b c m) h = ap (λ t. x.stderr ++ t) (merged-stderr a b c m h)

last_chunk-finished : (w : Waited) → (last_chunk w).finished ≡ true
last_chunk-finished well = refl
last_chunk-finished (exited code) = refl
last_chunk-finished (wait_failed text) = refl

last_chunk-stdout : (w : Waited) → (last_chunk w).stdout ≡ []
last_chunk-stdout well = refl
last_chunk-stdout (exited code) = refl
last_chunk-stdout (wait_failed text) = refl

IsEnded-cons :
    (x : Chunk) (l : List Chunk) (w : Waited)
    → x.finished ≡ false
    → IsEnded (l ++ last_chunk w ∷ [])
    → IsEnded (x ∷ (l ++ last_chunk w ∷ []))
IsEnded-cons x [] w h k = (h, k)
IsEnded-cons x (y ∷ l) w h k = (h, k)

merged-IsEnded :
    (a b c : List Chunk) (w : Waited)
    → Merges a b c
    → All (IsPart true) a
    → All (IsPart false) b
    → IsEnded (c ++ last_chunk w ∷ [])
merged-IsEnded _ _ _ w both_done h k = last_chunk-finished w
merged-IsEnded _ _ _ w (from_left x a b c m) h k =
    IsEnded-cons x c w h.0.0 (merged-IsEnded a b c w m h.1 k)
merged-IsEnded _ _ _ w (from_right x a b c m) h k =
    IsEnded-cons x c w k.0.0 (merged-IsEnded a b c w m h k.1)

stdout_text-snoc :
    (l : List Chunk) (x : Chunk) → stdout_text (l ++ x ∷ []) ≡ stdout_text l ++ x.stdout
stdout_text-snoc [] x = append-nil x.stdout
stdout_text-snoc (y ∷ l) x =
    ap (λ t. y.stdout ++ t) (stdout_text-snoc l x)
    ∙ sym (append_assoc y.stdout (stdout_text l) x.stdout)

stderr_text-snoc :
    (l : List Chunk) (x : Chunk) → stderr_text (l ++ x ∷ []) ≡ stderr_text l ++ x.stderr
stderr_text-snoc [] x = append-nil x.stderr
stderr_text-snoc (y ∷ l) x =
    ap (λ t. y.stderr ++ t) (stderr_text-snoc l x)
    ∙ sym (append_assoc y.stderr (stderr_text l) x.stderr)

-- What the messages of a request hold.
abbrev pub IsOutput : {E : Type 0} → RunCalls E → List Chunk → Type 0
IsOutput calls chunks =
    (stdout_text chunks ≡ received calls.out_reads)
    × (stderr_text chunks ≡ received calls.err_reads ++ (last_chunk calls.waited).stderr)
    × IsEnded chunks

-- The two loops keep their order.
abbrev pub IsFair : {E : Type 0} → RunCalls E → Type 0
IsFair calls =
    let outs = pipe_to_stream true calls.out_reads in
    let errs = pipe_to_stream false calls.err_reads in Merges outs errs (calls.merge outs errs)

run_chunks-IsOutput :
    {E : Type 0} (calls : RunCalls E) → IsFair calls → IsOutput calls (run_chunks calls)
unfolding run_chunks
run_chunks-IsOutput calls m =
    let outs = pipe_to_stream true calls.out_reads in
    let errs = pipe_to_stream false calls.err_reads in
    let c = calls.merge outs errs in
    let w = last_chunk calls.waited in
    (
      stdout_text-snoc c w
          ∙ ap (λ t. t ++ w.stdout)
              (merged-stdout outs errs c m (pipe-IsPart false calls.err_reads))
          ∙ ap (λ t. stdout_text outs ++ t) (last_chunk-stdout calls.waited)
          ∙ append-nil (stdout_text outs)
          ∙ pipe-stdout calls.out_reads,
      stderr_text-snoc c w
          ∙ ap (λ t. t ++ w.stderr)
              (merged-stderr outs errs c m (pipe-IsPart true calls.out_reads)
                ∙ pipe-stderr calls.err_reads),
      merged-IsEnded outs errs c calls.waited m (pipe-IsPart true calls.out_reads)
          (pipe-IsPart false calls.err_reads),
    )

module _ {E : Type 0} (root : Bytes) (cells : Cells) (calls : RunCalls E)
    (fair : IsFair calls) where
  started-IsOutput :
      (meta : CellMeta) (o e s : Option E) (chunks : List Chunk)
      → (started E root cells meta calls o e s).2 ≡ ok (streamed chunks)
      → IsOutput calls chunks
  started-IsOutput meta (some x) e s chunks h = cc
  started-IsOutput meta none (some x) s chunks h = cc
  started-IsOutput meta none none (some x) chunks h = cc
  started-IsOutput meta none none none chunks h =
      let same : run_chunks calls ≡ chunks = cc in
      subst (λ l. IsOutput calls l) same (run_chunks-IsOutput calls fair)

  checked_run-IsOutput :
      (id : Bytes) (argv : List Bytes) (o : Option CellMeta) (chunks : List Chunk)
      → (checked_run E root cells id argv calls o).2 ≡ ok (streamed chunks)
      → IsOutput calls chunks
  checked_run-IsOutput id argv none chunks h = cc
  checked_run-IsOutput id [] (some meta) chunks h = cc
  checked_run-IsOutput id (a ∷ argv) (some meta) chunks h =
      started-IsOutput meta calls.out_pipe calls.err_pipe calls.start_error chunks h

  -- If the two loops of `RunInCell` send in any order that keeps the order of each, and the
  -- request ends without an error: the standard output in the messages is what was read from the
  -- command up to the first error of its pipe, the error output is what was read there and the
  -- text of a failed wait, and the message that says the command finished is the last one and the
  -- only such one.
  pub run_in_cell-IsOutput :
      (id : Bytes) (argv : List Bytes) (chunks : List Chunk)
      → (run_in_cell E root cells id argv calls).2 ≡ ok (streamed chunks)
      → IsOutput calls chunks
  unfolding run_in_cell
  run_in_cell-IsOutput id argv chunks h = checked_run-IsOutput id argv (find id cells) chunks h
