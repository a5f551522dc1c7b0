-- ===== src/Cells/Stream.antt =====
-- nexusflow/pkg/daemon/grpc_linux.go: the messages of `RunInCell`. Two loops read the output of the
-- command and send it; their messages may come in any order that keeps the order of each.
use cluster_performance_engi.Base.{
  Bool, true, false, List, [], ◌∷◌, ◌++◌, Option, is_nil, if◌then◌else◌,
}
use cluster_performance_engi.Base.Int.{ℤ, pos, negsuc, int32}
use cluster_performance_engi.Base.Text.{Bytes}

pub record Chunk : Type 0 where
  pub stdout : Bytes
  pub stderr : Bytes
  pub exit_code : ℤ
  pub finished : Bool

abbrev pub chunk_of : Bool → Bytes → Chunk
chunk_of true b = record { stdout = b; stderr = []; exit_code = pos 0; finished = false }
chunk_of false b = record { stdout = []; stderr = b; exit_code = pos 0; finished = false }

-- What `Read` returns: the bytes, and whether there was an error, which the end of the file is too.
abbrev pub Read : Type 0
Read = Bytes × Bool

-- The loop: a read with an error is the last one, and its bytes still count.
unfoldable pub pipe_to_stream : Bool → List Read → List Chunk
pipe_to_stream stdout [] = []
pipe_to_stream stdout ((b, failed) ∷ reads) =
    let more = pipe_to_stream stdout reads in
    (if is_nil b then [] else chunk_of stdout b ∷ []) ++ (if failed then [] else more)

-- `cmd.Wait`: no error, an exit status, or another error with its text.
pub data Waited : Type 0 where
  well : Waited
  exited : ℤ → Waited
  wait_failed : Bytes → Waited

abbrev pub last_chunk : Waited → Chunk
last_chunk well = record { stdout = []; stderr = []; exit_code = pos 0; finished = true }
last_chunk (exited code) = record {
  stdout = [];
  stderr = [];
  exit_code = int32 code;
  finished = true;
}
last_chunk (wait_failed text) = record {
  stdout = [];
  stderr = text ++ b'\n' ∷ [];
  exit_code = negsuc 0;
  finished = true;
}

-- What the calls of one request return. `merge` is the order in which the two loops send.
pub record RunCalls (E : Type 0) : Type 0 where
  pub out_pipe : Option E
  pub err_pipe : Option E
  pub start_error : Option E
  pub pid : ℤ
  pub out_reads : List Read
  pub err_reads : List Read
  pub merge : List Chunk → List Chunk → List Chunk
  pub waited : Waited

unfoldable pub run_chunks : {E : Type 0} → RunCalls E → List Chunk
unfolding pipe_to_stream int32
run_chunks calls =
    calls.merge (pipe_to_stream true calls.out_reads) (pipe_to_stream false calls.err_reads)
    ++ last_chunk calls.waited ∷ []
