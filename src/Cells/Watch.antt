-- ===== src/Cells/Watch.antt =====
-- nexusflow/pkg/daemon/grpc_linux.go: the loop of `WatchL3`. A round is what its calls return.
pub mod Closed
use cluster_performance_engi.Base.{ℕ, List, [], ◌∷◌, ◌++◌, Option, none, some, Result, ok, err}
use cluster_performance_engi.Base.Int.{ℤ}
use cluster_performance_engi.Perf.{PerfError, read_uint64}

pub data PerfAction : Type 0 where
  opened closed reset enable disable : ℤ → PerfAction
  sleep : ℤ → PerfAction

pub record L3Sample : Type 0 where
  pub llc_references : ℕ
  pub llc_misses : ℕ
  pub timestamp : ℤ

-- `cancelled` is the error of a context that is done. The counters are file descriptors.
pub record Round (E : Type 0) : Type 0 where
  pub cancelled : Option E
  pub access : Result (PerfError E) ℤ
  pub miss : Result (PerfError E) ℤ
  pub access_read : Result E (ℕ × ℕ)
  pub miss_read : Result E (ℕ × ℕ)
  pub now : ℤ
  pub send_error : Option E

pub data WatchError (E : Type 0) : Type 0 where
  cancelled send_failed : E → WatchError E
  no_counter : Result (PerfError E) ℤ → Result (PerfError E) ℤ → WatchError E

-- `av, _ := acc.ReadUint64()`
abbrev pub read_or_zero : {E : Type 0} → Result (PerfError E) ℕ → ℕ
read_or_zero (err e) = 0
read_or_zero (ok v) = v

-- The calls of a round between the opening of both counters and the message.
abbrev pub measure : ℤ → ℤ → ℤ → List PerfAction
measure interval acc miss =
    opened acc
    ∷ opened miss
    ∷ reset acc
    ∷ reset miss
    ∷ enable acc
    ∷ enable miss
    ∷ sleep interval
    ∷ disable acc
    ∷ disable miss
    ∷ closed acc
    ∷ closed miss
    ∷ []

abbrev pub sample_of : {E : Type 0} → Round E → L3Sample
sample_of r = record {
  llc_references = read_or_zero (read_uint64 r.access_read);
  llc_misses = read_or_zero (read_uint64 r.miss_read);
  timestamp = r.now;
}

-- The actions, the messages, and the error that ends the request, if it ends.
abbrev pub Watched : Type 0 → Type 0
Watched E = List PerfAction × List L3Sample × Option (WatchError E)

abbrev pub then_watch : {E : Type 0} → List PerfAction → L3Sample → Watched E → Watched E
then_watch acts s (more, samples, e) = (acts ++ more, s ∷ samples, e)

-- A message that cannot be sent ends the loop, and is not counted.
abbrev pub sent_round : {E : Type 0} → ℤ → ℤ → ℤ → Round E → Option E → Watched E → Watched E
sent_round interval acc miss r (some e) rest = (measure interval acc miss, [], some (send_failed e))
sent_round interval acc miss r none rest = then_watch (measure interval acc miss) (sample_of r) rest

abbrev pub counted_round :
    {E : Type 0}
    → ℤ
    → Round E
    → Result (PerfError E) ℤ
    → Result (PerfError E) ℤ
    → Watched E
    → Watched E
counted_round interval r (ok acc) (ok miss) rest = sent_round interval acc miss r r.send_error rest
counted_round interval r (ok acc) (err e) rest =
    (opened acc ∷ closed acc ∷ [], [], some (no_counter (ok acc) (err e)))
counted_round interval r (err e) (ok miss) rest =
    (opened miss ∷ closed miss ∷ [], [], some (no_counter (err e) (ok miss)))
counted_round interval r (err e) (err f) rest = ([], [], some (no_counter (err e) (err f)))

abbrev pub watch_round : {E : Type 0} → ℤ → Round E → Option E → Watched E → Watched E
watch_round interval r (some e) rest = ([], [], some (cancelled e))
watch_round interval r none rest = counted_round interval r r.access r.miss rest

-- The loop, for as many rounds as are given; it goes on until one fails.
unfoldable pub watch_loop : {E : Type 0} → ℤ → List (Round E) → Watched E
watch_loop interval [] = ([], [], none)
watch_loop interval (r ∷ rounds) = watch_round interval r r.cancelled (watch_loop interval rounds)
