-- ===== src/Perf.antt =====
-- nexusflow/pkg/perf: counters of the processor. `perf_event_open` and `read` are parameters.
use Prim.Native.Nat.{bit_or}
use cluster_performance_engi.Base.{ℕ, ◌==◌, ◌*◌, ◌^◌, Result, ok, err, if◌then◌else◌}
use cluster_performance_engi.Base.Int.{ℤ}

-- What is opened: the type of the event and its configuration.
pub record Attr : Type 0 where
  pub kind : ℕ
  pub config : ℕ

pub data PerfError (E : Type 0) : Type 0 where
  open_failed read_failed : E → PerfError E
  short_read : ℕ → PerfError E

-- `KindCPUCycles` and `KindInstructions` of PERF_TYPE_HARDWARE, which is 0.
pub data Kind : Type 0 where
  cycles instructions : Kind

abbrev pub kind_config : Kind → ℕ
kind_config cycles = 0
kind_config instructions = 1

abbrev pub hw_cache_config : ℕ → ℕ → ℕ → ℕ
hw_cache_config cache_id op_id result_id =
    bit_or (bit_or cache_id (op_id * 2 ^ 8)) (result_id * 2 ^ 16)

module _ {E : Type 0} (perf_event_open : Attr → ℤ → ℤ → Result E ℤ) where
  abbrev pub counter_of : Result E ℤ → Result (PerfError E) ℤ
  counter_of (err e) = err (open_failed e)
  counter_of (ok fd) = ok fd

  abbrev pub open_counter : Kind → ℤ → ℤ → Result (PerfError E) ℤ
  open_counter kind pid cpu =
      counter_of (perf_event_open (record { kind = 0; config = kind_config kind }) pid cpu)

  -- PERF_TYPE_HW_CACHE is 3.
  abbrev pub open_hw_cache : ℤ → ℤ → ℕ → Result (PerfError E) ℤ
  open_hw_cache pid cpu config =
      counter_of (perf_event_open (record { kind = 3; config = config }) pid cpu)

  -- The last level is 2, a read is 0, an access is 1 and a miss is 2.
  abbrev pub open_llc_miss : ℤ → ℤ → Result (PerfError E) ℤ
  open_llc_miss pid cpu = open_hw_cache pid cpu (hw_cache_config 2 0 2)

  abbrev pub open_llc_access : ℤ → ℤ → Result (PerfError E) ℤ
  open_llc_access pid cpu = open_hw_cache pid cpu (hw_cache_config 2 0 1)

-- `ReadUint64`: `got` is the number of bytes and the eight bytes as a number.
abbrev pub read_uint64 : {E : Type 0} → Result E (ℕ × ℕ) → Result (PerfError E) ℕ
read_uint64 (err e) = err (read_failed e)
read_uint64 (ok (n, v)) = if n == 8 then ok v else err (short_read n)
