-- ===== src/Cells/Evicting.antt =====
-- Which processes a request of the daemon signals.
use cluster_performance_engi.Base.{ℕ, ◌≡◌, List, [], ◌∷◌, map, Bool, Result, ok, err, All, ap}
use cluster_performance_engi.Base.Int.{ℤ}
use cluster_performance_engi.Base.Text.{Bytes}
use cluster_performance_engi.Evict.{Processes, stop_foreign_on_cpus}
use cluster_performance_engi.Evict.Foreign.{IsForeign, IsFair, stop_foreign_on_cpus-IsForeign}
use cluster_performance_engi.Cells.{Action, signal}
use cluster_performance_engi.Cells.Server.{Cells, signal_of, evicted, sent, evict_foreign}

module _ {E : Type 0} (root : Bytes) (cells : Cells) (cpus : List ℤ) (sig : ℤ)
    (procs : Processes E) where
  -- A signal to a process that may run on the CPUs, and is not the daemon.
  abbrev pub Spares : Action → Type 0
  Spares a =
      (pid : ℤ) × (a ≡ signal pid (signal_of sig)) × IsForeign procs cpus (procs.self ∷ []) pid

  sent-Spares :
      (signals : List (ℤ × ℤ))
      → All (IsFair procs cpus (procs.self ∷ []) (signal_of sig)) signals
      → All Spares (map sent signals)
  sent-Spares [] h = tt
  sent-Spares (s ∷ signals) h = ((s.0, ap (signal s.0) h.0.1, h.0.0), sent-Spares signals h.1)

  evicted-Spares :
      (r : List (ℤ × ℤ) × Result E ℕ)
      → All (IsFair procs cpus (procs.self ∷ []) (signal_of sig)) r.0
      → All Spares (evicted E root cells r).1
  evicted-Spares (signals, err e) h = sent-Spares signals h
  evicted-Spares (signals, ok n) h = sent-Spares signals h

-- All that `EvictForeign` does is to send the signal of the request, or SIGSTOP, to processes with
-- an id above 1 that are not the daemon and whose affinity has one of the CPUs of the request.
pub evict_foreign-IsForeign :
    {E : Type 0} (root : Bytes) (cells : Cells) (cpus : List ℤ) (sig : ℤ) (dry_run : Bool)
    (procs : Processes E)
    → All
        (λ a.
          (pid : ℤ) × (a ≡ signal pid (signal_of sig)) × IsForeign procs cpus (procs.self ∷ []) pid)
        (evict_foreign E root cells cpus sig dry_run procs).1
unfolding evict_foreign
evict_foreign-IsForeign root cells [] sig dry_run procs = tt
evict_foreign-IsForeign root cells (c ∷ cpus) sig dry_run procs =
    evicted-Spares root cells (c ∷ cpus) sig procs
      (stop_foreign_on_cpus procs (c ∷ cpus) (procs.self ∷ []) (signal_of sig) dry_run)
      (stop_foreign_on_cpus-IsForeign procs (c ∷ cpus) (procs.self ∷ []) (signal_of sig) dry_run)
