-- ===== src/Evict/Foreign.antt =====
-- Which processes are signalled.
use cluster_performance_engi.Base.{
  ℕ, suc, ◌+◌, ◌≡◌, refl, sym, ◌∙◌, ap, Bool, true, false, ◌||◌, List, [], ◌∷◌, ◌++◌, Option, none,
  some, Result, ok, err, any, All, All-append, arith, length, length-append, Bool-cases, inl, inr,
}
use cluster_performance_engi.Base.Int.{ℤ, pos, eqb_ℤ, leb_ℤ}
use cluster_performance_engi.Base.Files.{Entry}
use cluster_performance_engi.Base.Decimal.{atoi}
use cluster_performance_engi.Topology.CpuList.{seen}
use cluster_performance_engi.Evict.{
  CpuTarget, Processes, add_pid, on_target, candidate, foreign_pid, foreign_pids, listed,
  foreign_pids_on_cpus, stop_all, stop_listed, stop_foreign_on_cpus,
}

-- A process that may run on the target, but neither the first one, nor the caller, nor one to be
-- passed over.
abbrev pub IsForeign : {E : Type 0} → Processes E → CpuTarget → List ℤ → ℤ → Type 0
IsForeign procs target skip pid =
    (leb_ℤ pid (pos 1) ≡ false)
    × (eqb_ℤ pid procs.self ≡ false)
    × (seen pid skip ≡ false)
    × (is_set : ℤ → Bool) × (procs.affinity pid ≡ ok is_set)
    × (any is_set target ≡ true)

module _ {E : Type 0} (procs : Processes E) (target : CpuTarget) (skip : List ℤ) where
  abbrev Has : Option ℤ → Type 0
  Has none = Unit
  Has (some pid) = IsForeign procs target skip pid

  on_target-Has :
      (pid : ℤ) (r : Result E (ℤ → Bool))
      → procs.affinity pid ≡ r
      → (leb_ℤ pid (pos 1) || eqb_ℤ pid procs.self || seen pid skip) ≡ false
      → Has (on_target procs target skip pid r)
  on_target-Has pid (err e) a h = tt
  on_target-Has pid (ok is_set) a h = elim (Bool-cases (any is_set target)) [
    | inl meets ↦ rw meets (ground arith, ground arith, ground arith, is_set, a, meets)
    | inr apart ↦ rw apart tt
  ]

  candidate-Has : (o : Option ℤ) → Has (candidate procs target skip o)
  candidate-Has none = tt
  candidate-Has (some pid) =
      elim (Bool-cases (leb_ℤ pid (pos 1) || eqb_ℤ pid procs.self || seen pid skip)) [
        | inl own ↦ rw own tt
        | inr other ↦ rw other (on_target-Has pid (procs.affinity pid) refl other)
      ]

  foreign_pid-Has : (ent : Entry) → Has (foreign_pid procs target skip ent)
  unfolding foreign_pid
  foreign_pid-Has ent = elim (Bool-cases ent.is_dir) [
    | inl dir ↦ rw dir (candidate-Has (atoi ent.name))
    | inr file ↦ rw file tt
  ]

  All-add_pid :
      (o : Option ℤ) (out : List ℤ)
      → Has o
      → All (IsForeign procs target skip) out
      → All (IsForeign procs target skip) (add_pid o out)
  All-add_pid none out h k = k
  All-add_pid (some pid) out h k = All-append (IsForeign procs target skip) out (pid ∷ []) k (h, tt)

  All-foreign_pids :
      (entries : List Entry) (out : List ℤ)
      → All (IsForeign procs target skip) out
      → All (IsForeign procs target skip) (foreign_pids procs target skip entries out)
  unfolding foreign_pids
  All-foreign_pids [] out k = k
  All-foreign_pids (ent ∷ entries) out k =
      All-foreign_pids entries (add_pid (foreign_pid procs target skip ent) out)
        (All-add_pid (foreign_pid procs target skip ent) out (foreign_pid-Has ent) k)

  -- A signal that may be sent.
  abbrev pub IsFair : ℤ → ℤ × ℤ → Type 0
  IsFair sig s = IsForeign procs target skip s.0 × (s.1 ≡ sig)

  stop_all-IsFair :
      (pids : List ℤ) (sig : ℤ) (dry_run : Bool) (signals : List (ℤ × ℤ)) (n : ℕ)
      → All (IsForeign procs target skip) pids
      → All (IsFair sig) signals
      → All (IsFair sig) (stop_all procs target skip pids sig dry_run (signals, n)).0
  unfolding stop_all
  stop_all-IsFair [] sig dry_run signals n h k = k
  stop_all-IsFair (pid ∷ pids) sig true signals n h k =
      stop_all-IsFair pids sig true signals (suc n) h.1 k
  stop_all-IsFair (pid ∷ pids) sig false signals n h k =
      stop_all-IsFair pids sig false (signals ++ (pid, sig) ∷ []) _ h.1
        (All-append (IsFair sig) signals ((pid, sig) ∷ []) k ((h.0, refl), tt))

  stop_listed-IsFair :
      (r : Result E (List Entry)) (sig : ℤ) (dry_run : Bool)
      → All (IsFair sig) (stop_listed procs target skip (listed procs target skip r) sig dry_run).0
  stop_listed-IsFair (err e) sig dry_run = tt
  stop_listed-IsFair (ok entries) sig dry_run =
      stop_all-IsFair (foreign_pids procs target skip entries []) sig dry_run [] 0
        (All-foreign_pids entries [] tt) tt

  -- `StopForeignOnCPUs` signals only processes that are foreign.
  pub stop_foreign_on_cpus-IsForeign :
      (sig : ℤ) (dry_run : Bool)
      → All
          (λ s. IsForeign procs target skip s.0 × (s.1 ≡ sig))
          (stop_foreign_on_cpus procs target skip sig dry_run).0
  unfolding stop_foreign_on_cpus foreign_pids_on_cpus
  stop_foreign_on_cpus-IsForeign sig dry_run = stop_listed-IsFair procs.entries sig dry_run

  stop_all-dry :
      (pids : List ℤ) (sig : ℤ) (signals : List (ℤ × ℤ)) (n : ℕ)
      → stop_all procs target skip pids sig true (signals, n) ≡ (signals, n + length pids)
  unfolding stop_all
  stop_all-dry [] sig signals n = ap (λ k. (signals, k)) (omega arith)
  stop_all-dry (pid ∷ pids) sig signals n =
      stop_all-dry pids sig signals (suc n) ∙ ap (λ k. (signals, k)) (omega arith)

  stop_all-live :
      (pids : List ℤ) (sig : ℤ) (signals : List (ℤ × ℤ)) (n : ℕ)
      → length (stop_all procs target skip pids sig false (signals, n)).0
        ≡ length signals + length pids
  unfolding stop_all
  stop_all-live [] sig signals n = omega arith
  stop_all-live (pid ∷ pids) sig signals n =
      stop_all-live pids sig (signals ++ (pid, sig) ∷ []) _
      ∙ omega (arith, length-append signals ((pid, sig) ∷ []))

  listed-dry :
      (r : Result E (List ℤ)) (sig : ℤ) (n : ℕ)
      → (stop_listed procs target skip r sig true).1 ≡ ok n
      → ((stop_listed procs target skip r sig true).0 ≡ [])
        × (length (stop_listed procs target skip r sig false).0 ≡ n)
  listed-dry (err e) sig n h = (refl, cc)
  listed-dry (ok pids) sig n h =
      let dry = stop_all-dry pids sig [] 0 in
      let same : (stop_all procs target skip pids sig true ([], 0)).1 ≡ n = cc in
      (ap (λ s. s.0) dry, stop_all-live pids sig [] 0 ∙ sym (ap (λ s. s.1) dry) ∙ same)

  -- If a dry run of `StopForeignOnCPUs` returns a number, it sends no signal, and a real run in
  -- the same state tries to send that many.
  pub stop_foreign_on_cpus-dry_run :
      (sig : ℤ) (n : ℕ)
      → (stop_foreign_on_cpus procs target skip sig true).1 ≡ ok n
      → ((stop_foreign_on_cpus procs target skip sig true).0 ≡ [])
        × (length (stop_foreign_on_cpus procs target skip sig false).0 ≡ n)
  unfolding stop_foreign_on_cpus
  stop_foreign_on_cpus-dry_run sig n h = listed-dry (foreign_pids_on_cpus procs target skip) sig n h
