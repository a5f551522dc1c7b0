-- ===== src/Cells/Watch/Closed.antt =====
-- `WatchL3` closes the counters that it opens.
use cluster_performance_engi.Base.{
  ◌≡◌, refl, ◌∙◌, ap, List, [], ◌∷◌, ◌++◌, Option, none, some, Result, ok, err, if◌then◌else◌,
}
use cluster_performance_engi.Base.Int.{ℤ, eqb_ℤ_iff, eqb_ℤ}
use cluster_performance_engi.Perf.{PerfError}
use cluster_performance_engi.Cells.Watch.{
  PerfAction, opened, closed, reset, enable, disable, sleep, Round, Watched, measure, sent_round,
  counted_round, watch_round, watch_loop,
}

-- The counters that are open after some actions, of those that were open before.
abbrev pub drop_one : ℤ → List ℤ → List ℤ
drop_one fd [] = []
drop_one fd (x ∷ l) = if eqb_ℤ fd x then l else x ∷ drop_one fd l

abbrev pub open_after : List ℤ → List PerfAction → List ℤ
open_after fds [] = fds
open_after fds (opened fd ∷ acts) = open_after (fds ++ fd ∷ []) acts
open_after fds (closed fd ∷ acts) = open_after (drop_one fd fds) acts
open_after fds (reset fd ∷ acts) = open_after fds acts
open_after fds (enable fd ∷ acts) = open_after fds acts
open_after fds (disable fd ∷ acts) = open_after fds acts
open_after fds (sleep t ∷ acts) = open_after fds acts

drop_one_self : (fd : ℤ) (l : List ℤ) → drop_one fd (fd ∷ l) ≡ l
drop_one_self fd l = rw ((eqb_ℤ_iff fd fd).1 refl) refl

measured :
    (interval acc miss : ℤ) (more : List PerfAction)
    → open_after [] more ≡ []
    → open_after [] (measure interval acc miss ++ more) ≡ []
measured interval acc miss more h =
    ap (λ l. open_after (drop_one miss l) more) (drop_one_self acc (miss ∷ []))
    ∙ ap (λ l. open_after l more) (drop_one_self miss [])
    ∙ h

module _ {E : Type 0} (interval : ℤ) where
  abbrev Clean : Watched E → Type 0
  Clean w = open_after [] w.0 ≡ []

  sent_round-Clean :
      (acc miss : ℤ) (r : Round E) (o : Option E) (rest : Watched E)
      → Clean rest
      → Clean (sent_round interval acc miss r o rest)
  sent_round-Clean acc miss r (some e) rest h = measured interval acc miss [] refl
  sent_round-Clean acc miss r none rest h = measured interval acc miss rest.0 h

  counted_round-Clean :
      (r : Round E) (a m : Result (PerfError E) ℤ) (rest : Watched E)
      → Clean rest
      → Clean (counted_round interval r a m rest)
  counted_round-Clean r (ok acc) (ok miss) rest h = sent_round-Clean acc miss r r.send_error rest h
  counted_round-Clean r (ok acc) (err e) rest h = drop_one_self acc []
  counted_round-Clean r (err e) (ok miss) rest h = drop_one_self miss []
  counted_round-Clean r (err e) (err f) rest h = refl

  watch_round-Clean :
      (r : Round E) (o : Option E) (rest : Watched E)
      → Clean rest
      → Clean (watch_round interval r o rest)
  watch_round-Clean r (some e) rest h = refl
  watch_round-Clean r none rest h = counted_round-Clean r r.access r.miss rest h

  -- After any number of rounds of `WatchL3`, whichever call of a round fails, no counter that it
  -- opened is still open.
  pub watch_loop-open_after :
      (rounds : List (Round E)) → open_after [] (watch_loop interval rounds).0 ≡ []
  unfolding watch_loop
  watch_loop-open_after [] = refl
  watch_loop-open_after (r ∷ rounds) =
      watch_round-Clean r r.cancelled (watch_loop interval rounds) (watch_loop-open_after rounds)
