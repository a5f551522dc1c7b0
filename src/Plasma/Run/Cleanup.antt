-- ===== src/Plasma/Run/Cleanup.antt =====
-- What `Run` leaves behind.
use cluster_performance_engi.Base.{
  ℕ, suc, ◌-◌, ◌≡◌, refl, ◌∙◌, ap, Bool, false, List, [], ◌∷◌, ◌++◌, map, Option, none, some,
  Result, ok, err, is_nil, inl, inr, Result-cases, if◌then◌else◌,
}
use cluster_performance_engi.Base.Int.{ℤ}
use cluster_performance_engi.Base.Text.{Bytes, eqb_refl}
use cluster_performance_engi.Shm as shm
use cluster_performance_engi.Shm.{Segment, ShmError, shm_dir, create_named, remove, works}
use cluster_performance_engi.Shm.Life.{
  Held, unlink, acts, outcome, fresh, settled, create_named-ok, create_named-IsClean, act,
  with_segment,
}
use cluster_performance_engi.Plasma.Coordinator.{Config, ConfigError, checked_config}
use cluster_performance_engi.Plasma.Run.{
  RunAction, segment, remove_stale, remove_socket, listen, close_listener, chmod_socket,
  dump_samples, Outcomes, remove_segment, after_listen, after_shm, after_load, after_config, run,
}

-- What the process holds: files, descriptors and mappings of segments, and listening sockets.
pub record World : Type 0 where
  pub held : Held
  pub listeners : ℕ

abbrev pub stale_gone : Bytes → World → World
stale_gone path w = record w { held = record w.held { files = unlink path w.held.files } }

abbrev pub step : World → RunAction → World
step w (segment a) = record w { held = act w.held a }
step w (remove_stale path worked) = if worked then stale_gone path w else w
step w (listen path) = record w { listeners = suc w.listeners }
step w (close_listener path) = record w { listeners = w.listeners - 1 }
step w (remove_socket path) = w
step w (chmod_socket path) = w
step w dump_samples = w

abbrev pub steps : World → List RunAction → World
steps w [] = w
steps w (a ∷ l) = steps (step w a) l

steps-append : (w : World) (l m : List RunAction) → steps w (l ++ m) ≡ steps (steps w l) m
steps-append w [] m = refl
steps-append w (a ∷ l) m = steps-append (step w a) l m

steps-segment :
    (w : World) (l : List shm.Action) → steps w (map segment l) ≡ record w { held = acts w.held l }
steps-segment w [] = refl
steps-segment w (a ∷ l) = steps-segment (step w (segment a)) l

removed-fresh :
    (E : Type 0) (h : Held) (path : Bytes) (size : ℤ)
    → is_nil path ≡ false
    → acts (with_segment path h) (remove {E = E} (fresh path size) none none).0 ≡ h
unfolding remove unlink
removed-fresh E h path size full = rw (full, settled h.mappings, eqb_refl path) refl

module _ {E : Type 0} (clean : Bytes → Bytes) (o : Outcomes E) (unmaps : o.unmap_error ≡ none)
    (unlinks : o.unlink_error ≡ none) (unmaps_early : o.shm_calls.unmap_error ≡ none)
    (unlinks_early : o.shm_calls.remove_error ≡ none) where
  abbrev put : World → Held → World
  put w h = record w { held = h }

  removal :
      (w : World) (path : Bytes) (size : ℤ)
      → is_nil path ≡ false
      → steps (put w (with_segment path w.held)) (remove_segment clean o (fresh path size)) ≡ w
  removal w path size full =
      steps-segment (put w (with_segment path w.held))
        (remove (fresh path size) o.unmap_error o.unlink_error).0
      ∙ rw (unmaps, unlinks) (ap (put w) (removed-fresh E w.held path size full))

  after_listen-steps :
      (cfg : Config) (w : World) (path : Bytes) (size : ℤ) (e : Option E)
      → is_nil path ≡ false
      → steps (put w (with_segment path w.held)) (after_listen clean o cfg (fresh path size) e).0
        ≡ w
  after_listen-steps cfg w path size (some e) full = removal w path size full
  after_listen-steps cfg w path size none full =
      ap
        (λ k.
          steps (record { held = with_segment path w.held; listeners = k })
            (remove_segment clean o (fresh path size)))
        (settled w.listeners)
      ∙ removal w path size full

  after_shm-steps :
      (cfg : Config) (w : World) (path : Bytes) (size : ℤ)
      (r : List shm.Action × Result (ShmError E) Segment)
      → is_nil path ≡ false
      → ((s : Segment) → r.1 ≡ ok s → s ≡ fresh path size)
      → acts w.held r.0 ≡ outcome w.held path r.1
      → steps w (after_shm clean o cfg r).0 ≡ w
  after_shm-steps cfg w path size (l, err e) full made done = steps-segment w l ∙ ap (put w) done
  after_shm-steps cfg w path size (l, ok s) full made done =
      steps-append w (map segment l) _
      ∙ ap (λ v. steps v (after_listen clean o cfg s o.listen_error).0)
          (steps-segment w l ∙ ap (put w) done)
      ∙ ap
          (λ x.
            steps (put w (with_segment path w.held)) (after_listen clean o cfg x o.listen_error).0)
          (made s refl)
      ∙ after_listen-steps cfg w path size o.listen_error full

  after_load-steps : (cfg : Config) (w : World) → steps w (after_load clean o cfg o.loaded).0 ≡ w
  after_load-steps cfg w = elim (Result-cases o.loaded) [
    | inr (e, bad) ↦ rw bad refl
    | inl (p, good) ↦ rw good (
        after_shm-steps cfg w (shm_dir ++ cfg.shm_name) cfg.shm_size
          (create_named cfg.shm_name cfg.shm_size o.shm_calls) refl
          (λ s made. (create_named-ok cfg.shm_name cfg.shm_size o.shm_calls s made).1)
          (create_named-IsClean cfg.shm_name cfg.shm_size o.shm_calls w.held unmaps_early
            unlinks_early))
  ]

  -- What is left of `w`: a stale file of the segment's name is gone, if it could be removed.
  abbrev pub left : World → Result ConfigError Config → World
  left w (err e) = w
  left w (ok cfg) =
      if works o.stale_error then stale_gone (clean (shm_dir ++ cfg.shm_name)) w else w

  -- If every attempt to unmap the segment and to unlink its file works, also in the clean-up of
  -- `CreateNamed`: whichever other call of `Run` fails, and also if none does, the files,
  -- descriptors and mappings of segments and the listening sockets are afterwards those from
  -- before, without a stale file of the segment if the configuration passes its checks and the
  -- removal of that file works.
  pub run-left :
      (cfg : Config) (has_topology : Bool) (w : World)
      → steps w (run clean o cfg has_topology).0 ≡ left w (checked_config cfg has_topology)
  unfolding run
  run-left cfg has_topology w = finished (checked_config cfg has_topology)
    where
      finished : (c : Result ConfigError Config) → steps w (after_config clean o c).0 ≡ left w c
      finished (err e) = refl
      finished (ok c) = after_load-steps c (left w (ok c))
