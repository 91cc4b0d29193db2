-- ===== src/Runtime/Restart.antt =====
-- Resetting, and loading a checkpoint: what a later run does.
use drone_swarm_simulator.Prelude.{
  ℕ, zero, suc, Bool, arith, if◌then◌else◌, true, false, Option, none, some, [], ◌∷◌, ◌≡◌, refl, ap,
  subst, sym, replicate,
}
use drone_swarm_simulator.Prelude.Results.{err}
use drone_swarm_simulator.Runtime.{
  Simulations, running, is_running, is_alive, already_running, not_paused, still_running, Runtime,
  init_runtime, advanced, to_reset, to_paused, advance_one, start, pause, resume, step_once, reset,
  load_checkpoint, pauses, resumes, steps, resets, loads, loops, act, run_actions,
}
use drone_swarm_simulator.Runtime.Calls.{IsConsistent}
use drone_swarm_simulator.Runtime.Reachable.{run_actions-keeps}
use drone_swarm_simulator.Runtime.Late.{IsLate, idle-IsLate}

module _ {C S R : Type 0} (sims : Simulations C S R) where
  -- Two idle runtimes that show the same.
  pub record ShowSame (r q : Runtime C S R) : Type 0 where
    pub sim : r.sim ≡ q.sim
    pub num_ticks : r.num_ticks ≡ q.num_ticks
    pub snapshot : r.snapshot ≡ q.snapshot
    pub idle : (is_running r.status ≡ false) × (is_running q.status ≡ false)

  advanced-ShowSame :
      (r q : Runtime C S R) (next : S) (result : Option R)
      → ShowSame r q
      → ShowSame (advanced r next result).0 (advanced q next result).0
  advanced-ShowSame r q next none h = record {
    sim = refl;
    num_ticks = h.num_ticks;
    snapshot = h.snapshot;
    idle = h.idle;
  }
  advanced-ShowSame r q next (some result) h = record {
    sim = refl;
    num_ticks = ap suc h.num_ticks;
    snapshot = refl;
    idle = h.idle;
  }

  abbrev ticked : Runtime C S R → Runtime C S R
  ticked r = (advanced r (sims.step r.sim).0 (sims.step r.sim).1).0

  if-false : {A : Type 0} (b : Bool) (x y : A) → b ≡ false → y ≡ (if b then x else y)
  if-false true x y h = absurd (ground arith)
  if-false false x y h = refl

  step-idle : (r : Runtime C S R) → is_running r.status ≡ false → ticked r ≡ act sims steps r
  unfolding act step_once advance_one
  step-idle r idle =
      ap (λ t. t.0)
        (if-false (is_running r.status) (r, err still_running) (advance_one sims r) idle)

  step-ShowSame :
      (r q : Runtime C S R) → ShowSame r q → ShowSame (act sims steps r) (act sims steps q)
  step-ShowSame r q h =
      let next = (sims.step q.sim).0 in
      let result = (sims.step q.sim).1 in
      let same_step : ShowSame (ticked r) (ticked q) =
        subst (λ s. ShowSame (advanced r s.0 s.1).0 (ticked q)) (sym (ap sims.step h.sim))
          (advanced-ShowSame r q next result h) in
      subst (λ t. ShowSame t (act sims steps q)) (step-idle r h.idle.0)
        (subst (ShowSame (ticked r)) (step-idle q h.idle.1) same_step)

  steps-ShowSame :
      (n : ℕ) (r q : Runtime C S R)
      → ShowSame r q
      → ShowSame (run_actions sims (replicate n steps) r) (run_actions sims (replicate n steps) q)
  unfolding run_actions
  steps-ShowSame zero r q h = h
  steps-ShowSame (suc n) r q h =
      steps-ShowSame n (act sims steps r) (act sims steps q) (step-ShowSame r q h)

  -- After a reset of a runtime that is not running, any number of single steps gives the
  -- simulation, the tick count and the snapshot that the same steps give on a new runtime with the
  -- current configuration.
  pub reset-ShowSame :
      (r : Runtime C S R) (n : ℕ)
      → is_running r.status ≡ false
      → ShowSame
          (run_actions sims (resets ∷ replicate n steps) r)
          (run_actions sims (replicate n steps) (init_runtime sims r.config))
  unfolding run_actions act reset init_runtime
  reset-ShowSame r n idle =
      steps-ShowSame n (act sims resets r) (init_runtime sims r.config)
        (rw idle (record { sim = refl; num_ticks = refl; snapshot = refl; idle = (refl, refl) }))

  -- When a consistent runtime with a live thread is running, then after a pause and a reset both
  -- start and resume are refused, and however far the background loop goes on alone, the runtime
  -- shows the reset simulation, or that simulation after exactly one tick, the latter only when
  -- the thread was already past its two tests, before the lock.
  pub reset-refused :
      (r : Runtime C S R) (n : ℕ)
      → IsConsistent sims r
      → is_alive r.thread ≡ true
      → r.status ≡ running
      → let q = run_actions sims (pauses ∷ resets ∷ []) r in
        (start sims q ≡ err already_running)
        × (resume sims q ≡ err not_paused)
        × IsLate sims q (run_actions sims (replicate n loops) q)
  unfolding run_actions act reset pause start resume
  reset-refused r n h alive busy =
      let q = run_actions sims (pauses ∷ resets ∷ []) r in
      let kept = run_actions-keeps sims (pauses ∷ resets ∷ []) r (tt, (tt, tt)) h in
      let reached : to_reset sims (to_paused r) ≡ q = rw busy refl in
      (
        subst (λ t. start sims t ≡ err already_running) reached (rw alive refl),
        subst (λ t. resume sims t ≡ err not_paused) reached refl,
        idle-IsLate sims n q q.thread refl kept
            (subst (λ t. is_running t.status ≡ false) reached refl),
      )

  -- On a runtime that was never started, loading a checkpoint and resuming gives the status
  -- running, but the background loop does nothing and a single step is refused.
  pub load-idle :
      (c : C) (s : S)
      → let q = run_actions sims (loads (some s) ∷ resumes ∷ []) (init_runtime sims c) in
        (q.status ≡ running) × (act sims loops q ≡ q) × (step_once sims q ≡ (q, err still_running))
  unfolding run_actions act load_checkpoint resume init_runtime step_once
  load-idle c s = (refl, refl, refl)
