-- ===== src/Runtime/Reachable.antt =====
-- What holds of every state that a runtime reaches.
use drone_swarm_simulator.Prelude.{true, Option, none, some, List, [], ◌∷◌, ◌≡◌, refl, ap, arith}
use drone_swarm_simulator.Runtime.{
  Simulations, is_alive, LoopAt, at_stop_test, at_pause_test, at_lock, at_exit_lock, at_end,
  ShutdownAt, not_called, signalled, joining, to_stage, advanced, after_loop_tick, Runtime,
  init_runtime, advance_one, start, pause, resume, reset, load_checkpoint, shutdown_from,
  shutdown_part, run_loop_at, run_loop_part, Action, starts, pauses, resumes, steps, resets,
  shuts_down, loops, loads, act, run_actions,
}
use drone_swarm_simulator.Runtime.Calls.{
  AreCalm, IsCalmAt, IsConsistent, advanced-IsConsistent, if-either, init_runtime-IsConsistent,
  is_leaving, is_shutting_down, load_checkpoint-IsConsistent, or_unchanged-IsConsistent,
  pause-IsConsistent, reset-IsConsistent, resume-IsConsistent, start-IsConsistent,
  step_once-IsConsistent,
}

module _ {C S R : Type 0} (sims : Simulations C S R) where
  staged-IsConsistent :
      (r : Runtime C S R) (p : LoopAt)
      → is_alive r.thread ≡ true
      → (is_leaving (some p) ≡ true → r.stop_event ≡ true)
      → IsConsistent sims r
      → IsConsistent sims (to_stage p r)
  staged-IsConsistent r p alive leaves h = record {
    waits = λ _. h.waits alive;
    leaves = leaves;
    shuts = h.shuts;
    published = h.published;
  }

  ended-IsConsistent :
      (r : Runtime C S R) → IsConsistent sims r → IsConsistent sims (record r { thread = none })
  ended-IsConsistent r h = record {
    waits = λ e. absurd (ground arith);
    leaves = λ e. absurd (ground arith);
    shuts = h.shuts;
    published = h.published;
  }

  ticked-IsConsistent :
      (r : Runtime C S R) (next : S) (result : Option R)
      → is_alive r.thread ≡ true
      → IsConsistent sims (advanced r next result).0
      → IsConsistent sims (after_loop_tick (advanced r next result))
  ticked-IsConsistent r next none alive h = ended-IsConsistent (record r { sim = next }) h
  ticked-IsConsistent r next (some result) alive h =
      staged-IsConsistent (advanced r next (some result)).0 at_stop_test alive
        (λ e. absurd (ground arith)) h

  run_loop_at-IsConsistent :
      (p : LoopAt) (r : Runtime C S R)
      → r.thread ≡ some p
      → IsConsistent sims r
      → IsConsistent sims (run_loop_at sims p r)
  unfolding run_loop_at advance_one
  run_loop_at-IsConsistent at_stop_test r e h =
      let alive : is_alive r.thread ≡ true = ap is_alive e in
      if-either sims r.stop_event _ _ (λ t. staged-IsConsistent r at_exit_lock alive (λ _. t) h)
        (λ t. staged-IsConsistent r at_pause_test alive (λ l. absurd (ground arith)) h)
  run_loop_at-IsConsistent at_pause_test r e h =
      let alive : is_alive r.thread ≡ true = ap is_alive e in
      if-either sims r.pause_event _ _
        (λ t. staged-IsConsistent r at_stop_test alive (λ l. absurd (ground arith)) h)
        (λ t. staged-IsConsistent r at_lock alive (λ l. absurd (ground arith)) h)
  run_loop_at-IsConsistent at_lock r e h =
      let alive : is_alive r.thread ≡ true = ap is_alive e in
      let next = (sims.step r.sim).0 in
      let result = (sims.step r.sim).1 in
      if-either sims r.stop_event _ _ (λ t. staged-IsConsistent r at_exit_lock alive (λ _. t) h)
        (λ t.
          ticked-IsConsistent r next result alive (advanced-IsConsistent sims r next result refl h))
  run_loop_at-IsConsistent at_exit_lock r e h =
      let stopped_ : r.stop_event ≡ true = h.leaves (ap is_leaving e) in
      record {
        waits = λ _ n. absurd (ground arith);
        leaves = λ _. stopped_;
        shuts = h.shuts;
        published = h.published;
      }
  run_loop_at-IsConsistent at_end r e h = ended-IsConsistent r h

  run_loop_part-IsConsistent :
      (t : Option LoopAt) (r : Runtime C S R)
      → r.thread ≡ t
      → IsConsistent sims r
      → IsConsistent sims (run_loop_part sims t r)
  run_loop_part-IsConsistent none r e h = h
  run_loop_part-IsConsistent (some p) r e h = run_loop_at-IsConsistent p r e h

  shutdown_at-IsConsistent :
      (p : ShutdownAt) (r : Runtime C S R)
      → r.shutdown_at ≡ p
      → IsConsistent sims r
      → IsConsistent sims (shutdown_from p r)
  shutdown_at-IsConsistent not_called r e h = record {
    waits = λ _ n. absurd (ground arith);
    leaves = λ _. refl;
    shuts = λ _. refl;
    published = h.published;
  }
  shutdown_at-IsConsistent signalled r e h =
      let told : r.stop_event ≡ true = h.shuts (ap is_shutting_down e) in
      record {
        waits = λ _ n. absurd (ground arith);
        leaves = h.leaves;
        shuts = λ _. told;
        published = h.published;
      }
  shutdown_at-IsConsistent joining r e h =
      let told : r.stop_event ≡ true = h.shuts (ap is_shutting_down e) in
      record {
        waits = λ _ n. absurd (ground arith);
        leaves = h.leaves;
        shuts = λ _. told;
        published = h.published;
      }

  act-IsConsistent :
      (a : Action S) (r : Runtime C S R)
      → IsCalmAt a r
      → IsConsistent sims r
      → IsConsistent sims (act sims a r)
  unfolding act shutdown_part
  act-IsConsistent starts r calm h =
      or_unchanged-IsConsistent sims (start sims r) r (start-IsConsistent sims r calm h) h
  act-IsConsistent pauses r calm h =
      or_unchanged-IsConsistent sims (pause sims r) r (pause-IsConsistent sims r h) h
  act-IsConsistent resumes r calm h =
      or_unchanged-IsConsistent sims (resume sims r) r (resume-IsConsistent sims r h) h
  act-IsConsistent steps r calm h = step_once-IsConsistent sims r h
  act-IsConsistent resets r calm h =
      or_unchanged-IsConsistent sims (reset sims r) r (reset-IsConsistent sims r h) h
  act-IsConsistent shuts_down r calm h = shutdown_at-IsConsistent r.shutdown_at r refl h
  act-IsConsistent loops r calm h = run_loop_part-IsConsistent r.thread r refl h
  act-IsConsistent (loads s) r calm h =
      or_unchanged-IsConsistent sims (load_checkpoint sims s r) r
        (load_checkpoint-IsConsistent sims s r h) h

  pub run_actions-keeps :
      (actions : List (Action S)) (r : Runtime C S R)
      → AreCalm sims actions r
      → IsConsistent sims r
      → IsConsistent sims (run_actions sims actions r)
  unfolding run_actions
  run_actions-keeps [] r calm h = h
  run_actions-keeps (a ∷ rest) r (calm, later) h =
      run_actions-keeps rest (act sims a r) later (act-IsConsistent a r calm h)

  -- In every state that an interleaving of calls, parts of a shutdown and parts of the background
  -- loop reaches from a new runtime, when no runtime is started while it is being shut down: a
  -- live thread that was not told to stop is told to wait exactly when the status is not running;
  -- a thread that has left its loop, and any thread during a shutdown, was told to stop; and the
  -- published snapshot is of the current simulation, or of what it was before steps that raised.
  pub run_actions-IsConsistent :
      (c : C) (actions : List (Action S))
      → AreCalm sims actions (init_runtime sims c)
      → IsConsistent sims (run_actions sims actions (init_runtime sims c))
  run_actions-IsConsistent c actions calm =
      run_actions-keeps actions (init_runtime sims c) calm (init_runtime-IsConsistent sims c)
