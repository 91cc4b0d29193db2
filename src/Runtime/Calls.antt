-- ===== src/Runtime/Calls.antt =====
-- What holds of a runtime after each of its calls.
use drone_swarm_simulator.Prelude.{
  Bool, true, false, not, Option, none, some, List, [], ◌∷◌, ◌≡◌, refl, ap, ◌∙◌, arith, inl, inr,
  Bool-cases, if◌then◌else◌,
}
use drone_swarm_simulator.Prelude.Results.{Result, ok, err, OnOk}
use drone_swarm_simulator.Runtime.{
  Simulations, RuntimeError, is_running, is_paused, is_alive, LoopAt, at_exit_lock, at_end,
  ShutdownAt, not_called, to_started, to_paused, to_resumed, to_reset, to_loaded, advanced,
  still_running, already_running, not_running, not_paused, Runtime, init_runtime, advance_one,
  start, pause, resume, step_once, reset, load_checkpoint, Action, starts, or_unchanged, act,
}

-- The thread has left its loop.
abbrev pub is_leaving : Option LoopAt → Bool
is_leaving (some at_exit_lock) = true
is_leaving (some at_end) = true
is_leaving _ = false

abbrev pub is_shutting_down : ShutdownAt → Bool
is_shutting_down not_called = false
is_shutting_down _ = true

module _ {C S R : Type 0} where
  -- Only a start has a condition: no call of `shutdown` is under way.
  abbrev pub IsCalmAt : Action S → Runtime C S R → Type 0
  IsCalmAt starts r = is_shutting_down r.shutdown_at ≡ false
  IsCalmAt _ r = Unit

module _ {C S R : Type 0} (sims : Simulations C S R) where
  -- What steps that raise leave of the simulation `s`.
  pub data IsLeft (s : S) : S → Type 0 where
    as_shown : IsLeft s s
    after_raise : {t u : S} → IsLeft s t → sims.step t ≡ (u, none) → IsLeft s u

  -- No runtime is started while it is being shut down.
  abbrev pub AreCalm : List (Action S) → Runtime C S R → Type 0
  AreCalm [] r = Unit
  AreCalm (a ∷ rest) r = IsCalmAt a r × AreCalm rest (act sims a r)

  -- A live thread that was not told to stop is told to wait exactly when the status is not
  -- `running`; a thread that has left its loop, and any thread during a shutdown, was told to stop;
  -- the snapshot is of the current simulation, or of what it was before steps that raised.
  pub record IsConsistent (r : Runtime C S R) : Type 0 where
    pub waits :
        is_alive r.thread ≡ true → r.stop_event ≡ false → r.pause_event ≡ not (is_running r.status)
    pub leaves : is_leaving r.thread ≡ true → r.stop_event ≡ true
    pub shuts : is_shutting_down r.shutdown_at ≡ true → r.stop_event ≡ true
    pub published : IsLeft r.snapshot.0 r.sim

  pub if-either :
      (b : Bool) (x y : Runtime C S R)
      → (b ≡ true → IsConsistent x)
      → (b ≡ false → IsConsistent y)
      → IsConsistent (if b then x else y)
  if-either true x y f g = f refl
  if-either false x y f g = g refl

  unless-OnOk :
      (b : Bool) (e : RuntimeError) (r : Runtime C S R)
      → (b ≡ false → IsConsistent r)
      → OnOk IsConsistent (if b then err e else ok r)
  unless-OnOk true e r f = tt
  unless-OnOk false e r f = f refl

  if-OnOk :
      (b : Bool) (e : RuntimeError) (r : Runtime C S R)
      → (b ≡ true → IsConsistent r)
      → OnOk IsConsistent (if b then ok r else err e)
  if-OnOk true e r f = f refl
  if-OnOk false e r f = tt

  pub or_unchanged-IsConsistent :
      (x : Result RuntimeError (Runtime C S R)) (old : Runtime C S R)
      → OnOk IsConsistent x
      → IsConsistent old
      → IsConsistent (or_unchanged x old)
  or_unchanged-IsConsistent (ok a) old h k = h
  or_unchanged-IsConsistent (err e) old h k = k

  pub init_runtime-IsConsistent : (c : C) → IsConsistent (init_runtime sims c)
  unfolding init_runtime
  init_runtime-IsConsistent c = record {
    waits = λ e. absurd (ground arith);
    leaves = λ e. absurd (ground arith);
    shuts = λ e. absurd (ground arith);
    published = as_shown;
  }

  pub start-IsConsistent :
      (r : Runtime C S R)
      → is_shutting_down r.shutdown_at ≡ false
      → IsConsistent r
      → OnOk IsConsistent (start sims r)
  unfolding start
  start-IsConsistent r calm h = unless-OnOk (is_alive r.thread) already_running (to_started r) (λ e.
      record {
        waits = λ _ _. refl;
        leaves = λ l. absurd (ground arith);
        shuts = λ s. absurd (ground arith);
        published = h.published;
      })

  pub pause-IsConsistent : (r : Runtime C S R) → IsConsistent r → OnOk IsConsistent (pause sims r)
  unfolding pause
  pause-IsConsistent r h = if-OnOk (is_running r.status) not_running (to_paused r) (λ e. record {
    waits = λ _ _. refl;
    leaves = h.leaves;
    shuts = h.shuts;
    published = h.published;
  })

  pub resume-IsConsistent : (r : Runtime C S R) → IsConsistent r → OnOk IsConsistent (resume sims r)
  unfolding resume
  resume-IsConsistent r h = if-OnOk (is_paused r.status) not_paused (to_resumed r) (λ e. record {
    waits = λ _ _. refl;
    leaves = h.leaves;
    shuts = h.shuts;
    published = h.published;
  })

  pub advanced-IsConsistent :
      (r : Runtime C S R) (next : S) (result : Option R)
      → sims.step r.sim ≡ (next, result)
      → IsConsistent r
      → IsConsistent (advanced r next result).0
  advanced-IsConsistent r next none e h = record {
    waits = h.waits;
    leaves = h.leaves;
    shuts = h.shuts;
    published = after_raise h.published e;
  }
  advanced-IsConsistent r next (some result) e h = record {
    waits = h.waits;
    leaves = h.leaves;
    shuts = h.shuts;
    published = as_shown;
  }

  pub step_once-IsConsistent :
      (r : Runtime C S R) → IsConsistent r → IsConsistent (step_once sims r).0
  unfolding step_once advance_one
  step_once-IsConsistent r h = elim (Bool-cases (is_running r.status)) [
    | inl busy ↦ rw busy h
    | inr idle ↦ rw idle (advanced-IsConsistent r (sims.step r.sim).0 (sims.step r.sim).1 refl h)
  ]

  pub reset-IsConsistent : (r : Runtime C S R) → IsConsistent r → OnOk IsConsistent (reset sims r)
  unfolding reset
  reset-IsConsistent r h = unless-OnOk (is_running r.status) still_running (to_reset sims r) (λ e.
      record {
        waits = λ a n. h.waits a n ∙ ap not e;
        leaves = h.leaves;
        shuts = h.shuts;
        published = as_shown;
      })

  pub load_checkpoint-IsConsistent :
      (s : Option S) (r : Runtime C S R)
      → IsConsistent r
      → OnOk IsConsistent (load_checkpoint sims s r)
  unfolding load_checkpoint
  load_checkpoint-IsConsistent none r h = elim (Bool-cases (is_running r.status)) [
    | inl t ↦ rw t tt
    | inr e ↦ rw e tt
  ]
  load_checkpoint-IsConsistent (some loaded) r h =
      unless-OnOk (is_running r.status) still_running (to_loaded sims loaded r) (λ e. record {
        waits = λ a n. h.waits a n ∙ ap not e;
        leaves = h.leaves;
        shuts = h.shuts;
        published = as_shown;
      })
