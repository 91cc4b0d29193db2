-- ===== src/Runtime/Late.antt =====
-- What the background loop still does after the status is no longer `running`.
use drone_swarm_simulator.Prelude.{
  ℕ, zero, suc, Bool, true, false, not, Option, none, some, List, ◌≡◌, refl, sym, ap, subst, ◌∙◌,
  ◌⊎◌, arith, inl, inr, Bool-cases, if◌then◌else◌, replicate,
}
use drone_swarm_simulator.Runtime.{
  Simulations, is_running, is_alive, LoopAt, at_stop_test, at_pause_test, at_lock, at_exit_lock,
  at_end, to_stage, advanced, after_loop_tick, Runtime, init_runtime, advance_one, run_loop_at,
  run_loop_part, Action, loops, act, run_actions,
}
use drone_swarm_simulator.Runtime.Calls.{IsConsistent, AreCalm}
use drone_swarm_simulator.Runtime.Reachable.{run_actions-IsConsistent}

abbrev is_lock : LoopAt → Bool
is_lock at_lock = true
is_lock _ = false

at_lock_or_not : (p : LoopAt) → (p ≡ at_lock) ⊎ (is_lock p ≡ false)
at_lock_or_not at_lock = inl refl
at_lock_or_not at_stop_test = inr refl
at_lock_or_not at_pause_test = inr refl
at_lock_or_not at_exit_lock = inr refl
at_lock_or_not at_end = inr refl

module _ {C S R : Type 0} where
  -- Two runtimes that show the same.
  pub record SameShown (r q : Runtime C S R) : Type 0 where
    pub sim : r.sim ≡ q.sim
    pub num_ticks : r.num_ticks ≡ q.num_ticks
    pub snapshot : r.snapshot ≡ q.snapshot
    pub status : r.status ≡ q.status

  SameShown-refl : (r : Runtime C S R) → SameShown r r
  SameShown-refl r = record { sim = refl; num_ticks = refl; snapshot = refl; status = refl }

  SameShown-trans : (r q p : Runtime C S R) → SameShown r q → SameShown q p → SameShown r p
  SameShown-trans r q p a b = record {
    sim = a.sim ∙ b.sim;
    num_ticks = a.num_ticks ∙ b.num_ticks;
    snapshot = a.snapshot ∙ b.snapshot;
    status = a.status ∙ b.status;
  }

  -- A thread at this place makes no tick.
  abbrev HaltsAt : Option LoopAt → Runtime C S R → Type 0
  HaltsAt none r = Unit
  HaltsAt (some p) r = (r.stop_event ≡ true) ⊎ ((r.pause_event ≡ true) × (is_lock p ≡ false))

  record IsStill (r : Runtime C S R) : Type 0 where
    pub idle : is_running r.status ≡ false
    pub halts : HaltsAt r.thread r

  -- The runtime `q` is still, and shows what `r` shows.
  record Stays (r q : Runtime C S R) : Type 0 where
    pub still : IsStill q
    pub shown : SameShown q r

  if-either :
      (r : Runtime C S R) (b : Bool) (x y : Runtime C S R)
      → (b ≡ true → Stays r x)
      → (b ≡ false → Stays r y)
      → Stays r (if b then x else y)
  if-either r true x y f g = f refl
  if-either r false x y f g = g refl

  staged-Stays :
      (r : Runtime C S R) (p : LoopAt)
      → is_running r.status ≡ false
      → HaltsAt (some p) r
      → Stays r (to_stage p r)
  staged-Stays r p idle halts = record {
    still = record { idle = idle; halts = halts };
    shown = record { sim = refl; num_ticks = refl; snapshot = refl; status = refl };
  }

module _ {C S R : Type 0} (sims : Simulations C S R) where
  run_loop_at-Stays :
      (p : LoopAt) (r : Runtime C S R)
      → is_running r.status ≡ false
      → HaltsAt (some p) r
      → Stays r (run_loop_at sims p r)
  unfolding run_loop_at
  run_loop_at-Stays at_stop_test r idle halts =
      if-either r r.stop_event _ _ (λ t. staged-Stays r at_exit_lock idle (inl t))
        (λ n.
          staged-Stays r at_pause_test idle
            (elim halts [ inl t ↦ inl t | inr (w, l) ↦ inr (w, refl) ]))
  run_loop_at-Stays at_pause_test r idle halts =
      if-either r r.pause_event _ _ (λ w. staged-Stays r at_stop_test idle (inr (w, refl)))
        (λ n.
          staged-Stays r at_lock idle
            (elim halts [ inl t ↦ inl t | inr (w, l) ↦ absurd (ground arith) ]))
  run_loop_at-Stays at_lock r idle halts =
      if-either r r.stop_event _ _ (λ t. staged-Stays r at_exit_lock idle (inl t))
        (λ n. absurd (elim halts [ inl t ↦ ground arith | inr (w, l) ↦ ground arith ]))
  run_loop_at-Stays at_exit_lock r idle halts =
      rw idle
        (staged-Stays r at_end idle (elim halts [ inl t ↦ inl t | inr (w, l) ↦ inr (w, refl) ]))
  run_loop_at-Stays at_end r idle halts = record {
    still = record { idle = idle; halts = tt };
    shown = record { sim = refl; num_ticks = refl; snapshot = refl; status = refl };
  }

  part-Stays :
      (t : Option LoopAt) (r : Runtime C S R)
      → IsStill r
      → HaltsAt t r
      → Stays r (run_loop_part sims t r)
  part-Stays none r h halts = record { still = h; shown = SameShown-refl r }
  part-Stays (some p) r h halts = run_loop_at-Stays p r h.idle halts

  loops-SameShown :
      (n : ℕ) (r : Runtime C S R) → IsStill r → SameShown (run_actions sims (replicate n loops) r) r
  unfolding run_actions act
  loops-SameShown zero r h = SameShown-refl r
  loops-SameShown (suc n) r h =
      let s = part-Stays r.thread r h h.halts in
      SameShown-trans _ (act sims loops r) r (loops-SameShown n (act sims loops r) s.still) s.shown

  -- After the parts of the loop, `r` shows what it showed, or one tick more, which happens only to a
  -- thread that was already past its tests.
  abbrev pub IsLate : Runtime C S R → Runtime C S R → Type 0
  IsLate r q = SameShown q r ⊎ ((r.thread ≡ some at_lock) × SameShown q (advance_one sims r).0)

  ticked-shown :
      (r : Runtime C S R) (next : S) (result : Option R)
      → is_running r.status ≡ false
      → r.pause_event ≡ true
      → Stays (advanced r next result).0 (after_loop_tick (advanced r next result))
  ticked-shown r next none idle w = record {
    still = record { idle = idle; halts = tt };
    shown = record { sim = refl; num_ticks = refl; snapshot = refl; status = refl };
  }
  ticked-shown r next (some result) idle w =
      staged-Stays (advanced r next (some result)).0 at_stop_test idle (inr (w, refl))

  locked-IsLate :
      (n : ℕ) (r : Runtime C S R)
      → is_running r.status ≡ false
      → r.thread ≡ some at_lock
      → r.stop_event ≡ false
      → r.pause_event ≡ true
      → IsLate r (run_actions sims (replicate n loops) r)
  unfolding run_actions act run_loop_at advance_one
  locked-IsLate zero r idle at go w = inl (SameShown-refl r)
  locked-IsLate (suc n) r idle at go w =
      let next = (sims.step r.sim).0 in
      let result = (sims.step r.sim).1 in
      let s = ticked-shown r next result idle w in
      let q = after_loop_tick (advanced r next result) in
      let e : act sims loops r ≡ q = rw (at, go) refl in
      inr (
        at,
        subst (λ t. SameShown (run_actions sims (replicate n loops) t) (advanced r next result).0)
            (sym e)
            (SameShown-trans _ q (advanced r next result).0 (loops-SameShown n q s.still) s.shown),
      )

  still-IsLate :
      (n : ℕ) (r : Runtime C S R) (t : Option LoopAt)
      → r.thread ≡ t
      → is_running r.status ≡ false
      → HaltsAt t r
      → IsLate r (run_actions sims (replicate n loops) r)
  still-IsLate n r t e idle halts =
      inl (
        loops-SameShown n r
          (record { idle = idle; halts = subst (λ u. HaltsAt u r) (sym e) halts }))

  -- A consistent runtime that is not running.
  pub idle-IsLate :
      (n : ℕ) (r : Runtime C S R) (t : Option LoopAt)
      → r.thread ≡ t
      → IsConsistent sims r
      → is_running r.status ≡ false
      → IsLate r (run_actions sims (replicate n loops) r)
  idle-IsLate n r none e h idle = still-IsLate n r none e idle tt
  idle-IsLate n r (some p) e h idle = elim (Bool-cases r.stop_event) [
    | inl told ↦ still-IsLate n r (some p) e idle (inl told)
    | inr go ↦
        let w : r.pause_event ≡ true = h.waits (ap is_alive e) go ∙ ap not idle in
        elim (at_lock_or_not p) [
          | inl l ↦ locked-IsLate n r idle (e ∙ ap some l) go w
          | inr l ↦ still-IsLate n r (some p) e idle (inr (w, l))
        ]
  ]

  -- In every reachable state whose status is not running, when no runtime was started while it was
  -- being shut down: however far the background loop goes on alone, it shows the same simulation,
  -- number of ticks, snapshot and status, or those after exactly one more tick, and the latter
  -- only when the thread was already past its two tests, before the lock.
  pub loops-IsLate :
      (c : C) (actions : List (Action S)) (n : ℕ)
      → AreCalm sims actions (init_runtime sims c)
      → let r = run_actions sims actions (init_runtime sims c) in
        is_running r.status ≡ false → IsLate r (run_actions sims (replicate n loops) r)
  loops-IsLate c actions n calm idle =
      let r = run_actions sims actions (init_runtime sims c) in
      idle-IsLate n r r.thread refl (run_actions-IsConsistent sims c actions calm) idle
