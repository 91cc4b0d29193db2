-- ===== src/Coordinator/Step/Recovers.antt =====
-- A tick commits when an attempt without faults is reached before the workers and the attempts run
-- out.
use drone_swarm_simulator.Prelude.{
  ℕ, zero, suc, ◌+◌, ◌<◌, Option, none, some, ◌≡◌, refl, sym, ap, subst, ◌∙◌, arith, length,
}
use drone_swarm_simulator.Prelude.Results.{Result, ok, err}
use drone_swarm_simulator.Numeric.{Floats}
use drone_swarm_simulator.Worker.Movement.{WorkerFailure, FaultInjector}
use drone_swarm_simulator.Workers.{
  Assignment, RecoveryError, healthy_worker_ids, mark_failed, handle_failure,
}
use drone_swarm_simulator.Workers.Failure.{handle_failure-IsReassigned}
use drone_swarm_simulator.Workers.Count.{mark_failed-most}
use drone_swarm_simulator.Coordinator.Step.{Coordinator, Externals, Staged, attempt_tick}
use drone_swarm_simulator.Coordinator.Step.Commit.{
  Attempted, attempts_from, after_attempt, recover, coordinator_step, current_owners, commit,
  attempt_all,
}
use drone_swarm_simulator.Coordinator.Step.Faults.{no_faults, attempt_tick-Follows}
use drone_swarm_simulator.Coordinator.Step.Attempts.{fault_free}

module _ {F : Type 0} ⦃f : Floats F⦄ {G : Type 0} (ext : Externals F G) (co : Coordinator F G)
    (st : Staged F) (computed : fault_free ext co ≡ ok st) where
  abbrev Commits : Attempted ext → Type 0
  Commits t = t.outcome ≡ ok st

  abbrev num_healthy : Assignment → ℕ
  num_healthy a = length (healthy_worker_ids a.health)

  recovered-Commits :
      (next : Assignment → Attempted ext) (n d : ℕ)
      → ((a : Assignment) → d < num_healthy a → Commits (next a))
      → (r : Assignment × Option RecoveryError) → r.1 ≡ none
      → d < num_healthy r.0
      → Commits (recover ext next n r)
  recovered-Commits next n d h (a, none) e l = h a l
  recovered-Commits next n d h (a, some x) e l = absurd (ground arith)

  handled-Commits :
      (next : Assignment → Attempted ext) (n d tick w : ℕ) (a : Assignment)
      → ((b : Assignment) → d < num_healthy b → Commits (next b))
      → suc d < num_healthy a
      → Commits (recover ext next n (handle_failure tick w a))
  handled-Commits next n d tick w a h l =
      let left : d < length (healthy_worker_ids (mark_failed a.health w)) =
        omega (arith, mark_failed-most a.health w) in
      let (done, no_error) = handle_failure-IsReassigned tick w a (omega arith) in
      recovered-Commits next n d h (handle_failure tick w a) no_error
        (subst (λ hs. d < length (healthy_worker_ids hs)) (sym done.health) left)

  -- An attempt that returns anything returns the staged state.
  same_state :
      (a : Assignment) (injector : FaultInjector) (s : Staged F)
      → attempt_tick ext co a injector (current_owners ext co) ≡ ok s
      → s ≡ st
  same_state a injector s e =
      let same = attempt_tick-Follows ext co a co.assignment injector (current_owners ext co) s e in
      cc (same, computed)

  after-Commits :
      (next : WorkerFailure → Assignment → Attempted ext) (n d tick : ℕ) (a : Assignment)
      (r : Result WorkerFailure (Staged F))
      → ((s : Staged F) → r ≡ ok s → s ≡ st)
      → (d ≡ 0 → r ≡ ok st)
      → ((failure : WorkerFailure) (e : ℕ) (c : Assignment)
          → d ≡ suc e
          → e < num_healthy c
          → Commits (next failure c))
      → d < num_healthy a
      → Commits (after_attempt ext next tick a n r)
  after-Commits next n d tick a (ok s) same now later l = ap ok (same s refl)
  after-Commits next n zero tick a (err failure) same now later l =
      absurd (ground (arith, now refl))
  after-Commits next n (suc d) tick a (err failure) same now later l =
      handled-Commits (next failure) n d tick failure.worker_id a (λ b h. later failure d b refl h)
        l

  attempts-Commits :
      (faults : ℕ → FaultInjector) (remaining n d : ℕ) (last : Option WorkerFailure)
      (a : Assignment)
      → d < remaining
      → d < num_healthy a
      → faults (suc (n + d)) ≡ no_faults
      → Commits (attempts_from ext co faults (current_owners ext co) remaining n last a)
  unfolding attempts_from
  attempts-Commits faults zero n d last a h l free = absurd (omega arith)
  attempts-Commits faults (suc remaining) n d last a h l free =
      after-Commits
        (λ failure b.
          attempts_from ext co faults (current_owners ext co) remaining (suc n) (some failure) b)
        (suc n) d co.clock.tick a _ (same_state a (faults (suc n)))
        (λ e.
          let now : faults (suc n) ≡ no_faults =
            subst (λ k. faults k ≡ no_faults) (omega arith) free in
          ap (λ i. attempt_tick ext co a i (current_owners ext co)) now
          ∙ attempt_tick-Follows ext co co.assignment a no_faults (current_owners ext co) st
              computed)
        (λ failure e c de le.
          attempts-Commits faults remaining (suc n) e (some failure) c (omega arith) le
            (subst (λ k. faults k ≡ no_faults) (omega arith) free))
        l

  -- When the attempt without faults succeeds, and the attempt after d others is without faults,
  -- for d below the retry limit and below the number of healthy workers, then the tick ends with
  -- the result of the attempt without faults, whatever faults the attempts before have.
  pub coordinator_step-commits :
      (faults : ℕ → FaultInjector) (tick_time : F) (d : ℕ)
      → d < co.worker_retry_limit
      → d < num_healthy co.assignment
      → faults (suc d) ≡ no_faults
      → (coordinator_step ext co faults tick_time).1 ≡ ok st.result
  unfolding coordinator_step
  coordinator_step-commits faults tick_time d h l free =
      let free' : faults (suc (0 + d)) ≡ no_faults =
        subst (λ k. faults k ≡ no_faults) (omega arith) free in
      let t = attempt_all ext co faults in
      ap (λ r. (commit ext co tick_time t.assignment t.attempts r).1)
        (attempts-Commits faults co.worker_retry_limit 0 d none co.assignment h l free')
