-- ===== src/Coordinator/Step/Attempts.antt =====
-- The attempts of a tick: how many there are, what the last one computes, and the commit.
use drone_swarm_simulator.Prelude.{ℕ, zero, suc, ◌+◌, ◌≤◌, Option, none, some, ◌≡◌, refl, arith}
use drone_swarm_simulator.Prelude.Results.{Result, ok, err, OnOk}
use drone_swarm_simulator.Numeric.{Floats}
use drone_swarm_simulator.Collisions.{DetectionResult}
use drone_swarm_simulator.Worker.Movement.{WorkerFailure, FaultInjector}
use drone_swarm_simulator.Simulation.{advance}
use drone_swarm_simulator.Workers.{Assignment, RecoveryError, handle_failure}
use drone_swarm_simulator.Coordinator.Step.{Coordinator, Externals, Staged, attempt_tick}
use drone_swarm_simulator.Coordinator.Step.Commit.{
  StepError, Attempted, attempts_from, after_attempt, recover, coordinator_step, current_owners,
  commit, attempt_all,
}
use drone_swarm_simulator.Coordinator.Step.Faults.{no_faults, Follows, attempt_tick-Follows}

module _ {F : Type 0} ⦃f : Floats F⦄ {G : Type 0} where
  module _ (ext : Externals F G) (co : Coordinator F G) where
    -- The attempt of the tick without faults, on the workers as they were before it.
    abbrev pub fault_free : Result WorkerFailure (Staged F)
    fault_free = attempt_tick ext co co.assignment no_faults (current_owners ext co)

    record IsAttempted (n remaining : ℕ) (t : Attempted ext) : Type 0 where
      pub at_least : n ≤ t.attempts
      pub at_most : t.attempts ≤ n + remaining
      pub same : OnOk (λ st. (fault_free ≡ ok st) × (suc n ≤ t.attempts)) t.outcome

    later_same :
        (n k : ℕ) (r : Result StepError (Staged F))
        → OnOk (λ st. (fault_free ≡ ok st) × (suc (suc n) ≤ k)) r
        → OnOk (λ st. (fault_free ≡ ok st) × (suc n ≤ k)) r
    later_same n k (err e) h = tt
    later_same n k (ok st) (h, l) = (h, omega arith)

    later :
        (n remaining : ℕ) (t : Attempted ext)
        → IsAttempted (suc n) remaining t
        → IsAttempted n (suc remaining) t
    later n remaining t h = record {
      at_least = omega (arith, h.at_least);
      at_most = omega (arith, h.at_most);
      same = later_same n t.attempts t.outcome h.same;
    }

    recovered-IsAttempted :
        (n remaining : ℕ) (next : Assignment → Attempted ext)
        → ((a : Assignment) → IsAttempted (suc n) remaining (next a))
        → (r : Assignment × Option RecoveryError)
        → IsAttempted n (suc remaining) (recover ext next (suc n) r)
    recovered-IsAttempted n remaining next h (a, none) = later n remaining (next a) (h a)
    recovered-IsAttempted n remaining next h (a, some e) = record {
      at_least = omega arith;
      at_most = omega arith;
      same = tt;
    }

    after_attempt-IsAttempted :
        (n remaining : ℕ) (next : WorkerFailure → Assignment → Attempted ext)
        → ((failure : WorkerFailure) (a : Assignment)
            → IsAttempted (suc n) remaining (next failure a))
        → (tick : ℕ) (a : Assignment) (r : Result WorkerFailure (Staged F)) → Follows r fault_free
        → IsAttempted n (suc remaining) (after_attempt ext next tick a (suc n) r)
    after_attempt-IsAttempted n remaining next h tick a (ok st) s = record {
      at_least = omega arith;
      at_most = omega arith;
      same = (s st refl, omega arith);
    }
    after_attempt-IsAttempted n remaining next h tick a (err failure) s =
        recovered-IsAttempted n remaining (next failure) (h failure)
          (handle_failure tick failure.worker_id a)

    attempts_from-IsAttempted :
        (faults : ℕ → FaultInjector) (remaining n : ℕ) (last : Option WorkerFailure)
        (a : Assignment)
        → IsAttempted n remaining
            (attempts_from ext co faults (current_owners ext co) remaining n last a)
    unfolding attempts_from
    attempts_from-IsAttempted faults zero n last a = record {
      at_least = omega arith;
      at_most = omega arith;
      same = tt;
    }
    attempts_from-IsAttempted faults (suc remaining) n last a =
        after_attempt-IsAttempted n remaining _
          (λ failure next. attempts_from-IsAttempted faults remaining (suc n) (some failure) next)
          co.clock.tick a _
          (attempt_tick-Follows ext co a co.assignment (faults (suc n)) (current_owners ext co))

    -- A committed tick: the state and the result are those of the attempt without faults.
    pub record IsCommitted (after : Coordinator F G) (result : DetectionResult F) (st : Staged F)
        : Type 0 where
      pub computed : fault_free ≡ ok st
      pub positions : after.world.state.positions ≡ st.state.positions
      pub velocities : after.world.state.velocities ≡ st.state.velocities
      pub active_mask : after.world.state.active_mask ≡ co.world.state.active_mask
      pub policies : after.world.state.movement_policy_ids ≡ co.world.state.movement_policy_ids
      pub goals : after.world.state.goal_positions ≡ co.world.state.goal_positions
      pub load_stats : after.last_load_stats ≡ st.load_stats
      pub detected : result ≡ st.result
      pub tick : after.clock.tick ≡ suc co.clock.tick
      pub some_attempt : 1 ≤ after.last_tick_attempts
      pub within_retries : after.last_tick_attempts ≤ co.worker_retry_limit

    -- A failed tick changes nothing but the assignment.
    pub record IsRolledBack (after : Coordinator F G) : Type 0 where
      pub world : after.world ≡ co.world
      pub clock : after.clock ≡ co.clock
      pub metrics : after.metrics ≡ co.metrics
      pub load_stats : after.last_load_stats ≡ co.last_load_stats

    abbrev pub IsStepped : Coordinator F G × Result StepError (DetectionResult F) → Type 0
    IsStepped (after, ok result) = (st : Staged F) × IsCommitted after result st
    IsStepped (after, err e) = IsRolledBack after

    commit-IsStepped :
        (tick_time : F) (a : Assignment) (n : ℕ) (r : Result StepError (Staged F))
        → n ≤ co.worker_retry_limit
        → OnOk (λ st. (fault_free ≡ ok st) × (1 ≤ n)) r
        → IsStepped (commit ext co tick_time a n r)
    unfolding advance
    commit-IsStepped tick_time a n (err e) l h = record {
      world = refl;
      clock = refl;
      metrics = refl;
      load_stats = refl;
    }
    commit-IsStepped tick_time a n (ok st) l (h, m) = (
      st,
      record {
        computed = h;
        positions = refl;
        velocities = refl;
        active_mask = refl;
        policies = refl;
        goals = refl;
        load_stats = refl;
        detected = refl;
        tick = refl;
        some_attempt = m;
        within_retries = l;
      },
    )

    -- Whatever faults are injected into the attempts of a tick of the coordinator, and whichever
    -- workers run the partitions: when the tick returns a result, it, the load statistics and the
    -- committed positions and velocities are those of the attempt without faults, the mask, the
    -- policies and the goals are as before, there was at least one attempt and at most the retry
    -- limit, and the clock is one tick further; when it raises an error, the world, the clock, the
    -- metrics and the load statistics are as before.
    pub coordinator_step-IsStepped :
        (faults : ℕ → FaultInjector) (tick_time : F)
        → IsStepped (coordinator_step ext co faults tick_time)
    unfolding coordinator_step
    coordinator_step-IsStepped faults tick_time =
        let t = attempt_all ext co faults in
        let h = attempts_from-IsAttempted faults co.worker_retry_limit 0 none co.assignment in
        commit-IsStepped tick_time t.assignment t.attempts t.outcome (omega (arith, h.at_most))
          h.same
