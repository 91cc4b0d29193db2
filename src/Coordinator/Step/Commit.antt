-- ===== src/Coordinator/Step/Commit.antt =====
-- The loop of attempts of `DistributedCoordinator.step`, and its one commit.
use drone_swarm_simulator.Prelude.{
  ℕ, zero, suc, ◌%◌, Option, none, some, List, length, ◌==◌, if◌then◌else◌,
}
use drone_swarm_simulator.Prelude.Results.{Result, ok, err}
use drone_swarm_simulator.Numeric.{Floats}
use drone_swarm_simulator.State.{DroneState, active_indices}
use drone_swarm_simulator.Collisions.{DetectionResult}
use drone_swarm_simulator.Partition.{assign}
use drone_swarm_simulator.Worker.Movement.{WorkerFailure, FaultInjector}
use drone_swarm_simulator.Workers.{Assignment, RecoveryError, handle_failure}
use drone_swarm_simulator.Workers.Balance.{PartitionLoadStats, maybe_rebalance}
use drone_swarm_simulator.Metrics.{TickMetrics, record_tick}
use drone_swarm_simulator.Simulation.{advance}
use drone_swarm_simulator.Coordinator.Step.{Externals, Coordinator, Staged, attempt_tick}

-- `TickCommitError`, and the error when no worker is left.
pub data StepError : Type 0 where
  tick_not_committed : ℕ → ℕ → WorkerFailure → StepError
  no_attempt : StepError
  recovery_failed : RecoveryError → StepError

module _ {F : Type 0} ⦃f : Floats F⦄ {G : Type 0} (ext : Externals F G) where
  -- How the loop of attempts ends, with the assignment that the failures left.
  pub record Attempted : Type 0 where
    pub assignment : Assignment
    pub attempts : ℕ
    pub outcome : Result StepError (Staged F)

  abbrev pub succeeded : Assignment → ℕ → Staged F → Attempted
  succeeded a n staged = record { assignment = a; attempts = n; outcome = ok staged }

  abbrev pub stopped_by : Assignment → ℕ → StepError → Attempted
  stopped_by a n e = record { assignment = a; attempts = n; outcome = err e }

  -- After `_handle_failure`: the next attempt, unless no worker is left.
  abbrev pub recover : (Assignment → Attempted) → ℕ → Assignment × Option RecoveryError → Attempted
  recover next n (a, none) = next a
  recover next n (a, some e) = stopped_by a n (recovery_failed e)

  abbrev pub after_attempt :
      (WorkerFailure → Assignment → Attempted)
      → ℕ
      → Assignment
      → ℕ
      → Result WorkerFailure (Staged F)
      → Attempted
  after_attempt next tick a n (ok staged) = succeeded a n staged
  after_attempt next tick a n (err failure) =
      recover (next failure) n (handle_failure tick failure.worker_id a)

  -- `attempt == worker_retry_limit`: the last failure is what is reported.
  abbrev pub exhausted : ℕ → ℕ → Option WorkerFailure → StepError
  exhausted tick n none = no_attempt
  exhausted tick n (some failure) = tick_not_committed tick n failure

  -- The loop of `step`, for the attempts that remain after `n` of them; `faults` has the injector
  -- of each attempt.
  unfoldable pub attempts_from :
      Coordinator F G
      → (ℕ → FaultInjector)
      → List ℕ
      → ℕ
      → ℕ
      → Option WorkerFailure
      → Assignment
      → Attempted
  unfolding attempt_tick
  attempts_from co faults owners zero n last a = stopped_by a n (exhausted co.clock.tick n last)
  attempts_from co faults owners (suc remaining) n last a =
      after_attempt
        (λ failure next. attempts_from co faults owners remaining (suc n) (some failure) next)
        co.clock.tick a (suc n) (attempt_tick ext co a (faults (suc n)) owners)

  abbrev pub current_owners : Coordinator F G → List ℕ
  current_owners co = assign ext.float_routines co.partition_grid co.world.state.positions

  abbrev pub committed_state : Coordinator F G → Staged F → DroneState F
  committed_state co staged = record co.world.state {
    positions = staged.state.positions;
    velocities = staged.state.velocities;
  }

  abbrev pub step_metrics : Coordinator F G → F → Staged F → TickMetrics F
  step_metrics co tick_time staged = record {
    tick = co.clock.tick;
    tick_time_s = tick_time;
    candidate_pairs = staged.result.num_candidate_pairs;
    collisions = length staged.result.collision_pairs;
    near_misses = length staged.result.near_miss_pairs;
    active_drones = length (active_indices co.world.state);
  }

  abbrev pub rebalanced : Coordinator F G → Assignment → List PartitionLoadStats → Assignment
  rebalanced co a stats =
      if suc co.clock.tick % co.rebalance_interval_ticks == 0
      then maybe_rebalance (suc co.clock.tick) co.rebalance_imbalance_threshold stats a
      else a

  -- The commit, the metrics, the clock and the rebalancing; a failed tick keeps only the
  -- assignment that its failures left.
  abbrev pub commit :
      Coordinator F G
      → F
      → Assignment
      → ℕ
      → Result StepError (Staged F)
      → Coordinator F G × Result StepError (DetectionResult F)
  commit co tick_time a n (ok staged) = (
    record co {
      world = record co.world { state = committed_state co staged };
      clock = advance co.clock;
      metrics = record_tick co.metrics (step_metrics co tick_time staged);
      assignment = rebalanced co a staged.load_stats;
      last_load_stats = staged.load_stats;
      last_tick_attempts = n;
    },
    ok staged.result,
  )
  commit co tick_time a n (err e) = (record co { assignment = a }, err e)

  abbrev pub attempt_all : Coordinator F G → (ℕ → FaultInjector) → Attempted
  attempt_all co faults =
      attempts_from co faults (current_owners co) co.worker_retry_limit 0 none co.assignment

  -- `step`.
  unfoldable pub coordinator_step :
      Coordinator F G
      → (ℕ → FaultInjector)
      → F
      → Coordinator F G × Result StepError (DetectionResult F)
  unfolding attempts_from advance
  coordinator_step co faults tick_time =
      let t = attempt_all co faults in commit co tick_time t.assignment t.attempts t.outcome
