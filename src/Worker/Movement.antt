-- ===== src/Worker/Movement.antt =====
-- The movement phase of a worker, faults, and the batches of jobs of a tick.
use drone_swarm_simulator.Prelude.{ℕ, Bool, none, List, [], ◌∷◌, if◌then◌else◌}
use drone_swarm_simulator.Prelude.Results.{Result, ok, err, ◌>>=◌}
use drone_swarm_simulator.Numeric.{Floats, Vec3}
use drone_swarm_simulator.Config.{SimulationConfig}
use drone_swarm_simulator.State.{DroneState, World}
use drone_swarm_simulator.Arrays.{Routines}
use drone_swarm_simulator.Boundaries.{apply_boundaries}
use drone_swarm_simulator.Movement.{MovementError}
use drone_swarm_simulator.Movement.Dispatch.{Registry, step_movement}
use drone_swarm_simulator.Worker.{WorkerDetectionInput, WorkerDetectionResult, run_detection_phase}

pub data Phase : Type 0 where
  movement_phase detection_phase : Phase

-- What a failed task was stopped by.
pub data Cause : Type 0 where
  injected_fault : Cause
  raised : MovementError → Cause

pub record WorkerFailure : Type 0 where
  pub worker_id : ℕ
  pub partition_id : ℕ
  pub tick : ℕ
  pub phase : Phase
  pub cause : Cause

-- `FaultInjector`: whether the task of a worker fails, by worker, tick and phase.
abbrev pub FaultInjector : Type 0
FaultInjector = ℕ → ℕ → Phase → Bool

-- `rng` is the generator that `default_rng(rng_seed)` makes.
pub record WorkerMovementInput (F G : Type 0) : Type 0 where
  pub partition_id : ℕ
  pub tick : ℕ
  pub config : SimulationConfig F
  pub movement : Registry F G
  pub state : DroneState F
  pub global_ids : List ℕ
  pub rng : G

pub record WorkerMovementResult (F : Type 0) : Type 0 where
  pub partition_id : ℕ
  pub positions : List (Vec3 F)
  pub velocities : List (Vec3 F)
  pub global_ids : List ℕ

-- `_maybe_fail`.
abbrev pub maybe_fail : FaultInjector → ℕ → ℕ → ℕ → Phase → Result WorkerFailure (Unit {0})
maybe_fail injector w p tick phase =
    if injector w tick phase
    then err (record {
      worker_id = w;
      partition_id = p;
      tick = tick;
      phase = phase;
      cause = injected_fault;
    })
    else ok tt

-- An exception of a task becomes a failure of its worker.
abbrev pub wrap : {A : Type 0} → ℕ → ℕ → ℕ → Result MovementError A → Result WorkerFailure A
wrap w p tick (ok a) = ok a
wrap w p tick (err e) = err (record {
  worker_id = w;
  partition_id = p;
  tick = tick;
  phase = movement_phase;
  cause = raised e;
})

module _ {F : Type 0} ⦃f : Floats F⦄ {G : Type 0} where
  abbrev pub moved_rows : WorkerMovementInput F G → DroneState F × G → WorkerMovementResult F
  moved_rows inp (moved, rng) =
      let w : World F = record { config = inp.config; state = moved } in
      record {
        partition_id = inp.partition_id;
        positions = (apply_boundaries w).state.positions;
        velocities = (apply_boundaries w).state.velocities;
        global_ids = inp.global_ids;
      }

  -- `Worker.run_movement_phase`.
  unfoldable pub run_movement_phase :
      WorkerMovementInput F G → Result MovementError (WorkerMovementResult F)
  run_movement_phase inp =
      step_movement inp.movement inp.state inp.rng inp.config inp.tick none >>= λ s.
      ok (moved_rows inp s)

  -- `WorkerPool.run_movement`.
  unfoldable pub run_movement :
      FaultInjector → ℕ → WorkerMovementInput F G → Result WorkerFailure (WorkerMovementResult F)
  unfolding run_movement_phase
  run_movement injector w inp =
      maybe_fail injector w inp.partition_id inp.tick movement_phase >>= λ u.
      wrap w inp.partition_id inp.tick (run_movement_phase inp)

  -- `run_movement_batch`: the first failing job ends it.
  unfoldable pub run_movement_batch :
      FaultInjector
      → List (ℕ × WorkerMovementInput F G)
      → Result WorkerFailure (List (WorkerMovementResult F))
  unfolding run_movement
  run_movement_batch injector [] = ok []
  run_movement_batch injector ((w, inp) ∷ jobs) = do
    result ← run_movement injector w inp
    rest ← run_movement_batch injector jobs
    ok (result ∷ rest)

module _ {F : Type 0} ⦃f : Floats F⦄ where
  -- `WorkerPool.run_detection`; the tick is the coordinator's.
  unfoldable pub run_detection :
      Routines
      → FaultInjector
      → ℕ
      → ℕ
      → WorkerDetectionInput F
      → Result WorkerFailure (WorkerDetectionResult F)
  run_detection np injector tick w inp =
      maybe_fail injector w inp.partition_id tick detection_phase >>= λ u.
      ok (run_detection_phase np inp)

  unfoldable pub run_detection_batch :
      Routines
      → FaultInjector
      → ℕ
      → List (ℕ × WorkerDetectionInput F)
      → Result WorkerFailure (List (WorkerDetectionResult F))
  unfolding run_detection
  run_detection_batch np injector tick [] = ok []
  run_detection_batch np injector tick ((w, inp) ∷ jobs) = do
    result ← run_detection np injector tick w inp
    rest ← run_detection_batch np injector tick jobs
    ok (result ∷ rest)
