-- ===== src/Coordinator/Step.antt =====
-- The coordinator's state, and one attempt of `DistributedCoordinator.step`, on a staged copy.
pub mod Commit
pub mod Faults
pub mod Attempts
pub mod Recovers
use drone_swarm_simulator.Prelude.{
  ℕ, suc, false, Option, none, some, List, [], ◌∷◌, map, get_or, range,
}
use drone_swarm_simulator.Prelude.Results.{Result, ok, ◌>>=◌}
use drone_swarm_simulator.Numeric.{Floats, Vec3, zeros}
use drone_swarm_simulator.Config.{SimulationConfig}
use drone_swarm_simulator.State.{DroneState, World, num_drones}
use drone_swarm_simulator.Arrays.{Routines, gather}
use drone_swarm_simulator.Arrays.Rows.{set_rows}
use drone_swarm_simulator.Collisions.{DetectionResult, resolve}
use drone_swarm_simulator.Partition.{PartitionGrid, FloatRoutines}
use drone_swarm_simulator.Worker.{WorkerDetectionInput, WorkerDetectionResult}
use drone_swarm_simulator.Worker.Movement.{
  WorkerFailure, FaultInjector, WorkerMovementInput, WorkerMovementResult, run_movement_batch,
  run_detection_batch,
}
use drone_swarm_simulator.Workers.{Assignment}
use drone_swarm_simulator.Workers.Balance.{PartitionLoadStats}
use drone_swarm_simulator.Movement.Dispatch.{Registry}
use drone_swarm_simulator.Metrics.{TickMetrics}
use drone_swarm_simulator.Simulation.{SimulationClock}
use drone_swarm_simulator.Coordinator.{active_owned, detection_jobs, merge_detection_results}

-- The routines of NumPy, and `default_rng` of a seed, a tick and a partition.
pub record Externals (F G : Type 0) : Type 0 where
  pub routines : Routines
  pub float_routines : FloatRoutines F
  pub derive_generator : ℕ → ℕ → G

pub record Coordinator (F G : Type 0) : Type 0 where
  pub config : SimulationConfig F
  pub movement : Registry F G
  pub worker_retry_limit : ℕ
  pub rebalance_interval_ticks : ℕ
  pub rebalance_imbalance_threshold : F
  pub partition_grid : PartitionGrid F
  pub halo_distance : F
  pub world : World F
  pub clock : SimulationClock F
  pub metrics : List (TickMetrics F)
  pub assignment : Assignment
  pub last_load_stats : List PartitionLoadStats
  pub last_tick_attempts : ℕ

-- What an attempt makes: the staged state, the merged result, and the load of each partition.
pub record Staged (F : Type 0) : Type 0 where
  pub state : DroneState F
  pub result : DetectionResult F
  pub load_stats : List PartitionLoadStats

abbrev pub goals_of :
    {F : Type 0} ⦃f : Floats F⦄ → Option (List (Vec3 F)) → List ℕ → Option (List (Vec3 F))
goals_of none idx = none
goals_of (some goals) idx = some (gather zeros goals idx)

abbrev pub load_stats_of : {F : Type 0} → List (WorkerDetectionResult F) → List PartitionLoadStats
load_stats_of results =
    map
      (λ r. record {
        partition_id = r.partition_id;
        owned_drone_count = r.owned_drone_count;
        ghost_drone_count = r.ghost_drone_count;
        candidate_pair_count = r.candidate_pair_count;
      })
      results

module _ {F : Type 0} ⦃f : Floats F⦄ where
  -- The rows of a batch's results, written into the staged array.
  abbrev pub stage_positions : List (Vec3 F) → List (WorkerMovementResult F) → List (Vec3 F)
  stage_positions staged [] = staged
  stage_positions staged (r ∷ rest) =
      stage_positions (set_rows staged r.global_ids r.positions) rest

  abbrev pub stage_velocities : List (Vec3 F) → List (WorkerMovementResult F) → List (Vec3 F)
  stage_velocities staged [] = staged
  stage_velocities staged (r ∷ rest) =
      stage_velocities (set_rows staged r.global_ids r.velocities) rest

  -- The rows of one partition's drones.
  abbrev pub rows_of : DroneState F → List ℕ → DroneState F
  rows_of s idx = record {
    positions = gather zeros s.positions idx;
    velocities = gather zeros s.velocities idx;
    active_mask = gather false s.active_mask idx;
    movement_policy_ids = gather 0 s.movement_policy_ids idx;
    goal_positions = goals_of s.goal_positions idx;
  }

-- Each partition's job goes to its worker.
abbrev pub to_workers : {J : Type 0} → List ℕ → (ℕ → J) → List ℕ → List (ℕ × J)
to_workers workers job [] = []
to_workers workers job (p ∷ ps) = (get_or workers p 0, job p) ∷ to_workers workers job ps

-- The jobs of the partitions `p`, `p + 1`, ... in their order.
abbrev pub with_workers : {J : Type 0} → List ℕ → ℕ → List J → List (ℕ × J)
with_workers workers p [] = []
with_workers workers p (job ∷ jobs) = (get_or workers p 0, job) ∷ with_workers workers (suc p) jobs

module _ {F : Type 0} ⦃f : Floats F⦄ {G : Type 0} (ext : Externals F G) where
  abbrev pub owned_by : Coordinator F G → List ℕ → ℕ → List ℕ
  owned_by co owners p =
      active_owned owners co.world.state.active_mask (num_drones co.world.state) p

  abbrev pub movement_input : Coordinator F G → List ℕ → ℕ → WorkerMovementInput F G
  movement_input co owners p = record {
    partition_id = p;
    tick = co.clock.tick;
    config = co.config;
    movement = co.movement;
    state = rows_of co.world.state (owned_by co owners p);
    global_ids = owned_by co owners p;
    rng = ext.derive_generator co.clock.tick p;
  }

  abbrev pub movement_jobs :
      Coordinator F G → Assignment → List ℕ → List (ℕ × WorkerMovementInput F G)
  movement_jobs co a owners =
      to_workers a.partition_worker (movement_input co owners)
        (range co.partition_grid.num_partitions)

  abbrev pub staged_detection_jobs :
      Coordinator F G → Assignment → List ℕ → List (Vec3 F) → List (ℕ × WorkerDetectionInput F)
  staged_detection_jobs co a owners staged =
      with_workers a.partition_worker 0
        (detection_jobs co.config co.partition_grid staged (owned_by co owners) co.halo_distance)

  abbrev pub resolved :
      Coordinator F G
      → List ℕ
      → List (Vec3 F)
      → List (Vec3 F)
      → List (WorkerDetectionResult F)
      → Staged F
  resolved co owners positions velocities results =
      let merged = merge_detection_results results owners in
      let staged = record co.world.state { positions = positions; velocities = velocities } in
      record {
        state = (resolve co.config staged merged).0;
        result = merged;
        load_stats = load_stats_of results;
      }

  abbrev pub detect_and_resolve :
      Coordinator F G
      → Assignment
      → FaultInjector
      → List ℕ
      → List (WorkerMovementResult F)
      → Result WorkerFailure (Staged F)
  detect_and_resolve co a injector owners moved =
      let positions = stage_positions co.world.state.positions moved in
      let velocities = stage_velocities co.world.state.velocities moved in
      run_detection_batch ext.routines injector co.clock.tick
        (staged_detection_jobs co a owners positions)
      >>= λ results. ok (resolved co owners positions velocities results)

  -- `_attempt_tick`.
  unfoldable pub attempt_tick :
      Coordinator F G → Assignment → FaultInjector → List ℕ → Result WorkerFailure (Staged F)
  attempt_tick co a injector owners =
      run_movement_batch injector (movement_jobs co a owners) >>= λ moved.
      detect_and_resolve co a injector owners moved
