-- ===== src/Simulation.antt =====
-- simulation.py: the clock, the stages of a tick, and a run of ticks.
pub mod Stages
pub mod Ticks
use drone_swarm_simulator.Prelude.{
  ℕ, suc, Bool, true, false, ◌||◌, Option, none, some, List, [], ◌∷◌, length,
}
use drone_swarm_simulator.Prelude.Results.{Result, ok, ◌>>=◌}
use drone_swarm_simulator.Numeric.{Floats}
use drone_swarm_simulator.Config.{SimulationConfig}
use drone_swarm_simulator.State.{DroneState, World, active_indices}
use drone_swarm_simulator.Arrays.{Routines}
use drone_swarm_simulator.SpatialHash.{Built, init, build, candidate_pairs}
use drone_swarm_simulator.SpatialHash.Occupancy.{Occupancy, occupancy_of}
use drone_swarm_simulator.Collisions.{DetectionResult, detect, resolve}
use drone_swarm_simulator.Boundaries.{apply_boundaries}
use drone_swarm_simulator.Trajectory.{init_prediction, predict}
use drone_swarm_simulator.Movement.{MovementContext, MovementError}
use drone_swarm_simulator.Movement.Dispatch.{Registry, step_movement}
use drone_swarm_simulator.Movement.Builder.{Lexsorts, build_context}
use drone_swarm_simulator.Metrics.{TickMetrics, record_tick}

pub record SimulationClock (F : Type 0) : Type 0 where
  pub dt : F
  pub tick : ℕ
  pub time_s : F

-- The policies of `MovementSystem`, and the state of the random generator.
pub record SimulationEngine (F G : Type 0) : Type 0 where
  pub config : SimulationConfig F
  pub movement : Registry F G
  pub rng : G

-- The NumPy routines that a tick uses.
pub record Libraries (F : Type 0) : Type 0 where
  pub routines : Routines
  pub sorts : Lexsorts F

-- What a tick leaves: the world, the generator, and the detected pairs.
pub record Ticked (F G : Type 0) : Type 0 where
  pub world : World F
  pub rng : G
  pub result : DetectionResult F

-- The counts of `TickProfile`. The timings are left out.
pub record TickProfile (F : Type 0) : Type 0 where
  pub context_stages_skipped : Bool
  pub occupancy : Occupancy F
  pub candidate_pair_count : ℕ
  pub collision_pair_count : ℕ
  pub near_miss_pair_count : ℕ
  pub active_drone_count : ℕ

module _ {F : Type 0} ⦃f : Floats F⦄ where
  unfoldable pub advance : SimulationClock F → SimulationClock F
  advance k = record k { tick = suc k.tick; time_s = f.add k.time_s k.dt }

module _ {F G : Type 0} where
  abbrev pub any_requires_context : Registry F G → Bool
  any_requires_context [] = false
  any_requires_context ((pid, policy) ∷ rest) =
      let later = any_requires_context rest in policy.requires_context || later

  abbrev pub needs_context : SimulationEngine F G → Bool
  needs_context e = any_requires_context e.movement

  abbrev pub get_rng_state : SimulationEngine F G → G
  get_rng_state e = e.rng

  abbrev pub set_rng_state : SimulationEngine F G → G → SimulationEngine F G
  set_rng_state e g = record e { rng = g }

abbrev pub grid_of :
    {F : Type 0} ⦃f : Floats F⦄ → Routines → SimulationConfig F → DroneState F → Built
grid_of np c s = build np (init c) s.positions (active_indices s)

module _ {F : Type 0} ⦃f : Floats F⦄ (libs : Libraries F) where
  abbrev np : Routines
  np = libs.routines

  -- The prediction on the positions before the movement, for the policies, of a tick without a
  -- profile.
  abbrev pub pre_movement_context : SimulationConfig F → DroneState F → MovementContext F
  pre_movement_context c s =
      let pre_pairs = candidate_pairs np (init c) (grid_of np c s) in
      build_context libs.sorts s (predict (init_prediction c none) s pre_pairs) s.goal_positions

  abbrev pub context_for : Bool → SimulationConfig F → DroneState F → Option (MovementContext F)
  context_for true c s = some (pre_movement_context c s)
  context_for false c s = none

  -- The branch of a profiled tick that makes the context.
  abbrev pub profiled_context : SimulationConfig F → DroneState F → MovementContext F
  profiled_context c s =
      let pre_grid = build np (init c) s.positions (active_indices s) in
      let pre_pairs = candidate_pairs np (init c) pre_grid in
      let prediction = predict (init_prediction c none) s pre_pairs in
      build_context libs.sorts s prediction s.goal_positions

  -- The context of a profiled tick, and whether its stages were skipped.
  abbrev pub profiled_context_for :
      Bool → SimulationConfig F → DroneState F → Option (MovementContext F) × Bool
  profiled_context_for true c s = (some (profiled_context c s), false)
  profiled_context_for false c s = (none, true)

  -- The stages after the movement, of a tick without a profile.
  abbrev pub bounded : World F → DroneState F → World F
  bounded w moved = apply_boundaries (record w { state = moved })

  abbrev pub detected : SimulationConfig F → DroneState F → DetectionResult F
  detected c s = detect np c s.positions (init c) (grid_of np c s) none

  module _ {G : Type 0} where
    abbrev pub finish : SimulationConfig F → World F → G → DetectionResult F → Ticked F G
    finish c w rng result = record {
      world = record w { state = (resolve c w.state result).0 };
      rng = rng;
      result = result;
    }

    abbrev pub moved_state :
        SimulationEngine F G → World F → SimulationClock F → Result MovementError (DroneState F × G)
    moved_state e w k =
        step_movement e.movement w.state e.rng e.config k.tick
          (context_for (needs_context e) e.config w.state)

    abbrev pub plain_stages :
        SimulationConfig F → World F → DroneState F × G → Result MovementError (Ticked F G)
    plain_stages c w (moved, rng) =
        let after = bounded w moved in ok (finish c after rng (detected c after.state))

    -- `step` without a profile.
    unfoldable pub engine_step :
        SimulationEngine F G → World F → SimulationClock F → Result MovementError (Ticked F G)
    engine_step e w k = moved_state e w k >>= plain_stages e.config w

    -- The stages of a profiled tick after the movement, which has its own copy of them: the pairs
    -- are made before the detection, and handed in; the counts are read at the end.
    abbrev pub profiled_stages :
        SimulationEngine F G
        → World F
        → Bool
        → DroneState F × G
        → Result MovementError (Ticked F G × TickProfile F)
    profiled_stages e w skipped (moved, rng) =
        let after = apply_boundaries (record w { state = moved }) in
        let built = build np (init e.config) after.state.positions (active_indices after.state) in
        let post_pairs = candidate_pairs np (init e.config) built in
        let result =
          detect np e.config after.state.positions (init e.config) built (some post_pairs) in
        let resolved = (resolve e.config after.state result).0 in
        ok (
          record { world = record after { state = resolved }; rng = rng; result = result },
          record {
            context_stages_skipped = skipped;
            occupancy = occupancy_of built.counts;
            candidate_pair_count = length post_pairs;
            collision_pair_count = length result.collision_pairs;
            near_miss_pair_count = length result.near_miss_pairs;
            active_drone_count = length (active_indices resolved);
          },
        )

    -- `step` with a profile.
    unfoldable pub profiled_step :
        SimulationEngine F G
        → World F
        → SimulationClock F
        → Result MovementError (Ticked F G × TickProfile F)
    profiled_step e w k =
        let (context, skipped) = profiled_context_for (needs_context e) e.config w.state in
        step_movement e.movement w.state e.rng e.config k.tick context
        >>= profiled_stages e w skipped

pub record Simulation (F G : Type 0) : Type 0 where
  pub config : SimulationConfig F
  pub world : World F
  pub clock : SimulationClock F
  pub engine : SimulationEngine F G
  pub metrics : List (TickMetrics F)

module _ {F : Type 0} ⦃f : Floats F⦄ {G : Type 0} where
  -- `Simulation.__init__`, for a world that is handed in; `seeded` is `default_rng(seed + 1)`.
  unfoldable pub init_simulation : SimulationConfig F → Registry F G → World F → G → Simulation F G
  init_simulation c movement w seeded = record {
    config = c;
    world = w;
    clock = record { dt = c.dt; tick = 0; time_s = f.of_ℕ 0 };
    engine = record { config = c; movement = movement; rng = seeded };
    metrics = [];
  }

  abbrev pub tick_metrics : Simulation F G → F → Ticked F G → TickMetrics F
  tick_metrics sim tick_time t = record {
    tick = sim.clock.tick;
    tick_time_s = tick_time;
    candidate_pairs = t.result.num_candidate_pairs;
    collisions = length t.result.collision_pairs;
    near_misses = length t.result.near_miss_pairs;
    active_drones = length (active_indices t.world.state);
  }

  abbrev pub after_tick : Simulation F G → F → Ticked F G → Simulation F G
  after_tick sim tick_time t = record {
    config = sim.config;
    world = t.world;
    clock = advance sim.clock;
    engine = set_rng_state sim.engine t.rng;
    metrics = record_tick sim.metrics (tick_metrics sim tick_time t);
  }

  -- `Simulation.step`; `tick_time` is what the stopwatch reads.
  unfoldable pub step :
      Libraries F → Simulation F G → F → Result MovementError (Simulation F G × DetectionResult F)
  unfolding engine_step advance
  step libs sim tick_time = do
    t ← engine_step libs sim.engine sim.world sim.clock
    ok (after_tick sim tick_time t, t.result)

  -- `run`: one tick for each reading of the stopwatch.
  unfoldable pub run : Libraries F → Simulation F G → List F → Result MovementError (Simulation F G)
  unfolding step
  run libs sim [] = ok sim
  run libs sim (t ∷ times) = do (next, result) ← step libs sim t; run libs next times
