-- ===== src/Movement.antt =====
-- movement.py: the interface of a movement policy, and the random, the scripted and the
-- goal-directed one, each a batch of drones at a time.
pub mod Limits
pub mod Policies
pub mod Avoiding
pub mod Avoidance
pub mod Gate
pub mod Builder
pub mod Features
pub mod Dispatch
pub mod System
pub mod Unknown
pub mod Batches
pub mod Pace
pub mod Speed
use drone_swarm_simulator.Prelude.{
  ℕ, Bool, false, not, ◌&&◌, Option, none, some, List, [], ◌∷◌, map, length, get_or, if◌then◌else◌,
}
use drone_swarm_simulator.Prelude.Results.{Result, ok, err}
use drone_swarm_simulator.Numeric.{
  Floats, Vec3, zeros, vec_add, vec_sub, vec_div, vec_scale, norm, vec_to_float32, float_max,
  float_min, clip_between, nano,
}
use drone_swarm_simulator.Config.{SimulationConfig}
use drone_swarm_simulator.State.{DroneState}
use drone_swarm_simulator.Arrays.{gather, zip_with}
use drone_swarm_simulator.Arrays.Rows.{set_rows}

-- One row of `neighbor_features`, by the names of `FEATURE_NAMES`.
pub record NeighborFeatures (F : Type 0) : Type 0 where
  pub rel_pos : Vec3 F
  pub rel_vel : Vec3 F
  pub separation : F
  pub closing_speed : F
  pub time_to_closest_approach : F
  pub predicted_separation : F
  pub neighbor_count : F

pub record MovementContext (F : Type 0) : Type 0 where
  pub neighbor_features : List (NeighborFeatures F)
  pub neighbor_valid_mask : List Bool
  pub goal_vectors : Option (List (Vec3 F))

-- The `ValueError`s of the policies and of the dispatch.
pub data MovementError : Type 0 where
  no_goal_positions no_context unknown_policies : MovementError

-- The random generator: `rng.uniform(lo, hi, size=(n, 3))`, with the generator's next state.
pub record Generators (F G : Type 0) : Type 0 where
  pub uniform : F → F → ℕ → G → List (Vec3 F) × G

-- `update_velocities` returns the state and the generator that it updates in place.
pub record MovementAlgorithm (F G : Type 0) : Type 0 where
  pub requires_context : Bool
  pub update_velocities :
      DroneState F
      → List ℕ
      → G
      → SimulationConfig F
      → ℕ
      → Option (MovementContext F)
      → Result MovementError (DroneState F × G)

module _ {F : Type 0} ⦃f : Floats F⦄ where
  -- The rows `over` of a batch, scaled down to the limit.
  abbrev pub limit_length : F → Vec3 F → Vec3 F
  limit_length limit v =
      if f.lt limit (norm v) then vec_scale (f.div limit (float_max (norm v) nano)) v else v

  -- `_apply_accel_and_speed_limits`, for one row.
  unfoldable pub apply_accel_and_speed_limits : Vec3 F → Vec3 F → F → F → Vec3 F
  apply_accel_and_speed_limits current desired max_accel max_speed =
      limit_length max_speed (vec_add current (limit_length max_accel (vec_sub desired current)))

  abbrev pub arrived : SimulationConfig F → Vec3 F → Vec3 F → Bool
  arrived c position goal = f.le (norm (vec_sub goal position)) c.goal_tolerance

  abbrev pub goal_direction : SimulationConfig F → Vec3 F → Vec3 F → Vec3 F
  goal_direction c position goal =
      let to_goal = vec_sub goal position in
      if not (arrived c position goal) && f.lt nano (norm to_goal)
      then vec_div to_goal (norm to_goal)
      else zeros

  abbrev pub desired_velocity : SimulationConfig F → Vec3 F → Vec3 F → Vec3 F
  desired_velocity c position goal =
      let dist = norm (vec_sub goal position) in
      let desired_speed = float_min c.max_speed (f.div dist (float_max c.dt nano)) in
      if arrived c position goal
      then zeros
      else vec_scale desired_speed (goal_direction c position goal)

  -- The new velocity of one goal-directed drone.
  unfoldable pub goal_velocity : SimulationConfig F → Vec3 F → Vec3 F → Vec3 F → Vec3 F
  goal_velocity c position velocity goal =
      if arrived c position goal
      then vec_to_float32 zeros
      else vec_to_float32 (
          apply_accel_and_speed_limits velocity (desired_velocity c position goal) c.max_accel
            c.max_speed)

  abbrev pub goal_row : SimulationConfig F → DroneState F → List (Vec3 F) → ℕ → Vec3 F
  goal_row c s goals k =
      goal_velocity c (get_or s.positions k zeros) (get_or s.velocities k zeros)
        (get_or goals k zeros)

  -- `velocities[idx] = rows`.
  abbrev pub with_velocities : DroneState F → List ℕ → List (Vec3 F) → DroneState F
  with_velocities s idx rows = record s { velocities = set_rows s.velocities idx rows }

  abbrev pub steer :
      SimulationConfig F
      → DroneState F
      → List ℕ
      → Option (List (Vec3 F))
      → Result MovementError (DroneState F)
  steer c s idx none = err no_goal_positions
  steer c s idx (some goals) = ok (with_velocities s idx (map (goal_row c s goals) idx))

  unfoldable pub update_goal_directed :
      SimulationConfig F → DroneState F → List ℕ → Result MovementError (DroneState F)
  update_goal_directed c s [] = ok s
  update_goal_directed c s (k ∷ ks) = steer c s (k ∷ ks) s.goal_positions

  -- One row of the random walk: the velocity and its random acceleration, clipped on each axis.
  abbrev pub random_row : SimulationConfig F → Vec3 F → Vec3 F → Vec3 F
  random_row c velocity accel =
      let v = vec_to_float32 (vec_add velocity (vec_to_float32 accel)) in
      let lo = f.to_float32 (f.neg c.max_speed) in
      let hi = f.to_float32 c.max_speed in
      record { x = clip_between v.x lo hi; y = clip_between v.y lo hi; z = clip_between v.z lo hi }

  module _ {G : Type 0} where
    -- The generator is left as it is.
    abbrev pub with_generator :
        G → Result MovementError (DroneState F) → Result MovementError (DroneState F × G)
    with_generator rng (ok s) = ok (s, rng)
    with_generator rng (err e) = err e

    abbrev pub update_random :
        Generators F G → F → DroneState F → List ℕ → G → SimulationConfig F → DroneState F × G
    update_random gen accel_scale s [] rng c = (s, rng)
    update_random gen accel_scale s (k ∷ ks) rng c =
        let (accel, next) = gen.uniform (f.neg accel_scale) accel_scale (length (k ∷ ks)) rng in
        let rows = zip_with (random_row c) (gather zeros s.velocities (k ∷ ks)) accel in
        (with_velocities s (k ∷ ks) rows, next)

    unfoldable pub random_movement : Generators F G → F → MovementAlgorithm F G
    random_movement gen accel_scale = record {
      requires_context = false;
      update_velocities =
          λ s idx rng c tick context. ok (update_random gen accel_scale s idx rng c);
    }

    unfoldable pub scripted_movement : MovementAlgorithm F G
    scripted_movement = record {
      requires_context = false;
      update_velocities = λ s idx rng c tick context. ok (s, rng);
    }

    unfoldable pub goal_directed_movement : MovementAlgorithm F G
    unfolding update_goal_directed
    goal_directed_movement = record {
      requires_context = false;
      update_velocities =
          λ s idx rng c tick context. with_generator rng (update_goal_directed c s idx);
    }
