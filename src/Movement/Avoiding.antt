-- ===== src/Movement/Avoiding.antt =====
-- movement.py: `LocalAvoidanceMovementAlgorithm`, the correction of a goal-directed velocity.
use drone_swarm_simulator.Prelude.{
  ℕ, Bool, true, false, Option, none, some, List, [], ◌∷◌, map, get_or, if◌then◌else◌,
}
use drone_swarm_simulator.Prelude.Results.{Result, ok, err, ◌>>=◌}
use drone_swarm_simulator.Numeric.{
  Floats, Vec3, zeros, vec_add, vec_div, vec_scale, vec_neg, vec_to_float32, float_max,
  clip_between, nano,
}
use drone_swarm_simulator.Config.{SimulationConfig, effective_avoidance_max_accel}
use drone_swarm_simulator.Boundaries.{any}
use drone_swarm_simulator.State.{DroneState}
use drone_swarm_simulator.Arrays.{gather}
use drone_swarm_simulator.Movement.{
  no_context, MovementAlgorithm, MovementContext, MovementError, NeighborFeatures, limit_length,
  update_goal_directed, with_generator, with_velocities,
}

module _ {F : Type 0} ⦃f : Floats F⦄ where
  -- The correction of one row: away from the most urgent threat, at most the limit.
  abbrev pub away_from : NeighborFeatures F → Vec3 F
  away_from feats =
      if f.lt nano feats.separation then vec_div (vec_neg feats.rel_pos) feats.separation else zeros

  abbrev pub dist_urgency : SimulationConfig F → NeighborFeatures F → F
  dist_urgency c feats =
      clip_between
        (f.sub (f.of_ℕ 1) (f.div feats.predicted_separation (float_max c.near_miss_radius nano)))
        (f.of_ℕ 0) (f.of_ℕ 1)

  abbrev pub time_urgency : SimulationConfig F → NeighborFeatures F → F
  time_urgency c feats =
      clip_between
        (f.sub (f.of_ℕ 1)
          (f.div feats.time_to_closest_approach (float_max c.prediction_horizon nano)))
        (f.of_ℕ 0) (f.of_ℕ 1)

  abbrev pub urgency : SimulationConfig F → Bool → NeighborFeatures F → F
  urgency c valid feats =
      if valid
      then f.mul (dist_urgency c feats) (f.add f.half (f.mul f.half (time_urgency c feats)))
      else f.of_ℕ 0

  abbrev pub correction : SimulationConfig F → Bool → NeighborFeatures F → Vec3 F
  correction c valid feats =
      let max_avoid_accel = effective_avoidance_max_accel c in
      let strength = f.mul (f.mul (urgency c valid feats) c.avoidance_strength) max_avoid_accel in
      limit_length max_avoid_accel (vec_scale strength (away_from feats))

  -- The new velocity of one avoiding drone, from its goal-directed velocity.
  unfoldable pub avoiding_velocity :
      SimulationConfig F → Bool → NeighborFeatures F → Vec3 F → Vec3 F
  avoiding_velocity c valid feats desired =
      vec_to_float32 (limit_length c.max_speed (vec_add desired (correction c valid feats)))

  abbrev pub no_features : NeighborFeatures F
  no_features = record {
    rel_pos = zeros;
    rel_vel = zeros;
    separation = f.of_ℕ 0;
    closing_speed = f.of_ℕ 0;
    time_to_closest_approach = f.of_ℕ 0;
    predicted_separation = f.of_ℕ 0;
    neighbor_count = f.of_ℕ 0;
  }

  abbrev pub avoiding_row : SimulationConfig F → MovementContext F → List (Vec3 F) → ℕ → Vec3 F
  avoiding_row c context velocities k =
      avoiding_velocity c (get_or context.neighbor_valid_mask k false)
        (get_or context.neighbor_features k no_features) (get_or velocities k zeros)

  abbrev pub avoid : SimulationConfig F → MovementContext F → List ℕ → DroneState F → DroneState F
  avoid c context idx s =
      if any (gather false context.neighbor_valid_mask idx)
      then with_velocities s idx (map (avoiding_row c context s.velocities) idx)
      else s

  unfoldable pub update_local_avoidance :
      SimulationConfig F
      → DroneState F
      → List ℕ
      → Option (MovementContext F)
      → Result MovementError (DroneState F)
  unfolding update_goal_directed
  update_local_avoidance c s [] context = ok s
  update_local_avoidance c s (k ∷ ks) none = err no_context
  update_local_avoidance c s (k ∷ ks) (some context) = do
    steered ← update_goal_directed c s (k ∷ ks)
    ok (avoid c context (k ∷ ks) steered)

  module _ {G : Type 0} where
    unfoldable pub local_avoidance_movement : MovementAlgorithm F G
    unfolding update_local_avoidance
    local_avoidance_movement = record {
      requires_context = true;
      update_velocities =
          λ s idx rng c tick context. with_generator rng (update_local_avoidance c s idx context);
    }
