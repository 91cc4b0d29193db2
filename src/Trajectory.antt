-- ===== src/Trajectory.antt =====
-- trajectory.py: how close two drones come when they keep their velocities, and the risk.
pub mod Risk
use drone_swarm_simulator.Prelude.{
  ℕ, suc, Bool, true, false, ◌||◌, Option, List, [], ◌∷◌, map, length, get_or, if◌then◌else◌,
}
use drone_swarm_simulator.Numeric.{
  Floats, Vec3, zeros, vec_add, vec_sub, vec_scale, dot, clip_between, pico,
}
use drone_swarm_simulator.Config.{SimulationConfig, get_or_else}
use drone_swarm_simulator.State.{DroneState}

pub data PredictedRisk : Type 0 where
  predicted_collision predicted_near_miss currently_safe : PredictedRisk
  not_closing_or_outside_horizon : PredictedRisk

pub record PredictionResult (F : Type 0) : Type 0 where
  pub pairs : List (ℕ × ℕ)
  pub time_to_closest_approach : List F
  pub predicted_separation : List F
  pub risk : List PredictedRisk

abbrev pub is_risk : PredictedRisk → PredictedRisk → Bool
is_risk predicted_collision predicted_collision = true
is_risk predicted_near_miss predicted_near_miss = true
is_risk currently_safe currently_safe = true
is_risk not_closing_or_outside_horizon not_closing_or_outside_horizon = true
is_risk _ _ = false

module _ {F : Type 0} where
  abbrev pub num_pairs : PredictionResult F → ℕ
  num_pairs r = length r.pairs

-- `np.count_nonzero(risk == wanted)`.
abbrev pub count_risk : PredictedRisk → List PredictedRisk → ℕ
count_risk wanted [] = 0
count_risk wanted (r ∷ rest) =
    let later = count_risk wanted rest in if is_risk r wanted then suc later else later

-- `TrajectoryPredictionService.__init__`.
pub record PredictionService (F : Type 0) : Type 0 where
  pub config : SimulationConfig F
  pub prediction_horizon : F

abbrev pub init_prediction : {F : Type 0} → SimulationConfig F → Option F → PredictionService F
init_prediction c horizon = record {
  config = c;
  prediction_horizon = get_or_else horizon c.prediction_horizon;
}

module _ {F : Type 0} ⦃f : Floats F⦄ where
  abbrev pub relative_position : DroneState F → ℕ × ℕ → Vec3 F
  relative_position s (i, j) = vec_sub (get_or s.positions j zeros) (get_or s.positions i zeros)

  abbrev pub relative_velocity : DroneState F → ℕ × ℕ → Vec3 F
  relative_velocity s (i, j) = vec_sub (get_or s.velocities j zeros) (get_or s.velocities i zeros)

  -- The entries of `denom`, `raw_ttca`, `time_to_closest_approach` and `predicted_separation`.
  abbrev pub speed_square : DroneState F → ℕ × ℕ → F
  speed_square s q = dot (relative_velocity s q) (relative_velocity s q)

  abbrev pub raw_ttca : DroneState F → ℕ × ℕ → F
  raw_ttca s q =
      let numer = f.neg (dot (relative_position s q) (relative_velocity s q)) in
      if f.lt pico (speed_square s q) then f.div numer (speed_square s q) else f.of_ℕ 0

  abbrev pub closest_time : F → DroneState F → ℕ × ℕ → F
  closest_time horizon s q = clip_between (raw_ttca s q) (f.of_ℕ 0) horizon

  abbrev pub separation_at_closest : F → DroneState F → ℕ × ℕ → F
  separation_at_closest horizon s q =
      let delta =
        vec_add (relative_position s q)
          (vec_scale (closest_time horizon s q) (relative_velocity s q)) in
      f.sqrt (dot delta delta)

  abbrev pub not_closing_or_outside : F → DroneState F → ℕ × ℕ → Bool
  not_closing_or_outside horizon s q =
      f.le (speed_square s q) pico
      || (f.le (raw_ttca s q) (f.of_ℕ 0) || f.lt horizon (raw_ttca s q))

  -- The masked assignments of `risk`, the last one first.
  abbrev pub risk_of : SimulationConfig F → F → DroneState F → ℕ × ℕ → PredictedRisk
  risk_of c horizon s q =
      if f.le (separation_at_closest horizon s q) c.collision_radius
      then predicted_collision
      else if f.le (separation_at_closest horizon s q) c.near_miss_radius
      then predicted_near_miss
      else if not_closing_or_outside horizon s q
      then not_closing_or_outside_horizon
      else currently_safe

  unfoldable pub predict : PredictionService F → DroneState F → List (ℕ × ℕ) → PredictionResult F
  predict service s [] = record {
    pairs = [];
    time_to_closest_approach = [];
    predicted_separation = [];
    risk = [];
  }
  predict service s (q ∷ rest) =
      let horizon = service.prediction_horizon in
      record {
        pairs = q ∷ rest;
        time_to_closest_approach = map (closest_time horizon s) (q ∷ rest);
        predicted_separation = map (separation_at_closest horizon s) (q ∷ rest);
        risk = map (risk_of service.config horizon s) (q ∷ rest);
      }
