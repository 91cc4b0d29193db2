-- ===== src/Worker.antt =====
-- worker.py: the detection phase of a worker, for one partition's drones and the ghosts of its
-- neighbours.
pub mod Detection
pub mod Movement
pub mod Report
use drone_swarm_simulator.Prelude.{
  ℕ, min, max, some, List, ◌++◌, map, length, get_or, range, ltb, if◌then◌else◌,
}
use drone_swarm_simulator.Numeric.{Floats, Vec3, zeros}
use drone_swarm_simulator.Config.{SimulationConfig}
use drone_swarm_simulator.Arrays.{Routines, gather}
use drone_swarm_simulator.SpatialHash.{init, build, candidate_pairs}
use drone_swarm_simulator.Collisions.{detect}

pub record WorkerDetectionInput (F : Type 0) : Type 0 where
  pub partition_id : ℕ
  pub config : SimulationConfig F
  pub owned_global_ids : List ℕ
  pub owned_positions : List (Vec3 F)
  pub ghost_global_ids : List ℕ
  pub ghost_positions : List (Vec3 F)

pub record WorkerDetectionResult (F : Type 0) : Type 0 where
  pub partition_id : ℕ
  pub collision_pairs : List (ℕ × ℕ)
  pub collision_distances : List F
  pub near_miss_pairs : List (ℕ × ℕ)
  pub near_miss_distances : List F
  pub candidate_pairs : List (ℕ × ℕ)
  pub candidate_pair_count : ℕ
  pub owned_drone_count : ℕ
  pub ghost_drone_count : ℕ

module _ {F : Type 0} ⦃f : Floats F⦄ where
  -- What the coordinator sends: rows of the staged positions.
  unfoldable pub detection_input :
      ℕ → SimulationConfig F → List (Vec3 F) → List ℕ → List ℕ → WorkerDetectionInput F
  detection_input p c staged owned ghosts = record {
    partition_id = p;
    config = c;
    owned_global_ids = owned;
    owned_positions = gather zeros staged owned;
    ghost_global_ids = ghosts;
    ghost_positions = gather zeros staged ghosts;
  }

-- A pair of local rows as a pair of drone ids, the smaller one first.
abbrev pub global_pair : List ℕ → ℕ × ℕ → ℕ × ℕ
global_pair ids (a, b) =
    (min (get_or ids a 0) (get_or ids b 0), max (get_or ids a 0) (get_or ids b 0))

abbrev pub to_global_pairs : List (ℕ × ℕ) → List ℕ → List (ℕ × ℕ)
to_global_pairs pairs ids = map (global_pair ids) pairs

module _ {F : Type 0} where
  abbrev pub combined_positions : WorkerDetectionInput F → List (Vec3 F)
  combined_positions inp =
      if ltb 0 (length inp.ghost_positions)
      then inp.owned_positions ++ inp.ghost_positions
      else inp.owned_positions

  abbrev pub combined_global_ids : WorkerDetectionInput F → List ℕ
  combined_global_ids inp =
      if ltb 0 (length inp.ghost_positions)
      then inp.owned_global_ids ++ inp.ghost_global_ids
      else inp.owned_global_ids

module _ {F : Type 0} ⦃f : Floats F⦄ where
  unfoldable pub run_detection_phase : Routines → WorkerDetectionInput F → WorkerDetectionResult F
  run_detection_phase np inp =
      let positions = combined_positions inp in
      let ids = combined_global_ids inp in
      let grid = init inp.config in
      let built = build np grid positions (range (length positions)) in
      let local_pairs = candidate_pairs np grid built in
      let result = detect np inp.config positions grid built (some local_pairs) in
      record {
        partition_id = inp.partition_id;
        collision_pairs = to_global_pairs result.collision_pairs ids;
        collision_distances = result.collision_distances;
        near_miss_pairs = to_global_pairs result.near_miss_pairs ids;
        near_miss_distances = result.near_miss_distances;
        candidate_pairs = to_global_pairs local_pairs ids;
        candidate_pair_count = length local_pairs;
        owned_drone_count = length inp.owned_positions;
        ghost_drone_count = length inp.ghost_positions;
      }
