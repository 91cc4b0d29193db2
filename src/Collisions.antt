-- ===== src/Collisions.antt =====
-- collisions.py: detection of collisions and near misses, and their resolution.
pub mod Pairs
pub mod Detection
pub mod Resolution
use drone_swarm_simulator.Prelude.{
  ℕ, Bool, ◌&&◌, Option, none, some, List, [], ◌∷◌, map, length, get_or, set, select, ltb,
  if◌then◌else◌,
}
use drone_swarm_simulator.Numeric.{
  Floats, Vec3, zeros, vec_add, vec_sub, vec_scale, vec_div, dot, distance, vec_to_float32,
}
use drone_swarm_simulator.Config.{SimulationConfig}
use drone_swarm_simulator.State.{DroneState, active_indices}
use drone_swarm_simulator.Arrays.{Routines, triu_indices}
use drone_swarm_simulator.SpatialHash.{Grid, Built, candidate_pairs}

pub record DetectionResult (F : Type 0) : Type 0 where
  pub collision_pairs : List (ℕ × ℕ)
  pub collision_distances : List F
  pub near_miss_pairs : List (ℕ × ℕ)
  pub near_miss_distances : List F
  pub num_candidate_pairs : ℕ

abbrev pub no_events : {F : Type 0} → ℕ → DetectionResult F
no_events n = record {
  collision_pairs = [];
  collision_distances = [];
  near_miss_pairs = [];
  near_miss_distances = [];
  num_candidate_pairs = n;
}

abbrev pub id_pair : List ℕ → ℕ × ℕ → ℕ × ℕ
id_pair active (a, b) = (get_or active a 0, get_or active b 0)

module _ {F : Type 0} ⦃f : Floats F⦄ where
  abbrev pub pair_distance : List (Vec3 F) → ℕ × ℕ → F
  pair_distance positions (i, j) = distance (get_or positions i zeros) (get_or positions j zeros)

  -- The masks `coll` and `near`.
  abbrev pub is_collision : List (Vec3 F) → F → ℕ × ℕ → Bool
  is_collision positions radius q = f.le (pair_distance positions q) radius

  abbrev pub is_near_miss : List (Vec3 F) → F → F → ℕ × ℕ → Bool
  is_near_miss positions collision near q =
      f.lt collision (pair_distance positions q) && f.le (pair_distance positions q) near

  unfoldable pub classify : List (ℕ × ℕ) → List (Vec3 F) → F → F → ℕ → DetectionResult F
  classify [] positions collision near n = no_events n
  classify (q ∷ rest) positions collision near n =
      let coll = select (is_collision positions collision) (q ∷ rest) in
      let near_pairs = select (is_near_miss positions collision near) (q ∷ rest) in
      record {
        collision_pairs = coll;
        collision_distances = map (pair_distance positions) coll;
        near_miss_pairs = near_pairs;
        near_miss_distances = map (pair_distance positions) near_pairs;
        num_candidate_pairs = n;
      }

  abbrev classify_all : SimulationConfig F → List (Vec3 F) → List (ℕ × ℕ) → DetectionResult F
  classify_all c positions pairs =
      classify pairs positions c.collision_radius c.near_miss_radius (length pairs)

  -- `detect`: the pairs are the grid's unless the caller hands them in.
  unfoldable pub detect :
      Routines
      → SimulationConfig F
      → List (Vec3 F)
      → Grid F
      → Built
      → Option (List (ℕ × ℕ))
      → DetectionResult F
  detect np c positions g b none = classify_all c positions (candidate_pairs np g b)
  detect np c positions g b (some pairs) = classify_all c positions pairs

  -- The O(n²) reference detector over all active pairs.
  unfoldable pub detect_brute_force : SimulationConfig F → DroneState F → DetectionResult F
  detect_brute_force c s =
      let active = active_indices s in
      if ltb (length active) 2
      then no_events 0
      else classify_all c s.positions (map (id_pair active) (triu_indices (length active)))

  -- The unit vector from `j` to `i`, with an arbitrary axis for an exact overlap.
  abbrev pub normal : Vec3 F → F → Vec3 F
  normal delta dist =
      if f.eq dist (f.of_ℕ 0)
      then (record { x = f.of_ℕ 1; y = f.of_ℕ 0; z = f.of_ℕ 0 })
      else vec_div delta dist

  -- One round of the loop of `resolve`: exchange the velocity components along the normal, then push
  -- overlapping drones apart.
  unfoldable pub resolve_pair : F → DroneState F → ℕ × ℕ → DroneState F
  resolve_pair radius s (i, j) =
      let pi = get_or s.positions i zeros in
      let pj = get_or s.positions j zeros in
      let vi = get_or s.velocities i zeros in
      let vj = get_or s.velocities j zeros in
      let dist = distance pi pj in
      let n = normal (vec_sub pi pj) dist in
      let transfer = f.sub (dot vi n) (dot vj n) in
      let velocities =
        set (set s.velocities i (vec_to_float32 (vec_sub vi (vec_scale transfer n)))) j
          (vec_to_float32 (vec_add vj (vec_scale transfer n))) in
      let overlap = f.sub radius dist in
      let shift = vec_scale (f.mul f.half overlap) n in
      let positions =
        if f.lt (f.of_ℕ 0) overlap
        then (set (set s.positions i (vec_to_float32 (vec_add pi shift))) j
            (vec_to_float32 (vec_sub pj shift)))
        else s.positions in
      record s { positions = positions; velocities = velocities }

  resolve_pairs : F → DroneState F → List (ℕ × ℕ) → DroneState F
  resolve_pairs radius s [] = s
  resolve_pairs radius s (q ∷ rest) = resolve_pairs radius (resolve_pair radius s q) rest

  -- `resolve`: the new state and the number of collisions.
  unfoldable pub resolve : SimulationConfig F → DroneState F → DetectionResult F → DroneState F × ℕ
  unfolding resolve_pairs
  resolve c s result =
      (resolve_pairs c.collision_radius s result.collision_pairs, length result.collision_pairs)
