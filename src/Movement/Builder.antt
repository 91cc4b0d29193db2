-- ===== src/Movement/Builder.antt =====
-- `NeighborFeatureBuilder`: for every drone, the most urgent of the pairs it is in.
use drone_swarm_simulator.Prelude.{
  ℕ, suc, Bool, true, false, Option, none, some, List, [], ◌∷◌, ◌++◌, map, get_or, replicate, ◌==◌,
  if◌then◌else◌,
}
use drone_swarm_simulator.Numeric.{
  Floats, Vec3, vec_sub, vec_neg, dot, norm, vec_to_float32, float_max, nano,
}
use drone_swarm_simulator.State.{DroneState, num_drones, nonzero_from}
use drone_swarm_simulator.Arrays.{gather, zip_with}
use drone_swarm_simulator.Arrays.Rows.{set_rows}
use drone_swarm_simulator.SpatialHash.{is_new}
use drone_swarm_simulator.Trajectory.{PredictionResult, relative_position, relative_velocity}
use drone_swarm_simulator.Movement.{NeighborFeatures, MovementContext}
use drone_swarm_simulator.Movement.Avoiding.{no_features}

-- `np.lexsort((minor, major))`: the order by the major key, and by the minor key among equals.
pub record Lexsorts (F : Type 0) : Type 0 where
  pub lexsort : List F → List ℕ → List ℕ

-- One directed row: a drone, and a pair that it is in as it sees it.
pub record DirectedRow (F : Type 0) : Type 0 where
  pub self_idx : ℕ
  pub seen : NeighborFeatures F

-- `np.bincount`, for one value.
abbrev pub occurrences : ℕ → List ℕ → ℕ
occurrences k [] = 0
occurrences k (x ∷ xs) = let rest = occurrences k xs in if x == k then suc rest else rest

-- `np.nonzero(group_mask)[0]`.
abbrev pub group_starts : List ℕ → List ℕ
group_starts self_sorted = nonzero_from 0 (is_new self_sorted)

module _ {F : Type 0} ⦃f : Floats F⦄ where
  abbrev pub closing_speed : DroneState F → ℕ × ℕ → F
  closing_speed s q =
      let safe_sep = float_max (norm (relative_position s q)) nano in
      f.div (f.neg (dot (relative_position s q) (relative_velocity s q))) safe_sep

  -- The pair from the point of view of its first drone, and mirrored for the second.
  abbrev pub row_of_first : DroneState F → ℕ × ℕ → F × F → DirectedRow F
  row_of_first s (i, j) (ttca, separation) = record {
    self_idx = i;
    seen = record {
      rel_pos = relative_position s (i, j);
      rel_vel = relative_velocity s (i, j);
      separation = norm (relative_position s (i, j));
      closing_speed = closing_speed s (i, j);
      time_to_closest_approach = ttca;
      predicted_separation = separation;
      neighbor_count = f.of_ℕ 0;
    };
  }

  abbrev pub row_of_second : DroneState F → ℕ × ℕ → F × F → DirectedRow F
  row_of_second s (i, j) (ttca, separation) = record {
    self_idx = j;
    seen = record {
      rel_pos = vec_neg (relative_position s (i, j));
      rel_vel = vec_neg (relative_velocity s (i, j));
      separation = norm (relative_position s (i, j));
      closing_speed = closing_speed s (i, j);
      time_to_closest_approach = ttca;
      predicted_separation = separation;
      neighbor_count = f.of_ℕ 0;
    };
  }

  abbrev pub directed_rows : DroneState F → PredictionResult F → List (DirectedRow F)
  directed_rows s r =
      let entries = zip_with (λ t d. (t, d)) r.time_to_closest_approach r.predicted_separation in
      zip_with (row_of_first s) r.pairs entries ++ zip_with (row_of_second s) r.pairs entries

  abbrev pub no_row : DirectedRow F
  no_row = record { self_idx = 0; seen = no_features }

  abbrev pub self_of : DirectedRow F → ℕ
  self_of r = r.self_idx

  abbrev pub separation_of : DirectedRow F → F
  separation_of r = r.seen.predicted_separation

  abbrev pub features_to_float32 : NeighborFeatures F → NeighborFeatures F
  features_to_float32 v = record {
    rel_pos = vec_to_float32 v.rel_pos;
    rel_vel = vec_to_float32 v.rel_vel;
    separation = f.to_float32 v.separation;
    closing_speed = f.to_float32 v.closing_speed;
    time_to_closest_approach = f.to_float32 v.time_to_closest_approach;
    predicted_separation = f.to_float32 v.predicted_separation;
    neighbor_count = v.neighbor_count;
  }

  -- `features[:, 10] = counts`, from the row `i` on.
  abbrev pub with_counts : ℕ → List ℕ → List (NeighborFeatures F) → List (NeighborFeatures F)
  with_counts i selves [] = []
  with_counts i selves (v ∷ vs) =
      record v { neighbor_count = f.to_float32 (f.of_ℕ (occurrences i selves)) }
      ∷ with_counts (suc i) selves vs

  abbrev pub best_row : List (DirectedRow F) → List ℕ → ℕ → NeighborFeatures F
  best_row rows order g = features_to_float32 (get_or rows (get_or order g 0) no_row).seen

  unfoldable pub features_of : Lexsorts F → ℕ → List (DirectedRow F) → List (NeighborFeatures F)
  features_of np n rows =
      let selves = map self_of rows in
      let order = np.lexsort (map separation_of rows) selves in
      let self_sorted = gather 0 selves order in
      let starts = group_starts self_sorted in
      with_counts 0 selves (
        set_rows (replicate n no_features) (gather 0 self_sorted starts)
          (map (best_row rows order) starts))

  unfoldable pub valid_of : Lexsorts F → ℕ → List (DirectedRow F) → List Bool
  valid_of np n rows =
      let selves = map self_of rows in
      let order = np.lexsort (map separation_of rows) selves in
      let self_sorted = gather 0 selves order in
      let starts = group_starts self_sorted in
      set_rows (replicate n false) (gather 0 self_sorted starts) (map (λ g. true) starts)

  abbrev pub goal_vectors_of : DroneState F → Option (List (Vec3 F)) → Option (List (Vec3 F))
  goal_vectors_of s none = none
  goal_vectors_of s (some goals) = some (
      zip_with (λ g p. vec_to_float32 (vec_sub (vec_to_float32 g) (vec_to_float32 p))) goals
        s.positions)

  abbrev pub context_of :
      Lexsorts F → DroneState F → List (DirectedRow F) → Option (List (Vec3 F)) → MovementContext F
  context_of np s [] goals = record {
    neighbor_features = replicate (num_drones s) no_features;
    neighbor_valid_mask = replicate (num_drones s) false;
    goal_vectors = goal_vectors_of s goals;
  }
  context_of np s (r ∷ rows) goals = record {
    neighbor_features = features_of np (num_drones s) (r ∷ rows);
    neighbor_valid_mask = valid_of np (num_drones s) (r ∷ rows);
    goal_vectors = goal_vectors_of s goals;
  }

  -- `build`.
  unfoldable pub build_context :
      Lexsorts F → DroneState F → PredictionResult F → Option (List (Vec3 F)) → MovementContext F
  unfolding features_of valid_of
  build_context np s prediction goals = context_of np s (directed_rows s prediction) goals
