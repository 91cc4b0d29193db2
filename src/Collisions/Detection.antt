-- ===== src/Collisions/Detection.antt =====
-- The detector over the spatial hash finds what the brute-force detector finds.
use drone_swarm_simulator.Prelude.{
  ℕ, true, none, List, [], ◌∷◌, map, ◌≡◌, refl, ◌↔◌, inl, inr, arith, length, get_or, select, ltb,
  ltb→lt, Bool-cases, &&_parts,
}
use drone_swarm_simulator.Prelude.Members.{In, Distinct, Distinct-select}
use drone_swarm_simulator.Numeric.{Floats, IsExact, ◌≼◌, Vec3, zeros}
use drone_swarm_simulator.Config.{SimulationConfig, IsValid, effective_cell_size}
use drone_swarm_simulator.State.{DroneState, active_indices, Distinct-nonzero_from, active_ascend}
use drone_swarm_simulator.Arrays.{Routines, IsDocumented, triu_indices}
use drone_swarm_simulator.SpatialHash.{init, build}
use drone_swarm_simulator.SpatialHash.Cells.{Adjacent}
use drone_swarm_simulator.SpatialHash.Coverage.{
  cell_of, pairs_of, pairs_of_iff, pairs_of-Distinct, cell_coords-Adjacent,
}
use drone_swarm_simulator.Collisions.{
  DetectionResult, pair_distance, is_collision, is_near_miss, classify, detect, id_pair,
  detect_brute_force,
}
use drone_swarm_simulator.Collisions.Pairs.{
  brute_pairs_iff, brute_pairs-Distinct, select_iff, no_pairs_below,
}

module _ {F : Type 0} ⦃f : Floats F⦄ where
  -- The collisions and the near misses are those of `pairs`, with their distances.
  pub record IsClassified (positions : List (Vec3 F)) (collision near : F) (pairs : List (ℕ × ℕ))
      (r : DetectionResult F) : Type 0 where
    pub collisions : r.collision_pairs ≡ select (is_collision positions collision) pairs
    pub near_misses : r.near_miss_pairs ≡ select (is_near_miss positions collision near) pairs
    pub distances : r.collision_distances ≡ map (pair_distance positions) r.collision_pairs
    pub near_distances : r.near_miss_distances ≡ map (pair_distance positions) r.near_miss_pairs

  pub classify-IsClassified :
      (pairs : List (ℕ × ℕ)) (positions : List (Vec3 F)) (collision near : F) (n : ℕ)
      → IsClassified positions collision near pairs (classify pairs positions collision near n)
  unfolding classify
  classify-IsClassified [] positions collision near n = record {
    collisions = refl;
    near_misses = refl;
    distances = refl;
    near_distances = refl;
  }
  classify-IsClassified (q ∷ rest) positions collision near n = record {
    collisions = refl;
    near_misses = refl;
    distances = refl;
    near_distances = refl;
  }

  -- Two results that list the same collisions and the same near misses, each pair once, with the
  -- distance of each listed pair in its place.
  pub record IsSameDetection (positions : List (Vec3 F)) (a b : DetectionResult F) : Type 0 where
    pub collisions :
        (i j : ℕ)
        → In {A = ℕ × ℕ} (i, j) a.collision_pairs ↔ In {A = ℕ × ℕ} (i, j) b.collision_pairs
    pub near_misses :
        (i j : ℕ)
        → In {A = ℕ × ℕ} (i, j) a.near_miss_pairs ↔ In {A = ℕ × ℕ} (i, j) b.near_miss_pairs
    pub collisions_once : Distinct a.collision_pairs × Distinct b.collision_pairs
    pub near_misses_once : Distinct a.near_miss_pairs × Distinct b.near_miss_pairs
    pub collision_distances :
        (a.collision_distances ≡ map (pair_distance positions) a.collision_pairs)
        × (b.collision_distances ≡ map (pair_distance positions) b.collision_pairs)
    pub near_miss_distances :
        (a.near_miss_distances ≡ map (pair_distance positions) a.near_miss_pairs)
        × (b.near_miss_distances ≡ map (pair_distance positions) b.near_miss_pairs)

  -- Two lists of pairs that agree on the near pairs are classified alike.
  classified-same :
      (positions : List (Vec3 F)) (collision near : F) (xs ys : List (ℕ × ℕ))
      (a b : DetectionResult F)
      → Distinct xs
      → Distinct ys
      → ((q : ℕ × ℕ) → is_collision positions collision q ≡ true → In q xs ↔ In q ys)
      → ((q : ℕ × ℕ) → is_near_miss positions collision near q ≡ true → In q xs ↔ In q ys)
      → IsClassified positions collision near xs a
      → IsClassified positions collision near ys b
      → IsSameDetection positions a b
  classified-same positions collision near xs ys a b once_x once_y same_c same_n ca cb = record {
    collisions = λ i j.
        rw (ca.collisions, cb.collisions)
          (select_iff (is_collision positions collision) xs ys same_c (i, j));
    near_misses = λ i j.
        rw (ca.near_misses, cb.near_misses)
          (select_iff (is_near_miss positions collision near) xs ys same_n (i, j));
    collisions_once =
        rw (ca.collisions, cb.collisions)
          (
            Distinct-select (is_collision positions collision) xs once_x,
            Distinct-select (is_collision positions collision) ys once_y,
          );
    near_misses_once =
        rw (ca.near_misses, cb.near_misses)
          (
            Distinct-select (is_near_miss positions collision near) xs once_x,
            Distinct-select (is_near_miss positions collision near) ys once_y,
          );
    collision_distances = (ca.distances, cb.distances);
    near_miss_distances = (ca.near_distances, cb.near_distances);
  }

  abbrev pub all_pairs : DroneState F → List (ℕ × ℕ)
  all_pairs s = map (id_pair (active_indices s)) (triu_indices (length (active_indices s)))

  pub brute-IsClassified :
      (c : SimulationConfig F) (s : DroneState F)
      → IsClassified s.positions c.collision_radius c.near_miss_radius
          (all_pairs s)
          (detect_brute_force c s)
  unfolding detect_brute_force classify
  brute-IsClassified c s =
      let active = active_indices s in
      elim (Bool-cases (ltb (length active) 2)) [
        | inl few ↦
            rw (few, no_pairs_below (length active) (ltb→lt (length active) 2 few))
              (classify-IsClassified [] s.positions c.collision_radius c.near_miss_radius 0)
        | inr many ↦ rw many (
            classify-IsClassified (all_pairs s) s.positions c.collision_radius c.near_miss_radius
              (length (all_pairs s)))
      ]

  module _ (laws : IsExact F) (c : SimulationConfig F) (valid : IsValid c) where
    open laws use {le_trans, lt-eq-not-le}

    cell_positive : f.lt (f.of_ℕ 0) (effective_cell_size c) ≡ true
    cell_positive = elim (Bool-cases (f.le (effective_cell_size c) (f.of_ℕ 0))) [
      | inl t ↦
          let low =
            le_trans c.collision_radius c.near_miss_radius (f.of_ℕ 0) valid.radii_ordered (
              le_trans c.near_miss_radius (effective_cell_size c) (f.of_ℕ 0) valid.cell_covers t) in
          let p = valid.positive_radius in
          let q = lt-eq-not-le (f.of_ℕ 0) c.collision_radius in absurd (ground arith)
      | inr e ↦ let q = lt-eq-not-le (f.of_ℕ 0) (effective_cell_size c) in ground arith
    ]

    pub near-Adjacent :
        (positions : List (Vec3 F)) (i j : ℕ)
        → pair_distance positions (i, j) ≼ c.near_miss_radius
        → Adjacent (cell_of c positions i) (cell_of c positions j)
    near-Adjacent positions i j h =
        cell_coords-Adjacent laws c (get_or positions i zeros) (get_or positions j zeros)
          cell_positive
          (le_trans (pair_distance positions (i, j)) c.near_miss_radius (effective_cell_size c) h
            valid.cell_covers)

    pairs-agree :
        (np : Routines) (doc : IsDocumented np) (s : DroneState F) (i j : ℕ)
        → pair_distance s.positions (i, j) ≼ c.near_miss_radius
        → In {A = ℕ × ℕ} (i, j) (pairs_of np c s.positions (active_indices s))
          ↔ In {A = ℕ × ℕ} (i, j) (all_pairs s)
    pairs-agree np doc s i j h =
        let active = active_indices s in
        let grid =
          pairs_of_iff np doc c s.positions active (Distinct-nonzero_from 0 s.active_mask) i j in
        let brute = brute_pairs_iff active (active_ascend 0 s.active_mask) i j in
        (
          λ m.
              let n = grid.0 m in
              brute.1 (record {
                first_active = n.first_active;
                second_active = n.second_active;
                ordered = n.ordered;
              }),
          λ m.
              let n = brute.0 m in
              grid.1 (record {
                first_active = n.first_active;
                second_active = n.second_active;
                ordered = n.ordered;
                near = near-Adjacent s.positions i j h;
              }),
        )

    -- Under exact arithmetic, routines as documented and a configuration that passed its checks,
    -- the detector over the spatial hash and the brute-force detector list the same collisions and
    -- near misses, each pair once, with the distance of each listed pair in its place.
    pub detect-agrees :
        (np : Routines) (doc : IsDocumented np) (s : DroneState F)
        → IsSameDetection s.positions
            (detect np c s.positions
              (init c)
              (build np (init c) s.positions (active_indices s))
              none)
            (detect_brute_force c s)
    unfolding detect
    detect-agrees np doc s =
        let grid = pairs_of np c s.positions (active_indices s) in
        let unique = Distinct-nonzero_from 0 s.active_mask in
        classified-same s.positions c.collision_radius c.near_miss_radius grid (all_pairs s)
          (detect np c s.positions (init c) (build np (init c) s.positions (active_indices s)) none)
          (detect_brute_force c s)
          (pairs_of-Distinct np doc c s.positions (active_indices s) unique)
          (brute_pairs-Distinct (active_indices s) unique)
          (λ q h. pairs-agree np doc s q.0 q.1 (
            le_trans (pair_distance s.positions q) c.collision_radius c.near_miss_radius h
              valid.radii_ordered))
          (λ q h.
            pairs-agree np doc s q.0 q.1
              (&&_parts (f.lt c.collision_radius (pair_distance s.positions q))
                (f.le (pair_distance s.positions q) c.near_miss_radius) h).1)
          (classify-IsClassified grid s.positions c.collision_radius c.near_miss_radius
            (length grid))
          (brute-IsClassified c s)
