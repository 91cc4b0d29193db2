-- ===== src/Examples/Swarms.antt =====
-- Detection and resolution over the small world.
use drone_swarm_simulator.Prelude.{◌≡◌, ap, [], ◌∷◌, none, refl, arith, length}
use drone_swarm_simulator.Prelude.Int.{
  ℤ, pos, pos_part, neg_part, ◌*ℤ◌, int_laws, ◌+ℤ◌, ◌-ℤ◌, eq_of_parts,
}
use drone_swarm_simulator.Numeric.Whole.{whole, whole-IsExact, isqrt, isqrt_below, floor_div}
use drone_swarm_simulator.State.{active_indices}
use drone_swarm_simulator.Arrays.Sorting.{insertion_sort, insertion_sort-IsDocumented}
use drone_swarm_simulator.SpatialHash.{init, build}
use drone_swarm_simulator.Collisions.{
  DetectionResult, classify, detect, detect_brute_force, resolve,
}
use drone_swarm_simulator.Collisions.Detection.{IsSameDetection, detect-agrees}
use drone_swarm_simulator.Collisions.Resolution.{
  Keeps, resolve-Keeps, IsBalanced, total, resolve-total,
}
use drone_swarm_simulator.Examples.Setting.{
  small_world, small_world-IsValid, three_positions, three_drones,
}

detect-agrees_example :
    IsSameDetection three_positions
      (detect insertion_sort small_world three_positions
        (init small_world)
        (build insertion_sort (init small_world) three_positions (active_indices three_drones))
        none)
      (detect_brute_force small_world three_drones)
detect-agrees_example =
    detect-agrees whole-IsExact small_world small_world-IsValid insertion_sort
      insertion_sort-IsDocumented three_drones

abbrev one_collision : DetectionResult ℤ
one_collision = record {
  collision_pairs = (0, 1) ∷ [];
  collision_distances = pos 2 ∷ [];
  near_miss_pairs = (1, 2) ∷ [];
  near_miss_distances = pos 3 ∷ [];
  num_candidate_pairs = 3;
}

-- The brute-force detector on the three drones.
brute_force-three : detect_brute_force small_world three_drones ≡ one_collision
unfolding detect_brute_force classify whole isqrt isqrt_below floor_div ◌+ℤ◌ ◌-ℤ◌ ◌*ℤ◌
brute_force-three = refl

resolve-Keeps_example :
    Keeps one_collision.collision_pairs three_drones
      (resolve small_world three_drones one_collision).0
    × ((resolve small_world three_drones one_collision).1 ≡ length one_collision.collision_pairs)
resolve-Keeps_example = resolve-Keeps small_world three_drones one_collision

whole-IsBalanced : IsBalanced ℤ
unfolding whole
whole-IsBalanced = record {
  add_comm = λ a b. eq_of_parts (a +ℤ b) (b +ℤ a) (omega int_laws);
  add_assoc = λ a b c. eq_of_parts (a +ℤ b +ℤ c) (a +ℤ (b +ℤ c)) (omega int_laws);
  add_cancel = λ a b c h.
      let hp = ap pos_part h in let hn = ap neg_part h in eq_of_parts a b (omega int_laws);
  sub-add = λ a b t. eq_of_parts (a -ℤ t +ℤ (b +ℤ t)) (a +ℤ b) (omega int_laws);
  to_float32_exact = λ a. refl;
}

resolve-total_example :
    (total (λ v. v.x) (resolve small_world three_drones one_collision).0.velocities
      ≡ total (λ v. v.x) three_drones.velocities)
    × (total (λ v. v.y) (resolve small_world three_drones one_collision).0.velocities
        ≡ total (λ v. v.y) three_drones.velocities)
    × (total (λ v. v.z) (resolve small_world three_drones one_collision).0.velocities
        ≡ total (λ v. v.z) three_drones.velocities)
resolve-total_example =
    resolve-total whole-IsBalanced small_world three_drones one_collision
      (((λ e. absurd (omega arith)), omega arith, omega arith), tt)
