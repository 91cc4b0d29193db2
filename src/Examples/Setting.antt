-- ===== src/Examples/Setting.antt =====
-- A small world: 20 by 10 by 10, collisions within 2, near misses within 4, cells of edge 4.
use drone_swarm_simulator.Prelude.{ℕ, true, List, [], ◌∷◌, none, ◌≡◌, refl}
use drone_swarm_simulator.Prelude.Int.{ℤ, pos}
use drone_swarm_simulator.Prelude.Results.{ok}
use drone_swarm_simulator.Numeric.{Vec3}
use drone_swarm_simulator.Numeric.Whole.{whole, whole-IsExact}
use drone_swarm_simulator.Config.{SimulationConfig, reflect, post_init, post_init-IsValid, IsValid}
use drone_swarm_simulator.State.{DroneState, active_indices, Distinct-nonzero_from}
use drone_swarm_simulator.Prelude.Members.{Distinct}

abbrev pub at : ℕ → ℕ → ℕ → Vec3 ℤ
at a b c = record { x = pos a; y = pos b; z = pos c }

abbrev pub small_world : SimulationConfig ℤ
small_world = record {
  num_drones = pos 3;
  bounds_min = at 0 0 0;
  bounds_max = at 20 10 10;
  collision_radius = pos 2;
  near_miss_radius = pos 4;
  cell_size = none;
  dt = pos 1;
  seed = pos 7;
  max_speed = pos 3;
  boundary_mode = reflect;
  max_accel = pos 1;
  avoidance_max_accel = none;
  avoidance_strength = pos 1;
  goal_tolerance = pos 1;
  prediction_horizon = pos 2;
}

abbrev pub three_positions : List (Vec3 ℤ)
three_positions = at 9 1 1 ∷ at 11 1 1 ∷ at 14 1 1 ∷ []

abbrev pub three_drones : DroneState ℤ
three_drones = record {
  positions = three_positions;
  velocities = at 1 0 0 ∷ at 0 0 0 ∷ at 0 1 0 ∷ [];
  active_mask = true ∷ true ∷ true ∷ [];
  movement_policy_ids = 0 ∷ 0 ∷ 0 ∷ [];
  goal_positions = none;
}

small_world-accepted : post_init small_world ≡ ok tt
unfolding post_init whole
small_world-accepted = refl

pub small_world-IsValid : IsValid small_world
small_world-IsValid = post_init-IsValid whole-IsExact small_world small_world-accepted

pub active-Distinct : Distinct (active_indices three_drones)
active-Distinct = Distinct-nonzero_from 0 (true ∷ true ∷ true ∷ [])

post_init-IsValid_example : IsValid small_world
post_init-IsValid_example = post_init-IsValid whole-IsExact small_world small_world-accepted
