-- ===== src/Examples/Views.antt =====
-- A view of the three drones: x from 10 to 20, all of y, any height.
use drone_swarm_simulator.Prelude.{[], ◌∷◌, ◌≡◌, none, some, refl}
use drone_swarm_simulator.Prelude.Int.{ℤ, pos}
use drone_swarm_simulator.Numeric.Whole.{whole}
use drone_swarm_simulator.State.{World}
use drone_swarm_simulator.Snapshot.{
  SimulationSnapshot, ViewportQuery, build_snapshot, find_visible_drones,
}
use drone_swarm_simulator.Snapshot.Visible.{IsPrefix, find_visible_drones-IsPrefix}
use drone_swarm_simulator.Examples.Setting.{small_world, three_drones}

abbrev right_half : ViewportQuery ℤ
right_half = record {
  x_min = pos 10;
  x_max = pos 20;
  y_min = pos 0;
  y_max = pos 10;
  z_min = none;
  z_max = none;
}

abbrev world_now : World ℤ
world_now = record { config = small_world; state = three_drones }

abbrev now : SimulationSnapshot ℤ
now = build_snapshot world_now 4 (pos 4) none

visible-ids : (find_visible_drones now right_half (some 1)).drone_ids ≡ 1 ∷ []
unfolding build_snapshot find_visible_drones whole
visible-ids = refl

find_visible_drones-IsPrefix_example :
    IsPrefix now right_half 1
      (find_visible_drones now right_half (some 1))
      (find_visible_drones now right_half none)
find_visible_drones-IsPrefix_example = find_visible_drones-IsPrefix now right_half 1
