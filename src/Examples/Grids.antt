-- ===== src/Examples/Grids.antt =====
-- The spatial hash of the small world.
use drone_swarm_simulator.Prelude.{ℕ, ◌↔◌, ◌≡◌, List, [], ◌∷◌, none, refl, arith, true}
use drone_swarm_simulator.Prelude.Int.{◌+ℤ◌, ◌-ℤ◌, ◌*ℤ◌}
use drone_swarm_simulator.Prelude.Members.{In, Distinct}
use drone_swarm_simulator.Numeric.{distance}
use drone_swarm_simulator.Numeric.Whole.{whole, whole-IsExact, isqrt, isqrt_below, floor_div}
use drone_swarm_simulator.Config.{effective_cell_size}
use drone_swarm_simulator.State.{active_indices}
use drone_swarm_simulator.Arrays.Sorting.{insertion_sort, sort_indices, insertion_sort-IsDocumented}
use drone_swarm_simulator.SpatialHash.{
  total_cells, neighbor, occupied_at, cross_pairs, group_keys, init, cell_coords, candidate_pairs,
  build, find_cell, make_lookup, linear_key, block_rows,
}
use drone_swarm_simulator.SpatialHash.Offsets.{forward_offsets}
use drone_swarm_simulator.SpatialHash.Cells.{Adjacent, linear_key_injective}
use drone_swarm_simulator.SpatialHash.Blocks.{rows, block_rows-eq-rows}
use drone_swarm_simulator.SpatialHash.Lookup.{find_cell-lookup}
use drone_swarm_simulator.SpatialHash.Coverage.{
  pairs_of, IsNeighborPair, pairs_of_iff, pairs_of-Distinct, cell_coords-Adjacent,
  cell_coords-Inside,
}
use drone_swarm_simulator.Examples.Setting.{
  at, small_world, three_positions, three_drones, active-Distinct,
}

abbrev actives : List ℕ
actives = active_indices three_drones

pairs_of_iff_example :
    In {A = ℕ × ℕ} (0, 1) (pairs_of insertion_sort small_world three_positions actives)
    ↔ IsNeighborPair small_world three_positions actives 0 1
pairs_of_iff_example =
    pairs_of_iff insertion_sort insertion_sort-IsDocumented small_world three_positions actives
      active-Distinct 0 1

pairs_of-Distinct_example : Distinct (pairs_of insertion_sort small_world three_positions actives)
pairs_of-Distinct_example =
    pairs_of-Distinct insertion_sort insertion_sort-IsDocumented small_world three_positions actives
      active-Distinct

positive_cells : whole.lt (whole.of_ℕ 0) (effective_cell_size small_world) ≡ true
unfolding whole
positive_cells = refl

two_apart : whole.le (distance (at 9 1 1) (at 11 1 1)) (effective_cell_size small_world) ≡ true
unfolding whole isqrt isqrt_below ◌+ℤ◌ ◌-ℤ◌ ◌*ℤ◌
two_apart = refl

cell_coords-Adjacent_example :
    Adjacent
      (cell_coords (init small_world) (at 9 1 1))
      (cell_coords (init small_world) (at 11 1 1))
cell_coords-Adjacent_example =
    cell_coords-Adjacent whole-IsExact small_world (at 9 1 1) (at 11 1 1) positive_cells two_apart

-- The candidates of the small world: the near pairs, and no other.
candidates-three :
    pairs_of insertion_sort small_world three_positions actives ≡ (0, 1) ∷ (0, 2) ∷ (1, 2) ∷ []
unfolding candidate_pairs build group_keys make_lookup linear_key cross_pairs neighbor occupied_at
    find_cell block_rows forward_offsets init cell_coords insertion_sort sort_indices whole
    floor_div ◌+ℤ◌ ◌-ℤ◌ ◌*ℤ◌
candidates-three = refl

cells-20 : total_cells (init small_world) ≡ 20
unfolding init whole floor_div ◌-ℤ◌
cells-20 = refl

find_cell-lookup_example :
    find_cell insertion_sort (make_lookup (init small_world) (2 ∷ 7 ∷ [])) (2 ∷ 7 ∷ []) 7
    ≡ find_cell insertion_sort none (2 ∷ 7 ∷ []) 7
find_cell-lookup_example =
    find_cell-lookup insertion_sort insertion_sort-IsDocumented (init small_world) (2 ∷ 7 ∷ []) 7
      ((omega arith, tt), (tt, tt)) (let total = cells-20 in (omega arith, (omega arith, tt)))

block_rows-eq-rows_example : block_rows (2 ∷ 1 ∷ []) ≡ rows 0 (2 ∷ 1 ∷ [])
block_rows-eq-rows_example = block_rows-eq-rows (2 ∷ 1 ∷ [])

same_key :
    linear_key (init small_world) (cell_coords (init small_world) (at 9 1 1))
    ≡ linear_key (init small_world) (cell_coords (init small_world) (at 11 1 1))
unfolding linear_key cell_coords init whole floor_div ◌-ℤ◌
same_key = refl

linear_key_injective_example :
    cell_coords (init small_world) (at 9 1 1) ≡ cell_coords (init small_world) (at 11 1 1)
linear_key_injective_example =
    linear_key_injective (init small_world) (cell_coords (init small_world) (at 9 1 1))
      (cell_coords (init small_world) (at 11 1 1)) (cell_coords-Inside small_world (at 9 1 1))
      (cell_coords-Inside small_world (at 11 1 1)) same_key
