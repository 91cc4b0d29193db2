-- ===== src/Examples/Slabs.antt =====
-- The small world in two slabs.
use drone_swarm_simulator.Prelude.{
  ℕ, zero, suc, ◌≡◌, ◌⊎◌, ◌<◌, List, [], ◌∷◌, refl, arith, true, get_or,
}
use drone_swarm_simulator.Prelude.Int.{ℤ, pos, ◌+ℤ◌, ◌-ℤ◌}
use drone_swarm_simulator.Prelude.Results.{ok}
use drone_swarm_simulator.Numeric.{◌≼◌}
use drone_swarm_simulator.Numeric.Whole.{whole, whole-IsExact}
use drone_swarm_simulator.Arrays.Sorting.{insertion_sort, insertion_sort-IsDocumented}
use drone_swarm_simulator.Collisions.{detect_brute_force}
use drone_swarm_simulator.Partition.{
  PartitionGrid, init_partitions, edge, owner_of, assign, clip_float, x_of,
}
use drone_swarm_simulator.Partition.WholeEdges.{
  whole_routines, whole_routines-AreDocumented, count_upto,
}
use drone_swarm_simulator.Partition.Owners.{
  IsPartition, Made, init_partitions-Made, init_partitions-IsPartition, owner_of-covers,
}
use drone_swarm_simulator.Coordinator.{detect_partitioned}
use drone_swarm_simulator.Coordinator.Exact.{
  IsMergedDetection, detect_partitioned-IsMergedDetection,
}
use drone_swarm_simulator.Coordinator.Agrees.{FindSame, AreSettled, detect_partitioned-agrees}
use drone_swarm_simulator.Examples.Setting.{
  small_world, small_world-IsValid, three_positions, three_drones,
}
use drone_swarm_simulator.Prelude.{none}
use drone_swarm_simulator.Prelude.{false}
use drone_swarm_simulator.Coordinator.Settings.{
  DistributedConfig, init_settings, AreUsable, init_settings-AreUsable,
}

abbrev pub two_slabs : PartitionGrid ℤ
two_slabs = record {
  num_partitions = 2;
  edges = pos 0 ∷ pos 10 ∷ pos 20 ∷ [];
  lo = pos 0;
  hi = pos 20;
}

two_slabs-made : init_partitions whole_routines small_world (pos 2) ≡ ok two_slabs
unfolding init_partitions whole_routines whole ◌+ℤ◌ ◌-ℤ◌
two_slabs-made = refl

two_slabs-IsPartition : IsPartition two_slabs
two_slabs-IsPartition =
    init_partitions-IsPartition whole-IsExact whole_routines whole_routines-AreDocumented
      small_world (pos 2) two_slabs two_slabs-made

init_partitions-Made_example :
    Made small_world (pos 2) (init_partitions whole_routines small_world (pos 2))
init_partitions-Made_example =
    init_partitions-Made whole-IsExact whole_routines whole_routines-AreDocumented small_world
      (pos 2)

owner_of-covers_example :
    let k = owner_of whole_routines two_slabs (pos 11) in
    (k < 2)
    × (edge two_slabs k ≼ clip_float (pos 11) (pos 0) (pos 20))
    × ((whole.lt (clip_float (pos 11) (pos 0) (pos 20)) (edge two_slabs (suc k)) ≡ true)
        ⊎ (suc k ≡ 2))
owner_of-covers_example =
    owner_of-covers whole-IsExact whole_routines whole_routines-AreDocumented two_slabs
      two_slabs-IsPartition (pos 11)

abbrev owners : List ℕ
owners = assign whole_routines two_slabs three_positions

owners-three : owners ≡ 0 ∷ 1 ∷ 1 ∷ []
unfolding assign owner_of whole_routines count_upto whole ◌-ℤ◌
owners-three = refl

-- The slab of each of the three drones holds it.
in_slab :
    (i : ℕ)
    → i < 3
    → (edge two_slabs (get_or (0 ∷ 1 ∷ 1 ∷ []) i 0) ≼ x_of three_positions i)
      × (x_of three_positions i ≼ edge two_slabs (suc (get_or (0 ∷ 1 ∷ 1 ∷ []) i 0)))
unfolding whole
in_slab zero h = (refl, refl)
in_slab (suc zero) h = (refl, refl)
in_slab (suc (suc zero)) h = (refl, refl)
in_slab (suc (suc (suc i))) h = absurd (omega arith)

slabs-wide :
    (k : ℕ)
    → suc k < 2
    → whole.lt (whole.add (edge two_slabs k) (pos 4)) (edge two_slabs (suc k)) ≡ true
unfolding whole ◌+ℤ◌
slabs-wide zero h = refl
slabs-wide (suc k) h = absurd (omega arith)

halo-covers : whole.le (pos 4) (pos 4) ≡ true
unfolding whole
halo-covers = refl

three-AreSettled : AreSettled small_world two_slabs owners (pos 4) three_drones
three-AreSettled = record {
  stays_right = λ i h a. rw owners-three (in_slab i h).0;
  stays_left = λ i h a. rw owners-three (in_slab i h).1;
  wide = slabs-wide;
  halo_covers = halo-covers;
}

detect_partitioned-agrees_example :
    FindSame
      (detect_partitioned insertion_sort small_world two_slabs owners
        (true ∷ true ∷ true ∷ [])
        three_positions
        (pos 4))
      (detect_brute_force small_world three_drones)
detect_partitioned-agrees_example =
    detect_partitioned-agrees whole-IsExact insertion_sort insertion_sort-IsDocumented
      whole_routines whole_routines-AreDocumented small_world small_world-IsValid two_slabs
      two_slabs-IsPartition three_positions (pos 4) three_drones refl three-AreSettled

detect_partitioned-IsMergedDetection_example :
    IsMergedDetection small_world two_slabs owners
      (true ∷ true ∷ true ∷ [])
      three_positions
      (pos 4)
      (detect_partitioned insertion_sort small_world two_slabs owners
        (true ∷ true ∷ true ∷ [])
        three_positions
        (pos 4))
detect_partitioned-IsMergedDetection_example =
    detect_partitioned-IsMergedDetection whole-IsExact insertion_sort insertion_sort-IsDocumented
      whole_routines whole_routines-AreDocumented small_world small_world-IsValid two_slabs
      two_slabs-IsPartition three_positions three_positions (true ∷ true ∷ true ∷ []) (pos 4)

abbrev two_workers : DistributedConfig ℤ
two_workers = record {
  num_workers = pos 2;
  num_partitions = none;
  halo_distance = none;
  rebalance_interval_ticks = pos 20;
  rebalance_imbalance_threshold = pos 2;
  worker_retry_limit = pos 2;
  use_threads = false;
  use_processes = false;
}

two_workers-accepted : init_settings two_workers small_world ≡ ok (pos 2, pos 4)
unfolding init_settings whole
two_workers-accepted = refl

init_settings-AreUsable_example : AreUsable two_workers small_world (pos 2, pos 4)
init_settings-AreUsable_example =
    init_settings-AreUsable whole-IsExact two_workers small_world (pos 2, pos 4)
      two_workers-accepted
