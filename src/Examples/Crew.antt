-- ===== src/Examples/Crew.antt =====
-- A tick of a small coordinator whose first worker fails once.
use drone_swarm_simulator.Prelude.{
  ℕ, zero, suc, Bool, true, false, ◌&&◌, [], ◌∷◌, ◌≡◌, refl, arith, ◌==◌,
}
use drone_swarm_simulator.Prelude.Int.{ℤ, pos, ◌+ℤ◌, ◌-ℤ◌, ◌*ℤ◌}
use drone_swarm_simulator.Prelude.Results.{ok}
use drone_swarm_simulator.Numeric.Whole.{whole, isqrt, isqrt_below, floor_div}
use drone_swarm_simulator.Partition.WholeEdges.{whole_routines, count_upto}
use drone_swarm_simulator.Partition.{neighbors, ghost_export_indices, owner_of, assign}
use drone_swarm_simulator.Arrays.Sorting.{insertion_sort, sort_indices, count_below}
use drone_swarm_simulator.Movement.{scripted_movement}
use drone_swarm_simulator.Movement.Dispatch.{step_movement, run_policies, integrate}
use drone_swarm_simulator.Boundaries.{apply_boundaries, clamp_positions, bounce_velocities}
use drone_swarm_simulator.SpatialHash.{
  init, build, group_keys, make_lookup, linear_key, cell_coords, candidate_pairs, cross_pairs,
  neighbor, occupied_at,
}
use drone_swarm_simulator.SpatialHash.Offsets.{forward_offsets}
use drone_swarm_simulator.Collisions.{detect, classify, resolve}
use drone_swarm_simulator.Workers.{idle}
use drone_swarm_simulator.Worker.{detection_input, run_detection_phase}
use drone_swarm_simulator.Coordinator.{detection_jobs, ghost_ids, merge_detection_results}
use drone_swarm_simulator.Worker.Movement.{
  Phase, detection_phase, movement_phase, FaultInjector, run_movement_phase, run_movement,
  run_movement_batch, run_detection, run_detection_batch,
}
use drone_swarm_simulator.Coordinator.Step.{Coordinator, Externals, Staged, attempt_tick}
use drone_swarm_simulator.Coordinator.Step.Commit.{coordinator_step}
use drone_swarm_simulator.Coordinator.Step.Attempts.{
  fault_free, IsStepped, coordinator_step-IsStepped,
}
use drone_swarm_simulator.Coordinator.Step.Recovers.{coordinator_step-commits}
use drone_swarm_simulator.Examples.Slabs.{two_slabs}
use drone_swarm_simulator.Examples.Ticks.{pair_world, registry, world, moved}

abbrev externals : Externals ℤ ℕ
externals = record {
  routines = insertion_sort;
  float_routines = whole_routines;
  derive_generator = λ tick p. tick;
}

abbrev crew : Coordinator ℤ ℕ
crew = record {
  config = pair_world;
  movement = registry;
  worker_retry_limit = 3;
  rebalance_interval_ticks = 10;
  rebalance_imbalance_threshold = pos 2;
  partition_grid = two_slabs;
  halo_distance = pos 4;
  world = world;
  clock = record { dt = pos 1; tick = 0; time_s = pos 0 };
  metrics = [];
  assignment = record {
    health = idle ∷ idle ∷ [];
    partition_worker = 0 ∷ 1 ∷ [];
    reassignment_log = [];
  };
  last_load_stats = [];
  last_tick_attempts = 0;
}

abbrev is_detection : Phase → Bool
is_detection detection_phase = true
is_detection movement_phase = false

-- In the first attempt worker 0 fails at detection.
abbrev faults : ℕ → FaultInjector
faults (suc zero) w tick phase = w == 0 && is_detection phase
faults _ w tick phase = false

abbrev staged : Staged ℤ
staged = record {
  state = moved;
  result = record {
    collision_pairs = [];
    collision_distances = [];
    near_miss_pairs = [];
    near_miss_distances = [];
    num_candidate_pairs = 0;
  };
  load_stats =
      (record {
        partition_id = 0;
        owned_drone_count = 2;
        ghost_drone_count = 0;
        candidate_pair_count = 0;
      })
      ∷ (record {
        partition_id = 1;
        owned_drone_count = 0;
        ghost_drone_count = 1;
        candidate_pair_count = 0;
      })
      ∷ [];
}

crew-fault_free : fault_free externals crew ≡ ok staged
unfolding detection_jobs ghost_ids merge_detection_results detection_input run_detection_phase
    attempt_tick run_movement_batch run_movement run_movement_phase run_detection_batch
    run_detection step_movement run_policies integrate scripted_movement apply_boundaries
    clamp_positions bounce_velocities neighbors ghost_export_indices owner_of assign whole_routines
    count_upto init build group_keys make_lookup linear_key cell_coords candidate_pairs cross_pairs
    neighbor occupied_at detect classify resolve insertion_sort sort_indices count_below whole isqrt
    isqrt_below floor_div ◌+ℤ◌ ◌-ℤ◌ ◌*ℤ◌ forward_offsets
crew-fault_free = refl

coordinator_step-IsStepped_example :
    IsStepped externals crew (coordinator_step externals crew faults (pos 5))
coordinator_step-IsStepped_example = coordinator_step-IsStepped externals crew faults (pos 5)

coordinator_step-commits_example :
    (coordinator_step externals crew faults (pos 5)).1 ≡ ok staged.result
coordinator_step-commits_example =
    coordinator_step-commits externals crew staged crew-fault_free faults (pos 5) 1 (omega arith)
      (omega arith) refl
