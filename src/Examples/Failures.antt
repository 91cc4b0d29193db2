-- ===== src/Examples/Failures.antt =====
-- Five partitions on three workers, of which worker 1 fails.
use drone_swarm_simulator.Prelude.{[], ◌∷◌, ◌≡◌, ◌<◌, none, refl, length, arith}
use drone_swarm_simulator.Workers.{
  Assignment, initial_assignment, healthy_worker_ids, mark_failed, handle_failure, reassign,
}
use drone_swarm_simulator.Workers.Failure.{IsReassigned, handle_failure-IsReassigned}
use drone_swarm_simulator.Prelude.{◌⊎◌, List}
use drone_swarm_simulator.Prelude.Int.{pos}
use drone_swarm_simulator.Numeric.Whole.{whole, floor_div}
use drone_swarm_simulator.Workers.Balance.{PartitionLoadStats, maybe_rebalance}
use drone_swarm_simulator.Workers.Balance.Moves.{IsMove, maybe_rebalance-IsMove}

abbrev five_on_three : Assignment
five_on_three = initial_assignment 3 5

-- Its partitions 1 and 4 go to the workers 0 and 2.
failure-moves : (handle_failure 7 1 five_on_three).0.partition_worker ≡ 0 ∷ 0 ∷ 2 ∷ 0 ∷ 2 ∷ []
unfolding handle_failure reassign initial_assignment
failure-moves = refl

two_left : 0 < length (healthy_worker_ids (mark_failed five_on_three.health 1))
unfolding initial_assignment
two_left = omega arith

handle_failure-IsReassigned_example :
    IsReassigned 1 five_on_three (handle_failure 7 1 five_on_three).0
    × ((handle_failure 7 1 five_on_three).1 ≡ none)
handle_failure-IsReassigned_example = handle_failure-IsReassigned 7 1 five_on_three two_left

-- Partition 1 of worker 1 is heavy: it moves to worker 2, which has less than worker 0.
abbrev heavy_stats : List PartitionLoadStats
heavy_stats =
    record {
      partition_id = 0;
      owned_drone_count = 5;
      ghost_drone_count = 0;
      candidate_pair_count = 5;
    }
    ∷ record {
      partition_id = 1;
      owned_drone_count = 90;
      ghost_drone_count = 2;
      candidate_pair_count = 60;
    }
    ∷ record {
      partition_id = 2;
      owned_drone_count = 2;
      ghost_drone_count = 1;
      candidate_pair_count = 1;
    }
    ∷ []

heavy-moves :
    (maybe_rebalance 20 (pos 2) heavy_stats five_on_three).partition_worker ≡ 0 ∷ 2 ∷ 2 ∷ 0 ∷ 1 ∷ []
unfolding maybe_rebalance initial_assignment whole floor_div
heavy-moves = refl

maybe_rebalance-IsMove_example :
    (maybe_rebalance 20 (pos 2) heavy_stats five_on_three ≡ five_on_three)
    ⊎ IsMove five_on_three (maybe_rebalance 20 (pos 2) heavy_stats five_on_three)
maybe_rebalance-IsMove_example = maybe_rebalance-IsMove 20 (pos 2) heavy_stats five_on_three
