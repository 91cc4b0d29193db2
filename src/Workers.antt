-- ===== src/Workers.antt =====
-- worker.py and coordinator.py: the health of the workers, which worker runs which partition, and
-- the reassignment after a failure.
pub mod Failure
pub mod Count
pub mod Balance
use drone_swarm_simulator.Prelude.{
  ℕ, suc, ◌+◌, ◌%◌, Bool, true, false, Option, none, some, List, [], ◌∷◌, ◌++◌, length, get_or, set,
  replicate, select, range, ◌==◌, map, if◌then◌else◌,
}

pub data WorkerLifecycleState : Type 0 where
  idle running failed recovered : WorkerLifecycleState

abbrev pub is_healthy : WorkerLifecycleState → Bool
is_healthy failed = false
is_healthy _ = true

-- The part of the coordinator and its pool that failures change. The health of worker `w` is entry
-- `w`, the worker of partition `p` is entry `p`; the log has the tick, the partition, the worker.
pub record Assignment : Type 0 where
  pub health : List WorkerLifecycleState
  pub partition_worker : List ℕ
  pub reassignment_log : List (ℕ × ℕ × ℕ)

-- All workers have failed.
pub data RecoveryError : Type 0 where
  cannot_recover : RecoveryError

-- Partition i starts on worker i % num_workers.
unfoldable pub initial_assignment : ℕ → ℕ → Assignment
initial_assignment num_workers num_partitions = record {
  health = replicate num_workers idle;
  partition_worker = map (λ p. p % num_workers) (range num_partitions);
  reassignment_log = [];
}

abbrev pub healthy_worker_ids : List WorkerLifecycleState → List ℕ
healthy_worker_ids health =
    select (λ w. is_healthy (get_or health w failed)) (range (length health))

abbrev pub mark_failed : List WorkerLifecycleState → ℕ → List WorkerLifecycleState
mark_failed health w = set health w failed

-- `mark_recovered`, and `recover_worker` of the coordinator.
abbrev pub mark_recovered : List WorkerLifecycleState → ℕ → List WorkerLifecycleState
mark_recovered health w = set health w recovered

pub recover_worker : ℕ → Assignment → Assignment
recover_worker w a = record a { health = mark_recovered a.health w }

-- The partitions of the failed worker, in ascending order.
abbrev pub affected : List ℕ → ℕ → List ℕ
affected partition_worker w =
    select (λ p. get_or partition_worker p 0 == w) (range (length partition_worker))

-- The loop over the affected partitions, from number `k` on: round robin over the healthy workers.
unfoldable pub reassign : ℕ → List ℕ → ℕ → List ℕ → Assignment → Assignment
reassign tick healthy k [] a = a
reassign tick healthy k (p ∷ rest) a =
    let new_worker = get_or healthy (k % length healthy) 0 in
    reassign tick healthy (suc k) rest (record a {
      partition_worker = set a.partition_worker p new_worker;
      reassignment_log = a.reassignment_log ++ (tick, p, new_worker) ∷ [];
    })

-- `_handle_failure`: the worker stays marked also when no worker is left and an error is raised.
unfoldable pub handle_failure : ℕ → ℕ → Assignment → Assignment × Option RecoveryError
unfolding reassign
handle_failure tick w a =
    let marked = record a { health = mark_failed a.health w } in
    let healthy = healthy_worker_ids marked.health in
    if length healthy == 0
    then (marked, some cannot_recover)
    else (reassign tick healthy 0 (affected a.partition_worker w) marked, none)
