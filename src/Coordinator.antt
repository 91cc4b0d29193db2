-- ===== src/Coordinator.antt =====
-- coordinator.py: the staging of a tick over partitions, the merging of the workers' reports, the
-- retries, and the reassignment of partitions.
pub mod Ghosts
pub mod Merge
pub mod Exact
pub mod Agrees
pub mod Settings
pub mod Step
use drone_swarm_simulator.Prelude.{
  ℕ, min, Bool, false, ◌&&◌, Option, none, some, List, [], ◌∷◌, map, length, get_or, select, range,
  flat_map, ◌==◌, if◌then◌else◌,
}
use drone_swarm_simulator.Numeric.{Floats, Vec3}
use drone_swarm_simulator.Config.{SimulationConfig}
use drone_swarm_simulator.Arrays.{Routines}
use drone_swarm_simulator.Collisions.{DetectionResult}
use drone_swarm_simulator.Partition.{PartitionGrid, neighbors, ghost_export_indices, lookup_ids}
use drone_swarm_simulator.Worker.{
  WorkerDetectionInput, WorkerDetectionResult, detection_input, run_detection_phase,
}

-- The active drones of the partition `p`, by the owners at the tick's beginning.
abbrev pub active_owned : List ℕ → List Bool → ℕ → ℕ → List ℕ
active_owned owners active_mask n p =
    select (λ i. (get_or owners i 0 == p) && get_or active_mask i false) (range n)

-- The entry of a dictionary, or nothing.
abbrev pub ids_or_none : Option (List ℕ) → List ℕ
ids_or_none none = []
ids_or_none (some ids) = ids

module _ {F : Type 0} ⦃f : Floats F⦄ where
  -- The drones that the neighbours of `p` export to it.
  unfoldable pub ghost_ids : PartitionGrid F → List (Vec3 F) → (ℕ → List ℕ) → F → ℕ → List ℕ
  ghost_ids g staged owned halo p =
      flat_map (λ q. ids_or_none (lookup_ids (ghost_export_indices g staged (owned q) q halo) p))
        (neighbors g p)

  -- Phase 2 of an attempt: one job for each partition, on the positions after the movement.
  unfoldable pub detection_jobs :
      SimulationConfig F
      → PartitionGrid F
      → List (Vec3 F)
      → (ℕ → List ℕ)
      → F
      → List (WorkerDetectionInput F)
  detection_jobs c g staged owned halo =
      map (λ p. detection_input p c staged (owned p) (ghost_ids g staged owned halo p))
        (range g.num_partitions)

-- `_kept_by`: the partition with the smaller number keeps a pair that two partitions see.
abbrev pub kept_by : List ℕ → ℕ → ℕ × ℕ → Bool
kept_by owners p (i, j) = min (get_or owners i 0) (get_or owners j 0) == p

-- `xs[mask]`, where the mask is computed from another array.
abbrev pub select_by {ℓ κ} : {A : Type ℓ} {B : Type κ} → (A → Bool) → List A → List B → List B
select_by p [] bs = []
select_by p (a ∷ as_) [] = []
select_by p (a ∷ as_) (b ∷ bs) = let rest = select_by p as_ bs in if p a then b ∷ rest else rest

module _ {F : Type 0} where
  -- The merged result, for the reports in the order of their partitions.
  unfoldable pub merge_detection_results :
      List (WorkerDetectionResult F) → List ℕ → DetectionResult F
  merge_detection_results results owners = record {
    collision_pairs =
        flat_map (λ r. select (kept_by owners r.partition_id) r.collision_pairs) results;
    collision_distances =
        flat_map
          (λ r. select_by (kept_by owners r.partition_id) r.collision_pairs r.collision_distances)
          results;
    near_miss_pairs =
        flat_map (λ r. select (kept_by owners r.partition_id) r.near_miss_pairs) results;
    near_miss_distances =
        flat_map
          (λ r. select_by (kept_by owners r.partition_id) r.near_miss_pairs r.near_miss_distances)
          results;
    num_candidate_pairs =
        length (flat_map (λ r. select (kept_by owners r.partition_id) r.candidate_pairs) results);
  }

module _ {F : Type 0} ⦃f : Floats F⦄ where
  -- The detection of one attempt, from the staged positions on.
  pub detect_partitioned :
      Routines
      → SimulationConfig F
      → PartitionGrid F
      → List ℕ
      → List Bool
      → List (Vec3 F)
      → F
      → DetectionResult F
  detect_partitioned np c g owners active_mask staged halo =
      let owned = active_owned owners active_mask (length staged) in
      merge_detection_results (map (run_detection_phase np) (detection_jobs c g staged owned halo))
        owners
