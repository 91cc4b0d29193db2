-- ===== src/Coordinator/Exact.antt =====
-- The merged result of a tick, as the program computes it, lists exactly the seen close pairs.
use drone_swarm_simulator.Prelude.{
  ℕ, Bool, ◌&&◌, List, map, ◌≡◌, ◌↔◌, ◌∙◌, length, select, range, &&_parts,
}
use mathlib.Core.Path.{ap₂}
use drone_swarm_simulator.Prelude.Members.{In, Distinct}
use drone_swarm_simulator.Numeric.{Floats, IsExact, Vec3}
use drone_swarm_simulator.Config.{SimulationConfig, IsValid}
use drone_swarm_simulator.Arrays.{Routines, IsDocumented}
use drone_swarm_simulator.Collisions.{DetectionResult}
use drone_swarm_simulator.Partition.{FloatRoutines, AreDocumented, PartitionGrid, assign}
use drone_swarm_simulator.Partition.Owners.{IsPartition, assign-in_range}
use drone_swarm_simulator.Worker.{detection_input, run_detection_phase}
use drone_swarm_simulator.Worker.Detection.{IsShort}
use drone_swarm_simulator.Worker.Report.{worker-partition, worker-collisions, worker-near_misses}
use drone_swarm_simulator.Coordinator.{
  active_owned, ghost_ids, detection_jobs, kept_by, merge_detection_results, detect_partitioned,
}
use drone_swarm_simulator.Coordinator.Merge.{
  AreInRange, IsMerged, merged_pairs, IsMerged-iff, merged-Distinct, flat_map-map, flat_map-ap,
}

module _ {F : Type 0} ⦃f : Floats F⦄ where
  abbrev pub within : F → F → Bool
  within radius d = f.le d radius

  abbrev pub between : F → F → F → Bool
  between low high d = f.lt low d && f.le d high

  -- The merged result lists the seen collisions and the seen near misses, and each once.
  pub record IsMergedDetection (c : SimulationConfig F) (g : PartitionGrid F) (owners : List ℕ)
      (active_mask : List Bool) (staged : List (Vec3 F)) (halo : F) (result : DetectionResult F)
      : Type 0 where
    pub collisions :
        (i j : ℕ)
        → In {A = ℕ × ℕ} (i, j) result.collision_pairs
          ↔ IsMerged g owners active_mask staged halo (within c.collision_radius) i j
    pub near_misses :
        (i j : ℕ)
        → In {A = ℕ × ℕ} (i, j) result.near_miss_pairs
          ↔ IsMerged g owners active_mask staged halo
              (between c.collision_radius c.near_miss_radius)
              i
              j
    pub collisions_once : Distinct result.collision_pairs
    pub near_misses_once : Distinct result.near_miss_pairs

  module _ (laws : IsExact F) (np : Routines) (doc : IsDocumented np) (c : SimulationConfig F)
      (valid : IsValid c) (g : PartitionGrid F) (owners : List ℕ) (active_mask : List Bool)
      (staged : List (Vec3 F)) (halo : F)
      (in_range : AreInRange g owners active_mask staged halo) where
    open laws use {le_trans}

    pub short-within : IsShort (within c.collision_radius) c.near_miss_radius
    short-within d h = le_trans d c.collision_radius c.near_miss_radius h valid.radii_ordered

    pub short-between : IsShort (between c.collision_radius c.near_miss_radius) c.near_miss_radius
    short-between d h = (&&_parts (f.lt c.collision_radius d) (f.le d c.near_miss_radius) h).1

    collisions-merged :
        (detect_partitioned np c g owners active_mask staged halo).collision_pairs
        ≡ merged_pairs g owners active_mask staged halo laws np doc c valid in_range
            (within c.collision_radius)
            short-within
    unfolding detect_partitioned merge_detection_results detection_jobs
    collisions-merged =
        let owned = active_owned owners active_mask (length staged) in
        let input =
          λ (p : ℕ). detection_input p c staged (owned p) (ghost_ids g staged owned halo p) in
        flat_map-map (λ r. select (kept_by owners r.partition_id) r.collision_pairs)
          (run_detection_phase np) (map input (range g.num_partitions))
        ∙ flat_map-map
            (λ i.
              select (kept_by owners (run_detection_phase np i).partition_id)
                (run_detection_phase np i).collision_pairs)
            input (range g.num_partitions)
        ∙ flat_map-ap
            (λ p.
              select (kept_by owners (run_detection_phase np (input p)).partition_id)
                (run_detection_phase np (input p)).collision_pairs)
            _ (range g.num_partitions)
            (λ p.
              ap₂ (λ (q : ℕ) (pairs : List (ℕ × ℕ)). select (kept_by owners q) pairs)
                (worker-partition np c staged p (owned p) (ghost_ids g staged owned halo p))
                (worker-collisions np c staged p (owned p) (ghost_ids g staged owned halo p)))

    near_misses-merged :
        (detect_partitioned np c g owners active_mask staged halo).near_miss_pairs
        ≡ merged_pairs g owners active_mask staged halo laws np doc c valid in_range
            (between c.collision_radius c.near_miss_radius)
            short-between
    unfolding detect_partitioned merge_detection_results detection_jobs
    near_misses-merged =
        let owned = active_owned owners active_mask (length staged) in
        let input =
          λ (p : ℕ). detection_input p c staged (owned p) (ghost_ids g staged owned halo p) in
        flat_map-map (λ r. select (kept_by owners r.partition_id) r.near_miss_pairs)
          (run_detection_phase np) (map input (range g.num_partitions))
        ∙ flat_map-map
            (λ i.
              select (kept_by owners (run_detection_phase np i).partition_id)
                (run_detection_phase np i).near_miss_pairs)
            input (range g.num_partitions)
        ∙ flat_map-ap
            (λ p.
              select (kept_by owners (run_detection_phase np (input p)).partition_id)
                (run_detection_phase np (input p)).near_miss_pairs)
            _ (range g.num_partitions)
            (λ p.
              ap₂ (λ (q : ℕ) (pairs : List (ℕ × ℕ)). select (kept_by owners q) pairs)
                (worker-partition np c staged p (owned p) (ghost_ids g staged owned halo p))
                (worker-near_misses np c staged p (owned p) (ghost_ids g staged owned halo p)))

    merged-IsMergedDetection :
        IsMergedDetection c g owners active_mask staged halo
          (detect_partitioned np c g owners active_mask staged halo)
    merged-IsMergedDetection = record {
      collisions = λ i j. rw collisions-merged (
          IsMerged-iff g owners active_mask staged halo laws np doc c valid in_range
            (within c.collision_radius) short-within i j);
      near_misses = λ i j. rw near_misses-merged (
          IsMerged-iff g owners active_mask staged halo laws np doc c valid in_range
            (between c.collision_radius c.near_miss_radius) short-between i j);
      collisions_once = rw collisions-merged (
          merged-Distinct g owners active_mask staged halo laws np doc c valid in_range
            (within c.collision_radius) short-within);
      near_misses_once = rw near_misses-merged (
          merged-Distinct g owners active_mask staged halo laws np doc c valid in_range
            (between c.collision_radius c.near_miss_radius) short-between);
    }

  -- Under exact arithmetic and routines as documented, with the owners of the positions before the
  -- movement, the merged result lists a collision (a near miss) exactly when two active drones are
  -- that close after the movement and the partition with the smaller number of their two owners
  -- owns each of them or is sent it as a ghost by the next partition, and it lists no pair twice.
  pub detect_partitioned-IsMergedDetection :
      (laws : IsExact F) (np : Routines) (doc : IsDocumented np) (r : FloatRoutines F)
      (float_doc : AreDocumented r) (c : SimulationConfig F) (valid : IsValid c)
      (g : PartitionGrid F) (partition : IsPartition g) (before staged : List (Vec3 F))
      (active_mask : List Bool) (halo : F)
      → IsMergedDetection c g
          (assign r g before)
          active_mask
          staged
          halo
          (detect_partitioned np c g (assign r g before) active_mask staged halo)
  detect_partitioned-IsMergedDetection laws np doc r float_doc c valid g partition before staged
        active_mask halo =
      merged-IsMergedDetection laws np doc c valid g (assign r g before) active_mask staged halo
        (λ i h. assign-in_range laws r float_doc g partition before i)
