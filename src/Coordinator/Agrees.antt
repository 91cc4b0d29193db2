-- ===== src/Coordinator/Agrees.antt =====
-- When every drone stays in its slab, the merged result is that of the brute-force detector.
use drone_swarm_simulator.Prelude.{
  ℕ, suc, ◌≤◌, ◌<◌, min, Bool, true, false, List, ◌≡◌, ◌↔◌, refl, subst, inl, inr, arith, length,
  get_or, select,
}
use native.Mathlib.Decide.{dec_lt, ℕ_discrete}
use drone_swarm_simulator.Prelude.Members.{In, In-select, In-select_cases, Distinct}
use drone_swarm_simulator.Numeric.{Floats, IsExact, ◌≼◌, Vec3, zeros}
use drone_swarm_simulator.Numeric.Distance.{x_within, distance_comm}
use drone_swarm_simulator.Config.{SimulationConfig, IsValid}
use drone_swarm_simulator.Arrays.{Routines, IsDocumented}
use drone_swarm_simulator.State.{
  DroneState, num_drones, active_indices, In-nonzero_iff, active_ascend,
}
use drone_swarm_simulator.Collisions.{DetectionResult, pair_distance, detect_brute_force}
use drone_swarm_simulator.Collisions.Pairs.{brute_pairs_iff}
use drone_swarm_simulator.Collisions.Detection.{all_pairs, brute-IsClassified}
use drone_swarm_simulator.Partition.{
  FloatRoutines, AreDocumented, PartitionGrid, assign, edge, x_of,
}
use drone_swarm_simulator.Partition.Owners.{IsPartition, assign-in_range}
use drone_swarm_simulator.Worker.Detection.{IsShort}
use drone_swarm_simulator.Coordinator.{detect_partitioned}
use drone_swarm_simulator.Coordinator.Merge.{AreInRange, IsMerged, IsSeen}
use drone_swarm_simulator.Coordinator.Exact.{
  within, between, short-within, short-between, detect_partitioned-IsMergedDetection,
}

iff_trans : {A B C : Type 0} → A ↔ B → B ↔ C → A ↔ C
iff_trans (ab, ba) (bc, cb) = (λ a. bc (ab a), λ c. ba (cb c))

module _ {F : Type 0} ⦃f : Floats F⦄ where
  -- Two results that list the same collisions and the same near misses, each pair once.
  pub record FindSame (a b : DetectionResult F) : Type 0 where
    pub collisions :
        (i j : ℕ)
        → In {A = ℕ × ℕ} (i, j) a.collision_pairs ↔ In {A = ℕ × ℕ} (i, j) b.collision_pairs
    pub near_misses :
        (i j : ℕ)
        → In {A = ℕ × ℕ} (i, j) a.near_miss_pairs ↔ In {A = ℕ × ℕ} (i, j) b.near_miss_pairs
    pub collisions_once : Distinct a.collision_pairs
    pub near_misses_once : Distinct a.near_miss_pairs

  -- Every active drone is in the slab of its owner, every slab but the last is wider than the halo
  -- distance, and that covers the near-miss radius.
  pub record AreSettled (c : SimulationConfig F) (g : PartitionGrid F) (owners : List ℕ) (halo : F)
      (s : DroneState F) : Type 0 where
    pub stays_right :
        (i : ℕ)
        → i < num_drones s
        → get_or s.active_mask i false ≡ true
        → edge g (get_or owners i 0) ≼ x_of s.positions i
    pub stays_left :
        (i : ℕ)
        → i < num_drones s
        → get_or s.active_mask i false ≡ true
        → x_of s.positions i ≼ edge g (suc (get_or owners i 0))
    pub wide :
        (k : ℕ) → suc k < g.num_partitions → f.lt (f.add (edge g k) halo) (edge g (suc k)) ≡ true
    pub halo_covers : c.near_miss_radius ≼ halo

  module _ (laws : IsExact F) (c : SimulationConfig F) (valid : IsValid c) (g : PartitionGrid F)
      (partition : IsPartition g) (owners : List ℕ) (halo : F) (s : DroneState F)
      (mask_rows : length s.active_mask ≡ num_drones s)
      (in_range : AreInRange g owners s.active_mask s.positions halo)
      (settled : AreSettled c g owners halo s) where
    open laws use {le_trans, lt-eq-not-le, sub_le_right}
    open settled use {stays_right, stays_left, wide, halo_covers}

    abbrev x : ℕ → F
    x i = x_of s.positions i

    abbrev owner : ℕ → ℕ
    owner i = get_or owners i 0

    abbrev IsActive : ℕ → Type 0
    IsActive i = (i < num_drones s) × (get_or s.active_mask i false ≡ true)

    -- A drone close to one whose owner is not greater is left of that slab's edge or in the halo.
    close-x :
        (i j : ℕ)
        → IsActive i
        → pair_distance s.positions (j, i) ≼ c.near_miss_radius
        → x j ≼ f.add (edge g (suc (owner i))) halo
    close-x i j (hi, ai) h =
        sub_le_right (x j) (x i) halo (edge g (suc (owner i)))
          (le_trans (f.sub (x j) (x i)) c.near_miss_radius halo
            (x_within laws (get_or s.positions j zeros) (get_or s.positions i zeros)
              c.near_miss_radius h)
            halo_covers)
          (stays_left i hi ai)

    close-IsSeen :
        (i j : ℕ)
        → IsActive i
        → IsActive j
        → owner i ≤ owner j
        → pair_distance s.positions (j, i) ≼ c.near_miss_radius
        → IsSeen g owners s.active_mask s.positions halo (owner i) j
    close-IsSeen i j (hi, ai) (hj, aj) lo h =
        let reach = close-x i j (hi, ai) h in
        elim (dec_lt (suc (owner i)) (owner j)) [
          | no near ↦ elim (ℕ_discrete (owner j) (owner i)) [
            | yes same ↦ inl same
            | no other ↦ let e : owner j ≡ suc (owner i) = omega arith in inr (e, reach)
          ]
          | yes far ↦
              let bound = in_range j hj in
              let w = wide (suc (owner i)) (omega arith) in
              let count = partition.edge_count in
              let up =
                partition.ascends (suc (suc (owner i))) (owner j) (omega arith) (omega arith) in
              let back =
                le_trans (edge g (suc (suc (owner i)))) (edge g (owner j))
                  (f.add (edge g (suc (owner i))) halo) up
                  (le_trans (edge g (owner j)) (x j) (f.add (edge g (suc (owner i))) halo)
                    (stays_right j hj aj) reach) in
              let l =
                lt-eq-not-le (f.add (edge g (suc (owner i))) halo) (edge g (suc (suc (owner i)))) in
              absurd (ground arith)
        ]

    -- The partition that keeps a close pair sees both drones.
    both-IsSeen :
        (i j : ℕ)
        → IsActive i
        → IsActive j
        → pair_distance s.positions (i, j) ≼ c.near_miss_radius
        → IsSeen g owners s.active_mask s.positions halo (min (owner i) (owner j)) i
          × IsSeen g owners s.active_mask s.positions halo (min (owner i) (owner j)) j
    both-IsSeen i j ai aj h =
        let back =
          subst (λ d. d ≼ c.near_miss_radius)
            (distance_comm laws (get_or s.positions i zeros) (get_or s.positions j zeros)) h in
        elim (dec_lt (owner j) (owner i)) [
          | yes above ↦
              rw (let e : min (owner i) (owner j) ≡ owner j = omega arith in e)
                (close-IsSeen j i aj ai (omega arith) h, inl refl)
          | no below ↦
              rw (let e : min (owner i) (owner j) ≡ owner i = omega arith in e)
                (inl refl, close-IsSeen i j ai aj (omega arith) back)
        ]

    IsMerged-brute :
        (test : F → Bool)
        → IsShort test c.near_miss_radius
        → (i j : ℕ)
        → IsMerged g owners s.active_mask s.positions halo test i j
          ↔ In {A = ℕ × ℕ} (i, j) (select (λ q. test (pair_distance s.positions q)) (all_pairs s))
    IsMerged-brute test short i j =
        let brute = brute_pairs_iff (active_indices s) (active_ascend 0 s.active_mask) i j in
        (
          λ m.
              let lt = m.ordered in
              let hj = m.second_known in
              In-select (λ q. test (pair_distance s.positions q)) (i, j) (all_pairs s)
                (brute.1 (record {
                  first_active = (In-nonzero_iff s.active_mask i).1 (omega arith, m.first_active);
                  second_active = (In-nonzero_iff s.active_mask j).1 (omega arith, m.second_active);
                  ordered = lt;
                }))
                m.close,
          λ m.
              let (m', h) =
                In-select_cases (λ q. test (pair_distance s.positions q)) (i, j) (all_pairs s) m in
              let p = brute.0 m' in
              let (hi, ai) = (In-nonzero_iff s.active_mask i).0 p.first_active in
              let (hj, aj) = (In-nonzero_iff s.active_mask j).0 p.second_active in
              let seen =
                both-IsSeen i j (omega arith, ai) (omega arith, aj)
                  (short (pair_distance s.positions (i, j)) h) in
              record {
                ordered = p.ordered;
                second_known = omega arith;
                first_active = ai;
                second_active = aj;
                close = h;
                first_seen = seen.0;
                second_seen = seen.1;
              },
        )

  -- Under exact arithmetic and routines as documented, when every active drone is still in the
  -- slab of its owner after the movement, every slab but the last is wider than the halo distance,
  -- and the halo distance is at least the near-miss radius, the merged result of the partitions
  -- lists the same collisions and near misses as the brute-force detector over the whole world,
  -- each once.
  pub detect_partitioned-agrees :
      (laws : IsExact F) (np : Routines) (doc : IsDocumented np) (r : FloatRoutines F)
      (float_doc : AreDocumented r) (c : SimulationConfig F) (valid : IsValid c)
      (g : PartitionGrid F) (partition : IsPartition g) (before : List (Vec3 F)) (halo : F)
      (s : DroneState F)
      → length s.active_mask ≡ num_drones s
      → AreSettled c g (assign r g before) halo s
      → FindSame
          (detect_partitioned np c g (assign r g before) s.active_mask s.positions halo)
          (detect_brute_force c s)
  detect_partitioned-agrees laws np doc r float_doc c valid g partition before halo s rows settled =
      let owners = assign r g before in
      let in_range : AreInRange g owners s.active_mask s.positions halo =
        λ i h. assign-in_range laws r float_doc g partition before i in
      let merged =
        detect_partitioned-IsMergedDetection laws np doc r float_doc c valid g partition before
          s.positions s.active_mask halo in
      let brute = brute-IsClassified c s in
      let same = IsMerged-brute laws c valid g partition owners halo s rows in_range settled in
      record {
        collisions = λ i j. iff_trans (merged.collisions i j) (
            rw brute.collisions (
              same (within c.collision_radius)
                (short-within laws np doc c valid g owners s.active_mask s.positions halo in_range)
                i j));
        near_misses = λ i j. iff_trans (merged.near_misses i j) (
            rw brute.near_misses (
              same (between c.collision_radius c.near_miss_radius)
                (short-between laws np doc c valid g owners s.active_mask s.positions halo in_range)
                i j));
        collisions_once = merged.collisions_once;
        near_misses_once = merged.near_misses_once;
      }
