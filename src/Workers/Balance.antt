-- ===== src/Workers/Balance.antt =====
-- coordinator.py: `_maybe_rebalance`, which moves one partition from the busiest worker to the
-- idlest one. Loads are whole numbers, which the program holds in floats.
pub mod Moves
use drone_swarm_simulator.Prelude.{
  ℕ, ◌+◌, Bool, ◌&&◌, ◌||◌, List, [], ◌∷◌, ◌++◌, length, get_or, set, select, map, ltb, ◌==◌,
  if◌then◌else◌,
}
use drone_swarm_simulator.Arrays.{sum}
use drone_swarm_simulator.Numeric.{Floats}
use drone_swarm_simulator.Workers.{Assignment, healthy_worker_ids}

pub record PartitionLoadStats : Type 0 where
  pub partition_id : ℕ
  pub owned_drone_count : ℕ
  pub ghost_drone_count : ℕ
  pub candidate_pair_count : ℕ

abbrev pub load_of : PartitionLoadStats → ℕ
load_of s = s.owned_drone_count + s.candidate_pair_count

-- The statistics of the partitions that worker `w` runs.
abbrev pub stats_of : List ℕ → List PartitionLoadStats → ℕ → List PartitionLoadStats
stats_of workers stats w =
    select (λ s. ltb s.partition_id (length workers) && get_or workers s.partition_id 0 == w) stats

abbrev pub worker_load : List ℕ → List PartitionLoadStats → ℕ → ℕ
worker_load workers stats w = sum (map load_of (stats_of workers stats w))

-- The order of the keys `(load, id)`.
abbrev pub key_less : ℕ × ℕ → ℕ × ℕ → Bool
key_less (l, i) (m, j) = ltb l m || l == m && ltb i j

-- `max(keys)`, from the largest key so far.
abbrev pub max_key : ℕ × ℕ → List (ℕ × ℕ) → ℕ × ℕ
max_key best [] = best
max_key best (k ∷ ks) = max_key (if key_less best k then k else best) ks

abbrev pub min_key : ℕ × ℕ → List (ℕ × ℕ) → ℕ × ℕ
min_key best [] = best
min_key best (k ∷ ks) = min_key (if key_less k best then k else best) ks

-- The heaviest of the candidates moves to the idlest worker, if there is a candidate.
abbrev pub move_heaviest : ℕ → List (ℕ × ℕ) → ℕ → Assignment → Assignment
move_heaviest tick [] idlest a = a
move_heaviest tick (k ∷ ks) idlest a =
    let heaviest = (max_key k ks).1 in
    record a {
      partition_worker = set a.partition_worker heaviest idlest;
      reassignment_log = a.reassignment_log ++ (tick, heaviest, idlest) ∷ [];
    }

module _ {F : Type 0} ⦃f : Floats F⦄ where
  -- The keys `(load, worker)` of the healthy workers, of which there are at least two.
  abbrev pub rebalance_among :
      ℕ → F → List PartitionLoadStats → ℕ × ℕ → List (ℕ × ℕ) → Assignment → Assignment
  rebalance_among tick threshold stats k ks a =
      let busiest = max_key k ks in
      let idlest = min_key k ks in
      let mean_load = f.div (f.of_ℕ (sum (map (λ q. q.0) (k ∷ ks)))) (f.of_ℕ (length (k ∷ ks))) in
      if f.le mean_load (f.of_ℕ 0)
        || (busiest.1 == idlest.1 || f.lt (f.div (f.of_ℕ busiest.0) mean_load) threshold)
      then a
      else move_heaviest tick
          (map (λ s. (load_of s, s.partition_id)) (stats_of a.partition_worker stats busiest.1))
          idlest.1 a

  abbrev pub rebalance_keys :
      ℕ → F → List PartitionLoadStats → List (ℕ × ℕ) → Assignment → Assignment
  rebalance_keys tick threshold stats [] a = a
  rebalance_keys tick threshold stats (k ∷ []) a = a
  rebalance_keys tick threshold stats (k ∷ m ∷ ks) a =
      rebalance_among tick threshold stats k (m ∷ ks) a

  unfoldable pub maybe_rebalance : ℕ → F → List PartitionLoadStats → Assignment → Assignment
  maybe_rebalance tick threshold [] a = a
  maybe_rebalance tick threshold (s ∷ stats) a =
      rebalance_keys tick threshold (s ∷ stats)
        (map (λ w. (worker_load a.partition_worker (s ∷ stats) w, w)) (healthy_worker_ids a.health))
        a
