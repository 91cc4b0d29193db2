-- ===== src/SpatialHash/Occupancy.antt =====
-- The calls of a grid that may not be built yet, and its occupancy.
use drone_swarm_simulator.Prelude.{ℕ, max, Option, none, some, List, [], ◌∷◌, length}
use drone_swarm_simulator.Prelude.Results.{Result, ok, err}
use drone_swarm_simulator.Numeric.{Floats}
use drone_swarm_simulator.Arrays.{Routines, sum}
use drone_swarm_simulator.SpatialHash.{Grid, Built, candidate_pairs}

-- The `RuntimeError` of a grid on which `build` was not called.
pub data GridError : Type 0 where
  not_built : GridError

pub record Occupancy (F : Type 0) : Type 0 where
  pub occupied_cells : ℕ
  pub mean_occupancy : F
  pub max_occupancy : ℕ

-- `counts.max()`.
abbrev pub greatest_count : List ℕ → ℕ
greatest_count [] = 0
greatest_count (c ∷ cs) = max c (greatest_count cs)

module _ {F : Type 0} ⦃f : Floats F⦄ where
  abbrev pub occupancy_of : List ℕ → Occupancy F
  occupancy_of [] = record { occupied_cells = 0; mean_occupancy = f.of_ℕ 0; max_occupancy = 0 }
  occupancy_of (c ∷ cs) = record {
    occupied_cells = length (c ∷ cs);
    mean_occupancy = f.div (f.of_ℕ (sum (c ∷ cs))) (f.of_ℕ (length (c ∷ cs)));
    max_occupancy = greatest_count (c ∷ cs);
  }

  unfoldable pub occupancy_stats : Option Built → Result GridError (Occupancy F)
  occupancy_stats none = err not_built
  occupancy_stats (some b) = ok (occupancy_of b.counts)

unfoldable pub checked_candidate_pairs :
    {F : Type 0} → Routines → Grid F → Option Built → Result GridError (List (ℕ × ℕ))
checked_candidate_pairs np g none = err not_built
checked_candidate_pairs np g (some b) = ok (candidate_pairs np g b)
