-- ===== src/SpatialHash/Coverage.antt =====
-- The grid over a configuration: it covers every position, and two drones within the near-miss
-- radius stand in the same or in neighbouring cells.
use drone_swarm_simulator.Prelude.{
  ℕ, ◌+◌, ◌≤◌, ◌<◌, List, [], ◌∷◌, ◌≡◌, refl, sym, subst, ◌↔◌, true, arith, get_or,
}
use drone_swarm_simulator.Prelude.Int.{ℤ, pos, negsuc, ◌+ℤ◌, ◌≤ℤ◌, +ℤ_parts}
use drone_swarm_simulator.Prelude.Members.{In, Distinct}
use drone_swarm_simulator.Numeric.{Floats, IsExact, ◌≼◌, Vec3, zeros, distance}
use drone_swarm_simulator.Numeric.Distance.{distance_comm, x_within, y_within, z_within}
use drone_swarm_simulator.Config.{SimulationConfig, effective_cell_size}
use drone_swarm_simulator.Arrays.{Routines, IsDocumented}
use drone_swarm_simulator.SpatialHash.{
  Cell, init, axis_coord, clip, cell_coords, build, candidate_pairs, block_rows, empty,
}
use drone_swarm_simulator.SpatialHash.Offsets.{forward_offsets}
use drone_swarm_simulator.SpatialHash.Cells.{Adjacent, Inside}
use drone_swarm_simulator.SpatialHash.Candidates.{Placing}
use drone_swarm_simulator.SpatialHash.Exact.{candidate_pairs_iff}
use drone_swarm_simulator.SpatialHash.Unique.{candidate_pairs-Distinct}

clip_near : (a b : ℤ) (n : ℕ) → a ≤ℤ b +ℤ pos 1 → clip a n ≤ clip b n + 1
clip_near (pos a) (pos b) n h = let e = +ℤ_parts (pos b) (pos 1) in omega arith
clip_near (pos a) (negsuc b) n h = let e = +ℤ_parts (negsuc b) (pos 1) in omega arith
clip_near (negsuc a) b n h = omega arith

module _ {F : Type 0} ⦃f : Floats F⦄ where
  -- Every position has a cell of the grid, also one outside the world.
  pub cell_coords-Inside :
      (c : SimulationConfig F) (p : Vec3 F) → Inside (init c) (cell_coords (init c) p)
  unfolding init cell_coords
  cell_coords-Inside c p = omega arith

  abbrev pub cell_of : SimulationConfig F → List (Vec3 F) → ℕ → Cell
  cell_of c positions i = cell_coords (init c) (get_or positions i zeros)

  abbrev placing :
      (c : SimulationConfig F)
      → List (Vec3 F)
      → (active : List ℕ) → Distinct active
      → Placing (init c)
  placing c positions active unique = record {
    cell = cell_of c positions;
    inside = λ i. cell_coords-Inside c (get_or positions i zeros);
    active = active;
    unique = unique;
  }

  -- A pair of active drones, the smaller id first, whose cells are the same or neighbours.
  pub record IsNeighborPair (c : SimulationConfig F) (positions : List (Vec3 F)) (active : List ℕ)
      (i j : ℕ) : Type 0 where
    pub first_active : In i active
    pub second_active : In j active
    pub ordered : i < j
    pub near : Adjacent (cell_of c positions i) (cell_of c positions j)

  abbrev pub pairs_of : Routines → SimulationConfig F → List (Vec3 F) → List ℕ → List (ℕ × ℕ)
  pairs_of np c positions active = candidate_pairs np (init c) (build np (init c) positions active)

  no_pairs : (np : Routines) (c : SimulationConfig F) → candidate_pairs np (init c) empty ≡ []
  unfolding candidate_pairs block_rows forward_offsets
  no_pairs np c = refl

  module _ (np : Routines) (doc : IsDocumented np) (c : SimulationConfig F)
      (positions : List (Vec3 F)) where
    -- With argsort and searchsorted as documented and distinct active drones, the grid's candidate
    -- pairs are exactly the pairs of active drones, the smaller id first, whose cells are the same
    -- or neighbours.
    pub pairs_of_iff :
        (active : List ℕ)
        → Distinct active
        → (i j : ℕ)
        → In {A = ℕ × ℕ} (i, j) (pairs_of np c positions active)
          ↔ IsNeighborPair c positions active i j
    unfolding build
    pairs_of_iff [] unique i j =
        (λ m. absurd (subst (In {A = ℕ × ℕ} (i, j)) (no_pairs np c) m), λ h. absurd h.first_active)
    pairs_of_iff (a ∷ rest) unique i j =
        let (to, from) =
          candidate_pairs_iff np doc (init c) (placing c positions (a ∷ rest) unique) i j in
        (
          λ m.
              let h = to m in
              record {
                first_active = h.first_active;
                second_active = h.second_active;
                ordered = h.ordered;
                near = h.near;
              },
          λ h. from (record {
            first_active = h.first_active;
            second_active = h.second_active;
            ordered = h.ordered;
            near = h.near;
          }),
        )

    -- With argsort and searchsorted as documented and distinct active drones, no candidate pair is
    -- listed twice.
    pub pairs_of-Distinct :
        (active : List ℕ) → Distinct active → Distinct (pairs_of np c positions active)
    unfolding build
    pairs_of-Distinct [] unique = subst Distinct (sym (no_pairs np c)) tt
    pairs_of-Distinct (a ∷ rest) unique =
        candidate_pairs-Distinct np doc (init c) (placing c positions (a ∷ rest) unique)

  module _ (laws : IsExact F) where
    open laws use {sub_le_shift, div_mono, div-add_self, floor_mono, floor-add-one}

    axis_near :
        (p q lo cell : F) (n : ℕ)
        → f.lt (f.of_ℕ 0) cell ≡ true
        → f.sub p q ≼ cell
        → axis_coord p lo cell n ≤ axis_coord q lo cell n + 1
    axis_near p q lo cell n positive h =
        let shifted = sub_le_shift p q cell lo h in
        let divided : f.div (f.sub p lo) cell ≼ f.add (f.div (f.sub q lo) cell) (f.of_ℕ 1) =
          subst (λ x. f.div (f.sub p lo) cell ≼ x) (div-add_self (f.sub q lo) cell positive)
            (div_mono (f.sub p lo) (f.add (f.sub q lo) cell) cell positive shifted) in
        let floors : f.floor (f.div (f.sub p lo) cell)
            ≤ℤ f.floor (f.div (f.sub q lo) cell) +ℤ pos 1 =
          subst (λ x. f.floor (f.div (f.sub p lo) cell) ≤ℤ x)
            (floor-add-one (f.div (f.sub q lo) cell))
            (floor_mono (f.div (f.sub p lo) cell) (f.add (f.div (f.sub q lo) cell) (f.of_ℕ 1))
              divided) in
        clip_near (f.floor (f.div (f.sub p lo) cell)) (f.floor (f.div (f.sub q lo) cell)) n floors

    -- Under exact arithmetic, two positions at most one cell edge apart, for a positive edge, lie
    -- in the same or in neighbouring cells.
    pub cell_coords-Adjacent :
        (c : SimulationConfig F) (p q : Vec3 F)
        → f.lt (f.of_ℕ 0) (effective_cell_size c) ≡ true
        → distance p q ≼ effective_cell_size c
        → Adjacent (cell_coords (init c) p) (cell_coords (init c) q)
    unfolding init cell_coords
    cell_coords-Adjacent c p q positive near =
        let back = subst (λ d. d ≼ effective_cell_size c) (distance_comm laws p q) near in
        let g = init c in
        let r = effective_cell_size c in
        record {
          x_up = axis_near q.x p.x g.lo.x r g.nx positive (x_within laws q p r back);
          x_down = axis_near p.x q.x g.lo.x r g.nx positive (x_within laws p q r near);
          y_up = axis_near q.y p.y g.lo.y r g.ny positive (y_within laws q p r back);
          y_down = axis_near p.y q.y g.lo.y r g.ny positive (y_within laws p q r near);
          z_up = axis_near q.z p.z g.lo.z r g.nz positive (z_within laws q p r back);
          z_down = axis_near p.z q.z g.lo.z r g.nz positive (z_within laws p q r near);
        }
