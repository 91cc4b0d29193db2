-- ===== src/SpatialHash.antt =====
-- spatial_hash.py: `SpatialHashGrid`, a uniform grid of cells over the world.
pub mod Offsets
mod Groups
mod Structure
pub mod Lookup
pub mod Cells
pub mod Blocks
mod Steps
mod Neighbors
pub mod Triu
pub mod Occupancy
mod Raw
mod Candidates
mod Exact
pub mod Coverage
mod Unique
use drone_swarm_simulator.Prelude.{
  ℕ, ◌+◌, ◌-◌, ◌*◌, ◌/◌, ◌%◌, min, max, Bool, true, ◌&&◌, Option, none, some, List, [], ◌∷◌, ◌++◌,
  map, length, get_or, replicate, range, flat_map, select, leb, ltb, ◌==◌, if◌then◌else◌,
}
use drone_swarm_simulator.Prelude.Int.{ℤ, pos, negsuc, pos_part, ◌+ℤ◌, ltb_ℤ, leb_ℤ}
use drone_swarm_simulator.Numeric.{Floats, Vec3, zeros}
use drone_swarm_simulator.Config.{SimulationConfig, effective_cell_size}
use drone_swarm_simulator.State.{nonzero_from}
use drone_swarm_simulator.Arrays.{
  gather, slice, changes, diff_append, scatter_arange, triu_indices, sum, repeat_arange,
  exclusive_cumsum, zip_with, Routines,
}
use Offsets.{Offset, forward_offsets}

abbrev pub dense_lookup_max_ratio : ℕ
dense_lookup_max_ratio = 128

abbrev pub dense_lookup_max_cells : ℕ
dense_lookup_max_cells = 20_000_000

-- What `__init__` computes: the cell edge, the lower corner and the number of cells on each axis.
pub record Grid (F : Type 0) : Type 0 where
  pub cell_size : F
  pub lo : Vec3 F
  pub nx : ℕ
  pub ny : ℕ
  pub nz : ℕ

-- What `build` fills in: drone ids grouped by occupied cell.
pub record Built : Type 0 where
  pub unique_keys : List ℕ
  pub group_start : List ℕ
  pub counts : List ℕ
  pub sorted_drones : List ℕ
  pub ucx : List ℕ
  pub ucy : List ℕ
  pub ucz : List ℕ
  pub lookup : Option (List ℤ)

pub record Cell : Type 0 where
  pub cx : ℕ
  pub cy : ℕ
  pub cz : ℕ

module _ {F : Type 0} where
  abbrev pub plane : Grid F → ℕ
  plane g = g.nx * g.ny

  abbrev pub total_cells : Grid F → ℕ
  total_cells g = g.nx * g.ny * g.nz

  unfoldable pub linear_key : Grid F → Cell → ℕ
  linear_key g c = c.cx + c.cy * g.nx + c.cz * plane g

-- `np.clip(c, 0, n - 1)`.
abbrev pub clip : ℤ → ℕ → ℕ
clip c n = min (pos_part c) (n - 1)

module _ {F : Type 0} ⦃f : Floats F⦄ where
  -- `max(ceil((hi - lo) / cell_size), 1)`.
  abbrev axis_cells : F → F → F → ℕ
  axis_cells lo hi cell = max (pos_part (f.ceil (f.div (f.sub hi lo) cell))) 1

  unfoldable pub init : SimulationConfig F → Grid F
  init c =
      let cell = effective_cell_size c in
      record {
        cell_size = cell;
        lo = c.bounds_min;
        nx = axis_cells c.bounds_min.x c.bounds_max.x cell;
        ny = axis_cells c.bounds_min.y c.bounds_max.y cell;
        nz = axis_cells c.bounds_min.z c.bounds_max.z cell;
      }

  abbrev pub axis_coord : F → F → F → ℕ → ℕ
  axis_coord p lo cell n = clip (f.floor (f.div (f.sub p lo) cell)) n

  -- `cell_coords`, for one position.
  unfoldable pub cell_coords : Grid F → Vec3 F → Cell
  cell_coords g p = record {
    cx = axis_coord p.x g.lo.x g.cell_size g.nx;
    cy = axis_coord p.y g.lo.y g.cell_size g.ny;
    cz = axis_coord p.z g.lo.z g.cell_size g.nz;
  }

abbrev pub empty : Built
empty = record {
  unique_keys = [];
  group_start = [];
  counts = [];
  sorted_drones = [];
  ucx = [];
  ucy = [];
  ucz = [];
  lookup = none;
}

-- Where a group of equal keys begins: the first entry, and each that differs from the one before.
abbrev pub is_new : List ℕ → List Bool
is_new [] = []
is_new (k ∷ ks) = true ∷ changes k ks

module _ {F : Type 0} where
  -- The dense table from cells to groups, when the world is not too sparse for it.
  unfoldable pub make_lookup : Grid F → List ℕ → Option (List ℤ)
  make_lookup g unique_keys =
      let occupied = length unique_keys in
      if leb (total_cells g) dense_lookup_max_cells
        && leb (total_cells g) (dense_lookup_max_ratio * max occupied 1)
      then some (scatter_arange (replicate (total_cells g) (negsuc 0)) unique_keys 0)
      else none

  -- `build`, from the keys of the active drones on.
  unfoldable pub group_keys : Routines → Grid F → List ℕ → List ℕ → Built
  group_keys np g active keys =
      let order = np.argsort keys in
      let sorted_keys = gather 0 keys order in
      let starts = nonzero_from 0 (is_new sorted_keys) in
      let unique_keys = gather 0 sorted_keys starts in
      record {
        unique_keys = unique_keys;
        group_start = starts;
        counts = diff_append starts (length sorted_keys);
        sorted_drones = gather 0 active order;
        ucx = map (λ k. k % plane g % g.nx) unique_keys;
        ucy = map (λ k. k % plane g / g.nx) unique_keys;
        ucz = map (λ k. k / plane g) unique_keys;
        lookup = make_lookup g unique_keys;
      }

module _ {F : Type 0} ⦃f : Floats F⦄ where
  abbrev pub drone_key : Grid F → List (Vec3 F) → ℕ → ℕ
  drone_key g positions i = linear_key g (cell_coords g (get_or positions i zeros))

  unfoldable pub build : Routines → Grid F → List (Vec3 F) → List ℕ → Built
  build np g positions [] = empty
  build np g positions (a ∷ rest) =
      group_keys np g (a ∷ rest) (map (drone_key g positions) (a ∷ rest))

-- Pairs inside one occupied cell with at least two drones.
abbrev pub cell_pairs : Built → ℕ → List (ℕ × ℕ)
cell_pairs b ci =
    let count = get_or b.counts ci 0 in
    let drones = slice b.sorted_drones (get_or b.group_start ci 0) count in
    map (λ (i, j). (get_or drones i 0, get_or drones j 0)) (triu_indices count)

abbrev pub within_pairs : Built → List (ℕ × ℕ)
within_pairs b =
    flat_map (cell_pairs b) (select (λ ci. leb 2 (get_or b.counts ci 0)) (range (length b.counts)))

-- The group of the cell with this key: by the table, or by a search among the occupied cells.
abbrev pub find_sparse : Routines → List ℕ → ℕ → Option ℕ
find_sparse np unique_keys key =
    let place = np.searchsorted unique_keys key in
    if ltb place (length unique_keys) && get_or unique_keys place 0 == key then some place else none

abbrev pub found : ℤ → Option ℕ
found (pos t) = some t
found (negsuc _) = none

abbrev pub find_dense : List ℤ → ℕ → Option ℕ
find_dense table key = found (get_or table key (negsuc 0))

unfoldable pub find_cell : Routines → Option (List ℤ) → List ℕ → ℕ → Option ℕ
find_cell np none unique_keys key = find_sparse np unique_keys key
find_cell np (some table) unique_keys key = find_dense table key

abbrev pub in_axis : ℤ → ℕ → Bool
in_axis c n = leb_ℤ (pos 0) c && ltb_ℤ c (pos n)

module _ {F : Type 0} where
  -- The group of the cell at these coordinates, if that cell is in the grid and occupied.
  unfoldable pub occupied_at : Routines → Grid F → Built → ℤ → ℤ → ℤ → Option ℕ
  unfolding find_cell
  occupied_at np g b ncx ncy ncz =
      let key = pos_part ncx + pos_part ncy * g.nx + pos_part ncz * plane g in
      if in_axis ncx g.nx && (in_axis ncy g.ny && in_axis ncz g.nz)
      then find_cell np b.lookup b.unique_keys key
      else none

  -- The group that lies at this offset from the group `s`.
  unfoldable pub neighbor : Routines → Grid F → Built → Offset → ℕ → Option ℕ
  neighbor np g b d s =
      occupied_at np g b (pos (get_or b.ucx s 0) +ℤ d.dx) (pos (get_or b.ucy s 0) +ℤ d.dy)
        (pos (get_or b.ucz s 0) +ℤ d.dz)

-- `s` with its match, when it has one.
abbrev pub with_match : ℕ → Option ℕ → List (ℕ × ℕ)
with_match s none = []
with_match s (some t) = (s, t) ∷ []

-- All pairs of a drone of `s` and a drone of `t`, for all matched groups at once: `mp` says which
-- match a row belongs to, and `k` is the row's number inside its block.
unfoldable pub block_rows : List ℕ → List (ℕ × ℕ)
block_rows totals =
    let start = exclusive_cumsum 0 totals in
    zip_with (λ m p. (m, p - get_or start m 0)) (repeat_arange 0 totals) (range (sum totals))

abbrev pub block_pair : Built → List (ℕ × ℕ) → ℕ × ℕ → ℕ × ℕ
block_pair b matched (m, k) =
    let (s, t) = get_or matched m (0, 0) in
    let size = get_or b.counts t 0 in
    (
      get_or b.sorted_drones (get_or b.group_start s 0 + k / size) 0,
      get_or b.sorted_drones (get_or b.group_start t 0 + k % size) 0,
    )

-- `(min, max)`, so that the smaller id stands first.
abbrev pub canonical : ℕ × ℕ → ℕ × ℕ
canonical (i, j) = (min i j, max i j)

abbrev pub block_sizes : Built → List (ℕ × ℕ) → List ℕ
block_sizes b = map (λ (s, t). get_or b.counts s 0 * get_or b.counts t 0)

module _ {F : Type 0} where
  abbrev pub matches : Routines → Grid F → Built → Offset → List (ℕ × ℕ)
  matches np g b d =
      flat_map (λ s. with_match s (neighbor np g b d s)) (range (length b.unique_keys))

  unfoldable pub cross_pairs : Routines → Grid F → Built → Offset → List (ℕ × ℕ)
  unfolding block_rows neighbor
  cross_pairs np g b d =
      let matched = matches np g b d in
      map (block_pair b matched) (block_rows (block_sizes b matched))

  unfoldable pub candidate_pairs : Routines → Grid F → Built → List (ℕ × ℕ)
  unfolding cross_pairs
  candidate_pairs np g b =
      map canonical (within_pairs b ++ flat_map (cross_pairs np g b) forward_offsets)
