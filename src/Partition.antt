-- ===== src/Partition.antt =====
-- partition.py: the slabs along the X axis, the owner of a coordinate, and the ghosts that a slab
-- exports to its neighbours. NumPy's `linspace` and the right side of `searchsorted` are parameters.
pub mod Owners
pub mod WholeEdges
use drone_swarm_simulator.Prelude.{
  ℕ, zero, suc, ◌+◌, ◌-◌, ◌≤◌, ◌<◌, true, not, Option, none, some, List, [], ◌∷◌, ◌++◌, ◌≡◌, length,
  get_or, select, ltb, ◌==◌, if◌then◌else◌,
}
use drone_swarm_simulator.Prelude.Int.{ℤ, pos, pos_part, ◌-ℤ◌, ltb_ℤ}
use drone_swarm_simulator.Prelude.Results.{Result, ok, err}
use drone_swarm_simulator.Numeric.{Floats, ◌≼◌, Vec3, zeros}
use drone_swarm_simulator.Config.{SimulationConfig}
use drone_swarm_simulator.SpatialHash.{clip}

pub record FloatRoutines (F : Type 0) : Type 0 where
  pub linspace : F → F → ℕ → List F
  pub searchsorted_right : List F → F → ℕ

module _ {F : Type 0} ⦃f : Floats F⦄ where
  abbrev pub Ascends : List F → Type 0
  Ascends xs = (i j : ℕ) → i ≤ j → j < length xs → get_or xs i (f.of_ℕ 0) ≼ get_or xs j (f.of_ℕ 0)

  -- NumPy's documentation: `linspace` returns that many numbers, evenly spaced from the first bound
  -- to the second one, both included; `searchsorted` on the right side returns the place after all
  -- entries of a sorted array that are at most the value.
  pub record AreDocumented (r : FloatRoutines F) : Type 0 where
    pub linspace_length : (lo hi : F) (n : ℕ) → length (r.linspace lo hi n) ≡ n
    pub linspace_first : (lo hi : F) (n : ℕ) → get_or (r.linspace lo hi (suc n)) 0 (f.of_ℕ 0) ≡ lo
    pub linspace_last :
        (lo hi : F) (n : ℕ) → 0 < n → lo ≼ hi → get_or (r.linspace lo hi (suc n)) n (f.of_ℕ 0) ≡ hi
    pub linspace_ascends : (lo hi : F) (n : ℕ) → lo ≼ hi → Ascends (r.linspace lo hi n)
    pub right_below :
        (xs : List F) (v : F) (i : ℕ)
        → Ascends xs
        → i < length xs
        → i < r.searchsorted_right xs v
        → get_or xs i (f.of_ℕ 0) ≼ v
    pub right_above :
        (xs : List F) (v : F) (i : ℕ)
        → Ascends xs
        → i < length xs
        → r.searchsorted_right xs v ≤ i
        → f.lt v (get_or xs i (f.of_ℕ 0)) ≡ true

pub data PartitionError : Type 0 where
  too_few_partitions empty_world : PartitionError

pub record PartitionGrid (F : Type 0) : Type 0 where
  pub num_partitions : ℕ
  pub edges : List F
  pub lo : F
  pub hi : F

-- A dictionary from partitions to drone ids, as the list of its items.
abbrev pub lookup_ids : List (ℕ × List ℕ) → ℕ → Option (List ℕ)
lookup_ids [] k = none
lookup_ids ((j, ids) ∷ rest) k = let found = lookup_ids rest k in if j == k then some ids else found

-- `out[k] = ids`, unless `ids` is empty.
abbrev pub entry_unless_empty : ℕ → List ℕ → List (ℕ × List ℕ)
entry_unless_empty k [] = []
entry_unless_empty k (i ∷ is) = (k, i ∷ is) ∷ []

abbrev left_neighbor : ℕ → List ℕ
left_neighbor zero = []
left_neighbor (suc p) = p ∷ []

module _ {F : Type 0} where
  -- At most two: left and right.
  unfoldable pub neighbors : PartitionGrid F → ℕ → List ℕ
  neighbors g p = left_neighbor p ++ (if ltb p (g.num_partitions - 1) then suc p ∷ [] else [])

module _ {F : Type 0} ⦃f : Floats F⦄ where
  -- The edge number `k`: slab `k` reaches from edge `k` to edge `k + 1`.
  abbrev pub edge : PartitionGrid F → ℕ → F
  edge g k = get_or g.edges k (f.of_ℕ 0)

  unfoldable pub init_partitions :
      FloatRoutines F → SimulationConfig F → ℤ → Result PartitionError (PartitionGrid F)
  init_partitions r c n =
      let lo = c.bounds_min.x in
      let hi = c.bounds_max.x in
      if ltb_ℤ n (pos 1)
      then err too_few_partitions
      else if not (f.lt lo hi)
      then err empty_world
      else ok (record {
        num_partitions = pos_part n;
        edges = r.linspace lo hi (suc (pos_part n));
        lo = lo;
        hi = hi;
      })

  -- `np.clip(x, lo, hi)`.
  abbrev pub clip_float : F → F → F → F
  clip_float x lo hi =
      let raised = if f.lt x lo then lo else x in if f.lt hi raised then hi else raised

  -- The partition that owns an X coordinate.
  unfoldable pub owner_of : FloatRoutines F → PartitionGrid F → F → ℕ
  owner_of r g x =
      clip (pos (r.searchsorted_right g.edges (clip_float x g.lo g.hi)) -ℤ pos 1) g.num_partitions

  -- The owner of every drone.
  unfoldable pub assign : FloatRoutines F → PartitionGrid F → List (Vec3 F) → List ℕ
  assign r g [] = []
  assign r g (p ∷ ps) = owner_of r g p.x ∷ assign r g ps

  abbrev pub x_of : List (Vec3 F) → ℕ → F
  x_of positions i = let p = get_or positions i zeros in p.x

  abbrev export_left : PartitionGrid F → List (Vec3 F) → List ℕ → ℕ → F → List (ℕ × List ℕ)
  export_left g positions owned zero halo = []
  export_left g positions owned (suc p) halo =
      entry_unless_empty p
        (select (λ i. f.le (x_of positions i) (f.add (edge g (suc p)) halo)) owned)

  abbrev export_right : PartitionGrid F → List (Vec3 F) → List ℕ → ℕ → F → List (ℕ × List ℕ)
  export_right g positions owned p halo =
      if ltb (suc p) g.num_partitions
      then entry_unless_empty (suc p)
          (select (λ i. f.le (f.sub (edge g (suc p)) halo) (x_of positions i)) owned)
      else []

  -- Which of the drones that `p` owns its neighbours have to see.
  unfoldable pub ghost_export_indices :
      PartitionGrid F → List (Vec3 F) → List ℕ → ℕ → F → List (ℕ × List ℕ)
  ghost_export_indices g positions [] p halo = []
  ghost_export_indices g positions (i ∷ is) p halo =
      export_left g positions (i ∷ is) p halo ++ export_right g positions (i ∷ is) p halo
