-- ===== src/SpatialHash/Neighbors.antt =====
-- `neighbor` finds the group of the cell at an offset, exactly when that cell is occupied.
use drone_swarm_simulator.Prelude.{
  ℕ, ◌/◌, ◌%◌, ◌<◌, true, some, List, map, ◌≡◌, refl, sym, ap, ◌∙◌, arith, length, get_or,
  get_or-map,
}
use drone_swarm_simulator.Prelude.Members.{All}
use drone_swarm_simulator.Prelude.Int.{ℤ, pos, negsuc, ◌+ℤ◌}
use drone_swarm_simulator.Arrays.{Routines, IsDocumented}
use drone_swarm_simulator.SpatialHash.{
  Grid, Built, Cell, linear_key, plane, total_cells, make_lookup, neighbor, occupied_at, find_cell,
  in_axis,
}
use drone_swarm_simulator.SpatialHash.Offsets.{Offset}
use drone_swarm_simulator.SpatialHash.Groups.{IsAscending}
use drone_swarm_simulator.SpatialHash.Lookup.{find_cell-IsFound}
use drone_swarm_simulator.SpatialHash.Cells.{At, Inside, linear_key-x, linear_key-y, linear_key-z}

-- The decoded coordinates and the table, as `build` computes them from the keys.
pub record IsDecoded {F : Type 0} (g : Grid F) (b : Built) : Type 0 where
  pub x_def : b.ucx ≡ map (λ k. k % plane g % g.nx) b.unique_keys
  pub y_def : b.ucy ≡ map (λ k. k % plane g / g.nx) b.unique_keys
  pub z_def : b.ucz ≡ map (λ k. k / plane g) b.unique_keys
  pub lookup_def : b.lookup ≡ make_lookup g b.unique_keys

in_axis-true : (x n : ℕ) → x < n → in_axis (pos x) n ≡ true
in_axis-true x n h = ground arith

module _ {F : Type 0} (np : Routines) (doc : IsDocumented np) (g : Grid F) (b : Built)
    (dec : IsDecoded g b) (up : IsAscending b.unique_keys)
    (fits : All (λ k. k < total_cells g) b.unique_keys) where
  coordinate :
      (f : ℕ → ℕ) (xs : List ℕ) (s v : ℕ)
      → xs ≡ map f b.unique_keys
      → s < length b.unique_keys
      → f (get_or b.unique_keys s 0) ≡ v
      → get_or xs s 0 ≡ v
  coordinate f xs s v e h q = ap (λ ys. get_or ys s 0) e ∙ get_or-map f b.unique_keys s 0 0 h ∙ q

  occupied_at-find :
      (e : Cell)
      → Inside g e
      → occupied_at np g b (pos e.cx) (pos e.cy) (pos e.cz)
        ≡ find_cell np b.lookup b.unique_keys (linear_key g e)
  unfolding occupied_at linear_key
  occupied_at-find e h =
      let at = λ (x n : ℕ) (lt : x < n). in_axis-true x n lt in
      rw (at e.cx g.nx h.x_in, at e.cy g.ny h.y_in, at e.cz g.nz h.z_in)

  occupied_at-Inside :
      (x y z : ℤ) (t : ℕ)
      → occupied_at np g b x y z ≡ some t
      → (e : Cell) × Inside g e × (x ≡ pos e.cx) × (y ≡ pos e.cy) × (z ≡ pos e.cz)
  unfolding occupied_at
  occupied_at-Inside (pos x) (pos y) (pos z) t h =
      (record { cx = x; cy = y; cz = z }, ground arith, refl, refl, refl)
  occupied_at-Inside (pos x) (pos y) (negsuc z) t h = absurd (ground arith)
  occupied_at-Inside (pos x) (negsuc y) z t h = absurd (ground arith)
  occupied_at-Inside (negsuc x) y z t h = absurd (ground arith)

  module _ (c : Cell) (inside : Inside g c) (s : ℕ) (hs : s < length b.unique_keys)
      (key : get_or b.unique_keys s 0 ≡ linear_key g c) where
    x_of : get_or b.ucx s 0 ≡ c.cx
    x_of =
        coordinate (λ k. k % plane g % g.nx) b.ucx s c.cx dec.x_def hs
          (ap (λ k. k % plane g % g.nx) key ∙ linear_key-x g c inside)

    y_of : get_or b.ucy s 0 ≡ c.cy
    y_of =
        coordinate (λ k. k % plane g / g.nx) b.ucy s c.cy dec.y_def hs
          (ap (λ k. k % plane g / g.nx) key ∙ linear_key-y g c inside)

    z_of : get_or b.ucz s 0 ≡ c.cz
    z_of =
        coordinate (λ k. k / plane g) b.ucz s c.cz dec.z_def hs
          (ap (λ k. k / plane g) key ∙ linear_key-z g c inside)

    neighbor-occupied_at :
        (d : Offset)
        → neighbor np g b d s
          ≡ occupied_at np g b (pos c.cx +ℤ d.dx) (pos c.cy +ℤ d.dy) (pos c.cz +ℤ d.dz)
    unfolding neighbor
    neighbor-occupied_at d = rw (x_of, y_of, z_of)

    neighbor-find :
        (d : Offset) (e : Cell)
        → Inside g e
        → At c d e
        → neighbor np g b d s
          ≡ find_cell np (make_lookup g b.unique_keys) b.unique_keys (linear_key g e)
    neighbor-find d e in_e at =
        neighbor-occupied_at d
        ∙ rw (at.x_at, at.y_at, at.z_at) (occupied_at-find e in_e)
        ∙ ap (λ l. find_cell np l b.unique_keys (linear_key g e)) dec.lookup_def

    -- An occupied cell at the offset is found.
    pub neighbor-hit :
        (d : Offset) (e : Cell) (t : ℕ)
        → Inside g e
        → At c d e
        → t < length b.unique_keys
        → get_or b.unique_keys t 0 ≡ linear_key g e
        → neighbor np g b d s ≡ some t
    neighbor-hit d e t in_e at ht kt =
        neighbor-find d e in_e at
        ∙ (find_cell-IsFound np doc g b.unique_keys (linear_key g e) up fits).hit t ht kt

    -- What is found is the group of the cell at the offset.
    pub neighbor_sound :
        (d : Offset) (t : ℕ)
        → neighbor np g b d s ≡ some t
        → (e : Cell) × Inside g e
          × At c d e
          × (t < length b.unique_keys)
          × (get_or b.unique_keys t 0 ≡ linear_key g e)
    neighbor_sound d t h =
        let (e, in_e, ex, ey, ez) =
          occupied_at-Inside (pos c.cx +ℤ d.dx) (pos c.cy +ℤ d.dy) (pos c.cz +ℤ d.dz) t
            (sym (neighbor-occupied_at d) ∙ h) in
        let at : At c d e = record { x_at = ex; y_at = ey; z_at = ez } in
        let (ht, kt) =
          (find_cell-IsFound np doc g b.unique_keys (linear_key g e) up fits).sound t
            (sym (neighbor-find d e in_e at) ∙ h) in
        (e, in_e, at, ht, kt)
