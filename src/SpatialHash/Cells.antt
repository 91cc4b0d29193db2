-- ===== src/SpatialHash/Cells.antt =====
-- Cells inside the grid, their linear keys, and the cells next to them.
use drone_swarm_simulator.Prelude.{ℕ, ◌+◌, ◌*◌, ◌/◌, ◌%◌, ◌≤◌, ◌<◌, ◌≡◌, sym, ap, ◌∙◌, arith}
use drone_swarm_simulator.Prelude.Int.{pos, ◌+ℤ◌}
use drone_swarm_simulator.SpatialHash.{Grid, Cell, linear_key, plane, total_cells}
use drone_swarm_simulator.SpatialHash.Offsets.{Offset}

row_lt : (x y nx ny : ℕ) → x < nx → y < ny → x + y * nx < nx * ny
row_lt x y nx ny hx hy = grind arith

div_of : (r q m : ℕ) → r < m → (r + q * m) / m ≡ q
div_of r q m h = grind arith

mod_of : (r q m : ℕ) → r < m → (r + q * m) % m ≡ r
mod_of r q m h = grind arith

-- The distance of two cells is at most one on every axis.
pub record Adjacent (c e : Cell) : Type 0 where
  pub x_up : e.cx ≤ c.cx + 1
  pub x_down : c.cx ≤ e.cx + 1
  pub y_up : e.cy ≤ c.cy + 1
  pub y_down : c.cy ≤ e.cy + 1
  pub z_up : e.cz ≤ c.cz + 1
  pub z_down : c.cz ≤ e.cz + 1

-- `e` lies at the offset `d` from `c`.
pub record At (c : Cell) (d : Offset) (e : Cell) : Type 0 where
  pub x_at : pos c.cx +ℤ d.dx ≡ pos e.cx
  pub y_at : pos c.cy +ℤ d.dy ≡ pos e.cy
  pub z_at : pos c.cz +ℤ d.dz ≡ pos e.cz

module _ {F : Type 0} (g : Grid F) where
  pub record Inside (c : Cell) : Type 0 where
    pub x_in : c.cx < g.nx
    pub y_in : c.cy < g.ny
    pub z_in : c.cz < g.nz

  module _ (c : Cell) (h : Inside c) where
    pub linear_key-lt : linear_key g c < total_cells g
    unfolding linear_key
    linear_key-lt =
        row_lt (c.cx + c.cy * g.nx) c.cz (g.nx * g.ny) g.nz
          (row_lt c.cx c.cy g.nx g.ny h.x_in h.y_in) h.z_in

    remainder : linear_key g c % plane g ≡ c.cx + c.cy * g.nx
    unfolding linear_key
    remainder =
        mod_of (c.cx + c.cy * g.nx) c.cz (g.nx * g.ny) (row_lt c.cx c.cy g.nx g.ny h.x_in h.y_in)

    pub linear_key-z : linear_key g c / plane g ≡ c.cz
    unfolding linear_key
    linear_key-z =
        div_of (c.cx + c.cy * g.nx) c.cz (g.nx * g.ny) (row_lt c.cx c.cy g.nx g.ny h.x_in h.y_in)

    pub linear_key-y : linear_key g c % plane g / g.nx ≡ c.cy
    linear_key-y = ap (λ r. r / g.nx) remainder ∙ div_of c.cx c.cy g.nx h.x_in

    pub linear_key-x : linear_key g c % plane g % g.nx ≡ c.cx
    linear_key-x = ap (λ r. r % g.nx) remainder ∙ mod_of c.cx c.cy g.nx h.x_in

  -- Two cells inside the grid that have the same key are the same cell.
  pub linear_key_injective :
      (c e : Cell) → Inside c → Inside e → linear_key g c ≡ linear_key g e → c ≡ e
  linear_key_injective c e h k q =
      let x : c.cx ≡ e.cx =
        sym (linear_key-x c h) ∙ ap (λ r. r % plane g % g.nx) q ∙ linear_key-x e k in
      let y : c.cy ≡ e.cy =
        sym (linear_key-y c h) ∙ ap (λ r. r % plane g / g.nx) q ∙ linear_key-y e k in
      let z : c.cz ≡ e.cz = sym (linear_key-z c h) ∙ ap (λ r. r / plane g) q ∙ linear_key-z e k in
      λ i. record { cx = x i; cy = y i; cz = z i }
