-- ===== src/SpatialHash/Offsets.antt =====
-- `_forward_offsets` of spatial_hash.py: one neighbour offset of each antipodal pair.
use drone_swarm_simulator.Prelude.{
  ℕ, Bool, true, false, ◌&&◌, ◌||◌, not, List, [], ◌∷◌, flat_map, select, map,
}
use drone_swarm_simulator.Prelude.Int.{ℤ, pos, negsuc, ltb_ℤ}

pub record Offset : Type 0 where
  pub dx : ℤ
  pub dy : ℤ
  pub dz : ℤ

abbrev pub steps : List ℤ
steps = negsuc 0 ∷ pos 0 ∷ pos 1 ∷ []

abbrev pub neighbor_offsets : List Offset
neighbor_offsets =
    flat_map (λ z. flat_map (λ y. map (λ x. record { dx = x; dy = y; dz = z }) steps) steps) steps

abbrev pub is_zero : ℤ → Bool
is_zero (pos ℕ.zero) = true
is_zero _ = false

abbrev pub is_positive : ℤ → Bool
is_positive a = ltb_ℤ (pos 0) a

-- The offset (0, 0, 0) is skipped, and of the others the lexicographically positive half is kept.
abbrev pub is_forward : Offset → Bool
is_forward d =
    not (is_zero d.dx && (is_zero d.dy && is_zero d.dz))
    && (is_positive d.dz
        || (is_zero d.dz && is_positive d.dy || is_zero d.dz && (is_zero d.dy && is_positive d.dx)))

unfoldable pub forward_offsets : List Offset
forward_offsets = select is_forward neighbor_offsets
