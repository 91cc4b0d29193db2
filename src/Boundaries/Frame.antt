-- ===== src/Boundaries/Frame.antt =====
-- What the boundaries leave as it was.
use drone_swarm_simulator.Prelude.{
  suc, Bool, List, [], ◌∷◌, ◌≡◌, inl, inr, refl, ap, length, Bool-cases,
}
use drone_swarm_simulator.Numeric.{Floats, Vec3}
use drone_swarm_simulator.State.{World, num_drones}
use drone_swarm_simulator.Boundaries.{any, clamp_positions, apply_boundaries}

module _ {F : Type 0} ⦃f : Floats F⦄ where
  pub record IsFramed (w v : World F) : Type 0 where
    pub config : v.config ≡ w.config
    pub drones : num_drones v.state ≡ num_drones w.state
    pub active_mask : v.state.active_mask ≡ w.state.active_mask
    pub policies : v.state.movement_policy_ids ≡ w.state.movement_policy_ids
    pub goals : v.state.goal_positions ≡ w.state.goal_positions

  length-clamp_positions :
      (lo hi : Vec3 F) (bs : List Bool) (ps : List (Vec3 F))
      → length (clamp_positions lo hi bs ps) ≡ length ps
  unfolding clamp_positions
  length-clamp_positions lo hi [] ps = refl
  length-clamp_positions lo hi (b ∷ bs) [] = refl
  length-clamp_positions lo hi (b ∷ bs) (p ∷ ps) = ap suc (length-clamp_positions lo hi bs ps)

  pub apply_boundaries-IsFramed : (w : World F) → IsFramed w (apply_boundaries w)
  unfolding apply_boundaries
  apply_boundaries-IsFramed w = elim (Bool-cases (any w.state.active_mask)) [
    | inl t ↦ rw t (record {
      config = refl;
      drones = length-clamp_positions _ _ w.state.active_mask w.state.positions;
      active_mask = refl;
      policies = refl;
      goals = refl;
    })
    | inr n ↦
        rw n (record {
          config = refl;
          drones = refl;
          active_mask = refl;
          policies = refl;
          goals = refl;
        })
  ]
