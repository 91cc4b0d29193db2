-- ===== src/Examples/Walls.antt =====
-- The small world's walls.
use drone_swarm_simulator.Prelude.{[], ◌∷◌, ◌≡◌, true, false, none, refl}
use drone_swarm_simulator.Prelude.Int.{ℤ, pos, negsuc, ◌-ℤ◌}
use drone_swarm_simulator.Numeric.{◌≼◌, vec_to_float32}
use drone_swarm_simulator.Numeric.Whole.{whole, whole-IsExact}
use drone_swarm_simulator.Config.{reflect}
use drone_swarm_simulator.State.{World}
use drone_swarm_simulator.Boundaries.{apply_boundaries, clamp_positions, bounce_velocities}
use drone_swarm_simulator.Boundaries.Inside.{AreBounded, apply_boundaries-AreBounded}
use drone_swarm_simulator.Examples.Setting.{at, small_world, small_world-IsValid}

-- The first drone has left through the wall x = 20, the second is switched off.
abbrev escaped : World ℤ
escaped = record {
  config = small_world;
  state = record {
    positions = at 23 1 1 ∷ at 99 1 1 ∷ [];
    velocities = at 3 0 0 ∷ at 3 0 0 ∷ [];
    active_mask = true ∷ false ∷ [];
    movement_policy_ids = 0 ∷ 0 ∷ [];
    goal_positions = none;
  };
}

abbrev returned : World ℤ
returned = record {
  config = small_world;
  state = record {
    positions = at 20 1 1 ∷ at 99 1 1 ∷ [];
    velocities = record { x = negsuc 2; y = pos 0; z = pos 0 } ∷ at 3 0 0 ∷ [];
    active_mask = true ∷ false ∷ [];
    movement_policy_ids = 0 ∷ 0 ∷ [];
    goal_positions = none;
  };
}

escaped-returned : apply_boundaries escaped ≡ returned
unfolding apply_boundaries clamp_positions bounce_velocities whole ◌-ℤ◌
escaped-returned = refl

no_rounding : (a b : ℤ) → a ≼ b → whole.to_float32 a ≼ whole.to_float32 b
unfolding whole
no_rounding a b h = h

apply_boundaries-AreBounded_example :
    AreBounded reflect
      (vec_to_float32 (at 0 0 0))
      (vec_to_float32 (at 20 10 10))
      escaped.state
      (apply_boundaries escaped).state
apply_boundaries-AreBounded_example =
    apply_boundaries-AreBounded whole-IsExact escaped no_rounding small_world-IsValid
