-- ===== src/Checkpoint/Dictionary.antt =====
-- The configuration as a dictionary, and back.
use drone_swarm_simulator.Prelude.{Option, none, some, ◌≡◌, refl, ap, ◌∙◌}
use drone_swarm_simulator.Prelude.Results.{ok}
use drone_swarm_simulator.Numeric.{Floats}
use drone_swarm_simulator.Config.{SimulationConfig, BoundaryMode, reflect, clamp, post_init}
use drone_swarm_simulator.Checkpoint.{
  optional, as_optional, mode_text, as_mode, text, refuse, config_to_dict, config_from_dict,
}

module _ {F : Type 0} where
  optional-read : (o : Option F) → as_optional (optional o) ≡ ok o
  optional-read none = refl
  optional-read (some a) = refl

mode-read : (F : Type 0) (m : BoundaryMode) → as_mode {F = F} (text (mode_text m)) ≡ ok m
mode-read F reflect = refl
mode-read F clamp = refl

module _ {F : Type 0} ⦃f : Floats F⦄ where
  -- What the dictionary of a configuration is read as.
  pub config-refused :
      (c : SimulationConfig F) → config_from_dict (config_to_dict c) ≡ refuse c (post_init c)
  unfolding config_from_dict config_to_dict
  config-refused c =
      rw
        (
          optional-read c.cell_size,
          mode-read F c.boundary_mode,
          optional-read c.avoidance_max_accel,
        )
        refl

  pub config_from_dict-to_dict :
      (c : SimulationConfig F) → post_init c ≡ ok tt → config_from_dict (config_to_dict c) ≡ ok c
  config_from_dict-to_dict c h = config-refused c ∙ ap (refuse c) h
