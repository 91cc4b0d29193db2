-- ===== src/Boundaries.antt =====
-- boundaries.py: the world box after the movement.
pub mod Inside
pub mod Frame
use drone_swarm_simulator.Prelude.{Bool, false, ◌||◌, List, [], ◌∷◌, if◌then◌else◌}
use drone_swarm_simulator.Numeric.{Floats, Vec3, vec_to_float32}
use drone_swarm_simulator.Config.{BoundaryMode, reflect, clamp}
use drone_swarm_simulator.State.{World}

-- `mask.any()`, for an array of booleans.
abbrev pub any : List Bool → Bool
any [] = false
any (b ∷ bs) = let rest = any bs in b || rest

module _ {F : Type 0} ⦃f : Floats F⦄ where
  -- One coordinate of an active drone: back onto the wall it went through.
  abbrev pub clamp_to : F → F → F → F
  clamp_to lo hi p = if f.lt hi p then hi else (if f.lt p lo then lo else p)

  abbrev pub hits : F → F → F → Bool
  hits lo hi p = f.lt p lo || f.lt hi p

  -- The velocity on an axis that hit a wall.
  abbrev pub bounce : BoundaryMode → F → F
  bounce reflect v = f.neg v
  bounce clamp v = f.of_ℕ 0

  abbrev pub velocity_after : BoundaryMode → F → F → F → F → F
  velocity_after mode lo hi p v = if hits lo hi p then bounce mode v else v

  abbrev pub position_row : Vec3 F → Vec3 F → Vec3 F → Vec3 F
  position_row lo hi p = record {
    x = clamp_to lo.x hi.x p.x;
    y = clamp_to lo.y hi.y p.y;
    z = clamp_to lo.z hi.z p.z;
  }

  abbrev pub velocity_row : BoundaryMode → Vec3 F → Vec3 F → Vec3 F → Vec3 F → Vec3 F
  velocity_row mode lo hi p v = record {
    x = velocity_after mode lo.x hi.x p.x v.x;
    y = velocity_after mode lo.y hi.y p.y v.y;
    z = velocity_after mode lo.z hi.z p.z v.z;
  }

  -- The rows of the active drones, where the mask has one entry for each row.
  unfoldable pub clamp_positions : Vec3 F → Vec3 F → List Bool → List (Vec3 F) → List (Vec3 F)
  clamp_positions lo hi [] ps = ps
  clamp_positions lo hi (b ∷ bs) [] = []
  clamp_positions lo hi (b ∷ bs) (p ∷ ps) =
      (if b then position_row lo hi p else p) ∷ clamp_positions lo hi bs ps

  unfoldable pub bounce_velocities :
      BoundaryMode → Vec3 F → Vec3 F → List Bool → List (Vec3 F) → List (Vec3 F) → List (Vec3 F)
  bounce_velocities mode lo hi [] ps vs = vs
  bounce_velocities mode lo hi (b ∷ bs) [] vs = vs
  bounce_velocities mode lo hi (b ∷ bs) (p ∷ ps) [] = []
  bounce_velocities mode lo hi (b ∷ bs) (p ∷ ps) (v ∷ vs) =
      (if b then velocity_row mode lo hi p v else v) ∷ bounce_velocities mode lo hi bs ps vs

  -- `apply`.
  unfoldable pub apply_boundaries : World F → World F
  apply_boundaries w =
      let s = w.state in
      let lo = vec_to_float32 w.config.bounds_min in
      let hi = vec_to_float32 w.config.bounds_max in
      if any s.active_mask
      then record w {
        state = record s {
          positions = clamp_positions lo hi s.active_mask s.positions;
          velocities =
              bounce_velocities w.config.boundary_mode lo hi s.active_mask s.positions s.velocities;
        };
      }
      else w
