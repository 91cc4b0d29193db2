-- ===== src/Config.antt =====
-- config.py: the parameters of a simulation and the checks of `SimulationConfig.__post_init__`.
use drone_swarm_simulator.Prelude.{Bool, true, false, not, ◌&&◌, Option, none, some, ◌≡◌, arith}
use drone_swarm_simulator.Prelude.Int.{ℤ, pos, ltb_ℤ, ◌≤ℤ◌}
use drone_swarm_simulator.Prelude.Results.{Result, ok, err, ◌>>◌}
use drone_swarm_simulator.Numeric.{Floats, ◌≼◌, IsExact, Vec3}

-- What a drone does at a wall: negate the velocity on that axis, or set it to zero.
pub data BoundaryMode : Type 0 where
  reflect clamp : BoundaryMode

pub record SimulationConfig (F : Type 0) : Type 0 where
  pub num_drones : ℤ
  pub bounds_min : Vec3 F
  pub bounds_max : Vec3 F
  pub collision_radius : F
  pub near_miss_radius : F
  pub cell_size : Option F
  pub dt : F
  pub seed : ℤ
  pub max_speed : F
  pub boundary_mode : BoundaryMode
  pub max_accel : F
  pub avoidance_max_accel : Option F
  pub avoidance_strength : F
  pub goal_tolerance : F
  pub prediction_horizon : F

-- The `ValueError`s, in the order of the checks.
pub data ConfigError : Type 0 where
  negative_num_drones near_miss_below_collision collision_radius_not_positive : ConfigError
  max_accel_not_positive avoidance_max_accel_not_positive : ConfigError
  negative_avoidance_strength negative_goal_tolerance : ConfigError
  prediction_horizon_not_positive empty_bounds cell_below_near_miss : ConfigError

-- `if test: raise ValueError(e)`.
abbrev pub raise_if : {E : Type 0} → Bool → E → Result E (Unit {0})
raise_if true e = err e
raise_if false e = ok tt

module _ {F : Type 0} where
  abbrev pub get_or_else : Option F → F → F
  get_or_else none d = d
  get_or_else (some v) d = v

  -- `self.cell_size`, or the near-miss radius when it is `None`.
  abbrev pub effective_cell_size : SimulationConfig F → F
  effective_cell_size c = get_or_else c.cell_size c.near_miss_radius

  -- The largest radius that the spatial hash must not miss.
  abbrev pub interaction_radius : SimulationConfig F → F
  interaction_radius c = c.near_miss_radius

  abbrev pub effective_avoidance_max_accel : SimulationConfig F → F
  effective_avoidance_max_accel c = get_or_else c.avoidance_max_accel c.max_accel

module _ {F : Type 0} ⦃f : Floats F⦄ where
  -- `avoidance_max_accel is not None and avoidance_max_accel <= 0`.
  abbrev not_positive_when_set : Option F → Bool
  not_positive_when_set none = false
  not_positive_when_set (some a) = f.le a (f.of_ℕ 0)

  -- `np.all(bmax > bmin)`.
  abbrev pub all_greater : Vec3 F → Vec3 F → Bool
  all_greater hi lo = f.lt lo.x hi.x && (f.lt lo.y hi.y && f.lt lo.z hi.z)

  unfoldable pub post_init : SimulationConfig F → Result ConfigError (Unit {0})
  post_init c = do
    raise_if (ltb_ℤ c.num_drones (pos 0)) negative_num_drones
    raise_if (f.lt c.near_miss_radius c.collision_radius) near_miss_below_collision
    raise_if (f.le c.collision_radius (f.of_ℕ 0)) collision_radius_not_positive
    raise_if (f.le c.max_accel (f.of_ℕ 0)) max_accel_not_positive
    raise_if (not_positive_when_set c.avoidance_max_accel) avoidance_max_accel_not_positive
    raise_if (f.lt c.avoidance_strength (f.of_ℕ 0)) negative_avoidance_strength
    raise_if (f.lt c.goal_tolerance (f.of_ℕ 0)) negative_goal_tolerance
    raise_if (f.le c.prediction_horizon (f.of_ℕ 0)) prediction_horizon_not_positive
    raise_if (not (all_greater c.bounds_max c.bounds_min)) empty_bounds
    raise_if (f.lt (effective_cell_size c) c.near_miss_radius) cell_below_near_miss

  -- What the rest of the program relies on.
  pub record IsValid (c : SimulationConfig F) : Type 0 where
    pub positive_radius : f.lt (f.of_ℕ 0) c.collision_radius ≡ true
    pub radii_ordered : c.collision_radius ≼ c.near_miss_radius
    pub cell_covers : c.near_miss_radius ≼ effective_cell_size c
    pub x_extent : f.lt c.bounds_min.x c.bounds_max.x ≡ true
    pub y_extent : f.lt c.bounds_min.y c.bounds_max.y ≡ true
    pub z_extent : f.lt c.bounds_min.z c.bounds_max.z ≡ true
    pub some_drones : pos 0 ≤ℤ c.num_drones

  module _ (laws : IsExact F) where
    open laws use {lt-eq-not-le}

    -- Under exact arithmetic, a configuration that passes the checks has a number of drones that
    -- is not negative, a positive collision radius, at most the near-miss radius, which is at most
    -- the cell size that is used, and a world of positive extent on every axis.
    pub post_init-IsValid : (c : SimulationConfig F) → post_init c ≡ ok tt → IsValid c
    unfolding post_init
    post_init-IsValid c h = record {
      positive_radius = ground (arith, lt-eq-not-le (f.of_ℕ 0) c.collision_radius);
      radii_ordered = ground (arith, lt-eq-not-le c.near_miss_radius c.collision_radius);
      cell_covers = ground (arith, lt-eq-not-le (effective_cell_size c) c.near_miss_radius);
      x_extent = ground arith;
      y_extent = ground arith;
      z_extent = ground arith;
      some_drones = ground arith;
    }
