-- ===== src/Checkpoint.antt =====
-- checkpoint.py: a simulation saved to a file and loaded again. The archive format and JSON are
-- third-party code: a file holds what was written into it, array by array and key by key.
pub mod Dictionary
pub mod Files
pub mod Saving
pub mod Resume
use drone_swarm_simulator.Prelude.{ℕ, Option, none, some, List, [], ◌∷◌, ◌==◌, if◌then◌else◌}
use drone_swarm_simulator.Prelude.Int.{ℤ}
use drone_swarm_simulator.Prelude.Results.{Result, ok, err, ◌>>=◌, ◌>>◌}
use drone_swarm_simulator.Numeric.{Floats, Vec3}
use drone_swarm_simulator.Config.{
  SimulationConfig, BoundaryMode, reflect, clamp, ConfigError, post_init,
}

abbrev pub schema_version : ℕ
schema_version = 1

-- The keys of the configuration's dictionary.
pub data Key : Type 0 where
  num_drones bounds_min bounds_max collision_radius near_miss_radius cell_size dt seed : Key
  max_speed boundary_mode max_accel avoidance_max_accel avoidance_strength goal_tolerance : Key
  prediction_horizon : Key

abbrev pub key_number : Key → ℕ
key_number num_drones = 0
key_number bounds_min = 1
key_number bounds_max = 2
key_number collision_radius = 3
key_number near_miss_radius = 4
key_number cell_size = 5
key_number dt = 6
key_number seed = 7
key_number max_speed = 8
key_number boundary_mode = 9
key_number max_accel = 10
key_number avoidance_max_accel = 11
key_number avoidance_strength = 12
key_number goal_tolerance = 13
key_number prediction_horizon = 14

-- `BoundaryMode.value`, and any other string.
pub data ModeText : Type 0 where
  reflect_text clamp_text other_text : ModeText

pub data Value (F : Type 0) : Type 0 where
  integer : ℤ → Value F
  number : F → Value F
  null : Value F
  triple : F → F → F → Value F
  text : ModeText → Value F

-- What goes wrong: the messages of `CheckpointError`, and the exceptions of the constructor of the
-- loaded configuration and of missing keys, which `load_checkpoint` lets through.
pub data LoadError : Type 0 where
  file_not_found unreadable missing_meta_json unsupported_schema_version : LoadError
  drone_count_mismatch missing_array wrong_shape missing_goal_positions wrong_goal_shape : LoadError
  missing_key ill_typed unknown_boundary_mode : LoadError
  config_refused : ConfigError → LoadError

abbrev pub Dictionary : Type 0 → Type 0
Dictionary F = List (Key × Value F)

abbrev pub mode_text : BoundaryMode → ModeText
mode_text reflect = reflect_text
mode_text clamp = clamp_text

module _ {F : Type 0} where
  abbrev pub optional : Option F → Value F
  optional none = null
  optional (some a) = number a

  abbrev pub triple_of : Vec3 F → Value F
  triple_of v = triple v.x v.y v.z

  -- `_config_to_dict`.
  unfoldable pub config_to_dict : SimulationConfig F → Dictionary F
  config_to_dict c =
      (num_drones, integer c.num_drones)
      ∷ (bounds_min, triple_of c.bounds_min)
      ∷ (bounds_max, triple_of c.bounds_max)
      ∷ (collision_radius, number c.collision_radius)
      ∷ (near_miss_radius, number c.near_miss_radius)
      ∷ (cell_size, optional c.cell_size)
      ∷ (dt, number c.dt)
      ∷ (seed, integer c.seed)
      ∷ (max_speed, number c.max_speed)
      ∷ (boundary_mode, text (mode_text c.boundary_mode))
      ∷ (max_accel, number c.max_accel)
      ∷ (avoidance_max_accel, optional c.avoidance_max_accel)
      ∷ (avoidance_strength, number c.avoidance_strength)
      ∷ (goal_tolerance, number c.goal_tolerance)
      ∷ (prediction_horizon, number c.prediction_horizon)
      ∷ []

  -- `d[key]`.
  abbrev pub lookup : Key → Dictionary F → Result LoadError (Value F)
  lookup key [] = err missing_key
  lookup key ((k, v) ∷ rest) =
      let later = lookup key rest in if key_number k == key_number key then ok v else later

  abbrev pub as_integer : Value F → Result LoadError ℤ
  as_integer (integer n) = ok n
  as_integer _ = err ill_typed

  abbrev pub as_number : Value F → Result LoadError F
  as_number (number a) = ok a
  as_number _ = err ill_typed

  abbrev pub as_optional : Value F → Result LoadError (Option F)
  as_optional null = ok none
  as_optional (number a) = ok (some a)
  as_optional _ = err ill_typed

  abbrev pub as_point : Value F → Result LoadError (Vec3 F)
  as_point (triple a b c) = ok (record { x = a; y = b; z = c })
  as_point _ = err ill_typed

  abbrev pub as_mode : Value F → Result LoadError BoundaryMode
  as_mode (text reflect_text) = ok reflect
  as_mode (text clamp_text) = ok clamp
  as_mode (text other_text) = err unknown_boundary_mode
  as_mode _ = err ill_typed

abbrev pub refuse : {A : Type 0} → A → Result ConfigError (Unit {0}) → Result LoadError A
refuse a (ok u) = ok a
refuse a (err e) = err (config_refused e)

module _ {F : Type 0} ⦃f : Floats F⦄ where
  -- `_config_from_dict`, the checks of the configuration's constructor included.
  unfoldable pub config_from_dict : Dictionary F → Result LoadError (SimulationConfig F)
  config_from_dict d = do
    drones ← lookup num_drones d >>= as_integer
    low ← lookup bounds_min d >>= as_point
    high ← lookup bounds_max d >>= as_point
    collision ← lookup collision_radius d >>= as_number
    near ← lookup near_miss_radius d >>= as_number
    cell ← lookup cell_size d >>= as_optional
    time_step ← lookup dt d >>= as_number
    master_seed ← lookup seed d >>= as_integer
    speed ← lookup max_speed d >>= as_number
    mode ← lookup boundary_mode d >>= as_mode
    accel ← lookup max_accel d >>= as_number
    avoidance_accel ← lookup avoidance_max_accel d >>= as_optional
    strength ← lookup avoidance_strength d >>= as_number
    tolerance ← lookup goal_tolerance d >>= as_number
    horizon ← lookup prediction_horizon d >>= as_number
    let c : SimulationConfig F = record {
      num_drones = drones;
      bounds_min = low;
      bounds_max = high;
      collision_radius = collision;
      near_miss_radius = near;
      cell_size = cell;
      dt = time_step;
      seed = master_seed;
      max_speed = speed;
      boundary_mode = mode;
      max_accel = accel;
      avoidance_max_accel = avoidance_accel;
      avoidance_strength = strength;
      goal_tolerance = tolerance;
      prediction_horizon = horizon;
    } in
        refuse c (post_init c)
