-- ===== src/Checkpoint/Files.antt =====
-- The checkpoint file: what is written, validated and loaded.
use drone_swarm_simulator.Prelude.{
  ℕ, Bool, true, false, not, ◌&&◌, Option, none, some, List, map, length, ◌==◌,
}
use drone_swarm_simulator.Prelude.Int.{ℤ, pos, leb_ℤ}
use drone_swarm_simulator.Prelude.Results.{Result, ok, err, ◌>>=◌, ◌>>◌}
use drone_swarm_simulator.Numeric.{Floats, Vec3, vec_to_float32}
use drone_swarm_simulator.Config.{SimulationConfig, raise_if}
use drone_swarm_simulator.State.{World}
use drone_swarm_simulator.Movement.Dispatch.{Registry}
use drone_swarm_simulator.Simulation.{Simulation, init_simulation, set_rng_state}
use drone_swarm_simulator.Checkpoint.{
  LoadError, Dictionary, lookup, as_integer, num_drones, schema_version, config_to_dict,
  config_from_dict, file_not_found, unreadable, missing_meta_json, unsupported_schema_version,
  drone_count_mismatch, missing_array, wrong_shape, missing_goal_positions, wrong_goal_shape,
  missing_key,
}

-- An array of points in a file: its number of columns, and its rows.
pub record Matrix (F : Type 0) : Type 0 where
  pub width : ℕ
  pub rows : List (Vec3 F)

-- The entries of `meta_json`. `schema_version` and `has_goal_positions` are read with a default.
pub record Meta (F G : Type 0) : Type 0 where
  pub schema_version : Option ℕ
  pub config : Option (Dictionary F)
  pub tick : Option ℕ
  pub time_s : Option F
  pub rng_state : Option G
  pub has_goal_positions : Option Bool

pub record Archive (F G : Type 0) : Type 0 where
  pub meta_json : Option (Meta F G)
  pub positions : Option (Matrix F)
  pub velocities : Option (Matrix F)
  pub active_mask : Option (List Bool)
  pub movement_policy_ids : Option (List ℕ)
  pub goal_positions : Option (Matrix F)

pub data File (F G : Type 0) : Type 0 where
  missing corrupt : File F G
  archive : Archive F G → File F G

abbrev pub matrix : {F : Type 0} → List (Vec3 F) → Matrix F
matrix rows = record { width = 3; rows = rows }

abbrev pub matrix_or_none : {F : Type 0} → Option (List (Vec3 F)) → Option (Matrix F)
matrix_or_none none = none
matrix_or_none (some rows) = some (matrix rows)

abbrev pub is_some : {A : Type 0} → Option A → Bool
is_some none = false
is_some (some a) = true

module _ {F G : Type 0} where
  -- The metadata and the arrays that `save_checkpoint` writes.
  abbrev pub meta_of : Simulation F G → Meta F G
  meta_of sim = record {
    schema_version = some schema_version;
    config = some (config_to_dict sim.config);
    tick = some sim.clock.tick;
    time_s = some sim.clock.time_s;
    rng_state = some sim.engine.rng;
    has_goal_positions = some (is_some sim.world.state.goal_positions);
  }

  abbrev pub archive_of : Simulation F G → Archive F G
  archive_of sim =
      let s = sim.world.state in
      record {
        meta_json = some (meta_of sim);
        positions = some (matrix s.positions);
        velocities = some (matrix s.velocities);
        active_mask = some s.active_mask;
        movement_policy_ids = some s.movement_policy_ids;
        goal_positions = matrix_or_none s.goal_positions;
      }

abbrev pub eq_ℤ : ℤ → ℤ → Bool
eq_ℤ a b = leb_ℤ a b && leb_ℤ b a

-- The shapes `(n, 3)` and `(n,)`.
abbrev pub has_shape : {F : Type 0} → ℤ → Matrix F → Bool
has_shape n m = eq_ℤ (pos (length m.rows)) n && (m.width == 3)

abbrev pub has_length : {A : Type 0} → ℤ → List A → Bool
has_length n xs = eq_ℤ (pos (length xs)) n

abbrev pub require : {A : Type 0} → LoadError → Option A → Result LoadError A
require e none = err e
require e (some a) = ok a

-- `version != CHECKPOINT_SCHEMA_VERSION`.
abbrev pub is_supported : Option ℕ → Bool
is_supported none = false
is_supported (some v) = v == schema_version

-- Any other exception of the validation becomes a `CheckpointError`.
abbrev pub as_unreadable : Result LoadError ℤ → Result LoadError ℤ
as_unreadable (ok n) = ok n
as_unreadable (err e) = err unreadable

abbrev pub is_expected : Option ℤ → ℤ → Bool
is_expected none n = true
is_expected (some expected) n = eq_ℤ n expected

abbrev pub is_true : Option Bool → Bool
is_true none = false
is_true (some b) = b

module _ {F : Type 0} where
  abbrev pub world_of :
      SimulationConfig F
      → List (Vec3 F)
      → List (Vec3 F)
      → List Bool
      → List ℕ
      → Option (List (Vec3 F))
      → World F
  world_of c positions velocities active_mask policy_ids goals = record {
    config = c;
    state = record {
      positions = positions;
      velocities = velocities;
      active_mask = active_mask;
      movement_policy_ids = policy_ids;
      goal_positions = goals;
    };
  }

  abbrev pub check_goals : Bool → ℤ → Option (Matrix F) → Result LoadError (Unit {0})
  check_goals false n goals = ok tt
  check_goals true n none = err missing_goal_positions
  check_goals true n (some m) = raise_if (not (has_shape n m)) wrong_goal_shape

module _ {F G : Type 0} where
  unfoldable pub validate_archive : Option ℤ → Archive F G → Result LoadError (Meta F G)
  validate_archive expected a = do
    info ← require missing_meta_json a.meta_json
    raise_if (not (is_supported info.schema_version)) unsupported_schema_version
    d ← require unreadable info.config
    n ← as_unreadable (lookup num_drones d >>= as_integer)
    raise_if (not (is_expected expected n)) drone_count_mismatch
    positions ← require missing_array a.positions
    velocities ← require missing_array a.velocities
    active_mask ← require missing_array a.active_mask
    policy_ids ← require missing_array a.movement_policy_ids
    raise_if (not (has_shape n positions)) wrong_shape
    raise_if (not (has_shape n velocities)) wrong_shape
    raise_if (not (has_length n active_mask)) wrong_shape
    raise_if (not (has_length n policy_ids)) wrong_shape
    check_goals (is_true info.has_goal_positions) n a.goal_positions
    ok info

  -- `validate_checkpoint`.
  unfoldable pub validate_checkpoint : Option ℤ → File F G → Result LoadError (Meta F G)
  unfolding validate_archive
  validate_checkpoint expected missing = err file_not_found
  validate_checkpoint expected corrupt = err unreadable
  validate_checkpoint expected (archive a) = validate_archive expected a

module _ {F : Type 0} ⦃f : Floats F⦄ where
  abbrev pub rows_to_float32 : Matrix F → List (Vec3 F)
  rows_to_float32 m = map vec_to_float32 m.rows

  abbrev pub load_goals : Bool → Option (Matrix F) → Result LoadError (Option (List (Vec3 F)))
  load_goals false goals = ok none
  load_goals true none = err missing_key
  load_goals true (some m) = ok (some (rows_to_float32 m))

module _ {F : Type 0} ⦃f : Floats F⦄ {G : Type 0} where
  -- The clock and the generator that replace those of the new simulation.
  abbrev pub at_time : Simulation F G → ℕ → F → G → Simulation F G
  at_time sim tick time_s rng_state = record sim {
    clock = record { dt = sim.config.dt; tick = tick; time_s = time_s };
    engine = set_rng_state sim.engine rng_state;
  }

  abbrev pub load_archive :
      Registry F G → G → Meta F G → Archive F G → Result LoadError (Simulation F G)
  load_archive movement seeded info a = do
    d ← require missing_key info.config
    c ← config_from_dict d
    positions ← require missing_key a.positions
    velocities ← require missing_key a.velocities
    active_mask ← require missing_key a.active_mask
    policy_ids ← require missing_key a.movement_policy_ids
    goals ← load_goals (is_true info.has_goal_positions) a.goal_positions
    tick ← require missing_key info.tick
    time_s ← require missing_key info.time_s
    rng_state ← require missing_key info.rng_state
    ok (
        at_time
          (init_simulation c movement
            (world_of c (rows_to_float32 positions) (rows_to_float32 velocities) active_mask
              policy_ids goals)
            seeded)
          tick time_s rng_state)

  -- `load_checkpoint`.
  unfoldable pub load_checkpoint : Registry F G → G → File F G → Result LoadError (Simulation F G)
  unfolding validate_checkpoint config_from_dict init_simulation
  load_checkpoint movement seeded missing = err file_not_found
  load_checkpoint movement seeded corrupt = err unreadable
  load_checkpoint movement seeded (archive a) = do
    info ← validate_checkpoint none (archive a)
    load_archive movement seeded info a
