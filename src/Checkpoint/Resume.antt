-- ===== src/Checkpoint/Resume.antt =====
-- A loaded checkpoint is the saved simulation, and goes on as it would have.
use drone_swarm_simulator.Prelude.{
  ℕ, true, Option, none, some, List, [], ◌++◌, map, ◌≡◌, refl, sym, ap, subst, ◌∙◌, arith, length,
}
use drone_swarm_simulator.Prelude.Int.{ℤ, pos}
use drone_swarm_simulator.Prelude.Results.{ok, ◌>>=◌}
use drone_swarm_simulator.Numeric.{Floats, Vec3, vec_to_float32}
use drone_swarm_simulator.Config.{SimulationConfig, post_init}
use drone_swarm_simulator.State.{IsShaped, num_drones, GoalsFit}
use drone_swarm_simulator.Simulation.{Simulation, Libraries, init_simulation, run}
use drone_swarm_simulator.Simulation.Ticks.{run-append, run-metrics, with_metrics, without_metrics}
use drone_swarm_simulator.Checkpoint.{config_to_dict}
use drone_swarm_simulator.Checkpoint.Dictionary.{config_from_dict-to_dict}
use drone_swarm_simulator.Checkpoint.Files.{
  archive, archive_of, matrix_or_none, is_some, eq_ℤ, check_goals, load_goals, validate_archive,
  validate_checkpoint, load_archive, load_checkpoint, meta_of,
}

eq_self : (n : ℤ) → eq_ℤ n n ≡ true
eq_self n = ground arith

fits : (k m : ℕ) (n : ℤ) → k ≡ m → pos m ≡ n → eq_ℤ (pos k) n ≡ true
fits k m n e h = subst (λ z. eq_ℤ (pos k) z ≡ true) (ap pos e ∙ h) (eq_self (pos k))

goals_checked :
    (F : Type 0) (m : ℕ) (n : ℤ) (o : Option (List (Vec3 F)))
    → GoalsFit m o
    → pos m ≡ n
    → check_goals (is_some o) n (matrix_or_none o) ≡ ok tt
goals_checked F m n none h e = refl
goals_checked F m n (some goals) h e = rw (fits (length goals) m n h e) refl

module _ {F : Type 0} ⦃f : Floats F⦄ where
  -- The rows hold float32 numbers.
  abbrev pub AreFloat32 : List (Vec3 F) → Type 0
  AreFloat32 rows = map vec_to_float32 rows ≡ rows

  abbrev pub GoalsAreFloat32 : Option (List (Vec3 F)) → Type 0
  GoalsAreFloat32 none = Unit
  GoalsAreFloat32 (some goals) = AreFloat32 goals

  goals_loaded :
      (o : Option (List (Vec3 F)))
      → GoalsAreFloat32 o
      → load_goals (is_some o) (matrix_or_none o) ≡ ok o
  goals_loaded none h = refl
  goals_loaded (some goals) h = ap (λ rows. ok (some rows)) h

module _ {F : Type 0} ⦃f : Floats F⦄ {G : Type 0} where
  -- One accepted configuration everywhere, arrays for as many drones, and float32 entries.
  pub record IsCoherent (sim : Simulation F G) : Type 0 where
    pub accepted : post_init sim.config ≡ ok tt
    pub world_config : sim.world.config ≡ sim.config
    pub engine_config : sim.engine.config ≡ sim.config
    pub dt : sim.clock.dt ≡ sim.config.dt
    pub drones : pos (num_drones sim.world.state) ≡ sim.config.num_drones
    pub shaped : IsShaped sim.world.state
    pub positions : AreFloat32 sim.world.state.positions
    pub velocities : AreFloat32 sim.world.state.velocities
    pub goals : GoalsAreFloat32 sim.world.state.goal_positions

  validated :
      (sim : Simulation F G)
      → IsCoherent sim
      → validate_archive none (archive_of sim) ≡ ok (meta_of sim)
  unfolding validate_archive config_to_dict
  validated sim h =
      let s = sim.world.state in
      let n = sim.config.num_drones in
      rw
        (
          fits (length s.positions) (num_drones s) n refl h.drones,
          fits (length s.velocities) (num_drones s) n h.shaped.velocities h.drones,
          fits (length s.active_mask) (num_drones s) n h.shaped.active_mask h.drones,
          fits (length s.movement_policy_ids) (num_drones s) n h.shaped.movement_policy_ids
              h.drones,
          goals_checked F (num_drones s) n s.goal_positions h.shaped.goal_positions h.drones,
        )
        refl

  -- The simulation of a record's parts, for the three places that hold the configuration's values.
  abbrev with_parts : Simulation F G → SimulationConfig F → SimulationConfig F → F → Simulation F G
  with_parts sim world_config engine_config dt = record {
    config = sim.config;
    world = record { config = world_config; state = sim.world.state };
    clock = record { dt = dt; tick = sim.clock.tick; time_s = sim.clock.time_s };
    engine = record {
      config = engine_config;
      movement = sim.engine.movement;
      rng = sim.engine.rng;
    };
    metrics = [];
  }

  parts-same :
      (sim : Simulation F G)
      → IsCoherent sim
      → with_parts sim sim.config sim.config sim.config.dt ≡ with_metrics sim []
  parts-same sim h = sym (
      ap (λ c. with_parts sim c sim.engine.config sim.clock.dt) h.world_config
      ∙ ap (λ c. with_parts sim sim.config c sim.clock.dt) h.engine_config
      ∙ ap (λ d. with_parts sim sim.config sim.config d) h.dt)

  archive-loaded :
      (sim : Simulation F G) (seeded : G)
      → IsCoherent sim
      → load_archive sim.engine.movement seeded (meta_of sim) (archive_of sim)
        ≡ ok (with_parts sim sim.config sim.config sim.config.dt)
  unfolding init_simulation
  archive-loaded sim seeded h =
      rw
        (
          config_from_dict-to_dict sim.config h.accepted,
          h.positions,
          h.velocities,
          goals_loaded sim.world.state.goal_positions h.goals,
        )
        refl

  -- For a simulation with one accepted configuration in all its parts, arrays for as many drones
  -- and float32 entries, loading what is saved of it gives the same simulation with empty metrics:
  -- configuration, world, clock and the state of the random generator.
  pub load-save :
      (sim : Simulation F G) (seeded : G)
      → IsCoherent sim
      → load_checkpoint sim.engine.movement seeded (archive (archive_of sim))
        ≡ ok (with_metrics sim [])
  unfolding load_checkpoint validate_checkpoint
  load-save sim seeded h =
      ap (λ r. r >>= λ info. load_archive sim.engine.movement seeded info (archive_of sim))
        (validated sim h)
      ∙ archive-loaded sim seeded h
      ∙ ap ok (parts-same sim h)

  -- When a run reaches a simulation with one accepted configuration in all its parts, arrays for
  -- as many drones and float32 entries, then saving and loading it and running the further ticks
  -- ends, up to the metrics, as the run of all the ticks without the checkpoint does, errors
  -- included.
  pub resume-same :
      (libs : Libraries F) (sim mid : Simulation F G) (seeded : G) (first second : List F)
      → run libs sim first ≡ ok mid
      → IsCoherent mid
      → (loaded : Simulation F G) × (load_checkpoint mid.engine.movement seeded
            (archive (archive_of mid))
          ≡ ok loaded)
        × (without_metrics (run libs loaded second)
            ≡ without_metrics (run libs sim (first ++ second)))
  resume-same libs sim mid seeded first second reached h =
      let parts : without_metrics (run libs sim (first ++ second))
          ≡ without_metrics (run libs mid second) =
        ap without_metrics
          (run-append libs first second sim ∙ ap (λ r. r >>= λ m. run libs m second) reached) in
      (with_metrics mid [], load-save mid seeded h, run-metrics libs second mid [] ∙ sym parts)
