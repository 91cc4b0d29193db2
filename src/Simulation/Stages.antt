-- ===== src/Simulation/Stages.antt =====
-- One tick: profiling changes nothing, and what the stages do to a drone in no collision.
use drone_swarm_simulator.Prelude.{
  ℕ, ◌<◌, Bool, Option, true, false, not, List, [], ◌∷◌, length, ◌≡◌, refl, sym, subst, ◌∙◌, arith,
  get_or,
}
use drone_swarm_simulator.Prelude.Members.{In}
use drone_swarm_simulator.Prelude.Results.{Result, ok, err, OnOk, ◌>>=◌}
use drone_swarm_simulator.Numeric.{Floats, IsExact, ◌≼◌, Vec3, zeros, vec_to_float32}
use drone_swarm_simulator.Config.{SimulationConfig, IsValid}
use drone_swarm_simulator.State.{DroneState, World, num_drones, active_indices, In-nonzero_iff}
use drone_swarm_simulator.Collisions.{DetectionResult, detect, classify}
use drone_swarm_simulator.Collisions.Resolution.{Apart, resolve-Keeps}
use drone_swarm_simulator.Boundaries.Frame.{apply_boundaries-IsFramed}
use drone_swarm_simulator.Boundaries.Inside.{IsInBox, apply_boundaries-AreBounded}
use drone_swarm_simulator.Movement.{MovementContext, MovementError}
use drone_swarm_simulator.Movement.Dispatch.{step_movement}
use drone_swarm_simulator.Movement.System.{IsMoved, AreLawful, step_movement-IsMoved}
use drone_swarm_simulator.Simulation.{
  SimulationEngine, SimulationClock, Libraries, Ticked, TickProfile, moved_state, plain_stages,
  profiled_stages, engine_step, profiled_step, bounded, detected, finish, needs_context,
  context_for, profiled_context_for,
}

module _ {F : Type 0} ⦃f : Floats F⦄ where
  classify-candidates :
      (pairs : List (ℕ × ℕ)) (positions : List (Vec3 F)) (collision near : F) (n : ℕ)
      → (classify pairs positions collision near n).num_candidate_pairs ≡ n
  unfolding classify
  classify-candidates [] positions collision near n = refl
  classify-candidates (q ∷ rest) positions collision near n = refl

module _ {F : Type 0} ⦃f : Floats F⦄ (libs : Libraries F) where
  contexts-same :
      (b : Bool) (c : SimulationConfig F) (s : DroneState F)
      → (profiled_context_for libs b c s).0 ≡ context_for libs b c s
  contexts-same true c s = refl
  contexts-same false c s = refl

  skipped-same :
      (b : Bool) (c : SimulationConfig F) (s : DroneState F)
      → (profiled_context_for libs b c s).1 ≡ not b
  skipped-same true c s = refl
  skipped-same false c s = refl

module _ {F : Type 0} ⦃f : Floats F⦄ (libs : Libraries F) {G : Type 0} where
  -- The tick of a profiled step, its profile left out.
  abbrev pub without_profile :
      Result MovementError (Ticked F G × TickProfile F) → Result MovementError (Ticked F G)
  without_profile r = r >>= λ (t, profile). ok t

  -- What the profile says of the tick.
  pub record IsProfile (e : SimulationEngine F G) (t : Ticked F G × TickProfile F) : Type 0 where
    pub skipped : t.1.context_stages_skipped ≡ not (needs_context e)
    pub candidates : t.1.candidate_pair_count ≡ t.0.result.num_candidate_pairs
    pub collisions : t.1.collision_pair_count ≡ length t.0.result.collision_pairs
    pub near_misses : t.1.near_miss_pair_count ≡ length t.0.result.near_miss_pairs
    pub active : t.1.active_drone_count ≡ length (active_indices t.0.world.state)

  stages-same :
      (e : SimulationEngine F G) (w : World F) (skipped : Bool)
      → skipped ≡ not (needs_context e)
      → (r : Result MovementError (DroneState F × G))
      → (without_profile (r >>= profiled_stages libs e w skipped)
          ≡ (r >>= plain_stages libs e.config w))
        × OnOk (IsProfile e) (r >>= profiled_stages libs e w skipped)
  unfolding detect
  stages-same e w skipped h (err x) = (refl, tt)
  stages-same e w skipped h (ok (moved, rng)) = (
    refl,
    record {
      skipped = h;
      candidates = sym (classify-candidates _ _ _ _ _);
      collisions = refl;
      near_misses = refl;
      active = refl;
    },
  )

  -- A profiled tick, which has its own copy of the stages, makes the candidate pairs by itself and
  -- hands them to the detector, leaves the world, the generator and the detected pairs, or raises
  -- the error, of a tick without a profile; its profile says that the context was skipped exactly
  -- when no policy needs one, and counts the candidate pairs, the collisions and the near misses
  -- of the result and the active drones.
  pub profiled_step-same :
      (e : SimulationEngine F G) (w : World F) (k : SimulationClock F)
      → (without_profile (profiled_step libs e w k) ≡ engine_step libs e w k)
        × OnOk (IsProfile e) (profiled_step libs e w k)
  unfolding profiled_step engine_step
  profiled_step-same e w k =
      let moving = λ (context : Option (MovementContext F)).
        step_movement e.movement w.state e.rng e.config k.tick context in
      let skipped = (profiled_context_for libs (needs_context e) e.config w.state).1 in
      subst
        (λ context.
          (without_profile (moving context >>= profiled_stages libs e w skipped)
            ≡ engine_step libs e w k)
          × OnOk (IsProfile e) (moving context >>= profiled_stages libs e w skipped))
        (sym (contexts-same libs (needs_context e) e.config w.state))
        (stages-same e w skipped (skipped-same libs (needs_context e) e.config w.state)
          (moved_state libs e w k))

  -- What a tick does to the drones that are in none of its collisions.
  pub record IsTicked (w : World F) (t : Ticked F G) : Type 0 where
    pub config : t.world.config ≡ w.config
    pub drones : num_drones t.world.state ≡ num_drones w.state
    pub active_mask : t.world.state.active_mask ≡ w.state.active_mask
    pub policies : t.world.state.movement_policy_ids ≡ w.state.movement_policy_ids
    pub goals : t.world.state.goal_positions ≡ w.state.goal_positions
    pub inactive_kept :
        (k : ℕ)
        → Apart k t.result.collision_pairs
        → get_or w.state.active_mask k false ≡ false
        → (get_or t.world.state.positions k zeros ≡ get_or w.state.positions k zeros)
          × (get_or t.world.state.velocities k zeros ≡ get_or w.state.velocities k zeros)
    pub active_inside :
        (k : ℕ)
        → Apart k t.result.collision_pairs
        → k < num_drones w.state
        → get_or w.state.active_mask k false ≡ true
        → IsInBox
            (vec_to_float32 w.config.bounds_min)
            (vec_to_float32 w.config.bounds_max)
            (get_or t.world.state.positions k zeros)

  module _ (laws : IsExact F) (rounds : (a b : F) → a ≼ b → f.to_float32 a ≼ f.to_float32 b)
      (e : SimulationEngine F G) (w : World F) (valid : IsValid w.config) where
    abbrev after : DroneState F → World F
    after moved = bounded libs w moved

    not_active :
        (k : ℕ) → get_or w.state.active_mask k false ≡ false → ¬ (In k (active_indices w.state))
    not_active k h m =
        let (l, a) = (In-nonzero_iff w.state.active_mask k).0 m in absurd (ground arith)

    finish-IsTicked :
        (moved : DroneState F) (rng : G) (result : DetectionResult F)
        → IsMoved e.config w.state moved
        → IsTicked w (finish libs e.config (after moved) rng result)
    finish-IsTicked moved rng result h =
        let mid : World F = record w { state = moved } in
        let frame = apply_boundaries-IsFramed mid in
        let inside = apply_boundaries-AreBounded laws mid rounds valid in
        let keeps = (resolve-Keeps e.config (after moved).state result).0 in
        record {
          config = frame.config;
          drones = keeps.position_rows ∙ frame.drones ∙ h.position_rows;
          active_mask = keeps.active_mask ∙ frame.active_mask ∙ h.active_mask;
          policies = keeps.policies ∙ frame.policies ∙ h.policies;
          goals = keeps.goals ∙ frame.goals ∙ h.goals;
          inactive_kept = λ k apart off.
              let off' : get_or moved.active_mask k false ≡ false =
                subst (λ bs. get_or bs k false ≡ false) (sym h.active_mask) off in
              let (p, v) = inside.inactive_kept k off' in
              (
                keeps.position_apart k apart ∙ p ∙ h.position_inactive k (not_active k off),
                keeps.velocity_apart k apart ∙ v ∙ h.velocity_inactive k (not_active k off),
              );
          active_inside = λ k apart l on.
              subst
                (IsInBox (vec_to_float32 w.config.bounds_min) (vec_to_float32 w.config.bounds_max))
                (sym (keeps.position_apart k apart))
                (inside.active_inside k (subst (λ n. k < n) (sym h.position_rows) l)
                  (subst (λ bs. get_or bs k false ≡ true) (sym h.active_mask) on));
        }

    finished :
        (r : Result MovementError (DroneState F × G))
        → OnOk (λ (moved, rng). IsMoved e.config w.state moved) r
        → OnOk (IsTicked w) (r >>= plain_stages libs e.config w)
    finished (err x) h = tt
    finished (ok (moved, rng)) h =
        finish-IsTicked moved rng (detected libs e.config (after moved).state) h

    -- Under exact order laws, a rounding to float32 that keeps the order, a valid configuration of
    -- the world and policies that change only velocities of their batch: a tick that raises no
    -- error keeps the configuration, the number of drones, the mask, the policies and the goals;
    -- of the drones in none of its collisions the inactive ones keep position and velocity and the
    -- active ones are in the box.
    pub engine_step-IsTicked :
        (k : SimulationClock F) → AreLawful e.movement → OnOk (IsTicked w) (engine_step libs e w k)
    unfolding engine_step
    engine_step-IsTicked k lawful = finished (moved_state libs e w k) (
        step_movement-IsMoved e.config k.tick (context_for libs (needs_context e) e.config w.state)
          e.movement w.state e.rng lawful)
