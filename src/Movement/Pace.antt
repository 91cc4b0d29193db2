-- ===== src/Movement/Pace.antt =====
-- The goal-directed and the avoiding policy keep the speed limit of their batch.
use drone_swarm_simulator.Prelude.{
  ℕ, ◌<◌, Bool, true, false, Option, none, some, List, [], ◌∷◌, map, sym, subst, length, get_or,
  if◌then◌else◌,
}
use drone_swarm_simulator.Prelude.Members.{In}
use drone_swarm_simulator.Prelude.Results.{Result, ok, err, OnOk, ◌>>=◌}
use drone_swarm_simulator.Numeric.{Floats, IsExact, ◌≼◌, Vec3, zeros, norm}
use drone_swarm_simulator.Numeric.Scaling.{IsScalable}
use drone_swarm_simulator.Config.{SimulationConfig}
use drone_swarm_simulator.Boundaries.{any}
use drone_swarm_simulator.State.{DroneState}
use drone_swarm_simulator.Arrays.{gather}
use drone_swarm_simulator.Arrays.Rows.{length-set_rows, set_rows-map}
use drone_swarm_simulator.Movement.{
  MovementAlgorithm, MovementContext, MovementError, with_velocities, steer, update_goal_directed,
  goal_row, with_generator, goal_directed_movement,
}
use drone_swarm_simulator.Movement.Avoiding.{
  avoid, update_local_avoidance, avoiding_row, local_avoidance_movement,
}
use drone_swarm_simulator.Movement.Limits.{norm-goal_velocity, norm-avoiding_velocity}

module _ {F : Type 0} ⦃f : Floats F⦄ where
  -- The drone `k` is within the speed limit.
  abbrev pub WithinLimit : SimulationConfig F → DroneState F → ℕ → Type 0
  WithinLimit c s k = norm (get_or s.velocities k zeros) ≼ c.max_speed

  abbrev pub AreWithinLimit : SimulationConfig F → List ℕ → DroneState F → Type 0
  AreWithinLimit c idx s = (k : ℕ) → In k idx → k < length s.velocities → WithinLimit c s k

  module _ (laws : IsExact F) (exact : IsScalable F) (c : SimulationConfig F)
      (some_speed : f.of_ℕ 0 ≼ c.max_speed) where
    steer-AreWithinLimit :
        (s : DroneState F) (idx : List ℕ) (goals : Option (List (Vec3 F)))
        → OnOk (AreWithinLimit c idx) (steer c s idx goals)
    steer-AreWithinLimit s idx none = tt
    steer-AreWithinLimit s idx (some goals) = λ k m l.
        subst (λ v. norm v ≼ c.max_speed)
          (sym (
            set_rows-map s.velocities idx (goal_row c s goals) k zeros
              (subst (λ n. k < n) (length-set_rows s.velocities idx _) l) m))
          (norm-goal_velocity laws exact c some_speed _ _ _)

    goal_directed-AreWithinLimit :
        (s : DroneState F) (idx : List ℕ)
        → OnOk (AreWithinLimit c idx) (update_goal_directed c s idx)
    unfolding update_goal_directed
    goal_directed-AreWithinLimit s [] = λ k m l. absurd m
    goal_directed-AreWithinLimit s (k ∷ ks) = steer-AreWithinLimit s (k ∷ ks) s.goal_positions

    avoid-AreWithinLimit :
        (context : MovementContext F) (idx : List ℕ) (b : Bool) (s : DroneState F)
        → AreWithinLimit c idx s
        → AreWithinLimit c idx
            (if b then with_velocities s idx (map (avoiding_row c context s.velocities) idx) else s)
    avoid-AreWithinLimit context idx false s h = h
    avoid-AreWithinLimit context idx true s h = λ k m l.
        subst (λ v. norm v ≼ c.max_speed)
          (sym (
            set_rows-map s.velocities idx (avoiding_row c context s.velocities) k zeros
              (subst (λ n. k < n) (length-set_rows s.velocities idx _) l) m))
          (norm-avoiding_velocity laws exact c some_speed _ _ _)

    avoided :
        (context : MovementContext F) (idx : List ℕ) (r : Result MovementError (DroneState F))
        → OnOk (AreWithinLimit c idx) r
        → OnOk (AreWithinLimit c idx) (r >>= λ t. ok (avoid c context idx t))
    avoided context idx (err e) h = tt
    avoided context idx (ok t) h =
        avoid-AreWithinLimit context idx (any (gather false context.neighbor_valid_mask idx)) t h

    local_avoidance-AreWithinLimit :
        (s : DroneState F) (idx : List ℕ) (context : Option (MovementContext F))
        → OnOk (AreWithinLimit c idx) (update_local_avoidance c s idx context)
    unfolding update_local_avoidance
    local_avoidance-AreWithinLimit s [] context = λ k m l. absurd m
    local_avoidance-AreWithinLimit s (k ∷ ks) none = tt
    local_avoidance-AreWithinLimit s (k ∷ ks) (some context) =
        avoided context (k ∷ ks) _ (goal_directed-AreWithinLimit s (k ∷ ks))

module _ {F : Type 0} ⦃f : Floats F⦄ {G : Type 0} where
  -- A policy that keeps the drones of its batch within a speed limit that is not negative.
  pub record KeepsLimit (policy : MovementAlgorithm F G) : Type 0 where
    pub limited :
        (s : DroneState F) (idx : List ℕ) (rng : G) (c : SimulationConfig F) (tick : ℕ)
        (context : Option (MovementContext F))
        → f.of_ℕ 0 ≼ c.max_speed
        → OnOk
            (λ (t, next). AreWithinLimit c idx t)
            (policy.update_velocities s idx rng c tick context)

  with_generator-limited :
      (c : SimulationConfig F) (rng : G) (idx : List ℕ) (r : Result MovementError (DroneState F))
      → OnOk (AreWithinLimit c idx) r
      → OnOk (λ (t, next). AreWithinLimit c idx t) (with_generator rng r)
  with_generator-limited c rng idx (ok t) h = h
  with_generator-limited c rng idx (err e) h = tt

  module _ (laws : IsExact F) (exact : IsScalable F) where
    pub goal_directed-KeepsLimit : KeepsLimit (goal_directed_movement {F = F} {G = G})
    unfolding goal_directed_movement
    goal_directed-KeepsLimit = record {
      limited = λ s idx rng c tick context h.
          with_generator-limited c rng idx _ (goal_directed-AreWithinLimit laws exact c h s idx);
    }

    pub local_avoidance-KeepsLimit : KeepsLimit (local_avoidance_movement {F = F} {G = G})
    unfolding local_avoidance_movement
    local_avoidance-KeepsLimit = record {
      limited = λ s idx rng c tick context h.
          with_generator-limited c rng idx _
            (local_avoidance-AreWithinLimit laws exact c h s idx context);
    }
