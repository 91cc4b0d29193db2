-- ===== src/Movement/Policies.antt =====
-- What the four policies do to the velocities of a batch.
use drone_swarm_simulator.Prelude.{
  ℕ, Bool, true, false, Option, none, some, List, [], ◌∷◌, map, ◌≢◌, refl, ap, if◌then◌else◌,
}
use drone_swarm_simulator.Prelude.Results.{Result, ok, err, OnOk, ◌>>=◌}
use drone_swarm_simulator.Numeric.{Floats, Vec3, zeros}
use drone_swarm_simulator.Config.{SimulationConfig}
use drone_swarm_simulator.Boundaries.{any}
use drone_swarm_simulator.State.{DroneState}
use drone_swarm_simulator.Arrays.{gather}
use drone_swarm_simulator.Arrays.Rows.{length-set_rows, set_rows-apart}
use drone_swarm_simulator.Movement.{
  MovementContext, MovementError, Generators, unknown_policies, steer, with_velocities,
  update_random, update_goal_directed, goal_row, random_movement, scripted_movement,
  goal_directed_movement, with_generator,
}
use drone_swarm_simulator.Movement.Avoiding.{
  update_local_avoidance, avoid, avoiding_row, local_avoidance_movement,
}
use drone_swarm_simulator.Movement.System.{
  bind_unraised, error_of, OnlyVelocities, OnlyVelocities-trans, unchanged, IsLawful,
}

module _ {F : Type 0} ⦃f : Floats F⦄ where
  pub with_velocities-OnlyVelocities :
      (s : DroneState F) (idx : List ℕ) (rows : List (Vec3 F))
      → OnlyVelocities idx s (with_velocities s idx rows)
  with_velocities-OnlyVelocities s idx rows = record {
    positions = refl;
    velocity_rows = length-set_rows s.velocities idx rows;
    active_mask = refl;
    policies = refl;
    goals = refl;
    velocity_apart = λ k h. set_rows-apart s.velocities idx rows k zeros h;
  }

  steer-OnlyVelocities :
      (c : SimulationConfig F) (s : DroneState F) (idx : List ℕ) (goals : Option (List (Vec3 F)))
      → OnOk (OnlyVelocities idx s) (steer c s idx goals)
  steer-OnlyVelocities c s idx none = tt
  steer-OnlyVelocities c s idx (some goals) =
      with_velocities-OnlyVelocities s idx (map (goal_row c s goals) idx)

  pub goal_directed-OnlyVelocities :
      (c : SimulationConfig F) (s : DroneState F) (idx : List ℕ)
      → OnOk (OnlyVelocities idx s) (update_goal_directed c s idx)
  unfolding update_goal_directed
  goal_directed-OnlyVelocities c s [] = unchanged [] s
  goal_directed-OnlyVelocities c s (k ∷ ks) = steer-OnlyVelocities c s (k ∷ ks) s.goal_positions

  chosen :
      (b : Bool) (idx : List ℕ) (s t : DroneState F)
      → OnlyVelocities idx s t
      → OnlyVelocities idx s (if b then t else s)
  chosen true idx s t h = h
  chosen false idx s t h = unchanged idx s

  avoid-OnlyVelocities :
      (c : SimulationConfig F) (context : MovementContext F) (idx : List ℕ) (s : DroneState F)
      → OnlyVelocities idx s (avoid c context idx s)
  avoid-OnlyVelocities c context idx s =
      chosen (any (gather false context.neighbor_valid_mask idx)) idx s _
        (with_velocities-OnlyVelocities s idx (map (avoiding_row c context s.velocities) idx))

  avoided :
      (c : SimulationConfig F) (context : MovementContext F) (idx : List ℕ) (s : DroneState F)
      (r : Result MovementError (DroneState F))
      → OnOk (OnlyVelocities idx s) r
      → OnOk (OnlyVelocities idx s) (r >>= λ t. ok (avoid c context idx t))
  avoided c context idx s (err e) h = tt
  avoided c context idx s (ok t) h =
      OnlyVelocities-trans idx s t (avoid c context idx t) h (avoid-OnlyVelocities c context idx t)

  pub local_avoidance-OnlyVelocities :
      (c : SimulationConfig F) (s : DroneState F) (idx : List ℕ)
      (context : Option (MovementContext F))
      → OnOk (OnlyVelocities idx s) (update_local_avoidance c s idx context)
  unfolding update_local_avoidance
  local_avoidance-OnlyVelocities c s [] context = unchanged [] s
  local_avoidance-OnlyVelocities c s (k ∷ ks) none = tt
  local_avoidance-OnlyVelocities c s (k ∷ ks) (some context) =
      avoided c context (k ∷ ks) s _ (goal_directed-OnlyVelocities c s (k ∷ ks))

  steer-not_unknown :
      (c : SimulationConfig F) (s : DroneState F) (idx : List ℕ) (goals : Option (List (Vec3 F)))
      → steer c s idx goals ≢ err unknown_policies
  steer-not_unknown c s idx none = λ q. cc
  steer-not_unknown c s idx (some goals) = λ q. cc

  goal_directed-not_unknown :
      (c : SimulationConfig F) (s : DroneState F) (idx : List ℕ)
      → update_goal_directed c s idx ≢ err unknown_policies
  unfolding update_goal_directed
  goal_directed-not_unknown c s [] = λ q. cc
  goal_directed-not_unknown c s (k ∷ ks) = steer-not_unknown c s (k ∷ ks) s.goal_positions

  local_avoidance-not_unknown :
      (c : SimulationConfig F) (s : DroneState F) (idx : List ℕ)
      (context : Option (MovementContext F))
      → update_local_avoidance c s idx context ≢ err unknown_policies
  unfolding update_local_avoidance
  local_avoidance-not_unknown c s [] context = λ q. cc
  local_avoidance-not_unknown c s (k ∷ ks) none = λ q. cc
  local_avoidance-not_unknown c s (k ∷ ks) (some context) =
      bind_unraised (update_goal_directed c s (k ∷ ks)) (λ t. ok (avoid c context (k ∷ ks) t))
        (goal_directed-not_unknown c s (k ∷ ks)) (λ t. λ q. cc)

  module _ {G : Type 0} where
    with_generator-Moves :
        (rng : G) (idx : List ℕ) (s : DroneState F) (r : Result MovementError (DroneState F))
        → OnOk (OnlyVelocities idx s) r
        → OnOk (λ (t, next). OnlyVelocities idx s t) (with_generator rng r)
    with_generator-Moves rng idx s (ok t) h = h
    with_generator-Moves rng idx s (err e) h = tt

    with_generator-not_unknown :
        (rng : G) (r : Result MovementError (DroneState F))
        → r ≢ err unknown_policies
        → with_generator rng r ≢ err unknown_policies
    with_generator-not_unknown rng (ok t) h = λ q. cc
    with_generator-not_unknown rng (err e) h = λ q. h (ap error_of q)

    update_random-OnlyVelocities :
        (gen : Generators F G) (a : F) (s : DroneState F) (idx : List ℕ) (rng : G)
        (c : SimulationConfig F)
        → OnlyVelocities idx s (update_random gen a s idx rng c).0
    update_random-OnlyVelocities gen a s [] rng c = unchanged [] s
    update_random-OnlyVelocities gen a s (k ∷ ks) rng c =
        with_velocities-OnlyVelocities s (k ∷ ks) _

    pub random-IsLawful : (gen : Generators F G) (a : F) → IsLawful (random_movement gen a)
    unfolding random_movement
    random-IsLawful gen a = record {
      only_velocities = λ s idx rng c tick context. update_random-OnlyVelocities gen a s idx rng c;
      keeps_registry = λ s idx rng c tick context. λ q. cc;
    }

    pub scripted-IsLawful : IsLawful (scripted_movement {F = F} {G = G})
    unfolding scripted_movement
    scripted-IsLawful = record {
      only_velocities = λ s idx rng c tick context. unchanged idx s;
      keeps_registry = λ s idx rng c tick context. λ q. cc;
    }

    pub goal_directed-IsLawful : IsLawful (goal_directed_movement {F = F} {G = G})
    unfolding goal_directed_movement
    goal_directed-IsLawful = record {
      only_velocities = λ s idx rng c tick context.
          with_generator-Moves rng idx s _ (goal_directed-OnlyVelocities c s idx);
      keeps_registry = λ s idx rng c tick context.
          with_generator-not_unknown rng _ (goal_directed-not_unknown c s idx);
    }

    pub local_avoidance-IsLawful : IsLawful (local_avoidance_movement {F = F} {G = G})
    unfolding local_avoidance_movement
    local_avoidance-IsLawful = record {
      only_velocities = λ s idx rng c tick context.
          with_generator-Moves rng idx s _ (local_avoidance-OnlyVelocities c s idx context);
      keeps_registry = λ s idx rng c tick context.
          with_generator-not_unknown rng _ (local_avoidance-not_unknown c s idx context);
    }
