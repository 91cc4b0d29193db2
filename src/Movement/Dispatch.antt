-- ===== src/Movement/Dispatch.antt =====
-- movement.py: `MovementSystem`, the registry of policies and its dispatch over the batches.
use drone_swarm_simulator.Prelude.{
  ℕ, Bool, false, not, ◌&&◌, ◌||◌, Option, List, [], ◌∷◌, map, get_or, select, ◌==◌,
}
use drone_swarm_simulator.Prelude.Results.{Result, ok, err, ◌>>=◌, ◌>>◌}
use drone_swarm_simulator.Numeric.{Floats, Vec3, zeros, vec_add, vec_scale, vec_to_float32}
use drone_swarm_simulator.Config.{SimulationConfig}
use drone_swarm_simulator.State.{DroneState, nonzero_from, active_indices}
use drone_swarm_simulator.Arrays.{gather, zip_with}
use drone_swarm_simulator.Arrays.Rows.{set_rows}
use drone_swarm_simulator.Movement.{
  unknown_policies, MovementAlgorithm, MovementContext, MovementError,
}

-- `MovementSystem.policies`: the items of the dictionary in their order.
abbrev pub Registry : Type 0 → Type 0 → Type 0
Registry F G = List (ℕ × MovementAlgorithm F G)

-- `if unknown: raise ValueError(...)`.
abbrev pub raise_unknown : List ℕ → Result MovementError (Unit {0})
raise_unknown [] = ok tt
raise_unknown (k ∷ ks) = err unknown_policies

module _ {F : Type 0} ⦃f : Floats F⦄ where
  -- `np.nonzero(active & (policy_ids == pid))[0]`.
  abbrev pub batch : ℕ → DroneState F → List ℕ
  batch pid s =
      nonzero_from 0 (zip_with (λ b q. b && (q == pid)) s.active_mask s.movement_policy_ids)

  module _ {G : Type 0} where
    abbrev pub is_registered : Registry F G → ℕ → Bool
    is_registered [] pid = false
    is_registered ((q, policy) ∷ rest) pid =
        let later = is_registered rest pid in (q == pid) || later

    -- The policy ids of active drones that the registry does not have.
    abbrev pub unknown_ids : Registry F G → DroneState F → List ℕ
    unknown_ids policies s =
        select (λ pid. not (is_registered policies pid))
          (gather 0 s.movement_policy_ids (active_indices s))

    abbrev pub update_batch :
        MovementAlgorithm F G
        → List ℕ
        → DroneState F
        → G
        → SimulationConfig F
        → ℕ
        → Option (MovementContext F)
        → Result MovementError (DroneState F × G)
    update_batch policy [] s rng c tick context = ok (s, rng)
    update_batch policy (k ∷ ks) s rng c tick context =
        policy.update_velocities s (k ∷ ks) rng c tick context

    unfoldable pub run_policies :
        Registry F G
        → DroneState F
        → G
        → SimulationConfig F
        → ℕ
        → Option (MovementContext F)
        → Result MovementError (DroneState F × G)
    run_policies [] s rng c tick context = ok (s, rng)
    run_policies ((pid, policy) ∷ rest) s rng c tick context = do
      (moved, next) ← update_batch policy (batch pid s) s rng c tick context
      run_policies rest moved next c tick context

  -- `positions[act] += velocities[act] * dt`, for one row.
  abbrev pub moved_row : SimulationConfig F → DroneState F → ℕ → Vec3 F
  moved_row c s k = vec_to_float32 (
      vec_add (get_or s.positions k zeros)
        (vec_to_float32 (vec_scale (f.to_float32 c.dt) (get_or s.velocities k zeros))))

  unfoldable pub integrate : SimulationConfig F → DroneState F → DroneState F
  integrate c s =
      let act = active_indices s in
      record s { positions = set_rows s.positions act (map (moved_row c s) act) }

  -- `MovementSystem.step`.
  unfoldable pub step_movement :
      {G : Type 0}
      → Registry F G
      → DroneState F
      → G
      → SimulationConfig F
      → ℕ
      → Option (MovementContext F)
      → Result MovementError (DroneState F × G)
  unfolding run_policies integrate
  step_movement policies s rng c tick context = do
    raise_unknown (unknown_ids policies s)
    (moved, next) ← run_policies policies s rng c tick context
    ok (integrate c moved, next)
