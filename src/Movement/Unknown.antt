-- ===== src/Movement/Unknown.antt =====
-- `MovementSystem.step` and the policy ids that the registry does not have.
use drone_swarm_simulator.Prelude.{
  ℕ, Bool, true, false, not, Option, List, [], ◌∷◌, ◌≡◌, ◌≢◌, ◌↔◌, inl, refl, sym, ap, subst,
  get_or,
}
use drone_swarm_simulator.Prelude.Members.{In, In-select, In-select_cases, In-map, In-map_cases}
use drone_swarm_simulator.Prelude.Results.{Result, ok, err, ◌>>=◌}
use drone_swarm_simulator.Numeric.{Floats}
use drone_swarm_simulator.Config.{SimulationConfig}
use drone_swarm_simulator.State.{DroneState, active_indices}
use drone_swarm_simulator.Movement.{
  MovementAlgorithm, MovementContext, MovementError, unknown_policies,
}
use drone_swarm_simulator.Movement.Dispatch.{
  Registry, batch, update_batch, run_policies, integrate, is_registered, unknown_ids, raise_unknown,
  step_movement,
}
use drone_swarm_simulator.Movement.System.{IsLawful, AreLawful, bind_unraised}

raised :
    {A : Type 0}
    → (ks : List ℕ) (pid : ℕ) (r : Result MovementError A) → In pid ks
    → (raise_unknown ks >>= λ u. r) ≡ err unknown_policies
raised [] pid r m = absurd m
raised (k ∷ ks) pid r m = refl

not_raised :
    {A : Type 0}
    → (ks : List ℕ) (r : Result MovementError A) → r ≢ err unknown_policies
    → (raise_unknown ks >>= λ u. r) ≡ err unknown_policies
    → (pid : ℕ) × In pid ks
not_raised [] r h e = absurd (h e)
not_raised (k ∷ ks) r h e = (k, inl refl)

flipped : (b : Bool) → not b ≡ true → b ≡ false
flipped true h = sym h
flipped false h = refl

module _ {F : Type 0} ⦃f : Floats F⦄ {G : Type 0} where
  -- Some active drone has a policy id that is not registered.
  abbrev pub HasUnknown : Registry F G → DroneState F → Type 0
  HasUnknown policies s =
      (k : ℕ) × In k (active_indices s)
      × (is_registered policies (get_or s.movement_policy_ids k 0) ≡ false)

  pub In-unknown_ids :
      (policies : Registry F G) (s : DroneState F)
      → HasUnknown policies s
      → (pid : ℕ) × In pid (unknown_ids policies s)
  In-unknown_ids policies s (k, m, e) =
      let pid = get_or s.movement_policy_ids k 0 in
      (
        pid,
        In-select (λ q. not (is_registered policies q)) pid _
            (In-map (λ i. get_or s.movement_policy_ids i 0) k (active_indices s) m) (ap not e),
      )

  unknown_ids-HasUnknown :
      (policies : Registry F G) (s : DroneState F) (pid : ℕ)
      → In pid (unknown_ids policies s)
      → HasUnknown policies s
  unknown_ids-HasUnknown policies s pid m =
      let (m', e) = In-select_cases (λ q. not (is_registered policies q)) pid _ m in
      let (k, mk, ek) =
        In-map_cases (λ i. get_or s.movement_policy_ids i 0) pid (active_indices s) m' in
      (
        k,
        mk,
        subst (λ q. is_registered policies q ≡ false) ek (flipped (is_registered policies pid) e),
      )

  module _ (c : SimulationConfig F) (tick : ℕ) (context : Option (MovementContext F)) where
    batch_unraised :
        (policy : MovementAlgorithm F G) (idx : List ℕ) (s : DroneState F) (rng : G)
        → IsLawful policy
        → update_batch policy idx s rng c tick context ≢ err unknown_policies
    batch_unraised policy [] s rng h = λ q. cc
    batch_unraised policy (k ∷ ks) s rng h = h.keeps_registry s (k ∷ ks) rng c tick context

    policies_unraised :
        (policies : Registry F G) (s : DroneState F) (rng : G)
        → AreLawful policies
        → run_policies policies s rng c tick context ≢ err unknown_policies
    unfolding run_policies
    policies_unraised [] s rng h = λ q. cc
    policies_unraised ((pid, policy) ∷ rest) s rng (lawful, h) =
        bind_unraised (update_batch policy (batch pid s) s rng c tick context)
          (λ (t, next). run_policies rest t next c tick context)
          (batch_unraised policy (batch pid s) s rng lawful)
          (λ (t, next). policies_unraised rest t next h)

    -- When every registered policy changes only velocities of its batch and does not raise the
    -- error itself, a step of the movement raises the error for unknown policies exactly when some
    -- active drone has a policy id that is not registered.
    pub step_movement-unknown_iff :
        (policies : Registry F G) (s : DroneState F) (rng : G)
        → AreLawful policies
        → (step_movement policies s rng c tick context ≡ err unknown_policies)
          ↔ HasUnknown policies s
    unfolding step_movement
    step_movement-unknown_iff policies s rng h =
        let integrated : DroneState F × G → Result MovementError (DroneState F × G) =
          λ (t, next). ok (integrate c t, next) in
        let rest = run_policies policies s rng c tick context >>= integrated in
        (
          λ e.
              let (pid, m) =
                not_raised (unknown_ids policies s) rest
                  (bind_unraised (run_policies policies s rng c tick context) integrated
                    (policies_unraised policies s rng h) (λ t. λ q. cc))
                  e in
              unknown_ids-HasUnknown policies s pid m,
          λ u.
              let (pid, m) = In-unknown_ids policies s u in
              raised (unknown_ids policies s) pid rest m,
        )
