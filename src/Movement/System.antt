-- ===== src/Movement/System.antt =====
-- `MovementSystem.step` over policies that change nothing but the velocities of their batch.
use drone_swarm_simulator.Prelude.{
  ℕ, suc, ◌<◌, Bool, true, false, ◌&&◌, Option, List, [], ◌∷◌, map, ◌≡◌, ◌≢◌, refl, sym, ap, subst,
  ◌∙◌, arith, length, get_or, ◌==◌,
}
use drone_swarm_simulator.Prelude.Members.{In, All}
use drone_swarm_simulator.Prelude.Results.{Result, ok, err, OnOk, ◌>>=◌}
use drone_swarm_simulator.Numeric.{Floats, zeros}
use drone_swarm_simulator.Config.{SimulationConfig}
use drone_swarm_simulator.State.{DroneState, num_drones, nonzero_from, active_indices}
use drone_swarm_simulator.Arrays.{zip_with}
use drone_swarm_simulator.Arrays.Rows.{length-set_rows, set_rows-apart, set_rows-map}
use drone_swarm_simulator.Movement.{
  MovementAlgorithm, MovementContext, MovementError, unknown_policies, no_context,
}
use drone_swarm_simulator.Movement.Dispatch.{
  Registry, batch, update_batch, run_policies, integrate, moved_row, unknown_ids, raise_unknown,
  step_movement,
}

batch_from-active :
    (pid i : ℕ) (bs : List Bool) (qs : List ℕ) (k : ℕ)
    → In k (nonzero_from i (zip_with (λ b q. b && (q == pid)) bs qs))
    → In k (nonzero_from i bs)
batch_from-active pid i [] qs k m = absurd m
batch_from-active pid i (b ∷ bs) [] k m = absurd m
batch_from-active pid i (false ∷ bs) (q ∷ qs) k m = batch_from-active pid (suc i) bs qs k m
batch_from-active pid i (true ∷ bs) (q ∷ qs) k m =
    ground (arith, batch_from-active pid (suc i) bs qs k)

-- The error of a result, as a result of another type.
abbrev pub error_of : {A B : Type 0} → Result MovementError B → Result MovementError A
error_of (ok b) = err no_context
error_of (err e) = err e

pub bind_unraised :
    {A B : Type 0}
    → (r : Result MovementError A) (k : A → Result MovementError B) → r ≢ err unknown_policies
    → ((a : A) → k a ≢ err unknown_policies)
    → (r >>= k) ≢ err unknown_policies
bind_unraised (ok a) k h g = g a
bind_unraised (err e) k h g = λ q. h (ap error_of q)

module _ {F : Type 0} ⦃f : Floats F⦄ where
  -- What an update of the batch `idx` leaves as it was.
  pub record OnlyVelocities (idx : List ℕ) (s t : DroneState F) : Type 0 where
    pub positions : t.positions ≡ s.positions
    pub velocity_rows : length t.velocities ≡ length s.velocities
    pub active_mask : t.active_mask ≡ s.active_mask
    pub policies : t.movement_policy_ids ≡ s.movement_policy_ids
    pub goals : t.goal_positions ≡ s.goal_positions
    pub velocity_apart :
        (k : ℕ) → ¬ (In k idx) → get_or t.velocities k zeros ≡ get_or s.velocities k zeros

  pub unchanged : (idx : List ℕ) (s : DroneState F) → OnlyVelocities idx s s
  unchanged idx s = record {
    positions = refl;
    velocity_rows = refl;
    active_mask = refl;
    policies = refl;
    goals = refl;
    velocity_apart = λ k h. refl;
  }

  pub OnlyVelocities-weaken :
      (xs zs : List ℕ) (s t : DroneState F)
      → ((k : ℕ) → In k xs → In k zs)
      → OnlyVelocities xs s t
      → OnlyVelocities zs s t
  OnlyVelocities-weaken xs zs s t h a = record {
    positions = a.positions;
    velocity_rows = a.velocity_rows;
    active_mask = a.active_mask;
    policies = a.policies;
    goals = a.goals;
    velocity_apart = λ k n. a.velocity_apart k (λ m. n (h k m));
  }

  pub OnlyVelocities-trans :
      (zs : List ℕ) (s t u : DroneState F)
      → OnlyVelocities zs s t
      → OnlyVelocities zs t u
      → OnlyVelocities zs s u
  OnlyVelocities-trans zs s t u a b = record {
    positions = b.positions ∙ a.positions;
    velocity_rows = b.velocity_rows ∙ a.velocity_rows;
    active_mask = b.active_mask ∙ a.active_mask;
    policies = b.policies ∙ a.policies;
    goals = b.goals ∙ a.goals;
    velocity_apart = λ k n. b.velocity_apart k n ∙ a.velocity_apart k n;
  }

  -- The state after the movement of the drones `act`.
  pub record IsMoved (c : SimulationConfig F) (s t : DroneState F) : Type 0 where
    pub position_rows : num_drones t ≡ num_drones s
    pub velocity_rows : length t.velocities ≡ length s.velocities
    pub active_mask : t.active_mask ≡ s.active_mask
    pub policies : t.movement_policy_ids ≡ s.movement_policy_ids
    pub goals : t.goal_positions ≡ s.goal_positions
    pub moved :
        (k : ℕ)
        → In k (active_indices s)
        → k < num_drones s
        → let p = get_or s.positions k zeros in
          let v = get_or t.velocities k zeros in
          let q = get_or t.positions k zeros in
          let dt = f.to_float32 c.dt in
          (q.x ≡ f.to_float32 (f.add p.x (f.to_float32 (f.mul dt v.x))))
          × (q.y ≡ f.to_float32 (f.add p.y (f.to_float32 (f.mul dt v.y))))
          × (q.z ≡ f.to_float32 (f.add p.z (f.to_float32 (f.mul dt v.z))))
    pub position_inactive :
        (k : ℕ)
        → ¬ (In k (active_indices s))
        → get_or t.positions k zeros ≡ get_or s.positions k zeros
    pub velocity_inactive :
        (k : ℕ)
        → ¬ (In k (active_indices s))
        → get_or t.velocities k zeros ≡ get_or s.velocities k zeros

  pub batch-active :
      (pid : ℕ) (s : DroneState F) (k : ℕ) → In k (batch pid s) → In k (active_indices s)
  batch-active pid s k m = batch_from-active pid 0 s.active_mask s.movement_policy_ids k m

  integrate-IsMoved :
      (c : SimulationConfig F) (s t : DroneState F)
      → OnlyVelocities (active_indices s) s t
      → IsMoved c s (integrate c t)
  unfolding integrate
  integrate-IsMoved c s t h =
      let rows = map (moved_row c t) (active_indices t) in
      let act : active_indices t ≡ active_indices s = ap (nonzero_from 0) h.active_mask in
      record {
        position_rows = length-set_rows t.positions (active_indices t) rows ∙ ap length h.positions;
        velocity_rows = h.velocity_rows;
        active_mask = h.active_mask;
        policies = h.policies;
        goals = h.goals;
        moved = λ k m l.
            let row : get_or (integrate c t).positions k zeros
                ≡ moved_row c (record s { velocities = t.velocities }) k =
              set_rows-map t.positions (active_indices t) (moved_row c t) k zeros
                (subst (λ ps. k < length ps) (sym h.positions) l) (subst (In k) (sym act) m)
              ∙ ap (λ ps. moved_row c (record s { positions = ps; velocities = t.velocities }) k)
                  h.positions in
            (ap (λ v. v.x) row, ap (λ v. v.y) row, ap (λ v. v.z) row);
        position_inactive = λ k n.
            set_rows-apart t.positions (active_indices t) rows k zeros (λ m. n (subst (In k) act m))
            ∙ ap (λ ps. get_or ps k zeros) h.positions;
        velocity_inactive = h.velocity_apart;
      }

module _ {F : Type 0} ⦃f : Floats F⦄ {G : Type 0} where
  -- A policy that changes only the velocities of the drones in its batch, and leaves the check of
  -- the policy ids to the system.
  pub record IsLawful (policy : MovementAlgorithm F G) : Type 0 where
    pub only_velocities :
        (s : DroneState F) (idx : List ℕ) (rng : G) (c : SimulationConfig F) (tick : ℕ)
        (context : Option (MovementContext F))
        → OnOk
            (λ (t, next). OnlyVelocities idx s t)
            (policy.update_velocities s idx rng c tick context)
    pub keeps_registry :
        (s : DroneState F) (idx : List ℕ) (rng : G) (c : SimulationConfig F) (tick : ℕ)
        (context : Option (MovementContext F))
        → policy.update_velocities s idx rng c tick context ≢ err unknown_policies

  pub update_batch-OnlyVelocities :
      (policy : MovementAlgorithm F G)
      → IsLawful policy
      → (idx : List ℕ) (s : DroneState F) (rng : G) (c : SimulationConfig F) (tick : ℕ)
        (context : Option (MovementContext F))
      → OnOk (λ (t, next). OnlyVelocities idx s t) (update_batch policy idx s rng c tick context)
  update_batch-OnlyVelocities policy h [] s rng c tick context = unchanged [] s
  update_batch-OnlyVelocities policy h (k ∷ ks) s rng c tick context =
      h.only_velocities s (k ∷ ks) rng c tick context

  abbrev pub Moves : List ℕ → DroneState F → Result MovementError (DroneState F × G) → Type 0
  Moves zs s r = OnOk (λ (t, next). OnlyVelocities zs s t) r

  Moves-weaken :
      (xs zs : List ℕ) (s : DroneState F) (r : Result MovementError (DroneState F × G))
      → ((k : ℕ) → In k xs → In k zs)
      → Moves xs s r
      → Moves zs s r
  Moves-weaken xs zs s (err e) h a = tt
  Moves-weaken xs zs s (ok (t, next)) h a = OnlyVelocities-weaken xs zs s t h a

  Moves-trans :
      (zs : List ℕ) (s t : DroneState F) (r : Result MovementError (DroneState F × G))
      → OnlyVelocities zs s t
      → Moves zs t r
      → Moves zs s r
  Moves-trans zs s t (err e) a b = tt
  Moves-trans zs s t (ok (u, last)) a b = OnlyVelocities-trans zs s t u a b

  -- A step of a chain of results.
  Moves-bind :
      (zs : List ℕ) (s : DroneState F) (r : Result MovementError (DroneState F × G))
      → Moves zs s r
      → (k : DroneState F × G → Result MovementError (DroneState F × G))
      → ((t : DroneState F) (next : G) → OnlyVelocities zs s t → Moves zs t (k (t, next)))
      → Moves zs s (r >>= k)
  Moves-bind zs s (err e) a k b = tt
  Moves-bind zs s (ok (t, next)) a k b = Moves-trans zs s t (k (t, next)) a (b t next a)

  abbrev pub AreLawful : Registry F G → Type 0
  AreLawful policies = All (λ e. IsLawful e.1) policies

  module _ (c : SimulationConfig F) (tick : ℕ) (context : Option (MovementContext F)) where
    run_policies-Moves :
        (policies : Registry F G) (s : DroneState F) (rng : G) (zs : List ℕ)
        → AreLawful policies
        → active_indices s ≡ zs
        → Moves zs s (run_policies policies s rng c tick context)
    unfolding run_policies
    run_policies-Moves [] s rng zs h e = unchanged zs s
    run_policies-Moves ((pid, policy) ∷ rest) s rng zs (lawful, h) e =
        let first = update_batch-OnlyVelocities policy lawful (batch pid s) s rng c tick context in
        Moves-bind zs s (update_batch policy (batch pid s) s rng c tick context)
          (Moves-weaken (batch pid s) zs s _ (λ k m. subst (In k) e (batch-active pid s k m)) first)
          (λ (t, next). run_policies rest t next c tick context)
          (λ t next a. run_policies-Moves rest t next zs h (ap (nonzero_from 0) a.active_mask ∙ e))

    abbrev AfterStep : DroneState F → Result MovementError (DroneState F × G) → Type 0
    AfterStep s r = OnOk (λ (t, next). IsMoved c s t) r

    integrated :
        (s : DroneState F) (r : Result MovementError (DroneState F × G))
        → Moves (active_indices s) s r
        → AfterStep s (r >>= λ (t, next). ok (integrate c t, next))
    integrated s (err e) h = tt
    integrated s (ok (t, next)) h = integrate-IsMoved c s t h

    after_check :
        (ks : List ℕ) (s : DroneState F) (r : Result MovementError (DroneState F × G))
        → AfterStep s r
        → AfterStep s (raise_unknown ks >>= λ u. r)
    after_check [] s r h = h
    after_check (k ∷ ks) s r h = tt

    -- When every registered policy changes only velocities of its batch, then after a step of the
    -- movement that raises no error the shapes, the mask, the policies and the goals are as
    -- before, on each axis an active drone has moved by its new velocity times the time step,
    -- rounded to float32 as the product and the sum are, and each inactive drone keeps position
    -- and velocity.
    pub step_movement-IsMoved :
        (policies : Registry F G) (s : DroneState F) (rng : G)
        → AreLawful policies
        → OnOk (λ (t, next). IsMoved c s t) (step_movement policies s rng c tick context)
    unfolding step_movement
    step_movement-IsMoved policies s rng h = after_check (unknown_ids policies s) s _ (
        integrated s (run_policies policies s rng c tick context)
          (run_policies-Moves policies s rng (active_indices s) h refl))
