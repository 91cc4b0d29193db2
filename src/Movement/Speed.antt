-- ===== src/Movement/Speed.antt =====
-- After a step of the movement, a drone with a policy that steers keeps the speed limit.
use drone_swarm_simulator.Prelude.{
  ℕ, ◌<◌, true, Option, List, [], ◌∷◌, ◌≡◌, ◌⊎◌, inl, inr, refl, sym, ap, ◌∙◌, subst, arith, get_or,
  Bool-cases, ◌==◌, ==_iff,
}
use drone_swarm_simulator.Prelude.Members.{In, All}
use drone_swarm_simulator.Prelude.Results.{Result, ok, err, OnOk, ◌>>=◌}
use drone_swarm_simulator.Numeric.{Floats, IsExact, ◌≼◌, norm}
use drone_swarm_simulator.Numeric.Scaling.{IsScalable}
use drone_swarm_simulator.Config.{SimulationConfig}
use drone_swarm_simulator.State.{DroneState, IsShaped, active_indices}
use drone_swarm_simulator.Movement.{
  MovementAlgorithm, MovementContext, MovementError, goal_directed_movement,
}
use drone_swarm_simulator.Movement.Avoiding.{local_avoidance_movement}
use drone_swarm_simulator.Movement.Dispatch.{
  Registry, batch, update_batch, run_policies, integrate, is_registered, unknown_ids, raise_unknown,
  step_movement,
}
use drone_swarm_simulator.Movement.System.{
  OnlyVelocities, AreLawful, Moves, update_batch-OnlyVelocities,
}
use drone_swarm_simulator.Movement.Unknown.{In-unknown_ids}
use drone_swarm_simulator.Movement.Batches.{IsSeated, In-batch, not-In-batch, IsSeated-kept, seat}
use drone_swarm_simulator.Movement.Pace.{
  AreWithinLimit, KeepsLimit, WithinLimit, goal_directed-KeepsLimit, local_avoidance-KeepsLimit,
}

module _ {F : Type 0} ⦃f : Floats F⦄ {G : Type 0} where
  -- The policies registered under `q` keep the limit.
  abbrev KeepLimits : ℕ → Registry F G → Type 0
  KeepLimits q policies = All (λ e. e.0 ≡ q → KeepsLimit e.1) policies

  -- The policies registered under `q` are the goal-directed or the avoiding one.
  abbrev pub AreSteering : ℕ → Registry F G → Type 0
  AreSteering q policies =
      All (λ e. e.0 ≡ q → (e.1 ≡ goal_directed_movement) ⊎ (e.1 ≡ local_avoidance_movement))
        policies

  AreSteering-KeepLimits :
      IsExact F
      → IsScalable F
      → (q : ℕ) (policies : Registry F G) → AreSteering q policies
      → KeepLimits q policies
  AreSteering-KeepLimits laws exact q [] h = tt
  AreSteering-KeepLimits laws exact q ((pid, policy) ∷ rest) (first, h) = (
    λ e. elim (first e) [
      | inl g ↦ subst KeepsLimit (sym g) (goal_directed-KeepsLimit laws exact)
      | inr a ↦ subst KeepsLimit (sym a) (local_avoidance-KeepsLimit laws exact)
    ],
    AreSteering-KeepLimits laws exact q rest h,
  )

  OnOk-map :
      (P Q : DroneState F × G → Type 0) (r : Result MovementError (DroneState F × G))
      → ((a : DroneState F × G) → P a → Q a)
      → OnOk P r
      → OnOk Q r
  OnOk-map P Q (ok a) h p = h a p
  OnOk-map P Q (err e) h p = tt

  OnOk-all :
      (Q : DroneState F × G → Type 0) (r : Result MovementError (DroneState F × G))
      → ((a : DroneState F × G) → Q a)
      → OnOk Q r
  OnOk-all Q (ok a) h = h a
  OnOk-all Q (err e) h = tt

  module _ (c : SimulationConfig F) (tick : ℕ) (context : Option (MovementContext F))
      (some_speed : f.of_ℕ 0 ≼ c.max_speed) where
    -- The drone is within the limit already, or its policy is still to come.
    abbrev Due : Registry F G → DroneState F → ℕ → Type 0
    Due policies s k =
        WithinLimit c s k ⊎ (is_registered policies (get_or s.movement_policy_ids k 0) ≡ true)

    abbrev Limited : ℕ → Result MovementError (DroneState F × G) → Type 0
    Limited k r = OnOk (λ (t, next). WithinLimit c t k) r

    after_batch :
        (pid : ℕ) (policy : MovementAlgorithm F G) (rest : Registry F G) (s t : DroneState F)
        (k : ℕ)
        → IsSeated s k
        → OnlyVelocities (batch pid s) s t
        → (pid ≡ get_or s.movement_policy_ids k 0 → AreWithinLimit c (batch pid s) t)
        → Due ((pid, policy) ∷ rest) s k
        → Due rest t k
    after_batch pid policy rest s t k h o w due =
        elim (Bool-cases (get_or s.movement_policy_ids k 0 == pid)) [
          | inl e ↦ inl (
              w (sym ((==_iff (get_or s.movement_policy_ids k 0) pid).0 e)) k (In-batch pid s k h e)
                (subst (λ n. k < n) (sym o.velocity_rows) h.in_velocities))
          | inr e ↦ elim due [
            | inl l ↦ inl (
                subst (λ v. norm v ≼ c.max_speed)
                  (sym (o.velocity_apart k (not-In-batch pid s k h e))) l)
            | inr r ↦ inr (
                subst (λ qs. is_registered rest (get_or qs k 0) ≡ true) (sym o.policies)
                  (ground (
                    arith,
                    ==_iff pid (get_or s.movement_policy_ids k 0),
                    ==_iff (get_or s.movement_policy_ids k 0) pid,
                  )))
          ]
        ]

    run_batch :
        (policy : MovementAlgorithm F G) (idx : List ℕ) (s : DroneState F) (rng : G)
        → KeepsLimit policy
        → OnOk (λ (t, next). AreWithinLimit c idx t) (update_batch policy idx s rng c tick context)
    run_batch policy [] s rng h = λ k m l. absurd m
    run_batch policy (k ∷ ks) s rng h = h.limited s (k ∷ ks) rng c tick context some_speed

    run_batch_of :
        (pid q : ℕ) (policy : MovementAlgorithm F G) (idx : List ℕ) (s : DroneState F) (rng : G)
        → (pid ≡ q → KeepsLimit policy)
        → OnOk
            (λ (t, next). pid ≡ q → AreWithinLimit c idx t)
            (update_batch policy idx s rng c tick context)
    run_batch_of pid q policy idx s rng h =
        let r = update_batch policy idx s rng c tick context in
        elim (Bool-cases (pid == q)) [
          | inl e ↦
              OnOk-map (λ (t, next). AreWithinLimit c idx t)
                (λ (t, next). pid ≡ q → AreWithinLimit c idx t) r (λ a w _. w)
                (run_batch policy idx s rng (h ((==_iff pid q).0 e)))
          | inr n ↦
              OnOk-all (λ (t, next). pid ≡ q → AreWithinLimit c idx t) r
                (λ a e. absurd (let i = (==_iff pid q).1 e in ground arith))
        ]

    Limited-bind :
        (B : Type 0) (idx : List ℕ) (s : DroneState F) (k : ℕ)
        (r : Result MovementError (DroneState F × G))
        (next : DroneState F × G → Result MovementError (DroneState F × G))
        → Moves idx s r
        → OnOk (λ (t, g). B → AreWithinLimit c idx t) r
        → ((t : DroneState F) (g : G)
            → OnlyVelocities idx s t
            → (B → AreWithinLimit c idx t)
            → Limited k (next (t, g)))
        → Limited k (r >>= next)
    Limited-bind B idx s k (err e) next o w h = tt
    Limited-bind B idx s k (ok (t, g)) next o w h = h t g o w

    policies-Limited :
        (q : ℕ) (policies : Registry F G) (s : DroneState F) (rng : G) (k : ℕ)
        → get_or s.movement_policy_ids k 0 ≡ q
        → AreLawful policies
        → KeepLimits q policies
        → IsSeated s k
        → Due policies s k
        → Limited k (run_policies policies s rng c tick context)
    unfolding run_policies
    policies-Limited q [] s rng k i l h seat (inl w) = w
    policies-Limited q [] s rng k i l h seat (inr e) = absurd (ground arith)
    policies-Limited q ((pid, policy) ∷ rest) s rng k i (lawful, l) (keeps, h) seat due =
        let idx = batch pid s in
        Limited-bind (pid ≡ q) idx s k (update_batch policy idx s rng c tick context)
          (λ (t, next). run_policies rest t next c tick context)
          (update_batch-OnlyVelocities policy lawful idx s rng c tick context)
          (run_batch_of pid q policy idx s rng keeps)
          (λ t next o w.
            policies-Limited q rest t next k (ap (λ ids. get_or ids k 0) o.policies ∙ i) l h
              (IsSeated-kept idx s t k o seat)
              (after_batch pid policy rest s t k seat o (λ e. w (e ∙ i)) due))

    integrated_limit :
        (k : ℕ) (r : Result MovementError (DroneState F × G))
        → Limited k r
        → Limited k (r >>= λ (t, next). ok (integrate c t, next))
    unfolding integrate
    integrated_limit k (err e) h = tt
    integrated_limit k (ok (t, next)) h = h

    registered_or_raised :
        (policies : Registry F G) (s : DroneState F) (k : ℕ)
        → In k (active_indices s)
        → (is_registered policies (get_or s.movement_policy_ids k 0) ≡ true)
          ⊎ ((pid : ℕ) × In pid (unknown_ids policies s))
    registered_or_raised policies s k m =
        elim (Bool-cases (is_registered policies (get_or s.movement_policy_ids k 0))) [
          | inl t ↦ inl t
          | inr n ↦ inr (In-unknown_ids policies s (k, m, n))
        ]

    after_check :
        (ks : List ℕ) (k : ℕ) (r : Result MovementError (DroneState F × G))
        → ((pid : ℕ) × In pid ks) ⊎ Limited k r
        → Limited k (raise_unknown ks >>= λ u. r)
    after_check [] k r (inl (pid, m)) = absurd m
    after_check [] k r (inr h) = h
    after_check (p ∷ ps) k r h = tt

    -- In exact arithmetic and for a speed limit that is not negative: when every registered policy
    -- changes only velocities of its batch, and those registered under the policy id of an active
    -- drone are the goal-directed or the avoiding policy, then after a step of the movement that
    -- raises no error the drone is within the limit.
    pub step_movement-WithinLimit :
        (laws : IsExact F) (exact : IsScalable F) (policies : Registry F G) (s : DroneState F)
        (rng : G) (k : ℕ)
        → AreLawful policies
        → AreSteering (get_or s.movement_policy_ids k 0) policies
        → IsShaped s
        → In k (active_indices s)
        → OnOk (λ (t, next). WithinLimit c t k) (step_movement policies s rng c tick context)
    unfolding step_movement
    step_movement-WithinLimit laws exact policies s rng k l h shaped m =
        let q = get_or s.movement_policy_ids k 0 in
        after_check (unknown_ids policies s) k _ (elim (registered_or_raised policies s k m) [
          | inl e ↦ inr (
              integrated_limit k (run_policies policies s rng c tick context) (
                policies-Limited q policies s rng k refl l
                  (AreSteering-KeepLimits laws exact q policies h) (seat s k shaped m) (inr e)))
          | inr u ↦ inl u
        ])
