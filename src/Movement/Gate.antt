-- ===== src/Movement/Gate.antt =====
-- The whole way of the avoidance: prediction, context, and the policy that reads it.
use drone_swarm_simulator.Prelude.{
  ℕ, ◌<◌, Bool, true, false, Option, some, List, [], ◌∷◌, map, ◌≡◌, ◌≢◌, ◌⊎◌, inl, inr, refl, sym,
  ap, subst, ◌∙◌, arith, length, get_or, get_or-replicate, if◌then◌else◌,
}
use drone_swarm_simulator.Prelude.Members.{In, In-append_cases, In-map_cases}
use drone_swarm_simulator.Prelude.Results.{ok, ◌>>=◌}
use drone_swarm_simulator.Numeric.{Floats, IsExact, ◌≼◌, Vec3, zeros, norm, nano}
use drone_swarm_simulator.Numeric.Scaling.{IsScalable, HasUnits}
use drone_swarm_simulator.Config.{effective_avoidance_max_accel}
use drone_swarm_simulator.Boundaries.{any}
use drone_swarm_simulator.State.{DroneState, num_drones}
use drone_swarm_simulator.Arrays.{zip_with, gather}
use drone_swarm_simulator.Arrays.Rows.{set_rows-map_from}
use drone_swarm_simulator.Trajectory.{
  PredictionService, predict, closest_time, separation_at_closest, risk_of, predicted_collision,
  predicted_near_miss,
}
use drone_swarm_simulator.Movement.{MovementContext, with_velocities, update_goal_directed}
use drone_swarm_simulator.Movement.Avoiding.{
  avoiding_row, avoid, update_local_avoidance, no_features,
}
use drone_swarm_simulator.Movement.Builder.{
  Lexsorts, DirectedRow, self_of, separation_of, directed_rows, row_of_first, row_of_second,
  context_of, build_context,
}
use drone_swarm_simulator.Movement.Features.{IsLexsort, features_of-IsSeen}
use drone_swarm_simulator.Movement.Avoidance.{avoiding_velocity-unchanged}

-- The pair has the drone.
abbrev pub HasDrone : ℕ → ℕ × ℕ → Type 0
HasDrone k q = (q.0 ≡ k) ⊎ (q.1 ≡ k)

zip-map_entries :
    {A : Type 0} {B : Type 0} {C : Type 0} {D : Type 0}
    → (row : A → B × C → D) (a : A → B) (b : A → C) (xs : List A)
    → zip_with row xs (zip_with (λ t d. (t, d)) (map a xs) (map b xs))
      ≡ map (λ x. row x (a x, b x)) xs
zip-map_entries row a b [] = refl
zip-map_entries row a b (x ∷ xs) = ap (λ r. row x (a x, b x) ∷ r) (zip-map_entries row a b xs)

module _ {F : Type 0} ⦃f : Floats F⦄ where
  -- No pair of the drone `k` is predicted to come within the near-miss radius.
  abbrev pub IsSafe : PredictionService F → DroneState F → List (ℕ × ℕ) → ℕ → Type 0
  IsSafe service s pairs k =
      (q : ℕ × ℕ)
      → In q pairs
      → HasDrone k q
      → (risk_of service.config service.prediction_horizon s q ≢ predicted_collision)
        × (risk_of service.config service.prediction_horizon s q ≢ predicted_near_miss)

  -- The row is of a pair that has its drone.
  abbrev pub IsOfPair : PredictionService F → DroneState F → List (ℕ × ℕ) → DirectedRow F → Type 0
  IsOfPair service s pairs r =
      (q : ℕ × ℕ) × In q pairs
      × HasDrone (self_of r) q
      × (separation_of r ≡ separation_at_closest service.prediction_horizon s q)

  module _ (service : PredictionService F) (s : DroneState F) where
    abbrev time : ℕ × ℕ → F
    time q = closest_time service.prediction_horizon s q

    abbrev apart : ℕ × ℕ → F
    apart q = separation_at_closest service.prediction_horizon s q

    zipped-IsOfPair :
        (row : ℕ × ℕ → F × F → DirectedRow F) (pairs : List (ℕ × ℕ)) (r : DirectedRow F)
        → ((q : ℕ × ℕ) → HasDrone (self_of (row q (time q, apart q))) q)
        → ((q : ℕ × ℕ) → separation_of (row q (time q, apart q)) ≡ apart q)
        → In r (zip_with row pairs (zip_with (λ t d. (t, d)) (map time pairs) (map apart pairs)))
        → IsOfPair service s pairs r
    zipped-IsOfPair row pairs r has same m =
        let (q, mq, e) =
          In-map_cases (λ x. row x (time x, apart x)) r pairs
            (subst (In r) (zip-map_entries row time apart pairs) m) in
        (q, mq, subst (λ x. HasDrone (self_of x) q) (sym e) (has q), ap separation_of e ∙ same q)

    rows-predicted :
        (pairs : List (ℕ × ℕ)) (r : DirectedRow F)
        → In r (directed_rows s (predict service s pairs))
        → IsOfPair service s pairs r
    unfolding predict
    rows-predicted [] r m = absurd m
    rows-predicted (p ∷ pairs) r m =
        elim (In-append_cases r
          (zip_with (row_of_first s) (p ∷ pairs)
            (zip_with (λ t d. (t, d)) (map time (p ∷ pairs)) (map apart (p ∷ pairs))))
          (zip_with (row_of_second s) (p ∷ pairs)
            (zip_with (λ t d. (t, d)) (map time (p ∷ pairs)) (map apart (p ∷ pairs))))
          m) [
            | inl l ↦ zipped-IsOfPair (row_of_first s) (p ∷ pairs) r (λ q. inl refl) (λ q. refl) l
            | inr l ↦ zipped-IsOfPair (row_of_second s) (p ∷ pairs) r (λ q. inr refl) (λ q. refl) l
          ]

  module _ (laws : IsExact F) (exact : IsScalable F) (units : HasUnits F) (np : Lexsorts F)
      (documented : IsLexsort np) (service : PredictionService F)
      (some_near : f.lt (f.of_ℕ 0) service.config.near_miss_radius ≡ true)
      (not_tiny : nano ≼ service.config.near_miss_radius)
      (some_accel : f.of_ℕ 0 ≼ effective_avoidance_max_accel service.config) where
    open laws use {le_total}
    open exact use {float32_exact}

    separated :
        (s : DroneState F) (pairs : List (ℕ × ℕ)) (k : ℕ) (q : ℕ × ℕ)
        → IsSafe service s pairs k
        → In q pairs
        → HasDrone k q
        → service.config.near_miss_radius ≼ separation_at_closest service.prediction_horizon s q
    separated s pairs k q safe m has =
        let (not_collision, not_near) = safe q m has in
        elim (le_total service.config.near_miss_radius
          (separation_at_closest service.prediction_horizon s q)) [
            | inl l ↦ l
            | inr g ↦ absurd (ground arith)
          ]

    abbrev pub context : DroneState F → List (ℕ × ℕ) → Option (List (Vec3 F)) → MovementContext F
    context s pairs goals = build_context np s (predict service s pairs) goals

    gated :
        (s : DroneState F) (pairs : List (ℕ × ℕ)) (rows : List (DirectedRow F))
        (goals : Option (List (Vec3 F))) (k : ℕ)
        → ((r : DirectedRow F) → In r rows → In r (directed_rows s (predict service s pairs)))
        → IsSafe service s pairs k
        → k < num_drones s
        → (get_or (context_of np s rows goals).neighbor_valid_mask k false ≡ false)
          ⊎ (service.config.near_miss_radius
              ≼ (get_or
                  (context_of np s rows goals).neighbor_features
                  k
                  no_features).predicted_separation)
    gated s pairs [] goals k sub safe h = inl (get_or-replicate (num_drones s) k false false h)
    gated s pairs (r ∷ rows) goals k sub safe h =
        elim (features_of-IsSeen np documented (num_drones s) (r ∷ rows) k h) [
          | inl e ↦ inl e
          | inr (row, m, e, v) ↦
              let (q, mq, has, d) = rows-predicted service s pairs row (sub row m) in
              let has' : HasDrone k q = subst (λ i. HasDrone i q) e has in
              inr (
                subst (λ x. service.config.near_miss_radius ≼ x)
                  (sym (v ∙ float32_exact (separation_of row) ∙ d))
                  (separated s pairs k q safe mq has'))
        ]

    row_unchanged :
        (s : DroneState F) (pairs : List (ℕ × ℕ)) (goals : Option (List (Vec3 F))) (k : ℕ)
        (velocities : List (Vec3 F))
        → IsSafe service s pairs k
        → k < num_drones s
        → norm (get_or velocities k zeros) ≼ service.config.max_speed
        → avoiding_row service.config (context s pairs goals) velocities k
          ≡ get_or velocities k zeros
    unfolding build_context
    row_unchanged s pairs goals k velocities safe h slow =
        avoiding_velocity-unchanged laws exact units service.config some_near not_tiny some_accel
          (get_or (context s pairs goals).neighbor_valid_mask k false)
          (get_or (context s pairs goals).neighbor_features k no_features)
          (get_or velocities k zeros)
          (gated s pairs (directed_rows s (predict service s pairs)) goals k (λ r m. m) safe h) slow

    chosen_row :
        (b : Bool) (idx : List ℕ) (t : DroneState F) (g : ℕ → Vec3 F) (k : ℕ)
        → k < length t.velocities
        → g k ≡ get_or t.velocities k zeros
        → get_or (if b then with_velocities t idx (map g idx) else t).velocities k zeros
          ≡ get_or t.velocities k zeros
    chosen_row false idx t g k h e = refl
    chosen_row true idx t g k h e = set_rows-map_from t.velocities idx g k zeros h (inl (sym e)) ∙ e

    abbrev SameAt : ℕ → DroneState F → DroneState F → Type 0
    SameAt k t u = get_or u.velocities k zeros ≡ get_or t.velocities k zeros

    module _ (s : DroneState F) (pairs : List (ℕ × ℕ)) (goals : Option (List (Vec3 F))) (k : ℕ)
        (safe : IsSafe service s pairs k) (in_range : k < num_drones s) where
      avoid-SameAt :
          (idx : List ℕ) (t : DroneState F)
          → k < length t.velocities
          → norm (get_or t.velocities k zeros) ≼ service.config.max_speed
          → SameAt k t (avoid service.config (context s pairs goals) idx t)
      avoid-SameAt idx t h slow =
          chosen_row (any (gather false (context s pairs goals).neighbor_valid_mask idx)) idx t
            (avoiding_row service.config (context s pairs goals) t.velocities) k h
            (row_unchanged s pairs goals k t.velocities safe in_range slow)

      -- In exact arithmetic, for a positive near-miss radius of at least 1e-9, a limit of the
      -- avoidance that is not negative and a lexsort that returns indices of its keys: when no
      -- candidate pair of a drone is predicted to come within the near-miss radius, then with the
      -- context that is built from these predictions the local avoidance raises no error after the
      -- goal-directed update succeeded, and leaves the drone the goal-directed velocity, if that
      -- is within the speed limit.
      pub local_avoidance-SameAt :
          (idx : List ℕ) (t : DroneState F)
          → update_goal_directed service.config s idx ≡ ok t
          → k < length t.velocities
          → norm (get_or t.velocities k zeros) ≼ service.config.max_speed
          → (u : DroneState F) × (update_local_avoidance service.config s idx
                (some (context s pairs goals))
              ≡ ok u)
            × SameAt k t u
      unfolding update_local_avoidance update_goal_directed
      local_avoidance-SameAt [] t e h slow = (t, e, refl)
      local_avoidance-SameAt (j ∷ js) t e h slow = (
        avoid service.config (context s pairs goals) (j ∷ js) t,
        ap (λ r. r >>= λ v. ok (avoid service.config (context s pairs goals) (j ∷ js) v)) e,
        avoid-SameAt (j ∷ js) t h slow,
      )
