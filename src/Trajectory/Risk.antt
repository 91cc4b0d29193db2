-- ===== src/Trajectory/Risk.antt =====
-- The entries of a prediction: times inside the horizon, and the order of the risks.
use drone_swarm_simulator.Prelude.{
  ℕ, ◌<◌, Bool, true, List, [], ◌∷◌, map, ◌≡◌, ◌↔◌, ◌⊎◌, refl, arith, length, get_or, length-map,
  get_or-map, if◌then◌else◌,
}
use drone_swarm_simulator.Prelude.Members.{All}
use drone_swarm_simulator.Numeric.{Floats, IsExact, ◌≼◌, clip_between}
use drone_swarm_simulator.State.{DroneState}
use drone_swarm_simulator.Trajectory.{
  predicted_collision, predicted_near_miss, currently_safe, not_closing_or_outside_horizon,
  PredictionResult, PredictionService, predict, closest_time, separation_at_closest, risk_of,
  raw_ttca,
}

module _ {F : Type 0} ⦃f : Floats F⦄ where
  -- A prediction for the pairs: one entry of each array for each pair, the times inside the
  -- horizon, and the risk by the first condition that holds.
  pub record IsPrediction (service : PredictionService F) (pairs : List (ℕ × ℕ))
      (r : PredictionResult F) : Type 0 where
    pub pairs_kept : r.pairs ≡ pairs
    pub times : length r.time_to_closest_approach ≡ length pairs
    pub separations : length r.predicted_separation ≡ length pairs
    pub risks : length r.risk ≡ length pairs
    pub inside_horizon :
        All (λ t. (f.of_ℕ 0 ≼ t) × (t ≼ service.prediction_horizon)) r.time_to_closest_approach
    pub collision_iff :
        (i : ℕ)
        → i < length pairs
        → (get_or r.risk i currently_safe ≡ predicted_collision)
          ↔ (get_or r.predicted_separation i (f.of_ℕ 0) ≼ service.config.collision_radius)
    pub at_risk_iff :
        (i : ℕ)
        → i < length pairs
        → ((get_or r.risk i currently_safe ≡ predicted_collision)
            ⊎ (get_or r.risk i currently_safe ≡ predicted_near_miss))
          ↔ (get_or r.predicted_separation i (f.of_ℕ 0) ≼ service.config.near_miss_radius)

  module _ (laws : IsExact F) where
    open laws use {le_refl, le_trans, lt-eq-not-le, le_total}

    clip_inside :
        (x lo hi : F) → lo ≼ hi → (lo ≼ clip_between x lo hi) × (clip_between x lo hi ≼ hi)
    clip_inside x lo hi h = ground (
      arith,
      lt-eq-not-le x lo,
      lt-eq-not-le hi x,
      lt-eq-not-le hi lo,
      le_refl lo,
      le_refl hi,
      le_total x lo,
      le_total x hi,
    )

    first_iff :
        (a b n : Bool)
        → ((if a
              then predicted_collision
              else if b
              then predicted_near_miss
              else if n
              then not_closing_or_outside_horizon
              else currently_safe)
            ≡ predicted_collision)
          ↔ (a ≡ true)
    first_iff a b n = ground arith

    either_iff :
        (a b n : Bool)
        → (a ≡ true → b ≡ true)
        → (((if a
                then predicted_collision
                else if b
                then predicted_near_miss
                else if n
                then not_closing_or_outside_horizon
                else currently_safe)
              ≡ predicted_collision)
            ⊎ ((if a
                  then predicted_collision
                  else if b
                  then predicted_near_miss
                  else if n
                  then not_closing_or_outside_horizon
                  else currently_safe)
                ≡ predicted_near_miss))
          ↔ (b ≡ true)
    either_iff a b n h = ground arith

    module _ (service : PredictionService F) (s : DroneState F)
        (ordered : service.config.collision_radius ≼ service.config.near_miss_radius) where
      abbrev at_pair : List (ℕ × ℕ) → ℕ → ℕ × ℕ
      at_pair pairs i = get_or pairs i (0, 0)

      risk_entry :
          (pairs : List (ℕ × ℕ)) (i : ℕ)
          → i < length pairs
          → (get_or
                (map (risk_of service.config service.prediction_horizon s) pairs)
                i
                currently_safe
              ≡ risk_of service.config service.prediction_horizon s (at_pair pairs i))
            × (get_or (map (separation_at_closest service.prediction_horizon s) pairs) i (f.of_ℕ 0)
                ≡ separation_at_closest service.prediction_horizon s (at_pair pairs i))
      risk_entry pairs i h =
          (get_or-map _ pairs i (0, 0) currently_safe h, get_or-map _ pairs i (0, 0) (f.of_ℕ 0) h)

      times_inside :
          (pairs : List (ℕ × ℕ))
          → f.of_ℕ 0 ≼ service.prediction_horizon
          → All
              (λ t. (f.of_ℕ 0 ≼ t) × (t ≼ service.prediction_horizon))
              (map (closest_time service.prediction_horizon s) pairs)
      times_inside [] h = tt
      times_inside (q ∷ rest) h =
          (clip_inside (raw_ttca s q) (f.of_ℕ 0) service.prediction_horizon h, times_inside rest h)

      -- Under exact order laws, for a horizon that is not negative and a collision radius of at
      -- most the near-miss radius, a prediction has an entry for each pair, every time to the
      -- closest approach is in the horizon, a pair is a predicted collision exactly when its
      -- predicted separation is at most the collision radius, and a predicted collision or near
      -- miss exactly when it is at most the near-miss radius.
      pub predict-IsPrediction :
          (pairs : List (ℕ × ℕ))
          → f.of_ℕ 0 ≼ service.prediction_horizon
          → IsPrediction service pairs (predict service s pairs)
      unfolding predict
      predict-IsPrediction [] h = record {
        pairs_kept = refl;
        times = refl;
        separations = refl;
        risks = refl;
        inside_horizon = tt;
        collision_iff = λ i l. absurd (omega arith);
        at_risk_iff = λ i l. absurd (omega arith);
      }
      predict-IsPrediction (q ∷ rest) h = record {
        pairs_kept = refl;
        times = length-map _ (q ∷ rest);
        separations = length-map _ (q ∷ rest);
        risks = length-map _ (q ∷ rest);
        inside_horizon = times_inside (q ∷ rest) h;
        collision_iff =
            λ i l. let (er, es) = risk_entry (q ∷ rest) i l in rw (er, es) (first_iff _ _ _);
        at_risk_iff = λ i l.
            let (er, es) = risk_entry (q ∷ rest) i l in
            rw (er, es) (either_iff _ _ _ (λ t. le_trans _ _ _ t ordered));
      }
