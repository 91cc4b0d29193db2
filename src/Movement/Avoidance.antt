-- ===== src/Movement/Avoidance.antt =====
-- The gate of the avoidance: without a pair at risk, the goal-directed velocity stands.
use drone_swarm_simulator.Prelude.{
  Bool, true, false, ◌≡◌, ◌⊎◌, inl, inr, refl, ap, ◌∙◌, arith, Bool-cases,
}
use drone_swarm_simulator.Numeric.{
  Floats, IsExact, ◌≼◌, Vec3, zeros, norm, vec_add, vec_scale, vec_to_float32, float_max,
  clip_between, nano,
}
use drone_swarm_simulator.Numeric.Scaling.{IsScalable, HasUnits}
use drone_swarm_simulator.Config.{SimulationConfig, effective_avoidance_max_accel}
use drone_swarm_simulator.Movement.{NeighborFeatures, limit_length}
use drone_swarm_simulator.Movement.Avoiding.{
  avoiding_velocity, correction, away_from, urgency, dist_urgency,
}

module _ {F : Type 0} ⦃f : Floats F⦄ (laws : IsExact F) (exact : IsScalable F)
    (units : HasUnits F) where
  open laws use {le_refl, le_trans, lt-eq-not-le, le_total}
  open exact use {float32_exact, norm_zeros}
  open units use {le_antisym, zero_le_one, zero_mul, add_zero, one_le_div, one_sub_nonpos}

  clip_below : (x : F) → x ≼ f.of_ℕ 0 → clip_between x (f.of_ℕ 0) (f.of_ℕ 1) ≡ f.of_ℕ 0
  clip_below x h =
      let not_over : f.lt (f.of_ℕ 1) (f.of_ℕ 0) ≡ false =
        ground (arith, lt-eq-not-le (f.of_ℕ 1) (f.of_ℕ 0), zero_le_one) in
      let raised : float_max x (f.of_ℕ 0) ≡ f.of_ℕ 0 = elim (Bool-cases (f.lt x (f.of_ℕ 0))) [
        | inl t ↦ rw t refl
        | inr n ↦
            let above : f.of_ℕ 0 ≼ x = ground (arith, lt-eq-not-le x (f.of_ℕ 0)) in
            rw n (le_antisym x (f.of_ℕ 0) h above)
      ] in
      rw raised (rw not_over refl)

  within : (limit : F) (v : Vec3 F) → norm v ≼ limit → limit_length limit v ≡ v
  within limit v h =
      let n : f.lt limit (norm v) ≡ false = ground (arith, lt-eq-not-le limit (norm v)) in rw n refl

  scale_zero : (v : Vec3 F) → vec_scale (f.of_ℕ 0) v ≡ zeros
  scale_zero v = simp zero_mul

  add_zeros : (v : Vec3 F) → vec_add v zeros ≡ v
  add_zeros v = simp add_zero

  float32_same : (v : Vec3 F) → vec_to_float32 v ≡ v
  float32_same v = simp float32_exact

  module _ (c : SimulationConfig F) (some_near : f.lt (f.of_ℕ 0) c.near_miss_radius ≡ true)
      (not_tiny : nano ≼ c.near_miss_radius)
      (some_accel : f.of_ℕ 0 ≼ effective_avoidance_max_accel c) where
    -- No urgency where the predicted separation is above the near-miss radius.
    dist_urgency-zero :
        (feats : NeighborFeatures F)
        → c.near_miss_radius ≼ feats.predicted_separation
        → dist_urgency c feats ≡ f.of_ℕ 0
    dist_urgency-zero feats h =
        let n : f.lt c.near_miss_radius nano ≡ false =
          ground (arith, lt-eq-not-le c.near_miss_radius nano) in
        rw n (
          clip_below _ (
            one_sub_nonpos _
              (one_le_div feats.predicted_separation c.near_miss_radius some_near h)))

    urgency-zero :
        (valid : Bool) (feats : NeighborFeatures F)
        → (valid ≡ false) ⊎ (c.near_miss_radius ≼ feats.predicted_separation)
        → urgency c valid feats ≡ f.of_ℕ 0
    urgency-zero false feats h = refl
    urgency-zero true feats (inl e) = absurd (ground arith)
    urgency-zero true feats (inr h) = rw (dist_urgency-zero feats h) (zero_mul _)

    pub avoiding_velocity-unchanged :
        (valid : Bool) (feats : NeighborFeatures F) (desired : Vec3 F)
        → (valid ≡ false) ⊎ (c.near_miss_radius ≼ feats.predicted_separation)
        → norm desired ≼ c.max_speed
        → avoiding_velocity c valid feats desired ≡ desired
    unfolding avoiding_velocity
    avoiding_velocity-unchanged valid feats desired h slow =
        let limit = effective_avoidance_max_accel c in
        let no_strength : f.mul (f.mul (urgency c valid feats) c.avoidance_strength) limit
            ≡ f.of_ℕ 0 =
          rw (urgency-zero valid feats h, zero_mul c.avoidance_strength) (zero_mul limit) in
        let no_correction : correction c valid feats ≡ zeros =
          ap (λ k. limit_length limit (vec_scale k (away_from feats))) no_strength
          ∙ ap (limit_length limit) (scale_zero (away_from feats))
          ∙ within limit zeros (le_trans (norm zeros) (f.of_ℕ 0) limit norm_zeros some_accel) in
        ap (λ k. vec_to_float32 (limit_length c.max_speed (vec_add desired k))) no_correction
        ∙ ap (λ v. vec_to_float32 (limit_length c.max_speed v)) (add_zeros desired)
        ∙ ap vec_to_float32 (within c.max_speed desired slow)
        ∙ float32_same desired
