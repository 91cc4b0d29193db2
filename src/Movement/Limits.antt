-- ===== src/Movement/Limits.antt =====
-- The speed limit of the goal-directed and the avoiding policy.
use drone_swarm_simulator.Prelude.{Bool, true, false, ◌≡◌, inl, inr, arith, Bool-cases}
use drone_swarm_simulator.Numeric.{
  Floats, IsExact, ◌≼◌, Vec3, zeros, norm, vec_scale, vec_to_float32, float_max, nano,
}
use drone_swarm_simulator.Numeric.Scaling.{IsScalable}
use drone_swarm_simulator.Config.{SimulationConfig}
use drone_swarm_simulator.Movement.{
  limit_length, apply_accel_and_speed_limits, arrived, goal_velocity, NeighborFeatures,
}
use drone_swarm_simulator.Movement.Avoiding.{avoiding_velocity}

module _ {F : Type 0} ⦃f : Floats F⦄ (laws : IsExact F) (exact : IsScalable F) where
  open laws use {le_refl, le_trans, lt-eq-not-le, le_total}
  open exact use {
    float32_exact, sqrt_nonneg, norm_scale, div_nonneg, div_le_one, div_mul_le, mul_mono,
    norm_zeros,
  }

  lt→le : (a b : F) → f.lt a b ≡ true → a ≼ b
  lt→le a b h = elim (le_total a b) [ inl l ↦ l | inr g ↦ ground (arith, lt-eq-not-le a b) ]

  le-float_max : (a b : F) → a ≼ float_max a b
  le-float_max a b = elim (Bool-cases (f.lt a b)) [
    | inl t ↦ rw t (lt→le a b t)
    | inr n ↦ rw n (le_refl a)
  ]

  not-lt→le : (a b : F) → f.lt a b ≡ false → b ≼ a
  not-lt→le a b h = ground (arith, lt-eq-not-le a b)

  lt-le_trans : (a b c : F) → f.lt a b ≡ true → b ≼ c → f.lt a c ≡ true
  lt-le_trans a b c h l = elim (Bool-cases (f.lt a c)) [
    | inl t ↦ t
    | inr n ↦
        let below : b ≼ a = le_trans b c a l (not-lt→le a c n) in ground (arith, lt-eq-not-le a b)
  ]

  scaled_down :
      (limit : F) (v : Vec3 F)
      → f.of_ℕ 0 ≼ limit
      → f.lt limit (norm v) ≡ true
      → norm (vec_scale (f.div limit (float_max (norm v) nano)) v) ≼ limit
  scaled_down limit v h over =
      let d = float_max (norm v) nano in
      let k = f.div limit d in
      let up : norm v ≼ d = le-float_max (norm v) nano in
      let below : f.lt limit d ≡ true = lt-le_trans limit (norm v) d over up in
      le_trans _ (f.mul k (norm v)) limit
        (norm_scale k v (div_nonneg limit d h below) (div_le_one limit d h below))
        (le_trans (f.mul k (norm v)) (f.mul k d) limit
          (mul_mono k (norm v) d (div_nonneg limit d h below) (sqrt_nonneg _) up)
          (div_mul_le limit d h below))

  pub norm-limit_length :
      (limit : F) (v : Vec3 F) → f.of_ℕ 0 ≼ limit → norm (limit_length limit v) ≼ limit
  norm-limit_length limit v h = elim (Bool-cases (f.lt limit (norm v))) [
    | inl t ↦ rw t (scaled_down limit v h t)
    | inr n ↦ rw n (not-lt→le limit (norm v) n)
  ]

  norm-float32 : (v : Vec3 F) → norm (vec_to_float32 v) ≡ norm v
  norm-float32 v = simp float32_exact

  module _ (c : SimulationConfig F) (some_speed : f.of_ℕ 0 ≼ c.max_speed) where
    zero_speed : norm (vec_to_float32 zeros) ≼ c.max_speed
    zero_speed =
        rw (norm-float32 zeros) (le_trans (norm zeros) (f.of_ℕ 0) c.max_speed norm_zeros some_speed)

    pub norm-goal_velocity :
        (position velocity goal : Vec3 F)
        → norm (goal_velocity c position velocity goal) ≼ c.max_speed
    unfolding goal_velocity apply_accel_and_speed_limits
    norm-goal_velocity position velocity goal = elim (Bool-cases (arrived c position goal)) [
      | inl t ↦ rw t zero_speed
      | inr n ↦ rw n (rw norm-float32 (norm-limit_length c.max_speed _ some_speed))
    ]

    pub norm-avoiding_velocity :
        (valid : Bool) (feats : NeighborFeatures F) (desired : Vec3 F)
        → norm (avoiding_velocity c valid feats desired) ≼ c.max_speed
    unfolding avoiding_velocity
    norm-avoiding_velocity valid feats desired =
        rw norm-float32 (norm-limit_length c.max_speed _ some_speed)
