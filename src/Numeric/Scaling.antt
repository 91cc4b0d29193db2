-- ===== src/Numeric/Scaling.antt =====
-- Vectors scaled down: what the theorems on speed limits assume of the arithmetic, and that whole
-- numbers satisfy it.
use native.Mathlib.Nat.{div-eq_of_lt, mul-le-mul_left, le-div_iff_mul-le}
use drone_swarm_simulator.Prelude.{
  ℕ, zero, suc, ◌+◌, ◌*◌, ◌/◌, ◌≤◌, ◌<◌, ◌≡◌, refl, ap, true, arith, ltb→lt,
}
use drone_swarm_simulator.Prelude.Int.{
  ℤ, pos, negsuc, ◌+ℤ◌, ◌*ℤ◌, ◌≤ℤ◌, leb_ℤ, ltb_ℤ, ◌-ℤ◌, -ℤ_parts, eq_of_parts,
}
use drone_swarm_simulator.Numeric.{Floats, ◌≼◌, Vec3, vec_scale, norm, zeros}
use drone_swarm_simulator.Numeric.Whole.{whole, isqrt, isqrt_below, floor_div}

-- Exact arithmetic without rounding to float32. Scaling by at most one scales the length, a
-- quotient of a number by a larger one is at most one, and a quotient times its divisor is at most
-- the number.
pub record IsScalable (F : Type 0) ⦃f : Floats F⦄ : Type 0 where
  pub float32_exact : (a : F) → f.to_float32 a ≡ a
  pub sqrt_nonneg : (a : F) → f.of_ℕ 0 ≼ f.sqrt a
  pub norm_scale :
      (k : F) (v : Vec3 F) → f.of_ℕ 0 ≼ k → k ≼ f.of_ℕ 1 → norm (vec_scale k v) ≼ f.mul k (norm v)
  pub div_nonneg : (a b : F) → f.of_ℕ 0 ≼ a → f.lt a b ≡ true → f.of_ℕ 0 ≼ f.div a b
  pub div_le_one : (a b : F) → f.of_ℕ 0 ≼ a → f.lt a b ≡ true → f.div a b ≼ f.of_ℕ 1
  pub div_mul_le : (a b : F) → f.of_ℕ 0 ≼ a → f.lt a b ≡ true → f.mul (f.div a b) b ≼ a
  pub mul_mono : (k a b : F) → f.of_ℕ 0 ≼ k → f.of_ℕ 0 ≼ a → a ≼ b → f.mul k a ≼ f.mul k b
  pub norm_zeros : norm zeros ≼ f.of_ℕ 0

one_times : (a : ℤ) → pos 1 *ℤ a ≡ a
unfolding ◌*ℤ◌
one_times (pos n) = ground arith
one_times (negsuc n) = ground arith

zero_times : (a : ℤ) → pos 0 *ℤ a ≡ pos 0
unfolding ◌*ℤ◌
zero_times (pos n) = ground arith
zero_times (negsuc n) = ground arith

pos-times : (a b : ℕ) → pos a *ℤ pos b ≡ pos (a * b)
unfolding ◌*ℤ◌
pos-times a b = ground arith

leb→≤ℤ : (a b : ℤ) → leb_ℤ a b ≡ true → a ≤ℤ b
leb→≤ℤ a b h = ground arith

≤ℤ→leb : (a b : ℤ) → a ≤ℤ b → leb_ℤ a b ≡ true
≤ℤ→leb a b h = ground arith

isqrt_nonneg : (a : ℤ) → leb_ℤ (pos 0) (isqrt a) ≡ true
unfolding isqrt
isqrt_nonneg (pos n) = ≤ℤ→leb (pos 0) (isqrt (pos n)) (omega arith)
isqrt_nonneg (negsuc n) = refl

-- A quotient by a larger number, rounded down.
small_quotient : (a b : ℤ) → leb_ℤ (pos 0) a ≡ true → ltb_ℤ a b ≡ true → floor_div a b ≡ pos 0
unfolding floor_div
small_quotient (pos a) (pos b) h l =
    let h' : a < b = omega (arith, ltb→lt (a + 0) (b + 0) l) in ap pos (div-eq_of_lt h')
small_quotient (pos a) (negsuc b) h l = refl
small_quotient (negsuc a) b h l = absurd (ground arith)

scaled_by_zero : (v : Vec3 ℤ) → norm (vec_scale (pos 0) v) ≡ pos 0
unfolding whole isqrt isqrt_below ◌+ℤ◌
scaled_by_zero v = simp zero_times

scaled_by_one : (v : Vec3 ℤ) → norm (vec_scale (pos 1) v) ≡ norm v
unfolding whole
scaled_by_one v = simp one_times

norm-whole_scale :
    (k : ℤ) (v : Vec3 ℤ)
    → leb_ℤ (pos 0) k ≡ true
    → leb_ℤ k (pos 1) ≡ true
    → leb_ℤ (norm (vec_scale k v)) (k *ℤ norm v) ≡ true
norm-whole_scale (pos zero) v h l = rw (scaled_by_zero v, zero_times (norm v)) refl
norm-whole_scale (pos (suc zero)) v h l =
    rw (scaled_by_one v, one_times (norm v)) (≤ℤ→leb (norm v) (norm v) (omega arith))
norm-whole_scale (pos (suc (suc n))) v h l = absurd (ground arith)
norm-whole_scale (negsuc n) v h l = absurd (ground arith)

times_mono :
    (k a b : ℤ)
    → leb_ℤ (pos 0) k ≡ true
    → leb_ℤ (pos 0) a ≡ true
    → leb_ℤ a b ≡ true
    → leb_ℤ (k *ℤ a) (k *ℤ b) ≡ true
times_mono (pos k) (pos a) (pos b) h g l =
    rw (pos-times k a, pos-times k b)
      (≤ℤ→leb (pos (k * a)) (pos (k * b))
        (omega (arith, mul-le-mul_left k (leb→≤ℤ (pos a) (pos b) l))))
times_mono (negsuc k) a b h g l = absurd (ground arith)
times_mono (pos k) (negsuc a) b h g l = absurd (ground arith)
times_mono (pos k) (pos a) (negsuc b) h g l = absurd (ground arith)

pub whole-IsScalable : IsScalable ℤ
unfolding whole
whole-IsScalable = record {
  float32_exact = λ a. refl;
  sqrt_nonneg = isqrt_nonneg;
  norm_scale = norm-whole_scale;
  div_nonneg = λ a b h l. rw (small_quotient a b h l) refl;
  div_le_one = λ a b h l. rw (small_quotient a b h l) refl;
  div_mul_le = λ a b h l. rw (small_quotient a b h l, zero_times b) h;
  mul_mono = times_mono;
  norm_zeros = refl;
}

-- Zero and one: what the theorem on the avoidance's gate assumes of the arithmetic.
pub record HasUnits (F : Type 0) ⦃f : Floats F⦄ : Type 0 where
  pub le_antisym : (a b : F) → a ≼ b → b ≼ a → a ≡ b
  pub zero_le_one : f.of_ℕ 0 ≼ f.of_ℕ 1
  pub zero_mul : (a : F) → f.mul (f.of_ℕ 0) a ≡ f.of_ℕ 0
  pub add_zero : (a : F) → f.add a (f.of_ℕ 0) ≡ a
  pub one_le_div : (a b : F) → f.lt (f.of_ℕ 0) b ≡ true → b ≼ a → f.of_ℕ 1 ≼ f.div a b
  pub one_sub_nonpos : (a : F) → f.of_ℕ 1 ≼ a → f.sub (f.of_ℕ 1) a ≼ f.of_ℕ 0

whole_antisym : (a b : ℤ) → leb_ℤ a b ≡ true → leb_ℤ b a ≡ true → a ≡ b
whole_antisym a b h k = eq_of_parts a b (omega (arith, leb→≤ℤ a b h, leb→≤ℤ b a k))

whole_add-zero : (a : ℤ) → a +ℤ pos 0 ≡ a
unfolding ◌+ℤ◌
whole_add-zero (pos n) = ground arith
whole_add-zero (negsuc n) = ground arith

whole_one_le_div :
    (a b : ℤ) → ltb_ℤ (pos 0) b ≡ true → leb_ℤ b a ≡ true → leb_ℤ (pos 1) (floor_div a b) ≡ true
unfolding floor_div
whole_one_le_div (pos a) (pos b) h l =
    let some_b : 0 < b = omega (arith, ltb→lt 0 (b + 0) h) in
    let below : b ≤ a = omega (arith, leb→≤ℤ (pos b) (pos a) l) in
    let q : 1 ≤ a / b = (le-div_iff_mul-le some_b).1 (omega arith) in
    ≤ℤ→leb (pos 1) (pos (a / b)) (omega arith)
whole_one_le_div (negsuc a) (pos b) h l =
    absurd (omega (arith, ltb→lt 0 (b + 0) h, leb→≤ℤ (pos b) (negsuc a) l))
whole_one_le_div a (negsuc b) h l = absurd (omega (arith, ltb→lt (0 + suc b) 0 h))

whole_one-sub : (a : ℤ) → leb_ℤ (pos 1) a ≡ true → leb_ℤ (pos 1 -ℤ a) (pos 0) ≡ true
whole_one-sub a h =
    ≤ℤ→leb (pos 1 -ℤ a) (pos 0) (omega (arith, -ℤ_parts (pos 1) a, leb→≤ℤ (pos 1) a h))

pub whole-HasUnits : HasUnits ℤ
unfolding whole
whole-HasUnits = record {
  le_antisym = whole_antisym;
  zero_le_one = refl;
  zero_mul = zero_times;
  add_zero = whole_add-zero;
  one_le_div = whole_one_le_div;
  one_sub_nonpos = whole_one-sub;
}
