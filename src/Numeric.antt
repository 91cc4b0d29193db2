-- ===== src/Numeric.antt =====
-- The floating-point numbers of the program (Python's `float` and the entries of its NumPy arrays)
-- as a type with the operations that the program uses, and points of the world (rows of an (N, 3)
-- array). `to_float32` is the rounding of `astype(np.float32)`; the embedding of float32 into
-- float64 changes no value and is left out.
pub mod Whole
pub mod Distance
pub mod Scaling
use drone_swarm_simulator.Prelude.{ℕ, Bool, true, not, ◌≡◌, ◌⊎◌, if◌then◌else◌}
use drone_swarm_simulator.Prelude.Int.{ℤ, pos, ◌+ℤ◌, ◌≤ℤ◌}

pub record Floats (F : Type 0) : Type 0 where
  pub le : F → F → Bool
  pub lt : F → F → Bool
  pub eq : F → F → Bool
  pub add : F → F → F
  pub sub : F → F → F
  pub mul : F → F → F
  pub div : F → F → F
  pub neg : F → F
  pub sqrt : F → F
  pub floor : F → ℤ
  pub ceil : F → ℤ
  pub of_ℕ : ℕ → F
  pub half : F
  pub to_float32 : F → F

infix 4 ◌≼◌
abbrev pub ◌≼◌ : {F : Type 0} ⦃f : Floats F⦄ → F → F → Type 0
◌≼◌ ⦃f⦄ x y = f.le x y ≡ true

-- What the theorems on distances assume of the arithmetic. An order and a square root that never
-- decreases hold of doubles that are not NaN as well; the laws on differences and on division are
-- those of exact arithmetic, so a theorem that assumes them leaves rounding errors out.
pub record IsExact (F : Type 0) ⦃f : Floats F⦄ : Type 0 where
  pub le_refl : (a : F) → a ≼ a
  pub le_trans : (a b c : F) → a ≼ b → b ≼ c → a ≼ c
  pub lt-eq-not-le : (a b : F) → f.lt a b ≡ not (f.le b a)
  pub le_total : (a b : F) → (a ≼ b) ⊎ (b ≼ a)
  pub sqrt_mono : (a b : F) → a ≼ b → f.sqrt a ≼ f.sqrt b
  pub le-sqrt-square : (a : F) → a ≼ f.sqrt (f.mul a a)
  pub square_nonneg : (a : F) → f.of_ℕ 0 ≼ f.mul a a
  pub le-add_right : (a b : F) → f.of_ℕ 0 ≼ b → a ≼ f.add a b
  pub le-add_left : (a b : F) → f.of_ℕ 0 ≼ b → a ≼ f.add b a
  pub square-sub_comm : (a b : F) → f.mul (f.sub a b) (f.sub a b) ≡ f.mul (f.sub b a) (f.sub b a)
  pub sub_le_shift : (a b c l : F) → f.sub a b ≼ c → f.sub a l ≼ f.add (f.sub b l) c
  pub sub_le_right : (a b c e : F) → f.sub a b ≼ c → b ≼ e → a ≼ f.add e c
  pub sub_le_left : (a b c e : F) → f.sub a b ≼ c → e ≼ a → f.sub e c ≼ b
  pub div_mono : (a b c : F) → f.lt (f.of_ℕ 0) c ≡ true → a ≼ b → f.div a c ≼ f.div b c
  pub div-add_self :
      (a c : F) → f.lt (f.of_ℕ 0) c ≡ true → f.div (f.add a c) c ≡ f.add (f.div a c) (f.of_ℕ 1)
  pub floor_mono : (a b : F) → a ≼ b → f.floor a ≤ℤ f.floor b
  pub floor-add-one : (a : F) → f.floor (f.add a (f.of_ℕ 1)) ≡ f.floor a +ℤ pos 1

pub record Vec3 (F : Type 0) : Type 0 where
  pub x : F
  pub y : F
  pub z : F

module _ {F : Type 0} ⦃f : Floats F⦄ where
  abbrev pub zeros : Vec3 F
  zeros = record { x = f.of_ℕ 0; y = f.of_ℕ 0; z = f.of_ℕ 0 }

  abbrev pub vec_add : Vec3 F → Vec3 F → Vec3 F
  vec_add a b = record { x = f.add a.x b.x; y = f.add a.y b.y; z = f.add a.z b.z }

  abbrev pub vec_sub : Vec3 F → Vec3 F → Vec3 F
  vec_sub a b = record { x = f.sub a.x b.x; y = f.sub a.y b.y; z = f.sub a.z b.z }

  abbrev pub vec_div : Vec3 F → F → Vec3 F
  vec_div a k = record { x = f.div a.x k; y = f.div a.y k; z = f.div a.z k }

  abbrev pub vec_scale : F → Vec3 F → Vec3 F
  vec_scale k a = record { x = f.mul k a.x; y = f.mul k a.y; z = f.mul k a.z }

  abbrev pub dot : Vec3 F → Vec3 F → F
  dot a b = f.add (f.add (f.mul a.x b.x) (f.mul a.y b.y)) (f.mul a.z b.z)

  -- The length of a difference: the square root of the sum of its squares.
  abbrev pub distance : Vec3 F → Vec3 F → F
  distance a b = f.sqrt (dot (vec_sub a b) (vec_sub a b))

  abbrev pub vec_to_float32 : Vec3 F → Vec3 F
  vec_to_float32 a = record { x = f.to_float32 a.x; y = f.to_float32 a.y; z = f.to_float32 a.z }

  -- The length of a row: `np.linalg.norm(v, axis=1)`.
  abbrev pub norm : Vec3 F → F
  norm a = f.sqrt (dot a a)

  abbrev pub vec_neg : Vec3 F → Vec3 F
  vec_neg a = record { x = f.neg a.x; y = f.neg a.y; z = f.neg a.z }

  -- `max(a, b)` and `np.maximum`, `min(a, b)` and `np.minimum`, and `np.clip`.
  abbrev pub float_max : F → F → F
  float_max a b = if f.lt a b then b else a

  abbrev pub float_min : F → F → F
  float_min a b = if f.lt b a then b else a

  abbrev pub clip_between : F → F → F → F
  clip_between x lo hi = float_min (float_max x lo) hi

  -- The constants 1e-9 and 1e-12.
  abbrev pub nano : F
  nano = f.div (f.of_ℕ 1) (f.of_ℕ 1000000000)

  abbrev pub pico : F
  pico = f.div (f.of_ℕ 1) (f.of_ℕ 1000000000000)
