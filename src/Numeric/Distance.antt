-- ===== src/Numeric/Distance.antt =====
-- The distance of two points bounds their difference on every axis, in both directions.
use drone_swarm_simulator.Prelude.{◌≡◌, ap}
use mathlib.Core.Path.{ap₂}
use drone_swarm_simulator.Numeric.{Floats, IsExact, ◌≼◌, Vec3, distance}

module _ {F : Type 0} ⦃f : Floats F⦄ (laws : IsExact F) where
  open laws use {
    le_trans, sqrt_mono, le-sqrt-square, square_nonneg, le-add_right, le-add_left, square-sub_comm,
  }

  abbrev square : F → F
  square a = f.mul a a

  module _ (a b c : F) where
    sum_nonneg : f.of_ℕ 0 ≼ f.add (square a) (square b)
    sum_nonneg =
        le_trans (f.of_ℕ 0) (square a) (f.add (square a) (square b)) (square_nonneg a)
          (le-add_right (square a) (square b) (square_nonneg b))

    abbrev norm : F
    norm = f.sqrt (f.add (f.add (square a) (square b)) (square c))

    below_norm : (d : F) → square d ≼ f.add (f.add (square a) (square b)) (square c) → d ≼ norm
    below_norm d h = le_trans d (f.sqrt (square d)) norm (le-sqrt-square d) (sqrt_mono _ _ h)

    in_sum :
        (d : F)
        → d ≼ f.add (square a) (square b)
        → d ≼ f.add (f.add (square a) (square b)) (square c)
    in_sum d h =
        le_trans d (f.add (square a) (square b)) _ h
          (le-add_right (f.add (square a) (square b)) (square c) (square_nonneg c))

    first-le-norm : a ≼ norm
    first-le-norm =
        below_norm a (in_sum (square a) (le-add_right (square a) (square b) (square_nonneg b)))

    second-le-norm : b ≼ norm
    second-le-norm =
        below_norm b (in_sum (square b) (le-add_left (square b) (square a) (square_nonneg a)))

    third-le-norm : c ≼ norm
    third-le-norm = below_norm c (le-add_left (square c) (f.add (square a) (square b)) sum_nonneg)

  pub distance_comm : (p q : Vec3 F) → distance p q ≡ distance q p
  distance_comm p q = ap f.sqrt (
      ap₂ f.add (ap₂ f.add (square-sub_comm p.x q.x) (square-sub_comm p.y q.y))
        (square-sub_comm p.z q.z))

  module _ (p q : Vec3 F) (r : F) (near : distance p q ≼ r) where
    pub x_within : f.sub p.x q.x ≼ r
    x_within =
        le_trans _ (distance p q) r (first-le-norm (f.sub p.x q.x) (f.sub p.y q.y) (f.sub p.z q.z))
          near

    pub y_within : f.sub p.y q.y ≼ r
    y_within =
        le_trans _ (distance p q) r (second-le-norm (f.sub p.x q.x) (f.sub p.y q.y) (f.sub p.z q.z))
          near

    pub z_within : f.sub p.z q.z ≼ r
    z_within =
        le_trans _ (distance p q) r (third-le-norm (f.sub p.x q.x) (f.sub p.y q.y) (f.sub p.z q.z))
          near
