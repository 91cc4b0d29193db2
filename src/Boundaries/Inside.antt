-- ===== src/Boundaries/Inside.antt =====
-- After the boundaries were applied, every active drone is inside the box.
use drone_swarm_simulator.Prelude.{
  ℕ, zero, suc, ◌<◌, Bool, true, false, List, [], ◌∷◌, ◌≡◌, ◌⊎◌, inl, inr, refl, sym, subst, arith,
  length, get_or, Bool-cases,
}
use drone_swarm_simulator.Numeric.{Floats, ◌≼◌, IsExact, Vec3, zeros, vec_to_float32}
use drone_swarm_simulator.Config.{BoundaryMode, reflect, clamp, IsValid}
use drone_swarm_simulator.State.{DroneState, World, num_drones}
use drone_swarm_simulator.Boundaries.{
  any, clamp_to, bounce, velocity_after, position_row, velocity_row, clamp_positions,
  bounce_velocities, apply_boundaries,
}

none_active : (bs : List Bool) (i : ℕ) → any bs ≡ false → get_or bs i false ≡ false
none_active [] i h = refl
none_active (true ∷ bs) i h = absurd (ground arith)
none_active (false ∷ bs) zero h = refl
none_active (false ∷ bs) (suc i) h = none_active bs i h

module _ {F : Type 0} ⦃f : Floats F⦄ where
  -- The point is in the box, walls included.
  pub record IsInBox (lo hi p : Vec3 F) : Type 0 where
    pub x_low : lo.x ≼ p.x
    pub x_high : p.x ≼ hi.x
    pub y_low : lo.y ≼ p.y
    pub y_high : p.y ≼ hi.y
    pub z_low : lo.z ≼ p.z
    pub z_high : p.z ≼ hi.z

  -- What a wall makes of a velocity: it turns round, or it stops.
  abbrev Rebounds : BoundaryMode → F → F → Type 0
  Rebounds reflect v w = w ≡ f.neg v
  Rebounds clamp v w = w ≡ f.of_ℕ 0

  -- One axis of a drone: inside it keeps its velocity, and outside it rebounds.
  abbrev Bounces : BoundaryMode → F → F → F → F → F → Type 0
  Bounces mode lo hi p v w =
      ((lo ≼ p) × (p ≼ hi) × (w ≡ v))
      ⊎ (((f.lt p lo ≡ true) ⊎ (f.lt hi p ≡ true)) × Rebounds mode v w)

  -- What the boundaries do to the drones of a state.
  pub record AreBounded (mode : BoundaryMode) (lo hi : Vec3 F) (s t : DroneState F) : Type 0 where
    pub active_inside :
        (i : ℕ)
        → i < num_drones s
        → get_or s.active_mask i false ≡ true
        → IsInBox lo hi (get_or t.positions i zeros)
    pub inactive_kept :
        (i : ℕ)
        → get_or s.active_mask i false ≡ false
        → (get_or t.positions i zeros ≡ get_or s.positions i zeros)
          × (get_or t.velocities i zeros ≡ get_or s.velocities i zeros)
    pub velocity :
        (i : ℕ)
        → i < num_drones s
        → i < length s.velocities
        → get_or s.active_mask i false ≡ true
        → let p = get_or s.positions i zeros in
          let v = get_or s.velocities i zeros in
          let w = get_or t.velocities i zeros in
          Bounces mode lo.x hi.x p.x v.x w.x
          × Bounces mode lo.y hi.y p.y v.y w.y
          × Bounces mode lo.z hi.z p.z v.z w.z

  bounce-Rebounds : (mode : BoundaryMode) (v : F) → Rebounds mode v (bounce mode v)
  bounce-Rebounds reflect v = refl
  bounce-Rebounds clamp v = refl

  velocity_after-Bounces :
      (laws : IsExact F) (mode : BoundaryMode) (lo hi p v : F)
      → Bounces mode lo hi p v (velocity_after mode lo hi p v)
  velocity_after-Bounces laws mode lo hi p v =
      let l = laws.lt-eq-not-le p lo in
      let u = laws.lt-eq-not-le hi p in
      elim (Bool-cases (f.lt p lo)) [
        | inl t ↦ rw t (inr (inl refl, bounce-Rebounds mode v))
        | inr n ↦ elim (Bool-cases (f.lt hi p)) [
          | inl t ↦ rw (n, t) (inr (inr refl, bounce-Rebounds mode v))
          | inr m ↦
              rw (n, m)
                (inl (
                  (let e : lo ≼ p = ground arith in e),
                  (let e : p ≼ hi = ground arith in e),
                  refl,
                ))
        ]
      ]

  module _ (laws : IsExact F) (lo hi : Vec3 F) (x_ok : lo.x ≼ hi.x) (y_ok : lo.y ≼ hi.y)
      (z_ok : lo.z ≼ hi.z) where
    open laws use {le_refl, lt-eq-not-le}

    clamp_to-bounds : (a b p : F) → a ≼ b → (a ≼ clamp_to a b p) × (clamp_to a b p ≼ b)
    clamp_to-bounds a b p h =
        let l = lt-eq-not-le p a in
        let u = lt-eq-not-le b p in
        elim (Bool-cases (f.lt b p)) [
          | inl over ↦ rw over (h, le_refl b)
          | inr under ↦ rw under (elim (Bool-cases (f.lt p a)) [
            | inl below ↦ rw below (le_refl a, h)
            | inr above ↦
                rw above ((let e : a ≼ p = ground arith in e), (let e : p ≼ b = ground arith in e))
          ])
        ]

    position_row-IsInBox : (p : Vec3 F) → IsInBox lo hi (position_row lo hi p)
    position_row-IsInBox p = record {
      x_low = (clamp_to-bounds lo.x hi.x p.x x_ok).0;
      x_high = (clamp_to-bounds lo.x hi.x p.x x_ok).1;
      y_low = (clamp_to-bounds lo.y hi.y p.y y_ok).0;
      y_high = (clamp_to-bounds lo.y hi.y p.y y_ok).1;
      z_low = (clamp_to-bounds lo.z hi.z p.z z_ok).0;
      z_high = (clamp_to-bounds lo.z hi.z p.z z_ok).1;
    }

    clamp_positions-IsInBox :
        (bs : List Bool) (ps : List (Vec3 F)) (i : ℕ)
        → i < length ps
        → get_or bs i false ≡ true
        → IsInBox lo hi (get_or (clamp_positions lo hi bs ps) i zeros)
    unfolding clamp_positions
    clamp_positions-IsInBox [] ps i h a = absurd (ground arith)
    clamp_positions-IsInBox (b ∷ bs) [] i h a = elim h [ ]
    clamp_positions-IsInBox (b ∷ bs) (p ∷ ps) zero h a = rw a (position_row-IsInBox p)
    clamp_positions-IsInBox (b ∷ bs) (p ∷ ps) (suc i) h a =
        clamp_positions-IsInBox bs ps i (omega arith) a

  clamp_positions-kept :
      (lo hi : Vec3 F) (bs : List Bool) (ps : List (Vec3 F)) (i : ℕ)
      → get_or bs i false ≡ false
      → get_or (clamp_positions lo hi bs ps) i zeros ≡ get_or ps i zeros
  unfolding clamp_positions
  clamp_positions-kept lo hi [] ps i a = refl
  clamp_positions-kept lo hi (b ∷ bs) [] i a = refl
  clamp_positions-kept lo hi (b ∷ bs) (p ∷ ps) zero a = rw a refl
  clamp_positions-kept lo hi (b ∷ bs) (p ∷ ps) (suc i) a = clamp_positions-kept lo hi bs ps i a

  bounce_velocities-kept :
      (mode : BoundaryMode) (lo hi : Vec3 F) (bs : List Bool) (ps vs : List (Vec3 F)) (i : ℕ)
      → get_or bs i false ≡ false
      → get_or (bounce_velocities mode lo hi bs ps vs) i zeros ≡ get_or vs i zeros
  unfolding bounce_velocities
  bounce_velocities-kept mode lo hi [] ps vs i a = refl
  bounce_velocities-kept mode lo hi (b ∷ bs) [] vs i a = refl
  bounce_velocities-kept mode lo hi (b ∷ bs) (p ∷ ps) [] i a = refl
  bounce_velocities-kept mode lo hi (b ∷ bs) (p ∷ ps) (v ∷ vs) zero a = rw a refl
  bounce_velocities-kept mode lo hi (b ∷ bs) (p ∷ ps) (v ∷ vs) (suc i) a =
      bounce_velocities-kept mode lo hi bs ps vs i a

  bounce_velocities-row :
      (mode : BoundaryMode) (lo hi : Vec3 F) (bs : List Bool) (ps vs : List (Vec3 F)) (i : ℕ)
      → i < length ps
      → i < length vs
      → get_or bs i false ≡ true
      → get_or (bounce_velocities mode lo hi bs ps vs) i zeros
        ≡ velocity_row mode lo hi (get_or ps i zeros) (get_or vs i zeros)
  unfolding bounce_velocities
  bounce_velocities-row mode lo hi [] ps vs i h k a = absurd (ground arith)
  bounce_velocities-row mode lo hi (b ∷ bs) [] vs i h k a = elim h [ ]
  bounce_velocities-row mode lo hi (b ∷ bs) (p ∷ ps) [] i h k a = elim k [ ]
  bounce_velocities-row mode lo hi (b ∷ bs) (p ∷ ps) (v ∷ vs) zero h k a = rw a refl
  bounce_velocities-row mode lo hi (b ∷ bs) (p ∷ ps) (v ∷ vs) (suc i) h k a =
      bounce_velocities-row mode lo hi bs ps vs i (omega arith) (omega arith) a

  lt→le : (laws : IsExact F) (a b : F) → f.lt a b ≡ true → a ≼ b
  lt→le laws a b h = elim (laws.le_total a b) [
    | inl e ↦ e
    | inr e ↦ absurd (let l = laws.lt-eq-not-le a b in ground arith)
  ]

  -- Under exact order laws, a rounding to float32 that keeps the order and a valid configuration:
  -- after the boundaries are applied every active drone is in the box; on an axis on which it was
  -- outside its velocity is negated when the mode is reflect and zero when it is clamp, and on an
  -- axis on which it was inside it is unchanged; and inactive drones keep position and velocity.
  pub apply_boundaries-AreBounded :
      (laws : IsExact F) (w : World F)
      → ((a b : F) → a ≼ b → f.to_float32 a ≼ f.to_float32 b)
      → IsValid w.config
      → AreBounded w.config.boundary_mode
          (vec_to_float32 w.config.bounds_min)
          (vec_to_float32 w.config.bounds_max)
          w.state
          (apply_boundaries w).state
  unfolding apply_boundaries
  apply_boundaries-AreBounded laws w rounds valid =
      let c = w.config in
      let s = w.state in
      let lo = vec_to_float32 c.bounds_min in
      let hi = vec_to_float32 c.bounds_max in
      let x_ok =
        rounds c.bounds_min.x c.bounds_max.x
          (lt→le laws c.bounds_min.x c.bounds_max.x valid.x_extent) in
      let y_ok =
        rounds c.bounds_min.y c.bounds_max.y
          (lt→le laws c.bounds_min.y c.bounds_max.y valid.y_extent) in
      let z_ok =
        rounds c.bounds_min.z c.bounds_max.z
          (lt→le laws c.bounds_min.z c.bounds_max.z valid.z_extent) in
      elim (Bool-cases (any s.active_mask)) [
        | inl some_ ↦ rw some_ (record {
          active_inside = λ i h a.
              clamp_positions-IsInBox laws lo hi x_ok y_ok z_ok s.active_mask s.positions i h a;
          inactive_kept = λ i a. (
            clamp_positions-kept lo hi s.active_mask s.positions i a,
            bounce_velocities-kept c.boundary_mode lo hi s.active_mask s.positions s.velocities i a,
          );
          velocity = λ i h k a.
              let mode = c.boundary_mode in
              let p = get_or s.positions i zeros in
              let v = get_or s.velocities i zeros in
              subst
                (λ (w : Vec3 F).
                  Bounces mode lo.x hi.x p.x v.x w.x
                  × Bounces mode lo.y hi.y p.y v.y w.y
                  × Bounces mode lo.z hi.z p.z v.z w.z)
                (sym
                  (bounce_velocities-row mode lo hi s.active_mask s.positions s.velocities i h k a))
                (
                  velocity_after-Bounces laws mode lo.x hi.x p.x v.x,
                  velocity_after-Bounces laws mode lo.y hi.y p.y v.y,
                  velocity_after-Bounces laws mode lo.z hi.z p.z v.z,
                );
        })
        | inr none_ ↦ rw none_ (record {
          active_inside =
              λ i h a. absurd (let e = none_active s.active_mask i none_ in ground arith);
          inactive_kept = λ i a. (refl, refl);
          velocity = λ i h k a. absurd (let e = none_active s.active_mask i none_ in ground arith);
        })
      ]
