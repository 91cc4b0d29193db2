-- ===== src/Collisions/Resolution.antt =====
-- `resolve` touches only the drones of a collision, and keeps the total momentum.
use drone_swarm_simulator.Prelude.{
  ℕ, zero, suc, ◌<◌, Bool, true, false, List, [], ◌∷◌, ◌≡◌, ◌≢◌, refl, sym, ap, subst, ◌∙◌, arith,
  length, get_or, set, length-set, get_or-set_ne, if◌then◌else◌,
}
use mathlib.Core.Path.{ap₂}
use drone_swarm_simulator.Prelude.Members.{All}
use drone_swarm_simulator.Numeric.{
  Floats, Vec3, zeros, vec_add, vec_sub, vec_scale, vec_to_float32, distance, dot,
}
use drone_swarm_simulator.Config.{SimulationConfig}
use drone_swarm_simulator.State.{DroneState, num_drones}
use drone_swarm_simulator.Collisions.{DetectionResult, normal, resolve_pair, resolve_pairs, resolve}

-- The drone `k` is in none of the pairs.
abbrev pub Apart : ℕ → List (ℕ × ℕ) → Type 0
Apart k pairs = All (λ q. (q.0 ≢ k) × (q.1 ≢ k)) pairs

-- Pairs of two different drones among `n`.
abbrev pub ArePairs : ℕ → List (ℕ × ℕ) → Type 0
ArePairs n pairs = All (λ q. (q.0 ≢ q.1) × (q.0 < n) × (q.1 < n)) pairs

module _ {F : Type 0} ⦃f : Floats F⦄ where
  -- What a resolution of the collisions `pairs` leaves as it was.
  pub record Keeps (pairs : List (ℕ × ℕ)) (s t : DroneState F) : Type 0 where
    pub position_rows : num_drones t ≡ num_drones s
    pub velocity_rows : length t.velocities ≡ length s.velocities
    pub active_mask : t.active_mask ≡ s.active_mask
    pub policies : t.movement_policy_ids ≡ s.movement_policy_ids
    pub goals : t.goal_positions ≡ s.goal_positions
    pub position_apart :
        (k : ℕ) → Apart k pairs → get_or t.positions k zeros ≡ get_or s.positions k zeros
    pub velocity_apart :
        (k : ℕ) → Apart k pairs → get_or t.velocities k zeros ≡ get_or s.velocities k zeros

  set_both-length :
      (xs : List (Vec3 F)) (i j : ℕ) (u v : Vec3 F) → length (set (set xs i u) j v) ≡ length xs
  set_both-length xs i j u v = length-set (set xs i u) j v ∙ length-set xs i u

  set_both-apart :
      (xs : List (Vec3 F)) (i j k : ℕ) (u v : Vec3 F)
      → i ≢ k
      → j ≢ k
      → get_or (set (set xs i u) j v) k zeros ≡ get_or xs k zeros
  set_both-apart xs i j k u v ni nj =
      get_or-set_ne (set xs i u) j k v zeros nj ∙ get_or-set_ne xs i k u zeros ni

  chosen_rows :
      (b : Bool) (xs : List (Vec3 F)) (i j : ℕ) (u v : Vec3 F)
      → length (if b then set (set xs i u) j v else xs) ≡ length xs
  chosen_rows true xs i j u v = set_both-length xs i j u v
  chosen_rows false xs i j u v = refl

  chosen-apart :
      (b : Bool) (xs : List (Vec3 F)) (i j k : ℕ) (u v : Vec3 F)
      → i ≢ k
      → j ≢ k
      → get_or (if b then set (set xs i u) j v else xs) k zeros ≡ get_or xs k zeros
  chosen-apart true xs i j k u v ni nj = set_both-apart xs i j k u v ni nj
  chosen-apart false xs i j k u v ni nj = refl

  resolve_pair-Keeps :
      (radius : F) (s : DroneState F) (q : ℕ × ℕ) → Keeps (q ∷ []) s (resolve_pair radius s q)
  unfolding resolve_pair
  resolve_pair-Keeps radius s (i, j) = record {
    position_rows = chosen_rows _ s.positions i j _ _;
    velocity_rows = set_both-length s.velocities i j _ _;
    active_mask = refl;
    policies = refl;
    goals = refl;
    position_apart = λ k ((ni, nj), _). chosen-apart _ s.positions i j k _ _ ni nj;
    velocity_apart = λ k ((ni, nj), _). set_both-apart s.velocities i j k _ _ ni nj;
  }

  Keeps-trans :
      (q : ℕ × ℕ) (rest : List (ℕ × ℕ)) (s t u : DroneState F)
      → Keeps (q ∷ []) s t
      → Keeps rest t u
      → Keeps (q ∷ rest) s u
  Keeps-trans q rest s t u a b = record {
    position_rows = b.position_rows ∙ a.position_rows;
    velocity_rows = b.velocity_rows ∙ a.velocity_rows;
    active_mask = b.active_mask ∙ a.active_mask;
    policies = b.policies ∙ a.policies;
    goals = b.goals ∙ a.goals;
    position_apart = λ k (h, hs). b.position_apart k hs ∙ a.position_apart k (h, tt);
    velocity_apart = λ k (h, hs). b.velocity_apart k hs ∙ a.velocity_apart k (h, tt);
  }

  resolve_pairs-Keeps :
      (radius : F) (s : DroneState F) (pairs : List (ℕ × ℕ))
      → Keeps pairs s (resolve_pairs radius s pairs)
  unfolding resolve_pairs
  resolve_pairs-Keeps radius s [] = record {
    position_rows = refl;
    velocity_rows = refl;
    active_mask = refl;
    policies = refl;
    goals = refl;
    position_apart = λ k h. refl;
    velocity_apart = λ k h. refl;
  }
  resolve_pairs-Keeps radius s (q ∷ rest) =
      Keeps-trans q rest s (resolve_pair radius s q)
        (resolve_pairs radius (resolve_pair radius s q) rest) (resolve_pair-Keeps radius s q)
        (resolve_pairs-Keeps radius (resolve_pair radius s q) rest)

  -- Resolution keeps the number of drones, the mask, the policies and the goals, and the position
  -- and velocity of every drone in no collision; it returns the number of collisions.
  pub resolve-Keeps :
      (c : SimulationConfig F) (s : DroneState F) (r : DetectionResult F)
      → Keeps r.collision_pairs s (resolve c s r).0 × ((resolve c s r).1 ≡ length r.collision_pairs)
  unfolding resolve
  resolve-Keeps c s r = (resolve_pairs-Keeps c.collision_radius s r.collision_pairs, refl)

-- Addition of exact numbers, and a rounding that changes none of them.
pub record IsBalanced (F : Type 0) ⦃f : Floats F⦄ : Type 0 where
  pub add_comm : (a b : F) → f.add a b ≡ f.add b a
  pub add_assoc : (a b c : F) → f.add (f.add a b) c ≡ f.add a (f.add b c)
  pub add_cancel : (a b c : F) → f.add a c ≡ f.add b c → a ≡ b
  pub sub-add : (a b t : F) → f.add (f.sub a t) (f.add b t) ≡ f.add a b
  pub to_float32_exact : (a : F) → f.to_float32 a ≡ a

module _ {F : Type 0} ⦃f : Floats F⦄ where
  -- The sum of one component of the rows.
  abbrev pub total : (Vec3 F → F) → List (Vec3 F) → F
  total p [] = f.of_ℕ 0
  total p (v ∷ vs) = f.add (p v) (total p vs)

  module _ (balanced : IsBalanced F) (p : Vec3 F → F) where
    open balanced use {add_comm, add_assoc, add_cancel, sub-add, to_float32_exact}

    left_comm : (a b c : F) → f.add a (f.add b c) ≡ f.add b (f.add a c)
    left_comm a b c = sym (add_assoc a b c) ∙ ap (λ t. f.add t c) (add_comm a b) ∙ add_assoc b a c

    total-set :
        (xs : List (Vec3 F)) (i : ℕ) (v : Vec3 F)
        → i < length xs
        → f.add (p (get_or xs i zeros)) (total p (set xs i v)) ≡ f.add (p v) (total p xs)
    total-set [] i v h = elim h [ ]
    total-set (x ∷ xs) zero v h = left_comm (p x) (p v) (total p xs)
    total-set (x ∷ xs) (suc i) v h =
        left_comm (p (get_or xs i zeros)) (p x) (total p (set xs i v))
        ∙ ap (f.add (p x)) (total-set xs i v (omega arith))
        ∙ left_comm (p x) (p v) (total p xs)

    -- An exchange between two rows that keeps the sum of the two keeps the total.
    total-exchange :
        (xs : List (Vec3 F)) (i j : ℕ) (u v : Vec3 F)
        → i ≢ j
        → i < length xs
        → j < length xs
        → f.add (p u) (p v) ≡ f.add (p (get_or xs i zeros)) (p (get_or xs j zeros))
        → total p (set (set xs i u) j v) ≡ total p xs
    total-exchange xs i j u v ne hi hj e =
        let mid = set xs i u in
        let a = p (get_or xs i zeros) in
        let b = p (get_or xs j zeros) in
        let one = total-set xs i u hi in
        let two : f.add b (total p (set mid j v)) ≡ f.add (p v) (total p mid) =
          ap (λ t. f.add (p t) (total p (set mid j v))) (sym (get_or-set_ne xs i j u zeros ne))
          ∙ total-set mid j v (omega (arith, length-set xs i u)) in
        let both : f.add (f.add a b) (total p (set mid j v)) ≡ f.add (f.add a b) (total p xs) =
          add_assoc a b (total p (set mid j v))
          ∙ ap (f.add a) two
          ∙ left_comm a (p v) (total p mid)
          ∙ ap (f.add (p v)) one
          ∙ sym (add_assoc (p v) (p u) (total p xs))
          ∙ ap (λ t. f.add t (total p xs)) (add_comm (p v) (p u) ∙ e) in
        add_cancel (total p (set mid j v)) (total p xs) (f.add a b)
          (add_comm (total p (set mid j v)) (f.add a b) ∙ both ∙ add_comm (f.add a b) (total p xs))

    -- The component is computed component by component.
    record IsComponent : Type 0 where
      of_sub : (a t : Vec3 F) → p (vec_to_float32 (vec_sub a t)) ≡ f.sub (p a) (p t)
      of_add : (a t : Vec3 F) → p (vec_to_float32 (vec_add a t)) ≡ f.add (p a) (p t)

    module _ (component : IsComponent) where
      open component use {of_sub, of_add}

      resolve_pair-total :
          (radius : F) (s : DroneState F) (q : ℕ × ℕ)
          → q.0 ≢ q.1
          → q.0 < length s.velocities
          → q.1 < length s.velocities
          → total p (resolve_pair radius s q).velocities ≡ total p s.velocities
      unfolding resolve_pair
      resolve_pair-total radius s (i, j) ne hi hj =
          let pi = get_or s.positions i zeros in
          let pj = get_or s.positions j zeros in
          let vi = get_or s.velocities i zeros in
          let vj = get_or s.velocities j zeros in
          let n = normal (vec_sub pi pj) (distance pi pj) in
          let t = vec_scale (f.sub (dot vi n) (dot vj n)) n in
          total-exchange s.velocities i j (vec_to_float32 (vec_sub vi t))
            (vec_to_float32 (vec_add vj t)) ne hi hj
            (ap₂ f.add (of_sub vi t) (of_add vj t) ∙ sub-add (p vi) (p vj) (p t))

      resolve_pairs-total :
          (radius : F) (s : DroneState F) (pairs : List (ℕ × ℕ))
          → ArePairs (length s.velocities) pairs
          → total p (resolve_pairs radius s pairs).velocities ≡ total p s.velocities
      unfolding resolve_pairs
      resolve_pairs-total radius s [] h = refl
      resolve_pairs-total radius s (q ∷ rest) ((ne, hi, hj), h) =
          let next = resolve_pair radius s q in
          let rows = (resolve_pair-Keeps radius s q).velocity_rows in
          resolve_pairs-total radius next rest (subst (λ n. ArePairs n rest) (sym rows) h)
          ∙ resolve_pair-total radius s q ne hi hj

  module _ (balanced : IsBalanced F) where
    open balanced use {to_float32_exact}

    x_component : IsComponent balanced (λ v. v.x)
    x_component = record { of_sub = λ a t. to_float32_exact _; of_add = λ a t. to_float32_exact _ }

    y_component : IsComponent balanced (λ v. v.y)
    y_component = record { of_sub = λ a t. to_float32_exact _; of_add = λ a t. to_float32_exact _ }

    z_component : IsComponent balanced (λ v. v.z)
    z_component = record { of_sub = λ a t. to_float32_exact _; of_add = λ a t. to_float32_exact _ }

    -- In exact arithmetic, resolving collisions between different drones of the state keeps the
    -- sum of the velocities on every axis, whichever drones collide and in whatever order.
    pub resolve-total :
        (c : SimulationConfig F) (s : DroneState F) (r : DetectionResult F)
        → ArePairs (length s.velocities) r.collision_pairs
        → (total (λ v. v.x) (resolve c s r).0.velocities ≡ total (λ v. v.x) s.velocities)
          × (total (λ v. v.y) (resolve c s r).0.velocities ≡ total (λ v. v.y) s.velocities)
          × (total (λ v. v.z) (resolve c s r).0.velocities ≡ total (λ v. v.z) s.velocities)
    unfolding resolve
    resolve-total c s r h = (
      resolve_pairs-total balanced (λ v. v.x) x_component c.collision_radius s r.collision_pairs h,
      resolve_pairs-total balanced (λ v. v.y) y_component c.collision_radius s r.collision_pairs h,
      resolve_pairs-total balanced (λ v. v.z) z_component c.collision_radius s r.collision_pairs h,
    )
