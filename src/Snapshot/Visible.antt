-- ===== src/Snapshot/Visible.antt =====
-- The drones that a viewport shows.
use drone_swarm_simulator.Prelude.{
  ℕ, zero, suc, ◌≤◌, false, Option, none, some, List, [], ◌∷◌, map, ◌≡◌, inl, inr, refl, sym, ap,
  ◌∙◌, arith, length, get_or, ltb, Bool-cases, length-map,
}
use drone_swarm_simulator.Numeric.{Floats, ◌≼◌, Vec3}
use drone_swarm_simulator.State.{World, active_indices}
use drone_swarm_simulator.Collisions.{DetectionResult}
use drone_swarm_simulator.Snapshot.{
  SimulationSnapshot, ViewportQuery, VisibleDroneData, build_snapshot, visible_rows,
  find_visible_drones, limited, take,
}

take-all : (n : ℕ) (xs : List ℕ) → length xs ≤ n → take n xs ≡ xs
take-all zero [] h = refl
take-all zero (x ∷ xs) h = absurd (omega arith)
take-all (suc n) [] h = refl
take-all (suc n) (x ∷ xs) h = ap (λ t. x ∷ t) (take-all n xs (omega arith))

take-map : (f : ℕ → ℕ) (n : ℕ) (xs : List ℕ) → map f (take n xs) ≡ take n (map f xs)
take-map f zero xs = refl
take-map f (suc n) [] = refl
take-map f (suc n) (x ∷ xs) = ap (λ t. f x ∷ t) (take-map f n xs)

limited-take :
    (n : ℕ) (xs : List ℕ)
    → ((limited (some n) xs).0 ≡ take n xs) × ((limited (some n) xs).1 ≡ ltb n (length xs))
limited-take n xs = elim (Bool-cases (ltb n (length xs))) [
  | inl t ↦ rw t (refl, refl)
  | inr e ↦ rw e (sym (take-all n xs (ground arith)), refl)
]

module _ {F : Type 0} ⦃f : Floats F⦄ (snapshot : SimulationSnapshot F) (q : ViewportQuery F)
    (n : ℕ) where
  -- What a limited view `v` is of the view `all` without a limit.
  pub record IsPrefix (v all : VisibleDroneData F) : Type 0 where
    pub drone_ids : v.drone_ids ≡ take n all.drone_ids
    pub total_visible : v.total_visible ≡ length all.drone_ids
    pub truncated : v.truncated ≡ ltb n (length all.drone_ids)

  -- With a limit, the drones that are returned are the first ones, up to the limit, of those that
  -- are returned without it; the total counts them all, and the view is marked as truncated
  -- exactly when the limit is below the total.
  pub find_visible_drones-IsPrefix :
      IsPrefix (find_visible_drones snapshot q (some n)) (find_visible_drones snapshot q none)
  unfolding find_visible_drones
  find_visible_drones-IsPrefix = elim (Bool-cases (ltb 0 (length snapshot.positions))) [
    | inl t ↦
        let rows = visible_rows snapshot q in
        let (ids, cut) = limited-take n rows in
        let ids_at = λ (k : ℕ). get_or snapshot.drone_ids k 0 in
        let count = length-map ids_at rows in
        rw t (record {
          drone_ids = ap (map ids_at) ids ∙ take-map ids_at n rows;
          total_visible = sym count;
          truncated = cut ∙ ap (ltb n) (sym count);
        })
    | inr e ↦ rw e (record {
      drone_ids = sym (take-all n [] (omega arith));
      total_visible = refl;
      truncated = (let e : false ≡ ltb n 0 = ground arith in e);
    })
  ]

module _ {F : Type 0} ⦃f : Floats F⦄ where
  abbrev AtLeast : Option F → F → Type 0
  AtLeast none z = Unit
  AtLeast (some lo) z = lo ≼ z

  abbrev AtMost : Option F → F → Type 0
  AtMost none z = Unit
  AtMost (some hi) z = z ≼ hi

  -- The point is in the viewport's box, walls included; its height is free where no bound is given.
  pub record IsInView (q : ViewportQuery F) (p : Vec3 F) : Type 0 where
    pub x_low : q.x_min ≼ p.x
    pub x_high : p.x ≼ q.x_max
    pub y_low : q.y_min ≼ p.y
    pub y_high : p.y ≼ q.y_max
    pub z_low : AtLeast q.z_min p.z
    pub z_high : AtMost q.z_max p.z

module _ {F : Type 0} ⦃f : Floats F⦄ (w : World F) (tick : ℕ) (time_s : F)
    (last : Option (DetectionResult F)) (q : ViewportQuery F) where
  abbrev snapshot : SimulationSnapshot F
  snapshot = build_snapshot w tick time_s last

  abbrev actives : List ℕ
  actives = active_indices w.state

  shown_ids : List ℕ
  shown_ids = map (λ k. get_or actives k 0) (visible_rows snapshot q)
