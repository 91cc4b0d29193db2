-- ===== src/Worker/Detection.antt =====
-- What a worker reports: the close pairs among the drones that it was given.
use drone_swarm_simulator.Prelude.{
  ℕ, ◌<◌, min, max, Bool, true, List, [], ◌∷◌, ◌++◌, map, ◌≡◌, ◌≢◌, refl, sym, ap, subst, ◌↔◌, ◌⊎◌,
  inl, inr, arith, length, get_or, select, range, get_or-map,
}
use mathlib.Core.Path.{ap₂}
use native.Mathlib.Decide.{dec_lt}
use drone_swarm_simulator.Prelude.Members.{
  In, Distinct, In-select, In-select_cases, Distinct-select, In-map, In-map_cases, In-index,
  In-get_or, Distinct-map, Distinct-index, In-count_from, In-count_from_bounds, Distinct-count_from,
}
use drone_swarm_simulator.Numeric.{Floats, IsExact, ◌≼◌, Vec3, zeros, distance}
use drone_swarm_simulator.Numeric.Distance.{distance_comm}
use drone_swarm_simulator.Config.{SimulationConfig, IsValid}
use drone_swarm_simulator.Arrays.{Routines, IsDocumented, gather}
use drone_swarm_simulator.SpatialHash.Coverage.{pairs_of, pairs_of_iff, pairs_of-Distinct}
use drone_swarm_simulator.Collisions.{pair_distance}
use drone_swarm_simulator.Collisions.Detection.{near-Adjacent}
use drone_swarm_simulator.Worker.{global_pair, to_global_pairs}

pub map-append :
    {A B : Type 0} (g : A → B) (xs ys : List A) → map g (xs ++ ys) ≡ map g xs ++ map g ys
map-append g [] ys = refl
map-append g (x ∷ xs) ys = ap (λ t. g x ∷ t) (map-append g xs ys)

pub append-[] : {A : Type 0} (xs : List A) → xs ++ [] ≡ xs
append-[] [] = refl
append-[] (x ∷ xs) = ap (λ t. x ∷ t) (append-[] xs)

pub pair_eq :
    {a b c d : ℕ} → a ≡ c → b ≡ d → (λ (x y : ℕ). let q : ℕ × ℕ = (x, y) in q) a b ≡ (c, d)
pair_eq e g = ap₂ (λ (x y : ℕ). let q : ℕ × ℕ = (x, y) in q) e g

min-max_cases :
    (x y u v : ℕ)
    → min x y ≡ min u v
    → max x y ≡ max u v
    → ((x ≡ u) × (y ≡ v)) ⊎ ((x ≡ v) × (y ≡ u))
min-max_cases x y u v e g = ground arith

module _ {F : Type 0} ⦃f : Floats F⦄ where
  -- Two different drones of `ids`, the smaller id first, whose distance passes the test.
  pub record IsEvent (test : F → Bool) (positions : List (Vec3 F)) (ids : List ℕ) (i j : ℕ)
      : Type 0 where
    pub ordered : i < j
    pub first_known : In i ids
    pub second_known : In j ids
    pub close : test (pair_distance positions (i, j)) ≡ true

  -- A test that only close pairs pass.
  abbrev pub IsShort : (F → Bool) → F → Type 0
  IsShort test radius = (d : F) → test d ≡ true → d ≼ radius

  module _ (laws : IsExact F) (np : Routines) (doc : IsDocumented np) (c : SimulationConfig F)
      (valid : IsValid c) where
    module _ (positions : List (Vec3 F)) (ids : List ℕ) (unique : Distinct ids) where
      abbrev pub local_positions : List (Vec3 F)
      local_positions = gather zeros positions ids

      abbrev pub local_pairs : List (ℕ × ℕ)
      local_pairs = pairs_of np c local_positions (range (length ids))

      local-distance :
          (a b : ℕ)
          → a < length ids
          → b < length ids
          → pair_distance local_positions (a, b)
            ≡ pair_distance positions (get_or ids a 0, get_or ids b 0)
      local-distance a b ha hb =
          ap₂ distance (get_or-map (λ i. get_or positions i zeros) ids a 0 zeros ha)
            (get_or-map (λ i. get_or positions i zeros) ids b 0 zeros hb)

      abbrev pub close_locally : (F → Bool) → ℕ × ℕ → Bool
      close_locally test q = test (pair_distance local_positions q)

      local_iff :
          (test : F → Bool)
          → IsShort test c.near_miss_radius
          → (a b : ℕ)
          → In {A = ℕ × ℕ} (a, b) (select (close_locally test) local_pairs)
            ↔ ((a < b) × (b < length ids) × (test (pair_distance local_positions (a, b)) ≡ true))
      local_iff test short a b =
          let known =
            pairs_of_iff np doc c local_positions (range (length ids))
              (Distinct-count_from 0 (length ids)) a b in
          (
            λ m.
                let (m', h) = In-select_cases (close_locally test) (a, b) local_pairs m in
                let p = known.0 m' in
                let bounds = In-count_from_bounds 0 (length ids) b p.second_active in
                let lt = p.ordered in (lt, omega arith, h),
            λ (lt, hb, h).
                In-select (close_locally test) (a, b) local_pairs
                  (known.1 (record {
                    first_active = In-count_from 0 (length ids) a (omega arith) (omega arith);
                    second_active = In-count_from 0 (length ids) b (omega arith) (omega arith);
                    ordered = lt;
                    near =
                        near-Adjacent laws c valid local_positions a b
                          (short (pair_distance local_positions (a, b)) h);
                  }))
                  h,
          )

      abbrev pub reported : (F → Bool) → List (ℕ × ℕ)
      reported test = to_global_pairs (select (close_locally test) local_pairs) ids

      close_comm :
          (test : F → Bool) (i j : ℕ)
          → test (pair_distance positions (i, j)) ≡ true
          → test (pair_distance positions (j, i)) ≡ true
      close_comm test i j h =
          subst (λ d. test d ≡ true)
            (distance_comm laws (get_or positions i zeros) (get_or positions j zeros)) h

      pub reported_sound :
          (test : F → Bool)
          → IsShort test c.near_miss_radius
          → (i j : ℕ) → In {A = ℕ × ℕ} (i, j) (reported test)
          → IsEvent test positions ids i j
      reported_sound test short i j m =
          let (q, m', e) =
            In-map_cases (global_pair ids) (i, j) (select (close_locally test) local_pairs) m in
          let a = q.0 in
          let b = q.1 in
          let (lt, hb, h) = (local_iff test short a b).0 m' in
          let x = get_or ids a 0 in
          let y = get_or ids b 0 in
          let ei : i ≡ min x y = ap (λ (t : ℕ × ℕ). t.0) e in
          let ej : j ≡ max x y = ap (λ (t : ℕ × ℕ). t.1) e in
          let ha : a < length ids = omega arith in
          let h' = subst (λ d. test d ≡ true) (local-distance a b ha hb) h in
          let in_x = In-get_or ids a 0 ha in
          let in_y = In-get_or ids b 0 hb in
          elim (dec_lt x y) [
            | yes up ↦
                rw ((let t : i ≡ x = omega arith in t), (let t : j ≡ y = omega arith in t))
                  (record { ordered = up; first_known = in_x; second_known = in_y; close = h' })
            | no down ↦
                let ne : x ≢ y = (λ same.
                  absurd (let s = Distinct-index ids 0 a b unique ha hb same in omega arith)) in
                rw ((let t : i ≡ y = omega arith in t), (let t : j ≡ x = omega arith in t))
                  (record {
                    ordered = (omega (arith, ne));
                    first_known = in_y;
                    second_known = in_x;
                    close = close_comm test x y h';
                  })
          ]

      reported-at :
          (test : F → Bool)
          → IsShort test c.near_miss_radius
          → (p q : ℕ) → p < q
          → q < length ids
          → test (pair_distance positions (get_or ids p 0, get_or ids q 0)) ≡ true
          → In {A = ℕ × ℕ} (global_pair ids (p, q)) (reported test)
      reported-at test short p q up hq h =
          In-map (global_pair ids) (p, q) (select (close_locally test) local_pairs)
            ((local_iff test short p q).1
              (up, hq, subst (λ d. test d ≡ true) (sym (local-distance p q (omega arith) hq)) h))

      pub reported_complete :
          (test : F → Bool)
          → IsShort test c.near_miss_radius
          → (i j : ℕ) → IsEvent test positions ids i j
          → In {A = ℕ × ℕ} (i, j) (reported test)
      reported_complete test short i j ev =
          let (a, ha, ea) = In-index i 0 ids ev.first_known in
          let (b, hb, eb) = In-index j 0 ids ev.second_known in
          let lt = ev.ordered in
          let h : test (pair_distance positions (get_or ids a 0, get_or ids b 0)) ≡ true =
            rw (ea, eb) ev.close in
          let x = get_or ids a 0 in
          let y = get_or ids b 0 in
          elim (dec_lt a b) [
            | yes up ↦
                let e : global_pair ids (a, b) ≡ (i, j) =
                  pair_eq (let t : min x y ≡ i = omega arith in t)
                    (let t : max x y ≡ j = omega arith in t) in
                subst (λ t. In t (reported test)) e (reported-at test short a b up hb h)
            | no down ↦
                let ne : a ≢ b =
                  (λ same. absurd (let k = ap (λ (t : ℕ). get_or ids t 0) same in omega arith)) in
                let e : global_pair ids (b, a) ≡ (i, j) =
                  pair_eq (let t : min y x ≡ i = omega arith in t)
                    (let t : max y x ≡ j = omega arith in t) in
                subst (λ t. In t (reported test)) e
                  (reported-at test short b a (omega (arith, ne)) ha (close_comm test x y h))
          ]

      pub reported-Distinct :
          (test : F → Bool) → IsShort test c.near_miss_radius → Distinct (reported test)
      reported-Distinct test short =
          let rows = range (length ids) in
          let once =
            pairs_of-Distinct np doc c local_positions rows (Distinct-count_from 0 (length ids)) in
          Distinct-map (global_pair ids) (select (close_locally test) local_pairs)
            (λ p q mp mq e.
              let (lp, hp, _) = (local_iff test short p.0 p.1).0 mp in
              let (lq, hq, _) = (local_iff test short q.0 q.1).0 mq in
              elim (min-max_cases (get_or ids p.0 0) (get_or ids p.1 0) (get_or ids q.0 0)
                (get_or ids q.1 0) (ap (λ (t : ℕ × ℕ). t.0) e) (ap (λ (t : ℕ × ℕ). t.1) e)) [
                  | inl (e0, e1) ↦
                      pair_eq (Distinct-index ids 0 p.0 q.0 unique (omega arith) (omega arith) e0)
                        (Distinct-index ids 0 p.1 q.1 unique hp hq e1)
                  | inr (e0, e1) ↦
                      let c0 = Distinct-index ids 0 p.0 q.1 unique (omega arith) hq e0 in
                      let c1 = Distinct-index ids 0 p.1 q.0 unique hp (omega arith) e1 in
                      absurd (omega arith)
                ])
            (Distinct-select (close_locally test) local_pairs once)
