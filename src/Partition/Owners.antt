-- ===== src/Partition/Owners.antt =====
-- The owner of a coordinate is a partition, whose slab holds the coordinate.
use drone_swarm_simulator.Prelude.{
  ℕ, zero, suc, ◌-◌, ◌<◌, min, true, false, List, [], ◌∷◌, ◌≡◌, refl, sym, subst, ◌⊎◌, inl, inr,
  arith, length, get_or, Bool-cases,
}
use native.Mathlib.Decide.{dec_lt}
use drone_swarm_simulator.Prelude.Int.{ℤ, pos, negsuc, pos_part, ◌-ℤ◌, ltb_ℤ}
use drone_swarm_simulator.Prelude.Results.{Result, ok, err, OnOk}
use drone_swarm_simulator.Numeric.{Floats, ◌≼◌, IsExact, Vec3}
use drone_swarm_simulator.Config.{SimulationConfig}
use drone_swarm_simulator.Partition.{
  FloatRoutines, AreDocumented, Ascends, PartitionError, too_few_partitions, empty_world,
  PartitionGrid, edge, init_partitions, clip_float, owner_of, assign,
}
use drone_swarm_simulator.SpatialHash.{clip}

clip_before : (s n : ℕ) → clip (pos s -ℤ pos 1) n ≡ min (s - 1) (n - 1)
unfolding ◌-ℤ◌
clip_before s n = ground arith

pos_pos_part : (n : ℤ) → ltb_ℤ n (pos 1) ≡ false → pos (pos_part n) ≡ n
pos_pos_part (pos n) h = refl
pos_pos_part (negsuc n) h = absurd (ground arith)

module _ {F : Type 0} ⦃f : Floats F⦄ where
  -- The edges ascend from the lower bound of the world to the upper one.
  pub record IsPartition (g : PartitionGrid F) : Type 0 where
    pub some_partitions : 0 < g.num_partitions
    pub edge_count : length g.edges ≡ suc g.num_partitions
    pub first_edge : edge g 0 ≡ g.lo
    pub last_edge : edge g g.num_partitions ≡ g.hi
    pub ascends : Ascends g.edges
    pub some_width : g.lo ≼ g.hi

  -- The partitions of the world's X axis.
  pub record IsSplit (c : SimulationConfig F) (n : ℤ) (g : PartitionGrid F) : Type 0 where
    pub count : pos g.num_partitions ≡ n
    pub lower : g.lo ≡ c.bounds_min.x
    pub upper : g.hi ≡ c.bounds_max.x
    pub first_edge : edge g 0 ≡ c.bounds_min.x
    pub last_edge : edge g g.num_partitions ≡ c.bounds_max.x
    pub edge_count : length g.edges ≡ suc g.num_partitions
    pub ascends : Ascends g.edges
    pub enough : ltb_ℤ n (pos 1) ≡ false
    pub wide : f.lt c.bounds_min.x c.bounds_max.x ≡ true

  -- What the constructor makes of a configuration and a number of partitions.
  abbrev pub Made : SimulationConfig F → ℤ → Result PartitionError (PartitionGrid F) → Type 0
  Made c n (ok g) = IsSplit c n g
  Made c n (err e) =
      ((e ≡ too_few_partitions) × (ltb_ℤ n (pos 1) ≡ true))
      ⊎ ((e ≡ empty_world)
          × (ltb_ℤ n (pos 1) ≡ false)
          × (f.lt c.bounds_min.x c.bounds_max.x ≡ false))

  module _ (laws : IsExact F) (r : FloatRoutines F) (doc : AreDocumented r) where
    open laws use {lt-eq-not-le, le_total, le_refl}
    open doc use {
      linspace_length, linspace_first, linspace_last, linspace_ascends, right_below, right_above,
    }

    lt→le : (a b : F) → f.lt a b ≡ true → a ≼ b
    lt→le a b h = elim (le_total a b) [
      | inl e ↦ e
      | inr e ↦ absurd (let l = lt-eq-not-le a b in ground arith)
    ]

    not-lt→le : (a b : F) → f.lt a b ≡ false → b ≼ a
    not-lt→le a b h = let l = lt-eq-not-le a b in ground arith

    init_partitions-OnOk :
        (c : SimulationConfig F) (n : ℤ) → OnOk IsPartition (init_partitions r c n)
    unfolding init_partitions
    init_partitions-OnOk c n = elim (Bool-cases (ltb_ℤ n (pos 1))) [
      | inl t ↦ rw t tt
      | inr e ↦ elim (Bool-cases (f.lt c.bounds_min.x c.bounds_max.x)) [
        | inl wide ↦
            let some : 0 < pos_part n = ground arith in
            let le = lt→le c.bounds_min.x c.bounds_max.x wide in
            rw (e, wide)
              (record {
                some_partitions = some;
                edge_count = linspace_length c.bounds_min.x c.bounds_max.x (suc (pos_part n));
                first_edge = linspace_first c.bounds_min.x c.bounds_max.x (pos_part n);
                last_edge = linspace_last c.bounds_min.x c.bounds_max.x (pos_part n) some le;
                ascends = linspace_ascends c.bounds_min.x c.bounds_max.x (suc (pos_part n)) le;
                some_width = le;
              })
        | inr flat ↦ rw (e, flat) tt
      ]
    ]

    -- Under exact arithmetic and with linspace as documented: the constructor raises the error on
    -- the number when it is below one, the error on the world when the number is not and the X
    -- bounds of the world leave no width, and else makes exactly the partitions asked for, over
    -- the X bounds of the world, with one edge more than partitions, which ascend from the lower
    -- bound to the upper one.
    pub init_partitions-Made : (c : SimulationConfig F) (n : ℤ) → Made c n (init_partitions r c n)
    unfolding init_partitions
    init_partitions-Made c n = elim (Bool-cases (ltb_ℤ n (pos 1))) [
      | inl t ↦ rw t (inl (refl, t))
      | inr e ↦ elim (Bool-cases (f.lt c.bounds_min.x c.bounds_max.x)) [
        | inl wide ↦
            rw (e, wide)
              (record {
                count = pos_pos_part n e;
                lower = refl;
                upper = refl;
                first_edge = linspace_first c.bounds_min.x c.bounds_max.x (pos_part n);
                last_edge =
                    linspace_last c.bounds_min.x c.bounds_max.x (pos_part n)
                      (let some : 0 < pos_part n = ground arith in some)
                      (lt→le c.bounds_min.x c.bounds_max.x wide);
                edge_count = linspace_length c.bounds_min.x c.bounds_max.x (suc (pos_part n));
                ascends =
                    linspace_ascends c.bounds_min.x c.bounds_max.x (suc (pos_part n))
                      (lt→le c.bounds_min.x c.bounds_max.x wide);
                enough = e;
                wide = wide;
              })
        | inr flat ↦ rw (e, flat) (inr (refl, e, flat))
      ]
    ]

    -- The partitions that the constructor makes.
    pub init_partitions-IsPartition :
        (c : SimulationConfig F) (n : ℤ) (g : PartitionGrid F)
        → init_partitions r c n ≡ ok g
        → IsPartition g
    init_partitions-IsPartition c n g h = subst (OnOk IsPartition) h (init_partitions-OnOk c n)

    clip_float-bounds :
        (x lo hi : F) → lo ≼ hi → (lo ≼ clip_float x lo hi) × (clip_float x lo hi ≼ hi)
    clip_float-bounds x lo hi h = elim (Bool-cases (f.lt x lo)) [
      | inl t ↦ rw t (elim (Bool-cases (f.lt hi lo)) [
        | inl back ↦ rw back (h, le_refl hi)
        | inr back ↦ rw back (le_refl lo, h)
      ])
      | inr e ↦ rw e (elim (Bool-cases (f.lt hi x)) [
        | inl over ↦ rw over (h, le_refl hi)
        | inr under ↦ rw under (not-lt→le x lo e, not-lt→le hi x under)
      ])
    ]

    -- Under exact arithmetic, with linspace and searchsorted as documented, the owner of an X
    -- coordinate is one of the partitions of a partitioned world; the coordinate, clipped to the
    -- world, is at or right of the slab's lower edge, and left of its upper edge unless the slab
    -- is the last.
    pub owner_of-covers :
        (g : PartitionGrid F)
        → IsPartition g
        → (x : F)
        → let k = owner_of r g x in
          (k < g.num_partitions)
          × (edge g k ≼ clip_float x g.lo g.hi)
          × ((f.lt (clip_float x g.lo g.hi) (edge g (suc k)) ≡ true) ⊎ (suc k ≡ g.num_partitions))
    unfolding owner_of
    owner_of-covers g h x =
        let y = clip_float x g.lo g.hi in
        let s = r.searchsorted_right g.edges y in
        let place = clip_before s g.num_partitions in
        let k = clip (pos s -ℤ pos 1) g.num_partitions in
        let positive = h.some_partitions in
        let count = h.edge_count in
        let low : edge g k ≼ y = elim (dec_lt k s) [
          | yes inside ↦ right_below g.edges y k h.ascends (omega arith) inside
          | no outside ↦
              subst (λ i. edge g i ≼ y) (let e : 0 ≡ k = omega arith in e)
                (subst (λ e. e ≼ y) (sym h.first_edge)
                  (clip_float-bounds x g.lo g.hi h.some_width).0)
        ] in
        let high : (f.lt y (edge g (suc k)) ≡ true) ⊎ (suc k ≡ g.num_partitions) =
          elim (dec_lt (suc k) g.num_partitions) [
            | yes inner ↦ inl (right_above g.edges y (suc k) h.ascends (omega arith) (omega arith))
            | no last ↦ inr (omega arith)
          ] in
        (omega arith, low, high)

    -- Every drone has an owner among the partitions.
    pub assign-in_range :
        (g : PartitionGrid F)
        → IsPartition g
        → (positions : List (Vec3 F)) (i : ℕ) → get_or (assign r g positions) i 0 < g.num_partitions
    unfolding assign
    assign-in_range g h [] i = h.some_partitions
    assign-in_range g h (p ∷ ps) zero = (owner_of-covers g h p.x).0
    assign-in_range g h (p ∷ ps) (suc i) = assign-in_range g h ps i
