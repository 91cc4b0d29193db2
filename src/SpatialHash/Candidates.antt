-- ===== src/SpatialHash/Candidates.antt =====
-- `candidate_pairs`: every pair of drones in the same or neighbouring cells, and no other.
use drone_swarm_simulator.Prelude.{
  ℕ, ◌<◌, List, ◌++◌, map, ◌≡◌, refl, sym, ap, subst, inl, inr, ◌⊎◌, ◌∙◌, true, arith, length,
  get_or, flat_map,
}
use drone_swarm_simulator.Prelude.Members.{
  In, All, All-from, Distinct, In-append_cases, In-flat_map_cases, In-index,
}
use drone_swarm_simulator.Arrays.{Routines, IsDocumented}
use drone_swarm_simulator.SpatialHash.{
  Grid, Built, Cell, linear_key, total_cells, group_keys, within_pairs, cross_pairs,
}
use drone_swarm_simulator.SpatialHash.Offsets.{Offset, forward_offsets}
use drone_swarm_simulator.SpatialHash.Structure.{IsIndex, group_keys-IsIndex, drone_at, size_of}
use drone_swarm_simulator.SpatialHash.Cells.{
  Adjacent, At, Inside, linear_key-lt, linear_key_injective,
}
use drone_swarm_simulator.SpatialHash.Steps.{precedes, precedes_irrefl, In-forward_offsets-At}
use drone_swarm_simulator.SpatialHash.Neighbors.{IsDecoded, neighbor_sound}
use drone_swarm_simulator.SpatialHash.Raw.{
  Together, Across, within_pairs-Together, cross_pairs-Across,
}

-- A grid over which every drone has a cell, and the active drones, each listed once.
pub record Placing {F : Type 0} (g : Grid F) : Type 0 where
  pub cell : ℕ → Cell
  pub inside : (i : ℕ) → Inside g (cell i)
  pub active : List ℕ
  pub unique : Distinct active

module _ {F : Type 0} (np : Routines) (doc : IsDocumented np) (g : Grid F) (p : Placing g) where
  open p use {cell, inside, active, unique}

  abbrev pub key_of : ℕ → ℕ
  key_of i = linear_key g (cell i)

  abbrev pub built : Built
  built = group_keys np g active (map key_of active)

  pub index : IsIndex key_of active built
  index = group_keys-IsIndex np doc g key_of active unique

  pub decoded : IsDecoded g built
  unfolding group_keys
  decoded = record { x_def = refl; y_def = refl; z_def = refl; lookup_def = refl }

  pub keys_fit : All (λ k. k < total_cells g) built.unique_keys
  keys_fit =
      All-from (λ k. k < total_cells g) built.unique_keys
        λ key m.
          let (s, hs, e) = In-index key 0 built.unique_keys m in
          let (_, q) = index.member s 0 hs (index.occupied s hs) in
          subst (λ k. k < total_cells g) (q ∙ e)
            (linear_key-lt g (cell (drone_at built s 0)) (inside (drone_at built s 0)))

  -- Two drones of one group share their cell.
  pub same_cell :
      (s k t l : ℕ)
      → s < length built.unique_keys
      → k < size_of built s
      → t < length built.unique_keys
      → l < size_of built t
      → get_or built.unique_keys s 0 ≡ get_or built.unique_keys t 0
      → cell (drone_at built s k) ≡ cell (drone_at built t l)
  same_cell s k t l hs hk ht hl e =
      let (_, a) = index.member s k hs hk in
      let (_, b) = index.member t l ht hl in
      linear_key_injective g (cell (drone_at built s k)) (cell (drone_at built t l))
        (inside (drone_at built s k)) (inside (drone_at built t l)) (a ∙ e ∙ sym b)

  -- The match of two groups, as a relation of the cells of their drones.
  pub Across-At :
      (d : Offset) (u v : ℕ)
      → Across np g built d u v
      → In u active × In v active × At (cell u) d (cell v)
  Across-At d u v a =
      let (mu, ku) = index.member a.s a.k a.s_in a.k_in in
      let w = drone_at built a.s a.k in
      let (e, in_e, at, ht, kt) =
        neighbor_sound np doc g built decoded index.ascending keys_fit (cell w) (inside w) a.s
          a.s_in (sym ku) d a.t a.matched in
      let x = drone_at built a.t a.l in
      let (mv, kv) = index.member a.t a.l ht a.l_in in
      let cell_x : e ≡ cell x =
        linear_key_injective g e (cell x) in_e (inside x) (sym kt ∙ sym kv) in
      (
        subst (λ i. In i active) (sym a.first) mu,
        subst (λ i. In i active) (sym a.second) mv,
        subst (λ i. At (cell i) d (cell v)) (sym a.first)
            (subst (λ i. At (cell w) d (cell i)) (sym a.second)
              (subst (λ c. At (cell w) d c) cell_x at)),
      )

  pub Together-facts :
      (u v : ℕ) → Together built u v → In u active × In v active × (cell u ≡ cell v) × (u ≡ v → ⊥)
  Together-facts u v h =
      let hs : h.s < length built.unique_keys =
        (let a = h.s_in in omega (arith, index.same_length)) in
      let hk : h.k < size_of built h.s = (let a = h.k_lt_l in let c = h.l_in in omega arith) in
      let (mu, _) = index.member h.s h.k hs hk in
      let (mv, _) = index.member h.s h.l hs h.l_in in
      (
        subst (λ i. In i active) (sym h.first) mu,
        subst (λ i. In i active) (sym h.second) mv,
        ap cell h.first ∙ same_cell h.s h.k h.s h.l hs hk hs h.l_in refl ∙ ap cell (sym h.second),
        λ e.
            let q = index.once h.s h.k h.s h.l hs hk hs h.l_in (sym h.first ∙ e ∙ h.second) in
            let lt = h.k_lt_l in absurd (omega arith),
      )

  pub Across-distinct :
      (d : Offset) (u v : ℕ) → In d forward_offsets → Across np g built d u v → u ≡ v → ⊥
  Across-distinct d u v m a e =
      let (_, _, at) = Across-At d u v a in
      let (pr, _) = In-forward_offsets-At (cell u) (cell v) d m at in
      let same : precedes (cell u) (cell u) ≡ true =
        subst (λ i. precedes (cell u) (cell i) ≡ true) (sym e) pr in
      absurd (cc (precedes_irrefl (cell u), same))

  abbrev pub raw_pairs : List (ℕ × ℕ)
  raw_pairs = within_pairs built ++ flat_map (cross_pairs np g built) forward_offsets

  -- What a pair of `raw_pairs` is: two drones of one group, or of two groups at a forward offset.
  pub raw_pairs_cases :
      (u v : ℕ)
      → In {A = ℕ × ℕ} (u, v) raw_pairs
      → Together built u v ⊎ ((d : Offset) × In d forward_offsets × Across np g built d u v)
  raw_pairs_cases u v m =
      elim (In-append_cases (u, v) (within_pairs built)
        (flat_map (cross_pairs np g built) forward_offsets) m) [
          | inl l ↦ inl (within_pairs-Together built u v l)
          | inr r ↦
              let (d, md, h) =
                In-flat_map_cases (cross_pairs np g built) (u, v) forward_offsets r in
              inr (d, md, cross_pairs-Across np g built d u v h)
        ]

  -- Two different active drones whose cells are the same or next to each other.
  pub record IsCandidate (i j : ℕ) : Type 0 where
    pub first_active : In i active
    pub second_active : In j active
    pub ordered : i < j
    pub near : Adjacent (cell i) (cell j)
