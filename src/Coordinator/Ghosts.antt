-- ===== src/Coordinator/Ghosts.antt =====
-- The ghosts of a partition: the drones of its neighbours near the shared edge.
use drone_swarm_simulator.Prelude.{
  ℕ, zero, suc, ◌<◌, Bool, true, false, ◌&&◌, none, List, [], ◌∷◌, ◌++◌, ◌≡◌, ◌≢◌, ◌⊎◌, ◌↔◌, refl,
  sym, ap, subst, ◌∙◌, inl, inr, arith, get_or, select, range, ltb, lt→ltb, ◌==◌, ==_iff,
  Bool-cases, &&_parts, if◌then◌else◌,
}
use drone_swarm_simulator.Prelude.Members.{
  In, Distinct, In-select, In-select_cases, Distinct-select, In-flat_map, In-flat_map_cases,
  In-count_from, In-count_from_bounds, Distinct-count_from, Distinct-append, Distinct-flat_map,
}
use drone_swarm_simulator.Numeric.{Floats, Vec3}
use drone_swarm_simulator.Partition.{
  PartitionGrid, neighbors, ghost_export_indices, lookup_ids, entry_unless_empty, edge, x_of,
}
use drone_swarm_simulator.Coordinator.{active_owned, ids_or_none, ghost_ids}

module _ (owners : List ℕ) (active_mask : List Bool) (n : ℕ) where
  -- A drone that `p` owns and that is active.
  pub record IsOwned (p i : ℕ) : Type 0 where
    pub known : i < n
    pub owner : get_or owners i 0 ≡ p
    pub active : get_or active_mask i false ≡ true

  pub active_owned_iff : (p i : ℕ) → In i (active_owned owners active_mask n p) ↔ IsOwned p i
  active_owned_iff p i = (
    λ m.
        let (m', h) =
          In-select_cases (λ k. (get_or owners k 0 == p) && get_or active_mask k false) i (range n)
            m in
        let (e, a) = &&_parts (get_or owners i 0 == p) (get_or active_mask i false) h in
        record {
          known = omega (arith, In-count_from_bounds 0 n i m');
          owner = (==_iff (get_or owners i 0) p).0 e;
          active = a;
        },
    λ h.
        In-select (λ k. (get_or owners k 0 == p) && get_or active_mask k false) i (range n)
          (let k = h.known in In-count_from 0 n i (omega arith) (omega arith))
          (rw ((==_iff (get_or owners i 0) p).1 h.owner, h.active) refl),
  )

  pub active_owned-Distinct : (p : ℕ) → Distinct (active_owned owners active_mask n p)
  active_owned-Distinct p =
      Distinct-select (λ k. (get_or owners k 0 == p) && get_or active_mask k false) (range n)
        (Distinct-count_from 0 n)

lookup-skip :
    (j k : ℕ) (ids : List ℕ) (rest : List (ℕ × List ℕ))
    → j ≢ k
    → lookup_ids (entry_unless_empty j ids ++ rest) k ≡ lookup_ids rest k
lookup-skip j k [] rest ne = refl
lookup-skip j k (i ∷ is) rest ne = elim (Bool-cases (j == k)) [
  | inl t ↦ absurd (ne ((==_iff j k).0 t))
  | inr e ↦ rw e refl
]

lookup-here :
    (k : ℕ) (ids : List ℕ) (rest : List (ℕ × List ℕ))
    → lookup_ids rest k ≡ none
    → ids_or_none (lookup_ids (entry_unless_empty k ids ++ rest) k) ≡ ids
lookup-here k [] rest e = rw e refl
lookup-here k (i ∷ is) rest e = rw ((==_iff k k).1 refl) refl

lookup-alone : (k : ℕ) (ids : List ℕ) → ids_or_none (lookup_ids (entry_unless_empty k ids) k) ≡ ids
lookup-alone k [] = refl
lookup-alone k (i ∷ is) = rw ((==_iff k k).1 refl) refl

lookup-other :
    (b : Bool) (j k : ℕ) (ids : List ℕ)
    → j ≢ k
    → lookup_ids (if b then entry_unless_empty j ids else []) k ≡ none
lookup-other true j k [] ne = refl
lookup-other true j k (i ∷ is) ne = elim (Bool-cases (j == k)) [
  | inl t ↦ absurd (ne ((==_iff j k).0 t))
  | inr e ↦ rw e refl
]
lookup-other false j k ids ne = refl

module _ {F : Type 0} ⦃f : Floats F⦄ (g : PartitionGrid F) (staged : List (Vec3 F)) (halo : F) where
  abbrev exported : List ℕ → ℕ → ℕ → List ℕ
  exported owned q p = ids_or_none (lookup_ids (ghost_export_indices g staged owned q halo) p)

  abbrev pub near_left : ℕ → ℕ → Bool
  near_left q i = f.le (x_of staged i) (f.add (edge g q) halo)

  abbrev near_right : ℕ → ℕ → Bool
  near_right q i = f.le (f.sub (edge g (suc q)) halo) (x_of staged i)

  exported-left :
      (owned : List ℕ) (p : ℕ) → exported owned (suc p) p ≡ select (near_left (suc p)) owned
  unfolding ghost_export_indices
  exported-left [] p = refl
  exported-left (i ∷ is) p = lookup-here p (select (near_left (suc p)) (i ∷ is)) _ (
      lookup-other (ltb (suc (suc p)) g.num_partitions) (suc (suc p)) p _
        (λ e. absurd (omega arith)))

  exported-right :
      (owned : List ℕ) (q : ℕ)
      → suc q < g.num_partitions
      → exported owned q (suc q) ≡ select (near_right q) owned
  unfolding ghost_export_indices
  exported-right [] q h = refl
  exported-right (i ∷ is) zero h =
      rw (lt→ltb 1 g.num_partitions h) (lookup-alone 1 (select (near_right 0) (i ∷ is)))
  exported-right (i ∷ is) (suc q) h = rw (lt→ltb (suc (suc q)) g.num_partitions h) (
      ap ids_or_none (lookup-skip q (suc (suc q)) _ _ (λ e. absurd (omega arith)))
      ∙ lookup-alone (suc (suc q)) (select (near_right (suc q)) (i ∷ is)))

  In-neighbors_cases :
      (p q : ℕ) → In q (neighbors g p) → (suc q ≡ p) ⊎ ((q ≡ suc p) × (suc p < g.num_partitions))
  unfolding neighbors
  In-neighbors_cases zero q m = ground arith
  In-neighbors_cases (suc p) q m = ground arith

  In-neighbors_right : (p : ℕ) → suc p < g.num_partitions → In (suc p) (neighbors g p)
  unfolding neighbors
  In-neighbors_right zero h = ground arith
  In-neighbors_right (suc p) h = ground arith

  Distinct-neighbors : (p : ℕ) → Distinct (neighbors g p)
  unfolding neighbors
  Distinct-neighbors zero = ground arith
  Distinct-neighbors (suc p) = ground arith

  module _ (owners : List ℕ) (active_mask : List Bool) (n : ℕ) where
    abbrev owned : ℕ → List ℕ
    owned p = active_owned owners active_mask n p

    -- A drone of the next partition, near the edge that the two partitions share.
    pub record IsFromRight (p i : ℕ) : Type 0 where
      pub inside : suc p < g.num_partitions
      pub right_owned : In i (owned (suc p))
      pub near_edge : near_left (suc p) i ≡ true

    pub In-ghost_ids_right : (p i : ℕ) → IsFromRight p i → In i (ghost_ids g staged owned halo p)
    unfolding ghost_ids
    In-ghost_ids_right p i h =
        In-flat_map (λ q. exported (owned q) q p) (suc p) i (neighbors g p)
          (In-neighbors_right p h.inside)
          (rw (exported-left (owned (suc p)) p)
            (In-select (near_left (suc p)) i (owned (suc p)) h.right_owned h.near_edge))

    -- A ghost stems from the next partition, near the edge, or from the one before.
    pub In-ghost_ids_cases :
        (p i : ℕ)
        → p < g.num_partitions
        → In i (ghost_ids g staged owned halo p)
        → IsFromRight p i ⊎ (suc (get_or owners i 0) ≡ p)
    unfolding ghost_ids
    In-ghost_ids_cases p i hp m =
        let (q, mq, mi) = In-flat_map_cases (λ q. exported (owned q) q p) i (neighbors g p) m in
        elim (In-neighbors_cases p q mq) [
          | inl left ↦
              let at_edge : In i (exported (owned q) q (suc q)) =
                subst (λ k. In i (exported (owned q) q k)) (sym left) mi in
              let kept : In i (select (near_right q) (owned q)) =
                subst (In i) (exported-right (owned q) q (omega arith)) at_edge in
              let o =
                ((active_owned_iff owners active_mask n q i).0
                  (In-select_cases (near_right q) i (owned q) kept).0).owner in
              inr (omega arith)
          | inr (e, inside) ↦
              let from : In i (exported (owned (suc p)) (suc p) p) =
                subst (λ k. In i (exported (owned k) k p)) e mi in
              let kept : In i (select (near_left (suc p)) (owned (suc p))) =
                subst (In i) (exported-left (owned (suc p)) p) from in
              let (m', h) = In-select_cases (near_left (suc p)) i (owned (suc p)) kept in
              inl (record { inside = inside; right_owned = m'; near_edge = h })
        ]

    exported-owner :
        (p q i : ℕ)
        → p < g.num_partitions
        → In q (neighbors g p)
        → In i (exported (owned q) q p)
        → get_or owners i 0 ≡ q
    exported-owner p q i hp mq mi = elim (In-neighbors_cases p q mq) [
      | inl left ↦
          let at_edge : In i (exported (owned q) q (suc q)) =
            subst (λ k. In i (exported (owned q) q k)) (sym left) mi in
          let kept : In i (select (near_right q) (owned q)) =
            subst (In i) (exported-right (owned q) q (omega arith)) at_edge in
          ((active_owned_iff owners active_mask n q i).0
            (In-select_cases (near_right q) i (owned q) kept).0).owner
      | inr (e, inside) ↦
          let from : In i (exported (owned (suc p)) (suc p) p) =
            subst (λ k. In i (exported (owned k) k p)) e mi in
          let kept : In i (select (near_left (suc p)) (owned (suc p))) =
            subst (In i) (exported-left (owned (suc p)) p) from in
          ((active_owned_iff owners active_mask n (suc p) i).0
            (In-select_cases (near_left (suc p)) i (owned (suc p)) kept).0).owner
          ∙ sym e
    ]

    exported-Distinct :
        (p q : ℕ) → p < g.num_partitions → In q (neighbors g p) → Distinct (exported (owned q) q p)
    exported-Distinct p q hp mq = elim (In-neighbors_cases p q mq) [
      | inl left ↦
          subst (λ k. Distinct (exported (owned q) q k)) left
            (rw (exported-right (owned q) q (omega arith)) (
              Distinct-select (near_right q) (owned q)
                (active_owned-Distinct owners active_mask n q)))
      | inr (e, inside) ↦
          subst (λ k. Distinct (exported (owned k) k p)) (sym e)
            (rw (exported-left (owned (suc p)) p) (
              Distinct-select (near_left (suc p)) (owned (suc p))
                (active_owned-Distinct owners active_mask n (suc p))))
    ]

    -- A partition is sent no drone twice, and none of its own as a ghost.
    pub sent-Distinct :
        (p : ℕ) → p < g.num_partitions → Distinct (owned p ++ ghost_ids g staged owned halo p)
    unfolding ghost_ids
    sent-Distinct p hp =
        Distinct-append (owned p) (ghost_ids g staged owned halo p)
          (active_owned-Distinct owners active_mask n p)
          (Distinct-flat_map (λ q. exported (owned q) q p) (neighbors g p) (Distinct-neighbors p)
            (λ q mq. exported-Distinct p q hp mq)
            (λ q q' i mq mq' mi mi'.
              sym (exported-owner p q i hp mq mi) ∙ exported-owner p q' i hp mq' mi'))
          (λ i l r.
            let o = ((active_owned_iff owners active_mask n p i).0 l).owner in
            elim (In-ghost_ids_cases p i hp r) [
              | inl h ↦
                  let o' =
                    ((active_owned_iff owners active_mask n (suc p) i).0 h.right_owned).owner in
                  absurd (omega arith)
              | inr before ↦ absurd (omega arith)
            ])
