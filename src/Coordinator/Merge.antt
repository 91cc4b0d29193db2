-- ===== src/Coordinator/Merge.antt =====
-- The merged detection of a tick: which pairs it finds, and that it finds none twice.
use drone_swarm_simulator.Prelude.{
  ℕ, suc, ◌≤◌, ◌<◌, min, Bool, true, false, List, [], ◌∷◌, ◌++◌, map, ◌≡◌, ◌⊎◌, ◌↔◌, refl, sym, ap,
  subst, ◌∙◌, inl, inr, arith, length, get_or, select, range, flat_map, ==_iff,
}
use mathlib.Core.Path.{ap₂}
use drone_swarm_simulator.Prelude.Members.{
  In, Distinct, In-select, In-select_cases, Distinct-select, In-flat_map, In-flat_map_cases,
  In-count_from, In-count_from_bounds, Distinct-count_from, In-append_cases, In-append_left,
  In-append_right, Distinct-flat_map,
}
use drone_swarm_simulator.Numeric.{Floats, IsExact, ◌≼◌, Vec3}
use drone_swarm_simulator.Config.{SimulationConfig, IsValid}
use drone_swarm_simulator.Arrays.{Routines, IsDocumented}
use drone_swarm_simulator.Collisions.{pair_distance}
use drone_swarm_simulator.Partition.{PartitionGrid, edge, x_of}
use drone_swarm_simulator.Worker.Detection.{
  IsEvent, IsShort, reported_sound, reported_complete, reported-Distinct,
}
use drone_swarm_simulator.Worker.Report.{report_of}
use drone_swarm_simulator.Coordinator.{active_owned, ghost_ids, kept_by}
use drone_swarm_simulator.Coordinator.Ghosts.{
  IsOwned, active_owned_iff, IsFromRight, In-ghost_ids_right, In-ghost_ids_cases, sent-Distinct,
}

pub flat_map-map :
    {A B C : Type 0} (h : B → List C) (k : A → B) (xs : List A)
    → flat_map h (map k xs) ≡ flat_map (λ x. h (k x)) xs
flat_map-map h k [] = refl
flat_map-map h k (x ∷ xs) = ap (λ t. h (k x) ++ t) (flat_map-map h k xs)

pub flat_map-ap :
    {A B : Type 0} (h k : A → List B) (xs : List A)
    → ((x : A) → h x ≡ k x)
    → flat_map h xs ≡ flat_map k xs
flat_map-ap h k [] e = refl
flat_map-ap h k (x ∷ xs) e = ap₂ (λ s t. s ++ t) (e x) (flat_map-ap h k xs e)

module _ {F : Type 0} ⦃f : Floats F⦄ (g : PartitionGrid F) (owners : List ℕ)
    (active_mask : List Bool) (staged : List (Vec3 F)) (halo : F) where
  abbrev n : ℕ
  n = length staged

  abbrev owned : ℕ → List ℕ
  owned p = active_owned owners active_mask n p

  abbrev sent : ℕ → List ℕ
  sent p = owned p ++ ghost_ids g staged owned halo p

  -- The partition `p` sees the drone `i`, which `p` or the next partition owns: in the second case
  -- the drone has to be left of the shared edge or within the halo distance of it.
  abbrev pub IsSeen : ℕ → ℕ → Type 0
  IsSeen p i =
      (get_or owners i 0 ≡ p)
      ⊎ ((get_or owners i 0 ≡ suc p) × (x_of staged i ≼ f.add (edge g (suc p)) halo))

  -- A pair that the merged result lists: two active drones whose distance passes the test, and
  -- which the partition with the smaller number of their owners both sees.
  pub record IsMerged (test : F → Bool) (i j : ℕ) : Type 0 where
    pub ordered : i < j
    pub second_known : j < n
    pub first_active : get_or active_mask i false ≡ true
    pub second_active : get_or active_mask j false ≡ true
    pub close : test (pair_distance staged (i, j)) ≡ true
    pub first_seen : IsSeen (min (get_or owners i 0) (get_or owners j 0)) i
    pub second_seen : IsSeen (min (get_or owners i 0) (get_or owners j 0)) j

  -- The partition that keeps a pair is one of the partitions.
  abbrev pub AreInRange : Type 0
  AreInRange = (i : ℕ) → i < n → get_or owners i 0 < g.num_partitions

  sent_cases :
      (p i : ℕ)
      → p < g.num_partitions
      → In i (sent p)
      → IsOwned owners active_mask n p i
        ⊎ IsFromRight g staged halo owners active_mask n p i
        ⊎ (suc (get_or owners i 0) ≡ p)
  sent_cases p i hp m = elim (In-append_cases i (owned p) (ghost_ids g staged owned halo p) m) [
    | inl l ↦ inl ((active_owned_iff owners active_mask n p i).0 l)
    | inr r ↦ inr (In-ghost_ids_cases g staged halo owners active_mask n p i hp r)
  ]

  -- A drone that the partition was sent, with an owner that is not before it.
  record IsSent (p i : ℕ) : Type 0 where
    known : i < n
    active : get_or active_mask i false ≡ true
    seen : IsSeen p i

  sent-IsSent :
      (p i : ℕ) → p < g.num_partitions → p ≤ get_or owners i 0 → In i (sent p) → IsSent p i
  sent-IsSent p i hp lo m = elim (sent_cases p i hp m) [
    | inl o ↦ record { known = o.known; active = o.active; seen = inl o.owner }
    | inr (inl h) ↦
        let o = (active_owned_iff owners active_mask n (suc p) i).0 h.right_owned in
        record { known = o.known; active = o.active; seen = inr (o.owner, h.near_edge) }
    | inr (inr before) ↦ absurd (omega arith)
  ]

  In-sent : (p i : ℕ) → AreInRange → IsSent p i → In i (sent p)
  In-sent p i range_ h = elim h.seen [
    | inl own ↦ In-append_left i (owned p) (ghost_ids g staged owned halo p) (
        (active_owned_iff owners active_mask n p i).1
          (record { known = h.known; owner = own; active = h.active }))
    | inr (own, near) ↦ In-append_right i (owned p) (ghost_ids g staged owned halo p) (
        In-ghost_ids_right g staged halo owners active_mask n p i (record {
          inside = (let b = range_ i h.known in omega arith);
          right_owned =
              (active_owned_iff owners active_mask n (suc p) i).1
                (record { known = h.known; owner = own; active = h.active });
          near_edge = near;
        }))
  ]

  module _ (laws : IsExact F) (np : Routines) (doc : IsDocumented np) (c : SimulationConfig F)
      (valid : IsValid c) (in_range : AreInRange) (test : F → Bool)
      (short : IsShort test c.near_miss_radius) where
    abbrev rep : ℕ → List (ℕ × ℕ)
    rep p = report_of np c staged (sent p) (λ positions q. test (pair_distance positions q))

    abbrev kept : ℕ → List (ℕ × ℕ)
    kept p = select (kept_by owners p) (rep p)

    rep_iff :
        (p : ℕ)
        → p < g.num_partitions
        → (i j : ℕ) → In {A = ℕ × ℕ} (i, j) (rep p) ↔ IsEvent test staged (sent p) i j
    rep_iff p hp i j =
        let unique = sent-Distinct g staged halo owners active_mask n p hp in
        (
          reported_sound laws np doc c valid staged (sent p) unique test short i j,
          reported_complete laws np doc c valid staged (sent p) unique test short i j,
        )

    abbrev pub merged_pairs : List (ℕ × ℕ)
    merged_pairs = flat_map kept (range g.num_partitions)

    IsMerged-sound : (i j : ℕ) → In {A = ℕ × ℕ} (i, j) merged_pairs → IsMerged test i j
    IsMerged-sound i j m =
        let (p, mp, mk) = In-flat_map_cases kept (i, j) (range g.num_partitions) m in
        let bounds = In-count_from_bounds 0 g.num_partitions p mp in
        let hp : p < g.num_partitions = omega arith in
        let (mr, h) = In-select_cases (kept_by owners p) (i, j) (rep p) mk in
        let e : min (get_or owners i 0) (get_or owners j 0) ≡ p =
          (==_iff (min (get_or owners i 0) (get_or owners j 0)) p).0 h in
        let ev = (rep_iff p hp i j).0 mr in
        let si = sent-IsSent p i hp (omega arith) ev.first_known in
        let sj = sent-IsSent p j hp (omega arith) ev.second_known in
        record {
          ordered = ev.ordered;
          second_known = sj.known;
          first_active = si.active;
          second_active = sj.active;
          close = ev.close;
          first_seen = subst (λ k. IsSeen k i) (sym e) si.seen;
          second_seen = subst (λ k. IsSeen k j) (sym e) sj.seen;
        }

    IsMerged-complete : (i j : ℕ) → IsMerged test i j → In {A = ℕ × ℕ} (i, j) merged_pairs
    IsMerged-complete i j h =
        let p = min (get_or owners i 0) (get_or owners j 0) in
        let lt = h.ordered in
        let hj = h.second_known in
        let hi : i < n = omega arith in
        let bi = in_range i hi in
        let hp : p < g.num_partitions = omega arith in
        In-flat_map kept p (i, j) (range g.num_partitions)
          (In-count_from 0 g.num_partitions p (omega arith) (omega arith))
          (In-select (kept_by owners p) (i, j) (rep p)
            ((rep_iff p hp i j).1 (record {
              ordered = lt;
              first_known =
                  In-sent p i in_range
                    (record { known = hi; active = h.first_active; seen = h.first_seen });
              second_known =
                  In-sent p j in_range
                    (record { known = hj; active = h.second_active; seen = h.second_seen });
              close = h.close;
            }))
            ((==_iff p p).1 refl))

    pub IsMerged-iff : (i j : ℕ) → In {A = ℕ × ℕ} (i, j) merged_pairs ↔ IsMerged test i j
    IsMerged-iff i j = (IsMerged-sound i j, IsMerged-complete i j)

    kept-partition :
        (p : ℕ) (q : ℕ × ℕ) → In q (kept p) → min (get_or owners q.0 0) (get_or owners q.1 0) ≡ p
    kept-partition p q m =
        (==_iff (min (get_or owners q.0 0) (get_or owners q.1 0)) p).0
          (In-select_cases (kept_by owners p) q (rep p) m).1

    pub merged-Distinct : Distinct merged_pairs
    merged-Distinct =
        Distinct-flat_map kept (range g.num_partitions) (Distinct-count_from 0 g.num_partitions)
          (λ p mp.
            let bounds = In-count_from_bounds 0 g.num_partitions p mp in
            Distinct-select (kept_by owners p) (rep p) (
              reported-Distinct laws np doc c valid staged (sent p)
                (sent-Distinct g staged halo owners active_mask n p (omega arith)) test short))
          (λ p q t mp mq ht hq. sym (kept-partition p t ht) ∙ kept-partition q t hq)
