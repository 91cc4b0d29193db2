-- ===== src/Collisions/Pairs.antt =====
-- The pairs of the brute-force detector are the pairs of active drones, each once.
use drone_swarm_simulator.Prelude.{
  ℕ, zero, suc, ◌<◌, Bool, true, List, [], map, ◌≡◌, refl, sym, ap, subst, ◌↔◌, arith, length,
  get_or, select,
}
use mathlib.Core.Path.{ap₂}
use native.Mathlib.Decide.{dec_lt}
use drone_swarm_simulator.Prelude.Members.{
  In, Distinct, In-select, In-select_cases, In-map, In-map_cases, In-index, In-get_or, Distinct-map,
  Distinct-index,
}
use drone_swarm_simulator.Arrays.{triu_indices}
use drone_swarm_simulator.SpatialHash.Triu.{
  In-triu_indices, In-triu_indices_bounds, Distinct-triu_indices,
}
use drone_swarm_simulator.Collisions.{id_pair}

-- Two different active drones, the smaller id first.
pub record IsActivePair (active : List ℕ) (i j : ℕ) : Type 0 where
  pub first_active : In i active
  pub second_active : In j active
  pub ordered : i < j

-- The pairs of the brute-force detector are all pairs of active drones.
pub brute_pairs_iff :
    (active : List ℕ)
    → ((a b : ℕ) → a < b → b < length active → get_or active a 0 < get_or active b 0)
    → (i j : ℕ)
    → In {A = ℕ × ℕ} (i, j) (map (id_pair active) (triu_indices (length active)))
      ↔ IsActivePair active i j
brute_pairs_iff active ascends i j = (
  λ m.
      let (q, mq, e) = In-map_cases (id_pair active) (i, j) (triu_indices (length active)) m in
      let (lt, hi) = In-triu_indices_bounds (length active) q.0 q.1 mq in
      let ei = ap (λ (t : ℕ × ℕ). t.0) e in
      let ej = ap (λ (t : ℕ × ℕ). t.1) e in
      record {
        first_active = subst (λ k. In k active) (sym ei) (In-get_or active q.0 0 (omega arith));
        second_active = subst (λ k. In k active) (sym ej) (In-get_or active q.1 0 hi);
        ordered = let up = ascends q.0 q.1 lt hi in omega arith;
      },
  λ h.
      let (a, ha, ea) = In-index i 0 active h.first_active in
      let (b, hb, eb) = In-index j 0 active h.second_active in
      let lt = h.ordered in
      let ab : a < b = elim (dec_lt a b) [
        | yes below ↦ below
        | no above ↦ elim (dec_lt b a) [
          | yes back ↦ (let up = ascends b a back ha in absurd (omega arith))
          | no same ↦
              (let e : get_or active a 0 ≡ get_or active b 0 =
                  ap (λ (k : ℕ). get_or active k 0) (omega arith) in
                absurd (omega arith))
        ]
      ] in
      subst (λ q. In q (map (id_pair active) (triu_indices (length active))))
        (ap₂ (λ (x y : ℕ). let q : ℕ × ℕ = (x, y) in q) ea eb)
        (In-map (id_pair active) (a, b) (triu_indices (length active))
          (In-triu_indices (length active) a b ab hb)),
)

pub brute_pairs-Distinct :
    (active : List ℕ)
    → Distinct active
    → Distinct (map (id_pair active) (triu_indices (length active)))
brute_pairs-Distinct active unique =
    Distinct-map (id_pair active) (triu_indices (length active))
      (λ p q mp mq e.
        let (lp, hp) = In-triu_indices_bounds (length active) p.0 p.1 mp in
        let (lq, hq) = In-triu_indices_bounds (length active) q.0 q.1 mq in
        ap₂ (λ (x y : ℕ). let r : ℕ × ℕ = (x, y) in r)
          (Distinct-index active 0 p.0 q.0 unique (omega arith) (omega arith)
            (ap (λ (t : ℕ × ℕ). t.0) e))
          (Distinct-index active 0 p.1 q.1 unique hp hq (ap (λ (t : ℕ × ℕ). t.1) e)))
      (Distinct-triu_indices (length active))

pub select_iff :
    (p : ℕ × ℕ → Bool) (xs ys : List (ℕ × ℕ))
    → ((q : ℕ × ℕ) → p q ≡ true → In q xs ↔ In q ys)
    → (q : ℕ × ℕ) → In q (select p xs) ↔ In q (select p ys)
select_iff p xs ys same q = (
  λ m. let (m', h) = In-select_cases p q xs m in In-select p q ys ((same q h).0 m') h,
  λ m. let (m', h) = In-select_cases p q ys m in In-select p q xs ((same q h).1 m') h,
)

pub no_pairs_below : (n : ℕ) → n < 2 → triu_indices n ≡ []
no_pairs_below zero h = refl
no_pairs_below (suc zero) h = refl
no_pairs_below (suc (suc n)) h = absurd (omega arith)
