-- ===== src/SpatialHash/Triu.antt =====
-- The pairs of `np.triu_indices(n, k=1)` are the pairs i < j < n, each once; slices read at a place.
use drone_swarm_simulator.Prelude.{
  ℕ, zero, suc, ◌+◌, ◌≤◌, ◌<◌, List, map, ◌≡◌, refl, ap, inl, inr, ◌∙◌, arith, length, get_or,
  count_from, get_or-map,
}
use native.Mathlib.Decide.{ℕ_discrete}
use drone_swarm_simulator.Prelude.Members.{
  In, Distinct, In-append_left, In-append_right, In-append_cases, In-map, In-map_cases,
  In-count_from, In-count_from_bounds, Distinct-append, Distinct-map, Distinct-count_from,
}
use drone_swarm_simulator.Arrays.{slice, triu_from, triu_indices}

pub length-count_from : (i n : ℕ) → length (count_from i n) ≡ n
length-count_from i zero = refl
length-count_from i (suc n) = ap suc (length-count_from (suc i) n)

pub get_or-count_from : (i n k : ℕ) → k < n → get_or (count_from i n) k 0 ≡ i + k
get_or-count_from i zero k h = elim h [ ]
get_or-count_from i (suc n) zero h = omega arith
get_or-count_from i (suc n) (suc k) h = omega (arith, get_or-count_from (suc i) n k (omega arith))

pub get_or-slice :
    (xs : List ℕ) (start n k : ℕ) → k < n → get_or (slice xs start n) k 0 ≡ get_or xs (start + k) 0
get_or-slice xs start n k h =
    get_or-map (λ i. get_or xs i 0) (count_from start n) k 0 0
      (omega (arith, length-count_from start n))
    ∙ ap (λ i. get_or xs i 0) (get_or-count_from start n k h)

abbrev row : ℕ → ℕ → List (ℕ × ℕ)
row i n = map (λ j. (i, j)) (count_from (suc i) n)

In-triu_from : (p n i j : ℕ) → p ≤ i → i < j → j < p + n → In {A = ℕ × ℕ} (i, j) (triu_from p n)
In-triu_from p zero i j lo lt hi = absurd (omega arith)
In-triu_from p (suc n) i j lo lt hi = elim (ℕ_discrete i p) [
  | yes e ↦ rw e (
      In-append_left (p, j) (row p n) (triu_from (suc p) n)
        (In-map {B = ℕ × ℕ} (λ k. (p, k)) j (count_from (suc p) n)
          (In-count_from (suc p) n j (omega arith) (omega arith))))
  | no ne ↦
      In-append_right (i, j) (row p n) (triu_from (suc p) n)
        (In-triu_from (suc p) n i j (omega arith) lt (omega arith))
]

In-triu_from_bounds :
    (p n i j : ℕ) → In {A = ℕ × ℕ} (i, j) (triu_from p n) → (p ≤ i) × (i < j) × (j < p + n)
In-triu_from_bounds p zero i j m = absurd m
In-triu_from_bounds p (suc n) i j m =
    elim (In-append_cases (i, j) (row p n) (triu_from (suc p) n) m) [
      | inl l ↦
          let (k, mk, e) = In-map_cases (λ q. (p, q)) (i, j) (count_from (suc p) n) l in
          let bounds = In-count_from_bounds (suc p) n k mk in
          let ei = ap (λ (q : ℕ × ℕ). q.0) e in let ej = ap (λ (q : ℕ × ℕ). q.1) e in omega arith
      | inr r ↦ omega (arith, In-triu_from_bounds (suc p) n i j r)
    ]

Distinct-triu_from : (p n : ℕ) → Distinct (triu_from p n)
Distinct-triu_from p zero = tt
Distinct-triu_from p (suc n) =
    Distinct-append (row p n) (triu_from (suc p) n)
      (Distinct-map (λ q. (p, q)) (count_from (suc p) n) (λ a b ma mb e. ap (λ (q : ℕ × ℕ). q.1) e)
        (Distinct-count_from (suc p) n))
      (Distinct-triu_from (suc p) n)
      λ q l r.
        let (k, mk, e) = In-map_cases (λ t. (p, t)) q (count_from (suc p) n) l in
        let bounds = In-triu_from_bounds (suc p) n q.0 q.1 r in
        let ei = ap (λ (t : ℕ × ℕ). t.0) e in omega arith

pub In-triu_indices : (n i j : ℕ) → i < j → j < n → In {A = ℕ × ℕ} (i, j) (triu_indices n)
In-triu_indices n i j lt hi = In-triu_from 0 n i j (omega arith) lt (omega arith)

pub In-triu_indices_bounds :
    (n i j : ℕ) → In {A = ℕ × ℕ} (i, j) (triu_indices n) → (i < j) × (j < n)
In-triu_indices_bounds n i j m = omega (arith, In-triu_from_bounds 0 n i j m)

pub Distinct-triu_indices : (n : ℕ) → Distinct (triu_indices n)
Distinct-triu_indices n = Distinct-triu_from 0 n
