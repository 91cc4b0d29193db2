-- ===== src/SpatialHash/Blocks.antt =====
-- The vectorised product of all matched groups at once (`np.repeat`, `np.cumsum` and `np.arange`)
-- lists the rows of each block in turn.
use drone_swarm_simulator.Prelude.{
  ℕ, zero, suc, ◌+◌, ◌-◌, ◌<◌, List, [], ◌∷◌, ◌++◌, map, ◌≡◌, refl, ap, inl, inr, ◌∙◌, arith,
  length, get_or, replicate, count_from, range,
}
use drone_swarm_simulator.Prelude.Members.{
  In, Distinct, In-append_left, In-append_right, In-append_cases, In-map, In-map_cases,
  In-count_from, In-count_from_bounds, Distinct-append, Distinct-map, Distinct-count_from,
}
use mathlib.Core.Path.{ap₂}
use drone_swarm_simulator.Arrays.{sum, repeat_arange, exclusive_cumsum, zip_with}
use drone_swarm_simulator.SpatialHash.{block_rows}

-- Row `k` of block `i`, for every block from `i` on and every `k` below its size.
abbrev pub rows : ℕ → List ℕ → List (ℕ × ℕ)
rows i [] = []
rows i (c ∷ cs) = map (λ k. (i, k)) (range c) ++ rows (suc i) cs

count_from-add : (p m n : ℕ) → count_from p (m + n) ≡ count_from p m ++ count_from (p + m) n
count_from-add p zero n =
    ap₂ count_from (let e : p ≡ p + 0 = omega arith in e) (let e : 0 + n ≡ n = omega arith in e)
count_from-add p (suc m) n =
    ap (count_from p) (let e : suc m + n ≡ suc (m + n) = omega arith in e)
    ∙ ap (◌∷◌ p) (
        count_from-add (suc p) m n
        ∙ ap (λ q. count_from (suc p) m ++ count_from q n)
            (let e : suc p + m ≡ p + suc m = omega arith in e))

module _ (f : ℕ → ℕ → ℕ × ℕ) where
  -- One block: its rows are numbered from its start.
  block :
      (i p k c : ℕ) (ms ps : List ℕ)
      → ((l : ℕ) → f i (p + l) ≡ (i, l))
      → zip_with f (replicate c i ++ ms) (count_from (p + k) c ++ ps)
        ≡ map (λ l. (i, l)) (count_from k c) ++ zip_with f ms ps
  block i p k zero ms ps h = refl
  block i p k (suc c) ms ps h = ap₂ ◌∷◌ (h k) (
      ap (λ q. zip_with f (replicate c i ++ ms) (count_from q c ++ ps))
        (let e : suc (p + k) ≡ p + suc k = omega arith in e)
      ∙ block i p (suc k) c ms ps h)

all_blocks :
    (start : List ℕ) (i p : ℕ) (totals : List ℕ)
    → ((j : ℕ)
        → j < length totals
        → get_or start (i + j) 0 ≡ get_or (exclusive_cumsum p totals) j 0)
    → zip_with
        (λ m q. (m, q - get_or start m 0))
        (repeat_arange i totals)
        (count_from p (sum totals))
      ≡ rows i totals
all_blocks start i p [] h = refl
all_blocks start i p (c ∷ cs) h =
    let f = λ (m q : ℕ). let r : ℕ × ℕ = (m, q - get_or start m 0) in r in
    let at : get_or start i 0 ≡ p =
      ap (λ (j : ℕ). get_or start j 0) (let e : i ≡ i + 0 = omega arith in e) ∙ h 0 (omega arith) in
    ap (zip_with f (replicate c i ++ repeat_arange (suc i) cs)) (count_from-add p c (sum cs))
    ∙ ap
        (λ q.
          zip_with f (replicate c i ++ repeat_arange (suc i) cs)
            (count_from q c ++ count_from (p + c) (sum cs)))
        (let e : p ≡ p + 0 = omega arith in e)
    ∙ block f i p 0 c (repeat_arange (suc i) cs) (count_from (p + c) (sum cs))
        (λ l. ap (λ (q : ℕ). let r : ℕ × ℕ = (i, q) in r) (omega arith))
    ∙ ap (λ r. map (λ k. (i, k)) (range c) ++ r)
        (all_blocks start (suc i) (p + c) cs λ j lt.
          ap (λ (t : ℕ). get_or start t 0) (let e : suc i + j ≡ i + suc j = omega arith in e)
          ∙ h (suc j) (omega arith))

-- The rows computed at once by repeat and cumulative sums are the rows of the blocks, one block
-- after the other: for each block its number with 0, 1, ... up to its size.
pub block_rows-eq-rows : (totals : List ℕ) → block_rows totals ≡ rows 0 totals
unfolding block_rows
block_rows-eq-rows totals = all_blocks (exclusive_cumsum 0 totals) 0 0 totals λ j lt.
    ap (λ (t : ℕ). get_or (exclusive_cumsum 0 totals) t 0) (let e : 0 + j ≡ j = omega arith in e)

pub In-rows :
    (i j k : ℕ) (totals : List ℕ)
    → j < length totals
    → k < get_or totals j 0
    → In (i + j, k) (rows i totals)
In-rows i j k [] lt h = elim lt [ ]
In-rows i zero k (c ∷ cs) lt h =
    let e : i + 0 ≡ i = omega arith in
    rw e (
      In-append_left (i, k) (map (λ l. (i, l)) (range c)) (rows (suc i) cs)
        (In-map {B = ℕ × ℕ} (λ l. (i, l)) k (range c)
          (In-count_from 0 c k (omega arith) (omega arith))))
In-rows i (suc j) k (c ∷ cs) lt h =
    In-append_right (i + suc j, k) (map (λ l. (i, l)) (range c)) (rows (suc i) cs)
      (let e : i + suc j ≡ suc i + j = omega arith in rw e (In-rows (suc i) j k cs (omega arith) h))

pub In-rows_bounds :
    (i m k : ℕ) (totals : List ℕ)
    → In (m, k) (rows i totals)
    → (j : ℕ) × (m ≡ i + j) × (j < length totals) × (k < get_or totals j 0)
In-rows_bounds i m k [] h = absurd h
In-rows_bounds i m k (c ∷ cs) h =
    elim (In-append_cases (m, k) (map (λ l. (i, l)) (range c)) (rows (suc i) cs) h) [
      | inl l ↦
          let (a, ma, e) = In-map_cases (λ l. (i, l)) (m, k) (range c) l in
          let bounds = In-count_from_bounds 0 c a ma in
          let em = ap (λ (q : ℕ × ℕ). q.0) e in
          let ek = ap (λ (q : ℕ × ℕ). q.1) e in (0, omega arith, omega arith, omega arith)
      | inr r ↦
          let (j, e, lt, b) = In-rows_bounds (suc i) m k cs r in
          (suc j, omega arith, omega arith, b)
    ]

pub Distinct-rows : (i : ℕ) (totals : List ℕ) → Distinct (rows i totals)
Distinct-rows i [] = tt
Distinct-rows i (c ∷ cs) =
    Distinct-append (map (λ l. (i, l)) (range c)) (rows (suc i) cs)
      (Distinct-map (λ l. (i, l)) (range c) (λ a b ma mb e. ap (λ (q : ℕ × ℕ). q.1) e)
        (Distinct-count_from 0 c))
      (Distinct-rows (suc i) cs)
      λ q l r.
        let (a, ma, e) = In-map_cases (λ l. (i, l)) q (range c) l in
        let (j, e', lt, b) = In-rows_bounds (suc i) q.0 q.1 cs r in
        let em = ap (λ (p : ℕ × ℕ). p.0) e in omega arith
