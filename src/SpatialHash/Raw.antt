-- ===== src/SpatialHash/Raw.antt =====
-- The pairs before `candidate_pairs` orders them: which drones of which groups they join.
use drone_swarm_simulator.Prelude.{
  ℕ, zero, suc, ◌+◌, ◌*◌, ◌/◌, ◌%◌, ◌<◌, Option, none, some, List, map, ◌≡◌, sym, ap, inl, inr, ◌∙◌,
  arith, length, get_or, length-map, get_or-map, range, select, leb, le→leb, subst,
}
use native.Mathlib.Nat.{div-lt_iff_lt-mul, mod-lt}
use mathlib.Core.Path.{ap₂}
use drone_swarm_simulator.Prelude.Members.{
  In, In-map, In-map_cases, In-flat_map, In-flat_map_cases, In-select, In-select_cases,
  In-count_from, In-count_from_bounds, In-index, In-get_or,
}
use drone_swarm_simulator.Arrays.{slice, triu_indices, Routines}
use drone_swarm_simulator.SpatialHash.{
  Grid, Built, cell_pairs, within_pairs, neighbor, with_match, matches, block_sizes, block_pair,
  block_rows, cross_pairs,
}
use drone_swarm_simulator.SpatialHash.Offsets.{Offset}
use drone_swarm_simulator.SpatialHash.Triu.{get_or-slice, In-triu_indices, In-triu_indices_bounds}
use drone_swarm_simulator.SpatialHash.Blocks.{rows, block_rows-eq-rows, In-rows, In-rows_bounds}
use drone_swarm_simulator.SpatialHash.Structure.{drone_at, size_of}

-- Two drones of the group `s`, in the order of the group.
pub record Together (b : Built) (u v : ℕ) : Type 0 where
  pub s : ℕ
  pub k : ℕ
  pub l : ℕ
  pub s_in : s < length b.counts
  pub k_lt_l : k < l
  pub l_in : l < size_of b s
  pub first : u ≡ drone_at b s k
  pub second : v ≡ drone_at b s l

-- A drone of the group `s` and one of the group `t` at the offset `d` from it.
pub record Across {F : Type 0} (np : Routines) (g : Grid F) (b : Built) (d : Offset) (u v : ℕ)
    : Type 0 where
  pub s : ℕ
  pub t : ℕ
  pub k : ℕ
  pub l : ℕ
  pub s_in : s < length b.unique_keys
  pub matched : neighbor np g b d s ≡ some t
  pub k_in : k < size_of b s
  pub l_in : l < size_of b t
  pub first : u ≡ drone_at b s k
  pub second : v ≡ drone_at b t l

module _ (b : Built) where
  abbrev cell_pair : ℕ → ℕ × ℕ → ℕ × ℕ
  cell_pair s (i, j) =
      let drones = slice b.sorted_drones (get_or b.group_start s 0) (size_of b s) in
      (get_or drones i 0, get_or drones j 0)

  pub In-within_pairs : (u v : ℕ) → Together b u v → In {A = ℕ × ℕ} (u, v) (within_pairs b)
  In-within_pairs u v h =
      let k_lt : h.k < size_of b h.s = (let a = h.k_lt_l in let c = h.l_in in omega arith) in
      let slot = get_or-slice b.sorted_drones (get_or b.group_start h.s 0) (size_of b h.s) in
      let same : cell_pair h.s (h.k, h.l) ≡ (u, v) =
        ap₂ (λ (x y : ℕ). let q : ℕ × ℕ = (x, y) in q) (slot h.k k_lt ∙ sym h.first)
          (slot h.l h.l_in ∙ sym h.second) in
      In-flat_map (cell_pairs b) h.s (u, v)
        (select (λ ci. leb 2 (get_or b.counts ci 0)) (range (length b.counts)))
        (In-select (λ ci. leb 2 (get_or b.counts ci 0)) h.s (range (length b.counts))
          (In-count_from 0 (length b.counts) h.s (omega arith) (let a = h.s_in in omega arith))
          (le→leb 2 (size_of b h.s) (let a = h.k_lt_l in let c = h.l_in in omega arith)))
        (subst (λ q. In q (cell_pairs b h.s)) same
          (In-map (cell_pair h.s) (h.k, h.l) (triu_indices (size_of b h.s))
            (In-triu_indices (size_of b h.s) h.k h.l h.k_lt_l h.l_in)))

  unfoldable pub Together-cell_pairs :
      (s u v : ℕ) → s < length b.counts → In {A = ℕ × ℕ} (u, v) (cell_pairs b s) → Together b u v
  Together-cell_pairs s u v hs m =
      let (q, mq, e) = In-map_cases (cell_pair s) (u, v) (triu_indices (size_of b s)) m in
      let (lt, hi) = In-triu_indices_bounds (size_of b s) q.0 q.1 mq in
      let slot = get_or-slice b.sorted_drones (get_or b.group_start s 0) (size_of b s) in
      record {
        s = s;
        k = q.0;
        l = q.1;
        s_in = hs;
        k_lt_l = lt;
        l_in = hi;
        first = ap (λ (p : ℕ × ℕ). p.0) e ∙ slot q.0 (omega arith);
        second = ap (λ (p : ℕ × ℕ). p.1) e ∙ slot q.1 hi;
      }

  pub within_pairs-Together : (u v : ℕ) → In {A = ℕ × ℕ} (u, v) (within_pairs b) → Together b u v
  within_pairs-Together u v m =
      let (s, ms, h) =
        In-flat_map_cases (cell_pairs b) (u, v)
          (select (λ ci. leb 2 (get_or b.counts ci 0)) (range (length b.counts))) m in
      let (mr, _) =
        In-select_cases (λ ci. leb 2 (get_or b.counts ci 0)) s (range (length b.counts)) ms in
      let bounds = In-count_from_bounds 0 (length b.counts) s mr in
      Together-cell_pairs s u v (omega arith) h

with_match-In : (s t : ℕ) (o : Option ℕ) → o ≡ some t → In {A = ℕ × ℕ} (s, t) (with_match s o)
with_match-In s t none e = absurd (cc e)
with_match-In s t (some t') e = inl (ap (λ (x : ℕ). let q : ℕ × ℕ = (s, x) in q) (cc e))

pub with_match-cases :
    (s s' t : ℕ) (o : Option ℕ) → In {A = ℕ × ℕ} (s', t) (with_match s o) → (s' ≡ s) × (o ≡ some t)
with_match-cases s s' t none m = absurd m
with_match-cases s s' t (some t') (inl e) =
    (ap (λ (q : ℕ × ℕ). q.0) e, ap some (sym (ap (λ (q : ℕ × ℕ). q.1) e)))
with_match-cases s s' t (some t') (inr m) = absurd m

block_index : (k l m n : ℕ) → k < m → l < n → k * n + l < m * n
block_index k l m n hk hl = grind arith

block_div : (k l n : ℕ) → l < n → (k * n + l) / n ≡ k
block_div k l n h = grind arith

block_mod : (k l n : ℕ) → l < n → (k * n + l) % n ≡ l
block_mod k l n h = grind arith

positive_of_product : (k m n : ℕ) → k < m * n → 0 < n
positive_of_product k m zero h = absurd (omega arith)
positive_of_product k m (suc n) h = omega arith

module _ {F : Type 0} (np : Routines) (g : Grid F) (b : Built) (d : Offset) where
  abbrev pub step_match : ℕ → List (ℕ × ℕ)
  step_match s = with_match s (neighbor np g b d s)

  pub In-matches :
      (s t : ℕ)
      → s < length b.unique_keys
      → neighbor np g b d s ≡ some t
      → In {A = ℕ × ℕ} (s, t) (matches np g b d)
  In-matches s t hs e =
      In-flat_map step_match s (s, t) (range (length b.unique_keys))
        (In-count_from 0 (length b.unique_keys) s (omega arith) (omega arith))
        (with_match-In s t (neighbor np g b d s) e)

  pub matches_cases :
      (s t : ℕ)
      → In {A = ℕ × ℕ} (s, t) (matches np g b d)
      → (s < length b.unique_keys) × (neighbor np g b d s ≡ some t)
  matches_cases s t m =
      let (s', ms, h) = In-flat_map_cases step_match (s, t) (range (length b.unique_keys)) m in
      let bounds = In-count_from_bounds 0 (length b.unique_keys) s' ms in
      let (e, found) = with_match-cases s' s t (neighbor np g b d s') h in
      (omega arith, subst (λ x. neighbor np g b d x ≡ some t) (sym e) found)

  abbrev size_at : ℕ × ℕ → ℕ
  size_at (s, t) = size_of b s * size_of b t

  abbrev pub match_at : ℕ → ℕ × ℕ
  match_at m = get_or (matches np g b d) m (0, 0)

  pub size-of-block :
      (m : ℕ)
      → m < length (matches np g b d)
      → get_or (block_sizes b (matches np g b d)) m 0
        ≡ size_of b (match_at m).0 * size_of b (match_at m).1
  size-of-block m h = get_or-map size_at (matches np g b d) m (0, 0) 0 h

  -- The pair in this row of the block of two matched groups.
  abbrev pub pair_in : ℕ × ℕ → ℕ → ℕ × ℕ
  pair_in (s, t) row = (drone_at b s (row / size_of b t), drone_at b t (row % size_of b t))

  pair_in-row :
      (s t k l : ℕ)
      → l < size_of b t
      → pair_in (s, t) (k * size_of b t + l) ≡ (drone_at b s k, drone_at b t l)
  pair_in-row s t k l h =
      ap₂ (λ (x y : ℕ). let q : ℕ × ℕ = (drone_at b s x, drone_at b t y) in q)
        (block_div k l (size_of b t) h) (block_mod k l (size_of b t) h)

  pub In-cross_pairs :
      (u v : ℕ) → Across np g b d u v → In {A = ℕ × ℕ} (u, v) (cross_pairs np g b d)
  unfolding cross_pairs
  In-cross_pairs u v h =
      let ms = matches np g b d in
      let (m, hm, e) = In-index (h.s, h.t) (0, 0) ms (In-matches h.s h.t h.s_in h.matched) in
      let row = h.k * size_of b h.t + h.l in
      let block_size : get_or (block_sizes b ms) m 0 ≡ size_of b h.s * size_of b h.t =
        size-of-block m hm ∙ ap size_at e in
      let row_in : In {A = ℕ × ℕ} (m, row) (block_rows (block_sizes b ms)) = rw block_rows-eq-rows (
        let z : 0 + m ≡ m = omega arith in
        subst (λ x. In {A = ℕ × ℕ} (x, row) (rows 0 (block_sizes b ms))) z
          (In-rows 0 m row (block_sizes b ms) (omega (arith, length-map size_at ms)) (
            let lt = block_index h.k h.l (size_of b h.s) (size_of b h.t) h.k_in h.l_in in
            omega arith))) in
      let same : block_pair b ms (m, row) ≡ (u, v) =
        ap (λ q. pair_in q row) e
        ∙ pair_in-row h.s h.t h.k h.l h.l_in
        ∙ ap₂ (λ (x y : ℕ). let q : ℕ × ℕ = (x, y) in q) (sym h.first) (sym h.second) in
      subst (λ q. In q (map (block_pair b ms) (block_rows (block_sizes b ms)))) same
        (In-map (block_pair b ms) (m, row) (block_rows (block_sizes b ms)) row_in)

  -- What a row says of its match and of its places in the two groups.
  pub record IsRow (m k : ℕ) : Type 0 where
    pub m_in : m < length (matches np g b d)
    pub s_in : (match_at m).0 < length b.unique_keys
    pub matched : neighbor np g b d (match_at m).0 ≡ some (match_at m).1
    pub left_in : k / size_of b (match_at m).1 < size_of b (match_at m).0
    pub right_in : k % size_of b (match_at m).1 < size_of b (match_at m).1

  pub block_rows-IsRow :
      (m k : ℕ) → In {A = ℕ × ℕ} (m, k) (block_rows (block_sizes b (matches np g b d))) → IsRow m k
  block_rows-IsRow m k h =
      let ms = matches np g b d in
      let (j, em, hj, hk) =
        In-rows_bounds 0 m k (block_sizes b ms)
          (subst (In {A = ℕ × ℕ} (m, k)) (block_rows-eq-rows (block_sizes b ms)) h) in
      let hm : m < length ms = omega (arith, length-map size_at ms) in
      let (hs, found) = matches_cases (match_at m).0 (match_at m).1 (In-get_or ms m (0, 0) hm) in
      let same : get_or (block_sizes b ms) j 0 ≡ get_or (block_sizes b ms) m 0 =
        ap (λ (x : ℕ). get_or (block_sizes b ms) x 0) (omega arith) in
      let inside : k < size_of b (match_at m).0 * size_of b (match_at m).1 =
        omega (arith, size-of-block m hm) in
      let nonempty =
        positive_of_product k (size_of b (match_at m).0) (size_of b (match_at m).1) inside in
      record {
        m_in = hm;
        s_in = hs;
        matched = found;
        left_in = (div-lt_iff_lt-mul nonempty).1 inside;
        right_in = mod-lt k nonempty;
      }

  pub cross_pairs-Across :
      (u v : ℕ) → In {A = ℕ × ℕ} (u, v) (cross_pairs np g b d) → Across np g b d u v
  unfolding cross_pairs
  cross_pairs-Across u v m =
      let ms = matches np g b d in
      let (q, mq, e) = In-map_cases (block_pair b ms) (u, v) (block_rows (block_sizes b ms)) m in
      let a = block_rows-IsRow q.0 q.1 mq in
      let n = size_of b (match_at q.0).1 in
      record {
        s = (match_at q.0).0;
        t = (match_at q.0).1;
        k = q.1 / n;
        l = q.1 % n;
        s_in = a.s_in;
        matched = a.matched;
        k_in = a.left_in;
        l_in = a.right_in;
        first = ap (λ (p : ℕ × ℕ). p.0) e;
        second = ap (λ (p : ℕ × ℕ). p.1) e;
      }
