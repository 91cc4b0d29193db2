-- ===== src/SpatialHash/Exact.antt =====
-- Exactly which pairs `candidate_pairs` returns.
use drone_swarm_simulator.Prelude.{
  ℕ, ◌<◌, min, max, ◌≡◌, sym, ap, subst, inl, inr, ◌⊎◌, ◌∙◌, ◌↔◌, List, map, true, arith, length,
  get_or, flat_map,
}
use mathlib.Core.Path.{ap₂}
use native.Mathlib.Decide.{dec_lt}
use drone_swarm_simulator.Prelude.Members.{
  In, Distinct-index, In-append_left, In-append_right, In-map, In-map_cases, In-flat_map,
}
use drone_swarm_simulator.Arrays.{Routines, IsDocumented}
use drone_swarm_simulator.SpatialHash.{
  Grid, Built, Cell, linear_key, within_pairs, cross_pairs, canonical, candidate_pairs,
}
use drone_swarm_simulator.SpatialHash.Offsets.{Offset, forward_offsets}
use drone_swarm_simulator.SpatialHash.Groups.{IsAscending-Distinct}
use drone_swarm_simulator.SpatialHash.Structure.{IsIndex, drone_at, size_of}
use drone_swarm_simulator.SpatialHash.Cells.{Adjacent}
use drone_swarm_simulator.SpatialHash.Steps.{
  precedes, precedes_total, offset_between, offset_between-At, In-forward_offsets,
  In-forward_offsets-At, Adjacent-symm,
}
use drone_swarm_simulator.SpatialHash.Neighbors.{neighbor-hit}
use drone_swarm_simulator.SpatialHash.Raw.{Together, Across, In-within_pairs, In-cross_pairs}
use drone_swarm_simulator.SpatialHash.Candidates.{
  Placing, key_of, built, index, decoded, keys_fit, Across-At, Across-distinct, Together-facts,
  raw_pairs, raw_pairs_cases, IsCandidate,
}

pair_path : (a b c d : ℕ) → a ≡ c → b ≡ d → ◌≡◌ {A = ℕ × ℕ} (a, b) (c, d)
pair_path a b c d p q = ap₂ (λ (x y : ℕ). let r : ℕ × ℕ = (x, y) in r) p q

canonical_lt : (i j : ℕ) → i < j → canonical (i, j) ≡ (i, j)
canonical_lt i j h = pair_path (min i j) (max i j) i j (omega arith) (omega arith)

canonical_gt : (i j : ℕ) → i < j → canonical (j, i) ≡ (i, j)
canonical_gt i j h = pair_path (min j i) (max j i) i j (omega arith) (omega arith)

same-Adjacent : (c e : Cell) → c ≡ e → Adjacent c e
same-Adjacent c e q =
    let x = ap (λ (a : Cell). a.cx) q in
    let y = ap (λ (a : Cell). a.cy) q in let z = ap (λ (a : Cell). a.cz) q in omega arith

-- A pair of two different numbers, before and after it is ordered.
ordered_cases :
    (u v i j : ℕ)
    → (u ≡ v → ⊥)
    → ◌≡◌ {A = ℕ × ℕ} (i, j) (canonical (u, v))
    → (i < j) × (((i ≡ u) × (j ≡ v)) ⊎ ((i ≡ v) × (j ≡ u)))
ordered_cases u v i j ne e =
    let ei = ap (λ (q : ℕ × ℕ). q.0) e in
    let ej = ap (λ (q : ℕ × ℕ). q.1) e in
    elim (dec_lt u v) [
      | yes lt ↦ (omega arith, inl (omega arith))
      | no ge ↦ elim (dec_lt v u) [
        | yes gt ↦ (omega arith, inr (omega arith))
        | no le ↦ absurd (ne (omega arith))
      ]
    ]

module _ {F : Type 0} (np : Routines) (doc : IsDocumented np) (g : Grid F) (p : Placing g) where
  open p use {cell, inside, active}

  abbrev b : Built
  b = built np doc g p

  idx : IsIndex (key_of np doc g p) active b
  idx = index np doc g p

  abbrev raw : List (ℕ × ℕ)
  raw = raw_pairs np doc g p

  -- Two different active drones in neighbouring cells, in the order of the raw pair.
  raw_pairs-near :
      (u v : ℕ)
      → In {A = ℕ × ℕ} (u, v) raw
      → In u active × In v active × (u ≡ v → ⊥) × Adjacent (cell u) (cell v)
  raw_pairs-near u v m = elim (raw_pairs_cases np doc g p u v m) [
    | inl t ↦
        let (mu, mv, same, ne) = Together-facts np doc g p u v t in
        (mu, mv, ne, same-Adjacent (cell u) (cell v) same)
    | inr (d, md, a) ↦
        let (mu, mv, at) = Across-At np doc g p d u v a in
        let (_, near) = In-forward_offsets-At (cell u) (cell v) d md at in
        (mu, mv, Across-distinct np doc g p d u v md a, near)
  ]

  candidate_pairs_sound :
      (i j : ℕ) → In {A = ℕ × ℕ} (i, j) (candidate_pairs np g b) → IsCandidate np doc g p i j
  unfolding candidate_pairs
  candidate_pairs_sound i j m =
      let (q, mq, e) = In-map_cases canonical (i, j) raw m in
      let (mu, mv, ne, near) = raw_pairs-near q.0 q.1 mq in
      let (lt, cases) = ordered_cases q.0 q.1 i j ne e in
      elim cases [
        | inl (ei, ej) ↦ record {
          first_active = subst (λ k. In k active) (sym ei) mu;
          second_active = subst (λ k. In k active) (sym ej) mv;
          ordered = lt;
          near = rw (ei, ej) near;
        }
        | inr (ei, ej) ↦ record {
          first_active = subst (λ k. In k active) (sym ei) mv;
          second_active = subst (λ k. In k active) (sym ej) mu;
          ordered = lt;
          near = rw (ei, ej) (Adjacent-symm near);
        }
      ]

  In-raw_within : (u v : ℕ) → Together b u v → In {A = ℕ × ℕ} (u, v) raw
  In-raw_within u v t =
      In-append_left (u, v) (within_pairs b) (flat_map (cross_pairs np g b) forward_offsets)
        (In-within_pairs b u v t)

  In-raw_cross :
      (d : Offset) (u v : ℕ)
      → In d forward_offsets
      → Across np g b d u v
      → In {A = ℕ × ℕ} (u, v) raw
  In-raw_cross d u v md a =
      In-append_right (u, v) (within_pairs b) (flat_map (cross_pairs np g b) forward_offsets)
        (In-flat_map (cross_pairs np g b) d (u, v) forward_offsets md
          (In-cross_pairs np g b d u v a))

  -- From a cell to a neighbour that it precedes.
  In-raw-precedes :
      (u v : ℕ)
      → In u active
      → In v active
      → Adjacent (cell u) (cell v)
      → precedes (cell u) (cell v) ≡ true
      → In {A = ℕ × ℕ} (u, v) raw
  In-raw-precedes u v mu mv near pr =
      let (s, k, hs, hk, eu) = idx.cover u mu in
      let (t, l, ht, hl, ev) = idx.cover v mv in
      let (_, ku) = idx.member s k hs hk in
      let (_, kv) = idx.member t l ht hl in
      let d = offset_between (cell u) (cell v) in
      In-raw_cross d u v (In-forward_offsets (cell u) (cell v) near pr) (record {
        s = s;
        t = t;
        k = k;
        l = l;
        s_in = hs;
        matched =
            neighbor-hit np doc g b (decoded np doc g p) idx.ascending (keys_fit np doc g p)
              (cell u) (inside u) s hs (sym ku ∙ ap (key_of np doc g p) eu) d (cell v) t (inside v)
              (offset_between-At (cell u) (cell v) near) ht (sym kv ∙ ap (key_of np doc g p) ev);
        k_in = hk;
        l_in = hl;
        first = sym eu;
        second = sym ev;
      })

  -- Two drones of one cell, in one of the two orders.
  In-raw_same :
      (u v : ℕ)
      → In u active
      → In v active
      → (u ≡ v → ⊥)
      → cell u ≡ cell v
      → In {A = ℕ × ℕ} (u, v) raw ⊎ In {A = ℕ × ℕ} (v, u) raw
  In-raw_same u v mu mv ne same =
      let (s, k, hs, hk, eu) = idx.cover u mu in
      let (t, l, ht, hl, ev) = idx.cover v mv in
      let (_, ku) = idx.member s k hs hk in
      let (_, kv) = idx.member t l ht hl in
      let keys : get_or b.unique_keys t 0 ≡ get_or b.unique_keys s 0 =
        sym kv
        ∙ ap (key_of np doc g p) ev
        ∙ ap (λ c. linear_key g c) (sym same)
        ∙ ap (key_of np doc g p) (sym eu)
        ∙ ku in
      let st =
        Distinct-index b.unique_keys 0 t s (IsAscending-Distinct b.unique_keys idx.ascending) ht hs
          keys in
      let hl' : l < size_of b s = subst (λ x. l < size_of b x) st hl in
      let ev' : drone_at b s l ≡ v = ap (λ x. drone_at b x l) (sym st) ∙ ev in
      let hs' : s < length b.counts = omega (arith, idx.same_length) in
      elim (dec_lt k l) [
        | yes lt ↦ inl (
            In-raw_within u v (record {
              s = s;
              k = k;
              l = l;
              s_in = hs';
              k_lt_l = lt;
              l_in = hl';
              first = sym eu;
              second = sym ev';
            }))
        | no ge ↦ elim (dec_lt l k) [
          | yes gt ↦ inr (
              In-raw_within v u (record {
                s = s;
                k = l;
                l = k;
                s_in = hs';
                k_lt_l = gt;
                l_in = hk;
                first = sym ev';
                second = sym eu;
              }))
          | no le ↦
              absurd (ne (sym eu ∙ ap (drone_at b s) (let q : k ≡ l = omega arith in q) ∙ ev'))
        ]
      ]

  candidate_pairs_complete :
      (i j : ℕ) → IsCandidate np doc g p i j → In {A = ℕ × ℕ} (i, j) (candidate_pairs np g b)
  unfolding candidate_pairs
  candidate_pairs_complete i j h =
      let straight = λ (m : In {A = ℕ × ℕ} (i, j) raw).
        subst (λ q. In q (map canonical raw)) (canonical_lt i j h.ordered)
          (In-map canonical (i, j) raw m) in
      let swapped = λ (m : In {A = ℕ × ℕ} (j, i) raw).
        subst (λ q. In q (map canonical raw)) (canonical_gt i j h.ordered)
          (In-map canonical (j, i) raw m) in
      elim (precedes_total (cell i) (cell j)) [
        | inl pr ↦ straight (In-raw-precedes i j h.first_active h.second_active h.near pr)
        | inr (inl pr) ↦
            swapped (In-raw-precedes j i h.second_active h.first_active (Adjacent-symm h.near) pr)
        | inr (inr same) ↦
            elim (In-raw_same i j h.first_active h.second_active
              (λ e. let lt = h.ordered in absurd (omega arith)) same) [
                | inl m ↦ straight m
                | inr m ↦ swapped m
              ]
      ]

  -- A pair is returned exactly when it joins two active drones, the smaller id first, whose cells
  -- are the same or neighbours.
  pub candidate_pairs_iff :
      (i j : ℕ) → In {A = ℕ × ℕ} (i, j) (candidate_pairs np g b) ↔ IsCandidate np doc g p i j
  candidate_pairs_iff i j = (candidate_pairs_sound i j, candidate_pairs_complete i j)
