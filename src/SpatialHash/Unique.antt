-- ===== src/SpatialHash/Unique.antt =====
-- `candidate_pairs` returns no pair twice.
use drone_swarm_simulator.Prelude.{
  ℕ, ◌+◌, ◌*◌, ◌/◌, ◌%◌, ◌<◌, Option, none, some, List, [], ◌∷◌, map, ◌≡◌, sym, ap, subst, inl, inr,
  ◌⊎◌, ◌∙◌, true, arith, length, get_or, flat_map, range, select, leb,
}
use native.Mathlib.Nat.{div-add-mod'}
use mathlib.Core.Path.{ap₂}
use drone_swarm_simulator.Prelude.Members.{
  In, Distinct, Distinct-append, Distinct-map, Distinct-flat_map, Distinct-select, Distinct-index,
  Distinct-count_from, In-select_cases, In-count_from_bounds, In-flat_map_cases, In-map,
}
use drone_swarm_simulator.Prelude.Int.{ℤ, pos, negsuc}
use drone_swarm_simulator.Arrays.{slice, triu_indices, Routines, IsDocumented}
use drone_swarm_simulator.SpatialHash.{
  Grid, Built, cell_pairs, within_pairs, neighbor, with_match, matches, block_sizes, block_pair,
  block_rows, cross_pairs, canonical, candidate_pairs,
}
use drone_swarm_simulator.SpatialHash.Offsets.{Offset, forward_offsets}
use drone_swarm_simulator.SpatialHash.Groups.{IsAscending, IsAscending-Distinct}
use drone_swarm_simulator.SpatialHash.Structure.{IsIndex, drone_at, size_of}
use drone_swarm_simulator.SpatialHash.Blocks.{block_rows-eq-rows, Distinct-rows}
use drone_swarm_simulator.SpatialHash.Triu.{
  get_or-slice, In-triu_indices_bounds, Distinct-triu_indices,
}
use drone_swarm_simulator.SpatialHash.Steps.{
  precedes, precedes_irrefl, precedes_asymm, At-unique, In-forward_offsets-At,
}
use drone_swarm_simulator.SpatialHash.Neighbors.{neighbor_sound}
use drone_swarm_simulator.SpatialHash.Lookup.{some_inj}
use drone_swarm_simulator.SpatialHash.Raw.{
  Together, Across, Together-cell_pairs, within_pairs-Together, cross_pairs-Across,
  block_rows-IsRow, with_match-cases, match_at, step_match, pair_in,
}
use drone_swarm_simulator.SpatialHash.Candidates.{
  Placing, key_of, built, index, decoded, keys_fit, Across-At, Together-facts, raw_pairs,
  raw_pairs_cases,
}

Distinct-of-map : {A : Type 0} (f : A → ℕ) (xs : List A) → Distinct (map f xs) → Distinct xs
Distinct-of-map f [] h = tt
Distinct-of-map f (x ∷ xs) h = ((λ m. h.0 (In-map f x xs m)), Distinct-of-map f xs h.1)

digit : ℤ → ℕ
digit (pos n) = n + 1
digit (negsuc n) = 0

-- The offsets in their order, as numbers of three digits.
rank : Offset → ℕ
rank d = digit d.dz * 9 + digit d.dy * 3 + digit d.dx

ranks_ascend : IsAscending (map rank forward_offsets)
unfolding forward_offsets rank digit
ranks_ascend = omega arith

Distinct-forward_offsets : Distinct forward_offsets
Distinct-forward_offsets =
    Distinct-of-map rank forward_offsets
      (IsAscending-Distinct (map rank forward_offsets) ranks_ascend)

-- The pair of drones at two places of the slice of a group.
abbrev slice_pair : Built → ℕ → ℕ × ℕ → ℕ × ℕ
slice_pair b s (i, j) =
    let drones = slice b.sorted_drones (get_or b.group_start s 0) (size_of b s) in
    (get_or drones i 0, get_or drones j 0)

with_match-Distinct : (s : ℕ) (o : Option ℕ) → Distinct (with_match s o)
with_match-Distinct s none = tt
with_match-Distinct s (some t) = ((λ m. m), tt)

-- A pair and its mirror image have one ordered form.
canonical_cases :
    (u v x y : ℕ) → canonical (u, v) ≡ canonical (x, y) → ((u ≡ x) × (v ≡ y)) ⊎ ((u ≡ y) × (v ≡ x))
canonical_cases u v x y e =
    let ei = ap (λ (q : ℕ × ℕ). q.0) e in let ej = ap (λ (q : ℕ × ℕ). q.1) e in ground arith

module _ {F : Type 0} (np : Routines) (doc : IsDocumented np) (g : Grid F) (p : Placing g) where
  open p use {cell}

  abbrev b : Built
  b = built np doc g p

  idx : IsIndex (key_of np doc g p) p.active b
  idx = index np doc g p

  abbrev raw : List (ℕ × ℕ)
  raw = raw_pairs np doc g p

  together_cell : (u v : ℕ) → Together b u v → cell u ≡ cell v
  together_cell u v t = let (_, _, same, _) = Together-facts np doc g p u v t in same

  Across-precedes :
      (d : Offset) (u v : ℕ)
      → In d forward_offsets
      → Across np g b d u v
      → precedes (cell u) (cell v) ≡ true
  Across-precedes d u v md a =
      let (_, _, at) = Across-At np doc g p d u v a in
      (In-forward_offsets-At (cell u) (cell v) d md at).0

  not_both : (u v : ℕ) → cell u ≡ cell v → precedes (cell u) (cell v) ≡ true → ⊥
  not_both u v same pr =
      let loop : precedes (cell u) (cell u) ≡ true =
        subst (λ c. precedes (cell u) c ≡ true) (sym same) pr in
      absurd (cc (precedes_irrefl (cell u), loop))

  -- No group holds a pair in both orders.
  together_asymm : (u v : ℕ) → Together b u v → Together b v u → ⊥
  together_asymm u v t r =
      let in_t = t.s_in in
      let in_r = r.s_in in
      let lt = t.k_lt_l in
      let lt' = r.k_lt_l in
      let lin = t.l_in in
      let lin' = r.l_in in
      let len = idx.same_length in
      let ts : t.s < length b.unique_keys = omega arith in
      let rs : r.s < length b.unique_keys = omega arith in
      let first = idx.once t.s t.k r.s r.l ts (omega arith) rs r.l_in (sym t.first ∙ r.second) in
      let second = idx.once t.s t.l r.s r.k ts t.l_in rs (omega arith) (sym t.second ∙ r.first) in
      absurd (omega arith)

  raw_asymm : (u v : ℕ) → In {A = ℕ × ℕ} (u, v) raw → In {A = ℕ × ℕ} (v, u) raw → ⊥
  raw_asymm u v m r = elim (raw_pairs_cases np doc g p u v m) [
    | inl t ↦ elim (raw_pairs_cases np doc g p v u r) [
      | inl t' ↦ together_asymm u v t t'
      | inr (d, md, a) ↦ not_both v u (sym (together_cell u v t)) (Across-precedes d v u md a)
    ]
    | inr (d, md, a) ↦ elim (raw_pairs_cases np doc g p v u r) [
      | inl t' ↦ not_both u v (sym (together_cell v u t')) (Across-precedes d u v md a)
      | inr (d', md', a') ↦
          precedes_asymm (cell u) (cell v) (Across-precedes d u v md a)
            (Across-precedes d' v u md' a')
    ]
  ]

  -- The groups of one drone are one group.
  group_unique :
      (s k t l : ℕ)
      → s < length b.unique_keys
      → k < size_of b s
      → t < length b.unique_keys
      → l < size_of b t
      → drone_at b s k ≡ drone_at b t l
      → s ≡ t
  group_unique s k t l hs hk ht hl e =
      let (_, ks) = idx.member s k hs hk in
      let (_, kt) = idx.member t l ht hl in
      Distinct-index b.unique_keys 0 s t (IsAscending-Distinct b.unique_keys idx.ascending) hs ht
        (sym ks ∙ ap (key_of np doc g p) e ∙ kt)

  place_unique :
      (s k l : ℕ)
      → s < length b.unique_keys
      → k < size_of b s
      → l < size_of b s
      → drone_at b s k ≡ drone_at b s l
      → k ≡ l
  place_unique s k l hs hk hl e = omega (arith, idx.once s k s l hs hk hs hl e)

  pair_first : {u v x y : ℕ} → ◌≡◌ {A = ℕ × ℕ} (u, v) (x, y) → u ≡ x
  pair_first e = ap (λ (q : ℕ × ℕ). q.0) e

  pair_second : {u v x y : ℕ} → ◌≡◌ {A = ℕ × ℕ} (u, v) (x, y) → v ≡ y
  pair_second e = ap (λ (q : ℕ × ℕ). q.1) e

  pair_path : (u v x y : ℕ) → u ≡ x → v ≡ y → ◌≡◌ {A = ℕ × ℕ} (u, v) (x, y)
  pair_path u v x y e f = ap₂ (λ (m n : ℕ). let r : ℕ × ℕ = (m, n) in r) e f

  Distinct-cell_pairs : (s : ℕ) → s < length b.unique_keys → Distinct (cell_pairs b s)
  Distinct-cell_pairs s hs =
      let slot = get_or-slice b.sorted_drones (get_or b.group_start s 0) (size_of b s) in
      Distinct-map (slice_pair b s) (triu_indices (size_of b s))
        (λ q r mq mr e.
          let (lq, hq) = In-triu_indices_bounds (size_of b s) q.0 q.1 mq in
          let (lr, hr) = In-triu_indices_bounds (size_of b s) r.0 r.1 mr in
          let q0 : q.0 < size_of b s = omega arith in
          let r0 : r.0 < size_of b s = omega arith in
          pair_path q.0 q.1 r.0 r.1
            (place_unique s q.0 r.0 hs q0 r0
              (sym (slot q.0 q0) ∙ ap (λ (t : ℕ × ℕ). t.0) e ∙ slot r.0 r0))
            (place_unique s q.1 r.1 hs hq hr
              (sym (slot q.1 hq) ∙ ap (λ (t : ℕ × ℕ). t.1) e ∙ slot r.1 hr)))
        (Distinct-triu_indices (size_of b s))

  abbrev large : List ℕ
  large = select (λ ci. leb 2 (get_or b.counts ci 0)) (range (length b.counts))

  large-below : (s : ℕ) → In s large → s < length b.counts
  large-below s m =
      let (mr, _) =
        In-select_cases (λ ci. leb 2 (get_or b.counts ci 0)) s (range (length b.counts)) m in
      let bounds = In-count_from_bounds 0 (length b.counts) s mr in omega arith

  together_group : (u v : ℕ) (h h' : Together b u v) → h.s ≡ h'.s
  together_group u v h h' =
      let len = idx.same_length in
      let a = h.s_in in
      let a' = h'.s_in in
      let lt = h.k_lt_l in
      let lt' = h'.k_lt_l in
      let c = h.l_in in
      let c' = h'.l_in in
      group_unique h.s h.k h'.s h'.k (omega arith) (omega arith) (omega arith) (omega arith)
        (sym h.first ∙ h'.first)

  Distinct-within_pairs : Distinct (within_pairs b)
  unfolding Together-cell_pairs
  Distinct-within_pairs =
      Distinct-flat_map (cell_pairs b) large
        (Distinct-select (λ ci. leb 2 (get_or b.counts ci 0)) (range (length b.counts))
          (Distinct-count_from 0 (length b.counts)))
        (λ s m. Distinct-cell_pairs s (omega (arith, large-below s m, idx.same_length)))
        λ s t q ms mt in_s in_t.
          together_group q.0 q.1 (Together-cell_pairs b s q.0 q.1 (large-below s ms) in_s)
            (Together-cell_pairs b t q.0 q.1 (large-below t mt) in_t)

  Distinct-matches : (d : Offset) → Distinct (matches np g b d)
  Distinct-matches d =
      Distinct-flat_map (step_match np g b d) (range (length b.unique_keys))
        (Distinct-count_from 0 (length b.unique_keys))
        (λ s m. with_match-Distinct s (neighbor np g b d s))
        λ s t q ms mt in_s in_t.
          let (es, _) = with_match-cases s q.0 q.1 (neighbor np g b d s) in_s in
          let (et, _) = with_match-cases t q.0 q.1 (neighbor np g b d t) in_t in sym es ∙ et

  match_in :
      (d : Offset) (s t : ℕ)
      → s < length b.unique_keys
      → neighbor np g b d s ≡ some t
      → t < length b.unique_keys
  match_in d s t hs found =
      let w = drone_at b s 0 in
      let (_, kw) = idx.member s 0 hs (idx.occupied s hs) in
      let (_, _, _, ht, _) =
        neighbor_sound np doc g b (decoded np doc g p) idx.ascending (keys_fit np doc g p) (cell w)
          (p.inside w) s hs (sym kw) d t found in
      ht

  -- Two rows with one pair are one row.
  row_unique :
      (d : Offset) (m k m' k' : ℕ)
      → In {A = ℕ × ℕ} (m, k) (block_rows (block_sizes b (matches np g b d)))
      → In {A = ℕ × ℕ} (m', k') (block_rows (block_sizes b (matches np g b d)))
      → pair_in np g b d (match_at np g b d m) k ≡ pair_in np g b d (match_at np g b d m') k'
      → ◌≡◌ {A = ℕ × ℕ} (m, k) (m', k')
  row_unique d m k m' k' h h' e =
      let ms = matches np g b d in
      let r = block_rows-IsRow np g b d m k h in
      let r' = block_rows-IsRow np g b d m' k' h' in
      let q = match_at np g b d m in
      let q' = match_at np g b d m' in
      let first = ap (λ (t : ℕ × ℕ). t.0) e in
      let second = ap (λ (t : ℕ × ℕ). t.1) e in
      let es =
        group_unique q.0 (k / size_of b q.1) q'.0 (k' / size_of b q'.1) r.s_in r.left_in r'.s_in
          r'.left_in first in
      let et : q.1 ≡ q'.1 =
        some_inj q.1 q'.1 (sym r.matched ∙ ap (neighbor np g b d) es ∙ r'.matched) in
      let em =
        Distinct-index ms (0, 0) m m' (Distinct-matches d) r.m_in r'.m_in
          (pair_path q.0 q.1 q'.0 q'.1 es et) in
      let right : k' % size_of b q'.1 ≡ k' % size_of b q.1 = ap (λ t. k' % size_of b t) (sym et) in
      let left : k' / size_of b q'.1 ≡ k' / size_of b q.1 = ap (λ t. k' / size_of b t) (sym et) in
      let left_in : k' / size_of b q.1 < size_of b q.0 =
        subst (λ x. x < size_of b q.0) left
          (subst (λ x. k' / size_of b q'.1 < size_of b x) (sym es) r'.left_in) in
      let right_in : k' % size_of b q.1 < size_of b q.1 =
        subst (λ t. k' % size_of b t < size_of b t) (sym et) r'.right_in in
      let ek = place_unique q.0 (k / size_of b q.1) (k' / size_of b q.1) r.s_in r.left_in left_in (
        first ∙ ap (λ s. drone_at b s (k' / size_of b q'.1)) (sym es) ∙ ap (drone_at b q.0) left) in
      let el =
        place_unique q.1 (k % size_of b q.1) (k' % size_of b q.1)
          (match_in d q.0 q.1 r.s_in r.matched) r.right_in right_in
          (second
            ∙ ap (λ t. drone_at b t (k' % size_of b q'.1)) (sym et)
            ∙ ap (drone_at b q.1) right) in
      pair_path m k m' k' em (
        sym (div-add-mod' k (size_of b q.1))
        ∙ ap₂ (λ (x y : ℕ). x * size_of b q.1 + y) ek el
        ∙ div-add-mod' k' (size_of b q.1))

  Distinct-cross_pairs : (d : Offset) → Distinct (cross_pairs np g b d)
  unfolding cross_pairs
  Distinct-cross_pairs d =
      let ms = matches np g b d in
      Distinct-map (block_pair b ms) (block_rows (block_sizes b ms))
        (λ q r mq mr e. row_unique d q.0 q.1 r.0 r.1 mq mr e)
        (rw block_rows-eq-rows (Distinct-rows 0 (block_sizes b ms)))

  Distinct-raw : Distinct raw
  Distinct-raw =
      Distinct-append (within_pairs b) (flat_map (cross_pairs np g b) forward_offsets)
        Distinct-within_pairs
        (Distinct-flat_map (cross_pairs np g b) forward_offsets Distinct-forward_offsets
          (λ d m. Distinct-cross_pairs d)
          λ d d' q md md' in_d in_d'.
            let (_, _, at) =
              Across-At np doc g p d q.0 q.1 (cross_pairs-Across np g b d q.0 q.1 in_d) in
            let (_, _, at') =
              Across-At np doc g p d' q.0 q.1 (cross_pairs-Across np g b d' q.0 q.1 in_d') in
            At-unique (cell q.0) (cell q.1) d d' at at')
        λ q l r.
          let (d, md, h) = In-flat_map_cases (cross_pairs np g b) q forward_offsets r in
          not_both q.0 q.1 (together_cell q.0 q.1 (within_pairs-Together b q.0 q.1 l))
            (Across-precedes d q.0 q.1 md (cross_pairs-Across np g b d q.0 q.1 h))

  -- No pair is returned twice, in either order of its drones.
  pub candidate_pairs-Distinct : Distinct (candidate_pairs np g b)
  unfolding candidate_pairs
  candidate_pairs-Distinct =
      Distinct-map canonical raw
        (λ q r mq mr e. elim (canonical_cases q.0 q.1 r.0 r.1 e) [
          | inl (a, c) ↦ pair_path q.0 q.1 r.0 r.1 a c
          | inr (a, c) ↦ absurd (
              raw_asymm q.0 q.1 mq
                (subst (λ t. In t raw) (pair_path r.0 r.1 q.1 q.0 (sym c) (sym a)) mr))
        ])
        Distinct-raw
