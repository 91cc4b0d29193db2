-- ===== src/Movement/Features.antt =====
-- What the context says of a drone comes from a pair that the drone is in.
use drone_swarm_simulator.Prelude.{
  ℕ, zero, suc, ◌<◌, Bool, true, false, List, [], ◌∷◌, map, ◌≡◌, ◌⊎◌, inl, inr, refl, sym, ap,
  subst, ◌∙◌, arith, length, get_or, replicate, length-map, get_or-map, length-replicate,
  get_or-replicate,
}
use drone_swarm_simulator.Prelude.Members.{In, All, All-In, In-get_or, In-map}
use drone_swarm_simulator.Numeric.{Floats}
use drone_swarm_simulator.State.{In-nonzero_iff}
use drone_swarm_simulator.Arrays.{gather, changes}
use drone_swarm_simulator.Arrays.Rows.{set_rows-source}
use drone_swarm_simulator.SpatialHash.{is_new}
use drone_swarm_simulator.Movement.{NeighborFeatures}
use drone_swarm_simulator.Movement.Avoiding.{no_features}
use drone_swarm_simulator.Movement.Builder.{
  Lexsorts, DirectedRow, no_row, self_of, separation_of, with_counts, group_starts, best_row,
  features_of, valid_of,
}

-- NumPy's documentation: the entries of `lexsort` are indices of the keys.
pub record IsLexsort {F : Type 0} (np : Lexsorts F) : Type 0 where
  pub in_range :
      (minor : List F) (major : List ℕ) → All (λ i. i < length major) (np.lexsort minor major)

length-changes : (k : ℕ) (ks : List ℕ) → length (changes k ks) ≡ length ks
length-changes k [] = refl
length-changes k (x ∷ xs) = ap suc (length-changes x xs)

length-is_new : (ks : List ℕ) → length (is_new ks) ≡ length ks
length-is_new [] = refl
length-is_new (k ∷ ks) = ap suc (length-changes k ks)

module _ {F : Type 0} ⦃f : Floats F⦄ where
  with_counts-separation :
      (i : ℕ) (selves : List ℕ) (vs : List (NeighborFeatures F)) (k : ℕ)
      → (get_or (with_counts i selves vs) k no_features).predicted_separation
        ≡ (get_or vs k no_features).predicted_separation
  with_counts-separation i selves [] k = refl
  with_counts-separation i selves (v ∷ vs) zero = refl
  with_counts-separation i selves (v ∷ vs) (suc k) = with_counts-separation (suc i) selves vs k

  -- Nothing is said of the drone `k`, or its predicted separation is that of a pair it is in.
  abbrev pub IsSeen : List (DirectedRow F) → List Bool → List (NeighborFeatures F) → ℕ → Type 0
  IsSeen rows valid features k =
      (get_or valid k false ≡ false)
      ⊎ ((r : DirectedRow F) × In r rows
          × (self_of r ≡ k)
          × ((get_or features k no_features).predicted_separation ≡ f.to_float32 (separation_of r)))

  module _ (np : Lexsorts F) (documented : IsLexsort np) (n : ℕ) (rows : List (DirectedRow F)) where
    abbrev selves : List ℕ
    selves = map self_of rows

    abbrev order : List ℕ
    order = np.lexsort (map separation_of rows) selves

    abbrev starts : List ℕ
    starts = group_starts (gather 0 selves order)

    abbrev group_id : ℕ → ℕ
    group_id g = get_or (gather 0 selves order) g 0

    start_in_range : (g : ℕ) → In g starts → g < length order
    start_in_range g m =
        let (l, e) = (In-nonzero_iff (is_new (gather 0 selves order)) g).0 m in
        omega
          (arith, length-is_new (gather 0 selves order), length-map (λ i. get_or selves i 0) order)

    order_in_range : (g : ℕ) → g < length order → get_or order g 0 < length rows
    order_in_range g h =
        let l : get_or order g 0 < length selves =
          All-In (λ i. i < length selves) (get_or order g 0) order
            (documented.in_range (map separation_of rows) selves) (In-get_or order g 0 h) in
        omega (arith, length-map self_of rows)

    best_self : (g : ℕ) → In g starts → group_id g ≡ self_of (get_or rows (get_or order g 0) no_row)
    best_self g m =
        let h = start_in_range g m in
        get_or-map (λ i. get_or selves i 0) order g 0 0 h
        ∙ get_or-map self_of rows (get_or order g 0) no_row 0 (order_in_range g h)

    abbrev blank : List (NeighborFeatures F)
    blank = replicate n no_features

    pub features_of-IsSeen :
        (k : ℕ) → k < n → IsSeen rows (valid_of np n rows) (features_of np n rows) k
    unfolding features_of valid_of
    features_of-IsSeen k h =
        let lv : k < length (replicate n false) = omega (arith, length-replicate n false) in
        let lf : k < length blank = omega (arith, length-replicate n (no_features {F = F})) in
        elim (set_rows-source (replicate n false) starts group_id (λ g. true) k false lv) [
          | inl (absent, v) ↦ inl (v ∙ get_or-replicate n k false false h)
          | inr (g, m, e, v) ↦
              elim (set_rows-source blank starts group_id (best_row rows order) k no_features lf) [
                | inl (absent, w) ↦ absurd (
                    absent (subst (λ t. In t (map group_id starts)) e (In-map group_id g starts m)))
                | inr (g', m', e', w) ↦ inr (
                  get_or rows (get_or order g' 0) no_row,
                  In-get_or rows (get_or order g' 0) no_row
                      (order_in_range g' (start_in_range g' m')),
                  sym (best_self g' m') ∙ e',
                  with_counts-separation 0 selves _ k ∙ ap (λ v. v.predicted_separation) w,
                )
              ]
        ]
