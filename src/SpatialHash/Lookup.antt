-- ===== src/SpatialHash/Lookup.antt =====
-- The two ways of `candidate_pairs` to find an occupied cell by its key: a search among the sorted
-- keys, and the dense table.
use drone_swarm_simulator.Prelude.{
  ℕ, zero, suc, ◌+◌, ◌<◌, Option, none, some, List, [], ◌∷◌, ◌≡◌, refl, sym, ap, inl, inr, ◌∙◌, ◌⊎◌,
  arith, length, get_or, set, replicate, length-set, length-replicate, get_or-set_self,
  get_or-set_ne, subst,
}
use drone_swarm_simulator.Prelude.Members.{In, All, All-In, Distinct, In-get_or, In-index}
use drone_swarm_simulator.Prelude.Int.{ℤ, pos, negsuc}
use native.Mathlib.Decide.{ℕ_discrete, dec_lt}
use drone_swarm_simulator.Arrays.{scatter_arange, Routines, IsDocumented}
use drone_swarm_simulator.SpatialHash.{
  Grid, total_cells, make_lookup, find_sparse, find_dense, find_cell, found,
}
use drone_swarm_simulator.SpatialHash.Groups.{
  IsAscending, IsAscending-IsSorted, IsAscending-Distinct,
}

-- The answer is the place of the key among the occupied cells, or `none` where it has none.
pub record IsFound (unique_keys : List ℕ) (key : ℕ) (answer : Option ℕ) : Type 0 where
  pub hit : (t : ℕ) → t < length unique_keys → get_or unique_keys t 0 ≡ key → answer ≡ some t
  pub sound : (t : ℕ) → answer ≡ some t → (t < length unique_keys) × (get_or unique_keys t 0 ≡ key)

IsAscending-lt :
    (xs : List ℕ) (i j : ℕ) → IsAscending xs → i < j → j < length xs → get_or xs i 0 < get_or xs j 0
IsAscending-lt [] i j h lt l = elim l [ ]
IsAscending-lt (x ∷ xs) i zero h lt l = elim lt [ ]
IsAscending-lt (x ∷ xs) zero (suc j) h lt l =
    All-In (λ y. x < y) (get_or xs j 0) xs h.0 (In-get_or xs j 0 (omega arith))
IsAscending-lt (x ∷ xs) (suc i) (suc j) h lt l =
    IsAscending-lt xs i j h.1 (omega arith) (omega arith)

dec_In : (k : ℕ) (xs : List ℕ) → Dec (In k xs)
dec_In k [] = no (λ m. m)
dec_In k (x ∷ xs) = elim (ℕ_discrete k x) [
  | yes e ↦ yes (inl e)
  | no ne ↦ elim (dec_In k xs) [
    | yes m ↦ yes (inr m)
    | no none_in ↦ no (λ m. elim m [ inl e ↦ ne e | inr m' ↦ none_in m' ])
  ]
]

scatter_arange-miss :
    (table : List ℤ) (ks : List ℕ) (i k : ℕ) (d : ℤ)
    → ¬ (In k ks)
    → get_or (scatter_arange table ks i) k d ≡ get_or table k d
scatter_arange-miss table [] i k d h = refl
scatter_arange-miss table (x ∷ ks) i k d h =
    scatter_arange-miss (set table x (pos i)) ks (suc i) k d (λ m. h (inr m))
    ∙ get_or-set_ne table x k (pos i) d (λ e. h (inl (sym e)))

scatter_arange-hit :
    (table : List ℤ) (ks : List ℕ) (i t : ℕ) (d : ℤ)
    → Distinct ks
    → All (λ k. k < length table) ks
    → t < length ks
    → get_or (scatter_arange table ks i) (get_or ks t 0) d ≡ pos (i + t)
scatter_arange-hit table [] i t d h fits lt = elim lt [ ]
scatter_arange-hit table (x ∷ ks) i zero d h fits lt =
    scatter_arange-miss (set table x (pos i)) ks (suc i) x d h.0
    ∙ get_or-set_self table x (pos i) d fits.0
    ∙ ap pos (omega arith)
scatter_arange-hit table (x ∷ ks) i (suc t) d h fits lt =
    scatter_arange-hit (set table x (pos i)) ks (suc i) t d h.1
      (rw (length-set table x (pos i)) fits.1) (omega arith)
    ∙ ap pos (omega arith)

get_or-replicate_same : (n k : ℕ) (a : ℤ) → get_or (replicate n a) k a ≡ a
get_or-replicate_same zero k a = refl
get_or-replicate_same (suc n) zero a = refl
get_or-replicate_same (suc n) (suc k) a = get_or-replicate_same n k a

pub some_inj : (a b : ℕ) → some a ≡ some b → a ≡ b
some_inj a b e = cc

module _ (np : Routines) (doc : IsDocumented np) (uk : List ℕ) (up : IsAscending uk) where
  place_of_key : (key t : ℕ) → t < length uk → get_or uk t 0 ≡ key → np.searchsorted uk key ≡ t
  place_of_key key t lt e =
      let sorted = IsAscending-IsSorted uk up in
      elim (dec_lt t (np.searchsorted uk key)) [
        | yes after ↦
            let low = doc.searchsorted_below uk key t sorted lt after in absurd (omega arith)
        | no upto ↦ elim (dec_lt (np.searchsorted uk key) t) [
          | yes before ↦
              let high =
                doc.searchsorted_above uk key (np.searchsorted uk key) sorted (omega arith)
                  (omega arith) in
              let grows = IsAscending-lt uk (np.searchsorted uk key) t up before lt in
              absurd (omega arith)
          | no same ↦ omega arith
        ]
      ]

  pub find_sparse-IsFound : (key : ℕ) → IsFound uk key (find_sparse np uk key)
  find_sparse-IsFound key = record {
    hit = λ t lt e. rw (place_of_key key t lt e) (ground arith);
    sound = λ t e. ground arith;
  }

  pub find_dense-IsFound :
      (n key : ℕ)
      → All (λ k. k < n) uk
      → IsFound uk key (find_dense (scatter_arange (replicate n (negsuc 0)) uk 0) key)
  find_dense-IsFound n key fits =
      let table = scatter_arange (replicate n (negsuc 0)) uk 0 in
      let at = λ (t : ℕ) (lt : t < length uk).
        scatter_arange-hit (replicate n (negsuc 0)) uk 0 t (negsuc 0) (IsAscending-Distinct uk up)
          (rw length-replicate fits) lt in
      let hit : (t : ℕ) → t < length uk → get_or uk t 0 ≡ key → find_dense table key ≡ some t =
        λ t lt e.
          ap found (ap (λ k. get_or table k (negsuc 0)) (sym e) ∙ at t lt)
          ∙ ap some (omega arith) in
      record {
        hit = hit;
        sound = λ t e. elim (dec_In key uk) [
          | yes m ↦
              let (u, lu, eu) = In-index key 0 uk m in
              let same = some_inj u t (sym (hit u lu eu) ∙ e) in
              (omega arith, subst (λ v. get_or uk v 0 ≡ key) same eu)
          | no out ↦
              let miss : find_dense table key ≡ none = ap found (
                scatter_arange-miss (replicate n (negsuc 0)) uk 0 key (negsuc 0) out
                ∙ get_or-replicate_same n key (negsuc 0)) in
              absurd (cc (miss, e))
        ];
      }

-- Both ways give the one answer there is.
IsFound-unique :
    (uk : List ℕ) (key : ℕ) (a b : Option ℕ) → IsFound uk key a → IsFound uk key b → a ≡ b
IsFound-unique uk key none none p q = refl
IsFound-unique uk key (some t) b p q = let (lt, e) = p.sound t refl in sym (q.hit t lt e)
IsFound-unique uk key none (some t) p q = let (lt, e) = q.sound t refl in p.hit t lt e

module _ {F : Type 0} (np : Routines) (doc : IsDocumented np) (g : Grid F) (uk : List ℕ) where
  make_lookup_cases :
      (make_lookup g uk ≡ none)
      ⊎ (make_lookup g uk ≡ some (scatter_arange (replicate (total_cells g) (negsuc 0)) uk 0))
  unfolding make_lookup
  make_lookup_cases = ground arith

  pub find_cell-IsFound :
      (key : ℕ)
      → IsAscending uk
      → All (λ k. k < total_cells g) uk
      → IsFound uk key (find_cell np (make_lookup g uk) uk key)
  unfolding find_cell
  find_cell-IsFound key up fits = elim make_lookup_cases [
    | inl e ↦ rw (e, find_cell) (find_sparse-IsFound np doc uk up key)
    | inr e ↦ rw (e, find_cell) (find_dense-IsFound np doc uk up (total_cells g) key fits)
  ]

  -- With searchsorted as documented, for occupied cells whose keys ascend and lie in the grid,
  -- looking a key up with the table that build makes or leaves out gives what the search among the
  -- occupied cells gives.
  pub find_cell-lookup :
      (key : ℕ)
      → IsAscending uk
      → All (λ k. k < total_cells g) uk
      → find_cell np (make_lookup g uk) uk key ≡ find_cell np none uk key
  find_cell-lookup key up fits =
      IsFound-unique uk key (find_cell np (make_lookup g uk) uk key) (find_cell np none uk key)
        (find_cell-IsFound key up fits) (unfold find_cell in find_sparse-IsFound np doc uk up key)
