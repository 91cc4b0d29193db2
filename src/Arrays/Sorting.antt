-- ===== src/Arrays/Sorting.antt =====
-- An implementation of the two routines: an insertion sort of indices and a linear search.
use drone_swarm_simulator.Prelude.{
  ℕ, zero, suc, ◌≤◌, ◌<◌, List, [], ◌∷◌, ◌≡◌, ◌⊎◌, refl, sym, subst, inl, inr, arith, length,
  get_or, leb, ltb, leb→le, Bool-cases, range, if◌then◌else◌,
}
use drone_swarm_simulator.Prelude.Members.{
  In, All, Distinct, All-In, In-get_or, All-from, In-count_from, In-count_from_bounds,
  Distinct-count_from,
}
use drone_swarm_simulator.Arrays.{Routines, IsSorted, IsDocumented, gather}

-- `i` put into place among indices whose keys ascend.
insert : List ℕ → ℕ → List ℕ → List ℕ
insert keys i [] = i ∷ []
insert keys i (j ∷ js) =
    let rest = insert keys i js in
    if leb (get_or keys i 0) (get_or keys j 0) then i ∷ j ∷ js else j ∷ rest

unfoldable pub sort_indices : List ℕ → List ℕ → List ℕ
unfolding insert
sort_indices keys [] = []
sort_indices keys (i ∷ is) = insert keys i (sort_indices keys is)

unfoldable pub count_below : List ℕ → ℕ → ℕ
count_below [] v = 0
count_below (x ∷ xs) v = let rest = count_below xs v in if ltb x v then suc rest else 0

unfoldable pub insertion_sort : Routines
unfolding sort_indices count_below
insertion_sort = record {
  argsort = λ keys. sort_indices keys (range (length keys));
  searchsorted = count_below;
}

In-insert_cases :
    (keys : List ℕ) (k i : ℕ) (js : List ℕ) → In k (insert keys i js) → (k ≡ i) ⊎ In k js
unfolding insert
In-insert_cases keys k i [] m = ground arith
In-insert_cases keys k i (j ∷ js) m = ground (arith, In-insert_cases keys k i js)

In-insert_here : (keys : List ℕ) (i : ℕ) (js : List ℕ) → In i (insert keys i js)
unfolding insert
In-insert_here keys i [] = inl refl
In-insert_here keys i (j ∷ js) = ground (arith, In-insert_here keys i js)

In-insert_there : (keys : List ℕ) (k i : ℕ) (js : List ℕ) → In k js → In k (insert keys i js)
unfolding insert
In-insert_there keys k i [] m = absurd m
In-insert_there keys k i (j ∷ js) m = ground (arith, In-insert_there keys k i js)

Distinct-insert :
    (keys : List ℕ) (i : ℕ) (js : List ℕ) → ¬ (In i js) → Distinct js → Distinct (insert keys i js)
unfolding insert
Distinct-insert keys i [] fresh h = (λ m. m, tt)
Distinct-insert keys i (j ∷ js) fresh (new, h) =
    elim (Bool-cases (leb (get_or keys i 0) (get_or keys j 0))) [
      | inl t ↦ rw t (fresh, (new, h))
      | inr f ↦ rw f (
        (λ m. elim (In-insert_cases keys j i js m) [ inl e ↦ fresh (inl (sym e)) | inr r ↦ new r ]),
        Distinct-insert keys i js (λ m. fresh (inr m)) h,
      )
    ]

In-sort_cases : (keys is : List ℕ) (k : ℕ) → In k (sort_indices keys is) → In k is
unfolding sort_indices
In-sort_cases keys [] k m = m
In-sort_cases keys (i ∷ is) k m = elim (In-insert_cases keys k i (sort_indices keys is) m) [
  | inl e ↦ inl e
  | inr r ↦ inr (In-sort_cases keys is k r)
]

In-sort : (keys is : List ℕ) (k : ℕ) → In k is → In k (sort_indices keys is)
unfolding sort_indices
In-sort keys [] k m = m
In-sort keys (i ∷ is) k (inl e) =
    subst (λ q. In q (insert keys i (sort_indices keys is))) (sym e)
      (In-insert_here keys i (sort_indices keys is))
In-sort keys (i ∷ is) k (inr m) =
    In-insert_there keys k i (sort_indices keys is) (In-sort keys is k m)

Distinct-sort : (keys is : List ℕ) → Distinct is → Distinct (sort_indices keys is)
unfolding sort_indices
Distinct-sort keys [] h = tt
Distinct-sort keys (i ∷ is) (fresh, h) =
    Distinct-insert keys i (sort_indices keys is) (λ m. fresh (In-sort_cases keys is i m))
      (Distinct-sort keys is h)

module _ (keys : List ℕ) where
  All-insert :
      (b i : ℕ) (js : List ℕ)
      → b ≤ get_or keys i 0
      → All (λ y. b ≤ y) (gather 0 keys js)
      → All (λ y. b ≤ y) (gather 0 keys (insert keys i js))
  unfolding insert
  All-insert b i [] h k = (h, tt)
  All-insert b i (j ∷ js) h k = elim (Bool-cases (leb (get_or keys i 0) (get_or keys j 0))) [
    | inl t ↦ rw t (h, k)
    | inr f ↦ rw f (k.0, All-insert b i js h k.1)
  ]

  All-weaken : (a b : ℕ) (xs : List ℕ) → a ≤ b → All (λ y. b ≤ y) xs → All (λ y. a ≤ y) xs
  All-weaken a b [] h k = tt
  All-weaken a b (x ∷ xs) h (k, ks) = (omega arith, All-weaken a b xs h ks)

  IsSorted-insert :
      (i : ℕ) (js : List ℕ)
      → IsSorted (gather 0 keys js)
      → IsSorted (gather 0 keys (insert keys i js))
  unfolding insert
  IsSorted-insert i [] h = (tt, tt)
  IsSorted-insert i (j ∷ js) (low, h) =
      elim (Bool-cases (leb (get_or keys i 0) (get_or keys j 0))) [
        | inl t ↦ rw t (
            let le = leb→le (get_or keys i 0) (get_or keys j 0) t in
            (
              (le, All-weaken (get_or keys i 0) (get_or keys j 0) (gather 0 keys js) le low),
              (low, h),
            ))
        | inr f ↦
            rw f (All-insert (get_or keys j 0) i js (ground arith) low, IsSorted-insert i js h)
      ]

  sort_indices-IsSorted : (is : List ℕ) → IsSorted (gather 0 keys (sort_indices keys is))
  unfolding sort_indices
  sort_indices-IsSorted [] = tt
  sort_indices-IsSorted (i ∷ is) =
      IsSorted-insert i (sort_indices keys is) (sort_indices-IsSorted is)

count_below-below : (xs : List ℕ) (v i : ℕ) → i < count_below xs v → get_or xs i 0 < v
unfolding count_below
count_below-below [] v i h = elim h [ ]
count_below-below (x ∷ xs) v zero h = ground arith
count_below-below (x ∷ xs) v (suc i) h = ground (arith, count_below-below xs v i)

count_below-above :
    (xs : List ℕ) (v i : ℕ) → IsSorted xs → i < length xs → count_below xs v ≤ i → v ≤ get_or xs i 0
unfolding count_below
count_below-above [] v i s l h = elim l [ ]
count_below-above (x ∷ xs) v zero s l h = ground arith
count_below-above (x ∷ xs) v (suc i) (low, s) l h = elim (Bool-cases (ltb x v)) [
  | inl t ↦ ground (arith, count_below-above xs v i)
  | inr f ↦
      let up = All-In (λ y. x ≤ y) (get_or xs i 0) xs low (In-get_or xs i 0 (omega arith)) in
      ground arith
]

pub insertion_sort-IsDocumented : IsDocumented insertion_sort
unfolding insertion_sort sort_indices
insertion_sort-IsDocumented = record {
  argsort_in_range = λ keys.
      All-from (λ i. i < length keys) (sort_indices keys (range (length keys)))
        (λ i m. omega (
          arith,
          In-count_from_bounds 0 (length keys) i (In-sort_cases keys (range (length keys)) i m),
        ));
  argsort_complete = λ keys i h.
      In-sort keys (range (length keys)) i
        (In-count_from 0 (length keys) i (omega arith) (omega arith));
  argsort_distinct =
      λ keys. Distinct-sort keys (range (length keys)) (Distinct-count_from 0 (length keys));
  argsort_sorts = λ keys. sort_indices-IsSorted keys (range (length keys));
  searchsorted_below = λ xs v i s l h. count_below-below xs v i h;
  searchsorted_above = λ xs v i s l h. count_below-above xs v i s l h;
}
