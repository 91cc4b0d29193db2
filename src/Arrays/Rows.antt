-- ===== src/Arrays/Rows.antt =====
-- The assignment of rows to the entries of an index array, and what it leaves alone.
use drone_swarm_simulator.Prelude.{
  ℕ, ◌<◌, List, [], ◌∷◌, map, ◌≡◌, ◌⊎◌, inl, inr, refl, sym, subst, ◌∙◌, arith, length, get_or, set,
  length-set, get_or-set_self, get_or-set_ne,
}
use native.Mathlib.Decide.{ℕ_discrete}
use drone_swarm_simulator.Prelude.Members.{In, All}

module _ {A : Type 0} where
  -- `xs[indices] = rows`.
  abbrev pub set_rows : List A → List ℕ → List A → List A
  set_rows xs [] rows = xs
  set_rows xs (k ∷ ks) [] = xs
  set_rows xs (k ∷ ks) (r ∷ rows) = set_rows (set xs k r) ks rows

  pub length-set_rows :
      (xs : List A) (ks : List ℕ) (rows : List A) → length (set_rows xs ks rows) ≡ length xs
  length-set_rows xs [] rows = refl
  length-set_rows xs (k ∷ ks) [] = refl
  length-set_rows xs (k ∷ ks) (r ∷ rows) = length-set_rows (set xs k r) ks rows ∙ length-set xs k r

  pub set_rows-apart :
      (xs : List A) (ks : List ℕ) (rows : List A) (j : ℕ) (d : A)
      → ¬ (In j ks)
      → get_or (set_rows xs ks rows) j d ≡ get_or xs j d
  set_rows-apart xs [] rows j d h = refl
  set_rows-apart xs (k ∷ ks) [] j d h = refl
  set_rows-apart xs (k ∷ ks) (r ∷ rows) j d h =
      set_rows-apart (set xs k r) ks rows j d (λ m. h (inr m))
      ∙ get_or-set_ne xs k j r d (λ e. h (inl (sym e)))

  -- The entry `j` has the property already, or it is set.
  set_rows-All_from :
      (P : A → Type 0) (xs : List A) (ks : List ℕ) (rows : List A) (j : ℕ) (d : A)
      → j < length xs
      → length ks ≡ length rows
      → All P rows
      → P (get_or xs j d) ⊎ In j ks
      → P (get_or (set_rows xs ks rows) j d)
  set_rows-All_from P xs [] rows j d h l a (inl p) = p
  set_rows-All_from P xs [] rows j d h l a (inr m) = absurd m
  set_rows-All_from P xs (k ∷ ks) [] j d h l a c = absurd (omega arith)
  set_rows-All_from P xs (k ∷ ks) (r ∷ rows) j d h l (pr, a) c =
      let h' : j < length (set xs k r) = omega (arith, length-set xs k r) in
      set_rows-All_from P (set xs k r) ks rows j d h' (omega arith) a (elim (ℕ_discrete k j) [
        | yes e ↦ inl (
            subst P
              (sym (
                subst (λ t. get_or (set xs k r) t d ≡ r) e
                  (get_or-set_self xs k r d (subst (λ t. t < length xs) (sym e) h))))
              pr)
        | no ne ↦ elim c [
          | inl p ↦ inl (subst P (sym (get_or-set_ne xs k j r d ne)) p)
          | inr (inl e) ↦ absurd (ne (sym e))
          | inr (inr m) ↦ inr m
        ]
      ])

  -- What holds of every row holds of every entry that is set.
  pub set_rows-All :
      (P : A → Type 0) (xs : List A) (ks : List ℕ) (rows : List A) (j : ℕ) (d : A)
      → j < length xs
      → length ks ≡ length rows
      → All P rows
      → In j ks
      → P (get_or (set_rows xs ks rows) j d)
  set_rows-All P xs ks rows j d h l a m = set_rows-All_from P xs ks rows j d h l a (inr m)

  -- The entry is the row of its index already, or it is set.
  pub set_rows-map_from :
      (xs : List A) (ks : List ℕ) (g : ℕ → A) (j : ℕ) (d : A)
      → j < length xs
      → (get_or xs j d ≡ g j) ⊎ In j ks
      → get_or (set_rows xs ks (map g ks)) j d ≡ g j
  set_rows-map_from xs [] g j d h (inl e) = e
  set_rows-map_from xs [] g j d h (inr m) = absurd m
  set_rows-map_from xs (k ∷ ks) g j d h c =
      let h' : j < length (set xs k (g k)) = omega (arith, length-set xs k (g k)) in
      set_rows-map_from (set xs k (g k)) ks g j d h' (elim (ℕ_discrete k j) [
        | yes e ↦ inl (
            subst (λ t. get_or (set xs k (g k)) t d ≡ g t) e
              (get_or-set_self xs k (g k) d (subst (λ t. t < length xs) (sym e) h)))
        | no ne ↦ elim c [
          | inl p ↦ inl (get_or-set_ne xs k j (g k) d ne ∙ p)
          | inr (inl e) ↦ absurd (ne (sym e))
          | inr (inr m) ↦ inr m
        ]
      ])

  -- A row that is computed from its index stands at that index.
  pub set_rows-map :
      (xs : List A) (ks : List ℕ) (g : ℕ → A) (j : ℕ) (d : A)
      → j < length xs
      → In j ks
      → get_or (set_rows xs ks (map g ks)) j d ≡ g j
  set_rows-map xs ks g j d h m = set_rows-map_from xs ks g j d h (inr m)

  -- Rows at indices that are both computed from entries of a list: an entry is as it was, or it is
  -- the row of some entry with its index.
  pub set_rows-source :
      (xs : List A) (gs : List ℕ) (at : ℕ → ℕ) (row : ℕ → A) (j : ℕ) (d : A)
      → j < length xs
      → (¬ (In j (map at gs)) × (get_or (set_rows xs (map at gs) (map row gs)) j d ≡ get_or xs j d))
        ⊎ ((g : ℕ) × In g gs
            × (at g ≡ j)
            × (get_or (set_rows xs (map at gs) (map row gs)) j d ≡ row g))
  set_rows-source xs [] at row j d h = inl (λ m. m, refl)
  set_rows-source xs (g ∷ gs) at row j d h =
      let h' : j < length (set xs (at g) (row g)) = omega (arith, length-set xs (at g) (row g)) in
      elim (set_rows-source (set xs (at g) (row g)) gs at row j d h') [
        | inr (g', m, e, v) ↦ inr (g', inr m, e, v)
        | inl (n, v) ↦ elim (ℕ_discrete (at g) j) [
          | yes e ↦ inr (
            g,
            inl refl,
            e,
            v
                ∙ subst (λ t. get_or (set xs (at g) (row g)) t d ≡ row g) e
                    (get_or-set_self xs (at g) (row g) d (subst (λ t. t < length xs) (sym e) h)),
          )
          | no ne ↦ inl (
            λ m. elim m [ inl e ↦ ne (sym e) | inr r ↦ n r ],
            v ∙ get_or-set_ne xs (at g) j (row g) d ne,
          )
        ]
      ]
