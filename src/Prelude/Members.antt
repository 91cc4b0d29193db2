-- ===== src/Prelude/Members.antt =====
-- Membership by recursion, which the tactics split, and its laws for the list functions in use.
use Prim.Native.Nat.{ℕ, zero, suc, ◌+◌, ◌≤◌, ◌<◌}
use mathlib.Core.Path.{◌≡◌, refl, sym, ap, subst}
use mathlib.Core.Logic.{◌⊎◌, inl, inr}
use mathlib.Core.Bool.{Bool, true}
use mathlib.Core.List.{List, [], ◌∷◌, ◌++◌, map}
use native.Mathlib.Omega.{arith}
use native.Mathlib.Decide.{ℕ_discrete}
use drone_swarm_simulator.Prelude.Tests.{Bool-cases}
use drone_swarm_simulator.Prelude.Lists.{length, get_or, select, flat_map, count_from}

-- The data of the program stands in `Type 0`, and so do these lists.
module _ {A : Type 0} where
  -- `a` is an entry of the list.
  abbrev pub In : A → List A → Type 0
  In a [] = ⊥
  In a (x ∷ xs) = (a ≡ x) ⊎ In a xs

  -- Every entry has the property.
  abbrev pub All {κ} : (A → Type κ) → List A → Type κ
  All P [] = Unit
  All P (x ∷ xs) = P x × All P xs

  -- No entry stands twice.
  abbrev pub Distinct : List A → Type 0
  Distinct [] = Unit
  Distinct (x ∷ xs) = ¬ (In x xs) × Distinct xs

  pub All-In {κ} : (P : A → Type κ) (a : A) (xs : List A) → All P xs → In a xs → P a
  All-In P a [] h m = absurd m
  All-In P a (x ∷ xs) h (inl e) = subst P (sym e) h.0
  All-In P a (x ∷ xs) h (inr m) = All-In P a xs h.1 m

  pub All-from {κ} : (P : A → Type κ) (xs : List A) → ((a : A) → In a xs → P a) → All P xs
  All-from P [] f = tt
  All-from P (x ∷ xs) f = (f x (inl refl), All-from P xs (λ a m. f a (inr m)))

  pub All-append {κ} : (P : A → Type κ) (xs ys : List A) → All P xs → All P ys → All P (xs ++ ys)
  All-append P [] ys h k = k
  All-append P (x ∷ xs) ys h k = (h.0, All-append P xs ys h.1 k)

  pub In-append_left : (a : A) (xs ys : List A) → In a xs → In a (xs ++ ys)
  In-append_left a [] ys m = absurd m
  In-append_left a (x ∷ xs) ys (inl e) = inl e
  In-append_left a (x ∷ xs) ys (inr m) = inr (In-append_left a xs ys m)

  pub In-append_right : (a : A) (xs ys : List A) → In a ys → In a (xs ++ ys)
  In-append_right a [] ys m = m
  In-append_right a (x ∷ xs) ys m = inr (In-append_right a xs ys m)

  pub In-append_cases : (a : A) (xs ys : List A) → In a (xs ++ ys) → In a xs ⊎ In a ys
  In-append_cases a [] ys m = inr m
  In-append_cases a (x ∷ xs) ys (inl e) = inl (inl e)
  In-append_cases a (x ∷ xs) ys (inr m) = elim (In-append_cases a xs ys m) [
    | inl l ↦ inl (inr l)
    | inr r ↦ inr r
  ]

  pub In-select : (p : A → Bool) (a : A) (xs : List A) → In a xs → p a ≡ true → In a (select p xs)
  In-select p a [] m h = absurd m
  In-select p a (x ∷ xs) (inl e) h = rw (← e, h) (inl refl)
  In-select p a (x ∷ xs) (inr m) h =
      let rest = In-select p a xs m h in
      elim (Bool-cases (p x)) [ inl t ↦ rw t (inr rest) | inr f ↦ rw f rest ]

  pub In-select_cases :
      (p : A → Bool) (a : A) (xs : List A) → In a (select p xs) → In a xs × (p a ≡ true)
  In-select_cases p a [] m = absurd m
  In-select_cases p a (x ∷ xs) m = elim (Bool-cases (p x)) [
    | inl t ↦ elim (let m' : In a (x ∷ select p xs) = rw t at m in m') [
      | inl e ↦ (inl e, rw e t)
      | inr r ↦ let (r', h) = In-select_cases p a xs r in (inr r', h)
    ]
    | inr f ↦
        let m' : In a (select p xs) = rw f at m in
        let (r', h) = In-select_cases p a xs m' in (inr r', h)
  ]

  pub Distinct-select : (p : A → Bool) (xs : List A) → Distinct xs → Distinct (select p xs)
  Distinct-select p [] h = tt
  Distinct-select p (x ∷ xs) (fresh, h) = elim (Bool-cases (p x)) [
    | inl t ↦ rw t ((λ m. fresh (In-select_cases p x xs m).0), Distinct-select p xs h)
    | inr f ↦ rw f (Distinct-select p xs h)
  ]

  pub Distinct-append :
      (xs ys : List A)
      → Distinct xs
      → Distinct ys
      → ((a : A) → In a xs → In a ys → ⊥)
      → Distinct (xs ++ ys)
  Distinct-append [] ys h k apart = k
  Distinct-append (x ∷ xs) ys (fresh, h) k apart = (
    λ m. elim (In-append_cases x xs ys m) [ inl l ↦ fresh l | inr r ↦ apart x (inl refl) r ],
    Distinct-append xs ys h k (λ a l r. apart a (inr l) r),
  )

  pub In-get_or : (xs : List A) (i : ℕ) (d : A) → i < length xs → In (get_or xs i d) xs
  In-get_or [] i d h = elim h [ ]
  In-get_or (x ∷ xs) zero d h = inl refl
  In-get_or (x ∷ xs) (suc i) d h = inr (In-get_or xs i d (omega arith))

  -- The place of an entry.
  pub In-index : (a d : A) (xs : List A) → In a xs → (i : ℕ) × (i < length xs) × (get_or xs i d ≡ a)
  In-index a d [] m = absurd m
  In-index a d (x ∷ xs) (inl e) = (0, omega arith, sym e)
  In-index a d (x ∷ xs) (inr m) = let (i, lt, e) = In-index a d xs m in (suc i, omega arith, e)

  pub Distinct-index :
      (xs : List A) (d : A) (i j : ℕ)
      → Distinct xs
      → i < length xs
      → j < length xs
      → get_or xs i d ≡ get_or xs j d
      → i ≡ j
  Distinct-index [] d i j h li lj e = elim li [ ]
  Distinct-index (x ∷ xs) d zero zero h li lj e = refl
  Distinct-index (x ∷ xs) d zero (suc j) h li lj e =
      absurd (h.0 (subst (λ a. In a xs) (sym e) (In-get_or xs j d (omega arith))))
  Distinct-index (x ∷ xs) d (suc i) zero h li lj e =
      absurd (h.0 (subst (λ a. In a xs) e (In-get_or xs i d (omega arith))))
  Distinct-index (x ∷ xs) d (suc i) (suc j) h li lj e =
      ap suc (Distinct-index xs d i j h.1 (omega arith) (omega arith) e)

module _ {A B : Type 0} where
  pub In-map : (f : A → B) (a : A) (xs : List A) → In a xs → In (f a) (map f xs)
  In-map f a [] m = absurd m
  In-map f a (x ∷ xs) (inl e) = inl (ap f e)
  In-map f a (x ∷ xs) (inr m) = inr (In-map f a xs m)

  pub In-map_cases :
      (f : A → B) (b : B) (xs : List A) → In b (map f xs) → (a : A) × In a xs × (b ≡ f a)
  In-map_cases f b [] m = absurd m
  In-map_cases f b (x ∷ xs) (inl e) = (x, inl refl, e)
  In-map_cases f b (x ∷ xs) (inr m) = let (a, m', e) = In-map_cases f b xs m in (a, inr m', e)

  pub In-flat_map :
      (f : A → List B) (a : A) (b : B) (xs : List A) → In a xs → In b (f a) → In b (flat_map f xs)
  In-flat_map f a b [] m h = absurd m
  In-flat_map f a b (x ∷ xs) (inl e) h =
      In-append_left b (f x) (flat_map f xs) (subst (λ y. In b (f y)) e h)
  In-flat_map f a b (x ∷ xs) (inr m) h =
      In-append_right b (f x) (flat_map f xs) (In-flat_map f a b xs m h)

  pub In-flat_map_cases :
      (f : A → List B) (b : B) (xs : List A) → In b (flat_map f xs) → (a : A) × In a xs × In b (f a)
  In-flat_map_cases f b [] m = absurd m
  In-flat_map_cases f b (x ∷ xs) m = elim (In-append_cases b (f x) (flat_map f xs) m) [
    | inl l ↦ (x, inl refl, l)
    | inr r ↦ let (a, m', h) = In-flat_map_cases f b xs r in (a, inr m', h)
  ]

  pub Distinct-map :
      (f : A → B) (xs : List A)
      → ((a b : A) → In a xs → In b xs → f a ≡ f b → a ≡ b)
      → Distinct xs
      → Distinct (map f xs)
  Distinct-map f [] inj h = tt
  Distinct-map f (x ∷ xs) inj (fresh, h) = (
    λ m.
        let (a, m', e) = In-map_cases f (f x) xs m in
        fresh (subst (λ y. In y xs) (sym (inj x a (inl refl) (inr m') e)) m'),
    Distinct-map f xs (λ a b ma mb. inj a b (inr ma) (inr mb)) h,
  )

  -- Lists without repetition that share no entry make one such list.
  pub Distinct-flat_map :
      (f : A → List B) (xs : List A)
      → Distinct xs
      → ((a : A) → In a xs → Distinct (f a))
      → ((a c : A) (b : B) → In a xs → In c xs → In b (f a) → In b (f c) → a ≡ c)
      → Distinct (flat_map f xs)
  Distinct-flat_map f [] h each apart = tt
  Distinct-flat_map f (x ∷ xs) (fresh, h) each apart =
      Distinct-append (f x) (flat_map f xs) (each x (inl refl))
        (Distinct-flat_map f xs h (λ a m. each a (inr m))
          (λ a c b ma mc. apart a c b (inr ma) (inr mc)))
        (λ b l r.
          let (a, m, h') = In-flat_map_cases f b xs r in
          fresh (subst (λ y. In y xs) (sym (apart x a b (inl refl) (inr m) l h')) m))

pub In-count_from : (i n k : ℕ) → i ≤ k → k < i + n → In k (count_from i n)
In-count_from i zero k lo hi = absurd (omega arith)
In-count_from i (suc n) k lo hi = elim (ℕ_discrete k i) [
  | yes e ↦ inl e
  | no ne ↦ inr (In-count_from (suc i) n k (omega arith) (omega arith))
]

pub In-count_from_bounds : (i n k : ℕ) → In k (count_from i n) → (i ≤ k) × (k < i + n)
In-count_from_bounds i zero k m = absurd m
In-count_from_bounds i (suc n) k (inl e) = omega arith
In-count_from_bounds i (suc n) k (inr m) = let h = In-count_from_bounds (suc i) n k m in omega arith

pub Distinct-count_from : (i n : ℕ) → Distinct (count_from i n)
Distinct-count_from i zero = tt
Distinct-count_from i (suc n) = (
  λ m. absurd (let h = In-count_from_bounds (suc i) n i m in omega arith),
  Distinct-count_from (suc i) n,
)
