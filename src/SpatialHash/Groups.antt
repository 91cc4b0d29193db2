-- ===== src/SpatialHash/Groups.antt =====
-- The grouping that `build` reads off the sorted keys: where groups begin, their keys and sizes.
use native.Mathlib.Decide.{dec_lt}
use drone_swarm_simulator.Prelude.{
  ℕ, suc, ◌+◌, ◌-◌, ◌≤◌, ◌<◌, List, [], ◌∷◌, map, ◌≡◌, refl, sym, ap, inl, inr, ◌∙◌, arith, length,
  get_or, ◌==◌, ==_iff, Bool-cases, if◌then◌else◌,
}
use drone_swarm_simulator.Prelude.Members.{In, All, All-In, All-from, Distinct, In-map_cases}
use drone_swarm_simulator.State.{nonzero_from}
use drone_swarm_simulator.Arrays.{changes, diff_append, IsSorted}

pub record Group : Type 0 where
  pub key : ℕ
  pub start : ℕ
  pub count : ℕ

abbrev group : ℕ → ℕ → ℕ → Group
group k s c = record { key = k; start = s; count = c }

-- The groups of the entries from `i` on, where the group of `k` is open since `s`.
pub groups : ℕ → ℕ → ℕ → List ℕ → List Group
groups k s i [] = group k s (i - s) ∷ []
groups k s i (x ∷ xs) =
    let same = groups x s (suc i) xs in
    let next = groups x i (suc i) xs in if x == k then same else group k s (i - s) ∷ next

pub starts-groups :
    (k s i : ℕ) (xs : List ℕ)
    → map (λ r. r.start) (groups k s i xs) ≡ s ∷ nonzero_from i (changes k xs)
unfolding groups
starts-groups k s i [] = refl
starts-groups k s i (x ∷ xs) = elim (Bool-cases (x == k)) [
  | inl e ↦ rw (e, starts-groups x s (suc i) xs)
  | inr e ↦ rw (e, starts-groups x i (suc i) xs)
]

pub counts-groups :
    (k s i n : ℕ) (xs : List ℕ)
    → n ≡ i + length xs
    → diff_append (s ∷ nonzero_from i (changes k xs)) n ≡ map (λ r. r.count) (groups k s i xs)
unfolding groups
counts-groups k s i n [] h = rw (h) (ap (λ c. (c - s) ∷ []) (omega arith))
counts-groups k s i n (x ∷ xs) h = elim (Bool-cases (x == k)) [
  | inl e ↦ rw e (counts-groups x s (suc i) n xs (omega arith))
  | inr e ↦ rw e (ap (◌∷◌ (i - s)) (counts-groups x i (suc i) n xs (omega arith)))
]

-- `key_at` reads the whole array of sorted keys, of which `xs` is the part from `i` on.
module _ (key_at : ℕ → ℕ) where
  abbrev pub Reads : ℕ → List ℕ → Type 0
  Reads i xs = (t : ℕ) → t < length xs → key_at (i + t) ≡ get_or xs t 0

  Reads-tail : (i x : ℕ) (xs : List ℕ) → Reads i (x ∷ xs) → Reads (suc i) xs
  Reads-tail i x xs r t h =
      ap key_at (let e : suc i + t ≡ i + suc t = omega arith in e) ∙ r (suc t) (omega arith)

  Reads-head : (i x : ℕ) (xs : List ℕ) → Reads i (x ∷ xs) → key_at i ≡ x
  Reads-head i x xs r = ap key_at (let e : i ≡ i + 0 = omega arith in e) ∙ r 0 (omega arith)

  pub keys-groups :
      (k s i : ℕ) (xs : List ℕ)
      → Reads i xs
      → key_at s ≡ k
      → map key_at (s ∷ nonzero_from i (changes k xs)) ≡ map (λ r. r.key) (groups k s i xs)
  unfolding groups
  keys-groups k s i [] r h = rw h
  keys-groups k s i (x ∷ xs) r h = elim (Bool-cases (x == k)) [
    | inl e ↦ rw e (keys-groups x s (suc i) xs (Reads-tail i x xs r) (h ∙ sym ((==_iff x k).0 e)))
    | inr e ↦
        rw (e, h)
          (ap (◌∷◌ k) (keys-groups x i (suc i) xs (Reads-tail i x xs r) (Reads-head i x xs r)))
  ]

  -- Every entry of the group has its key.
  abbrev pub IsGroup : Group → Type 0
  IsGroup r = (t : ℕ) → r.start ≤ t → t < r.start + r.count → key_at t ≡ r.key

  pub groups-IsGroup :
      (k s i : ℕ) (xs : List ℕ)
      → Reads i xs
      → ((t : ℕ) → s ≤ t → t < i → key_at t ≡ k)
      → All IsGroup (groups k s i xs)
  unfolding groups
  groups-IsGroup k s i [] r h = ((λ t lo hi. h t lo (omega arith)), tt)
  groups-IsGroup k s i (x ∷ xs) r h = elim (Bool-cases (x == k)) [
    | inl e ↦
        let same : x ≡ k = (==_iff x k).0 e in
        rw e (
          groups-IsGroup x s (suc i) xs (Reads-tail i x xs r) λ t lo hi. elim (dec_lt t i) [
            | yes before ↦ h t lo before ∙ sym same
            | no last ↦ ap key_at (let at : t ≡ i = omega arith in at) ∙ Reads-head i x xs r
          ])
    | inr e ↦ rw e (
      (λ t lo hi. h t lo (omega arith)),
      groups-IsGroup x i (suc i) xs (Reads-tail i x xs r)
          (λ t lo hi. ap key_at (let at : t ≡ i = omega arith in at) ∙ Reads-head i x xs r),
    )
  ]

-- The group that holds an entry.
pub groups_cover :
    (k s i t : ℕ) (xs : List ℕ)
    → s ≤ t
    → t < i + length xs
    → s ≤ i
    → (r : Group) × In r (groups k s i xs) × (r.start ≤ t) × (t < r.start + r.count)
unfolding groups
groups_cover k s i t [] lo hi open_at = (group k s (i - s), inl refl, lo, omega arith)
groups_cover k s i t (x ∷ xs) lo hi open_at = elim (Bool-cases (x == k)) [
  | inl e ↦ rw e (groups_cover x s (suc i) t xs lo (omega arith) (omega arith))
  | inr e ↦ rw e (elim (dec_lt t i) [
    | yes before ↦ (group k s (i - s), inl refl, lo, omega arith)
    | no after ↦
        let (r, m, a, b) =
          groups_cover x i (suc i) t xs (omega arith) (omega arith) (omega arith) in
        (r, inr m, a, b)
  ])
]

pub groups_end :
    (k s i n : ℕ) (xs : List ℕ)
    → s ≤ i
    → n ≡ i + length xs
    → All (λ r. r.start + r.count ≤ n) (groups k s i xs)
unfolding groups
groups_end k s i n [] h e = (omega arith, tt)
groups_end k s i n (x ∷ xs) h e = elim (Bool-cases (x == k)) [
  | inl q ↦ rw q (groups_end x s (suc i) n xs (omega arith) (omega arith))
  | inr q ↦ rw q (omega arith, groups_end x i (suc i) n xs (omega arith) (omega arith))
]

pub groups_nonempty : (k s i : ℕ) (xs : List ℕ) → s < i → All (λ r. 0 < r.count) (groups k s i xs)
unfolding groups
groups_nonempty k s i [] h = (omega arith, tt)
groups_nonempty k s i (x ∷ xs) h = elim (Bool-cases (x == k)) [
  | inl q ↦ rw q (groups_nonempty x s (suc i) xs (omega arith))
  | inr q ↦ rw q (omega arith, groups_nonempty x i (suc i) xs (omega arith))
]

-- Strictly ascending, hence without repetition.
abbrev pub IsAscending : List ℕ → Type 0
IsAscending [] = Unit
IsAscending (x ∷ xs) = All (λ y. x < y) xs × IsAscending xs

pub IsAscending-IsSorted : (xs : List ℕ) → IsAscending xs → IsSorted xs
IsAscending-IsSorted [] h = tt
IsAscending-IsSorted (x ∷ xs) h = (
  All-from (λ y. x ≤ y) xs (λ a m. let lt = All-In (λ y. x < y) a xs h.0 m in omega arith),
  IsAscending-IsSorted xs h.1,
)

pub IsAscending-Distinct : (xs : List ℕ) → IsAscending xs → Distinct xs
IsAscending-Distinct [] h = tt
IsAscending-Distinct (x ∷ xs) h = (
  λ m. let lt = All-In (λ y. x < y) x xs h.0 m in absurd (omega arith),
  IsAscending-Distinct xs h.1,
)

groups_from : (k s i : ℕ) (xs : List ℕ) → IsSorted (k ∷ xs) → All (λ r. k ≤ r.key) (groups k s i xs)
unfolding groups
groups_from k s i [] h = (omega arith, tt)
groups_from k s i (x ∷ xs) h =
    let rest = λ (j : ℕ).
      All-from (λ r. k ≤ r.key) (groups x j (suc i) xs)
        (λ a m.
          let le =
            All-In (λ r. x ≤ r.key) a (groups x j (suc i) xs) (groups_from x j (suc i) xs h.1) m in
          let le' = h.0.0 in omega arith) in
    elim (Bool-cases (x == k)) [ inl q ↦ rw q (rest s) | inr q ↦ rw q (omega arith, rest i) ]

pub groups_ascend :
    (k s i : ℕ) (xs : List ℕ) → IsSorted (k ∷ xs) → IsAscending (map (λ r. r.key) (groups k s i xs))
unfolding groups
groups_ascend k s i [] h = (tt, tt)
groups_ascend k s i (x ∷ xs) h = elim (Bool-cases (x == k)) [
  | inl q ↦ rw q (groups_ascend x s (suc i) xs h.1)
  | inr q ↦ rw q (
    All-from (λ y. k < y) (map (λ r. r.key) (groups x i (suc i) xs))
        (λ y m.
          let (r, m', e) = In-map_cases (λ r. r.key) y (groups x i (suc i) xs) m in
          let le =
            All-In (λ r. x ≤ r.key) r (groups x i (suc i) xs) (groups_from x i (suc i) xs h.1) m' in
          let le' = h.0.0 in ground (arith)),
    groups_ascend x i (suc i) xs h.1,
  )
]
