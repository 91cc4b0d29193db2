-- ===== src/Arrays.antt =====
-- The NumPy array operations that the program uses, as functions on lists with the documented
-- meaning of the elementwise and indexing operations, and the interface of the two routines whose
-- algorithm NumPy chooses, `argsort` and `searchsorted`.
pub mod Sorting
pub mod Rows
use drone_swarm_simulator.Prelude.{
  ℕ, zero, suc, ◌+◌, ◌-◌, ◌≤◌, ◌<◌, Bool, List, [], ◌∷◌, ◌++◌, map, not, length, get_or, set,
  replicate, count_from, ◌==◌,
}
use drone_swarm_simulator.Prelude.Members.{In, All, Distinct}
use drone_swarm_simulator.Prelude.Int.{ℤ, pos}

-- `xs[start : start + n]`, for a slice inside the array.
abbrev pub slice : List ℕ → ℕ → ℕ → List ℕ
slice xs start n = map (λ i. get_or xs i 0) (count_from start n)

-- `xs[indices]`.
abbrev pub gather {ℓ} : {A : Type ℓ} → A → List A → List ℕ → List A
gather d xs indices = map (λ i. get_or xs i d) indices

-- `np.not_equal(xs[1:], xs[:-1])`, for the array that begins with `previous`.
abbrev pub changes : ℕ → List ℕ → List Bool
changes previous [] = []
changes previous (x ∷ xs) = not (x == previous) ∷ changes x xs

-- `np.diff(xs, append=last)`.
abbrev pub diff_append : List ℕ → ℕ → List ℕ
diff_append [] last = []
diff_append (x ∷ []) last = (last - x) ∷ []
diff_append (x ∷ y ∷ ys) last = (y - x) ∷ diff_append (y ∷ ys) last

-- `table[indices] = np.arange(i, ...)`.
abbrev pub scatter_arange : List ℤ → List ℕ → ℕ → List ℤ
scatter_arange table [] i = table
scatter_arange table (k ∷ ks) i = scatter_arange (set table k (pos i)) ks (suc i)

-- The pairs of `np.triu_indices(n, k=1)`, row after row, for the rows from `i` on.
abbrev pub triu_from : ℕ → ℕ → List (ℕ × ℕ)
triu_from i zero = []
triu_from i (suc n) = map (λ j. (i, j)) (count_from (suc i) n) ++ triu_from (suc i) n

abbrev pub triu_indices : ℕ → List (ℕ × ℕ)
triu_indices n = triu_from 0 n

abbrev pub sum : List ℕ → ℕ
sum [] = 0
sum (x ∷ xs) = x + sum xs

-- `np.repeat(np.arange(i, ...), counts)`.
abbrev pub repeat_arange : ℕ → List ℕ → List ℕ
repeat_arange i [] = []
repeat_arange i (c ∷ cs) = replicate c i ++ repeat_arange (suc i) cs

-- `np.cumsum(xs) - xs`, from the sum `acc` of what stands before.
abbrev pub exclusive_cumsum : ℕ → List ℕ → List ℕ
exclusive_cumsum acc [] = []
exclusive_cumsum acc (x ∷ xs) = acc ∷ exclusive_cumsum (acc + x) xs

-- Elementwise operations on two arrays of one length.
abbrev pub zip_with {ℓ} : {A B C : Type ℓ} → (A → B → C) → List A → List B → List C
zip_with f (x ∷ xs) (y ∷ ys) = f x y ∷ zip_with f xs ys
zip_with f _ _ = []

pub record Routines : Type 0 where
  pub argsort : List ℕ → List ℕ
  pub searchsorted : List ℕ → ℕ → ℕ

abbrev pub IsSorted : List ℕ → Type 0
IsSorted [] = Unit
IsSorted (x ∷ xs) = All (λ y. x ≤ y) xs × IsSorted xs

-- NumPy's documentation: `argsort` returns the indices that would sort the array, and
-- `searchsorted` (on the left side) the place at which a value keeps a sorted array sorted, with
-- every smaller entry before it.
pub record IsDocumented (r : Routines) : Type 0 where
  pub argsort_in_range : (keys : List ℕ) → All (λ i. i < length keys) (r.argsort keys)
  pub argsort_complete : (keys : List ℕ) (i : ℕ) → i < length keys → In i (r.argsort keys)
  pub argsort_distinct : (keys : List ℕ) → Distinct (r.argsort keys)
  pub argsort_sorts : (keys : List ℕ) → IsSorted (gather 0 keys (r.argsort keys))
  pub searchsorted_below :
      (xs : List ℕ) (v i : ℕ)
      → IsSorted xs
      → i < length xs
      → i < r.searchsorted xs v
      → get_or xs i 0 < v
  pub searchsorted_above :
      (xs : List ℕ) (v i : ℕ)
      → IsSorted xs
      → i < length xs
      → r.searchsorted xs v ≤ i
      → v ≤ get_or xs i 0
