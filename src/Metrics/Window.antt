-- ===== src/Metrics/Window.antt =====
-- The running metrics agree with the whole history, in a window of fixed length.
use drone_swarm_simulator.Prelude.{
  ℕ, zero, suc, ◌+◌, ◌-◌, ◌≤◌, Option, none, some, List, [], ◌∷◌, ◌++◌, map, ◌≡◌, refl, sym, ap,
  subst, ◌∙◌, arith, length, length-append, append_nil, append_assoc, map-append, ltb, true, false,
}
use drone_swarm_simulator.Numeric.{Floats}
use drone_swarm_simulator.Arrays.{sum}
use drone_swarm_simulator.Metrics.{
  TickMetrics, RunningMetrics, Reductions, Summary, record_all, record_running, new_running,
  running_summary, summary, append_bounded, drop, recent_window, ms_of, candidates_of,
  collisions_of, near_misses_of,
}

length-drop : {A : Type 0} → (n : ℕ) (xs : List A) → length (drop n xs) ≡ length xs - n
length-drop zero xs = omega arith
length-drop (suc n) [] = omega arith
length-drop (suc n) (x ∷ xs) = omega (arith, length-drop n xs)

drop-nil : {A : Type 0} → (n : ℕ) → drop {A = A} n [] ≡ []
drop-nil zero = refl
drop-nil (suc n) = refl

-- Dropping from what was dropped already.
drop-add : {A : Type 0} → (m n : ℕ) (xs : List A) → drop n (drop m xs) ≡ drop (m + n) xs
drop-add zero n xs = ap (λ k. drop k xs) (omega arith)
drop-add (suc m) n [] = drop-nil n ∙ sym (drop-nil (suc m + n))
drop-add (suc m) n (x ∷ xs) =
    let e : suc (m + n) ≡ suc m + n = omega arith in drop-add m n xs ∙ ap (λ k. drop k (x ∷ xs)) e

drop-append :
    {A : Type 0} → (n : ℕ) (xs ys : List A) → n ≤ length xs → drop n xs ++ ys ≡ drop n (xs ++ ys)
drop-append zero xs ys h = refl
drop-append (suc n) [] ys h = absurd (omega arith)
drop-append (suc n) (x ∷ xs) ys h = drop-append n xs ys (omega arith)

sum-append : (xs : List ℕ) (x : ℕ) → sum (xs ++ x ∷ []) ≡ sum xs + x
sum-append [] x = omega arith
sum-append (y ∷ ys) x = omega (arith, sum-append ys x)

-- The last entries, at most `n` of them.
abbrev pub last_entries : {A : Type 0} → ℕ → List A → List A
last_entries n xs = drop (length xs - n) xs

append_bounded-last :
    {A : Type 0}
    → (n : ℕ) (xs : List A) (x : A)
    → append_bounded n (last_entries n xs) x ≡ last_entries n (xs ++ x ∷ [])
append_bounded-last n xs x =
    let k = length xs - n in
    let kept : drop k xs ++ x ∷ [] ≡ drop k (xs ++ x ∷ []) =
      drop-append k xs (x ∷ []) (omega arith) in
    let same : k + (length (drop k (xs ++ x ∷ [])) - n) ≡ length (xs ++ x ∷ []) - n =
      omega (arith, length-drop k (xs ++ x ∷ []), length-append xs (x ∷ [])) in
    ap (λ ys. drop (length ys - n) ys) kept
    ∙ drop-add k (length (drop k (xs ++ x ∷ [])) - n) (xs ++ x ∷ [])
    ∙ ap (λ j. drop j (xs ++ x ∷ [])) same

module _ {F : Type 0} ⦃f : Floats F⦄ where
  -- The running metrics of the history `ticks`.
  pub record IsRunning (ticks : List (TickMetrics F)) (m : RunningMetrics F) : Type 0 where
    pub num_ticks : m.num_ticks ≡ length ticks
    pub candidate_pairs : m.total_candidate_pairs ≡ sum (map candidates_of ticks)
    pub collisions : m.total_collisions ≡ sum (map collisions_of ticks)
    pub near_misses : m.total_near_misses ≡ sum (map near_misses_of ticks)
    pub window : m.recent_tick_times_ms ≡ last_entries recent_window (map ms_of ticks)
    pub window_bound : length m.recent_tick_times_ms ≤ recent_window

  total-recorded :
      (g : TickMetrics F → ℕ) (ticks : List (TickMetrics F)) (tm : TickMetrics F) (n : ℕ)
      → n ≡ sum (map g ticks)
      → n + g tm ≡ sum (map g (ticks ++ tm ∷ []))
  total-recorded g ticks tm n e =
      ap (λ k. k + g tm) e
      ∙ sym (sum-append (map g ticks) (g tm))
      ∙ ap sum (sym (map-append g ticks (tm ∷ [])))

  record_running-IsRunning :
      (ticks : List (TickMetrics F)) (m : RunningMetrics F) (tm : TickMetrics F)
      → IsRunning ticks m
      → IsRunning (ticks ++ tm ∷ []) (record_running m tm)
  unfolding record_running
  record_running-IsRunning ticks m tm h = record {
    num_ticks = omega (arith, h.num_ticks, length-append ticks (tm ∷ []));
    candidate_pairs =
        total-recorded candidates_of ticks tm m.total_candidate_pairs h.candidate_pairs;
    collisions = total-recorded collisions_of ticks tm m.total_collisions h.collisions;
    near_misses = total-recorded near_misses_of ticks tm m.total_near_misses h.near_misses;
    window =
        ap (λ w. append_bounded recent_window w (ms_of tm)) h.window
        ∙ append_bounded-last recent_window (map ms_of ticks) (ms_of tm)
        ∙ ap (last_entries recent_window) (sym (map-append ms_of ticks (tm ∷ [])));
    window_bound = omega (
      arith,
      length-drop (length (m.recent_tick_times_ms ++ ms_of tm ∷ []) - recent_window)
          (m.recent_tick_times_ms ++ ms_of tm ∷ []),
    );
  }

  record_all_from :
      (before ticks : List (TickMetrics F)) (m : RunningMetrics F)
      → IsRunning before m
      → IsRunning (before ++ ticks) (record_all m ticks)
  unfolding record_all
  record_all_from before [] m h = subst (λ ts. IsRunning ts m) (sym (append_nil before)) h
  record_all_from before (tm ∷ rest) m h =
      subst (λ ts. IsRunning ts (record_all (record_running m tm) rest))
        (append_assoc before (tm ∷ []) rest)
        (record_all_from (before ++ tm ∷ []) rest (record_running m tm)
          (record_running-IsRunning before m tm h))

  -- After any number of recorded ticks the running metrics hold their number and the sums of
  -- candidate pairs, collisions and near misses, and a window that holds at most 200 tick times,
  -- the last ones of the history.
  pub record_all-IsRunning :
      (np : Reductions F) (ticks : List (TickMetrics F))
      → IsRunning ticks (record_all (new_running np) ticks)
  unfolding new_running
  record_all-IsRunning np ticks = record_all_from [] ticks (new_running np) (record {
    num_ticks = refl;
    candidate_pairs = refl;
    collisions = refl;
    near_misses = refl;
    window = refl;
    window_bound = omega arith;
  })

  -- Both summaries are empty, or their counts are the same.
  pub record IsSameCounts (a b : Summary F) : Type 0 where
    pub num_ticks : a.num_ticks ≡ b.num_ticks
    pub candidate_pairs : a.total_candidate_pairs ≡ b.total_candidate_pairs
    pub collisions : a.total_collisions ≡ b.total_collisions
    pub near_misses : a.total_near_misses ≡ b.total_near_misses
    pub mean_candidate_pairs : a.mean_candidate_pairs ≡ b.mean_candidate_pairs

  abbrev pub SameCounts : Option (Summary F) → Option (Summary F) → Type 0
  SameCounts none none = Unit
  SameCounts (some a) (some b) = IsSameCounts a b
  SameCounts _ _ = ⊥

  counts-agree :
      (np : Reductions F) (ticks : List (TickMetrics F)) (m : RunningMetrics F)
      → IsRunning ticks m
      → SameCounts (running_summary np m) (summary np ticks)
  unfolding running_summary summary
  counts-agree np [] m h =
      let e : ltb 0 m.num_ticks ≡ false = ground (arith, h.num_ticks) in rw e tt
  counts-agree np (t ∷ ts) m h =
      let e : ltb 0 m.num_ticks ≡ true = ground (arith, h.num_ticks) in
      rw e (record {
        num_ticks = h.num_ticks;
        candidate_pairs = h.candidate_pairs;
        collisions = h.collisions;
        near_misses = h.near_misses;
        mean_candidate_pairs =
            ap (λ k. f.div (f.of_ℕ k) (f.of_ℕ m.num_ticks)) h.candidate_pairs
            ∙ ap (λ k. f.div (f.of_ℕ (sum (map candidates_of (t ∷ ts)))) (f.of_ℕ k)) h.num_ticks;
      })

  -- For every history of ticks the summary of the running metrics is empty exactly when that of
  -- the metrics collector is, and else both have the same number of ticks, the same sums and the
  -- same mean of candidate pairs.
  pub running_summary-agrees :
      (np : Reductions F) (ticks : List (TickMetrics F))
      → SameCounts (running_summary np (record_all (new_running np) ticks)) (summary np ticks)
  running_summary-agrees np ticks =
      counts-agree np ticks (record_all (new_running np) ticks) (record_all-IsRunning np ticks)
