-- ===== src/Metrics.antt =====
-- metrics.py, and the running metrics of runtime.py that a background loop keeps instead of the
-- whole history.
pub mod Window
use drone_swarm_simulator.Prelude.{
  ℕ, zero, suc, ◌+◌, ◌-◌, Option, none, some, List, [], ◌∷◌, ◌++◌, map, length, ltb, if◌then◌else◌,
}
use drone_swarm_simulator.Numeric.{Floats, float_max, float_min}
use drone_swarm_simulator.Arrays.{sum}

pub record TickMetrics (F : Type 0) : Type 0 where
  pub tick : ℕ
  pub tick_time_s : F
  pub candidate_pairs : ℕ
  pub collisions : ℕ
  pub near_misses : ℕ
  pub active_drones : ℕ

-- NumPy's reductions of an array of floating-point numbers, and infinity.
pub record Reductions (F : Type 0) : Type 0 where
  pub total : List F → F
  pub mean : List F → F
  pub median : List F → F
  pub percentile_95 : List F → F
  pub least : List F → F
  pub greatest : List F → F
  pub infinity : F

pub record Summary (F : Type 0) : Type 0 where
  pub num_ticks : ℕ
  pub total_time_s : F
  pub mean_tick_ms : F
  pub median_tick_ms : F
  pub p95_tick_ms : F
  pub min_tick_ms : F
  pub max_tick_ms : F
  pub ticks_per_second : F
  pub mean_candidate_pairs : F
  pub total_candidate_pairs : ℕ
  pub total_collisions : ℕ
  pub total_near_misses : ℕ

abbrev pub candidates_of : {F : Type 0} → TickMetrics F → ℕ
candidates_of tm = tm.candidate_pairs

abbrev pub collisions_of : {F : Type 0} → TickMetrics F → ℕ
collisions_of tm = tm.collisions

abbrev pub near_misses_of : {F : Type 0} → TickMetrics F → ℕ
near_misses_of tm = tm.near_misses

-- `MetricsCollector`: the recorded ticks.
abbrev pub record_tick : {F : Type 0} → List (TickMetrics F) → TickMetrics F → List (TickMetrics F)
record_tick ticks tm = ticks ++ tm ∷ []

abbrev pub reset_metrics : {F : Type 0} → List (TickMetrics F) → List (TickMetrics F)
reset_metrics ticks = []

module _ {F : Type 0} ⦃f : Floats F⦄ where
  abbrev pub to_ms : F → F
  to_ms t = f.mul t (f.of_ℕ 1000)

  abbrev pub time_of : TickMetrics F → F
  time_of tm = tm.tick_time_s

  abbrev pub ms_of : TickMetrics F → F
  ms_of tm = to_ms tm.tick_time_s

  abbrev pub rate : Reductions F → ℕ → F → F
  rate np n total_time =
      if f.lt (f.of_ℕ 0) total_time then f.div (f.of_ℕ n) total_time else np.infinity

  unfoldable pub summary : Reductions F → List (TickMetrics F) → Option (Summary F)
  summary np [] = none
  summary np (t ∷ ts) =
      let ticks = t ∷ ts in
      let times = map time_of ticks in
      let total_time = np.total times in
      some (record {
        num_ticks = length ticks;
        total_time_s = total_time;
        mean_tick_ms = to_ms (np.mean times);
        median_tick_ms = to_ms (np.median times);
        p95_tick_ms = to_ms (np.percentile_95 times);
        min_tick_ms = to_ms (np.least times);
        max_tick_ms = to_ms (np.greatest times);
        ticks_per_second = rate np (length ticks) total_time;
        mean_candidate_pairs =
            f.div (f.of_ℕ (sum (map candidates_of ticks))) (f.of_ℕ (length ticks));
        total_candidate_pairs = sum (map candidates_of ticks);
        total_collisions = sum (map collisions_of ticks);
        total_near_misses = sum (map near_misses_of ticks);
      })

abbrev pub recent_window : ℕ
recent_window = 200

-- `xs[n:]`.
abbrev pub drop : {A : Type 0} → ℕ → List A → List A
drop zero xs = xs
drop (suc n) [] = []
drop (suc n) (x ∷ xs) = drop n xs

-- `append` of a `deque(maxlen=n)`.
abbrev pub append_bounded : {A : Type 0} → ℕ → List A → A → List A
append_bounded n xs x = drop (length (xs ++ x ∷ []) - n) (xs ++ x ∷ [])

pub record RunningMetrics (F : Type 0) : Type 0 where
  pub num_ticks : ℕ
  pub total_time_s : F
  pub total_candidate_pairs : ℕ
  pub total_collisions : ℕ
  pub total_near_misses : ℕ
  pub min_tick_ms : F
  pub max_tick_ms : F
  pub recent_tick_times_ms : List F

module _ {F : Type 0} ⦃f : Floats F⦄ where
  unfoldable pub new_running : Reductions F → RunningMetrics F
  new_running np = record {
    num_ticks = 0;
    total_time_s = f.of_ℕ 0;
    total_candidate_pairs = 0;
    total_collisions = 0;
    total_near_misses = 0;
    min_tick_ms = np.infinity;
    max_tick_ms = f.of_ℕ 0;
    recent_tick_times_ms = [];
  }

  unfoldable pub record_running : RunningMetrics F → TickMetrics F → RunningMetrics F
  record_running m tm = record {
    num_ticks = suc m.num_ticks;
    total_time_s = f.add m.total_time_s tm.tick_time_s;
    total_candidate_pairs = m.total_candidate_pairs + tm.candidate_pairs;
    total_collisions = m.total_collisions + tm.collisions;
    total_near_misses = m.total_near_misses + tm.near_misses;
    min_tick_ms = float_min m.min_tick_ms (ms_of tm);
    max_tick_ms = float_max m.max_tick_ms (ms_of tm);
    recent_tick_times_ms = append_bounded recent_window m.recent_tick_times_ms (ms_of tm);
  }

  -- `record` for each tick of a run.
  unfoldable pub record_all : RunningMetrics F → List (TickMetrics F) → RunningMetrics F
  unfolding record_running
  record_all m [] = m
  record_all m (tm ∷ rest) = record_all (record_running m tm) rest

  unfoldable pub running_summary : Reductions F → RunningMetrics F → Option (Summary F)
  running_summary np m =
      if ltb 0 m.num_ticks
      then some (record {
        num_ticks = m.num_ticks;
        total_time_s = m.total_time_s;
        mean_tick_ms = to_ms (f.div m.total_time_s (f.of_ℕ m.num_ticks));
        median_tick_ms = np.median m.recent_tick_times_ms;
        p95_tick_ms = np.percentile_95 m.recent_tick_times_ms;
        min_tick_ms = m.min_tick_ms;
        max_tick_ms = m.max_tick_ms;
        ticks_per_second = rate np m.num_ticks m.total_time_s;
        mean_candidate_pairs = f.div (f.of_ℕ m.total_candidate_pairs) (f.of_ℕ m.num_ticks);
        total_candidate_pairs = m.total_candidate_pairs;
        total_collisions = m.total_collisions;
        total_near_misses = m.total_near_misses;
      })
      else none
