-- ===== src/Snapshot.antt =====
-- snapshot.py and viewport.py: the view of a completed tick, and the drones inside a box.
pub mod Visible
use drone_swarm_simulator.Prelude.{
  ℕ, Bool, true, false, ◌&&◌, Option, none, some, List, [], ◌∷◌, length, get_or, replicate, select,
  range, ltb, zero, suc, if◌then◌else◌,
}
use drone_swarm_simulator.Prelude.Int.{ℤ, negsuc}
use drone_swarm_simulator.Prelude.Results.{Result, ◌>>=◌, ◌>>◌}
use drone_swarm_simulator.Numeric.{Floats, Vec3, zeros}
use drone_swarm_simulator.Config.{raise_if}
use drone_swarm_simulator.State.{World, active_indices, num_drones}
use drone_swarm_simulator.Arrays.{gather, scatter_arange}
use drone_swarm_simulator.Collisions.{DetectionResult, no_events}

-- The simulation's name, the metrics and the wall-clock time are handed through and left out.
pub record SimulationSnapshot (F : Type 0) : Type 0 where
  pub tick : ℕ
  pub time_s : F
  pub bounds_min : Vec3 F
  pub bounds_max : Vec3 F
  pub drone_ids : List ℕ
  pub positions : List (Vec3 F)
  pub velocities : List (Vec3 F)
  pub id_to_row : List ℤ
  pub collision_pairs : List (ℕ × ℕ)
  pub collision_distances : List F
  pub near_miss_pairs : List (ℕ × ℕ)
  pub near_miss_distances : List F
  pub num_active_drones : ℕ

-- The last result, or empty lists before any tick has run.
abbrev pub result_or_empty : {F : Type 0} → Option (DetectionResult F) → DetectionResult F
result_or_empty none = no_events 0
result_or_empty (some r) = r

pub record ViewportQuery (F : Type 0) : Type 0 where
  pub x_min : F
  pub x_max : F
  pub y_min : F
  pub y_max : F
  pub z_min : Option F
  pub z_max : Option F

pub data ViewportError : Type 0 where
  x_reversed y_reversed z_reversed : ViewportError

pub record VisibleDroneData (F : Type 0) : Type 0 where
  pub tick : ℕ
  pub drone_ids : List ℕ
  pub positions : List (Vec3 F)
  pub velocities : List (Vec3 F)
  pub total_visible : ℕ
  pub truncated : Bool

-- `xs[:n]`.
abbrev pub take : ℕ → List ℕ → List ℕ
take zero xs = []
take (suc n) [] = []
take (suc n) (x ∷ xs) = x ∷ take n xs

-- The rows that are returned, and whether some were left out.
abbrev pub limited : Option ℕ → List ℕ → List ℕ × Bool
limited none idx = (idx, false)
limited (some limit) idx = if ltb limit (length idx) then (take limit idx, true) else (idx, false)

module _ {F : Type 0} ⦃f : Floats F⦄ where
  -- `build_snapshot`, of the world at this tick and time.
  unfoldable pub build_snapshot :
      World F → ℕ → F → Option (DetectionResult F) → SimulationSnapshot F
  build_snapshot w tick time_s last_result =
      let s = w.state in
      let active = active_indices s in
      let r = result_or_empty last_result in
      record {
        tick = tick;
        time_s = time_s;
        bounds_min = w.config.bounds_min;
        bounds_max = w.config.bounds_max;
        drone_ids = active;
        positions = gather zeros s.positions active;
        velocities = gather zeros s.velocities active;
        id_to_row = scatter_arange (replicate (num_drones s) (negsuc 0)) active 0;
        collision_pairs = r.collision_pairs;
        collision_distances = r.collision_distances;
        near_miss_pairs = r.near_miss_pairs;
        near_miss_distances = r.near_miss_distances;
        num_active_drones = length active;
      }

  abbrev reversed : Option F → Option F → Bool
  reversed (some lo) (some hi) = f.lt hi lo
  reversed _ _ = false

  pub check_viewport : ViewportQuery F → Result ViewportError (Unit {0})
  check_viewport q = do
    raise_if (f.lt q.x_max q.x_min) x_reversed
    raise_if (f.lt q.y_max q.y_min) y_reversed
    raise_if (reversed q.z_min q.z_max) z_reversed

  abbrev pub above : Option F → F → Bool
  above none z = true
  above (some lo) z = f.le lo z

  abbrev pub below : Option F → F → Bool
  below none z = true
  below (some hi) z = f.le z hi

  -- The mask of `find_visible_drones`, for one position.
  abbrev pub in_viewport : ViewportQuery F → Vec3 F → Bool
  in_viewport q p =
      f.le q.x_min p.x
      && (f.le p.x q.x_max
          && (f.le q.y_min p.y && (f.le p.y q.y_max && (above q.z_min p.z && below q.z_max p.z))))

  abbrev pub visible_rows : SimulationSnapshot F → ViewportQuery F → List ℕ
  visible_rows snapshot q =
      select (λ k. in_viewport q (get_or snapshot.positions k zeros))
        (range (length snapshot.positions))

  unfoldable pub find_visible_drones :
      SimulationSnapshot F → ViewportQuery F → Option ℕ → VisibleDroneData F
  find_visible_drones snapshot q limit =
      let rows = visible_rows snapshot q in
      let (idx, cut) = limited limit rows in
      if ltb 0 (length snapshot.positions)
      then record {
        tick = snapshot.tick;
        drone_ids = gather 0 snapshot.drone_ids idx;
        positions = gather zeros snapshot.positions idx;
        velocities = gather zeros snapshot.velocities idx;
        total_visible = length rows;
        truncated = cut;
      }
      else record {
        tick = snapshot.tick;
        drone_ids = [];
        positions = [];
        velocities = [];
        total_visible = 0;
        truncated = false;
      }
