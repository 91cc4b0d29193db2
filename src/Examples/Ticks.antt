-- ===== src/Examples/Ticks.antt =====
-- A run of a small simulation, its metrics, and a checkpoint in between.
use drone_swarm_simulator.Prelude.{Bool, false, ℕ, true, none, List, [], ◌∷◌, ◌≡◌, refl, get_or}
use drone_swarm_simulator.Prelude.Int.{ℤ, pos, ◌+ℤ◌, ◌-ℤ◌, ◌*ℤ◌}
use drone_swarm_simulator.Prelude.Results.{ok, OnOk}
use drone_swarm_simulator.Numeric.Whole.{whole, whole-IsExact, isqrt, isqrt_below, floor_div}
use drone_swarm_simulator.Config.{SimulationConfig, post_init, IsValid, post_init-IsValid}
use drone_swarm_simulator.State.{DroneState, World}
use drone_swarm_simulator.Arrays.Sorting.{insertion_sort, sort_indices, count_below}
use drone_swarm_simulator.Movement.{scripted_movement}
use drone_swarm_simulator.Movement.Dispatch.{Registry, step_movement, run_policies, integrate}
use drone_swarm_simulator.Boundaries.{apply_boundaries, clamp_positions, bounce_velocities}
use drone_swarm_simulator.SpatialHash.{
  init, build, group_keys, make_lookup, linear_key, cell_coords, candidate_pairs, cross_pairs,
  neighbor, occupied_at,
}
use drone_swarm_simulator.SpatialHash.Offsets.{forward_offsets}
use drone_swarm_simulator.Collisions.{detect, classify, resolve}
use drone_swarm_simulator.Movement.System.{AreLawful}
use drone_swarm_simulator.Movement.Policies.{scripted-IsLawful}
use drone_swarm_simulator.Metrics.{
  TickMetrics, Reductions, record_all, new_running, running_summary, summary,
}
use drone_swarm_simulator.Metrics.Window.{
  IsRunning, SameCounts, record_all-IsRunning, running_summary-agrees,
}
use drone_swarm_simulator.Simulation.{
  Simulation, SimulationEngine, Libraries, engine_step, profiled_step, run, step, advance,
}
use drone_swarm_simulator.Simulation.Stages.{
  IsTicked, engine_step-IsTicked, IsProfile, profiled_step-same, without_profile,
}
use drone_swarm_simulator.Simulation.Ticks.{IsRun, run-IsRun, with_metrics, without_metrics}
use drone_swarm_simulator.Checkpoint.Files.{archive, archive_of, load_checkpoint, missing, corrupt}
use drone_swarm_simulator.Checkpoint.Resume.{IsCoherent, load-save, resume-same}
use drone_swarm_simulator.Checkpoint.Saving.{
  Directory, Call, writes, save_checkpoint, IsAtomic, save_checkpoint-IsAtomic,
}
use drone_swarm_simulator.Examples.Setting.{at, small_world}
use drone_swarm_simulator.Examples.Policies.{sorts}

abbrev pub pair_world : SimulationConfig ℤ
pair_world = record small_world { num_drones = pos 2 }

-- Two drones on their ways, far apart.
abbrev pub cruising : DroneState ℤ
cruising = record {
  positions = at 1 1 1 ∷ at 9 1 1 ∷ [];
  velocities = at 1 0 0 ∷ at 0 1 0 ∷ [];
  active_mask = true ∷ true ∷ [];
  movement_policy_ids = 1 ∷ 1 ∷ [];
  goal_positions = none;
}

abbrev pub registry : Registry ℤ ℕ
registry = (1, scripted_movement) ∷ []

abbrev engine : SimulationEngine ℤ ℕ
engine = record { config = pair_world; movement = registry; rng = 8 }

abbrev pub world : World ℤ
world = record { config = pair_world; state = cruising }

abbrev sim : Simulation ℤ ℕ
sim = record {
  config = pair_world;
  world = world;
  clock = record { dt = pos 1; tick = 0; time_s = pos 0 };
  engine = engine;
  metrics = [];
}

abbrev libs : Libraries ℤ
libs = record { routines = insertion_sort; sorts = sorts }

pair_world-accepted : post_init pair_world ≡ ok tt
unfolding post_init whole
pair_world-accepted = refl

pair_world-IsValid : IsValid pair_world
pair_world-IsValid = post_init-IsValid whole-IsExact pair_world pair_world-accepted

registry-AreLawful : AreLawful registry
registry-AreLawful = (scripted-IsLawful, tt)

profiled_step-same_example :
    (without_profile libs (profiled_step libs engine world sim.clock)
      ≡ engine_step libs engine world sim.clock)
    × OnOk (IsProfile libs engine) (profiled_step libs engine world sim.clock)
profiled_step-same_example = profiled_step-same libs engine world sim.clock

engine_step-IsTicked_example : OnOk (IsTicked libs world) (engine_step libs engine world sim.clock)
unfolding whole
engine_step-IsTicked_example =
    engine_step-IsTicked libs whole-IsExact (λ a b h. h) engine world pair_world-IsValid sim.clock
      registry-AreLawful

run-IsRun_example : OnOk (IsRun sim (pos 5 ∷ pos 4 ∷ [])) (run libs sim (pos 5 ∷ pos 4 ∷ []))
run-IsRun_example = run-IsRun libs (pos 5 ∷ pos 4 ∷ []) sim

-- The readings of two ticks, and reductions that look at the first entry only.
abbrev readings : List (TickMetrics ℤ)
readings =
    (record {
      tick = 0;
      tick_time_s = pos 5;
      candidate_pairs = 3;
      collisions = 1;
      near_misses = 2;
      active_drones = 2;
    })
    ∷ (record {
      tick = 1;
      tick_time_s = pos 4;
      candidate_pairs = 2;
      collisions = 0;
      near_misses = 1;
      active_drones = 2;
    })
    ∷ []

abbrev first_of : List ℤ → ℤ
first_of xs = get_or xs 0 (pos 0)

abbrev reductions : Reductions ℤ
reductions = record {
  total = first_of;
  mean = first_of;
  median = first_of;
  percentile_95 = first_of;
  least = first_of;
  greatest = first_of;
  infinity = pos 1000000;
}

record_all-IsRunning_example : IsRunning readings (record_all (new_running reductions) readings)
record_all-IsRunning_example = record_all-IsRunning reductions readings

running_summary-agrees_example :
    SameCounts
      (running_summary reductions (record_all (new_running reductions) readings))
      (summary reductions readings)
running_summary-agrees_example = running_summary-agrees reductions readings

sim-IsCoherent : IsCoherent sim
unfolding whole
sim-IsCoherent = record {
  accepted = pair_world-accepted;
  world_config = refl;
  engine_config = refl;
  dt = refl;
  drones = refl;
  shaped = record {
    velocities = refl;
    active_mask = refl;
    movement_policy_ids = refl;
    goal_positions = tt;
  };
  positions = refl;
  velocities = refl;
  goals = tt;
}

load-save_example : load_checkpoint registry 0 (archive (archive_of sim)) ≡ ok (with_metrics sim [])
load-save_example = load-save sim 0 sim-IsCoherent

-- A directory with the temporary file of an earlier save.
abbrev directory : Directory ℤ ℕ
directory = record { target = missing; temporaries = (7, corrupt) ∷ [] }

-- The writing raises.
abbrev full_disk : Call → Bool
full_disk writes = true
full_disk _ = false

save_checkpoint-IsAtomic_example :
    IsAtomic full_disk corrupt 3 sim directory (save_checkpoint full_disk corrupt 3 sim directory)
save_checkpoint-IsAtomic_example =
    save_checkpoint-IsAtomic full_disk corrupt 3 sim directory (refl, tt)

kept_and_cleaned : (save_checkpoint full_disk corrupt 3 sim directory).directory ≡ directory
unfolding save_checkpoint
kept_and_cleaned = refl

-- The simulation after one tick.
abbrev pub moved : DroneState ℤ
moved = record cruising { positions = at 2 1 1 ∷ at 9 2 1 ∷ [] }

abbrev mid : Simulation ℤ ℕ
mid = record {
  config = pair_world;
  world = record { config = pair_world; state = moved };
  clock = record { dt = pos 1; tick = 1; time_s = pos 1 };
  engine = engine;
  metrics =
      (record {
        tick = 0;
        tick_time_s = pos 5;
        candidate_pairs = 0;
        collisions = 0;
        near_misses = 0;
        active_drones = 2;
      })
      ∷ [];
}

one_tick : run libs sim (pos 5 ∷ []) ≡ ok mid
unfolding run step engine_step advance step_movement run_policies integrate scripted_movement
    apply_boundaries clamp_positions bounce_velocities init build group_keys make_lookup linear_key
    cell_coords candidate_pairs cross_pairs neighbor occupied_at detect classify resolve
    insertion_sort sort_indices count_below whole isqrt isqrt_below floor_div ◌+ℤ◌ ◌-ℤ◌ ◌*ℤ◌
    forward_offsets
one_tick = refl

mid-IsCoherent : IsCoherent mid
unfolding whole
mid-IsCoherent = record {
  accepted = pair_world-accepted;
  world_config = refl;
  engine_config = refl;
  dt = refl;
  drones = refl;
  shaped = record {
    velocities = refl;
    active_mask = refl;
    movement_policy_ids = refl;
    goal_positions = tt;
  };
  positions = refl;
  velocities = refl;
  goals = tt;
}

resume-same_example :
    (loaded : Simulation ℤ ℕ) × (load_checkpoint registry 0 (archive (archive_of mid)) ≡ ok loaded)
    × (without_metrics (run libs loaded (pos 4 ∷ []))
        ≡ without_metrics (run libs sim (pos 5 ∷ pos 4 ∷ [])))
resume-same_example = resume-same libs sim mid 0 (pos 5 ∷ []) (pos 4 ∷ []) one_tick mid-IsCoherent
