-- ===== src/Simulation/Ticks.antt =====
-- A run of ticks: what the clock and the metrics say, and a run in two parts.
use drone_swarm_simulator.Prelude.{
  ℕ, suc, ◌+◌, List, [], ◌∷◌, ◌++◌, map, ◌≡◌, refl, sym, ap, ◌∙◌, arith, length, count_from,
  append_nil, append_assoc, map-append,
}
use drone_swarm_simulator.Prelude.Results.{Result, ok, err, OnOk, ◌>>=◌}
use drone_swarm_simulator.Numeric.{Floats}
use drone_swarm_simulator.Collisions.{DetectionResult}
use drone_swarm_simulator.Movement.{MovementError}
use drone_swarm_simulator.Metrics.{TickMetrics, time_of, record_tick}
use drone_swarm_simulator.Simulation.{
  Simulation, Libraries, Ticked, engine_step, step, run, after_tick, tick_metrics, advance,
}

abbrev pub tick_of : {F : Type 0} → TickMetrics F → ℕ
tick_of tm = tm.tick

module _ {F : Type 0} ⦃f : Floats F⦄ {G : Type 0} where
  -- `after` is `sim` after as many ticks as there are times.
  pub record IsRun (sim : Simulation F G) (times : List F) (after : Simulation F G) : Type 0 where
    pub tick : after.clock.tick ≡ sim.clock.tick + length times
    pub dt : after.clock.dt ≡ sim.clock.dt
    pub config : after.config ≡ sim.config
    pub engine_config : after.engine.config ≡ sim.engine.config
    pub movement : after.engine.movement ≡ sim.engine.movement
    pub ticks :
        map tick_of after.metrics
        ≡ map tick_of sim.metrics ++ count_from sim.clock.tick (length times)
    pub readings : map time_of after.metrics ≡ map time_of sim.metrics ++ times

  -- A simulation with another history of metrics.
  abbrev pub with_metrics : Simulation F G → List (TickMetrics F) → Simulation F G
  with_metrics sim ms = record sim { metrics = ms }

  -- The outcome of a run, its metrics left out.
  abbrev pub without_metrics :
      Result MovementError (Simulation F G) → Result MovementError (Simulation F G)
  without_metrics (ok sim) = ok (with_metrics sim [])
  without_metrics (err e) = err e

  module _ (libs : Libraries F) where
    after_tick-IsRun :
        (sim : Simulation F G) (time : F) (t : Ticked F G)
        → IsRun sim (time ∷ []) (after_tick sim time t)
    unfolding advance
    after_tick-IsRun sim time t = record {
      tick = omega arith;
      dt = refl;
      config = refl;
      engine_config = refl;
      movement = refl;
      ticks = map-append tick_of sim.metrics (tick_metrics sim time t ∷ []);
      readings = map-append time_of sim.metrics (tick_metrics sim time t ∷ []);
    }

    IsRun-trans :
        (sim next last : Simulation F G) (time : F) (times : List F)
        → IsRun sim (time ∷ []) next
        → IsRun next times last
        → IsRun sim (time ∷ times) last
    IsRun-trans sim next last time times a b = record {
      tick = omega (arith, a.tick, b.tick);
      dt = b.dt ∙ a.dt;
      config = b.config ∙ a.config;
      engine_config = b.engine_config ∙ a.engine_config;
      movement = b.movement ∙ a.movement;
      ticks =
          let start : next.clock.tick ≡ suc sim.clock.tick = omega (arith, a.tick) in
          b.ticks
          ∙ ap (λ xs. xs ++ count_from next.clock.tick (length times)) a.ticks
          ∙ ap
              (λ k. (map tick_of sim.metrics ++ sim.clock.tick ∷ []) ++ count_from k (length times))
              start
          ∙ append_assoc (map tick_of sim.metrics) (sim.clock.tick ∷ [])
              (count_from (suc sim.clock.tick) (length times));
      readings =
          b.readings
          ∙ ap (λ xs. xs ++ times) a.readings
          ∙ append_assoc (map time_of sim.metrics) (time ∷ []) times;
    }

    lifted :
        (sim next : Simulation F G) (time : F) (times : List F)
        (r : Result MovementError (Simulation F G))
        → IsRun sim (time ∷ []) next
        → OnOk (IsRun next times) r
        → OnOk (IsRun sim (time ∷ times)) r
    lifted sim next time times (err e) a h = tt
    lifted sim next time times (ok last) a h = IsRun-trans sim next last time times a h

    abbrev rest_of :
        List F → Simulation F G × DetectionResult F → Result MovementError (Simulation F G)
    rest_of times (next, result) = run libs next times

    abbrev ticked :
        Simulation F G → F → Ticked F G → Result MovementError (Simulation F G × DetectionResult F)
    ticked sim time t = ok (after_tick sim time t, t.result)

    stepped :
        (sim : Simulation F G) (time : F) (times : List F) (r : Result MovementError (Ticked F G))
        → ((next : Simulation F G) → OnOk (IsRun next times) (run libs next times))
        → OnOk (IsRun sim (time ∷ times)) ((r >>= ticked sim time) >>= rest_of times)
    stepped sim time times (err e) h = tt
    stepped sim time times (ok t) h =
        lifted sim (after_tick sim time t) time times (run libs (after_tick sim time t) times)
          (after_tick-IsRun sim time t) (h (after_tick sim time t))

    -- A run of as many ticks as there are readings of the stopwatch, if no tick raises an error,
    -- advances the tick by their number, keeps the configurations, the time step and the policies,
    -- and appends to the metrics one entry for each tick, with consecutive ticks and the readings
    -- in their order.
    pub run-IsRun :
        (times : List F) (sim : Simulation F G) → OnOk (IsRun sim times) (run libs sim times)
    unfolding run step
    run-IsRun [] sim = record {
      tick = omega arith;
      dt = refl;
      config = refl;
      engine_config = refl;
      movement = refl;
      ticks = sym (append_nil (map tick_of sim.metrics));
      readings = sym (append_nil (map time_of sim.metrics));
    }
    run-IsRun (time ∷ times) sim =
        stepped sim time times (engine_step libs sim.engine sim.world sim.clock) (run-IsRun times)

    continued :
        (first second : List F) (r : Result MovementError (Simulation F G × DetectionResult F))
        → ((sim : Simulation F G)
            → run libs sim (first ++ second) ≡ (run libs sim first >>= λ mid. run libs mid second))
        → (r >>= rest_of (first ++ second)) ≡ ((r >>= rest_of first) >>= λ mid. run libs mid second)
    continued first second (ok (next, result)) h = h next
    continued first second (err e) h = refl

    -- A run of some ticks and then others is one run of them all.
    pub run-append :
        (first second : List F) (sim : Simulation F G)
        → run libs sim (first ++ second) ≡ (run libs sim first >>= λ mid. run libs mid second)
    unfolding run
    run-append [] second sim = refl
    run-append (t ∷ first) second sim =
        continued first second (step libs sim t) (run-append first second)

    same_step :
        (sim : Simulation F G) (time : F) (times : List F) (ms : List (TickMetrics F))
        (r : Result MovementError (Ticked F G))
        → ((next : Simulation F G) (ns : List (TickMetrics F))
            → without_metrics (run libs (with_metrics next ns) times)
              ≡ without_metrics (run libs next times))
        → without_metrics ((r >>= ticked (with_metrics sim ms) time) >>= rest_of times)
          ≡ without_metrics ((r >>= ticked sim time) >>= rest_of times)
    same_step sim time times ms (err e) h = refl
    same_step sim time times ms (ok t) h =
        h (after_tick sim time t) (record_tick ms (tick_metrics sim time t))

    -- The metrics never change what a run does.
    pub run-metrics :
        (times : List F) (sim : Simulation F G) (ms : List (TickMetrics F))
        → without_metrics (run libs (with_metrics sim ms) times)
          ≡ without_metrics (run libs sim times)
    unfolding run step
    run-metrics [] sim ms = refl
    run-metrics (time ∷ times) sim ms =
        same_step sim time times ms (engine_step libs sim.engine sim.world sim.clock)
          (run-metrics times)
