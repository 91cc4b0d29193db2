-- ===== src/Examples/Lifecycle.antt =====
-- A runtime over a simulation that counts its ticks from its configuration on, and raises at 9.
use drone_swarm_simulator.Prelude.{
  ℕ, suc, Option, none, some, List, [], ◌∷◌, ◌≡◌, true, false, if◌then◌else◌, ◌==◌, refl, replicate,
}
use drone_swarm_simulator.Prelude.Results.{err}
use drone_swarm_simulator.Runtime.{
  Simulations, created, running, is_running, is_alive, already_running, not_paused, still_running,
  Runtime, init_runtime, advance_one, start, pause, resume, reset, step_once, Action, starts,
  pauses, resumes, steps, resets, loops, shuts_down, loads, act, run_actions, run_loop_at,
  shutdown_part,
}
use drone_swarm_simulator.Runtime.Calls.{IsConsistent, AreCalm}
use drone_swarm_simulator.Runtime.Reachable.{run_actions-IsConsistent}
use drone_swarm_simulator.Runtime.Late.{IsLate, loops-IsLate}
use drone_swarm_simulator.Runtime.Restart.{ShowSame, reset-ShowSame, reset-refused, load-idle}

abbrev counted : ℕ → ℕ × Option ℕ
counted s = if s == 9 then (s, none) else (suc s, some s)

abbrev counter : Simulations ℕ ℕ ℕ
counter = record { create = λ c. c; step = counted; config_of = λ s. s }

-- One tick, and the two tests before the next one.
abbrev one_tick : List (Action ℕ)
one_tick = starts ∷ loops ∷ loops ∷ loops ∷ loops ∷ loops ∷ []

abbrev started : Runtime ℕ ℕ ℕ
started = run_actions counter one_tick (init_runtime counter 5)

started-IsConsistent : IsConsistent counter started
unfolding run_actions act start run_loop_at advance_one init_runtime
started-IsConsistent =
    run_actions-IsConsistent counter 5 one_tick (refl, (tt, (tt, (tt, (tt, (tt, tt))))))

started-alive : is_alive started.thread ≡ true
unfolding run_actions act start run_loop_at advance_one init_runtime
started-alive = refl

started-running : started.status ≡ running
unfolding run_actions act start run_loop_at advance_one init_runtime
started-running = refl

-- The same, paused while the thread waits for the lock.
abbrev pausing : List (Action ℕ)
pausing = starts ∷ loops ∷ loops ∷ pauses ∷ []

pausing-AreCalm : AreCalm counter pausing (init_runtime counter 5)
unfolding init_runtime
pausing-AreCalm = (refl, (tt, (tt, (tt, tt))))

abbrev waiting : Runtime ℕ ℕ ℕ
waiting = run_actions counter pausing (init_runtime counter 5)

waiting-idle : is_running waiting.status ≡ false
unfolding run_actions act start pause run_loop_at advance_one init_runtime
waiting-idle = refl

-- The tick that lands after the pause and the reset.
late_tick :
    let r = run_actions counter (resets ∷ loops ∷ loops ∷ loops ∷ []) waiting in
    (r.status ≡ created) × (r.num_ticks ≡ 1) × (r.sim ≡ 6)
unfolding run_actions act start pause reset run_loop_at advance_one init_runtime
late_tick = (refl, refl, refl)

-- A tick that raises ends the thread, and the status stays `running`.
raising_tick :
    let r = run_actions counter (starts ∷ loops ∷ loops ∷ loops ∷ []) (init_runtime counter 9) in
    (r.status ≡ running) × (is_alive r.thread ≡ false) × (r.num_ticks ≡ 0)
unfolding run_actions act start run_loop_at advance_one init_runtime
raising_tick = (refl, refl, refl)

-- A start between the parts of a shutdown leaves a live thread, not told to wait, as `stopped`.
start_in_shutdown :
    let r =
      run_actions counter
        (shuts_down ∷ starts ∷ shuts_down ∷ shuts_down ∷ [])
        (init_runtime counter 5) in
    (is_running r.status ≡ false) × (is_alive r.thread ≡ true) × (r.pause_event ≡ false)
unfolding run_actions act start shutdown_part init_runtime
start_in_shutdown = (refl, refl, refl)

run_actions-IsConsistent_example :
    IsConsistent counter (run_actions counter pausing (init_runtime counter 5))
run_actions-IsConsistent_example = run_actions-IsConsistent counter 5 pausing pausing-AreCalm

loops-IsLate_example : IsLate counter waiting (run_actions counter (replicate 7 loops) waiting)
loops-IsLate_example = loops-IsLate counter 5 pausing 7 pausing-AreCalm waiting-idle

reset-ShowSame_example :
    ShowSame counter
      (run_actions counter (resets ∷ replicate 3 steps) waiting)
      (run_actions counter (replicate 3 steps) (init_runtime counter waiting.config))
reset-ShowSame_example = reset-ShowSame counter waiting 3 waiting-idle

reset-refused_example :
    let q = run_actions counter (pauses ∷ resets ∷ []) started in
    (start counter q ≡ err already_running)
    × (resume counter q ≡ err not_paused)
    × IsLate counter q (run_actions counter (replicate 4 loops) q)
reset-refused_example =
    reset-refused counter started 4 started-IsConsistent started-alive started-running

load-idle_example :
    let q = run_actions counter (loads (some 8) ∷ resumes ∷ []) (init_runtime counter 5) in
    (q.status ≡ running)
    × (act counter loops q ≡ q)
    × (step_once counter q ≡ (q, err still_running))
load-idle_example = load-idle counter 5 8
