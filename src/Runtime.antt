-- ===== src/Runtime.antt =====
-- runtime.py: `SimulationRuntime`, the state machine around one simulation and its background
-- thread, over an interface of simulations.
pub mod Calls
pub mod Reachable
pub mod Late
pub mod Restart
use drone_swarm_simulator.Prelude.{
  ℕ, suc, Bool, true, false, Option, none, some, List, [], ◌∷◌, if◌then◌else◌,
}
use drone_swarm_simulator.Prelude.Results.{Result, ok, err}

-- What the runtime calls of a simulation: `Simulation(config)`, `step()`, and its `config`. A step
-- that raises returns no result, and leaves the simulation as far as it was changed.
pub record Simulations (C S R : Type 0) : Type 0 where
  pub create : C → S
  pub step : S → S × Option R
  pub config_of : S → C

pub data RuntimeStatus : Type 0 where
  created running paused stopped : RuntimeStatus

pub data RuntimeError : Type 0 where
  already_running not_running not_paused still_running checkpoint_refused step_raised : RuntimeError

abbrev pub is_running : RuntimeStatus → Bool
is_running running = true
is_running _ = false

abbrev pub is_paused : RuntimeStatus → Bool
is_paused paused = true
is_paused _ = false

-- Where the background thread stands in `_run_loop`: before the test of the stop event, before the
-- test of the pause event, before the lock, before the lock after the loop, and at its end.
pub data LoopAt : Type 0 where
  at_stop_test at_pause_test at_lock at_exit_lock at_end : LoopAt

-- Where a call of `shutdown` stands, if there is one: it has set the stop event, or it has also
-- cleared the pause event and joins the thread.
pub data ShutdownAt : Type 0 where
  not_called signalled joining : ShutdownAt

-- The published snapshot is kept as the simulation and the result that it was built from; the
-- thread as where it stands, or none when there is no live thread; the running metrics as their
-- number of ticks.
pub record Runtime (C S R : Type 0) : Type 0 where
  pub config : C
  pub thread : Option LoopAt
  pub shutdown_at : ShutdownAt
  pub stop_event : Bool
  pub pause_event : Bool
  pub sim : S
  pub status : RuntimeStatus
  pub num_ticks : ℕ
  pub snapshot : S × Option R

abbrev pub is_alive : Option LoopAt → Bool
is_alive none = false
is_alive (some _) = true

-- A refused call changes nothing.
abbrev pub or_unchanged : {A : Type 0} → Result RuntimeError A → A → A
or_unchanged (ok a) old = a
or_unchanged (err e) old = old

module _ {C S R : Type 0} where
  -- The writes of `start`, `pause`, `resume`, `reset` and `load_checkpoint`.
  abbrev pub to_started : Runtime C S R → Runtime C S R
  to_started r = record r {
    stop_event = false;
    pause_event = false;
    status = running;
    thread = some at_stop_test;
  }

  abbrev pub to_paused : Runtime C S R → Runtime C S R
  to_paused r = record r { pause_event = true; status = paused }

  abbrev pub to_resumed : Runtime C S R → Runtime C S R
  to_resumed r = record r { pause_event = false; status = running }

  abbrev pub to_stage : LoopAt → Runtime C S R → Runtime C S R
  to_stage p r = record r { thread = some p }

  -- What `_advance_one_locked` leaves after `step()`, and whether it raised.
  abbrev pub advanced :
      Runtime C S R → S → Option R → Runtime C S R × Result RuntimeError (Unit {0})
  advanced r next none = (record r { sim = next }, err step_raised)
  advanced r next (some result) =
      (record r { sim = next; num_ticks = suc r.num_ticks; snapshot = (next, some result) }, ok tt)

  -- After a tick the loop goes on; an exception ends the thread, without the code after the loop.
  abbrev pub after_loop_tick : Runtime C S R × Result RuntimeError (Unit {0}) → Runtime C S R
  after_loop_tick (r, ok _) = to_stage at_stop_test r
  after_loop_tick (r, err e) = record r { thread = none }

  -- The lock after the loop: `if self._status == RUNNING: self._status = PAUSED`.
  abbrev pub to_exited : Runtime C S R → Runtime C S R
  to_exited r = record r {
    thread = some at_end;
    status = (if is_running r.status then paused else r.status);
  }

  -- The parts of `shutdown`, in their order: the stop event, the pause event, and, when the thread
  -- has ended or the join has timed out, the status.
  abbrev pub shutdown_from : ShutdownAt → Runtime C S R → Runtime C S R
  shutdown_from not_called r = record r { stop_event = true; shutdown_at = signalled }
  shutdown_from signalled r = record r { pause_event = false; shutdown_at = joining }
  shutdown_from joining r = record r { status = stopped; shutdown_at = not_called }

  unfoldable pub shutdown_part : Runtime C S R → Runtime C S R
  shutdown_part r = shutdown_from r.shutdown_at r

module _ {C S R : Type 0} (sims : Simulations C S R) where
  open sims use {create, step, config_of}

  unfoldable pub init_runtime : C → Runtime C S R
  init_runtime c = record {
    config = c;
    thread = none;
    shutdown_at = not_called;
    stop_event = false;
    pause_event = false;
    sim = create c;
    status = created;
    num_ticks = 0;
    snapshot = (create c, none);
  }

  -- `_advance_one_locked`.
  unfoldable pub advance_one : Runtime C S R → Runtime C S R × Result RuntimeError (Unit {0})
  advance_one r = let (next, result) = step r.sim in advanced r next result

  abbrev pub to_reset : Runtime C S R → Runtime C S R
  to_reset r = record r {
    sim = create r.config;
    status = created;
    num_ticks = 0;
    snapshot = (create r.config, none);
  }

  abbrev pub to_loaded : S → Runtime C S R → Runtime C S R
  to_loaded loaded r = record r {
    sim = loaded;
    config = config_of loaded;
    status = paused;
    num_ticks = 0;
    snapshot = (loaded, none);
  }

  unfoldable pub start : Runtime C S R → Result RuntimeError (Runtime C S R)
  start r = if is_alive r.thread then err already_running else ok (to_started r)

  unfoldable pub pause : Runtime C S R → Result RuntimeError (Runtime C S R)
  pause r = if is_running r.status then ok (to_paused r) else err not_running

  unfoldable pub resume : Runtime C S R → Result RuntimeError (Runtime C S R)
  resume r = if is_paused r.status then ok (to_resumed r) else err not_paused

  -- A refused call changes nothing; a step that raises has changed the simulation.
  unfoldable pub step_once : Runtime C S R → Runtime C S R × Result RuntimeError (Unit {0})
  unfolding advance_one
  step_once r = if is_running r.status then (r, err still_running) else advance_one r

  unfoldable pub reset : Runtime C S R → Result RuntimeError (Runtime C S R)
  reset r = if is_running r.status then err still_running else ok (to_reset r)

  -- The loaded simulation, or none when the checkpoint could not be read.
  unfoldable pub load_checkpoint : Option S → Runtime C S R → Result RuntimeError (Runtime C S R)
  load_checkpoint none r = if is_running r.status then err still_running else err checkpoint_refused
  load_checkpoint (some loaded) r =
      if is_running r.status then err still_running else ok (to_loaded loaded r)

  -- What the background thread does next: it reads one event, or does what it does under the lock.
  unfoldable pub run_loop_at : LoopAt → Runtime C S R → Runtime C S R
  unfolding advance_one
  run_loop_at at_stop_test r =
      if r.stop_event then to_stage at_exit_lock r else to_stage at_pause_test r
  run_loop_at at_pause_test r =
      if r.pause_event then to_stage at_stop_test r else to_stage at_lock r
  run_loop_at at_lock r =
      let ticked = after_loop_tick (advance_one r) in
      if r.stop_event then to_stage at_exit_lock r else ticked
  run_loop_at at_exit_lock r = to_exited r
  run_loop_at at_end r = record r { thread = none }

  -- A part of `_run_loop`, if the thread is live.
  abbrev pub run_loop_part : Option LoopAt → Runtime C S R → Runtime C S R
  run_loop_part none r = r
  run_loop_part (some p) r = run_loop_at p r

-- A call of the runtime, a part of `shutdown`, or a part of the background loop.
pub data Action (S : Type 0) : Type 0 where
  starts pauses resumes steps resets shuts_down loops : Action S
  loads : Option S → Action S

module _ {C S R : Type 0} (sims : Simulations C S R) where
  unfoldable pub act : Action S → Runtime C S R → Runtime C S R
  unfolding start pause resume step_once reset load_checkpoint shutdown_part run_loop_at
  act starts r = or_unchanged (start sims r) r
  act pauses r = or_unchanged (pause sims r) r
  act resumes r = or_unchanged (resume sims r) r
  act steps r = (step_once sims r).0
  act resets r = or_unchanged (reset sims r) r
  act shuts_down r = shutdown_part r
  act loops r = run_loop_part sims r.thread r
  act (loads s) r = or_unchanged (load_checkpoint sims s r) r

  -- Any interleaving of the calls and of the parts of the two that do not hold the lock throughout.
  unfoldable pub run_actions : List (Action S) → Runtime C S R → Runtime C S R
  run_actions [] r = r
  run_actions (a ∷ rest) r = run_actions rest (act a r)
