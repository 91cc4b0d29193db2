-- ===== src/Lib.antt =====
-- A drone swarm simulator: a model of the Python package in src/drone_sim.
--
-- The program moves a swarm of drones through a box, tick by tick. A tick moves the drones,
-- constrains them to the box, groups them by the cells of a uniform grid, derives candidate pairs
-- from neighbouring cells, classifies the pairs as collisions and near misses, and resolves the
-- collisions. The distributed path splits the box into slabs along the X axis: each partition gets
-- its own drones and, as ghosts, the drones of its neighbours near the shared edge; a worker detects
-- the pairs of one partition, and a coordinator merges the workers' reports.
--
-- Files, and what they model:
--   Prelude     shared list functions, membership, results and signed integers
--   Numeric     floating-point numbers as a type with operations (Floats), the laws of exact
--               arithmetic (IsExact), points and distances; Numeric/Whole is the instance of whole
--               numbers on which the definitions run
--   Config      src/drone_sim/config.py: SimulationConfig and its checks (post_init)
--   State       src/drone_sim/state.py: DroneState, one list for each array, by drone id
--   Arrays      the NumPy operations in use; argsort and searchsorted are parameters (Routines) with
--               their documentation as laws; Arrays/Sorting is an implementation
--   SpatialHash src/drone_sim/spatial_hash.py: init, cell_coords, build, candidate_pairs
--   Collisions  src/drone_sim/collisions.py: classify, detect, detect_brute_force, resolve
--   Partition   src/drone_sim/partition.py: init_partitions, owner_of, neighbors,
--               ghost_export_indices; linspace and the right side of searchsorted are parameters
--   Worker      src/drone_sim/worker.py: the detection phase; Worker/Movement: the movement phase, the
--               injected faults and the batches
--   Coordinator src/drone_sim/coordinator.py: the jobs of the detection phase, their merging, and the
--               settings that the constructor accepts; Coordinator/Step is the step, with the attempts
--               as a recursion on the retry limit
--   Workers     src/drone_sim/worker.py and coordinator.py: the workers' health, which worker runs
--               which partition, handle_failure, maybe_rebalance
--   Boundaries  src/drone_sim/boundaries.py: apply
--   Snapshot    src/drone_sim/snapshot.py and viewport.py: build_snapshot, find_visible_drones
--   Trajectory  src/drone_sim/trajectory.py: predict
--   Movement    src/drone_sim/movement.py: the policies (local avoidance in Movement/Avoiding),
--               NeighborFeatureBuilder (Movement/Builder) and MovementSystem (Movement/Dispatch)
--   Metrics     src/drone_sim/metrics.py, and RunningMetrics of src/drone_sim/runtime.py
--   Simulation  src/drone_sim/simulation.py: the clock, the stages of a tick, runs
--   Checkpoint  src/drone_sim/checkpoint.py: the dictionary of the configuration, and the files
--               (Checkpoint/Files); Checkpoint/Saving is save_checkpoint as its calls of the file
--               system, each of which may raise
--   Runtime     src/drone_sim/runtime.py: SimulationRuntime as a state machine (Runtime), over an
--               interface of simulations (Simulations) whose step may raise. A call that holds the
--               lock is one action; shutdown is three, and the background loop one for each read
--               of an event and each time it holds the lock; they interleave in any order. At
--               most one call of shutdown is under way at a time, and its join may end any time
--   Examples    the theorems applied to a small world in whole numbers, and tests
--
-- State: an array is a list, and an index out of range reads a default, which the theorems exclude
-- where it matters. A grid is the pair of what its constructor computes (Grid) and what build fills
-- in (Built). A dictionary from partitions is a list of its items. There is no fuel: every loop of
-- the modelled code is a recursion on a list, or on the number of attempts that remain.
--
-- Numbers: the theorems on distances assume exact arithmetic (IsExact), so they leave rounding
-- errors out; float32 rounding is an operation of the interface (to_float32). Keys and counts of
-- cells are natural numbers without the bound of int64, and the dense table's int32 likewise.
--
-- Parameters: the random generator (Generators), lexsort (Lexsorts), the reductions of arrays
-- (Reductions), the readings of the stopwatch. An exception is an error value; what Python has
-- changed before it is followed in Runtime and Checkpoint/Saving only. An injected fault depends on
-- the attempt, not on what the callable of the source may remember.
--
-- Not modelled: state generation and scenarios; the runtime's timings, heat maps and markers; the
-- pools of threads and processes; the runtime over the coordinator; the validation of a run; the
-- HTTP API, the clients and the visualization, which are input and output.
pub mod Prelude
pub mod Numeric
pub mod Config
pub mod State
pub mod Arrays
pub mod SpatialHash
pub mod Collisions
pub mod Partition
pub mod Trajectory
pub mod Movement
pub mod Worker
pub mod Coordinator
pub mod Examples
pub mod Boundaries
pub mod Runtime
pub mod Workers
pub mod Snapshot
pub mod Metrics
pub mod Simulation
pub mod Checkpoint
