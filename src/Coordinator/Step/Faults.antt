-- ===== src/Coordinator/Step/Faults.antt =====
-- Faults and workers never change what a successful attempt of a tick computes.
use drone_swarm_simulator.Prelude.{
  ℕ, suc, false, List, [], ◌∷◌, ◌≡◌, refl, ap, ◌∙◌, arith, get_or, range,
}
use drone_swarm_simulator.Prelude.Results.{Result, ok, err, ◌>>=◌}
use drone_swarm_simulator.Numeric.{Floats}
use drone_swarm_simulator.Arrays.{Routines}
use drone_swarm_simulator.Worker.{WorkerDetectionInput, run_detection_phase}
use drone_swarm_simulator.Worker.Movement.{
  movement_phase, detection_phase, FaultInjector, WorkerMovementInput, wrap, maybe_fail,
  run_movement_phase, run_movement, run_movement_batch, run_detection, run_detection_batch,
}
use drone_swarm_simulator.Movement.{MovementError}
use drone_swarm_simulator.Workers.{Assignment}
use drone_swarm_simulator.Coordinator.Step.{
  Coordinator, Externals, to_workers, with_workers, movement_input, movement_jobs, attempt_tick,
}

-- No fault is injected.
abbrev pub no_faults : FaultInjector
no_faults w tick phase = false

-- Whatever the first computation returns, the second one returns as well.
abbrev pub Follows : {E : Type 0} {A : Type 0} → Result E A → Result E A → Type 0
Follows {A = A} x y = (a : A) → x ≡ ok a → y ≡ ok a

bind-Follows :
    {E : Type 0} {A : Type 0} {B : Type 0}
    → (x y : Result E A) (g h : A → Result E B) → Follows x y
    → ((a : A) → Follows (g a) (h a))
    → Follows (x >>= g) (y >>= h)
bind-Follows (ok a) y g h s t b e = ap (λ r. r >>= h) (s a refl) ∙ t a b e
bind-Follows (err q) y g h s t b e = absurd (ground arith)

guard-Follows :
    {E : Type 0} {A : Type 0}
    → (c : Result E (Unit {0})) (x y : Result E A) → Follows x y
    → Follows (c >>= λ u. x) y
guard-Follows (err e) x y s a h = absurd (ground arith)
guard-Follows (ok u) x y s a h = s a h

wrap-Follows :
    {A : Type 0}
    → (w v p tick : ℕ) (x : Result MovementError A) → Follows (wrap w p tick x) (wrap v p tick x)
wrap-Follows w v p tick (ok a) b h = h
wrap-Follows w v p tick (err e) b h = absurd (ground arith)

module _ {F : Type 0} ⦃f : Floats F⦄ where
  run_detection-Follows :
      (np : Routines) (injector : FaultInjector) (tick w v : ℕ) (inp : WorkerDetectionInput F)
      → Follows (run_detection np injector tick w inp) (run_detection np no_faults tick v inp)
  unfolding run_detection
  run_detection-Follows np injector tick w v inp =
      guard-Follows (maybe_fail injector w inp.partition_id tick detection_phase)
        (ok (run_detection_phase np inp)) (ok (run_detection_phase np inp)) (λ a h. h)

  detection_batch-Follows :
      (np : Routines) (injector : FaultInjector) (tick : ℕ) (ws vs : List ℕ) (p : ℕ)
      (jobs : List (WorkerDetectionInput F))
      → Follows
          (run_detection_batch np injector tick (with_workers ws p jobs))
          (run_detection_batch np no_faults tick (with_workers vs p jobs))
  unfolding run_detection_batch
  detection_batch-Follows np injector tick ws vs p [] = λ a h. h
  detection_batch-Follows np injector tick ws vs p (job ∷ jobs) =
      bind-Follows (run_detection np injector tick (get_or ws p 0) job)
        (run_detection np no_faults tick (get_or vs p 0) job) _ _
        (run_detection-Follows np injector tick (get_or ws p 0) (get_or vs p 0) job)
        (λ r.
          bind-Follows (run_detection_batch np injector tick (with_workers ws (suc p) jobs))
            (run_detection_batch np no_faults tick (with_workers vs (suc p) jobs)) _ _
            (detection_batch-Follows np injector tick ws vs (suc p) jobs) (λ rest a h. h))

module _ {F : Type 0} ⦃f : Floats F⦄ {G : Type 0} where
  run_movement-Follows :
      (injector : FaultInjector) (w v : ℕ) (inp : WorkerMovementInput F G)
      → Follows (run_movement injector w inp) (run_movement no_faults v inp)
  unfolding run_movement
  run_movement-Follows injector w v inp =
      guard-Follows (maybe_fail injector w inp.partition_id inp.tick movement_phase)
        (wrap w inp.partition_id inp.tick (run_movement_phase inp))
        (wrap v inp.partition_id inp.tick (run_movement_phase inp))
        (wrap-Follows w v inp.partition_id inp.tick (run_movement_phase inp))

  movement_batch-Follows :
      (injector : FaultInjector) (ws vs : List ℕ) (job : ℕ → WorkerMovementInput F G) (ps : List ℕ)
      → Follows
          (run_movement_batch injector (to_workers ws job ps))
          (run_movement_batch no_faults (to_workers vs job ps))
  unfolding run_movement_batch
  movement_batch-Follows injector ws vs job [] = λ a h. h
  movement_batch-Follows injector ws vs job (p ∷ ps) =
      bind-Follows (run_movement injector (get_or ws p 0) (job p))
        (run_movement no_faults (get_or vs p 0) (job p)) _ _
        (run_movement-Follows injector (get_or ws p 0) (get_or vs p 0) (job p))
        (λ r.
          bind-Follows (run_movement_batch injector (to_workers ws job ps))
            (run_movement_batch no_faults (to_workers vs job ps)) _ _
            (movement_batch-Follows injector ws vs job ps) (λ rest a h. h))

  module _ (ext : Externals F G) (co : Coordinator F G) where
    -- An attempt without faults computes what any successful attempt does, on whichever workers.
    pub attempt_tick-Follows :
        (a b : Assignment) (injector : FaultInjector) (owners : List ℕ)
        → Follows (attempt_tick ext co a injector owners) (attempt_tick ext co b no_faults owners)
    unfolding attempt_tick
    attempt_tick-Follows a b injector owners =
        bind-Follows (run_movement_batch injector (movement_jobs ext co a owners))
          (run_movement_batch no_faults (movement_jobs ext co b owners)) _ _
          (movement_batch-Follows injector a.partition_worker b.partition_worker
            (movement_input ext co owners) (range co.partition_grid.num_partitions))
          (λ moved.
            bind-Follows _ _ _ _
              (detection_batch-Follows ext.routines injector co.clock.tick a.partition_worker
                b.partition_worker 0 _)
              (λ results st h. h))
