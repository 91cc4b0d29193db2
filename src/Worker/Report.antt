-- ===== src/Worker/Report.antt =====
-- The report of a worker on the coordinator's input.
use drone_swarm_simulator.Prelude.{
  ℕ, suc, Bool, List, [], ◌∷◌, ◌++◌, ◌≡◌, refl, sym, ap, ◌∙◌, arith, length, get_or, select, range,
  lt→ltb, length-map,
}
use mathlib.Core.Path.{ap₂}
use drone_swarm_simulator.Numeric.{Floats, Vec3, zeros}
use drone_swarm_simulator.Config.{SimulationConfig}
use drone_swarm_simulator.Arrays.{Routines, gather}
use drone_swarm_simulator.SpatialHash.Coverage.{pairs_of}
use drone_swarm_simulator.Collisions.{is_collision, is_near_miss, detect}
use drone_swarm_simulator.Collisions.Detection.{classify-IsClassified}
use drone_swarm_simulator.Worker.{
  detection_input, to_global_pairs, combined_positions, combined_global_ids, run_detection_phase,
}
use drone_swarm_simulator.Worker.Detection.{map-append, append-[]}

module _ {F : Type 0} ⦃f : Floats F⦄ (np : Routines) (c : SimulationConfig F)
    (staged : List (Vec3 F)) where
  -- The pairs that a worker with the drones `ids` looks at, and its pairs that pass a mask.
  abbrev pub report_of : List ℕ → (List (Vec3 F) → ℕ × ℕ → Bool) → List (ℕ × ℕ)
  report_of ids mask =
      let local = gather zeros staged ids in
      to_global_pairs (select (mask local) (pairs_of np c local (range (length ids)))) ids

  combined-positions :
      (p : ℕ) (owned ghosts : List ℕ)
      → combined_positions (detection_input p c staged owned ghosts)
        ≡ gather zeros staged (owned ++ ghosts)
  unfolding detection_input
  combined-positions p owned [] = ap (gather zeros staged) (sym (append-[] owned))
  combined-positions p owned (g ∷ gs) =
      rw (lt→ltb 0 (suc (length (gather zeros staged gs))) (omega arith))
        (sym (map-append (λ i. get_or staged i zeros) owned (g ∷ gs)))

  combined-ids :
      (p : ℕ) (owned ghosts : List ℕ)
      → combined_global_ids (detection_input p c staged owned ghosts) ≡ owned ++ ghosts
  unfolding detection_input
  combined-ids p owned [] = sym (append-[] owned)
  combined-ids p owned (g ∷ gs) =
      rw (lt→ltb 0 (suc (length (gather zeros staged gs))) (omega arith)) refl

  -- The report, from any rows and ids.
  reported_from : List (Vec3 F) → List ℕ → (List (Vec3 F) → ℕ × ℕ → Bool) → List (ℕ × ℕ)
  reported_from positions ids mask =
      to_global_pairs (select (mask positions) (pairs_of np c positions (range (length positions))))
        ids

  reported_from-gather :
      (ids : List ℕ) (mask : List (Vec3 F) → ℕ × ℕ → Bool)
      → reported_from (gather zeros staged ids) ids mask ≡ report_of ids mask
  unfolding reported_from
  reported_from-gather ids mask =
      ap
        (λ n.
          to_global_pairs
            (select (mask (gather zeros staged ids))
              (pairs_of np c (gather zeros staged ids) (range n)))
            ids)
        (length-map (λ i. get_or staged i zeros) ids)

  reported_from-combined :
      (p : ℕ) (owned ghosts : List ℕ) (mask : List (Vec3 F) → ℕ × ℕ → Bool)
      → reported_from
          (combined_positions (detection_input p c staged owned ghosts))
          (combined_global_ids (detection_input p c staged owned ghosts))
          mask
        ≡ report_of (owned ++ ghosts) mask
  reported_from-combined p owned ghosts mask =
      ap₂ (λ ps ids. reported_from ps ids mask) (combined-positions p owned ghosts)
        (combined-ids p owned ghosts)
      ∙ reported_from-gather (owned ++ ghosts) mask

  pub worker-collisions :
      (p : ℕ) (owned ghosts : List ℕ)
      → (run_detection_phase np (detection_input p c staged owned ghosts)).collision_pairs
        ≡ report_of (owned ++ ghosts) (λ positions. is_collision positions c.collision_radius)
  unfolding run_detection_phase detection_input reported_from detect
  worker-collisions p owned ghosts =
      let inp = detection_input p c staged owned ghosts in
      let ps = combined_positions inp in
      let pairs = pairs_of np c ps (range (length ps)) in
      ap (λ t. to_global_pairs t (combined_global_ids inp))
        (classify-IsClassified pairs ps c.collision_radius c.near_miss_radius
          (length pairs)).collisions
      ∙ reported_from-combined p owned ghosts
          (λ positions. is_collision positions c.collision_radius)

  pub worker-near_misses :
      (p : ℕ) (owned ghosts : List ℕ)
      → (run_detection_phase np (detection_input p c staged owned ghosts)).near_miss_pairs
        ≡ report_of
            (owned ++ ghosts)
            (λ positions. is_near_miss positions c.collision_radius c.near_miss_radius)
  unfolding run_detection_phase detection_input reported_from detect
  worker-near_misses p owned ghosts =
      let inp = detection_input p c staged owned ghosts in
      let ps = combined_positions inp in
      let pairs = pairs_of np c ps (range (length ps)) in
      ap (λ t. to_global_pairs t (combined_global_ids inp))
        (classify-IsClassified pairs ps c.collision_radius c.near_miss_radius
          (length pairs)).near_misses
      ∙ reported_from-combined p owned ghosts
          (λ positions. is_near_miss positions c.collision_radius c.near_miss_radius)

  pub worker-partition :
      (p : ℕ) (owned ghosts : List ℕ)
      → (run_detection_phase np (detection_input p c staged owned ghosts)).partition_id ≡ p
  unfolding run_detection_phase detection_input
  worker-partition p owned ghosts = refl
