-- ===== src/Movement/Batches.antt =====
-- The batch of a policy: the active drones that have its id.
use drone_swarm_simulator.Prelude.{
  ℕ, zero, suc, ◌<◌, Bool, true, false, ◌&&◌, List, [], ◌∷◌, ◌≡◌, refl, sym, subst, ◌∙◌, arith,
  length, get_or, ◌==◌,
}
use drone_swarm_simulator.Prelude.Members.{In}
use drone_swarm_simulator.Numeric.{Floats}
use drone_swarm_simulator.State.{DroneState, IsShaped, active_indices, In-nonzero_iff}
use drone_swarm_simulator.Arrays.{zip_with}
use drone_swarm_simulator.Movement.Dispatch.{batch}
use drone_swarm_simulator.Movement.System.{OnlyVelocities}

masked_entry :
    (pid : ℕ) (bs : List Bool) (qs : List ℕ) (k : ℕ)
    → k < length bs
    → k < length qs
    → (k < length (zip_with (λ b q. b && (q == pid)) bs qs))
      × (get_or (zip_with (λ b q. b && (q == pid)) bs qs) k false
          ≡ (get_or bs k false && (get_or qs k 0 == pid)))
masked_entry pid [] qs k h l = absurd (omega arith)
masked_entry pid (b ∷ bs) [] k h l = absurd (omega arith)
masked_entry pid (b ∷ bs) (q ∷ qs) zero h l = (omega arith, refl)
masked_entry pid (b ∷ bs) (q ∷ qs) (suc k) h l =
    let (m, e) = masked_entry pid bs qs k (omega arith) (omega arith) in (omega arith, e)

module _ {F : Type 0} ⦃f : Floats F⦄ where
  -- What a drone needs to be in the batch of its policy: it is active, with a row in each array.
  pub record IsSeated (s : DroneState F) (k : ℕ) : Type 0 where
    pub active : get_or s.active_mask k false ≡ true
    pub in_mask : k < length s.active_mask
    pub in_policies : k < length s.movement_policy_ids
    pub in_velocities : k < length s.velocities

  pub In-batch :
      (pid : ℕ) (s : DroneState F) (k : ℕ)
      → IsSeated s k
      → (get_or s.movement_policy_ids k 0 == pid) ≡ true
      → In k (batch pid s)
  In-batch pid s k h e =
      let (l, g) = masked_entry pid s.active_mask s.movement_policy_ids k h.in_mask h.in_policies in
      (In-nonzero_iff _ k).1 (l, g ∙ rw (h.active, e) refl)

  pub not-In-batch :
      (pid : ℕ) (s : DroneState F) (k : ℕ)
      → IsSeated s k
      → (get_or s.movement_policy_ids k 0 == pid) ≡ false
      → ¬ (In k (batch pid s))
  not-In-batch pid s k h e m =
      let (l, g) = masked_entry pid s.active_mask s.movement_policy_ids k h.in_mask h.in_policies in
      let (l', g') =
        (In-nonzero_iff (zip_with (λ b q. b && (q == pid)) s.active_mask s.movement_policy_ids) k).0
          m in
      absurd (ground (arith, rw (h.active, e) at (sym g ∙ g')))

  pub IsSeated-kept :
      (idx : List ℕ) (s t : DroneState F) (k : ℕ)
      → OnlyVelocities idx s t
      → IsSeated s k
      → IsSeated t k
  IsSeated-kept idx s t k o h = record {
    active = subst (λ bs. get_or bs k false ≡ true) (sym o.active_mask) h.active;
    in_mask = subst (λ bs. k < length bs) (sym o.active_mask) h.in_mask;
    in_policies = subst (λ qs. k < length qs) (sym o.policies) h.in_policies;
    in_velocities = subst (λ n. k < n) (sym o.velocity_rows) h.in_velocities;
  }

  pub seat : (s : DroneState F) (k : ℕ) → IsShaped s → In k (active_indices s) → IsSeated s k
  seat s k h m =
      let (l, e) = (In-nonzero_iff s.active_mask k).0 m in
      record {
        active = e;
        in_mask = l;
        in_policies = omega (arith, h.active_mask, h.movement_policy_ids);
        in_velocities = omega (arith, h.active_mask, h.velocities);
      }
