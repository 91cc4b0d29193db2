-- ===== src/State.antt =====
-- state.py: the state of all drones, one list for each array, indexed by drone id.
use drone_swarm_simulator.Prelude.{
  ℕ, zero, suc, ◌+◌, ◌≤◌, ◌<◌, Bool, true, false, Option, none, some, List, [], ◌∷◌, ◌≡◌, refl, ◌↔◌,
  subst, sym, inl, inr, arith, length, get_or, if◌then◌else◌,
}
use drone_swarm_simulator.Prelude.Members.{In, Distinct, In-get_or}
use drone_swarm_simulator.Numeric.{Vec3}
use drone_swarm_simulator.Config.{SimulationConfig}

pub record DroneState (F : Type 0) : Type 0 where
  pub positions : List (Vec3 F)
  pub velocities : List (Vec3 F)
  pub active_mask : List Bool
  pub movement_policy_ids : List ℕ
  pub goal_positions : Option (List (Vec3 F))

pub record World (F : Type 0) : Type 0 where
  pub config : SimulationConfig F
  pub state : DroneState F

-- `np.nonzero(mask)[0]`, for the mask that begins at index `i`.
abbrev pub nonzero_from : ℕ → List Bool → List ℕ
nonzero_from i [] = []
nonzero_from i (b ∷ bs) = let rest = nonzero_from (suc i) bs in if b then i ∷ rest else rest

module _ {F : Type 0} where
  abbrev pub num_drones : DroneState F → ℕ
  num_drones s = length s.positions

  abbrev pub active_indices : DroneState F → List ℕ
  active_indices s = nonzero_from 0 s.active_mask

  abbrev pub GoalsFit : ℕ → Option (List (Vec3 F)) → Type 0
  GoalsFit n none = Unit
  GoalsFit n (some goals) = length goals ≡ n

  -- The assertions of `__post_init__`: every array has a row for each drone.
  pub record IsShaped (s : DroneState F) : Type 0 where
    pub velocities : length s.velocities ≡ num_drones s
    pub active_mask : length s.active_mask ≡ num_drones s
    pub movement_policy_ids : length s.movement_policy_ids ≡ num_drones s
    pub goal_positions : GoalsFit (num_drones s) s.goal_positions

pub In-nonzero_from :
    (i : ℕ) (bs : List Bool) (k : ℕ) → In k (nonzero_from i bs) → (i ≤ k) × (k < i + length bs)
In-nonzero_from i [] k m = absurd m
In-nonzero_from i (true ∷ bs) k (inl e) = omega arith
In-nonzero_from i (true ∷ bs) k (inr m) = omega (arith, In-nonzero_from (suc i) bs k m)
In-nonzero_from i (false ∷ bs) k m = omega (arith, In-nonzero_from (suc i) bs k m)

pub Distinct-nonzero_from : (i : ℕ) (bs : List Bool) → Distinct (nonzero_from i bs)
Distinct-nonzero_from i [] = tt
Distinct-nonzero_from i (true ∷ bs) =
    (λ m. absurd (omega (arith, In-nonzero_from (suc i) bs i m)), Distinct-nonzero_from (suc i) bs)
Distinct-nonzero_from i (false ∷ bs) = Distinct-nonzero_from (suc i) bs

nonzero_sound :
    (i : ℕ) (bs : List Bool) (k : ℕ)
    → In (i + k) (nonzero_from i bs)
    → (k < length bs) × (get_or bs k false ≡ true)
nonzero_sound i [] k m = absurd m
nonzero_sound i (true ∷ bs) zero m = (omega arith, refl)
nonzero_sound i (false ∷ bs) zero m = absurd (omega (arith, In-nonzero_from (suc i) bs (i + 0) m))
nonzero_sound i (true ∷ bs) (suc k) (inl e) = absurd (omega arith)
nonzero_sound i (true ∷ bs) (suc k) (inr m) =
    let m' : In (suc i + k) (nonzero_from (suc i) bs) =
      subst (λ t. In t (nonzero_from (suc i) bs)) (omega arith) m in
    let (h, e) = nonzero_sound (suc i) bs k m' in (omega arith, e)
nonzero_sound i (false ∷ bs) (suc k) m =
    let m' : In (suc i + k) (nonzero_from (suc i) bs) =
      subst (λ t. In t (nonzero_from (suc i) bs)) (omega arith) m in
    let (h, e) = nonzero_sound (suc i) bs k m' in (omega arith, e)

nonzero_complete :
    (i : ℕ) (bs : List Bool) (k : ℕ)
    → k < length bs
    → get_or bs k false ≡ true
    → In (i + k) (nonzero_from i bs)
nonzero_complete i [] k h e = elim h [ ]
nonzero_complete i (true ∷ bs) zero h e = inl (omega arith)
nonzero_complete i (false ∷ bs) zero h e = absurd (ground arith)
nonzero_complete i (true ∷ bs) (suc k) h e = inr (
    subst (λ t. In t (nonzero_from (suc i) bs)) (omega arith)
      (nonzero_complete (suc i) bs k (omega arith) e))
nonzero_complete i (false ∷ bs) (suc k) h e =
    subst (λ t. In t (nonzero_from (suc i) bs)) (omega arith)
      (nonzero_complete (suc i) bs k (omega arith) e)

-- The ids of the active drones ascend.
pub active_ascend :
    (i : ℕ) (bs : List Bool) (a b : ℕ)
    → a < b
    → b < length (nonzero_from i bs)
    → get_or (nonzero_from i bs) a 0 < get_or (nonzero_from i bs) b 0
active_ascend i [] a b h l = elim l [ ]
active_ascend i (true ∷ bs) a zero h l = elim h [ ]
active_ascend i (true ∷ bs) zero (suc b) h l =
    let m = In-get_or (nonzero_from (suc i) bs) b 0 (omega arith) in
    omega (arith, In-nonzero_from (suc i) bs (get_or (nonzero_from (suc i) bs) b 0) m)
active_ascend i (true ∷ bs) (suc a) (suc b) h l =
    active_ascend (suc i) bs a b (omega arith) (omega arith)
active_ascend i (false ∷ bs) a b h l = active_ascend (suc i) bs a b h l

-- The active drones are those whose entry of the mask is set.
pub In-nonzero_iff :
    (bs : List Bool) (k : ℕ)
    → In k (nonzero_from 0 bs) ↔ ((k < length bs) × (get_or bs k false ≡ true))
In-nonzero_iff bs k =
    let start : 0 + k ≡ k = omega arith in
    (
      λ m. nonzero_sound 0 bs k (subst (λ t. In t (nonzero_from 0 bs)) (sym start) m),
      λ (h, e). subst (λ t. In t (nonzero_from 0 bs)) start (nonzero_complete 0 bs k h e),
    )
