-- ===== src/Examples/Policies.antt =====
-- The movement and the prediction of a small swarm.
use drone_swarm_simulator.Prelude.{
  ℕ, ◌<◌, Bool, true, false, ◌&&◌, ◌||◌, none, some, List, [], ◌∷◌, ◌≡◌, ◌≢◌, ◌↔◌, inl, inr, refl,
  sym, subst, arith, length, get_or, range, ltb, ◌==◌, if◌then◌else◌,
}
use drone_swarm_simulator.Prelude.Int.{ℤ, pos, leb_ℤ, ◌+ℤ◌, ◌-ℤ◌, ◌*ℤ◌}
use drone_swarm_simulator.Prelude.Members.{All, All-from, In-count_from_bounds}
use drone_swarm_simulator.Prelude.Results.{ok, err, OnOk}
use drone_swarm_simulator.Numeric.{zeros}
use drone_swarm_simulator.Numeric.Whole.{whole, whole-IsExact, isqrt, isqrt_below, floor_div}
use drone_swarm_simulator.Numeric.Scaling.{whole-IsScalable, whole-HasUnits}
use drone_swarm_simulator.State.{DroneState, IsShaped}
use drone_swarm_simulator.Trajectory.{
  PredictionService, init_prediction, predict, risk_of, predicted_collision, predicted_near_miss,
}
use drone_swarm_simulator.Trajectory.Risk.{IsPrediction, predict-IsPrediction}
use drone_swarm_simulator.Movement.{
  MovementContext, unknown_policies, goal_directed_movement, with_velocities, goal_velocity,
  update_goal_directed,
}
use drone_swarm_simulator.Movement.Avoiding.{local_avoidance_movement, update_local_avoidance}
use drone_swarm_simulator.Movement.Dispatch.{Registry, step_movement}
use drone_swarm_simulator.Movement.Builder.{Lexsorts, build_context}
use drone_swarm_simulator.Movement.Features.{IsLexsort}
use drone_swarm_simulator.Movement.System.{IsMoved, AreLawful, step_movement-IsMoved}
use drone_swarm_simulator.Movement.Policies.{goal_directed-IsLawful, local_avoidance-IsLawful}
use drone_swarm_simulator.Movement.Unknown.{HasUnknown, step_movement-unknown_iff}
use drone_swarm_simulator.Movement.Pace.{WithinLimit}
use drone_swarm_simulator.Movement.Speed.{AreSteering, step_movement-WithinLimit}
use drone_swarm_simulator.Movement.Gate.{IsSafe, local_avoidance-SameAt}
use drone_swarm_simulator.Examples.Setting.{at, small_world, three_positions}

-- Three drones: two fly to goals, and the third is not active.
abbrev pub swarm : DroneState ℤ
swarm = record {
  positions = three_positions;
  velocities = at 1 0 0 ∷ at 0 0 0 ∷ at 0 1 0 ∷ [];
  active_mask = true ∷ true ∷ false ∷ [];
  movement_policy_ids = 2 ∷ 3 ∷ 2 ∷ [];
  goal_positions = some (at 3 1 1 ∷ at 11 9 1 ∷ at 14 1 1 ∷ []);
}

-- The generator is a counter that no policy of this registry draws from.
abbrev pub policies : Registry ℤ ℕ
policies = (2, goal_directed_movement) ∷ (3, local_avoidance_movement) ∷ []

-- An order by the major key, and by the minor key among equals.
abbrev goes_before : List ℤ → List ℕ → ℕ → ℕ → Bool
goes_before minor major i j =
    ltb (get_or major i 0) (get_or major j 0)
    || ((get_or major i 0 == get_or major j 0)
        && leb_ℤ (get_or minor i (pos 0)) (get_or minor j (pos 0)))

abbrev insert : List ℤ → List ℕ → ℕ → List ℕ → List ℕ
insert minor major i [] = i ∷ []
insert minor major i (j ∷ js) =
    let rest = insert minor major i js in
    if goes_before minor major i j then i ∷ j ∷ js else j ∷ rest

abbrev sort : List ℤ → List ℕ → List ℕ → List ℕ
sort minor major [] = []
sort minor major (i ∷ is) = insert minor major i (sort minor major is)

abbrev pub sorts : Lexsorts ℤ
sorts = record { lexsort = λ minor major. sort minor major (range (length major)) }

All-insert :
    (n : ℕ) (minor : List ℤ) (major : List ℕ) (i : ℕ) (js : List ℕ)
    → i < n
    → All (λ k. k < n) js
    → All (λ k. k < n) (insert minor major i js)
All-insert n minor major i [] h a = (h, tt)
All-insert n minor major i (j ∷ js) h (b, a) = ground (arith, All-insert n minor major i js h a)

All-sort :
    (n : ℕ) (minor : List ℤ) (major is : List ℕ)
    → All (λ k. k < n) is
    → All (λ k. k < n) (sort minor major is)
All-sort n minor major [] a = tt
All-sort n minor major (i ∷ is) (h, a) =
    All-insert n minor major i (sort minor major is) h (All-sort n minor major is a)

pub sorts-IsLexsort : IsLexsort sorts
sorts-IsLexsort = record {
  in_range = λ minor major. All-sort (length major) minor major (range (length major)) (
      All-from (λ k. k < length major) (range (length major))
        (λ k m. omega (arith, In-count_from_bounds 0 (length major) k m)));
}

pub policies-AreLawful : AreLawful policies
policies-AreLawful = (goal_directed-IsLawful, (local_avoidance-IsLawful, tt))

swarm-IsShaped : IsShaped swarm
swarm-IsShaped = record {
  velocities = refl;
  active_mask = refl;
  movement_policy_ids = refl;
  goal_positions = refl;
}

policies-AreSteering : (q : ℕ) → AreSteering q policies
policies-AreSteering q = (λ _. inl refl, (λ _. inr refl, tt))

step_movement-IsMoved_example :
    OnOk
      (λ (t, next). IsMoved small_world swarm t)
      (step_movement policies swarm 0 small_world 0 none)
step_movement-IsMoved_example =
    step_movement-IsMoved small_world 0 none policies swarm 0 policies-AreLawful

step_movement-unknown_iff_example :
    (step_movement policies swarm 0 small_world 0 none ≡ err unknown_policies)
    ↔ HasUnknown policies swarm
step_movement-unknown_iff_example =
    step_movement-unknown_iff small_world 0 none policies swarm 0 policies-AreLawful

-- Both drones of the swarm, and the pair of them.
abbrev pairs : List (ℕ × ℕ)
pairs = (0, 1) ∷ []

abbrev service : PredictionService ℤ
service = init_prediction small_world none

abbrev context : MovementContext ℤ
context = build_context sorts swarm (predict service swarm pairs) swarm.goal_positions

step_movement-WithinLimit_example :
    OnOk
      (λ (t, next). WithinLimit small_world t 1)
      (step_movement policies swarm 0 small_world 0 (some context))
unfolding whole
step_movement-WithinLimit_example =
    step_movement-WithinLimit small_world 0 (some context) refl whole-IsExact whole-IsScalable
      policies swarm 0 1 policies-AreLawful (policies-AreSteering 3) swarm-IsShaped (inr (inl refl))

predict-IsPrediction_example : IsPrediction service pairs (predict service swarm pairs)
unfolding whole
predict-IsPrediction_example = predict-IsPrediction whole-IsExact service swarm refl pairs refl

-- Two drones at rest that are far apart; the first one is at its goal.
abbrev sparse : DroneState ℤ
sparse = record {
  positions = at 1 1 1 ∷ at 9 1 1 ∷ [];
  velocities = at 0 0 0 ∷ at 0 0 0 ∷ [];
  active_mask = true ∷ true ∷ [];
  movement_policy_ids = 3 ∷ 3 ∷ [];
  goal_positions = some (at 1 1 1 ∷ at 9 9 1 ∷ []);
}

steered : DroneState ℤ
steered = with_velocities sparse (0 ∷ []) (at 0 0 0 ∷ [])

sparse-steered : update_goal_directed small_world sparse (0 ∷ []) ≡ ok steered
unfolding update_goal_directed goal_velocity steered whole isqrt isqrt_below ◌+ℤ◌ ◌-ℤ◌ ◌*ℤ◌
sparse-steered = refl

far-apart :
    (risk_of small_world (pos 2) sparse (0, 1) ≢ predicted_collision)
    × (risk_of small_world (pos 2) sparse (0, 1) ≢ predicted_near_miss)
unfolding whole isqrt isqrt_below floor_div ◌+ℤ◌ ◌-ℤ◌ ◌*ℤ◌
far-apart = (λ e. cc, λ e. cc)

sparse-IsSafe : IsSafe service sparse pairs 0
sparse-IsSafe = λ q m has. elim m [
  | inl e ↦
      subst
        (λ (p : ℕ × ℕ).
          (risk_of small_world (pos 2) sparse p ≢ predicted_collision)
          × (risk_of small_world (pos 2) sparse p ≢ predicted_near_miss))
        (sym e) far-apart
  | inr n ↦ absurd n
]

local_avoidance-SameAt_example :
    (u : DroneState ℤ) × (update_local_avoidance small_world sparse
        (0 ∷ [])
        (some (build_context sorts sparse (predict service sparse pairs) sparse.goal_positions))
      ≡ ok u)
    × (get_or u.velocities 0 zeros ≡ get_or steered.velocities 0 zeros)
unfolding whole isqrt isqrt_below ◌+ℤ◌ ◌*ℤ◌ steered
local_avoidance-SameAt_example =
    local_avoidance-SameAt whole-IsExact whole-IsScalable whole-HasUnits sorts sorts-IsLexsort
      service refl refl refl sparse pairs sparse.goal_positions 0 sparse-IsSafe (omega arith)
      (0 ∷ []) steered sparse-steered (omega arith) refl
