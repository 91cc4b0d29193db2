-- ===== src/Workers/Failure.antt =====
-- After a failure every partition is on a healthy worker, if its worker was healthy or has failed.
use drone_swarm_simulator.Prelude.{
  ℕ, suc, ◌%◌, ◌<◌, none, List, [], ◌∷◌, ◌++◌, ◌≡◌, ◌≢◌, ◌⊎◌, ◌↔◌, inl, inr, refl, sym, ap, subst,
  ◌∙◌, arith, length, get_or, set, range, ◌==◌, ==_iff, Bool-cases, length-set, get_or-set_self,
  get_or-set_ne,
}
use native.Mathlib.Decide.{ℕ_discrete}
use drone_swarm_simulator.Prelude.Members.{In, In-select, In-select_cases, In-count_from, In-get_or}
use drone_swarm_simulator.Workers.{
  Assignment, failed, healthy_worker_ids, mark_failed, affected, reassign, handle_failure,
}

-- What a handled failure of `w` makes of an assignment.
pub record IsReassigned (w : ℕ) (a b : Assignment) : Type 0 where
  pub health : b.health ≡ set a.health w failed
  pub rows : length b.partition_worker ≡ length a.partition_worker
  pub moved :
      (p : ℕ)
      → p < length a.partition_worker
      → get_or a.partition_worker p 0 ≡ w
      → In (get_or b.partition_worker p 0) (healthy_worker_ids b.health)
  pub kept :
      (p : ℕ)
      → p < length a.partition_worker
      → get_or a.partition_worker p 0 ≢ w
      → get_or b.partition_worker p 0 ≡ get_or a.partition_worker p 0

mod_lt : (k n : ℕ) → 0 < n → k % n < n
mod_lt k n h = grind arith

module _ (tick : ℕ) (healthy : List ℕ) (some_healthy : 0 < length healthy) where
  reassign-health :
      (k : ℕ) (ps : List ℕ) (a : Assignment) → (reassign tick healthy k ps a).health ≡ a.health
  unfolding reassign
  reassign-health k [] a = refl
  reassign-health k (p ∷ ps) a = reassign-health (suc k) ps _

  reassign-rows :
      (k : ℕ) (ps : List ℕ) (a : Assignment)
      → length (reassign tick healthy k ps a).partition_worker ≡ length a.partition_worker
  unfolding reassign
  reassign-rows k [] a = refl
  reassign-rows k (p ∷ ps) a =
      reassign-rows (suc k) ps _
      ∙ length-set a.partition_worker p (get_or healthy (k % length healthy) 0)

  reassign-kept :
      (k : ℕ) (ps : List ℕ) (a : Assignment) (q : ℕ)
      → ¬ (In q ps)
      → get_or (reassign tick healthy k ps a).partition_worker q 0 ≡ get_or a.partition_worker q 0
  unfolding reassign
  reassign-kept k [] a q h = refl
  reassign-kept k (p ∷ ps) a q h =
      reassign-kept (suc k) ps _ q (λ m. h (inr m))
      ∙ get_or-set_ne a.partition_worker p q (get_or healthy (k % length healthy) 0) 0
          (λ e. h (inl (sym e)))

  -- A partition that the loop has set, or that was on a healthy worker, ends on one.
  reassign-moved :
      (k : ℕ) (ps : List ℕ) (a : Assignment) (q : ℕ)
      → q < length a.partition_worker
      → (In q ps ⊎ In (get_or a.partition_worker q 0) healthy)
      → In (get_or (reassign tick healthy k ps a).partition_worker q 0) healthy
  unfolding reassign
  reassign-moved k [] a q lt (inl m) = absurd m
  reassign-moved k [] a q lt (inr h) = h
  reassign-moved k (p ∷ ps) a q lt h =
      let new_worker = get_or healthy (k % length healthy) 0 in
      let good =
        In-get_or healthy (k % length healthy) 0 (mod_lt k (length healthy) some_healthy) in
      let next = record a {
        partition_worker = set a.partition_worker p new_worker;
        reassignment_log = a.reassignment_log ++ (tick, p, new_worker) ∷ [];
      } in
      let lt' : q < length (set a.partition_worker p new_worker) =
        omega (arith, length-set a.partition_worker p new_worker) in
      reassign-moved (suc k) ps next q lt' (elim (ℕ_discrete q p) [
        | yes e ↦ inr (
            subst (λ v. In v healthy)
              (sym (
                ap (λ t. get_or (set a.partition_worker p new_worker) t 0) e
                ∙ get_or-set_self a.partition_worker p new_worker 0 (omega arith)))
              good)
        | no ne ↦ elim h [
          | inl (inl e) ↦ absurd (ne e)
          | inl (inr m) ↦ inl m
          | inr was ↦ inr (
              subst (λ v. In v healthy)
                (sym (get_or-set_ne a.partition_worker p q new_worker 0 (λ e. ne (sym e)))) was)
        ]
      ])

In-affected_iff :
    (workers : List ℕ) (w p : ℕ)
    → p < length workers
    → In p (affected workers w) ↔ (get_or workers p 0 ≡ w)
In-affected_iff workers w p h = (
  λ m.
      (==_iff (get_or workers p 0) w).0
        (In-select_cases (λ q. get_or workers q 0 == w) p (range (length workers)) m).1,
  λ e.
      In-select (λ q. get_or workers q 0 == w) p (range (length workers))
        (In-count_from 0 (length workers) p (omega arith) (omega arith))
        ((==_iff (get_or workers p 0) w).1 e),
)

-- When a healthy worker is left after worker w failed, handling the failure raises no error, marks
-- w as failed and no other worker, moves each partition that w ran to a healthy worker, and leaves
-- every other partition with its worker.
pub handle_failure-IsReassigned :
    (tick w : ℕ) (a : Assignment)
    → 0 < length (healthy_worker_ids (mark_failed a.health w))
    → IsReassigned w a (handle_failure tick w a).0 × ((handle_failure tick w a).1 ≡ none)
unfolding handle_failure
handle_failure-IsReassigned tick w a h =
    let healthy = healthy_worker_ids (mark_failed a.health w) in
    let marked = record a { health = mark_failed a.health w } in
    let ps = affected a.partition_worker w in
    elim (Bool-cases (length healthy == 0)) [
      | inl none_left ↦ absurd (let e = (==_iff (length healthy) 0).0 none_left in omega arith)
      | inr some_left ↦ rw some_left (
        record {
          health = reassign-health tick healthy h 0 ps marked;
          rows = reassign-rows tick healthy h 0 ps marked;
          moved = λ p lt e. rw (reassign-health tick healthy h 0 ps marked) (
              reassign-moved tick healthy h 0 ps marked p lt
                (inl ((In-affected_iff a.partition_worker w p lt).1 e)));
          kept = λ p lt ne.
              reassign-kept tick healthy h 0 ps marked p
                (λ m. ne ((In-affected_iff a.partition_worker w p lt).0 m));
        },
        refl,
      )
    ]
