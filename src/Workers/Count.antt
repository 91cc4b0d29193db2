-- ===== src/Workers/Count.antt =====
-- A failure takes at most one worker from the healthy ones.
use drone_swarm_simulator.Prelude.{
  ℕ, suc, ◌≤◌, Bool, List, [], ◌∷◌, ◌≡◌, ◌≢◌, inl, inr, sym, ap, subst, ◌∙◌, arith, length, get_or,
  set, select, range, length-set, get_or-set_ne, Bool-cases,
}
use native.Mathlib.Decide.{ℕ_discrete}
use drone_swarm_simulator.Prelude.Members.{In, Distinct, Distinct-count_from}
use drone_swarm_simulator.Workers.{
  WorkerLifecycleState, failed, is_healthy, healthy_worker_ids, mark_failed,
}

-- Tests that differ at `w` only select about as many entries.
select_apart :
    (p q : ℕ → Bool) (w : ℕ) (xs : List ℕ)
    → ((j : ℕ) → w ≢ j → q j ≡ p j)
    → ¬ (In w xs)
    → length (select p xs) ≤ length (select q xs)
select_apart p q w [] h n = omega arith
select_apart p q w (x ∷ xs) h n =
    let rest = select_apart p q w xs h (λ m. n (inr m)) in
    let same : q x ≡ p x = h x (λ e. n (inl e)) in
    elim (Bool-cases (p x)) [
      | inl t ↦ rw (t, same ∙ t) (omega (arith, rest))
      | inr f ↦ rw (f, same ∙ f) rest
    ]

select_most :
    (p q : ℕ → Bool) (w : ℕ) (xs : List ℕ)
    → ((j : ℕ) → w ≢ j → q j ≡ p j)
    → Distinct xs
    → length (select p xs) ≤ suc (length (select q xs))
select_most p q w [] h d = omega arith
select_most p q w (x ∷ xs) h (fresh, d) = elim (ℕ_discrete w x) [
  | yes e ↦
      let rest = select_apart p q w xs h (subst (λ y. ¬ (In y xs)) (sym e) fresh) in
      elim (Bool-cases (p x)) [
        | inl t ↦ elim (Bool-cases (q x)) [
          | inl u ↦ rw (t, u) (omega (arith, rest))
          | inr u ↦ rw (t, u) (omega (arith, rest))
        ]
        | inr f ↦ elim (Bool-cases (q x)) [
          | inl u ↦ rw (f, u) (omega (arith, rest))
          | inr u ↦ rw (f, u) (omega (arith, rest))
        ]
      ]
  | no ne ↦
      let rest = select_most p q w xs h d in
      let same : q x ≡ p x = h x ne in
      elim (Bool-cases (p x)) [
        | inl t ↦ rw (t, same ∙ t) (omega (arith, rest))
        | inr f ↦ rw (f, same ∙ f) rest
      ]
]

pub mark_failed-most :
    (health : List WorkerLifecycleState) (w : ℕ)
    → length (healthy_worker_ids health) ≤ suc (length (healthy_worker_ids (mark_failed health w)))
mark_failed-most health w =
    let most =
      select_most (λ v. is_healthy (get_or health v failed))
        (λ v. is_healthy (get_or (set health w failed) v failed)) w (range (length health))
        (λ j ne. ap is_healthy (get_or-set_ne health w j failed failed ne))
        (Distinct-count_from 0 (length health)) in
    subst
      (λ n.
        length (healthy_worker_ids health)
        ≤ suc (length (select (λ v. is_healthy (get_or (set health w failed) v failed)) (range n))))
      (sym (length-set health w failed)) most
