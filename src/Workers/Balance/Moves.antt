-- ===== src/Workers/Balance/Moves.antt =====
-- Rebalancing moves at most one partition, from a healthy worker to another one.
use drone_swarm_simulator.Prelude.{
  ℕ, ◌<◌, Bool, true, false, ◌||◌, ◌&&◌, List, [], ◌∷◌, map, ◌≡◌, ◌≢◌, ◌⊎◌, inl, inr, refl, sym, ap,
  subst, ◌∙◌, arith, length, get_or, set, ltb, ltb→lt, ◌==◌, ==_iff, &&_parts, Bool-cases,
  if◌then◌else◌,
}
use drone_swarm_simulator.Prelude.Members.{In, In-map_cases, In-select_cases}
use drone_swarm_simulator.Arrays.{sum}
use drone_swarm_simulator.Numeric.{Floats}
use drone_swarm_simulator.Workers.{Assignment, healthy_worker_ids}
use drone_swarm_simulator.Workers.Balance.{
  PartitionLoadStats, load_of, stats_of, worker_load, key_less, max_key, min_key, move_heaviest,
  rebalance_among, rebalance_keys, maybe_rebalance,
}

not_same : (b c d : Bool) → (b || (c || d)) ≡ false → c ≡ true → ⊥
not_same b c d h e = ground arith

one_of : (b : Bool) (m k : ℕ × ℕ) → ((if b then m else k) ≡ m) ⊎ ((if b then m else k) ≡ k)
one_of true m k = inl refl
one_of false m k = inr refl

In-max_key : (k : ℕ × ℕ) (ks : List (ℕ × ℕ)) → In (max_key k ks) (k ∷ ks)
In-max_key k [] = inl refl
In-max_key k (m ∷ ks) =
    let x = if key_less k m then m else k in
    elim (In-max_key x ks) [
      | inr h ↦ inr (inr h)
      | inl e ↦ elim (one_of (key_less k m) m k) [
        | inl is_m ↦ inr (inl (e ∙ is_m))
        | inr is_k ↦ inl (e ∙ is_k)
      ]
    ]

In-min_key : (k : ℕ × ℕ) (ks : List (ℕ × ℕ)) → In (min_key k ks) (k ∷ ks)
In-min_key k [] = inl refl
In-min_key k (m ∷ ks) =
    let x = if key_less m k then m else k in
    elim (In-min_key x ks) [
      | inr h ↦ inr (inr h)
      | inl e ↦ elim (one_of (key_less m k) m k) [
        | inl is_m ↦ inr (inl (e ∙ is_m))
        | inr is_k ↦ inl (e ∙ is_k)
      ]
    ]

-- One partition goes from one healthy worker to another.
pub record IsMove (a b : Assignment) : Type 0 where
  pub partition : ℕ
  pub target : ℕ
  pub known : partition < length a.partition_worker
  pub from_healthy : In (get_or a.partition_worker partition 0) (healthy_worker_ids a.health)
  pub to_healthy : In target (healthy_worker_ids a.health)
  pub other : get_or a.partition_worker partition 0 ≢ target
  pub moved : b.partition_worker ≡ set a.partition_worker partition target
  pub health : b.health ≡ a.health

module _ {F : Type 0} ⦃f : Floats F⦄ (tick : ℕ) (threshold : F) (stats : List PartitionLoadStats)
    (a : Assignment) where
  abbrev candidates : ℕ → List (ℕ × ℕ)
  candidates w = map (λ s. (load_of s, s.partition_id)) (stats_of a.partition_worker stats w)

  candidate-known :
      (w : ℕ) (k : ℕ × ℕ)
      → In k (candidates w)
      → (k.1 < length a.partition_worker) × (get_or a.partition_worker k.1 0 ≡ w)
  candidate-known w k m =
      let (s, ms, e) =
        In-map_cases (λ (s : PartitionLoadStats). let q : ℕ × ℕ = (load_of s, s.partition_id) in q)
          k (stats_of a.partition_worker stats w) m in
      let (_, h) =
        In-select_cases
          (λ (s : PartitionLoadStats).
            ltb s.partition_id (length a.partition_worker)
            && get_or a.partition_worker s.partition_id 0 == w)
          s stats ms in
      let (lt, own) =
        &&_parts (ltb s.partition_id (length a.partition_worker))
          (get_or a.partition_worker s.partition_id 0 == w) h in
      let e1 : k.1 ≡ s.partition_id = ap (λ (q : ℕ × ℕ). q.1) e in
      rw e1 (
        ltb→lt s.partition_id (length a.partition_worker) lt,
        (==_iff (get_or a.partition_worker s.partition_id 0) w).0 own,
      )

  move_heaviest-IsMove :
      (w v : ℕ) (ks : List (ℕ × ℕ))
      → ((k : ℕ × ℕ)
          → In k ks
          → (k.1 < length a.partition_worker) × (get_or a.partition_worker k.1 0 ≡ w))
      → In w (healthy_worker_ids a.health)
      → In v (healthy_worker_ids a.health)
      → w ≢ v
      → (move_heaviest tick ks v a ≡ a) ⊎ IsMove a (move_heaviest tick ks v a)
  move_heaviest-IsMove w v [] known hw hv ne = inl refl
  move_heaviest-IsMove w v (k ∷ ks) known hw hv ne =
      let (lt, own) = known (max_key k ks) (In-max_key k ks) in
      inr (record {
        partition = (max_key k ks).1;
        target = v;
        known = lt;
        from_healthy = rw own hw;
        to_healthy = hv;
        other = λ e. ne (sym own ∙ e);
        moved = refl;
        health = refl;
      })

  among-IsMove :
      (k : ℕ × ℕ) (ks : List (ℕ × ℕ))
      → ((q : ℕ × ℕ) → In q (k ∷ ks) → In q.1 (healthy_worker_ids a.health))
      → (rebalance_among tick threshold stats k ks a ≡ a)
        ⊎ IsMove a (rebalance_among tick threshold stats k ks a)
  among-IsMove k ks healthy =
      let busiest = max_key k ks in
      let idlest = min_key k ks in
      let mean_load =
        f.div (f.of_ℕ (sum (map (λ (q : ℕ × ℕ). q.0) (k ∷ ks)))) (f.of_ℕ (length (k ∷ ks))) in
      let low = f.le mean_load (f.of_ℕ 0) in
      let small = f.lt (f.div (f.of_ℕ busiest.0) mean_load) threshold in
      elim (Bool-cases (low || (busiest.1 == idlest.1 || small))) [
        | inl stop ↦ rw stop (inl refl)
        | inr go ↦
            let apart : busiest.1 ≢ idlest.1 = λ e.
              absurd
                (not_same low (busiest.1 == idlest.1) small go ((==_iff busiest.1 idlest.1).1 e)) in
            rw go (
              move_heaviest-IsMove busiest.1 idlest.1 (candidates busiest.1)
                (candidate-known busiest.1) (healthy busiest (In-max_key k ks))
                (healthy idlest (In-min_key k ks)) apart)
      ]

  keys-IsMove :
      (ks : List (ℕ × ℕ))
      → ((q : ℕ × ℕ) → In q ks → In q.1 (healthy_worker_ids a.health))
      → (rebalance_keys tick threshold stats ks a ≡ a)
        ⊎ IsMove a (rebalance_keys tick threshold stats ks a)
  keys-IsMove [] healthy = inl refl
  keys-IsMove (k ∷ []) healthy = inl refl
  keys-IsMove (k ∷ m ∷ ks) healthy = among-IsMove k (m ∷ ks) healthy

module _ {F : Type 0} ⦃f : Floats F⦄ where
  -- Rebalancing changes nothing, or moves exactly one known partition from the healthy worker that
  -- ran it to another healthy worker, and leaves the health of the workers as it was.
  pub maybe_rebalance-IsMove :
      (tick : ℕ) (threshold : F) (stats : List PartitionLoadStats) (a : Assignment)
      → (maybe_rebalance tick threshold stats a ≡ a)
        ⊎ IsMove a (maybe_rebalance tick threshold stats a)
  unfolding maybe_rebalance
  maybe_rebalance-IsMove tick threshold [] a = inl refl
  maybe_rebalance-IsMove tick threshold (s ∷ stats) a =
      let key = λ (w : ℕ). let q : ℕ × ℕ = (worker_load a.partition_worker (s ∷ stats) w, w) in q in
      keys-IsMove tick threshold (s ∷ stats) a (map key (healthy_worker_ids a.health)) (λ q m.
        let (w, mw, e) = In-map_cases key q (healthy_worker_ids a.health) m in
        subst (λ v. In v (healthy_worker_ids a.health)) (sym (ap (λ (t : ℕ × ℕ). t.1) e)) mw)
