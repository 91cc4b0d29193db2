-- ===== src/SpatialHash/Structure.antt =====
-- What `build` leaves behind: the drones grouped by the key of their cell.
use drone_swarm_simulator.Prelude.{
  ℕ, suc, ◌+◌, ◌-◌, ◌≤◌, ◌<◌, List, [], ◌∷◌, map, ◌≡◌, refl, sym, ap, ◌∙◌, arith, length, get_or,
  length-map, get_or-map, subst,
}
use drone_swarm_simulator.Prelude.Members.{
  In, All, All-In, Distinct, In-index, In-get_or, Distinct-index,
}
use drone_swarm_simulator.State.{nonzero_from}
use drone_swarm_simulator.Arrays.{gather, diff_append, IsSorted, Routines, IsDocumented}
use drone_swarm_simulator.SpatialHash.{Grid, Built, is_new, group_keys}
use drone_swarm_simulator.SpatialHash.Groups.{
  Group, groups, starts-groups, counts-groups, keys-groups, groups-IsGroup, groups_cover,
  groups_end, groups_nonempty, IsAscending, groups_ascend,
}

-- The drone in place `k` of group `s`.
abbrev pub drone_at : Built → ℕ → ℕ → ℕ
drone_at b s k = get_or b.sorted_drones (get_or b.group_start s 0 + k) 0

abbrev pub size_of : Built → ℕ → ℕ
size_of b s = get_or b.counts s 0

pub record IsIndex (key_of : ℕ → ℕ) (active : List ℕ) (b : Built) : Type 0 where
  pub same_length : length b.counts ≡ length b.unique_keys
  pub ascending : IsAscending b.unique_keys
  pub occupied : (s : ℕ) → s < length b.unique_keys → 0 < size_of b s
  pub member :
      (s k : ℕ)
      → s < length b.unique_keys
      → k < size_of b s
      → In (drone_at b s k) active × (key_of (drone_at b s k) ≡ get_or b.unique_keys s 0)
  pub cover :
      (a : ℕ)
      → In a active
      → (s : ℕ) × (k : ℕ) × (s < length b.unique_keys) × (k < size_of b s) × (drone_at b s k ≡ a)
  pub once :
      (s k t l : ℕ)
      → s < length b.unique_keys
      → k < size_of b s
      → t < length b.unique_keys
      → l < size_of b t
      → drone_at b s k ≡ drone_at b t l
      → get_or b.group_start s 0 + k ≡ get_or b.group_start t 0 + l

-- The arrays of `group_keys`, read as one list of groups.
record IsGrouping (ks : List ℕ) (rs : List Group) : Type 0 where
  starts : nonzero_from 0 (is_new ks) ≡ map (λ r. r.start) rs
  counts : diff_append (nonzero_from 0 (is_new ks)) (length ks) ≡ map (λ r. r.count) rs
  keys : gather 0 ks (nonzero_from 0 (is_new ks)) ≡ map (λ r. r.key) rs
  ascending : IsAscending (map (λ r. r.key) rs)
  same : All (λ r. (t : ℕ) → r.start ≤ t → t < r.start + r.count → get_or ks t 0 ≡ r.key) rs
  nonempty : All (λ r. 0 < r.count) rs
  ends : All (λ r. r.start + r.count ≤ length ks) rs
  covers : (t : ℕ) → t < length ks → (r : Group) × In r rs × (r.start ≤ t) × (t < r.start + r.count)

grouping : (ks : List ℕ) → IsSorted ks → (rs : List Group) × IsGrouping ks rs
grouping [] h = (
  [],
  record {
    starts = refl;
    counts = refl;
    keys = refl;
    ascending = tt;
    same = tt;
    nonempty = tt;
    ends = tt;
    covers = λ t lt. elim lt [ ];
  },
)
grouping (k ∷ ks) h =
    let reads : (t : ℕ) → t < length ks → get_or (k ∷ ks) (1 + t) 0 ≡ get_or ks t 0 =
      λ t lt. ap (λ i. get_or (k ∷ ks) i 0) (let e : 1 + t ≡ suc t = omega arith in e) in
    (
      groups k 0 1 ks,
      record {
        starts = sym (starts-groups k 0 1 ks);
        counts = counts-groups k 0 1 (suc (length ks)) ks (omega arith);
        keys = keys-groups (λ i. get_or (k ∷ ks) i 0) k 0 1 ks reads refl;
        ascending = groups_ascend k 0 1 ks h;
        same =
            groups-IsGroup (λ i. get_or (k ∷ ks) i 0) k 0 1 ks reads
              (λ t lo hi. ap (λ i. get_or (k ∷ ks) i 0) (let e : t ≡ 0 = omega arith in e));
        nonempty = groups_nonempty k 0 1 ks (omega arith);
        ends = groups_end k 0 1 (suc (length ks)) ks (omega arith) (omega arith);
        covers = λ t lt. groups_cover k 0 1 t ks (omega arith) (omega arith) (omega arith);
      },
    )

-- An array that one field of the groups gives, read at one place.
field_at :
    (f : Group → ℕ) (rs : List Group) {xs : List ℕ} (s : ℕ) (d : Group)
    → xs ≡ map f rs
    → s < length rs
    → get_or xs s 0 ≡ f (get_or rs s d)
field_at f rs s d e h = ap (λ ys. get_or ys s 0) e ∙ get_or-map f rs s d 0 h

abbrev no_group : Group
no_group = record { key = 0; start = 0; count = 0 }

module _ {F : Type 0} (np : Routines) (doc : IsDocumented np) (g : Grid F) (key_of : ℕ → ℕ)
    (active : List ℕ) (unique : Distinct active) where
  abbrev keys : List ℕ
  keys = map key_of active

  abbrev order : List ℕ
  order = np.argsort keys

  abbrev sorted_keys : List ℕ
  sorted_keys = gather 0 keys order

  abbrev sorted_drones : List ℕ
  sorted_drones = gather 0 active order

  in_range : (p : ℕ) → p < length order → get_or order p 0 < length active
  in_range p h =
      let lt =
        All-In (λ i. i < length keys) _ order (doc.argsort_in_range keys) (In-get_or order p 0 h) in
      omega (arith, length-map key_of active)

  drone-at-place :
      (p : ℕ)
      → p < length order
      → In (get_or sorted_drones p 0) active
        × (key_of (get_or sorted_drones p 0) ≡ get_or sorted_keys p 0)
  drone-at-place p h =
      let i = get_or order p 0 in
      let lt = in_range p h in
      let at : get_or sorted_drones p 0 ≡ get_or active i 0 =
        get_or-map (λ j. get_or active j 0) order p 0 0 h in
      let key_at : get_or sorted_keys p 0 ≡ key_of (get_or active i 0) =
        get_or-map (λ j. get_or keys j 0) order p 0 0 h ∙ get_or-map key_of active i 0 0 lt in
      (subst (λ a. In a active) (sym at) (In-get_or active i 0 lt), ap key_of at ∙ sym key_at)

  place_of : (a : ℕ) → In a active → (p : ℕ) × (p < length order) × (get_or sorted_drones p 0 ≡ a)
  place_of a m =
      let (i, lt, e) = In-index a 0 active m in
      let (p, lp, q) =
        In-index i 0 order
          (doc.argsort_complete keys i (omega (arith, length-map key_of active))) in
      (
        p,
        lp,
        get_or-map (λ j. get_or active j 0) order p 0 0 lp ∙ ap (λ j. get_or active j 0) q ∙ e,
      )

  place_once :
      (p q : ℕ)
      → p < length order
      → q < length order
      → get_or sorted_drones p 0 ≡ get_or sorted_drones q 0
      → p ≡ q
  place_once p q hp hq e =
      let at =
        λ (r : ℕ) (h : r < length order). get_or-map (λ j. get_or active j 0) order r 0 0 h in
      Distinct-index order 0 p q (doc.argsort_distinct keys) hp hq (
        Distinct-index active 0 (get_or order p 0) (get_or order q 0) unique (in_range p hp)
          (in_range q hq) (sym (at p hp) ∙ e ∙ at q hq))

  module _ (rs : List Group) (gr : IsGrouping sorted_keys rs) where
    abbrev at : ℕ → Group
    at s = get_or rs s no_group

    entry_in_group :
        (s k : ℕ)
        → s < length rs
        → k < (at s).count
        → ((at s).start + k < length order) × (get_or sorted_keys ((at s).start + k) 0 ≡ (at s).key)
    entry_in_group s k hs hk =
        let m = In-get_or rs s no_group hs in
        let end = All-In (λ r. r.start + r.count ≤ length sorted_keys) (at s) rs gr.ends m in
        (
          omega (arith, length-map (λ i. get_or keys i 0) order),
          All-In
              (λ r. (t : ℕ) → r.start ≤ t → t < r.start + r.count → get_or sorted_keys t 0 ≡ r.key)
              (at s) rs gr.same m ((at s).start + k) (omega arith) (omega arith),
        )

    group_of_place :
        (p : ℕ)
        → p < length order
        → (s : ℕ) × (k : ℕ) × (s < length rs) × (k < (at s).count) × ((at s).start + k ≡ p)
    group_of_place p h =
        let (r, m, lo, hi) = gr.covers p (omega (arith, length-map (λ i. get_or keys i 0) order)) in
        let (s, hs, e) = In-index r no_group rs m in
        let e_start = ap (λ (q : Group). q.start) e in
        let e_count = ap (λ (q : Group). q.count) e in
        (s, p - r.start, hs, omega arith, omega arith)

  pub group_keys-IsIndex : IsIndex key_of active (group_keys np g active keys)
  unfolding group_keys
  group_keys-IsIndex =
      let (rs, gr) = grouping sorted_keys (doc.argsort_sorts keys) in
      let b = group_keys np g active keys in
      let starts_at =
        λ (s : ℕ) (h : s < length rs). field_at (λ r. r.start) rs s no_group gr.starts h in
      let size_at =
        λ (s : ℕ) (h : s < length rs). field_at (λ r. r.count) rs s no_group gr.counts h in
      let key_at = λ (s : ℕ) (h : s < length rs). field_at (λ r. r.key) rs s no_group gr.keys h in
      let groups_len : length b.unique_keys ≡ length rs =
        ap length gr.keys ∙ length-map (λ r. r.key) rs in
      record {
        same_length = ap length gr.counts ∙ length-map (λ r. r.count) rs ∙ sym groups_len;
        ascending = subst IsAscending (sym gr.keys) gr.ascending;
        occupied = λ s hs.
            let hs' : s < length rs = omega arith in
            let some_entry =
              All-In (λ r. 0 < r.count) (get_or rs s no_group) rs gr.nonempty
                (In-get_or rs s no_group hs') in
            omega (arith, size_at s hs');
        member = λ s k hs hk.
            let hs' : s < length rs = omega arith in
            let (lt, e) = entry_in_group rs gr s k hs' (omega (arith, size_at s hs')) in
            let place : get_or b.group_start s 0 + k ≡ (get_or rs s no_group).start + k =
              omega (arith, starts_at s hs') in
            let (m, q) = drone-at-place ((get_or rs s no_group).start + k) lt in
            (
              subst (λ p. In (get_or b.sorted_drones p 0) active) (sym place) m,
              ap (λ p. key_of (get_or b.sorted_drones p 0)) place ∙ q ∙ e ∙ sym (key_at s hs'),
            );
        cover = λ a m.
            let (p, lp, e) = place_of a m in
            let (s, k, hs, hk, at_p) = group_of_place rs gr p lp in
            (
              s,
              k,
              omega arith,
              omega (arith, size_at s hs),
              ap (λ q. get_or b.sorted_drones q 0)
                    (let q : get_or b.group_start s 0 + k ≡ p = omega (arith, starts_at s hs) in q)
                  ∙ e,
            );
        once = λ s k t l hs hk ht hl e.
            let hs' : s < length rs = omega arith in
            let ht' : t < length rs = omega arith in
            let (lt, _) = entry_in_group rs gr s k hs' (omega (arith, size_at s hs')) in
            let (lt', _) = entry_in_group rs gr t l ht' (omega (arith, size_at t ht')) in
            place_once (get_or b.group_start s 0 + k) (get_or b.group_start t 0 + l)
              (omega (arith, starts_at s hs')) (omega (arith, starts_at t ht')) e;
      }
