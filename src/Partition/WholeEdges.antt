-- ===== src/Partition/WholeEdges.antt =====
-- The edges of a partition in whole numbers: `linspace` rounded down, and a linear search.
use drone_swarm_simulator.Prelude.{
  ℕ, zero, suc, ◌-◌, ◌*◌, ◌/◌, ◌≤◌, ◌<◌, true, List, [], ◌∷◌, map, ◌≡◌, max, sym, ap, subst, ◌∙◌,
  arith, length, get_or, range, le→leb, if◌then◌else◌, get_or-map, length-map,
}
use drone_swarm_simulator.Prelude.Int.{ℤ, pos, pos_part, ◌+ℤ◌, ◌-ℤ◌, leb_ℤ, ltb_ℤ, +ℤ_parts}
use native.Mathlib.Nat.{mul-div_cancel, div-eq_of_lt}
use drone_swarm_simulator.Numeric.Whole.{whole, div_mono}
use drone_swarm_simulator.Partition.{FloatRoutines, AreDocumented, Ascends}
use drone_swarm_simulator.SpatialHash.Triu.{length-count_from, get_or-count_from}

abbrev pub entry : ℤ → ℤ → ℕ → ℕ → ℤ
entry lo hi m i = lo +ℤ pos (pos_part (hi -ℤ lo) * i / m)

unfoldable pub count_upto : List ℤ → ℤ → ℕ
count_upto [] v = 0
count_upto (x ∷ xs) v = let rest = count_upto xs v in if leb_ℤ x v then suc rest else 0

unfoldable pub whole_routines : FloatRoutines ℤ
unfolding count_upto
whole_routines = record {
  linspace = λ lo hi n. map (entry lo hi (max (n - 1) 1)) (range n);
  searchsorted_right = count_upto;
}

entry-at :
    (lo hi : ℤ) (m n i : ℕ)
    → i < n
    → get_or (map (entry lo hi m) (range n)) i (pos 0) ≡ entry lo hi m i
entry-at lo hi m n i h =
    get_or-map (entry lo hi m) (range n) i 0 (pos 0) (omega (arith, length-count_from 0 n))
    ∙ ap (entry lo hi m)
        (let e : get_or (range n) i 0 ≡ i = omega (arith, get_or-count_from 0 n i h) in e)

count_upto-below :
    (xs : List ℤ) (v : ℤ) (i : ℕ) → i < count_upto xs v → leb_ℤ (get_or xs i (pos 0)) v ≡ true
unfolding count_upto
count_upto-below [] v i h = elim h [ ]
count_upto-below (x ∷ xs) v zero h = ground arith
count_upto-below (x ∷ xs) v (suc i) h = ground (arith, count_upto-below xs v i)

count_upto-above :
    (xs : List ℤ) (v : ℤ) (i : ℕ)
    → Ascends xs
    → i < length xs
    → count_upto xs v ≤ i
    → ltb_ℤ v (get_or xs i (pos 0)) ≡ true
unfolding count_upto whole
count_upto-above [] v i s l h = elim l [ ]
count_upto-above (x ∷ xs) v zero s l h = ground arith
count_upto-above (x ∷ xs) v (suc i) s l h =
    let up = s 0 (suc i) (omega arith) l in
    let rest =
      count_upto-above xs v i (λ p q le lt. s (suc p) (suc q) (omega arith) (omega arith))
        (omega arith) in
    ground arith

entry_mono :
    (lo hi : ℤ) (m i j : ℕ) → 0 < m → i ≤ j → leb_ℤ (entry lo hi m i) (entry lo hi m j) ≡ true
entry_mono lo hi m i j h k =
    let k' : pos_part (hi -ℤ lo) * i ≤ pos_part (hi -ℤ lo) * j = grind arith in
    let d = div_mono (pos_part (hi -ℤ lo) * i) (pos_part (hi -ℤ lo) * j) m h k' in
    let a = +ℤ_parts lo (pos (pos_part (hi -ℤ lo) * i / m)) in
    let b = +ℤ_parts lo (pos (pos_part (hi -ℤ lo) * j / m)) in le→leb _ _ (omega arith)

add_zero : (a : ℤ) → a +ℤ pos 0 ≡ a
unfolding ◌+ℤ◌
add_zero a = ground arith

add_difference : (a b : ℤ) → leb_ℤ a b ≡ true → a +ℤ pos (pos_part (b -ℤ a)) ≡ b
unfolding ◌+ℤ◌ ◌-ℤ◌
add_difference a b h = ground arith

entry-first : (lo hi : ℤ) (m : ℕ) → 0 < m → entry lo hi m 0 ≡ lo
entry-first lo hi m h =
    let z : pos_part (hi -ℤ lo) * 0 / m ≡ 0 =
      rw (let e : pos_part (hi -ℤ lo) * 0 ≡ 0 = grind arith in e) (div-eq_of_lt h) in
    rw z (add_zero lo)

entry-last : (lo hi : ℤ) (m : ℕ) → 0 < m → leb_ℤ lo hi ≡ true → entry lo hi m m ≡ hi
entry-last lo hi m h k =
    let whole_part = mul-div_cancel (pos_part (hi -ℤ lo)) h in
    rw whole_part (add_difference lo hi k)

pub whole_routines-AreDocumented : AreDocumented whole_routines
unfolding whole whole_routines count_upto
whole_routines-AreDocumented = record {
  linspace_length =
      λ lo hi n. length-map (entry lo hi (max (n - 1) 1)) (range n) ∙ length-count_from 0 n;
  linspace_first = λ lo hi n.
      entry-at lo hi (max (suc n - 1) 1) (suc n) 0 (omega arith)
      ∙ entry-first lo hi (max (suc n - 1) 1) (omega arith);
  linspace_last = λ lo hi n h le.
      entry-at lo hi (max (suc n - 1) 1) (suc n) n (omega arith)
      ∙ ap (λ m. entry lo hi m n) (let e : max (suc n - 1) 1 ≡ n = omega arith in e)
      ∙ entry-last lo hi n h le;
  linspace_ascends = λ lo hi n le i j ij lt.
      let m = max (n - 1) 1 in
      let len = length-map (entry lo hi m) (range n) ∙ length-count_from 0 n in
      subst (λ e. leb_ℤ e (get_or (map (entry lo hi m) (range n)) j (pos 0)) ≡ true)
        (sym (entry-at lo hi m n i (omega arith)))
        (subst (λ e. leb_ℤ (entry lo hi m i) e ≡ true) (sym (entry-at lo hi m n j (omega arith)))
          (entry_mono lo hi m i j (omega arith) ij));
  right_below = λ xs v i s l h. count_upto-below xs v i h;
  right_above = λ xs v i s l h. count_upto-above xs v i s l h;
}
