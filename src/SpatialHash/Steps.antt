-- ===== src/SpatialHash/Steps.antt =====
-- The forward offsets pick exactly one direction between two neighbouring cells.
use drone_swarm_simulator.Prelude.{
  ℕ, zero, suc, ◌+◌, ◌≤◌, ◌<◌, Bool, true, false, ◌≡◌, sym, ap, subst, inl, inr, ◌⊎◌, ◌&&◌, ◌||◌,
  ◌∙◌, arith, ltb, ◌==◌, if◌then◌else◌, map, flat_map,
}
use drone_swarm_simulator.Prelude.Members.{
  In, In-map, In-flat_map, In-select, In-select_cases, In-map_cases, In-flat_map_cases,
}
use drone_swarm_simulator.Prelude.Int.{
  ℤ, pos, negsuc, pos_part, neg_part, ◌+ℤ◌, +ℤ_parts, eq_of_parts,
}
use drone_swarm_simulator.SpatialHash.{Cell}
use drone_swarm_simulator.SpatialHash.Offsets.{
  Offset, steps, neighbor_offsets, is_forward, is_zero, is_positive, forward_offsets,
}
use drone_swarm_simulator.SpatialHash.Cells.{Adjacent, At}

-- One step from `a` to `b`, for numbers that differ by at most one.
pub step_to : ℕ → ℕ → ℤ
step_to a b = if a == b then pos 0 else if ltb a b then pos 1 else negsuc 0

step_to-reaches : (a b : ℕ) → a ≤ b + 1 → b ≤ a + 1 → pos a +ℤ step_to a b ≡ pos b
unfolding step_to ◌+ℤ◌
step_to-reaches a b h k = ground arith

step_to-In : (a b : ℕ) → In (step_to a b) steps
unfolding step_to
step_to-In a b = ground arith

abbrev pub offset_between : Cell → Cell → Offset
offset_between c e = record {
  dx = step_to c.cx e.cx;
  dy = step_to c.cy e.cy;
  dz = step_to c.cz e.cz;
}

pub Adjacent-symm : {c e : Cell} → Adjacent c e → Adjacent e c
Adjacent-symm a = omega arith

pub offset_between-At : (c e : Cell) → Adjacent c e → At c (offset_between c e) e
offset_between-At c e a = record {
  x_at = step_to-reaches c.cx e.cx a.x_down a.x_up;
  y_at = step_to-reaches c.cy e.cy a.y_down a.y_up;
  z_at = step_to-reaches c.cz e.cz a.z_down a.z_up;
}

In-neighbor_offsets :
    (x y z : ℤ)
    → In x steps
    → In y steps
    → In z steps
    → In (record { dx = x; dy = y; dz = z }) neighbor_offsets
In-neighbor_offsets x y z hx hy hz =
    In-flat_map
      (λ c.
        flat_map (λ b. map (λ a. let o : Offset = record { dx = a; dy = b; dz = c } in o) steps)
          steps)
      z (record { dx = x; dy = y; dz = z }) steps hz
      (In-flat_map (λ b. map (λ a. let o : Offset = record { dx = a; dy = b; dz = z } in o) steps) y
        (record { dx = x; dy = y; dz = z }) steps hy
        (In-map (λ a. let o : Offset = record { dx = a; dy = y; dz = z } in o) x steps hx))

-- The test of `is_forward`, read off the cells that the offset joins.
abbrev pub precedes : Cell → Cell → Bool
precedes c e =
    ltb c.cz e.cz
    || (c.cz == e.cz && ltb c.cy e.cy || c.cz == e.cz && (c.cy == e.cy && ltb c.cx e.cx))

zero_step : (a b : ℕ) (x : ℤ) → pos a +ℤ x ≡ pos b → is_zero x ≡ (a == b)
zero_step a b (pos zero) e =
    let h : a ≡ b = omega (arith, +ℤ_parts (pos a) (pos 0), ap pos_part e, ap neg_part e) in
    ground arith
zero_step a b (pos (suc n)) e =
    let h : a < b = omega (arith, +ℤ_parts (pos a) (pos (suc n)), ap pos_part e, ap neg_part e) in
    ground arith
zero_step a b (negsuc n) e =
    let h : b < a = omega (arith, +ℤ_parts (pos a) (negsuc n), ap pos_part e, ap neg_part e) in
    ground arith

positive_step : (a b : ℕ) (x : ℤ) → pos a +ℤ x ≡ pos b → is_positive x ≡ ltb a b
positive_step a b x e =
    let h = +ℤ_parts (pos a) x in let hp = ap pos_part e in let hn = ap neg_part e in ground arith

pub is_forward-At : (c e : Cell) (d : Offset) → At c d e → is_forward d ≡ precedes c e
is_forward-At c e d a =
    let zx = zero_step c.cx e.cx d.dx a.x_at in
    let zy = zero_step c.cy e.cy d.dy a.y_at in
    let zz = zero_step c.cz e.cz d.dz a.z_at in
    let px = positive_step c.cx e.cx d.dx a.x_at in
    let py = positive_step c.cy e.cy d.dy a.y_at in
    let pz = positive_step c.cz e.cz d.dz a.z_at in rw (zx, zy, zz, px, py, pz) (ground arith)

pub precedes_asymm : (c e : Cell) → precedes c e ≡ true → precedes e c ≡ true → ⊥
precedes_asymm c e h k = ground arith

pub precedes_irrefl : (c : Cell) → precedes c c ≡ false
precedes_irrefl c = ground arith

-- One of two cells precedes the other, unless they are the same.
pub precedes_total : (c e : Cell) → (precedes c e ≡ true) ⊎ ((precedes e c ≡ true) ⊎ (c ≡ e))
precedes_total c e = ground arith

-- Two offsets that join the same cells are the same.
pub At-unique : (c e : Cell) (d d' : Offset) → At c d e → At c d' e → d ≡ d'
At-unique c e d d' a a' =
    let same = λ (k : ℕ) (x y : ℤ) (q : pos k +ℤ x ≡ pos k +ℤ y). eq_of_parts x y (
      let hp = ap pos_part q in
      let hn = ap neg_part q in omega (arith, +ℤ_parts (pos k) x, +ℤ_parts (pos k) y)) in
    let x = same c.cx d.dx d'.dx (a.x_at ∙ sym a'.x_at) in
    let y = same c.cy d.dy d'.dy (a.y_at ∙ sym a'.y_at) in
    let z = same c.cz d.dz d'.dz (a.z_at ∙ sym a'.z_at) in
    λ i. record { dx = x i; dy = y i; dz = z i }

pub In-forward_offsets :
    (c e : Cell) → Adjacent c e → precedes c e ≡ true → In (offset_between c e) forward_offsets
unfolding forward_offsets
In-forward_offsets c e a h =
    In-select is_forward (offset_between c e) neighbor_offsets
      (In-neighbor_offsets (step_to c.cx e.cx) (step_to c.cy e.cy) (step_to c.cz e.cz)
        (step_to-In c.cx e.cx) (step_to-In c.cy e.cy) (step_to-In c.cz e.cz))
      (is_forward-At c e (offset_between c e) (offset_between-At c e a) ∙ h)

step_bound : (a b : ℕ) (x : ℤ) → In x steps → pos a +ℤ x ≡ pos b → (b ≤ a + 1) × (a ≤ b + 1)
step_bound a b x m e =
    let h = +ℤ_parts (pos a) x in
    let hp = ap pos_part e in
    let hn = ap neg_part e in
    elim m [
      | inl q ↦ (let qp = ap pos_part q in let qn = ap neg_part q in omega arith)
      | inr (inl q) ↦ (let qp = ap pos_part q in let qn = ap neg_part q in omega arith)
      | inr (inr (inl q)) ↦ (let qp = ap pos_part q in let qn = ap neg_part q in omega arith)
      | inr (inr (inr q)) ↦ absurd q
    ]

-- A kept offset leads from a cell only to one that it precedes, next to it.
pub In-forward_offsets-At :
    (c e : Cell) (d : Offset)
    → In d forward_offsets
    → At c d e
    → (precedes c e ≡ true) × Adjacent c e
unfolding forward_offsets
In-forward_offsets-At c e d m a =
    let (m', h) = In-select_cases is_forward d neighbor_offsets m in
    let (z, mz, hz) =
      In-flat_map_cases
        (λ w.
          flat_map (λ v. map (λ u. let o : Offset = record { dx = u; dy = v; dz = w } in o) steps)
            steps)
        d steps m' in
    let (y, my, hy) =
      In-flat_map_cases
        (λ v. map (λ u. let o : Offset = record { dx = u; dy = v; dz = z } in o) steps) d steps
        hz in
    let (x, mx, ed) =
      In-map_cases (λ u. let o : Offset = record { dx = u; dy = y; dz = z } in o) d steps hy in
    let bx =
      step_bound c.cx e.cx d.dx (subst (λ u. In u steps) (sym (ap (λ (o : Offset). o.dx) ed)) mx)
        a.x_at in
    let by' =
      step_bound c.cy e.cy d.dy (subst (λ u. In u steps) (sym (ap (λ (o : Offset). o.dy) ed)) my)
        a.y_at in
    let bz =
      step_bound c.cz e.cz d.dz (subst (λ u. In u steps) (sym (ap (λ (o : Offset). o.dz) ed)) mz)
        a.z_at in
    (sym (is_forward-At c e d a) ∙ h, omega arith)
