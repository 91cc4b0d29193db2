-- ===== src/Numeric/Whole.antt =====
-- Whole numbers as an instance of the program's numbers: every operation runs, and the laws of
-- exact arithmetic hold, with the division and the square root rounded down.
use native.Mathlib.Decide.{dec_lt}
use native.Mathlib.Nat.{
  le-div_iff_mul-le, div-mul-le_self, add-div_right, div-eq-sub-div, div-eq_of_lt,
}
use drone_swarm_simulator.Prelude.{
  ℕ, zero, suc, ◌+◌, ◌*◌, ◌/◌, ◌≤◌, ◌<◌, ◌≡◌, refl, true, arith, leb, if◌then◌else◌, inl, inr, ◌⊎◌,
  ◌&&◌, ltb→lt, ap, ◌∙◌, ◌-◌,
}
use drone_swarm_simulator.Prelude.Int.{
  ℤ, pos, negsuc, pos_part, neg_part, ◌+ℤ◌, ◌-ℤ◌, ◌*ℤ◌, ◌≤ℤ◌, leb_ℤ, ltb_ℤ, +ℤ_parts, -ℤ_parts,
}
use drone_swarm_simulator.Numeric.{Floats, IsExact}

-- The largest k ≤ bound with k * k ≤ n.
unfoldable pub isqrt_below : ℕ → ℕ → ℕ
isqrt_below zero n = 0
isqrt_below (suc k) n = let rest = isqrt_below k n in if leb (suc k * suc k) n then suc k else rest

unfoldable pub isqrt : ℤ → ℤ
isqrt (pos n) = pos (isqrt_below n n)
isqrt (negsuc n) = pos 0

unfoldable pub floor_div : ℤ → ℤ → ℤ
floor_div (pos a) (pos b) = pos (a / b)
floor_div (negsuc a) (pos b) = negsuc (a / b)
floor_div a (negsuc b) = pos 0

instance unfoldable pub whole : Floats ℤ
unfolding isqrt isqrt_below floor_div ◌+ℤ◌ ◌-ℤ◌ ◌*ℤ◌
whole = record {
  le = leb_ℤ;
  lt = ltb_ℤ;
  eq = λ a b. leb_ℤ a b && leb_ℤ b a;
  add = ◌+ℤ◌;
  sub = ◌-ℤ◌;
  mul = ◌*ℤ◌;
  div = floor_div;
  neg = λ a. pos 0 -ℤ a;
  sqrt = isqrt;
  floor = λ a. a;
  ceil = λ a. a;
  of_ℕ = pos;
  half = pos 0;
  to_float32 = λ a. a;
}

isqrt_below-square : (k n : ℕ) → isqrt_below k n * isqrt_below k n ≤ n
unfolding isqrt_below
isqrt_below-square zero n = omega arith
isqrt_below-square (suc k) n = ground (arith, isqrt_below-square k n)

le-isqrt_below : (k n a : ℕ) → a ≤ k → a * a ≤ n → a ≤ isqrt_below k n
unfolding isqrt_below
le-isqrt_below zero n a h s = omega arith
le-isqrt_below (suc k) n a h s = ground (arith, le-isqrt_below k n a)

le_square : (a : ℕ) → a ≤ a * a
le_square zero = omega arith
le_square (suc a) = grind arith

isqrt_below_mono : (m n : ℕ) → m ≤ n → isqrt_below m m ≤ isqrt_below n n
isqrt_below_mono m n h =
    let s = isqrt_below-square m m in
    le-isqrt_below n n (isqrt_below m m) (omega (arith, le_square (isqrt_below m m))) (omega arith)

ruleset le_laws = (arith, +ℤ_parts, -ℤ_parts)

leb→≤ℤ : (a b : ℤ) → leb_ℤ a b ≡ true → a ≤ℤ b
leb→≤ℤ a b h = ground arith

≤ℤ→leb : (a b : ℤ) → a ≤ℤ b → leb_ℤ a b ≡ true
≤ℤ→leb a b h = ground arith

isqrt_mono : (a b : ℤ) → a ≤ℤ b → isqrt a ≤ℤ isqrt b
unfolding isqrt
isqrt_mono (pos m) (pos n) h = omega (arith, isqrt_below_mono m n (omega arith))
isqrt_mono (pos m) (negsuc n) h = absurd (omega arith)
isqrt_mono (negsuc m) (pos n) h = omega arith
isqrt_mono (negsuc m) (negsuc n) h = omega arith

square-pos : (a : ℕ) → pos a *ℤ pos a ≡ pos (a * a)
unfolding ◌*ℤ◌
square-pos a = ground arith

square-negsuc : (a : ℕ) → negsuc a *ℤ negsuc a ≡ pos (suc a * suc a)
unfolding ◌*ℤ◌
square-negsuc a = ground arith

le-isqrt-square : (a : ℤ) → a ≤ℤ isqrt (a *ℤ a)
unfolding isqrt
le-isqrt-square (pos a) =
    rw square-pos (omega (arith, le-isqrt_below (a * a) (a * a) a (le_square a)))
le-isqrt-square (negsuc a) = rw square-negsuc (omega arith)

square_nonneg : (a : ℤ) → leb_ℤ (pos 0) (a *ℤ a) ≡ true
square_nonneg (pos a) = rw square-pos (≤ℤ→leb (pos 0) (pos (a * a)) (omega arith))
square_nonneg (negsuc a) = rw square-negsuc (≤ℤ→leb (pos 0) (pos (suc a * suc a)) (omega arith))

le-add_right : (a b : ℤ) → leb_ℤ (pos 0) b ≡ true → leb_ℤ a (a +ℤ b) ≡ true
le-add_right a b h = let h' = leb→≤ℤ (pos 0) b h in ≤ℤ→leb a (a +ℤ b) (omega le_laws)

le-add_left : (a b : ℤ) → leb_ℤ (pos 0) b ≡ true → leb_ℤ a (b +ℤ a) ≡ true
le-add_left a b h = let h' = leb→≤ℤ (pos 0) b h in ≤ℤ→leb a (b +ℤ a) (omega le_laws)

square_of_parts : (a b : ℤ) → pos_part a ≡ neg_part b → neg_part a ≡ pos_part b → a *ℤ a ≡ b *ℤ b
square_of_parts (pos a) (pos b) p q = cc (p, q)
square_of_parts (pos a) (negsuc b) p q = rw (square-pos, square-negsuc) (rw p)
square_of_parts (negsuc a) (pos b) p q = rw (square-pos, square-negsuc) (rw q)
square_of_parts (negsuc a) (negsuc b) p q = absurd (omega arith)

part_zero : (a : ℤ) → (pos_part a ≡ 0) ⊎ (neg_part a ≡ 0)
part_zero (pos a) = inr refl
part_zero (negsuc a) = inl refl

square-sub_comm : (a b : ℤ) → (a -ℤ b) *ℤ (a -ℤ b) ≡ (b -ℤ a) *ℤ (b -ℤ a)
square-sub_comm a b =
    square_of_parts (a -ℤ b) (b -ℤ a)
      (omega (arith, -ℤ_parts a b, -ℤ_parts b a, part_zero (a -ℤ b), part_zero (b -ℤ a)))
      (omega (arith, -ℤ_parts a b, -ℤ_parts b a, part_zero (a -ℤ b), part_zero (b -ℤ a)))

pub div_mono : (a b c : ℕ) → 0 < c → a ≤ b → a / c ≤ b / c
div_mono a b c h k = (le-div_iff_mul-le h).1 (omega (arith, div-mul-le_self a c))

floor_div_mono : (a b : ℤ) (c : ℕ) → 0 < c → a ≤ℤ b → floor_div a (pos c) ≤ℤ floor_div b (pos c)
unfolding floor_div
floor_div_mono (pos a) (pos b) c h k = omega (arith, div_mono a b c h (omega arith))
floor_div_mono (pos a) (negsuc b) c h k = absurd (omega arith)
floor_div_mono (negsuc a) (pos b) c h k = omega arith
floor_div_mono (negsuc a) (negsuc b) c h k = omega (arith, div_mono b a c h (omega arith))

negsuc-add_small : (a c : ℕ) → a < c → negsuc a +ℤ pos c ≡ pos (c - suc a)
unfolding ◌+ℤ◌
negsuc-add_small a c h = ground arith

negsuc-add_large : (a c : ℕ) → c ≤ a → negsuc a +ℤ pos c ≡ negsuc (a - c)
unfolding ◌+ℤ◌
negsuc-add_large a c h = ground arith

negsuc-add_quotient :
    (a c : ℕ) → 0 < c → floor_div (negsuc a +ℤ pos c) (pos c) ≡ negsuc (a / c) +ℤ pos 1
unfolding floor_div
negsuc-add_quotient a c h = elim (dec_lt a c) [
  | yes small ↦
      rw (negsuc-add_small a c small, div-eq_of_lt small)
        (rw (negsuc-add_small 0 1 (omega arith))
          (rw (div-eq_of_lt (let lt : c - suc a < c = omega arith in lt))))
  | no large ↦
      rw (negsuc-add_large a c (omega arith), div-eq-sub-div {m = c} {n = a} h (omega arith))
        (rw (negsuc-add_large ((a - c) / c + 1) 1 (omega arith)) (ap negsuc (omega arith)))
]

floor_div-add_self :
    (a : ℤ) (c : ℕ) → 0 < c → floor_div (a +ℤ pos c) (pos c) ≡ floor_div a (pos c) +ℤ pos 1
floor_div-add_self (pos a) c h = unfold floor_div ◌+ℤ◌ in ground (arith, add-div_right a h)
floor_div-add_self (negsuc a) c h = negsuc-add_quotient a c h ∙ unfold floor_div in refl

ℤ_total : (a b : ℤ) → (leb_ℤ a b ≡ true) ⊎ (leb_ℤ b a ≡ true)
ℤ_total a b = ground arith

floor_div_mono' :
    (a b c : ℤ)
    → ltb_ℤ (pos 0) c ≡ true
    → leb_ℤ a b ≡ true
    → leb_ℤ (floor_div a c) (floor_div b c) ≡ true
floor_div_mono' a b (pos c) h k =
    ≤ℤ→leb (floor_div a (pos c)) (floor_div b (pos c))
      (floor_div_mono a b c (omega (arith, ltb→lt (0 + 0) (c + 0) h)) (leb→≤ℤ a b k))
floor_div_mono' a b (negsuc c) h k = absurd (omega (arith, ltb→lt (0 + suc c) (0 + 0) h))

floor_div-add_self' :
    (a c : ℤ) → ltb_ℤ (pos 0) c ≡ true → floor_div (a +ℤ c) c ≡ floor_div a c +ℤ pos 1
floor_div-add_self' a (pos c) h = floor_div-add_self a c (omega (arith, ltb→lt (0 + 0) (c + 0) h))
floor_div-add_self' a (negsuc c) h = absurd (omega (arith, ltb→lt (0 + suc c) (0 + 0) h))

isqrt_mono' : (a b : ℤ) → leb_ℤ a b ≡ true → leb_ℤ (isqrt a) (isqrt b) ≡ true
isqrt_mono' a b h = ≤ℤ→leb (isqrt a) (isqrt b) (isqrt_mono a b (leb→≤ℤ a b h))

sub_le_shift : (a b c l : ℤ) → leb_ℤ (a -ℤ b) c ≡ true → leb_ℤ (a -ℤ l) (b -ℤ l +ℤ c) ≡ true
sub_le_shift a b c l h =
    let h' = leb→≤ℤ (a -ℤ b) c h in ≤ℤ→leb (a -ℤ l) (b -ℤ l +ℤ c) (omega le_laws)

sub_le_right : (a b c e : ℤ) → leb_ℤ (a -ℤ b) c ≡ true → leb_ℤ b e ≡ true → leb_ℤ a (e +ℤ c) ≡ true
sub_le_right a b c e h k =
    let h' = leb→≤ℤ (a -ℤ b) c h in let k' = leb→≤ℤ b e k in ≤ℤ→leb a (e +ℤ c) (omega le_laws)

sub_le_left : (a b c e : ℤ) → leb_ℤ (a -ℤ b) c ≡ true → leb_ℤ e a ≡ true → leb_ℤ (e -ℤ c) b ≡ true
sub_le_left a b c e h k =
    let h' = leb→≤ℤ (a -ℤ b) c h in let k' = leb→≤ℤ e a k in ≤ℤ→leb (e -ℤ c) b (omega le_laws)

pub whole-IsExact : IsExact ℤ
unfolding whole
whole-IsExact = record {
  le_refl = λ a. ≤ℤ→leb a a (omega arith);
  le_trans = λ a b c h k. ground arith;
  lt-eq-not-le = λ a b. ground arith;
  le_total = ℤ_total;
  sqrt_mono = isqrt_mono';
  le-sqrt-square = λ a. ≤ℤ→leb a (isqrt (a *ℤ a)) (le-isqrt-square a);
  square_nonneg = square_nonneg;
  le-add_right = le-add_right;
  le-add_left = le-add_left;
  square-sub_comm = square-sub_comm;
  sub_le_shift = sub_le_shift;
  sub_le_right = sub_le_right;
  sub_le_left = sub_le_left;
  div_mono = floor_div_mono';
  div-add_self = floor_div-add_self';
  floor_mono = λ a b h. leb→≤ℤ a b h;
  floor-add-one = λ a. refl;
}
