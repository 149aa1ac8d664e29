-- ===== src/Float/Milli.antt =====
-- A concrete arithmetic that meets the laws: whole thousandths, with products and quotients rounded
-- towards zero.
use poly_cortex.Base.{
  ℕ, zero, suc, ◌+◌, ◌*◌, ◌/◌, ◌^◌, ◌≤◌, ◌≡◌, true, arith, leb, leb→le, le→leb, refl,
}
use poly_cortex.Base.Int.{
  ℤ, pos, negsuc, pos_part, neg_part, sub_ℕ, ◌+ℤ◌, ◌-ℤ◌, ◌≤ℤ◌, ltb_ℤ, leb_ℤ, int_laws,
}
use native.Mathlib.Nat.{div-le_of_le-mul, le-div_iff_mul-le}
use poly_cortex.Float.{Float, IsOrdered, IsMonotone, IsScaled}

-- Rounding to `n` places keeps the nearest multiple of a unit, halves away from zero.
abbrev unit : ℕ → ℕ
unit zero = 1000
unit (suc zero) = 100
unit (suc (suc zero)) = 10
unit (suc (suc (suc n))) = 1

abbrev nearest : ℕ → ℕ → ℕ
nearest x u = (x + u / 2) / u * u

instance abbrev pub milli : Float ℤ
milli = record {
  lit = λ m k. pos (m * 1000 / 10 ^ k);
  lt = ltb_ℤ;
  le = leb_ℤ;
  add = ◌+ℤ◌;
  sub = ◌-ℤ◌;
  mul = λ x y.
      sub_ℕ ((pos_part x * pos_part y + neg_part x * neg_part y) / 1000)
        ((pos_part x * neg_part y + neg_part x * pos_part y) / 1000);
  quot = λ x y.
      sub_ℕ (pos_part x * 1000 / pos_part y + neg_part x * 1000 / neg_part y)
        (pos_part x * 1000 / neg_part y + neg_part x * 1000 / pos_part y);
  round = λ x n. sub_ℕ (nearest (pos_part x) (unit n)) (nearest (neg_part x) (unit n));
  ceil = λ x. (pos_part x + 999) / 1000;
  trunc = λ x. pos_part x / 1000;
}

pub milli-IsOrdered : IsOrdered ℤ
milli-IsOrdered = record {
  le_trans = λ x y z h k. ground arith;
  le_total = λ x y. ground arith;
  lt-eq-not-le = λ x y. ground arith;
}

mul_mono_left : (a b c : ℕ) → a ≤ b → a * c ≤ b * c
mul_mono_left a b c h = grind arith

div_mono : (a b c : ℕ) → a ≤ b → a / c ≤ b / c
div_mono a b c h = grind arith

nearest_mono : (a b u : ℕ) → a ≤ b → nearest a u ≤ nearest b u
nearest_mono a b u h = mul_mono_left _ _ u (div_mono (a + u / 2) (b + u / 2) u (omega arith))

-- The order of two differences, from their parts.
sub_ℕ_mono : (a b c d : ℕ) → a + d ≤ c + b → sub_ℕ a b ≤ℤ sub_ℕ c d
sub_ℕ_mono a b c d h = ground arith

sub_ℕ_le : (a b c : ℕ) → a ≤ c + b → sub_ℕ a b ≤ℤ pos c
sub_ℕ_le a b c h = ground arith

-- The tests agree with the orders.
of_leb : (x y : ℤ) → leb_ℤ x y ≡ true → x ≤ℤ y
of_leb x y h = leb→le _ _ h

to_leb : (x y : ℤ) → x ≤ℤ y → leb_ℤ x y ≡ true
to_leb x y h = le→leb _ _ h

of_ltb : (x : ℤ) → ltb_ℤ (pos 0) x ≡ true → pos 1 ≤ℤ x
of_ltb x h = ground arith

of_lt :
    (x y : ℤ)
    → ltb_ℤ x y ≡ true
    → leb (pos_part x + neg_part y + 1) (pos_part y + neg_part x) ≡ true
of_lt x y h = ground arith

lt_zero : (x : ℤ) → pos 1 ≤ℤ x → ltb_ℤ (pos 0) x ≡ true
lt_zero x h = ground arith

mul_nonneg_milli : (x y : ℤ) → pos 0 ≤ℤ x → pos 0 ≤ℤ y → pos 0 ≤ℤ milli.mul x y
mul_nonneg_milli (pos a) (pos b) h k = sub_ℕ_mono 0 0 _ _ (omega arith)
mul_nonneg_milli (pos a) (negsuc b) h k = absurd (omega arith)
mul_nonneg_milli (negsuc a) y h k = absurd (omega arith)

mul-le_milli : (x y : ℤ) → pos 0 ≤ℤ x → y ≤ℤ pos 1000 → milli.mul x y ≤ℤ x
mul-le_milli (pos a) (pos b) h k =
    sub_ℕ_le _ _ a (omega (arith, mul_mono_left b 1000 a (omega arith)))
mul-le_milli (pos a) (negsuc b) h k = sub_ℕ_le _ _ a (omega arith)
mul-le_milli (negsuc a) y h k = absurd (omega arith)

mul_mono_milli : (x y z : ℤ) → pos 0 ≤ℤ z → x ≤ℤ y → milli.mul x z ≤ℤ milli.mul y z
mul_mono_milli x y (pos c) k h = sub_ℕ_mono _ _ _ _ (
    omega (
      arith,
      div_mono _ _ 1000 (mul_mono_left (pos_part x) (pos_part y) c (ground arith)),
      div_mono _ _ 1000 (mul_mono_left (neg_part y) (neg_part x) c (ground arith)),
    ))
mul_mono_milli x y (negsuc c) k h = absurd (omega arith)

quot_nonneg_milli : (x y : ℤ) → pos 0 ≤ℤ x → pos 1 ≤ℤ y → pos 0 ≤ℤ milli.quot x y
quot_nonneg_milli (pos a) (pos b) h k = sub_ℕ_mono 0 0 _ _ (omega arith)
quot_nonneg_milli (pos a) (negsuc b) h k = absurd (omega arith)
quot_nonneg_milli (negsuc a) y h k = absurd (omega arith)

div-le_thousand : (a b : ℕ) → a ≤ b → a * 1000 / b ≤ 1000
div-le_thousand a b h = div-le_of_le-mul b (omega arith)

quot-le_milli : (x y : ℤ) → x ≤ℤ y → pos 1 ≤ℤ y → milli.quot x y ≤ℤ pos 1000
quot-le_milli (pos a) (pos b) h k =
    sub_ℕ_le _ _ 1000 (omega (arith, div-le_thousand a b (omega arith)))
quot-le_milli (negsuc a) (pos b) h k = sub_ℕ_le _ _ 1000 (omega arith)
quot-le_milli x (negsuc b) h k = absurd (omega arith)

quot_mono_milli : (x y z : ℤ) → pos 1 ≤ℤ z → x ≤ℤ y → milli.quot x z ≤ℤ milli.quot y z
quot_mono_milli x y (pos c) k h = sub_ℕ_mono _ _ _ _ (
    omega (
      arith,
      div_mono (pos_part x * 1000) (pos_part y * 1000) c (ground arith),
      div_mono (neg_part y * 1000) (neg_part x * 1000) c (ground arith),
    ))
quot_mono_milli x y (negsuc c) k h = absurd (omega arith)

round_mono_milli : (x y : ℤ) (n : ℕ) → x ≤ℤ y → milli.round x n ≤ℤ milli.round y n
round_mono_milli x y n h = sub_ℕ_mono _ _ _ _ (
    omega (
      arith,
      nearest_mono (pos_part x) (pos_part y) (unit n) (ground arith),
      nearest_mono (neg_part y) (neg_part x) (unit n) (ground arith),
    ))

pub milli-IsMonotone : IsMonotone ℤ
milli-IsMonotone = record {
  sub_mono = λ x y z h. to_leb (x -ℤ z) (y -ℤ z) (omega (int_laws, of_leb x y h));
  sub_anti = λ x y z h. to_leb (z -ℤ y) (z -ℤ x) (omega (int_laws, of_leb x y h));
  sub_nonneg = λ x y h. to_leb (pos 0) (y -ℤ x) (omega (int_laws, of_leb x y h));
  sub_pos = λ x y h. lt_zero (y -ℤ x) (omega (int_laws, leb→le _ _ (of_lt x y h)));
  zero-le-one = refl;
  sub-le = λ x y h. to_leb (x -ℤ y) x (omega (int_laws, of_leb (pos 0) y h));
  mul_nonneg = λ x y h k.
      to_leb (pos 0) (milli.mul x y)
        (mul_nonneg_milli x y (of_leb (pos 0) x h) (of_leb (pos 0) y k));
  mul-le = λ x y h k.
      to_leb (milli.mul x y) x (mul-le_milli x y (of_leb (pos 0) x h) (of_leb y (pos 1000) k));
  mul_mono = λ x y z h k.
      to_leb (milli.mul x z) (milli.mul y z)
        (mul_mono_milli x y z (of_leb (pos 0) z h) (of_leb x y k));
  quot_mono = λ x y z h k.
      to_leb (milli.quot x z) (milli.quot y z) (quot_mono_milli x y z (of_ltb z h) (of_leb x y k));
  quot_nonneg = λ x y h k.
      to_leb (pos 0) (milli.quot x y) (quot_nonneg_milli x y (of_leb (pos 0) x h) (of_ltb y k));
  quot-le_one =
      λ x y h k. to_leb (milli.quot x y) (pos 1000) (quot-le_milli x y (of_leb x y h) (of_ltb y k));
  round_mono =
      λ x y n h. to_leb (milli.round x n) (milli.round y n) (round_mono_milli x y n (of_leb x y h));
}

le-sub_ℕ : (a b c : ℕ) → a + c ≤ b → pos a ≤ℤ sub_ℕ b c
le-sub_ℕ a b c h = ground arith

le-div : (a b : ℕ) → 1 ≤ b → b ≤ 1000 → a ≤ a * 1000 / b
le-div a b h k = (le-div_iff_mul-le {k = b} h).1 (grind arith)

le-quot_milli : (x y : ℤ) → pos 0 ≤ℤ x → pos 1 ≤ℤ y → y ≤ℤ pos 1000 → x ≤ℤ milli.quot x y
le-quot_milli (pos a) (pos b) h k l =
    le-sub_ℕ a _ _ (omega (arith, le-div a b (omega arith) (omega arith)))
le-quot_milli (pos a) (negsuc b) h k l = absurd (omega arith)
le-quot_milli (negsuc a) y h k l = absurd (omega arith)

le-mul_thousand : (a b : ℕ) → 1000 ≤ b → a ≤ a * b / 1000
le-mul_thousand a b h = (le-div_iff_mul-le {k = 1000} (omega arith)).1 (grind arith)

le-mul_milli : (x y : ℤ) → pos 0 ≤ℤ x → pos 1000 ≤ℤ y → x ≤ℤ milli.mul x y
le-mul_milli (pos a) (pos b) h k = le-sub_ℕ a _ _ (omega (arith, le-mul_thousand a b (omega arith)))
le-mul_milli (pos a) (negsuc b) h k = absurd (omega arith)
le-mul_milli (negsuc a) y h k = absurd (omega arith)

pub milli-IsScaled : IsScaled ℤ
milli-IsScaled = record {
  cent_pos = refl;
  cent-le = refl;
  below_one = refl;
  tiny_nonneg = refl;
  half_nonneg = refl;
  most_nonneg = refl;
  add_pos = λ x y h k. lt_zero (x +ℤ y) (omega (int_laws, of_ltb x h, of_leb (pos 0) y k));
  le-add = λ x y h. to_leb x (x +ℤ y) (omega (int_laws, of_leb (pos 0) y h));
  le-mul = λ x y h k.
      to_leb x (milli.mul x y) (le-mul_milli x y (of_leb (pos 0) x h) (of_leb (pos 1000) y k));
  le-quot = λ x y h k l.
      to_leb x (milli.quot x y)
        (le-quot_milli x y (of_leb (pos 0) x h) (of_ltb y k) (of_leb y (pos 1000) l));
}
