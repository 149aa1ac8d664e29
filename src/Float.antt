-- ===== src/Float.antt =====
-- Python's `float`, as an interface: the operations that the code applies to a float, and the laws
-- that the theorems use. NaN is left out, so the order is total; the laws are those of IEEE 754
-- arithmetic rounded to nearest, where no operation overflows.
pub mod Milli
use poly_cortex.Base.{
  ℕ, ◌≡◌, Bool, true, false, not, ◌&&◌, ◌⊎◌, inl, inr, Option, none, some, List, [], ◌∷◌,
  if◌then◌else◌, arith, refl,
}

pub record Float {ℓ} (F : Type ℓ) : Type ℓ where
  -- The decimal literal m / 10 ^ k.
  pub lit : ℕ → ℕ → F
  pub lt : F → F → Bool
  pub le : F → F → Bool
  pub add : F → F → F
  pub sub : F → F → F
  pub mul : F → F → F
  -- The quotient where the divisor is not zero.
  pub quot : F → F → F
  -- `round(x, n)`
  pub round : F → ℕ → F
  -- `ceil(x)` of a number that is not negative.
  pub ceil : F → ℕ
  -- `int(x)` of a number that is not negative.
  pub trunc : F → ℕ

infix 4 ◌≼◌ ◌≺◌
abbrev pub ◌≼◌ {ℓ} : {F : Type ℓ} ⦃f : Float F⦄ → F → F → Type 0
◌≼◌ ⦃f⦄ x y = f.le x y ≡ true

abbrev pub ◌≺◌ {ℓ} : {F : Type ℓ} ⦃f : Float F⦄ → F → F → Type 0
◌≺◌ ⦃f⦄ x y = f.lt x y ≡ true

module _ {ℓ} {F : Type ℓ} ⦃f : Float F⦄ where
  abbrev pub nought : F
  nought = f.lit 0 0

  abbrev pub one : F
  one = f.lit 1 0

  abbrev pub eq : F → F → Bool
  eq x y = f.le x y && f.le y x

  -- The truth value of a float.
  abbrev pub truthy : F → Bool
  truthy x = not (eq x nought)

  -- `max(x, y)` is `x` unless `y` is greater.
  abbrev pub fmax : F → F → F
  fmax x y = if f.lt x y then y else x

  -- `min(x, y)` is `x` unless `y` is smaller.
  abbrev pub fmin : F → F → F
  fmin x y = if f.lt y x then y else x

  abbrev pub neg : F → F
  neg x = f.sub nought x

  abbrev pub abs : F → F
  abs x = if f.lt x nought then neg x else x

  -- `x / y`; `none` is ZeroDivisionError.
  abbrev pub div : F → F → Option F
  div x y = if eq y nought then none else some (f.quot x y)

  -- `sum` adds from the left.
  abbrev pub sum_from : F → List F → F
  sum_from acc [] = acc
  sum_from acc (x ∷ xs) = sum_from (f.add acc x) xs

  abbrev pub sum : List F → F
  sum xs = sum_from nought xs

pub record IsOrdered {ℓ} (F : Type ℓ) ⦃f : Float F⦄ : Type ℓ where
  pub le_trans : (x y z : F) → x ≼ y → y ≼ z → x ≼ z
  pub le_total : (x y : F) → (x ≼ y) ⊎ (y ≼ x)
  pub lt-eq-not-le : (x y : F) → f.lt x y ≡ not (f.le y x)

-- Monotonicity of the rounded operations.
pub record IsMonotone {ℓ} (F : Type ℓ) ⦃f : Float F⦄ : Type ℓ where
  pub sub_mono : (x y z : F) → x ≼ y → f.sub x z ≼ f.sub y z
  pub sub_anti : (x y z : F) → x ≼ y → f.sub z y ≼ f.sub z x
  pub sub_nonneg : (x y : F) → x ≼ y → nought ≼ f.sub y x
  -- Different numbers have a difference, down to the subnormal ones.
  pub sub_pos : (x y : F) → x ≺ y → nought ≺ f.sub y x
  pub zero-le-one : f.lit 0 0 ≼ f.lit 1 0
  pub sub-le : (x y : F) → nought ≼ y → f.sub x y ≼ x
  pub mul_nonneg : (x y : F) → nought ≼ x → nought ≼ y → nought ≼ f.mul x y
  pub mul-le : (x y : F) → nought ≼ x → y ≼ one → f.mul x y ≼ x
  pub mul_mono : (x y z : F) → nought ≼ z → x ≼ y → f.mul x z ≼ f.mul y z
  pub quot_mono : (x y z : F) → nought ≺ z → x ≼ y → f.quot x z ≼ f.quot y z
  pub quot_nonneg : (x y : F) → nought ≼ x → nought ≺ y → nought ≼ f.quot x y
  pub quot-le_one : (x y : F) → x ≼ y → nought ≺ y → f.quot x y ≼ one
  pub round_mono : (x y : F) (n : ℕ) → x ≼ y → f.round x n ≼ f.round y n

-- Literals by their size, and more laws of the rounded operations.
pub record IsScaled {ℓ} (F : Type ℓ) ⦃f : Float F⦄ : Type ℓ where
  pub cent_pos : f.lit 0 0 ≺ f.lit 1 2
  pub cent-le : f.lit 1 2 ≼ f.lit 99 2
  pub below_one : f.lit 99 2 ≺ f.lit 1 0
  pub tiny_nonneg : f.lit 0 0 ≼ f.lit 1 8
  pub half_nonneg : f.lit 0 0 ≼ f.lit 5 1
  pub most_nonneg : f.lit 0 0 ≼ f.lit 8 1
  pub add_pos : (x y : F) → nought ≺ x → nought ≼ y → nought ≺ f.add x y
  pub le-add : (x y : F) → nought ≼ y → x ≼ f.add x y
  pub le-mul : (x y : F) → nought ≼ x → one ≼ y → x ≼ f.mul x y
  pub le-quot : (x y : F) → nought ≼ x → nought ≺ y → y ≼ one → x ≼ f.quot x y

module _ {ℓ} {F : Type ℓ} ⦃f : Float F⦄ (laws : IsOrdered F) where
  open laws use {le_trans, le_total, lt-eq-not-le}

  pub le_refl : (x : F) → x ≼ x
  le_refl x = elim (le_total x x) [ inl h ↦ h | inr h ↦ h ]

  pub le_of_lt : (x y : F) → x ≺ y → x ≼ y
  le_of_lt x y h = ground (arith, le_total x y, lt-eq-not-le x y)

  pub le_of_not_lt : (x y : F) → f.lt x y ≡ false → y ≼ x
  le_of_not_lt x y h = ground (arith, lt-eq-not-le x y)

  pub lt_of_not_le : (x y : F) → f.le x y ≡ false → y ≺ x
  lt_of_not_le x y h = ground (arith, lt-eq-not-le y x)

  pub not-le_of_lt : (x y : F) → x ≺ y → f.le y x ≡ false
  not-le_of_lt x y h = ground (arith, lt-eq-not-le x y)

  pub lt_trans_le : (x y z : F) → x ≺ y → y ≼ z → x ≺ z
  lt_trans_le x y z h k = ground (arith, le_trans y z x k, lt-eq-not-le x y, lt-eq-not-le x z)

  pub lt_of_le_lt : (x y z : F) → x ≼ y → y ≺ z → x ≺ z
  lt_of_le_lt x y z h k = ground (arith, le_trans z x y, lt-eq-not-le y z, lt-eq-not-le x z)

  pub le-fmax_left : (x y : F) → x ≼ fmax x y
  le-fmax_left x y = ground (arith, le_of_lt x y, le_refl x)

  pub le-fmax_right : (x y : F) → y ≼ fmax x y
  le-fmax_right x y = ground (arith, le_of_not_lt x y, le_refl y)

  pub fmin-le_left : (x y : F) → fmin x y ≼ x
  fmin-le_left x y = ground (arith, le_of_lt y x, le_refl x)

  pub fmin-le_right : (x y : F) → fmin x y ≼ y
  fmin-le_right x y = ground (arith, le_of_not_lt y x, le_refl y)

  pub le-fmin : (x y z : F) → z ≼ x → z ≼ y → z ≼ fmin x y
  le-fmin x y z h k = ground arith

  pub fmax-le : (x y z : F) → x ≼ z → y ≼ z → fmax x y ≼ z
  fmax-le x y z h k = ground arith

  -- A value that is above zero is no divisor that raises.
  pub div-pos : (x y : F) → nought ≺ y → div x y ≡ some (f.quot x y)
  div-pos x y h = ground (arith, not-le_of_lt nought y h)
