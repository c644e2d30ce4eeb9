-- ===== src/Floats/Fixed.antt =====
-- Fixed-point numbers with nine decimals, which keep the laws of Floats: they stand in for the floats
-- in tests.
use reticulum_tnc.Base.{
  ℕ, zero, suc, ◌+◌, ◌-◌, ◌*◌, ◌/◌, ◌^◌, ◌≤◌, ◌<◌, ltb, leb, if◌then◌else◌, ◌≡◌, refl, Bool, true,
  false, ◌||◌, arith,
}
use reticulum_tnc.Floats.{Float, IsDecimal, IsStrict, IsSigned, IsOrdered, IsRounded}
use native.Mathlib.Nat.{
  pow-suc, le_trans, mul-le-mul_right, le_of_mul-le-mul_right, div-mul-le_self, le-div_iff_mul-le,
  mul_right_comm, mul-pos, pow-le-pow_right,
}

-- `up n` is n units, `down n` is minus n units.
pub data Fixed : Type 0 where
  up down : ℕ → Fixed

abbrev units : ℕ
units = 1000000000

abbrev pub fixed_lt : Fixed → Fixed → Bool
fixed_lt (up a) (up b) = ltb a b
fixed_lt (up a) (down b) = false
fixed_lt (down a) (up b) = ltb 0 (a + b)
fixed_lt (down a) (down b) = ltb b a

abbrev pub fixed_le : Fixed → Fixed → Bool
fixed_le (up a) (up b) = leb a b
fixed_le (up a) (down b) = leb (a + b) 0
fixed_le (down a) (up b) = true
fixed_le (down a) (down b) = leb b a

abbrev pub fixed_neg : Fixed → Fixed
fixed_neg (up a) = down a
fixed_neg (down a) = up a

abbrev pub fixed_abs : Fixed → Fixed
fixed_abs (up a) = up a
fixed_abs (down a) = up a

abbrev pub fixed_add : Fixed → Fixed → Fixed
fixed_add (up a) (up b) = up (a + b)
fixed_add (up a) (down b) = if leb b a then up (a - b) else down (b - a)
fixed_add (down a) (up b) = if leb a b then up (b - a) else down (a - b)
fixed_add (down a) (down b) = down (a + b)

abbrev pub fixed_mul : Fixed → Fixed → Fixed
fixed_mul (up a) (up b) = up (a * b / 1000000000)
fixed_mul (up a) (down b) = down (a * b / 1000000000)
fixed_mul (down a) (up b) = down (a * b / 1000000000)
fixed_mul (down a) (down b) = up (a * b / 1000000000)

abbrev pub fixed_div : Fixed → Fixed → Fixed
fixed_div (up a) (up b) = up (a * 1000000000 / b)
fixed_div (up a) (down b) = down (a * 1000000000 / b)
fixed_div (down a) (up b) = down (a * 1000000000 / b)
fixed_div (down a) (down b) = up (a * 1000000000 / b)

abbrev pub fixed_decimal : ℕ → ℕ → Fixed
fixed_decimal m k = up (m * 10 ^ 9 / 10 ^ k)

instance abbrev pub fixed_float : Float Fixed
fixed_float = record {
  decimal = fixed_decimal;
  infinity = up (10 ^ 60);
  lt = fixed_lt;
  le = fixed_le;
  neg = fixed_neg;
  abs = fixed_abs;
  add = fixed_add;
  sub = λ x y. fixed_add x (fixed_neg y);
  mul = fixed_mul;
  div = fixed_div;
  is_finite = λ x. true;
}

pub Fixed-IsStrict : IsStrict Fixed
Fixed-IsStrict = record { lt_not_le = not_le; lt_irrefl = irrefl; lt_trans = trans }
  where
    not_le : (x y : Fixed) → fixed_lt x y ≡ true → fixed_le y x ≡ false
    not_le (up a) (up b) h = ground arith
    not_le (up a) (down b) h = ground arith
    not_le (down a) (up b) h = ground arith
    not_le (down a) (down b) h = ground arith

    irrefl : (x : Fixed) → fixed_lt x x ≡ false
    irrefl (up a) = ground arith
    irrefl (down a) = ground arith

    trans : (x y z : Fixed) → fixed_lt x y ≡ true → fixed_lt y z ≡ true → fixed_lt x z ≡ true
    trans (up a) (up b) (up c) h g = ground arith
    trans (up a) (up b) (down c) h g = g
    trans (up a) (down b) z h g = ground arith
    trans (down a) (up b) (up c) h g = ground arith
    trans (down a) (up b) (down c) h g = ground arith
    trans (down a) (down b) (up c) h g = ground arith
    trans (down a) (down b) (down c) h g = ground arith

power_pos : (k : ℕ) → 0 < 10 ^ k
power_pos zero = omega arith
power_pos (suc k) = omega (arith, pow-suc 10 k, power_pos k)

-- Rounding down keeps the order of fractions.
div-le_of_cross : (a b c d : ℕ) → 0 < c → 0 < d → a * d ≤ b * c → a / c ≤ b / d
div-le_of_cross a b c d hc hd h =
    let low : a / c * d * c ≤ b * c =
      le_trans (rw (mul_right_comm (a / c) d c) (mul-le-mul_right d (div-mul-le_self a c))) h in
    (le-div_iff_mul-le hd).1 (le_of_mul-le-mul_right low hc)

units_le : (m k n j : ℕ) → m * 10 ^ j ≤ n * 10 ^ k → m * 10 ^ 9 / 10 ^ k ≤ n * 10 ^ 9 / 10 ^ j
units_le m k n j h =
    div-le_of_cross (m * 10 ^ 9) (n * 10 ^ 9) (10 ^ k) (10 ^ j) (power_pos k) (power_pos j) (
      rw (mul_right_comm m (10 ^ 9) (10 ^ j), mul_right_comm n (10 ^ 9) (10 ^ k))
        (mul-le-mul_right (10 ^ 9) h))

units_pos : (m k : ℕ) → k ≤ 9 → 0 < suc m * 10 ^ 9 / 10 ^ k
units_pos m k h =
    (le-div_iff_mul-le (power_pos k)).1
      (let p = pow-le-pow_right {n = 10} (omega arith) h in omega (arith, p))

pub Fixed-IsDecimal : IsDecimal Fixed
Fixed-IsDecimal = record {
  decimal_le = λ m k n j h. ground (arith, units_le m k n j h);
  decimal_not_lt = λ m k n j h. ground (arith, units_le m k n j h);
  decimal_above = λ m k h. ground (arith, units_pos m k h);
  decimal_positive = λ m k h. ground (arith, units_pos m k h);
}

pub Fixed-IsSigned : IsSigned Fixed
Fixed-IsSigned = record {
  zero_nonneg = refl;
  infinity_nonneg = refl;
  nonneg_not_neg = not_neg;
  neg_nonpos = nonpos;
  abs_nonneg = magnitude;
  add_neg = sum_neg;
  add_nonneg = sum_nonneg;
  mul_nonneg = product_nonneg;
  mul_nonpos = product_nonpos;
}
  where
    not_neg : (x : Fixed) → fixed_le (up 0) x ≡ true → fixed_lt x (up 0) ≡ false
    not_neg (up a) h = ground arith
    not_neg (down a) h = ground arith

    nonpos : (x : Fixed) → fixed_lt x (up 0) ≡ true → fixed_le x (up 0) ≡ true
    nonpos (up a) h = ground arith
    nonpos (down a) h = refl

    magnitude :
        (x : Fixed)
        → (fixed_lt x (up 0) || fixed_le (up 0) x) ≡ true
        → fixed_le (up 0) (fixed_abs x) ≡ true
    magnitude (up a) h = ground arith
    magnitude (down a) h = ground arith

    sum_neg :
        (x y : Fixed)
        → fixed_lt x (up 0) ≡ true
        → fixed_le y (up 0) ≡ true
        → fixed_lt (fixed_add x y) (up 0) ≡ true
    sum_neg (up a) y h g = ground arith
    sum_neg (down a) (up b) h g = ground arith
    sum_neg (down a) (down b) h g = ground arith

    sum_nonneg :
        (x y : Fixed)
        → fixed_le (up 0) x ≡ true
        → fixed_le (up 0) y ≡ true
        → fixed_le (up 0) (fixed_add x y) ≡ true
    sum_nonneg (up a) (up b) h g = ground arith
    sum_nonneg (up a) (down b) h g = ground arith
    sum_nonneg (down a) (up b) h g = ground arith
    sum_nonneg (down a) (down b) h g = ground arith

    product_nonneg :
        (n x : Fixed)
        → fixed_lt (up 0) n ≡ true
        → fixed_le n (up 1000000000) ≡ true
        → fixed_le (up 0) x ≡ true
        → fixed_le (up 0) (fixed_mul n x) ≡ true
    product_nonneg (up a) (up b) h t g = ground arith
    product_nonneg (up a) (down zero) h t g =
        let e : a * 0 / 1000000000 ≡ 0 = omega arith in ground (arith, e)
    product_nonneg (up a) (down (suc b)) h t g = absurd (ground arith)
    product_nonneg (down a) x h t g = absurd (ground arith)

    product_nonpos :
        (n x : Fixed)
        → fixed_lt (up 0) n ≡ true
        → fixed_le n (up 1000000000) ≡ true
        → fixed_le (up 0) x ≡ true
        → fixed_le (fixed_mul (fixed_neg n) x) (up 0) ≡ true
    product_nonpos (up a) (up b) h t g = ground arith
    product_nonpos (up a) (down zero) h t g =
        let e : a * 0 / 1000000000 ≡ 0 = omega arith in ground (arith, e)
    product_nonpos (up a) (down (suc b)) h t g = absurd (ground arith)
    product_nonpos (down a) x h t g = absurd (ground arith)

pub Fixed-IsOrdered : IsOrdered Fixed
Fixed-IsOrdered = record { le_trans = trans }
  where
    trans : (x y z : Fixed) → fixed_le x y ≡ true → fixed_le y z ≡ true → fixed_le x z ≡ true
    trans (up a) (up b) (up c) h g = ground arith
    trans (up a) (up b) (down c) h g = ground arith
    trans (up a) (down b) (up c) h g = ground arith
    trans (up a) (down b) (down c) h g = ground arith
    trans (down a) y (up c) h g = refl
    trans (down a) (up b) (down c) h g = ground arith
    trans (down a) (down b) (down c) h g = ground arith

units_whole : (a : ℕ) → a * 10 ^ 9 / 10 ^ 0 ≡ a * 1000000000
units_whole a = omega arith

-- The quotient of whole numbers in units.
quotient_units :
    (a b c n k : ℕ)
    → 1 ≤ b
    → 1 ≤ c
    → 2 * (n * (b * c)) ≤ a * 10 ^ k
    → n * 10 ^ 9 / 10 ^ k
      ≤ a * 1000000000 * 1000000000 / (b * 1000000000 * (c * 1000000000) / 1000000000)
quotient_units a b c n k hb hc h =
    let product : b * 1000000000 * (c * 1000000000) / 1000000000 ≡ b * c * 1000000000 =
      omega arith in
    let positive : 0 < b * c = mul-pos hb hc in
    rw product (
      div-le_of_cross (n * 10 ^ 9) (a * 1000000000 * 1000000000) (10 ^ k) (b * c * 1000000000)
        (power_pos k) (omega arith) (omega arith))

pub Fixed-IsRounded : IsRounded Fixed
Fixed-IsRounded = record {
  one_minus_positive = positive;
  one_minus_le = at_most;
  quotient_below = λ a b c n k ha hb hb' hc hc' hk h.
      rw (units_whole a, units_whole b, units_whole c)
        (ground (arith, quotient_units a b c n k hb hc h));
}
  where
    positive :
        (y : Fixed)
        → fixed_le (up 0) y ≡ true
        → fixed_lt y (up 1000000000) ≡ true
        → fixed_le (fixed_add (up 1000000000) (fixed_neg y)) (up 0) ≡ false
    positive (up b) h g = ground arith
    positive (down b) h g = ground arith

    at_most :
        (y : Fixed)
        → fixed_le (up 0) y ≡ true
        → fixed_lt (up 1000000000) (fixed_add (up 1000000000) (fixed_neg y)) ≡ false
    at_most (up b) h = ground arith
    at_most (down b) h = ground arith
