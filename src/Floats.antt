-- ===== src/Floats.antt =====
-- All that the code does with `float` and `double` values, as an interface: a theorem holds for any
-- implementation of it that keeps the laws the theorem names.
pub mod Fixed
use reticulum_tnc.Base.{ℕ, suc, ◌*◌, ◌^◌, ◌≤◌, ◌<◌, ◌≡◌, Bool, true, false, ◌||◌}

-- `decimal m k` is the literal m / 10^k. A comparison with a NaN is false. The type has both widths, and
-- a conversion to the wider one is the same value.
pub record Float (F : Type 0) : Type 0 where
  pub decimal : ℕ → ℕ → F
  pub infinity : F
  pub lt : F → F → Bool
  pub le : F → F → Bool
  pub neg : F → F
  pub abs : F → F
  pub add : F → F → F
  pub sub : F → F → F
  pub mul : F → F → F
  pub div : F → F → F
  pub is_finite : F → Bool

abbrev pub zero_float : {F : Type 0} → ⦃f : Float F⦄ → F
zero_float ⦃f⦄ = f.decimal 0 0

-- Literals keep their order when they are rounded, and one with a value of at least 10^-9 is positive.
pub record IsDecimal (F : Type 0) ⦃f : Float F⦄ : Type 0 where
  pub decimal_le :
      (m k n j : ℕ) → m * 10 ^ j ≤ n * 10 ^ k → f.le (f.decimal m k) (f.decimal n j) ≡ true
  pub decimal_not_lt :
      (m k n j : ℕ) → m * 10 ^ j ≤ n * 10 ^ k → f.lt (f.decimal n j) (f.decimal m k) ≡ false
  pub decimal_above : (m k : ℕ) → k ≤ 9 → f.lt (f.decimal 0 0) (f.decimal (suc m) k) ≡ true
  pub decimal_positive : (m k : ℕ) → k ≤ 9 → f.le (f.decimal (suc m) k) (f.decimal 0 0) ≡ false

-- The signs of results, without NaN: of sums, of magnitudes, and of multiples by a factor up to 1.
pub record IsSigned (F : Type 0) ⦃f : Float F⦄ : Type 0 where
  pub zero_nonneg : f.le (f.decimal 0 0) (f.decimal 0 0) ≡ true
  pub infinity_nonneg : f.le (f.decimal 0 0) f.infinity ≡ true
  pub nonneg_not_neg : (x : F) → f.le (f.decimal 0 0) x ≡ true → f.lt x (f.decimal 0 0) ≡ false
  pub neg_nonpos : (x : F) → f.lt x (f.decimal 0 0) ≡ true → f.le x (f.decimal 0 0) ≡ true
  pub abs_nonneg :
      (x : F)
      → (f.lt x (f.decimal 0 0) || f.le (f.decimal 0 0) x) ≡ true
      → f.le (f.decimal 0 0) (f.abs x) ≡ true
  pub add_neg :
      (x y : F)
      → f.lt x (f.decimal 0 0) ≡ true
      → f.le y (f.decimal 0 0) ≡ true
      → f.lt (f.add x y) (f.decimal 0 0) ≡ true
  pub add_nonneg :
      (x y : F)
      → f.le (f.decimal 0 0) x ≡ true
      → f.le (f.decimal 0 0) y ≡ true
      → f.le (f.decimal 0 0) (f.add x y) ≡ true
  pub mul_nonneg :
      (n x : F)
      → f.lt (f.decimal 0 0) n ≡ true
      → f.le n (f.decimal 1 0) ≡ true
      → f.le (f.decimal 0 0) x ≡ true
      → f.le (f.decimal 0 0) (f.mul n x) ≡ true
  pub mul_nonpos :
      (n x : F)
      → f.lt (f.decimal 0 0) n ≡ true
      → f.le n (f.decimal 1 0) ≡ true
      → f.le (f.decimal 0 0) x ≡ true
      → f.le (f.mul (f.neg n) x) (f.decimal 0 0) ≡ true

-- `<` is a strict order that excludes `>=`, as it is with NaN and infinities too.
pub record IsStrict (F : Type 0) ⦃f : Float F⦄ : Type 0 where
  pub lt_not_le : (x y : F) → f.lt x y ≡ true → f.le y x ≡ false
  pub lt_irrefl : (x : F) → f.lt x x ≡ false
  pub lt_trans : (x y z : F) → f.lt x y ≡ true → f.lt y z ≡ true → f.lt x z ≡ true

-- `<=` is transitive, and false where one side is a NaN.
pub record IsOrdered (F : Type 0) ⦃f : Float F⦄ : Type 0 where
  pub le_trans : (x y z : F) → f.le x y ≡ true → f.le y z ≡ true → f.le x z ≡ true

-- Rounding: what is left of 1 keeps its bounds, and a quotient of whole numbers of 32 bits, of which
-- the divisor is a product, is at least half of what it is without rounding.
pub record IsRounded (F : Type 0) ⦃f : Float F⦄ : Type 0 where
  pub one_minus_positive :
      (y : F)
      → f.le (f.decimal 0 0) y ≡ true
      → f.lt y (f.decimal 1 0) ≡ true
      → f.le (f.sub (f.decimal 1 0) y) (f.decimal 0 0) ≡ false
  pub one_minus_le :
      (y : F)
      → f.le (f.decimal 0 0) y ≡ true
      → f.lt (f.decimal 1 0) (f.sub (f.decimal 1 0) y) ≡ false
  pub quotient_below :
      (a b c n k : ℕ)
      → a < 2 ^ 32
      → 1 ≤ b
      → b < 2 ^ 32
      → 1 ≤ c
      → c < 2 ^ 32
      → k ≤ 9
      → 2 * (n * (b * c)) ≤ a * 10 ^ k
      → f.le
          (f.div (f.neg (f.decimal a 0)) (f.mul (f.decimal b 0) (f.decimal c 0)))
          (f.neg (f.decimal n k))
        ≡ true
