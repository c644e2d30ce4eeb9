-- ===== src/Base/Bits.antt =====
-- Laws of the exclusive or of two numbers, from the recursion on digits that it stands for.
use Prim.Native.Nat.{
  ℕ, zero, suc, ◌+◌, ◌*◌, ◌/◌, ◌%◌, ◌^◌, ◌≤◌, ◌<◌, bit_xor, digits, differ, bit_xor-bitwise,
}
use mathlib.Core.Path.{◌≡◌, refl, ◌∙◌}
use native.Mathlib.Omega.{arith}
use native.Mathlib.Nat.{pow-suc}

abbrev xor_digits : ℕ → ℕ → ℕ → ℕ
xor_digits fuel a b = digits (λ y. y) differ fuel a b

-- Any fuel that reaches the first number gives the same digits.
xor_digits_fuel :
    (a b fuel more : ℕ) → a ≤ fuel → a ≤ more → xor_digits fuel a b ≡ xor_digits more a b
xor_digits_fuel (suc a) b (suc fuel) (suc more) low low' =
    let rest = xor_digits_fuel (suc a / 2) (b / 2) fuel more (omega arith) (omega arith) in
    omega (arith, rest)
xor_digits_fuel (suc a) b zero more low low' = absurd (omega arith)
xor_digits_fuel (suc a) b (suc fuel) zero low low' = absurd (omega arith)
xor_digits_fuel zero b (suc fuel) (suc more) low low' = refl
xor_digits_fuel zero b (suc fuel) zero low low' = refl
xor_digits_fuel zero b zero (suc more) low low' = refl
xor_digits_fuel zero b zero zero low low' = refl

zero-bit_xor : (b : ℕ) → bit_xor 0 b ≡ b
zero-bit_xor b = bit_xor-bitwise 0 b

digit_xor : (b : ℕ) → differ 0 (b % 2) ≡ b % 2
digit_xor b = refl

-- The lowest digit of an exclusive or, and the rest.
pub bit_xor_step : (a b : ℕ) → bit_xor a b ≡ bit_xor (a / 2) (b / 2) * 2 + differ (a % 2) (b % 2)
bit_xor_step zero b = omega (arith, zero-bit_xor b, zero-bit_xor (b / 2), digit_xor b)
bit_xor_step (suc a) b = omega (
  arith,
  bit_xor-bitwise (suc a) b,
  bit_xor-bitwise (suc a / 2) (b / 2),
  xor_digits_fuel (suc a / 2) (b / 2) a (suc a / 2) (omega arith) (omega arith),
)

-- On digits, `differ` is the sum modulo 2.
differ_mod : (x y : ℕ) → x < 2 → y < 2 → differ x y ≡ (x + y) % 2
differ_mod zero y p q = omega arith
differ_mod (suc zero) zero p q = refl
differ_mod (suc zero) (suc zero) p q = refl
differ_mod (suc zero) (suc (suc y)) p q = absurd (omega arith)
differ_mod (suc (suc x)) y p q = absurd (omega arith)

-- The same step, with the digits added modulo 2.
pub bit_xor_digit : (a b : ℕ) → bit_xor a b ≡ bit_xor (a / 2) (b / 2) * 2 + (a + b) % 2
bit_xor_digit a b =
    omega (arith, bit_xor_step a b, differ_mod (a % 2) (b % 2) (omega arith) (omega arith))

bit_xor_right_fuel : (n a b c : ℕ) → a + b ≤ n → bit_xor a c ≡ bit_xor b c → a ≡ b
bit_xor_right_fuel zero a b c h e = omega arith
bit_xor_right_fuel (suc n) zero zero c h e = refl
bit_xor_right_fuel (suc n) (suc a) b c h e = omega (
  arith,
  bit_xor_digit (suc a) c,
  bit_xor_digit b c,
  bit_xor_right_fuel n (suc a / 2) (b / 2) (c / 2) (omega arith)
      (omega (arith, bit_xor_digit (suc a) c, bit_xor_digit b c)),
)
bit_xor_right_fuel (suc n) zero (suc b) c h e = omega (
  arith,
  bit_xor_digit 0 c,
  bit_xor_digit (suc b) c,
  bit_xor_right_fuel n 0 (suc b / 2) (c / 2) (omega arith)
      (omega (arith, bit_xor_digit 0 c, bit_xor_digit (suc b) c)),
)

-- An exclusive or with a fixed number loses nothing.
pub bit_xor_right_cancel : (a b c : ℕ) → bit_xor a c ≡ bit_xor b c → a ≡ b
bit_xor_right_cancel a b c e = bit_xor_right_fuel (a + b) a b c (omega arith) e

pub bit_xor_comm_fuel : (n a b : ℕ) → a + b ≤ n → bit_xor a b ≡ bit_xor b a
bit_xor_comm_fuel zero zero zero h = refl
bit_xor_comm_fuel zero zero (suc b) h = absurd (omega arith)
bit_xor_comm_fuel zero (suc a) b h = absurd (omega arith)
bit_xor_comm_fuel (suc n) zero zero h = refl
bit_xor_comm_fuel (suc n) (suc a) b h = omega (
  arith,
  bit_xor_digit (suc a) b,
  bit_xor_digit b (suc a),
  bit_xor_comm_fuel n (suc a / 2) (b / 2) (omega arith),
)
bit_xor_comm_fuel (suc n) zero (suc b) h = omega (
  arith,
  bit_xor_digit 0 (suc b),
  bit_xor_digit (suc b) 0,
  bit_xor_comm_fuel n 0 (suc b / 2) (omega arith),
)

pub bit_xor_comm : (a b : ℕ) → bit_xor a b ≡ bit_xor b a
bit_xor_comm a b = bit_xor_comm_fuel (a + b) a b (omega arith)

pub bit_xor_left_cancel : (a b c : ℕ) → bit_xor c a ≡ bit_xor c b → a ≡ b
bit_xor_left_cancel a b c e = bit_xor_right_cancel a b c (bit_xor_comm a c ∙ e ∙ bit_xor_comm c b)

bit_xor_self_fuel : (n a : ℕ) → a ≤ n → bit_xor a a ≡ 0
bit_xor_self_fuel n zero h = omega (arith, zero-bit_xor 0)
bit_xor_self_fuel zero (suc a) h = absurd (omega arith)
bit_xor_self_fuel (suc n) (suc a) h =
    omega (arith, bit_xor_digit (suc a) (suc a), bit_xor_self_fuel n (suc a / 2) (omega arith))

pub bit_xor_self : (a : ℕ) → bit_xor a a ≡ 0
bit_xor_self a = bit_xor_self_fuel a a (omega arith)

-- Two `k`-bit words give a `k`-bit word.
pub bit_xor_lt : (k a b : ℕ) → a < 2 ^ k → b < 2 ^ k → bit_xor a b < 2 ^ k
bit_xor_lt zero zero zero h g = omega arith
bit_xor_lt zero zero (suc b) h g = absurd (omega arith)
bit_xor_lt zero (suc a) b h g = absurd (omega arith)
bit_xor_lt (suc k) a b h g = omega (
  arith,
  pow-suc 2 k,
  bit_xor_digit a b,
  bit_xor_lt k (a / 2) (b / 2) (omega (arith, pow-suc 2 k)) (omega (arith, pow-suc 2 k)),
)
