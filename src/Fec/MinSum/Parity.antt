-- ===== src/Fec/MinSum/Parity.antt =====
-- Sums of bits over the edges of a check, with and without one of them, and the parity of a check.
use reticulum_tnc.Base.{
  ℕ, zero, suc, ◌+◌, ◌%◌, ◌≤◌, ◌<◌, bit_xor, List, get_or, ◌==◌, if◌then◌else◌, ==_iff, ◌≡◌, refl,
  ap, false, arith, ℕ_discrete,
}
use reticulum_tnc.Base.Bits.{bit_xor_digit}
use reticulum_tnc.Fec.{LdpcCode}
use reticulum_tnc.Fec.MinSum.{variable_of, first_edge, degree, check_parity, syndrome_from}
use reticulum_tnc.Fec.MinSum.Outcome.{AllEven}

-- The bits of a codeword.
abbrev pub AreBits : List ℕ → Type 0
AreBits bits = (i : ℕ) → get_or bits i 0 < 2

abbrev pub bit_at : LdpcCode → List ℕ → ℕ → ℕ
bit_at code bits edge = get_or bits (variable_of code edge) 0

unfoldable pub sum_edges : LdpcCode → List ℕ → ℕ → ℕ → ℕ
sum_edges code bits edge zero = 0
sum_edges code bits edge (suc left) = bit_at code bits edge + sum_edges code bits (edge + 1) left

-- The same without the edge `target`.
unfoldable pub sum_others : LdpcCode → List ℕ → ℕ → ℕ → ℕ → ℕ
sum_others code bits target edge zero = 0
sum_others code bits target edge (suc left) =
    (if edge == target then 0 else bit_at code bits edge)
    + sum_others code bits target (edge + 1) left

bit_xor_mod : (a b : ℕ) → a < 2 → b < 2 → bit_xor a b ≡ (a + b) % 2
bit_xor_mod zero zero h g = omega (arith, bit_xor_digit 0 0)
bit_xor_mod zero (suc zero) h g = refl
bit_xor_mod (suc zero) zero h g = refl
bit_xor_mod (suc zero) (suc zero) h g = refl
bit_xor_mod zero (suc (suc b)) h g = absurd (omega arith)
bit_xor_mod (suc zero) (suc (suc b)) h g = absurd (omega arith)
bit_xor_mod (suc (suc a)) b h g = absurd (omega arith)

pub check_parity-sum :
    (code : LdpcCode) (bits : List ℕ) (edge left : ℕ)
    → AreBits bits
    → check_parity code bits edge left ≡ sum_edges code bits edge left % 2
unfolding check_parity sum_edges
check_parity-sum code bits edge zero are = omega arith
check_parity-sum code bits edge (suc left) are =
    let rest = check_parity-sum code bits (edge + 1) left are in
    omega (
      arith,
      rest,
      bit_xor_mod (bit_at code bits edge) (check_parity code bits (edge + 1) left)
          (are (variable_of code edge)) (omega (arith, rest)),
    )

sum_others-outside :
    (code : LdpcCode) (bits : List ℕ) (target edge left : ℕ)
    → target < edge
    → sum_others code bits target edge left ≡ sum_edges code bits edge left
unfolding sum_others sum_edges
sum_others-outside code bits target edge zero h = refl
sum_others-outside code bits target edge (suc left) h =
    let rest = sum_others-outside code bits target (edge + 1) left (omega arith) in
    ground (arith, rest)

-- An edge of a check has its bit in the sum once.
pub sum_others-inside :
    (code : LdpcCode) (bits : List ℕ) (target edge left : ℕ)
    → edge ≤ target
    → target < edge + left
    → sum_edges code bits edge left
      ≡ bit_at code bits target + sum_others code bits target edge left
unfolding sum_others sum_edges
sum_others-inside code bits target edge zero h g = absurd (omega arith)
sum_others-inside code bits target edge (suc left) h g = elim (ℕ_discrete edge target) [
  | yes e ↦
      let rest = sum_others-outside code bits target (edge + 1) left (omega arith) in
      let hit = (==_iff edge target).1 e in
      let same : bit_at code bits edge ≡ bit_at code bits target = ap (bit_at code bits) e in
      rw hit (omega (arith, rest, same))
  | no ne ↦
      let rest = sum_others-inside code bits target (edge + 1) left (omega arith) (omega arith) in
      let miss : (edge == target) ≡ false = ground arith in rw miss (omega (arith, rest))
]

-- Without failed checks, the weight of the syndrome is zero.
pub AllEven-syndrome :
    (code : LdpcCode) (bits : List ℕ) (check count : ℕ)
    → AllEven code bits check count
    → syndrome_from code bits check count ≡ 0
unfolding AllEven syndrome_from
AllEven-syndrome code bits check zero even = refl
AllEven-syndrome code bits check (suc count) even =
    let here : check_parity code bits (first_edge code check) (degree code check) ≡ 0 =
      (let same : check + 0 ≡ check = omega arith in rw same at (even 0 (omega arith))) in
    let rest = AllEven-syndrome code bits (check + 1) count (λ i h.
      let same : check + suc i ≡ check + 1 + i = omega arith in
      rw same at (even (suc i) (omega arith))) in
    ground (arith, here, rest)
