-- ===== src/Fec/Decode/Tests.antt =====
-- A small code with one check of two parity bits, which its masks leave zero, on fixed-point numbers.
use reticulum_tnc.Base.{
  ℕ, zero, suc, ◌+◌, ◌*◌, ◌/◌, ◌<◌, min, List, [], ◌∷◌, ◌++◌, length, get_or, replicate,
  get_or-replicate, get_or-append_right, ok, ◌≡◌, refl, sym, ap, ap₂, ◌∙◌, inl, inr, true, some,
  arith,
}
use Prim.Native.Nat.{bit_and, bit_and-bitwise, digits}
use mathlib.Core.List.{Perm}
use reticulum_tnc.Fec.MinSum.Signs.{Tells}
use reticulum_tnc.Floats.Fixed.{
  Fixed, up, down, fixed_decimal, fixed_float, Fixed-IsDecimal, Fixed-IsSigned,
}
use reticulum_tnc.Fec.{
  ldpc_robust, LdpcCode, parity8, parity_from, parity_bytes, ldpc_encode_systematic,
  fec_encoded_size, encode_blocks, encode_mode, fec_encode,
}
use reticulum_tnc.Fec.MinSum.{DecodeStats, float_at, check_parity, ldpc_decode_normalized_min_sum}
use reticulum_tnc.Fec.MinSum.Outcome.{AllEven, IsOutcome, ldpc_decode-IsOutcome}
use reticulum_tnc.Fec.MinSum.Parity.{AreBits}
use reticulum_tnc.Fec.Decode.{
  blocks_from, confidence_from, shift_down, insert_blocks, weakest_blocks_first, fec_decode,
}
use reticulum_tnc.Fec.Decode.Order.{weakest_blocks_first-Perm}
use reticulum_tnc.Fec.Decode.Pack.{bits_of_bytes, bits_of_bytes-append, length-bits_of_bytes}
use reticulum_tnc.Fec.Decode.Encoded.{IsSound, AreBits-bits_of_bytes}
use reticulum_tnc.Fec.Decode.Roundtrip.{Receives, fec_decode-fec_encode}
use reticulum_tnc.Fec.Decode.Padding.{padded}

abbrev code : LdpcCode
code = record {
  variable_count = 128;
  information_count = 64;
  check_count = 1;
  edge_count = 2;
  check_offsets = 0 ∷ 2 ∷ [];
  edge_variables = 64 ∷ 65 ∷ [];
  parity_masks = replicate 512 0;
}

and_digits : (fuel a : ℕ) → digits (λ b. 0) min fuel a 0 ≡ 0
and_digits zero zero = refl
and_digits zero (suc a) = refl
and_digits (suc fuel) zero = refl
and_digits (suc fuel) (suc a) = let rest = and_digits fuel (suc a / 2) in omega (arith, rest)

bit_and_zero : (b : ℕ) → bit_and b 0 ≡ 0
bit_and_zero b = bit_and-bitwise b 0 ∙ and_digits b b

zeros_at : (n i : ℕ) → get_or {A = ℕ} (replicate n 0) i 0 ≡ 0
zeros_at n i = get_or-replicate n i 0

parity_zero :
    (masks information : List ℕ) (index i : ℕ)
    → ((k : ℕ) → get_or masks k 0 ≡ 0)
    → parity_from masks 8 index i information ≡ 0
unfolding parity_from parity8
parity_zero masks [] index i zeros = refl
parity_zero masks (b ∷ bs) index i zeros =
    let rest = parity_zero masks bs index (i + 1) zeros in
    rw (zeros (index * 8 + i), bit_and_zero b, rest) refl

parity_bytes-zero :
    (information : List ℕ) (index left : ℕ)
    → parity_bytes code information index left ≡ replicate left 0
unfolding parity_bytes
parity_bytes-zero information index zero = refl
parity_bytes-zero information index (suc left) =
    let none_set = λ (k : ℕ). parity_zero (replicate 512 0) information k 0 (zeros_at 512) in
    ap₂ ◌∷◌
      (omega (
        arith,
        none_set (index + 0),
        none_set (index + 1),
        none_set (index + 2),
        none_set (index + 3),
        none_set (index + 4),
        none_set (index + 5),
        none_set (index + 6),
        none_set (index + 7),
      ))
      (parity_bytes-zero information (index + 8) left)

codeword_zeros :
    (information codeword : List ℕ)
    → length information ≡ 8
    → ldpc_encode_systematic code information 16 ≡ some codeword
    → information ++ replicate 8 0 ≡ codeword
unfolding ldpc_encode_systematic
codeword_zeros information codeword size e =
    let made = simp (size, ldpc_encode_systematic) at e in
    let same : information ++ parity_bytes code information 0 8 ≡ codeword = ground (arith, made) in
    ap (λ p. information ++ p) (sym (parity_bytes-zero information 0 8)) ∙ same

parity_bit_zero :
    (information codeword : List ℕ) (i : ℕ)
    → length information ≡ 8
    → ldpc_encode_systematic code information 16 ≡ some codeword
    → i < 2
    → get_or (bits_of_bytes codeword) (64 + i) 0 ≡ 0
unfolding bits_of_bytes
parity_bit_zero information codeword i size e h =
    let same = codeword_zeros information codeword size e in
    let split = bits_of_bytes-append information (replicate 8 0) in
    let bits = length-bits_of_bytes information in
    ap (λ w. get_or (bits_of_bytes w) (64 + i) 0) (sym same)
    ∙ ap (λ l. get_or l (64 + i) 0) split
    ∙ get_or-append_right (bits_of_bytes information) (bits_of_bytes (replicate 8 0)) (64 + i) i 0
        (omega (arith, bits, size))
    ∙ zeros_at 64 i

edge_small : (edge : ℕ) → edge < 2 → get_or (64 ∷ 65 ∷ []) edge 0 < 128
edge_small zero h = omega arith
edge_small (suc zero) h = omega arith
edge_small (suc (suc edge)) h = absurd (omega arith)

code-IsSound : IsSound code
unfolding AllEven check_parity
code-IsSound = record {
  tc128 = record { variables = refl; information = refl };
  edges = λ check h. (let zero_e : check ≡ 0 = omega arith in rw zero_e (omega arith));
  variables = edge_small;
  edge_count = omega arith;
  even = λ information codeword size are e i h.
      (let zero_e : 0 + i ≡ 0 = omega arith in
        let first = parity_bit_zero information codeword 0 size e (omega arith) in
        let second = parity_bit_zero information codeword 1 size e (omega arith) in
        rw (zero_e) (rw (first, second) refl));
}

-- Reliabilities of both signs and different sizes.
abbrev llr_of : List ℕ → List Fixed
llr_of [] = []
llr_of (zero ∷ bits) = up 7 ∷ llr_of bits
llr_of (suc b ∷ bits) = down 3 ∷ llr_of bits

llr_of-Tells :
    (bits : List ℕ) (i : ℕ)
    → AreBits bits
    → i < length (llr_of bits)
    → Tells (get_or bits i 0) (float_at (llr_of bits) i)
llr_of-Tells [] i are h = absurd (omega arith)
llr_of-Tells (zero ∷ bits) zero are h = inl (refl, refl)
llr_of-Tells (suc zero ∷ bits) zero are h = inr (refl, refl)
llr_of-Tells (suc (suc b) ∷ bits) zero are h = absurd (let small = are 0 in omega arith)
llr_of-Tells (zero ∷ bits) (suc i) are h = llr_of-Tells bits i (λ k. are (suc k)) (omega arith)
llr_of-Tells (suc b ∷ bits) (suc i) are h = llr_of-Tells bits i (λ k. are (suc k)) (omega arith)

abbrev input : List ℕ
input = 0xa5 ∷ 1 ∷ 2 ∷ []

abbrev encoded : List ℕ
encoded = input ++ replicate 13 0

abbrev llr : List Fixed
llr = llr_of (bits_of_bytes encoded)

input_encodes : fec_encode code ldpc_robust input 16 ≡ ok encoded
unfolding fec_encode encode_mode encode_blocks ldpc_encode_systematic parity_bytes parity_from
    parity8 fec_encoded_size
input_encodes = refl

llr-length : length llr ≡ 128
unfolding bits_of_bytes
llr-length = refl

llr-Receives : Receives encoded llr
llr-Receives =
    (llr-length, λ i h. llr_of-Tells (bits_of_bytes encoded) i (AreBits-bits_of_bytes encoded) h)

fec_decode-fec_encode_example :
    (stats : DecodeStats) × (fec_decode code ldpc_robust llr (replicate 8 9)
      ≡ ok (padded input, stats))
    × (stats.converged ≡ true)
fec_decode-fec_encode_example =
    fec_decode-fec_encode code input encoded 16 llr (replicate 8 9) Fixed-IsDecimal Fixed-IsSigned
      code-IsSound (omega arith, (omega arith, (omega arith, tt))) (omega arith) (omega arith)
      input_encodes llr-Receives (omega arith)

-- Reliabilities of blocks with two values each: the weakest block comes first.
abbrev three_blocks : List Fixed
three_blocks = up 5 ∷ down 4 ∷ up 1 ∷ down 1 ∷ up 2 ∷ down 2 ∷ []

three_blocks_order : weakest_blocks_first three_blocks 3 2 ≡ 1 ∷ 2 ∷ 0 ∷ []
unfolding blocks_from confidence_from shift_down insert_blocks weakest_blocks_first
three_blocks_order = refl

weakest_blocks_first-Perm_example : Perm (weakest_blocks_first three_blocks 3 2) (blocks_from 0 3)
weakest_blocks_first-Perm_example = weakest_blocks_first-Perm three_blocks 3 2

ldpc_decode-IsOutcome_example :
    (bits : List ℕ) × (stats : DecodeStats) × (ldpc_decode_normalized_min_sum code
        (replicate 128 (up 1))
        (fixed_decimal 75 2)
        30
        512
        128
      ≡ some (bits, stats))
    × IsOutcome code (fixed_decimal 75 2) (replicate 128 (up 1)) 30 bits stats
ldpc_decode-IsOutcome_example =
    ldpc_decode-IsOutcome code (replicate 128 (up 1)) (fixed_decimal 75 2) 30 512 128 refl
      (omega arith)
