-- ===== src/Frame/Crc.antt =====
-- The checksum is a 16-bit word, and a change of one byte always changes it.
use reticulum_tnc.Base.{
  ℕ, zero, suc, ◌^◌, ◌<◌, bit_xor, u16, ◌<<<◌, List, [], ◌∷◌, ◌++◌, ◌≡◌, refl, sym, ◌∙◌, ◌≢◌, arith,
}
use reticulum_tnc.Base.Bits.{bit_xor_digit, bit_xor_right_cancel, bit_xor_left_cancel, bit_xor_lt}
use reticulum_tnc.Frame.{crc_bit, crc_bits, crc_byte, crc_from, crc16_ccitt_false}

crc_bit-lt : (a : ℕ) → crc_bit a < 2 ^ 16
unfolding crc_bit
crc_bit-lt a = ground arith

crc_bits-lt : (n a : ℕ) → a < 2 ^ 16 → crc_bits n a < 2 ^ 16
unfolding crc_bits
crc_bits-lt zero a h = h
crc_bits-lt (suc n) a h = crc_bits-lt n (crc_bit a) (crc_bit-lt a)

crc_byte-lt : (a b : ℕ) → crc_byte a b < 2 ^ 16
unfolding crc_byte
crc_byte-lt a b = crc_bits-lt 8 _ (omega arith)

crc_from-lt : (bs : List ℕ) (a : ℕ) → a < 2 ^ 16 → crc_from a bs < 2 ^ 16
unfolding crc_from
crc_from-lt [] a h = h
crc_from-lt (b ∷ bs) a h = crc_from-lt bs (crc_byte a b) (crc_byte-lt a b)

pub crc16-lt : (bs : List ℕ) → crc16_ccitt_false bs < 2 ^ 16
unfolding crc16_ccitt_false
crc16-lt bs = crc_from-lt bs 0xffff (omega arith)

-- The word that a round with the top bit set leaves, before its cast.
abbrev feedback : ℕ → ℕ
feedback a = bit_xor (u16 (a <<< 1)) 0x1021

feedback-lt : (a : ℕ) → feedback a < 2 ^ 16
feedback-lt a = bit_xor_lt 16 (u16 (a <<< 1)) 0x1021 (omega arith) (omega arith)

-- The feedback polynomial is odd, so the lowest bit of a round's result is the bit shifted out.
crc_bit-injective : (a b : ℕ) → a < 2 ^ 16 → b < 2 ^ 16 → crc_bit a ≡ crc_bit b → a ≡ b
unfolding crc_bit
crc_bit-injective a b ha hb e = ground (
  arith,
  feedback-lt a,
  feedback-lt b,
  bit_xor_digit (u16 (a <<< 1)) 0x1021,
  bit_xor_digit (u16 (b <<< 1)) 0x1021,
  bit_xor_right_cancel (u16 (a <<< 1)) (u16 (b <<< 1)) 0x1021,
)

crc_bits-injective : (n a b : ℕ) → a < 2 ^ 16 → b < 2 ^ 16 → crc_bits n a ≡ crc_bits n b → a ≡ b
unfolding crc_bits
crc_bits-injective zero a b ha hb e = e
crc_bits-injective (suc n) a b ha hb e =
    crc_bit-injective a b ha hb
      (crc_bits-injective n (crc_bit a) (crc_bit b) (crc_bit-lt a) (crc_bit-lt b) e)

-- The word that enters the inner loop.
abbrev mixed : ℕ → ℕ → ℕ
mixed a c = bit_xor a (u16 (c <<< 8))

mixed-lt : (a c : ℕ) → a < 2 ^ 16 → mixed a c < 2 ^ 16
mixed-lt a c h = bit_xor_lt 16 a (u16 (c <<< 8)) h (omega arith)

mixed_eq_of_crc_byte :
    (a b c d : ℕ) → a < 2 ^ 16 → b < 2 ^ 16 → crc_byte a c ≡ crc_byte b d → mixed a c ≡ mixed b d
unfolding crc_byte
mixed_eq_of_crc_byte a b c d ha hb e = omega (
  arith,
  crc_bits-injective 8 (u16 (mixed a c)) (u16 (mixed b d)) (omega arith) (omega arith) e,
  mixed-lt a c ha,
  mixed-lt b d hb,
)

-- A round loses nothing of the word that it starts from.
crc_byte-injective_word :
    (a b c : ℕ) → a < 2 ^ 16 → b < 2 ^ 16 → crc_byte a c ≡ crc_byte b c → a ≡ b
crc_byte-injective_word a b c ha hb e =
    bit_xor_right_cancel a b (u16 (c <<< 8)) (mixed_eq_of_crc_byte a b c c ha hb e)

-- Nor of the byte that it takes in.
crc_byte-injective_byte :
    (a b c : ℕ) → c < 2 ^ 16 → a < 256 → b < 256 → crc_byte c a ≡ crc_byte c b → a ≡ b
crc_byte-injective_byte a b c hc ha hb e = omega (
  arith,
  bit_xor_left_cancel (u16 (a <<< 8)) (u16 (b <<< 8)) c (mixed_eq_of_crc_byte c c a b hc hc e),
)

crc_from-injective :
    (bs : List ℕ) (a b : ℕ) → a < 2 ^ 16 → b < 2 ^ 16 → crc_from a bs ≡ crc_from b bs → a ≡ b
unfolding crc_from
crc_from-injective [] a b ha hb e = e
crc_from-injective (c ∷ bs) a b ha hb e =
    crc_byte-injective_word a b c ha hb
      (crc_from-injective bs (crc_byte a c) (crc_byte b c) (crc_byte-lt a c) (crc_byte-lt b c) e)

crc_from-append : (xs ys : List ℕ) (a : ℕ) → crc_from a (xs ++ ys) ≡ crc_from (crc_from a xs) ys
unfolding crc_from
crc_from-append [] ys a = refl
crc_from-append (x ∷ xs) ys a = crc_from-append xs ys (crc_byte a x)

-- Two messages that differ in exactly one byte, wherever it stands, have different checksums.
pub crc16-changed_byte :
    (xs ys : List ℕ) (a b : ℕ)
    → a < 256
    → b < 256
    → a ≢ b
    → crc16_ccitt_false (xs ++ (a ∷ ys)) ≢ crc16_ccitt_false (xs ++ (b ∷ ys))
unfolding crc16_ccitt_false crc_from
crc16-changed_byte xs ys a b ha hb ne e = ne (
    crc_byte-injective_byte a b (crc_from 0xffff xs) start ha hb (
      crc_from-injective ys _ _ (crc_byte-lt _ a) (crc_byte-lt _ b)
        (sym (crc_from-append xs (a ∷ ys) 0xffff) ∙ e ∙ crc_from-append xs (b ∷ ys) 0xffff)))
  where
    start : crc_from 0xffff xs < 2 ^ 16
    start = crc_from-lt xs 0xffff (omega arith)
