-- ===== src/Fec/Decode/Pack.antt =====
-- Bytes as bits and back, and the bytes that a block stores.
use reticulum_tnc.Base.{
  ℕ, zero, suc, ◌+◌, ◌*◌, ◌/◌, ◌%◌, ◌≤◌, ◌<◌, AreBytes, List, [], ◌∷◌, ◌++◌, length, get_or, set,
  length-set, get_or-set_self, get_or-set_ne, ◌≡◌, refl, ap₂, ◌∙◌, arith,
}
use reticulum_tnc.Fec.Decode.{place, pack_bits, write_bytes}

-- The bits of bytes, the highest of each first: those that the transmitter sends.
unfoldable pub bits_of_bytes : List ℕ → List ℕ
bits_of_bytes [] = []
bits_of_bytes (b ∷ bs) =
    b / 128 % 2
    ∷ b / 64 % 2
    ∷ b / 32 % 2
    ∷ b / 16 % 2
    ∷ b / 8 % 2
    ∷ b / 4 % 2
    ∷ b / 2 % 2
    ∷ b % 2
    ∷ bits_of_bytes bs

place_bit : (bit weight : ℕ) → bit < 2 → place bit weight ≡ bit * weight
place_bit zero weight h = ground arith
place_bit (suc zero) weight h = ground arith
place_bit (suc (suc bit)) weight h = absurd (omega arith)

-- Packing undoes the splitting into bits.
pub pack_bits-bits_of_bytes :
    (bytes more : List ℕ)
    → AreBytes bytes
    → pack_bits (length bytes) (bits_of_bytes bytes ++ more) ≡ bytes
unfolding pack_bits bits_of_bytes
pack_bits-bits_of_bytes [] more are = refl
pack_bits-bits_of_bytes (b ∷ bs) more (small, are) =
    ap₂ ◌∷◌
      (omega (
        arith,
        place_bit (b / 128 % 2) 128 (omega arith),
        place_bit (b / 64 % 2) 64 (omega arith),
        place_bit (b / 32 % 2) 32 (omega arith),
        place_bit (b / 16 % 2) 16 (omega arith),
        place_bit (b / 8 % 2) 8 (omega arith),
        place_bit (b / 4 % 2) 4 (omega arith),
        place_bit (b / 2 % 2) 2 (omega arith),
        place_bit (b % 2) 1 (omega arith),
      ))
      (pack_bits-bits_of_bytes bs more are)

pub length-bits_of_bytes : (bytes : List ℕ) → length (bits_of_bytes bytes) ≡ length bytes * 8
unfolding bits_of_bytes
length-bits_of_bytes [] = refl
length-bits_of_bytes (b ∷ bs) = omega (arith, length-bits_of_bytes bs)

pub bits_of_bytes-append :
    (xs ys : List ℕ) → bits_of_bytes (xs ++ ys) ≡ bits_of_bytes xs ++ bits_of_bytes ys
unfolding bits_of_bytes
bits_of_bytes-append [] ys = refl
bits_of_bytes-append (x ∷ xs) ys = rw (bits_of_bytes-append xs ys) refl

pub length-write_bytes :
    (output : List ℕ) (offset : ℕ) (bytes : List ℕ)
    → length (write_bytes output offset bytes) ≡ length output
unfolding write_bytes
length-write_bytes output offset [] = refl
length-write_bytes output offset (b ∷ bs) =
    length-write_bytes (set output offset b) (offset + 1) bs ∙ length-set output offset b

-- What is outside of the bytes stays.
pub write_bytes-before :
    (output : List ℕ) (offset : ℕ) (bytes : List ℕ) (k : ℕ)
    → k < offset
    → get_or (write_bytes output offset bytes) k 0 ≡ get_or output k 0
unfolding write_bytes
write_bytes-before output offset [] k h = refl
write_bytes-before output offset (b ∷ bs) k h =
    write_bytes-before (set output offset b) (offset + 1) bs k (omega arith)
    ∙ get_or-set_ne output offset k b 0 (λ e. absurd (omega arith))

pub write_bytes-after :
    (output : List ℕ) (offset : ℕ) (bytes : List ℕ) (k : ℕ)
    → offset + length bytes ≤ k
    → get_or (write_bytes output offset bytes) k 0 ≡ get_or output k 0
unfolding write_bytes
write_bytes-after output offset [] k h = refl
write_bytes-after output offset (b ∷ bs) k h =
    write_bytes-after (set output offset b) (offset + 1) bs k (omega arith)
    ∙ get_or-set_ne output offset k b 0 (λ e. absurd (omega arith))

pub write_bytes_at :
    (output : List ℕ) (offset : ℕ) (bytes : List ℕ) (j : ℕ)
    → offset + length bytes ≤ length output
    → j < length bytes
    → get_or (write_bytes output offset bytes) (offset + j) 0 ≡ get_or bytes j 0
unfolding write_bytes
write_bytes_at output offset [] j fit h = absurd (omega arith)
write_bytes_at output offset (b ∷ bs) zero fit h =
    let same : offset + 0 ≡ offset = omega arith in
    rw same (
      write_bytes-before (set output offset b) (offset + 1) bs offset (omega arith)
      ∙ get_or-set_self output offset b 0 (omega arith))
write_bytes_at output offset (b ∷ bs) (suc j) fit h =
    let same : offset + suc j ≡ offset + 1 + j = omega arith in
    rw same (
      write_bytes_at (set output offset b) (offset + 1) bs j
        (omega (arith, length-set output offset b)) (omega arith))

-- Lists with the same items are the same.
pub list_ext :
    (xs ys : List ℕ)
    → length xs ≡ length ys
    → ((k : ℕ) → k < length ys → get_or xs k 0 ≡ get_or ys k 0)
    → xs ≡ ys
list_ext [] [] size same = refl
list_ext [] (y ∷ ys) size same = absurd (omega arith)
list_ext (x ∷ xs) [] size same = absurd (omega arith)
list_ext (x ∷ xs) (y ∷ ys) size same =
    ap₂ ◌∷◌ (same 0 (omega arith))
      (list_ext xs ys (omega arith) (λ k h. same (suc k) (omega arith)))
