-- ===== src/Frame.antt =====
-- The radio frame of src/framing/frame.c: a length byte, the payload, and a CRC-16/CCITT-FALSE.
-- A pointer with its length is the list of the bytes there; the guards on NULL have no counterpart.
pub mod Crc
pub mod Roundtrip
pub mod Corruption
mod Tests
use reticulum_tnc.Base.{
  ℕ, zero, suc, ◌+◌, ◌-◌, ◌*◌, ◌/◌, ◌%◌, ◌^◌, bit_xor, u8, u16, ◌<<<◌, ◌>>>◌, test_bit, List, [],
  ◌∷◌, ◌++◌, length, get_or, take, drop, ltb, ◌==◌, ◌||◌, not, if◌then◌else◌, Result, ok, fail_if,
  ◌>>=◌, ◌>>◌,
}

abbrev pub max_payload : ℕ
max_payload = 128

abbrev pub header_size : ℕ
header_size = 1

abbrev pub crc_size : ℕ
crc_size = 2

pub data FrameStatus : Type 0 where
  buffer_too_small invalid_length crc_failure : FrameStatus

-- One round of the inner loop.
pub crc_bit : ℕ → ℕ
crc_bit crc = if test_bit crc 15 then u16 (bit_xor (u16 (crc <<< 1)) 0x1021) else u16 (crc <<< 1)

pub crc_bits : ℕ → ℕ → ℕ
crc_bits zero crc = crc
crc_bits (suc n) crc = crc_bits n (crc_bit crc)

-- One round of the outer loop.
pub crc_byte : ℕ → ℕ → ℕ
unfolding crc_bits crc_bit
crc_byte crc b = crc_bits 8 (u16 (bit_xor crc (u16 (b <<< 8))))

pub crc_from : ℕ → List ℕ → ℕ
unfolding crc_byte
crc_from crc [] = crc
crc_from crc (b ∷ bs) = crc_from (crc_byte crc b) bs

pub crc16_ccitt_false : List ℕ → ℕ
unfolding crc_from
crc16_ccitt_false bytes = crc_from 0xffff bytes

-- The length byte and the payload, which the checksum covers.
abbrev pub covered : List ℕ → List ℕ
covered payload = u8 (length payload - 1) ∷ payload

unfoldable pub frame_build : List ℕ → ℕ → Result FrameStatus (List ℕ)
frame_build payload capacity = do
  fail_if (length payload == 0 || ltb max_payload (length payload)) invalid_length
  let required = header_size + length payload + crc_size
  fail_if (ltb capacity required) buffer_too_small
  let crc = crc16_ccitt_false (covered payload)
  ok (covered payload ++ (u8 (crc >>> 8) ∷ crc % 256 ∷ []))

-- `(hi << 8) | lo`: the byte fits under the shift, so the or is a sum.
abbrev pub join_bytes : ℕ → ℕ → ℕ
join_bytes hi lo = u16 (u16 (hi <<< 8) + lo)

unfoldable pub frame_parse : List ℕ → ℕ → Result FrameStatus (List ℕ)
frame_parse encoded capacity = do
  fail_if (ltb (length encoded) (header_size + crc_size)) invalid_length
  let declared = get_or encoded 0 0 + 1
  fail_if (ltb max_payload declared) invalid_length
  let required = header_size + declared + crc_size
  fail_if (not (length encoded == required)) invalid_length
  fail_if (ltb capacity declared) buffer_too_small
  let expected = crc16_ccitt_false (take (header_size + declared) encoded)
  let received = join_bytes (get_or encoded (required - 2) 0) (get_or encoded (required - 1) 0)
  fail_if (not (received == expected)) crc_failure
  ok (take declared (drop header_size encoded))
