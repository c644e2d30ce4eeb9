-- ===== src/Fec.antt =====
-- The encoder of src/fec: sizes, the systematic block code of src/fec/ldpc.c over the tables of a code,
-- and the puncturing of src/fec/fec.c. Fec/MinSum and Fec/Decode have the decoder.
pub mod Size
pub mod MinSum
pub mod Decode
mod Tests
use reticulum_tnc.Base.{
  ℕ, zero, suc, ◌+◌, ◌-◌, ◌*◌, ◌/◌, ◌%◌, ◌^◌, ◌≤◌, ◌<◌, min, max, bit_xor, u8, u16, u32, u64, ◌<<<◌,
  ◌>>>◌, test_bit, AreBytes, List, [], ◌∷◌, ◌++◌, map, append-nil, append_assoc, length, get_or,
  set, take, drop, replicate, length-append, length-set, get_or-set_self, get_or-set_ne,
  length-take, length-drop, length-replicate, get_or-replicate, take-append-drop, take-append,
  drop-append, take_all, get_or-append_right, take_add, drop_add, ltb, leb, ◌==◌, if◌then◌else◌,
  ltb→lt, lt→ltb, leb→le, ==_iff, Bool-cases, Option-cases, Result, ok, err, ◌>>=◌, ◌>>◌, fail_if,
  ◌≡◌, refl, sym, ap, ap₂, subst, ◌∙◌, ◌≢◌, ◌↔◌, ◌⊎◌, inl, inr, Bool, true, false, not, ◌&&◌, ◌||◌,
  Option, none, some, arith, dec_lt, dec_le, ℕ_discrete,
}
use Prim.Native.Nat.{bit_and}

pub data FecMode : Type 0 where
  none_mode ldpc_robust ldpc_normal ldpc_fast : FecMode

pub data FecStatus : Type 0 where
  invalid_argument buffer_too_small unsupported_mode invalid_block decode_failure : FecStatus

-- `rtnc_ldpc_code_t`: check `i` has the edges from `check_offsets[i]` on, and an edge is a variable.
pub record LdpcCode : Type 0 where
  pub variable_count : ℕ
  pub information_count : ℕ
  pub check_count : ℕ
  pub edge_count : ℕ
  pub check_offsets : List ℕ
  pub edge_variables : List ℕ
  pub parity_masks : List ℕ

unfoldable pub parity8 : ℕ → ℕ
parity8 value = let folded = bit_xor value (value >>> 4) % 16 in (0x6996 >>> folded) % 2

-- The exclusive or over the information bytes, from `i` on.
unfoldable pub parity_from : List ℕ → ℕ → ℕ → ℕ → List ℕ → ℕ
parity_from masks size index i [] = 0
parity_from masks size index i (b ∷ bs) =
    bit_xor (parity8 (bit_and b (get_or masks (index * size + i) 0)))
      (parity_from masks size index (i + 1) bs)

abbrev pub parity_bit : LdpcCode → List ℕ → ℕ → ℕ
parity_bit code information index =
    parity_from code.parity_masks (code.information_count / 8) index 0 information

-- `left` bytes of parity bits from bit `index` on, the first bit of a byte highest.
unfoldable pub parity_bytes : LdpcCode → List ℕ → ℕ → ℕ → List ℕ
parity_bytes code information index zero = []
parity_bytes code information index (suc left) =
    let bit = λ (i : ℕ). parity_bit code information (index + i) in
    (bit 0 * 128 + bit 1 * 64 + bit 2 * 32 + bit 3 * 16 + bit 4 * 8 + bit 5 * 4 + bit 6 * 2 + bit 7)
    ∷ parity_bytes code information (index + 8) left

unfoldable pub ldpc_encode_systematic : LdpcCode → List ℕ → ℕ → Option (List ℕ)
ldpc_encode_systematic code information capacity =
    if code.information_count == 0
      || not (code.information_count % 8 == 0)
      || not (code.variable_count % 8 == 0)
      || not (length information == code.information_count / 8)
      || ltb capacity (code.variable_count / 8)
    then none
    else some (
        information
        ++ parity_bytes code information 0 ((code.variable_count - code.information_count) / 8))

abbrev blocks_of : ℕ → ℕ
blocks_of input_bytes = (input_bytes + 7) / 8

abbrev too_large : ℕ → Bool
too_large input_bytes = input_bytes == 0 || ltb (2 ^ 64 - 8) input_bytes

unfoldable pub fec_encoded_size : FecMode → ℕ → ℕ
fec_encoded_size none_mode input_bytes = input_bytes
fec_encoded_size ldpc_robust input_bytes =
    if too_large input_bytes then 0 else u64 (blocks_of input_bytes * 16)
fec_encoded_size ldpc_normal input_bytes =
    if too_large input_bytes then 0 else u64 (blocks_of input_bytes * 12)
fec_encoded_size ldpc_fast input_bytes = 0

-- The information of the block at the start of `rest`, filled up with zeros.
abbrev pub information_of : List ℕ → List ℕ
information_of rest = take 8 rest ++ replicate (8 - length rest) 0

-- `count` blocks; `puncture` is what is sent of a codeword.
unfoldable pub encode_blocks : LdpcCode → (List ℕ → List ℕ) → ℕ → List ℕ → Option (List ℕ)
encode_blocks code puncture zero rest = some []
encode_blocks code puncture (suc count) rest =
    elim (ldpc_encode_systematic code (information_of rest) 16) [
      | none ↦ none
      | some codeword ↦ elim (encode_blocks code puncture count (drop 8 rest)) [
        | none ↦ none
        | some more ↦ some (puncture codeword ++ more)
      ]
    ]

abbrev pub whole : List ℕ → List ℕ
whole codeword = codeword

abbrev pub punctured : List ℕ → List ℕ
punctured codeword = take 8 codeword ++ take 4 (drop 12 codeword)

-- The two modes with a code, whose blocks have `size` bytes on the air.
unfoldable pub encode_mode :
    LdpcCode → FecMode → (List ℕ → List ℕ) → ℕ → List ℕ → ℕ → Result FecStatus (List ℕ)
encode_mode code mode puncture size input capacity =
    let required = fec_encoded_size mode (length input) in
    if required == 0
    then err invalid_block
    else if ltb capacity required
    then err buffer_too_small
    else elim (encode_blocks code puncture (required / size) input) [
      | none ↦ err invalid_block
      | some encoded ↦ ok encoded
    ]

unfoldable pub fec_encode : LdpcCode → FecMode → List ℕ → ℕ → Result FecStatus (List ℕ)
fec_encode code ldpc_robust input capacity = encode_mode code ldpc_robust whole 16 input capacity
fec_encode code ldpc_normal input capacity =
    encode_mode code ldpc_normal punctured 12 input capacity
fec_encode code ldpc_fast input capacity = err unsupported_mode
fec_encode code none_mode input capacity =
    if ltb capacity (length input) then err buffer_too_small else ok input
