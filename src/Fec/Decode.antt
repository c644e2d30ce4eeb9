-- ===== src/Fec/Decode.antt =====
-- Decoding in src/fec/fec.c: blocks in the order of their reliability, and the packing of bits. What a
-- call that fails leaves in the buffer is not modelled.
mod Tests
pub mod Order
pub mod Pack
pub mod Blocks
pub mod Encoded
pub mod Padding
pub mod Roundtrip
use reticulum_tnc.Base.{
  ℕ, zero, suc, ◌+◌, ◌-◌, ◌*◌, ◌/◌, ◌%◌, ◌^◌, ◌≤◌, ◌<◌, min, max, bit_xor, u8, u16, u32, u64, ◌<<<◌,
  ◌>>>◌, test_bit, AreBytes, List, [], ◌∷◌, ◌++◌, map, append-nil, append_assoc, length, get_or,
  set, take, drop, replicate, length-append, length-set, get_or-set_self, get_or-set_ne,
  length-take, length-drop, length-replicate, get_or-replicate, take-append-drop, take-append,
  drop-append, take_all, get_or-append_right, take_add, drop_add, ltb, leb, ◌==◌, if◌then◌else◌,
  ltb→lt, lt→ltb, leb→le, ==_iff, Bool-cases, Option-cases, Result, ok, err, ◌>>=◌, ◌>>◌, fail_if,
  ◌≡◌, refl, sym, ap, ap₂, subst, ◌∙◌, ◌≢◌, ◌↔◌, ◌⊎◌, inl, inr, Bool, true, false, not, ◌&&◌, ◌||◌,
  Option, none, some, arith, dec_lt, dec_le, ℕ_discrete,
}
use reticulum_tnc.Floats.{Float}
use reticulum_tnc.Fec.{
  FecMode, none_mode, ldpc_robust, ldpc_normal, ldpc_fast, FecStatus, buffer_too_small,
  unsupported_mode, invalid_block, decode_failure, LdpcCode,
}
use reticulum_tnc.Fec.MinSum.{
  DecodeStats, stats_of, float_at, hard_bits, ldpc_decode_normalized_min_sum,
}

abbrev pub max_blocks : ℕ
max_blocks = 20

-- A bit that is not zero sets its place in a byte, the first one the highest.
abbrev pub place : ℕ → ℕ → ℕ
place bit weight = if bit == 0 then 0 else weight

unfoldable pub pack_bits : ℕ → List ℕ → List ℕ
pack_bits zero bits = []
pack_bits (suc count) bits =
    let at = λ (i : ℕ). get_or bits i 0 in
    (place (at 0) 128
      + place (at 1) 64
      + place (at 2) 32
      + place (at 3) 16
      + place (at 4) 8
      + place (at 5) 4
      + place (at 6) 2
      + place (at 7) 1)
    ∷ pack_bits count (drop 8 bits)

-- The bytes of a block are stored from `offset` on.
unfoldable pub write_bytes : List ℕ → ℕ → List ℕ → List ℕ
write_bytes output offset [] = output
write_bytes output offset (b ∷ bs) = write_bytes (set output offset b) (offset + 1) bs

-- `order[block] = block`, from `block` on.
unfoldable pub blocks_from : ℕ → ℕ → List ℕ
blocks_from block zero = []
blocks_from block (suc left) = block ∷ blocks_from (block + 1) left

-- The first `size` bytes of the buffer are the output.
abbrev output_of :
    ℕ
    → Result (FecStatus × DecodeStats) (List ℕ × DecodeStats)
    → Result (FecStatus × DecodeStats) (List ℕ × DecodeStats)
output_of size (ok (output, stats)) = ok (take size output, stats)
output_of size (err e) = err e

abbrev refused : FecStatus → Result (FecStatus × DecodeStats) (List ℕ × DecodeStats)
refused status = err (status, stats_of false 0 0)

module _ {F : Type 0} ⦃f : Float F⦄ where
  -- The sum of the magnitudes of `left` reliabilities from `i` on.
  unfoldable pub confidence_from : List F → ℕ → ℕ → F → F
  confidence_from llr i zero sum = sum
  confidence_from llr i (suc left) sum =
      confidence_from llr (i + 1) left (f.add sum (f.abs (float_at llr i)))

  abbrev pub confidence : List F → ℕ → ℕ → F
  confidence llr bits_per_block block =
      confidence_from llr (block * bits_per_block) bits_per_block (f.decimal 0 0)

  -- The `while`, and the store after it.
  unfoldable pub shift_down : (ℕ → F) → ℕ → ℕ → List ℕ → List ℕ
  shift_down confidence candidate zero order = set order 0 candidate
  shift_down confidence candidate (suc position) order =
      let before = get_or order position 0 in
      elim (f.lt (confidence candidate) (confidence before)) [
        | true ↦ shift_down confidence candidate position (set order (suc position) before)
        | false ↦ set order (suc position) candidate
      ]

  -- The insertions from `block` on.
  unfoldable pub insert_blocks : (ℕ → F) → ℕ → ℕ → List ℕ → List ℕ
  insert_blocks confidence block zero order = order
  insert_blocks confidence block (suc left) order =
      insert_blocks confidence (block + 1) left
        (shift_down confidence (get_or order block 0) block order)

  unfoldable pub weakest_blocks_first : List F → ℕ → ℕ → List ℕ
  weakest_blocks_first llr block_count bits_per_block =
      insert_blocks (confidence llr bits_per_block) 1 (block_count - 1) (blocks_from 0 block_count)

  -- The reliabilities of a block, and with the bits that were not sent as erasures.
  unfoldable pub robust_block : List F → ℕ → List F
  robust_block llr block = take 128 (drop (block * 128) llr)

  unfoldable pub normal_block : List F → ℕ → List F
  normal_block llr block =
      take 64 (drop (block * 96) llr)
      ++ (replicate 32 (f.decimal 0 0) ++ take 32 (drop (block * 96 + 64) llr))

  abbrev pub decode_block : LdpcCode → List F → Option (List ℕ × DecodeStats)
  decode_block code llr = ldpc_decode_normalized_min_sum code llr (f.decimal 75 2) 30 512 128

  -- The loop over the blocks in `order`: what it leaves in `output`, and the totals.
  unfoldable pub decode_order :
      LdpcCode
      → (ℕ → List F)
      → List ℕ
      → ℕ
      → ℕ
      → List ℕ
      → Result (FecStatus × DecodeStats) (List ℕ × DecodeStats)
  decode_order code block_llr [] iterations syndrome output =
      ok (output, stats_of true iterations syndrome)
  decode_order code block_llr (block ∷ order) iterations syndrome output =
      elim (decode_block code (block_llr block)) [
        | none ↦ err (invalid_block, stats_of false 0 0)
        | some (bits, stats) ↦
            let iterations' = u32 (iterations + stats.iterations) in
            let syndrome' = u32 (syndrome + stats.syndrome_weight) in
            elim stats.converged [
              | true ↦
                  decode_order code block_llr order iterations' syndrome'
                    (write_bytes output (block * 8) (pack_bits 8 bits))
              | false ↦ err (decode_failure, stats_of false iterations' syndrome')
            ]
      ]

  -- The two modes with a code, whose blocks have `size` bits on the air.
  unfoldable pub decode_mode :
      LdpcCode
      → ℕ
      → (List F → ℕ → List F)
      → List F
      → List ℕ
      → Result (FecStatus × DecodeStats) (List ℕ × DecodeStats)
  decode_mode code size block_of llr output =
      let block_count = length llr / size in
      if length llr == 0 || not (length llr % size == 0) || ltb max_blocks block_count
      then refused invalid_block
      else if ltb (length output) (block_count * 8)
      then refused buffer_too_small
      else output_of (block_count * 8)
          (decode_order code (block_of llr) (weakest_blocks_first llr block_count size) 0 0 output)

  -- `output` is the caller's buffer, as long as its capacity.
  unfoldable pub fec_decode :
      LdpcCode → FecMode → List F → List ℕ → Result (FecStatus × DecodeStats) (List ℕ × DecodeStats)
  fec_decode code ldpc_robust llr output = decode_mode code 128 robust_block llr output
  fec_decode code ldpc_normal llr output = decode_mode code 96 normal_block llr output
  fec_decode code ldpc_fast llr output = refused unsupported_mode
  fec_decode code none_mode llr output =
      if not (length llr % 8 == 0)
      then refused invalid_block
      else if ltb (length output) (length llr / 8)
      then refused buffer_too_small
      else ok (pack_bits (length llr / 8) (hard_bits llr), stats_of true 0 0)
