-- ===== src/Fec/Decode/Roundtrip.antt =====
-- What the decoder makes of an encoded message that is received with all signs right.
use reticulum_tnc.Base.{
  ℕ, ◌+◌, ◌-◌, ◌*◌, ◌/◌, ◌%◌, ◌≤◌, ◌<◌, AreBytes, List, length, get_or, take, drop, ltb, ◌==◌, ok,
  ◌≡◌, refl, sym, ap, subst, ◌∙◌, true, false, some, arith,
}
use mathlib.Core.List.{Mem}
use mathlib.Core.List.Perm
use reticulum_tnc.Fec.MinSum.Signs.{IsCodeword, Tells}
use reticulum_tnc.Floats.{Float, IsDecimal, IsSigned}
use reticulum_tnc.Fec.{ldpc_robust, LdpcCode, ldpc_encode_systematic, information_of, fec_encode}
use reticulum_tnc.Fec.Size.{length-information_of}
use reticulum_tnc.Fec.MinSum.{DecodeStats, stats_of, float_at, decoder_refuses}
use reticulum_tnc.Fec.MinSum.Clean.{ldpc_decode_clean}
use reticulum_tnc.Fec.Decode.{
  robust_block, weakest_blocks_first, decode_block, decode_order, decode_mode, fec_decode,
}
use reticulum_tnc.Fec.Decode.Order.{weakest_blocks_first-Perm, blocks_from-Mem, Mem-blocks_from}
use reticulum_tnc.Fec.Decode.Pack.{bits_of_bytes, length-bits_of_bytes}
use reticulum_tnc.Fec.Decode.Blocks.{write_all, decode_order-write_all}
use reticulum_tnc.Fec.Decode.Encoded.{
  IsSound, get_or-take, get_or-drop, AreBits-bits_of_bytes, length-codeword, encode_blocks_at,
}
use reticulum_tnc.Fec.Decode.Padding.{
  padded, AreBytes-drop, AreBytes-padded_take, pack_codeword, block_bits, length-encode_blocks,
  encode_mode-some, length-padded, stored_padded,
}

module _ {F : Type 0} ⦃f : Float F⦄ where
  -- What the receiver gets for a message: a reliability per bit, with the right sign.
  abbrev pub Receives : List ℕ → List F → Type 0
  Receives encoded llr =
      (length llr ≡ length encoded * 8)
      × ((i : ℕ) → i < length llr → Tells (get_or (bits_of_bytes encoded) i 0) (float_at llr i))

  robust_block_at :
      (llr : List F) (b i : ℕ)
      → i < 128
      → float_at (robust_block llr b) i ≡ float_at llr (b * 128 + i)
  unfolding robust_block
  robust_block_at llr b i h =
      get_or-take 128 (drop (b * 128) llr) i (f.decimal 0 0) h
      ∙ get_or-drop (b * 128) llr i (f.decimal 0 0)

  accepts_tc128 :
      (code : LdpcCode)
      → IsDecimal F
      → IsSound code
      → decoder_refuses code (f.decimal 75 2) 30 512 128 ≡ false
  accepts_tc128 code decimals sound =
      let tc = sound.tc128 in
      let some_edges : ltb 512 code.edge_count ≡ false =
        (let h = sound.edge_count in ground arith) in
      let above = decimals.decimal_positive 74 2 (omega arith) in
      let below = decimals.decimal_not_lt 75 2 1 0 (omega arith) in
      rw (tc.variables, some_edges, above, below) refl

  -- A block of a message that is received is decoded into its codeword.
  decode_block-ok :
      (code : LdpcCode) (encoded : List ℕ) (llr : List F) (information : List ℕ) (b : ℕ)
      → IsDecimal F
      → IsSigned F
      → IsSound code
      → Receives encoded llr
      → length information ≡ 8
      → AreBytes information
      → ldpc_encode_systematic code information 16 ≡ some (take 16 (drop (b * 16) encoded))
      → b * 16 + 16 ≤ length encoded
      → decode_block code (robust_block llr b)
        ≡ some (bits_of_bytes (take 16 (drop (b * 16) encoded)), stats_of true 1 0)
  decode_block-ok code encoded llr information b decimals laws sound received size are e inside =
      let codeword = take 16 (drop (b * 16) encoded) in
      let (_, length_c) = length-codeword code information codeword sound.tc128 size e in
      let tc = sound.tc128 in
      let word : IsCodeword code (bits_of_bytes codeword) = record {
        size = omega (arith, length-bits_of_bytes codeword, length_c, tc.variables);
        are_bits = AreBits-bits_of_bytes codeword;
        even = sound.even information codeword size are e;
        edges = sound.edges;
        variables = sound.variables;
      } in
      ldpc_decode_clean code (bits_of_bytes codeword) (robust_block llr b) (f.decimal 75 2) 30 512
        128 laws
        (decimals.decimal_above 74 2 (omega arith), decimals.decimal_le 75 2 1 0 (omega arith)) word
        (λ i h.
          let near : i < 128 = omega (arith, length-bits_of_bytes codeword, length_c) in
          subst (λ bit. Tells bit (float_at (robust_block llr b) i))
            (sym (block_bits encoded b i near inside))
            (subst (Tells (get_or (bits_of_bytes encoded) (b * 128 + i) 0))
              (sym (robust_block_at llr b i near))
              (received.1 (b * 128 + i) (omega (arith, received.0)))))
        (accepts_tc128 code decimals sound)

  -- With as many reliabilities as blocks need, the loop decides.
  decode_mode-ok :
      (code : LdpcCode) (llr : List F) (output stored : List ℕ) (count : ℕ) (stats : DecodeStats)
      → length llr ≡ count * 128
      → 0 < count
      → count ≤ 20
      → count * 8 ≤ length output
      → decode_order code (robust_block llr) (weakest_blocks_first llr count 128) 0 0 output
        ≡ ok (stored, stats)
      → fec_decode code ldpc_robust llr output ≡ ok (take (count * 8) stored, stats)
  unfolding fec_decode decode_mode
  decode_mode-ok code llr output stored count stats size pos few room e =
      let blocks : length llr / 128 ≡ count = omega arith in
      let whole_e : (length llr % 128 == 0) ≡ true = ground arith in
      let some_e : (length llr == 0) ≡ false = ground arith in
      let few_e : ltb 20 count ≡ false = ground arith in
      let room_e : ltb (length output) (count * 8) ≡ false = ground arith in
      rw (some_e, whole_e, blocks, few_e, room_e, e) refl

  -- An input of 1 to 160 bytes that the encoder sends with the robust code, and of which every bit is
  -- received with the right sign, however weakly, is decoded into that input, filled up with zeros to
  -- whole blocks of eight bytes, in whichever order the blocks are taken: on floats with the signs of
  -- exact numbers, for sound tables of a code, and with a buffer that is large enough.
  pub fec_decode-fec_encode :
      (code : LdpcCode) (input encoded : List ℕ) (capacity : ℕ) (llr : List F) (output : List ℕ)
      → IsDecimal F
      → IsSigned F
      → IsSound code
      → AreBytes input
      → 0 < length input
      → length input ≤ 160
      → fec_encode code ldpc_robust input capacity ≡ ok encoded
      → Receives encoded llr
      → length (padded input) ≤ length output
      → (stats : DecodeStats) × (fec_decode code ldpc_robust llr output ≡ ok (padded input, stats))
        × (stats.converged ≡ true)
  fec_decode-fec_encode code input encoded capacity llr output decimals laws sound are pos small e
        received room =
      let count = (length input + 7) / 8 in
      let blocks = encode_mode-some code input encoded capacity e pos small in
      let sent = length-encode_blocks code count input encoded sound.tc128 blocks in
      let info = λ (b : ℕ). information_of (drop (b * 8) input) in
      let word = λ (b : ℕ). bits_of_bytes (take 16 (drop (b * 16) encoded)) in
      let order = weakest_blocks_first llr count 128 in
      let below = λ (b : ℕ) (m : Mem b order).
        let h =
          Mem-blocks_from 0 count b
            ((Perm.mem_iff (weakest_blocks_first-Perm llr count 128)).0 m) in
        let less : b < count = omega arith in less in
      let all = λ (b : ℕ) (h : b < count).
        (Perm.mem_iff (weakest_blocks_first-Perm llr count 128)).1
          (blocks_from-Mem 0 count b (omega arith) (omega arith)) in
      let eight = λ (b : ℕ). length-information_of (drop (b * 8) input) in
      let bytes = λ (b : ℕ).
        AreBytes-padded_take 8 (8 - length (drop (b * 8) input)) (drop (b * 8) input)
          (AreBytes-drop (b * 8) input are) in
      let encodes = λ (b : ℕ) (m : Mem b order).
        encode_blocks_at code count input encoded b sound.tc128 blocks (below b m) in
      let (stats, stored, done) =
        decode_order-write_all code (robust_block llr) info word order 0 0 output
          (λ b m.
            decode_block-ok code encoded llr (info b) b decimals laws sound received (eight b)
              (bytes b) (encodes b m) (let h = below b m in omega (arith, sent)))
          (λ b m.
            pack_codeword code (info b) (take 16 (drop (b * 16) encoded)) sound.tc128 (eight b)
              (bytes b) (encodes b m)) in
      let fits : count * 8 ≤ length output = omega (arith, length-padded input) in
      let stored_all = write_all info order output in
      (
        stats,
        decode_mode-ok code llr output stored_all count stats (omega (arith, received.0, sent))
              (omega arith) (omega arith) fits stored
            ∙ ap (λ l. ok (l, stats)) (stored_padded input output order fits below all),
        done,
      )
