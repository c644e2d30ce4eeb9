-- ===== src/Fec/Decode/Padding.antt =====
-- The zeros that fill the last block, in what is sent and in what is stored.
use reticulum_tnc.Base.{
  ℕ, zero, suc, ◌+◌, ◌-◌, ◌*◌, ◌/◌, ◌%◌, ◌^◌, ◌≤◌, ◌<◌, u64, AreBytes, List, [], ◌∷◌, ◌++◌, length,
  get_or, take, drop, replicate, length-append, length-take, length-drop, length-replicate,
  get_or-replicate, take-append-drop, ltb, ◌==◌, Bool-cases, Option-cases, Result, ok, err, ◌≡◌,
  refl, sym, ap, ap₂, ◌∙◌, ◌≢◌, inl, inr, false, some, arith,
}
use mathlib.Core.List.{Mem}
use reticulum_tnc.Fec.{
  ldpc_robust, FecStatus, LdpcCode, ldpc_encode_systematic, fec_encoded_size, information_of,
  encode_blocks, whole, encode_mode, fec_encode,
}
use reticulum_tnc.Fec.Size.{IsTc128, length-information_of}
use reticulum_tnc.Fec.Decode.{pack_bits}
use reticulum_tnc.Fec.Decode.Pack.{
  bits_of_bytes, pack_bits-bits_of_bytes, length-bits_of_bytes, bits_of_bytes-append, list_ext,
}
use reticulum_tnc.Fec.Decode.Blocks.{write_all, length-write_all, Fits, write_all-Stored}
use reticulum_tnc.Fec.Decode.Encoded.{
  get_or-take, get_or-drop, bits_of_bytes_at, encode_blocks-parts, length-codeword,
}

-- The input, filled up with zeros to whole blocks.
abbrev pub padded : List ℕ → List ℕ
padded input = input ++ replicate ((length input + 7) / 8 * 8 - length input) 0

get_or-pad : (xs : List ℕ) (n i : ℕ) → get_or (xs ++ replicate n 0) i 0 ≡ get_or xs i 0
get_or-pad [] n i = get_or-replicate n i 0
get_or-pad (x ∷ xs) n zero = refl
get_or-pad (x ∷ xs) n (suc i) = get_or-pad xs n i

information_of-padded :
    (input : List ℕ) (b j : ℕ)
    → j < 8
    → get_or (information_of (drop (b * 8) input)) j 0 ≡ get_or (padded input) (b * 8 + j) 0
information_of-padded input b j h =
    let rest = drop (b * 8) input in
    get_or-pad (take 8 rest) (8 - length rest) j
    ∙ get_or-take 8 rest j 0 h
    ∙ get_or-drop (b * 8) input j 0
    ∙ sym (get_or-pad input ((length input + 7) / 8 * 8 - length input) (b * 8 + j))

pub AreBytes-drop : (n : ℕ) (bytes : List ℕ) → AreBytes bytes → AreBytes (drop n bytes)
AreBytes-drop zero bytes are = are
AreBytes-drop (suc n) [] are = are
AreBytes-drop (suc n) (b ∷ bs) (small, are) = AreBytes-drop n bs are

AreBytes-zeros : (n : ℕ) → AreBytes (replicate n 0)
AreBytes-zeros zero = tt
AreBytes-zeros (suc n) = (omega arith, AreBytes-zeros n)

pub AreBytes-padded_take :
    (n zeros : ℕ) (bytes : List ℕ) → AreBytes bytes → AreBytes (take n bytes ++ replicate zeros 0)
AreBytes-padded_take zero zeros bytes are = AreBytes-zeros zeros
AreBytes-padded_take (suc n) zeros [] are = AreBytes-zeros zeros
AreBytes-padded_take (suc n) zeros (b ∷ bs) (small, are) =
    (small, AreBytes-padded_take n zeros bs are)

get_or-append_left :
    (xs ys : List ℕ) (i : ℕ) → i < length xs → get_or (xs ++ ys) i 0 ≡ get_or xs i 0
get_or-append_left [] ys i h = absurd (omega arith)
get_or-append_left (x ∷ xs) ys zero h = refl
get_or-append_left (x ∷ xs) ys (suc i) h = get_or-append_left xs ys i (omega arith)

-- The decoder packs the information of a codeword.
pub pack_codeword :
    (code : LdpcCode) (information codeword : List ℕ)
    → IsTc128 code
    → length information ≡ 8
    → AreBytes information
    → ldpc_encode_systematic code information 16 ≡ some codeword
    → pack_bits 8 (bits_of_bytes codeword) ≡ information
pack_codeword code information codeword tc size are e =
    let (prefix, _) = length-codeword code information codeword tc size e in
    let parts : information ++ drop 8 codeword ≡ codeword =
      ap (λ l. l ++ drop 8 codeword) (sym prefix) ∙ take-append-drop 8 codeword in
    let packed = pack_bits-bits_of_bytes information (bits_of_bytes (drop 8 codeword)) are in
    ap₂ (λ n w. pack_bits n w) (sym size)
      (ap bits_of_bytes (sym parts) ∙ bits_of_bytes-append information (drop 8 codeword))
    ∙ packed

-- The bits of a codeword stand in the message's.
pub block_bits :
    (encoded : List ℕ) (b i : ℕ)
    → i < 128
    → b * 16 + 16 ≤ length encoded
    → get_or (bits_of_bytes (take 16 (drop (b * 16) encoded))) i 0
      ≡ get_or (bits_of_bytes encoded) (b * 128 + i) 0
block_bits encoded b i h inside =
    let rest = drop (b * 16) encoded in
    let first = bits_of_bytes (take 16 rest) in
    let split : first ++ bits_of_bytes (drop 16 rest) ≡ bits_of_bytes rest =
      sym (bits_of_bytes-append (take 16 rest) (drop 16 rest))
      ∙ ap bits_of_bytes (take-append-drop 16 rest) in
    let size : length first ≡ 128 = omega (
      arith,
      length-bits_of_bytes (take 16 rest),
      length-take 16 rest,
      length-drop (b * 16) encoded,
    ) in
    sym (get_or-append_left first (bits_of_bytes (drop 16 rest)) i (omega arith))
    ∙ ap (λ l. get_or l i 0) split
    ∙ bits_of_bytes_at encoded (b * 16) i
    ∙ ap (λ k. get_or (bits_of_bytes encoded) k 0) (omega arith)

pub length-encode_blocks :
    (code : LdpcCode) (count : ℕ) (rest encoded : List ℕ)
    → IsTc128 code
    → encode_blocks code whole count rest ≡ some encoded
    → length encoded ≡ count * 16
unfolding encode_blocks
length-encode_blocks code zero rest encoded tc e =
    let same : [] ≡ encoded = ground arith in rw⁻¹ same refl
length-encode_blocks code (suc count) rest encoded tc e =
    let (codeword, more, e1, e2, joined) = encode_blocks-parts code count rest encoded e in
    let (_, size) =
      length-codeword code (information_of rest) codeword tc (length-information_of rest) e1 in
    let later = length-encode_blocks code count (drop 8 rest) more tc e2 in
    rw⁻¹ joined (omega (arith, length-append codeword more))

pub encode_mode-some :
    (code : LdpcCode) (input encoded : List ℕ) (capacity : ℕ)
    → fec_encode code ldpc_robust input capacity ≡ ok encoded
    → 0 < length input
    → length input ≤ 160
    → encode_blocks code whole ((length input + 7) / 8) input ≡ some encoded
unfolding fec_encode encode_mode fec_encoded_size
encode_mode-some code input encoded capacity e pos small =
    let count = (length input + 7) / 8 in
    let fits : ltb (2 ^ 64 - 8) (length input) ≡ false = ground arith in
    let some_e : (length input == 0) ≡ false = ground arith in
    let blocks : u64 (count * 16) / 16 ≡ count = omega arith in
    let sent : (u64 (count * 16) == 0) ≡ false = ground arith in
    let result = rw (some_e, fits, blocks, sent) at e in
    elim (Bool-cases (ltb capacity (u64 (count * 16)))) [
      | inl full ↦ absurd (err_not_ok (rw full at result))
      | inr room ↦ elim (Option-cases (encode_blocks code whole count input)) [
        | inl none_e ↦ absurd (err_not_ok (rw (room, none_e) at result))
        | inr (all, some_all) ↦ some_all ∙ ap some (ok_same (rw (room, some_all) at result))
      ]
    ]
  where
    err_not_ok : {s : FecStatus} {l : List ℕ} → err s ≢ ok l
    err_not_ok h = ground arith

    Answer : Type 0
    Answer = Result FecStatus (List ℕ)

    answer : List ℕ → Answer
    answer l = ok l

    ok_same : {l m : List ℕ} → answer l ≡ answer m → l ≡ m
    ok_same h = ground arith

pub length-padded : (input : List ℕ) → length (padded input) ≡ (length input + 7) / 8 * 8
length-padded input =
    let zeros = (length input + 7) / 8 * 8 - length input in
    omega (arith, length-append input (replicate zeros 0), length-replicate {A = ℕ} zeros 0)

-- Once every block is stored, the buffer starts with the padded input.
pub stored_padded :
    (input output order : List ℕ)
    → let count = (length input + 7) / 8 in
      count * 8 ≤ length output
      → ((b : ℕ) → Mem b order → b < count)
      → ((b : ℕ) → b < count → Mem b order)
      → take (count * 8) (write_all (λ b. information_of (drop (b * 8) input)) order output)
        ≡ padded input
stored_padded input output order fits below all =
    let count = (length input + 7) / 8 in
    let info = λ (b : ℕ). information_of (drop (b * 8) input) in
    let stored = write_all info order output in
    let size = length-padded input in
    let fit : Fits info count (length output) = record {
      eight = λ b. length-information_of (drop (b * 8) input);
      room = fits;
    } in
    list_ext (take (count * 8) stored) (padded input)
      (omega (arith, size, length-take (count * 8) stored, length-write_all info order output))
      (λ k h.
        let b = k / 8 in
        let j = k % 8 in
        let place_e : b * 8 + j ≡ k = omega arith in
        let near : k < count * 8 = omega (arith, size) in
        let known =
          write_all-Stored info count b order output j fit below (omega arith)
            (all b (omega arith)) in
        get_or-take (count * 8) stored k 0 near
        ∙ ap (λ i. get_or stored i 0) (sym place_e)
        ∙ known
        ∙ information_of-padded input b j (omega arith)
        ∙ ap (λ i. get_or (padded input) i 0) place_e)
