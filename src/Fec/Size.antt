-- ===== src/Fec/Size.antt =====
-- How long what the encoder writes is, and that it always writes.
use reticulum_tnc.Base.{
  ℕ, zero, suc, ◌+◌, ◌-◌, ◌*◌, ◌/◌, ◌^◌, ◌≤◌, List, [], ◌++◌, length, take, drop, replicate,
  length-append, length-take, length-drop, length-replicate, take-append, ltb, ◌==◌, ok, ◌≡◌, refl,
  sym, ap, ◌∙◌, ◌≢◌, false, some, arith,
}
use reticulum_tnc.Fec.{
  FecMode, none_mode, ldpc_robust, ldpc_normal, ldpc_fast, LdpcCode, parity_bytes,
  ldpc_encode_systematic, fec_encoded_size, information_of, encode_blocks, whole, punctured,
  encode_mode, fec_encode,
}

-- A code of 64 information bits and 128 bits, as the table of the modem.
pub record IsTc128 (code : LdpcCode) : Type 0 where
  pub variables : code.variable_count ≡ 128
  pub information : code.information_count ≡ 64

length-parity_bytes :
    (code : LdpcCode) (information : List ℕ) (index left : ℕ)
    → length (parity_bytes code information index left) ≡ left
unfolding parity_bytes
length-parity_bytes code information index zero = refl
length-parity_bytes code information index (suc left) =
    ap suc (length-parity_bytes code information (index + 8) left)

pub length-information_of : (rest : List ℕ) → length (information_of rest) ≡ 8
length-information_of rest = ground (
  arith,
  length-append (take 8 rest) (replicate (8 - length rest) 0),
  length-take 8 rest,
  length-replicate {A = ℕ} (8 - length rest) 0,
)

-- A block is encoded: its information, and eight more bytes.
pub block_codeword :
    (code : LdpcCode) (information : List ℕ)
    → IsTc128 code
    → length information ≡ 8
    → (codeword : List ℕ) × (ldpc_encode_systematic code information 16 ≡ some codeword)
      × (take 8 codeword ≡ information)
      × (length codeword ≡ 16)
unfolding ldpc_encode_systematic
block_codeword code information tc n =
    let parity = parity_bytes code information 0 8 in
    let size = length-parity_bytes code information 0 8 in
    (
      information ++ parity,
      simp (tc.variables, tc.information, n, ldpc_encode_systematic) refl,
      take-append information parity 8 (sym n),
      omega (arith, length-append information parity),
    )

-- What is sent of a codeword has `size` bytes.
abbrev Sends : (List ℕ → List ℕ) → ℕ → Type 0
Sends puncture size = (codeword : List ℕ) → length codeword ≡ 16 → length (puncture codeword) ≡ size

encode_blocks-ok :
    (code : LdpcCode) (puncture : List ℕ → List ℕ) (size count : ℕ) (rest : List ℕ)
    → IsTc128 code
    → Sends puncture size
    → (encoded : List ℕ) × (encode_blocks code puncture count rest ≡ some encoded)
      × (length encoded ≡ count * size)
unfolding encode_blocks
encode_blocks-ok code puncture size zero rest tc sends = ([], refl, omega arith)
encode_blocks-ok code puncture size (suc count) rest tc sends =
    let (codeword, made, systematic, n) =
      block_codeword code (information_of rest) tc (length-information_of rest) in
    let (more, rest_made, m) = encode_blocks-ok code puncture size count (drop 8 rest) tc sends in
    (
      puncture codeword ++ more,
      rw (made, rest_made, encode_blocks) refl,
      omega (arith, length-append (puncture codeword) more, sends codeword n),
    )

whole-Sends : Sends whole 16
whole-Sends codeword n = n

punctured-Sends : Sends punctured 12
punctured-Sends codeword n = omega (
  arith,
  length-append (take 8 codeword) (take 4 (drop 12 codeword)),
  length-take 8 codeword,
  length-take 4 (drop 12 codeword),
  length-drop 12 codeword,
)

encode_mode-ok :
    (code : LdpcCode) (mode : FecMode) (puncture : List ℕ → List ℕ) (size : ℕ) (input : List ℕ)
    (capacity count : ℕ)
    → IsTc128 code
    → Sends puncture size
    → fec_encoded_size mode (length input) ≡ count * size
    → count * size / size ≡ count
    → 1 ≤ count * size
    → count * size ≤ capacity
    → (encoded : List ℕ) × (encode_mode code mode puncture size input capacity ≡ ok encoded)
      × (length encoded ≡ fec_encoded_size mode (length input))
unfolding encode_mode
encode_mode-ok code mode puncture size input capacity count tc sends e q some_block room =
    let (encoded, made, n) = encode_blocks-ok code puncture size count input tc sends in
    let nonzero : (count * size == 0) ≡ false = ground arith in
    let fits : ltb capacity (count * size) ≡ false = ground arith in
    (encoded, rw (e, nonzero, fits, q, made, encode_mode) refl, n ∙ sym e)

-- With the code of the modem and room for what fec_encoded_size names, every input of 1 to 2^32 bytes is
-- encoded in every mode but FEC_LDPC_FAST, and what is written has exactly that size.
pub fec_encode-ok :
    (code : LdpcCode) (mode : FecMode) (input : List ℕ) (capacity : ℕ)
    → IsTc128 code
    → mode ≢ ldpc_fast
    → 1 ≤ length input
    → length input ≤ 2 ^ 32
    → fec_encoded_size mode (length input) ≤ capacity
    → (encoded : List ℕ) × (fec_encode code mode input capacity ≡ ok encoded)
      × (length encoded ≡ fec_encoded_size mode (length input))
unfolding fec_encode fec_encoded_size
fec_encode-ok code none_mode input capacity tc ne low high room = (input, ground arith, refl)
fec_encode-ok code ldpc_fast input capacity tc ne low high room = absurd (ne refl)
fec_encode-ok code ldpc_robust input capacity tc ne low high room =
    let count = (length input + 7) / 8 in
    let e : fec_encoded_size ldpc_robust (length input) ≡ count * 16 = ground arith in
    encode_mode-ok code ldpc_robust whole 16 input capacity count tc whole-Sends e (omega arith)
      (omega arith) (rw e at room)
fec_encode-ok code ldpc_normal input capacity tc ne low high room =
    let count = (length input + 7) / 8 in
    let e : fec_encoded_size ldpc_normal (length input) ≡ count * 12 = ground arith in
    encode_mode-ok code ldpc_normal punctured 12 input capacity count tc punctured-Sends e
      (omega arith) (omega arith) (rw e at room)
