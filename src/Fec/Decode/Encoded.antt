-- ===== src/Fec/Decode/Encoded.antt =====
-- The bits of an encoded message, block by block.
use reticulum_tnc.Base.{
  ℕ, zero, suc, ◌+◌, ◌*◌, ◌≤◌, ◌<◌, AreBytes, List, [], ◌∷◌, ◌++◌, length, get_or, take, drop,
  take-append, drop-append, drop_add, Option-cases, ◌≡◌, refl, sym, ap, ap₂, subst, ◌∙◌, ◌≢◌, inl,
  inr, none, some, arith,
}
use reticulum_tnc.Fec.{LdpcCode, ldpc_encode_systematic, information_of, encode_blocks, whole}
use reticulum_tnc.Fec.Size.{IsTc128, block_codeword, length-information_of}
use reticulum_tnc.Fec.MinSum.{variable_of}
use reticulum_tnc.Fec.MinSum.Outcome.{AllEven}
use reticulum_tnc.Fec.MinSum.Parity.{AreBits}
use reticulum_tnc.Fec.MinSum.Signs.{HasEdges}
use reticulum_tnc.Fec.Decode.Pack.{bits_of_bytes}

-- The tables of a code belong together: its edges are edges of its checks and variables, and what the
-- masks make of any eight bytes passes all checks.
pub record IsSound (code : LdpcCode) : Type 0 where
  pub tc128 : IsTc128 code
  pub edges : HasEdges code
  pub variables : (edge : ℕ) → edge < code.edge_count → variable_of code edge < code.variable_count
  pub edge_count : code.edge_count ≤ 512
  pub even :
      (information codeword : List ℕ)
      → length information ≡ 8
      → AreBytes information
      → ldpc_encode_systematic code information 16 ≡ some codeword
      → AllEven code (bits_of_bytes codeword) 0 code.check_count

pub get_or-take {ℓ} :
    {A : Type ℓ} (n : ℕ) (xs : List A) (i : ℕ) (d : A)
    → i < n
    → get_or (take n xs) i d ≡ get_or xs i d
get_or-take zero xs i d h = absurd (omega arith)
get_or-take (suc n) [] i d h = refl
get_or-take (suc n) (x ∷ xs) zero d h = refl
get_or-take (suc n) (x ∷ xs) (suc i) d h = get_or-take n xs i d (omega arith)

pub get_or-drop {ℓ} :
    {A : Type ℓ} (n : ℕ) (xs : List A) (i : ℕ) (d : A)
    → get_or (drop n xs) i d ≡ get_or xs (n + i) d
get_or-drop zero xs i d = ap (λ k. get_or xs k d) (omega arith)
get_or-drop (suc n) [] i d = refl
get_or-drop (suc n) (x ∷ xs) i d =
    let same : suc n + i ≡ suc (n + i) = omega arith in rw same (get_or-drop n xs i d)

pub AreBits-bits_of_bytes : (bytes : List ℕ) → AreBits (bits_of_bytes bytes)
unfolding bits_of_bytes
AreBits-bits_of_bytes [] i = omega arith
AreBits-bits_of_bytes (b ∷ bs) zero = omega arith
AreBits-bits_of_bytes (b ∷ bs) (suc zero) = omega arith
AreBits-bits_of_bytes (b ∷ bs) (suc (suc zero)) = omega arith
AreBits-bits_of_bytes (b ∷ bs) (suc (suc (suc zero))) = omega arith
AreBits-bits_of_bytes (b ∷ bs) (suc (suc (suc (suc zero)))) = omega arith
AreBits-bits_of_bytes (b ∷ bs) (suc (suc (suc (suc (suc zero))))) = omega arith
AreBits-bits_of_bytes (b ∷ bs) (suc (suc (suc (suc (suc (suc zero)))))) = omega arith
AreBits-bits_of_bytes (b ∷ bs) (suc (suc (suc (suc (suc (suc (suc zero))))))) = omega arith
AreBits-bits_of_bytes (b ∷ bs) (suc (suc (suc (suc (suc (suc (suc (suc i)))))))) =
    AreBits-bits_of_bytes bs i

pub bits_of_bytes_at :
    (bytes : List ℕ) (k i : ℕ)
    → get_or (bits_of_bytes (drop k bytes)) i 0 ≡ get_or (bits_of_bytes bytes) (k * 8 + i) 0
unfolding bits_of_bytes
bits_of_bytes_at bytes zero i = ap (λ j. get_or (bits_of_bytes bytes) j 0) (omega arith)
bits_of_bytes_at [] (suc k) i = refl
bits_of_bytes_at (b ∷ bs) (suc k) i =
    bits_of_bytes_at bs k i
    ∙ ap (λ j. get_or (bits_of_bytes (b ∷ bs)) j 0)
        (let same : suc (suc (suc (suc (suc (suc (suc (suc (k * 8 + i)))))))) ≡ suc k * 8 + i =
            omega arith in
          same)

-- A message is encoded block by block.
pub encode_blocks-parts :
    (code : LdpcCode) (count : ℕ) (rest encoded : List ℕ)
    → encode_blocks code whole (suc count) rest ≡ some encoded
    → (codeword : List ℕ) × (more : List ℕ) × (ldpc_encode_systematic code (information_of rest) 16
        ≡ some codeword)
      × (encode_blocks code whole count (drop 8 rest) ≡ some more)
      × (codeword ++ more ≡ encoded)
unfolding encode_blocks
encode_blocks-parts code count rest encoded e =
    elim (Option-cases (ldpc_encode_systematic code (information_of rest) 16)) [
      | inl none_e ↦ absurd (none_not_some (rw (none_e, encode_blocks) at e))
      | inr (codeword, e1) ↦ elim (Option-cases (encode_blocks code whole count (drop 8 rest))) [
        | inl none_e ↦ absurd (none_not_some (rw (e1, none_e, encode_blocks) at e))
        | inr (more, e2) ↦ (codeword, more, e1, e2, some_same (rw (e1, e2, encode_blocks) at e))
      ]
    ]
  where
    none_not_some : {l : List ℕ} → none ≢ some l
    none_not_some e = ground arith

    some_same : {l m : List ℕ} → some l ≡ some m → l ≡ m
    some_same e = ground arith

pub length-codeword :
    (code : LdpcCode) (information codeword : List ℕ)
    → IsTc128 code
    → length information ≡ 8
    → ldpc_encode_systematic code information 16 ≡ some codeword
    → (take 8 codeword ≡ information) × (length codeword ≡ 16)
length-codeword code information codeword tc size e =
    let (c, e', prefix, length_c) = block_codeword code information tc size in
    let same : c ≡ codeword = (let both = sym e' ∙ e in ground (arith, both)) in
    (subst (λ w. take 8 w ≡ information) same prefix, subst (λ w. length w ≡ 16) same length_c)

-- The codeword of a block is a part of the encoded message.
pub encode_blocks_at :
    (code : LdpcCode) (count : ℕ) (rest encoded : List ℕ) (b : ℕ)
    → IsTc128 code
    → encode_blocks code whole count rest ≡ some encoded
    → b < count
    → ldpc_encode_systematic code (information_of (drop (b * 8) rest)) 16
      ≡ some (take 16 (drop (b * 16) encoded))
encode_blocks_at code zero rest encoded b tc e h = absurd (omega arith)
encode_blocks_at code (suc count) rest encoded zero tc e h =
    let (codeword, more, e1, e2, joined) = encode_blocks-parts code count rest encoded e in
    let (_, size) =
      length-codeword code (information_of rest) codeword tc (length-information_of rest) e1 in
    e1 ∙ ap some (sym (take-append codeword more 16 (sym size)) ∙ ap (take 16) joined)
encode_blocks_at code (suc count) rest encoded (suc b) tc e h =
    let (codeword, more, e1, e2, joined) = encode_blocks-parts code count rest encoded e in
    let (_, size) =
      length-codeword code (information_of rest) codeword tc (length-information_of rest) e1 in
    let later : drop (b * 8) (drop 8 rest) ≡ drop (suc b * 8) rest =
      (let n : 8 + b * 8 ≡ suc b * 8 = omega arith in
        sym (drop_add 8 (b * 8) rest) ∙ ap (λ k. drop k rest) n) in
    let sent : drop (b * 16) more ≡ drop (suc b * 16) encoded =
      (let n : 16 + b * 16 ≡ suc b * 16 = omega arith in
        ap (drop (b * 16)) (sym (drop-append codeword more 16 (sym size)))
        ∙ sym (drop_add 16 (b * 16) (codeword ++ more))
        ∙ ap₂ drop n joined) in
    subst
      (λ r.
        ldpc_encode_systematic code (information_of r) 16
        ≡ some (take 16 (drop (suc b * 16) encoded)))
      later
      (encode_blocks_at code count (drop 8 rest) more b tc e2 (omega arith)
        ∙ ap (λ w. some (take 16 w)) sent)
