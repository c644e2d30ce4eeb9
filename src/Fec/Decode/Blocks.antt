-- ===== src/Fec/Decode/Blocks.antt =====
-- What the blocks of a received message store, in any order.
use reticulum_tnc.Base.{
  ℕ, ◌+◌, ◌*◌, ◌≤◌, ◌<◌, u32, List, [], ◌∷◌, length, get_or, ok, ◌≡◌, refl, sym, subst, ◌∙◌, true,
  some, arith, dec_lt, ℕ_discrete,
}
use mathlib.Core.Logic.Or
use mathlib.Core.List.{Mem, mem-cons_self, mem-cons_of_mem, eq-or-mem_of_mem-cons, not-mem-nil}
use reticulum_tnc.Floats.{Float}
use reticulum_tnc.Fec.{LdpcCode}
use reticulum_tnc.Fec.MinSum.{DecodeStats, stats_of}
use reticulum_tnc.Fec.Decode.{pack_bits, write_bytes, decode_order, decode_block}
use reticulum_tnc.Fec.Decode.Pack.{
  length-write_bytes, write_bytes-before, write_bytes-after, write_bytes_at,
}

-- `info` gives the bytes of each block; they are stored in the order of `order`.
pub write_all : (ℕ → List ℕ) → List ℕ → List ℕ → List ℕ
write_all info [] output = output
write_all info (block ∷ order) output =
    write_all info order (write_bytes output (block * 8) (info block))

pub length-write_all :
    (info : ℕ → List ℕ) (order output : List ℕ)
    → length (write_all info order output) ≡ length output
unfolding write_all
length-write_all info [] output = refl
length-write_all info (block ∷ order) output =
    length-write_all info order (write_bytes output (block * 8) (info block))
    ∙ length-write_bytes output (block * 8) (info block)

-- The place of byte `j` of block `b` has its byte.
abbrev Stored : (ℕ → List ℕ) → ℕ → ℕ → List ℕ → Type 0
Stored info b j output = get_or output (b * 8 + j) 0 ≡ get_or (info b) j 0

-- Blocks of eight bytes that fit the buffer.
pub record Fits (info : ℕ → List ℕ) (count size : ℕ) : Type 0 where
  pub eight : (b : ℕ) → length (info b) ≡ 8
  pub room : count * 8 ≤ size

AllBelow : ℕ → List ℕ → Type 0
AllBelow count order = (b : ℕ) → Mem b order → b < count

write-Stored :
    (info : ℕ → List ℕ) (count c : ℕ) (output : List ℕ) (j : ℕ)
    → Fits info count (length output)
    → c < count
    → j < 8
    → Stored info c j (write_bytes output (c * 8) (info c))
write-Stored info count c output j fits below h =
    write_bytes_at output (c * 8) (info c) j
      (let e = fits.eight c in let r = fits.room in omega (arith, e, r))
      (let e = fits.eight c in omega (arith, e))

write-keeps :
    (info : ℕ → List ℕ) (count b c : ℕ) (output : List ℕ) (j : ℕ)
    → Fits info count (length output)
    → c < count
    → j < 8
    → Stored info b j output
    → Stored info b j (write_bytes output (c * 8) (info c))
write-keeps info count b c output j fits below h old = elim (ℕ_discrete b c) [
  | yes e ↦
      subst (λ a. Stored info a j (write_bytes output (c * 8) (info c))) (sym e)
        (write-Stored info count c output j fits below h)
  | no ne ↦ elim (dec_lt b c) [
    | yes less ↦ write_bytes-before output (c * 8) (info c) (b * 8 + j) (omega arith) ∙ old
    | no over ↦
        write_bytes-after output (c * 8) (info c) (b * 8 + j)
          (let e = fits.eight c in omega (arith, e))
        ∙ old
  ]
]

write_all-keeps :
    (info : ℕ → List ℕ) (count b : ℕ) (order output : List ℕ) (j : ℕ)
    → Fits info count (length output)
    → AllBelow count order
    → j < 8
    → Stored info b j output
    → Stored info b j (write_all info order output)
unfolding write_all AllBelow
write_all-keeps info count b [] output j fits below h old = old
write_all-keeps info count b (c ∷ order) output j fits below h old =
    let output' = write_bytes output (c * 8) (info c) in
    let size = length-write_bytes output (c * 8) (info c) in
    write_all-keeps info count b order output' j (subst (Fits info count) (sym size) fits)
      (λ a m. below a (mem-cons_of_mem c m)) h
      (write-keeps info count b c output j fits (below c mem-cons_self) h old)

-- Every block of the order is stored in the end.
pub write_all-Stored :
    (info : ℕ → List ℕ) (count b : ℕ) (order output : List ℕ) (j : ℕ)
    → Fits info count (length output)
    → ((a : ℕ) → Mem a order → a < count)
    → j < 8
    → Mem b order
    → get_or (write_all info order output) (b * 8 + j) 0 ≡ get_or (info b) j 0
unfolding write_all AllBelow
write_all-Stored info count b [] output j fits below h m = absurd (not-mem-nil m)
write_all-Stored info count b (c ∷ order) output j fits below h m =
    let output' = write_bytes output (c * 8) (info c) in
    let size = length-write_bytes output (c * 8) (info c) in
    let fits' = subst (Fits info count) (sym size) fits in
    let rest = λ (a : ℕ) (m' : Mem a order). below a (mem-cons_of_mem c m') in
    Or.elim (hlevel) (eq-or-mem_of_mem-cons m)
      (λ e. write_all-keeps info count b order output' j fits' rest h (
        subst (λ a. Stored info a j output') (sym e)
          (write-Stored info count c output j fits (below c mem-cons_self) h)))
      (λ m'. write_all-Stored info count b order output' j fits' rest h m')

module _ {F : Type 0} ⦃f : Float F⦄ where
  -- If every block is decoded, all are stored.
  pub decode_order-write_all :
      (code : LdpcCode) (block_llr : ℕ → List F) (info : ℕ → List ℕ) (word : ℕ → List ℕ)
      (order : List ℕ) (iterations syndrome : ℕ) (output : List ℕ)
      → ((b : ℕ) → Mem b order → decode_block code (block_llr b) ≡ some (word b, stats_of true 1 0))
      → ((b : ℕ) → Mem b order → pack_bits 8 (word b) ≡ info b)
      → (stats : DecodeStats) × (decode_order code block_llr order iterations syndrome output
          ≡ ok (write_all info order output, stats))
        × (stats.converged ≡ true)
  unfolding decode_order write_all
  decode_order-write_all code block_llr info word [] iterations syndrome output decodes packs =
      (stats_of true iterations syndrome, refl, refl)
  decode_order-write_all code block_llr info word (block ∷ order) iterations syndrome output decodes
        packs =
      let here = decodes block mem-cons_self in
      let stored = packs block mem-cons_self in
      let (stats, e, done) =
        decode_order-write_all code block_llr info word order (u32 (iterations + 1))
          (u32 (syndrome + 0)) (write_bytes output (block * 8) (info block))
          (λ b m. decodes b (mem-cons_of_mem block m)) (λ b m. packs b (mem-cons_of_mem block m)) in
      (stats, rw (here, decode_order, stored) e, done)
