-- ===== src/Fec/Decode/Order.antt =====
-- The order in which the blocks are decoded.
use reticulum_tnc.Base.{
  ℕ, zero, suc, ◌+◌, ◌-◌, ◌≤◌, ◌<◌, List, [], ◌∷◌, length, get_or, set, length-set, ltb→lt, lt→ltb,
  Bool-cases, ◌≡◌, refl, sym, ap, subst, ◌∙◌, inl, inr, arith, ℕ_discrete,
}
use mathlib.Core.Logic.Or
use mathlib.Core.List.{
  Perm, Mem, mem-cons_self, mem-cons_of_mem, eq-or-mem_of_mem-cons, not-mem-nil,
}
use mathlib.Core.List.Perm
use reticulum_tnc.Floats.{Float}
use reticulum_tnc.Fec.Decode.{
  blocks_from, confidence, shift_down, insert_blocks, weakest_blocks_first,
}

set_same : (xs : List ℕ) (i : ℕ) → set xs i (get_or xs i 0) ≡ xs
set_same [] i = refl
set_same (x ∷ xs) zero = refl
set_same (x ∷ xs) (suc i) = ap (λ r. x ∷ r) (set_same xs i)

-- Two neighbours change places.
set-Perm :
    (xs : List ℕ) (p v : ℕ)
    → suc p < length xs
    → Perm (set (set xs (suc p) (get_or xs p 0)) p v) (set xs (suc p) v)
set-Perm [] p v h = absurd (omega arith)
set-Perm (x ∷ []) p v h = absurd (omega arith)
set-Perm (x ∷ y ∷ xs) zero v h = Perm.swap x v xs
set-Perm (x ∷ y ∷ xs) (suc p) v h = Perm.cons x (set-Perm (y ∷ xs) p v (omega arith))

length-blocks_from : (block left : ℕ) → length (blocks_from block left) ≡ left
unfolding blocks_from
length-blocks_from block zero = refl
length-blocks_from block (suc left) = ap suc (length-blocks_from (block + 1) left)

-- The numbers that stand in a stretch of the initial order.
pub blocks_from-Mem :
    (block left k : ℕ) → block ≤ k → k < block + left → Mem k (blocks_from block left)
unfolding blocks_from
blocks_from-Mem block zero k low high = absurd (omega arith)
blocks_from-Mem block (suc left) k low high = elim (ℕ_discrete k block) [
  | yes e ↦ subst (λ j. Mem j (block ∷ blocks_from (block + 1) left)) (sym e) mem-cons_self
  | no ne ↦ mem-cons_of_mem block (blocks_from-Mem (block + 1) left k (omega arith) (omega arith))
]

pub Mem-blocks_from : (block left k : ℕ) → Mem k (blocks_from block left) → k < block + left
unfolding blocks_from
Mem-blocks_from block zero k m = absurd (not-mem-nil m)
Mem-blocks_from block (suc left) k m = ltb→lt k (block + suc left) (
    Or.elim (hlevel) (eq-or-mem_of_mem-cons m) (λ e. lt→ltb k (block + suc left) (omega (arith, e)))
      (λ m'.
        let rest = Mem-blocks_from (block + 1) left k m' in
        lt→ltb k (block + suc left) (omega arith)))

module _ {F : Type 0} ⦃f : Float F⦄ where
  -- Moving a block forward puts it somewhere among the others.
  shift_down-Perm :
      (confidence : ℕ → F) (candidate position : ℕ) (order : List ℕ)
      → position < length order
      → Perm (shift_down confidence candidate position order) (set order position candidate)
  unfolding shift_down
  shift_down-Perm confidence candidate zero order h = Perm.rfl
  shift_down-Perm confidence candidate (suc position) order h =
      let before = get_or order position 0 in
      elim (Bool-cases (f.lt (confidence candidate) (confidence before))) [
        | inl e ↦
            rw (e, shift_down)
              (Perm.trans
                (shift_down-Perm confidence candidate position (set order (suc position) before)
                  (omega (arith, length-set order (suc position) before)))
                (set-Perm order position candidate h))
        | inr e ↦ rw (e, shift_down) Perm.rfl
      ]

  length-shift_down :
      (confidence : ℕ → F) (candidate position : ℕ) (order : List ℕ)
      → length (shift_down confidence candidate position order) ≡ length order
  unfolding shift_down
  length-shift_down confidence candidate zero order = length-set order 0 candidate
  length-shift_down confidence candidate (suc position) order =
      let before = get_or order position 0 in
      elim (Bool-cases (f.lt (confidence candidate) (confidence before))) [
        | inl e ↦
            rw (e, shift_down)
              (length-shift_down confidence candidate position (set order (suc position) before)
                ∙ length-set order (suc position) before)
        | inr e ↦ rw (e, shift_down) (length-set order (suc position) candidate)
      ]

  insert_blocks-Perm :
      (confidence : ℕ → F) (block left : ℕ) (order : List ℕ)
      → block + left ≤ length order
      → Perm (insert_blocks confidence block left order) order
  unfolding insert_blocks
  insert_blocks-Perm confidence block zero order h = Perm.rfl
  insert_blocks-Perm confidence block (suc left) order h =
      let candidate = get_or order block 0 in
      let moved = shift_down confidence candidate block order in
      let same : Perm moved order =
        rw (set_same order block) at
          (shift_down-Perm confidence candidate block order (omega arith)) in
      Perm.trans
        (insert_blocks-Perm confidence (block + 1) left moved
          (omega (arith, length-shift_down confidence candidate block order)))
        same

  -- Sorting the blocks by their reliability loses none and repeats none: the order is a rearrangement of
  -- the numbers below the count of blocks, whatever the reliabilities are and however they compare.
  pub weakest_blocks_first-Perm :
      (llr : List F) (block_count bits_per_block : ℕ)
      → Perm (weakest_blocks_first llr block_count bits_per_block) (blocks_from 0 block_count)
  unfolding weakest_blocks_first insert_blocks
  weakest_blocks_first-Perm llr zero bits_per_block = Perm.rfl
  weakest_blocks_first-Perm llr (suc n) bits_per_block =
      insert_blocks-Perm (confidence llr bits_per_block) 1 (suc n - 1) (blocks_from 0 (suc n))
        (omega (arith, length-blocks_from 0 (suc n)))
