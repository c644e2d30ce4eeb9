-- ===== src/Fragmentation/Count.antt =====
-- How many fragments a packet takes, and what each of them holds.
use reticulum_tnc.Base.{
  ℕ, zero, suc, ◌+◌, ◌-◌, ◌*◌, ◌^◌, ◌≤◌, ◌<◌, min, List, [], ◌∷◌, length, take, drop, length-drop,
  ◌==◌, if◌then◌else◌, ok, ◌≡◌, refl, ◌↔◌, ◌⊎◌, inl, inr, true, arith,
}
use reticulum_tnc.Fragmentation.{valid_payload_class, fragment_count, fragment_build}

pub class_cases : (k : ℕ) → valid_payload_class k ≡ true → (k ≡ 64) ⊎ (k ≡ 128)
unfolding valid_payload_class
class_cases k v = ground arith

-- The count is the least number of fragments that hold the packet.
pub fragment_count_bounds :
    (n k : ℕ)
    → valid_payload_class k ≡ true
    → 1 ≤ n
    → n ≤ 2 ^ 63
    → (1 ≤ fragment_count n k)
      × ((fragment_count n k - 1) * (k - 1) < n)
      × (n ≤ fragment_count n k * (k - 1))
unfolding fragment_count
fragment_count_bounds n k v low high = elim (class_cases k v) [
  | inl e ↦ rw e (ground arith)
  | inr e ↦ rw e (ground arith)
]

-- A packet fits the 128 fragments of a header's counter exactly if it has 128 loads at most.
pub fragment_count-le_iff :
    (n k : ℕ)
    → valid_payload_class k ≡ true
    → 1 ≤ n
    → n ≤ 2 ^ 63
    → (fragment_count n k ≤ 128) ↔ (n ≤ 128 * (k - 1))
unfolding fragment_count
fragment_count-le_iff n k v low high = elim (class_cases k v) [
  | inl e ↦ rw e (λ h. ground arith, λ h. ground arith)
  | inr e ↦ rw e (λ h. ground arith, λ h. ground arith)
]

take-min : (n : ℕ) (xs : List ℕ) → take (min (length xs) n) xs ≡ take n xs
take-min zero [] = refl
take-min zero (x ∷ xs) = ground arith
take-min (suc n) [] = ground arith
take-min (suc n) (x ∷ xs) = ground (arith, take-min n xs)

-- The load of fragment `i`, its header among `n`, and the whole fragment.
abbrev pub chunk : List ℕ → ℕ → ℕ → List ℕ
chunk p c i = take c (drop (i * c) p)

abbrev pub header : ℕ → ℕ → ℕ
header n i = if i == 0 then n - 1 else n - i - 1 + 0x80

abbrev pub fragment_at : List ℕ → ℕ → ℕ → List ℕ
fragment_at p k i = header (fragment_count (length p) k) i ∷ chunk p (k - 1) i

-- Every fragment of a packet that fits is built, and is the one expected.
pub fragment_build-ok :
    (p : List ℕ) (k i cap : ℕ)
    → i < fragment_count (length p) k
    → fragment_count (length p) k ≤ 128
    → k ≤ cap
    → 1 ≤ k
    → fragment_build p k i cap ≡ ok (fragment_at p k i)
unfolding fragment_build
fragment_build-ok p k i cap hi small room pos =
    ground (arith, take-min (k - 1) (drop (i * (k - 1)) p), length-drop (i * (k - 1)) p)
