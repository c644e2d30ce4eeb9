-- ===== src/Runtime/Random.antt =====
-- The random numbers of p-persistence.
use reticulum_tnc.Base.{ℕ, ◌^◌, ◌<◌, bit_xor, u32, ◌<<<◌, ◌>>>◌, ◌≡◌, sym, ◌∙◌, ◌≢◌, arith}
use reticulum_tnc.Base.Bits.{bit_xor_right_cancel, bit_xor_self, bit_xor_lt}
use reticulum_tnc.Runtime.Transmit.{shifted, persistence_random}

self_xor : (a c : ℕ) → bit_xor a c ≡ 0 → a ≡ c
self_xor a c h = bit_xor_right_cancel a c c (h ∙ sym (bit_xor_self c))

shifted-nonzero :
    (s n : ℕ) → s < 2 ^ 32 → s ≢ u32 (s <<< n) → (shifted s n ≢ 0) × (shifted s n < 2 ^ 32)
shifted-nonzero s n small ne =
    (λ e. ne (self_xor s (u32 (s <<< n)) e), bit_xor_lt 32 s (u32 (s <<< n)) small (omega arith))

-- The generator never gets stuck: from a state of 32 bits other than 0, the next is one, too.
pub persistence_random-nonzero :
    (s : ℕ) → s ≢ 0 → s < 2 ^ 32 → (persistence_random s ≢ 0) × (persistence_random s < 2 ^ 32)
unfolding persistence_random
persistence_random-nonzero s h small =
    let s1 = shifted s 13 in
    let (h1, small1) = shifted-nonzero s 13 small (λ e. h (omega arith)) in
    let s2 = bit_xor s1 (s1 >>> 17) in
    let h2 : s2 ≢ 0 = λ e. let e' = self_xor s1 (s1 >>> 17) e in h1 (omega arith) in
    let small2 : s2 < 2 ^ 32 = bit_xor_lt 32 s1 (s1 >>> 17) small1 (omega arith) in
    shifted-nonzero s2 5 small2 (λ e. h2 (omega arith))
