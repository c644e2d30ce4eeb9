-- ===== src/Ring/Index.antt =====
-- Arithmetic of the two indices.
use reticulum_tnc.Base.{
  ℕ, suc, ◌+◌, ◌-◌, ◌%◌, ◌<◌, leb, if◌then◌else◌, ◌≡◌, ◌∙◌, ◌≢◌, ◌↔◌, ◌⊎◌, inl, inr, arith, dec_lt,
  dec_le,
}
use native.Mathlib.Nat.{mod-eq_of_lt, mod_self, mod-eq-sub-mod}

-- `producer >= consumer ? producer - consumer : n - consumer + producer`
abbrev pub distance : ℕ → ℕ → ℕ → ℕ
distance producer consumer n =
    if leb consumer producer then producer - consumer else n - consumer + producer

pub next_cases :
    (i n : ℕ) → i < n → ((suc i < n) × ((i + 1) % n ≡ i + 1)) ⊎ ((i + 1 ≡ n) × ((i + 1) % n ≡ 0))
next_cases i n h = elim (dec_lt (i + 1) n) [
  | yes less ↦ inl (omega arith, mod-eq_of_lt less)
  | no not_less ↦ let e : i + 1 ≡ n = omega arith in inr (e, rw e (mod_self n))
]

pub next-lt : (i n : ℕ) → i < n → (i + 1) % n < n
next-lt i n h = omega (arith, next_cases i n h)

pub distance-lt : (p c n : ℕ) → p < n → c < n → distance p c n < n
distance-lt p c n hp hc = ground arith

-- Equal indices mean that nothing is stored.
pub distance-zero_iff : (p c n : ℕ) → p < n → c < n → (distance p c n ≡ 0) ↔ (c ≡ p)
distance-zero_iff p c n hp hc = ground arith

-- The next producer index meets the consumer exactly if all slots but one are taken.
pub full_iff : (p c n : ℕ) → p < n → c < n → ((p + 1) % n ≡ c) ↔ (distance p c n + 1 ≡ n)
full_iff p c n hp hc =
    (λ h. ground (arith, next_cases p n hp), λ h. ground (arith, next_cases p n hp))

pub distance-next_producer :
    (p c n : ℕ) → p < n → c < n → (p + 1) % n ≢ c → distance ((p + 1) % n) c n ≡ distance p c n + 1
distance-next_producer p c n hp hc ne = ground (arith, next_cases p n hp)

pub distance-next_consumer :
    (p c n : ℕ) → p < n → c < n → c ≢ p → distance p ((c + 1) % n) n + 1 ≡ distance p c n
distance-next_consumer p c n hp hc ne = ground (arith, next_cases c n hc)

-- The producer stands `distance` steps past the consumer.
pub producer_of_distance : (p c n : ℕ) → p < n → c < n → (c + distance p c n) % n ≡ p
producer_of_distance p c n hp hc = elim (dec_le c p) [
  | yes h ↦ let e : c + distance p c n ≡ p = ground arith in rw e (mod-eq_of_lt hp)
  | no h ↦
      let e : c + distance p c n ≡ n + p = ground arith in
      let e' : n + p - n ≡ p = omega arith in
      rw e (mod-eq-sub-mod {n = n + p} {m = n} (omega arith) ∙ rw e' (mod-eq_of_lt hp))
]
