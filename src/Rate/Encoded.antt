-- ===== src/Rate/Encoded.antt =====
-- Sizes of a frame on the air, by mode and payload class, and what they mean for the rates.
use reticulum_tnc.Base.{
  ℕ, zero, suc, ◌+◌, ◌-◌, ◌*◌, ◌/◌, ◌^◌, ◌≤◌, ◌<◌, u64, ◌≡◌, refl, ◌⊎◌, inl, inr, true, some, arith,
  dec_lt,
}
use reticulum_tnc.Profile.{bits_of, Modulation}
use reticulum_tnc.Fec.{FecMode, none_mode, ldpc_robust, ldpc_normal, ldpc_fast, fec_encoded_size}
use reticulum_tnc.Rate.{
  ModemRate, has_rate, fec_bitrate, protected_bytes, frame_symbols, rate_of, max_audio_samples,
}
use native.Mathlib.Nat.{mul-le-mul_left, mul-le-mul_right, mul-lt-mul_of_pos_right}

-- The bytes that are sent of a frame, for each mode and payload class.
abbrev pub encoded_of : FecMode → ℕ → ℕ
encoded_of fec_mode class = fec_encoded_size fec_mode (protected_bytes class)

pub rate_of-some :
    (raw fec interface samples : ℕ) (rate : ModemRate)
    → rate_of raw fec interface samples ≡ some rate
    → (samples ≤ max_audio_samples)
      × (raw < 2 ^ 32)
      × (fec < 2 ^ 32)
      × (interface < 2 ^ 32)
      × (rate.raw_bitrate_bps ≡ raw)
      × (rate.fec_bitrate_bps ≡ fec)
      × (rate.interface_bitrate_bps ≡ interface)
      × (rate.frame_samples ≡ samples)
unfolding rate_of
rate_of-some raw fec interface samples rate h = ground arith

-- A frame has `room` bits of data, and `sent` bits are on the air, of which the code leaves `num` parts
-- of `den`. So the data come no faster than `fec`.
pub interface_le :
    (room baud samples bits symbols fec num den sent : ℕ)
    → 0 < symbols
    → 0 < samples
    → baud * bits * num < den * (fec + 1)
    → den * room ≤ num * sent
    → sent ≤ bits * symbols
    → room * (samples * baud) < (fec + 1) * (symbols * samples)
interface_le room baud samples bits symbols fec num den sent pos pos' near few many =
    elim (dec_lt (room * baud) ((fec + 1) * symbols)) [
      | yes less ↦ let scaled = mul-lt-mul_of_pos_right less pos' in omega (arith, scaled)
      | no over ↦
          let most : (fec + 1) * symbols ≤ room * baud = omega arith in
          let high = mul-lt-mul_of_pos_right near pos in
          let low = mul-le-mul_right baud few in
          let all = mul-le-mul_right baud (mul-le-mul_left num many) in
          let scaled = mul-le-mul_left den most in absurd (omega (arith, high, low, all, scaled))
    ]

-- The symbols of a frame hold its bits.
pub frame_symbols-holds :
    (encoded bits : ℕ)
    → encoded < 1000
    → 0 < bits
    → bits ≤ 4
    → (encoded * 8 ≤ bits * frame_symbols encoded bits) × (frame_symbols encoded bits < 10000)
frame_symbols-holds encoded zero h pos high = absurd (omega arith)
frame_symbols-holds encoded (suc zero) h pos high = omega arith
frame_symbols-holds encoded (suc (suc zero)) h pos high = omega arith
frame_symbols-holds encoded (suc (suc (suc zero))) h pos high = omega arith
frame_symbols-holds encoded (suc (suc (suc (suc zero)))) h pos high = omega arith
frame_symbols-holds encoded (suc (suc (suc (suc (suc n))))) h pos high = absurd (omega arith)

-- The size that a frame of a payload class has on the air, and its ratio to the data.
pub record IsEncoded (fec_mode : FecMode) (class encoded : ℕ) : Type 0 where
  pub small : encoded < 1000
  pub nonempty : 0 < encoded
  pub robust : fec_mode ≡ ldpc_robust → 2 * ((class - 1) * 8) ≤ encoded * 8
  pub normal : fec_mode ≡ ldpc_normal → 3 * ((class - 1) * 8) ≤ 2 * (encoded * 8)
  pub plain : (class - 1) * 8 ≤ encoded * 8

pub encoded_of-64 :
    (fec_mode : FecMode) → has_rate fec_mode ≡ true → IsEncoded fec_mode 64 (encoded_of fec_mode 64)
unfolding fec_encoded_size
encoded_of-64 none_mode h = ground arith
encoded_of-64 ldpc_robust h = ground arith
encoded_of-64 ldpc_normal h = ground arith
encoded_of-64 ldpc_fast h = ground arith

pub encoded_of-128 :
    (fec_mode : FecMode)
    → has_rate fec_mode ≡ true
    → IsEncoded fec_mode 128 (encoded_of fec_mode 128)
unfolding fec_encoded_size
encoded_of-128 none_mode h = ground arith
encoded_of-128 ldpc_robust h = ground arith
encoded_of-128 ldpc_normal h = ground arith
encoded_of-128 ldpc_fast h = ground arith

pub bits_of-bounds : (modulation : Modulation) → (0 < bits_of modulation) × (bits_of modulation ≤ 4)
bits_of-bounds modulation = ground arith

-- The bit rate after the code is at most the code's share of the bits, rounded down.
pub interface_under :
    (fec_mode : FecMode) (class encoded room baud samples bits symbols : ℕ)
    → IsEncoded fec_mode class encoded
    → 0 < symbols
    → 0 < samples
    → baud * bits < 2 ^ 40
    → encoded * 8 ≤ bits * symbols
    → room ≡ (class - 1) * 8
    → room * (samples * baud) < (fec_bitrate fec_mode (baud * bits) + 1) * (symbols * samples)
interface_under ldpc_robust class encoded room baud samples bits symbols e pos pos' small many r =
    interface_le room baud samples bits symbols (baud * bits / 2) 1 2 (encoded * 8) pos pos'
      (omega arith) (omega (arith, r, e.robust refl)) many
interface_under ldpc_normal class encoded room baud samples bits symbols e pos pos' small many r =
    interface_le room baud samples bits symbols (u64 (baud * bits * 2) / 3) 2 3 (encoded * 8) pos
      pos' (omega arith) (omega (arith, r, e.normal refl)) many
interface_under none_mode class encoded room baud samples bits symbols e pos pos' small many r =
    interface_le room baud samples bits symbols (baud * bits) 1 1 (encoded * 8) pos pos'
      (omega arith) (omega (arith, r, e.plain)) many
interface_under ldpc_fast class encoded room baud samples bits symbols e pos pos' small many r =
    interface_le room baud samples bits symbols (baud * bits) 1 1 (encoded * 8) pos pos'
      (omega arith) (omega (arith, r, e.plain)) many

pub encoded_of_either :
    (fec_mode : FecMode) (class : ℕ)
    → has_rate fec_mode ≡ true
    → (class ≡ 64) ⊎ (class ≡ 128)
    → IsEncoded fec_mode class (encoded_of fec_mode class)
encoded_of_either fec_mode class known (inl e) = rw e (encoded_of-64 fec_mode known)
encoded_of_either fec_mode class known (inr e) = rw e (encoded_of-128 fec_mode known)

pub lt-le : {a b : ℕ} → a < b → a ≤ b
lt-le h = omega arith

pub fec_bitrate_le : (fec_mode : FecMode) (raw : ℕ) → raw < 2 ^ 32 → fec_bitrate fec_mode raw ≤ raw
fec_bitrate_le fec_mode raw h = ground arith

pub rate_of-fits :
    (raw fec interface samples : ℕ)
    → samples ≤ max_audio_samples
    → raw < 2 ^ 32
    → fec < 2 ^ 32
    → interface < 2 ^ 32
    → (rate : ModemRate) × (rate_of raw fec interface samples ≡ some rate)
unfolding rate_of
rate_of-fits raw fec interface samples a b c d = (
  record {
    raw_bitrate_bps = raw;
    fec_bitrate_bps = fec;
    interface_bitrate_bps = interface;
    frame_samples = samples;
  },
  ground arith,
)
