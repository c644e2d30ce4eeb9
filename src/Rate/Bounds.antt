-- ===== src/Rate/Bounds.antt =====
-- The rates fit together, and a frame fits the buffers of the modem.
use reticulum_tnc.Base.{
  ℕ, ◌-◌, ◌*◌, ◌/◌, ◌^◌, ◌≤◌, ◌<◌, u64, ◌≡◌, refl, sym, ◌∙◌, ◌↔◌, ◌⊎◌, true, some, arith,
}
use reticulum_tnc.Floats.{Float}
use reticulum_tnc.Profile.{PhyProfile, profile_is_valid}
use reticulum_tnc.Profile.Accepts.{IsUsable, profile_is_valid_iff}
use reticulum_tnc.Fec.{FecMode}
use reticulum_tnc.Rate.{
  ModemRate, has_rate, fec_bitrate, frame_symbols, rate_of, calculated, modem_profile_rate,
  max_audio_samples,
}
use reticulum_tnc.Rate.Encoded.{
  encoded_of, rate_of-some, frame_symbols-holds, IsEncoded, bits_of-bounds, interface_under,
  encoded_of_either, lt-le, fec_bitrate_le, rate_of-fits,
}
use native.Mathlib.Nat.{
  div-lt_iff_lt-mul, mul-le-mul_left, mul-le-mul_right, mul-le-mul, mul-pos, mod-eq_of_lt,
}

module _ {F : Type 0} ⦃f : Float F⦄ where
  -- What the code calculates from.
  abbrev pub symbols_of : PhyProfile F → FecMode → ℕ → ℕ
  symbols_of profile fec_mode class =
      frame_symbols (encoded_of fec_mode class) profile.bits_per_symbol

  abbrev pub samples_of : PhyProfile F → FecMode → ℕ → ℕ
  samples_of profile fec_mode class = symbols_of profile fec_mode class * profile.samples_per_symbol

  -- The numbers of a usable profile, without any wrap around.
  record Numbers (profile : PhyProfile F) (fec_mode : FecMode) (class : ℕ) : Type 0 where
    encoded : IsEncoded fec_mode class (encoded_of fec_mode class)
    symbols_small : symbols_of profile fec_mode class < 10000
    symbols_hold :
        encoded_of fec_mode class * 8 ≤ profile.bits_per_symbol * symbols_of profile fec_mode class
    symbols_pos : 0 < symbols_of profile fec_mode class
    samples_pos : 0 < samples_of profile fec_mode class
    samples_fit : samples_of profile fec_mode class < 2 ^ 64
    raw_small : profile.symbol_rate_baud * profile.bits_per_symbol < 2 ^ 32
    room_fits : (class - 1) * 8 * profile.sample_rate_hz < 2 ^ 64

  numbers :
      (profile : PhyProfile F) (fec_mode : FecMode) (class : ℕ)
      → IsUsable profile
      → profile.sample_rate_hz < 2 ^ 32
      → has_rate fec_mode ≡ true
      → (class ≡ 64) ⊎ (class ≡ 128)
      → Numbers profile fec_mode class
  numbers profile fec_mode class usable small known either =
      let bits = bits_of-bounds profile.modulation in
      let encoded = encoded_of_either fec_mode class known either in
      let holds =
        frame_symbols-holds (encoded_of fec_mode class) profile.bits_per_symbol encoded.small
          (omega (arith, bits, usable.bits)) (omega (arith, bits, usable.bits)) in
      let symbols_pos : 0 < symbols_of profile fec_mode class = omega arith in
      let most =
        mul-le-mul {n₁ = symbols_of profile fec_mode class} {n₂ = 10000} (omega arith)
          usable.at_most in
      let low = mul-le-mul_right profile.symbol_rate_baud usable.at_least in
      let high : profile.bits_per_symbol ≤ 4 = omega (arith, bits, usable.bits) in
      let raw = mul-le-mul_left profile.symbol_rate_baud high in
      let room = mul-le-mul {n₁ = (class - 1) * 8} {n₂ = 1016} (omega arith) (lt-le small) in
      record {
        encoded = encoded;
        symbols_small = holds.1;
        symbols_hold = holds.0;
        symbols_pos = symbols_pos;
        samples_pos = mul-pos symbols_pos (omega (arith, usable.at_least));
        samples_fit = omega (arith, most);
        raw_small = omega (arith, raw, low, usable.divides);
        room_fits = omega (arith, room);
      }

  calculated-parts :
      (profile : PhyProfile F) (fec_mode : FecMode) (class : ℕ)
      → Numbers profile fec_mode class
      → calculated profile fec_mode class (encoded_of fec_mode class)
        ≡ rate_of
            (profile.symbol_rate_baud * profile.bits_per_symbol)
            (fec_bitrate fec_mode (profile.symbol_rate_baud * profile.bits_per_symbol))
            ((class - 1) * 8 * profile.sample_rate_hz / samples_of profile fec_mode class)
            (samples_of profile fec_mode class)
  unfolding calculated
  calculated-parts profile fec_mode class n =
      let raw : u64 (profile.symbol_rate_baud * profile.bits_per_symbol)
          ≡ profile.symbol_rate_baud * profile.bits_per_symbol =
        omega (arith, n.raw_small) in
      let room : u64 ((class - 1) * 8 * profile.sample_rate_hz)
          ≡ (class - 1) * 8 * profile.sample_rate_hz =
        mod-eq_of_lt n.room_fits in
      let samples : u64 (samples_of profile fec_mode class) ≡ samples_of profile fec_mode class =
        mod-eq_of_lt n.samples_fit in
      rw (raw, room, samples) refl

  modem_profile_rate-some :
      (profile : PhyProfile F) (fec_mode : FecMode) (class : ℕ) (rate : ModemRate)
      → modem_profile_rate profile fec_mode class ≡ some rate
      → (profile_is_valid profile ≡ true)
        × ((class ≡ 64) ⊎ (class ≡ 128))
        × (has_rate fec_mode ≡ true)
        × (calculated profile fec_mode class (encoded_of fec_mode class) ≡ some rate)
  unfolding modem_profile_rate
  modem_profile_rate-some profile fec_mode class rate h = ground arith

  -- A rate is given only for a frame that fits the buffers.
  pub modem_profile_rate-fits :
      (profile : PhyProfile F) (fec_mode : FecMode) (class : ℕ) (rate : ModemRate)
      → modem_profile_rate profile fec_mode class ≡ some rate
      → rate.frame_samples ≤ max_audio_samples
  unfolding calculated
  modem_profile_rate-fits profile fec_mode class rate h =
      let (_, _, _, e) = modem_profile_rate-some profile fec_mode class rate h in
      let raw = u64 (profile.symbol_rate_baud * profile.bits_per_symbol) in
      let samples = u64 (samples_of profile fec_mode class) in
      let interface = u64 ((class - 1) * 8 * profile.sample_rate_hz) / samples in
      let facts = rate_of-some raw (fec_bitrate fec_mode raw) interface samples rate e in
      rw (facts.7) (facts.0)

  modem_profile_rate-calculated :
      (profile : PhyProfile F) (fec_mode : FecMode) (class : ℕ)
      → profile_is_valid profile ≡ true
      → has_rate fec_mode ≡ true
      → (class ≡ 64) ⊎ (class ≡ 128)
      → Numbers profile fec_mode class
      → modem_profile_rate profile fec_mode class
        ≡ calculated profile fec_mode class (encoded_of fec_mode class)
  unfolding modem_profile_rate
  modem_profile_rate-calculated profile fec_mode class valid known either n =
      let nonempty = n.encoded.nonempty in ground arith

  interface_fits :
      (profile : PhyProfile F) (fec_mode : FecMode) (class : ℕ)
      → IsUsable profile
      → Numbers profile fec_mode class
      → (class - 1) * 8 * profile.sample_rate_hz / samples_of profile fec_mode class
        ≤ fec_bitrate fec_mode (profile.symbol_rate_baud * profile.bits_per_symbol)
  interface_fits profile fec_mode class usable n =
      let under =
        interface_under fec_mode class (encoded_of fec_mode class) ((class - 1) * 8)
          profile.symbol_rate_baud profile.samples_per_symbol profile.bits_per_symbol
          (symbols_of profile fec_mode class) n.encoded n.symbols_pos
          (omega (arith, usable.at_least)) (omega (arith, n.raw_small)) n.symbols_hold refl in
      let quotient = (div-lt_iff_lt-mul n.samples_pos).1 (rw usable.divides at under) in
      omega (arith, quotient)

  -- The rates that the code gives for a profile with a sample rate of 32 bits: a frame has at most
  -- 90000 samples, those of its symbols; the raw rate is that of the symbols; and with the code's share
  -- taken off it is at most the raw rate, and at least the rate of the data, which follows from the
  -- length of a frame.
  pub modem_profile_rate_bounds :
      (profile : PhyProfile F) (fec_mode : FecMode) (class : ℕ) (rate : ModemRate)
      → profile.sample_rate_hz < 2 ^ 32
      → modem_profile_rate profile fec_mode class ≡ some rate
      → (rate.frame_samples ≡ samples_of profile fec_mode class)
        × (rate.frame_samples ≤ max_audio_samples)
        × (rate.raw_bitrate_bps ≡ profile.symbol_rate_baud * profile.bits_per_symbol)
        × (rate.fec_bitrate_bps ≤ rate.raw_bitrate_bps)
        × (rate.interface_bitrate_bps ≤ rate.fec_bitrate_bps)
        × (rate.interface_bitrate_bps
            ≡ (class - 1) * 8 * profile.sample_rate_hz / rate.frame_samples)
        × (rate.raw_bitrate_bps < 2 ^ 32)
  modem_profile_rate_bounds profile fec_mode class rate small h =
      let (valid, either, known, e) = modem_profile_rate-some profile fec_mode class rate h in
      let usable = (profile_is_valid_iff profile).0 valid in
      let n = numbers profile fec_mode class usable small known either in
      let parts = sym (calculated-parts profile fec_mode class n) ∙ e in
      let raw = profile.symbol_rate_baud * profile.bits_per_symbol in
      let facts =
        rate_of-some raw (fec_bitrate fec_mode raw)
          ((class - 1) * 8 * profile.sample_rate_hz / samples_of profile fec_mode class)
          (samples_of profile fec_mode class) rate parts in
      let (fit, raw_fit, fec_fit, interface_fit, raw_e, fec_e, interface_e, samples_e) = facts in
      (
        samples_e,
        rw samples_e fit,
        raw_e,
        rw (raw_e, fec_e) (fec_bitrate_le fec_mode raw raw_fit),
        rw (fec_e, interface_e) (interface_fits profile fec_mode class usable n),
        rw samples_e interface_e,
        rw raw_e raw_fit,
      )

  -- A valid profile whose sample rate has 32 bits gets its rates with a mode that has a code, or none,
  -- and a payload class of 64 or 128 bytes, exactly if a frame has at most 90000 samples.
  pub modem_profile_rate_iff :
      (profile : PhyProfile F) (fec_mode : FecMode) (class : ℕ)
      → profile.sample_rate_hz < 2 ^ 32
      → profile_is_valid profile ≡ true
      → has_rate fec_mode ≡ true
      → (class ≡ 64) ⊎ (class ≡ 128)
      → ((rate : ModemRate) × (modem_profile_rate profile fec_mode class ≡ some rate))
        ↔ (samples_of profile fec_mode class ≤ max_audio_samples)
  modem_profile_rate_iff profile fec_mode class small valid known either =
      let usable = (profile_is_valid_iff profile).0 valid in
      let n = numbers profile fec_mode class usable small known either in
      let raw = profile.symbol_rate_baud * profile.bits_per_symbol in
      let interface =
        (class - 1) * 8 * profile.sample_rate_hz / samples_of profile fec_mode class in
      (
        λ (rate, e).
            (let facts = modem_profile_rate_bounds profile fec_mode class rate small e in
              rw (facts.0) at (facts.1)),
        λ most.
            (let fec_le = fec_bitrate_le fec_mode raw n.raw_small in
              let interface_le = interface_fits profile fec_mode class usable n in
              let (rate, e) =
                rate_of-fits raw (fec_bitrate fec_mode raw) interface
                  (samples_of profile fec_mode class) most n.raw_small
                  (omega (arith, n.raw_small, fec_le))
                  (omega (arith, n.raw_small, fec_le, interface_le)) in
              (
                rate,
                modem_profile_rate-calculated profile fec_mode class valid known either n
                    ∙ calculated-parts profile fec_mode class n
                    ∙ e,
              )),
      )
