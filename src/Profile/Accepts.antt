-- ===== src/Profile/Accepts.antt =====
-- Which profiles the code accepts.
use reticulum_tnc.Base.{
  ℕ, zero, suc, ◌*◌, ◌%◌, ◌^◌, ◌≤◌, ◌<◌, ◌≡◌, refl, sym, ap, subst, ◌∙◌, ◌↔◌, Bool, true, false,
  ◌&&◌, some, arith,
}
use native.Mathlib.Nat.{mod-add-div', div-eq_of_eq-mul_left, mul-pos, mul-zero}
use reticulum_tnc.Floats.{Float, IsDecimal}
use reticulum_tnc.Profile.{
  Modulation, modulation_bpsk, modulation_qpsk, modulation_8psk, modulation_16psk, PhyProfile,
  bits_of, profile_qpsk_1200, outside_unit, rates_valid, shape_valid, profile_is_valid,
  candidate_of, profile_psk,
}

factor_pos : (samples rate : ℕ) → samples * rate ≡ 48000 → 0 < rate
factor_pos samples zero e = absurd (omega (arith, mul-zero samples, e))
factor_pos samples (suc rate) e = omega arith

divides_mod : (q d n : ℕ) → q * d ≡ n → 0 < d → n % d ≡ 0
divides_mod q d n e pos =
    let total = mod-add-div' n d in
    omega (arith, rw (div-eq_of_eq-mul_left pos (sym e)) at total, e)

-- The points of a constellation.
abbrev pub points : Modulation → ℕ
points modulation_bpsk = 2
points modulation_qpsk = 4
points modulation_8psk = 8
points modulation_16psk = 16

points_of_bits : (modulation : Modulation) → 2 ^ bits_of modulation ≡ points modulation
points_of_bits modulation_bpsk = refl
points_of_bits modulation_qpsk = refl
points_of_bits modulation_8psk = refl
points_of_bits modulation_16psk = refl

module _ {F : Type 0} ⦃f : Float F⦄ where
  -- What a valid profile promises to the modem.
  pub record IsUsable (profile : PhyProfile F) : Type 0 where
    pub divides : profile.samples_per_symbol * profile.symbol_rate_baud ≡ profile.sample_rate_hz
    pub at_least : 20 ≤ profile.samples_per_symbol
    pub at_most : profile.samples_per_symbol ≤ 80
    pub bits : profile.bits_per_symbol ≡ bits_of profile.modulation
    pub rate_positive : 0 < profile.symbol_rate_baud
    pub shape : shape_valid profile ≡ true

  -- What is built for a modulation, a symbol rate and a carrier.
  pub record IsBuilt (modulation : Modulation) (symbol_rate_baud : ℕ) (carrier_hz : F)
      (profile : PhyProfile F) : Type 0 where
    pub modulation_kept : profile.modulation ≡ modulation
    pub constellation : 2 ^ profile.bits_per_symbol ≡ points modulation
    pub sample_rate : profile.sample_rate_hz ≡ 48000
    pub symbol_rate : profile.symbol_rate_baud ≡ symbol_rate_baud
    pub divides : profile.samples_per_symbol * symbol_rate_baud ≡ 48000
    pub at_least : 20 ≤ profile.samples_per_symbol
    pub at_most : profile.samples_per_symbol ≤ 80
    pub carrier_kept : profile.carrier_hz ≡ carrier_hz
    pub above : f.lt (f.decimal 300 0) carrier_hz ≡ true
    pub below : f.lt carrier_hz (f.decimal 3000 0) ≡ true

  rates_lem :
      (profile : PhyProfile F)
      → rates_valid profile ≡ true
      → (profile.samples_per_symbol * profile.symbol_rate_baud ≡ profile.sample_rate_hz)
        × (20 ≤ profile.samples_per_symbol)
        × (profile.samples_per_symbol ≤ 80)
        × (0 < profile.symbol_rate_baud)
  rates_lem profile h = ground (arith, mod-add-div' profile.sample_rate_hz profile.symbol_rate_baud)

  rates_valid_lem :
      (profile : PhyProfile F)
      → profile.samples_per_symbol * profile.symbol_rate_baud ≡ profile.sample_rate_hz
      → 20 ≤ profile.samples_per_symbol
      → profile.samples_per_symbol ≤ 80
      → 0 < profile.symbol_rate_baud
      → rates_valid profile ≡ true
  rates_valid_lem profile e low high pos =
      let size : 0 < profile.sample_rate_hz = rw (sym e) (mul-pos (omega arith) pos) in
      let quotient = div-eq_of_eq-mul_left pos (sym e) in
      let remainder = mod-add-div' profile.sample_rate_hz profile.symbol_rate_baud in
      ground (arith, rw quotient at remainder)

  -- A profile is valid exactly if its whole number of samples per symbol, from 20 to 80, times its
  -- symbol rate is its sample rate, its bits per symbol are those of its modulation, and its roll-off,
  -- thresholds and carrier are in their ranges.
  pub profile_is_valid_iff :
      (profile : PhyProfile F) → (profile_is_valid profile ≡ true) ↔ IsUsable profile
  unfolding profile_is_valid
  profile_is_valid_iff profile = (
    λ h.
        (let rates : rates_valid profile ≡ true = ground arith in
          let facts = rates_lem profile rates in
          record {
            divides = facts.0;
            at_least = facts.1;
            at_most = facts.2;
            bits = ground arith;
            rate_positive = facts.3;
            shape = ground arith;
          }),
    λ u.
        (let rates = rates_valid_lem profile u.divides u.at_least u.at_most u.rate_positive in
          ground (arith, rates, u.bits, u.shape)),
  )

  qpsk_1200_rolloff : IsDecimal F → outside_unit ((profile_qpsk_1200 {F = F}).rrc_rolloff) ≡ false
  unfolding profile_qpsk_1200
  qpsk_1200_rolloff laws =
      rw (laws.decimal_positive 24 2 (omega arith), laws.decimal_not_lt 25 2 1 0 (omega arith)) refl

  qpsk_1200_acquisition :
      IsDecimal F → outside_unit ((profile_qpsk_1200 {F = F}).acquisition_threshold) ≡ false
  unfolding profile_qpsk_1200
  qpsk_1200_acquisition laws =
      rw (laws.decimal_positive 89 2 (omega arith), laws.decimal_not_lt 90 2 1 0 (omega arith)) refl

  qpsk_1200_training :
      IsDecimal F → outside_unit ((profile_qpsk_1200 {F = F}).training_threshold) ≡ false
  unfolding profile_qpsk_1200
  qpsk_1200_training laws =
      rw (laws.decimal_positive 69 2 (omega arith), laws.decimal_not_lt 70 2 1 0 (omega arith)) refl

  -- The carriers that a profile may have.
  abbrev pub in_band : F → Bool
  in_band carrier_hz = f.lt (f.decimal 300 0) carrier_hz && f.lt carrier_hz (f.decimal 3000 0)

  candidate_of-shape :
      (modulation : Modulation) (symbol_rate_baud : ℕ) (carrier_hz : F)
      → IsDecimal F
      → shape_valid (candidate_of modulation symbol_rate_baud carrier_hz) ≡ in_band carrier_hz
  candidate_of-shape modulation symbol_rate_baud carrier_hz laws =
      rw (qpsk_1200_rolloff laws, qpsk_1200_acquisition laws, qpsk_1200_training laws) refl

  candidate_of-rate :
      (modulation : Modulation) (symbol_rate_baud : ℕ) (carrier_hz : F)
      → (candidate_of modulation symbol_rate_baud carrier_hz).sample_rate_hz ≡ 48000
  unfolding profile_qpsk_1200
  candidate_of-rate modulation symbol_rate_baud carrier_hz = refl

  profile_psk-some :
      (modulation : Modulation) (symbol_rate_baud : ℕ) (carrier_hz : F) (profile : PhyProfile F)
      → profile_psk modulation symbol_rate_baud carrier_hz ≡ some profile
      → (profile_is_valid (candidate_of modulation symbol_rate_baud carrier_hz) ≡ true)
        × (candidate_of modulation symbol_rate_baud carrier_hz ≡ profile)
  unfolding profile_psk
  profile_psk-some modulation symbol_rate_baud carrier_hz profile h = ground arith

  profile_psk-accepts :
      (modulation : Modulation) (symbol_rate_baud : ℕ) (carrier_hz : F)
      → 0 < symbol_rate_baud
      → 48000 % symbol_rate_baud ≡ 0
      → profile_is_valid (candidate_of modulation symbol_rate_baud carrier_hz) ≡ true
      → profile_psk modulation symbol_rate_baud carrier_hz
        ≡ some (candidate_of modulation symbol_rate_baud carrier_hz)
  unfolding profile_psk
  profile_psk-accepts modulation symbol_rate_baud carrier_hz pos e valid = ground arith

  candidate_of-samples :
      (modulation : Modulation) (symbol_rate_baud : ℕ) (carrier_hz : F) (samples : ℕ)
      → samples * symbol_rate_baud ≡ 48000
      → 0 < symbol_rate_baud
      → samples ≤ 80
      → (candidate_of modulation symbol_rate_baud carrier_hz).samples_per_symbol ≡ samples
  unfolding profile_qpsk_1200
  candidate_of-samples modulation symbol_rate_baud carrier_hz samples e pos high =
      rw (div-eq_of_eq-mul_left pos (sym e)) (omega arith)

  profile_psk-IsBuilt :
      (modulation : Modulation) (symbol_rate_baud : ℕ) (carrier_hz : F)
      → profile_is_valid (candidate_of modulation symbol_rate_baud carrier_hz) ≡ true
      → IsDecimal F
      → IsBuilt modulation symbol_rate_baud carrier_hz
          (candidate_of modulation symbol_rate_baud carrier_hz)
  profile_psk-IsBuilt modulation symbol_rate_baud carrier_hz valid laws =
      let candidate = candidate_of modulation symbol_rate_baud carrier_hz in
      let usable = (profile_is_valid_iff candidate).0 valid in
      let rate = candidate_of-rate modulation symbol_rate_baud carrier_hz in
      let band : in_band carrier_hz ≡ true =
        sym (candidate_of-shape modulation symbol_rate_baud carrier_hz laws) ∙ usable.shape in
      record {
        modulation_kept = refl;
        constellation = points_of_bits modulation;
        sample_rate = rate;
        symbol_rate = refl;
        divides = usable.divides ∙ rate;
        at_least = usable.at_least;
        at_most = usable.at_most;
        carrier_kept = refl;
        above = ground arith;
        below = ground arith;
      }

  -- If the literals of the source keep their order: a profile is built exactly if 48000 is the symbol
  -- rate times 20 to 80 and the carrier is above 300 and below 3000 Hz, with any modulation; it has the
  -- modulation, the symbol rate and the carrier that were asked for, 48000 samples per second, and as
  -- many bits per symbol as its constellation has points for.
  pub profile_psk_lem :
      (modulation : Modulation) (symbol_rate_baud : ℕ) (carrier_hz : F)
      → IsDecimal F
      → ((profile : PhyProfile F)
          → profile_psk modulation symbol_rate_baud carrier_hz ≡ some profile
          → IsBuilt modulation symbol_rate_baud carrier_hz profile)
        × ((samples : ℕ)
            → samples * symbol_rate_baud ≡ 48000
            → 20 ≤ samples
            → samples ≤ 80
            → f.lt (f.decimal 300 0) carrier_hz ≡ true
            → f.lt carrier_hz (f.decimal 3000 0) ≡ true
            → profile_psk modulation symbol_rate_baud carrier_hz
              ≡ some (candidate_of modulation symbol_rate_baud carrier_hz))
  profile_psk_lem modulation symbol_rate_baud carrier_hz laws =
      let candidate = candidate_of modulation symbol_rate_baud carrier_hz in
      let rate = candidate_of-rate modulation symbol_rate_baud carrier_hz in
      (
        λ profile h.
            (let (valid, same) =
                profile_psk-some modulation symbol_rate_baud carrier_hz profile h in
              subst {A = PhyProfile F} (λ p. IsBuilt modulation symbol_rate_baud carrier_hz p) same
                (profile_psk-IsBuilt modulation symbol_rate_baud carrier_hz valid laws)),
        λ samples e low high above below.
            (let pos = factor_pos samples symbol_rate_baud e in
              let same =
                candidate_of-samples modulation symbol_rate_baud carrier_hz samples e pos high in
              let band : in_band carrier_hz ≡ true = rw (above, below) refl in
              let shape = candidate_of-shape modulation symbol_rate_baud carrier_hz laws ∙ band in
              profile_psk-accepts modulation symbol_rate_baud carrier_hz pos
                (divides_mod samples symbol_rate_baud 48000 e pos)
                ((profile_is_valid_iff candidate).1 (record {
                  divides = ap (λ n. n * symbol_rate_baud) same ∙ e ∙ sym rate;
                  at_least = rw same low;
                  at_most = rw same high;
                  bits = refl;
                  rate_positive = pos;
                  shape = shape;
                }))),
      )
