-- ===== src/Profile.antt =====
-- Profiles of the physical layer, src/phy/profile.c and rtnc_phy_profile_t of include/rtnc/phy.h. A
-- value of the enumeration that has no name does not occur.
pub mod Accepts
mod Tests
use reticulum_tnc.Base.{
  ℕ, zero, suc, ◌+◌, ◌-◌, ◌*◌, ◌/◌, ◌%◌, ◌^◌, ◌≤◌, ◌<◌, min, max, bit_xor, u8, u16, u32, u64, ◌<<<◌,
  ◌>>>◌, test_bit, AreBytes, List, [], ◌∷◌, ◌++◌, map, append-nil, append_assoc, length, get_or,
  set, take, drop, replicate, length-append, length-set, get_or-set_self, get_or-set_ne,
  length-take, length-drop, length-replicate, get_or-replicate, take-append-drop, take-append,
  drop-append, take_all, get_or-append_right, take_add, drop_add, ltb, leb, ◌==◌, if◌then◌else◌,
  ltb→lt, lt→ltb, leb→le, ==_iff, Bool-cases, Option-cases, Result, ok, err, ◌>>=◌, ◌>>◌, fail_if,
  ◌≡◌, refl, sym, ap, ap₂, subst, ◌∙◌, ◌≢◌, ◌↔◌, ◌⊎◌, inl, inr, Bool, true, false, not, ◌&&◌, ◌||◌,
  Option, none, some, arith, dec_lt, dec_le, ℕ_discrete,
}
use reticulum_tnc.Floats.{Float}

pub data Modulation : Type 0 where
  modulation_qpsk modulation_8psk modulation_16psk modulation_bpsk : Modulation

pub record PhyProfile (F : Type 0) : Type 0 where
  pub sample_rate_hz : ℕ
  pub modulation : Modulation
  pub bits_per_symbol : ℕ
  pub symbol_rate_baud : ℕ
  pub carrier_hz : F
  pub rrc_rolloff : F
  pub acquisition_threshold : F
  pub training_threshold : F
  pub samples_per_symbol : ℕ

abbrev pub bits_of : Modulation → ℕ
bits_of modulation_bpsk = 1
bits_of modulation_qpsk = 2
bits_of modulation_8psk = 3
bits_of modulation_16psk = 4

module _ {F : Type 0} ⦃f : Float F⦄ where
  unfoldable pub profile_qpsk_1200 : PhyProfile F
  profile_qpsk_1200 = record {
    sample_rate_hz = 48000;
    modulation = modulation_qpsk;
    bits_per_symbol = 2;
    symbol_rate_baud = 1200;
    carrier_hz = f.decimal 1650 0;
    rrc_rolloff = f.decimal 25 2;
    acquisition_threshold = f.decimal 90 2;
    training_threshold = f.decimal 70 2;
    samples_per_symbol = 40;
  }

  -- `x <= 0.0F || x > 1.0F`
  abbrev pub outside_unit : F → Bool
  outside_unit x = f.le x (f.decimal 0 0) || f.lt (f.decimal 1 0) x

  -- The tests on the two rates.
  abbrev pub rates_valid : PhyProfile F → Bool
  rates_valid profile =
      if profile.sample_rate_hz == 0 || profile.symbol_rate_baud == 0
      then false
      else if not (profile.sample_rate_hz % profile.symbol_rate_baud == 0)
      then false
      else if not (profile.samples_per_symbol == profile.sample_rate_hz / profile.symbol_rate_baud)
      then false
      else not (ltb profile.samples_per_symbol 20 || ltb 80 profile.samples_per_symbol)

  -- The tests on the numbers that are floats.
  abbrev pub shape_valid : PhyProfile F → Bool
  shape_valid profile =
      if outside_unit profile.rrc_rolloff
      then false
      else if outside_unit profile.acquisition_threshold || outside_unit profile.training_threshold
      then false
      else f.lt (f.decimal 300 0) profile.carrier_hz && f.lt profile.carrier_hz (f.decimal 3000 0)

  unfoldable pub profile_is_valid : PhyProfile F → Bool
  profile_is_valid profile =
      if not (rates_valid profile)
      then false
      else if not (profile.bits_per_symbol == bits_of profile.modulation)
      then false
      else shape_valid profile

  abbrev pub candidate_of : Modulation → ℕ → F → PhyProfile F
  candidate_of modulation symbol_rate_baud carrier_hz = record profile_qpsk_1200 {
    modulation = modulation;
    bits_per_symbol = bits_of modulation;
    symbol_rate_baud = symbol_rate_baud;
    samples_per_symbol = u16 (profile_qpsk_1200.sample_rate_hz / symbol_rate_baud);
    carrier_hz = carrier_hz;
  }

  unfoldable pub profile_psk : Modulation → ℕ → F → Option (PhyProfile F)
  profile_psk modulation symbol_rate_baud carrier_hz =
      if symbol_rate_baud == 0 || not (48000 % symbol_rate_baud == 0)
      then none
      else let candidate = candidate_of modulation symbol_rate_baud carrier_hz in
        if not (profile_is_valid candidate) then none else some candidate

  abbrev pub profile_qpsk : ℕ → F → Option (PhyProfile F)
  profile_qpsk symbol_rate_baud carrier_hz = profile_psk modulation_qpsk symbol_rate_baud carrier_hz
