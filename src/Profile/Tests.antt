-- ===== src/Profile/Tests.antt =====
-- The profiles of the modem, on fixed-point numbers.
use reticulum_tnc.Base.{ℕ, ◌*◌, ◌≤◌, ◌≡◌, refl, true, none, some}
use reticulum_tnc.Floats.Fixed.{Fixed, fixed_decimal, fixed_lt, fixed_float, Fixed-IsDecimal}
use reticulum_tnc.Profile.{
  modulation_8psk, PhyProfile, profile_qpsk_1200, profile_is_valid, candidate_of, profile_psk,
}
use reticulum_tnc.Profile.Accepts.{IsBuilt, profile_psk_lem}

abbrev qpsk_1200 : PhyProfile Fixed
qpsk_1200 = profile_qpsk_1200

qpsk_1200_valid : profile_is_valid qpsk_1200 ≡ true
unfolding profile_is_valid profile_qpsk_1200
qpsk_1200_valid = refl

-- 7000 baud do not divide the sample rate.
psk_refuses : profile_psk modulation_8psk 7000 (fixed_decimal 1650 0) ≡ none
unfolding profile_psk
psk_refuses = refl

profile_psk_lem_example :
    ((profile : PhyProfile Fixed)
      → profile_psk modulation_8psk 2400 (fixed_decimal 1650 0) ≡ some profile
      → IsBuilt modulation_8psk 2400 (fixed_decimal 1650 0) profile)
    × ((samples : ℕ)
        → samples * 2400 ≡ 48000
        → 20 ≤ samples
        → samples ≤ 80
        → fixed_lt (fixed_decimal 300 0) (fixed_decimal 1650 0) ≡ true
        → fixed_lt (fixed_decimal 1650 0) (fixed_decimal 3000 0) ≡ true
        → profile_psk modulation_8psk 2400 (fixed_decimal 1650 0)
          ≡ some (candidate_of modulation_8psk 2400 (fixed_decimal 1650 0)))
profile_psk_lem_example =
    profile_psk_lem modulation_8psk 2400 (fixed_decimal 1650 0) Fixed-IsDecimal

-- A carrier at the lower limit.
psk_refuses_carrier : profile_psk modulation_8psk 2400 (fixed_decimal 300 0) ≡ none
unfolding profile_psk profile_is_valid profile_qpsk_1200
psk_refuses_carrier = refl
