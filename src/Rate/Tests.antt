-- ===== src/Rate/Tests.antt =====
-- Rates of the profiles of the modem, on fixed-point numbers.
use reticulum_tnc.Base.{◌-◌, ◌*◌, ◌/◌, ◌^◌, ◌≤◌, ◌<◌, ◌≡◌, refl, ◌↔◌, inl, true, none, some, arith}
use reticulum_tnc.Floats.Fixed.{Fixed, fixed_decimal, fixed_float}
use reticulum_tnc.Profile.{
  modulation_bpsk, PhyProfile, profile_qpsk_1200, profile_is_valid, candidate_of,
}
use reticulum_tnc.Fec.{ldpc_robust, fec_encoded_size}
use reticulum_tnc.Rate.{ModemRate, modem_profile_rate, rate_of, calculated, max_audio_samples}
use reticulum_tnc.Rate.Bounds.{samples_of, modem_profile_rate_bounds, modem_profile_rate_iff}

abbrev qpsk_1200 : PhyProfile Fixed
qpsk_1200 = profile_qpsk_1200

abbrev robust_64 : ModemRate
robust_64 = record {
  raw_bitrate_bps = 2400;
  fec_bitrate_bps = 1200;
  interface_bitrate_bps = 879;
  frame_samples = 27520;
}

robust_64_rate : modem_profile_rate qpsk_1200 ldpc_robust 64 ≡ some robust_64
unfolding modem_profile_rate rate_of calculated profile_is_valid profile_qpsk_1200 fec_encoded_size
robust_64_rate = refl

-- With one bit per symbol and 600 baud, a protected frame of 128 bytes is too long.
bpsk_600_refused :
    modem_profile_rate
      (candidate_of {F = Fixed} modulation_bpsk 600 (fixed_decimal 1650 0))
      ldpc_robust
      128
    ≡ none
unfolding modem_profile_rate rate_of calculated profile_is_valid profile_qpsk_1200 fec_encoded_size
bpsk_600_refused = refl

qpsk_1200_small : qpsk_1200.sample_rate_hz < 2 ^ 32
unfolding profile_qpsk_1200
qpsk_1200_small = omega arith

qpsk_1200_valid : profile_is_valid qpsk_1200 ≡ true
unfolding profile_is_valid profile_qpsk_1200
qpsk_1200_valid = refl

modem_profile_rate_bounds_example :
    (robust_64.frame_samples ≡ samples_of qpsk_1200 ldpc_robust 64)
    × (robust_64.frame_samples ≤ max_audio_samples)
    × (robust_64.raw_bitrate_bps ≡ qpsk_1200.symbol_rate_baud * qpsk_1200.bits_per_symbol)
    × (robust_64.fec_bitrate_bps ≤ robust_64.raw_bitrate_bps)
    × (robust_64.interface_bitrate_bps ≤ robust_64.fec_bitrate_bps)
    × (robust_64.interface_bitrate_bps
        ≡ (64 - 1) * 8 * qpsk_1200.sample_rate_hz / robust_64.frame_samples)
    × (robust_64.raw_bitrate_bps < 2 ^ 32)
modem_profile_rate_bounds_example =
    modem_profile_rate_bounds qpsk_1200 ldpc_robust 64 robust_64 qpsk_1200_small robust_64_rate

modem_profile_rate_iff_example :
    ((rate : ModemRate) × (modem_profile_rate qpsk_1200 ldpc_robust 64 ≡ some rate))
    ↔ (samples_of qpsk_1200 ldpc_robust 64 ≤ max_audio_samples)
modem_profile_rate_iff_example =
    modem_profile_rate_iff qpsk_1200 ldpc_robust 64 qpsk_1200_small qpsk_1200_valid refl (inl refl)
