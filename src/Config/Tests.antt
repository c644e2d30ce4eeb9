-- ===== src/Config/Tests.antt =====
-- A configuration with two profiles, on fixed-point numbers, with constant functions in place of libm's.
use reticulum_tnc.Base.{
  ◌-◌, ◌*◌, ◌≤◌, [], ◌∷◌, set, replicate, ◌≡◌, refl, ◌↔◌, inl, true, false, some,
}
use reticulum_tnc.Floats.Fixed.{
  Fixed, up, fixed_decimal, fixed_float, Fixed-IsStrict, Fixed-IsRounded, Fixed-IsDecimal,
  Fixed-IsOrdered,
}
use reticulum_tnc.Profile.{PhyProfile, profile_is_valid, profile_psk, profile_qpsk_1200}
use reticulum_tnc.Fec.{fec_encoded_size}
use reticulum_tnc.Rate.{ModemRate, modem_profile_rate, rate_of, calculated, max_audio_samples}
use reticulum_tnc.BurstDetector.{Detector, detector_init, detector_default_config}
use reticulum_tnc.AudioRing.{AudioRing, audio_ring_init}
use reticulum_tnc.DecodeQueue.{DecodeQueue, decode_queue_init}
use reticulum_tnc.Runtime.{Runtime, runtime_init}
use reticulum_tnc.Config.{
  same_text, PhyProfileConfig, PlatformConfig, fec_mode_of, modulation_named, profile_config_named,
  profile_of, phy_profile_named, has_rates, unused_after, entries_valid, taps_from, gain_from,
  eq_zero_phase_gain, band_valid, platform_config_is_valid, platform_burst_config, burst_config_of,
}
use reticulum_tnc.Config.Profiles.{valid_profiles}
use reticulum_tnc.Config.Accepted.{burst_config_accepted, settings_of, valid_config_starts}

abbrev one : Fixed → Fixed
one x = fixed_decimal 1 0

abbrev half : Fixed → Fixed
half x = fixed_decimal 5 1

abbrev fast : PhyProfileConfig Fixed
fast = record {
  name = 102 ∷ [];
  modulation = 113 ∷ 112 ∷ 115 ∷ 107 ∷ [];
  symbol_rate_baud = 2400;
  carrier_hz = fixed_decimal 1650 0;
  rrc_rolloff = fixed_decimal 25 2;
  acquisition_threshold = fixed_decimal 9 1;
  training_threshold = fixed_decimal 7 1;
  detector_bandwidth_margin = fixed_decimal 15 1;
  fec_mode = 2;
  payload_class_bytes = 128;
}

abbrev slow : PhyProfileConfig Fixed
slow = record fast {
  name = 115 ∷ [];
  symbol_rate_baud = 1200;
  fec_mode = 1;
  payload_class_bytes = 64;
}

abbrev config : PlatformConfig Fixed
config = record {
  audio = record { sample_rate_hz = 48000; period_ms = 10; periods = 4 };
  modem = record { profile = 115 ∷ []; control_profile = some (102 ∷ []) };
  tx = record {
    lead_ms = 100;
    tail_ms = 50;
    filter_gain = fixed_decimal 1 0;
    response_eq_taps = set (replicate 17 (up 0)) 8 (fixed_decimal 1 0);
  };
  link = record { mtu = 500; reassembly_timeout_ms = 10000 };
  workers = record {
    dsp_queue_blocks = 16;
    decode_queue_frames = 4;
    equalizer_queue_frames = 2;
    parallel_equalizer = true;
    equalizer_nice = 5;
  };
  detector = record {
    warmup_ms = 500;
    pretrigger_ms = 100;
    cooldown_ms = 100;
    noise_attack_ms = 100;
    noise_release_ms = 200;
    signal_attack_ms = 5;
    maximum_busy_ms = 2000;
    energy_open_ratio = fixed_decimal 4 0;
    energy_close_ratio = fixed_decimal 2 0;
    impulse_limit_ratio = fixed_decimal 20 0;
  };
  runtime = record {
    tx_queue_packets = 8;
    rx_queue_packets = 8;
    channel_busy_timeout_ms = 5000;
    rx_guard_ms = 200;
    kiss_tcp_port = 8001;
  };
  profiles = fast ∷ slow ∷ [];
}

config_valid : platform_config_is_valid one config ≡ true
unfolding same_text modulation_named profile_config_named profile_of phy_profile_named has_rates
    unused_after entries_valid taps_from gain_from eq_zero_phase_gain band_valid
    platform_config_is_valid profile_is_valid profile_psk profile_qpsk_1200 fec_encoded_size
    modem_profile_rate rate_of calculated
config_valid = refl

-- With the name of the first profile for both, it is not.
twice_refused :
    platform_config_is_valid one (record config { profiles = fast ∷ slow ∷ slow ∷ [] }) ≡ false
unfolding same_text modulation_named profile_config_named profile_of phy_profile_named has_rates
    unused_after entries_valid taps_from gain_from eq_zero_phase_gain band_valid
    platform_config_is_valid profile_is_valid profile_psk profile_qpsk_1200 fec_encoded_size
    modem_profile_rate rate_of calculated
twice_refused = refl

valid_profiles_example :
    (profile_config_named config.profiles slow.name ≡ some slow)
    × ((profile : PhyProfile Fixed) × (rate : ModemRate) × (phy_profile_named config.profiles
            slow.name
          ≡ some profile)
        × (profile_is_valid profile ≡ true)
        × (modem_profile_rate profile (fec_mode_of slow.fec_mode) slow.payload_class_bytes
            ≡ some rate)
        × (rate.frame_samples ≤ max_audio_samples))
valid_profiles_example = valid_profiles one config (fast ∷ []) [] slow config_valid refl

burst_config_accepted_example :
    (platform_burst_config one half config detector_default_config
      ≡ some (burst_config_of half config detector_default_config))
    × ((d : Detector Fixed) × (detector_init (burst_config_of half config detector_default_config)
          ≡ some d))
burst_config_accepted_example =
    burst_config_accepted one half config detector_default_config Fixed-IsStrict Fixed-IsRounded
      (λ x below. (refl, refl)) config_valid

valid_config_starts_example :
    ((ring : AudioRing) × (audio_ring_init 16 ≡ some ring))
    × ((queue : DecodeQueue) × (decode_queue_init 4 ≡ some queue))
    × ((queue : DecodeQueue) × (decode_queue_init 2 ≡ some queue))
    × (((r : Runtime) × (runtime_init (settings_of config 64 true) ≡ some r))
        ↔ (500 ≤ 128 * (64 - 1)))
valid_config_starts_example =
    valid_config_starts one config 64 Fixed-IsDecimal Fixed-IsOrdered config_valid (inl refl)
