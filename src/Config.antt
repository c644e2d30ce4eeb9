-- ===== src/Config.antt =====
-- The configuration of the platform, src/platform/config.c and include/rtnc/platform_config.h. libcyaml
-- reads the file, with a schema that bounds the lengths of strings; a configuration starts here as what
-- it returns. A string is the list of its bytes. The functions of libm are parameters.
mod Types
pub mod Profiles
pub mod Starts
pub mod Ranges
pub mod Accepted
mod Tests
pub use Types.*
use reticulum_tnc.Base.{
  ℕ, zero, suc, ◌+◌, ◌-◌, ◌*◌, ◌/◌, ◌%◌, ◌^◌, ◌≤◌, ◌<◌, min, max, bit_xor, u8, u16, u32, u64, ◌<<<◌,
  ◌>>>◌, test_bit, AreBytes, List, [], ◌∷◌, ◌++◌, map, append-nil, append_assoc, length, get_or,
  set, take, drop, replicate, length-append, length-set, get_or-set_self, get_or-set_ne,
  length-take, length-drop, length-replicate, get_or-replicate, take-append-drop, take-append,
  drop-append, take_all, get_or-append_right, take_add, drop_add, ltb, leb, ◌==◌, if◌then◌else◌,
  ltb→lt, lt→ltb, leb→le, ==_iff, Bool-cases, Option-cases, Result, ok, err, ◌>>=◌, ◌>>◌, fail_if,
  ◌≡◌, refl, sym, ap, ap₂, subst, ◌∙◌, ◌≢◌, ◌↔◌, ◌⊎◌, inl, inr, Bool, true, false, not, ◌&&◌, ◌||◌,
  Option, none, some, arith, dec_lt, dec_le, ℕ_discrete,
}
use reticulum_tnc.Floats.{Float}
use reticulum_tnc.PacketQueue
use reticulum_tnc.AudioRing
use reticulum_tnc.DecodeQueue
use reticulum_tnc.Profile.{
  Modulation, modulation_qpsk, modulation_8psk, modulation_16psk, modulation_bpsk, PhyProfile,
  profile_is_valid, profile_psk,
}
use reticulum_tnc.Fec.{FecMode, none_mode, ldpc_robust, ldpc_normal, ldpc_fast}
use reticulum_tnc.Rate.{ModemRate, modem_profile_rate, max_audio_samples}
use reticulum_tnc.BurstDetector.{DetectorConfig}
use reticulum_tnc.Fragmentation.{link_min_mtu, link_max_mtu}

-- `strcmp(a, b) == 0`
unfoldable pub same_text : Text → Text → Bool
same_text [] [] = true
same_text [] (b ∷ bs) = false
same_text (a ∷ text) [] = false
same_text (a ∷ text) (b ∷ bs) = let rest = same_text text bs in a == b && rest

-- `(fec_mode_t) fec_mode`; the callers have excluded numbers above 2.
abbrev pub fec_mode_of : ℕ → FecMode
fec_mode_of zero = none_mode
fec_mode_of (suc zero) = ldpc_robust
fec_mode_of (suc (suc zero)) = ldpc_normal
fec_mode_of (suc (suc (suc n))) = ldpc_fast

-- "bpsk", "qpsk", "8psk" and "16psk"
unfoldable pub modulation_named : Text → Option Modulation
modulation_named text =
    if same_text text (98 ∷ 112 ∷ 115 ∷ 107 ∷ [])
    then some modulation_bpsk
    else if same_text text (113 ∷ 112 ∷ 115 ∷ 107 ∷ [])
    then some modulation_qpsk
    else if same_text text (56 ∷ 112 ∷ 115 ∷ 107 ∷ [])
    then some modulation_8psk
    else if same_text text (49 ∷ 54 ∷ 112 ∷ 115 ∷ 107 ∷ [])
    then some modulation_16psk
    else none

abbrev pub in_range : ℕ → ℕ → ℕ → Bool
in_range low high n = leb low n && leb n high

abbrev pub samples_of_ms : ℕ → ℕ → ℕ
samples_of_ms sample_rate_hz ms = u64 (sample_rate_hz * ms) / 1000

module _ {F : Type 0} ⦃f : Float F⦄ where
  unfoldable pub profile_config_named :
      List (PhyProfileConfig F) → Text → Option (PhyProfileConfig F)
  profile_config_named [] name = none
  profile_config_named (entry ∷ entries) name =
      let rest = profile_config_named entries name in
      if same_text entry.name name then some entry else rest

  abbrev pub selected_profile : PlatformConfig F → Option (PhyProfileConfig F)
  selected_profile config = profile_config_named config.profiles config.modem.profile

  abbrev pub entry_refused : PhyProfileConfig F → Bool
  entry_refused entry =
      ltb 2 entry.fec_mode
      || not (entry.payload_class_bytes == 64 || entry.payload_class_bytes == 128)
      || f.lt entry.detector_bandwidth_margin (f.decimal 1 0)
      || f.lt (f.decimal 3 0) entry.detector_bandwidth_margin

  -- The shape of a profile is the entry's.
  abbrev pub shaped : PhyProfileConfig F → PhyProfile F → PhyProfile F
  shaped entry candidate = record candidate {
    rrc_rolloff = entry.rrc_rolloff;
    acquisition_threshold = entry.acquisition_threshold;
    training_threshold = entry.training_threshold;
  }

  -- The profile of an entry whose name fits.
  unfoldable pub profile_of : PhyProfileConfig F → Option (PhyProfile F)
  profile_of entry = elim (modulation_named entry.modulation) [
    | none ↦ none
    | some modulation ↦
        if entry_refused entry
        then none
        else elim (profile_psk modulation entry.symbol_rate_baud entry.carrier_hz) [
          | none ↦ none
          | some candidate ↦
              if profile_is_valid (shaped entry candidate)
              then some (shaped entry candidate)
              else none
        ]
  ]

  unfoldable pub phy_profile_named : List (PhyProfileConfig F) → Text → Option (PhyProfile F)
  phy_profile_named [] name = none
  phy_profile_named (entry ∷ entries) name =
      let rest = phy_profile_named entries name in
      if same_text entry.name name then profile_of entry else rest

  abbrev pub is_named : List (PhyProfileConfig F) → Text → Bool
  is_named entries name = elim (profile_config_named entries name) [
    | none ↦ false
    | some entry ↦ true
  ]

  -- The test of the second profile.
  abbrev pub control_valid : PlatformConfig F → Bool
  control_valid config = elim config.modem.control_profile [
    | none ↦ true
    | some name ↦ not (same_text name config.modem.profile) && is_named config.profiles name
  ]

  -- Whether an entry's name stands for a profile with rates.
  unfoldable pub has_rates : List (PhyProfileConfig F) → PhyProfileConfig F → Bool
  has_rates profiles entry = elim (phy_profile_named profiles entry.name) [
    | none ↦ false
    | some candidate ↦
        elim (modem_profile_rate candidate (fec_mode_of entry.fec_mode) entry.payload_class_bytes) [
          | none ↦ false
          | some rate ↦ true
        ]
  ]

  -- No later entry has the name.
  unfoldable pub unused_after : Text → List (PhyProfileConfig F) → Bool
  unused_after name [] = true
  unused_after name (entry ∷ entries) =
      let rest = unused_after name entries in not (same_text name entry.name) && rest

  -- The loop over the entries, which are the last ones of `profiles`.
  unfoldable pub entries_valid : List (PhyProfileConfig F) → List (PhyProfileConfig F) → Bool
  entries_valid profiles [] = true
  entries_valid profiles (entry ∷ entries) =
      let rest = entries_valid profiles entries in
      has_rates profiles entry && unused_after entry.name entries && rest

  abbrev float_at : List F → ℕ → F
  float_at values i = get_or values i (f.decimal 0 0)

  -- The loop over the taps from `tap` on, with the sum of magnitudes and whether one is not zero.
  unfoldable pub taps_from : List F → ℕ → ℕ → F × Bool → Option (F × Bool)
  taps_from taps tap zero so_far = some so_far
  taps_from taps tap (suc left) (sum, nonzero) =
      let value = float_at taps tap in
      let rest =
        taps_from taps (tap + 1) left
          (f.add sum (f.abs value), nonzero || f.lt (f.decimal 1 6) (f.abs value)) in
      let mirrored = float_at taps (tap_count - 1 - tap) in
      if not (f.is_finite value)
        || (ltb tap (tap_count / 2) && f.lt (f.decimal 1 5) (f.abs (f.sub value mirrored)))
      then none
      else rest

  abbrev pub taps_valid : List F → Bool
  taps_valid taps = elim (taps_from taps 0 tap_count (f.decimal 0 0, false)) [
    | none ↦ false
    | some (sum, nonzero) ↦ nonzero && f.le sum (f.decimal 8 0)
  ]

  abbrev pub sizes_valid : PlatformConfig F → Bool
  sizes_valid config =
      config.audio.sample_rate_hz == 48000
      && config.audio.period_ms == 10
      && in_range 2 8 config.audio.periods
      && leb config.tx.lead_ms 1000
      && leb config.tx.tail_ms 1000
      && in_range link_min_mtu link_max_mtu config.link.mtu
      && in_range 1 PacketQueue.max_capacity config.runtime.tx_queue_packets
      && in_range 1 PacketQueue.max_capacity config.runtime.rx_queue_packets
      && in_range 100 60000 config.runtime.channel_busy_timeout_ms
      && leb config.runtime.rx_guard_ms 2000
      && leb 1024 config.runtime.kiss_tcp_port
      && in_range 1000 60000 config.link.reassembly_timeout_ms
      && in_range 2 AudioRing.max_capacity config.workers.dsp_queue_blocks
      && in_range 2 DecodeQueue.max_capacity config.workers.decode_queue_frames
      && in_range 1 DecodeQueue.max_capacity config.workers.equalizer_queue_frames
      && leb config.workers.equalizer_nice 19

  abbrev pub times_valid : DetectorTimes F → Bool
  times_valid times =
      in_range 100 2000 times.warmup_ms
      && in_range 20 250 times.pretrigger_ms
      && leb times.cooldown_ms 1000
      && leb 10 times.noise_attack_ms
      && in_range times.noise_attack_ms 10000 times.noise_release_ms
      && in_range 1 500 times.signal_attack_ms
      && in_range 500 5000 times.maximum_busy_ms
      && f.lt (f.decimal 1 0) times.energy_open_ratio
      && f.lt (f.decimal 1 0) times.energy_close_ratio
      && f.lt times.energy_close_ratio times.energy_open_ratio
      && f.lt times.energy_open_ratio times.impulse_limit_ratio

  abbrev pub gain_valid : F → Bool
  gain_valid gain = f.le (f.decimal 1 1) gain && f.le gain (f.decimal 4 0)

  abbrev pub number : ℕ → F
  number n = f.decimal n 0

  -- What an averaging time is in samples, as the factor of a filter of first order.
  abbrev pub alpha_of : (F → F) → ℕ → ℕ → F
  alpha_of expf sample_rate_hz ms =
      f.sub (number 1)
        (expf (f.div (f.neg (number 1000)) (f.mul (number sample_rate_hz) (number ms))))

  -- `detector` is what the caller's structure has before the call.
  abbrev pub burst_config_of : (F → F) → PlatformConfig F → DetectorConfig F → DetectorConfig F
  burst_config_of expf config detector =
      let rate = config.audio.sample_rate_hz in
      let times = config.detector in
      record detector {
        warmup_samples = samples_of_ms rate times.warmup_ms;
        pretrigger_samples = samples_of_ms rate times.pretrigger_ms;
        release_samples = 1;
        cooldown_samples = samples_of_ms rate times.cooldown_ms;
        noise_attack_alpha = alpha_of expf rate times.noise_attack_ms;
        noise_release_alpha = alpha_of expf rate times.noise_release_ms;
        signal_alpha = alpha_of expf rate times.signal_attack_ms;
        trigger_ratio = times.energy_open_ratio;
        release_ratio = times.energy_close_ratio;
        impulse_limit_ratio = times.impulse_limit_ratio;
        maximum_active_samples = min (samples_of_ms rate times.maximum_busy_ms) max_audio_samples;
        capture_samples = 0;
        energy_trigger_enabled = true;
      }

-- `cos` is libm's.
module _ {F : Type 0} ⦃f : Float F⦄ (cos : F → F) where
  -- The sum over the taps from `tap` on, src/platform/tx_eq.c.
  unfoldable pub gain_from : F → ℕ → List F → F → F
  gain_from omega_of tap [] gain = gain
  gain_from omega_of tap (value ∷ taps) gain = gain_from omega_of (tap + 1) taps (
      f.add gain (
        f.mul value (cos (f.mul omega_of (f.sub (f.decimal tap 0) (f.decimal (tap_count / 2) 0))))))

  abbrev pub angular : F → F
  angular frequency_hz =
      f.div (f.mul (f.mul (f.decimal 2 0) (f.decimal 314159265358979323846 20)) frequency_hz)
        (f.decimal 48000 0)

  unfoldable pub eq_zero_phase_gain : List F → F → F
  eq_zero_phase_gain taps frequency_hz =
      if not (f.is_finite frequency_hz)
      then f.decimal 0 0
      else gain_from (angular frequency_hz) 0 (take tap_count taps) (f.decimal 0 0)

  -- The loop over the frequencies of the band. A band is at most 2 * 2400 Hz wide, in steps of 100 Hz;
  -- where `fuel` steps are not enough, the configuration is refused.
  unfoldable pub band_valid : List F → F → ℕ → F → Bool
  band_valid taps high zero frequency = not (f.le frequency high)
  band_valid taps high (suc fuel) frequency =
      let rest = band_valid taps high fuel (f.add frequency (f.decimal 100 0)) in
      if not (f.le frequency high)
      then true
      else if f.le (eq_zero_phase_gain taps frequency) (f.decimal 5 2)
      then false
      else rest

  abbrev pub band_steps : ℕ
  band_steps = 64

  -- The test of the gain in the band of the selected profile.
  abbrev pub response_valid : PlatformConfig F → PhyProfile F → Bool
  response_valid config profile =
      let half_band =
        f.mul (f.mul (f.decimal 5 1) (f.decimal profile.symbol_rate_baud 0))
          (f.add (f.decimal 1 0) profile.rrc_rolloff) in
      band_valid config.tx.response_eq_taps (f.add profile.carrier_hz half_band) band_steps
        (f.sub profile.carrier_hz half_band)

  unfoldable pub platform_config_is_valid : PlatformConfig F → Bool
  platform_config_is_valid config = elim (phy_profile_named config.profiles config.modem.profile) [
    | none ↦ false
    | some profile ↦
        control_valid config
        && entries_valid config.profiles config.profiles
        && taps_valid config.tx.response_eq_taps
        && response_valid config profile
        && sizes_valid config
        && gain_valid config.tx.filter_gain
        && times_valid config.detector
  ]

  -- `loaded` is what libcyaml makes of the file, if it reads it.
  unfoldable pub platform_config_load : Option (PlatformConfig F) → Option (PlatformConfig F)
  platform_config_load none = none
  platform_config_load (some loaded) = if platform_config_is_valid loaded then some loaded else none

  -- `expf` is libm's.
  unfoldable pub platform_burst_config :
      (F → F) → PlatformConfig F → DetectorConfig F → Option (DetectorConfig F)
  platform_burst_config expf config detector =
      if platform_config_is_valid config then some (burst_config_of expf config detector) else none
