-- ===== src/Config/Ranges.antt =====
-- The numbers of a valid configuration.
use reticulum_tnc.Base.{◌≤◌, leb→le, ==_iff, ◌≡◌, true}
use reticulum_tnc.Floats.{Float}
use reticulum_tnc.Config.{PlatformConfig, sizes_valid, times_valid, DetectorTimes}
use reticulum_tnc.Config.Profiles.{and-true}
use reticulum_tnc.Config.Starts.{in_range_le, Sizes}

module _ {F : Type 0} ⦃f : Float F⦄ where
  pub sizes :
      (config : PlatformConfig F)
      → sizes_valid config ≡ true
      → Sizes config.audio.sample_rate_hz config.link.mtu config.link.reassembly_timeout_ms
          config.runtime.tx_queue_packets config.runtime.rx_queue_packets
          config.runtime.channel_busy_timeout_ms config.workers.dsp_queue_blocks
          config.workers.decode_queue_frames config.workers.equalizer_queue_frames
  sizes config h =
      let (h15, _) = and-true h in
      let (h14, equalizer) = and-true h15 in
      let (h13, decode) = and-true h14 in
      let (h12, dsp) = and-true h13 in
      let (h11, reassembly) = and-true h12 in
      let (h10, _) = and-true h11 in
      let (h9, _) = and-true h10 in
      let (h8, busy) = and-true h9 in
      let (h7, rx) = and-true h8 in
      let (h6, tx) = and-true h7 in
      let (h5, mtu) = and-true h6 in
      let (h4, _) = and-true h5 in
      let (h3, _) = and-true h4 in
      let (h2, _) = and-true h3 in
      let (rate, _) = and-true h2 in
      record {
        rate = (==_iff config.audio.sample_rate_hz 48000).0 rate;
        mtu_low = (in_range_le mtu).0;
        mtu_high = (in_range_le mtu).1;
        reassembly_low = (in_range_le reassembly).0;
        tx_low = (in_range_le tx).0;
        tx_high = (in_range_le tx).1;
        rx_low = (in_range_le rx).0;
        rx_high = (in_range_le rx).1;
        busy_low = (in_range_le busy).0;
        dsp_low = (in_range_le dsp).0;
        dsp_high = (in_range_le dsp).1;
        decode_low = (in_range_le decode).0;
        decode_high = (in_range_le decode).1;
        equalizer_low = (in_range_le equalizer).0;
        equalizer_high = (in_range_le equalizer).1;
      }

  -- The times and ratios of a valid configuration.
  pub record Times (times : DetectorTimes F) : Type 0 where
    pub warmup_low : 100 ≤ times.warmup_ms
    pub warmup_high : times.warmup_ms ≤ 2000
    pub pretrigger_low : 20 ≤ times.pretrigger_ms
    pub pretrigger_high : times.pretrigger_ms ≤ 250
    pub attack_low : 10 ≤ times.noise_attack_ms
    pub attack_le : times.noise_attack_ms ≤ times.noise_release_ms
    pub release_high : times.noise_release_ms ≤ 10000
    pub signal_low : 1 ≤ times.signal_attack_ms
    pub signal_high : times.signal_attack_ms ≤ 500
    pub busy_low : 500 ≤ times.maximum_busy_ms
    pub busy_high : times.maximum_busy_ms ≤ 5000
    pub open_one : f.lt (f.decimal 1 0) times.energy_open_ratio ≡ true
    pub close_one : f.lt (f.decimal 1 0) times.energy_close_ratio ≡ true
    pub order : f.lt times.energy_close_ratio times.energy_open_ratio ≡ true
    pub impulse : f.lt times.energy_open_ratio times.impulse_limit_ratio ≡ true

  pub Times-of : (times : DetectorTimes F) → times_valid times ≡ true → Times times
  Times-of times h =
      let (h10, impulse) = and-true h in
      let (h9, order) = and-true h10 in
      let (h8, close_one) = and-true h9 in
      let (h7, open_one) = and-true h8 in
      let (h6, busy) = and-true h7 in
      let (h5, signal) = and-true h6 in
      let (h4, release) = and-true h5 in
      let (h3, attack) = and-true h4 in
      let (h2, _) = and-true h3 in
      let (warmup, pretrigger) = and-true h2 in
      record {
        warmup_low = (in_range_le warmup).0;
        warmup_high = (in_range_le warmup).1;
        pretrigger_low = (in_range_le pretrigger).0;
        pretrigger_high = (in_range_le pretrigger).1;
        attack_low = leb→le 10 times.noise_attack_ms attack;
        attack_le = (in_range_le release).0;
        release_high = (in_range_le release).1;
        signal_low = (in_range_le signal).0;
        signal_high = (in_range_le signal).1;
        busy_low = (in_range_le busy).0;
        busy_high = (in_range_le busy).1;
        open_one = open_one;
        close_one = close_one;
        order = order;
        impulse = impulse;
      }
