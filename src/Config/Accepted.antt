-- ===== src/Config/Accepted.antt =====
-- What starts from a valid configuration.
use reticulum_tnc.Base.{
  ℕ, ◌-◌, ◌*◌, ◌≤◌, ltb, ◌==◌, Bool-cases, ◌≡◌, refl, ◌↔◌, ◌⊎◌, inl, inr, Bool, true, false, not,
  ◌||◌, some, arith,
}
use reticulum_tnc.Floats.{Float, IsStrict, IsRounded, IsDecimal, IsOrdered}
use reticulum_tnc.BurstDetector.{
  DetectorConfig, Detector, cleared, counts_invalid, ratios_invalid, detector_init,
}
use reticulum_tnc.Config.{
  PlatformConfig, platform_config_is_valid, platform_burst_config, burst_config_of, alpha_of,
  gain_valid,
}
use reticulum_tnc.Config.Profiles.{and-true, valid_parts}
use reticulum_tnc.Runtime.Invariant.{runtime_init_inv}
use reticulum_tnc.Runtime.{Runtime, Settings, runtime_init, assembled}
use reticulum_tnc.AudioRing.{AudioRing, audio_ring_init}
use reticulum_tnc.DecodeQueue.{DecodeQueue, decode_queue_init}
use reticulum_tnc.Fragmentation.{link_min_mtu, link_max_mtu}
use reticulum_tnc.Config.Starts.{
  Sizes, counts_fit, audio_starts, decode_starts, queue_starts, reassembly_holds, reassembly_starts,
  refused_false,
}
use reticulum_tnc.Config.Ranges.{sizes, Times, Times-of}

module _ {F : Type 0} ⦃f : Float F⦄ where
  -- `expf` of a number that is below 0 by at least 10^-6 is below 1, and not negative.
  abbrev pub IsExponential : (F → F) → Type 0
  IsExponential expf =
      (x : F)
      → f.le x (f.neg (f.decimal 1 6)) ≡ true
      → (f.le (f.decimal 0 0) (expf x) ≡ true) × (f.lt (expf x) (f.decimal 1 0) ≡ true)

  -- The factors of the averaging times of a configuration at 48 kHz are above 0 and up to 1.
  alpha_of_bounds :
      (expf : F → F) (ms : ℕ)
      → IsRounded F
      → IsExponential expf
      → 1 ≤ ms
      → ms ≤ 10000
      → (f.le (alpha_of expf 48000 ms) (f.decimal 0 0) ≡ false)
        × (f.lt (f.decimal 1 0) (alpha_of expf 48000 ms) ≡ false)
  alpha_of_bounds expf ms laws exponential low high =
      let x = f.div (f.neg (f.decimal 1000 0)) (f.mul (f.decimal 48000 0) (f.decimal ms 0)) in
      let below =
        laws.quotient_below 1000 48000 ms 1 6 (omega arith) (omega arith) (omega arith) low
          (omega arith) (omega arith) (omega arith) in
      let (nonneg, less) = exponential x below in
      (laws.one_minus_positive (expf x) nonneg less, laws.one_minus_le (expf x) nonneg)

  burst_counts :
      (expf : F → F) (config : PlatformConfig F) (before : DetectorConfig F)
      → config.audio.sample_rate_hz ≡ 48000
      → Times config.detector
      → counts_invalid (burst_config_of expf config before) ≡ false
  burst_counts expf config before rate t =
      let times = config.detector in
      rw rate (
        counts_fit times.warmup_ms times.pretrigger_ms times.maximum_busy_ms t.warmup_low
          t.warmup_high t.pretrigger_low t.pretrigger_high t.busy_low t.busy_high)

  burst_ratios :
      (expf : F → F) (config : PlatformConfig F) (before : DetectorConfig F)
      → IsStrict F
      → IsRounded F
      → IsExponential expf
      → config.audio.sample_rate_hz ≡ 48000
      → Times config.detector
      → ratios_invalid (burst_config_of expf config before) ≡ false
  burst_ratios expf config before laws rounded exponential rate t =
      let times = config.detector in
      let attack_high : times.noise_attack_ms ≤ 10000 =
        omega (arith, t.attack_le, t.release_high) in
      let release_low : 1 ≤ times.noise_release_ms = omega (arith, t.attack_low, t.attack_le) in
      let (a0, a1) =
        alpha_of_bounds expf times.noise_attack_ms rounded exponential (omega (arith, t.attack_low))
          attack_high in
      let (b0, b1) =
        alpha_of_bounds expf times.noise_release_ms rounded exponential release_low
          t.release_high in
      let (c0, c1) =
        alpha_of_bounds expf times.signal_attack_ms rounded exponential t.signal_low
          (omega (arith, t.signal_high)) in
      let one = f.decimal 1 0 in
      let d0 = laws.lt_not_le one times.energy_open_ratio t.open_one in
      let d1 = laws.lt_not_le one times.energy_close_ratio t.close_one in
      let d2 = laws.lt_not_le times.energy_close_ratio times.energy_open_ratio t.order in
      let d3 = laws.lt_not_le times.energy_open_ratio times.impulse_limit_ratio t.impulse in
      rw (rate, a0, a1, b0, b1, c0, c1, d0, d1, d2, d3) refl

  -- What a valid configuration gives the burst detector is accepted by it, whatever the caller's
  -- structure had in the fields that are not set: on floats of which `<` excludes `>=` and whose
  -- rounding keeps within the bounds that are stated there, and for an `expf` that is not negative, and
  -- below 1 on numbers up to -10^-6.
  pub burst_config_accepted :
      (cos expf : F → F) (config : PlatformConfig F) (before : DetectorConfig F)
      → IsStrict F
      → IsRounded F
      → IsExponential expf
      → platform_config_is_valid cos config ≡ true
      → (platform_burst_config cos expf config before ≡ some (burst_config_of expf config before))
        × ((d : Detector F) × (detector_init (burst_config_of expf config before) ≡ some d))
  unfolding platform_burst_config detector_init
  burst_config_accepted cos expf config before laws rounded exponential valid =
      let (_, sizes_e, _, times_e, _) = valid_parts cos config valid in
      let rate = (sizes config sizes_e).rate in
      let t = Times-of config.detector times_e in
      let counts = burst_counts expf config before rate t in
      let ratios = burst_ratios expf config before laws rounded exponential rate t in
      (
        rw (valid, platform_burst_config) refl,
        (cleared (burst_config_of expf config before), rw (counts, ratios, detector_init) refl),
      )

  -- What the runtime gets from a configuration and the payload class of the selected profile.
  abbrev pub settings_of : PlatformConfig F → ℕ → Bool → Settings
  settings_of config class modem_ready = record {
    payload_class = class;
    mtu = config.link.mtu;
    reassembly_timeout_ms = config.link.reassembly_timeout_ms;
    tx_queue_packets = config.runtime.tx_queue_packets;
    rx_queue_packets = config.runtime.rx_queue_packets;
    busy_timeout_ms = config.runtime.channel_busy_timeout_ms;
    rx_guard_ms = config.runtime.rx_guard_ms;
    lead_ms = config.tx.lead_ms;
    tail_ms = config.tx.tail_ms;
    gain_positive = not (f.le config.tx.filter_gain (f.decimal 0 0));
    modem_ready = modem_ready;
  }

  runtime_starts :
      (config : PlatformConfig F) (class : ℕ)
      → Sizes config.audio.sample_rate_hz config.link.mtu config.link.reassembly_timeout_ms
          config.runtime.tx_queue_packets config.runtime.rx_queue_packets
          config.runtime.channel_busy_timeout_ms config.workers.dsp_queue_blocks
          config.workers.decode_queue_frames config.workers.equalizer_queue_frames
      → (class ≡ 64) ⊎ (class ≡ 128)
      → config.link.mtu ≤ 128 * (class - 1)
      → f.le config.tx.filter_gain (f.decimal 0 0) ≡ false
      → (r : Runtime) × (runtime_init (settings_of config class true) ≡ some r)
  unfolding runtime_init
  runtime_starts config class s either holds gain =
      let mtu = config.link.mtu in
      let busy = config.runtime.channel_busy_timeout_ms in
      let (tx, e1) =
        queue_starts config.runtime.tx_queue_packets mtu s.tx_low s.tx_high s.mtu_low s.mtu_high in
      let (rx, e2) =
        queue_starts config.runtime.rx_queue_packets mtu s.rx_low s.rx_high s.mtu_low s.mtu_high in
      let (r, e3) =
        reassembly_starts mtu class config.link.reassembly_timeout_ms either s.reassembly_low
          s.mtu_low s.mtu_high holds in
      let fine : (ltb mtu link_min_mtu || ltb link_max_mtu mtu || busy == 0 || not true) ≡ false =
        refused_false mtu busy s.mtu_low s.mtu_high s.busy_low in
      (assembled (settings_of config class true) tx rx r, rw (gain, fine, e1, e2, e3) refl)

  gain_above_zero :
      (gain : F)
      → IsDecimal F
      → IsOrdered F
      → gain_valid gain ≡ true
      → f.le gain (f.decimal 0 0) ≡ false
  gain_above_zero gain laws ordered valid = elim (Bool-cases (f.le gain (f.decimal 0 0))) [
    | inr above ↦ above
    | inl below ↦
        let least = (and-true valid).0 in
        let not_below = laws.decimal_positive 0 1 (omega arith) in
        let contradiction = ordered.le_trans (f.decimal 1 1) gain (f.decimal 0 0) least below in
        absurd (ground arith)
  ]

  -- From a valid configuration, on floats whose order is transitive and keeps that of the literals, all
  -- queues of the receiver are made, and so is the runtime, with the gain that is configured, if the
  -- modem is and 128 fragments of the payload class hold the MTU, which the configuration is not
  -- checked for: without that, it is refused.
  pub valid_config_starts :
      (cos : F → F) (config : PlatformConfig F) (class : ℕ)
      → IsDecimal F
      → IsOrdered F
      → platform_config_is_valid cos config ≡ true
      → (class ≡ 64) ⊎ (class ≡ 128)
      → ((ring : AudioRing) × (audio_ring_init config.workers.dsp_queue_blocks ≡ some ring))
        × ((queue : DecodeQueue) × (decode_queue_init config.workers.decode_queue_frames
              ≡ some queue))
        × ((queue : DecodeQueue) × (decode_queue_init config.workers.equalizer_queue_frames
              ≡ some queue))
        × (((r : Runtime) × (runtime_init (settings_of config class true) ≡ some r))
            ↔ (config.link.mtu ≤ 128 * (class - 1)))
  valid_config_starts cos config class laws ordered valid either =
      let (_, sizes_e, gain_e, _, _) = valid_parts cos config valid in
      let s = sizes config sizes_e in
      (
        audio_starts config.workers.dsp_queue_blocks (omega (arith, s.dsp_low)) s.dsp_high,
        decode_starts config.workers.decode_queue_frames (omega (arith, s.decode_low))
            s.decode_high,
        decode_starts config.workers.equalizer_queue_frames s.equalizer_low s.equalizer_high,
        (
          λ (r, e).
              (let (_, _, a, _, _, ready, _) =
                  runtime_init_inv (settings_of config class true) r e in
                reassembly_holds config.link.mtu class config.link.reassembly_timeout_ms a either
                  ready),
          λ holds.
              runtime_starts config class s either holds
                (gain_above_zero config.tx.filter_gain laws ordered gain_e),
        ),
      )
