-- ===== src/Config/Types.antt =====
-- The data of a configuration, include/rtnc/platform_config.h.
use reticulum_tnc.Base.{ℕ, List, Bool, Option}

abbrev pub Text : Type 0
Text = List ℕ

abbrev pub tap_count : ℕ
tap_count = 17

pub record AudioConfig : Type 0 where
  pub sample_rate_hz : ℕ
  pub period_ms : ℕ
  pub periods : ℕ

pub record ModemConfig : Type 0 where
  pub profile : Text
  pub control_profile : Option Text

pub record PhyProfileConfig (F : Type 0) : Type 0 where
  pub name : Text
  pub modulation : Text
  pub symbol_rate_baud : ℕ
  pub carrier_hz : F
  pub rrc_rolloff : F
  pub acquisition_threshold : F
  pub training_threshold : F
  pub detector_bandwidth_margin : F
  pub fec_mode : ℕ
  pub payload_class_bytes : ℕ

pub record TxConfig (F : Type 0) : Type 0 where
  pub lead_ms : ℕ
  pub tail_ms : ℕ
  pub filter_gain : F
  pub response_eq_taps : List F

pub record LinkConfig : Type 0 where
  pub mtu : ℕ
  pub reassembly_timeout_ms : ℕ

pub record WorkerConfig : Type 0 where
  pub dsp_queue_blocks : ℕ
  pub decode_queue_frames : ℕ
  pub equalizer_queue_frames : ℕ
  pub parallel_equalizer : Bool
  pub equalizer_nice : ℕ

-- `rtnc_detector_config_t`
pub record DetectorTimes (F : Type 0) : Type 0 where
  pub warmup_ms : ℕ
  pub pretrigger_ms : ℕ
  pub cooldown_ms : ℕ
  pub noise_attack_ms : ℕ
  pub noise_release_ms : ℕ
  pub signal_attack_ms : ℕ
  pub maximum_busy_ms : ℕ
  pub energy_open_ratio : F
  pub energy_close_ratio : F
  pub impulse_limit_ratio : F

pub record RuntimeConfig : Type 0 where
  pub tx_queue_packets : ℕ
  pub rx_queue_packets : ℕ
  pub channel_busy_timeout_ms : ℕ
  pub rx_guard_ms : ℕ
  pub kiss_tcp_port : ℕ

-- The line of the transmitter and the name of the audio device, which nothing here reads, are left out.
pub record PlatformConfig (F : Type 0) : Type 0 where
  pub audio : AudioConfig
  pub modem : ModemConfig
  pub tx : TxConfig F
  pub link : LinkConfig
  pub workers : WorkerConfig
  pub detector : DetectorTimes F
  pub runtime : RuntimeConfig
  pub profiles : List (PhyProfileConfig F)
