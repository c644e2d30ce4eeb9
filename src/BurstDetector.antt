-- ===== src/BurstDetector.antt =====
-- The burst detector, src/platform/burst_detector.c: it follows the power of the channel, keeps the last
-- samples of audio, and hands out the audio of a burst together with the samples before it.
pub mod Recent
pub mod Heard
pub mod Bursts
pub mod Pause
pub mod Runs
mod Tests
use reticulum_tnc.Base.{
  ℕ, zero, suc, ◌+◌, ◌-◌, ◌*◌, ◌/◌, ◌%◌, ◌^◌, ◌≤◌, ◌<◌, min, max, bit_xor, u8, u16, u32, u64, ◌<<<◌,
  ◌>>>◌, test_bit, AreBytes, List, [], ◌∷◌, ◌++◌, map, append-nil, append_assoc, length, get_or,
  set, take, drop, replicate, length-append, length-set, get_or-set_self, get_or-set_ne,
  length-take, length-drop, length-replicate, get_or-replicate, take-append-drop, take-append,
  drop-append, take_all, get_or-append_right, take_add, drop_add, ltb, leb, ◌==◌, if◌then◌else◌,
  ltb→lt, lt→ltb, leb→le, ==_iff, Bool-cases, Option-cases, Result, ok, err, ◌>>=◌, ◌>>◌, fail_if,
  ◌≡◌, refl, sym, ap, ap₂, subst, ◌∙◌, ◌≢◌, ◌↔◌, ◌⊎◌, inl, inr, Bool, true, false, not, ◌&&◌, ◌||◌,
  Option, none, some, arith, dec_lt, dec_le, ℕ_discrete,
}
use reticulum_tnc.Floats.{Float}
use reticulum_tnc.Rate.{max_audio_samples}

abbrev pub max_pretrigger_samples : ℕ
max_pretrigger_samples = 12000

pub record DetectorConfig (F : Type 0) : Type 0 where
  pub warmup_samples : ℕ
  pub pretrigger_samples : ℕ
  pub release_samples : ℕ
  pub cooldown_samples : ℕ
  pub noise_attack_alpha : F
  pub noise_release_alpha : F
  pub signal_alpha : F
  pub trigger_ratio : F
  pub release_ratio : F
  pub impulse_limit_ratio : F
  pub maximum_active_samples : ℕ
  pub capture_samples : ℕ
  pub energy_trigger_enabled : Bool
  pub external_trigger_requires_energy : Bool

-- `rtnc_burst_detector_t`; `candidate` has the first `candidate_count` samples of the array.
pub record Detector (F : Type 0) : Type 0 where
  pub config : DetectorConfig F
  pub pretrigger : List F
  pub candidate : List F
  pub pretrigger_count : ℕ
  pub pretrigger_write : ℕ
  pub quiet_samples : ℕ
  pub cooldown_samples : ℕ
  pub samples_seen : ℕ
  pub detected_bursts : ℕ
  pub noise_power : F
  pub signal_power : F
  pub active : Bool

module _ {F : Type 0} ⦃f : Float F⦄ where
  unfoldable pub detector_default_config : DetectorConfig F
  detector_default_config = record {
    warmup_samples = 24000;
    pretrigger_samples = 4800;
    release_samples = 2400;
    cooldown_samples = 4800;
    noise_attack_alpha = f.decimal 2 4;
    noise_release_alpha = f.decimal 2 4;
    signal_alpha = f.decimal 2 2;
    trigger_ratio = f.decimal 4 0;
    release_ratio = f.decimal 18 1;
    impulse_limit_ratio = f.decimal 20 0;
    maximum_active_samples = max_audio_samples;
    capture_samples = 0;
    energy_trigger_enabled = true;
    external_trigger_requires_energy = false;
  }

  abbrev pub alpha_invalid : F → Bool
  alpha_invalid alpha = f.le alpha (f.decimal 0 0) || f.lt (f.decimal 1 0) alpha

  -- The tests on the numbers of samples.
  abbrev pub counts_invalid : DetectorConfig F → Bool
  counts_invalid config =
      config.warmup_samples == 0
      || config.pretrigger_samples == 0
      || ltb max_pretrigger_samples config.pretrigger_samples
      || config.release_samples == 0
      || config.maximum_active_samples == 0
      || ltb max_audio_samples config.maximum_active_samples
      || ltb config.maximum_active_samples config.capture_samples

  -- The tests on the numbers that are floats.
  abbrev pub ratios_invalid : DetectorConfig F → Bool
  ratios_invalid config =
      alpha_invalid config.noise_attack_alpha
      || alpha_invalid config.noise_release_alpha
      || alpha_invalid config.signal_alpha
      || f.le config.trigger_ratio (f.decimal 1 0)
      || f.le config.release_ratio (f.decimal 1 0)
      || f.le config.trigger_ratio config.release_ratio
      || (config.energy_trigger_enabled && f.le config.impulse_limit_ratio config.trigger_ratio)

  -- `memset` makes the floats zero.
  unfoldable pub cleared : DetectorConfig F → Detector F
  cleared config = record {
    config = config;
    pretrigger = replicate max_pretrigger_samples (f.decimal 0 0);
    candidate = [];
    pretrigger_count = 0;
    pretrigger_write = 0;
    quiet_samples = 0;
    cooldown_samples = 0;
    samples_seen = 0;
    detected_bursts = 0;
    noise_power = f.decimal 0 0;
    signal_power = f.decimal 0 0;
    active = false;
  }

  unfoldable pub detector_init : DetectorConfig F → Option (Detector F)
  detector_init config =
      if counts_invalid config || ratios_invalid config then none else some (cleared config)

  -- `signal_power < noise_power * release_ratio`, or `<=`, is with the noise power of the moment.
  abbrev pub release_power : Detector F → F
  release_power d = f.mul d.noise_power d.config.release_ratio

  abbrev pub limited_power : Detector F → F → F
  limited_power d channel_power =
      let limit = f.mul d.noise_power d.config.impulse_limit_ratio in
      if f.lt (f.decimal 0 0) d.noise_power && f.lt limit channel_power
      then limit
      else channel_power

  abbrev pub noise_after : Detector F → F → F
  noise_after d channel_power =
      let limited = limited_power d channel_power in
      let alpha =
        if f.lt d.noise_power limited
        then d.config.noise_attack_alpha
        else d.config.noise_release_alpha in
      f.add d.noise_power (f.mul alpha (f.sub limited d.noise_power))

  abbrev pub follows_noise : Detector F → Bool
  follows_noise d =
      not d.active
      && d.cooldown_samples == 0
      && (not d.config.external_trigger_requires_energy || f.le d.signal_power (release_power d))

  abbrev pub with_signal : Detector F → F → Detector F
  with_signal d channel_power = record d {
    signal_power =
        f.add d.signal_power (f.mul d.config.signal_alpha (f.sub channel_power d.signal_power));
  }

  -- The two powers after a sample; `d` has counted it.
  unfoldable pub track : Detector F → F → Detector F
  track d channel_power =
      if d.samples_seen == 1
      then record d { noise_power = channel_power; signal_power = channel_power }
      else let d' = with_signal d channel_power in
        if follows_noise d' then record d' { noise_power = noise_after d' channel_power } else d'

  -- The condition on which a burst opens.
  unfoldable pub opens : Detector F → Bool → Bool
  opens d external_trigger =
      not d.active
      && leb d.config.warmup_samples d.samples_seen
      && ((external_trigger
            && (not d.config.external_trigger_requires_energy
                || f.lt (release_power d) d.signal_power))
          || (d.config.energy_trigger_enabled
              && f.lt (f.mul d.noise_power d.config.trigger_ratio) d.signal_power))

  -- The loop that copies the samples before the trigger, from `index` on.
  unfoldable pub pretrigger_from : Detector F → ℕ → ℕ → List F
  pretrigger_from d index zero = []
  pretrigger_from d index (suc left) =
      let n = d.config.pretrigger_samples in
      let source = (d.pretrigger_write + n - d.pretrigger_count + index) % n in
      get_or d.pretrigger source (f.decimal 0 0) ∷ pretrigger_from d (index + 1) left

  -- The cooldown, or the start of a burst.
  unfoldable pub open_burst : Detector F → Bool → Detector F
  open_burst d external_trigger =
      if not d.active && ltb 0 d.cooldown_samples
      then record d { cooldown_samples = d.cooldown_samples - 1 }
      else if opens d external_trigger
      then record d {
        candidate = pretrigger_from d 0 d.pretrigger_count;
        active = true;
        quiet_samples = 0;
        detected_bursts = u64 (d.detected_bursts + 1);
      }
      else d

  -- A sample of an active burst.
  unfoldable pub capture : Detector F → F → Detector F
  capture d audio_sample = if not d.active then d else record d {
    candidate =
        if ltb (length d.candidate) max_audio_samples
        then d.candidate ++ (audio_sample ∷ [])
        else d.candidate;
    quiet_samples = if f.lt d.signal_power (release_power d) then u64 (d.quiet_samples + 1) else 0;
  }

  -- Whether the burst has ended.
  abbrev pub is_finished : Detector F → Bool
  is_finished d =
      d.active
      && ((ltb 0 d.config.capture_samples && leb d.config.capture_samples (length d.candidate))
          || (d.config.capture_samples == 0 && leb d.config.release_samples d.quiet_samples)
          || leb d.config.maximum_active_samples (length d.candidate))

  unfoldable pub remember : Detector F → F → Detector F
  remember d audio_sample = record d {
    pretrigger = set d.pretrigger d.pretrigger_write audio_sample;
    pretrigger_write = (d.pretrigger_write + 1) % d.config.pretrigger_samples;
    pretrigger_count =
        if ltb d.pretrigger_count d.config.pretrigger_samples
        then d.pretrigger_count + 1
        else d.pretrigger_count;
  }

  -- The end of the function: a finished burst is handed out.
  unfoldable pub hand_out : Detector F → Bool → Detector F × Option (List F)
  hand_out d finished =
      if finished
      then (
        record d {
          active = false;
          candidate = [];
          quiet_samples = 0;
          cooldown_samples = d.config.cooldown_samples;
        },
        some d.candidate,
      )
      else (d, none)

  abbrev pub counted : Detector F → Detector F
  counted d = record d { samples_seen = u64 (d.samples_seen + 1) }

  -- The state before the end of the burst is looked at.
  unfoldable pub captured : Detector F → F → F → Bool → Detector F
  unfolding track open_burst capture
  captured d channel_power audio_sample external_trigger =
      capture (open_burst (track (counted d) channel_power) external_trigger) audio_sample

  unfoldable pub detector_process_triggered :
      Detector F → F → F → Bool → Detector F × Option (List F)
  detector_process_triggered d channel_power audio_sample external_trigger =
      if f.lt channel_power (f.decimal 0 0)
      then (d, none)
      else let d' = captured d channel_power audio_sample external_trigger in
        hand_out (remember d' audio_sample) (is_finished d')

  abbrev pub detector_process : Detector F → F → F → Detector F × Option (List F)
  detector_process d channel_power audio_sample =
      detector_process_triggered d channel_power audio_sample false
