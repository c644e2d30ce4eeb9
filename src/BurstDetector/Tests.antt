-- ===== src/BurstDetector/Tests.antt =====
-- A small detector on fixed-point numbers.
use reticulum_tnc.Base.{ℕ, List, [], ◌∷◌, ◌++◌, ◌≡◌, refl, ◌≢◌, true, false, some, arith}
use reticulum_tnc.Floats.Fixed.{Fixed, up, fixed_decimal, fixed_float}
use reticulum_tnc.BurstDetector.{
  DetectorConfig, Detector, cleared, detector_init, detector_process_triggered, captured, track,
  opens, pretrigger_from, open_burst, capture, remember, hand_out,
}
use reticulum_tnc.BurstDetector.Heard.{IsValid}
use reticulum_tnc.BurstDetector.Bursts.{process-IsValid}
use reticulum_tnc.BurstDetector.Runs.{
  Input, process, heard_of, bursts_of, AllStretches, detector_init-IsValid, bursts_of-init,
  bursts_of_active,
}

abbrev config : DetectorConfig Fixed
config = record {
  warmup_samples = 1;
  pretrigger_samples = 2;
  release_samples = 1;
  cooldown_samples = 2;
  noise_attack_alpha = fixed_decimal 5 1;
  noise_release_alpha = fixed_decimal 5 1;
  signal_alpha = fixed_decimal 5 1;
  trigger_ratio = fixed_decimal 4 0;
  release_ratio = fixed_decimal 2 0;
  impulse_limit_ratio = fixed_decimal 20 0;
  maximum_active_samples = 5;
  capture_samples = 0;
  energy_trigger_enabled = true;
  external_trigger_requires_energy = false;
}

abbrev sample : ℕ → ℕ → Input Fixed
sample power audio = record {
  channel_power = fixed_decimal power 0;
  audio_sample = up audio;
  external_trigger = false;
}

abbrev detector : Detector Fixed
detector = cleared config

detector_inits : detector_init config ≡ some detector
unfolding detector_init
detector_inits = refl

abbrev noise_then_burst : List (Input Fixed)
noise_then_burst =
    sample 1 1 ∷ sample 1 2 ∷ sample 1 3 ∷ sample 100 4 ∷ sample 100 5 ∷ sample 0 6 ∷ []

-- The two samples before the trigger, and the samples up to the configured maximum.
noise_then_burst_runs :
    bursts_of detector (noise_then_burst ++ (sample 100 7 ∷ sample 0 8 ∷ []))
    ≡ (up 2 ∷ up 3 ∷ up 4 ∷ up 5 ∷ up 6 ∷ []) ∷ []
unfolding bursts_of cleared detector_process_triggered captured track opens pretrigger_from
    open_burst capture remember hand_out
noise_then_burst_runs = refl

bursts_of-init_example :
    AllStretches (bursts_of detector noise_then_burst) (heard_of noise_then_burst)
bursts_of-init_example = bursts_of-init config detector noise_then_burst detector_inits

abbrev after : Detector Fixed → List (Input Fixed) → Detector Fixed
after d [] = d
after d (input ∷ inputs) = after (process d input).0 inputs

-- After the sample that triggers.
abbrev triggered : Detector Fixed
triggered = after detector (sample 1 1 ∷ sample 1 2 ∷ sample 1 3 ∷ sample 100 4 ∷ [])

triggered_active : triggered.active ≡ true
unfolding cleared detector_process_triggered captured track opens pretrigger_from open_burst capture
    remember hand_out
triggered_active = refl

triggered_candidate : triggered.candidate ≡ up 2 ∷ up 3 ∷ up 4 ∷ []
unfolding cleared detector_process_triggered captured track opens pretrigger_from open_burst capture
    remember hand_out
triggered_candidate = refl

triggered_maximum : triggered.config.maximum_active_samples ≡ 5
unfolding cleared detector_process_triggered captured track opens pretrigger_from open_burst capture
    remember hand_out
triggered_maximum = refl

after-IsValid :
    (heard : List Fixed) (d : Detector Fixed) (power audio : ℕ)
    → IsValid heard d
    → IsValid (heard ++ (up audio ∷ [])) (process d (sample power audio)).0
after-IsValid heard d power audio v =
    (process-IsValid heard d (fixed_decimal power 0) (up audio) false v (ground arith)).0

triggered-IsValid : IsValid (up 1 ∷ up 2 ∷ up 3 ∷ up 4 ∷ []) triggered
triggered-IsValid =
    let d1 = after detector (sample 1 1 ∷ []) in
    let d2 = after d1 (sample 1 2 ∷ []) in
    let d3 = after d2 (sample 1 3 ∷ []) in
    after-IsValid (up 1 ∷ up 2 ∷ up 3 ∷ []) d3 100 4 (
      after-IsValid (up 1 ∷ up 2 ∷ []) d2 1 3 (
        after-IsValid (up 1 ∷ []) d1 1 2
          (after-IsValid [] detector 1 1 (detector_init-IsValid config detector detector_inits))))

bursts_of_active_example : bursts_of triggered (sample 100 5 ∷ sample 1 6 ∷ []) ≢ []
bursts_of_active_example =
    bursts_of_active (up 1 ∷ up 2 ∷ up 3 ∷ up 4 ∷ []) triggered (sample 100 5 ∷ sample 1 6 ∷ [])
      triggered-IsValid triggered_active (refl, (refl, tt))
      (rw (triggered_candidate, triggered_maximum) (omega arith))

-- The sample that completes the burst, and the pause after it.
abbrev paused : Detector Fixed
paused = after triggered (sample 100 5 ∷ sample 100 6 ∷ [])

paused_follows :
    process (after triggered (sample 100 5 ∷ [])) (sample 100 6)
    ≡ (paused, some (up 2 ∷ up 3 ∷ up 4 ∷ up 5 ∷ up 6 ∷ []))
unfolding cleared detector_process_triggered captured track opens pretrigger_from open_burst capture
    remember hand_out
paused_follows = refl

paused_config : (after triggered (sample 100 5 ∷ [])).config.cooldown_samples ≡ 2
unfolding cleared detector_process_triggered captured track opens pretrigger_from open_burst capture
    remember hand_out
paused_config = refl
