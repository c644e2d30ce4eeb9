-- ===== src/Transmitter/Tests.antt =====
-- Two samples on the air, with an identity filter.
use reticulum_tnc.Base.{
  ◌<◌, length, ℕ, ◌+◌, ◌-◌, ◌*◌, ◌/◌, u16, List, [], ◌∷◌, get_or, set, replicate, ltb,
  if◌then◌else◌, ◌≡◌, refl, true, false, some, arith,
}
use reticulum_tnc.Floats.Fixed.{Fixed, fixed_mul, up, down, fixed_decimal, fixed_float}
use reticulum_tnc.Config.{TxConfig}
use reticulum_tnc.Ptt.{Ptt, ptt_set}
use reticulum_tnc.Audio.{took, underrun, Playback, audio_send, send_from, audio_wait}
use reticulum_tnc.Audio.Send.{no_answers, takes, underruns}
use reticulum_tnc.Transmitter.{
  whole_delay, interrupted, sleep_for, clamp_sample, apply_from, eq_apply_sample, condition_from,
  condition_audio, Outside, Transmission, after_wait, after_lead, play, release, transmit_audio,
}
use reticulum_tnc.Transmitter.Filter.{convolution, condition_audio-convolution}
use reticulum_tnc.Transmitter.OnAir.{all_moments}
use reticulum_tnc.Transmitter.Release.{
  IsSafe, Works, sleeps, goes_on, transmit_audio-IsSafe, transmit_audio-Works,
}

abbrev value_of : ℕ → Fixed
value_of n = if ltb n 32768 then up (n * 1000000000) else down ((65536 - n) * 1000000000)

abbrev nearest : Fixed → ℕ
nearest (up n) = (n + 500000000) / 1000000000
nearest (down n) = u16 (65536 - (n + 500000000) / 1000000000)

abbrev config : TxConfig Fixed
config = record {
  lead_ms = 1500;
  tail_ms = 50;
  filter_gain = fixed_decimal 1 0;
  response_eq_taps = set (replicate 17 (up 0)) 8 (fixed_decimal 1 0);
}

abbrev samples : List ℕ
samples = 5 ∷ (65535 ∷ [])

conditioned : condition_audio value_of nearest config samples ≡ some samples
unfolding condition_audio condition_from clamp_sample eq_apply_sample apply_from
conditioned = refl

abbrev line : Ptt
line = record { has_line = true; active_high = true; state = false; level = false }

abbrev outside : Outside
outside = record {
  allocated = true;
  keyed = true;
  lead = interrupted 400 ∷ (whole_delay ∷ []);
  writes = took 1 ∷ (underrun ∷ (took 1 ∷ []));
  drained = true;
  prepared = true;
  tail = whole_delay ∷ [];
  released = true;
}

abbrev silence : Playback ℕ
silence = record { heard = []; xruns = 0 }

abbrev sent : Transmission
sent = record {
  success = true;
  ptt = line;
  playback = record { heard = samples; xruns = 1 };
  moments = all_moments (record line { state = true; level = true }) samples 1500000000 50000000;
}

transmits_samples :
    transmit_audio value_of nearest outside true line silence config samples ≡ some sent
unfolding transmit_audio condition_audio condition_from clamp_sample eq_apply_sample apply_from play
    after_lead after_wait release ptt_set sleep_for audio_send send_from audio_wait
transmits_samples = refl

transmit_audio-IsSafe_example :
    IsSafe outside line [] (condition_from value_of nearest config samples 0 2) 1500 50 sent
transmit_audio-IsSafe_example =
    transmit_audio-IsSafe value_of nearest outside true line silence config samples sent refl
      transmits_samples

outside-Works : Works outside 2
outside-Works = record {
  allocated = refl;
  keyed = refl;
  lead = goes_on 400 _ (sleeps []);
  writes = takes 1 0 _ (underruns 1 _ (takes 0 0 _ no_answers));
  drained = refl;
  prepared = refl;
  tail = sleeps [];
  released = refl;
}

transmit_audio-Works_example :
    (t : Transmission) × (transmit_audio value_of nearest outside true line silence config samples
      ≡ some t)
    × (t.success ≡ true)
transmit_audio-Works_example =
    transmit_audio-Works value_of nearest outside line silence config samples refl (omega arith)
      refl outside-Works

-- Eleven samples, so that both ends of the waveform cut the filter off.
abbrev ramp : List ℕ
ramp = 0 ∷ (1 ∷ (2 ∷ (3 ∷ (4 ∷ (5 ∷ (6 ∷ (7 ∷ (8 ∷ (9 ∷ (10 ∷ []))))))))))

-- A filter whose first tap is not zero: it adds the sample that is eight later.
abbrev looking_ahead : TxConfig Fixed
looking_ahead = record config {
  response_eq_taps = set (set (replicate 17 (up 0)) 8 (fixed_decimal 1 0)) 0 (fixed_decimal 1 0);
}

conditioned_ramp :
    condition_audio value_of nearest looking_ahead ramp
    ≡ some (8 ∷ (10 ∷ (12 ∷ (3 ∷ (4 ∷ (5 ∷ (6 ∷ (7 ∷ (8 ∷ (9 ∷ (10 ∷ [])))))))))))
unfolding condition_audio condition_from clamp_sample eq_apply_sample apply_from
conditioned_ramp = refl

condition_audio-convolution_example :
    (out : List ℕ) × (condition_audio value_of nearest looking_ahead ramp ≡ some out)
    × (length out ≡ 11)
    × ((i : ℕ)
        → i < 11
        → get_or out i 0
          ≡ clamp_sample nearest (
              fixed_mul
                (fixed_decimal 1 0)
                (convolution value_of looking_ahead.response_eq_taps ramp i)))
condition_audio-convolution_example =
    condition_audio-convolution value_of nearest looking_ahead ramp (omega arith) refl
