-- ===== src/Audio/Streams.antt =====
-- Streams and thread over the life of the device.
use reticulum_tnc.Base.{List, [], ◌∷◌, ◌≡◌, refl, ◌∙◌, true, false, arith}
use reticulum_tnc.Audio.{
  Audio, no_audio, Setup, open_streams, audio_init, audio_start_capture, audio_stop_capture,
  audio_deinit, Use, opens, starts, stops, closes, thread_fails, use_audio, use_all,
}

-- Both streams are open exactly while there is an implementation, and the thread is started, and told to
-- run, only then; one that runs was started.
pub record IsConsistent (audio : Audio) : Type 0 where
  pub playback_open : audio.playback ≡ audio.implementation
  pub capture_open : audio.capture ≡ audio.implementation
  pub told : audio.capture_running ≡ audio.thread_started
  pub started_open : audio.thread_started ≡ true → audio.implementation ≡ true
  pub runs_started : audio.thread_runs ≡ true → audio.thread_started ≡ true

use_audio-IsConsistent :
    (step : Use) (audio : Audio) → IsConsistent audio → IsConsistent (use_audio step audio)
unfolding use_audio audio_init open_streams audio_start_capture audio_stop_capture audio_deinit
use_audio-IsConsistent (opens setup) audio v = record {
  playback_open = ground arith;
  capture_open = ground arith;
  told = ground arith;
  started_open = ground arith;
  runs_started = ground arith;
}
use_audio-IsConsistent (starts started created) audio v = record {
  playback_open = ground arith;
  capture_open = ground arith;
  told = ground arith;
  started_open = ground arith;
  runs_started = ground arith;
}
use_audio-IsConsistent stops audio v = record {
  playback_open = ground arith;
  capture_open = ground arith;
  told = ground arith;
  started_open = ground arith;
  runs_started = ground arith;
}
use_audio-IsConsistent closes audio v = record {
  playback_open = ground arith;
  capture_open = ground arith;
  told = ground arith;
  started_open = ground arith;
  runs_started = ground arith;
}
use_audio-IsConsistent thread_fails audio v = record {
  playback_open = v.playback_open;
  capture_open = v.capture_open;
  told = v.told;
  started_open = v.started_open;
  runs_started = λ h. absurd (ground arith);
}

use_all-IsConsistent :
    (steps : List Use) (audio : Audio) → IsConsistent audio → IsConsistent (use_all steps audio)
unfolding use_all
use_all-IsConsistent [] audio v = v
use_all-IsConsistent (step ∷ steps) audio v =
    use_all-IsConsistent steps (use_audio step audio) (use_audio-IsConsistent step audio v)

no_audio-closed :
    (audio : Audio) → IsConsistent audio → audio.implementation ≡ false → audio ≡ no_audio
no_audio-closed audio v h =
    let not_started : audio.thread_started ≡ false = ground arith in
    let not_told : audio.capture_running ≡ false = v.told ∙ not_started in
    let not_running : audio.thread_runs ≡ false = ground arith in
    λ i. record {
      implementation = h i;
      playback = (v.playback_open ∙ h) i;
      capture = (v.capture_open ∙ h) i;
      capture_running = not_told i;
      thread_started = not_started i;
      thread_runs = not_running i;
    }

audio_init-failed :
    (setup : Setup) (audio : Audio)
    → IsConsistent audio
    → audio.implementation ≡ false
    → (audio_init setup audio).1 ≡ false
    → (audio_init setup audio).0 ≡ no_audio
unfolding use_audio audio_init open_streams
audio_init-failed setup audio v h e =
    no_audio-closed (audio_init setup audio).0 (use_audio-IsConsistent (opens setup) audio v)
      (ground arith)

audio_deinit-closed : (audio : Audio) → IsConsistent audio → audio_deinit audio ≡ no_audio
unfolding use_audio audio_deinit
audio_deinit-closed audio v =
    no_audio-closed (audio_deinit audio) (use_audio-IsConsistent closes audio v) (ground arith)

-- Whatever calls are made on a closed device, whatever ALSA answers and whenever the capture thread
-- ends by itself: both streams are open exactly while the device is, the thread runs only on an open
-- device that was told to capture, a set-up that fails leaves nothing behind, and after the end no
-- stream is open and no thread runs.
pub use_all-closed :
    (steps : List Use) (setup : Setup)
    → let audio = use_all steps no_audio in
      IsConsistent audio
      × (audio.implementation ≡ false
          → (audio_init setup audio).1 ≡ false
          → (audio_init setup audio).0 ≡ no_audio)
      × (audio_deinit audio ≡ no_audio)
use_all-closed steps setup =
    let v = use_all-IsConsistent steps no_audio (record {
      playback_open = refl;
      capture_open = refl;
      told = refl;
      started_open = λ h. h;
      runs_started = λ h. h;
    }) in
    let audio = use_all steps no_audio in
    (v, audio_init-failed setup audio v, audio_deinit-closed audio v)
