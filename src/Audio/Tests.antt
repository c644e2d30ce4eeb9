-- ===== src/Audio/Tests.antt =====
-- A device that takes four samples in three answers, and its streams over a few calls.
use reticulum_tnc.Base.{ℕ, List, [], ◌∷◌, ◌++◌, take, ◌≡◌, refl, Bool, true, false, none, some}
use reticulum_tnc.Audio.{
  Write, took, underrun, failed, Playback, audio_send, no_audio, Setup, audio_init, audio_deinit,
  Use, opens, starts, closes, thread_fails, use_audio, use_all, audio_start_capture, open_streams,
  send_from,
}
use reticulum_tnc.Audio.Send.{Takes, audio_send-heard}
use reticulum_tnc.Audio.Streams.{IsConsistent, use_all-closed}

abbrev silence : Playback ℕ
silence = record { heard = []; xruns = 0 }

abbrev answers : List Write
answers = took 1 ∷ (underrun ∷ (failed true ∷ (took 2 ∷ [])))

abbrev two_samples : List ℕ
two_samples = 7 ∷ (8 ∷ [])

sends :
    audio_send true two_samples answers silence
    ≡ some (true, record { heard = two_samples; xruns = 2 })
unfolding audio_send send_from
sends = refl

waits : audio_send true two_samples (took 1 ∷ []) silence ≡ none
unfolding audio_send send_from
waits = refl

fails :
    audio_send true two_samples (took 1 ∷ (failed false ∷ [])) silence
    ≡ some (false, record { heard = 7 ∷ []; xruns = 0 })
unfolding audio_send send_from
fails = refl

audio_send-heard_example :
    ((done : Bool) (p' : Playback ℕ)
      → audio_send true two_samples answers silence ≡ some (done, p')
      → (n : ℕ) × (p'.heard ≡ [] ++ take n two_samples)
        × (done ≡ true → p'.heard ≡ [] ++ two_samples))
    × (true ≡ true
        → Takes 2 answers
        → (p' : Playback ℕ) × (audio_send true two_samples answers silence ≡ some (true, p')))
audio_send-heard_example = audio_send-heard true two_samples answers silence

abbrev setup : Setup
setup = record {
  allocated = true;
  playback_opens = true;
  playback_configured = true;
  playback_prepared = true;
  capture_opens = true;
  capture_configured = true;
  capture_prepared = false;
}

abbrev good_setup : Setup
good_setup = record setup { capture_prepared = true }

opened_runs : (use_all (opens good_setup ∷ (starts true true ∷ [])) no_audio).thread_runs ≡ true
unfolding use_all use_audio audio_init open_streams audio_start_capture
opened_runs = refl

abbrev steps : List Use
steps = opens good_setup ∷ (starts true true ∷ (thread_fails ∷ (closes ∷ [])))

use_all-closed_example :
    let audio = use_all steps no_audio in
    IsConsistent audio
    × (audio.implementation ≡ false
        → (audio_init setup audio).1 ≡ false
        → (audio_init setup audio).0 ≡ no_audio)
    × (audio_deinit audio ≡ no_audio)
use_all-closed_example = use_all-closed steps setup
