-- ===== src/Audio.antt =====
-- Playback and the life of the two streams, src/platform/audio.c. The answers of ALSA are parameters, one
-- for each call of it. `rtnc_audio_t` with what it points to is `Audio`.
pub mod Send
pub mod Streams
mod Tests
use reticulum_tnc.Base.{
  ℕ, zero, suc, ◌+◌, ◌-◌, ◌*◌, ◌/◌, ◌%◌, ◌^◌, ◌≤◌, ◌<◌, min, max, bit_xor, u8, u16, u32, u64, ◌<<<◌,
  ◌>>>◌, test_bit, AreBytes, List, [], ◌∷◌, ◌++◌, map, append-nil, append_assoc, length, get_or,
  set, take, drop, replicate, length-append, length-set, get_or-set_self, get_or-set_ne,
  length-take, length-drop, length-replicate, get_or-replicate, take-append-drop, take-append,
  drop-append, take_all, get_or-append_right, take_add, drop_add, ltb, leb, ◌==◌, if◌then◌else◌,
  ltb→lt, lt→ltb, leb→le, ==_iff, Bool-cases, Option-cases, Result, ok, err, ◌>>=◌, ◌>>◌, fail_if,
  ◌≡◌, refl, sym, ap, ap₂, subst, ◌∙◌, ◌≢◌, ◌↔◌, ◌⊎◌, inl, inr, Bool, true, false, not, ◌&&◌, ◌||◌,
  Option, none, some, arith, dec_lt, dec_le, ℕ_discrete,
}

-- What snd_pcm_writei returns: a count of frames, -EPIPE, or another error, with the success of
-- snd_pcm_recover.
pub data Write : Type 0 where
  took : ℕ → Write
  underrun : Write
  failed : Bool → Write

-- The audio that the playback stream has taken, oldest first, and playback_xruns.
pub record Playback (S : Type 0) : Type 0 where
  pub heard : List S
  pub xruns : ℕ

module _ {S : Type 0} where
  abbrev pub hear : Playback S → List S → Playback S
  hear p samples = record p { heard = p.heard ++ samples }

  abbrev pub xrun : Playback S → Playback S
  xrun p = record p { xruns = u64 (p.xruns + 1) }

  -- The loop, from the frame `offset` on; none while it waits for an answer.
  unfoldable pub send_from : List S → ℕ → List Write → Playback S → Option (Bool × Playback S)
  send_from samples offset [] p = if ltb offset (length samples) then none else some (true, p)
  send_from samples offset (took n ∷ answers) p = elim (ltb offset (length samples)) [
    | true ↦ send_from samples (offset + n) answers (hear p (take n (drop offset samples)))
    | false ↦ some (true, p)
  ]
  send_from samples offset (underrun ∷ answers) p = elim (ltb offset (length samples)) [
    | true ↦ send_from samples offset answers (xrun p)
    | false ↦ some (true, p)
  ]
  send_from samples offset (failed recovered ∷ answers) p = elim (ltb offset (length samples)) [
    | true ↦ elim recovered [
      | true ↦ send_from samples offset answers (xrun p)
      | false ↦ some (false, p)
    ]
    | false ↦ some (true, p)
  ]

  -- `opened` says that the implementation is not NULL.
  unfoldable pub audio_send : Bool → List S → List Write → Playback S → Option (Bool × Playback S)
  audio_send opened samples answers p =
      if not opened then some (false, p) else send_from samples 0 answers p

-- The results of snd_pcm_drain and snd_pcm_prepare.
unfoldable pub audio_wait : Bool → Bool → Bool → Bool
audio_wait opened drained prepared = opened && (drained && prepared)

-- Which streams are open, and the capture thread: `thread_runs` is the thread itself, and the others are
-- the fields of the implementation.
pub record Audio : Type 0 where
  pub implementation : Bool
  pub playback : Bool
  pub capture : Bool
  pub capture_running : Bool
  pub thread_started : Bool
  pub thread_runs : Bool

abbrev pub no_audio : Audio
no_audio = record {
  implementation = false;
  playback = false;
  capture = false;
  capture_running = false;
  thread_started = false;
  thread_runs = false;
}

-- What calloc and ALSA answer when the streams are opened: whether each stream opens, takes the
-- configuration and is prepared.
pub record Setup : Type 0 where
  pub allocated : Bool
  pub playback_opens : Bool
  pub playback_configured : Bool
  pub playback_prepared : Bool
  pub capture_opens : Bool
  pub capture_configured : Bool
  pub capture_prepared : Bool

-- The opening of both streams, up to the first failure.
unfoldable pub open_streams : Setup → Audio → Audio × Bool
open_streams setup audio =
    if not setup.playback_opens
    then (audio, false)
    else let audio1 = record audio { playback = true } in
      if not (setup.playback_configured && setup.playback_prepared)
      then (audio1, false)
      else if not setup.capture_opens
      then (audio1, false)
      else let audio2 = record audio1 { capture = true } in
        (audio2, setup.capture_configured && setup.capture_prepared)

unfoldable pub audio_init : Setup → Audio → Audio × Bool
unfolding open_streams
audio_init setup audio =
    if audio.implementation || not setup.allocated
    then (audio, false)
    else let (opened, success) = open_streams setup no_audio in
      if not success
      then (record opened { playback = false; capture = false }, false)
      else (record opened { implementation = true }, true)

-- The success of snd_pcm_start and of pthread_create.
unfoldable pub audio_start_capture : Bool → Bool → Audio → Audio × Bool
audio_start_capture started created audio =
    if not audio.implementation
    then (audio, false)
    else if audio.thread_started
    then (audio, true)
    else if not started
    then (audio, false)
    else if not created
    then (record audio { capture_running = false }, false)
    else (record audio { capture_running = true; thread_started = true; thread_runs = true }, true)

-- The thread is joined, so that it no longer runs.
unfoldable pub audio_stop_capture : Audio → Audio
audio_stop_capture audio =
    if not audio.implementation || not audio.thread_started
    then audio
    else record audio { capture_running = false; thread_started = false; thread_runs = false }

unfoldable pub audio_deinit : Audio → Audio
unfolding audio_stop_capture
audio_deinit audio = if not audio.implementation then audio else record (audio_stop_capture audio) {
  implementation = false;
  playback = false;
  capture = false;
}

-- A call of the owner, or the thread that ends by itself because a read cannot be recovered.
pub data Use : Type 0 where
  opens : Setup → Use
  starts : Bool → Bool → Use
  stops : Use
  closes : Use
  thread_fails : Use

unfoldable pub use_audio : Use → Audio → Audio
unfolding audio_init audio_start_capture audio_stop_capture audio_deinit
use_audio (opens setup) audio = (audio_init setup audio).0
use_audio (starts started created) audio = (audio_start_capture started created audio).0
use_audio stops audio = audio_stop_capture audio
use_audio closes audio = audio_deinit audio
use_audio thread_fails audio = record audio { thread_runs = false }

unfoldable pub use_all : List Use → Audio → Audio
use_all [] audio = audio
use_all (step ∷ steps) audio = use_all steps (use_audio step audio)
