-- ===== src/Transmitter.antt =====
-- A waveform on the air, src/platform/transmitter.c, with the filter that it applies,
-- rtnc_tx_eq_apply_sample of src/platform/tx_eq.c. A sample of 16 bits is its two's complement;
-- `float_of` is its value and `lrint` the sample that lrintf gives. The answers of the operating
-- system, of ALSA and of libgpiod are parameters.
pub mod Filter
pub mod OnAir
pub mod Release
mod Tests
use reticulum_tnc.Base.{
  ℕ, zero, suc, ◌+◌, ◌-◌, ◌*◌, ◌/◌, ◌%◌, ◌^◌, ◌≤◌, ◌<◌, min, max, bit_xor, u8, u16, u32, u64, ◌<<<◌,
  ◌>>>◌, test_bit, AreBytes, List, [], ◌∷◌, ◌++◌, map, append-nil, append_assoc, length, get_or,
  set, take, drop, replicate, length-append, length-set, get_or-set_self, get_or-set_ne,
  length-take, length-drop, length-replicate, get_or-replicate, take-append-drop, take-append,
  drop-append, take_all, get_or-append_right, take_add, drop_add, ltb, leb, ◌==◌, if◌then◌else◌,
  ltb→lt, lt→ltb, leb→le, ==_iff, Bool-cases, Option-cases, Result, ok, err, ◌>>=◌, ◌>>◌, fail_if,
  ◌≡◌, refl, sym, ap, ap₂, subst, ◌∙◌, ◌≢◌, ◌↔◌, ◌⊎◌, inl, inr, Bool, true, false, not, ◌&&◌, ◌||◌,
  Option, none, some, arith, dec_lt, dec_le, ℕ_discrete,
}
use reticulum_tnc.Floats.{Float}
use reticulum_tnc.Config.{TxConfig, tap_count}
use reticulum_tnc.Ptt.{Ptt, ptt_set}
use reticulum_tnc.Audio.{Write, Playback, audio_send, audio_wait}

-- What nanosleep answers: it slept for the whole delay, was interrupted after so many nanoseconds, or
-- failed.
pub data Nap : Type 0 where
  whole_delay : Nap
  interrupted : ℕ → Nap
  refused : Nap

-- The success, and the nanoseconds slept; none while it waits for an answer.
unfoldable pub sleep_for : ℕ → List Nap → ℕ → Option (Bool × ℕ)
sleep_for delay [] slept = none
sleep_for delay (whole_delay ∷ naps) slept = some (true, slept + delay)
sleep_for delay (interrupted elapsed ∷ naps) slept =
    sleep_for (delay - elapsed) naps (slept + elapsed)
sleep_for delay (refused ∷ naps) slept = some (false, slept)

abbrev pub sleep_milliseconds : ℕ → List Nap → Option (Bool × ℕ)
sleep_milliseconds milliseconds naps =
    sleep_for (milliseconds / 1000 * 1000000000 + milliseconds % 1000 * 1000000) naps 0

module _ {F : Type 0} ⦃f : Float F⦄ (lrint : F → ℕ) where
  unfoldable pub clamp_sample : F → ℕ
  clamp_sample value =
      if f.le (f.decimal 32767 0) value
      then 32767
      else if f.le value (f.neg (f.decimal 32768 0))
      then 32768
      else lrint value

module _ {F : Type 0} ⦃f : Float F⦄ (float_of : ℕ → F) where
  -- The sum over `left` taps from `tap` on.
  unfoldable pub apply_from : List F → List ℕ → ℕ → ℕ → ℕ → F → F
  apply_from taps samples index tap zero output = output
  apply_from taps samples index tap (suc left) output =
      let center = tap_count / 2 in
      let leading = center - tap in
      let trailing = tap - center in
      apply_from taps samples index (tap + 1) left (
        if leb trailing index && ltb (index + leading) (length samples)
        then f.add output (
            f.mul (get_or taps tap (f.decimal 0 0))
              (float_of (get_or samples (index + leading - trailing) 0)))
        else output)

  unfoldable pub eq_apply_sample : List F → List ℕ → ℕ → F
  eq_apply_sample taps samples index =
      if leb (length samples) index
      then f.decimal 0 0
      else apply_from taps samples index 0 tap_count (f.decimal 0 0)

module _ {F : Type 0} ⦃f : Float F⦄ (float_of : ℕ → F) (lrint : F → ℕ) where
  -- The loop over the samples, `left` of them from `index` on.
  unfoldable pub condition_from : TxConfig F → List ℕ → ℕ → ℕ → List ℕ
  condition_from config input index zero = []
  condition_from config input index (suc left) =
      clamp_sample lrint
        (f.mul config.filter_gain (eq_apply_sample float_of config.response_eq_taps input index))
      ∷ condition_from config input (index + 1) left

  unfoldable pub condition_audio : TxConfig F → List ℕ → Option (List ℕ)
  condition_audio config input =
      if length input == 0 || f.le config.filter_gain (f.decimal 0 0)
      then none
      else some (condition_from config input 0 (length input))

-- What happens while the line is set: a pause of so many nanoseconds, the call that sends audio, the
-- wait for its end.
pub data Moment : Type 0 where
  pause : ℕ → Moment
  send : List ℕ → Moment
  drain : Moment

-- The answers that a transmission gets, in their order.
pub record Outside : Type 0 where
  pub allocated : Bool
  pub keyed : Bool
  pub lead : List Nap
  pub writes : List Write
  pub drained : Bool
  pub prepared : Bool
  pub tail : List Nap
  pub released : Bool

-- `moments` has the line at each of them, in their order.
pub record Transmission : Type 0 where
  pub success : Bool
  pub ptt : Ptt
  pub playback : Playback ℕ
  pub moments : List (Ptt × Moment)

-- The second pause.
unfoldable pub after_wait :
    Outside → ℕ → Ptt → Playback ℕ → List (Ptt × Moment) → Option Transmission
after_wait outside tail_ms ptt p moments = elim (sleep_milliseconds tail_ms outside.tail) [
  | none ↦ none
  | some (done, slept) ↦ some (record {
    success = done;
    ptt = ptt;
    playback = p;
    moments = moments ++ ((ptt, pause slept) ∷ []);
  })
]

unfoldable pub after_lead :
    Outside → Bool → ℕ → List ℕ → Ptt → Playback ℕ → List (Ptt × Moment) → Option Transmission
after_lead outside opened tail_ms conditioned ptt p moments =
    let moments1 = moments ++ ((ptt, send conditioned) ∷ []) in
    let moments2 = moments1 ++ ((ptt, drain) ∷ []) in
    elim (audio_send opened conditioned outside.writes p) [
      | none ↦ none
      | some (sent, p') ↦
          if not sent
          then some (record { success = false; ptt = ptt; playback = p'; moments = moments1 })
          else if not (audio_wait opened outside.drained outside.prepared)
          then some (record { success = false; ptt = ptt; playback = p'; moments = moments2 })
          else after_wait outside tail_ms ptt p' moments2
    ]

-- All that happens while the line is set.
unfoldable pub play : Outside → Bool → ℕ → ℕ → List ℕ → Ptt → Playback ℕ → Option Transmission
play outside opened lead_ms tail_ms conditioned ptt p =
    elim (sleep_milliseconds lead_ms outside.lead) [
      | none ↦ none
      | some (done, slept) ↦
          let moments = (ptt, pause slept) ∷ [] in
          if not done
          then some (record { success = false; ptt = ptt; playback = p; moments = moments })
          else after_lead outside opened tail_ms conditioned ptt p moments
    ]

unfoldable pub release : Outside → Option Transmission → Option Transmission
release outside none = none
release outside (some t) =
    let (ptt', released) = ptt_set t.ptt false outside.released in
    some (record t { ptt = ptt'; success = t.success && released })

module _ {F : Type 0} ⦃f : Float F⦄ (float_of : ℕ → F) (lrint : F → ℕ) where
  -- `opened` says that the audio device is open. None while a call has not returned.
  unfoldable pub transmit_audio :
      Outside → Bool → Ptt → Playback ℕ → TxConfig F → List ℕ → Option Transmission
  transmit_audio outside opened ptt p config samples =
      let (keyed, done) = ptt_set ptt true outside.keyed in
      let failed_with =
        λ (line : Ptt). some (record { success = false; ptt = line; playback = p; moments = [] }) in
      if length samples == 0 || not outside.allocated
      then failed_with ptt
      else elim (condition_audio float_of lrint config samples) [
        | none ↦ failed_with ptt
        | some conditioned ↦
            if not done
            then failed_with keyed
            else release outside
                (play outside opened config.lead_ms config.tail_ms conditioned keyed p)
      ]
