-- ===== src/Transmitter/Release.antt =====
-- That the transmitter goes off again, and when a transmission succeeds.
use reticulum_tnc.Base.{
  ℕ, ◌+◌, ◌-◌, ◌*◌, ◌/◌, ◌%◌, ◌≤◌, List, [], ◌∷◌, ◌++◌, length, ◌==◌, Bool-cases, Option-cases, ◌≡◌,
  refl, sym, ap, subst, ◌∙◌, inl, inr, Bool, true, false, not, ◌&&◌, ◌||◌, none, some, arith,
}
use reticulum_tnc.Floats.{Float}
use reticulum_tnc.Config.{TxConfig}
use reticulum_tnc.Ptt.{Ptt, ptt_set}
use reticulum_tnc.Ptt.Level.{transmits}
use reticulum_tnc.Audio.{Playback, audio_wait}
use reticulum_tnc.Audio.Send.{audio_send-heard}
use reticulum_tnc.Transmitter.{
  Nap, whole_delay, interrupted, sleep_for, condition_from, condition_audio, Outside, Transmission,
  after_wait, after_lead, play, release, transmit_audio,
}
use reticulum_tnc.Transmitter.Filter.{length-condition_from}
use reticulum_tnc.Transmitter.OnAir.{all_on, all_moments, IsPlayed, result_is, play-IsPlayed}
use reticulum_tnc.Audio.Send.{Takes}

-- What a call that returned promises: it had the transmitter on at all its moments; afterwards the
-- transmitter is off if the last write to the line succeeded, and it did if the call reports success.
pub record IsSafe (outside : Outside) (ptt : Ptt) (before sent : List ℕ) (lead_ms tail_ms : ℕ)
    (t : Transmission) : Type 0 where
  pub on : all_on t.moments ≡ true
  pub off : outside.released ≡ true → transmits t.ptt ≡ false
  pub whole :
      t.success ≡ true
      → (transmits t.ptt ≡ false)
        × (t.playback.heard ≡ before ++ sent)
        × ((n : ℕ) × (m : ℕ) × (t.moments ≡ all_moments (ptt_set ptt true outside.keyed).0 sent n m)
            × (lead_ms * 1000000 ≤ n)
            × (tail_ms * 1000000 ≤ m))

ptt_set-on :
    (ptt : Ptt) (written : Bool)
    → (ptt_set ptt true written).1 ≡ true
    → (transmits (ptt_set ptt true written).0 ≡ true)
      × ((ptt_set ptt true written).0.has_line ≡ true)
unfolding ptt_set
ptt_set-on ptt written e = (ground arith, ground arith)

ptt_set-off :
    (ptt : Ptt) (written : Bool)
    → (ptt_set ptt false written).1 ≡ true
    → transmits (ptt_set ptt false written).0 ≡ false
unfolding ptt_set
ptt_set-off ptt written e = ground arith

ptt_set-written :
    (ptt : Ptt) (on written : Bool)
    → ptt.has_line ≡ true
    → written ≡ true
    → (ptt_set ptt on written).1 ≡ true
unfolding ptt_set
ptt_set-written ptt on written line e = ground arith

ptt_set-failed :
    (ptt : Ptt) (on written : Bool)
    → (ptt_set ptt on written).1 ≡ false
    → (ptt_set ptt on written).0 ≡ ptt
unfolding ptt_set
ptt_set-failed ptt on written e = ground arith

-- A call that failed before the line was set.
failed-IsSafe :
    (outside : Outside) (ptt line : Ptt) (before sent : List ℕ) (lead_ms tail_ms : ℕ)
    (p : Playback ℕ)
    → transmits line ≡ false
    → IsSafe outside ptt before sent lead_ms tail_ms
        (record { success = false; ptt = line; playback = p; moments = [] })
unfolding all_on
failed-IsSafe outside ptt line before sent lead_ms tail_ms p off = record {
  on = refl;
  off = λ h. off;
  whole = λ h. absurd (ground arith);
}

release-IsSafe :
    (outside : Outside) (ptt : Ptt) (before sent : List ℕ) (lead_ms tail_ms : ℕ)
    (played : Transmission)
    → (ptt_set ptt true outside.keyed).1 ≡ true
    → IsPlayed (ptt_set ptt true outside.keyed).0 before sent lead_ms tail_ms played
    → (t : Transmission) → release outside (some played) ≡ some t
    → IsSafe outside ptt before sent lead_ms tail_ms t
unfolding release
release-IsSafe outside ptt before sent lead_ms tail_ms played keyed v t e =
    let keyed_on = ptt_set-on ptt outside.keyed keyed in
    let line : played.ptt.has_line ≡ true = ap (λ l. l.has_line) v.line ∙ keyed_on.1 in
    let released = (ptt_set played.ptt false outside.released).1 in
    result_is (IsSafe outside ptt before sent lead_ms tail_ms) (release outside (some played)) _ t
      refl e
      (record {
        on = v.on;
        off = λ h.
            ptt_set-off played.ptt outside.released
              (ptt_set-written played.ptt false outside.released line h);
        whole = λ h.
            let success : played.success ≡ true = ground arith in
            let off : released ≡ true = ground arith in
            let (heard, rest) = v.whole success in
            (ptt_set-off played.ptt outside.released off, heard, rest);
      })

release-play-IsSafe :
    (outside : Outside) (opened : Bool) (ptt : Ptt) (p : Playback ℕ) (sent : List ℕ)
    (lead_ms tail_ms : ℕ) (t : Transmission)
    → (ptt_set ptt true outside.keyed).1 ≡ true
    → release outside
        (play outside opened lead_ms tail_ms sent (ptt_set ptt true outside.keyed).0 p)
      ≡ some t
    → IsSafe outside ptt p.heard sent lead_ms tail_ms t
unfolding release
release-play-IsSafe outside opened ptt p sent lead_ms tail_ms t keyed e =
    let line = (ptt_set ptt true outside.keyed).0 in
    elim (Option-cases (play outside opened lead_ms tail_ms sent line p)) [
      | inl z ↦
          let none_is : none ≡ some t = sym (ap (release outside) z) ∙ e in absurd (ground arith)
      | inr (played, z) ↦
          release-IsSafe outside ptt p.heard sent lead_ms tail_ms played keyed
            (play-IsPlayed outside opened lead_ms tail_ms sent line p played
              (ptt_set-on ptt outside.keyed keyed).0 z)
            t (sym (ap (release outside) z) ∙ e)
    ]

module _ {F : Type 0} ⦃f : Float F⦄ (float_of : ℕ → F) (lrint : F → ℕ) where
  -- A call on a transmitter that is off, if it returns: the transmitter was on at all moments of the
  -- transmission, and it is off again if the last write to the line succeeds, which a success implies;
  -- after a success exactly the conditioned samples were added to what is heard, between two pauses
  -- that are at least as long as configured.
  pub transmit_audio-IsSafe :
      (outside : Outside) (opened : Bool) (ptt : Ptt) (p : Playback ℕ) (config : TxConfig F)
      (samples : List ℕ) (t : Transmission)
      → transmits ptt ≡ false
      → transmit_audio float_of lrint outside opened ptt p config samples ≡ some t
      → IsSafe outside ptt p.heard
          (condition_from float_of lrint config samples 0 (length samples))
          config.lead_ms
          config.tail_ms
          t
  unfolding transmit_audio condition_audio
  transmit_audio-IsSafe outside opened ptt p config samples t off e =
      let sent = condition_from float_of lrint config samples 0 (length samples) in
      let keyed = ptt_set ptt true outside.keyed in
      let call = transmit_audio float_of lrint outside opened ptt p config samples in
      let P = IsSafe outside ptt p.heard sent config.lead_ms config.tail_ms in
      elim (Bool-cases (length samples == 0 || not outside.allocated)) [
        | inl z ↦
            result_is P call _ t (rw (z, transmit_audio) refl) e
              (failed-IsSafe outside ptt ptt p.heard sent config.lead_ms config.tail_ms p off)
        | inr z ↦
            elim (Bool-cases (length samples == 0 || f.le config.filter_gain (f.decimal 0 0))) [
              | inl c ↦
                  result_is P call _ t (rw (z, c, transmit_audio, condition_audio) refl) e
                    (failed-IsSafe outside ptt ptt p.heard sent config.lead_ms config.tail_ms p off)
              | inr c ↦ elim (Bool-cases keyed.1) [
                | inr d ↦
                    result_is P call _ t (rw (z, c, d, transmit_audio, condition_audio) refl) e (
                      failed-IsSafe outside ptt keyed.0 p.heard sent config.lead_ms config.tail_ms p
                        (ap transmits (ptt_set-failed ptt true outside.keyed d) ∙ off))
                | inl d ↦
                    release-play-IsSafe outside opened ptt p sent config.lead_ms config.tail_ms t d
                      (sym (
                          let same : call
                              ≡ release outside (
                                  play outside opened config.lead_ms config.tail_ms sent keyed.0
                                    p) =
                            rw (z, c, d, transmit_audio, condition_audio) refl in
                          same)
                        ∙ e)
              ]
            ]
      ]

-- Interruptions, then a nap for the whole delay that is left.
pub data Ends : List Nap → Type 0 where
  sleeps : (naps : List Nap) → Ends (whole_delay ∷ naps)
  goes_on : (elapsed : ℕ) (naps : List Nap) → Ends naps → Ends (interrupted elapsed ∷ naps)

sleep_for-Ends :
    (delay : ℕ) (naps : List Nap) (slept : ℕ)
    → Ends naps
    → (n : ℕ) × (sleep_for delay naps slept ≡ some (true, n))
unfolding sleep_for
sleep_for-Ends delay naps' slept (sleeps naps) = (slept + delay, refl)
sleep_for-Ends delay naps' slept (goes_on elapsed naps given) =
    sleep_for-Ends (delay - elapsed) naps (slept + elapsed) given

-- Everything that a transmission needs of the outside.
pub record Works (outside : Outside) (count : ℕ) : Type 0 where
  pub allocated : outside.allocated ≡ true
  pub keyed : outside.keyed ≡ true
  pub lead : Ends outside.lead
  pub writes : Takes count outside.writes
  pub drained : outside.drained ≡ true
  pub prepared : outside.prepared ≡ true
  pub tail : Ends outside.tail
  pub released : outside.released ≡ true

play-Works :
    (outside : Outside) (lead_ms tail_ms : ℕ) (sent : List ℕ) (ptt : Ptt) (p : Playback ℕ)
    → Works outside (length sent)
    → (t : Transmission) × (play outside true lead_ms tail_ms sent ptt p ≡ some t)
      × (t.success ≡ true)
      × (t.ptt ≡ ptt)
unfolding play after_lead after_wait audio_wait
play-Works outside lead_ms tail_ms sent ptt p works =
    let (n, lead) =
      sleep_for-Ends (lead_ms / 1000 * 1000000000 + lead_ms % 1000 * 1000000) outside.lead 0
        works.lead in
    let (m, tail) =
      sleep_for-Ends (tail_ms / 1000 * 1000000000 + tail_ms % 1000 * 1000000) outside.tail 0
        works.tail in
    let (p', sends) = (audio_send-heard true sent outside.writes p).1 refl works.writes in
    (
      record { success = true; ptt = ptt; playback = p'; moments = all_moments ptt sent n m },
      rw (lead, sends, works.drained, works.prepared, tail, play, after_lead, after_wait) refl,
      refl,
      refl,
    )

module _ {F : Type 0} ⦃f : Float F⦄ (float_of : ℕ → F) (lrint : F → ℕ) where
  -- A call with a line and an open device, a positive gain and at least one sample succeeds if
  -- everything outside works: memory, both writes to the line, pauses that are interrupted but not
  -- refused, and a device that takes all samples and drains.
  pub transmit_audio-Works :
      (outside : Outside) (ptt : Ptt) (p : Playback ℕ) (config : TxConfig F) (samples : List ℕ)
      → ptt.has_line ≡ true
      → 1 ≤ length samples
      → f.le config.filter_gain (f.decimal 0 0) ≡ false
      → Works outside (length samples)
      → (t : Transmission) × (transmit_audio float_of lrint outside true ptt p config samples
          ≡ some t)
        × (t.success ≡ true)
  unfolding transmit_audio condition_audio release
  transmit_audio-Works outside ptt p config samples line some_samples gain works =
      let sent = condition_from float_of lrint config samples 0 (length samples) in
      let count = length-condition_from float_of lrint config samples 0 (length samples) in
      let keyed = ptt_set ptt true outside.keyed in
      let empty : (length samples == 0) ≡ false = ground arith in
      let (t, plays, success, held) =
        play-Works outside config.lead_ms config.tail_ms sent keyed.0 p
          (subst (λ n. Works outside n) (sym count) works) in
      let set = ptt_set-written ptt true outside.keyed line works.keyed in
      let has_line = ap (λ l. l.has_line) held ∙ (ptt_set-on ptt outside.keyed set).1 in
      let off = ptt_set-written t.ptt false outside.released has_line works.released in
      (
        record t {
          ptt = (ptt_set t.ptt false outside.released).0;
          success = t.success && (ptt_set t.ptt false outside.released).1;
        },
        rw (empty, works.allocated, gain, set, plays, transmit_audio, condition_audio, release)
            refl,
        rw (success, off) refl,
      )
