-- ===== src/BurstDetector/Pause.antt =====
-- The pause after a burst.
use reticulum_tnc.Base.{
  ◌-◌, ◌≤◌, ◌<◌, List, [], ◌∷◌, length, lt→ltb, Bool-cases, ◌≡◌, refl, sym, ap, ◌∙◌, ◌≢◌, inl, inr,
  Bool, false, none, some, arith,
}
use reticulum_tnc.Floats.{Float}
use reticulum_tnc.BurstDetector.{
  Detector, track, opens, open_burst, capture, is_finished, remember, hand_out, captured,
  detector_process_triggered, counted,
}
use reticulum_tnc.BurstDetector.Heard.{track-else}
-- What the detector gets for each sample.
use reticulum_tnc.BurstDetector.Runs.{Input, process, bursts_of}

module _ {F : Type 0} ⦃f : Float F⦄ where
  captured-paused :
      (d : Detector F) (power sample : F) (external_trigger : Bool)
      → d.active ≡ false
      → 0 < d.cooldown_samples
      → let d' = captured d power sample external_trigger in
        (d'.active ≡ false) × (d'.cooldown_samples ≡ d.cooldown_samples - 1)
  unfolding captured capture open_burst opens
  captured-paused d power sample external_trigger e pause =
      let (noise, signal, same) = track-else (counted d) power in
      let waits = lt→ltb 0 d.cooldown_samples pause in rw (same, e, waits) (refl, refl)

  process-paused :
      (d : Detector F) (input : Input F)
      → d.active ≡ false
      → 0 < d.cooldown_samples
      → let (d', out) = process d input in
        (out ≡ none) × (d'.active ≡ false) × (d.cooldown_samples - 1 ≤ d'.cooldown_samples)
  unfolding detector_process_triggered hand_out remember
  process-paused d input e pause =
      let facts =
        captured-paused d input.channel_power input.audio_sample input.external_trigger e pause in
      elim (Bool-cases (f.lt input.channel_power (f.decimal 0 0))) [
        | inl refused ↦ rw refused (refl, e, omega arith)
        | inr fine ↦ rw (fine, facts.0) (refl, refl, rw (facts.1) (omega arith))
      ]

  bursts_of-paused :
      (d : Detector F) (inputs : List (Input F))
      → d.active ≡ false
      → length inputs ≤ d.cooldown_samples
      → bursts_of d inputs ≡ []
  unfolding bursts_of
  bursts_of-paused d [] e many = refl
  bursts_of-paused d (input ∷ inputs) e many =
      let (d', out) = process d input in
      let (none_e, idle_e, left_le) = process-paused d input e (omega arith) in
      rw none_e (bursts_of-paused d' inputs idle_e (omega arith))

  capture-config : (d : Detector F) (sample : F) → (capture d sample).config ≡ d.config
  unfolding capture
  capture-config d sample = ground arith

  open_burst-config :
      (d : Detector F) (external_trigger : Bool) → (open_burst d external_trigger).config ≡ d.config
  unfolding open_burst
  open_burst-config d external_trigger = ground arith

  captured-config :
      (d : Detector F) (power sample : F) (external_trigger : Bool)
      → (captured d power sample external_trigger).config ≡ d.config
  unfolding captured
  captured-config d power sample external_trigger =
      let c = counted d in
      let (noise, signal, same) = track-else c power in
      let d' = open_burst (track c power) external_trigger in
      capture-config d' sample
      ∙ open_burst-config (track c power) external_trigger
      ∙ ap (λ t. t.config) same

  -- The sample that ends a burst leaves the detector idle, with the whole pause to come.
  process-ended :
      (d d' : Detector F) (input : Input F) (burst : List F)
      → process d input ≡ (d', some burst)
      → (d'.active ≡ false) × (d'.cooldown_samples ≡ d.config.cooldown_samples)
  unfolding detector_process_triggered hand_out remember
  process-ended d d' input burst h =
      let c = captured d input.channel_power input.audio_sample input.external_trigger in
      let config =
        captured-config d input.channel_power input.audio_sample input.external_trigger in
      elim (Bool-cases (f.lt input.channel_power (f.decimal 0 0))) [
        | inl refused ↦ absurd (none_not_some (rw refused at (ap (λ r. r.1) h)))
        | inr fine ↦ elim (Bool-cases (is_finished c)) [
          | inl over ↦ (
            sym (ap (λ r. r.0.active) (rw (fine, over) at h)),
            sym (ap (λ r. r.0.cooldown_samples) (rw (fine, over) at h))
                ∙ ap (λ k. k.cooldown_samples) config,
          )
          | inr more ↦ absurd (none_not_some (rw (fine, more) at (ap (λ r. r.1) h)))
        ]
      ]
    where
      none_not_some : {b : List F} → none ≢ some b
      none_not_some e = ground arith

  -- After a burst is handed out, the next samples, as many as the configured cooldown, end no burst,
  -- whatever they are.
  pub bursts_of_cooldown :
      (d d' : Detector F) (input : Input F) (burst : List F) (inputs : List (Input F))
      → process d input ≡ (d', some burst)
      → length inputs ≤ d.config.cooldown_samples
      → bursts_of d' inputs ≡ []
  bursts_of_cooldown d d' input burst inputs h many =
      let (idle_e, pause) = process-ended d d' input burst h in
      bursts_of-paused d' inputs idle_e (omega (arith, pause))
