-- ===== src/BurstDetector/Runs.antt =====
-- Runs of calls and the bursts that they hand out.
use reticulum_tnc.Base.{
  suc, ◌+◌, ◌≤◌, ◌<◌, List, [], ◌∷◌, ◌++◌, append_assoc, length, length-append, length-replicate,
  if◌then◌else◌, lt→ltb, Bool-cases, ◌≡◌, refl, sym, ap, subst, ◌∙◌, ◌≢◌, ◌⊎◌, inl, inr, Bool, true,
  false, not, Option, none, some, arith,
}
use reticulum_tnc.Floats.{Float}
use reticulum_tnc.Rate.{max_audio_samples}
use reticulum_tnc.BurstDetector.{
  DetectorConfig, Detector, max_pretrigger_samples, counts_invalid, cleared, detector_init, opens,
  open_burst, capture, is_finished, remember, hand_out, captured, detector_process_triggered,
  counted,
}
use reticulum_tnc.BurstDetector.Heard.{Ends, IsValid, track-else}
use reticulum_tnc.BurstDetector.Bursts.{process-IsValid}

-- What the detector gets for each sample.

pub record Input (F : Type 0) : Type 0 where
  pub channel_power : F
  pub audio_sample : F
  pub external_trigger : Bool

-- `part` is a stretch of `audio`.
abbrev pub IsStretch {ℓ} : {A : Type ℓ} → List A → List A → Type ℓ
IsStretch {A} part audio =
    (before : List A) × (after : List A) × (before ++ (part ++ after) ≡ audio)

module _ {F : Type 0} ⦃f : Float F⦄ where
  abbrev pub is_accepted : Input F → Bool
  is_accepted input = not (f.lt input.channel_power (f.decimal 0 0))

  abbrev pub process : Detector F → Input F → Detector F × Option (List F)
  process d input =
      detector_process_triggered d input.channel_power input.audio_sample input.external_trigger

  -- The audio of the samples that the detector does not refuse.
  unfoldable pub heard_of : List (Input F) → List F
  heard_of [] = []
  heard_of (input ∷ inputs) =
      let rest = heard_of inputs in if is_accepted input then input.audio_sample ∷ rest else rest

  abbrev with_burst : Option (List F) → List (List F) → List (List F)
  with_burst none bursts = bursts
  with_burst (some burst) bursts = burst ∷ bursts

  -- The bursts that a run hands out.
  unfoldable pub bursts_of : Detector F → List (Input F) → List (List F)
  bursts_of d [] = []
  bursts_of d (input ∷ inputs) =
      let (d', out) = process d input in with_burst out (bursts_of d' inputs)

  -- Every burst is a stretch of `audio` that fits the modem.
  abbrev pub AllStretches : List (List F) → List F → Type 0
  AllStretches [] audio = Unit {0}
  AllStretches (burst ∷ bursts) audio =
      IsStretch burst audio × (length burst ≤ max_audio_samples) × AllStretches bursts audio

  with_burst-stretches :
      (out : Option (List F)) (bursts : List (List F)) (taken later : List F)
      → ((burst : List F)
          → out ≡ some burst
          → Ends burst taken × (length burst ≤ max_audio_samples))
      → AllStretches bursts (taken ++ later)
      → AllStretches (with_burst out bursts) (taken ++ later)
  with_burst-stretches none bursts taken later h rest = rest
  with_burst-stretches (some burst) bursts taken later h rest =
      let ((before, e), size) = h burst refl in
      let joined = sym (append_assoc before burst later) ∙ ap (λ l. l ++ later) e in
      ((before, later, joined), size, rest)

  process-refused :
      (d : Detector F) (input : Input F) → is_accepted input ≡ false → process d input ≡ (d, none)
  unfolding detector_process_triggered
  process-refused d input h =
      let e : f.lt input.channel_power (f.decimal 0 0) ≡ true = ground arith in rw e refl

  bursts_of-stretches :
      (heard : List F) (d : Detector F) (inputs : List (Input F))
      → IsValid heard d
      → AllStretches (bursts_of d inputs) (heard ++ heard_of inputs)
  unfolding bursts_of heard_of
  bursts_of-stretches heard d [] v = tt
  bursts_of-stretches heard d (input ∷ inputs) v = elim (Bool-cases (is_accepted input)) [
    | inr e ↦ simp (e, process-refused d input e) (bursts_of-stretches heard d inputs v)
    | inl e ↦
        let (d', out) = process d input in
        let taken = heard ++ (input.audio_sample ∷ []) in
        let facts =
          process-IsValid heard d input.channel_power input.audio_sample input.external_trigger v
            (ground arith) in
        let same : taken ++ heard_of inputs ≡ heard ++ (input.audio_sample ∷ heard_of inputs) =
          append_assoc heard (input.audio_sample ∷ []) (heard_of inputs) in
        simp e (
          subst (AllStretches (with_burst out (bursts_of d' inputs))) same (
            with_burst-stretches out (bursts_of d' inputs) taken (heard_of inputs) (facts.1)
              (bursts_of-stretches taken d' inputs (facts.0))))
  ]

  cleared-IsValid :
      (config : DetectorConfig F) → counts_invalid config ≡ false → IsValid [] (cleared config)
  unfolding cleared
  cleared-IsValid config h = record {
    circle = record {
      pos = ground arith;
      small = ground arith;
      room = length-replicate max_pretrigger_samples (f.decimal 0 0);
      write_lt = ground arith;
      count_le = omega arith;
    };
    maximum_pos = ground arith;
    maximum_le = ground arith;
    recent_ends = ([], refl);
    recent_count = omega arith;
    burst_ends = λ e. absurd (ground arith);
    burst_short = λ e. absurd (ground arith);
    idle_empty = λ _. refl;
  }

  pub detector_init-IsValid :
      (config : DetectorConfig F) (d : Detector F) → detector_init config ≡ some d → IsValid [] d
  unfolding detector_init
  detector_init-IsValid config d h =
      let valid : counts_invalid config ≡ false = ground arith in
      let same : cleared config ≡ d = ground arith in
      subst (IsValid []) same (cleared-IsValid config valid)

  -- Whatever an initialized detector is given, each burst that it hands out is a stretch of the audio
  -- of the samples that it did not refuse for a negative power, without gaps, of at most 90000 samples.
  pub bursts_of-init :
      (config : DetectorConfig F) (d : Detector F) (inputs : List (Input F))
      → detector_init config ≡ some d
      → AllStretches (bursts_of d inputs) (heard_of inputs)
  bursts_of-init config d inputs h =
      bursts_of-stretches [] d inputs (detector_init-IsValid config d h)

  -- A sample of an active burst: it is stored, whatever the trigger says.
  captured-active :
      (d : Detector F) (power sample : F) (external_trigger : Bool)
      → d.active ≡ true
      → length d.candidate < max_audio_samples
      → let d' = captured d power sample external_trigger in
        (d'.active ≡ true) × (d'.candidate ≡ d.candidate ++ (sample ∷ [])) × (d'.config ≡ d.config)
  unfolding captured capture open_burst opens
  captured-active d power sample external_trigger e short =
      let (noise, signal, same) = track-else (counted d) power in
      let more = lt→ltb (length d.candidate) max_audio_samples short in
      rw (same, e, more) (refl, refl, refl)

  -- A burst goes on, or is handed out.
  process-active :
      (d : Detector F) (input : Input F)
      → d.active ≡ true
      → length d.candidate < max_audio_samples
      → is_accepted input ≡ true
      → let (d', out) = process d input in
        ((burst : List F) × (out ≡ some burst))
        ⊎ ((out ≡ none)
            × (d'.active ≡ true)
            × (length d'.candidate ≡ suc (length d.candidate))
            × (d'.config ≡ d.config))
  unfolding detector_process_triggered hand_out remember
  process-active d input e short accepted =
      let c = captured d input.channel_power input.audio_sample input.external_trigger in
      let facts =
        captured-active d input.channel_power input.audio_sample input.external_trigger e short in
      let fine : f.lt input.channel_power (f.decimal 0 0) ≡ false = ground arith in
      elim (Bool-cases (is_finished c)) [
        | inl over ↦ inl (c.candidate, rw (fine, over) refl)
        | inr more ↦ inr (
          rw (fine, more) refl,
          rw (fine, more) (facts.0),
          rw (fine, more, facts.1)
              (omega (arith, length-append d.candidate (input.audio_sample ∷ []))),
          rw (fine, more) (facts.2),
        )
      ]

  -- Every sample is accepted.
  abbrev pub AllAccepted : List (Input F) → Type 0
  AllAccepted [] = Unit {0}
  AllAccepted (input ∷ inputs) = (is_accepted input ≡ true) × AllAccepted inputs

  -- While a burst is active, the detector hands one out before it has taken as many more accepted samples
  -- as are left to the configured maximum, whatever they are: it does not stay active.
  pub bursts_of_active :
      (heard : List F) (d : Detector F) (inputs : List (Input F))
      → IsValid heard d
      → d.active ≡ true
      → AllAccepted inputs
      → d.config.maximum_active_samples ≤ length d.candidate + length inputs
      → bursts_of d inputs ≢ []
  unfolding bursts_of
  bursts_of_active heard d [] v e accepted many =
      let short = v.burst_short e in absurd (omega arith)
  bursts_of_active heard d (input ∷ inputs) v e (accepted, rest) many =
      let (d', out) = process d input in
      let short = v.burst_short e in
      let next =
        process-IsValid heard d input.channel_power input.audio_sample input.external_trigger v
          (ground arith) in
      elim (process-active d input e (let top = v.maximum_le in omega arith) accepted) [
        | inl (burst, some_e) ↦ λ none_e.
            cons_not_nil (subst (λ o. with_burst o (bursts_of d' inputs) ≡ []) some_e none_e)
        | inr (none_e, active, size, config) ↦ λ nil_e.
            bursts_of_active (heard ++ (input.audio_sample ∷ [])) d' inputs (next.0) active rest
              (rw config (omega arith))
              (subst (λ o. with_burst o (bursts_of d' inputs) ≡ []) none_e nil_e)
      ]
    where
      cons_not_nil : {x : List F} {xs : List (List F)} → x ∷ xs ≢ []
      cons_not_nil e = ground arith
      -- A sample in the pause after a burst.
