-- ===== src/BurstDetector/Heard.antt =====
-- A detector and the audio that it was given.
use reticulum_tnc.Base.{
  ℕ, ◌+◌, ◌-◌, ◌≤◌, ◌<◌, min, u64, List, [], ◌∷◌, ◌++◌, append_assoc, length, drop, ltb, ◌==◌,
  Bool-cases, ◌≡◌, refl, sym, ap, ◌∙◌, ◌⊎◌, inl, inr, Bool, true, false, not, ◌&&◌, arith,
}
use reticulum_tnc.Floats.{Float}
use reticulum_tnc.Rate.{max_audio_samples}
use reticulum_tnc.Ring.Window.{length-window}
use reticulum_tnc.BurstDetector.{
  Detector, track, opens, pretrigger_from, open_burst, follows_noise, with_signal, noise_after,
}
use reticulum_tnc.BurstDetector.Recent.{
  HasCircle, recent, start, push_recent, pretrigger_from-recent,
}

-- `tail` ends `audio`.
abbrev pub Ends {ℓ} : {A : Type ℓ} → List A → List A → Type ℓ
Ends {A} tail audio = (before : List A) × (before ++ tail ≡ audio)

pub Ends-snoc {ℓ} :
    {A : Type ℓ} (tail audio : List A) (a : A)
    → Ends tail audio
    → Ends (tail ++ (a ∷ [])) (audio ++ (a ∷ []))
Ends-snoc tail audio a (before, e) =
    (before, sym (append_assoc before tail (a ∷ [])) ∙ ap (λ l. l ++ (a ∷ [])) e)

Ends-drop {ℓ} : {A : Type ℓ} (tail audio : List A) → Ends tail audio → Ends (drop 1 tail) audio
Ends-drop [] audio h = h
Ends-drop (x ∷ tail) audio (before, e) = (before ++ (x ∷ []), append_assoc before (x ∷ []) tail ∙ e)

module _ {F : Type 0} ⦃f : Float F⦄ where
  pub Ends-push_recent :
      (n : ℕ) (samples audio : List F) (sample : F)
      → Ends samples audio
      → Ends (push_recent n samples sample) (audio ++ (sample ∷ []))
  Ends-push_recent n samples audio sample h = elim (Bool-cases (ltb (length samples) n)) [
    | inl e ↦ rw e (Ends-snoc samples audio sample h)
    | inr e ↦ rw e (Ends-snoc (drop 1 samples) audio sample (Ends-drop samples audio h))
  ]

  -- A detector that was given `heard`, and whose burst, of fewer than `limit` samples, ends `taken`.
  pub record Hears (limit : ℕ) (taken heard : List F) (d : Detector F) : Type 0 where
    pub circle : HasCircle d
    pub maximum_pos : 0 < d.config.maximum_active_samples
    pub maximum_le : d.config.maximum_active_samples ≤ max_audio_samples
    pub recent_ends : Ends (recent d) heard
    pub recent_count : d.pretrigger_count ≡ min d.config.pretrigger_samples (length heard)
    pub burst_ends : d.active ≡ true → Ends d.candidate taken
    pub burst_short : d.active ≡ true → length d.candidate < limit
    pub idle_empty : d.active ≡ false → d.candidate ≡ []

  -- Between two samples.
  abbrev pub IsValid : List F → Detector F → Type 0
  IsValid heard d = Hears d.config.maximum_active_samples heard heard d

  -- Fields that the invariant does not read.
  pub Hears-else :
      (limit : ℕ) (taken heard : List F) (d : Detector F) (seen cooldown : ℕ) (noise signal : F)
      → Hears limit taken heard d
      → Hears limit taken heard (record d {
        samples_seen = seen;
        cooldown_samples = cooldown;
        noise_power = noise;
        signal_power = signal;
      })
  Hears-else limit taken heard d seen cooldown noise signal v = record {
    circle = v.circle;
    maximum_pos = v.maximum_pos;
    maximum_le = v.maximum_le;
    recent_ends = v.recent_ends;
    recent_count = v.recent_count;
    burst_ends = v.burst_ends;
    burst_short = v.burst_short;
    idle_empty = v.idle_empty;
  }

  -- Counting a sample and following the powers leaves the rest.
  pub track-else :
      (d : Detector F) (power : F)
      → (noise : F) × (signal : F) × (track d power
          ≡ record d { noise_power = noise; signal_power = signal })
  unfolding track
  track-else d power = elim (Bool-cases (d.samples_seen == 1)) [
    | inl e ↦ (power, power, rw (e, track) refl)
    | inr e ↦
        let d' = with_signal d power in
        elim (Bool-cases (follows_noise d')) [
          | inl e' ↦ (noise_after d' power, d'.signal_power, rw (e, e', track) refl)
          | inr e' ↦ (d.noise_power, d'.signal_power, rw (e, e', track) refl)
        ]
  ]

  opened : Detector F → Detector F
  opened d = record d {
    candidate = pretrigger_from d 0 d.pretrigger_count;
    active = true;
    quiet_samples = 0;
    detected_bursts = u64 (d.detected_bursts + 1);
  }

  opens-idle :
      (d : Detector F) (external_trigger : Bool)
      → opens d external_trigger ≡ true
      → d.active ≡ false
  unfolding opens
  opens-idle d external_trigger h = ground arith

  open_burst-cases :
      (d : Detector F) (external_trigger : Bool)
      → (open_burst d external_trigger ≡ record d { cooldown_samples = d.cooldown_samples - 1 })
        ⊎ (((d.active ≡ false) × (open_burst d external_trigger ≡ opened d))
            ⊎ (open_burst d external_trigger ≡ d))
  unfolding open_burst opened
  open_burst-cases d external_trigger =
      elim (Bool-cases (not d.active && ltb 0 d.cooldown_samples)) [
        | inl e ↦ inl (rw (e, open_burst) refl)
        | inr e ↦ elim (Bool-cases (opens d external_trigger)) [
          | inl e' ↦ inr (inl (opens-idle d external_trigger e', rw (e, e', open_burst) refl))
          | inr e' ↦ inr (inr (rw (e, e', open_burst) refl))
        ]
      ]

  Hears-longer :
      (heard : List F) (d : Detector F) → IsValid heard d → Hears max_audio_samples heard heard d
  Hears-longer heard d v = record {
    circle = v.circle;
    maximum_pos = v.maximum_pos;
    maximum_le = v.maximum_le;
    recent_ends = v.recent_ends;
    recent_count = v.recent_count;
    burst_ends = v.burst_ends;
    burst_short = λ e. let short = v.burst_short e in omega (arith, short, v.maximum_le);
    idle_empty = v.idle_empty;
  }

  -- The samples that open a burst are those of the circle, and there is room for one more.
  opened-Hears :
      (heard : List F) (d : Detector F)
      → IsValid heard d
      → Hears max_audio_samples heard heard (opened d)
  unfolding opened
  opened-Hears heard d v =
      let same = pretrigger_from-recent d in
      let size =
        length-window (f.decimal 0 0) d.config.pretrigger_samples d.pretrigger (start d)
          d.pretrigger_count in
      record {
        circle = v.circle;
        maximum_pos = v.maximum_pos;
        maximum_le = v.maximum_le;
        recent_ends = v.recent_ends;
        recent_count = v.recent_count;
        burst_ends = λ _. rw same v.recent_ends;
        burst_short = λ _. rw (same, size) (let c = v.circle in omega (arith, c.count_le, c.small));
        idle_empty = λ e. absurd (ground arith);
      }

  pub open_burst-Hears :
      (heard : List F) (d : Detector F) (external_trigger : Bool)
      → IsValid heard d
      → Hears max_audio_samples heard heard (open_burst d external_trigger)
  open_burst-Hears heard d external_trigger v = elim (open_burst-cases d external_trigger) [
    | inl e ↦ rw e (
        Hears-else max_audio_samples heard heard d d.samples_seen (d.cooldown_samples - 1)
          d.noise_power d.signal_power (Hears-longer heard d v))
    | inr (inl (_, e)) ↦ rw e (opened-Hears heard d v)
    | inr (inr e) ↦ rw e (Hears-longer heard d v)
  ]
  -- A sample of audio ends a burst that is active.
