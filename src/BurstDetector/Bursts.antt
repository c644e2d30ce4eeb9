-- ===== src/BurstDetector/Bursts.antt =====
-- What the detector hands out: a stretch of the audio that it was given, cut off at the present sample.
use reticulum_tnc.Base.{
  ℕ, suc, ◌+◌, ◌≤◌, u64, List, [], ◌∷◌, ◌++◌, length, length-append, lt→ltb, Bool-cases, ◌≡◌, refl,
  sym, subst, inl, inr, Bool, true, false, some, arith,
}
use reticulum_tnc.Floats.{Float}
use reticulum_tnc.Rate.{max_audio_samples}
use reticulum_tnc.BurstDetector.{
  Detector, track, open_burst, capture, is_finished, remember, hand_out, captured,
  detector_process_triggered, counted,
}
use reticulum_tnc.BurstDetector.Recent.{recent, recent-remember, remember-HasCircle}
use reticulum_tnc.BurstDetector.Heard.{
  Ends, Ends-snoc, Ends-push_recent, Hears, IsValid, Hears-else, track-else, open_burst-Hears,
}

module _ {F : Type 0} ⦃f : Float F⦄ where
  capture-Hears :
      (heard : List F) (d : Detector F) (sample : F)
      → Hears max_audio_samples heard heard d
      → Hears (suc max_audio_samples) (heard ++ (sample ∷ [])) heard (capture d sample)
  unfolding capture
  capture-Hears heard d sample v = elim (Bool-cases d.active) [
    | inl e ↦
        let more = lt→ltb (length d.candidate) max_audio_samples (v.burst_short e) in
        rw (e, more)
          (record {
            circle = v.circle;
            maximum_pos = v.maximum_pos;
            maximum_le = v.maximum_le;
            recent_ends = v.recent_ends;
            recent_count = v.recent_count;
            burst_ends = λ _. Ends-snoc d.candidate heard sample (v.burst_ends e);
            burst_short = λ _.
                let short = v.burst_short e in
                omega (arith, short, length-append d.candidate (sample ∷ []));
            idle_empty = λ e'. absurd (ground arith);
          })
    | inr e ↦ rw e (record {
      circle = v.circle;
      maximum_pos = v.maximum_pos;
      maximum_le = v.maximum_le;
      recent_ends = v.recent_ends;
      recent_count = v.recent_count;
      burst_ends = λ e'. absurd (ground arith);
      burst_short = λ e'. absurd (ground arith);
      idle_empty = λ _. v.idle_empty e;
    })
  ]

  remember-Hears :
      (limit : ℕ) (taken heard : List F) (d : Detector F) (sample : F)
      → Hears limit taken heard d
      → Hears limit taken (heard ++ (sample ∷ [])) (remember d sample)
  unfolding remember
  remember-Hears limit taken heard d sample v = record {
    circle = remember-HasCircle d sample v.circle;
    maximum_pos = v.maximum_pos;
    maximum_le = v.maximum_le;
    recent_ends =
        subst (λ samples. Ends samples (heard ++ (sample ∷ [])))
          (sym (recent-remember d sample v.circle))
          (Ends-push_recent d.config.pretrigger_samples (recent d) heard sample v.recent_ends);
    recent_count =
        let size = length-append heard (sample ∷ []) in let count = v.recent_count in ground arith;
    burst_ends = v.burst_ends;
    burst_short = v.burst_short;
    idle_empty = v.idle_empty;
  }

  -- A burst that has not ended is short.
  hand_out-IsValid :
      (heard : List F) (d : Detector F)
      → Hears (suc max_audio_samples) heard heard d
      → let (d', out) = hand_out d (is_finished d) in
        IsValid heard d'
        × ((burst : List F)
            → out ≡ some burst
            → Ends burst heard × (length burst ≤ max_audio_samples))
  unfolding hand_out
  hand_out-IsValid heard d v = elim (Bool-cases (is_finished d)) [
    | inl e ↦
        let alive : d.active ≡ true = ground arith in
        simp e (
          record {
            circle = v.circle;
            maximum_pos = v.maximum_pos;
            maximum_le = v.maximum_le;
            recent_ends = v.recent_ends;
            recent_count = v.recent_count;
            burst_ends = λ e'. absurd (ground arith);
            burst_short = λ e'. absurd (ground arith);
            idle_empty = λ _. refl;
          },
          λ burst h. (
            subst (λ b. Ends b heard) (let same : d.candidate ≡ burst = ground arith in same)
                (v.burst_ends alive),
            subst (λ b. length b ≤ max_audio_samples)
                (let same : d.candidate ≡ burst = ground arith in same)
                (let short = v.burst_short alive in omega arith),
          ),
        )
    | inr e ↦ simp e (
      record {
        circle = v.circle;
        maximum_pos = v.maximum_pos;
        maximum_le = v.maximum_le;
        recent_ends = v.recent_ends;
        recent_count = v.recent_count;
        burst_ends = v.burst_ends;
        burst_short = λ alive. ground arith;
        idle_empty = v.idle_empty;
      },
      λ burst h. absurd (ground arith),
    )
  ]

  captured-Hears :
      (heard : List F) (d : Detector F) (power sample : F) (external_trigger : Bool)
      → IsValid heard d
      → Hears
          (suc max_audio_samples)
          (heard ++ (sample ∷ []))
          heard
          (captured d power sample external_trigger)
  unfolding captured
  captured-Hears heard d power sample external_trigger v =
      let c = counted d in
      let (noise, signal, e) = track-else c power in
      let tracked : IsValid heard (track c power) = rw e (
        Hears-else d.config.maximum_active_samples heard heard d (u64 (d.samples_seen + 1))
          d.cooldown_samples noise signal v) in
      capture-Hears heard (open_burst (track c power) external_trigger) sample
        (open_burst-Hears heard (track c power) external_trigger tracked)

  remembered :
      (heard : List F) (c : Detector F) (sample : F)
      → Hears
          (suc max_audio_samples)
          (heard ++ (sample ∷ []))
          (heard ++ (sample ∷ []))
          (remember c sample)
      → let (d', out) = hand_out (remember c sample) (is_finished c) in
        IsValid (heard ++ (sample ∷ [])) d'
        × ((burst : List F)
            → out ≡ some burst
            → Ends burst (heard ++ (sample ∷ [])) × (length burst ≤ max_audio_samples))
  unfolding remember
  remembered heard c sample h = hand_out-IsValid (heard ++ (sample ∷ [])) (remember c sample) h

  -- One sample. A detector that was given `heard` and then gets a sample at a power that is not
  -- negative has been given both, and a burst that it hands out ends them.
  pub process-IsValid :
      (heard : List F) (d : Detector F) (power sample : F) (external_trigger : Bool)
      → IsValid heard d
      → f.lt power (f.decimal 0 0) ≡ false
      → let (d', out) = detector_process_triggered d power sample external_trigger in
        IsValid (heard ++ (sample ∷ [])) d'
        × ((burst : List F)
            → out ≡ some burst
            → Ends burst (heard ++ (sample ∷ [])) × (length burst ≤ max_audio_samples))
  unfolding detector_process_triggered
  process-IsValid heard d power sample external_trigger v e =
      let c = captured d power sample external_trigger in
      rw e (
        remembered heard c sample (
          remember-Hears (suc max_audio_samples) (heard ++ (sample ∷ [])) heard c sample
            (captured-Hears heard d power sample external_trigger v)))
