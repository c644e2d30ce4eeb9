-- ===== src/Transmitter/Filter.antt =====
-- The filter is a convolution with its taps, cut off at both ends of the waveform.
use reticulum_tnc.Base.{
  false, ℕ, zero, suc, ◌+◌, ◌-◌, ◌≤◌, ◌<◌, List, length, get_or, ltb, leb, ◌==◌, min, Bool-cases,
  ◌≡◌, refl, sym, ap, ◌∙◌, inl, inr, some, arith,
}
use reticulum_tnc.Floats.{Float}
use reticulum_tnc.Config.{TxConfig}
use reticulum_tnc.Transmitter.{
  clamp_sample, apply_from, eq_apply_sample, condition_from, condition_audio,
}

module _ {F : Type 0} ⦃f : Float F⦄ (float_of : ℕ → F) where
  -- The sum of `left` products, from the sample before `top` downwards: the sample at a distance from
  -- `index` meets the tap at that distance from the middle one, tap 8, on the other side.
  unfoldable pub sum_down : List F → List ℕ → ℕ → ℕ → ℕ → F → F
  sum_down taps samples index top zero sum = sum
  sum_down taps samples index top (suc left) sum = sum_down taps samples index (top - 1) left (
      f.add sum (
        f.mul (get_or taps (index + 9 - top) (f.decimal 0 0))
          (float_of (get_or samples (top - 1) 0))))

  -- The convolution at `index`: over the samples that are at most eight away, and no others; all of them
  -- are samples of the waveform.
  unfoldable pub convolution : List F → List ℕ → ℕ → F
  convolution taps samples index =
      let top = min (index + 9) (length samples) in
      sum_down taps samples index top (top - (index - 8)) (f.decimal 0 0)

  -- What is left of the sum at the tap `tap`.
  abbrev top_at : List ℕ → ℕ → ℕ → ℕ
  top_at samples index tap = min (index + 9 - tap) (length samples)

  sum_down_step :
      (taps : List F) (samples : List ℕ) (index top next left n tap j : ℕ) (sum : F)
      → left ≡ suc n
      → top - 1 ≡ next
      → index + 9 - top ≡ tap
      → top - 1 ≡ j
      → sum_down taps samples index top left sum
        ≡ sum_down taps samples index next n
            (f.add sum (f.mul (get_or taps tap (f.decimal 0 0)) (float_of (get_or samples j 0))))
  unfolding sum_down
  sum_down_step taps samples index top next left n tap j sum one_more lower which place =
      rw one_more (λ i. sum_down taps samples index (lower i) n (
        f.add sum
          (f.mul (get_or taps (which i) (f.decimal 0 0)) (float_of (get_or samples (place i) 0)))))

  sum_down_done :
      (taps : List F) (samples : List ℕ) (index top left : ℕ) (sum : F)
      → left ≡ 0
      → sum_down taps samples index top left sum ≡ sum
  unfolding sum_down
  sum_down_done taps samples index top left sum e = rw e refl

  apply_from-sum_down :
      (taps : List F) (samples : List ℕ) (index tap left : ℕ) (sum : F)
      → tap + left ≡ 17
      → index < length samples
      → apply_from float_of taps samples index tap left sum
        ≡ sum_down taps samples index
            (top_at samples index tap)
            (top_at samples index tap - (index - 8))
            sum
  unfolding apply_from
  apply_from-sum_down taps samples index tap zero sum e h = sym (
      sum_down_done taps samples index (top_at samples index tap)
        (top_at samples index tap - (index - 8)) sum (omega arith))
  apply_from-sum_down taps samples index tap (suc left) sum e h =
      let top = top_at samples index tap in
      let next = top_at samples index (tap + 1) in
      let lowest = index - 8 in
      let rest =
        λ (sum' : F). apply_from-sum_down taps samples index (tap + 1) left sum' (omega arith) h in
      elim (Bool-cases (leb (tap - 8) index)) [
        | inr t ↦
            let over : index < tap - 8 = ground arith in
            rw t (
              rest sum
              ∙ sum_down_done taps samples index next (next - lowest) sum (omega arith)
              ∙ sym (sum_down_done taps samples index top (top - lowest) sum (omega arith)))
        | inl t ↦ elim (Bool-cases (ltb (index + (8 - tap)) (length samples))) [
          | inr u ↦
              let after : length samples ≤ index + (8 - tap) = ground arith in
              let same : next ≡ top = omega arith in
              rw (t, u) (rest sum ∙ ap (λ k. sum_down taps samples index k (k - lowest) sum) same)
          | inl u ↦
              let low : tap - 8 ≤ index = ground arith in
              let inside : index + (8 - tap) < length samples = ground arith in
              let j = index + (8 - tap) - (tap - 8) in
              rw (t, u)
                (rest (
                    f.add sum
                      (f.mul (get_or taps tap (f.decimal 0 0)) (float_of (get_or samples j 0))))
                  ∙ sym (
                      sum_down_step taps samples index top next (top - lowest) (next - lowest) tap j
                        sum (omega arith) (omega arith) (omega arith) (omega arith)))
        ]
      ]

  eq_apply_sample-convolution :
      (taps : List F) (samples : List ℕ) (index : ℕ)
      → index < length samples
      → eq_apply_sample float_of taps samples index ≡ convolution taps samples index
  unfolding eq_apply_sample convolution
  eq_apply_sample-convolution taps samples index h =
      let inside : leb (length samples) index ≡ false = ground arith in
      let start : index + 9 - 0 ≡ index + 9 = omega arith in
      rw inside (rw start at (apply_from-sum_down taps samples index 0 17 (f.decimal 0 0) refl h))

module _ {F : Type 0} ⦃f : Float F⦄ (float_of : ℕ → F) (lrint : F → ℕ) where
  abbrev sample_at : TxConfig F → List ℕ → ℕ → ℕ
  sample_at config input index =
      clamp_sample lrint
        (f.mul config.filter_gain (eq_apply_sample float_of config.response_eq_taps input index))

  get_or-condition_from :
      (config : TxConfig F) (input : List ℕ) (index left i j : ℕ)
      → i < left
      → index + i ≡ j
      → get_or (condition_from float_of lrint config input index left) i 0
        ≡ sample_at config input j
  unfolding condition_from
  get_or-condition_from config input index zero i j h e = absurd (omega arith)
  get_or-condition_from config input index (suc left) zero j h e =
      ap (λ k. sample_at config input k) (omega arith)
  get_or-condition_from config input index (suc left) (suc i) j h e =
      get_or-condition_from config input (index + 1) left i j (omega arith) (omega arith)

  pub length-condition_from :
      (config : TxConfig F) (input : List ℕ) (index left : ℕ)
      → length (condition_from float_of lrint config input index left) ≡ left
  unfolding condition_from
  length-condition_from config input index zero = refl
  length-condition_from config input index (suc left) =
      ap suc (length-condition_from config input (index + 1) left)

  -- A waveform is conditioned, if it has a sample and the gain is not 0 or below, into one of the same
  -- length. Each of its samples is the convolution with the taps around the sample at the same place,
  -- times the gain, as 16 bits: a tap meets the samples of the waveform at its distance from the
  -- middle, and what would stand before the first sample or behind the last one is left out of the sum.
  pub condition_audio-convolution :
      (config : TxConfig F) (input : List ℕ)
      → 1 ≤ length input
      → f.le config.filter_gain (f.decimal 0 0) ≡ false
      → (out : List ℕ) × (condition_audio float_of lrint config input ≡ some out)
        × (length out ≡ length input)
        × ((i : ℕ)
            → i < length input
            → get_or out i 0
              ≡ clamp_sample lrint
                  (f.mul config.filter_gain (convolution float_of config.response_eq_taps input i)))
  unfolding condition_audio
  condition_audio-convolution config input some_samples gain =
      let empty : (length input == 0) ≡ false = ground arith in
      (
        condition_from float_of lrint config input 0 (length input),
        rw (empty, gain) refl,
        length-condition_from config input 0 (length input),
        λ i h.
            get_or-condition_from config input 0 (length input) i i h (omega arith)
            ∙ ap (λ y. clamp_sample lrint (f.mul config.filter_gain y))
                (eq_apply_sample-convolution float_of config.response_eq_taps input i h),
      )
