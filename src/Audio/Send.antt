-- ===== src/Audio/Send.antt =====
-- What playback gives to the device: all samples in order, and how long it can take.
use reticulum_tnc.Base.{
  ℕ, suc, ◌+◌, ◌≤◌, List, [], ◌∷◌, ◌++◌, append-nil, append_assoc, length, take, drop, take_all,
  take_add, drop_add, ltb, Bool-cases, ◌≡◌, refl, sym, ap, ◌∙◌, inl, inr, Bool, true, false, Option,
  some, arith,
}
use reticulum_tnc.Audio.{Write, took, underrun, failed, Playback, hear, xrun, send_from, audio_send}

-- Answers that keep a writer waiting at most: each takes some of the samples, and the others are errors
-- that can be recovered. `Takes n answers` counts the ones that take.
pub data Takes : ℕ → List Write → Type 0 where
  no_answers : Takes 0 []
  takes :
      (n k : ℕ) (answers : List Write) → Takes n answers → Takes (suc n) (took (suc k) ∷ answers)
  underruns : (n : ℕ) (answers : List Write) → Takes n answers → Takes n (underrun ∷ answers)
  recovers : (n : ℕ) (answers : List Write) → Takes n answers → Takes n (failed true ∷ answers)

module _ {S : Type 0} where
  -- What is heard after the loop: all that was left of the samples, or after a failure a first part of
  -- it.
  abbrev IsHeard : List S → ℕ → Playback S → Bool → Playback S → Type 0
  IsHeard samples offset p done p' =
      (n : ℕ) × (p'.heard ≡ p.heard ++ take n (drop offset samples))
      × (done ≡ true → length samples ≤ offset + n)

  IsHeard-stopped :
      (samples : List S) (offset : ℕ) (p : Playback S) (out : Option (Bool × Playback S))
      (stopped done : Bool) (p' : Playback S)
      → (stopped ≡ true → length samples ≤ offset)
      → out ≡ some (stopped, p)
      → out ≡ some (done, p')
      → IsHeard samples offset p done p'
  IsHeard-stopped samples offset p out stopped done p' h d e =
      (0, ground (arith, append-nil p.heard), ground arith)

  IsHeard-took :
      (samples : List S) (offset k : ℕ) (p : Playback S) (done : Bool) (p' : Playback S)
      → IsHeard samples (offset + k) (hear p (take k (drop offset samples))) done p'
      → IsHeard samples offset p done p'
  IsHeard-took samples offset k p done p' (n, h, all) = (
    k + n,
    h
        ∙ append_assoc p.heard (take k (drop offset samples)) (take n (drop (offset + k) samples))
        ∙ ap (λ r. p.heard ++ r)
            (ap (λ r. take k (drop offset samples) ++ take n r) (drop_add offset k samples)
              ∙ sym (take_add k n (drop offset samples))),
    λ e. let less = all e in omega arith,
  )

  send_from-hears :
      (samples : List S) (offset : ℕ) (answers : List Write) (p : Playback S) (done : Bool)
      (p' : Playback S)
      → send_from samples offset answers p ≡ some (done, p')
      → IsHeard samples offset p done p'
  unfolding send_from
  send_from-hears samples offset [] p done p' e = elim (Bool-cases (ltb offset (length samples))) [
    | inl t ↦ absurd (ground arith)
    | inr t ↦
        IsHeard-stopped samples offset p (send_from samples offset [] p) true done p'
          (λ h. ground arith) (rw (t, send_from) refl) e
  ]
  send_from-hears samples offset (took k ∷ answers) p done p' e =
      elim (Bool-cases (ltb offset (length samples))) [
        | inl t ↦ IsHeard-took samples offset k p done p' (
            send_from-hears samples (offset + k) answers (hear p (take k (drop offset samples)))
              done p' (sym (rw (t, send_from) refl) ∙ e))
        | inr t ↦
            IsHeard-stopped samples offset p (send_from samples offset (took k ∷ answers) p) true
              done p' (λ h. ground arith) (rw (t, send_from) refl) e
      ]
  send_from-hears samples offset (underrun ∷ answers) p done p' e =
      elim (Bool-cases (ltb offset (length samples))) [
        | inl t ↦
            send_from-hears samples offset answers (xrun p) done p'
              (sym (rw (t, send_from) refl) ∙ e)
        | inr t ↦
            IsHeard-stopped samples offset p (send_from samples offset (underrun ∷ answers) p) true
              done p' (λ h. ground arith) (rw (t, send_from) refl) e
      ]
  send_from-hears samples offset (failed true ∷ answers) p done p' e =
      elim (Bool-cases (ltb offset (length samples))) [
        | inl t ↦
            send_from-hears samples offset answers (xrun p) done p'
              (sym (rw (t, send_from) refl) ∙ e)
        | inr t ↦
            IsHeard-stopped samples offset p (send_from samples offset (failed true ∷ answers) p)
              true done p' (λ h. ground arith) (rw (t, send_from) refl) e
      ]
  send_from-hears samples offset (failed false ∷ answers) p done p' e =
      elim (Bool-cases (ltb offset (length samples))) [
        | inl t ↦
            IsHeard-stopped samples offset p (send_from samples offset (failed false ∷ answers) p)
              false done p' (λ h. absurd (ground arith)) (rw (t, send_from) refl) e
        | inr t ↦
            IsHeard-stopped samples offset p (send_from samples offset (failed false ∷ answers) p)
              true done p' (λ h. ground arith) (rw (t, send_from) refl) e
      ]

  send_from-end :
      (samples : List S) (offset : ℕ) (answers : List Write) (p : Playback S)
      → ltb offset (length samples) ≡ false
      → send_from samples offset answers p ≡ some (true, p)
  unfolding send_from
  send_from-end samples offset [] p t = rw (t, send_from) refl
  send_from-end samples offset (took k ∷ answers) p t = rw (t, send_from) refl
  send_from-end samples offset (underrun ∷ answers) p t = rw (t, send_from) refl
  send_from-end samples offset (failed recovered ∷ answers) p t = rw (t, send_from) refl

  -- With enough answers that take something, the loop ends with success.
  send_from-Takes :
      (samples : List S) (offset m : ℕ) (answers : List Write) (p : Playback S)
      → Takes m answers
      → length samples ≤ offset + m
      → (p' : Playback S) × (send_from samples offset answers p ≡ some (true, p'))
  unfolding send_from
  send_from-Takes samples offset m' answers' p no_answers h =
      (p, send_from-end samples offset [] p (ground arith))
  send_from-Takes samples offset m' answers' p (takes m k answers given) h =
      elim (Bool-cases (ltb offset (length samples))) [
        | inl t ↦
            let rest =
              send_from-Takes samples (offset + suc k) m answers
                (hear p (take (suc k) (drop offset samples))) given (omega arith) in
            (rest.0, rw (t, send_from) rest.1)
        | inr t ↦ (p, send_from-end samples offset (took (suc k) ∷ answers) p t)
      ]
  send_from-Takes samples offset m' answers' p (underruns m answers given) h =
      elim (Bool-cases (ltb offset (length samples))) [
        | inl t ↦
            let rest = send_from-Takes samples offset m answers (xrun p) given h in
            (rest.0, rw (t, send_from) rest.1)
        | inr t ↦ (p, send_from-end samples offset (underrun ∷ answers) p t)
      ]
  send_from-Takes samples offset m' answers' p (recovers m answers given) h =
      elim (Bool-cases (ltb offset (length samples))) [
        | inl t ↦
            let rest = send_from-Takes samples offset m answers (xrun p) given h in
            (rest.0, rw (t, send_from) rest.1)
        | inr t ↦ (p, send_from-end samples offset (failed true ∷ answers) p t)
      ]

  audio_send-hears :
      (opened : Bool) (samples : List S) (answers : List Write) (p : Playback S) (done : Bool)
      (p' : Playback S)
      → audio_send opened samples answers p ≡ some (done, p')
      → IsHeard samples 0 p done p'
  unfolding audio_send
  audio_send-hears false samples answers p done p' e =
      IsHeard-stopped samples 0 p (audio_send false samples answers p) false done p'
        (λ h. absurd (ground arith)) refl e
  audio_send-hears true samples answers p done p' e = send_from-hears samples 0 answers p done p' e

  -- A call that returns has given the device all samples, each once and in order, if it reports
  -- success, and else a first part of them; a call on an open device returns, with success, if ALSA
  -- takes at least one frame in as many answers as there are samples, and its other answers are errors
  -- that can be recovered.
  pub audio_send-heard :
      (opened : Bool) (samples : List S) (answers : List Write) (p : Playback S)
      → ((done : Bool) (p' : Playback S)
          → audio_send opened samples answers p ≡ some (done, p')
          → (n : ℕ) × (p'.heard ≡ p.heard ++ take n samples)
            × (done ≡ true → p'.heard ≡ p.heard ++ samples))
        × (opened ≡ true
            → Takes (length samples) answers
            → (p' : Playback S) × (audio_send opened samples answers p ≡ some (true, p')))
  unfolding audio_send
  audio_send-heard opened samples answers p = (
    λ done p' e.
        let (n, h, all) = audio_send-hears opened samples answers p done p' e in
        (
          n,
          h,
          λ d. h ∙ ap (λ r. p.heard ++ r) (take_all n samples (let less = all d in omega arith)),
        ),
    λ o given.
        let (p', e) = send_from-Takes samples 0 (length samples) answers p given (omega arith) in
        (p', rw (o, audio_send) e),
  )
