-- ===== src/Transmitter/OnAir.antt =====
-- What happens while the transmitter is on, and that it goes off.
use reticulum_tnc.Base.{
  ℕ, ◌+◌, ◌-◌, ◌*◌, ◌/◌, ◌%◌, ◌≤◌, List, [], ◌∷◌, ◌++◌, Bool-cases, Option-cases, ◌≡◌, refl, sym,
  ap, subst, ◌∙◌, inl, inr, Bool, true, false, ◌&&◌, Option, some, arith,
}
use reticulum_tnc.Ptt.{Ptt}
use reticulum_tnc.Ptt.Level.{transmits}
use reticulum_tnc.Audio.{Playback, audio_send, audio_wait}
use reticulum_tnc.Audio.Send.{audio_send-heard}
use reticulum_tnc.Transmitter.{
  Nap, whole_delay, interrupted, refused, sleep_for, sleep_milliseconds, Moment, pause, send, drain,
  Outside, Transmission, after_wait, after_lead, play,
}

-- The transmitter is on at each of the moments.
unfoldable pub all_on : List (Ptt × Moment) → Bool
all_on [] = true
all_on ((line, moment) ∷ moments) = let rest = all_on moments in transmits line && rest

sleep_for-slept :
    (delay : ℕ) (naps : List Nap) (slept n : ℕ)
    → sleep_for delay naps slept ≡ some (true, n)
    → slept + delay ≤ n
unfolding sleep_for
sleep_for-slept delay [] slept n e = absurd (ground arith)
sleep_for-slept delay (whole_delay ∷ naps) slept n e = ground arith
sleep_for-slept delay (interrupted k ∷ naps) slept n e =
    let rest = sleep_for-slept (delay - k) naps (slept + k) n e in omega arith
sleep_for-slept delay (refused ∷ naps) slept n e = absurd (ground arith)

-- A pause that succeeds is as long as asked for, however often it was interrupted.
pub sleep_milliseconds-slept :
    (ms : ℕ) (naps : List Nap) (n : ℕ)
    → sleep_milliseconds ms naps ≡ some (true, n)
    → ms * 1000000 ≤ n
sleep_milliseconds-slept ms naps n e =
    let less = sleep_for-slept (ms / 1000 * 1000000000 + ms % 1000 * 1000000) naps 0 n e in
    omega arith

-- All moments of a transmission, with the two pauses.
abbrev pub all_moments : Ptt → List ℕ → ℕ → ℕ → List (Ptt × Moment)
all_moments ptt conditioned n m =
    (ptt, pause n) ∷ ((ptt, send conditioned) ∷ ((ptt, drain) ∷ ((ptt, pause m) ∷ [])))

-- A transmission of `conditioned` over the line `ptt`, that had `before` heard.
pub record IsPlayed (ptt : Ptt) (before conditioned : List ℕ) (lead_ms tail_ms : ℕ)
    (t : Transmission) : Type 0 where
  pub line : t.ptt ≡ ptt
  pub on : all_on t.moments ≡ true
  pub whole :
      t.success ≡ true
      → (t.playback.heard ≡ before ++ conditioned)
        × ((n : ℕ) × (m : ℕ) × (t.moments ≡ all_moments ptt conditioned n m)
            × (lead_ms * 1000000 ≤ n)
            × (tail_ms * 1000000 ≤ m))

-- What holds of a result that a call has holds of every result that it has.
pub result_is :
    {A : Type 0}
    → (P : A → Type 0) (out : Option A) (made t : A) → out ≡ some made
    → out ≡ some t
    → P made
    → P t
result_is P out made t d e h = let is : made ≡ t = cc in subst P is h

after_wait-IsPlayed :
    (outside : Outside) (lead_ms tail_ms : ℕ) (conditioned before : List ℕ) (ptt : Ptt)
    (p : Playback ℕ) (n : ℕ) (t : Transmission)
    → transmits ptt ≡ true
    → lead_ms * 1000000 ≤ n
    → p.heard ≡ before ++ conditioned
    → after_wait outside tail_ms ptt p
        ((ptt, pause n) ∷ ((ptt, send conditioned) ∷ ((ptt, drain) ∷ [])))
      ≡ some t
    → IsPlayed ptt before conditioned lead_ms tail_ms t
unfolding after_wait all_on
after_wait-IsPlayed outside lead_ms tail_ms conditioned before ptt p n t on long heard e =
    elim (Option-cases (sleep_milliseconds tail_ms outside.tail)) [
      | inl z ↦ absurd (ground arith)
      | inr ((done, m), z) ↦
          let moments : List (Ptt × Moment) =
            (ptt, pause n) ∷ ((ptt, send conditioned) ∷ ((ptt, drain) ∷ [])) in
          result_is (IsPlayed ptt before conditioned lead_ms tail_ms)
            (after_wait outside tail_ms ptt p moments)
            (record {
              success = done;
              ptt = ptt;
              playback = p;
              moments = all_moments ptt conditioned n m;
            })
            t (rw (z, after_wait) refl) e
            (record {
              line = refl;
              on = ground arith;
              whole = λ s. (
                heard,
                (
                  n,
                  m,
                  refl,
                  long,
                  sleep_milliseconds-slept tail_ms outside.tail m (z ∙ ap (λ b. some (b, m)) s),
                ),
              );
            })
    ]

-- A transmission that stopped after some moments.
stopped-IsPlayed :
    (ptt : Ptt) (before conditioned : List ℕ) (lead_ms tail_ms : ℕ) (p : Playback ℕ)
    (moments : List (Ptt × Moment))
    → all_on moments ≡ true
    → IsPlayed ptt before conditioned lead_ms tail_ms
        (record { success = false; ptt = ptt; playback = p; moments = moments })
stopped-IsPlayed ptt before conditioned lead_ms tail_ms p moments on = record {
  line = refl;
  on = on;
  whole = λ s. absurd (ground arith);
}

after_lead-IsPlayed :
    (outside : Outside) (opened : Bool) (lead_ms tail_ms : ℕ) (conditioned : List ℕ) (ptt : Ptt)
    (p : Playback ℕ) (n : ℕ) (t : Transmission)
    → transmits ptt ≡ true
    → lead_ms * 1000000 ≤ n
    → after_lead outside opened tail_ms conditioned ptt p ((ptt, pause n) ∷ []) ≡ some t
    → IsPlayed ptt p.heard conditioned lead_ms tail_ms t
unfolding after_lead all_on
after_lead-IsPlayed outside opened lead_ms tail_ms conditioned ptt p n t on long e =
    let call = after_lead outside opened tail_ms conditioned ptt p ((ptt, pause n) ∷ []) in
    let P = IsPlayed ptt p.heard conditioned lead_ms tail_ms in
    elim (Option-cases (audio_send opened conditioned outside.writes p)) [
      | inl z ↦ absurd (ground arith)
      | inr ((false, p'), z) ↦ result_is P call _ t (rw (z, after_lead) refl) e (
          stopped-IsPlayed ptt p.heard conditioned lead_ms tail_ms p'
            ((ptt, pause n) ∷ ((ptt, send conditioned) ∷ [])) (ground arith))
      | inr ((true, p'), z) ↦
          elim (Bool-cases (audio_wait opened outside.drained outside.prepared)) [
            | inr w ↦ result_is P call _ t (rw (z, w, after_lead) refl) e (
                stopped-IsPlayed ptt p.heard conditioned lead_ms tail_ms p'
                  ((ptt, pause n) ∷ ((ptt, send conditioned) ∷ ((ptt, drain) ∷ []))) (ground arith))
            | inl w ↦
                after_wait-IsPlayed outside lead_ms tail_ms conditioned p.heard ptt p' n t on long
                  (((audio_send-heard opened conditioned outside.writes p).0 true p' z).2 refl)
                  (sym (
                      let same : call
                          ≡ after_wait outside tail_ms ptt p'
                              ((ptt, pause n) ∷ ((ptt, send conditioned) ∷ ((ptt, drain) ∷ []))) =
                        rw (z, w, after_lead) refl in
                      same)
                    ∙ e)
          ]
    ]

pub play-IsPlayed :
    (outside : Outside) (opened : Bool) (lead_ms tail_ms : ℕ) (conditioned : List ℕ) (ptt : Ptt)
    (p : Playback ℕ) (t : Transmission)
    → transmits ptt ≡ true
    → play outside opened lead_ms tail_ms conditioned ptt p ≡ some t
    → IsPlayed ptt p.heard conditioned lead_ms tail_ms t
unfolding play all_on
play-IsPlayed outside opened lead_ms tail_ms conditioned ptt p t on e =
    let call = play outside opened lead_ms tail_ms conditioned ptt p in
    elim (Option-cases (sleep_milliseconds lead_ms outside.lead)) [
      | inl z ↦ absurd (ground arith)
      | inr ((false, n), z) ↦
          result_is (IsPlayed ptt p.heard conditioned lead_ms tail_ms) call _ t (rw (z, play) refl)
            e
            (stopped-IsPlayed ptt p.heard conditioned lead_ms tail_ms p ((ptt, pause n) ∷ [])
              (ground arith))
      | inr ((true, n), z) ↦
          after_lead-IsPlayed outside opened lead_ms tail_ms conditioned ptt p n t on
            (sleep_milliseconds-slept lead_ms outside.lead n z)
            (sym (
                let same : call
                    ≡ after_lead outside opened tail_ms conditioned ptt p ((ptt, pause n) ∷ []) =
                  rw (z, play) refl in
                same)
              ∙ e)
    ]
