-- ===== src/Runtime/Sent.antt =====
-- What is on the air when a transmission reports success.
use reticulum_tnc.Base.{
  ℕ, zero, suc, ◌+◌, u16, u64, List, [], ◌∷◌, ◌++◌, append-nil, append_assoc, length, if◌then◌else◌,
  Bool-cases, Option-cases, Result, ok, err, ◌≡◌, refl, sym, ap, ◌∙◌, inl, inr, Bool, true, ◌&&◌,
  some, arith,
}
use reticulum_tnc.Fragmentation.{FragmentStatus, fragment_count, fragment_build}
use reticulum_tnc.Fragmentation.Stream.{fragments_from, fragments}
use reticulum_tnc.Frame.{max_payload}
use reticulum_tnc.PacketQueue.{PacketSlot, queue_peek}
use reticulum_tnc.Runtime.{tx_keying, tx_active, tx_tail, done, Runtime}
use reticulum_tnc.Runtime.Transmit.{
  Event, asked_now, asked_busy, wait_audio, set_ptt, send_audio, sleep_ms, entered, Trace, Backend,
  release_ptt, fragment_audio, play_tail, conclude, attempt, persistence_random, send_fragments,
  transmit_keyed, transmit, contend, wait_busy, transmit_next,
}
use reticulum_tnc.Runtime.Account.{transmit_next-attempt}

module _ {ℓ} {Sample : Type ℓ} (b : Backend Sample) where
  -- The audio given to the backend, oldest first.
  unfoldable pub audio : Trace Sample → List (List Sample)
  audio [] = []
  audio (send_audio samples ∷ t) = audio t ++ (samples ∷ [])
  audio (asked_now ∷ t) = audio t
  audio (asked_busy ∷ t) = audio t
  audio (wait_audio ∷ t) = audio t
  audio (set_ptt on ∷ t) = audio t
  audio (sleep_ms n ∷ t) = audio t
  audio (entered s ∷ t) = audio t

  -- The samples are those of the frames, in order.
  pub data Modulated : List (List ℕ) → List (List Sample) → Type ℓ where
    none_left : Modulated [] []
    modulate :
        (frame : List ℕ) (samples : List Sample) (frames : List (List ℕ))
        (rest : List (List Sample))
        → b.prepare frame ≡ some samples
        → Modulated frames rest
        → Modulated (frame ∷ frames) (samples ∷ rest)

  fragment_audio_inv :
      (packet : List ℕ) (class index : ℕ) (samples : List Sample)
      → fragment_audio b packet class index ≡ some samples
      → (frame : List ℕ) × (fragment_build packet class index max_payload ≡ ok frame)
        × (b.prepare frame ≡ some samples)
  unfolding fragment_audio
  fragment_audio_inv packet class index samples h =
      go (fragment_build packet class index max_payload) refl
    where
      go :
          (o : Result FragmentStatus (List ℕ))
          → fragment_build packet class index max_payload ≡ o
          → (frame : List ℕ) × (fragment_build packet class index max_payload ≡ ok frame)
            × (b.prepare frame ≡ some samples)
      go (ok frame) e = (frame, e, ground arith)
      go (err x) e = absurd (ground arith)

  abbrev Sends : List ℕ → ℕ → ℕ → ℕ → Trace Sample → Trace Sample → Type ℓ
  Sends packet class left index t t' =
      (frames : List (List ℕ)) × (sent : List (List Sample)) × (fragments_from packet class
          max_payload index left
        ≡ ok frames)
      × Modulated frames sent
      × (audio t' ≡ audio t ++ sent)

  send_fragments-Sends :
      (packet : List ℕ) (class left index frames : ℕ) (t : Trace Sample)
      → (send_fragments b packet class left index frames t).1.1 ≡ true
      → Sends packet class left index t (send_fragments b packet class left index frames t).0
  unfolding send_fragments audio fragments_from
  send_fragments-Sends packet class zero index frames t h =
      ([], [], refl, none_left, sym (append-nil (audio t)))
  send_fragments-Sends packet class (suc left) index frames t h =
      elim (Option-cases (fragment_audio b packet class index)) [
        | inl e ↦ absurd (let h' = rw (e, send_fragments) at h in ground arith)
        | inr (samples, e) ↦ elim (Bool-cases (b.answer t (send_audio samples))) [
          | inl good ↦
              let t' : Trace Sample = send_audio samples ∷ t in
              let (frame, built, modulated) = fragment_audio_inv packet class index samples e in
              let (fs, ss, all, m, heard) =
                send_fragments-Sends packet class left (index + 1) (u64 (frames + 1)) t'
                  (rw (e, good, send_fragments) at h) in
              rw (e, good, send_fragments)
                (
                  frame ∷ fs,
                  samples ∷ ss,
                  ground arith,
                  modulate frame samples fs ss modulated m,
                  heard ∙ append_assoc (audio t) (samples ∷ []) ss,
                )
          | inr bad ↦ absurd (let h' = rw (e, bad, send_fragments) at h in ground arith)
        ]
      ]

  -- All fragments of the packet, in order, after what was sent before.
  abbrev pub AllSent : List ℕ → ℕ → Trace Sample → Trace Sample → Type ℓ
  AllSent packet class t t' =
      (frames : List (List ℕ)) × (sent : List (List Sample)) × (fragments packet class max_payload
        ≡ ok frames)
      × Modulated frames sent
      × (audio t' ≡ audio t ++ sent)

  audio-release_ptt : (r : Runtime) (t : Trace Sample) → audio (release_ptt b r t).1.0 ≡ audio t
  unfolding release_ptt audio
  audio-release_ptt r t = ground arith

  audio-play_tail :
      (r : Runtime) (success : Bool) (t : Trace Sample)
      → audio (play_tail b r success t).0 ≡ audio t
  unfolding play_tail audio
  audio-play_tail r success t = ground arith

  conclude_done :
      (r : Runtime) (packet : List ℕ) (frames : ℕ) (success : Bool) (t : Trace Sample)
      → (conclude b r packet frames success t).status ≡ done
      → (success ≡ true) × (audio (conclude b r packet frames success t).trace ≡ audio t)
  unfolding conclude play_tail
  conclude_done r packet frames success t h = (
    ground arith,
    ground (arith, audio-play_tail r success t, audio-release_ptt r (play_tail b r success t).0),
  )

  transmit_keyed_done :
      (r : Runtime) (packet : List ℕ) (t : Trace Sample)
      → (transmit_keyed b r packet t).status ≡ done
      → AllSent packet r.payload_class t (transmit_keyed b r packet t).trace
  unfolding transmit_keyed audio fragments
  transmit_keyed_done r packet t h =
      let delay : Event Sample = sleep_ms (u16 r.kiss_txdelay_ms) in
      let count = fragment_count (length packet) r.payload_class in
      let left = if b.answer t delay then count else 0 in
      let t1 : Trace Sample = entered tx_active ∷ (delay ∷ t) in
      let sends = send_fragments b packet r.payload_class left 0 r.stats.tx_frames t1 in
      let (good, heard) =
        conclude_done r packet sends.1.0 (b.answer t delay && sends.1.1) (entered tx_tail ∷ sends.0)
          h in
      let e : b.answer t delay ≡ true = ground arith in
      let all : sends.1.1 ≡ true = ground arith in
      let (fs, ss, built, m, order) =
        send_fragments-Sends packet r.payload_class left 0 r.stats.tx_frames t1 all in
      let few : left ≡ count = rw e in (fs, ss, rw few at built, m, heard ∙ order)

  transmit_done :
      (r : Runtime) (packet : List ℕ) (t : Trace Sample)
      → (transmit b r packet t).status ≡ done
      → AllSent packet r.payload_class t (transmit b r packet t).trace
  unfolding transmit audio
  transmit_done r packet t h =
      let t1 : Trace Sample = entered tx_keying ∷ t in
      elim (Bool-cases (b.answer t1 (set_ptt true))) [
        | inl e ↦
            rw (e, transmit)
              (transmit_keyed_done r packet (set_ptt true ∷ t1) (rw (e, transmit) at h))
        | inr e ↦ absurd (let h' = rw (e, transmit) at h in ground arith)
      ]

  contend_done :
      (r : Runtime) (packet : List ℕ) (now : ℕ) (t : Trace Sample)
      → (contend b r packet now t).status ≡ done
      → AllSent packet r.payload_class t (contend b r packet now t).trace
  unfolding contend
  contend_done r packet now t h =
      let drawn = record r {
        persistence_random_state = persistence_random r.persistence_random_state;
        next_persistence_slot_ms = 0;
      } in
      ground (
        arith,
        transmit_done (record r { next_persistence_slot_ms = 0 }) packet t,
        transmit_done drawn packet t,
      )

  attempt_done :
      (r : Runtime) (packet : List ℕ) (now : ℕ) (t : Trace Sample)
      → (attempt b r packet now t).status ≡ done
      → AllSent packet r.payload_class t (attempt b r packet now t).trace
  unfolding attempt audio wait_busy
  attempt_done r packet now t h =
      let t' : Trace Sample = if b.senses_channel then asked_busy ∷ t else t in
      let same : audio t' ≡ audio t = ground arith in
      let clear = record r { busy_started_ms = 0 } in
      elim (Bool-cases (b.senses_channel && b.answer t asked_busy)) [
        | inl e ↦ absurd (let h' = rw (e, attempt) at h in ground arith)
        | inr e ↦
            let all = contend_done clear packet now t' (rw (e, attempt) at h) in
            rw (e, attempt) (all.0, all.1, all.2, all.3, all.4 ∙ ap (λ l. l ++ all.1) same)
      ]

  -- If a call of transmit_next on an initialized runtime with a packet in its queue reports success,
  -- the audio given to the backend in this call is that of all fragments of the oldest packet, in
  -- order, and no other.
  pub transmit_next_done :
      (r : Runtime) (t : Trace Sample) (slot : PacketSlot)
      → r.initialized ≡ true
      → queue_peek r.tx_queue ≡ some slot
      → (transmit_next b r t).status ≡ done
      → AllSent slot.bytes r.payload_class t (transmit_next b r t).trace
  unfolding audio
  transmit_next_done r t slot on e h = rw (transmit_next-attempt b r t slot on e) (
      attempt_done r slot.bytes (b.now_ms t) (asked_now ∷ t)
        (rw (transmit_next-attempt b r t slot on e) at h))
