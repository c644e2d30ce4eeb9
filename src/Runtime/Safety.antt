-- ===== src/Runtime/Safety.antt =====
-- What the transmitter does on every path of a transmission.
use reticulum_tnc.Base.{
  ℕ, zero, suc, ◌+◌, u16, u64, List, [], ◌∷◌, length, if◌then◌else◌, Bool-cases, Option-cases, ◌≡◌,
  refl, sym, ◌∙◌, inl, inr, Bool, true, false, not, ◌&&◌, arith,
}
use reticulum_tnc.Fragmentation.{fragment_count}
use reticulum_tnc.PacketQueue.{queue_peek}
use reticulum_tnc.Runtime.{
  Status, idle, invalid_packet, busy, tx_failed, tx_active, tx_tail, tx_keying, Runtime,
}
use reticulum_tnc.Runtime.Transmit.{
  Event, asked_now, asked_busy, wait_audio, set_ptt, send_audio, sleep_ms, entered, Trace, Backend,
  Outcome, release_ptt, fragment_audio, play_tail, conclude, attempt, persistence_random,
  send_fragments, transmit_keyed, transmit, contend, wait_busy, transmit_next,
}

module _ {ℓ} {Sample : Type ℓ} (b : Backend Sample) where
  -- Whether the transmitter is on: what the last command to it said that the backend did not refuse.
  unfoldable pub keyed : Trace Sample → Bool
  keyed [] = false
  keyed (set_ptt on ∷ t) = if b.answer t (set_ptt on) then on else keyed t
  keyed (asked_now ∷ t) = keyed t
  keyed (asked_busy ∷ t) = keyed t
  keyed (wait_audio ∷ t) = keyed t
  keyed (send_audio samples ∷ t) = keyed t
  keyed (sleep_ms n ∷ t) = keyed t
  keyed (entered s ∷ t) = keyed t

  -- The last release was refused, and the transmitter was not switched on since.
  unfoldable pub release_refused : Trace Sample → Bool
  release_refused [] = false
  release_refused (set_ptt true ∷ t) = not (b.answer t (set_ptt true)) && release_refused t
  release_refused (set_ptt false ∷ t) = not (b.answer t (set_ptt false))
  release_refused (asked_now ∷ t) = release_refused t
  release_refused (asked_busy ∷ t) = release_refused t
  release_refused (wait_audio ∷ t) = release_refused t
  release_refused (send_audio samples ∷ t) = release_refused t
  release_refused (sleep_ms n ∷ t) = release_refused t
  release_refused (entered s ∷ t) = release_refused t

  -- All audio was sent while the transmitter was on.
  unfoldable pub OnAir : Trace Sample → Type 0
  OnAir [] = Unit {0}
  OnAir (send_audio samples ∷ t) = (keyed t ≡ true) × OnAir t
  OnAir (asked_now ∷ t) = OnAir t
  OnAir (asked_busy ∷ t) = OnAir t
  OnAir (wait_audio ∷ t) = OnAir t
  OnAir (set_ptt on ∷ t) = OnAir t
  OnAir (sleep_ms n ∷ t) = OnAir t
  OnAir (entered s ∷ t) = OnAir t

  abbrev Running : Trace Sample → Type 0
  Running t = (keyed t ≡ true) × OnAir t

  -- Between two calls: the transmitter is on only if the backend refused to release it.
  abbrev pub Settled : Trace Sample → Type 0
  Settled t = (keyed t ≡ true → release_refused t ≡ true) × OnAir t

  -- After a call that started from the trace `before`: if it leaves on a transmitter that was off, it has
  -- reported a failure.
  pub record IsSettled (before : Trace Sample) (out : Outcome Sample) : Type 0 where
    pub released : keyed out.trace ≡ true → release_refused out.trace ≡ true
    pub on_air : OnAir out.trace
    pub reported : keyed before ≡ false → keyed out.trace ≡ true → out.status ≡ tx_failed

  send_fragments-OnAir :
      (packet : List ℕ) (class left index frames : ℕ) (t : Trace Sample)
      → keyed t ≡ true
      → OnAir t
      → Running (send_fragments b packet class left index frames t).0
  unfolding send_fragments OnAir keyed
  send_fragments-OnAir packet class zero index frames t on safe = (on, safe)
  send_fragments-OnAir packet class (suc left) index frames t on safe =
      elim (Option-cases (fragment_audio b packet class index)) [
        | inl e ↦ rw (e, send_fragments) (on, safe)
        | inr (samples, e) ↦
            let t' : Trace Sample = send_audio samples ∷ t in
            let rest =
              send_fragments-OnAir packet class left (index + 1) (u64 (frames + 1)) t' on
                (on, safe) in
            elim (Bool-cases (b.answer t (send_audio samples))) [
              | inl sent ↦ rw (e, sent, send_fragments) rest
              | inr failed ↦ rw (e, failed, send_fragments) (on, (on, safe))
            ]
      ]

  -- A call that leaves the transmitter alone.
  idle-IsSettled :
      (r : Runtime) (t : Trace Sample) (status : Status)
      → Settled t
      → IsSettled t (record { runtime = r; trace = t; status = status })
  idle-IsSettled r t status settled = record {
    released = settled.0;
    on_air = settled.1;
    reported = λ off on. absurd (ground arith);
  }

  IsSettled-earlier :
      (before t : Trace Sample) (out : Outcome Sample)
      → keyed before ≡ keyed t
      → IsSettled t out
      → IsSettled before out
  IsSettled-earlier before t out same v = record {
    released = v.released;
    on_air = v.on_air;
    reported = λ off. v.reported (sym same ∙ off);
  }

  -- A release either succeeds and switches the transmitter off, or is reported as refused.
  release_ptt-Settled :
      (r : Runtime) (t : Trace Sample)
      → OnAir t
      → let (r', (t', success)) = release_ptt b r t in
        Settled t' × (keyed t' ≡ true → success ≡ false)
  unfolding release_ptt OnAir keyed release_refused
  release_ptt-Settled r t safe = ground arith

  play_tail-OnAir :
      (r : Runtime) (success : Bool) (t : Trace Sample)
      → OnAir t
      → OnAir (play_tail b r success t).0
  unfolding play_tail OnAir keyed
  play_tail-OnAir r success t safe = ground arith

  conclude-IsSettled :
      (r : Runtime) (packet : List ℕ) (frames : ℕ) (success : Bool) (before t : Trace Sample)
      → OnAir t
      → IsSettled before (conclude b r packet frames success t)
  unfolding conclude
  conclude-IsSettled r packet frames success before t safe =
      let (settled, reported) =
        release_ptt-Settled r (play_tail b r success t).0 (play_tail-OnAir r success t safe) in
      record {
        released = ground (arith, settled);
        on_air = ground (arith, settled);
        reported = ground (arith, reported);
      }

  transmit_keyed-IsSettled :
      (r : Runtime) (packet : List ℕ) (before t : Trace Sample)
      → keyed t ≡ true
      → OnAir t
      → IsSettled before (transmit_keyed b r packet t)
  unfolding transmit_keyed OnAir keyed
  transmit_keyed-IsSettled r packet before t on safe =
      let delay : Event Sample = sleep_ms (u16 r.kiss_txdelay_ms) in
      let count = fragment_count (length packet) r.payload_class in
      let left = if b.answer t delay then count else 0 in
      let t1 : Trace Sample = entered tx_active ∷ (delay ∷ t) in
      let sends = send_fragments b packet r.payload_class left 0 r.stats.tx_frames t1 in
      let running =
        send_fragments-OnAir packet r.payload_class left 0 r.stats.tx_frames t1 on safe in
      conclude-IsSettled r packet sends.1.0 (b.answer t delay && sends.1.1) before
        (entered tx_tail ∷ sends.0) running.1

  transmit-IsSettled :
      (r : Runtime) (packet : List ℕ) (t : Trace Sample)
      → Settled t
      → IsSettled t (transmit b r packet t)
  unfolding transmit OnAir keyed release_refused
  transmit-IsSettled r packet t (released, safe) =
      let t1 : Trace Sample = entered tx_keying ∷ t in
      elim (Bool-cases (b.answer t1 (set_ptt true))) [
        | inl e ↦
            rw (e, transmit)
              (transmit_keyed-IsSettled r packet t (set_ptt true ∷ t1) (ground arith) safe)
        | inr e ↦
            rw (e, transmit)
              (record { released = ground arith; on_air = safe; reported = λ off on. refl })
      ]

  contend-IsSettled :
      (r : Runtime) (packet : List ℕ) (now : ℕ) (t : Trace Sample)
      → Settled t
      → IsSettled t (contend b r packet now t)
  unfolding contend
  contend-IsSettled r packet now t settled = ground (
    arith,
    idle-IsSettled r t busy settled,
    idle-IsSettled
        (record r {
          persistence_random_state = persistence_random r.persistence_random_state;
          next_persistence_slot_ms = u64 (now + r.kiss_slottime_ms);
        })
        t busy settled,
    transmit-IsSettled (record r { next_persistence_slot_ms = 0 }) packet t settled,
    transmit-IsSettled
        (record r {
          persistence_random_state = persistence_random r.persistence_random_state;
          next_persistence_slot_ms = 0;
        })
        packet t settled,
  )

  wait_busy-IsSettled :
      (r : Runtime) (now : ℕ) (t : Trace Sample) → Settled t → IsSettled t (wait_busy b r now t)
  unfolding wait_busy OnAir keyed release_refused
  wait_busy-IsSettled r now t settled = record {
    released = ground arith;
    on_air = ground arith;
    reported = ground arith;
  }

  attempt-IsSettled :
      (r : Runtime) (packet : List ℕ) (now : ℕ) (t : Trace Sample)
      → Settled t
      → IsSettled t (attempt b r packet now t)
  unfolding attempt OnAir keyed release_refused
  attempt-IsSettled r packet now t settled =
      let t' : Trace Sample = if b.senses_channel then asked_busy ∷ t else t in
      let settled' : Settled t' = ground arith in
      let same : keyed t ≡ keyed t' = ground arith in
      let clear = record r { busy_started_ms = 0 } in
      ground (
        arith,
        IsSettled-earlier t t' (wait_busy b r now t') same (wait_busy-IsSettled r now t' settled'),
        IsSettled-earlier t t' (contend b clear packet now t') same
            (contend-IsSettled clear packet now t' settled'),
      )

  -- A call of transmit_next that finds the transmitter off, or on because its release was refused: it
  -- sends all audio while the transmitter is on, and leaves it off unless the backend refuses the
  -- release; a call that leaves on a transmitter that was off reports TX_FAILED.
  pub transmit_next-IsSettled :
      (r : Runtime) (t : Trace Sample) → Settled t → IsSettled t (transmit_next b r t)
  unfolding transmit_next OnAir keyed release_refused
  transmit_next-IsSettled r t settled = elim (Option-cases (queue_peek r.tx_queue)) [
    | inl e ↦
        rw (e, transmit_next)
          (ground (
            arith,
            idle-IsSettled r t invalid_packet settled,
            idle-IsSettled (record r { busy_started_ms = 0 }) t idle settled,
          ))
    | inr (slot, e) ↦
        rw (e, transmit_next)
          (ground (
            arith,
            idle-IsSettled r t invalid_packet settled,
            IsSettled-earlier t (asked_now ∷ t)
                (attempt b r slot.bytes (b.now_ms t) (asked_now ∷ t)) refl
                (attempt-IsSettled r slot.bytes (b.now_ms t) (asked_now ∷ t) settled),
          ))
  ]
