-- ===== src/Runtime/Link.antt =====
-- Packets over the air: a transmission succeeds if the backend does its part, and a receiver that
-- hears a successful transmission completes the packet.
use reticulum_tnc.Base.{
  sym, subst, ℕ, zero, suc, ◌+◌, ◌-◌, ◌*◌, ◌≤◌, ◌<◌, u16, u64, List, [], ◌∷◌, ◌++◌, length, drop,
  length-take, if◌then◌else◌, ◌≡◌, refl, ap, Bool, true, false, ◌&&◌, Option, none, some, arith,
}
use reticulum_tnc.Fragmentation.{Reassembly, fragment_count, valid_payload_class}
use reticulum_tnc.Fragmentation.Stream.{receive, stamp}
use reticulum_tnc.Fragmentation.Count.{
  class_cases, fragment_build-ok, fragment_count-le_iff, fragment_at,
}
use reticulum_tnc.Fragmentation.Roundtrip.{InTime, receive-fragments}
use reticulum_tnc.PacketQueue.{PacketSlot, queue_peek}
use reticulum_tnc.Runtime.{rx_guard, tx_keying, tx_active, tx_tail, done, Runtime}
use reticulum_tnc.Runtime.Transmit.{
  Event, asked_now, asked_busy, wait_audio, set_ptt, send_audio, sleep_ms, entered, Trace, Backend,
  release_ptt, fragment_audio, play_tail, conclude, attempt, send_fragments, transmit_keyed,
  transmit, contend, transmit_next,
}
use reticulum_tnc.Runtime.Account.{transmit_next-attempt}
use reticulum_tnc.Runtime.Sent.{audio, Modulated, none_left, modulate, transmit_next_done}

module _ {ℓ} {Sample : Type ℓ} (b : Backend Sample) where
  module _ (decode : List Sample → Option (List ℕ)) where
    -- The frames that a demodulator finds in pieces of audio.
    unfoldable pub heard : List (List Sample) → List (List ℕ)
    heard [] = []
    heard (samples ∷ rest) =
        let more = heard rest in elim (decode samples) [ none ↦ more | some frame ↦ frame ∷ more ]

    heard-Modulated :
        (frames : List (List ℕ)) (sent : List (List Sample))
        → ((frame : List ℕ) (samples : List Sample)
            → b.prepare frame ≡ some samples
            → decode samples ≡ some frame)
        → Modulated b frames sent
        → heard sent ≡ frames
    unfolding heard
    heard-Modulated _ _ inverse none_left = refl
    heard-Modulated _ _ inverse (modulate frame samples frames rest e m) =
        rw (inverse frame samples e, heard)
          (ap (λ l. frame ∷ l) (heard-Modulated frames rest inverse m))

    -- With a demodulator that recovers each modulated frame, a receiver of the same payload class and a
    -- sufficient MTU, in whatever state, completes exactly the oldest packet of the queue from what a
    -- successful call of transmit_next sent, if the frames arrive within the timeout of the first.
    pub receive-transmit_next :
        (r : Runtime) (t : Trace Sample) (slot : PacketSlot) (q : Reassembly) (clock : ℕ → ℕ)
        → ((frame : List ℕ) (samples : List Sample)
            → b.prepare frame ≡ some samples
            → decode samples ≡ some frame)
        → r.initialized ≡ true
        → queue_peek r.tx_queue ≡ some slot
        → (transmit_next b r t).status ≡ done
        → valid_payload_class r.payload_class ≡ true
        → 1 ≤ length slot.bytes
        → length slot.bytes ≤ 128 * (r.payload_class - 1)
        → q.radio_payload_class ≡ r.payload_class
        → length slot.bytes ≤ q.mtu
        → InTime clock q.timeout_ms
        → (sent : List (List Sample)) × (audio b (transmit_next b r t).trace ≡ audio b t ++ sent)
          × ((receive q (stamp clock 0 (heard sent))).0 ≡ slot.bytes ∷ [])
    receive-transmit_next r t slot q clock inverse on e success v low high same mtu times =
        let (fs, ss, built, m, order) = transmit_next_done b r t slot on e success in
        let room : r.payload_class ≤ 128 = omega (arith, class_cases r.payload_class v) in
        let (gs, built', few, packets, idle) =
          receive-fragments slot.bytes r.payload_class 128 q clock v room low high same mtu times in
        let same_frames : fs ≡ gs = ground arith in
        (ss, order, rw (heard-Modulated fs ss inverse m, same_frames) packets)

  -- The backend does what it is told, and the modem modulates what it takes: fragments of 1 to `class`
  -- bytes.
  pub record Works (class : ℕ) : Type ℓ where
    pub keys : (t : Trace Sample) (on : Bool) → b.answer t (set_ptt on) ≡ true
    pub plays : (t : Trace Sample) (samples : List Sample) → b.answer t (send_audio samples) ≡ true
    pub drains : (t : Trace Sample) → b.answer t wait_audio ≡ true
    pub sleeps : (t : Trace Sample) (n : ℕ) → b.answer t (sleep_ms n) ≡ true
    pub modulates :
        (fragment : List ℕ)
        → 1 ≤ length fragment
        → length fragment ≤ class
        → (samples : List Sample) × (b.prepare fragment ≡ some samples)

  length-fragment_at :
      (packet : List ℕ) (class i : ℕ)
      → 1 ≤ class
      → (1 ≤ length (fragment_at packet class i)) × (length (fragment_at packet class i) ≤ class)
  length-fragment_at packet class i pos =
      let size = length-take (class - 1) (drop (i * (class - 1)) packet) in
      (omega arith, omega (arith, size))

  module _ (class : ℕ) (works : Works class) where
    fragment_audio_works :
        (packet : List ℕ) (i : ℕ)
        → i < fragment_count (length packet) class
        → fragment_count (length packet) class ≤ 128
        → class ≤ 128
        → 1 ≤ class
        → (samples : List Sample) × (fragment_audio b packet class i ≡ some samples)
    unfolding fragment_audio
    fragment_audio_works packet i hi few room pos =
        let (low, high) = length-fragment_at packet class i pos in
        let (samples, e) = works.modulates (fragment_at packet class i) low high in
        (samples, rw (fragment_build-ok packet class i 128 hi few room pos, fragment_audio) e)

    send_fragments_works :
        (packet : List ℕ) (left i frames : ℕ) (t : Trace Sample)
        → i + left ≤ fragment_count (length packet) class
        → fragment_count (length packet) class ≤ 128
        → class ≤ 128
        → 1 ≤ class
        → (send_fragments b packet class left i frames t).1.1 ≡ true
    unfolding send_fragments
    send_fragments_works packet zero i frames t hi few room pos = refl
    send_fragments_works packet (suc left) i frames t hi few room pos =
        let (samples, e) = fragment_audio_works packet i (omega arith) few room pos in
        let played = works.plays t samples in
        rw (e, played, send_fragments)
          (send_fragments_works packet left (i + 1) (u64 (frames + 1)) (send_audio samples ∷ t)
            (omega arith) few room pos)

    conclude_works :
        (r : Runtime) (packet : List ℕ) (frames : ℕ) (t : Trace Sample)
        → (conclude b r packet frames true t).status ≡ done
    unfolding conclude play_tail release_ptt
    conclude_works r packet frames t =
        let tail : Event Sample = sleep_ms (u16 r.kiss_txtail_ms) in
        let t1 : Trace Sample = tail ∷ (wait_audio ∷ t) in
        let t2 : Trace Sample = entered rx_guard ∷ (set_ptt false ∷ t1) in
        ground (
          arith,
          works.drains t,
          works.sleeps (wait_audio ∷ t) (u16 r.kiss_txtail_ms),
          works.keys t1 false,
          works.sleeps t2 r.rx_guard_ms,
        )

    transmit_works :
        (r : Runtime) (packet : List ℕ) (t : Trace Sample)
        → r.payload_class ≡ class
        → fragment_count (length packet) class ≤ 128
        → class ≤ 128
        → 1 ≤ class
        → (transmit b r packet t).status ≡ done
    unfolding transmit transmit_keyed
    transmit_works r packet t same few room pos =
        let t1 : Trace Sample = entered tx_keying ∷ t in
        let t2 : Trace Sample = set_ptt true ∷ t1 in
        let delay : Event Sample = sleep_ms (u16 r.kiss_txdelay_ms) in
        let count = fragment_count (length packet) class in
        let t3 : Trace Sample = entered tx_active ∷ (delay ∷ t2) in
        let keyed = works.keys t1 true in
        let slept = works.sleeps t2 (u16 r.kiss_txdelay_ms) in
        let sends =
          send_fragments b packet r.payload_class (fragment_count (length packet) r.payload_class) 0
            r.stats.tx_frames t3 in
        let all : sends.1.1 ≡ true =
          subst
            (λ c.
              (send_fragments b packet c (fragment_count (length packet) c) 0 r.stats.tx_frames
                t3).1.1
              ≡ true)
            (sym same)
            (send_fragments_works packet count 0 r.stats.tx_frames t3 (omega arith) few room pos) in
        let ended = conclude_works r packet sends.1.0 (entered tx_tail ∷ sends.0) in
        rw (keyed, slept, all, transmit, transmit_keyed) ended

    -- If the backend does its part, and its modem takes the fragments of the runtime's payload class,
    -- the channel is free, no slot of p-persistence is waited for and the persistence is 255, then a
    -- call of transmit_next on an initialized runtime sends the oldest packet, of at least one byte and
    -- at most 128 loads, with success.
    pub transmit_next_works :
        (r : Runtime) (t : Trace Sample) (slot : PacketSlot)
        → r.initialized ≡ true
        → queue_peek r.tx_queue ≡ some slot
        → r.payload_class ≡ class
        → valid_payload_class class ≡ true
        → 1 ≤ length slot.bytes
        → length slot.bytes ≤ 128 * (class - 1)
        → (b.senses_channel && b.answer (asked_now ∷ t) asked_busy) ≡ false
        → r.next_persistence_slot_ms ≤ b.now_ms t
        → r.kiss_persistence ≡ 255
        → (transmit_next b r t).status ≡ done
    unfolding attempt contend
    transmit_next_works r t slot on e same v low high free due always =
        let t' : Trace Sample =
          if b.senses_channel then asked_busy ∷ (asked_now ∷ t) else asked_now ∷ t in
        let clear = record r { busy_started_ms = 0; next_persistence_slot_ms = 0 } in
        let known = class_cases class v in
        let few =
          (fragment_count-le_iff (length slot.bytes) class v low (omega (arith, known))).1 high in
        let sent =
          transmit_works clear slot.bytes t' same few (omega (arith, known))
            (omega (arith, known)) in
        rw (transmit_next-attempt b r t slot on e) (ground (arith, sent))
