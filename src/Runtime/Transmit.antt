-- ===== src/Runtime/Transmit.antt =====
-- Transmission of the next packet: `rtnc_runtime_transmit_next` and what it calls.
--
-- The backend's answers may depend on all that happened before, so each call is given the trace, the
-- newest event first. The trace also records the states that the other threads see.
use reticulum_tnc.Base.{
  ℕ, zero, suc, ◌+◌, ◌-◌, bit_xor, u8, u16, u32, u64, ◌<<<◌, ◌>>>◌, List, ◌∷◌, length, ltb, ◌==◌,
  if◌then◌else◌, ok, err, Bool, true, false, not, ◌&&◌, ◌||◌, Option, none, some,
}
use reticulum_tnc.Fragmentation.{fragment_count, fragment_build}
use reticulum_tnc.Frame.{max_payload}
use reticulum_tnc.PacketQueue.{queue_peek, queue_discard}
use reticulum_tnc.Runtime.{
  State, rx_idle, tx_wait_busy, tx_keying, tx_active, tx_tail, rx_guard, Status, done, idle, busy,
  invalid_packet, tx_failed, tx_timeout, Runtime,
}

-- One round of xorshift on 32 bits; the new state, of which the low byte is the random number.
abbrev pub shifted : ℕ → ℕ → ℕ
shifted s n = bit_xor s (u32 (s <<< n))

unfoldable pub persistence_random : ℕ → ℕ
persistence_random s = let s1 = shifted s 13 in let s2 = bit_xor s1 (s1 >>> 17) in shifted s2 5

module _ {ℓ} (Sample : Type ℓ) where
  -- The calls of the backend, and the states entered.
  pub data Event : Type ℓ where
    asked_now asked_busy wait_audio : Event
    set_ptt : Bool → Event
    send_audio : List Sample → Event
    sleep_ms : ℕ → Event
    entered : State → Event

  abbrev pub Trace : Type ℓ
  Trace = List Event

  -- `rtnc_runtime_backend_t`. `answer` is the result of a call of a function that returns bool;
  -- `senses_channel` says that `channel_busy` is there. `prepare` is `prepare_fragment_audio`.
  pub record Backend : Type ℓ where
    pub answer : Trace → Event → Bool
    pub now_ms : Trace → ℕ
    pub senses_channel : Bool
    pub prepare : List ℕ → Option (List Sample)

  pub record Outcome : Type ℓ where
    pub runtime : Runtime
    pub trace : Trace
    pub status : Status

abbrev pub enter : Runtime → State → Runtime
enter r s = record r { state = s }

module _ {ℓ} {Sample : Type ℓ} (b : Backend Sample) where
  -- The state and the trace after the release of the transmitter, and its result.
  unfoldable pub release_ptt : Runtime → Trace Sample → Runtime × (Trace Sample × Bool)
  release_ptt r t =
      let released = b.answer t (set_ptt false) in
      let t1 = entered rx_guard ∷ (set_ptt false ∷ t) in
      let slept = b.answer t1 (sleep_ms r.rx_guard_ms) in
      let r' = enter r rx_idle in
      if ltb 0 r.rx_guard_ms
      then (r', (entered rx_idle ∷ (sleep_ms r.rx_guard_ms ∷ t1), slept && released))
      else (r', (entered rx_idle ∷ t1, released))

  -- Fragment `index` as audio, if it can be built and modulated.
  unfoldable pub fragment_audio : List ℕ → ℕ → ℕ → Option (List Sample)
  fragment_audio packet class index = elim (fragment_build packet class index max_payload) [
    | err e ↦ none
    | ok fragment ↦ b.prepare fragment
  ]

  -- The loop over `left` fragments from `index` on: the trace, how many frames were sent, `success`.
  unfoldable pub send_fragments : List ℕ → ℕ → ℕ → ℕ → ℕ → Trace Sample → Trace Sample × (ℕ × Bool)
  send_fragments packet class zero index frames t = (t, (frames, true))
  send_fragments packet class (suc left) index frames t = elim (fragment_audio packet class index) [
    | none ↦ (t, (frames, false))
    | some samples ↦
        let t' = send_audio samples ∷ t in
        let rest = send_fragments packet class left (index + 1) (u64 (frames + 1)) t' in
        if b.answer t (send_audio samples) then rest else (t', (frames, false))
  ]

  abbrev pub discard : Runtime → Runtime
  discard r = record r { tx_queue = (queue_discard r.tx_queue).0 }

  abbrev pub failure : Runtime → Runtime
  failure r =
      let stats = r.stats in
      record r { stats = record stats { tx_failures = u64 (stats.tx_failures + 1) } }

  -- After the loop: playback ends, then the tail, each only if all went well before.
  unfoldable pub play_tail : Runtime → Bool → Trace Sample → Trace Sample × Bool
  play_tail r success t =
      let tail : Event Sample = sleep_ms (u16 r.kiss_txtail_ms) in
      let t1 = wait_audio ∷ t in
      if not success
      then (t, false)
      else if b.answer t wait_audio
      then (tail ∷ t1, b.answer t1 tail)
      else (t1, false)

  -- Playback, tail, release; the packet leaves the queue, and the statistics are kept.
  unfoldable pub conclude : Runtime → List ℕ → ℕ → Bool → Trace Sample → Outcome Sample
  conclude r packet frames success t =
      let stats = r.stats in
      let (t1, played) = play_tail r success t in
      let (r1, (t2, released)) = release_ptt r t1 in
      let stats' = record stats { tx_frames = frames } in
      if played && released
      then record {
        runtime = record (discard r1) {
          stats = record stats' {
            tx_packets = u64 (stats.tx_packets + 1);
            tx_bytes = u64 (stats.tx_bytes + length packet);
          };
        };
        trace = t2;
        status = done;
      }
      else record {
        runtime = failure (record (discard r1) { stats = stats' });
        trace = t2;
        status = tx_failed;
      }

  -- After the transmitter is on: the delay and the fragments.
  unfoldable pub transmit_keyed : Runtime → List ℕ → Trace Sample → Outcome Sample
  transmit_keyed r packet t =
      let delay : Event Sample = sleep_ms (u16 r.kiss_txdelay_ms) in
      let count = fragment_count (length packet) r.payload_class in
      let left = if b.answer t delay then count else 0 in
      let sends =
        send_fragments packet r.payload_class left 0 r.stats.tx_frames
          (entered tx_active ∷ (delay ∷ t)) in
      conclude r packet sends.1.0 (b.answer t delay && sends.1.1) (entered tx_tail ∷ sends.0)

  -- The channel is free and the trial passed.
  unfoldable pub transmit : Runtime → List ℕ → Trace Sample → Outcome Sample
  transmit r packet t =
      let t1 = entered tx_keying ∷ t in
      let keyed = b.answer t1 (set_ptt true) in
      let t2 = set_ptt true ∷ t1 in
      if keyed then transmit_keyed r packet t2 else record {
        runtime = discard (failure (enter r rx_idle));
        trace = entered rx_idle ∷ t2;
        status = tx_failed;
      }

  -- The channel is free: p-persistence.
  unfoldable pub contend : Runtime → List ℕ → ℕ → Trace Sample → Outcome Sample
  contend r packet now t =
      let drawn = persistence_random r.persistence_random_state in
      let slot = u64 (now + r.kiss_slottime_ms) in
      let tried = record r { persistence_random_state = drawn } in
      if ltb now r.next_persistence_slot_ms
      then record { runtime = r; trace = t; status = busy }
      else if ltb r.kiss_persistence 255
      then (if ltb r.kiss_persistence (u8 drawn)
          then record {
            runtime = record tried { next_persistence_slot_ms = slot };
            trace = t;
            status = busy;
          }
          else transmit (record tried { next_persistence_slot_ms = 0 }) packet t)
      else transmit (record r { next_persistence_slot_ms = 0 }) packet t

  -- The channel is busy.
  unfoldable pub wait_busy : Runtime → ℕ → Trace Sample → Outcome Sample
  wait_busy r now t =
      let first = if now == 0 then 1 else now in
      let since = if r.busy_started_ms == 0 then first else r.busy_started_ms in
      let t1 = entered tx_wait_busy ∷ t in
      let waiting = record (enter r tx_wait_busy) { busy_started_ms = since } in
      let stats = r.stats in
      let stats' = record stats {
        tx_busy_timeouts = u64 (stats.tx_busy_timeouts + 1);
        tx_failures = u64 (stats.tx_failures + 1);
      } in
      if ltb now since || ltb (now - since) r.busy_timeout_ms
      then record { runtime = waiting; trace = t1; status = busy }
      else record {
        runtime = record (enter (discard r) rx_idle) { stats = stats'; busy_started_ms = 0 };
        trace = entered rx_idle ∷ t1;
        status = tx_timeout;
      }

  -- There is a packet: is the channel busy?
  unfoldable pub attempt : Runtime → List ℕ → ℕ → Trace Sample → Outcome Sample
  attempt r packet now t =
      let t' : Trace Sample = if b.senses_channel then asked_busy ∷ t else t in
      if b.senses_channel && b.answer t asked_busy
      then wait_busy r now t'
      else contend (record r { busy_started_ms = 0 }) packet now t'

  unfoldable pub transmit_next : Runtime → Trace Sample → Outcome Sample
  transmit_next r t =
      if not r.initialized
      then record { runtime = r; trace = t; status = invalid_packet }
      else elim (queue_peek r.tx_queue) [
        | none ↦ record { runtime = record r { busy_started_ms = 0 }; trace = t; status = idle }
        | some slot ↦ attempt r slot.bytes (b.now_ms t) (asked_now ∷ t)
      ]

  -- `rtnc_runtime_deinit`, with the release of the modem left out.
  unfoldable pub runtime_deinit : Runtime → Trace Sample → Runtime × Trace Sample
  runtime_deinit r t =
      let t' = if r.initialized then set_ptt false ∷ t else t in
      (record (enter r rx_idle) { initialized = false }, entered rx_idle ∷ t')
