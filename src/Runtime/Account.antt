-- ===== src/Runtime/Account.antt =====
-- What a transmission leaves in the queue, the state and the statistics.
use reticulum_tnc.Base.{
  ℕ, ◌+◌, u16, u64, List, ◌∷◌, length, if◌then◌else◌, ◌≡◌, refl, ◌≢◌, ◌⊎◌, Bool, true, false, ◌&&◌,
  some, arith,
}
use reticulum_tnc.Fragmentation.{fragment_count}
use reticulum_tnc.PacketQueue.{PacketSlot, queue_peek, queue_discard}
use reticulum_tnc.Runtime.{
  rx_idle, tx_keying, tx_active, tx_tail, Status, done, tx_failed, tx_timeout, Runtime,
}
use reticulum_tnc.Runtime.Transmit.{
  Event, asked_now, asked_busy, set_ptt, sleep_ms, entered, Trace, Backend, enter, release_ptt,
  play_tail, conclude, attempt, persistence_random, send_fragments, transmit_keyed, transmit,
  contend, wait_busy, transmit_next,
}

-- The packet was sent, or given up, or is still in the queue.
abbrev pub is_final : Status → Bool
is_final done = true
is_final tx_failed = true
is_final tx_timeout = true
is_final _ = false

-- A counter of 64 bits after `n` more.
abbrev pub counted : ℕ → ℕ → ℕ
counted n more = u64 (n + more)

pub record Accounts (r : Runtime) (packet : List ℕ) (q : Runtime) (s : Status) : Type 0 where
  pub leaves :
      is_final s ≡ true
      → (q.tx_queue ≡ (queue_discard r.tx_queue).0) × (q.state ≡ rx_idle) × (q.busy_started_ms ≡ 0)
  pub stays : is_final s ≡ false → (q.tx_queue ≡ r.tx_queue) × (q.stats ≡ r.stats)
  pub sent :
      s ≡ done
      → (q.stats.tx_packets ≡ u64 (r.stats.tx_packets + 1))
        × (q.stats.tx_bytes ≡ u64 (r.stats.tx_bytes + length packet))
        × (q.stats.tx_failures ≡ r.stats.tx_failures)
  pub not_sent :
      s ≢ done → (q.stats.tx_packets ≡ r.stats.tx_packets) × (q.stats.tx_bytes ≡ r.stats.tx_bytes)
  pub failed :
      (s ≡ tx_failed) ⊎ (s ≡ tx_timeout) → q.stats.tx_failures ≡ u64 (r.stats.tx_failures + 1)
  pub timed_out : s ≡ tx_timeout → q.stats.tx_busy_timeouts ≡ u64 (r.stats.tx_busy_timeouts + 1)
  pub in_time : s ≢ tx_timeout → q.stats.tx_busy_timeouts ≡ r.stats.tx_busy_timeouts
  pub frames : s ≡ tx_timeout → q.stats.tx_frames ≡ r.stats.tx_frames
  pub rx_counters :
      (q.stats.rx_packets ≡ r.stats.rx_packets)
      × (q.stats.rx_bytes ≡ r.stats.rx_bytes)
      × (q.stats.rx_reassembly_rejects ≡ r.stats.rx_reassembly_rejects)
  pub sequences :
      (q.next_tx_sequence ≡ r.next_tx_sequence) × (q.next_rx_sequence ≡ r.next_rx_sequence)
  pub rx_queue : q.rx_queue ≡ r.rx_queue
  pub reassembly : q.reassembly ≡ r.reassembly
  pub settings :
      (q.mtu ≡ r.mtu)
      × (q.payload_class ≡ r.payload_class)
      × (q.kiss_persistence ≡ r.kiss_persistence)
  pub delays :
      (q.kiss_txdelay_ms ≡ r.kiss_txdelay_ms)
      × (q.kiss_slottime_ms ≡ r.kiss_slottime_ms)
      × (q.kiss_txtail_ms ≡ r.kiss_txtail_ms)

module _ {ℓ} {Sample : Type ℓ} (b : Backend Sample) where
  release_ptt_runtime : (r : Runtime) (t : Trace Sample) → (release_ptt b r t).0 ≡ enter r rx_idle
  unfolding release_ptt
  release_ptt_runtime r t = ground arith

  conclude-Accounts :
      (r : Runtime) (packet : List ℕ) (frames : ℕ) (success : Bool) (t : Trace Sample)
      → r.busy_started_ms ≡ 0
      → Accounts r packet
          (conclude b r packet frames success t).runtime
          (conclude b r packet frames success t).status
  unfolding conclude
  conclude-Accounts r packet frames success t z =
      ground (arith, release_ptt_runtime r (play_tail b r success t).0)

  transmit-Accounts :
      (r : Runtime) (packet : List ℕ) (t : Trace Sample)
      → r.busy_started_ms ≡ 0
      → Accounts r packet (transmit b r packet t).runtime (transmit b r packet t).status
  unfolding transmit transmit_keyed
  transmit-Accounts r packet t z =
      let t1 : Trace Sample = set_ptt true ∷ (entered tx_keying ∷ t) in
      let delay : Event Sample = sleep_ms (u16 r.kiss_txdelay_ms) in
      let count = fragment_count (length packet) r.payload_class in
      let left = if b.answer t1 delay then count else 0 in
      let sends =
        send_fragments b packet r.payload_class left 0 r.stats.tx_frames
          (entered tx_active ∷ (delay ∷ t1)) in
      let ended =
        conclude-Accounts r packet sends.1.0 (b.answer t1 delay && sends.1.1)
          (entered tx_tail ∷ sends.0) z in
      ground (arith, ended)

  contend-Accounts :
      (r : Runtime) (packet : List ℕ) (now : ℕ) (t : Trace Sample)
      → r.busy_started_ms ≡ 0
      → Accounts r packet (contend b r packet now t).runtime (contend b r packet now t).status
  unfolding contend
  contend-Accounts r packet now t z =
      let drawn = record r {
        persistence_random_state = persistence_random r.persistence_random_state;
        next_persistence_slot_ms = 0;
      } in
      ground (
        arith,
        transmit-Accounts (record r { next_persistence_slot_ms = 0 }) packet t z,
        transmit-Accounts drawn packet t z,
      )

  wait_busy-Accounts :
      (r : Runtime) (packet : List ℕ) (now : ℕ) (t : Trace Sample)
      → Accounts r packet (wait_busy b r now t).runtime (wait_busy b r now t).status
  unfolding wait_busy
  wait_busy-Accounts r packet now t = ground arith

  attempt-Accounts :
      (r : Runtime) (packet : List ℕ) (now : ℕ) (t : Trace Sample)
      → Accounts r packet (attempt b r packet now t).runtime (attempt b r packet now t).status
  unfolding attempt
  attempt-Accounts r packet now t =
      let t' : Trace Sample = if b.senses_channel then asked_busy ∷ t else t in
      ground (
        arith,
        wait_busy-Accounts r packet now t',
        contend-Accounts (record r { busy_started_ms = 0 }) packet now t' refl,
      )

  pub transmit_next-attempt :
      (r : Runtime) (t : Trace Sample) (slot : PacketSlot)
      → r.initialized ≡ true
      → queue_peek r.tx_queue ≡ some slot
      → transmit_next b r t ≡ attempt b r slot.bytes (b.now_ms t) (asked_now ∷ t)
  unfolding transmit_next
  transmit_next-attempt r t slot on e = simp (e, on, transmit_next) refl

  -- A call of transmit_next on an initialized runtime with a packet in its queue: if it reports the
  -- packet as sent, failed or timed out, exactly this packet leaves the queue, the state is RX_IDLE,
  -- and of the counters of packets, bytes, failures and timeouts exactly those of that outcome move;
  -- otherwise the queue and all statistics stay. The receiving queue, reassembly and counters, the
  -- numbers of packets and the parameters of KISS are not touched.
  pub transmit_next-Accounts :
      (r : Runtime) (t : Trace Sample) (slot : PacketSlot)
      → r.initialized ≡ true
      → queue_peek r.tx_queue ≡ some slot
      → Accounts r slot.bytes (transmit_next b r t).runtime (transmit_next b r t).status
  transmit_next-Accounts r t slot on e =
      rw (transmit_next-attempt r t slot on e)
        (attempt-Accounts r slot.bytes (b.now_ms t) (asked_now ∷ t))
