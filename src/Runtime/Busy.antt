-- ===== src/Runtime/Busy.antt =====
-- Waiting for a busy channel.
use reticulum_tnc.Base.{
  ℕ, ◌+◌, ◌-◌, ◌≤◌, u64, List, ◌∷◌, ltb, if◌then◌else◌, ◌≡◌, refl, ◌∙◌, Bool, true, ◌&&◌, some,
  arith,
}
use reticulum_tnc.PacketQueue.{PacketSlot, queue_peek, queue_discard}
use reticulum_tnc.Runtime.{
  rx_idle, tx_wait_busy, busy, tx_timeout, rx_rejected, Runtime, accept_fragment,
}
use reticulum_tnc.Runtime.Transmit.{
  asked_now, asked_busy, Trace, Backend, Outcome, enter, attempt, wait_busy, transmit_next,
}
use reticulum_tnc.Runtime.Account.{transmit_next-attempt}

module _ {ℓ} {Sample : Type ℓ} (b : Backend Sample) where
  -- The channel is found busy by the call of transmit_next that starts at this trace.
  abbrev pub FoundBusy : Trace Sample → Type 0
  FoundBusy t = (b.senses_channel && b.answer (asked_now ∷ t) asked_busy) ≡ true

  transmit_next-wait_busy :
      (r : Runtime) (t : Trace Sample) (slot : PacketSlot)
      → r.initialized ≡ true
      → queue_peek r.tx_queue ≡ some slot
      → FoundBusy t
      → transmit_next b r t ≡ wait_busy b r (b.now_ms t) (asked_busy ∷ (asked_now ∷ t))
  unfolding attempt
  transmit_next-wait_busy r t slot on e found = transmit_next-attempt b r t slot on e ∙ ground arith

  -- After a call on an initialized runtime that reports BUSY because the channel is busy, every
  -- fragment that is received is rejected, and the runtime does not change.
  pub accept_fragment-waiting :
      (r : Runtime) (t : Trace Sample) (slot : PacketSlot) (fragment : List ℕ) (now : ℕ)
      → r.initialized ≡ true
      → queue_peek r.tx_queue ≡ some slot
      → FoundBusy t
      → (transmit_next b r t).status ≡ busy
      → accept_fragment (transmit_next b r t).runtime fragment now
        ≡ ((transmit_next b r t).runtime, rx_rejected)
  unfolding accept_fragment wait_busy
  accept_fragment-waiting r t slot fragment now on e found waits =
      let same = transmit_next-wait_busy r t slot on e found in
      rw same (let waits' = rw same at waits in ground arith)

  first_wait :
      (r : Runtime) (now : ℕ) (t : Trace Sample)
      → r.busy_started_ms ≡ 0
      → 1 ≤ now
      → 1 ≤ r.busy_timeout_ms
      → let out = wait_busy b r now t in
        (out.status ≡ busy)
        × (out.runtime ≡ record (enter r tx_wait_busy) { busy_started_ms = now })
  unfolding wait_busy
  first_wait r now t fresh late limit = (ground arith, ground arith)

  -- What becomes of a packet that waits: it goes on waiting, or is given up.
  pub record IsPatient (r : Runtime) (patient : Bool) (out : Outcome Sample) : Type 0 where
    pub status : out.status ≡ (if patient then busy else tx_timeout)
    pub queue :
        out.runtime.tx_queue ≡ (if patient then r.tx_queue else (queue_discard r.tx_queue).0)
    pub state : out.runtime.state ≡ (if patient then tx_wait_busy else rx_idle)
    pub since : out.runtime.busy_started_ms ≡ (if patient then r.busy_started_ms else 0)
    pub timeouts :
        out.runtime.stats.tx_busy_timeouts
        ≡ (if patient then r.stats.tx_busy_timeouts else u64 (r.stats.tx_busy_timeouts + 1))

  later_wait :
      (r : Runtime) (since now : ℕ) (t : Trace Sample)
      → r.busy_started_ms ≡ since
      → 1 ≤ since
      → since ≤ now
      → IsPatient r (ltb (now - since) r.busy_timeout_ms) (wait_busy b r now t)
  unfolding wait_busy
  later_wait r since now t began late order = record {
    status = ground arith;
    queue = ground arith;
    state = ground arith;
    since = ground arith;
    timeouts = ground arith;
  }

  -- On an initialized runtime with a packet that does not wait yet, at a time from 1 on, with a timeout
  -- of at least 1: a call that finds the channel busy reports BUSY and changes nothing but the state,
  -- TX_WAIT_BUSY, and the time since when the packet waits. A later call that finds it busy again
  -- leaves all that as it is until the timeout has passed; then it takes exactly this packet out of the
  -- queue, reports and counts the timeout, and goes back to RX_IDLE, with no wait in progress.
  pub transmit_next_times_out :
      (r : Runtime) (t t' : Trace Sample) (slot : PacketSlot)
      → r.initialized ≡ true
      → queue_peek r.tx_queue ≡ some slot
      → r.busy_started_ms ≡ 0
      → 1 ≤ b.now_ms t
      → 1 ≤ r.busy_timeout_ms
      → b.now_ms t ≤ b.now_ms t'
      → FoundBusy t
      → FoundBusy t'
      → let waiting = record (enter r tx_wait_busy) { busy_started_ms = b.now_ms t } in
        ((transmit_next b r t).status ≡ busy)
        × ((transmit_next b r t).runtime ≡ waiting)
        × IsPatient waiting
            (ltb (b.now_ms t' - b.now_ms t) r.busy_timeout_ms)
            (transmit_next b waiting t')
  transmit_next_times_out r t t' slot on e fresh late limit order found found' =
      let same = transmit_next-wait_busy r t slot on e found in
      let waiting = record (enter r tx_wait_busy) { busy_started_ms = b.now_ms t } in
      let (waits, left) =
        first_wait r (b.now_ms t) (asked_busy ∷ (asked_now ∷ t)) fresh late limit in
      let again = transmit_next-wait_busy waiting t' slot on e found' in
      let ends =
        later_wait waiting (b.now_ms t) (b.now_ms t') (asked_busy ∷ (asked_now ∷ t')) refl late
          order in
      (rw same waits, rw same left, rw again ends)
