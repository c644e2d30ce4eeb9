-- ===== src/Runtime.antt =====
-- The runtime of packets, src/platform/runtime.c: its state, and the calls that only change this
-- state. Transmission, which talks to the backend, is in Runtime/Transmit.
pub mod Transmit
pub mod Safety
pub mod Account
pub mod Sent
pub mod Link
pub mod Invariant
pub mod Calls
pub mod Receive
pub mod Busy
pub mod Random
mod Tests
use reticulum_tnc.Base.{
  ℕ, zero, suc, ◌+◌, ◌-◌, ◌*◌, ◌/◌, ◌%◌, ◌^◌, ◌≤◌, ◌<◌, min, max, bit_xor, u8, u16, u32, u64, ◌<<<◌,
  ◌>>>◌, test_bit, AreBytes, List, [], ◌∷◌, ◌++◌, map, append-nil, append_assoc, length, get_or,
  set, take, drop, replicate, length-append, length-set, get_or-set_self, get_or-set_ne,
  length-take, length-drop, length-replicate, take-append-drop, take-append, drop-append, take_all,
  get_or-append_right, take_add, drop_add, ltb, leb, ◌==◌, if◌then◌else◌, ltb→lt, lt→ltb, leb→le,
  ==_iff, Bool-cases, Option-cases, Result, ok, err, ◌>>=◌, ◌>>◌, fail_if, ◌≡◌, refl, sym, ap, ap₂,
  subst, ◌∙◌, ◌≢◌, ◌↔◌, ◌⊎◌, inl, inr, Bool, true, false, not, ◌&&◌, ◌||◌, Option, none, some,
  arith, dec_lt, dec_le, ℕ_discrete,
}
use reticulum_tnc.Fragmentation.{
  Reassembly, reassembly_init, reassembly_push, fragment_count, complete, incomplete, link_min_mtu,
  link_max_mtu,
}
use reticulum_tnc.Kiss.{cmd_txdelay, cmd_p, cmd_slottime, cmd_txtail}
use reticulum_tnc.PacketQueue.{
  PacketSlot, PacketQueue, queue_init, queue_push, queue_peek, queue_pop,
}

pub data State : Type 0 where
  rx_idle tx_wait_busy tx_keying tx_active tx_tail rx_guard : State

pub data Status : Type 0 where
  done idle busy queue_full invalid_packet buffer_too_small tx_failed tx_timeout : Status
  rx_incomplete rx_rejected : Status

pub record Stats : Type 0 where
  pub tx_packets : ℕ
  pub tx_bytes : ℕ
  pub tx_frames : ℕ
  pub tx_failures : ℕ
  pub tx_busy_timeouts : ℕ
  pub rx_packets : ℕ
  pub rx_bytes : ℕ
  pub rx_reassembly_rejects : ℕ

-- `payload_class` is the field `payload_class_bytes` of the modem; `reassembly_storage` is the packet
-- of the reassembly.
pub record Runtime : Type 0 where
  pub tx_queue : PacketQueue
  pub rx_queue : PacketQueue
  pub reassembly : Reassembly
  pub payload_class : ℕ
  pub stats : Stats
  pub state : State
  pub kiss_txdelay_ms : ℕ
  pub kiss_persistence : ℕ
  pub kiss_slottime_ms : ℕ
  pub kiss_txtail_ms : ℕ
  pub mtu : ℕ
  pub busy_timeout_ms : ℕ
  pub rx_guard_ms : ℕ
  pub busy_started_ms : ℕ
  pub next_persistence_slot_ms : ℕ
  pub persistence_random_state : ℕ
  pub next_tx_sequence : ℕ
  pub next_rx_sequence : ℕ
  pub initialized : Bool

-- What the caller of `rtnc_runtime_init` gives. `gain_positive` is the test of the filter's gain, and
-- `modem_ready` is the result of `rtnc_modem_init_profile`.
pub record Settings : Type 0 where
  pub payload_class : ℕ
  pub mtu : ℕ
  pub reassembly_timeout_ms : ℕ
  pub tx_queue_packets : ℕ
  pub rx_queue_packets : ℕ
  pub busy_timeout_ms : ℕ
  pub rx_guard_ms : ℕ
  pub lead_ms : ℕ
  pub tail_ms : ℕ
  pub gain_positive : Bool
  pub modem_ready : Bool

abbrev no_stats : Stats
no_stats = record {
  tx_packets = 0;
  tx_bytes = 0;
  tx_frames = 0;
  tx_failures = 0;
  tx_busy_timeouts = 0;
  rx_packets = 0;
  rx_bytes = 0;
  rx_reassembly_rejects = 0;
}

abbrev first_random : ℕ
first_random = 0x6d2b79f5

-- The runtime over its queues and its reassembly.
abbrev pub assembled : Settings → PacketQueue → PacketQueue → Reassembly → Runtime
assembled s tx rx reassembly = record {
  tx_queue = tx;
  rx_queue = rx;
  reassembly = reassembly;
  payload_class = s.payload_class;
  stats = no_stats;
  state = rx_idle;
  kiss_txdelay_ms = s.lead_ms;
  kiss_persistence = 255;
  kiss_slottime_ms = 100;
  kiss_txtail_ms = s.tail_ms;
  mtu = s.mtu;
  busy_timeout_ms = s.busy_timeout_ms;
  rx_guard_ms = s.rx_guard_ms;
  busy_started_ms = 0;
  next_persistence_slot_ms = 0;
  persistence_random_state = first_random;
  next_tx_sequence = 0;
  next_rx_sequence = 0;
  initialized = true;
}

unfoldable pub runtime_init : Settings → Option Runtime
runtime_init s =
    if ltb s.mtu link_min_mtu
      || ltb link_max_mtu s.mtu
      || s.busy_timeout_ms == 0
      || not s.gain_positive
    then none
    else elim (queue_init s.tx_queue_packets s.mtu) [
      | none ↦ none
      | some tx ↦ elim (queue_init s.rx_queue_packets s.mtu) [
        | none ↦ none
        | some rx ↦ elim (reassembly_init s.mtu s.payload_class s.reassembly_timeout_ms) [
          | err e ↦ none
          | ok r ↦ if s.modem_ready then some (assembled s tx rx r) else none
        ]
      ]
    ]

unfoldable pub submit_packet : Runtime → List ℕ → Runtime × Status
submit_packet r packet =
    if not r.initialized
      || length packet == 0
      || ltb r.mtu (length packet)
      || fragment_count (length packet) r.payload_class == 0
    then (r, invalid_packet)
    else (let (q, taken) = queue_push r.tx_queue packet r.next_tx_sequence in
        if taken
        then (record r { tx_queue = q; next_tx_sequence = u64 (r.next_tx_sequence + 1) }, done)
        else (record r { tx_queue = q }, queue_full))

abbrev pub is_idle : State → Bool
is_idle rx_idle = true
is_idle tx_wait_busy = false
is_idle tx_keying = false
is_idle tx_active = false
is_idle tx_tail = false
is_idle rx_guard = false

abbrev count_reject : Runtime → Runtime
count_reject r =
    let stats = r.stats in
    record r {
      stats = record stats { rx_reassembly_rejects = u64 (stats.rx_reassembly_rejects + 1) };
    }

-- A packet is complete: it goes to the queue.
unfoldable pub accept_packet : Runtime → ℕ → Runtime × Status
accept_packet r packet_length =
    let (q, taken) =
      queue_push r.rx_queue (take packet_length r.reassembly.packet) r.next_rx_sequence in
    let queued = record r { rx_queue = q } in
    let stats = r.stats in
    if taken
    then (
      record queued {
        next_rx_sequence = u64 (r.next_rx_sequence + 1);
        stats = record stats {
          rx_packets = u64 (stats.rx_packets + 1);
          rx_bytes = u64 (stats.rx_bytes + packet_length);
        };
      },
      done,
    )
    else (count_reject queued, queue_full)

unfoldable pub accept_fragment : Runtime → List ℕ → ℕ → Runtime × Status
accept_fragment r fragment now_ms =
    let pushed = reassembly_push r.reassembly fragment now_ms in
    let r' = record r { reassembly = pushed.state } in
    if not r.initialized || not (is_idle r.state) then (r, rx_rejected) else elim pushed.status [
      | complete ↦ accept_packet r' pushed.packet_length
      | incomplete ↦ (r', rx_incomplete)
      | _ ↦ (count_reject r', rx_rejected)
    ]

-- The packet that is copied out, if there is one.
unfoldable pub receive_packet : Runtime → ℕ → Runtime × (Status × Option (List ℕ))
receive_packet r capacity =
    if not r.initialized then (r, (invalid_packet, none)) else elim (queue_peek r.rx_queue) [
      | none ↦ (r, (idle, none))
      | some slot ↦
          if ltb capacity (length slot.bytes)
          then (r, (buffer_too_small, none))
          else (let (q, out) = queue_pop r.rx_queue capacity in
              let r' = record r { rx_queue = q } in
              elim out [
                | none ↦ (r', (idle, none))
                | some popped ↦ (r', (done, some popped.bytes))
              ])
    ]

-- A byte of KISS in units of 10 ms, or as it is.
unfoldable pub set_kiss_parameter : Runtime → ℕ → ℕ → Runtime × Bool
set_kiss_parameter r command value =
    if not r.initialized
    then (r, false)
    else if command == cmd_txdelay
    then (record r { kiss_txdelay_ms = value * 10 }, true)
    else if command == cmd_p
    then (record r { kiss_persistence = value }, true)
    else if command == cmd_slottime
    then (record r { kiss_slottime_ms = value * 10 }, true)
    else if command == cmd_txtail
    then (record r { kiss_txtail_ms = value * 10 }, true)
    else (r, false)
