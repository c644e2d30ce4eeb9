-- ===== src/Runtime/Invariant.antt =====
-- What the calls of the runtime keep, and what they do to the queues.
use reticulum_tnc.Base.{
  ℕ, ◌-◌, ◌*◌, ◌^◌, ◌≤◌, ◌<◌, List, take, if◌then◌else◌, Bool-cases, Option-cases, ok, err, ◌≡◌,
  inl, inr, true, none, some, arith,
}
use reticulum_tnc.Fragmentation.{Reassembly, reassembly_init, reassembly_push, valid_payload_class}
use reticulum_tnc.Fragmentation.Invariant.{
  reassembly_init-IsValid, reassembly_push-IsValid, SameSettings, reassembly_push-SameSettings,
}
use reticulum_tnc.PacketQueue.{
  PacketQueue, queue_init, queue_push, queue_peek, queue_discard, queue_pop,
}
use reticulum_tnc.PacketQueue.Invariant.{
  queue_init-IsValid, queue_push-IsValid, queue_discard-IsValid, queue_pop-IsValid,
}
use reticulum_tnc.Runtime.{
  rx_idle, Status, Runtime, Settings, assembled, runtime_init, submit_packet, accept_packet,
  accept_fragment, receive_packet, set_kiss_parameter,
}
use reticulum_tnc.Runtime.Account.{is_final, Accounts, transmit_next-Accounts}
use reticulum_tnc.Runtime.Transmit.{Trace, Backend, transmit_next}
use reticulum_tnc.PacketQueue.Invariant as Queue
use reticulum_tnc.Fragmentation.Invariant as Assembly

pub record IsValid (r : Runtime) : Type 0 where
  pub tx_valid : Queue.IsValid r.tx_queue
  pub rx_valid : Queue.IsValid r.rx_queue
  pub reassembly_valid : Assembly.IsValid r.reassembly
  pub class_valid : valid_payload_class r.payload_class ≡ true
  pub same_class : r.reassembly.radio_payload_class ≡ r.payload_class
  pub link : r.mtu ≤ 128 * (r.payload_class - 1)
  pub tx_mtu : r.tx_queue.mtu ≡ r.mtu
  pub rx_mtu : r.rx_queue.mtu ≡ r.mtu
  pub reassembly_mtu : r.reassembly.mtu ≡ r.mtu
  pub persistence : r.kiss_persistence < 256
  pub times :
      (r.kiss_txdelay_ms < 2 ^ 16) × (r.kiss_slottime_ms < 2 ^ 16) × (r.kiss_txtail_ms < 2 ^ 16)

queue_init_mtu :
    (capacity mtu : ℕ) (q : PacketQueue) → queue_init capacity mtu ≡ some q → q.mtu ≡ mtu
unfolding queue_init
queue_init_mtu capacity mtu q h = ground arith

queue_pop_mtu : (q : PacketQueue) (capacity : ℕ) → (queue_pop q capacity).0.mtu ≡ q.mtu
unfolding queue_pop queue_discard
queue_pop_mtu q capacity = ground arith

init_reassembly :
    (s : Settings) (tx rx : PacketQueue) (r : Runtime)
    → elim (reassembly_init s.mtu s.payload_class s.reassembly_timeout_ms) [
      | err e ↦ none
      | ok a ↦ if s.modem_ready then some (assembled s tx rx a) else none
    ]
      ≡ some r
    → (a : Reassembly) × (reassembly_init s.mtu s.payload_class s.reassembly_timeout_ms ≡ ok a)
      × (assembled s tx rx a ≡ r)
init_reassembly s tx rx r h = ground arith

pub runtime_init_inv :
    (s : Settings) (r : Runtime)
    → runtime_init s ≡ some r
    → (tx : PacketQueue) × (rx : PacketQueue) × (a : Reassembly) × (queue_init s.tx_queue_packets
          s.mtu
        ≡ some tx)
      × (queue_init s.rx_queue_packets s.mtu ≡ some rx)
      × (reassembly_init s.mtu s.payload_class s.reassembly_timeout_ms ≡ ok a)
      × (assembled s tx rx a ≡ r)
unfolding runtime_init
runtime_init_inv s r h = elim (Option-cases (queue_init s.tx_queue_packets s.mtu)) [
  | inl e ↦ absurd (let h' = rw (e, runtime_init) at h in ground arith)
  | inr (tx, e) ↦ elim (Option-cases (queue_init s.rx_queue_packets s.mtu)) [
    | inl e' ↦ absurd (let h' = rw (e, e', runtime_init) at h in ground arith)
    | inr (rx, e') ↦
        let h' = rw (e, e', runtime_init) at h in
        let (a, ready, same) = init_reassembly s tx rx r (ground arith) in
        (tx, rx, a, e, e', ready, same)
  ]
]

-- What rtnc_runtime_init accepts, with the two delays of its configuration in 16 bits, is valid, ready
-- and idle, and every packet up to its MTU fits the 128 fragments of the header's counter.
pub runtime_init-IsValid :
    (s : Settings) (r : Runtime)
    → runtime_init s ≡ some r
    → s.lead_ms < 2 ^ 16
    → s.tail_ms < 2 ^ 16
    → IsValid r
      × (r.initialized ≡ true)
      × (r.state ≡ rx_idle)
      × (r.mtu ≡ s.mtu)
      × (500 ≤ r.mtu)
      × (r.mtu ≤ 16256)
unfolding runtime_init
runtime_init-IsValid s r h lead tail =
    let (tx, rx, a, e, e', ready, same) = runtime_init_inv s r h in
    let (v, empty, capacity, low, high) = queue_init-IsValid s.tx_queue_packets s.mtu tx e in
    let (v', empty', capacity', low', high') = queue_init-IsValid s.rx_queue_packets s.mtu rx e' in
    let started = reassembly_init-IsValid s.mtu s.payload_class s.reassembly_timeout_ms a ready in
    let m = queue_init_mtu s.tx_queue_packets s.mtu tx e in
    let m' = queue_init_mtu s.rx_queue_packets s.mtu rx e' in rw (← same) (ground arith)

pub set_kiss_parameter-IsValid :
    (r : Runtime) (command value : ℕ)
    → IsValid r
    → value < 256
    → IsValid (set_kiss_parameter r command value).0
unfolding set_kiss_parameter
set_kiss_parameter-IsValid r command value v h = ground arith

pub submit_packet-IsValid :
    (r : Runtime) (packet : List ℕ) → IsValid r → IsValid (submit_packet r packet).0
unfolding submit_packet queue_push
submit_packet-IsValid r packet v =
    ground (arith, queue_push-IsValid r.tx_queue packet r.next_tx_sequence v.tx_valid)

accept_packet-IsValid : (r : Runtime) (n : ℕ) → IsValid r → IsValid (accept_packet r n).0
unfolding accept_packet queue_push
accept_packet-IsValid r n v = ground (
  arith,
  queue_push-IsValid r.rx_queue (take n r.reassembly.packet) r.next_rx_sequence v.rx_valid,
)

pub receive_packet-IsValid :
    (r : Runtime) (capacity : ℕ) → IsValid r → IsValid (receive_packet r capacity).0
unfolding receive_packet
receive_packet-IsValid r capacity v =
    ground
      (arith, queue_pop-IsValid r.rx_queue capacity v.rx_valid, queue_pop_mtu r.rx_queue capacity)

pub accept_fragment-IsValid :
    (r : Runtime) (fragment : List ℕ) (now : ℕ)
    → IsValid r
    → IsValid (accept_fragment r fragment now).0
unfolding accept_fragment
accept_fragment-IsValid r fragment now v =
    let pushed = reassembly_push r.reassembly fragment now in
    let same = reassembly_push-SameSettings r.reassembly fragment now in
    let next = reassembly_push-IsValid r.reassembly fragment now v.reassembly_valid in
    let r' = record r { reassembly = pushed.state } in
    let v' : IsValid r' = ground arith in
    ground (arith, accept_packet-IsValid r' pushed.packet_length v')

transmitted-IsValid :
    (r q : Runtime) (packet : List ℕ) (s : Status) → IsValid r → Accounts r packet q s → IsValid q
unfolding queue_discard
transmitted-IsValid r q packet s v a = elim (Bool-cases (is_final s)) [
  | inl e ↦ ground (arith, queue_discard-IsValid r.tx_queue v.tx_valid, a.leaves e)
  | inr e ↦ ground (arith, a.stays e)
]

module _ {ℓ} {Sample : Type ℓ} (b : Backend Sample) where
  pub transmit_next-IsValid :
      (r : Runtime) (t : Trace Sample) → IsValid r → IsValid (transmit_next b r t).runtime
  unfolding transmit_next
  transmit_next-IsValid r t v = elim (Bool-cases r.initialized) [
    | inl on ↦ elim (Option-cases (queue_peek r.tx_queue)) [
      | inl e ↦ simp (on, e, transmit_next) (ground arith)
      | inr (slot, e) ↦
          transmitted-IsValid r (transmit_next b r t).runtime slot.bytes
            (transmit_next b r t).status v (transmit_next-Accounts b r t slot on e)
    ]
    | inr off ↦ simp (off, transmit_next) v
  ]
