-- ===== src/Runtime/Receive.antt =====
-- The receiving side of the runtime, and the parameters of KISS.
use reticulum_tnc.Base.{
  ℕ, suc, ◌+◌, ◌^◌, ◌≤◌, ◌<◌, List, [], ◌∷◌, ◌++◌, map, append-nil, append_assoc, length, take,
  length-append, take_all, if◌then◌else◌, ◌≡◌, refl, sym, ap, ◌∙◌, ◌≢◌, ◌↔◌, ◌⊎◌, inl, inr, true,
  arith,
}
use reticulum_tnc.Fragmentation.{FragmentStatus, Reassembly, reassembly_push, complete}
use reticulum_tnc.Fragmentation.Stream.{delivered, receive}
use reticulum_tnc.Fragmentation.Invariant.{
  reassembly_push-IsValid, reassembly_push-Explained, completed_some, reassembly_push-SameSettings,
}
use reticulum_tnc.Fragmentation.Count.{class_cases, fragment_count_bounds}
use reticulum_tnc.PacketQueue.{PacketSlot, PacketQueue, queue_push}
use reticulum_tnc.PacketQueue.Refine.{contents, queue_push_refines}
use reticulum_tnc.Ring.Fifo.{enqueue}
use reticulum_tnc.Runtime.{
  rx_idle, Status, done, queue_full, Runtime, submit_packet, accept_packet, accept_fragment,
}
use reticulum_tnc.Runtime.Invariant.{IsValid, accept_fragment-IsValid}

abbrev pub numbered : List ℕ → ℕ → PacketSlot
numbered packet sequence = record { bytes = packet; sequence = sequence }

queue_push_capacity :
    (q : PacketQueue) (packet : List ℕ) (n : ℕ) → (queue_push q packet n).0.capacity ≡ q.capacity
unfolding queue_push
queue_push_capacity q packet n = ground arith

-- On a valid, initialized runtime, a packet of at least one byte and within the MTU is put behind the
-- others, with the next sequence number, if there is room; otherwise the caller hears that the queue is
-- full, and the packets stay.
pub submit_packet_refines :
    (r : Runtime) (packet : List ℕ)
    → IsValid r
    → r.initialized ≡ true
    → 1 ≤ length packet
    → length packet ≤ r.mtu
    → let (items, taken) =
        enqueue r.tx_queue.capacity (contents r.tx_queue) (numbered packet r.next_tx_sequence) in
      (contents (submit_packet r packet).0.tx_queue ≡ items)
      × ((submit_packet r packet).1 ≡ (if taken then done else queue_full))
unfolding submit_packet
submit_packet_refines r packet v on low high =
    let class = class_cases r.payload_class v.class_valid in
    let small : length packet ≤ 2 ^ 63 = omega (arith, class, v.link) in
    let (some_fragment, most, all) =
      fragment_count_bounds (length packet) r.payload_class v.class_valid low small in
    let (same, dropped) =
      queue_push_refines r.tx_queue packet r.next_tx_sequence v.tx_valid
        (low, omega (arith, v.tx_mtu)) in
    let items = ap (λ x. x.0) same in let taken = ap (λ x. x.1) same in ground (arith, items, taken)

-- The packets of a queue, without their numbers.
abbrev pub packets : PacketQueue → List (List ℕ)
packets q = map (λ slot. slot.bytes) (contents q)

abbrev assembled_by : Runtime → List ℕ → ℕ → Runtime
assembled_by r fragment now = record r {
  reassembly = (reassembly_push r.reassembly fragment now).state;
}

map_bytes-append :
    (items : List PacketSlot) (slot : PacketSlot)
    → map (λ s. s.bytes) (items ++ (slot ∷ [])) ≡ map (λ s. s.bytes) items ++ (slot.bytes ∷ [])
map_bytes-append [] slot = refl
map_bytes-append (s ∷ items) slot = ap (λ l. s.bytes ∷ l) (map_bytes-append items slot)

-- What one fragment does to an idle runtime with room in its queue.
pub record Accepts (r : Runtime) (q : Runtime) (new : List (List ℕ)) (next : Reassembly)
    (s : Status) : Type 0 where
  pub queued : packets q.rx_queue ≡ packets r.rx_queue ++ new
  pub assembly : q.reassembly ≡ next
  pub state : q.state ≡ r.state
  pub ready : q.initialized ≡ r.initialized
  pub capacity : q.rx_queue.capacity ≡ r.rx_queue.capacity
  pub reported : (s ≡ done) ↔ (1 ≤ length new)

accept_packet-Accepts :
    (r : Runtime) (n : ℕ)
    → IsValid r
    → 1 ≤ length (take n r.reassembly.packet)
    → length (take n r.reassembly.packet) ≤ r.mtu
    → length (contents r.rx_queue) < r.rx_queue.capacity
    → Accepts r
        (accept_packet r n).0
        (take n r.reassembly.packet ∷ [])
        r.reassembly
        (accept_packet r n).1
unfolding accept_packet enqueue
accept_packet-Accepts r n v low high room =
    let packet = take n r.reassembly.packet in
    let (same, dropped) =
      queue_push_refines r.rx_queue packet r.next_rx_sequence v.rx_valid
        (low, omega (arith, v.rx_mtu)) in
    let items = ap (λ x. x.0) same in
    let taken = ap (λ x. x.1) same in
    let more = map_bytes-append (contents r.rx_queue) (numbered packet r.next_rx_sequence) in
    ground (arith, items, taken, more, queue_push_capacity r.rx_queue packet r.next_rx_sequence)

accept_complete :
    (r : Runtime) (fragment : List ℕ) (now : ℕ)
    → r.initialized ≡ true
    → r.state ≡ rx_idle
    → (reassembly_push r.reassembly fragment now).status ≡ complete
    → (accept_fragment r fragment now
        ≡ accept_packet
            (assembled_by r fragment now)
            (reassembly_push r.reassembly fragment now).packet_length)
      × (delivered (reassembly_push r.reassembly fragment now)
          ≡ take
              (reassembly_push r.reassembly fragment now).packet_length
              (reassembly_push r.reassembly fragment now).state.packet
            ∷ [])
unfolding accept_fragment delivered
accept_complete r fragment now on quiet e =
    (simp (on, quiet, e, accept_fragment) refl, simp (e, delivered) refl)

accept_not_complete :
    (r : Runtime) (fragment : List ℕ) (now : ℕ)
    → r.initialized ≡ true
    → r.state ≡ rx_idle
    → (reassembly_push r.reassembly fragment now).status ≢ complete
    → Accepts r
        (accept_fragment r fragment now).0
        (delivered (reassembly_push r.reassembly fragment now))
        (reassembly_push r.reassembly fragment now).state
        (accept_fragment r fragment now).1
unfolding accept_fragment delivered
accept_not_complete r fragment now on quiet ne = ground (arith, append-nil (packets r.rx_queue))

status_cases : (s : FragmentStatus) → (s ≡ complete) ⊎ (s ≢ complete)
status_cases s = ground arith

-- A fragment that arrives while the runtime is idle, with room in the queue for what it completes: the
-- reassembly makes its step, the packet that it completes, if any, is put behind the others, and
-- the status says whether there was one.
pub accept_fragment-Accepts :
    (r : Runtime) (fragment : List ℕ) (now : ℕ)
    → IsValid r
    → r.initialized ≡ true
    → r.state ≡ rx_idle
    → length (contents r.rx_queue) + length (delivered (reassembly_push r.reassembly fragment now))
      ≤ r.rx_queue.capacity
    → Accepts r
        (accept_fragment r fragment now).0
        (delivered (reassembly_push r.reassembly fragment now))
        (reassembly_push r.reassembly fragment now).state
        (accept_fragment r fragment now).1
accept_fragment-Accepts r fragment now v on quiet room =
    let out = reassembly_push r.reassembly fragment now in
    let same = reassembly_push-SameSettings r.reassembly fragment now in
    let next = reassembly_push-IsValid r.reassembly fragment now v.reassembly_valid in
    let said = reassembly_push-Explained r.reassembly fragment now in
    let r' = assembled_by r fragment now in
    let v' : IsValid r' = ground arith in
    elim (status_cases out.status) [
      | inl e ↦
          let (accepted, new) = accept_complete r fragment now on quiet e in
          let (n, resting) = said.done e in
          let whole : take out.packet_length out.state.packet ≡ out.state.packet =
            rw n (take_all (length out.state.packet) out.state.packet (omega arith)) in
          let some_byte = completed_some r.reassembly fragment now e in
          let a =
            accept_packet-Accepts r' out.packet_length v' (rw whole some_byte)
              (rw whole (omega (arith, next.fits, same.mtu, v.reassembly_mtu)))
              (omega (arith, rw new at room)) in
          rw (accepted, new)
            (record {
              queued = a.queued;
              assembly = a.assembly;
              state = a.state;
              ready = a.ready;
              capacity = a.capacity;
              reported = a.reported;
            })
      | inr ne ↦ accept_not_complete r fragment now on quiet ne
    ]

-- A stream of fragments, each with the time at which it arrives.
unfoldable pub accept_all : Runtime → List (List ℕ × ℕ) → Runtime
accept_all r [] = r
accept_all r ((fragment, now_ms) ∷ rest) = accept_all (accept_fragment r fragment now_ms).0 rest

length-packets : (q : PacketQueue) → length (packets q) ≡ length (contents q)
length-packets q = go (contents q)
  where
    go : (items : List PacketSlot) → length (map (λ s. s.bytes) items) ≡ length items
    go [] = refl
    go (s ∷ items) = ap suc (go items)

-- On a valid, initialized runtime whose state is RX_IDLE, the runtime is the receiver of its fragments:
-- the packets that the stream completes stand in its queue behind the others, in order, if all of them
-- fit.
pub accept_all_receives :
    (r : Runtime) (stream : List (List ℕ × ℕ))
    → IsValid r
    → r.initialized ≡ true
    → r.state ≡ rx_idle
    → length (contents r.rx_queue) + length (receive r.reassembly stream).0 ≤ r.rx_queue.capacity
    → packets (accept_all r stream).rx_queue ≡ packets r.rx_queue ++ (receive r.reassembly stream).0
unfolding accept_all receive
accept_all_receives r [] v on quiet room = sym (append-nil (packets r.rx_queue))
accept_all_receives r ((fragment, now) ∷ rest) v on quiet room =
    let out = reassembly_push r.reassembly fragment now in
    let r' = (accept_fragment r fragment now).0 in
    let more = receive out.state rest in
    let count = length-append (delivered out) more.0 in
    let a = accept_fragment-Accepts r fragment now v on quiet (omega arith) in
    let grown = ap length a.queued ∙ length-append (packets r.rx_queue) (delivered out) in
    let rest_room : length (contents r'.rx_queue) + length more.0 ≤ r'.rx_queue.capacity = omega (
      arith,
      grown,
      length-packets r.rx_queue,
      length-packets r'.rx_queue,
      count,
      a.capacity,
      room,
    ) in
    let ih =
      accept_all_receives r' rest (accept_fragment-IsValid r fragment now v) (a.ready ∙ on)
        (a.state ∙ quiet) (rw a.assembly rest_room) in
    rw a.assembly at ih
    ∙ ap (λ l. l ++ more.0) a.queued
    ∙ append_assoc (packets r.rx_queue) (delivered out) more.0
