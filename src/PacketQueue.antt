-- ===== src/PacketQueue.antt =====
-- The queue of packets of src/platform/packet_queue.c, call by call; the threads at both ends are in
-- PacketQueue/Threads.antt. A slot's bytes are the `length` first ones of its array.
pub mod Invariant
pub mod Refine
pub mod Threads
mod Tests
use reticulum_tnc.Base.{
  ℕ, zero, suc, ◌+◌, ◌-◌, ◌*◌, ◌/◌, ◌%◌, ◌^◌, ◌≤◌, ◌<◌, min, max, bit_xor, u8, u16, u32, u64, ◌<<<◌,
  ◌>>>◌, test_bit, AreBytes, List, [], ◌∷◌, ◌++◌, map, append-nil, append_assoc, length, get_or,
  set, take, drop, replicate, length-append, length-set, get_or-set_self, get_or-set_ne,
  length-take, length-drop, length-replicate, take-append-drop, take-append, drop-append, take_all,
  get_or-append_right, take_add, drop_add, ltb, leb, ◌==◌, if◌then◌else◌, ltb→lt, lt→ltb, leb→le,
  ==_iff, Bool-cases, Option-cases, Result, ok, err, ◌>>=◌, ◌>>◌, fail_if, ◌≡◌, refl, sym, ap, ap₂,
  subst, ◌∙◌, ◌≢◌, ◌↔◌, ◌⊎◌, inl, inr, Bool, true, false, not, ◌&&◌, ◌||◌, Option, none, some,
  arith, dec_lt, dec_le, ℕ_discrete,
}
use reticulum_tnc.Fragmentation.{link_min_mtu, link_max_mtu}
use reticulum_tnc.Ring.Index.{distance}

abbrev pub max_capacity : ℕ
max_capacity = 8

pub record PacketSlot : Type 0 where
  pub bytes : List ℕ
  pub sequence : ℕ

pub record PacketQueue : Type 0 where
  pub slots : List PacketSlot
  pub mtu : ℕ
  pub capacity : ℕ
  pub slot_count : ℕ
  pub producer : ℕ
  pub consumer : ℕ
  pub maximum_depth : ℕ
  pub dropped_packets : ℕ

abbrev pub empty_slot : PacketSlot
empty_slot = record { bytes = []; sequence = 0 }

unfoldable pub queue_init : ℕ → ℕ → Option PacketQueue
queue_init capacity mtu =
    if capacity == 0 || ltb max_capacity capacity || ltb mtu link_min_mtu || ltb link_max_mtu mtu
    then none
    else some (record {
      slots = replicate (max_capacity + 1) empty_slot;
      mtu = mtu;
      capacity = capacity;
      slot_count = capacity + 1;
      producer = 0;
      consumer = 0;
      maximum_depth = 0;
      dropped_packets = 0;
    })

abbrev pub next_index : PacketQueue → ℕ → ℕ
next_index q i = u64 (i + 1) % q.slot_count

-- The loop of compare-and-exchange ends with the greater of the two.
abbrev pub raised : ℕ → ℕ → ℕ
raised maximum depth = if ltb maximum depth then depth else maximum

-- The new queue, and whether the packet was taken.
unfoldable pub queue_push : PacketQueue → List ℕ → ℕ → PacketQueue × Bool
queue_push q packet sequence =
    let next = next_index q q.producer in
    let slot : PacketSlot = record { bytes = packet; sequence = sequence } in
    if length packet == 0 || ltb q.mtu (length packet) || ltb q.slot_count 2
    then (q, false)
    else if next == q.consumer
    then (record q { dropped_packets = u64 (q.dropped_packets + 1) }, false)
    else (
      record q {
        slots = set q.slots q.producer slot;
        producer = next;
        maximum_depth = raised q.maximum_depth (distance next q.consumer q.slot_count);
      },
      true,
    )

unfoldable pub queue_peek : PacketQueue → Option PacketSlot
queue_peek q =
    if ltb q.slot_count 2 || q.consumer == q.producer
    then none
    else some (get_or q.slots q.consumer empty_slot)

unfoldable pub queue_discard : PacketQueue → PacketQueue × Bool
queue_discard q =
    if ltb q.slot_count 2 || q.consumer == q.producer
    then (q, false)
    else (record q { consumer = next_index q q.consumer }, true)

-- The packet that is copied out, with its sequence number.
unfoldable pub queue_pop : PacketQueue → ℕ → PacketQueue × Option PacketSlot
unfolding queue_peek queue_discard
queue_pop q capacity = elim (queue_peek q) [
  | none ↦ (q, none)
  | some slot ↦
      if ltb capacity (length slot.bytes)
      then (q, none)
      else (let (q', discarded) = queue_discard q in (q', if discarded then some slot else none))
]

unfoldable pub queue_depth : PacketQueue → ℕ
queue_depth q = if ltb q.slot_count 2 then 0 else distance q.producer q.consumer q.slot_count
