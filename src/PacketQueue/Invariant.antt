-- ===== src/PacketQueue/Invariant.antt =====
-- The indices stay within the slots, and the depth within the capacity.
use reticulum_tnc.Base.{ℕ, ◌+◌, ◌%◌, ◌≤◌, ◌<◌, u64, List, length, length-set, ◌≡◌, some, arith}
use reticulum_tnc.Ring.Index.{distance, next-lt, distance-lt, distance-next_consumer}
use reticulum_tnc.PacketQueue.{
  PacketSlot, PacketQueue, queue_init, next_index, queue_push, queue_discard, queue_pop,
  queue_depth,
}

pub record IsValid (q : PacketQueue) : Type 0 where
  pub sized : q.slot_count ≡ q.capacity + 1
  pub some_room : 1 ≤ q.capacity
  pub bounded : q.capacity ≤ 8
  pub storage : length q.slots ≡ 9
  pub producer_in : q.producer < q.slot_count
  pub consumer_in : q.consumer < q.slot_count
  pub deepest : q.maximum_depth ≤ q.capacity
  pub covers : distance q.producer q.consumer q.slot_count ≤ q.maximum_depth

-- What `rtnc_packet_queue_init` accepts is valid and empty.
pub queue_init-IsValid :
    (capacity mtu : ℕ) (q : PacketQueue)
    → queue_init capacity mtu ≡ some q
    → IsValid q × (queue_depth q ≡ 0) × (q.capacity ≡ capacity) × (500 ≤ q.mtu) × (q.mtu ≤ 16256)
unfolding queue_init queue_depth
queue_init-IsValid capacity mtu q h = ground arith

pub next_index-eq : (q : PacketQueue) (i : ℕ) → i < 9 → next_index q i ≡ (i + 1) % q.slot_count
next_index-eq q i h = let e : u64 (i + 1) ≡ i + 1 = omega arith in rw e

-- A push of any packet keeps the invariant of the queue: both indices stay within the slots, and the
-- depth is at most the recorded maximum, which is at most the capacity.
pub queue_push-IsValid :
    (q : PacketQueue) (packet : List ℕ) (sequence : ℕ)
    → IsValid q
    → IsValid (queue_push q packet sequence).0
unfolding queue_push
queue_push-IsValid q packet sequence v =
    let slot : PacketSlot = record { bytes = packet; sequence = sequence } in
    ground (
      arith,
      next_index-eq q q.producer,
      next-lt q.producer q.slot_count v.producer_in,
      distance-lt (next_index q q.producer) q.consumer q.slot_count,
      length-set q.slots q.producer slot,
    )

pub queue_discard-IsValid : (q : PacketQueue) → IsValid q → IsValid (queue_discard q).0
unfolding queue_discard
queue_discard-IsValid q v = ground (
  arith,
  next_index-eq q q.consumer,
  next-lt q.consumer q.slot_count v.consumer_in,
  distance-next_consumer q.producer q.consumer q.slot_count v.producer_in v.consumer_in,
)

pub queue_pop-IsValid :
    (q : PacketQueue) (capacity : ℕ) → IsValid q → IsValid (queue_pop q capacity).0
unfolding queue_pop
queue_pop-IsValid q capacity v = ground (arith, queue_discard-IsValid q v)
