-- ===== src/PacketQueue/Refine.antt =====
-- Call by call, the queue of packets is the bounded first-in, first-out queue of its contents.
use reticulum_tnc.Base.{
  ℕ, suc, ◌+◌, ◌%◌, ◌≤◌, ◌<◌, u64, List, [], ◌∷◌, ◌++◌, length, get_or, set, ltb, ◌==◌,
  if◌then◌else◌, Bool-cases, ◌≡◌, refl, ap, ◌≢◌, ◌↔◌, ◌⊎◌, inl, inr, true, false, not, none, some,
  arith, ℕ_discrete,
}
use reticulum_tnc.Ring.Index.{
  distance, distance-lt, distance-zero_iff, full_iff, distance-next_producer,
  distance-next_consumer, producer_of_distance,
}
use reticulum_tnc.Ring.Window.{window, length-window, window-push}
use reticulum_tnc.Ring.Fifo.{enqueue, dequeue, dequeue_if, front}
use reticulum_tnc.PacketQueue.{
  PacketSlot, PacketQueue, empty_slot, raised, queue_push, queue_peek, queue_discard, queue_pop,
  queue_depth,
}
use reticulum_tnc.PacketQueue.Invariant.{IsValid, next_index-eq}

-- The packets in the queue, oldest first.
abbrev pub contents : PacketQueue → List PacketSlot
contents q =
    window empty_slot q.slot_count q.slots q.consumer (distance q.producer q.consumer q.slot_count)

pub length-contents : (q : PacketQueue) → IsValid q → length (contents q) ≡ queue_depth q
unfolding queue_depth
length-contents q v = ground (
  arith,
  length-window empty_slot q.slot_count q.slots q.consumer
      (distance q.producer q.consumer q.slot_count),
)

-- A packet that the link can carry.
abbrev pub Carried : PacketQueue → List ℕ → Type 0
Carried q packet = (1 ≤ length packet) × (length packet ≤ q.mtu)

abbrev slot_of : List ℕ → ℕ → PacketSlot
slot_of packet sequence = record { bytes = packet; sequence = sequence }

-- The queue after a push into a free slot.
abbrev filled : PacketQueue → PacketSlot → PacketQueue
filled q slot =
    let next = (q.producer + 1) % q.slot_count in
    record q {
      slots = set q.slots q.producer slot;
      producer = next;
      maximum_depth = raised q.maximum_depth (distance next q.consumer q.slot_count);
    }

module _ (q : PacketQueue) (packet : List ℕ) (sequence : ℕ) (v : IsValid q)
    (size : Carried q packet) where
  push_full :
      (q.producer + 1) % q.slot_count ≡ q.consumer
      → queue_push q packet sequence
        ≡ (record q { dropped_packets = u64 (q.dropped_packets + 1) }, false)
  unfolding queue_push
  push_full full = ground (arith, next_index-eq q q.producer)

  push_free :
      (q.producer + 1) % q.slot_count ≢ q.consumer
      → queue_push q packet sequence ≡ (filled q (slot_of packet sequence), true)
  unfolding queue_push
  push_free free =
      let e = next_index-eq q q.producer (omega arith) in rw (e, queue_push) (ground arith)

contents-filled :
    (q : PacketQueue) (slot : PacketSlot)
    → IsValid q
    → (q.producer + 1) % q.slot_count ≢ q.consumer
    → contents (filled q slot) ≡ contents q ++ (slot ∷ [])
contents-filled q slot v free =
    let k = distance q.producer q.consumer q.slot_count in
    let e : distance ((q.producer + 1) % q.slot_count) q.consumer q.slot_count ≡ suc k = omega (
      arith,
      distance-next_producer q.producer q.consumer q.slot_count v.producer_in v.consumer_in free,
    ) in
    rw e (
      window-push empty_slot q.slot_count q.slots q.producer slot q.consumer k v.consumer_in
        (distance-lt q.producer q.consumer q.slot_count v.producer_in v.consumer_in) (omega arith)
        (producer_of_distance q.producer q.consumer q.slot_count v.producer_in v.consumer_in)
        v.producer_in)

contents_full_iff :
    (q : PacketQueue)
    → IsValid q
    → ((q.producer + 1) % q.slot_count ≡ q.consumer) ↔ (length (contents q) ≡ q.capacity)
contents_full_iff q v =
    let k = distance q.producer q.consumer q.slot_count in
    let full = full_iff q.producer q.consumer q.slot_count v.producer_in v.consumer_in in
    let size = length-window empty_slot q.slot_count q.slots q.consumer k in
    (λ h. omega (arith, full.0 h), λ h. full.1 (omega arith))

length-contents-le : (q : PacketQueue) → IsValid q → length (contents q) ≤ q.capacity
length-contents-le q v = omega (
  arith,
  distance-lt q.producer q.consumer q.slot_count v.producer_in v.consumer_in,
  length-window empty_slot q.slot_count q.slots q.consumer
      (distance q.producer q.consumer q.slot_count),
)

enqueue-full :
    (c : ℕ) (items : List PacketSlot) (x : PacketSlot)
    → length items ≡ c
    → enqueue c items x ≡ (items, false)
unfolding enqueue
enqueue-full c items x e = ground arith

enqueue-free :
    (c : ℕ) (items : List PacketSlot) (x : PacketSlot)
    → length items < c
    → enqueue c items x ≡ (items ++ (x ∷ []), true)
unfolding enqueue
enqueue-free c items x e = ground arith

lt_of_le_ne : (a b : ℕ) → a ≤ b → a ≢ b → a < b
lt_of_le_ne a b h ne = omega arith

-- A packet of an allowed size is appended if there is room, and otherwise counted as dropped.
pub queue_push_refines :
    (q : PacketQueue) (packet : List ℕ) (sequence : ℕ)
    → IsValid q
    → Carried q packet
    → let (q', taken) = queue_push q packet sequence in
      ((contents q', taken)
        ≡ enqueue q.capacity (contents q) (record { bytes = packet; sequence = sequence }))
      × (q'.dropped_packets ≡ (if taken then q.dropped_packets else u64 (q.dropped_packets + 1)))
queue_push_refines q packet sequence v size =
    elim (ℕ_discrete ((q.producer + 1) % q.slot_count) q.consumer) [
      | yes full ↦
          rw
            (
              push_full q packet sequence v size full,
              enqueue-full q.capacity (contents q) (slot_of packet sequence)
                  ((contents_full_iff q v).0 full),
            )
            (refl, refl)
      | no free ↦
          rw
            (
              push_free q packet sequence v size free,
              enqueue-free q.capacity (contents q) (slot_of packet sequence) (
                  lt_of_le_ne _ _ (length-contents-le q v)
                    (λ e. free ((contents_full_iff q v).1 e))),
            )
            (ap (λ l. (l, true)) (contents-filled q (slot_of packet sequence) v free), refl)
    ]

-- A packet of another size changes nothing.
pub queue_push-wrong_size :
    (q : PacketQueue) (packet : List ℕ) (sequence : ℕ)
    → (length packet ≡ 0) ⊎ (q.mtu < length packet)
    → queue_push q packet sequence ≡ (q, false)
unfolding queue_push
queue_push-wrong_size q packet sequence h = ground arith

-- A window that is not empty starts with the consumer's slot.
contents-nonempty :
    (q : PacketQueue)
    → IsValid q
    → q.consumer ≢ q.producer
    → contents q
      ≡ get_or q.slots q.consumer empty_slot
        ∷ contents (record q { consumer = (q.consumer + 1) % q.slot_count })
contents-nonempty q v ne =
    let k' = distance q.producer ((q.consumer + 1) % q.slot_count) q.slot_count in
    let e : distance q.producer q.consumer q.slot_count ≡ suc k' = omega (
      arith,
      distance-next_consumer q.producer q.consumer q.slot_count v.producer_in v.consumer_in ne,
    ) in
    ap (window empty_slot q.slot_count q.slots q.consumer) e

contents-empty : (q : PacketQueue) → IsValid q → q.consumer ≡ q.producer → contents q ≡ []
contents-empty q v e =
    ap (window empty_slot q.slot_count q.slots q.consumer)
      ((distance-zero_iff q.producer q.consumer q.slot_count v.producer_in v.consumer_in).1 e)

module _ (q : PacketQueue) (v : IsValid q) (ne : q.consumer ≢ q.producer) where
  pub discard_stored :
      queue_discard q ≡ (record q { consumer = (q.consumer + 1) % q.slot_count }, true)
  unfolding queue_discard
  discard_stored =
      let e = next_index-eq q q.consumer (omega arith) in rw (e, queue_discard) (ground arith)

  peek_stored : queue_peek q ≡ some (get_or q.slots q.consumer empty_slot)
  unfolding queue_peek
  peek_stored = ground arith

  pop_stored :
      (capacity : ℕ)
      → let slot = get_or q.slots q.consumer empty_slot in
        queue_pop q capacity ≡ (
          if ltb capacity (length slot.bytes)
          then (q, none)
          else (record q { consumer = (q.consumer + 1) % q.slot_count }, some slot))
  unfolding queue_pop
  pop_stored capacity = ground (arith, next_index-eq q q.consumer)

  depth_stored : (queue_depth q == 0) ≡ false
  unfolding queue_depth
  depth_stored =
      ground (
        arith,
        (distance-zero_iff q.producer q.consumer q.slot_count v.producer_in v.consumer_in).0,
      )

module _ (q : PacketQueue) (v : IsValid q) (e : q.consumer ≡ q.producer) where
  pub discard_nothing : queue_discard q ≡ (q, false)
  unfolding queue_discard
  discard_nothing = ground arith

  pub peek_nothing : queue_peek q ≡ none
  unfolding queue_peek
  peek_nothing = ground arith

  pop_nothing : (capacity : ℕ) → queue_pop q capacity ≡ (q, none)
  unfolding queue_pop
  pop_nothing capacity = ground arith

  depth_nothing : (queue_depth q == 0) ≡ true
  unfolding queue_depth
  depth_nothing = ground (
    arith,
    (distance-zero_iff q.producer q.consumer q.slot_count v.producer_in v.consumer_in).1 e,
  )

-- Peeking shows the oldest packet, and discarding drops it; both fail on the empty queue only.
pub queue_discard_refines :
    (q : PacketQueue)
    → IsValid q
    → (queue_peek q ≡ front (contents q))
      × (contents (queue_discard q).0 ≡ (dequeue (contents q)).0)
      × ((queue_discard q).1 ≡ not (queue_depth q == 0))
unfolding front dequeue
queue_discard_refines q v = elim (ℕ_discrete q.consumer q.producer) [
  | yes e ↦
      rw (peek_nothing q v e, discard_nothing q v e, depth_nothing q v e, contents-empty q v e)
        (refl, refl, refl)
  | no ne ↦
      rw (peek_stored q v ne, discard_stored q v ne, depth_stored q v ne, contents-nonempty q v ne)
        (refl, refl, refl)
]

-- A pop hands out the oldest packet and drops it, if it fits the caller's buffer; otherwise it changes
-- nothing.
pub queue_pop_refines :
    (q : PacketQueue) (capacity : ℕ)
    → IsValid q
    → let (q', out) = queue_pop q capacity in
      (contents q', out) ≡ dequeue_if (λ slot. not (ltb capacity (length slot.bytes))) (contents q)
unfolding dequeue_if
queue_pop_refines q capacity v = elim (ℕ_discrete q.consumer q.producer) [
  | yes e ↦
      rw (contents-empty q v e) (rw (pop_nothing q v e capacity) (rw (contents-empty q v e) refl))
  | no ne ↦
      let slot = get_or q.slots q.consumer empty_slot in
      elim (Bool-cases (ltb capacity (length slot.bytes))) [
        | inl big ↦
            rw (pop_stored q v ne capacity, big) (rw (contents-nonempty q v ne) (rw big refl))
        | inr fits ↦
            rw (pop_stored q v ne capacity, fits) (rw (contents-nonempty q v ne) (rw fits refl))
      ]
]
