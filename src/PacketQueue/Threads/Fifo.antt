-- ===== src/PacketQueue/Threads/Fifo.antt =====
-- However the threads interleave, packets come out complete, in order, and each once.
use reticulum_tnc.Base.{
  ℕ, suc, ◌+◌, ◌%◌, ◌≤◌, ◌<◌, u64, [], ◌∷◌, ◌++◌, append_assoc, length, get_or, set, length-set,
  get_or-set_self, get_or-set_ne, ◌≡◌, refl, sym, ap, ◌∙◌, ◌≢◌, arith,
}
use reticulum_tnc.Ring.Index.{
  distance, next-lt, distance-lt, distance-zero_iff, full_iff, distance-next_producer,
  distance-next_consumer, producer_of_distance,
}
use reticulum_tnc.Ring.Window.{window, window_write, window_publish, length-window}
use reticulum_tnc.PacketQueue.{PacketSlot, PacketQueue, empty_slot, next_index, raised}
use reticulum_tnc.PacketQueue.Refine.{contents}
use reticulum_tnc.PacketQueue.Threads.{
  ProducerAt, resting, checked, written, published, ConsumerAt, waiting, peeked, copied, Threads,
  next_producer, Step, check, reject, write, publish, raise, peek, copy, leave, discard, Reach,
  here, next,
}

-- The queue itself, apart from the threads.
pub record IsSound (q : PacketQueue) : Type 0 where
  pub sized : q.slot_count ≡ q.capacity + 1
  pub bounded : q.capacity ≤ 8
  pub storage : length q.slots ≡ 9
  pub producer_in : q.producer < q.slot_count
  pub consumer_in : q.consumer < q.slot_count
  pub deepest : q.maximum_depth ≤ q.capacity

-- What the threads rely on between their accesses: the producer on its free slot, and the consumer on
-- the slot that it reads.
abbrev pub ProducerHolds : PacketQueue → ProducerAt → Type 0
ProducerHolds q resting = Unit {0}
ProducerHolds q (checked seen slot) = (next_producer q ≢ q.consumer) × (seen < q.slot_count)
ProducerHolds q (written seen slot) =
    (next_producer q ≢ q.consumer)
    × (seen < q.slot_count)
    × (get_or q.slots q.producer empty_slot ≡ slot)
ProducerHolds q (published seen) = seen < q.slot_count

abbrev pub ConsumerHolds : PacketQueue → ConsumerAt → Type 0
ConsumerHolds q waiting = Unit {0}
ConsumerHolds q peeked = q.consumer ≢ q.producer
ConsumerHolds q (copied slot) =
    (q.consumer ≢ q.producer) × (get_or q.slots q.consumer empty_slot ≡ slot)

pub record Inv (t : Threads) : Type 0 where
  pub sound : IsSound t.queue
  pub fifo : t.pushed ≡ t.popped ++ contents t.queue
  pub producer : ProducerHolds t.queue t.at_producer
  pub consumer : ConsumerHolds t.queue t.at_consumer

next_index-eq :
    (q : PacketQueue) (i : ℕ)
    → IsSound q
    → i < q.slot_count
    → next_index q i ≡ (i + 1) % q.slot_count
next_index-eq q i v h = let e : u64 (i + 1) ≡ i + 1 = omega arith in rw e

check-Inv :
    (t : Threads) (slot : PacketSlot)
    → next_producer t.queue ≢ t.queue.consumer
    → Inv t
    → Inv (record t { at_producer = checked t.queue.consumer slot })
check-Inv t slot room v = record {
  sound = v.sound;
  fifo = v.fifo;
  producer = (room, v.sound.consumer_in);
  consumer = v.consumer;
}

-- The counters are of no concern to the consumer.
counters-ConsumerHolds :
    (q : PacketQueue) (at : ConsumerAt) (m d : ℕ)
    → ConsumerHolds q at
    → ConsumerHolds (record q { maximum_depth = m; dropped_packets = d }) at
counters-ConsumerHolds q waiting m d h = tt
counters-ConsumerHolds q peeked m d h = h
counters-ConsumerHolds q (copied s) m d h = h

reject-Inv :
    (t : Threads) (n : ℕ)
    → t.at_producer ≡ resting
    → Inv t
    → Inv (record t { queue = record (t.queue) { dropped_packets = n } })
reject-Inv t n e v = record {
  sound = ground arith;
  fifo = v.fifo;
  producer = rw e tt;
  consumer = counters-ConsumerHolds t.queue t.at_consumer t.queue.maximum_depth n v.consumer;
}

-- The consumer's slot is another than the one that the producer writes.
write-ConsumerHolds :
    (q : PacketQueue) (at : ConsumerAt) (slot : PacketSlot)
    → ConsumerHolds q at
    → ConsumerHolds (record q { slots = set q.slots q.producer slot }) at
write-ConsumerHolds q waiting slot h = tt
write-ConsumerHolds q peeked slot h = h
write-ConsumerHolds q (copied s) slot h =
    (h.0, get_or-set_ne q.slots q.producer q.consumer slot empty_slot (λ e. h.0 (sym e)) ∙ h.1)

write-Inv :
    (t : Threads) (seen : ℕ) (slot : PacketSlot)
    → t.at_producer ≡ checked seen slot
    → Inv t
    → Inv (record t {
      queue = record (t.queue) { slots = set t.queue.slots t.queue.producer slot };
      at_producer = written seen slot;
    })
write-Inv t seen slot e v =
    let q = t.queue in
    let s = v.sound in
    let held : ProducerHolds q (checked seen slot) = rw e at v.producer in
    let same : length (set q.slots q.producer slot) ≡ length q.slots =
      length-set q.slots q.producer slot in
    record {
      sound = ground arith;
      fifo =
          v.fifo
          ∙ ap (λ l. t.popped ++ l)
              (sym (
                window_write empty_slot q.slot_count q.slots q.producer slot q.consumer
                  (distance q.producer q.consumer q.slot_count) s.consumer_in
                  (distance-lt q.producer q.consumer q.slot_count s.producer_in s.consumer_in)
                  (producer_of_distance q.producer q.consumer q.slot_count s.producer_in
                    s.consumer_in)));
      producer = (held.0, held.1, get_or-set_self q.slots q.producer slot empty_slot (omega arith));
      consumer = write-ConsumerHolds q t.at_consumer slot v.consumer;
    }

-- The queue after the producer's index has moved.
abbrev moved : PacketQueue → PacketQueue
moved q = record q { producer = next_producer q }

distance-moved :
    (q : PacketQueue)
    → IsSound q
    → next_producer q ≢ q.consumer
    → distance (next_producer q) q.consumer q.slot_count
      ≡ suc (distance q.producer q.consumer q.slot_count)
distance-moved q s room =
    let e = next_index-eq q q.producer s s.producer_in in
    let d =
      distance-next_producer q.producer q.consumer q.slot_count s.producer_in s.consumer_in
        (rw e at room) in
    rw e (omega (arith, d))

moved-in : (q : PacketQueue) → IsSound q → next_producer q < q.slot_count
moved-in q s =
    rw (next_index-eq q q.producer s s.producer_in) (next-lt q.producer q.slot_count s.producer_in)

moved-ConsumerHolds :
    (q : PacketQueue) (at : ConsumerAt)
    → next_producer q ≢ q.consumer
    → ConsumerHolds q at
    → ConsumerHolds (moved q) at
moved-ConsumerHolds q waiting room h = tt
moved-ConsumerHolds q peeked room h = λ e. room (sym e)
moved-ConsumerHolds q (copied s) room h = (λ e. room (sym e), h.1)

publish-Inv :
    (t : Threads) (seen : ℕ) (slot : PacketSlot)
    → t.at_producer ≡ written seen slot
    → Inv t
    → Inv (record t {
      queue = moved t.queue;
      at_producer = published seen;
      pushed = t.pushed ++ (slot ∷ []);
    })
publish-Inv t seen slot e v =
    let q = t.queue in
    let s = v.sound in
    let k = distance q.producer q.consumer q.slot_count in
    let held : ProducerHolds q (written seen slot) = rw e at v.producer in
    let inside = moved-in q s in
    record {
      sound = ground arith;
      fifo =
          ap (λ l. l ++ (slot ∷ [])) v.fifo
          ∙ append_assoc t.popped (contents q) (slot ∷ [])
          ∙ ap (λ l. t.popped ++ l)
              (ap (λ x. contents q ++ (x ∷ [])) (sym held.2)
                ∙ sym (
                    window_publish empty_slot q.slot_count q.slots q.producer q.consumer k
                      s.consumer_in
                      (producer_of_distance q.producer q.consumer q.slot_count s.producer_in
                        s.consumer_in))
                ∙ ap (window empty_slot q.slot_count q.slots q.consumer)
                    (sym (distance-moved q s held.0)));
      producer = held.1;
      consumer = moved-ConsumerHolds q t.at_consumer held.0 v.consumer;
    }

raise-Inv :
    (t : Threads) (seen : ℕ)
    → t.at_producer ≡ published seen
    → Inv t
    → let q = t.queue in
      Inv (record t {
        queue = record q {
          maximum_depth = raised q.maximum_depth (distance q.producer seen q.slot_count);
        };
        at_producer = resting;
      })
raise-Inv t seen e v =
    let q = t.queue in
    let s = v.sound in
    let held : ProducerHolds q (published seen) = rw e at v.producer in
    record {
      sound = ground (arith, distance-lt q.producer seen q.slot_count s.producer_in held);
      fifo = v.fifo;
      producer = tt;
      consumer =
          counters-ConsumerHolds q t.at_consumer
            (raised q.maximum_depth (distance q.producer seen q.slot_count)) q.dropped_packets
            v.consumer;
    }

-- The steps of the consumer that change only where it stands.
consumer-Inv :
    (t : Threads) (at : ConsumerAt)
    → ConsumerHolds t.queue at
    → Inv t
    → Inv (record t { at_consumer = at })
consumer-Inv t at h v = record {
  sound = v.sound;
  fifo = v.fifo;
  producer = v.producer;
  consumer = h;
}

-- The queue after the consumer's index has moved.
abbrev taken : PacketQueue → PacketQueue
taken q = record q { consumer = next_index q q.consumer }

taken-room :
    (q : PacketQueue)
    → IsSound q
    → q.consumer ≢ q.producer
    → next_producer q ≢ q.consumer
    → next_producer q ≢ next_index q q.consumer
taken-room q s stored room e =
    let p' = next_index-eq q q.producer s s.producer_in in
    let c' = next_index-eq q q.consumer s s.consumer_in in
    let n = q.slot_count in
    omega (
      arith,
      (full_iff q.producer ((q.consumer + 1) % n) n s.producer_in
            (next-lt q.consumer n s.consumer_in)).0
          (sym p' ∙ e ∙ c'),
      distance-next_consumer q.producer q.consumer n s.producer_in s.consumer_in stored,
      distance-lt q.producer q.consumer n s.producer_in s.consumer_in,
    )

taken-ProducerHolds :
    (q : PacketQueue) (at : ProducerAt)
    → IsSound q
    → q.consumer ≢ q.producer
    → ProducerHolds q at
    → ProducerHolds (taken q) at
taken-ProducerHolds q resting s stored h = tt
taken-ProducerHolds q (checked seen slot) s stored h = (taken-room q s stored h.0, h.1)
taken-ProducerHolds q (written seen slot) s stored h = (taken-room q s stored h.0, h.1, h.2)
taken-ProducerHolds q (published seen) s stored h = h

contents-taken :
    (q : PacketQueue)
    → IsSound q
    → q.consumer ≢ q.producer
    → contents q ≡ get_or q.slots q.consumer empty_slot ∷ contents (taken q)
contents-taken q s stored =
    let n = q.slot_count in
    let c' = next_index-eq q q.consumer s s.consumer_in in
    let e : distance q.producer q.consumer n ≡ suc (distance q.producer ((q.consumer + 1) % n) n) =
      omega (
        arith,
        distance-next_consumer q.producer q.consumer n s.producer_in s.consumer_in stored,
      ) in
    ap (window empty_slot n q.slots q.consumer) e
    ∙ ap
        (λ c.
          get_or q.slots q.consumer empty_slot
          ∷ window empty_slot n q.slots c (distance q.producer c n))
        (sym c')

discard-Inv :
    (t : Threads) (slot : PacketSlot)
    → t.at_consumer ≡ copied slot
    → Inv t
    → Inv (record t {
      queue = taken t.queue;
      at_consumer = waiting;
      popped = t.popped ++ (slot ∷ []);
    })
discard-Inv t slot e v =
    let q = t.queue in
    let s = v.sound in
    let held : ConsumerHolds q (copied slot) = rw e at v.consumer in
    let inside : next_index q q.consumer < q.slot_count =
      rw (next_index-eq q q.consumer s s.consumer_in)
        (next-lt q.consumer q.slot_count s.consumer_in) in
    record {
      sound = ground arith;
      fifo =
          v.fifo
          ∙ ap (λ l. t.popped ++ l)
              (contents-taken q s held.0 ∙ ap (λ x. x ∷ contents (taken q)) held.1)
          ∙ sym (append_assoc t.popped (slot ∷ []) (contents (taken q)));
      producer = taken-ProducerHolds q t.at_producer s held.0 v.producer;
      consumer = tt;
    }

Step-Inv : {t u : Threads} → Step t u → Inv t → Inv u
Step-Inv (check t slot e size room) v = check-Inv t slot room v
Step-Inv (reject t slot e size full) v = reject-Inv t (u64 (t.queue.dropped_packets + 1)) e v
Step-Inv (write t seen slot e) v = write-Inv t seen slot e v
Step-Inv (publish t seen slot e) v = publish-Inv t seen slot e v
Step-Inv (raise t seen e) v = raise-Inv t seen e v
Step-Inv (peek t e stored) v = consumer-Inv t peeked stored v
Step-Inv (copy t e) v =
    let held : ConsumerHolds t.queue peeked = rw e at v.consumer in
    consumer-Inv t (copied (get_or t.queue.slots t.queue.consumer empty_slot)) (held, refl) v
Step-Inv (leave t e) v = consumer-Inv t waiting tt v
Step-Inv (discard t slot e stored) v = discard-Inv t slot e v

Reach-Inv : {s t : Threads} → Inv s → Reach s t → Inv t
Reach-Inv v here = v
Reach-Inv v (next r st) = Step-Inv st (Reach-Inv v r)

-- From an empty queue with both threads outside their calls, in every interleaving: the packets popped
-- so far, followed by those in the queue, are the packets pushed so far; no more than `capacity` of
-- them are in the queue, and the indices stay within the slots.
pub Reach-fifo :
    (s t : Threads)
    → IsSound s.queue
    → s.queue.consumer ≡ s.queue.producer
    → s.at_producer ≡ resting
    → s.at_consumer ≡ waiting
    → s.pushed ≡ []
    → s.popped ≡ []
    → Reach s t
    → (t.pushed ≡ t.popped ++ contents t.queue)
      × (length (contents t.queue) ≤ t.queue.capacity)
      × IsSound t.queue
Reach-fifo s t sound none_stored p c none_pushed none_popped r =
    let q = s.queue in
    let empty : contents q ≡ [] = ap (window empty_slot q.slot_count q.slots q.consumer) (
      (distance-zero_iff q.producer q.consumer q.slot_count sound.producer_in sound.consumer_in).1
        none_stored) in
    let v =
      Reach-Inv
        (record {
          sound = sound;
          fifo = rw (none_pushed, none_popped) (sym empty);
          producer = rw p tt;
          consumer = rw c tt;
        })
        r in
    let w = v.sound in
    let u = t.queue in
    (
      v.fifo,
      omega (
        arith,
        w.sized,
        distance-lt u.producer u.consumer u.slot_count w.producer_in w.consumer_in,
        length-window empty_slot u.slot_count u.slots u.consumer
            (distance u.producer u.consumer u.slot_count),
      ),
      w,
    )
