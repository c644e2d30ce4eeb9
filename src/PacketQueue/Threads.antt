-- ===== src/PacketQueue/Threads.antt =====
-- The producer's and the consumer's thread on one queue, src/platform/packet_queue.c.
-- A step is one access to what both threads see; the accesses of a call come in its order, and
-- those of the two threads in any. Acquire and release make the accesses sequentially consistent.
pub mod Fifo
use reticulum_tnc.Base.{
  ℕ, zero, suc, ◌+◌, ◌-◌, ◌*◌, ◌/◌, ◌%◌, ◌^◌, ◌≤◌, ◌<◌, min, max, bit_xor, u8, u16, u32, u64, ◌<<<◌,
  ◌>>>◌, test_bit, AreBytes, List, [], ◌∷◌, ◌++◌, map, append-nil, append_assoc, length, get_or,
  set, take, drop, replicate, length-append, length-set, get_or-set_self, get_or-set_ne,
  length-take, length-drop, length-replicate, take-append-drop, take-append, drop-append, take_all,
  get_or-append_right, take_add, drop_add, ltb, leb, ◌==◌, if◌then◌else◌, ltb→lt, lt→ltb, leb→le,
  ==_iff, Bool-cases, Option-cases, Result, ok, err, ◌>>=◌, ◌>>◌, fail_if, ◌≡◌, refl, sym, ap, ap₂,
  subst, ◌∙◌, ◌≢◌, ◌↔◌, ◌⊎◌, inl, inr, Bool, true, false, not, ◌&&◌, ◌||◌, Option, none, some,
  arith, dec_lt, dec_le, ℕ_discrete,
}
use reticulum_tnc.Ring.Index.{
  distance, next-lt, distance-lt, distance-zero_iff, full_iff, distance-next_producer,
  distance-next_consumer, producer_of_distance,
}
use reticulum_tnc.Ring.Window.{window, window_write, window_publish}
use reticulum_tnc.PacketQueue.{
  max_capacity, PacketSlot, PacketQueue, empty_slot, next_index, raised,
}
use reticulum_tnc.PacketQueue.Refine.{contents, Carried}

-- Where the producer stands in `rtnc_packet_queue_push`; `seen` is the consumer's index that it loaded.
pub data ProducerAt : Type 0 where
  resting : ProducerAt
  checked : (seen : ℕ) → PacketSlot → ProducerAt
  written : (seen : ℕ) → PacketSlot → ProducerAt
  published : (seen : ℕ) → ProducerAt

-- Where the consumer stands in `rtnc_packet_queue_pop`.
pub data ConsumerAt : Type 0 where
  waiting : ConsumerAt
  peeked : ConsumerAt
  copied : PacketSlot → ConsumerAt

-- Both threads, and what they have pushed and popped so far.
pub record Threads : Type 0 where
  pub queue : PacketQueue
  pub at_producer : ProducerAt
  pub at_consumer : ConsumerAt
  pub pushed : List PacketSlot
  pub popped : List PacketSlot

abbrev pub next_producer : PacketQueue → ℕ
next_producer q = next_index q q.producer

pub data Step : Threads → Threads → Type 0 where
  check :
      (t : Threads) (slot : PacketSlot)
      → t.at_producer ≡ resting
      → Carried t.queue slot.bytes
      → next_producer t.queue ≢ t.queue.consumer
      → Step t (record t { at_producer = checked t.queue.consumer slot })
  reject :
      (t : Threads) (slot : PacketSlot)
      → t.at_producer ≡ resting
      → Carried t.queue slot.bytes
      → next_producer t.queue ≡ t.queue.consumer
      → Step t (record t {
        queue = record (t.queue) { dropped_packets = u64 (t.queue.dropped_packets + 1) };
      })
  write :
      (t : Threads) (seen : ℕ) (slot : PacketSlot)
      → t.at_producer ≡ checked seen slot
      → Step t (record t {
        queue = record (t.queue) { slots = set t.queue.slots t.queue.producer slot };
        at_producer = written seen slot;
      })
  publish :
      (t : Threads) (seen : ℕ) (slot : PacketSlot)
      → t.at_producer ≡ written seen slot
      → Step t (record t {
        queue = record (t.queue) { producer = next_producer t.queue };
        at_producer = published seen;
        pushed = t.pushed ++ (slot ∷ []);
      })
  raise :
      (t : Threads) (seen : ℕ)
      → t.at_producer ≡ published seen
      → Step t (record t {
        queue = record (t.queue) {
          maximum_depth =
              raised t.queue.maximum_depth (distance t.queue.producer seen t.queue.slot_count);
        };
        at_producer = resting;
      })
  peek :
      (t : Threads)
      → t.at_consumer ≡ waiting
      → t.queue.consumer ≢ t.queue.producer
      → Step t (record t { at_consumer = peeked })
  copy :
      (t : Threads)
      → t.at_consumer ≡ peeked
      → Step t
          (record t { at_consumer = copied (get_or t.queue.slots t.queue.consumer empty_slot) })
  leave : (t : Threads) → t.at_consumer ≡ peeked → Step t (record t { at_consumer = waiting })
  discard :
      (t : Threads) (slot : PacketSlot)
      → t.at_consumer ≡ copied slot
      → t.queue.consumer ≢ t.queue.producer
      → Step t (record t {
        queue = record (t.queue) { consumer = next_index t.queue t.queue.consumer };
        at_consumer = waiting;
        popped = t.popped ++ (slot ∷ []);
      })

pub data Reach (s : Threads) : Threads → Type 0 where
  here : Reach s s
  next : {t u : Threads} → Reach s t → Step t u → Reach s u
