-- ===== src/PacketQueue/Tests.antt =====
-- The queue of packets on concrete calls.
use reticulum_tnc.Base.{◌≤◌, [], ◌∷◌, ◌++◌, length, replicate, ◌≡◌, refl, false, none, some, arith}
use reticulum_tnc.PacketQueue.{
  PacketSlot, PacketQueue, empty_slot, queue_init, queue_push, queue_pop,
}
use reticulum_tnc.PacketQueue.Invariant.{IsValid}
use reticulum_tnc.PacketQueue.Refine.{contents}
use reticulum_tnc.PacketQueue.Threads.{resting, checked, waiting, Threads, Reach, here, next, check}
use reticulum_tnc.PacketQueue.Threads.Fifo.{IsSound, Reach-fifo}

-- Room for two packets, going round: the older one in slot 2, the newer in slot 0.
abbrev older : PacketSlot
older = record { bytes = 1 ∷ 2 ∷ []; sequence = 7 }

abbrev newer : PacketSlot
newer = record { bytes = 3 ∷ []; sequence = 8 }

abbrev full : PacketQueue
full = record {
  slots = newer ∷ empty_slot ∷ older ∷ replicate 6 empty_slot;
  mtu = 500;
  capacity = 2;
  slot_count = 3;
  producer = 1;
  consumer = 2;
  maximum_depth = 2;
  dropped_packets = 0;
}

abbrev blank : PacketQueue
blank = record full {
  slots = replicate 9 empty_slot;
  producer = 0;
  consumer = 0;
  maximum_depth = 0;
}

contents-full : contents full ≡ older ∷ newer ∷ []
contents-full = refl

push_full_runs : (queue_push full (9 ∷ []) 9).1 ≡ false
unfolding queue_push
push_full_runs = refl

pop_runs : (queue_pop full 500).1 ≡ some older
unfolding queue_pop
pop_runs = refl

pop_no_room : queue_pop full 1 ≡ (full, none)
unfolding queue_pop
pop_no_room = refl

full-IsValid : IsValid full
full-IsValid = omega arith

init_runs : queue_init 2 500 ≡ some blank
unfolding queue_init
init_runs = refl

abbrev at_start : Threads
at_start = record {
  queue = blank;
  at_producer = resting;
  at_consumer = waiting;
  pushed = [];
  popped = [];
}

abbrev after_check : Threads
after_check = record at_start { at_producer = checked 0 older }

one_step : Reach at_start after_check
one_step = next here (check at_start older refl (omega arith, omega arith) (omega arith))

Reach-fifo_example :
    (after_check.pushed ≡ after_check.popped ++ contents after_check.queue)
    × (length (contents after_check.queue) ≤ 2)
    × IsSound blank
Reach-fifo_example = Reach-fifo at_start after_check (omega arith) refl refl refl refl refl one_step
