-- ===== src/DecodeQueue/Tests.antt =====
-- The queue of bursts on concrete samples: a sample is a number, and it is stored doubled.
use reticulum_tnc.Base.{ℕ, ◌*◌, ◌/◌, [], ◌∷◌, replicate}
use reticulum_tnc.DecodeQueue.{DecodeQueue, DecodeSlot, empty_slot}
use reticulum_tnc.DecodeQueue.Refine.{slots}

abbrev doubled : ℕ → ℕ
doubled x = x * 2

abbrev halved : ℕ → ℕ
halved x = x / 2

abbrev burst : DecodeSlot
burst = record { samples = 2 ∷ 4 ∷ []; sequence = 3; enqueued_monotonic_ns = 10 }

abbrev queue : DecodeQueue
queue = record {
  slots = burst ∷ replicate 8 empty_slot;
  capacity = 2;
  slot_count = 3;
  producer = 1;
  consumer = 0;
  maximum_depth = 1;
  dropped = 0;
}
