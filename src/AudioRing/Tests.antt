-- ===== src/AudioRing/Tests.antt =====
-- The ring of audio on concrete blocks.
use reticulum_tnc.Base.{[], ◌∷◌, length, replicate, ◌≡◌, arith}
use reticulum_tnc.Ring.Fifo.{enqueue, dequeue}
use reticulum_tnc.AudioRing.{
  AudioRing, no_samples, audio_ring_push, audio_ring_pop, audio_ring_depth,
}
use reticulum_tnc.AudioRing.Refine.{IsValid, blocks, audio_ring_refines}

abbrev ring : AudioRing
ring = record {
  slots = (1 ∷ 2 ∷ []) ∷ replicate 32 no_samples;
  capacity = 2;
  slot_count = 3;
  producer = 1;
  consumer = 0;
  maximum_depth = 1;
  dropped = 0;
}

ring-IsValid : IsValid ring
ring-IsValid = omega arith

audio_ring_refines_example :
    let (pushed, taken) = audio_ring_push ring (7 ∷ []) in
    let (popped, out) = audio_ring_pop ring in
    ((blocks pushed, taken) ≡ enqueue 2 (blocks ring) (7 ∷ []))
    × ((blocks popped, out) ≡ dequeue (blocks ring))
    × (audio_ring_depth ring ≡ length (blocks ring))
    × IsValid pushed
    × IsValid popped
audio_ring_refines_example = audio_ring_refines ring (7 ∷ []) ring-IsValid
