-- ===== src/AudioRing/Refine.antt =====
-- The ring of audio is a bounded queue of blocks.
use reticulum_tnc.Base.{
  ℕ, ◌^◌, ◌<◌, List, length, ltb, ◌==◌, if◌then◌else◌, ◌≡◌, sym, false, not, ◌&&◌, arith,
}
use reticulum_tnc.Ring.Fifo.{enqueue, dequeue}
use reticulum_tnc.Ring.Spsc.Refine.{
  IsSound, items, length-items, spsc_push-IsSound, spsc_pop-IsSound, spsc_push_refines,
  spsc_pop_refines,
}
use reticulum_tnc.AudioRing.{
  AudioRing, AudioBlock, no_samples, audio_ring_push, audio_ring_pop, audio_ring_depth,
}

abbrev pub IsValid : AudioRing → Type 0
IsValid ring = IsSound no_samples 32 ring

abbrev pub blocks : AudioRing → List AudioBlock
blocks ring = items no_samples ring

-- On a valid ring, a block of 1 to 480 samples is put behind the others if there is room, another one
-- changes nothing; a pop takes the oldest block; the depth is the number of blocks; and the ring stays
-- valid after a push and after a pop.
pub audio_ring_refines :
    (ring : AudioRing) (samples : List ℕ)
    → IsValid ring
    → let fits = not (length samples == 0) && not (ltb 480 (length samples)) in
      let (pushed, taken) = audio_ring_push ring samples in
      let (popped, out) = audio_ring_pop ring in
      ((blocks pushed, taken)
        ≡ (if fits then enqueue ring.capacity (blocks ring) samples else (blocks ring, false)))
      × ((blocks popped, out) ≡ dequeue (blocks ring))
      × (audio_ring_depth ring ≡ length (blocks ring))
      × IsValid pushed
      × IsValid popped
unfolding audio_ring_push audio_ring_pop audio_ring_depth
audio_ring_refines ring samples v =
    let small : 32 < 2 ^ 32 = omega arith in
    let push = spsc_push_refines no_samples 32 ring v small samples in
    (
      ground (arith, push.0),
      spsc_pop_refines no_samples 32 ring v small,
      sym (length-items no_samples 32 ring v small),
      ground (arith, spsc_push-IsSound no_samples 32 ring v small samples),
      spsc_pop-IsSound no_samples 32 ring v small,
    )
