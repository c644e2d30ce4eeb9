-- ===== src/DecodeQueue.antt =====
-- The queue between detection and a decoder, src/platform/decode_queue.c: a `Ring.Spsc` of slots
-- that hold compact samples. `dropped` is dropped_jobs, and a slot has its `count` first samples.
pub mod Refine
mod Tests
use reticulum_tnc.Base.{
  ℕ, zero, suc, ◌+◌, ◌-◌, ◌*◌, ◌/◌, ◌%◌, ◌^◌, ◌≤◌, ◌<◌, min, max, bit_xor, u8, u16, u32, u64, ◌<<<◌,
  ◌>>>◌, test_bit, AreBytes, List, [], ◌∷◌, ◌++◌, map, append-nil, append_assoc, length, get_or,
  set, take, drop, replicate, length-append, length-set, get_or-set_self, get_or-set_ne,
  length-take, length-drop, length-replicate, get_or-replicate, take-append-drop, take-append,
  drop-append, take_all, get_or-append_right, take_add, drop_add, ltb, leb, ◌==◌, if◌then◌else◌,
  ltb→lt, lt→ltb, leb→le, ==_iff, Bool-cases, Option-cases, Result, ok, err, ◌>>=◌, ◌>>◌, fail_if,
  ◌≡◌, refl, sym, ap, ap₂, subst, ◌∙◌, ◌≢◌, ◌↔◌, ◌⊎◌, inl, inr, Bool, true, false, not, ◌&&◌, ◌||◌,
  Option, none, some, arith, dec_lt, dec_le, ℕ_discrete,
}
use reticulum_tnc.Ring.Spsc.{Spsc, spsc_init, spsc_push, spsc_pop, spsc_depth}

abbrev pub max_capacity : ℕ
max_capacity = 8

abbrev pub max_audio_samples : ℕ
max_audio_samples = 90000

pub record DecodeSlot : Type 0 where
  pub samples : List ℕ
  pub sequence : ℕ
  pub enqueued_monotonic_ns : ℕ

pub record DecodeJob {ℓ} (Float : Type ℓ) : Type ℓ where
  pub samples : List Float
  pub sequence : ℕ
  pub enqueued_monotonic_ns : ℕ

abbrev pub DecodeQueue : Type 0
DecodeQueue = Spsc DecodeSlot

abbrev pub empty_slot : DecodeSlot
empty_slot = record { samples = []; sequence = 0; enqueued_monotonic_ns = 0 }

unfoldable pub decode_queue_init : ℕ → Option DecodeQueue
decode_queue_init capacity = spsc_init empty_slot max_capacity capacity

-- `quantize` is the bounding, scaling and rounding of a sample to 16 bits, `restore` is the way back, and
-- `now` is what monotonic_nanoseconds returns.
module _ {ℓ} {Float : Type ℓ} (quantize : Float → ℕ) (restore : ℕ → Float) where
  abbrev pub slot_of : List Float → ℕ → ℕ → DecodeSlot
  slot_of samples sequence now = record {
    samples = map quantize samples;
    sequence = sequence;
    enqueued_monotonic_ns = now;
  }

  unfoldable pub decode_queue_push : DecodeQueue → List Float → ℕ → ℕ → DecodeQueue × Bool
  decode_queue_push queue samples sequence now =
      if length samples == 0 || ltb max_audio_samples (length samples)
      then (queue, false)
      else spsc_push queue (slot_of samples sequence now)

  abbrev pub job_of : DecodeSlot → DecodeJob Float
  job_of slot = record {
    samples = map restore slot.samples;
    sequence = slot.sequence;
    enqueued_monotonic_ns = slot.enqueued_monotonic_ns;
  }

  unfoldable pub decode_queue_pop : DecodeQueue → DecodeQueue × Option (DecodeJob Float)
  decode_queue_pop queue =
      let (q, out) = spsc_pop empty_slot queue in
      (q, elim out [ none ↦ none | some slot ↦ some (job_of slot) ])

unfoldable pub decode_queue_depth : DecodeQueue → ℕ
decode_queue_depth queue = spsc_depth queue
