-- ===== src/AudioRing.antt =====
-- The ring of captured audio, src/platform/audio_ring.c: a `Ring.Spsc` of blocks. A block is its
-- `count` first samples; `dropped` is dropped_blocks.
pub mod Refine
mod Tests
use reticulum_tnc.Base.{
  ℕ, zero, suc, ◌+◌, ◌-◌, ◌*◌, ◌/◌, ◌%◌, ◌^◌, ◌≤◌, ◌<◌, min, max, bit_xor, u8, u16, u32, u64, ◌<<<◌,
  ◌>>>◌, test_bit, AreBytes, List, [], ◌∷◌, ◌++◌, map, append-nil, append_assoc, length, get_or,
  set, take, drop, replicate, length-append, length-set, get_or-set_self, get_or-set_ne,
  length-take, length-drop, length-replicate, get_or-replicate, take-append-drop, take-append,
  drop-append, take_all, get_or-append_right, take_add, drop_add, ltb, leb, ◌==◌, if◌then◌else◌,
  ltb→lt, lt→ltb, leb→le, ==_iff, Bool-cases, Option-cases, Result, ok, err, ◌>>=◌, ◌>>◌, fail_if,
  ◌≡◌, refl, sym, ap, ap₂, subst, ◌∙◌, ◌≢◌, ◌↔◌, ◌⊎◌, inl, inr, Bool, true, false, not, ◌&&◌, ◌||◌,
  Option, none, some, arith, dec_lt, dec_le, ℕ_discrete,
}
use reticulum_tnc.Ring.Spsc.{Spsc, spsc_init, spsc_push, spsc_pop, spsc_depth}

abbrev pub block_samples : ℕ
block_samples = 480

abbrev pub max_capacity : ℕ
max_capacity = 32

-- `rtnc_audio_block_t`, and the ring of them.
abbrev pub AudioBlock : Type 0
AudioBlock = List ℕ

abbrev pub AudioRing : Type 0
AudioRing = Spsc AudioBlock

abbrev pub no_samples : AudioBlock
no_samples = []

unfoldable pub audio_ring_init : ℕ → Option AudioRing
audio_ring_init capacity = spsc_init no_samples max_capacity capacity

unfoldable pub audio_ring_push : AudioRing → List ℕ → AudioRing × Bool
audio_ring_push ring samples =
    if length samples == 0 || ltb block_samples (length samples)
    then (ring, false)
    else spsc_push ring samples

unfoldable pub audio_ring_pop : AudioRing → AudioRing × Option AudioBlock
audio_ring_pop ring = spsc_pop no_samples ring

unfoldable pub audio_ring_depth : AudioRing → ℕ
audio_ring_depth ring = spsc_depth ring
