-- ===== src/Config/Starts.antt =====
-- Ranges in which the queues, the reassembly and the runtime are made.
use reticulum_tnc.Base.{
  ℕ, ◌-◌, ◌*◌, ◌≤◌, min, ltb, ◌==◌, leb→le, Option-cases, Result, ok, err, ◌≡◌, refl, ◌⊎◌, inl, inr,
  true, false, not, ◌||◌, some, arith,
}
use reticulum_tnc.Rate.{max_audio_samples}
use reticulum_tnc.Config.{samples_of_ms, in_range}
use reticulum_tnc.Config.Profiles.{and-true}
use reticulum_tnc.PacketQueue.{PacketQueue, queue_init}
use reticulum_tnc.PacketQueue
use reticulum_tnc.AudioRing.{AudioRing, audio_ring_init}
use reticulum_tnc.AudioRing
use reticulum_tnc.DecodeQueue.{DecodeQueue, decode_queue_init}
use reticulum_tnc.DecodeQueue
use reticulum_tnc.Ring.Spsc.{Spsc, spsc_init}
use reticulum_tnc.Fragmentation.{
  link_min_mtu, link_max_mtu, reassembly_init, valid_payload_class, Reassembly, FragmentStatus,
}

pub in_range_le : {low high n : ℕ} → in_range low high n ≡ true → (low ≤ n) × (n ≤ high)
in_range_le {low} {high} {n} h = let (a, b) = and-true h in (leb→le low n a, leb→le n high b)

-- The numbers of a valid configuration, as inequalities.
pub record Sizes (sample_rate mtu reassembly tx rx busy dsp decode equalizer : ℕ) : Type 0 where
  pub rate : sample_rate ≡ 48000
  pub mtu_low : link_min_mtu ≤ mtu
  pub mtu_high : mtu ≤ link_max_mtu
  pub reassembly_low : 1000 ≤ reassembly
  pub tx_low : 1 ≤ tx
  pub tx_high : tx ≤ PacketQueue.max_capacity
  pub rx_low : 1 ≤ rx
  pub rx_high : rx ≤ PacketQueue.max_capacity
  pub busy_low : 100 ≤ busy
  pub dsp_low : 2 ≤ dsp
  pub dsp_high : dsp ≤ AudioRing.max_capacity
  pub decode_low : 2 ≤ decode
  pub decode_high : decode ≤ DecodeQueue.max_capacity
  pub equalizer_low : 1 ≤ equalizer
  pub equalizer_high : equalizer ≤ DecodeQueue.max_capacity

pub counts_fit :
    (warmup pretrigger busy : ℕ)
    → 100 ≤ warmup
    → warmup ≤ 2000
    → 20 ≤ pretrigger
    → pretrigger ≤ 250
    → 500 ≤ busy
    → busy ≤ 5000
    → ((samples_of_ms 48000 warmup == 0)
        || samples_of_ms 48000 pretrigger == 0
        || ltb 12000 (samples_of_ms 48000 pretrigger)
        || 1 == 0
        || min (samples_of_ms 48000 busy) max_audio_samples == 0
        || ltb max_audio_samples (min (samples_of_ms 48000 busy) max_audio_samples)
        || ltb (min (samples_of_ms 48000 busy) max_audio_samples) 0)
      ≡ false
counts_fit warmup pretrigger busy a b c d e g = ground arith

spsc_starts :
    {A : Type 0} (free : A) (max_capacity capacity : ℕ)
    → 1 ≤ capacity
    → capacity ≤ max_capacity
    → (q : Spsc A) × (spsc_init free max_capacity capacity ≡ some q)
unfolding spsc_init
spsc_starts free max_capacity capacity low high =
    elim (Option-cases (spsc_init free max_capacity capacity)) [
      | inl e ↦ absurd (ground arith)
      | inr found ↦ found
    ]

pub audio_starts :
    (capacity : ℕ)
    → 1 ≤ capacity
    → capacity ≤ AudioRing.max_capacity
    → (ring : AudioRing) × (audio_ring_init capacity ≡ some ring)
unfolding audio_ring_init
audio_starts capacity low high =
    spsc_starts AudioRing.no_samples AudioRing.max_capacity capacity low high

pub decode_starts :
    (capacity : ℕ)
    → 1 ≤ capacity
    → capacity ≤ DecodeQueue.max_capacity
    → (queue : DecodeQueue) × (decode_queue_init capacity ≡ some queue)
unfolding decode_queue_init
decode_starts capacity low high =
    spsc_starts DecodeQueue.empty_slot DecodeQueue.max_capacity capacity low high

pub queue_starts :
    (capacity mtu : ℕ)
    → 1 ≤ capacity
    → capacity ≤ PacketQueue.max_capacity
    → link_min_mtu ≤ mtu
    → mtu ≤ link_max_mtu
    → (queue : PacketQueue) × (queue_init capacity mtu ≡ some queue)
unfolding queue_init
queue_starts capacity mtu low high mtu_low mtu_high =
    elim (Option-cases (queue_init capacity mtu)) [
      | inl e ↦ absurd (ground arith)
      | inr found ↦ found
    ]

-- A reassembly starts exactly if 128 fragments hold the MTU.
pub reassembly_holds :
    (mtu class timeout_ms : ℕ) (r : Reassembly)
    → (class ≡ 64) ⊎ (class ≡ 128)
    → reassembly_init mtu class timeout_ms ≡ ok r
    → mtu ≤ 128 * (class - 1)
unfolding reassembly_init valid_payload_class
reassembly_holds mtu class timeout_ms r either e = ground arith

pub reassembly_starts :
    (mtu class timeout_ms : ℕ)
    → (class ≡ 64) ⊎ (class ≡ 128)
    → 1000 ≤ timeout_ms
    → link_min_mtu ≤ mtu
    → mtu ≤ link_max_mtu
    → mtu ≤ 128 * (class - 1)
    → (r : Reassembly) × (reassembly_init mtu class timeout_ms ≡ ok r)
unfolding reassembly_init valid_payload_class
reassembly_starts mtu class timeout_ms either late low high holds =
    go (reassembly_init mtu class timeout_ms) refl
  where
    go :
        (result : Result FragmentStatus Reassembly)
        → reassembly_init mtu class timeout_ms ≡ result
        → (r : Reassembly) × (reassembly_init mtu class timeout_ms ≡ ok r)
    go (ok r) e = (r, e)
    go (err status) e = absurd (ground arith)

pub refused_false :
    (mtu busy : ℕ)
    → link_min_mtu ≤ mtu
    → mtu ≤ link_max_mtu
    → 100 ≤ busy
    → (ltb mtu link_min_mtu || ltb link_max_mtu mtu || busy == 0 || not true) ≡ false
refused_false mtu busy low high late = ground arith
