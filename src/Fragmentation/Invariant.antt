-- ===== src/Fragmentation/Invariant.antt =====
-- The state of the reassembly, and how each push leaves it.
use reticulum_tnc.Base.{
  ℕ, ◌-◌, ◌*◌, ◌≤◌, ◌<◌, List, [], ◌∷◌, length, length-append, if◌then◌else◌, Bool-cases, ok, ◌≡◌,
  refl, ◌≢◌, ◌⊎◌, inl, inr, true, false, arith,
}
use reticulum_tnc.Fragmentation.{
  FragmentStatus, complete, incomplete, invalid_frame, invalid_sequence, buffer_too_small, timeout,
  Reassembly, Pushed, reassembly_init, reassembly_reset, reassembly_push, push_start,
  push_continuation, append_data, remaining_of, data_of, expired, started, failed, out_of_sequence,
  valid_payload_class,
}

pub record IsValid (r : Reassembly) : Type 0 where
  pub fits : length r.packet ≤ r.mtu
  pub counter : r.remaining < 128
  pub waiting : r.active ≡ true → (1 ≤ r.remaining) × (1 ≤ length r.packet)

-- What a push leaves, past its status: the settings of the receiver do not change.
pub record SameSettings (r s : Reassembly) : Type 0 where
  pub mtu : s.mtu ≡ r.mtu
  pub class : s.radio_payload_class ≡ r.radio_payload_class
  pub patience : s.timeout_ms ≡ r.timeout_ms

-- An accepted configuration starts valid and idle, within the limits of the link and of the
-- fragment counter.
pub reassembly_init-IsValid :
    (mtu k timeout_ms : ℕ) (r : Reassembly)
    → reassembly_init mtu k timeout_ms ≡ ok r
    → IsValid r
      × (r.active ≡ false)
      × (valid_payload_class k ≡ true)
      × (500 ≤ mtu)
      × (mtu ≤ 16256)
      × (mtu ≤ 128 * (k - 1))
      × (r.mtu ≡ mtu)
      × (r.radio_payload_class ≡ k)
      × (0 < r.timeout_ms)
unfolding reassembly_init
reassembly_init-IsValid mtu k timeout_ms r h = ground arith

append_data-IsValid :
    (r : Reassembly) (bytes : List ℕ)
    → r.remaining < 128
    → 1 ≤ length bytes
    → IsValid (append_data r bytes).state
unfolding append_data
append_data-IsValid r bytes small some_data = ground (arith, length-append r.packet bytes)

append_data-SameSettings :
    (r : Reassembly) (bytes : List ℕ) → SameSettings r (append_data r bytes).state
unfolding append_data
append_data-SameSettings r bytes = ground arith

push_start-IsValid :
    (r : Reassembly) (m : ℕ) (bytes : List ℕ) (now : ℕ)
    → m < 128
    → 1 ≤ length bytes
    → IsValid (push_start r m bytes now).state
unfolding push_start
push_start-IsValid r m bytes now small some_data =
    append_data-IsValid (started r m now) bytes small some_data

push_continuation-IsValid :
    (r : Reassembly) (m : ℕ) (bytes : List ℕ)
    → m < 128
    → 1 ≤ length bytes
    → IsValid (push_continuation r m bytes).state
unfolding push_continuation reassembly_reset
push_continuation-IsValid r m bytes small some_data =
    ground (arith, append_data-IsValid (record r { remaining = m }) bytes small some_data)

reset-IsValid : (r : Reassembly) → IsValid (reassembly_reset r)
unfolding reassembly_reset
reset-IsValid r = ground arith

pub length-data_of : (frame : List ℕ) → 1 < length frame → 1 ≤ length (data_of frame)
length-data_of [] h = absurd (omega arith)
length-data_of (x ∷ xs) h = omega arith

-- Every push keeps the invariant: the packet within the MTU, the countdown within its seven bits, and
-- a packet in progress with something received and something to come.
pub reassembly_push-IsValid :
    (r : Reassembly) (frame : List ℕ) (now : ℕ)
    → IsValid r
    → IsValid (reassembly_push r frame now).state
unfolding reassembly_push
reassembly_push-IsValid r frame now v =
    let r' = if expired r now then reassembly_reset r else r in
    ground (
      arith,
      reset-IsValid r,
      length-data_of frame,
      push_start-IsValid r' (remaining_of frame) (data_of frame) now (omega arith),
      push_continuation-IsValid r' (remaining_of frame) (data_of frame) (omega arith),
    )

pub reassembly_push-SameSettings :
    (r : Reassembly) (frame : List ℕ) (now : ℕ) → SameSettings r (reassembly_push r frame now).state
unfolding reassembly_push push_start push_continuation reassembly_reset
reassembly_push-SameSettings r frame now =
    let r' = if expired r now then reassembly_reset r else r in
    ground (
      arith,
      append_data-SameSettings (started r' (remaining_of frame) now) (data_of frame),
      append_data-SameSettings (record r' { remaining = remaining_of frame }) (data_of frame),
    )

-- A push that completes a packet leaves one that is not empty.
pub completed_some :
    (r : Reassembly) (frame : List ℕ) (now : ℕ)
    → (reassembly_push r frame now).status ≡ complete
    → 1 ≤ length (reassembly_push r frame now).state.packet
unfolding reassembly_push push_start push_continuation append_data
completed_some r frame now h =
    let r' = if expired r now then reassembly_reset r else r in
    ground (arith, length-data_of frame, length-append r'.packet (data_of frame))

-- How a status and the state after it belong together.
pub record Explained (r : Reassembly) (out : Pushed) : Type 0 where
  pub done :
      out.status ≡ complete
      → (out.packet_length ≡ length out.state.packet) × (out.state.active ≡ false)
  pub silent : out.status ≢ complete → out.packet_length ≡ 0
  pub going_on : out.status ≡ incomplete → out.state.active ≡ true
  pub ignored : out.status ≡ invalid_frame → out.state ≡ r
  pub dropped :
      (out.status ≡ invalid_sequence) ⊎ ((out.status ≡ buffer_too_small) ⊎ (out.status ≡ timeout))
      → (out.state.active ≡ false) × (out.state.packet ≡ [])

append_data-Explained :
    (r : Reassembly) (bytes : List ℕ) (q : Reassembly)
    → r.active ≡ true
    → Explained q (append_data r bytes)
unfolding append_data
append_data-Explained r bytes q on = record {
  done = ground arith;
  silent = ground arith;
  going_on = ground arith;
  ignored = ground arith;
  dropped = ground arith;
}

-- A status after which the receiver starts over.
abbrev IsDrop : FragmentStatus → Type 0
IsDrop s = (s ≡ invalid_sequence) ⊎ ((s ≡ buffer_too_small) ⊎ (s ≡ timeout))

failed-Explained : (s : FragmentStatus) (r q : Reassembly) → IsDrop s → Explained q (failed s r)
unfolding reassembly_reset
failed-Explained s r q d = record {
  done = ground arith;
  silent = ground arith;
  going_on = ground arith;
  ignored = ground arith;
  dropped = ground arith;
}

push_continuation-Explained :
    (r q : Reassembly) (m : ℕ) (bytes : List ℕ) → Explained q (push_continuation r m bytes)
unfolding push_continuation
push_continuation-Explained r q m bytes = elim (Bool-cases (out_of_sequence r m)) [
  | inl e ↦ rw (e, push_continuation) (failed-Explained invalid_sequence r q (inl refl))
  | inr e ↦
      rw (e, push_continuation)
        (append_data-Explained (record r { remaining = m }) bytes q (ground arith))
]

ignored-Explained :
    (r : Reassembly) → Explained r (record { status = invalid_frame; packet_length = 0; state = r })
ignored-Explained r = record {
  done = ground arith;
  silent = ground arith;
  going_on = ground arith;
  ignored = ground arith;
  dropped = ground arith;
}

-- What each status of a push says of the state after it: a complete packet is reported with its length
-- and nothing else is, a wrong size changes nothing, and the errors of sequence, size and time
-- leave the receiver idle and empty.
pub reassembly_push-Explained :
    (r : Reassembly) (frame : List ℕ) (now : ℕ) → Explained r (reassembly_push r frame now)
unfolding reassembly_push push_start
reassembly_push-Explained r frame now =
    let r' = if expired r now then reassembly_reset r else r in
    ground (
      arith,
      ignored-Explained r,
      failed-Explained timeout r r (inr (inr refl)),
      append_data-Explained (started r' (remaining_of frame) now) (data_of frame) r refl,
      push_continuation-Explained r' r (remaining_of frame) (data_of frame),
    )
