-- ===== src/Fragmentation.antt =====
-- Fragmentation and ordered reassembly of packets, src/framing/fragmentation.c.
-- A pointer with its length is the list of the bytes there; the guards on NULL have no counterpart.
pub mod Count
pub mod Stream
pub mod Invariant
pub mod Chains
pub mod Roundtrip
mod Tests
use reticulum_tnc.Base.{
  ℕ, zero, suc, ◌+◌, ◌-◌, ◌*◌, ◌/◌, ◌%◌, ◌^◌, ◌≤◌, ◌<◌, min, max, bit_xor, u8, u16, u32, u64, ◌<<<◌,
  ◌>>>◌, test_bit, AreBytes, List, [], ◌∷◌, ◌++◌, map, append-nil, append_assoc, length, get_or,
  set, take, drop, replicate, length-append, length-set, get_or-set_self, get_or-set_ne,
  length-take, length-drop, length-replicate, take-append-drop, take-append, drop-append, take_all,
  get_or-append_right, take_add, drop_add, ltb, leb, ◌==◌, if◌then◌else◌, ltb→lt, lt→ltb, leb→le,
  ==_iff, Bool-cases, Option-cases, Result, ok, err, ◌>>=◌, ◌>>◌, fail_if, ◌≡◌, refl, sym, ap, ap₂,
  subst, ◌∙◌, ◌≢◌, ◌↔◌, ◌⊎◌, inl, inr, Bool, true, false, not, ◌&&◌, ◌||◌, Option, none, some,
  arith, dec_lt, dec_le, ℕ_discrete,
}

abbrev pub header_size : ℕ
header_size = 1

abbrev pub max_count : ℕ
max_count = 128

abbrev pub link_min_mtu : ℕ
link_min_mtu = 500

abbrev pub link_max_mtu : ℕ
link_max_mtu = 16256

-- RTNC_FRAGMENT_OK is `Result.ok` where a call returns a result, and `complete` in `FragmentStatus`.
pub data FragmentStatus : Type 0 where
  complete incomplete invalid_argument invalid_mtu invalid_frame : FragmentStatus
  invalid_sequence buffer_too_small timeout : FragmentStatus

unfoldable pub valid_payload_class : ℕ → Bool
valid_payload_class class = class == 64 || class == 128

unfoldable pub fragment_count : ℕ → ℕ → ℕ
unfolding valid_payload_class
fragment_count packet_length class =
    if packet_length == 0 || not (valid_payload_class class)
    then 0
    else u64 (packet_length + (class - header_size) + (2 ^ 64 - 1)) / (class - header_size)

-- `byte |= 0x80`
abbrev pub set_continuation : ℕ → ℕ
set_continuation byte = if test_bit byte 7 then byte else byte + 0x80

unfoldable pub fragment_build : List ℕ → ℕ → ℕ → ℕ → Result FragmentStatus (List ℕ)
fragment_build packet class index capacity = do
  let count = fragment_count (length packet) class
  fail_if (count == 0 || ltb max_count count || leb count index) invalid_mtu
  let data_capacity = class - header_size
  let offset = index * data_capacity
  let data_length = min (length packet - offset) data_capacity
  fail_if (ltb capacity (data_length + header_size)) buffer_too_small
  let remaining = u8 (count - index - 1)
  let header = if index == 0 then remaining else set_continuation remaining
  ok (header ∷ take data_length (drop offset packet))

-- `rtnc_reassembly_t`; `packet` is the first `length` bytes of the caller's buffer.
pub record Reassembly : Type 0 where
  pub packet : List ℕ
  pub mtu : ℕ
  pub radio_payload_class : ℕ
  pub remaining : ℕ
  pub started_ms : ℕ
  pub timeout_ms : ℕ
  pub active : Bool

unfoldable pub reassembly_reset : Reassembly → Reassembly
reassembly_reset r = record r { packet = []; remaining = 0; started_ms = 0; active = false }

unfoldable pub reassembly_init : ℕ → ℕ → ℕ → Result FragmentStatus Reassembly
unfolding valid_payload_class reassembly_reset
reassembly_init mtu class timeout_ms = do
  let data_capacity = if valid_payload_class class then class - header_size else 0
  fail_if (timeout_ms == 0) invalid_argument
  fail_if
      (ltb mtu link_min_mtu
        || ltb link_max_mtu mtu
        || data_capacity == 0
        || ltb (max_count * data_capacity) mtu)
      invalid_mtu
  ok (
      reassembly_reset (record {
        packet = [];
        mtu = mtu;
        radio_payload_class = class;
        remaining = 0;
        started_ms = 0;
        timeout_ms = timeout_ms;
        active = false;
      }))

-- What a push returns: the status, `*packet_length`, and the state after it.
pub record Pushed : Type 0 where
  pub status : FragmentStatus
  pub packet_length : ℕ
  pub state : Reassembly

abbrev pub failed : FragmentStatus → Reassembly → Pushed
failed s r = record { status = s; packet_length = 0; state = reassembly_reset r }

-- The end of a push, after `append_data` succeeded.
pub finish : Reassembly → Pushed
finish r =
    if r.remaining == 0
    then record {
      status = complete;
      packet_length = length r.packet;
      state = record r { active = false };
    }
    else record { status = incomplete; packet_length = 0; state = r }

-- `append_data`, then the end of the push.
pub append_data : Reassembly → List ℕ → Pushed
unfolding finish reassembly_reset
append_data r bytes =
    if ltb r.mtu (length r.packet + length bytes)
    then failed buffer_too_small r
    else finish (record r { packet = r.packet ++ bytes })

-- The push of a start fragment, and of a continuation, past the checks of size and time.
abbrev pub started : Reassembly → ℕ → ℕ → Reassembly
started r remaining now_ms = record (reassembly_reset r) {
  active = true;
  remaining = remaining;
  started_ms = now_ms;
}

pub push_start : Reassembly → ℕ → List ℕ → ℕ → Pushed
unfolding append_data
push_start r remaining bytes now_ms = append_data (started r remaining now_ms) bytes

-- Not the continuation that the receiver waits for.
abbrev pub out_of_sequence : Reassembly → ℕ → Bool
out_of_sequence r remaining =
    not r.active || r.remaining == 0 || not (u8 (remaining + 1) == r.remaining)

pub push_continuation : Reassembly → ℕ → List ℕ → Pushed
unfolding append_data
push_continuation r remaining bytes =
    if out_of_sequence r remaining
    then failed invalid_sequence r
    else append_data (record r { remaining = remaining }) bytes

-- `now_ms - started_ms` of `uint64_t` wraps.
abbrev pub expired : Reassembly → ℕ → Bool
expired r now_ms = r.active && ltb r.timeout_ms (u64 (now_ms + 2 ^ 64 - r.started_ms))

abbrev pub is_continuation : List ℕ → Bool
is_continuation frame = test_bit (get_or frame 0 0) 7

abbrev pub remaining_of : List ℕ → ℕ
remaining_of frame = get_or frame 0 0 % 128

abbrev pub data_of : List ℕ → List ℕ
data_of frame = drop header_size frame

unfoldable pub reassembly_push : Reassembly → List ℕ → ℕ → Pushed
unfolding push_start push_continuation
reassembly_push r frame now_ms =
    let r' = if expired r now_ms then reassembly_reset r else r in
    if leb (length frame) header_size || ltb r.radio_payload_class (length frame)
    then record { status = invalid_frame; packet_length = 0; state = r }
    else if expired r now_ms && is_continuation frame
    then record { status = timeout; packet_length = 0; state = r' }
    else if is_continuation frame
    then push_continuation r' (remaining_of frame) (data_of frame)
    else push_start r' (remaining_of frame) (data_of frame) now_ms
