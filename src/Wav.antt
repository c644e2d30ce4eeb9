-- ===== src/Wav.antt =====
-- Mono 16-bit audio files, src/platform/wav.c. A file is the list of its bytes; one that is written
-- takes `room` more bytes, and a write beyond that fails. What a failed call leaves behind is not
-- modelled. A sample is its 16-bit pattern.
pub mod Roundtrip
mod Tests
use reticulum_tnc.Base.{
  ℕ, zero, suc, ◌+◌, ◌-◌, ◌*◌, ◌/◌, ◌%◌, ◌^◌, ◌≤◌, ◌<◌, min, max, bit_xor, u8, u16, u32, u64, ◌<<<◌,
  ◌>>>◌, test_bit, AreBytes, List, [], ◌∷◌, ◌++◌, map, append-nil, append_assoc, length, get_or,
  set, take, drop, replicate, length-append, length-set, get_or-set_self, get_or-set_ne,
  length-take, length-drop, length-replicate, get_or-replicate, take-append-drop, take-append,
  drop-append, take_all, get_or-append_right, take_add, drop_add, ltb, leb, ◌==◌, if◌then◌else◌,
  ltb→lt, lt→ltb, leb→le, ==_iff, Bool-cases, Option-cases, Result, ok, err, ◌>>=◌, ◌>>◌, fail_if,
  ◌≡◌, refl, sym, ap, ap₂, subst, ◌∙◌, ◌≢◌, ◌↔◌, ◌⊎◌, inl, inr, Bool, true, false, not, ◌&&◌, ◌||◌,
  Option, none, some, arith, dec_lt, dec_le, ℕ_discrete,
}

pub data WavStatus : Type 0 where
  invalid_argument io_error invalid_format buffer_too_small : WavStatus

pub record Output : Type 0 where
  pub written : List ℕ
  pub room : ℕ

-- `fwrite`.
pub put : Output → List ℕ → Result WavStatus Output
put out bytes =
    if ltb out.room (length bytes)
    then err io_error
    else ok (record { written = out.written ++ bytes; room = out.room - length bytes })

abbrev pub u16le : ℕ → List ℕ
u16le value = u8 value ∷ u8 (value >>> 8) ∷ []

abbrev pub u32le : ℕ → List ℕ
u32le value = u8 value ∷ u8 (value >>> 8) ∷ u8 (value >>> 16) ∷ u8 (value >>> 24) ∷ []

-- One write after the other, up to the first that fails.
pub put_all : Output → List (List ℕ) → Result WavStatus Output
unfolding put
put_all out [] = ok out
put_all out (bytes ∷ more) = elim (put out bytes) [ err e ↦ err e | ok out' ↦ put_all out' more ]

abbrev riff : List ℕ
riff = 0x52 ∷ 0x49 ∷ 0x46 ∷ 0x46 ∷ []

abbrev wave : List ℕ
wave = 0x57 ∷ 0x41 ∷ 0x56 ∷ 0x45 ∷ []

abbrev fmt : List ℕ
fmt = 0x66 ∷ 0x6d ∷ 0x74 ∷ 0x20 ∷ []

abbrev data_id : List ℕ
data_id = 0x64 ∷ 0x61 ∷ 0x74 ∷ 0x61 ∷ []

abbrev pub max_half : ℕ
max_half = 2147483647

abbrev pub format_part : ℕ → ℕ → List (List ℕ)
format_part rate data_bytes =
    riff
    ∷ u32le (u32 (36 + data_bytes))
    ∷ (wave ++ fmt)
    ∷ u32le 16
    ∷ u16le 1
    ∷ u16le 1
    ∷ u32le rate
    ∷ []

abbrev pub data_part : ℕ → ℕ → List (List ℕ)
data_part rate data_bytes =
    u32le (u32 (rate * 2)) ∷ u16le 2 ∷ u16le 16 ∷ data_id ∷ u32le data_bytes ∷ []

unfoldable pub wav_write : Output → ℕ → List ℕ → Result WavStatus Output
unfolding put_all
wav_write out rate samples = do
  fail_if (rate == 0 || ltb max_half (length samples)) invalid_argument
  let data_bytes = u32 (length samples * 2)
  out1 ← put_all out (format_part rate data_bytes)
  fail_if (ltb max_half rate) io_error
  out2 ← put_all out1 (data_part rate data_bytes)
  put_all out2 (map u16le samples)

-- `fread` of `n` bytes: these, and what is left.
pub pull : ℕ → List ℕ → Option (List ℕ × List ℕ)
pull zero input = some ([], input)
pull (suc n) [] = none
pull (suc n) (b ∷ input) = elim (pull n input) [
  | none ↦ none
  | some (bytes, rest) ↦ some (b ∷ bytes, rest)
]

abbrev pub read_u16le : List ℕ → ℕ
read_u16le bytes = get_or bytes 0 0 + get_or bytes 1 0 * 2 ^ 8

abbrev pub read_u32le : List ℕ → ℕ
read_u32le bytes =
    get_or bytes 0 0
    + get_or bytes 1 0 * 2 ^ 8
    + get_or bytes 2 0 * 2 ^ 16
    + get_or bytes 3 0 * 2 ^ 24

pub same_bytes : List ℕ → List ℕ → Bool
same_bytes [] [] = true
same_bytes [] (y ∷ ys) = false
same_bytes (x ∷ xs) [] = false
same_bytes (x ∷ xs) (y ∷ ys) = x == y && same_bytes xs ys

abbrev pub from_input : Option (List ℕ × List ℕ) → Result WavStatus (List ℕ × List ℕ)
from_input o = elim o [ none ↦ err invalid_format | some piece ↦ ok piece ]

-- The loop over the samples.
pub read_samples : ℕ → List ℕ → Result WavStatus (List ℕ)
unfolding pull
read_samples zero input = ok []
read_samples (suc n) input = elim (pull 2 input) [
  | none ↦ err io_error
  | some (bytes, rest) ↦ elim (read_samples n rest) [
    | err e ↦ err e
    | ok samples ↦ ok (read_u16le bytes ∷ samples)
  ]
]

-- The rate and the samples.
unfoldable pub wav_read : List ℕ → ℕ → Result WavStatus (ℕ × List ℕ)
unfolding pull same_bytes read_samples
wav_read input capacity = do
  id0 ← from_input (pull 4 input)
  fail_if (not (same_bytes id0.0 riff)) invalid_format
  riff_size ← from_input (pull 4 id0.1)
  id1 ← from_input (pull 4 riff_size.1)
  fail_if (not (same_bytes id1.0 wave)) invalid_format
  id2 ← from_input (pull 4 id1.1)
  fail_if (not (same_bytes id2.0 fmt)) invalid_format
  fmt_size ← from_input (pull 4 id2.1)
  fail_if (not (read_u32le fmt_size.0 == 16)) invalid_format
  format ← from_input (pull 2 fmt_size.1)
  channels ← from_input (pull 2 format.1)
  rate ← from_input (pull 4 channels.1)
  byte_rate ← from_input (pull 4 rate.1)
  block_align ← from_input (pull 2 byte_rate.1)
  bits ← from_input (pull 2 block_align.1)
  id3 ← from_input (pull 4 bits.1)
  fail_if (not (same_bytes id3.0 data_id)) invalid_format
  data_size ← from_input (pull 4 id3.1)
  let size = read_u32le data_size.0
  fail_if
      (not (read_u16le format.0 == 1)
        || not (read_u16le channels.0 == 1)
        || not (read_u16le block_align.0 == 2)
        || not (read_u16le bits.0 == 16)
        || not (size % 2 == 0))
      invalid_format
  fail_if (ltb capacity (size / 2)) buffer_too_small
  samples ← read_samples (size / 2) data_size.1
  ok (read_u32le rate.0, samples)
