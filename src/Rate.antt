-- ===== src/Rate.antt =====
-- Bit rates and the length of a frame in samples, src/modem/rate.c, without LiquidDSP objects.
pub mod Encoded
pub mod Bounds
mod Tests
use reticulum_tnc.Base.{
  ℕ, zero, suc, ◌+◌, ◌-◌, ◌*◌, ◌/◌, ◌%◌, ◌^◌, ◌≤◌, ◌<◌, min, max, bit_xor, u8, u16, u32, u64, ◌<<<◌,
  ◌>>>◌, test_bit, AreBytes, List, [], ◌∷◌, ◌++◌, map, append-nil, append_assoc, length, get_or,
  set, take, drop, replicate, length-append, length-set, get_or-set_self, get_or-set_ne,
  length-take, length-drop, length-replicate, get_or-replicate, take-append-drop, take-append,
  drop-append, take_all, get_or-append_right, take_add, drop_add, ltb, leb, ◌==◌, if◌then◌else◌,
  ltb→lt, lt→ltb, leb→le, ==_iff, Bool-cases, Option-cases, Result, ok, err, ◌>>=◌, ◌>>◌, fail_if,
  ◌≡◌, refl, sym, ap, ap₂, subst, ◌∙◌, ◌≢◌, ◌↔◌, ◌⊎◌, inl, inr, Bool, true, false, not, ◌&&◌, ◌||◌,
  Option, none, some, arith, dec_lt, dec_le, ℕ_discrete,
}
use reticulum_tnc.Floats.{Float}
use reticulum_tnc.Profile.{PhyProfile, profile_is_valid}
use reticulum_tnc.Fec.{FecMode, none_mode, ldpc_robust, ldpc_normal, ldpc_fast, fec_encoded_size}
use reticulum_tnc.Fragmentation.{valid_payload_class}
use reticulum_tnc.Frame.{crc_size}
use reticulum_tnc.Frame
use reticulum_tnc.Fragmentation

abbrev pub training_symbols : ℕ
training_symbols = 64 + 32

abbrev pub trailing_symbols : ℕ
trailing_symbols = 16

abbrev pub max_audio_samples : ℕ
max_audio_samples = 90000

pub record ModemRate : Type 0 where
  pub raw_bitrate_bps : ℕ
  pub fec_bitrate_bps : ℕ
  pub interface_bitrate_bps : ℕ
  pub frame_samples : ℕ

-- `- 1U` wraps around.
abbrev pub symbol_count : ℕ → ℕ → ℕ
symbol_count byte_count bits_per_symbol =
    u64 (byte_count * 8 + bits_per_symbol + (2 ^ 64 - 1)) / bits_per_symbol

abbrev pub has_rate : FecMode → Bool
has_rate none_mode = true
has_rate ldpc_robust = true
has_rate ldpc_normal = true
has_rate ldpc_fast = false

abbrev pub fec_bitrate : FecMode → ℕ → ℕ
fec_bitrate ldpc_robust raw = raw / 2
fec_bitrate ldpc_normal raw = u64 (raw * 2) / 3
fec_bitrate none_mode raw = raw
fec_bitrate ldpc_fast raw = raw

abbrev pub protected_bytes : ℕ → ℕ
protected_bytes class = Frame.header_size + class + crc_size

-- The symbols of a frame of which `encoded_bytes` are sent.
abbrev pub frame_symbols : ℕ → ℕ → ℕ
frame_symbols encoded_bytes bits =
    training_symbols + symbol_count encoded_bytes bits + trailing_symbols

abbrev pub fits_u32 : ℕ → Bool
fits_u32 n = leb n (2 ^ 32 - 1)

-- The end of the function: the rates, if they are in range.
unfoldable pub rate_of : ℕ → ℕ → ℕ → ℕ → Option ModemRate
rate_of raw fec interface samples =
    if ltb max_audio_samples samples
      || not (fits_u32 raw)
      || not (fits_u32 fec)
      || not (fits_u32 interface)
    then none
    else some (record {
      raw_bitrate_bps = raw;
      fec_bitrate_bps = fec;
      interface_bitrate_bps = interface;
      frame_samples = samples;
    })

module _ {F : Type 0} ⦃f : Float F⦄ where
  -- The rates of a profile that passed the tests of the arguments.
  unfoldable pub calculated : PhyProfile F → FecMode → ℕ → ℕ → Option ModemRate
  calculated profile fec_mode class encoded_bytes =
      let symbols = frame_symbols encoded_bytes profile.bits_per_symbol in
      let samples = u64 (symbols * profile.samples_per_symbol) in
      let raw = u64 (profile.symbol_rate_baud * profile.bits_per_symbol) in
      let room = class - Fragmentation.header_size in
      rate_of raw (fec_bitrate fec_mode raw) (u64 (room * 8 * profile.sample_rate_hz) / samples)
        samples

  unfoldable pub modem_profile_rate : PhyProfile F → FecMode → ℕ → Option ModemRate
  modem_profile_rate profile fec_mode class =
      if not (profile_is_valid profile)
        || not (class == 64 || class == 128)
        || not (has_rate fec_mode)
      then none
      else let encoded_bytes = fec_encoded_size fec_mode (protected_bytes class) in
        if encoded_bytes == 0 then none else calculated profile fec_mode class encoded_bytes
