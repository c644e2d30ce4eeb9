-- ===== src/OtaBenchmark.antt =====
-- The messages of the benchmark over the air, src/platform/ota_benchmark.c. A profile is its bytes
-- before the first zero.
pub mod Roundtrip
mod Tests
use reticulum_tnc.Base.{
  ℕ, zero, suc, ◌+◌, ◌-◌, ◌*◌, ◌/◌, ◌%◌, ◌^◌, ◌≤◌, ◌<◌, min, max, bit_xor, u8, u16, u32, u64, ◌<<<◌,
  ◌>>>◌, test_bit, AreBytes, List, [], ◌∷◌, ◌++◌, map, append-nil, append_assoc, length, get_or,
  set, take, drop, replicate, length-append, length-set, get_or-set_self, get_or-set_ne,
  length-take, length-drop, length-replicate, take-append-drop, take-append, drop-append, take_all,
  get_or-append_right, take_add, drop_add, ltb, leb, ◌==◌, if◌then◌else◌, ltb→lt, lt→ltb, leb→le,
  ==_iff, Bool-cases, Option-cases, Result, ok, err, ◌>>=◌, ◌>>◌, fail_if, ◌≡◌, refl, sym, ap, ap₂,
  subst, ◌∙◌, ◌≢◌, ◌↔◌, ◌⊎◌, inl, inr, Bool, true, false, not, ◌&&◌, ◌||◌, Option, none, some,
  arith, dec_lt, dec_le, ℕ_discrete,
}

abbrev version : ℕ
version = 1

abbrev pub profile_max : ℕ
profile_max = 20

abbrev pub header_size : ℕ
header_size = 56

abbrev type_announce : ℕ
type_announce = 1

abbrev pub type_data : ℕ
type_data = 2

-- `rtnc_ota_benchmark_message_t`; `kind` is its `type`.
pub record Message : Type 0 where
  pub kind : ℕ
  pub run_id : ℕ
  pub block_id : ℕ
  pub sequence : ℕ
  pub packet_count : ℕ
  pub payload_size : ℕ
  pub seed : ℕ
  pub guard_ms : ℕ
  pub profile : List ℕ

abbrev pub store_u32 : ℕ → List ℕ
store_u32 value = u8 (value >>> 24) ∷ u8 (value >>> 16) ∷ u8 (value >>> 8) ∷ u8 value ∷ []

-- The bitwise or of four bytes at their places.
abbrev pub load_u32 : List ℕ → ℕ → ℕ
load_u32 input i =
    get_or input i 0 * 2 ^ 24
    + get_or input (i + 1) 0 * 2 ^ 16
    + get_or input (i + 2) 0 * 2 ^ 8
    + get_or input (i + 3) 0

-- The body is checked byte by byte, so that it must not depend on anything but these three numbers.
unfoldable pub body_byte : ℕ → ℕ → ℕ → ℕ
body_byte seed sequence index =
    let mixed =
      bit_xor (bit_xor seed (u32 (sequence * 0x9e3779b9))) (u32 (u32 index * 0x85ebca6b)) in
    let scrambled = u32 (bit_xor mixed (mixed >>> 16) * 0x7feb352d) in
    u8 (bit_xor scrambled (scrambled >>> 15))

-- The bytes from `index` on, `n` of them.
unfoldable pub body : ℕ → ℕ → ℕ → ℕ → List ℕ
body seed sequence index zero = []
body seed sequence index (suc n) = body_byte seed sequence index ∷ body seed sequence (index + 1) n

abbrev pub required : Message → ℕ
required m = if m.kind == type_data then m.payload_size else header_size

-- The first 36 bytes.
abbrev pub fields : Message → List ℕ
fields m =
    0x52
    ∷ 0x54
    ∷ 0x4f
    ∷ 0x42
    ∷ version
    ∷ u8 m.kind
    ∷ u8 (length m.profile)
    ∷ 0
    ∷ (store_u32 m.run_id
        ++ (store_u32 m.block_id
            ++ (store_u32 m.sequence
                ++ (store_u32 m.packet_count
                    ++ (store_u32 m.payload_size ++ (store_u32 m.seed ++ store_u32 m.guard_ms))))))

abbrev pub rest_of : Message → List ℕ
rest_of m =
    m.profile
    ++ (replicate (profile_max - length m.profile) 0
        ++ body m.seed m.sequence header_size (required m - header_size))

unfoldable pub encode : Message → ℕ → Option (List ℕ)
encode m capacity =
    if ltb m.kind type_announce || ltb type_data m.kind
    then none
    else if length m.profile == 0 || ltb profile_max (length m.profile)
    then none
    else if ltb (required m) header_size || ltb capacity (required m)
    then none
    else some (fields m ++ rest_of m)

-- The loop over the body.
unfoldable pub same_body : ℕ → ℕ → ℕ → List ℕ → Bool
same_body seed sequence index [] = true
same_body seed sequence index (b ∷ bs) =
    let rest = same_body seed sequence (index + 1) bs in
    if b == body_byte seed sequence index then rest else false

-- The bytes of a string.
unfoldable pub before_zero : List ℕ → List ℕ
before_zero [] = []
before_zero (b ∷ bs) = let rest = before_zero bs in if b == 0 then [] else b ∷ rest

abbrev has_magic : List ℕ → Bool
has_magic packet =
    get_or packet 0 0 == 0x52
    && (get_or packet 1 0 == 0x54 && (get_or packet 2 0 == 0x4f && get_or packet 3 0 == 0x42))

abbrev pub parsed : List ℕ → Message
parsed packet = record {
  kind = get_or packet 5 0;
  run_id = load_u32 packet 8;
  block_id = load_u32 packet 12;
  sequence = load_u32 packet 16;
  packet_count = load_u32 packet 20;
  payload_size = load_u32 packet 24;
  seed = load_u32 packet 28;
  guard_ms = load_u32 packet 32;
  profile = before_zero (take (get_or packet 6 0) (drop 36 packet));
}

abbrev pub bad_header : List ℕ → Bool
bad_header packet =
    let profile_length = get_or packet 6 0 in
    let kind = get_or packet 5 0 in
    ltb (length packet) header_size
    || not (has_magic packet)
    || not (get_or packet 4 0 == version)
    || ltb kind type_announce
    || ltb type_data kind
    || profile_length == 0
    || ltb profile_max profile_length

-- The checks of a DATA message.
unfoldable pub check_data : Message → List ℕ → Option Message
check_data m packet =
    let good = same_body m.seed m.sequence header_size (drop header_size packet) in
    if not (m.kind == type_data)
    then some m
    else if not (m.payload_size == length packet) || leb m.packet_count m.sequence
    then none
    else if good
    then some m
    else none

unfoldable pub decode : List ℕ → Option Message
decode packet = if bad_header packet then none else check_data (parsed packet) packet
