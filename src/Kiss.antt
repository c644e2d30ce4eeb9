-- ===== src/Kiss.antt =====
-- The KISS framing of the TCP side, src/platform/kiss.c.
-- A pointer with its length is the list of the bytes there; the guards on NULL have no counterpart.
pub mod Invariant
pub mod Encoding
pub mod Roundtrip
mod Tests
use reticulum_tnc.Base.{
  ℕ, zero, suc, ◌+◌, ◌-◌, ◌*◌, ◌/◌, ◌%◌, ◌^◌, ◌≤◌, ◌<◌, min, max, bit_xor, u8, u16, u32, u64, ◌<<<◌,
  ◌>>>◌, test_bit, AreBytes, List, [], ◌∷◌, ◌++◌, map, append-nil, append_assoc, length, get_or,
  set, take, drop, replicate, length-append, length-set, get_or-set_self, get_or-set_ne,
  length-take, length-drop, length-replicate, take-append-drop, take-append, drop-append, take_all,
  get_or-append_right, take_add, drop_add, ltb, leb, ◌==◌, if◌then◌else◌, ltb→lt, lt→ltb, leb→le,
  ==_iff, Bool-cases, Option-cases, Result, ok, err, ◌>>=◌, ◌>>◌, fail_if, ◌≡◌, refl, sym, ap, ap₂,
  subst, ◌∙◌, ◌≢◌, ◌↔◌, ◌⊎◌, inl, inr, Bool, true, false, not, ◌&&◌, ◌||◌, Option, none, some,
  arith, dec_lt, dec_le, ℕ_discrete,
}
use reticulum_tnc.Fragmentation.{link_max_mtu}

abbrev pub fend : ℕ
fend = 0xc0

abbrev pub fesc : ℕ
fesc = 0xdb

abbrev pub tfend : ℕ
tfend = 0xdc

abbrev pub tfesc : ℕ
tfesc = 0xdd

abbrev pub data_command : ℕ
data_command = 0x00

abbrev pub cmd_txdelay : ℕ
cmd_txdelay = 0x01

abbrev pub cmd_p : ℕ
cmd_p = 0x02

abbrev pub cmd_slottime : ℕ
cmd_slottime = 0x03

abbrev pub cmd_txtail : ℕ
cmd_txtail = 0x04

abbrev pub max_encoded : ℕ
max_encoded = 2 * link_max_mtu + 4

-- `sizeof(parser->frame)`
abbrev pub frame_capacity : ℕ
frame_capacity = link_max_mtu + 1

-- `rtnc_kiss_parser_t`; `frame` is the first `length` bytes of the array.
pub record KissParser : Type 0 where
  pub frame : List ℕ
  pub active : Bool
  pub escaped : Bool
  pub rejected : Bool

pub record KissFrame : Type 0 where
  pub port : ℕ
  pub command : ℕ
  pub bytes : List ℕ

unfoldable pub parser_init : KissParser
parser_init = record { frame = []; active = false; escaped = false; rejected = false }

-- The frame in the parser, when a FEND ends it.
abbrev pub complete : KissParser → Bool
complete parser = parser.active && not parser.rejected && ltb 0 (length parser.frame)

abbrev pub current : KissParser → KissFrame
current parser =
    let first = get_or parser.frame 0 0 in
    record { port = first >>> 4; command = first % 16; bytes = drop 1 parser.frame }

-- A byte goes into the frame, if there is room.
pub store : KissParser → ℕ → KissParser
store parser byte =
    if leb frame_capacity (length parser.frame)
    then record parser { rejected = true }
    else record parser { frame = parser.frame ++ (byte ∷ []) }

-- A byte other than FEND, in a frame that is not rejected.
pub parser_take : KissParser → ℕ → KissParser
unfolding store
parser_take parser byte =
    if parser.escaped
    then (let parser' = record parser { escaped = false } in
        if byte == tfend
        then store parser' fend
        else if byte == tfesc
        then store parser' fesc
        else record parser' { rejected = true })
    else if byte == fesc
    then record parser { escaped = true }
    else store parser byte

-- The new parser, and the frame if one is complete.
unfoldable pub parser_push_frame : KissParser → ℕ → KissParser × Option KissFrame
unfolding parser_take
parser_push_frame parser byte =
    if byte == fend
    then (
      record { frame = []; active = true; escaped = false; rejected = false },
      if complete parser then some (current parser) else none,
    )
    else if not parser.active || parser.rejected
    then (parser, none)
    else (parser_take parser byte, none)

-- The packet of a data frame for port zero.
abbrev pub packet_of : Option KissFrame → Option (List ℕ)
packet_of none = none
packet_of (some f) =
    if not (f.port == 0) || not (f.command == data_command) || length f.bytes == 0
    then none
    else some f.bytes

unfoldable pub parser_push : KissParser → ℕ → KissParser × Option (List ℕ)
parser_push parser byte =
    let (parser', frame) = parser_push_frame parser byte in (parser', packet_of frame)

-- The loop of the encoder: `out` is what it has written, `none` that the room ran out.
pub encode_loop : List ℕ → ℕ → List ℕ → Option (List ℕ)
encode_loop [] capacity out = some out
encode_loop (b ∷ bs) capacity out =
    let escaped =
      encode_loop bs capacity (out ++ (fesc ∷ (if b == fend then tfend else tfesc) ∷ [])) in
    let plain = encode_loop bs capacity (out ++ (b ∷ [])) in
    if b == fend || b == fesc
    then (if ltb capacity (length out + 2) then none else escaped)
    else if ltb capacity (length out + 1)
    then none
    else plain

unfoldable pub kiss_encode : List ℕ → ℕ → Option (List ℕ)
unfolding encode_loop
kiss_encode packet capacity =
    if length packet == 0 || ltb link_max_mtu (length packet) || ltb capacity 3
    then none
    else elim (encode_loop packet capacity (fend ∷ data_command ∷ [])) [
      | none ↦ none
      | some out ↦ if leb capacity (length out) then none else some (out ++ (fend ∷ []))
    ]
