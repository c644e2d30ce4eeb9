-- ===== src/Kiss/Invariant.antt =====
-- The parser never writes past its array, whatever bytes come.
use reticulum_tnc.Base.{
  ℕ, ◌≤◌, List, [], ◌∷◌, length, length-append, length-drop, ◌≡◌, false, some, arith,
}
use reticulum_tnc.Fragmentation.{link_max_mtu}
use reticulum_tnc.Kiss.{
  fend, fesc, frame_capacity, KissParser, store, parser_take, parser_push_frame, parser_push,
}

abbrev pub Fits : KissParser → Type 0
Fits parser = length parser.frame ≤ frame_capacity

store-Fits : (parser : KissParser) (byte : ℕ) → Fits parser → Fits (store parser byte)
unfolding store
store-Fits parser byte h = ground (arith, length-append parser.frame (byte ∷ []))

parser_take-Fits : (parser : KissParser) (byte : ℕ) → Fits parser → Fits (parser_take parser byte)
unfolding parser_take
parser_take-Fits parser byte h =
    let parser' = record parser { escaped = false } in
    ground (arith, store-Fits parser byte h, store-Fits parser' fend h, store-Fits parser' fesc h)

-- The array index stays in range, a frame that comes out has at most the link's MTU of data, and a
-- packet that comes out is not empty.
pub parser_push-Fits :
    (parser : KissParser) (byte : ℕ)
    → Fits parser
    → let out = parser_push parser byte in
      Fits out.0
      × ((packet : List ℕ)
          → out.1 ≡ some packet
          → (1 ≤ length packet) × (length packet ≤ link_max_mtu))
unfolding parser_push parser_push_frame
parser_push-Fits parser byte h = (
  ground (arith, parser_take-Fits parser byte h),
  λ packet e. ground (arith, length-drop 1 parser.frame),
)
