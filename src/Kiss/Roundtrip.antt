-- ===== src/Kiss/Roundtrip.antt =====
-- An encoded packet comes out of the parser as it was, whatever came before.
use reticulum_tnc.Base.{
  ℕ, ◌+◌, ◌≤◌, ◌<◌, List, [], ◌∷◌, ◌++◌, append-nil, append_assoc, length, length-append,
  if◌then◌else◌, ◌≡◌, refl, ap, ◌∙◌, ◌≢◌, true, false, Option, none, some, arith,
}
use reticulum_tnc.Fragmentation.{link_max_mtu}
use reticulum_tnc.Kiss.{
  fend, fesc, tfend, tfesc, data_command, frame_capacity, KissParser, complete, current, store,
  parser_take, parser_push_frame, packet_of, parser_push, kiss_encode,
}
use reticulum_tnc.Kiss.Encoding.{escape, kiss_encode-some_inv}

abbrev pub listed {ℓ} : {A : Type ℓ} → Option A → List A
listed none = []
listed (some a) = a ∷ []

-- The packets that the parser gives for a stream of bytes, and the parser after it.
unfoldable pub feed : KissParser → List ℕ → KissParser × List (List ℕ)
feed parser [] = (parser, [])
feed parser (b ∷ bs) =
    let (parser', packet) = parser_push parser b in
    let (last, packets) = feed parser' bs in (last, listed packet ++ packets)

-- A parser within a frame, with `fr` read.
abbrev pub within : List ℕ → KissParser
within fr = record { frame = fr; active = true; escaped = false; rejected = false }

-- A plain byte, and an escaped one, each within the room.
push_plain :
    (fr : List ℕ) (b : ℕ)
    → length fr < frame_capacity
    → b ≢ fend
    → b ≢ fesc
    → parser_push (within fr) b ≡ (within (fr ++ (b ∷ [])), none)
unfolding parser_push parser_push_frame parser_take store
push_plain fr b room h g = ground arith

push_escape :
    (fr : List ℕ) → parser_push (within fr) fesc ≡ (record (within fr) { escaped = true }, none)
unfolding parser_push parser_push_frame parser_take
push_escape fr = ground arith

push_tfend :
    (fr : List ℕ)
    → length fr < frame_capacity
    → parser_push (record (within fr) { escaped = true }) tfend ≡ (within (fr ++ (fend ∷ [])), none)
unfolding parser_push parser_push_frame parser_take store
push_tfend fr room = ground arith

push_tfesc :
    (fr : List ℕ)
    → length fr < frame_capacity
    → parser_push (record (within fr) { escaped = true }) tfesc ≡ (within (fr ++ (fesc ∷ [])), none)
unfolding parser_push parser_push_frame parser_take store
push_tfesc fr room = ground arith

-- A byte that completes nothing.
feed_silent :
    (parser next : KissParser) (b : ℕ) (bs : List ℕ)
    → parser_push parser b ≡ (next, none)
    → feed parser (b ∷ bs) ≡ feed next bs
unfolding feed
feed_silent parser next b bs e = rw e refl

-- One byte of a packet, in its encoded form.
feed_byte :
    (fr : List ℕ) (b : ℕ) (bs rest : List ℕ)
    → length fr < frame_capacity
    → feed (within fr) (escape (b ∷ bs) ++ rest)
      ≡ feed (within (fr ++ (b ∷ []))) (escape bs ++ rest)
unfolding escape
feed_byte fr b bs rest room =
    let tail = escape bs ++ rest in
    let opened = record (within fr) { escaped = true } in
    ground (
      arith,
      feed_silent (within fr) opened fesc (tfend ∷ tail) (push_escape fr),
      feed_silent (within fr) opened fesc (tfesc ∷ tail) (push_escape fr),
      feed_silent opened (within (fr ++ (fend ∷ []))) tfend tail (push_tfend fr room),
      feed_silent opened (within (fr ++ (fesc ∷ []))) tfesc tail (push_tfesc fr room),
      feed_silent (within fr) (within (fr ++ (b ∷ []))) b tail,
      push_plain fr b room,
    )

-- The escaped form of `p` is read as `p`.
feed-escape :
    (p fr rest : List ℕ)
    → length fr + length p ≤ frame_capacity
    → feed (within fr) (escape p ++ rest) ≡ feed (within (fr ++ p)) rest
unfolding escape
feed-escape [] fr rest room = rw append-nil
feed-escape (b ∷ bs) fr rest room =
    feed_byte fr b bs rest (omega arith)
    ∙ feed-escape bs (fr ++ (b ∷ [])) rest (omega (arith, length-append fr (b ∷ [])))
    ∙ ap (λ l. feed (within l) rest) (append_assoc fr (b ∷ []) bs)

-- A FEND ends the frame at hand and opens the next.
push_fend :
    (parser : KissParser)
    → parser_push parser fend
      ≡ (within [], packet_of (if complete parser then some (current parser) else none))
unfolding parser_push parser_push_frame
push_fend parser = ground arith

-- The packet that a FEND would end now.
abbrev pub pending : KissParser → List (List ℕ)
pending parser = listed (packet_of (if complete parser then some (current parser) else none))

feed-fend :
    (parser : KissParser) (bs : List ℕ)
    → feed parser (fend ∷ bs) ≡ ((feed (within []) bs).0, pending parser ++ (feed (within []) bs).1)
unfolding feed
feed-fend parser bs = rw (push_fend parser) refl

pending-data : (p : List ℕ) → 1 ≤ length p → pending (within (data_command ∷ p)) ≡ p ∷ []
pending-data p h = ground arith

feed-data :
    (p : List ℕ)
    → 1 ≤ length p
    → length p ≤ link_max_mtu
    → feed (within []) (data_command ∷ (escape p ++ (fend ∷ []))) ≡ (within [], p ∷ [])
unfolding feed
feed-data p low high =
    feed_silent (within []) (within (data_command ∷ [])) data_command (escape p ++ (fend ∷ []))
      (push_plain [] data_command (omega arith) (omega arith) (omega arith))
    ∙ feed-escape p (data_command ∷ []) (fend ∷ []) (omega arith)
    ∙ feed-fend (within (data_command ∷ p)) []
    ∙ ap (λ l. (within [], l)) (rw (pending-data p low) refl)

-- An encoded packet, fed to a parser in any state, gives the packet that was pending there, if there
-- was one, then exactly this packet, and leaves the parser at the start of a frame.
pub feed-kiss_encode :
    (parser : KissParser) (p : List ℕ) (capacity : ℕ) (bytes : List ℕ)
    → kiss_encode p capacity ≡ some bytes
    → feed parser bytes ≡ (within [], pending parser ++ (p ∷ []))
feed-kiss_encode parser p capacity bytes e =
    let (low, high, same, fits) = kiss_encode-some_inv p capacity bytes e in
    rw (same, feed-fend parser _, feed-data p low high) refl
