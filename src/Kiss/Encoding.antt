-- ===== src/Kiss/Encoding.antt =====
-- What the encoder writes, and how much room it takes.
use reticulum_tnc.Base.{
  ℕ, ◌+◌, ◌*◌, ◌≤◌, ◌<◌, List, [], ◌∷◌, ◌++◌, append-nil, append_assoc, length, length-append, leb,
  ◌==◌, if◌then◌else◌, ◌≡◌, ◌⊎◌, none, some, arith,
}
use reticulum_tnc.Fragmentation.{link_max_mtu}
use reticulum_tnc.Kiss.{
  fend, fesc, tfend, tfesc, data_command, max_encoded, encode_loop, kiss_encode,
}

-- The body of an encoded frame.
unfoldable pub escape : List ℕ → List ℕ
escape [] = []
escape (b ∷ bs) =
    if b == fend
    then fesc ∷ tfend ∷ escape bs
    else if b == fesc
    then fesc ∷ tfesc ∷ escape bs
    else b ∷ escape bs

pub length-escape :
    (p : List ℕ) → (length p ≤ length (escape p)) × (length (escape p) ≤ 2 * length p)
unfolding escape
length-escape [] = omega arith
length-escape (b ∷ bs) = ground (arith, length-escape bs)

-- An encoded data frame.
abbrev pub wrapped : List ℕ → List ℕ
wrapped p = fend ∷ data_command ∷ (escape p ++ (fend ∷ []))

-- The loop succeeds exactly if the room suffices.
encode_loop_lem :
    (bs : List ℕ) (capacity : ℕ) (out : List ℕ)
    → length out ≤ capacity
    → encode_loop bs capacity out
      ≡ (if leb (length out + length (escape bs)) capacity then some (out ++ escape bs) else none)
unfolding encode_loop escape
encode_loop_lem [] capacity out h = ground (arith, append-nil out)
encode_loop_lem (b ∷ bs) capacity out h =
    let code : ℕ = if b == fend then tfend else tfesc in
    ground (
      arith,
      length-append out (fesc ∷ code ∷ []),
      length-append out (b ∷ []),
      append_assoc out (fesc ∷ code ∷ []) (escape bs),
      append_assoc out (b ∷ []) (escape bs),
      encode_loop_lem bs capacity (out ++ (fesc ∷ code ∷ [])),
      encode_loop_lem bs capacity (out ++ (b ∷ [])),
    )

-- The encoder succeeds exactly on a packet of 1 to 16256 bytes whose encoding fits, and writes that
-- encoding.
pub kiss_encode_lem :
    (p : List ℕ) (capacity : ℕ)
    → 1 ≤ length p
    → length p ≤ link_max_mtu
    → kiss_encode p capacity
      ≡ (if leb (length (wrapped p)) capacity then some (wrapped p) else none)
unfolding kiss_encode
kiss_encode_lem p capacity low high = ground (
  arith,
  length-append (escape p) (fend ∷ []),
  encode_loop_lem p capacity (fend ∷ data_command ∷ []),
  append_assoc (fend ∷ data_command ∷ []) (escape p) (fend ∷ []),
)

kiss_encode_refused :
    (p : List ℕ) (capacity : ℕ)
    → (length p ≡ 0) ⊎ (link_max_mtu < length p)
    → kiss_encode p capacity ≡ none
unfolding kiss_encode
kiss_encode_refused p capacity h = ground arith

-- What a successful call says of the packet and of the bytes written.
pub kiss_encode-some_inv :
    (p : List ℕ) (capacity : ℕ) (bytes : List ℕ)
    → kiss_encode p capacity ≡ some bytes
    → (1 ≤ length p) × (length p ≤ link_max_mtu) × (bytes ≡ wrapped p) × (length bytes ≤ capacity)
kiss_encode-some_inv p capacity bytes e =
    ground (arith, kiss_encode_refused p capacity, kiss_encode_lem p capacity)

-- The buffers of `RTNC_KISS_MAX_ENCODED` bytes hold every packet that the link carries.
pub kiss_encode-max_encoded :
    (p : List ℕ)
    → 1 ≤ length p
    → length p ≤ link_max_mtu
    → kiss_encode p max_encoded ≡ some (wrapped p)
kiss_encode-max_encoded p low high =
    rw (kiss_encode_lem p max_encoded low high)
      (ground (arith, length-append (escape p) (fend ∷ []), length-escape p))
