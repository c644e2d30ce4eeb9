-- ===== src/Frame/Roundtrip.antt =====
-- What `rtnc_frame_build` emits, `rtnc_frame_parse` takes back, and it takes nothing else.
use reticulum_tnc.Base.{
  ℕ, zero, suc, ◌+◌, ◌-◌, ◌%◌, ◌≤◌, ◌<◌, u8, ◌>>>◌, AreBytes, List, [], ◌∷◌, ◌++◌, length, get_or,
  take, length-append, length-take, take-append, get_or-append_right, ◌==◌, if◌then◌else◌, ok, err,
  ◌≡◌, refl, arith,
}
use reticulum_tnc.Frame.{
  crc_failure, crc16_ccitt_false, covered, join_bytes, frame_build, frame_parse,
}
use reticulum_tnc.Frame.Crc.{crc16-lt}

-- The bytes that a frame with payload `p` consists of.
abbrev pub trailer : List ℕ → List ℕ
trailer p = let crc = crc16_ccitt_false (covered p) in u8 (crc >>> 8) ∷ crc % 256 ∷ []

abbrev pub frame_of : List ℕ → List ℕ
frame_of p = covered p ++ trailer p

-- A successful build has a payload of 1 to 128 bytes, and emits its frame.
pub frame_build-ok_inv :
    (p : List ℕ) (cap : ℕ) (e : List ℕ)
    → frame_build p cap ≡ ok e
    → (1 ≤ length p) × (length p ≤ 128) × (length p + 3 ≤ cap) × (e ≡ frame_of p)
unfolding frame_build
frame_build-ok_inv p cap e h = ground arith

pub frame_build-ok :
    (p : List ℕ) (cap : ℕ)
    → 1 ≤ length p
    → length p ≤ 128
    → length p + 3 ≤ cap
    → frame_build p cap ≡ ok (frame_of p)
unfolding frame_build
frame_build-ok p cap h g k = ground arith

-- The parser on bytes of the right shape: only the checksum is left to decide.
pub frame_parse_shaped :
    (h : ℕ) (q : List ℕ) (c d cap : ℕ)
    → h + 1 ≡ length q
    → length q ≤ 128
    → length q ≤ cap
    → frame_parse (h ∷ (q ++ (c ∷ d ∷ []))) cap
      ≡ (if join_bytes c d == crc16_ccitt_false (h ∷ q) then ok q else err crc_failure)
unfolding frame_parse
frame_parse_shaped h q c d cap e small room = ground (
  arith,
  length-append q (c ∷ d ∷ []),
  take-append q (c ∷ d ∷ []) (h + 1) e,
  get_or-append_right q (c ∷ d ∷ []) (h + 1) 0 0 (omega arith),
  get_or-append_right q (c ∷ d ∷ []) (suc (h + 1)) 1 0 (omega arith),
)

-- The two checksum bytes carry the whole checksum.
pub join-trailer :
    (h : ℕ) (q : List ℕ)
    → let crc = crc16_ccitt_false (h ∷ q) in join_bytes (u8 (crc >>> 8)) (crc % 256) ≡ crc
join-trailer h q = omega (arith, crc16-lt (h ∷ q))

-- A frame that was built parses to the payload that it was built from, whenever the payload fits
-- the caller's buffer.
pub frame_parse-frame_build :
    (p : List ℕ) (cap : ℕ) (e : List ℕ) (cap' : ℕ)
    → frame_build p cap ≡ ok e
    → length p ≤ cap'
    → frame_parse e cap' ≡ ok p
frame_parse-frame_build p cap e cap' h room =
    let (low, high, fits, same) = frame_build-ok_inv p cap e h in
    let n = length p - 1 in
    rw (same, frame_parse_shaped (u8 n) p _ _ cap' (omega arith) high room)
      (ground (arith, join-trailer (u8 n) p))

-- A list in two parts, the second of two bytes.
split_last_two :
    (xs : List ℕ) (n : ℕ)
    → length xs ≡ n + 2
    → xs ≡ take n xs ++ (get_or xs n 0 ∷ get_or xs (n + 1) 0 ∷ [])
split_last_two [] n h = absurd (omega arith)
split_last_two (x ∷ []) zero h = absurd (omega arith)
split_last_two (x ∷ y ∷ []) zero h = refl
split_last_two (x ∷ y ∷ z ∷ xs) zero h = absurd (omega arith)
split_last_two (x ∷ xs) (suc n) h = ground (arith, split_last_two xs n (omega arith))

pub get_or-lt : (xs : List ℕ) (i : ℕ) → AreBytes xs → get_or xs i 0 < 256
get_or-lt [] i b = omega arith
get_or-lt (x ∷ xs) zero b = b.0
get_or-lt (x ∷ xs) (suc i) b = get_or-lt xs i b.1

length-take_le : (n : ℕ) (xs : List ℕ) → n ≤ length xs → length (take n xs) ≡ n
length-take_le n xs h = omega (arith, length-take n xs)

-- What a successful parse has checked.
frame_parse-ok_inv :
    (h : ℕ) (xs : List ℕ) (cap : ℕ) (p : List ℕ)
    → frame_parse (h ∷ xs) cap ≡ ok p
    → (length xs ≡ h + 1 + 2)
      × (h + 1 ≤ 128)
      × (p ≡ take (h + 1) xs)
      × (join_bytes (get_or xs (h + 1) 0) (get_or xs (h + 1 + 1) 0)
          ≡ crc16_ccitt_false (h ∷ take (h + 1) xs))
unfolding frame_parse
frame_parse-ok_inv h xs cap p e = ground arith

split_checksum :
    (c d crc : ℕ)
    → c < 256
    → d < 256
    → join_bytes c d ≡ crc
    → (c ≡ u8 (crc >>> 8)) × (d ≡ crc % 256)
split_checksum c d crc hc hd e = omega arith

-- Whatever parses is the frame of its payload: the parser accepts exactly what the builder emits.
pub frame_build-frame_parse :
    (e : List ℕ) (cap : ℕ) (p : List ℕ)
    → AreBytes e
    → frame_parse e cap ≡ ok p
    → frame_build p (length e) ≡ ok e
unfolding frame_parse
frame_build-frame_parse [] cap p bytes h = ground arith
frame_build-frame_parse (x ∷ xs) cap p bytes h =
    let (size, small, same, sum) = frame_parse-ok_inv x xs cap p h in
    let n : length (take (x + 1) xs) ≡ x + 1 = length-take_le (x + 1) xs (omega arith) in
    ground (
      arith,
      split_last_two xs (x + 1) size,
      split_checksum _ _ _ (get_or-lt xs (x + 1) bytes.1) (get_or-lt xs (x + 1 + 1) bytes.1) sum,
      frame_build-ok p (length (x ∷ xs)),
    )
