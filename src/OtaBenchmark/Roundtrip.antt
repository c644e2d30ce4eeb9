-- ===== src/OtaBenchmark/Roundtrip.antt =====
-- Encoding and decoding of benchmark messages.
use reticulum_tnc.Base.{
  ℕ, zero, suc, ◌+◌, ◌-◌, ◌*◌, ◌^◌, ◌≤◌, ◌<◌, u8, ◌>>>◌, List, [], ◌∷◌, ◌++◌, append_assoc, length,
  take, drop, replicate, length-append, length-replicate, take-append, drop-append, ◌≡◌, refl, sym,
  ap, ◌∙◌, true, false, some, arith,
}
use reticulum_tnc.OtaBenchmark.{
  profile_max, header_size, type_data, Message, body, required, encode, same_body, before_zero,
  decode, fields, rest_of, parsed, check_data, bad_header,
}

-- A message whose fields fit their types, with a string as its profile; a DATA message counts its
-- packets right.
pub record Fits (m : Message) : Type 0 where
  pub words :
      (m.run_id < 2 ^ 32)
      × (m.block_id < 2 ^ 32)
      × (m.sequence < 2 ^ 32)
      × (m.packet_count < 2 ^ 32)
  pub more_words : (m.payload_size < 2 ^ 32) × (m.seed < 2 ^ 32) × (m.guard_ms < 2 ^ 32)
  pub string : before_zero m.profile ≡ m.profile
  pub counted : m.kind ≡ type_data → m.sequence < m.packet_count

load_of_store :
    (v : ℕ)
    → v < 2 ^ 32
    → u8 (v >>> 24) * 2 ^ 24 + u8 (v >>> 16) * 2 ^ 16 + u8 (v >>> 8) * 2 ^ 8 + u8 v ≡ v
load_of_store v h = omega arith

same_body-body :
    (seed sequence index n : ℕ) → same_body seed sequence index (body seed sequence index n) ≡ true
unfolding same_body body
same_body-body seed sequence index zero = refl
same_body-body seed sequence index (suc n) =
    ground (arith, same_body-body seed sequence (index + 1) n)

length-body : (seed sequence index n : ℕ) → length (body seed sequence index n) ≡ n
unfolding body
length-body seed sequence index zero = refl
length-body seed sequence index (suc n) = ap suc (length-body seed sequence (index + 1) n)

-- Messages are equal if their fields are.
same_message :
    (m n : Message)
    → m.kind ≡ n.kind
    → (m.run_id ≡ n.run_id)
      × (m.block_id ≡ n.block_id)
      × (m.sequence ≡ n.sequence)
      × (m.packet_count ≡ n.packet_count)
    → (m.payload_size ≡ n.payload_size) × (m.seed ≡ n.seed) × (m.guard_ms ≡ n.guard_ms)
    → m.profile ≡ n.profile
    → m ≡ n
same_message m n k w w' p = ground arith

abbrev padding : Message → List ℕ
padding m =
    replicate (profile_max - length m.profile) 0
    ++ body m.seed m.sequence header_size (required m - header_size)

profile_of :
    (m : Message)
    → Fits m
    → length m.profile ≤ 20
    → before_zero (take (u8 (length m.profile)) (rest_of m)) ≡ m.profile
profile_of m f h =
    let n : u8 (length m.profile) ≡ length m.profile = omega arith in
    rw n (ap before_zero (take-append m.profile (padding m) (length m.profile) refl) ∙ f.string)

parsed-encoded :
    (m : Message)
    → Fits m
    → (1 ≤ m.kind) × (m.kind ≤ 2)
    → length m.profile ≤ 20
    → parsed (fields m ++ rest_of m) ≡ m
parsed-encoded m f k h =
    let (run, block, sequence, count) = f.words in
    let (size, seed, guard) = f.more_words in
    same_message (parsed (fields m ++ rest_of m)) m (omega arith)
      (
        load_of_store m.run_id run,
        load_of_store m.block_id block,
        load_of_store m.sequence sequence,
        load_of_store m.packet_count count,
      )
      (load_of_store m.payload_size size, load_of_store m.seed seed, load_of_store m.guard_ms guard)
      (profile_of m f h)

length-encoded :
    (m : Message)
    → length m.profile ≤ 20
    → 56 ≤ required m
    → length (fields m ++ rest_of m) ≡ required m
length-encoded m h low = omega (
  arith,
  length-append m.profile (padding m),
  length-append (replicate (20 - length m.profile) 0) (body m.seed m.sequence 56 (required m - 56)),
  length-replicate {A = ℕ} (20 - length m.profile) 0,
  length-body m.seed m.sequence 56 (required m - 56),
)

drop-encoded :
    (m : Message)
    → length m.profile ≤ 20
    → drop 56 (fields m ++ rest_of m) ≡ body m.seed m.sequence 56 (required m - 56)
drop-encoded m h =
    let zeros : List ℕ = replicate (20 - length m.profile) 0 in
    let tail = body m.seed m.sequence 56 (required m - 56) in
    let n : 20 ≡ length (m.profile ++ zeros) =
      omega (
        arith,
        length-append m.profile zeros,
        length-replicate {A = ℕ} (20 - length m.profile) 0,
      ) in
    let whole : m.profile ++ (zeros ++ tail) ≡ (m.profile ++ zeros) ++ tail =
      sym (append_assoc m.profile zeros tail) in
    ap (drop 20) whole ∙ drop-append (m.profile ++ zeros) tail 20 n

check_data-good :
    (m : Message) (packet : List ℕ)
    → Fits m
    → length packet ≡ required m
    → drop 56 packet ≡ body m.seed m.sequence 56 (required m - 56)
    → check_data m packet ≡ some m
unfolding check_data
check_data-good m packet f size tail =
    let good : same_body m.seed m.sequence 56 (drop 56 packet) ≡ true =
      rw tail (same_body-body m.seed m.sequence 56 (required m - 56)) in
    ground arith

-- A message that fits and is encoded is decoded as it was.
pub decode-encode :
    (m : Message) (capacity : ℕ) (packet : List ℕ)
    → Fits m
    → encode m capacity ≡ some packet
    → decode packet ≡ some m
unfolding encode decode
decode-encode m capacity packet f h =
    let whole : packet ≡ fields m ++ rest_of m = ground arith in
    let short : (1 ≤ length m.profile) × (length m.profile ≤ 20) = ground arith in
    let kinds : (1 ≤ m.kind) × (m.kind ≤ 2) = ground arith in
    let low : 56 ≤ required m = ground arith in
    let size = length-encoded m short.1 low in
    let good : bad_header (fields m ++ rest_of m) ≡ false = ground (arith, size) in
    rw (whole, good, parsed-encoded m f kinds short.1)
      (check_data-good m (fields m ++ rest_of m) f size (drop-encoded m short.1))

same_body-inv :
    (seed sequence index : ℕ) (bs : List ℕ)
    → same_body seed sequence index bs ≡ true
    → bs ≡ body seed sequence index (length bs)
unfolding same_body body
same_body-inv seed sequence index [] h = refl
same_body-inv seed sequence index (b ∷ bs) h =
    ground (arith, same_body-inv seed sequence (index + 1) bs)

check_data-inv :
    (m m' : Message) (packet : List ℕ)
    → check_data m packet ≡ some m'
    → m'.kind ≡ type_data
    → (length packet ≡ m'.payload_size)
      × (m'.sequence < m'.packet_count)
      × (same_body m'.seed m'.sequence 56 (drop 56 packet) ≡ true)
unfolding check_data
check_data-inv m m' packet h =
    let same : m ≡ m' = ground arith in
    rw (← same) (λ e. (ground arith, ground arith, ground arith))

-- A DATA message that is decoded has exactly the size that it names, a number within its count, and the
-- whole body that its seed and its number give: no other body is accepted.
pub decode-data :
    (m : Message) (packet : List ℕ)
    → decode packet ≡ some m
    → m.kind ≡ type_data
    → (length packet ≡ m.payload_size)
      × (m.sequence < m.packet_count)
      × (drop 56 packet ≡ body m.seed m.sequence 56 (length (drop 56 packet)))
unfolding decode
decode-data m packet h e =
    let checked : check_data (parsed packet) packet ≡ some m = ground arith in
    let (size, number, good) = check_data-inv (parsed packet) m packet checked e in
    (size, number, same_body-inv m.seed m.sequence 56 (drop 56 packet) good)
