-- ===== src/Wav/Roundtrip.antt =====
-- What is written is read back.
use reticulum_tnc.Base.{
  ℕ, ◌+◌, ◌-◌, ◌*◌, ◌/◌, ◌%◌, ◌^◌, ◌≤◌, ◌<◌, u8, u32, ◌>>>◌, List, [], ◌∷◌, ◌++◌, map, append-nil,
  append_assoc, length, ltb, ◌==◌, Bool-cases, Result, ok, err, ◌>>=◌, ◌>>◌, fail_if, ◌≡◌, refl, ap,
  ◌∙◌, ◌⊎◌, inl, inr, Bool, true, false, ◌||◌, arith,
}
use reticulum_tnc.Wav.{
  WavStatus, invalid_argument, io_error, Output, put, put_all, u16le, format_part, data_part,
  wav_write, pull, same_bytes, read_samples, wav_read,
}

Result-cases : {E A : Type 0} (r : Result E A) → ((e : E) × (r ≡ err e)) ⊎ ((a : A) × (r ≡ ok a))
Result-cases (ok a) = inr (a, refl)
Result-cases (err e) = inl (e, refl)

-- The bytes of several pieces.
abbrev joined : List (List ℕ) → List ℕ
joined [] = []
joined (bytes ∷ more) = bytes ++ joined more

put_all-written :
    (out : Output) (pieces : List (List ℕ)) (out' : Output)
    → put_all out pieces ≡ ok out'
    → out'.written ≡ out.written ++ joined pieces
unfolding put_all put
put_all-written out [] out' h = ground (arith, append-nil out.written)
put_all-written out (bytes ∷ more) out' h = elim (Bool-cases (ltb out.room (length bytes))) [
  | inl e ↦ absurd (let h' = rw (e, put_all, put) at h in ground arith)
  | inr e ↦
      let next : Output = record {
        written = out.written ++ bytes;
        room = out.room - length bytes;
      } in
      put_all-written next more out' (rw (e, put_all, put) at h)
      ∙ append_assoc out.written bytes (joined more)
]

abbrev pub AreWords : List ℕ → Type 0
AreWords [] = Unit {0}
AreWords (s ∷ samples) = (s < 2 ^ 16) × AreWords samples

read_samples-joined :
    (samples : List ℕ)
    → AreWords samples
    → read_samples (length samples) (joined (map u16le samples)) ≡ ok samples
unfolding read_samples pull
read_samples-joined [] w = refl
read_samples-joined (s ∷ samples) (small, w) =
    let e : u8 s + u8 (s >>> 8) * 2 ^ 8 ≡ s = omega arith in
    rw (read_samples-joined samples w, e) refl

-- The bytes of a whole file.
abbrev pub file : ℕ → List ℕ → List ℕ
file rate samples =
    let data_bytes = u32 (length samples * 2) in
    joined (format_part rate data_bytes)
    ++ (joined (data_part rate data_bytes) ++ joined (map u16le samples))

abbrev written_in_order :
    Output → List (List ℕ) → List (List ℕ) → List (List ℕ) → Bool → Bool → Result WavStatus Output
written_in_order out first second third bad refused = do
  fail_if bad invalid_argument
  out1 ← put_all out first
  fail_if refused io_error
  out2 ← put_all out1 second
  put_all out2 third

written_in_order-inv :
    (out out' : Output) (first second third : List (List ℕ)) (bad refused : Bool)
    → written_in_order out first second third bad refused ≡ ok out'
    → (bad ≡ false)
      × (refused ≡ false)
      × (out'.written ≡ out.written ++ (joined first ++ (joined second ++ joined third)))
written_in_order-inv out out' first second third true refused h = absurd (ground arith)
written_in_order-inv out out' first second third false refused h =
    elim (Result-cases (put_all out first)) [
      | inl (e, x) ↦ absurd (let h' = rw x at h in ground arith)
      | inr (out1, x) ↦ elim (Bool-cases refused) [
        | inl y ↦ absurd (let h' = rw (x, y) at h in ground arith)
        | inr y ↦ elim (Result-cases (put_all out1 second)) [
          | inl (e, z) ↦ absurd (let h' = rw (x, y, z) at h in ground arith)
          | inr (out2, z) ↦
              let last = put_all-written out2 third out' (rw (x, y, z) at h) in
              let before = put_all-written out1 second out2 z in
              let start = put_all-written out first out1 x in
              (
                refl,
                y,
                last
                    ∙ ap (λ l. l ++ joined third) (before ∙ ap (λ l. l ++ joined second) start)
                    ∙ append_assoc (out.written ++ joined first) (joined second) (joined third)
                    ∙ append_assoc out.written (joined first) (joined second ++ joined third),
              )
        ]
      ]
    ]

wav_write-ok_inv :
    (out out' : Output) (rate : ℕ) (samples : List ℕ)
    → wav_write out rate samples ≡ ok out'
    → (1 ≤ rate)
      × (rate ≤ 2147483647)
      × (length samples ≤ 2147483647)
      × (out'.written ≡ out.written ++ file rate samples)
unfolding wav_write
wav_write-ok_inv out out' rate samples h =
    let data_bytes = u32 (length samples * 2) in
    let (good, allowed, whole) =
      written_in_order-inv out out' (format_part rate data_bytes) (data_part rate data_bytes)
        (map u16le samples) (rate == 0 || ltb 2147483647 (length samples)) (ltb 2147483647 rate)
        h in
    (ground arith, ground arith, ground arith, whole)

word :
    (v : ℕ)
    → v < 2 ^ 32
    → u8 v + u8 (v >>> 8) * 2 ^ 8 + u8 (v >>> 16) * 2 ^ 16 + u8 (v >>> 24) * 2 ^ 24 ≡ v
word v h = omega arith

wav_read-file :
    (rate : ℕ) (samples : List ℕ) (capacity : ℕ)
    → rate < 2 ^ 32
    → length samples ≤ 2147483647
    → AreWords samples
    → length samples ≤ capacity
    → wav_read (file rate samples) capacity ≡ ok (rate, samples)
unfolding wav_read pull same_bytes
wav_read-file rate samples capacity hr hn w room =
    let d : u32 (length samples * 2) ≡ length samples * 2 = omega arith in
    rw d (
      let low : u8 rate
            + u8 (rate >>> 8) * 2 ^ 8
            + u8 (rate >>> 16) * 2 ^ 16
            + u8 (rate >>> 24) * 2 ^ 24
          ≡ rate =
        word rate hr in
      let n = length samples * 2 in
      let size : u8 n + u8 (n >>> 8) * 2 ^ 8 + u8 (n >>> 16) * 2 ^ 16 + u8 (n >>> 24) * 2 ^ 24 ≡ n =
        word n (omega arith) in
      let even : n % 2 ≡ 0 = omega arith in
      let half : n / 2 ≡ length samples = omega arith in
      let enough : ltb capacity (length samples) ≡ false = ground arith in
      rw (low, size, even, half, read_samples-joined samples w, enough) refl)

-- What is written to an empty file with success is read back into a buffer that is large enough: the
-- rate and all samples. A rate of 0 or above 2^31 - 1 and more than 2^31 - 1 samples are not written.
pub wav_read-wav_write :
    (rate : ℕ) (samples : List ℕ) (room capacity : ℕ) (out : Output)
    → wav_write (record { written = []; room = room }) rate samples ≡ ok out
    → AreWords samples
    → length samples ≤ capacity
    → (wav_read out.written capacity ≡ ok (rate, samples))
      × (1 ≤ rate)
      × (rate ≤ 2147483647)
      × (length samples ≤ 2147483647)
wav_read-wav_write rate samples room capacity out h words enough =
    let start : Output = record { written = []; room = room } in
    let (low, high, few, whole) = wav_write-ok_inv start out rate samples h in
    (
      ap (λ l. wav_read l capacity) whole
          ∙ wav_read-file rate samples capacity (omega arith) few words enough,
      low,
      high,
      few,
    )
