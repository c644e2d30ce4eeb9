-- ===== src/Frame/Corruption.antt =====
-- A frame with one byte changed on the air is never taken for a frame.
use reticulum_tnc.Base.{
  ℕ, zero, suc, ◌+◌, ◌-◌, ◌≤◌, ◌<◌, u8, AreBytes, List, [], ◌∷◌, ◌++◌, length, get_or, set, take,
  drop, length-append, length-set, get_or-append_right, ◌==◌, if◌then◌else◌, ok, err, ◌≡◌, refl,
  sym, ap, ◌∙◌, ◌≢◌, arith, dec_lt,
}
use reticulum_tnc.Frame.{
  invalid_length, crc_failure, crc16_ccitt_false, join_bytes, frame_build, frame_parse,
}
use reticulum_tnc.Frame.Crc.{crc16-changed_byte}
use reticulum_tnc.Frame.Roundtrip.{
  frame_build-ok_inv, frame_parse_shaped, trailer, frame_of, join-trailer, get_or-lt,
}

-- A list around one of its places.
set_split :
    (xs : List ℕ) (i v : ℕ)
    → i < length xs
    → (xs ≡ take i xs ++ (get_or xs i 0 ∷ drop (suc i) xs))
      × (set xs i v ≡ take i xs ++ (v ∷ drop (suc i) xs))
set_split [] i v h = elim h [ ]
set_split (x ∷ xs) zero v h = (refl, refl)
set_split (x ∷ xs) (suc i) v h =
    let (e, f) = set_split xs i v (omega arith) in (ap (λ r. x ∷ r) e, ap (λ r. x ∷ r) f)

set-append_left : (xs ys : List ℕ) (i v : ℕ) → i < length xs → set (xs ++ ys) i v ≡ set xs i v ++ ys
set-append_left [] ys i v h = elim h [ ]
set-append_left (x ∷ xs) ys zero v h = refl
set-append_left (x ∷ xs) ys (suc i) v h = ap (λ r. x ∷ r) (set-append_left xs ys i v (omega arith))

set-append_right :
    (xs ys : List ℕ) (i j v : ℕ) → i ≡ length xs + j → set (xs ++ ys) i v ≡ xs ++ set ys j v
set-append_right [] ys i j v h = ap (λ k. set ys k v) (omega arith)
set-append_right (x ∷ xs) ys zero j v h = absurd (omega arith)
set-append_right (x ∷ xs) ys (suc i) j v h =
    ap (λ r. x ∷ r) (set-append_right xs ys i j v (omega arith))

get_or-append_left :
    (xs ys : List ℕ) (i : ℕ) → i < length xs → get_or (xs ++ ys) i 0 ≡ get_or xs i 0
get_or-append_left [] ys i h = elim h [ ]
get_or-append_left (x ∷ xs) ys zero h = refl
get_or-append_left (x ∷ xs) ys (suc i) h = get_or-append_left xs ys i (omega arith)

-- A changed payload byte changes the checksum of the covered bytes.
crc16-set :
    (h : ℕ) (p : List ℕ) (j b : ℕ)
    → j < length p
    → AreBytes p
    → b < 256
    → get_or p j 0 ≢ b
    → crc16_ccitt_false (h ∷ p) ≢ crc16_ccitt_false (h ∷ set p j b)
crc16-set h p j b hj bytes hb ne e =
    let (old, new) = set_split p j b hj in
    crc16-changed_byte (h ∷ take j p) (drop (suc j) p) (get_or p j 0) b (get_or-lt p j bytes) hb ne
      (ap (λ r. crc16_ccitt_false (h ∷ r)) (sym old) ∙ e ∙ ap (λ r. crc16_ccitt_false (h ∷ r)) new)

-- The parser on bytes of the right shape, with checksum bytes that do not match.
frame_parse_mismatch :
    (h : ℕ) (q : List ℕ) (c d cap : ℕ)
    → h + 1 ≡ length q
    → length q ≤ 128
    → length q ≤ cap
    → join_bytes c d ≢ crc16_ccitt_false (h ∷ q)
    → frame_parse (h ∷ (q ++ (c ∷ d ∷ []))) cap ≡ err crc_failure
frame_parse_mismatch h q c d cap e small room ne =
    rw (frame_parse_shaped h q c d cap e small room) (ground arith)

frame_parse_short :
    (b : ℕ) (xs : List ℕ) (cap : ℕ)
    → length xs ≢ b + 3
    → 2 ≤ length xs
    → frame_parse (b ∷ xs) cap ≡ err invalid_length
unfolding frame_parse
frame_parse_short b xs cap ne h = ground arith

module _ (p : List ℕ) (cap b : ℕ) (low : 1 ≤ length p) (high : length p ≤ 128)
    (room : length p ≤ cap) (bytes : AreBytes p) (hb : b < 256) where
  changed_length :
      get_or (frame_of p) 0 0 ≢ b → frame_parse (set (frame_of p) 0 b) cap ≡ err invalid_length
  changed_length ne =
      frame_parse_short b (p ++ trailer p) cap (omega (arith, length-append p (trailer p)))
        (omega (arith, length-append p (trailer p)))

  changed_payload :
      (j : ℕ)
      → j < length p
      → get_or (frame_of p) (suc j) 0 ≢ b
      → frame_parse (set (frame_of p) (suc j) b) cap ≡ err crc_failure
  changed_payload j hj ne =
      let h = u8 (length p - 1) in
      let n : length (set p j b) ≡ length p = length-set p j b in
      rw (set-append_left p (trailer p) j b hj) (
        frame_parse_mismatch h (set p j b) _ _ cap (omega arith) (omega arith) (omega arith) (λ e.
          crc16-set h p j b hj bytes hb (rw (← get_or-append_left p (trailer p) j hj) ne)
            (sym (join-trailer h p) ∙ e)))

  changed_checksum :
      (k : ℕ)
      → k < 2
      → get_or (trailer p) k 0 ≢ b
      → frame_parse (set (frame_of p) (suc (length p + k)) b) cap ≡ err crc_failure
  changed_checksum zero hk ne =
      let h = u8 (length p - 1) in
      rw (set-append_right p (trailer p) (length p + 0) 0 b refl)
        (frame_parse_mismatch h p b _ cap (omega arith) high room (omega (arith, join-trailer h p)))
  changed_checksum (suc zero) hk ne =
      let h = u8 (length p - 1) in
      rw (set-append_right p (trailer p) (length p + 1) 1 b refl)
        (frame_parse_mismatch h p _ b cap (omega arith) high room (omega (arith, join-trailer h p)))
  changed_checksum (suc (suc k)) hk ne = absurd (omega arith)

  changed_after_length :
      (j : ℕ)
      → suc j < length (frame_of p)
      → get_or (frame_of p) (suc j) 0 ≢ b
      → frame_parse (set (frame_of p) (suc j) b) cap ≡ err crc_failure
  changed_after_length j hj ne = elim (dec_lt j (length p)) [
    | yes inside ↦ changed_payload j inside ne
    | no past ↦
        let k = j - length p in
        let e : length p + k ≡ j = omega arith in
        let there : get_or (frame_of p) (suc j) 0 ≡ get_or (trailer p) k 0 =
          get_or-append_right p (trailer p) j k 0 (omega arith) in
        rw e at (changed_checksum k (omega (arith, length-append p (trailer p))) (rw there at ne))
  ]

-- One byte of a built frame changed, wherever it stands: a changed length byte makes the length
-- invalid, and any other changed byte makes the checksum fail.
pub frame_parse-changed_byte :
    (p : List ℕ) (cap : ℕ) (e : List ℕ) (i b cap' : ℕ)
    → AreBytes p
    → frame_build p cap ≡ ok e
    → length p ≤ cap'
    → i < length e
    → b < 256
    → get_or e i 0 ≢ b
    → frame_parse (set e i b) cap' ≡ err (if i == 0 then invalid_length else crc_failure)
frame_parse-changed_byte p cap e zero b cap' bytes h room hi hb ne =
    let (low, high, fits, same) = frame_build-ok_inv p cap e h in
    rw same (changed_length p cap' b low high room bytes hb (rw same at ne))
frame_parse-changed_byte p cap e (suc j) b cap' bytes h room hi hb ne =
    let (low, high, fits, same) = frame_build-ok_inv p cap e h in
    let changed : frame_parse (set e (suc j) b) cap' ≡ err crc_failure =
      rw same
        (changed_after_length p cap' b low high room bytes hb j (rw same at hi) (rw same at ne)) in
    ground (arith, changed)
