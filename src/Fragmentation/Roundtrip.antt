-- ===== src/Fragmentation/Roundtrip.antt =====
-- Every packet that fits is delivered whole by the fragments that were built for it.
use reticulum_tnc.Base.{
  ℕ, zero, suc, ◌+◌, ◌-◌, ◌*◌, ◌^◌, ◌≤◌, ◌<◌, List, [], ◌∷◌, ◌++◌, length, take, drop,
  length-append, length-take, length-drop, take_all, take_add, ok, ◌≡◌, refl, sym, ap, ◌∙◌, ◌⊎◌,
  inl, inr, true, false, arith,
}
use native.Mathlib.Nat.{mul-le-mul_right}
use reticulum_tnc.Fragmentation.{
  complete, incomplete, Reassembly, Pushed, valid_payload_class, fragment_count, reassembly_push,
  push_start, push_continuation, append_data, reassembly_reset, expired,
}
use reticulum_tnc.Fragmentation.Count.{
  class_cases, fragment_count_bounds, fragment_count-le_iff, chunk, fragment_at, fragment_build-ok,
}
use reticulum_tnc.Fragmentation.Stream.{fragments_from, fragments, receive, stamp}

-- The loads before `i` and load `i` are the loads before `i + 1`.
take-chunk : (p : List ℕ) (c i : ℕ) → take (i * c) p ++ chunk p c i ≡ take (suc i * c) p
take-chunk p c i =
    sym (take_add (i * c) c p)
    ∙ ap (λ k. take k p) (let e : i * c + c ≡ suc i * c = omega arith in e)

-- A load that is sent has a byte at least, and fits its frame.
chunk_bounds :
    (p : List ℕ) (c n i : ℕ)
    → 1 ≤ c
    → i < n
    → (n - 1) * c < length p
    → (1 ≤ length (chunk p c i)) × (length (chunk p c i) ≤ c)
chunk_bounds p c n i pos hi most = omega (
  arith,
  length-take c (drop (i * c) p),
  length-drop (i * c) p,
  mul-le-mul_right {m = i} {n = n - 1} c (omega arith),
)

-- The receiver with the first `i` loads of `p` at hand and `m` fragments to go; the first fragment
-- came at `start`.
record InProgress (p : List ℕ) (k limit start i m : ℕ) (r : Reassembly) : Type 0 where
  bytes : r.packet ≡ take (i * (k - 1)) p
  left : r.remaining ≡ m
  on : r.active ≡ true
  since : r.started_ms ≡ start
  class : r.radio_payload_class ≡ k
  room : length p ≤ r.mtu
  patience : r.timeout_ms ≡ limit

record Done (p : List ℕ) (out : Pushed) : Type 0 where
  status : out.status ≡ complete
  size : out.packet_length ≡ length p
  bytes : out.state.packet ≡ p
  off : out.state.active ≡ false

length-take-chunk :
    (p : List ℕ) (c i : ℕ)
    → length (take (i * c) p) + length (chunk p c i) ≡ length (take (suc i * c) p)
length-take-chunk p c i =
    sym (length-append (take (i * c) p) (chunk p c i)) ∙ ap length (take-chunk p c i)

module _ (p : List ℕ) (k limit start : ℕ) where
  -- Appending load `i` leaves the receiver with one load more.
  append_chunk :
      (i m : ℕ) (r : Reassembly)
      → InProgress p k limit start i (suc m) r
      → let out = append_data r (chunk p (k - 1) i) in
        (out.status ≡ incomplete) × InProgress p k limit start (suc i) (suc m) out.state
  unfolding append_data
  append_chunk i m r v = ground (
    arith,
    take-chunk p (k - 1) i,
    length-take-chunk p (k - 1) i,
    length-take (suc i * (k - 1)) p,
  )

  -- Appending the last load completes the packet.
  append_last :
      (i : ℕ) (r : Reassembly)
      → length p ≤ suc i * (k - 1)
      → InProgress p k limit start i 0 r
      → Done p (append_data r (chunk p (k - 1) i))
  unfolding append_data
  append_last i r all v = ground (
    arith,
    take-chunk p (k - 1) i,
    length-take-chunk p (k - 1) i,
    length-take (suc i * (k - 1)) p,
    take_all (suc i * (k - 1)) p all,
  )

in_time :
    (r : Reassembly) (limit start now : ℕ)
    → r.started_ms ≡ start
    → r.timeout_ms ≡ limit
    → start ≤ now
    → now ≤ start + limit
    → now < 2 ^ 64
    → expired r now ≡ false
in_time r limit start now since patience early late small = ground arith

-- A continuation of an allowed size that comes in time.
push_in_time :
    (r : Reassembly) (h now : ℕ) (bytes : List ℕ)
    → expired r now ≡ false
    → 1 ≤ length bytes
    → suc (length bytes) ≤ r.radio_payload_class
    → 128 ≤ h
    → h < 256
    → reassembly_push r (h ∷ bytes) now ≡ push_continuation r (h - 128) bytes
unfolding reassembly_push
push_in_time r h now bytes e low high flag byte = rw (e, reassembly_push) (ground arith)

-- The continuation that the receiver waits for.
push_expected :
    (r : Reassembly) (m : ℕ) (bytes : List ℕ)
    → r.active ≡ true
    → r.remaining ≡ suc m
    → m < 128
    → push_continuation r m bytes ≡ append_data (record r { remaining = m }) bytes
unfolding push_continuation
push_expected r m bytes on left small = ground arith

module _ (p : List ℕ) (k : ℕ) (class : 2 ≤ k) (few : fragment_count (length p) k ≤ 128)
    (most : (fragment_count (length p) k - 1) * (k - 1) < length p) (r : Reassembly)
    (same : r.radio_payload_class ≡ k) where
  -- The first fragment starts a packet, whatever the receiver was doing.
  push_first :
      (now : ℕ)
      → 0 < fragment_count (length p) k
      → reassembly_push r (fragment_at p k 0) now
        ≡ append_data
            (record r {
              packet = [];
              remaining = fragment_count (length p) k - 1;
              started_ms = now;
              active = true;
            })
            (chunk p (k - 1) 0)
  unfolding reassembly_push push_start reassembly_reset
  push_first now some_left =
      ground
        (arith, chunk_bounds p (k - 1) (fragment_count (length p) k) 0 (omega arith) some_left most)

  -- The next fragment continues the packet in progress, if it comes in time.
  push_next :
      (limit start i now : ℕ)
      → 1 ≤ i
      → i < fragment_count (length p) k
      → InProgress p k limit start i (fragment_count (length p) k - i) r
      → start ≤ now
      → now ≤ start + limit
      → now < 2 ^ 64
      → reassembly_push r (fragment_at p k i) now
        ≡ append_data
            (record r { remaining = fragment_count (length p) k - i - 1 })
            (chunk p (k - 1) i)
  push_next limit start i now later more v early late small =
      let n = fragment_count (length p) k in
      let (low, high) = chunk_bounds p (k - 1) n i (omega arith) more most in
      let fits : suc (length (chunk p (k - 1) i)) ≤ r.radio_payload_class = omega arith in
      let fresh = in_time r limit start now v.since v.patience early late small in
      ground (
        arith,
        push_in_time r (n - i - 1 + 0x80) now (chunk p (k - 1) i) fresh low fits,
        push_expected r (n - i - 1) (chunk p (k - 1) i) v.on,
      )

-- The fragments `i`, `i + 1`, … of a packet, `m` of them.
abbrev expected : List ℕ → ℕ → ℕ → ℕ → List (List ℕ)
expected p k i zero = []
expected p k i (suc m) = fragment_at p k i ∷ expected p k (i + 1) m

fragments_from-ok :
    (p : List ℕ) (k cap i m : ℕ)
    → i + m ≡ fragment_count (length p) k
    → fragment_count (length p) k ≤ 128
    → k ≤ cap
    → 1 ≤ k
    → fragments_from p k cap i m ≡ ok (expected p k i m)
unfolding fragments_from
fragments_from-ok p k cap i zero e few room pos = refl
fragments_from-ok p k cap i (suc m) e few room pos = rw (
  fragment_build-ok p k i cap (omega arith) few room pos,
  fragments_from-ok p k cap (i + 1) m (omega arith) few room pos,
)

-- What the receiver has made of a stream: the packet alone, and it waits for the next.
record Delivered (p : List ℕ) (out : List (List ℕ) × Reassembly) : Type 0 where
  packets : out.0 ≡ p ∷ []
  off : out.1.active ≡ false

receive_last :
    (p : List ℕ) (r : Reassembly) (f : List ℕ) (now : ℕ)
    → Done p (reassembly_push r f now)
    → Delivered p (receive r ((f, now) ∷ []))
unfolding receive
receive_last p r f now d = ground (arith, take_all (length p) p (omega arith))

receive_more :
    (p : List ℕ) (r : Reassembly) (f : List ℕ) (now : ℕ) (rest : List (List ℕ × ℕ))
    → (reassembly_push r f now).status ≡ incomplete
    → Delivered p (receive (reassembly_push r f now).state rest)
    → Delivered p (receive r ((f, now) ∷ rest))
unfolding receive
receive_more p r f now rest e d = ground arith

-- Times at which the fragments after the first may arrive.
abbrev pub InTime : (ℕ → ℕ) → ℕ → Type 0
InTime clock limit =
    (i : ℕ) → (clock 0 ≤ clock i) × (clock i ≤ clock 0 + limit) × (clock i < 2 ^ 64)

module _ (p : List ℕ) (k : ℕ) (class : 2 ≤ k) (few : fragment_count (length p) k ≤ 128)
    (most : (fragment_count (length p) k - 1) * (k - 1) < length p)
    (all : length p ≤ fragment_count (length p) k * (k - 1)) (limit : ℕ) (clock : ℕ → ℕ)
    (times : InTime clock limit) where
  push_at :
      (m i : ℕ) (r : Reassembly)
      → 1 ≤ i
      → i + suc m ≡ fragment_count (length p) k
      → InProgress p k limit (clock 0) i (suc m) r
      → reassembly_push r (fragment_at p k i) (clock i)
        ≡ append_data (record r { remaining = m }) (chunk p (k - 1) i)
  push_at m i r later e v =
      let (early, late, small) = times i in
      let left : fragment_count (length p) k - i - 1 ≡ m = omega arith in
      push_next p k class few most r v.class limit (clock 0) i (clock i) later (omega arith)
        (ground arith) early late small
      ∙ ap (λ j. append_data (record r { remaining = j }) (chunk p (k - 1) i)) left

  receive_rest :
      (m i : ℕ) (r : Reassembly)
      → 1 ≤ i
      → i + suc m ≡ fragment_count (length p) k
      → InProgress p k limit (clock 0) i (suc m) r
      → Delivered p (receive r (stamp clock i (expected p k i (suc m))))
  receive_rest zero i r later e v =
      let e' : fragment_count (length p) k ≡ suc i = omega arith in
      receive_last p r _ _ (
        rw (push_at zero i r later e v)
          (append_last p k limit (clock 0) i _ (rw e' at all) (ground arith)))
  receive_rest (suc m) i r later e v =
      let (status, v') =
        append_chunk p k limit (clock 0) i m (record r { remaining = suc m }) (ground arith) in
      let e' : suc i ≡ i + 1 = omega arith in
      receive_more p r _ _ _ (rw (push_at (suc m) i r later e v) status) (
        rw (push_at (suc m) i r later e v)
          (receive_rest m (i + 1) _ (omega arith) (omega arith) (rw e' at v')))

  -- The receiver that has seen the header of the first fragment, with `m` to go.
  abbrev begun : Reassembly → ℕ → Reassembly
  begun r m = record r { packet = []; remaining = m; started_ms = clock 0; active = true }

  push_zero :
      (m : ℕ) (r : Reassembly)
      → suc m ≡ fragment_count (length p) k
      → r.radio_payload_class ≡ k
      → reassembly_push r (fragment_at p k 0) (clock 0)
        ≡ append_data (begun r m) (chunk p (k - 1) 0)
  push_zero m r e same =
      let left : fragment_count (length p) k - 1 ≡ m = omega arith in
      push_first p k class few most r same (clock 0) (omega arith)
      ∙ ap (λ j. append_data (begun r j) (chunk p (k - 1) 0)) left

  receive_all :
      (m : ℕ) (r : Reassembly)
      → suc m ≡ fragment_count (length p) k
      → r.radio_payload_class ≡ k
      → length p ≤ r.mtu
      → r.timeout_ms ≡ limit
      → Delivered p (receive r (stamp clock 0 (expected p k 0 (suc m))))
  receive_all zero r e same room patience = receive_last p r _ _ (
      rw (push_zero 0 r e same)
        (append_last p k limit (clock 0) 0 (begun r 0) (rw (← e) at all) (ground arith)))
  receive_all (suc m) r e same room patience =
      let out = append_chunk p k limit (clock 0) 0 m (begun r (suc m)) (ground arith) in
      receive_more p r _ _ _ (rw (push_zero (suc m) r e same) out.0) (
        rw (push_zero (suc m) r e same) (
          receive_rest m 1 (append_data (begun r (suc m)) (chunk p (k - 1) 0)).state (omega arith)
            (omega arith) out.1))

length-expected : (p : List ℕ) (k i m : ℕ) → length (expected p k i m) ≡ m
length-expected p k i zero = refl
length-expected p k i (suc m) = ap suc (length-expected p k (i + 1) m)

-- A packet of up to 128 loads is built into `fragment_count` fragments, and a receiver of the same
-- payload class and a sufficient MTU, in whatever state, completes exactly this packet from them, if
-- each arrives in order and within the timeout of the first; it then waits for the next packet.
pub receive-fragments :
    (p : List ℕ) (k cap : ℕ) (r : Reassembly) (clock : ℕ → ℕ)
    → valid_payload_class k ≡ true
    → k ≤ cap
    → 1 ≤ length p
    → length p ≤ 128 * (k - 1)
    → r.radio_payload_class ≡ k
    → length p ≤ r.mtu
    → InTime clock r.timeout_ms
    → (frames : List (List ℕ)) × (fragments p k cap ≡ ok frames)
      × (length frames ≡ fragment_count (length p) k)
      × ((receive r (stamp clock 0 frames)).0 ≡ p ∷ [])
      × ((receive r (stamp clock 0 frames)).1.active ≡ false)
unfolding fragments
receive-fragments p k cap r clock v room low high same mtu times =
    let small : length p ≤ 2 ^ 63 = at_most (class_cases k v) in
    let (pos, most, all) = fragment_count_bounds (length p) k v low small in
    let few = (fragment_count-le_iff (length p) k v low small).1 high in
    let class = at_least (class_cases k v) in
    let m = fragment_count (length p) k - 1 in
    let e : suc m ≡ fragment_count (length p) k = omega arith in
    let out = receive_all p k class few most all r.timeout_ms clock times m r e same mtu refl in
    let out' : Delivered p
        (receive r (stamp clock 0 (expected p k 0 (fragment_count (length p) k)))) =
      rw (← e) out in
    (
      expected p k 0 (fragment_count (length p) k),
      fragments_from-ok p k cap 0 (fragment_count (length p) k) (omega arith) few room
          (omega arith),
      length-expected p k 0 (fragment_count (length p) k),
      out'.packets,
      out'.off,
    )
  where
    at_most : (k ≡ 64) ⊎ (k ≡ 128) → length p ≤ 2 ^ 63
    at_most (inl e) = omega arith
    at_most (inr e) = omega arith

    at_least : (k ≡ 64) ⊎ (k ≡ 128) → 2 ≤ k
    at_least (inl e) = omega arith
    at_least (inr e) = omega arith
