-- ===== src/BurstDetector/Recent.antt =====
-- The circle of samples before a trigger, read as the list of the last samples.
use reticulum_tnc.Base.{
  ℕ, zero, suc, ◌+◌, ◌-◌, ◌%◌, ◌≤◌, ◌<◌, List, [], ◌∷◌, ◌++◌, length, get_or, set, drop, length-set,
  ltb, if◌then◌else◌, ltb→lt, Bool-cases, ◌≡◌, refl, sym, ap, ◌∙◌, inl, inr, arith,
}
use native.Mathlib.Nat.{mod-add-mod, mod-eq_of_lt, mod-lt}
use reticulum_tnc.Floats.{Float}
use reticulum_tnc.Ring.Index.{next-lt, next_cases}
use reticulum_tnc.Ring.Window.{window, window-push, length-window, wrap_cases}
use reticulum_tnc.BurstDetector.{Detector, max_pretrigger_samples, pretrigger_from, remember}

-- Where the oldest of `k` samples is, when the next one goes to `w`.
abbrev oldest : ℕ → ℕ → ℕ → ℕ
oldest n w k = (w + n - k) % n

oldest-next : (n w k : ℕ) → w < n → k < n → oldest n ((w + 1) % n) (k + 1) ≡ oldest n w k
oldest-next n w k hw hk = omega (
  arith,
  next_cases w n hw,
  wrap_cases n (w + n - k) (omega arith),
  wrap_cases n ((w + 1) % n + n - (k + 1)) (omega (arith, next-lt w n hw)),
)

oldest-newest : (n w k : ℕ) → w < n → k ≤ n → (oldest n w k + k) % n ≡ w
oldest-newest n w k hw hk =
    mod-add-mod (w + n - k) n k
    ∙ (let e : w + n - k + k ≡ w + n = omega arith in
        rw e (omega (arith, wrap_cases n (w + n) (omega arith))))

oldest_full : (n w : ℕ) → w < n → oldest n w n ≡ w
oldest_full n w h = let e : w + n - n ≡ w = omega arith in rw e (mod-eq_of_lt h)

module _ {F : Type 0} ⦃f : Float F⦄ where
  -- A sample is stored while the circle fills up.
  window_fills :
      (n : ℕ) (slots : List F) (w k : ℕ) (v : F)
      → w < n
      → k < n
      → n ≤ length slots
      → window (f.decimal 0 0) n (set slots w v) (oldest n ((w + 1) % n) (k + 1)) (k + 1)
        ≡ window (f.decimal 0 0) n slots (oldest n w k) k ++ (v ∷ [])
  window_fills n slots w k v hw hk room =
      ap (λ c. window (f.decimal 0 0) n (set slots w v) c (k + 1)) (oldest-next n w k hw hk)
      ∙ ap (λ j. window (f.decimal 0 0) n (set slots w v) (oldest n w k) j)
          (let e : k + 1 ≡ suc k = omega arith in e)
      ∙ window-push (f.decimal 0 0) n slots w v (oldest n w k) k (mod-lt (w + n - k) (omega arith))
          hk room (oldest-newest n w k hw (omega arith)) hw

  -- A sample takes the place of the oldest one.
  window_turns :
      (m : ℕ) (slots : List F) (w : ℕ) (v : F)
      → w < suc m
      → suc m ≤ length slots
      → window
          (f.decimal 0 0)
          (suc m)
          (set slots w v)
          (oldest (suc m) ((w + 1) % suc m) (suc m))
          (suc m)
        ≡ drop 1 (window (f.decimal 0 0) (suc m) slots (oldest (suc m) w (suc m)) (suc m))
          ++ (v ∷ [])
  window_turns m slots w v hw room =
      let n = suc m in
      let next = next-lt w n hw in
      let from = (w + 1) % n in
      let place : (from + m) % n ≡ w =
        mod-add-mod (w + 1) n m
        ∙ (let e : w + 1 + m ≡ w + n = omega arith in
            rw e (omega (arith, wrap_cases n (w + n) (omega arith)))) in
      ap (λ c. window (f.decimal 0 0) n (set slots w v) c n) (oldest_full n from next)
      ∙ window-push (f.decimal 0 0) n slots w v from m next (omega arith) room place hw
      ∙ ap (λ c. window (f.decimal 0 0) n slots ((c + 1) % n) m ++ (v ∷ []))
          (sym (oldest_full n w hw))

  turned :
      (n : ℕ) (slots : List F) (w k : ℕ) (v : F)
      → w < n
      → n ≤ length slots
      → k ≡ n
      → window (f.decimal 0 0) n (set slots w v) (oldest n ((w + 1) % n) k) k
        ≡ drop 1 (window (f.decimal 0 0) n slots (oldest n w k) k) ++ (v ∷ [])
  turned zero slots w k v hw room e = absurd (omega arith)
  turned (suc m) slots w k v hw room e = rw e (window_turns m slots w v hw room)

  abbrev pub start : Detector F → ℕ
  start d =
      (d.pretrigger_write + d.config.pretrigger_samples - d.pretrigger_count)
      % d.config.pretrigger_samples

  -- The samples before a trigger, oldest first.
  abbrev pub recent : Detector F → List F
  recent d =
      window (f.decimal 0 0) d.config.pretrigger_samples d.pretrigger (start d) d.pretrigger_count

  -- The circle has `n` places of the array, of which `count` are filled up to `write`.
  pub record IsCircle (n : ℕ) (slots : List F) (write count : ℕ) : Type 0 where
    pub pos : 0 < n
    pub small : n ≤ max_pretrigger_samples
    pub room : length slots ≡ max_pretrigger_samples
    pub write_lt : write < n
    pub count_le : count ≤ n

  abbrev pub HasCircle : Detector F → Type 0
  HasCircle d =
      IsCircle d.config.pretrigger_samples d.pretrigger d.pretrigger_write d.pretrigger_count

  pretrigger_from-window :
      (d : Detector F) (index left : ℕ)
      → pretrigger_from d index left
        ≡ window
            (f.decimal 0 0)
            d.config.pretrigger_samples
            d.pretrigger
            ((d.pretrigger_write + d.config.pretrigger_samples - d.pretrigger_count + index)
              % d.config.pretrigger_samples)
            left
  unfolding pretrigger_from
  pretrigger_from-window d index zero = refl
  pretrigger_from-window d index (suc left) =
      let n = d.config.pretrigger_samples in
      let from = d.pretrigger_write + n - d.pretrigger_count in
      let next : (from + (index + 1)) % n ≡ ((from + index) % n + 1) % n =
        ap (λ i. i % n) (omega arith) ∙ sym (mod-add-mod (from + index) n 1) in
      let place = (from + index) % n in
      ap (λ l. get_or d.pretrigger place (f.decimal 0 0) ∷ l)
        (pretrigger_from-window d (index + 1) left
          ∙ ap (λ c. window (f.decimal 0 0) n d.pretrigger c left) next)

  -- The loop copies the samples before the trigger.
  pub pretrigger_from-recent : (d : Detector F) → pretrigger_from d 0 d.pretrigger_count ≡ recent d
  pretrigger_from-recent d =
      let n = d.config.pretrigger_samples in
      let from = d.pretrigger_write + n - d.pretrigger_count in
      pretrigger_from-window d 0 d.pretrigger_count
      ∙ ap (λ c. window (f.decimal 0 0) n d.pretrigger (c % n) d.pretrigger_count) (omega arith)

  -- The newest sample takes the place of the oldest, once the circle is full.
  abbrev pub push_recent : ℕ → List F → F → List F
  push_recent n samples sample =
      (if ltb (length samples) n then samples else drop 1 samples) ++ (sample ∷ [])

  pub recent-remember :
      (d : Detector F) (sample : F)
      → HasCircle d
      → recent (remember d sample) ≡ push_recent d.config.pretrigger_samples (recent d) sample
  unfolding remember
  recent-remember d sample c =
      let k = d.pretrigger_count in
      let n = d.config.pretrigger_samples in
      let size = length-window (f.decimal 0 0) n d.pretrigger (start d) k in
      let room : n ≤ length d.pretrigger = omega (arith, c.small, c.room) in
      elim (Bool-cases (ltb k n)) [
        | inl less ↦
            rw (size, less)
              (window_fills n d.pretrigger d.pretrigger_write k sample c.write_lt (ltb→lt k n less)
                room)
        | inr full ↦
            (let same : k ≡ n = let h = c.count_le in ground arith in
              rw (size, full)
                (turned n d.pretrigger d.pretrigger_write k sample c.write_lt room same))
      ]

  pub remember-HasCircle :
      (d : Detector F) (sample : F) → HasCircle d → HasCircle (remember d sample)
  unfolding remember
  remember-HasCircle d sample c = record {
    pos = c.pos;
    small = c.small;
    room = length-set d.pretrigger d.pretrigger_write sample ∙ c.room;
    write_lt = next-lt d.pretrigger_write d.config.pretrigger_samples c.write_lt;
    count_le = let h = c.count_le in ground arith;
  }
