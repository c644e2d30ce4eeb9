-- ===== src/Fragmentation/Chains.antt =====
-- A completed packet is the data of an unbroken run of fragments.
use reticulum_tnc.Base.{
  ℕ, suc, List, [], ◌∷◌, ◌++◌, if◌then◌else◌, Bool-cases, ◌≡◌, refl, ◌⊎◌, inl, inr, true, false,
  arith,
}
use reticulum_tnc.Fragmentation.{
  FragmentStatus, complete, incomplete, invalid_frame, buffer_too_small, timeout, Reassembly,
  Pushed, reassembly_reset, reassembly_push, push_start, push_continuation, append_data,
  is_continuation, remaining_of, data_of, expired, started, failed, out_of_sequence,
}

-- `Chain fs m d`: the frames `fs`, newest first, are a start fragment and its continuations with no
-- fragment missing; `m` more are announced, and `d` is their data in order.
pub data Chain : List (List ℕ) → ℕ → List ℕ → Type 0 where
  first :
      (f : List ℕ) {m : ℕ} {d : List ℕ}
      → is_continuation f ≡ false
      → m ≡ remaining_of f
      → d ≡ data_of f
      → Chain (f ∷ []) m d
  next :
      {fs : List (List ℕ)} {m : ℕ} {d : List ℕ} (f : List ℕ) {m' : ℕ} {d' : List ℕ}
      → Chain fs m d
      → is_continuation f ≡ true
      → m ≡ suc m'
      → m' ≡ remaining_of f
      → d' ≡ d ++ data_of f
      → Chain (f ∷ fs) m' d'

-- The fragments of the packet in progress after a push, if it had `h` before.
abbrev pub extended : List (List ℕ) → List ℕ → List (List ℕ)
extended h f = if is_continuation f then f ∷ h else f ∷ []

abbrev pub history : FragmentStatus → List (List ℕ) → List ℕ → List (List ℕ)
history status h f = elim status [
  | complete ↦ extended h f
  | incomplete ↦ extended h f
  | invalid_frame ↦ h
  | _ ↦ []
]

abbrev pub IsTraced : Reassembly → List (List ℕ) → Type 0
IsTraced r h = r.active ≡ true → Chain h r.remaining r.packet

-- What appending to a chain's data does to the chain.
append_data-Chain :
    (r : Reassembly) (bytes : List ℕ) (h : List (List ℕ))
    → Chain h r.remaining (r.packet ++ bytes)
    → let out = append_data r bytes in
      ((out.status ≡ complete) ⊎ (out.status ≡ incomplete)
        → Chain h out.state.remaining out.state.packet)
      × (out.status ≡ complete → out.state.remaining ≡ 0)
      × ((out.status ≡ complete)
          ⊎ ((out.status ≡ incomplete)
              ⊎ ((out.status ≡ buffer_too_small) × (out.state.active ≡ false))))
unfolding append_data
append_data-Chain r bytes h c = ground arith

-- What a push owes to the history `h'` that it leaves.
record Continues (h' : List (List ℕ)) (out : Pushed) : Type 0 where
  traced : IsTraced out.state h'
  packet : out.status ≡ complete → Chain h' 0 out.state.packet

-- The same for the history that goes with the status, for a frame after `h`.
abbrev Kept : List (List ℕ) → List ℕ → Pushed → Type 0
Kept h f out = Continues (history out.status h f) out

append_data-Kept :
    (r : Reassembly) (f : List ℕ) (h : List (List ℕ))
    → Chain (extended h f) r.remaining (r.packet ++ data_of f)
    → Kept h f (append_data r (data_of f))
append_data-Kept r f h c =
    let (chain, zero_left, cases) = append_data-Chain r (data_of f) (extended h f) c in
    ground (arith, chain, zero_left, cases)

push_start-Kept :
    (r : Reassembly) (f : List ℕ) (h : List (List ℕ)) (now : ℕ)
    → is_continuation f ≡ false
    → Kept h f (push_start r (remaining_of f) (data_of f) now)
unfolding push_start reassembly_reset
push_start-Kept r f h now e =
    append_data-Kept (started r (remaining_of f) now) f h (rw e (first f e refl refl))

push_continuation-Kept :
    (r : Reassembly) (f : List ℕ) (h : List (List ℕ))
    → is_continuation f ≡ true
    → IsTraced r h
    → Kept h f (push_continuation r (remaining_of f) (data_of f))
unfolding push_continuation reassembly_reset
push_continuation-Kept r f h e traced = elim (Bool-cases (out_of_sequence r (remaining_of f))) [
  | inl bad ↦ rw (bad, push_continuation) (record { traced = ground arith; packet = ground arith })
  | inr good ↦
      rw (good, push_continuation)
        (append_data-Kept (record r { remaining = remaining_of f }) f h
          (rw e (next f (traced (ground arith)) e (ground arith) refl refl)))
]

reset-IsTraced : (r : Reassembly) (h : List (List ℕ)) → IsTraced (reassembly_reset r) h
unfolding reassembly_reset
reset-IsTraced r h e = cc

-- The receiver after the check of the time.
abbrev unexpired : Reassembly → ℕ → Reassembly
unexpired r now = if expired r now then reassembly_reset r else r

unexpired-IsTraced :
    (r : Reassembly) (now : ℕ) (h : List (List ℕ)) → IsTraced r h → IsTraced (unexpired r now) h
unexpired-IsTraced r now h traced = elim (Bool-cases (expired r now)) [
  | inl e ↦ rw e (reset-IsTraced r h)
  | inr e ↦ rw e traced
]

failed-Kept : (r : Reassembly) (f : List ℕ) (h : List (List ℕ)) → Kept h f (failed timeout r)
unfolding reassembly_reset
failed-Kept r f h = record { traced = λ e. cc; packet = λ e. cc }

reassembly_push-Kept :
    (r : Reassembly) (frame : List ℕ) (now : ℕ) (h : List (List ℕ))
    → IsTraced r h
    → Kept h frame (reassembly_push r frame now)
unfolding reassembly_push
reassembly_push-Kept r frame now h traced =
    let traced' = unexpired-IsTraced r now h traced in
    ground (
      arith,
      failed-Kept r frame h,
      push_start-Kept (unexpired r now) frame h now,
      λ (e : is_continuation frame ≡ true).
          push_continuation-Kept (unexpired r now) frame h e traced',
    )

-- Whatever the receiver did before: if it has an unbroken run of fragments in progress, so it has after
-- any push, and a packet is complete only with an unbroken run from its start fragment down to
-- none to come, whose data in order the packet is.
pub reassembly_push-Chain :
    (r : Reassembly) (frame : List ℕ) (now : ℕ) (h : List (List ℕ))
    → IsTraced r h
    → let out = reassembly_push r frame now in
      IsTraced out.state (history out.status h frame)
      × (out.status ≡ complete → Chain (history out.status h frame) 0 out.state.packet)
reassembly_push-Chain r frame now h traced =
    let kept = reassembly_push-Kept r frame now h traced in (kept.traced, kept.packet)
