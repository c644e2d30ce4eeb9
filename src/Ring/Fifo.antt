-- ===== src/Ring/Fifo.antt =====
-- What a bounded queue promises: first in, first out, at most `capacity` items.
use reticulum_tnc.Base.{
  ℕ, List, [], ◌∷◌, ◌++◌, length, ltb, if◌then◌else◌, Bool, true, false, Option, none, some,
}

module _ {ℓ} {A : Type ℓ} where
  unfoldable pub enqueue : ℕ → List A → A → List A × Bool
  enqueue capacity items x =
      if ltb (length items) capacity then (items ++ (x ∷ []), true) else (items, false)

  unfoldable pub dequeue : List A → List A × Option A
  dequeue [] = ([], none)
  dequeue (x ∷ items) = (items, some x)

  unfoldable pub front : List A → Option A
  front [] = none
  front (x ∷ items) = some x

  -- Only if the oldest item passes the test.
  unfoldable pub dequeue_if : (A → Bool) → List A → List A × Option A
  dequeue_if test [] = ([], none)
  dequeue_if test (x ∷ items) = if test x then (items, some x) else (x ∷ items, none)
