-- ===== src/Ring/Window.antt =====
-- The items stored between the two indices, oldest first.
use reticulum_tnc.Base.{
  ℕ, zero, suc, ◌+◌, ◌-◌, ◌%◌, ◌≤◌, ◌<◌, List, [], ◌∷◌, ◌++◌, length, get_or, set, get_or-set_self,
  get_or-set_ne, ◌≡◌, refl, sym, ap, ap₂, ◌∙◌, ◌≢◌, ◌⊎◌, inl, inr, arith, dec_lt,
}
use native.Mathlib.Nat.{mod-eq_of_lt, mod-eq-sub-mod, mod-add-mod, add-zero}
use reticulum_tnc.Ring.Index.{next-lt}

-- Two places less than a circle apart are different.
pub wrap_cases : (n a : ℕ) → a < n + n → ((a < n) × (a % n ≡ a)) ⊎ ((n ≤ a) × (a % n ≡ a - n))
wrap_cases n a h = elim (dec_lt a n) [
  | yes less ↦ inl (less, mod-eq_of_lt less)
  | no not_less ↦ inr (
    omega arith,
    mod-eq-sub-mod {n = a} {m = n} (omega arith) ∙ mod-eq_of_lt {n = a - n} {m = n} (omega arith),
  )
]

places_differ : (n c j k : ℕ) → c < n → j < k → k < n → (c + j) % n ≢ (c + k) % n
places_differ n c j k hc hj hk =
    omega (arith, wrap_cases n (c + j) (omega arith), wrap_cases n (c + k) (omega arith))

module _ {ℓ} {A : Type ℓ} (free : A) (n : ℕ) where
  -- The `k` items from index `c` on, going round at `n`.
  abbrev pub window : List A → ℕ → ℕ → List A
  window slots c zero = []
  window slots c (suc k) = get_or slots c free ∷ window slots ((c + 1) % n) k

  pub length-window : (slots : List A) (c k : ℕ) → length (window slots c k) ≡ k
  length-window slots c zero = refl
  length-window slots c (suc k) = ap suc (length-window slots ((c + 1) % n) k)

  -- The newest item of a window.
  window_newest :
      (slots : List A) (c k : ℕ)
      → c < n
      → window slots c (suc k) ≡ window slots c k ++ (get_or slots ((c + k) % n) free ∷ [])
  window_newest slots c zero h = let e : (c + 0) % n ≡ c = rw add-zero (mod-eq_of_lt h) in rw e
  window_newest slots c (suc k) h =
      let e : ((c + 1) % n + k) % n ≡ (c + suc k) % n =
        mod-add-mod (c + 1) n k ∙ ap (λ a. a % n) (omega arith) in
      ap (λ l. get_or slots c free ∷ l)
        (rw e at (window_newest slots ((c + 1) % n) k (next-lt c n h)))

  -- A write elsewhere is not seen.
  window-set_outside :
      (slots : List A) (i : ℕ) (v : A) (c k : ℕ)
      → c < n
      → ((j : ℕ) → j < k → (c + j) % n ≢ i)
      → window (set slots i v) c k ≡ window slots c k
  window-set_outside slots i v c zero h out = refl
  window-set_outside slots i v c (suc k) h out =
      ap₂ ◌∷◌ (get_or-set_ne slots i c v free (λ e. out 0 (omega arith) (here ∙ sym e)))
        (window-set_outside slots i v ((c + 1) % n) k (next-lt c n h) there)
    where
      here : (c + 0) % n ≡ c
      here = rw add-zero (mod-eq_of_lt h)

      there : (j : ℕ) → j < k → ((c + 1) % n + j) % n ≢ i
      there j hj e = out (suc j) (omega arith) (
          ap (λ a. a % n) (let e' : c + suc j ≡ c + 1 + j = omega arith in e')
          ∙ sym (mod-add-mod (c + 1) n j)
          ∙ e)

  -- A write at the first free place is not seen yet.
  pub window_write :
      (slots : List A) (i : ℕ) (v : A) (c k : ℕ)
      → c < n
      → k < n
      → (c + k) % n ≡ i
      → window (set slots i v) c k ≡ window slots c k
  window_write slots i v c k hc hk e =
      window-set_outside slots i v c k hc (λ j hj e'. places_differ n c j k hc hj hk (e' ∙ sym e))

  -- Moving the producer's index past the first free place shows what was written there.
  pub window_publish :
      (slots : List A) (i : ℕ) (c k : ℕ)
      → c < n
      → (c + k) % n ≡ i
      → window slots c (suc k) ≡ window slots c k ++ (get_or slots i free ∷ [])
  window_publish slots i c k hc e =
      window_newest slots c k hc ∙ ap (λ a. window slots c k ++ (get_or slots a free ∷ [])) e

  -- A write at the first free place stores the newest item.
  pub window-push :
      (slots : List A) (i : ℕ) (v : A) (c k : ℕ)
      → c < n
      → k < n
      → n ≤ length slots
      → (c + k) % n ≡ i
      → i < n
      → window (set slots i v) c (suc k) ≡ window slots c k ++ (v ∷ [])
  window-push slots i v c k hc hk room e hi =
      window_publish (set slots i v) i c k hc e
      ∙ ap₂ (λ l x. l ++ (x ∷ [])) (window_write slots i v c k hc hk e)
          (get_or-set_self slots i v free (omega arith))
