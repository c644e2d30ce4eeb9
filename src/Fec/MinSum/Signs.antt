-- ===== src/Fec/MinSum/Signs.antt =====
-- Signs of messages, and what the minimum over a check makes of them.
use reticulum_tnc.Base.{
  ℕ, zero, suc, ◌+◌, ◌%◌, ◌≤◌, ◌<◌, List, [], ◌∷◌, length, get_or, set, drop, get_or-set_ne, ◌==◌,
  if◌then◌else◌, Bool-cases, ◌≡◌, refl, sym, subst, ◌⊎◌, inl, inr, Bool, true, false, arith,
  ℕ_discrete,
}
use reticulum_tnc.Floats.{Float, IsSigned}
use reticulum_tnc.Fec.{LdpcCode}
use reticulum_tnc.Fec.MinSum.{
  variable_of, first_edge, degree, xor, float_at, other_edges, fold_message,
}
use reticulum_tnc.Fec.MinSum.Outcome.{AllEven}
use reticulum_tnc.Fec.MinSum.Parity.{AreBits, bit_at, sum_others}

abbrev digit : Bool → ℕ
digit true = 1
digit false = 0

digit_mod : (b : Bool) → digit b ≡ (digit b + 0) % 2
digit_mod true = refl
digit_mod false = refl

-- A write keeps what holds of the written and of the old value.
set-keeps {ℓ κ} :
    {A : Type ℓ} (P : A → Type κ) (xs : List A) (i : ℕ) (v d : A)
    → P v
    → P (get_or xs i d)
    → P (get_or (set xs i v) i d)
set-keeps P [] i v d new old = old
set-keeps P (x ∷ xs) zero v d new old = new
set-keeps P (x ∷ xs) (suc i) v d new old = set-keeps P xs i v d new old

pub drop_all : (n : ℕ) (bits : List ℕ) → length bits ≤ n → drop n bits ≡ []
drop_all zero [] h = refl
drop_all zero (b ∷ bs) h = absurd (omega arith)
drop_all (suc n) [] h = refl
drop_all (suc n) (b ∷ bs) h = drop_all n bs (omega arith)

pub drop_get :
    (bits : List ℕ) (i : ℕ) → i < length bits → drop i bits ≡ get_or bits i 0 ∷ drop (suc i) bits
drop_get [] i h = absurd (omega arith)
drop_get (b ∷ bs) zero h = refl
drop_get (b ∷ bs) (suc i) h = drop_get bs i (omega arith)

-- Each check has its edges among those of the code.
abbrev pub HasEdges : LdpcCode → Type 0
HasEdges code =
    (check : ℕ)
    → check < code.check_count
    → first_edge code check + degree code check ≤ code.edge_count

-- A codeword of a code whose edges are edges of its checks and of its variables.
pub record IsCodeword (code : LdpcCode) (bits : List ℕ) : Type 0 where
  pub size : length bits ≡ code.variable_count
  pub are_bits : AreBits bits
  pub even : AllEven code bits 0 code.check_count
  pub edges : HasEdges code
  pub variables : (edge : ℕ) → edge < code.edge_count → variable_of code edge < code.variable_count

module _ {F : Type 0} ⦃f : Float F⦄ where
  -- A reliability, positive for a zero bit and negative for a one.
  abbrev pub Tells : ℕ → F → Type 0
  Tells bit x =
      ((bit ≡ 0) × (f.le (f.decimal 0 0) x ≡ true)) ⊎ ((bit ≡ 1) × (f.lt x (f.decimal 0 0) ≡ true))

  -- A message that does not contradict a bit.
  unfoldable pub Agrees : ℕ → F → Type 0
  Agrees bit x =
      (bit ≡ 0 → f.le (f.decimal 0 0) x ≡ true) × (bit ≡ 1 → f.le x (f.decimal 0 0) ≡ true)

  abbrev pub IsScale : F → Type 0
  IsScale normalization =
      (f.lt (f.decimal 0 0) normalization ≡ true) × (f.le normalization (f.decimal 1 0) ≡ true)

  -- The messages to the checks tell the bits of their edges.
  abbrev pub AllTell : LdpcCode → List ℕ → List F → Type 0
  AllTell code bits messages =
      (edge : ℕ) → edge < code.edge_count → Tells (bit_at code bits edge) (float_at messages edge)

  abbrev pub AllAgree : LdpcCode → List ℕ → List F → Type 0
  AllAgree code bits messages = (edge : ℕ) → Agrees (bit_at code bits edge) (float_at messages edge)

  Tells-fold :
      (bit : ℕ) (message minimum : F) (negative : Bool)
      → IsSigned F
      → Tells bit message
      → f.le (f.decimal 0 0) minimum ≡ true
      → let (negative', minimum') = fold_message message (negative, minimum) in
        (digit negative' ≡ (digit negative + bit) % 2) × (f.le (f.decimal 0 0) minimum' ≡ true)
  Tells-fold bit message minimum negative laws (inl (zero_bit, nonneg)) low =
      let sign = laws.nonneg_not_neg message nonneg in
      let size = laws.abs_nonneg message (ground arith) in
      (rw (sign, zero_bit) (flip negative), ground arith)
    where
      flip : (b : Bool) → digit (xor b false) ≡ (digit b + 0) % 2
      flip true = refl
      flip false = refl
  Tells-fold bit message minimum negative laws (inr (one_bit, neg)) low =
      let size = laws.abs_nonneg message (ground arith) in
      (rw (neg, one_bit) (flip negative), ground arith)
    where
      flip : (b : Bool) → digit (xor b true) ≡ (digit b + 1) % 2
      flip true = refl
      flip false = refl

  -- The sign that is collected is the parity of the other bits, and the minimum is not negative.
  pub other_edges-sign :
      (code : LdpcCode) (bits : List ℕ) (messages : List F) (target other left : ℕ)
      (negative : Bool) (minimum : F)
      → IsSigned F
      → AllTell code bits messages
      → other + left ≤ code.edge_count
      → f.le (f.decimal 0 0) minimum ≡ true
      → let (negative', minimum') = other_edges messages target other left (negative, minimum) in
        (digit negative' ≡ (digit negative + sum_others code bits target other left) % 2)
        × (f.le (f.decimal 0 0) minimum' ≡ true)
  unfolding other_edges sum_others
  other_edges-sign code bits messages target other zero negative minimum laws tell fit low =
      (digit_mod negative, low)
  other_edges-sign code bits messages target other (suc left) negative minimum laws tell fit low =
      elim (Bool-cases (other == target)) [
        | inl e ↦
            let (sign, low') =
              other_edges-sign code bits messages target (other + 1) left negative minimum laws tell
                (omega arith) low in
            rw (e, other_edges) (omega (arith, sign), low')
        | inr e ↦
            let message = float_at messages other in
            let (negative', minimum') = fold_message message (negative, minimum) in
            let (sign, low') =
              Tells-fold (bit_at code bits other) message minimum negative laws
                (tell other (omega arith)) low in
            let (rest, rest_low) =
              other_edges-sign code bits messages target (other + 1) left negative' minimum' laws
                tell (omega arith) low' in
            rw (e, other_edges) (omega (arith, rest, sign), rest_low)
      ]

  pub scaled :
      (bit : ℕ) (normalization minimum : F) (negative : Bool)
      → IsSigned F
      → IsScale normalization
      → digit negative ≡ bit
      → f.le (f.decimal 0 0) minimum ≡ true
      → Agrees bit (f.mul (if negative then f.neg normalization else normalization) minimum)
  unfolding Agrees
  scaled bit normalization minimum true laws (pos, small) e low =
      (λ z. absurd (omega arith), λ _. laws.mul_nonpos normalization minimum pos small low)
  scaled bit normalization minimum false laws (pos, small) e low =
      (λ _. laws.mul_nonneg normalization minimum pos small low, λ o. absurd (omega arith))

  pub set-Agrees :
      (code : LdpcCode) (bits : List ℕ) (out : List F) (target edge : ℕ) (message : F)
      → Agrees (bit_at code bits target) message
      → Agrees (bit_at code bits edge) (float_at out edge)
      → Agrees (bit_at code bits edge) (float_at (set out target message) edge)
  set-Agrees code bits out target edge message new old = elim (ℕ_discrete target edge) [
    | yes e ↦
        let new' : Agrees (bit_at code bits edge) message =
          subst (λ t. Agrees (bit_at code bits t) message) e new in
        subst (λ t. Agrees (bit_at code bits edge) (float_at (set out t message) edge)) (sym e)
          (set-keeps (Agrees (bit_at code bits edge)) out edge message (f.decimal 0 0) new' old)
    | no ne ↦
        subst (Agrees (bit_at code bits edge))
          (sym (get_or-set_ne out target edge message (f.decimal 0 0) ne)) old
  ]
