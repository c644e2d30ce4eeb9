-- ===== src/Fec/MinSum.antt =====
-- The normalized min-sum decoder of src/fec/ldpc.c, on any floats. The counter of iterations does not
-- wrap around for fewer than 2^32 - 1 of them; the code asks for 30.
pub mod Outcome
pub mod Parity
pub mod Signs
pub mod Checks
pub mod Clean
use reticulum_tnc.Base.{
  ℕ, zero, suc, ◌+◌, ◌-◌, ◌*◌, ◌/◌, ◌%◌, ◌^◌, ◌≤◌, ◌<◌, min, max, bit_xor, u8, u16, u32, u64, ◌<<<◌,
  ◌>>>◌, test_bit, AreBytes, List, [], ◌∷◌, ◌++◌, map, append-nil, append_assoc, length, get_or,
  set, take, drop, replicate, length-append, length-set, get_or-set_self, get_or-set_ne,
  length-take, length-drop, length-replicate, get_or-replicate, take-append-drop, take-append,
  drop-append, take_all, get_or-append_right, take_add, drop_add, ltb, leb, ◌==◌, if◌then◌else◌,
  ltb→lt, lt→ltb, leb→le, ==_iff, Bool-cases, Option-cases, Result, ok, err, ◌>>=◌, ◌>>◌, fail_if,
  ◌≡◌, refl, sym, ap, ap₂, subst, ◌∙◌, ◌≢◌, ◌↔◌, ◌⊎◌, inl, inr, Bool, true, false, not, ◌&&◌, ◌||◌,
  Option, none, some, arith, dec_lt, dec_le, ℕ_discrete,
}
use reticulum_tnc.Floats.{Float}
use reticulum_tnc.Fec.{LdpcCode}

pub record DecodeStats : Type 0 where
  pub converged : Bool
  pub iterations : ℕ
  pub syndrome_weight : ℕ

abbrev pub variable_of : LdpcCode → ℕ → ℕ
variable_of code edge = get_or code.edge_variables edge 0

-- The edges of a check: the first, and how many.
abbrev pub first_edge : LdpcCode → ℕ → ℕ
first_edge code check = get_or code.check_offsets check 0

abbrev pub degree : LdpcCode → ℕ → ℕ
degree code check = get_or code.check_offsets (check + 1) 0 - first_edge code check

-- The exclusive or of the bits of `left` edges.
unfoldable pub check_parity : LdpcCode → List ℕ → ℕ → ℕ → ℕ
check_parity code bits edge zero = 0
check_parity code bits edge (suc left) =
    bit_xor (get_or bits (variable_of code edge) 0) (check_parity code bits (edge + 1) left)

-- The checks, from `check` on, that the bits fail.
unfoldable pub syndrome_from : LdpcCode → List ℕ → ℕ → ℕ → ℕ
syndrome_from code bits check zero = 0
syndrome_from code bits check (suc left) =
    (if check_parity code bits (first_edge code check) (degree code check) == 0 then 0 else 1)
    + syndrome_from code bits (check + 1) left

abbrev pub xor : Bool → Bool → Bool
xor true b = not b
xor false b = b

abbrev pub stats_of : Bool → ℕ → ℕ → DecodeStats
stats_of converged iterations syndrome_weight = record {
  converged = converged;
  iterations = iterations;
  syndrome_weight = syndrome_weight;
}

module _ {F : Type 0} ⦃f : Float F⦄ where
  abbrev pub float_at : List F → ℕ → F
  float_at values i = get_or values i (f.decimal 0 0)

  abbrev pub hard_bit : F → ℕ
  hard_bit posterior = if f.lt posterior (f.decimal 0 0) then 1 else 0

  abbrev pub hard_bits : List F → List ℕ
  hard_bits [] = []
  hard_bits (p ∷ ps) = hard_bit p ∷ hard_bits ps

  -- What an edge's message does to the sign and the minimum.
  abbrev fold_message : F → Bool × F → Bool × F
  fold_message message (negative, minimum) = (
    xor negative (f.lt message (f.decimal 0 0)),
    if f.lt (f.abs message) minimum then f.abs message else minimum,
  )

  -- The loop over the other edges of a check.
  unfoldable pub other_edges : List F → ℕ → ℕ → ℕ → Bool × F → Bool × F
  other_edges messages target other zero so_far = so_far
  other_edges messages target other (suc left) so_far =
      let so_far' =
        if other == target then so_far else fold_message (float_at messages other) so_far in
      other_edges messages target (other + 1) left so_far'

  -- The message from a check, whose edges are `count` from `first` on, to the variable of an edge.
  unfoldable pub check_message : F → List F → ℕ → ℕ → ℕ → F
  check_message normalization messages first count target =
      let (negative, minimum) = other_edges messages target first count (false, f.infinity) in
      f.mul (if negative then f.neg normalization else normalization) minimum

  -- The loop over the targets of a check.
  unfoldable pub check_targets : F → List F → ℕ → ℕ → ℕ → ℕ → List F → List F
  check_targets normalization messages first count target zero out = out
  check_targets normalization messages first count target (suc left) out =
      check_targets normalization messages first count (target + 1) left
        (set out target (check_message normalization messages first count target))

  -- The loop over the checks.
  unfoldable pub update_checks : LdpcCode → F → List F → ℕ → ℕ → List F → List F
  update_checks code normalization messages check zero out = out
  update_checks code normalization messages check (suc left) out =
      let first = first_edge code check in
      let count = degree code check in
      update_checks code normalization messages (check + 1) left
        (check_targets normalization messages first count first count out)

  -- The loop that adds the messages of a variable's edges, `edge` being the first of `left`.
  unfoldable pub add_messages : LdpcCode → List F → ℕ → ℕ → ℕ → F → F
  add_messages code messages variable edge zero posterior = posterior
  add_messages code messages variable edge (suc left) posterior =
      let posterior' =
        if variable_of code edge == variable
        then f.add posterior (float_at messages edge)
        else posterior in
      add_messages code messages variable (edge + 1) left posterior'

  unfoldable pub posteriors : LdpcCode → List F → List F → ℕ → ℕ → List F
  posteriors code llr messages variable zero = []
  posteriors code llr messages variable (suc left) =
      add_messages code messages variable 0 code.edge_count (float_at llr variable)
      ∷ posteriors code llr messages (variable + 1) left

  -- The messages to the checks at the start, and after an iteration.
  unfoldable pub first_messages : LdpcCode → List F → ℕ → ℕ → List F
  first_messages code llr edge zero = []
  first_messages code llr edge (suc left) =
      float_at llr (variable_of code edge) ∷ first_messages code llr (edge + 1) left

  unfoldable pub next_messages : LdpcCode → List F → List F → ℕ → ℕ → List F
  next_messages code posterior messages edge zero = []
  next_messages code posterior messages edge (suc left) =
      f.sub (float_at posterior (variable_of code edge)) (float_at messages edge)
      ∷ next_messages code posterior messages (edge + 1) left

  -- An iteration: the messages from the checks, the posteriors, and the failed checks.
  unfoldable pub checks_of : LdpcCode → F → List F → List F → List F
  checks_of code normalization messages out =
      update_checks code normalization messages 0 code.check_count out

  unfoldable pub posterior_of : LdpcCode → List F → List F → List F
  posterior_of code llr checks = posteriors code llr checks 0 code.variable_count

  unfoldable pub update_hard_bits : LdpcCode → List F → List ℕ × ℕ
  update_hard_bits code posterior =
      let bits = hard_bits posterior in (bits, syndrome_from code bits 0 code.check_count)

  -- The iterations from `iteration` on, at most `left` of them, with the messages to the checks and from
  -- them, and what the last one left.
  unfoldable pub iterate :
      LdpcCode → F → List F → ℕ → ℕ → List F → List F → List ℕ × DecodeStats → List ℕ × DecodeStats
  iterate code normalization llr iteration zero messages out last = last
  iterate code normalization llr iteration (suc left) messages out last =
      let checks = checks_of code normalization messages out in
      let posterior = posterior_of code llr checks in
      let (bits, weight) = update_hard_bits code posterior in
      elim (weight == 0) [
        | true ↦ (bits, stats_of true iteration weight)
        | false ↦
            iterate code normalization llr (iteration + 1) left
              (next_messages code posterior checks 0 code.edge_count) checks
              (bits, stats_of false iteration weight)
      ]

  -- The arguments that the decoder refuses; the capacities are those of the workspace.
  abbrev pub decoder_refuses : LdpcCode → F → ℕ → ℕ → ℕ → Bool
  decoder_refuses code normalization max_iterations edge_capacity variable_capacity =
      ltb edge_capacity code.edge_count
      || ltb variable_capacity code.variable_count
      || f.le normalization (f.decimal 0 0)
      || f.lt (f.decimal 1 0) normalization
      || max_iterations == 0

  -- `max_iterations` is an unsigned int below UINT_MAX, where the test of the source's loop would never
  -- fail; rtnc_fec_decode, the only caller, passes 30.
  unfoldable pub ldpc_decode_normalized_min_sum :
      LdpcCode → List F → F → ℕ → ℕ → ℕ → Option (List ℕ × DecodeStats)
  ldpc_decode_normalized_min_sum code llr normalization max_iterations edge_capacity
        variable_capacity =
      if decoder_refuses code normalization max_iterations edge_capacity variable_capacity
      then none
      else some (
          iterate code normalization llr 1 max_iterations
            (first_messages code llr 0 code.edge_count) (replicate code.edge_count (f.decimal 0 0))
            ([], stats_of false 0 0))
