-- ===== src/Fec/MinSum/Checks.antt =====
-- The messages from the checks, where all messages to them have the right signs.
use reticulum_tnc.Base.{ℕ, zero, suc, ◌+◌, ◌≤◌, ◌<◌, List, set, ◌≡◌, false, arith}
use reticulum_tnc.Fec.MinSum.Signs.{
  HasEdges, Agrees, IsScale, AllTell, AllAgree, other_edges-sign, scaled, set-Agrees,
}
use reticulum_tnc.Floats.{Float, IsSigned}
use reticulum_tnc.Fec.{LdpcCode}
use reticulum_tnc.Fec.MinSum.{
  variable_of, first_edge, degree, check_parity, other_edges, check_message, check_targets,
  update_checks,
}
use reticulum_tnc.Fec.MinSum.Outcome.{AllEven}
use reticulum_tnc.Fec.MinSum.Parity.{AreBits, bit_at, check_parity-sum, sum_others-inside}

module _ {F : Type 0} ⦃f : Float F⦄ where
  -- A message from a check with even parity agrees with the bit of its edge.
  check_message-Agrees :
      (code : LdpcCode) (bits : List ℕ) (normalization : F) (messages : List F)
      (first count target : ℕ)
      → IsSigned F
      → IsScale normalization
      → AreBits bits
      → AllTell code bits messages
      → check_parity code bits first count ≡ 0
      → first + count ≤ code.edge_count
      → first ≤ target
      → target < first + count
      → Agrees (bit_at code bits target) (check_message normalization messages first count target)
  unfolding check_message
  check_message-Agrees code bits normalization messages first count target laws scale are tell even
        fit low high =
      let (negative, minimum) = other_edges messages target first count (false, f.infinity) in
      let (sign, nonneg) =
        other_edges-sign code bits messages target first count false f.infinity laws tell fit
          laws.infinity_nonneg in
      let total = sum_others-inside code bits target first count low high in
      let parity = check_parity-sum code bits first count are in
      let small = are (variable_of code target) in
      scaled (bit_at code bits target) normalization minimum negative laws scale
        (omega (arith, sign, total, parity, even, small)) nonneg

  check_targets-Agree :
      (code : LdpcCode) (bits : List ℕ) (normalization : F) (messages : List F)
      (first count target left : ℕ) (out : List F)
      → IsSigned F
      → IsScale normalization
      → AreBits bits
      → AllTell code bits messages
      → check_parity code bits first count ≡ 0
      → first + count ≤ code.edge_count
      → first ≤ target
      → target + left ≤ first + count
      → AllAgree code bits out
      → AllAgree code bits (check_targets normalization messages first count target left out)
  unfolding check_targets
  check_targets-Agree code bits normalization messages first count target zero out laws scale are
        tell even fit low high agree =
      agree
  check_targets-Agree code bits normalization messages first count target (suc left) out laws scale
        are tell even fit low high agree =
      let message = check_message normalization messages first count target in
      let fine =
        check_message-Agrees code bits normalization messages first count target laws scale are tell
          even fit low (omega arith) in
      check_targets-Agree code bits normalization messages first count (target + 1) left
        (set out target message) laws scale are tell even fit (omega arith) (omega arith)
        (λ edge. set-Agrees code bits out target edge message fine (agree edge))

  pub update_checks-Agree :
      (code : LdpcCode) (bits : List ℕ) (normalization : F) (messages : List F) (check left : ℕ)
      (out : List F)
      → IsSigned F
      → IsScale normalization
      → AreBits bits
      → AllTell code bits messages
      → AllEven code bits 0 code.check_count
      → HasEdges code
      → check + left ≤ code.check_count
      → AllAgree code bits out
      → AllAgree code bits (update_checks code normalization messages check left out)
  unfolding update_checks AllEven
  update_checks-Agree code bits normalization messages check zero out laws scale are tell even edges
        fit agree =
      agree
  update_checks-Agree code bits normalization messages check (suc left) out laws scale are tell even
        edges fit agree =
      let first = first_edge code check in
      let count = degree code check in
      update_checks-Agree code bits normalization messages (check + 1) left
        (check_targets normalization messages first count first count out) laws scale are tell even
        edges (omega arith)
        (check_targets-Agree code bits normalization messages first count first count out laws scale
          are tell
          (let same : 0 + check ≡ check = omega arith in rw same at (even check (omega arith)))
          (edges check (omega arith)) (omega arith) (omega arith) agree)
