-- ===== src/Fec/MinSum/Clean.antt =====
-- Decoding where all signs are right.
use reticulum_tnc.Base.{
  ℕ, zero, suc, ◌+◌, ◌<◌, List, [], ◌∷◌, length, get_or, drop, replicate, get_or-replicate, ◌==◌,
  ==_iff, Bool-cases, ◌≡◌, refl, sym, ap, ap₂, subst, ◌∙◌, inl, inr, true, false, some, arith,
}
use reticulum_tnc.Fec.MinSum.Signs.{
  IsCodeword, Tells, Agrees, IsScale, AllTell, AllAgree, drop_all, drop_get,
}
use reticulum_tnc.Floats.{Float, IsSigned}
use reticulum_tnc.Fec.{LdpcCode}
use reticulum_tnc.Fec.MinSum.{
  stats_of, variable_of, float_at, hard_bit, hard_bits, update_checks, add_messages, posteriors,
  first_messages, checks_of, posterior_of, iterate, decoder_refuses, ldpc_decode_normalized_min_sum,
}
use reticulum_tnc.Fec.MinSum.Outcome.{iterate-last}
use reticulum_tnc.Fec.MinSum.Parity.{bit_at, AllEven-syndrome}
use reticulum_tnc.Fec.MinSum.Checks.{update_checks-Agree}

module _ {F : Type 0} ⦃f : Float F⦄ where
  Tells-add : (bit : ℕ) (x y : F) → IsSigned F → Tells bit x → Agrees bit y → Tells bit (f.add x y)
  unfolding Agrees
  Tells-add bit x y laws (inl (e, nonneg)) (zero_case, one_case) =
      inl (e, laws.add_nonneg x y nonneg (zero_case e))
  Tells-add bit x y laws (inr (e, neg)) (zero_case, one_case) =
      inr (e, laws.add_neg x y neg (one_case e))

  add_messages-Tells :
      (code : LdpcCode) (bits : List ℕ) (messages : List F) (variable edge left : ℕ) (posterior : F)
      → IsSigned F
      → AllAgree code bits messages
      → Tells (get_or bits variable 0) posterior
      → Tells (get_or bits variable 0) (add_messages code messages variable edge left posterior)
  unfolding add_messages
  add_messages-Tells code bits messages variable edge zero posterior laws agree tell = tell
  add_messages-Tells code bits messages variable edge (suc left) posterior laws agree tell =
      elim (Bool-cases (variable_of code edge == variable)) [
        | inl e ↦
            let same = (==_iff (variable_of code edge) variable).0 e in
            let fine : Agrees (get_or bits variable 0) (float_at messages edge) =
              subst (λ v. Agrees (get_or bits v 0) (float_at messages edge)) same (agree edge) in
            rw (e, add_messages)
              (add_messages-Tells code bits messages variable (edge + 1) left
                (f.add posterior (float_at messages edge)) laws agree
                (Tells-add (get_or bits variable 0) posterior (float_at messages edge) laws tell
                  fine))
        | inr e ↦
            rw (e, add_messages)
              (add_messages-Tells code bits messages variable (edge + 1) left posterior laws agree
                tell)
      ]

  hard_bit-Tells : (bit : ℕ) (x : F) → IsSigned F → Tells bit x → hard_bit x ≡ bit
  hard_bit-Tells bit x laws (inl (e, nonneg)) = rw (laws.nonneg_not_neg x nonneg) (sym e)
  hard_bit-Tells bit x laws (inr (e, neg)) = rw neg (sym e)

  -- The hard bits are those of the codeword.
  hard_bits-posteriors :
      (code : LdpcCode) (bits : List ℕ) (llr messages : List F) (variable left : ℕ)
      → IsSigned F
      → AllAgree code bits messages
      → ((i : ℕ) → i < length bits → Tells (get_or bits i 0) (float_at llr i))
      → variable + left ≡ length bits
      → hard_bits (posteriors code llr messages variable left) ≡ drop variable bits
  unfolding posteriors
  hard_bits-posteriors code bits llr messages variable zero laws agree tell e =
      sym (drop_all variable bits (omega arith))
  hard_bits-posteriors code bits llr messages variable (suc left) laws agree tell e =
      ap₂ ◌∷◌
        (hard_bit-Tells (get_or bits variable 0)
          (add_messages code messages variable 0 code.edge_count (float_at llr variable)) laws
          (add_messages-Tells code bits messages variable 0 code.edge_count (float_at llr variable)
            laws agree (tell variable (omega arith))))
        (hard_bits-posteriors code bits llr messages (variable + 1) left laws agree tell
          (omega arith))
      ∙ ap (λ n. get_or bits variable 0 ∷ drop n bits)
          (let e' : variable + 1 ≡ suc variable = omega arith in e')
      ∙ sym (drop_get bits variable (omega arith))

  first_messages_at :
      (code : LdpcCode) (llr : List F) (edge left i : ℕ)
      → i < left
      → float_at (first_messages code llr edge left) i ≡ float_at llr (variable_of code (edge + i))
  unfolding first_messages
  first_messages_at code llr edge zero i h = absurd (omega arith)
  first_messages_at code llr edge (suc left) zero h =
      ap (λ e. float_at llr (variable_of code e)) (omega arith)
  first_messages_at code llr edge (suc left) (suc i) h =
      first_messages_at code llr (edge + 1) left i (omega arith)
      ∙ ap (λ e. float_at llr (variable_of code e)) (omega arith)

  zeros-Agree :
      (code : LdpcCode) (bits : List ℕ)
      → IsSigned F
      → AllAgree code bits (replicate code.edge_count (f.decimal 0 0))
  unfolding Agrees
  zeros-Agree code bits laws edge =
      let zero_e = get_or-replicate code.edge_count edge (f.decimal 0 0) in
      rw zero_e (λ _. laws.zero_nonneg, λ _. laws.zero_nonneg)

  first_messages-Tell :
      (code : LdpcCode) (bits : List ℕ) (llr : List F)
      → IsCodeword code bits
      → ((i : ℕ) → i < length bits → Tells (get_or bits i 0) (float_at llr i))
      → AllTell code bits (first_messages code llr 0 code.edge_count)
  first_messages-Tell code bits llr word tell edge h =
      let value = first_messages_at code llr 0 code.edge_count edge h in
      let same : 0 + edge ≡ edge = omega arith in
      let known = tell (variable_of code edge) (omega (arith, word.size, word.variables edge h)) in
      subst (Tells (bit_at code bits edge)) (sym (rw same at value)) known

  one_iteration :
      (code : LdpcCode) (bits : List ℕ) (llr : List F) (normalization : F) (most : ℕ)
      → IsSigned F
      → IsScale normalization
      → IsCodeword code bits
      → ((i : ℕ) → i < length bits → Tells (get_or bits i 0) (float_at llr i))
      → 0 < most
      → iterate code normalization llr 1 most
          (first_messages code llr 0 code.edge_count)
          (replicate code.edge_count (f.decimal 0 0))
          ([], stats_of false 0 0)
        ≡ (bits, stats_of true 1 0)
  unfolding checks_of posterior_of
  one_iteration code bits llr normalization zero laws scale word tell pos = absurd (omega arith)
  one_iteration code bits llr normalization (suc most) laws scale word tell pos =
      let messages = first_messages code llr 0 code.edge_count in
      let out = replicate code.edge_count (f.decimal 0 0) in
      let checks = update_checks code normalization messages 0 code.check_count out in
      let tells = first_messages-Tell code bits llr word tell in
      let agree =
        update_checks-Agree code bits normalization messages 0 code.check_count out laws scale
          word.are_bits tells word.even word.edges (omega arith) (zeros-Agree code bits laws) in
      let same : hard_bits (posteriors code llr checks 0 code.variable_count) ≡ bits =
        hard_bits-posteriors code bits llr checks 0 code.variable_count laws agree tell
          (omega (arith, word.size)) in
      let weight = AllEven-syndrome code bits 0 code.check_count word.even in
      iterate-last code normalization llr 1 most messages out ([], stats_of false 0 0)
        (rw (same, weight) refl)
      ∙ ap₂ (λ b w. (b, stats_of true 1 w)) same (rw same weight)

  -- If all reliabilities have the sign of a codeword's bits, however small they are, then the decoder
  -- returns that codeword after one iteration, on floats whose signs are those of exact numbers, with a
  -- normalization above 0 and up to 1 and with workspace for the code.
  pub ldpc_decode_clean :
      (code : LdpcCode) (bits : List ℕ) (llr : List F) (normalization : F)
      (max_iterations edges variables : ℕ)
      → IsSigned F
      → IsScale normalization
      → IsCodeword code bits
      → ((i : ℕ) → i < length bits → Tells (get_or bits i 0) (float_at llr i))
      → decoder_refuses code normalization max_iterations edges variables ≡ false
      → ldpc_decode_normalized_min_sum code llr normalization max_iterations edges variables
        ≡ some (bits, stats_of true 1 0)
  unfolding ldpc_decode_normalized_min_sum
  ldpc_decode_clean code bits llr normalization max_iterations edges variables laws scale word tell
        h =
      rw h (
        ap some (
          one_iteration code bits llr normalization max_iterations laws scale word tell
            (ground arith)))
