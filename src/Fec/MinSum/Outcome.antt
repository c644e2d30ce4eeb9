-- ===== src/Fec/MinSum/Outcome.antt =====
-- When the decoder stops, and what its answer means.
use reticulum_tnc.Base.{
  ℕ, zero, suc, ◌+◌, ◌-◌, ◌≤◌, ◌<◌, List, [], ◌∷◌, length, get_or, replicate, if◌then◌else◌, ◌==◌,
  ==_iff, Bool-cases, ◌≡◌, refl, sym, ap, subst, ◌∙◌, inl, inr, true, false, some, arith,
  ℕ_discrete,
}
use reticulum_tnc.Floats.{Float}
use reticulum_tnc.Fec.{LdpcCode}
use reticulum_tnc.Fec.MinSum.{
  DecodeStats, stats_of, float_at, first_edge, degree, check_parity, syndrome_from, hard_bits,
  first_messages, checks_of, posteriors, posterior_of, next_messages, update_hard_bits, iterate,
  decoder_refuses, ldpc_decode_normalized_min_sum,
}

-- `count` checks from `check` on have an even number of ones.
unfoldable pub AllEven : LdpcCode → List ℕ → ℕ → ℕ → Type 0
AllEven code bits check count =
    (i : ℕ)
    → i < count
    → check_parity code bits (first_edge code (check + i)) (degree code (check + i)) ≡ 0

syndrome_from-zero :
    (code : LdpcCode) (bits : List ℕ) (check count : ℕ)
    → syndrome_from code bits check count ≡ 0
    → AllEven code bits check count
unfolding syndrome_from AllEven
syndrome_from-zero code bits check zero e = λ i h. absurd (omega arith)
syndrome_from-zero code bits check (suc count) e = λ i h. elim (ℕ_discrete i 0) [
  | yes first ↦ let same : check + i ≡ check = omega arith in rw same (ground arith)
  | no later ↦
      let rest =
        syndrome_from-zero code bits (check + 1) count (ground arith) (i - 1) (omega arith) in
      let same : check + 1 + (i - 1) ≡ check + i = omega arith in rw same at rest
]

abbrev weight_of : LdpcCode → List ℕ → ℕ
weight_of code bits = syndrome_from code bits 0 code.check_count

module _ {F : Type 0} ⦃f : Float F⦄ where
  length-posteriors :
      (code : LdpcCode) (llr messages : List F) (variable left : ℕ)
      → length (posteriors code llr messages variable left) ≡ left
  unfolding posteriors
  length-posteriors code llr messages variable zero = refl
  length-posteriors code llr messages variable (suc left) =
      ap suc (length-posteriors code llr messages (variable + 1) left)

  length-hard_bits : (values : List F) → length (hard_bits values) ≡ length values
  length-hard_bits [] = refl
  length-hard_bits (v ∷ vs) = ap suc (length-hard_bits vs)

  -- What one iteration computes.
  abbrev round_bits : LdpcCode → F → List F → List F → List F → List ℕ
  round_bits code normalization llr messages out =
      hard_bits (posterior_of code llr (checks_of code normalization messages out))

  pub iterate-last :
      (code : LdpcCode) (normalization : F) (llr : List F) (iteration left : ℕ)
      (messages out : List F) (last : List ℕ × DecodeStats)
      → let bits = round_bits code normalization llr messages out in
        (weight_of code bits == 0) ≡ true
        → iterate code normalization llr iteration (suc left) messages out last
          ≡ (bits, stats_of true iteration (weight_of code bits))
  unfolding iterate update_hard_bits
  iterate-last code normalization llr iteration left messages out last e = rw (e, iterate) refl

  iterate-next :
      (code : LdpcCode) (normalization : F) (llr : List F) (iteration left : ℕ)
      (messages out : List F) (last : List ℕ × DecodeStats)
      → let bits = round_bits code normalization llr messages out in
        let checks = checks_of code normalization messages out in
        let posterior = posterior_of code llr checks in
        (weight_of code bits == 0) ≡ false
        → iterate code normalization llr iteration (suc left) messages out last
          ≡ iterate code normalization llr
              (iteration + 1)
              left
              (next_messages code posterior checks 0 code.edge_count)
              checks
              (bits, stats_of false iteration (weight_of code bits))
  unfolding iterate update_hard_bits
  iterate-next code normalization llr iteration left messages out last e = rw (e, iterate) refl

  iterate-none :
      (code : LdpcCode) (normalization : F) (llr : List F) (iteration : ℕ) (messages out : List F)
      (last : List ℕ × DecodeStats)
      → iterate code normalization llr iteration 0 messages out last ≡ last
  unfolding iterate
  iterate-none code normalization llr iteration messages out last = refl

  -- The messages to the checks and from them, after `count` iterations from these.
  unfoldable pub rounds_from : LdpcCode → F → List F → ℕ → List F → List F → List F × List F
  rounds_from code normalization llr zero messages out = (messages, out)
  rounds_from code normalization llr (suc count) messages out =
      let checks = checks_of code normalization messages out in
      rounds_from code normalization llr count
        (next_messages code (posterior_of code llr checks) checks 0 code.edge_count) checks

  -- The posteriors of the iteration that follows `count` ones.
  abbrev pub posterior_from : LdpcCode → F → List F → ℕ → List F → List F → List F
  posterior_from code normalization llr count messages out =
      let (messages', out') = rounds_from code normalization llr count messages out in
      posterior_of code llr (checks_of code normalization messages' out')

  bits_from : LdpcCode → F → List F → ℕ → List F → List F → List ℕ
  bits_from code normalization llr count messages out =
      hard_bits (posterior_from code normalization llr count messages out)

  -- The iterations from `first` on stopped after `count` more, of at most `left`.
  record Stops (code : LdpcCode) (normalization : F) (llr messages out : List F) (first left : ℕ)
      (answer : List ℕ × DecodeStats) : Type 0 where
    count : ℕ
    few : count ≤ left
    iterations : answer.1.iterations ≡ first + count
    bits : answer.0 ≡ bits_from code normalization llr count messages out
    weight : answer.1.syndrome_weight ≡ weight_of code answer.0
    earlier :
        (j : ℕ) → j < count → 0 < weight_of code (bits_from code normalization llr j messages out)
    converged : answer.1.converged ≡ true → answer.1.syndrome_weight ≡ 0
    gives_up : answer.1.converged ≡ false → (count ≡ left) × (0 < answer.1.syndrome_weight)

  converged-Stops :
      (code : LdpcCode) (normalization : F) (llr messages out : List F) (first left : ℕ)
      → let bits = round_bits code normalization llr messages out in
        weight_of code bits ≡ 0
        → Stops code normalization llr messages out first left
            (bits, stats_of true first (weight_of code bits))
  unfolding bits_from rounds_from
  converged-Stops code normalization llr messages out first left e = record {
    count = 0;
    few = omega arith;
    iterations = omega arith;
    bits = refl;
    weight = refl;
    earlier = λ j h. absurd (omega arith);
    converged = λ _. e;
    gives_up = λ h. absurd (ground arith);
  }

  failed-Stops :
      (code : LdpcCode) (normalization : F) (llr messages out : List F) (first : ℕ)
      → let bits = round_bits code normalization llr messages out in
        0 < weight_of code bits
        → Stops code normalization llr messages out first 0
            (bits, stats_of false first (weight_of code bits))
  unfolding bits_from rounds_from
  failed-Stops code normalization llr messages out first pos = record {
    count = 0;
    few = omega arith;
    iterations = omega arith;
    bits = refl;
    weight = refl;
    earlier = λ j h. absurd (omega arith);
    converged = λ h. absurd (ground arith);
    gives_up = λ _. (refl, pos);
  }

  later-Stops :
      (code : LdpcCode) (normalization : F) (llr messages out : List F) (first left : ℕ)
      (answer : List ℕ × DecodeStats)
      → let checks = checks_of code normalization messages out in
        0 < weight_of code (round_bits code normalization llr messages out)
        → Stops code normalization llr
            (next_messages code (posterior_of code llr checks) checks 0 code.edge_count)
            checks
            (first + 1)
            left
            answer
        → Stops code normalization llr messages out first (suc left) answer
  unfolding bits_from rounds_from
  later-Stops code normalization llr messages out first left answer pos v = record {
    count = suc v.count;
    few = let few = v.few in omega arith;
    iterations = let same = v.iterations in omega arith;
    bits = v.bits;
    weight = v.weight;
    earlier = before;
    converged = v.converged;
    gives_up = λ h. (ap suc (v.gives_up h).0, (v.gives_up h).1);
  }
    where
      before :
          (j : ℕ)
          → j < suc v.count
          → 0 < weight_of code (bits_from code normalization llr j messages out)
      before zero h = pos
      before (suc j) h = v.earlier j (omega arith)

  iterate-Stops :
      (code : LdpcCode) (normalization : F) (llr : List F) (first left : ℕ) (messages out : List F)
      (last : List ℕ × DecodeStats)
      → Stops code normalization llr messages out first left
          (iterate code normalization llr first (suc left) messages out last)
  iterate-Stops code normalization llr first zero messages out last =
      let bits = round_bits code normalization llr messages out in
      let checks = checks_of code normalization messages out in
      elim (Bool-cases (weight_of code bits == 0)) [
        | inl e ↦ rw (iterate-last code normalization llr first 0 messages out last e) (
            converged-Stops code normalization llr messages out first 0
              ((==_iff (weight_of code bits) 0).0 e))
        | inr e ↦
            rw
              (
                iterate-next code normalization llr first 0 messages out last e,
                iterate-none code normalization llr (first + 1)
                    (next_messages code (posterior_of code llr checks) checks 0 code.edge_count)
                    checks (bits, stats_of false first (weight_of code bits)),
              )
              (failed-Stops code normalization llr messages out first (ground arith))
      ]
  iterate-Stops code normalization llr first (suc left) messages out last =
      let bits = round_bits code normalization llr messages out in
      let checks = checks_of code normalization messages out in
      let messages' = next_messages code (posterior_of code llr checks) checks 0 code.edge_count in
      elim (Bool-cases (weight_of code bits == 0)) [
        | inl e ↦ rw (iterate-last code normalization llr first (suc left) messages out last e) (
            converged-Stops code normalization llr messages out first (suc left)
              ((==_iff (weight_of code bits) 0).0 e))
        | inr e ↦ rw (iterate-next code normalization llr first (suc left) messages out last e) (
            later-Stops code normalization llr messages out first left
              (iterate code normalization llr (first + 1) (suc left) messages' checks
                (bits, stats_of false first (weight_of code bits)))
              (ground arith)
              (iterate-Stops code normalization llr (first + 1) left messages' checks
                (bits, stats_of false first (weight_of code bits))))
      ]

  -- A bit for each variable: a one exactly if its value is below 0.
  pub record Decides (variables : ℕ) (values : List F) (bits : List ℕ) : Type 0 where
    pub size : length bits ≡ variables
    pub decided :
        (i : ℕ)
        → i < variables
        → get_or bits i 0 ≡ (if f.lt (float_at values i) (f.decimal 0 0) then 1 else 0)

  get_or-hard_bits :
      (values : List F) (i : ℕ)
      → i < length values
      → get_or (hard_bits values) i 0 ≡ (if f.lt (float_at values i) (f.decimal 0 0) then 1 else 0)
  get_or-hard_bits [] i h = absurd (omega arith)
  get_or-hard_bits (v ∷ vs) zero h = refl
  get_or-hard_bits (v ∷ vs) (suc i) h = get_or-hard_bits vs i (omega arith)

  posterior_of-Decides :
      (code : LdpcCode) (llr checks : List F)
      → Decides code.variable_count
          (posterior_of code llr checks)
          (hard_bits (posterior_of code llr checks))
  unfolding posterior_of
  posterior_of-Decides code llr checks =
      let size = length-posteriors code llr checks 0 code.variable_count in
      record {
        size = length-hard_bits (posterior_of code llr checks) ∙ size;
        decided = λ i h. get_or-hard_bits (posterior_of code llr checks) i (omega (arith, size, h));
      }

  -- The posteriors of iteration `n`, the first one being 1.
  abbrev pub posterior_at : LdpcCode → F → List F → ℕ → List F
  posterior_at code normalization llr n =
      posterior_from code normalization llr (n - 1) (first_messages code llr 0 code.edge_count)
        (replicate code.edge_count (f.decimal 0 0))

  -- What an outcome says, with at most `most` iterations.
  pub record IsOutcome (code : LdpcCode) (normalization : F) (llr : List F) (most : ℕ)
      (bits : List ℕ) (stats : DecodeStats) : Type 0 where
    pub some_iteration : 0 < stats.iterations
    pub few_iterations : stats.iterations ≤ most
    pub hard :
        Decides code.variable_count (posterior_at code normalization llr stats.iterations) bits
    pub weight : stats.syndrome_weight ≡ syndrome_from code bits 0 code.check_count
    pub earlier :
        (n : ℕ)
        → 0 < n
        → n < stats.iterations
        → 0
          < syndrome_from code
              (hard_bits (posterior_at code normalization llr n))
              0
              code.check_count
    pub stops : stats.converged ≡ true → AllEven code bits 0 code.check_count
    pub gives_up : stats.converged ≡ false → (stats.iterations ≡ most) × (0 < stats.syndrome_weight)

  Stops-IsOutcome :
      (code : LdpcCode) (normalization : F) (llr : List F) (left : ℕ)
      (answer : List ℕ × DecodeStats)
      → Stops code normalization llr
          (first_messages code llr 0 code.edge_count)
          (replicate code.edge_count (f.decimal 0 0))
          1
          left
          answer
      → IsOutcome code normalization llr (suc left) answer.0 answer.1
  unfolding bits_from
  Stops-IsOutcome code normalization llr left answer v =
      let start = first_messages code llr 0 code.edge_count in
      let zeros : List F = replicate code.edge_count (f.decimal 0 0) in
      let last : answer.1.iterations - 1 ≡ v.count = omega (arith, v.iterations) in
      record {
        some_iteration = omega (arith, v.iterations);
        few_iterations = omega (arith, v.iterations, v.few);
        hard =
            subst
              (λ bs.
                Decides code.variable_count
                  (posterior_at code normalization llr answer.1.iterations) bs)
              (sym v.bits)
              (subst
                (λ k.
                  Decides code.variable_count (posterior_from code normalization llr k start zeros)
                    (bits_from code normalization llr v.count start zeros))
                (sym last)
                (posterior_of-Decides code llr (
                  checks_of code normalization
                    (rounds_from code normalization llr v.count start zeros).0
                    (rounds_from code normalization llr v.count start zeros).1)));
        weight = v.weight;
        earlier = λ n pos less. v.earlier (n - 1) (omega (arith, v.iterations));
        stops =
            λ e. syndrome_from-zero code answer.0 0 code.check_count (sym v.weight ∙ v.converged e);
        gives_up =
            λ e. ((let same = (v.gives_up e).0 in omega (arith, v.iterations)), (v.gives_up e).1);
      }

  -- A decoder that is given what it needs and may do 1 to 4294967294 iterations (UINT_MAX ones would
  -- never end) always answers. It does at least one iteration and at most `max_iterations`, and its
  -- bits are those of the last one: a one for each variable whose posterior (`posterior_at`) is below 0
  -- and a zero for each other, with the number of checks that they fail. The bits of each earlier
  -- iteration fail some check. The decoder has converged only with bits that satisfy every check;
  -- otherwise it has done all its iterations and some check fails.
  pub ldpc_decode-IsOutcome :
      (code : LdpcCode) (llr : List F) (normalization : F) (max_iterations edges variables : ℕ)
      → decoder_refuses code normalization max_iterations edges variables ≡ false
      → max_iterations < 4294967295
      → (bits : List ℕ) × (stats : DecodeStats) × (ldpc_decode_normalized_min_sum code llr
            normalization max_iterations edges variables
          ≡ some (bits, stats))
        × IsOutcome code normalization llr max_iterations bits stats
  unfolding ldpc_decode_normalized_min_sum
  ldpc_decode-IsOutcome code llr normalization zero edges variables h few = absurd (ground arith)
  ldpc_decode-IsOutcome code llr normalization (suc left) edges variables h few =
      let start = first_messages code llr 0 code.edge_count in
      let zeros : List F = replicate code.edge_count (f.decimal 0 0) in
      let none_yet : List ℕ × DecodeStats = ([], stats_of false 0 0) in
      let answer = iterate code normalization llr 1 (suc left) start zeros none_yet in
      (
        answer.0,
        answer.1,
        rw h refl,
        Stops-IsOutcome code normalization llr left answer
            (iterate-Stops code normalization llr 1 left start zeros none_yet),
      )
