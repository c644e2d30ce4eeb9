-- ===== src/Runtime/Calls.antt =====
-- Any sequence of calls on an initialized runtime.
use reticulum_tnc.Base.{ℕ, ◌^◌, ◌<◌, u8, List, [], ◌∷◌, ◌≡◌, some, arith}
use reticulum_tnc.Runtime.{
  Runtime, Settings, runtime_init, submit_packet, accept_fragment, receive_packet,
  set_kiss_parameter,
}
use reticulum_tnc.Runtime.Transmit.{Trace, Backend, transmit_next}
use reticulum_tnc.Runtime.Safety.{keyed, OnAir, Settled, transmit_next-IsSettled}
use reticulum_tnc.Runtime.Invariant.{
  IsValid, runtime_init-IsValid, submit_packet-IsValid, accept_fragment-IsValid,
  receive_packet-IsValid, set_kiss_parameter-IsValid, transmit_next-IsValid,
}

-- A call, with its arguments. The value of a KISS parameter is a byte.
pub data Call : Type 0 where
  submit : List ℕ → Call
  transmit : Call
  accept : List ℕ → ℕ → Call
  receive : ℕ → Call
  set_parameter : ℕ → ℕ → Call

module _ {ℓ} {Sample : Type ℓ} (b : Backend Sample) where
  unfoldable pub perform : Runtime → Trace Sample → Call → Runtime × Trace Sample
  perform r t (submit packet) = ((submit_packet r packet).0, t)
  perform r t transmit = ((transmit_next b r t).runtime, (transmit_next b r t).trace)
  perform r t (accept fragment now_ms) = ((accept_fragment r fragment now_ms).0, t)
  perform r t (receive capacity) = ((receive_packet r capacity).0, t)
  perform r t (set_parameter command value) = ((set_kiss_parameter r command (u8 value)).0, t)

  unfoldable pub perform_all : Runtime → Trace Sample → List Call → Runtime × Trace Sample
  perform_all r t [] = (r, t)
  perform_all r t (call ∷ calls) = let next = perform r t call in perform_all next.0 next.1 calls

  -- The runtime is valid, the transmitter is on only if its release was refused, and all audio so far was
  -- sent while it was on.
  abbrev pub IsSafe : Runtime → Trace Sample → Type 0
  IsSafe r t = IsValid r × Settled b t

  perform-IsSafe :
      (r : Runtime) (t : Trace Sample) (call : Call)
      → IsSafe r t
      → IsSafe (perform r t call).0 (perform r t call).1
  unfolding perform
  perform-IsSafe r t (submit packet) (v, settled) = (submit_packet-IsValid r packet v, settled)
  perform-IsSafe r t transmit (v, settled) =
      let out = transmit_next-IsSettled b r t settled in
      let settled' : Settled b (transmit_next b r t).trace = (out.released, out.on_air) in
      (transmit_next-IsValid b r t v, settled')
  perform-IsSafe r t (accept fragment now_ms) (v, settled) =
      (accept_fragment-IsValid r fragment now_ms v, settled)
  perform-IsSafe r t (receive capacity) (v, settled) =
      (receive_packet-IsValid r capacity v, settled)
  perform-IsSafe r t (set_parameter command value) (v, settled) =
      (set_kiss_parameter-IsValid r command (u8 value) v (omega arith), settled)

  perform_all-IsSafe :
      (r : Runtime) (t : Trace Sample) (calls : List Call)
      → IsSafe r t
      → IsSafe (perform_all r t calls).0 (perform_all r t calls).1
  unfolding perform_all
  perform_all-IsSafe r t [] safe = safe
  perform_all-IsSafe r t (call ∷ calls) safe =
      let next = perform r t call in
      perform_all-IsSafe next.0 next.1 calls (perform-IsSafe r t call safe)

  -- After any calls on what rtnc_runtime_init accepted, whatever the backend answers: the queues, the
  -- reassembly and the parameters are valid, the transmitter is on only if the backend refused its last
  -- release and it was not switched on since, and audio was only ever sent while the transmitter was on.
  pub perform_all-init :
      (s : Settings) (r : Runtime) (calls : List Call)
      → runtime_init s ≡ some r
      → s.lead_ms < 2 ^ 16
      → s.tail_ms < 2 ^ 16
      → IsSafe (perform_all r [] calls).0 (perform_all r [] calls).1
  unfolding keyed OnAir
  perform_all-init s r calls h lead tail =
      let settled : Settled b [] = (λ on. absurd (ground arith), ground arith) in
      perform_all-IsSafe r [] calls ((runtime_init-IsValid s r h lead tail).0, settled)
