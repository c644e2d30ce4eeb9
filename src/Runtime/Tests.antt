-- ===== src/Runtime/Tests.antt =====
-- The runtime on concrete calls: samples are bytes, and the modulator is the identity.
use reticulum_tnc.Base.{
  ℕ, ◌+◌, ◌-◌, List, [], ◌∷◌, ◌++◌, length, replicate, ltb, ◌≡◌, refl, sym, true, false, some,
  arith,
}
use reticulum_tnc.Fragmentation.{
  Reassembly, valid_payload_class, reassembly_push, reassembly_init, reassembly_reset,
}
use reticulum_tnc.Fragmentation.Stream.{delivered, receive, stamp}
use reticulum_tnc.PacketQueue.{PacketSlot, PacketQueue, empty_slot, queue_init, queue_peek}
use reticulum_tnc.Runtime.{
  tx_wait_busy, done, busy, rx_rejected, Runtime, Settings, assembled, runtime_init,
  accept_fragment,
}
use reticulum_tnc.Runtime.Transmit.{asked_now, Trace, Backend, transmit_next}
use reticulum_tnc.Runtime.Safety.{keyed, OnAir, IsSettled, transmit_next-IsSettled}
use reticulum_tnc.Runtime.Account.{Accounts, transmit_next-Accounts}
use reticulum_tnc.Runtime.Sent.{audio, AllSent, transmit_next_done}
use reticulum_tnc.Runtime.Link.{heard, receive-transmit_next, Works, transmit_next_works}
use reticulum_tnc.Runtime.Invariant.{IsValid}
use reticulum_tnc.Runtime.Calls.{
  Call, submit, transmit, accept, perform_all, IsSafe, perform_all-init,
}
use reticulum_tnc.Runtime.Receive.{packets, accept_all, accept_all_receives}
use reticulum_tnc.Runtime.Busy.{IsPatient, accept_fragment-waiting, transmit_next_times_out}

abbrev settings : Settings
settings = record {
  payload_class = 64;
  mtu = 500;
  reassembly_timeout_ms = 1000;
  tx_queue_packets = 1;
  rx_queue_packets = 1;
  busy_timeout_ms = 500;
  rx_guard_ms = 150;
  lead_ms = 300;
  tail_ms = 50;
  gain_positive = true;
  modem_ready = true;
}

abbrev empty_queue : PacketQueue
empty_queue = record {
  slots = replicate 9 empty_slot;
  mtu = 500;
  capacity = 1;
  slot_count = 2;
  producer = 0;
  consumer = 0;
  maximum_depth = 0;
  dropped_packets = 0;
}

abbrev packet : PacketSlot
packet = record { bytes = 7 ∷ 8 ∷ 9 ∷ []; sequence = 0 }

abbrev full_queue : PacketQueue
full_queue = record empty_queue {
  slots = packet ∷ replicate 8 empty_slot;
  producer = 1;
  maximum_depth = 1;
}

abbrev receiver : Reassembly
receiver = record {
  packet = [];
  mtu = 500;
  radio_payload_class = 64;
  remaining = 0;
  started_ms = 0;
  timeout_ms = 1000;
  active = false;
}

abbrev fresh : Runtime
fresh = assembled settings empty_queue empty_queue receiver

abbrev loaded : Runtime
loaded = record fresh { tx_queue = full_queue; next_tx_sequence = 1 }

init_runs : runtime_init settings ≡ some fresh
unfolding runtime_init queue_init reassembly_init reassembly_reset valid_payload_class
init_runs = refl

fresh-IsValid : IsValid fresh
unfolding valid_payload_class
fresh-IsValid = ground arith

-- Everything works, and the channel is free.
abbrev willing : Backend ℕ
willing = record {
  answer = λ t e. true;
  now_ms = λ t. 5 + length t;
  senses_channel = false;
  prepare = λ frame. some frame;
}

-- The same with a channel that is always busy.
abbrev crowded : Backend ℕ
crowded = record willing { senses_channel = true }

abbrev no_trace : Trace ℕ
no_trace = []

peek_loaded : queue_peek loaded.tx_queue ≡ some packet
unfolding queue_peek
peek_loaded = refl

willing-Works : Works willing 64
willing-Works = record {
  keys = λ t on. refl;
  plays = λ t samples. refl;
  drains = λ t. refl;
  sleeps = λ t n. refl;
  modulates = λ fragment low high. (fragment, refl);
}

transmit_next_works_example : (transmit_next willing loaded no_trace).status ≡ done
unfolding valid_payload_class
transmit_next_works_example =
    transmit_next_works willing 64 willing-Works loaded no_trace packet refl peek_loaded refl refl
      (omega arith) (omega arith) refl (omega arith) refl

transmit_next_done_example :
    AllSent willing packet.bytes 64 no_trace (transmit_next willing loaded no_trace).trace
transmit_next_done_example =
    transmit_next_done willing loaded no_trace packet refl peek_loaded transmit_next_works_example

receive-transmit_next_example :
    (sent : List (List ℕ)) × (audio willing (transmit_next willing loaded no_trace).trace
      ≡ audio willing no_trace ++ sent)
    × ((receive receiver (stamp (λ i. 0) 0 (heard willing some sent))).0 ≡ packet.bytes ∷ [])
unfolding valid_payload_class
receive-transmit_next_example =
    receive-transmit_next willing some loaded no_trace packet receiver (λ i. 0)
      (λ frame samples h. sym h) refl peek_loaded transmit_next_works_example refl (omega arith)
      (omega arith) refl (omega arith) (λ i. omega arith)

transmit_next-IsSettled_example : IsSettled willing no_trace (transmit_next willing loaded no_trace)
unfolding keyed OnAir
transmit_next-IsSettled_example =
    transmit_next-IsSettled willing loaded no_trace (λ on. absurd (ground arith), ground arith)

transmit_next-Accounts_example :
    Accounts loaded packet.bytes
      (transmit_next willing loaded no_trace).runtime
      (transmit_next willing loaded no_trace).status
transmit_next-Accounts_example =
    transmit_next-Accounts willing loaded no_trace packet refl peek_loaded

abbrev calls : List Call
calls = submit (7 ∷ 8 ∷ 9 ∷ []) ∷ (accept (0 ∷ 5 ∷ []) 10 ∷ (transmit ∷ []))

perform_all-init_example :
    IsSafe willing
      (perform_all willing fresh no_trace calls).0
      (perform_all willing fresh no_trace calls).1
perform_all-init_example =
    perform_all-init willing settings fresh calls init_runs (omega arith) (omega arith)

abbrev stream : List (List ℕ × ℕ)
stream = (0 ∷ 5 ∷ 6 ∷ [], 10) ∷ []

accept_all_receives_example :
    packets (accept_all fresh stream).rx_queue
    ≡ packets fresh.rx_queue ++ (receive fresh.reassembly stream).0
unfolding receive reassembly_push delivered
accept_all_receives_example = accept_all_receives fresh stream fresh-IsValid refl refl (omega arith)

waits : (transmit_next crowded loaded no_trace).status ≡ busy
waits =
    (transmit_next_times_out crowded loaded no_trace (asked_now ∷ []) packet refl peek_loaded refl
      (omega arith) (omega arith) (omega arith) refl refl).0

abbrev waiting : Runtime
waiting = record loaded { state = tx_wait_busy; busy_started_ms = 5 }

transmit_next_times_out_example :
    ((transmit_next crowded loaded no_trace).status ≡ busy)
    × ((transmit_next crowded loaded no_trace).runtime ≡ waiting)
    × IsPatient crowded waiting (ltb (6 - 5) 500) (transmit_next crowded waiting (asked_now ∷ []))
transmit_next_times_out_example =
    transmit_next_times_out crowded loaded no_trace (asked_now ∷ []) packet refl peek_loaded refl
      (omega arith) (omega arith) (omega arith) refl refl

accept_fragment-waiting_example :
    accept_fragment (transmit_next crowded loaded no_trace).runtime (0 ∷ 5 ∷ []) 10
    ≡ ((transmit_next crowded loaded no_trace).runtime, rx_rejected)
accept_fragment-waiting_example =
    accept_fragment-waiting crowded loaded no_trace packet (0 ∷ 5 ∷ []) 10 refl peek_loaded refl
      waits
