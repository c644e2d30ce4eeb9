-- ===== src/Fragmentation/Tests.antt =====
-- Fragments of concrete packets.
use reticulum_tnc.Base.{
  ℕ, ◌+◌, min, List, [], ◌∷◌, length, replicate, ok, err, ◌≡◌, refl, true, false, arith,
}
use reticulum_tnc.Fragmentation.{
  complete, invalid_mtu, invalid_sequence, timeout, Reassembly, fragment_count, fragment_build,
  reassembly_push, valid_payload_class,
}
use reticulum_tnc.Fragmentation.Stream.{fragments, receive, stamp}
use reticulum_tnc.Fragmentation.Roundtrip.{receive-fragments}
use reticulum_tnc.Fragmentation.Invariant.{IsValid}
use reticulum_tnc.Fragmentation.Chains.{Chain, IsTraced, history, reassembly_push-Chain}

-- A receiver of the small class, in the middle of another packet.
abbrev busy : Reassembly
busy = record {
  packet = 1 ∷ 2 ∷ [];
  mtu = 500;
  radio_payload_class = 64;
  remaining = 3;
  started_ms = 10;
  timeout_ms = 1000;
  active = true;
}

abbrev long : List ℕ
long = replicate 130 7

abbrev clock : ℕ → ℕ
clock i = 5000 + min i 9

count_runs : fragment_count 130 64 ≡ 3
unfolding fragment_count
count_runs = refl

build_runs : fragment_build (1 ∷ 2 ∷ []) 64 0 128 ≡ ok (0 ∷ 1 ∷ 2 ∷ [])
unfolding fragment_build fragment_count
build_runs = refl

build_past_end : fragment_build (1 ∷ 2 ∷ []) 64 1 128 ≡ err invalid_mtu
unfolding fragment_build fragment_count
build_past_end = refl

push_wrong_step : (reassembly_push busy (0x81 ∷ 5 ∷ []) 20).status ≡ invalid_sequence
unfolding reassembly_push
push_wrong_step = refl

push_late : (reassembly_push busy (0x82 ∷ 5 ∷ []) 1011).status ≡ timeout
unfolding reassembly_push
push_late = refl

receive-fragments_example :
    (frames : List (List ℕ)) × (fragments long 64 128 ≡ ok frames)
    × (length frames ≡ fragment_count (length long) 64)
    × ((receive busy (stamp clock 0 frames)).0 ≡ long ∷ [])
    × ((receive busy (stamp clock 0 frames)).1.active ≡ false)
unfolding valid_payload_class
receive-fragments_example =
    receive-fragments long 64 128 busy clock refl (omega arith) (omega arith) (omega arith) refl
      (omega arith) (λ i. omega arith)

busy-IsValid : IsValid busy
busy-IsValid = omega arith

abbrev received : List (List ℕ)
received = (3 ∷ 1 ∷ 2 ∷ []) ∷ []

abbrev second : List ℕ
second = 0x82 ∷ 5 ∷ []

busy-IsTraced : IsTraced busy received
busy-IsTraced e = Chain.first (3 ∷ 1 ∷ 2 ∷ []) refl refl refl

reassembly_push-Chain_example :
    let out = reassembly_push busy second 20 in
    IsTraced out.state (history out.status received second)
    × (out.status ≡ complete → Chain (history out.status received second) 0 out.state.packet)
reassembly_push-Chain_example = reassembly_push-Chain busy second 20 received busy-IsTraced
