-- ===== src/Fragmentation/Stream.antt =====
-- The two ends of a link: the fragments that a transmitter sends for one packet, in the order of the
-- loop of `rtnc_runtime_transmit_next`, and the packets that a receiver completes from a stream.
use reticulum_tnc.Base.{ℕ, zero, suc, ◌+◌, List, [], ◌∷◌, ◌++◌, length, take, Result, ok, ◌>>=◌}
use reticulum_tnc.Fragmentation.{
  FragmentStatus, complete, Reassembly, Pushed, fragment_count, fragment_build, reassembly_push,
}

-- Fragments `index`, `index + 1`, … of a packet, `n` of them, into a buffer of `capacity` bytes.
unfoldable pub fragments_from : List ℕ → ℕ → ℕ → ℕ → ℕ → Result FragmentStatus (List (List ℕ))
fragments_from packet class capacity index zero = ok []
fragments_from packet class capacity index (suc n) =
    let rest = fragments_from packet class capacity (index + 1) n in
    do fragment ← fragment_build packet class index capacity; more ← rest; ok (fragment ∷ more)

unfoldable pub fragments : List ℕ → ℕ → ℕ → Result FragmentStatus (List (List ℕ))
unfolding fragments_from
fragments packet class capacity =
    fragments_from packet class capacity 0 (fragment_count (length packet) class)

-- The packet that a push completes, if it does.
unfoldable pub delivered : Pushed → List (List ℕ)
delivered out = elim out.status [ complete ↦ take out.packet_length out.state.packet ∷ [] | _ ↦ [] ]

-- The packets that a stream of stamped frames completes, and the state after it.
unfoldable pub receive : Reassembly → List (List ℕ × ℕ) → List (List ℕ) × Reassembly
unfolding delivered
receive r [] = ([], r)
receive r ((frame, now_ms) ∷ rest) =
    let out = reassembly_push r frame now_ms in
    let (packets, last) = receive out.state rest in (delivered out ++ packets, last)

-- Frames stamped with the times at which they arrive.
abbrev pub stamp : (ℕ → ℕ) → ℕ → List (List ℕ) → List (List ℕ × ℕ)
stamp clock i [] = []
stamp clock i (f ∷ fs) = (f, clock i) ∷ stamp clock (i + 1) fs
