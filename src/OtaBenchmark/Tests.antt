-- ===== src/OtaBenchmark/Tests.antt =====
-- Messages of the benchmark on concrete values.
use reticulum_tnc.Base.{ℕ, ◌<◌, List, [], ◌∷◌, length, drop, ◌≡◌, refl, none, some, arith}
use reticulum_tnc.OtaBenchmark.{Message, body, encode, decode, before_zero}
use reticulum_tnc.OtaBenchmark.Roundtrip.{Fits, decode-encode, decode-data}

abbrev hello : Message
hello = record {
  kind = 2;
  run_id = 0x01020304;
  block_id = 5;
  sequence = 1;
  packet_count = 3;
  payload_size = 58;
  seed = 77;
  guard_ms = 10;
  profile = 0x61 ∷ 0x62 ∷ [];
}

abbrev packet : List ℕ
packet = elim (encode hello 500) [ none ↦ [] | some bytes ↦ bytes ]

hello-Fits : Fits hello
unfolding before_zero
hello-Fits = record {
  words = omega arith;
  more_words = omega arith;
  string = refl;
  counted = λ e. omega arith;
}

encoded : encode hello 500 ≡ some packet
unfolding encode
encoded = refl

decode-encode_example : decode packet ≡ some hello
decode-encode_example = decode-encode hello 500 packet hello-Fits encoded

decode-data_example :
    (length packet ≡ 58) × (1 < 3) × (drop 56 packet ≡ body 77 1 56 (length (drop 56 packet)))
decode-data_example = decode-data hello packet decode-encode_example refl
