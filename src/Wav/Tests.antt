-- ===== src/Wav/Tests.antt =====
-- A file on concrete samples.
use reticulum_tnc.Base.{ℕ, ◌≤◌, List, [], ◌∷◌, ok, err, ◌≡◌, refl, arith}
use reticulum_tnc.Wav.{Output, put, put_all, wav_write, wav_read}
use reticulum_tnc.Wav.Roundtrip.{wav_read-wav_write}

abbrev samples : List ℕ
samples = 0x1234 ∷ 0xffff ∷ []

abbrev blank : Output
blank = record { written = []; room = 100 }

abbrev saved : Output
saved = elim (wav_write blank 48000 samples) [ err e ↦ blank | ok out ↦ out ]

write_runs : wav_write blank 48000 samples ≡ ok saved
unfolding wav_write put_all put
write_runs = refl

wav_read-wav_write_example :
    (wav_read saved.written 2 ≡ ok (48000, samples))
    × (1 ≤ 48000)
    × (48000 ≤ 2147483647)
    × (2 ≤ 2147483647)
wav_read-wav_write_example =
    wav_read-wav_write 48000 samples 100 2 saved write_runs (ground arith) (omega arith)
