-- ===== src/Frame/Tests.antt =====
-- Frames on concrete bytes.
use reticulum_tnc.Base.{ℕ, List, [], ◌∷◌, set, ◌==◌, if◌then◌else◌, ok, err, ◌≡◌, refl, arith}
use reticulum_tnc.Frame.{
  crc16_ccitt_false, frame_build, frame_parse, crc_failure, invalid_length, buffer_too_small,
}
use reticulum_tnc.Frame.Roundtrip.{frame_parse-frame_build, frame_build-frame_parse}
use reticulum_tnc.Frame.Corruption.{frame_parse-changed_byte}

-- The digits 1 to 9, the check string of the CRC catalogues.
abbrev digits : List ℕ
digits = 0x31 ∷ 0x32 ∷ 0x33 ∷ 0x34 ∷ 0x35 ∷ 0x36 ∷ 0x37 ∷ 0x38 ∷ 0x39 ∷ []

crc16_check_value : crc16_ccitt_false digits ≡ 0x29b1
unfolding crc16_ccitt_false
crc16_check_value = refl

abbrev payload : List ℕ
payload = 1 ∷ 2 ∷ 3 ∷ []

-- Length byte 2, the payload, and the checksum.
abbrev encoded : List ℕ
encoded = 2 ∷ 1 ∷ 2 ∷ 3 ∷ 8 ∷ 153 ∷ []

frame_build_runs : frame_build payload 131 ≡ ok encoded
unfolding frame_build crc16_ccitt_false
frame_build_runs = refl

frame_parse_runs : frame_parse encoded 128 ≡ ok payload
unfolding frame_parse crc16_ccitt_false
frame_parse_runs = refl

frame_build_empty : frame_build [] 131 ≡ err invalid_length
unfolding frame_build
frame_build_empty = refl

frame_build_no_room : frame_build payload 5 ≡ err buffer_too_small
unfolding frame_build
frame_build_no_room = refl

frame_parse-frame_build_example : frame_parse encoded 128 ≡ ok payload
frame_parse-frame_build_example =
    frame_parse-frame_build payload 131 encoded 128 frame_build_runs (omega arith)

frame_build-frame_parse_example : frame_build payload 6 ≡ ok encoded
frame_build-frame_parse_example =
    frame_build-frame_parse encoded 128 payload (omega arith) frame_parse_runs

frame_parse-changed_byte_example :
    frame_parse (set encoded 2 9) 128 ≡ err (if 2 == 0 then invalid_length else crc_failure)
frame_parse-changed_byte_example =
    frame_parse-changed_byte payload 131 encoded 2 9 128 (omega arith) frame_build_runs
      (omega arith) (omega arith) (omega arith) (omega arith)
