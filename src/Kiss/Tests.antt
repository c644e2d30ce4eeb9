-- ===== src/Kiss/Tests.antt =====
-- The KISS parser and encoder on concrete bytes.
use reticulum_tnc.Base.{ℕ, List, [], ◌∷◌, ◌++◌, ◌≡◌, refl, none, some}
use reticulum_tnc.Kiss.{fend, parser_init, parser_push_frame, parser_push, kiss_encode}
use reticulum_tnc.Kiss.Roundtrip.{feed, within, pending, feed-kiss_encode}

abbrev packet : List ℕ
packet = 1 ∷ 0xc0 ∷ 0xdb ∷ 2 ∷ []

abbrev encoded : List ℕ
encoded = 0xc0 ∷ 0 ∷ 1 ∷ 0xdb ∷ 0xdc ∷ 0xdb ∷ 0xdd ∷ 2 ∷ 0xc0 ∷ []

encode_runs : kiss_encode packet 9 ≡ some encoded
unfolding kiss_encode
encode_runs = refl

encode_no_room : kiss_encode packet 8 ≡ none
unfolding kiss_encode
encode_no_room = refl

-- A command for port 1: no packet, but a frame.
command_runs : (parser_push (within (0x11 ∷ 25 ∷ [])) fend).1 ≡ none
unfolding parser_push parser_push_frame
command_runs = refl

feed_runs : feed parser_init (encoded ++ encoded) ≡ (within [], packet ∷ packet ∷ [])
unfolding feed parser_push parser_push_frame parser_init
feed_runs = refl

-- A wrong escape rejects the frame up to the next FEND.
feed_bad_escape : (feed (within []) (0 ∷ 0xdb ∷ 7 ∷ 8 ∷ 0xc0 ∷ [])).1 ≡ []
unfolding feed parser_push parser_push_frame
feed_bad_escape = refl

feed-kiss_encode_example :
    feed (within (0 ∷ 5 ∷ [])) encoded ≡ (within [], pending (within (0 ∷ 5 ∷ [])) ++ (packet ∷ []))
feed-kiss_encode_example = feed-kiss_encode (within (0 ∷ 5 ∷ [])) packet 9 encoded encode_runs
