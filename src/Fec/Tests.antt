-- ===== src/Fec/Tests.antt =====
-- The encoder on concrete bytes, with a table of masks that are all zero but the first.
use reticulum_tnc.Base.{[], ◌∷◌, replicate, ◌≡◌, refl}
use reticulum_tnc.Fec.{LdpcCode, parity8}
use reticulum_tnc.Fec.Size.{IsTc128}

abbrev code : LdpcCode
code = record {
  variable_count = 128;
  information_count = 64;
  check_count = 0;
  edge_count = 0;
  check_offsets = 0 ∷ [];
  edge_variables = [];
  parity_masks = 0xff ∷ replicate 511 0;
}

code-IsTc128 : IsTc128 code
code-IsTc128 = record { variables = refl; information = refl }

parity8_odd : parity8 0x13 ≡ 1
unfolding parity8
parity8_odd = refl
