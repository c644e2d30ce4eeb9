-- ===== src/Ptt/Level.antt =====
-- The state of the line and its level belong together.
use reticulum_tnc.Base.{if◌then◌else◌, ◌≡◌, Bool, true, false, arith}
use reticulum_tnc.Ptt.{Gpio, Ptt, same, ptt_init, ptt_set, ptt_is_enabled, ptt_deinit}

-- The transmitter is on.
abbrev pub transmits : Ptt → Bool
transmits ptt = same ptt.level ptt.active_high

-- After a successful set-up the transmitter is off, whatever the line was before and whichever level is
-- the active one. For a line that is there, and whose state tells whether the transmitter is on: the
-- state still tells after a set, a set does what it reports, and the end switches the transmitter off
-- if the last write succeeds.
pub ptt_tells :
    (gpio : Gpio) (active_high before : Bool) (ptt : Ptt) (enabled written : Bool)
    → ptt.has_line ≡ true
    → transmits ptt ≡ ptt_is_enabled ptt
    → ((ptt_init gpio active_high before).1 ≡ true
        → (transmits (ptt_init gpio active_high before).0 ≡ false)
          × (ptt_is_enabled (ptt_init gpio active_high before).0 ≡ false))
      × (let (ptt', done) = ptt_set ptt enabled written in
          (transmits ptt' ≡ ptt_is_enabled ptt')
          × (transmits ptt' ≡ (if done then enabled else transmits ptt)))
      × (written ≡ true → transmits (ptt_deinit ptt written) ≡ false)
unfolding ptt_init ptt_set ptt_is_enabled ptt_deinit
ptt_tells gpio active_high before ptt enabled written line tells =
    (ground arith, ground arith, ground arith)
