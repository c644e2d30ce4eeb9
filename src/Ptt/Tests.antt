-- ===== src/Ptt/Tests.antt =====
-- A line whose active level is low.
use reticulum_tnc.Base.{if◌then◌else◌, ◌≡◌, refl, true, false}
use reticulum_tnc.Ptt.{Gpio, Ptt, ptt_init, ptt_set, ptt_is_enabled, ptt_deinit}
use reticulum_tnc.Ptt.Level.{transmits, ptt_tells}

abbrev gpio : Gpio
gpio = record { chip_opens = true; line_found = true; request_granted = true }

abbrev line : Ptt
line = record { has_line = true; active_high = false; state = true; level = false }

on_runs : ptt_set line true true ≡ (line, true)
unfolding ptt_set
on_runs = refl

ptt_tells_example :
    ((ptt_init gpio false false).1 ≡ true
      → (transmits (ptt_init gpio false false).0 ≡ false)
        × (ptt_is_enabled (ptt_init gpio false false).0 ≡ false))
    × (let (ptt', done) = ptt_set line false true in
        (transmits ptt' ≡ ptt_is_enabled ptt')
        × (transmits ptt' ≡ (if done then false else transmits line)))
    × (true ≡ true → transmits (ptt_deinit line true) ≡ false)
unfolding ptt_is_enabled
ptt_tells_example = ptt_tells gpio false false line false true refl refl
