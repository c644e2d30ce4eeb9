-- ===== src/Ptt.antt =====
-- The line that switches the transmitter, src/platform/ptt.c. The calls of libgpiod are parameters: each
-- has a result, and a request or a write that succeeds sets the level of the line.
pub mod Level
mod Tests
use reticulum_tnc.Base.{
  ℕ, zero, suc, ◌+◌, ◌-◌, ◌*◌, ◌/◌, ◌%◌, ◌^◌, ◌≤◌, ◌<◌, min, max, bit_xor, u8, u16, u32, u64, ◌<<<◌,
  ◌>>>◌, test_bit, AreBytes, List, [], ◌∷◌, ◌++◌, map, append-nil, append_assoc, length, get_or,
  set, take, drop, replicate, length-append, length-set, get_or-set_self, get_or-set_ne,
  length-take, length-drop, length-replicate, get_or-replicate, take-append-drop, take-append,
  drop-append, take_all, get_or-append_right, take_add, drop_add, ltb, leb, ◌==◌, if◌then◌else◌,
  ltb→lt, lt→ltb, leb→le, ==_iff, Bool-cases, Option-cases, Result, ok, err, ◌>>=◌, ◌>>◌, fail_if,
  ◌≡◌, refl, sym, ap, ap₂, subst, ◌∙◌, ◌≢◌, ◌↔◌, ◌⊎◌, inl, inr, Bool, true, false, not, ◌&&◌, ◌||◌,
  Option, none, some, arith, dec_lt, dec_le, ℕ_discrete,
}

-- What libgpiod answers when a line is set up.
pub record Gpio : Type 0 where
  pub chip_opens : Bool
  pub line_found : Bool
  pub request_granted : Bool

-- `rtnc_ptt_t`, with the level of the line. `has_line` says that `line`, and so `chip`, is not NULL.
pub record Ptt : Type 0 where
  pub has_line : Bool
  pub active_high : Bool
  pub state : Bool
  pub level : Bool

abbrev pub same : Bool → Bool → Bool
same true b = b
same false b = not b

-- `level` is what the line had before.
unfoldable pub ptt_init : Gpio → Bool → Bool → Ptt × Bool
ptt_init gpio active_high level =
    let closed : Ptt = record {
      has_line = false;
      active_high = active_high;
      state = false;
      level = level;
    } in
    if not gpio.chip_opens
    then (closed, false)
    else if not gpio.line_found || not gpio.request_granted
    then (closed, false)
    else (record closed { has_line = true; level = not active_high }, true)

-- `written` is the success of gpiod_line_set_value.
unfoldable pub ptt_set : Ptt → Bool → Bool → Ptt × Bool
ptt_set ptt enabled written =
    if not ptt.has_line
    then (ptt, false)
    else if not written
    then (ptt, false)
    else (record ptt { state = enabled; level = same enabled ptt.active_high }, true)

unfoldable pub ptt_is_enabled : Ptt → Bool
ptt_is_enabled ptt = ptt.state

unfoldable pub ptt_deinit : Ptt → Bool → Ptt
unfolding ptt_set
ptt_deinit ptt written =
    let released = if ptt.has_line then (ptt_set ptt false written).0 else ptt in
    record released { has_line = false; state = false }
