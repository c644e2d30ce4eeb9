-- ===== src/Completion.antt =====
-- The reorder window of decoding results, src/platform/completion.c, call by call. A payload is the
-- `payload_length` first bytes of its array.
pub mod Window
pub mod Order
pub mod Runs
mod Tests
use reticulum_tnc.Base.{
  ℕ, zero, suc, ◌+◌, ◌-◌, ◌*◌, ◌/◌, ◌%◌, ◌^◌, ◌≤◌, ◌<◌, min, max, bit_xor, u8, u16, u32, u64, ◌<<<◌,
  ◌>>>◌, test_bit, AreBytes, List, [], ◌∷◌, ◌++◌, map, append-nil, append_assoc, length, get_or,
  set, take, drop, replicate, length-append, length-set, get_or-set_self, get_or-set_ne,
  length-take, length-drop, length-replicate, take-append-drop, take-append, drop-append, take_all,
  get_or-append_right, take_add, drop_add, ltb, leb, ◌==◌, if◌then◌else◌, ltb→lt, lt→ltb, leb→le,
  ==_iff, Bool-cases, Option-cases, Result, ok, err, ◌>>=◌, ◌>>◌, fail_if, ◌≡◌, refl, sym, ap, ap₂,
  subst, ◌∙◌, ◌≢◌, ◌↔◌, ◌⊎◌, inl, inr, Bool, true, false, not, ◌&&◌, ◌||◌, Option, none, some,
  arith, dec_lt, dec_le, ℕ_discrete,
}
use reticulum_tnc.Frame.{max_payload}

abbrev pub max_capacity : ℕ
max_capacity = 16

pub data SlotState : Type 0 where
  empty writing ready : SlotState

pub record Completion : Type 0 where
  pub job_id : ℕ
  pub generation : ℕ
  pub success : Bool
  pub payload : List ℕ

pub record CompletionSlot : Type 0 where
  pub state : SlotState
  pub completion : Completion

pub record Coordinator : Type 0 where
  pub slots : List CompletionSlot
  pub capacity : ℕ
  pub next_job_id : ℕ
  pub generation : ℕ
  pub rejected : ℕ

-- The content of a slot that was never written is not read.
abbrev pub free_slot : CompletionSlot
free_slot = record {
  state = empty;
  completion = record { job_id = 0; generation = 0; success = false; payload = [] };
}

unfoldable pub completion_init : ℕ → ℕ → ℕ → Option Coordinator
completion_init capacity first_job_id generation =
    if capacity == 0 || ltb max_capacity capacity
    then none
    else some (record {
      slots = replicate max_capacity free_slot;
      capacity = capacity;
      next_job_id = first_job_id;
      generation = generation;
      rejected = 0;
    })

abbrev cleared : CompletionSlot → CompletionSlot
cleared slot = record slot { state = empty }

-- The first `count` slots become empty.
unfoldable pub clear_slots : ℕ → List CompletionSlot → List CompletionSlot
clear_slots zero slots = slots
clear_slots (suc count) [] = []
clear_slots (suc count) (slot ∷ slots) = cleared slot ∷ clear_slots count slots

unfoldable pub completion_reset : Coordinator → ℕ → ℕ → Coordinator
completion_reset c first_job_id generation = record c {
  slots = clear_slots c.capacity c.slots;
  next_job_id = first_job_id;
  generation = generation;
}

abbrev pub is_empty : SlotState → Bool
is_empty empty = true
is_empty writing = false
is_empty ready = false

abbrev pub is_ready : SlotState → Bool
is_ready empty = false
is_ready writing = false
is_ready ready = true

abbrev reject : Coordinator → Coordinator × Bool
reject c = (record c { rejected = u64 (c.rejected + 1) }, false)

-- A failure has no payload, and a success has one that fits a frame.
abbrev pub malformed : Bool → List ℕ → Bool
malformed success payload =
    (not success && not (length payload == 0))
    || (success && (length payload == 0 || ltb max_payload (length payload)))

unfoldable pub completion_submit : Coordinator → ℕ → ℕ → Bool → List ℕ → Coordinator × Bool
completion_submit c job_id generation success payload =
    let index = job_id % c.capacity in
    let slot = get_or c.slots index free_slot in
    let written : Completion = record {
      job_id = job_id;
      generation = generation;
      success = success;
      payload = payload;
    } in
    let filled : CompletionSlot = record { state = ready; completion = written } in
    if malformed success payload || not (generation == c.generation)
    then (c, false)
    else if ltb job_id c.next_job_id || leb c.capacity (job_id - c.next_job_id)
    then reject c
    else if not (is_empty slot.state)
    then reject c
    else (record c { slots = set c.slots index filled }, true)

unfoldable pub completion_pop : Coordinator → Coordinator × Option Completion
completion_pop c =
    let index = c.next_job_id % c.capacity in
    let slot = get_or c.slots index free_slot in
    if not (is_ready slot.state) || not (slot.completion.job_id == c.next_job_id)
    then (c, none)
    else (
      record c { slots = set c.slots index (cleared slot); next_job_id = u64 (c.next_job_id + 1) },
      some slot.completion,
    )
