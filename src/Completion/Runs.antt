-- ===== src/Completion/Runs.antt =====
-- Sequences of calls on the window.
use reticulum_tnc.Base.{
  ℕ, zero, suc, ◌+◌, ◌%◌, ◌^◌, ◌≤◌, ◌<◌, List, [], ◌∷◌, map, length, get_or, ◌≡◌, refl, sym, ap,
  ap₂, ◌∙◌, ◌≢◌, inl, false, Option, none, some, arith,
}
use reticulum_tnc.Completion.{
  Completion, CompletionSlot, Coordinator, empty, free_slot, clear_slots, completion_reset,
  completion_submit, completion_pop,
}
use native.Mathlib.Nat.{mod-lt}
use reticulum_tnc.Completion.Window.{IsValid, pending}
use reticulum_tnc.Completion.Order.{
  rejected-IsValid, completion_submit_refines, completion_pop_refines,
}

pub data Call : Type 0 where
  submit : Completion → Call
  pop : Call

abbrev submitted : Coordinator → Completion → Coordinator
submitted c x = (completion_submit c x.job_id x.generation x.success x.payload).0

-- The window after the calls, and the results that came out, oldest first.
unfoldable pub run : Coordinator → List Call → Coordinator × List Completion
run c [] = (c, [])
run c (submit x ∷ calls) = run (submitted c x) calls
run c (pop ∷ calls) =
    let (c', out) = completion_pop c in
    let (last, rest) = run c' calls in (last, elim out [ none ↦ rest | some x ↦ x ∷ rest ])

abbrev pub count_from : ℕ → ℕ → List ℕ
count_from first zero = []
count_from first (suc n) = first ∷ count_from (first + 1) n

submitted-IsValid :
    (c : Coordinator) (x : Completion)
    → IsValid c
    → IsValid (submitted c x) × ((submitted c x).next_job_id ≡ c.next_job_id)
unfolding completion_submit
submitted-IsValid c x v = ground (arith, rejected-IsValid c v, completion_submit_refines c x v)

pending-job : (c : Coordinator) (job : ℕ) (x : Completion) → pending c job ≡ some x → x.job_id ≡ job
unfolding pending
pending-job c job x h = ground arith

-- What comes out is the results of consecutive jobs, from the next one on, and the window ends at the
-- job after the last of them.
abbrev pub InOrder : Coordinator → Coordinator × List Completion → Type 0
InOrder c (last, out) =
    (map (λ x. x.job_id) out ≡ count_from c.next_job_id (length out))
    × (last.next_job_id ≡ c.next_job_id + length out)
    × IsValid last

run_pop :
    (c : Coordinator) (calls : List Call) (o : Option Completion)
    → (completion_pop c).1 ≡ o
    → IsValid c
    → c.next_job_id + 1 < 2 ^ 64
    → ((completion_pop c).0.next_job_id ≤ c.next_job_id + 1
        → InOrder (completion_pop c).0 (run (completion_pop c).0 calls))
    → InOrder c (run c (pop ∷ calls))
unfolding run
run_pop c calls none e v small later =
    let (same, v', next, rest) = completion_pop_refines c v small in
    let at : (completion_pop c).0.next_job_id ≡ c.next_job_id = rw e at next in
    let (ids, last, valid) = later (omega arith) in rw (e, run) (rw at at ids, rw at at last, valid)
run_pop c calls (some x) e v small later =
    let (same, v', next, rest) = completion_pop_refines c v small in
    let at : (completion_pop c).0.next_job_id ≡ c.next_job_id + 1 = rw e at next in
    let (ids, last, valid) = later (omega arith) in
    let mine = pending-job c c.next_job_id x (sym same ∙ e) in
    rw (e, run) (ap₂ ◌∷◌ mine (rw at at ids), omega (arith, last, at), valid)

-- From a valid window, whatever is submitted and asked for, in whatever order: the results come out in
-- the order of the jobs, each job once and none left out, if the job numbers stay below 2^64.
pub run-InOrder :
    (c : Coordinator) (calls : List Call)
    → IsValid c
    → c.next_job_id + length calls < 2 ^ 64
    → InOrder c (run c calls)
unfolding run
run-InOrder c [] v small = (refl, omega arith, v)
run-InOrder c (submit x ∷ calls) v small =
    let (v', same) = submitted-IsValid c x v in
    let (ids, last, valid) = run-InOrder (submitted c x) calls v' (omega arith) in
    (rw same at ids, rw same at last, valid)
run-InOrder c (pop ∷ calls) v small =
    let pops = completion_pop_refines c v (omega arith) in
    run_pop c calls (completion_pop c).1 refl v (omega arith)
      (λ h. run-InOrder (completion_pop c).0 calls pops.1 (omega arith))

clear_slots-state :
    (n i : ℕ) (slots : List CompletionSlot)
    → i < n
    → (get_or (clear_slots n slots) i free_slot).state ≡ empty
unfolding clear_slots
clear_slots-state zero i slots h = absurd (omega arith)
clear_slots-state (suc n) i [] h = refl
clear_slots-state (suc n) zero (s ∷ slots) h = refl
clear_slots-state (suc n) (suc i) (s ∷ slots) h = clear_slots-state n i slots (omega arith)

length-clear_slots :
    (n : ℕ) (slots : List CompletionSlot) → length (clear_slots n slots) ≡ length slots
unfolding clear_slots
length-clear_slots zero slots = refl
length-clear_slots (suc n) [] = refl
length-clear_slots (suc n) (s ∷ slots) = ap suc (length-clear_slots n slots)

-- After a reset of a valid window no job has a result, the window starts at the given job, and a result
-- of another generation is refused and changes nothing.
pub completion_reset-forgets :
    (c : Coordinator) (first generation : ℕ)
    → IsValid c
    → let c' = completion_reset c first generation in
      IsValid c'
      × (c'.next_job_id ≡ first)
      × ((job : ℕ) → pending c' job ≡ none)
      × ((x : Completion)
          → x.generation ≢ generation
          → completion_submit c' x.job_id x.generation x.success x.payload ≡ (c', false))
unfolding completion_reset pending completion_submit
completion_reset-forgets c first generation v = (
  record {
    some_room = v.some_room;
    bounded = v.bounded;
    storage = length-clear_slots c.capacity c.slots ∙ v.storage;
    placed = λ i hi. inl (clear_slots-state c.capacity i c.slots hi);
  },
  refl,
  λ job.
      let gone = clear_slots-state c.capacity (job % c.capacity) c.slots (mod-lt job v.some_room) in
      rw gone refl,
  λ x h. ground arith,
)
