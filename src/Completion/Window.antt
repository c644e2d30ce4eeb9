-- ===== src/Completion/Window.antt =====
-- The reorder window as a map from the numbers of the jobs to their results.
use reticulum_tnc.Base.{
  ℕ, ◌+◌, ◌-◌, ◌%◌, ◌≤◌, ◌<◌, length, get_or, length-replicate, get_or-replicate, ◌==◌,
  if◌then◌else◌, ◌≡◌, refl, sym, ◌⊎◌, inl, inr, ◌&&◌, Option, none, some, arith, dec_le,
}
use native.Mathlib.Nat.{mod-lt, mod-add-mod}
use reticulum_tnc.Ring.Window.{wrap_cases}
use reticulum_tnc.Completion.{
  empty, ready, Completion, CompletionSlot, Coordinator, free_slot, completion_init, is_ready,
}

abbrev pub slot_of : Coordinator → ℕ → CompletionSlot
slot_of c job = get_or c.slots (job % c.capacity) free_slot

-- The result of a job that waits in the window.
unfoldable pub pending : Coordinator → ℕ → Option Completion
pending c job =
    let slot = slot_of c job in
    if is_ready slot.state && slot.completion.job_id == job then some slot.completion else none

pub record IsValid (c : Coordinator) : Type 0 where
  pub some_room : 1 ≤ c.capacity
  pub bounded : c.capacity ≤ 16
  pub storage : length c.slots ≡ 16
  -- No call is under way, and a result stands at its place, within the window.
  pub placed :
      (i : ℕ)
      → i < c.capacity
      → let slot = get_or c.slots i free_slot in
        (slot.state ≡ empty)
        ⊎ ((slot.state ≡ ready)
            × (slot.completion.job_id % c.capacity ≡ i)
            × (c.next_job_id ≤ slot.completion.job_id)
            × (slot.completion.job_id < c.next_job_id + c.capacity))

place_shift : (a d c : ℕ) → d < c → (a + d) % c ≡ a % c → d ≡ 0
place_shift a d c h e =
    let r = mod-lt a {m = c} (omega arith) in
    omega (arith, wrap_cases c (a % c + d) (omega arith), mod-add-mod a c d, e, r)

-- Two jobs of one window with the same place are the same.
same_place : (n c a b : ℕ) → n ≤ a → a < n + c → n ≤ b → b < n + c → a % c ≡ b % c → a ≡ b
same_place n c a b la ha lb hb e = elim (dec_le a b) [
  | yes h ↦
      let m : a + (b - a) ≡ b = omega arith in
      omega (arith, place_shift a (b - a) c (omega arith) (rw m (sym e)))
  | no h ↦
      let m : b + (a - b) ≡ a = omega arith in
      omega (arith, place_shift b (a - b) c (omega arith) (rw m e))
]

-- What a slot holds, by the invariant.
pub slot_cases :
    (c : Coordinator) (job : ℕ)
    → IsValid c
    → (slot_of c job).state ≡ empty
      ⊎ (((slot_of c job).state ≡ ready)
          × ((slot_of c job).completion.job_id % c.capacity ≡ job % c.capacity)
          × (c.next_job_id ≤ (slot_of c job).completion.job_id)
          × ((slot_of c job).completion.job_id < c.next_job_id + c.capacity))
slot_cases c job v = v.placed (job % c.capacity) (mod-lt job v.some_room)

-- In the window, the slot of a job is empty or holds this job.
pub pending_cases :
    (c : Coordinator) (job : ℕ)
    → IsValid c
    → c.next_job_id ≤ job
    → job < c.next_job_id + c.capacity
    → (((slot_of c job).state ≡ empty) × (pending c job ≡ none))
      ⊎ (((slot_of c job).state ≡ ready)
          × ((slot_of c job).completion.job_id ≡ job)
          × (pending c job ≡ some (slot_of c job).completion))
unfolding pending
pending_cases c job v low high = elim (slot_cases c job v) [
  | inl e ↦ inl (e, ground arith)
  | inr (e, place, low', high') ↦
      let same =
        same_place c.next_job_id c.capacity (slot_of c job).completion.job_id job low' high' low
          high place in
      inr (e, same, ground arith)
]

-- An accepted configuration starts valid, with no results, at the given job.
pub completion_init-IsValid :
    (capacity first generation : ℕ) (c : Coordinator)
    → completion_init capacity first generation ≡ some c
    → IsValid c
      × (c.next_job_id ≡ first)
      × (c.capacity ≡ capacity)
      × ((job : ℕ) → pending c job ≡ none)
unfolding completion_init pending
completion_init-IsValid capacity first generation c h =
    let blank : (i : ℕ) → get_or c.slots i free_slot ≡ free_slot =
      λ i. ground (arith, get_or-replicate 16 i free_slot) in
    (
      record {
        some_room = ground arith;
        bounded = ground arith;
        storage = ground (arith, length-replicate 16 free_slot);
        placed = λ i hi. inl (rw (blank i) refl);
      },
      ground arith,
      ground arith,
      λ job. rw (blank (job % c.capacity)) refl,
    )
