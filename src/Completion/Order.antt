-- ===== src/Completion/Order.antt =====
-- Submissions and deliveries on the window, and the order in which results come out.
use reticulum_tnc.Base.{
  ℕ, ◌+◌, ◌%◌, ◌^◌, ◌≤◌, ◌<◌, u64, length, get_or, set, length-set, get_or-set_self, get_or-set_ne,
  ◌==◌, if◌then◌else◌, ◌≡◌, refl, sym, ap, ◌∙◌, ◌≢◌, inl, inr, Bool, true, false, ◌&&◌, Option,
  none, some, arith, ℕ_discrete,
}
use native.Mathlib.Nat.{mod-lt}
use reticulum_tnc.Completion.{
  empty, ready, Completion, CompletionSlot, Coordinator, free_slot, malformed, completion_submit,
  completion_pop,
}
use reticulum_tnc.Completion.Window.{slot_of, pending, IsValid, pending_cases}

abbrev pub is_free : Option Completion → Bool
is_free none = true
is_free (some x) = false

-- The window after a write into the slot of a job, and after this slot became empty.
abbrev stored : Coordinator → Completion → Coordinator
stored c x = record c {
  slots = set c.slots (x.job_id % c.capacity) (record { state = ready; completion = x });
}

stored-pending :
    (c : Coordinator) (x : Completion) (job : ℕ)
    → IsValid c
    → (slot_of c x.job_id).state ≡ empty
    → pending (stored c x) job ≡ (if job == x.job_id then some x else pending c job)
unfolding pending
stored-pending c x job v free =
    let slot : CompletionSlot = record { state = ready; completion = x } in
    let place = mod-lt x.job_id v.some_room in
    elim (ℕ_discrete (x.job_id % c.capacity) (job % c.capacity)) [
      | yes e ↦
          let here =
            get_or-set_self c.slots (job % c.capacity) slot free_slot
              (omega (arith, v.storage, v.bounded)) in
          rw e (rw here (let free' = rw e at free in ground arith))
      | no ne ↦
          let there =
            get_or-set_ne c.slots (x.job_id % c.capacity) (job % c.capacity) slot free_slot ne in
          rw there (ground arith)
    ]

stored-IsValid :
    (c : Coordinator) (x : Completion)
    → IsValid c
    → c.next_job_id ≤ x.job_id
    → x.job_id < c.next_job_id + c.capacity
    → IsValid (stored c x)
stored-IsValid c x v low high =
    let slot : CompletionSlot = record { state = ready; completion = x } in
    let place = mod-lt x.job_id v.some_room in
    record {
      some_room = v.some_room;
      bounded = v.bounded;
      storage = length-set c.slots (x.job_id % c.capacity) slot ∙ v.storage;
      placed = λ i hi. elim (ℕ_discrete (x.job_id % c.capacity) i) [
        | yes e ↦
            let here =
              get_or-set_self c.slots i slot free_slot (omega (arith, v.storage, v.bounded)) in
            rw e (rw here (inr (refl, e, low, high)))
        | no ne ↦
            rw (get_or-set_ne c.slots (x.job_id % c.capacity) i slot free_slot ne) (v.placed i hi)
      ];
    }

pub rejected-IsValid :
    (c : Coordinator) → IsValid c → IsValid (record c { rejected = u64 (c.rejected + 1) })
rejected-IsValid c v = record {
  some_room = v.some_room;
  bounded = v.bounded;
  storage = v.storage;
  placed = v.placed;
}

-- In a valid window, a well-formed result of the current generation and of a job in the window is taken
-- exactly if the job has no result yet; it then is the result of this job, and the other jobs keep
-- theirs.
pub completion_submit_refines :
    (c : Coordinator) (x : Completion)
    → IsValid c
    → malformed x.success x.payload ≡ false
    → x.generation ≡ c.generation
    → c.next_job_id ≤ x.job_id
    → x.job_id < c.next_job_id + c.capacity
    → let (c', taken) = completion_submit c x.job_id x.generation x.success x.payload in
      (taken ≡ is_free (pending c x.job_id))
      × IsValid c'
      × (c'.next_job_id ≡ c.next_job_id)
      × ((job : ℕ) → pending c' job ≡ (if taken && job == x.job_id then some x else pending c job))
unfolding completion_submit pending
completion_submit_refines c x v good now low high = elim (pending_cases c x.job_id v low high) [
  | inl (e, none_yet) ↦
      let run : completion_submit c x.job_id x.generation x.success x.payload ≡ (stored c x, true) =
        ground arith in
      rw (run, none_yet)
        (refl, stored-IsValid c x v low high, refl, λ job. stored-pending c x job v e)
  | inr (e, same, some_result) ↦
      let run : completion_submit c x.job_id x.generation x.success x.payload
          ≡ (record c { rejected = u64 (c.rejected + 1) }, false) =
        ground arith in
      rw (run, some_result) (refl, rejected-IsValid c v, refl, λ job. refl)
]

-- The window after the next job's slot became empty.
abbrev moved : Coordinator → CompletionSlot → Coordinator
moved c slot = record c {
  slots = set c.slots (c.next_job_id % c.capacity) slot;
  next_job_id = c.next_job_id + 1;
}

module _ (c : Coordinator) (slot : CompletionSlot) (v : IsValid c) (gone : slot.state ≡ empty)
    (mine : (slot_of c c.next_job_id).completion.job_id ≡ c.next_job_id) where
  moved-pending :
      (job : ℕ)
      → pending (moved c slot) job ≡ (if job == c.next_job_id then none else pending c job)
  unfolding pending
  moved-pending job = elim (ℕ_discrete (c.next_job_id % c.capacity) (job % c.capacity)) [
    | yes e ↦
        let room : job % c.capacity < length c.slots =
          omega (arith, mod-lt job v.some_room, v.storage, v.bounded) in
        let here = get_or-set_self c.slots (job % c.capacity) slot free_slot room in
        let mine' = rw e at mine in rw e (rw here (ground arith))
    | no ne ↦
        rw (get_or-set_ne c.slots (c.next_job_id % c.capacity) (job % c.capacity) slot free_slot ne)
          (ground arith)
  ]

  -- The next job stands at one place only.
  not_next :
      (job i : ℕ) → job % c.capacity ≡ i → c.next_job_id % c.capacity ≢ i → job ≢ c.next_job_id
  not_next job i e ne same = ne (ap (λ j. j % c.capacity) (sym same) ∙ e)

  moved-IsValid : IsValid (moved c slot)
  moved-IsValid =
      let n = c.next_job_id % c.capacity in
      record {
        some_room = v.some_room;
        bounded = v.bounded;
        storage = length-set c.slots n slot ∙ v.storage;
        placed = λ i hi. elim (ℕ_discrete n i) [
          | yes e ↦
              let here =
                get_or-set_self c.slots i slot free_slot (omega (arith, v.storage, v.bounded)) in
              rw e (rw here (inl gone))
          | no ne ↦ rw (get_or-set_ne c.slots n i slot free_slot ne) (
              ground
                (arith, v.placed i hi, not_next (get_or c.slots i free_slot).completion.job_id i))
        ];
      }

-- From a valid window, with the job number below 2^64 - 1, a delivery is the result of the next job, if
-- there is one; the window then moves on by one job, and
-- the results of the other jobs stay.
pub completion_pop_refines :
    (c : Coordinator)
    → IsValid c
    → c.next_job_id + 1 < 2 ^ 64
    → let (c', out) = completion_pop c in
      (out ≡ pending c c.next_job_id)
      × IsValid c'
      × (c'.next_job_id ≡ (if is_free out then c.next_job_id else c.next_job_id + 1))
      × ((job : ℕ) → pending c' job ≡ (if job == c.next_job_id then none else pending c job))
unfolding completion_pop pending
completion_pop_refines c v small =
    elim (pending_cases c c.next_job_id v (omega arith) (omega (arith, v.some_room))) [
      | inl (e, none_yet) ↦
          let run : completion_pop c ≡ (c, none) = ground arith in
          rw (run, none_yet) (refl, v, refl, λ job. ground arith)
      | inr (e, same, some_result) ↦
          let old = slot_of c c.next_job_id in
          let slot : CompletionSlot = record old { state = empty } in
          let run : completion_pop c ≡ (moved c slot, some (slot_of c c.next_job_id).completion) =
            ground arith in
          rw (run, some_result)
            (refl, moved-IsValid c slot v refl same, refl, moved-pending c slot v refl same)
    ]
