-- ===== src/Completion/Tests.antt =====
-- The window on concrete results: they arrive in the order 6, 5 and leave in the order 5, 6.
use reticulum_tnc.Base.{
  ℕ, List, [], ◌∷◌, replicate, ◌==◌, if◌then◌else◌, ◌≡◌, refl, true, ◌&&◌, some, arith,
}
use reticulum_tnc.Completion.{
  Completion, Coordinator, free_slot, completion_init, completion_submit, completion_pop,
}
use reticulum_tnc.Completion.Window.{IsValid, pending, completion_init-IsValid}
use reticulum_tnc.Completion.Order.{is_free, completion_submit_refines}
use reticulum_tnc.Completion.Runs.{Call, submit, pop, run, InOrder, run-InOrder}

abbrev blank : Coordinator
blank = record {
  slots = replicate 16 free_slot;
  capacity = 4;
  next_job_id = 5;
  generation = 1;
  rejected = 0;
}

abbrev result : ℕ → Completion
result job = record { job_id = job; generation = 1; success = true; payload = 9 ∷ [] }

abbrev calls : List Call
calls = submit (result 6) ∷ (pop ∷ (submit (result 5) ∷ (pop ∷ (pop ∷ []))))

init_runs : completion_init 4 5 1 ≡ some blank
unfolding completion_init
init_runs = refl

out_in_order : (run blank calls).1 ≡ result 5 ∷ (result 6 ∷ [])
unfolding run completion_submit completion_pop
out_in_order = refl

blank-IsValid : IsValid blank
blank-IsValid = (completion_init-IsValid 4 5 1 blank init_runs).0

run-InOrder_example : InOrder blank (run blank calls)
run-InOrder_example = run-InOrder blank calls blank-IsValid (omega arith)

completion_submit_refines_example :
    let (c', taken) = completion_submit blank 6 1 true (9 ∷ []) in
    (taken ≡ is_free (pending blank 6))
    × IsValid c'
    × (c'.next_job_id ≡ 5)
    × ((job : ℕ)
        → pending c' job ≡ (if taken && job == 6 then some (result 6) else pending blank job))
completion_submit_refines_example =
    completion_submit_refines blank (result 6) blank-IsValid refl refl (omega arith) (omega arith)
