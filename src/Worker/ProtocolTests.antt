-- ===== src/Worker/ProtocolTests.antt =====
-- Runs of the two threads, and the theorems on jobs at the states that they reach.
use professor_ai.Prelude.{ℕ, ◌≤◌, ◌≡◌, ◌≢◌, refl, Bool, true, false, List, [], ◌∷◌}
use professor_ai.Worker.Protocol.{
  Sys, undefined, at, uses_freed, is_timely, all_timely, Act, works, submits, drains, closes, acts,
  act, start, submit_job, worker_step, close, drain, is_busy, is_final, update, put_job, new_job,
  submit, accept_job, work_at, is_busy_state,
}
use professor_ai.Worker.Owned.{is_current, held}
use professor_ai.Worker.Frees.{acts_once}
use professor_ai.Worker.Abandoned.{close_leaks, submit_drops, drain_frees_early}

abbrev replies : ℕ → Bool
replies j = false

-- Job 0 up to the store of its final state, up to `current_job = NULL`, and to the end.
abbrev to_stored : List Act
to_stored = submits 0 ∷ works true ∷ works true ∷ works true ∷ works true ∷ []

abbrev to_end : List Act
to_end =
    submits 0 ∷ works true ∷ works true ∷ works true ∷ works true ∷ works true ∷ works true ∷ []

abbrev at_stored : Sys
at_stored = acts to_stored (start replies)

abbrev at_end : Sys
at_end = acts to_end (start replies)

abbrev later : List Act
later = drains 1 ∷ works true ∷ works true ∷ closes 1 ∷ drains 0 ∷ []

abbrev orderly : List Act
orderly =
    submits 0
    ∷ drains 0
    ∷ works true
    ∷ works true
    ∷ works true
    ∷ works true
    ∷ works true
    ∷ works true
    ∷ drains 0
    ∷ closes 0
    ∷ []

acts_once_example :
    let s = acts orderly (start replies) in
    ((s.jobs 0).frees ≤ 1)
    × ((s.jobs 0).attached ≡ true → (s.jobs 0).frees ≡ 0)
    × (held 0 s ≡ true → (s.jobs 0).frees ≡ 0)
    × (s.place ≢ undefined)
unfolding all_timely is_timely acts act start submit_job submit accept_job is_busy update put_job
    new_job worker_step uses_freed work_at is_busy_state is_final at drain close
acts_once_example = acts_once replies orderly 0 refl

close_leaks_example : ((acts later (close 0 at_end)).jobs 0).frees ≡ 0
unfolding acts act start submit_job submit accept_job is_busy update put_job new_job worker_step
    work_at is_busy_state at is_current uses_freed
close_leaks_example = close_leaks 0 at_end later refl refl refl refl

submit_drops_example :
    (((submit_job 1 at_stored).jobs 1).attached ≡ true)
    × (((acts later (worker_step true (submit_job 1 at_stored))).jobs 1).frees ≡ 0)
unfolding acts act start submit_job submit accept_job is_busy update put_job new_job worker_step
    work_at is_busy_state uses_freed
submit_drops_example = submit_drops 0 1 at_stored true later refl refl refl refl refl refl

drain_frees_early_example :
    let done_at =
      acts (submits 0 ∷ works true ∷ works true ∷ works true ∷ works true ∷ []) (start replies) in
    (acts (drains 0 ∷ works true ∷ works true ∷ []) done_at).place ≡ undefined
unfolding start new_job
drain_frees_early_example =
    drain_frees_early 0 (start replies) true true true true true true refl refl refl refl refl
