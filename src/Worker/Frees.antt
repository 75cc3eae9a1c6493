-- ===== src/Worker/Frees.antt =====
-- Who frees a job: over every sequence of the two threads' steps.
use professor_ai.Prelude.{
  ℕ, ◌≤◌, ◌≡◌, ◌≢◌, refl, sym, ◌∙◌, ◌⊎◌, Bool, true, false, List, [], ◌∷◌, ◌==◌, arith,
}
use professor_ai.Worker.Protocol.{
  Place, waiting, taken, generating, ended, stored, cleared, stopped, undefined, Sys, at,
  uses_freed, is_timely, all_timely, update, submit, accept_job, cancel_current, worker_step,
  work_at, drain, submit_job, close, Act, works, submits, drains, closes, cancels, stops, act, acts,
  start,
}
use professor_ai.Worker.Owned.{
  held, IsOwned, work_at-IsOwned, submit-IsOwned, drain-IsOwned, close-IsOwned, cancel-IsOwned,
  stop-IsOwned, start-IsOwned,
}

-- Where no job at the worker's place was freed, a step does not use one.
unfreed-safe :
    (p : Place) (s : Sys)
    → ((k : ℕ) → (at k p ≡ false) ⊎ ((s.jobs k).frees ≡ 0))
    → uses_freed p s ≡ false
unfolding uses_freed at
unfreed-safe waiting s v = refl
unfreed-safe (taken j) s v = let same : (j == j) ≡ true = ground arith in ground (arith, v j, same)
unfreed-safe (generating j) s v =
    let same : (j == j) ≡ true = ground arith in ground (arith, v j, same)
unfreed-safe (ended j) s v = let same : (j == j) ≡ true = ground arith in ground (arith, v j, same)
unfreed-safe (stored j) s v = refl
unfreed-safe (cleared j) s v =
    let same : (j == j) ≡ true = ground arith in ground (arith, v j, same)
unfreed-safe stopped s v = refl
unfreed-safe undefined s v = refl

owned-safe : (s : Sys) → ((k : ℕ) → IsOwned k s) → uses_freed s.place s ≡ false
owned-safe s v = unfreed-safe s.place s (λ k. ground (arith, (v k).alive))

pub worker_step-IsOwned :
    (k : ℕ) (ok : Bool) (s : Sys) → ((j : ℕ) → IsOwned j s) → IsOwned k (worker_step ok s)
unfolding worker_step
worker_step-IsOwned k ok s v = rw (owned-safe s v) (work_at-IsOwned k s.place ok s refl (v k))

pub act-IsOwned :
    (k : ℕ) (a : Act) (s : Sys)
    → is_timely a s ≡ true
    → ((j : ℕ) → IsOwned j s)
    → IsOwned k (act a s)
unfolding act
act-IsOwned k (works ok) s t v = worker_step-IsOwned k ok s v
act-IsOwned k (submits j) s t v = submit-IsOwned k j s (v k)
act-IsOwned k (drains j) s t v = drain-IsOwned k j s t (v k)
act-IsOwned k (closes j) s t v = close-IsOwned k j s (v k)
act-IsOwned k cancels s t v = cancel-IsOwned k s (v k)
act-IsOwned k stops s t v = stop-IsOwned k s (v k)

work_at-defined :
    (p : Place) (ok : Bool) (s : Sys)
    → s.place ≡ p
    → p ≢ undefined
    → (work_at p ok s).place ≢ undefined
unfolding work_at update
work_at-defined waiting ok s e d = ground (arith, e)
work_at-defined (taken j) ok s e d = λ h. cc
work_at-defined (generating j) ok s e d = λ h. cc
work_at-defined (ended j) ok s e d = λ h. cc
work_at-defined (stored j) ok s e d = λ h. cc
work_at-defined (cleared j) ok s e d = λ h. cc
work_at-defined stopped ok s e d = λ h. cc
work_at-defined undefined ok s e d = absurd (d refl)

-- Every job is owned, and the worker has used none that was freed.
pub record IsSafe (s : Sys) : Type 0 where
  pub owned : (k : ℕ) → IsOwned k s
  pub defined : s.place ≢ undefined

pub worker_step-defined : (ok : Bool) (s : Sys) → IsSafe s → (worker_step ok s).place ≢ undefined
unfolding worker_step
worker_step-defined ok s v = rw (owned-safe s v.owned) (work_at-defined s.place ok s refl v.defined)

pub submit-place : (j : ℕ) (s : Sys) → (submit_job j s).place ≡ s.place
unfolding submit_job submit accept_job update
submit-place j s = ground arith

pub drain-place : (j : ℕ) (s : Sys) → (drain j s).place ≡ s.place
unfolding drain update
drain-place j s = ground arith

pub close-place : (j : ℕ) (s : Sys) → (close j s).place ≡ s.place
unfolding close update
close-place j s = ground arith

cancel-place : (s : Sys) → (cancel_current s).place ≡ s.place
unfolding cancel_current update
cancel-place s = ground arith

act-defined : (a : Act) (s : Sys) → IsSafe s → (act a s).place ≢ undefined
unfolding act
act-defined (works ok) s v = worker_step-defined ok s v
act-defined (submits j) s v = λ e. v.defined (sym (submit-place j s) ∙ e)
act-defined (drains j) s v = λ e. v.defined (sym (drain-place j s) ∙ e)
act-defined (closes j) s v = λ e. v.defined (sym (close-place j s) ∙ e)
act-defined cancels s v = λ e. v.defined (sym (cancel-place s) ∙ e)
act-defined stops s v = v.defined

acts-IsSafe : (as' : List Act) (s : Sys) → all_timely as' s ≡ true → IsSafe s → IsSafe (acts as' s)
unfolding acts all_timely
acts-IsSafe [] s t v = v
acts-IsSafe (a ∷ as') s t v =
    let (now, later) : (is_timely a s ≡ true) × (all_timely as' (act a s) ≡ true) = ground arith in
    acts-IsSafe as' (act a s) later
      (record { owned = λ k. act-IsOwned k a s now v.owned; defined = act-defined a s v })

pub start-IsSafe : (streams : ℕ → Bool) → IsSafe (start streams)
unfolding start
start-IsSafe streams = record { owned = λ k. start-IsOwned k streams; defined = λ e. cc }

-- However the steps of the two threads follow on each other from the daemon's start, if the event loop
-- never sends the final reply to a job at which the worker still stands: no job is freed twice, none is
-- freed while its connection leads to it or the worker has it, and the worker never uses a freed job.
pub acts_once :
    (streams : ℕ → Bool) (as' : List Act) (k : ℕ)
    → all_timely as' (start streams) ≡ true
    → let s = acts as' (start streams) in
      ((s.jobs k).frees ≤ 1)
      × ((s.jobs k).attached ≡ true → (s.jobs k).frees ≡ 0)
      × (held k s ≡ true → (s.jobs k).frees ≡ 0)
      × (s.place ≢ undefined)
acts_once streams as' k timely =
    let v = acts-IsSafe as' (start streams) timely (start-IsSafe streams) in
    (
      (v.owned k).once,
      λ up. ground (arith, (v.owned k).by_loop),
      λ up. ground (arith, (v.owned k).alive),
      v.defined,
    )
