-- ===== src/Worker/Abandoned.antt =====
-- Two orders of the threads' steps after which nobody frees a job any more, and one in which the event
-- loop frees it while the worker still uses it.
use professor_ai.Prelude.{
  ℕ, ◌≡◌, refl, ◌⊎◌, inl, inr, Bool, true, false, none, List, [], ◌∷◌, ◌==◌, arith, Bool-cases,
  Option-cases,
}
use professor_ai.Worker.Protocol.{
  idle, is_busy_state, Place, waiting, taken, generating, ended, stored, cleared, stopped,
  undefined, Sys, at, uses_freed, put_job, update, is_busy, submit, accept_job, cancel_current,
  worker_step, work_at, is_final, drain, submit_job, close, Act, works, submits, drains, closes,
  cancels, stops, act, acts,
}
use professor_ai.Worker.Owned.{is_current, held}

-- The worker has nothing to do with the job, the event loop does not free it, and nobody has.
pub record IsAbandoned (k : ℕ) (s : Sys) : Type 0 where
  pub was_handed : (s.jobs k).handed ≡ true
  pub not_held : held k s ≡ false
  pub not_freed : (s.jobs k).frees ≡ 0
  pub unfinished :
      ((s.jobs k).attached ≡ false) ⊎ ((s.jobs k).state ≡ idle) × ((s.jobs k).ring_done ≡ false)

drain-IsAbandoned : (k j : ℕ) (s : Sys) → IsAbandoned k s → IsAbandoned k (drain j s)
unfolding drain update put_job is_current is_final is_busy_state
drain-IsAbandoned k j s v = ground arith

close-IsAbandoned : (k j : ℕ) (s : Sys) → IsAbandoned k s → IsAbandoned k (close j s)
unfolding close update put_job is_current
close-IsAbandoned k j s v = ground arith

cancel-IsAbandoned : (k : ℕ) (s : Sys) → IsAbandoned k s → IsAbandoned k (cancel_current s)
unfolding cancel_current update put_job is_current
cancel-IsAbandoned k s v = ground arith

submit-IsAbandoned : (k j : ℕ) (s : Sys) → IsAbandoned k s → IsAbandoned k (submit_job j s)
unfolding submit_job submit accept_job update put_job is_current
submit-IsAbandoned k j s v = elim (Bool-cases (s.jobs j).handed) [
  | inl old ↦ rw old v
  | inr new ↦ elim (Bool-cases (is_busy s)) [
    | inl h ↦ rw (new, h) (ground arith)
    | inr h ↦ rw (new, h) (ground arith)
  ]
]

work_at-IsAbandoned :
    (k : ℕ) (p : Place) (ok : Bool) (s : Sys)
    → s.place ≡ p
    → IsAbandoned k s
    → IsAbandoned k (work_at p ok s)
unfolding work_at update put_job at is_current
work_at-IsAbandoned k waiting ok s e v = elim (Bool-cases s.running) [
  | inl go ↦ elim (Option-cases s.current) [
    | inl c ↦ rw (go, c) v
    | inr (j, c) ↦ rw (go, c) (ground arith)
  ]
  | inr over ↦ rw over (ground arith)
]
work_at-IsAbandoned k (taken j) ok s e v = ground arith
work_at-IsAbandoned k (generating j) ok s e v = ground arith
work_at-IsAbandoned k (ended j) ok s e v = ground arith
work_at-IsAbandoned k (stored j) ok s e v = ground arith
work_at-IsAbandoned k (cleared j) ok s e v = ground arith
work_at-IsAbandoned k stopped ok s e v = v
work_at-IsAbandoned k undefined ok s e v = v

undefined-IsAbandoned :
    (k : ℕ) (s : Sys) → IsAbandoned k s → IsAbandoned k (record s { place = undefined })
unfolding at is_current
undefined-IsAbandoned k s v = ground arith

worker_step-IsAbandoned :
    (k : ℕ) (ok : Bool) (s : Sys) → IsAbandoned k s → IsAbandoned k (worker_step ok s)
unfolding worker_step
worker_step-IsAbandoned k ok s v = elim (Bool-cases (uses_freed s.place s)) [
  | inl h ↦ rw h (undefined-IsAbandoned k s v)
  | inr h ↦ rw h (work_at-IsAbandoned k s.place ok s refl v)
]

act-IsAbandoned : (k : ℕ) (a : Act) (s : Sys) → IsAbandoned k s → IsAbandoned k (act a s)
unfolding act worker_step is_current
act-IsAbandoned k (works ok) s v = worker_step-IsAbandoned k ok s v
act-IsAbandoned k (submits j) s v = submit-IsAbandoned k j s v
act-IsAbandoned k (drains j) s v = drain-IsAbandoned k j s v
act-IsAbandoned k (closes j) s v = close-IsAbandoned k j s v
act-IsAbandoned k cancels s v = cancel-IsAbandoned k s v
act-IsAbandoned k stops s v = record {
  was_handed = v.was_handed;
  not_held = v.not_held;
  not_freed = v.not_freed;
  unfinished = v.unfinished;
}

acts-IsAbandoned : (k : ℕ) (as' : List Act) (s : Sys) → IsAbandoned k s → IsAbandoned k (acts as' s)
unfolding acts
acts-IsAbandoned k [] s v = v
acts-IsAbandoned k (a ∷ as') s v = acts-IsAbandoned k as' (act a s) (act-IsAbandoned k a s v)

closed-IsAbandoned :
    (k : ℕ) (s : Sys)
    → (s.jobs k).handed ≡ true
    → (s.jobs k).attached ≡ true
    → (s.jobs k).frees ≡ 0
    → held k s ≡ false
    → IsAbandoned k (close k s)
unfolding close update put_job is_current
closed-IsAbandoned k s h a f q = let same : (k == k) ≡ true = ground arith in ground (arith, same)

-- A job whose connection closes after the worker is through with it, and before its reply is sent, is
-- never freed, whatever steps follow.
pub close_leaks :
    (k : ℕ) (s : Sys) (as' : List Act)
    → (s.jobs k).handed ≡ true
    → (s.jobs k).attached ≡ true
    → (s.jobs k).frees ≡ 0
    → held k s ≡ false
    → ((acts as' (close k s)).jobs k).frees ≡ 0
close_leaks k s as' h a f q =
    (acts-IsAbandoned k as' (close k s) (closed-IsAbandoned k s h a f q)).not_freed

-- The job that `worker_submit` took, when the worker clears `current_job`.
dropped-IsAbandoned :
    (j k : ℕ) (s : Sys) (ok : Bool)
    → s.place ≡ stored j
    → is_busy s ≡ false
    → (j == k) ≡ false
    → (s.jobs k).handed ≡ false
    → (s.jobs k).ring_done ≡ false
    → (s.jobs k).frees ≡ 0
    → (((submit_job k s).jobs k).attached ≡ true) × IsAbandoned k (worker_step ok (submit_job k s))
unfolding worker_step submit_job submit accept_job update put_job is_current work_at at uses_freed
dropped-IsAbandoned j k s ok e free other new quiet unfreed =
    let same : (k == k) ≡ true = ground arith in
    rw (new, free, same, e)
      (
        refl,
        record {
          was_handed = ground (arith, same);
          not_held = ground arith;
          not_freed = ground (arith, same);
          unfinished = ground (arith, same);
        },
      )

-- A new job that is submitted when the worker has stored the final state of job `j`, and has not yet
-- cleared `current_job`, is accepted and stored with its connection; but after the worker's next step it
-- is never freed, whatever steps follow.
pub submit_drops :
    (j k : ℕ) (s : Sys) (ok : Bool) (as' : List Act)
    → s.place ≡ stored j
    → is_busy s ≡ false
    → (j == k) ≡ false
    → (s.jobs k).handed ≡ false
    → (s.jobs k).ring_done ≡ false
    → (s.jobs k).frees ≡ 0
    → (((submit_job k s).jobs k).attached ≡ true)
      × (((acts as' (worker_step ok (submit_job k s))).jobs k).frees ≡ 0)
submit_drops j k s ok as' e free other new quiet unfreed =
    let d = dropped-IsAbandoned j k s ok e free other new quiet unfreed in
    (d.0, (acts-IsAbandoned k as' (worker_step ok (submit_job k s)) d.1).not_freed)

-- The worker has stored the final state of the job, and the connection still leads to it.
record IsFinished (k : ℕ) (s : Sys) : Type 0 where
  at_stored : s.place ≡ stored k
  has_conn : (s.jobs k).attached ≡ true
  over : is_final (s.jobs k) ≡ true

-- From the submission on, four steps of the worker lead there.
finishes :
    (k : ℕ) (s : Sys) (w x y z : Bool)
    → s.place ≡ waiting
    → s.running ≡ true
    → s.current ≡ none
    → (s.jobs k).handed ≡ false
    → (s.jobs k).frees ≡ 0
    → IsFinished k (acts (submits k ∷ works w ∷ works x ∷ works y ∷ works z ∷ []) s)
unfolding acts act submit_job submit accept_job is_busy worker_step work_at uses_freed update
    put_job is_final is_busy_state
finishes k s w x y z at_rest on free new unfreed =
    let same : (k == k) ≡ true = ground arith in ground (arith, same)

early_end :
    (k : ℕ) (s : Sys) (y z : Bool)
    → IsFinished k s
    → (acts (drains k ∷ works y ∷ works z ∷ []) s).place ≡ undefined
unfolding acts act drain worker_step work_at uses_freed update put_job
early_end k s y z v = let same : (k == k) ≡ true = ground arith in ground (arith, same)

-- The worker waits with no job, and a new job is submitted. If the event loop sends its final reply, on
-- a wake-up for an earlier token or for another job, when the worker has stored the final state and has
-- not yet come back to the wait, then it frees a job that the worker still uses.
pub drain_frees_early :
    (k : ℕ) (s : Sys) (w x y ok v z : Bool)
    → s.place ≡ waiting
    → s.running ≡ true
    → s.current ≡ none
    → (s.jobs k).handed ≡ false
    → (s.jobs k).frees ≡ 0
    → let done_at = acts (submits k ∷ works w ∷ works x ∷ works y ∷ works ok ∷ []) s in
      (acts (drains k ∷ works v ∷ works z ∷ []) done_at).place ≡ undefined
drain_frees_early k s w x y ok v z at_rest on free new unfreed =
    early_end k (acts (submits k ∷ works w ∷ works x ∷ works y ∷ works ok ∷ []) s) v z
      (finishes k s w x y ok at_rest on free new unfreed)
