-- ===== src/Worker/Protocol.antt =====
-- src/worker.c and src/server.c: the life of jobs between the event loop and the worker thread.
-- Each step is what a thread does between two points where the other thread can see a difference.
use professor_ai.Prelude.{
  ℕ, ◌+◌, Bool, true, false, not, ◌&&◌, ◌||◌, Option, none, some, List, [], ◌∷◌, if◌then◌else◌,
  ◌==◌, ltb,
}

-- `job_state_t`
pub data JobState : Type 0 where
  idle running done error : JobState

unfoldable pub is_busy_state : JobState → Bool
is_busy_state idle = true
is_busy_state running = true
is_busy_state done = false
is_busy_state error = false

-- A `worker_job_t` as far as both threads use it. `attached`: its connection's `fn_data` leads to it;
-- `handed`: `submit_inference_job` has handed it to the worker; `frees`: how often it was freed.
pub record Job : Type 0 where
  pub stream : Bool
  pub state : JobState
  pub cancel : Bool
  pub orphaned : Bool
  pub has_mgr : Bool
  pub ring_done : Bool
  pub attached : Bool
  pub handed : Bool
  pub frees : ℕ

-- `calloc` and `worker_job_init`, with the fields that `submit_inference_job` sets.
unfoldable pub new_job : Bool → Job
new_job stream = record {
  stream = stream;
  state = idle;
  cancel = false;
  orphaned = false;
  has_mgr = true;
  ring_done = false;
  attached = false;
  handed = false;
  frees = 0;
}

-- Where the worker thread stands, and with which job: before it looks for a job; the job is read but
-- its state not yet stored; inside `inference_chat` or `inference_complete`; behind the ring's `done`;
-- behind the store of the final state; behind `current_job = NULL`; out of the loop. `undefined`: it
-- has used a job that was freed, from where on C says nothing.
pub data Place : Type 0 where
  waiting : Place
  taken : ℕ → Place
  generating : ℕ → Place
  ended : ℕ → Place
  stored : ℕ → Place
  cleared : ℕ → Place
  stopped : Place
  undefined : Place

pub record Sys : Type 0 where
  pub jobs : ℕ → Job
  pub current : Option ℕ
  pub running : Bool
  pub place : Place

unfoldable pub put_job : (ℕ → Job) → ℕ → Job → ℕ → Job
put_job jobs j job k = if k == j then job else jobs k

unfoldable pub update : ℕ → (Job → Job) → Sys → Sys
update j f s = record s { jobs = put_job s.jobs j (f (s.jobs j)) }

-- `worker_is_busy`, and the test of `worker_submit`.
unfoldable pub is_busy : Sys → Bool
is_busy s = elim (s.current) [ none ↦ false | some j ↦ is_busy_state (s.jobs j).state ]

-- `worker_submit(w, job)`: what it stores, and whether it returns 0.
unfoldable pub accept_job : ℕ → Sys → Sys
accept_job j s =
    update j (λ job. record job { state = idle; cancel = false }) (record s { current = some j })

unfoldable pub submit : ℕ → Sys → Sys × Bool
submit j s = if is_busy s then (s, false) else (accept_job j s, true)

-- `worker_cancel`
unfoldable pub cancel_current : Sys → Sys
cancel_current s = elim (s.current) [
  | none ↦ s
  | some j ↦ update j (λ job. record job { cancel = true }) s
]

-- One step of `worker_thread_func` from each place. `ok` says whether the inference returns 0.
unfoldable pub work_at : Place → Bool → Sys → Sys
work_at waiting ok s =
    if not s.running
    then record s { place = stopped }
    else elim (s.current) [ none ↦ s | some j ↦ record s { place = taken j } ]
work_at (taken j) ok s =
    update j (λ job. record job { state = running }) (record s { place = generating j })
work_at (generating j) ok s =
    update j (λ job. record job { ring_done = job.stream || job.ring_done })
      (record s { place = ended j })
work_at (ended j) ok s =
    update j (λ job. record job { state = if ok then done else error })
      (record s { place = stored j })
work_at (stored j) ok s = record s { place = cleared j; current = none }
work_at (cleared j) ok s =
    update j (λ job. record job { frees = if job.orphaned then job.frees + 1 else job.frees })
      (record s { place = waiting })
work_at stopped ok s = s
work_at undefined ok s = s

-- The next step reads or writes a job that was freed. From `stored` on it only logs the job's fields.
unfoldable pub uses_freed : Place → Sys → Bool
uses_freed (taken j) s = ltb 0 (s.jobs j).frees
uses_freed (generating j) s = ltb 0 (s.jobs j).frees
uses_freed (ended j) s = ltb 0 (s.jobs j).frees
uses_freed (cleared j) s = ltb 0 (s.jobs j).frees
uses_freed _ s = false

unfoldable pub worker_step : Bool → Sys → Sys
unfolding work_at uses_freed
worker_step ok s =
    if uses_freed s.place s then record s { place = undefined } else work_at s.place ok s

-- `drain_stream_ring` sends the final reply and frees the job: for a stream when the ring, which it has
-- just drained, is `done`, else when the state is final.
unfoldable pub is_final : Job → Bool
is_final job = (job.stream && job.ring_done) || not (is_busy_state job.state)

unfoldable pub drain : ℕ → Sys → Sys
drain j s =
    if (s.jobs j).attached && is_final (s.jobs j)
    then update j (λ job. record job { attached = false; frees = job.frees + 1 }) s
    else s

-- `worker_submit` in `submit_inference_job`: a job that the worker takes is stored with its connection,
-- one that it refuses is freed. No job goes there twice.
unfoldable pub submit_job : ℕ → Sys → Sys
submit_job j s =
    if (s.jobs j).handed
    then s
    else (let (s', ok) = submit j s in
        if ok
        then update j (λ job. record job { handed = true; attached = true }) s'
        else update j (λ job. record job { handed = true; frees = job.frees + 1 }) s')

-- MG_EV_CLOSE on a connection with a job.
unfoldable pub close : ℕ → Sys → Sys
close j s =
    if (s.jobs j).attached
    then update j
        (λ job. record job { cancel = true; has_mgr = false; orphaned = true; attached = false }) s
    else s

-- The steps of both threads.
pub data Act : Type 0 where
  works : Bool → Act
  submits drains closes : ℕ → Act
  cancels stops : Act

unfoldable pub act : Act → Sys → Sys
act (works ok) s = worker_step ok s
act (submits j) s = submit_job j s
act (drains j) s = drain j s
act (closes j) s = close j s
act cancels s = cancel_current s
act stops s = record s { running = false }

unfoldable pub acts : List Act → Sys → Sys
unfolding act
acts [] s = s
acts (a ∷ as') s = acts as' (act a s)

-- The worker stands at job `k`.
unfoldable pub at : ℕ → Place → Bool
at k waiting = false
at k (taken j) = j == k
at k (generating j) = j == k
at k (ended j) = j == k
at k (stored j) = j == k
at k (cleared j) = j == k
at k stopped = false
at k undefined = false

-- The step is no final reply to a job at which the worker still stands.
unfoldable pub is_timely : Act → Sys → Bool
unfolding at is_final
is_timely (drains j) s = not (at j s.place && (s.jobs j).attached && is_final (s.jobs j))
is_timely _ s = true

unfoldable pub all_timely : List Act → Sys → Bool
unfolding is_timely act
all_timely [] s = true
all_timely (a ∷ as') s = is_timely a s && all_timely as' (act a s)

unfoldable pub worker_steps : List Bool → Sys → Sys
unfolding worker_step
worker_steps [] s = s
worker_steps (ok ∷ oks) s = worker_steps oks (worker_step ok s)

-- No job, and the worker in its loop.
unfoldable pub start : (ℕ → Bool) → Sys
unfolding new_job
start streams = record {
  jobs = λ j. new_job (streams j);
  current = none;
  running = true;
  place = waiting;
}
