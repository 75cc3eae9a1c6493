-- ===== src/Worker/Owned.antt =====
-- src/worker.c and src/server.c: who may still free a job, and that every step of a thread keeps to it.
use professor_ai.Prelude.{
  ℕ, ◌+◌, ◌≤◌, ◌≡◌, refl, ◌⊎◌, inl, inr, Bool, true, false, ◌||◌, none, some, ◌==◌, arith,
  Bool-cases, Option-cases,
}
use professor_ai.Worker.Protocol.{
  idle, Place, waiting, taken, generating, ended, stored, cleared, stopped, undefined, Sys, at,
  is_busy_state, is_final, is_timely, put_job, update, is_busy, submit, accept_job, cancel_current,
  work_at, drain, submit_job, close, drains, start, new_job,
}

unfoldable pub at_cleared : ℕ → Place → Bool
at_cleared k (cleared j) = j == k
at_cleared k _ = false

unfoldable pub is_current : ℕ → Sys → Bool
is_current k s = elim (s.current) [ none ↦ false | some j ↦ j == k ]

-- The worker works on the job or will.
abbrev pub held : ℕ → Sys → Bool
held k s = at k s.place || is_current k s

-- Who may still free job `k`.
pub record IsOwned (k : ℕ) (s : Sys) : Type 0 where
  pub once : (s.jobs k).frees ≤ 1
  pub by_loop :
      ((s.jobs k).attached ≡ false)
      ⊎ ((s.jobs k).frees ≡ 0) × ((s.jobs k).orphaned ≡ false) × ((s.jobs k).handed ≡ true)
  pub alive : (held k s ≡ false) ⊎ ((s.jobs k).frees ≡ 0)
  pub held_handed : (held k s ≡ false) ⊎ ((s.jobs k).handed ≡ true)
  pub fresh_clean :
      ((s.jobs k).handed ≡ true)
      ⊎ ((s.jobs k).orphaned ≡ false) × ((s.jobs k).frees ≡ 0) × ((s.jobs k).ring_done ≡ false)
  pub taken_once : (at_cleared k s.place ≡ false) ⊎ (is_current k s ≡ false)
  pub quiet :
      (is_current k s ≡ false)
      ⊎ (at k s.place ≡ true)
      ⊎ ((s.jobs k).state ≡ idle) × ((s.jobs k).ring_done ≡ false)

pub drain-IsOwned :
    (k j : ℕ) (s : Sys) → is_timely (drains j) s ≡ true → IsOwned k s → IsOwned k (drain j s)
unfolding drain update put_job is_current is_final is_busy_state is_timely
drain-IsOwned k j s t v = ground arith

pub close-IsOwned : (k j : ℕ) (s : Sys) → IsOwned k s → IsOwned k (close j s)
unfolding close update put_job is_current
close-IsOwned k j s v = ground arith

pub cancel-IsOwned : (k : ℕ) (s : Sys) → IsOwned k s → IsOwned k (cancel_current s)
unfolding cancel_current update put_job is_current
cancel-IsOwned k s v = ground arith

pub stop-IsOwned : (k : ℕ) (s : Sys) → IsOwned k s → IsOwned k (record s { running = false })
unfolding is_current
stop-IsOwned k s v = ground arith

at_cleared-at : (k : ℕ) (p : Place) → (at_cleared k p ≡ false) ⊎ (at k p ≡ true)
unfolding at at_cleared
at_cleared-at k waiting = inl refl
at_cleared-at k (taken j) = inl refl
at_cleared-at k (generating j) = inl refl
at_cleared-at k (ended j) = inl refl
at_cleared-at k (stored j) = inl refl
at_cleared-at k (cleared j) = ground arith
at_cleared-at k stopped = inl refl
at_cleared-at k undefined = inl refl

accepted-IsOwned :
    (k j : ℕ) (s : Sys)
    → (s.jobs j).handed ≡ false
    → IsOwned k s
    → IsOwned k (update j (λ job. record job { handed = true; attached = true }) (accept_job j s))
unfolding accept_job update put_job is_current
accepted-IsOwned k j s new v =
    let same : (j == j) ≡ true = ground arith in ground (arith, same, at_cleared-at k s.place)

refused-IsOwned :
    (k j : ℕ) (s : Sys)
    → (s.jobs j).handed ≡ false
    → IsOwned k s
    → IsOwned k (update j (λ job. record job { handed = true; frees = job.frees + 1 }) s)
unfolding update put_job is_current
refused-IsOwned k j s new v = ground arith

pub submit-IsOwned : (k j : ℕ) (s : Sys) → IsOwned k s → IsOwned k (submit_job j s)
unfolding submit_job submit
submit-IsOwned k j s v = elim (Bool-cases (s.jobs j).handed) [
  | inl old ↦ rw old v
  | inr new ↦ elim (Bool-cases (is_busy s)) [
    | inl h ↦ rw (new, h) (refused-IsOwned k j s new v)
    | inr h ↦ rw (new, h) (accepted-IsOwned k j s new v)
  ]
]

-- The worker takes the job that it finds.
take-IsOwned :
    (k j : ℕ) (s : Sys)
    → s.place ≡ waiting
    → s.current ≡ some j
    → IsOwned k s
    → IsOwned k (record s { place = taken j })
unfolding at at_cleared is_current
take-IsOwned k j s e c v = ground arith

quit-IsOwned :
    (k : ℕ) (running : Bool) (s : Sys)
    → s.place ≡ waiting
    → IsOwned k s
    → IsOwned k (record s { running = running; place = stopped })
unfolding at at_cleared is_current
quit-IsOwned k running s e v = ground arith

pub work_at-IsOwned :
    (k : ℕ) (p : Place) (ok : Bool) (s : Sys)
    → s.place ≡ p
    → IsOwned k s
    → IsOwned k (work_at p ok s)
unfolding work_at update put_job at at_cleared is_current
work_at-IsOwned k waiting ok s e v = elim (Bool-cases s.running) [
  | inl go ↦ elim (Option-cases s.current) [
    | inl c ↦ rw (go, c) v
    | inr (j, c) ↦ rw (go, c) (take-IsOwned k j s e c v)
  ]
  | inr over ↦ rw over (quit-IsOwned k false s e v)
]
work_at-IsOwned k (taken j) ok s e v = ground arith
work_at-IsOwned k (generating j) ok s e v = ground arith
work_at-IsOwned k (ended j) ok s e v = ground arith
work_at-IsOwned k (stored j) ok s e v = ground arith
work_at-IsOwned k (cleared j) ok s e v = ground arith
work_at-IsOwned k stopped ok s e v = v
work_at-IsOwned k undefined ok s e v = v

pub start-IsOwned : (k : ℕ) (streams : ℕ → Bool) → IsOwned k (start streams)
unfolding start new_job at at_cleared is_current
start-IsOwned k streams = ground arith
